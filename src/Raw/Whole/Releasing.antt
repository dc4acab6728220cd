-- ===== src/Raw/Whole/Releasing.antt =====
-- A command that leaves the place where it waits, and the end of the connection of hiredis::happ::raw.
use hiredis_happ.Common.{
  ℕ, ◌≡◌, ◌≢◌, refl, sym, ap, ◌∙◌, subst, arith, inl, inr, Bool, true, false, [], ◌∷◌, ◌++◌, List,
  All, All-append, Option, none, some, ℤ,
}
use hiredis_happ.Memory.Laws.{
  Distinct, Distinct-apart, Distinct-suffix, Distinct-prefix, All-suffix, All-prefix,
}
use hiredis_happ.Memory.Members.{
  All-map, All-zip, All-at, All-insert, All-remove, Distinct-remove, Distinct-before,
}
use hiredis_happ.Connection.Queue.Pop.{contains-split}
use hiredis_happ.Raw.State.{Raw, Delay}
use hiredis_happ.Raw.Pending.{waiting}
use hiredis_happ.Raw.Release.{release_current, release_connection}
use hiredis_happ.Raw.Teardown.{closed, release_connection_lem}
use hiredis_happ.Raw.Settling.Framing.{queue, queue-some}
use hiredis_happ.Raw.Whole.{IsSendable, Linked, owned, IsWhole, Floats, still-IsSendable, IsLive-of}
use hiredis_happ.Raw.Whole.Framed.{apart_of}

-- The command `c` leaves its place.
pub take-Floats :
    (c : ℕ) (r s : Raw) (xs ys : List ℕ)
    → owned r ≡ xs ++ c ∷ ys
    → owned s ≡ xs ++ ys
    → s.mem.cmds ≡ r.mem.cmds
    → s.mem.next_cmd ≡ r.mem.next_cmd
    → s.auth ≡ r.auth
    → Linked s.mem.conns s.conn
    → IsWhole r
    → Floats c s
take-Floats c r s xs ys before after cmds next auth linked h =
    let sendable = subst (λ l. All (IsSendable r.mem) l) before h.sendable in
    let (distinct, apart) = Distinct-remove c xs ys (subst (λ l. Distinct l) before h.distinct) in
    record {
      rest = record {
        linked = linked;
        sendable =
            subst (λ l. All (IsSendable s.mem) l) (sym after)
              (All-map (xs ++ ys) (λ d h. still-IsSendable r.mem s.mem d (ap (λ f. f d) cmds) h)
                (All-remove (IsSendable r.mem) c xs ys sendable));
        distinct = subst (λ l. Distinct l) (sym after) distinct;
        none_lost = λ d ne free.
            ap (λ f. f d) cmds
            ∙ h.none_lost d tt (
                subst (λ l. All (λ x. x ≢ d) l) (sym before)
                  (All-insert (λ x. x ≢ d) c xs ys (λ e. ne (sym e))
                    (subst (λ l. All (λ x. x ≢ d) l) after free)));
        unmade = λ d le. ap (λ f. f d) cmds ∙ h.unmade d (omega (arith, le, next));
        no_auth_fn = ap (λ a. a.auth_fn) auth ∙ h.no_auth_fn;
        no_password = ap (λ a. a.password) auth ∙ h.no_password;
      };
      own =
          still-IsSendable r.mem s.mem c (ap (λ f. f c) cmds)
            (All-at (IsSendable r.mem) c xs ys sendable);
      apart = subst (λ l. All (λ d. d ≢ c) l) (sym after) apart;
    }

-- The first of the commands that wait for the timer leaves them.
pub due-Floats :
    (d : Delay) (rest : List Delay) (r : Raw)
    → r.timer.timer_pending ≡ d ∷ rest
    → IsWhole r
    → Floats d.cmd (record r { timer = record (r.timer) { timer_pending = rest } })
due-Floats d rest r e h =
    let q = queue r.mem.conns r.conn in
    take-Floats d.cmd r (record r { timer = record (r.timer) { timer_pending = rest } }) q
      (waiting rest) (ap (λ p. q ++ waiting p) e) refl refl refl refl h.linked h

-- The commands `lost` were freed, and those of `keep` wait as before.
left-IsWhole :
    (r s : Raw) (lost keep : List ℕ)
    → owned s ≡ keep
    → All (IsSendable r.mem) keep
    → Distinct keep
    → All (λ d. All (λ x. x ≢ d) lost) keep
    → ((d : ℕ) → All (λ x. x ≢ d) lost → All (λ x. x ≢ d) keep → All (λ x. x ≢ d) (owned r))
    → ((d : ℕ) → All (λ x. x ≢ d) (owned r) → All (λ x. x ≢ d) lost)
    → All (λ x. s.mem.cmds x ≡ none) lost
    → ((d : ℕ) → All (λ x. x ≢ d) lost → s.mem.cmds d ≡ r.mem.cmds d)
    → s.mem.next_cmd ≡ r.mem.next_cmd
    → s.auth ≡ r.auth
    → Linked s.mem.conns s.conn
    → IsWhole r
    → IsWhole s
left-IsWhole r s lost keep e sendable distinct apart cover part gone others next auth linked h =
    record {
      linked = linked;
      sendable =
          subst (λ l. All (IsSendable s.mem) l) (sym e)
            (All-zip keep (λ d far x. still-IsSendable r.mem s.mem d (others d far) x) apart
              sendable);
      distinct = subst (λ l. Distinct l) (sym e) distinct;
      none_lost = λ d t free. elim (contains-split d lost) [
        | inl (_, far) ↦
            others d far ∙ h.none_lost d tt (cover d far (subst (λ l. All (λ x. x ≢ d) l) e free))
        | inr (pre, rest, split, first) ↦
            All-at (λ x. s.mem.cmds x ≡ none) d pre rest
              (subst (λ l. All (λ x. s.mem.cmds x ≡ none) l) split gone)
      ];
      unmade = λ d le.
          let free = h.unmade d (omega (arith, le, next)) in
          others d (part d (apart_of r.mem d (owned r) free h.sendable)) ∙ free;
      no_auth_fn = ap (λ a. a.auth_fn) auth ∙ h.no_auth_fn;
      no_password = ap (λ a. a.password) auth ∙ h.no_password;
    }

-- The first commands that wait were freed.
pub front-IsWhole :
    (r s : Raw) (lost keep : List ℕ)
    → owned r ≡ lost ++ keep
    → owned s ≡ keep
    → All (λ x. s.mem.cmds x ≡ none) lost
    → ((d : ℕ) → All (λ x. x ≢ d) lost → s.mem.cmds d ≡ r.mem.cmds d)
    → s.mem.next_cmd ≡ r.mem.next_cmd
    → s.auth ≡ r.auth
    → Linked s.mem.conns s.conn
    → IsWhole r
    → IsWhole s
front-IsWhole r s lost keep before after gone others next auth linked h =
    let distinct = subst (λ l. Distinct l) before h.distinct in
    left-IsWhole r s lost keep after
      (All-suffix (IsSendable r.mem) lost keep
        (subst (λ l. All (IsSendable r.mem) l) before h.sendable))
      (Distinct-suffix lost keep distinct) (Distinct-apart lost keep distinct)
      (λ d far free.
        subst (λ l. All (λ x. x ≢ d) l) (sym before) (All-append (λ x. x ≢ d) lost keep far free))
      (λ d free. All-prefix (λ x. x ≢ d) lost keep (subst (λ l. All (λ x. x ≢ d) l) before free))
      gone others next auth linked h

-- The last commands that wait were freed.
pub back-IsWhole :
    (r s : Raw) (keep lost : List ℕ)
    → owned r ≡ keep ++ lost
    → owned s ≡ keep
    → All (λ x. s.mem.cmds x ≡ none) lost
    → ((d : ℕ) → All (λ x. x ≢ d) lost → s.mem.cmds d ≡ r.mem.cmds d)
    → s.mem.next_cmd ≡ r.mem.next_cmd
    → s.auth ≡ r.auth
    → Linked s.mem.conns s.conn
    → IsWhole r
    → IsWhole s
back-IsWhole r s keep lost before after gone others next auth linked h =
    let distinct = subst (λ l. Distinct l) before h.distinct in
    left-IsWhole r s lost keep after
      (All-prefix (IsSendable r.mem) keep lost
        (subst (λ l. All (IsSendable r.mem) l) before h.sendable))
      (Distinct-prefix keep lost distinct) (Distinct-before keep lost distinct)
      (λ d far free.
        subst (λ l. All (λ x. x ≢ d) l) (sym before) (All-append (λ x. x ≢ d) keep lost free far))
      (λ d free. All-suffix (λ x. x ≢ d) keep lost (subst (λ l. All (λ x. x ≢ d) l) before free))
      gone others next auth linked h

-- The same commands wait as before.
pub same-IsWhole :
    (r s : Raw)
    → owned s ≡ owned r
    → s.mem.cmds ≡ r.mem.cmds
    → s.mem.next_cmd ≡ r.mem.next_cmd
    → s.auth ≡ r.auth
    → Linked s.mem.conns s.conn
    → IsWhole r
    → IsWhole s
same-IsWhole r s e cmds next auth linked h =
    front-IsWhole r s [] (owned r) refl e tt (λ d far. ap (λ f. f d) cmds) next auth linked h

-- What the end of the connection leaves.
pub record Released (r s : Raw) : Type 0 where
  pub whole : IsWhole s
  pub no_conn : s.conn ≡ none
  pub pending_same : s.timer.timer_pending ≡ r.timer.timer_pending
  pub conf_same : s.conf ≡ r.conf

pub release-Released :
    (close_fd : Bool) (status : ℤ) (r : Raw)
    → IsWhole r
    → (b : Bool) × (s : Raw) × (release_connection close_fd status r ≡ some (b, s)) × Released r s
unfolding release_connection release_current
release-Released close_fd status r h = by_conn r.conn refl h.linked
  where
    by_conn :
        (o : Option ℕ)
        → r.conn ≡ o
        → Linked r.mem.conns o
        → (b : Bool) × (s : Raw) × (release_connection close_fd status r ≡ some (b, s))
          × Released r s
    by_conn none e linked = (
      false,
      r,
      ap (λ o. release_current close_fd status o r) e,
      record { whole = h; no_conn = e; pending_same = refl; conf_same = refl },
    )
    by_conn (some k) e (conn, hk, open_conn) =
        let l = conn.reply_list in
        let w = waiting r.timer.timer_pending in
        let q : owned r ≡ l ++ w = ap (λ p. p ++ w) (queue-some r.mem.conns r.conn k conn e hk) in
        let (n, run, c) =
          release_connection_lem close_fd status r k conn e hk open_conn.not_closed
            (IsLive-of r.mem l (
              All-prefix (IsSendable r.mem) l w
                (subst (λ p. All (IsSendable r.mem) p) q h.sendable)))
            (Distinct-prefix l w (subst (λ p. Distinct p) q h.distinct)) in
        (
          true,
          closed r n,
          run,
          record {
            whole =
                front-IsWhole r (closed r n) l w q refl c.gone c.other_cmds c.next_cmd_same refl tt
                  h;
            no_conn = refl;
            pending_same = refl;
            conf_same = refl;
          },
        )
