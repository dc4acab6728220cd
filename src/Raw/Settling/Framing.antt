-- ===== src/Raw/Settling/Framing.antt =====
-- What exec of hiredis::happ::raw may change before the command has its place: the connection may have
-- been released, with the commands that wait on it, and a new one may have been made.
use hiredis_happ.Common.{
  ℕ, ◌≤◌, ◌≡◌, ◌≢◌, ◌⊎◌, inl, inr, refl, sym, ap, ◌∙◌, subst, arith, [], ◌∷◌, List, All, Option,
  none, some,
}
use hiredis_happ.Memory.{Cmd, Conn, connecting, Event}
use hiredis_happ.Raw.State.{Raw}

-- The commands that wait on a connection.
abbrev pub queue : (ℕ → Option Conn) → Option ℕ → List ℕ
queue f none = []
queue f (some k) = elim (f k) [ none ↦ [] | some conn ↦ conn.reply_list ]

-- A connection on which nothing waits yet, connecting over a context.
pub record IsFresh (conn : Conn) : Type 0 where
  pub context : ℕ
  pub has_context : conn.context ≡ some context
  pub is_connecting : conn.status ≡ connecting
  pub none_waits : conn.reply_list ≡ []

-- The commands of a list were freed, but for the command `c`.
abbrev pub Freed : ℕ → List ℕ → (ℕ → Option Cmd) → Type 0
Freed c l f = All (λ d. d ≢ c → f d ≡ none) l

-- The connection is as it was, or it is gone with the commands that waited on it, and there may be a new
-- one.
pub data Link (c : ℕ) (r s : Raw) : Type 0 where
  same :
      s.conn ≡ r.conn
      → s.mem.conns ≡ r.mem.conns
      → ((d : ℕ) → d ≢ c → s.mem.cmds d ≡ r.mem.cmds d)
      → Link c r s
  gone : s.conn ≡ none → Freed c (queue r.mem.conns r.conn) s.mem.cmds → Link c r s
  fresh :
      (k : ℕ) (conn : Conn)
      → s.conn ≡ some k
      → s.mem.conns k ≡ some conn
      → IsFresh conn
      → Freed c (queue r.mem.conns r.conn) s.mem.cmds
      → Link c r s

-- From `r` to `s`, the command `c` keeps its content and may lose sends; the commands that do not wait on
-- the connection stay.
pub record Frame (c : ℕ) (r s : Raw) : Type 0 where
  pub own :
      (x : Cmd)
      → r.mem.cmds c ≡ some x
      → (y : Cmd) × (s.mem.cmds c ≡ some y) × (y.content ≡ x.content) × (y.ttl ≤ x.ttl)
  pub others :
      (d : ℕ) → d ≢ c → All (λ x. x ≢ d) (queue r.mem.conns r.conn) → s.mem.cmds d ≡ r.mem.cmds d
  pub conf_same : s.conf ≡ r.conf
  pub auth_same : s.auth ≡ r.auth
  pub next_same : s.mem.next_cmd ≡ r.mem.next_cmd
  pub sec_same : s.timer.last_update_sec ≡ r.timer.last_update_sec
  pub usec_same : s.timer.last_update_usec ≡ r.timer.last_update_usec
  pub pending_same : s.timer.timer_pending ≡ r.timer.timer_pending
  pub link : Link c r s

-- A frame where nothing but the trace and the command `c` changes.
pub Frame-still :
    (c : ℕ) (r : Raw) (f : ℕ → Option Cmd) (t : List Event)
    → ((x : Cmd)
        → r.mem.cmds c ≡ some x
        → (y : Cmd) × (f c ≡ some y) × (y.content ≡ x.content) × (y.ttl ≤ x.ttl))
    → ((d : ℕ) → d ≢ c → f d ≡ r.mem.cmds d)
    → Frame c r (record r { mem = record (r.mem) { cmds = f; trace = t } })
Frame-still c r f t own hd = record {
  own = own;
  others = λ d ne free. hd d ne;
  conf_same = refl;
  auth_same = refl;
  next_same = refl;
  sec_same = refl;
  usec_same = refl;
  pending_same = refl;
  link = same refl refl hd;
}

pub Frame-trace :
    (c : ℕ) (r : Raw) (t : List Event) → Frame c r (record r { mem = record (r.mem) { trace = t } })
Frame-trace c r t = Frame-still c r r.mem.cmds t (λ x h. (x, h, refl, omega arith)) (λ d ne. refl)

pub Frame-refl : (c : ℕ) (r : Raw) → Frame c r r
Frame-refl c r = Frame-trace c r r.mem.trace

pub queue-some :
    (f : ℕ → Option Conn) (o : Option ℕ) (k : ℕ) (conn : Conn)
    → o ≡ some k
    → f k ≡ some conn
    → queue f o ≡ conn.reply_list
queue-some f o k conn ho hk = ap (queue f) ho ∙ rw (hk, queue) refl

-- The list of those that wait stays, or is empty.
pub queue-Link :
    (c : ℕ) (r s : Raw)
    → Link c r s
    → (queue s.mem.conns s.conn ≡ queue r.mem.conns r.conn)
      ⊎ ((queue s.mem.conns s.conn ≡ []) × Freed c (queue r.mem.conns r.conn) s.mem.cmds)
queue-Link c r s (same hc hk hd) = inl (ap (λ f. queue f s.conn) hk ∙ ap (queue r.mem.conns) hc)
queue-Link c r s (gone h freed) = inr (ap (queue s.mem.conns) h, freed)
queue-Link c r s (fresh k conn hc hk new freed) =
    inr (queue-some s.mem.conns s.conn k conn hc hk ∙ new.none_waits, freed)

-- What does not wait before does not wait after.
free-Link :
    (c d : ℕ) (r s : Raw)
    → Link c r s
    → All (λ x. x ≢ d) (queue r.mem.conns r.conn)
    → All (λ x. x ≢ d) (queue s.mem.conns s.conn)
free-Link c d r s a free = elim (queue-Link c r s a) [
  | inl e ↦ subst (λ l. All (λ x. x ≢ d) l) (sym e) free
  | inr (e, freed) ↦ subst (λ l. All (λ x. x ≢ d) l) (sym e) tt
]

still-Freed :
    (c : ℕ) (l : List ℕ) (f g : ℕ → Option Cmd)
    → ((d : ℕ) → d ≢ c → g d ≡ f d)
    → Freed c l f
    → Freed c l g
still-Freed c [] f g h freed = tt
still-Freed c (d ∷ l) f g h freed = ((λ ne. h d ne ∙ freed.0 ne), still-Freed c l f g h freed.1)

-- The commands that were freed stay so: they wait nowhere, or the connection is the same.
Freed-Frame :
    (c : ℕ) (l : List ℕ) (r s : Raw)
    → queue r.mem.conns r.conn ≡ []
    → Frame c r s
    → Freed c l r.mem.cmds
    → Freed c l s.mem.cmds
Freed-Frame c l r s empty g freed =
    still-Freed c l r.mem.cmds s.mem.cmds
      (λ d ne. g.others d ne (subst (λ l. All (λ x. x ≢ d) l) (sym empty) tt)) freed

Freed-later :
    (c : ℕ) (r s t : Raw)
    → Frame c r s
    → Frame c s t
    → Freed c (queue s.mem.conns s.conn) t.mem.cmds
    → Freed c (queue r.mem.conns r.conn) t.mem.cmds
Freed-later c r s t a b freed = elim (queue-Link c r s a.link) [
  | inl e ↦ subst (λ l. Freed c l t.mem.cmds) e freed
  | inr (e, before) ↦ Freed-Frame c (queue r.mem.conns r.conn) s t e b before
]

Link-trans :
    (c : ℕ) (r s t : Raw) → Frame c r s → Frame c s t → Link c r s → Link c s t → Link c r t
Link-trans c r s t a b l (gone h freed) = gone h (Freed-later c r s t a b freed)
Link-trans c r s t a b l (fresh k conn hc hk new freed) =
    fresh k conn hc hk new (Freed-later c r s t a b freed)
Link-trans c r s t a b (same hc hk hd) (same hc' hk' hd') =
    same (hc' ∙ hc) (hk' ∙ hk) (λ d ne. hd' d ne ∙ hd d ne)
Link-trans c r s t a b (gone h freed) (same hc' hk' hd') =
    gone (hc' ∙ h) (still-Freed c (queue r.mem.conns r.conn) s.mem.cmds t.mem.cmds hd' freed)
Link-trans c r s t a b (fresh k conn hc hk new freed) (same hc' hk' hd') =
    fresh k conn (hc' ∙ hc) (ap (λ f. f k) hk' ∙ hk) new
      (still-Freed c (queue r.mem.conns r.conn) s.mem.cmds t.mem.cmds hd' freed)

pub Frame-trans : {c : ℕ} {r s t : Raw} → Frame c r s → Frame c s t → Frame c r t
Frame-trans {c} {r} {s} {t} a b = record {
  own = λ x h.
      let (y, hy, content, ttl) = a.own x h in
      let (z, hz, content', ttl') = b.own y hy in
      (z, hz, content' ∙ content, omega (arith, ttl, ttl'));
  others = λ d ne free. b.others d ne (free-Link c d r s a.link free) ∙ a.others d ne free;
  conf_same = b.conf_same ∙ a.conf_same;
  auth_same = b.auth_same ∙ a.auth_same;
  next_same = b.next_same ∙ a.next_same;
  sec_same = b.sec_same ∙ a.sec_same;
  usec_same = b.usec_same ∙ a.usec_same;
  pending_same = b.pending_same ∙ a.pending_same;
  link = Link-trans c r s t a b a.link b.link;
}
