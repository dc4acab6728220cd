-- ===== src/Raw/Whole/Executing.antt =====
-- exec of hiredis::happ::raw keeps the whole state, whatever hiredis answers.
use hiredis_happ.Common.{
  ℕ, ltb, ◌||◌, ◌+◌, ◌≤◌, ◌≡◌, refl, sym, ap, ◌∙◌, subst, arith, true, [], ◌∷◌, ◌++◌, List, All,
  Option, some, append_assoc, append-nil,
}
use hiredis_happ.Cmd
use hiredis_happ.Memory.{Conn, Driver, update, M}
use hiredis_happ.Memory.Laws.{update-here}
use hiredis_happ.Raw.State.{Raw, Delay, Config, is_timer_available}
use hiredis_happ.Raw.{exec}
use hiredis_happ.Raw.Pending.{waiting}
use hiredis_happ.Raw.Settling.{Settled, ended, waits, pends, Settles}
use hiredis_happ.Raw.Settling.Framing.{queue, Frame, queue-some}
use hiredis_happ.Raw.Settling.Retries.{exec-Settles}
use hiredis_happ.Raw.Whole.{Linked, IsWhole, Floats, Floats-IsReady}
use hiredis_happ.Raw.Whole.Framed.{Floats-Frame}
use hiredis_happ.Raw.Whole.Settling.{IsOpen-at, again-IsOpen, more-Holds, fewer-Holds}

-- A command that was handed to the timer waits for its interval, which is not zero.
pub record IsPushed (r : Raw) (d : Delay) : Type 0 where
  pub available : is_timer_available r ≡ true
  pub sec_after : d.sec ≡ r.timer.last_update_sec + r.conf.timer_interval_sec
  pub usec_after : d.usec ≡ r.timer.last_update_usec + r.conf.timer_interval_usec

-- What exec leaves of the command `c`.
pub record Executed (c : ℕ) (r s : Raw) : Type 0 where
  pub whole : IsWhole s
  pub conf_same : s.conf ≡ r.conf
  pub sec_same : s.timer.last_update_sec ≡ r.timer.last_update_sec
  pub usec_same : s.timer.last_update_usec ≡ r.timer.last_update_usec
  -- Only the command itself may be new among those that wait for the timer, from its interval on.
  pub pended :
      (l : List Delay) × (s.timer.timer_pending ≡ r.timer.timer_pending ++ l) × All (IsPushed r) l

pub waiting-append : (l r : List Delay) → waiting (l ++ r) ≡ waiting l ++ waiting r
waiting-append [] r = refl
waiting-append (d ∷ l) r = ap (λ t. d.cmd ∷ t) (waiting-append l r)

module _ (c : ℕ) (u : Raw) (f : Floats c u) where
  queued-IsWhole :
      (k : ℕ) (conn : Conn)
      → u.conn ≡ some k
      → u.mem.conns k ≡ some conn
      → (s : Raw) → s.conn ≡ some k
      → s.mem.conns k ≡ some (record conn { reply_list = conn.reply_list ++ c ∷ [] })
      → s.timer ≡ u.timer
      → s.mem.cmds ≡ u.mem.cmds
      → s.mem.next_cmd ≡ u.mem.next_cmd
      → s.auth ≡ u.auth
      → IsWhole s
  queued-IsWhole k conn hc hk s hs hks timer cmds next auth =
      let w = waiting u.timer.timer_pending in
      more-Holds c u s conn.reply_list w
        (ap (λ l. l ++ w) (queue-some u.mem.conns u.conn k conn hc hk))
        (ap (λ l. l ++ waiting s.timer.timer_pending)
            (queue-some s.mem.conns s.conn k
              (record conn { reply_list = conn.reply_list ++ c ∷ [] }) hs hks)
          ∙ ap (λ t. (conn.reply_list ++ c ∷ []) ++ waiting t.timer_pending) timer
          ∙ append_assoc conn.reply_list (c ∷ []) w)
        cmds next auth
        (subst (λ o. Linked s.mem.conns o) (sym hs)
          (
            record conn { reply_list = conn.reply_list ++ c ∷ [] },
            hks,
            again-IsOpen conn (conn.reply_list ++ c ∷ [])
                (IsOpen-at u.mem.conns u.conn k conn f.rest.linked hc hk),
          ))
        f

  Settled-Executed : (s : Raw) → Settled c u s → Executed c u s
  Settled-Executed s (ended m e dead others conns next) = subst (Executed c u) (sym e) (record {
    whole = fewer-Holds c u m dead others conns next f;
    conf_same = refl;
    sec_same = refl;
    usec_same = refl;
    pended = ([], sym (append-nil u.timer.timer_pending), tt);
  })
  Settled-Executed s (waits k conn t hc hk e) =
      let conn' = record conn { reply_list = conn.reply_list ++ c ∷ [] } in
      let v = record u {
        mem = record (u.mem) { conns = update u.mem.conns k (some conn'); trace = t };
      } in
      subst (Executed c u) (sym e) (record {
        whole =
            queued-IsWhole k conn hc hk v hc (update-here u.mem.conns k (some conn')) refl refl refl
              refl;
        conf_same = refl;
        sec_same = refl;
        usec_same = refl;
        pended = ([], sym (append-nil u.timer.timer_pending), tt);
      })
  Settled-Executed s (pends d e hd available sec usec) =
      let q = queue u.mem.conns u.conn in
      let w = waiting u.timer.timer_pending in
      let v = record u {
        timer = record (u.timer) { timer_pending = u.timer.timer_pending ++ d ∷ [] };
      } in
      subst (Executed c u) (sym e) (record {
        whole =
            more-Holds c u v (q ++ w) [] (sym (append-nil (q ++ w)))
              (ap (λ l. q ++ l) (waiting-append u.timer.timer_pending (d ∷ []))
                ∙ ap (λ x. q ++ (w ++ x ∷ [])) hd
                ∙ sym (append_assoc q w (c ∷ [])))
              refl refl refl f.rest.linked f;
        conf_same = refl;
        sec_same = refl;
        usec_same = refl;
        pended = (
          d ∷ [],
          refl,
          (record { available = available; sec_after = sec; usec_after = usec }, tt),
        );
      })

IsPushed-same :
    (r u : Raw) (l : List Delay)
    → u.conf ≡ r.conf
    → u.timer.last_update_sec ≡ r.timer.last_update_sec
    → u.timer.last_update_usec ≡ r.timer.last_update_usec
    → All (IsPushed u) l
    → All (IsPushed r) l
unfolding is_timer_available
IsPushed-same r u [] conf sec usec h = tt
IsPushed-same r u (d ∷ l) conf sec usec h = (
  record {
    available =
        ap (λ (k : Config). ltb 0 k.timer_interval_sec || ltb 0 k.timer_interval_usec) (sym conf)
        ∙ h.0.available;
    sec_after = h.0.sec_after ∙ omega (arith, sec, ap (λ (k : Config). k.timer_interval_sec) conf);
    usec_after =
        h.0.usec_after ∙ omega (arith, usec, ap (λ (k : Config). k.timer_interval_usec) conf);
  },
  IsPushed-same r u l conf sec usec h.1,
)

Executed-Frame : (c : ℕ) (r u s : Raw) → Frame c r u → Executed c u s → Executed c r s
Executed-Frame c r u s g x = record {
  whole = x.whole;
  conf_same = x.conf_same ∙ g.conf_same;
  sec_same = x.sec_same ∙ g.sec_same;
  usec_same = x.usec_same ∙ g.usec_same;
  pended =
      let (l, e, h) = x.pended in
      (
        l,
        e ∙ ap (λ p. p ++ l) g.pending_same,
        IsPushed-same r u l g.conf_same g.sec_same g.usec_same h,
      );
}

-- What settles a command that waited nowhere keeps the whole state.
pub Settles-Executed :
    (c : ℕ) (x : M Raw (Option ℕ)) (r : Raw)
    → Floats c r
    → Settles c x r
    → (res : Option ℕ) × (s : Raw) × (x r ≡ some (res, s)) × Executed c r s
Settles-Executed c x r f (res, u, s, e, g, settled) =
    (res, s, e, Executed-Frame c r u s g (Settled-Executed c u (Floats-Frame c r u g f) s settled))

pub exec-Executed :
    (driver : Driver) (c fuel : ℕ) (r : Raw)
    → Cmd.default_ttl ≤ fuel
    → Floats c r
    → (res : Option ℕ) × (s : Raw) × (exec driver fuel (some c) r ≡ some (res, s)) × Executed c r s
exec-Executed driver c fuel r enough f =
    Settles-Executed c (exec driver fuel (some c)) r f
      (exec-Settles driver c fuel r (Floats-IsReady c fuel r enough f))
