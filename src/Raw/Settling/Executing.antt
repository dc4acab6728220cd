-- ===== src/Raw/Settling/Executing.antt =====
-- exec over a connection of hiredis::happ::raw, and what it does where the connection is closing.
use hiredis_happ.Common.{
  ℕ, suc, ◌-◌, ◌≡◌, ◌≢◌, refl, sym, ap, ◌∙◌, subst, arith, true, false, Bool-cases, inl, inr, not,
  ◌==◌, ◌==ℤ◌, ◌&&◌, ◌||◌, if◌then◌else◌, [], ◌∷◌, List, All, Option, none, some, ℤ, pos,
}
use hiredis_happ.Common.ErrorCode
use hiredis_happ.Memory.{
  Cmd, Conn, Memory, Event, Driver, update, Status, disconnected, connecting, connected, get_cmd,
  get_conn, M, pure, ◌>>=◌,
}
use hiredis_happ.Memory.Laws.{IsLive, update-here, update-there}
use hiredis_happ.Connection.{is_disconnected}
use hiredis_happ.Connection.Transitions.{IsConsistent}
use hiredis_happ.Connection.Send.{redis_cmd}
use hiredis_happ.Raw.State.{Raw, lift}
use hiredis_happ.Raw.Release.{release_connection}
use hiredis_happ.Raw.Send.{is_current, send_failed, exec_on}
use hiredis_happ.Raw.Pending.{lift-some}
use hiredis_happ.Raw.Teardown.{closed, release_connection_lem}
use hiredis_happ.Raw.Settling.Framing.{
  gone, Freed, Frame, Frame-refl, Frame-still, Frame-trace, queue-some,
}
use hiredis_happ.Raw.Settling.{
  HoldsConn, IsReady, ended, waits, Settles, SettlesFrom, rebase, then-From, fail-Settles,
  then-Settles, read_cmd, read_conn, carry-IsReady,
}
use hiredis_happ.Raw.Settling.Sending.{Sent, redis_cmd-Sends}

IsLive-put :
    (c : ℕ) (y : Cmd) (m : Memory) (l : List ℕ)
    → All (λ d. d ≢ c) l
    → All (IsLive m) l
    → All (IsLive (record m { cmds = update m.cmds c (some y) })) l
IsLive-put c y m [] other live = tt
IsLive-put c y m (d ∷ l) other live =
    ((live.0.0, ground (arith, other.0, live.0.1)), IsLive-put c y m l other.1 live.1)

pub HoldsConn-put :
    (c : ℕ) (y : Cmd) (m : Memory) (o : Option ℕ)
    → HoldsConn c m o
    → HoldsConn c (record m { cmds = update m.cmds c (some y) }) o
HoldsConn-put c y m none h = tt
HoldsConn-put c y m (some k) (conn, hk, ok, live, distinct, other) =
    (conn, hk, ok, IsLive-put c y m conn.reply_list other live, distinct, other)

pub HoldsConn-trace :
    (c : ℕ) (m : Memory) (t : List Event) (o : Option ℕ)
    → HoldsConn c m o
    → HoldsConn c (record m { trace = t }) o
HoldsConn-trace c m t none h = tt
HoldsConn-trace c m t (some k) h = h

has_status :
    (conn : Conn) (context : ℕ)
    → IsConsistent conn
    → conn.context ≡ some context
    → is_disconnected conn.status ≡ false
unfolding is_disconnected
has_status conn context ok hc = by_status conn.status refl
  where
    by_status : (t : Status) → conn.status ≡ t → is_disconnected t ≡ false
    by_status disconnected h = cc (hc, ok.no_context h)
    by_status connecting h = refl
    by_status connected h = refl

same_conn : {x y : Conn} → some x ≡ some y → x ≡ y
same_conn e = cc

same_cmd : {x y : Cmd} → some x ≡ some y → x ≡ y
same_cmd e = cc

every-Freed : (c : ℕ) (l : List ℕ) (f : ℕ → Option Cmd) → All (λ d. f d ≡ none) l → Freed c l f
every-Freed c [] f h = tt
every-Freed c (d ∷ l) f h = ((λ ne. h.0), every-Freed c l f h.1)

module _ (driver : Driver) (again : ℕ → Option ℕ → M Raw (Option ℕ)) (c n : ℕ)
    (retries : (r : Raw) → IsReady c n r → Settles c (again c none) r) where
  release-IsReady :
      (r : Raw) (k : ℕ) (conn : Conn) (context : ℕ)
      → IsReady c n r
      → r.conn ≡ some k
      → r.mem.conns k ≡ some conn
      → conn.context ≡ some context
      → (s : Raw) × (release_connection false ErrorCode.connection r ≡ some (true, s))
        × Frame c r s
        × IsReady c n s
  release-IsReady r k conn context ready hr hk hc =
      let (own, ho, ok, live, distinct, other) = subst (HoldsConn c r.mem) hr ready.holds in
      let same : own ≡ conn = same_conn (sym ho ∙ hk) in
      let (m, e, q) =
        release_connection_lem false ErrorCode.connection r k own hr ho
          (has_status own context ok (ap (λ o. o.context) same ∙ hc)) live distinct in
      (
        closed r m,
        e,
        record {
          own = λ x hx. (x, q.other_cmds c other ∙ hx, refl, omega arith);
          others = λ d ne free.
              q.other_cmds d
                (subst (λ l. All (λ x. x ≢ d) l) (queue-some r.mem.conns r.conn k own hr ho) free);
          conf_same = refl;
          auth_same = refl;
          next_same = q.next_cmd_same;
          sec_same = refl;
          usec_same = refl;
          pending_same = refl;
          link = gone refl (
              subst (λ l. Freed c l m.cmds) (sym (queue-some r.mem.conns r.conn k own hr ho))
                (every-Freed c own.reply_list m.cmds q.gone));
        },
        record {
          cmd = ready.cmd;
          there = q.other_cmds c other ∙ ready.there;
          bytes = ready.bytes;
          filled = ready.filled;
          picked = ready.picked;
          whole = ready.whole;
          young = ready.young;
          no_auth_fn = ready.no_auth_fn;
          no_password = ready.no_password;
          holds = tt;
        },
      )

  send_failed-Settles :
      (r : Raw) (k : ℕ) (conn : Conn) (o : Option ℕ)
      → IsReady c n r
      → r.conn ≡ some k
      → r.mem.conns k ≡ some conn
      → conn.context ≡ o
      → Settles c (send_failed driver again k c o) r
  unfolding send_failed
  send_failed-Settles r k conn none ready hr hk hc =
      fail-Settles c ErrorCode.connection none r (ready.cmd, ready.there)
  send_failed-Settles r k conn (some context) ready hr hk hc =
      let flags = driver.context r.mem.trace context in
      elim (Bool-cases (flags.disconnecting || flags.freeing)) [
        | inl closing ↦
            rw closing (elim (Bool-cases (is_current r.conn k && not flags.in_callback)) [
              | inl free ↦
                  let (s, e, g, ready') = release-IsReady r k conn context ready hr hk hc in
                  rw free (
                    then-Settles c (release_connection false ErrorCode.connection) _ r e g
                      (retries s ready'))
              | inr held ↦ rw held (retries r ready)
            ])
        | inr usable ↦
            rw usable (fail-Settles c ErrorCode.hiredis (some context) r (ready.cmd, ready.there))
      ]

  -- The command after one send was taken from it.
  abbrev spent : Raw → Cmd → Raw
  spent r x = record r {
    mem = record (r.mem) { cmds = update r.mem.cmds c (some (record x { ttl = x.ttl - 1 })) };
  }

  spent-Frame : (r : Raw) (x : Cmd) → r.mem.cmds c ≡ some x → Frame c r (spent r x)
  spent-Frame r x hx =
      let y = record x { ttl = x.ttl - 1 } in
      Frame-still c r (update r.mem.cmds c (some y)) r.mem.trace
        (λ z hz.
          let e : z ≡ x = same_cmd (sym hz ∙ hx) in
          (
            y,
            update-here r.mem.cmds c (some y),
            ap (λ o. o.content) (sym e),
            omega (arith, ap (λ o. o.ttl) e),
          ))
        (λ d ne. update-there r.mem.cmds c d (some y) (λ q. ne (sym q)))

  spent-IsReady : (r : Raw) (ready : IsReady c (suc n) r) → IsReady c n (spent r ready.cmd)
  spent-IsReady r ready = record {
    cmd = record (ready.cmd) { ttl = ready.cmd.ttl - 1 };
    there = ground arith;
    bytes = ready.bytes;
    filled = ready.filled;
    picked = ready.picked;
    whole = ready.whole;
    young = omega (arith, ready.young);
    no_auth_fn = ready.no_auth_fn;
    no_password = ready.no_password;
    holds =
        HoldsConn-put c (record (ready.cmd) { ttl = ready.cmd.ttl - 1 }) r.mem r.conn ready.holds;
  }

  over_trace-IsReady :
      (r : Raw) (t : List Event)
      → IsReady c n r
      → IsReady c n (record r { mem = record (r.mem) { trace = t } })
  over_trace-IsReady r t ready =
      carry-IsReady (record r { mem = record (r.mem) { trace = t } }) ready refl refl
        (HoldsConn-trace c r.mem t r.conn ready.holds)

  -- What exec does with the result of `redis_cmd`.
  abbrev by_result : ℕ → ℤ → M Raw (Option ℕ)
  by_result k res =
      if res ==ℤ pos 0
      then pure (some c)
      else (lift (get_conn k) >>= λ x. send_failed driver again k c x.context)

  after_send :
      (r : Raw) (k : ℕ) (conn : Conn) (res : ℤ) (m : Memory)
      → IsReady c n r
      → r.conn ≡ some k
      → r.mem.conns k ≡ some conn
      → Sent driver k conn c res r.mem m
      → SettlesFrom c r (by_result k res) (record r { mem = m })
  after_send r k conn res m ready hr hk (inl (good, t, inl e)) = rw good (
    some c,
    r,
    record r { mem = m },
    refl,
    Frame-refl c r,
    ended m refl (ap (λ n. n.cmds c) e ∙ update-here r.mem.cmds c none)
        (λ d ne. ap (λ n. n.cmds d) e ∙ update-there r.mem.cmds c d none (λ q. ne (sym q)))
        (ap (λ n. n.conns) e) (ap (λ n. n.next_cmd) e),
  )
  after_send r k conn res m ready hr hk (inl (good, t, inr e)) = rw good (
    some c,
    r,
    record r { mem = m },
    refl,
    Frame-refl c r,
    waits k conn t hr hk (ap (λ n. record r { mem = n }) e),
  )
  after_send r k conn res m ready hr hk (inr (bad, t, e)) =
      let r₁ = record r { mem = record (r.mem) { trace = t } } in
      let failed : Settles c (lift (get_conn k) >>= λ x. send_failed driver again k c x.context)
          r₁ =
        then-Settles c (lift (get_conn k)) (λ x. send_failed driver again k c x.context) r₁
          (read_conn k r₁ hk) (Frame-refl c r₁)
          (send_failed-Settles r₁ k conn conn.context (over_trace-IsReady r t ready) hr hk refl) in
      rw bad (
        subst
          (λ m.
            SettlesFrom c r (lift (get_conn k) >>= λ x. send_failed driver again k c x.context)
              (record r { mem = m }))
          (sym e)
          (rebase c (lift (get_conn k) >>= λ x. send_failed driver again k c x.context) r r₁ r₁
            (Frame-trace c r t) failed))

  pub exec_on-Settles :
      (r : Raw) (k : ℕ)
      → IsReady c (suc n) r
      → r.conn ≡ some k
      → Settles c (exec_on driver again k c) r
  unfolding exec_on
  exec_on-Settles r k ready hr =
      let x = ready.cmd in
      let r₁ = spent r x in
      let (own, ho, ok, live, distinct, other) = subst (HoldsConn c r.mem) hr ready.holds in
      let ready₁ = spent-IsReady r ready in
      then-Settles c (lift (get_cmd c)) _ r (read_cmd c r ready.there) (Frame-refl c r)
        (elim (Bool-cases (x.ttl == 0)) [
          | inl over ↦ rw over (fail-Settles c ErrorCode.ttl none r (x, ready.there))
          | inr young ↦
              let (res, m, e, d) =
                redis_cmd-Sends driver k c ready₁.cmd own ready₁.bytes ready₁.picked r₁.mem ho
                  ready₁.there ready₁.filled ready₁.whole in
              rw young (
                rebase c (lift (redis_cmd driver k (some c)) >>= by_result k) r r₁ r₁
                  (spent-Frame r x ready.there)
                  (then-From c (lift (redis_cmd driver k (some c))) (by_result k) r₁ r₁
                    (lift-some (redis_cmd driver k (some c)) r₁ e)
                    (after_send r₁ k own res m ready₁ hr ho d)))
        ])
