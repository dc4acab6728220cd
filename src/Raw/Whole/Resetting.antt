-- ===== src/Raw/Whole/Resetting.antt =====
-- reset of hiredis::happ::raw: it keeps the whole state, whether hiredis ends the connection within the call or
-- puts the end off.
use hiredis_happ.Common.{
  All, ℤ, ℕ, ◌≡◌, refl, sym, ap, ◌∙◌, subst, ◌++◌, ◌∷◌, Option, none, some, append-nil, false,
}
use hiredis_happ.Common.ErrorCode
use hiredis_happ.Memory.{
  Conn, Memory, Driver, Closing, later, finished, lost, disconnects, pure, get_conn, ◌>>=◌,
}
use hiredis_happ.Memory.Laws.{
  Distinct, Distinct-suffix, Distinct-prefix, All-suffix, All-prefix, >>=-some,
}
use hiredis_happ.Cmd.Failing.{Failed}
use hiredis_happ.Raw.State.{Raw, lift}
use hiredis_happ.Raw.Pending.{waiting, reset_raw, fail_pending_lem}
use hiredis_happ.Raw.Release.{release_connection}
use hiredis_happ.Raw.Events.{on_connected_wrapper, on_disconnected_wrapper}
use hiredis_happ.Raw.Timers.{end_context, disconnect_context, disconnect_conn, fail_pending, reset}
use hiredis_happ.Raw.Teardown.{closed, Closed, release_connection_lem}
use hiredis_happ.Raw.Settling.{read_conn}
use hiredis_happ.Raw.Settling.Framing.{queue, queue-some}
use hiredis_happ.Raw.Whole.{IsSendable, IsOpen, Linked, IsWhole, IsLive-of, owned}
use hiredis_happ.Raw.Whole.Releasing.{back-IsWhole, front-IsWhole}
use hiredis_happ.Raw.Whole.Events.{Keeps, traced-IsWhole, on_connected_wrapper-KeepsTimer}

-- The state when hiredis is asked to disconnect the context.
abbrev pub asked : Raw → ℕ → Raw
asked r c = record r { mem = record (r.mem) { trace = disconnects c ∷ r.mem.trace } }

-- What hiredis leaves of the connection `k` inside redisAsyncDisconnect.
abbrev pub Ended : Raw → ℕ → Conn → ℕ → Closing → Raw → Type 0
Ended r k conn c later s = s ≡ asked r c
Ended r k conn c (finished status) s = on_connected_wrapper c k status (asked r c) ≡ some (tt, s)
Ended r k conn c (lost status) s =
    (n : Memory) × (s ≡ closed (asked r c) n) × Closed (asked r c) k conn false status n

-- The same, for the connection of the raw object, if there is one.
abbrev pub Disconnected : Driver → Raw → Option ℕ → Raw → Type 0
Disconnected driver r none s = s ≡ r
Disconnected driver r (some k) s =
    (conn : Conn) × (c : ℕ) × (r.mem.conns k ≡ some conn)
    × (conn.context ≡ some c)
    × Ended r k conn c (driver.disconnect r.mem.trace c) s

-- What disconnect_conn leaves: it does not fault, and the commands that wait for the timer stay.
record Left (driver : Driver) (r : Raw) (o : Option ℕ) (s : Raw) : Type 0 where
  how : Disconnected driver r o s
  whole : IsWhole s
  pending_same : s.timer.timer_pending ≡ r.timer.timer_pending

module _ (r : Raw) (k c : ℕ) (conn : Conn) (hr : r.conn ≡ some k) (hk : r.mem.conns k ≡ some conn)
    (o : IsOpen conn) (h : IsWhole r) where
  lost_lem :
      (status : ℤ)
      → (s : Raw) × (on_disconnected_wrapper k status (asked r c) ≡ some (tt, s))
        × Ended r k conn c (lost status) s
        × IsWhole s
        × (s.timer.timer_pending ≡ r.timer.timer_pending)
  unfolding on_disconnected_wrapper
  lost_lem status =
      let a = asked r c in
      let l = conn.reply_list in
      let w = waiting r.timer.timer_pending in
      let q : owned a ≡ l ++ w = ap (λ p. p ++ w) (queue-some r.mem.conns r.conn k conn hr hk) in
      let h₁ = traced-IsWhole r (disconnects c ∷ r.mem.trace) h in
      let (n, run, x) =
        release_connection_lem false status a k conn hr hk o.not_closed
          (IsLive-of a.mem l (
            All-prefix (IsSendable a.mem) l w
              (subst (λ p. All (IsSendable a.mem) p) q h₁.sendable)))
          (Distinct-prefix l w (subst (λ p. Distinct p) q h₁.distinct)) in
      (
        closed a n,
        >>=-some (lift (get_conn k)) _ a (read_conn k a hk)
            ∙ >>=-some (release_connection false status) (λ _. pure tt) a run,
        (n, refl, x),
        front-IsWhole a (closed a n) l w q refl x.gone x.other_cmds x.next_cmd_same refl tt h₁,
        refl,
      )

  end_context_lem :
      (e : Closing)
      → (s : Raw) × (end_context k c e (asked r c) ≡ some (tt, s))
        × Ended r k conn c e s
        × IsWhole s
        × (s.timer.timer_pending ≡ r.timer.timer_pending)
  unfolding end_context
  end_context_lem later =
      (asked r c, refl, refl, traced-IsWhole r (disconnects c ∷ r.mem.trace) h, refl)
  end_context_lem (finished status) =
      let (s, e, h', q) =
        on_connected_wrapper-KeepsTimer c k conn status (asked r c) hr hk
          (traced-IsWhole r (disconnects c ∷ r.mem.trace) h) in
      (s, e, e, h', q)
  end_context_lem (lost status) = lost_lem status

disconnect_conn-Left :
    (driver : Driver) (r : Raw) (o : Option ℕ)
    → r.conn ≡ o
    → Linked r.mem.conns o
    → IsWhole r
    → (s : Raw) × (disconnect_conn driver o r ≡ some (tt, s)) × Left driver r o s
unfolding disconnect_conn disconnect_context
disconnect_conn-Left driver r none hr linked h =
    (r, refl, record { how = refl; whole = h; pending_same = refl })
disconnect_conn-Left driver r (some k) hr (conn, hk, o) h =
    let (s, e, how, h', q) =
      end_context_lem r k o.context conn hr hk o h (driver.disconnect r.mem.trace o.context) in
    (
      s,
      >>=-some (lift (get_conn k)) _ r (read_conn k r hk) ∙ rw o.has_context e,
      record { how = (conn, o.context, hk, o.has_context, how); whole = h'; pending_same = q },
    )

-- What reset does, where `t` is the state after redisAsyncDisconnect, and `n` the heap at the end.
pub record Resets (driver : Driver) (r t : Raw) (n : Memory) : Type 0 where
  pub first : Disconnected driver r r.conn t
  pub pending_same : t.timer.timer_pending ≡ r.timer.timer_pending
  pub failed : Failed ErrorCode.timeout (waiting t.timer.timer_pending) t.mem n
  pub whole : IsWhole (reset_raw t n)

Failed-IsWhole :
    (t : Raw) (n : Memory)
    → Failed ErrorCode.timeout (waiting t.timer.timer_pending) t.mem n
    → IsWhole t
    → IsWhole (reset_raw t n)
Failed-IsWhole t n f h =
    back-IsWhole t (reset_raw t n) (queue t.mem.conns t.conn) (waiting t.timer.timer_pending) refl
      (append-nil (queue n.conns t.conn) ∙ ap (λ f. queue f t.conn) f.conns_same) f.gone
      f.other_cmds f.next_cmd_same refl (subst (λ f. Linked f t.conn) (sym f.conns_same) h.linked) h

-- On a raw object without a password, whose connection, if there is one, is open, where each
-- command that waits, on the connection or for the timer, is alive, stands there once and has a
-- buffer that holds a command, and where every other command was freed: reset does not fault,
-- whether hiredis puts the end of the connection off, as inside a callback, or ends it within
-- redisAsyncDisconnect. In the first case nothing of the connection changes. Where hiredis reports
-- the end of the connection, the commands that wait on it are called with REDIS_HAPP_CONNECTION,
-- if their callbacks are still there, and freed, from the oldest on, the user is told, the
-- connection object is deleted, and the raw object has none. Where it reports the end of the
-- connect, the state is that of on_connected_wrapper. The commands that wait for the timer stay
-- the same until then; after it each of them, from the oldest on, is called with
-- REDIS_HAPP_TIMEOUT, if its callback is still there, and freed, no other command and no
-- connection object changes any more, the timer and the timeout of the connection are cleared, and
-- the state is such a state again.
pub reset-Resets :
    (driver : Driver) (r : Raw)
    → IsWhole r
    → (t : Raw) × (n : Memory) × (reset driver r ≡ some (ErrorCode.ok, reset_raw t n))
      × Resets driver r t n
unfolding reset
reset-Resets driver r h =
    let (t, e, left) = disconnect_conn-Left driver r r.conn refl h.linked h in
    let q = queue t.mem.conns t.conn in
    let w = waiting t.timer.timer_pending in
    let (n, e', f) =
      fail_pending_lem t.timer.timer_pending t refl
        (IsLive-of t.mem w (All-suffix (IsSendable t.mem) q w left.whole.sendable))
        (Distinct-suffix q w left.whole.distinct) in
    (
      t,
      n,
      >>=-some (disconnect_conn driver r.conn) _ r e
          ∙ >>=-some (fail_pending t.timer.timer_pending) _ t e',
      record {
        first = left.how;
        pending_same = left.pending_same;
        failed = f;
        whole = Failed-IsWhole t n f left.whole;
      },
    )

pub reset-Keeps :
    (driver : Driver) (r : Raw) → IsWhole r → Keeps (do ended ← reset driver; pure tt) r
reset-Keeps driver r h =
    let (t, n, e, q) = reset-Resets driver r h in
    (reset_raw t n, >>=-some (reset driver) (λ _. pure tt) r e, q.whole)
