-- ===== src/Raw/Timers.antt =====
-- The timer of hiredis::happ::raw, and its end: `proc` and `reset`.
use hiredis_happ.Common.{
  ℕ, zero, suc, ltb, leb, ◌==◌, not, ◌&&◌, ◌||◌, Bool, true, if◌then◌else◌, [], ◌∷◌, List, Option,
  none, some, ℤ,
}
use hiredis_happ.Common.ErrorCode
use hiredis_happ.Memory.{
  M, pure, fault, ◌>>=◌, ◌>>◌, Driver, Closing, later, finished, lost, disconnects, emit, get_conn,
}
use hiredis_happ.Connection
use hiredis_happ.Raw.State.{Raw, Delay, lift, get_raw, put_raw, fail_cmd}
use hiredis_happ.Raw.{exec}
use hiredis_happ.Raw.Release.{release_connection}
use hiredis_happ.Raw.Events.{on_connected_wrapper, on_disconnected_wrapper}

-- `rd.sec > sec || (rd.sec == sec && rd.usec > usec)`
unfoldable pub is_later : Delay → ℕ → ℕ → Bool
is_later d sec usec = ltb sec d.sec || d.sec == sec && ltb usec d.usec

unfoldable pub set_pending : List Delay → M Raw (Unit {0})
set_pending l r = some (tt, record r { timer = record (r.timer) { timer_pending = l } })

module _ (driver : Driver) where
  -- One round over the commands whose time has come, and then the loop.
  unfoldable pub run_round : ℕ → ℕ → ℕ → M Raw ℕ → List Delay → M Raw ℕ
  run_round fuel sec usec loop [] = pure 0
  run_round fuel sec usec loop (d ∷ rest) =
      let round : M Raw ℕ = (do
        set_pending rest
        executed ← exec driver fuel (some d.cmd)
        n ← loop
        pure (suc n)) in
      if is_later d sec usec then pure 0 else round

  -- The loop over the commands whose time has come. `rounds` bounds it, and `fuel` each `exec`; the
  -- count of the commands is the result.
  unfoldable pub run_pending : ℕ → ℕ → ℕ → ℕ → M Raw ℕ
  run_pending fuel zero sec usec = fault
  run_pending fuel (suc rounds) sec usec = do
    r ← get_raw
    run_round fuel sec usec (run_pending fuel rounds sec usec) r.timer.timer_pending

  -- The assert on the context's flags; reading them through a null pointer is a fault, too.
  unfoldable pub assert_idle : Raw → Option ℕ → M Raw (Unit {0})
  assert_idle r none = fault
  assert_idle r (some context) =
      if (driver.context r.mem.trace context).in_callback then fault else pure tt

  unfoldable pub expire_conn : Option ℕ → M Raw (Unit {0})
  expire_conn none = pure tt
  expire_conn (some k) = do
    r ← get_raw
    conn ← lift (get_conn k)
    if conn.sequence == r.timer.conn_sequence
        then (do
          assert_idle r conn.context
          released ← release_connection true ErrorCode.timeout
          pure tt)
        else pure tt

  -- `while (0 != timeout && sec >= timeout)`: the round sets the timeout to 0, so there is one at most.
  unfoldable pub check_timeout : ℕ → M Raw (Unit {0})
  check_timeout sec = do
    r ← get_raw
    if not (r.timer.conn_timeout == 0) && leb r.timer.conn_timeout sec
        then (do
          expire_conn r.conn
          s ← get_raw
          put_raw (record s { timer = record (s.timer) { conn_sequence = 0; conn_timeout = 0 } }))
        else pure tt

  unfoldable pub proc : ℕ → ℕ → ℕ → ℕ → M Raw ℕ
  proc fuel rounds sec usec = do
    r ← get_raw
    put_raw
        (record r { timer = record (r.timer) { last_update_sec = sec; last_update_usec = usec } })
    n ← run_pending fuel rounds sec usec
    check_timeout sec
    pure n

-- The callback that hiredis calls inside redisAsyncDisconnect, where the context's data is `k`.
unfoldable pub end_context : ℕ → ℕ → Closing → M Raw (Unit {0})
end_context k c later = pure tt
end_context k c (finished status) = on_connected_wrapper c k status
end_context k c (lost status) = on_disconnected_wrapper k status

module _ (driver : Driver) where
  -- redisAsyncDisconnect(context)
  unfoldable pub disconnect_context : ℕ → ℕ → M Raw (Unit {0})
  disconnect_context k c = do
    r ← get_raw
    lift (emit (disconnects c))
    end_context k c (driver.disconnect r.mem.trace c)

  -- The context of the connection, if there is one.
  unfoldable pub disconnect_conn : Option ℕ → M Raw (Unit {0})
  disconnect_conn none = pure tt
  disconnect_conn (some k) = do
    conn ← lift (get_conn k)
    elim conn.context [ none ↦ pure tt | some c ↦ disconnect_context k c ]

-- `while (!timer_pending.empty())`, over the list as it stands.
unfoldable pub fail_pending : List Delay → M Raw (Unit {0})
fail_pending [] = pure tt
fail_pending (d ∷ rest) = do
  set_pending rest
  ended ← fail_cmd d.cmd ErrorCode.timeout none
  fail_pending rest

unfoldable pub reset : Driver → M Raw ℤ
reset driver = do
  r ← get_raw
  disconnect_conn driver r.conn
  t ← get_raw
  fail_pending t.timer.timer_pending
  s ← get_raw
  put_raw (record s {
    timer = record (s.timer) {
      last_update_sec = 0;
      last_update_usec = 0;
      conn_sequence = 0;
      conn_timeout = 0;
    };
  })
  pure ErrorCode.ok

-- ~raw(): the connection object that is left goes with it.
unfoldable pub delete_own : Option ℕ → M Raw (Unit {0})
delete_own none = pure tt
delete_own (some k) = lift (Connection.delete_connection k)

unfoldable pub delete_raw : Driver → M Raw (Unit {0})
delete_raw driver = do ended ← reset driver; r ← get_raw; delete_own r.conn
