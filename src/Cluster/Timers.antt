-- ===== src/Cluster/Timers.antt =====
-- The timer of hiredis::happ::cluster, and its end: `proc` and `reset`.
use hiredis_happ.Common.{
  ℕ, zero, suc, ltb, leb, ◌==◌, ◌&&◌, ◌||◌, Bool, true, if◌then◌else◌, [], ◌∷◌, List, Option, none,
  some, ℤ, Bytes,
}
use hiredis_happ.Common.ErrorCode
use hiredis_happ.Memory.{
  M, pure, fault, ◌>>=◌, ◌>>◌, Driver, Closing, later, finished, lost, disconnects, emit, get_conn,
}
use hiredis_happ.Connection
use hiredis_happ.Slots.{invalid, updating}
use hiredis_happ.Cluster.State.{
  Cluster, Delay, ConnTimeout, lift, get_cluster, fail_cmd, set_flag, set_pending, set_timeouts,
  set_slot_pending,
}
use hiredis_happ.Cluster.{exec}
use hiredis_happ.Cluster.Events.{on_connected_wrapper, on_disconnected_wrapper}
use hiredis_happ.Cluster.Connections.{get_connection, release_connection}

-- `rd.sec > sec || (rd.sec == sec && rd.usec > usec)`
unfoldable pub is_later : Delay → ℕ → ℕ → Bool
is_later d sec usec = ltb sec d.sec || d.sec == sec && ltb usec d.usec

unfoldable pub set_now : ℕ → ℕ → M Cluster (Unit {0})
set_now sec usec s =
    some
      (tt, record s { timer = record (s.timer) { last_update_sec = sec; last_update_usec = usec } })

module _ (driver : Driver) where
  -- One round over the commands whose time has come, and then the loop.
  unfoldable pub run_round : ℕ → ℕ → ℕ → M Cluster ℕ → List Delay → M Cluster ℕ
  run_round fuel sec usec loop [] = pure 0
  run_round fuel sec usec loop (d ∷ rest) =
      let round : M Cluster ℕ = (do
        set_pending rest
        executed ← exec driver fuel [] (some d.cmd)
        n ← loop
        pure (suc n)) in
      if is_later d sec usec then pure 0 else round

  -- The loop over the commands whose time has come. `rounds` bounds it, and `fuel` each `exec`; the
  -- count of the commands is the result.
  unfoldable pub run_pending : ℕ → ℕ → ℕ → ℕ → M Cluster ℕ
  run_pending fuel zero sec usec = fault
  run_pending fuel (suc rounds) sec usec = do
    s ← get_cluster
    run_round fuel sec usec (run_pending fuel rounds sec usec) s.timer.timer_pending

  -- The assert on the context's flags; reading them through a null pointer is a fault, too.
  unfoldable pub assert_idle : Option ℕ → M Cluster (Unit {0})
  assert_idle none = fault
  assert_idle (some context) = do
    s ← get_cluster
    if (driver.context s.mem.trace context).in_callback then fault else pure tt

  -- A connection that was not connected since the timeout was set is released.
  unfoldable pub expire_conn : ConnTimeout → Option ℕ → M Cluster (Unit {0})
  expire_conn t none = pure tt
  expire_conn t (some k) = do
    conn ← lift (get_conn k)
    if conn.sequence == t.sequence
        then (do
          assert_idle conn.context
          released ← release_connection conn.key.name true ErrorCode.timeout
          pure tt)
        else pure tt

  -- The loop over the timeouts that are over, in the list as it stands.
  unfoldable pub check_timeouts : ℕ → List ConnTimeout → M Cluster (Unit {0})
  check_timeouts sec [] = pure tt
  check_timeouts sec (t ∷ rest) =
      let round : M Cluster (Unit {0}) = (do
        s ← get_cluster
        expire_conn t (get_connection t.name s)
        set_timeouts rest
        check_timeouts sec rest) in
      if leb t.timeout sec then round else pure tt

  unfoldable pub proc : ℕ → ℕ → ℕ → ℕ → M Cluster ℕ
  proc fuel rounds sec usec = do
    set_now sec usec
    n ← run_pending fuel rounds sec usec
    s ← get_cluster
    check_timeouts sec s.timer.timer_conns
    pure n

unfoldable pub add_context : ℕ → Option ℕ → List (ℕ × ℕ) → List (ℕ × ℕ)
add_context k none contexts = contexts
add_context k (some c) contexts = (k, c) ∷ contexts

-- The contexts of the connections that have one, each behind its data, the connection.
unfoldable pub all_contexts : List ℕ → M Cluster (List (ℕ × ℕ))
all_contexts [] = pure []
all_contexts (k ∷ rest) = do
  conn ← lift (get_conn k)
  contexts ← all_contexts rest
  pure (add_context k conn.context contexts)

-- The callback that hiredis calls inside redisAsyncDisconnect, where the context's data is `k`.
unfoldable pub end_context : Driver → ℕ → ℕ → ℕ → Closing → M Cluster (Unit {0})
end_context driver fuel k c later = pure tt
end_context driver fuel k c (finished status) = on_connected_wrapper driver fuel c k status
end_context driver fuel k c (lost status) = on_disconnected_wrapper k status

-- redisAsyncDisconnect for each context, which stands with its data.
unfoldable pub disconnect_all : Driver → ℕ → List (ℕ × ℕ) → M Cluster (Unit {0})
disconnect_all driver fuel [] = pure tt
disconnect_all driver fuel ((k, c) ∷ rest) = do
  s ← get_cluster
  lift (emit (disconnects c))
  end_context driver fuel k c (driver.disconnect s.mem.trace c)
  disconnect_all driver fuel rest

-- `while (!slot_pending_.empty())`, over the list as it stands.
unfoldable pub fail_slot_pending : List ℕ → M Cluster (Unit {0})
fail_slot_pending [] = pure tt
fail_slot_pending (c ∷ rest) = do
  set_slot_pending rest
  ended ← fail_cmd c ErrorCode.slot_unavailable none
  fail_slot_pending rest

-- `while (!timer_actions_.timer_pending.empty())`, over the list as it stands.
unfoldable pub fail_pending : List Delay → M Cluster (Unit {0})
fail_pending [] = pure tt
fail_pending (d ∷ rest) = do
  set_pending rest
  ended ← fail_cmd d.cmd ErrorCode.timeout none
  fail_pending rest

-- `slots_[i].hosts.clear()` for every slot.
unfoldable pub clear_slots : M Cluster (Unit {0})
clear_slots s = some (tt, record s { slots = λ slot. [] })

unfoldable pub stop_timer : M Cluster (Unit {0})
stop_timer s = some (
  tt,
  record s {
    timer = record (s.timer) { timer_conns = []; last_update_sec = 0; last_update_usec = 0 };
  },
)

unfoldable pub values : List (Bytes × ℕ) → List ℕ
values [] = []
values ((name, k) ∷ rest) = k ∷ values rest

-- The connection objects that are left in the map go with it.
unfoldable pub delete_all : List ℕ → M Cluster (Unit {0})
delete_all [] = pure tt
delete_all (k ∷ rest) = do lift (Connection.delete_connection k); delete_all rest

module _ (driver : Driver) where
  -- `fuel` is for the retries of a command that a connect callback sends.
  unfoldable pub reset : ℕ → M Cluster ℤ
  reset fuel = do
    s ← get_cluster
    contexts ← all_contexts (driver.order s.mem.trace (values s.connections))
    set_flag updating
    disconnect_all driver fuel contexts
    t ← get_cluster
    fail_slot_pending t.slot_pending
    clear_slots
    u ← get_cluster
    fail_pending u.timer.timer_pending
    stop_timer
    set_flag invalid
    pure ErrorCode.ok

  -- ~cluster()
  unfoldable pub delete_cluster : ℕ → M Cluster (Unit {0})
  delete_cluster fuel = do
    ended ← reset fuel
    s ← get_cluster
    delete_all (driver.order s.mem.trace (values s.connections))
