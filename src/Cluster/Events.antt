-- ===== src/Cluster/Events.antt =====
-- on_reply_update_slot, on_connected_wrapper and on_disconnected_wrapper of hiredis::happ::cluster.
use hiredis_happ.Common.{
  ℕ, zero, suc, Bytes, ◌==ℤ◌, ◌&&◌, false, if◌then◌else◌, [], ◌∷◌, List, Option, none, some, ℤ, pos,
  negsuc,
}
use hiredis_happ.Common.ErrorCode
use hiredis_happ.Memory.{
  M, pure, fault, ◌>>=◌, ◌>>◌, Status, Driver, Reply, on_connected, emit, get_cmd, put_cmd,
  get_conn,
}
use hiredis_happ.Connection
use hiredis_happ.Connection.{is_disconnected}
use hiredis_happ.Slots.{Table, SlotStatus, invalid, updating, usable, Peer, read_slots}
use hiredis_happ.Cluster.State.{
  Cluster, lift, get_cluster, is_timer_available, end_cmd, set_flag, set_slot_pending,
}
use hiredis_happ.Cluster.{retry_fuel, add_timer_cmd, reload_slots}
use hiredis_happ.Cluster.Connections.{forget_host, release_connection}

-- REDIS_ERR_OTHER of hiredis.
abbrev err_other : ℤ
err_other = pos 2

unfoldable pub set_slots : Table → M Cluster (Unit {0})
set_slots table s = some (tt, record s { slot_flag = usable; slots = table })

-- hiredis may report success for a connection that was closed meanwhile.
unfoldable pub true_status : ℤ → Status → ℤ
true_status status conn_status =
    if status ==ℤ pos 0 && is_disconnected conn_status then err_other else status

module _ (driver : Driver) where
  -- One round over the commands that wait, and then the loop.
  unfoldable pub wait_round : ℕ → M Cluster (Unit {0}) → List ℕ → M Cluster (Unit {0})
  wait_round fuel loop [] = pure tt
  wait_round fuel loop (c ∷ rest) = do
    set_slot_pending rest
    retried ← retry_fuel driver fuel c none
    loop

  -- `while (!slot_pending_.empty())`: a retry may put its command back, so `rounds` bounds the loop, and
  -- `fuel` each retry.
  unfoldable pub run_waiting : ℕ → ℕ → M Cluster (Unit {0})
  run_waiting fuel zero = fault
  run_waiting fuel (suc rounds) = do
    s ← get_cluster
    wait_round fuel (run_waiting fuel rounds) s.slot_pending

  -- The command CLUSTER SLOTS is tried again where commands wait for the table, with a random master.
  unfoldable pub update_again : ℕ → ℕ → Option ℕ → Option Reply → M Cluster (Unit {0})
  update_again fuel c context r = do
    x ← lift (get_cmd c)
    lift (put_cmd c (record x { slot = negsuc 0 }))
    s ← get_cluster
    if is_timer_available s
        then add_timer_cmd driver (retry_fuel driver fuel) c
        else end_cmd c ErrorCode.timer_not_available context r

  unfoldable pub update_failed : ℕ → ℕ → Option ℕ → Option Reply → List ℕ → M Cluster (Unit {0})
  update_failed fuel c context r [] = set_flag invalid
  update_failed fuel c context r (d ∷ rest) = do set_flag invalid; update_again fuel c context r

  -- The new table, or `none` where the reply is no such.
  unfoldable pub update_by :
      ℕ → ℕ → ℕ → Option ℕ → Option Reply → Option Table → M Cluster (Unit {0})
  update_by fuel rounds c context r none = do
    s ← get_cluster
    update_failed fuel c context r s.slot_pending
  update_by fuel rounds c context r (some table) = do set_slots table; run_waiting fuel rounds

  -- on_reply_update_slot(cmd, context, r), over a context that is connected to `peer`.
  unfoldable pub on_reply_update_slot :
      ℕ → ℕ → ℕ → Option ℕ → Option Peer → Option Reply → M Cluster (Unit {0})
  on_reply_update_slot fuel rounds c context peer r =
      update_by fuel rounds c context r (read_slots peer r)

  -- `if (slot_status::INVALID == self->slot_flag_) self->reload_slots();`
  unfoldable pub reload_invalid : ℕ → SlotStatus → M Cluster (Unit {0})
  reload_invalid fuel updating = pure tt
  reload_invalid fuel usable = pure tt
  reload_invalid fuel invalid = do reloaded ← reload_slots driver (retry_fuel driver fuel); pure tt

  -- on_connected_wrapper(context, status), where `k` is `context->data`.
  unfoldable pub on_connected_wrapper : ℕ → ℕ → ℕ → ℤ → M Cluster (Unit {0})
  on_connected_wrapper fuel context k status = do
    conn ← lift (get_conn k)
    s ← get_cluster
    let code = true_status status conn.status
    if s.callbacks.has_on_connected
        then lift (emit (on_connected k (some context) code))
        else pure tt
    if code ==ℤ pos 0
        then (do
          old ← lift (Connection.set_connected k)
          t ← get_cluster
          reload_invalid fuel t.slot_flag)
        else (do
          released ← release_connection conn.key.name false code
          reloaded ← reload_slots driver (retry_fuel driver fuel)
          pure tt)

-- `if (REDIS_OK != status) self->remove_connection_key(name);`
unfoldable pub forget_lost : ℤ → Bytes → M Cluster (Unit {0})
forget_lost status name = if status ==ℤ pos 0 then pure tt else forget_host name

-- on_disconnected_wrapper(context, status), where `k` is `context->data`.
unfoldable pub on_disconnected_wrapper : ℕ → ℤ → M Cluster (Unit {0})
on_disconnected_wrapper k status = do
  conn ← lift (get_conn k)
  forget_lost status conn.key.name
  released ← release_connection conn.key.name false status
  pure tt
