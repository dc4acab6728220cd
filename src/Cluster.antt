-- ===== src/Cluster.antt =====
-- hiredis::happ::cluster of src/detail/happ_cluster.cpp: commands by their keys, sent to the masters of
-- their slots.
--
-- `exec`, `make_connection`, `reload_slots`, `retry` and `add_timer_cmd` call one another. The only call
-- back is that of `retry` by exec over a connection, so each function takes it as its argument `again`,
-- and `retry_fuel` closes the circle.
pub mod State
pub mod Settings
pub mod Logging
pub mod Connections
pub mod Send
pub mod Connect
pub mod Timers
pub mod Redirect
pub mod Replies
pub mod Events
pub mod Pending
pub mod Resetting
pub mod Names
pub mod Timed
pub mod Teardown
pub mod Placing
pub mod Moving
pub mod Retrying
pub mod Asking
use hiredis_happ.Common.{
  ℕ, zero, suc, ◌+◌, ◌/◌, ltb, ◌==◌, is_pos, not, ◌||◌, Bool, true, false, if◌then◌else◌, [], ◌∷◌,
  ◌++◌, List, Bytes, Option, none, some, ℤ, pos, negsuc,
}
use hiredis_happ.Common.ErrorCode
use hiredis_happ.Name.{Key}
use hiredis_happ.Memory.{
  M, pure, fault, ◌>>=◌, ◌>>◌, Callback, reply_update_slot, Cmd, Driver, get_cmd, put_cmd, get_conn,
}
use hiredis_happ.Cmd
use hiredis_happ.HashSlot.{slot_number, hash_slot}
use hiredis_happ.Slots.{SlotStatus, invalid, updating, usable, own_hosts, get_slot_master}
use State.{
  Cluster, Timer, lift, get_cluster, put_cluster, is_timer_available, is_timer_active, destroy_cmd,
  fail_cmd, create_cmd, draw, set_flag, set_slot_pending,
}
use Send.{exec_on}
use Connect.{find_connection}

-- "CLUSTER SLOTS"
abbrev pub cluster_slots : Bytes
cluster_slots = 67 ∷ 76 ∷ 85 ∷ 83 ∷ 84 ∷ 69 ∷ 82 ∷ 32 ∷ 83 ∷ 76 ∷ 79 ∷ 84 ∷ 83 ∷ []

-- `if (nullptr != exec(conn, cmd)) slot_flag_ = slot_status::UPDATING; return true;`
unfoldable pub mark_updating : Option ℕ → M Cluster Bool
mark_updating none = pure true
mark_updating (some c) = do set_flag updating; pure true

-- A command that waits for the timer, behind the others.
unfoldable pub push_pending : Cluster → ℕ → Timer
push_pending s c = record (s.timer) {
  timer_pending =
      s.timer.timer_pending
      ++ record {
        sec = s.timer.last_update_sec + s.conf.timer_interval_sec;
        usec = s.timer.last_update_usec + s.conf.timer_interval_usec;
        cmd = c;
      }
        ∷ [];
}

-- A read behind the table is a fault.
unfoldable pub or_fault : Option Key → M Cluster Key
or_fault none = fault
or_fault (some key) = pure key

module _ (driver : Driver) where
  unfoldable pub master_from : ℤ → Option (List Key) → M Cluster Key
  master_from index none = fault
  master_from index (some (k ∷ rest)) = pure k
  master_from index (some []) = do
    s ← get_cluster
    random ← draw driver
    or_fault (get_slot_master index random s.conf.init_connection s.slots)

  -- get_slot_master(index), which takes a random number only where the slot has no master.
  unfoldable pub find_master : ℤ → M Cluster Key
  find_master index = do s ← get_cluster; master_from index (own_hosts index s.slots)

module _ (driver : Driver) (again : ℕ → Option ℕ → M Cluster (Option ℕ)) where
  -- The command CLUSTER SLOTS over the connection `k`.
  unfoldable pub reload_by : ℕ → Option ℕ → M Cluster Bool
  reload_by k none = pure false
  reload_by k (some c) = do
    len ← lift (Cmd.vformat driver c cluster_slots [])
    if is_pos len
        then (do executed ← exec_on driver again (some k) c; mark_updating executed)
        else (do destroy_cmd c; pure false)

  unfoldable pub reload_over : Option ℕ → M Cluster Bool
  reload_over none = pure false
  reload_over (some k) = do created ← create_cmd driver reply_update_slot 0; reload_by k created

  unfoldable pub reload_random : M Cluster Bool
  reload_random = do
    key ← find_master driver (negsuc 0)
    k ← find_connection driver again key
    reload_over k

  unfoldable pub reload_from : SlotStatus → M Cluster Bool
  reload_from updating = pure false
  reload_from invalid = reload_random
  reload_from usable = reload_random

  unfoldable pub reload_slots : M Cluster Bool
  reload_slots = do s ← get_cluster; reload_from s.slot_flag

  -- The command waits for the slot table, behind the others.
  unfoldable pub wait_for_slots : ℕ → M Cluster (Option ℕ)
  wait_for_slots c = do
    s ← get_cluster
    set_slot_pending (s.slot_pending ++ c ∷ [])
    reloaded ← reload_slots
    pure (some c)

  unfoldable pub exec_over : ℕ → Option ℕ → M Cluster (Option ℕ)
  exec_over c none = fail_cmd c ErrorCode.connection none
  exec_over c (some k) = exec_on driver again (some k) c

  -- To the master of the command's slot. `get_slot_master` gives no null.
  unfoldable pub exec_routed : ℕ → ℤ → M Cluster (Option ℕ)
  exec_routed c slot = do
    key ← find_master driver slot
    k ← find_connection driver again key
    exec_over c k

  -- Without a table the command waits for one.
  unfoldable pub exec_by : ℕ → ℤ → SlotStatus → M Cluster (Option ℕ)
  exec_by c slot invalid = wait_for_slots c
  exec_by c slot updating = wait_for_slots c
  exec_by c slot usable = exec_routed c slot

  -- exec(nullptr, 0, cmd), for a command that is not null.
  unfoldable pub exec_cmd : ℕ → M Cluster (Option ℕ)
  exec_cmd c = do
    x ← lift (get_cmd c)
    if x.ttl == 0
        then fail_cmd c ErrorCode.ttl none
        else (do s ← get_cluster; exec_by c x.slot s.slot_flag)

  unfoldable pub add_timer_cmd : ℕ → M Cluster (Unit {0})
  add_timer_cmd c = do
    s ← get_cluster
    if not (is_timer_available s)
        then (do ended ← fail_cmd c ErrorCode.timer_not_available none; pure tt)
        else if is_timer_active s
        then put_cluster (record s { timer = push_pending s c })
        else (do executed ← exec_cmd c; pure tt)

  unfoldable pub connection_context : Option ℕ → M Cluster (Option ℕ)
  connection_context none = pure none
  connection_context (some k) = do conn ← lift (get_conn k); pure conn.context

  unfoldable pub exec_again : ℕ → Option ℕ → M Cluster (Option ℕ)
  exec_again c none = exec_cmd c
  exec_again c (some k) = exec_on driver again (some k) c

  -- retry(cmd, conn): at once while the timer is not running or the command is young, and else after
  -- the timer's interval.
  unfoldable pub retry_step : ℕ → Option ℕ → M Cluster (Option ℕ)
  retry_step c k = do
    s ← get_cluster
    x ← lift (get_cmd c)
    if not (is_timer_active s) || ltb (Cmd.default_ttl / 2) x.ttl
        then exec_again c k
        else if not (is_timer_available s)
        then (do context ← connection_context k; fail_cmd c ErrorCode.timer_not_available context)
        else (do add_timer_cmd c; pure (some c))

module _ (driver : Driver) where
  -- `fuel` bounds the retries within retries; without fuel there is no result.
  unfoldable pub retry_fuel : ℕ → ℕ → Option ℕ → M Cluster (Option ℕ)
  retry_fuel zero c k = fault
  retry_fuel (suc fuel) c k = retry_step driver (retry_fuel fuel) c k

  -- `if (nullptr != key && 0 != ks) cmd->engine_.slot = detail::hash_slot(key, ks)`, where no key and
  -- an empty key are the same.
  unfoldable pub choose_slot : Bytes → ℕ → M Cluster (Unit {0})
  choose_slot [] c = pure tt
  choose_slot (b ∷ bs) c = do
    x ← lift (get_cmd c)
    lift (put_cmd c (record x { slot = hash_slot (b ∷ bs) }))

  -- exec(key, ks, cmd), where null is `none`.
  unfoldable pub exec : ℕ → Bytes → Option ℕ → M Cluster (Option ℕ)
  exec fuel key none = pure none
  exec fuel key (some c) = do choose_slot key c; exec_cmd driver (retry_fuel fuel) c

  unfoldable pub exec_formatted : ℕ → Bytes → ℕ → ℤ → M Cluster (Option ℕ)
  exec_formatted fuel key c len =
      if is_pos len then exec fuel key (some c) else (do destroy_cmd c; pure none)

  -- exec(key, ks, cbk, priv_data, argc, argv, argvlen)
  unfoldable pub exec_argv : ℕ → Bytes → Callback → ℕ → List Bytes → M Cluster (Option ℕ)
  exec_argv fuel key cbk priv_data argv = do
    created ← create_cmd driver cbk priv_data
    elim created [
      | none ↦ pure none
      | some c ↦ (do len ← lift (Cmd.vformat_argv driver c argv); exec_formatted fuel key c len)
    ]

  -- exec(key, ks, cbk, priv_data, fmt, ...)
  unfoldable pub exec_format : ℕ → Bytes → Callback → ℕ → Bytes → List Bytes → M Cluster (Option ℕ)
  exec_format fuel key cbk priv_data fmt args = do
    created ← create_cmd driver cbk priv_data
    elim created [
      | none ↦ pure none
      | some c ↦ (do len ← lift (Cmd.vformat driver c fmt args); exec_formatted fuel key c len)
    ]

  unfoldable pub start : ℕ → M Cluster ℤ
  start fuel = do reloaded ← reload_slots driver (retry_fuel fuel); pure ErrorCode.ok
