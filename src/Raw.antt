-- ===== src/Raw.antt =====
-- hiredis::happ::raw of src/detail/happ_raw.cpp: one connection, made when a command needs it.
--
-- `exec`, `make_connection`, `retry` and `add_timer_cmd` call one another. The only call back is that of
-- `retry`, so each function takes it as its argument `again`, and `retry_fuel` closes the circle.
pub mod State
pub mod Release
pub mod Send
pub mod Connect
pub mod Timers
pub mod Events
pub mod Settings
pub mod Logging
pub mod Pending
pub mod Teardown
pub mod Settling
pub mod Whole
use hiredis_happ.Common.{
  ℕ, zero, suc, ◌+◌, ◌-◌, ◌/◌, ltb, ◌==◌, ◌==ℤ◌, is_pos, not, ◌&&◌, ◌||◌, Bool, true, false,
  if◌then◌else◌, [], ◌∷◌, ◌++◌, List, Bytes, Option, none, some, ℤ, pos,
}
use hiredis_happ.Common.ErrorCode
use hiredis_happ.Memory.{
  M, pure, fault, ◌>>=◌, ◌>>◌, Cmd, Conn, Status, disconnected, connecting, connected, Callback,
  reply_auth, Memory, Driver, connects, frees_context, on_connect, on_connected, on_disconnected,
  get_memory, emit, get_cmd, put_cmd, get_conn,
}
use hiredis_happ.Cmd
use hiredis_happ.Connection
use hiredis_happ.Connection.Send.{redis_cmd}
use State.{
  Raw, Delay, Timer, lift, get_raw, put_raw, is_timer_available, is_timer_active, destroy_cmd,
  fail_cmd, create_cmd,
}
use Send.{exec_on}
use Connect.{make_connection}

-- A command that waits for the timer, behind the others.
unfoldable pub push_pending : Raw → ℕ → Timer
push_pending r c = record (r.timer) {
  timer_pending =
      r.timer.timer_pending
      ++ record {
        sec = r.timer.last_update_sec + r.conf.timer_interval_sec;
        usec = r.timer.last_update_usec + r.conf.timer_interval_usec;
        cmd = c;
      }
        ∷ [];
}

module _ (driver : Driver) (again : ℕ → Option ℕ → M Raw (Option ℕ)) where
  unfoldable pub exec_over : ℕ → Option ℕ → M Raw (Option ℕ)
  exec_over c none = fail_cmd c ErrorCode.connection none
  exec_over c (some k) = exec_on driver again k c

  unfoldable pub find_from : Option ℕ → M Raw (Option ℕ)
  find_from (some k) = pure (some k)
  find_from none = make_connection driver again

  -- `get_connection()`, and `make_connection()` where there is none.
  unfoldable pub find_connection : M Raw (Option ℕ)
  find_connection = do r ← get_raw; find_from r.conn

  -- exec(cmd), for a command that is not null.
  unfoldable pub exec_cmd : ℕ → M Raw (Option ℕ)
  exec_cmd c = do
    x ← lift (get_cmd c)
    if x.ttl == 0 then fail_cmd c ErrorCode.ttl none else (do k ← find_connection; exec_over c k)

  unfoldable pub add_timer_cmd : ℕ → M Raw (Unit {0})
  add_timer_cmd c = do
    r ← get_raw
    if not (is_timer_available r)
        then (do ended ← fail_cmd c ErrorCode.timer_not_available none; pure tt)
        else if is_timer_active r
        then put_raw (record r { timer = push_pending r c })
        else (do executed ← exec_cmd c; pure tt)

  unfoldable pub connection_context : Option ℕ → M Raw (Option ℕ)
  connection_context none = pure none
  connection_context (some k) = do conn ← lift (get_conn k); pure conn.context

  unfoldable pub exec_again : ℕ → Option ℕ → M Raw (Option ℕ)
  exec_again c none = exec_cmd c
  exec_again c (some k) = exec_on driver again k c

  -- retry(cmd, conn): at once while the timer is not running or the command is young, and else after
  -- the timer's interval.
  unfoldable pub retry_step : ℕ → Option ℕ → M Raw (Option ℕ)
  retry_step c k = do
    r ← get_raw
    x ← lift (get_cmd c)
    if not (is_timer_active r) || ltb (Cmd.default_ttl / 2) x.ttl
        then exec_again c k
        else if not (is_timer_available r)
        then (do context ← connection_context k; fail_cmd c ErrorCode.timer_not_available context)
        else (do add_timer_cmd c; pure (some c))

module _ (driver : Driver) where
  -- `fuel` bounds the retries within retries; without fuel there is no result.
  unfoldable pub retry_fuel : ℕ → ℕ → Option ℕ → M Raw (Option ℕ)
  retry_fuel zero c k = fault
  retry_fuel (suc fuel) c k = retry_step driver (retry_fuel fuel) c k

  -- exec(cmd), where null is `none`.
  unfoldable pub exec : ℕ → Option ℕ → M Raw (Option ℕ)
  exec fuel none = pure none
  exec fuel (some c) = exec_cmd driver (retry_fuel fuel) c

  unfoldable pub exec_formatted : ℕ → ℕ → ℤ → M Raw (Option ℕ)
  exec_formatted fuel c len =
      if is_pos len then exec fuel (some c) else (do destroy_cmd c; pure none)

  -- exec(cbk, priv_data, argc, argv, argvlen)
  unfoldable pub exec_argv : ℕ → Callback → ℕ → List Bytes → M Raw (Option ℕ)
  exec_argv fuel cbk priv_data argv = do
    created ← create_cmd driver cbk priv_data
    elim created [
      | none ↦ pure none
      | some c ↦ (do len ← lift (Cmd.vformat_argv driver c argv); exec_formatted fuel c len)
    ]

  -- exec(cbk, priv_data, fmt, ...)
  unfoldable pub exec_format : ℕ → Callback → ℕ → Bytes → List Bytes → M Raw (Option ℕ)
  exec_format fuel cbk priv_data fmt args = do
    created ← create_cmd driver cbk priv_data
    elim created [
      | none ↦ pure none
      | some c ↦ (do len ← lift (Cmd.vformat driver c fmt args); exec_formatted fuel c len)
    ]
