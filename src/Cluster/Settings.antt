-- ===== src/Cluster/Settings.antt =====
-- The settings of hiredis::happ::cluster. A setter of a callback returns whether one was set before.
use hiredis_happ.Common.{ℕ, Bool, Bytes, Option, some, length}
use hiredis_happ.Memory.{M}
use hiredis_happ.Cluster.State.{Cluster, Timer}

unfoldable pub get_auth_password : Cluster → Bytes
get_auth_password s = s.auth.password

unfoldable pub set_auth_password : Bytes → M Cluster (Unit {0})
set_auth_password passwd s = some (tt, record s { auth = record (s.auth) { password = passwd } })

unfoldable pub get_auth_fn : Cluster → Option (Bytes → Bytes)
get_auth_fn s = s.auth.auth_fn

unfoldable pub set_auth_fn : Option (Bytes → Bytes) → M Cluster (Unit {0})
set_auth_fn fn s = some (tt, record s { auth = record (s.auth) { auth_fn = fn } })

unfoldable pub set_on_connect : Bool → M Cluster Bool
set_on_connect cbk s = some (
  s.callbacks.has_on_connect,
  record s { callbacks = record (s.callbacks) { has_on_connect = cbk } },
)

unfoldable pub set_on_connected : Bool → M Cluster Bool
set_on_connected cbk s = some (
  s.callbacks.has_on_connected,
  record s { callbacks = record (s.callbacks) { has_on_connected = cbk } },
)

unfoldable pub set_on_disconnected : Bool → M Cluster Bool
set_on_disconnected cbk s = some (
  s.callbacks.has_on_disconnected,
  record s { callbacks = record (s.callbacks) { has_on_disconnected = cbk } },
)

unfoldable pub set_cmd_buffer_size : ℕ → M Cluster (Unit {0})
set_cmd_buffer_size size s =
    some (tt, record s { conf = record (s.conf) { cmd_buffer_size = size } })

unfoldable pub get_cmd_buffer_size : Cluster → ℕ
get_cmd_buffer_size s = s.conf.cmd_buffer_size

unfoldable pub set_timer_interval : ℕ → ℕ → M Cluster (Unit {0})
set_timer_interval sec usec s = some (
  tt,
  record s { conf = record (s.conf) { timer_interval_sec = sec; timer_interval_usec = usec } },
)

unfoldable pub set_timeout : ℕ → M Cluster (Unit {0})
set_timeout sec s = some (tt, record s { conf = record (s.conf) { timer_timeout_sec = sec } })

unfoldable pub get_timer_actions : Cluster → Timer
get_timer_actions s = s.timer

unfoldable pub get_connection_size : Cluster → ℕ
get_connection_size s = length s.connections
