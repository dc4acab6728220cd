-- ===== src/Raw/Settings.antt =====
-- The settings of hiredis::happ::raw. A setter of a callback returns whether one was set before.
use hiredis_happ.Common.{ℕ, Bool, Bytes, Option, some, ℤ}
use hiredis_happ.Common.ErrorCode
use hiredis_happ.Memory.{M}
use hiredis_happ.Raw.State.{Raw}

-- start()
unfoldable pub start : M Raw ℤ
start r = some (ErrorCode.ok, r)

unfoldable pub get_auth_password : Raw → Bytes
get_auth_password r = r.auth.password

unfoldable pub set_auth_password : Bytes → M Raw (Unit {0})
set_auth_password passwd r = some (tt, record r { auth = record (r.auth) { password = passwd } })

unfoldable pub get_auth_fn : Raw → Option (Bytes → Bytes)
get_auth_fn r = r.auth.auth_fn

unfoldable pub set_auth_fn : Option (Bytes → Bytes) → M Raw (Unit {0})
set_auth_fn fn r = some (tt, record r { auth = record (r.auth) { auth_fn = fn } })

-- get_connection()
unfoldable pub get_connection : Raw → Option ℕ
get_connection r = r.conn

unfoldable pub set_on_connect : Bool → M Raw Bool
set_on_connect cbk r = some (
  r.callbacks.has_on_connect,
  record r { callbacks = record (r.callbacks) { has_on_connect = cbk } },
)

unfoldable pub set_on_connected : Bool → M Raw Bool
set_on_connected cbk r = some (
  r.callbacks.has_on_connected,
  record r { callbacks = record (r.callbacks) { has_on_connected = cbk } },
)

unfoldable pub set_on_disconnected : Bool → M Raw Bool
set_on_disconnected cbk r = some (
  r.callbacks.has_on_disconnected,
  record r { callbacks = record (r.callbacks) { has_on_disconnected = cbk } },
)

unfoldable pub get_cmd_buffer_size : Raw → ℕ
get_cmd_buffer_size r = r.conf.cmd_buffer_size

unfoldable pub set_cmd_buffer_size : ℕ → M Raw (Unit {0})
set_cmd_buffer_size s r = some (tt, record r { conf = record (r.conf) { cmd_buffer_size = s } })
