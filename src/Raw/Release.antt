-- ===== src/Raw/Release.antt =====
-- release_connection of hiredis::happ::raw.
use hiredis_happ.Common.{ℕ, ◌==ℤ◌, Bool, true, false, if◌then◌else◌, Option, none, some, ℤ, pos}
use hiredis_happ.Common.ErrorCode
use hiredis_happ.Memory.{
  M, pure, ◌>>=◌, ◌>>◌, Status, disconnected, connecting, connected, on_connected, on_disconnected,
  emit,
}
use hiredis_happ.Connection
use hiredis_happ.Raw.State.{Raw, lift, get_raw, put_raw}

-- What `release_connection` tells the user, by the status that the connection had.
unfoldable pub announce_release : Raw → ℕ → Status → ℤ → M Raw (Unit {0})
announce_release r k disconnected status = pure tt
announce_release r k connecting status =
    if r.callbacks.has_on_connected
    then lift
        (emit (on_connected k none (if status ==ℤ pos 0 then ErrorCode.connection else status)))
    else pure tt
announce_release r k connected status =
    if r.callbacks.has_on_disconnected then lift (emit (on_disconnected k none status)) else pure tt

-- `conn_.reset()` and the reset of the connection's timeout.
unfoldable pub drop_conn : ℕ → M Raw (Unit {0})
drop_conn k = do
  lift (Connection.delete_connection k)
  r ← get_raw
  put_raw
      (record r { conn = none; timer = record (r.timer) { conn_sequence = 0; conn_timeout = 0 } })

-- A connection that was disconnected before is left as it is: the call is a recursive one.
unfoldable pub release_from : ℕ → Status → ℤ → M Raw Bool
release_from k disconnected status = pure true
release_from k from_status status = do
  r ← get_raw
  announce_release r k from_status status
  drop_conn k
  pure true

-- The end of the connection that the raw object has.
unfoldable pub release_current : Bool → ℤ → Option ℕ → M Raw Bool
release_current close_fd status none = pure false
release_current close_fd status (some k) = do
  from_status ← lift (Connection.set_disconnected k close_fd)
  release_from k from_status status

unfoldable pub release_connection : Bool → ℤ → M Raw Bool
release_connection close_fd status = do r ← get_raw; release_current close_fd status r.conn
