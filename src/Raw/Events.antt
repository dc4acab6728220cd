-- ===== src/Raw/Events.antt =====
-- What hiredis calls back into hiredis::happ::raw: replies, and changes of the connection.
use hiredis_happ.Common.{ℕ, ◌==ℤ◌, ◌&&◌, ◌||◌, false, if◌then◌else◌, Option, none, some, ℤ, pos}
use hiredis_happ.Common.ErrorCode
use hiredis_happ.Memory.{
  M, pure, ◌>>=◌, ◌>>◌, Status, Driver, Reply, on_connected, emit, get_cmd, put_cmd, get_conn,
}
use hiredis_happ.Connection
use hiredis_happ.Connection.{is_disconnected}
use hiredis_happ.Connection.Queue
use hiredis_happ.Raw.State.{Raw, lift, get_raw}
use hiredis_happ.Raw.{retry_fuel}
use hiredis_happ.Raw.Release.{release_connection}

-- REDIS_ERR_IO, REDIS_ERR_EOF and REDIS_ERR_OTHER of hiredis.
abbrev pub err_io : ℤ
err_io = pos 1

abbrev pub err_eof : ℤ
err_eof = pos 3

abbrev pub err_other : ℤ
err_other = pos 2

module _ (driver : Driver) where
  -- The reply goes to the command that waits on the connection `k`.
  unfoldable pub pass_reply : ℕ → ℕ → Option Reply → M Raw (Unit {0})
  pass_reply k c r = do res ← lift (Queue.call_reply driver k (some c) r); pure tt

  -- on_reply_wrapper(context, r, cmd), where `k` is `context->data`. After the errors of the context,
  -- a reply that is an error, one that is none and no reply are all passed on.
  unfoldable pub on_reply_wrapper : ℕ → ℕ → ℕ → Option Reply → ℕ → M Raw (Unit {0})
  on_reply_wrapper fuel context k r c = do
    s ← get_raw
    x ← lift (get_cmd c)
    let ctx = driver.context s.mem.trace context
    if ctx.disconnecting
        then (do
          lift (put_cmd c (record x { error_code = ErrorCode.connection }))
          pass_reply k c r)
        else if ctx.err ==ℤ err_io || ctx.err ==ℤ err_eof
        then (do
          popped ← lift (Queue.pop_reply k (some c))
          retried ← retry_fuel driver fuel c none
          pure tt)
        else pass_reply k c r

-- hiredis may report success for a connection that was closed meanwhile.
unfoldable pub true_status : ℤ → Status → ℤ
true_status status conn_status =
    if status ==ℤ pos 0 && is_disconnected conn_status then err_other else status

-- on_connected_wrapper(context, status), where `k` is `context->data`.
unfoldable pub on_connected_wrapper : ℕ → ℕ → ℤ → M Raw (Unit {0})
on_connected_wrapper context k status = do
  conn ← lift (get_conn k)
  s ← get_raw
  let code = true_status status conn.status
  if s.callbacks.has_on_connected then lift (emit (on_connected k (some context) code)) else pure tt
  if code ==ℤ pos 0
      then (do old ← lift (Connection.set_connected k); pure tt)
      else (do released ← release_connection false code; pure tt)

-- on_disconnected_wrapper(context, status), where `k` is `context->data`: the holder is read through it.
unfoldable pub on_disconnected_wrapper : ℕ → ℤ → M Raw (Unit {0})
on_disconnected_wrapper k status = do
  conn ← lift (get_conn k)
  released ← release_connection false status
  pure tt
