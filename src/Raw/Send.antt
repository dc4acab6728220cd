-- ===== src/Raw/Send.antt =====
-- exec(conn, cmd) of hiredis::happ::raw. A retry is a call of `again`.
use hiredis_happ.Common.{
  ℕ, ◌-◌, ◌==◌, ◌==ℤ◌, not, ◌&&◌, ◌||◌, Bool, false, if◌then◌else◌, Option, none, some, pos,
}
use hiredis_happ.Common.ErrorCode
use hiredis_happ.Memory.{M, pure, ◌>>=◌, ◌>>◌, Driver, get_cmd, put_cmd, get_conn}
use hiredis_happ.Connection.Send.{redis_cmd}
use hiredis_happ.Raw.State.{Raw, lift, get_raw, fail_cmd}
use hiredis_happ.Raw.Release.{release_connection}

-- `conn_.get() == conn`
unfoldable pub is_current : Option ℕ → ℕ → Bool
is_current none k = false
is_current (some current) k = current == k

module _ (driver : Driver) (again : ℕ → Option ℕ → M Raw (Option ℕ)) where
  -- Where `redis_cmd` failed: over a context that is closing, the connection is released and the
  -- command tried again; any other failure is the command's end.
  unfoldable pub send_failed : ℕ → ℕ → Option ℕ → M Raw (Option ℕ)
  send_failed k c none = fail_cmd c ErrorCode.connection none
  send_failed k c (some context) = do
    r ← get_raw
    let flags = driver.context r.mem.trace context
    if flags.disconnecting || flags.freeing
        then (do
          ignored ←
              (if is_current r.conn k && not flags.in_callback
                then release_connection false ErrorCode.connection
                else pure false)
          again c none)
        else fail_cmd c ErrorCode.hiredis (some context)

  -- exec(conn, cmd), for a connection and a command that are not null.
  unfoldable pub exec_on : ℕ → ℕ → M Raw (Option ℕ)
  exec_on k c = do
    x ← lift (get_cmd c)
    if x.ttl == 0 then fail_cmd c ErrorCode.ttl none else (do
      lift (put_cmd c (record x { ttl = x.ttl - 1 }))
      res ← lift (redis_cmd driver k (some c))
      if res ==ℤ pos 0
          then pure (some c)
          else (do conn ← lift (get_conn k); send_failed k c conn.context))
