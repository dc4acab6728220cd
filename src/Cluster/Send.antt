-- ===== src/Cluster/Send.antt =====
-- exec(conn, cmd) of hiredis::happ::cluster. A retry is a call of `again`.
use hiredis_happ.Common.{
  ℕ, ◌-◌, ◌==◌, ◌==ℤ◌, ◌||◌, if◌then◌else◌, Option, none, some, pos, negsuc, false,
}
use hiredis_happ.Common.ErrorCode
use hiredis_happ.Memory.{M, pure, ◌>>=◌, ◌>>◌, Conn, Driver, get_cmd, put_cmd, get_conn}
use hiredis_happ.Connection.Send.{redis_cmd}
use hiredis_happ.Cluster.State.{Cluster, lift, get_cluster, fail_cmd}
use hiredis_happ.Cluster.Connections.{forget_host, release_connection}

module _ (driver : Driver) (again : ℕ → Option ℕ → M Cluster (Option ℕ)) where
  -- `cmd->engine_.slot = -1; return retry(cmd, nullptr);`
  unfoldable pub try_elsewhere : ℕ → M Cluster (Option ℕ)
  try_elsewhere c = do
    x ← lift (get_cmd c)
    lift (put_cmd c (record x { slot = negsuc 0 }))
    again c none

  -- Where `redis_cmd` failed: over a context that is closing, the connection is released and no slot
  -- has it for its master, and the command is tried again; any other failure is the command's end.
  unfoldable pub send_failed : Conn → ℕ → Option ℕ → M Cluster (Option ℕ)
  send_failed conn c none = fail_cmd c ErrorCode.connection none
  send_failed conn c (some context) = do
    s ← get_cluster
    let flags = driver.context s.mem.trace context
    if flags.disconnecting || flags.freeing
        then (do
          forget_host conn.key.name
          released ←
              (if flags.in_callback
                then pure false
                else release_connection conn.key.name false ErrorCode.connection)
          try_elsewhere c)
        else fail_cmd c ErrorCode.hiredis (some context)

  unfoldable pub send_on : ℕ → ℕ → M Cluster (Option ℕ)
  send_on k c = do
    res ← lift (redis_cmd driver k (some c))
    if res ==ℤ pos 0
        then pure (some c)
        else (do conn ← lift (get_conn k); send_failed conn c conn.context)

  unfoldable pub send_over : Option ℕ → ℕ → M Cluster (Option ℕ)
  send_over none c = fail_cmd c ErrorCode.connection none
  send_over (some k) c = send_on k c

  -- exec(conn, cmd), for a command that is not null; the connection may be null.
  unfoldable pub exec_on : Option ℕ → ℕ → M Cluster (Option ℕ)
  exec_on k c = do
    x ← lift (get_cmd c)
    if x.ttl == 0
        then fail_cmd c ErrorCode.ttl none
        else (do lift (put_cmd c (record x { ttl = x.ttl - 1 })); send_over k c)
