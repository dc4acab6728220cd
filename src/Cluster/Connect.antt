-- ===== src/Cluster/Connect.antt =====
-- make_connection of hiredis::happ::cluster.
use hiredis_happ.Common.{
  ℕ, ◌+◌, ltb, ◌==ℤ◌, is_pos, ◌&&◌, Bool, true, false, if◌then◌else◌, [], ◌∷◌, ◌++◌, Bytes, Option,
  none, some, pos,
}
use hiredis_happ.Name.{Key}
use hiredis_happ.Memory.{
  M, pure, ◌>>=◌, ◌>>◌, reply_auth, Driver, connects, frees_context, on_connect, emit, get_conn,
}
use hiredis_happ.Cmd
use hiredis_happ.Connection
use hiredis_happ.Cluster.State.{
  Cluster, lift, get_cluster, put_cluster, is_timer_active, destroy_cmd, create_cmd, set_timeouts,
}
use hiredis_happ.Cluster.Connections.{insert, get_connection}
use hiredis_happ.Cluster.Send.{exec_on}

-- "AUTH %b"
abbrev auth_format : Bytes
auth_format = 65 ∷ 85 ∷ 84 ∷ 72 ∷ 32 ∷ 37 ∷ 98 ∷ []

-- The timeout of a new connection goes behind the others, if timeouts are on and the timer is running.
unfoldable pub start_timeout : Key → ℕ → M Cluster (Unit {0})
start_timeout key k = do
  s ← get_cluster
  conn ← lift (get_conn k)
  if ltb 0 s.conf.timer_timeout_sec && is_timer_active s
      then set_timeouts (
          s.timer.timer_conns
          ++ record {
            name = key.name;
            sequence = conn.sequence;
            timeout = s.timer.last_update_sec + s.conf.timer_timeout_sec;
          }
            ∷ [])
      else pure tt

module _ (driver : Driver) (again : ℕ → Option ℕ → M Cluster (Option ℕ)) where
  -- The AUTH command of a new connection, with the password that the user's function gives, if there is
  -- one. False where the command cannot be formatted.
  unfoldable pub send_auth : ℕ → Bytes → M Cluster Bool
  send_auth k password = do
    created ← create_cmd driver reply_auth 0
    elim created [
      | none ↦ pure true
      | some c ↦ (do
        len ← lift (Cmd.vformat driver c auth_format (password ∷ []))
        if is_pos len
            then (do sent ← exec_on driver again (some k) c; pure true)
            else (do destroy_cmd c; pure false))
    ]

  unfoldable pub authenticate_by : ℕ → Option (Bytes → Bytes) → Bytes → M Cluster Bool
  authenticate_by k (some passwd) password = send_auth k (passwd password)
  authenticate_by k none [] = pure true
  authenticate_by k none (b ∷ bs) = send_auth k (b ∷ bs)

  unfoldable pub authenticate : ℕ → M Cluster Bool
  authenticate k = do s ← get_cluster; authenticate_by k s.auth.auth_fn s.auth.password

  -- The steps from the timeout on.
  unfoldable pub finish_open : Key → ℕ → M Cluster (Option ℕ)
  finish_open key k = do
    start_timeout key k
    authenticated ← authenticate k
    if authenticated
        then (do
          s ← get_cluster
          if s.callbacks.has_on_connect then lift (emit (on_connect k)) else pure tt
          pure (some k))
        else pure none

  -- The connection object for a context that is there.
  unfoldable pub open_connection : Key → ℕ → M Cluster (Option ℕ)
  open_connection key context = do
    k ← lift Connection.new_connection
    s ← get_cluster
    put_cluster (record s { connections = insert key.name k s.connections })
    lift (Connection.init k key)
    old ← lift (Connection.set_connecting k (some context))
    finish_open key k

  unfoldable pub use_context : Key → Option ℕ → M Cluster (Option ℕ)
  use_context key none = pure none
  use_context key (some context) = do
    s ← get_cluster
    if (driver.context s.mem.trace context).err ==ℤ pos 0
        then open_connection key context
        else (do lift (emit (frees_context context)); pure none)

  unfoldable pub make_from : Key → Option ℕ → M Cluster (Option ℕ)
  make_from key (some k) = pure none
  make_from key none = do
    s ← get_cluster
    lift (emit (connects key.ip key.port))
    use_context key (driver.connect s.mem.trace key.ip key.port)

  -- A name that has a connection gets no other.
  unfoldable pub make_connection : Key → M Cluster (Option ℕ)
  make_connection key = do s ← get_cluster; make_from key (get_connection key.name s)

  unfoldable pub find_from : Key → Option ℕ → M Cluster (Option ℕ)
  find_from key (some k) = pure (some k)
  find_from key none = make_connection key

  -- `get_connection(key.name)`, and `make_connection(key)` where there is none.
  unfoldable pub find_connection : Key → M Cluster (Option ℕ)
  find_connection key = do s ← get_cluster; find_from key (get_connection key.name s)
