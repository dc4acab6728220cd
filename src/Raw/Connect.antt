-- ===== src/Raw/Connect.antt =====
-- make_connection of hiredis::happ::raw.
use hiredis_happ.Common.{
  ℕ, ◌+◌, ltb, ◌==ℤ◌, is_pos, ◌&&◌, Bool, true, false, if◌then◌else◌, [], ◌∷◌, Bytes, Option, none,
  some, pos,
}
use hiredis_happ.Memory.{
  M, pure, ◌>>=◌, ◌>>◌, reply_auth, Driver, connects, frees_context, on_connect, emit, get_conn,
}
use hiredis_happ.Cmd
use hiredis_happ.Connection
use hiredis_happ.Raw.State.{Raw, lift, get_raw, put_raw, is_timer_active, destroy_cmd, create_cmd}
use hiredis_happ.Raw.Send.{exec_on}

-- "AUTH %b"
abbrev auth_format : Bytes
auth_format = 65 ∷ 85 ∷ 84 ∷ 72 ∷ 32 ∷ 37 ∷ 98 ∷ []

-- The timeout of a new connection, if timeouts are on and the timer is running.
unfoldable pub start_timeout : ℕ → M Raw (Unit {0})
start_timeout k = do
  r ← get_raw
  conn ← lift (get_conn k)
  if ltb 0 r.conf.timer_timeout_sec && is_timer_active r
      then put_raw (record r {
        timer = record (r.timer) {
          conn_sequence = conn.sequence;
          conn_timeout = r.timer.last_update_sec + r.conf.timer_timeout_sec;
        };
      })
      else pure tt

module _ (driver : Driver) (again : ℕ → Option ℕ → M Raw (Option ℕ)) where
  -- The AUTH command of a new connection, with the password that the user's function gives, if there is
  -- one. False where the command cannot be formatted.
  unfoldable pub send_auth : ℕ → Bytes → M Raw Bool
  send_auth k password = do
    created ← create_cmd driver reply_auth 0
    elim created [
      | none ↦ pure true
      | some c ↦ (do
        len ← lift (Cmd.vformat driver c auth_format (password ∷ []))
        if is_pos len
            then (do sent ← exec_on driver again k c; pure true)
            else (do destroy_cmd c; pure false))
    ]

  unfoldable pub authenticate_by : ℕ → Option (Bytes → Bytes) → Bytes → M Raw Bool
  authenticate_by k (some passwd) password = send_auth k (passwd password)
  authenticate_by k none [] = pure true
  authenticate_by k none (b ∷ bs) = send_auth k (b ∷ bs)

  unfoldable pub authenticate : ℕ → M Raw Bool
  authenticate k = do r ← get_raw; authenticate_by k r.auth.auth_fn r.auth.password

  -- The connection object for a context that is there.
  unfoldable pub open_connection : ℕ → M Raw (Option ℕ)
  open_connection context = do
    k ← lift Connection.new_connection
    r ← get_raw
    put_raw (record r { conn = some k })
    lift (Connection.init k r.conf.init_connection)
    old ← lift (Connection.set_connecting k (some context))
    start_timeout k
    authenticated ← authenticate k
    if authenticated
        then (do
          s ← get_raw
          if s.callbacks.has_on_connect then lift (emit (on_connect k)) else pure tt
          pure (some k))
        else pure none

  unfoldable pub use_context : Option ℕ → M Raw (Option ℕ)
  use_context none = pure none
  use_context (some context) = do
    r ← get_raw
    if (driver.context r.mem.trace context).err ==ℤ pos 0
        then open_connection context
        else (do lift (emit (frees_context context)); pure none)

  unfoldable pub make_from : Option ℕ → M Raw (Option ℕ)
  make_from (some k) = pure none
  make_from none = do
    r ← get_raw
    let k = r.conf.init_connection
    lift (emit (connects k.ip k.port))
    use_context (driver.connect r.mem.trace k.ip k.port)

  -- With a connection there is nothing to make.
  unfoldable pub make_connection : M Raw (Option ℕ)
  make_connection = do r ← get_raw; make_from r.conn
