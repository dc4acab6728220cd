-- ===== src/Connection/Send.antt =====
-- What is sent over a connection: `redis_cmd` and `redis_raw_cmd`.
use hiredis_happ.Common.{
  ℕ, ◌==◌, ◌==ℤ◌, Bool, ◌||◌, if◌then◌else◌, [], ◌∷◌, ◌++◌, Bytes, take, Option, none, some, ℤ, pos,
}
use hiredis_happ.Common.ErrorCode
use hiredis_happ.Text.{tolower, strncase_eq}
use hiredis_happ.Memory.{
  M, pure, fault, ◌>>=◌, ◌>>◌, Cmd, Status, disconnected, connecting, connected, Memory, Driver,
  sent, sent_raw, RawCommand, by_text, get_memory, emit, get_cmd, get_conn, put_conn,
}
use hiredis_happ.Cmd
use hiredis_happ.Cmd.Argument.{pick_cmd}

-- The names that hiredis answers without a reply for the command, with the bytes behind them.
abbrev subscribe : Bytes
subscribe = 115 ∷ 117 ∷ 98 ∷ 115 ∷ 99 ∷ 114 ∷ 105 ∷ 98 ∷ 101 ∷ 13 ∷ 10 ∷ []

abbrev unsubscribe : Bytes
unsubscribe = 117 ∷ 110 ∷ subscribe

abbrev monitor : Bytes
monitor = 109 ∷ 111 ∷ 110 ∷ 105 ∷ 116 ∷ 111 ∷ 114 ∷ 13 ∷ 10 ∷ []

-- `if (is_pattern) ++cstr`
unfoldable pub skip_pattern : Bytes → Bytes
skip_pattern [] = []
skip_pattern (c ∷ s) = if tolower c == b'p' then s else c ∷ s

-- `cstr` points at the name in the command's own buffer.
unfoldable pub has_no_reply : Bytes → Bool
has_no_reply cstr =
    let name = skip_pattern cstr in
    strncase_eq 11 name subscribe || strncase_eq 13 name unsubscribe || strncase_eq 9 name monitor

-- What is handed to redisAsyncFormattedCommand.
unfoldable pub payload : Cmd → Option Bytes
payload x = elim x.content [
  | none ↦ none
  | some bytes ↦ some (if x.raw_len == 0 then bytes else take x.raw_len bytes)
]

-- After a send that hiredis took: the command waits, or has no reply and is destroyed.
unfoldable pub enqueue : ℕ → ℕ → Option Bytes → M Memory (Unit {0})
enqueue this c none = do
  conn ← get_conn this
  put_conn this (record conn { reply_list = conn.reply_list ++ c ∷ [] })
enqueue this c (some cstr) = if has_no_reply cstr then Cmd.destroy c else (do
  conn ← get_conn this
  put_conn this (record conn { reply_list = conn.reply_list ++ c ∷ [] }))

module _ (driver : Driver) where
  -- redisAsyncFormattedCommand; a null buffer is a fault, since `sdslen` reads through it.
  unfoldable pub send : ℕ → ℕ → Option Bytes → M Memory ℤ
  send context c none = fault
  send context c (some bytes) = do
    m ← get_memory
    emit (sent context c bytes)
    pure (driver.send m.trace context c bytes)

  unfoldable pub send_cmd : ℕ → ℕ → ℕ → M Memory ℤ
  send_cmd this context c = do
    x ← get_cmd c
    res ← send context c (payload x)
    if res ==ℤ pos 0 then (do name ← pick_cmd c; enqueue this c name; pure res) else pure res

  -- A command that is there, by the connection's context and status.
  unfoldable pub send_over : ℕ → ℕ → Option ℕ → Status → M Memory ℤ
  send_over this c none status = pure ErrorCode.create
  send_over this c (some context) disconnected = pure ErrorCode.connection
  send_over this c (some context) connecting = send_cmd this context c
  send_over this c (some context) connected = send_cmd this context c

  -- redis_cmd(c, fn), where null is `none`.
  unfoldable pub redis_cmd : ℕ → Option ℕ → M Memory ℤ
  redis_cmd this none = pure ErrorCode.param
  redis_cmd this (some c) = do conn ← get_conn this; send_over this c conn.context conn.status

  unfoldable pub raw_over : Option ℕ → RawCommand → M Memory ℤ
  raw_over none command = pure ErrorCode.create
  raw_over (some context) command = do
    m ← get_memory
    emit (sent_raw context command)
    pure (driver.send_raw m.trace context command)

  -- redis_raw_cmd(fn, priv_data, ...): the command is handed to hiredis, and nothing is kept of it.
  unfoldable pub redis_raw_cmd : ℕ → RawCommand → M Memory ℤ
  redis_raw_cmd this command = do conn ← get_conn this; raw_over conn.context command

  -- redis_raw_cmd(fn, priv_data, src), where null is `none`.
  unfoldable pub redis_raw_sds : ℕ → Option Bytes → M Memory ℤ
  redis_raw_sds this (some text) = redis_raw_cmd this (by_text text)
  redis_raw_sds this none = do
    conn ← get_conn this
    elim conn.context [ none ↦ pure ErrorCode.create | some context ↦ pure ErrorCode.param ]
