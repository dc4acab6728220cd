-- ===== src/Connection/Queue.antt =====
-- The reply list: `pop_reply` and `call_reply`.
pub mod Pop
pub mod Waiting
pub mod Frees
use hiredis_happ.Common.{
  ℕ, Bool, true, false, ◌||◌, ◌==◌, ◌==ℤ◌, if◌then◌else◌, not, [], ◌∷◌, List, Option, none, some, ℤ,
  pos,
}
use hiredis_happ.Common.ErrorCode
use hiredis_happ.Memory.{
  M, pure, ◌>>=◌, ◌>>◌, Conn, Memory, Driver, Reply, reply, ReplyType, reply_error, get_memory,
  get_cmd, put_cmd, get_conn, put_conn,
}
use hiredis_happ.Cmd
use hiredis_happ.Connection.Expire.{expire_front}

-- std::find
unfoldable pub contains : ℕ → List ℕ → Bool
contains c [] = false
contains c (x ∷ xs) = x == c || contains c xs

-- `while (front != c)`, and then the pop of `c` itself. An empty list cannot be met, since `c` was
-- found; `front()` of it would be undefined, so it is null here.
unfoldable pub pop_until : ℕ → ℕ → List ℕ → M Memory (Option ℕ)
pop_until this c [] = pure none
pop_until this c (x ∷ rest) =
    let expire : M Memory (Option ℕ) = (do
      expire_front this ErrorCode.timeout x rest
      pop_until this c rest) in
    if x == c
    then (do conn ← get_conn this; put_conn this (record conn { reply_list = rest }); pure (some x))
    else expire

-- pop_reply(c), where null is `none`.
unfoldable pub pop_reply : ℕ → Option ℕ → M Memory (Option ℕ)
pop_reply this none = do
  conn ← get_conn this
  elim conn.reply_list [
    | [] ↦ pure none
    | c ∷ rest ↦ (do put_conn this (record conn { reply_list = rest }); pure (some c))
  ]
pop_reply this (some c) = do
  conn ← get_conn this
  if contains c conn.reply_list then pop_until this c conn.reply_list else pure none

-- A command that is not waiting: it is called and destroyed all the same.
unfoldable pub refuse : Option ℕ → Option ℕ → Option Reply → M Memory (Unit {0})
refuse none context r = pure tt
refuse (some c) context r = do
  x ← get_cmd c
  put_cmd c (record x { error_code = ErrorCode.not_found })
  res ← Cmd.call_reply c ErrorCode.not_found context r
  Cmd.destroy c

unfoldable pub is_error_reply : Option Reply → Bool
is_error_reply none = false
is_error_reply (some (reply reply_error i s e)) = true
is_error_reply (some (reply t i s e)) = false

module _ (driver : Driver) where
  -- The error code that a popped command is called with: an error of the context or an error reply
  -- stands for REDIS_HAPP_HIREDIS, and else the command keeps its own.
  unfoldable pub translate : ℕ → Option ℕ → Option Reply → M Memory ℤ
  translate sc none r = do x ← get_cmd sc; pure x.error_code
  translate sc (some context) r = do
    x ← get_cmd sc
    m ← get_memory
    pure (
        if not ((driver.context m.trace context).err ==ℤ pos 0) || is_error_reply r
        then ErrorCode.hiredis
        else x.error_code)

  -- What follows `pop_reply`, on the command that it returned.
  unfoldable pub reply_popped : Option ℕ → ℕ → Option Reply → Option ℕ → M Memory ℤ
  reply_popped c context r none = do refuse c (some context) r; pure ErrorCode.not_found
  reply_popped c context r (some sc) = do
    code ← translate sc (some context) r
    res ← Cmd.call_reply sc code (some context) r
    Cmd.destroy sc
    pure res

  unfoldable pub reply_over : ℕ → Option ℕ → Option Reply → Option ℕ → M Memory ℤ
  reply_over this c r none = do refuse c none r; pure ErrorCode.create
  reply_over this c r (some context) = do popped ← pop_reply this c; reply_popped c context r popped

  -- call_reply(c, r)
  unfoldable pub call_reply : ℕ → Option ℕ → Option Reply → M Memory ℤ
  call_reply this c r = do conn ← get_conn this; reply_over this c r conn.context
