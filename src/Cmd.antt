-- ===== src/Cmd.antt =====
-- cmd_exec of src/detail/happ_cmd.cpp: creation, content, reply and destruction of a command.
pub mod Lifecycle
pub mod Argument
pub mod Failing
pub mod Creation
pub mod Dump
pub mod Access
use hiredis_happ.Common.{
  ℕ, ◌+◌, ◌-◌, ◌*◌, ◌/◌, ◌%◌, ◌^◌, List, Bytes, Bool, Option, none, some, ℤ, pos, negsuc, is_pos,
  if◌then◌else◌, ◌==◌, length,
}
use hiredis_happ.Common.ErrorCode
use hiredis_happ.Memory.{
  M, pure, ◌>>=◌, ◌>>◌, Cmd, Callback, null_fn, Memory, Driver, Event, called, Formatted, Reply,
  get_memory, emit, get_cmd, put_cmd, free_cmd, new_cmd,
}

-- HIREDIS_HAPP_TTL
abbrev pub default_ttl : ℕ
default_ttl = 16

-- sizeof(cmd_exec) and sizeof(void *) on a platform with pointers of 64 bits.
abbrev pub cmd_exec_size : ℕ
cmd_exec_size = 56

-- `(sum_len + sizeof(void *) - 1) & ~(sizeof(void *) - 1)`, in `size_t`.
unfoldable pub alloc_size : ℕ → ℕ
alloc_size buffer_len = ((cmd_exec_size + buffer_len) % 2 ^ 64 + 8 - 1) % 2 ^ 64 / 8 * 8

-- `ret > 0 ? static_cast<size_t>(ret) : 0`
unfoldable pub raw_length : ℤ → ℕ
raw_length (pos n) = n
raw_length (negsuc n) = 0

-- free_cmd_content, on the command that holds the content.
unfoldable pub free_cmd_content : Cmd → Cmd
free_cmd_content x = record x { raw_len = 0; content = none }

module _ (driver : Driver) where
  -- `none` in the result is a null pointer.
  unfoldable pub create : Callback → ℕ → ℕ → M Memory (Option ℕ)
  create cbk pridata buffer_len = do
    m ← get_memory
    if driver.malloc m.trace (alloc_size buffer_len)
        then (do
          c ← new_cmd (record {
            raw_len = 0;
            content = none;
            ttl = default_ttl;
            callback = cbk;
            error_code = pos 0;
            slot = negsuc 0;
            private_data = pridata;
          })
          pure (some c))
        else pure none

  -- vformat(argc, argv, argvlen)
  unfoldable pub vformat_argv : ℕ → List Bytes → M Memory ℤ
  vformat_argv c argv = do
    x ← get_cmd c
    let f = driver.format_argv argv
    put_cmd c (record (free_cmd_content x) { content = f.out })
    pure f.ret

  -- format(fmt, ...) and vformat(fmt, ap)
  unfoldable pub vformat : ℕ → Bytes → List Bytes → M Memory ℤ
  vformat c fmt args = do
    x ← get_cmd c
    let f = driver.format fmt args
    put_cmd c (record (free_cmd_content x) { raw_len = raw_length f.ret; content = f.out })
    pure f.ret

  -- vformat(src): a copy of an `sds`; null is `none`.
  unfoldable pub vformat_sds : ℕ → Option Bytes → M Memory ℤ
  vformat_sds c none = do x ← get_cmd c; put_cmd c (free_cmd_content x); pure (pos 0)
  vformat_sds c (some s) = do
    x ← get_cmd c
    m ← get_memory
    if driver.sdsdup m.trace s
        then (do
          put_cmd c (record (free_cmd_content x) { content = some s })
          pure (pos (length s)))
        else (do put_cmd c (free_cmd_content x); pure ErrorCode.create)

unfoldable pub is_null : Callback → Bool
is_null null_fn = Bool.true
is_null cbk = Bool.false

-- The callback is taken out before it is called, so that it is called once.
unfoldable pub call_reply : ℕ → ℤ → Option ℕ → Option Reply → M Memory ℤ
call_reply c rcode context r = do
  x ← get_cmd c
  if is_null x.callback then pure ErrorCode.ok else (do
    put_cmd c (record x { error_code = rcode; callback = null_fn })
    emit (called c x.callback rcode context r)
    pure ErrorCode.ok)

unfoldable pub destroy : ℕ → M Memory (Unit {0})
destroy c = free_cmd c
