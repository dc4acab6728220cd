-- ===== src/Memory/Defs.antt =====
-- cmd_exec (include/detail/happ_cmd.h), connection (include/detail/happ_connection.h), and the parts
-- of hiredis that the source names.
use hiredis_happ.Common.{ℕ, Bool, List, Bytes, Option, ℤ}
use hiredis_happ.Name.{Key}

-- cmd_exec::callback_fn_t: a function of the user, or one of the library's own.
pub data Callback : Type 0 where
  null_fn : Callback
  user : ℕ → Callback
  reply_auth reply_update_slot : Callback

-- cmd_exec. `content` is the pointer in the union, with the bytes that it points at; `slot` is -1 for
-- a random slot.
pub record Cmd : Type 0 where
  pub raw_len : ℕ
  pub content : Option Bytes
  pub ttl : ℕ
  pub callback : Callback
  pub error_code : ℤ
  pub slot : ℤ
  pub private_data : ℕ

-- redisReply::type
pub data ReplyType : Type 0 where
  reply_string reply_array reply_integer reply_nil reply_status reply_error reply_other : ReplyType

-- redisReply: its type, `integer`, `str` (null is `none`) and `element`, where a null pointer is
-- `null_elem`.
mutual
  pub data Reply : Type 0 where
    reply : ReplyType → ℤ → Option Bytes → Replies → Reply

  pub data Replies : Type 0 where
    done : Replies
    null_elem : Replies → Replies
    elem : Reply → Replies → Replies

-- connection::status::type
pub data Status : Type 0 where
  disconnected connecting connected : Status

-- connection. `context` is the number of a redisAsyncContext.
pub record Conn : Type 0 where
  pub key : Key
  pub sequence : ℕ
  pub context : Option ℕ
  pub reply_list : List ℕ
  pub status : Status

-- A command of redis_raw_cmd: a format with its arguments, a formatted text, or a list of arguments.
pub data RawCommand : Type 0 where
  by_format : Bytes → List Bytes → RawCommand
  by_text : Bytes → RawCommand
  by_argv : List Bytes → RawCommand

-- What leaves the library, oldest last in `trace`.
pub data Event : Type 0 where
  -- A callback of a command: the command, the function, the command's error code, the context and
  -- the reply.
  called : ℕ → Callback → ℤ → Option ℕ → Option Reply → Event
  -- A command is destroyed, a connection object is deleted.
  freed deleted : ℕ → Event
  -- redisAsyncFormattedCommand(context, fn, cmd, bytes), and the other calls of hiredis.
  sent : ℕ → ℕ → Bytes → Event
  -- redisvAsyncCommand, redisAsyncFormattedCommand or redisAsyncCommandArgv of redis_raw_cmd.
  sent_raw : ℕ → RawCommand → Event
  -- redisAsyncCommand(context, on_reply_asking, cmd, "ASKING")
  asks : ℕ → ℕ → Event
  -- A number is taken from `detail::random`.
  draws : Event
  connects : Bytes → ℕ → Event
  disconnects frees_context : ℕ → Event
  -- on_connect, on_connected and on_disconnected of the user.
  on_connect : ℕ → Event
  on_connected on_disconnected : ℕ → Option ℕ → ℤ → Event

-- redisAsyncContext: `err` and the flags that the source reads.
pub record Context : Type 0 where
  pub err : ℤ
  pub disconnecting : Bool
  pub freeing : Bool
  pub in_callback : Bool

-- A format function of hiredis: its result, and the buffer that it allocates.
pub record Formatted : Type 0 where
  pub ret : ℤ
  pub out : Option Bytes

-- What redisAsyncDisconnect does before it returns: it puts the end off, as it does inside a callback and
-- where replies are awaited, or it calls the connect or the disconnect callback with a status.
pub data Closing : Type 0 where
  later : Closing
  finished lost : ℤ → Closing

-- hiredis, malloc, the generator of `detail::random`, and the order in which an unordered map hands out
-- the connections that it holds.
pub record Driver : Type 0 where
  pub malloc : List Event → ℕ → Bool
  pub sdsdup : List Event → Bytes → Bool
  pub context : List Event → ℕ → Context
  pub send : List Event → ℕ → ℕ → Bytes → ℤ
  pub send_raw : List Event → ℕ → RawCommand → ℤ
  pub connect : List Event → Bytes → ℕ → Option ℕ
  pub asking : List Event → ℕ → ℕ → ℤ
  pub random : List Event → ℕ
  pub disconnect : List Event → ℕ → Closing
  pub order : List Event → List ℕ → List ℕ
  -- redisvFormatCommand and redisFormatSdsCommandArgv
  pub format : Bytes → List Bytes → Formatted
  pub format_argv : List Bytes → Formatted

pub record Memory : Type 0 where
  pub cmds : ℕ → Option Cmd
  pub next_cmd : ℕ
  pub conns : ℕ → Option Conn
  pub next_conn : ℕ
  -- `seq_alloc` of connection::make_sequence
  pub seq_alloc : ℕ
  pub trace : List Event
