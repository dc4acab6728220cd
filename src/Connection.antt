-- ===== src/Connection.antt =====
-- connection of src/detail/happ_connection.cpp: the state of one connection, the commands that wait
-- for a reply on it, and what is sent over it.
pub mod Sequence
pub mod Access
pub mod Expire
pub mod Queue
pub mod Send
pub mod Release
pub mod Transitions
pub mod Opening
use hiredis_happ.Common.{
  ℕ, suc, ◌+◌, ◌%◌, ◌^◌, Bool, true, false, ◌==◌, ◌==ℤ◌, if◌then◌else◌, not, [], ◌∷◌, ◌++◌, List,
  Bytes, Option, none, some, ℤ, pos,
}
use hiredis_happ.Common.ErrorCode
use hiredis_happ.Name.{Key, set_key}
use hiredis_happ.Memory.{
  M, pure, fault, ◌>>=◌, ◌>>◌, Conn, Status, disconnected, connecting, connected, Memory, Driver,
  Reply, reply, ReplyType, reply_error, disconnects, get_memory, emit, get_cmd, put_cmd, get_conn,
  put_conn, new_conn, free_conn,
}
use hiredis_happ.Cmd
use Sequence.{make_sequence}
use Expire.{expire_all}

abbrev pub no_key : Key
no_key = record { name = []; port = 0; ip = [] }

-- connection()
unfoldable pub new_connection : M Memory ℕ
new_connection = do
  sequence ← make_sequence
  new_conn (record {
    key = no_key;
    sequence = sequence;
    context = none;
    reply_list = [];
    status = disconnected;
  })

-- init(h, k)
unfoldable pub init : ℕ → Key → M Memory (Unit {0})
init this k = do conn ← get_conn this; put_conn this (record conn { key = k })

-- The guards of set_connecting: a context, no connection in progress, and not the same context.
unfoldable pub may_connect : Conn → Option ℕ → Bool
may_connect conn none = false
may_connect conn (some c) = elim conn.status [
  | connecting ↦ false
  | _ ↦ elim conn.context [ none ↦ true | some old ↦ not (c == old) ]
]

-- Each transition returns the status before it.
unfoldable pub set_connecting : ℕ → Option ℕ → M Memory Status
set_connecting this c = do
  conn ← get_conn this
  if may_connect conn c
      then (do
        sequence ← make_sequence
        put_conn this (record conn { context = c; status = connecting; sequence = sequence })
        pure conn.status)
      else pure conn.status

unfoldable pub may_finish : Conn → Bool
may_finish conn = elim conn.status [
  | connecting ↦ elim conn.context [ none ↦ false | some c ↦ true ]
  | _ ↦ false
]

unfoldable pub set_connected : ℕ → M Memory Status
set_connected this = do
  conn ← get_conn this
  if may_finish conn
      then (do
        sequence ← make_sequence
        put_conn this (record conn { status = connected; sequence = sequence })
        pure conn.status)
      else pure conn.status

unfoldable pub close_context : Option ℕ → Bool → M Memory (Unit {0})
close_context none close_fd = pure tt
close_context (some c) true = emit (disconnects c)
close_context (some c) false = pure tt

unfoldable pub release : ℕ → Bool → M Memory (Unit {0})
release this close_fd = do
  conn ← get_conn this
  close_context conn.context close_fd
  expire_all this ErrorCode.connection conn.reply_list
  after ← get_conn this
  put_conn this (record after { context = none; status = disconnected })

unfoldable pub is_disconnected : Status → Bool
is_disconnected disconnected = true
is_disconnected connecting = false
is_disconnected connected = false

-- The status is set first, against reentrance.
unfoldable pub drop_connection : ℕ → Conn → Bool → M Memory Status
drop_connection this conn close_fd = do
  put_conn this (record conn { status = disconnected })
  release this close_fd
  sequence ← make_sequence
  after ← get_conn this
  put_conn this (record after { sequence = sequence })
  pure conn.status

unfoldable pub set_disconnected : ℕ → Bool → M Memory Status
set_disconnected this close_fd = do
  conn ← get_conn this
  if is_disconnected conn.status then pure disconnected else drop_connection this conn close_fd

-- ~connection() and the deletion of the object.
unfoldable pub delete_connection : ℕ → M Memory (Unit {0})
delete_connection this = do release this true; free_conn this
