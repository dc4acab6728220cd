-- ===== src/Tests.antt =====
-- Runs of the code on small inputs, and the theorems at concrete states.
pub mod Cluster
pub mod Histories
pub mod Logging
pub mod Dump
pub mod Timers
pub mod Sample
use hiredis_happ.Common.{
  ℕ, ◌%◌, ◌<◌, ◌≡◌, refl, arith, ltb, ◌==◌, if◌then◌else◌, true, false, [], ◌∷◌, ◌++◌, List, Bytes,
  length, All, Option, none, some, ℤ, pos, negsuc, ◌≤◌, ◌⊎◌, ◌==◌,
}
use hiredis_happ.Common.ErrorCode
use hiredis_happ.Crc16.{crc16}
use hiredis_happ.Crc16.Bitwise.{crc_bits}
use hiredis_happ.Crc16.Equivalence.{crc16-crc_bits}
use hiredis_happ.HashSlot.{slot_number, hash_slot}
use hiredis_happ.HashSlot.Tags.{Hashed, tagged, hash_slot_lem, hash_slot-tag}
use hiredis_happ.Text.{strncase_eq, scan_int, is_blank, strchr}
use hiredis_happ.Name.{make_name, split_colon, skip_blanks, to_u16, pick_name}
use hiredis_happ.Name.RoundTrip.{IsHost, pick_name-make_name}
use hiredis_happ.Memory.{
  Cmd, Conn, Memory, Driver, later, Event, user, connected, freed, Reply, Replies, reply,
  reply_array, reply_integer, reply_string, elem, done,
}
use hiredis_happ.Cmd
use hiredis_happ.Cmd.Argument.{to_size, pick_bulk, pick_argument}
use hiredis_happ.Memory.Laws.{IsLive, Distinct}
use hiredis_happ.Cmd.Lifecycle.{answer, Answered, call_reply_once}
use hiredis_happ.Connection.{release, is_disconnected}
use hiredis_happ.Connection.Sequence.{
  next_sequence, next_sequence_lem, sequences, Ascending, sequences-Ascending,
}
use hiredis_happ.Connection.Release.{Released, release_lem}
use hiredis_happ.Connection.Queue
use hiredis_happ.Connection.Queue.Waiting.{Replied, call_reply-waiting}
use hiredis_happ.Connection.Queue.Frees.{call_reply-frees}
use hiredis_happ.Connection.Transitions.{
  IsConsistent, Transition, connects, finishes, disconnects, releases, run_all, IsSound,
  run_all-IsSound,
}
use hiredis_happ.Name.{Key}
use hiredis_happ.Slots.{
  Table, invalid, is_named, endpoint_text, or_peer, port_of, with_port, pick_endpoint, fill_nodes,
  get_slot_master, get_slot_by_key, remove_connection_key,
}
use hiredis_happ.Slots.Filling.{hosts_or, last_hosts, fill_nodes_lem}
use hiredis_happ.Slots.Endpoint.{pick_endpoint_lem}
use hiredis_happ.Slots.Masters.{
  Master, Removed, get_slot_master-Master, get_slot_by_key_lem, remove_connection_key_lem,
}
use hiredis_happ.Raw.{exec}
use hiredis_happ.Raw.State.{Raw, new_raw, fail_cmd, destroy_cmd}
use hiredis_happ.Raw.Release.{release_connection}
use hiredis_happ.Raw.Timers.{reset}
use hiredis_happ.Cmd.Failing.{Failed}
use hiredis_happ.Raw.Pending.{fail_cmd-destroy_cmd}
use hiredis_happ.Raw.Teardown.{closed, Closed, release_connection_lem}
use hiredis_happ.Raw.Settling.{IsReady, Settled}
use hiredis_happ.Raw.Settling.Framing.{Frame}
use hiredis_happ.Connection.Send.{redis_cmd, has_no_reply, skip_pattern}
use hiredis_happ.Raw.Settling.Sending.{Outcomes, redis_cmd_lem}
use hiredis_happ.Raw.Settling.Retries.{exec-Settles}

-- "foo"
abbrev pub foo : Bytes
foo = 102 ∷ 111 ∷ 111 ∷ []

-- "{foo}a"
abbrev tagged_a : Bytes
tagged_a = b'{' ∷ 102 ∷ 111 ∷ 111 ∷ b'}' ∷ 97 ∷ []

-- "b{foo}"
abbrev tagged_b : Bytes
tagged_b = 98 ∷ b'{' ∷ 102 ∷ 111 ∷ 111 ∷ b'}' ∷ []

-- "::1"
abbrev ipv6 : Bytes
ipv6 = b':' ∷ b':' ∷ b'1' ∷ []

-- "$3\r\nGET\r\n"
abbrev pub get_command : Bytes
get_command = b'$' ∷ b'3' ∷ 13 ∷ 10 ∷ 71 ∷ 69 ∷ 84 ∷ 13 ∷ 10 ∷ []

abbrev pub get_cmd : Cmd
get_cmd = record {
  raw_len = 0;
  content = some get_command;
  ttl = 16;
  callback = user 7;
  error_code = pos 0;
  slot = negsuc 0;
  private_data = 0;
}

-- Two commands wait on it.
abbrev pub busy : Conn
busy = record {
  key = record { name = []; port = 0; ip = [] };
  sequence = 1;
  context = some 5;
  reply_list = 0 ∷ 1 ∷ [];
  status = connected;
}

-- The commands 0 to 3, and the connection 0.
abbrev pub heap : Memory
heap = record {
  cmds = λ c. if ltb c 4 then some get_cmd else none;
  next_cmd = 4;
  conns = λ k. if k == 0 then some busy else none;
  next_conn = 1;
  seq_alloc = 2;
  trace = [];
}

-- Every call of hiredis succeeds.
abbrev pub calm : Driver
calm = record {
  malloc = λ trace n. true;
  sdsdup = λ trace s. true;
  context = λ trace c. record {
    err = pos 0;
    disconnecting = false;
    freeing = false;
    in_callback = false;
  };
  send = λ trace context c bytes. pos 0;
  send_raw = λ trace context command. pos 0;
  connect = λ trace ip port. some 9;
  asking = λ trace context c. pos 0;
  random = λ trace. 0;
  disconnect = λ trace c. later;
  order = λ trace conns. conns;
  format = λ fmt args. record { ret = negsuc 0; out = none };
  format_argv = λ argv. record { ret = negsuc 0; out = none };
}

-- Every context is closing, and no send succeeds.
abbrev pub stormy : Driver
stormy = record calm {
  context =
      λ trace c. record { err = pos 0; disconnecting = true; freeing = false; in_callback = false };
  send = λ trace context c bytes. negsuc 0;
}

-- The connection 0; the command 2 waits for the timer.
abbrev pub client : Raw
client = record (new_raw heap) {
  conn = some 0;
  timer = record {
    last_update_sec = 4;
    last_update_usec = 0;
    timer_pending = record { sec = 5; usec = 0; cmd = 2 } ∷ [];
    conn_sequence = 1;
    conn_timeout = 9;
  };
}

hash_slot-foo : hash_slot foo ≡ pos 12182
unfolding hash_slot crc16
hash_slot-foo = refl

-- An IPv6 host is not read back: the name is split at its first colon.
pick_name-ipv6 : pick_name (ipv6 ++ b':' ∷ b'7' ∷ []) ≡ some ([], 0)
unfolding pick_name split_colon skip_blanks to_u16 scan_int
pick_name-ipv6 = refl

crc16-crc_bits_example : crc16 foo ≡ crc_bits 0 foo
crc16-crc_bits_example = crc16-crc_bits foo (omega arith, (omega arith, (omega arith, tt)))

hash_slot_lem_example :
    (part : Bytes) × Hashed tagged_a part
    × (hash_slot tagged_a ≡ pos (crc16 part % slot_number))
    × (crc16 part % slot_number < slot_number)
hash_slot_lem_example = hash_slot_lem tagged_a (λ e. cc)

hash_slot-tag_example : hash_slot tagged_a ≡ hash_slot tagged_b
hash_slot-tag_example =
    hash_slot-tag tagged_a tagged_b foo (λ e. cc) (λ e. cc)
      (tagged [] foo (97 ∷ []) refl (ground arith) (ground arith) (λ e. cc))
      (tagged (98 ∷ []) foo [] refl (ground arith) (ground arith) (λ e. cc))

pub foo-IsHost : IsHost foo
unfolding is_blank
foo-IsHost = (refl, (ground arith, (ground arith, (ground arith, tt))))

pick_name-make_name_example :
    (name : Bytes) × (make_name foo 6379 ≡ some name) × (pick_name name ≡ some (foo, 6379))
pick_name-make_name_example = pick_name-make_name foo 6379 (omega arith) foo-IsHost

next_sequence_lem_example : next_sequence 2 0 ≡ some (1, 2)
next_sequence_lem_example = next_sequence_lem 0

sequences-Ascending_example :
    (length (sequences 3 0) ≡ 3) × Ascending 1 (sequences 3 0) × Ascending 0 (sequences 3 0)
sequences-Ascending_example = sequences-Ascending 3 0 (omega arith)

call_reply_once_example :
    (m : Memory) × (Cmd.call_reply 0 (pos 0) none none heap ≡ some (ErrorCode.ok, m))
    × (m.trace ≡ answer 0 get_cmd (pos 0) none none ++ [])
    × (Cmd.call_reply 0 ErrorCode.timeout none none m ≡ some (ErrorCode.ok, m))
call_reply_once_example =
    call_reply_once 0 get_cmd (pos 0) ErrorCode.timeout none none none none heap refl

pub waiting-IsLive : All (IsLive heap) (0 ∷ 1 ∷ [])
waiting-IsLive = ((get_cmd, refl), ((get_cmd, refl), tt))

pub waiting-Distinct : Distinct (0 ∷ 1 ∷ [])
waiting-Distinct = ((ground arith, tt), (tt, tt))

call_reply-waiting_example :
    (n : Memory) × (Queue.call_reply calm 0 (some 1) none heap ≡ some (ErrorCode.ok, n))
    × Replied calm 0 busy 5 1 get_cmd none (0 ∷ []) [] heap n
call_reply-waiting_example =
    call_reply-waiting calm 0 1 5 none heap busy get_cmd (0 ∷ []) [] refl refl refl
      (ground arith, tt) ((get_cmd, refl), tt) (tt, tt) refl

call_reply-frees_example :
    (res : ℤ) × (n : Memory) × (code : ℤ) × (before : List Event) × (Queue.call_reply calm 0
        (some 3)
        none
        heap
      ≡ some (res, n))
    × (n.cmds 3 ≡ none)
    × (n.trace ≡ freed 3 ∷ (answer 3 get_cmd code (some 5) none ++ before))
call_reply-frees_example =
    call_reply-frees calm 0 3 none heap busy get_cmd refl waiting-IsLive waiting-Distinct refl

release_lem_example :
    (n : Memory) × (release 0 true heap ≡ some (tt, n)) × Released 0 busy true heap n
release_lem_example = release_lem 0 true heap busy refl waiting-IsLive waiting-Distinct

busy-IsConsistent : IsConsistent busy
busy-IsConsistent = record { no_context = λ h. cc; no_status = λ h. cc; none_waits = λ h. cc }

abbrev heap-IsSound : IsSound 0 heap
heap-IsSound = record {
  conn = busy;
  there = refl;
  consistent = busy-IsConsistent;
  live = waiting-IsLive;
  distinct = waiting-Distinct;
}

abbrev history : List Transition
history = disconnects true ∷ connects (some 6) ∷ finishes ∷ releases false ∷ []

run_all-IsSound_example : (n : Memory) × (run_all 0 history heap ≡ some (tt, n)) × IsSound 0 n
run_all-IsSound_example = run_all-IsSound 0 history heap heap-IsSound

fail_cmd-destroy_cmd_example :
    ((n : Memory) × (fail_cmd 3 ErrorCode.ttl none client ≡ some (none, record client { mem = n }))
      × Answered 3 get_cmd ErrorCode.ttl none none heap n)
    × ((n : Memory) × (destroy_cmd 3 client ≡ some (tt, record client { mem = n }))
        × Answered 3 get_cmd ErrorCode.unknown none none heap n)
unfolding new_raw
fail_cmd-destroy_cmd_example = fail_cmd-destroy_cmd 3 get_cmd ErrorCode.ttl none client refl

release_connection_lem_example :
    (n : Memory) × (release_connection true ErrorCode.timeout client ≡ some (true, closed client n))
    × Closed client 0 busy true ErrorCode.timeout n
unfolding new_raw is_disconnected
release_connection_lem_example =
    release_connection_lem true ErrorCode.timeout client 0 busy refl refl refl waiting-IsLive
      waiting-Distinct

client-IsReady : IsReady 3 16 client
unfolding new_raw pick_argument pick_bulk strchr to_size scan_int
client-IsReady = record {
  cmd = get_cmd;
  there = refl;
  bytes = get_command;
  filled = refl;
  picked = some (record { len = 3; str = 71 ∷ 69 ∷ 84 ∷ 13 ∷ 10 ∷ []; next = [] });
  whole = refl;
  young = omega arith;
  no_auth_fn = refl;
  no_password = refl;
  holds = (
    busy,
    refl,
    busy-IsConsistent,
    waiting-IsLive,
    waiting-Distinct,
    (ground arith, (ground arith, tt)),
  );
}

redis_cmd_lem_example : Outcomes calm 0 busy 3 get_command false (redis_cmd calm 0 (some 3)) heap
unfolding pick_argument pick_bulk strchr to_size scan_int has_no_reply skip_pattern strncase_eq
redis_cmd_lem_example =
    redis_cmd_lem calm 0 3 get_cmd busy get_command
      (some (record { len = 3; str = 71 ∷ 69 ∷ 84 ∷ 13 ∷ 10 ∷ []; next = [] })) heap refl refl refl
      refl

exec-Settles_example :
    (res : Option ℕ) × (u : Raw) × (s : Raw) × (exec stormy 16 (some 3) client ≡ some (res, s))
    × Frame 3 client u
    × Settled 3 u s
exec-Settles_example = exec-Settles stormy 3 16 client client-IsReady

-- 127.0.0.1 in short: the hosts "a", "b" and "c".
abbrev pub host : ℕ → Key
host c = record { name = c ∷ []; port = 7; ip = c ∷ [] }

-- Slot 12182, that of "foo", has three hosts.
abbrev pub table : Table
table slot = if slot == 12182 then host 97 ∷ host 98 ∷ host 99 ∷ [] else []

-- An array of replies.
abbrev pub array : Replies → Reply
array e = reply reply_array (pos 0) none e

abbrev pub integer : ℤ → Reply
integer i = reply reply_integer i none done

-- The slots from -1 to 20000 of the host "a" at port 7.
abbrev node_a : Option Reply
node_a = some (
    array (
      elem (integer (negsuc 0)) (
        elem (integer (pos 20000)) (
          elem
            (array (
              elem (reply reply_string (pos 0) (some (97 ∷ [])) done)
                (elem (integer (pos 7)) done)))
            done))))

fill_nodes_lem_example :
    fill_nodes none (node_a ∷ []) table 5 ≡ hosts_or (last_hosts none (node_a ∷ []) 5) []
fill_nodes_lem_example = fill_nodes_lem none (node_a ∷ []) table 5

pick_endpoint_lem_example :
    (is_named (some (97 ∷ [])) ≡ true)
    × (7 < 65536)
    × (s : Option Bytes) × (e : Replies) × (some (integer (pos 7))
        ≡ some (reply reply_integer (pos 7) s e))
unfolding pick_endpoint endpoint_text or_peer with_port port_of
pick_endpoint_lem_example =
    pick_endpoint_lem none (some (reply reply_string (pos 0) (some (97 ∷ [])) done))
      (some (integer (pos 7))) (97 ∷ []) 7 refl

get_slot_master-Master_example :
    (k : Key) × (get_slot_master (pos 20000) 77777 (host 100) table ≡ some k)
    × Master (pos 20000) 77777 (host 100) table k
get_slot_master-Master_example = get_slot_master-Master (pos 20000) 77777 (host 100) table

get_slot_by_key_lem_example :
    (slot : ℕ) × (hash_slot foo ≡ pos slot)
    × (slot < slot_number)
    × (get_slot_by_key foo table ≡ some (some (table slot)))
get_slot_by_key_lem_example = get_slot_by_key_lem foo table (λ e. cc)

remove_connection_key_lem_example :
    ((remove_connection_key (97 ∷ []) table).0 ≡ invalid)
    × (((12182 < slot_number)
          × Removed
              (97 ∷ [])
              (host 97 ∷ host 98 ∷ host 99 ∷ [])
              ((remove_connection_key (97 ∷ []) table).1 12182))
        ⊎ ((slot_number ≤ 12182)
            × ((remove_connection_key (97 ∷ []) table).1 12182 ≡ host 97 ∷ host 98 ∷ host 99 ∷ [])))
remove_connection_key_lem_example = remove_connection_key_lem (97 ∷ []) table 12182
