-- ===== src/Lib.antt =====
-- hiredis-happ: a client library for Redis and Redis Cluster over hiredis, in C++.
--
-- The program's parts, and the files that model them:
-- * crc16 (src/detail/crc16.cpp): Crc16 has the table and the loop; Crc16/Bitwise defines the CRC bit
--   by bit, and Crc16/Linear and Crc16/Equivalence compare the two, over the bit operations of Bits.
-- * hash_slot (src/detail/happ_cluster.cpp): HashSlot, and HashSlot/Tags for the hash-tag rule.
-- * The names of endpoints (make_name, set_key and pick_name of src/detail/happ_connection.cpp): Name.
-- * cmd_exec (src/detail/happ_cmd.cpp, include/detail/happ_cmd.h): Cmd, Cmd/Argument for pick_argument
--   and pick_cmd, Cmd/Dump for dump, with Cmd/Dump/Lines on its text, and Cmd/Access for the getters.
-- * connection (src/detail/happ_connection.cpp, include/detail/happ_connection.h): Connection has the
--   state machine and release; Connection/Sequence make_sequence; Connection/Expire the loops that
--   give up waiting commands; Connection/Access the getters; Connection/Queue pop_reply and
--   call_reply; Connection/Send redis_cmd and redis_raw_cmd.
-- * raw (src/detail/happ_raw.cpp, include/detail/happ_raw.h): Raw has exec, retry and add_timer_cmd;
--   Raw/State the object and its small operations; Raw/Send exec over a connection; Raw/Connect
--   make_connection; Raw/Release release_connection; Raw/Timers proc and reset; Raw/Events the
--   functions that hiredis calls; Raw/Settings the setters and getters. The other files below Raw are
--   proofs: Pending on the end of commands, Teardown on release_connection, Settling (over
--   Settling/Framing) on exec and its retries, and Whole on the invariant of the whole object, with
--   one child for each operation and Whole/History for any history of calls.
-- * The log writer, which raw and cluster have in the same form: Logging, with Raw/Logging and
--   Cluster/Logging for set_log_writer, log_debug, log_info and on_reply_auth of each; Logging/Buffer
--   and Logging/Bounds are about its buffer. vsnprintf and malloc are its parameter.
-- * cluster (src/detail/happ_cluster.cpp, include/detail/happ_cluster.h): Slots has the slot table,
--   with get_slot_master, get_slot_by_key, remove_connection_key and the table that
--   on_reply_update_slot reads from a reply; Slots/Endpoint, Slots/Filling and Slots/Masters are about
--   its parts. Cluster has exec by key, retry, reload_slots and add_timer_cmd; Cluster/State the
--   object and its small operations; Cluster/Connections the map from names to connections and
--   release_connection; Cluster/Send exec over a connection; Cluster/Connect make_connection;
--   Cluster/Timers proc and reset; Cluster/Redirect the `sscanf` of a redirection; Cluster/Replies
--   on_reply_wrapper and on_reply_asking; Cluster/Events on_reply_update_slot and the changes of a
--   connection; Cluster/Settings the setters and getters. The other files below Cluster are proofs:
--   Pending and Resetting on reset, Teardown on release_connection, Names on the map,
--   Redirect/RoundTrip on the text of a redirection, Timed and Placing on exec, the waiting
--   commands and the loop of proc while no context is closing, Moving on MOVED, Retrying on
--   TRYAGAIN and lost connections, and Asking on the reply to ASKING.
-- * The samples (sample/sample_raw_cli/main.cpp, and sample/sample_cluster_cli/main.cpp with the same
--   code): Sample has split_word and the clock of on_timer_proc, and Sample/Words is about the words.
--
-- cluster and raw share connection and cmd_exec. A command of cluster is looked up by the slot of its
-- key (HashSlot), sent to the master of the slot (Slots) over the connection of that name, and waits
-- there for its reply; without a table it waits in `slot_pending` until on_reply_update_slot has read
-- one.
--
-- The commands and the connections are objects that are freed by hand, so they stand in a heap, Memory
-- in Memory/Defs with Memory/Laws and Memory/Members on it, and are named by numbers. An operation is
-- a function from the state to a result and a state, or to `none`, a fault: a use of an object after
-- its end, a second free, or a failed assert. What leaves the library (calls of callbacks, calls of
-- hiredis, the end of an object) is written to the trace, the newest first. hiredis, malloc and the
-- functions of the user that return a value are the Driver, a parameter, with the generator of
-- detail::random and the order in which an unordered map hands out its values: it answers by the
-- trace, so that nothing is supposed of its answers. A callback of the user is an event and does not
-- call back into the library before it returns. redisAsyncDisconnect does where reset calls it: hiredis
-- puts the end of the connection off, as inside a callback, or calls on_connected_wrapper or
-- on_disconnected_wrapper before it returns, as Driver.disconnect answers. In connection::release it is
-- an event alone, since the status is set to DISCONNECTED before it, and a callback that releases the
-- connection again is turned away by the test of the status. A read of slots_ by get_slot_master and
-- get_slot_by_key is a fault behind the table.
--
-- A `char` is its unsigned value; a `size_t`, `uint64_t` and `uint16_t` wrap where the code can reach
-- their bounds; an `int` is an integer without bound. `strtol` and `sscanf` are modelled without
-- overflow. A `time_t` is a natural number.
--
-- Fuel: make_sequence needs two rounds at most. exec and retry of raw call one another, and each round
-- takes one from the command's ttl, which starts with 16, so that the ttl is enough fuel. The loop of
-- proc takes a bound of its own for the number of its rounds, for which one round more than there are
-- waiting commands is enough, and so does the loop of on_reply_update_slot over the waiting commands,
-- for which one round more than there are commands is enough while no context is closing. exec and
-- retry of cluster call one another through reload_slots, whose command starts with a ttl of its own,
-- so that the ttl does not bound them.
--
-- The callbacks on_reply_update_slot and on_reply_auth of the library's own commands are events as
-- those of the user are; each is a function of its own, to be run after its event. The map of
-- connections is a list of its entries. `#if` selects the branches for C++11 and for other compilers
-- than MSVC.
--
-- Not modelled: the calls of log_debug and log_info inside the other operations, which only print,
-- redisSetTimeout and redisEnableKeepAlive, which only set options of hiredis, the holder of a command
-- and of a connection, which only points back at its client, cmd_exec::buffer, the rest of the samples
-- (sockets, event loops, threads and printing), and the tests. dump is modelled for an indent that is
-- not negative.
pub mod Common
pub mod Bits
pub mod Crc16
pub mod HashSlot
pub mod Text
pub mod Name
pub mod Memory
pub mod Logging
pub mod Cluster
pub mod Cmd
pub mod Connection
pub mod Raw
pub mod Slots
pub mod Tests
pub mod Sample
