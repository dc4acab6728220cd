-- ===== src/Tests/Histories.antt =====
-- Tests of the whole state of hiredis::happ::raw, and the theorems on it at concrete inputs.
use hiredis_happ.Common.{
  true, ℕ, ◌≡◌, ◌<◌, refl, arith, pos, ltb, if◌then◌else◌, [], ◌∷◌, none, some,
}
use hiredis_happ.Cmd
use hiredis_happ.Cmd.Argument.{pick_argument, pick_bulk, to_size, pick_cmd}
use hiredis_happ.Text.{strchr, scan_int, strncase_eq}
use hiredis_happ.Memory.{Memory, Driver, lost, user}
use hiredis_happ.Connection.{is_disconnected, new_connection, init, set_connecting, may_connect}
use hiredis_happ.Connection.Sequence.{make_sequence, next_sequence}
use hiredis_happ.Raw.State.{Raw, new_raw, create_cmd, is_timer_active, is_timer_available}
use hiredis_happ.Raw.{
  exec_argv, exec_formatted, exec, exec_cmd, find_connection, find_from, exec_over,
}
use hiredis_happ.Raw.Connect.{
  make_connection, make_from, use_context, open_connection, start_timeout, authenticate,
  authenticate_by,
}
use hiredis_happ.Raw.Send.{exec_on}
use hiredis_happ.Connection.Send.{
  redis_cmd, send_over, send_cmd, send, payload, enqueue, has_no_reply, skip_pattern,
}
use hiredis_happ.Raw.Timers.{proc, reset}
use hiredis_happ.Raw.Pending.{reset_raw}
use hiredis_happ.Raw.Whole.Resetting.{Resets, reset-Resets}
use hiredis_happ.Raw.Whole.{IsSendable, IsWhole}
use hiredis_happ.Raw.Whole.Proceeding.{Proceeded, proc-Proceeded}
use hiredis_happ.Common.ErrorCode
use hiredis_happ.Raw.Release.{release_connection}
use hiredis_happ.Raw.Events.{on_reply_wrapper}
use hiredis_happ.Raw.Whole.Dangling.{release_connection-on_reply_wrapper}
use hiredis_happ.Raw.Whole.Issuing.{Formats}
use hiredis_happ.Raw.Whole.Events.{Keeps}
use hiredis_happ.Raw.Whole.History.{Call, execs_argv, May, run, Reach, here, next, Reach-Keeps}
use hiredis_happ.Tests.{get_command, get_cmd, busy, heap, calm, stormy, client}

-- The commands 0 to 2, of which 0 and 1 wait on the connection and 2 for the timer.
abbrev tidy : Raw
tidy = record client {
  mem = record heap { cmds = λ c. if ltb c 3 then some get_cmd else none; next_cmd = 3 };
}

tidy-IsSendable : (c : ℕ) → c < 3 → IsSendable tidy.mem c
unfolding new_raw pick_argument pick_bulk strchr to_size scan_int
tidy-IsSendable c h = record {
  cmd = get_cmd;
  there = ground (arith, h);
  bytes = get_command;
  filled = refl;
  picked = some (record { len = 3; str = 71 ∷ 69 ∷ 84 ∷ 13 ∷ 10 ∷ []; next = [] });
  whole = refl;
  young = omega arith;
}

tidy-IsWhole : IsWhole tidy
unfolding new_raw is_disconnected
tidy-IsWhole = record {
  linked = (busy, refl, record { context = 5; has_context = refl; not_closed = refl });
  sendable = (
    tidy-IsSendable 0 (omega arith),
    (tidy-IsSendable 1 (omega arith), (tidy-IsSendable 2 (omega arith), tt)),
  );
  distinct = ((omega arith, (omega arith, tt)), ((omega arith, tt), (tt, tt)));
  none_lost = λ d t free. ground (arith, free);
  unmade = λ d h. ground (arith, h);
  no_auth_fn = refl;
  no_password = refl;
}

proc-Proceeded_example :
    (n : ℕ) × (s : Raw) × (proc stormy 16 2 6 0 tidy ≡ some (n, s)) × Proceeded 6 0 n tidy s
unfolding new_raw
proc-Proceeded_example = proc-Proceeded stormy 16 6 0 tidy (omega arith) (λ t o. refl) tidy-IsWhole

-- No command and no connection.
abbrev bare : Memory
bare = record {
  cmds = λ c. none;
  next_cmd = 0;
  conns = λ k. none;
  next_conn = 0;
  seq_alloc = 1;
  trace = [];
}

-- hiredis formats every command as GET.
abbrev fluent : Driver
fluent = record calm { format_argv = λ argv. record { ret = pos 9; out = some get_command } }

-- exec of a command over a new connection.
abbrev asked : Call
asked = execs_argv (user 7) 0 []

abbrev after : Raw
unfolding run
after = elim (run fluent asked (new_raw bare)) [ none ↦ new_raw bare | some (u, s) ↦ s ]

fluent-Formats : Formats fluent
unfolding pick_argument pick_bulk strchr to_size scan_int
fluent-Formats = record {
  by_format = λ fmt args h. absurd (cc);
  by_argv = λ argv h. (
    get_command,
    some (record { len = 3; str = 71 ∷ 69 ∷ 84 ∷ 13 ∷ 10 ∷ []; next = [] }),
    refl,
    refl,
  );
}

after-Reach : Reach (new_raw bare) after
unfolding run after exec_argv create_cmd Cmd.create Cmd.vformat_argv new_raw exec_formatted exec
    exec_cmd Cmd.free_cmd_content find_connection find_from make_connection make_from use_context
    open_connection new_connection make_sequence next_sequence init set_connecting may_connect
    start_timeout is_timer_active is_timer_available authenticate authenticate_by exec_over exec_on
    redis_cmd send_over send_cmd send payload enqueue has_no_reply pick_cmd pick_argument pick_bulk
    strchr to_size scan_int Cmd.destroy strncase_eq skip_pattern
after-Reach = next here fluent asked fluent-Formats refl

Reach-Keeps_example :
    IsWhole after
    × ((driver : Driver) (call : Call) → May driver after call → Keeps (run driver call) after)
Reach-Keeps_example = Reach-Keeps bare after (λ c. refl) after-Reach

-- The connection of `tidy` is released by its timeout, and then hiredis replies to the command 1.
release_connection-on_reply_wrapper_example :
    (s : Raw) × (release_connection true ErrorCode.timeout tidy ≡ some (true, s))
    × (s.conn ≡ none)
    × (s.mem.conns 0 ≡ none)
    × (on_reply_wrapper stormy 17 5 0 none 1 s ≡ none)
unfolding new_raw
release_connection-on_reply_wrapper_example =
    release_connection-on_reply_wrapper stormy 17 5 none true ErrorCode.timeout tidy 0 1 busy
      (0 ∷ []) [] refl refl refl tidy-IsWhole

-- hiredis ends a connection within redisAsyncDisconnect.
abbrev abrupt : Driver
abrupt = record calm { disconnect = λ trace c. lost (pos 0) }

reset-Resets_example :
    (t : Raw) × (n : Memory) × (reset abrupt tidy ≡ some (ErrorCode.ok, reset_raw t n))
    × Resets abrupt tidy t n
reset-Resets_example = reset-Resets abrupt tidy tidy-IsWhole
