-- ===== src/Raw/Whole/History.antt =====
-- Any history of calls of hiredis::happ::raw, by the user and by hiredis.
use hiredis_happ.Common.{
  ℕ, suc, ◌≡◌, ◌∙◌, refl, sym, subst, arith, Bool, ◌∷◌, ◌++◌, List, Bytes, length, Option, none,
  some, ℤ,
}
use hiredis_happ.Memory.{Conn, Memory, Callback, Driver, Reply, M, pure, ◌>>=◌}
use hiredis_happ.Memory.Laws.{>>=-some}
use hiredis_happ.Raw.State.{
  Raw, Config, Callbacks, new_raw, get_raw, set_timer_interval, set_timeout,
}
use hiredis_happ.Raw.{exec_argv, exec_format}
use hiredis_happ.Raw.Timers.{proc, reset}
use hiredis_happ.Raw.Events.{on_reply_wrapper, on_connected_wrapper, on_disconnected_wrapper}
use hiredis_happ.Raw.Settings.{
  set_on_connect, set_on_connected, set_on_disconnected, set_cmd_buffer_size,
}
use hiredis_happ.Raw.Whole.Releasing.{same-IsWhole}
use hiredis_happ.Raw.Whole.{Linked, IsWhole}
use hiredis_happ.Raw.Whole.Proceeding.{IsIdle, proc-Proceeded}
use hiredis_happ.Raw.Whole.Events.{Keeps, on_connected_wrapper-Keeps, on_disconnected_wrapper-Keeps}
use hiredis_happ.Raw.Whole.Resetting.{reset-Keeps}
use hiredis_happ.Raw.Whole.Replies.{on_reply_wrapper-Keeps}
use hiredis_happ.Raw.Whole.Issuing.{Formats, exec_argv-Issues, exec_format-Issues}

-- The calls of the user: exec in both forms, proc, reset and the settings without a password; and those of hiredis: a reply
-- over a context and a connection to a command, the end of a connect over a context and a connection, and the end of a
-- connection.
pub data Call : Type 0 where
  execs_format : Callback → ℕ → Bytes → List Bytes → Call
  execs_argv : Callback → ℕ → List Bytes → Call
  ticks : ℕ → ℕ → Call
  resets : Call
  sets_interval : ℕ → ℕ → Call
  sets_timeout sets_buffer_size : ℕ → Call
  sets_on_connect sets_on_connected sets_on_disconnected : Bool → Call
  replies : ℕ → ℕ → Option Reply → ℕ → Call
  finishes : ℕ → ℕ → ℤ → Call
  loses : ℕ → ℤ → Call

-- Fuel for the retries of one command.
abbrev enough_fuel : ℕ
enough_fuel = 17

abbrev pub ignore : {A : Type 0} → M Raw A → M Raw (Unit {0})
ignore x = x >>= λ _. pure tt

unfoldable pub run : Driver → Call → M Raw (Unit {0})
run driver (execs_format cbk pridata fmt args) =
    ignore (exec_format driver enough_fuel cbk pridata fmt args)
run driver (execs_argv cbk pridata argv) = ignore (exec_argv driver enough_fuel cbk pridata argv)
run driver (ticks sec usec) = do
  r ← get_raw
  ignore (proc driver enough_fuel (suc (length r.timer.timer_pending)) sec usec)
run driver resets = ignore (reset driver)
run driver (sets_interval sec usec) = set_timer_interval sec usec
run driver (sets_timeout sec) = set_timeout sec
run driver (sets_buffer_size n) = set_cmd_buffer_size n
run driver (sets_on_connect cbk) = ignore (set_on_connect cbk)
run driver (sets_on_connected cbk) = ignore (set_on_connected cbk)
run driver (sets_on_disconnected cbk) = ignore (set_on_disconnected cbk)
run driver (replies context k r c) = on_reply_wrapper driver enough_fuel context k r c
run driver (finishes context k status) = on_connected_wrapper context k status
run driver (loses k status) = on_disconnected_wrapper k status

-- A command that waits on the connection of the raw object.
pub record Waits (c k : ℕ) (r : Raw) : Type 0 where
  pub is_conn : r.conn ≡ some k
  pub conn : Conn
  pub there : r.mem.conns k ≡ some conn
  pub front : List ℕ
  pub back : List ℕ
  pub stands : conn.reply_list ≡ front ++ c ∷ back

-- Which calls are made: hiredis formats commands, and it answers only those that wait on the connection
-- that the raw object has, and reports only the changes of that one; proc is called outside its callbacks.
abbrev pub May : Driver → Raw → Call → Type 0
May driver r (execs_format cbk pridata fmt args) = Formats driver
May driver r (execs_argv cbk pridata argv) = Formats driver
May driver r (ticks sec usec) = IsIdle driver
May driver r resets = Unit {0}
May driver r (sets_interval sec usec) = Unit {0}
May driver r (sets_timeout sec) = Unit {0}
May driver r (sets_buffer_size n) = Unit {0}
May driver r (sets_on_connect cbk) = Unit {0}
May driver r (sets_on_connected cbk) = Unit {0}
May driver r (sets_on_disconnected cbk) = Unit {0}
May driver r (replies context k reply c) = Waits c k r
May driver r (finishes context k status) = r.conn ≡ some k
May driver r (loses k status) = r.conn ≡ some k

-- The states that a history of calls reaches, with any answers of hiredis at each call.
pub data Reach (r : Raw) : Raw → Type 0 where
  here : Reach r r
  next :
      {s t : Raw}
      → Reach r s
      → (driver : Driver) (call : Call) → May driver s call
      → run driver call s ≡ some (tt, t)
      → Reach r t

ignore-Keeps :
    {A : Type 0} (x : M Raw A) (r : Raw) {a : A} {s : Raw}
    → x r ≡ some (a, s)
    → IsWhole s
    → Keeps (ignore x) r
ignore-Keeps x r {a} {s} e h = (s, >>=-some x (λ _. pure tt) r e, h)

with_settings : Raw → Config → Callbacks → Raw
with_settings r conf callbacks = record r { conf = conf; callbacks = callbacks }

-- The settings but for the password have no part in the whole state.
settings-IsWhole :
    (r : Raw) (conf : Config) (callbacks : Callbacks)
    → IsWhole r
    → IsWhole (with_settings r conf callbacks)
unfolding with_settings
settings-IsWhole r conf callbacks h =
    same-IsWhole r (record r { conf = conf; callbacks = callbacks }) refl refl refl refl h.linked h

run-Keeps :
    (driver : Driver) (call : Call) (r : Raw)
    → May driver r call
    → IsWhole r
    → Keeps (run driver call) r
unfolding run set_timer_interval set_timeout set_cmd_buffer_size set_on_connect set_on_connected
    set_on_disconnected with_settings
run-Keeps driver (execs_format cbk pridata fmt args) r may h =
    let (res, s, e, h') =
      exec_format-Issues driver enough_fuel (omega arith) cbk pridata fmt args r may h in
    ignore-Keeps (exec_format driver enough_fuel cbk pridata fmt args) r e h'
run-Keeps driver (execs_argv cbk pridata argv) r may h =
    let (res, s, e, h') =
      exec_argv-Issues driver enough_fuel (omega arith) cbk pridata argv r may h in
    ignore-Keeps (exec_argv driver enough_fuel cbk pridata argv) r e h'
run-Keeps driver (ticks sec usec) r may h =
    let (n, s, e, q) = proc-Proceeded driver enough_fuel sec usec r (omega arith) may h in
    ignore-Keeps (proc driver enough_fuel (suc (length r.timer.timer_pending)) sec usec) r e q.whole
run-Keeps driver resets r may h = reset-Keeps driver r h
run-Keeps driver (sets_interval sec usec) r may h =
    let conf = record (r.conf) { timer_interval_sec = sec; timer_interval_usec = usec } in
    (with_settings r conf r.callbacks, refl, settings-IsWhole r conf r.callbacks h)
run-Keeps driver (sets_timeout sec) r may h =
    let conf = record (r.conf) { timer_timeout_sec = sec } in
    (with_settings r conf r.callbacks, refl, settings-IsWhole r conf r.callbacks h)
run-Keeps driver (sets_buffer_size n) r may h =
    let conf = record (r.conf) { cmd_buffer_size = n } in
    (with_settings r conf r.callbacks, refl, settings-IsWhole r conf r.callbacks h)
run-Keeps driver (sets_on_connect cbk) r may h =
    let callbacks = record (r.callbacks) { has_on_connect = cbk } in
    (with_settings r r.conf callbacks, refl, settings-IsWhole r r.conf callbacks h)
run-Keeps driver (sets_on_connected cbk) r may h =
    let callbacks = record (r.callbacks) { has_on_connected = cbk } in
    (with_settings r r.conf callbacks, refl, settings-IsWhole r r.conf callbacks h)
run-Keeps driver (sets_on_disconnected cbk) r may h =
    let callbacks = record (r.callbacks) { has_on_disconnected = cbk } in
    (with_settings r r.conf callbacks, refl, settings-IsWhole r r.conf callbacks h)
run-Keeps driver (replies context k reply c) r may h =
    on_reply_wrapper-Keeps driver r k may.conn c may.front may.back may.is_conn may.there may.stands
      h 16 context reply (omega arith)
run-Keeps driver (finishes context k status) r may h =
    let (conn, hk, o) = subst (Linked r.mem.conns) may h.linked in
    on_connected_wrapper-Keeps context k conn status r may hk h
run-Keeps driver (loses k status) r may h =
    let (conn, hk, o) = subst (Linked r.mem.conns) may h.linked in
    on_disconnected_wrapper-Keeps k conn status r hk h

new_raw-IsWhole : (m : Memory) → ((c : ℕ) → m.cmds c ≡ none) → IsWhole (new_raw m)
unfolding new_raw
new_raw-IsWhole m empty = record {
  linked = tt;
  sendable = tt;
  distinct = tt;
  none_lost = λ d t free. empty d;
  unmade = λ d le. empty d;
  no_auth_fn = refl;
  no_password = refl;
}

reached-IsWhole : {r s : Raw} → IsWhole r → Reach r s → IsWhole s
reached-IsWhole h here = h
reached-IsWhole h (next {s} {t} reach driver call may e) =
    let (u, e', h') = run-Keeps driver call s may (reached-IsWhole h reach) in
    subst IsWhole (landed (sym e' ∙ e)) h'
  where
    landed : {x y : Raw} → ◌≡◌ {A = Option (Unit {0} × Raw)} (some (tt, x)) (some (tt, y)) → x ≡ y
    landed q = cc

-- Take a new raw object on a heap where no command is alive, and any history of calls by the user
-- (exec in both forms with a format, proc, reset and the settings but for the address and the
-- password) and by hiredis (a reply, the end of a connect, the end of a connection), with other
-- answers of hiredis at each call, where hiredis formats commands, replies only to those that wait
-- on the connection, and reports the end of a connect or of a connection only for the connection
-- that the raw object has, and where proc is called outside its callbacks; reset may be called
-- inside a callback or outside, where hiredis ends the connection before reset goes on. In every
-- state that is reached, the connection, if there is one, is open; each command that waits, on the
-- connection or for the timer, is alive, stands there once, and has a buffer that holds a command;
-- every command that waits nowhere was freed; and every further such call returns without a fault,
-- that is no object is used or freed after its end and no assert fails, and leaves such a state
-- again.
pub Reach-Keeps :
    (m : Memory) (s : Raw)
    → ((c : ℕ) → m.cmds c ≡ none)
    → Reach (new_raw m) s
    → IsWhole s × ((driver : Driver) (call : Call) → May driver s call → Keeps (run driver call) s)
Reach-Keeps m s empty reach =
    let h = reached-IsWhole (new_raw-IsWhole m empty) reach in
    (h, λ driver call may. run-Keeps driver call s may h)
