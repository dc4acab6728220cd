-- ===== src/Tests/Cluster.antt =====
-- The theorems on hiredis::happ::cluster at concrete states.
use hiredis_happ.Common.{
  if◌then◌else◌, ◌==◌, ℕ, zero, suc, ◌≡◌, refl, arith, true, Bool-cases, inl, inr, [], ◌∷◌, ◌++◌,
  List, Bytes, length, All, none, some, pos,
}
use hiredis_happ.Common.ErrorCode
use hiredis_happ.Text.{scan_digits, scan_int, is_blank, is_space, strchr}
use hiredis_happ.Text.Decimal.{IsDigit}
use hiredis_happ.Name.{Key, set_key, make_name, pick_name}
use hiredis_happ.Memory.{
  Conn, lost, Memory, Driver, Reply, reply, reply_error, reply_status, reply_string, elem, done,
}
use hiredis_happ.Cmd.Argument.{to_size, pick_bulk, pick_argument}
use hiredis_happ.Connection.{is_disconnected}
use hiredis_happ.Slots.{bytes_eq, usable, fill_nodes, elements, read_slots}
use hiredis_happ.Cluster.State.{Cluster, new_cluster}
use hiredis_happ.Cluster.{exec}
use hiredis_happ.Cluster.Connections.{find, release_connection}
use hiredis_happ.Cluster.Timers.{add_context, values, reset}
use hiredis_happ.Cluster.Pending.{reset_cluster}
use hiredis_happ.Cluster.Teardown.{closed, Closed, release_connection-Closed}
use hiredis_happ.Cluster.Resetting.{Held}
use hiredis_happ.Cluster.Resetting.Emptying.{Empties, reset-Empties}
use hiredis_happ.Cluster.Names.{HasNames}
use hiredis_happ.Cluster.Redirect.{moved, tryagain, scan_redirect}
use hiredis_happ.Cluster.Redirect.RoundTrip.{
  IsWordByte, scan_redirect-overflow, scan_redirect-make_name,
}
use hiredis_happ.Cluster.Replies.{on_reply_wrapper, on_reply_asking}
use hiredis_happ.Cluster.Events.{on_reply_update_slot}
use hiredis_happ.Cluster.Placing.{IsCalm, IsSound, IsFilled}
use hiredis_happ.Cluster.Placing.Loading.{Loaded, on_reply_update_slot-Loaded}
use hiredis_happ.Cluster.Placing.Reloading.{Formats}
use hiredis_happ.Cluster.Placing.Executing.{Executes, exec-Executes}
use hiredis_happ.Cluster.Moving.{waits_with, Moved, moved_text}
use hiredis_happ.Cluster.Moving.Handling.{on_reply_wrapper-Moved}
use hiredis_happ.Cluster.Retrying.{Retried, on_reply_wrapper-Retried}
use hiredis_happ.Cluster.Asking.{Answers, on_reply_asking-Answers}
use hiredis_happ.Tests.{
  host, foo, get_command, get_cmd, busy, heap, calm, table, waiting-IsLive, waiting-Distinct,
  foo-IsHost, array, integer,
}

-- Every call of hiredis succeeds, and a format gives the command "GET".
abbrev pub lively : Driver
lively = record calm { format = λ fmt args. record { ret = pos 9; out = some get_command } }

pub lively-IsCalm : IsCalm lively
lively-IsCalm t c = (refl, refl)

pub lively-Formats : Formats lively
unfolding pick_argument pick_bulk strchr to_size scan_int
lively-Formats h = (
  get_command,
  some (record { len = 3; str = 71 ∷ 69 ∷ 84 ∷ 13 ∷ 10 ∷ []; next = [] }),
  refl,
  refl,
)

-- The host "a" has the connection 0, on which the commands 0 and 1 wait; 2 waits for the table, and 3 for the
-- timer.
abbrev pub site : Cluster
site = record (new_cluster heap) {
  slots = table;
  slot_pending = 2 ∷ [];
  connections = (97 ∷ [], 0) ∷ [];
  timer = record {
    last_update_sec = 4;
    last_update_usec = 0;
    timer_pending = record { sec = 5; usec = 0; cmd = 3 } ∷ [];
    timer_conns = [];
  };
}

only : (name : Bytes) (k : ℕ) → find name ((97 ∷ [], 0) ∷ []) ≡ some k → k ≡ 0
unfolding find
only name k h = elim (Bool-cases (bytes_eq (97 ∷ []) name)) [
  | inl here ↦ ground (arith, here)
  | inr apart ↦ absurd (ground (arith, apart))
]

pub site-IsSound : IsSound site
unfolding new_cluster
site-IsSound = record {
  there = λ name k h. let e = only name k h in (busy, ground (arith, e));
  unmade = λ k h. ground arith;
  no_cmd = λ c h. ground arith;
  no_auth_fn = refl;
  no_password = refl;
}

pub filled : (c : ℕ) → heap.cmds c ≡ some get_cmd → IsFilled heap c
unfolding pick_argument pick_bulk strchr to_size scan_int
filled c h = record {
  cmd = get_cmd;
  there = h;
  bytes = get_command;
  filled = refl;
  picked = some (record { len = 3; str = 71 ∷ 69 ∷ 84 ∷ 13 ∷ 10 ∷ []; next = [] });
  whole = refl;
}

exec-Executes_example : Executes 3 (exec lively 0 foo (some 3)) site
unfolding new_cluster
exec-Executes_example =
    exec-Executes lively lively-IsCalm lively-Formats 0 3 foo site site-IsSound (filled 3 refl)

-- The slots from 0 to 100 of the host "a" at port 7.
abbrev slots_reply : Reply
slots_reply = array (
    elem
      (array (
        elem (integer (pos 0)) (
          elem (integer (pos 100)) (
            elem
              (array (
                elem (reply reply_string (pos 0) (some (97 ∷ [])) done)
                  (elem (integer (pos 7)) done)))
              done))))
      done)

abbrev slots_table : ℕ → List Key
slots_table =
    fill_nodes none
      (elements (
        elem
          (array (
            elem (integer (pos 0)) (
              elem (integer (pos 100)) (
                elem
                  (array (
                    elem (reply reply_string (pos 0) (some (97 ∷ [])) done)
                      (elem (integer (pos 7)) done)))
                  done))))
          done))
      (λ slot. [])

slots_table-read : read_slots none (some slots_reply) ≡ some slots_table
unfolding read_slots
slots_table-read = refl

on_reply_update_slot-Loaded_example :
    (t : Cluster) × (on_reply_update_slot lively 1 2 9 (some 5) none (some slots_reply) site
      ≡ some (tt, t))
    × Loaded (2 ∷ []) (record site { slot_flag = usable; slots = slots_table }) t
unfolding new_cluster
on_reply_update_slot-Loaded_example =
    on_reply_update_slot-Loaded lively lively-IsCalm 0 9 (some 5) none (some slots_reply)
      slots_table site slots_table-read site-IsSound (filled 2 refl, tt) (tt, tt)

-- "7"
abbrev seven : Bytes
seven = b'7' ∷ []

seven-IsDigit : All IsDigit seven
seven-IsDigit = ((omega arith, omega arith), tt)

foo-IsWordByte : All IsWordByte foo
unfolding is_space is_blank
foo-IsWordByte = (refl, (refl, (refl, tt)))

on_reply_wrapper-Moved_example :
    (key : Key) × (set_key foo 6379 ≡ some key)
    × (t : Cluster) × (on_reply_wrapper lively 1 5 0
          (some (reply reply_error (pos 0) (some (moved_text seven key.name)) done))
          0
          site
        ≡ some (tt, t))
    × Moved 0 7 key site t
unfolding new_cluster scan_digits
on_reply_wrapper-Moved_example =
    on_reply_wrapper-Moved lively lively-IsCalm lively-Formats 0 0 0 5 (pos 0) done seven foo 6379
      busy (1 ∷ []) site refl site-IsSound refl refl (filled 0 refl) (λ e. cc) seven-IsDigit
      (omega arith) (omega arith) (λ e. cc) foo-IsHost foo-IsWordByte (omega arith)

on_reply_wrapper-Retried_example :
    (t : Cluster) × (on_reply_wrapper lively 1 5 0
        (some (reply reply_error (pos 0) (some (tryagain ++ b' ' ∷ foo)) done))
        0
        site
      ≡ some (tt, t))
    × Retried lively 1 0 (waits_with site 0 busy (1 ∷ [])) t
unfolding new_cluster
on_reply_wrapper-Retried_example =
    on_reply_wrapper-Retried lively lively-IsCalm lively-Formats 0 0 0 5
      (some (reply reply_error (pos 0) (some (tryagain ++ b' ' ∷ foo)) done)) busy (1 ∷ []) site
      (inr (refl, pos 0, b' ' ∷ foo, done, refl)) site-IsSound refl refl (filled 0 refl)

-- The status "OK".
abbrev okay : Reply
okay = reply reply_status (pos 0) (some (79 ∷ 75 ∷ [])) done

on_reply_asking-Answers_example : Answers 3 (on_reply_asking lively 1 5 0 (some okay) 3) site
unfolding new_cluster find bytes_eq
on_reply_asking-Answers_example =
    on_reply_asking-Answers lively lively-IsCalm lively-Formats 0 3 0 (97 ∷ []) busy 5 (some okay)
      site site-IsSound refl refl (filled 3 refl)

site-HasNames : HasNames ((97 ∷ [], 0) ∷ [])
unfolding find
site-HasNames = (refl, tt)

-- hiredis ends each connection at once.
abbrev ending : Driver
ending = record lively { disconnect = λ trace c. lost (pos 0) }

-- The connection of the host "a" has that name.
abbrev named : Conn
named = record busy { key = host 97 }

abbrev hosted : Cluster
hosted = record site { mem = record heap { conns = λ k. if k == 0 then some named else none } }

hosted-Held : Held hosted ((0, 5) ∷ []) (2 ∷ 3 ∷ [])
unfolding new_cluster find bytes_eq is_disconnected
hosted-Held = record {
  names = site-HasNames;
  attached = ((named, refl, refl, refl), tt);
  apart = (tt, tt);
  live = ((get_cmd, refl), ((get_cmd, refl), ((get_cmd, refl), ((get_cmd, refl), tt))));
  distinct = (
    (ground arith, (ground arith, (ground arith, tt))),
    ((ground arith, (ground arith, tt)), ((ground arith, tt), (tt, tt))),
  );
}

reset-Empties_example :
    (t : Cluster) × (n : Memory) × (reset ending 1 hosted ≡ some (ErrorCode.ok, reset_cluster t n))
    × Empties ending hosted t n
unfolding new_cluster values add_context
reset-Empties_example =
    reset-Empties ending 1 hosted (λ t c. inr (pos 0, refl)) ((named, refl), tt) hosted-Held

release_connection-Closed_example :
    (n : Memory) × (release_connection (97 ∷ []) true ErrorCode.timeout site
      ≡ some (true, closed site (97 ∷ []) n))
    × Closed site (97 ∷ []) 0 busy true ErrorCode.timeout n
unfolding new_cluster find bytes_eq is_disconnected
release_connection-Closed_example =
    release_connection-Closed (97 ∷ []) true ErrorCode.timeout site 0 busy site-HasNames refl refl
      refl waiting-IsLive waiting-Distinct

-- "MOVED "
abbrev moved_word : Bytes
moved_word = moved ++ b' ' ∷ []

scan_redirect-make_name_example :
    (name : Bytes) × (make_name foo 6379 ≡ some name)
    × (scan_redirect 6 (moved_word ++ (seven ++ b' ' ∷ name)) ≡ some (pos 7, name))
    × (pick_name name ≡ some (foo, 6379))
unfolding scan_digits
scan_redirect-make_name_example =
    scan_redirect-make_name moved_word seven foo 6379 (λ e. cc) seven-IsDigit (omega arith)
      foo-IsHost foo-IsWordByte (omega arith)

-- A host of many letters.
letters : ℕ → Bytes
letters zero = []
letters (suc n) = 97 ∷ letters n

letters-IsWordByte : (n : ℕ) → All IsWordByte (letters n)
unfolding letters is_space is_blank
letters-IsWordByte zero = tt
letters-IsWordByte (suc n) = (refl, letters-IsWordByte n)

length-letters : (n : ℕ) → length (letters n) ≡ n
unfolding letters
length-letters zero = refl
length-letters (suc n) = omega (arith, length-letters n)

scan_redirect-overflow_example :
    scan_redirect 6 (moved_word ++ (seven ++ b' ' ∷ letters 260)) ≡ none
scan_redirect-overflow_example =
    scan_redirect-overflow moved_word seven (letters 260) (λ e. cc) seven-IsDigit
      (letters-IsWordByte 260) (omega (arith, length-letters 260))
