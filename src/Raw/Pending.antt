-- ===== src/Raw/Pending.antt =====
-- Commands of hiredis::happ::raw that fail, and the loop of `reset`, which fails those that wait for the timer.
use hiredis_happ.Common.{ℕ, ◌≡◌, refl, ap, ◌∙◌, arith, [], ◌∷◌, List, All, Option, none, some, ℤ}
use hiredis_happ.Common.ErrorCode
use hiredis_happ.Memory.{Cmd, Memory, M}
use hiredis_happ.Memory.Laws.{IsLive, Distinct, >>=-some}
use hiredis_happ.Cmd.{is_null, call_reply, destroy}
use hiredis_happ.Cmd.Lifecycle.{Answered}
use hiredis_happ.Cmd.Failing.{
  after_failure, after_failure-Answered, Failed, Failed-first, IsLive-next,
}
use hiredis_happ.Raw.State.{Raw, Delay, lift, call_cmd, destroy_cmd, fail_cmd}
use hiredis_happ.Raw.Timers.{set_pending, fail_pending}

pub lift-some :
    {A : Type 0} (x : M Memory A) (r : Raw) {a : A} {m : Memory}
    → x r.mem ≡ some (a, m)
    → lift x r ≡ some (a, record r { mem = m })
lift-some x r e = rw (e, lift)

fail_cmd-after :
    (c : ℕ) (x : Cmd) (err : ℤ) (context : Option ℕ) (r : Raw)
    → r.mem.cmds c ≡ some x
    → fail_cmd c err context r ≡ some (none, record r { mem = after_failure c x err context r.mem })
unfolding fail_cmd call_cmd destroy_cmd call_reply destroy is_null
fail_cmd-after c x err context r h = ground arith

destroy_cmd-after :
    (c : ℕ) (x : Cmd) (r : Raw)
    → r.mem.cmds c ≡ some x
    → destroy_cmd c r ≡ some (tt, record r { mem = after_failure c x ErrorCode.unknown none r.mem })
unfolding call_cmd destroy_cmd call_reply destroy is_null
destroy_cmd-after c x r h = ground arith

-- The end of a command that is alive, by fail_cmd and by destroy_cmd, does not fault: its callback
-- is called if it is still there, with the given code by the first and REDIS_HAPP_UNKNOWD by the
-- second; the command is freed, and nothing else in the heap and in the raw object changes.
pub fail_cmd-destroy_cmd :
    (c : ℕ) (x : Cmd) (err : ℤ) (context : Option ℕ) (r : Raw)
    → r.mem.cmds c ≡ some x
    → ((n : Memory) × (fail_cmd c err context r ≡ some (none, record r { mem = n }))
        × Answered c x err context none r.mem n)
      × ((n : Memory) × (destroy_cmd c r ≡ some (tt, record r { mem = n }))
          × Answered c x ErrorCode.unknown none none r.mem n)
fail_cmd-destroy_cmd c x err context r h = (
  (
    after_failure c x err context r.mem,
    fail_cmd-after c x err context r h,
    after_failure-Answered c x err context r.mem,
  ),
  (
    after_failure c x ErrorCode.unknown none r.mem,
    destroy_cmd-after c x r h,
    after_failure-Answered c x ErrorCode.unknown none r.mem,
  ),
)

-- The commands that wait for the timer, in order.
abbrev pub waiting : List Delay → List ℕ
waiting [] = []
waiting (d ∷ rest) = d.cmd ∷ waiting rest

-- The raw object with other waiting commands and another heap.
abbrev pub with_pending : Raw → List Delay → Memory → Raw
with_pending r l m = record r { mem = m; timer = record (r.timer) { timer_pending = l } }

pub fail_pending_lem :
    (l : List Delay) (r : Raw)
    → r.timer.timer_pending ≡ l
    → All (IsLive r.mem) (waiting l)
    → Distinct (waiting l)
    → (n : Memory) × (fail_pending l r ≡ some (tt, with_pending r [] n))
      × Failed ErrorCode.timeout (waiting l) r.mem n
unfolding fail_pending set_pending
fail_pending_lem [] r hl live distinct = (
  r.mem,
  ap (λ p. some (tt, with_pending r p r.mem)) hl,
  record {
    gone = tt;
    other_cmds = λ d h. refl;
    conns_same = refl;
    next_cmd_same = refl;
    trace_after = refl;
  },
)
fail_pending_lem (d ∷ rest) r hl ((x, hx), live) distinct =
    let m₁ = after_failure d.cmd x ErrorCode.timeout none r.mem in
    let a = after_failure-Answered d.cmd x ErrorCode.timeout none r.mem in
    let r₁ = with_pending r rest r.mem in
    let (n, e, q) =
      fail_pending_lem rest (with_pending r rest m₁) refl
        (IsLive-next d.cmd x ErrorCode.timeout (waiting rest) a distinct.0 live) distinct.1 in
    (
      n,
      >>=-some (fail_cmd d.cmd ErrorCode.timeout none) _ r₁
            (fail_cmd-after d.cmd x ErrorCode.timeout none r₁ hx)
          ∙ e,
      Failed-first d.cmd x ErrorCode.timeout (waiting rest) hx distinct.0 a q,
    )

-- The raw object after `reset`.
abbrev pub reset_raw : Raw → Memory → Raw
reset_raw r n = record r {
  mem = n;
  timer = record {
    last_update_sec = 0;
    last_update_usec = 0;
    timer_pending = [];
    conn_sequence = 0;
    conn_timeout = 0;
  };
}
