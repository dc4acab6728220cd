-- ===== src/Cluster/Pending.antt =====
-- Commands of hiredis::happ::cluster that fail, and the loops of `reset` over those that wait for the slot
-- table or for the timer.
use hiredis_happ.Common.{
  ℕ, ◌≡◌, ◌≢◌, refl, ap, ◌∙◌, arith, [], ◌∷◌, ◌++◌, List, All, All-append, Option, none, some, ℤ,
}
use hiredis_happ.Common.ErrorCode
use hiredis_happ.Memory.{Cmd, Conn, Memory, get_conn, M}
use hiredis_happ.Memory.Laws.{
  IsLive, Distinct, >>=-some, get_conn_lem, All-prefix, All-suffix, Distinct-apart, All-flip,
}
use hiredis_happ.Cmd.{is_null, call_reply, destroy}
use hiredis_happ.Cmd.Lifecycle.{Answered}
use hiredis_happ.Cmd.Failing.{
  after_failure, after_failure-Answered, Failed, Failed-first, IsLive-next,
}
use hiredis_happ.Connection.Expire.Laws.{expire_trace, expire_trace-cong}
use hiredis_happ.Slots.{invalid}
use hiredis_happ.Cluster.State.{
  Cluster, Delay, lift, call_cmd, destroy_cmd, end_cmd, fail_cmd, set_pending, set_slot_pending,
}
use hiredis_happ.Cluster.Timers.{add_context, all_contexts, fail_slot_pending, fail_pending}

pub lift-some :
    {A : Type 0} (x : M Memory A) (s : Cluster) {a : A} {m : Memory}
    → x s.mem ≡ some (a, m)
    → lift x s ≡ some (a, record s { mem = m })
lift-some x s e = rw (e, lift)

pub fail_cmd-after :
    (c : ℕ) (x : Cmd) (err : ℤ) (context : Option ℕ) (s : Cluster)
    → s.mem.cmds c ≡ some x
    → fail_cmd c err context s ≡ some (none, record s { mem = after_failure c x err context s.mem })
unfolding fail_cmd end_cmd call_cmd destroy_cmd call_reply destroy is_null
fail_cmd-after c x err context s h = ground arith

-- A command that is alive fails: it is called with the code, if its callback is still there, and freed,
-- and nothing else changes.
pub fail_cmd_lem :
    (c : ℕ) (x : Cmd) (err : ℤ) (context : Option ℕ) (s : Cluster)
    → s.mem.cmds c ≡ some x
    → (n : Memory) × (fail_cmd c err context s ≡ some (none, record s { mem = n }))
      × Answered c x err context none s.mem n
fail_cmd_lem c x err context s h = (
  after_failure c x err context s.mem,
  fail_cmd-after c x err context s h,
  after_failure-Answered c x err context s.mem,
)

pub destroy_cmd_lem :
    (c : ℕ) (x : Cmd) (s : Cluster)
    → s.mem.cmds c ≡ some x
    → (n : Memory) × (destroy_cmd c s ≡ some (tt, record s { mem = n }))
      × Answered c x ErrorCode.unknown none none s.mem n
unfolding call_cmd destroy_cmd call_reply destroy is_null
destroy_cmd_lem c x s h = (
  after_failure c x ErrorCode.unknown none s.mem,
  ground arith,
  after_failure-Answered c x ErrorCode.unknown none s.mem,
)

-- The commands that wait for the timer, in order.
abbrev pub waiting : List Delay → List ℕ
waiting [] = []
waiting (d ∷ rest) = d.cmd ∷ waiting rest

abbrev with_slot_pending : Cluster → List ℕ → Memory → Cluster
with_slot_pending s l m = record s { mem = m; slot_pending = l }

abbrev with_pending : Cluster → List Delay → Memory → Cluster
with_pending s l m = record s { mem = m; timer = record (s.timer) { timer_pending = l } }

Failed-none : (err : ℤ) (m : Memory) → Failed err [] m m
Failed-none err m = record {
  gone = tt;
  other_cmds = λ d h. refl;
  conns_same = refl;
  next_cmd_same = refl;
  trace_after = refl;
}

pub fail_slot_pending_lem :
    (l : List ℕ) (s : Cluster)
    → s.slot_pending ≡ l
    → All (IsLive s.mem) l
    → Distinct l
    → (n : Memory) × (fail_slot_pending l s ≡ some (tt, with_slot_pending s [] n))
      × Failed ErrorCode.slot_unavailable l s.mem n
unfolding fail_slot_pending set_slot_pending
fail_slot_pending_lem [] s hl live distinct = (
  s.mem,
  ap (λ p. some (tt, with_slot_pending s p s.mem)) hl,
  Failed-none ErrorCode.slot_unavailable s.mem,
)
fail_slot_pending_lem (c ∷ rest) s hl ((x, hx), live) distinct =
    let err = ErrorCode.slot_unavailable in
    let m₁ = after_failure c x err none s.mem in
    let a = after_failure-Answered c x err none s.mem in
    let s₁ = with_slot_pending s rest s.mem in
    let (n, e, q) =
      fail_slot_pending_lem rest (with_slot_pending s rest m₁) refl
        (IsLive-next c x err rest a distinct.0 live) distinct.1 in
    (
      n,
      >>=-some (fail_cmd c err none) _ s₁ (fail_cmd-after c x err none s₁ hx) ∙ e,
      Failed-first c x err rest hx distinct.0 a q,
    )

pub fail_pending_lem :
    (l : List Delay) (s : Cluster)
    → s.timer.timer_pending ≡ l
    → All (IsLive s.mem) (waiting l)
    → Distinct (waiting l)
    → (n : Memory) × (fail_pending l s ≡ some (tt, with_pending s [] n))
      × Failed ErrorCode.timeout (waiting l) s.mem n
unfolding fail_pending set_pending
fail_pending_lem [] s hl live distinct =
    (s.mem, ap (λ p. some (tt, with_pending s p s.mem)) hl, Failed-none ErrorCode.timeout s.mem)
fail_pending_lem (d ∷ rest) s hl ((x, hx), live) distinct =
    let err = ErrorCode.timeout in
    let m₁ = after_failure d.cmd x err none s.mem in
    let a = after_failure-Answered d.cmd x err none s.mem in
    let s₁ = with_pending s rest s.mem in
    let (n, e, q) =
      fail_pending_lem rest (with_pending s rest m₁) refl
        (IsLive-next d.cmd x err (waiting rest) a distinct.0 live) distinct.1 in
    (
      n,
      >>=-some (fail_cmd d.cmd err none) _ s₁ (fail_cmd-after d.cmd x err none s₁ hx) ∙ e,
      Failed-first d.cmd x err (waiting rest) hx distinct.0 a q,
    )

-- The contexts of the connections `ks`, as far as they have one, each behind its connection.
abbrev pub contexts_of : Memory → List ℕ → List (ℕ × ℕ)
contexts_of m [] = []
contexts_of m (k ∷ rest) = elim (m.conns k) [
  | none ↦ contexts_of m rest
  | some conn ↦ add_context k conn.context (contexts_of m rest)
]

pub all_contexts_lem :
    (ks : List ℕ) (s : Cluster)
    → All (λ k. (conn : Conn) × (s.mem.conns k ≡ some conn)) ks
    → all_contexts ks s ≡ some (contexts_of s.mem ks, s)
unfolding all_contexts
all_contexts_lem [] s h = refl
all_contexts_lem (k ∷ rest) s ((conn, hk), h) =
    >>=-some (lift (get_conn k)) _ s (lift-some (get_conn k) s (get_conn_lem k s.mem hk))
    ∙ >>=-some (all_contexts rest) _ s (all_contexts_lem rest s h)
    ∙ rw (hk, contexts_of) refl

-- The cluster after `reset`.
abbrev pub reset_cluster : Cluster → Memory → Cluster
reset_cluster s n = record s {
  mem = n;
  slots = λ slot. [];
  slot_flag = invalid;
  slot_pending = [];
  timer = record {
    last_update_sec = 0;
    last_update_usec = 0;
    timer_pending = [];
    timer_conns = [];
  };
}

-- What `reset` does to the heap after it has disconnected the contexts.
pub record Emptied (ids delayed : List ℕ) (m n : Memory) : Type 0 where
  pub gone : All (λ c. n.cmds c ≡ none) (ids ++ delayed)
  pub other_cmds : (d : ℕ) → All (λ c. c ≢ d) (ids ++ delayed) → n.cmds d ≡ m.cmds d
  pub conns_same : n.conns ≡ m.conns
  pub trace_after :
      n.trace
      ≡ expire_trace ErrorCode.timeout none m.cmds delayed
          (expire_trace ErrorCode.slot_unavailable none m.cmds ids m.trace)

pub same_cmds :
    {err : ℤ} {ids : List ℕ} {m n : Memory} (l : List ℕ)
    → Failed err ids m n
    → All (λ d. All (λ c. c ≢ d) ids) l
    → All (λ d. n.cmds d ≡ m.cmds d) l
same_cmds [] q h = tt
same_cmds (d ∷ l) q h = (q.other_cmds d h.0, same_cmds l q h.1)

pub still-IsLive :
    (m n : Memory) (l : List ℕ)
    → All (λ d. n.cmds d ≡ m.cmds d) l
    → All (IsLive m) l
    → All (IsLive n) l
still-IsLive m n [] same live = tt
still-IsLive m n (d ∷ l) same live =
    ((live.0.0, same.0 ∙ live.0.1), still-IsLive m n l same.1 live.1)

still_gone :
    (err : ℤ) (m n : Memory) (delayed ids : List ℕ)
    → Failed err delayed m n
    → Distinct (ids ++ delayed)
    → All (λ c. m.cmds c ≡ none) ids
    → All (λ c. n.cmds c ≡ none) ids
still_gone err m n delayed [] q distinct gone = tt
still_gone err m n delayed (c ∷ ids) q distinct gone = (
  q.other_cmds c (All-flip c delayed (All-suffix (λ d. c ≢ d) ids delayed distinct.0)) ∙ gone.0,
  still_gone err m n delayed ids q distinct.1 gone.1,
)

-- First the commands `ids` fail, and then `delayed`.
pub Failed-both :
    (ids delayed : List ℕ) (m m₁ n : Memory)
    → Distinct (ids ++ delayed)
    → Failed ErrorCode.slot_unavailable ids m m₁
    → Failed ErrorCode.timeout delayed m₁ n
    → Emptied ids delayed m n
Failed-both ids delayed m m₁ n distinct p q = record {
  gone =
      All-append (λ c. n.cmds c ≡ none) ids delayed
        (still_gone ErrorCode.timeout m₁ n delayed ids q distinct p.gone) q.gone;
  other_cmds = λ d h.
      q.other_cmds d (All-suffix (λ c. c ≢ d) ids delayed h)
      ∙ p.other_cmds d (All-prefix (λ c. c ≢ d) ids delayed h);
  conns_same = q.conns_same ∙ p.conns_same;
  trace_after =
      q.trace_after
      ∙ expire_trace-cong ErrorCode.timeout none m₁.cmds m.cmds delayed m₁.trace
          (same_cmds delayed p (Distinct-apart ids delayed distinct))
      ∙ ap (expire_trace ErrorCode.timeout none m.cmds delayed) p.trace_after;
}
