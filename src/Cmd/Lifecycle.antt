-- ===== src/Cmd/Lifecycle.antt =====
-- A command is called at most once, and its destruction after a reply frees it.
use hiredis_happ.Common.{
  ℕ, ◌≡◌, ◌≢◌, refl, arith, if◌then◌else◌, [], ◌∷◌, ◌++◌, List, Option, none, some, ℤ,
}
use hiredis_happ.Common.ErrorCode
use hiredis_happ.Memory.{Cmd, Memory, Event, called, freed, Reply, null_fn, update}
use hiredis_happ.Cmd.{is_null, call_reply, destroy}

-- The event of a reply to a command: none if its callback is gone.
abbrev pub answer : ℕ → Cmd → ℤ → Option ℕ → Option Reply → List Event
answer c x code context r =
    if is_null x.callback then [] else called c x.callback code context r ∷ []

-- What one reply and the destruction of the command do to the memory.
pub record Answered (c : ℕ) (x : Cmd) (code : ℤ) (context : Option ℕ) (r : Option Reply)
    (m n : Memory) : Type 0 where
  pub gone : n.cmds c ≡ none
  pub other_cmds : (d : ℕ) → c ≢ d → n.cmds d ≡ m.cmds d
  pub conns_same : n.conns ≡ m.conns
  pub trace_after : n.trace ≡ freed c ∷ (answer c x code context r ++ m.trace)
  pub next_cmd_same : n.next_cmd ≡ m.next_cmd
  pub next_conn_same : n.next_conn ≡ m.next_conn
  pub seq_same : n.seq_alloc ≡ m.seq_alloc

after_call : ℕ → Cmd → ℤ → Option ℕ → Option Reply → Memory → Memory
after_call c x code context r m = record m {
  cmds =
      if is_null x.callback
      then m.cmds
      else update m.cmds c (some (record x { error_code = code; callback = null_fn }));
  trace = answer c x code context r ++ m.trace;
}

call_reply-after :
    (c : ℕ) (x : Cmd) (code : ℤ) (context : Option ℕ) (r : Option Reply) (m : Memory)
    → m.cmds c ≡ some x
    → call_reply c code context r m ≡ some (ErrorCode.ok, after_call c x code context r m)
unfolding call_reply after_call is_null
call_reply-after c x code context r m h = ground arith

-- A reply and the destruction of a command that is alive do not fault: the callback is called if it
-- is still there, the command is freed, and nothing else changes.
pub call_reply-destroy :
    (c : ℕ) (x : Cmd) (code : ℤ) (context : Option ℕ) (r : Option Reply) (m : Memory)
    → m.cmds c ≡ some x
    → (m₁ : Memory) × (n : Memory) × (call_reply c code context r m ≡ some (ErrorCode.ok, m₁))
      × (destroy c m₁ ≡ some (tt, n))
      × Answered c x code context r m n
unfolding destroy after_call
call_reply-destroy c x code context r m h = (
  after_call c x code context r m,
  record m {
    cmds = update (after_call c x code context r m).cmds c none;
    trace = freed c ∷ (answer c x code context r ++ m.trace);
  },
  call_reply-after c x code context r m h,
  ground arith,
  record {
    gone = ground arith;
    other_cmds = λ d ne. ground arith;
    conns_same = refl;
    trace_after = refl;
    next_cmd_same = refl;
    next_conn_same = refl;
    seq_same = refl;
  },
)

-- However often a command that is alive is answered before it is destroyed, its callback is called
-- for the first answer only.
pub call_reply_once :
    (c : ℕ) (x : Cmd) (code code' : ℤ) (context context' : Option ℕ) (r r' : Option Reply)
    (m : Memory)
    → m.cmds c ≡ some x
    → (m₁ : Memory) × (call_reply c code context r m ≡ some (ErrorCode.ok, m₁))
      × (m₁.trace ≡ answer c x code context r ++ m.trace)
      × (call_reply c code' context' r' m₁ ≡ some (ErrorCode.ok, m₁))
unfolding call_reply after_call is_null
call_reply_once c x code code' context context' r r' m h =
    (after_call c x code context r m, call_reply-after c x code context r m h, refl, ground arith)
