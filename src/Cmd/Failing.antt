-- ===== src/Cmd/Failing.antt =====
-- Commands that fail: each is called with one error code and destroyed.
use hiredis_happ.Common.{
  ℕ, ◌≡◌, ◌≢◌, refl, sym, ap, ◌∙◌, arith, if◌then◌else◌, [], ◌∷◌, ◌++◌, List, All, Option, none,
  some, ℤ,
}
use hiredis_happ.Memory.{Cmd, Memory, null_fn, update, freed}
use hiredis_happ.Memory.Laws.{IsLive, All-flip}
use hiredis_happ.Cmd.{is_null}
use hiredis_happ.Cmd.Lifecycle.{answer, Answered}
use hiredis_happ.Connection.Expire.Laws.{owed, expire_trace, expire_trace-cong}

-- The heap after a command was answered with `err` and destroyed.
abbrev pub after_failure : ℕ → Cmd → ℤ → Option ℕ → Memory → Memory
after_failure c x err context m = record m {
  cmds =
      update
        (if is_null x.callback
          then m.cmds
          else update m.cmds c (some (record x { error_code = err; callback = null_fn })))
        c none;
  trace = freed c ∷ (answer c x err context none ++ m.trace);
}

pub after_failure-Answered :
    (c : ℕ) (x : Cmd) (err : ℤ) (context : Option ℕ) (m : Memory)
    → Answered c x err context none m (after_failure c x err context m)
after_failure-Answered c x err context m = record {
  gone = ground arith;
  other_cmds = λ d ne. ground arith;
  conns_same = refl;
  trace_after = refl;
  next_cmd_same = refl;
  next_conn_same = refl;
  seq_same = refl;
}

-- What the failure of the commands `ids` does to the heap.
pub record Failed (err : ℤ) (ids : List ℕ) (m n : Memory) : Type 0 where
  pub gone : All (λ c. n.cmds c ≡ none) ids
  pub other_cmds : (d : ℕ) → All (λ c. c ≢ d) ids → n.cmds d ≡ m.cmds d
  pub conns_same : n.conns ≡ m.conns
  pub next_cmd_same : n.next_cmd ≡ m.next_cmd
  pub trace_after : n.trace ≡ expire_trace err none m.cmds ids m.trace

pub IsLive-next :
    (c : ℕ) (x : Cmd) (err : ℤ) {m n : Memory} (l : List ℕ)
    → Answered c x err none none m n
    → All (λ d. c ≢ d) l
    → All (IsLive m) l
    → All (IsLive n) l
IsLive-next c x err [] a fresh live = tt
IsLive-next c x err (d ∷ l) a fresh live =
    ((live.0.0, a.other_cmds d fresh.0 ∙ live.0.1), IsLive-next c x err l a fresh.1 live.1)

pub Failed-first :
    (c : ℕ) (x : Cmd) (err : ℤ) (ids : List ℕ) {m m₁ n : Memory}
    → m.cmds c ≡ some x
    → All (λ d. c ≢ d) ids
    → Answered c x err none none m m₁
    → Failed err ids m₁ n
    → Failed err (c ∷ ids) m n
Failed-first c x err ids {m} {m₁} {n} hx fresh a q = record {
  gone = (q.other_cmds c (All-flip c ids fresh) ∙ a.gone, q.gone);
  other_cmds = λ d h. q.other_cmds d h.1 ∙ a.other_cmds d h.0;
  conns_same = q.conns_same ∙ a.conns_same;
  next_cmd_same = q.next_cmd_same ∙ a.next_cmd_same;
  trace_after =
      q.trace_after
      ∙ expire_trace-cong err none m₁.cmds m.cmds ids m₁.trace (same ids fresh)
      ∙ ap (expire_trace err none m.cmds ids)
          (a.trace_after ∙ ap (λ o. freed c ∷ (owed c err none o ++ m.trace)) (sym hx));
}
  where
    same : (l : List ℕ) → All (λ d. c ≢ d) l → All (λ d. m₁.cmds d ≡ m.cmds d) l
    same [] h = tt
    same (d ∷ l) h = (a.other_cmds d h.0, same l h.1)
