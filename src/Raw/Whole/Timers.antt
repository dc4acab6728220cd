-- ===== src/Raw/Whole/Timers.antt =====
-- The loop of proc of hiredis::happ::raw over the commands whose time has come: it ends, and keeps the
-- whole state.
use hiredis_happ.Common.{
  ℕ, suc, ◌≤◌, ◌≡◌, refl, sym, ap, ◌∙◌, subst, arith, true, Bool-cases, inl, inr, [], ◌∷◌, ◌++◌,
  List, length, All, All-append, some, append_assoc,
}
use hiredis_happ.Cmd
use hiredis_happ.Memory.{Driver, M, pure, fault}
use hiredis_happ.Memory.Laws.{>>=-some}
use hiredis_happ.Raw.State.{Raw, Delay, is_timer_available}
use hiredis_happ.Raw.{exec}
use hiredis_happ.Raw.Timers.{is_later, set_pending, run_round, run_pending}
use hiredis_happ.Raw.Whole.{IsWhole}
use hiredis_happ.Raw.Whole.Executing.{IsPushed, exec-Executed}
use hiredis_happ.Raw.Whole.Releasing.{due-Floats}

-- The first command that waits for the timer, if there is one, has its time still to come.
abbrev pub FirstLater : ℕ → ℕ → List Delay → Type 0
FirstLater sec usec [] = Unit {0}
FirstLater sec usec (d ∷ l) = is_later d sec usec ≡ true

-- What was handed to the timer at a time is later than that time.
pushed_later :
    (r : Raw) (d : Delay) (sec usec : ℕ)
    → r.timer.last_update_sec ≡ sec
    → r.timer.last_update_usec ≡ usec
    → IsPushed r d
    → is_later d sec usec ≡ true
unfolding is_later is_timer_available
pushed_later r d sec usec hs hu p = ground (arith, p.available, p.sec_after, p.usec_after)

all_later :
    (r : Raw) (l : List Delay) (sec usec : ℕ)
    → r.timer.last_update_sec ≡ sec
    → r.timer.last_update_usec ≡ usec
    → All (IsPushed r) l
    → All (λ d. is_later d sec usec ≡ true) l
all_later r [] sec usec hs hu h = tt
all_later r (d ∷ l) sec usec hs hu h =
    (pushed_later r d sec usec hs hu h.0, all_later r l sec usec hs hu h.1)

-- What the loop leaves of the waiting commands `l`, after `n` rounds.
pub record Ran (l : List Delay) (sec usec n : ℕ) (r s : Raw) : Type 0 where
  pub whole : IsWhole s
  pub first_later : FirstLater sec usec s.timer.timer_pending
  pub few : n ≤ length l
  pub conf_same : s.conf ≡ r.conf

module _ (driver : Driver) (fuel : ℕ) (enough : Cmd.default_ttl ≤ fuel) (sec usec : ℕ) where
  done_lem :
      (loop : M Raw ℕ) (r : Raw) (p : List Delay)
      → All (λ d. is_later d sec usec ≡ true) p
      → (run_round driver fuel sec usec loop p r ≡ some (0, r)) × FirstLater sec usec p
  unfolding run_round
  done_lem loop r [] h = (refl, tt)
  done_lem loop r (d ∷ p) h = (rw h.0 refl, h.0)

  pub run_pending-Ran :
      (l later : List Delay) (r : Raw)
      → r.timer.timer_pending ≡ l ++ later
      → All (λ d. is_later d sec usec ≡ true) later
      → r.timer.last_update_sec ≡ sec
      → r.timer.last_update_usec ≡ usec
      → IsWhole r
      → (n : ℕ) × (s : Raw) × (run_pending driver fuel (suc (length l)) sec usec r ≡ some (n, s))
        × Ran l sec usec n r s
  unfolding run_pending run_round set_pending
  run_pending-Ran [] later r hp hl hs hu h =
      let (e, first) = done_lem (fault) r later hl in
      (
        0,
        r,
        ap (λ p. run_round driver fuel sec usec fault p r) hp ∙ e,
        record {
          whole = h;
          first_later = subst (FirstLater sec usec) (sym hp) first;
          few = omega arith;
          conf_same = refl;
        },
      )
  run_pending-Ran (d ∷ l) later r hp hl hs hu h =
      let loop = run_pending driver fuel (suc (length l)) sec usec in
      elim (Bool-cases (is_later d sec usec)) [
        | inl wait ↦ (
          0,
          r,
          ap (λ p. run_round driver fuel sec usec loop p r) hp ∙ rw wait refl,
          record {
            whole = h;
            first_later = subst (FirstLater sec usec) (sym hp) wait;
            few = omega arith;
            conf_same = refl;
          },
        )
        | inr due ↦
            let r₁ = record r { timer = record (r.timer) { timer_pending = l ++ later } } in
            let (res, t, e, x) =
              exec-Executed driver d.cmd fuel r₁ enough (due-Floats d (l ++ later) r hp h) in
            let (new, hnew, pushed) = x.pended in
            let (n, s, e', q) =
              run_pending-Ran l (later ++ new) t (hnew ∙ append_assoc l later new)
                (All-append (λ d. is_later d sec usec ≡ true) later new hl
                  (all_later r₁ new sec usec hs hu pushed))
                (x.sec_same ∙ hs) (x.usec_same ∙ hu) x.whole in
            (
              suc n,
              s,
              ap (λ p. run_round driver fuel sec usec loop p r) hp
                  ∙ rw due (
                      >>=-some (exec driver fuel (some d.cmd)) _ r₁ e
                      ∙ >>=-some loop (λ n. pure (suc n)) t e'),
              record {
                whole = q.whole;
                first_later = q.first_later;
                few = omega (arith, q.few);
                conf_same = q.conf_same ∙ x.conf_same;
              },
            )
      ]
