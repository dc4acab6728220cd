-- ===== src/Cluster/Placing/Proceeding.antt =====
-- proc of hiredis::happ::cluster: its loop over the commands whose time has come ends, and each of them is dealt with.
use hiredis_happ.Common.{
  ℕ, suc, ◌≤◌, ◌<◌, ◌≡◌, ◌≢◌, inl, inr, refl, sym, ap, ◌∙◌, subst, arith, ltb, ltb→lt, true,
  Bool-cases, [], ◌∷◌, ◌++◌, List, length, All, All-append, none, some, Option, append_assoc,
  append-nil,
}
use hiredis_happ.Memory.{Cmd, Driver, pure, fault}
use hiredis_happ.Memory.Laws.{IsLive, Distinct, All-flip, >>=-some}
use hiredis_happ.Memory.Members.{All-map}
use hiredis_happ.Connection.Queue.{contains}
use hiredis_happ.Cluster.State.{Cluster, Delay, set_pending}
use hiredis_happ.Cluster.{exec}
use hiredis_happ.Cluster.Timers.{is_later, run_round, run_pending}
use hiredis_happ.Cluster.Pending.{waiting}
use hiredis_happ.Cluster.Placing.{IsCalm, IsSound, IsFilled, delayed, waiting-append}
use hiredis_happ.Cluster.Placing.Reloading.{Formats}
use hiredis_happ.Cluster.Placing.Executing.{Executed, exec-Executes}
use hiredis_happ.Cluster.Placing.Timing.{
  FirstLater, Dealt, with_pending, with_pending-IsSound, all_later, all_contains, Dealt-pop,
  Dealt-Executed, Executed-Dealt,
}

-- What the loop leaves of the commands `l` that wait for the timer, after `n` rounds.
pub record Ran (l : List Delay) (sec usec n : ℕ) (s t : Cluster) : Type 0 where
  pub few : n ≤ length l
  pub first_later : FirstLater sec usec t.timer.timer_pending
  pub dealt : All (Dealt t) (waiting l)
  pub keeps : (c : ℕ) → c < s.mem.next_cmd → All (λ d. c ≢ d) (waiting l) → Dealt s c → Dealt t c
  pub others : (c : ℕ) → IsLive s.mem c → All (λ d. c ≢ d) (waiting l) → t.mem.cmds c ≡ s.mem.cmds c
  pub slots_same : t.slots ≡ s.slots
  pub conf_same : t.conf ≡ s.conf
  pub sound : IsSound t

filled_below : (c : ℕ) (s : Cluster) → IsSound s → IsFilled s.mem c → c < s.mem.next_cmd
filled_below c s sound f = elim (Bool-cases (ltb c s.mem.next_cmd)) [
  | inl e ↦ ltb→lt c s.mem.next_cmd e
  | inr e ↦ let old = sound.no_cmd c (ground (arith, e)) in absurd (made (sym f.there ∙ old))
]
  where
    made : {x : Cmd} → ◌≢◌ {A = Option Cmd} (some x) none
    made e = cc

still-IsFilled :
    (c : ℕ) (s t : Cluster) (l : List ℕ)
    → Executed c s t
    → All (λ d. d ≢ c) l
    → All (IsFilled s.mem) l
    → All (IsFilled t.mem) l
still-IsFilled c s t [] q other f = tt
still-IsFilled c s t (d ∷ l) q other f = (
  record {
    cmd = f.0.cmd;
    there = q.others d (f.0.cmd, f.0.there) other.0 ∙ f.0.there;
    bytes = f.0.bytes;
    filled = f.0.filled;
    picked = f.0.picked;
    whole = f.0.whole;
  },
  still-IsFilled c s t l q other.1 f.1,
)

-- The commands that wait for the timer have a place there.
waiting-Dealt :
    (s : Cluster) (l later : List Delay)
    → s.timer.timer_pending ≡ l ++ later
    → All (Dealt s) (waiting l)
waiting-Dealt s l later e =
    All-map (waiting l)
      (λ c h. inl (
        delayed (subst (λ p. contains c p ≡ true) (sym (ap waiting e ∙ waiting-append l later)) h)))
      (all_contains (waiting l) (waiting later))

stopped :
    (l later : List Delay) (sec usec : ℕ) (s : Cluster)
    → s.timer.timer_pending ≡ l ++ later
    → FirstLater sec usec (l ++ later)
    → IsSound s
    → Ran l sec usec 0 s s
stopped l later sec usec s hp first sound = record {
  few = omega arith;
  first_later = subst (FirstLater sec usec) (sym hp) first;
  dealt = waiting-Dealt s l later hp;
  keeps = λ c h ne p. p;
  others = λ c live ne. refl;
  slots_same = refl;
  conf_same = refl;
  sound = sound;
}

-- A round, and the rest of the loop.
went :
    (d : Delay) (l later : List Delay) (sec usec n : ℕ) (s t u : Cluster)
    → s.timer.timer_pending ≡ (d ∷ l) ++ later
    → All (λ e. d.cmd ≢ e) (waiting l)
    → IsSound s
    → IsFilled s.mem d.cmd
    → Executed d.cmd (with_pending s (l ++ later)) t
    → Ran l sec usec n t u
    → Ran (d ∷ l) sec usec (suc n) s u
went d l later sec usec n s t u hp apart sound f x q =
    let s₁ = with_pending s (l ++ later) in
    record {
      few = omega (arith, q.few);
      first_later = q.first_later;
      dealt = (
        q.keeps d.cmd (omega (arith, filled_below d.cmd s sound f, x.next_up)) apart
            (Executed-Dealt d.cmd s₁ t x),
        q.dealt,
      );
      keeps = λ c h ne p.
          q.keeps c (omega (arith, h, x.next_up)) ne.1
            (Dealt-Executed c d.cmd s₁ t x ne.0 h (Dealt-pop s d (l ++ later) c hp ne.0 p));
      others = λ c live ne.
          q.others c (live.0, x.others c live ne.0 ∙ live.1) ne.1 ∙ x.others c live ne.0;
      slots_same = q.slots_same ∙ x.slots_same;
      conf_same = q.conf_same ∙ x.timed.conf_same;
      sound = q.sound;
    }

module _ (driver : Driver) (calm : IsCalm driver) (formats : Formats driver)
    (fuel sec usec : ℕ) where
  run_pending-from :
      (l later : List Delay) (s : Cluster)
      → s.timer.timer_pending ≡ l ++ later
      → All (λ d. is_later d sec usec ≡ true) later
      → s.timer.last_update_sec ≡ sec
      → s.timer.last_update_usec ≡ usec
      → IsSound s
      → All (IsFilled s.mem) (waiting l)
      → Distinct (waiting l)
      → (n : ℕ) × (t : Cluster) × (run_pending driver fuel (suc (length l)) sec usec s
          ≡ some (n, t))
        × Ran l sec usec n s t
  unfolding run_pending run_round set_pending
  run_pending-from [] [] s hp hl hs hu sound f distinct = (
    0,
    s,
    ap (λ p. run_round driver fuel sec usec fault p s) hp,
    stopped [] [] sec usec s hp tt sound,
  )
  run_pending-from [] (d ∷ later) s hp hl hs hu sound f distinct = (
    0,
    s,
    ap (λ p. run_round driver fuel sec usec fault p s) hp ∙ rw hl.0 refl,
    stopped [] (d ∷ later) sec usec s hp hl.0 sound,
  )
  run_pending-from (d ∷ l) later s hp hl hs hu sound f distinct =
      let loop = run_pending driver fuel (suc (length l)) sec usec in
      elim (Bool-cases (is_later d sec usec)) [
        | inl wait ↦ (
          0,
          s,
          ap (λ p. run_round driver fuel sec usec loop p s) hp ∙ rw wait refl,
          stopped (d ∷ l) later sec usec s hp wait sound,
        )
        | inr due ↦
            let s₁ = with_pending s (l ++ later) in
            let (res, t, e, x) =
              exec-Executes driver calm formats fuel d.cmd [] s₁
                (with_pending-IsSound s (l ++ later) sound) f.0 in
            let (n, u, e', q) =
              run_pending-from l (later ++ x.timed.new) t
                (x.timed.grows ∙ append_assoc l later x.timed.new)
                (All-append (λ c. is_later c sec usec ≡ true) later x.timed.new hl
                  (all_later s₁ x.timed.new sec usec hs hu x.timed.pushed))
                (x.timed.sec_same ∙ hs) (x.timed.usec_same ∙ hu) x.sound
                (still-IsFilled d.cmd s₁ t (waiting l) x (All-flip d.cmd (waiting l) distinct.0)
                  f.1)
                distinct.1 in
            (
              suc n,
              u,
              ap (λ p. run_round driver fuel sec usec loop p s) hp
                  ∙ rw due (
                      >>=-some (exec driver fuel [] (some d.cmd)) _ s₁ e
                      ∙ >>=-some loop (λ n. pure (suc n)) t e'),
              went d l later sec usec n s t u hp distinct.0 sound f.0 x q,
            )
      ]

  -- Take a cluster without a password where every name of the map leads to a connection that is
  -- there, and the numbers that were not given out yet are free, and let no context be closing and
  -- hiredis give a command where it formats CLUSTER SLOTS. Where the commands that wait for the
  -- timer are alive, distinct and have buffers that hold a command, the loop of proc over those
  -- whose time has come, at the time that proc has set, does not fault and ends after one round at
  -- most for each of them, with any slot table: the first command that still waits for the timer
  -- has its time to come; each of them was freed, or waits on the connection of some name, for the
  -- timer or for the slot table; another command that had such a place keeps it, and every other
  -- command that was alive, the table and the configuration stay; and the count that is returned
  -- is not above their number.
  pub run_pending-Ran :
      (s : Cluster)
      → s.timer.last_update_sec ≡ sec
      → s.timer.last_update_usec ≡ usec
      → IsSound s
      → All (IsFilled s.mem) (waiting s.timer.timer_pending)
      → Distinct (waiting s.timer.timer_pending)
      → (n : ℕ) × (t : Cluster) × (run_pending driver fuel
            (suc (length s.timer.timer_pending))
            sec
            usec
            s
          ≡ some (n, t))
        × Ran s.timer.timer_pending sec usec n s t
  run_pending-Ran s hs hu sound f distinct =
      run_pending-from s.timer.timer_pending [] s (sym (append-nil s.timer.timer_pending)) tt hs hu
        sound f distinct
