-- ===== src/Cluster/Placing/Timing.antt =====
-- The loop of proc of hiredis::happ::cluster over the commands whose time has come, while no context is closing.
use hiredis_happ.Common.{
  ℕ, ◌<◌, ◌≡◌, ◌≢◌, ◌⊎◌, inl, inr, sym, subst, arith, true, [], ◌∷◌, ◌++◌, List, All,
}
use hiredis_happ.Memory.Members.{All-map}
use hiredis_happ.Connection.Queue.{contains}
use hiredis_happ.Cluster.State.{Cluster, Delay, is_timer_available}
use hiredis_happ.Cluster.Timers.{is_later}
use hiredis_happ.Cluster.Pending.{waiting}
use hiredis_happ.Cluster.Timed.{IsPushed}
use hiredis_happ.Cluster.Placing.{
  IsSound, Placed, ended, waits, delayed, contains-append, contains-last,
}
use hiredis_happ.Cluster.Placing.Executing.{Executed}

-- The first command that waits for the timer, if there is one, has its time still to come.
abbrev pub FirstLater : ℕ → ℕ → List Delay → Type 0
FirstLater sec usec [] = Unit {0}
FirstLater sec usec (d ∷ l) = is_later d sec usec ≡ true

-- A command that has a place, or waits for the slot table.
abbrev pub Dealt : Cluster → ℕ → Type 0
Dealt s c = Placed c s ⊎ (contains c s.slot_pending ≡ true)

-- The cluster with other commands that wait for the timer.
abbrev pub with_pending : Cluster → List Delay → Cluster
with_pending s l = record s { timer = record (s.timer) { timer_pending = l } }

pub with_pending-IsSound : (s : Cluster) (l : List Delay) → IsSound s → IsSound (with_pending s l)
with_pending-IsSound s l sound = record {
  there = sound.there;
  unmade = sound.unmade;
  no_cmd = sound.no_cmd;
  no_auth_fn = sound.no_auth_fn;
  no_password = sound.no_password;
}

-- What was handed to the timer at a time is later than that time.
pushed_later :
    (s : Cluster) (d : Delay) (sec usec : ℕ)
    → s.timer.last_update_sec ≡ sec
    → s.timer.last_update_usec ≡ usec
    → IsPushed s d
    → is_later d sec usec ≡ true
unfolding is_later is_timer_available
pushed_later s d sec usec hs hu p = ground (arith, p.available, p.sec_after, p.usec_after)

pub all_later :
    (s : Cluster) (l : List Delay) (sec usec : ℕ)
    → s.timer.last_update_sec ≡ sec
    → s.timer.last_update_usec ≡ usec
    → All (IsPushed s) l
    → All (λ d. is_later d sec usec ≡ true) l
all_later s [] sec usec hs hu h = tt
all_later s (d ∷ l) sec usec hs hu h =
    (pushed_later s d sec usec hs hu h.0, all_later s l sec usec hs hu h.1)

contains-here : (c : ℕ) (l : List ℕ) → contains c (c ∷ l) ≡ true
unfolding contains
contains-here c l = ground arith

contains-there : (c d : ℕ) (l : List ℕ) → contains c l ≡ true → contains c (d ∷ l) ≡ true
unfolding contains
contains-there c d l h = ground (arith, h)

contains-behind : (c d : ℕ) (l : List ℕ) → c ≢ d → contains c (d ∷ l) ≡ true → contains c l ≡ true
unfolding contains
contains-behind c d l ne h = ground (arith, h, ne)

pub all_contains : (l r : List ℕ) → All (λ c. contains c (l ++ r) ≡ true) l
all_contains [] r = tt
all_contains (c ∷ l) r =
    (contains-here c (l ++ r), All-map l (λ d h. contains-there d c (l ++ r) h) (all_contains l r))

-- The first command leaves the timer.
pub Dealt-pop :
    (s : Cluster) (d : Delay) (l : List Delay) (c : ℕ)
    → s.timer.timer_pending ≡ d ∷ l
    → c ≢ d.cmd
    → Dealt s c
    → Dealt (with_pending s l) c
Dealt-pop s d l c e ne (inl (ended h)) = inl (ended h)
Dealt-pop s d l c e ne (inl (waits name k conn hf hk hc)) = inl (waits name k conn hf hk hc)
Dealt-pop s d l c e ne (inl (delayed h)) = inl (
    delayed
      (contains-behind c d.cmd (waiting l) ne (subst (λ p. contains c (waiting p) ≡ true) e h)))
Dealt-pop s d l c e ne (inr h) = inr h

-- A command that was dealt with stays so while another one is executed.
pub Dealt-Executed :
    (c d : ℕ) (s t : Cluster) → Executed d s t → c ≢ d → c < s.mem.next_cmd → Dealt s c → Dealt t c
Dealt-Executed c d s t q ne h (inl p) = inl (q.keeps c ne h p)
Dealt-Executed c d s t q ne h (inr w) = elim q.place [
  | inl (p, e) ↦ inr (subst (λ l. contains c l ≡ true) (sym e) w)
  | inr (e, f) ↦
      inr (subst (λ l. contains c l ≡ true) (sym e) (contains-append c s.slot_pending (d ∷ []) w))
]

pub Executed-Dealt : (c : ℕ) (s t : Cluster) → Executed c s t → Dealt t c
Executed-Dealt c s t q = elim q.place [
  | inl (p, e) ↦ inl p
  | inr (e, f) ↦ inr (subst (λ l. contains c l ≡ true) (sym e) (contains-last c s.slot_pending))
]
