-- ===== src/Cluster/Placing.antt =====
-- Commands of hiredis::happ::cluster while no context is closing: what a step leaves as it was, and where
-- a command is after it.
pub mod Opening
pub mod Connecting
pub mod Sending
pub mod Waiting
pub mod Loading
pub mod Reloading
pub mod Executing
pub mod Timing
pub mod Proceeding
use hiredis_happ.Common.{
  ℕ, ◌+◌, ◌≤◌, ◌≡◌, ◌≢◌, refl, sym, ap, ◌∙◌, subst, arith, Bool, true, false, ◌||◌, ◌==◌, [], ◌∷◌,
  ◌++◌, List, Bytes, Option, none, some, append_assoc, append-nil,
}
use hiredis_happ.Memory.{Cmd, Conn, Memory, Event, Driver, M, ◌>>=◌}
use hiredis_happ.Memory.Laws.{IsLive, >>=-some}
use hiredis_happ.Cmd.Argument.{Picked, pick_argument}
use hiredis_happ.Connection.Queue.{contains}
use hiredis_happ.Cluster.State.{Cluster, Delay}
use hiredis_happ.Cluster.Connections.{find}
use hiredis_happ.Cluster.Pending.{waiting}
use hiredis_happ.Cluster.Timed.{Timed, Timed-same, Timed-trans}

-- No context is disconnecting or being freed.
abbrev pub IsCalm : Driver → Type 0
IsCalm driver =
    (trace : List Event) (context : ℕ)
    → ((driver.context trace context).disconnecting ≡ false)
      × ((driver.context trace context).freeing ≡ false)

-- Every name leads to a connection that is there, objects that were never made are not there, and there
-- is no password.
pub record IsSound (s : Cluster) : Type 0 where
  pub there :
      (name : Bytes) (k : ℕ)
      → find name s.connections ≡ some k
      → (conn : Conn) × (s.mem.conns k ≡ some conn)
  pub unmade : (k : ℕ) → s.mem.next_conn ≤ k → s.mem.conns k ≡ none
  pub no_cmd : (c : ℕ) → s.mem.next_cmd ≤ c → s.mem.cmds c ≡ none
  pub no_auth_fn : s.auth.auth_fn ≡ none
  pub no_password : s.auth.password ≡ []

-- The command is alive, and its buffer holds a command.
pub record IsFilled (m : Memory) (c : ℕ) : Type 0 where
  pub cmd : Cmd
  pub there : m.cmds c ≡ some cmd
  pub bytes : Bytes
  pub filled : cmd.content ≡ some bytes
  pub picked : Option Picked
  pub whole : pick_argument (some bytes) none ≡ some picked

-- From `s` to `t`, the command `c` may change; every other command stays, and what waits on a connection
-- or for the timer keeps its place.
pub record Grows (c : ℕ) (s t : Cluster) : Type 0 where
  pub others : (d : ℕ) → d ≢ c → t.mem.cmds d ≡ s.mem.cmds d
  pub found :
      (name : Bytes) (k : ℕ) → find name s.connections ≡ some k → find name t.connections ≡ some k
  pub conns_grow :
      (k : ℕ) (conn : Conn)
      → s.mem.conns k ≡ some conn
      → (after : Conn) × (l : List ℕ) × (t.mem.conns k ≡ some after)
        × (after.reply_list ≡ conn.reply_list ++ l)
  pub timed : Timed s t
  pub flag_same : t.slot_flag ≡ s.slot_flag
  pub pending_same : t.slot_pending ≡ s.slot_pending
  pub slots_same : t.slots ≡ s.slots
  pub next_same : t.mem.next_cmd ≡ s.mem.next_cmd
  pub sound : IsSound t

-- Where a command is: freed, among those that wait on the connection of some name, or among those that
-- wait for the timer.
pub data Placed (c : ℕ) (s : Cluster) : Type 0 where
  ended : s.mem.cmds c ≡ none → Placed c s
  waits :
      (name : Bytes) (k : ℕ) (conn : Conn)
      → find name s.connections ≡ some k
      → s.mem.conns k ≡ some conn
      → contains c conn.reply_list ≡ true
      → Placed c s
  delayed : contains c (waiting s.timer.timer_pending) ≡ true → Placed c s

-- `x` does not fault at `s`, and what it leaves satisfies `P`.
abbrev pub Runs : {A : Type 0} → ℕ → (A → Cluster → Type 0) → M Cluster A → Cluster → Type 0
Runs c P x s = (a : _) × (t : Cluster) × (x s ≡ some (a, t)) × Grows c s t × P a t

pub Grows-refl : (c : ℕ) (s : Cluster) → IsSound s → Grows c s s
Grows-refl c s sound = record {
  others = λ d h. refl;
  found = λ name k h. h;
  conns_grow = λ k conn h. (conn, [], h, sym (append-nil conn.reply_list));
  timed = Timed-same s s refl refl refl refl;
  flag_same = refl;
  pending_same = refl;
  slots_same = refl;
  next_same = refl;
  sound = sound;
}

pub Grows-trans : {c : ℕ} {s t u : Cluster} → Grows c s t → Grows c t u → Grows c s u
Grows-trans {c} {s} {t} {u} g h = record {
  others = λ d ne. h.others d ne ∙ g.others d ne;
  found = λ name k e. h.found name k (g.found name k e);
  conns_grow = λ k conn e.
      let (mid, l, e₁, q₁) = g.conns_grow k conn e in
      let (last, l', e₂, q₂) = h.conns_grow k mid e₁ in
      (last, l ++ l', e₂, q₂ ∙ ap (λ r. r ++ l') q₁ ∙ append_assoc conn.reply_list l l');
  timed = Timed-trans g.timed h.timed;
  flag_same = h.flag_same ∙ g.flag_same;
  pending_same = h.pending_same ∙ g.pending_same;
  slots_same = h.slots_same ∙ g.slots_same;
  next_same = h.next_same ∙ g.next_same;
  sound = h.sound;
}

pub contains-append : (c : ℕ) (l r : List ℕ) → contains c l ≡ true → contains c (l ++ r) ≡ true
unfolding contains
contains-append c [] r h = cc
contains-append c (x ∷ l) r h = ground (arith, contains-append c l r)

pub contains-last : (c : ℕ) (l : List ℕ) → contains c (l ++ c ∷ []) ≡ true
unfolding contains
contains-last c [] = ground arith
contains-last c (x ∷ l) = ground (arith, contains-last c l)

pub waiting-append : (l r : List Delay) → waiting (l ++ r) ≡ waiting l ++ waiting r
waiting-append [] r = refl
waiting-append (d ∷ l) r = ap (λ t. d.cmd ∷ t) (waiting-append l r)

-- A command that has its place keeps it while another one is dealt with.
pub Placed-Grows : {c d : ℕ} {s t : Cluster} → d ≢ c → Grows c s t → Placed d s → Placed d t
Placed-Grows {c} {d} ne g (ended h) = ended (g.others d ne ∙ h)
Placed-Grows {c} {d} ne g (waits name k conn hf hk hc) =
    let (after, l, e, q) = g.conns_grow k conn hk in
    waits name k after (g.found name k hf) e
      (subst (λ r. contains d r ≡ true) (sym q) (contains-append d conn.reply_list l hc))
Placed-Grows {c} {d} {s} ne g (delayed h) =
    let w = g.timed in
    delayed (
      subst (λ r. contains d (waiting r) ≡ true) (sym w.grows)
        (subst (λ r. contains d r ≡ true) (sym (waiting-append s.timer.timer_pending w.new))
          (contains-append d (waiting s.timer.timer_pending) (waiting w.new) h)))

pub IsFilled-Grows :
    {c d : ℕ} {s t : Cluster} → d ≢ c → Grows c s t → IsFilled s.mem d → IsFilled t.mem d
IsFilled-Grows {c} {d} ne g f = record {
  cmd = f.cmd;
  there = g.others d ne ∙ f.there;
  bytes = f.bytes;
  filled = f.filled;
  picked = f.picked;
  whole = f.whole;
}

-- One step after the other.
pub then-Runs :
    {A B : Type 0} (c : ℕ) {P : A → Cluster → Type 0} {Q : B → Cluster → Type 0} (x : M Cluster A)
    (f : A → M Cluster B) (s : Cluster)
    → Runs c P x s
    → ((a : A) (t : Cluster) → Grows c s t → P a t → Runs c Q (f a) t)
    → Runs c Q (x >>= f) s
then-Runs c x f s (a, t, e, g, p) next =
    let (b, u, e', g', q) = next a t g p in (b, u, >>=-some x f s e ∙ e', Grows-trans g g', q)

-- The cluster with other commands that wait for the table.
abbrev pub with_waiting : Cluster → List ℕ → Cluster
with_waiting s l = record s { slot_pending = l }

pub with_waiting-IsSound : (s : Cluster) (l : List ℕ) → IsSound s → IsSound (with_waiting s l)
with_waiting-IsSound s l sound = record {
  there = sound.there;
  unmade = sound.unmade;
  no_cmd = sound.no_cmd;
  no_auth_fn = sound.no_auth_fn;
  no_password = sound.no_password;
}

pub with_waiting-Placed :
    (s : Cluster) (l : List ℕ) (c : ℕ) → Placed c s → Placed c (with_waiting s l)
with_waiting-Placed s l c (ended h) = ended h
with_waiting-Placed s l c (waits name k conn hf hk hc) = waits name k conn hf hk hc
with_waiting-Placed s l c (delayed h) = delayed h
