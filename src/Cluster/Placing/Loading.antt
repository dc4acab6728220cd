-- ===== src/Cluster/Placing/Loading.antt =====
-- on_reply_update_slot of hiredis::happ::cluster with a table that can be read: every command that waited
-- for it is dealt with.
use hiredis_happ.Common.{
  ℕ, suc, ◌≡◌, ◌≢◌, refl, ap, ◌∙◌, [], ◌∷◌, List, All, length, Option, none, some,
}
use hiredis_happ.Memory.{Driver, Reply, fault}
use hiredis_happ.Memory.Laws.{Distinct, All-flip, >>=-some}
use hiredis_happ.Slots.{usable, Table, Peer, read_slots}
use hiredis_happ.Cluster.State.{Cluster, set_slot_pending}
use hiredis_happ.Cluster.{retry_fuel}
use hiredis_happ.Cluster.Events.{
  wait_round, run_waiting, set_slots, update_by, on_reply_update_slot,
}
use hiredis_happ.Cluster.Placing.{
  IsCalm, IsSound, IsFilled, Grows, Placed, Runs, Placed-Grows, IsFilled-Grows, with_waiting,
  with_waiting-IsSound, with_waiting-Placed,
}
use hiredis_happ.Cluster.Placing.Sending.{IsPlaced}
use hiredis_happ.Cluster.Placing.Waiting.{retry_step-Runs}

-- After the loop over the waiting commands `l`, begun at `s`.
pub record Loaded (l : List ℕ) (s t : Cluster) : Type 0 where
  pub none_waits : t.slot_pending ≡ []
  pub flag : t.slot_flag ≡ usable
  pub slots_same : t.slots ≡ s.slots
  pub placed : All (λ c. Placed c t) l
  pub keeps : (d : ℕ) → All (λ c. d ≢ c) l → Placed d s → Placed d t

still-IsFilled :
    (c : ℕ) (s t : Cluster) (l : List ℕ)
    → Grows c s t
    → All (λ d. d ≢ c) l
    → All (IsFilled s.mem) l
    → All (IsFilled t.mem) l
still-IsFilled c s t [] g other f = tt
still-IsFilled c s t (d ∷ l) g other f =
    (IsFilled-Grows other.0 g f.0, still-IsFilled c s t l g other.1 f.1)

module _ (driver : Driver) (calm : IsCalm driver) (fuel : ℕ) where
  retry-Runs :
      (c : ℕ) (s : Cluster)
      → IsSound s
      → s.slot_flag ≡ usable
      → IsFilled s.mem c
      → Runs {A = Option ℕ} c (IsPlaced c) (retry_fuel driver (suc fuel) c none) s
  unfolding retry_fuel
  retry-Runs c s sound flag f =
      retry_step-Runs driver (retry_fuel driver fuel) calm c s sound flag f

  run_waiting-Loaded :
      (l : List ℕ) (s : Cluster)
      → s.slot_pending ≡ l
      → s.slot_flag ≡ usable
      → IsSound s
      → All (IsFilled s.mem) l
      → Distinct l
      → (t : Cluster) × (run_waiting driver (suc fuel) (suc (length l)) s ≡ some (tt, t))
        × Loaded l s t
  unfolding run_waiting wait_round set_slot_pending
  run_waiting-Loaded [] s hl flag sound filled distinct = (
    s,
    ap (λ o. wait_round driver (suc fuel) fault o s) hl,
    record { none_waits = hl; flag = flag; slots_same = refl; placed = tt; keeps = λ d h p. p },
  )
  run_waiting-Loaded (c ∷ l) s hl flag sound filled distinct =
      let s₁ = with_waiting s l in
      let (a, t, e, g, p) = retry-Runs c s₁ (with_waiting-IsSound s l sound) flag filled.0 in
      let (u, e', q) =
        run_waiting-Loaded l t g.pending_same (g.flag_same ∙ flag) g.sound
          (still-IsFilled c s₁ t l g (All-flip c l distinct.0) filled.1) distinct.1 in
      (
        u,
        ap (λ o. wait_round driver (suc fuel) (run_waiting driver (suc fuel) (suc (length l))) o s)
              hl
            ∙ >>=-some (retry_fuel driver (suc fuel) c none) _ s₁ e
            ∙ e',
        record {
          none_waits = q.none_waits;
          flag = q.flag;
          slots_same = q.slots_same ∙ g.slots_same;
          placed = (q.keeps c distinct.0 p, q.placed);
          keeps = λ d h pd. q.keeps d h.1 (Placed-Grows h.0 g (with_waiting-Placed s l d pd));
        },
      )

  -- Take a cluster without a password where every name of the map leads to a connection that is
  -- there, and the numbers that were not given out yet are free, and let no context be closing. On
  -- a reply to CLUSTER SLOTS from which a table can be read, where the commands that wait for it
  -- are alive, distinct and have buffers that hold a command, the handler does not fault, and its
  -- loop ends after one round for each of them: the table is the one of the reply and is usable,
  -- no command waits for it any more, and each that did was freed, or waits on the connection of
  -- some name, or waits for the timer. Another command that had such a place keeps it.
  pub on_reply_update_slot-Loaded :
      (c : ℕ) (context : Option ℕ) (peer : Option Peer) (r : Option Reply) (table : Table)
      (s : Cluster)
      → read_slots peer r ≡ some table
      → IsSound s
      → All (IsFilled s.mem) s.slot_pending
      → Distinct s.slot_pending
      → (t : Cluster) × (on_reply_update_slot driver
            (suc fuel)
            (suc (length s.slot_pending))
            c
            context
            peer
            r
            s
          ≡ some (tt, t))
        × Loaded s.slot_pending (record s { slot_flag = usable; slots = table }) t
  unfolding on_reply_update_slot update_by set_slots
  on_reply_update_slot-Loaded c context peer r table s hr sound filled distinct =
      let rounds = suc (length s.slot_pending) in
      let s₁ = record s { slot_flag = usable; slots = table } in
      let (t, e, q) =
        run_waiting-Loaded s.slot_pending s₁ refl refl
          (record {
            there = sound.there;
            unmade = sound.unmade;
            no_cmd = sound.no_cmd;
            no_auth_fn = sound.no_auth_fn;
            no_password = sound.no_password;
          })
          filled distinct in
      (t, ap (λ o. update_by driver (suc fuel) rounds c context r o s) hr ∙ e, q)
