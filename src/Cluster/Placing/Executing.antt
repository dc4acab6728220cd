-- ===== src/Cluster/Placing/Executing.antt =====
-- exec and retry of hiredis::happ::cluster, with a slot table and without one, while no context is closing.
use hiredis_happ.Common.{
  ℕ, suc, ◌/◌, ◌≤◌, ◌<◌, ◌≡◌, ◌≢◌, ◌⊎◌, refl, sym, ap, ◌∙◌, arith, Bool-cases, inl, inr, not, ltb,
  ◌==◌, ◌||◌, [], ◌∷◌, ◌++◌, Bytes, Option, none, some, ℤ,
}
use hiredis_happ.Common.ErrorCode
use hiredis_happ.Memory.{Driver, update, get_cmd, M, pure}
use hiredis_happ.Memory.Laws.{IsLive, >>=-some, update-here, update-there}
use hiredis_happ.Cmd
use hiredis_happ.HashSlot.{hash_slot}
use hiredis_happ.Slots.{SlotStatus, invalid, updating, usable}
use hiredis_happ.Cluster.State.{
  Cluster, lift, is_timer_available, is_timer_active, set_slot_pending,
}
use hiredis_happ.Cluster.{
  reload_slots, wait_for_slots, exec_routed, exec_by, exec_cmd, connection_context, exec_again,
  retry_step, retry_fuel, choose_slot, exec,
}
use hiredis_happ.Cluster.Timed.{Timed, Timed-same, Timed-trans}
use hiredis_happ.Cluster.Placing.{
  IsCalm, IsSound, IsFilled, Grows, Placed, Placed-Grows, Runs, Grows-refl, with_waiting-Placed,
}
use hiredis_happ.Cluster.Placing.Sending.{IsPlaced, Grows-cmd, fail-Runs}
use hiredis_happ.Cluster.Placing.Waiting.{exec_routed-Runs, pend-Runs, read_cmd}
use hiredis_happ.Cluster.Placing.Reloading.{Formats, reload_slots-Kept}

-- What exec leaves of the command `c`: it has its place, or it waits last for the slot table.
pub record Executed (c : ℕ) (s t : Cluster) : Type 0 where
  pub place :
      (Placed c t × (t.slot_pending ≡ s.slot_pending))
      ⊎ ((t.slot_pending ≡ s.slot_pending ++ c ∷ []) × IsFilled t.mem c)
  pub others : (d : ℕ) → IsLive s.mem d → d ≢ c → t.mem.cmds d ≡ s.mem.cmds d
  pub keeps : (d : ℕ) → d ≢ c → d < s.mem.next_cmd → Placed d s → Placed d t
  pub timed : Timed s t
  pub slots_same : t.slots ≡ s.slots
  pub next_up : s.mem.next_cmd ≤ t.mem.next_cmd
  pub sound : IsSound t

-- `x` does not fault at `s`, and leaves the command so.
abbrev pub Executes : ℕ → M Cluster (Option ℕ) → Cluster → Type 0
Executes c x s = (res : Option ℕ) × (t : Cluster) × (x s ≡ some (res, t)) × Executed c s t

pub Executed-Grows : (c : ℕ) (s t : Cluster) → Grows c s t → Placed c t → Executed c s t
Executed-Grows c s t g p = record {
  place = inl (p, g.pending_same);
  others = λ d live ne. g.others d ne;
  keeps = λ d ne h pd. Placed-Grows ne g pd;
  timed = g.timed;
  slots_same = g.slots_same;
  next_up = omega (arith, g.next_same);
  sound = g.sound;
}

Executed-after : (c : ℕ) (s t v : Cluster) → Grows c s t → Executed c t v → Executed c s v
Executed-after c s t v g q = record {
  place = elim q.place [
    | inl (p, e) ↦ inl (p, e ∙ g.pending_same)
    | inr (e, f) ↦ inr (e ∙ ap (λ l. l ++ c ∷ []) g.pending_same, f)
  ];
  others = λ d live ne. q.others d (live.0, g.others d ne ∙ live.1) ne ∙ g.others d ne;
  keeps = λ d ne h pd. q.keeps d ne (omega (arith, h, g.next_same)) (Placed-Grows ne g pd);
  timed = Timed-trans g.timed q.timed;
  slots_same = q.slots_same ∙ g.slots_same;
  next_up = omega (arith, g.next_same, q.next_up);
  sound = q.sound;
}

Executes-Runs :
    (c : ℕ) (x : M Cluster (Option ℕ)) (s : Cluster)
    → Runs {A = Option ℕ} c (IsPlaced c) x s
    → Executes c x s
Executes-Runs c x s (a, t, e, g, p) = (a, t, e, Executed-Grows c s t g p)

module _ (driver : Driver) (again : ℕ → Option ℕ → M Cluster (Option ℕ)) (calm : IsCalm driver)
    (formats : Formats driver) (c : ℕ) where
  wait-Executes :
      (s : Cluster) → IsSound s → IsFilled s.mem c → Executes c (wait_for_slots driver again c) s
  unfolding wait_for_slots set_slot_pending
  wait-Executes s sound f =
      let s₁ = record s { slot_pending = s.slot_pending ++ c ∷ [] } in
      let sound₁ : IsSound s₁ = record {
        there = sound.there;
        unmade = sound.unmade;
        no_cmd = sound.no_cmd;
        no_auth_fn = sound.no_auth_fn;
        no_password = sound.no_password;
      } in
      let (b, t, e, q) = reload_slots-Kept driver again calm formats s₁ sound₁ in
      (
        some c,
        t,
        >>=-some (reload_slots driver again) (λ _. pure (some c)) s₁ e,
        record {
          place = inr (
            q.pending_same,
            record {
              cmd = f.cmd;
              there = q.others c (f.cmd, f.there) ∙ f.there;
              bytes = f.bytes;
              filled = f.filled;
              picked = f.picked;
              whole = f.whole;
            },
          );
          others = λ d live ne. q.others d live;
          keeps = λ d ne h pd. q.places d h (with_waiting-Placed s (s.slot_pending ++ c ∷ []) d pd);
          timed = Timed-trans (Timed-same s s₁ refl refl refl refl) q.timed;
          slots_same = q.slots_same;
          next_up = q.next_up;
          sound = q.sound;
        },
      )

  exec_by-Executes :
      (slot : ℤ) (flag : SlotStatus) (s : Cluster)
      → IsSound s
      → IsFilled s.mem c
      → Executes c (exec_by driver again c slot flag) s
  unfolding exec_by
  exec_by-Executes slot invalid s sound f = wait-Executes s sound f
  exec_by-Executes slot updating s sound f = wait-Executes s sound f
  exec_by-Executes slot usable s sound f =
      Executes-Runs c (exec_routed driver again c slot) s
        (exec_routed-Runs driver again calm c slot s sound f)

  pub exec_cmd-Executes :
      (s : Cluster) → IsSound s → IsFilled s.mem c → Executes c (exec_cmd driver again c) s
  unfolding exec_cmd
  exec_cmd-Executes s sound f = elim (Bool-cases (f.cmd.ttl == 0)) [
    | inl over ↦
        let (a, t, e, g, p) = fail-Runs c ErrorCode.ttl none s sound (f.cmd, f.there) in
        (
          a,
          t,
          >>=-some (lift (get_cmd c)) _ s (read_cmd c s f.there) ∙ rw over e,
          Executed-Grows c s t g p,
        )
    | inr young ↦
        let (a, t, e, q) = exec_by-Executes f.cmd.slot s.slot_flag s sound f in
        (a, t, >>=-some (lift (get_cmd c)) _ s (read_cmd c s f.there) ∙ rw young e, q)
  ]

  pub retry_step-Executes :
      (s : Cluster) → IsSound s → IsFilled s.mem c → Executes c (retry_step driver again c none) s
  unfolding retry_step exec_again connection_context
  retry_step-Executes s sound f =
      let read = >>=-some (lift (get_cmd c)) _ s (read_cmd c s f.there) in
      elim (Bool-cases (not (is_timer_active s) || ltb (Cmd.default_ttl / 2) f.cmd.ttl)) [
        | inl now ↦ let (a, t, e, q) = exec_cmd-Executes s sound f in (a, t, read ∙ rw now e, q)
        | inr late ↦ elim (Bool-cases (is_timer_available s)) [
          | inr off ↦
              let (a, t, e, g, p) =
                fail-Runs c ErrorCode.timer_not_available none s sound (f.cmd, f.there) in
              (a, t, read ∙ rw (late, off) e, Executed-Grows c s t g p)
          | inl on ↦
              let (a, t, e, g, p) =
                pend-Runs driver again calm c s sound (ground (arith, late)) on in
              (a, t, read ∙ rw (late, on) e, Executed-Grows c s t g p)
        ]
      ]

module _ (driver : Driver) (calm : IsCalm driver) (formats : Formats driver) (fuel : ℕ)
    (c : ℕ) where
  pub retry-Executes :
      (s : Cluster)
      → IsSound s
      → IsFilled s.mem c
      → Executes c (retry_fuel driver (suc fuel) c none) s
  unfolding retry_fuel
  retry-Executes s sound f =
      retry_step-Executes driver (retry_fuel driver fuel) calm formats c s sound f

  -- The command with the slot of a key.
  choose_slot-Runs :
      (key : Bytes) (s : Cluster)
      → IsSound s
      → IsFilled s.mem c
      → Runs {A = Unit {0}} c (λ _ t. IsFilled t.mem c) (choose_slot driver key c) s
  unfolding choose_slot
  choose_slot-Runs [] s sound f = (tt, s, refl, Grows-refl c s sound, f)
  choose_slot-Runs (b ∷ bs) s sound f =
      let y = record (f.cmd) { slot = hash_slot (b ∷ bs) } in
      let s₁ = record s { mem = record (s.mem) { cmds = update s.mem.cmds c (some y) } } in
      (
        tt,
        s₁,
        >>=-some (lift (get_cmd c)) _ s (read_cmd c s f.there),
        Grows-cmd c s s₁.mem sound (f.cmd, f.there)
            (λ d ne. update-there s.mem.cmds c d (some y) (λ q. ne (sym q))) refl refl refl,
        record {
          cmd = y;
          there = update-here s.mem.cmds c (some y);
          bytes = f.bytes;
          filled = f.filled;
          picked = f.picked;
          whole = f.whole;
        },
      )

  -- Take a cluster without a password where every name of the map leads to a connection that is
  -- there, and the numbers that were not given out yet are free, and let no context be closing and
  -- hiredis give a command where it formats CLUSTER SLOTS. exec of a command that is alive and has
  -- a buffer that holds a command does not fault and returns, with any key, with a slot table,
  -- without one and while it is loaded. Afterwards the command was freed, or waits on the
  -- connection of some name, or waits for the timer, or it waits last for the slot table; every
  -- other command that was alive and the table stay as they were. Another command that had such a
  -- place keeps it; commands are handed to the timer only behind those that wait there, with the
  -- interval from the time of the timer on; and that time and the configuration stay.
  pub exec-Executes :
      (key : Bytes) (s : Cluster)
      → IsSound s
      → IsFilled s.mem c
      → Executes c (exec driver fuel key (some c)) s
  unfolding exec
  exec-Executes key s sound f =
      let (u, t, e, g, f') = choose_slot-Runs key s sound f in
      let (res, v, e', q) =
        exec_cmd-Executes driver (retry_fuel driver fuel) calm formats c t g.sound f' in
      (res, v, >>=-some (choose_slot driver key c) _ s e ∙ e', Executed-after c s t v g q)
