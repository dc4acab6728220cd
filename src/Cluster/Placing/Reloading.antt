-- ===== src/Cluster/Placing/Reloading.antt =====
-- reload_slots of hiredis::happ::cluster, while no context is closing.
use hiredis_happ.Common.{
  ℕ, suc, ◌≤◌, ◌<◌, ◌≡◌, ◌≢◌, refl, sym, ◌∙◌, arith, Bool, true, false, Bool-cases, inl, inr,
  is_pos, if◌then◌else◌, [], Bytes, Option, none, some, negsuc,
}
use hiredis_happ.Memory.{Cmd, Conn, Driver, reply_update_slot, update, M, pure, ◌>>=◌, ◌>>◌}
use hiredis_happ.Memory.Laws.{IsLive, >>=-some, update-here}
use hiredis_happ.Cmd
use hiredis_happ.Cmd.Creation.{empty_cmd, create-none, create-some, vformat_lem}
use hiredis_happ.Cmd.Argument.{Picked, pick_argument}
use hiredis_happ.Slots.{SlotStatus, invalid, updating, usable}
use hiredis_happ.Cluster.State.{Cluster, lift, create_cmd, destroy_cmd, set_flag}
use hiredis_happ.Cluster.{
  cluster_slots, mark_updating, find_master, reload_by, reload_over, reload_random, reload_from,
  reload_slots,
}
use hiredis_happ.Cluster.Connections.{find}
use hiredis_happ.Cluster.Connect.{find_connection}
use hiredis_happ.Cluster.Send.{exec_on}
use hiredis_happ.Cluster.Pending.{lift-some, destroy_cmd_lem}
use hiredis_happ.Cluster.Timed.{Timed, Timed-same, Timed-trans}
use hiredis_happ.Cluster.Placing.{
  IsCalm, IsSound, Grows, Placed, ended, waits, delayed, Placed-Grows,
}
use hiredis_happ.Cluster.Placing.Opening.{Found, find_master-Runs}
use hiredis_happ.Cluster.Placing.Connecting.{find_connection-Runs}
use hiredis_happ.Cluster.Placing.Sending.{Grows-cmd, exec_on-Runs}

-- Where hiredis formats CLUSTER SLOTS, it gives a buffer that holds a command.
abbrev pub Formats : Driver → Type 0
Formats driver =
    is_pos (driver.format cluster_slots []).ret ≡ true
    → (bytes : Bytes) × (picked : Option Picked) × ((driver.format cluster_slots []).out
        ≡ some bytes)
      × (pick_argument (some bytes) none ≡ some picked)

-- From `s` to `t`, the commands that are alive stay, and so does the list of those that wait for the table.
pub record Kept (s t : Cluster) : Type 0 where
  pub others : (d : ℕ) → IsLive s.mem d → t.mem.cmds d ≡ s.mem.cmds d
  pub pending_same : t.slot_pending ≡ s.slot_pending
  pub slots_same : t.slots ≡ s.slots
  pub next_up : s.mem.next_cmd ≤ t.mem.next_cmd
  pub timed : Timed s t
  pub places : (d : ℕ) → d < s.mem.next_cmd → Placed d s → Placed d t
  pub sound : IsSound t

not_next : (s : Cluster) (d : ℕ) → IsSound s → IsLive s.mem d → s.mem.next_cmd ≢ d
not_next s d sound (x, h) e = let old = sound.no_cmd d (omega (arith, e)) in cc (h, old)

Kept-Grows : {s t : Cluster} → IsSound s → Grows s.mem.next_cmd s t → Kept s t
Kept-Grows {s} sound g = record {
  others = λ d live. g.others d (λ e. not_next s d sound live (sym e));
  pending_same = g.pending_same;
  slots_same = g.slots_same;
  next_up = omega (arith, g.next_same);
  timed = g.timed;
  places = λ d h p. Placed-Grows (λ e. omega (arith, e, h)) g p;
  sound = g.sound;
}

Kept-trans : {s t u : Cluster} → Kept s t → Kept t u → Kept s u
Kept-trans g h = record {
  others = λ d live. h.others d (live.0, g.others d live ∙ live.1) ∙ g.others d live;
  pending_same = h.pending_same ∙ g.pending_same;
  slots_same = h.slots_same ∙ g.slots_same;
  next_up = omega (arith, g.next_up, h.next_up);
  timed = Timed-trans g.timed h.timed;
  places = λ d q p. h.places d (omega (arith, q, g.next_up)) (g.places d q p);
  sound = h.sound;
}

-- Nothing faults, and the commands stay.
abbrev pub Keeps : {A : Type 0} → M Cluster A → Cluster → Type 0
Keeps x s = (a : _) × (t : Cluster) × (x s ≡ some (a, t)) × Kept s t

-- The command CLUSTER SLOTS, before it is formatted.
abbrev new_cmd : Cmd
new_cmd = empty_cmd reply_update_slot 0

abbrev with_cmd : Cluster → Cmd → Cluster
with_cmd s x = record s {
  mem = record (s.mem) {
    cmds = update (update s.mem.cmds s.mem.next_cmd (some new_cmd)) s.mem.next_cmd (some x);
    next_cmd = suc s.mem.next_cmd;
  };
}

with_cmd-IsSound : (s : Cluster) (x : Cmd) → IsSound s → IsSound (with_cmd s x)
with_cmd-IsSound s x sound = record {
  there = sound.there;
  unmade = sound.unmade;
  no_cmd = λ c h. ground (arith, sound.no_cmd c (omega (arith, h)));
  no_auth_fn = sound.no_auth_fn;
  no_password = sound.no_password;
}

with_cmd-Placed :
    (s : Cluster) (x : Cmd) (d : ℕ) → d < s.mem.next_cmd → Placed d s → Placed d (with_cmd s x)
with_cmd-Placed s x d h (ended e) = ended (ground (arith, e, h))
with_cmd-Placed s x d h (waits name k conn hf hk hc) = waits name k conn hf hk hc
with_cmd-Placed s x d h (delayed e) = delayed e

with_cmd-Kept : (s : Cluster) (x : Cmd) → IsSound s → Kept s (with_cmd s x)
with_cmd-Kept s x sound = record {
  others = λ d live. let ne = not_next s d sound live in ground (arith, ne);
  pending_same = refl;
  slots_same = refl;
  next_up = omega arith;
  timed = Timed-same s (with_cmd s x) refl refl refl refl;
  places = λ d h p. with_cmd-Placed s x d h p;
  sound = with_cmd-IsSound s x sound;
}

Kept-after :
    (s : Cluster) (x : Cmd) (t : Cluster)
    → IsSound s
    → Grows s.mem.next_cmd (with_cmd s x) t
    → Kept s t
Kept-after s x t sound g = record {
  others = λ d live.
      g.others d (λ e. not_next s d sound live (sym e)) ∙ (with_cmd-Kept s x sound).others d live;
  pending_same = g.pending_same;
  slots_same = g.slots_same;
  next_up = omega (arith, g.next_same);
  timed = Timed-trans (with_cmd-Kept s x sound).timed g.timed;
  places = λ d h p. Placed-Grows (λ e. omega (arith, e, h)) g (with_cmd-Placed s x d h p);
  sound = g.sound;
}

Kept-refl : (s : Cluster) → IsSound s → Kept s s
Kept-refl s sound = record {
  others = λ d h. refl;
  pending_same = refl;
  slots_same = refl;
  next_up = omega arith;
  timed = Timed-same s s refl refl refl refl;
  places = λ d h p. p;
  sound = sound;
}

updating-Placed : (s : Cluster) (d : ℕ) → Placed d s → Placed d (record s { slot_flag = updating })
updating-Placed s d (ended e) = ended e
updating-Placed s d (waits name k conn hf hk hc) = waits name k conn hf hk hc
updating-Placed s d (delayed e) = delayed e

mark_updating-Kept :
    (a : Option ℕ) (s : Cluster)
    → IsSound s
    → (t : Cluster) × (mark_updating a s ≡ some (true, t)) × Kept s t
unfolding mark_updating set_flag
mark_updating-Kept none s sound = (s, refl, Kept-refl s sound)
mark_updating-Kept (some c) s sound = (
  record s { slot_flag = updating },
  refl,
  record {
    others = λ d h. refl;
    pending_same = refl;
    slots_same = refl;
    next_up = omega arith;
    timed = Timed-same s _ refl refl refl refl;
    places = λ d h p. updating-Placed s d p;
    sound = record {
      there = sound.there;
      unmade = sound.unmade;
      no_cmd = sound.no_cmd;
      no_auth_fn = sound.no_auth_fn;
      no_password = sound.no_password;
    };
  },
)

module _ (driver : Driver) (again : ℕ → Option ℕ → M Cluster (Option ℕ)) (calm : IsCalm driver)
    (formats : Formats driver) where
  -- The command after `format`.
  abbrev formatted : Cmd
  formatted = record new_cmd {
    raw_len = Cmd.raw_length (driver.format cluster_slots []).ret;
    content = (driver.format cluster_slots []).out;
  }

  sent-Kept :
      (name : Bytes) (k : ℕ) (conn : Conn) (s : Cluster)
      → IsSound s
      → find name s.connections ≡ some k
      → s.mem.conns k ≡ some conn
      → is_pos (driver.format cluster_slots []).ret ≡ true
      → (u : Cluster) × ((exec_on driver again (some k) s.mem.next_cmd >>= λ a. mark_updating a)
            (with_cmd s formatted)
          ≡ some (true, u))
        × Kept s u
  sent-Kept name k conn s sound hf hk good =
      let d = s.mem.next_cmd in
      let s₁ = with_cmd s formatted in
      let (bytes, picked, filled, whole) = formats good in
      let (a, t, e, g, p) =
        exec_on-Runs driver again calm d name k conn s₁ (with_cmd-IsSound s formatted sound) hf hk
          (record {
            cmd = formatted;
            there = update-here (update s.mem.cmds d (some new_cmd)) d (some formatted);
            bytes = bytes;
            filled = filled;
            picked = picked;
            whole = whole;
          }) in
      let (u, e', h) = mark_updating-Kept a t g.sound in
      (
        u,
        >>=-some (exec_on driver again (some k) d) (λ a. mark_updating a) s₁ e ∙ e',
        Kept-trans (Kept-after s formatted t sound g) h,
      )

  dropped-Kept :
      (s : Cluster)
      → IsSound s
      → (u : Cluster) × (destroy_cmd s.mem.next_cmd (with_cmd s formatted) ≡ some (tt, u))
        × Kept s u
  dropped-Kept s sound =
      let d = s.mem.next_cmd in
      let s₁ = with_cmd s formatted in
      let there : s₁.mem.cmds d ≡ some formatted =
        update-here (update s.mem.cmds d (some new_cmd)) d (some formatted) in
      let (n, e, a) = destroy_cmd_lem d formatted s₁ there in
      (
        record s₁ { mem = n },
        e,
        Kept-after s formatted (record s₁ { mem = n }) sound
            (Grows-cmd d s₁ n (with_cmd-IsSound s formatted sound) (formatted, there)
              (λ c ne. a.other_cmds c (λ q. ne (sym q))) a.conns_same a.next_conn_same
              a.next_cmd_same),
      )

  -- The heap with the new command.
  abbrev created : Cluster → Cluster
  created s = record s {
    mem = record (s.mem) {
      cmds = update s.mem.cmds s.mem.next_cmd (some new_cmd);
      next_cmd = suc s.mem.next_cmd;
    };
  }

  format_lem :
      (k : ℕ) (s : Cluster)
      → reload_by driver again k (some s.mem.next_cmd) (created s)
        ≡ (if is_pos (driver.format cluster_slots []).ret
              then (exec_on driver again (some k) s.mem.next_cmd >>= λ a. mark_updating a)
              else (destroy_cmd s.mem.next_cmd >> pure false))
            (with_cmd s formatted)
  unfolding reload_by
  format_lem k s =
      let d = s.mem.next_cmd in
      >>=-some (lift (Cmd.vformat driver d cluster_slots [])) _ (created s) (
        lift-some (Cmd.vformat driver d cluster_slots []) (created s) (
          vformat_lem driver d cluster_slots [] (created s).mem new_cmd
            (update-here s.mem.cmds d (some new_cmd))))

  reload_by-Kept :
      (name : Bytes) (k : ℕ) (conn : Conn) (s : Cluster)
      → IsSound s
      → find name s.connections ≡ some k
      → s.mem.conns k ≡ some conn
      → (b : Bool) × (t : Cluster) × (reload_by driver again k (some s.mem.next_cmd) (created s)
          ≡ some (b, t))
        × Kept s t
  reload_by-Kept name k conn s sound hf hk =
      elim (Bool-cases (is_pos (driver.format cluster_slots []).ret)) [
        | inl good ↦
            let (u, e, h) = sent-Kept name k conn s sound hf hk good in
            (true, u, format_lem k s ∙ rw good e, h)
        | inr bad ↦
            let (u, e, h) = dropped-Kept s sound in
            (
              false,
              u,
              format_lem k s
                  ∙ rw bad (
                      >>=-some (destroy_cmd s.mem.next_cmd) (λ _. pure false) (with_cmd s formatted)
                        e),
              h,
            )
      ]

  reload_over-Kept :
      (name : Bytes) (r s : Cluster) (o : Option ℕ)
      → IsSound s
      → Found name r o s
      → Keeps (reload_over driver again o) s
  unfolding reload_over create_cmd reload_by
  reload_over-Kept name r s none sound found = (false, s, refl, Kept-refl s sound)
  reload_over-Kept name r s (some k) sound (same, hf, conn, hk) =
      let size = s.conf.cmd_buffer_size in
      let make = Cmd.create driver reply_update_slot 0 size in
      elim (Bool-cases (driver.malloc s.mem.trace (Cmd.alloc_size size))) [
        | inr full ↦ (
          false,
          s,
          >>=-some (lift make) (reload_by driver again k) s
              (lift-some make s (create-none driver reply_update_slot 0 size s.mem full)),
          Kept-refl s sound,
        )
        | inl fits ↦
            let (b, t, e, h) = reload_by-Kept name k conn s sound hf hk in
            (
              b,
              t,
              >>=-some (lift make) (reload_by driver again k) s
                    (lift-some make s (create-some driver reply_update_slot 0 size s.mem fits))
                  ∙ e,
              h,
            )
      ]

  reload_random-Kept : (s : Cluster) → IsSound s → Keeps (reload_random driver again) s
  unfolding reload_random
  reload_random-Kept s sound =
      let d = s.mem.next_cmd in
      let (key, t, e, g, same) = find_master-Runs driver d (negsuc 0) s sound in
      let (o, u, e', h, found) = find_connection-Runs driver again t.mem.next_cmd key t g.sound in
      let (b, v, e'', q) = reload_over-Kept key.name t u o h.sound found in
      (
        b,
        v,
        >>=-some (find_master driver (negsuc 0)) _ s e
            ∙ >>=-some (find_connection driver again key) _ t e'
            ∙ e'',
        Kept-trans (Kept-Grows sound g) (Kept-trans (Kept-Grows g.sound h) q),
      )

  reload_from-Kept :
      (flag : SlotStatus) (s : Cluster) → IsSound s → Keeps (reload_from driver again flag) s
  unfolding reload_from
  reload_from-Kept updating s sound = (false, s, refl, Kept-refl s sound)
  reload_from-Kept invalid s sound = reload_random-Kept s sound
  reload_from-Kept usable s sound = reload_random-Kept s sound

  -- reload_slots does not fault, and the commands that were there stay.
  pub reload_slots-Kept : (s : Cluster) → IsSound s → Keeps (reload_slots driver again) s
  unfolding reload_slots
  reload_slots-Kept s sound = reload_from-Kept s.slot_flag s sound
