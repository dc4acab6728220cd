-- ===== src/Cluster/Placing/Waiting.antt =====
-- The commands that wait for the slot table of hiredis::happ::cluster, once it was loaded.
use hiredis_happ.Common.{
  ℕ, ◌/◌, ◌+◌, ◌≡◌, refl, sym, ap, ◌∙◌, subst, arith, true, Bool-cases, inl, inr, not, ltb, ◌==◌,
  ◌||◌, [], ◌∷◌, Bytes, Option, none, some, ℤ, append-nil,
}
use hiredis_happ.Common.ErrorCode
use hiredis_happ.Name.{Key}
use hiredis_happ.Memory.{Cmd, Memory, Driver, get_cmd, M, pure, ◌>>◌}
use hiredis_happ.Memory.Laws.{>>=-some, get_cmd_lem}
use hiredis_happ.Cmd
use hiredis_happ.Slots.{usable}
use hiredis_happ.Cluster.State.{Cluster, Delay, lift, is_timer_available, is_timer_active}
use hiredis_happ.Cluster.{
  push_pending, exec_by, find_master, exec_over, exec_routed, exec_cmd, add_timer_cmd,
  connection_context, exec_again, retry_step,
}
use hiredis_happ.Cluster.Connect.{find_connection}
use hiredis_happ.Cluster.Pending.{waiting, lift-some}
use hiredis_happ.Cluster.Placing.{
  IsCalm, IsSound, IsFilled, delayed, Runs, contains-last, waiting-append, then-Runs,
}
use hiredis_happ.Cluster.Placing.Opening.{Found, find_master-Runs}
use hiredis_happ.Cluster.Placing.Connecting.{find_connection-Runs}
use hiredis_happ.Cluster.Placing.Sending.{IsPlaced, fail-Runs, exec_on-Runs}
use hiredis_happ.Connection.Queue.{contains}

pub IsFilled-same : (c : ℕ) (m n : Memory) → n.cmds ≡ m.cmds → IsFilled m c → IsFilled n c
IsFilled-same c m n same f = record {
  cmd = f.cmd;
  there = ap (λ g. g c) same ∙ f.there;
  bytes = f.bytes;
  filled = f.filled;
  picked = f.picked;
  whole = f.whole;
}

pub read_cmd :
    (c : ℕ) (s : Cluster) {x : Cmd} → s.mem.cmds c ≡ some x → lift (get_cmd c) s ≡ some (x, s)
read_cmd c s h = lift-some (get_cmd c) s (get_cmd_lem c s.mem h)

module _ (driver : Driver) (again : ℕ → Option ℕ → M Cluster (Option ℕ)) (calm : IsCalm driver)
    (c : ℕ) where
  exec_over-Runs :
      (name : Bytes) (r s : Cluster) (o : Option ℕ)
      → IsSound s
      → IsFilled r.mem c
      → Found name r o s
      → Runs {A = Option ℕ} c (IsPlaced c) (exec_over driver again c o) s
  unfolding exec_over
  exec_over-Runs name r s none sound f same =
      let f' = IsFilled-same c r.mem s.mem same f in
      fail-Runs c ErrorCode.connection none s sound (f'.cmd, f'.there)
  exec_over-Runs name r s (some k) sound f (same, hf, conn, hk) =
      exec_on-Runs driver again calm c name k conn s sound hf hk
        (IsFilled-same c r.mem s.mem same f)

  pub exec_routed-Runs :
      (slot : ℤ) (s : Cluster)
      → IsSound s
      → IsFilled s.mem c
      → Runs {A = Option ℕ} c (IsPlaced c) (exec_routed driver again c slot) s
  unfolding exec_routed
  exec_routed-Runs slot s sound f =
      then-Runs {A = Key} c (find_master driver slot) _ s (find_master-Runs driver c slot s sound)
        (λ key t g same.
          then-Runs {A = Option ℕ} c (find_connection driver again key) _ t
            (find_connection-Runs driver again c key t g.sound)
            (λ o u h found.
              exec_over-Runs key.name t u o h.sound (IsFilled-same c s.mem t.mem same f) found))

  -- With a table, exec sends the command to a master, or fails it.
  pub exec_cmd-Runs :
      (s : Cluster)
      → IsSound s
      → s.slot_flag ≡ usable
      → IsFilled s.mem c
      → Runs {A = Option ℕ} c (IsPlaced c) (exec_cmd driver again c) s
  unfolding exec_cmd exec_by
  exec_cmd-Runs s sound flag f = elim (Bool-cases (f.cmd.ttl == 0)) [
    | inl over ↦
        let (a, t, e, g, p) = fail-Runs c ErrorCode.ttl none s sound (f.cmd, f.there) in
        (a, t, >>=-some (lift (get_cmd c)) _ s (read_cmd c s f.there) ∙ rw over e, g, p)
    | inr young ↦
        let (a, t, e, g, p) = exec_routed-Runs f.cmd.slot s sound f in
        (
          a,
          t,
          >>=-some (lift (get_cmd c)) _ s (read_cmd c s f.there)
              ∙ rw young (ap (λ o. exec_by driver again c f.cmd.slot o s) flag ∙ e),
          g,
          p,
        )
  ]

  pend : Cluster → Cluster
  pend s = record s { timer = push_pending s c }

  pub pend-Runs :
      (s : Cluster)
      → IsSound s
      → is_timer_active s ≡ true
      → is_timer_available s ≡ true
      → Runs {A = Option ℕ} c (IsPlaced c) (add_timer_cmd driver again c >> pure (some c)) s
  unfolding add_timer_cmd push_pending pend
  pend-Runs s sound active available =
      let d : Delay = record {
        sec = s.timer.last_update_sec + s.conf.timer_interval_sec;
        usec = s.timer.last_update_usec + s.conf.timer_interval_usec;
        cmd = c;
      } in
      (
        some c,
        pend s,
        >>=-some (add_timer_cmd driver again c) (λ _. pure (some c)) s
            (rw (available, active) refl),
        record {
          others = λ d h. refl;
          found = λ name k h. h;
          conns_grow = λ k conn h. (conn, [], h, sym (append-nil conn.reply_list));
          timed = record {
            new = d ∷ [];
            grows = refl;
            pushed = (record { available = available; sec_after = refl; usec_after = refl }, tt);
            sec_same = refl;
            usec_same = refl;
            conf_same = refl;
          };
          flag_same = refl;
          pending_same = refl;
          slots_same = refl;
          next_same = refl;
          sound = record {
            there = sound.there;
            unmade = sound.unmade;
            no_cmd = sound.no_cmd;
            no_auth_fn = sound.no_auth_fn;
            no_password = sound.no_password;
          };
        },
        delayed (
            subst (λ l. contains c l ≡ true) (sym (waiting-append s.timer.timer_pending (d ∷ [])))
              (contains-last c (waiting s.timer.timer_pending))),
      )

  -- With a table, a retry sends the command, fails it, or leaves it to the timer.
  pub retry_step-Runs :
      (s : Cluster)
      → IsSound s
      → s.slot_flag ≡ usable
      → IsFilled s.mem c
      → Runs {A = Option ℕ} c (IsPlaced c) (retry_step driver again c none) s
  unfolding retry_step exec_again connection_context
  retry_step-Runs s sound flag f =
      let read = read_cmd c s f.there in
      elim (Bool-cases (not (is_timer_active s) || ltb (Cmd.default_ttl / 2) f.cmd.ttl)) [
        | inl now ↦
            let (a, t, e, g, p) = exec_cmd-Runs s sound flag f in
            (a, t, >>=-some (lift (get_cmd c)) _ s read ∙ rw now e, g, p)
        | inr late ↦ elim (Bool-cases (is_timer_available s)) [
          | inr off ↦
              let (a, t, e, g, p) =
                fail-Runs c ErrorCode.timer_not_available none s sound (f.cmd, f.there) in
              (a, t, >>=-some (lift (get_cmd c)) _ s read ∙ rw (late, off) e, g, p)
          | inl on ↦
              let (a, t, e, g, p) = pend-Runs s sound (ground (arith, late)) on in
              (a, t, >>=-some (lift (get_cmd c)) _ s read ∙ rw (late, on) e, g, p)
        ]
      ]
