-- ===== src/Raw/Settling/Retries.antt =====
-- exec of hiredis::happ::raw with fuel for the retries: as much as the command has sends left is enough.
use hiredis_happ.Common.{
  ℕ, zero, suc, ◌+◌, ◌/◌, ◌≡◌, refl, arith, true, Bool-cases, inl, inr, not, ltb, ◌==◌, ◌||◌,
  Option, none, some,
}
use hiredis_happ.Common.ErrorCode
use hiredis_happ.Cmd
use hiredis_happ.Memory.{Cmd, Driver, M, pure, ◌>>◌, get_cmd}
use hiredis_happ.Memory.Laws.{>>=-some}
use hiredis_happ.Raw.State.{Raw, Delay, lift, is_timer_available, is_timer_active}
use hiredis_happ.Raw.{
  push_pending, exec_over, find_connection, exec_cmd, add_timer_cmd, connection_context, exec_again,
  retry_step, retry_fuel, exec,
}
use hiredis_happ.Raw.Settling.Framing.{Frame-refl}
use hiredis_happ.Raw.Settling.{IsReady, pends, Settles, fail-Settles, then-Settles, read_cmd}
use hiredis_happ.Raw.Settling.Executing.{exec_on-Settles}
use hiredis_happ.Raw.Settling.Opening.{IsOwn, find_connection-Finds}

module _ (driver : Driver) (again : ℕ → Option ℕ → M Raw (Option ℕ)) (c : ℕ) where
  exec_over-Settles :
      (n : ℕ) (retries : (r : Raw) → IsReady c n r → Settles c (again c none) r) (o : Option ℕ)
      (r : Raw)
      → IsReady c (suc n) r
      → IsOwn o r
      → Settles c (exec_over driver again c o) r
  unfolding exec_over
  exec_over-Settles n retries none r ready own =
      fail-Settles c ErrorCode.connection none r (ready.cmd, ready.there)
  exec_over-Settles n retries (some k) r ready own =
      exec_on-Settles driver again c n retries r k ready own

  exec_cmd-worn :
      (r : Raw) (x : Cmd)
      → r.mem.cmds c ≡ some x
      → x.ttl == 0 ≡ true
      → Settles c (exec_cmd driver again c) r
  unfolding exec_cmd
  exec_cmd-worn r x hx worn =
      then-Settles c (lift (get_cmd c)) _ r (read_cmd c r hx) (Frame-refl c r)
        (rw worn (fail-Settles c ErrorCode.ttl none r (x, hx)))

  exec_cmd-Settles :
      (n : ℕ) (retries : (r : Raw) → IsReady c n r → Settles c (again c none) r) (r : Raw)
      → IsReady c (suc n) r
      → Settles c (exec_cmd driver again c) r
  exec_cmd-Settles n retries r ready = elim (Bool-cases (ready.cmd.ttl == 0)) [
    | inl worn ↦ exec_cmd-worn r ready.cmd ready.there worn
    | inr young ↦
        let (o, s, e, own, g, ready') = find_connection-Finds driver again c (suc n) r ready in
        unfold exec_cmd in
        then-Settles c (lift (get_cmd c)) _ r (read_cmd c r ready.there) (Frame-refl c r) (
          rw young (
            then-Settles c (find_connection driver again) _ r e g
              (exec_over-Settles n retries o s ready' own)))
  ]

  wait-Settles :
      (r : Raw)
      → is_timer_active r ≡ true
      → is_timer_available r ≡ true
      → Settles c (add_timer_cmd driver again c >> pure (some c)) r
  unfolding add_timer_cmd push_pending
  wait-Settles r active available =
      let s = record r { timer = push_pending r c } in
      let d : Delay = record {
        sec = r.timer.last_update_sec + r.conf.timer_interval_sec;
        usec = r.timer.last_update_usec + r.conf.timer_interval_usec;
        cmd = c;
      } in
      (
        some c,
        r,
        s,
        >>=-some (add_timer_cmd driver again c) (λ _. pure (some c)) r
            (rw (available, active) refl),
        Frame-refl c r,
        pends d refl refl available refl refl,
      )

  retry-Settles :
      (n : ℕ)
      → ((r : Raw) → IsReady c n r → Settles c (exec_cmd driver again c) r)
      → (r : Raw) → IsReady c n r
      → Settles c (retry_step driver again c none) r
  unfolding retry_step exec_again connection_context
  retry-Settles n executes r ready =
      then-Settles c (lift (get_cmd c)) _ r (read_cmd c r ready.there) (Frame-refl c r)
        (elim (Bool-cases (not (is_timer_active r) || ltb (Cmd.default_ttl / 2) ready.cmd.ttl)) [
          | inl now ↦ rw now (executes r ready)
          | inr late ↦ rw late (elim (Bool-cases (is_timer_available r)) [
            | inl available ↦ rw available (wait-Settles r (ground (arith, late)) available)
            | inr off ↦
                rw off
                  (fail-Settles c ErrorCode.timer_not_available none r (ready.cmd, ready.there))
          ])
        ])

module _ (driver : Driver) (c : ℕ) where
  pub retry_fuel-Settles :
      (n : ℕ)
      → ((r : Raw) → IsReady c n r → Settles c (exec_cmd driver (retry_fuel driver n) c) r)
      → (r : Raw) → IsReady c n r
      → Settles c (retry_fuel driver (suc n) c none) r
  unfolding retry_fuel
  retry_fuel-Settles n executes r ready =
      retry-Settles driver (retry_fuel driver n) c n executes r ready

  pub exec_cmd-fuel :
      (fuel : ℕ) (r : Raw)
      → IsReady c fuel r
      → Settles c (exec_cmd driver (retry_fuel driver fuel) c) r
  exec_cmd-fuel zero r ready =
      exec_cmd-worn driver (retry_fuel driver zero) c r ready.cmd ready.there
        (ground (arith, ready.young))
  exec_cmd-fuel (suc n) r ready =
      exec_cmd-Settles driver (retry_fuel driver (suc n)) c n
        (retry_fuel-Settles n (exec_cmd-fuel n)) r ready

  -- Take a command that is alive and has a buffer that holds a command, a raw object without a
  -- password, and a connection, if there is one, in a consistent state, whose waiting commands are
  -- alive, stand in its list once and are other commands. With fuel for the sends that the command
  -- has left (its ttl), exec does not fault and returns, whatever hiredis answers, with any number
  -- of retries: afterwards the command was freed, or it waits last on the connection, or it waits
  -- last for the timer, from its interval on. The other commands that do not wait on the
  -- connection stay; those that wait on it stay with it, or were freed as it was released; the
  -- other commands that wait for the timer, the timer's time, the configuration and the password
  -- stay.
  pub exec-Settles :
      (fuel : ℕ) (r : Raw) → IsReady c fuel r → Settles c (exec driver fuel (some c)) r
  unfolding exec
  exec-Settles fuel r ready = exec_cmd-fuel fuel r ready
