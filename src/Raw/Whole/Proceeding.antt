-- ===== src/Raw/Whole/Proceeding.antt =====
-- proc of hiredis::happ::raw: its loop ends, and the whole state is kept.
use hiredis_happ.Common.{
  ℕ, suc, ◌≤◌, ◌≡◌, refl, sym, ap, ◌∙◌, subst, Bool, true, false, Bool-cases, inl, inr, leb, ◌==◌,
  not, ◌&&◌, if◌then◌else◌, [], List, length, Option, none, some, append-nil,
}
use hiredis_happ.Common.ErrorCode
use hiredis_happ.Cmd
use hiredis_happ.Memory.{Conn, Driver, Event, pure, ◌>>=◌, ◌>>◌, get_conn}
use hiredis_happ.Memory.Laws.{>>=-some}
use hiredis_happ.Raw.State.{Raw, lift}
use hiredis_happ.Raw.Release.{release_connection}
use hiredis_happ.Raw.Timers.{run_pending, assert_idle, expire_conn, check_timeout, proc}
use hiredis_happ.Raw.Settling.{read_conn}
use hiredis_happ.Raw.Whole.{IsOpen, Linked, IsWhole}
use hiredis_happ.Raw.Whole.Releasing.{release-Released}
use hiredis_happ.Raw.Whole.Timers.{FirstLater, run_pending-Ran}

-- No context is in a callback of hiredis.
abbrev pub IsIdle : Driver → Type 0
IsIdle driver = (t : List Event) (o : ℕ) → (driver.context t o).in_callback ≡ false

-- A timeout of the connection is over.
abbrev pub is_over : ℕ → Raw → Bool
is_over sec r = not (r.timer.conn_timeout == 0) && leb r.timer.conn_timeout sec

-- What the check of the connection's timeout leaves.
record Checked (sec : ℕ) (r s : Raw) : Type 0 where
  pub whole : IsWhole s
  pub pending_same : s.timer.timer_pending ≡ r.timer.timer_pending
  pub conf_same : s.conf ≡ r.conf
  pub not_over : is_over sec s ≡ false

-- The raw object without a timeout.
abbrev calmed : Raw → Raw
calmed s = record s { timer = record (s.timer) { conn_sequence = 0; conn_timeout = 0 } }

calmed-IsWhole : (s : Raw) → IsWhole s → IsWhole (calmed s)
calmed-IsWhole s h = record {
  linked = h.linked;
  sendable = h.sendable;
  distinct = h.distinct;
  none_lost = h.none_lost;
  unmade = h.unmade;
  no_auth_fn = h.no_auth_fn;
  no_password = h.no_password;
}

module _ (driver : Driver) (idle : IsIdle driver) where
  -- Nothing but the connection changes.
  record Expired (r s : Raw) : Type 0 where
    pub whole : IsWhole s
    pub pending_same : s.timer.timer_pending ≡ r.timer.timer_pending
    pub conf_same : s.conf ≡ r.conf

  expire_over :
      (r : Raw) (k : ℕ) (conn : Conn) (same : Bool)
      → IsWhole r
      → IsOpen conn
      → (s : Raw) × ((if same
              then (do
                assert_idle driver r conn.context
                released ← release_connection true ErrorCode.timeout
                pure tt)
              else pure tt)
            r
          ≡ some (tt, s))
        × Expired r s
  unfolding assert_idle
  expire_over r k conn false h o =
      (r, refl, record { whole = h; pending_same = refl; conf_same = refl })
  expire_over r k conn true h o =
      let (b, s, e, q) = release-Released true ErrorCode.timeout r h in
      (
        s,
        >>=-some (assert_idle driver r conn.context)
              (λ _. (do released ← release_connection true ErrorCode.timeout; pure tt)) r
              (ap (λ c. assert_idle driver r c r) o.has_context
                ∙ rw (idle r.mem.trace o.context) refl)
            ∙ >>=-some (release_connection true ErrorCode.timeout) (λ _. pure tt) r e,
        record { whole = q.whole; pending_same = q.pending_same; conf_same = q.conf_same },
      )

  expire_conn-Expired :
      (r : Raw) (o : Option ℕ)
      → Linked r.mem.conns o
      → IsWhole r
      → (s : Raw) × (expire_conn driver o r ≡ some (tt, s)) × Expired r s
  unfolding expire_conn
  expire_conn-Expired r none linked h =
      (r, refl, record { whole = h; pending_same = refl; conf_same = refl })
  expire_conn-Expired r (some k) (conn, hk, o) h =
      let (s, e, q) = expire_over r k conn (conn.sequence == r.timer.conn_sequence) h o in
      (s, >>=-some (lift (get_conn k)) _ r (read_conn k r hk) ∙ e, q)

  check_timeout-Checked :
      (sec : ℕ) (r : Raw)
      → IsWhole r
      → (s : Raw) × (check_timeout driver sec r ≡ some (tt, s)) × Checked sec r s
  unfolding check_timeout
  check_timeout-Checked sec r h = elim (Bool-cases (is_over sec r)) [
    | inr later ↦ (
      r,
      rw later refl,
      record { whole = h; pending_same = refl; conf_same = refl; not_over = later },
    )
    | inl over ↦
        let (s, e, q) = expire_conn-Expired r r.conn h.linked h in
        (
          calmed s,
          rw over (>>=-some (expire_conn driver r.conn) _ r e),
          record {
            whole = calmed-IsWhole s q.whole;
            pending_same = q.pending_same;
            conf_same = q.conf_same;
            not_over = refl;
          },
        )
  ]

-- What `proc` leaves: the whole state, no command in front whose time has come, and no timeout of a
-- connection that is over.
pub record Proceeded (sec usec n : ℕ) (r s : Raw) : Type 0 where
  pub whole : IsWhole s
  pub first_later : FirstLater sec usec s.timer.timer_pending
  pub not_over : is_over sec s ≡ false
  pub few : n ≤ length r.timer.timer_pending
  pub conf_same : s.conf ≡ r.conf

-- On a raw object without a password, whose connection, if there is one, is open, where each
-- command that waits, on the connection or for the timer, is alive, stands there once and has a
-- buffer that holds a command, and where every other command was freed: outside the callbacks of
-- hiredis, proc does not fault, whatever hiredis answers, and its loop ends after one round at
-- most for each command that waits for the timer, with any fuel for the retries that is not below
-- the ttl of a new command. The state is such a state again, the first command that still waits
-- for the timer has its time to come, no timeout of the connection is over, and the count that is
-- returned is not above the number of the commands that waited.
pub proc-Proceeded :
    (driver : Driver) (fuel sec usec : ℕ) (r : Raw)
    → Cmd.default_ttl ≤ fuel
    → IsIdle driver
    → IsWhole r
    → (n : ℕ) × (s : Raw) × (proc driver fuel (suc (length r.timer.timer_pending)) sec usec r
        ≡ some (n, s))
      × Proceeded sec usec n r s
unfolding proc
proc-Proceeded driver fuel sec usec r enough idle h =
    let l = r.timer.timer_pending in
    let r₁ = record r {
      timer = record (r.timer) { last_update_sec = sec; last_update_usec = usec };
    } in
    let h₁ : IsWhole r₁ = record {
      linked = h.linked;
      sendable = h.sendable;
      distinct = h.distinct;
      none_lost = h.none_lost;
      unmade = h.unmade;
      no_auth_fn = h.no_auth_fn;
      no_password = h.no_password;
    } in
    let (n, t, e, q) =
      run_pending-Ran driver fuel enough sec usec l [] r₁ (sym (append-nil l)) tt refl refl h₁ in
    let (s, e', c) = check_timeout-Checked driver idle sec t q.whole in
    (
      n,
      s,
      >>=-some (run_pending driver fuel (suc (length l)) sec usec) _ r₁ e
          ∙ >>=-some (check_timeout driver sec) (λ _. pure n) t e',
      record {
        whole = c.whole;
        first_later = subst (FirstLater sec usec) (sym c.pending_same) q.first_later;
        not_over = c.not_over;
        few = q.few;
        conf_same = c.conf_same ∙ q.conf_same;
      },
    )
