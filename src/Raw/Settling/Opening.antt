-- ===== src/Raw/Settling/Opening.antt =====
-- make_connection of hiredis::happ::raw where there is no password, and the connection that exec finds.
use hiredis_happ.Common.{
  ℕ, suc, ◌+◌, ◌≡◌, refl, sym, ap, ◌∙◌, subst, arith, Bool, true, false, Bool-cases, inl, inr, ltb,
  ◌==ℤ◌, ◌&&◌, if◌then◌else◌, [], ◌∷◌, List, Option, none, some, pos,
}
use hiredis_happ.Memory.{
  Conn, Event, connects, frees_context, on_connect, Driver, update, connecting, disconnected,
  get_conn, emit, M, pure, ◌>>=◌, ◌>>◌,
}
use hiredis_happ.Memory.Laws.{>>=-some}
use hiredis_happ.Connection.{no_key, new_connection, init, set_connecting}
use hiredis_happ.Connection.Opening.{new_connection_lem, init_lem, set_connecting_lem}
use hiredis_happ.Connection.Transitions.{IsConsistent}
use hiredis_happ.Raw.State.{Raw, Timer, lift, is_timer_active, get_raw}
use hiredis_happ.Raw.Connect.{
  start_timeout, authenticate_by, authenticate, open_connection, use_context, make_from,
  make_connection,
}
use hiredis_happ.Raw.{find_from, find_connection}
use hiredis_happ.Raw.Pending.{lift-some}
use hiredis_happ.Raw.Settling.Framing.{
  queue, IsFresh, same, fresh, Freed, Frame, Frame-refl, Frame-trace, Frame-trans,
}
use hiredis_happ.Raw.Settling.{IsReady, read_conn, carry-IsReady}
use hiredis_happ.Raw.Settling.Executing.{HoldsConn-trace}

-- A new object, connecting over `context`.
abbrev fresh_conn : Raw → ℕ → ℕ → Conn
fresh_conn r context sequence = record {
  key = r.conf.init_connection;
  sequence = sequence;
  context = some context;
  reply_list = [];
  status = connecting;
}

fresh-IsConsistent : (r : Raw) (context q : ℕ) → IsConsistent (fresh_conn r context q)
fresh-IsConsistent r context q = record {
  no_context = λ h. cc;
  no_status = λ h. cc;
  none_waits = λ h. refl;
}

opened-Frame :
    (c : ℕ) (r s : Raw) (k : ℕ) (conn : Conn)
    → IsFresh conn
    → s.conn ≡ some k
    → s.mem.conns k ≡ some conn
    → s.mem.cmds ≡ r.mem.cmds
    → s.conf ≡ r.conf
    → s.auth ≡ r.auth
    → s.mem.next_cmd ≡ r.mem.next_cmd
    → s.timer ≡ r.timer
    → r.conn ≡ none
    → Frame c r s
opened-Frame c r s k conn new hs hk cmds conf auth next timer hr = record {
  own = λ x h. (x, ap (λ f. f c) cmds ∙ h, refl, omega arith);
  others = λ d ne free. ap (λ f. f d) cmds;
  conf_same = conf;
  auth_same = auth;
  next_same = next;
  sec_same = ap (λ t. t.last_update_sec) timer;
  usec_same = ap (λ t. t.last_update_usec) timer;
  pending_same = ap (λ t. t.timer_pending) timer;
  link = fresh k conn hs hk new (subst (λ o. Freed c (queue r.mem.conns o) s.mem.cmds) (sym hr) tt);
}

timed-Frame :
    (c : ℕ) (r : Raw) (t : Timer)
    → t.last_update_sec ≡ r.timer.last_update_sec
    → t.last_update_usec ≡ r.timer.last_update_usec
    → t.timer_pending ≡ r.timer.timer_pending
    → Frame c r (record r { timer = t })
timed-Frame c r t sec usec pending = record {
  own = λ x h. (x, h, refl, omega arith);
  others = λ d ne free. refl;
  conf_same = refl;
  auth_same = refl;
  next_same = refl;
  sec_same = sec;
  usec_same = usec;
  pending_same = pending;
  link = same refl refl (λ d ne. refl);
}

start_timeout_lem :
    (k : ℕ) (r : Raw) (conn : Conn)
    → r.mem.conns k ≡ some conn
    → (t : Timer) × (start_timeout k r ≡ some (tt, record r { timer = t }))
      × (t.last_update_sec ≡ r.timer.last_update_sec)
      × (t.last_update_usec ≡ r.timer.last_update_usec)
      × (t.timer_pending ≡ r.timer.timer_pending)
unfolding start_timeout
start_timeout_lem k r conn hk =
    elim (Bool-cases (ltb 0 r.conf.timer_timeout_sec && is_timer_active r)) [
      | inl on ↦ (
        record (r.timer) {
          conn_sequence = conn.sequence;
          conn_timeout = r.timer.last_update_sec + r.conf.timer_timeout_sec;
        },
        >>=-some (lift (get_conn k)) _ r (read_conn k r hk) ∙ rw on refl,
        refl,
        refl,
        refl,
      )
      | inr off ↦ (
        r.timer,
        >>=-some (lift (get_conn k)) _ r (read_conn k r hk) ∙ rw off refl,
        refl,
        refl,
        refl,
      )
    ]

-- The connection `o` is the one of the raw object, where it is one.
abbrev pub IsOwn : Option ℕ → Raw → Type 0
IsOwn none s = Unit {0}
IsOwn (some k) s = s.conn ≡ some k

-- `x` does not fault at `r`; the command `c` is ready after it, and its result is the connection.
abbrev pub Finds : ℕ → ℕ → M Raw (Option ℕ) → Raw → Type 0
Finds c n x r =
    (o : Option ℕ) × (s : Raw) × (x r ≡ some (o, s)) × IsOwn o s × Frame c r s × IsReady c n s

module _ (driver : Driver) (again : ℕ → Option ℕ → M Raw (Option ℕ)) (c n : ℕ) where
  authenticate_lem :
      (k : ℕ) (r : Raw) → IsReady c n r → authenticate driver again k r ≡ some (true, r)
  unfolding authenticate authenticate_by
  authenticate_lem k r ready =
      ap (λ f. authenticate_by driver again k f r.auth.password r) ready.no_auth_fn
      ∙ ap (λ p. authenticate_by driver again k none p r) ready.no_password

  -- The last steps, from the timeout on.
  finish_open : ℕ → M Raw (Option ℕ)
  finish_open k = do
    start_timeout k
    authenticated ← authenticate driver again k
    if authenticated
        then (do
          s ← get_raw
          if s.callbacks.has_on_connect then lift (emit (on_connect k)) else pure tt
          pure (some k))
        else pure none

  greet_lem :
      (k : ℕ) (r : Raw) (has : Bool)
      → (t : List Event) × ((if has then lift (emit (on_connect k)) else pure tt) r
          ≡ some (tt, record r { mem = record (r.mem) { trace = t } }))
  greet_lem k r true = (on_connect k ∷ r.mem.trace, refl)
  greet_lem k r false = (r.mem.trace, refl)

  finish_open-Finds :
      (k : ℕ) (r : Raw) (conn : Conn)
      → IsReady c n r
      → r.conn ≡ some k
      → r.mem.conns k ≡ some conn
      → Finds c n (finish_open k) r
  unfolding finish_open
  finish_open-Finds k r conn ready hr hk =
      let (t, e₁, sec, usec, pending) = start_timeout_lem k r conn hk in
      let r₁ = record r { timer = t } in
      let ready₁ = carry-IsReady r₁ ready refl refl ready.holds in
      let (l, e₃) = greet_lem k r₁ r₁.callbacks.has_on_connect in
      let r₂ = record r₁ { mem = record (r₁.mem) { trace = l } } in
      (
        some k,
        r₂,
        >>=-some (start_timeout k) _ r e₁
            ∙ >>=-some (authenticate driver again k) _ r₁ (authenticate_lem k r₁ ready₁)
            ∙ >>=-some (if r₁.callbacks.has_on_connect then lift (emit (on_connect k)) else pure tt)
                (λ _. pure (some k)) r₁ e₃,
        hr,
        Frame-trans (timed-Frame c r t sec usec pending) (Frame-trace c r₁ l),
        carry-IsReady r₂ ready₁ refl refl (HoldsConn-trace c r₁.mem l r.conn ready₁.holds),
      )

  open_connection-Finds :
      (r : Raw) (context : ℕ)
      → IsReady c n r
      → r.conn ≡ none
      → Finds c n (open_connection driver again context) r
  unfolding open_connection finish_open
  open_connection-Finds r context ready hn =
      let k = r.mem.next_conn in
      let (q₁, a₁, e₁) = new_connection_lem r.mem in
      let conn₁ : Conn = record {
        key = no_key;
        sequence = q₁;
        context = none;
        reply_list = [];
        status = disconnected;
      } in
      let m₁ = record (r.mem) {
        seq_alloc = a₁;
        conns = update r.mem.conns k (some conn₁);
        next_conn = suc k;
      } in
      let conn₂ = record conn₁ { key = r.conf.init_connection } in
      let m₂ = record m₁ { conns = update m₁.conns k (some conn₂) } in
      let e₂ = init_lem k r.conf.init_connection m₁ conn₁ (ground arith) in
      let (q₃, a₃, e₃) = set_connecting_lem k context m₂ conn₂ (ground arith) refl refl in
      let conn₃ = fresh_conn r context q₃ in
      let m₃ = record m₂ { seq_alloc = a₃; conns = update m₂.conns k (some conn₃) } in
      let r₁ = record r { mem = m₁; conn = some k } in
      let r₃ = record r { mem = m₃; conn = some k } in
      let there : m₃.conns k ≡ some conn₃ = ground arith in
      let new : IsFresh conn₃ = record {
        context = context;
        has_context = refl;
        is_connecting = refl;
        none_waits = refl;
      } in
      let (o, s, e, own, g, ready') =
        finish_open-Finds k r₃ conn₃
          (carry-IsReady r₃ ready refl refl
            (conn₃, there, fresh-IsConsistent r context q₃, tt, tt, tt))
          refl there in
      (
        o,
        s,
        >>=-some (lift new_connection) _ r (lift-some new_connection r e₁)
            ∙ >>=-some (lift (init k r.conf.init_connection)) _ r₁
                (lift-some (init k r.conf.init_connection) r₁ e₂)
            ∙ >>=-some (lift (set_connecting k (some context))) _ (record r₁ { mem = m₂ })
                (lift-some (set_connecting k (some context)) (record r₁ { mem = m₂ }) e₃)
            ∙ e,
        own,
        Frame-trans (opened-Frame c r r₃ k conn₃ new refl there refl refl refl refl refl hn) g,
        ready',
      )

  use_context-Finds :
      (r : Raw) (o : Option ℕ)
      → IsReady c n r
      → r.conn ≡ none
      → Finds c n (use_context driver again o) r
  unfolding use_context
  use_context-Finds r none ready hn = (none, r, refl, tt, Frame-refl c r, ready)
  use_context-Finds r (some context) ready hn =
      elim (Bool-cases ((driver.context r.mem.trace context).err ==ℤ pos 0)) [
        | inl fine ↦ rw fine (open_connection-Finds r context ready hn)
        | inr bad ↦ rw bad (
          none,
          record r { mem = record (r.mem) { trace = frees_context context ∷ r.mem.trace } },
          refl,
          tt,
          Frame-trace c r (frees_context context ∷ r.mem.trace),
          carry-IsReady
              (record r { mem = record (r.mem) { trace = frees_context context ∷ r.mem.trace } })
              ready refl refl
              (HoldsConn-trace c r.mem (frees_context context ∷ r.mem.trace) r.conn ready.holds),
        )
      ]

  find_from-Finds :
      (r : Raw) (o : Option ℕ) → r.conn ≡ o → IsReady c n r → Finds c n (find_from driver again o) r
  unfolding find_from make_connection make_from
  find_from-Finds r (some k) hr ready = (some k, r, refl, hr, Frame-refl c r, ready)
  find_from-Finds r none hr ready =
      let key = r.conf.init_connection in
      let r₁ = record r {
        mem = record (r.mem) { trace = connects key.ip key.port ∷ r.mem.trace };
      } in
      let (o, s, e, own, g, ready') =
        use_context-Finds r₁ (driver.connect r.mem.trace key.ip key.port)
          (carry-IsReady r₁ ready refl refl
            (HoldsConn-trace c r.mem (connects key.ip key.port ∷ r.mem.trace) r.conn ready.holds))
          hr in
      (
        o,
        s,
        ap (λ o. make_from driver again o r) hr ∙ e,
        own,
        Frame-trans (Frame-trace c r (connects key.ip key.port ∷ r.mem.trace)) g,
        ready',
      )

  -- The connection is found, or made, or there is none; nothing faults.
  pub find_connection-Finds : (r : Raw) → IsReady c n r → Finds c n (find_connection driver again) r
  unfolding find_connection
  find_connection-Finds r ready = find_from-Finds r r.conn refl ready
