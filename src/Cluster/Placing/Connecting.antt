-- ===== src/Cluster/Placing/Connecting.antt =====
-- make_connection and find_connection of hiredis::happ::cluster, where there is no password.
use hiredis_happ.Common.{
  ℕ, suc, ◌+◌, ◌≡◌, ◌≢◌, refl, ap, ◌∙◌, arith, Bool, true, false, Bool-cases, Option-cases, inl,
  inr, ltb, ◌==ℤ◌, ◌&&◌, if◌then◌else◌, [], ◌∷◌, ◌++◌, Option, none, some, pos,
}
use hiredis_happ.Name.{Key}
use hiredis_happ.Memory.{
  Conn, connects, frees_context, on_connect, Driver, update, disconnected, get_conn, emit, M, pure,
}
use hiredis_happ.Memory.Laws.{>>=-some, get_conn_lem}
use hiredis_happ.Connection.{no_key, new_connection, init, set_connecting}
use hiredis_happ.Connection.Opening.{new_connection_lem, init_lem, set_connecting_lem}
use hiredis_happ.Cluster.State.{Cluster, lift, is_timer_active, set_timeouts}
use hiredis_happ.Cluster.Connections.{find, insert, get_connection}
use hiredis_happ.Cluster.Connect.{
  start_timeout, authenticate_by, authenticate, finish_open, open_connection, use_context,
  make_from, make_connection, find_from, find_connection,
}
use hiredis_happ.Cluster.Pending.{lift-some}
use hiredis_happ.Cluster.Placing.{IsSound, Runs, Grows-refl, Grows-trans}
use hiredis_happ.Cluster.Placing.Opening.{
  traced, timed, Grows-traced, Grows-timed, Found, fresh_conn, with_conn, with_conn-Grows, inserted,
  Found-same,
}

module _ (driver : Driver) (again : ℕ → Option ℕ → M Cluster (Option ℕ)) (c : ℕ) where
  start_timeout-Runs :
      (key : Key) (k : ℕ) (conn : Conn) (s : Cluster)
      → IsSound s
      → s.mem.conns k ≡ some conn
      → Runs {A = Unit {0}} c
          (λ _ t. (t.mem ≡ s.mem) × (t.connections ≡ s.connections))
          (start_timeout key k)
          s
  unfolding start_timeout set_timeouts
  start_timeout-Runs key k conn s sound hk =
      elim (Bool-cases (ltb 0 s.conf.timer_timeout_sec && is_timer_active s)) [
        | inl on ↦ (
          tt,
          timed s (
              s.timer.timer_conns
              ++ record {
                name = key.name;
                sequence = conn.sequence;
                timeout = s.timer.last_update_sec + s.conf.timer_timeout_sec;
              }
                ∷ []),
          >>=-some (lift (get_conn k)) _ s (lift-some (get_conn k) s (get_conn_lem k s.mem hk))
              ∙ rw on refl,
          Grows-timed c s _ sound,
          (refl, refl),
        )
        | inr off ↦ (
          tt,
          s,
          >>=-some (lift (get_conn k)) _ s (lift-some (get_conn k) s (get_conn_lem k s.mem hk))
              ∙ rw off refl,
          Grows-refl c s sound,
          (refl, refl),
        )
      ]

  authenticate_lem :
      (k : ℕ) (s : Cluster) → IsSound s → authenticate driver again k s ≡ some (true, s)
  unfolding authenticate authenticate_by
  authenticate_lem k s sound =
      ap (λ f. authenticate_by driver again k f s.auth.password s) sound.no_auth_fn
      ∙ ap (λ p. authenticate_by driver again k none p s) sound.no_password

  greet-Runs :
      (k : ℕ) (has : Bool) (s : Cluster)
      → IsSound s
      → Runs {A = Unit {0}} c
          (λ _ t.
            (t.mem.cmds ≡ s.mem.cmds)
            × (t.mem.conns ≡ s.mem.conns)
            × (t.connections ≡ s.connections))
          (if has then lift (emit (on_connect k)) else pure tt)
          s
  greet-Runs k true s sound = (
    tt,
    traced s (on_connect k ∷ s.mem.trace),
    refl,
    Grows-traced c s (on_connect k ∷ s.mem.trace) sound,
    (refl, refl, refl),
  )
  greet-Runs k false s sound = (tt, s, refl, Grows-refl c s sound, (refl, refl, refl))

  finish_open-Runs :
      (key : Key) (k : ℕ) (conn : Conn) (s : Cluster)
      → IsSound s
      → find key.name s.connections ≡ some k
      → s.mem.conns k ≡ some conn
      → Runs {A = Option ℕ} c (Found key.name s) (finish_open driver again key k) s
  unfolding finish_open
  finish_open-Runs key k conn s sound hf hk =
      let (u, s₁, e₁, g₁, (m₁, l₁)) = start_timeout-Runs key k conn s sound hk in
      let (v, s₂, e₂, g₂, (m₂, n₂, l₂)) = greet-Runs k s₁.callbacks.has_on_connect s₁ g₁.sound in
      (
        some k,
        s₂,
        >>=-some (start_timeout key k) _ s e₁
            ∙ >>=-some (authenticate driver again k) _ s₁ (authenticate_lem k s₁ g₁.sound)
            ∙ >>=-some (if s₁.callbacks.has_on_connect then lift (emit (on_connect k)) else pure tt)
                (λ _. pure (some k)) s₁ e₂,
        Grows-trans g₁ g₂,
        (
          m₂ ∙ ap (λ m. m.cmds) m₁,
          ap (find key.name) (l₂ ∙ l₁) ∙ hf,
          conn,
          ap (λ f. f k) (n₂ ∙ ap (λ m. m.conns) m₁) ∙ hk,
        ),
      )

  open_connection-Runs :
      (key : Key) (context : ℕ) (s : Cluster)
      → IsSound s
      → find key.name s.connections ≡ none
      → Runs {A = Option ℕ} c (Found key.name s) (open_connection driver again key context) s
  unfolding open_connection
  open_connection-Runs key context s sound free =
      let k = s.mem.next_conn in
      let (q₁, a₁, e₁) = new_connection_lem s.mem in
      let conn₁ : Conn = record {
        key = no_key;
        sequence = q₁;
        context = none;
        reply_list = [];
        status = disconnected;
      } in
      let m₁ = record (s.mem) {
        seq_alloc = a₁;
        conns = update s.mem.conns k (some conn₁);
        next_conn = suc k;
      } in
      let l = insert key.name k s.connections in
      let s₁ = record s { mem = m₁; connections = l } in
      let conn₂ = record conn₁ { key = key } in
      let m₂ = record m₁ { conns = update m₁.conns k (some conn₂) } in
      let s₂ = record s { mem = m₂; connections = l } in
      let e₂ = init_lem k key m₁ conn₁ (ground arith) in
      let (q₃, a₃, e₃) = set_connecting_lem k context m₂ conn₂ (ground arith) refl refl in
      let conn₃ = fresh_conn key context q₃ in
      let f = update m₂.conns k (some conn₃) in
      let s₃ = with_conn s key a₃ f in
      let new : f k ≡ some conn₃ = ground arith in
      let old : (j : ℕ) → j ≢ k → f j ≡ s.mem.conns j = λ j ne. ground arith in
      let g = with_conn-Grows c s key a₃ f conn₃ free new old sound in
      let (o, t, e, h, p) =
        finish_open-Runs key k conn₃ s₃ g.sound (inserted key.name k s.connections) new in
      (
        o,
        t,
        >>=-some (lift new_connection) _ s (lift-some new_connection s e₁)
            ∙ >>=-some (lift (init k key)) _ s₁ (lift-some (init k key) s₁ e₂)
            ∙ >>=-some (lift (set_connecting k (some context))) _ s₂
                (lift-some (set_connecting k (some context)) s₂ e₃)
            ∙ e,
        Grows-trans g h,
        Found-same key.name s₃ s o t refl p,
      )

  use_context-Runs :
      (key : Key) (o : Option ℕ) (s : Cluster)
      → IsSound s
      → find key.name s.connections ≡ none
      → Runs {A = Option ℕ} c (Found key.name s) (use_context driver again key o) s
  unfolding use_context
  use_context-Runs key none s sound free = (none, s, refl, Grows-refl c s sound, refl)
  use_context-Runs key (some context) s sound free =
      elim (Bool-cases ((driver.context s.mem.trace context).err ==ℤ pos 0)) [
        | inl fine ↦ rw fine (open_connection-Runs key context s sound free)
        | inr bad ↦ rw bad (
          none,
          traced s (frees_context context ∷ s.mem.trace),
          refl,
          Grows-traced c s (frees_context context ∷ s.mem.trace) sound,
          refl,
        )
      ]

  make_connection-Runs :
      (key : Key) (s : Cluster)
      → IsSound s
      → find key.name s.connections ≡ none
      → Runs {A = Option ℕ} c (Found key.name s) (make_connection driver again key) s
  unfolding make_connection make_from get_connection
  make_connection-Runs key s sound free =
      let s₁ = traced s (connects key.ip key.port ∷ s.mem.trace) in
      let g₁ = Grows-traced c s (connects key.ip key.port ∷ s.mem.trace) sound in
      let (o, t, e, g, p) =
        use_context-Runs key (driver.connect s.mem.trace key.ip key.port) s₁ g₁.sound free in
      (
        o,
        t,
        ap (λ o. make_from driver again key o s) free ∙ e,
        Grows-trans g₁ g,
        Found-same key.name s₁ s o t refl p,
      )

  -- The connection of a name is found, or made, or there is none; nothing faults, and no command changes.
  pub find_connection-Runs :
      (key : Key) (s : Cluster)
      → IsSound s
      → Runs {A = Option ℕ} c (Found key.name s) (find_connection driver again key) s
  unfolding find_connection find_from get_connection
  find_connection-Runs key s sound = elim (Option-cases (find key.name s.connections)) [
    | inl free ↦
        let (o, t, e, g, p) = make_connection-Runs key s sound free in
        (o, t, ap (λ o. find_from driver again key o s) free ∙ e, g, p)
    | inr (k, hf) ↦
        let (conn, hk) = sound.there key.name k hf in
        (
          some k,
          s,
          ap (λ o. find_from driver again key o s) hf,
          Grows-refl c s sound,
          (refl, hf, conn, hk),
        )
  ]
