-- ===== src/Cluster/Asking.antt =====
-- on_reply_asking of hiredis::happ::cluster: the command that follows an ASKING is not lost.
use hiredis_happ.Common.{
  ℕ, suc, ◌/◌, ◌≡◌, refl, sym, ◌∙◌, arith, Bool-cases, inl, inr, not, ltb, ◌==ℤ◌, ◌||◌,
  if◌then◌else◌, ◌∷◌, ◌++◌, Bytes, Option, none, some, ℤ, pos,
}
use hiredis_happ.Common.ErrorCode
use hiredis_happ.Memory.{
  Cmd, Conn, Memory, Driver, Reply, null_fn, freed, update, get_cmd, get_conn, M, pure,
}
use hiredis_happ.Memory.Laws.{>>=-some, get_conn_lem}
use hiredis_happ.Cmd
use hiredis_happ.Cmd.{is_null, call_reply, destroy}
use hiredis_happ.Cmd.Lifecycle.{answer, Answered}
use hiredis_happ.Cluster.State.{
  Cluster, lift, call_cmd, destroy_cmd, end_cmd, is_timer_available, is_timer_active,
}
use hiredis_happ.Cluster.{exec_again, connection_context, retry_step, retry_fuel}
use hiredis_happ.Cluster.Connections.{find}
use hiredis_happ.Cluster.Replies.{
  is_lost, mark_lost, refuse_asked, is_ok, is_null_reply, on_reply_asking,
}
use hiredis_happ.Cluster.Pending.{lift-some}
use hiredis_happ.Cluster.Placing.{IsCalm, IsSound, IsFilled, ended, Runs}
use hiredis_happ.Cluster.Placing.Sending.{IsPlaced, Grows-cmd, fail-Runs, exec_on-Runs}
use hiredis_happ.Cluster.Placing.Waiting.{read_cmd, pend-Runs}
use hiredis_happ.Cluster.Placing.Reloading.{Formats}
use hiredis_happ.Cluster.Placing.Executing.{Executed, Executed-Grows, retry-Executes}

-- A command that is called with a reply and destroyed.
end_cmd_lem :
    (c : ℕ) (x : Cmd) (err : ℤ) (context : Option ℕ) (r : Option Reply) (s : Cluster)
    → s.mem.cmds c ≡ some x
    → (n : Memory) × (end_cmd c err context r s ≡ some (tt, record s { mem = n }))
      × Answered c x err context r s.mem n
unfolding end_cmd call_cmd destroy_cmd call_reply destroy is_null
end_cmd_lem c x err context r s h = (
  record (s.mem) {
    cmds =
        update
          (if is_null x.callback
            then s.mem.cmds
            else update s.mem.cmds c (some (record x { error_code = err; callback = null_fn })))
          c none;
    trace = freed c ∷ (answer c x err context r ++ s.mem.trace);
  },
  ground arith,
  record {
    gone = ground arith;
    other_cmds = λ d ne. ground arith;
    conns_same = refl;
    trace_after = refl;
    next_cmd_same = refl;
    next_conn_same = refl;
    seq_same = refl;
  },
)

-- `x` does not fault at `s`, and leaves the command as exec does.
abbrev pub Answers : ℕ → M Cluster (Unit {0}) → Cluster → Type 0
Answers c x s = (t : Cluster) × (x s ≡ some (tt, t)) × Executed c s t

module _ (driver : Driver) (calm : IsCalm driver) (formats : Formats driver) (fuel c k : ℕ)
    (name : Bytes) (conn : Conn) where
  refuse-Answers :
      (r : Option Reply) (s : Cluster)
      → IsSound s
      → s.mem.conns k ≡ some conn
      → IsFilled s.mem c
      → Answers c (refuse_asked k c r) s
  unfolding refuse_asked
  refuse-Answers r s sound hk f =
      let (n, e, a) = end_cmd_lem c f.cmd ErrorCode.connection conn.context r s f.there in
      let t = record s { mem = n } in
      (
        t,
        >>=-some (lift (get_conn k)) _ s (lift-some (get_conn k) s (get_conn_lem k s.mem hk)) ∙ e,
        Executed-Grows c s t
            (Grows-cmd c s n sound (f.cmd, f.there) (λ d ne. a.other_cmds d (λ q. ne (sym q)))
              a.conns_same a.next_conn_same a.next_cmd_same)
            (ended a.gone),
      )

  -- The context of the connection of a handle.
  context_lem :
      (again : ℕ → Option ℕ → M Cluster (Option ℕ)) (s : Cluster)
      → s.mem.conns k ≡ some conn
      → connection_context driver again (some k) s ≡ some (conn.context, s)
  unfolding connection_context
  context_lem again s hk =
      >>=-some (lift (get_conn k)) _ s (lift-some (get_conn k) s (get_conn_lem k s.mem hk))

  -- A retry over the connection itself.
  retry_over-Runs :
      (again : ℕ → Option ℕ → M Cluster (Option ℕ)) (s : Cluster)
      → IsSound s
      → find name s.connections ≡ some k
      → s.mem.conns k ≡ some conn
      → IsFilled s.mem c
      → Runs {A = Option ℕ} c (IsPlaced c) (retry_step driver again c (some k)) s
  unfolding retry_step exec_again
  retry_over-Runs again s sound hf hk f =
      let read = >>=-some (lift (get_cmd c)) _ s (read_cmd c s f.there) in
      elim (Bool-cases (not (is_timer_active s) || ltb (Cmd.default_ttl / 2) f.cmd.ttl)) [
        | inl now ↦
            let (a, t, e, g, p) = exec_on-Runs driver again calm c name k conn s sound hf hk f in
            (a, t, read ∙ rw now e, g, p)
        | inr late ↦ elim (Bool-cases (is_timer_available s)) [
          | inr off ↦
              let (a, t, e, g, p) =
                fail-Runs c ErrorCode.timer_not_available conn.context s sound (f.cmd, f.there) in
              (
                a,
                t,
                read
                    ∙ rw (late, off)
                        (>>=-some (connection_context driver again (some k)) _ s
                            (context_lem again s hk)
                          ∙ e),
                g,
                p,
              )
          | inl on ↦
              let (a, t, e, g, p) =
                pend-Runs driver again calm c s sound (ground (arith, late)) on in
              (a, t, read ∙ rw (late, on) e, g, p)
        ]
      ]

  -- The reply to an ASKING over the connection of a name, on a cluster without a password where every name
  -- leads to a connection that is there and the numbers that were not given out yet are free, while no
  -- context is closing and hiredis gives a command where it formats CLUSTER SLOTS. Whatever the reply and the context's
  -- error are, the handler does not fault, and the command, which has a buffer that holds a command, was
  -- freed, or waits on the connection of some name, for the timer, or last for the slot table.
  pub on_reply_asking-Answers :
      (context : ℕ) (r : Option Reply) (s : Cluster)
      → IsSound s
      → find name s.connections ≡ some k
      → s.mem.conns k ≡ some conn
      → IsFilled s.mem c
      → Answers c (on_reply_asking driver (suc fuel) context k r c) s
  unfolding on_reply_asking mark_lost retry_fuel
  on_reply_asking-Answers context r s sound hf hk f =
      let ctx = driver.context s.mem.trace context in
      let read =
        >>=-some (lift (get_conn k)) _ s (lift-some (get_conn k) s (get_conn_lem k s.mem hk)) in
      elim (Bool-cases (is_lost ctx.err)) [
        | inl lost ↦
            let (a, t, e, q) = retry-Executes driver calm formats fuel c s sound f in
            (
              t,
              read ∙ rw lost (>>=-some (retry_fuel driver (suc fuel) c none) (λ _. pure tt) s e),
              q,
            )
        | inr kept ↦ elim (Bool-cases (not (ctx.err ==ℤ pos 0) || is_null_reply r)) [
          | inl bad ↦
              let (t, e, q) = refuse-Answers r s sound hk f in
              (t, read ∙ rw (kept, bad, (calm s.mem.trace context).0) e, q)
          | inr good ↦ elim (Bool-cases (is_ok r)) [
            | inl fine ↦
                let (a, t, e, g, p) = retry_over-Runs (retry_fuel driver fuel) s sound hf hk f in
                (
                  t,
                  read
                      ∙ rw (kept, good, fine)
                          (>>=-some (retry_step driver (retry_fuel driver fuel) c (some k))
                            (λ _. pure tt) s e),
                  Executed-Grows c s t g p,
                )
            | inr other ↦
                let (t, e, q) = refuse-Answers r s sound hk f in
                (t, read ∙ rw (kept, good, other) e, q)
          ]
        ]
      ]
