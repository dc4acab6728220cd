-- ===== src/Cluster/Placing/Sending.antt =====
-- exec over a connection of hiredis::happ::cluster, while no context is closing.
use hiredis_happ.Common.{
  ℕ, ◌-◌, ◌≤◌, ◌≡◌, ◌≢◌, refl, sym, ap, ◌∙◌, subst, Bool-cases, inl, inr, ◌==◌, ==_iff, ◌==ℤ◌,
  if◌then◌else◌, [], ◌∷◌, ◌++◌, List, Bytes, Option, none, some, ℤ, pos, append-nil,
}
use hiredis_happ.Common.ErrorCode
use hiredis_happ.Memory.{
  Cmd, Conn, Memory, Event, Driver, update, get_cmd, get_conn, M, pure, ◌>>=◌,
}
use hiredis_happ.Memory.Laws.{
  IsLive, >>=-some, get_cmd_lem, get_conn_lem, update-here, update-there,
}
use hiredis_happ.Connection.Send.{redis_cmd}
use hiredis_happ.Raw.Settling.Sending.{Sent, sent_quiet, sent_loud, redis_cmd-Sends}
use hiredis_happ.Cluster.State.{Cluster, lift, fail_cmd}
use hiredis_happ.Cluster.Connections.{find}
use hiredis_happ.Cluster.Send.{send_failed, send_on, send_over, exec_on}
use hiredis_happ.Cluster.Pending.{lift-some, fail_cmd_lem}
use hiredis_happ.Cluster.Timed.{Timed-same}
use hiredis_happ.Cluster.Placing.{
  IsCalm, IsSound, IsFilled, Grows, Placed, ended, waits, Runs, Grows-refl, Grows-trans,
  contains-last, then-Runs,
}
use hiredis_happ.Cluster.Placing.Opening.{traced, Grows-traced}

-- Where nothing but the command `c` and the trace changed.
pub Grows-cmd :
    (c : ℕ) (s : Cluster) (n : Memory)
    → IsSound s
    → IsLive s.mem c
    → ((d : ℕ) → d ≢ c → n.cmds d ≡ s.mem.cmds d)
    → n.conns ≡ s.mem.conns
    → n.next_conn ≡ s.mem.next_conn
    → n.next_cmd ≡ s.mem.next_cmd
    → Grows c s (record s { mem = n })
Grows-cmd c s n sound live other same next next_cmd = record {
  others = other;
  found = λ name k h. h;
  conns_grow = λ k conn h. (conn, [], ap (λ f. f k) same ∙ h, sym (append-nil conn.reply_list));
  timed = Timed-same s _ refl refl refl refl;
  flag_same = refl;
  pending_same = refl;
  slots_same = refl;
  next_same = next_cmd;
  sound = record {
    there = λ name k h. let (conn, hk) = sound.there name k h in (conn, ap (λ f. f k) same ∙ hk);
    unmade = λ k h. ap (λ f. f k) same ∙ sound.unmade k (subst (λ m. m ≤ k) next h);
    no_cmd = λ d h.
        let old = sound.no_cmd d (subst (λ m. m ≤ d) next_cmd h) in
        other d (λ e. made live (ap s.mem.cmds (sym e) ∙ old)) ∙ old;
    no_auth_fn = sound.no_auth_fn;
    no_password = sound.no_password;
  };
}
  where
    made : IsLive s.mem c → s.mem.cmds c ≡ none → ⊥
    made (x, h) e = cc

-- The command `c` waits last on the connection `k`.
abbrev queued : Cluster → ℕ → Conn → ℕ → List Event → Cluster
queued s k conn c t = record s { mem = sent_loud k conn c s.mem t }

queued_conn :
    (s : Cluster) (k : ℕ) (conn : Conn) (c : ℕ) (t : List Event) (j : ℕ) (x : Conn)
    → s.mem.conns k ≡ some conn
    → s.mem.conns j ≡ some x
    → (after : Conn) × (l : List ℕ) × ((queued s k conn c t).mem.conns j ≡ some after)
      × (after.reply_list ≡ x.reply_list ++ l)
queued_conn s k conn c t j x hk hj =
    let after = record conn { reply_list = conn.reply_list ++ c ∷ [] } in
    elim (Bool-cases (k == j)) [
      | inl here ↦
          let same : conn ≡ x = same_conn (sym hk ∙ ap s.mem.conns ((==_iff k j).0 here) ∙ hj) in
          (after, c ∷ [], rw here refl, ap (λ y. y.reply_list ++ c ∷ []) same)
      | inr apart ↦ (x, [], rw apart hj, sym (append-nil x.reply_list))
    ]
  where
    same_conn : {a b : Conn} → some a ≡ some b → a ≡ b
    same_conn e = cc

Grows-queued :
    (c : ℕ) (s : Cluster) (k : ℕ) (conn : Conn) (t : List Event)
    → IsSound s
    → s.mem.conns k ≡ some conn
    → Grows c s (queued s k conn c t)
Grows-queued c s k conn t sound hk = record {
  others = λ d h. refl;
  found = λ name j h. h;
  conns_grow = λ j x h. queued_conn s k conn c t j x hk h;
  timed = Timed-same s _ refl refl refl refl;
  flag_same = refl;
  pending_same = refl;
  slots_same = refl;
  next_same = refl;
  sound = record {
    there = λ name j h.
        let (x, hj) = sound.there name j h in
        let (after, l, e, q) = queued_conn s k conn c t j x hk hj in (after, e);
    unmade = λ j h. elim (Bool-cases (k == j)) [
      | inl here ↦ absurd (made (sym hk ∙ ap s.mem.conns ((==_iff k j).0 here) ∙ sound.unmade j h))
      | inr apart ↦ rw apart (sound.unmade j h)
    ];
    no_cmd = sound.no_cmd;
    no_auth_fn = sound.no_auth_fn;
    no_password = sound.no_password;
  };
}
  where
    made : some conn ≡ none → ⊥
    made e = cc

-- The command `c` has its place, whatever the result is.
abbrev pub IsPlaced : {A : Type 0} → ℕ → A → Cluster → Type 0
IsPlaced c a t = Placed c t

pub fail-Runs :
    (c : ℕ) (err : ℤ) (context : Option ℕ) (s : Cluster)
    → IsSound s
    → IsLive s.mem c
    → Runs {A = Option ℕ} c (IsPlaced c) (fail_cmd c err context) s
fail-Runs c err context s sound (x, h) =
    let (n, e, a) = fail_cmd_lem c x err context s h in
    (
      none,
      record s { mem = n },
      e,
      Grows-cmd c s n sound (x, h) (λ d ne. a.other_cmds d (λ q. ne (sym q))) a.conns_same
          a.next_conn_same a.next_cmd_same,
      ended a.gone,
    )

module _ (driver : Driver) (again : ℕ → Option ℕ → M Cluster (Option ℕ)) (calm : IsCalm driver)
    (c : ℕ) where
  send_failed-Runs :
      (conn : Conn) (o : Option ℕ) (s : Cluster)
      → IsSound s
      → IsLive s.mem c
      → Runs {A = Option ℕ} c (IsPlaced c) (send_failed driver again conn c o) s
  unfolding send_failed
  send_failed-Runs conn none s sound live = fail-Runs c ErrorCode.connection none s sound live
  send_failed-Runs conn (some context) s sound live =
      rw ((calm s.mem.trace context).0, (calm s.mem.trace context).1)
        (fail-Runs c ErrorCode.hiredis (some context) s sound live)

  after_send :
      (name : Bytes) (k : ℕ) (conn : Conn) (s : Cluster) (res : ℤ) (m : Memory)
      → IsSound s
      → find name s.connections ≡ some k
      → s.mem.conns k ≡ some conn
      → IsLive s.mem c
      → Sent driver k conn c res s.mem m
      → (g : Grows c s (record s { mem = m })) × Runs {A = Option ℕ} c
          (IsPlaced c)
          (if res ==ℤ pos 0
            then pure (some c)
            else (lift (get_conn k) >>= λ x. send_failed driver again x c x.context))
          (record s { mem = m })
  after_send name k conn s res m sound hf hk live (inl (good, t, inl e)) =
      let n = sent_quiet c s.mem t in
      let g : Grows c s (record s { mem = m }) =
        subst (λ n. Grows c s (record s { mem = n })) (sym e)
          (Grows-cmd c s n sound live (λ d ne. update-there s.mem.cmds c d none (λ q. ne (sym q)))
            refl refl refl) in
      (
        g,
        rw good (
          some c,
          record s { mem = m },
          refl,
          Grows-refl c (record s { mem = m }) g.sound,
          ended (ap (λ n. n.cmds c) e ∙ update-here s.mem.cmds c none),
        ),
      )
  after_send name k conn s res m sound hf hk live (inl (good, t, inr e)) =
      let after = record conn { reply_list = conn.reply_list ++ c ∷ [] } in
      let g : Grows c s (record s { mem = m }) =
        subst (λ n. Grows c s (record s { mem = n })) (sym e)
          (Grows-queued c s k conn t sound hk) in
      (
        g,
        rw good (
          some c,
          record s { mem = m },
          refl,
          Grows-refl c (record s { mem = m }) g.sound,
          waits name k after hf (ap (λ n. n.conns k) e ∙ update-here s.mem.conns k (some after))
              (contains-last c conn.reply_list),
        ),
      )
  after_send name k conn s res m sound hf hk live (inr (bad, t, e)) =
      let g : Grows c s (traced s t) = Grows-traced c s t sound in
      let failed : Runs {A = Option ℕ} c (IsPlaced c)
          (lift (get_conn k) >>= λ x. send_failed driver again x c x.context) (traced s t) =
        then-Runs c (lift (get_conn k)) (λ x. send_failed driver again x c x.context) (traced s t)
          (
            conn,
            traced s t,
            lift-some (get_conn k) (traced s t) (get_conn_lem k (traced s t).mem hk),
            Grows-refl c (traced s t) g.sound,
            live,
          )
          (λ x t' g' h. send_failed-Runs x x.context t' g'.sound h) in
      (
        subst (λ n. Grows c s (record s { mem = n })) (sym e) g,
        rw bad (
            subst
              (λ n.
                Runs {A = Option ℕ} c (IsPlaced c)
                  (lift (get_conn k) >>= λ x. send_failed driver again x c x.context)
                  (record s { mem = n }))
              (sym e) failed),
      )

  -- The command after one send was taken from it.
  abbrev spent : Cluster → Cmd → Cluster
  spent s x = record s {
    mem = record (s.mem) { cmds = update s.mem.cmds c (some (record x { ttl = x.ttl - 1 })) };
  }

  send_on-Runs :
      (name : Bytes) (k : ℕ) (conn : Conn) (s : Cluster)
      → IsSound s
      → find name s.connections ≡ some k
      → s.mem.conns k ≡ some conn
      → IsFilled s.mem c
      → Runs {A = Option ℕ} c (IsPlaced c) (send_on driver again k c) s
  unfolding send_on
  send_on-Runs name k conn s sound hf hk f =
      let (res, m, e, d) =
        redis_cmd-Sends driver k c f.cmd conn f.bytes f.picked s.mem hk f.there f.filled f.whole in
      let (g, (a, t, e', g', p)) = after_send name k conn s res m sound hf hk (f.cmd, f.there) d in
      (
        a,
        t,
        >>=-some (lift (redis_cmd driver k (some c))) _ s
              (lift-some (redis_cmd driver k (some c)) s e)
            ∙ e',
        Grows-trans g g',
        p,
      )

  -- Over a connection that is there, exec does not fault, and the command has its place.
  pub exec_on-Runs :
      (name : Bytes) (k : ℕ) (conn : Conn) (s : Cluster)
      → IsSound s
      → find name s.connections ≡ some k
      → s.mem.conns k ≡ some conn
      → IsFilled s.mem c
      → Runs {A = Option ℕ} c (IsPlaced c) (exec_on driver again (some k) c) s
  unfolding exec_on send_over
  exec_on-Runs name k conn s sound hf hk f =
      let x = f.cmd in
      let read : lift (get_cmd c) s ≡ some (x, s) =
        lift-some (get_cmd c) s (get_cmd_lem c s.mem f.there) in
      elim (Bool-cases (x.ttl == 0)) [
        | inl over ↦
            let (a, t, e, g, p) = fail-Runs c ErrorCode.ttl none s sound (x, f.there) in
            (a, t, >>=-some (lift (get_cmd c)) _ s read ∙ rw over e, g, p)
        | inr young ↦
            let y = record x { ttl = x.ttl - 1 } in
            let s₁ = spent s x in
            let g₁ =
              Grows-cmd c s s₁.mem sound (x, f.there)
                (λ d ne. update-there s.mem.cmds c d (some y) (λ q. ne (sym q))) refl refl refl in
            let (a, t, e, g, p) = send_on-Runs name k conn s₁ g₁.sound hf hk (record {
              cmd = y;
              there = update-here s.mem.cmds c (some y);
              bytes = f.bytes;
              filled = f.filled;
              picked = f.picked;
              whole = f.whole;
            }) in
            (a, t, >>=-some (lift (get_cmd c)) _ s read ∙ rw young e, Grows-trans g₁ g, p)
      ]
