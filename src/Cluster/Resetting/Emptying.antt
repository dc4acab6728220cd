-- ===== src/Cluster/Resetting/Emptying.antt =====
-- reset of hiredis::happ::cluster, from the first context to the last command.
use hiredis_happ.Common.{ℕ, ◌≡◌, inl, inr, refl, ap, ◌∙◌, [], ◌∷◌, ◌++◌, List, All, some}
use hiredis_happ.Common.ErrorCode
use hiredis_happ.Memory.{Conn, Memory, Driver, pure, ◌>>=◌, ◌>>◌}
use hiredis_happ.Memory.Laws.{
  IsLive, Distinct, >>=-some, All-prefix, All-suffix, Distinct-prefix, Distinct-suffix,
  Distinct-apart,
}
use hiredis_happ.Slots.{invalid, updating}
use hiredis_happ.Raw.Settling.Framing.{queue}
use hiredis_happ.Cluster.State.{Cluster, get_cluster, set_flag}
use hiredis_happ.Cluster.Teardown.{closed}
use hiredis_happ.Cluster.Pending.{
  waiting, contexts_of, all_contexts_lem, reset_cluster, Emptied, Failed-both,
  fail_slot_pending_lem, fail_pending_lem, same_cmds, still-IsLive,
}
use hiredis_happ.Cluster.Timers.{
  end_context, all_contexts, disconnect_all, fail_slot_pending, fail_pending, clear_slots,
  stop_timer, values, reset,
}
use hiredis_happ.Cluster.Resetting.{
  Held, owned, asked, with_table, Ends, none_left, put_off, ended, IsEnding, lost_lem,
}

-- What disconnecting the contexts leaves: it does not fault, and the commands `ids` stay alive, and where
-- they wait.
record Left (driver : Driver) (fuel : ℕ) (l : List (ℕ × ℕ)) (ids : List ℕ) (s t : Cluster)
    : Type 0 where
  runs : disconnect_all driver fuel l s ≡ some (tt, t)
  ends : Ends driver l s t
  live : All (IsLive t.mem) ids
  distinct : Distinct ids
  slot_pending_same : t.slot_pending ≡ s.slot_pending
  timer_same : t.timer ≡ s.timer

module _ (driver : Driver) (ending : IsEnding driver) (fuel : ℕ) (ids : List ℕ) where
  disconnect_all-Left :
      (l : List (ℕ × ℕ)) (s : Cluster) → Held s l ids → (t : Cluster) × Left driver fuel l ids s t
  unfolding disconnect_all end_context
  disconnect_all-Left [] s h = (
    s,
    record {
      runs = refl;
      ends = none_left s;
      live = h.live;
      distinct = h.distinct;
      slot_pending_same = refl;
      timer_same = refl;
    },
  )
  disconnect_all-Left ((k, c) ∷ rest) s h = elim (ending s.mem.trace c) [
    | inl deferred ↦
        let a = asked s c in
        let (t, q) = disconnect_all-Left rest a (record {
          names = h.names;
          attached = h.attached.1;
          apart = h.apart.1;
          live =
              All-suffix (IsLive s.mem) (queue s.mem.conns (some k)) (owned s.mem.conns rest ids)
                h.live;
          distinct =
              Distinct-suffix (queue s.mem.conns (some k)) (owned s.mem.conns rest ids) h.distinct;
        }) in
        (
          t,
          record {
            runs =
                >>=-some (end_context driver fuel k c (driver.disconnect s.mem.trace c))
                  (λ _. disconnect_all driver fuel rest) a
                  (ap (λ e. end_context driver fuel k c e a) deferred)
                ∙ q.runs;
            ends = put_off k c rest s t deferred q.ends;
            live = q.live;
            distinct = q.distinct;
            slot_pending_same = q.slot_pending_same;
            timer_same = q.timer_same;
          },
        )
    | inr (status, gone) ↦
        let a = asked s c in
        let (conn, hk, found, o) = h.attached.0 in
        let (flag, table, n, forgets, run, x, h') =
          lost_lem a k conn status c rest ids hk found o (record {
            names = h.names;
            attached = h.attached;
            apart = h.apart;
            live = h.live;
            distinct = h.distinct;
          }) in
        let u = closed (with_table a flag table) conn.key.name n in
        let (t, q) = disconnect_all-Left rest u h' in
        (
          t,
          record {
            runs =
                >>=-some (end_context driver fuel k c (driver.disconnect s.mem.trace c))
                  (λ _. disconnect_all driver fuel rest) a
                  (ap (λ e. end_context driver fuel k c e a) gone ∙ run)
                ∙ q.runs;
            ends = ended k c rest s t status conn flag table n gone hk forgets x q.ends;
            live = q.live;
            distinct = q.distinct;
            slot_pending_same = q.slot_pending_same;
            timer_same = q.timer_same;
          },
        )
  ]

-- What reset does, where `t` is the cluster after every context was disconnected, and `n` the heap at the
-- end.
pub record Empties (driver : Driver) (s t : Cluster) (n : Memory) : Type 0 where
  pub ends :
      Ends driver
        (contexts_of s.mem (driver.order s.mem.trace (values s.connections)))
        (record s { slot_flag = updating })
        t
  pub slot_pending_same : t.slot_pending ≡ s.slot_pending
  pub timer_same : t.timer ≡ s.timer
  pub emptied : Emptied s.slot_pending (waiting s.timer.timer_pending) t.mem n

-- Let hiredis, for each context that reset disconnects, either put the end of the connection off,
-- as inside a callback, or report the end of the connection before redisAsyncDisconnect returns;
-- let every connection that the map hands out be there, those with a context open, with a name
-- that leads to it, and different from each other, the names of the map distinct, and the commands
-- that wait on these connections, for the slot table and for the timer alive and all distinct.
-- reset does not fault. First the contexts are disconnected, in order: where the end is put off
-- only the trace tells; else remove_connection_key takes the host out of the slot table if the
-- status is an error, the commands that wait on the connection are called with
-- REDIS_HAPP_CONNECTION, if their callbacks are still there, and freed, the user is told, the
-- object is deleted and its name leads to no connection any more, while every other name,
-- connection and command stays. The commands that wait for the table and for the timer are the
-- same until then; after it every command that waits for the slot table is called with
-- REDIS_HAPP_SLOT_UNAVAILABLE and freed, and then every command that waits for the timer with
-- REDIS_HAPP_TIMEOUT and freed, each from the oldest on, and called only if its callback is still
-- there; no other command and no connection object changes any more; no slot has hosts, the table
-- is invalid, and the timer stops.
pub reset-Empties :
    (driver : Driver) (fuel : ℕ) (s : Cluster)
    → IsEnding driver
    → All
        (λ k. (conn : Conn) × (s.mem.conns k ≡ some conn))
        (driver.order s.mem.trace (values s.connections))
    → Held s
        (contexts_of s.mem (driver.order s.mem.trace (values s.connections)))
        (s.slot_pending ++ waiting s.timer.timer_pending)
    → (t : Cluster) × (n : Memory) × (reset driver fuel s ≡ some (ErrorCode.ok, reset_cluster t n))
      × Empties driver s t n
unfolding reset set_flag clear_slots stop_timer
reset-Empties driver fuel s ending there h =
    let ks = driver.order s.mem.trace (values s.connections) in
    let contexts = contexts_of s.mem ks in
    let ids = s.slot_pending in
    let delayed = waiting s.timer.timer_pending in
    let s₀ = record s { slot_flag = updating } in
    let (t, left) = disconnect_all-Left driver ending fuel (ids ++ delayed) contexts s₀ (record {
      names = h.names;
      attached = h.attached;
      apart = h.apart;
      live = h.live;
      distinct = h.distinct;
    }) in
    let (m₁, e₁, p) =
      fail_slot_pending_lem ids t left.slot_pending_same
        (All-prefix (IsLive t.mem) ids delayed left.live)
        (Distinct-prefix ids delayed left.distinct) in
    let t₂ = record t { mem = m₁; slot_pending = []; slots = λ slot. [] } in
    let (n, e₂, q) =
      fail_pending_lem s.timer.timer_pending t₂ (ap (λ r. r.timer_pending) left.timer_same)
        (still-IsLive t.mem m₁ delayed
          (same_cmds delayed p (Distinct-apart ids delayed left.distinct))
          (All-suffix (IsLive t.mem) ids delayed left.live))
        (Distinct-suffix ids delayed left.distinct) in
    (
      t,
      n,
      >>=-some (all_contexts ks) _ s (all_contexts_lem ks s there)
          ∙ >>=-some (disconnect_all driver fuel contexts) _ s₀ left.runs
          ∙ ap
              (λ l.
                (do
                  fail_slot_pending l
                  clear_slots
                  u ← get_cluster
                  fail_pending u.timer.timer_pending
                  stop_timer
                  set_flag invalid
                  pure ErrorCode.ok)
                  t)
              left.slot_pending_same
          ∙ >>=-some (fail_slot_pending ids) _ t e₁
          ∙ ap
              (λ r.
                (do fail_pending r.timer_pending; stop_timer; set_flag invalid; pure ErrorCode.ok)
                  t₂)
              left.timer_same
          ∙ >>=-some (fail_pending s.timer.timer_pending) _ t₂ e₂,
      record {
        ends = left.ends;
        slot_pending_same = left.slot_pending_same;
        timer_same = left.timer_same;
        emptied = Failed-both ids delayed t.mem m₁ n left.distinct p q;
      },
    )
