-- ===== src/Cluster/Resetting.antt =====
-- The contexts that reset of hiredis::happ::cluster disconnects, whether hiredis ends the connections
-- within it or puts their ends off.
pub mod Emptying
use hiredis_happ.Common.{
  ℕ, ◌≡◌, ◌≢◌, ◌⊎◌, inl, inr, refl, sym, ap, subst, ◌∙◌, Bool-cases, Bytes, false, ◌==ℤ◌, pos, [],
  ◌∷◌, ◌++◌, List, All, Option, some, ℤ, some_injective,
}
use hiredis_happ.Common.ErrorCode
use hiredis_happ.Memory.{
  Conn, Memory, Event, disconnects, Driver, later, lost, get_conn, pure, ◌>>=◌, ◌>>◌,
}
use hiredis_happ.Memory.Laws.{
  IsLive, Distinct, >>=-some, get_conn_lem, All-prefix, All-suffix, Distinct-prefix,
  Distinct-suffix, Distinct-apart,
}
use hiredis_happ.Connection.{is_disconnected}
use hiredis_happ.Slots.{Table, SlotStatus, invalid, updating, remove_connection_key, bytes_eq}
use hiredis_happ.Raw.Settling.Framing.{queue, queue-some}
use hiredis_happ.Cluster.State.{Cluster, lift, get_cluster, set_flag}
use hiredis_happ.Cluster.Names.{HasNames, bytes_eq_sound}
use hiredis_happ.Cluster.Connections.{find, forget_host, release_connection}
use hiredis_happ.Cluster.Teardown.{closed, Closed, release_connection-Closed}
use hiredis_happ.Cluster.Events.{forget_lost, on_disconnected_wrapper}
use hiredis_happ.Cluster.Pending.{
  lift-some, waiting, contexts_of, all_contexts_lem, reset_cluster, Emptied, Failed-both,
  fail_slot_pending_lem, fail_pending_lem, same_cmds, still-IsLive,
}
use hiredis_happ.Cluster.Timers.{
  end_context, all_contexts, disconnect_all, fail_slot_pending, fail_pending, clear_slots,
  stop_timer, values, reset,
}

-- The connections of the contexts.
abbrev pub fronts : List (ℕ × ℕ) → List ℕ
fronts [] = []
fronts ((k, c) ∷ rest) = k ∷ fronts rest

-- The commands that wait on the connections of the contexts, and then `ids`.
abbrev pub owned : (ℕ → Option Conn) → List (ℕ × ℕ) → List ℕ → List ℕ
owned f [] ids = ids
owned f ((k, c) ∷ rest) ids = queue f (some k) ++ owned f rest ids

-- The connection is there and open, and its name leads to it.
abbrev pub IsAttached : (ℕ → Option Conn) → List (Bytes × ℕ) → ℕ → Type 0
IsAttached f names k =
    (conn : Conn) × (f k ≡ some conn)
    × (find conn.key.name names ≡ some k)
    × (is_disconnected conn.status ≡ false)

-- The connections of the contexts are such, no two of the same number, and the commands that wait on them
-- and the commands `ids` are alive and all distinct.
pub record Held (s : Cluster) (l : List (ℕ × ℕ)) (ids : List ℕ) : Type 0 where
  pub names : HasNames s.connections
  pub attached : All (IsAttached s.mem.conns s.connections) (fronts l)
  pub apart : Distinct (fronts l)
  pub live : All (IsLive s.mem) (owned s.mem.conns l ids)
  pub distinct : Distinct (owned s.mem.conns l ids)

-- The cluster when hiredis is asked to disconnect the context.
abbrev pub asked : Cluster → ℕ → Cluster
asked s c = record s { mem = record (s.mem) { trace = disconnects c ∷ s.mem.trace } }

abbrev pub with_table : Cluster → SlotStatus → Table → Cluster
with_table s flag table = record s { slot_flag = flag; slots = table }

-- What hiredis leaves of the cluster when each context was disconnected: the end of a connection is put
-- off, or the connection is closed before the next context is disconnected.
pub data Ends (driver : Driver) : List (ℕ × ℕ) → Cluster → Cluster → Type 0 where
  none_left : (s : Cluster) → Ends driver [] s s
  put_off :
      (k c : ℕ) (rest : List (ℕ × ℕ)) (s t : Cluster)
      → driver.disconnect s.mem.trace c ≡ later
      → Ends driver rest (asked s c) t
      → Ends driver ((k, c) ∷ rest) s t
  ended :
      (k c : ℕ) (rest : List (ℕ × ℕ)) (s t : Cluster) (status : ℤ) (conn : Conn) (flag : SlotStatus)
      (table : Table) (n : Memory)
      → driver.disconnect s.mem.trace c ≡ lost status
      → s.mem.conns k ≡ some conn
      → forget_lost status conn.key.name (asked s c) ≡ some (tt, with_table (asked s c) flag table)
      → Closed (with_table (asked s c) flag table) conn.key.name k conn false status n
      → Ends driver rest (closed (with_table (asked s c) flag table) conn.key.name n) t
      → Ends driver ((k, c) ∷ rest) s t

-- hiredis puts the end of a connection off, or reports it.
abbrev pub IsEnding : Driver → Type 0
IsEnding driver =
    (t : List Event) (c : ℕ)
    → (driver.disconnect t c ≡ later) ⊎ ((status : ℤ) × (driver.disconnect t c ≡ lost status))

forget_lost_lem :
    (status : ℤ) (name : Bytes) (s : Cluster)
    → (flag : SlotStatus) × (table : Table) × (forget_lost status name s
        ≡ some (tt, with_table s flag table))
unfolding forget_lost forget_host
forget_lost_lem status name s = elim (Bool-cases (status ==ℤ pos 0)) [
  | inl good ↦ (s.slot_flag, s.slots, rw good refl)
  | inr bad ↦
      let removed = remove_connection_key name s.slots in (removed.0, removed.1, rw bad refl)
]

module _ (s : Cluster) (k : ℕ) (conn : Conn) (status : ℤ) (n : Memory)
    (found : find conn.key.name s.connections ≡ some k)
    (x : Closed s conn.key.name k conn false status n) where
  other_name :
      (j : ℕ) (other : Conn)
      → k ≢ j
      → find other.key.name s.connections ≡ some j
      → bytes_eq conn.key.name other.key.name ≡ false
  other_name j other ne h = elim (Bool-cases (bytes_eq conn.key.name other.key.name)) [
    | inr apart ↦ apart
    | inl same ↦ absurd (
        ne (
          some_injective (
            sym found
            ∙ ap (λ name. find name s.connections)
                (bytes_eq_sound conn.key.name other.key.name same)
            ∙ h)))
  ]

  still-IsAttached :
      (l : List ℕ)
      → All (λ j. k ≢ j) l
      → All (IsAttached s.mem.conns s.connections) l
      → All (IsAttached n.conns (closed s conn.key.name n).connections) l
  still-IsAttached [] apart h = tt
  still-IsAttached (j ∷ l) apart ((other, there, name, o), h) = (
    (
      other,
      x.other_conns j apart.0 ∙ there,
      x.others_found other.key.name (other_name j other apart.0 name) ∙ name,
      o,
    ),
    still-IsAttached l apart.1 h,
  )

  owned_same :
      (l : List (ℕ × ℕ)) (ids : List ℕ)
      → All (λ j. k ≢ j) (fronts l)
      → owned n.conns l ids ≡ owned s.mem.conns l ids
  owned_same [] ids apart = refl
  owned_same ((j, c) ∷ l) ids apart =
      rw (owned, queue, x.other_conns j apart.0, owned_same l ids apart.1) refl

  closed_cmds :
      (l : List ℕ)
      → All (λ d. All (λ c. c ≢ d) conn.reply_list) l
      → All (λ d. n.cmds d ≡ s.mem.cmds d) l
  closed_cmds [] h = tt
  closed_cmds (d ∷ l) h = (x.other_cmds d h.0, closed_cmds l h.1)

  -- What is held behind the connection stays.
  closed-Held :
      (l : List (ℕ × ℕ)) (ids : List ℕ)
      → All (λ j. k ≢ j) (fronts l)
      → All (IsAttached s.mem.conns s.connections) (fronts l)
      → Distinct (fronts l)
      → All (IsLive s.mem) (conn.reply_list ++ owned s.mem.conns l ids)
      → Distinct (conn.reply_list ++ owned s.mem.conns l ids)
      → Held (closed s conn.key.name n) l ids
  closed-Held l ids fresh attached apart live distinct =
      let o = owned s.mem.conns l ids in
      let same = owned_same l ids fresh in
      record {
        names = x.names;
        attached = still-IsAttached (fronts l) fresh attached;
        apart = apart;
        live =
            subst (λ p. All (IsLive n) p) (sym same)
              (still-IsLive s.mem n o (closed_cmds o (Distinct-apart conn.reply_list o distinct))
                (All-suffix (IsLive s.mem) conn.reply_list o live));
        distinct = subst (λ p. Distinct p) (sym same) (Distinct-suffix conn.reply_list o distinct);
      }

-- The end of a connection that is reported while `reset` goes over the contexts.
pub lost_lem :
    (s : Cluster) (k : ℕ) (conn : Conn) (status : ℤ) (c : ℕ) (rest : List (ℕ × ℕ)) (ids : List ℕ)
    → s.mem.conns k ≡ some conn
    → find conn.key.name s.connections ≡ some k
    → is_disconnected conn.status ≡ false
    → Held s ((k, c) ∷ rest) ids
    → (flag : SlotStatus) × (table : Table) × (n : Memory) × (forget_lost status conn.key.name s
        ≡ some (tt, with_table s flag table))
      × (on_disconnected_wrapper k status s
          ≡ some (tt, closed (with_table s flag table) conn.key.name n))
      × Closed (with_table s flag table) conn.key.name k conn false status n
      × Held (closed (with_table s flag table) conn.key.name n) rest ids
unfolding on_disconnected_wrapper
lost_lem s k conn status c rest ids hk found o h =
    let (flag, table, e) = forget_lost_lem status conn.key.name s in
    let u = with_table s flag table in
    let all = owned s.mem.conns rest ids in
    let q : queue s.mem.conns (some k) ≡ conn.reply_list =
      queue-some s.mem.conns (some k) k conn refl hk in
    let live : All (IsLive s.mem) (conn.reply_list ++ all) =
      subst (λ p. All (IsLive s.mem) (p ++ all)) q h.live in
    let distinct : Distinct (conn.reply_list ++ all) =
      subst (λ p. Distinct (p ++ all)) q h.distinct in
    let (n, run, x) =
      release_connection-Closed conn.key.name false status u k conn h.names found hk o
        (All-prefix (IsLive s.mem) conn.reply_list all live)
        (Distinct-prefix conn.reply_list all distinct) in
    (
      flag,
      table,
      n,
      e,
      >>=-some (lift (get_conn k)) _ s (lift-some (get_conn k) s (get_conn_lem k s.mem hk))
          ∙ >>=-some (forget_lost status conn.key.name) _ s e
          ∙ >>=-some (release_connection conn.key.name false status) (λ _. pure tt) u run,
      x,
      closed-Held u k conn status n found x rest ids h.apart.0 h.attached.1 h.apart.1 live distinct,
    )
