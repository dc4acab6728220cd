-- ===== src/Cluster/Teardown.antt =====
-- release_connection of hiredis::happ::cluster: the connection of a name ends, and the user is told once.
use hiredis_happ.Common.{
  ℕ, ◌≡◌, ◌≢◌, refl, ◌∙◌, ap, arith, Bool, true, false, if◌then◌else◌, ◌==ℤ◌, [], ◌∷◌, ◌++◌, List,
  Bytes, All, none, some, ℤ, pos,
}
use hiredis_happ.Common.ErrorCode
use hiredis_happ.Memory.{
  Conn, Status, disconnected, connecting, connected, Memory, Event, deleted, on_connected,
  on_disconnected,
}
use hiredis_happ.Memory.Laws.{IsLive, Distinct, >>=-some}
use hiredis_happ.Connection.{is_disconnected, set_disconnected, delete_connection}
use hiredis_happ.Connection.Release.{closing, set_disconnected_lem, delete_connection_lem}
use hiredis_happ.Connection.Expire.Laws.{expire_trace}
use hiredis_happ.Slots.{bytes_eq}
use hiredis_happ.Cluster.State.{Cluster, Callbacks, lift}
use hiredis_happ.Cluster.Pending.{lift-some}
use hiredis_happ.Cluster.Names.{HasNames, bytes_eq_refl, find-erase, erase-HasNames}
use hiredis_happ.Cluster.Connections.{
  find, erase, get_connection, announce_release, erase_conn, release_from, release_found,
  release_connection,
}

-- What the user is told of a connection that ends, by the status that it had.
abbrev pub announcement : Callbacks → ℕ → Status → ℤ → List Event
announcement callbacks k disconnected status = []
announcement callbacks k connecting status =
    if callbacks.has_on_connected
    then on_connected k none (if status ==ℤ pos 0 then ErrorCode.connection else status) ∷ []
    else []
announcement callbacks k connected status =
    if callbacks.has_on_disconnected then on_disconnected k none status ∷ [] else []

-- The cluster without the name in its map.
abbrev pub closed : Cluster → Bytes → Memory → Cluster
closed s key n = record s { mem = n; connections = erase key s.connections }

pub record Closed (s : Cluster) (key : Bytes) (k : ℕ) (conn : Conn) (close_fd : Bool) (status : ℤ)
    (n : Memory) : Type 0 where
  pub not_found : find key (erase key s.connections) ≡ none
  pub others_found :
      (name : Bytes)
      → bytes_eq key name ≡ false
      → find name (erase key s.connections) ≡ find name s.connections
  pub names : HasNames (erase key s.connections)
  pub conn_gone : n.conns k ≡ none
  pub other_conns : (j : ℕ) → k ≢ j → n.conns j ≡ s.mem.conns j
  pub gone : All (λ c. n.cmds c ≡ none) conn.reply_list
  pub other_cmds : (d : ℕ) → All (λ c. c ≢ d) conn.reply_list → n.cmds d ≡ s.mem.cmds d
  pub trace_after :
      n.trace
      ≡ deleted k
        ∷ (announcement s.callbacks k conn.status status
            ++ expire_trace ErrorCode.connection conn.context s.mem.cmds conn.reply_list
                (closing conn.context close_fd ++ s.mem.trace))

-- The heap after the user was told.
abbrev told : Cluster → ℕ → Status → ℤ → Memory
told s k from_status status = record (s.mem) {
  trace = announcement s.callbacks k from_status status ++ s.mem.trace;
}

announce_release_lem :
    (s : Cluster) (k : ℕ) (from_status : Status) (status : ℤ)
    → announce_release s k from_status status s
      ≡ some (tt, record s { mem = told s k from_status status })
unfolding announce_release
announce_release_lem s k disconnected status = refl
announce_release_lem s k connecting status = ground arith
announce_release_lem s k connected status = ground arith

erase_conn_lem :
    (key : Bytes) (k : ℕ) (s : Cluster) {n : Memory}
    → delete_connection k s.mem ≡ some (tt, n)
    → erase_conn key k s ≡ some (tt, closed s key n)
unfolding erase_conn
erase_conn_lem key k s e =
    >>=-some (lift (delete_connection k)) _ s (lift-some (delete_connection k) s e)

release_from_lem :
    (key : Bytes) (k : ℕ) (from_status : Status) (status : ℤ) (s : Cluster) {n : Memory}
    → is_disconnected from_status ≡ false
    → delete_connection k (told s k from_status status) ≡ some (tt, n)
    → release_from key k from_status status s ≡ some (true, closed s key n)
unfolding release_from is_disconnected
release_from_lem key k disconnected status s hs e = cc
release_from_lem key k connecting status s hs e =
    >>=-some (announce_release s k connecting status) _ s
      (announce_release_lem s k connecting status)
    ∙ >>=-some (erase_conn key k) _ (record s { mem = told s k connecting status })
        (erase_conn_lem key k (record s { mem = told s k connecting status }) e)
release_from_lem key k connected status s hs e =
    >>=-some (announce_release s k connected status) _ s (announce_release_lem s k connected status)
    ∙ >>=-some (erase_conn key k) _ (record s { mem = told s k connected status })
        (erase_conn_lem key k (record s { mem = told s k connected status }) e)

-- The connection of a name, where it is connecting or connected, its waiting commands are alive and
-- stand in its list once, and the names of the map are distinct, ends as follows, and nothing of it
-- faults: its context is disconnected, if that is asked for; its waiting commands are called with
-- REDIS_HAPP_CONNECTION, if their callbacks are still there, and freed, from the oldest on; the user is
-- told of the failed connect or of the end; the object is deleted; the name leads to no connection any
-- more, and every other name leads to the same as before.
pub release_connection-Closed :
    (key : Bytes) (close_fd : Bool) (status : ℤ) (s : Cluster) (k : ℕ) (conn : Conn)
    → HasNames s.connections
    → find key s.connections ≡ some k
    → s.mem.conns k ≡ some conn
    → is_disconnected conn.status ≡ false
    → All (IsLive s.mem) conn.reply_list
    → Distinct conn.reply_list
    → (n : Memory) × (release_connection key close_fd status s ≡ some (true, closed s key n))
      × Closed s key k conn close_fd status n
unfolding release_connection release_found get_connection
release_connection-Closed key close_fd status s k conn names hr hk hs live distinct =
    let (m, e, d) = set_disconnected_lem k close_fd s.mem conn hk hs live distinct in
    let m₁ = told (record s { mem = m }) k conn.status status in
    let (f, e₁, gone, same) = delete_connection_lem k d.new_sequence m₁ conn d.conn_after in
    let n = record m₁ { conns = f; trace = deleted k ∷ m₁.trace } in
    (
      n,
      ap (λ o. release_found key close_fd status o s) hr
          ∙ >>=-some (lift (set_disconnected k close_fd)) _ s
              (lift-some (set_disconnected k close_fd) s e)
          ∙ release_from_lem key k conn.status status (record s { mem = m }) hs e₁,
      record {
        not_found = find-erase key s.connections key names ∙ rw (bytes_eq_refl key) refl;
        others_found = λ name apart. find-erase key s.connections name names ∙ rw apart refl;
        names = erase-HasNames key s.connections names;
        conn_gone = gone;
        other_conns = λ j h. same j h ∙ d.other_conns j h;
        gone = d.gone;
        other_cmds = d.other_cmds;
        trace_after =
            ap (λ t. deleted k ∷ (announcement s.callbacks k conn.status status ++ t))
              d.trace_after;
      },
    )
