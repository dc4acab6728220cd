-- ===== src/Raw/Teardown.antt =====
-- release_connection of hiredis::happ::raw: the connection ends, and the user is told once.
use hiredis_happ.Common.{
  ℕ, ◌≡◌, ◌≢◌, refl, ◌∙◌, ap, arith, Bool, true, false, if◌then◌else◌, ◌==ℤ◌, [], ◌∷◌, ◌++◌, List,
  All, none, some, ℤ, pos,
}
use hiredis_happ.Common.ErrorCode
use hiredis_happ.Memory.{
  Conn, Status, disconnected, connecting, connected, Memory, Event, deleted, on_connected,
  on_disconnected,
}
use hiredis_happ.Memory.Laws.{IsLive, Distinct, >>=-some}
use hiredis_happ.Connection.{is_disconnected, set_disconnected, delete_connection}
use hiredis_happ.Connection.Release.{closing, set_disconnected_lem, delete_connection_lem}
use hiredis_happ.Connection.Expire.Laws.{expire_trace}
use hiredis_happ.Raw.State.{Raw, Callbacks, lift}
use hiredis_happ.Raw.Pending.{lift-some}
use hiredis_happ.Raw.Release.{
  announce_release, drop_conn, release_from, release_current, release_connection,
}

-- What the user is told of a connection that ends, by the status that it had.
abbrev pub announcement : Callbacks → ℕ → Status → ℤ → List Event
announcement callbacks k disconnected status = []
announcement callbacks k connecting status =
    if callbacks.has_on_connected
    then on_connected k none (if status ==ℤ pos 0 then ErrorCode.connection else status) ∷ []
    else []
announcement callbacks k connected status =
    if callbacks.has_on_disconnected then on_disconnected k none status ∷ [] else []

-- The raw object without a connection.
abbrev pub closed : Raw → Memory → Raw
closed r n = record r {
  mem = n;
  conn = none;
  timer = record (r.timer) { conn_sequence = 0; conn_timeout = 0 };
}

pub record Closed (r : Raw) (k : ℕ) (conn : Conn) (close_fd : Bool) (status : ℤ) (n : Memory)
    : Type 0 where
  pub conn_gone : n.conns k ≡ none
  pub other_conns : (j : ℕ) → k ≢ j → n.conns j ≡ r.mem.conns j
  pub gone : All (λ c. n.cmds c ≡ none) conn.reply_list
  pub other_cmds : (d : ℕ) → All (λ c. c ≢ d) conn.reply_list → n.cmds d ≡ r.mem.cmds d
  pub next_cmd_same : n.next_cmd ≡ r.mem.next_cmd
  pub trace_after :
      n.trace
      ≡ deleted k
        ∷ (announcement r.callbacks k conn.status status
            ++ expire_trace ErrorCode.connection conn.context r.mem.cmds conn.reply_list
                (closing conn.context close_fd ++ r.mem.trace))

-- The heap after the user was told.
abbrev told : Raw → ℕ → Status → ℤ → Memory
told r k from_status status = record (r.mem) {
  trace = announcement r.callbacks k from_status status ++ r.mem.trace;
}

announce_release_lem :
    (r : Raw) (k : ℕ) (from_status : Status) (status : ℤ)
    → announce_release r k from_status status r
      ≡ some (tt, record r { mem = told r k from_status status })
unfolding announce_release
announce_release_lem r k disconnected status = refl
announce_release_lem r k connecting status = ground arith
announce_release_lem r k connected status = ground arith

drop_conn_lem :
    (k : ℕ) (r : Raw) {n : Memory}
    → delete_connection k r.mem ≡ some (tt, n)
    → drop_conn k r ≡ some (tt, closed r n)
unfolding drop_conn
drop_conn_lem k r e =
    >>=-some (lift (delete_connection k)) _ r (lift-some (delete_connection k) r e)

release_from_lem :
    (k : ℕ) (from_status : Status) (status : ℤ) (r : Raw) {n : Memory}
    → is_disconnected from_status ≡ false
    → delete_connection k (told r k from_status status) ≡ some (tt, n)
    → release_from k from_status status r ≡ some (true, closed r n)
unfolding release_from is_disconnected
release_from_lem k disconnected status r hs e = cc
release_from_lem k connecting status r hs e =
    >>=-some (announce_release r k connecting status) _ r
      (announce_release_lem r k connecting status)
    ∙ >>=-some (drop_conn k) _ (record r { mem = told r k connecting status })
        (drop_conn_lem k (record r { mem = told r k connecting status }) e)
release_from_lem k connected status r hs e =
    >>=-some (announce_release r k connected status) _ r (announce_release_lem r k connected status)
    ∙ >>=-some (drop_conn k) _ (record r { mem = told r k connected status })
        (drop_conn_lem k (record r { mem = told r k connected status }) e)

-- The connection of the raw object, where it is connecting or connected and its waiting commands are
-- alive and stand in its list once, ends as follows, and nothing of it faults: its context is
-- disconnected, if that is asked for; its waiting commands are called with REDIS_HAPP_CONNECTION, if
-- their callbacks are still there, and freed, from the oldest on; the user is told of the failed
-- connect or of the end; the object is deleted, and the raw object has no connection and no timeout
-- of one.
pub release_connection_lem :
    (close_fd : Bool) (status : ℤ) (r : Raw) (k : ℕ) (conn : Conn)
    → r.conn ≡ some k
    → r.mem.conns k ≡ some conn
    → is_disconnected conn.status ≡ false
    → All (IsLive r.mem) conn.reply_list
    → Distinct conn.reply_list
    → (n : Memory) × (release_connection close_fd status r ≡ some (true, closed r n))
      × Closed r k conn close_fd status n
unfolding release_connection release_current
release_connection_lem close_fd status r k conn hr hk hs live distinct =
    let (m, e, d) = set_disconnected_lem k close_fd r.mem conn hk hs live distinct in
    let m₁ = told (record r { mem = m }) k conn.status status in
    let (f, e₁, gone, same) = delete_connection_lem k d.new_sequence m₁ conn d.conn_after in
    let n = record m₁ { conns = f; trace = deleted k ∷ m₁.trace } in
    (
      n,
      ap (λ o. release_current close_fd status o r) hr
          ∙ >>=-some (lift (set_disconnected k close_fd)) _ r
              (lift-some (set_disconnected k close_fd) r e)
          ∙ release_from_lem k conn.status status (record r { mem = m }) hs e₁,
      record {
        conn_gone = gone;
        other_conns = λ j h. same j h ∙ d.other_conns j h;
        gone = d.gone;
        other_cmds = d.other_cmds;
        next_cmd_same = d.next_cmd_same;
        trace_after =
            ap (λ t. deleted k ∷ (announcement r.callbacks k conn.status status ++ t))
              d.trace_after;
      },
    )
