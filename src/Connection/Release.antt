-- ===== src/Connection/Release.antt =====
-- connection::release and set_disconnected: every waiting command is answered and destroyed.
use hiredis_happ.Common.{
  ℕ, ◌≡◌, ◌≢◌, refl, ◌∙◌, arith, Bool, true, false, [], ◌∷◌, ◌++◌, List, All, Option, none, some,
}
use hiredis_happ.Common.ErrorCode
use hiredis_happ.Memory.{Conn, disconnected, Memory, Event, disconnects, deleted, update, get_conn}
use hiredis_happ.Memory.Laws.{IsLive, Distinct, >>=-some, get_conn_lem}
use hiredis_happ.Connection.Expire.{expire_all}
use hiredis_happ.Connection.Expire.Laws.{expire_trace, expire_all_lem}
use hiredis_happ.Connection.Sequence.{make_sequence, make_sequence_lem}
use hiredis_happ.Connection.{
  close_context, release, is_disconnected, drop_connection, set_disconnected, delete_connection,
}

-- redisAsyncDisconnect is called for a context that is there, if it is asked for.
abbrev pub closing : Option ℕ → Bool → List Event
closing none close_fd = []
closing (some c) true = disconnects c ∷ []
closing (some c) false = []

close_context_lem :
    (context : Option ℕ) (close_fd : Bool) (m : Memory)
    → close_context context close_fd m
      ≡ some (tt, record m { trace = closing context close_fd ++ m.trace })
unfolding close_context
close_context_lem none close_fd m = refl
close_context_lem (some c) true m = refl
close_context_lem (some c) false m = refl

-- A connection that was released: it keeps its key and its sequence, and has nothing else.
abbrev pub released : Conn → Conn
released conn = record conn { context = none; reply_list = []; status = disconnected }

pub record Released (this : ℕ) (conn : Conn) (close_fd : Bool) (m n : Memory) : Type 0 where
  pub conn_after : n.conns this ≡ some (released conn)
  pub other_conns : (k : ℕ) → this ≢ k → n.conns k ≡ m.conns k
  pub gone : All (λ c. n.cmds c ≡ none) conn.reply_list
  pub other_cmds : (d : ℕ) → All (λ c. c ≢ d) conn.reply_list → n.cmds d ≡ m.cmds d
  pub trace_after :
      n.trace
      ≡ expire_trace ErrorCode.connection conn.context m.cmds conn.reply_list
          (closing conn.context close_fd ++ m.trace)
  pub next_cmd_same : n.next_cmd ≡ m.next_cmd
  pub next_conn_same : n.next_conn ≡ m.next_conn
  pub seq_same : n.seq_alloc ≡ m.seq_alloc

-- Releasing a connection whose waiting commands are alive and stand in its list once never faults:
-- the context is closed first, if it is asked for; then every waiting command, from the oldest on,
-- is called with REDIS_HAPP_CONNECTION, if its callback is still there, and destroyed; the
-- connection ends without context, disconnected; and no other command or connection changes.
pub release_lem :
    (this : ℕ) (close_fd : Bool) (m : Memory) (conn : Conn)
    → m.conns this ≡ some conn
    → All (IsLive m) conn.reply_list
    → Distinct conn.reply_list
    → (n : Memory) × (release this close_fd m ≡ some (tt, n)) × Released this conn close_fd m n
unfolding release
release_lem this close_fd m conn hk live distinct =
    let m₀ = record m { trace = closing conn.context close_fd ++ m.trace } in
    let (m₁, e, q) =
      expire_all_lem this ErrorCode.connection conn.reply_list m₀ conn hk live distinct in
    (
      record m₁ { conns = update m₁.conns this (some (released conn)) },
      >>=-some (get_conn this) _ m (get_conn_lem this m hk)
          ∙ >>=-some (close_context conn.context close_fd) _ m
              (close_context_lem conn.context close_fd m)
          ∙ >>=-some (expire_all this ErrorCode.connection conn.reply_list) _ m₀ e
          ∙ >>=-some (get_conn this) _ m₁ (get_conn_lem this m₁ q.conn_after),
      record {
        conn_after = ground arith;
        other_conns = λ k h. ground (arith, q.other_conns k h);
        gone = q.gone;
        other_cmds = q.other_cmds;
        trace_after = q.trace_after;
        next_cmd_same = q.next_cmd_same;
        next_conn_same = q.next_conn_same;
        seq_same = q.seq_same;
      },
    )

-- What `set_disconnected` does to a connection that is not disconnected: as `release`, and with a new
-- sequence.
pub record Disconnected (this : ℕ) (conn : Conn) (close_fd : Bool) (m n : Memory) : Type 0 where
  pub new_sequence : ℕ
  pub conn_after : n.conns this ≡ some (record (released conn) { sequence = new_sequence })
  pub other_conns : (k : ℕ) → this ≢ k → n.conns k ≡ m.conns k
  pub gone : All (λ c. n.cmds c ≡ none) conn.reply_list
  pub other_cmds : (d : ℕ) → All (λ c. c ≢ d) conn.reply_list → n.cmds d ≡ m.cmds d
  pub trace_after :
      n.trace
      ≡ expire_trace ErrorCode.connection conn.context m.cmds conn.reply_list
          (closing conn.context close_fd ++ m.trace)
  pub next_cmd_same : n.next_cmd ≡ m.next_cmd
  pub next_conn_same : n.next_conn ≡ m.next_conn

drop_lem :
    (this : ℕ) (close_fd : Bool) (m : Memory) (conn : Conn)
    → m.conns this ≡ some conn
    → All (IsLive m) conn.reply_list
    → Distinct conn.reply_list
    → (n : Memory) × (drop_connection this conn close_fd m ≡ some (conn.status, n))
      × Disconnected this conn close_fd m n
unfolding drop_connection
drop_lem this close_fd m conn hk live distinct =
    let conn₀ = record conn { status = disconnected } in
    let m₀ = record m { conns = update m.conns this (some conn₀) } in
    let (m₁, e₁, r) = release_lem this close_fd m₀ conn₀ (ground arith) live distinct in
    let (q, a, e₂) = make_sequence_lem m₁ in
    let m₂ = record m₁ { seq_alloc = a } in
    let conn' = record (released conn₀) { sequence = q } in
    (
      record m₂ { conns = update m₂.conns this (some conn') },
      >>=-some (release this close_fd) _ m₀ e₁
          ∙ >>=-some make_sequence _ m₁ e₂
          ∙ >>=-some (get_conn this) _ m₂ (get_conn_lem this m₂ r.conn_after),
      record {
        new_sequence = q;
        conn_after = ground arith;
        other_conns = λ k h. ground (arith, r.other_conns k h);
        gone = r.gone;
        other_cmds = r.other_cmds;
        trace_after = r.trace_after;
        next_cmd_same = r.next_cmd_same;
        next_conn_same = r.next_conn_same;
      },
    )

pub set_disconnected_lem :
    (this : ℕ) (close_fd : Bool) (m : Memory) (conn : Conn)
    → m.conns this ≡ some conn
    → is_disconnected conn.status ≡ false
    → All (IsLive m) conn.reply_list
    → Distinct conn.reply_list
    → (n : Memory) × (set_disconnected this close_fd m ≡ some (conn.status, n))
      × Disconnected this conn close_fd m n
unfolding set_disconnected
set_disconnected_lem this close_fd m conn hk hs live distinct =
    let (n, e, d) = drop_lem this close_fd m conn hk live distinct in
    (n, >>=-some (get_conn this) _ m (get_conn_lem this m hk) ∙ rw hs e, d)

-- The deletion of a connection that was released before.
pub delete_connection_lem :
    (this q : ℕ) (m : Memory) (conn : Conn)
    → m.conns this ≡ some (record (released conn) { sequence = q })
    → (f : ℕ → Option Conn) × (delete_connection this m
        ≡ some (tt, record m { conns = f; trace = deleted this ∷ m.trace }))
      × (f this ≡ none)
      × ((k : ℕ) → this ≢ k → f k ≡ m.conns k)
unfolding delete_connection release close_context expire_all
delete_connection_lem this q m conn hk =
    let conn' = record (released conn) { sequence = q } in
    (
      update (update m.conns this (some conn')) this none,
      ground arith,
      ground arith,
      λ k h. ground arith,
    )
