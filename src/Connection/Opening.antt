-- ===== src/Connection/Opening.antt =====
-- The steps that make a connection object and connect it, on the heap.
use hiredis_happ.Common.{ℕ, suc, ◌≡◌, refl, ◌∙◌, true, [], none, some}
use hiredis_happ.Name.{Key}
use hiredis_happ.Memory.{Conn, Memory, update, connecting, disconnected, get_conn}
use hiredis_happ.Memory.Laws.{>>=-some, get_conn_lem}
use hiredis_happ.Connection.{no_key, may_connect, new_connection, init, set_connecting}
use hiredis_happ.Connection.Sequence.{make_sequence, make_sequence_lem}

free :
    (conn : Conn) (context : ℕ)
    → conn.status ≡ disconnected
    → conn.context ≡ none
    → may_connect conn (some context) ≡ true
unfolding may_connect
free conn context hs hc = rw (hs, hc) refl

pub new_connection_lem :
    (m : Memory)
    → (q : ℕ) × (a : ℕ) × (new_connection m
        ≡ some (
          m.next_conn,
          record m {
            seq_alloc = a;
            conns = update m.conns m.next_conn (
                some (record {
                  key = no_key;
                  sequence = q;
                  context = none;
                  reply_list = [];
                  status = disconnected;
                }));
            next_conn = suc m.next_conn;
          },
        ))
unfolding new_connection
new_connection_lem m = let (q, a, e) = make_sequence_lem m in (q, a, >>=-some make_sequence _ m e)

pub init_lem :
    (k : ℕ) (key : Key) (m : Memory) (conn : Conn)
    → m.conns k ≡ some conn
    → init k key m
      ≡ some (tt, record m { conns = update m.conns k (some (record conn { key = key })) })
unfolding init
init_lem k key m conn hk = >>=-some (get_conn k) _ m (get_conn_lem k m hk)

pub set_connecting_lem :
    (k context : ℕ) (m : Memory) (conn : Conn)
    → m.conns k ≡ some conn
    → conn.status ≡ disconnected
    → conn.context ≡ none
    → (q : ℕ) × (a : ℕ) × (set_connecting k (some context) m
        ≡ some (
          conn.status,
          record m {
            seq_alloc = a;
            conns =
                update m.conns k (
                  some (record conn { context = some context; status = connecting; sequence = q }));
          },
        ))
unfolding set_connecting
set_connecting_lem k context m conn hk hs hc =
    let (q, a, e) = make_sequence_lem m in
    (
      q,
      a,
      >>=-some (get_conn k) _ m (get_conn_lem k m hk)
          ∙ rw (free conn context hs hc) (>>=-some make_sequence _ m e),
    )
