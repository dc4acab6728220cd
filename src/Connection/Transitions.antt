-- ===== src/Connection/Transitions.antt =====
-- The states of a connection, over any history of its transitions.
use hiredis_happ.Common.{
  ℕ, ◌≡◌, ◌≢◌, refl, ◌∙◌, arith, Bool, true, Bool-cases, inl, inr, [], ◌∷◌, List, All, Option, none,
  some,
}
use hiredis_happ.Memory.{
  Conn, disconnected, connecting, connected, Memory, update, M, ◌>>=◌, ◌>>◌, pure, get_conn,
}
use hiredis_happ.Memory.Laws.{IsLive, Distinct, >>=-some, get_conn_lem}
use hiredis_happ.Connection.Sequence.{make_sequence, make_sequence_lem}
use hiredis_happ.Connection.Release.{released, release_lem, set_disconnected_lem}
use hiredis_happ.Connection.{
  may_connect, may_finish, set_connecting, set_connected, set_disconnected, release,
  is_disconnected,
}

-- A connection has a context exactly when it is connecting or connected, and commands wait only then.
pub record IsConsistent (conn : Conn) : Type 0 where
  pub no_context : conn.status ≡ disconnected → conn.context ≡ none
  pub no_status : conn.context ≡ none → conn.status ≡ disconnected
  pub none_waits : conn.context ≡ none → conn.reply_list ≡ []

pub data Transition : Type 0 where
  connects : Option ℕ → Transition
  finishes : Transition
  disconnects releases : Bool → Transition

abbrev ignore : {A : Type 0} → M Memory A → M Memory (Unit {0})
ignore x = x >>= λ _. pure tt

unfoldable pub run : ℕ → Transition → M Memory (Unit {0})
run this (connects c) = ignore (set_connecting this c)
run this finishes = ignore (set_connected this)
run this (disconnects close_fd) = ignore (set_disconnected this close_fd)
run this (releases close_fd) = release this close_fd

unfoldable pub run_all : ℕ → List Transition → M Memory (Unit {0})
run_all this [] = pure tt
run_all this (t ∷ ts) = run this t >> run_all this ts

-- A connection object that is there, in a consistent state, with waiting commands that are alive and
-- stand in its list once.
pub record IsSound (this : ℕ) (m : Memory) : Type 0 where
  pub conn : Conn
  pub there : m.conns this ≡ some conn
  pub consistent : IsConsistent conn
  pub live : All (IsLive m) conn.reply_list
  pub distinct : Distinct conn.reply_list

-- `x` does not fault at `m`, and leaves a sound connection.
abbrev Keeps : {A : Type 0} → ℕ → M Memory A → Memory → Type 0
Keeps {A} this x m = (a : A) × (n : Memory) × (x m ≡ some (a, n)) × IsSound this n

ignore-Keeps :
    {A : Type 0} (this : ℕ) (x : M Memory A) (m : Memory) → Keeps this x m → Keeps this (ignore x) m
ignore-Keeps this x m (a, n, e, s) = (tt, n, >>=-some x _ m e, s)

released-IsConsistent : (conn : Conn) → IsConsistent (released conn)
released-IsConsistent conn = record {
  no_context = λ _. refl;
  no_status = λ _. refl;
  none_waits = λ _. refl;
}

released_anew-IsConsistent :
    (conn : Conn) (q : ℕ) → IsConsistent (record (released conn) { sequence = q })
released_anew-IsConsistent conn q = record {
  no_context = λ _. refl;
  no_status = λ _. refl;
  none_waits = λ _. refl;
}

release-Keeps :
    (this : ℕ) (close_fd : Bool) (m : Memory)
    → IsSound this m
    → Keeps this (release this close_fd) m
release-Keeps this close_fd m s =
    let (n, e, r) = release_lem this close_fd m s.conn s.there s.live s.distinct in
    (
      tt,
      n,
      e,
      record {
        conn = released s.conn;
        there = r.conn_after;
        consistent = released-IsConsistent s.conn;
        live = tt;
        distinct = tt;
      },
    )

may_connect-some : (conn : Conn) (c : Option ℕ) → may_connect conn c ≡ true → c ≢ none
unfolding may_connect
may_connect-some conn none h = cc
may_connect-some conn (some c) h = ground arith

may_finish-some : (conn : Conn) → may_finish conn ≡ true → conn.context ≢ none
unfolding may_finish
may_finish-some conn h = ground arith

connecting-Keeps :
    (this : ℕ) (c : Option ℕ) (m : Memory) → IsSound this m → Keeps this (set_connecting this c) m
unfolding set_connecting
connecting-Keeps this c m s = elim (Bool-cases (may_connect s.conn c)) [
  | inl go ↦
      let (q, a, e) = make_sequence_lem m in
      let conn' = record s.conn { context = c; status = connecting; sequence = q } in
      (
        s.conn.status,
        record m { seq_alloc = a; conns = update m.conns this (some conn') },
        >>=-some (get_conn this) _ m (get_conn_lem this m s.there)
            ∙ rw go (>>=-some make_sequence _ m e),
        record {
          conn = conn';
          there = ground arith;
          consistent = record {
            no_context = λ h. cc;
            no_status = λ h. absurd (may_connect-some s.conn c go h);
            none_waits = λ h. absurd (may_connect-some s.conn c go h);
          };
          live = s.live;
          distinct = s.distinct;
        },
      )
  | inr stay ↦ (
    s.conn.status,
    m,
    >>=-some (get_conn this) _ m (get_conn_lem this m s.there) ∙ rw stay refl,
    s,
  )
]

connected-Keeps : (this : ℕ) (m : Memory) → IsSound this m → Keeps this (set_connected this) m
unfolding set_connected
connected-Keeps this m s = elim (Bool-cases (may_finish s.conn)) [
  | inl go ↦
      let (q, a, e) = make_sequence_lem m in
      let conn' = record s.conn { status = connected; sequence = q } in
      (
        s.conn.status,
        record m { seq_alloc = a; conns = update m.conns this (some conn') },
        >>=-some (get_conn this) _ m (get_conn_lem this m s.there)
            ∙ rw go (>>=-some make_sequence _ m e),
        record {
          conn = conn';
          there = ground arith;
          consistent = record {
            no_context = λ h. cc;
            no_status = λ h. absurd (may_finish-some s.conn go h);
            none_waits = λ h. absurd (may_finish-some s.conn go h);
          };
          live = s.live;
          distinct = s.distinct;
        },
      )
  | inr stay ↦ (
    s.conn.status,
    m,
    >>=-some (get_conn this) _ m (get_conn_lem this m s.there) ∙ rw stay refl,
    s,
  )
]

disconnected-Keeps :
    (this : ℕ) (close_fd : Bool) (m : Memory)
    → IsSound this m
    → Keeps this (set_disconnected this close_fd) m
unfolding set_disconnected
disconnected-Keeps this close_fd m s = elim (Bool-cases (is_disconnected s.conn.status)) [
  | inl old ↦
      (disconnected, m, >>=-some (get_conn this) _ m (get_conn_lem this m s.there) ∙ rw old refl, s)
  | inr go ↦
      let (n, e, d) = set_disconnected_lem this close_fd m s.conn s.there go s.live s.distinct in
      (
        s.conn.status,
        n,
        e,
        record {
          conn = record (released s.conn) { sequence = d.new_sequence };
          there = d.conn_after;
          consistent = released_anew-IsConsistent s.conn d.new_sequence;
          live = tt;
          distinct = tt;
        },
      )
]

run-Keeps : (this : ℕ) (t : Transition) (m : Memory) → IsSound this m → Keeps this (run this t) m
unfolding run
run-Keeps this (connects c) m s =
    ignore-Keeps this (set_connecting this c) m (connecting-Keeps this c m s)
run-Keeps this finishes m s = ignore-Keeps this (set_connected this) m (connected-Keeps this m s)
run-Keeps this (disconnects close_fd) m s =
    ignore-Keeps this (set_disconnected this close_fd) m (disconnected-Keeps this close_fd m s)
run-Keeps this (releases close_fd) m s = release-Keeps this close_fd m s

-- From a sound state on, no history of transitions faults, and each leaves the connection sound: it
-- has a context exactly when it is connecting or connected, no command waits without one, and the
-- commands that wait are alive and stand in the list once.
pub run_all-IsSound :
    (this : ℕ) (ts : List Transition) (m : Memory)
    → IsSound this m
    → (n : Memory) × (run_all this ts m ≡ some (tt, n)) × IsSound this n
unfolding run_all
run_all-IsSound this [] m s = (m, refl, s)
run_all-IsSound this (t ∷ ts) m s =
    let (a, m₁, e₁, s₁) = run-Keeps this t m s in
    let (n, e, s') = run_all-IsSound this ts m₁ s₁ in (n, >>=-some (run this t) _ m e₁ ∙ e, s')
