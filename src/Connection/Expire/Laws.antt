-- ===== src/Connection/Expire/Laws.antt =====
-- Giving up commands: each is called at most once, with the given code, and destroyed, in order.
use hiredis_happ.Common.{
  ℕ, ◌≡◌, ◌≢◌, refl, ap, ◌∙◌, arith, if◌then◌else◌, [], ◌∷◌, ◌++◌, List, All, Option, none, some, ℤ,
}
use hiredis_happ.Memory.{Cmd, Conn, Memory, Event, called, freed, null_fn, update}
use hiredis_happ.Memory.Laws.{IsLive, Distinct, All-flip, >>=-some}
use hiredis_happ.Cmd.{is_null, call_reply, destroy}
use hiredis_happ.Connection.Expire.{expire_front, expire_all}

-- The call that a command that is given up still owes: none if its callback is gone.
abbrev pub owed : ℕ → ℤ → Option ℕ → Option Cmd → List Event
owed c code context none = []
owed c code context (some x) =
    if is_null x.callback then [] else called c x.callback code context none ∷ []

-- The trace after a row of commands was given up.
abbrev pub expire_trace : ℤ → Option ℕ → (ℕ → Option Cmd) → List ℕ → List Event → List Event
expire_trace code context cmds [] acc = acc
expire_trace code context cmds (c ∷ rest) acc =
    expire_trace code context cmds rest (freed c ∷ (owed c code context (cmds c) ++ acc))

pub expire_trace-cong :
    (code : ℤ) (context : Option ℕ) (f g : ℕ → Option Cmd) (ids : List ℕ) (acc : List Event)
    → All (λ c. f c ≡ g c) ids
    → expire_trace code context f ids acc ≡ expire_trace code context g ids acc
expire_trace-cong code context f g [] acc h = refl
expire_trace-cong code context f g (c ∷ rest) acc h =
    rw h.0 (expire_trace-cong code context f g rest _ h.1)

-- What giving up the commands `ids` does to the memory; `rest` is the reply list that is left.
pub record Expired (this : ℕ) (conn : Conn) (code : ℤ) (ids rest : List ℕ) (m n : Memory)
    : Type 0 where
  pub conn_after : n.conns this ≡ some (record conn { reply_list = rest })
  pub other_conns : (k : ℕ) → this ≢ k → n.conns k ≡ m.conns k
  pub gone : All (λ c. n.cmds c ≡ none) ids
  pub other_cmds : (d : ℕ) → All (λ c. c ≢ d) ids → n.cmds d ≡ m.cmds d
  pub trace_after : n.trace ≡ expire_trace code conn.context m.cmds ids m.trace
  pub next_cmd_same : n.next_cmd ≡ m.next_cmd
  pub next_conn_same : n.next_conn ≡ m.next_conn
  pub seq_same : n.seq_alloc ≡ m.seq_alloc

-- The memory after one command was given up.
after_front : ℕ → ℤ → Memory → Conn → ℕ → Cmd → List ℕ → Memory
after_front this code m conn c x rest = record m {
  conns = update m.conns this (some (record conn { reply_list = rest }));
  cmds =
      update
        (if is_null x.callback
          then m.cmds
          else update m.cmds c (some (record x { error_code = code; callback = null_fn })))
        c none;
  trace = freed c ∷ (owed c code conn.context (some x) ++ m.trace);
}

module _ (this : ℕ) (code : ℤ) where
  expire_front-after :
      (m : Memory) (conn : Conn) (c : ℕ) (x : Cmd) (rest : List ℕ)
      → m.conns this ≡ some conn
      → m.cmds c ≡ some x
      → expire_front this code c rest m ≡ some (tt, after_front this code m conn c x rest)
  unfolding expire_front call_reply destroy after_front
  expire_front-after m conn c x rest hk hc = ground arith

  after_front-Expired :
      (m : Memory) (conn : Conn) (c : ℕ) (x : Cmd) (rest : List ℕ)
      → m.cmds c ≡ some x
      → Expired this conn code (c ∷ []) rest m (after_front this code m conn c x rest)
  unfolding after_front
  after_front-Expired m conn c x rest hc = record {
    conn_after = ground arith;
    other_conns = λ k h. ground arith;
    gone = (ground arith, tt);
    other_cmds = λ d h. ground arith;
    trace_after = ground arith;
    next_cmd_same = refl;
    next_conn_same = refl;
    seq_same = refl;
  }

  -- Giving up the first command, with the list `l` in the connection before.
  pub expire_front_lem :
      (m : Memory) (conn : Conn) (l : List ℕ) (c : ℕ) (rest : List ℕ)
      → m.conns this ≡ some (record conn { reply_list = l })
      → IsLive m c
      → (n : Memory) × (expire_front this code c rest m ≡ some (tt, n))
        × Expired this conn code (c ∷ []) rest m n
  expire_front_lem m conn l c rest hk (x, hx) =
      let before = record conn { reply_list = l } in
      let p : Expired this before code (c ∷ []) rest m (after_front this code m before c x rest) =
        after_front-Expired m before c x rest hx in
      (
        after_front this code m before c x rest,
        expire_front-after m before c x rest hk hx,
        record {
          conn_after = p.conn_after;
          other_conns = p.other_conns;
          gone = p.gone;
          other_cmds = p.other_cmds;
          trace_after = p.trace_after;
          next_cmd_same = p.next_cmd_same;
          next_conn_same = p.next_conn_same;
          seq_same = p.seq_same;
        },
      )

  -- One command, and then the others.
  pub Expired-then :
      {conn : Conn} (c : ℕ) (ids mid rest : List ℕ) {m m₁ n : Memory}
      → All (λ d. c ≢ d) ids
      → Expired this conn code (c ∷ []) mid m m₁
      → Expired this conn code ids rest m₁ n
      → Expired this conn code (c ∷ ids) rest m n
  Expired-then {conn} c ids mid rest {m} {m₁} {n} fresh p q = record {
    conn_after = q.conn_after;
    other_conns = λ k h. q.other_conns k h ∙ p.other_conns k h;
    gone = (q.other_cmds c (All-flip c ids fresh) ∙ p.gone.0, q.gone);
    other_cmds = λ d h. q.other_cmds d h.1 ∙ p.other_cmds d (h.0, tt);
    trace_after =
        q.trace_after
        ∙ expire_trace-cong code conn.context m₁.cmds m.cmds ids m₁.trace (untouched ids fresh)
        ∙ ap (expire_trace code conn.context m.cmds ids) p.trace_after;
    next_cmd_same = q.next_cmd_same ∙ p.next_cmd_same;
    next_conn_same = q.next_conn_same ∙ p.next_conn_same;
    seq_same = q.seq_same ∙ p.seq_same;
  }
    where
      untouched : (l : List ℕ) → All (λ d. c ≢ d) l → All (λ d. m₁.cmds d ≡ m.cmds d) l
      untouched [] h = tt
      untouched (d ∷ l) h = (p.other_cmds d (h.0, tt), untouched l h.1)

  pub IsLive-after :
      {conn : Conn} (c : ℕ) (rest l : List ℕ) {m m₁ : Memory}
      → Expired this conn code (c ∷ []) rest m m₁
      → All (λ d. c ≢ d) l
      → All (IsLive m) l
      → All (IsLive m₁) l
  IsLive-after c rest [] p fresh live = tt
  IsLive-after c rest (d ∷ l) p fresh live =
      ((live.0.0, p.other_cmds d (fresh.0, tt) ∙ live.0.1), IsLive-after c rest l p fresh.1 live.1)

  -- The whole loop over the commands `ids`, which are alive and distinct.
  pub expire_all_lem :
      (ids : List ℕ) (m : Memory) (conn : Conn)
      → m.conns this ≡ some (record conn { reply_list = ids })
      → All (IsLive m) ids
      → Distinct ids
      → (n : Memory) × (expire_all this code ids m ≡ some (tt, n))
        × Expired this conn code ids [] m n
  unfolding expire_all
  expire_all_lem [] m conn hk live distinct = (
    m,
    refl,
    record {
      conn_after = hk;
      other_conns = λ k h. refl;
      gone = tt;
      other_cmds = λ d h. refl;
      trace_after = refl;
      next_cmd_same = refl;
      next_conn_same = refl;
      seq_same = refl;
    },
  )
  expire_all_lem (c ∷ ids) m conn hk live distinct =
      let (m₁, e₁, p) = expire_front_lem m conn (c ∷ ids) c ids hk live.0 in
      let (n, e, q) =
        expire_all_lem ids m₁ conn p.conn_after (IsLive-after c ids ids p distinct.0 live.1)
          distinct.1 in
      (
        n,
        >>=-some (expire_front this code c ids) _ m e₁ ∙ e,
        Expired-then c ids ids [] distinct.0 p q,
      )
