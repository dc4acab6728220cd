-- ===== src/Raw/Settling/Sending.antt =====
-- redis_cmd, and exec over a connection.
use hiredis_happ.Common.{
  ℕ, ◌≡◌, ◌⊎◌, refl, ap, Bool, ◌∙◌, arith, true, false, Bool-cases, inl, inr, ◌==◌, ◌==ℤ◌,
  if◌then◌else◌, [], ◌∷◌, ◌++◌, List, Bytes, take, Option, none, some, ℤ, pos,
}
use hiredis_happ.Common.ErrorCode
use hiredis_happ.Memory.{
  Cmd, Conn, Memory, Event, freed, Status, sent, Driver, update, disconnected, connecting,
  connected, get_cmd, get_conn, M, pure, ◌>>=◌, ◌>>◌,
}
use hiredis_happ.Memory.Laws.{>>=-some, get_cmd_lem, get_conn_lem}
use hiredis_happ.Cmd
use hiredis_happ.Cmd.Argument.{Picked, pick_argument, pick_cmd}
use hiredis_happ.Connection.{is_disconnected}
use hiredis_happ.Connection.Send.{
  has_no_reply, payload, enqueue, send, send_cmd, send_over, redis_cmd,
}

-- The heap without the command `c`, and with it behind the commands that wait on the connection `k`.
abbrev pub sent_quiet : ℕ → Memory → List Event → Memory
sent_quiet c m t = record m { cmds = update m.cmds c none; trace = t }

abbrev pub sent_loud : ℕ → Conn → ℕ → Memory → List Event → Memory
sent_loud k conn c m t = record m {
  conns = update m.conns k (some (record conn { reply_list = conn.reply_list ++ c ∷ [] }));
  trace = t;
}

-- hiredis answers the command without a reply of its own: the name of the command is SUBSCRIBE, UNSUBSCRIBE,
-- one of these with a pattern, or MONITOR.
abbrev pub is_quiet : Option Picked → Bool
is_quiet none = false
is_quiet (some p) = has_no_reply p.str

-- What the connection hands to hiredis for the command.
abbrev pub sent_bytes : Cmd → Bytes → Bytes
sent_bytes x bytes = if x.raw_len == 0 then bytes else take x.raw_len bytes

-- What a send that hiredis took leaves: a command without a reply is freed, every other one waits last.
abbrev pub sent_heap : Bool → ℕ → Conn → ℕ → Memory → List Event → Memory
sent_heap true k conn c m t = sent_quiet c m (freed c ∷ t)
sent_heap false k conn c m t = sent_loud k conn c m t

-- What `redis_cmd` leaves of the command `c` in `m`, with the result `res`: nothing was sent, hiredis
-- refused the command, or hiredis took it.
pub data Outcome (driver : Driver) (k : ℕ) (conn : Conn) (c : ℕ) (out : Bytes) (quiet : Bool)
    (m : Memory) : ℤ → Memory → Type 0 where
  no_context : conn.context ≡ none → Outcome driver k conn c out quiet m ErrorCode.create m
  closed :
      (context : ℕ)
      → conn.context ≡ some context
      → conn.status ≡ disconnected
      → Outcome driver k conn c out quiet m ErrorCode.connection m
  refused :
      (context : ℕ)
      → conn.context ≡ some context
      → is_disconnected conn.status ≡ false
      → driver.send m.trace context c out ==ℤ pos 0 ≡ false
      → Outcome driver k conn c out quiet m
          (driver.send m.trace context c out)
          (record m { trace = sent context c out ∷ m.trace })
  taken :
      (context : ℕ)
      → conn.context ≡ some context
      → is_disconnected conn.status ≡ false
      → driver.send m.trace context c out ==ℤ pos 0 ≡ true
      → Outcome driver k conn c out quiet m
          (driver.send m.trace context c out)
          (sent_heap quiet k conn c m (sent context c out ∷ m.trace))

-- The name that pick_cmd gives.
abbrev name_of : Option Picked → Option Bytes
name_of none = none
name_of (some p) = some p.str

same_heap :
    (quiet : Bool) (k : ℕ) (conn : Conn) (c : ℕ) (m : Memory) (res : ℤ) (t : List Event)
    → pure res (sent_heap quiet k conn c (record m { trace = t }) t)
      ≡ some (res, sent_heap quiet k conn c m t)
same_heap true k conn c m res t = refl
same_heap false k conn c m res t = refl

module _ (driver : Driver) where
  -- What `redis_cmd` leaves of the command `c`, at the connection `k`.
  abbrev pub Sent : ℕ → Conn → ℕ → ℤ → Memory → Memory → Type 0
  Sent k conn c res m n =
      ((res ==ℤ pos 0 ≡ true)
        × (t : List Event) × ((n ≡ sent_quiet c m t) ⊎ (n ≡ sent_loud k conn c m t)))
      ⊎ ((res ==ℤ pos 0 ≡ false) × (t : List Event) × (n ≡ record m { trace = t }))

  abbrev pub Sends : ℕ → Conn → ℕ → M Memory ℤ → Memory → Type 0
  Sends k conn c x m = (res : ℤ) × (n : Memory) × (x m ≡ some (res, n)) × Sent k conn c res m n

  enqueue_lem :
      (k : ℕ) (conn : Conn) (c : ℕ) (x : Cmd) (picked : Option Picked) (m : Memory)
      → m.conns k ≡ some conn
      → m.cmds c ≡ some x
      → enqueue k c (name_of picked) m ≡ some (tt, sent_heap (is_quiet picked) k conn c m m.trace)
  unfolding enqueue Cmd.destroy
  enqueue_lem k conn c x none m hk hx = ground arith
  enqueue_lem k conn c x (some p) m hk hx = elim (Bool-cases (has_no_reply p.str)) [
    | inl quiet ↦ rw quiet (ground arith)
    | inr loud ↦ rw loud (ground arith)
  ]

  pick_cmd_lem :
      (c : ℕ) (x : Cmd) (bytes : Bytes) (picked : Option Picked) (m : Memory)
      → m.cmds c ≡ some x
      → x.content ≡ some bytes
      → pick_argument (some bytes) none ≡ some picked
      → pick_cmd c m ≡ some (name_of picked, m)
  unfolding pick_cmd
  pick_cmd_lem c x bytes none m hx hb hp =
      >>=-some (get_cmd c) _ m (get_cmd_lem c m hx) ∙ rw (hb, hp) refl
  pick_cmd_lem c x bytes (some p) m hx hb hp =
      >>=-some (get_cmd c) _ m (get_cmd_lem c m hx) ∙ rw (hb, hp) refl

  -- `x` does not fault at `m`, with one of these outcomes.
  abbrev pub Outcomes : ℕ → Conn → ℕ → Bytes → Bool → M Memory ℤ → Memory → Type 0
  Outcomes k conn c out quiet x m =
      (res : ℤ) × (n : Memory) × (x m ≡ some (res, n)) × Outcome driver k conn c out quiet m res n

  send_cmd_lem :
      (k context c : ℕ) (x : Cmd) (conn : Conn) (bytes : Bytes) (picked : Option Picked)
      (m : Memory)
      → m.conns k ≡ some conn
      → conn.context ≡ some context
      → is_disconnected conn.status ≡ false
      → m.cmds c ≡ some x
      → x.content ≡ some bytes
      → pick_argument (some bytes) none ≡ some picked
      → Outcomes k conn c (sent_bytes x bytes) (is_quiet picked) (send_cmd driver k context c) m
  unfolding send_cmd send payload
  send_cmd_lem k context c x conn bytes picked m hk hc hs hx hb hp =
      let out = sent_bytes x bytes in
      let res = driver.send m.trace context c out in
      let m₁ = record m { trace = sent context c out ∷ m.trace } in
      let start : send_cmd driver k context c m
          ≡ (if res ==ℤ pos 0
                then (pick_cmd c >>= λ name. enqueue k c name >> pure res)
                else pure res)
              m₁ =
        >>=-some (get_cmd c) _ m (get_cmd_lem c m hx) ∙ rw hb refl in
      elim (Bool-cases (res ==ℤ pos 0)) [
        | inl good ↦ (
          res,
          sent_heap (is_quiet picked) k conn c m (sent context c out ∷ m.trace),
          start
              ∙ rw good (
                  >>=-some (pick_cmd c) _ m₁ (pick_cmd_lem c x bytes picked m₁ hx hb hp)
                  ∙ >>=-some (enqueue k c (name_of picked)) _ m₁
                      (enqueue_lem k conn c x picked m₁ hk hx)
                  ∙ same_heap (is_quiet picked) k conn c m res (sent context c out ∷ m.trace)),
          taken context hc hs good,
        )
        | inr bad ↦ (res, m₁, start ∙ rw bad refl, refused context hc hs bad)
      ]

  send_over_lem :
      (k c : ℕ) (x : Cmd) (conn : Conn) (bytes : Bytes) (picked : Option Picked) (m : Memory)
      → m.conns k ≡ some conn
      → m.cmds c ≡ some x
      → x.content ≡ some bytes
      → pick_argument (some bytes) none ≡ some picked
      → (context : Option ℕ) (status : Status) → conn.context ≡ context
      → conn.status ≡ status
      → Outcomes k conn c
          (sent_bytes x bytes)
          (is_quiet picked)
          (send_over driver k c context status)
          m
  unfolding send_over is_disconnected
  send_over_lem k c x conn bytes picked m hk hx hb hp none status hc hs =
      (ErrorCode.create, m, refl, no_context hc)
  send_over_lem k c x conn bytes picked m hk hx hb hp (some o) disconnected hc hs =
      (ErrorCode.connection, m, refl, closed o hc hs)
  send_over_lem k c x conn bytes picked m hk hx hb hp (some o) connecting hc hs =
      send_cmd_lem k o c x conn bytes picked m hk hc (ap is_disconnected hs) hx hb hp
  send_over_lem k c x conn bytes picked m hk hx hb hp (some o) connected hc hs =
      send_cmd_lem k o c x conn bytes picked m hk hc (ap is_disconnected hs) hx hb hp

  -- redis_cmd of a command whose buffer is filled and holds a command, on a connection object that
  -- is there, does not fault, whatever hiredis answers, and ends in one of these ways. Without a
  -- context the result is REDIS_HAPP_CREATE, and with the status disconnected
  -- REDIS_HAPP_CONNECTION, and nothing changes. Else hiredis is handed the bytes of the command,
  -- and its answer is the result: where it refuses, only the trace tells; where it takes them, a
  -- command that hiredis answers without a reply of its own (the name of the command, behind a P
  -- if it begins with one, is SUBSCRIBE, UNSUBSCRIBE or MONITOR, in any case) is freed, and every
  -- other command is put last into the list of those that wait on the connection. Nothing else
  -- changes.
  pub redis_cmd_lem :
      (k c : ℕ) (x : Cmd) (conn : Conn) (bytes : Bytes) (picked : Option Picked) (m : Memory)
      → m.conns k ≡ some conn
      → m.cmds c ≡ some x
      → x.content ≡ some bytes
      → pick_argument (some bytes) none ≡ some picked
      → Outcomes k conn c (sent_bytes x bytes) (is_quiet picked) (redis_cmd driver k (some c)) m
  unfolding redis_cmd
  redis_cmd_lem k c x conn bytes picked m hk hx hb hp =
      let (res, n, e, d) =
        send_over_lem k c x conn bytes picked m hk hx hb hp conn.context conn.status refl refl in
      (res, n, >>=-some (get_conn k) _ m (get_conn_lem k m hk) ∙ e, d)

  Outcome-Sent :
      {k : ℕ} {conn : Conn} {c : ℕ} {out : Bytes} (quiet : Bool) {m : Memory} {res : ℤ} {n : Memory}
      → Outcome driver k conn c out quiet m res n
      → Sent k conn c res m n
  Outcome-Sent quiet {m} (no_context hc) = inr (refl, m.trace, refl)
  Outcome-Sent quiet {m} (closed o hc hs) = inr (refl, m.trace, refl)
  Outcome-Sent quiet (refused o hc hs bad) = inr (bad, _, refl)
  Outcome-Sent true (taken o hc hs good) = inl (good, _, inl refl)
  Outcome-Sent false (taken o hc hs good) = inl (good, _, inr refl)

  -- The same, without the cause.
  pub redis_cmd-Sends :
      (k c : ℕ) (x : Cmd) (conn : Conn) (bytes : Bytes) (picked : Option Picked) (m : Memory)
      → m.conns k ≡ some conn
      → m.cmds c ≡ some x
      → x.content ≡ some bytes
      → pick_argument (some bytes) none ≡ some picked
      → Sends k conn c (redis_cmd driver k (some c)) m
  redis_cmd-Sends k c x conn bytes picked m hk hx hb hp =
      let (res, n, e, d) = redis_cmd_lem k c x conn bytes picked m hk hx hb hp in
      (res, n, e, Outcome-Sent (is_quiet picked) d)
