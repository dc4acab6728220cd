-- ===== src/Raw/Whole.antt =====
-- The whole state of hiredis::happ::raw between two calls: every command that is alive waits in one place.
pub mod Framed
pub mod Settling
pub mod Executing
pub mod Releasing
pub mod Timers
pub mod Proceeding
pub mod Events
pub mod Resetting
pub mod Replies
pub mod Issuing
pub mod History
pub mod Dangling
use hiredis_happ.Common.{
  ℕ, ◌≤◌, ◌≡◌, ◌≢◌, refl, ap, ◌∙◌, subst, arith, false, [], ◌++◌, List, Bytes, All, Option, none,
  some,
}
use hiredis_happ.Cmd
use hiredis_happ.Cmd.Argument.{Picked, pick_argument}
use hiredis_happ.Memory.{Cmd, Conn, Memory, disconnected}
use hiredis_happ.Memory.Laws.{IsLive, Distinct, Distinct-prefix, All-prefix}
use hiredis_happ.Memory.Members.{All-map}
use hiredis_happ.Connection.{is_disconnected}
use hiredis_happ.Connection.Transitions.{IsConsistent}
use hiredis_happ.Raw.State.{Raw}
use hiredis_happ.Raw.Pending.{waiting}
use hiredis_happ.Raw.Settling.{HoldsConn, IsReady}
use hiredis_happ.Raw.Settling.Framing.{queue}

-- The command is alive, has a buffer that holds a command, and no more sends left than a new one.
pub record IsSendable (m : Memory) (c : ℕ) : Type 0 where
  pub cmd : Cmd
  pub there : m.cmds c ≡ some cmd
  pub bytes : Bytes
  pub filled : cmd.content ≡ some bytes
  pub picked : Option Picked
  pub whole : pick_argument (some bytes) none ≡ some picked
  pub young : cmd.ttl ≤ Cmd.default_ttl

-- A connection that is connecting or connected over a context.
pub record IsOpen (conn : Conn) : Type 0 where
  pub context : ℕ
  pub has_context : conn.context ≡ some context
  pub not_closed : is_disconnected conn.status ≡ false

-- The connection, if there is one, is there and open.
abbrev pub Linked : (ℕ → Option Conn) → Option ℕ → Type 0
Linked f none = Unit {0}
Linked f (some k) = (conn : Conn) × (f k ≡ some conn) × IsOpen conn

-- The commands that wait on the connection, and then those that wait for the timer.
abbrev pub owned : Raw → List ℕ
owned r = queue r.mem.conns r.conn ++ waiting r.timer.timer_pending

-- The state but for the command `c`: the commands that wait can be sent and each waits once, and every
-- command that waits nowhere was freed.
pub record Holds (Free : ℕ → Type 0) (r : Raw) : Type 0 where
  pub linked : Linked r.mem.conns r.conn
  pub sendable : All (IsSendable r.mem) (owned r)
  pub distinct : Distinct (owned r)
  pub none_lost : (d : ℕ) → Free d → All (λ x. x ≢ d) (owned r) → r.mem.cmds d ≡ none
  pub unmade : (d : ℕ) → r.mem.next_cmd ≤ d → r.mem.cmds d ≡ none
  pub no_auth_fn : r.auth.auth_fn ≡ none
  pub no_password : r.auth.password ≡ []

-- There is no password; the connection is open; the commands that wait on it and for the timer are
-- alive, have buffers that hold commands, and stand there once; every other command was freed, and the
-- numbers that were not given out yet are free.
abbrev pub IsWhole : Raw → Type 0
IsWhole r = Holds (λ d. Unit {0}) r

-- The same, with one more command that waits nowhere.
pub record Floats (c : ℕ) (r : Raw) : Type 0 where
  pub rest : Holds (λ d. d ≢ c) r
  pub own : IsSendable r.mem c
  pub apart : All (λ d. d ≢ c) (owned r)

pub still-IsSendable :
    (m n : Memory) (d : ℕ) → n.cmds d ≡ m.cmds d → IsSendable m d → IsSendable n d
still-IsSendable m n d e h = record {
  cmd = h.cmd;
  there = e ∙ h.there;
  bytes = h.bytes;
  filled = h.filled;
  picked = h.picked;
  whole = h.whole;
  young = h.young;
}

open-IsConsistent : (conn : Conn) → IsOpen conn → IsConsistent conn
unfolding is_disconnected
open-IsConsistent conn o = record {
  no_context = λ h. absurd (closed h);
  no_status = λ h. absurd (lacks h);
  none_waits = λ h. absurd (lacks h);
}
  where
    closed : conn.status ≡ disconnected → ⊥
    closed h = cc (ap is_disconnected h, o.not_closed)

    lacks : conn.context ≡ none → ⊥
    lacks h = cc (h, o.has_context)

pub IsLive-of : (m : Memory) (l : List ℕ) → All (IsSendable m) l → All (IsLive m) l
IsLive-of m l h = All-map l (λ d s. (s.cmd, s.there)) h

holds_of :
    (c : ℕ) (m : Memory) (o : Option ℕ) (w : List ℕ)
    → Linked m.conns o
    → All (IsSendable m) (queue m.conns o ++ w)
    → Distinct (queue m.conns o ++ w)
    → All (λ d. d ≢ c) (queue m.conns o ++ w)
    → HoldsConn c m o
holds_of c m none w linked sendable distinct apart = tt
holds_of c m (some k) w (conn, hk, o) sendable distinct apart =
    let e : queue m.conns (some k) ≡ conn.reply_list = rw (hk, queue) refl in
    (
      conn,
      hk,
      open-IsConsistent conn o,
      subst (λ l. All (IsLive m) l) e
          (All-prefix (IsLive m) (queue m.conns (some k)) w (IsLive-of m _ sendable)),
      subst (λ l. Distinct l) e (Distinct-prefix (queue m.conns (some k)) w distinct),
      subst (λ l. All (λ d. d ≢ c) l) e (All-prefix (λ d. d ≢ c) (queue m.conns (some k)) w apart),
    )

-- A command that waits nowhere can be executed.
pub Floats-IsReady : (c n : ℕ) (r : Raw) → Cmd.default_ttl ≤ n → Floats c r → IsReady c n r
Floats-IsReady c n r enough f = record {
  cmd = f.own.cmd;
  there = f.own.there;
  bytes = f.own.bytes;
  filled = f.own.filled;
  picked = f.own.picked;
  whole = f.own.whole;
  young = omega (arith, enough, f.own.young);
  no_auth_fn = f.rest.no_auth_fn;
  no_password = f.rest.no_password;
  holds =
      holds_of c r.mem r.conn (waiting r.timer.timer_pending) f.rest.linked f.rest.sendable
        f.rest.distinct f.apart;
}
