-- ===== src/Raw/Settling.antt =====
-- exec of hiredis::happ::raw: it returns, and the command is not lost.
pub mod Framing
pub mod Sending
pub mod Executing
pub mod Opening
pub mod Retries
use hiredis_happ.Common.{
  ℕ, zero, suc, ◌+◌, ◌-◌, ◌<◌, ◌≤◌, ◌≡◌, ◌≢◌, ◌⊎◌, refl, sym, ap, ◌∙◌, arith, Bool, true, false,
  Bool-cases, inl, inr, not, ltb, ◌==◌, ◌==ℤ◌, ◌&&◌, ◌||◌, if◌then◌else◌, [], ◌∷◌, ◌++◌, List,
  Bytes, All, Option, none, some, ℤ, pos,
}
use hiredis_happ.Common.ErrorCode
use hiredis_happ.Memory.{
  Cmd, Conn, Memory, Event, update, disconnected, get_cmd, get_conn, M, pure, ◌>>=◌, ◌>>◌,
}
use hiredis_happ.Memory.Laws.{IsLive, Distinct, >>=-some, get_cmd_lem, get_conn_lem}
use hiredis_happ.Cmd.Argument.{Picked, pick_argument}
use hiredis_happ.Connection.Transitions.{IsConsistent}
use hiredis_happ.Raw.State.{Raw, Delay, lift, fail_cmd, is_timer_available}
use hiredis_happ.Raw.Pending.{lift-some, fail_cmd-destroy_cmd}
use Framing.{Frame, Frame-refl, Frame-trans}

-- The connection `o` is in a consistent state; the commands that wait on it are alive and stand in its
-- list once, and `c` is none of them.
abbrev pub HoldsConn : ℕ → Memory → Option ℕ → Type 0
HoldsConn c m none = Unit {0}
HoldsConn c m (some k) =
    (conn : Conn) × (m.conns k ≡ some conn)
    × IsConsistent conn
    × All (IsLive m) conn.reply_list
    × Distinct conn.reply_list
    × All (λ d. d ≢ c) conn.reply_list

-- The command `c` can be sent: it is alive, has a buffer that holds a command, and at most `n` sends
-- are left to it. There is no password.
pub record IsReady (c n : ℕ) (r : Raw) : Type 0 where
  pub cmd : Cmd
  pub there : r.mem.cmds c ≡ some cmd
  pub bytes : Bytes
  pub filled : cmd.content ≡ some bytes
  pub picked : Option Picked
  pub whole : pick_argument (some bytes) none ≡ some picked
  pub young : cmd.ttl ≤ n
  pub no_auth_fn : r.auth.auth_fn ≡ none
  pub no_password : r.auth.password ≡ []
  pub holds : HoldsConn c r.mem r.conn

-- Where a command is after `exec`: it was freed, it waits last on the connection, or it waits last for
-- the timer; nothing else changes from `u` to `s` but the trace.
pub data Settled (c : ℕ) (u s : Raw) : Type 0 where
  ended :
      (m : Memory)
      → s ≡ record u { mem = m }
      → m.cmds c ≡ none
      → ((d : ℕ) → d ≢ c → m.cmds d ≡ u.mem.cmds d)
      → m.conns ≡ u.mem.conns
      → m.next_cmd ≡ u.mem.next_cmd
      → Settled c u s
  waits :
      (k : ℕ) (conn : Conn) (t : List Event)
      → u.conn ≡ some k
      → u.mem.conns k ≡ some conn
      → s ≡ record u {
        mem = record (u.mem) {
          conns =
              update u.mem.conns k (some (record conn { reply_list = conn.reply_list ++ c ∷ [] }));
          trace = t;
        };
      }
      → Settled c u s
  pends :
      (d : Delay)
      → s
        ≡ record u { timer = record (u.timer) { timer_pending = u.timer.timer_pending ++ d ∷ [] } }
      → d.cmd ≡ c
      → is_timer_available u ≡ true
      → d.sec ≡ u.timer.last_update_sec + u.conf.timer_interval_sec
      → d.usec ≡ u.timer.last_update_usec + u.conf.timer_interval_usec
      → Settled c u s

-- `x` does not fault at `t`; the command `c` is settled after it, from a state that has kept of `r` what
-- exec keeps.
abbrev pub SettlesFrom : ℕ → Raw → M Raw (Option ℕ) → Raw → Type 0
SettlesFrom c r x t =
    (res : Option ℕ) × (u : Raw) × (s : Raw) × (x t ≡ some (res, s)) × Frame c r u × Settled c u s

abbrev pub Settles : ℕ → M Raw (Option ℕ) → Raw → Type 0
Settles c x r = SettlesFrom c r x r

pub fail-Settles :
    (c : ℕ) (err : ℤ) (context : Option ℕ) (r : Raw)
    → IsLive r.mem c
    → Settles c (fail_cmd c err context) r
fail-Settles c err context r (x, h) =
    let (n, e, a) = (fail_cmd-destroy_cmd c x err context r h).0 in
    (
      none,
      r,
      record r { mem = n },
      e,
      Frame-refl c r,
      ended n refl a.gone (λ d ne. a.other_cmds d (λ q. ne (sym q))) a.conns_same a.next_cmd_same,
    )

pub rebase :
    (c : ℕ) (x : M Raw (Option ℕ)) (r s t : Raw)
    → Frame c r s
    → SettlesFrom c s x t
    → SettlesFrom c r x t
rebase c x r s t g (res, u, v, e, h, settled) = (res, u, v, e, Frame-trans g h, settled)

pub then-From :
    {A : Type 0} (c : ℕ) (x : M Raw A) (f : A → M Raw (Option ℕ)) (r s : Raw) {a : A} {t : Raw}
    → x s ≡ some (a, t)
    → SettlesFrom c r (f a) t
    → SettlesFrom c r (x >>= f) s
then-From c x f r s e (res, u, v, q, h, settled) = (res, u, v, >>=-some x f s e ∙ q, h, settled)

-- A first step that does not fault.
pub then-Settles :
    {A : Type 0} (c : ℕ) (x : M Raw A) (f : A → M Raw (Option ℕ)) (r : Raw) {a : A} {t : Raw}
    → x r ≡ some (a, t)
    → Frame c r t
    → Settles c (f a) t
    → Settles c (x >>= f) r
then-Settles c x f r {a} {t} e g h = then-From c x f r r e (rebase c (f a) r t t g h)

pub read_cmd :
    (c : ℕ) (r : Raw) {x : Cmd} → r.mem.cmds c ≡ some x → lift (get_cmd c) r ≡ some (x, r)
read_cmd c r h = lift-some (get_cmd c) r (get_cmd_lem c r.mem h)

pub read_conn :
    (k : ℕ) (r : Raw) {x : Conn} → r.mem.conns k ≡ some x → lift (get_conn k) r ≡ some (x, r)
read_conn k r h = lift-some (get_conn k) r (get_conn_lem k r.mem h)

-- The command stays ready where the commands and the password stay.
pub carry-IsReady :
    {c n : ℕ} {r : Raw} (s : Raw)
    → IsReady c n r
    → s.mem.cmds ≡ r.mem.cmds
    → s.auth ≡ r.auth
    → HoldsConn c s.mem s.conn
    → IsReady c n s
carry-IsReady {c} s ready same auth holds = record {
  cmd = ready.cmd;
  there = ap (λ f. f c) same ∙ ready.there;
  bytes = ready.bytes;
  filled = ready.filled;
  picked = ready.picked;
  whole = ready.whole;
  young = ready.young;
  no_auth_fn = ap (λ a. a.auth_fn) auth ∙ ready.no_auth_fn;
  no_password = ap (λ a. a.password) auth ∙ ready.no_password;
  holds = holds;
}
