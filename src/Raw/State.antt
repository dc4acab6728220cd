-- ===== src/Raw/State.antt =====
-- The state of hiredis::happ::raw (include/detail/happ_raw.h), and its operations that call no other.
use hiredis_happ.Common.{
  ℕ, ltb, ◌==◌, not, ◌&&◌, ◌||◌, Bool, false, if◌then◌else◌, [], List, Bytes, Option, none, some, ℤ,
}
use hiredis_happ.Common.ErrorCode
use hiredis_happ.Name.{Key, set_key}
use hiredis_happ.Memory.{M, pure, ◌>>=◌, ◌>>◌, Callback, Memory, Driver, Reply, get_cmd}
use hiredis_happ.Cmd
use hiredis_happ.Connection.{no_key}

-- timer_t::delay_t. A `time_t` is a natural number: times before 1970 are left out.
pub record Delay : Type 0 where
  pub sec : ℕ
  pub usec : ℕ
  pub cmd : ℕ

-- config_t, without the log writer.
pub record Config : Type 0 where
  pub init_connection : Key
  pub timer_interval_sec : ℕ
  pub timer_interval_usec : ℕ
  pub timer_timeout_sec : ℕ
  pub cmd_buffer_size : ℕ

-- timer_t, with conn_timetout_t as two fields.
pub record Timer : Type 0 where
  pub last_update_sec : ℕ
  pub last_update_usec : ℕ
  pub timer_pending : List Delay
  pub conn_sequence : ℕ
  pub conn_timeout : ℕ

-- auth_info_t: the user's function, if there is one, and the password.
pub record Auth : Type 0 where
  pub auth_fn : Option (Bytes → Bytes)
  pub password : Bytes

-- Which of the user's event callbacks are set.
pub record Callbacks : Type 0 where
  pub has_on_connect : Bool
  pub has_on_connected : Bool
  pub has_on_disconnected : Bool

pub record Raw : Type 0 where
  pub mem : Memory
  pub conf : Config
  pub auth : Auth
  pub conn : Option ℕ
  pub timer : Timer
  pub callbacks : Callbacks

-- An operation on the heap alone.
abbrev pub lift : {A : Type 0} → M Memory A → M Raw A
lift x r = elim (x r.mem) [ none ↦ none | some (a, m) ↦ some (a, record r { mem = m }) ]

abbrev pub get_raw : M Raw Raw
get_raw r = some (r, r)

abbrev pub put_raw : Raw → M Raw (Unit {0})
put_raw s r = some (tt, s)

-- raw(), on a heap that may hold other objects.
unfoldable pub new_raw : Memory → Raw
new_raw m = record {
  mem = m;
  conf = record {
    init_connection = no_key;
    timer_interval_sec = 0;
    timer_interval_usec = 100000;
    timer_timeout_sec = 30;
    cmd_buffer_size = 0;
  };
  auth = record { auth_fn = none; password = [] };
  conn = none;
  timer = record {
    last_update_sec = 0;
    last_update_usec = 0;
    timer_pending = [];
    conn_sequence = 0;
    conn_timeout = 0;
  };
  callbacks = record {
    has_on_connect = false;
    has_on_connected = false;
    has_on_disconnected = false;
  };
}

-- init(ip, port); `none` where `make_name` faults.
unfoldable pub init : Bytes → ℕ → M Raw ℤ
init ip port r = elim (set_key ip port) [
  | none ↦ none
  | some k ↦ some (ErrorCode.ok, record r { conf = record (r.conf) { init_connection = k } })
]

unfoldable pub is_timer_available : Raw → Bool
is_timer_available r = ltb 0 r.conf.timer_interval_sec || ltb 0 r.conf.timer_interval_usec

unfoldable pub is_timer_active : Raw → Bool
is_timer_active r =
    (not (r.timer.last_update_sec == 0) || not (r.timer.last_update_usec == 0))
    && is_timer_available r

unfoldable pub set_timer_interval : ℕ → ℕ → M Raw (Unit {0})
set_timer_interval sec usec r = some (
  tt,
  record r { conf = record (r.conf) { timer_interval_sec = sec; timer_interval_usec = usec } },
)

unfoldable pub set_timeout : ℕ → M Raw (Unit {0})
set_timeout sec r = some (tt, record r { conf = record (r.conf) { timer_timeout_sec = sec } })

-- The command first, whose callback is called if it is still there; null is the caller's business.
unfoldable pub call_cmd : ℕ → ℤ → Option ℕ → Option Reply → M Raw ℤ
call_cmd c err context r = lift (Cmd.call_reply c err context r)

-- destroy_cmd: a command whose callback is left is called with REDIS_HAPP_UNKNOWD.
unfoldable pub destroy_cmd : ℕ → M Raw (Unit {0})
destroy_cmd c = do
  x ← lift (get_cmd c)
  if Cmd.is_null x.callback
      then lift (Cmd.destroy c)
      else (do res ← call_cmd c ErrorCode.unknown none none; lift (Cmd.destroy c))

-- `call_cmd(cmd, err, context, nullptr); destroy_cmd(cmd); return nullptr;`
unfoldable pub fail_cmd : ℕ → ℤ → Option ℕ → M Raw (Option ℕ)
fail_cmd c err context = do res ← call_cmd c err context none; destroy_cmd c; pure none

module _ (driver : Driver) where
  unfoldable pub create_cmd : Callback → ℕ → M Raw (Option ℕ)
  create_cmd cbk pridata = do
    r ← get_raw
    lift (Cmd.create driver cbk pridata r.conf.cmd_buffer_size)
