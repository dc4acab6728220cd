-- ===== src/Cluster/State.antt =====
-- The state of hiredis::happ::cluster (include/detail/happ_cluster.h), and its operations that call no
-- other.
use hiredis_happ.Common.{
  ℕ, ltb, ◌==◌, not, ◌&&◌, ◌||◌, Bool, false, if◌then◌else◌, [], List, Bytes, Option, none, some, ℤ,
}
use hiredis_happ.Common.ErrorCode
use hiredis_happ.Name.{Key, set_key}
use hiredis_happ.Memory.{
  M, pure, ◌>>=◌, ◌>>◌, Callback, Memory, Driver, Reply, draws, get_cmd, emit,
}
use hiredis_happ.Cmd
use hiredis_happ.Connection.{no_key}
use hiredis_happ.Slots.{Table, SlotStatus, invalid}

-- config_t, without the log writer.
pub record Config : Type 0 where
  pub init_connection : Key
  pub timer_interval_sec : ℕ
  pub timer_interval_usec : ℕ
  pub timer_timeout_sec : ℕ
  pub keepalive_interval_sec : ℕ
  pub cmd_buffer_size : ℕ

-- timer_t::delay_t
pub record Delay : Type 0 where
  pub sec : ℕ
  pub usec : ℕ
  pub cmd : ℕ

-- timer_t::conn_timetout_t
pub record ConnTimeout : Type 0 where
  pub name : Bytes
  pub sequence : ℕ
  pub timeout : ℕ

pub record Timer : Type 0 where
  pub last_update_sec : ℕ
  pub last_update_usec : ℕ
  pub timer_pending : List Delay
  pub timer_conns : List ConnTimeout

-- connection::auth_info_t: the user's function, if there is one, and the password.
pub record Auth : Type 0 where
  pub auth_fn : Option (Bytes → Bytes)
  pub password : Bytes

-- Which of the user's event callbacks are set.
pub record Callbacks : Type 0 where
  pub has_on_connect : Bool
  pub has_on_connected : Bool
  pub has_on_disconnected : Bool

-- `connections` is the map from a name to the connection, as the list of its entries.
pub record Cluster : Type 0 where
  pub mem : Memory
  pub conf : Config
  pub auth : Auth
  pub slots : Table
  pub slot_flag : SlotStatus
  pub slot_pending : List ℕ
  pub connections : List (Bytes × ℕ)
  pub timer : Timer
  pub callbacks : Callbacks

-- An operation on the heap alone.
abbrev pub lift : {A : Type 0} → M Memory A → M Cluster A
lift x s = elim (x s.mem) [ none ↦ none | some (a, m) ↦ some (a, record s { mem = m }) ]

abbrev pub get_cluster : M Cluster Cluster
get_cluster s = some (s, s)

abbrev pub put_cluster : Cluster → M Cluster (Unit {0})
put_cluster t s = some (tt, t)

-- cluster(), on a heap that may hold other objects.
unfoldable pub new_cluster : Memory → Cluster
new_cluster m = record {
  mem = m;
  conf = record {
    init_connection = no_key;
    timer_interval_sec = 0;
    timer_interval_usec = 100000;
    timer_timeout_sec = 30;
    keepalive_interval_sec = 0;
    cmd_buffer_size = 0;
  };
  auth = record { auth_fn = none; password = [] };
  slots = λ slot. [];
  slot_flag = invalid;
  slot_pending = [];
  connections = [];
  timer = record {
    last_update_sec = 0;
    last_update_usec = 0;
    timer_pending = [];
    timer_conns = [];
  };
  callbacks = record {
    has_on_connect = false;
    has_on_connected = false;
    has_on_disconnected = false;
  };
}

-- init(ip, port); `none` where `make_name` faults.
unfoldable pub init : Bytes → ℕ → M Cluster ℤ
init ip port s = elim (set_key ip port) [
  | none ↦ none
  | some k ↦ some (ErrorCode.ok, record s { conf = record (s.conf) { init_connection = k } })
]

unfoldable pub is_timer_available : Cluster → Bool
is_timer_available s = ltb 0 s.conf.timer_interval_sec || ltb 0 s.conf.timer_interval_usec

unfoldable pub is_timer_active : Cluster → Bool
is_timer_active s =
    (not (s.timer.last_update_sec == 0) || not (s.timer.last_update_usec == 0))
    && is_timer_available s

-- The command first, whose callback is called if it is still there; null is the caller's business.
unfoldable pub call_cmd : ℕ → ℤ → Option ℕ → Option Reply → M Cluster ℤ
call_cmd c err context r = lift (Cmd.call_reply c err context r)

-- destroy_cmd: a command whose callback is left is called with REDIS_HAPP_UNKNOWD.
unfoldable pub destroy_cmd : ℕ → M Cluster (Unit {0})
destroy_cmd c = do
  x ← lift (get_cmd c)
  if Cmd.is_null x.callback
      then lift (Cmd.destroy c)
      else (do res ← call_cmd c ErrorCode.unknown none none; lift (Cmd.destroy c))

-- `call_cmd(cmd, err, context, reply); destroy_cmd(cmd);`
unfoldable pub end_cmd : ℕ → ℤ → Option ℕ → Option Reply → M Cluster (Unit {0})
end_cmd c err context r = do res ← call_cmd c err context r; destroy_cmd c

-- `call_cmd(cmd, err, context, nullptr); destroy_cmd(cmd); return nullptr;`
unfoldable pub fail_cmd : ℕ → ℤ → Option ℕ → M Cluster (Option ℕ)
fail_cmd c err context = do end_cmd c err context none; pure none

unfoldable pub set_flag : SlotStatus → M Cluster (Unit {0})
set_flag flag s = some (tt, record s { slot_flag = flag })

unfoldable pub set_pending : List Delay → M Cluster (Unit {0})
set_pending l s = some (tt, record s { timer = record (s.timer) { timer_pending = l } })

unfoldable pub set_timeouts : List ConnTimeout → M Cluster (Unit {0})
set_timeouts l s = some (tt, record s { timer = record (s.timer) { timer_conns = l } })

unfoldable pub set_slot_pending : List ℕ → M Cluster (Unit {0})
set_slot_pending l s = some (tt, record s { slot_pending = l })

module _ (driver : Driver) where
  unfoldable pub create_cmd : Callback → ℕ → M Cluster (Option ℕ)
  create_cmd cbk pridata = do
    s ← get_cluster
    lift (Cmd.create driver cbk pridata s.conf.cmd_buffer_size)

  -- detail::random
  unfoldable pub draw : M Cluster ℕ
  draw = do s ← get_cluster; lift (emit draws); pure (driver.random s.mem.trace)
