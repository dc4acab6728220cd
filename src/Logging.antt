-- ===== src/Logging.antt =====
-- The log writer of config_t in src/detail/happ_raw.cpp and src/detail/happ_cluster.cpp, which both classes
-- have in the same form: set_log_writer, log_debug, log_info, and on_reply_auth, which only logs.
pub mod Buffer
pub mod Bounds
use Prim.Native.String.{String}
use hiredis_happ.Common.{
  ℕ, suc, ◌-◌, ltb, ◌==◌, Bool, true, false, ◌||◌, not, if◌then◌else◌, [], ◌∷◌, List, Bytes, length,
  set, Option, none, some, ℤ, pos, negsuc,
}
use hiredis_happ.Text.{strncase_eq}
use hiredis_happ.Memory.{M, pure, ◌>>=◌, ◌>>◌, Reply, reply, ReplyType, reply_string, reply_status}

-- An argument behind a format.
pub data Arg : Type 0 where
  text : Bytes → Arg
  number : ℕ → Arg

-- The functions of the C library: malloc(n), whose result has any content, or is null; and
-- vsnprintf(buffer, n, fmt, args), with its result and what it leaves of the buffer.
pub record Libc : Type 0 where
  pub malloc : List (ℕ × Bytes) → ℕ → Option Bytes
  pub vsnprintf : Bytes → ℕ → String → List Arg → ℤ × Bytes

-- log_fn_info, log_fn_debug, log_max_size and log_buffer of config_t. A function of the user is a number;
-- `written` has its calls with the buffer that it is given, the newest first.
pub record LogWriter : Type 0 where
  pub log_fn_info : Option ℕ
  pub log_fn_debug : Option ℕ
  pub log_max_size : ℕ
  pub log_buffer : Option Bytes
  pub written : List (ℕ × Bytes)

unfoldable pub new_writer : LogWriter
new_writer = record {
  log_fn_info = none;
  log_fn_debug = none;
  log_max_size = 0;
  log_buffer = none;
  written = [];
}

-- `buffer[i] = 0`; a write behind the buffer is a fault.
unfoldable pub put_nul : Bytes → ℕ → Option Bytes
put_nul b i = if ltb i (length b) then some (set b i 0) else none

-- `if (len >= 0 && len < log_max_size) log_buffer[len] = 0;`
unfoldable pub end_at : ℤ → ℕ → Bytes → Option Bytes
end_at (negsuc n) size b = some b
end_at (pos n) size b = if ltb n size then put_nul b n else some b

module _ (libc : Libc) where
  -- The text is printed into the buffer, is ended, and goes to the user's function.
  unfoldable pub print_log : ℕ → Bytes → String → List Arg → M LogWriter (Unit {0})
  print_log fn b fmt args s =
      let printed = libc.vsnprintf b s.log_max_size fmt args in
      elim (put_nul printed.1 (s.log_max_size - 1)) [
        | none ↦ none
        | some c ↦ elim (end_at printed.0 s.log_max_size c) [
          | none ↦ none
          | some d ↦ some (tt, record s { log_buffer = some d; written = (fn, d) ∷ s.written })
        ]
      ]

  unfoldable pub print_into : ℕ → String → List Arg → Option Bytes → M LogWriter (Unit {0})
  print_into fn fmt args none s = some (tt, record s { log_buffer = none })
  print_into fn fmt args (some b) s = print_log fn b fmt args (record s { log_buffer = some b })

  -- The buffer is allocated when it is needed first.
  unfoldable pub own_buffer : LogWriter → Option Bytes → Option Bytes
  own_buffer s (some b) = some b
  own_buffer s none = libc.malloc s.written s.log_max_size

  unfoldable pub write_log : Option ℕ → String → List Arg → M LogWriter (Unit {0})
  write_log none fmt args s = some (tt, s)
  write_log (some fn) fmt args s =
      if s.log_max_size == 0
      then some (tt, s)
      else print_into fn fmt args (own_buffer s s.log_buffer) s

-- The connection of a context, as on_reply_auth prints it: redisContext::connection_type, with the texts
-- that may be null.
pub data Endpoint : Type 0 where
  tcp : Option Bytes → Option Bytes → ℕ → Endpoint
  unix : Option Bytes → Endpoint
  other : Endpoint

-- "UNKNOWN" and "nullptr"
abbrev pub unknown_host : Bytes
unknown_host = 85 ∷ 78 ∷ 75 ∷ 78 ∷ 79 ∷ 87 ∷ 78 ∷ []

abbrev pub no_path : Bytes
no_path = 110 ∷ 117 ∷ 108 ∷ 108 ∷ 112 ∷ 116 ∷ 114 ∷ []

-- "OK"
abbrev ok_text : Bytes
ok_text = 79 ∷ 75 ∷ []

unfoldable pub or_else : Option Bytes → Bytes → Bytes
or_else none b = b
or_else (some a) b = a

-- The host, or else the source address, or else "UNKNOWN".
unfoldable pub host_text : Option Bytes → Option Bytes → Bytes
unfolding or_else
host_text host source_addr = or_else host (or_else source_addr unknown_host)

-- A reply with a text that is a status or a string and begins with OK.
unfoldable pub is_auth_ok : Option Reply → Bool
is_auth_ok (some (reply reply_status i (some str) e)) = strncase_eq 2 ok_text str
is_auth_ok (some (reply reply_string i (some str) e)) = strncase_eq 2 ok_text str
is_auth_ok r = false

unfoldable pub error_text : Option Reply → Bytes
error_text (some (reply t i (some str) e)) = str
error_text r = []

-- The line that on_reply_auth logs, by the outcome and the connection.
unfoldable pub auth_line : Bool → Bytes → Endpoint → String × List Arg
auth_line false err (tcp host source_addr port) = (
  "tcp:%s:%d AUTH failed. %s",
  text (host_text host source_addr) ∷ (number port ∷ (text err ∷ [])),
)
auth_line false err (unix path) =
    ("unix:%s AUTH failed. %s", text (or_else path no_path) ∷ (text err ∷ []))
auth_line false err other = ("AUTH failed. %s", text err ∷ [])
auth_line true err (tcp host source_addr port) =
    ("tcp:%s:%d AUTH success.", text (host_text host source_addr) ∷ (number port ∷ []))
auth_line true err (unix path) = ("unix:%s AUTH success.", text (or_else path no_path) ∷ [])
auth_line true err other = ("AUTH success.", [])

-- "rctx is nullptr in on_reply_auth"
abbrev no_context_text : Bytes
no_context_text =
    114 ∷ 99 ∷ 116 ∷ 120 ∷ 32 ∷ 105 ∷ 115 ∷ 32 ∷ 110 ∷ 117 ∷ 108 ∷ 108 ∷ 112 ∷ 116 ∷ 114 ∷ 32 ∷ 105
    ∷ 110 ∷ 32 ∷ 111 ∷ 110 ∷ 95 ∷ 114 ∷ 101 ∷ 112 ∷ 108 ∷ 121 ∷ 95 ∷ 97 ∷ 117 ∷ 116 ∷ 104 ∷ []

-- What on_reply_auth logs over a context that is null or connected so.
unfoldable pub auth_message : Option Endpoint → Option Reply → String × List Arg
auth_message none r = ("[ERROR]: %s", text no_context_text ∷ [])
auth_message (some e) r = auth_line (is_auth_ok r) (error_text r) e
