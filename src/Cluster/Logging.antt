-- ===== src/Cluster/Logging.antt =====
-- The log writer of hiredis::happ::cluster (src/detail/happ_cluster.cpp).
use Prim.Native.String.{String}
use hiredis_happ.Common.{ℕ, List, Option, none, some}
use hiredis_happ.Memory.{M, Reply}
use hiredis_happ.Logging.{Arg, Libc, LogWriter, write_log, Endpoint, auth_message}

-- set_log_writer(info_fn, debug_fn, max_size): the old buffer is freed.
unfoldable pub set_log_writer : Option ℕ → Option ℕ → ℕ → M LogWriter (Unit {0})
set_log_writer info_fn debug_fn max_size s = some (
  tt,
  record s {
    log_fn_info = info_fn;
    log_fn_debug = debug_fn;
    log_max_size = max_size;
    log_buffer = none;
  },
)

module _ (libc : Libc) where
  unfoldable pub log_debug : String → List Arg → M LogWriter (Unit {0})
  log_debug fmt args s = write_log libc s.log_fn_debug fmt args s

  unfoldable pub log_info : String → List Arg → M LogWriter (Unit {0})
  log_info fmt args s = write_log libc s.log_fn_info fmt args s

  -- on_reply_auth(cmd, context, r), for a context that is null or connected so: it only logs.
  unfoldable pub on_reply_auth : Option Endpoint → Option Reply → M LogWriter (Unit {0})
  on_reply_auth e r = log_info (auth_message e r).0 (auth_message e r).1
