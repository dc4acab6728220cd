-- ===== src/Logging/Bounds.antt =====
-- The log writer stays inside its buffer: any history of set_log_writer, log_debug, log_info and on_reply_auth, of one class.
use Prim.Native.String.{String}
use hiredis_happ.Common.{ℕ, ◌≡◌, refl, ◌∙◌, [], ◌∷◌, List, Option, none}
use hiredis_happ.Memory.Laws.{>>=-some}
use hiredis_happ.Memory.{M, pure, ◌>>◌, Reply}
use hiredis_happ.Logging.Buffer.{IsLibc, IsBounded, Bounded, write_log-Bounded}
use hiredis_happ.Logging.{Arg, Libc, LogWriter, Endpoint, new_writer, write_log, auth_message}
use hiredis_happ.Raw.Logging as RawLogging
use hiredis_happ.Cluster.Logging as ClusterLogging

pub data Class : Type 0 where
  in_raw in_cluster : Class

pub data LogCall : Type 0 where
  sets : Option ℕ → Option ℕ → ℕ → LogCall
  debugs infos : String → List Arg → LogCall
  answers : Option Endpoint → Option Reply → LogCall

unfoldable pub log : Libc → Class → LogCall → M LogWriter (Unit {0})
log libc in_raw (sets i d n) = RawLogging.set_log_writer i d n
log libc in_raw (debugs fmt args) = RawLogging.log_debug libc fmt args
log libc in_raw (infos fmt args) = RawLogging.log_info libc fmt args
log libc in_raw (answers e r) = RawLogging.on_reply_auth libc e r
log libc in_cluster (sets i d n) = ClusterLogging.set_log_writer i d n
log libc in_cluster (debugs fmt args) = ClusterLogging.log_debug libc fmt args
log libc in_cluster (infos fmt args) = ClusterLogging.log_info libc fmt args
log libc in_cluster (answers e r) = ClusterLogging.on_reply_auth libc e r

unfoldable pub log_all : Libc → Class → List LogCall → M LogWriter (Unit {0})
log_all libc class [] = pure tt
log_all libc class (call ∷ calls) = log libc class call >> log_all libc class calls

set-IsBounded :
    (i d : Option ℕ) (n : ℕ) (s : LogWriter)
    → IsBounded s
    → IsBounded
        (record s { log_fn_info = i; log_fn_debug = d; log_max_size = n; log_buffer = none })
set-IsBounded i d n s ok = record { fits = λ q. absurd (cc); ended = ok.ended }

-- A step that is another one in this state.
same-Bounded :
    (x y : M LogWriter (Unit {0})) (s : LogWriter) → x s ≡ y s → Bounded y s → Bounded x s
same-Bounded x y s e h = record { after = h.after; runs = e ∙ h.runs; bounded = h.bounded }

module _ (libc : Libc) (std : IsLibc libc) where
  writes :
      (x : M LogWriter (Unit {0})) (f : Option ℕ) (m : String × List Arg) (s : LogWriter)
      → IsBounded s
      → x s ≡ write_log libc f m.0 m.1 s
      → Bounded x s
  writes x f m s ok e =
      same-Bounded x (write_log libc f m.0 m.1) s e (write_log-Bounded libc std f m.0 m.1 s ok)

  log-Bounded :
      (class : Class) (call : LogCall) (s : LogWriter)
      → IsBounded s
      → Bounded (log libc class call) s
  unfolding log RawLogging.set_log_writer RawLogging.log_debug RawLogging.log_info
      RawLogging.on_reply_auth ClusterLogging.set_log_writer ClusterLogging.log_debug
      ClusterLogging.log_info ClusterLogging.on_reply_auth
  log-Bounded in_raw (sets i d n) s ok = record {
    after = _;
    runs = refl;
    bounded = set-IsBounded i d n s ok;
  }
  log-Bounded in_raw (debugs fmt args) s ok = writes _ s.log_fn_debug (fmt, args) s ok refl
  log-Bounded in_raw (infos fmt args) s ok = writes _ s.log_fn_info (fmt, args) s ok refl
  log-Bounded in_raw (answers e r) s ok = writes _ s.log_fn_info (auth_message e r) s ok refl
  log-Bounded in_cluster (sets i d n) s ok = record {
    after = _;
    runs = refl;
    bounded = set-IsBounded i d n s ok;
  }
  log-Bounded in_cluster (debugs fmt args) s ok = writes _ s.log_fn_debug (fmt, args) s ok refl
  log-Bounded in_cluster (infos fmt args) s ok = writes _ s.log_fn_info (fmt, args) s ok refl
  log-Bounded in_cluster (answers e r) s ok = writes _ s.log_fn_info (auth_message e r) s ok refl

  log_all-from :
      (class : Class) (calls : List LogCall) (s : LogWriter)
      → IsBounded s
      → Bounded (log_all libc class calls) s
  unfolding log_all
  log_all-from class [] s ok = record { after = s; runs = refl; bounded = ok }
  log_all-from class (call ∷ calls) s ok =
      let first = log-Bounded class call s ok in
      let rest = log_all-from class calls first.after first.bounded in
      record {
        after = rest.after;
        runs =
            >>=-some (log libc class call) (λ _. log_all libc class calls) s first.runs ∙ rest.runs;
        bounded = rest.bounded;
      }

  -- In either class, any sequence of set_log_writer, log_debug, log_info and on_reply_auth on a
  -- new object runs to its end without a write behind the log buffer, when malloc gives the size
  -- asked for and vsnprintf keeps the size of the buffer. After it the buffer, where there is one,
  -- has the size that is set, and each buffer that a function of the user was given has a NUL in
  -- it.
  pub log_all-Bounded :
      (class : Class) (calls : List LogCall) → Bounded (log_all libc class calls) new_writer
  unfolding new_writer
  log_all-Bounded class calls =
      log_all-from class calls new_writer (record { fits = λ q. absurd (cc); ended = tt })
