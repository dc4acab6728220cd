-- ===== src/Tests/Logging.antt =====
-- Tests of the log writers of both classes.
use hiredis_happ.Common.{
  ℕ, zero, suc, ◌≡◌, refl, ap, subst, Option, [], ◌∷◌, List, Bytes, length, set, none, some, pos,
}
use hiredis_happ.Memory.{done, reply, reply_status}
use hiredis_happ.Logging.{
  Libc, tcp, new_writer, write_log, print_log, print_into, own_buffer, put_nul, end_at,
  auth_message, auth_line, is_auth_ok,
}
use hiredis_happ.Logging.Buffer.{length-set, IsLibc, Bounded}
use hiredis_happ.Logging.Bounds.{
  in_raw, LogCall, sets, debugs, answers, log, log_all, log_all-Bounded,
}
use hiredis_happ.Raw.Logging as RawLogging

abbrev filled : ℕ → Bytes
filled zero = []
filled (suc n) = 88 ∷ filled n

length-filled : (n : ℕ) → length (filled n) ≡ n
length-filled zero = refl
length-filled (suc n) = ap suc (length-filled n)

-- Each text has the two bytes A and B, or what of them fits.
abbrev printer : Libc
printer = record {
  malloc = λ w n. some (filled n);
  vsnprintf = λ b n fmt args. (pos 2, set b 0 65);
}

same : (n : ℕ) {b : Bytes} → some (filled n) ≡ some b → length b ≡ n
same n {b = b} e = subst (λ o. size o ≡ n) e (length-filled n)
  where
    size : Option Bytes → ℕ
    size none = 0
    size (some c) = length c

printer-IsLibc : IsLibc printer
printer-IsLibc = record { sized = λ w n e. same n e; kept = λ b fmt args. length-set b 0 65 }

abbrev session : List LogCall
session =
    sets (some 1) (some 2) 4
    ∷ (answers (some (tcp none none 6379))
          (some (reply reply_status (pos 0) (some (79 ∷ 75 ∷ [])) done))
        ∷ (sets (some 1) (some 2) 2 ∷ (debugs "late" [] ∷ [])))

log_all-Bounded_example : Bounded (log_all printer in_raw session) new_writer
log_all-Bounded_example = log_all-Bounded printer printer-IsLibc in_raw session

texts :
    (elim (log_all printer in_raw session new_writer) [ none ↦ [] | some (u, s) ↦ s.written ])
    ≡ (2, 65 ∷ 0 ∷ []) ∷ ((1, 65 ∷ 88 ∷ 0 ∷ 0 ∷ []) ∷ [])
unfolding log_all log new_writer RawLogging.set_log_writer RawLogging.log_debug
    RawLogging.on_reply_auth RawLogging.log_info write_log print_into print_log own_buffer put_nul
    end_at auth_message auth_line is_auth_ok
texts = refl
