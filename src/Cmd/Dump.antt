-- ===== src/Cmd/Dump.antt =====
-- cmd_exec::dump of src/detail/happ_cmd.cpp: a reply as text. The result is what is written to the stream,
-- which formats numbers as a new stream does; `none` is a write of a text that is null.
pub mod Lines
use hiredis_happ.Common.{
  ℕ, zero, suc, ◌+◌, ◌-◌, ◌/◌, ◌%◌, ltb, ◌==◌, if◌then◌else◌, true, false, [], ◌∷◌, ◌++◌, Bytes,
  length, Option, none, some, ℤ, pos, negsuc,
}
use hiredis_happ.Memory.{
  Reply, Replies, reply, reply_array, reply_integer, reply_string, reply_nil, reply_status,
  reply_error, reply_other, done, null_elem, elem,
}

abbrev newline : Bytes
newline = b'\n' ∷ []

-- "[NIL]", "[UNKNOWN]", "[ARRAY]: ", "[STATUS]: " and "[ERROR]: "
abbrev nil_tag : Bytes
nil_tag = b'[' ∷ b'N' ∷ b'I' ∷ b'L' ∷ b']' ∷ []

abbrev unknown_tag : Bytes
unknown_tag = b'[' ∷ b'U' ∷ b'N' ∷ b'K' ∷ b'N' ∷ b'O' ∷ b'W' ∷ b'N' ∷ b']' ∷ []

abbrev array_tag : Bytes
array_tag = b'[' ∷ b'A' ∷ b'R' ∷ b'R' ∷ b'A' ∷ b'Y' ∷ b']' ∷ b':' ∷ b' ' ∷ []

abbrev status_tag : Bytes
status_tag = b'[' ∷ b'S' ∷ b'T' ∷ b'A' ∷ b'T' ∷ b'U' ∷ b'S' ∷ b']' ∷ b':' ∷ b' ' ∷ []

abbrev error_tag : Bytes
error_tag = b'[' ∷ b'E' ∷ b'R' ∷ b'R' ∷ b'O' ∷ b'R' ∷ b']' ∷ b':' ∷ b' ' ∷ []

-- The digits of `n` in front of `out`; `n` rounds are enough.
unfoldable pub digits : ℕ → ℕ → Bytes → Bytes
digits zero n out = (b'0' + n % 10) ∷ out
digits (suc rounds) n out = elim (ltb n 10) [
  | true ↦ (b'0' + n % 10) ∷ out
  | false ↦ digits rounds (n / 10) ((b'0' + n % 10) ∷ out)
]

-- `out << n`
unfoldable pub print_number : ℤ → Bytes
print_number (pos n) = digits n n []
print_number (negsuc n) = b'-' ∷ digits (suc n) (suc n) []

-- `std::string(n, ' ')`
unfoldable pub spaces : ℕ → Bytes
spaces zero = []
spaces (suc n) = b' ' ∷ spaces n

-- `std::setw(w)`: blanks in front, up to the width.
unfoldable pub pad : ℕ → Bytes → Bytes
unfolding spaces
pad w s = spaces (w - length s) ++ s

-- What `out << s` writes of the bytes at `s`: those in front of the first NUL.
unfoldable pub c_text : Bytes → Bytes
c_text [] = []
c_text (c ∷ s) = let rest = c_text s in if c == 0 then [] else c ∷ rest

-- A line with a text behind a tag.
unfoldable pub text_line : Bytes → Option Bytes → Option Bytes
text_line tag none = none
text_line tag (some s) = some (tag ++ c_text s ++ newline)

-- One write after another.
unfoldable pub then_write : Option Bytes → Option Bytes → Option Bytes
then_write none q = none
then_write (some a) none = none
then_write (some a) (some b) = some (a ++ b)

-- `ident_str << std::setw(7) << n << ": "`
unfoldable pub element_prefix : ℕ → ℕ → Bytes
unfolding spaces pad print_number
element_prefix ident n = spaces ident ++ pad 7 (print_number (pos n)) ++ b':' ∷ b' ' ∷ []

-- dump(out, reply, ident) for a reply, and the loop over the elements from the n-th on.
unfoldable mutual
  pub dump_reply : ℕ → Reply → Option Bytes
  dump_reply ident (reply reply_nil i s e) = some (nil_tag ++ newline)
  dump_reply ident (reply reply_status i s e) = text_line status_tag s
  dump_reply ident (reply reply_error i s e) = text_line error_tag s
  dump_reply ident (reply reply_integer i s e) = some (print_number i ++ newline)
  dump_reply ident (reply reply_string i s e) = text_line [] s
  dump_reply ident (reply reply_array i s e) =
      then_write (some (array_tag ++ newline)) (dump_elements ident 1 e)
  dump_reply ident (reply reply_other i s e) = some (unknown_tag ++ newline)

  pub dump_elements : ℕ → ℕ → Replies → Option Bytes
  dump_elements ident n done = some []
  dump_elements ident n (null_elem e) =
      then_write (some (element_prefix ident n)) (dump_elements ident (suc n) e)
  dump_elements ident n (elem r e) =
      then_write (then_write (some (element_prefix ident n)) (dump_reply (ident + 2) r))
        (dump_elements ident (suc n) e)

-- A null reply writes nothing.
unfoldable pub dump : Option Reply → ℕ → Option Bytes
dump none ident = some []
dump (some r) ident = dump_reply ident r
