-- ===== src/Text.antt =====
-- The functions of the C library that the source calls on text: `isspace`, `tolower`, `strtol` and
-- `sscanf("%d")`, `strncasecmp`, `strchr`. A C string is the list of its bytes without the final NUL.
pub mod Decimal
use hiredis_happ.Common.{
  ℕ, zero, suc, ◌+◌, ◌-◌, ◌*◌, Bool, true, false, ◌&&◌, ◌||◌, leb, ◌==◌, if◌then◌else◌, [], ◌∷◌,
  Bytes, Option, none, some, ℤ, pos, minus,
}

-- The blanks that `pick_name` skips, and those of `isspace`.
unfoldable pub is_blank : ℕ → Bool
is_blank c = c == b' ' || c == b'\t' || c == b'\r' || c == b'\n'

unfoldable pub is_space : ℕ → Bool
unfolding is_blank
is_space c = is_blank c || c == 11 || c == 12

unfoldable pub is_digit : ℕ → Bool
is_digit c = leb b'0' c && leb c b'9'

unfoldable pub scan_digits : ℕ → Bytes → ℕ
unfolding is_digit
scan_digits n [] = n
scan_digits n (c ∷ s) =
    let rest = scan_digits (n * 10 + (c - b'0')) s in if is_digit c then rest else n

unfoldable pub scan_signed : Bytes → ℤ
unfolding scan_digits
scan_signed [] = pos 0
scan_signed (c ∷ s) =
    if c == b'-'
    then minus (scan_digits 0 s)
    else if c == b'+'
    then pos (scan_digits 0 s)
    else pos (scan_digits 0 (c ∷ s))

-- `strtol(s, nullptr, 10)`, and what `sscanf(s, "%d", &p)` leaves in `p` that held 0: blanks, a sign
-- and digits; 0 if there is no digit. A value beyond the range of the type is not cut off here.
unfoldable pub scan_int : Bytes → ℤ
unfolding scan_signed is_space
scan_int [] = pos 0
scan_int (c ∷ s) = let rest = scan_int s in if is_space c then rest else scan_signed (c ∷ s)

unfoldable pub tolower : ℕ → ℕ
tolower c = if leb b'A' c && leb c b'Z' then c + 32 else c

-- `strncasecmp(a, b, n) == 0`
unfoldable pub strncase_eq : ℕ → Bytes → Bytes → Bool
unfolding tolower
strncase_eq zero a b = true
strncase_eq (suc n) [] [] = true
strncase_eq (suc n) [] (y ∷ b) = y == 0
strncase_eq (suc n) (x ∷ a) [] = x == 0
strncase_eq (suc n) (x ∷ a) (y ∷ b) =
    let rest = strncase_eq n a b in
    if tolower x == tolower y then (if x == 0 then true else rest) else false

-- `strchr(s, c)` for `c` other than NUL: the text from the first `c` on, or null. A NUL ends the text.
unfoldable pub strchr : ℕ → Bytes → Option Bytes
strchr c [] = none
strchr c (x ∷ s) =
    let rest = strchr c s in if x == c then some (x ∷ s) else if x == 0 then none else rest
