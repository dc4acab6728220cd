-- ===== src/Text/Decimal.antt =====
-- Digits that are printed are read back.
use hiredis_happ.Common.{
  ℕ, ◌+◌, ◌-◌, ◌*◌, ◌≤◌, ◌<◌, ◌≡◌, ◌≢◌, refl, arith, [], ◌∷◌, ◌++◌, Bytes, All, pos,
}
use hiredis_happ.Text.{scan_digits, scan_int}

abbrev pub IsDigit : ℕ → Type 0
IsDigit c = (b'0' ≤ c) × (c ≤ b'9')

-- A number in front of what is no digit.
pub scan_digits-append :
    (n : ℕ) (s : Bytes) (c : ℕ) (rest : Bytes)
    → All IsDigit s
    → c < b'0'
    → scan_digits n (s ++ c ∷ rest) ≡ scan_digits n s
unfolding scan_digits
scan_digits-append n [] c rest h hc = ground arith
scan_digits-append n (d ∷ s) c rest h hc =
    ground (arith, scan_digits-append (n * 10 + (d - b'0')) s c rest h.1)

-- With a digit in front there is no blank and no sign to skip.
pub scan_int-digit :
    (c : ℕ) (s : Bytes) → IsDigit c → scan_int (c ∷ s) ≡ pos (scan_digits 0 (c ∷ s))
unfolding scan_int
scan_int-digit c s h = ground arith

pub scan_int-digits : (s : Bytes) → s ≢ [] → All IsDigit s → scan_int s ≡ pos (scan_digits 0 s)
scan_int-digits [] h hd = absurd (h refl)
scan_int-digits (c ∷ s) h hd = scan_int-digit c s hd.0

-- One digit more.
pub scan_digits_step :
    (n d : ℕ) (out : Bytes)
    → d < 10
    → scan_digits n ((b'0' + d) ∷ out) ≡ scan_digits (n * 10 + d) out
unfolding scan_digits
scan_digits_step n d out h = ground arith
