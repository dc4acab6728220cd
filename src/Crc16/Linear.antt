-- ===== src/Crc16/Linear.antt =====
-- Shifting bits through the polynomial is linear over exclusive or.
use hiredis_happ.Common.{
  ℕ, zero, suc, ◌+◌, ◌-◌, ◌*◌, ◌<◌, bit_xor, ◌≡◌, refl, sym, ap, ◌∙◌, arith, ltb, Bool-cases,
  ltb→lt, ◌⊎◌, inl, inr,
}
use hiredis_happ.Bits.Laws.{
  bit_xor_comm, bit_xor_assoc, bit_xor_self, bit_xor-zero, bit_xor_fields, bit_xor-lt,
}
use hiredis_happ.Bits.Step.{bit_xor_step}
use hiredis_happ.Crc16.Bitwise.{shift_bit, shift_bits}

-- A `uint16_t` by its top bit and the rest.
shift_low : (x : ℕ) → x < 32768 → shift_bit x ≡ 2 * x
unfolding shift_bit
shift_low x h = ground arith

shift_high : (x : ℕ) → x < 32768 → shift_bit (1 * 32768 + x) ≡ bit_xor (2 * x) 0x1021
unfolding shift_bit
shift_high x h = ground arith

double-bit_xor : (x y : ℕ) → 2 * bit_xor x y ≡ bit_xor (2 * x) (2 * y)
double-bit_xor x y = ground (arith, bit_xor_step (2 * x) (2 * y))

-- `a ^ p ^ b` and `(a ^ p) ^ (b ^ p)`.
move_right : (a b p : ℕ) → bit_xor (bit_xor a p) b ≡ bit_xor (bit_xor a b) p
move_right a b p = rw (bit_xor_assoc a p b, bit_xor_comm p b) (sym (bit_xor_assoc a b p))

cancel : (a b p : ℕ) → bit_xor (bit_xor a p) (bit_xor b p) ≡ bit_xor a b
cancel a b p =
    rw (← bit_xor_assoc (bit_xor a p) b p, move_right a b p, bit_xor_assoc (bit_xor a b) p p)
      (rw (bit_xor_self p) (bit_xor-zero (bit_xor a b)))

module _ (x y : ℕ) (hx : x < 32768) (hy : y < 32768) where
  low_low : shift_bit (bit_xor x y) ≡ bit_xor (shift_bit x) (shift_bit y)
  low_low =
      rw (shift_low (bit_xor x y) (bit_xor-lt 15 x y hx hy), shift_low x hx, shift_low y hy)
        (double-bit_xor x y)

  high_low :
      shift_bit (bit_xor (1 * 32768 + x) y) ≡ bit_xor (shift_bit (1 * 32768 + x)) (shift_bit y)
  high_low =
      rw (shift_high x hx, shift_low y hy)
        (ap shift_bit (join ∙ bit_xor_fields 15 1 0 x y hx hy)
          ∙ shift_high (bit_xor x y) (bit_xor-lt 15 x y hx hy)
          ∙ ap (λ t. bit_xor t 0x1021) (double-bit_xor x y)
          ∙ sym (move_right (2 * x) (2 * y) 0x1021))
    where
      join : bit_xor (1 * 32768 + x) y ≡ bit_xor (1 * 32768 + x) (0 * 32768 + y)
      join = ap (bit_xor (1 * 32768 + x)) (omega arith)

  high_high :
      shift_bit (bit_xor (1 * 32768 + x) (1 * 32768 + y))
      ≡ bit_xor (shift_bit (1 * 32768 + x)) (shift_bit (1 * 32768 + y))
  high_high =
      rw (shift_high x hx, shift_high y hy)
        (ap shift_bit (bit_xor_fields 15 1 1 x y hx hy ∙ low)
          ∙ shift_low (bit_xor x y) (bit_xor-lt 15 x y hx hy)
          ∙ double-bit_xor x y
          ∙ sym (cancel (2 * x) (2 * y) 0x1021))
    where
      low : bit_xor 1 1 * 32768 + bit_xor x y ≡ bit_xor x y
      low = omega arith

top_bit : (x : ℕ) → x < 65536 → (x < 32768) ⊎ ((y : ℕ) × (y < 32768) × (x ≡ 1 * 32768 + y))
top_bit x h = elim (Bool-cases (ltb x 32768)) [
  | inl low ↦ inl (ltb→lt x 32768 low)
  | inr high ↦ inr (x - 32768, ground arith, ground arith)
]

pub shift_bit-bit_xor :
    (x y : ℕ)
    → x < 65536
    → y < 65536
    → shift_bit (bit_xor x y) ≡ bit_xor (shift_bit x) (shift_bit y)
shift_bit-bit_xor x y hx hy = by_tops (top_bit x hx) (top_bit y hy)
  where
    by_tops :
        (x < 32768) ⊎ ((x' : ℕ) × (x' < 32768) × (x ≡ 1 * 32768 + x'))
        → (y < 32768) ⊎ ((y' : ℕ) × (y' < 32768) × (y ≡ 1 * 32768 + y'))
        → shift_bit (bit_xor x y) ≡ bit_xor (shift_bit x) (shift_bit y)
    by_tops (inl a) (inl b) = low_low x y a b
    by_tops (inr (x', a, e)) (inl b) = rw e (high_low x' y a b)
    by_tops (inl a) (inr (y', b, e)) =
        rw (bit_xor_comm x y, bit_xor_comm (shift_bit x) (shift_bit y)) (rw e (high_low y' x b a))
    by_tops (inr (x', a, e)) (inr (y', b, d)) = rw (e, d) (high_high x' y' a b)

pub shift_bit-lt : (x : ℕ) → x < 65536 → shift_bit x < 65536
unfolding shift_bit
shift_bit-lt x h = ground (arith, bit_xor-lt 16 (2 * (x - 32768)) 0x1021)

pub shift_bits-bit_xor :
    (n x y : ℕ)
    → x < 65536
    → y < 65536
    → shift_bits n (bit_xor x y) ≡ bit_xor (shift_bits n x) (shift_bits n y)
unfolding shift_bits
shift_bits-bit_xor zero x y hx hy = refl
shift_bits-bit_xor (suc n) x y hx hy =
    rw (shift_bit-bit_xor x y hx hy)
      (shift_bits-bit_xor n (shift_bit x) (shift_bit y) (shift_bit-lt x hx) (shift_bit-lt y hy))
