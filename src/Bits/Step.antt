-- ===== src/Bits/Step.antt =====
-- `bit_xor` stands for a recursion on binary digits with fuel. Here the fuel is dropped: one
-- equation for the lowest digit.
use Prim.Native.Nat.{digits, bit_xor-bitwise, differ}
use hiredis_happ.Common.{ℕ, zero, suc, ◌+◌, ◌*◌, ◌/◌, ◌%◌, ◌≤◌, ◌<◌, bit_xor, ◌≡◌, refl, arith}

-- The digits of an exclusive or, with fuel.
abbrev xor_digits : ℕ → ℕ → ℕ → ℕ
xor_digits = digits (λ y. y) differ

-- Fuel for the first word is enough: more changes nothing.
least_fuel : (v fuel w : ℕ) → v ≤ fuel → xor_digits fuel v w ≡ xor_digits v v w
least_fuel v fuel w enough = same fuel v v w enough (omega arith)
  where
    same : (more less v w : ℕ) → less ≤ more → v ≤ less → xor_digits more v w ≡ xor_digits less v w
    same zero zero zero w le enough = refl
    same zero (suc less) v w le enough = absurd (omega arith)
    same more zero (suc v) w le enough = absurd (omega arith)
    same (suc more) zero zero w le enough = refl
    same (suc more) (suc less) zero w le enough = refl
    same (suc more) (suc less) (suc v) w le enough =
        rw (same more less (suc v / 2) (w / 2) (omega arith) (omega arith))

pub zero-bit_xor : (b : ℕ) → bit_xor 0 b ≡ b
zero-bit_xor b = bit_xor-bitwise 0 b

differ_digits : (x y : ℕ) → x < 2 → y < 2 → differ x y ≡ (x + y) % 2
differ_digits zero y hx hy = omega arith
differ_digits (suc zero) zero hx hy = refl
differ_digits (suc zero) (suc zero) hx hy = refl
differ_digits (suc zero) (suc (suc y)) hx hy = absurd (omega arith)
differ_digits (suc (suc x)) y hx hy = absurd (omega arith)

differ-mod : (a b : ℕ) → differ (a % 2) (b % 2) ≡ (a + b) % 2
differ-mod a b = omega (arith, differ_digits (a % 2) (b % 2) (omega arith) (omega arith))

pub bit_xor_step : (a b : ℕ) → bit_xor a b ≡ bit_xor (a / 2) (b / 2) * 2 + (a + b) % 2
bit_xor_step zero b = omega (arith, zero-bit_xor b, zero-bit_xor (b / 2))
bit_xor_step (suc a) b = omega (
  arith,
  bit_xor-bitwise (suc a) b,
  bit_xor-bitwise (suc a / 2) (b / 2),
  least_fuel (suc a / 2) a (b / 2) (omega arith),
  differ-mod (suc a) b,
)

pub bit_xor-half : (a b : ℕ) → bit_xor a b / 2 ≡ bit_xor (a / 2) (b / 2)
bit_xor-half a b = omega (arith, bit_xor_step a b)

pub bit_xor-parity : (a b : ℕ) → bit_xor a b % 2 ≡ (a + b) % 2
bit_xor-parity a b = omega (arith, bit_xor_step a b)
