-- ===== src/Crc16/Bitwise.antt =====
-- The reference: CRC16 with the polynomial 0x1021, bit by bit, as the Redis Cluster specification
-- describes it (width 16, initial value 0, no reflection, no final xor).
use hiredis_happ.Common.{ℕ, zero, suc, ◌*◌, ◌-◌, bit_xor, [], ◌∷◌, Bytes, ltb, if◌then◌else◌}

-- Shift one bit out at the top; a 1 that leaves subtracts the polynomial.
unfoldable pub shift_bit : ℕ → ℕ
shift_bit x = if ltb x 32768 then 2 * x else bit_xor (2 * (x - 32768)) 0x1021

unfoldable pub shift_bits : ℕ → ℕ → ℕ
unfolding shift_bit
shift_bits zero x = x
shift_bits (suc n) x = shift_bits n (shift_bit x)

unfoldable pub crc_bits : ℕ → Bytes → ℕ
crc_bits crc [] = crc
crc_bits crc (c ∷ buf) = crc_bits (shift_bits 8 (bit_xor crc (c * 256))) buf
