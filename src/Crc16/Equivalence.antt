-- ===== src/Crc16/Equivalence.antt =====
-- The table of src/detail/crc16.cpp computes the bit by bit CRC16.
use hiredis_happ.Common.{
  ℕ, Bool, ◌+◌, ◌*◌, ◌/◌, ◌%◌, ◌<◌, bit_and, bit_xor, ◌≡◌, refl, ap, ◌∙◌, sym, arith, true, [], ◌∷◌,
  Bytes, All, get_or, ltb, ltb→lt, ◌==◌, ==_iff, all_below, all_below_sound,
}
use mathlib.Core.Path.{ap₂}
use hiredis_happ.Bits.Laws.{bit_xor_comm, bit_xor-zero, bit_xor_fields, bit_xor-lt}
use hiredis_happ.Crc16.{crc16tab, crc16_step, crc16_loop, crc16}
use hiredis_happ.Crc16.Bitwise.{shift_bits, crc_bits}
use hiredis_happ.Crc16.Linear.{shift_bits-bit_xor}

-- What the 256 entries are, checked one by one.
abbrev entry_ok : ℕ → Bool
entry_ok x = get_or crc16tab x 0 == shift_bits 8 (x * 256)

table_entries : all_below 256 entry_ok ≡ true
unfolding all_below shift_bits
table_entries = refl

low_byte_ok : all_below 256 (λ x. shift_bits 8 x == x * 256) ≡ true
unfolding all_below shift_bits
low_byte_ok = refl

mask_ok : all_below 256 (λ x. bit_and x 0xff == x) ≡ true
unfolding all_below
mask_ok = refl

entry_bound : all_below 256 (λ x. ltb (get_or crc16tab x 0) 65536) ≡ true
unfolding all_below
entry_bound = refl

entry : (x : ℕ) → x < 256 → get_or crc16tab x 0 ≡ shift_bits 8 (x * 256)
entry x h = (==_iff _ _).0 (all_below_sound 256 entry_ok x table_entries h)

low_byte : (x : ℕ) → x < 256 → shift_bits 8 x ≡ x * 256
low_byte x h = (==_iff _ _).0 (all_below_sound 256 _ x low_byte_ok h)

masked : (x : ℕ) → x < 256 → bit_and x 0xff ≡ x
masked x h = (==_iff _ _).0 (all_below_sound 256 _ x mask_ok h)

-- The high and the low byte of `crc`, and the next byte of the buffer.
module _ (h l c : ℕ) (hh : h < 256) (hl : l < 256) (hc : c < 256) where
  index : ℕ
  index = bit_xor h c

  index-lt : index < 256
  unfolding index
  index-lt = bit_xor-lt 8 h c hh hc

  bound : get_or crc16tab index 0 < 65536
  bound = ltb→lt _ _ (all_below_sound 256 _ index entry_bound index-lt)

  table_side :
      bit_xor ((h * 256 + l) * 256) (get_or crc16tab index 0) % 65536
      ≡ bit_xor (l * 256) (get_or crc16tab index 0)
  table_side = high (get_or crc16tab index 0) bound
    where
      high : (t : ℕ) → t < 65536 → bit_xor ((h * 256 + l) * 256) t % 65536 ≡ bit_xor (l * 256) t
      high t ht = ground (
        arith,
        bit_xor_fields 16 h 0 (l * 256) t (omega arith) ht,
        bit_xor-lt 16 (l * 256) t (omega arith) ht,
      )

  bits_side :
      shift_bits 8 (bit_xor (h * 256 + l) (c * 256)) ≡ bit_xor (get_or crc16tab index 0) (l * 256)
  unfolding index
  bits_side =
      ap (shift_bits 8) split
      ∙ shift_bits-bit_xor 8 (bit_xor h c * 256) l (omega (arith, index-lt)) (omega arith)
      ∙ rw (low_byte l hl, entry (bit_xor h c) index-lt) refl
    where
      split : bit_xor (h * 256 + l) (c * 256) ≡ bit_xor (bit_xor h c * 256) l
      split = ground (
        arith,
        bit_xor_fields 8 h c l 0 hl (omega arith),
        bit_xor_fields 8 (bit_xor h c) 0 0 l (omega arith) hl,
        bit_xor-zero l,
        bit_xor-zero (bit_xor h c),
        bit_xor_comm 0 l,
      )

step_bytes :
    (crc c : ℕ) → crc < 65536 → c < 256 → crc16_step crc c ≡ shift_bits 8 (bit_xor crc (c * 256))
unfolding crc16_step index
step_bytes crc c hcrc hc =
    ap₂ (λ x i. bit_xor (x * 256) (get_or crc16tab i 0) % 65536) parts
      (masked (index h l c hh hl hc) lt)
    ∙ table_side h l c hh hl hc
    ∙ bit_xor_comm (l * 256) (get_or crc16tab (bit_xor h c) 0)
    ∙ sym (bits_side h l c hh hl hc)
    ∙ ap (λ x. shift_bits 8 (bit_xor x (c * 256))) (sym parts)
  where
    h : ℕ
    h = crc / 256

    l : ℕ
    l = crc % 256

    hh : h < 256
    hh = omega arith

    hl : l < 256
    hl = omega arith

    lt : index h l c hh hl hc < 256
    lt = index-lt h l c hh hl hc

    parts : crc ≡ h * 256 + l
    parts = omega arith

pub crc16_step-lt : (crc c : ℕ) → crc16_step crc c < 65536
unfolding crc16_step
crc16_step-lt crc c = omega arith

loop_bits :
    (crc : ℕ) (buf : Bytes)
    → crc < 65536
    → All (λ c. c < 256) buf
    → crc16_loop crc buf ≡ crc_bits crc buf
unfolding crc16_loop crc_bits
loop_bits crc [] h hb = refl
loop_bits crc (c ∷ buf) h hb =
    loop_bits (crc16_step crc c) buf (crc16_step-lt crc c) hb.1
    ∙ ap (λ t. crc_bits t buf) (step_bytes crc c h hb.0)

-- The table-driven CRC-16 is the bitwise CRC-16/XMODEM (polynomial 0x1021, start 0), for every
-- buffer of bytes.
pub crc16-crc_bits : (buf : Bytes) → All (λ c. c < 256) buf → crc16 buf ≡ crc_bits 0 buf
unfolding crc16
crc16-crc_bits buf h = loop_bits 0 buf (omega arith) h
