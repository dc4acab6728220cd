-- ===== src/Bits.antt =====
-- `^` on unsigned words, which src/detail/crc16.cpp uses: laws at every width.
pub mod Step
pub mod Laws
