-- ===== src/HashSlot.antt =====
-- detail::hash_slot of src/detail/happ_cluster.cpp: the slot of a key, with hash tags.
pub mod Tags
use hiredis_happ.Common.{
  ℕ, suc, ◌+◌, ◌-◌, ◌%◌, Bool, ◌||◌, ◌==◌, if◌then◌else◌, [], ◌∷◌, Bytes, ℤ, pos, negsuc, length,
  take, drop,
}
use hiredis_happ.Crc16.{crc16}

-- HIREDIS_HAPP_SLOT_NUMBER
abbrev pub slot_number : ℕ
slot_number = 16384

-- `while (i < len && key[i] != c) ++i`, on what is left of the key from index `i`.
unfoldable pub scan_until : ℕ → Bytes → ℕ → ℕ
scan_until c [] i = i
scan_until c (x ∷ rest) i = let next = scan_until c rest (suc i) in if x == c then i else next

unfoldable pub slot_of : Bytes → ℤ
slot_of buf = pos (crc16 buf % slot_number)

-- A null key is the empty list: the function tests both alike.
unfoldable pub hash_slot : Bytes → ℤ
unfolding scan_until slot_of
hash_slot [] = negsuc 0
hash_slot (k ∷ ks) =
    let key = k ∷ ks in
    let start = scan_until b'{' key 0 in
    let stop = scan_until b'}' (drop (start + 1) key) (start + 1) in
    if start == length key
    then slot_of key
    else if stop == length key || stop == start + 1
    then slot_of key
    else slot_of (take (stop - start - 1) (drop (start + 1) key))
