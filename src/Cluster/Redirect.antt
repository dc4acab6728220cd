-- ===== src/Cluster/Redirect.antt =====
-- The redirections of hiredis::happ::cluster: `sscanf(reply->str + n, "%d %s", &slot_index, addr)`, and the
-- words that they start with.
pub mod RoundTrip
use hiredis_happ.Common.{
  ℕ, ltb, ◌==◌, ◌||◌, Bool, true, false, if◌then◌else◌, [], ◌∷◌, Bytes, length, drop, Option, none,
  some, ℤ,
}
use hiredis_happ.Text.{is_space, is_digit, scan_int}

-- "ASK", "MOVED", "TRYAGAIN" and "CLUSTERDOWN"
abbrev pub ask : Bytes
ask = 65 ∷ 83 ∷ 75 ∷ []

abbrev pub moved : Bytes
moved = 77 ∷ 79 ∷ 86 ∷ 69 ∷ 68 ∷ []

abbrev pub tryagain : Bytes
tryagain = 84 ∷ 82 ∷ 89 ∷ 65 ∷ 71 ∷ 65 ∷ 73 ∷ 78 ∷ []

abbrev pub clusterdown : Bytes
clusterdown = 67 ∷ 76 ∷ 85 ∷ 83 ∷ 84 ∷ 69 ∷ 82 ∷ 68 ∷ 79 ∷ 87 ∷ 78 ∷ []

unfoldable pub skip_spaces : Bytes → Bytes
skip_spaces [] = []
skip_spaces (c ∷ s) = let rest = skip_spaces s in if is_space c then rest else c ∷ s

unfoldable pub skip_digits : Bytes → Bytes
skip_digits [] = []
skip_digits (c ∷ s) = let rest = skip_digits s in if is_digit c then rest else c ∷ s

-- What follows the digits that `%d` reads, or `none` if there is no digit.
unfoldable pub after_digits : Bytes → Option Bytes
after_digits [] = none
after_digits (c ∷ s) = if is_digit c then some (skip_digits s) else none

unfoldable pub after_sign : Bytes → Option Bytes
after_sign [] = none
after_sign (c ∷ s) = if c == b'-' || c == b'+' then after_digits s else after_digits (c ∷ s)

-- The bytes that `%s` reads: up to the next space, or the NUL.
unfoldable pub token : Bytes → Bytes
token [] = []
token (c ∷ s) = let rest = token s in if is_space c || c == 0 then [] else c ∷ rest

-- What is left in `addr`, which was empty: the second item is read only after the first.
unfoldable pub scan_addr : Bytes → Bytes
scan_addr s = elim (after_sign (skip_spaces s)) [ none ↦ [] | some rest ↦ token (skip_spaces rest) ]

-- `char addr[260]`: the text and its NUL have to fit.
abbrev pub addr_size : ℕ
addr_size = 260

unfoldable pub fit : ℤ → Bytes → Option (ℤ × Bytes)
fit slot_index addr = if ltb (length addr) addr_size then some (slot_index, addr) else none

-- The slot and the address, from the text behind the first `n` bytes. `none` is a fault: a read behind
-- the text's NUL, or a write behind `addr`.
unfoldable pub scan_redirect : ℕ → Bytes → Option (ℤ × Bytes)
scan_redirect n str =
    let s = drop n str in if ltb (length str) n then none else fit (scan_int s) (scan_addr s)
