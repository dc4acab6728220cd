-- ===== src/Name.antt =====
-- Endpoint names, of src/detail/happ_connection.cpp: `make_name`, `set_key` and `pick_name`.
pub mod RoundTrip
use hiredis_happ.Common.{
  ℕ, zero, suc, ◌+◌, ◌-◌, ◌/◌, ◌%◌, ◌^◌, Bool, true, false, ◌==◌, if◌then◌else◌, [], ◌∷◌, ◌++◌,
  Bytes, Option, none, some, ℤ, pos, negsuc, take, drop, length,
}
use hiredis_happ.Text.{is_blank, scan_int}

-- connection::key_t
pub record Key : Type 0 where
  pub name : Bytes
  pub port : ℕ
  pub ip : Bytes

-- `while (port) buf[--i] = port % 10 + '0'` with `i` places left in front; `none` is a write in
-- front of the buffer.
unfoldable pub port_loop : ℕ → ℕ → Bytes → Option Bytes
port_loop zero port out = if port == 0 then some out else none
port_loop (suc i) port out =
    let rest = port_loop i (port / 10) ((b'0' + port % 10) ∷ out) in
    if port == 0 then some out else rest

unfoldable pub port_text : ℕ → Option Bytes
port_text port = if port == 0 then some (b'0' ∷ []) else port_loop 7 port []

unfoldable pub make_name : Bytes → ℕ → Option Bytes
make_name ip port = elim (port_text port) [ none ↦ none | some text ↦ some (ip ++ b':' ∷ text) ]

unfoldable pub set_key : Bytes → ℕ → Option Key
set_key ip port = elim (make_name ip port) [
  | none ↦ none
  | some name ↦ some (record { name = name; port = port; ip = ip })
]

-- `static_cast<uint16_t>(p)`
unfoldable pub to_u16 : ℤ → ℕ
to_u16 (pos n) = n % 2 ^ 16
to_u16 (negsuc n) = 2 ^ 16 - 1 - n % 2 ^ 16

-- `find_first_of(':')`, as the texts in front of and behind the colon.
unfoldable pub split_colon : Bytes → Option (Bytes × Bytes)
split_colon [] = none
split_colon (c ∷ s) =
    let rest : Option (Bytes × Bytes) = elim (split_colon s) [
      | none ↦ none
      | some (front, back) ↦ some (c ∷ front, back)
    ] in
    if c == b':' then some ([], s) else rest

-- `while (name[s] is blank) ++s; substr(s, it - s)`: the scan stops at the colon at the latest.
unfoldable pub skip_blanks : Bytes → Bytes
skip_blanks [] = []
skip_blanks (c ∷ s) = let rest = skip_blanks s in if is_blank c then rest else c ∷ s

-- `none` is the result false.
unfoldable pub pick_name : Bytes → Option (Bytes × ℕ)
pick_name name = elim (split_colon name) [
  | none ↦ none
  | some (front, []) ↦ none
  | some (front, c ∷ back) ↦ some (skip_blanks front, to_u16 (scan_int (c ∷ back)))
]
