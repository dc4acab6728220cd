-- ===== src/Cmd/Argument.antt =====
-- pick_argument and pick_cmd of src/detail/happ_cmd.cpp: the arguments in a command's buffer.
use hiredis_happ.Common.{ℕ, ◌+◌, ◌-◌, ◌%◌, ◌^◌, Bytes, Option, none, some, ℤ, pos, negsuc, drop}
use hiredis_happ.Text.{scan_int, strchr}
use hiredis_happ.Memory.{M, pure, ◌>>=◌, Memory, get_cmd}

-- `*len`, `*str` as the buffer from there on, and the pointer that is returned.
pub record Picked : Type 0 where
  pub len : ℕ
  pub str : Bytes
  pub next : Bytes

-- `static_cast<size_t>(strtol(...))`
unfoldable pub to_size : ℤ → ℕ
to_size (pos n) = n % 2 ^ 64
to_size (negsuc n) = 2 ^ 64 - 1 - n % 2 ^ 64

-- `start` points at a `$`. `none` inside is a null pointer; the assert on `\r` is the outer `none`.
unfoldable pub pick_bulk : Bytes → Option Picked
pick_bulk start = elim (strchr 13 start) [
  | none ↦ none
  | some line ↦
      let len = to_size (scan_int (drop 1 start)) in
      some (record { len = len; str = drop 2 line; next = drop (2 + len + 2) line })
]

-- pick_argument(start, &str, &len) from a pointer into the buffer, with `str` and `len` given. The
-- outer `none` is the failed assert, the inner one the null pointer.
unfoldable pub pick_argument : Option Bytes → Option Bytes → Option (Option Picked)
pick_argument content start =
    let from : Option Bytes = elim start [ none ↦ content | some s ↦ some s ] in
    elim from [
      | none ↦ some none
      | some s ↦ elim (strchr b'$' s) [
        | none ↦ some none
        | some bulk ↦ elim (pick_bulk bulk) [ none ↦ none | some p ↦ some (some p) ]
      ]
    ]

-- pick_cmd(&str, &len), as `redis_cmd` reads `str` from it: the text from the name on, or null.
unfoldable pub pick_cmd : ℕ → M Memory (Option Bytes)
pick_cmd c = do
  x ← get_cmd c
  elim (pick_argument x.content none) [
    | none ↦ (λ m. none)
    | some none ↦ pure none
    | some (some p) ↦ pure (some p.str)
  ]
