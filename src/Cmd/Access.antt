-- ===== src/Cmd/Access.antt =====
-- The getters of cmd_exec in src/detail/happ_cmd.cpp, and the setter of its private data.
use hiredis_happ.Common.{ℕ, Bytes, Option, ℤ}
use hiredis_happ.Memory.{M, pure, ◌>>=◌, Callback, Memory, get_cmd, put_cmd}

unfoldable pub result : ℕ → M Memory ℤ
result c = do x ← get_cmd c; pure x.error_code

unfoldable pub private_data : ℕ → M Memory ℕ
private_data c = do x ← get_cmd c; pure x.private_data

unfoldable pub set_private_data : ℕ → ℕ → M Memory (Unit {0})
set_private_data c pd = do x ← get_cmd c; put_cmd c (record x { private_data = pd })

unfoldable pub get_callback_fn : ℕ → M Memory Callback
get_callback_fn c = do x ← get_cmd c; pure x.callback

-- The length, and the pointer with what it points at.
unfoldable pub get_cmd_raw_content : ℕ → M Memory (ℕ × Option Bytes)
get_cmd_raw_content c = do x ← get_cmd c; pure (x.raw_len, x.content)

unfoldable pub get_error_code : ℕ → M Memory ℤ
get_error_code c = do x ← get_cmd c; pure x.error_code
