-- ===== src/Connection/Access.antt =====
-- The getters of connection in src/detail/happ_connection.cpp.
use hiredis_happ.Common.{ℕ, Option}
use hiredis_happ.Name.{Key}
use hiredis_happ.Memory.{M, pure, ◌>>=◌, Status, Memory, get_conn}

unfoldable pub get_sequence : ℕ → M Memory ℕ
get_sequence k = do x ← get_conn k; pure x.sequence

unfoldable pub get_context : ℕ → M Memory (Option ℕ)
get_context k = do x ← get_conn k; pure x.context

unfoldable pub get_key : ℕ → M Memory Key
get_key k = do x ← get_conn k; pure x.key

unfoldable pub get_status : ℕ → M Memory Status
get_status k = do x ← get_conn k; pure x.status
