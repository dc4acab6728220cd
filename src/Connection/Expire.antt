-- ===== src/Connection/Expire.antt =====
-- The loops of connection::release and connection::pop_reply that give up waiting commands.
pub mod Laws
use hiredis_happ.Common.{ℕ, List, [], ◌∷◌, none, ℤ}
use hiredis_happ.Memory.{M, pure, ◌>>=◌, ◌>>◌, Memory, get_conn, put_conn}
use hiredis_happ.Cmd

-- One command that will get no reply: taken out of the list, called with an error, destroyed.
unfoldable pub expire_front : ℕ → ℤ → ℕ → List ℕ → M Memory (Unit {0})
expire_front this code c rest = do
  conn ← get_conn this
  put_conn this (record conn { reply_list = rest })
  res ← Cmd.call_reply c code conn.context none
  Cmd.destroy c

-- `while (!reply_list_.empty())` over the list as it stands.
unfoldable pub expire_all : ℕ → ℤ → List ℕ → M Memory (Unit {0})
expire_all this code [] = pure tt
expire_all this code (c ∷ rest) = do expire_front this code c rest; expire_all this code rest
