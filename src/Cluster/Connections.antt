-- ===== src/Cluster/Connections.antt =====
-- The connections of hiredis::happ::cluster by their names: get_connection and release_connection.
use hiredis_happ.Common.{
  ℕ, ◌==ℤ◌, Bool, true, false, if◌then◌else◌, [], ◌∷◌, List, Bytes, Option, none, some, ℤ, pos,
}
use hiredis_happ.Common.ErrorCode
use hiredis_happ.Name.{make_name}
use hiredis_happ.Memory.{
  M, pure, ◌>>=◌, ◌>>◌, Status, disconnected, connecting, connected, on_connected, on_disconnected,
  emit,
}
use hiredis_happ.Connection
use hiredis_happ.Slots.{bytes_eq, remove_connection_key}
use hiredis_happ.Cluster.State.{Cluster, lift, get_cluster, put_cluster}

-- `connections_.find(key)`
unfoldable pub find : Bytes → List (Bytes × ℕ) → Option ℕ
find key [] = none
find key ((name, k) ∷ rest) =
    let later = find key rest in if bytes_eq name key then some k else later

-- `connections_.erase(it)`, for the iterator of `find`.
unfoldable pub erase : Bytes → List (Bytes × ℕ) → List (Bytes × ℕ)
erase key [] = []
erase key ((name, k) ∷ rest) =
    let others = erase key rest in if bytes_eq name key then rest else (name, k) ∷ others

-- `connections_[key] = k`, for a key that is not in the map.
unfoldable pub insert : Bytes → ℕ → List (Bytes × ℕ) → List (Bytes × ℕ)
insert key k connections = (key, k) ∷ connections

unfoldable pub get_connection : Bytes → Cluster → Option ℕ
get_connection key s = find key s.connections

-- get_connection(ip, port); the outer `none` where `make_name` faults.
unfoldable pub get_connection_at : Bytes → ℕ → Cluster → Option (Option ℕ)
get_connection_at ip port s = elim (make_name ip port) [
  | none ↦ none
  | some name ↦ some (get_connection name s)
]

-- remove_connection_key(name), on the cluster's own table.
unfoldable pub forget_host : Bytes → M Cluster (Unit {0})
forget_host name s =
    let removed = remove_connection_key name s.slots in
    some (tt, record s { slot_flag = removed.0; slots = removed.1 })

-- What `release_connection` tells the user, by the status that the connection had.
unfoldable pub announce_release : Cluster → ℕ → Status → ℤ → M Cluster (Unit {0})
announce_release s k disconnected status = pure tt
announce_release s k connecting status =
    if s.callbacks.has_on_connected
    then lift
        (emit (on_connected k none (if status ==ℤ pos 0 then ErrorCode.connection else status)))
    else pure tt
announce_release s k connected status =
    if s.callbacks.has_on_disconnected then lift (emit (on_disconnected k none status)) else pure tt

-- The entry of the map goes, and the connection object with it.
unfoldable pub erase_conn : Bytes → ℕ → M Cluster (Unit {0})
erase_conn key k = do
  lift (Connection.delete_connection k)
  s ← get_cluster
  put_cluster (record s { connections = erase key s.connections })

-- A connection that was disconnected before is left as it is: the call is a recursive one.
unfoldable pub release_from : Bytes → ℕ → Status → ℤ → M Cluster Bool
release_from key k disconnected status = pure true
release_from key k from_status status = do
  s ← get_cluster
  announce_release s k from_status status
  erase_conn key k
  pure true

unfoldable pub release_found : Bytes → Bool → ℤ → Option ℕ → M Cluster Bool
release_found key close_fd status none = pure false
release_found key close_fd status (some k) = do
  from_status ← lift (Connection.set_disconnected k close_fd)
  release_from key k from_status status

-- release_connection(key, close_fd, status), of which only the name of the key is read.
unfoldable pub release_connection : Bytes → Bool → ℤ → M Cluster Bool
release_connection key close_fd status = do
  s ← get_cluster
  release_found key close_fd status (get_connection key s)
