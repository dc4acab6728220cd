-- ===== src/Cluster/Replies.antt =====
-- on_reply_wrapper and on_reply_asking of hiredis::happ::cluster: replies, redirections and retries.
use hiredis_happ.Common.{
  ℕ, ltb, ◌==ℤ◌, not, ◌||◌, Bool, true, false, if◌then◌else◌, [], ◌∷◌, Bytes, Option, none, some, ℤ,
  pos, negsuc, ◌==◌,
}
use hiredis_happ.Common.ErrorCode
use hiredis_happ.Text.{strncase_eq}
use hiredis_happ.Name.{Key, set_key, pick_name}
use hiredis_happ.HashSlot.{slot_number}
use hiredis_happ.Memory.{
  M, pure, fault, ◌>>=◌, ◌>>◌, Driver, Reply, reply, reply_error, asks, emit, get_cmd, put_cmd,
  get_conn, update,
}
use hiredis_happ.Connection.Queue
use hiredis_happ.Slots.{invalid}
use hiredis_happ.Cluster.State.{Cluster, lift, get_cluster, end_cmd, set_flag}
use hiredis_happ.Cluster.{retry_fuel, reload_slots}
use hiredis_happ.Cluster.Connect.{find_connection}
use hiredis_happ.Cluster.Timers.{reset}
use hiredis_happ.Cluster.Redirect.{ask, moved, tryagain, clusterdown, scan_redirect}

-- REDIS_ERR_IO and REDIS_ERR_EOF of hiredis.
abbrev err_io : ℤ
err_io = pos 1

abbrev err_eof : ℤ
err_eof = pos 3

unfoldable pub is_lost : ℤ → Bool
is_lost err = err ==ℤ err_io || err ==ℤ err_eof

-- `if (ip.empty()) ip = conn->get_key().ip;`
unfoldable pub or_own : Bytes → Bytes → Bytes
or_own [] own = own
or_own (c ∷ ip) own = c ∷ ip

-- The key of an address that a redirection names; `none` where `make_name` faults.
unfoldable pub redirect_key : Bytes → ℕ → Bytes → Option Key
redirect_key ip port own = set_key (or_own ip own) port

-- `slot_index` as a slot of the table.
unfoldable pub as_slot : ℤ → Option ℕ
as_slot (negsuc n) = none
as_slot (pos n) = if ltb n slot_number then some n else none

-- A command that was sent to the wrong slot gets the one that the server names.
unfoldable pub correct_slot : ℕ → ℤ → ℤ
correct_slot slot (negsuc n) = negsuc n
correct_slot slot (pos n) = if n == slot then pos n else pos slot

-- `slots_[slot].hosts` with the one host `key`.
unfoldable pub set_master : ℕ → Key → M Cluster (Unit {0})
set_master slot key s = some (tt, record s { slots = update s.slots slot (key ∷ []) })

-- `call_cmd(cmd, REDIS_HAPP_CONNECTION, conn->get_context(), r); destroy_cmd(cmd);`
unfoldable pub refuse_asked : ℕ → ℕ → Option Reply → M Cluster (Unit {0})
refuse_asked k c r = do conn ← lift (get_conn k); end_cmd c ErrorCode.connection conn.context r

unfoldable pub mark_lost : Bool → ℕ → M Cluster (Unit {0})
mark_lost false c = pure tt
mark_lost true c = do
  x ← lift (get_cmd c)
  lift (put_cmd c (record x { error_code = ErrorCode.connection }))

-- "OK"
abbrev ok : Bytes
ok = 79 ∷ 75 ∷ []

unfoldable pub is_ok : Option Reply → Bool
is_ok (some (reply t i (some str) e)) = strncase_eq 2 ok str
is_ok r = false

unfoldable pub is_null_reply : Option Reply → Bool
is_null_reply none = true
is_null_reply (some r) = false

module _ (driver : Driver) where
  -- `conn->call_reply(cmd, r)`
  unfoldable pub pass_reply : ℕ → ℕ → Option Reply → M Cluster (Unit {0})
  pass_reply k c r = do res ← lift (Queue.call_reply driver k (some c) r); pure tt

  -- `conn->pop_reply(cmd); self->retry(cmd);`
  unfoldable pub pop_retry : ℕ → ℕ → ℕ → M Cluster (Unit {0})
  pop_retry fuel k c = do
    popped ← lift (Queue.pop_reply k (some c))
    retried ← retry_fuel driver fuel c none
    pure tt

  -- redisAsyncCommand on the connection's context, which is read through when it is null.
  unfoldable pub send_asking : ℕ → Option ℕ → M Cluster ℤ
  send_asking c none = fault
  send_asking c (some context) = do
    s ← get_cluster
    lift (emit (asks context c))
    pure (driver.asking s.mem.trace context c)

  -- `ask_conn`, and the result of the ASKING over it.
  unfoldable pub ask_over : ℕ → Option ℕ → M Cluster Bool
  ask_over c none = pure false
  ask_over c (some j) = do
    conn ← lift (get_conn j)
    res ← send_asking c conn.context
    pure (res ==ℤ pos 0)

  unfoldable pub ask_at : ℕ → ℕ → ℕ → Option Key → M Cluster (Unit {0})
  ask_at fuel k c none = fault
  ask_at fuel k c (some key) = do
    j ← find_connection driver (retry_fuel driver fuel) key
    popped ← lift (Queue.pop_reply k (some c))
    asked ← ask_over c j
    if asked then pure tt else (do retried ← retry_fuel driver fuel c none; pure tt)

  unfoldable pub ask_named : ℕ → ℕ → ℕ → Option Reply → Option (Bytes × ℕ) → M Cluster (Unit {0})
  ask_named fuel k c r none = pass_reply k c r
  ask_named fuel k c r (some (ip, port)) = do
    conn ← lift (get_conn k)
    ask_at fuel k c (redirect_key ip port conn.key.ip)

  -- ASK: the command leaves its connection, and follows an ASKING on the other one.
  unfoldable pub on_ask : ℕ → ℕ → ℕ → Option Reply → Option (ℤ × Bytes) → M Cluster (Unit {0})
  on_ask fuel k c r none = fault
  on_ask fuel k c r (some (slot_index, addr)) = ask_named fuel k c r (pick_name addr)

  unfoldable pub move_to : ℕ → ℕ → ℕ → ℕ → Option Key → M Cluster (Unit {0})
  move_to fuel k c slot none = fault
  move_to fuel k c slot (some key) = do
    set_master slot key
    pop_retry fuel k c
    reloaded ← reload_slots driver (retry_fuel driver fuel)
    pure tt

  unfoldable pub move_named :
      ℕ → ℕ → ℕ → ℕ → Option Reply → Option (Bytes × ℕ) → M Cluster (Unit {0})
  move_named fuel k c slot r none = do set_flag invalid; pass_reply k c r
  move_named fuel k c slot r (some (ip, port)) = do
    conn ← lift (get_conn k)
    move_to fuel k c slot (redirect_key ip port conn.key.ip)

  unfoldable pub move_slot : ℕ → ℕ → ℕ → Option Reply → Bytes → Option ℕ → M Cluster (Unit {0})
  move_slot fuel k c r addr none = pass_reply k c r
  move_slot fuel k c r addr (some slot) = do
    x ← lift (get_cmd c)
    lift (put_cmd c (record x { slot = correct_slot slot x.slot }))
    move_named fuel k c slot r (pick_name addr)

  -- MOVED: the slot has a new master, to which the command goes, and the table is loaded anew.
  unfoldable pub on_moved : ℕ → ℕ → ℕ → Option Reply → Option (ℤ × Bytes) → M Cluster (Unit {0})
  on_moved fuel k c r none = fault
  on_moved fuel k c r (some (slot_index, addr)) = move_slot fuel k c r addr (as_slot slot_index)

  unfoldable pub on_clusterdown : ℕ → ℕ → ℕ → Option Reply → M Cluster (Unit {0})
  on_clusterdown fuel k c r = do pass_reply k c r; ended ← reset driver fuel; pure tt

  -- A reply that is an error, by its text.
  unfoldable pub on_error : ℕ → ℕ → ℕ → Option Reply → Bytes → M Cluster (Unit {0})
  on_error fuel k c r str =
      if strncase_eq 3 ask str
      then on_ask fuel k c r (scan_redirect 4 str)
      else if strncase_eq 5 moved str
      then on_moved fuel k c r (scan_redirect 6 str)
      else if strncase_eq 8 tryagain str
      then pop_retry fuel k c
      else if strncase_eq 11 clusterdown str
      then on_clusterdown fuel k c r
      else pass_reply k c r

  unfoldable pub on_reply : ℕ → ℕ → ℕ → Option Reply → M Cluster (Unit {0})
  on_reply fuel k c (some (reply reply_error i (some str) e)) =
      on_error fuel k c (some (reply reply_error i (some str) e)) str
  on_reply fuel k c r = pass_reply k c r

  -- on_reply_wrapper(context, r, cmd), where `k` is `context->data`.
  unfoldable pub on_reply_wrapper : ℕ → ℕ → ℕ → Option Reply → ℕ → M Cluster (Unit {0})
  on_reply_wrapper fuel context k r c = do
    s ← get_cluster
    x ← lift (get_cmd c)
    let ctx = driver.context s.mem.trace context
    if ctx.disconnecting
        then (do
          lift (put_cmd c (record x { error_code = ErrorCode.connection }))
          pass_reply k c r)
        else if is_lost ctx.err
        then pop_retry fuel k c
        else if not (ctx.err ==ℤ pos 0)
        then pass_reply k c r
        else on_reply fuel k c r

  -- on_reply_asking(context, r, cmd): the command waits on no connection meanwhile. After OK it follows
  -- over the connection `k`, which is `context->data`; the holder is read through it.
  unfoldable pub on_reply_asking : ℕ → ℕ → ℕ → Option Reply → ℕ → M Cluster (Unit {0})
  on_reply_asking fuel context k r c = do
    conn ← lift (get_conn k)
    s ← get_cluster
    let ctx = driver.context s.mem.trace context
    if is_lost ctx.err
        then (do retried ← retry_fuel driver fuel c none; pure tt)
        else if not (ctx.err ==ℤ pos 0) || is_null_reply r
        then (do mark_lost ctx.disconnecting c; refuse_asked k c r)
        else if is_ok r
        then (do retried ← retry_fuel driver fuel c (some k); pure tt)
        else refuse_asked k c r
