-- ===== src/Cluster/Moving/Handling.antt =====
-- The handler of a MOVED reply of hiredis::happ::cluster, from the text on.
use hiredis_happ.Common.{
  ℕ, suc, ◌<◌, ◌^◌, ◌≡◌, ◌≢◌, refl, ap, ◌∙◌, arith, true, ltb, [], ◌∷◌, ◌++◌, List, Bytes, All,
  length, Option, none, some, ℤ, pos,
}
use hiredis_happ.Text.{strncase_eq, scan_digits}
use hiredis_happ.Text.Decimal.{IsDigit}
use hiredis_happ.Name.{Key, set_key, pick_name}
use hiredis_happ.Name.RoundTrip.{IsHost}
use hiredis_happ.HashSlot.{slot_number}
use hiredis_happ.Memory.{
  Conn, Driver, Reply, Replies, reply, reply_error, update, get_cmd, get_conn, pure,
}
use hiredis_happ.Memory.Laws.{IsLive, >>=-some, get_conn_lem, update-here, update-there}
use hiredis_happ.Connection.Queue
use hiredis_happ.Connection.Queue.{contains, pop_until}
use hiredis_happ.Cluster.State.{Cluster, lift}
use hiredis_happ.Cluster.{retry_fuel, reload_slots}
use hiredis_happ.Cluster.Pending.{lift-some}
use hiredis_happ.Cluster.Redirect.{moved, scan_redirect}
use hiredis_happ.Cluster.Redirect.RoundTrip.{IsWordByte, scan_redirect-make_name}
use hiredis_happ.Cluster.Replies.{
  is_lost, redirect_key, as_slot, correct_slot, set_master, pop_retry, move_to, move_named,
  move_slot, on_moved, on_error, on_reply, on_reply_wrapper,
}
use hiredis_happ.Cluster.Placing.{IsCalm, IsSound, IsFilled}
use hiredis_happ.Cluster.Placing.Waiting.{read_cmd}
use hiredis_happ.Cluster.Placing.Reloading.{Formats, reload_slots-Kept}
use hiredis_happ.Cluster.Placing.Executing.{retry-Executes}
use hiredis_happ.Cluster.Moving.{
  pop_reply-first, redirected, redirected-IsSound, redirected-IsFilled, Moved, place-Kept,
  moved_text, set_key_lem, redirect_key_lem,
}

module _ (driver : Driver) (calm : IsCalm driver) (formats : Formats driver) (fuel : ℕ)
    (c : ℕ) where
  -- From the table's new master on.
  move_to-Moved :
      (k slot : ℕ) (key : Key) (conn : Conn) (rest : List ℕ) (s : Cluster)
      → IsSound s
      → s.mem.conns k ≡ some conn
      → conn.reply_list ≡ c ∷ rest
      → (f : IsFilled s.mem c)
      → (t : Cluster) × (move_to driver (suc fuel) k c slot (some key) (record s {
        mem = record (s.mem) {
          cmds =
              update s.mem.cmds c (some (record (f.cmd) { slot = correct_slot slot f.cmd.slot }));
        };
      })
          ≡ some (tt, t))
        × Moved c slot key s t
  unfolding move_to set_master pop_retry
  move_to-Moved k slot key conn rest s sound hk hl f =
      let x = f.cmd in
      let m₁ = record (s.mem) {
        cmds = update s.mem.cmds c (some (record x { slot = correct_slot slot x.slot }));
      } in
      let table = update s.slots slot (key ∷ []) in
      let s₂ = record s { mem = m₁; slots = table } in
      let s₃ = redirected s k conn rest c x slot key in
      let sound₃ = redirected-IsSound s k conn rest c x slot key sound hk f.there in
      let (res, t, e, q) =
        retry-Executes driver calm formats fuel c s₃ sound₃
          (redirected-IsFilled s k conn rest c slot key f) in
      let (b, u, e', h) =
        reload_slots-Kept driver (retry_fuel driver (suc fuel)) calm formats t q.sound in
      (
        u,
        >>=-some (pop_retry driver (suc fuel) k c) _ s₂ (
              >>=-some (lift (Queue.pop_reply k (some c))) _ s₂
                (lift-some (Queue.pop_reply k (some c)) s₂ (pop_reply-first k c rest conn m₁ hk hl))
              ∙ >>=-some (retry_fuel driver (suc fuel) c none) (λ _. pure tt) s₃ e)
            ∙ >>=-some (reload_slots driver (retry_fuel driver (suc fuel))) (λ _. pure tt) t e',
        record {
          new_master =
              ap (λ g. g slot) (h.slots_same ∙ q.slots_same) ∙ update-here s.slots slot (key ∷ []);
          other_slots = λ i ne.
              ap (λ g. g i) (h.slots_same ∙ q.slots_same)
              ∙ update-there s.slots slot i (key ∷ []) ne;
          place = place-Kept c s₃ t u sound₃ (redirected-IsFilled s k conn rest c slot key f) q h;
          sound = h.sound;
        },
      )

  on_moved-Moved :
      (k slot : ℕ) (ip : Bytes) (port : ℕ) (addr : Bytes) (key : Key) (conn : Conn) (rest : List ℕ)
      (r : Option Reply) (s : Cluster)
      → IsSound s
      → s.mem.conns k ≡ some conn
      → conn.reply_list ≡ c ∷ rest
      → IsFilled s.mem c
      → slot < slot_number
      → pick_name addr ≡ some (ip, port)
      → redirect_key ip port conn.key.ip ≡ some key
      → (t : Cluster) × (on_moved driver (suc fuel) k c r (some (pos slot, addr)) s ≡ some (tt, t))
        × Moved c slot key s t
  unfolding on_moved move_slot move_named as_slot
  on_moved-Moved k slot ip port addr key conn rest r s sound hk hl f small picked named =
      let (t, e, q) = move_to-Moved k slot key conn rest s sound hk hl f in
      let inside : ltb slot slot_number ≡ true = ground (arith, small) in
      let slotted : as_slot (pos slot) ≡ some slot = rw (inside, as_slot) refl in
      let m₁ = record (s.mem) {
        cmds = update s.mem.cmds c (some (record (f.cmd) { slot = correct_slot slot f.cmd.slot }));
      } in
      let s₁ = record s { mem = m₁ } in
      (
        t,
        ap (λ o. move_slot driver (suc fuel) k c r addr o s) slotted
            ∙ >>=-some (lift (get_cmd c)) _ s (read_cmd c s f.there)
            ∙ ap (λ o. move_named driver (suc fuel) k c slot r o s₁) picked
            ∙ >>=-some (lift (get_conn k)) _ s₁ (lift-some (get_conn k) s₁ (get_conn_lem k m₁ hk))
            ∙ ap (λ o. move_to driver (suc fuel) k c slot o s₁) named
            ∙ e,
        q,
      )

  on_reply-moved :
      (k context : ℕ) (i : ℤ) (e : Replies) (digits name : Bytes) (s : Cluster)
      → (driver.context s.mem.trace context).err ≡ pos 0
      → IsLive s.mem c
      → on_reply_wrapper driver
          (suc fuel)
          context
          k
          (some (reply reply_error i (some (moved_text digits name)) e))
          c
          s
        ≡ on_moved driver
            (suc fuel)
            k
            c
            (some (reply reply_error i (some (moved_text digits name)) e))
            (scan_redirect 6 (moved_text digits name))
            s
  unfolding on_reply_wrapper on_reply on_error is_lost strncase_eq
  on_reply-moved k context i e digits name s fine (x, hx) =
      >>=-some (lift (get_cmd c)) _ s (read_cmd c s hx)
      ∙ rw ((calm s.mem.trace context).0, fine) refl

  -- Take a cluster without a password where every name of the map leads to a connection that is
  -- there, and the numbers that were not given out yet are free, and let no context be closing,
  -- the connection's context have no error, and hiredis give a command where it formats CLUSTER
  -- SLOTS. The reply is "MOVED", the digits of a slot of the table, and the name of a host and a
  -- port of 16 bits, to the oldest command that waits on a connection; the command has a buffer
  -- that holds a command, and the host is neither empty nor longer than 249 bytes and has no
  -- colon, space or NUL. The handler does not fault: the slot has that host as its only one, every
  -- other slot has those that it had, and the command was freed, or waits on the connection of
  -- some name, for the timer, or last for the slot table.
  pub on_reply_wrapper-Moved :
      (k context : ℕ) (i : ℤ) (e : Replies) (digits ip : Bytes) (port : ℕ) (conn : Conn)
      (rest : List ℕ) (s : Cluster)
      → (driver.context s.mem.trace context).err ≡ pos 0
      → IsSound s
      → s.mem.conns k ≡ some conn
      → conn.reply_list ≡ c ∷ rest
      → IsFilled s.mem c
      → digits ≢ []
      → All IsDigit digits
      → scan_digits 0 digits < slot_number
      → port < 2 ^ 16
      → ip ≢ []
      → IsHost ip
      → All IsWordByte ip
      → length ip < 250
      → (key : Key) × (set_key ip port ≡ some key)
        × (t : Cluster) × (on_reply_wrapper driver
              (suc fuel)
              context
              k
              (some (reply reply_error i (some (moved_text digits key.name)) e))
              c
              s
            ≡ some (tt, t))
        × Moved c (scan_digits 0 digits) key s t
  on_reply_wrapper-Moved k context i e digits ip port conn rest s fine sound hk hl f hd digit small
        hp hi host words short =
      let (name, made, scanned, picked) =
        scan_redirect-make_name (moved ++ b' ' ∷ []) digits ip port hd digit hp host words short in
      let key : Key = record { name = name; port = port; ip = ip } in
      let keyed : set_key ip port ≡ some key = set_key_lem ip port name made in
      let r = some (reply reply_error i (some (moved_text digits name)) e) in
      let (t, run, q) =
        on_moved-Moved k (scan_digits 0 digits) ip port name key conn rest r s sound hk hl f small
          picked (redirect_key_lem ip port conn.key.ip hi ∙ keyed) in
      (
        key,
        keyed,
        t,
        on_reply-moved k context i e digits name s fine (f.cmd, f.there)
            ∙ ap (λ o. on_moved driver (suc fuel) k c r o s) scanned
            ∙ run,
        q,
      )
