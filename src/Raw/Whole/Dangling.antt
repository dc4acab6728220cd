-- ===== src/Raw/Whole/Dangling.antt =====
-- Replies of hiredis that come after the connection of hiredis::happ::raw was released.
use hiredis_happ.Common.{
  ℕ, Bool, All, ◌≡◌, refl, ap, subst, true, ◌∷◌, ◌++◌, List, Option, none, some, ℤ,
}
use hiredis_happ.Memory.{Conn, Driver, Reply, ◌>>=◌}
use hiredis_happ.Memory.Laws.{Distinct, Distinct-prefix, All-prefix}
use hiredis_happ.Memory.Members.{All-at}
use hiredis_happ.Raw.State.{Raw}
use hiredis_happ.Raw.Pending.{waiting}
use hiredis_happ.Raw.Release.{release_connection}
use hiredis_happ.Raw.Events.{on_reply_wrapper}
use hiredis_happ.Raw.Teardown.{closed, release_connection_lem}
use hiredis_happ.Raw.Settling.Framing.{queue-some}
use hiredis_happ.Raw.Whole.{IsSendable, owned, IsWhole, IsLive-of}
use hiredis_happ.Raw.Whole.Settling.{IsOpen-at}

-- Where the connection of a raw object is open, each command that waits, on the connection or for
-- the timer, is alive, stands there once and has a buffer that holds a command, and every other
-- command was freed: release_connection leaves the object without a connection, the connection
-- object is deleted, and a reply that hiredis hands out afterwards for a command that waited on
-- it, as it does where the context is disconnected only after its pending replies, is a fault:
-- on_reply_wrapper reads the command after its end.
pub release_connection-on_reply_wrapper :
    (driver : Driver) (fuel context : ℕ) (reply : Option Reply) (close_fd : Bool) (status : ℤ)
    (r : Raw) (k c : ℕ) (conn : Conn) (front back : List ℕ)
    → r.conn ≡ some k
    → r.mem.conns k ≡ some conn
    → conn.reply_list ≡ front ++ c ∷ back
    → IsWhole r
    → (s : Raw) × (release_connection close_fd status r ≡ some (true, s))
      × (s.conn ≡ none)
      × (s.mem.conns k ≡ none)
      × (on_reply_wrapper driver fuel context k reply c s ≡ none)
unfolding on_reply_wrapper
release_connection-on_reply_wrapper driver fuel context reply close_fd status r k c conn front back
      hr hk hl h =
    let l = conn.reply_list in
    let w = waiting r.timer.timer_pending in
    let q : owned r ≡ l ++ w = ap (λ p. p ++ w) (queue-some r.mem.conns r.conn k conn hr hk) in
    let (n, run, x) =
      release_connection_lem close_fd status r k conn hr hk
        (IsOpen-at r.mem.conns r.conn k conn h.linked hr hk).not_closed
        (IsLive-of r.mem l
          (All-prefix (IsSendable r.mem) l w (subst (λ p. All (IsSendable r.mem) p) q h.sendable)))
        (Distinct-prefix l w (subst (λ p. Distinct p) q h.distinct)) in
    let dead : n.cmds c ≡ none =
      All-at (λ d. n.cmds d ≡ none) c front back
        (subst (λ p. All (λ d. n.cmds d ≡ none) p) hl x.gone) in
    (closed r n, run, refl, x.conn_gone, rw (dead, ◌>>=◌) refl)
