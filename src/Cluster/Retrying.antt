-- ===== src/Cluster/Retrying.antt =====
-- The replies after which hiredis::happ::cluster tries a command again.
use hiredis_happ.Common.{
  ℕ, suc, ◌≡◌, refl, ap, ◌∙◌, true, inl, inr, ◌⊎◌, ◌∷◌, ◌++◌, List, Bytes, Option, none, some, ℤ,
  pos,
}
use hiredis_happ.Memory.{Conn, Driver, Context, Reply, Replies, reply, reply_error, get_cmd, pure}
use hiredis_happ.Memory.Laws.{>>=-some}
use hiredis_happ.Text.{strncase_eq}
use hiredis_happ.Connection.Queue
use hiredis_happ.Cluster.State.{Cluster, lift}
use hiredis_happ.Cluster.{retry_fuel}
use hiredis_happ.Cluster.Pending.{lift-some}
use hiredis_happ.Cluster.Redirect.{tryagain}
use hiredis_happ.Cluster.Replies.{is_lost, pop_retry, on_error, on_reply, on_reply_wrapper}
use hiredis_happ.Cluster.Placing.{IsCalm, IsSound, IsFilled}
use hiredis_happ.Cluster.Placing.Waiting.{read_cmd}
use hiredis_happ.Cluster.Placing.Reloading.{Formats}
use hiredis_happ.Cluster.Placing.Executing.{Executed, retry-Executes}
use hiredis_happ.Cluster.Moving.{pop_reply-first, waits_with, waits_with-IsSound}

-- The connection was lost while the command waited, or the server answers with an error that begins with
-- "TRYAGAIN".
abbrev pub IsRetried : Context → Option Reply → Type 0
IsRetried ctx r =
    (is_lost ctx.err ≡ true)
    ⊎ ((ctx.err ≡ pos 0)
        × (i : ℤ) × (text : Bytes) × (e : Replies) × (r
            ≡ some (reply reply_error i (some (tryagain ++ text)) e)))

-- The command was tried again at `s`, and has its place.
pub record Retried (driver : Driver) (fuel c : ℕ) (s t : Cluster) : Type 0 where
  pub result : Option ℕ
  pub retries : retry_fuel driver fuel c none s ≡ some (result, t)
  pub executed : Executed c s t

module _ (driver : Driver) (calm : IsCalm driver) (formats : Formats driver) (fuel : ℕ)
    (c : ℕ) where
  pop_retry-Executes :
      (k : ℕ) (conn : Conn) (rest : List ℕ) (s : Cluster)
      → IsSound s
      → s.mem.conns k ≡ some conn
      → conn.reply_list ≡ c ∷ rest
      → IsFilled s.mem c
      → (t : Cluster) × (pop_retry driver (suc fuel) k c s ≡ some (tt, t))
        × Retried driver (suc fuel) c (waits_with s k conn rest) t
  unfolding pop_retry
  pop_retry-Executes k conn rest s sound hk hl f =
      let s₁ = waits_with s k conn rest in
      let g : IsFilled s₁.mem c = record {
        cmd = f.cmd;
        there = f.there;
        bytes = f.bytes;
        filled = f.filled;
        picked = f.picked;
        whole = f.whole;
      } in
      let (a, t, e, q) =
        retry-Executes driver calm formats fuel c s₁ (waits_with-IsSound s k conn rest sound hk)
          g in
      (
        t,
        >>=-some (lift (Queue.pop_reply k (some c))) _ s
              (lift-some (Queue.pop_reply k (some c)) s (pop_reply-first k c rest conn s.mem hk hl))
            ∙ >>=-some (retry_fuel driver (suc fuel) c none) (λ _. pure tt) s₁ e,
        record { result = a; retries = e; executed = q },
      )

  on_reply-tryagain :
      (k : ℕ) (i : ℤ) (text : Bytes) (e : Replies) (s : Cluster)
      → on_reply driver (suc fuel) k c (some (reply reply_error i (some (tryagain ++ text)) e)) s
        ≡ pop_retry driver (suc fuel) k c s
  unfolding on_reply on_error strncase_eq
  on_reply-tryagain k i text e s = refl

  -- The reply to the oldest command that waits on a connection, where the context has lost its
  -- connection or the reply is an error that begins with "TRYAGAIN", on a cluster without a
  -- password where every name leads to a connection that is there and the numbers that were not
  -- given out yet are free, while no context is closing and hiredis gives a command where it
  -- formats CLUSTER SLOTS; the command has a buffer that holds a command. The handler does not
  -- fault, and does what retry of the command does on the cluster where only the younger commands
  -- wait on that connection. From that cluster on, the command was freed, or waits on the
  -- connection of some name, for the timer, or last for the slot table; every other command that
  -- was alive and the table stay as they were.
  pub on_reply_wrapper-Retried :
      (k context : ℕ) (r : Option Reply) (conn : Conn) (rest : List ℕ) (s : Cluster)
      → IsRetried (driver.context s.mem.trace context) r
      → IsSound s
      → s.mem.conns k ≡ some conn
      → conn.reply_list ≡ c ∷ rest
      → IsFilled s.mem c
      → (t : Cluster) × (on_reply_wrapper driver (suc fuel) context k r c s ≡ some (tt, t))
        × Retried driver (suc fuel) c (waits_with s k conn rest) t
  unfolding on_reply_wrapper is_lost
  on_reply_wrapper-Retried k context r conn rest s why sound hk hl f =
      let (t, e, q) = pop_retry-Executes k conn rest s sound hk hl f in
      (
        t,
        >>=-some (lift (get_cmd c)) _ s (read_cmd c s f.there) ∙ elim why [
          | inl lost ↦ rw ((calm s.mem.trace context).0, lost) e
          | inr (fine, i, text, es, h) ↦
              rw ((calm s.mem.trace context).0, fine)
                (ap (λ o. on_reply driver (suc fuel) k c o s) h
                  ∙ on_reply-tryagain k i text es s
                  ∙ e)
        ],
        q,
      )
