-- ===== src/Raw/Whole/Replies.antt =====
-- The reply to a command that waits on the connection of hiredis::happ::raw keeps the whole state.
use hiredis_happ.Common.{
  ℕ, suc, ◌≤◌, ◌≡◌, ◌≢◌, refl, sym, ap, ◌∙◌, subst, Bool-cases, inl, inr, ◌==ℤ◌, ◌||◌, [], ◌∷◌,
  ◌++◌, List, All, All-append, Option, none, some, append_assoc,
}
use hiredis_happ.Common.ErrorCode
use hiredis_happ.Cmd
use hiredis_happ.Memory.{Cmd, Conn, Driver, Reply, update, get_cmd, pure, ◌>>=◌}
use hiredis_happ.Memory.Laws.{
  IsLive, Distinct, Distinct-prefix, All-prefix, All-suffix, >>=-some, update-here, update-there,
}
use hiredis_happ.Memory.Members.{All-zip, All-at, Distinct-remove}
use hiredis_happ.Connection.Queue
use hiredis_happ.Connection.Queue.Pop.{pop_until_lem}
use hiredis_happ.Connection.Queue.Waiting.{call_reply-waiting, pop_reply-waiting}
use hiredis_happ.Raw.State.{Raw, lift}
use hiredis_happ.Raw.{retry_fuel}
use hiredis_happ.Raw.Pending.{waiting, lift-some}
use hiredis_happ.Raw.Events.{err_io, err_eof, pass_reply, on_reply_wrapper}
use hiredis_happ.Raw.Settling.{read_cmd}
use hiredis_happ.Raw.Settling.Framing.{queue, queue-some}
use hiredis_happ.Raw.Settling.Retries.{retry_fuel-Settles, exec_cmd-fuel}
use hiredis_happ.Raw.Whole.{IsSendable, IsOpen, Linked, owned, IsWhole, Floats-IsReady, IsLive-of}
use hiredis_happ.Raw.Whole.Settling.{IsOpen-at, again-IsOpen}
use hiredis_happ.Raw.Whole.Executing.{Settles-Executed}
use hiredis_happ.Raw.Whole.Releasing.{take-Floats, front-IsWhole}
use hiredis_happ.Raw.Whole.Events.{Keeps}

-- The commands `pre` wait in front of `c` on the connection, and `rest` behind it.
module _ (driver : Driver) (r : Raw) (k : ℕ) (conn : Conn) (c : ℕ) (pre rest : List ℕ)
    (hr : r.conn ≡ some k) (hk : r.mem.conns k ≡ some conn) (hl : conn.reply_list ≡ pre ++ c ∷ rest)
    (h : IsWhole r) where
  abbrev w : List ℕ
  w = waiting r.timer.timer_pending

  before : owned r ≡ pre ++ (c ∷ (rest ++ w))
  before =
      ap (λ l. l ++ w) (queue-some r.mem.conns r.conn k conn hr hk ∙ hl)
      ∙ append_assoc pre (c ∷ rest) w

  Distinct-owned : Distinct (pre ++ (c ∷ (rest ++ w)))
  Distinct-owned = subst (λ l. Distinct l) before h.distinct

  first : All (λ y. y ≢ c) pre
  first =
      All-prefix (λ y. y ≢ c) pre (rest ++ w) (Distinct-remove c pre (rest ++ w) Distinct-owned).1

  front : All (IsSendable r.mem) pre
  front =
      All-prefix (IsSendable r.mem) pre (c ∷ (rest ++ w))
        (subst (λ l. All (IsSendable r.mem) l) before h.sendable)

  opened : IsOpen conn
  opened = IsOpen-at r.mem.conns r.conn k conn h.linked hr hk

  after :
      (f : ℕ → Option Conn)
      → f k ≡ some (record conn { reply_list = rest })
      → queue f r.conn ++ w ≡ rest ++ w
  after f hf = ap (λ l. l ++ w) (queue-some f r.conn k (record conn { reply_list = rest }) hr hf)

  Linked-at :
      (f : ℕ → Option Conn) (l : List ℕ)
      → f k ≡ some (record conn { reply_list = l })
      → Linked f r.conn
  Linked-at f l hf =
      subst (λ o. Linked f o) (sym hr)
        (record conn { reply_list = l }, hf, again-IsOpen conn l opened)

  -- The command may have got another error code before.
  pass_reply-Keeps :
      (reply : Option Reply) (f : ℕ → Option Cmd) (y : Cmd)
      → f c ≡ some y
      → ((d : ℕ) → d ≢ c → f d ≡ r.mem.cmds d)
      → Keeps (pass_reply driver k c reply) (record r { mem = record (r.mem) { cmds = f } })
  unfolding pass_reply
  pass_reply-Keeps reply f y hy hf =
      let r₀ = record r { mem = record (r.mem) { cmds = f } } in
      let live : All (IsLive r₀.mem) pre =
        All-zip pre (λ d ne s. (s.cmd, hf d ne ∙ s.there)) first front in
      let (n, e, q) =
        call_reply-waiting driver k c opened.context reply r₀.mem conn y pre rest hk
          opened.has_context hl first live (Distinct-prefix pre (c ∷ (rest ++ w)) Distinct-owned)
          hy in
      let s = record r { mem = n } in
      (
        s,
        >>=-some (lift (Queue.call_reply driver k (some c) reply)) (λ _. pure tt) r₀
            (lift-some (Queue.call_reply driver k (some c) reply) r₀ e),
        front-IsWhole r s (pre ++ c ∷ []) (rest ++ w)
            (before ∙ sym (append_assoc pre (c ∷ []) (rest ++ w))) (after n.conns q.conn_after)
            (All-append (λ x. n.cmds x ≡ none) pre (c ∷ [])
              (All-zip pre (λ d ne g. g (λ e. ne (sym e))) first q.gone_before) (q.gone, tt))
            (λ d far.
              let ne = All-suffix (λ x. x ≢ d) pre (c ∷ []) far in
              q.other_cmds d ne.0 (All-prefix (λ x. x ≢ d) pre (c ∷ []) far)
              ∙ hf d (λ e. ne.0 (sym e)))
            q.next_cmd_same refl (Linked-at n.conns rest q.conn_after) h,
      )

  -- The context lost its connection: the command is tried again.
  lost-Keeps :
      (fuel : ℕ)
      → Cmd.default_ttl ≤ fuel
      → Keeps
          (do
            popped ← lift (Queue.pop_reply k (some c))
            retried ← retry_fuel driver (suc fuel) c none
            pure tt)
          r
  lost-Keeps fuel enough =
      let (m, e, q) =
        pop_until_lem k c pre rest r.mem conn
          (hk ∙ ap (λ l. some (record conn { reply_list = l })) hl) first
          (IsLive-of r.mem pre front) (Distinct-prefix pre (c ∷ (rest ++ w)) Distinct-owned) in
      let t = record r { mem = m } in
      let held = record conn { reply_list = c ∷ rest } in
      let g = update m.conns k (some held) in
      let r₁ = record r { mem = record m { conns = g } } in
      let there = update-here m.conns k (some held) in
      let mine : owned r₁ ≡ c ∷ (rest ++ w) =
        ap (λ l. l ++ w) (queue-some g r.conn k held hr there) in
      let h₁ =
        front-IsWhole r r₁ pre (c ∷ (rest ++ w)) before mine q.gone q.other_cmds q.next_cmd_same
          refl (Linked-at g (c ∷ rest) there) h in
      let floats =
        take-Floats c r₁ t [] (rest ++ w) mine (after m.conns q.conn_after) refl refl refl
          (Linked-at m.conns rest q.conn_after) h₁ in
      let (res, s, e', x) = Settles-Executed c (retry_fuel driver (suc fuel) c none) t floats (
        retry_fuel-Settles driver c fuel (exec_cmd-fuel driver c fuel) t
          (Floats-IsReady c fuel t enough floats)) in
      (
        s,
        >>=-some (lift (Queue.pop_reply k (some c))) _ r (
              lift-some (Queue.pop_reply k (some c)) r
                (pop_reply-waiting driver k c r.mem conn pre rest hk hl ∙ e))
            ∙ >>=-some (retry_fuel driver (suc fuel) c none) (λ _. pure tt) t e',
        x.whole,
      )

  -- A reply, an error of the context or the end of its connection, to the command `c`.
  pub on_reply_wrapper-Keeps :
      (fuel context : ℕ) (reply : Option Reply)
      → Cmd.default_ttl ≤ fuel
      → Keeps (on_reply_wrapper driver (suc fuel) context k reply c) r
  unfolding on_reply_wrapper
  on_reply_wrapper-Keeps fuel context reply enough =
      let own =
        All-at (IsSendable r.mem) c pre (rest ++ w)
          (subst (λ l. All (IsSendable r.mem) l) before h.sendable) in
      let ctx = driver.context r.mem.trace context in
      let y = record (own.cmd) { error_code = ErrorCode.connection } in
      let start = >>=-some (lift (get_cmd c)) _ r (read_cmd c r own.there) in
      elim (Bool-cases ctx.disconnecting) [
        | inl closing ↦
            let (s, e, h') =
              pass_reply-Keeps reply (update r.mem.cmds c (some y)) y
                (update-here r.mem.cmds c (some y))
                (λ d ne. update-there r.mem.cmds c d (some y) (λ q. ne (sym q))) in
            (s, start ∙ rw closing e, h')
        | inr open_still ↦ elim (Bool-cases (ctx.err ==ℤ err_io || ctx.err ==ℤ err_eof)) [
          | inl lost ↦
              let (s, e, h') = lost-Keeps fuel enough in (s, start ∙ rw (open_still, lost) e, h')
          | inr fine ↦
              let (s, e, h') = pass_reply-Keeps reply r.mem.cmds own.cmd own.there (λ d ne. refl) in
              (s, start ∙ rw (open_still, fine) e, h')
        ]
      ]
