-- ===== src/Connection/Queue/Frees.antt =====
-- `call_reply` destroys its command in every case.
use hiredis_happ.Common.{
  ℕ, ◌≡◌, refl, sym, ap, ◌∙◌, arith, inl, inr, ◌∷◌, ◌++◌, List, All, Option, none, some, ℤ,
}
use hiredis_happ.Common.ErrorCode
use hiredis_happ.Memory.{
  Cmd, Conn, Memory, Driver, get_cmd, Event, freed, update, Reply, ◌>>◌, pure,
}
use hiredis_happ.Memory.Laws.{IsLive, Distinct, >>=-some, get_cmd_lem, All-prefix, Distinct-prefix}
use hiredis_happ.Cmd
use hiredis_happ.Cmd.Lifecycle
use hiredis_happ.Connection.Queue.{pop_reply, refuse, reply_popped, reply_over, call_reply}
use hiredis_happ.Connection.Queue.Pop.{contains-split}
use hiredis_happ.Connection.Queue.Waiting.{call_reply-waiting, pop_reply-missing, call_reply-over}

module _ (driver : Driver) (this : ℕ) where
  refuse_lem :
      (c : ℕ) (context : Option ℕ) (r : Option Reply) (x : Cmd) (m : Memory)
      → m.cmds c ≡ some x
      → (n : Memory) × (refuse (some c) context r m ≡ some (tt, n))
        × (n.cmds c ≡ none)
        × (n.trace ≡ freed c ∷ (Cmd.Lifecycle.answer c x ErrorCode.not_found context r ++ m.trace))
  unfolding refuse
  refuse_lem c context r x m hx =
      let x' = record x { error_code = ErrorCode.not_found } in
      let m₁ = record m { cmds = update m.cmds c (some x') } in
      let (m₂, n, e₁, e₂, a) =
        Cmd.Lifecycle.call_reply-destroy c x' ErrorCode.not_found context r m₁ (ground arith) in
      (
        n,
        >>=-some (get_cmd c) _ m (get_cmd_lem c m hx)
            ∙ >>=-some (Cmd.call_reply c ErrorCode.not_found context r) _ m₁ e₁
            ∙ e₂,
        a.gone,
        a.trace_after,
      )

  abbrev Frees : ℕ → Option ℕ → Option Reply → Cmd → Memory → Option (ℤ × Memory) → Type 0
  Frees c context r x m result =
      (res : ℤ) × (n : Memory) × (code : ℤ) × (before : List Event) × (result ≡ some (res, n))
      × (n.cmds c ≡ none)
      × (n.trace ≡ freed c ∷ (Cmd.Lifecycle.answer c x code context r ++ before))

  refuse-Frees :
      (c : ℕ) (context : Option ℕ) (r : Option Reply) (x : Cmd) (m : Memory) (res : ℤ)
      → m.cmds c ≡ some x
      → Frees c context r x m ((refuse (some c) context r >> pure res) m)
  refuse-Frees c context r x m res hx =
      let (n, e, gone, t) = refuse_lem c context r x m hx in
      (res, n, ErrorCode.not_found, m.trace, >>=-some (refuse (some c) context r) _ m e, gone, t)

  over-Frees :
      (c : ℕ) (r : Option Reply) (m : Memory) (conn : Conn) (x : Cmd) (context : Option ℕ)
      → m.conns this ≡ some conn
      → conn.context ≡ context
      → All (IsLive m) conn.reply_list
      → Distinct conn.reply_list
      → m.cmds c ≡ some x
      → Frees c context r x m (reply_over driver this (some c) r context m)
  unfolding reply_over reply_popped
  over-Frees c r m conn x none hk hc live distinct hx =
      refuse-Frees c none r x m ErrorCode.create hx
  over-Frees c r m conn x (some context) hk hc live distinct hx =
      elim (contains-split c conn.reply_list) [
        | inl (e, _) ↦
            let (res, n, code, before, f, gone, t) =
              refuse-Frees c (some context) r x m ErrorCode.not_found hx in
            (
              res,
              n,
              code,
              before,
              >>=-some (pop_reply this (some c)) _ m (pop_reply-missing driver this c m conn hk e)
                  ∙ f,
              gone,
              t,
            )
        | inr (pre, rest, e, first) ↦
            let live' : All (IsLive m) (pre ++ c ∷ rest) = rw e at live in
            let distinct' : Distinct (pre ++ c ∷ rest) = rw e at distinct in
            let (n, f, p) =
              call_reply-waiting driver this c context r m conn x pre rest hk hc e first
                (All-prefix (IsLive m) pre (c ∷ rest) live')
                (Distinct-prefix pre (c ∷ rest) distinct') hx in
            (
              ErrorCode.ok,
              n,
              _,
              _,
              ap (λ o. reply_over driver this (some c) r o m) (sym hc)
                  ∙ sym (call_reply-over driver this (some c) r m conn hk)
                  ∙ f,
              p.gone,
              p.trace_after,
            )
      ]

  -- On a connection whose waiting commands are alive and stand in its list once, call_reply of a
  -- command that is alive always destroys it, and calls its callback first if that is still there,
  -- as the header of the class promises: so it is without a context, for a command that does not
  -- wait here, and for one that waits behind others.
  pub call_reply-frees :
      (c : ℕ) (r : Option Reply) (m : Memory) (conn : Conn) (x : Cmd)
      → m.conns this ≡ some conn
      → All (IsLive m) conn.reply_list
      → Distinct conn.reply_list
      → m.cmds c ≡ some x
      → (res : ℤ) × (n : Memory) × (code : ℤ) × (before : List Event) × (call_reply driver this
            (some c)
            r
            m
          ≡ some (res, n))
        × (n.cmds c ≡ none)
        × (n.trace ≡ freed c ∷ (Cmd.Lifecycle.answer c x code conn.context r ++ before))
  call_reply-frees c r m conn x hk live distinct hx =
      let (res, n, code, before, e, gone, t) =
        over-Frees c r m conn x conn.context hk refl live distinct hx in
      (res, n, code, before, call_reply-over driver this (some c) r m conn hk ∙ e, gone, t)
