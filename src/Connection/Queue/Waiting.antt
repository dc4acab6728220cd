-- ===== src/Connection/Queue/Waiting.antt =====
-- A reply to a command that waits.
use hiredis_happ.Common.{
  ℕ, ◌≡◌, ◌≢◌, refl, ap, ◌∙◌, false, not, ◌||◌, if◌then◌else◌, ◌==ℤ◌, [], ◌∷◌, ◌++◌, List, All,
  Option, none, some, ℤ, pos,
}
use hiredis_happ.Common.ErrorCode
use hiredis_happ.Memory.{Cmd, Conn, Memory, Driver, Event, freed, Reply, ◌>>=◌, get_conn}
use hiredis_happ.Memory.Laws.{IsLive, Distinct, >>=-some, get_conn_lem}
use hiredis_happ.Cmd
use hiredis_happ.Cmd.Lifecycle
use hiredis_happ.Connection.Expire.Laws.{expire_trace, Expired}
use hiredis_happ.Connection.Queue.{
  contains, pop_until, pop_reply, is_error_reply, translate, reply_popped, reply_over, call_reply,
}
use hiredis_happ.Connection.Queue.Pop.{contains-append, pop_until_lem}

-- The code that a command with its own code `own` is called with, by `call_reply`.
abbrev pub reply_code : Driver → List Event → ℕ → ℤ → Option Reply → ℤ
reply_code driver trace context own r =
    if not ((driver.context trace context).err ==ℤ pos 0) || is_error_reply r
    then ErrorCode.hiredis
    else own

-- A reply to the command `c`, with the commands `pre` in front of it and `rest` behind it.
pub record Replied (driver : Driver) (this : ℕ) (conn : Conn) (context c : ℕ) (x : Cmd)
    (r : Option Reply) (pre rest : List ℕ) (m n : Memory) : Type 0 where
  pub conn_after : n.conns this ≡ some (record conn { reply_list = rest })
  pub other_conns : (k : ℕ) → this ≢ k → n.conns k ≡ m.conns k
  pub next_cmd_same : n.next_cmd ≡ m.next_cmd
  pub gone : n.cmds c ≡ none
  pub gone_before : All (λ d. c ≢ d → n.cmds d ≡ none) pre
  pub other_cmds : (d : ℕ) → c ≢ d → All (λ y. y ≢ d) pre → n.cmds d ≡ m.cmds d
  pub trace_after :
      let timed_out : List Event =
        expire_trace ErrorCode.timeout (some context) m.cmds pre m.trace in
      n.trace
      ≡ freed c
        ∷ (Cmd.Lifecycle.answer c x
              (reply_code driver timed_out context x.error_code r)
              (some context)
              r
            ++ timed_out)

module _ (driver : Driver) (this : ℕ) where
  translate_lem :
      (c context : ℕ) (r : Option Reply) (x : Cmd) (n : Memory)
      → n.cmds c ≡ some x
      → translate driver c (some context) r n
        ≡ some (reply_code driver n.trace context x.error_code r, n)
  unfolding translate
  translate_lem c context r x n h = rw (h, ◌>>=◌) refl

  -- Where `pop_reply` hands out a command that is alive.
  reply_popped_lem :
      (c : Option ℕ) (sc context : ℕ) (r : Option Reply) (x : Cmd) (m : Memory)
      → m.cmds sc ≡ some x
      → (n : Memory) × (reply_popped driver c context r (some sc) m ≡ some (ErrorCode.ok, n))
        × Cmd.Lifecycle.Answered sc x
            (reply_code driver m.trace context x.error_code r)
            (some context)
            r
            m
            n
  unfolding reply_popped
  reply_popped_lem c sc context r x m h =
      let code = reply_code driver m.trace context x.error_code r in
      let (m₁, n, e₁, e₂, a) = Cmd.Lifecycle.call_reply-destroy sc x code (some context) r m h in
      (
        n,
        >>=-some (translate driver sc (some context) r) _ m (translate_lem sc context r x m h)
            ∙ >>=-some (Cmd.call_reply sc code (some context) r) _ m e₁
            ∙ >>=-some (Cmd.destroy sc) _ m₁ e₂,
        a,
      )

  Replied-of :
      (c context : ℕ) (r : Option Reply) (conn : Conn) (x : Cmd) (pre rest : List ℕ)
      {m m₁ n : Memory}
      → conn.context ≡ some context
      → Expired this conn ErrorCode.timeout pre rest m m₁
      → Cmd.Lifecycle.Answered c x
          (reply_code driver m₁.trace context x.error_code r)
          (some context)
          r
          m₁
          n
      → Replied driver this conn context c x r pre rest m n
  Replied-of c context r conn x pre rest {m} {m₁} {n} hc q a = record {
    conn_after = ap (λ f. f this) a.conns_same ∙ q.conn_after;
    other_conns = λ k h. ap (λ f. f k) a.conns_same ∙ q.other_conns k h;
    next_cmd_same = a.next_cmd_same ∙ q.next_cmd_same;
    gone = a.gone;
    gone_before = still_gone pre q.gone;
    other_cmds = λ d h hp. a.other_cmds d h ∙ q.other_cmds d hp;
    trace_after =
        a.trace_after
        ∙ ap
            (λ t.
              freed c
              ∷ (Cmd.Lifecycle.answer c x (reply_code driver t context x.error_code r)
                    (some context) r
                  ++ t))
            (q.trace_after ∙ ap (λ o. expire_trace ErrorCode.timeout o m.cmds pre m.trace) hc);
  }
    where
      still_gone :
          (l : List ℕ) → All (λ d. m₁.cmds d ≡ none) l → All (λ d. c ≢ d → n.cmds d ≡ none) l
      still_gone [] h = tt
      still_gone (d ∷ l) h = ((λ ne. a.other_cmds d ne ∙ h.0), still_gone l h.1)

  pub call_reply-over :
      (c : Option ℕ) (r : Option Reply) (m : Memory) (conn : Conn)
      → m.conns this ≡ some conn
      → call_reply driver this c r m ≡ reply_over driver this c r conn.context m
  unfolding call_reply
  call_reply-over c r m conn hk = >>=-some (get_conn this) _ m (get_conn_lem this m hk)

  pub pop_reply-waiting :
      (c : ℕ) (m : Memory) (conn : Conn) (pre rest : List ℕ)
      → m.conns this ≡ some conn
      → conn.reply_list ≡ pre ++ c ∷ rest
      → pop_reply this (some c) m ≡ pop_until this c (pre ++ c ∷ rest) m
  unfolding pop_reply
  pop_reply-waiting c m conn pre rest hk hl =
      >>=-some (get_conn this) _ m (get_conn_lem this m hk)
      ∙ rw (hl, contains-append c pre rest) refl

  pub pop_reply-missing :
      (c : ℕ) (m : Memory) (conn : Conn)
      → m.conns this ≡ some conn
      → contains c conn.reply_list ≡ false
      → pop_reply this (some c) m ≡ some (none, m)
  unfolding pop_reply
  pop_reply-missing c m conn hk h =
      >>=-some (get_conn this) _ m (get_conn_lem this m hk) ∙ rw h refl

  -- A reply to a command that is alive and waits on a connection with a context, where the commands
  -- in front of it are alive, distinct and other commands: those are called with a timeout and
  -- destroyed, in order; then the command is called with the translated code and destroyed; the
  -- commands behind it keep waiting, and every other command and connection stays as it was.
  pub call_reply-waiting :
      (c context : ℕ) (r : Option Reply) (m : Memory) (conn : Conn) (x : Cmd) (pre rest : List ℕ)
      → m.conns this ≡ some conn
      → conn.context ≡ some context
      → conn.reply_list ≡ pre ++ c ∷ rest
      → All (λ y. y ≢ c) pre
      → All (IsLive m) pre
      → Distinct pre
      → m.cmds c ≡ some x
      → (n : Memory) × (call_reply driver this (some c) r m ≡ some (ErrorCode.ok, n))
        × Replied driver this conn context c x r pre rest m n
  unfolding reply_over
  call_reply-waiting c context r m conn x pre rest hk hc hl first live distinct hx =
      let (m₁, e₁, q) =
        pop_until_lem this c pre rest m conn
          (hk ∙ ap (λ l. some (record conn { reply_list = l })) hl) first live distinct in
      let hx₁ : m₁.cmds c ≡ some x = q.other_cmds c first ∙ hx in
      let (n, e₂, a) = reply_popped_lem (some c) c context r x m₁ hx₁ in
      (
        n,
        call_reply-over (some c) r m conn hk
            ∙ ap (λ o. reply_over driver this (some c) r o m) hc
            ∙ >>=-some (pop_reply this (some c)) _ m
                (pop_reply-waiting c m conn pre rest hk hl ∙ e₁)
            ∙ e₂,
        Replied-of c context r conn x pre rest hc q a,
      )
