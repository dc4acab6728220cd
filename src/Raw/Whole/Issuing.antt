-- ===== src/Raw/Whole/Issuing.antt =====
-- exec of hiredis::happ::raw with a new command: it is made, formatted and sent.
use hiredis_happ.Common.{
  ℕ, suc, ◌≤◌, ◌≡◌, ◌≢◌, sym, ap, ◌∙◌, subst, arith, true, Bool-cases, inl, inr, is_pos, ◌++◌, List,
  Bytes, All, Option, none, some, ℤ,
}
use hiredis_happ.Common.ErrorCode
use hiredis_happ.Cmd
use hiredis_happ.Cmd.Argument.{Picked, pick_argument}
use hiredis_happ.Cmd.Creation.{empty_cmd, create-none, create-some, vformat_lem, vformat_argv_lem}
use hiredis_happ.Memory.{Cmd, Callback, Memory, Driver, Formatted, update, M, pure, ◌>>=◌}
use hiredis_happ.Memory.Laws.{Distinct, >>=-some, update-here, update-there}
use hiredis_happ.Memory.Members.{All-map, All-zip}
use hiredis_happ.Raw.State.{Raw, lift, destroy_cmd, create_cmd}
use hiredis_happ.Raw.{exec_formatted, exec_argv, exec_format}
use hiredis_happ.Raw.Pending.{waiting, lift-some, fail_cmd-destroy_cmd}
use hiredis_happ.Raw.Settling.Framing.{queue}
use hiredis_happ.Raw.Whole.{IsSendable, Linked, owned, IsWhole, Floats, still-IsSendable}
use hiredis_happ.Raw.Whole.Framed.{apart_of}
use hiredis_happ.Raw.Whole.Settling.{decide}
use hiredis_happ.Raw.Whole.Executing.{exec-Executed}

-- Where a format function of hiredis succeeds, it gives a buffer that holds a command.
abbrev pub HoldsCommand : Formatted → Type 0
HoldsCommand f =
    is_pos f.ret ≡ true
    → (bytes : Bytes) × (picked : Option Picked) × (f.out ≡ some bytes)
      × (pick_argument (some bytes) none ≡ some picked)

pub record Formats (driver : Driver) : Type 0 where
  pub by_format : (fmt : Bytes) (args : List Bytes) → HoldsCommand (driver.format fmt args)
  pub by_argv : (argv : List Bytes) → HoldsCommand (driver.format_argv argv)

-- The commands are the same, and the next number was given out.
grown-IsWhole :
    (r : Raw) (m : Memory)
    → ((d : ℕ) → m.cmds d ≡ r.mem.cmds d)
    → m.conns ≡ r.mem.conns
    → m.next_cmd ≡ suc r.mem.next_cmd
    → IsWhole r
    → IsWhole (record r { mem = m })
grown-IsWhole r m cmds conns next h =
    let q : owned (record r { mem = m }) ≡ owned r =
      ap (λ f. queue f r.conn ++ waiting r.timer.timer_pending) conns in
    record {
      linked = subst (λ f. Linked f r.conn) (sym conns) h.linked;
      sendable =
          subst (λ l. All (IsSendable m) l) (sym q)
            (All-map (owned r) (λ d s. still-IsSendable r.mem m d (cmds d) s) h.sendable);
      distinct = subst (λ l. Distinct l) (sym q) h.distinct;
      none_lost = λ d t free. cmds d ∙ h.none_lost d t (subst (λ l. All (λ x. x ≢ d) l) q free);
      unmade = λ d le. cmds d ∙ h.unmade d (omega (arith, le, next));
      no_auth_fn = h.no_auth_fn;
      no_password = h.no_password;
    }

-- A new command that can be sent waits nowhere.
new-Floats :
    (r : Raw) (y : Cmd) (f : ℕ → Option Cmd) (bytes : Bytes) (picked : Option Picked)
    → f r.mem.next_cmd ≡ some y
    → ((d : ℕ) → d ≢ r.mem.next_cmd → f d ≡ r.mem.cmds d)
    → y.content ≡ some bytes
    → pick_argument (some bytes) none ≡ some picked
    → y.ttl ≤ Cmd.default_ttl
    → IsWhole r
    → Floats r.mem.next_cmd
        (record r { mem = record (r.mem) { cmds = f; next_cmd = suc r.mem.next_cmd } })
new-Floats r y f bytes picked new old content whole young h =
    let c = r.mem.next_cmd in
    let apart = apart_of r.mem c (owned r) (h.unmade c (omega arith)) h.sendable in
    record {
      rest = record {
        linked = h.linked;
        sendable =
            All-zip (owned r)
              (λ d ne s.
                still-IsSendable r.mem (record (r.mem) { cmds = f; next_cmd = suc r.mem.next_cmd })
                  d (old d ne) s)
              apart h.sendable;
        distinct = h.distinct;
        none_lost = λ d ne free. old d ne ∙ h.none_lost d tt free;
        unmade = λ d le. old d (λ e. omega (arith, le, e)) ∙ h.unmade d (omega (arith, le));
        no_auth_fn = h.no_auth_fn;
        no_password = h.no_password;
      };
      own = record {
        cmd = y;
        there = new;
        bytes = bytes;
        filled = content;
        picked = picked;
        whole = whole;
        young = young;
      };
      apart = apart;
    }

-- `x` does not fault at `r`, and leaves a whole state.
abbrev pub Issues : M Raw (Option ℕ) → Raw → Type 0
Issues x r = (res : Option ℕ) × (s : Raw) × (x r ≡ some (res, s)) × IsWhole s

module _ (driver : Driver) (fuel : ℕ) (enough : Cmd.default_ttl ≤ fuel) (cbk : Callback)
    (pridata : ℕ) where
  -- The command with the content that was formatted.
  abbrev formatted : ℕ → Formatted → Cmd
  formatted raw_len f = record (empty_cmd cbk pridata) { raw_len = raw_len; content = f.out }

  -- The heap with the new command.
  abbrev made : Raw → Cmd → Raw
  made r x = record r {
    mem = record (r.mem) {
      cmds = update r.mem.cmds r.mem.next_cmd (some x);
      next_cmd = suc r.mem.next_cmd;
    };
  }

  abbrev remade : Raw → Cmd → Raw
  remade r y = record r {
    mem = record (r.mem) {
      cmds =
          update (update r.mem.cmds r.mem.next_cmd (some (empty_cmd cbk pridata))) r.mem.next_cmd
            (some y);
      next_cmd = suc r.mem.next_cmd;
    };
  }

  twice-there :
      (r : Raw) (y : Cmd) (d : ℕ) → d ≢ r.mem.next_cmd → (remade r y).mem.cmds d ≡ r.mem.cmds d
  twice-there r y d ne =
      let c = r.mem.next_cmd in
      let x = some (empty_cmd cbk pridata) in
      update-there (update r.mem.cmds c x) c d (some y) (λ e. ne (sym e))
      ∙ update-there r.mem.cmds c d x (λ e. ne (sym e))

  twice-here : (r : Raw) (y : Cmd) → (remade r y).mem.cmds r.mem.next_cmd ≡ some y
  twice-here r y =
      update-here (update r.mem.cmds r.mem.next_cmd (some (empty_cmd cbk pridata))) r.mem.next_cmd
        (some y)

  formatted-Issues :
      (r : Raw) (raw_len : ℕ) (f : Formatted)
      → HoldsCommand f
      → IsWhole r
      → Issues (exec_formatted driver fuel r.mem.next_cmd f.ret) (remade r (formatted raw_len f))
  unfolding exec_formatted
  formatted-Issues r raw_len f holds h =
      let c = r.mem.next_cmd in
      let y = formatted raw_len f in
      let t = remade r y in
      elim (Bool-cases (is_pos f.ret)) [
        | inl good ↦
            let (bytes, picked, content, whole) = holds good in
            let (res, s, e, x) = exec-Executed driver c fuel t enough (
              new-Floats r y t.mem.cmds bytes picked (twice-here r y) (twice-there r y) content
                whole (omega arith) h) in
            (res, s, rw good e, x.whole)
        | inr bad ↦
            let (n, e, a) =
              (fail_cmd-destroy_cmd c y ErrorCode.unknown none t (twice-here r y)).1 in
            (
              none,
              record r { mem = n },
              rw bad (>>=-some (destroy_cmd c) (λ _. pure none) t e),
              grown-IsWhole r n
                  (λ d. elim (decide d c) [
                    | inl same ↦
                        ap n.cmds same
                        ∙ a.gone
                        ∙ sym (ap r.mem.cmds same ∙ h.unmade c (omega arith))
                    | inr ne ↦ a.other_cmds d (λ e. ne (sym e)) ∙ twice-there r y d ne
                  ])
                  a.conns_same a.next_cmd_same h,
            )
      ]

  -- With the function `format` that fills the new command.
  issue-Issues :
      (format : ℕ → M Memory ℤ) (raw_len : ℕ) (f : Formatted) (r : Raw)
      → ((c : ℕ) (m : Memory)
          → m.cmds c ≡ some (empty_cmd cbk pridata)
          → format c m
            ≡ some (f.ret, record m { cmds = update m.cmds c (some (formatted raw_len f)) }))
      → HoldsCommand f
      → IsWhole r
      → Issues
          (do
            created ← create_cmd driver cbk pridata
            elim created [
              | none ↦ pure none
              | some c ↦ (do len ← lift (format c); exec_formatted driver fuel c len)
            ])
          r
  unfolding create_cmd
  issue-Issues format raw_len f r formats holds h =
      let room = Cmd.alloc_size r.conf.cmd_buffer_size in
      elim (Bool-cases (driver.malloc r.mem.trace room)) [
        | inr empty ↦ (
          none,
          r,
          >>=-some (create_cmd driver cbk pridata) _ r (
              lift-some (Cmd.create driver cbk pridata r.conf.cmd_buffer_size) r
                (create-none driver cbk pridata r.conf.cmd_buffer_size r.mem empty)),
          h,
        )
        | inl full ↦
            let c = r.mem.next_cmd in
            let t = made r (empty_cmd cbk pridata) in
            let (res, s, e, h') = formatted-Issues r raw_len f holds h in
            (
              res,
              s,
              >>=-some (create_cmd driver cbk pridata) _ r (
                    lift-some (Cmd.create driver cbk pridata r.conf.cmd_buffer_size) r
                      (create-some driver cbk pridata r.conf.cmd_buffer_size r.mem full))
                  ∙ >>=-some (lift (format c)) _ t (
                      lift-some (format c) t
                        (formats c t.mem (update-here r.mem.cmds c (some (empty_cmd cbk pridata)))))
                  ∙ e,
              h',
            )
      ]

  pub exec_format-Issues :
      (fmt : Bytes) (args : List Bytes) (r : Raw)
      → Formats driver
      → IsWhole r
      → Issues (exec_format driver fuel cbk pridata fmt args) r
  unfolding exec_format
  exec_format-Issues fmt args r formats h =
      let f = driver.format fmt args in
      issue-Issues (λ c. Cmd.vformat driver c fmt args) (Cmd.raw_length f.ret) f r
        (λ c m e. vformat_lem driver c fmt args m (empty_cmd cbk pridata) e)
        (formats.by_format fmt args) h

  pub exec_argv-Issues :
      (argv : List Bytes) (r : Raw)
      → Formats driver
      → IsWhole r
      → Issues (exec_argv driver fuel cbk pridata argv) r
  unfolding exec_argv
  exec_argv-Issues argv r formats h =
      let f = driver.format_argv argv in
      issue-Issues (λ c. Cmd.vformat_argv driver c argv) 0 f r
        (λ c m e. vformat_argv_lem driver c argv m (empty_cmd cbk pridata) e) (formats.by_argv argv)
        h
