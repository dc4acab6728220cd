-- ===== src/Cluster/Moving.antt =====
-- A MOVED reply to hiredis::happ::cluster, from the text of the server to the new slot table.
pub mod Handling
use hiredis_happ.Common.{
  ℕ, zero, suc, ◌≤◌, ◌<◌, ◌^◌, ◌≡◌, ◌≢◌, ◌⊎◌, refl, sym, ap, ◌∙◌, subst, arith, true, false,
  Bool-cases, inl, inr, ltb, ◌==◌, ==_iff, ◌||◌, not, ◌==ℤ◌, if◌then◌else◌, [], ◌∷◌, ◌++◌, List,
  Bytes, All, length, Option, none, some, ℤ, pos, negsuc,
}
use hiredis_happ.Text.{strncase_eq, scan_digits}
use hiredis_happ.Text.Decimal.{IsDigit}
use hiredis_happ.Name.{Key, set_key, make_name, pick_name}
use hiredis_happ.Name.RoundTrip.{IsHost}
use hiredis_happ.HashSlot.{slot_number}
use hiredis_happ.Memory.{
  Cmd, Conn, Memory, Driver, Reply, Replies, reply, reply_error, update, get_cmd, get_conn, put_cmd,
  M, pure, ◌>>=◌, ◌>>◌,
}
use hiredis_happ.Memory.Laws.{
  IsLive, >>=-some, get_cmd_lem, get_conn_lem, update-here, update-there,
}
use hiredis_happ.Connection.Queue
use hiredis_happ.Connection.Queue.{contains, pop_until}
use hiredis_happ.Slots.{Table}
use hiredis_happ.Cluster.State.{Cluster, lift, get_cluster}
use hiredis_happ.Cluster.{retry_fuel, reload_slots}
use hiredis_happ.Cluster.Pending.{lift-some}
use hiredis_happ.Cluster.Redirect.{moved, ask, addr_size, scan_redirect}
use hiredis_happ.Cluster.Redirect.RoundTrip.{IsWordByte, scan_redirect-make_name}
use hiredis_happ.Cluster.Replies.{
  is_lost, or_own, redirect_key, as_slot, correct_slot, set_master, pop_retry, move_to, move_named,
  move_slot, on_moved, on_error, on_reply, on_reply_wrapper,
}
use hiredis_happ.Cluster.Placing.{IsCalm, IsSound, IsFilled, Placed}
use hiredis_happ.Cluster.Placing.Waiting.{read_cmd}
use hiredis_happ.Cluster.Placing.Reloading.{Formats, Kept, reload_slots-Kept}
use hiredis_happ.Cluster.Placing.Executing.{Executed, retry-Executes}

-- The oldest waiting command is popped.
pub pop_reply-first :
    (k c : ℕ) (rest : List ℕ) (conn : Conn) (m : Memory)
    → m.conns k ≡ some conn
    → conn.reply_list ≡ c ∷ rest
    → Queue.pop_reply k (some c) m
      ≡ some
          (some c, record m { conns = update m.conns k (some (record conn { reply_list = rest })) })
unfolding Queue.pop_reply contains pop_until
pop_reply-first k c rest conn m hk hl =
    let here : c == c ≡ true = ground arith in
    >>=-some (get_conn k) _ m (get_conn_lem k m hk)
    ∙ ap (λ l. (if contains c l then pop_until k c l else pure none) m) hl
    ∙ first here
  where
    first :
        c == c ≡ true
        → (if contains c (c ∷ rest) then pop_until k c (c ∷ rest) else pure none) m
          ≡ some (
            some c,
            record m { conns = update m.conns k (some (record conn { reply_list = rest })) },
          )
    first here = rw here (>>=-some (get_conn k) _ m (get_conn_lem k m hk))

-- The cluster where the commands `rest` wait on the connection `k`.
abbrev pub waits_with : Cluster → ℕ → Conn → List ℕ → Cluster
waits_with s k conn rest = record s {
  mem = record (s.mem) { conns = update s.mem.conns k (some (record conn { reply_list = rest })) };
}

pub waits_with-IsSound :
    (s : Cluster) (k : ℕ) (conn : Conn) (rest : List ℕ)
    → IsSound s
    → s.mem.conns k ≡ some conn
    → IsSound (waits_with s k conn rest)
waits_with-IsSound s k conn rest sound hk = record {
  there = λ name j h.
      let (y, hj) = sound.there name j h in
      elim (Bool-cases (k == j)) [
        | inl here ↦ (record conn { reply_list = rest }, rw here refl)
        | inr apart ↦ (y, rw apart hj)
      ];
  unmade = λ j h. elim (Bool-cases (k == j)) [
    | inl here ↦ let gone = sound.unmade j h in absurd (ground (arith, here, hk, gone))
    | inr apart ↦ rw apart (sound.unmade j h)
  ];
  no_cmd = sound.no_cmd;
  no_auth_fn = sound.no_auth_fn;
  no_password = sound.no_password;
}

-- The cluster after the table has a new master for the slot, and the command has left its connection.
abbrev pub redirected : Cluster → ℕ → Conn → List ℕ → ℕ → Cmd → ℕ → Key → Cluster
redirected s k conn rest c x slot key = record s {
  mem = record (s.mem) {
    cmds = update s.mem.cmds c (some (record x { slot = correct_slot slot x.slot }));
    conns = update s.mem.conns k (some (record conn { reply_list = rest }));
  };
  slots = update s.slots slot (key ∷ []);
}

pub redirected-IsSound :
    (s : Cluster) (k : ℕ) (conn : Conn) (rest : List ℕ) (c : ℕ) (x : Cmd) (slot : ℕ) (key : Key)
    → IsSound s
    → s.mem.conns k ≡ some conn
    → s.mem.cmds c ≡ some x
    → IsSound (redirected s k conn rest c x slot key)
redirected-IsSound s k conn rest c x slot key sound hk hx = record {
  there = (waits_with-IsSound s k conn rest sound hk).there;
  unmade = (waits_with-IsSound s k conn rest sound hk).unmade;
  no_cmd = λ d h. elim (Bool-cases (c == d)) [
    | inl here ↦ let gone = sound.no_cmd d h in absurd (ground (arith, here, hx, gone))
    | inr apart ↦ rw apart (sound.no_cmd d h)
  ];
  no_auth_fn = sound.no_auth_fn;
  no_password = sound.no_password;
}

pub redirected-IsFilled :
    (s : Cluster) (k : ℕ) (conn : Conn) (rest : List ℕ) (c : ℕ) (slot : ℕ) (key : Key)
    (f : IsFilled s.mem c)
    → IsFilled (redirected s k conn rest c f.cmd slot key).mem c
redirected-IsFilled s k conn rest c slot key f = record {
  cmd = record (f.cmd) { slot = correct_slot slot f.cmd.slot };
  there = update-here s.mem.cmds c (some (record (f.cmd) { slot = correct_slot slot f.cmd.slot }));
  bytes = f.bytes;
  filled = f.filled;
  picked = f.picked;
  whole = f.whole;
}

-- What a redirection leaves: the slot has the one host `key`, every other slot has those that it had, and
-- the command has its place, or waits last for the slot table.
pub record Moved (c slot : ℕ) (key : Key) (s t : Cluster) : Type 0 where
  pub new_master : t.slots slot ≡ key ∷ []
  pub other_slots : (i : ℕ) → slot ≢ i → t.slots i ≡ s.slots i
  pub place : Placed c t ⊎ ((t.slot_pending ≡ s.slot_pending ++ c ∷ []) × IsFilled t.mem c)
  pub sound : IsSound t

below : (c : ℕ) (s : Cluster) → IsSound s → IsFilled s.mem c → c < s.mem.next_cmd
below c s sound f = elim (Bool-cases (ltb c s.mem.next_cmd)) [
  | inl small ↦ ground (arith, small)
  | inr large ↦
      let gone = sound.no_cmd c (ground (arith, large)) in absurd (never (sym f.there ∙ gone))
]
  where
    never : some f.cmd ≡ none → ⊥
    never e = cc

-- The place of the command after the slots are loaded anew.
pub place-Kept :
    (c : ℕ) (s t u : Cluster)
    → IsSound s
    → IsFilled s.mem c
    → Executed c s t
    → Kept t u
    → Placed c u ⊎ ((u.slot_pending ≡ s.slot_pending ++ c ∷ []) × IsFilled u.mem c)
place-Kept c s t u sound f q h = elim q.place [
  | inl (p, e) ↦ inl (h.places c (omega (arith, below c s sound f, q.next_up)) p)
  | inr (e, g) ↦ inr (
    h.pending_same ∙ e,
    record {
      cmd = g.cmd;
      there = h.others c (g.cmd, g.there) ∙ g.there;
      bytes = g.bytes;
      filled = g.filled;
      picked = g.picked;
      whole = g.whole;
    },
  )
]

-- "MOVED ", the digits, a space and the name.
abbrev pub moved_text : Bytes → Bytes → Bytes
moved_text digits name = (moved ++ b' ' ∷ []) ++ (digits ++ b' ' ∷ name)

pub set_key_lem :
    (ip : Bytes) (port : ℕ) (name : Bytes)
    → make_name ip port ≡ some name
    → set_key ip port ≡ some (record { name = name; port = port; ip = ip })
unfolding set_key
set_key_lem ip port name h = rw (h, set_key) refl

pub redirect_key_lem :
    (ip : Bytes) (port : ℕ) (own : Bytes) → ip ≢ [] → redirect_key ip port own ≡ set_key ip port
unfolding redirect_key or_own
redirect_key_lem [] port own h = absurd (h refl)
redirect_key_lem (b ∷ ip) port own h = refl
