-- ===== src/Cluster/Placing/Opening.antt =====
-- find_master and find_connection of hiredis::happ::cluster, where there is no password.
use hiredis_happ.Common.{
  some_injective, ℕ, suc, ◌≡◌, ◌≢◌, ◌⊎◌, refl, sym, ap, ◌∙◌, subst, arith, Bool-cases, inl, inr, [],
  ◌∷◌, List, Bytes, Option, none, some, ℤ, append-nil,
}
use hiredis_happ.Name.{Key}
use hiredis_happ.Memory.{Conn, Event, draws, Driver, connecting}
use hiredis_happ.Slots.{bytes_eq}
use hiredis_happ.Slots.Masters.{own_hosts-some, get_slot_master-Master}
use hiredis_happ.Cluster.State.{Cluster, ConnTimeout, draw}
use hiredis_happ.Cluster.{or_fault, master_from, find_master}
use hiredis_happ.Cluster.Connections.{find, insert}
use hiredis_happ.Cluster.Names.{bytes_eq_refl, bytes_eq_sound, find-insert}
use hiredis_happ.Cluster.Timed.{Timed-same}
use hiredis_happ.Cluster.Placing.{IsSound, Grows, Runs, Grows-refl}

-- The cluster with another trace and other timeouts.
abbrev pub traced : Cluster → List Event → Cluster
traced s t = record s { mem = record (s.mem) { trace = t } }

abbrev pub timed : Cluster → List ConnTimeout → Cluster
timed s l = record s { timer = record (s.timer) { timer_conns = l } }

pub IsSound-traced : (s : Cluster) (t : List Event) → IsSound s → IsSound (traced s t)
IsSound-traced s t sound = record {
  there = sound.there;
  unmade = sound.unmade;
  no_cmd = sound.no_cmd;
  no_auth_fn = sound.no_auth_fn;
  no_password = sound.no_password;
}

pub Grows-traced : (c : ℕ) (s : Cluster) (t : List Event) → IsSound s → Grows c s (traced s t)
Grows-traced c s t sound = record {
  others = λ d h. refl;
  found = λ name k h. h;
  conns_grow = λ k conn h. (conn, [], h, sym (append-nil conn.reply_list));
  timed = Timed-same s _ refl refl refl refl;
  flag_same = refl;
  pending_same = refl;
  slots_same = refl;
  next_same = refl;
  sound = IsSound-traced s t sound;
}

pub Grows-timed : (c : ℕ) (s : Cluster) (l : List ConnTimeout) → IsSound s → Grows c s (timed s l)
Grows-timed c s l sound = record {
  others = λ d h. refl;
  found = λ name k h. h;
  conns_grow = λ k conn h. (conn, [], h, sym (append-nil conn.reply_list));
  timed = Timed-same s _ refl refl refl refl;
  flag_same = refl;
  pending_same = refl;
  slots_same = refl;
  next_same = refl;
  sound = record {
    there = sound.there;
    unmade = sound.unmade;
    no_cmd = sound.no_cmd;
    no_auth_fn = sound.no_auth_fn;
    no_password = sound.no_password;
  };
}

-- The commands stay.
abbrev pub SameCmds : {A : Type 0} → Cluster → A → Cluster → Type 0
SameCmds s a t = t.mem.cmds ≡ s.mem.cmds

-- The commands stay, and a connection that was found is there, by its name.
abbrev pub Found : Bytes → Cluster → Option ℕ → Cluster → Type 0
Found name s none t = t.mem.cmds ≡ s.mem.cmds
Found name s (some k) t =
    (t.mem.cmds ≡ s.mem.cmds)
    × (find name t.connections ≡ some k)
    × (conn : Conn) × (t.mem.conns k ≡ some conn)

module _ (driver : Driver) (c : ℕ) where
  pub find_master-Runs :
      (index : ℤ) (s : Cluster)
      → IsSound s
      → Runs {A = Key} c (SameCmds s) (find_master driver index) s
  unfolding find_master master_from or_fault draw
  find_master-Runs index s sound =
      let (hosts, e) = own_hosts-some index s.slots in
      let (k, t, q, g, same) = by_hosts hosts in
      (k, t, ap (λ l. master_from driver index l s) e ∙ q, g, same)
    where
      by_hosts :
          (l : List Key) → Runs {A = Key} c (SameCmds s) (master_from driver index (some l)) s
      by_hosts (k ∷ rest) = (k, s, refl, Grows-refl c s sound, refl)
      by_hosts [] =
          let (k, e, m) =
            get_slot_master-Master index (driver.random s.mem.trace) s.conf.init_connection
              s.slots in
          let s₁ = traced s (draws ∷ s.mem.trace) in
          (k, s₁, ap (λ o. or_fault o s₁) e, Grows-traced c s (draws ∷ s.mem.trace) sound, refl)

-- A new object, connecting over `context`.
abbrev pub fresh_conn : Key → ℕ → ℕ → Conn
fresh_conn key context sequence = record {
  key = key;
  sequence = sequence;
  context = some context;
  reply_list = [];
  status = connecting;
}

-- The cluster with a new connection of a name.
abbrev pub with_conn : Cluster → Key → ℕ → (ℕ → Option Conn) → Cluster
with_conn s key a f = record s {
  mem = record (s.mem) { seq_alloc = a; conns = f; next_conn = suc s.mem.next_conn };
  connections = insert key.name s.mem.next_conn s.connections;
}

made_apart :
    (s : Cluster) (k : ℕ) (x : Conn) → IsSound s → s.mem.conns k ≡ some x → k ≢ s.mem.next_conn
made_apart s k x sound h e =
    let gone : s.mem.conns s.mem.next_conn ≡ none = sound.unmade s.mem.next_conn (omega arith) in
    cc (h, e, gone)

-- A name leads to the new connection, or where it led before.
insert_cases :
    (name : Bytes) (j : ℕ) (l : List (Bytes × ℕ)) (key : Bytes) (k : ℕ)
    → find key (insert name j l) ≡ some k
    → (j ≡ k) ⊎ (find key l ≡ some k)
insert_cases name j l key k h = elim (Bool-cases (bytes_eq name key)) [
  | inl here ↦ inl (some_injective (sym (find-insert name j l key ∙ rw here refl) ∙ h))
  | inr apart ↦ inr (sym (find-insert name j l key ∙ rw apart refl) ∙ h)
]

insert_found :
    (name : Bytes) (j : ℕ) (l : List (Bytes × ℕ)) (key : Bytes) (k : ℕ)
    → find name l ≡ none
    → find key l ≡ some k
    → find key (insert name j l) ≡ some k
insert_found name j l key k free h = elim (Bool-cases (bytes_eq name key)) [
  | inl here ↦ absurd (taken (subst (λ n. find n l ≡ none) (bytes_eq_sound name key here) free) h)
  | inr apart ↦ find-insert name j l key ∙ rw apart h
]
  where
    taken : {o : Option ℕ} → o ≡ none → o ≡ some k → ⊥
    taken a b = cc

with_conn-IsSound :
    (s : Cluster) (key : Key) (a : ℕ) (f : ℕ → Option Conn) (conn : Conn)
    → f s.mem.next_conn ≡ some conn
    → ((k : ℕ) → k ≢ s.mem.next_conn → f k ≡ s.mem.conns k)
    → IsSound s
    → IsSound (with_conn s key a f)
with_conn-IsSound s key a f conn new old sound = record {
  there = λ name k h. elim (insert_cases key.name s.mem.next_conn s.connections name k h) [
    | inl e ↦ (conn, subst (λ j. f j ≡ some conn) e new)
    | inr before ↦
        let (x, hx) = sound.there name k before in (x, old k (made_apart s k x sound hx) ∙ hx)
  ];
  unmade = λ k h. old k (λ e. omega (arith, h, e)) ∙ sound.unmade k (omega (arith, h));
  no_cmd = sound.no_cmd;
  no_auth_fn = sound.no_auth_fn;
  no_password = sound.no_password;
}

pub with_conn-Grows :
    (c : ℕ) (s : Cluster) (key : Key) (a : ℕ) (f : ℕ → Option Conn) (conn : Conn)
    → find key.name s.connections ≡ none
    → f s.mem.next_conn ≡ some conn
    → ((k : ℕ) → k ≢ s.mem.next_conn → f k ≡ s.mem.conns k)
    → IsSound s
    → Grows c s (with_conn s key a f)
with_conn-Grows c s key a f conn free new old sound = record {
  others = λ d h. refl;
  found = λ name k h. insert_found key.name s.mem.next_conn s.connections name k free h;
  conns_grow =
      λ k x h. (x, [], old k (made_apart s k x sound h) ∙ h, sym (append-nil x.reply_list));
  timed = Timed-same s _ refl refl refl refl;
  flag_same = refl;
  pending_same = refl;
  slots_same = refl;
  next_same = refl;
  sound = with_conn-IsSound s key a f conn new old sound;
}

pub inserted : (name : Bytes) (k : ℕ) (l : List (Bytes × ℕ)) → find name (insert name k l) ≡ some k
inserted name k l = find-insert name k l name ∙ rw (bytes_eq_refl name) refl

pub Found-same :
    (name : Bytes) (s r : Cluster) (o : Option ℕ) (t : Cluster)
    → s.mem.cmds ≡ r.mem.cmds
    → Found name s o t
    → Found name r o t
Found-same name s r none t same h = h ∙ same
Found-same name s r (some k) t same (h, hf, conn, hk) = (h ∙ same, hf, conn, hk)
