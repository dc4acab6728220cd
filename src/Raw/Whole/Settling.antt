-- ===== src/Raw/Whole/Settling.antt =====
-- A command of hiredis::happ::raw that waited nowhere gets its place, or is freed.
use hiredis_happ.Common.{
  ℕ, ◌≡◌, ◌≢◌, ◌⊎◌, sym, ap, ◌∙◌, subst, arith, Bool-cases, inl, inr, ◌==◌, ==_iff, ◌∷◌, ◌++◌, List,
  All, Option, none, some,
}
use hiredis_happ.Memory.{Conn, Memory}
use hiredis_happ.Memory.Laws.{Distinct}
use hiredis_happ.Memory.Members.{All-map, All-zip, All-at, All-insert, All-remove, Distinct-insert}
use hiredis_happ.Raw.State.{Raw}
use hiredis_happ.Raw.Pending.{waiting}
use hiredis_happ.Raw.Settling.Framing.{queue}
use hiredis_happ.Raw.Whole.{IsSendable, IsOpen, Linked, owned, IsWhole, Floats, still-IsSendable}
use hiredis_happ.Raw.Whole.Framed.{dead_alive}

pub decide : (d c : ℕ) → (d ≡ c) ⊎ (d ≢ c)
decide d c = elim (Bool-cases (d == c)) [
  | inl e ↦ inl ((==_iff d c).0 e)
  | inr ne ↦ inr (λ e. cc (ne, (==_iff d c).1 e))
]

pub IsOpen-at :
    (f : ℕ → Option Conn) (o : Option ℕ) (k : ℕ) (conn : Conn)
    → Linked f o
    → o ≡ some k
    → f k ≡ some conn
    → IsOpen conn
IsOpen-at f o k conn linked ho hk =
    let (own, hown, open_own) = subst (Linked f) ho linked in
    subst IsOpen (injected (sym hown ∙ hk)) open_own
  where
    injected : {x y : Conn} → some x ≡ some y → x ≡ y
    injected e = cc

pub again-IsOpen :
    (conn : Conn) (l : List ℕ) → IsOpen conn → IsOpen (record conn { reply_list = l })
again-IsOpen conn l o = record {
  context = o.context;
  has_context = o.has_context;
  not_closed = o.not_closed;
}

-- One more among those that wait.
pub more-Holds :
    (c : ℕ) (u s : Raw) (xs ys : List ℕ)
    → owned u ≡ xs ++ ys
    → owned s ≡ xs ++ c ∷ ys
    → s.mem.cmds ≡ u.mem.cmds
    → s.mem.next_cmd ≡ u.mem.next_cmd
    → s.auth ≡ u.auth
    → Linked s.mem.conns s.conn
    → Floats c u
    → IsWhole s
more-Holds c u s xs ys before after cmds next auth linked f = record {
  linked = linked;
  sendable =
      subst (λ l. All (IsSendable s.mem) l) (sym after)
        (All-insert (IsSendable s.mem) c xs ys
          (still-IsSendable u.mem s.mem c (ap (λ f. f c) cmds) f.own)
          (All-map (xs ++ ys) (λ d h. still-IsSendable u.mem s.mem d (ap (λ f. f d) cmds) h)
            (subst (λ l. All (IsSendable u.mem) l) before f.rest.sendable)));
  distinct =
      subst (λ l. Distinct l) (sym after)
        (Distinct-insert c xs ys (subst (λ l. All (λ d. d ≢ c) l) before f.apart)
          (subst (λ l. Distinct l) before f.rest.distinct));
  none_lost = λ d t free.
      let far = subst (λ l. All (λ x. x ≢ d) l) after free in
      ap (λ f. f d) cmds
      ∙ f.rest.none_lost d (λ e. All-at (λ x. x ≢ d) c xs ys far (sym e))
          (subst (λ l. All (λ x. x ≢ d) l) (sym before) (All-remove (λ x. x ≢ d) c xs ys far));
  unmade = λ d h. ap (λ f. f d) cmds ∙ f.rest.unmade d (omega (arith, h, next));
  no_auth_fn = ap (λ a. a.auth_fn) auth ∙ f.rest.no_auth_fn;
  no_password = ap (λ a. a.password) auth ∙ f.rest.no_password;
}

-- The command was freed.
pub fewer-Holds :
    (c : ℕ) (u : Raw) (m : Memory)
    → m.cmds c ≡ none
    → ((d : ℕ) → d ≢ c → m.cmds d ≡ u.mem.cmds d)
    → m.conns ≡ u.mem.conns
    → m.next_cmd ≡ u.mem.next_cmd
    → Floats c u
    → IsWhole (record u { mem = m })
fewer-Holds c u m dead others conns next f =
    let q : owned (record u { mem = m }) ≡ owned u =
      ap (λ f. queue f u.conn ++ waiting u.timer.timer_pending) conns in
    record {
      linked = subst (λ f. Linked f u.conn) (sym conns) f.rest.linked;
      sendable =
          subst (λ l. All (IsSendable m) l) (sym q)
            (All-zip (owned u) (λ d ne h. still-IsSendable u.mem m d (others d ne) h) f.apart
              f.rest.sendable);
      distinct = subst (λ l. Distinct l) (sym q) f.rest.distinct;
      none_lost = λ d t free. elim (decide d c) [
        | inl e ↦ ap m.cmds e ∙ dead
        | inr ne ↦ others d ne ∙ f.rest.none_lost d ne (subst (λ l. All (λ x. x ≢ d) l) q free)
      ];
      unmade = λ d h.
          let free = f.rest.unmade d (omega (arith, h, next)) in
          others d (λ e. dead_alive u.mem d c f.own free e) ∙ free;
      no_auth_fn = f.rest.no_auth_fn;
      no_password = f.rest.no_password;
    }
