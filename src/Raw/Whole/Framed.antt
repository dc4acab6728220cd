-- ===== src/Raw/Whole/Framed.antt =====
-- The whole state of hiredis::happ::raw over a frame of exec, while one command waits nowhere.
use hiredis_happ.Common.{
  ℕ, ◌≤◌, ◌≡◌, ◌≢◌, ◌⊎◌, sym, ap, ◌∙◌, subst, arith, inl, inr, [], ◌++◌, List, All, All-append,
  Option, none,
}
use hiredis_happ.Memory.{Cmd, Memory}
use hiredis_happ.Memory.Laws.{Distinct, Distinct-apart, Distinct-suffix, All-suffix, All-prefix}
use hiredis_happ.Memory.Members.{All-map, All-zip, All-at}
use hiredis_happ.Connection.{is_disconnected}
use hiredis_happ.Connection.Queue.Pop.{contains-split}
use hiredis_happ.Raw.State.{Raw}
use hiredis_happ.Raw.Pending.{waiting}
use hiredis_happ.Raw.Settling.Framing.{queue, Link, same, gone, fresh, Freed, Frame, queue-some}
use hiredis_happ.Raw.Whole.{IsSendable, Linked, owned, Floats, still-IsSendable}

-- A command that is not in a list of those that were freed, or freed.
Freed-or_apart :
    (c d : ℕ) (l : List ℕ) (f : ℕ → Option Cmd)
    → d ≢ c
    → Freed c l f
    → (f d ≡ none) ⊎ All (λ x. x ≢ d) l
Freed-or_apart c d l f ne freed = elim (contains-split d l) [
  | inl (e, apart) ↦ inr apart
  | inr (pre, rest, e, first) ↦
      inl (All-at (λ x. x ≢ c → f x ≡ none) d pre rest (subst (λ l. Freed c l f) e freed) ne)
]

Linked-after :
    (c : ℕ) (r s : Raw) → Link c r s → Linked r.mem.conns r.conn → Linked s.mem.conns s.conn
unfolding is_disconnected
Linked-after c r s (same hc hk hd) h =
    subst (λ f. Linked f s.conn) (sym hk) (subst (λ o. Linked r.mem.conns o) (sym hc) h)
Linked-after c r s (gone hc freed) h = subst (λ o. Linked s.mem.conns o) (sym hc) tt
Linked-after c r s (fresh k conn hc hk new freed) h =
    subst (λ o. Linked s.mem.conns o) (sym hc)
      (
        conn,
        hk,
        record {
          context = new.context;
          has_context = new.has_context;
          not_closed = ap is_disconnected new.is_connecting;
        },
      )

pub dead_alive : (m : Memory) (d c : ℕ) → IsSendable m c → m.cmds d ≡ none → d ≡ c → ⊥
dead_alive m d c h free e = cc (h.there, free, e)

-- A number that is free is none of the commands that can be sent.
pub apart_of :
    (m : Memory) (d : ℕ) (l : List ℕ) → m.cmds d ≡ none → All (IsSendable m) l → All (λ x. x ≢ d) l
apart_of m d l free h = All-map l (λ x s e. dead_alive m d x s free (sym e)) h

-- The commands that wait afterwards did so before, and stay.
record Owned (c : ℕ) (r s : Raw) : Type 0 where
  pub sendable : All (IsSendable s.mem) (owned s)
  pub distinct : Distinct (owned s)
  pub apart : All (λ d. d ≢ c) (owned s)
  pub none_lost : (d : ℕ) → d ≢ c → All (λ x. x ≢ d) (owned s) → s.mem.cmds d ≡ none

module _ (c : ℕ) (r s : Raw) (g : Frame c r s) (f : Floats c r) where
  all_same :
      (d : ℕ) → d ≢ c → All (λ x. x ≢ d) (queue r.mem.conns r.conn) → s.mem.cmds d ≡ r.mem.cmds d
  all_same d ne free = g.others d ne free

  -- The connection and those that wait on it are as they were.
  Owned-same :
      queue s.mem.conns s.conn ≡ queue r.mem.conns r.conn
      → ((d : ℕ) → d ≢ c → s.mem.cmds d ≡ r.mem.cmds d)
      → Owned c r s
  Owned-same e hd =
      let q : owned s ≡ owned r =
        ap (λ l. l ++ waiting s.timer.timer_pending) e
        ∙ ap (λ p. queue r.mem.conns r.conn ++ waiting p) g.pending_same in
      record {
        sendable =
            subst (λ l. All (IsSendable s.mem) l) (sym q)
              (All-zip (owned r) (λ d ne h. still-IsSendable r.mem s.mem d (hd d ne) h) f.apart
                f.rest.sendable);
        distinct = subst (λ l. Distinct l) (sym q) f.rest.distinct;
        apart = subst (λ l. All (λ d. d ≢ c) l) (sym q) f.apart;
        none_lost =
            λ d ne free. hd d ne ∙ f.rest.none_lost d ne (subst (λ l. All (λ x. x ≢ d) l) q free);
      }

  -- Nothing waits on the connection any more.
  Owned-Freed :
      queue s.mem.conns s.conn ≡ [] → Freed c (queue r.mem.conns r.conn) s.mem.cmds → Owned c r s
  Owned-Freed e freed =
      let l = queue r.mem.conns r.conn in
      let w = waiting r.timer.timer_pending in
      let q : owned s ≡ w =
        ap (λ l. l ++ waiting s.timer.timer_pending) e ∙ ap waiting g.pending_same in
      let apart = All-suffix (λ d. d ≢ c) l w f.apart in
      let stays : All (λ d. s.mem.cmds d ≡ r.mem.cmds d) w =
        All-zip w (λ d ne free. g.others d ne free) apart (Distinct-apart l w f.rest.distinct) in
      record {
        sendable =
            subst (λ l. All (IsSendable s.mem) l) (sym q)
              (All-zip w (λ d e h. still-IsSendable r.mem s.mem d e h) stays
                (All-suffix (IsSendable r.mem) l w f.rest.sendable));
        distinct = subst (λ l. Distinct l) (sym q) (Distinct-suffix l w f.rest.distinct);
        apart = subst (λ l. All (λ d. d ≢ c) l) (sym q) apart;
        none_lost = λ d ne free. elim (Freed-or_apart c d l s.mem.cmds ne freed) [
          | inl h ↦ h
          | inr far ↦
              g.others d ne far
              ∙ f.rest.none_lost d ne
                  (All-append (λ x. x ≢ d) l w far (subst (λ l. All (λ x. x ≢ d) l) q free))
        ];
      }

  Owned-Link : Link c r s → Owned c r s
  Owned-Link (same hc hk hd) =
      Owned-same (ap (λ f. queue f s.conn) hk ∙ ap (queue r.mem.conns) hc) hd
  Owned-Link (gone h freed) = Owned-Freed (ap (queue s.mem.conns) h) freed
  Owned-Link (fresh k conn hc hk new freed) =
      Owned-Freed (queue-some s.mem.conns s.conn k conn hc hk ∙ new.none_waits) freed

  own_after : IsSendable s.mem c
  own_after =
      let (y, hy, content, ttl) = g.own f.own.cmd f.own.there in
      record {
        cmd = y;
        there = hy;
        bytes = f.own.bytes;
        filled = content ∙ f.own.filled;
        picked = f.own.picked;
        whole = f.own.whole;
        young = omega (arith, ttl, f.own.young);
      }

  unmade_after : (d : ℕ) → s.mem.next_cmd ≤ d → s.mem.cmds d ≡ none
  unmade_after d h =
      let free : r.mem.cmds d ≡ none = f.rest.unmade d (omega (arith, h, g.next_same)) in
      g.others d (λ e. dead_alive r.mem d c f.own free e)
        (All-prefix (λ x. x ≢ d) (queue r.mem.conns r.conn) (waiting r.timer.timer_pending)
          (apart_of r.mem d (owned r) free f.rest.sendable))
      ∙ free

  pub Floats-Frame : Floats c s
  Floats-Frame =
      let o = Owned-Link g.link in
      record {
        rest = record {
          linked = Linked-after c r s g.link f.rest.linked;
          sendable = o.sendable;
          distinct = o.distinct;
          none_lost = o.none_lost;
          unmade = unmade_after;
          no_auth_fn = ap (λ a. a.auth_fn) g.auth_same ∙ f.rest.no_auth_fn;
          no_password = ap (λ a. a.password) g.auth_same ∙ f.rest.no_password;
        };
        own = own_after;
        apart = o.apart;
      }
