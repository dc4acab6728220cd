-- ===== src/Raw/Whole/Events.antt =====
-- What hiredis calls back into hiredis::happ::raw, and reset, keep the whole state.
use hiredis_happ.Common.{
  ℕ, ◌≡◌, refl, sym, ap, ◌∙◌, subst, Bool, true, false, Bool-cases, inl, inr, ◌==ℤ◌, if◌then◌else◌,
  ◌∷◌, ◌++◌, List, Option, some, ℤ, pos,
}
use hiredis_happ.Memory.{
  Conn, Memory, Event, Status, connected, on_connected, update, emit, get_conn, M, pure, ◌>>=◌,
}
use hiredis_happ.Memory.Laws.{>>=-some, get_conn_lem, update-here}
use hiredis_happ.Connection.{is_disconnected, may_finish, set_connected}
use hiredis_happ.Connection.Sequence.{make_sequence, make_sequence_lem}
use hiredis_happ.Raw.State.{Raw, lift}
use hiredis_happ.Raw.Pending.{waiting, lift-some}
use hiredis_happ.Raw.Release.{release_connection}
use hiredis_happ.Raw.Events.{true_status, on_connected_wrapper, on_disconnected_wrapper}
use hiredis_happ.Raw.Settling.{read_conn}
use hiredis_happ.Raw.Settling.Framing.{queue-some}
use hiredis_happ.Raw.Whole.{IsOpen, Linked, IsWhole}
use hiredis_happ.Raw.Whole.Settling.{IsOpen-at}
use hiredis_happ.Raw.Whole.Releasing.{same-IsWhole, release-Released}

-- The state after an event is traced.
pub traced-IsWhole :
    (r : Raw) (t : List Event)
    → IsWhole r
    → IsWhole (record r { mem = record (r.mem) { trace = t } })
traced-IsWhole r t h =
    same-IsWhole r (record r { mem = record (r.mem) { trace = t } }) refl refl refl refl h.linked h

-- `x` does not fault at `r`, and leaves a whole state.
abbrev pub Keeps : M Raw (Unit {0}) → Raw → Type 0
Keeps x r = (s : Raw) × (x r ≡ some (tt, s)) × IsWhole s

-- The same, and the commands that wait for the timer stay.
abbrev pub KeepsTimer : M Raw (Unit {0}) → Raw → Type 0
KeepsTimer x r =
    (s : Raw) × (x r ≡ some (tt, s)) × IsWhole s × (s.timer.timer_pending ≡ r.timer.timer_pending)

-- set_connected keeps the context and the commands that wait.
set_connected_lem :
    (k : ℕ) (conn : Conn) (m : Memory)
    → m.conns k ≡ some conn
    → IsOpen conn
    → (old : Status) × (a : ℕ) × (after : Conn) × (f : ℕ → Option Conn) × (set_connected k m
        ≡ some (old, record m { seq_alloc = a; conns = f }))
      × (f k ≡ some after)
      × (after.reply_list ≡ conn.reply_list)
      × IsOpen after
unfolding set_connected is_disconnected
set_connected_lem k conn m hk o = elim (Bool-cases (may_finish conn)) [
  | inr late ↦ (
    conn.status,
    m.seq_alloc,
    conn,
    m.conns,
    >>=-some (get_conn k) _ m (get_conn_lem k m hk) ∙ rw late refl,
    hk,
    refl,
    o,
  )
  | inl may ↦
      let (q, a, e) = make_sequence_lem m in
      let after = record conn { status = connected; sequence = q } in
      (
        conn.status,
        a,
        after,
        update m.conns k (some after),
        >>=-some (get_conn k) _ m (get_conn_lem k m hk) ∙ rw may (>>=-some make_sequence _ m e),
        update-here m.conns k (some after),
        refl,
        record { context = o.context; has_context = o.has_context; not_closed = refl },
      )
]

release-Keeps :
    (close_fd : Bool) (status : ℤ) (r : Raw)
    → IsWhole r
    → KeepsTimer (do released ← release_connection close_fd status; pure tt) r
release-Keeps close_fd status r h =
    let (b, s, e, q) = release-Released close_fd status r h in
    (s, >>=-some (release_connection close_fd status) (λ _. pure tt) r e, q.whole, q.pending_same)

pub on_disconnected_wrapper-Keeps :
    (k : ℕ) (conn : Conn) (status : ℤ) (r : Raw)
    → r.mem.conns k ≡ some conn
    → IsWhole r
    → Keeps (on_disconnected_wrapper k status) r
unfolding on_disconnected_wrapper
on_disconnected_wrapper-Keeps k conn status r hk h =
    let (s, e, h', _) = release-Keeps false status r h in
    (s, >>=-some (lift (get_conn k)) _ r (read_conn k r hk) ∙ e, h')

module _ (r : Raw) (k : ℕ) (conn : Conn) (hr : r.conn ≡ some k) (hk : r.mem.conns k ≡ some conn)
    (h : IsWhole r) where
  finish-Keeps : KeepsTimer (do old ← lift (set_connected k); pure tt) r
  finish-Keeps =
      let (old, a, after, f, e, hf, hl, o) =
        set_connected_lem k conn r.mem hk (IsOpen-at r.mem.conns r.conn k conn h.linked hr hk) in
      let s = record r { mem = record (r.mem) { seq_alloc = a; conns = f } } in
      (
        s,
        >>=-some (lift (set_connected k)) (λ _. pure tt) r (lift-some (set_connected k) r e),
        same-IsWhole r s
            (ap (λ l. l ++ waiting r.timer.timer_pending)
              (queue-some f r.conn k after hr hf
                ∙ hl
                ∙ sym (queue-some r.mem.conns r.conn k conn hr hk)))
            refl refl refl (subst (λ o. Linked f o) (sym hr) (after, hf, o)) h,
        refl,
      )

told-Keeps :
    (k : ℕ) (context : ℕ) (code : ℤ) (has : Bool) (r : Raw)
    → (t : List Event) × ((if has
            then lift (emit (on_connected k (some context) code))
            else pure tt)
          r
        ≡ some (tt, record r { mem = record (r.mem) { trace = t } }))
told-Keeps k context code true r = (on_connected k (some context) code ∷ r.mem.trace, refl)
told-Keeps k context code false r = (r.mem.trace, refl)

pub on_connected_wrapper-KeepsTimer :
    (context k : ℕ) (conn : Conn) (status : ℤ) (r : Raw)
    → r.conn ≡ some k
    → r.mem.conns k ≡ some conn
    → IsWhole r
    → KeepsTimer (on_connected_wrapper context k status) r
unfolding on_connected_wrapper
on_connected_wrapper-KeepsTimer context k conn status r hr hk h =
    let code = true_status status conn.status in
    let (t, e) = told-Keeps k context code r.callbacks.has_on_connected r in
    let r₁ = record r { mem = record (r.mem) { trace = t } } in
    let h₁ = traced-IsWhole r t h in
    let start =
      >>=-some (lift (get_conn k)) _ r (read_conn k r hk)
      ∙ >>=-some
          (if r.callbacks.has_on_connected
            then lift (emit (on_connected k (some context) code))
            else pure tt)
          _ r e in
    elim (Bool-cases (code ==ℤ pos 0)) [
      | inl good ↦
          let (s, e', h', q) = finish-Keeps r₁ k conn hr hk h₁ in (s, start ∙ rw good e', h', q)
      | inr bad ↦
          let (s, e', h', q) = release-Keeps false code r₁ h₁ in (s, start ∙ rw bad e', h', q)
    ]

pub on_connected_wrapper-Keeps :
    (context k : ℕ) (conn : Conn) (status : ℤ) (r : Raw)
    → r.conn ≡ some k
    → r.mem.conns k ≡ some conn
    → IsWhole r
    → Keeps (on_connected_wrapper context k status) r
on_connected_wrapper-Keeps context k conn status r hr hk h =
    let (s, e, h', q) = on_connected_wrapper-KeepsTimer context k conn status r hr hk h in
    (s, e, h')
