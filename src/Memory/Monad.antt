-- ===== src/Memory/Monad.antt =====
-- State passing with faults, and access to the heap.
use hiredis_happ.Common.{ℕ, suc, Option, none, some, ◌∷◌, if◌then◌else◌, ◌==◌}
use hiredis_happ.Memory.Defs.{Cmd, Conn, Event, Memory, freed, deleted}

-- `none` is a fault: a use of an object that was freed.
abbrev pub M : Type 0 → Type 0 → Type 0
M S A = S → Option (A × S)

module _ {S : Type 0} where
  abbrev pub pure : {A : Type 0} → A → M S A
  pure a s = some (a, s)

  abbrev pub fault : {A : Type 0} → M S A
  fault s = none

  infixl 5 ◌>>=◌ ◌>>◌
  abbrev pub ◌>>=◌ : {A B : Type 0} → M S A → (A → M S B) → M S B
  ◌>>=◌ m f s = elim (m s) [ none ↦ none | some (a, t) ↦ f a t ]

  abbrev pub ◌>>◌ : {B : Type 0} → M S (Unit {0}) → M S B → M S B
  m >> k = m >>= λ _. k

abbrev pub update {ℓ} : {A : Type ℓ} → (ℕ → A) → ℕ → A → ℕ → A
update f p v q = if p == q then v else f q

abbrev pub get_memory : M Memory Memory
get_memory m = some (m, m)

abbrev pub emit : Event → M Memory (Unit {0})
emit e m = some (tt, record m { trace = e ∷ m.trace })

abbrev pub get_cmd : ℕ → M Memory Cmd
get_cmd c m = elim (m.cmds c) [ none ↦ none | some x ↦ some (x, m) ]

abbrev pub put_cmd : ℕ → Cmd → M Memory (Unit {0})
put_cmd c x m = some (tt, record m { cmds = update m.cmds c (some x) })

-- A second free of one object is a fault.
abbrev pub free_cmd : ℕ → M Memory (Unit {0})
free_cmd c m = elim (m.cmds c) [
  | none ↦ none
  | some x ↦ some (tt, record m { cmds = update m.cmds c none; trace = freed c ∷ m.trace })
]

abbrev pub new_cmd : Cmd → M Memory ℕ
new_cmd x m =
    some
      (m.next_cmd, record m { cmds = update m.cmds m.next_cmd (some x); next_cmd = suc m.next_cmd })

abbrev pub get_conn : ℕ → M Memory Conn
get_conn k m = elim (m.conns k) [ none ↦ none | some x ↦ some (x, m) ]

abbrev pub put_conn : ℕ → Conn → M Memory (Unit {0})
put_conn k x m = some (tt, record m { conns = update m.conns k (some x) })

abbrev pub new_conn : Conn → M Memory ℕ
new_conn x m = some (
  m.next_conn,
  record m { conns = update m.conns m.next_conn (some x); next_conn = suc m.next_conn },
)

abbrev pub free_conn : ℕ → M Memory (Unit {0})
free_conn k m = elim (m.conns k) [
  | none ↦ none
  | some x ↦ some (tt, record m { conns = update m.conns k none; trace = deleted k ∷ m.trace })
]
