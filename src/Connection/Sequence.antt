-- ===== src/Connection/Sequence.antt =====
-- connection::make_sequence: numbers that tell connections apart when an address is used again.
use hiredis_happ.Common.{
  ℕ, zero, suc, ◌+◌, ◌%◌, ◌^◌, ◌≤◌, ◌<◌, ◌≡◌, refl, ◌∙◌, Bool-cases, inl, inr, ap, arith, ◌==◌,
  if◌then◌else◌, length, List, [], ◌∷◌, Option, none, some,
}
use native.Mathlib.Nat.{mod-eq_of_lt}
use hiredis_happ.Memory.{M, Memory}

-- `do sequence = seq_alloc.fetch_add(1); while (0 == sequence)`, with fuel, on `uint64_t`: the number
-- and the allocator after it.
unfoldable pub next_sequence : ℕ → ℕ → Option (ℕ × ℕ)
next_sequence zero alloc = none
next_sequence (suc fuel) alloc =
    let again = next_sequence fuel ((alloc + 1) % 2 ^ 64) in
    if alloc == 0 then again else some (alloc, (alloc + 1) % 2 ^ 64)

-- Two rounds are enough: see `next_sequence_lem`.
unfoldable pub make_sequence : M Memory ℕ
make_sequence m = elim (next_sequence 2 m.seq_alloc) [
  | none ↦ none
  | some (sequence, alloc) ↦ some (sequence, record m { seq_alloc = alloc })
]

next_sequence-pos :
    (fuel alloc : ℕ)
    → 0 < alloc
    → next_sequence (suc fuel) alloc ≡ some (alloc, (alloc + 1) % 2 ^ 64)
unfolding next_sequence
next_sequence-pos fuel alloc h = ground arith

-- The loop ends within two rounds, with a number that is not 0: the allocator's value, or 1 where
-- that is 0. The allocator is left one past the number, in 64 bits.
pub next_sequence_lem :
    (alloc : ℕ)
    → next_sequence 2 alloc
      ≡ (if alloc == 0 then some (1, 2) else some (alloc, (alloc + 1) % 2 ^ 64))
unfolding next_sequence
next_sequence_lem alloc = ground arith

allocated :
    (m : Memory) {s a : ℕ}
    → next_sequence 2 m.seq_alloc ≡ some (s, a)
    → make_sequence m ≡ some (s, record m { seq_alloc = a })
unfolding make_sequence
allocated m e = rw (e, make_sequence) refl

pub make_sequence_lem :
    (m : Memory) → (s : ℕ) × (a : ℕ) × (make_sequence m ≡ some (s, record m { seq_alloc = a }))
make_sequence_lem m = elim (Bool-cases (m.seq_alloc == 0)) [
  | inl z ↦ (1, 2, allocated m (next_sequence_lem m.seq_alloc ∙ rw z refl))
  | inr p ↦ (
    m.seq_alloc,
    (m.seq_alloc + 1) % 2 ^ 64,
    allocated m (next_sequence_lem m.seq_alloc ∙ rw p refl),
  )
]

-- The numbers of `n` calls in a row.
unfoldable pub sequences : ℕ → ℕ → List ℕ
sequences zero alloc = []
sequences (suc n) alloc = elim (next_sequence 2 alloc) [
  | none ↦ []
  | some (s, after) ↦ s ∷ sequences n after
]

abbrev pub Ascending : ℕ → List ℕ → Type 0
Ascending low [] = Unit {0}
Ascending low (s ∷ rest) = (low ≤ s) × Ascending (s + 1) rest

sequences-step :
    (n alloc : ℕ)
    → 0 < alloc
    → alloc + 1 < 2 ^ 64
    → sequences (suc n) alloc ≡ alloc ∷ sequences n (alloc + 1)
unfolding sequences
sequences-step n alloc h b =
    rw (next_sequence-pos 1 alloc h, sequences) (ap (λ t. alloc ∷ sequences n t) (mod-eq_of_lt b))

sequences-zero : (n : ℕ) → sequences (suc n) 0 ≡ 1 ∷ sequences n 2
unfolding sequences next_sequence
sequences-zero n = refl

Ascending-mono : {a b : ℕ} (l : List ℕ) → a ≤ b → Ascending b l → Ascending a l
Ascending-mono [] h p = tt
Ascending-mono (s ∷ rest) h p = (omega arith, p.1)

sequences_pos :
    (n alloc : ℕ)
    → 0 < alloc
    → alloc + n < 2 ^ 64
    → (length (sequences n alloc) ≡ n) × Ascending alloc (sequences n alloc)
sequences_pos zero alloc p h = (unfold sequences in refl, unfold sequences in tt)
sequences_pos (suc n) alloc p h =
    let rest = sequences_pos n (alloc + 1) (omega arith) (omega arith) in
    rw (sequences-step n alloc p (omega arith)) (ap suc rest.0, (omega arith, rest.1))

-- While the 64-bit allocator does not wrap, n calls of make_sequence in a row give n numbers, each
-- above the ones before it and none of them 0.
pub sequences-Ascending :
    (n alloc : ℕ)
    → alloc + n + 1 < 2 ^ 64
    → (length (sequences n alloc) ≡ n)
      × Ascending 1 (sequences n alloc)
      × Ascending alloc (sequences n alloc)
sequences-Ascending zero zero h =
    (unfold sequences in refl, unfold sequences in tt, unfold sequences in tt)
sequences-Ascending (suc n) zero h =
    let rest = sequences_pos n 2 (omega arith) (omega arith) in
    rw (sequences-zero n) (ap suc rest.0, (omega arith, rest.1), (omega arith, rest.1))
sequences-Ascending n (suc a) h =
    let (len, up) = sequences_pos n (suc a) (omega arith) (omega arith) in
    (len, Ascending-mono (sequences n (suc a)) (omega arith) up, up)
