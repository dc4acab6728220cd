-- ===== src/Cluster/Names.antt =====
-- What `find`, `insert` and `erase` of `connections_` do to the lookups, for the proofs about the
-- connections by their names.
use hiredis_happ.Common.{
  ℕ, ◌≡◌, refl, subst, arith, true, false, Bool-cases, inl, inr, ◌==◌, ==_iff, if◌then◌else◌, [],
  ◌∷◌, List, Bytes, none, some,
}
use hiredis_happ.Slots.{bytes_eq}
use hiredis_happ.Cluster.Connections.{find, erase, insert}

pub bytes_eq_refl : (x : Bytes) → bytes_eq x x ≡ true
unfolding bytes_eq
bytes_eq_refl [] = refl
bytes_eq_refl (c ∷ x) = ground (arith, bytes_eq_refl x)

pub bytes_eq_sound : (x y : Bytes) → bytes_eq x y ≡ true → x ≡ y
unfolding bytes_eq
bytes_eq_sound [] [] h = refl
bytes_eq_sound [] (d ∷ y) h = cc
bytes_eq_sound (c ∷ x) [] h = cc
bytes_eq_sound (c ∷ x) (d ∷ y) h = elim (Bool-cases (c == d)) [
  | inr other ↦ absurd (ground (arith, other))
  | inl same ↦ elim (Bool-cases (bytes_eq x y)) [
    | inr other ↦ absurd (ground (arith, same, other))
    | inl rest ↦ cc ((==_iff c d).0 same, bytes_eq_sound x y rest)
  ]
]

-- Every name stands in the map once.
abbrev pub HasNames : List (Bytes × ℕ) → Type 0
HasNames [] = Unit {0}
HasNames ((name, k) ∷ rest) = (find name rest ≡ none) × HasNames rest

pub find-insert :
    (name : Bytes) (k : ℕ) (l : List (Bytes × ℕ)) (key : Bytes)
    → find key (insert name k l) ≡ (if bytes_eq name key then some k else find key l)
unfolding find insert
find-insert name k l key = refl

own_name :
    (other : Bytes) (j : ℕ) (rest : List (Bytes × ℕ)) (key : Bytes)
    → find other rest ≡ none
    → find key rest
      ≡ (if bytes_eq other key then none else if bytes_eq other key then some j else find key rest)
own_name other j rest key h = elim (Bool-cases (bytes_eq other key)) [
  | inl here ↦ rw here (subst (λ n. find n rest ≡ none) (bytes_eq_sound other key here) h)
  | inr apart ↦ rw apart refl
]

pub find-erase :
    (name : Bytes) (l : List (Bytes × ℕ)) (key : Bytes)
    → HasNames l
    → find key (erase name l) ≡ (if bytes_eq name key then none else find key l)
unfolding find erase
find-erase name [] key h = ground arith
find-erase name ((other, j) ∷ rest) key h = elim (Bool-cases (bytes_eq other name)) [
  | inl same ↦
      let e = bytes_eq_sound other name same in
      rw same (
        subst
          (λ n. find key rest ≡ (
            if bytes_eq n key then none else if bytes_eq other key then some j else find key rest))
          e (own_name other j rest key h.0))
  | inr apart ↦ rw apart (elim (Bool-cases (bytes_eq name key)) [
    | inr elsewhere ↦ ground (arith, elsewhere, find-erase name rest key h.1)
    | inl here ↦
        let missed : bytes_eq other key ≡ false =
          subst (λ n. bytes_eq other n ≡ false) (bytes_eq_sound name key here) apart in
        ground (arith, here, missed, find-erase name rest key h.1)
  ])
]

-- The names of the map stay distinct.
pub insert-HasNames :
    (name : Bytes) (k : ℕ) (l : List (Bytes × ℕ))
    → find name l ≡ none
    → HasNames l
    → HasNames (insert name k l)
unfolding insert
insert-HasNames name k l fresh h = (fresh, h)

erase-none :
    (name key : Bytes) (l : List (Bytes × ℕ))
    → HasNames l
    → find key l ≡ none
    → find key (erase name l) ≡ none
erase-none name key l h e = ground (arith, find-erase name l key h, e)

pub erase-HasNames : (name : Bytes) (l : List (Bytes × ℕ)) → HasNames l → HasNames (erase name l)
unfolding erase
erase-HasNames name [] h = tt
erase-HasNames name ((other, j) ∷ rest) h = elim (Bool-cases (bytes_eq other name)) [
  | inl same ↦ rw same h.1
  | inr apart ↦ rw apart (erase-none name other rest h.1 h.0, erase-HasNames name rest h.1)
]
