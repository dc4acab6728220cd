-- ===== src/Memory/Members.antt =====
-- Lists of commands: one more, one less.
use hiredis_happ.Common.{ℕ, ◌≢◌, sym, [], ◌∷◌, ◌++◌, List, All}
use hiredis_happ.Memory.Laws.{Distinct, All-suffix}

pub All-map {κ ι} :
    {P : ℕ → Type κ} {Q : ℕ → Type ι} (l : List ℕ) → ((d : ℕ) → P d → Q d) → All P l → All Q l
All-map [] f h = tt
All-map (d ∷ l) f h = (f d h.0, All-map l f h.1)

pub All-zip {κ ι μ} :
    {P : ℕ → Type κ} {Q : ℕ → Type ι} {R : ℕ → Type μ} (l : List ℕ)
    → ((d : ℕ) → P d → Q d → R d)
    → All P l
    → All Q l
    → All R l
All-zip [] f h g = tt
All-zip (d ∷ l) f h g = (f d h.0 g.0, All-zip l f h.1 g.1)

pub All-at {κ} : (P : ℕ → Type κ) (c : ℕ) (xs ys : List ℕ) → All P (xs ++ c ∷ ys) → P c
All-at P c [] ys h = h.0
All-at P c (x ∷ xs) ys h = All-at P c xs ys h.1

pub All-insert {κ} :
    (P : ℕ → Type κ) (c : ℕ) (xs ys : List ℕ) → P c → All P (xs ++ ys) → All P (xs ++ c ∷ ys)
All-insert P c [] ys p h = (p, h)
All-insert P c (x ∷ xs) ys p h = (h.0, All-insert P c xs ys p h.1)

pub All-remove {κ} :
    (P : ℕ → Type κ) (c : ℕ) (xs ys : List ℕ) → All P (xs ++ c ∷ ys) → All P (xs ++ ys)
All-remove P c [] ys h = h.1
All-remove P c (x ∷ xs) ys h = (h.0, All-remove P c xs ys h.1)

pub Distinct-insert :
    (c : ℕ) (xs ys : List ℕ)
    → All (λ d. d ≢ c) (xs ++ ys)
    → Distinct (xs ++ ys)
    → Distinct (xs ++ c ∷ ys)
Distinct-insert c [] ys h g = (All-map ys (λ d ne e. ne (sym e)) h, g)
Distinct-insert c (x ∷ xs) ys h g =
    (All-insert (λ y. x ≢ y) c xs ys h.0 g.0, Distinct-insert c xs ys h.1 g.1)

pub Distinct-remove :
    (c : ℕ) (xs ys : List ℕ)
    → Distinct (xs ++ c ∷ ys)
    → Distinct (xs ++ ys) × All (λ d. d ≢ c) (xs ++ ys)
Distinct-remove c [] ys g = (g.1, All-map ys (λ d ne e. ne (sym e)) g.0)
Distinct-remove c (x ∷ xs) ys g =
    let (h, ne) = Distinct-remove c xs ys g.1 in
    ((All-remove (λ y. x ≢ y) c xs ys g.0, h), (All-at (λ y. x ≢ y) c xs ys g.0, ne))

-- No member of the first list is in the second.
pub Distinct-before : (xs ys : List ℕ) → Distinct (xs ++ ys) → All (λ d. All (λ x. x ≢ d) ys) xs
Distinct-before [] ys g = tt
Distinct-before (x ∷ xs) ys g = (
  All-map ys (λ d ne e. ne (sym e)) (All-suffix (λ y. x ≢ y) xs ys g.0),
  Distinct-before xs ys g.1,
)
