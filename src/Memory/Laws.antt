-- ===== src/Memory/Laws.antt =====
-- Which objects are alive.
use hiredis_happ.Common.{ℕ, ◌≡◌, ◌≢◌, sym, arith, [], ◌∷◌, ◌++◌, List, some, All}
use hiredis_happ.Memory.Defs.{Cmd, Conn, Memory}
use hiredis_happ.Memory.Monad.{M, update, ◌>>=◌, get_conn, get_cmd}

abbrev pub IsLive : Memory → ℕ → Type 0
IsLive m c = (x : Cmd) × (m.cmds c ≡ some x)

abbrev pub Distinct : List ℕ → Type 0
Distinct [] = Unit {0}
Distinct (x ∷ xs) = All (λ y. x ≢ y) xs × Distinct xs

-- A first step that does not fault hands its result and state on.
pub >>=-some :
    {S A B : Type 0} (x : M S A) (f : A → M S B) (s : S) {a : A} {t : S}
    → x s ≡ some (a, t)
    → (x >>= f) s ≡ f a t
>>=-some x f s e = rw (e, ◌>>=◌)

pub get_conn_lem : (k : ℕ) (m : Memory) {x : Conn} → m.conns k ≡ some x → get_conn k m ≡ some (x, m)
get_conn_lem k m h = rw (h, get_conn)

pub get_cmd_lem : (c : ℕ) (m : Memory) {x : Cmd} → m.cmds c ≡ some x → get_cmd c m ≡ some (x, m)
get_cmd_lem c m h = rw (h, get_cmd)

pub All-prefix {κ} : (P : ℕ → Type κ) (xs ys : List ℕ) → All P (xs ++ ys) → All P xs
All-prefix P [] ys h = tt
All-prefix P (x ∷ xs) ys h = (h.0, All-prefix P xs ys h.1)

pub Distinct-prefix : (xs ys : List ℕ) → Distinct (xs ++ ys) → Distinct xs
Distinct-prefix [] ys h = tt
Distinct-prefix (x ∷ xs) ys h = (All-prefix _ xs ys h.0, Distinct-prefix xs ys h.1)

pub All-flip : (c : ℕ) (l : List ℕ) → All (λ d. c ≢ d) l → All (λ d. d ≢ c) l
All-flip c [] h = tt
All-flip c (d ∷ l) h = ((λ e. h.0 (sym e)), All-flip c l h.1)

pub All-suffix {κ} : (P : ℕ → Type κ) (xs ys : List ℕ) → All P (xs ++ ys) → All P ys
All-suffix P [] ys h = h
All-suffix P (x ∷ xs) ys h = All-suffix P xs ys h.1

pub Distinct-suffix : (xs ys : List ℕ) → Distinct (xs ++ ys) → Distinct ys
Distinct-suffix [] ys h = h
Distinct-suffix (x ∷ xs) ys h = Distinct-suffix xs ys h.1

-- No member of the second list is in the first.
pub Distinct-apart : (xs ys : List ℕ) → Distinct (xs ++ ys) → All (λ y. All (λ x. x ≢ y) xs) ys
Distinct-apart [] ys h = all_trivial ys
  where
    all_trivial : (l : List ℕ) → All (λ y. Unit {0}) l
    all_trivial [] = tt
    all_trivial (y ∷ l) = (tt, all_trivial l)
Distinct-apart (x ∷ xs) ys h =
    both ys (All-suffix (λ y. x ≢ y) xs ys h.0) (Distinct-apart xs ys h.1)
  where
    both :
        (l : List ℕ)
        → All (λ y. x ≢ y) l
        → All (λ y. All (λ z. z ≢ y) xs) l
        → All (λ y. (x ≢ y) × All (λ z. z ≢ y) xs) l
    both [] g h = tt
    both (y ∷ l) g h = ((g.0, h.0), both l g.1 h.1)

pub update-here {ℓ} : {A : Type ℓ} (f : ℕ → A) (p : ℕ) (v : A) → update f p v p ≡ v
update-here f p v = ground arith

pub update-there {ℓ} : {A : Type ℓ} (f : ℕ → A) (p q : ℕ) (v : A) → p ≢ q → update f p v q ≡ f q
update-there f p q v h = ground arith
