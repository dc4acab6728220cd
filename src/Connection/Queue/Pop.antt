-- ===== src/Connection/Queue/Pop.antt =====
-- `pop_reply` finds a command in the reply list, and gives up those in front of it.
use hiredis_happ.Common.{
  ℕ, ◌≡◌, ◌≢◌, refl, ap, ◌∙◌, arith, ◌⊎◌, inl, inr, true, false, ◌==◌, Bool-cases, ==_iff, [], ◌∷◌,
  ◌++◌, List, All, some,
}
use hiredis_happ.Common.ErrorCode
use hiredis_happ.Memory.{Conn, Memory, update, ◌>>◌}
use hiredis_happ.Memory.Laws.{IsLive, Distinct, >>=-some}
use hiredis_happ.Connection.Expire.{expire_front}
use hiredis_happ.Connection.Expire.Laws.{Expired, expire_front_lem, Expired-then, IsLive-after}
use hiredis_happ.Connection.Queue.{contains, pop_until}

pub contains-append : (c : ℕ) (pre rest : List ℕ) → contains c (pre ++ c ∷ rest) ≡ true
unfolding contains
contains-append c [] rest = ground arith
contains-append c (x ∷ pre) rest = ground (arith, contains-append c pre rest)

-- A list that contains `c` is cut at the first `c`.
pub contains-split :
    (c : ℕ) (l : List ℕ)
    → ((contains c l ≡ false) × All (λ x. x ≢ c) l)
      ⊎ ((pre : List ℕ) × (rest : List ℕ) × (l ≡ pre ++ c ∷ rest) × All (λ x. x ≢ c) pre)
unfolding contains
contains-split c [] = inl (refl, tt)
contains-split c (x ∷ l) = elim (Bool-cases (x == c)) [
  | inl same ↦ inr ([], l, ap (λ t. t ∷ l) ((==_iff x c).0 same), tt)
  | inr other ↦ elim (contains-split c l) [
    | inl (e, h) ↦ inl (rw other e, (ground arith, h))
    | inr (pre, rest, e, h) ↦ inr (x ∷ pre, rest, ap (λ t. x ∷ t) e, (ground arith, h))
  ]
]

module _ (this : ℕ) where
  pub pop_until_lem :
      (c : ℕ) (pre rest : List ℕ) (m : Memory) (conn : Conn)
      → m.conns this ≡ some (record conn { reply_list = pre ++ c ∷ rest })
      → All (λ x. x ≢ c) pre
      → All (IsLive m) pre
      → Distinct pre
      → (n : Memory) × (pop_until this c (pre ++ c ∷ rest) m ≡ some (some c, n))
        × Expired this conn ErrorCode.timeout pre rest m n
  unfolding pop_until
  pop_until_lem c [] rest m conn hk other live distinct = (
    record m { conns = update m.conns this (some (record conn { reply_list = rest })) },
    ground arith,
    record {
      conn_after = ground arith;
      other_conns = λ k h. ground arith;
      gone = tt;
      other_cmds = λ d h. refl;
      trace_after = refl;
      next_cmd_same = refl;
      next_conn_same = refl;
      seq_same = refl;
    },
  )
  pop_until_lem c (x ∷ pre) rest m conn hk other live distinct =
      let (m₁, e₁, p) =
        expire_front_lem this ErrorCode.timeout m conn (x ∷ pre ++ c ∷ rest) x (pre ++ c ∷ rest) hk
          live.0 in
      let (n, e, q) =
        pop_until_lem c pre rest m₁ conn p.conn_after other.1
          (IsLive-after this ErrorCode.timeout x (pre ++ c ∷ rest) pre p distinct.0 live.1)
          distinct.1 in
      (
        n,
        skip (ground arith)
            ∙ >>=-some (expire_front this ErrorCode.timeout x (pre ++ c ∷ rest)) _ m e₁
            ∙ e,
        Expired-then this ErrorCode.timeout x pre (pre ++ c ∷ rest) rest distinct.0 p q,
      )
    where
      skip :
          (x == c) ≡ false
          → pop_until this c (x ∷ pre ++ c ∷ rest) m
            ≡ (expire_front this ErrorCode.timeout x (pre ++ c ∷ rest)
                  >> pop_until this c (pre ++ c ∷ rest))
                m
      skip h = rw (h, pop_until)
