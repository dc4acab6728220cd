-- ===== src/HashSlot/Tags.antt =====
-- The hash tag rule of the Redis Cluster specification.
use hiredis_happ.Common.{
  ℕ, suc, ◌+◌, ◌-◌, ◌%◌, ◌<◌, ◌≡◌, ◌≢◌, refl, ap, sym, ◌∙◌, arith, Bool-cases, ==_iff, ◌||◌, ◌==◌,
  ◌⊎◌, inl, inr, if◌then◌else◌, [], ◌∷◌, ◌++◌, Bytes, ℤ, pos, length, take, drop, All,
  length-append, take-length_append,
}
use native.Mathlib.Nat.{suc-add, mod-lt}
use hiredis_happ.Crc16.{crc16}
use hiredis_happ.HashSlot.{slot_number, scan_until, slot_of, hash_slot}

abbrev pub Lacks : ℕ → Bytes → Type 0
Lacks c = All (λ x. x ≢ c)

scan_until-found :
    (c : ℕ) (pre post : Bytes) (i : ℕ)
    → Lacks c pre
    → scan_until c (pre ++ c ∷ post) i ≡ i + length pre
unfolding scan_until
scan_until-found c [] post i h = ground arith
scan_until-found c (x ∷ pre) post i h = ground (arith, scan_until-found c pre post (suc i) h.1)

scan_until-missing :
    (c : ℕ) (buf : Bytes) (i : ℕ) → Lacks c buf → scan_until c buf i ≡ i + length buf
unfolding scan_until
scan_until-missing c [] i h = omega arith
scan_until-missing c (x ∷ buf) i h = ground (arith, scan_until-missing c buf (suc i) h.1)

-- The part of a key that is hashed, as the specification of Redis Cluster words it: what stands
-- between the first `{` and the first `}` behind it, if that is not empty, and else the whole key.
pub data Hashed (key : Bytes) : Bytes → Type 0 where
  tagged :
      (pre tag post : Bytes)
      → key ≡ pre ++ b'{' ∷ (tag ++ b'}' ∷ post)
      → Lacks b'{' pre
      → Lacks b'}' tag
      → tag ≢ []
      → Hashed key tag
  no_open : Lacks b'{' key → Hashed key key
  no_close :
      (pre rest : Bytes)
      → key ≡ pre ++ b'{' ∷ rest
      → Lacks b'{' pre
      → Lacks b'}' rest
      → Hashed key key
  empty_tag : (pre post : Bytes) → key ≡ pre ++ b'{' ∷ b'}' ∷ post → Lacks b'{' pre → Hashed key key

-- `hash_slot` of a key that is not empty, with its scans named.
slot_choice : (key : Bytes) (start stop : ℕ) → ℤ
slot_choice key start stop =
    if start == length key
    then slot_of key
    else if stop == length key || stop == start + 1
    then slot_of key
    else slot_of (take (stop - start - 1) (drop (start + 1) key))

hash_slot-choice :
    (key : Bytes)
    → key ≢ []
    → hash_slot key
      ≡ slot_choice key
          (scan_until b'{' key 0)
          (scan_until b'}' (drop (scan_until b'{' key 0 + 1) key) (scan_until b'{' key 0 + 1))
unfolding hash_slot slot_choice
hash_slot-choice [] h = absurd (h refl)
hash_slot-choice (k ∷ ks) h = refl

drop_past : (pre : Bytes) (c : ℕ) (rest : Bytes) → drop (length pre + 1) (pre ++ c ∷ rest) ≡ rest
drop_past [] c rest = refl
drop_past (x ∷ pre) c rest = rw suc-add (drop_past pre c rest)

-- With an opening brace behind `pre`, the second scan runs over `rest`.
opened :
    (pre rest : Bytes)
    → Lacks b'{' pre
    → hash_slot (pre ++ b'{' ∷ rest)
      ≡ slot_choice (pre ++ b'{' ∷ rest) (length pre) (scan_until b'}' rest (length pre + 1))
opened pre rest h =
    hash_slot-choice (pre ++ b'{' ∷ rest) (not_nil pre)
    ∙ ap
        (λ start.
          slot_choice (pre ++ b'{' ∷ rest) start
            (scan_until b'}' (drop (start + 1) (pre ++ b'{' ∷ rest)) (start + 1)))
        (scan_until-found b'{' pre rest 0 h ∙ omega arith)
    ∙ ap
        (λ buf.
          slot_choice (pre ++ b'{' ∷ rest) (length pre) (scan_until b'}' buf (length pre + 1)))
        (drop_past pre b'{' rest)
  where
    not_nil : (xs : Bytes) → xs ++ b'{' ∷ rest ≢ []
    not_nil [] = ground arith
    not_nil (x ∷ xs) = ground arith

choice-tagged :
    (pre tag post : Bytes)
    → tag ≢ []
    → slot_choice (pre ++ b'{' ∷ (tag ++ b'}' ∷ post)) (length pre) (length pre + 1 + length tag)
      ≡ slot_of tag
unfolding slot_choice
choice-tagged pre [] post h = absurd (h refl)
choice-tagged pre (x ∷ tag) post h =
    rw (drop_past pre b'{' (x ∷ tag ++ b'}' ∷ post), cut)
      (rw (take-length_append (x ∷ tag) (b'}' ∷ post))
        (ground (arith, total, length-append (x ∷ tag) (b'}' ∷ post))))
  where
    total :
        length (pre ++ b'{' ∷ (x ∷ tag ++ b'}' ∷ post))
        ≡ length pre + suc (length (x ∷ tag ++ b'}' ∷ post))
    total = length-append pre (b'{' ∷ (x ∷ tag ++ b'}' ∷ post))

    cut : length pre + 1 + suc (length tag) - length pre - 1 ≡ suc (length tag)
    cut = omega arith

choice-whole :
    (key : Bytes) (start stop : ℕ)
    → (start ≡ length key) ⊎ ((stop ≡ length key) ⊎ (stop ≡ start + 1))
    → slot_choice key start stop ≡ slot_of key
unfolding slot_choice
choice-whole key start stop h = ground arith

-- The slot of a key is the CRC16, modulo 16384, of the part that the specification hashes.
pub hash_slot-Hashed :
    (key part : Bytes) → key ≢ [] → Hashed key part → hash_slot key ≡ slot_of part
hash_slot-Hashed key part h (tagged pre tag post e a b c) = rw e (
    opened pre (part ++ b'}' ∷ post) a
    ∙ ap (slot_choice (pre ++ b'{' ∷ (part ++ b'}' ∷ post)) (length pre))
        (scan_until-found b'}' part post (length pre + 1) b)
    ∙ choice-tagged pre part post c)
hash_slot-Hashed key part h (no_open a) =
    hash_slot-choice key h
    ∙ choice-whole key _ _ (inl (scan_until-missing b'{' key 0 a ∙ omega arith))
hash_slot-Hashed key part h (no_close pre rest e a b) = rw e (
    opened pre rest a
    ∙ choice-whole _ _ _ (
        inr (
          inl (scan_until-missing b'}' rest _ b ∙ omega (arith, length-append pre (b'{' ∷ rest))))))
hash_slot-Hashed key part h (empty_tag pre post e a) = rw e (
    opened pre (b'}' ∷ post) a
    ∙ choice-whole _ _ _ (inr (inr (scan_until-found b'}' [] post _ tt ∙ omega arith))))

split_at :
    (c : ℕ) (buf : Bytes)
    → Lacks c buf ⊎ ((pre : Bytes) × (rest : Bytes) × (buf ≡ pre ++ c ∷ rest) × Lacks c pre)
split_at c [] = inl tt
split_at c (x ∷ buf) = elim (Bool-cases (x == c)) [
  | inl same ↦ inr ([], buf, ap (λ t. t ∷ buf) ((==_iff x c).0 same), tt)
  | inr other ↦ elim (split_at c buf) [
    | inl lacks ↦ inl (ground arith, lacks)
    | inr (pre, rest, e, lacks) ↦ inr (x ∷ pre, rest, ap (λ t. x ∷ t) e, (ground arith, lacks))
  ]
]

braced :
    (key pre tag post : Bytes)
    → key ≡ pre ++ b'{' ∷ (tag ++ b'}' ∷ post)
    → Lacks b'{' pre
    → Lacks b'}' tag
    → (part : Bytes) × Hashed key part
braced key pre [] post e a b = (key, empty_tag pre post e a)
braced key pre (t ∷ ts) post e a b = (t ∷ ts, tagged pre (t ∷ ts) post e a b (ground arith))

-- Every key has such a part.
Hashed-total : (key : Bytes) → (part : Bytes) × Hashed key part
Hashed-total key = elim (split_at b'{' key) [
  | inl lacks ↦ (key, no_open lacks)
  | inr (pre, rest, e, lacks) ↦ elim (split_at b'}' rest) [
    | inl open_end ↦ (key, no_close pre rest e lacks open_end)
    | inr (tag, post, d, ends) ↦
        braced key pre tag post (e ∙ ap (λ t. pre ++ b'{' ∷ t) d) lacks ends
  ]
]

-- The slot of a key that is not empty is the CRC-16, modulo 16384, of the part that the hash-tag
-- rule of Redis Cluster names: the text between the first opening brace and the first closing
-- brace behind it, if there is one and the text is not empty, and else the whole key.
pub hash_slot_lem :
    (key : Bytes)
    → key ≢ []
    → (part : Bytes) × Hashed key part
      × (hash_slot key ≡ pos (crc16 part % slot_number))
      × (crc16 part % slot_number < slot_number)
hash_slot_lem key h =
    let (part, hashed) = Hashed-total key in
    (
      part,
      hashed,
      hash_slot-Hashed key part h hashed ∙ (unfold slot_of in refl),
      mod-lt _ (omega arith),
    )

-- Two keys that are not empty and have the same hashed part have the same slot.
pub hash_slot-tag :
    (key key' part : Bytes)
    → key ≢ []
    → key' ≢ []
    → Hashed key part
    → Hashed key' part
    → hash_slot key ≡ hash_slot key'
hash_slot-tag key key' part h h' hashed hashed' =
    hash_slot-Hashed key part h hashed ∙ sym (hash_slot-Hashed key' part h' hashed')
