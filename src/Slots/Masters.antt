-- ===== src/Slots/Masters.antt =====
-- get_slot_master and remove_connection_key.
use hiredis_happ.Common.{
  some_injective, ℕ, zero, suc, ◌%◌, ◌<◌, ◌≡◌, ◌≢◌, ◌∙◌, ◌⊎◌, refl, sym, ap, subst, arith, ◌≤◌, ltb,
  ltb→lt, lt→ltb, bit_and, true, false, Bool-cases, inl, inr, if◌then◌else◌, [], ◌∷◌, ◌++◌, List,
  Bytes, Option, some, ℤ, pos, negsuc,
}
use hiredis_happ.Name.{Key}
use hiredis_happ.Crc16.{crc16}
use hiredis_happ.HashSlot.Tags.{hash_slot_lem}
use hiredis_happ.HashSlot.{slot_number, hash_slot}
use hiredis_happ.Slots.{
  Table, invalid, read_hosts, own_hosts, host_or, first_host, random_master, master_of,
  get_slot_master, get_slot_at, get_slot_by_key, rotate_last, drop_master, bytes_eq, remove_from,
  remove_loop, remove_connection_key,
}

-- The slot that get_slot_master draws.
abbrev pub drawn : ℕ → ℕ
drawn random = bit_and random 0xffff % slot_number

-- The index is no slot of the table, or one without hosts.
abbrev pub HasNoMaster : ℤ → Table → Type 0
HasNoMaster index table = (slot : ℕ) → index ≡ pos slot → slot < slot_number → table slot ≡ []

-- Where the key that get_slot_master gives comes from.
pub data Master (index : ℤ) (random : ℕ) (init : Key) (table : Table) : Key → Type 0 where
  -- The index is a slot with a master.
  of_slot :
      (slot : ℕ) (k : Key) (rest : List Key)
      → index ≡ pos slot
      → slot < slot_number
      → table slot ≡ k ∷ rest
      → Master index random init table k
  -- It is not, and a random slot has a master, or none.
  of_random :
      (k : Key) (rest : List Key)
      → HasNoMaster index table
      → drawn random < slot_number
      → table (drawn random) ≡ k ∷ rest
      → Master index random init table k
  of_init :
      HasNoMaster index table → table (drawn random) ≡ [] → Master index random init table init

read_hosts-inside :
    (table : Table) (slot : ℕ) → slot < slot_number → read_hosts table slot ≡ some (table slot)
unfolding read_hosts
read_hosts-inside table slot h = rw (lt→ltb slot slot_number h) refl

-- The first test of get_slot_master reads no slot behind the table.
pub own_hosts-some :
    (index : ℤ) (table : Table) → (hosts : List Key) × (own_hosts index table ≡ some hosts)
unfolding own_hosts
own_hosts-some (negsuc n) table = ([], refl)
own_hosts-some (pos n) table = elim (Bool-cases (ltb n slot_number)) [
  | inl inside ↦ (table n, rw inside (read_hosts-inside table n (ltb→lt n slot_number inside)))
  | inr outside ↦ ([], rw outside refl)
]

own_hosts-inside :
    (n : ℕ) (table : Table) → n < slot_number → own_hosts (pos n) table ≡ some (table n)
unfolding own_hosts
own_hosts-inside n table h = rw (lt→ltb n slot_number h) (read_hosts-inside table n h)

-- Where the first test finds no hosts there is no master.
own_hosts-HasNoMaster :
    (index : ℤ) (table : Table) → own_hosts index table ≡ some [] → HasNoMaster index table
own_hosts-HasNoMaster index table own slot e h =
    some_injective (sym (own_hosts-inside slot table h) ∙ ap (λ i. own_hosts i table) (sym e) ∙ own)

-- get_slot_master gives a key with one of these origins.
abbrev Gives : ℤ → ℕ → Key → Table → Option Key → Type 0
Gives index random init table result =
    (k : Key) × (result ≡ some k) × Master index random init table k

random_master-Gives :
    (index : ℤ) (random : ℕ) (init : Key) (table : Table)
    → own_hosts index table ≡ some []
    → Gives index random init table (random_master random init table)
unfolding random_master host_or first_host
random_master-Gives index random init table own = by_hosts (table (drawn random)) refl
  where
    inside : drawn random < slot_number
    inside = omega arith

    by_hosts :
        (l : List Key)
        → table (drawn random) ≡ l
        → Gives index random init table (random_master random init table)
    by_hosts [] e = (
      init,
      ap (λ o. host_or o init) (read_hosts-inside table (drawn random) inside ∙ ap some e),
      of_init (own_hosts-HasNoMaster index table own) e,
    )
    by_hosts (k ∷ rest) e = (
      k,
      ap (λ o. host_or o init) (read_hosts-inside table (drawn random) inside ∙ ap some e),
      of_random k rest (own_hosts-HasNoMaster index table own) inside e,
    )

-- The same for get_slot_master, by the hosts of the index.
master_of-Gives :
    (n random : ℕ) (init : Key) (table : Table) (l : List Key)
    → n < slot_number
    → table n ≡ l
    → own_hosts (pos n) table ≡ some l
    → Gives (pos n) random init table (get_slot_master (pos n) random init table)
unfolding get_slot_master master_of
master_of-Gives n random init table [] inside e own =
    let (k, q, m) = random_master-Gives (pos n) random init table own in
    (k, ap (λ o. master_of o random init table) own ∙ q, m)
master_of-Gives n random init table (k ∷ rest) inside e own =
    (k, ap (λ o. master_of o random init table) own, of_slot n k rest refl inside e)

-- get_slot_master reads no slot behind the table, where a read would fault, whatever the index and
-- the random number are, and its result is the first host of the slot of the index, if the index
-- is a slot of the table with hosts; else it is the first host of the slot that the random number
-- gives, if that has hosts, and else the first address.
pub get_slot_master-Master :
    (index : ℤ) (random : ℕ) (init : Key) (table : Table)
    → (k : Key) × (get_slot_master index random init table ≡ some k)
      × Master index random init table k
unfolding get_slot_master own_hosts master_of
get_slot_master-Master (negsuc n) random init table =
    random_master-Gives (negsuc n) random init table refl
get_slot_master-Master (pos n) random init table = elim (Bool-cases (ltb n slot_number)) [
  | inr outside ↦
      let own : own_hosts (pos n) table ≡ some [] = rw outside refl in
      let (k, q, m) = random_master-Gives (pos n) random init table own in
      (k, ap (λ o. master_of o random init table) own ∙ q, m)
  | inl inside ↦
      let below = ltb→lt n slot_number inside in
      master_of-Gives n random init table (table n) below refl
        (rw inside (read_hosts-inside table n below))
]

-- For every key that is not empty, hash_slot gives a slot of the table, and get_slot_by_key gives
-- the hosts of that slot: it reads none behind the table.
pub get_slot_by_key_lem :
    (key : Bytes) (table : Table)
    → key ≢ []
    → (slot : ℕ) × (hash_slot key ≡ pos slot)
      × (slot < slot_number)
      × (get_slot_by_key key table ≡ some (some (table slot)))
unfolding get_slot_by_key get_slot_at
get_slot_by_key_lem key table h =
    let (part, hashed, e, inside) = hash_slot_lem key h in
    let slot = crc16 part % slot_number in
    (
      slot,
      e,
      inside,
      ap (λ i. get_slot_at i table) e ∙ rw (get_slot_at, read_hosts-inside table slot inside) refl,
    )

-- What remove_connection_key leaves of the hosts of a slot.
pub data Removed (name : Bytes) : List Key → List Key → Type 0 where
  no_hosts : Removed name [] []
  other_master :
      (k : Key) (rest : List Key)
      → bytes_eq k.name name ≡ false
      → Removed name (k ∷ rest) (k ∷ rest)
  only_host : (k : Key) → bytes_eq k.name name ≡ true → Removed name (k ∷ []) []
  replaced :
      (k last : Key) (middle : List Key)
      → bytes_eq k.name name ≡ true
      → Removed name (k ∷ (middle ++ last ∷ [])) (last ∷ middle)

rotate_last_lem :
    (k : Key) (rest : List Key) → k ∷ rest ≡ (rotate_last k rest).1 ++ (rotate_last k rest).0 ∷ []
unfolding rotate_last
rotate_last_lem k [] = refl
rotate_last_lem k (next ∷ rest) = ap (λ l. k ∷ l) (rotate_last_lem next rest)

remove_from-Removed :
    (name : Bytes) (hosts : List Key) → Removed name hosts (remove_from name hosts)
unfolding remove_from drop_master
remove_from-Removed name [] = no_hosts
remove_from-Removed name (k ∷ []) = elim (Bool-cases (bytes_eq k.name name)) [
  | inl same ↦ rw same (only_host k same)
  | inr other ↦ rw other (other_master k [] other)
]
remove_from-Removed name (k ∷ next ∷ rest) = elim (Bool-cases (bytes_eq k.name name)) [
  | inl same ↦
      let r = rotate_last next rest in
      rw same (
        subst (λ l. Removed name (k ∷ l) (r.0 ∷ r.1)) (sym (rotate_last_lem next rest))
          (replaced k r.0 r.1 same))
  | inr other ↦ rw other (other_master k (next ∷ rest) other)
]

remove_loop_lem :
    (count : ℕ) (name : Bytes) (table : Table) (slot : ℕ)
    → remove_loop count name table slot
      ≡ (if ltb slot count then remove_from name (table slot) else table slot)
unfolding remove_loop
remove_loop_lem zero name table slot = ground arith
remove_loop_lem (suc i) name table slot =
    ground (arith, remove_loop_lem i name table slot, remove_loop_lem i name table i)

-- remove_connection_key marks the table invalid; in every slot whose first host has the name, that
-- host goes, and the last one takes its place; every other slot, and what is no slot of the table,
-- stays.
pub remove_connection_key_lem :
    (name : Bytes) (table : Table) (slot : ℕ)
    → ((remove_connection_key name table).0 ≡ invalid)
      × (((slot < slot_number)
            × Removed name (table slot) ((remove_connection_key name table).1 slot))
          ⊎ ((slot_number ≤ slot) × ((remove_connection_key name table).1 slot ≡ table slot)))
unfolding remove_connection_key
remove_connection_key_lem name table slot = elim (Bool-cases (ltb slot slot_number)) [
  | inl inside ↦ (
    refl,
    inl (
      ground (arith, inside),
      subst (Removed name (table slot))
          (ground (arith, inside, remove_loop_lem slot_number name table slot))
          (remove_from-Removed name (table slot)),
    ),
  )
  | inr outside ↦ (
    refl,
    inr (
      ground (arith, outside),
      ground (arith, outside, remove_loop_lem slot_number name table slot),
    ),
  )
]
