-- ===== src/Db/Memory/Counts.antt =====
-- Insertions and removals against what the store shows.
use aion_utils.Prelude.{
  ℕ, ◌<◌, ◌≡◌, refl, sym, ap, ◌∙◌, true, false, not, Option, none, some, List, [], ◌∷◌, ◌==◌,
  if◌then◌else◌, Bool-cases, inl, inr, arith,
}
use aion_utils.Db.Map.{
  same, same_refl, same→eq, find, put, retain, Distinct, find-put_self, find-put_other,
}
use aion_utils.Db.Memory.{
  H256, Entry, MemoryDb, DbValue, i32_mod, add_i32, minus_one, positive, insert, incremented,
  decremented, remove, get, purge, null_rlp, blake2b_null_rlp,
}
use aion_utils.Db.Memory.Content.{seen}

-- `get` at a key that is not the null node's.
pub get-seen :
    (db : MemoryDb) (key : H256)
    → same key blake2b_null_rlp ≡ false
    → get db key ≡ seen (find key db.entries)
unfolding get
get-seen db key other = rw other (go (find key db.entries))
  where
    go :
        (m : Option Entry)
        → elim m as (λ _. Option DbValue) [
          | none ↦ none
          | some e ↦ if positive e.rc then some e.value else none
        ]
          ≡ seen m
    go none = refl
    go (some e) = refl

get-null :
    (db : MemoryDb) (key : H256) → same key blake2b_null_rlp ≡ true → get db key ≡ some null_rlp
unfolding get
get-null db key null = rw null refl

there_and_back : (rc : ℕ) → rc < i32_mod → add_i32 (add_i32 rc 1) minus_one ≡ rc
there_and_back rc h = omega arith

seen-decremented-incremented :
    (m : Option Entry) (value : DbValue)
    → ((e : Entry) → m ≡ some e → e.rc < i32_mod)
    → seen (some (decremented (some (incremented m value)))) ≡ seen m
seen-decremented-incremented none value h = refl
seen-decremented-incremented (some e) value h =
    rw (there_and_back e.rc (h e refl)) (elim (Bool-cases (positive e.rc)) [
      | inl counted ↦ rw counted refl
      | inr missing ↦ rw missing refl
    ])

-- Two writes at one key.
find-put_twice :
    (j k : H256) (e f : Entry) (m : List (H256 × Entry))
    → find j (put k f (put k e m)) ≡ (if same j k then some f else find j m)
find-put_twice j k e f m = elim (Bool-cases (same j k)) [
  | inl here ↦
      let eq : j ≡ k = same→eq j k here in
      let whole : find j (put k f (put k e m)) ≡ some f =
        ap (λ i. find i (put k f (put k e m))) eq ∙ find-put_self k f (put k e m) in
      rw (here, whole) refl
  | inr other ↦
      rw (other, find-put_other j k f (put k e m) other, find-put_other j k e m other) refl
]

remove-null : (db : MemoryDb) (key : H256) → same key blake2b_null_rlp ≡ true → remove db key ≡ db
unfolding remove
remove-null db key null = rw null refl

remove-put :
    (db : MemoryDb) (key : H256)
    → same key blake2b_null_rlp ≡ false
    → remove db key ≡ record { entries = put key (decremented (find key db.entries)) db.entries }
unfolding remove
remove-put db key other = rw other refl

module _ (blake2b : List ℕ → H256) (db : MemoryDb) (value : List ℕ) where
  insert-null : same value null_rlp ≡ true → insert blake2b db value ≡ (blake2b_null_rlp, db)
  unfolding insert
  insert-null null = rw null refl

  abbrev pub with_one_more : MemoryDb
  with_one_more = record {
    entries = put (blake2b value) (incremented (find (blake2b value) db.entries) value) db.entries;
  }

  pub insert-put :
      same value null_rlp ≡ false → insert blake2b db value ≡ (blake2b value, with_one_more)
  unfolding insert
  insert-put other = rw other refl

  seen-remove_put :
      (j : H256)
      → ((k : H256) (e : Entry) → find k db.entries ≡ some e → e.rc < i32_mod)
      → same (blake2b value) blake2b_null_rlp ≡ false
      → seen (find j (remove with_one_more (blake2b value)).entries) ≡ seen (find j db.entries)
  seen-remove_put j range other =
      let key = blake2b value in
      let more = incremented (find key db.entries) value in
      rw
        (
          remove-put with_one_more key other,
          find-put_self key more db.entries,
          find-put_twice j key more (decremented (some more)) db.entries,
        )
        (elim (Bool-cases (same j key)) [
          | inl here ↦
              rw (here, same→eq j key here)
                (seen-decremented-incremented (find key db.entries) value (range key))
          | inr elsewhere ↦ rw elsewhere refl
        ])

  -- Removing what `insert` has just stored leaves each key as `get` showed it before, if the counts
  -- are `i32`s.
  pub get-remove-insert :
      (j : H256)
      → ((k : H256) (e : Entry) → find k db.entries ≡ some e → e.rc < i32_mod)
      → get (remove (insert blake2b db value).1 (insert blake2b db value).0) j ≡ get db j
  get-remove-insert j range = elim (Bool-cases (same value null_rlp)) [
    | inl null ↦
        rw (insert-null null)
          (ap (λ d. get d j) (remove-null db blake2b_null_rlp (same_refl blake2b_null_rlp)))
    | inr value_other ↦ elim (Bool-cases (same j blake2b_null_rlp)) [
      | inl null ↦ get-null _ j null ∙ sym (get-null db j null)
      | inr j_other ↦
          rw
            (
              insert-put value_other,
              get-seen (remove with_one_more (blake2b value)) j j_other,
              get-seen db j j_other,
            )
            (elim (Bool-cases (same (blake2b value) blake2b_null_rlp)) [
              | inl null ↦
                  let elsewhere : same j (blake2b value) ≡ false =
                    ap (λ k. same j k) (same→eq (blake2b value) blake2b_null_rlp null) ∙ j_other in
                  rw
                    (
                      remove-null with_one_more (blake2b value) null,
                      find-put_other j (blake2b value)
                          (incremented (find (blake2b value) db.entries) value) db.entries
                          elsewhere,
                    )
                    refl
              | inr key_other ↦ seen-remove_put j range key_other
            ])
    ]
  ]

-- What `purge` keeps of an entry.
abbrev kept : Option Entry → Option Entry
kept none = none
kept (some e) = if not (e.rc == 0) then some e else none

find-retain :
    (k : H256) (m : List (H256 × Entry))
    → Distinct m
    → find k (retain (λ e. not (e.rc == 0)) m) ≡ kept (find k m)
unfolding find retain Distinct
find-retain k [] d = refl
find-retain k ((j, e) ∷ m) (fresh, d) = elim (Bool-cases (same k j)) [
  | inl here ↦
      let gone : find k m ≡ none = ap (λ i. find i m) (same→eq k j here) ∙ fresh in
      elim (Bool-cases (e.rc == 0)) [
        | inl zero_count ↦ rw (here, zero_count) (find-retain k m d ∙ rw gone refl)
        | inr counted ↦ rw (here, counted, here) refl
      ]
  | inr other ↦ elim (Bool-cases (e.rc == 0)) [
    | inl zero_count ↦ rw (other, zero_count) (find-retain k m d)
    | inr counted ↦ rw (other, counted, other) (find-retain k m d)
  ]
]

seen-kept : (m : Option Entry) → seen (kept m) ≡ seen m
seen-kept none = refl
seen-kept (some e) = elim (Bool-cases (e.rc == 0)) [
  | inl zero_count ↦ let shown : positive e.rc ≡ false = ground arith in rw (zero_count, shown) refl
  | inr counted ↦ rw counted refl
]

-- `purge` changes nothing that `get` shows, if no key stands twice.
pub get-purge : (db : MemoryDb) (k : H256) → Distinct db.entries → get (purge db) k ≡ get db k
unfolding purge
get-purge db k d = elim (Bool-cases (same k blake2b_null_rlp)) [
  | inl null ↦ get-null _ k null ∙ sym (get-null db k null)
  | inr other ↦
      get-seen _ k other
      ∙ ap seen (find-retain k db.entries d)
      ∙ seen-kept (find k db.entries)
      ∙ sym (get-seen db k other)
]
