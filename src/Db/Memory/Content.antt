-- ===== src/Db/Memory/Content.antt =====
-- The store is addressed by content: what it keeps with a count that is not negative hashes to its
-- key. Each operation keeps that.
use aion_utils.Prelude.{
  ℕ, ◌^◌, ◌<◌, ◌≡◌, ◌≢◌, refl, sym, ap, ◌∙◌, true, false, Option, none, some, List, if◌then◌else◌,
  Bool-cases, inl, inr, arith,
}
use aion_utils.Db.Map.{same, same→eq, find, put, find-put_self, find-put_other}
use aion_utils.Db.Memory.{
  H256, Entry, MemoryDb, DbValue, i32_mod, add_i32, minus_one, negative, positive, insert,
  incremented, decremented, remove, emplace, get, null_rlp, blake2b_null_rlp,
}

-- What `get` shows of an entry.
abbrev pub seen : Option Entry → Option DbValue
seen none = none
seen (some e) = if positive e.rc then some e.value else none

positive-negative : (rc : ℕ) → positive rc ≡ true → negative rc ≡ false
positive-negative rc h = ground arith

-- Only the least `i32` less one is not negative again.
before_one :
    (rc : ℕ)
    → rc < i32_mod
    → rc ≢ 2 ^ 31
    → negative (add_i32 rc minus_one) ≡ false
    → negative rc ≡ false
before_one rc small bounded up = ground arith

module _ (blake2b : List ℕ → H256) where
  -- An entry as it may stand under a key.
  pub record IsEntry (k : H256) (e : Entry) : Type 0 where
    pub in_range : e.rc < i32_mod
    pub hashed : negative e.rc ≡ false → blake2b e.value ≡ k

  unfoldable pub IsContent : MemoryDb → Type 0
  IsContent db = (k : H256) (e : Entry) → find k db.entries ≡ some e → IsEntry k e

  -- A write of a good entry keeps the others.
  put-IsContent :
      (db : MemoryDb) (k : H256) (e : Entry)
      → IsContent db
      → IsEntry k e
      → IsContent (record { entries = put k e db.entries })
  unfolding IsContent
  put-IsContent db k e content good j f found = elim (Bool-cases (same j k)) [
    | inl here ↦
        let eq : j ≡ k = same→eq j k here in
        let that : some e ≡ some f =
          sym (find-put_self k e db.entries)
          ∙ ap (λ i. find i (put k e db.entries)) (sym eq)
          ∙ found in
        let value : e ≡ f = cc in rw (eq, sym value) good
    | inr other ↦ content j f (sym (find-put_other j k e db.entries other) ∙ found)
  ]

  pub incremented-IsEntry :
      (k : H256) (m : Option Entry) (value : DbValue)
      → ((e : Entry) → m ≡ some e → IsEntry k e)
      → blake2b value ≡ k
      → IsEntry k (incremented m value)
  incremented-IsEntry k none value old h = record { in_range = omega arith; hashed = λ _. h }
  incremented-IsEntry k (some e) value old h =
      let good = old e refl in
      record {
        in_range = omega arith;
        hashed = λ up. elim (Bool-cases (positive e.rc)) [
          | inl counted ↦
              let above : negative e.rc ≡ false = positive-negative e.rc counted in
              rw counted (good.hashed above)
          | inr missing ↦ rw missing h
        ];
      }

  decremented-IsEntry :
      (k : H256) (m : Option Entry)
      → ((e : Entry) → m ≡ some e → IsEntry k e × (e.rc ≢ 2 ^ 31))
      → IsEntry k (decremented m)
  decremented-IsEntry k none old = record { in_range = omega arith; hashed = λ up. cc }
  decremented-IsEntry k (some e) old =
      let (good, bounded) = old e refl in
      record {
        in_range = omega arith;
        hashed = λ up.
            let above : negative e.rc ≡ false = before_one e.rc good.in_range bounded up in
            good.hashed above;
      }

  -- `insert` keeps the store content-addressed.
  pub insert-IsContent :
      (db : MemoryDb) (value : List ℕ) → IsContent db → IsContent (insert blake2b db value).1
  unfolding insert IsContent
  insert-IsContent db value content = elim (Bool-cases (same value null_rlp)) [
    | inl null ↦ rw null content
    | inr other ↦ rw other (
        put-IsContent db (blake2b value) (incremented (find (blake2b value) db.entries) value)
          content
          (incremented-IsEntry (blake2b value) (find (blake2b value) db.entries) value
            (content (blake2b value)) refl))
  ]

  -- `emplace` of a value under its hash keeps the store content-addressed.
  pub emplace-IsContent :
      (db : MemoryDb) (key : H256) (value : DbValue)
      → IsContent db
      → blake2b value ≡ key
      → IsContent (emplace db key value)
  unfolding emplace IsContent
  emplace-IsContent db key value content h = elim (Bool-cases (same value null_rlp)) [
    | inl null ↦ rw null content
    | inr other ↦ rw other (
        put-IsContent db key (incremented (find key db.entries) value) content
          (incremented-IsEntry key (find key db.entries) value (content key) h))
  ]

  -- `remove` keeps the store content-addressed, unless the key's count is the least `i32`.
  pub remove-IsContent :
      (db : MemoryDb) (key : H256)
      → IsContent db
      → ((e : Entry) → find key db.entries ≡ some e → e.rc ≢ 2 ^ 31)
      → IsContent (remove db key)
  unfolding remove IsContent
  remove-IsContent db key content bounded = elim (Bool-cases (same key blake2b_null_rlp)) [
    | inl null ↦ rw null content
    | inr other ↦ rw other (
        put-IsContent db key (decremented (find key db.entries)) content (
          decremented-IsEntry key (find key db.entries)
            (λ e found. (content key e found, bounded e found))))
  ]

  pub seen-hashed :
      (k : H256) (value : DbValue) (m : Option Entry)
      → ((e : Entry) → m ≡ some e → IsEntry k e)
      → seen m ≡ some value
      → blake2b value ≡ k
  seen-hashed k value none good h = cc
  seen-hashed k value (some e) good h = elim (Bool-cases (positive e.rc)) [
    | inl counted ↦
        let read : some e.value ≡ some value = rw counted at h in
        let value_eq : e.value ≡ value = cc in
        rw (sym value_eq) ((good e refl).hashed (positive-negative e.rc counted))
    | inr missing ↦ let read : ◌≡◌ {A = Option DbValue} none (some value) = rw missing at h in cc
  ]

  -- `get` of a content-addressed store returns a value that hashes to the key asked for, if the
  -- hash of the null node is the one that the code has for it.
  pub get-IsContent :
      (db : MemoryDb) (key : H256) (value : DbValue)
      → IsContent db
      → blake2b null_rlp ≡ blake2b_null_rlp
      → get db key ≡ some value
      → blake2b value ≡ key
  unfolding get IsContent
  get-IsContent db key value content null_hash found =
      elim (Bool-cases (same key blake2b_null_rlp)) [
        | inl null ↦
            let read : some null_rlp ≡ some value = rw null at found in
            let value_eq : null_rlp ≡ value = cc in
            ap blake2b (sym value_eq) ∙ null_hash ∙ sym (same→eq key blake2b_null_rlp null)
        | inr other ↦ seen-hashed key value (find key db.entries) (content key) (rw other at found)
      ]
