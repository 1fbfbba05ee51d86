-- ===== src/Db/Memory/Stored.antt =====
-- What the store holds after an insertion, and after the entries of another store.
use aion_utils.Prelude.{
  ℕ, ◌-◌, ◌^◌, ◌<◌, ◌≡◌, refl, sym, ap, ◌∙◌, true, false, Option, none, some, List, Bool-cases, inl,
  inr, arith,
}
use aion_utils.Db.Map.{same, find, put, Distinct, find-put_self}
use aion_utils.Db.Memory.{
  H256, Entry, MemoryDb, DbValue, add_i32, negative, positive, insert, incremented, merged,
  consolidate, get, null_rlp, blake2b_null_rlp,
}
use aion_utils.Db.Memory.Entries.{merged_with, find-consolidate}
use aion_utils.Db.Memory.Content.{IsContent, IsEntry, seen, incremented-IsEntry}
use aion_utils.Db.Memory.Counts.{get-seen, insert-put}

seen-incremented :
    (m : Option Entry) (value : DbValue)
    → ((e : Entry) → m ≡ some e → e.rc < 2 ^ 31 - 1)
    → seen (some (incremented m value)) ≡ some (incremented m value).value
seen-incremented none value h = refl
seen-incremented (some e) value h =
    let up : positive (add_i32 e.rc 1) ≡ true = go e.rc (h e refl) in rw up refl
  where
    go : (rc : ℕ) → rc < 2 ^ 31 - 1 → positive (add_i32 rc 1) ≡ true
    go rc h = ground arith

above_zero :
    (m : Option Entry) (value : DbValue)
    → ((e : Entry) → m ≡ some e → e.rc < 2 ^ 31 - 1)
    → negative (incremented m value).rc ≡ false
above_zero none value h = refl
above_zero (some e) value h = go e.rc (h e refl)
  where
    go : (rc : ℕ) → rc < 2 ^ 31 - 1 → negative (add_i32 rc 1) ≡ false
    go rc h = ground arith

module _ (blake2b : List ℕ → H256) where
  -- After `insert` into a content-addressed store, `get` at the returned key shows a value that
  -- hashes to that key, if the value is not the null node, its hash is not the null node's, and the
  -- key's count was absent or from 0 to below the greatest `i32`.
  pub get-insert :
      (db : MemoryDb) (value : List ℕ)
      → IsContent blake2b db
      → same value null_rlp ≡ false
      → same (blake2b value) blake2b_null_rlp ≡ false
      → ((e : Entry) → find (blake2b value) db.entries ≡ some e → e.rc < 2 ^ 31 - 1)
      → (w : DbValue) × (get (insert blake2b db value).1 (insert blake2b db value).0 ≡ some w)
        × (blake2b w ≡ (insert blake2b db value).0)
  unfolding IsContent
  get-insert db value content value_other key_other bounded =
      let key = blake2b value in
      let more = incremented (find key db.entries) value in
      let shown : get (record { entries = put key more db.entries }) key ≡ some more.value =
        get-seen _ key key_other
        ∙ ap seen (find-put_self key more db.entries)
        ∙ seen-incremented (find key db.entries) value bounded in
      let kept : IsEntry blake2b key more =
        incremented-IsEntry blake2b key (find key db.entries) value (content key) refl in
      let above : negative more.rc ≡ false = above_zero (find key db.entries) value bounded in
      rw (insert-put blake2b db value value_other) (more.value, shown, kept.hashed above)

  merged-IsEntry :
      (k : H256) (mine : Option Entry) (o : Entry)
      → ((e : Entry) → mine ≡ some e → IsEntry blake2b k e)
      → IsEntry blake2b k o
      → ((e : Entry)
          → mine ≡ some e
          → negative e.rc ≡ true
          → negative o.rc ≡ true
          → negative (add_i32 e.rc o.rc) ≡ true)
      → IsEntry blake2b k (merged mine o)
  merged-IsEntry k none o old new_good bounded = new_good
  merged-IsEntry k (some e) o old new_good bounded = record {
    in_range = omega arith;
    hashed = λ up. elim (Bool-cases (negative e.rc)) [
      | inl below ↦ elim (Bool-cases (negative o.rc)) [
        | inl below_too ↦
            let impossible : true ≡ false = sym (bounded e refl below below_too) ∙ up in cc
        | inr above ↦ rw below (new_good.hashed above)
      ]
      | inr above ↦ rw above ((old e refl).hashed above)
    ];
  }

  -- `consolidate` of two content-addressed stores is content-addressed, if the other store has no
  -- key twice and no sum of two negative counts wraps.
  pub consolidate-IsContent :
      (db other : MemoryDb)
      → IsContent blake2b db
      → IsContent blake2b other
      → Distinct other.entries
      → ((k : H256) (e o : Entry)
          → find k db.entries ≡ some e
          → find k other.entries ≡ some o
          → negative e.rc ≡ true
          → negative o.rc ≡ true
          → negative (add_i32 e.rc o.rc) ≡ true)
      → IsContent blake2b (consolidate db other)
  unfolding IsContent merged_with
  consolidate-IsContent db other mine theirs d bounded k f found =
      go (find k other.entries) (theirs k) (λ o there e here. bounded k e o here there)
        (sym (find-consolidate db other k d) ∙ found)
    where
      go :
          (m : Option Entry)
          → ((o : Entry) → m ≡ some o → IsEntry blake2b k o)
          → ((o : Entry)
              → m ≡ some o
              → (e : Entry) → find k db.entries ≡ some e
              → negative e.rc ≡ true
              → negative o.rc ≡ true
              → negative (add_i32 e.rc o.rc) ≡ true)
          → merged_with (find k db.entries) m ≡ some f
          → IsEntry blake2b k f
      go none good small eq = mine k f eq
      go (some o) good small eq =
          let value : merged (find k db.entries) o ≡ f = cc in
          rw (sym value)
            (merged-IsEntry k (find k db.entries) o (mine k) (good o refl) (small o refl))
