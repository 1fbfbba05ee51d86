-- ===== src/Db/Memory/Entries.antt =====
-- What one key's entry becomes under each operation on the store.
use aion_utils.Prelude.{
  ℕ, ◌+◌, ◌%◌, ◌^◌, ◌<◌, ◌≡◌, refl, ap, ◌∙◌, Option, none, some, List, [], ◌∷◌, leb, if◌then◌else◌,
  or_else, Bool-cases, inl, inr, arith,
}
use aion_utils.Db.Map.{same, same→eq, find, put, Distinct, find-put_self, find-put_other}
use aion_utils.Db.Memory.{H256, Entry, MemoryDb, DbValue, get_any, merged, merge_all, consolidate}

-- What `consolidate` makes of this store's entry and the other one's.
unfoldable pub merged_with : Option Entry → Option Entry → Option Entry
merged_with mine none = mine
merged_with mine (some o) = some (merged mine o)

pub find-merge_all :
    (k : H256) (theirs mine : List (H256 × Entry))
    → Distinct theirs
    → find k (merge_all theirs mine) ≡ merged_with (find k mine) (find k theirs)
unfolding merge_all merged_with find Distinct
find-merge_all k [] mine d = refl
find-merge_all k ((j, o) ∷ rest) mine (fresh, d) = elim (Bool-cases (same k j)) [
  | inl here ↦
      let eq : k ≡ j = same→eq k j here in
      let gone : find k rest ≡ none = ap (λ i. find i rest) eq ∙ fresh in
      let stored : find k (put j (merged (find j mine) o) mine) ≡ some (merged (find k mine) o) =
        rw eq (find-put_self j (merged (find j mine) o) mine) in
      rw here
        (find-merge_all k rest (put j (merged (find j mine) o) mine) d ∙ rw (gone, stored) refl)
  | inr other ↦ rw other (
      find-merge_all k rest (put j (merged (find j mine) o) mine) d
      ∙ ap (λ m. merged_with m (find k rest))
          (find-put_other k j (merged (find j mine) o) mine other))
]

pub find-consolidate :
    (db other : MemoryDb) (k : H256)
    → Distinct other.entries
    → find k (consolidate db other).entries ≡ merged_with (find k db.entries) (find k other.entries)
unfolding consolidate
find-consolidate db other k d = find-merge_all k other.entries db.entries d

-- A key's count: a key without an entry has none.
abbrev pub counted : Option Entry → ℕ
counted none = 0
counted (some e) = e.rc

-- The value kept under a key, whatever its count.
abbrev pub kept : Option Entry → Option DbValue
kept none = none
kept (some e) = some e.value

get_any-kept :
    (from : List ℕ → H256) (db : MemoryDb) (bs : List ℕ)
    → get_any from db bs ≡ kept (find (from bs) db.entries)
unfolding get_any
get_any-kept from db bs = go (find (from bs) db.entries)
  where
    go :
        (m : Option Entry)
        → elim m as (λ _. Option DbValue) [ none ↦ none | some e ↦ some e.value ] ≡ kept m
    go none = refl
    go (some e) = refl

counted-merged_with :
    (m o : Option Entry)
    → counted m < 2 ^ 32
    → counted o < 2 ^ 32
    → counted (merged_with m o) ≡ (counted m + counted o) % 2 ^ 32
unfolding merged_with
counted-merged_with none none hm ho = refl
counted-merged_with none (some o) hm ho = omega arith
counted-merged_with (some e) none hm ho = omega arith
counted-merged_with (some e) (some o) hm ho = refl

kept-merged_with :
    (m o : Option Entry)
    → kept (merged_with m o)
      ≡ (if leb (2 ^ 31) (counted m) then or_else (kept o) (kept m) else or_else (kept m) (kept o))
unfolding merged_with
kept-merged_with none none = refl
kept-merged_with none (some o) = refl
kept-merged_with (some e) none = elim (Bool-cases (leb (2 ^ 31) e.rc)) [
  | inl below ↦ rw below refl
  | inr above ↦ rw above refl
]
kept-merged_with (some e) (some o) = elim (Bool-cases (leb (2 ^ 31) e.rc)) [
  | inl below ↦ rw below refl
  | inr above ↦ rw above refl
]

-- After `consolidate`, in whatever order the other store's entries come, each key's count is the sum of
-- both stores' counts as `i32`s, where a key without an entry counts 0; and the inherent `get` returns
-- this store's value, or the other one's if this store has no entry, but the other one's first
-- where this store's count is negative. The other store has no key twice, and the key's counts are
-- `i32`s.
pub get_any-consolidate :
    (from : List ℕ → H256) (db other : MemoryDb) (bs : List ℕ)
    → Distinct other.entries
    → counted (find (from bs) db.entries) < 2 ^ 32
    → counted (find (from bs) other.entries) < 2 ^ 32
    → (counted (find (from bs) (consolidate db other).entries)
        ≡ (counted (find (from bs) db.entries) + counted (find (from bs) other.entries)) % 2 ^ 32)
      × (get_any from (consolidate db other) bs ≡ (
          if leb (2 ^ 31) (counted (find (from bs) db.entries))
          then or_else (get_any from other bs) (get_any from db bs)
          else or_else (get_any from db bs) (get_any from other bs)))
get_any-consolidate from db other bs d hm ho =
    let k = from bs in
    let both = find-consolidate db other k d in
    (
      ap counted both ∙ counted-merged_with (find k db.entries) (find k other.entries) hm ho,
      rw
          (
            get_any-kept from (consolidate db other) bs,
            get_any-kept from db bs,
            get_any-kept from other bs,
          )
          (ap kept both ∙ kept-merged_with (find k db.entries) (find k other.entries)),
    )
