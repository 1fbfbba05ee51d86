-- ===== src/Db/Tests.antt =====
-- Applications of the theorems on the counted store, with a hash function that puts a 1 in front.
use aion_utils.Prelude.{
  ℕ, ◌<◌, ◌≡◌, refl, sym, ap, ◌∙◌, Bool, true, false, none, some, List, [], ◌∷◌, if◌then◌else◌,
  arith,
}
use aion_utils.Db.Map.{same, find, put, Distinct}
use aion_utils.Db.Memory.{
  H256, Entry, MemoryDb, DbValue, new, insert, remove, get, get_any, consolidate, null_rlp,
  blake2b_null_rlp, i32_mod, negative,
}
use aion_utils.Db.Memory.Entries.{counted, get_any-consolidate}
use aion_utils.Db.Memory.Content.{IsContent, insert-IsContent, remove-IsContent}
use aion_utils.Db.Memory.Counts.{get-remove-insert}
use aion_utils.Db.Memory.Stored.{get-insert, consolidate-IsContent}

abbrev front_one : List ℕ → H256
front_one bs = if same bs null_rlp then blake2b_null_rlp else 1 ∷ bs

new-IsContent : IsContent front_one new
unfolding IsContent find
new-IsContent k e found = cc

abbrev one_value : MemoryDb
one_value = (insert front_one new (5 ∷ 6 ∷ [])).1

one_value-IsContent : IsContent front_one one_value
one_value-IsContent = insert-IsContent front_one new (5 ∷ 6 ∷ []) new-IsContent

abbrev five_six : Entry
five_six = record { value = 5 ∷ 6 ∷ []; rc = 1 }

either : (b : Bool) (e f : Entry) → (if b then some f else none) ≡ some e → e ≡ f
either true e f h = cc
either false e f h = cc

one_value-find : (k : H256) (e : Entry) → find k one_value.entries ≡ some e → e ≡ five_six
unfolding find insert put same
one_value-find k e found = either (same k (1 ∷ 5 ∷ 6 ∷ [])) e five_six found

one_value-range : (k : H256) (e : Entry) → find k one_value.entries ≡ some e → e.rc < i32_mod
one_value-range k e found = rw (one_value-find k e found) (omega arith)

one_value-Distinct : Distinct one_value.entries
unfolding Distinct insert put find same
one_value-Distinct = (refl, tt)

abbrev other_value : MemoryDb
other_value = (insert front_one new (7 ∷ [])).1

get-remove-insert_example :
    get
      (remove (insert front_one one_value (7 ∷ [])).1 (insert front_one one_value (7 ∷ [])).0)
      (1 ∷ 5 ∷ 6 ∷ [])
    ≡ get one_value (1 ∷ 5 ∷ 6 ∷ [])
get-remove-insert_example =
    get-remove-insert front_one one_value (7 ∷ []) (1 ∷ 5 ∷ 6 ∷ []) one_value-range

get-insert_example :
    (w : DbValue) × (get
        (insert front_one one_value (5 ∷ 6 ∷ [])).1
        (insert front_one one_value (5 ∷ 6 ∷ [])).0
      ≡ some w)
    × (front_one w ≡ (insert front_one one_value (5 ∷ 6 ∷ [])).0)
unfolding same
get-insert_example =
    get-insert front_one one_value (5 ∷ 6 ∷ []) one_value-IsContent refl refl
      (λ e found. rw (one_value-find (front_one (5 ∷ 6 ∷ [])) e found) (omega arith))

-- This store has removed what the other one inserts.
abbrev owing : MemoryDb
owing = remove other_value (1 ∷ 5 ∷ 6 ∷ [])

abbrev whole : List ℕ → H256
whole bs = bs

get_any-consolidate_example :
    (counted (find (1 ∷ 5 ∷ 6 ∷ []) (consolidate owing one_value).entries) ≡ 0)
    × (get_any whole (consolidate owing one_value) (1 ∷ 5 ∷ 6 ∷ []) ≡ some (5 ∷ 6 ∷ []))
unfolding find insert remove put same get_any
get_any-consolidate_example =
    get_any-consolidate whole owing one_value (1 ∷ 5 ∷ 6 ∷ []) one_value-Distinct (omega arith)
      (omega arith)

consolidate-IsContent_example : IsContent front_one (consolidate other_value one_value)
consolidate-IsContent_example =
    consolidate-IsContent front_one other_value one_value
      (insert-IsContent front_one new (7 ∷ []) new-IsContent) one_value-IsContent one_value-Distinct
      (λ k e o here there low low_too.
        let impossible : negative 1 ≡ true =
          ap (λ f. negative f.rc) (sym (one_value-find k o there)) ∙ low_too in
        cc)

remove-IsContent_example : IsContent front_one (remove one_value (1 ∷ 5 ∷ 6 ∷ []))
remove-IsContent_example =
    remove-IsContent front_one one_value (1 ∷ 5 ∷ 6 ∷ []) one_value-IsContent
      (λ e found. rw (one_value-find (1 ∷ 5 ∷ 6 ∷ []) e found) (λ h. absurd (omega arith)))
