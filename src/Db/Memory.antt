-- ===== src/Db/Memory.antt =====
-- db/core/src/memorydb.rs: a store of byte strings under their hashes, with reference counts. The
-- hash function is a parameter, and the theorems hold for each.
pub mod Entries
pub mod Content
pub mod Counts
pub mod Stored
use aion_utils.Prelude.{
  ℕ, zero, suc, ◌+◌, ◌-◌, ◌%◌, ◌^◌, Bool, true, false, not, ◌&&◌, ◌||◌, Option, none, some, List,
  [], ◌∷◌, ltb, leb, ◌==◌, if◌then◌else◌,
}
use aion_utils.Db.Map.{same, find, put, erase, retain}

abbrev pub H256 : Type 0
H256 = List ℕ

abbrev pub DbValue : Type 0
DbValue = List ℕ

-- An `i32` is a number below 2^32, of which those from 2^31 on stand for the negative ones.
abbrev pub i32_mod : ℕ
i32_mod = 2 ^ 32

abbrev pub add_i32 : ℕ → ℕ → ℕ
add_i32 a b = (a + b) % i32_mod

abbrev pub minus_one : ℕ
minus_one = i32_mod - 1

abbrev pub negative : ℕ → Bool
negative rc = leb (2 ^ 31) rc

abbrev pub positive : ℕ → Bool
positive rc = ltb 0 rc && ltb rc (2 ^ 31)

pub record Entry : Type 0 where
  pub value : DbValue
  pub rc : ℕ

pub record MemoryDb : Type 0 where
  pub entries : List (H256 × Entry)

-- `BLAKE2B_NULL_RLP` and `NULL_RLP`
abbrev pub blake2b_null_rlp : H256
blake2b_null_rlp =
    0x45 ∷ 0xb0 ∷ 0xcf ∷ 0xc2 ∷ 0x20 ∷ 0xce ∷ 0xec ∷ 0x5b ∷ 0x7c ∷ 0x1c ∷ 0x62 ∷ 0xc4 ∷ 0xd4 ∷ 0x19
    ∷ 0x3d ∷ 0x38 ∷ 0xe4 ∷ 0xeb ∷ 0xa4 ∷ 0x8e ∷ 0x88 ∷ 0x15 ∷ 0x72 ∷ 0x9c ∷ 0xe7 ∷ 0x5f ∷ 0x9c
    ∷ 0x0a ∷ 0xb0 ∷ 0xe4 ∷ 0xc1 ∷ 0xc0 ∷ []

abbrev pub null_rlp : DbValue
null_rlp = 0x80 ∷ []

abbrev pub new : MemoryDb
new = record { entries = [] }

-- The inherent `get`, which does not look at the count. `H256::from` of a byte slice is the crate
-- fixed_hash's, and an argument.
unfoldable pub get_any : (List ℕ → H256) → MemoryDb → List ℕ → Option DbValue
get_any from db k = elim (find (from k) db.entries) [ none ↦ none | some e ↦ some e.value ]

abbrev pub clear : MemoryDb → MemoryDb
clear db = record { entries = [] }

unfoldable pub purge : MemoryDb → MemoryDb
purge db = record { entries = retain (λ e. not (e.rc == 0)) db.entries }

abbrev pub drain : MemoryDb → List (H256 × Entry) × MemoryDb
drain db = (db.entries, record { entries = [] })

unfoldable pub raw : MemoryDb → H256 → Option Entry
raw db key =
    if same key blake2b_null_rlp
    then some (record { value = null_rlp; rc = 1 })
    else find key db.entries

-- The entry after one removal; a key that is not there gets an empty value.
abbrev pub decremented : Option Entry → Entry
decremented none = record { value = []; rc = minus_one }
decremented (some e) = record e { rc = add_i32 e.rc minus_one }

unfoldable pub remove_and_purge : MemoryDb → H256 → Option DbValue × MemoryDb
remove_and_purge db key =
    if same key blake2b_null_rlp then (none, db) else elim (find key db.entries) [
      | none ↦ (none, record { entries = put key (decremented none) db.entries })
      | some e ↦
          if e.rc == 1
          then (some e.value, record { entries = erase key db.entries })
          else (none, record { entries = put key (decremented (some e)) db.entries })
    ]

-- The entry of `consolidate`, from this store's and the other one's.
abbrev pub merged : Option Entry → Entry → Entry
merged none o = o
merged (some e) o = record {
  value = if negative e.rc then o.value else e.value;
  rc = add_i32 e.rc o.rc;
}

unfoldable pub merge_all : List (H256 × Entry) → List (H256 × Entry) → List (H256 × Entry)
merge_all [] mine = mine
merge_all ((key, o) ∷ rest) mine = merge_all rest (put key (merged (find key mine) o) mine)

unfoldable pub consolidate : MemoryDb → MemoryDb → MemoryDb
consolidate db other = record { entries = merge_all other.entries db.entries }

-- `HashStore for MemoryDB`
unfoldable pub get : MemoryDb → H256 → Option DbValue
get db key = if same key blake2b_null_rlp then some null_rlp else elim (find key db.entries) [
  | none ↦ none
  | some e ↦ if positive e.rc then some e.value else none
]

unfoldable pub keys : List (H256 × Entry) → List (H256 × ℕ)
keys [] = []
keys ((k, e) ∷ rest) = if e.rc == 0 then keys rest else (k, e.rc) ∷ keys rest

unfoldable pub contains : MemoryDb → H256 → Bool
contains db key =
    if same key blake2b_null_rlp
    then true
    else elim (find key db.entries) [ none ↦ false | some e ↦ positive e.rc ]

-- The entry after one insertion of the value. An `i32` is never below -0x80000000.
abbrev pub incremented : Option Entry → DbValue → Entry
incremented none value = record { value = value; rc = 1 }
incremented (some e) value = record {
  value = if positive e.rc then e.value else value;
  rc = add_i32 e.rc 1;
}

unfoldable pub emplace : MemoryDb → H256 → DbValue → MemoryDb
emplace db key value =
    if same value null_rlp
    then db
    else record { entries = put key (incremented (find key db.entries) value) db.entries }

unfoldable pub insert : (List ℕ → H256) → MemoryDb → List ℕ → H256 × MemoryDb
insert blake2b db value = if same value null_rlp then (blake2b_null_rlp, db) else (
  blake2b value,
  record {
    entries = put (blake2b value) (incremented (find (blake2b value) db.entries) value) db.entries;
  },
)

unfoldable pub remove : MemoryDb → H256 → MemoryDb
remove db key =
    if same key blake2b_null_rlp
    then db
    else record { entries = put key (decremented (find key db.entries)) db.entries }
