-- ===== src/Trie/Keyed.antt =====
-- The databases over the trie in patricia_trie/src: `TrieDB` (triedb.rs) by its root, `SecTrieDB` and
-- `SecTrieDBMut` (sectriedb.rs, sectriedbmut.rs), whose keys are hashed, and `FatDBMut`
-- (fatdbmut.rs), which keeps the keys as well. The hash function is an argument. The `TrieDBMut` is
-- over a `MemoryDB`.
use aion_utils.Prelude.{
  ℕ, suc, ◌+◌, ◌*◌, ◌≡◌, refl, Option, none, some, List, if◌then◌else◌, arith, length, ok, err,
  ◌>>=◌,
}
use aion_utils.Db.Memory
use aion_utils.Db.Memory.{MemoryDb}
use aion_utils.Trie.NibbleSlice.{new, len}
use aion_utils.Trie.Lookup.{HashGet, look_up}
use aion_utils.Trie.Mutable.{H256, Value, invalid_state_root, Result, hash, lookup}
use aion_utils.Trie.Mutable.Database.{TrieDbMut, get, insert, remove, fuel_for}
use aion_utils.Trie.Mutable.Commit.{Digest}
use aion_utils.Trie.Mutable.Load.{source}

-- `TrieDB::new`, which keeps the root.
unfoldable pub trie_db : MemoryDb → H256 → Result H256
trie_db db root = if Memory.contains db root then ok root else err (invalid_state_root root)

-- `TrieDB::get_with` for a query that copies the value.
unfoldable pub trie_db_get : HashGet → H256 → List ℕ → Result (Option Value)
trie_db_get get root key = look_up get (suc (len (new key))) root (new key)

-- `SecTrieDB::get_with`, and `FatDB::get_with`.
unfoldable pub sec_get : Digest → HashGet → H256 → List ℕ → Result (Option Value)
sec_get digest get root key = trie_db_get get root (digest key)

-- `SecTrieDBMut`
unfoldable pub sec_get_mut : Digest → MemoryDb → TrieDbMut → List ℕ → Result (Option Value)
sec_get_mut digest db t key = get (source (Memory.get db)) t (digest key)

unfoldable pub sec_insert :
    Digest → MemoryDb → TrieDbMut → List ℕ → Value → Result (Option Value × TrieDbMut)
sec_insert digest db t key value = insert (source (Memory.get db)) t (digest key) value

unfoldable pub sec_remove :
    Digest → MemoryDb → TrieDbMut → List ℕ → Result (Option Value × TrieDbMut)
sec_remove digest db t key = remove (source (Memory.get db)) t (digest key)

-- `FatDBMut`: the key stands under the hash of its hash while the trie has it.
abbrev pub key_added : Digest → MemoryDb → List ℕ → Option Value → MemoryDb
key_added digest db key none = Memory.emplace db (digest (digest key)) key
key_added digest db key (some old) = db

abbrev pub key_removed : Digest → MemoryDb → List ℕ → Option Value → MemoryDb
key_removed digest db key none = db
key_removed digest db key (some old) = Memory.remove db (digest (digest key))

unfoldable pub fat_insert :
    Digest → MemoryDb → TrieDbMut → List ℕ → Value → Result (Option Value × TrieDbMut × MemoryDb)
fat_insert digest db t key value = do
  (old, t1) ← insert (source (Memory.get db)) t (digest key) value
  ok (old, t1, key_added digest db key old)

unfoldable pub fat_remove :
    Digest → MemoryDb → TrieDbMut → List ℕ → Result (Option Value × TrieDbMut × MemoryDb)
fat_remove digest db t key = do
  (old, t1) ← remove (source (Memory.get db)) t (digest key)
  ok (old, t1, key_removed digest db key old)

-- A `TrieDBMut` that is known by its root, as it is after a commit: its `get` is `TrieDB`'s, and
-- `SecTrieDBMut`'s is `SecTrieDB`'s.
pub get-trie_db_get :
    (digest : Digest) (db : MemoryDb) (t : TrieDbMut) (key : List ℕ)
    → t.root_handle ≡ hash t.root
    → (get (source (Memory.get db)) t key ≡ trie_db_get (Memory.get db) t.root key)
      × (sec_get_mut digest db t key ≡ sec_get digest (Memory.get db) t.root key)
unfolding get lookup trie_db_get sec_get_mut sec_get
get-trie_db_get digest db t key e =
    let fuel : fuel_for key ≡ suc (length key * 6 + 5) = omega arith in
    let fuel' : fuel_for (digest key) ≡ suc (length (digest key) * 6 + 5) = omega arith in
    (rw (e, fuel) refl, rw (e, fuel') refl)
