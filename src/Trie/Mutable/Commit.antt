-- ===== src/Trie/Mutable/Commit.antt =====
-- `commit`, `commit_node` and `Node::into_rlp` of triedbmut.rs, over a `MemoryDB`. The hash function is
-- an argument.
pub mod Items
pub mod Writes
pub mod Root
pub mod Hash
use aion_utils.Prelude.{
  ℕ, ◌+◌, Option, none, some, List, [], ◌∷◌, ltb, if◌then◌else◌, length, ok, ◌>>=◌, map_ok,
}
use aion_utils.Prelude.Words.{add_usize}
use aion_utils.Rlp.Error.{Result}
use aion_utils.Rlp.Stream.{
  RlpStream, new, new_list, append, append_value, append_empty_data, append_raw, out,
}
use aion_utils.Db.Memory.{MemoryDb, insert, remove}
use aion_utils.Trie.Mutable.{
  H256, Value, Node, empty, leaf, extension, branch, NodeHandle, in_memory, hash, Stored, fresh,
  cached, Children, end, vacant, occupied,
}
use aion_utils.Trie.Mutable.Database.{TrieDbMut}

-- The backing database, and the number of hash operations.
pub record Store : Type 0 where
  pub db : MemoryDb
  pub hash_count : ℕ

abbrev pub Digest : Type 0
Digest = List ℕ → H256

-- `self.db.insert(rlp)` and `self.hash_count += 1`
unfoldable pub stored : Digest → List ℕ → Store → H256 × Store
stored digest rlp st =
    let (h, db) = insert digest st.db rlp in
    (h, record { db = db; hash_count = add_usize st.hash_count 1 })

abbrev pub append_hash : H256 → Store × RlpStream → Result (Store × RlpStream)
append_hash h (st, s) = map_ok (λ t. (st, t)) (append (append_value h) s)

-- The last part of `commit_node`: a node of at least 32 bytes is stored under its hash.
unfoldable pub commit_rlp : Digest → List ℕ → Store → RlpStream → Result (Store × RlpStream)
commit_rlp digest rlp st s =
    if ltb (length rlp) 32
    then map_ok (λ t. (st, t)) (append_raw rlp 1 s)
    else append_hash (stored digest rlp st).0 ((stored digest rlp st).1, s)

abbrev pub append_stored_value : Option Value → RlpStream → Result RlpStream
append_stored_value none s = append_empty_data s
append_stored_value (some v) s = append (append_value v) s

unfoldable mutual
  pub into_rlp : Digest → Node → Store → Result (List ℕ × Store)
  into_rlp digest empty st = map_ok (λ b. (b, st)) (append_empty_data new >>= out)
  into_rlp digest (leaf partial value) st = do
    s ← new_list 2
    s1 ← append (append_value partial) s
    s2 ← append (append_value value) s1
    map_ok (λ b. (b, st)) (out s2)
  into_rlp digest (extension partial child) st = do
    s ← new_list 2
    s1 ← append (append_value partial) s
    (st1, s2) ← commit_node digest child st s1
    map_ok (λ b. (b, st1)) (out s2)
  into_rlp digest (branch children value) st = do
    s ← new_list 17
    (st1, s1) ← commit_children digest children st s
    s2 ← append_stored_value value s1
    map_ok (λ b. (b, st1)) (out s2)

  pub commit_children : Digest → Children → Store → RlpStream → Result (Store × RlpStream)
  commit_children digest end st s = ok (st, s)
  commit_children digest (vacant c) st s = do t ← append_empty_data s; commit_children digest c st t
  commit_children digest (occupied child c) st s = do
    (st1, t) ← commit_node digest child st s
    commit_children digest c st1 t

  pub commit_node : Digest → NodeHandle → Store → RlpStream → Result (Store × RlpStream)
  commit_node digest (hash h) st s = append_hash h (st, s)
  commit_node digest (in_memory n) st s = commit_stored digest n st s

  pub commit_stored : Digest → Stored → Store → RlpStream → Result (Store × RlpStream)
  commit_stored digest (cached n h) st s = append_hash h (st, s)
  commit_stored digest (fresh n) st s = do
    (rlp, st1) ← into_rlp digest n st
    commit_rlp digest rlp st1 s

-- The loop over the death row.
unfoldable pub remove_all : List H256 → MemoryDb → MemoryDb
remove_all [] db = db
remove_all (h ∷ hs) db = remove_all hs (remove db h)

-- The match on the root's node.
unfoldable pub commit_root : Digest → TrieDbMut → Store → NodeHandle → Result (TrieDbMut × Store)
commit_root digest t st (hash h) = ok (t, st)
commit_root digest t st (in_memory (cached n h)) =
    ok (record t { root = h; root_handle = in_memory (cached n h) }, st)
commit_root digest t st (in_memory (fresh n)) = do
  (rlp, st1) ← into_rlp digest n st
  let (h, st2) = stored digest rlp st1
  ok (record t { root = h; root_handle = hash h }, st2)

unfoldable pub commit : Digest → TrieDbMut → Store → Result (TrieDbMut × Store)
commit digest t st =
    commit_root digest (record t { death_row = [] })
      (record st { db = remove_all t.death_row st.db }) t.root_handle

-- `root`, which commits first.
abbrev pub root : Digest → TrieDbMut → Store → Result (H256 × TrieDbMut × Store)
root digest t st = map_ok (λ r. (r.0.root, r.0, r.1)) (commit digest t st)
