-- ===== src/Trie/Lookup.antt =====
-- patricia_trie/src/lookup.rs: `Lookup::look_up`, from a hash down through the stored nodes and those
-- that stand inside them, for a query that records nothing. What `HashStore::get` answers is an
-- argument.
pub mod Kept
pub mod Walk
pub mod Filled
use aion_utils.Prelude.{
  ℕ, zero, suc, ◌+◌, Bool, true, false, Option, none, some, List, if◌then◌else◌, Run, Outcome, ok,
  err, panic, index, ◌>>=◌, map_ok, lift_run,
}
use aion_utils.Rlp.Trusted.{is_hash, hash_val}
use aion_utils.Trie.NibbleSlice.{NibbleSlice, eq, starts_with, len, is_empty, at, mid}
use aion_utils.Trie.Node
use aion_utils.Trie.Node.{decoded}
use aion_utils.Trie.Mutable.{
  H256, Value, TrieError, invalid_state_root, incomplete_database, Result,
}

abbrev pub HashGet : Type 0
HashGet = H256 → Option Value

-- What is left to do after a node: nothing, or a child and the rest of the key.
pub data Step : Type 0 where
  done : Option Value → Step
  below : List ℕ → NibbleSlice → Step

-- The match on the decoded node.
unfoldable pub visit : NibbleSlice → Node.Node → Run Step
visit key Node.empty = ok (done none)
visit key (Node.leaf slice value) = do
  hit ← eq slice key
  ok (done (if hit then some value else none))
visit key (Node.extension slice item) = do
  hit ← starts_with key slice
  ok (if hit then below item (mid key (len slice)) else done none)
visit key (Node.branch children value) =
    if is_empty key
    then ok (done value)
    else (do i ← at key 0; child ← index children i; ok (below child (mid key 1)))

-- Where a child is: under a hash, or in the bytes of its parent.
pub data Place : Type 0 where
  under : H256 → Place
  inline : List ℕ → Place

unfoldable pub place_of : List ℕ → Run Place
place_of raw = do
  by_hash ← is_hash raw
  if by_hash then map_ok under (hash_val raw) else ok (inline raw)

unfoldable pub missing : ℕ → H256 → TrieError
missing zero hash = invalid_state_root hash
missing (suc depth) hash = incomplete_database hash

abbrev pub ok_or : TrieError → Option Value → Result (List ℕ)
ok_or e none = err e
ok_or e (some value) = ok value

-- The bytes of a node.
unfoldable pub node_data : HashGet → ℕ → Place → Result (List ℕ)
node_data get depth (inline raw) = ok raw
node_data get depth (under hash) = ok_or (missing depth hash) (get hash)

-- A child by its hash is one round of the outer loop further down.
abbrev pub deeper : ℕ → Place → ℕ
deeper depth (under hash) = depth + 1
deeper depth (inline raw) = depth

abbrev pub go_on :
    (ℕ → NibbleSlice → Place → Result (Option Value)) → ℕ → Step → Result (Option Value)
go_on again depth (done value) = ok value
go_on again depth (below raw key) = do
  place ← lift_run (place_of raw)
  again (deeper depth place) key place

-- The two loops, on fuel: each round visits one node.
unfoldable pub walk : HashGet → ℕ → ℕ → NibbleSlice → Place → Result (Option Value)
walk get zero depth key place = panic
walk get (suc fuel) depth key place = do
  raw ← node_data get depth place
  step ← lift_run (decoded raw >>= visit key)
  go_on (walk get fuel) depth step

unfoldable pub look_up : HashGet → ℕ → H256 → NibbleSlice → Result (Option Value)
look_up get fuel hash key = walk get fuel 0 key (under hash)
