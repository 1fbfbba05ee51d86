-- ===== src/Trie/Mutable/Load.antt =====
-- `Node::from_rlp`, `Node::inline_or_hash` and `cache` of triedbmut.rs: a node read into memory, its
-- children by their hashes or, where they stand inside it, with it. Together with `Lookup` this is
-- what a trie in memory asks of its store.
pub mod Nodes
pub mod Committed
pub mod Durable
mod Tests
use aion_utils.Prelude.{
  ℕ, zero, suc, ◌+◌, Bool, true, false, Option, none, some, List, [], ◌∷◌, if◌then◌else◌, length,
  Run, ok, err, panic, ◌>>=◌, map_ok, lift_run,
}
use aion_utils.Rlp.Untrusted
use aion_utils.Trie.NibbleSlice
use aion_utils.Trie.NibbleSlice.{len}
use aion_utils.Trie.Node
use aion_utils.Trie.Node.{decoded}
use aion_utils.Trie.Lookup.{HashGet, Place, under, inline, place_of, ok_or, look_up}
use aion_utils.Trie.Mutable
use aion_utils.Trie.Mutable.{
  H256, Value, incomplete_database, Result, NodeHandle, in_memory, hash, fresh, Children, end,
  vacant, occupied, NodeSource,
}

abbrev pub placed : (List ℕ → Run Mutable.Node) → Place → Run NodeHandle
placed from_rlp (under h) = ok (hash h)
placed from_rlp (inline raw) = map_ok (λ n. in_memory (fresh n)) (from_rlp raw)

abbrev pub inline_or_hash : (List ℕ → Run Mutable.Node) → List ℕ → Run NodeHandle
inline_or_hash from_rlp raw = place_of raw >>= placed from_rlp

-- The loop over the children.
abbrev pub load_children : (List ℕ → Run Mutable.Node) → List (List ℕ) → Run Children
load_children from_rlp [] = ok end
load_children from_rlp (raw ∷ raws) =
    if Untrusted.is_empty (Untrusted.new raw)
    then map_ok vacant (load_children from_rlp raws)
    else (do
      child ← inline_or_hash from_rlp raw
      children ← load_children from_rlp raws
      ok (occupied child children))

-- The match on the decoded node.
abbrev pub loaded : (List ℕ → Run Mutable.Node) → Node.Node → Run Mutable.Node
loaded from_rlp Node.empty = ok Mutable.empty
loaded from_rlp (Node.leaf slice value) = do
  key ← NibbleSlice.encoded slice true
  ok (Mutable.leaf key value)
loaded from_rlp (Node.extension slice raw) = do
  key ← NibbleSlice.encoded slice false
  child ← inline_or_hash from_rlp raw
  ok (Mutable.extension key child)
loaded from_rlp (Node.branch raws value) = do
  children ← load_children from_rlp raws
  ok (Mutable.branch children value)

-- On fuel: an inline child is shorter than its parent.
unfoldable pub from_rlp : ℕ → List ℕ → Run Mutable.Node
from_rlp zero rlp = panic
from_rlp (suc fuel) rlp = decoded rlp >>= loaded (from_rlp fuel)

unfoldable pub cache : HashGet → H256 → Result Mutable.Node
cache get h = do
  rlp ← ok_or (incomplete_database h) (get h)
  lift_run (from_rlp (suc (length rlp)) rlp)

-- A store as a trie in memory sees it. A lookup has fuel for one node more than the key has nibbles.
abbrev pub source : HashGet → NodeSource
source get = record { load = cache get; look_up = λ h key. look_up get (suc (len key)) h key }
