-- ===== src/Trie/Mutable/Database.antt =====
-- `TrieDBMut` and its `TrieMut` operations, triedbmut.rs. The store beneath is reached through
-- `NodeSource`.
use aion_utils.Prelude.{
  ℕ, ◌+◌, ◌*◌, Bool, true, false, Option, none, some, List, [], ◌∷◌, if◌then◌else◌, length, ok, err,
  ◌>>=◌,
}
use aion_utils.Db.Map.{same}
use aion_utils.Db.Memory.{blake2b_null_rlp}
use aion_utils.Trie.NibbleSlice.{new}
use aion_utils.Trie.Mutable.{
  H256, Value, invalid_state_root, Result, Node, empty, NodeHandle, in_memory, hash, Stored,
  NodeSource, Effects, lookup, stored_node,
}
use aion_utils.Trie.Mutable.Insert.{insert_at, insert_inspector}
use aion_utils.Trie.Mutable.Remove.{remove_at, remove_inspector}

pub record TrieDbMut : Type 0 where
  pub root : H256
  pub root_handle : NodeHandle
  pub death_row : List H256

abbrev pub new_trie : TrieDbMut
new_trie = record { root = blake2b_null_rlp; root_handle = hash blake2b_null_rlp; death_row = [] }

-- `from_existing`, where `contains` is the store's answer for the root.
unfoldable pub from_existing : Bool → H256 → Result TrieDbMut
from_existing contains root =
    if contains
    then ok (record { root = root; root_handle = hash root; death_row = [] })
    else err (invalid_state_root root)

abbrev pub is_empty_node : Node → Bool
is_empty_node empty = true
is_empty_node _ = false

abbrev pub is_empty_handle : NodeHandle → Bool
is_empty_handle (hash h) = same h blake2b_null_rlp
is_empty_handle (in_memory s) = is_empty_node (stored_node s)

unfoldable pub is_empty : TrieDbMut → Bool
is_empty t = is_empty_handle t.root_handle

-- The fuel of an operation on a key: each nibble takes at most three calls of an inspector, and
-- three more come at the end.
abbrev pub fuel_for : List ℕ → ℕ
fuel_for key = length key * 6 + 6

unfoldable pub get : NodeSource → TrieDbMut → List ℕ → Result (Option Value)
get db t key = lookup db (fuel_for key) (new key) t.root_handle

abbrev pub start : TrieDbMut → Effects
start t = record { old_val = none; death_row = t.death_row }

-- The trie after a removal.
abbrev pub removed : TrieDbMut → Option (Stored × Bool) × Effects → Option Value × TrieDbMut
removed t (some (new, changed), e) =
    (e.old_val, record t { root_handle = in_memory new; death_row = e.death_row })
removed t (none, e) = (
  e.old_val,
  record { root = blake2b_null_rlp; root_handle = hash blake2b_null_rlp; death_row = e.death_row },
)

unfoldable pub remove : NodeSource → TrieDbMut → List ℕ → Result (Option Value × TrieDbMut)
remove db t key = do
  r ← remove_at db (remove_inspector db (fuel_for key)) t.root_handle (new key) (start t)
  ok (removed t r)

abbrev pub insert_value :
    NodeSource → TrieDbMut → List ℕ → Value → Result (Option Value × TrieDbMut)
insert_value db t key value = do
  (new_handle, changed, e) ←
      insert_at db (insert_inspector db (fuel_for key)) t.root_handle (new key) value (start t)
  ok (e.old_val, record t { root_handle = in_memory new_handle; death_row = e.death_row })

-- An empty value removes the key.
unfoldable pub insert : NodeSource → TrieDbMut → List ℕ → Value → Result (Option Value × TrieDbMut)
insert db t key [] = remove db t key
insert db t key (b ∷ value) = insert_value db t key (b ∷ value)
