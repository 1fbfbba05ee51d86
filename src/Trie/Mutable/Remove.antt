-- ===== src/Trie/Mutable/Remove.antt =====
-- `remove_at`, `remove_inspector` and `fix` of triedbmut.rs. The inspector and `fix` run on fuel.
pub mod Places
pub mod Fix
pub mod Removes
pub mod Paths
pub mod Forks
pub mod Laws
use aion_utils.Prelude.{
  ℕ, zero, suc, ◌+◌, Bool, true, false, Option, none, some, List, [], ◌∷◌, ◌==◌, if◌then◌else◌,
  Outcome, ok, panic, ◌>>=◌, map_ok, lift_run, expect,
}
use aion_utils.Trie.NibbleSlice.{
  NibbleSlice, new, new_offset, new_composed, len, is_empty, at, mid, eq, encoded, common_prefix,
}
use aion_utils.Trie.Mutable.{
  H256, Value, TrieError, Result, Node, empty, leaf, extension, branch, NodeHandle, in_memory,
  Stored, fresh, cached, Children, end, vacant, occupied, child_at, set_child, clear_child,
  NodeSource, Effects, found_old, doom, Action, replace, restore, delete, fetch, inspect, key_slice,
  stored_node,
}

pub data UsedIndex : Type 0 where
  unused : UsedIndex
  one : ℕ → UsedIndex
  many : UsedIndex

-- The loop over the children from index `i` on, with what has been seen before.
unfoldable pub used_from : Children → ℕ → UsedIndex → UsedIndex
used_from end i seen = seen
used_from (vacant c) i seen = used_from c (i + 1) seen
used_from (occupied h c) i unused = used_from c (i + 1) (one i)
used_from (occupied h c) i (one j) = many
used_from (occupied h c) i many = used_from c (i + 1) many

-- The match on the index and the value, with `fix` for the extension that the branch may become.
unfoldable pub fix_used :
    (Node → Effects → Result (Node × Effects))
    → Children
    → Effects
    → UsedIndex
    → Option Value
    → Result (Node × Effects)
fix_used again children e unused none = panic
fix_used again children e (one a) none = do
  key ← lift_run (encoded (new_offset (a ∷ []) 1) false)
  taken ← child_at children a
  child ← expect taken
  again (extension key child) e
fix_used again children e unused (some v) =
    map_ok (λ key. (leaf key v, e)) (lift_run (encoded (new []) true))
fix_used again children e (one a) (some v) = ok (branch children (some v), e)
fix_used again children e many value = ok (branch children value, e)

-- `Node::Branch`
abbrev pub fix_branch :
    (Node → Effects → Result (Node × Effects))
    → Children
    → Option Value
    → Effects
    → Result (Node × Effects)
fix_branch again children value e = fix_used again children e (used_from children 0 unused) value

abbrev pub doom_cached : Stored → Effects → Effects
doom_cached (fresh n) e = e
doom_cached (cached n h) e = doom h e

-- The key of two nodes in a row.
unfoldable pub combined : List ℕ → List ℕ → Bool → Result (List ℕ)
combined key sub_key is_leaf = do
  partial ← key_slice key
  sub_partial ← key_slice sub_key
  lift_run (encoded (new_composed partial sub_partial) is_leaf)

-- `Node::Extension`, over the node that its handle owns.
unfoldable pub fix_over :
    (Node → Effects → Result (Node × Effects))
    → List ℕ
    → Stored
    → Node
    → Effects
    → Result (Node × Effects)
fix_over again key stored (extension sub_key sub_child) e = do
  new_key ← combined key sub_key false
  again (extension new_key sub_child) (doom_cached stored e)
fix_over again key stored (leaf sub_key value) e = do
  new_key ← combined key sub_key true
  ok (leaf new_key value, doom_cached stored e)
fix_over again key stored empty e = ok (extension key (in_memory stored), e)
fix_over again key stored (branch c v) e = ok (extension key (in_memory stored), e)

unfoldable pub fix : NodeSource → ℕ → Node → Effects → Result (Node × Effects)
fix db zero node e = panic
fix db (suc fuel) empty e = ok (empty, e)
fix db (suc fuel) (leaf key v) e = ok (leaf key v, e)
fix db (suc fuel) (branch children value) e = fix_branch (fix db fuel) children value e
fix db (suc fuel) (extension key child) e = do
  stored ← fetch db child
  fix_over (fix db fuel) key stored (stored_node stored) e

abbrev pub Inspector : Type 0
Inspector = Node → NibbleSlice → Effects → Result (Action × Effects)

-- `remove_at`, with the inspector that it calls.
unfoldable pub remove_at :
    NodeSource
    → Inspector
    → NodeHandle
    → NibbleSlice
    → Effects
    → Result (Option (Stored × Bool) × Effects)
remove_at db inspector handle partial e = do
  stored ← fetch db handle
  inspect stored (λ node e. inspector node partial e) e

abbrev pub replace_fixed : Result (Node × Effects) → Result (Action × Effects)
replace_fixed r = map_ok (λ f. (replace f.0, f.1)) r

-- What the branch becomes when a child has been taken out for removal.
abbrev pub branch_after :
    NodeSource
    → ℕ
    → Children
    → Option Value
    → ℕ
    → Option (Stored × Bool) × Effects
    → Result (Action × Effects)
branch_after db fuel children value idx (some (new, changed), e) =
    let node = branch (set_child children idx (in_memory new)) value in
    ok (if changed then replace node else restore node, e)
branch_after db fuel children value idx (none, e) =
    replace_fixed (fix db fuel (branch (clear_child children idx) value) e)

abbrev pub remove_child :
    NodeSource
    → ℕ
    → Inspector
    → Children
    → Option Value
    → ℕ
    → NibbleSlice
    → Effects
    → Option NodeHandle
    → Result (Action × Effects)
remove_child db fuel inspector children value idx partial e none =
    ok (restore (branch children value), e)
remove_child db fuel inspector children value idx partial e (some child) =
    remove_at db inspector child partial e >>= branch_after db fuel children value idx

-- `Node::Branch`
unfoldable pub remove_branch :
    NodeSource
    → ℕ
    → Inspector
    → Children
    → Option Value
    → NibbleSlice
    → Effects
    → Result (Action × Effects)
remove_branch db fuel inspector children value partial e =
    if is_empty partial
    then elim value [
      | none ↦ ok (restore (branch children none), e)
      | some v ↦ replace_fixed (fix db fuel (branch children none) (found_old (some v) e))
    ]
    else (do
      idx ← lift_run (at partial 0)
      child ← child_at children idx
      remove_child db fuel inspector children value idx (mid partial 1) e child)

-- `Node::Leaf`
unfoldable pub remove_leaf : List ℕ → Value → NibbleSlice → Effects → Result (Action × Effects)
remove_leaf key value partial e = do
  slice ← key_slice key
  hit ← lift_run (eq slice partial)
  ok (if hit then (delete, found_old (some value) e) else (restore (leaf key value), e))

abbrev pub extension_after :
    NodeSource → ℕ → List ℕ → Option (Stored × Bool) × Effects → Result (Action × Effects)
extension_after db fuel key (some (new, true), e) =
    replace_fixed (fix db fuel (extension key (in_memory new)) e)
extension_after db fuel key (some (new, false), e) = ok (restore (extension key (in_memory new)), e)
extension_after db fuel key (none, e) = ok (delete, e)

-- `Node::Extension`
unfoldable pub remove_extension :
    NodeSource
    → ℕ
    → Inspector
    → List ℕ
    → NodeHandle
    → NibbleSlice
    → Effects
    → Result (Action × Effects)
remove_extension db fuel inspector key child partial e = do
  existing_key ← key_slice key
  cp ← lift_run (common_prefix existing_key partial)
  if cp == len existing_key
      then remove_at db inspector child (mid partial cp) e >>= extension_after db fuel key
      else ok (restore (extension key child), e)

unfoldable pub remove_inspector : NodeSource → ℕ → Inspector
remove_inspector db zero node partial e = panic
remove_inspector db (suc fuel) empty partial e = ok (delete, e)
remove_inspector db (suc fuel) (branch children value) partial e =
    remove_branch db fuel (remove_inspector db fuel) children value partial e
remove_inspector db (suc fuel) (leaf key value) partial e = remove_leaf key value partial e
remove_inspector db (suc fuel) (extension key child) partial e =
    remove_extension db fuel (remove_inspector db fuel) key child partial e
