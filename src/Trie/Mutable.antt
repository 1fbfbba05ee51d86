-- ===== src/Trie/Mutable.antt =====
-- patricia_trie/src/triedbmut.rs: the trie in memory. A `StorageHandle` is not copied and owns its
-- node, which `destroy` takes out of the storage and `alloc` puts back, so a handle is modelled by
-- the node that it owns (Storage has the storage). What is still in the database comes through
-- `NodeSource`.
pub mod Insert
pub mod Remove
pub mod Database
pub mod Shape
pub mod Map
pub mod Commit
pub mod Storage
pub mod Load
mod Tests
use aion_utils.Prelude.{
  ℕ, zero, suc, ◌+◌, Bool, true, false, Option, none, some, List, [], ◌∷◌, ◌==◌, if◌then◌else◌, Run,
  Outcome, ok, err, panic, ◌>>=◌, map_ok, lift_run,
}
use aion_utils.Db.Map.{same}
use aion_utils.Trie.NibbleSlice.{NibbleSlice, from_encoded, eq, starts_with, len, is_empty, at, mid}

abbrev pub H256 : Type 0
H256 = List ℕ

abbrev pub Value : Type 0
Value = List ℕ

-- The errors of `TrieError` that the trie raises.
pub data TrieError : Type 0 where
  invalid_state_root : H256 → TrieError
  incomplete_database : H256 → TrieError

abbrev pub Result : Type 0 → Type 0
Result A = Outcome TrieError A

mutual
  pub data Node : Type 0 where
    empty : Node
    leaf : List ℕ → Value → Node
    extension : List ℕ → NodeHandle → Node
    branch : Children → Option Value → Node

  pub data NodeHandle : Type 0 where
    in_memory : Stored → NodeHandle
    hash : H256 → NodeHandle

  pub data Stored : Type 0 where
    fresh : Node → Stored
    cached : Node → H256 → Stored

  -- The array of children, `Option<NodeHandle>` each.
  pub data Children : Type 0 where
    end : Children
    vacant : Children → Children
    occupied : NodeHandle → Children → Children

abbrev pub vacancies : ℕ → Children
vacancies zero = end
vacancies (suc n) = vacant (vacancies n)

abbrev pub empty_children : Children
empty_children = vacancies 16

-- `children[idx]`, which panics out of range.
unfoldable pub child_at : Children → ℕ → Result (Option NodeHandle)
child_at end idx = panic
child_at (vacant c) zero = ok none
child_at (occupied h c) zero = ok (some h)
child_at (vacant c) (suc idx) = child_at c idx
child_at (occupied h c) (suc idx) = child_at c idx

-- `children[idx] = Some(handle)`
unfoldable pub set_child : Children → ℕ → NodeHandle → Children
set_child end idx h = end
set_child (vacant c) zero h = occupied h c
set_child (occupied g c) zero h = occupied h c
set_child (vacant c) (suc idx) h = vacant (set_child c idx h)
set_child (occupied g c) (suc idx) h = occupied g (set_child c idx h)

-- `children[idx].take()`, where it leaves nothing.
unfoldable pub clear_child : Children → ℕ → Children
clear_child end idx = end
clear_child (vacant c) zero = vacant c
clear_child (occupied g c) zero = vacant c
clear_child (vacant c) (suc idx) = vacant (clear_child c idx)
clear_child (occupied g c) (suc idx) = occupied g (clear_child c idx)

-- What the database answers (Load has a store's answers): `load` is `cache`, a node decoded from what is stored under its hash,
-- or `IncompleteDatabase`; `look_up` is `Lookup::look_up` from a hash on.
pub record NodeSource : Type 0 where
  pub load : H256 → Result Node
  pub look_up : H256 → NibbleSlice → Result (Option Value)

-- What an operation writes beside its result: `old_val`, and the hashes on `death_row`.
pub record Effects : Type 0 where
  pub old_val : Option Value
  pub death_row : List H256

abbrev pub found_old : Option Value → Effects → Effects
found_old v e = record e { old_val = v }

-- `HashSet::insert`
unfoldable pub include : H256 → List H256 → List H256
include h [] = h ∷ []
include h (g ∷ row) = if same g h then g ∷ row else g ∷ include h row

abbrev pub doom : H256 → Effects → Effects
doom h e = record e { death_row = include h e.death_row }

pub data Action : Type 0 where
  replace : Node → Action
  restore : Node → Action
  delete : Action

-- A node taken out of the storage, loaded first if it is known by its hash.
abbrev pub fetch : NodeSource → NodeHandle → Result Stored
fetch db (in_memory s) = ok s
fetch db (hash h) = map_ok (λ n. cached n h) (db.load h)

abbrev pub inspected_fresh : Action × Effects → Option (Stored × Bool) × Effects
inspected_fresh (restore n, e) = (some (fresh n, false), e)
inspected_fresh (replace n, e) = (some (fresh n, true), e)
inspected_fresh (delete, e) = (none, e)

abbrev pub inspected_cached : H256 → Action × Effects → Option (Stored × Bool) × Effects
inspected_cached h (restore n, e) = (some (cached n h, false), e)
inspected_cached h (replace n, e) = (some (fresh n, true), doom h e)
inspected_cached h (delete, e) = (none, doom h e)

unfoldable pub inspect :
    Stored
    → (Node → Effects → Result (Action × Effects))
    → Effects
    → Result (Option (Stored × Bool) × Effects)
inspect (fresh n) inspector e = map_ok inspected_fresh (inspector n e)
inspect (cached n h) inspector e = map_ok (inspected_cached h) (inspector n e)

-- `NibbleSlice::from_encoded(key).0`
unfoldable pub key_slice : List ℕ → Result NibbleSlice
key_slice key = map_ok (λ r. r.0) (lift_run (from_encoded key))

abbrev pub lookup_child :
    (NibbleSlice → NodeHandle → Result (Option Value))
    → NibbleSlice
    → Option NodeHandle
    → Result (Option Value)
lookup_child again partial none = ok none
lookup_child again partial (some h) = again (mid partial 1) h

abbrev pub lookup_node :
    (NibbleSlice → NodeHandle → Result (Option Value)) → Node → NibbleSlice → Result (Option Value)
lookup_node again empty partial = ok none
lookup_node again (leaf key value) partial = do
  slice ← key_slice key
  hit ← lift_run (eq slice partial)
  ok (if hit then some value else none)
lookup_node again (extension key child) partial = do
  slice ← key_slice key
  hit ← lift_run (starts_with partial slice)
  if hit then again (mid partial (len slice)) child else ok none
lookup_node again (branch children value) partial = if is_empty partial then ok value else (do
  idx ← lift_run (at partial 0)
  child ← child_at children idx
  lookup_child again partial child)

abbrev pub stored_node : Stored → Node
stored_node (fresh n) = n
stored_node (cached n h) = n

-- The loop of `lookup`, on fuel: each round goes down one node.
unfoldable pub lookup : NodeSource → ℕ → NibbleSlice → NodeHandle → Result (Option Value)
lookup db zero partial handle = panic
lookup db (suc fuel) partial (hash h) = db.look_up h partial
lookup db (suc fuel) partial (in_memory s) = lookup_node (lookup db fuel) (stored_node s) partial
