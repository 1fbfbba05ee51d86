-- ===== src/Trie/Mutable/Insert.antt =====
-- `insert_at` and `insert_inspector` of triedbmut.rs. The branches of the inspector are functions of
-- their own, which take what they call in turn. The inspector runs on fuel.
pub mod Stubs
pub mod Split
pub mod Inserts
pub mod Leaves
pub mod Extensions
pub mod Forks
pub mod Laws
use aion_utils.Prelude.{
  ℕ, zero, suc, Bool, true, false, ◌&&◌, Option, none, some, List, ◌==◌, if◌then◌else◌, Outcome, ok,
  panic, ◌>>=◌, map_ok, lift_run, expect,
}
use aion_utils.Db.Map.{same}
use aion_utils.Trie.NibbleSlice.{
  NibbleSlice, len, is_empty, at, mid, encoded, encoded_leftmost, common_prefix,
}
use aion_utils.Trie.Mutable.{
  Value, TrieError, Result, Node, empty, leaf, extension, branch, NodeHandle, in_memory, Stored,
  fresh, Children, empty_children, child_at, set_child, NodeSource, Effects, found_old, Action,
  fetch, inspect, key_slice,
}

pub data InsertAction : Type 0 where
  replace : Node → InsertAction
  restore : Node → InsertAction

abbrev pub into_action : InsertAction → Action
into_action (replace n) = Action.replace n
into_action (restore n) = Action.restore n

abbrev pub unwrap_node : InsertAction → Node
unwrap_node (replace n) = n
unwrap_node (restore n) = n

abbrev pub Inspector : Type 0
Inspector = Node → NibbleSlice → Value → Effects → Result (InsertAction × Effects)

-- `insert_at`, with the inspector that it calls.
unfoldable pub insert_at :
    NodeSource
    → Inspector
    → NodeHandle
    → NibbleSlice
    → Value
    → Effects
    → Result (Stored × Bool × Effects)
insert_at db inspector handle partial value e = do
  stored ← fetch db handle
  (kept, e') ←
      inspect stored
        (λ node e. map_ok (λ r. (into_action r.0, r.1)) (inspector node partial value e)) e
  (new, changed) ← expect kept
  ok (new, changed, e')

-- `Some(self.storage.alloc(Stored::New(node)).into())`
abbrev pub allocated : Node → NodeHandle
allocated n = in_memory (fresh n)

-- The handle that a branch has at the first nibble of the rest.
abbrev pub insert_child :
    NodeSource
    → Inspector
    → Children
    → Option Value
    → ℕ
    → NibbleSlice
    → Value
    → Effects
    → Option NodeHandle
    → Result (InsertAction × Effects)
insert_child db inspector children stored idx partial value e (some child) = do
  (new_child, changed, e') ← insert_at db inspector child partial value e
  let node = branch (set_child children idx (in_memory new_child)) stored
  ok (if changed then replace node else restore node, e')
insert_child db inspector children stored idx partial value e none = do
  key ← lift_run (encoded partial true)
  ok (replace (branch (set_child children idx (allocated (leaf key value))) stored), e)

abbrev pub same_value : Option Value → Value → Bool
same_value none v = false
same_value (some w) v = same w v

-- `Node::Branch`
unfoldable pub insert_branch :
    NodeSource
    → Inspector
    → Children
    → Option Value
    → NibbleSlice
    → Value
    → Effects
    → Result (InsertAction × Effects)
insert_branch db inspector children stored partial value e =
    if is_empty partial
    then ok (
      if same_value stored value
          then restore (branch children (some value))
          else replace (branch children (some value)),
      found_old stored e,
    )
    else (do
      idx ← lift_run (at partial 0)
      child ← child_at children idx
      insert_child db inspector children stored idx (mid partial 1) value e child)

-- The branch that a leaf is made into, with the leaf's value at its own place.
unfoldable pub leaf_branch : NibbleSlice → Value → Result Node
leaf_branch existing_key stored =
    if is_empty existing_key then ok (branch empty_children (some stored)) else (do
      idx ← lift_run (at existing_key 0)
      key ← lift_run (encoded (mid existing_key 1) true)
      ok (branch (set_child empty_children idx (allocated (leaf key stored))) none))

-- `Node::Leaf`
unfoldable pub insert_leaf :
    Inspector → List ℕ → Value → NibbleSlice → Value → Effects → Result (InsertAction × Effects)
insert_leaf inspector encoded_key stored partial value e = do
  existing_key ← key_slice encoded_key
  cp ← lift_run (common_prefix partial existing_key)
  if (cp == len existing_key) && (cp == len partial)
      then ok (
        if same stored value
            then restore (leaf encoded_key value)
            else replace (leaf encoded_key value),
        found_old (some stored) e,
      )
      else (if cp == 0
          then (do
            node ← leaf_branch existing_key stored
            (low, e') ← inspector node partial value e
            ok (replace (unwrap_node low), e'))
          else (if cp == len existing_key
              then (do
                (low, e') ← inspector (branch empty_children (some stored)) (mid partial cp) value e
                key ← lift_run (encoded existing_key false)
                ok (replace (extension key (allocated (unwrap_node low))), e'))
              else (do
                low_key ← lift_run (encoded (mid existing_key cp) true)
                (low, e') ← inspector (leaf low_key stored) (mid partial cp) value e
                key ← lift_run (encoded_leftmost existing_key cp false)
                ok (replace (extension key (allocated (unwrap_node low))), e'))))

-- The child of the branch that an extension is made into.
unfoldable pub extension_child : NibbleSlice → NodeHandle → Result NodeHandle
extension_child existing_key child =
    if len existing_key == 1
    then ok child
    else map_ok (λ key. allocated (extension key child))
        (lift_run (encoded (mid existing_key 1) false))

-- `Node::Extension`; the assertion fails at an empty key.
unfoldable pub insert_extension :
    NodeSource
    → Inspector
    → List ℕ
    → NodeHandle
    → NibbleSlice
    → Value
    → Effects
    → Result (InsertAction × Effects)
insert_extension db inspector encoded_key child partial value e = do
  existing_key ← key_slice encoded_key
  cp ← lift_run (common_prefix partial existing_key)
  if cp == 0
      then (if is_empty existing_key then panic else (do
        idx ← lift_run (at existing_key 0)
        lower ← extension_child existing_key child
        (low, e') ← inspector (branch (set_child empty_children idx lower) none) partial value e
        ok (replace (unwrap_node low), e')))
      else (if cp == len existing_key
          then (do
            (new_child, changed, e') ← insert_at db inspector child (mid partial cp) value e
            key ← lift_run (encoded existing_key false)
            let node = extension key (in_memory new_child)
            ok (if changed then replace node else restore node, e'))
          else (do
            low_key ← lift_run (encoded (mid existing_key cp) false)
            (low, e') ← inspector (extension low_key child) (mid partial cp) value e
            key ← lift_run (encoded_leftmost existing_key cp false)
            ok (replace (extension key (allocated (unwrap_node low))), e')))

unfoldable pub insert_inspector : NodeSource → ℕ → Inspector
insert_inspector db zero node partial value e = panic
insert_inspector db (suc fuel) empty partial value e =
    map_ok (λ key. (replace (leaf key value), e)) (lift_run (encoded partial true))
insert_inspector db (suc fuel) (branch children stored) partial value e =
    insert_branch db (insert_inspector db fuel) children stored partial value e
insert_inspector db (suc fuel) (leaf key stored) partial value e =
    insert_leaf (insert_inspector db fuel) key stored partial value e
insert_inspector db (suc fuel) (extension key child) partial value e =
    insert_extension db (insert_inspector db fuel) key child partial value e
