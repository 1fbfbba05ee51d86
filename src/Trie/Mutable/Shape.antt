-- ===== src/Trie/Mutable/Shape.antt =====
-- What a trie in memory stands for: a tree over lists of nibbles, the node that represents it, and
-- the value that it holds at a list of nibbles.
pub mod Forests
pub mod Lookup
pub mod Reads
pub mod Filled
pub mod Canonical
use aion_utils.Prelude.{
  ℕ, zero, suc, ◌+◌, ◌≤◌, ◌<◌, ◌≡◌, Bool, true, false, Option, none, some, List, [], ◌∷◌,
  if◌then◌else◌, length, drop, take, All,
}
use aion_utils.Db.Map.{same}
use aion_utils.Trie.Nibbles.{IsNibble}
use aion_utils.Trie.NibbleSlice.Encode.{hex_prefix}
use aion_utils.Trie.Mutable.{
  Value, Node, leaf, extension, branch, in_memory, fresh, Children, end, vacant, occupied,
}

mutual
  pub data Tree : Type 0 where
    tip : List ℕ → Value → Tree
    path : List ℕ → Tree → Tree
    fork : Forest → Option Value → Tree

  pub data Forest : Type 0 where
    nil : Forest
    gap : Forest → Forest
    grow : Tree → Forest → Forest

unfoldable mutual
  pub node_of : Tree → Node
  node_of (tip ks v) = leaf (hex_prefix ks true) v
  node_of (path ks t) = extension (hex_prefix ks false) (in_memory (fresh (node_of t)))
  node_of (fork f v) = branch (children_of f) v

  pub children_of : Forest → Children
  children_of nil = end
  children_of (gap f) = vacant (children_of f)
  children_of (grow t f) = occupied (in_memory (fresh (node_of t))) (children_of f)

-- The value at a list of nibbles.
unfoldable mutual
  pub value_at : Tree → List ℕ → Option Value
  value_at (tip ks v) k = if same ks k then some v else none
  value_at (path ks t) k =
      if same ks (take (length ks) k) then value_at t (drop (length ks) k) else none
  value_at (fork f v) [] = v
  value_at (fork f v) (n ∷ k) = value_in f n k

  pub value_in : Forest → ℕ → List ℕ → Option Value
  value_in nil n k = none
  value_in (gap f) zero k = none
  value_in (gap f) (suc n) k = value_in f n k
  value_in (grow t f) zero k = value_at t k
  value_in (grow t f) (suc n) k = value_in f n k

unfoldable pub slots : Forest → ℕ
slots nil = 0
slots (gap f) = suc (slots f)
slots (grow t f) = suc (slots f)

unfoldable pub grown : Forest → ℕ
grown nil = 0
grown (gap f) = grown f
grown (grow t f) = suc (grown f)

abbrev pub held : Option Value → ℕ
held none = 0
held (some v) = 1

abbrev pub IsFork : Tree → Type 0
IsFork (tip ks v) = ⊥
IsFork (path ks t) = ⊥
IsFork (fork f v) = Unit {0}

-- A trie in its canonical form: a path has a key and ends in a fork, and a fork has sixteen places
-- and at least two things in them or at itself.
unfoldable mutual
  pub IsTrie : Tree → Type 0
  IsTrie (tip ks v) = All IsNibble ks
  IsTrie (path ks t) = All IsNibble ks × (0 < length ks) × IsFork t × IsTrie t
  IsTrie (fork f v) = IsForest f × (slots f ≡ 16) × (2 ≤ grown f + held v)

  pub IsForest : Forest → Type 0
  IsForest nil = Unit {0}
  IsForest (gap f) = IsForest f
  IsForest (grow t f) = IsTrie t × IsForest f
