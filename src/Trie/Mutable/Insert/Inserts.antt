-- ===== src/Trie/Mutable/Insert/Inserts.antt =====
-- What an insertion inspector returns, and `insert_at` from it.
use aion_utils.Prelude.{
  ℕ, ◌<◌, ◌≡◌, refl, ap, sym, ◌∙◌, Bool, true, false, some, List, ◌++◌, if◌then◌else◌, arith,
  length, take, drop, ok, length-take, take-append-drop,
}
use aion_utils.Db.Map.{same}
use aion_utils.Trie.NibbleSlice.{NibbleSlice}
use aion_utils.Trie.NibbleSlice.Compare.{shared}
use aion_utils.Trie.NibbleSlice.Fronts.{shared-le}
use aion_utils.Trie.Mutable.{H256, NodeSource, Value, Result, Node, fresh, Effects, inspect}
use aion_utils.Trie.Mutable.Insert.{
  InsertAction, replace, restore, unwrap_node, Inspector, insert_at,
}
use aion_utils.Trie.Mutable.Insert.Stubs.{at_start}
use aion_utils.Trie.Mutable.Shape.{Tree, path, node_of, value_at, IsTrie, IsFork}
use aion_utils.Trie.Mutable.Shape.Forests.{handle_of}
use aion_utils.Trie.Mutable.Shape.Reads.{
  Reading, under, set_at, value_at-path, under_ext, under-append, under-set_at,
}

-- A trie that reads as another with a key set, and is a fork if the other is.
pub record Inserted (ns : List ℕ) (v : Value) (t u : Tree) : Type 0 where
  pub shape : IsTrie u
  pub forks : IsFork t → IsFork u
  pub reads : (k : List ℕ) → value_at u k ≡ set_at ns v (value_at t) k

-- An inspector's result: the old value, and a node for the trie with the key set.
abbrev pub Inserts : Result (InsertAction × Effects) → List ℕ → Value → Tree → List H256 → Type 0
Inserts r ns v t dead =
    (u : Tree) × (a : InsertAction) × (r
      ≡ ok (a, record { old_val = value_at t ns; death_row = dead }))
    × (unwrap_node a ≡ node_of u)
    × Inserted ns v t u

-- `insert_at` on a handle that owns its node.
pub insert_at_lem :
    (db : NodeSource) (inspector : Inspector) (t : Tree) (s : NibbleSlice) (ns : List ℕ) (v : Value)
    (dead : List H256)
    → Inserts (inspector (node_of t) s v (at_start dead)) ns v t dead
    → (u : Tree) × (changed : Bool) × (insert_at db inspector (handle_of t) s v (at_start dead)
        ≡ ok (fresh (node_of u), changed, record { old_val = value_at t ns; death_row = dead }))
      × Inserted ns v t u
unfolding insert_at inspect
insert_at_lem db inspector t s ns v dead (u, replace n, run, node, good) =
    (u, true, rw (run, node) refl, good)
insert_at_lem db inspector t s ns v dead (u, restore n, run, node, good) =
    (u, false, rw (run, node) refl, good)

pub path_reads :
    (js ms ns : List ℕ) (g : Reading) (t u : Tree) (v : Value)
    → js ++ ms ≡ ns
    → ((k : List ℕ) → under js g k ≡ value_at t k)
    → ((k : List ℕ) → value_at u k ≡ set_at ms v g k)
    → (k : List ℕ) → value_at (path js u) k ≡ set_at ns v (value_at t) k
path_reads js ms ns g t u v whole base reads k =
    value_at-path js u k
    ∙ under_ext js (value_at u) (set_at ms v g) k reads
    ∙ under-set_at js ms v g k
    ∙ ap (λ n. set_at n v (under js g) k) whole
    ∙ ap (λ m. if same k ns then some v else m) (base k)

pub either_node :
    (b : Bool) (n : Node) (m : Node) → n ≡ m → unwrap_node (if b then replace n else restore n) ≡ m
either_node true n m e = e
either_node false n m e = e

-- A reading behind the front of a key, and behind the whole of it.
pub under_split :
    (c : ℕ) (ks : List ℕ) (g h : Reading) (k : List ℕ)
    → ((j : List ℕ) → h j ≡ under (drop c ks) g j)
    → under (take c ks) h k ≡ under ks g k
under_split c ks g h k e =
    under_ext (take c ks) h (under (drop c ks) g) k e
    ∙ sym (under-append (take c ks) (drop c ks) g k)
    ∙ ap (λ t. under t g k) (take-append-drop c ks)

pub front_long : (ns ks : List ℕ) → 0 < shared ns ks → 0 < length (take (shared ns ks) ks)
front_long ns ks h = let (l, r) = shared-le ns ks in omega (arith, length-take (shared ns ks) ks)
