-- ===== src/Trie/Mutable/Insert/Split.antt =====
-- An insertion that splits a leaf or an extension.
use aion_utils.Prelude.{
  ℕ, suc, ◌+◌, ◌<◌, ◌≡◌, refl, ap, ◌∙◌, true, false, ◌&&◌, none, some, List, [], ◌∷◌, ◌==◌,
  if◌then◌else◌, arith, length, ok, All,
}
use aion_utils.Db.Map.{same}
use aion_utils.Trie.Nibbles.{IsNibble}
use aion_utils.Trie.NibbleSlice.{NibbleSlice}
use aion_utils.Trie.NibbleSlice.Compare.{shared}
use aion_utils.Trie.NibbleSlice.Own.{Views, len-Views, at-Views, common_prefix-Views}
use aion_utils.Trie.Mutable.{H256, NodeSource, Value, Node}
use aion_utils.Trie.Mutable.Insert.{replace, insert_leaf, insert_extension, insert_inspector}
use aion_utils.Trie.Mutable.Shape.{Tree, tip, path, fork, node_of, value_at, grown, IsTrie, IsFork}
use aion_utils.Trie.Mutable.Shape.Forests.{
  put_tree, gaps, set_child-children_of, tree_at-gaps, slots-gaps, gaps-IsForest,
}
use aion_utils.Trie.Mutable.Shape.Lookup.{key_slice-Views, is_empty-Views}
use aion_utils.Trie.Mutable.Shape.Reads.{Reading}
use aion_utils.Trie.Mutable.Insert.Stubs.{
  Forked, Free, Stub, at_start, extension-Stub, insert_stub, leaf-Stub,
}

module _ (db : NodeSource) (fuel : ℕ) (s : NibbleSlice) (ns : List ℕ) (v : Value) (dead : List H256)
    (vs : Views s ns) where
  insert_in-Stub :
      (n : Node) (ks : List ℕ) (g : Reading)
      → Stub n ks g
      → shared ns ks ≡ 0
      → 0 < length ns + length ks
      → (u : Tree) × (insert_inspector db (suc fuel) n s v (at_start dead)
          ≡ ok (replace (node_of u), at_start dead))
        × Forked ns v g u
  insert_in-Stub n ks g b e some_key =
      let (u, run, f) =
        insert_stub db fuel b.forest b.value s ns v dead b.is_forest b.sixteen b.single vs
          (b.free ns e some_key) in
      (
        u,
        rw b.stands run,
        record {
          shape = f.shape;
          forks = f.forks;
          reads = λ k. f.reads k ∙ ap (λ m. if same k ns then some v else m) (b.reads k);
        },
      )

  -- A leaf whose key has nothing in common with the new one, of which not both are empty.
  pub split_leaf :
      (ks : List ℕ) (w : Value)
      → All IsNibble ks
      → shared ns ks ≡ 0
      → 0 < length ns + length ks
      → (u : Tree) × (insert_inspector db (suc (suc fuel)) (node_of (tip ks w)) s v (at_start dead)
          ≡ ok (replace (node_of u), at_start dead))
        × Forked ns v (value_at (tip ks w)) u
  unfolding insert_inspector insert_leaf node_of
  split_leaf ks w hk e some_key =
      let (slice, read, kv) = key_slice-Views ks true hk in
      let (n, made, stub) = leaf-Stub slice ks w kv in
      let (u, run, f) = insert_in-Stub n ks (value_at (tip ks w)) stub e some_key in
      let apart : ((0 == length ks) && (0 == length ns)) ≡ false = ground arith in
      (
        u,
        rw
            (
              read,
              common_prefix-Views s slice ns ks vs kv,
              e,
              len-Views slice ks kv,
              len-Views s ns vs,
              apart,
              made,
              run,
            )
            refl,
        f,
      )

  -- An extension whose key has nothing in common with the new one.
  pub split_extension :
      (ks : List ℕ) (t : Tree)
      → All IsNibble ks
      → 0 < length ks
      → IsTrie t
      → IsFork t
      → shared ns ks ≡ 0
      → (u : Tree) × (insert_inspector db (suc (suc fuel)) (node_of (path ks t)) s v (at_start dead)
          ≡ ok (replace (node_of u), at_start dead))
        × Forked ns v (value_at (path ks t)) u
  unfolding insert_inspector insert_extension node_of
  split_extension [] t hk long ht hf e = absurd (omega arith)
  split_extension (k ∷ ks) t hk long ht hf e =
      let (slice, read, kv) = key_slice-Views (k ∷ ks) false hk in
      let (l, made, stub) = extension-Stub slice k ks t kv ht hf in
      let (u, run, f) =
        insert_in-Stub (node_of (fork (put_tree (gaps 16) k l) none)) (k ∷ ks)
          (value_at (path (k ∷ ks) t)) stub e (omega arith) in
      let more : (length (k ∷ ks) == 0) ≡ false = ground arith in
      let at_place = set_child-children_of (gaps 16) k l in
      (
        u,
        rw
            (
              read,
              common_prefix-Views s slice ns (k ∷ ks) vs kv,
              e,
              is_empty-Views slice (k ∷ ks) kv,
              more,
              at-Views slice (k ∷ ks) kv 0 (omega arith),
              made,
              at_place,
              run,
            )
            refl,
        f,
      )

  -- A branch with only a value, for a key that goes on.
  pub insert_in_value :
      (w : Value)
      → 0 < length ns
      → (u : Tree) × (insert_inspector db
            (suc fuel)
            (node_of (fork (gaps 16) (some w)))
            s
            v
            (at_start dead)
          ≡ ok (replace (node_of u), at_start dead))
        × Forked ns v (value_at (fork (gaps 16) (some w))) u
  unfolding grown
  insert_in_value w h =
      insert_stub db fuel (gaps 16) (some w) s ns v dead (gaps-IsForest 16) (slots-gaps 16) refl vs
        (free_at ns h)
    where
      free_at : (ns : List ℕ) → 0 < length ns → Free (gaps 16) (some w) ns
      free_at [] some_key = absurd (omega arith)
      free_at (m ∷ ns) some_key = tree_at-gaps 16 m
