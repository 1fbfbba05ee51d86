-- ===== src/Trie/Mutable/Shape/Lookup.antt =====
-- The lookup of triedbmut.rs in a trie that is in memory.
use aion_utils.Prelude.{
  ℕ, zero, suc, ◌≤◌, ◌<◌, ◌≡◌, refl, ap, Bool, true, false, Option, none, some, List, [], ◌∷◌, ◌==◌,
  arith, ok, Bool-cases, inl, inr, length, take, drop, length-take, length-drop, All,
}
use aion_utils.Db.Map.{same, same→eq}
use aion_utils.Trie.Nibbles.{IsNibble}
use aion_utils.Trie.NibbleSlice.{NibbleSlice, is_empty, mid}
use aion_utils.Trie.NibbleSlice.Encode.{hex_prefix}
use aion_utils.Trie.NibbleSlice.Own.{
  Views, Views-IsNibble, len-Views, at-Views, mid-Views, from_encoded-Views, starts_with-Views,
  eq-Views,
}
use aion_utils.Trie.Mutable.{NodeSource, key_slice, lookup, lookup_child}
use aion_utils.Trie.Mutable.Shape.{Tree, tip, path, fork, node_of, value_at, IsTrie, IsForest}
use aion_utils.Trie.Mutable.Shape.Forests.{
  tree_at, handle_of, handle_at, child_at-children_of, value_in-tree_at, value_below,
  tree_at-IsTrie,
}

-- The key of a node read back.
pub key_slice-Views :
    (ks : List ℕ) (is_leaf : Bool)
    → All IsNibble ks
    → (t : NibbleSlice) × (key_slice (hex_prefix ks is_leaf) ≡ ok t) × Views t ks
unfolding key_slice
key_slice-Views ks is_leaf h =
    let (t, read, v) = from_encoded-Views ks is_leaf h in (t, rw read refl, v)

pub is_empty-Views : (s : NibbleSlice) (ns : List ℕ) → Views s ns → is_empty s ≡ (length ns == 0)
is_empty-Views s ns v = ap (λ n. n == 0) (len-Views s ns v)

pub front-length : (ks ns : List ℕ) → same ks (take (length ks) ns) ≡ true → length ks ≤ length ns
front-length ks ns e =
    omega (arith, ap length (same→eq ks (take (length ks) ns) e), length-take (length ks) ns)

module _ (db : NodeSource) where
  -- The lookup finds the value at the key's nibbles, on fuel for more rounds than there are nibbles.
  pub lookup-value_at :
      (fuel : ℕ) (t : Tree) (s : NibbleSlice) (ns : List ℕ)
      → IsTrie t
      → Views s ns
      → length ns < fuel
      → lookup db fuel s (handle_of t) ≡ ok (value_at t ns)
  unfolding lookup node_of value_at IsTrie
  lookup-value_at zero t s ns h v k = absurd (omega arith)
  lookup-value_at (suc fuel) (tip ks w) s ns h v k =
      let (slice, read, kv) = key_slice-Views ks true h in
      rw (read, eq-Views slice s ks ns kv v) refl
  lookup-value_at (suc fuel) (path ks t) s ns (hk, hpos, hf, ht) v k =
      let (slice, read, kv) = key_slice-Views ks false hk in
      let test = starts_with-Views s slice ns ks v kv in
      elim (Bool-cases (same ks (take (length ks) ns))) [
        | inl front ↦
            let fits = front-length ks ns front in
            rw (read, test, front, len-Views slice ks kv)
              (lookup-value_at fuel t (mid s (length ks)) (drop (length ks) ns) ht
                (mid-Views s ns v (length ks) fits) (omega (arith, length-drop (length ks) ns)))
        | inr other ↦ rw (read, test, other) refl
      ]
  lookup-value_at (suc fuel) (fork f w) s [] (hf, hs, hc) v k = rw (is_empty-Views s [] v) refl
  lookup-value_at (suc fuel) (fork f w) s (n ∷ ns) (hf, hs, hc) v k =
      let (small, rest) = Views-IsNibble s (n ∷ ns) v in
      let more : (length (n ∷ ns) == 0) ≡ false = ground arith in
      let below = mid-Views s (n ∷ ns) v 1 (omega arith) in
      rw
        (
          is_empty-Views s (n ∷ ns) v,
          more,
          at-Views s (n ∷ ns) v 0 (omega arith),
          child_at-children_of f n (omega arith),
          value_in-tree_at f n ns,
        )
        (go (tree_at f n) (tree_at-IsTrie f n)
          (λ u hu. lookup-value_at fuel u (mid s 1) ns hu below (omega arith)))
    where
      go :
          (m : Option Tree)
          → ((u : Tree) → IsForest f → m ≡ some u → IsTrie u)
          → ((u : Tree) → IsTrie u → lookup db fuel (mid s 1) (handle_of u) ≡ ok (value_at u ns))
          → lookup_child (lookup db fuel) s (handle_at m) ≡ ok (value_below m ns)
      go none good ih = refl
      go (some u) good ih = ih u (good u hf refl)
