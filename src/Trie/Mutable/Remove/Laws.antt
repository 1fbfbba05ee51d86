-- ===== src/Trie/Mutable/Remove/Laws.antt =====
-- `remove_inspector` on a trie in its canonical form.
use aion_utils.Prelude.{
  ℕ, zero, suc, ◌+◌, ◌≤◌, ◌≡◌, refl, Option, none, some, List, [], ◌∷◌, arith, length, drop,
  length-drop,
}
use aion_utils.Trie.NibbleSlice.{NibbleSlice, mid}
use aion_utils.Trie.NibbleSlice.Compare.{shared}
use aion_utils.Trie.NibbleSlice.Fronts.{shared-le}
use aion_utils.Trie.NibbleSlice.Own.{Views, mid-Views}
use aion_utils.Trie.Mutable.{H256, NodeSource, Value}
use aion_utils.Trie.Mutable.Remove.{remove_inspector}
use aion_utils.Trie.Mutable.Insert.Stubs.{at_start}
use aion_utils.Trie.Mutable.Shape.{
  Tree, tip, path, fork, Forest, node_of, slots, grown, held, IsTrie, IsForest,
}
use aion_utils.Trie.Mutable.Shape.Forests.{tree_at, tree_at-IsTrie}
use aion_utils.Trie.Mutable.Remove.Removes.{Removes, remove_at_lem}
use aion_utils.Trie.Mutable.Remove.Paths.{remove_path, remove_tip}
use aion_utils.Trie.Mutable.Remove.Forks.{remove_child_lem, remove_gap, remove_value}

remove_in_fork :
    (db : NodeSource) (fuel : ℕ) (s : NibbleSlice) (n : ℕ) (ns : List ℕ) (dead : List H256)
    (vs : Views s (n ∷ ns)) (f : Forest) (w : Option Value)
    → IsForest f
    → slots f ≡ 16
    → 2 ≤ grown f + held w
    → (m : Option Tree) → tree_at f n ≡ m
    → ((t : Tree)
        → IsTrie t
        → Removes
            (remove_inspector db (suc (suc (suc fuel))) (node_of t) (mid s 1) (at_start dead))
            ns
            t
            dead)
    → Removes
        (remove_inspector db (suc (suc (suc (suc fuel)))) (node_of (fork f w)) s (at_start dead))
        (n ∷ ns)
        (fork f w)
        dead
unfolding remove_inspector node_of
remove_in_fork db fuel s n ns dead vs f w hf hs hc none free again =
    remove_gap db fuel (remove_inspector db (suc (suc (suc fuel)))) s dead f w hf hs hc n ns vs free
remove_in_fork db fuel s n ns dead vs f w hf hs hc (some t) there again =
    remove_child_lem db fuel (remove_inspector db (suc (suc (suc fuel)))) s dead f w hf hs hc n ns
      vs t there
      (remove_at_lem db (remove_inspector db (suc (suc (suc fuel)))) t (mid s 1) ns dead
        (again t (tree_at-IsTrie f n t hf there)))

module _ (db : NodeSource) (dead : List H256) where
  -- On a trie in its canonical form, `remove_inspector` returns, on fuel for four rounds more than
  -- there are nibbles: the old value, and a node for a trie in its canonical form in which the key is
  -- left out and every other key reads as before, or a deletion if no other key is there.
  pub remove_inspector-value_at :
      (fuel : ℕ) (t : Tree) (s : NibbleSlice) (ns : List ℕ)
      → IsTrie t
      → Views s ns
      → length ns + 4 ≤ fuel
      → Removes (remove_inspector db fuel (node_of t) s (at_start dead)) ns t dead
  unfolding remove_inspector node_of IsTrie
  remove_inspector-value_at zero t s ns h vs k = absurd (omega arith)
  remove_inspector-value_at (suc zero) t s ns h vs k = absurd (omega arith)
  remove_inspector-value_at (suc (suc zero)) t s ns h vs k = absurd (omega arith)
  remove_inspector-value_at (suc (suc (suc zero))) t s ns h vs k = absurd (omega arith)
  remove_inspector-value_at (suc (suc (suc (suc fuel)))) (tip ks w) s ns h vs k =
      remove_tip s ns dead vs ks w h
  remove_inspector-value_at (suc (suc (suc (suc fuel)))) (path ks t) s ns (hk, long, hf, ht) vs k =
      let again = remove_inspector db (suc (suc (suc fuel))) in
      let (le, le') = shared-le ns ks in
      remove_path db (suc fuel) again s ns dead vs ks t hk long hf ht (λ e.
        remove_at_lem db again t (mid s (shared ns ks)) (drop (shared ns ks) ns) dead (
          remove_inspector-value_at (suc (suc (suc fuel))) t (mid s (shared ns ks))
            (drop (shared ns ks) ns) ht (mid-Views s ns vs (shared ns ks) le)
            (omega (arith, length-drop (shared ns ks) ns))))
  remove_inspector-value_at (suc (suc (suc (suc fuel)))) (fork f w) s [] (hf, hs, hc) vs k =
      remove_value db fuel (remove_inspector db (suc (suc (suc fuel)))) s dead f w hf hs hc vs
  remove_inspector-value_at (suc (suc (suc (suc fuel)))) (fork f w) s (n ∷ ns) (hf, hs, hc) vs k =
      remove_in_fork db fuel s n ns dead vs f w hf hs hc (tree_at f n) refl (λ t ht.
        remove_inspector-value_at (suc (suc (suc fuel))) t (mid s 1) ns ht
          (mid-Views s (n ∷ ns) vs 1 (omega arith)) (omega arith))
