-- ===== src/Trie/Mutable/Insert/Laws.antt =====
-- `insert_inspector` on a trie in its canonical form.
use aion_utils.Prelude.{
  ℕ, zero, suc, ◌+◌, ◌≤◌, ◌≡◌, refl, Option, none, some, List, [], ◌∷◌, ◌==◌, arith, Bool-cases,
  inl, inr, length, drop, ok, ==_iff, All, All-drop, length-drop,
}
use aion_utils.Trie.Nibbles.{IsNibble}
use aion_utils.Trie.NibbleSlice.{NibbleSlice, mid}
use aion_utils.Trie.NibbleSlice.Compare.{shared}
use aion_utils.Trie.NibbleSlice.Fronts.{shared-le, shared-drop-shared}
use aion_utils.Trie.NibbleSlice.Own.{Views, mid-Views}
use aion_utils.Trie.Mutable.{H256, NodeSource, Value, Result, Effects}
use aion_utils.Trie.Mutable.Insert.{InsertAction, replace, insert_inspector}
use aion_utils.Trie.Mutable.Insert.Stubs.{at_start, Forked}
use aion_utils.Trie.Mutable.Insert.Split.{split_leaf, split_extension, insert_in_value}
use aion_utils.Trie.Mutable.Insert.Inserts.{Inserts}
use aion_utils.Trie.Mutable.Insert.Leaves.{
  leaf_here, leaf_full, leaf_partial, other_key, longer_key,
}
use aion_utils.Trie.Mutable.Insert.Extensions.{extension_full, extension_partial, off_path}
use aion_utils.Trie.Mutable.Insert.Forks.{branch_value, branch_gap, branch_child}
use aion_utils.Trie.Mutable.Shape.{
  Tree, tip, path, fork, Forest, node_of, value_at, slots, grown, held, IsTrie, IsForest,
}
use aion_utils.Trie.Mutable.Shape.Forests.{tree_at, tree_at-IsTrie}

-- A trie that is split at its root.
from_split :
    (ns : List ℕ) (v : Value) (t : Tree) (dead : List H256) (r : Result (InsertAction × Effects))
    → value_at t ns ≡ none
    → ((u : Tree) × (r ≡ ok (replace (node_of u), at_start dead)) × Forked ns v (value_at t) u)
    → Inserts r ns v t dead
from_split ns v t dead r old (u, run, f) = (
  u,
  replace (node_of u),
  rw old run,
  refl,
  record { shape = f.shape; forks = λ _. f.forks; reads = f.reads },
)

module _ (db : NodeSource) (fuel : ℕ) (s : NibbleSlice) (ns : List ℕ) (v : Value) (dead : List H256)
    (vs : Views s ns) where
  insert_in_tip :
      (ks : List ℕ) (w : Value)
      → All IsNibble ks
      → Inserts
          (insert_inspector db (suc (suc (suc fuel))) (node_of (tip ks w)) s v (at_start dead))
          ns
          v
          (tip ks w)
          dead
  unfolding insert_inspector node_of
  insert_in_tip ks w hk =
      let (le, le') = shared-le ns ks in
      let again = insert_inspector db (suc (suc fuel)) in
      let below = mid-Views s ns vs (shared ns ks) le in
      elim (Bool-cases (shared ns ks == length ks)) [
        | inl e ↦ elim (Bool-cases (shared ns ks == length ns)) [
          | inl f ↦ leaf_here again s ns v dead vs ks w hk ((==_iff _ _).0 e) ((==_iff _ _).0 f)
          | inr f ↦ elim (Bool-cases (length ks == 0)) [
            | inl z ↦
                from_split ns v (tip ks w) dead _
                  (longer_key again s ns v dead vs ks w hk (ground arith))
                  (split_leaf db (suc fuel) s ns v dead vs ks w hk (ground arith) (ground arith))
            | inr p ↦
                let (u, run, low) =
                  insert_in_value db (suc fuel) (mid s (shared ns ks)) (drop (shared ns ks) ns) v
                    dead below w (ground (arith, length-drop (shared ns ks) ns)) in
                leaf_full again s ns v dead vs ks w hk u ((==_iff _ _).0 e) (ground arith)
                  (ground arith) run low
          ]
        ]
        | inr e ↦ elim (Bool-cases (shared ns ks == 0)) [
          | inl z ↦
              from_split ns v (tip ks w) dead _
                (other_key again s ns v dead vs ks w hk (ground arith))
                (split_leaf db (suc fuel) s ns v dead vs ks w hk ((==_iff _ _).0 z) (ground arith))
          | inr p ↦
              let (u, run, low) =
                split_leaf db fuel (mid s (shared ns ks)) (drop (shared ns ks) ns) v dead below
                  (drop (shared ns ks) ks) w (All-drop IsNibble (shared ns ks) ks hk)
                  (shared-drop-shared ns ks) (ground (arith, length-drop (shared ns ks) ks)) in
              leaf_partial again s ns v dead vs ks w hk u (ground arith) (ground arith) run low
        ]
      ]

  insert_in_path :
      (ks : List ℕ) (t : Tree)
      → IsTrie (path ks t)
      → (shared ns ks ≡ length ks
          → Inserts
              (insert_inspector db
                (suc (suc fuel))
                (node_of t)
                (mid s (shared ns ks))
                v
                (at_start dead))
              (drop (shared ns ks) ns)
              v
              t
              dead)
      → Inserts
          (insert_inspector db (suc (suc (suc fuel))) (node_of (path ks t)) s v (at_start dead))
          ns
          v
          (path ks t)
          dead
  unfolding insert_inspector node_of IsTrie
  insert_in_path ks t (hk, long, hf, ht) again_below =
      let (le, le') = shared-le ns ks in
      let again = insert_inspector db (suc (suc fuel)) in
      let below = mid-Views s ns vs (shared ns ks) le in
      elim (Bool-cases (shared ns ks == length ks)) [
        | inl e ↦
            extension_full db again s ns v dead vs ks t hk long hf ht ((==_iff _ _).0 e)
              (again_below ((==_iff _ _).0 e))
        | inr e ↦ elim (Bool-cases (shared ns ks == 0)) [
          | inl z ↦
              from_split ns v (path ks t) dead _
                (off_path db again s ns v dead vs ks t hk long hf ht (ground arith))
                (split_extension db (suc fuel) s ns v dead vs ks t hk long ht hf ((==_iff _ _).0 z))
          | inr p ↦
              let (u, run, low) =
                split_extension db fuel (mid s (shared ns ks)) (drop (shared ns ks) ns) v dead below
                  (drop (shared ns ks) ks) t (All-drop IsNibble (shared ns ks) ks hk)
                  (ground (arith, length-drop (shared ns ks) ks)) ht hf
                  (shared-drop-shared ns ks) in
              extension_partial db again s ns v dead vs ks t hk long hf ht u (ground arith)
                (ground arith) run low
        ]
      ]

insert_in_fork :
    (db : NodeSource) (fuel : ℕ) (s : NibbleSlice) (n : ℕ) (ns : List ℕ) (v : Value)
    (dead : List H256) (vs : Views s (n ∷ ns)) (f : Forest) (w : Option Value)
    → IsForest f
    → slots f ≡ 16
    → 2 ≤ grown f + held w
    → (m : Option Tree) → tree_at f n ≡ m
    → ((t : Tree)
        → IsTrie t
        → Inserts (insert_inspector db fuel (node_of t) (mid s 1) v (at_start dead)) ns v t dead)
    → Inserts
        (insert_inspector db (suc fuel) (node_of (fork f w)) s v (at_start dead))
        (n ∷ ns)
        v
        (fork f w)
        dead
unfolding insert_inspector node_of
insert_in_fork db fuel s n ns v dead vs f w hf hs hc none free again =
    branch_gap db (insert_inspector db fuel) s v dead f w hf hs hc n ns vs free
insert_in_fork db fuel s n ns v dead vs f w hf hs hc (some t) there again =
    branch_child db (insert_inspector db fuel) s v dead f w hf hs hc n ns vs t there
      (again t (tree_at-IsTrie f n t hf there))

module _ (db : NodeSource) (v : Value) (dead : List H256) where
  -- On a trie in its canonical form, `insert_inspector` returns, on fuel for three rounds more than
  -- there are nibbles: the old value, and a node for a trie in its canonical form in which the key is
  -- set and every other key reads as before.
  pub insert_inspector-value_at :
      (fuel : ℕ) (t : Tree) (s : NibbleSlice) (ns : List ℕ)
      → IsTrie t
      → Views s ns
      → length ns + 3 ≤ fuel
      → Inserts (insert_inspector db fuel (node_of t) s v (at_start dead)) ns v t dead
  unfolding insert_inspector node_of IsTrie
  insert_inspector-value_at zero t s ns h vs k = absurd (omega arith)
  insert_inspector-value_at (suc zero) t s ns h vs k = absurd (omega arith)
  insert_inspector-value_at (suc (suc zero)) t s ns h vs k = absurd (omega arith)
  insert_inspector-value_at (suc (suc (suc fuel))) (tip ks w) s ns h vs k =
      insert_in_tip db fuel s ns v dead vs ks w h
  insert_inspector-value_at (suc (suc (suc fuel))) (path ks t) s ns (hk, long, hf, ht) vs k =
      let (le, le') = shared-le ns ks in
      insert_in_path db fuel s ns v dead vs ks t (hk, long, hf, ht)
        (λ e.
          insert_inspector-value_at (suc (suc fuel)) t (mid s (shared ns ks))
            (drop (shared ns ks) ns) ht (mid-Views s ns vs (shared ns ks) le)
            (omega (arith, length-drop (shared ns ks) ns)))
  insert_inspector-value_at (suc (suc (suc fuel))) (fork f w) s [] (hf, hs, hc) vs k =
      branch_value db (insert_inspector db (suc (suc fuel))) s v dead f w hf hs hc vs
  insert_inspector-value_at (suc (suc (suc fuel))) (fork f w) s (n ∷ ns) (hf, hs, hc) vs k =
      insert_in_fork db (suc (suc fuel)) s n ns v dead vs f w hf hs hc (tree_at f n) refl (λ t ht.
        insert_inspector-value_at (suc (suc fuel)) t (mid s 1) ns ht
          (mid-Views s (n ∷ ns) vs 1 (omega arith)) (omega arith))
