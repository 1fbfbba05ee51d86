-- ===== src/Trie/Mutable/Remove/Forks.antt =====
-- The removal inspector at a branch, from what the call that it makes returns.
use aion_utils.Prelude.{
  ℕ, suc, ◌+◌, ◌≤◌, ◌<◌, ◌≡◌, refl, ap, sym, ◌∙◌, false, Option, none, some, List, [], ◌∷◌, ◌==◌,
  arith, length,
}
use aion_utils.Trie.NibbleSlice.{NibbleSlice, mid}
use aion_utils.Trie.NibbleSlice.Own.{Views, Views-IsNibble, at-Views}
use aion_utils.Trie.Mutable.{H256, NodeSource, Value}
use aion_utils.Trie.Mutable.Remove.{Inspector, remove_at, remove_branch}
use aion_utils.Trie.Mutable.Remove.Fix.{fix_fork}
use aion_utils.Trie.Mutable.Insert.Stubs.{at_start}
use aion_utils.Trie.Mutable.Shape.{
  Tree, fork, Forest, node_of, children_of, value_at, value_in, slots, grown, held, IsTrie,
  IsForest,
}
use aion_utils.Trie.Mutable.Shape.Forests.{
  tree_at, put_tree, cut, handle_of, value_below, child_at-children_of, set_child-children_of,
  clear_child-children_of, value_in-tree_at, slots-put_tree, slots-cut, grown-put_tree, grown-cut,
  put_tree-IsForest, cut-IsForest,
}
use aion_utils.Trie.Mutable.Shape.Lookup.{is_empty-Views}
use aion_utils.Trie.Mutable.Shape.Reads.{
  unset_at, value_at-fork_none, value_at-fork_put_unset, value_at-fork_cut, left_alone,
}
use aion_utils.Trie.Mutable.Remove.Removes.{
  Removes, RemovesAt, Without, changed, ended, gone, replaced, restored, unchanged,
}

module _ (db : NodeSource) (fuel : ℕ) (inspector : Inspector) (s : NibbleSlice) (dead : List H256)
    (f : Forest) (w : Option Value) (hf : IsForest f) (hs : slots f ≡ 16)
    (hc : 2 ≤ grown f + held w) where
  pub remove_value :
      Views s []
      → Removes
          (remove_branch db (suc (suc (suc fuel))) inspector (children_of f) w s (at_start dead))
          []
          (fork f w)
          dead
  unfolding remove_branch node_of value_at IsTrie
  remove_value vs = go w hc
    where
      go :
          (w : Option Value)
          → 2 ≤ grown f + held w
          → Removes
              (remove_branch db
                (suc (suc (suc fuel)))
                inspector
                (children_of f)
                w
                s
                (at_start dead))
              []
              (fork f w)
              dead
      go none hc =
          restored (fork f none) (rw (is_empty-Views s [] vs) refl) (hf, hs, hc) (λ k. k)
            (left_alone [] (value_at (fork f none)) refl)
      go (some v) hc =
          let (u, fixed, good) =
            fix_fork db fuel (record { old_val = some v; death_row = dead }) f hf hs none
              (omega arith) in
          replaced u (rw (is_empty-Views s [] vs, fixed) refl) good.shape
            (λ k. good.reads k ∙ value_at-fork_none f (some v) k)

  module _ (n : ℕ) (ns : List ℕ) (vs : Views s (n ∷ ns)) where
    pub remove_gap :
        tree_at f n ≡ none
        → Removes
            (remove_branch db (suc (suc (suc fuel))) inspector (children_of f) w s (at_start dead))
            (n ∷ ns)
            (fork f w)
            dead
    unfolding remove_branch node_of value_at IsTrie
    remove_gap free =
        let (small, rest) = Views-IsNibble s (n ∷ ns) vs in
        let more : (length (n ∷ ns) == 0) ≡ false = ground arith in
        let inside : n < slots f = omega arith in
        let old : value_in f n ns ≡ none =
          value_in-tree_at f n ns ∙ ap (λ m. value_below m ns) free in
        restored (fork f w)
          (rw
            (
              is_empty-Views s (n ∷ ns) vs,
              more,
              at-Views s (n ∷ ns) vs 0 (omega arith),
              child_at-children_of f n inside,
              free,
              old,
            )
            refl)
          (hf, hs, hc) (λ k. k) (left_alone (n ∷ ns) (value_at (fork f w)) old)

    pub remove_child_lem :
        (t : Tree)
        → tree_at f n ≡ some t
        → RemovesAt (remove_at db inspector (handle_of t) (mid s 1) (at_start dead)) ns t dead
        → Removes
            (remove_branch db (suc (suc (suc fuel))) inspector (children_of f) w s (at_start dead))
            (n ∷ ns)
            (fork f w)
            dead
    unfolding remove_branch node_of value_at IsTrie
    remove_child_lem t there below =
        let (small, rest) = Views-IsNibble s (n ∷ ns) vs in
        let more : (length (n ∷ ns) == 0) ≡ false = ground arith in
        let inside : n < slots f = omega arith in
        let old : value_in f n ns ≡ value_at t ns =
          value_in-tree_at f n ns ∙ ap (λ m. value_below m ns) there in
        let first = at-Views s (n ∷ ns) vs 0 (omega arith) in
        elim below [
          | gone run left nf ↦
              let (u, fixed, good) =
                fix_fork db fuel (ended ns t dead) (cut f n) (cut-IsForest f n hf)
                  (slots-cut f n ∙ hs) w (omega (arith, grown-cut f n t there)) in
              replaced u
                (rw
                  (
                    is_empty-Views s (n ∷ ns) vs,
                    more,
                    first,
                    child_at-children_of f n inside,
                    there,
                    run,
                    clear_child-children_of f n,
                    fixed,
                    old,
                  )
                  refl)
                good.shape
                (λ k.
                  good.reads k
                  ∙ value_at-fork_cut f w n ns inside k
                      (λ j. ap (λ m. unset_at ns (value_below m) j) there ∙ left j))
          | unchanged u run h nf reads ↦
              restored (fork (put_tree f n u) w)
                (rw
                  (
                    is_empty-Views s (n ∷ ns) vs,
                    more,
                    first,
                    child_at-children_of f n inside,
                    there,
                    run,
                    set_child-children_of f n u,
                    old,
                  )
                  refl)
                (put_shape u h) (λ k. k) (put_reads u reads)
          | changed u run h reads ↦
              replaced (fork (put_tree f n u) w)
                (rw
                  (
                    is_empty-Views s (n ∷ ns) vs,
                    more,
                    first,
                    child_at-children_of f n inside,
                    there,
                    run,
                    set_child-children_of f n u,
                    old,
                  )
                  refl)
                (put_shape u h) (put_reads u reads)
        ]
      where
        n_inside : n < slots f
        n_inside = let (small, rest) = Views-IsNibble s (n ∷ ns) vs in omega arith

        put_shape : (u : Tree) → IsTrie u → IsTrie (fork (put_tree f n u) w)
        put_shape u h = (
          put_tree-IsForest f n u hf h,
          slots-put_tree f n u ∙ hs,
          omega (arith, grown-put_tree f n u n_inside),
        )

        put_reads :
            (u : Tree) → Without ns t u → Without (n ∷ ns) (fork f w) (fork (put_tree f n u) w)
        put_reads u reads k =
            value_at-fork_put_unset f w n ns n_inside u k
              (λ j. reads j ∙ ap (λ m. unset_at ns (value_below m) j) (sym there))
