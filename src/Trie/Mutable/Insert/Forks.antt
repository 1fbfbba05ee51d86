-- ===== src/Trie/Mutable/Insert/Forks.antt =====
-- The insertion inspector at a branch, from what the call that it makes returns.
use aion_utils.Prelude.{
  ℕ, ◌+◌, ◌≤◌, ◌<◌, ◌≡◌, refl, ap, sym, ◌∙◌, Bool, true, false, Option, none, some, List, [], ◌∷◌,
  ◌==◌, if◌then◌else◌, arith, length,
}
use aion_utils.Db.Map.{same}
use aion_utils.Trie.NibbleSlice.{NibbleSlice, mid}
use aion_utils.Trie.NibbleSlice.Own.{Views, Views-IsNibble, at-Views, mid-Views, encoded-Views}
use aion_utils.Trie.Mutable.{H256, NodeSource, Value}
use aion_utils.Trie.Mutable.Insert.{
  replace, restore, unwrap_node, Inspector, insert_branch, same_value,
}
use aion_utils.Trie.Mutable.Insert.Stubs.{at_start}
use aion_utils.Trie.Mutable.Insert.Inserts.{Inserts, insert_at_lem, either_node}
use aion_utils.Trie.Mutable.Shape.{
  Tree, tip, fork, Forest, node_of, children_of, value_at, slots, grown, held, IsTrie, IsForest,
}
use aion_utils.Trie.Mutable.Shape.Forests.{
  tree_at, put_tree, value_below, child_at-children_of, set_child-children_of, value_in-tree_at,
  slots-put_tree, grown-put_tree, added, put_tree-IsForest,
}
use aion_utils.Trie.Mutable.Shape.Lookup.{is_empty-Views}
use aion_utils.Trie.Mutable.Shape.Reads.{value_at-fork_value, value_at-fork_put, tip-set_at}

held-le : (w : Option Value) → held w ≤ 1
held-le none = omega arith
held-le (some v) = omega arith

module _ (db : NodeSource) (inspector : Inspector) (s : NibbleSlice) (v : Value) (dead : List H256)
    (f : Forest) (w : Option Value) (hf : IsForest f) (hs : slots f ≡ 16)
    (hc : 2 ≤ grown f + held w) where
  -- The branch's own value.
  pub branch_value :
      Views s []
      → Inserts
          (insert_branch db inspector (children_of f) w s v (at_start dead))
          []
          v
          (fork f w)
          dead
  unfolding insert_branch node_of value_at IsTrie
  branch_value vs =
      let n = node_of (fork f (some v)) in
      (
        fork f (some v),
        (if same_value w v then restore n else replace n),
        rw (is_empty-Views s [] vs) refl,
        kept (same_value w v),
        record {
          shape = (hf, hs, omega (arith, held-le w));
          forks = λ k. k;
          reads = value_at-fork_value f w v;
        },
      )
    where
      kept :
          (b : Bool)
          → unwrap_node (
              if b
              then restore (node_of (fork f (some v)))
              else replace (node_of (fork f (some v))))
            ≡ node_of (fork f (some v))
      kept true = refl
      kept false = refl

  module _ (n : ℕ) (ns : List ℕ) (vs : Views s (n ∷ ns)) where
    -- A key that goes on where the branch has nothing.
    pub branch_gap :
        tree_at f n ≡ none
        → Inserts
            (insert_branch db inspector (children_of f) w s v (at_start dead))
            (n ∷ ns)
            v
            (fork f w)
            dead
    unfolding insert_branch node_of value_at IsTrie
    branch_gap free =
        let (small, rest) = Views-IsNibble s (n ∷ ns) vs in
        let more : (length (n ∷ ns) == 0) ≡ false = ground arith in
        let below = mid-Views s (n ∷ ns) vs 1 (omega arith) in
        let inside : n < slots f = omega arith in
        (
          fork (put_tree f n (tip ns v)) w,
          replace (node_of (fork (put_tree f n (tip ns v)) w)),
          rw
              (
                is_empty-Views s (n ∷ ns) vs,
                more,
                at-Views s (n ∷ ns) vs 0 (omega arith),
                child_at-children_of f n inside,
                free,
                encoded-Views (mid s 1) ns below true,
                set_child-children_of f n (tip ns v),
                value_in-tree_at f n ns,
                free,
              )
              refl,
          refl,
          record {
            shape = (
              put_tree-IsForest f n (tip ns v) hf rest,
              slots-put_tree f n (tip ns v) ∙ hs,
              omega (arith, grown-put_tree f n (tip ns v) inside, ap added free),
            );
            forks = λ k. k;
            reads = λ k. value_at-fork_put f w n ns inside (tip ns v) v k (λ j.
                tip-set_at ns v j
                ∙ ap (λ m. if same j ns then some v else value_below m j) (sym free));
          },
        )

    -- A key that goes on into a child of the branch.
    pub branch_child :
        (t : Tree)
        → tree_at f n ≡ some t
        → Inserts (inspector (node_of t) (mid s 1) v (at_start dead)) ns v t dead
        → Inserts
            (insert_branch db inspector (children_of f) w s v (at_start dead))
            (n ∷ ns)
            v
            (fork f w)
            dead
    unfolding insert_branch node_of value_at IsTrie
    branch_child t there low =
        let (small, rest) = Views-IsNibble s (n ∷ ns) vs in
        let more : (length (n ∷ ns) == 0) ≡ false = ground arith in
        let inside : n < slots f = omega arith in
        let (u, changed, run, good) = insert_at_lem db inspector t (mid s 1) ns v dead low in
        let m = node_of (fork (put_tree f n u) w) in
        (
          fork (put_tree f n u) w,
          (if changed then replace m else restore m),
          rw
              (
                is_empty-Views s (n ∷ ns) vs,
                more,
                at-Views s (n ∷ ns) vs 0 (omega arith),
                child_at-children_of f n inside,
                there,
                run,
                set_child-children_of f n u,
                value_in-tree_at f n ns,
                there,
              )
              refl,
          either_node changed m m refl,
          record {
            shape = (
              put_tree-IsForest f n u hf good.shape,
              slots-put_tree f n u ∙ hs,
              omega (arith, grown-put_tree f n u inside),
            );
            forks = λ k. k;
            reads = λ k. value_at-fork_put f w n ns inside u v k (λ j.
                good.reads j ∙ ap (λ m. if same j ns then some v else value_below m j) (sym there));
          },
        )
