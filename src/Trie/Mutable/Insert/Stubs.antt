-- ===== src/Trie/Mutable/Insert/Stubs.antt =====
-- Branches with one thing in them, and the insertion into one.
use aion_utils.Prelude.{
  ℕ, suc, ◌+◌, ◌<◌, ◌≡◌, refl, ap, sym, ◌∙◌, true, false, Option, none, some, List, [], ◌∷◌, ◌==◌,
  if◌then◌else◌, arith, length, ok,
}
use aion_utils.Db.Map.{same}
use aion_utils.Trie.NibbleSlice.{NibbleSlice, mid}
use aion_utils.Trie.NibbleSlice.Compare.{shared}
use aion_utils.Trie.NibbleSlice.Fronts.{shared_heads}
use aion_utils.Trie.NibbleSlice.Own.{
  Views, Views-IsNibble, len-Views, at-Views, mid-Views, encoded-Views,
}
use aion_utils.Trie.Mutable.{H256, NodeSource, Value, Node, Effects}
use aion_utils.Trie.Mutable.Insert.{
  replace, insert_branch, leaf_branch, extension_child, insert_inspector,
}
use aion_utils.Trie.Mutable.Shape.{
  Tree, tip, path, fork, Forest, node_of, value_at, slots, grown, held, IsTrie, IsForest, IsFork,
}
use aion_utils.Trie.Mutable.Shape.Forests.{
  tree_at, put_tree, gaps, handle_of, value_below, child_at-children_of, set_child-children_of,
  vacancies-gaps, tree_at-put_tree, tree_at-gaps, slots-put_tree, slots-gaps, grown-put_tree, added,
  put_tree-IsForest, gaps-IsForest,
}
use aion_utils.Trie.Mutable.Shape.Lookup.{is_empty-Views}
use aion_utils.Trie.Mutable.Shape.Reads.{
  Reading, under, only, set_at, value_at-path, value_at-tip, under_ext, under-append, value_at-stub,
  value_at-single, value_at-fork_value, value_at-fork_put, tip-set_at,
}

abbrev pub at_start : List H256 → Effects
at_start dead = record { old_val = none; death_row = dead }

-- A trie that is a fork and reads as `g` with a key set.
pub record Forked (ns : List ℕ) (v : Value) (g : Reading) (u : Tree) : Type 0 where
  pub shape : IsTrie u
  pub forks : IsFork u
  pub reads : (k : List ℕ) → value_at u k ≡ set_at ns v g k

-- Nothing stands at the first step of a key.
abbrev pub Free : Forest → Option Value → List ℕ → Type 0
Free f w [] = w ≡ none
Free f w (n ∷ ns) = tree_at f n ≡ none

pub insert_stub :
    (db : NodeSource) (fuel : ℕ) (f : Forest) (w : Option Value) (s : NibbleSlice) (ns : List ℕ)
    (v : Value) (dead : List H256)
    → IsForest f
    → slots f ≡ 16
    → grown f + held w ≡ 1
    → Views s ns
    → Free f w ns
    → (u : Tree) × (insert_inspector db (suc fuel) (node_of (fork f w)) s v (at_start dead)
        ≡ ok (replace (node_of u), at_start dead))
      × Forked ns v (value_at (fork f w)) u
unfolding insert_inspector insert_branch node_of IsTrie grown
insert_stub db fuel f w s [] v dead hf hs hc vs free = (
  fork f (some v),
  rw (is_empty-Views s [] vs, free) refl,
  record {
    shape = (hf, hs, omega (arith, ap held free));
    forks = tt;
    reads = value_at-fork_value f w v;
  },
)
insert_stub db fuel f w s (n ∷ ns) v dead hf hs hc vs free =
    let (small, rest) = Views-IsNibble s (n ∷ ns) vs in
    let more : (length (n ∷ ns) == 0) ≡ false = ground arith in
    let below = mid-Views s (n ∷ ns) vs 1 (omega arith) in
    let inside : n < slots f = omega arith in
    (
      fork (put_tree f n (tip ns v)) w,
      rw
          (
            is_empty-Views s (n ∷ ns) vs,
            more,
            at-Views s (n ∷ ns) vs 0 (omega arith),
            child_at-children_of f n inside,
            free,
            encoded-Views (mid s 1) ns below true,
            set_child-children_of f n (tip ns v),
          )
          refl,
      record {
        shape = (
          put_tree-IsForest f n (tip ns v) hf rest,
          slots-put_tree f n (tip ns v) ∙ hs,
          omega (arith, grown-put_tree f n (tip ns v) inside, ap added free),
        );
        forks = tt;
        reads = λ k. value_at-fork_put f w n ns inside (tip ns v) v k (λ j.
            tip-set_at ns v j ∙ ap (λ m. if same j ns then some v else value_below m j) (sym free));
      },
    )

-- A branch with one thing in it, which reads as a given trie does.
pub record Stub (n : Node) (ks : List ℕ) (g : Reading) : Type 0 where
  pub forest : Forest
  pub value : Option Value
  pub is_forest : IsForest forest
  pub sixteen : slots forest ≡ 16
  pub single : grown forest + held value ≡ 1
  pub stands : n ≡ node_of (fork forest value)
  pub reads : (k : List ℕ) → value_at (fork forest value) k ≡ g k
  pub free : (ns : List ℕ) → shared ns ks ≡ 0 → 0 < length ns + length ks → Free forest value ns

single-Stub :
    (n : ℕ) (ks : List ℕ) (u : Tree) (g : Reading)
    → n < 16
    → IsTrie u
    → ((k : List ℕ) → under (n ∷ []) (value_at u) k ≡ g k)
    → Stub (node_of (fork (put_tree (gaps 16) n u) none)) (n ∷ ks) g
unfolding shared grown
single-Stub n ks u g h hu reads =
    let inside : n < slots (gaps 16) = omega (arith, slots-gaps 16) in
    record {
      forest = put_tree (gaps 16) n u;
      value = none;
      is_forest = put_tree-IsForest (gaps 16) n u (gaps-IsForest 16) hu;
      sixteen = slots-put_tree (gaps 16) n u ∙ slots-gaps 16;
      single =
          omega
            (arith, grown-put_tree (gaps 16) n u inside, ap added (tree_at-gaps 16 n), none_grown);
      stands = refl;
      reads = λ k. value_at-single n u k h ∙ reads k;
      free = λ ns e some_key. free_at ns e;
    }
  where
    none_grown : grown (gaps 16) ≡ 0
    none_grown = refl

    free_at : (ns : List ℕ) → shared ns (n ∷ ks) ≡ 0 → Free (put_tree (gaps 16) n u) none ns
    free_at [] e = refl
    free_at (m ∷ ns) e =
        let apart = shared_heads m n ns ks e in
        tree_at-put_tree (gaps 16) n m u (omega (arith, slots-gaps 16))
        ∙ rw apart (tree_at-gaps 16 m)

pub leaf-Stub :
    (slice : NibbleSlice) (ks : List ℕ) (w : Value)
    → Views slice ks
    → (n : Node) × (leaf_branch slice w ≡ ok n) × Stub n ks (value_at (tip ks w))
unfolding leaf_branch grown node_of under IsTrie
leaf-Stub slice [] w vs = (
  node_of (fork (gaps 16) (some w)),
  rw (is_empty-Views slice [] vs) refl,
  record {
    forest = gaps 16;
    value = some w;
    is_forest = gaps-IsForest 16;
    sixteen = slots-gaps 16;
    single = refl;
    stands = refl;
    reads = λ k. value_at-stub w k ∙ sym (value_at-tip [] w k ∙ under_nil k);
    free = free_at;
  },
)
  where
    under_nil : (k : List ℕ) → under [] (only w) k ≡ only w k
    under_nil k = refl

    free_at : (ns : List ℕ) → shared ns [] ≡ 0 → 0 < length ns + 0 → Free (gaps 16) (some w) ns
    free_at [] e some_key = absurd (omega arith)
    free_at (m ∷ ns) e some_key = tree_at-gaps 16 m
leaf-Stub slice (n ∷ ks) w vs =
    let (small, rest) = Views-IsNibble slice (n ∷ ks) vs in
    let more : (length (n ∷ ks) == 0) ≡ false = ground arith in
    let below = mid-Views slice (n ∷ ks) vs 1 (omega arith) in
    (
      node_of (fork (put_tree (gaps 16) n (tip ks w)) none),
      rw
          (
            is_empty-Views slice (n ∷ ks) vs,
            more,
            at-Views slice (n ∷ ks) vs 0 (omega arith),
            encoded-Views (mid slice 1) ks below true,
            vacancies-gaps 16,
            set_child-children_of (gaps 16) n (tip ks w),
          )
          refl,
      single-Stub n ks (tip ks w) (value_at (tip (n ∷ ks) w)) small rest (λ k.
          under_ext (n ∷ []) (value_at (tip ks w)) (under ks (only w)) k (value_at-tip ks w)
          ∙ sym (under-append (n ∷ []) ks (only w) k)
          ∙ sym (value_at-tip (n ∷ ks) w k)),
    )

-- The branch that an extension is made into.
pub extension-Stub :
    (slice : NibbleSlice) (n : ℕ) (ks : List ℕ) (t : Tree)
    → Views slice (n ∷ ks)
    → IsTrie t
    → IsFork t
    → (l : Tree) × (extension_child slice (handle_of t) ≡ ok (handle_of l))
      × Stub (node_of (fork (put_tree (gaps 16) n l) none)) (n ∷ ks) (value_at (path (n ∷ ks) t))
unfolding extension_child node_of IsTrie under
extension-Stub slice n [] t vs ht hf =
    let (small, rest) = Views-IsNibble slice (n ∷ []) vs in
    (
      t,
      rw (len-Views slice (n ∷ []) vs) refl,
      single-Stub n [] t (value_at (path (n ∷ []) t)) small ht
          (λ k. sym (value_at-path (n ∷ []) t k)),
    )
extension-Stub slice n (m ∷ ks) t vs ht hf =
    let (small, rest) = Views-IsNibble slice (n ∷ m ∷ ks) vs in
    let longer : (length (n ∷ m ∷ ks) == 1) ≡ false = ground arith in
    let below = mid-Views slice (n ∷ m ∷ ks) vs 1 (omega arith) in
    (
      path (m ∷ ks) t,
      rw (len-Views slice (n ∷ m ∷ ks) vs, longer, encoded-Views (mid slice 1) (m ∷ ks) below false)
          refl,
      single-Stub n (m ∷ ks) (path (m ∷ ks) t) (value_at (path (n ∷ m ∷ ks) t)) small
          (rest, omega arith, hf, ht)
          (λ k.
            under_ext (n ∷ []) (value_at (path (m ∷ ks) t)) (under (m ∷ ks) (value_at t)) k
              (value_at-path (m ∷ ks) t)
            ∙ sym (under-append (n ∷ []) (m ∷ ks) (value_at t) k)
            ∙ sym (value_at-path (n ∷ m ∷ ks) t k)),
    )
