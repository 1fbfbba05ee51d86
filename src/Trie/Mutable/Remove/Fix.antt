-- ===== src/Trie/Mutable/Remove/Fix.antt =====
-- What `fix` makes of an extension over any node, and of a branch with one thing or more.
use aion_utils.Prelude.{
  ℕ, zero, suc, ◌+◌, ◌≤◌, ◌<◌, ◌≡◌, ◌⊎◌, refl, ap, sym, ◌∙◌, Bool, true, false, Option, none, some,
  List, [], ◌∷◌, ◌++◌, ◌==◌, arith, Bool-cases, inl, inr, length, length-append, ok, All,
  All-append, ==_iff,
}
use aion_utils.Db.Map.{same}
use aion_utils.Trie.Nibbles.{nibbles_of, IsNibble}
use aion_utils.Trie.NibbleSlice.{new, new_offset}
use aion_utils.Trie.NibbleSlice.Encode.{hex_prefix}
use aion_utils.Trie.NibbleSlice.Own.{
  Views, new-Views, new_offset-Views, encoded-Views, encoded-composed,
}
use aion_utils.Trie.Mutable.{NodeSource, Value, branch, extension, Effects}
use aion_utils.Trie.Mutable.Remove.{fix_used, fix_over, fix, combined}
use aion_utils.Trie.Mutable.Shape.{
  Tree, tip, path, fork, Forest, node_of, children_of, value_at, slots, grown, held, IsTrie,
  IsForest,
}
use aion_utils.Trie.Mutable.Shape.Forests.{
  tree_at, handle_of, value_below, child_at-children_of, value_in-tree_at, tree_at-IsTrie,
}
use aion_utils.Trie.Mutable.Shape.Lookup.{key_slice-Views}
use aion_utils.Trie.Mutable.Shape.Reads.{
  Reading, under, only, value_at-path, value_at-tip, under_ext, under-append,
}
use aion_utils.Trie.Mutable.Remove.Places.{
  used_from-none, used_from-several, used_from-Single, Single, barren,
}

-- A trie that reads as `g`.
pub record Reads (g : Reading) (u : Tree) : Type 0 where
  pub shape : IsTrie u
  pub reads : (k : List ℕ) → value_at u k ≡ g k

combined-hex_prefix :
    (ks js : List ℕ) (is_leaf sub_leaf : Bool)
    → All IsNibble ks
    → All IsNibble js
    → combined (hex_prefix ks false) (hex_prefix js sub_leaf) is_leaf
      ≡ ok (hex_prefix (ks ++ js) is_leaf)
unfolding combined
combined-hex_prefix ks js is_leaf sub_leaf hk hj =
    let (s, read, vs) = key_slice-Views ks false hk in
    let (t, read', vt) = key_slice-Views js sub_leaf hj in
    rw (read, read', encoded-composed s t ks js is_leaf vs vt) refl

-- An extension over a leaf, an extension or a branch.
pub fix_path :
    (db : NodeSource) (fuel : ℕ) (e : Effects) (ks : List ℕ) (t : Tree)
    → All IsNibble ks
    → 0 < length ks
    → IsTrie t
    → (u : Tree) × (fix db (suc (suc fuel)) (extension (hex_prefix ks false) (handle_of t)) e
        ≡ ok (node_of u, e))
      × Reads (value_at (path ks t)) u
unfolding fix fix_over node_of IsTrie
fix_path db fuel e ks (tip js w) hk long ht = (
  tip (ks ++ js) w,
  rw (combined-hex_prefix ks js true true hk ht) refl,
  record {
    shape = All-append IsNibble ks js hk ht;
    reads = λ k.
        value_at-tip (ks ++ js) w k
        ∙ under-append ks js (only w) k
        ∙ sym (under_ext ks (value_at (tip js w)) (under js (only w)) k (value_at-tip js w))
        ∙ sym (value_at-path ks (tip js w) k);
  },
)
fix_path db fuel e ks (path js (fork f w)) hk long (hj, long', hf, ht) = (
  path (ks ++ js) (fork f w),
  rw (combined-hex_prefix ks js false false hk hj) refl,
  record {
    shape = (All-append IsNibble ks js hk hj, omega (arith, length-append ks js), tt, ht);
    reads = λ k.
        value_at-path (ks ++ js) (fork f w) k
        ∙ under-append ks js (value_at (fork f w)) k
        ∙ sym (
            under_ext ks (value_at (path js (fork f w))) (under js (value_at (fork f w))) k
              (value_at-path js (fork f w)))
        ∙ sym (value_at-path ks (path js (fork f w)) k);
  },
)
fix_path db fuel e ks (path js (tip is w)) hk long (hj, long', hf, ht) = absurd hf
fix_path db fuel e ks (path js (path is t)) hk long (hj, long', hf, ht) = absurd hf
fix_path db fuel e ks (fork f w) hk long ht =
    (path ks (fork f w), refl, record { shape = (hk, long, tt, ht); reads = λ k. refl })

abbrev Fixes : NodeSource → ℕ → Effects → Forest → Option Value → Type 0
Fixes db fuel e f w =
    (u : Tree) × (fix db (suc (suc (suc fuel))) (branch (children_of f) w) e ≡ ok (node_of u, e))
    × Reads (value_at (fork f w)) u

le_cases : (n : ℕ) → (n ≡ 0) ⊎ ((n ≡ 1) ⊎ (2 ≤ n))
le_cases zero = inl refl
le_cases (suc zero) = inr (inl refl)
le_cases (suc (suc n)) = inr (inr (omega arith))

-- A fork with one thing or more.
module _ (db : NodeSource) (fuel : ℕ) (e : Effects) (f : Forest) (hf : IsForest f)
    (hs : slots f ≡ 16) where
  fix_full : (w : Option Value) → 2 ≤ grown f → Fixes db fuel e f w
  unfolding fix fix_used node_of IsTrie
  fix_full w h = (
    fork f w,
    rw (used_from-several f 0 h) refl,
    record { shape = (hf, hs, omega arith); reads = λ k. refl },
  )

  fix_both : (v : Value) → grown f ≡ 1 → Fixes db fuel e f (some v)
  unfolding fix fix_used node_of IsTrie
  fix_both v h =
      let b = used_from-Single f 0 h in
      (fork f (some v), rw b.used refl, record { shape = (hf, hs, omega arith); reads = λ k. refl })

  fix_single : grown f ≡ 1 → Fixes db fuel e f none
  unfolding fix fix_used node_of value_at under
  fix_single h =
      let b = used_from-Single f 0 h in
      let a : (0 + b.place) ≡ b.place = omega arith in
      let small : b.place < 16 = omega (arith, b.inside) in
      let (u, run, good) =
        fix_path db fuel e (b.place ∷ []) b.tree (small, tt) (omega arith)
          (tree_at-IsTrie f b.place b.tree hf b.there) in
      (
        u,
        rw
            (
              b.used,
              a,
              encoded-Views (new_offset (b.place ∷ []) 1) (b.place ∷ [])
                  (new_offset-Views b.place small) false,
              child_at-children_of f b.place b.inside,
              b.there,
            )
            run,
        record {
          shape = good.shape;
          reads = λ k. good.reads k ∙ value_at-path (b.place ∷ []) b.tree k ∙ only_below b k;
        },
      )
    where
      only_below :
          (b : Single f 0) (k : List ℕ)
          → under (b.place ∷ []) (value_at b.tree) k ≡ value_at (fork f none) k
      only_below b [] = refl
      only_below b (n ∷ k) = elim (Bool-cases (b.place == n)) [
        | inl q ↦
            let here : b.place ≡ n = (==_iff _ _).0 q in
            rw q (
              sym (
                value_in-tree_at f n k
                ∙ ap (λ m. value_below m k) (ap (tree_at f) (sym here) ∙ b.there)))
        | inr q ↦
            let back : (n == b.place) ≡ false = ground arith in
            rw q (sym (value_in-tree_at f n k ∙ ap (λ m. value_below m k) (b.alone n back)))
      ]

  fix_value : (v : Value) → grown f ≡ 0 → Fixes db fuel e f (some v)
  unfolding fix fix_used node_of value_at IsTrie same nibbles_of
  fix_value v h = (
    tip [] v,
    rw (used_from-none f 0 h, encoded-Views (new []) [] nothing true) refl,
    record { shape = tt; reads = reads_at },
  )
    where
      nothing : Views (new []) []
      nothing = new-Views [] tt

      reads_at : (k : List ℕ) → value_at (tip [] v) k ≡ value_at (fork f (some v)) k
      reads_at [] = refl
      reads_at (n ∷ k) = sym (value_in-tree_at f n k ∙ ap (λ m. value_below m k) (barren f n h))

  pub fix_fork : (w : Option Value) → 1 ≤ grown f + held w → Fixes db fuel e f w
  fix_fork w h = elim (le_cases (grown f)) [
    | inl z ↦ go_none w z h
    | inr (inl z) ↦ go_one w z
    | inr (inr z) ↦ fix_full w z
  ]
    where
      go_none : (w : Option Value) → grown f ≡ 0 → 1 ≤ grown f + held w → Fixes db fuel e f w
      go_none none z h = absurd (omega arith)
      go_none (some v) z h = fix_value v z

      go_one : (w : Option Value) → grown f ≡ 1 → Fixes db fuel e f w
      go_one none z = fix_single z
      go_one (some v) z = fix_both v z
