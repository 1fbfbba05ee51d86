-- ===== src/Trie/Mutable/Shape/Reads.antt =====
-- What a trie holds, as a function on keys: under a path, and with one key set or left out.
use aion_utils.Prelude.{
  ℕ, ◌<◌, ◌≡◌, refl, ap, sym, ◌∙◌, true, false, Option, none, some, List, [], ◌∷◌, ◌++◌, ◌==◌,
  if◌then◌else◌, arith, Bool-cases, inl, inr, length, take, drop, ==_iff,
}
use aion_utils.Db.Map.{same, same_refl, same→eq}
use aion_utils.Trie.NibbleSlice.Own.{Bool_iff}
use aion_utils.Trie.Mutable.{Value}
use aion_utils.Trie.Mutable.Shape.{Tree, tip, path, fork, Forest, value_at, slots}
use aion_utils.Trie.Mutable.Shape.Forests.{
  tree_at, put_tree, cut, gaps, value_below, value_in-tree_at, tree_at-put_tree, tree_at-cut,
  tree_at-gaps, slots-gaps,
}

abbrev pub Reading : Type 0
Reading = List ℕ → Option Value

-- The keys that begin with `ks`, each read without it.
unfoldable pub under : List ℕ → Reading → Reading
under [] g k = g k
under (a ∷ ks) g [] = none
under (a ∷ ks) g (b ∷ k) = if a == b then under ks g k else none

-- One value, at the end of the key.
abbrev pub only : Value → Reading
only v [] = some v
only v (a ∷ k) = none

-- A function on keys with one key set.
abbrev pub set_at : List ℕ → Value → Reading → Reading
set_at ns v g k = if same k ns then some v else g k

-- A function on keys with one key left out.
abbrev pub unset_at : List ℕ → Reading → Reading
unset_at ns g k = if same k ns then none else g k

pub same_comm : (xs ys : List ℕ) → same xs ys ≡ same ys xs
same_comm xs ys =
    Bool_iff (same xs ys) (same ys xs)
      (λ e. ap (λ t. same t xs) (sym (same→eq xs ys e)) ∙ same_refl xs)
      (λ e. ap (λ t. same t ys) (sym (same→eq ys xs e)) ∙ same_refl ys)

under-front :
    (ks : List ℕ) (g : Reading) (k : List ℕ)
    → (if same ks (take (length ks) k) then g (drop (length ks) k) else none) ≡ under ks g k
unfolding same under
under-front [] g k = refl
under-front (a ∷ ks) g [] = refl
under-front (a ∷ ks) g (b ∷ k) = elim (Bool-cases (a == b)) [
  | inl e ↦ rw e (under-front ks g k)
  | inr e ↦ rw e refl
]

under-whole :
    (ks : List ℕ) (v : Value) (k : List ℕ)
    → (if same ks k then some v else none) ≡ under ks (only v) k
unfolding same under
under-whole [] v [] = refl
under-whole [] v (b ∷ k) = refl
under-whole (a ∷ ks) v [] = refl
under-whole (a ∷ ks) v (b ∷ k) = elim (Bool-cases (a == b)) [
  | inl e ↦ rw e (under-whole ks v k)
  | inr e ↦ rw e refl
]

pub value_at-path :
    (ks : List ℕ) (t : Tree) (k : List ℕ) → value_at (path ks t) k ≡ under ks (value_at t) k
unfolding value_at
value_at-path ks t k = under-front ks (value_at t) k

pub value_at-tip :
    (ks : List ℕ) (v : Value) (k : List ℕ) → value_at (tip ks v) k ≡ under ks (only v) k
unfolding value_at
value_at-tip ks v k = under-whole ks v k

pub under_ext :
    (ks : List ℕ) (g h : Reading) (k : List ℕ)
    → ((j : List ℕ) → g j ≡ h j)
    → under ks g k ≡ under ks h k
unfolding under
under_ext [] g h k e = e k
under_ext (a ∷ ks) g h [] e = refl
under_ext (a ∷ ks) g h (b ∷ k) e = rw (under_ext ks g h k e) refl

pub under-append :
    (ks js : List ℕ) (g : Reading) (k : List ℕ) → under (ks ++ js) g k ≡ under ks (under js g) k
unfolding under
under-append [] js g k = refl
under-append (a ∷ ks) js g [] = refl
under-append (a ∷ ks) js g (b ∷ k) = rw (under-append ks js g k) refl

pub under-set_at :
    (ks ns : List ℕ) (v : Value) (g : Reading) (k : List ℕ)
    → under ks (set_at ns v g) k ≡ set_at (ks ++ ns) v (under ks g) k
unfolding under same
under-set_at [] ns v g k = refl
under-set_at (a ∷ ks) ns v g [] = refl
under-set_at (a ∷ ks) ns v g (b ∷ k) = elim (Bool-cases (a == b)) [
  | inl e ↦ let back : (b == a) ≡ true = ground arith in rw (e, back) (under-set_at ks ns v g k)
  | inr e ↦ let back : (b == a) ≡ false = ground arith in rw (e, back) refl
]

pub under-unset_at :
    (ks ns : List ℕ) (g : Reading) (k : List ℕ)
    → under ks (unset_at ns g) k ≡ unset_at (ks ++ ns) (under ks g) k
unfolding under same
under-unset_at [] ns g k = refl
under-unset_at (a ∷ ks) ns g [] = refl
under-unset_at (a ∷ ks) ns g (b ∷ k) = elim (Bool-cases (a == b)) [
  | inl e ↦ let back : (b == a) ≡ true = ground arith in rw (e, back) (under-unset_at ks ns g k)
  | inr e ↦ let back : (b == a) ≡ false = ground arith in rw (e, back) refl
]

-- A fork with only a value, and one with only a tree.
pub value_at-stub : (v : Value) (k : List ℕ) → value_at (fork (gaps 16) (some v)) k ≡ only v k
unfolding value_at
value_at-stub v [] = refl
value_at-stub v (a ∷ k) = value_in-tree_at (gaps 16) a k ∙ rw (tree_at-gaps 16 a) refl

pub value_at-single :
    (n : ℕ) (u : Tree) (k : List ℕ)
    → n < 16
    → value_at (fork (put_tree (gaps 16) n u) none) k ≡ under (n ∷ []) (value_at u) k
unfolding value_at under
value_at-single n u [] h = refl
value_at-single n u (a ∷ k) h =
    value_in-tree_at (put_tree (gaps 16) n u) a k
    ∙ ap (λ m. value_below m k)
        (tree_at-put_tree (gaps 16) n a u (omega (arith, slots-gaps 16))
          ∙ ap (λ m. if a == n then some u else m) (tree_at-gaps 16 a))
    ∙ elim (Bool-cases (a == n)) [
      | inl e ↦ let back : (n == a) ≡ true = ground arith in rw (e, back) refl
      | inr e ↦ let back : (n == a) ≡ false = ground arith in rw (e, back) refl
    ]

pub value_at-fork_value :
    (f : Forest) (w : Option Value) (v : Value) (k : List ℕ)
    → value_at (fork f (some v)) k ≡ set_at [] v (value_at (fork f w)) k
unfolding value_at same
value_at-fork_value f w v [] = refl
value_at-fork_value f w v (a ∷ k) = refl

pub value_at-fork_none :
    (f : Forest) (w : Option Value) (k : List ℕ)
    → value_at (fork f none) k ≡ unset_at [] (value_at (fork f w)) k
unfolding value_at same
value_at-fork_none f w [] = refl
value_at-fork_none f w (a ∷ k) = refl

module _ (f : Forest) (w : Option Value) (n : ℕ) (ns : List ℕ) (h : n < slots f) where
  pub value_at-fork_put :
      (u : Tree) (v : Value) (k : List ℕ)
      → ((j : List ℕ) → value_at u j ≡ set_at ns v (value_below (tree_at f n)) j)
      → value_at (fork (put_tree f n u) w) k ≡ set_at (n ∷ ns) v (value_at (fork f w)) k
  unfolding value_at same
  value_at-fork_put u v [] e = refl
  value_at-fork_put u v (a ∷ k) e =
      value_in-tree_at (put_tree f n u) a k
      ∙ ap (λ m. value_below m k) (tree_at-put_tree f n a u h)
      ∙ elim (Bool-cases (a == n)) [
        | inl eq ↦
            let place : a ≡ n = (==_iff a n).0 eq in rw (eq, value_in-tree_at f a k, place) (e k)
        | inr eq ↦ rw (eq, value_in-tree_at f a k) refl
      ]

  pub value_at-fork_put_unset :
      (u : Tree) (k : List ℕ)
      → ((j : List ℕ) → value_at u j ≡ unset_at ns (value_below (tree_at f n)) j)
      → value_at (fork (put_tree f n u) w) k ≡ unset_at (n ∷ ns) (value_at (fork f w)) k
  unfolding value_at same
  value_at-fork_put_unset u [] e = refl
  value_at-fork_put_unset u (a ∷ k) e =
      value_in-tree_at (put_tree f n u) a k
      ∙ ap (λ m. value_below m k) (tree_at-put_tree f n a u h)
      ∙ elim (Bool-cases (a == n)) [
        | inl eq ↦
            let place : a ≡ n = (==_iff a n).0 eq in rw (eq, value_in-tree_at f a k, place) (e k)
        | inr eq ↦ rw (eq, value_in-tree_at f a k) refl
      ]

  -- A tree that has nothing but the key.
  pub value_at-fork_cut :
      (k : List ℕ)
      → ((j : List ℕ) → unset_at ns (value_below (tree_at f n)) j ≡ none)
      → value_at (fork (cut f n) w) k ≡ unset_at (n ∷ ns) (value_at (fork f w)) k
  unfolding value_at same
  value_at-fork_cut [] e = refl
  value_at-fork_cut (a ∷ k) e =
      value_in-tree_at (cut f n) a k
      ∙ ap (λ m. value_below m k) (tree_at-cut f n a)
      ∙ elim (Bool-cases (a == n)) [
        | inl eq ↦
            let place : a ≡ n = (==_iff a n).0 eq in
            rw (eq, value_in-tree_at f a k, place) (sym (e k))
        | inr eq ↦ rw (eq, value_in-tree_at f a k) refl
      ]

pub tip-set_at :
    (ns : List ℕ) (v : Value) (k : List ℕ) → value_at (tip ns v) k ≡ set_at ns v (λ _. none) k
unfolding value_at
tip-set_at ns v k = rw (same_comm ns k) refl

-- A key that is not there left out.
pub left_alone : (ns : List ℕ) (g : Reading) → g ns ≡ none → (k : List ℕ) → g k ≡ unset_at ns g k
left_alone ns g h k = elim (Bool-cases (same k ns)) [
  | inl e ↦ ap g (same→eq k ns e) ∙ h ∙ rw e refl
  | inr e ↦ rw e refl
]

pub unset_at-tip :
    (ks ns : List ℕ) (v : Value) (k : List ℕ) → ks ≡ ns → unset_at ns (value_at (tip ks v)) k ≡ none
unfolding value_at
unset_at-tip ks ns v k e = elim (Bool-cases (same k ns)) [
  | inl h ↦ rw h refl
  | inr h ↦ rw (h, ap (λ a. same a k) e ∙ same_comm ns k, h) refl
]
