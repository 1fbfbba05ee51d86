-- ===== src/Trie/Mutable/Shape/Forests.antt =====
-- The places of a forest against the array of children.
use aion_utils.Prelude.{
  ℕ, zero, suc, ◌+◌, ◌<◌, ◌≡◌, refl, ap, sym, Option, none, some, List, ◌==◌, if◌then◌else◌, arith,
  ok,
}
use aion_utils.Trie.Mutable.{
  NodeHandle, in_memory, fresh, vacancies, child_at, set_child, clear_child,
}
use aion_utils.Trie.Mutable.Shape.{
  Tree, Forest, nil, gap, grow, node_of, children_of, value_at, value_in, slots, grown, IsTrie,
  IsForest,
}

-- The tree at a place.
unfoldable pub tree_at : Forest → ℕ → Option Tree
tree_at nil n = none
tree_at (gap f) zero = none
tree_at (gap f) (suc n) = tree_at f n
tree_at (grow t f) zero = some t
tree_at (grow t f) (suc n) = tree_at f n

unfoldable pub put_tree : Forest → ℕ → Tree → Forest
put_tree nil n u = nil
put_tree (gap f) zero u = grow u f
put_tree (grow t f) zero u = grow u f
put_tree (gap f) (suc n) u = gap (put_tree f n u)
put_tree (grow t f) (suc n) u = grow t (put_tree f n u)

unfoldable pub cut : Forest → ℕ → Forest
cut nil n = nil
cut (gap f) zero = gap f
cut (grow t f) zero = gap f
cut (gap f) (suc n) = gap (cut f n)
cut (grow t f) (suc n) = grow t (cut f n)

abbrev pub gaps : ℕ → Forest
gaps zero = nil
gaps (suc n) = gap (gaps n)

abbrev pub handle_of : Tree → NodeHandle
handle_of t = in_memory (fresh (node_of t))

abbrev pub handle_at : Option Tree → Option NodeHandle
handle_at none = none
handle_at (some t) = some (handle_of t)

abbrev pub value_below : Option Tree → List ℕ → Option (List ℕ)
value_below none k = none
value_below (some t) k = value_at t k

pub child_at-children_of :
    (f : Forest) (n : ℕ) → n < slots f → child_at (children_of f) n ≡ ok (handle_at (tree_at f n))
unfolding child_at node_of tree_at slots
child_at-children_of nil n h = absurd (omega arith)
child_at-children_of (gap f) zero h = refl
child_at-children_of (grow t f) zero h = refl
child_at-children_of (gap f) (suc n) h = child_at-children_of f n (omega arith)
child_at-children_of (grow t f) (suc n) h = child_at-children_of f n (omega arith)

pub set_child-children_of :
    (f : Forest) (n : ℕ) (t : Tree)
    → set_child (children_of f) n (handle_of t) ≡ children_of (put_tree f n t)
unfolding set_child node_of put_tree
set_child-children_of nil n u = refl
set_child-children_of (gap f) zero u = refl
set_child-children_of (grow t f) zero u = refl
set_child-children_of (gap f) (suc n) u = rw (set_child-children_of f n u) refl
set_child-children_of (grow t f) (suc n) u = rw (set_child-children_of f n u) refl

pub clear_child-children_of :
    (f : Forest) (n : ℕ) → clear_child (children_of f) n ≡ children_of (cut f n)
unfolding clear_child node_of cut
clear_child-children_of nil n = refl
clear_child-children_of (gap f) zero = refl
clear_child-children_of (grow t f) zero = refl
clear_child-children_of (gap f) (suc n) = rw (clear_child-children_of f n) refl
clear_child-children_of (grow t f) (suc n) = rw (clear_child-children_of f n) refl

pub vacancies-gaps : (n : ℕ) → vacancies n ≡ children_of (gaps n)
unfolding node_of
vacancies-gaps zero = refl
vacancies-gaps (suc n) = rw (vacancies-gaps n) refl

pub value_in-tree_at :
    (f : Forest) (n : ℕ) (k : List ℕ) → value_in f n k ≡ value_below (tree_at f n) k
unfolding value_at tree_at
value_in-tree_at nil n k = refl
value_in-tree_at (gap f) zero k = refl
value_in-tree_at (grow t f) zero k = refl
value_in-tree_at (gap f) (suc n) k = value_in-tree_at f n k
value_in-tree_at (grow t f) (suc n) k = value_in-tree_at f n k

pub tree_at-put_tree :
    (f : Forest) (n m : ℕ) (t : Tree)
    → n < slots f
    → tree_at (put_tree f n t) m ≡ (if m == n then some t else tree_at f m)
unfolding tree_at put_tree slots
tree_at-put_tree nil n m u h = absurd (omega arith)
tree_at-put_tree (gap f) zero zero u h = refl
tree_at-put_tree (grow t f) zero zero u h = refl
tree_at-put_tree (gap f) zero (suc m) u h = ground arith
tree_at-put_tree (grow t f) zero (suc m) u h = ground arith
tree_at-put_tree (gap f) (suc n) zero u h = ground arith
tree_at-put_tree (grow t f) (suc n) zero u h = ground arith
tree_at-put_tree (gap f) (suc n) (suc m) u h =
    ground (arith, tree_at-put_tree f n m u (omega arith))
tree_at-put_tree (grow t f) (suc n) (suc m) u h =
    ground (arith, tree_at-put_tree f n m u (omega arith))

pub tree_at-cut :
    (f : Forest) (n m : ℕ) → tree_at (cut f n) m ≡ (if m == n then none else tree_at f m)
unfolding tree_at cut
tree_at-cut nil n m = ground arith
tree_at-cut (gap f) zero zero = refl
tree_at-cut (grow t f) zero zero = refl
tree_at-cut (gap f) zero (suc m) = ground arith
tree_at-cut (grow t f) zero (suc m) = ground arith
tree_at-cut (gap f) (suc n) zero = ground arith
tree_at-cut (grow t f) (suc n) zero = ground arith
tree_at-cut (gap f) (suc n) (suc m) = ground (arith, tree_at-cut f n m)
tree_at-cut (grow t f) (suc n) (suc m) = ground (arith, tree_at-cut f n m)

pub tree_at-gaps : (n m : ℕ) → tree_at (gaps n) m ≡ none
unfolding tree_at
tree_at-gaps zero m = refl
tree_at-gaps (suc n) zero = refl
tree_at-gaps (suc n) (suc m) = tree_at-gaps n m

pub slots-put_tree : (f : Forest) (n : ℕ) (t : Tree) → slots (put_tree f n t) ≡ slots f
unfolding slots put_tree
slots-put_tree nil n u = refl
slots-put_tree (gap f) zero u = refl
slots-put_tree (grow t f) zero u = refl
slots-put_tree (gap f) (suc n) u = ap suc (slots-put_tree f n u)
slots-put_tree (grow t f) (suc n) u = ap suc (slots-put_tree f n u)

pub slots-cut : (f : Forest) (n : ℕ) → slots (cut f n) ≡ slots f
unfolding slots cut
slots-cut nil n = refl
slots-cut (gap f) zero = refl
slots-cut (grow t f) zero = refl
slots-cut (gap f) (suc n) = ap suc (slots-cut f n)
slots-cut (grow t f) (suc n) = ap suc (slots-cut f n)

pub slots-gaps : (n : ℕ) → slots (gaps n) ≡ n
unfolding slots
slots-gaps zero = refl
slots-gaps (suc n) = ap suc (slots-gaps n)

-- A place that is taken stays taken, and a gap that is filled is one more.
abbrev pub added : Option Tree → ℕ
added none = 1
added (some t) = 0

pub grown-put_tree :
    (f : Forest) (n : ℕ) (t : Tree)
    → n < slots f
    → grown (put_tree f n t) ≡ grown f + added (tree_at f n)
unfolding slots grown put_tree tree_at
grown-put_tree nil n u h = absurd (omega arith)
grown-put_tree (gap f) zero u h = omega arith
grown-put_tree (grow t f) zero u h = omega arith
grown-put_tree (gap f) (suc n) u h = grown-put_tree f n u (omega arith)
grown-put_tree (grow t f) (suc n) u h = omega (arith, grown-put_tree f n u (omega arith))

pub grown-cut :
    (f : Forest) (n : ℕ) (t : Tree) → tree_at f n ≡ some t → suc (grown (cut f n)) ≡ grown f
unfolding grown cut tree_at
grown-cut nil n u h = cc
grown-cut (gap f) zero u h = cc
grown-cut (grow t f) zero u h = refl
grown-cut (gap f) (suc n) u h = grown-cut f n u h
grown-cut (grow t f) (suc n) u h = ap suc (grown-cut f n u h)

pub put_tree-IsForest :
    (f : Forest) (n : ℕ) (t : Tree) → IsForest f → IsTrie t → IsForest (put_tree f n t)
unfolding IsTrie put_tree
put_tree-IsForest nil n u h k = tt
put_tree-IsForest (gap f) zero u h k = (k, h)
put_tree-IsForest (grow t f) zero u (ht, h) k = (k, h)
put_tree-IsForest (gap f) (suc n) u h k = put_tree-IsForest f n u h k
put_tree-IsForest (grow t f) (suc n) u (ht, h) k = (ht, put_tree-IsForest f n u h k)

pub cut-IsForest : (f : Forest) (n : ℕ) → IsForest f → IsForest (cut f n)
unfolding IsTrie cut
cut-IsForest nil n h = tt
cut-IsForest (gap f) zero h = h
cut-IsForest (grow t f) zero (ht, h) = h
cut-IsForest (gap f) (suc n) h = cut-IsForest f n h
cut-IsForest (grow t f) (suc n) (ht, h) = (ht, cut-IsForest f n h)

pub gaps-IsForest : (n : ℕ) → IsForest (gaps n)
unfolding IsTrie
gaps-IsForest zero = tt
gaps-IsForest (suc n) = gaps-IsForest n

pub tree_at-IsTrie : (f : Forest) (n : ℕ) (t : Tree) → IsForest f → tree_at f n ≡ some t → IsTrie t
unfolding IsTrie tree_at
tree_at-IsTrie nil n u h e = cc
tree_at-IsTrie (gap f) zero u h e = cc
tree_at-IsTrie (grow t f) zero u (ht, h) e = let same : t ≡ u = cc in rw (sym same) ht
tree_at-IsTrie (gap f) (suc n) u h e = tree_at-IsTrie f n u h e
tree_at-IsTrie (grow t f) (suc n) u (ht, h) e = tree_at-IsTrie f n u h e
