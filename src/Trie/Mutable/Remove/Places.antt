-- ===== src/Trie/Mutable/Remove/Places.antt =====
-- What the scan of `fix` finds among the children of a branch: none, one, or several.
use aion_utils.Prelude.{
  ℕ, zero, suc, ◌+◌, ◌≤◌, ◌<◌, ◌≡◌, refl, ap, ◌∙◌, true, false, none, some, ◌==◌, if◌then◌else◌,
  arith,
}
use aion_utils.Trie.Mutable.Remove.{unused, one, many, used_from}
use aion_utils.Trie.Mutable.Shape.{Tree, Forest, nil, gap, grow, node_of, children_of, slots, grown}
use aion_utils.Trie.Mutable.Shape.Forests.{tree_at}

used_from-many : (f : Forest) (i : ℕ) → used_from (children_of f) i many ≡ many
unfolding used_from node_of
used_from-many nil i = refl
used_from-many (gap f) i = used_from-many f (i + 1)
used_from-many (grow t f) i = used_from-many f (i + 1)

used_from-one :
    (f : Forest) (i j : ℕ)
    → used_from (children_of f) i (one j) ≡ (if grown f == 0 then one j else many)
unfolding used_from node_of grown
used_from-one nil i j = refl
used_from-one (gap f) i j = used_from-one f (i + 1) j
used_from-one (grow t f) i j =
    let more : (suc (grown f) == 0) ≡ false = ground arith in rw more refl

pub used_from-none :
    (f : Forest) (i : ℕ) → grown f ≡ 0 → used_from (children_of f) i unused ≡ unused
unfolding used_from node_of grown
used_from-none nil i h = refl
used_from-none (gap f) i h = used_from-none f (i + 1) h
used_from-none (grow t f) i h = absurd (omega arith)

pub used_from-several :
    (f : Forest) (i : ℕ) → 2 ≤ grown f → used_from (children_of f) i unused ≡ many
unfolding used_from node_of grown
used_from-several nil i h = absurd (omega arith)
used_from-several (gap f) i h = used_from-several f (i + 1) h
used_from-several (grow t f) i h =
    let more : (grown f == 0) ≡ false = ground arith in used_from-one f (i + 1) i ∙ rw more refl

pub barren : (f : Forest) (n : ℕ) → grown f ≡ 0 → tree_at f n ≡ none
unfolding tree_at grown
barren nil n h = refl
barren (gap f) zero h = refl
barren (gap f) (suc n) h = barren f n h
barren (grow t f) n h = absurd (omega arith)

-- The only tree of a forest.
pub record Single (f : Forest) (i : ℕ) : Type 0 where
  pub place : ℕ
  pub tree : Tree
  pub inside : place < slots f
  pub used : used_from (children_of f) i unused ≡ one (i + place)
  pub there : tree_at f place ≡ some tree
  pub alone : (n : ℕ) → (n == place) ≡ false → tree_at f n ≡ none

pub used_from-Single : (f : Forest) (i : ℕ) → grown f ≡ 1 → Single f i
unfolding used_from node_of grown tree_at slots
used_from-Single nil i h = absurd (omega arith)
used_from-Single (gap f) i h =
    let below = used_from-Single f (i + 1) h in
    record {
      place = suc below.place;
      tree = below.tree;
      inside = omega (arith, below.inside);
      used = below.used ∙ ap one (omega arith);
      there = below.there;
      alone = apart below;
    }
  where
    apart : (b : Single f (i + 1)) (n : ℕ) → (n == suc b.place) ≡ false → tree_at (gap f) n ≡ none
    apart b zero e = refl
    apart b (suc n) e = b.alone n (ground arith)
used_from-Single (grow t f) i h =
    let none_else : (grown f == 0) ≡ true = ground arith in
    record {
      place = 0;
      tree = t;
      inside = omega arith;
      used = used_from-one f (i + 1) i ∙ rw none_else (ap one (omega arith));
      there = refl;
      alone = apart (omega arith);
    }
  where
    apart : grown f ≡ 0 → (n : ℕ) → (n == 0) ≡ false → tree_at (grow t f) n ≡ none
    apart g zero e = cc
    apart g (suc n) e = barren f n g
