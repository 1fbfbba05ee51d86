-- ===== src/Trie/Mutable/Shape/Canonical.antt =====
-- A trie in its canonical form is given by the values that it holds.
use aion_utils.Prelude.{
  ℕ, suc, ◌+◌, ◌≤◌, ◌<◌, ◌≡◌, refl, ap, sym, ◌∙◌, true, Option, none, some, List, [], ◌∷◌, ◌++◌,
  ◌==◌, if◌then◌else◌, arith, Bool-cases, inl, inr, ==_iff, length,
}
use aion_utils.Trie.Mutable.{Value}
use aion_utils.Trie.Mutable.Shape.{
  Tree, tip, path, fork, Forest, nil, gap, grow, value_at, value_in, slots, grown, held, IsTrie,
  IsForest, IsFork,
}
use aion_utils.Trie.Mutable.Shape.Filled.{
  under-append_key, filled, filled_in, Elsewhere, Spreads, only-Spreads, fork-Spreads,
}
use aion_utils.Trie.Mutable.Shape.Reads.{Reading, under, only, value_at-path, value_at-tip}

some_ne_none : {A : Type 0} {x : A} → some x ≡ none → ⊥
some_ne_none e = cc

under_away :
    (j : ℕ) (ks : List ℕ) (g : Reading) (k : List ℕ) → Elsewhere j k → under (j ∷ ks) g k ≡ none
unfolding under
under_away j ks g [] h = refl
under_away j ks g (n ∷ k) h = rw h refl

-- The front of the keys and the rest are given by what is read.
under_unique :
    (ks js : List ℕ) (g h : Reading)
    → Spreads g
    → Spreads h
    → ((k : List ℕ) → under ks g k ≡ under js h k)
    → (ks ≡ js) × ((k : List ℕ) → g k ≡ h k)
unfolding under
under_unique [] [] g h sg sh e = (refl, e)
under_unique [] (j ∷ js) g h sg sh e =
    let a = sg j in absurd (some_ne_none (sym a.found ∙ e a.key ∙ under_away j js h a.key a.away))
under_unique (i ∷ ks) [] g h sg sh e =
    let a = sh i in
    absurd (some_ne_none (sym a.found ∙ sym (e a.key) ∙ under_away i ks g a.key a.away))
under_unique (i ∷ ks) (j ∷ js) g h sg sh e = elim (Bool-cases (j == i)) [
  | inl q ↦
      let eq : j ≡ i = (==_iff j i).0 q in
      let self : (i == i) ≡ true = (==_iff i i).1 refl in
      let (fronts, rest) = under_unique ks js g h sg sh (λ k.
        sym (ap (λ b. if b then under ks g k else none) self)
        ∙ e (i ∷ k)
        ∙ ap (λ b. if b then under js h k else none) q) in
      (rw (eq, fronts) refl, rest)
  | inr q ↦
      let a = sg 0 in
      let self : (i == i) ≡ true = (==_iff i i).1 refl in
      absurd (
        some_ne_none (
          sym a.found
          ∙ sym (under-append_key ks g a.key)
          ∙ sym (ap (λ b. if b then under ks g (ks ++ a.key) else none) self)
          ∙ e (i ∷ ks ++ a.key)
          ∙ ap (λ b. if b then under js h (ks ++ a.key) else none) q))
]

spreads : (t : Tree) → IsFork t → IsTrie t → Spreads (value_at t)
spreads (tip ks v) hf h = absurd hf
spreads (path ks t) hf h = absurd hf
spreads (fork f w) hf h = fork-Spreads f w h

-- A fork holds more than one value.
not_only :
    (t : Tree) (v : Value) → IsFork t → IsTrie t → ((k : List ℕ) → only v k ≡ value_at t k) → ⊥
unfolding value_at IsTrie
not_only (tip ks w) v hf h e = absurd hf
not_only (path ks t) v hf h e = absurd hf
not_only (fork f w) v hf (h, hs, hc) e =
    let b = filled_in f h (some_tree w hc) in some_ne_none (sym b.found ∙ sym (e (b.place ∷ b.key)))
  where
    some_tree : (w : Option Value) → 2 ≤ grown f + held w → 1 ≤ grown f
    some_tree none c = omega arith
    some_tree (some x) c = omega arith

no_front : (ks : List ℕ) → 0 < length ks → ks ≡ [] → ⊥
no_front ks long e = let z : length ks ≡ 0 = ap length e in omega arith

-- Two tries that read alike, each as what stands behind the front of its keys.
fronts :
    (ks js : List ℕ) (g h x y : Reading)
    → Spreads g
    → Spreads h
    → ((k : List ℕ) → x k ≡ under ks g k)
    → ((k : List ℕ) → y k ≡ under js h k)
    → ((k : List ℕ) → x k ≡ y k)
    → (ks ≡ js) × ((k : List ℕ) → g k ≡ h k)
fronts ks js g h x y sg sh rx ry e = under_unique ks js g h sg sh (λ k. sym (rx k) ∙ e k ∙ ry k)

value_at-here : (t : Tree) (k : List ℕ) → value_at t k ≡ under [] (value_at t) k
unfolding under
value_at-here t k = refl

same_only : (v w : Value) → ((k : List ℕ) → only v k ≡ only w k) → v ≡ w
same_only v w e = let here : some v ≡ some w = e [] in cc

mutual
  unfolding value_at IsTrie slots

  alike : (t u : Tree) → IsTrie t → IsTrie u → ((k : List ℕ) → value_at t k ≡ value_at u k) → t ≡ u
  alike (tip ks v) (tip js w) ht hu e =
      let (eq, rest) =
        fronts ks js (only v) (only w) (value_at (tip ks v)) (value_at (tip js w)) (only-Spreads v)
          (only-Spreads w) (value_at-tip ks v) (value_at-tip js w) e in
      rw (eq, same_only v w rest) refl
  alike (tip ks v) (path js u) ht (hj, long, hf, hu) e =
      let (eq, rest) =
        fronts ks js (only v) (value_at u) (value_at (tip ks v)) (value_at (path js u))
          (only-Spreads v) (spreads u hf hu) (value_at-tip ks v) (value_at-path js u) e in
      absurd (not_only u v hf hu rest)
  alike (tip ks v) (fork g x) ht hu e =
      let (eq, rest) =
        fronts ks [] (only v) (value_at (fork g x)) (value_at (tip ks v)) (value_at (fork g x))
          (only-Spreads v) (fork-Spreads g x hu) (value_at-tip ks v) (value_at-here (fork g x)) e in
      absurd (not_only (fork g x) v tt hu rest)
  alike (path ks t) (tip js w) (hk, long, hf, ht) hu e =
      let (eq, rest) =
        fronts js ks (only w) (value_at t) (value_at (tip js w)) (value_at (path ks t))
          (only-Spreads w) (spreads t hf ht) (value_at-tip js w) (value_at-path ks t)
          (λ k. sym (e k)) in
      absurd (not_only t w hf ht rest)
  alike (path ks t) (path js u) (hk, long, hf, ht) (hj, long', hf', hu) e =
      let (eq, rest) =
        fronts ks js (value_at t) (value_at u) (value_at (path ks t)) (value_at (path js u))
          (spreads t hf ht) (spreads u hf' hu) (value_at-path ks t) (value_at-path js u) e in
      rw (eq, alike t u ht hu rest) refl
  alike (path ks t) (fork g x) (hk, long, hf, ht) hu e =
      let (eq, rest) =
        fronts ks [] (value_at t) (value_at (fork g x)) (value_at (path ks t)) (value_at (fork g x))
          (spreads t hf ht) (fork-Spreads g x hu) (value_at-path ks t) (value_at-here (fork g x))
          e in
      absurd (no_front ks long eq)
  alike (fork f w) (tip js y) ht hu e =
      let (eq, rest) =
        fronts js [] (only y) (value_at (fork f w)) (value_at (tip js y)) (value_at (fork f w))
          (only-Spreads y) (fork-Spreads f w ht) (value_at-tip js y) (value_at-here (fork f w))
          (λ k. sym (e k)) in
      absurd (not_only (fork f w) y tt ht rest)
  alike (fork f w) (path js u) ht (hj, long, hf, hu) e =
      let (eq, rest) =
        fronts js [] (value_at u) (value_at (fork f w)) (value_at (path js u)) (value_at (fork f w))
          (spreads u hf hu) (fork-Spreads f w ht) (value_at-path js u) (value_at-here (fork f w))
          (λ k. sym (e k)) in
      absurd (no_front js long eq)
  alike (fork f w) (fork g x) (hf, hs, hc) (hg, hs', hc') e =
      let below : f ≡ g = alike_in f g hf hg (hs ∙ sym hs') (λ n k. e (n ∷ k)) in
      let here : w ≡ x = e [] in rw (below, here) refl

  alike_in :
      (f g : Forest)
      → IsForest f
      → IsForest g
      → slots f ≡ slots g
      → ((n : ℕ) (k : List ℕ) → value_in f n k ≡ value_in g n k)
      → f ≡ g
  alike_in nil nil hf hg s e = refl
  alike_in nil (gap g) hf hg s e = absurd (omega arith)
  alike_in nil (grow u g) hf hg s e = absurd (omega arith)
  alike_in (gap f) nil hf hg s e = absurd (omega arith)
  alike_in (grow t f) nil hf hg s e = absurd (omega arith)
  alike_in (gap f) (gap g) hf hg s e =
      ap gap (alike_in f g hf hg (omega arith) (λ n k. e (suc n) k))
  alike_in (gap f) (grow u g) hf (hu, hg) s e =
      let b = filled u hu in absurd (some_ne_none (sym b.found ∙ sym (e 0 b.key)))
  alike_in (grow t f) (gap g) (ht, hf) hg s e =
      let b = filled t ht in absurd (some_ne_none (sym b.found ∙ e 0 b.key))
  alike_in (grow t f) (grow u g) (ht, hf) (hu, hg) s e =
      let here : t ≡ u = alike t u ht hu (λ k. e 0 k) in
      let below : f ≡ g = alike_in f g hf hg (omega arith) (λ n k. e (suc n) k) in
      rw (here, below) refl

-- Two tries in their canonical form that hold the same values are the same tree.
pub value_at_unique :
    (t u : Tree) → IsTrie t → IsTrie u → ((k : List ℕ) → value_at t k ≡ value_at u k) → t ≡ u
value_at_unique t u ht hu e = alike t u ht hu e

-- A trie is not empty.
pub value_at-some : (t : Tree) → IsTrie t → ((k : List ℕ) → value_at t k ≡ none) → ⊥
value_at-some t h e = let b = filled t h in some_ne_none (sym b.found ∙ e b.key)
