-- ===== src/TrieHash/Roots/Sorted.antt =====
-- The order of keys, and sorted lists of pairs: what `BTreeMap` gives, what a trie's pairs are, and that
-- two of them with the same values are the same.
use aion_utils.Prelude.{
  ℕ, ◌≡◌, refl, ap, sym, ◌∙◌, true, false, none, some, List, [], ◌∷◌, ◌==◌, ltb, if◌then◌else◌,
  arith, Bool-cases, inl, inr, All, ==_iff,
}
use mathlib.Core.Path.{subst}
use aion_utils.Db.Map.{same, same→eq, same_refl, ne→same, find}
use aion_utils.TrieHash.Roots.{Pair, before, map_insert, map_of}

before_self : (a : List ℕ) → before a a ≡ false
unfolding before
before_self [] = refl
before_self (x ∷ a) = let e : (x == x) ≡ true = ground arith in rw e (before_self a)

pub before_trans : (a b c : List ℕ) → before a b ≡ true → before b c ≡ true → before a c ≡ true
unfolding before
before_trans [] [] c h k = cc
before_trans [] (y ∷ b) [] h k = cc
before_trans [] (y ∷ b) (z ∷ c) h k = refl
before_trans (x ∷ a) [] c h k = cc
before_trans (x ∷ a) (y ∷ b) [] h k = cc
before_trans (x ∷ a) (y ∷ b) (z ∷ c) h k = elim (Bool-cases (x == y)) [
  | inl e ↦
      let xy : x ≡ y = (==_iff x y).0 e in
      let h' : before a b ≡ true = rw e at h in
      elim (Bool-cases (y == z)) [
        | inl e' ↦
            let k' : before b c ≡ true = rw e' at k in
            let xz : (x == z) ≡ true = ground arith in rw xz (before_trans a b c h' k')
        | inr n' ↦
            let k' : ltb y z ≡ true = rw n' at k in
            let xz : (x == z) ≡ false = ground arith in rw xz (ground arith)
      ]
  | inr n ↦
      let h' : ltb x y ≡ true = rw n at h in
      elim (Bool-cases (y == z)) [
        | inl e' ↦ let xz : (x == z) ≡ false = ground arith in rw xz (ground arith)
        | inr n' ↦
            let k' : ltb y z ≡ true = rw n' at k in
            let xz : (x == z) ≡ false = ground arith in rw xz (ground arith)
      ]
]

before_other : (a b : List ℕ) → before a b ≡ false → before b a ≡ false → a ≡ b
unfolding before
before_other [] [] h k = refl
before_other [] (y ∷ b) h k = cc
before_other (x ∷ a) [] h k = cc
before_other (x ∷ a) (y ∷ b) h k = elim (Bool-cases (x == y)) [
  | inl e ↦
      let xy : x ≡ y = (==_iff x y).0 e in
      let yx : (y == x) ≡ true = ground arith in
      let h' : before a b ≡ false = rw e at h in
      let k' : before b a ≡ false = rw yx at k in rw (xy, before_other a b h' k') refl
  | inr n ↦
      let yx : (y == x) ≡ false = ground arith in
      let h' : ltb x y ≡ false = rw n at h in
      let k' : ltb y x ≡ false = rw yx at k in absurd (ground arith)
]

pub before→same : (a b : List ℕ) → before a b ≡ true → same a b ≡ false
before→same a b h =
    ne→same a b
      (λ e. let loop : false ≡ true = sym (before_self b) ∙ ap (λ c. before c b) (sym e) ∙ h in cc)

-- Each key is before all behind it.
unfoldable pub Sorted : List Pair → Type 0
Sorted [] = Unit {0}
Sorted (p ∷ pairs) = All (λ q. before (p.0) (q.0) ≡ true) pairs × Sorted pairs

-- A key before all is not there.
find-before :
    (k : List ℕ) (pairs : List Pair) → All (λ q. before k (q.0) ≡ true) pairs → find k pairs ≡ none
unfolding find
find-before k [] h = refl
find-before k ((j, v) ∷ pairs) (hj, h) = rw (before→same k j hj) (find-before k pairs h)

pub find-map_insert :
    (k : List ℕ) (p : Pair) (m : List Pair)
    → find k (map_insert p m) ≡ (if same k (p.0) then some (p.1) else find k m)
unfolding find map_insert
find-map_insert k p [] = refl
find-map_insert k (i, v) ((j, w) ∷ m) = elim (Bool-cases (before i j)) [
  | inl first ↦ rw first refl
  | inr not_first ↦ elim (Bool-cases (before j i)) [
    | inl later ↦
        rw (not_first, later)
          (elim (Bool-cases (same k j)) [
            | inl here ↦
                let other : same k i ≡ false =
                  ap (λ x. same x i) (same→eq k j here) ∙ before→same j i later in
                rw (here, other) refl
            | inr elsewhere ↦ rw elsewhere (find-map_insert k (i, v) m)
          ])
    | inr not_later ↦
        let eq : i ≡ j = before_other i j not_first not_later in
        rw (not_first, not_later)
          (elim (Bool-cases (same k i)) [
            | inl here ↦ rw here refl
            | inr elsewhere ↦
                let other : same k j ≡ false = ap (same k) (sym eq) ∙ elsewhere in
                rw (elsewhere, other) refl
          ])
  ]
]

All-map_insert :
    (P : Pair → Type 0) (p : Pair) (m : List Pair) → P p → All P m → All P (map_insert p m)
unfolding map_insert
All-map_insert P p [] hp h = (hp, tt)
All-map_insert P p (q ∷ m) hp (hq, h) = elim (Bool-cases (before (p.0) (q.0))) [
  | inl first ↦ rw first (hp, (hq, h))
  | inr not_first ↦ elim (Bool-cases (before (q.0) (p.0))) [
    | inl later ↦ rw (not_first, later) (hq, All-map_insert P p m hp h)
    | inr not_later ↦ rw (not_first, not_later) (hp, h)
  ]
]

All-before :
    (a b : List ℕ) (pairs : List Pair)
    → before a b ≡ true
    → All (λ q. before b (q.0) ≡ true) pairs
    → All (λ q. before a (q.0) ≡ true) pairs
All-before a b [] h k = tt
All-before a b (q ∷ pairs) h (hq, k) = (before_trans a b (q.0) h hq, All-before a b pairs h k)

pub map_insert-Sorted : (p : Pair) (m : List Pair) → Sorted m → Sorted (map_insert p m)
unfolding map_insert Sorted
map_insert-Sorted p [] h = (tt, tt)
map_insert-Sorted p (q ∷ m) (hq, h) = elim (Bool-cases (before (p.0) (q.0))) [
  | inl first ↦ rw first ((first, All-before (p.0) (q.0) m first hq), (hq, h))
  | inr not_first ↦ elim (Bool-cases (before (q.0) (p.0))) [
    | inl later ↦
        rw (not_first, later)
          (All-map_insert (λ r. before (q.0) (r.0) ≡ true) p m later hq, map_insert-Sorted p m h)
    | inr not_later ↦
        let eq : p.0 ≡ q.0 = before_other (p.0) (q.0) not_first not_later in
        rw (not_first, not_later) (subst (λ k. All (λ r. before k (r.0) ≡ true) m) (sym eq) hq, h)
  ]
]

pub map_of-Sorted : (input acc : List Pair) → Sorted acc → Sorted (map_of input acc)
unfolding map_of
map_of-Sorted [] acc h = h
map_of-Sorted (p ∷ input) acc h = map_of-Sorted input (map_insert p acc) (map_insert-Sorted p acc h)

pub All-map_of :
    (P : Pair → Type 0) (input acc : List Pair) → All P input → All P acc → All P (map_of input acc)
unfolding map_of
All-map_of P [] acc h k = k
All-map_of P (p ∷ input) acc (hp, h) k =
    All-map_of P input (map_insert p acc) h (All-map_insert P p acc hp k)

-- Two sorted lists of pairs with the same value at every key are the same.
pub Sorted-same :
    (xs ys : List Pair) → Sorted xs → Sorted ys → ((k : List ℕ) → find k xs ≡ find k ys) → xs ≡ ys
unfolding Sorted find
Sorted-same [] [] hx hy e = refl
Sorted-same [] ((j, w) ∷ ys) hx hy e =
    let impossible : none ≡ some w = rw (same_refl j) at (e j) in cc
Sorted-same ((i, v) ∷ xs) [] hx hy e =
    let impossible : some v ≡ none = rw (same_refl i) at (e i) in cc
Sorted-same ((i, v) ∷ xs) ((j, w) ∷ ys) (hi, hx) (hj, hy) e = elim (Bool-cases (before i j)) [
  | inl first ↦
      let there : find i ((j, w) ∷ ys) ≡ none =
        find-before i ((j, w) ∷ ys) (first, All-before i j ys first hj) in
      let impossible : some v ≡ none = rw (same_refl i) at (e i ∙ there) in cc
  | inr not_first ↦ elim (Bool-cases (before j i)) [
    | inl later ↦
        let there : find j ((i, v) ∷ xs) ≡ none =
          find-before j ((i, v) ∷ xs) (later, All-before j i xs later hi) in
        let impossible : some w ≡ none = rw (same_refl j) at (sym (e j) ∙ there) in cc
    | inr not_later ↦
        same_heads (before_other i j not_first not_later) (λ f. Sorted-same xs ys hx hy f)
  ]
]
  where
    rest_same : i ≡ j → (k : List ℕ) → find k xs ≡ find k ys
    rest_same eq k = elim (Bool-cases (same k i)) [
      | inl here ↦
          let ki : k ≡ i = same→eq k i here in
          ap (λ x. find x xs) ki
          ∙ find-before i xs hi
          ∙ sym (find-before j ys hj)
          ∙ ap (λ x. find x ys) (sym (ki ∙ eq))
      | inr other ↦
          let other' : same k j ≡ false = ap (same k) (sym eq) ∙ other in
          rw (other, other') at (e k)
    ]

    same_heads :
        i ≡ j → (((k : List ℕ) → find k xs ≡ find k ys) → xs ≡ ys) → (i, v) ∷ xs ≡ (j, w) ∷ ys
    same_heads eq ih =
        let own : same i j ≡ true = ap (same i) (sym eq) ∙ same_refl i in
        let values : some v ≡ some w = rw (same_refl i, own) at (e i) in
        let vw : v ≡ w = cc in rw (eq, vw) (ap (λ t. (j, w) ∷ t) (ih (rest_same eq)))
