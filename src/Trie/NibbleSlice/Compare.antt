-- ===== src/Trie/NibbleSlice/Compare.antt =====
-- The comparisons of nibble slices: the shared prefix, `starts_with`, equality and order.
use aion_utils.Prelude.{
  ℕ, zero, suc, ◌+◌, ◌≡◌, ◌↔◌, refl, sym, ap, ◌∙◌, Bool, true, false, List, [], ◌∷◌, arith, ◌==◌,
  if◌then◌else◌, length, drop, length-drop, ok, Run, min, Bool-cases, inl, inr, ==_iff, take,
  take-append-drop, take-eq_self, ◌++◌,
}
use aion_utils.Trie.Nibbles.{drop-cons}
use aion_utils.Trie.NibbleSlice.{
  NibbleSlice, len, prefix_loop, common_prefix, starts_with, eq, cmp_loop, partial_cmp,
}
use aion_utils.Trie.NibbleSlice.View.{nibbles, IsSlice, len-nibbles, at-nibbles}
use Prim.Native.Nat.{compare, Ordering}

-- How many elements two lists share from the front on.
unfoldable pub shared : List ℕ → List ℕ → ℕ
shared [] ys = 0
shared (x ∷ xs) [] = 0
shared (x ∷ xs) (y ∷ ys) = if x == y then suc (shared xs ys) else 0

-- The lexicographic order.
unfoldable pub lex : List ℕ → List ℕ → Ordering
lex [] ys = compare 0 (length ys)
lex (x ∷ xs) [] = Ordering.gt
lex (x ∷ xs) (y ∷ ys) = elim (compare x y) [
  | Ordering.lt ↦ Ordering.lt
  | Ordering.gt ↦ Ordering.gt
  | Ordering.eq ↦ lex xs ys
]

pub shared-end : (xs ys : List ℕ) → min (length xs) (length ys) ≡ 0 → shared xs ys ≡ 0
unfolding shared
shared-end [] ys e = refl
shared-end (x ∷ xs) [] e = refl
shared-end (x ∷ xs) (y ∷ ys) e = absurd (omega arith)

lex-end :
    (xs ys : List ℕ) (a b : ℕ)
    → min (length xs) (length ys) ≡ 0
    → a + length ys ≡ b + length xs
    → compare a b ≡ lex xs ys
unfolding lex
lex-end [] ys a b e h = ground arith
lex-end (x ∷ xs) [] a b e h = ground arith
lex-end (x ∷ xs) (y ∷ ys) a b e h = absurd (omega arith)

shared_step :
    (x y i : ℕ) (xs ys : List ℕ) (m : Run ℕ)
    → m ≡ ok (i + 1 + shared xs ys)
    → (if x == y then m else ok i) ≡ ok (i + shared (x ∷ xs) (y ∷ ys))
unfolding shared
shared_step x y i xs ys m e = elim (Bool-cases (x == y)) [
  | inl same ↦ rw (same, e) (ap ok (omega arith))
  | inr other ↦ rw other (ap ok (omega arith))
]

lex_step :
    (x y : ℕ) (xs ys : List ℕ) (m : Run Ordering)
    → m ≡ ok (lex xs ys)
    → elim (compare x y) as (λ _. Run Ordering) [
      | Ordering.lt ↦ ok Ordering.lt
      | Ordering.gt ↦ ok Ordering.gt
      | Ordering.eq ↦ m
    ]
      ≡ ok (lex (x ∷ xs) (y ∷ ys))
unfolding lex
lex_step x y xs ys m e = go (compare x y)
  where
    go :
        (o : Ordering)
        → elim o as (λ _. Run Ordering) [
          | Ordering.lt ↦ ok Ordering.lt
          | Ordering.gt ↦ ok Ordering.gt
          | Ordering.eq ↦ m
        ]
          ≡ ok (elim o as (λ _. Ordering) [
            | Ordering.lt ↦ Ordering.lt
            | Ordering.gt ↦ Ordering.gt
            | Ordering.eq ↦ lex xs ys
          ])
    go Ordering.lt = refl
    go Ordering.gt = refl
    go Ordering.eq = e

suc_add : (i : ℕ) → i + 1 ≡ suc i
suc_add i = omega arith

module _ (s t : NibbleSlice) (vs : IsSlice s) (vt : IsSlice t) where
  prefix_loop-shared :
      (rounds i : ℕ)
      → i + rounds ≡ min (length (nibbles s)) (length (nibbles t))
      → prefix_loop s t rounds i ≡ ok (i + shared (drop i (nibbles s)) (drop i (nibbles t)))
  unfolding prefix_loop
  prefix_loop-shared zero i h =
      let none_left =
        shared-end (drop i (nibbles s)) (drop i (nibbles t))
          (omega (arith, length-drop i (nibbles s), length-drop i (nibbles t))) in
      rw none_left (ap ok (omega arith))
  prefix_loop-shared (suc rounds) i h =
      let rest = prefix_loop-shared rounds (i + 1) (omega arith) in
      rw
        (
          at-nibbles s vs i (omega arith),
          at-nibbles t vt i (omega arith),
          drop-cons (nibbles s) i 0 (omega arith),
          drop-cons (nibbles t) i 0 (omega arith),
        )
        (shared_step _ _ i _ _ _ (rw (sym (suc_add i)) rest))

  cmp_loop-lex :
      (rounds i : ℕ)
      → i + rounds ≡ min (length (nibbles s)) (length (nibbles t))
      → cmp_loop s t rounds i ≡ ok (lex (drop i (nibbles s)) (drop i (nibbles t)))
  unfolding cmp_loop
  cmp_loop-lex zero i h = ap ok (
      lex-end (drop i (nibbles s)) (drop i (nibbles t)) (len s) (len t)
        (omega (arith, length-drop i (nibbles s), length-drop i (nibbles t)))
        (omega (
          arith,
          length-drop i (nibbles s),
          length-drop i (nibbles t),
          len-nibbles s vs,
          len-nibbles t vt,
        )))
  cmp_loop-lex (suc rounds) i h =
      let rest = cmp_loop-lex rounds (i + 1) (omega arith) in
      rw
        (
          at-nibbles s vs i (omega arith),
          at-nibbles t vt i (omega arith),
          drop-cons (nibbles s) i 0 (omega arith),
          drop-cons (nibbles t) i 0 (omega arith),
        )
        (lex_step _ _ _ _ _ (rw (sym (suc_add i)) rest))

  -- `common_prefix` returns the length of the longest common front of the two slices' nibbles.
  pub common_prefix-shared : common_prefix s t ≡ ok (shared (nibbles s) (nibbles t))
  unfolding common_prefix
  common_prefix-shared =
      prefix_loop-shared (min (len s) (len t)) 0 (omega (arith, len-nibbles s vs, len-nibbles t vt))
      ∙ ap ok (omega arith)

  -- `partial_cmp` of two slices whose offsets lie in their bytes is the lexicographic order of
  -- their nibbles.
  pub partial_cmp-lex : partial_cmp s t ≡ ok (lex (nibbles s) (nibbles t))
  unfolding partial_cmp
  partial_cmp-lex =
      cmp_loop-lex (min (len s) (len t)) 0 (omega (arith, len-nibbles s vs, len-nibbles t vt))

-- The shared front is a front of both lists.
pub shared-take : (xs ys : List ℕ) → take (shared xs ys) xs ≡ take (shared xs ys) ys
unfolding shared
shared-take [] ys = refl
shared-take (x ∷ xs) [] = refl
shared-take (x ∷ xs) (y ∷ ys) = elim (Bool-cases (x == y)) [
  | inl same ↦ let e : x ≡ y = (==_iff x y).0 same in rw (same, e, shared-take xs ys) refl
  | inr other ↦ rw other refl
]

pub shared-append : (ys zs : List ℕ) → shared (ys ++ zs) ys ≡ length ys
unfolding shared
shared-append [] zs = shared-end zs [] (omega arith)
shared-append (y ∷ ys) zs =
    let same : (y == y) ≡ true = (==_iff y y).1 refl in rw (same, shared-append ys zs) refl

pub given : {a b : Bool} → ◌≡◌ {A = Run Bool} (ok a) (ok b) → a ≡ b
given e = cc

-- A list shares all of another one exactly when it starts with it.
pub shared_front :
    (xs ys : List ℕ) → ((shared xs ys == length ys) ≡ true) ↔ (take (length ys) xs ≡ ys)
shared_front xs ys = (
  (λ whole.
      let e : shared xs ys ≡ length ys = (==_iff _ _).0 whole in
      rw (sym e) (shared-take xs ys) ∙ take-eq_self (shared xs ys) ys (sym e)),
  (λ front.
      let parts : xs ≡ ys ++ drop (length ys) xs =
        sym (take-append-drop (length ys) xs) ∙ ap (λ t. t ++ drop (length ys) xs) front in
      (==_iff _ _).1 (ap (λ t. shared t ys) parts ∙ shared-append ys (drop (length ys) xs))),
)

module _ (s t : NibbleSlice) (vs : IsSlice s) (vt : IsSlice t) where
  -- `starts_with` answers whether the first slice's nibbles begin with all of the second one's.
  pub starts_with-nibbles :
      (starts_with s t ≡ ok true) ↔ (take (length (nibbles t)) (nibbles s) ≡ nibbles t)
  unfolding starts_with
  starts_with-nibbles =
      let found : starts_with s t ≡ ok (shared (nibbles s) (nibbles t) == length (nibbles t)) =
        rw (common_prefix-shared s t vs vt, len-nibbles t vt) refl in
      (
        (λ yes. (shared_front (nibbles s) (nibbles t)).0 (given (sym found ∙ yes))),
        (λ front. found ∙ ap ok ((shared_front (nibbles s) (nibbles t)).1 front)),
      )

  -- `==` of two slices whose offsets lie in their bytes answers whether they hold the same nibbles,
  -- whatever bytes and offsets they hold them in.
  pub eq-nibbles : (eq s t ≡ ok true) ↔ (nibbles s ≡ nibbles t)
  unfolding eq
  eq-nibbles = elim (Bool-cases (len s == len t)) [
    | inl same ↦
        let long : length (nibbles s) ≡ length (nibbles t) =
          omega (arith, len-nibbles s vs, len-nibbles t vt, (==_iff _ _).0 same) in
        let whole : take (length (nibbles t)) (nibbles s) ≡ nibbles s =
          take-eq_self (length (nibbles t)) (nibbles s) long in
        let tested : eq s t ≡ starts_with s t = rw same refl in
        (
          (λ e. sym whole ∙ starts_with-nibbles.0 (sym tested ∙ e)),
          (λ e. tested ∙ starts_with-nibbles.1 (whole ∙ e)),
        )
    | inr other ↦
        let tested : eq s t ≡ ok false = rw other refl in
        (
          (λ e. let impossible : false ≡ true = given (sym tested ∙ e) in cc),
          (λ e.
              let same : len s ≡ len t = len-nibbles s vs ∙ ap length e ∙ sym (len-nibbles t vt) in
              let impossible : false ≡ true = sym other ∙ (==_iff _ _).1 same in cc),
        )
  ]
