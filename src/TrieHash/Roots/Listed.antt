-- ===== src/TrieHash/Roots/Listed.antt =====
-- The pairs of a trie are sorted, and they are its keys and values.
use aion_utils.Prelude.{
  or_else, ℕ, zero, suc, ◌+◌, ◌<◌, ◌≡◌, refl, ap, sym, ◌∙◌, true, false, Option, none, some, List,
  [], ◌∷◌, ◌++◌, ◌==◌, arith, Bool-cases, inl, inr, length, take, drop, take-append-drop,
  take-length_append, All, All-append, append_assoc, append-nil,
}
use aion_utils.Db.Map.{same, same→eq, same_refl, ne→same, find}
use aion_utils.TrieHash.Roots.{Pair, before}
use aion_utils.TrieHash.Roots.Pairs.{
  pairs_of, pairs_in, Under, UnderFrom, All_map, pairs_of-Under, pairs_in-UnderFrom,
}
use aion_utils.TrieHash.Roots.Sorted.{Sorted, before→same}
use aion_utils.Trie.Mutable.{Value}
use aion_utils.Trie.Mutable.Shape.{
  Tree, tip, path, fork, Forest, nil, gap, grow, value_at, value_in,
}

before_behind : (pre a b : List ℕ) → before (pre ++ a) (pre ++ b) ≡ before a b
unfolding before
before_behind [] a b = refl
before_behind (x ∷ pre) a b = let e : (x == x) ≡ true = ground arith in rw e (before_behind pre a b)

same_behind : (pre a b : List ℕ) → same (pre ++ a) (pre ++ b) ≡ same a b
unfolding same
same_behind [] a b = refl
same_behind (x ∷ pre) a b = let e : (x == x) ≡ true = ground arith in rw e (same_behind pre a b)

before_next : (pre a b : List ℕ) (i j : ℕ) → i < j → before (pre ++ (i ∷ a)) (pre ++ (j ∷ b)) ≡ true
unfolding before
before_next pre a b i j h =
    let other : (i == j) ≡ false = ground arith in
    before_behind pre (i ∷ a) (j ∷ b) ∙ rw other (ground arith)

Sorted-append :
    (xs ys : List Pair)
    → Sorted xs
    → Sorted ys
    → All (λ p. All (λ q. before (p.0) (q.0) ≡ true) ys) xs
    → Sorted (xs ++ ys)
unfolding Sorted
Sorted-append [] ys hx hy h = hy
Sorted-append (x ∷ xs) ys (hx, hxs) hy (h, hs) =
    (All-append (λ q. before (x.0) (q.0) ≡ true) xs ys hx h, Sorted-append xs ys hxs hy hs)

mutual
  unfolding pairs_of Sorted before

  pub pairs_of-Sorted : (pre : List ℕ) (t : Tree) → Sorted (pairs_of pre t)
  pairs_of-Sorted pre (tip ks v) = (tt, tt)
  pairs_of-Sorted pre (path ks t) = pairs_of-Sorted (pre ++ ks) t
  pairs_of-Sorted pre (fork f none) = pairs_in-Sorted pre 0 f
  pairs_of-Sorted pre (fork f (some v)) = (
    All_map (UnderFrom pre 0) (λ q. before pre (q.0) ≡ true) (pairs_in pre 0 f)
        (λ q h.
          ap (before pre) (h.3)
          ∙ ap (λ x. before x (pre ++ (h.0 ∷ h.1))) (sym (append-nil pre))
          ∙ before_behind pre [] (h.0 ∷ h.1))
        (pairs_in-UnderFrom pre 0 f),
    pairs_in-Sorted pre 0 f,
  )

  pairs_in-Sorted : (pre : List ℕ) (i : ℕ) (f : Forest) → Sorted (pairs_in pre i f)
  pairs_in-Sorted pre i nil = tt
  pairs_in-Sorted pre i (gap f) = pairs_in-Sorted pre (suc i) f
  pairs_in-Sorted pre i (grow t f) =
      Sorted-append (pairs_of (pre ++ (i ∷ [])) t) (pairs_in pre (suc i) f)
        (pairs_of-Sorted (pre ++ (i ∷ [])) t) (pairs_in-Sorted pre (suc i) f)
        (All_map (Under (pre ++ (i ∷ [])))
          (λ p. All (λ q. before (p.0) (q.0) ≡ true) (pairs_in pre (suc i) f))
          (pairs_of (pre ++ (i ∷ [])) t)
          (λ p h.
            All_map (UnderFrom pre (suc i)) (λ q. before (p.0) (q.0) ≡ true)
              (pairs_in pre (suc i) f)
              (λ q k.
                rw (h.1, k.3, append_assoc pre (i ∷ []) (h.0))
                  (before_next pre (h.0) (k.1) i (k.0) (omega (arith, k.2))))
              (pairs_in-UnderFrom pre (suc i) f))
          (pairs_of-Under (pre ++ (i ∷ [])) t))

find-append : (k : List ℕ) (xs ys : List Pair) → find k (xs ++ ys) ≡ or_else (find k xs) (find k ys)
unfolding find
find-append k [] ys = refl
find-append k ((j, v) ∷ xs) ys = elim (Bool-cases (same k j)) [
  | inl e ↦ rw e refl
  | inr e ↦ rw e (find-append k xs ys)
]

or_else-none : (o : Option Value) → or_else o none ≡ o
or_else-none none = refl
or_else-none (some v) = refl

find-absent : (k : List ℕ) (xs : List Pair) → All (λ p. same k (p.0) ≡ false) xs → find k xs ≡ none
unfolding find
find-absent k [] h = refl
find-absent k ((j, v) ∷ xs) (e, h) = rw e (find-absent k xs h)

-- A key that goes on with a nibble is not among the pairs of later places, and not among those of an
-- earlier one.
find-later :
    (pre k : List ℕ) (i j : ℕ) (f : Forest)
    → j < i
    → find (pre ++ (j ∷ k)) (pairs_in pre i f) ≡ none
find-later pre k i j f h = find-absent (pre ++ (j ∷ k)) (pairs_in pre i f) (
    All_map (UnderFrom pre i) (λ p. same (pre ++ (j ∷ k)) (p.0) ≡ false) (pairs_in pre i f)
      (λ p u. rw (u.3) (
        before→same (pre ++ (j ∷ k)) (pre ++ (u.0 ∷ u.1))
          (before_next pre k (u.1) j (u.0) (omega (arith, u.2)))))
      (pairs_in-UnderFrom pre i f))

find-under :
    (pre ks k : List ℕ) (t : Tree)
    → same ks (take (length ks) k) ≡ false
    → find (pre ++ k) (pairs_of (pre ++ ks) t) ≡ none
find-under pre ks k t h = find-absent (pre ++ k) (pairs_of (pre ++ ks) t) (
    All_map (Under (pre ++ ks)) (λ p. same (pre ++ k) (p.0) ≡ false) (pairs_of (pre ++ ks) t)
      (λ p u.
        rw (u.1, append_assoc pre ks (u.0), same_behind pre k (ks ++ u.0))
          (ne→same k (ks ++ u.0) (λ e.
            let front : take (length ks) k ≡ ks =
              ap (take (length ks)) e ∙ take-length_append ks (u.0) in
            let impossible : true ≡ false = sym (same_refl ks) ∙ ap (same ks) (sym front) ∙ h in
            cc)))
      (pairs_of-Under (pre ++ ks) t))

mutual
  unfolding pairs_of value_at find same

  -- The value of a trie's key is found among its pairs, and the other way round.
  pub find-pairs_of :
      (pre : List ℕ) (t : Tree) (k : List ℕ) → find (pre ++ k) (pairs_of pre t) ≡ value_at t k
  find-pairs_of pre (tip ks v) k = elim (Bool-cases (same ks k)) [
    | inl e ↦
        let eq : ks ≡ k = same→eq ks k e in
        rw (e, same_behind pre k ks, ap (λ x. same k x) eq, same_refl k) refl
    | inr e ↦
        let other : same k ks ≡ false =
          ne→same k ks (λ eq.
            let loop : true ≡ false = sym (same_refl ks) ∙ ap (same ks) (sym eq) ∙ e in cc) in
        rw (e, same_behind pre k ks, other) refl
  ]
  find-pairs_of pre (path ks t) k = elim (Bool-cases (same ks (take (length ks) k))) [
    | inl e ↦
        let front : ks ++ drop (length ks) k ≡ k =
          ap (λ x. x ++ drop (length ks) k) (same→eq ks (take (length ks) k) e)
          ∙ take-append-drop (length ks) k in
        rw e (
          ap (λ x. find x (pairs_of (pre ++ ks) t))
            (ap (λ x. pre ++ x) (sym front) ∙ sym (append_assoc pre ks (drop (length ks) k)))
          ∙ find-pairs_of (pre ++ ks) t (drop (length ks) k))
    | inr e ↦ rw e (find-under pre ks k t e)
  ]
  find-pairs_of pre (fork f none) [] = find-absent (pre ++ []) (pairs_in pre 0 f) (
      All_map (UnderFrom pre 0) (λ p. same (pre ++ []) (p.0) ≡ false) (pairs_in pre 0 f)
        (λ p u. rw (u.3, same_behind pre [] (u.0 ∷ u.1)) refl) (pairs_in-UnderFrom pre 0 f))
  find-pairs_of pre (fork f none) (n ∷ k) =
      let start : 0 + n ≡ n = omega arith in rw start at (find-pairs_in pre 0 f n k)
  find-pairs_of pre (fork f (some v)) [] =
      let here : same (pre ++ []) pre ≡ true =
        ap (λ x. same x pre) (append-nil pre) ∙ same_refl pre in
      rw here refl
  find-pairs_of pre (fork f (some v)) (n ∷ k) =
      let other : same (pre ++ (n ∷ k)) pre ≡ false =
        ap (same (pre ++ (n ∷ k))) (sym (append-nil pre)) ∙ same_behind pre (n ∷ k) [] in
      let start : 0 + n ≡ n = omega arith in rw other (rw start at (find-pairs_in pre 0 f n k))

  find-pairs_in :
      (pre : List ℕ) (i : ℕ) (f : Forest) (n : ℕ) (k : List ℕ)
      → find (pre ++ ((i + n) ∷ k)) (pairs_in pre i f) ≡ value_in f n k
  find-pairs_in pre i nil n k = refl
  find-pairs_in pre i (gap f) zero k = find-later pre k (suc i) (i + 0) f (omega arith)
  find-pairs_in pre i (gap f) (suc n) k =
      let on : i + suc n ≡ suc i + n = omega arith in rw on (find-pairs_in pre (suc i) f n k)
  find-pairs_in pre i (grow t f) zero k =
      let stay : i + 0 ≡ i = omega arith in
      let here =
        ap (λ x. find x (pairs_of (pre ++ (i ∷ [])) t)) (sym (append_assoc pre (i ∷ []) k))
        ∙ find-pairs_of (pre ++ (i ∷ [])) t k in
      rw
        (
          stay,
          find-append (pre ++ (i ∷ k)) (pairs_of (pre ++ (i ∷ [])) t) (pairs_in pre (suc i) f),
          find-later pre k (suc i) i f (omega arith),
          or_else-none (find (pre ++ (i ∷ k)) (pairs_of (pre ++ (i ∷ [])) t)),
        )
        here
  find-pairs_in pre i (grow t f) (suc n) k =
      let on : i + suc n ≡ suc i + n = omega arith in
      let apart : (i == (suc i + n)) ≡ false = ground arith in
      let absent = find-under pre (i ∷ []) ((suc i + n) ∷ k) t (rw apart refl) in
      rw
        (
          on,
          find-append (pre ++ ((suc i + n) ∷ k)) (pairs_of (pre ++ (i ∷ [])) t)
              (pairs_in pre (suc i) f),
          absent,
        )
        (find-pairs_in pre (suc i) f n k)
