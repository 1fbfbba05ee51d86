-- ===== src/TrieHash/Roots/Pairs.antt =====
-- The sorted pairs of a trie, written down without the code, and what the scans of triehash find in
-- them.
use aion_utils.Prelude.{
  ℕ, suc, ◌≤◌, ◌≡◌, refl, sym, ◌∙◌, true, false, Option, none, some, List, [], ◌∷◌, ◌++◌, ◌==◌,
  arith, length, ok, index, All, All-append, append_assoc, append-nil,
}
use aion_utils.TrieHash.Roots.{Pair, count_next}
use aion_utils.Trie.Mutable.{Value}
use aion_utils.Trie.Mutable.Shape.{Tree, tip, path, fork, Forest, nil, gap, grow}

abbrev pub own_pair : List ℕ → Option Value → List Pair
own_pair pre none = []
own_pair pre (some v) = (pre, v) ∷ []

-- The pairs of a trie under a prefix, and those of its branch from a place on.
unfoldable mutual
  pub pairs_of : List ℕ → Tree → List Pair
  pairs_of pre (tip ks v) = (pre ++ ks, v) ∷ []
  pairs_of pre (path ks t) = pairs_of (pre ++ ks) t
  pairs_of pre (fork f w) = own_pair pre w ++ pairs_in pre 0 f

  pub pairs_in : List ℕ → ℕ → Forest → List Pair
  pairs_in pre i nil = []
  pairs_in pre i (gap f) = pairs_in pre (suc i) f
  pairs_in pre i (grow t f) = pairs_of (pre ++ (i ∷ [])) t ++ pairs_in pre (suc i) f

-- A pair whose key has the prefix, and one whose key goes on with a nibble from `i` on.
abbrev pub Under : List ℕ → Pair → Type 0
Under pre pair = (rest : List ℕ) × (pair.0 ≡ pre ++ rest)

abbrev pub UnderFrom : List ℕ → ℕ → Pair → Type 0
UnderFrom pre i pair = (j : ℕ) × (rest : List ℕ) × (i ≤ j) × (pair.0 ≡ pre ++ (j ∷ rest))

pub All_map :
    {A : Type 0} (P Q : A → Type 0) (xs : List A) → ((x : A) → P x → Q x) → All P xs → All Q xs
All_map P Q [] f h = tt
All_map P Q (x ∷ xs) f (hx, h) = (f x hx, All_map P Q xs f h)

mutual
  unfolding pairs_of

  pub pairs_of-Under : (pre : List ℕ) (t : Tree) → All (Under pre) (pairs_of pre t)
  pairs_of-Under pre (tip ks v) = ((ks, refl), tt)
  pairs_of-Under pre (path ks t) =
      All_map (Under (pre ++ ks)) (Under pre) (pairs_of (pre ++ ks) t)
        (λ x h. (ks ++ h.0, h.1 ∙ append_assoc pre ks (h.0))) (pairs_of-Under (pre ++ ks) t)
  pairs_of-Under pre (fork f none) =
      All_map (UnderFrom pre 0) (Under pre) (pairs_in pre 0 f) (λ x h. (h.0 ∷ h.1, h.3))
        (pairs_in-UnderFrom pre 0 f)
  pairs_of-Under pre (fork f (some v)) = (
    ([], sym (append-nil pre)),
    All_map (UnderFrom pre 0) (Under pre) (pairs_in pre 0 f) (λ x h. (h.0 ∷ h.1, h.3))
        (pairs_in-UnderFrom pre 0 f),
  )

  pub pairs_in-UnderFrom :
      (pre : List ℕ) (i : ℕ) (f : Forest) → All (UnderFrom pre i) (pairs_in pre i f)
  pairs_in-UnderFrom pre i nil = tt
  pairs_in-UnderFrom pre i (gap f) =
      All_map (UnderFrom pre (suc i)) (UnderFrom pre i) (pairs_in pre (suc i) f)
        (λ x h. (h.0, h.1, omega (arith, h.2), h.3)) (pairs_in-UnderFrom pre (suc i) f)
  pairs_in-UnderFrom pre i (grow t f) =
      All-append (UnderFrom pre i) (pairs_of (pre ++ (i ∷ [])) t) (pairs_in pre (suc i) f)
        (All_map (Under (pre ++ (i ∷ []))) (UnderFrom pre i) (pairs_of (pre ++ (i ∷ [])) t)
          (λ x h. (i, h.0, omega arith, h.1 ∙ append_assoc pre (i ∷ []) (h.0)))
          (pairs_of-Under (pre ++ (i ∷ [])) t))
        (All_map (UnderFrom pre (suc i)) (UnderFrom pre i) (pairs_in pre (suc i) f)
          (λ x h. (h.0, h.1, omega (arith, h.2), h.3)) (pairs_in-UnderFrom pre (suc i) f))

-- The nibble behind a prefix.
index-append :
    (pre rest : List ℕ) (j : ℕ) → index {E = Unit {0}} (pre ++ (j ∷ rest)) (length pre) ≡ ok j
index-append [] rest j = refl
index-append (x ∷ pre) rest j = index-append pre rest j

-- The count of the pairs whose next nibble is the one asked for: those of its tree, and none of the places
-- behind.
count_next-none :
    (pre : List ℕ) (i : ℕ) (pairs : List Pair)
    → All (UnderFrom pre (suc i)) pairs
    → count_next (length pre) i pairs ≡ ok 0
unfolding count_next
count_next-none pre i [] h = refl
count_next-none pre i (pair ∷ pairs) ((j, rest, le, e), h) =
    let other : (j == i) ≡ false = ground arith in rw (e, index-append pre rest j, other) refl

count_next-front :
    (pre : List ℕ) (i : ℕ) (front back : List Pair)
    → All (Under (pre ++ (i ∷ []))) front
    → All (UnderFrom pre (suc i)) back
    → count_next (length pre) i (front ++ back) ≡ ok (length front)
unfolding count_next
count_next-front pre i [] back h k = count_next-none pre i back k
count_next-front pre i (pair ∷ front) back ((rest, e), h) k =
    let same : (i == i) ≡ true = ground arith in
    rw
      (
        e,
        append_assoc pre (i ∷ []) rest,
        index-append pre rest i,
        same,
        count_next-front pre i front back h k,
      )
      refl

pub count_next-grow :
    (pre : List ℕ) (i : ℕ) (t : Tree) (f : Forest)
    → count_next (length pre) i (pairs_in pre i (grow t f))
      ≡ ok (length (pairs_of (pre ++ (i ∷ [])) t))
unfolding pairs_of
count_next-grow pre i t f =
    count_next-front pre i (pairs_of (pre ++ (i ∷ [])) t) (pairs_in pre (suc i) f)
      (pairs_of-Under (pre ++ (i ∷ [])) t) (pairs_in-UnderFrom pre (suc i) f)

pub count_next-gap :
    (pre : List ℕ) (i : ℕ) (f : Forest) → count_next (length pre) i (pairs_in pre i (gap f)) ≡ ok 0
unfolding pairs_of
count_next-gap pre i f =
    count_next-none pre i (pairs_in pre (suc i) f) (pairs_in-UnderFrom pre (suc i) f)
