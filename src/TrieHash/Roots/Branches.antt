-- ===== src/TrieHash/Roots/Branches.antt =====
-- The first pairs of a branch, and how much of their keys all of its pairs share.
use aion_utils.Prelude.{
  ℕ, suc, ◌+◌, ◌≤◌, ◌<◌, ◌≡◌, ◌⊎◌, refl, ap, ◌∙◌, true, false, Option, none, some, List, [], ◌∷◌,
  ◌++◌, ◌==◌, min, arith, inl, inr, length, length-append, ok, All, append_assoc,
}
use mathlib.Core.Path.{subst}
use aion_utils.TrieHash.Nibbles.{shared_prefix_len-shared}
use aion_utils.TrieHash.Roots.{Pair, least_shared}
use aion_utils.TrieHash.Roots.Pairs.{
  pairs_of, pairs_in, Under, UnderFrom, All_map, pairs_of-Under, pairs_in-UnderFrom,
}
use aion_utils.Trie.NibbleSlice.Compare.{shared, shared-append}
use aion_utils.Trie.NibbleSlice.Fronts.{shared_comm}
use aion_utils.Trie.Mutable.{Value}
use aion_utils.Trie.Mutable.Shape.{
  Tree, tip, path, fork, Forest, nil, gap, grow, grown, IsTrie, IsForest,
}

-- One of the pairs is so.
abbrev pub Some : (Pair → Type 0) → List Pair → Type 0
Some P [] = ⊥
Some P (x ∷ xs) = P x ⊎ Some P xs

Some-append : (P : Pair → Type 0) (xs ys : List Pair) → Some P ys → Some P (xs ++ ys)
Some-append P [] ys h = h
Some-append P (x ∷ xs) ys h = inr (Some-append P xs ys h)

module _ (key : List ℕ) where
  -- The fold is between what all the pairs share with the key and what one of them does.
  least_shared-between :
      (m acc : ℕ) (pairs : List Pair)
      → All (λ p. m ≤ shared key (p.0)) pairs
      → m ≤ acc
      → (n : ℕ) × (least_shared key acc pairs ≡ ok n) × (m ≤ n) × (n ≤ acc)
  unfolding least_shared
  least_shared-between m acc [] h k = (acc, refl, k, omega arith)
  least_shared-between m acc (p ∷ pairs) (hp, h) k =
      let (n, run, low, high) =
        least_shared-between m (min (shared key (p.0)) acc) pairs h (omega arith) in
      (n, rw (shared_prefix_len-shared key (p.0)) run, low, omega arith)

  pub least_shared-acc :
      (m : ℕ) (pairs : List Pair)
      → All (λ p. m ≤ shared key (p.0)) pairs
      → least_shared key m pairs ≡ ok m
  least_shared-acc m pairs h =
      let (n, run, low, high) = least_shared-between m m pairs h (omega arith) in
      let same : n ≡ m = omega arith in run ∙ ap ok same

  pub least_shared-Some :
      (m acc : ℕ) (pairs : List Pair)
      → All (λ p. m ≤ shared key (p.0)) pairs
      → m ≤ acc
      → Some (λ p. shared key (p.0) ≡ m) pairs
      → least_shared key acc pairs ≡ ok m
  unfolding least_shared
  least_shared-Some m acc [] h k s = absurd s
  least_shared-Some m acc (p ∷ pairs) (hp, h) k (inl e) =
      let least : min (shared key (p.0)) acc ≡ m = omega arith in
      rw (shared_prefix_len-shared key (p.0), least) (least_shared-acc m pairs h)
  least_shared-Some m acc (p ∷ pairs) (hp, h) k (inr s) =
      rw (shared_prefix_len-shared key (p.0))
        (least_shared-Some m (min (shared key (p.0)) acc) pairs h (omega arith) s)

pub shared_front-append :
    (pre a b : List ℕ) → shared (pre ++ a) (pre ++ b) ≡ length pre + shared a b
unfolding shared
shared_front-append [] a b = omega arith
shared_front-append (x ∷ pre) a b =
    let same : (x == x) ≡ true = ground arith in
    rw same (omega (arith, shared_front-append pre a b))

shared_other :
    (pre a b : List ℕ) (i j : ℕ) → i < j → shared (pre ++ (i ∷ a)) (pre ++ (j ∷ b)) ≡ length pre
unfolding shared
shared_other pre a b i j h =
    let other : (i == j) ≡ false = ground arith in
    shared_front-append pre (i ∷ a) (j ∷ b) ∙ rw other (omega arith)

-- A list of pairs with a first one.
abbrev pub First : List Pair → Type 0
First pairs = (p : Pair) × (rest : List Pair) × (pairs ≡ p ∷ rest)

First-append : (xs ys : List Pair) → First xs → First (xs ++ ys)
First-append xs ys (p, rest, e) = (p, rest ++ ys, ap (λ t. t ++ ys) e)

mutual
  unfolding pairs_of IsTrie grown

  pub pairs_of-First : (pre : List ℕ) (t : Tree) → IsTrie t → First (pairs_of pre t)
  pairs_of-First pre (tip ks v) h = ((pre ++ ks, v), [], refl)
  pairs_of-First pre (path ks t) (hk, pos, hf, ht) = pairs_of-First (pre ++ ks) t ht
  pairs_of-First pre (fork f none) (hf, hs, hc) = pairs_in-First pre 0 f hf (omega arith)
  pairs_of-First pre (fork f (some v)) (hf, hs, hc) = ((pre, v), pairs_in pre 0 f, refl)

  pairs_in-First :
      (pre : List ℕ) (i : ℕ) (f : Forest) → IsForest f → 0 < grown f → First (pairs_in pre i f)
  pairs_in-First pre i nil h pos = absurd (omega arith)
  pairs_in-First pre i (gap f) h pos = pairs_in-First pre (suc i) f h pos
  pairs_in-First pre i (grow t f) (ht, h) pos =
      First-append (pairs_of (pre ++ (i ∷ [])) t) (pairs_in pre (suc i) f)
        (pairs_of-First (pre ++ (i ∷ [])) t ht)

-- A first pair, and one in a later place.
record Apart (pre : List ℕ) (pairs : List Pair) : Type 0 where
  first : Pair
  rest : List Pair
  here : pairs ≡ first ∷ rest
  nibble : ℕ
  tail : List ℕ
  goes : first.0 ≡ pre ++ (nibble ∷ tail)
  other : Some (UnderFrom pre (suc nibble)) rest

pairs_in-Apart :
    (pre : List ℕ) (i : ℕ) (f : Forest) → IsForest f → 2 ≤ grown f → Apart pre (pairs_in pre i f)
unfolding pairs_of IsTrie grown
pairs_in-Apart pre i nil h two = absurd (omega arith)
pairs_in-Apart pre i (gap f) h two = pairs_in-Apart pre (suc i) f h two
pairs_in-Apart pre i (grow t f) (ht, h) two =
    let (p, rest, e) = pairs_of-First (pre ++ (i ∷ [])) t ht in
    let (p', rest', e') = pairs_in-First pre (suc i) f h (omega arith) in
    let (under, _) = subst (All (Under (pre ++ (i ∷ [])))) e (pairs_of-Under (pre ++ (i ∷ [])) t) in
    let (later, _) = subst (All (UnderFrom pre (suc i))) e' (pairs_in-UnderFrom pre (suc i) f) in
    record {
      first = p;
      rest = rest ++ pairs_in pre (suc i) f;
      here = ap (λ x. x ++ pairs_in pre (suc i) f) e;
      nibble = i;
      tail = under.0;
      goes = under.1 ∙ append_assoc pre (i ∷ []) (under.0);
      other = Some-append (UnderFrom pre (suc i)) rest (pairs_in pre (suc i) f) (rw e' (inl later));
    }

-- A branch has two pairs at least, and all of them share the prefix with the first one and no
-- more. The first pair's key is the prefix if the branch has a value, and else it is longer.
pub record Branches (pre : List ℕ) (f : Forest) (w : Option Value) : Type 0 where
  pub first : Pair
  pub second : Pair
  pub rest : List Pair
  pub pairs : pairs_of pre (fork f w) ≡ first ∷ second ∷ rest
  pub shares : least_shared (first.0) (length (first.0)) (second ∷ rest) ≡ ok (length pre)
  pub value : (v : Value) → w ≡ some v → first ≡ (pre, v)
  pub no_value : w ≡ none → length pre < length (first.0)

Some-map : (P Q : Pair → Type 0) (xs : List Pair) → ((x : Pair) → P x → Q x) → Some P xs → Some Q xs
Some-map P Q [] f h = h
Some-map P Q (x ∷ xs) f (inl h) = inl (f x h)
Some-map P Q (x ∷ xs) f (inr h) = inr (Some-map P Q xs f h)

longer :
    (pre rest : List ℕ) (i : ℕ) (key : List ℕ) → key ≡ pre ++ (i ∷ rest) → length pre < length key
longer pre rest i key e = omega (arith, ap length e, length-append pre (i ∷ rest))

with_value :
    (pre : List ℕ) (f : Forest) (v : Value) → First (pairs_in pre 0 f) → Branches pre f (some v)
unfolding pairs_of
with_value pre f v (second, rest, e) =
    let under = subst (All (UnderFrom pre 0)) e (pairs_in-UnderFrom pre 0 f) in
    let long =
      All_map (UnderFrom pre 0) (λ p. length pre ≤ shared pre (p.0)) (second ∷ rest)
        (λ p h.
          rw (h.3, shared_comm pre (pre ++ (h.0 ∷ h.1)), shared-append pre (h.0 ∷ h.1))
            (omega arith))
        under in
    record {
      first = (pre, v);
      second = second;
      rest = rest;
      pairs = ap (λ t. (pre, v) ∷ t) e;
      shares = least_shared-acc pre (length pre) (second ∷ rest) long;
      value = λ u eq. let same : v ≡ u = cc in ap (λ x. (pre, x)) same;
      no_value = λ eq. cc;
    }

without_value : (pre : List ℕ) (f : Forest) → Apart pre (pairs_in pre 0 f) → Branches pre f none
unfolding pairs_of
without_value pre f a = go a.rest a.here a.other
  where
    go :
        (tl : List Pair)
        → pairs_in pre 0 f ≡ a.first ∷ tl
        → Some (UnderFrom pre (suc a.nibble)) tl
        → Branches pre f none
    go [] e s = absurd s
    go (second ∷ rest) e s =
        let (_, under) = subst (All (UnderFrom pre 0)) e (pairs_in-UnderFrom pre 0 f) in
        let long =
          All_map (UnderFrom pre 0) (λ p. length pre ≤ shared (a.first.0) (p.0)) (second ∷ rest)
            (λ p h.
              rw (h.3, a.goes, shared_front-append pre (a.nibble ∷ a.tail) (h.0 ∷ h.1))
                (omega arith))
            under in
        let one =
          Some-map (UnderFrom pre (suc a.nibble)) (λ p. shared (a.first.0) (p.0) ≡ length pre)
            (second ∷ rest)
            (λ p h.
              rw (h.3, a.goes) (shared_other pre a.tail (h.1) a.nibble (h.0) (omega (arith, h.2))))
            s in
        let more = longer pre a.tail a.nibble (a.first.0) a.goes in
        record {
          first = a.first;
          second = second;
          rest = rest;
          pairs = e;
          shares =
              least_shared-Some (a.first.0) (length pre) (length (a.first.0)) (second ∷ rest) long
                (omega arith) one;
          value = λ v eq. cc;
          no_value = λ eq. more;
        }

pub fork-Branches :
    (pre : List ℕ) (f : Forest) (w : Option Value) → IsTrie (fork f w) → Branches pre f w
unfolding IsTrie
fork-Branches pre f none (hf, hs, hc) =
    without_value pre f (pairs_in-Apart pre 0 f hf (omega arith))
fork-Branches pre f (some v) (hf, hs, hc) =
    with_value pre f v (pairs_in-First pre 0 f hf (omega arith))
