-- ===== src/Trie/Nibbles.antt =====
-- A byte string as a list of nibbles, the high one of each byte first.
use aion_utils.Prelude.{
  ℕ, zero, suc, ◌+◌, ◌-◌, ◌*◌, ◌/◌, ◌%◌, ◌≤◌, ◌<◌, ◌≡◌, refl, ap, ◌∙◌, List, [], ◌∷◌, ◌++◌, arith,
  ◌==◌, if◌then◌else◌, length, get_elem?, get_or, drop, Outcome, ok, ◌>>=◌, index, All, some,
}
use aion_utils.Prelude.Words.{IsBytes}

unfoldable pub nibbles_of : List ℕ → List ℕ
nibbles_of [] = []
nibbles_of (b ∷ bs) = (b / 16) ∷ (b % 16) ∷ nibbles_of bs

abbrev pub IsNibble : ℕ → Type 0
IsNibble n = n < 16

pub length-nibbles_of : (bs : List ℕ) → length (nibbles_of bs) ≡ length bs * 2
unfolding nibbles_of
length-nibbles_of [] = refl
length-nibbles_of (b ∷ bs) = omega (arith, length-nibbles_of bs)

pub nibbles_of-IsNibble : (bs : List ℕ) → IsBytes bs → All IsNibble (nibbles_of bs)
unfolding nibbles_of
nibbles_of-IsNibble [] h = tt
nibbles_of-IsNibble (b ∷ bs) (hb, h) = (omega arith, (omega arith, nibbles_of-IsNibble bs h))

-- Nibble `k` of a byte string: `k & 1` is `k % 2`, `byte >> 4` is `byte / 16`, and `byte & 15` is
-- `byte % 16`.
abbrev pub nibble_of : ℕ → ℕ → ℕ
nibble_of k byte = if k % 2 == 1 then byte % 16 else byte / 16

abbrev pub nibble_at : {E : Type 0} → List ℕ → ℕ → Outcome E ℕ
nibble_at bytes k = do byte ← index bytes (k / 2); ok (nibble_of k byte)

get_elem?-nibbles :
    (bs : List ℕ) (k : ℕ)
    → k < length bs * 2
    → (get_elem? bs (k / 2) ≡ some (get_or bs (k / 2) 0))
      × (get_or (nibbles_of bs) k 0 ≡ nibble_of k (get_or bs (k / 2) 0))
unfolding nibbles_of
get_elem?-nibbles [] k h = absurd (omega arith)
get_elem?-nibbles (b ∷ bs) zero h = (refl, refl)
get_elem?-nibbles (b ∷ bs) (suc zero) h = (refl, refl)
get_elem?-nibbles (b ∷ bs) (suc (suc k)) h =
    let half : suc (suc k) / 2 ≡ suc (k / 2) = omega arith in
    let same : suc (suc k) % 2 ≡ k % 2 = omega arith in
    rw (half, same) (get_elem?-nibbles bs k (omega arith))

-- Nibble `k`, with no panic in range.
pub nibble_at-get_or :
    {E : Type 0} (bs : List ℕ) (k : ℕ)
    → k < length bs * 2
    → nibble_at {E = E} bs k ≡ ok (get_or (nibbles_of bs) k 0)
nibble_at-get_or bs k h = let (there, value) = get_elem?-nibbles bs k h in rw (there, value)

module _ {ℓ} {A : Type ℓ} where
  pub get_or-drop :
      (o : ℕ) (xs : List A) (i : ℕ) (d : A) → get_or (drop o xs) i d ≡ get_or xs (o + i) d
  get_or-drop zero xs i d = ap (λ k. get_or xs k d) (omega arith)
  get_or-drop (suc o) [] i d = refl
  get_or-drop (suc o) (x ∷ xs) i d =
      let e : suc o + i ≡ suc (o + i) = omega arith in rw e (get_or-drop o xs i d)

  pub get_or-append_left :
      (xs ys : List A) (i : ℕ) (d : A) → i < length xs → get_or (xs ++ ys) i d ≡ get_or xs i d
  get_or-append_left [] ys i d h = absurd (omega arith)
  get_or-append_left (x ∷ xs) ys zero d h = refl
  get_or-append_left (x ∷ xs) ys (suc i) d h = get_or-append_left xs ys i d (omega arith)

  pub get_or-append_right :
      (xs ys : List A) (i : ℕ) (d : A)
      → length xs ≤ i
      → get_or (xs ++ ys) i d ≡ get_or ys (i - length xs) d
  get_or-append_right [] ys i d h = ap (λ k. get_or ys k d) (omega arith)
  get_or-append_right (x ∷ xs) ys zero d h = absurd (omega arith)
  get_or-append_right (x ∷ xs) ys (suc i) d h =
      get_or-append_right xs ys i d (omega arith) ∙ ap (λ k. get_or ys k d) (omega arith)

  -- A list from a position inside it on.
  pub drop-cons :
      (xs : List A) (i : ℕ) (d : A) → i < length xs → drop i xs ≡ get_or xs i d ∷ drop (suc i) xs
  drop-cons [] i d h = absurd (omega arith)
  drop-cons (x ∷ xs) zero d h = refl
  drop-cons (x ∷ xs) (suc i) d h = drop-cons xs i d (omega arith)

  pub drop-all : (xs : List A) (i : ℕ) → length xs ≤ i → drop i xs ≡ []
  drop-all [] zero h = refl
  drop-all [] (suc i) h = refl
  drop-all (x ∷ xs) zero h = absurd (omega arith)
  drop-all (x ∷ xs) (suc i) h = drop-all xs i (omega arith)
