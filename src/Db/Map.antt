-- ===== src/Db/Map.antt =====
-- A hash map with byte strings for keys: a list of entries, each key once.
use aion_utils.Prelude.{
  ℕ, ◌≡◌, ◌≢◌, refl, sym, ap, ◌∙◌, Bool, true, false, Option, none, some, List, [], ◌∷◌, ◌==◌,
  if◌then◌else◌, Bool-cases, inl, inr, ==_iff,
}

unfoldable pub same : List ℕ → List ℕ → Bool
same [] [] = true
same [] (y ∷ ys) = false
same (x ∷ xs) [] = false
same (x ∷ xs) (y ∷ ys) = if x == y then same xs ys else false

pub same_refl : (xs : List ℕ) → same xs xs ≡ true
unfolding same
same_refl [] = refl
same_refl (x ∷ xs) = let e : (x == x) ≡ true = (==_iff x x).1 refl in rw (e, same_refl xs) refl

pub same→eq : (xs ys : List ℕ) → same xs ys ≡ true → xs ≡ ys
unfolding same
same→eq [] [] h = refl
same→eq [] (y ∷ ys) h = cc
same→eq (x ∷ xs) [] h = cc
same→eq (x ∷ xs) (y ∷ ys) h = elim (Bool-cases (x == y)) [
  | inl e ↦
      let tail : same xs ys ≡ true = rw e at h in
      let head : x ≡ y = (==_iff x y).0 e in rw (head, same→eq xs ys tail) refl
  | inr e ↦ let impossible : false ≡ true = rw e at h in cc
]

pub ne→same : (xs ys : List ℕ) → xs ≢ ys → same xs ys ≡ false
ne→same xs ys h = elim (Bool-cases (same xs ys)) [
  | inl e ↦ absurd (h (same→eq xs ys e))
  | inr e ↦ e
]

pub same→ne : (xs ys : List ℕ) → same xs ys ≡ false → xs ≢ ys
same→ne xs ys h e =
    let impossible : false ≡ true = sym h ∙ ap (λ t. same xs t) (sym e) ∙ same_refl xs in cc

module _ {V : Type 0} where
  unfoldable pub find : List ℕ → List (List ℕ × V) → Option V
  find k [] = none
  find k ((j, v) ∷ m) = if same k j then some v else find k m

  -- A write of an entry, in place or at the end.
  unfoldable pub put : List ℕ → V → List (List ℕ × V) → List (List ℕ × V)
  put k v [] = (k, v) ∷ []
  put k v ((j, w) ∷ m) = if same k j then (j, v) ∷ m else (j, w) ∷ put k v m

  unfoldable pub erase : List ℕ → List (List ℕ × V) → List (List ℕ × V)
  erase k [] = []
  erase k ((j, w) ∷ m) = if same k j then erase k m else (j, w) ∷ erase k m

  -- `retain`: the entries that pass the test.
  unfoldable pub retain : (V → Bool) → List (List ℕ × V) → List (List ℕ × V)
  retain f [] = []
  retain f ((j, w) ∷ m) = if f w then (j, w) ∷ retain f m else retain f m

  -- No key stands twice.
  unfoldable pub Distinct : List (List ℕ × V) → Type 0
  Distinct [] = Unit {0}
  Distinct ((j, w) ∷ m) = (find j m ≡ none) × Distinct m

  pub find-put_self : (k : List ℕ) (v : V) (m : List (List ℕ × V)) → find k (put k v m) ≡ some v
  unfolding find put
  find-put_self k v [] = rw (same_refl k) refl
  find-put_self k v ((j, w) ∷ m) = elim (Bool-cases (same k j)) [
    | inl e ↦ rw (e, e) refl
    | inr e ↦ rw (e, e) (find-put_self k v m)
  ]

  pub find-put_other :
      (j k : List ℕ) (v : V) (m : List (List ℕ × V))
      → same j k ≡ false
      → find j (put k v m) ≡ find j m
  unfolding find put
  find-put_other j k v [] h = rw h refl
  find-put_other j k v ((i, w) ∷ m) h = elim (Bool-cases (same k i)) [
    | inl e ↦ let there : same j i ≡ false = rw (same→eq k i e) at h in rw (e, there) refl
    | inr e ↦ rw e (elim (Bool-cases (same j i)) [
      | inl here ↦ rw here refl
      | inr other ↦ rw other (find-put_other j k v m h)
    ])
  ]

  pub find-erase_self : (k : List ℕ) (m : List (List ℕ × V)) → find k (erase k m) ≡ none
  unfolding find erase
  find-erase_self k [] = refl
  find-erase_self k ((j, w) ∷ m) = elim (Bool-cases (same k j)) [
    | inl e ↦ rw e (find-erase_self k m)
    | inr e ↦ rw (e, e) (find-erase_self k m)
  ]

  pub find-erase_other :
      (j k : List ℕ) (m : List (List ℕ × V)) → same j k ≡ false → find j (erase k m) ≡ find j m
  unfolding find erase
  find-erase_other j k [] h = refl
  find-erase_other j k ((i, w) ∷ m) h = elim (Bool-cases (same k i)) [
    | inl e ↦
        let there : same j i ≡ false = rw (same→eq k i e) at h in
        rw (e, there) (find-erase_other j k m h)
    | inr e ↦ rw e (elim (Bool-cases (same j i)) [
      | inl here ↦ rw here refl
      | inr other ↦ rw other (find-erase_other j k m h)
    ])
  ]

  pub Distinct-put :
      (k : List ℕ) (v : V) (m : List (List ℕ × V)) → Distinct m → Distinct (put k v m)
  unfolding Distinct put find
  Distinct-put k v [] d = (refl, tt)
  Distinct-put k v ((j, w) ∷ m) (fresh, d) = elim (Bool-cases (same k j)) [
    | inl e ↦ rw e (fresh, d)
    | inr e ↦
        let apart : same j k ≡ false = ne→same j k (λ eq. same→ne k j e (sym eq)) in
        rw e (find-put_other j k v m apart ∙ fresh, Distinct-put k v m d)
  ]
