-- ===== src/Trie/NibbleSlice/Fronts.antt =====
-- The length of the common front of two lists.
use aion_utils.Prelude.{
  ℕ, ◌≤◌, ◌≡◌, refl, ap, sym, ◌∙◌, true, false, List, [], ◌∷◌, ◌++◌, ◌==◌, arith, Bool-cases, inl,
  inr, length, take, drop, ==_iff, take-append-drop, take-eq_self,
}
use aion_utils.Trie.NibbleSlice.Compare.{shared, shared-take, shared_front}
use aion_utils.Db.Map.{same, same_refl, same→eq}

pub shared-le : (xs ys : List ℕ) → (shared xs ys ≤ length xs) × (shared xs ys ≤ length ys)
unfolding shared
shared-le [] ys = (omega arith, omega arith)
shared-le (x ∷ xs) [] = (omega arith, omega arith)
shared-le (x ∷ xs) (y ∷ ys) =
    let (l, r) = shared-le xs ys in
    elim (Bool-cases (x == y)) [
      | inl e ↦ rw e (omega arith, omega arith)
      | inr e ↦ rw e (omega arith, omega arith)
    ]

-- Behind the common front nothing more is shared.
pub shared-drop-shared :
    (xs ys : List ℕ) → shared (drop (shared xs ys) xs) (drop (shared xs ys) ys) ≡ 0
unfolding shared
shared-drop-shared [] ys = refl
shared-drop-shared (x ∷ xs) [] = refl
shared-drop-shared (x ∷ xs) (y ∷ ys) = elim (Bool-cases (x == y)) [
  | inl e ↦ rw e (shared-drop-shared xs ys)
  | inr e ↦ rw (e, e) refl
]

pub shared_heads : (x y : ℕ) (xs ys : List ℕ) → shared (x ∷ xs) (y ∷ ys) ≡ 0 → (x == y) ≡ false
unfolding shared
shared_heads x y xs ys h = ground arith

pub shared_all : (xs ys : List ℕ) → shared xs ys ≡ length ys → shared xs ys ≡ length xs → xs ≡ ys
shared_all xs ys e f =
    sym (take-eq_self (shared xs ys) xs (sym f))
    ∙ shared-take xs ys
    ∙ take-eq_self (shared xs ys) ys (sym e)

-- A list in two parts: the front that it shares with another, and its own rest.
pub shared_split : (xs ys : List ℕ) → take (shared xs ys) ys ++ drop (shared xs ys) xs ≡ xs
shared_split xs ys =
    ap (λ t. t ++ drop (shared xs ys) xs) (sym (shared-take xs ys))
    ∙ take-append-drop (shared xs ys) xs

pub shared_self : (xs : List ℕ) → shared xs xs ≡ length xs
unfolding shared
shared_self [] = refl
shared_self (x ∷ xs) = let e : (x == x) ≡ true = (==_iff x x).1 refl in rw (e, shared_self xs) refl

-- A front of a list is all shared.
pub same_front : (xs ys : List ℕ) → same ys (take (length ys) xs) ≡ true → shared xs ys ≡ length ys
same_front xs ys h =
    (==_iff _ _).0 ((shared_front xs ys).1 (sym (same→eq ys (take (length ys) xs) h)))

pub same_front_back :
    (xs ys : List ℕ) → shared xs ys ≡ length ys → same ys (take (length ys) xs) ≡ true
same_front_back xs ys h =
    let front = (shared_front xs ys).0 ((==_iff _ _).1 h) in ap (same ys) front ∙ same_refl ys

-- A key in two parts, the first of which is another key.
pub shared_whole : (ns ks : List ℕ) → shared ns ks ≡ length ks → ks ++ drop (shared ns ks) ns ≡ ns
shared_whole ns ks e =
    ap (λ t. t ++ drop (shared ns ks) ns) (sym (take-eq_self (shared ns ks) ks (sym e)))
    ∙ shared_split ns ks

pub shared_comm : (xs ys : List ℕ) → shared xs ys ≡ shared ys xs
unfolding shared
shared_comm [] [] = refl
shared_comm [] (y ∷ ys) = refl
shared_comm (x ∷ xs) [] = refl
shared_comm (x ∷ xs) (y ∷ ys) = ground (arith, shared_comm xs ys)
