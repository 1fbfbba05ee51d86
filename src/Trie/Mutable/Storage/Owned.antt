-- ===== src/Trie/Mutable/Storage/Owned.antt =====
-- The node storage as a map from handles to nodes: a handle that `alloc` returns owns what was stored
-- until `destroy` takes it.
use aion_utils.Prelude.{
  ℕ, zero, suc, ◌≤◌, ◌<◌, ◌≡◌, refl, ap, sym, ◌∙◌, Bool, true, false, ◌||◌, Option, none, some,
  List, [], ◌∷◌, ◌++◌, ◌==◌, if◌then◌else◌, arith, Bool-cases, inl, inr, length, length-set,
  get_elem?, set, get_elem?-set_self, get_elem?-set_ne, ok, All, All-append, ==_iff, lt→ltb,
}
use aion_utils.Trie.Mutable.Storage.{NodeStorage, alloc_at, alloc, destroy}

unfoldable pub member : ℕ → List ℕ → Bool
member i [] = false
member i (j ∷ js) = (i == j) || member i js

unfoldable pub AreDistinct : List ℕ → Type 0
unfolding member
AreDistinct [] = Unit {0}
AreDistinct (i ∷ is) = (member i is ≡ false) × AreDistinct is

member-append_end : (i j : ℕ) (js : List ℕ) → member i (js ++ (j ∷ [])) ≡ ((i == j) || member i js)
unfolding member
member-append_end i j [] = refl
member-append_end i j (k ∷ js) = elim (Bool-cases (i == k)) [
  | inl e ↦ rw (e, or_true (i == j)) refl
  | inr e ↦ rw e (member-append_end i j js)
]
  where
    or_true : (b : Bool) → (b || true) ≡ true
    or_true true = refl
    or_true false = refl

All-weaken : (m n : ℕ) (is : List ℕ) → m ≤ n → All (λ i. i < m) is → All (λ i. i < n) is
All-weaken m n [] h a = tt
All-weaken m n (i ∷ is) h (ha, a) = (omega arith, All-weaken m n is h a)

distinct-append_end :
    (is : List ℕ) (i : ℕ) → AreDistinct is → member i is ≡ false → AreDistinct (is ++ (i ∷ []))
unfolding AreDistinct member
distinct-append_end [] i h m = (refl, tt)
distinct-append_end (j ∷ is) i (hj, h) m = elim (Bool-cases (i == j)) [
  | inl e ↦ absurd (true_ne_false (sym (ap (λ b. b || member i is) e) ∙ m))
  | inr e ↦
      let back : (j == i) ≡ false = ground arith in
      (
        member-append_end j i is ∙ ap (λ b. b || member j is) back ∙ hj,
        distinct-append_end is i h (sym (ap (λ b. b || member i is) e) ∙ m),
      )
]
  where
    true_ne_false : true ≡ false → ⊥
    true_ne_false e = cc

module _ {A : Type 0} where
  -- What a live handle owns.
  unfoldable pub owned : NodeStorage A → ℕ → Option A
  owned s i = if member i s.free_indices then none else get_elem? s.nodes i

  -- The free indices are in range, and each is there once.
  pub record IsStorage (s : NodeStorage A) : Type 0 where
    pub in_range : All (λ i. i < length s.nodes) s.free_indices
    pub distinct : AreDistinct s.free_indices

  get_elem?-append_end :
      (xs : List A) (x : A) (i : ℕ)
      → get_elem? (xs ++ (x ∷ [])) i ≡ (if i == length xs then some x else get_elem? xs i)
  get_elem?-append_end [] x zero = refl
  get_elem?-append_end [] x (suc i) = ground arith
  get_elem?-append_end (y ∷ xs) x zero = ground arith
  get_elem?-append_end (y ∷ xs) x (suc i) = ground (arith, get_elem?-append_end xs x i)

  get_elem?-end : (xs : List A) → get_elem? xs (length xs) ≡ none
  get_elem?-end [] = refl
  get_elem?-end (x ∷ xs) = get_elem?-end xs

  none_ne_some : {x : A} → none ≡ some x → ⊥
  none_ne_some e = cc

  get_elem?-inside : (xs : List A) (i : ℕ) (x : A) → get_elem? xs i ≡ some x → i < length xs
  get_elem?-inside [] i x e = absurd (none_ne_some e)
  get_elem?-inside (y ∷ xs) zero x e = omega arith
  get_elem?-inside (y ∷ xs) (suc i) x e = omega (arith, get_elem?-inside xs i x e)

  get_elem?-set :
      (xs : List A) (x : A) (i j : ℕ)
      → j < length xs
      → get_elem? (set xs j x) i ≡ (if i == j then some x else get_elem? xs i)
  get_elem?-set xs x i j h = elim (Bool-cases (i == j)) [
    | inl e ↦ let eq : i ≡ j = (==_iff i j).0 e in rw (e, eq) (get_elem?-set_self xs j x h)
    | inr e ↦ rw e (get_elem?-set_ne xs {i = j} {j = i} x (ground arith))
  ]

  abbrev storage : List A → List ℕ → NodeStorage A
  storage nodes free = record { nodes = nodes; free_indices = free }

  -- What an allocation promises.
  abbrev Allocates : List A → List ℕ → A → Type 0
  Allocates nodes free x =
      (h : ℕ) × (t : NodeStorage A) × (alloc_at x nodes free ≡ ok (h, t))
      × IsStorage t
      × (owned (storage nodes free) h ≡ none)
      × ((i : ℕ) → owned t i ≡ (if i == h then some x else owned (storage nodes free) i))

  alloc_last : (nodes : List A) (x : A) → Allocates nodes [] x
  unfolding alloc_at owned member AreDistinct
  alloc_last nodes x = (
    length nodes,
    storage (nodes ++ (x ∷ [])) [],
    refl,
    record { in_range = tt; distinct = tt },
    get_elem?-end nodes,
    get_elem?-append_end nodes x,
  )

  alloc_first :
      (nodes : List A) (idx : ℕ) (rest : List ℕ) (x : A)
      → idx < length nodes
      → All (λ i. i < length nodes) rest
      → member idx rest ≡ false
      → AreDistinct rest
      → Allocates nodes (idx ∷ rest) x
  unfolding alloc_at owned member
  alloc_first nodes idx rest x h a m d =
      let self : (idx == idx) ≡ true = (==_iff idx idx).1 refl in
      (
        idx,
        storage (set nodes idx x) rest,
        rw (lt→ltb idx (length nodes) h) refl,
        record {
          in_range =
              All-weaken (length nodes) (length (set nodes idx x)) rest
                (omega (arith, length-set nodes idx x)) a;
          distinct = d;
        },
        rw self refl,
        reads,
      )
    where
      reads :
          (i : ℕ)
          → owned (storage (set nodes idx x) rest) i
            ≡ (if i == idx then some x else owned (storage nodes (idx ∷ rest)) i)
      reads i = elim (Bool-cases (i == idx)) [
        | inl e ↦
            let eq : i ≡ idx = (==_iff i idx).0 e in
            let apart : member i rest ≡ false = ap (λ j. member j rest) eq ∙ m in
            rw (apart, get_elem?-set nodes x i idx h, e) refl
        | inr e ↦ rw (get_elem?-set nodes x i idx h, e) refl
      ]

  allocates :
      (nodes : List A) (free : List ℕ) (x : A)
      → All (λ i. i < length nodes) free
      → AreDistinct free
      → Allocates nodes free x
  unfolding AreDistinct
  allocates nodes [] x a d = alloc_last nodes x
  allocates nodes (idx ∷ rest) x (h, a) (m, d) = alloc_first nodes idx rest x h a m d

  -- `alloc` into a storage whose free indices are in range and differ returns a handle that owned
  -- nothing, and leaves such a storage: the handle owns what was stored, and every other one owns
  -- what it did.
  pub alloc-owned :
      (s : NodeStorage A) (x : A)
      → IsStorage s
      → (h : ℕ) × (t : NodeStorage A) × (alloc s x ≡ ok (h, t))
        × IsStorage t
        × (owned s h ≡ none)
        × ((i : ℕ) → owned t i ≡ (if i == h then some x else owned s i))
  alloc-owned s x good = allocates s.nodes s.free_indices x good.in_range good.distinct

  -- `destroy` of a handle that owns a node returns the node, and leaves a storage whose free indices
  -- are in range and differ: the handle owns nothing, and every other one owns what it did.
  pub destroy-owned :
      (s : NodeStorage A) (blank x : A) (h : ℕ)
      → IsStorage s
      → owned s h ≡ some x
      → (t : NodeStorage A) × (destroy blank s h ≡ ok (x, t))
        × IsStorage t
        × ((i : ℕ) → owned t i ≡ (if i == h then none else owned s i))
  unfolding destroy owned
  destroy-owned s blank x h good e =
      let (live, there) = owned_parts e in
      let inside = get_elem?-inside s.nodes h x there in
      let after = storage (set s.nodes h blank) (s.free_indices ++ (h ∷ [])) in
      let long = length-set s.nodes h blank in
      (
        after,
        rw (there, lt→ltb h (length s.nodes) inside) refl,
        record {
          in_range =
              All-append (λ i. i < length (set s.nodes h blank)) s.free_indices (h ∷ [])
                (All-weaken (length s.nodes) (length (set s.nodes h blank)) s.free_indices
                  (omega arith) good.in_range)
                (omega arith, tt);
          distinct = distinct-append_end s.free_indices h good.distinct live;
        },
        reads inside,
      )
    where
      owned_parts :
          (if member h s.free_indices then none else get_elem? s.nodes h) ≡ some x
          → (member h s.free_indices ≡ false) × (get_elem? s.nodes h ≡ some x)
      owned_parts k = elim (Bool-cases (member h s.free_indices)) [
        | inl m ↦
            absurd (none_ne_some (sym (ap (λ b. if b then none else get_elem? s.nodes h) m) ∙ k))
        | inr m ↦ (m, sym (ap (λ b. if b then none else get_elem? s.nodes h) m) ∙ k)
      ]

      reads :
          h < length s.nodes
          → (i : ℕ)
          → owned (storage (set s.nodes h blank) (s.free_indices ++ (h ∷ []))) i
            ≡ (if i == h then none else owned s i)
      reads inside i = elim (Bool-cases (i == h)) [
        | inl m ↦ rw (member-append_end i h s.free_indices, m) refl
        | inr m ↦
            rw (member-append_end i h s.free_indices, m, get_elem?-set s.nodes blank i h inside, m)
              refl
      ]
