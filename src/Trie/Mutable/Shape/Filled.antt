-- ===== src/Trie/Mutable/Shape/Filled.antt =====
-- A trie in its canonical form has values, and a branch has them in places that differ.
use aion_utils.Prelude.{
  ℕ, zero, suc, ◌≤◌, ◌≡◌, refl, ◌∙◌, true, false, Option, none, some, List, [], ◌∷◌, ◌++◌, ◌==◌,
  arith, ==_iff,
}
use aion_utils.Db.Map.{same_refl}
use aion_utils.Trie.Mutable.{Value}
use aion_utils.Trie.Mutable.Shape.{
  Tree, tip, path, fork, Forest, nil, gap, grow, value_at, value_in, grown, IsTrie, IsForest,
}
use aion_utils.Trie.Mutable.Shape.Reads.{Reading, under, only, value_at-path}

-- Some key behind `ks` is read.
pub under-append_key : (ks : List ℕ) (g : Reading) (k : List ℕ) → under ks g (ks ++ k) ≡ g k
unfolding under
under-append_key [] g k = refl
under-append_key (a ∷ ks) g k =
    let e : (a == a) ≡ true = (==_iff a a).1 refl in rw e (under-append_key ks g k)

-- A key with a value.
pub record Filled (g : Reading) : Type 0 where
  pub key : List ℕ
  pub value : Value
  pub found : g key ≡ some value

-- A place of a forest with a value below it.
pub record FilledIn (f : Forest) : Type 0 where
  pub place : ℕ
  pub key : List ℕ
  pub value : Value
  pub found : value_in f place key ≡ some value

mutual
  unfolding value_at IsTrie grown

  pub filled : (t : Tree) → IsTrie t → Filled (value_at t)
  filled (tip ks v) h = record { key = ks; value = v; found = rw (same_refl ks) refl }
  filled (path ks t) (hk, long, hf, h) =
      let b = filled t h in
      record {
        key = ks ++ b.key;
        value = b.value;
        found = value_at-path ks t (ks ++ b.key) ∙ under-append_key ks (value_at t) b.key ∙ b.found;
      }
  filled (fork f (some v)) (hf, hs, hc) = record { key = []; value = v; found = refl }
  filled (fork f none) (hf, hs, hc) =
      let b = filled_in f hf (omega arith) in
      record { key = b.place ∷ b.key; value = b.value; found = b.found }

  pub filled_in : (f : Forest) → IsForest f → 1 ≤ grown f → FilledIn f
  filled_in nil h c = absurd (omega arith)
  filled_in (gap f) h c =
      let b = filled_in f h c in
      record { place = suc b.place; key = b.key; value = b.value; found = b.found }
  filled_in (grow t f) (ht, h) c =
      let b = filled t ht in record { place = 0; key = b.key; value = b.value; found = b.found }

-- A place other than `j`, in a forest of two trees or more.
pub record FilledApart (f : Forest) (j : ℕ) : Type 0 where
  pub spot : FilledIn f
  pub apart : (j == spot.place) ≡ false

pub filled_apart : (f : Forest) (j : ℕ) → IsForest f → 2 ≤ grown f → FilledApart f j
unfolding value_at IsTrie grown
filled_apart nil j h c = absurd (omega arith)
filled_apart (gap f) zero h c =
    let b = filled_in f h (omega arith) in
    record {
      spot = record { place = suc b.place; key = b.key; value = b.value; found = b.found };
      apart = ground arith;
    }
filled_apart (gap f) (suc j) h c =
    let b = filled_apart f j h c in
    record {
      spot = record {
        place = suc b.spot.place;
        key = b.spot.key;
        value = b.spot.value;
        found = b.spot.found;
      };
      apart = ground (arith, b.apart);
    }
filled_apart (grow t f) zero (ht, h) c =
    let b = filled_in f h (omega arith) in
    record {
      spot = record { place = suc b.place; key = b.key; value = b.value; found = b.found };
      apart = ground arith;
    }
filled_apart (grow t f) (suc j) (ht, h) c =
    let b = filled t ht in
    record {
      spot = record { place = 0; key = b.key; value = b.value; found = b.found };
      apart = ground arith;
    }

-- Not all keys of a reading have the same first nibble.
abbrev pub Elsewhere : ℕ → List ℕ → Type 0
Elsewhere j [] = Unit {0}
Elsewhere j (n ∷ k) = (j == n) ≡ false

pub record Away (g : Reading) (j : ℕ) : Type 0 where
  pub key : List ℕ
  pub value : Value
  pub found : g key ≡ some value
  pub away : Elsewhere j key

abbrev pub Spreads : Reading → Type 0
Spreads g = (j : ℕ) → Away g j

pub only-Spreads : (v : Value) → Spreads (only v)
only-Spreads v j = record { key = []; value = v; found = refl; away = tt }

pub fork-Spreads :
    (f : Forest) (w : Option Value) → IsTrie (fork f w) → Spreads (value_at (fork f w))
unfolding value_at IsTrie
fork-Spreads f (some v) h j = record { key = []; value = v; found = refl; away = tt }
fork-Spreads f none (hf, hs, hc) j =
    let b = filled_apart f j hf (omega arith) in
    record {
      key = b.spot.place ∷ b.spot.key;
      value = b.spot.value;
      found = b.spot.found;
      away = b.apart;
    }
