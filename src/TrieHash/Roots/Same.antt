-- ===== src/TrieHash/Roots/Same.antt =====
-- The root hash of triehash and the one of a trie into which the same pairs were inserted.
use aion_utils.Prelude.{
  ℕ, ◌/◌, ◌%◌, ◌≡◌, ◌≢◌, refl, ap, sym, ◌∙◌, true, false, none, some, List, [], ◌∷◌, ◌==◌, ltb,
  if◌then◌else◌, arith, Bool-cases, inl, inr, ok, All, map,
}
use aion_utils.Prelude.Words.{IsBytes}
use aion_utils.Db.Map.{same, find}
use aion_utils.Trie.Nibbles.{nibbles_of}
use aion_utils.Trie.Mutable.{NodeSource}
use aion_utils.Trie.Mutable.Database.{TrieDbMut, new_trie}
use aion_utils.Trie.Mutable.Shape.{Tree, value_at, IsTrie}
use aion_utils.Trie.Mutable.Shape.Reads.{Reading}
use aion_utils.Trie.Mutable.Map.{HasNull, Holds}
use aion_utils.Trie.Mutable.Map.Runs.{
  Operation, put, OnBytes, left_at, run_all, meant, meant_from, Agrees, NoKey, new_trie-Ran,
  same-nibbles_of,
}
use aion_utils.Trie.Mutable.Map.History.{key_or_none}
use aion_utils.Trie.Mutable.Commit.{Store, Digest, commit}
use aion_utils.Trie.Mutable.Commit.Items.{IsSmall}
use aion_utils.Trie.Mutable.Commit.Hash.{commit-node_item}
use aion_utils.Trie.Mutable.Load.Durable.{Agrees-unique}
use aion_utils.TrieHash.Nibbles.{as_nibbles-nibbles_of}
use aion_utils.TrieHash.Roots.{Pair, before, map_insert, map_of, by_nibbles, trie_root}
use aion_utils.TrieHash.Roots.Pairs.{pairs_of, All_map}
use aion_utils.TrieHash.Roots.Sorted.{
  Sorted, find-map_insert, map_of-Sorted, All-map_of, Sorted-same,
}
use aion_utils.TrieHash.Roots.Listed.{pairs_of-Sorted, find-pairs_of}
use aion_utils.TrieHash.Roots.Built.{gen_trie_root-node_item}

before-nibbles_of : (a b : List ℕ) → before a b ≡ true → before (nibbles_of a) (nibbles_of b) ≡ true
unfolding before nibbles_of
before-nibbles_of [] [] h = cc
before-nibbles_of [] (y ∷ b) h = refl
before-nibbles_of (x ∷ a) [] h = cc
before-nibbles_of (x ∷ a) (y ∷ b) h = elim (Bool-cases (x == y)) [
  | inl e ↦
      let h' : before a b ≡ true = rw e at h in
      let high : (x / 16 == y / 16) ≡ true = ground arith in
      let low : (x % 16 == y % 16) ≡ true = ground arith in
      rw (high, low) (before-nibbles_of a b h')
  | inr n ↦
      let h' : ltb x y ≡ true = rw n at h in
      elim (Bool-cases (x / 16 == y / 16)) [
        | inl e ↦
            let low : (x % 16 == y % 16) ≡ false = ground arith in
            let less : ltb (x % 16) (y % 16) ≡ true = ground arith in rw (e, low) less
        | inr n' ↦ let less : ltb (x / 16) (y / 16) ≡ true = ground arith in rw n' less
      ]
]

All-by_nibbles :
    (a : List ℕ) (m : List Pair)
    → All (λ q. before a (q.0) ≡ true) m
    → All (λ q. before (nibbles_of a) (q.0) ≡ true) (map by_nibbles m)
All-by_nibbles a [] h = tt
All-by_nibbles a ((k, v) ∷ m) (hq, h) =
    (rw (as_nibbles-nibbles_of k) (before-nibbles_of a k hq), All-by_nibbles a m h)

by_nibbles-Sorted : (m : List Pair) → Sorted m → Sorted (map by_nibbles m)
unfolding Sorted
by_nibbles-Sorted [] h = tt
by_nibbles-Sorted ((k, v) ∷ m) (hk, h) =
    (rw (as_nibbles-nibbles_of k) (All-by_nibbles k m hk), by_nibbles-Sorted m h)

find-by_nibbles : (k : List ℕ) (m : List Pair) → find (nibbles_of k) (map by_nibbles m) ≡ find k m
unfolding find
find-by_nibbles k [] = refl
find-by_nibbles k ((j, v) ∷ m) =
    rw (as_nibbles-nibbles_of j, same-nibbles_of k j, find-by_nibbles k m) refl

find-NoKey :
    (k : List ℕ) (m : List Pair)
    → NoKey k
    → All (λ p. IsBytes (p.0)) m
    → find k (map by_nibbles m) ≡ none
unfolding find
find-NoKey k [] h b = refl
find-NoKey k ((j, v) ∷ m) h (bj, b) = rw (as_nibbles-nibbles_of j, h j bj, find-NoKey k m h b) refl

-- The insertions of pairs.
abbrev pub puts : List Pair → List Operation
puts [] = []
puts ((k, v) ∷ input) = put k v ∷ puts input

-- A pair of byte strings with a value of at least one byte.
abbrev pub IsPut : Pair → Type 0
IsPut (k, v) = IsBytes k × (v ≢ [])

left_at-put : (k v : List ℕ) → v ≢ [] → left_at (put k v) ≡ some v
left_at-put k [] h = absurd (h refl)
left_at-put k (b ∷ v) h = refl

-- What the map holds is what the insertions mean.
find-map_of :
    (input acc : List Pair) (g : Reading)
    → All IsPut input
    → ((k : List ℕ) → find k acc ≡ g k)
    → (k : List ℕ) → find k (map_of input acc) ≡ meant_from g (puts input) k
unfolding map_of meant_from
find-map_of [] acc g h e k = e k
find-map_of ((j, v) ∷ input) acc g ((bytes, real), h) e k =
    find-map_of input (map_insert (j, v) acc) (λ i. if same i j then left_at (put j v) else g i) h
      (λ i. find-map_insert i (j, v) acc ∙ rw (left_at-put j v real, e i) refl) k

puts-OnBytes : (input : List Pair) → All IsPut input → All OnBytes (puts input)
puts-OnBytes [] h = tt
puts-OnBytes ((k, v) ∷ input) ((bytes, real), h) = (bytes, puts-OnBytes input h)

pairs-same :
    (input : List Pair) (t : Tree)
    → All IsPut input
    → Agrees (some t) (meant (puts input))
    → map by_nibbles (map_of input []) ≡ pairs_of [] t
unfolding find Sorted
pairs-same input t h a =
    let m = map_of input [] in
    let bytes =
      All-map_of (λ p. IsBytes (p.0)) input []
        (All_map IsPut (λ p. IsBytes (p.0)) input (λ p q. q.0) h) tt in
    Sorted-same (map by_nibbles m) (pairs_of [] t) (by_nibbles-Sorted m (map_of-Sorted input [] tt))
      (pairs_of-Sorted [] t)
      (λ k. elim (key_or_none k) [
        | inl x ↦
            ap (λ i. find i (map by_nibbles m)) (sym x.here)
            ∙ find-by_nibbles x.key m
            ∙ find-map_of input [] (λ i. none) h (λ i. refl) x.key
            ∙ sym (a.on_keys x.key x.bytes)
            ∙ ap (value_at t) x.here
            ∙ sym (find-pairs_of [] t k)
        | inr x ↦ find-NoKey k m x bytes ∙ sym (a.elsewhere k x) ∙ sym (find-pairs_of [] t k)
      ])

-- Pairs of byte strings with values of at least one byte, in any order and with keys as often as they come, and
-- the canonical trie of what their insertions mean, no node of which is encoded in 2 ^ 32 bytes
-- or more: inserted one after the other into a new trie over a store that knows the empty trie, they
-- leave a trie whose `commit`, into whatever store, returns with the root hash that `trie_root` returns for them.
pub trie_root-commit :
    (digest : Digest) (db : NodeSource) (input : List Pair) (u : Tree) (st : Store)
    → HasNull db
    → All IsPut input
    → IsTrie u
    → Agrees (some u) (meant (puts input))
    → IsSmall digest u
    → (t : TrieDbMut) × (t1 : TrieDbMut) × (st1 : Store) × (run_all db new_trie (puts input) ≡ ok t)
      × (commit digest t st ≡ ok (t1, st1))
      × (trie_root digest input ≡ ok t1.root)
unfolding trie_root
trie_root-commit digest db input u st null h shape a small =
    let r = new_trie-Ran db null (puts input) (puts-OnBytes input h) in
    let e = Agrees-unique (some u) r.tree (meant (puts input)) shape r.holds.root a r.agrees in
    let holds : Holds r.trie (some u) = rw e r.holds in
    let (t1, st1, runs, root, handle, row, filled) =
      commit-node_item digest r.trie u st holds small in
    (
      r.trie,
      t1,
      st1,
      r.runs,
      runs,
      rw (pairs-same input u h a) (gen_trie_root-node_item digest u shape small) ∙ ap ok (sym root),
    )
