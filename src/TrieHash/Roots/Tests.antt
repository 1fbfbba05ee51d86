-- ===== src/TrieHash/Roots/Tests.antt =====
-- Applications of the theorems on the root hash to concrete pairs.
use aion_utils.Prelude.{
  ℕ, ◌≡◌, refl, ap, ◌∙◌, true, false, some, none, List, [], ◌∷◌, ◌==◌, ◌%◌, if◌then◌else◌,
  Bool-cases, inl, inr, arith, length, ok, All,
}
use aion_utils.Db.Map.{same, same→eq}
use aion_utils.Db.Memory
use aion_utils.Rlp.Format.{encode_item}
use aion_utils.Trie.Nibbles.{nibbles_of}
use aion_utils.Trie.NibbleSlice.Encode.{hex_prefix, pairs}
use aion_utils.Trie.Mutable.Database.{TrieDbMut, new_trie}
use aion_utils.Trie.Mutable.Shape.{Tree, tip, value_at, IsTrie}
use aion_utils.Trie.Mutable.Map.Runs.{run_all, meant, meant_from, Agrees, same-nibbles_of}
use aion_utils.Trie.Mutable.Commit.{Store, Digest, commit}
use aion_utils.Trie.Mutable.Commit.Items.{node_item, IsSmall}
use aion_utils.Trie.Mutable.Load.{source}
use aion_utils.Trie.Mutable.Load.Committed.{source-HasNull, get-null}
use aion_utils.TrieHash.Roots.{Pair, trie_root}
use aion_utils.TrieHash.Roots.Same.{puts, IsPut, trie_root-commit}

abbrev digest : Digest
digest b = (length b % 256) ∷ []

-- A key that comes twice.
abbrev input : List Pair
input = (0x12 ∷ [], 5 ∷ []) ∷ (0x12 ∷ [], 7 ∷ []) ∷ []

abbrev one_key : Tree
one_key = tip (1 ∷ 2 ∷ []) (7 ∷ [])

abbrev nothing_stored : Store
nothing_stored = record { db = Memory.new; hash_count = 0 }

input-IsPut : All IsPut input
input-IsPut = (((omega arith, tt), λ e. cc), (((omega arith, tt), λ e. cc), tt))

one_key-IsTrie : IsTrie one_key
unfolding IsTrie
one_key-IsTrie = (omega arith, (omega arith, tt))

one_key-meant :
    (key : List ℕ) → (if same (0x12 ∷ []) key then some (7 ∷ []) else none) ≡ meant (puts input) key
unfolding meant_from same
one_key-meant [] = refl
one_key-meant (x ∷ []) =
    let swap : (0x12 == x) ≡ (x == 0x12) = ground arith in
    elim (Bool-cases (x == 0x12)) [ inl e ↦ rw (swap, e) refl | inr e ↦ rw (swap, e) refl ]
one_key-meant (x ∷ y ∷ key) = ground arith

one_key-Agrees : Agrees (some one_key) (meant (puts input))
unfolding value_at nibbles_of same
one_key-Agrees = record {
  on_keys = λ key bytes.
      ap (λ b. if b then some (7 ∷ []) else none) (same-nibbles_of (0x12 ∷ []) key)
      ∙ one_key-meant key;
  elsewhere = λ k none_here. elim (Bool-cases (same (1 ∷ 2 ∷ []) k)) [
    | inl e ↦
        let no : same k (nibbles_of (0x12 ∷ [])) ≡ false =
          none_here (0x12 ∷ []) (omega arith, tt) in
        let yes = ap (λ j. same j (1 ∷ 2 ∷ [])) (same→eq (1 ∷ 2 ∷ []) k e) in
        let impossible : true ≡ false = yes ∙ no in cc
    | inr e ↦ rw e refl
  ];
}

one_key-IsSmall : IsSmall digest one_key
unfolding IsSmall node_item encode_item hex_prefix pairs
one_key-IsSmall = omega arith

trie_root-commit_example :
    (t : TrieDbMut) × (t1 : TrieDbMut) × (st1 : Store) × (run_all
        (source (Memory.get Memory.new))
        new_trie
        (puts input)
      ≡ ok t)
    × (commit digest t nothing_stored ≡ ok (t1, st1))
    × (trie_root digest input ≡ ok t1.root)
trie_root-commit_example =
    trie_root-commit digest (source (Memory.get Memory.new)) input one_key nothing_stored
      (source-HasNull (Memory.get Memory.new) (get-null Memory.new)) input-IsPut one_key-IsTrie
      one_key-Agrees one_key-IsSmall
