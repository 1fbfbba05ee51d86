-- ===== src/Trie/Mutable/Load/Tests.antt =====
-- Applications of the theorems on committed tries to concrete tries, stores and operations.
use aion_utils.Prelude.{
  ℕ, zero, suc, ◌%◌, ◌<◌, ◌≡◌, ◌≢◌, refl, ap, sym, ◌∙◌, true, false, none, some, List, [], ◌∷◌,
  ◌==◌, if◌then◌else◌, Bool-cases, inl, inr, arith, length, ok, All, get_or,
}
use aion_utils.Prelude.Words.{IsBytes}
use aion_utils.Db.Map.{same, same→eq, find}
use aion_utils.Db.Memory
use aion_utils.Db.Memory.{null_rlp, blake2b_null_rlp}
use aion_utils.Rlp.Format.{encode_item, encode_str, header}
use aion_utils.Trie.Nibbles.{nibbles_of}
use aion_utils.Trie.NibbleSlice.Encode.{hex_prefix, pairs}
use aion_utils.Trie.Mutable.Database.{TrieDbMut, new_trie, get}
use aion_utils.Trie.Mutable.Shape.{
  Tree, tip, fork, gap, grow, value_at, value_in, IsTrie, slots, grown,
}
use aion_utils.Trie.Mutable.Shape.Forests.{handle_of, gaps}
use aion_utils.Trie.Mutable.Map.Runs.{
  Operation, put, drop_key, OnBytes, run_all, meant, meant_from, Agrees, same-nibbles_of,
}
use aion_utils.Trie.Mutable.Load.Durable.{get-commit-run_all}
use aion_utils.Trie.Mutable.Commit.{Store, Digest, commit, remove_all}
use aion_utils.Trie.Mutable.Commit.Items.{node_item, stored_below, IsSmall, snoc}
use aion_utils.Trie.NibbleSlice.{new}
use aion_utils.Trie.NibbleSlice.Own.{new-Views}
use aion_utils.Trie.Lookup.{HashGet, look_up}
use aion_utils.Trie.Lookup.Kept.{Has, IsKept}
use aion_utils.Trie.Lookup.Walk.{look_up-value_at}
use aion_utils.Trie.Lookup.Filled.{IsDigest}
use aion_utils.Trie.Mutable.Load.{from_rlp, source}
use aion_utils.Trie.Mutable.Load.Nodes.{loaded_node, from_rlp-node_item}
use aion_utils.Trie.Mutable.Load.Committed.{Fits, CanCommit, get-commit}

abbrev zeros : ℕ → List ℕ
zeros zero = []
zeros (suc n) = 0 ∷ zeros n

-- A hash that is the length, but for the null node's.
abbrev digest : Digest
digest b = if same b null_rlp then blake2b_null_rlp else (length b % 256) ∷ zeros 31

abbrev long_value : List ℕ
long_value = 1 ∷ zeros 31

-- Two keys, of which one has a value that does not fit inside the branch.
abbrev two_keys : Tree
two_keys = fork (gap (grow (tip (2 ∷ []) long_value) (grow (tip (2 ∷ []) (7 ∷ [])) (gaps 13)))) none

abbrev root_bytes : List ℕ
root_bytes = encode_item (node_item digest two_keys)

abbrev leaf_bytes : List ℕ
leaf_bytes = encode_item (node_item digest (tip (2 ∷ []) long_value))

abbrev one_key : Tree
one_key = tip (1 ∷ 2 ∷ []) long_value

abbrev one_bytes : List ℕ
one_bytes = encode_item (node_item digest one_key)

-- What has the hash, among the byte strings of the tries.
abbrev named_by : List ℕ → List ℕ
named_by h =
    if same h blake2b_null_rlp
    then null_rlp
    else if get_or h 0 0 == length leaf_bytes
    then leaf_bytes
    else if get_or h 0 0 == length one_bytes
    then one_bytes
    else root_bytes

abbrev Named : List ℕ → Type 0
Named b = named_by (digest b) ≡ b

digest-IsDigest : IsDigest digest Named
unfolding same
digest-IsDigest = record {
  sized = λ b. elim (Bool-cases (same b null_rlp)) [ inl e ↦ rw e refl | inr e ↦ rw e refl ];
  null_hash = refl;
  null_in = refl;
  apart = λ a b ha hb e. sym ha ∙ ap named_by e ∙ hb;
}

two_keys-IsTrie : IsTrie two_keys
unfolding IsTrie slots grown
two_keys-IsTrie = (((omega arith, tt), ((omega arith, tt), tt)), refl, omega arith)

two_keys-Fits : Fits digest Named Memory.new two_keys
unfolding IsSmall stored_below node_item encode_item encode_str header hex_prefix pairs snoc same
    find
two_keys-Fits = record {
  small = (omega arith, (omega arith, (omega arith, tt)));
  named = (refl, (refl, tt));
  room = record { bounded = omega arith; each = λ b e p found. cc };
}

gaps-none : (m n : ℕ) (k : List ℕ) → value_in (gaps m) n k ≡ none
unfolding value_at
gaps-none zero n k = refl
gaps-none (suc m) zero k = refl
gaps-none (suc m) (suc n) k = gaps-none m n k

-- The tip of one nibble has its value or none.
tip-not_empty : (b : ℕ) (v k : List ℕ) → value_at (tip (2 ∷ []) (b ∷ v)) k ≢ some []
unfolding value_at
tip-not_empty b v k e = elim (Bool-cases (same (2 ∷ []) k)) [
  | inl here ↦ let impossible : some (b ∷ v) ≡ some [] = rw here at e in cc
  | inr other ↦ let impossible : none ≡ some [] = rw other at e in cc
]

two_keys-not_empty : (k : List ℕ) → value_at two_keys k ≢ some []
unfolding value_at
two_keys-not_empty [] e = cc
two_keys-not_empty (zero ∷ k) e = cc
two_keys-not_empty (suc zero ∷ k) e = tip-not_empty 1 (zeros 31) k e
two_keys-not_empty (suc (suc zero) ∷ k) e = tip-not_empty 7 [] k e
two_keys-not_empty (suc (suc (suc n)) ∷ k) e =
    let impossible : none ≡ some [] = sym (gaps-none 13 n k) ∙ e in cc

abbrev in_memory_trie : TrieDbMut
in_memory_trie = record {
  root = blake2b_null_rlp;
  root_handle = handle_of two_keys;
  death_row = [];
}

abbrev nothing_stored : Store
nothing_stored = record { db = Memory.new; hash_count = 0 }

two_keys-CanCommit : CanCommit digest Named (remove_all [] nothing_stored.db) (some two_keys)
unfolding remove_all
two_keys-CanCommit = two_keys-Fits

get-commit_example :
    (t1 : TrieDbMut) × (st1 : Store) × (commit digest in_memory_trie nothing_stored ≡ ok (t1, st1))
    × ((key : List ℕ)
        → IsBytes key
        → get (source (Memory.get st1.db)) t1 key ≡ ok (value_at two_keys (nibbles_of key)))
get-commit_example =
    get-commit digest Named in_memory_trie nothing_stored (some two_keys) digest-IsDigest
      (record { root = two_keys-IsTrie; stands = refl }) two_keys-not_empty two_keys-CanCommit

-- A key that is set, and one that comes and goes.
abbrev operations : List Operation
operations = put (0x12 ∷ []) long_value ∷ put (0x15 ∷ []) (7 ∷ []) ∷ drop_key (0x15 ∷ []) ∷ []

operations-OnBytes : All OnBytes operations
operations-OnBytes = ((omega arith, tt), ((omega arith, tt), ((omega arith, tt), tt)))

one_key-IsTrie : IsTrie one_key
unfolding IsTrie
one_key-IsTrie = (omega arith, (omega arith, tt))

one_key-meant :
    (key : List ℕ) → (if same (0x12 ∷ []) key then some long_value else none) ≡ meant operations key
unfolding meant_from same
one_key-meant [] = refl
one_key-meant (x ∷ []) = elim (Bool-cases (x == 0x15)) [
  | inl e ↦ let other : (0x12 == x) ≡ false = ground arith in rw (e, other) refl
  | inr e ↦ let swap : (0x12 == x) ≡ (x == 0x12) = ground arith in rw (e, swap) refl
]
one_key-meant (x ∷ y ∷ key) = ground arith

one_key-Agrees : Agrees (some one_key) (meant operations)
unfolding value_at nibbles_of same
one_key-Agrees = record {
  on_keys = λ key bytes.
      ap (λ b. if b then some long_value else none) (same-nibbles_of (0x12 ∷ []) key)
      ∙ one_key-meant key;
  elsewhere = λ k none_here. elim (Bool-cases (same (1 ∷ 2 ∷ []) k)) [
    | inl e ↦
        let no : same k (nibbles_of (0x12 ∷ [])) ≡ false =
          none_here (0x12 ∷ []) (omega arith, tt) in
        let yes = ap (λ j. same j (1 ∷ 2 ∷ [])) (same→eq (1 ∷ 2 ∷ []) k e) in
        let impossible : true ≡ false = yes ∙ no in cc
    | inr e ↦ rw e refl
  ];
}

one_key-Fits : Fits digest Named Memory.new one_key
unfolding IsSmall stored_below node_item encode_item hex_prefix pairs snoc same find
one_key-Fits = record {
  small = omega arith;
  named = (refl, tt);
  room = record { bounded = omega arith; each = λ b e p found. cc };
}

get-commit-run_all_example :
    (t : TrieDbMut) × (t1 : TrieDbMut) × (st1 : Store) × (run_all
        (source (Memory.get nothing_stored.db))
        new_trie
        operations
      ≡ ok t)
    × (commit digest t nothing_stored ≡ ok (t1, st1))
    × ((key : List ℕ)
        → IsBytes key
        → get (source (Memory.get st1.db)) t1 key ≡ ok (meant operations key))
get-commit-run_all_example =
    get-commit-run_all digest Named nothing_stored operations (some one_key) digest-IsDigest
      operations-OnBytes one_key-IsTrie one_key-Agrees one_key-Fits

-- A store with the two nodes that are not inline.
abbrev two_nodes : HashGet
two_nodes h =
    if same h (digest leaf_bytes)
    then some leaf_bytes
    else if same h (digest root_bytes)
    then some root_bytes
    else none

two_keys-IsKept : IsKept two_nodes digest two_keys
unfolding IsSmall stored_below node_item encode_item hex_prefix pairs snoc same
two_keys-IsKept = record {
  shape = two_keys-IsTrie;
  small = (omega arith, (omega arith, (omega arith, tt)));
  real = two_keys-not_empty;
  kept = (refl, tt);
}

two_keys-Has : Has two_nodes digest root_bytes
unfolding node_item encode_item hex_prefix pairs snoc same
two_keys-Has = refl

two_nibbles : length (nibbles_of (0x12 ∷ [])) < 3
unfolding nibbles_of
two_nibbles = omega arith

look_up-value_at_example :
    look_up two_nodes 3 (digest root_bytes) (new (0x12 ∷ []))
    ≡ ok (value_at two_keys (nibbles_of (0x12 ∷ [])))
look_up-value_at_example =
    look_up-value_at two_nodes digest 3 two_keys (new (0x12 ∷ [])) (nibbles_of (0x12 ∷ []))
      digest-IsDigest.sized two_keys-IsKept two_keys-Has (new-Views (0x12 ∷ []) (omega arith, tt))
      two_nibbles

two_keys-short : length root_bytes < 100
unfolding node_item encode_item hex_prefix pairs snoc same
two_keys-short = omega arith

from_rlp-node_item_example : from_rlp 100 root_bytes ≡ ok (loaded_node digest two_keys)
from_rlp-node_item_example =
    from_rlp-node_item digest 100 two_keys digest-IsDigest.sized two_keys-IsTrie two_keys-Fits.small
      two_keys-not_empty two_keys-short
