-- ===== src/Trie/Mutable/Tests.antt =====
-- Applications of the theorems on the trie in memory to a store, tries and lists of operations.
use aion_utils.Prelude.{
  ◌++◌, ◌==◌, ◌%◌, length, ℕ, ◌≡◌, refl, ap, sym, ◌∙◌, Bool-cases, inl, inr, none, some, List, [],
  ◌∷◌, if◌then◌else◌, arith, ok, err, All,
}
use aion_utils.Prelude.Words.{IsBytes}
use aion_utils.Db.Map.{same, same→eq}
use aion_utils.Db.Memory.{blake2b_null_rlp}
use aion_utils.Trie.Nibbles.{nibbles_of}
use aion_utils.Trie.NibbleSlice.{new}
use aion_utils.Trie.NibbleSlice.Own.{new-Views}
use aion_utils.Db.Memory
use aion_utils.Rlp.Format.{encode_item}
use aion_utils.Trie.NibbleSlice.Encode.{hex_prefix, pairs}
use aion_utils.Trie.Mutable.Storage.{NodeStorage, alloc, destroy}
use aion_utils.Trie.Mutable.Storage.Owned.{
  member, AreDistinct, IsStorage, owned, alloc-owned, destroy-owned,
}
use aion_utils.Trie.Mutable.Commit.{Store, Digest, commit, remove_all}
use aion_utils.Trie.Mutable.Commit.Items.{node_item, IsSmall, stored_below, store_all}
use aion_utils.Trie.Mutable.Commit.Hash.{commit-node_item}
use aion_utils.Trie.Mutable.{hash, empty, NodeSource, incomplete_database}
use aion_utils.Trie.Mutable.Insert.{insert_inspector}
use aion_utils.Trie.Mutable.Insert.Stubs.{at_start}
use aion_utils.Trie.Mutable.Insert.Inserts.{Inserts}
use aion_utils.Trie.Mutable.Insert.Laws.{insert_inspector-value_at}
use aion_utils.Trie.Mutable.Remove.{remove_inspector}
use aion_utils.Trie.Mutable.Remove.Removes.{Removes}
use aion_utils.Trie.Mutable.Remove.Laws.{remove_inspector-value_at}
use aion_utils.Trie.Mutable.Database.{TrieDbMut, new_trie, get, insert}
use aion_utils.Trie.Mutable.Shape.{Tree, tip, node_of, value_at, IsTrie}
use aion_utils.Trie.Mutable.Shape.Forests.{handle_of}
use aion_utils.Trie.Mutable.Shape.Reads.{set_at}
use aion_utils.Trie.Mutable.Map.{HasNull, After, insert-After}
use aion_utils.Trie.Mutable.Map.Runs.{
  Operation, put, drop_key, OnBytes, run_all, meant_from, meant, get-run_all,
}
use aion_utils.Trie.Mutable.Map.History.{run_all-history}

-- A store that holds the empty trie and nothing else.
abbrev store : NodeSource
store = record {
  load = λ h. if same h blake2b_null_rlp then ok empty else err (incomplete_database h);
  look_up = λ h s. if same h blake2b_null_rlp then ok none else err (incomplete_database h);
}

store-HasNull : HasNull store
unfolding same
store-HasNull = record { null_loads = refl; null_looks_up = λ s. refl }

-- Three keys, one of them a front of another, and one that comes and goes.
abbrev operations : List Operation
operations =
    put (0x12 ∷ 0x34 ∷ []) (1 ∷ [])
    ∷ put (0x12 ∷ []) (2 ∷ [])
    ∷ put (0x15 ∷ []) (3 ∷ [])
    ∷ drop_key (0x15 ∷ [])
    ∷ []

abbrev others : List Operation
others = put (0x12 ∷ []) (2 ∷ []) ∷ put (0x12 ∷ 0x34 ∷ []) (1 ∷ []) ∷ drop_key (0x15 ∷ []) ∷ []

operations-OnBytes : All OnBytes operations
operations-OnBytes = (
  (omega arith, (omega arith, tt)),
  ((omega arith, tt), ((omega arith, tt), ((omega arith, tt), tt))),
)

others-OnBytes : All OnBytes others
others-OnBytes = ((omega arith, tt), ((omega arith, (omega arith, tt)), ((omega arith, tt), tt)))

get-run_all_example :
    (t : TrieDbMut) × (run_all store new_trie operations ≡ ok t)
    × ((key : List ℕ) → IsBytes key → get store t key ≡ ok (meant operations key))
get-run_all_example = get-run_all store store-HasNull operations operations-OnBytes

abbrev byte : List ℕ
byte = 0x13 ∷ []

byte-IsBytes : IsBytes byte
byte-IsBytes = (omega arith, tt)

abbrev leaf_of_two : Tree
leaf_of_two = tip (1 ∷ 2 ∷ []) (7 ∷ [])

leaf_of_two-IsTrie : IsTrie leaf_of_two
unfolding IsTrie
leaf_of_two-IsTrie = (omega arith, (omega arith, tt))

abbrev in_memory_trie : TrieDbMut
in_memory_trie = record {
  root = blake2b_null_rlp;
  root_handle = handle_of leaf_of_two;
  death_row = [];
}

insert-After_example :
    After in_memory_trie
      (insert store in_memory_trie byte (9 ∷ []))
      (value_at leaf_of_two (nibbles_of byte))
      (set_at (nibbles_of byte) (9 ∷ []) (value_at leaf_of_two))
insert-After_example =
    insert-After store store-HasNull byte byte-IsBytes in_memory_trie (some leaf_of_two) (9 ∷ [])
      (record { root = leaf_of_two-IsTrie; stands = refl })

insert_inspector-value_at_example :
    Inserts
      (insert_inspector store 5 (node_of leaf_of_two) (new byte) (9 ∷ []) (at_start []))
      (nibbles_of byte)
      (9 ∷ [])
      leaf_of_two
      []
unfolding nibbles_of
insert_inspector-value_at_example =
    insert_inspector-value_at store (9 ∷ []) [] 5 leaf_of_two (new byte) (nibbles_of byte)
      leaf_of_two-IsTrie (new-Views byte byte-IsBytes) (omega arith)

remove_inspector-value_at_example :
    Removes
      (remove_inspector store 6 (node_of leaf_of_two) (new byte) (at_start []))
      (nibbles_of byte)
      leaf_of_two
      []
unfolding nibbles_of
remove_inspector-value_at_example =
    remove_inspector-value_at store [] 6 leaf_of_two (new byte) (nibbles_of byte) leaf_of_two-IsTrie
      (new-Views byte byte-IsBytes) (omega arith)

alike_at : (key : List ℕ) → IsBytes key → meant operations key ≡ meant others key
unfolding meant_from same
alike_at key h = elim (Bool-cases (same key (0x12 ∷ []))) [
  | inl e ↦
      let eq = same→eq key (0x12 ∷ []) e in
      ap (meant operations) eq ∙ here ∙ sym (ap (meant others) eq)
  | inr e ↦ elim (Bool-cases (same key (0x15 ∷ []))) [
    | inl f ↦ rw (e, f) refl
    | inr f ↦ rw (e, f) refl
  ]
]
  where
    here : meant operations (0x12 ∷ []) ≡ meant others (0x12 ∷ [])
    here = refl

run_all-history_example :
    (t : TrieDbMut) × (u : TrieDbMut) × (run_all store new_trie operations ≡ ok t)
    × (run_all store new_trie others ≡ ok u)
    × (t.root_handle ≡ u.root_handle)
run_all-history_example =
    run_all-history store store-HasNull operations others operations-OnBytes others-OnBytes alike_at

-- A hash that is the length.
abbrev digest : Digest
digest bs = (length bs % 256) ∷ []

abbrev nothing_stored : Store
nothing_stored = record { db = Memory.new; hash_count = 0 }

leaf_of_two-IsSmall : IsSmall digest leaf_of_two
unfolding IsSmall node_item encode_item hex_prefix pairs
leaf_of_two-IsSmall = omega arith

commit-node_item_example :
    (t1 : TrieDbMut) × (st1 : Store) × (commit digest in_memory_trie nothing_stored ≡ ok (t1, st1))
    × (t1.root ≡ digest (encode_item (node_item digest leaf_of_two)))
    × (t1.root_handle ≡ hash t1.root)
    × (t1.death_row ≡ [])
    × (st1
        ≡ store_all digest
            (stored_below digest leaf_of_two ++ (encode_item (node_item digest leaf_of_two) ∷ []))
            (record nothing_stored { db = remove_all in_memory_trie.death_row nothing_stored.db }))
commit-node_item_example =
    commit-node_item digest in_memory_trie leaf_of_two nothing_stored
      (record { root = leaf_of_two-IsTrie; stands = refl }) leaf_of_two-IsSmall

-- Two nodes, the first of which is free.
abbrev one_free : NodeStorage ℕ
one_free = record { nodes = 5 ∷ 6 ∷ []; free_indices = 0 ∷ [] }

one_free-IsStorage : IsStorage one_free
unfolding AreDistinct member
one_free-IsStorage = record { in_range = (omega arith, tt); distinct = (refl, tt) }

alloc-owned_example :
    (h : ℕ) × (t : NodeStorage ℕ) × (alloc one_free 7 ≡ ok (h, t))
    × IsStorage t
    × (owned one_free h ≡ none)
    × ((i : ℕ) → owned t i ≡ (if i == h then some 7 else owned one_free i))
alloc-owned_example = alloc-owned one_free 7 one_free-IsStorage

destroy-owned_example :
    (t : NodeStorage ℕ) × (destroy 0 one_free 1 ≡ ok (6, t))
    × IsStorage t
    × ((i : ℕ) → owned t i ≡ (if i == 1 then none else owned one_free i))
unfolding owned member
destroy-owned_example = destroy-owned one_free 0 6 1 one_free-IsStorage refl
