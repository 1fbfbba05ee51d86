-- ===== src/Trie/Mutable/Load/Committed.antt =====
-- A trie that was committed, read from its store.
use aion_utils.Prelude.{
  ℕ, suc, ◌+◌, ◌*◌, ◌≡◌, ◌≢◌, refl, ap, sym, ◌∙◌, Option, none, some, List, [], ◌∷◌, ◌++◌, ltb,
  ltb_false→le, arith, Bool-cases, inl, inr, length, ok, All, All-append, All-parts,
}
use mathlib.Core.Path.{subst}
use aion_utils.Prelude.Words.{IsBytes}
use aion_utils.Db.Map.{same_refl}
use aion_utils.Db.Memory
use aion_utils.Db.Memory.{MemoryDb, null_rlp, blake2b_null_rlp}
use aion_utils.Rlp.Format.{encode_item}
use aion_utils.Trie.Nibbles.{nibbles_of}
use aion_utils.Trie.NibbleSlice.{new, len}
use aion_utils.Trie.NibbleSlice.Own.{new-Views, len-Views}
use aion_utils.Trie.Mutable.{lookup, hash}
use aion_utils.Trie.Mutable.Database.{TrieDbMut, get, fuel_for}
use aion_utils.Trie.Mutable.Shape.{Tree, tip, path, fork, Forest, nil, gap, grow, value_at}
use aion_utils.Trie.Mutable.Shape.Forests.{value_below}
use aion_utils.Trie.Mutable.Map.{HasNull, Holds, get-value_below}
use aion_utils.Trie.Mutable.Commit.{Store, Digest, commit, commit_root, remove_all}
use aion_utils.Trie.Mutable.Commit.Items.{node_item, if_long, stored_below, stored_in, IsSmall}
use aion_utils.Trie.Mutable.Commit.Hash.{commit-node_item, node_item-ne-null_rlp}
use aion_utils.Trie.Lookup.{HashGet, look_up, walk, visit, node_data}
use aion_utils.Trie.Lookup.Kept.{Has, IsKept}
use aion_utils.Trie.Lookup.Walk.{decoded-empty, look_up-value_at}
use aion_utils.Trie.Lookup.Filled.{IsDigest, Room, store_all-FilledStore}
use aion_utils.Trie.Mutable.Load.{from_rlp, cache, source}

-- A store that answers for the hash of the empty trie as `MemoryDB` does.
pub source-HasNull : (get : HashGet) → get blake2b_null_rlp ≡ some null_rlp → HasNull (source get)
unfolding cache from_rlp look_up walk node_data visit
source-HasNull get e = record {
  null_loads = rw (e, decoded-empty) refl;
  null_looks_up = λ s. rw (e, decoded-empty) refl;
}

pub get-null : (db : MemoryDb) → Memory.get db blake2b_null_rlp ≡ some null_rlp
unfolding Memory.get
get-null db = rw (same_refl blake2b_null_rlp) refl

if_long-not_null : (rlp : List ℕ) → All (λ b. b ≢ null_rlp) (if_long rlp)
if_long-not_null rlp = elim (Bool-cases (ltb (length rlp) 32)) [
  | inl short ↦ rw short tt
  | inr long ↦ rw long (
    λ e.
        let size : length rlp ≡ 1 = ap length e in omega (arith, ltb_false→le (length rlp) 32 long),
    tt,
  )
]

module _ (digest : Digest) where
  mutual
    unfolding stored_below

    below-not_null : (t : Tree) → All (λ b. b ≢ null_rlp) (stored_below digest t)
    below-not_null (tip ks v) = tt
    below-not_null (path ks t) =
        All-append (λ b. b ≢ null_rlp) (stored_below digest t) (if_long _) (below-not_null t)
          (if_long-not_null _)
    below-not_null (fork f w) = in-not_null f

    in-not_null : (f : Forest) → All (λ b. b ≢ null_rlp) (stored_in digest f)
    in-not_null nil = tt
    in-not_null (gap f) = in-not_null f
    in-not_null (grow t f) =
        All-append (λ b. b ≢ null_rlp) (stored_below digest t ++ if_long _) (stored_in digest f)
          (All-append (λ b. b ≢ null_rlp) (stored_below digest t) (if_long _) (below-not_null t)
            (if_long-not_null _))
          (in-not_null f)

  -- All that a commit of a trie puts into the store.
  abbrev pub all_stored : Tree → List (List ℕ)
  all_stored u = stored_below digest u ++ (encode_item (node_item digest u) ∷ [])

All-both :
    {A : Type 0} (P Q : A → Type 0) (xs : List A) → All P xs → All Q xs → All (λ x. P x × Q x) xs
All-both P Q [] h k = tt
All-both P Q (x ∷ xs) (hx, h) (kx, k) = ((hx, kx), All-both P Q xs h k)

-- What a commit of a trie needs: no encoding of 2 ^ 32 bytes or more in it, nodes that are among the byte
-- strings that the hash function tells apart, and room for them in the store.
pub record Fits (digest : Digest) (P : List ℕ → Type 0) (db : MemoryDb) (u : Tree) : Type 0 where
  pub small : IsSmall digest u
  pub named : All P (all_stored digest u)
  pub room : Room digest P (length (all_stored digest u)) db

abbrev pub CanCommit : Digest → (List ℕ → Type 0) → MemoryDb → Option Tree → Type 0
CanCommit digest P db none = Unit {0}
CanCommit digest P db (some u) = Fits digest P db u

module _ (digest : Digest) (P : List ℕ → Type 0) (d : IsDigest digest P) where
  -- A store and a trie after a commit, and what a lookup of a key finds then.
  pub record Committed (t : TrieDbMut) (st : Store) (m : Option Tree) : Type 0 where
    pub trie : TrieDbMut
    pub store : Store
    pub runs : commit digest t st ≡ ok (trie, store)
    pub reads :
        (key : List ℕ)
        → IsBytes key
        → get (source (Memory.get store.db)) trie key ≡ ok (value_below m (nibbles_of key))

  -- A trie that is known by its root, over a store that has all its nodes.
  reads-value_at :
      (t1 : TrieDbMut) (db : MemoryDb) (u : Tree)
      → t1.root_handle ≡ hash (digest (encode_item (node_item digest u)))
      → IsKept (Memory.get db) digest u
      → Has (Memory.get db) digest (encode_item (node_item digest u))
      → (key : List ℕ) → IsBytes key
      → get (source (Memory.get db)) t1 key ≡ ok (value_at u (nibbles_of key))
  unfolding get lookup
  reads-value_at t1 db u handle kept here key bytes =
      let fuel : fuel_for key ≡ suc (length key * 6 + 5) = omega arith in
      let vs = new-Views key bytes in
      rw (handle, fuel)
        (look_up-value_at (Memory.get db) digest (suc (len (new key))) u (new key) (nibbles_of key)
          d.sized kept here vs (omega (arith, len-Views (new key) (nibbles_of key) vs)))

  pub commit-Committed :
      (t : TrieDbMut) (st : Store) (m : Option Tree)
      → Holds t m
      → ((k : List ℕ) → value_below m k ≢ some [])
      → CanCommit digest P (remove_all t.death_row st.db) m
      → Committed t st m
  unfolding commit commit_root
  commit-Committed t st none h real can =
      let killed = record st { db = remove_all t.death_row st.db } in
      let after : TrieDbMut = record t { death_row = [] } in
      record {
        trie = after;
        store = killed;
        runs = rw h.stands refl;
        reads = λ key bytes.
            get-value_below (source (Memory.get killed.db))
              (source-HasNull (Memory.get killed.db) (get-null killed.db)) key bytes after none
              (record { root = tt; stands = h.stands });
      }
  commit-Committed t st (some u) h real can =
      let (t1, st1, runs, root, handle, row, filled) = commit-node_item digest t u st h can.small in
      let bytes = encode_item (node_item digest u) in
      let not_null =
        All-append (λ b. b ≢ null_rlp) (stored_below digest u) (bytes ∷ [])
          (below-not_null digest u) (node_item-ne-null_rlp digest u, tt) in
      let f =
        store_all-FilledStore digest P d (all_stored digest u)
          (record st { db = remove_all t.death_row st.db })
          (All-both P (λ b. b ≢ null_rlp) (all_stored digest u) can.named not_null) can.room in
      let has =
        subst (λ s. All (Has (Memory.get s.db) digest) (all_stored digest u)) (sym filled) f.has in
      let (below, (here, end)) =
        All-parts (Has (Memory.get st1.db) digest) (stored_below digest u) (bytes ∷ []) has in
      record {
        trie = t1;
        store = st1;
        runs = runs;
        reads =
            reads-value_at t1 st1.db u (handle ∙ ap hash root)
              (record { shape = h.root; small = can.small; real = real; kept = below }) here;
      }

-- `commit` of a trie that holds a tree in its canonical form, or of the empty one, with no empty
-- value, into a store from which it first removes the death row. Let the tree have only encodings
-- of fewer than 2 ^ 32 bytes and fewer than 2 ^ 31 nodes to store, the hash function give 32 bytes,
-- and the null node its known hash; let `P` be a predicate on byte strings that the null node and
-- what the commit stores satisfy, and no two that satisfy it have one hash; and let the store
-- without the death row, under the hash of a byte string that satisfies `P`, have no entry, or one
-- that belongs to that byte string if it is counted, with a count that is not negative and stays
-- below 2 ^ 31 with one more for each node that is stored. Then the commit returns, and `get` in the
-- committed trie, which reads the nodes from the store, returns at each byte string what the trie
-- held. For the empty trie nothing is asked of the tree and the store.
pub get-commit :
    (digest : Digest) (P : List ℕ → Type 0) (t : TrieDbMut) (st : Store) (m : Option Tree)
    → IsDigest digest P
    → Holds t m
    → ((k : List ℕ) → value_below m k ≢ some [])
    → CanCommit digest P (remove_all t.death_row st.db) m
    → (t1 : TrieDbMut) × (st1 : Store) × (commit digest t st ≡ ok (t1, st1))
      × ((key : List ℕ)
          → IsBytes key
          → get (source (Memory.get st1.db)) t1 key ≡ ok (value_below m (nibbles_of key)))
get-commit digest P t st m d h real can =
    let c = commit-Committed digest P d t st m h real can in (c.trie, c.store, c.runs, c.reads)
