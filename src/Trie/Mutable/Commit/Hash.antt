-- ===== src/Trie/Mutable/Commit/Hash.antt =====
-- The root hash after `commit`.
use aion_utils.Prelude.{
  ℕ, ◌≤◌, ◌≡◌, ◌≢◌, refl, ap, sym, ◌∙◌, some, List, [], ◌∷◌, ◌++◌, arith, length, ok, leb,
  Bool-cases, inl, inr, get_or,
}
use aion_utils.Rlp.Format.{Items, lst, header, encode_item, encode_items, encode_item-lst}
use aion_utils.Db.Map.{ne→same}
use aion_utils.Db.Memory.{insert, null_rlp}
use aion_utils.Trie.Mutable.{hash}
use aion_utils.Trie.Mutable.Database.{TrieDbMut}
use aion_utils.Trie.Mutable.Shape.{Tree, tip, path, fork}
use aion_utils.Trie.Mutable.Map.{Holds}
use aion_utils.Trie.Mutable.Commit.{Store, Digest, stored, commit, commit_root, remove_all}
use aion_utils.Trie.Mutable.Commit.Items.{
  node_item, IsSmall, stored_below, store_all, store_all-append,
}
use aion_utils.Trie.Mutable.Commit.Root.{into_rlp-encode_item}

list_header : (n : ℕ) (bs : List ℕ) → 0xc0 ≤ get_or (header 0xc0 n ++ bs) 0 0
unfolding header
list_header n bs = elim (Bool-cases (leb n 55)) [
  | inl e ↦ rw e (omega arith)
  | inr e ↦ rw e (omega arith)
]

list-ne-null_rlp : (xs : Items) → encode_item (lst xs) ≢ null_rlp
list-ne-null_rlp xs e =
    let first = list_header (length (encode_items xs)) (encode_items xs) in
    let same_first : get_or (header 0xc0 (length (encode_items xs)) ++ encode_items xs) 0 0 ≡ 0x80 =
      ap (λ b. get_or b 0 0) (sym (encode_item-lst xs) ∙ e) in
    omega arith

pub node_item-ne-null_rlp :
    (digest : Digest) (t : Tree) → encode_item (node_item digest t) ≢ null_rlp
unfolding node_item
node_item-ne-null_rlp digest (tip ks v) = list-ne-null_rlp _
node_item-ne-null_rlp digest (path ks t) = list-ne-null_rlp _
node_item-ne-null_rlp digest (fork f w) = list-ne-null_rlp _

stored_hash :
    (digest : Digest) (rlp : List ℕ) (st : Store)
    → rlp ≢ null_rlp
    → (stored digest rlp st).0 ≡ digest rlp
unfolding stored insert
stored_hash digest rlp st h = rw (ne→same rlp null_rlp h) refl

-- `commit` of a trie that holds a tree in its canonical form, no node of which is encoded in 2 ^ 32
-- bytes or more: it returns, whatever the store holds, the root is the hash of the root node's
-- encoding, in which each node stands by its encoding or, from 32 bytes on, by the hash of it, the
-- trie is known by its root from then on, the death row is empty, and the store is the one from which
-- the death row was removed and into which the stored nodes were put, the deepest first.
pub commit-node_item :
    (digest : Digest) (t : TrieDbMut) (u : Tree) (st : Store)
    → Holds t (some u)
    → IsSmall digest u
    → (t1 : TrieDbMut) × (st1 : Store) × (commit digest t st ≡ ok (t1, st1))
      × (t1.root ≡ digest (encode_item (node_item digest u)))
      × (t1.root_handle ≡ hash t1.root)
      × (t1.death_row ≡ [])
      × (st1
          ≡ store_all digest
              (stored_below digest u ++ (encode_item (node_item digest u) ∷ []))
              (record st { db = remove_all t.death_row st.db }))
unfolding commit commit_root store_all
commit-node_item digest t u st h small =
    let killed = record st { db = remove_all t.death_row st.db } in
    let bytes = encode_item (node_item digest u) in
    let run = into_rlp-encode_item digest u killed h.root small in
    let st1 = store_all digest (stored_below digest u) killed in
    let hashed = stored_hash digest bytes st1 (node_item-ne-null_rlp digest u) in
    (
      record { root = digest bytes; root_handle = hash (digest bytes); death_row = [] },
      (stored digest bytes st1).1,
      rw (h.stands, run, hashed) refl,
      refl,
      refl,
      refl,
      sym (store_all-append digest (stored_below digest u) (bytes ∷ []) killed),
    )
