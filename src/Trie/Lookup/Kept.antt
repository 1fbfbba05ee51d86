-- ===== src/Trie/Lookup/Kept.antt =====
-- A trie whose nodes are in a store, and what its nodes' children are there.
use aion_utils.Prelude.{
  ℕ, zero, suc, ◌^◌, ◌≤◌, ◌<◌, ◌≡◌, ◌≢◌, refl, ap, sym, ◌∙◌, true, false, Option, none, some, List,
  [], ◌∷◌, ◌++◌, ltb, arith, Bool-cases, inl, inr, length, ok, index, All, All-parts, append-nil,
}
use mathlib.Core.Path.{subst}
use aion_utils.Rlp.Untrusted.{new, is_data, decode_value}
use aion_utils.Rlp.Untrusted
use aion_utils.Rlp.Trusted.{is_hash, hash_val}
use aion_utils.Rlp.Header.{payload_info, payload_info_from}
use aion_utils.Rlp.Format.{Items, str, lst, encode_item, encode_str, header}
use aion_utils.Rlp.Format.Reading.{item_payload, payload_info-item}
use aion_utils.Rlp.Format.Values.{decode_value-str}
use aion_utils.Rlp.Impls.{hash_value, hash_decode}
use aion_utils.Trie.Mutable.{Value}
use aion_utils.Trie.Mutable.Shape.{
  Tree, tip, path, fork, Forest, nil, gap, grow, slots, value_at, IsTrie,
}
use aion_utils.Trie.Mutable.Shape.Forests.{tree_at, tree_at-IsTrie, value_in-tree_at}
use aion_utils.Trie.Mutable.Shape.Reads.{value_at-path}
use aion_utils.Trie.Mutable.Shape.Filled.{under-append_key}
use aion_utils.Trie.Mutable.Commit.{Digest}
use aion_utils.Trie.Mutable.Commit.Items.{
  node_item, place_items, referred, if_long, stored_below, stored_in, IsSmall, AreSmall,
}
use aion_utils.Trie.Node.Pairs.{is_data-lst}
use aion_utils.Trie.Node.Branches.{encodings}
use aion_utils.Trie.Lookup.{HashGet, Place, under, inline, place_of, node_data}

abbrev pub Has : HashGet → Digest → List ℕ → Type 0
Has get digest rlp = get (digest rlp) ≡ some rlp

-- A canonical trie with small nodes and no empty value, and every node below its root that is not
-- inline is in the store.
pub record IsKept (get : HashGet) (digest : Digest) (t : Tree) : Type 0 where
  pub shape : IsTrie t
  pub small : IsSmall digest t
  pub real : (k : List ℕ) → value_at t k ≢ some []
  pub kept : All (Has get digest) (stored_below digest t)

-- The bytes of a place of a branch.
abbrev pub place_bytes : Digest → Option Tree → List ℕ
place_bytes digest none = 0x80 ∷ []
place_bytes digest (some t) = encode_item (referred digest (node_item digest t))

pub index-encodings :
    (digest : Digest) (f : Forest) (n : ℕ)
    → n < slots f
    → index {E = Unit {0}} (encodings (place_items digest f)) n
      ≡ ok (place_bytes digest (tree_at f n))
unfolding encodings node_item tree_at slots encode_item encode_str
index-encodings digest nil n h = absurd (omega arith)
index-encodings digest (gap f) zero h = refl
index-encodings digest (grow t f) zero h = refl
index-encodings digest (gap f) (suc n) h = index-encodings digest f n (omega arith)
index-encodings digest (grow t f) (suc n) h = index-encodings digest f n (omega arith)

-- An empty place is read inline.
pub place_of-empty : place_of (0x80 ∷ []) ≡ ok (inline (0x80 ∷ []))
unfolding place_of is_hash is_data Untrusted.size payload_info payload_info_from
place_of-empty = refl

pub place_of-lst :
    (xs : Items) → place_of (encode_item (lst xs)) ≡ ok (inline (encode_item (lst xs)))
unfolding place_of is_hash
place_of-lst xs = rw (is_data-lst xs) refl

pub hash_bytes : (h : List ℕ) → length h ≡ 32 → encode_item (str h) ≡ 0xa0 ∷ h
unfolding encode_item encode_str header
hash_bytes [] size = absurd (omega arith)
hash_bytes (a ∷ []) size = absurd (omega arith)
hash_bytes (a ∷ b ∷ h) size = rw size refl

value_len-str : (h : List ℕ) → 2 ≤ length h → (item_payload (str h)).value_len ≡ length h
value_len-str [] few = absurd (omega arith)
value_len-str (a ∷ []) few = absurd (omega arith)
value_len-str (a ∷ b ∷ h) few = refl

-- A hash of 32 bytes is read as one.
pub place_of-hash : (h : List ℕ) → length h ≡ 32 → place_of (encode_item (str h)) ≡ ok (under h)
unfolding place_of is_hash hash_val hash_decode hash_value is_data Untrusted.size encode_item
    encode_str
place_of-hash h size =
    let bytes = encode_item (str h) in
    let front = hash_bytes h size in
    let fits : length bytes < 2 ^ 64 = omega (arith, ap length front) in
    let info : payload_info bytes ≡ ok (item_payload (str h)) =
      ap payload_info (sym (append-nil bytes)) ∙ payload_info-item (str h) [] fits in
    let a_string : is_data (new bytes) ≡ true = rw front (ground arith) in
    let len : (item_payload (str h)).value_len ≡ 32 = value_len-str h (omega arith) ∙ size in
    let read : decode_value (hash_value 32) bytes ≡ ok h =
      ap (decode_value (hash_value 32)) (sym (append-nil bytes))
      ∙ decode_value-str (hash_value 32) h [] fits
      ∙ rw size refl in
    rw (a_string, info, len, read) refl

if_long-long : (rlp : List ℕ) → ltb (length rlp) 32 ≡ false → if_long rlp ≡ rlp ∷ []
if_long-long rlp e = rw e refl

-- A node that a parent refers to, in a store that has it: what is read there is its encoding.
pub record Reached (get : HashGet) (digest : Digest) (t : Tree) : Type 0 where
  pub place : Place
  pub refers : place_of (encode_item (referred digest (node_item digest t))) ≡ ok place
  pub found : (depth : ℕ) → node_data get depth place ≡ ok (encode_item (node_item digest t))

pub node_item-lst : (digest : Digest) (t : Tree) → (xs : Items) × (node_item digest t ≡ lst xs)
unfolding node_item
node_item-lst digest (tip ks v) = (_, refl)
node_item-lst digest (path ks t) = (_, refl)
node_item-lst digest (fork f w) = (_, refl)

module _ (get : HashGet) (digest : Digest) (sized : (b : List ℕ) → length (digest b) ≡ 32) where
  pub node-Reached :
      (t : Tree)
      → All (Has get digest) (if_long (encode_item (node_item digest t)))
      → Reached get digest t
  unfolding node_data
  node-Reached t has =
      let bytes = encode_item (node_item digest t) in
      elim (Bool-cases (ltb (length bytes) 32)) [
        | inl short ↦
            let (xs, e) = node_item-lst digest t in
            record {
              place = inline bytes;
              refers = rw short (rw e (place_of-lst xs));
              found = λ depth. refl;
            }
        | inr long ↦
            let (here, rest) = subst (All (Has get digest)) (if_long-long bytes long) has in
            record {
              place = under (digest bytes);
              refers = rw long (place_of-hash (digest bytes) (sized bytes));
              found = λ depth. rw here refl;
            }
      ]

  -- The child at a place of a kept branch.
  pub tree_at-kept :
      (f : Forest) (n : ℕ) (t : Tree)
      → tree_at f n ≡ some t
      → AreSmall digest f
      → All (Has get digest) (stored_in digest f)
      → IsSmall digest t
        × All (Has get digest) (stored_below digest t)
        × All (Has get digest) (if_long (encode_item (node_item digest t)))
  unfolding tree_at IsSmall stored_in
  tree_at-kept nil n u e small kept = cc
  tree_at-kept (gap f) zero u e small kept = cc
  tree_at-kept (gap f) (suc n) u e small kept = tree_at-kept f n u e small kept
  tree_at-kept (grow t f) zero u e (small, rest) kept =
      let same : t ≡ u = cc in
      let first = stored_below digest t ++ if_long (encode_item (node_item digest t)) in
      let (here, there) = All-parts (Has get digest) first (stored_in digest f) kept in
      let (below, long) = All-parts (Has get digest) (stored_below digest t) (if_long _) here in
      rw (sym same) (small, below, long)
  tree_at-kept (grow t f) (suc n) u e (small, rest) kept =
      let first = stored_below digest t ++ if_long (encode_item (node_item digest t)) in
      let (here, there) = All-parts (Has get digest) first (stored_in digest f) kept in
      tree_at-kept f n u e rest there

  pub path-IsKept :
      (ks : List ℕ) (t : Tree)
      → IsKept get digest (path ks t)
      → IsKept get digest t × Reached get digest t
  unfolding IsTrie IsSmall stored_below
  path-IsKept ks t k =
      let (hk, pos, hf, ht) = k.shape in
      let (here, small) = k.small in
      let (below, long) = All-parts (Has get digest) (stored_below digest t) (if_long _) k.kept in
      (
        record {
          shape = ht;
          small = small;
          real = λ j e.
              k.real (ks ++ j)
                (value_at-path ks t (ks ++ j) ∙ under-append_key ks (value_at t) j ∙ e);
          kept = below;
        },
        node-Reached t long,
      )

  pub fork-IsKept :
      (f : Forest) (w : Option Value) (n : ℕ) (t : Tree)
      → IsKept get digest (fork f w)
      → tree_at f n ≡ some t
      → IsKept get digest t × Reached get digest t
  unfolding IsTrie IsSmall stored_below value_at
  fork-IsKept f w n t k e =
      let (hf, sixteen, many) = k.shape in
      let (here, smalls) = k.small in
      let (small, below, long) = tree_at-kept f n t e smalls k.kept in
      (
        record {
          shape = tree_at-IsTrie f n t hf e;
          small = small;
          real = λ j eq. k.real (n ∷ j) (value_in-tree_at f n j ∙ rw e eq);
          kept = below;
        },
        node-Reached t long,
      )
