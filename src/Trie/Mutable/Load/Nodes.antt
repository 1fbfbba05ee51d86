-- ===== src/Trie/Mutable/Load/Nodes.antt =====
-- A node that was committed, read back into memory.
use aion_utils.Prelude.{
  ℕ, zero, suc, ◌^◌, ◌<◌, ◌≡◌, ◌≢◌, refl, ap, sym, ◌∙◌, true, false, some, List, [], ◌∷◌, ◌++◌,
  if◌then◌else◌, ltb, ltb→lt, leb, arith, Bool-cases, inl, inr, length, length-append, ok,
}
use aion_utils.Prelude.Words.{width_bounds}
use aion_utils.Rlp.Untrusted
use aion_utils.Rlp.Untrusted.{new}
use aion_utils.Rlp.Format.{
  Items, str, lst, cons, header, encode_item, encode_items, encode_item-lst,
  length-encode_items-cons,
}
use aion_utils.Rlp.Format.Headers.{length-header}
use aion_utils.Rlp.Format.Navigate.{encode_item_pos}
use aion_utils.Trie.NibbleSlice.Encode.{hex_prefix}
use aion_utils.Trie.NibbleSlice.Own.{encoded-Views}
use aion_utils.Trie.Mutable.{
  Node, leaf, extension, branch, NodeHandle, in_memory, hash, fresh, Children, end, vacant,
  occupied,
}
use aion_utils.Trie.Mutable.Shape.{
  Tree, tip, path, fork, Forest, nil, gap, grow, value_at, value_in, IsTrie, IsForest,
}
use aion_utils.Trie.Mutable.Shape.Reads.{value_at-path}
use aion_utils.Trie.Mutable.Shape.Filled.{under-append_key}
use aion_utils.Trie.Mutable.Commit.{Digest}
use aion_utils.Trie.Mutable.Commit.Items.{
  node_item, place_items, referred, value_item, IsSmall, AreSmall, snoc, encode_items-snoc,
}
use aion_utils.Trie.Node.Branches.{encodings}
use aion_utils.Trie.Node.Places.{decoded-tip, decoded-path, decoded-fork}
use aion_utils.Trie.Lookup.{place_of, inline}
use aion_utils.Trie.Lookup.Kept.{hash_bytes, place_of-lst, place_of-hash, node_item-lst}
use aion_utils.Trie.Mutable.Load.{from_rlp, inline_or_hash, load_children}

-- The node in memory, with its children by their hashes where they have 32 bytes or more.
unfoldable mutual
  pub loaded_node : Digest → Tree → Node
  loaded_node digest (tip ks v) = leaf (hex_prefix ks true) v
  loaded_node digest (path ks t) = extension (hex_prefix ks false) (
      if ltb (length (encode_item (node_item digest t))) 32
      then in_memory (fresh (loaded_node digest t))
      else hash (digest (encode_item (node_item digest t))))
  loaded_node digest (fork f w) = branch (loaded_places digest f) w

  pub loaded_places : Digest → Forest → Children
  loaded_places digest nil = end
  loaded_places digest (gap f) = vacant (loaded_places digest f)
  loaded_places digest (grow t f) =
      occupied
        (if ltb (length (encode_item (node_item digest t))) 32
          then in_memory (fresh (loaded_node digest t))
          else hash (digest (encode_item (node_item digest t))))
        (loaded_places digest f)

abbrev pub loaded_handle : Digest → Tree → NodeHandle
loaded_handle digest t =
    if ltb (length (encode_item (node_item digest t))) 32
    then in_memory (fresh (loaded_node digest t))
    else hash (digest (encode_item (node_item digest t)))

items-lt : (xs : Items) → length (encode_items xs) < length (encode_item (lst xs))
items-lt xs = ground (
  arith,
  ap length (encode_item-lst xs),
  length-append (header 0xc0 (length (encode_items xs))) (encode_items xs),
  length-header 0xc0 (length (encode_items xs)),
)

is_empty-lst :
    (xs : Items)
    → 0 < length (encode_items xs)
    → length (encode_item (lst xs)) < 2 ^ 64
    → Untrusted.is_empty (new (encode_item (lst xs))) ≡ false
unfolding Untrusted.is_empty encode_item header
is_empty-lst xs pos small =
    let bound = items-lt xs in
    let (most, rest, least, tight) = width_bounds 8 (length (encode_items xs)) (omega arith) in
    elim (Bool-cases (leb (length (encode_items xs)) 55)) [
      | inl e ↦ rw e (ground arith)
      | inr e ↦ rw e (ground arith)
    ]

empty_place : Untrusted.is_empty (new (encode_item (str []))) ≡ true
unfolding Untrusted.is_empty encode_item
empty_place = refl

module _ (digest : Digest) where
  -- A node is a list of some items.
  node_items :
      (t : Tree) → (xs : Items) × (node_item digest t ≡ lst xs) × (0 < length (encode_items xs))
  unfolding node_item
  node_items (tip ks v) =
      let key = str (hex_prefix ks true) in
      let rest = cons (str v) Items.nil in
      (cons key rest, refl, omega (arith, length-encode_items-cons key rest, encode_item_pos key))
  node_items (path ks t) =
      let key = str (hex_prefix ks false) in
      let rest = cons (referred digest (node_item digest t)) Items.nil in
      (cons key rest, refl, omega (arith, length-encode_items-cons key rest, encode_item_pos key))
  node_items (fork f w) =
      let ys = place_items digest f in
      (
        snoc ys (value_item w),
        refl,
        omega (
          arith,
          ap length (encode_items-snoc ys (value_item w)),
          length-append (encode_items ys) (encode_item (value_item w)),
          encode_item_pos (value_item w),
        ),
      )

  module _ (sized : (b : List ℕ) → length (digest b) ≡ 32) where
    hash-not_empty :
        (h : List ℕ) → length h ≡ 32 → Untrusted.is_empty (new (encode_item (str h))) ≡ false
    unfolding Untrusted.is_empty
    hash-not_empty h size = rw (hash_bytes h size) (ground arith)

    -- A child is not taken for an empty place.
    child-not_empty :
        (t : Tree)
        → length (encode_item (referred digest (node_item digest t))) < 2 ^ 32
        → Untrusted.is_empty (new (encode_item (referred digest (node_item digest t)))) ≡ false
    child-not_empty t small =
        let bytes = encode_item (node_item digest t) in
        elim (Bool-cases (ltb (length bytes) 32)) [
          | inl short ↦
              let (xs, e, pos) = node_items t in
              let fits : length (encode_item (lst xs)) < 2 ^ 32 = rw (short, e) at small in
              rw (short, e) (is_empty-lst xs pos (omega arith))
          | inr long ↦ rw long (hash-not_empty (digest bytes) (sized bytes))
        ]

    -- A child that is read by its hash, or that is short and read with its parent.
    inline_or_hash-loaded :
        (fuel : ℕ) (t : Tree)
        → (length (encode_item (node_item digest t)) < 32
            → from_rlp fuel (encode_item (node_item digest t)) ≡ ok (loaded_node digest t))
        → inline_or_hash (from_rlp fuel) (encode_item (referred digest (node_item digest t)))
          ≡ ok (loaded_handle digest t)
    inline_or_hash-loaded fuel t read =
        let bytes = encode_item (node_item digest t) in
        elim (Bool-cases (ltb (length bytes) 32)) [
          | inl short ↦
              let (xs, e) = node_item-lst digest t in
              let inside =
                ap (λ x. place_of (encode_item x)) e
                ∙ place_of-lst xs
                ∙ ap (λ x. ok (inline (encode_item x))) (sym e) in
              rw (short, inside, read (ltb→lt (length bytes) 32 short)) refl
          | inr long ↦ rw (long, place_of-hash (digest bytes) (sized bytes)) refl
        ]

    length-referred :
        (t : Tree)
        → length (encode_item (node_item digest t)) < 32
        → length (encode_item (referred digest (node_item digest t)))
          ≡ length (encode_item (node_item digest t))
    length-referred t h =
        let short : ltb (length (encode_item (node_item digest t))) 32 ≡ true = ground arith in
        rw short refl

    mutual
      unfolding from_rlp IsTrie IsSmall loaded_node node_item value_at encodings

      loads :
          (fuel : ℕ) (t : Tree)
          → IsTrie t
          → IsSmall digest t
          → ((k : List ℕ) → value_at t k ≢ some [])
          → length (encode_item (node_item digest t)) < fuel
          → from_rlp fuel (encode_item (node_item digest t)) ≡ ok (loaded_node digest t)
      loads zero t ht hs real enough = absurd (omega arith)
      loads (suc fuel) (tip ks v) ht hs real enough =
          let (s, vs, read) = decoded-tip digest ks v ht hs in
          rw (read, encoded-Views s ks vs true) refl
      loads (suc fuel) (path ks t) (hk, pos, hf, ht) (hs, hs') real enough =
          let (s, vs, read) = decoded-path digest ks t hk hs in
          let key = str (hex_prefix ks false) in
          let below = referred digest (node_item digest t) in
          let size = length-encode_items-cons key (cons below Items.nil) in
          let last = length-encode_items-cons below Items.nil in
          let fits = items-lt (cons key (cons below Items.nil)) in
          let child = inline_or_hash-loaded fuel t (λ short.
            loads fuel t ht hs'
              (λ j e.
                real (ks ++ j)
                  (value_at-path ks t (ks ++ j) ∙ under-append_key ks (value_at t) j ∙ e))
              (omega (arith, length-referred t short))) in
          rw (read, encoded-Views s ks vs false, child) refl
      loads (suc fuel) (fork f w) (hf, sixteen, hc) (hs, hs') real enough =
          let ys = place_items digest f in
          let size = ap length (encode_items-snoc ys (value_item w)) in
          let sum = length-append (encode_items ys) (encode_item (value_item w)) in
          let fits = items-lt (snoc ys (value_item w)) in
          let all = loads_all fuel f hf hs' (λ n k. real (n ∷ k)) (omega arith) (omega arith) in
          rw (decoded-fork digest f w sixteen (real []) hs, all) refl

      loads_all :
          (fuel : ℕ) (f : Forest)
          → IsForest f
          → AreSmall digest f
          → ((n : ℕ) (k : List ℕ) → value_in f n k ≢ some [])
          → length (encode_items (place_items digest f)) < fuel
          → length (encode_items (place_items digest f)) < 2 ^ 32
          → load_children (from_rlp fuel) (encodings (place_items digest f))
            ≡ ok (loaded_places digest f)
      loads_all fuel nil hf hs real enough fits = refl
      loads_all fuel (gap f) hf hs real enough fits =
          let size = length-encode_items-cons (str []) (place_items digest f) in
          let rest = loads_all fuel f hf hs (λ n k. real (suc n) k) (omega arith) (omega arith) in
          rw (empty_place, rest) refl
      loads_all fuel (grow t f) (ht, hf) (hs, hs') real enough fits =
          let below = referred digest (node_item digest t) in
          let size = length-encode_items-cons below (place_items digest f) in
          let rest = loads_all fuel f hf hs' (λ n k. real (suc n) k) (omega arith) (omega arith) in
          let child = inline_or_hash-loaded fuel t (λ short.
            loads fuel t ht hs (λ k. real 0 k) (omega (arith, length-referred t short))) in
          rw (child-not_empty t (omega arith), child, rest) refl

-- `from_rlp` of the encoding of a node of a canonical trie with no empty value and no encoding of
-- 2 ^ 32 bytes, on more fuel than the encoding has bytes: the node with the same key and value, and its
-- children, by their hashes where they are encoded in 32 bytes or more and else as nodes in memory that were read the same way.
pub from_rlp-node_item :
    (digest : Digest) (fuel : ℕ) (t : Tree)
    → ((b : List ℕ) → length (digest b) ≡ 32)
    → IsTrie t
    → IsSmall digest t
    → ((k : List ℕ) → value_at t k ≢ some [])
    → length (encode_item (node_item digest t)) < fuel
    → from_rlp fuel (encode_item (node_item digest t)) ≡ ok (loaded_node digest t)
from_rlp-node_item digest fuel t sized ht hs real enough =
    loads digest sized fuel t ht hs real enough
