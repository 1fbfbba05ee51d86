-- ===== src/Trie/Lookup/Walk.antt =====
-- `Lookup::look_up` in a store that holds a trie.
use aion_utils.Prelude.{
  ℕ, zero, suc, ◌<◌, ◌≡◌, refl, false, Option, none, some, List, [], ◌∷◌, ◌==◌, arith, Bool-cases,
  inl, inr, length, length-drop, take, drop, ok,
}
use aion_utils.Db.Map.{same}
use aion_utils.Rlp.Untrusted
use aion_utils.Rlp.Trusted.{trusted_prototype}
use aion_utils.Rlp.Header.{payload_info, payload_info_from}
use aion_utils.Rlp.Format.{encode_item}
use aion_utils.Trie.NibbleSlice.{NibbleSlice, mid}
use aion_utils.Trie.NibbleSlice.Own.{
  Views, Views-IsNibble, len-Views, at-Views, mid-Views, starts_with-Views, eq-Views,
}
use aion_utils.Trie.Mutable.Shape.{Tree, tip, path, fork, value_at, IsTrie}
use aion_utils.Trie.Mutable.Shape.Forests.{tree_at, value_below, value_in-tree_at}
use aion_utils.Trie.Mutable.Shape.Lookup.{is_empty-Views, front-length}
use aion_utils.Trie.Mutable.Commit.{Digest}
use aion_utils.Trie.Mutable.Commit.Items.{node_item, IsSmall}
use aion_utils.Trie.Node
use aion_utils.Trie.Node.{decoded, decoded_as}
use aion_utils.Trie.Node.Places.{decoded-tip, decoded-path, decoded-fork}
use aion_utils.Trie.Lookup.{
  HashGet, Place, inline, under, look_up, below, go_on, visit, walk, node_data, deeper,
}
use aion_utils.Trie.Lookup.Kept.{
  Has, IsKept, Reached, place_bytes, index-encodings, place_of-empty, path-IsKept, fork-IsKept,
}

-- An empty place of a branch has nothing.
pub decoded-empty : decoded (0x80 ∷ []) ≡ ok Node.empty
unfolding decoded decoded_as trusted_prototype Untrusted.prototype Untrusted.is_data Untrusted.size
    payload_info payload_info_from
decoded-empty = refl

walk-empty :
    (get : HashGet) (fuel depth : ℕ) (key : NibbleSlice)
    → 0 < fuel
    → walk get fuel depth key (inline (0x80 ∷ [])) ≡ ok none
unfolding walk node_data visit
walk-empty get zero depth key pos = absurd (omega arith)
walk-empty get (suc fuel) depth key pos = rw decoded-empty refl

module _ (get : HashGet) (digest : Digest) (sized : (b : List ℕ) → length (digest b) ≡ 32) where
  -- The rounds from a node of a trie in the store on find the value at the key's nibbles.
  pub walk-value_at :
      (fuel depth : ℕ) (t : Tree) (s : NibbleSlice) (ns : List ℕ) (place : Place)
      → IsKept get digest t
      → Views s ns
      → length ns < fuel
      → node_data get depth place ≡ ok (encode_item (node_item digest t))
      → walk get fuel depth s place ≡ ok (value_at t ns)
  unfolding walk visit value_at IsTrie IsSmall
  walk-value_at zero depth t s ns place k v f h = absurd (omega arith)
  walk-value_at (suc fuel) depth (tip ks w) s ns place k v f h =
      let (slice, kv, read) = decoded-tip digest ks w k.shape k.small in
      rw (h, read, eq-Views slice s ks ns kv v) refl
  walk-value_at (suc fuel) depth (path ks t) s ns place k v f h =
      let (hk, pos, hf, ht) = k.shape in
      let (small, rest) = k.small in
      let (slice, kv, read) = decoded-path digest ks t hk small in
      let test = starts_with-Views s slice ns ks v kv in
      let (down, reached) = path-IsKept get digest sized ks t k in
      elim (Bool-cases (same ks (take (length ks) ns))) [
        | inl front ↦
            let fits = front-length ks ns front in
            rw (h, read, test, front, len-Views slice ks kv, reached.refers)
              (walk-value_at fuel (deeper depth reached.place) t (mid s (length ks))
                (drop (length ks) ns) reached.place down (mid-Views s ns v (length ks) fits)
                (omega (arith, length-drop (length ks) ns))
                (reached.found (deeper depth reached.place)))
        | inr other ↦ rw (h, read, test, other) refl
      ]
  walk-value_at (suc fuel) depth (fork f w) s [] place k v fu h =
      let (hf, sixteen, many) = k.shape in
      let (small, rest) = k.small in
      rw (h, decoded-fork digest f w sixteen (k.real []) small, is_empty-Views s [] v) refl
  walk-value_at (suc fuel) depth (fork f w) s (n ∷ ns) place k v fu h =
      let (hf, sixteen, many) = k.shape in
      let (small, rest) = k.small in
      let (nibble, others) = Views-IsNibble s (n ∷ ns) v in
      let more : (length (n ∷ ns) == 0) ≡ false = ground arith in
      let below = mid-Views s (n ∷ ns) v 1 (omega arith) in
      rw
        (
          h,
          decoded-fork digest f w sixteen (k.real []) small,
          is_empty-Views s (n ∷ ns) v,
          more,
          at-Views s (n ∷ ns) v 0 (omega arith),
          index-encodings digest f n (omega arith),
          value_in-tree_at f n ns,
        )
        (child (tree_at f n) (λ u e. fork-IsKept get digest sized f w n u k e)
          (λ u place' down h'.
            walk-value_at fuel (deeper depth place') u (mid s 1) ns place' down below (omega arith)
              h')
          (omega arith))
    where
      child :
          (m : Option Tree)
          → ((u : Tree) → m ≡ some u → IsKept get digest u × Reached get digest u)
          → ((u : Tree) (place' : Place)
              → IsKept get digest u
              → node_data get (deeper depth place') place' ≡ ok (encode_item (node_item digest u))
              → walk get fuel (deeper depth place') (mid s 1) place' ≡ ok (value_at u ns))
          → 0 < fuel
          → go_on (walk get fuel) depth (below (place_bytes digest m) (mid s 1))
            ≡ ok (value_below m ns)
      child none good ih pos = rw place_of-empty (walk-empty get fuel depth (mid s 1) pos)
      child (some u) good ih pos =
          let (down, reached) = good u refl in
          rw reached.refers (ih u reached.place down (reached.found (deeper depth reached.place)))

-- `look_up` from the hash of a canonical trie with no empty value and no encoding of 2 ^ 32 bytes or more,
-- whose nodes are all in the store or inline, under hashes of 32 bytes: it finds the value that the trie holds at the key's nibbles, or none, on fuel for more rounds than
-- the key has nibbles.
pub look_up-value_at :
    (get : HashGet) (digest : Digest) (fuel : ℕ) (t : Tree) (s : NibbleSlice) (ns : List ℕ)
    → ((b : List ℕ) → length (digest b) ≡ 32)
    → IsKept get digest t
    → Has get digest (encode_item (node_item digest t))
    → Views s ns
    → length ns < fuel
    → look_up get fuel (digest (encode_item (node_item digest t))) s ≡ ok (value_at t ns)
unfolding look_up node_data
look_up-value_at get digest fuel t s ns sized k here v f =
    walk-value_at get digest sized fuel 0 t s ns (under (digest (encode_item (node_item digest t))))
      k v f (rw here refl)
