-- ===== src/Trie/Node/Places.antt =====
-- What `Node::decoded` makes of the encoding of a trie's node.
use aion_utils.Prelude.{
  ◌^◌, ◌<◌, ◌≡◌, ◌≢◌, refl, ap, ◌∙◌, true, false, Option, none, some, List, [], ◌∷◌, arith, suc,
  length, ok, All, if◌then◌else◌, map_ok, ℕ,
}
use aion_utils.Rlp.Format.{str, encode_item, encode_str, count}
use aion_utils.Rlp.Untrusted
use aion_utils.Rlp.Untrusted.{new}
use aion_utils.Rlp.Trusted.{trusted_data}
use aion_utils.Trie.Nibbles.{IsNibble}
use aion_utils.Trie.NibbleSlice.{NibbleSlice}
use aion_utils.Trie.NibbleSlice.Encode.{hex_prefix}
use aion_utils.Trie.NibbleSlice.Own.{Views, from_encoded-Views}
use aion_utils.Trie.Mutable.{Value}
use aion_utils.Trie.Mutable.Shape.{Tree, tip, path, fork, Forest, gap, grow, slots}
use aion_utils.Trie.Mutable.Commit.{Digest}
use aion_utils.Trie.Mutable.Commit.Items.{
  node_item, place_items, referred, value_item, two-fits, snoc-fits,
}
use aion_utils.Trie.Node.{leaf, extension, branch, decoded}
use aion_utils.Trie.Node.Pairs.{read_pair, data_bytes-str}
use aion_utils.Trie.Node.Branches.{read_branch, is_empty-str, encodings}

pub count-place_items : (digest : Digest) (f : Forest) → count (place_items digest f) ≡ slots f
unfolding place_items count slots
count-place_items digest Forest.nil = refl
count-place_items digest (gap f) = ap suc (count-place_items digest f)
count-place_items digest (grow t f) = ap suc (count-place_items digest f)

module _ (digest : Digest) where
  pub decoded-tip :
      (ks : List ℕ) (v : Value)
      → All IsNibble ks
      → length (encode_item (node_item digest (tip ks v))) < 2 ^ 32
      → (s : NibbleSlice) × Views s ks
        × (decoded (encode_item (node_item digest (tip ks v))) ≡ ok (leaf s v))
  unfolding node_item trusted_data
  decoded-tip ks v h small =
      let key = hex_prefix ks true in
      let (fits, fits', both) = two-fits (str key) (str v) small in
      let (s, read, vs) = from_encoded-Views ks true h in
      (
        s,
        vs,
        read_pair key (str v) (omega arith)
            ∙ rw (data_bytes-str key (omega arith), read, data_bytes-str v (omega arith)) refl,
      )

  pub decoded-path :
      (ks : List ℕ) (t : Tree)
      → All IsNibble ks
      → length (encode_item (node_item digest (path ks t))) < 2 ^ 32
      → (s : NibbleSlice) × Views s ks
        × (decoded (encode_item (node_item digest (path ks t)))
            ≡ ok (extension s (encode_item (referred digest (node_item digest t)))))
  unfolding node_item trusted_data
  decoded-path ks t h small =
      let key = hex_prefix ks false in
      let below = referred digest (node_item digest t) in
      let (fits, fits', both) = two-fits (str key) below small in
      let (s, read, vs) = from_encoded-Views ks false h in
      (s, vs, read_pair key below (omega arith) ∙ rw (data_bytes-str key (omega arith), read) refl)

  -- A value of no byte would be read as no value.
  pub decoded-fork :
      (f : Forest) (w : Option Value)
      → slots f ≡ 16
      → w ≢ some []
      → length (encode_item (node_item digest (fork f w))) < 2 ^ 32
      → decoded (encode_item (node_item digest (fork f w)))
        ≡ ok (branch (encodings (place_items digest f)) w)
  unfolding node_item trusted_data encode_item encode_str Untrusted.is_empty
  decoded-fork f w sixteen real small =
      let ys = place_items digest f in
      let (fits, fits', both) = snoc-fits ys (value_item w) small in
      read_branch ys (value_item w) (count-place_items digest f ∙ sixteen) (omega arith)
      ∙ go w real fits'
    where
      go :
          (w : Option Value)
          → w ≢ some []
          → length (encode_item (value_item w)) < 2 ^ 32
          → (if Untrusted.is_empty (new (encode_item (value_item w)))
              then ok (branch (encodings (place_items digest f)) none)
              else map_ok
                  (λ value. branch (encodings (place_items digest f)) (some value))
                  (trusted_data (new (encode_item (value_item w)))))
            ≡ ok (branch (encodings (place_items digest f)) w)
      go none real fits = refl
      go (some []) real fits = absurd (real refl)
      go (some (b ∷ v)) real fits =
          rw (is_empty-str b v (omega arith), data_bytes-str (b ∷ v) (omega arith)) refl
