-- ===== src/Trie/Node/Pairs.antt =====
-- A leaf or an extension as it is stored, read back.
use aion_utils.Prelude.{
  ℕ, ◌+◌, ◌^◌, ◌<◌, ◌≡◌, refl, ap, sym, ◌∙◌, true, false, some, List, [], ◌∷◌, ◌++◌, ltb,
  if◌then◌else◌, arith, Bool-cases, inl, inr, length, append-nil, ok, err, panic, ◌>>=◌, map_ok,
  slice, slice-middle,
}
use aion_utils.Rlp.Untrusted.{
  UntrustedRlp, is_data, is_list, reach, settle, at, data_bytes, prototype, new,
}
use aion_utils.Rlp.Error.{DecoderError, Result}
use aion_utils.Rlp.Header.{payload_info}
use aion_utils.Rlp.Untrusted.{list_of, item_count}
use aion_utils.Rlp.Untrusted.Cache.{new-IsCached, at-IsCached}
use aion_utils.Rlp.Trusted.{trusted_prototype, trusted_data, trusted_at}
use aion_utils.Rlp.Format.{
  Item, Items, str, lst, cons, header, encode_str, encode_item, count, item_at,
}
use aion_utils.Rlp.Format.Reading.{item_payload, payload_info-item}
use aion_utils.Rlp.Format.Navigate.{at-item, is_list-lst}
use aion_utils.Rlp.Format.Iterate.{item_count-lst}
use aion_utils.Trie.NibbleSlice.{NibbleSlice, from_encoded}
use aion_utils.Trie.NibbleSlice.Encode.{hex_prefix}
use aion_utils.Trie.NibbleSlice.Own.{Views, Views-IsNibble, from_encoded-Views, encoded-Views}
use aion_utils.Rlp.Stream.{new_list, begin_list, append, append_value, append_raw, out}
use aion_utils.Trie.Mutable.Commit.Items.{encode_item-two, two-fits}
use aion_utils.Trie.Mutable.Commit.Writes.{value-Writes, raw-Writes, written_open, written_last}
use aion_utils.Trie.Node.{Node, leaf, extension, encoded, decoded, decoded_as, decoded_pair}

pub at-bytes : (r : UntrustedRlp) (i : ℕ) → (at r i).0.bytes ≡ r.bytes
unfolding at
at-bytes r i = elim (Bool-cases (is_list r)) [
  | inl e ↦ rw e (settled (reach r i))
  | inr e ↦ rw e refl
]
  where
    settled : (o : Result (List ℕ)) → (settle r i o).0.bytes ≡ r.bytes
    settled (ok b) = refl
    settled (err e) = refl
    settled panic = refl

pub is_data-lst : (xs : Items) → is_data (new (encode_item (lst xs))) ≡ false
unfolding is_data encode_item header
is_data-lst xs = ground arith

abbrev pub pair : List ℕ → Item → Items
pair key y = cons (str key) (cons y Items.nil)

module _ (xs : Items) (last : UntrustedRlp) (n : ℕ)
    (counted : item_count (new (encode_item (lst xs))) ≡ some (ok (last, n))) where
  prototype-lst : prototype (new (encode_item (lst xs))) ≡ some (ok (last, list_of n))
  unfolding prototype
  prototype-lst =
      rw (is_data-lst xs, is_list-lst (new (encode_item (lst xs))) xs refl, counted) refl

  pub trusted_prototype-lst : trusted_prototype (new (encode_item (lst xs))) ≡ ok (last, list_of n)
  unfolding trusted_prototype
  trusted_prototype-lst = rw prototype-lst refl

pub trusted_at-ok :
    (r x : UntrustedRlp) (i : ℕ) → (at r i).1 ≡ ok x → trusted_at r i ≡ ok ((at r i).0, x)
unfolding trusted_at
trusted_at-ok r x i e = rw e refl

cut_payload :
    (bs : List ℕ)
    → slice {E = DecoderError}
        (encode_item (str bs))
        (item_payload (str bs)).header_len
        ((item_payload (str bs)).header_len + (item_payload (str bs)).value_len)
      ≡ ok bs
unfolding encode_item encode_str
cut_payload [] = refl
cut_payload (b ∷ []) = elim (Bool-cases (ltb b 0x80)) [ inl e ↦ rw e refl | inr e ↦ rw e refl ]
cut_payload (b ∷ c ∷ bs) =
    let front = header 0x80 (length (b ∷ c ∷ bs)) in
    ap (λ t. slice {E = DecoderError} t (length front) (length front + length (b ∷ c ∷ bs)))
      (ap (λ t. front ++ t) (sym (append-nil (b ∷ c ∷ bs))))
    ∙ slice-middle {E = DecoderError} front (b ∷ c ∷ bs) [] (length front)
        (length front + length (b ∷ c ∷ bs)) refl refl

pub data_bytes-str :
    (bs : List ℕ)
    → length (encode_item (str bs)) < 2 ^ 64
    → data_bytes (new (encode_item (str bs))) ≡ ok bs
unfolding data_bytes
data_bytes-str bs h =
    let info =
      ap payload_info (sym (append-nil (encode_item (str bs)))) ∙ payload_info-item (str bs) [] h in
    rw info (cut_payload bs)

module _ (key : List ℕ) (y : Item) (small : length (encode_item (lst (pair key y))) < 2 ^ 64) where
  -- The two items of a list, as `Node::decoded` reads them.
  pub read_pair : decoded (encode_item (lst (pair key y))) ≡ (do
    k ← trusted_data (new (encode_item (str key)))
    (slice, is_leaf) ← from_encoded k
    if is_leaf
        then map_ok (λ value. leaf slice value) (trusted_data (new (encode_item y)))
        else ok (extension slice (encode_item y)))
  unfolding decoded decoded_as decoded_pair count item_at
  read_pair =
      let xs = pair key y in
      let r = new (encode_item (lst xs)) in
      let (last, counted, c, cached, bytes) =
        item_count-lst r xs (new-IsCached (encode_item (lst xs))) refl small refl in
      let first = at-item last xs cached bytes small 0 (str key) refl in
      let kept = at-bytes last 0 ∙ bytes in
      let second =
        at-item (at last 0).0 xs (at-IsCached last 0 cached (omega arith)) kept small 1 y refl in
      rw
        (
          trusted_prototype-lst xs last 2 counted,
          trusted_at-ok last (new (encode_item (str key))) 0 first,
          trusted_at-ok (at last 0).0 (new (encode_item y)) 1 second,
        )
        refl

-- The node is written as these bytes, and they are read back as the other node.
abbrev pub Stores : Node → Node → Type 0
Stores n m = (bytes : List ℕ) × (encoded n ≡ ok bytes) × (decoded bytes ≡ ok m)

module _ (s : NibbleSlice) (ns : List ℕ) (vs : Views s ns) where
  leaf_stored :
      (value : List ℕ)
      → length (encode_item (lst (pair (hex_prefix ns true) (str value)))) < 2 ^ 32
      → (t : NibbleSlice) × Views t ns × Stores (leaf s value) (leaf t value)
  unfolding encoded new_list begin_list out trusted_data
  leaf_stored value small =
      let key = hex_prefix ns true in
      let (fits, fits', both) = two-fits (str key) (str value) small in
      let (t, read, vt) = from_encoded-Views ns true (Views-IsNibble s ns vs) in
      let a = encode_item (str key) in
      (
        t,
        vt,
        (
          encode_item (lst (pair key (str value))),
          rw
              (
                encoded-Views s ns vs true,
                written_open (append (append_value key)) a (value-Writes key fits) 2 0 [] false
                    (omega arith) (omega arith),
                written_last (append (append_value value)) (encode_item (str value))
                    (value-Writes value fits') 2 1 a false refl (omega arith) both,
              )
              (ap ok (sym (encode_item-two (str key) (str value)))),
          read_pair key (str value) (omega arith)
              ∙ rw (data_bytes-str key (omega arith), read, data_bytes-str value (omega arith))
                  refl,
        ),
      )

  extension_stored :
      (x : Item)
      → length (encode_item (lst (pair (hex_prefix ns false) x))) < 2 ^ 32
      → (t : NibbleSlice) × Views t ns
        × Stores (extension s (encode_item x)) (extension t (encode_item x))
  unfolding encoded new_list begin_list out trusted_data
  extension_stored x small =
      let key = hex_prefix ns false in
      let (fits, fits', both) = two-fits (str key) x small in
      let (t, read, vt) = from_encoded-Views ns false (Views-IsNibble s ns vs) in
      let a = encode_item (str key) in
      (
        t,
        vt,
        (
          encode_item (lst (pair key x)),
          rw
              (
                encoded-Views s ns vs false,
                written_open (append (append_value key)) a (value-Writes key fits) 2 0 [] false
                    (omega arith) (omega arith),
                written_last (append_raw (encode_item x) 1) (encode_item x)
                    (raw-Writes (encode_item x)) 2 1 a false refl (omega arith) both,
              )
              (ap ok (sym (encode_item-two (str key) x))),
          read_pair key x (omega arith) ∙ rw (data_bytes-str key (omega arith), read) refl,
        ),
      )

-- A leaf, and an extension over an encoded node, with less than 2 ^ 32 bytes: `encoded` writes them,
-- and `decoded` reads the bytes back as a leaf, or an extension, with the same nibbles and the same
-- value, or child.
pub decoded-encoded :
    (s : NibbleSlice) (ns : List ℕ) (value : List ℕ) (x : Item)
    → Views s ns
    → length (encode_item (lst (pair (hex_prefix ns true) (str value)))) < 2 ^ 32
    → length (encode_item (lst (pair (hex_prefix ns false) x))) < 2 ^ 32
    → ((t : NibbleSlice) × Views t ns × Stores (leaf s value) (leaf t value))
      × ((t : NibbleSlice) × Views t ns
          × Stores (extension s (encode_item x)) (extension t (encode_item x)))
decoded-encoded s ns value x vs small small' =
    (leaf_stored s ns vs value small, extension_stored s ns vs x small')
