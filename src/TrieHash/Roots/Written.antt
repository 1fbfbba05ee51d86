-- ===== src/TrieHash/Roots/Written.antt =====
-- What one call of `hash256rlp` writes, of a list of two items and of a branch, where the call that it
-- makes writes an item.
use aion_utils.Prelude.{
  ℕ, suc, ◌+◌, ◌^◌, ◌<◌, ◌≡◌, refl, ap, sym, ◌∙◌, Bool, true, false, Option, none, some, List, [],
  ◌∷◌, ◌++◌, ◌==◌, ltb, arith, Bool-cases, inl, inr, length, length-append, ok, All, slice,
  slice-middle, append_assoc, append-nil, drop-length_append,
}
use aion_utils.Rlp.Error.{DecoderError, Result}
use aion_utils.Rlp.Stream.{RlpStream, new, begin_list, append, append_value, append_empty_data}
use aion_utils.Rlp.Stream.Lists.{stream}
use aion_utils.Rlp.Format.{Item, Items, str, lst, cons, encode_item, encode_items}
use aion_utils.Trie.Nibbles.{IsNibble}
use aion_utils.Trie.Mutable.{Value}
use aion_utils.Trie.NibbleSlice.Encode.{hex_prefix}
use aion_utils.Trie.Mutable.Commit.Items.{
  value_item, encode_item-two, encode_item-snoc, two-fits, snoc-fits, snoc,
}
use aion_utils.Trie.Mutable.Commit.Writes.{
  opened, Writes, value-Writes, empty-Writes, written_open, written_last,
}
use aion_utils.TrieHash.Nibbles.{hex_prefix_encode-hex_prefix}
use aion_utils.TrieHash.Roots.{
  Pair, append_place, append_places, run_length, rlp_over, count_next, least_shared,
}
use aion_utils.TrieHash.Roots.Pairs.{own_pair}

-- The part of a key behind a prefix.
slice_behind :
    (pre ks rest : List ℕ)
    → slice {E = DecoderError} ((pre ++ ks) ++ rest) (length pre) (length (pre ++ ks)) ≡ ok ks
slice_behind pre ks rest =
    ap (λ t. slice {E = DecoderError} t (length pre) (length (pre ++ ks)))
      (append_assoc pre ks rest)
    ∙ slice-middle {E = DecoderError} pre ks rest (length pre) (length (pre ++ ks)) refl
        (length-append pre ks)

pub slice_end :
    (pre ks : List ℕ)
    → slice {E = DecoderError} (pre ++ ks) (length pre) (length (pre ++ ks)) ≡ ok ks
slice_end pre ks =
    ap (λ t. slice {E = DecoderError} t (length pre) (length (pre ++ ks)))
      (sym (append-nil (pre ++ ks)))
    ∙ slice_behind pre ks []

module _ (aux : List Pair → ℕ → RlpStream → Result RlpStream) (first second : Pair)
    (rest : List Pair) (pre : List ℕ) where
  -- The pairs share more than the prefix.
  pub extension_over :
      (ks tail : List ℕ) (x : Item)
      → All IsNibble ks
      → 0 < length ks
      → first.0 ≡ (pre ++ ks) ++ tail
      → least_shared (first.0) (length (first.0)) (second ∷ rest) ≡ ok (length (pre ++ ks))
      → length (encode_item (lst (cons (str (hex_prefix ks false)) (cons x Items.nil)))) < 2 ^ 32
      → Writes (aux (first ∷ second ∷ rest) (length (pre ++ ks))) (encode_item x)
      → rlp_over aux (first ∷ second ∷ rest) (length pre) new
        ≡ ok (
            stream []
              (encode_item (lst (cons (str (hex_prefix ks false)) (cons x Items.nil))))
              true)
  unfolding rlp_over begin_list
  extension_over ks tail x hk long goes shares small writes =
      let key = hex_prefix ks false in
      let (fits, fits', both) = two-fits (str key) x small in
      let a = encode_item (str key) in
      let size = length-append pre ks in
      let more : ltb (length pre) (length (pre ++ ks)) ≡ true = ground arith in
      let cut : slice {E = DecoderError} (first.0) (length pre) (length (pre ++ ks)) ≡ ok ks =
        ap (λ k. slice {E = DecoderError} k (length pre) (length (pre ++ ks))) goes
        ∙ slice_behind pre ks tail in
      rw
        (
          shares,
          more,
          cut,
          hex_prefix_encode-hex_prefix ks false hk,
          written_open (append (append_value key)) a (value-Writes key fits) 2 0 [] false
              (omega arith) (omega arith),
          written_last (aux (first ∷ second ∷ rest) (length (pre ++ ks))) (encode_item x) writes 2 1
              a false refl (omega arith) both,
        )
        (ap (λ b. ok (stream [] b true)) (sym (encode_item-two (str key) x)))

  -- The pairs share no more than the prefix.
  pub branch_over :
      (w : Option Value) (xs : Items) (fin : Bool)
      → ((v : Value) → w ≡ some v → first ≡ (pre, v))
      → (w ≡ none → length pre < length (first.0))
      → least_shared (first.0) (length (first.0)) (second ∷ rest) ≡ ok (length pre)
      → length (encode_item (lst (snoc xs (value_item w)))) < 2 ^ 32
      → append_places aux
          (first ∷ second ∷ rest)
          (length pre)
          16
          0
          (length (own_pair pre w))
          (opened 17 0 [] false)
        ≡ ok (opened 17 16 (encode_items xs) fin)
      → rlp_over aux (first ∷ second ∷ rest) (length pre) new
        ≡ ok (stream [] (encode_item (lst (snoc xs (value_item w)))) true)
  unfolding rlp_over begin_list
  branch_over none xs fin value no_value shares small places =
      let (fits, fits', both) = snoc-fits xs (value_item none) small in
      let even : ltb (length pre) (length pre) ≡ false = ground arith in
      let longer = no_value refl in
      let other : (length pre == length (first.0)) ≡ false = ground arith in
      rw
        (
          shares,
          even,
          other,
          places,
          written_last append_empty_data (encode_item (str [])) empty-Writes 17 16 (encode_items xs)
              fin refl (omega arith) both,
        )
        (ap (λ b. ok (stream [] b true)) (sym (encode_item-snoc xs (value_item none))))
  branch_over (some v) xs fin value no_value shares small places =
      let (fits, fits', both) = snoc-fits xs (value_item (some v)) small in
      let even : ltb (length pre) (length pre) ≡ false = ground arith in
      let whole : (length pre == length (first.0)) ≡ true = rw (value v refl) (ground arith) in
      let own : first.1 ≡ v = ap (λ p. p.1) (value v refl) in
      rw
        (
          shares,
          even,
          whole,
          places,
          own,
          written_last (append (append_value v)) (encode_item (str v)) (value-Writes v fits') 17 16
              (encode_items xs) fin refl (omega arith) both,
        )
        (ap (λ b. ok (stream [] b true)) (sym (encode_item-snoc xs (value_item (some v)))))

-- The pairs of one place of a branch, and what is written of them.
pub run_length-part :
    (front part back : List Pair) (pre i : ℕ)
    → 0 < length part
    → count_next pre i (part ++ back) ≡ ok (length part)
    → run_length (front ++ (part ++ back)) pre i (length front) ≡ ok (length part)
unfolding run_length
run_length-part front part back pre i pos counts =
    let sizes = length-append front (part ++ back) in
    let more = length-append part back in
    let some_left : ltb (length front) (length (front ++ (part ++ back))) ≡ true = ground arith in
    rw (some_left, drop-length_append front (part ++ back), counts) refl

pub run_length-none :
    (front back : List Pair) (pre i : ℕ)
    → count_next pre i back ≡ ok 0
    → run_length (front ++ back) pre i (length front) ≡ ok 0
unfolding run_length
run_length-none front back pre i counts =
    elim (Bool-cases (ltb (length front) (length (front ++ back)))) [
      | inl some_left ↦ rw (some_left, drop-length_append front back, counts) refl
      | inr none_left ↦ rw none_left refl
    ]

pub append_place-part :
    (aux : List Pair → ℕ → RlpStream → Result RlpStream) (front part back : List Pair) (pre : ℕ)
    → 0 < length part
    → (s : RlpStream)
    → append_place aux (front ++ (part ++ back)) pre (length front) (length part) s
      ≡ aux part (pre + 1) s
append_place-part aux front [] back pre pos s = absurd (omega arith)
append_place-part aux front (p ∷ part) back pre pos s =
    rw
      (slice-middle {E = DecoderError} front (p ∷ part) back (length front)
        (length front + suc (length part)) refl refl)
      refl
