-- ===== src/Rlp/Format/Values.antt =====
-- `decode_value` on an encoded byte string.
use aion_utils.Prelude.{
  ℕ, ◌+◌, ◌-◌, ◌^◌, ◌≤◌, ◌<◌, ◌≡◌, ◌≢◌, refl, ◌∙◌, List, [], ◌∷◌, ◌++◌, arith, ltb, leb, length,
  length-append, ok, append_assoc, slice-middle, Bool-cases, inl, inr, leb→le, ltb→lt, le→leb,
  lt→leb, le→ltb, lt→ltb,
}
use aion_utils.Prelude.Words.{big_endian, width, width_bounds, length-big_endian}
use aion_utils.Rlp.Error.{DecoderError, Result}
use aion_utils.Rlp.Header.{decode_usize}
use aion_utils.Rlp.Header.Lengths.{decode_usize-big_endian}
use aion_utils.Rlp.Untrusted.{decode_value, short_value, long_value}
use aion_utils.Rlp.Format.{header, encode_str}
use aion_utils.Rlp.Format.Headers.{length-header}

module _ {A : Type 0} (f : List ℕ → Result A) where
  -- Up to 55 bytes behind a short header; a single byte needs a value of 0x80 or more.
  short_value-str :
      (l : ℕ) (bs rest : List ℕ)
      → l ≡ 0x80 + length bs
      → length bs ≢ 1
      → short_value f (l ∷ (bs ++ rest)) l ≡ f bs
  unfolding short_value
  short_value-str l bs rest e ne =
      rw
        (
          le→ltb (length (l ∷ (bs ++ rest))) (1 + l - 0x80) (omega (arith, length-append bs rest)),
          slice-middle {E = DecoderError} (l ∷ []) bs rest 1 (1 + l - 0x80) refl (omega arith),
        )
        (ground arith)

  pub long_value-str :
      (l w : ℕ) (digits bs rest : List ℕ)
      → l ≡ 0xb7 + w
      → length digits ≡ w
      → decode_usize digits ≡ ok (length bs)
      → 1 + w + length bs < 2 ^ 64
      → long_value f (l ∷ (digits ++ (bs ++ rest))) l ≡ f bs
  unfolding long_value
  long_value-str l w digits bs rest e len d fits =
      let bytes : List ℕ = l ∷ (digits ++ (bs ++ rest)) in
      let outer = length-append digits (bs ++ rest) in
      let inner = length-append bs rest in
      let begin : 1 + (l - 0xb7) ≡ 1 + w = omega arith in
      rw
        (
          begin,
          le→ltb (length bytes) (1 + w) (omega arith),
          slice-middle {E = DecoderError} (l ∷ []) digits (bs ++ rest) 1 (1 + w) refl (omega arith),
          d,
          lt→ltb (1 + w + length bs) (2 ^ 64) fits,
          le→ltb (length bytes) (1 + w + length bs) (omega arith),
          slice-middle {E = DecoderError} (l ∷ digits) bs rest (1 + w) (1 + w + length bs)
              (omega arith) (omega arith),
        )
        refl

  decode_value-header :
      (bs rest : List ℕ)
      → length bs ≢ 1
      → length (header 0x80 (length bs)) + length bs < 2 ^ 64
      → decode_value f (header 0x80 (length bs) ++ (bs ++ rest)) ≡ f bs
  unfolding decode_value header
  decode_value-header bs rest ne fits = elim (Bool-cases (leb (length bs) 55)) [
    | inl short ↦
        let small = leb→le _ _ short in
        rw
          (
            short,
            lt→leb (0x80 + length bs) 0x7f (omega arith),
            le→leb (0x80 + length bs) 0xb7 (omega arith),
          )
          (short_value-str (0x80 + length bs) bs rest refl ne)
    | inr long ↦
        let n = length bs in
        let w = width 8 n in
        let size : length (header 0x80 n) ≡ 1 + w = length-header 0x80 n ∙ rw long refl in
        let (most, holds, pos, least) = width_bounds 8 n (omega arith) in
        let some_byte = pos (ground arith) in
        rw
          (
            long,
            lt→leb (0x80 + 55 + w) 0x7f (omega arith),
            lt→leb (0x80 + 55 + w) 0xb7 (omega arith),
            le→leb (0x80 + 55 + w) 0xbf (omega arith),
          )
          (long_value-str (0x80 + 55 + w) w (big_endian w n) bs rest (omega arith)
            (length-big_endian w n) (decode_usize-big_endian n (ground arith) (omega arith))
            (omega arith))
  ]

  decode_value_own : (b : ℕ) (rest : List ℕ) → b < 0x80 → decode_value f (b ∷ rest) ≡ f (b ∷ [])
  unfolding decode_value
  decode_value_own b rest h = rw (le→leb b 0x7f (omega arith)) refl

  decode_value_single :
      (b : ℕ) (rest : List ℕ) → 0x80 ≤ b → decode_value f (0x81 ∷ b ∷ rest) ≡ f (b ∷ [])
  unfolding decode_value
  decode_value_single b rest h =
      rw
        (
          slice-middle {E = DecoderError} (0x81 ∷ []) (b ∷ []) rest 1 2 refl refl,
          le→ltb (length (0x81 ∷ b ∷ rest)) 2 (omega arith),
          le→ltb b 0x80 h,
        )
        refl

  -- `decode_value` hands the decoder the bytes that were encoded, whatever follows them.
  pub decode_value-str :
      (bs rest : List ℕ)
      → length (encode_str bs) < 2 ^ 64
      → decode_value f (encode_str bs ++ rest) ≡ f bs
  unfolding encode_str
  decode_value-str [] rest h = decode_value-header [] rest (omega arith) (omega arith)
  decode_value-str (b ∷ []) rest h = elim (Bool-cases (ltb b 0x80)) [
    | inl own ↦ rw own (decode_value_own b rest (ltb→lt _ _ own))
    | inr other ↦ rw other (decode_value_single b rest (ground arith))
  ]
  decode_value-str (b ∷ c ∷ bs) rest h = rw append_assoc (
      decode_value-header (b ∷ c ∷ bs) rest (omega arith)
        (omega (arith, length-append (header 0x80 (length (b ∷ c ∷ bs))) (b ∷ c ∷ bs))))
