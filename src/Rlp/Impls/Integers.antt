-- ===== src/Rlp/Impls/Integers.antt =====
-- Integers are read back as they were written.
use aion_utils.Prelude.{
  ℕ, zero, suc, ◌-◌, ◌/◌, ◌%◌, ◌^◌, ◌≤◌, ◌<◌, ◌≡◌, ◌≢◌, refl, ap, ◌∙◌, List, [], ◌∷◌, ◌++◌, arith,
  ◌==◌, length, ok, ◌>>=◌, false,
}
use aion_utils.Prelude.Words.{
  big_endian, big_endian_trimmed, width, width_bounds, width_lem, be_value, be_value-big_endian,
  length-big_endian,
}
use aion_utils.Rlp.Header.Lengths.{sum_bytes-value, top_byte}
use aion_utils.Rlp.Stream.{RlpStream, new}
use aion_utils.Rlp.Stream.Values.{encode_value-str}
use aion_utils.Rlp.Format.{encode_str}
use aion_utils.Rlp.Format.Reading.{length-encode_str-le}
use aion_utils.Rlp.Format.Values.{decode_value-str}
use aion_utils.Rlp.Impls.{
  u8_rlp_append, u8_value, u8_decode, uint_rlp_append, uint_value, uint_sum, uint_decode,
}
use native.Mathlib.Nat.{mod-eq_of_lt}

-- The bytes of an integer, with no leading zero.
abbrev pub trimmed : ℕ → ℕ → List ℕ
trimmed size n = big_endian (width size n) n

-- An integer is written as the format's byte string of its trimmed bytes.
uint_rlp_append-str :
    (size n : ℕ) (s : RlpStream)
    → size ≤ 8
    → uint_rlp_append size n s ≡ ok (record s { buffer = s.buffer ++ encode_str (trimmed size n) })
unfolding uint_rlp_append
uint_rlp_append-str size n s h =
    rw
      (
        big_endian_trimmed size n,
        encode_value-str s.buffer (trimmed size n)
            (omega (arith, length-big_endian (width size n) n, width_lem size n)),
      )
      refl

u8_value-pos : (n : ℕ) → 1 ≤ n → u8_value (n ∷ []) ≡ ok n
unfolding u8_value
u8_value-pos n h = ground arith

uint_sum_lem :
    (size first : ℕ) (bytes : List ℕ)
    → length bytes ≤ size
    → first ≢ 0
    → be_value bytes < 256 ^ size
    → uint_sum size first bytes ≡ ok (be_value bytes)
uint_sum_lem size first bytes len ne small = ground (arith, sum_bytes-value (256 ^ size) bytes 0)

-- `uint_value` on the trimmed bytes, where `whole` is what they were read from.
uint_value-trimmed :
    (size n : ℕ) (whole : List ℕ)
    → n < 256 ^ size
    → u8_decode whole ≡ u8_value (trimmed size n)
    → uint_value size whole (trimmed size n) ≡ ok n
uint_value-trimmed size n whole small one = go (width size n) (width_bounds size n small) one
  where
    go :
        (w : ℕ)
        → (w ≤ size) × (n < 256 ^ w) × (0 < n → 0 < w) × (0 < w → 256 ^ (w - 1) ≤ n)
        → u8_decode whole ≡ u8_value (big_endian w n)
        → uint_value size whole (big_endian w n) ≡ ok n
    go zero b one = unfold uint_value u8_value in (one ∙ ap ok (omega arith))
    go (suc zero) b one =
        let own : n / 1 % 256 ≡ n = omega arith in
        let ne : 1 ≤ n = b.3 (omega arith) in
        unfold uint_value in (one ∙ rw own (u8_value-pos n ne))
    go (suc (suc w)) b one =
        let pred : suc (suc w) - 1 ≡ suc w = omega arith in
        let big : 256 ^ suc w ≤ n = rw pred at (b.3 (omega arith)) in
        let value = be_value-big_endian (suc (suc w)) n ∙ mod-eq_of_lt b.1 in
        unfold uint_value in
        (uint_sum_lem size (n / 256 ^ suc w % 256) (big_endian (suc (suc w)) n)
            (omega (arith, length-big_endian (suc (suc w)) n)) (top_byte (suc w) n b.1 big)
            (rw value small)
          ∙ ap ok value)

-- What follows an integer's encoding is not read.
uint_decode-str :
    (size n : ℕ) (rest : List ℕ)
    → size ≤ 8
    → n < 256 ^ size
    → uint_decode size (encode_str (trimmed size n) ++ rest) ≡ ok n
unfolding uint_decode
uint_decode-str size n rest h small =
    let bs = trimmed size n in
    let fits : length (encode_str bs) < 2 ^ 64 =
      omega
        (arith, length-encode_str-le bs, length-big_endian (width size n) n, width_lem size n) in
    decode_value-str (uint_value size (encode_str bs ++ rest)) bs rest fits
    ∙ uint_value-trimmed size n (encode_str bs ++ rest) small
        (unfold u8_decode in decode_value-str u8_value bs rest fits)

-- A `u16`, `u32`, `u64` or `usize` that is written to a stream is read back, whatever follows it.
pub uint_decode-uint_rlp_append :
    (size n : ℕ) (rest : List ℕ)
    → size ≤ 8
    → n < 256 ^ size
    → (uint_rlp_append size n new >>= λ s. uint_decode size (s.buffer ++ rest)) ≡ ok n
uint_decode-uint_rlp_append size n rest h small =
    rw (uint_rlp_append-str size n new h) (uint_decode-str size n rest h small)

-- A `u8` that is written to a stream is read back.
pub u8_decode-u8_rlp_append :
    (n : ℕ) (rest : List ℕ)
    → n < 256
    → (u8_rlp_append n new >>= λ s. u8_decode (s.buffer ++ rest)) ≡ ok n
unfolding u8_rlp_append u8_decode
u8_decode-u8_rlp_append zero rest h = rw (encode_value-str [] [] (omega arith)) (
    decode_value-str u8_value [] rest (omega (arith, length-encode_str-le []))
    ∙ unfold u8_value in refl)
u8_decode-u8_rlp_append (suc n) rest h =
    let nonzero : (suc n == 0) ≡ false = ground arith in
    rw (nonzero, encode_value-str [] (suc n ∷ []) (omega arith))
      (decode_value-str u8_value (suc n ∷ []) rest
          (omega (arith, length-encode_str-le (suc n ∷ [])))
        ∙ u8_value-pos (suc n) (omega arith))
