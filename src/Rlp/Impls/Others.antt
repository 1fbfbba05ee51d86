-- ===== src/Rlp/Impls/Others.antt =====
-- Booleans, byte strings and hashes are read back as they were written; what else a reader accepts.
use aion_utils.Prelude.{
  ℕ, ◌^◌, ◌<◌, ◌≡◌, refl, ap, ◌∙◌, Bool, List, [], ◌∷◌, ◌++◌, arith, ltb, if◌then◌else◌, length, ok,
  err, ◌>>=◌, true, false,
}
use aion_utils.Rlp.Error.{Result, rlp_is_too_short, rlp_is_too_big}
use aion_utils.Rlp.Header.{decode_usize}
use aion_utils.Rlp.Header.Lengths.{decode_usize_value}
use aion_utils.Rlp.Untrusted.{decode_value}
use aion_utils.Rlp.Stream.{append_value, new}
use aion_utils.Rlp.Stream.Values.{encode_value-str}
use aion_utils.Rlp.Format.Reading.{length-encode_str-le}
use aion_utils.Rlp.Format.Values.{decode_value-str, long_value-str}
use aion_utils.Rlp.Impls.{bool_rlp_append, bool_value, bool_decode, hash_value, hash_decode}

-- What `decode_value` hands on is what `append_value` was given.
pub decode_value-append_value :
    {A : Type 0} (f : List ℕ → Result A) (bs rest : List ℕ)
    → length bs < 2 ^ 32
    → (append_value bs new >>= λ s. decode_value f (s.buffer ++ rest)) ≡ f bs
decode_value-append_value f bs rest h =
    rw (encode_value-str [] bs h)
      (decode_value-str f bs rest (omega (arith, length-encode_str-le bs)))

-- A `bool` that is written to a stream is read back.
pub bool_decode-bool_rlp_append :
    (b : Bool) (rest : List ℕ)
    → (bool_rlp_append b new >>= λ s. bool_decode (s.buffer ++ rest)) ≡ ok b
unfolding bool_rlp_append bool_decode
bool_decode-bool_rlp_append true rest =
    decode_value-append_value bool_value (1 ∷ []) rest (omega arith) ∙ (unfold bool_value in refl)
bool_decode-bool_rlp_append false rest =
    decode_value-append_value bool_value (0 ∷ []) rest (omega arith) ∙ (unfold bool_value in refl)

-- Of a byte string of fewer than 2 ^ 32 bytes that was written, a hash of `size` bytes is read back, and
-- bytes of any other length are refused: too few are too short, too many are too big.
pub hash_decode-append_value :
    (size : ℕ) (bs rest : List ℕ)
    → length bs < 2 ^ 32
    → (append_value bs new >>= λ s. hash_decode size (s.buffer ++ rest)) ≡ (
        if ltb (length bs) size
        then err rlp_is_too_short
        else if ltb size (length bs)
        then err rlp_is_too_big
        else ok bs)
unfolding hash_decode hash_value
hash_decode-append_value size bs rest h = decode_value-append_value (hash_value size) bs rest h

-- `decode_value` accepts a length that is written longer than necessary: any byte string of 1 to 255
-- bytes behind the header of one length byte is read as that byte string, although strings of up to
-- 55 bytes have a shorter form, which is the one that the encoder writes.
pub decode_value_long_form :
    {A : Type 0} (f : List ℕ → Result A) (bs rest : List ℕ)
    → 0 < length bs
    → length bs < 256
    → decode_value f (0xb8 ∷ length bs ∷ (bs ++ rest)) ≡ f bs
unfolding decode_value
decode_value_long_form f bs rest pos small =
    long_value-str f 0xb8 1 (length bs ∷ []) bs rest refl refl digit (omega arith)
  where
    digit : decode_usize (length bs ∷ []) ≡ ok (length bs)
    digit =
        decode_usize_value (length bs) [] (small, tt) (omega arith) (omega arith)
        ∙ ap ok (omega arith)
