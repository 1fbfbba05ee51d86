-- ===== src/Rlp/Format/Headers.antt =====
-- The reader finds in the headers of the format the lengths that they were written for.
use aion_utils.Prelude.{
  ℕ, zero, suc, ◌+◌, ◌-◌, ◌^◌, ◌≤◌, ◌<◌, ◌≡◌, ◌≢◌, List, ◌∷◌, ◌++◌, arith, leb, if◌then◌else◌,
  length, length-append, take, take-length_append, ok,
}
use aion_utils.Prelude.Words.{big_endian, width, width_bounds, length-big_endian}
use aion_utils.Rlp.Header.{payload, payload_info_from, calculate_payload_info, decode_usize}
use aion_utils.Rlp.Header.Sound.{long_payload-digits}
use aion_utils.Rlp.Header.Lengths.{decode_usize-big_endian, top_byte}
use aion_utils.Rlp.Format.{header}

-- `calculate_payload_info`, where the length bytes are all there and the first is not 0.
calculate_payload_info-digits :
    (h f : ℕ) (digits rest : List ℕ) (n w : ℕ)
    → f ≢ 0
    → length digits ≡ w
    → decode_usize (f ∷ digits) ≡ ok n
    → calculate_payload_info (h ∷ f ∷ (digits ++ rest)) (suc w) ≡ ok (payload (1 + suc w) n)
unfolding calculate_payload_info
calculate_payload_info-digits h f digits rest n w ne len e = ground (
  arith,
  long_payload-digits h f (digits ++ rest) w (1 + suc w) (omega arith)
      (omega (arith, length-append digits rest)),
  front,
)
  where
    front : decode_usize (f ∷ take w (digits ++ rest)) ≡ ok n
    front = rw (← len, take-length_append digits rest) e

-- `calculate_payload_info` reads the length bytes of a header.
pub calculate_payload_info-big_endian :
    (h n : ℕ) (rest : List ℕ)
    → 0 < n
    → n < 2 ^ 64
    → calculate_payload_info (h ∷ (big_endian (width 8 n) n ++ rest)) (width 8 n)
      ≡ ok (payload (1 + width 8 n) n)
calculate_payload_info-big_endian h n rest pos small =
    go (width 8 n) (width_bounds 8 n small) (decode_usize-big_endian n pos small)
  where
    go :
        (w : ℕ)
        → (w ≤ 8) × (n < 256 ^ w) × (0 < n → 0 < w) × (0 < w → 256 ^ (w - 1) ≤ n)
        → decode_usize (big_endian w n) ≡ ok n
        → calculate_payload_info (h ∷ (big_endian w n ++ rest)) w ≡ ok (payload (1 + w) n)
    go zero b e = absurd (omega (arith, b.2 pos))
    go (suc w) b e =
        let same : suc w - 1 ≡ w = omega arith in
        let big : 256 ^ w ≤ n = rw same at (b.3 (omega arith)) in
        calculate_payload_info-digits h _ (big_endian w n) rest n w (top_byte w n b.1 big)
          (length-big_endian w n) e

-- How long a header is.
pub length-header : (base n : ℕ) → length (header base n) ≡ (if leb n 55 then 1 else 1 + width 8 n)
unfolding header
length-header base n = ground (arith, length-big_endian (width 8 n) n)

-- A byte string's header, and a list's: the reader returns the length of the payload.
pub payload_info_from-str :
    (n : ℕ) (rest : List ℕ)
    → n < 2 ^ 64
    → payload_info_from (header 0x80 n ++ rest) ≡ ok (payload (length (header 0x80 n)) n)
unfolding payload_info_from header
payload_info_from-str n rest small = ground (
  arith,
  length-big_endian (width 8 n) n,
  width_bounds 8 n small,
  calculate_payload_info-big_endian (0x80 + 55 + width 8 n) n rest,
)

pub payload_info_from-lst :
    (n : ℕ) (rest : List ℕ)
    → n < 2 ^ 64
    → payload_info_from (header 0xc0 n ++ rest) ≡ ok (payload (length (header 0xc0 n)) n)
unfolding payload_info_from header
payload_info_from-lst n rest small = ground (
  arith,
  length-big_endian (width 8 n) n,
  width_bounds 8 n small,
  calculate_payload_info-big_endian (0xc0 + 55 + width 8 n) n rest,
)
