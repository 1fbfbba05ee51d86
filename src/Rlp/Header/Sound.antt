-- ===== src/Rlp/Header/Sound.antt =====
-- What an accepted header promises, and that reading one never panics.
use aion_utils.Prelude.{
  ℕ, zero, suc, ◌+◌, ◌-◌, ◌^◌, ◌≤◌, ◌<◌, ◌≡◌, ◌≢◌, List, [], ◌∷◌, arith, length, take, ok, panic,
  slice-ok, map_ok, le→ltb,
}
use aion_utils.Prelude.Words.{IsBytes}
use aion_utils.Rlp.Error.{DecoderError}
use aion_utils.Rlp.Header.{
  PayloadInfo, decode_usize, calculate_payload_info, payload_info_from, payload_info, long_payload,
  payload,
}

-- With all its length bytes there, a long header is read by `decode_usize`.
pub long_payload-digits :
    (h f : ℕ) (rest : List ℕ) (k hl : ℕ)
    → hl ≡ suc (suc k)
    → hl ≤ length (h ∷ f ∷ rest)
    → long_payload (h ∷ f ∷ rest) hl ≡ map_ok (payload hl) (decode_usize (f ∷ take k rest))
long_payload-digits h f rest k hl e fits =
    let e' : hl - 1 ≡ suc k = omega arith in
    rw (
      le→ltb (length (h ∷ f ∷ rest)) hl fits,
      slice-ok {E = DecoderError} (h ∷ f ∷ rest) 1 hl (omega arith) fits,
      e',
    )

decode_usize-ne-panic : (b : ℕ) (bs : List ℕ) → decode_usize (b ∷ bs) ≢ panic
unfolding decode_usize
decode_usize-ne-panic b bs e = ground arith

calculate_payload_info-ne-panic :
    (h : ℕ) (bytes : List ℕ) (k : ℕ) → 0 < k → calculate_payload_info (h ∷ bytes) k ≢ panic
unfolding calculate_payload_info
calculate_payload_info-ne-panic h [] k pos e = cc
calculate_payload_info-ne-panic h (f ∷ rest) zero pos e = absurd (omega arith)
calculate_payload_info-ne-panic h (f ∷ rest) (suc k) pos e = ground (
  arith,
  long_payload-digits h f rest k (1 + suc k) (omega arith),
  decode_usize-ne-panic f (take k rest),
)

-- Reading a header of bytes never panics: no slice is out of range, and `unreachable!()` is not
-- reached.
pub payload_info_from-ne-panic : (bytes : List ℕ) → IsBytes bytes → payload_info_from bytes ≢ panic
unfolding payload_info_from
payload_info_from-ne-panic [] h e = cc
payload_info_from-ne-panic (l ∷ rest) (hl, h) e = ground (
  arith,
  calculate_payload_info-ne-panic l rest (l - 0xb7),
  calculate_payload_info-ne-panic l rest (l - 0xf7),
)

pub payload_info-ne-panic : (bytes : List ℕ) → IsBytes bytes → payload_info bytes ≢ panic
unfolding payload_info
payload_info-ne-panic bytes h e = ground (arith, payload_info_from-ne-panic bytes h)

long_payload_pos :
    (bytes : List ℕ) (hl : ℕ) (p : PayloadInfo)
    → 1 ≤ hl
    → long_payload bytes hl ≡ ok p
    → 1 ≤ p.header_len
long_payload_pos bytes hl p h e = ground arith

payload_info_from_pos :
    (bytes : List ℕ) (p : PayloadInfo)
    → payload_info_from bytes ≡ ok p
    → 1 ≤ p.header_len + p.value_len
unfolding payload_info_from calculate_payload_info
payload_info_from_pos [] p e = cc
payload_info_from_pos (l ∷ rest) p e = ground (
  arith,
  long_payload_pos (l ∷ rest) (1 + (l - 0xb7)) p,
  long_payload_pos (l ∷ rest) (1 + (l - 0xf7)) p,
)

-- An item that `payload_info` accepts takes one byte at least, lies inside the input, and its length
-- does not overflow a `usize`.
pub payload_info-bounds :
    (bytes : List ℕ) (p : PayloadInfo)
    → payload_info bytes ≡ ok p
    → (1 ≤ p.header_len + p.value_len)
      × (p.header_len + p.value_len ≤ length bytes)
      × (p.header_len + p.value_len < 2 ^ 64)
unfolding payload_info
payload_info-bounds bytes p e = ground (arith, payload_info_from_pos bytes p)
