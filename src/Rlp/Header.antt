-- ===== src/Rlp/Header.antt =====
-- The headers of rlp/src/untrusted_rlp.rs, and `decode_usize` of rlp/src/impls.rs, which reads the
-- length of a long item.
pub mod Lengths
pub mod Sound
use aion_utils.Prelude.{
  ℕ, zero, suc, ◌+◌, ◌-◌, ◌*◌, ◌%◌, ◌^◌, Bool, true, false, ◌&&◌, Option, none, some, List, [], ◌∷◌,
  ltb, leb, ◌==◌, if◌then◌else◌, length, get_elem?, Outcome, ok, err, panic, ◌>>=◌, map_ok, slice,
  index,
}
use aion_utils.Prelude.Words.{usize_mod, add_usize}
use aion_utils.Rlp.Error.{
  Result, rlp_is_too_big, rlp_is_too_short, rlp_invalid_indirection, rlp_data_len_with_zero_prefix,
}

-- `for i in 0..l { res = res + (bytes[i] << (l - 1 - i) * 8) }`, in a word below `modulus`: the list
-- is `bytes[i..l]`, so what follows its head has `l - 1 - i` bytes.
unfoldable pub sum_bytes : ℕ → List ℕ → ℕ → ℕ
sum_bytes modulus [] res = res
sum_bytes modulus (b ∷ bs) res =
    sum_bytes modulus bs ((res + b * 2 ^ (length bs * 8) % modulus) % modulus)

unfoldable pub decode_usize : List ℕ → Result ℕ
decode_usize bytes =
    if leb (length bytes) 8
    then (do
      first ← index bytes 0
      if first == 0 && ltb 1 (length bytes)
          then err rlp_invalid_indirection
          else ok (sum_bytes usize_mod bytes 0))
    else err rlp_is_too_big

pub record PayloadInfo : Type 0 where
  pub header_len : ℕ
  pub value_len : ℕ

abbrev pub payload : ℕ → ℕ → PayloadInfo
payload header_len value_len = record { header_len = header_len; value_len = value_len }

-- `PayloadInfo::total`
unfoldable pub total : PayloadInfo → ℕ
total p = add_usize p.header_len p.value_len

-- What `calculate_payload_info` does once the first length byte is there and is not 0.
abbrev pub long_payload : List ℕ → ℕ → Result PayloadInfo
long_payload header_bytes header_len =
    if ltb (length header_bytes) header_len then err rlp_is_too_short else (do
      digits ← slice header_bytes 1 header_len
      map_ok (payload header_len) (decode_usize digits))

unfoldable pub calculate_payload_info : List ℕ → ℕ → Result PayloadInfo
calculate_payload_info header_bytes len_of_len = elim (get_elem? header_bytes 1) [
  | none ↦ err rlp_is_too_short
  | some first ↦
      if first == 0
      then err rlp_data_len_with_zero_prefix
      else long_payload header_bytes (1 + len_of_len)
]

-- `PayloadInfo::from`; a byte above 0xff does not exist, and is the code's `unreachable!()`.
unfoldable pub payload_info_from : List ℕ → Result PayloadInfo
payload_info_from [] = err rlp_is_too_short
payload_info_from (l ∷ rest) =
    if leb l 0x7f
    then ok (payload 0 1)
    else if leb l 0xb7
    then ok (payload 1 (l - 0x80))
    else if leb l 0xbf
    then calculate_payload_info (l ∷ rest) (l - 0xb7)
    else if leb l 0xf7
    then ok (payload 1 (l - 0xc0))
    else if leb l 0xff
    then calculate_payload_info (l ∷ rest) (l - 0xf7)
    else panic

-- The test of `BasicDecoder::payload_info`: the sum does not overflow, and the item is all there.
abbrev pub check_payload : List ℕ → PayloadInfo → Result PayloadInfo
check_payload bytes item =
    if ltb (item.header_len + item.value_len) usize_mod
      && leb (item.header_len + item.value_len) (length bytes)
    then ok item
    else err rlp_is_too_short

-- `BasicDecoder::payload_info`
unfoldable pub payload_info : List ℕ → Result PayloadInfo
payload_info bytes = do item ← payload_info_from bytes; check_payload bytes item
