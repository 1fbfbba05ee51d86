-- ===== src/Rlp/Error.antt =====
-- rlp/src/error.rs: the errors of the decoder.
use aion_utils.Prelude.{ℕ, List, Outcome}

pub data DecoderError : Type 0 where
  rlp_is_too_big : DecoderError
  rlp_is_too_short : DecoderError
  rlp_expected_to_be_list : DecoderError
  rlp_expected_to_be_data : DecoderError
  rlp_incorrect_list_len : DecoderError
  rlp_data_len_with_zero_prefix : DecoderError
  rlp_list_len_with_zero_prefix : DecoderError
  rlp_invalid_indirection : DecoderError
  rlp_inconsistent_length_and_data : DecoderError
  rlp_invalid_length : DecoderError
  custom : List ℕ → DecoderError

abbrev pub Result : Type 0 → Type 0
Result A = Outcome DecoderError A
