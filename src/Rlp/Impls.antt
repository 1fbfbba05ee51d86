-- ===== src/Rlp/Impls.antt =====
-- rlp/src/impls.rs: how values of Rust's types are written and read. A reader is a function of the
-- view's bytes, since `decode_value` reads nothing else of the view.
pub mod Integers
pub mod Others
use aion_utils.Prelude.{
  ℕ, zero, suc, ◌+◌, ◌-◌, ◌*◌, ◌/◌, ◌^◌, Bool, true, false, not, ◌&&◌, Option, none, some, List, [],
  ◌∷◌, ltb, leb, ◌==◌, if◌then◌else◌, length, drop, Outcome, ok, err, panic, ◌>>=◌, map_ok,
}
use aion_utils.Prelude.Words.{big_endian, leading_zeros}
use aion_utils.Rlp.Error.{
  DecoderError, Result, rlp_is_too_big, rlp_is_too_short, rlp_invalid_indirection,
  rlp_incorrect_list_len,
}
use aion_utils.Rlp.Header.{sum_bytes}
use aion_utils.Rlp.Stream.{RlpStream, append_value, begin_list, append}
use aion_utils.Rlp.Untrusted.{UntrustedRlp, decode_value, at, item_count}

-- `bool`
unfoldable pub bool_rlp_append : Bool → RlpStream → Result RlpStream
bool_rlp_append true s = append_value (1 ∷ []) s
bool_rlp_append false s = append_value (0 ∷ []) s

unfoldable pub bool_value : List ℕ → Result Bool
bool_value [] = ok false
bool_value (b ∷ []) = ok (not (b == 0))
bool_value (b ∷ c ∷ bs) = err rlp_is_too_big

unfoldable pub bool_decode : List ℕ → Result Bool
bool_decode bytes = decode_value bool_value bytes

-- `Vec<u8>`, whose `rlp_append` is `append_value`.
unfoldable pub vec_decode : List ℕ → Result (List ℕ)
vec_decode bytes = decode_value ok bytes

-- `u8`
unfoldable pub u8_rlp_append : ℕ → RlpStream → Result RlpStream
u8_rlp_append n s = if not (n == 0) then append_value (n ∷ []) s else append_value [] s

unfoldable pub u8_value : List ℕ → Result ℕ
u8_value [] = ok 0
u8_value (b ∷ []) = if not (b == 0) then ok b else err rlp_invalid_indirection
u8_value (b ∷ c ∷ bs) = err rlp_is_too_big

unfoldable pub u8_decode : List ℕ → Result ℕ
u8_decode bytes = decode_value u8_value bytes

-- The macros for `u16`, `u32` and `u64`, at the type's size in bytes.
unfoldable pub uint_rlp_append : ℕ → ℕ → RlpStream → Result RlpStream
uint_rlp_append size n s =
    append_value (drop (leading_zeros (size * 8) n / 8) (big_endian size n)) s

-- The arm for two bytes or more.
abbrev pub uint_sum : ℕ → ℕ → List ℕ → Result ℕ
uint_sum size first bytes =
    if leb (length bytes) size
    then if first == 0 then err rlp_invalid_indirection else ok (sum_bytes (256 ^ size) bytes 0)
    else err rlp_is_too_big

unfoldable pub uint_value : ℕ → List ℕ → List ℕ → Result ℕ
uint_value size whole [] = u8_decode whole
uint_value size whole (b ∷ []) = u8_decode whole
uint_value size whole (b ∷ c ∷ bs) = uint_sum size b (b ∷ c ∷ bs)

unfoldable pub uint_decode : ℕ → List ℕ → Result ℕ
uint_decode size bytes = decode_value (uint_value size bytes) bytes

-- `usize`, through `u64`.
abbrev pub usize_rlp_append : ℕ → RlpStream → Result RlpStream
usize_rlp_append n s = uint_rlp_append 8 n s

abbrev pub usize_decode : List ℕ → Result ℕ
usize_decode bytes = uint_decode 8 bytes

-- The macro for the hash types: their `rlp_append` is `append_value`.
unfoldable pub hash_value : ℕ → List ℕ → Result (List ℕ)
hash_value size bytes =
    if ltb (length bytes) size
    then err rlp_is_too_short
    else if ltb size (length bytes)
    then err rlp_is_too_big
    else ok bytes

unfoldable pub hash_decode : ℕ → List ℕ → Result (List ℕ)
hash_decode size bytes = decode_value (hash_value size) bytes

-- `Option<T>`, a list of no item or of one.
unfoldable pub option_rlp_append :
    {T : Type 0} → (T → RlpStream → Result RlpStream) → Option T → RlpStream → Result RlpStream
option_rlp_append rlp_append none s = begin_list 0 s
option_rlp_append rlp_append (some value) s = do t ← begin_list 1 s; append (rlp_append value) t

-- `rlp.val_at(0).map(Some)`, and the view that is left.
abbrev pub val_at : {T : Type 0} → (UntrustedRlp → Result T) → UntrustedRlp → ℕ → Result T
val_at decode r i = do item ← (at r i).1; decode item

abbrev pub option_items :
    {T : Type 0} → (UntrustedRlp → Result T) → UntrustedRlp → ℕ → Result (Option T)
option_items decode r zero = ok none
option_items decode r (suc zero) = map_ok some (val_at decode r 0)
option_items decode r (suc (suc n)) = err rlp_incorrect_list_len

-- `none` means that the count of the items ran out of fuel.
unfoldable pub option_decode :
    {T : Type 0} → (UntrustedRlp → Result T) → UntrustedRlp → Option (Result (Option T))
option_decode decode r = elim (item_count r) [
  | none ↦ none
  | some o ↦ some (do p ← o; option_items decode (p.0) (p.1))
]
