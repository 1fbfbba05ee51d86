-- ===== src/Rlp/Untrusted.antt =====
-- rlp/src/untrusted_rlp.rs: a view of the bytes of an item. `at` and `item_count` write the view's
-- caches, so they return the view beside their result.
pub mod Cache
pub mod Iterate
use aion_utils.Prelude.{
  ℕ, zero, suc, ◌+◌, ◌-◌, ◌^◌, Bool, true, false, not, ◌&&◌, ◌||◌, Option, none, some, List, [],
  ◌∷◌, ltb, leb, ◌==◌, if◌then◌else◌, length, drop, Outcome, ok, err, panic, ◌>>=◌, map_ok, slice,
  index,
}
use aion_utils.Prelude.Words.{usize_mod}
use aion_utils.Rlp.Error.{
  DecoderError, Result, rlp_is_too_short, rlp_expected_to_be_list, rlp_expected_to_be_data,
  rlp_inconsistent_length_and_data, rlp_invalid_indirection, rlp_invalid_length,
}
use aion_utils.Rlp.Header.{PayloadInfo, payload_info, decode_usize}

pub record OffsetCache : Type 0 where
  pub index : ℕ
  pub offset : ℕ

pub data Prototype : Type 0 where
  null : Prototype
  data_of : ℕ → Prototype
  list_of : ℕ → Prototype

pub record UntrustedRlp : Type 0 where
  pub bytes : List ℕ
  pub offset_cache : OffsetCache
  pub count_cache : Option ℕ

-- `usize::max_value()`
abbrev pub usize_max : ℕ
usize_max = 2 ^ 64 - 1

abbrev pub new : List ℕ → UntrustedRlp
new bytes = record {
  bytes = bytes;
  offset_cache = record { index = usize_max; offset = 0 };
  count_cache = none;
}

abbrev pub is_null : UntrustedRlp → Bool
is_null r = length r.bytes == 0

-- `self.bytes[0]`, where the tests before it have found a byte.
abbrev pub first_is : (ℕ → Bool) → List ℕ → Bool
first_is test [] = false
first_is test (b ∷ bs) = test b

unfoldable pub is_empty : UntrustedRlp → Bool
is_empty r = not (is_null r) && first_is (λ b. b == 0xc0 || b == 0x80) r.bytes

unfoldable pub is_list : UntrustedRlp → Bool
is_list r = not (is_null r) && first_is (λ b. leb 0xc0 b) r.bytes

unfoldable pub is_data : UntrustedRlp → Bool
is_data r = not (is_null r) && first_is (λ b. ltb b 0xc0) r.bytes

-- The accesses behind the first byte may be out of range, and panic there.
unfoldable pub is_int : UntrustedRlp → Result Bool
is_int r = if is_null r then ok false else (do
  b ← index r.bytes 0
  if leb b 0x80
      then ok true
      else if leb b 0xb7
      then map_ok (λ d. not (d == 0)) (index r.bytes 1)
      else if leb b 0xbf
      then map_ok (λ d. not (d == 0)) (index r.bytes (1 + b - 0xb7))
      else ok false)

unfoldable pub consume : List ℕ → ℕ → Result (List ℕ)
consume bytes len = if leb len (length bytes) then ok (drop len bytes) else err rlp_is_too_short

unfoldable pub consume_list_payload : UntrustedRlp → Result (List ℕ)
consume_list_payload r = do item ← payload_info r.bytes; consume r.bytes item.header_len

-- One round of the loop of `consume_items`.
unfoldable pub consume_item : List ℕ → Result (List ℕ)
consume_item bytes = do i ← payload_info bytes; consume bytes (i.header_len + i.value_len)

unfoldable pub consume_items : List ℕ → ℕ → Result (List ℕ)
consume_items bytes zero = ok bytes
consume_items bytes (suc items) = do rest ← consume_item bytes; consume_items rest items

-- Where the search starts, and how many items it has to skip.
unfoldable pub seek : UntrustedRlp → ℕ → Result (List ℕ × ℕ)
seek r i =
    if leb r.offset_cache.index i
    then map_ok (λ b. (b, i - r.offset_cache.index)) (consume r.bytes r.offset_cache.offset)
    else map_ok (λ b. (b, i)) (consume_list_payload r)

-- The bytes from item `i` on.
unfoldable pub reach : UntrustedRlp → ℕ → Result (List ℕ)
reach r i = do (b, to_skip) ← seek r i; consume_items b to_skip

-- The view of the item at the front of the bytes.
unfoldable pub found : List ℕ → Result UntrustedRlp
found b = do p ← payload_info b; item ← slice b 0 (p.header_len + p.value_len); ok (new item)

-- A search that fails leaves the cache as it was.
abbrev pub settle : UntrustedRlp → ℕ → Result (List ℕ) → UntrustedRlp × Result UntrustedRlp
settle r i (ok b) =
    (record r { offset_cache = record { index = i; offset = length r.bytes - length b } }, found b)
settle r i (err e) = (r, err e)
settle r i panic = (r, panic)

unfoldable pub at : UntrustedRlp → ℕ → UntrustedRlp × Result UntrustedRlp
at r i = if not (is_list r) then (r, err rlp_expected_to_be_list) else settle r i (reach r i)

-- The rounds of `UntrustedRlpIterator::next`, from index `i` on, until it returns `None`. `none`
-- means that the fuel ran out.
unfoldable pub iterate :
    ℕ → UntrustedRlp → ℕ → Option (Outcome DecoderError (UntrustedRlp × List UntrustedRlp))
iterate zero r i = none
iterate (suc fuel) r i =
    let (r', item) = at r i in
    elim item [
      | ok x ↦ elim (iterate fuel r' (i + 1)) [
        | some o ↦ some (map_ok (λ p. (p.0, x ∷ p.1)) o)
        | none ↦ none
      ]
      | err e ↦ some (ok (r', []))
      | panic ↦ some panic
    ]

-- `iter()`, run to its end: each item takes a byte at least.
unfoldable pub items_of :
    UntrustedRlp → Option (Outcome DecoderError (UntrustedRlp × List UntrustedRlp))
items_of r = iterate (suc (length r.bytes)) r 0

-- `self.iter().count()`, which fills the count cache.
unfoldable pub recount : UntrustedRlp → Option (Outcome DecoderError (UntrustedRlp × ℕ))
recount r = elim (items_of r) [
  | none ↦ none
  | some o ↦ some (map_ok (λ p. (record (p.0) { count_cache = some (length p.1) }, length p.1)) o)
]

unfoldable pub item_count : UntrustedRlp → Option (Outcome DecoderError (UntrustedRlp × ℕ))
item_count r =
    if is_list r
    then elim r.count_cache [ some c ↦ some (ok (r, c)) | none ↦ recount r ]
    else some (err rlp_expected_to_be_list)

unfoldable pub size : UntrustedRlp → Result ℕ
size r =
    if is_data r
    then elim (payload_info r.bytes) [ ok p ↦ ok p.value_len | err e ↦ ok 0 | panic ↦ panic ]
    else ok 0

-- `data`
unfoldable pub data_bytes : UntrustedRlp → Result (List ℕ)
data_bytes r = do
  pi ← payload_info r.bytes
  slice r.bytes pi.header_len (pi.header_len + pi.value_len)

unfoldable pub prototype : UntrustedRlp → Option (Outcome DecoderError (UntrustedRlp × Prototype))
prototype r =
    if is_data r
    then some (map_ok (λ n. (r, data_of n)) (size r))
    else if is_list r
    then elim (item_count r) [ none ↦ none | some o ↦ some (map_ok (λ p. (p.0, list_of p.1)) o) ]
    else some (ok (r, null))

-- The two forms of `decode_value` that have a header.
unfoldable pub short_value : {A : Type 0} → (List ℕ → Result A) → List ℕ → ℕ → Result A
short_value f bytes l =
    let last_index_of = 1 + l - 0x80 in
    if ltb (length bytes) last_index_of then err rlp_inconsistent_length_and_data else (do
      d ← slice bytes 1 last_index_of
      indirect ← (if l == 0x81 then map_ok (λ b. ltb b 0x80) (index d 0) else ok false)
      if indirect then err rlp_invalid_indirection else f d)

unfoldable pub long_value : {A : Type 0} → (List ℕ → Result A) → List ℕ → ℕ → Result A
long_value f bytes l =
    let begin_of_value = 1 + (l - 0xb7) in
    if ltb (length bytes) begin_of_value then err rlp_inconsistent_length_and_data else (do
      digits ← slice bytes 1 begin_of_value
      len ← decode_usize digits
      if ltb (begin_of_value + len) usize_mod
          then if ltb (length bytes) (begin_of_value + len)
            then err rlp_inconsistent_length_and_data
            else (do d ← slice bytes begin_of_value (begin_of_value + len); f d)
          else err rlp_invalid_length)

-- `BasicDecoder::decode_value`
unfoldable pub decode_value : {A : Type 0} → (List ℕ → Result A) → List ℕ → Result A
unfolding short_value long_value
decode_value f [] = err rlp_is_too_short
decode_value f (l ∷ rest) =
    if leb l 0x7f
    then f (l ∷ [])
    else if leb l 0xb7
    then short_value f (l ∷ rest) l
    else if leb l 0xbf
    then long_value f (l ∷ rest) l
    else err rlp_expected_to_be_data
