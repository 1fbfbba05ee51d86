-- ===== src/Rlp/Tests.antt =====
-- Runs of the crate on the inputs of its documentation, and the theorems at concrete inputs.
use aion_utils.Prelude.{
  ℕ, ◌+◌, ◌^◌, ◌≤◌, ◌<◌, ◌≡◌, ◌≢◌, refl, some, List, [], ◌∷◌, ◌++◌, arith, ok, err, panic, ◌>>=◌,
}
use aion_utils.Rlp.Error.{rlp_is_too_short, rlp_invalid_length}
use aion_utils.Rlp.Header.{payload, payload_info, payload_info_from, decode_usize, sum_bytes}
use aion_utils.Rlp.Header.Sound.{payload_info-bounds, payload_info-ne-panic}
use aion_utils.Rlp.Untrusted.{
  UntrustedRlp, at, new, usize_max, is_list, found, items_of, decode_value,
}
use aion_utils.Rlp.Untrusted.Cache.{
  IsCached, new-IsCached, at-IsCached, at-anew, at_anew, at-usize_max,
}
use aion_utils.Rlp.Untrusted.Iterate.{items_of_ends}
use aion_utils.Rlp.Stream
use aion_utils.Rlp.Stream.{
  append, out, begin_list, note, encode_value, append_empty_data, append_value,
}
use aion_utils.Rlp.Stream.Lists.{write_item, encode-item}
use aion_utils.Rlp.Format.{Item, Items, str, lst, nil, cons, encode_item, count, item_at}
use aion_utils.Rlp.Format.Navigate.{at-item}
use aion_utils.Rlp.Format.Iterate.{views, items_of-lst}
use aion_utils.Rlp.Impls.{uint_rlp_append, uint_decode, hash_decode}
use aion_utils.Rlp.Impls.Integers.{uint_decode-uint_rlp_append}
use aion_utils.Rlp.Impls.Others.{hash_decode-append_value, decode_value_long_form}

abbrev cat : Item
cat = str (0x63 ∷ 0x61 ∷ 0x74 ∷ [])

abbrev dog : Item
dog = str (0x64 ∷ 0x6f ∷ 0x67 ∷ [])

abbrev pets : Items
pets = cons cat (cons dog nil)

abbrev pets_bytes : List ℕ
pets_bytes = 0xc8 ∷ 0x83 ∷ 0x63 ∷ 0x61 ∷ 0x74 ∷ 0x83 ∷ 0x64 ∷ 0x6f ∷ 0x67 ∷ []

encode_pets : encode_item (lst pets) ≡ pets_bytes
unfolding encode_item
encode_pets = refl

write_pets : (append (write_item (lst pets)) Stream.new >>= out) ≡ ok pets_bytes
unfolding append write_item begin_list note encode_value out count Stream.insert_list_payload
write_pets = refl

-- The input of the test `length_overflow`.
length_overflow :
    decode_value {A = List ℕ} ok (
      0xbf ∷ 0xff ∷ 0xff ∷ 0xff ∷ 0xff ∷ 0xff ∷ 0xff ∷ 0xff ∷ 0xff ∷ 0xff ∷ 0xff ∷ 0xff ∷ 0xe5 ∷ [])
    ≡ err rlp_invalid_length
unfolding decode_value decode_usize sum_bytes
length_overflow = refl

encode-item_example :
    (append (write_item (lst pets)) Stream.new >>= out) ≡ ok (encode_item (lst pets))
unfolding encode_item
encode-item_example = encode-item (lst pets) (omega arith)

at-item_example : (at (new (encode_item (lst pets))) 1).1 ≡ ok (new (encode_item dog))
unfolding encode_item item_at
at-item_example =
    at-item (new (encode_item (lst pets))) pets (new-IsCached _) refl (omega arith) 1 dog refl

items_of-lst_example :
    (last : UntrustedRlp) × (items_of (new (encode_item (lst pets))) ≡ some (ok (last, views pets)))
    × IsCached last
    × (last.bytes ≡ encode_item (lst pets))
unfolding encode_item
items_of-lst_example =
    items_of-lst (new (encode_item (lst pets))) pets (new-IsCached _) refl (omega arith)

-- The cache after `at(1)`, used by `at(0)`.
abbrev after_one : UntrustedRlp
after_one = (at (new pets_bytes) 1).0

at-IsCached_example : IsCached (at (new pets_bytes) 1).0
at-IsCached_example = at-IsCached (new pets_bytes) 1 (new-IsCached _) (omega arith)

at-anew_example : (at after_one 0).1 ≡ at_anew after_one 0
at-anew_example = at-anew after_one 0 at-cached (omega arith)
  where
    at-cached : IsCached after_one
    at-cached = at-IsCached (new pets_bytes) 1 (new-IsCached _) (omega arith)

at-usize_max_example : (at (new pets_bytes) usize_max).1 ≡ found pets_bytes
unfolding is_list
at-usize_max_example = at-usize_max pets_bytes refl

items_of_ends_example :
    (p : UntrustedRlp × List UntrustedRlp) × (items_of (new pets_bytes) ≡ some (ok p))
items_of_ends_example = items_of_ends (new pets_bytes) (omega arith) (new-IsCached _) (omega arith)

payload_info-bounds_example : (1 ≤ 1 + 8) × (1 + 8 ≤ 9) × (1 + 8 < 2 ^ 64)
unfolding payload_info payload_info_from
payload_info-bounds_example = payload_info-bounds pets_bytes (payload 1 8) refl

payload_info-ne-panic_example : payload_info (0xb8 ∷ 0x05 ∷ []) ≢ panic
payload_info-ne-panic_example = payload_info-ne-panic (0xb8 ∷ 0x05 ∷ []) (omega arith)

uint_decode-uint_rlp_append_example :
    (uint_rlp_append 4 1024 Stream.new >>= λ s. uint_decode 4 (s.buffer ++ (7 ∷ []))) ≡ ok 1024
uint_decode-uint_rlp_append_example =
    uint_decode-uint_rlp_append 4 1024 (7 ∷ []) (omega arith) (omega arith)

hash_decode-append_value_example :
    (append_value (1 ∷ 2 ∷ []) Stream.new >>= λ s. hash_decode 3 (s.buffer ++ []))
    ≡ err rlp_is_too_short
hash_decode-append_value_example = hash_decode-append_value 3 (1 ∷ 2 ∷ []) [] (omega arith)

decode_value_long_form_example :
    decode_value {A = List ℕ} ok (0xb8 ∷ 2 ∷ 5 ∷ 6 ∷ []) ≡ ok (5 ∷ 6 ∷ [])
decode_value_long_form_example =
    decode_value_long_form ok (5 ∷ 6 ∷ []) [] (omega arith) (omega arith)
