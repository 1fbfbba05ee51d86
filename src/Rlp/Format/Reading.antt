-- ===== src/Rlp/Format/Reading.antt =====
-- The reader at the front of an encoded item.
use aion_utils.Prelude.{
  ℕ, ◌+◌, ◌^◌, ◌≤◌, ◌<◌, ◌≡◌, refl, List, [], ◌∷◌, ◌++◌, arith, ltb, if◌then◌else◌, length,
  length-append, ok, append_assoc,
}
use aion_utils.Prelude.Words.{width_lem}
use aion_utils.Rlp.Header.{PayloadInfo, payload, payload_info_from, payload_info}
use aion_utils.Rlp.Format.{Item, str, lst, header, encode_str, encode_item, encode_items}
use aion_utils.Rlp.Format.Headers.{payload_info_from-str, payload_info_from-lst, length-header}

-- The header and the payload of an encoded item.
abbrev pub item_payload : Item → PayloadInfo
item_payload (str []) = payload 1 0
item_payload (str (b ∷ [])) = if ltb b 0x80 then payload 0 1 else payload 1 1
item_payload (str (b ∷ c ∷ bs)) =
    payload (length (header 0x80 (length (b ∷ c ∷ bs)))) (length (b ∷ c ∷ bs))
item_payload (lst xs) =
    payload (length (header 0xc0 (length (encode_items xs)))) (length (encode_items xs))

pub length-encode_item :
    (x : Item) → length (encode_item x) ≡ (item_payload x).header_len + (item_payload x).value_len
unfolding encode_item
length-encode_item (str []) = refl
length-encode_item (str (b ∷ [])) = ground arith
length-encode_item (str (b ∷ c ∷ bs)) = length-append (header 0x80 _) (b ∷ c ∷ bs)
length-encode_item (lst xs) = length-append (header 0xc0 _) (encode_items xs)

payload_info_from-item :
    (x : Item) (rest : List ℕ)
    → length (encode_item x) < 2 ^ 64
    → payload_info_from (encode_item x ++ rest) ≡ ok (item_payload x)
unfolding encode_item
payload_info_from-item (str []) rest h = unfold payload_info_from in refl
payload_info_from-item (str (b ∷ [])) rest h = unfold payload_info_from in ground arith
payload_info_from-item (str (b ∷ c ∷ bs)) rest h =
    let n = length (b ∷ c ∷ bs) in
    rw append_assoc (
      payload_info_from-str n ((b ∷ c ∷ bs) ++ rest)
        (omega (arith, length-append (header 0x80 n) (b ∷ c ∷ bs))))
payload_info_from-item (lst xs) rest h =
    let n = length (encode_items xs) in
    rw append_assoc (
      payload_info_from-lst n (encode_items xs ++ rest)
        (omega (arith, length-append (header 0xc0 n) (encode_items xs))))

-- The reader finds an encoded item whole, whatever follows it.
pub payload_info-item :
    (x : Item) (rest : List ℕ)
    → length (encode_item x) < 2 ^ 64
    → payload_info (encode_item x ++ rest) ≡ ok (item_payload x)
unfolding payload_info
payload_info-item x rest h =
    rw (payload_info_from-item x rest h)
      (ground (arith, length-encode_item x, length-append (encode_item x) rest))

-- A byte string is no longer than its encoding.
pub length-str : (bs : List ℕ) → length bs ≤ length (encode_item (str bs))
length-str [] = omega arith
length-str (b ∷ []) = rw length-encode_item (ground arith)
length-str (b ∷ c ∷ bs) = omega (arith, length-encode_item (str (b ∷ c ∷ bs)))

-- An encoded byte string has a header of nine bytes at most.
pub length-encode_str-le : (bs : List ℕ) → length (encode_str bs) ≤ 9 + length bs
unfolding encode_str
length-encode_str-le [] = omega arith
length-encode_str-le (b ∷ []) = ground arith
length-encode_str-le (b ∷ c ∷ bs) =
    let n = length (b ∷ c ∷ bs) in
    ground (arith, length-append (header 0x80 n) (b ∷ c ∷ bs), length-header 0x80 n, width_lem 8 n)
