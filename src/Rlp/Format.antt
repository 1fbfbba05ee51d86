-- ===== src/Rlp/Format.antt =====
-- The RLP format, written down without the code: an item is a byte string or a list of items.
pub mod Headers
pub mod Reading
pub mod Navigate
pub mod Iterate
pub mod Values
use aion_utils.Prelude.{
  ℕ, zero, suc, ◌+◌, List, Option, none, some, [], ◌∷◌, ◌++◌, ltb, leb, if◌then◌else◌, length,
  length-append, ◌≡◌, refl, ap, ◌∙◌,
}
use aion_utils.Prelude.Words.{big_endian, width}

mutual
  pub data Item : Type 0 where
    str : List ℕ → Item
    lst : Items → Item

  pub data Items : Type 0 where
    nil : Items
    cons : Item → Items → Items

-- The header of a payload of `n` bytes: its length in the first byte up to 55, else the least
-- number of bytes that hold the length, and then those.
unfoldable pub header : ℕ → ℕ → List ℕ
header base n =
    if leb n 55 then (base + n) ∷ [] else (base + 55 + width 8 n) ∷ big_endian (width 8 n) n

-- A single byte below 0x80 is its own encoding.
unfoldable pub encode_str : List ℕ → List ℕ
unfolding header
encode_str [] = 0x80 ∷ []
encode_str (b ∷ []) = if ltb b 0x80 then b ∷ [] else 0x81 ∷ b ∷ []
encode_str (b ∷ c ∷ bs) = header 0x80 (length (b ∷ c ∷ bs)) ++ (b ∷ c ∷ bs)

unfoldable mutual
  unfolding header encode_str

  pub encode_item : Item → List ℕ
  encode_item (str bs) = encode_str bs
  encode_item (lst xs) = header 0xc0 (length (encode_items xs)) ++ encode_items xs

  pub encode_items : Items → List ℕ
  encode_items nil = []
  encode_items (cons x xs) = encode_item x ++ encode_items xs

pub encode_item-str : (bs : List ℕ) → encode_item (str bs) ≡ encode_str bs
unfolding encode_item
encode_item-str bs = refl

pub encode_item-lst :
    (xs : Items) → encode_item (lst xs) ≡ header 0xc0 (length (encode_items xs)) ++ encode_items xs
unfolding encode_item
encode_item-lst xs = refl

pub encode_items-nil : encode_items nil ≡ []
unfolding encode_items
encode_items-nil = refl

pub encode_items-cons :
    (x : Item) (xs : Items) → encode_items (cons x xs) ≡ encode_item x ++ encode_items xs
unfolding encode_items
encode_items-cons x xs = refl

pub length-encode_items-cons :
    (x : Item) (xs : Items)
    → length (encode_items (cons x xs)) ≡ length (encode_item x) + length (encode_items xs)
length-encode_items-cons x xs =
    ap length (encode_items-cons x xs) ∙ length-append (encode_item x) (encode_items xs)

unfoldable pub count : Items → ℕ
count nil = 0
count (cons x xs) = suc (count xs)

-- Item `i` of a list, and the items from item `i` on.
unfoldable pub item_at : Items → ℕ → Option Item
item_at nil i = none
item_at (cons x xs) zero = some x
item_at (cons x xs) (suc i) = item_at xs i

unfoldable pub skip : ℕ → Items → Items
skip zero xs = xs
skip (suc i) nil = nil
skip (suc i) (cons x xs) = skip i xs
