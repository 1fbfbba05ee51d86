-- ===== src/Trie/NibbleSlice/RoundTrip.antt =====
-- What `from_encoded` reads from a hex-prefix encoding.
use aion_utils.Prelude.{
  ℕ, ◌+◌, ◌*◌, ◌/◌, ◌%◌, ◌<◌, ◌≡◌, ◌≢◌, refl, sym, ap, ◌∙◌, Bool, true, false, List, [], ◌∷◌, arith,
  ◌==◌, length, drop, ok, ◌>>=◌, Bool-cases, inl, inr, get_or, ==_iff, All, All-drop, length-drop,
  append-nil,
}
use aion_utils.Trie.Nibbles.{nibbles_of, IsNibble, drop-cons}
use aion_utils.Trie.NibbleSlice.{NibbleSlice, new_offset, from_encoded, encoded}
use aion_utils.Trie.NibbleSlice.View.{nibbles, IsSlice}
use aion_utils.Trie.NibbleSlice.Encode.{
  pairs, get_or-IsNibble, hex_prefix, leaf_flag, never, nibbles-IsNibble, encoded-hex_prefix,
}

nibbles_of-pairs : (ns : List ℕ) → All IsNibble ns → length ns % 2 ≡ 0 → nibbles_of (pairs ns) ≡ ns
unfolding nibbles_of pairs
nibbles_of-pairs [] h even = refl
nibbles_of-pairs (a ∷ []) h even = absurd (omega (arith, even))
nibbles_of-pairs (a ∷ b ∷ ns) (ha, (hb, h)) even =
    let high : (a * 16 + b) / 16 ≡ a = omega arith in
    let low : (a * 16 + b) % 16 ≡ b = omega arith in
    rw (high, low, nibbles_of-pairs ns h (omega (arith, even))) refl

-- The first byte tells the flags and holds the odd nibble.
odd_byte :
    (n : ℕ) (is_leaf : Bool)
    → n < 16
    → let byte = 0x10 + n + leaf_flag is_leaf in
      ((byte / 16 % 2 == 1) ≡ true) × ((byte / 32 % 2 == 1) ≡ is_leaf) × (byte % 16 ≡ n)
odd_byte n true h =
    let flag : (0x10 + n + 32) / 16 % 2 ≡ 1 = omega arith in
    let leaf : (0x10 + n + 32) / 32 % 2 ≡ 1 = omega arith in
    let low : (0x10 + n + 32) % 16 ≡ n = omega arith in (rw flag refl, rw leaf refl, low)
odd_byte n false h =
    let flag : (0x10 + n + 0) / 16 % 2 ≡ 1 = omega arith in
    let leaf : (0x10 + n + 0) / 32 % 2 ≡ 0 = omega arith in
    let low : (0x10 + n + 0) % 16 ≡ n = omega arith in (rw flag refl, rw leaf refl, low)

even_byte :
    (is_leaf : Bool)
    → let byte = leaf_flag is_leaf in
      ((byte / 16 % 2 == 1) ≡ false) × ((byte / 32 % 2 == 1) ≡ is_leaf)
even_byte true = (refl, refl)
even_byte false = (refl, refl)

-- `from_encoded` reads back the nibbles and the leaf flag that a hex-prefix encoding was made of.
pub from_encoded-hex_prefix :
    (ns : List ℕ) (is_leaf : Bool)
    → All IsNibble ns
    → (t : NibbleSlice) × (from_encoded (hex_prefix ns is_leaf) ≡ ok (t, is_leaf))
      × (nibbles t ≡ ns)
unfolding from_encoded hex_prefix nibbles nibbles_of
from_encoded-hex_prefix ns is_leaf h = elim (Bool-cases (length ns % 2 == 1)) [
  | inl odd ↦
      let (flag, leaf, low) = odd_byte (get_or ns 0 0) is_leaf (get_or-IsNibble ns 0 h) in
      let bytes = (0x10 + get_or ns 0 0 + leaf_flag is_leaf) ∷ pairs (drop 1 ns) in
      let rest =
        nibbles_of-pairs (drop 1 ns) (All-drop IsNibble 1 ns h)
          (omega (arith, length-drop 1 ns, (==_iff _ _).0 odd)) in
      let whole : ns ≡ get_or ns 0 0 ∷ drop 1 ns =
        drop-cons ns 0 0 (omega (arith, (==_iff _ _).0 odd)) in
      let first : nibbles_of bytes
          ≡ ((0x10 + get_or ns 0 0 + leaf_flag is_leaf) / 16) ∷ get_or ns 0 0 ∷ drop 1 ns =
        rw (low, rest) refl in
      (new_offset bytes 1, rw (odd, flag, leaf) refl, append-nil _ ∙ ap (drop 1) first ∙ sym whole)
  | inr even ↦
      let not_one : length ns % 2 ≢ 1 = λ e. never (sym even ∙ (==_iff _ _).1 e) in
      let (flag, leaf) = even_byte is_leaf in
      let bytes = leaf_flag is_leaf ∷ pairs ns in
      (
        new_offset bytes 2,
        rw (even, flag, leaf) refl,
        append-nil _ ∙ nibbles_of-pairs ns h (omega (arith, not_one)),
      )
]

-- `from_encoded` of what `encoded` returns for a slice whose offsets lie in its bytes is a slice
-- of the same nibbles, with the leaf flag that was given.
pub from_encoded-encoded :
    (s : NibbleSlice) (is_leaf : Bool)
    → IsSlice s
    → (t : NibbleSlice) × ((encoded s is_leaf >>= from_encoded) ≡ ok (t, is_leaf))
      × (nibbles t ≡ nibbles s)
from_encoded-encoded s is_leaf v =
    let (t, read, same) = from_encoded-hex_prefix (nibbles s) is_leaf (nibbles-IsNibble s v) in
    (t, rw (encoded-hex_prefix s v is_leaf) read, same)
