-- ===== src/Trie/NibbleSlice/View.antt =====
-- What a nibble slice stands for: its nibbles, in order.
use aion_utils.Prelude.{
  ℕ, ◌+◌, ◌-◌, ◌*◌, ◌≤◌, ◌<◌, ◌≡◌, refl, sym, ◌∙◌, List, ◌++◌, arith, ltb, length, length-append,
  length-drop, drop, drop-drop, get_or, ok, append-nil, Bool-cases, inl, inr, ltb→lt, ltb_false→le,
}
use aion_utils.Prelude.Words.{IsBytes}
use aion_utils.Trie.Nibbles.{
  nibbles_of, length-nibbles_of, nibble_at-get_or, get_or-drop, get_or-append_left,
  get_or-append_right,
}
use aion_utils.Trie.NibbleSlice.{NibbleSlice, new_composed, len, at, mid}

abbrev pub own_nibbles : NibbleSlice → List ℕ
own_nibbles s = drop s.offset (nibbles_of s.own_data)

abbrev pub suffix_nibbles : NibbleSlice → List ℕ
suffix_nibbles s = drop s.offset_encode_suffix (nibbles_of s.data_encode_suffix)

unfoldable pub nibbles : NibbleSlice → List ℕ
nibbles s = own_nibbles s ++ suffix_nibbles s

-- The offsets lie in the data, which are bytes.
pub record IsSlice (s : NibbleSlice) : Type 0 where
  pub own_bytes : IsBytes s.own_data
  pub suffix_bytes : IsBytes s.data_encode_suffix
  pub own_offset : s.offset ≤ length s.own_data * 2
  pub suffix_offset : s.offset_encode_suffix ≤ length s.data_encode_suffix * 2

module _ (s : NibbleSlice) (v : IsSlice s) where
  length-own : length (own_nibbles s) ≡ length s.own_data * 2 - s.offset
  length-own =
      length-drop s.offset (nibbles_of s.own_data) ∙ omega (arith, length-nibbles_of s.own_data)

  length-suffix :
      length (suffix_nibbles s) ≡ length s.data_encode_suffix * 2 - s.offset_encode_suffix
  length-suffix =
      length-drop s.offset_encode_suffix (nibbles_of s.data_encode_suffix)
      ∙ omega (arith, length-nibbles_of s.data_encode_suffix)

  -- `len` is the number of nibbles.
  pub len-nibbles : len s ≡ length (nibbles s)
  unfolding len nibbles
  len-nibbles = omega (
    arith,
    length-append (own_nibbles s) (suffix_nibbles s),
    length-own,
    length-suffix,
    v.own_offset,
    v.suffix_offset,
  )

  -- `at` reads the nibble at a position in range, and does not panic there.
  pub at-nibbles : (i : ℕ) → i < length (nibbles s) → at s i ≡ ok (get_or (nibbles s) i 0)
  unfolding at nibbles
  at-nibbles i h = elim (Bool-cases (ltb i (length s.own_data * 2 - s.offset))) [
    | inl own ↦
        let small = ltb→lt _ _ own in
        rw
          (
            own,
            nibble_at-get_or {E = Unit {0}} s.own_data (s.offset + i) (omega arith),
            get_or-append_left (own_nibbles s) (suffix_nibbles s) i 0 (omega (arith, length-own)),
            get_or-drop s.offset (nibbles_of s.own_data) i 0,
          )
          refl
    | inr other ↦
        let large = ltb_false→le _ _ other in
        let inside : i < length (own_nibbles s) + length (suffix_nibbles s) =
          omega (arith, h, length-append (own_nibbles s) (suffix_nibbles s)) in
        rw
          (
            other,
            nibble_at-get_or {E = Unit {0}} s.data_encode_suffix
                (s.offset_encode_suffix + (i - (length s.own_data * 2 - s.offset)))
                (omega (arith, length-suffix, length-own, v.suffix_offset)),
            get_or-append_right (own_nibbles s) (suffix_nibbles s) i 0 (omega (arith, length-own)),
            length-own,
            get_or-drop s.offset_encode_suffix (nibbles_of s.data_encode_suffix)
                (i - (length s.own_data * 2 - s.offset)) 0,
          )
          refl
  ]

-- A composed slice is the two slices' own nibbles, one after the other.
pub new_composed-nibbles :
    (a b : NibbleSlice) → nibbles (new_composed a b) ≡ own_nibbles a ++ own_nibbles b
unfolding nibbles
new_composed-nibbles a b = refl

-- `mid` is the rest of the slice's own nibbles: what follows them in a composed slice is lost.
pub mid-nibbles : (s : NibbleSlice) (i : ℕ) → nibbles (mid s i) ≡ drop i (own_nibbles s)
unfolding nibbles mid nibbles_of
mid-nibbles s i =
    append-nil (drop (s.offset + i) (nibbles_of s.own_data))
    ∙ sym (drop-drop i s.offset (nibbles_of s.own_data))
