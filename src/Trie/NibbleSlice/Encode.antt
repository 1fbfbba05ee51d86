-- ===== src/Trie/NibbleSlice/Encode.antt =====
-- The hex-prefix encoding of a nibble slice, and what reads it back.
use aion_utils.Prelude.{
  ℕ, zero, suc, ◌+◌, ◌*◌, ◌/◌, ◌%◌, ◌≤◌, ◌<◌, ◌≡◌, ◌≢◌, refl, sym, ap, ◌∙◌, Bool, true, false, List,
  [], ◌∷◌, ◌++◌, arith, ◌==◌, if◌then◌else◌, length, drop, take, ok, min, Bool-cases, inl, inr,
  get_or, ==_iff, All, All-drop, All-take, All-append, take-eq_self, length-take, append_assoc,
  append-nil,
}
use aion_utils.Trie.Nibbles.{drop-all, nibbles_of, IsNibble, nibbles_of-IsNibble}
use aion_utils.Trie.NibbleSlice.{
  NibbleSlice, len, at, encode_loop, encoded, encoded_leftmost, encode_first,
}
use aion_utils.Trie.NibbleSlice.View.{nibbles, IsSlice, len-nibbles, at-nibbles}

-- Two nibbles to a byte.
unfoldable pub pairs : List ℕ → List ℕ
pairs [] = []
pairs (a ∷ []) = []
pairs (a ∷ b ∷ ns) = (a * 16 + b) ∷ pairs ns

abbrev pub leaf_flag : Bool → ℕ
leaf_flag is_leaf = if is_leaf then 0x20 else 0

-- The hex-prefix encoding of a list of nibbles: flags for a leaf and for an odd length in the first
-- four bits, the odd nibble out, and the others in pairs.
unfoldable pub hex_prefix : List ℕ → Bool → List ℕ
hex_prefix ns is_leaf =
    if length ns % 2 == 1
    then (0x10 + get_or ns 0 0 + leaf_flag is_leaf) ∷ pairs (drop 1 ns)
    else leaf_flag is_leaf ∷ pairs ns

pub leaf_flag-lt : (b : Bool) → leaf_flag b ≤ 32
leaf_flag-lt true = omega arith
leaf_flag-lt false = omega arith

pub never : {A : Type 0} → false ≡ true → A
never e = cc

get_or-take : (l i : ℕ) (ns : List ℕ) → i < l → get_or (take l ns) i 0 ≡ get_or ns i 0
get_or-take zero i ns h = absurd (omega arith)
get_or-take (suc l) i [] h = refl
get_or-take (suc l) zero (n ∷ ns) h = refl
get_or-take (suc l) (suc i) (n ∷ ns) h = get_or-take l i ns (omega arith)

take-min : (n : ℕ) (ns : List ℕ) → take (min (length ns) n) ns ≡ take n ns
take-min zero ns = let e : min (length ns) 0 ≡ 0 = omega arith in rw e refl
take-min (suc n) [] = let e : min 0 (suc n) ≡ 0 = omega arith in rw e refl
take-min (suc n) (x ∷ ns) =
    let e : min (suc (length ns)) (suc n) ≡ suc (min (length ns) n) = omega arith in
    rw e (ap (λ t. x ∷ t) (take-min n ns))

pub get_or-IsNibble : (ns : List ℕ) (i : ℕ) → All IsNibble ns → get_or ns i 0 < 16
get_or-IsNibble [] i h = omega arith
get_or-IsNibble (n ∷ ns) zero (hn, h) = hn
get_or-IsNibble (n ∷ ns) (suc i) (hn, h) = get_or-IsNibble ns i h

pub nibbles-IsNibble : (s : NibbleSlice) → IsSlice s → All IsNibble (nibbles s)
unfolding nibbles
nibbles-IsNibble s v =
    All-append IsNibble (drop s.offset (nibbles_of s.own_data))
      (drop s.offset_encode_suffix (nibbles_of s.data_encode_suffix))
      (All-drop IsNibble s.offset _ (nibbles_of-IsNibble s.own_data v.own_bytes))
      (All-drop IsNibble s.offset_encode_suffix _
        (nibbles_of-IsNibble s.data_encode_suffix v.suffix_bytes))

pub drop_two :
    (ns : List ℕ) (i : ℕ)
    → i + 1 < length ns
    → drop i ns ≡ get_or ns i 0 ∷ get_or ns (i + 1) 0 ∷ drop (i + 2) ns
drop_two [] i h = absurd (omega arith)
drop_two (a ∷ []) i h = absurd (omega arith)
drop_two (a ∷ b ∷ ns) zero h = refl
drop_two (a ∷ b ∷ ns) (suc i) h =
    let one : suc i + 1 ≡ suc (i + 1) = omega arith in
    let two : suc i + 2 ≡ suc (i + 2) = omega arith in
    rw (one, two) (drop_two (b ∷ ns) i (omega arith))

module _ (s : NibbleSlice) (v : IsSlice s) (l : ℕ) (small : l ≤ length (nibbles s)) where
  abbrev first_nibbles : List ℕ
  first_nibbles = take l (nibbles s)

  length-first : length first_nibbles ≡ l
  length-first = omega (arith, length-take l (nibbles s))

  at-first : (i : ℕ) → i < l → at s i ≡ ok (get_or first_nibbles i 0)
  at-first i h = at-nibbles s v i (omega arith) ∙ ap ok (sym (get_or-take l i (nibbles s) h))

  encode_loop-pairs :
      (rounds i : ℕ) (r : List ℕ)
      → i + rounds * 2 ≡ l
      → encode_loop s rounds i r ≡ ok (r ++ pairs (drop i first_nibbles))
  unfolding encode_loop pairs
  encode_loop-pairs zero i r h =
      let done = drop-all first_nibbles i (omega (arith, length-first)) in
      rw done (ap ok (sym (append-nil r)))
  encode_loop-pairs (suc rounds) i r h =
      let ns = first_nibbles in
      let bound : All IsNibble ns = All-take IsNibble l (nibbles s) (nibbles-IsNibble s v) in
      let byte = (get_or ns i 0 * 16 + get_or ns (i + 1) 0) in
      let fits : byte % 256 ≡ byte =
        omega (arith, get_or-IsNibble ns i bound, get_or-IsNibble ns (i + 1) bound) in
      let rest = encode_loop-pairs rounds (i + 2) (r ++ (byte ∷ [])) (omega arith) in
      let here : drop i ns ≡ get_or ns i 0 ∷ get_or ns (i + 1) 0 ∷ drop (i + 2) ns =
        drop_two ns i (omega (arith, length-first)) in
      rw (at-first i (omega arith), at-first (i + 1) (omega arith), fits, rest, here)
        (ap ok (append_assoc r (byte ∷ []) (pairs (drop (i + 2) ns))))

  encode_first-hex_prefix :
      (is_leaf : Bool) → encode_first s l is_leaf ≡ ok (hex_prefix first_nibbles is_leaf)
  unfolding hex_prefix
  encode_first-hex_prefix is_leaf = elim (Bool-cases (l % 2 == 1)) [
    | inl odd ↦
        let one : l % 2 ≡ 1 = (==_iff _ _).0 odd in
        let rest =
          encode_loop-pairs (l / 2) 1 ((0x10 + get_or first_nibbles 0 0 + leaf_flag is_leaf) ∷ [])
            (omega arith) in
        let bound =
          get_or-IsNibble first_nibbles 0 (All-take IsNibble l _ (nibbles-IsNibble s v)) in
        let fits : (0x10 + get_or first_nibbles 0 0 + leaf_flag is_leaf) % 256
            ≡ 0x10 + get_or first_nibbles 0 0 + leaf_flag is_leaf =
          omega (arith, bound, leaf_flag-lt is_leaf) in
        rw (length-first, odd, at-first 0 (omega arith), fits, one) rest
    | inr even ↦
        let not_one : l % 2 ≢ 1 = λ e. never (sym even ∙ (==_iff _ _).1 e) in
        let zero_left : l % 2 ≡ 0 = omega (arith, not_one) in
        let rest = encode_loop-pairs (l / 2) 0 (leaf_flag is_leaf ∷ []) (omega arith) in
        let fits : (0 + leaf_flag is_leaf) % 256 ≡ leaf_flag is_leaf =
          omega (arith, leaf_flag-lt is_leaf) in
        rw (length-first, even, fits, zero_left) rest
  ]

module _ (s : NibbleSlice) (v : IsSlice s) where
  -- `encoded` is the hex-prefix encoding of the slice's nibbles.
  pub encoded-hex_prefix :
      (is_leaf : Bool) → encoded s is_leaf ≡ ok (hex_prefix (nibbles s) is_leaf)
  unfolding encoded
  encoded-hex_prefix is_leaf =
      let all : take (len s) (nibbles s) ≡ nibbles s =
        take-eq_self (len s) (nibbles s) (sym (len-nibbles s v)) in
      encode_first-hex_prefix s v (len s) (omega (arith, len-nibbles s v)) is_leaf
      ∙ ap (λ ns. ok (hex_prefix ns is_leaf)) all

  -- `encoded_leftmost` of a slice whose offsets lie in its bytes is the hex-prefix encoding of the
  -- first `n` nibbles, or of all of them if there are fewer.
  pub encoded_leftmost-hex_prefix :
      (n : ℕ) (is_leaf : Bool)
      → encoded_leftmost s n is_leaf ≡ ok (hex_prefix (take n (nibbles s)) is_leaf)
  unfolding encoded_leftmost
  encoded_leftmost-hex_prefix n is_leaf =
      encode_first-hex_prefix s v (min (len s) n) (omega (arith, len-nibbles s v)) is_leaf
      ∙ ap (λ ns. ok (hex_prefix ns is_leaf)) (rw (len-nibbles s v) (take-min n (nibbles s)))
