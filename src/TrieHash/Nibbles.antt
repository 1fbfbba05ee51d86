-- ===== src/TrieHash/Nibbles.antt =====
-- The nibble helpers of the root hash against the trie's own nibble slices.
use aion_utils.Prelude.{
  ℕ, zero, suc, ◌+◌, ◌*◌, ◌/◌, ◌%◌, ◌≤◌, ◌<◌, ◌≡◌, ◌≢◌, refl, sym, ap, ◌∙◌, Bool, true, false, List,
  [], ◌∷◌, ◌++◌, arith, ◌==◌, if◌then◌else◌, length, drop, ok, Run, index, min, map_ok, Bool-cases,
  inl, inr, get_or, ==_iff, All, append_assoc, append-nil, length-drop,
}
use aion_utils.Trie.Nibbles.{nibbles_of, IsNibble, drop-cons, drop-all}
use aion_utils.Trie.NibbleSlice.{NibbleSlice, common_prefix, encoded}
use aion_utils.Trie.NibbleSlice.View.{nibbles, IsSlice}
use aion_utils.Trie.NibbleSlice.Compare.{shared, shared-end, common_prefix-shared}
use aion_utils.Trie.NibbleSlice.Encode.{
  pairs, hex_prefix, leaf_flag, never, drop_two, get_or-IsNibble, nibbles-IsNibble,
  encoded-hex_prefix,
}
use aion_utils.TrieHash.{
  agree_from, shared_prefix_len, flag_bits, hex_loop, hex_prefix_encode, nibbles_loop, as_nibbles,
}

nibbles_loop-append : (bs res : List ℕ) → nibbles_loop bs res ≡ res ++ nibbles_of bs
unfolding nibbles_loop nibbles_of
nibbles_loop-append [] res = sym (append-nil res)
nibbles_loop-append (b ∷ bs) res =
    nibbles_loop-append bs ((res ++ ((b / 16) ∷ [])) ++ ((b % 16) ∷ []))
    ∙ append_assoc (res ++ ((b / 16) ∷ [])) ((b % 16) ∷ []) (nibbles_of bs)
    ∙ append_assoc res ((b / 16) ∷ []) ((b % 16) ∷ nibbles_of bs)

-- `as_nibbles` lists the nibbles of the bytes, the high one of each first.
pub as_nibbles-nibbles_of : (bs : List ℕ) → as_nibbles bs ≡ nibbles_of bs
unfolding as_nibbles
as_nibbles-nibbles_of bs = nibbles_loop-append bs []

index-get_or :
    (ns : List ℕ) (i : ℕ) → i < length ns → index {E = Unit {0}} ns i ≡ ok (get_or ns i 0)
index-get_or [] i h = absurd (omega arith)
index-get_or (n ∷ ns) zero h = refl
index-get_or (n ∷ ns) (suc i) h = index-get_or ns i (omega arith)

agree_step :
    (x y : ℕ) (xs ys : List ℕ) (m : Run ℕ)
    → m ≡ ok (shared xs ys)
    → (if x == y then map_ok suc m else ok 0) ≡ ok (shared (x ∷ xs) (y ∷ ys))
unfolding shared
agree_step x y xs ys m e = elim (Bool-cases (x == y)) [
  | inl same ↦ rw (same, e) refl
  | inr other ↦ rw other refl
]

agree_from-shared :
    (xs ys : List ℕ) (positions i : ℕ)
    → i + positions ≡ min (length xs) (length ys)
    → agree_from xs ys positions i ≡ ok (shared (drop i xs) (drop i ys))
unfolding agree_from
agree_from-shared xs ys zero i h =
    let none_left =
      shared-end (drop i xs) (drop i ys) (omega (arith, length-drop i xs, length-drop i ys)) in
    rw none_left refl
agree_from-shared xs ys (suc positions) i h =
    let one : i + 1 ≡ suc i = omega arith in
    let rest = agree_from-shared xs ys positions (i + 1) (omega arith) in
    rw
      (
        index-get_or xs i (omega arith),
        index-get_or ys i (omega arith),
        drop-cons xs i 0 (omega arith),
        drop-cons ys i 0 (omega arith),
      )
      (agree_step _ _ _ _ _ (rw (sym one) rest))

-- `shared_prefix_len` is the length of the longest common front of two lists.
pub shared_prefix_len-shared : (xs ys : List ℕ) → shared_prefix_len xs ys ≡ ok (shared xs ys)
unfolding shared_prefix_len
shared_prefix_len-shared xs ys =
    agree_from-shared xs ys (min (length xs) (length ys)) 0 (omega arith)

hex_loop-pairs :
    (ns : List ℕ) (rounds i : ℕ) (r : List ℕ)
    → All IsNibble ns
    → i + rounds * 2 ≡ length ns
    → hex_loop ns rounds i r ≡ ok (r ++ pairs (drop i ns))
unfolding hex_loop pairs
hex_loop-pairs ns zero i r bound h =
    let done = drop-all ns i (omega arith) in rw done (ap ok (sym (append-nil r)))
hex_loop-pairs ns (suc rounds) i r bound h =
    let byte = get_or ns i 0 * 16 + get_or ns (i + 1) 0 in
    let fits : (get_or ns i 0 * 16 % 256 + get_or ns (i + 1) 0) % 256 ≡ byte =
      omega (arith, get_or-IsNibble ns i bound, get_or-IsNibble ns (i + 1) bound) in
    let rest = hex_loop-pairs ns rounds (i + 2) (r ++ (byte ∷ [])) bound (omega arith) in
    let here = drop_two ns i (omega arith) in
    rw (index-get_or ns i (omega arith), index-get_or ns (i + 1) (omega arith), fits, rest, here)
      (ap ok (append_assoc r (byte ∷ []) (pairs (drop (i + 2) ns))))

odd_bits : (n : ℕ) (leaf : Bool) → n % 2 ≡ 1 → flag_bits n leaf ≡ 0x10 + leaf_flag leaf
odd_bits n true h = omega arith
odd_bits n false h = omega arith

even_bits : (n : ℕ) (leaf : Bool) → n % 2 ≡ 0 → flag_bits n leaf ≡ leaf_flag leaf
even_bits n true h = omega arith
even_bits n false h = omega arith

leaf_flag-lt : (b : Bool) → leaf_flag b ≤ 32
leaf_flag-lt true = omega arith
leaf_flag-lt false = omega arith

-- `hex_prefix_encode` of a list of nibbles is its hex-prefix encoding.
pub hex_prefix_encode-hex_prefix :
    (ns : List ℕ) (leaf : Bool)
    → All IsNibble ns
    → hex_prefix_encode ns leaf ≡ ok (hex_prefix ns leaf)
unfolding hex_prefix_encode hex_prefix
hex_prefix_encode-hex_prefix ns leaf bound = elim (Bool-cases (length ns % 2 == 1)) [
  | inl odd ↦
      let one : length ns % 2 ≡ 1 = (==_iff _ _).0 odd in
      let byte = 0x10 + get_or ns 0 0 + leaf_flag leaf in
      let fits : (flag_bits (length ns) leaf + get_or ns 0 0) % 256 ≡ byte =
        omega
          (arith, odd_bits (length ns) leaf one, get_or-IsNibble ns 0 bound, leaf_flag-lt leaf) in
      rw (odd, index-get_or ns 0 (omega arith), fits, one)
        (hex_loop-pairs ns (length ns / 2) 1 (byte ∷ []) bound (omega arith))
  | inr even ↦
      let not_one : length ns % 2 ≢ 1 = λ e. never (sym even ∙ (==_iff _ _).1 e) in
      let none_odd : length ns % 2 ≡ 0 = omega (arith, not_one) in
      rw (even, even_bits (length ns) leaf none_odd, none_odd)
        (hex_loop-pairs ns (length ns / 2) 0 (leaf_flag leaf ∷ []) bound (omega arith))
]

-- On the nibbles of a slice whose offsets lie in its bytes, `hex_prefix_encode` returns what the slice's own `encoded` does.
pub hex_prefix_encode-encoded :
    (s : NibbleSlice) (leaf : Bool)
    → IsSlice s
    → hex_prefix_encode (nibbles s) leaf ≡ encoded s leaf
hex_prefix_encode-encoded s leaf v =
    hex_prefix_encode-hex_prefix (nibbles s) leaf (nibbles-IsNibble s v)
    ∙ sym (encoded-hex_prefix s v leaf)

-- On the nibbles of two slices, `shared_prefix_len` returns what the slices' own `common_prefix`
-- does.
pub shared_prefix_len-common_prefix :
    (s t : NibbleSlice)
    → IsSlice s
    → IsSlice t
    → shared_prefix_len (nibbles s) (nibbles t) ≡ common_prefix s t
shared_prefix_len-common_prefix s t vs vt =
    shared_prefix_len-shared (nibbles s) (nibbles t) ∙ sym (common_prefix-shared s t vs vt)
