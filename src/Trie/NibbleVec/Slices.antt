-- ===== src/Trie/NibbleVec/Slices.antt =====
-- Between nibble vectors and nibble slices.
use aion_utils.Prelude.{
  ℕ, zero, suc, ◌+◌, ◌*◌, ◌/◌, ◌%◌, ◌<◌, ◌≡◌, refl, sym, ap, ◌∙◌, true, some, List, [], ◌∷◌, ◌++◌,
  arith, ◌==◌, length, take, ok, get_or, ==_iff, All, All-take, append-nil, take-eq_self,
}
use aion_utils.Trie.Nibbles.{nibbles_of, IsNibble}
use aion_utils.Trie.NibbleSlice.{NibbleSlice}
use aion_utils.Trie.NibbleSlice
use aion_utils.Trie.NibbleSlice.View.{nibbles, IsSlice, len-nibbles, at-nibbles}
use aion_utils.Trie.NibbleSlice.Encode.{nibbles-IsNibble, get_or-IsNibble}
use aion_utils.Trie.NibbleVec.{as_nibbleslice, push_from, from}
use aion_utils.Trie.NibbleVec.Nibbles.{packed, vec_of, push-vec_of}

take-suc :
    (ns : List ℕ) (i : ℕ) → i < length ns → take (i + 1) ns ≡ take i ns ++ (get_or ns i 0 ∷ [])
take-suc [] i h = absurd (omega arith)
take-suc (n ∷ ns) zero h = refl
take-suc (n ∷ ns) (suc i) h =
    let e : suc i + 1 ≡ suc (i + 1) = omega arith in
    rw e (ap (λ t. n ∷ t) (take-suc ns i (omega arith)))

module _ (s : NibbleSlice) (v : IsSlice s) where
  push_from-vec_of :
      (rounds i : ℕ)
      → i + rounds ≡ length (nibbles s)
      → push_from s rounds i (vec_of (take i (nibbles s))) ≡ ok (vec_of (nibbles s))
  unfolding push_from
  push_from-vec_of zero i h =
      let whole : take i (nibbles s) ≡ nibbles s = take-eq_self i (nibbles s) (omega arith) in
      rw whole refl
  push_from-vec_of (suc rounds) i h =
      let bound = nibbles-IsNibble s v in
      let n = get_or (nibbles s) i 0 in
      let fits : n % 16 ≡ n = omega (arith, get_or-IsNibble (nibbles s) i bound) in
      let rest = push_from-vec_of rounds (i + 1) (omega arith) in
      rw
        (
          at-nibbles s v i (omega arith),
          push-vec_of (take i (nibbles s)) n (All-take IsNibble i (nibbles s) bound),
          fits,
          sym (take-suc (nibbles s) i (omega arith)),
        )
        rest

  -- `from` copies the nibbles of a slice.
  pub from-vec_of : from s ≡ ok (vec_of (nibbles s))
  unfolding from packed
  from-vec_of = push_from-vec_of (NibbleSlice.len s) 0 (omega (arith, len-nibbles s v))

nibbles_of-packed :
    (ns : List ℕ) → All IsNibble ns → length ns % 2 ≡ 0 → nibbles_of (packed ns) ≡ ns
unfolding nibbles_of packed
nibbles_of-packed [] h even = refl
nibbles_of-packed (a ∷ []) h even = absurd (omega (arith, even))
nibbles_of-packed (a ∷ b ∷ ns) (ha, (hb, h)) even =
    let high : (a * 16 + b) / 16 ≡ a = omega arith in
    let low : (a * 16 + b) % 16 ≡ b = omega arith in
    rw (high, low, nibbles_of-packed ns h (omega (arith, even))) refl

-- `as_nibbleslice` of an even number of nibbles is a slice of them.
pub as_nibbleslice-nibbles :
    (ns : List ℕ)
    → All IsNibble ns
    → length ns % 2 ≡ 0
    → (t : NibbleSlice) × (as_nibbleslice (vec_of ns) ≡ some t) × (nibbles t ≡ ns)
unfolding as_nibbleslice nibbles nibbles_of
as_nibbleslice-nibbles ns bound even =
    let flag : (length ns % 2 == 0) ≡ true = (==_iff _ _).1 even in
    (NibbleSlice.new (packed ns), rw flag refl, append-nil _ ∙ nibbles_of-packed ns bound even)
