-- ===== src/Rlp/Header/Lengths.antt =====
-- `decode_usize` reads the number that the bytes stand for, and reads back what a header holds.
use aion_utils.Prelude.{
  ℕ, zero, suc, ◌+◌, ◌-◌, ◌*◌, ◌/◌, ◌%◌, ◌^◌, ◌≤◌, ◌<◌, ◌≡◌, ap, ◌∙◌, List, [], ◌∷◌, arith, length,
  ok, ◌≢◌,
}
use aion_utils.Prelude.Words.{
  IsBytes, be_value, be_value-lt, pow_bytes, pow_pos, big_endian, be_value-big_endian,
  big_endian-IsBytes, length-big_endian, width, width_bounds,
}
use aion_utils.Rlp.Header.{decode_usize, sum_bytes}
use native.Mathlib.Nat.{
  mod-eq_of_lt, le_trans, mul_comm, pow-le-pow_right, pow-suc, div-lt_iff_lt-mul, le-div_iff_mul-le,
}

-- Where the value fits the word, no shift and no sum of the loop wraps.
pub sum_bytes-value :
    (modulus : ℕ) (bs : List ℕ) (res : ℕ)
    → res + be_value bs < modulus
    → sum_bytes modulus bs res ≡ res + be_value bs
unfolding sum_bytes
sum_bytes-value modulus [] res h = omega arith
sum_bytes-value modulus (b ∷ bs) res h =
    rw (pow_bytes (length bs), fits, sum_fits)
      (sum_bytes-value modulus bs (res + b * 256 ^ length bs) (omega arith) ∙ omega arith)
  where
    fits : b * 256 ^ length bs % modulus ≡ b * 256 ^ length bs
    fits = mod-eq_of_lt (omega arith)

    sum_fits : (res + b * 256 ^ length bs) % modulus ≡ res + b * 256 ^ length bs
    sum_fits = mod-eq_of_lt (omega arith)

-- On one to eight bytes with no leading zero, `decode_usize` returns their value.
pub decode_usize_value :
    (b : ℕ) (bs : List ℕ)
    → IsBytes (b ∷ bs)
    → length (b ∷ bs) ≤ 8
    → b ≢ 0
    → decode_usize (b ∷ bs) ≡ ok (be_value (b ∷ bs))
unfolding decode_usize
decode_usize_value b bs h len ne = ground (arith, loop)
  where
    small : be_value (b ∷ bs) < 2 ^ 64
    small =
        le_trans (be_value-lt (b ∷ bs) h)
          (pow-le-pow_right {n = 256} (omega arith) {i = length (b ∷ bs)} {j = 8} len)

    loop : sum_bytes (2 ^ 64) (b ∷ bs) 0 ≡ be_value (b ∷ bs)
    loop = sum_bytes-value (2 ^ 64) (b ∷ bs) 0 (omega (arith, small)) ∙ omega arith

-- The first of the least number of bytes that hold a number is not 0.
pub top_byte : (w n : ℕ) → n < 256 ^ suc w → 256 ^ w ≤ n → n / 256 ^ w % 256 ≢ 0
top_byte w n small big = omega (arith, low, high)
  where
    low : 1 ≤ n / 256 ^ w
    low = (le-div_iff_mul-le (pow_pos w)).1 (omega arith)

    high : n / 256 ^ w < 256
    high = (div-lt_iff_lt-mul (pow_pos w)).1 (rw (pow-suc, mul_comm) at small)

-- `decode_usize` reads back a length from the bytes that a header holds.
pub decode_usize-big_endian :
    (n : ℕ) → 0 < n → n < 2 ^ 64 → decode_usize (big_endian (width 8 n) n) ≡ ok n
decode_usize-big_endian n pos small = go (width 8 n) (width_bounds 8 n small)
  where
    go :
        (w : ℕ)
        → (w ≤ 8) × (n < 256 ^ w) × (0 < n → 0 < w) × (0 < w → 256 ^ (w - 1) ≤ n)
        → decode_usize (big_endian w n) ≡ ok n
    go zero (a, b, c, d) = absurd (omega (arith, c pos))
    go (suc w) (a, b, c, d) =
        let e : suc w - 1 ≡ w = omega arith in
        let big : 256 ^ w ≤ n = rw e at (d (omega arith)) in
        decode_usize_value _ (big_endian w n) (big_endian-IsBytes (suc w) n)
          (omega (arith, length-big_endian w n)) (top_byte w n b big)
        ∙ ap ok (be_value-big_endian (suc w) n ∙ mod-eq_of_lt b)
