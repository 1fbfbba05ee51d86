-- ===== src/Prelude/Words.antt =====
-- Bytes and machine words: what the program uses of Rust's integers and of the crate `byteorder`.
use Prim.Native.Nat.{suc-le-suc, ℕ, zero, suc, ◌+◌, ◌-◌, ◌*◌, ◌/◌, ◌%◌, ◌^◌, ◌≤◌, ◌<◌}
use mathlib.Core.Path.{◌≡◌, refl, sym, ap, ◌∙◌}
use mathlib.Core.Logic.{inl, inr}
use mathlib.Core.List.{List, [], ◌∷◌}
use native.Mathlib.Omega.{arith}
use native.Mathlib.Nat.{
  pow-suc, pow-zero, pow-le-pow_right, mul-add-mod_self_left, mod-eq_of_lt, div-add-mod, mod-lt,
  one-le-pow,
}
use native.Mathlib.Numerals.{towards_suc}
use aion_utils.Prelude.Tests.{ltb, lt→ltb, if◌then◌else◌, Bool-cases, ltb→lt}
use aion_utils.Prelude.Lists.{length, drop, All}

abbrev pub usize_mod : ℕ
usize_mod = 2 ^ 64

-- `usize` addition and left shift, which wrap.
abbrev pub add_usize : ℕ → ℕ → ℕ
add_usize a b = (a + b) % usize_mod

abbrev pub shl_usize : ℕ → ℕ → ℕ
shl_usize a b = a * 2 ^ b % usize_mod

abbrev pub IsByte : ℕ → Type 0
IsByte b = b < 256

abbrev pub IsBytes : List ℕ → Type 0
IsBytes bs = All IsByte bs

-- `BigEndian::write_u*`: the low `k` bytes of `n`, the highest first.
abbrev pub big_endian : ℕ → ℕ → List ℕ
big_endian zero n = []
big_endian (suc k) n = (n / 256 ^ k % 256) ∷ big_endian k n

-- The number that a byte string stands for, the highest byte first.
abbrev pub be_value : List ℕ → ℕ
be_value [] = 0
be_value (b ∷ bs) = b * 256 ^ length bs + be_value bs

-- `leading_zeros` of a word of `w` bits.
pub leading_zeros : ℕ → ℕ → ℕ
leading_zeros zero n = 0
leading_zeros (suc w) n = if ltb n (2 ^ w) then suc (leading_zeros w n) else 0

pub pow_pos : (k : ℕ) → 0 < 256 ^ k
pow_pos k = one-le-pow k 256 (omega arith)

pub length-big_endian : (k n : ℕ) → length (big_endian k n) ≡ k
length-big_endian zero n = refl
length-big_endian (suc k) n = ap suc (length-big_endian k n)

pub big_endian-IsBytes : (k n : ℕ) → IsBytes (big_endian k n)
big_endian-IsBytes zero n = tt
big_endian-IsBytes (suc k) n = (omega arith, big_endian-IsBytes k n)

pub drop-big_endian : (j k n : ℕ) → j ≤ k → drop j (big_endian k n) ≡ big_endian (k - j) n
drop-big_endian zero k n h = ap (λ i. big_endian i n) (omega arith)
drop-big_endian (suc j) zero n h = absurd (omega arith)
drop-big_endian (suc j) (suc k) n h =
    drop-big_endian j k n (omega arith) ∙ ap (λ i. big_endian i n) (omega arith)

mod_split : (n m : ℕ) → 0 < m → n / m % 256 * m + n % m ≡ n % (m * 256)
mod_split n m pos =
    sym (mod-eq_of_lt small)
    ∙ sym (mul-add-mod_self_left (m * 256) (n / m / 256) _)
    ∙ ap (λ t. t % (m * 256)) whole
  where
    small : n / m % 256 * m + n % m < m * 256
    small = grind (arith, mod-lt n pos)

    whole : m * 256 * (n / m / 256) + (n / m % 256 * m + n % m) ≡ n
    whole = omega (arith, div-add-mod n m, ap (λ (t : ℕ). m * t) (div-add-mod (n / m) 256))

pub be_value-big_endian : (k n : ℕ) → be_value (big_endian k n) ≡ n % 256 ^ k
be_value-big_endian zero n = omega (arith, pow-zero 256)
be_value-big_endian (suc k) n =
    rw (length-big_endian k n, be_value-big_endian k n, pow-suc 256 k)
      (mod_split n (256 ^ k) (pow_pos k))

pub be_value-lt : (bs : List ℕ) → IsBytes bs → be_value bs < 256 ^ length bs
be_value-lt [] h = omega (arith, pow-zero 256)
be_value-lt (b ∷ bs) (hb, h) =
    let ih = be_value-lt bs h in rw (pow-suc 256 (length bs)) (grind (arith, pow_pos (length bs)))

pub leading_zeros-lt : (w n : ℕ) → n < 2 ^ w → leading_zeros (suc w) n ≡ suc (leading_zeros w n)
unfolding leading_zeros
leading_zeros-lt w n h = rw (lt→ltb n (2 ^ w) h)

-- More high bits that are zero.
leading_zeros-add :
    (j w n u : ℕ) → u ≡ j + w → n < 2 ^ w → leading_zeros u n ≡ j + leading_zeros w n
leading_zeros-add zero w n u e h = let e' : u ≡ w = omega arith in rw e' (omega arith)
leading_zeros-add (suc j) w n zero e h = absurd (omega arith)
leading_zeros-add (suc j) w n (suc u) e h =
    let wider = pow-le-pow_right {n = 2} (omega arith) {i = w} {j = u} (omega arith) in
    leading_zeros-lt u n (omega arith) ∙ omega (arith, leading_zeros-add j w n u (omega arith) h)

-- Where the low `w` bits do not hold the number, fewer than `j` of `j + w` bits are leading zeros.
leading_zeros_wide : (j w n u : ℕ) → u ≡ j + w → n < 2 ^ u → 2 ^ w ≤ n → suc (leading_zeros u n) ≤ j
unfolding leading_zeros
leading_zeros_wide zero w n u e small wide =
    let e' : u ≡ w = omega arith in let small' : n < 2 ^ w = rw e' at small in absurd (omega arith)
leading_zeros_wide (suc j) w n zero e small wide = absurd (omega arith)
leading_zeros_wide (suc j) w n (suc u) e small wide = elim (Bool-cases (ltb n (2 ^ u))) [
  | inl t ↦ rw t (suc-le-suc (leading_zeros_wide j w n u (omega arith) (ltb→lt _ _ t) wide))
  | inr f ↦ rw f (omega arith)
]

-- How many bytes of a word of `k` bytes are left when the leading zero bytes are taken off.
pub width : ℕ → ℕ → ℕ
width k n = k - leading_zeros (k * 8) n / 8

pub pow_bytes : (k : ℕ) → 2 ^ (k * 8) ≡ 256 ^ k
pow_bytes zero = refl
pow_bytes (suc k) =
    let e : suc k * 8 ≡ k * 8 + 8 = omega arith in
    rw (e, pow-suc 256 k, ← pow_bytes k) (simp towards_suc (omega arith))

pub width_lem : (k n : ℕ) → width k n ≡ k - leading_zeros (k * 8) n / 8
unfolding width
width_lem k n = refl

leading_zeros-le : (w n : ℕ) → leading_zeros w n ≤ w
unfolding leading_zeros
leading_zeros-le zero n = omega arith
leading_zeros-le (suc w) n = ground (arith, leading_zeros-le w n)

-- The bytes that are left when the leading zero bytes are taken off.
pub big_endian_trimmed :
    (k n : ℕ) → drop (leading_zeros (k * 8) n / 8) (big_endian k n) ≡ big_endian (width k n) n
unfolding width
big_endian_trimmed k n =
    drop-big_endian (leading_zeros (k * 8) n / 8) k n (omega (arith, leading_zeros-le (k * 8) n))

width-zero : (n : ℕ) → width 0 n ≡ 0
unfolding width
width-zero n = omega arith

-- A number that fits one byte less has the same width.
pub width-suc : (k n : ℕ) → n < 256 ^ k → width (suc k) n ≡ width k n
unfolding width
width-suc k n h =
    let fits : n < 2 ^ (k * 8) = rw pow_bytes h in
    omega (arith, leading_zeros-add 8 (k * 8) n (suc k * 8) (omega arith) fits)

-- A number that needs every byte of the word has the word's width.
pub width_full : (k n : ℕ) → 256 ^ k ≤ n → n < 256 ^ suc k → width (suc k) n ≡ suc k
unfolding width
width_full k n h small =
    let wide : 2 ^ (k * 8) ≤ n = rw pow_bytes h in
    let small' : n < 2 ^ (suc k * 8) = rw (pow_bytes (suc k)) small in
    omega (arith, leading_zeros_wide 8 (k * 8) n (suc k * 8) (omega arith) small' wide)

-- `width k n` is the least number of bytes that holds `n`.
pub width_bounds :
    (k n : ℕ)
    → n < 256 ^ k
    → (width k n ≤ k)
      × (n < 256 ^ width k n)
      × (0 < n → 0 < width k n)
      × (0 < width k n → 256 ^ (width k n - 1) ≤ n)
width_bounds zero n h =
    rw (width-zero n)
      (omega arith, h, λ p. absurd (omega (arith, pow-zero 256)), λ p. absurd (omega arith))
width_bounds (suc k) n h = elim (Bool-cases (ltb n (256 ^ k))) [
  | inl t ↦
      let small = ltb→lt _ _ t in
      let (a, b, c, d) = width_bounds k n small in rw (width-suc k n small) (omega arith, b, c, d)
  | inr f ↦
      let wide : 256 ^ k ≤ n = ground arith in
      let pred_suc : suc k - 1 ≡ k = omega arith in
      rw (width_full k n wide h) (omega arith, h, λ p. omega arith, λ p. rw pred_suc wide)
]
