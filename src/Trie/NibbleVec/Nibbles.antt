-- ===== src/Trie/NibbleVec/Nibbles.antt =====
-- A nibble vector against the list of the nibbles pushed: the bytes are a function of that list.
use aion_utils.Prelude.{
  ℕ, zero, suc, ◌+◌, ◌-◌, ◌*◌, ◌/◌, ◌%◌, ◌<◌, ◌≡◌, ◌≢◌, ◌⊎◌, refl, sym, ap, ◌∙◌, Bool, true, false,
  ◌&&◌, none, some, List, [], ◌∷◌, ◌++◌, arith, ◌==◌, length, ok, ◌>>=◌, Bool-cases, inl, inr,
  get_or, ==_iff, All, bit_or, length-append,
}
use aion_utils.Trie.Nibbles.{IsNibble}
use aion_utils.Trie.NibbleSlice.Encode.{never}
use aion_utils.Trie.NibbleVec.{NibbleVec, pop_back, at, push, pop}

-- Two nibbles to a byte, and an odd one out in the high half of a last byte.
unfoldable pub packed : List ℕ → List ℕ
packed [] = []
packed (a ∷ []) = (a * 16) ∷ []
packed (a ∷ b ∷ ns) = (a * 16 + b) ∷ packed ns

abbrev pub vec_of : List ℕ → NibbleVec
vec_of ns = record { inner = packed ns; len = length ns }

pop_back-append : (xs : List ℕ) (x : ℕ) → pop_back (xs ++ (x ∷ [])) ≡ some (x, xs)
unfolding pop_back
pop_back-append [] x = refl
pop_back-append (y ∷ xs) x = rw (pop_back-append xs x) refl

packed-even :
    (ns : List ℕ) (n : ℕ)
    → length ns % 2 ≡ 0
    → packed (ns ++ (n ∷ [])) ≡ packed ns ++ ((n * 16) ∷ [])
unfolding packed
packed-even [] n h = refl
packed-even (a ∷ []) n h = absurd (omega arith)
packed-even (a ∷ b ∷ ns) n h = ap (λ t. (a * 16 + b) ∷ t) (packed-even ns n (omega arith))

-- With an odd number of nibbles, the last byte holds one, `a`.
record OddEnd (ns : List ℕ) : Type 0 where
  front : List ℕ
  a : ℕ
  small : a < 16
  ending : packed ns ≡ front ++ ((a * 16) ∷ [])
  pushed : (n : ℕ) → packed (ns ++ (n ∷ [])) ≡ front ++ ((a * 16 + n) ∷ [])

odd_end : (ns : List ℕ) → All IsNibble ns → length ns % 2 ≡ 1 → OddEnd ns
unfolding packed
odd_end [] bound h = absurd (omega arith)
odd_end (a ∷ []) (ha, bound) h = record {
  front = [];
  a = a;
  small = ha;
  ending = refl;
  pushed = λ n. refl;
}
odd_end (a ∷ b ∷ ns) (ha, (hb, bound)) h =
    let rest = odd_end ns bound (omega arith) in
    record {
      front = (a * 16 + b) ∷ rest.front;
      a = rest.a;
      small = rest.small;
      ending = ap (λ t. (a * 16 + b) ∷ t) rest.ending;
      pushed = λ n. ap (λ t. (a * 16 + b) ∷ t) (rest.pushed n);
    }

-- A test of all numbers below a bound.
abbrev all_below : ℕ → (ℕ → Bool) → Bool
all_below zero f = true
all_below (suc n) f = f n && all_below n f

all_below-at : (n : ℕ) (f : ℕ → Bool) (i : ℕ) → all_below n f ≡ true → i < n → f i ≡ true
all_below-at zero f i h k = absurd (omega arith)
all_below-at (suc n) f i h k = elim (Bool-cases (f n)) [
  | inl here ↦
      let rest : all_below n f ≡ true = rw here at h in
      elim (Bool-cases (i == n)) [
        | inl last ↦ rw ((==_iff _ _).0 last) here
        | inr other ↦
            let not_last : i ≢ n = λ e. never (sym other ∙ (==_iff _ _).1 e) in
            all_below-at n f i rest (omega (arith, not_last))
      ]
  | inr missing ↦ never (rw missing at h)
]

bit_or-nibbles : (a n : ℕ) → a < 16 → n < 16 → bit_or (a * 16) n ≡ a * 16 + n
bit_or-nibbles a n ha hn =
    let table : all_below 16 (λ a. all_below 16 (λ n. bit_or (a * 16) n == a * 16 + n)) ≡ true =
      refl in
    (==_iff _ _).0 (
      all_below-at 16 (λ n. bit_or (a * 16) n == a * 16 + n) n
        (all_below-at 16 (λ a. all_below 16 (λ n. bit_or (a * 16) n == a * 16 + n)) a table ha) hn)

-- `push` appends the low four bits of the byte to the nibbles.
pub push-vec_of :
    (ns : List ℕ) (byte : ℕ)
    → All IsNibble ns
    → push (vec_of ns) byte ≡ ok (vec_of (ns ++ ((byte % 16) ∷ [])))
unfolding push
push-vec_of ns byte bound = elim (Bool-cases (length ns % 2 == 0)) [
  | inl even ↦
      let fits : byte % 16 * 16 % 256 ≡ byte % 16 * 16 = omega arith in
      rw
        (
          even,
          fits,
          packed-even ns (byte % 16) ((==_iff _ _).0 even),
          length-append ns ((byte % 16) ∷ []),
        )
        refl
  | inr odd ↦
      let not_even : length ns % 2 ≢ 0 = λ e. never (sym odd ∙ (==_iff _ _).1 e) in
      let e = odd_end ns bound (omega (arith, not_even)) in
      rw
        (
          odd,
          e.ending,
          pop_back-append e.front (e.a * 16),
          bit_or-nibbles e.a (byte % 16) e.small (omega arith),
          e.pushed (byte % 16),
          length-append ns ((byte % 16) ∷ []),
        )
        refl
]

half_flag : (n : ℕ) → n % 2 ≡ 0 ⊎ (n % 2 ≡ 1)
half_flag n = elim (Bool-cases (n % 2 == 0)) [
  | inl even ↦ inl ((==_iff _ _).0 even)
  | inr odd ↦ inr (
      let not_even : n % 2 ≢ 0 = λ e. never (sym odd ∙ (==_iff _ _).1 e) in omega (arith, not_even))
]

-- `pop` of no nibbles returns none.
pub pop-nil : pop (vec_of []) ≡ ok (none, vec_of [])
unfolding pop packed
pop-nil = refl

-- `pop` takes the last nibble off.
pub pop-vec_of :
    (ns : List ℕ) (n : ℕ)
    → All IsNibble ns
    → n < 16
    → pop (vec_of (ns ++ (n ∷ []))) ≡ ok (some n, vec_of ns)
unfolding pop
pop-vec_of ns n bound hn = elim (half_flag (length ns)) [
  | inl even ↦
      let here : length (ns ++ (n ∷ [])) ≡ length ns + 1 = length-append ns (n ∷ []) in
      let some_left : (length ns + 1 == 0) ≡ false = ground arith in
      let flag : ((length ns + 1) % 2 == 0) ≡ false = ground arith in
      let high : n * 16 / 16 ≡ n = omega arith in
      let less : length ns + 1 - 1 ≡ length ns = omega arith in
      rw
        (
          here,
          some_left,
          flag,
          packed-even ns n even,
          pop_back-append (packed ns) (n * 16),
          high,
          less,
        )
        refl
  | inr odd ↦
      let e = odd_end ns bound odd in
      let here : length (ns ++ (n ∷ [])) ≡ length ns + 1 = length-append ns (n ∷ []) in
      let some_left : (length ns + 1 == 0) ≡ false = ground arith in
      let flag : ((length ns + 1) % 2 == 0) ≡ true = ground arith in
      let high : (e.a * 16 + n) / 16 ≡ e.a = omega arith in
      let low : (e.a * 16 + n) % 16 ≡ n = omega arith in
      let less : length ns + 1 - 1 ≡ length ns = omega arith in
      rw
        (
          here,
          some_left,
          flag,
          e.pushed n,
          pop_back-append e.front (e.a * 16 + n),
          high,
          low,
          less,
          e.ending,
        )
        refl
]

-- `at` reads the nibble at a position in range.
pub at-vec_of :
    (ns : List ℕ) (i : ℕ) → All IsNibble ns → i < length ns → at (vec_of ns) i ≡ ok (get_or ns i 0)
unfolding at packed
at-vec_of [] i bound h = absurd (omega arith)
at-vec_of (a ∷ []) zero bound h = let e : a * 16 / 16 ≡ a = omega arith in rw e refl
at-vec_of (a ∷ []) (suc i) bound h = absurd (omega arith)
at-vec_of (a ∷ b ∷ ns) zero (ha, (hb, bound)) h =
    let e : (a * 16 + b) / 16 ≡ a = omega arith in rw e refl
at-vec_of (a ∷ b ∷ ns) (suc zero) (ha, (hb, bound)) h =
    let e : (a * 16 + b) % 16 ≡ b = omega arith in rw e refl
at-vec_of (a ∷ b ∷ ns) (suc (suc i)) (ha, (hb, bound)) h =
    let half : suc (suc i) / 2 ≡ suc (i / 2) = omega arith in
    let same : suc (suc i) % 2 ≡ i % 2 = omega arith in
    rw (half, same) (at-vec_of ns i bound (omega arith))

-- `pop` after `push` returns the low four bits of the byte and leaves the vector as it was.
pub pop-push :
    (ns : List ℕ) (byte : ℕ)
    → All IsNibble ns
    → (push (vec_of ns) byte >>= pop) ≡ ok (some (byte % 16), vec_of ns)
pop-push ns byte bound =
    rw (push-vec_of ns byte bound) (pop-vec_of ns (byte % 16) bound (omega arith))
