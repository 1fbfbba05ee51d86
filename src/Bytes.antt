-- ===== src/Bytes.antt =====
-- bytes/src/lib.rs: writing into a byte vector or slice, and integers as bytes, on a machine whose
-- own order is the little end first. A slice keeps its length, a vector does not.
pub mod Write
pub mod Integers
mod Tests
use aion_utils.Prelude.{
  ℕ, zero, suc, ◌+◌, ◌-◌, ◌*◌, ◌/◌, ◌%◌, ◌^◌, Bool, true, false, List, [], ◌∷◌, ◌++◌, ltb,
  if◌then◌else◌, length, take, drop, set, replicate, Run, Outcome, ok, panic, ◌>>=◌, map_ok, index,
  min,
}
use aion_utils.Prelude.Words.{big_endian}

pub data BytesRef : Type 0 where
  flexible : List ℕ → BytesRef
  fixed : List ℕ → BytesRef

-- `Deref`
unfoldable pub contents : BytesRef → List ℕ
contents (flexible bytes) = bytes
contents (fixed bytes) = bytes

-- `Vec::resize`
abbrev pub resize : List ℕ → ℕ → ℕ → List ℕ
resize bytes n v = take n bytes ++ replicate (n - length bytes) v

-- `data[offset + i] = input[i]` for `i` on; both indices panic out of range.
unfoldable pub copy_from : List ℕ → ℕ → List ℕ → ℕ → ℕ → Run (List ℕ)
copy_from bytes offset input zero i = ok bytes
copy_from bytes offset input (suc rounds) i = do
  v ← index input i
  stored ← if ltb (offset + i) (length bytes) then ok (set bytes (offset + i) v) else panic
  copy_from stored offset input rounds (i + 1)

unfoldable pub write : BytesRef → ℕ → List ℕ → Run (ℕ × BytesRef)
write (flexible bytes) offset input =
    let wrote = length input + (if ltb offset (length bytes) then 0 else offset - length bytes) in
    ok (wrote, flexible (resize bytes offset 0 ++ input))
write (fixed bytes) offset input =
    let count = min (length bytes - offset) (length input) in
    if ltb offset (length bytes)
    then map_ok (λ b. (count, fixed b)) (copy_from bytes offset input count 0)
    else ok (0, fixed bytes)

-- `transmute(i.to_be())` of a `u64`, or of the bits of an `i64`.
abbrev pub u64_to_bytes : ℕ → List ℕ
u64_to_bytes i = big_endian 8 i

unfoldable pub little_endian : ℕ → ℕ → List ℕ
little_endian zero i = []
little_endian (suc k) i = (i % 256) ∷ little_endian k (i / 256)

-- `transmute(i)` and `transmute(i.to_le())` of the bits of an `i32`.
abbrev pub i32_to_bytes : ℕ → List ℕ
i32_to_bytes i = little_endian 4 i

-- `CHARS[n]`, the character's code.
abbrev pub hex_char : ℕ → ℕ
hex_char n = if ltb n 10 then 48 + n else 87 + n

unfoldable pub to_hex : List ℕ → List ℕ
to_hex [] = []
to_hex (byte ∷ bytes) = hex_char (byte / 16) ∷ hex_char (byte % 16) ∷ to_hex bytes

-- The four shifted bytes lie in different bits, so `|=` adds them.
abbrev pub word : Bool → ℕ → ℕ → ℕ → ℕ → ℕ
word big a b c d =
    if big then a * 2 ^ 24 + b * 2 ^ 16 + c * 2 ^ 8 + d else a + b * 2 ^ 8 + c * 2 ^ 16 + d * 2 ^ 24

-- The loop of `bytes_to_i32s`, over the words of the output that are left.
unfoldable pub words_from : Bool → List ℕ → ℕ → ℕ → Run (List ℕ)
words_from big input zero off = ok []
words_from big input (suc words) off = do
  a ← index input off
  b ← index input (off + 1)
  c ← index input (off + 2)
  d ← index input (off + 3)
  map_ok (λ ws. word big a b c d ∷ ws) (words_from big input words (off + 4))

-- The output's own words are all overwritten.
unfoldable pub bytes_to_i32s : List ℕ → List ℕ → Bool → Run (List ℕ)
bytes_to_i32s input output big = words_from big input (length output) 0
