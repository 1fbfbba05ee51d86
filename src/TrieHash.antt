-- ===== src/TrieHash.antt =====
-- triehash/src/lib.rs: the root hash of a trie, computed without building the trie.
pub mod Nibbles
pub mod Roots
use aion_utils.Prelude.{
  ℕ, zero, suc, ◌+◌, ◌-◌, ◌*◌, ◌/◌, ◌%◌, Bool, true, false, List, [], ◌∷◌, ◌++◌, ◌==◌,
  if◌then◌else◌, length, Run, Outcome, ok, err, panic, ◌>>=◌, index, min, map_ok,
}

-- The count of the positions from `i` on, out of so many, at which the lists agree, up to the first
-- at which they do not.
unfoldable pub agree_from : List ℕ → List ℕ → ℕ → ℕ → Run ℕ
agree_from first second zero i = ok 0
agree_from first second (suc positions) i = do
  a ← index first i
  b ← index second i
  if a == b then map_ok suc (agree_from first second positions (i + 1)) else ok 0

unfoldable pub shared_prefix_len : List ℕ → List ℕ → Run ℕ
shared_prefix_len first second = agree_from first second (min (length first) (length second)) 0

-- `((inlen as u8 & 1) + (2 * leaf as u8)) << 4`
abbrev pub flag_bits : ℕ → Bool → ℕ
flag_bits inlen leaf = (inlen % 256 % 2 + 2 * (if leaf then 1 else 0)) * 16 % 256

-- The loop from `offset` on, where `inlen - offset` is twice the rounds; `u8` sums wrap.
unfoldable pub hex_loop : List ℕ → ℕ → ℕ → List ℕ → Run (List ℕ)
hex_loop nibbles zero offset res = ok res
hex_loop nibbles (suc rounds) offset res = do
  a ← index nibbles offset
  b ← index nibbles (offset + 1)
  hex_loop nibbles rounds (offset + 2) (res ++ (((a * 16 % 256 + b) % 256) ∷ []))

unfoldable pub hex_prefix_encode : List ℕ → Bool → Run (List ℕ)
hex_prefix_encode nibbles leaf = do
  let inlen = length nibbles
  let bits = flag_bits inlen leaf
  first_byte ← if inlen % 2 == 1 then map_ok (λ n. (bits + n) % 256) (index nibbles 0) else ok bits
  hex_loop nibbles (inlen / 2) (inlen % 2) (first_byte ∷ [])

-- The loop of `as_nibbles`, on the bytes that are left.
unfoldable pub nibbles_loop : List ℕ → List ℕ → List ℕ
nibbles_loop [] res = res
nibbles_loop (byte ∷ bytes) res =
    nibbles_loop bytes ((res ++ ((byte / 16) ∷ [])) ++ ((byte % 16) ∷ []))

unfoldable pub as_nibbles : List ℕ → List ℕ
as_nibbles bytes = nibbles_loop bytes []
