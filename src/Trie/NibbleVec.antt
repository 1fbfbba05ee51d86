-- ===== src/Trie/NibbleVec.antt =====
-- patricia_trie/src/nibblevec.rs: a growing list of nibbles, two to a byte.
pub mod Nibbles
pub mod Slices
use aion_utils.Prelude.{
  ℕ, zero, suc, ◌+◌, ◌-◌, ◌*◌, ◌/◌, ◌%◌, Bool, true, false, Option, none, some, List, [], ◌∷◌, ◌++◌,
  ◌==◌, if◌then◌else◌, Run, Outcome, ok, ◌>>=◌, map_ok, index, expect, bit_or, length,
}
use aion_utils.Trie.NibbleSlice.{NibbleSlice}
use aion_utils.Trie.NibbleSlice

pub record NibbleVec : Type 0 where
  pub inner : List ℕ
  pub len : ℕ

-- `ElasticArray36::pop`: the last element and what stands before it.
unfoldable pub pop_back : List ℕ → Option (ℕ × List ℕ)
pop_back [] = none
pop_back (x ∷ xs) = elim (pop_back xs) [
  | none ↦ some (x, [])
  | some (last, front) ↦ some (last, x ∷ front)
]

abbrev pub new : NibbleVec
new = record { inner = []; len = 0 }

abbrev pub is_empty : NibbleVec → Bool
is_empty v = v.len == 0

-- `>> 4` is `/ 16`, and `& 0x0F` is `% 16`.
unfoldable pub at : NibbleVec → ℕ → Run ℕ
at v idx =
    if idx % 2 == 0
    then map_ok (λ b. b / 16) (index v.inner (idx / 2))
    else map_ok (λ b. b % 16) (index v.inner (idx / 2))

-- `*inner.last_mut().expect(..) |= nibble`
abbrev pub or_last : List ℕ → ℕ → Run (List ℕ)
or_last inner nibble = do
  (last, front) ← expect (pop_back inner)
  ok (front ++ (bit_or last nibble ∷ []))

unfoldable pub push : NibbleVec → ℕ → Run NibbleVec
push v byte =
    let nibble = byte % 16 in
    map_ok (λ inner. record { inner = inner; len = v.len + 1 })
      (if v.len % 2 == 0
        then ok (v.inner ++ ((nibble * 16 % 256) ∷ []))
        else or_last v.inner nibble)

-- `byte & 0xF0` is `byte / 16 * 16`.
unfoldable pub pop : NibbleVec → Run (Option ℕ × NibbleVec)
pop v = if is_empty v then ok (none, v) else (do
  (byte, front) ← expect (pop_back v.inner)
  ok (
      if v.len % 2 == 0
      then (some (byte % 16), record { inner = front ++ ((byte / 16 * 16) ∷ []); len = v.len - 1 })
      else (some (byte / 16), record { inner = front; len = v.len - 1 })))

unfoldable pub as_nibbleslice : NibbleVec → Option NibbleSlice
as_nibbleslice v = if v.len % 2 == 0 then some (NibbleSlice.new v.inner) else none

-- The loop of `from`, over the positions from `i` on.
unfoldable pub push_from : NibbleSlice → ℕ → ℕ → NibbleVec → Run NibbleVec
push_from s zero i v = ok v
push_from s (suc rounds) i v = do n ← NibbleSlice.at s i; w ← push v n; push_from s rounds (i + 1) w

unfoldable pub from : NibbleSlice → Run NibbleVec
from s = push_from s (NibbleSlice.len s) 0 new
