-- ===== src/Trie/NibbleSlice.antt =====
-- patricia_trie/src/nibbleslice.rs: a view of a byte string by nibbles, from an offset on, that
-- another one may follow. The length takes offsets for no more than twice the bytes.
pub mod View
pub mod Compare
pub mod Encode
pub mod RoundTrip
pub mod Own
pub mod Fronts
use aion_utils.Prelude.{
  ℕ, zero, suc, ◌+◌, ◌-◌, ◌*◌, ◌/◌, ◌%◌, ◌≤◌, Bool, true, false, ◌&&◌, List, [], ◌∷◌, ◌++◌, ltb,
  leb, Option, none, some, ◌==◌, if◌then◌else◌, length, Run, Outcome, ok, err, panic, ◌>>=◌, map_ok,
  index, min,
}
use aion_utils.Trie.Nibbles.{nibble_at}
use Prim.Native.Nat.{compare, Ordering}

pub record NibbleSlice : Type 0 where
  pub own_data : List ℕ
  pub offset : ℕ
  pub data_encode_suffix : List ℕ
  pub offset_encode_suffix : ℕ

abbrev pub new_offset : List ℕ → ℕ → NibbleSlice
new_offset bytes offset = record {
  own_data = bytes;
  offset = offset;
  data_encode_suffix = [];
  offset_encode_suffix = 0;
}

abbrev pub new : List ℕ → NibbleSlice
new bytes = new_offset bytes 0

abbrev pub new_composed : NibbleSlice → NibbleSlice → NibbleSlice
new_composed a b = record {
  own_data = a.own_data;
  offset = a.offset;
  data_encode_suffix = b.own_data;
  offset_encode_suffix = b.offset;
}

-- `data[0] & 16 == 16` is bit 4 of the byte, and `data[0] & 32 == 32` is bit 5.
unfoldable pub from_encoded : List ℕ → Run (NibbleSlice × Bool)
from_encoded bytes = do
  flags ← index bytes 0
  ok (new_offset bytes (if flags / 16 % 2 == 1 then 1 else 2), flags / 32 % 2 == 1)

unfoldable pub len : NibbleSlice → ℕ
len s = (length s.own_data + length s.data_encode_suffix) * 2 - s.offset - s.offset_encode_suffix

abbrev pub is_empty : NibbleSlice → Bool
is_empty s = len s == 0

unfoldable pub at : NibbleSlice → ℕ → Run ℕ
at s i =
    let l = length s.own_data * 2 - s.offset in
    if ltb i l
    then nibble_at s.own_data (s.offset + i)
    else nibble_at s.data_encode_suffix (s.offset_encode_suffix + (i - l))

unfoldable pub mid : NibbleSlice → ℕ → NibbleSlice
mid s i = record {
  own_data = s.own_data;
  offset = s.offset + i;
  data_encode_suffix = [];
  offset_encode_suffix = 0;
}

pub record NibbleSliceIterator : Type 0 where
  pub p : NibbleSlice
  pub i : ℕ

abbrev pub iter : NibbleSlice → NibbleSliceIterator
iter s = record { p = s; i = 0 }

unfoldable pub next : NibbleSliceIterator → Run (Option ℕ × NibbleSliceIterator)
next it =
    let moved = record it { i = it.i + 1 } in
    if leb moved.i (len it.p)
    then map_ok (λ n. (some n, moved)) (at it.p (moved.i - 1))
    else ok (none, moved)

-- The loop of `common_prefix` from position `i` on, with as many rounds as positions are left.
unfoldable pub prefix_loop : NibbleSlice → NibbleSlice → ℕ → ℕ → Run ℕ
prefix_loop s them zero i = ok i
prefix_loop s them (suc rounds) i = do
  a ← at s i
  b ← at them i
  if a == b then prefix_loop s them rounds (i + 1) else ok i

unfoldable pub common_prefix : NibbleSlice → NibbleSlice → Run ℕ
common_prefix s them = prefix_loop s them (min (len s) (len them)) 0

unfoldable pub starts_with : NibbleSlice → NibbleSlice → Run Bool
starts_with s them = map_ok (λ n. n == len them) (common_prefix s them)

-- `PartialEq`; `&&` does not look at the nibbles of slices of different length.
unfoldable pub eq : NibbleSlice → NibbleSlice → Run Bool
eq s them = if len s == len them then starts_with s them else ok false

-- The loop of `partial_cmp`: the nibbles in turn, then the lengths.
unfoldable pub cmp_loop : NibbleSlice → NibbleSlice → ℕ → ℕ → Run Ordering
cmp_loop s them zero i = ok (compare (len s) (len them))
cmp_loop s them (suc rounds) i = do
  a ← at s i
  b ← at them i
  elim (compare a b) [
    | Ordering.lt ↦ ok Ordering.lt
    | Ordering.gt ↦ ok Ordering.gt
    | Ordering.eq ↦ cmp_loop s them rounds (i + 1)
  ]

unfoldable pub partial_cmp : NibbleSlice → NibbleSlice → Run Ordering
partial_cmp s them = cmp_loop s them (min (len s) (len them)) 0

-- `while i < l { r.push(at(i) * 16 + at(i + 1)); i += 2 }`, where `l - i` is twice the rounds.
unfoldable pub encode_loop : NibbleSlice → ℕ → ℕ → List ℕ → Run (List ℕ)
encode_loop s zero i r = ok r
encode_loop s (suc rounds) i r = do
  a ← at s i
  b ← at s (i + 1)
  encode_loop s rounds (i + 2) (r ++ (((a * 16 + b) % 256) ∷ []))

-- The first byte: the flags, and the first nibble if there is an odd number of them.
abbrev pub encode_flags : NibbleSlice → ℕ → Bool → Run ℕ
encode_flags s odd is_leaf =
    map_ok (λ n. (n + (if is_leaf then 0x20 else 0)) % 256)
      (if odd == 1 then map_ok (λ n. 0x10 + n) (at s 0) else ok 0)

-- `encoded_leftmost`, of the first `l` nibbles; `encoded` is the same over all of them.
abbrev pub encode_first : NibbleSlice → ℕ → Bool → Run (List ℕ)
encode_first s l is_leaf = do
  first ← encode_flags s (l % 2) is_leaf
  encode_loop s (l / 2) (l % 2) (first ∷ [])

unfoldable pub encoded : NibbleSlice → Bool → Run (List ℕ)
encoded s is_leaf = encode_first s (len s) is_leaf

unfoldable pub encoded_leftmost : NibbleSlice → ℕ → Bool → Run (List ℕ)
encoded_leftmost s n is_leaf = encode_first s (min (len s) n) is_leaf
