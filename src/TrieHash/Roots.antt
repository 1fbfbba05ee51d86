-- ===== src/TrieHash/Roots.antt =====
-- triehash/src/lib.rs: the root hash of a trie from its sorted pairs, with the hash function as an
-- argument, and `BTreeMap::from_iter`, which sorts the pairs.
pub mod Pairs
pub mod Branches
pub mod Written
pub mod Built
pub mod Sorted
pub mod Listed
pub mod Same
mod Tests
use aion_utils.Prelude.{
  ℕ, zero, suc, ◌+◌, ◌*◌, Bool, true, false, List, [], ◌∷◌, ◌==◌, ltb, if◌then◌else◌, length, drop,
  map, Run, ok, panic, ◌>>=◌, index, slice, min, map_ok, lift_run,
}
use aion_utils.Rlp.Error.{Result}
use aion_utils.Rlp.Stream.{
  RlpStream, new, begin_list, append, append_value, append_empty_data, append_raw, out,
}
use aion_utils.Rlp.Impls.{usize_rlp_append}
use aion_utils.Trie.Mutable.Commit.{Digest}
use aion_utils.TrieHash.{shared_prefix_len, hex_prefix_encode, as_nibbles}

-- A key and its value.
abbrev pub Pair : Type 0
Pair = List ℕ × List ℕ

-- `take_while(|pair| pair.0[pre_len] == i).count()`
unfoldable pub count_next : ℕ → ℕ → List Pair → Run ℕ
count_next pre_len i [] = ok 0
count_next pre_len i (pair ∷ pairs) = do
  n ← index (pair.0) pre_len
  if n == i then map_ok suc (count_next pre_len i pairs) else ok 0

-- The fold over the pairs behind the first.
unfoldable pub least_shared : List ℕ → ℕ → List Pair → Run ℕ
least_shared key acc [] = ok acc
least_shared key acc (pair ∷ pairs) = do
  n ← shared_prefix_len key (pair.0)
  least_shared key (min n acc) pairs

-- `hash256aux`, over the call of `hash256rlp` that it makes.
abbrev pub aux_over :
    Digest
    → (List Pair → ℕ → RlpStream → Result RlpStream)
    → List Pair
    → ℕ
    → RlpStream
    → Result RlpStream
aux_over digest rlp input pre_len stream = do
  s ← rlp input pre_len new
  o ← out s
  if ltb (length o) 32 then append_raw o 1 stream else append (append_value (digest o)) stream

abbrev pub append_place :
    (List Pair → ℕ → RlpStream → Result RlpStream)
    → List Pair
    → ℕ
    → ℕ
    → ℕ
    → RlpStream
    → Result RlpStream
append_place aux input pre_len begin zero stream = append_empty_data stream
append_place aux input pre_len begin (suc len) stream = do
  part ← slice input begin (begin + suc len)
  aux part (pre_len + 1) stream

-- How many pairs from `begin` on have the nibble `i` next.
unfoldable pub run_length : List Pair → ℕ → ℕ → ℕ → Result ℕ
run_length input pre_len i begin =
    if ltb begin (length input) then lift_run (count_next pre_len i (drop begin input)) else ok 0

-- The loop over the nibbles from `i` on.
unfoldable pub append_places :
    (List Pair → ℕ → RlpStream → Result RlpStream)
    → List Pair
    → ℕ
    → ℕ
    → ℕ
    → ℕ
    → RlpStream
    → Result RlpStream
append_places aux input pre_len zero i begin stream = ok stream
append_places aux input pre_len (suc n) i begin stream = do
  len ← run_length input pre_len i begin
  s ← append_place aux input pre_len begin len stream
  append_places aux input pre_len n (i + 1) (begin + len) s

abbrev pub append_branch :
    (List Pair → ℕ → RlpStream → Result RlpStream)
    → List Pair
    → Pair
    → ℕ
    → RlpStream
    → Result RlpStream
append_branch aux input (key, value) pre_len stream = do
  s ← begin_list 17 stream
  s1 ← append_places aux input pre_len 16 0 (if pre_len == length key then 1 else 0) s
  if pre_len == length key then append (append_value value) s1 else append_empty_data s1

abbrev pub append_extension :
    (List Pair → ℕ → RlpStream → Result RlpStream)
    → List Pair
    → List ℕ
    → ℕ
    → ℕ
    → RlpStream
    → Result RlpStream
append_extension aux input key pre_len shared_prefix stream = do
  s ← begin_list 2 stream
  part ← slice key pre_len shared_prefix
  bytes ← lift_run (hex_prefix_encode part false)
  s1 ← append (append_value bytes) s
  aux input shared_prefix s1

-- One call of `hash256rlp`.
unfoldable pub rlp_over :
    (List Pair → ℕ → RlpStream → Result RlpStream) → List Pair → ℕ → RlpStream → Result RlpStream
rlp_over aux [] pre_len stream = append_empty_data stream
rlp_over aux ((key, value) ∷ []) pre_len stream = do
  s ← begin_list 2 stream
  part ← slice key pre_len (length key)
  bytes ← lift_run (hex_prefix_encode part true)
  s1 ← append (append_value bytes) s
  append (append_value value) s1
rlp_over aux (first ∷ second ∷ pairs) pre_len stream = do
  shared_prefix ← lift_run (least_shared (first.0) (length (first.0)) (second ∷ pairs))
  if ltb pre_len shared_prefix
      then append_extension aux (first ∷ second ∷ pairs) (first.0) pre_len shared_prefix stream
      else append_branch aux (first ∷ second ∷ pairs) first pre_len stream

-- On fuel: each call takes a nibble of the keys at least.
unfoldable pub hash256rlp : Digest → ℕ → List Pair → ℕ → RlpStream → Result RlpStream
hash256rlp digest zero input pre_len stream = panic
hash256rlp digest (suc fuel) input pre_len stream =
    rlp_over (aux_over digest (hash256rlp digest fuel)) input pre_len stream

abbrev pub nibble_count : List Pair → ℕ
nibble_count [] = 0
nibble_count (pair ∷ pairs) = length (pair.0) + nibble_count pairs

unfoldable pub gen_trie_root : Digest → List Pair → Result (List ℕ)
gen_trie_root digest input = do
  s ← hash256rlp digest (suc (nibble_count input)) input 0 new
  o ← out s
  ok (digest o)

-- The order of byte strings.
unfoldable pub before : List ℕ → List ℕ → Bool
before [] [] = false
before [] (y ∷ ys) = true
before (x ∷ xs) [] = false
before (x ∷ xs) (y ∷ ys) = if x == y then before xs ys else ltb x y

-- `BTreeMap::insert`: a later value replaces an earlier one.
unfoldable pub map_insert : Pair → List Pair → List Pair
map_insert pair [] = pair ∷ []
map_insert pair (other ∷ pairs) =
    if before (pair.0) (other.0)
    then pair ∷ other ∷ pairs
    else if before (other.0) (pair.0)
    then other ∷ map_insert pair pairs
    else pair ∷ pairs

unfoldable pub map_of : List Pair → List Pair → List Pair
map_of [] acc = acc
map_of (pair ∷ pairs) acc = map_of pairs (map_insert pair acc)

abbrev pub by_nibbles : Pair → Pair
by_nibbles (key, value) = (as_nibbles key, value)

unfoldable pub trie_root : Digest → List Pair → Result (List ℕ)
trie_root digest input = gen_trie_root digest (map by_nibbles (map_of input []))

abbrev pub hashed_key : Digest → Pair → Pair
hashed_key digest (key, value) = (digest key, value)

unfoldable pub sec_trie_root : Digest → List Pair → Result (List ℕ)
sec_trie_root digest input =
    gen_trie_root digest (map by_nibbles (map_of (map (hashed_key digest) input) []))

-- `enumerate`, with `rlp::encode` of each index, from index `i` on.
unfoldable pub numbered : ℕ → List (List ℕ) → Result (List Pair)
numbered i [] = ok []
numbered i (value ∷ values) = do
  s ← append (usize_rlp_append i) new
  key ← out s
  pairs ← numbered (i + 1) values
  ok ((key, value) ∷ pairs)

unfoldable pub ordered_trie_root : Digest → List (List ℕ) → Result (List ℕ)
ordered_trie_root digest input = do
  pairs ← numbered 0 input
  gen_trie_root digest (map by_nibbles (map_of pairs []))
