-- ===== src/Trie/Node.antt =====
-- patricia_trie/src/node.rs: a node of the trie as it is stored, `Node::decoded` and `Node::encoded`.
pub mod Pairs
pub mod Branches
pub mod Places
use aion_utils.Prelude.{
  ℕ, zero, suc, ◌+◌, Bool, true, false, Option, none, some, List, [], ◌∷◌, ◌==◌, if◌then◌else◌, ok,
  panic, ◌>>=◌, map_ok, Run, lift_run,
}
use aion_utils.Rlp.Error.{Result}
use aion_utils.Rlp.Untrusted
use aion_utils.Rlp.Untrusted.{UntrustedRlp, Prototype, null, data_of, list_of}
use aion_utils.Rlp.Trusted.{trusted_prototype, trusted_data, trusted_at}
use aion_utils.Rlp.Stream.{
  RlpStream, new, new_list, append, append_value, append_empty_data, append_raw, out,
}
use aion_utils.Trie.NibbleSlice
use aion_utils.Trie.NibbleSlice.{NibbleSlice, from_encoded}

pub data Node : Type 0 where
  empty : Node
  leaf : NibbleSlice → List ℕ → Node
  extension : NibbleSlice → List ℕ → Node
  branch : List (List ℕ) → Option (List ℕ) → Node

-- `Prototype::List(2)`
unfoldable pub decoded_pair : UntrustedRlp → Run Node
decoded_pair r = do
  (r1, first) ← trusted_at r 0
  key ← trusted_data first
  (slice, is_leaf) ← from_encoded key
  (r2, second) ← trusted_at r1 1
  if is_leaf
      then map_ok (λ value. leaf slice value) (trusted_data second)
      else ok (extension slice second.bytes)

-- The loop over the children from index `i` on.
unfoldable pub children_from : ℕ → ℕ → UntrustedRlp → Run (UntrustedRlp × List (List ℕ))
children_from zero i r = ok (r, [])
children_from (suc n) i r = do
  (r1, child) ← trusted_at r i
  (r2, rest) ← children_from n (i + 1) r1
  ok (r2, child.bytes ∷ rest)

-- `Prototype::List(17)`
unfoldable pub decoded_branch : UntrustedRlp → Run Node
decoded_branch r = do
  (r1, nodes) ← children_from 16 0 r
  (r2, last) ← trusted_at r1 16
  if Untrusted.is_empty last then ok (branch nodes none) else (do
    (r3, again) ← trusted_at r2 16
    map_ok (λ value. branch nodes (some value)) (trusted_data again))

unfoldable pub decoded_as : UntrustedRlp → Prototype → Run Node
decoded_as r (list_of n) =
    if n == 2 then decoded_pair r else (if n == 17 then decoded_branch r else panic)
decoded_as r (data_of n) = if n == 0 then ok empty else panic
decoded_as r null = panic

unfoldable pub decoded : List ℕ → Run Node
decoded node_rlp = do (r, p) ← trusted_prototype (Untrusted.new node_rlp); decoded_as r p

abbrev pub append_nodes : List (List ℕ) → RlpStream → Result RlpStream
append_nodes [] s = ok s
append_nodes (raw ∷ nodes) s = do t ← append_raw raw 1 s; append_nodes nodes t

abbrev pub append_optional : Option (List ℕ) → RlpStream → Result RlpStream
append_optional none s = append_empty_data s
append_optional (some value) s = append (append_value value) s

unfoldable pub encoded : Node → Result (List ℕ)
encoded empty = append_empty_data new >>= out
encoded (leaf slice value) = do
  s ← new_list 2
  key ← lift_run (NibbleSlice.encoded slice true)
  s1 ← append (append_value key) s
  s2 ← append (append_value value) s1
  out s2
encoded (extension slice raw_rlp) = do
  s ← new_list 2
  key ← lift_run (NibbleSlice.encoded slice false)
  s1 ← append (append_value key) s
  s2 ← append_raw raw_rlp 1 s1
  out s2
encoded (branch nodes value) = do
  s ← new_list 17
  s1 ← append_nodes nodes s
  s2 ← append_optional value s1
  out s2
