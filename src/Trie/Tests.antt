-- ===== src/Trie/Tests.antt =====
-- Applications of the theorems on nibbles to concrete slices and vectors.
use aion_utils.Prelude.{List, ℕ, ◌≡◌, ◌↔◌, ◌>>=◌, true, [], ◌∷◌, ok, some, arith}
use aion_utils.Rlp.Format.{encode_item, str}
use aion_utils.Trie.Node.{leaf, extension}
use aion_utils.Trie.Node.Pairs.{Stores, decoded-encoded}
use aion_utils.Trie.NibbleSlice.{new}
use aion_utils.Trie.NibbleSlice.Own.{Views, new-Views}
use aion_utils.Trie.NibbleSlice.Encode.{pairs}
use aion_utils.Trie.Nibbles.{nibbles_of}
use aion_utils.Trie.NibbleSlice.{
  NibbleSlice, new_offset, new_composed, from_encoded, encoded, encoded_leftmost, eq, partial_cmp,
  mid,
}
use aion_utils.Trie.NibbleSlice.View.{nibbles, IsSlice, mid-nibbles}
use aion_utils.Trie.NibbleSlice.Compare.{lex, eq-nibbles, partial_cmp-lex}
use aion_utils.Trie.NibbleSlice.Encode.{hex_prefix, encoded_leftmost-hex_prefix}
use aion_utils.Trie.NibbleSlice.RoundTrip.{from_encoded-encoded}
use aion_utils.Trie.NibbleVec.{push, pop}
use aion_utils.Trie.NibbleVec.Nibbles.{vec_of, pop-push}
use aion_utils.TrieHash.{hex_prefix_encode}
use aion_utils.TrieHash.Nibbles.{hex_prefix_encode-encoded}

-- The nibbles 2, 3, 4, 5, 6, in two byte strings, and the same ones in one.
abbrev two_parts : NibbleSlice
two_parts = new_composed (new_offset (0x12 ∷ 0x34 ∷ []) 1) (new_offset (0x56 ∷ []) 0)

abbrev one_part : NibbleSlice
one_part = new_offset (0xf2 ∷ 0x34 ∷ 0x56 ∷ []) 1

two_parts-IsSlice : IsSlice two_parts
two_parts-IsSlice = record {
  own_bytes = (omega arith, (omega arith, tt));
  suffix_bytes = (omega arith, tt);
  own_offset = omega arith;
  suffix_offset = omega arith;
}

one_part-IsSlice : IsSlice one_part
one_part-IsSlice = record {
  own_bytes = (omega arith, (omega arith, (omega arith, tt)));
  suffix_bytes = tt;
  own_offset = omega arith;
  suffix_offset = omega arith;
}

from_encoded-encoded_example :
    (t : NibbleSlice) × ((encoded two_parts true >>= from_encoded) ≡ ok (t, true))
    × (nibbles t ≡ nibbles two_parts)
from_encoded-encoded_example = from_encoded-encoded two_parts true two_parts-IsSlice

eq-nibbles_example : (eq two_parts one_part ≡ ok true) ↔ (nibbles two_parts ≡ nibbles one_part)
eq-nibbles_example = eq-nibbles two_parts one_part two_parts-IsSlice one_part-IsSlice

partial_cmp-lex_example :
    partial_cmp two_parts one_part ≡ ok (lex (nibbles two_parts) (nibbles one_part))
partial_cmp-lex_example = partial_cmp-lex two_parts one_part two_parts-IsSlice one_part-IsSlice

encoded_leftmost-hex_prefix_example :
    encoded_leftmost two_parts 3 true ≡ ok (hex_prefix (2 ∷ 3 ∷ 4 ∷ []) true)
unfolding nibbles nibbles_of
encoded_leftmost-hex_prefix_example = encoded_leftmost-hex_prefix two_parts two_parts-IsSlice 3 true

mid-nibbles_example : nibbles (mid two_parts 1) ≡ 3 ∷ 4 ∷ []
unfolding nibbles_of
mid-nibbles_example = mid-nibbles two_parts 1

pop-push_example :
    (push (vec_of (1 ∷ 2 ∷ 3 ∷ [])) 0x4a >>= pop) ≡ ok (some 10, vec_of (1 ∷ 2 ∷ 3 ∷ []))
pop-push_example = pop-push (1 ∷ 2 ∷ 3 ∷ []) 0x4a (omega arith, (omega arith, (omega arith, tt)))

hex_prefix_encode-encoded_example :
    hex_prefix_encode (nibbles two_parts) true ≡ encoded two_parts true
hex_prefix_encode-encoded_example = hex_prefix_encode-encoded two_parts true two_parts-IsSlice

abbrev nibbles_of_one : List ℕ
nibbles_of_one = 1 ∷ 3 ∷ []

decoded-encoded_example :
    ((t : NibbleSlice) × Views t nibbles_of_one
      × Stores (leaf (new (0x13 ∷ [])) (7 ∷ [])) (leaf t (7 ∷ [])))
    × ((t : NibbleSlice) × Views t nibbles_of_one
        × Stores
            (extension (new (0x13 ∷ [])) (encode_item (str (7 ∷ []))))
            (extension t (encode_item (str (7 ∷ [])))))
unfolding nibbles_of encode_item hex_prefix pairs
decoded-encoded_example =
    decoded-encoded (new (0x13 ∷ [])) nibbles_of_one (7 ∷ []) (str (7 ∷ []))
      (new-Views (0x13 ∷ []) (omega arith, tt)) (omega arith) (omega arith)
