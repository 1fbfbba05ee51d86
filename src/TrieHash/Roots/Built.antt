-- ===== src/TrieHash/Roots/Built.antt =====
-- triehash on the sorted pairs of a trie, against the encoding of the trie's nodes.
use aion_utils.Prelude.{
  ℕ, zero, suc, ◌+◌, ◌^◌, ◌<◌, ◌≡◌, refl, ap, sym, Bool, true, false, List, [], ◌∷◌, ◌++◌, ltb,
  arith, Bool-cases, inl, inr, length, length-append, ok, All, All-parts, append_assoc, append-nil,
}
use mathlib.Core.Path.{subst}
use aion_utils.Rlp.Stream.{new, begin_list, append, append_value, append_empty_data, out}
use aion_utils.Rlp.Stream.Lists.{stream}
use aion_utils.Rlp.Format.{str, encode_item, encode_items, encode_items-cons, encode_items-nil}
use aion_utils.Trie.NibbleSlice.Encode.{hex_prefix}
use aion_utils.Trie.Mutable.Shape.{
  Tree, tip, path, fork, Forest, nil, gap, grow, slots, IsTrie, IsForest,
}
use aion_utils.Trie.Mutable.Commit.{Digest}
use aion_utils.Trie.Mutable.Commit.Items.{
  value_item, referred, node_item, place_items, IsSmall, AreSmall, encode_item-two, two-fits,
  snoc-fits,
}
use aion_utils.Trie.Mutable.Commit.Writes.{
  opened, Writes, value-Writes, empty-Writes, raw-Writes, written_open, written_last,
}
use aion_utils.TrieHash.Nibbles.{hex_prefix_encode-hex_prefix}
use aion_utils.TrieHash.Roots.{
  Pair, aux_over, append_places, rlp_over, hash256rlp, nibble_count, gen_trie_root,
}
use aion_utils.TrieHash.Roots.Pairs.{
  own_pair, pairs_of, pairs_in, Under, All_map, pairs_of-Under, count_next-grow, count_next-gap,
}
use aion_utils.TrieHash.Roots.Branches.{First, pairs_of-First, fork-Branches}
use aion_utils.TrieHash.Roots.Written.{
  slice_end, extension_over, branch_over, run_length-part, run_length-none, append_place-part,
}

abbrev Within : ℕ → List Pair → Type 0
Within n pairs = All (λ p. length (p.0) < n) pairs

module _ (digest : Digest) where
  -- What is written of a node is its encoding.
  abbrev Encodes : ℕ → List ℕ → Tree → Type 0
  Encodes fuel pre t =
      hash256rlp digest fuel (pairs_of pre t) (length pre) new
      ≡ ok (stream [] (encode_item (node_item digest t)) true)

  aux-Writes :
      (fuel : ℕ) (pre : List ℕ) (t : Tree)
      → Encodes fuel pre t
      → length (encode_item (referred digest (node_item digest t))) < 2 ^ 32
      → Writes
          (aux_over digest (hash256rlp digest fuel) (pairs_of pre t) (length pre))
          (encode_item (referred digest (node_item digest t)))
  unfolding out
  aux-Writes fuel pre t run small s =
      let bytes = encode_item (node_item digest t) in
      elim (Bool-cases (ltb (length bytes) 32)) [
        | inl short ↦ rw (run, short) (raw-Writes bytes s)
        | inr long ↦
            let fits : length (encode_item (str (digest bytes))) < 2 ^ 32 = rw long at small in
            rw (run, long) (value-Writes (digest bytes) fits s)
      ]

  out_of_fuel : (pre : List ℕ) (t : Tree) → IsTrie t → Within (0 + length pre) (pairs_of pre t) → ⊥
  out_of_fuel pre t h w =
      let (p, rest, e) = pairs_of-First pre t h in
      let (under, _) = subst (All (Under pre)) e (pairs_of-Under pre t) in
      let (short, _) = subst (Within (0 + length pre)) e w in
      omega (arith, ap length (under.1), length-append pre (under.0))

  length_pos : (pairs : List Pair) → First pairs → 0 < length pairs
  length_pos pairs (p, rest, e) = omega (arith, ap length e)

  mutual
    unfolding hash256rlp append_places node_item pairs_of IsSmall IsTrie slots begin_list rlp_over

    encodes :
        (fuel : ℕ) (t : Tree) (pre : List ℕ)
        → IsTrie t
        → IsSmall digest t
        → Within (fuel + length pre) (pairs_of pre t)
        → Encodes fuel pre t
    encodes zero t pre ht hs w = absurd (out_of_fuel pre t ht w)
    encodes (suc fuel) (tip ks v) pre ht hs w =
        let key = hex_prefix ks true in
        let (fits, fits', both) = two-fits (str key) (str v) hs in
        let a = encode_item (str key) in
        rw
          (
            slice_end pre ks,
            hex_prefix_encode-hex_prefix ks true ht,
            written_open (append (append_value key)) a (value-Writes key fits) 2 0 [] false
                (omega arith) (omega arith),
            written_last (append (append_value v)) (encode_item (str v)) (value-Writes v fits') 2 1
                a false refl (omega arith) both,
          )
          (ap (λ x. ok (stream [] x true)) (sym (encode_item-two (str key) (str v))))
    encodes (suc fuel) (path ks (tip js v)) pre (hk, long, hf, ht) hs w = absurd hf
    encodes (suc fuel) (path ks (path js t)) pre (hk, long, hf, ht) hs w = absurd hf
    encodes (suc fuel) (path ks (fork f v)) pre (hk, long, hf, ht) (hs, hs') w =
        let q = pre ++ ks in
        let aux = aux_over digest (hash256rlp digest fuel) in
        let below = referred digest (node_item digest (fork f v)) in
        let b = fork-Branches q f v ht in
        let (fits, fits', both) = two-fits (str (hex_prefix ks false)) below hs in
        let (under, _) = subst (All (Under q)) b.pairs (pairs_of-Under q (fork f v)) in
        let deeper : Within (fuel + length q) (pairs_of q (fork f v)) =
          All_map (λ p. length (p.0) < suc fuel + length pre) (λ p. length (p.0) < fuel + length q)
            (pairs_of q (fork f v)) (λ p h. omega (arith, h, length-append pre ks)) w in
        let writes = aux-Writes fuel q (fork f v) (encodes fuel (fork f v) q ht hs' deeper) fits' in
        subst
          (λ l.
            rlp_over aux l (length pre) new
            ≡ ok (stream [] (encode_item (node_item digest (path ks (fork f v)))) true))
          (sym b.pairs)
          (extension_over aux b.first b.second b.rest pre ks (under.0) below hk long (under.1)
            b.shares hs (subst (λ l. Writes (aux l (length q)) (encode_item below)) b.pairs writes))
    encodes (suc fuel) (fork f v) pre (hf, sixteen, many) (hs, hs') w =
        let aux = aux_over digest (hash256rlp digest fuel) in
        let xs = place_items digest f in
        let b = fork-Branches pre f v (hf, sixteen, many) in
        let (fits, fits', both) = snoc-fits xs (value_item v) hs in
        let (own, others) =
          All-parts (λ p. length (p.0) < suc fuel + length pre) (own_pair pre v) (pairs_in pre 0 f)
            w in
        let (fin, run) =
          encodes_all fuel f pre 0 (own_pair pre v) 0 [] false hf hs' others (omega arith) fits in
        let all : 0 + slots f ≡ 16 = omega arith in
        let run' : append_places aux (own_pair pre v ++ pairs_in pre 0 f) (length pre) 16 0
              (length (own_pair pre v)) (opened 17 0 [] false)
            ≡ ok (opened 17 16 (encode_items xs) fin) =
          rw (all, sixteen) at run in
        subst
          (λ l.
            rlp_over aux l (length pre) new
            ≡ ok (stream [] (encode_item (node_item digest (fork f v))) true))
          (sym b.pairs)
          (branch_over aux b.first b.second b.rest pre v xs fin b.value b.no_value b.shares hs (
            subst
              (λ l.
                append_places aux l (length pre) 16 0 (length (own_pair pre v))
                  (opened 17 0 [] false)
                ≡ ok (opened 17 16 (encode_items xs) fin))
              b.pairs run'))

    encodes_all :
        (fuel : ℕ) (f : Forest) (pre : List ℕ) (i : ℕ) (front : List Pair) (c : ℕ) (body : List ℕ)
        (fin : Bool)
        → IsForest f
        → AreSmall digest f
        → Within (suc fuel + length pre) (pairs_in pre i f)
        → c + slots f < 17
        → length (encode_items (place_items digest f)) < 2 ^ 32
        → (fin1 : Bool) × (append_places
              (aux_over digest (hash256rlp digest fuel))
              (front ++ pairs_in pre i f)
              (length pre)
              (slots f)
              i
              (length front)
              (opened 17 c body fin)
            ≡ ok (opened 17 (c + slots f) (body ++ encode_items (place_items digest f)) fin1))
    encodes_all fuel nil pre i front c body fin hf hs w room fits =
        let here : c + 0 ≡ c = omega arith in
        (fin, rw (here, encode_items-nil, append-nil body) refl)
    encodes_all fuel (gap f) pre i front c body fin hf hs w room fits =
        let x = encode_item (str []) in
        let size = ap length (encode_items-cons (str []) (place_items digest f)) in
        let sum = length-append x (encode_items (place_items digest f)) in
        let (fin1, run) =
          encodes_all fuel f pre (suc i) front (c + 1) (body ++ x) false hf hs w (omega arith)
            (omega arith) in
        let on : c + suc (slots f) ≡ (c + 1) + slots f = omega arith in
        let next : i + 1 ≡ suc i = omega arith in
        let stays : length front + 0 ≡ length front = omega arith in
        let none_here =
          run_length-none front (pairs_in pre (suc i) f) (length pre) i (count_next-gap pre i f) in
        (
          fin1,
          rw
              (
                none_here,
                written_open append_empty_data x empty-Writes 17 c body fin (omega arith)
                    (omega arith),
                next,
                stays,
                run,
                on,
                encode_items-cons (str []) (place_items digest f),
                append_assoc body x (encode_items (place_items digest f)),
              )
              refl,
        )
    encodes_all fuel (grow t f) pre i front c body fin (ht, hf) (hs, hs') w room fits =
        let below = referred digest (node_item digest t) in
        let x = encode_item below in
        let q = pre ++ (i ∷ []) in
        let part = pairs_of q t in
        let back = pairs_in pre (suc i) f in
        let aux = aux_over digest (hash256rlp digest fuel) in
        let size = ap length (encode_items-cons below (place_items digest f)) in
        let sum = length-append x (encode_items (place_items digest f)) in
        let one_more = length-append pre (i ∷ []) in
        let (here, others) = All-parts (λ p. length (p.0) < suc fuel + length pre) part back w in
        let within : Within (fuel + length q) part =
          All_map (λ p. length (p.0) < suc fuel + length pre) (λ p. length (p.0) < fuel + length q)
            part (λ p h. omega (arith, h)) here in
        let writes = aux-Writes fuel q t (encodes fuel t q ht hs within) (omega arith) in
        let pos = length_pos part (pairs_of-First q t ht) in
        let (fin1, run) =
          encodes_all fuel f pre (suc i) (front ++ part) (c + 1) (body ++ x) false hf hs' others
            (omega arith) (omega arith) in
        let run' : append_places aux (front ++ (part ++ back)) (length pre) (slots f) (suc i)
              (length front + length part) (opened 17 (c + 1) (body ++ x) false)
            ≡ ok (
                opened 17 ((c + 1) + slots f) ((body ++ x) ++ encode_items (place_items digest f))
                  fin1) =
          rw (append_assoc front part back, length-append front part) at run in
        let on : c + suc (slots f) ≡ (c + 1) + slots f = omega arith in
        let next : i + 1 ≡ suc i = omega arith in
        let down : length pre + 1 ≡ length q = omega arith in
        (
          fin1,
          rw
              (
                run_length-part front part back (length pre) i pos (count_next-grow pre i t f),
                append_place-part aux front part back (length pre) pos (opened 17 c body fin),
                down,
                written_open (aux part (length q)) x writes 17 c body fin (omega arith)
                    (omega arith),
                next,
                run',
                on,
                encode_items-cons below (place_items digest f),
                append_assoc body x (encode_items (place_items digest f)),
              )
              refl,
        )

nibble_count-Within : (pairs : List Pair) → Within (suc (nibble_count pairs)) pairs
nibble_count-Within [] = tt
nibble_count-Within (p ∷ pairs) = (
  omega arith,
  All_map (λ q. length (q.0) < suc (nibble_count pairs))
      (λ q. length (q.0) < suc (length (p.0) + nibble_count pairs)) pairs (λ q h. omega (arith, h))
      (nibble_count-Within pairs),
)

-- The root hash that triehash computes from the sorted pairs of a canonical trie, no node of which is
-- encoded in 2 ^ 32 bytes or more: the hash of the root node's encoding.
pub gen_trie_root-node_item :
    (digest : Digest) (t : Tree)
    → IsTrie t
    → IsSmall digest t
    → gen_trie_root digest (pairs_of [] t) ≡ ok (digest (encode_item (node_item digest t)))
unfolding gen_trie_root out
gen_trie_root-node_item digest t ht hs =
    let fuel : suc (nibble_count (pairs_of [] t)) + 0 ≡ suc (nibble_count (pairs_of [] t)) =
      omega arith in
    let w =
      subst (λ n. Within n (pairs_of [] t)) (sym fuel) (nibble_count-Within (pairs_of [] t)) in
    rw (encodes digest (suc (nibble_count (pairs_of [] t))) t [] ht hs w) refl
