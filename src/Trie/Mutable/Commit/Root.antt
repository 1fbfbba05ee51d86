-- ===== src/Trie/Mutable/Commit/Root.antt =====
-- The root of a trie in memory: what `commit` writes, against the encoding of the trie's nodes.
use aion_utils.Prelude.{
  ℕ, suc, ◌+◌, ◌^◌, ◌<◌, ◌≡◌, refl, ap, sym, Bool, true, false, List, [], ◌++◌, arith, length,
  length-append, append_assoc, append-nil, ok,
}
use aion_utils.Rlp.Stream.{new_list, begin_list, append, append_value, append_empty_data, out}
use aion_utils.Rlp.Format.{str, encode_item, encode_items, encode_items-cons, encode_items-nil}
use aion_utils.Trie.NibbleSlice.Encode.{hex_prefix}
use aion_utils.Trie.Mutable.Shape.{
  Tree, tip, path, fork, Forest, gap, grow, node_of, children_of, slots, IsTrie, IsForest,
}
use aion_utils.Trie.Mutable.Commit.{Store, Digest, append_stored_value, into_rlp, commit_children}
use aion_utils.Trie.Mutable.Commit.Items.{
  value_item, referred, node_item, place_items, IsSmall, AreSmall, if_long, stored_below, stored_in,
  store_all, store_all-append, encode_item-two, encode_item-snoc, two-fits, snoc-fits,
}
use aion_utils.Trie.Mutable.Commit.Writes.{
  opened, value-Writes, empty-Writes, written_open, written_last, commit_node-Commits,
  value_item-Writes,
}

module _ (digest : Digest) where
  mutual
    unfolding into_rlp stored_below store_all node_item IsSmall IsTrie node_of new_list begin_list
        slots out

    encodes :
        (t : Tree) (st : Store)
        → IsTrie t
        → IsSmall digest t
        → into_rlp digest (node_of t) st
          ≡ ok (encode_item (node_item digest t), store_all digest (stored_below digest t) st)
    encodes (tip ks v) st ht hs =
        let key = hex_prefix ks true in
        let (fits, fits', both) = two-fits (str key) (str v) hs in
        let a = encode_item (str key) in
        rw
          (
            written_open (append (append_value key)) a (value-Writes key fits) 2 0 [] false
                (omega arith) (omega arith),
            written_last (append (append_value v)) (encode_item (str v)) (value-Writes v fits') 2 1
                a false refl (omega arith) both,
          )
          (ap (λ x. ok (x, st)) (sym (encode_item-two (str key) (str v))))
    encodes (path ks t) st (hk, long, hf, ht) (hs, hs') =
        let key = hex_prefix ks false in
        let below = referred digest (node_item digest t) in
        let (fits, fits', both) = two-fits (str key) below hs in
        let a = encode_item (str key) in
        let c = commit_node-Commits digest t st (encodes t st ht hs') fits' in
        rw
          (
            written_open (append (append_value key)) a (value-Writes key fits) 2 0 [] false
                (omega arith) (omega arith),
            c.runs (opened 2 1 a false),
            written_last c.write (encode_item below) c.writes 2 1 a false refl (omega arith) both,
          )
          (ap (λ x. ok (x, store_all digest (stored_below digest (path ks t)) st))
            (sym (encode_item-two (str key) below)))
    encodes (fork f w) st (hf, sixteen, hc) (hs, hs') =
        let xs = place_items digest f in
        let (fits, fits', both) = snoc-fits xs (value_item w) hs in
        let (fin, run) = encodes_all f st 0 [] false hf hs' (omega arith) fits in
        let all : 0 + slots f ≡ 16 = omega arith in
        rw
          (
            run,
            all,
            written_last (append_stored_value w) (encode_item (value_item w))
                (value_item-Writes w fits') 17 16 (encode_items xs) fin refl (omega arith) both,
          )
          (ap (λ x. ok (x, store_all digest (stored_in digest f) st))
            (sym (encode_item-snoc xs (value_item w))))

    encodes_all :
        (f : Forest) (st : Store) (c : ℕ) (body : List ℕ) (fin : Bool)
        → IsForest f
        → AreSmall digest f
        → c + slots f < 17
        → length (encode_items (place_items digest f)) < 2 ^ 32
        → (fin1 : Bool) × (commit_children digest (children_of f) st (opened 17 c body fin)
            ≡ ok (
              store_all digest (stored_in digest f) st,
              opened 17 (c + slots f) (body ++ encode_items (place_items digest f)) fin1,
            ))
    encodes_all Forest.nil st c body fin hf hs room fits =
        let here : c + 0 ≡ c = omega arith in
        (fin, rw (here, encode_items-nil, append-nil body) refl)
    encodes_all (gap f) st c body fin hf hs room fits =
        let x = encode_item (str []) in
        let size = ap length (encode_items-cons (str []) (place_items digest f)) in
        let sum = length-append x (encode_items (place_items digest f)) in
        let (fin1, run) =
          encodes_all f st (c + 1) (body ++ x) false hf hs (omega arith) (omega arith) in
        let on : c + suc (slots f) ≡ (c + 1) + slots f = omega arith in
        (
          fin1,
          rw
              (
                written_open append_empty_data x empty-Writes 17 c body fin (omega arith)
                    (omega arith),
                run,
                on,
                encode_items-cons (str []) (place_items digest f),
                append_assoc body x (encode_items (place_items digest f)),
              )
              refl,
        )
    encodes_all (grow t f) st c body fin (ht, hf) (hs, hs') room fits =
        let below = referred digest (node_item digest t) in
        let x = encode_item below in
        let size = ap length (encode_items-cons below (place_items digest f)) in
        let sum = length-append x (encode_items (place_items digest f)) in
        let n = commit_node-Commits digest t st (encodes t st ht hs) (omega arith) in
        let first = stored_below digest t ++ if_long (encode_item (node_item digest t)) in
        let (fin1, run) =
          encodes_all f (store_all digest first st) (c + 1) (body ++ x) false hf hs' (omega arith)
            (omega arith) in
        let on : c + suc (slots f) ≡ (c + 1) + slots f = omega arith in
        (
          fin1,
          rw
              (
                n.runs (opened 17 c body fin),
                written_open n.write x n.writes 17 c body fin (omega arith) (omega arith),
                run,
                on,
                encode_items-cons below (place_items digest f),
                append_assoc body x (encode_items (place_items digest f)),
                store_all-append digest first (stored_in digest f) st,
              )
              refl,
        )

-- `into_rlp` of a node of a trie in its canonical form whose nodes are small: the node's encoding, and
-- the store after the nodes below it were put into it.
pub into_rlp-encode_item :
    (digest : Digest) (t : Tree) (st : Store)
    → IsTrie t
    → IsSmall digest t
    → into_rlp digest (node_of t) st
      ≡ ok (encode_item (node_item digest t), store_all digest (stored_below digest t) st)
into_rlp-encode_item digest t st ht hs = encodes digest t st ht hs
