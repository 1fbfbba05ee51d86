-- ===== src/Rlp/Format/Navigate.antt =====
-- The reader on an encoded list: `at` finds each item, and fails behind the last one.
use aion_utils.Prelude.{
  ℕ, zero, suc, ◌-◌, ◌^◌, ◌≤◌, ◌<◌, ◌≡◌, refl, ap, List, [], ◌∷◌, ◌++◌, arith, length,
  length-append, ok, err, append_assoc, append-nil, drop-length_append, true, some, slice-ok, take,
  take-length_append,
}
use aion_utils.Rlp.Error.{DecoderError, rlp_is_too_short}
use aion_utils.Rlp.Header.{payload_info, payload_info_from}
use aion_utils.Rlp.Untrusted.{
  UntrustedRlp, new, consume_item, consume_items, consume_list_payload, is_list, found, at,
}
use aion_utils.Rlp.Untrusted.Cache.{IsCached, consume-ok, reach_anew, at_anew, at-anew}
use aion_utils.Rlp.Format.{
  Item, Items, str, lst, nil, cons, header, encode_item, encode_items, count, item_at, skip,
  encode_items-cons, length-encode_items-cons, encode_item-lst, encode_items-nil,
}
use aion_utils.Rlp.Format.Reading.{item_payload, payload_info-item, length-encode_item}
use aion_utils.Rlp.Format.Headers.{length-header}

consume_item-item :
    (x : Item) (rest : List ℕ)
    → length (encode_item x) < 2 ^ 64
    → consume_item (encode_item x ++ rest) ≡ ok rest
unfolding consume_item
consume_item-item x rest h =
    rw
      (
        payload_info-item x rest h,
        ← length-encode_item x,
        consume-ok (encode_item x ++ rest) (length (encode_item x))
            (omega (arith, length-append (encode_item x) rest)),
      )
      (ap ok (drop-length_append (encode_item x) rest))

consume_items-items :
    (k : ℕ) (xs : Items) (rest : List ℕ)
    → k ≤ count xs
    → length (encode_items xs) < 2 ^ 64
    → consume_items (encode_items xs ++ rest) k ≡ ok (encode_items (skip k xs) ++ rest)
unfolding consume_items count skip
consume_items-items zero xs rest h small = refl
consume_items-items (suc k) nil rest h small = absurd (omega arith)
consume_items-items (suc k) (cons x xs) rest h small =
    let sum = length-encode_items-cons x xs in
    rw
      (
        encode_items-cons x xs,
        append_assoc,
        consume_item-item x (encode_items xs ++ rest) (omega arith),
      )
      (consume_items-items k xs rest (omega arith) (omega arith))

-- Of the view of an encoded list: it is a list, and its payload is the items.
pub is_list-lst :
    (r : UntrustedRlp) (xs : Items) → r.bytes ≡ encode_item (lst xs) → is_list r ≡ true
unfolding is_list encode_item
is_list-lst r xs e = rw e (ground arith)

consume_list_payload-lst :
    (r : UntrustedRlp) (xs : Items)
    → r.bytes ≡ encode_item (lst xs)
    → length (encode_item (lst xs)) < 2 ^ 64
    → consume_list_payload r ≡ ok (encode_items xs)
unfolding consume_list_payload
consume_list_payload-lst r xs e small =
    let hd = header 0xc0 (length (encode_items xs)) in
    let info : payload_info (encode_item (lst xs)) ≡ ok (item_payload (lst xs)) =
      rw append-nil at (payload_info-item (lst xs) [] small) in
    rw (e, info)
      (rw
        (
          consume-ok (encode_item (lst xs)) (length hd)
              (omega (arith, length-encode_item (lst xs))),
          encode_item-lst xs,
        )
        (ap ok (drop-length_append hd (encode_items xs))))

reach_anew-lst :
    (r : UntrustedRlp) (xs : Items) (i : ℕ)
    → r.bytes ≡ encode_item (lst xs)
    → length (encode_item (lst xs)) < 2 ^ 64
    → i ≤ count xs
    → reach_anew r i ≡ ok (encode_items (skip i xs))
unfolding reach_anew
reach_anew-lst r xs i e small h =
    let payload_fits = length-encode_item (lst xs) in
    rw (consume_list_payload-lst r xs e small)
      (rw (append-nil, append-nil) at (consume_items-items i xs [] h (omega arith)))

pub skip-item_at :
    (xs : Items) (i : ℕ) (x : Item)
    → item_at xs i ≡ some x
    → (skip i xs ≡ cons x (skip (suc i) xs)) × (i < count xs)
unfolding item_at skip count
skip-item_at nil i x e = cc
skip-item_at (cons y xs) zero x e = (cc, omega arith)
skip-item_at (cons y xs) (suc i) x e = let (a, b) = skip-item_at xs i x e in (a, omega arith)

pub skip-count : (xs : Items) → skip (count xs) xs ≡ nil
unfolding skip count
skip-count nil = refl
skip-count (cons x xs) = skip-count xs

-- The view of the item at the front.
found-item :
    (x : Item) (rest : List ℕ)
    → length (encode_item x) < 2 ^ 64
    → found (encode_item x ++ rest) ≡ ok (new (encode_item x))
unfolding found
found-item x rest h =
    rw
      (
        payload_info-item x rest h,
        ← length-encode_item x,
        slice-ok {E = DecoderError} (encode_item x ++ rest) 0 (length (encode_item x)) (omega arith)
            (omega (arith, length-append (encode_item x) rest)),
        front,
      )
      refl
  where
    front : take (length (encode_item x) - 0) (encode_item x ++ rest) ≡ encode_item x
    front =
        let e : length (encode_item x) - 0 ≡ length (encode_item x) = omega arith in
        rw e (take-length_append (encode_item x) rest)

found-nil : found [] ≡ err rlp_is_too_short
unfolding found payload_info payload_info_from
found-nil = refl

-- An encoding takes a byte at least, so no list has more items than its encoding has bytes.
pub encode_item_pos : (x : Item) → 1 ≤ length (encode_item x)
encode_item_pos (str []) = rw length-encode_item (omega arith)
encode_item_pos (str (b ∷ [])) = rw length-encode_item (ground arith)
encode_item_pos (str (b ∷ c ∷ bs)) = rw length-encode_item (omega arith)
encode_item_pos (lst xs) =
    rw length-encode_item (ground (arith, length-header 0xc0 (length (encode_items xs))))

count-le : (xs : Items) → count xs ≤ length (encode_items xs)
unfolding count
count-le nil = omega arith
count-le (cons x xs) = omega (arith, count-le xs, encode_item_pos x, length-encode_items-cons x xs)

pub length-lst : (xs : Items) → count xs < length (encode_item (lst xs))
length-lst xs =
    ground (
      arith,
      length-encode_item (lst xs),
      length-header 0xc0 (length (encode_items xs)),
      count-le xs,
    )

length-item_at :
    (xs : Items) (i : ℕ) (x : Item)
    → item_at xs i ≡ some x
    → length (encode_item x) ≤ length (encode_items xs)
unfolding item_at
length-item_at nil i x e = cc
length-item_at (cons y xs) zero x e = ground (arith, length-encode_items-cons y xs)
length-item_at (cons y xs) (suc i) x e =
    omega (arith, length-item_at xs i x e, length-encode_items-cons y xs)

module _ (r : UntrustedRlp) (xs : Items) (v : IsCached r) (e : r.bytes ≡ encode_item (lst xs))
    (small : length (encode_item (lst xs)) < 2 ^ 64) where
  -- On the view of an encoded list, `at` returns the view of the item's encoding.
  pub at-item : (i : ℕ) (x : Item) → item_at xs i ≡ some x → (at r i).1 ≡ ok (new (encode_item x))
  unfolding at_anew
  at-item i x h =
      let (here, inside) = skip-item_at xs i x h in
      let bound = length-lst xs in
      rw
        (
          at-anew r i v (omega arith),
          is_list-lst r xs e,
          reach_anew-lst r xs i e small (omega arith),
          here,
          encode_items-cons x (skip (suc i) xs),
        )
        (found-item x (encode_items (skip (suc i) xs))
          (omega (arith, length-item_at xs i x h, length-encode_item (lst xs))))

  -- Behind the last item `at` fails.
  pub at-count : (at r (count xs)).1 ≡ err rlp_is_too_short
  unfolding at_anew
  at-count =
      let bound = length-lst xs in
      rw
        (
          at-anew r (count xs) v (omega arith),
          is_list-lst r xs e,
          reach_anew-lst r xs (count xs) e small (omega arith),
          skip-count xs,
          encode_items-nil,
        )
        found-nil
