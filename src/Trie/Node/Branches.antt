-- ===== src/Trie/Node/Branches.antt =====
-- A list of seventeen items, as `Node::decoded` reads it: a branch.
use aion_utils.Prelude.{
  ℕ, zero, suc, ◌+◌, ◌^◌, ◌≤◌, ◌<◌, ◌≡◌, refl, ap, sym, ◌∙◌, false, none, some, List, [], ◌∷◌,
  if◌then◌else◌, arith, Bool-cases, inl, inr, length, length-append, leb, ok, map_ok,
}
use mathlib.Core.Path.{subst}
use aion_utils.Prelude.Words.{width_bounds}
use aion_utils.Rlp.Untrusted
use aion_utils.Rlp.Untrusted.{UntrustedRlp, at, new}
use aion_utils.Rlp.Untrusted.Cache.{IsCached, new-IsCached, at-IsCached}
use aion_utils.Rlp.Trusted.{trusted_data}
use aion_utils.Rlp.Format.{
  Item, Items, str, lst, nil, cons, encode_item, encode_str, header, count, item_at, skip,
}
use aion_utils.Rlp.Format.Navigate.{at-item, length-lst, skip-item_at}
use aion_utils.Rlp.Format.Iterate.{item_at_cases, item_count-lst}
use aion_utils.Trie.Mutable.Commit.Items.{snoc}
use aion_utils.Trie.Node.{branch, decoded, decoded_as, decoded_branch, children_from}
use aion_utils.Trie.Node.Pairs.{at-bytes, trusted_prototype-lst, trusted_at-ok}

-- The encodings of items, one by one.
unfoldable pub encodings : Items → List (List ℕ)
encodings nil = []
encodings (cons x xs) = encode_item x ∷ encodings xs

-- The encodings of the first items.
unfoldable front_encodings : ℕ → Items → List (List ℕ)
front_encodings zero xs = []
front_encodings (suc n) nil = []
front_encodings (suc n) (cons x xs) = encode_item x ∷ front_encodings n xs

front-snoc : (ys : Items) (y : Item) → front_encodings (count ys) (snoc ys y) ≡ encodings ys
unfolding front_encodings encodings snoc count
front-snoc nil y = refl
front-snoc (cons x ys) y = ap (λ t. encode_item x ∷ t) (front-snoc ys y)

item_at-snoc : (ys : Items) (y : Item) → item_at (snoc ys y) (count ys) ≡ some y
unfolding item_at snoc count
item_at-snoc nil y = refl
item_at-snoc (cons x ys) y = item_at-snoc ys y

count-snoc : (ys : Items) (y : Item) → count (snoc ys y) ≡ suc (count ys)
unfolding snoc count
count-snoc nil y = refl
count-snoc (cons x ys) y = ap suc (count-snoc ys y)

record Reads (r : UntrustedRlp) (n i : ℕ) (raws : List (List ℕ)) : Type 0 where
  last : UntrustedRlp
  runs : children_from n i r ≡ ok (last, raws)
  cached : IsCached last
  same : last.bytes ≡ r.bytes

children_from-Reads :
    (n i : ℕ) (xs : Items) (r : UntrustedRlp)
    → i + n ≤ count xs
    → IsCached r
    → r.bytes ≡ encode_item (lst xs)
    → length (encode_item (lst xs)) < 2 ^ 64
    → Reads r n i (front_encodings n (skip i xs))
unfolding children_from front_encodings
children_from-Reads zero i xs r h v b small = record {
  last = r;
  runs = refl;
  cached = v;
  same = refl;
}
children_from-Reads (suc n) i xs r h v b small =
    let bound = length-lst xs in
    let (x, here) = item_at_cases xs i (omega arith) in
    let next : i + 1 ≡ suc i = omega arith in
    let r1 = (at r i).0 in
    let found =
      children_from-Reads n (i + 1) xs r1 (omega arith) (at-IsCached r i v (omega arith))
        (at-bytes r i ∙ b) small in
    let rest = subst (λ j. Reads r1 n (i + 1) (front_encodings n (skip j xs))) next found in
    record {
      last = rest.last;
      runs =
          rw
            (
              (skip-item_at xs i x here).0,
              trusted_at-ok r (new (encode_item x)) i (at-item r xs v b small i x here),
              rest.runs,
            )
            refl;
      cached = rest.cached;
      same = rest.same ∙ at-bytes r i;
    }

-- The bytes of a string of at least one byte are not those of the empty one.
pub is_empty-str :
    (b : ℕ) (bs : List ℕ)
    → length (encode_item (str (b ∷ bs))) < 2 ^ 64
    → Untrusted.is_empty (new (encode_item (str (b ∷ bs)))) ≡ false
unfolding Untrusted.is_empty encode_item encode_str header
is_empty-str b [] h = ground arith
is_empty-str b (c ∷ bs) h =
    let bound = length-append (header 0x80 (length (b ∷ c ∷ bs))) (b ∷ c ∷ bs) in
    let (most, rest, least, tight) = width_bounds 8 (length (b ∷ c ∷ bs)) (omega arith) in
    elim (Bool-cases (leb (length (b ∷ c ∷ bs)) 55)) [
      | inl e ↦ rw e (ground arith)
      | inr e ↦ rw e (ground arith)
    ]

module _ (ys : Items) (y : Item) (sixteen : count ys ≡ 16)
    (small : length (encode_item (lst (snoc ys y))) < 2 ^ 64) where
  -- A list of seventeen items, as `Node::decoded` reads it.
  pub read_branch : decoded (encode_item (lst (snoc ys y))) ≡ (
      if Untrusted.is_empty (new (encode_item y))
      then ok (branch (encodings ys) none)
      else map_ok
          (λ value. branch (encodings ys) (some value))
          (trusted_data (new (encode_item y))))
  unfolding decoded decoded_as decoded_branch skip
  read_branch =
      let xs = snoc ys y in
      let r = new (encode_item (lst xs)) in
      let all : count xs ≡ 17 = count-snoc ys y ∙ ap suc sixteen in
      let (last, counted, c, cached, bytes) =
        item_count-lst r xs (new-IsCached (encode_item (lst xs))) refl small refl in
      let front = children_from-Reads 16 0 xs last (omega arith) cached bytes small in
      let raws : front_encodings 16 xs ≡ encodings ys =
        ap (λ n. front_encodings n xs) (sym sixteen) ∙ front-snoc ys y in
      let kept = front.same ∙ bytes in
      let here : item_at xs 16 ≡ some y = ap (item_at xs) (sym sixteen) ∙ item_at-snoc ys y in
      let value = at-item front.last xs front.cached kept small 16 y here in
      let again =
        at-item (at front.last 16).0 xs (at-IsCached front.last 16 front.cached (omega arith))
          (at-bytes front.last 16 ∙ kept) small 16 y here in
      rw
        (
          trusted_prototype-lst xs last (count xs) counted,
          all,
          front.runs,
          raws,
          trusted_at-ok front.last (new (encode_item y)) 16 value,
          trusted_at-ok (at front.last 16).0 (new (encode_item y)) 16 again,
        )
        refl
