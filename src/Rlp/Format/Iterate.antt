-- ===== src/Rlp/Format/Iterate.antt =====
-- The iterator on an encoded list.
use aion_utils.Prelude.{
  ℕ, zero, suc, ◌+◌, ◌^◌, ◌<◌, ◌≡◌, refl, ap, ◌∙◌, List, [], ◌∷◌, arith, length, ok, true, some,
  none,
}
use mathlib.Core.Path.{subst}
use aion_utils.Rlp.Error.{rlp_is_too_short}
use aion_utils.Rlp.Untrusted.{
  UntrustedRlp, new, at, iterate, items_of, item_count, recount, is_list,
}
use aion_utils.Rlp.Untrusted.Iterate.{at-bytes, iterate-ok, iterate-err}
use aion_utils.Rlp.Untrusted.Cache.{IsCached, at-IsCached, count-IsCached}
use aion_utils.Rlp.Format.{Item, Items, lst, nil, cons, encode_item, count, item_at, skip}
use aion_utils.Rlp.Format.Navigate.{
  is_list-lst, at-item, at-count, skip-item_at, length-lst, skip-count,
}

-- The views that the iterator yields for the items.
unfoldable pub views : Items → List UntrustedRlp
views nil = []
views (cons x xs) = new (encode_item x) ∷ views xs

pub length-views : (xs : Items) → length (views xs) ≡ count xs
unfolding views count
length-views nil = refl
length-views (cons x xs) = ap suc (length-views xs)

pub item_at_cases : (xs : Items) (i : ℕ) → i < count xs → (x : Item) × (item_at xs i ≡ some x)
unfolding item_at count
item_at_cases nil i h = absurd (omega arith)
item_at_cases (cons x xs) zero h = (x, refl)
item_at_cases (cons x xs) (suc i) h = item_at_cases xs i (omega arith)

-- What a run of the iterator leaves: its views, and a view whose cache still holds.
record Yields (r : UntrustedRlp) (xs : Items) (fuel i : ℕ) : Type 0 where
  last : UntrustedRlp
  result : iterate fuel r i ≡ some (ok (last, views xs))
  cached : IsCached last
  same : last.bytes ≡ r.bytes

iterate-Yields :
    (k fuel i : ℕ) (xs : Items) (r : UntrustedRlp)
    → i + k ≡ count xs
    → k < fuel
    → IsCached r
    → r.bytes ≡ encode_item (lst xs)
    → length (encode_item (lst xs)) < 2 ^ 64
    → Yields r (skip i xs) fuel i
unfolding views
iterate-Yields k zero i xs r e f v b small = absurd (omega arith)
iterate-Yields zero (suc fuel) i xs r e f v b small =
    let bound = length-lst xs in
    let end : i ≡ count xs = omega arith in
    rw end (record {
      last = (at r (count xs)).0;
      result =
          rw (skip-count xs)
            (iterate-err fuel r (count xs) rlp_is_too_short (at-count r xs v b small));
      cached = at-IsCached r (count xs) v (omega arith);
      same = at-bytes r (count xs);
    })
iterate-Yields (suc k) (suc fuel) i xs r e f v b small =
    let (x, here) = item_at_cases xs i (omega arith) in
    let bound = length-lst xs in
    let next : i + 1 ≡ suc i = omega arith in
    let found =
      iterate-Yields k fuel (i + 1) xs (at r i).0 (omega arith) (omega arith)
        (at-IsCached r i v (omega arith)) (at-bytes r i ∙ b) small in
    let rest = subst (λ j. Yields (at r i).0 (skip j xs) fuel (i + 1)) next found in
    record {
      last = rest.last;
      result =
          rw ((skip-item_at xs i x here).0)
            (iterate-ok fuel r i _ _ _ (at-item r xs v b small i x here) rest.result);
      cached = rest.cached;
      same = rest.same ∙ at-bytes r i;
    }

item_count-fresh :
    (r last : UntrustedRlp) (ys : List UntrustedRlp)
    → is_list r ≡ true
    → r.count_cache ≡ none
    → items_of r ≡ some (ok (last, ys))
    → item_count r ≡ some (ok (record last { count_cache = some (length ys) }, length ys))
unfolding item_count recount
item_count-fresh r last ys list fresh e = rw (list, fresh, e, recount)

module _ (r : UntrustedRlp) (xs : Items) (v : IsCached r) (e : r.bytes ≡ encode_item (lst xs))
    (small : length (encode_item (lst xs)) < 2 ^ 64) where
  all_items : Yields r xs (suc (length r.bytes)) 0
  unfolding skip
  all_items =
      iterate-Yields (count xs) _ 0 xs r (omega arith) (rw e (omega (arith, length-lst xs))) v e
        small

  -- Run to its end, the iterator of an encoded list yields the views of all the items, in order.
  pub items_of-lst :
      (last : UntrustedRlp) × (items_of r ≡ some (ok (last, views xs)))
      × IsCached last
      × (last.bytes ≡ r.bytes)
  unfolding items_of
  items_of-lst = (all_items.last, all_items.result, all_items.cached, all_items.same)

  -- With no count cached, `item_count` returns the number of items of an encoded list, caches it,
  -- and leaves an offset cache that holds.
  pub item_count-lst :
      r.count_cache ≡ none
      → (last : UntrustedRlp) × (item_count r ≡ some (ok (last, count xs)))
        × (last.count_cache ≡ some (count xs))
        × IsCached last
        × (last.bytes ≡ r.bytes)
  item_count-lst fresh =
      let (last, result, cached, same) = items_of-lst in
      (
        record last { count_cache = some (count xs) },
        rw (length-views xs) at
            (item_count-fresh r last (views xs) (is_list-lst r xs e) fresh result),
        refl,
        count-IsCached last (some (count xs)) cached,
        same,
      )
