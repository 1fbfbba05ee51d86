-- ===== src/Rlp/Untrusted/Cache.antt =====
-- The offset cache of `at` changes no result.
use aion_utils.Prelude.{
  ℕ, zero, suc, ◌+◌, ◌-◌, ◌≤◌, ◌<◌, ◌≡◌, ◌≢◌, refl, sym, ap, ◌∙◌, List, arith, leb, if◌then◌else◌,
  length, drop, drop-drop, drop-length_sub, bind-map_ok, ok, err, panic, ◌>>=◌, bind_cong,
  bind_assoc, bind-eq-ok, le→leb, leb→le, Bool-cases, inl, inr, true, Option,
}
use aion_utils.Rlp.Error.{Result, rlp_expected_to_be_list}
use aion_utils.Rlp.Header.{payload_info}
use aion_utils.Rlp.Untrusted.{
  UntrustedRlp, usize_max, consume, consume_list_payload, consume_item, consume_items, seek, reach,
  found, at, new, is_list, settle,
}

-- The bytes from item `i` on, found from the start of the list.
unfoldable pub reach_anew : UntrustedRlp → ℕ → Result (List ℕ)
reach_anew r i = do b ← consume_list_payload r; consume_items b i

-- What the cache promises: it is fresh, or it holds the offset of the item that it names.
pub record IsCached (r : UntrustedRlp) : Type 0 where
  pub in_range : r.offset_cache.offset ≤ length r.bytes
  pub holds :
      r.offset_cache.index ≢ usize_max
      → reach_anew r r.offset_cache.index ≡ ok (drop r.offset_cache.offset r.bytes)

pub new-IsCached : (bytes : List ℕ) → IsCached (new bytes)
new-IsCached bytes = record { in_range = omega arith; holds = λ ne. absurd (ne refl) }

-- Skipping `j` items and then `k` is skipping `j + k`.
pub consume_items-add :
    (j k n : ℕ) (b : List ℕ)
    → n ≡ j + k
    → consume_items b n ≡ (consume_items b j >>= λ c. consume_items c k)
unfolding consume_items
consume_items-add zero k n b e = let e' : n ≡ k = omega arith in rw e'
consume_items-add (suc j) k zero b e = absurd (omega arith)
consume_items-add (suc j) k (suc n) b e =
    bind_cong (consume_item b) (λ c. consume_items-add j k n c (omega arith))
    ∙ sym (bind_assoc (consume_item b) (λ c. consume_items c j) (λ c. consume_items c k))

-- What is left after some items is the end of the input.
abbrev pub IsEnd : List ℕ → List ℕ → Type 0
IsEnd c b = (n : ℕ) × (drop n b ≡ c)

pub consume-IsEnd : (b : List ℕ) (n : ℕ) (c : List ℕ) → consume b n ≡ ok c → IsEnd c b
unfolding consume
consume-IsEnd b n c e = (n, ground arith)

consume_items-IsEnd : (k : ℕ) (b c : List ℕ) → consume_items b k ≡ ok c → IsEnd c b
unfolding consume_items consume_item
consume_items-IsEnd zero b c e = (0, ground arith)
consume_items-IsEnd (suc k) b c e =
    let (d, one, more) = bind-eq-ok (consume_item b) (λ d. consume_items d k) e in
    let (p, info, skip) = bind-eq-ok (payload_info b) _ one in
    let (m, em) = consume-IsEnd b (p.header_len + p.value_len) d skip in
    let (n, en) = consume_items-IsEnd k d c more in (m + n, sym (drop-drop n m b) ∙ rw em en)

pub reach_anew-IsEnd :
    (r : UntrustedRlp) (i : ℕ) (c : List ℕ) → reach_anew r i ≡ ok c → IsEnd c r.bytes
unfolding reach_anew consume_list_payload
reach_anew-IsEnd r i c e =
    let (d, start, more) = bind-eq-ok (consume_list_payload r) (λ d. consume_items d i) e in
    let (p, info, skip) = bind-eq-ok (payload_info r.bytes) _ start in
    let (m, em) = consume-IsEnd r.bytes p.header_len d skip in
    let (n, en) = consume_items-IsEnd i d c more in (m + n, sym (drop-drop n m r.bytes) ∙ rw em en)

-- A search goes on from the item that another one reached.
reach_anew-add :
    (r : UntrustedRlp) (j k i : ℕ)
    → i ≡ j + k
    → reach_anew r i ≡ (reach_anew r j >>= λ c. consume_items c k)
unfolding reach_anew
reach_anew-add r j k i e =
    bind_cong (consume_list_payload r) (λ b. consume_items-add j k i b e)
    ∙ sym (bind_assoc (consume_list_payload r) (λ b. consume_items b j) (λ c. consume_items c k))

pub consume-ok : (b : List ℕ) (n : ℕ) → n ≤ length b → consume b n ≡ ok (drop n b)
unfolding consume
consume-ok b n h = rw (le→leb n (length b) h)

-- At any index but `usize::max_value()`, `at` finds the bytes that a search from the start of the
-- list finds, whatever item the cache names.
pub reach-anew :
    (r : UntrustedRlp) (i : ℕ) → IsCached r → i < usize_max → reach r i ≡ reach_anew r i
unfolding reach seek
reach-anew r i v lt = elim (Bool-cases (leb r.offset_cache.index i)) [
  | inl cached ↦
      let idx = r.offset_cache.index in
      let before = leb→le idx i cached in
      let held = v.holds (omega arith) in
      rw (cached, consume-ok r.bytes r.offset_cache.offset v.in_range)
        (sym (reach_anew-add r idx (i - idx) i (omega arith) ∙ rw held))
  | inr far ↦
      rw
        (
          far,
          bind-map_ok {B = List ℕ × ℕ} (λ b. (b, i)) (consume_list_payload r)
              (λ p. consume_items p.0 p.1),
        )
        (unfold reach_anew in refl)
]

settle-IsCached :
    (r : UntrustedRlp) (i : ℕ) (m : Result (List ℕ))
    → IsCached r
    → m ≡ reach_anew r i
    → IsCached (settle r i m).0
unfolding reach_anew consume_list_payload
settle-IsCached r i (ok b) v e =
    let (n, end) = reach_anew-IsEnd r i b (sym e) in
    record {
      in_range = omega arith;
      holds = λ _. sym e ∙ ap ok (rw (← end) (sym (drop-length_sub n r.bytes)));
    }
settle-IsCached r i (err x) v e = v
settle-IsCached r i panic v e = v

-- `at` keeps the cache's promise, whatever it returns.
pub at-IsCached : (r : UntrustedRlp) (i : ℕ) → IsCached r → i < usize_max → IsCached (at r i).0
unfolding at
at-IsCached r i v lt = elim (Bool-cases (is_list r)) [
  | inr other ↦ rw other v
  | inl list ↦ rw list (settle-IsCached r i (reach r i) v (reach-anew r i v lt))
]

-- The count cache is no part of the promise.
pub count-IsCached :
    (r : UntrustedRlp) (c : Option ℕ) → IsCached r → IsCached (record r { count_cache = c })
unfolding reach_anew consume_list_payload
count-IsCached r c v = record { in_range = v.in_range; holds = v.holds }

-- What `at` returns with no cache.
unfoldable pub at_anew : UntrustedRlp → ℕ → Result UntrustedRlp
at_anew r i = if is_list r then (do b ← reach_anew r i; found b) else err rlp_expected_to_be_list

settle-found : (r : UntrustedRlp) (i : ℕ) (m : Result (List ℕ)) → (settle r i m).1 ≡ (m >>= found)
settle-found r i (ok b) = refl
settle-found r i (err e) = refl
settle-found r i panic = refl

-- Whatever calls filled the cache, `at` at any index but `usize::max_value()` returns what a search
-- from the start of the list returns.
pub at-anew : (r : UntrustedRlp) (i : ℕ) → IsCached r → i < usize_max → (at r i).1 ≡ at_anew r i
unfolding at at_anew
at-anew r i v lt = elim (Bool-cases (is_list r)) [
  | inr other ↦ rw other
  | inl list ↦ rw list (settle-found r i (reach r i) ∙ rw (reach-anew r i v lt))
]

-- Indexing a view by `usize::max_value()` finds the fresh cache, which names that index, and
-- returns the view's own first item: the list itself.
pub at-usize_max :
    (bytes : List ℕ) → is_list (new bytes) ≡ true → (at (new bytes) usize_max).1 ≡ found bytes
unfolding at reach seek consume consume_items
at-usize_max bytes h = rw h (ground arith)
