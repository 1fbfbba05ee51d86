-- ===== src/Rlp/Untrusted/Iterate.antt =====
-- The iterator ends on every input, and never panics.
use aion_utils.Prelude.{
  ℕ, zero, suc, ◌+◌, ◌≤◌, ◌<◌, ◌≡◌, ◌≢◌, sym, ◌∙◌, List, [], ◌∷◌, arith, length, length-drop,
  Outcome, ok, err, panic, ◌>>=◌, bind-eq-ok, bind-ne-panic, Outcome-cases, slice-ok, All-drop,
  some, Option, Bool-cases, inl, inr,
}
use aion_utils.Prelude.Words.{IsBytes, IsByte}
use aion_utils.Rlp.Error.{DecoderError}
use aion_utils.Rlp.Header.{payload_info}
use aion_utils.Rlp.Header.Sound.{payload_info-bounds, payload_info-ne-panic}
use aion_utils.Rlp.Untrusted.{
  UntrustedRlp, usize_max, consume, consume_item, consume_items, consume_list_payload, found, at,
  is_list, iterate, items_of,
}
use aion_utils.Rlp.Untrusted.Cache.{
  IsCached, IsEnd, reach_anew, reach_anew-IsEnd, consume-IsEnd, at_anew, at-anew, at-IsCached,
}

consume-length : (b c : List ℕ) (n : ℕ) → consume b n ≡ ok c → length c + n ≤ length b
unfolding consume
consume-length b c n e = ground (arith, length-drop n b)

consume_items-length : (k : ℕ) (b c : List ℕ) → consume_items b k ≡ ok c → length c + k ≤ length b
unfolding consume_items consume_item
consume_items-length zero b c e = ground arith
consume_items-length (suc k) b c e =
    let (d, one, more) = bind-eq-ok (consume_item b) (λ d. consume_items d k) e in
    let (p, info, skip) = bind-eq-ok (payload_info b) _ one in
    omega (
      arith,
      payload_info-bounds b p info,
      consume-length b d (p.header_len + p.value_len) skip,
      consume_items-length k d c more,
    )

reach_anew-length :
    (r : UntrustedRlp) (i : ℕ) (c : List ℕ) → reach_anew r i ≡ ok c → length c + i ≤ length r.bytes
unfolding reach_anew consume_list_payload
reach_anew-length r i c e =
    let (d, start, more) = bind-eq-ok (consume_list_payload r) (λ d. consume_items d i) e in
    let (p, info, skip) = bind-eq-ok (payload_info r.bytes) _ start in
    omega (arith, consume-length r.bytes d p.header_len skip, consume_items-length i d c more)

found-pos : (b : List ℕ) (x : UntrustedRlp) → found b ≡ ok x → 1 ≤ length b
unfolding found
found-pos b x e =
    let (p, info, more) = bind-eq-ok (payload_info b) _ e in
    omega (arith, payload_info-bounds b p info)

at_anew-inside :
    (r : UntrustedRlp) (i : ℕ) (x : UntrustedRlp) → at_anew r i ≡ ok x → i < length r.bytes
unfolding at_anew
at_anew-inside r i x e = elim (Bool-cases (is_list r)) [
  | inl list ↦
      let found_here : (reach_anew r i >>= found) ≡ ok x = rw list at e in
      let (b, reached, here) = bind-eq-ok (reach_anew r i) found found_here in
      omega (arith, reach_anew-length r i b reached, found-pos b x here)
  | inr other ↦ ground arith
]

-- An item that `at` finds starts inside the view.
pub at-inside :
    (r : UntrustedRlp) (i : ℕ) (x : UntrustedRlp)
    → IsCached r
    → i < usize_max
    → (at r i).1 ≡ ok x
    → i < length r.bytes
at-inside r i x v lt e = at_anew-inside r i x (sym (at-anew r i v lt) ∙ e)

consume-ne-panic : (b : List ℕ) (n : ℕ) → consume b n ≢ panic
unfolding consume
consume-ne-panic b n e = ground arith

end-IsBytes : (c b : List ℕ) → IsEnd c b → IsBytes b → IsBytes c
end-IsBytes c b (n, e) h = rw (← e) (All-drop IsByte n b h)

consume_items-ne-panic : (k : ℕ) (b : List ℕ) → IsBytes b → consume_items b k ≢ panic
unfolding consume_items consume_item consume
consume_items-ne-panic zero b h = λ e. cc
consume_items-ne-panic (suc k) b h =
    bind-ne-panic (consume_item b) (λ c. consume_items c k)
      (bind-ne-panic (payload_info b) _ (payload_info-ne-panic b h)
        (λ p e. consume-ne-panic b (p.header_len + p.value_len)))
      (λ c e.
        let (p, info, skip) = bind-eq-ok (payload_info b) _ e in
        consume_items-ne-panic k c
          (end-IsBytes c b (consume-IsEnd b (p.header_len + p.value_len) c skip) h))

found-ne-panic : (b : List ℕ) → IsBytes b → found b ≢ panic
unfolding found
found-ne-panic b h = bind-ne-panic (payload_info b) _ (payload_info-ne-panic b h) (λ p e.
    let fits = payload_info-bounds b p e in
    rw (slice-ok {E = DecoderError} b 0 (p.header_len + p.value_len) (omega arith) (omega arith))
      (λ q. cc))

reach_anew-ne-panic : (r : UntrustedRlp) (i : ℕ) → IsBytes r.bytes → reach_anew r i ≢ panic
unfolding reach_anew consume_list_payload
reach_anew-ne-panic r i h =
    bind-ne-panic (consume_list_payload r) (λ c. consume_items c i)
      (bind-ne-panic (payload_info r.bytes) _ (payload_info-ne-panic r.bytes h)
        (λ p e. consume-ne-panic r.bytes p.header_len))
      (λ c e.
        let (p, info, skip) = bind-eq-ok (payload_info r.bytes) _ e in
        consume_items-ne-panic i c
          (end-IsBytes c r.bytes (consume-IsEnd r.bytes p.header_len c skip) h))

at_anew-ne-panic : (r : UntrustedRlp) (i : ℕ) → IsBytes r.bytes → at_anew r i ≢ panic
unfolding at_anew
at_anew-ne-panic r i h = elim (Bool-cases (is_list r)) [
  | inl list ↦ rw list (
      bind-ne-panic (reach_anew r i) found (reach_anew-ne-panic r i h)
        (λ b e. found-ne-panic b (end-IsBytes b r.bytes (reach_anew-IsEnd r i b e) h)))
  | inr other ↦ rw other (λ e. cc)
]

-- `at` never panics on bytes.
pub at-ne-panic :
    (r : UntrustedRlp) (i : ℕ) → IsBytes r.bytes → IsCached r → i < usize_max → (at r i).1 ≢ panic
at-ne-panic r i bytes v lt = rw (at-anew r i v lt) (at_anew-ne-panic r i bytes)

-- The bytes of a view never change.
pub at-bytes : (r : UntrustedRlp) (i : ℕ) → (at r i).0.bytes ≡ r.bytes
unfolding at
at-bytes r i = ground arith

pub iterate-ok :
    (fuel : ℕ) (r : UntrustedRlp) (i : ℕ) (y last : UntrustedRlp) (ys : List UntrustedRlp)
    → (at r i).1 ≡ ok y
    → iterate fuel (at r i).0 (i + 1) ≡ some (ok (last, ys))
    → iterate (suc fuel) r i ≡ some (ok (last, y ∷ ys))
unfolding iterate
iterate-ok fuel r i y last ys e h = rw (e, iterate) (rw h)

pub iterate-err :
    (fuel : ℕ) (r : UntrustedRlp) (i : ℕ) (x : DecoderError)
    → (at r i).1 ≡ err x
    → iterate (suc fuel) r i ≡ some (ok ((at r i).0, []))
unfolding iterate
iterate-err fuel r i x e = rw (e, iterate)

-- The iterator has ended, with the views that it has found.
abbrev Ends : Option (Outcome DecoderError (UntrustedRlp × List UntrustedRlp)) → Type 0
Ends o = (p : UntrustedRlp × List UntrustedRlp) × (o ≡ some (ok p))

iterate-Ends :
    (fuel i : ℕ) (r : UntrustedRlp)
    → IsBytes r.bytes
    → IsCached r
    → length r.bytes < usize_max
    → length r.bytes < fuel + i
    → i ≤ length r.bytes
    → Ends (iterate fuel r i)
iterate-Ends zero i r h v small enough inside = absurd (omega arith)
iterate-Ends (suc fuel) i r h v small enough inside =
    elim (Outcome-cases (at r i).1 (at-ne-panic r i h v (omega arith))) [
      | inr (x, e) ↦ (_, iterate-err fuel r i x e)
      | inl (y, e) ↦
          let same = at-bytes r i in
          let start = at-inside r i y v (omega arith) e in
          let ((last, ys), more) =
            iterate-Ends fuel (i + 1) (at r i).0 (rw same h) (at-IsCached r i v (omega arith))
              (rw same small) (rw same (omega arith)) (rw same (omega arith)) in
          (_, iterate-ok fuel r i y last ys e more)
    ]

-- On every view of bytes, the iterator comes to its end: the fuel is enough, and no step panics.
pub items_of_ends :
    (r : UntrustedRlp)
    → IsBytes r.bytes
    → IsCached r
    → length r.bytes < usize_max
    → (p : UntrustedRlp × List UntrustedRlp) × (items_of r ≡ some (ok p))
unfolding items_of
items_of_ends r h v small = iterate-Ends _ 0 r h v small (omega arith) (omega arith)
