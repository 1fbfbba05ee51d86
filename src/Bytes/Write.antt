-- ===== src/Bytes/Write.antt =====
-- What a byte vector or slice holds after a write.
use aion_utils.Prelude.{
  ℕ, zero, suc, ◌+◌, ◌-◌, ◌<◌, ◌≡◌, refl, sym, ap, ◌∙◌, true, List, [], ◌∷◌, ◌++◌, arith, ltb,
  length, take, drop, set, replicate, ok, min, lt→ltb, length-append, length-take, length-drop,
  length-replicate, drop-length_append, if◌then◌else◌, set-middle, append_assoc, take-append-drop,
  index,
}
use aion_utils.Bytes.{flexible, fixed, resize, copy_from, write}

length-resize : (bytes : List ℕ) (n v : ℕ) → length (resize bytes n v) ≡ n
length-resize bytes n v =
    length-append (take n bytes) (replicate (n - length bytes) v)
    ∙ omega (arith, length-take n bytes, length-replicate (n - length bytes) v)

-- A write to a vector at an offset returns, and leaves a vector that has the input from the offset
-- on and nothing behind it, whatever stood there before.
pub write-flexible :
    (bytes : List ℕ) (offset : ℕ) (input : List ℕ)
    → (after : List ℕ) × (n : ℕ) × (write (flexible bytes) offset input ≡ ok (n, flexible after))
      × (drop offset after ≡ input)
      × (length after ≡ offset + length input)
unfolding write
write-flexible bytes offset input =
    let before = resize bytes offset 0 in
    let long = length-resize bytes offset 0 in
    (
      before ++ input,
      length input + (if ltb offset (length bytes) then 0 else offset - length bytes),
      refl,
      ap (λ k. drop k (before ++ input)) (sym long) ∙ drop-length_append before input,
      length-append before input ∙ ap (λ k. k + length input) long,
    )

index-middle :
    (front rest : List ℕ) (x i : ℕ)
    → length front ≡ i
    → index {E = Unit {0}} (front ++ (x ∷ rest)) i ≡ ok x
index-middle [] rest x zero h = refl
index-middle [] rest x (suc i) h = absurd (omega arith)
index-middle (y ∷ front) rest x zero h = absurd (omega arith)
index-middle (y ∷ front) rest x (suc i) h = index-middle front rest x i (omega arith)

-- The loop: `old` is overwritten by `now`, the input from position `i` on.
copy_from-parts :
    (pre ipre old now back rest : List ℕ) (offset i : ℕ)
    → length pre ≡ offset + i
    → length ipre ≡ i
    → length old ≡ length now
    → copy_from (pre ++ (old ++ back)) offset (ipre ++ (now ++ rest)) (length now) i
      ≡ ok (pre ++ (now ++ back))
unfolding copy_from
copy_from-parts pre ipre [] [] back rest offset i h k e = refl
copy_from-parts pre ipre [] (y ∷ now) back rest offset i h k e = absurd (omega arith)
copy_from-parts pre ipre (x ∷ old) [] back rest offset i h k e = absurd (omega arith)
copy_from-parts pre ipre (x ∷ old) (y ∷ now) back rest offset i h k e =
    let inside : ltb (offset + i) (length (pre ++ (x ∷ (old ++ back)))) ≡ true =
      lt→ltb _ _ (omega (arith, length-append pre (x ∷ (old ++ back)))) in
    let stored : set (pre ++ (x ∷ (old ++ back))) (offset + i) y
        ≡ (pre ++ (y ∷ [])) ++ (old ++ back) =
      ap (λ j. set (pre ++ (x ∷ (old ++ back))) j y) (sym h)
      ∙ set-middle pre (old ++ back) x y
      ∙ sym (append_assoc pre (y ∷ []) (old ++ back)) in
    let moved : ipre ++ (y ∷ (now ++ rest)) ≡ (ipre ++ (y ∷ [])) ++ (now ++ rest) =
      sym (append_assoc ipre (y ∷ []) (now ++ rest)) in
    let later =
      copy_from-parts (pre ++ (y ∷ [])) (ipre ++ (y ∷ [])) old now back rest offset (i + 1)
        (omega (arith, length-append pre (y ∷ []))) (omega (arith, length-append ipre (y ∷ [])))
        (omega arith) in
    rw (index-middle ipre (now ++ rest) y i k, inside, stored, moved)
      (later ∙ ap ok (append_assoc pre (y ∷ []) (now ++ back)))

write-parts :
    (front old back now rest : List ℕ)
    → length old ≡ length now
    → 0 < length old + length back
    → min (length back) (length rest) ≡ 0
    → write (fixed (front ++ (old ++ back))) (length front) (now ++ rest)
      ≡ ok (length now, fixed (front ++ (now ++ back)))
unfolding write
write-parts front old back now rest e room fits =
    let whole : length (front ++ (old ++ back)) ≡ length front + (length old + length back) =
      length-append front (old ++ back) ∙ ap (λ k. length front + k) (length-append old back) in
    let inside : ltb (length front) (length (front ++ (old ++ back))) ≡ true =
      lt→ltb _ _ (omega (arith, whole)) in
    let count : min (length (front ++ (old ++ back)) - length front) (length (now ++ rest))
        ≡ length now =
      omega (arith, whole, length-append now rest) in
    let copied : copy_from (front ++ (old ++ back)) (length front) (now ++ rest) (length now) 0
        ≡ ok (front ++ (now ++ back)) =
      copy_from-parts front [] old now back rest (length front) 0 (omega arith) refl e in
    rw (inside, count, copied) refl

-- A write to a slice at an offset inside it puts as much of the input there as fits, returns how
-- much that is, and leaves the bytes before and behind it as they were.
pub write-fixed :
    (bytes : List ℕ) (offset : ℕ) (input : List ℕ)
    → offset < length bytes
    → let n = min (length bytes - offset) (length input) in
      write (fixed bytes) offset input
      ≡ ok (n, fixed (take offset bytes ++ (take n input ++ drop n (drop offset bytes))))
write-fixed bytes offset input h =
    let n = min (length bytes - offset) (length input) in
    let behind = drop offset bytes in
    let front : length (take offset bytes) ≡ offset = omega (arith, length-take offset bytes) in
    let now : length (take n input) ≡ n = omega (arith, length-take n input) in
    let parts : bytes ≡ take offset bytes ++ (take n behind ++ drop n behind) = sym (
      ap (λ t. take offset bytes ++ t) (take-append-drop n behind)
      ∙ take-append-drop offset bytes) in
    let done =
      write-parts (take offset bytes) (take n behind) (drop n behind) (take n input) (drop n input)
        (omega (arith, length-take n behind, length-drop offset bytes, now))
        (omega (arith, length-take n behind, length-drop offset bytes, length-drop n behind))
        (omega (arith, length-drop n behind, length-drop n input, length-drop offset bytes)) in
    ap (λ b. write (fixed b) offset input) parts
    ∙ ap (λ k. write (fixed (take offset bytes ++ (take n behind ++ drop n behind))) k input)
        (sym front)
    ∙ ap
        (λ t.
          write (fixed (take offset bytes ++ (take n behind ++ drop n behind)))
            (length (take offset bytes)) t)
        (sym (take-append-drop n input))
    ∙ done
    ∙ ap (λ k. ok (k, fixed (take offset bytes ++ (take n input ++ drop n behind)))) now
