-- ===== src/Bytes/Integers.antt =====
-- Words read from bytes against words written as bytes.
use aion_utils.Prelude.{
  ℕ, zero, suc, ◌+◌, ◌*◌, ◌/◌, ◌%◌, ◌^◌, ◌<◌, ◌≡◌, refl, sym, ap, ◌∙◌, false, List, [], ◌∷◌, ◌++◌,
  arith, length, All, ok, index, length-append, append_assoc,
}
use aion_utils.Bytes.{little_endian, i32_to_bytes, words_from, bytes_to_i32s}

unfoldable pub all_bytes : List ℕ → List ℕ
all_bytes [] = []
all_bytes (w ∷ ws) = i32_to_bytes w ++ all_bytes ws

index-append :
    (front xs : List ℕ) (k i : ℕ)
    → i ≡ length front + k
    → index {E = Unit {0}} (front ++ xs) i ≡ index xs k
index-append [] xs k i h = ap (λ j. index xs j) (h ∙ omega arith)
index-append (y ∷ front) xs k zero h = absurd (omega arith)
index-append (y ∷ front) xs k (suc i) h = index-append front xs k i (omega arith)

words_from-all_bytes :
    (front ws : List ℕ) (off : ℕ)
    → length front ≡ off
    → All (λ w. w < 2 ^ 32) ws
    → words_from false (front ++ all_bytes ws) (length ws) off ≡ ok ws
unfolding words_from all_bytes little_endian
words_from-all_bytes front [] off h small = refl
words_from-all_bytes front (w ∷ ws) off h (hw, small) =
    let a = w % 256 in
    let b = w / 256 % 256 in
    let c = w / 256 / 256 % 256 in
    let d = w / 256 / 256 / 256 % 256 in
    let xs = a ∷ b ∷ c ∷ d ∷ all_bytes ws in
    let whole : a + b * 2 ^ 8 + c * 2 ^ 16 + d * 2 ^ 24 ≡ w = omega arith in
    let later =
      words_from-all_bytes (front ++ (a ∷ b ∷ c ∷ d ∷ [])) ws (off + 4)
        (length-append front (a ∷ b ∷ c ∷ d ∷ []) ∙ omega arith) small in
    let same_bytes : (front ++ (a ∷ b ∷ c ∷ d ∷ [])) ++ all_bytes ws ≡ front ++ all_bytes (w ∷ ws) =
      append_assoc front (a ∷ b ∷ c ∷ d ∷ []) (all_bytes ws) in
    let read : words_from false (front ++ all_bytes (w ∷ ws)) (length ws) (off + 4) ≡ ok ws =
      ap (λ t. words_from false t (length ws) (off + 4)) (sym same_bytes) ∙ later in
    rw
      (
        index-append front xs 0 off (omega arith),
        index-append front xs 1 (off + 1) (omega arith),
        index-append front xs 2 (off + 2) (omega arith),
        index-append front xs 3 (off + 3) (omega arith),
        read,
        whole,
      )
      refl

-- `bytes_to_i32s`, the little end first, reads back the words that `i32_to_bytes` wrote one after
-- the other, into an output of as many words.
pub bytes_to_i32s-little :
    (ws output : List ℕ)
    → length output ≡ length ws
    → All (λ w. w < 2 ^ 32) ws
    → bytes_to_i32s (all_bytes ws) output false ≡ ok ws
unfolding bytes_to_i32s
bytes_to_i32s-little ws output h small = rw h (words_from-all_bytes [] ws 0 refl small)
