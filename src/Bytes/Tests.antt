-- ===== src/Bytes/Tests.antt =====
-- Applications of the theorems on writes to concrete bytes.
use aion_utils.Prelude.{ℕ, ◌+◌, ◌≡◌, List, [], ◌∷◌, ok, drop, length}
use aion_utils.Bytes.{flexible, write}
use aion_utils.Bytes.Write.{write-flexible}

write-flexible_example :
    (after : List ℕ) × (n : ℕ) × (write (flexible (1 ∷ 2 ∷ 3 ∷ 4 ∷ [])) 1 (8 ∷ [])
      ≡ ok (n, flexible after))
    × (drop 1 after ≡ 8 ∷ [])
    × (length after ≡ 1 + length {A = ℕ} (8 ∷ []))
write-flexible_example = write-flexible (1 ∷ 2 ∷ 3 ∷ 4 ∷ []) 1 (8 ∷ [])
