-- ===== src/Rlp/Trusted.antt =====
-- rlp/src/rlpin.rs: the view `Rlp`, which unwraps what `UntrustedRlp` returns. A loop that has not ended
-- on its fuel is a panic here.
use aion_utils.Prelude.{
  Bool, false, if◌then◌else◌, ◌==◌, ℕ, Option, none, some, List, Outcome, ok, err, panic, map_ok,
  Run,
}
use aion_utils.Rlp.Untrusted.{
  UntrustedRlp, Prototype, prototype, at, data_bytes, new, is_data, size,
}
use aion_utils.Rlp.Impls.{hash_decode}

-- `Result::unwrap`
abbrev pub unwrap : {E A : Type 0} → Outcome E A → Run A
unwrap (ok a) = ok a
unwrap (err e) = panic
unwrap panic = panic

abbrev pub ended : {E A : Type 0} → Option (Outcome E A) → Run A
ended none = panic
ended (some o) = unwrap o

unfoldable pub trusted_prototype : UntrustedRlp → Run (UntrustedRlp × Prototype)
trusted_prototype r = ended (prototype r)

unfoldable pub trusted_data : UntrustedRlp → Run (List ℕ)
trusted_data r = unwrap (data_bytes r)

-- The view after the call, and the item's.
unfoldable pub trusted_at : UntrustedRlp → ℕ → Run (UntrustedRlp × UntrustedRlp)
trusted_at r i = map_ok (λ x. ((at r i).0, x)) (unwrap (at r i).1)

-- `Rlp::is_data` and `Rlp::size` together: the bytes of an item that is a byte string of 32 bytes.
unfoldable pub is_hash : List ℕ → Run Bool
is_hash raw =
    if is_data (new raw) then map_ok (λ n. n == 32) (unwrap (size (new raw))) else ok false

-- `as_val::<H256>()`
unfoldable pub hash_val : List ℕ → Run (List ℕ)
hash_val raw = unwrap (hash_decode 32 raw)
