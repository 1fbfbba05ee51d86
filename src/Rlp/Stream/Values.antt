-- ===== src/Rlp/Stream/Values.antt =====
-- The encoder writes the format's byte strings and list headers.
use aion_utils.Prelude.{
  ℕ, ◌+◌, ◌/◌, ◌%◌, ◌^◌, ◌≤◌, ◌<◌, ◌≡◌, refl, sym, ap, ◌∙◌, List, [], ◌∷◌, ◌++◌, arith, leb, length,
  length-append, take, drop, ok, append_assoc, append-nil, le→leb, lt→ltb, set-middle, take-middle,
  drop-middle, Bool-cases, inl, inr, leb→le,
}
use aion_utils.Prelude.Words.{
  big_endian, big_endian_trimmed, width, width_lem, width-suc, leading_zeros,
}
use aion_utils.Rlp.Stream.{
  insert_size, insert_list_payload, store, checked_sub, encode_value, encode_long_value,
  encode_short_value,
}
use aion_utils.Rlp.Format.{header, encode_str}
use native.Mathlib.Nat.{mod-eq_of_lt}

-- A length of 32 bits has the same width as one of 64.
width_four : (n : ℕ) → n < 2 ^ 32 → width 4 n ≡ width 8 n
width_four n h = sym (
    width-suc 7 n (omega arith)
    ∙ width-suc 6 n (omega arith)
    ∙ width-suc 5 n (omega arith)
    ∙ width-suc 4 n h)

-- The bytes that `insert_size` inserts are the length bytes of the format.
size_digits :
    (n : ℕ) → n < 2 ^ 32 → drop (leading_zeros 32 n / 8) (big_endian 4 n) ≡ big_endian (width 8 n) n
size_digits n h = big_endian_trimmed 4 n ∙ ap (λ w. big_endian w n) (width_four n h)

insert_size_lem :
    (buffer : List ℕ) (n position : ℕ)
    → n < 2 ^ 32
    → position ≤ length buffer
    → insert_size buffer n position
      ≡ ok (take position buffer ++ (big_endian (width 8 n) n ++ drop position buffer), width 8 n)
unfolding insert_size
insert_size_lem buffer n position h inside =
    rw
      (
        mod-eq_of_lt h,
        size_digits n h,
        le→leb position (length buffer) inside,
        sym (width_lem 4 n),
        width_four n h,
      )
      refl

-- A stored byte replaces the one that was reserved.
store_middle :
    (front rest : List ℕ) (x v : ℕ)
    → store (front ++ (x ∷ rest)) (length front) v ≡ ok (front ++ (v ∷ rest))
store_middle front rest x v =
    rw
      (
        lt→ltb (length front) (length (front ++ (x ∷ rest)))
            (omega (arith, length-append front (x ∷ rest))),
        set-middle front rest x v,
      )
      refl

-- The reserved byte is the one before the position.
reserved : (front : List ℕ) → checked_sub (length front + 1) 1 ≡ ok (length front)
reserved front = rw (le→leb 1 (length front + 1) (omega arith)) (ap ok (omega arith))

-- A list's header goes in front of its payload, in place of the reserved byte.
pub insert_list_payload-header :
    (front body : List ℕ) (x : ℕ)
    → length body < 2 ^ 32
    → insert_list_payload (front ++ (x ∷ body)) (length body) (length front + 1)
      ≡ ok (front ++ (header 0xc0 (length body) ++ body))
unfolding insert_list_payload header
insert_list_payload-header front body x h = elim (Bool-cases (leb (length body) 55)) [
  | inl short ↦
      rw (short, reserved front, store_middle front body x ((0xc0 + length body) % 256))
        (ap (λ b. ok (front ++ (b ∷ body))) (omega (arith, leb→le _ _ short)))
  | inr long ↦
      let w = width 8 (length body) in
      let digits = big_endian w (length body) in
      rw
        (
          long,
          insert_size_lem (front ++ (x ∷ body)) (length body) (length front + 1) h
              (omega (arith, length-append front (x ∷ body))),
          take-middle front body x,
          drop-middle front body x,
          append_assoc,
          reserved front,
          store_middle front (digits ++ body) x ((0xf7 + w) % 256),
        )
        (ap (λ b. ok (front ++ (b ∷ (digits ++ body)))) (omega (arith, width_lem 8 (length body))))
]

encode_short_value-header :
    (buffer value : List ℕ)
    → length value < 2 ^ 32
    → encode_short_value buffer value ≡ ok (buffer ++ (header 0x80 (length value) ++ value))
unfolding encode_long_value header
encode_short_value-header buffer value h = elim (Bool-cases (leb (length value) 55)) [
  | inl short ↦ rw (short, append_assoc) refl
  | inr long ↦
      let w = width 8 (length value) in
      let digits = big_endian w (length value) in
      rw
        (
          long,
          insert_size_lem (buffer ++ (0 ∷ [])) (length value) (length buffer + 1) h
              (omega (arith, length-append buffer (0 ∷ []))),
          take-middle buffer [] 0,
          drop-middle buffer [] 0,
          append_assoc,
          append-nil,
          reserved buffer,
          store_middle buffer digits 0 ((0xb7 + w) % 256),
          append_assoc,
        )
        (ap (λ b. ok (buffer ++ (b ∷ (digits ++ value))))
          (omega (arith, width_lem 8 (length value))))
]

-- `encode_value` appends the format's encoding of a byte string that is shorter than 4 GiB.
pub encode_value-str :
    (buffer value : List ℕ)
    → length value < 2 ^ 32
    → encode_value buffer value ≡ ok (buffer ++ encode_str value)
unfolding encode_value encode_str
encode_value-str buffer [] h = refl
encode_value-str buffer (b ∷ []) h = ground (arith, append_assoc buffer (0x81 ∷ []) (b ∷ []))
encode_value-str buffer (b ∷ c ∷ bs) h = encode_short_value-header buffer (b ∷ c ∷ bs) h
