-- ===== src/Trie/Lookup/Filled.antt =====
-- A `MemoryDB` into which the nodes of a trie were put: `get` returns each of them at its hash.
use aion_utils.Prelude.{
  ℕ, suc, ◌+◌, ◌^◌, ◌<◌, ◌≡◌, ◌≢◌, refl, ap, sym, ◌∙◌, true, false, Option, none, some, List, [],
  ◌∷◌, if◌then◌else◌, arith, Bool-cases, inl, inr, length, All,
}
use aion_utils.Db.Map.{same, same→eq, ne→same, find, put, find-put_self, find-put_other}
use aion_utils.Db.Memory.{
  H256, Entry, MemoryDb, add_i32, positive, incremented, insert, get, null_rlp, blake2b_null_rlp,
}
use aion_utils.Db.Memory.Content.{seen}
use aion_utils.Db.Memory.Counts.{get-seen, insert-put}
use aion_utils.Trie.Mutable.Commit.{Store, Digest, stored}
use aion_utils.Trie.Mutable.Commit.Items.{store_all}
use aion_utils.Trie.Lookup.Kept.{Has}

-- What the hash function does: 32 bytes, the known hash of the null node, and no two with the same
-- hash among the byte strings that satisfy `P`, of which the null node is one.
pub record IsDigest (digest : Digest) (P : List ℕ → Type 0) : Type 0 where
  pub sized : (b : List ℕ) → length (digest b) ≡ 32
  pub null_hash : digest null_rlp ≡ blake2b_null_rlp
  pub null_in : P null_rlp
  pub apart : (a b : List ℕ) → P a → P b → digest a ≡ digest b → a ≡ b

both-null : (a b : MemoryDb) (k : H256) → same k blake2b_null_rlp ≡ true → get a k ≡ get b k
unfolding get
both-null a b k e = rw e refl

module _ (digest : Digest) (P : List ℕ → Type 0) where
  -- An entry that may be counted `n` times more, and that is the byte string if it counts.
  abbrev pub HasRoom : ℕ → List ℕ → Entry → Type 0
  HasRoom n b e = (e.rc + n < 2 ^ 31) × (0 < e.rc → e.value ≡ b)

  -- What the store has under the hashes of the byte strings that satisfy `P`; its other entries may
  -- be any.
  pub record Room (n : ℕ) (db : MemoryDb) : Type 0 where
    pub bounded : n < 2 ^ 31
    pub each : (b : List ℕ) (e : Entry) → P b → find (digest b) db.entries ≡ some e → HasRoom n b e

  module _ (d : IsDigest digest P) where
    -- One more of a byte string counts, and is what it says.
    more-HasRoom :
        (n : ℕ) (value : List ℕ) (m : Option Entry)
        → suc n < 2 ^ 31
        → ((e : Entry) → m ≡ some e → HasRoom (suc n) value e)
        → ((incremented m value).value ≡ value)
          × (positive (incremented m value).rc ≡ true)
          × ((incremented m value).rc + n < 2 ^ 31)
    more-HasRoom n value none small h = (refl, refl, omega arith)
    more-HasRoom n value (some e) small h =
        let (fits, named) = h e refl in
        let kept : (if positive e.rc then e.value else value) ≡ value =
          elim (Bool-cases (positive e.rc)) [
            | inl counted ↦ rw counted (named (ground arith))
            | inr other ↦ rw other refl
          ] in
        (kept, counts e.rc (omega arith), omega arith)
      where
        counts : (rc : ℕ) → rc + 1 < 2 ^ 31 → positive (add_i32 rc 1) ≡ true
        counts rc h = ground arith

    same-null_hash :
        (value : List ℕ) → P value → value ≢ null_rlp → same (digest value) blake2b_null_rlp ≡ false
    same-null_hash value p other =
        ne→same (digest value) blake2b_null_rlp
          (λ e. other (d.apart value null_rlp p d.null_in (e ∙ sym d.null_hash)))

    -- What a byte string's insertion leaves.
    pub record Inserted (n : ℕ) (db : MemoryDb) (value : List ℕ) (after : MemoryDb) : Type 0 where
      pub room : Room n after
      pub has : Has (get after) digest value
      pub keeps : (b : List ℕ) → P b → Has (get db) digest b → Has (get after) digest b

    pub insert-Inserted :
        (n : ℕ) (db : MemoryDb) (value : List ℕ)
        → P value
        → value ≢ null_rlp
        → Room (suc n) db
        → Inserted n db value (insert digest db value).1
    insert-Inserted n db value p other r =
        let key = digest value in
        let more = incremented (find key db.entries) value in
        let after : MemoryDb = record { entries = put key more db.entries } in
        let (worth, counts, fits) =
          more-HasRoom n value (find key db.entries) r.bounded (λ e. r.each value e p) in
        let here : Has (get after) digest value =
          get-seen after key (same-null_hash value p other)
          ∙ ap seen (find-put_self key more db.entries)
          ∙ rw (counts, worth) refl in
        rw (insert-put digest db value (ne→same value null_rlp other)) (record {
          room = record {
            bounded = omega (arith, r.bounded);
            each = λ b e pb found. elim (Bool-cases (same (digest b) key)) [
              | inl eq ↦
                  let at_key : digest b ≡ key = same→eq (digest b) key eq in
                  let that : some more ≡ some e =
                    sym (find-put_self key more db.entries)
                    ∙ ap (λ i. find i (put key more db.entries)) (sym at_key)
                    ∙ found in
                  let it : more ≡ e = cc in
                  rw (sym it) (fits, λ _. worth ∙ d.apart value b p pb (sym at_key))
              | inr apart ↦
                  let (before, named) =
                    r.each b e pb
                      (sym (find-put_other (digest b) key more db.entries apart) ∙ found) in
                  (omega arith, named)
            ];
          };
          has = here;
          keeps = λ b pb had. elim (Bool-cases (same (digest b) key)) [
            | inl eq ↦ rw (d.apart b value pb p (same→eq (digest b) key eq)) here
            | inr apart ↦ elim (Bool-cases (same (digest b) blake2b_null_rlp)) [
              | inl null ↦ both-null after db (digest b) null ∙ had
              | inr not_null ↦
                  get-seen after (digest b) not_null
                  ∙ ap seen (find-put_other (digest b) key more db.entries apart)
                  ∙ sym (get-seen db (digest b) not_null)
                  ∙ had
            ]
          ];
        })

    -- Byte strings put into a store one after the other are all in it, with what was there.
    pub record FilledStore (st : Store) (rlps : List (List ℕ)) (after : Store) : Type 0 where
      pub room : Room 0 after.db
      pub has : All (Has (get after.db) digest) rlps
      pub keeps : (b : List ℕ) → P b → Has (get st.db) digest b → Has (get after.db) digest b

    pub store_all-FilledStore :
        (rlps : List (List ℕ)) (st : Store)
        → All (λ b. P b × (b ≢ null_rlp)) rlps
        → Room (length rlps) st.db
        → FilledStore st rlps (store_all digest rlps st)
    unfolding store_all stored
    store_all-FilledStore [] st h r = record { room = r; has = tt; keeps = λ b p had. had }
    store_all-FilledStore (x ∷ xs) st ((px, nx), h) r =
        let one = insert-Inserted (length xs) st.db x px nx r in
        let rest = store_all-FilledStore xs (stored digest x st).1 h one.room in
        record {
          room = rest.room;
          has = (rest.keeps x px one.has, rest.has);
          keeps = λ b p had. rest.keeps b p (one.keeps b p had);
        }
