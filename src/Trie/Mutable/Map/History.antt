-- ===== src/Trie/Mutable/Map/History.antt =====
-- A `TrieDBMut` does not remember how its values came into it.
use aion_utils.Prelude.{
  ℕ, ◌+◌, ◌*◌, ◌/◌, ◌%◌, ◌<◌, ◌≡◌, ◌⊎◌, refl, ap, sym, ◌∙◌, true, false, Option, none, some, List,
  [], ◌∷◌, arith, ok, All, Bool-cases, inl, inr, ltb, ltb→lt, ltb_false→le,
}
use aion_utils.Prelude.Words.{IsBytes}
use aion_utils.Db.Map.{same, same→eq, same_refl}
use aion_utils.Trie.Nibbles.{nibbles_of}
use aion_utils.Trie.Mutable.{NodeSource}
use aion_utils.Trie.Mutable.Database.{TrieDbMut, new_trie}
use aion_utils.Trie.Mutable.Shape.{Tree}
use aion_utils.Trie.Mutable.Shape.Forests.{value_below}
use aion_utils.Trie.Mutable.Shape.Canonical.{value_at_unique, value_at-some}
use aion_utils.Trie.Mutable.Map.{HasNull, IsRoot, handle_for}
use aion_utils.Trie.Mutable.Map.Runs.{Operation, OnBytes, run_all, meant, NoKey, new_trie-Ran}

never : false ≡ true → ⊥
never e = cc

pub record KeyOf (k : List ℕ) : Type 0 where
  pub key : List ℕ
  pub bytes : IsBytes key
  pub here : nibbles_of key ≡ k

NoKey-cons :
    (a b : ℕ) (k : List ℕ)
    → ((x : ℕ) (key : List ℕ)
        → x < 256
        → IsBytes key
        → (x / 16) ∷ (x % 16) ∷ nibbles_of key ≡ a ∷ b ∷ k
        → ⊥)
    → NoKey (a ∷ b ∷ k)
unfolding nibbles_of same
NoKey-cons a b k h key bytes = go key bytes
  where
    go : (key : List ℕ) → IsBytes key → same (a ∷ b ∷ k) (nibbles_of key) ≡ false
    go [] bytes = refl
    go (x ∷ key) (hx, bytes) = elim (Bool-cases (same (a ∷ b ∷ k) (nibbles_of (x ∷ key)))) [
      | inl e ↦ absurd (h x key hx bytes (sym (same→eq (a ∷ b ∷ k) (nibbles_of (x ∷ key)) e)))
      | inr e ↦ e
    ]

joined : (a b : ℕ) (k : List ℕ) → KeyOf k → a < 16 → b < 16 → KeyOf (a ∷ b ∷ k)
unfolding nibbles_of
joined a b k r ha hb =
    let high : (a * 16 + b) / 16 ≡ a = omega arith in
    let low : (a * 16 + b) % 16 ≡ b = omega arith in
    record {
      key = (a * 16 + b) ∷ r.key;
      bytes = (omega arith, r.bytes);
      here = rw (high, low, r.here) refl;
    }

-- A list is the nibbles of a key, or of none.
pub key_or_none : (k : List ℕ) → KeyOf k ⊎ NoKey k
unfolding nibbles_of same
key_or_none [] = inl record { key = []; bytes = tt; here = refl }
key_or_none (a ∷ []) = inr go
  where
    go : (key : List ℕ) → IsBytes key → same (a ∷ []) (nibbles_of key) ≡ false
    go [] bytes = refl
    go (x ∷ key) bytes = ground arith
key_or_none (a ∷ b ∷ k) = go (key_or_none k)
  where
    go : KeyOf k ⊎ NoKey k → KeyOf (a ∷ b ∷ k) ⊎ NoKey (a ∷ b ∷ k)
    go (inr none_here) = inr (
        NoKey-cons a b k (λ x key hx bytes e.
          let tails : nibbles_of key ≡ k = cc in
          never (sym (none_here key bytes) ∙ ap (same k) tails ∙ same_refl k)))
    go (inl here) = elim (Bool-cases (ltb a 16)) [
      | inr big ↦ inr (
          NoKey-cons a b k (λ x key hx bytes e.
            let heads : x / 16 ≡ a = cc in omega (arith, ltb_false→le a 16 big)))
      | inl small ↦ elim (Bool-cases (ltb b 16)) [
        | inr big ↦ inr (
            NoKey-cons a b k (λ x key hx bytes e.
              let heads : x % 16 ≡ b = cc in omega (arith, ltb_false→le b 16 big)))
        | inl low ↦ inl (joined a b k here (ltb→lt a 16 small) (ltb→lt b 16 low))
      ]
    ]

pub root_unique :
    (m n : Option Tree)
    → IsRoot m
    → IsRoot n
    → ((k : List ℕ) → value_below m k ≡ value_below n k)
    → m ≡ n
root_unique none none hm hn e = refl
root_unique none (some u) hm hn e = absurd (value_at-some u hn (λ k. sym (e k)))
root_unique (some t) none hm hn e = absurd (value_at-some t hm e)
root_unique (some t) (some u) hm hn e = ap some (value_at_unique t u hm hn e)

-- Two lists of insertions and removals of byte strings that mean the same at every byte string: both
-- run to their ends from a new trie over a store that knows the empty trie, and leave tries with the
-- same root handle, and so the same nodes.
pub run_all-history :
    (db : NodeSource)
    → HasNull db
    → (ops others : List Operation) → All OnBytes ops
    → All OnBytes others
    → ((key : List ℕ) → IsBytes key → meant ops key ≡ meant others key)
    → (t : TrieDbMut) × (u : TrieDbMut) × (run_all db new_trie ops ≡ ok t)
      × (run_all db new_trie others ≡ ok u)
      × (t.root_handle ≡ u.root_handle)
run_all-history db null ops others hb hb' e =
    let r = new_trie-Ran db null ops hb in
    let r' = new_trie-Ran db null others hb' in
    let alike : (k : List ℕ) → value_below r.tree k ≡ value_below r'.tree k = λ k.
      elim (key_or_none k) [
        | inl x ↦
            ap (value_below r.tree) (sym x.here)
            ∙ r.agrees.on_keys x.key x.bytes
            ∙ e x.key x.bytes
            ∙ sym (r'.agrees.on_keys x.key x.bytes)
            ∙ ap (value_below r'.tree) x.here
        | inr x ↦ r.agrees.elsewhere k x ∙ sym (r'.agrees.elsewhere k x)
      ] in
    let same_tree = root_unique r.tree r'.tree r.holds.root r'.holds.root alike in
    (
      r.trie,
      r'.trie,
      r.runs,
      r'.runs,
      r.holds.stands ∙ ap handle_for same_tree ∙ sym r'.holds.stands,
    )
