-- ===== src/Trie/Mutable/Map/Runs.antt =====
-- Sequences of insertions and removals in a `TrieDBMut`, against a function on keys.
use aion_utils.Prelude.{
  ℕ, ◌/◌, ◌%◌, ◌≡◌, refl, ap, sym, ◌∙◌, true, false, Option, none, some, List, [], ◌∷◌, ◌==◌,
  if◌then◌else◌, arith, ok, ◌>>=◌, All,
}
use aion_utils.Prelude.Words.{IsBytes}
use aion_utils.Db.Map.{same, same→eq, same_refl}
use aion_utils.Trie.Nibbles.{nibbles_of}
use aion_utils.Trie.NibbleSlice.Own.{Bool_iff}
use aion_utils.Trie.Mutable.{Value, Result, NodeSource}
use aion_utils.Trie.Mutable.Database.{TrieDbMut, new_trie, get, insert, remove}
use aion_utils.Trie.Mutable.Shape.{Tree}
use aion_utils.Trie.Mutable.Shape.Forests.{value_below}
use aion_utils.Trie.Mutable.Shape.Reads.{Reading}
use aion_utils.Trie.Mutable.Map.{
  HasNull, Holds, OnlyNull, After, get-value_below, insert-After, remove-After,
}

pub data Operation : Type 0 where
  put : List ℕ → Value → Operation
  drop_key : List ℕ → Operation

abbrev pub key_of : Operation → List ℕ
key_of (put key value) = key
key_of (drop_key key) = key

abbrev pub OnBytes : Operation → Type 0
OnBytes op = IsBytes (key_of op)

abbrev pub operate : NodeSource → TrieDbMut → Operation → Result (Option Value × TrieDbMut)
operate db t (put key value) = insert db t key value
operate db t (drop_key key) = remove db t key

-- The trie after a list of operations.
unfoldable pub run_all : NodeSource → TrieDbMut → List Operation → Result TrieDbMut
run_all db t [] = ok t
run_all db t (op ∷ ops) = do (old, after) ← operate db t op; run_all db after ops

-- What an operation leaves at its key.
abbrev pub left_at : Operation → Option Value
left_at (put key []) = none
left_at (put key (b ∷ value)) = some (b ∷ value)
left_at (drop_key key) = none

-- The function on keys that a list of operations makes of another.
unfoldable pub meant_from : Reading → List Operation → Reading
meant_from g [] key = g key
meant_from g (op ∷ ops) key =
    meant_from (λ k. if same k (key_of op) then left_at op else g k) ops key

abbrev pub meant : List Operation → Reading
meant ops = meant_from (λ key. none) ops

nibbles_of-eq : (a b : List ℕ) → nibbles_of a ≡ nibbles_of b → same a b ≡ true
unfolding nibbles_of same
nibbles_of-eq [] [] e = refl
nibbles_of-eq [] (y ∷ b) e = absurd (never_nil (sym e))
  where
    never_nil : (y / 16) ∷ (y % 16) ∷ nibbles_of b ≡ [] → ⊥
    never_nil h = cc
nibbles_of-eq (x ∷ a) [] e = absurd (never_nil e)
  where
    never_nil : (x / 16) ∷ (x % 16) ∷ nibbles_of a ≡ [] → ⊥
    never_nil h = cc
nibbles_of-eq (x ∷ a) (y ∷ b) e =
    let high : x / 16 ≡ y / 16 = cc in
    let low : x % 16 ≡ y % 16 = cc in
    let rest : nibbles_of a ≡ nibbles_of b = cc in
    let here : (x == y) ≡ true = ground arith in rw here (nibbles_of-eq a b rest)

-- Two keys are the same if their nibbles are.
pub same-nibbles_of : (a b : List ℕ) → same (nibbles_of a) (nibbles_of b) ≡ same a b
same-nibbles_of a b =
    Bool_iff (same (nibbles_of a) (nibbles_of b)) (same a b)
      (λ e. nibbles_of-eq a b (same→eq (nibbles_of a) (nibbles_of b) e))
      (λ e. ap (λ c. same (nibbles_of c) (nibbles_of b)) (same→eq a b e) ∙ same_refl (nibbles_of b))

-- A list that is not the nibbles of a key.
abbrev pub NoKey : List ℕ → Type 0
NoKey k = (key : List ℕ) → IsBytes key → same k (nibbles_of key) ≡ false

-- The tree holds the function's values at its keys, and no other ones.
pub record Agrees (m : Option Tree) (g : Reading) : Type 0 where
  pub on_keys : (key : List ℕ) → IsBytes key → value_below m (nibbles_of key) ≡ g key
  pub elsewhere : (k : List ℕ) → NoKey k → value_below m k ≡ none

pub record Ran (r : Result TrieDbMut) (g : Reading) : Type 0 where
  pub trie : TrieDbMut
  pub tree : Option Tree
  pub runs : r ≡ ok trie
  pub holds : Holds trie tree
  pub agrees : Agrees tree g
  pub row : OnlyNull trie.death_row

module _ (db : NodeSource) (null : HasNull db) where
  operate-After :
      (op : Operation) (t : TrieDbMut) (m : Option Tree)
      → OnBytes op
      → Holds t m
      → After t
          (operate db t op)
          (value_below m (nibbles_of (key_of op)))
          (λ k. if same k (nibbles_of (key_of op)) then left_at op else value_below m k)
  operate-After (put key []) t m bytes h = insert-After db null key bytes t m [] h
  operate-After (put key (b ∷ v)) t m bytes h = insert-After db null key bytes t m (b ∷ v) h
  operate-After (drop_key key) t m bytes h = remove-After db null key bytes t m h

  -- A list of operations on byte strings runs to its end, and leaves what it means.
  pub run_all-meant_from :
      (ops : List Operation) (t : TrieDbMut) (m : Option Tree) (g : Reading)
      → All OnBytes ops
      → Holds t m
      → Agrees m g
      → OnlyNull t.death_row
      → Ran (run_all db t ops) (meant_from g ops)
  unfolding run_all meant_from
  run_all-meant_from [] t m g bytes h a row = record {
    trie = t;
    tree = m;
    runs = refl;
    holds = h;
    agrees = a;
    row = row;
  }
  run_all-meant_from (op ∷ ops) t m g (bytes, rest) h a row =
      let one = operate-After op t m bytes h in
      let all =
        run_all-meant_from ops one.trie one.tree
          (λ k. if same k (key_of op) then left_at op else g k) rest one.holds
          record {
            on_keys = λ key hk.
                one.reads (nibbles_of key)
                ∙ rw (same-nibbles_of key (key_of op), a.on_keys key hk) refl;
            elsewhere = λ k hk. one.reads k ∙ rw (hk (key_of op) bytes) (a.elsewhere k hk);
          }
          (one.row row) in
      record {
        trie = all.trie;
        tree = all.tree;
        runs = rw one.runs all.runs;
        holds = all.holds;
        agrees = all.agrees;
        row = all.row;
      }

  pub new_trie-Ran :
      (ops : List Operation) → All OnBytes ops → Ran (run_all db new_trie ops) (meant ops)
  new_trie-Ran ops bytes =
      run_all-meant_from ops new_trie none (λ key. none) bytes (record { root = tt; stands = refl })
        (record { on_keys = λ key h. refl; elsewhere = λ k h. refl }) tt

  -- A new trie over a store that knows the empty trie: whatever insertions and removals of byte
  -- strings it takes, they all return, and then `get` returns at each byte string what the last one
  -- on it left, or nothing.
  pub get-run_all :
      (ops : List Operation)
      → All OnBytes ops
      → (t : TrieDbMut) × (run_all db new_trie ops ≡ ok t)
        × ((key : List ℕ) → IsBytes key → get db t key ≡ ok (meant ops key))
  get-run_all ops bytes =
      let r = new_trie-Ran ops bytes in
      (
        r.trie,
        r.runs,
        λ key h.
            get-value_below db null key h r.trie r.tree r.holds ∙ ap ok (r.agrees.on_keys key h),
      )
