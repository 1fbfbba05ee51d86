-- ===== src/Trie/Mutable/Load/Durable.antt =====
-- A new trie, a list of operations on it, its commit, and what is read from its store.
use aion_utils.Prelude.{
  ℕ, ◌≡◌, ◌≢◌, refl, ap, sym, ◌∙◌, Option, none, some, List, [], ◌∷◌, if◌then◌else◌, Bool-cases,
  inl, inr, ok, All,
}
use mathlib.Core.Path.{subst}
use aion_utils.Prelude.Words.{IsBytes}
use aion_utils.Db.Map.{same, same_refl}
use aion_utils.Db.Memory
use aion_utils.Db.Memory.{MemoryDb, remove, blake2b_null_rlp}
use aion_utils.Trie.Mutable.{H256}
use aion_utils.Trie.Mutable.Database.{TrieDbMut, new_trie, get}
use aion_utils.Trie.Mutable.Shape.{Tree}
use aion_utils.Trie.Mutable.Shape.Forests.{value_below}
use aion_utils.Trie.Mutable.Shape.Reads.{Reading}
use aion_utils.Trie.Mutable.Map.{IsRoot, Holds, OnlyNull}
use aion_utils.Trie.Mutable.Map.Runs.{
  Operation, put, drop_key, OnBytes, key_of, left_at, run_all, meant, meant_from, Agrees,
  new_trie-Ran,
}
use aion_utils.Trie.Mutable.Map.History.{key_or_none, root_unique}
use aion_utils.Trie.Mutable.Commit.{Store, Digest, commit, remove_all}
use aion_utils.Trie.Lookup.Filled.{IsDigest}
use aion_utils.Trie.Mutable.Load.{source}
use aion_utils.Trie.Mutable.Load.Committed.{source-HasNull, get-null, CanCommit, commit-Committed}

-- No operation leaves an empty value.
left_at-not_empty : (op : Operation) → left_at op ≢ some []
left_at-not_empty (put key []) e = cc
left_at-not_empty (put key (b ∷ v)) e = cc
left_at-not_empty (drop_key key) e = cc

meant_from-not_empty :
    (g : Reading) (ops : List Operation)
    → ((key : List ℕ) → g key ≢ some [])
    → (key : List ℕ) → meant_from g ops key ≢ some []
unfolding meant_from
meant_from-not_empty g [] h key = h key
meant_from-not_empty g (op ∷ ops) h key =
    meant_from-not_empty (λ k. if same k (key_of op) then left_at op else g k) ops
      (λ k. elim (Bool-cases (same k (key_of op))) [
        | inl e ↦ rw e (left_at-not_empty op)
        | inr e ↦ rw e (h k)
      ])
      key

Agrees-not_empty :
    (m : Option Tree) (g : Reading)
    → Agrees m g
    → ((key : List ℕ) → g key ≢ some [])
    → (k : List ℕ) → value_below m k ≢ some []
Agrees-not_empty m g a h k e = elim (key_or_none k) [
  | inl x ↦ h x.key (sym (a.on_keys x.key x.bytes) ∙ ap (value_below m) x.here ∙ e)
  | inr x ↦ let impossible : none ≡ some [] = sym (a.elsewhere k x) ∙ e in cc
]

pub Agrees-unique :
    (m n : Option Tree) (g : Reading) → IsRoot m → IsRoot n → Agrees m g → Agrees n g → m ≡ n
Agrees-unique m n g hm hn a b = root_unique m n hm hn (λ k. elim (key_or_none k) [
  | inl x ↦
      ap (value_below m) (sym x.here)
      ∙ a.on_keys x.key x.bytes
      ∙ sym (b.on_keys x.key x.bytes)
      ∙ ap (value_below n) x.here
  | inr x ↦ a.elsewhere k x ∙ sym (b.elsewhere k x)
])

-- A removal of the null node does nothing.
remove_all-OnlyNull : (row : List H256) (db : MemoryDb) → OnlyNull row → remove_all row db ≡ db
unfolding remove_all remove
remove_all-OnlyNull [] db h = refl
remove_all-OnlyNull (k ∷ row) db (e, h) =
    rw (e, same_refl blake2b_null_rlp) (remove_all-OnlyNull row db h)

-- A new trie over a store, any list of insertions and removals of byte strings, and `commit` into
-- that store. Let the canonical trie of what the operations mean have only encodings of fewer than
-- 2 ^ 32 bytes and fewer than 2 ^ 31 nodes to store, the hash function give 32 bytes, and the null
-- node its known hash; let `P` be a predicate on byte strings that the null node and what the commit
-- stores satisfy, and no two that satisfy it have one hash; and let the store, under the hash of a
-- byte string that satisfies `P`, have no entry, or one that belongs to that byte string if it is
-- counted, with a count that is not negative and stays below 2 ^ 31 with one more for each node
-- that is stored. Then everything returns, and `get` in the committed trie, which reads the nodes
-- from the store, returns at each byte string what the last operation on it left, or nothing. If the
-- operations leave nothing, nothing is asked of the encodings and the store.
pub get-commit-run_all :
    (digest : Digest) (P : List ℕ → Type 0) (st : Store) (ops : List Operation) (m : Option Tree)
    → IsDigest digest P
    → All OnBytes ops
    → IsRoot m
    → Agrees m (meant ops)
    → CanCommit digest P st.db m
    → (t : TrieDbMut) × (t1 : TrieDbMut) × (st1 : Store) × (run_all
          (source (Memory.get st.db))
          new_trie
          ops
        ≡ ok t)
      × (commit digest t st ≡ ok (t1, st1))
      × ((key : List ℕ)
          → IsBytes key
          → get (source (Memory.get st1.db)) t1 key ≡ ok (meant ops key))
get-commit-run_all digest P st ops m d bytes root agrees can =
    let db = source (Memory.get st.db) in
    let r = new_trie-Ran db (source-HasNull (Memory.get st.db) (get-null st.db)) ops bytes in
    let e = Agrees-unique m r.tree (meant ops) root r.holds.root agrees r.agrees in
    let holds : Holds r.trie m = rw e r.holds in
    let real =
      Agrees-not_empty m (meant ops) agrees
        (meant_from-not_empty (λ key. none) ops (λ key h. cc)) in
    let same_store = remove_all-OnlyNull r.trie.death_row st.db r.row in
    let c =
      commit-Committed digest P d r.trie st m holds real
        (subst (λ x. CanCommit digest P x m) (sym same_store) can) in
    (r.trie, c.trie, c.store, r.runs, c.runs, λ key h. c.reads key h ∙ ap ok (agrees.on_keys key h))
