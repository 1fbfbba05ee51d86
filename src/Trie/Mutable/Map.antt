-- ===== src/Trie/Mutable/Map.antt =====
-- `TrieDBMut` as a map from keys: what `get`, `insert` and `remove` of triedbmut.rs do to a trie that
-- is in memory or empty, whatever was done to it before.
pub mod Runs
pub mod History
use aion_utils.Prelude.{
  ℕ, zero, suc, ◌+◌, ◌*◌, ◌≤◌, ◌<◌, ◌≡◌, refl, ap, sym, ◌∙◌, Bool, true, false, Option, none, some,
  List, [], ◌∷◌, ◌==◌, if◌then◌else◌, arith, length, ok, Outcome, All, Bool-cases, inl, inr,
}
use aion_utils.Prelude.Words.{IsBytes}
use aion_utils.Db.Map.{same}
use aion_utils.Db.Memory.{blake2b_null_rlp}
use aion_utils.Trie.Nibbles.{nibbles_of, length-nibbles_of}
use aion_utils.Trie.NibbleSlice.{NibbleSlice, new, encoded}
use aion_utils.Trie.NibbleSlice.Own.{Views, new-Views, Views-IsNibble, encoded-Views}
use aion_utils.Trie.Mutable.{
  include, H256, Value, Result, Node, empty, NodeHandle, hash, NodeSource, Effects, lookup, inspect,
}
use aion_utils.Trie.Mutable.Insert.{insert_at, insert_inspector}
use aion_utils.Trie.Mutable.Insert.Inserts.{Inserted, insert_at_lem}
use aion_utils.Trie.Mutable.Insert.Laws.{insert_inspector-value_at}
use aion_utils.Trie.Mutable.Remove.{remove_at, remove_inspector}
use aion_utils.Trie.Mutable.Remove.Removes.{RemovesAt, gone, unchanged, changed, remove_at_lem}
use aion_utils.Trie.Mutable.Remove.Laws.{remove_inspector-value_at}
use aion_utils.Trie.Mutable.Database.{TrieDbMut, get, insert, insert_value, remove, fuel_for, start}
use aion_utils.Trie.Mutable.Shape.{Tree, tip, node_of, value_at, IsTrie}
use aion_utils.Trie.Mutable.Shape.Forests.{handle_of, value_below}
use aion_utils.Trie.Mutable.Shape.Lookup.{lookup-value_at}
use aion_utils.Trie.Mutable.Shape.Reads.{set_at, unset_at, tip-set_at, left_alone}

-- What the store answers for the hash of the empty trie.
pub record HasNull (db : NodeSource) : Type 0 where
  pub null_loads : db.load blake2b_null_rlp ≡ ok empty
  pub null_looks_up : (s : NibbleSlice) → db.look_up blake2b_null_rlp s ≡ ok none

-- The root of a trie in memory, or of the empty one.
abbrev pub handle_for : Option Tree → NodeHandle
handle_for none = hash blake2b_null_rlp
handle_for (some t) = handle_of t

abbrev pub IsRoot : Option Tree → Type 0
IsRoot none = Unit {0}
IsRoot (some t) = IsTrie t

-- The trie holds a tree in its canonical form, or is empty.
pub record Holds (t : TrieDbMut) (m : Option Tree) : Type 0 where
  pub root : IsRoot m
  pub stands : t.root_handle ≡ handle_for m

-- A death row that names no node but the null one, which a store never removes.
abbrev pub OnlyNull : List H256 → Type 0
OnlyNull row = All (λ h. h ≡ blake2b_null_rlp) row

include-OnlyNull : (row : List H256) → OnlyNull row → OnlyNull (include blake2b_null_rlp row)
unfolding include
include-OnlyNull [] h = (refl, tt)
include-OnlyNull (g ∷ row) (hg, h) = elim (Bool-cases (same g blake2b_null_rlp)) [
  | inl e ↦ rw e (hg, h)
  | inr e ↦ rw e (hg, include-OnlyNull row h)
]

-- The trie after an operation on `t` that returns the value before. Nothing in memory is on its death
-- row.
pub record After (t : TrieDbMut) (r : Result (Option Value × TrieDbMut)) (old : Option Value)
    (g : List ℕ → Option Value) : Type 0 where
  pub trie : TrieDbMut
  pub tree : Option Tree
  pub runs : r ≡ ok (old, trie)
  pub holds : Holds trie tree
  pub row : OnlyNull t.death_row → OnlyNull trie.death_row
  pub reads : (k : List ℕ) → value_below tree k ≡ g k

module _ (db : NodeSource) (null : HasNull db) (key : List ℕ) (bytes : IsBytes key) where
  enough : length (nibbles_of key) + 4 ≤ fuel_for key
  enough = omega (arith, length-nibbles_of key)

  -- `get` of a byte string is what the tree holds.
  pub get-value_below :
      (t : TrieDbMut) (m : Option Tree)
      → Holds t m
      → get db t key ≡ ok (value_below m (nibbles_of key))
  unfolding get lookup
  get-value_below t none h =
      let fuel : fuel_for key ≡ suc (length key * 6 + 5) = omega arith in
      ap (lookup db (fuel_for key) (new key)) h.stands ∙ rw fuel (null.null_looks_up (new key))
  get-value_below t (some u) h =
      ap (lookup db (fuel_for key) (new key)) h.stands
      ∙ lookup-value_at db (fuel_for key) u (new key) (nibbles_of key) h.root (new-Views key bytes)
          (omega (arith, enough))

  -- An insertion sets the key.
  pub insert_value-After :
      (t : TrieDbMut) (m : Option Tree) (v : Value)
      → Holds t m
      → After t
          (insert_value db t key v)
          (value_below m (nibbles_of key))
          (set_at (nibbles_of key) v (value_below m))
  unfolding insert_at inspect insert_inspector node_of IsTrie
  insert_value-After t none v h =
      let fuel : fuel_for key ≡ suc (length key * 6 + 5) = omega arith in
      let vs = new-Views key bytes in
      record {
        trie = record t {
          root_handle = handle_of (tip (nibbles_of key) v);
          death_row = include blake2b_null_rlp t.death_row;
        };
        tree = some (tip (nibbles_of key) v);
        runs =
            rw (h.stands, null.null_loads, fuel, encoded-Views (new key) (nibbles_of key) vs true)
              refl;
        holds = record { root = Views-IsNibble (new key) (nibbles_of key) vs; stands = refl };
        row = include-OnlyNull t.death_row;
        reads = tip-set_at (nibbles_of key) v;
      }
  insert_value-After t (some u) v h =
      let again = insert_inspector db (fuel_for key) in
      let (u', b, run, good) = insert_at_lem db again u (new key) (nibbles_of key) v t.death_row (
        insert_inspector-value_at db v t.death_row (fuel_for key) u (new key) (nibbles_of key)
          h.root (new-Views key bytes) (omega (arith, enough))) in
      record {
        trie = record t { root_handle = handle_of u' };
        tree = some u';
        runs = rw (h.stands, run) refl;
        holds = record { root = good.shape; stands = refl };
        row = λ row. row;
        reads = good.reads;
      }

  removed_from :
      (t : TrieDbMut) (u : Tree)
      → t.root_handle ≡ handle_of u
      → RemovesAt
          (remove_at db (remove_inspector db (fuel_for key)) (handle_of u) (new key) (start t))
          (nibbles_of key)
          u
          t.death_row
      → After t
          (remove db t key)
          (value_at u (nibbles_of key))
          (unset_at (nibbles_of key) (value_at u))
  unfolding remove
  removed_from t u stands (gone run left f) = record {
    trie = record {
      root = blake2b_null_rlp;
      root_handle = hash blake2b_null_rlp;
      death_row = t.death_row;
    };
    tree = none;
    runs = rw (stands, run) refl;
    holds = record { root = tt; stands = refl };
    row = λ row. row;
    reads = λ k. sym (left k);
  }
  removed_from t u stands (unchanged u' run h f reads) = record {
    trie = record t { root_handle = handle_of u' };
    tree = some u';
    runs = rw (stands, run) refl;
    holds = record { root = h; stands = refl };
    row = λ row. row;
    reads = reads;
  }
  removed_from t u stands (changed u' run h reads) = record {
    trie = record t { root_handle = handle_of u' };
    tree = some u';
    runs = rw (stands, run) refl;
    holds = record { root = h; stands = refl };
    row = λ row. row;
    reads = reads;
  }

  -- A removal leaves the key out.
  pub remove-After :
      (t : TrieDbMut) (m : Option Tree)
      → Holds t m
      → After t
          (remove db t key)
          (value_below m (nibbles_of key))
          (unset_at (nibbles_of key) (value_below m))
  unfolding remove remove_at inspect remove_inspector
  remove-After t none h =
      let fuel : fuel_for key ≡ suc (length key * 6 + 5) = omega arith in
      record {
        trie = record {
          root = blake2b_null_rlp;
          root_handle = hash blake2b_null_rlp;
          death_row = include blake2b_null_rlp t.death_row;
        };
        tree = none;
        runs = rw (h.stands, null.null_loads, fuel) refl;
        holds = record { root = tt; stands = refl };
        row = include-OnlyNull t.death_row;
        reads = λ k. left_alone (nibbles_of key) (value_below none) refl k;
      }
  remove-After t (some u) h = removed_from t u h.stands (
      remove_at_lem db (remove_inspector db (fuel_for key)) u (new key) (nibbles_of key) t.death_row
        (remove_inspector-value_at db t.death_row (fuel_for key) u (new key) (nibbles_of key) h.root
          (new-Views key bytes) (omega (arith, enough))))

  -- What an insertion leaves at the key: an empty value takes it out.
  abbrev pub written : Value → (List ℕ → Option Value) → List ℕ → Option Value
  written [] g = unset_at (nibbles_of key) g
  written (b ∷ v) g = set_at (nibbles_of key) (b ∷ v) g

  -- `insert` on a trie in its canonical form or on the empty one, at a byte string: it returns the
  -- value before, and leaves a trie in its canonical form, or the empty one, that holds the new value
  -- at the key, or none if the value is empty, and the old ones at every other key; if the death row
  -- named no node but the null one, it names no other after.
  pub insert-After :
      (t : TrieDbMut) (m : Option Tree) (v : Value)
      → Holds t m
      → After t (insert db t key v) (value_below m (nibbles_of key)) (written v (value_below m))
  unfolding insert
  insert-After t m [] h = remove-After t m h
  insert-After t m (b ∷ v) h = insert_value-After t m (b ∷ v) h
