-- ===== src/Trie/Mutable/Remove/Removes.antt =====
-- What a removal inspector returns, and `remove_at` from it.
use aion_utils.Prelude.{ℕ, ◌≡◌, refl, Bool, true, false, Option, none, some, List, ok}
use aion_utils.Trie.NibbleSlice.{NibbleSlice}
use aion_utils.Trie.Mutable.{
  H256, NodeSource, Result, Action, replace, restore, delete, Effects, Stored, fresh, inspect,
}
use aion_utils.Trie.Mutable.Remove.{Inspector, remove_at}
use aion_utils.Trie.Mutable.Insert.Stubs.{at_start}
use aion_utils.Trie.Mutable.Shape.{Tree, node_of, value_at, IsTrie, IsFork}
use aion_utils.Trie.Mutable.Shape.Forests.{handle_of}
use aion_utils.Trie.Mutable.Shape.Reads.{unset_at}

abbrev pub ended : List ℕ → Tree → List H256 → Effects
ended ns t dead = record { old_val = value_at t ns; death_row = dead }

abbrev pub Without : List ℕ → Tree → Tree → Type 0
Without ns t u = (k : List ℕ) → value_at u k ≡ unset_at ns (value_at t) k

-- An inspector's result: a node for the trie without the key, or nothing when nothing is left.
pub data Removes (r : Result (Action × Effects)) (ns : List ℕ) (t : Tree) (dead : List H256)
    : Type 0 where
  gone :
      r ≡ ok (delete, ended ns t dead)
      → ((k : List ℕ) → unset_at ns (value_at t) k ≡ none)
      → (IsFork t → ⊥)
      → Removes r ns t dead
  restored :
      (u : Tree)
      → r ≡ ok (restore (node_of u), ended ns t dead)
      → IsTrie u
      → (IsFork t → IsFork u)
      → Without ns t u
      → Removes r ns t dead
  replaced :
      (u : Tree)
      → r ≡ ok (replace (node_of u), ended ns t dead)
      → IsTrie u
      → Without ns t u
      → Removes r ns t dead

-- The same of `remove_at`.
pub data RemovesAt (r : Result (Option (Stored × Bool) × Effects)) (ns : List ℕ) (t : Tree)
    (dead : List H256) : Type 0 where
  gone :
      r ≡ ok (none, ended ns t dead)
      → ((k : List ℕ) → unset_at ns (value_at t) k ≡ none)
      → (IsFork t → ⊥)
      → RemovesAt r ns t dead
  unchanged :
      (u : Tree)
      → r ≡ ok (some (fresh (node_of u), false), ended ns t dead)
      → IsTrie u
      → (IsFork t → IsFork u)
      → Without ns t u
      → RemovesAt r ns t dead
  changed :
      (u : Tree)
      → r ≡ ok (some (fresh (node_of u), true), ended ns t dead)
      → IsTrie u
      → Without ns t u
      → RemovesAt r ns t dead

pub remove_at_lem :
    (db : NodeSource) (inspector : Inspector) (t : Tree) (s : NibbleSlice) (ns : List ℕ)
    (dead : List H256)
    → Removes (inspector (node_of t) s (at_start dead)) ns t dead
    → RemovesAt (remove_at db inspector (handle_of t) s (at_start dead)) ns t dead
unfolding remove_at inspect
remove_at_lem db inspector t s ns dead (gone run left f) = gone (rw run refl) left f
remove_at_lem db inspector t s ns dead (restored u run h f reads) =
    unchanged u (rw run refl) h f reads
remove_at_lem db inspector t s ns dead (replaced u run h reads) = changed u (rw run refl) h reads
