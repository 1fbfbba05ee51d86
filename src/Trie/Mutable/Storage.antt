-- ===== src/Trie/Mutable/Storage.antt =====
-- `NodeStorage` of triedbmut.rs: a vector of stored nodes, with the indices of the free ones in a
-- queue, front first. What it stores is a parameter, as is what `destroy` leaves in place of it,
-- which is `Stored::New(Node::Empty)` in the source.
pub mod Owned
use aion_utils.Prelude.{
  ℕ, List, [], ◌∷◌, ◌++◌, ltb, if◌then◌else◌, length, set, ok, panic, ◌>>=◌, index, Run,
}

pub record NodeStorage (A : Type 0) : Type 0 where
  pub nodes : List A
  pub free_indices : List ℕ

module _ {A : Type 0} where
  abbrev pub no_nodes : NodeStorage A
  no_nodes = record { nodes = []; free_indices = [] }

  -- `self.nodes[idx] = stored`, which panics out of range.
  abbrev pub write : List A → ℕ → A → Run (List A)
  write nodes idx x = if ltb idx (length nodes) then ok (set nodes idx x) else panic

  -- The match on the front of the queue.
  unfoldable pub alloc_at : A → List A → List ℕ → Run (ℕ × NodeStorage A)
  alloc_at x nodes [] = ok (length nodes, record { nodes = nodes ++ (x ∷ []); free_indices = [] })
  alloc_at x nodes (idx ∷ rest) = do
    written ← write nodes idx x
    ok (idx, record { nodes = written; free_indices = rest })

  abbrev pub alloc : NodeStorage A → A → Run (ℕ × NodeStorage A)
  alloc s x = alloc_at x s.nodes s.free_indices

  unfoldable pub destroy : A → NodeStorage A → ℕ → Run (A × NodeStorage A)
  destroy blank s idx = do
    x ← index s.nodes idx
    written ← write s.nodes idx blank
    ok (x, record { nodes = written; free_indices = s.free_indices ++ (idx ∷ []) })
