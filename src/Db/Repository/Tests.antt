-- ===== src/Db/Repository/Tests.antt =====
-- An application of the theorem on transactions to a repository of one database.
use aion_utils.Prelude.{ℕ, ◌≡◌, List, [], ◌∷◌, some, ok}
use aion_utils.Db.Map.{same, find, put, Distinct}
use aion_utils.Db.Repository.{
  DbTransaction, empty, insert, delete, record_op, init, repository_get, write_buffered, get_vec,
  op_key, open_each,
}
use aion_utils.Db.Repository.Writes.{repository_get-write_buffered, record_op-Distinct, last_op}

abbrev blocks : List ℕ
blocks = 98 ∷ []

-- Two writes of one key, and a removal of another.
abbrev batch : DbTransaction
batch =
    record_op
      (record_op (record_op empty blocks (insert (1 ∷ []) (7 ∷ []))) blocks (delete (2 ∷ [])))
      blocks (insert (1 ∷ []) (8 ∷ []))

batch-Distinct : Distinct batch.ops
unfolding Distinct
batch-Distinct =
    record_op-Distinct
      (record_op (record_op empty blocks (insert (1 ∷ []) (7 ∷ []))) blocks (delete (2 ∷ [])))
      blocks (insert (1 ∷ []) (8 ∷ []))
      (record_op-Distinct (record_op empty blocks (insert (1 ∷ []) (7 ∷ []))) blocks
        (delete (2 ∷ [])) (record_op-Distinct empty blocks (insert (1 ∷ []) (7 ∷ [])) tt))

repository_get-write_buffered_example :
    repository_get (write_buffered (init (blocks ∷ [])) batch) blocks (1 ∷ []) ≡ ok (some (8 ∷ []))
unfolding init open_each put find same record_op get_vec last_op op_key
repository_get-write_buffered_example =
    repository_get-write_buffered (init (blocks ∷ [])) batch blocks (1 ∷ []) batch-Distinct
