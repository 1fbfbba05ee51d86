-- ===== src/Db/Repository.antt =====
-- db/core/src/dbtransaction.rs, mockkvdb.rs and dbrepository.rs: batches of writes, the database in
-- memory, and the repository of named databases. A `HashMap` or `BTreeMap` is a list of entries; its
-- order, which `iter` and the searches by prefix depend on, is not modelled.
pub mod Writes
mod Tests
use aion_utils.Prelude.{
  ℕ, Bool, true, false, Option, none, some, List, [], ◌∷◌, ◌++◌, Outcome, ok, err,
}
use aion_utils.Db.Map.{find, put, erase}

abbrev pub Bytes : Type 0
Bytes = List ℕ

pub data DbOp : Type 0 where
  insert : Bytes → Bytes → DbOp
  delete : Bytes → DbOp

unfoldable pub op_key : DbOp → Bytes
op_key (insert key value) = key
op_key (delete key) = key

-- `MultiMap`: each name's operations, in the order that they came in.
pub record DbTransaction : Type 0 where
  pub ops : List (Bytes × List DbOp)

abbrev pub empty : DbTransaction
empty = record { ops = [] }

unfoldable pub get_vec : DbTransaction → Bytes → Option (List DbOp)
get_vec t db_name = find db_name t.ops

-- `MultiMap::insert`
abbrev pub pushed : Option (List DbOp) → DbOp → List DbOp
pushed none op = op ∷ []
pushed (some ops) op = ops ++ (op ∷ [])

unfoldable pub record_op : DbTransaction → Bytes → DbOp → DbTransaction
record_op t db_name op = record { ops = put db_name (pushed (find db_name t.ops) op) t.ops }

unfoldable pub transaction_put : DbTransaction → Bytes → Bytes → Bytes → DbTransaction
transaction_put t db_name key value = record_op t db_name (insert key value)

unfoldable pub transaction_delete : DbTransaction → Bytes → Bytes → DbTransaction
transaction_delete t db_name key = record_op t db_name (delete key)

unfoldable pub first_op : DbTransaction → Bytes → Option DbOp
first_op t db_name = elim (get_vec t db_name) [
  | none ↦ none
  | some ops ↦ elim ops [ [] ↦ none | op ∷ rest ↦ some op ]
]

unfoldable pub contains_db : DbTransaction → Bytes → Bool
contains_db t db_name = elim (get_vec t db_name) [ none ↦ false | some ops ↦ true ]

pub record Mockkvdb : Type 0 where
  pub db : List (Bytes × Bytes)

abbrev pub new_default : Mockkvdb
new_default = record { db = [] }

unfoldable pub kv_get : Mockkvdb → Bytes → Option Bytes
kv_get d k = find k d.db

-- The previous value is returned.
unfoldable pub kv_put : Mockkvdb → Bytes → Bytes → Option Bytes × Mockkvdb
kv_put d k v = (find k d.db, record { db = put k v d.db })

unfoldable pub kv_delete : Mockkvdb → Bytes → Option Bytes × Mockkvdb
kv_delete d k = (find k d.db, record { db = erase k d.db })

pub data Error : Type 0 where
  not_found : Bytes → Error
  open_error : Bytes → Bytes → Error
  flush_error : Bytes → Bytes → Error
  other : Bytes → Error

pub record MockDbRepository : Type 0 where
  pub dbs : List (Bytes × Mockkvdb)
  pub configs : List Bytes

unfoldable pub open_each : List Bytes → List (Bytes × Mockkvdb) → List (Bytes × Mockkvdb)
open_each [] dbs = dbs
open_each (db_name ∷ names) dbs = open_each names (put db_name new_default dbs)

unfoldable pub init : List Bytes → MockDbRepository
init configs = record { dbs = open_each configs []; configs = configs }

abbrev pub close_all : MockDbRepository → MockDbRepository
close_all r = record r { dbs = [] }

unfoldable pub open_all : MockDbRepository → MockDbRepository
open_all r = let closed = close_all r in record closed { dbs = open_each closed.configs closed.dbs }

unfoldable pub repository_get : MockDbRepository → Bytes → Bytes → Outcome Error (Option Bytes)
repository_get r db_name key = elim (find db_name r.dbs) [
  | none ↦ err (not_found db_name)
  | some db ↦ ok (kv_get db key)
]

abbrev pub apply : DbOp → Mockkvdb → Mockkvdb
apply (delete key) db = (kv_delete db key).1
apply (insert key value) db = (kv_put db key value).1

unfoldable pub apply_all : List DbOp → Mockkvdb → Mockkvdb
apply_all [] db = db
apply_all (op ∷ ops) db = apply_all ops (apply op db)

-- One name of the transaction: a database that is not there is passed over.
abbrev pub write_one : Bytes → List DbOp → List (Bytes × Mockkvdb) → List (Bytes × Mockkvdb)
write_one db_name ops dbs = elim (find db_name dbs) [
  | none ↦ dbs
  | some db ↦ put db_name (apply_all ops db) dbs
]

-- The loop over the transaction's names, each with what `get_vec` has for it.
unfoldable pub write_each :
    List (Bytes × List DbOp) → List (Bytes × Mockkvdb) → List (Bytes × Mockkvdb)
write_each [] dbs = dbs
write_each ((db_name, ops) ∷ rest) dbs = write_each rest (write_one db_name ops dbs)

unfoldable pub write_buffered : MockDbRepository → DbTransaction → MockDbRepository
write_buffered r t = record r { dbs = write_each t.ops r.dbs }
