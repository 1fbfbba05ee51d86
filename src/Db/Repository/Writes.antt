-- ===== src/Db/Repository/Writes.antt =====
-- What a repository holds after a transaction: for each key, the last operation on it counts.
use aion_utils.Prelude.{
  ◌≡◌, refl, sym, ap, ◌∙◌, Option, none, some, List, [], ◌∷◌, Bool-cases, inl, inr, if◌then◌else◌,
  Outcome, ok, err,
}
use aion_utils.Db.Map.{
  same, same→eq, find, put, erase, Distinct, Distinct-put, find-put_self, find-put_other,
  find-erase_self, find-erase_other,
}
use aion_utils.Db.Repository.{
  Bytes, DbOp, pushed, record_op, insert, delete, op_key, DbTransaction, get_vec, Mockkvdb, kv_get,
  kv_put, kv_delete, Error, not_found, MockDbRepository, repository_get, apply, apply_all,
  write_one, write_each, write_buffered,
}

-- The last operation on a key.
unfoldable pub last_op : Bytes → List DbOp → Option DbOp
last_op key [] = none
last_op key (op ∷ ops) = elim (last_op key ops) [
  | some last ↦ some last
  | none ↦ if same key (op_key op) then some op else none
]

-- What it leaves under the key.
abbrev pub left_by : Option DbOp → Option Bytes → Option Bytes
left_by none old = old
left_by (some (insert key value)) old = some value
left_by (some (delete key)) old = none

kv_get-apply :
    (op : DbOp) (db : Mockkvdb) (key : Bytes)
    → kv_get (apply op db) key
      ≡ left_by (if same key (op_key op) then some op else none) (kv_get db key)
unfolding kv_get kv_put kv_delete op_key
kv_get-apply (insert k v) db key = elim (Bool-cases (same key k)) [
  | inl here ↦
      rw here (ap (λ i. find i (put k v db.db)) (same→eq key k here) ∙ find-put_self k v db.db)
  | inr other ↦ rw other (find-put_other key k v db.db other)
]
kv_get-apply (delete k) db key = elim (Bool-cases (same key k)) [
  | inl here ↦
      rw here (ap (λ i. find i (erase k db.db)) (same→eq key k here) ∙ find-erase_self k db.db)
  | inr other ↦ rw other (find-erase_other key k db.db other)
]

left_by-last :
    (o : Option DbOp) (this : Option DbOp) (old : Option Bytes)
    → left_by o (left_by this old)
      ≡ left_by (elim o as (λ _. Option DbOp) [ some last ↦ some last | none ↦ this ]) old
left_by-last none this old = refl
left_by-last (some (insert k v)) this old = refl
left_by-last (some (delete k)) this old = refl

kv_get-apply_all :
    (ops : List DbOp) (db : Mockkvdb) (key : Bytes)
    → kv_get (apply_all ops db) key ≡ left_by (last_op key ops) (kv_get db key)
unfolding apply_all last_op
kv_get-apply_all [] db key = refl
kv_get-apply_all (op ∷ ops) db key =
    kv_get-apply_all ops (apply op db) key
    ∙ ap (left_by (last_op key ops)) (kv_get-apply op db key)
    ∙ left_by-last (last_op key ops) (if same key (op_key op) then some op else none)
        (kv_get db key)

-- A database after the operations that are for it, if there are any.
abbrev pub written : Option (List DbOp) → Option Mockkvdb → Option Mockkvdb
written ops none = none
written none (some db) = some db
written (some ops) (some db) = some (apply_all ops db)

find-write_one :
    (name db_name : Bytes) (ops : List DbOp) (dbs : List (Bytes × Mockkvdb))
    → find name (write_one db_name ops dbs)
      ≡ (if same name db_name then written (some ops) (find name dbs) else find name dbs)
find-write_one name db_name ops dbs = go (find db_name dbs) refl
  where
    go :
        (m : Option Mockkvdb)
        → find db_name dbs ≡ m
        → find name (elim m as (λ _. List (Bytes × Mockkvdb)) [
          | none ↦ dbs
          | some db ↦ put db_name (apply_all ops db) dbs
        ])
          ≡ (if same name db_name then written (some ops) (find name dbs) else find name dbs)
    go none there = elim (Bool-cases (same name db_name)) [
      | inl here ↦
          let gone : find name dbs ≡ none =
            ap (λ i. find i dbs) (same→eq name db_name here) ∙ there in
          rw (here, gone) refl
      | inr other ↦ rw other refl
    ]
    go (some db) there = elim (Bool-cases (same name db_name)) [
      | inl here ↦
          let eq : name ≡ db_name = same→eq name db_name here in
          let old : find name dbs ≡ some db = ap (λ i. find i dbs) eq ∙ there in
          let stored : find name (put db_name (apply_all ops db) dbs) ≡ some (apply_all ops db) =
            ap (λ i. find i (put db_name (apply_all ops db) dbs)) eq
            ∙ find-put_self db_name (apply_all ops db) dbs in
          rw (here, old, stored) refl
      | inr other ↦ rw other (find-put_other name db_name (apply_all ops db) dbs other)
    ]

written-none : (m : Option Mockkvdb) → written none m ≡ m
written-none none = refl
written-none (some db) = refl

find-write_each :
    (name : Bytes) (ts : List (Bytes × List DbOp)) (dbs : List (Bytes × Mockkvdb))
    → Distinct ts
    → find name (write_each ts dbs) ≡ written (find name ts) (find name dbs)
unfolding write_each find Distinct
find-write_each name [] dbs d = sym (written-none (find name dbs))
find-write_each name ((db_name, ops) ∷ ts) dbs (fresh, d) = elim (Bool-cases (same name db_name)) [
  | inl here ↦
      let gone : find name ts ≡ none = ap (λ i. find i ts) (same→eq name db_name here) ∙ fresh in
      rw here (
        find-write_each name ts (write_one db_name ops dbs) d
        ∙ ap (λ o. written o (find name (write_one db_name ops dbs))) gone
        ∙ written-none (find name (write_one db_name ops dbs))
        ∙ find-write_one name db_name ops dbs
        ∙ rw here refl)
  | inr other ↦ rw other (
      find-write_each name ts (write_one db_name ops dbs) d
      ∙ ap (written (find name ts)) (find-write_one name db_name ops dbs ∙ rw other refl))
]

-- What the operations for a database leave under a key of it.
abbrev pub result : Bytes → Option (List DbOp) → Mockkvdb → Option Bytes
result key none db = kv_get db key
result key (some ops) db = left_by (last_op key ops) (kv_get db key)

-- After `write_buffered`, a key of a database holds what the last operation on it in the
-- transaction left, or what it held before if there is none, whatever the order of the names, if
-- the transaction has no name twice; reading a database that is not there is still an error.
pub repository_get-write_buffered :
    (r : MockDbRepository) (t : DbTransaction) (db_name key : Bytes)
    → Distinct t.ops
    → repository_get (write_buffered r t) db_name key
      ≡ elim (find db_name r.dbs) as (λ _. Outcome Error (Option Bytes)) [
        | none ↦ err (not_found db_name)
        | some db ↦ ok (result key (get_vec t db_name) db)
      ]
unfolding repository_get write_buffered get_vec
repository_get-write_buffered r t db_name key d =
    ap
      (λ m. elim m as (λ _. Outcome Error (Option Bytes)) [
        | none ↦ err (not_found db_name)
        | some db ↦ ok (kv_get db key)
      ])
      (find-write_each db_name t.ops r.dbs d)
    ∙ go (find db_name t.ops) (find db_name r.dbs)
  where
    go :
        (o : Option (List DbOp)) (m : Option Mockkvdb)
        → elim (written o m) as (λ _. Outcome Error (Option Bytes)) [
          | none ↦ err (not_found db_name)
          | some db ↦ ok (kv_get db key)
        ]
          ≡ elim m as (λ _. Outcome Error (Option Bytes)) [
            | none ↦ err (not_found db_name)
            | some db ↦ ok (result key o db)
          ]
    go none none = refl
    go (some ops) none = refl
    go none (some db) = refl
    go (some ops) (some db) = ap ok (kv_get-apply_all ops db key)

-- Recording an operation keeps each name of a transaction once.
pub record_op-Distinct :
    (t : DbTransaction) (db_name : Bytes) (op : DbOp)
    → Distinct t.ops
    → Distinct (record_op t db_name op).ops
unfolding record_op
record_op-Distinct t db_name op d = Distinct-put db_name (pushed (find db_name t.ops) op) t.ops d
