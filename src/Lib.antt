-- ===== src/Lib.antt =====
-- A model of the Rust crates of aion_utils, and proofs about it.
--
-- The crate rlp (rlp/src), Rlp.antt and the files below it:
-- Rlp/Error has the decoder's errors (error.rs). Rlp/Header has `PayloadInfo::from`,
-- `calculate_payload_info`, `BasicDecoder::payload_info` (untrusted_rlp.rs) and `decode_usize`
-- (impls.rs). Rlp/Untrusted has the view `UntrustedRlp` with its offset cache and its count cache:
-- `at`, `item_count`, the iterator, the tests on the first byte, and `decode_value`. A method that
-- writes a `Cell` returns the view beside its result. Rlp/Stream has `RlpStream` and `BasicEncoder`
-- (stream.rs): the buffer, the stack of unfinished lists with its back first, and the reserved
-- bytes that a list's header replaces when the list is complete. Rlp/Impls has the `Encodable` and
-- `Decodable` implementations (impls.rs). Rlp/Format is the RLP format, written down without the
-- code: items, their encoding and their number.
--
-- Numbers are natural numbers. A byte is a number below 256, `usize` has 64 bits, and what wraps in
-- the source wraps in the model. A call returns `ok`, an `err` of the source's error type, or
-- `panic` (Prelude/Outcomes): slices and indices out of range panic, and so do `unwrap`, `expect`
-- and `panic!`. `usize` differences that would be below 0 panic where the code takes one.
--
-- Fuel: the iterator of a view runs on as many rounds as the view has bytes and one more. Each item
-- takes a byte at least, so this is enough.
--
-- The crate patricia_trie (patricia_trie/src), Trie.antt and the files below it, in part:
-- Trie/NibbleSlice has `NibbleSlice` (nibbleslice.rs), a view of one or two byte strings by nibbles,
-- with its comparisons and its hex-prefix encoding. Trie/NibbleVec has `NibbleVec` (nibblevec.rs).
-- Trie/Nibbles has the nibbles of a byte string. The loops run on as many rounds as there are
-- positions left. A slice is good (`IsSlice`) when it holds bytes and its offsets lie in them.
--
-- Trie/Node has `Node::decoded` and `Node::encoded` (node.rs), on the view of Rlp/Trusted (rlp's
-- rlpin.rs), which unwraps what `UntrustedRlp` returns. Trie/Mutable has `TrieDBMut`
-- (triedbmut.rs): the types `Node`, `NodeHandle` and `Stored`, `inspect` and `lookup`;
-- Trie/Mutable/Insert has `insert_at` and `insert_inspector`, Trie/Mutable/Remove has
-- `remove_at`, `remove_inspector` and `fix`, and Trie/Mutable/Database the trie itself and its
-- `TrieMut` operations. A handle is not copied and owns its node, so the model's handle holds
-- the node: Trie/Mutable/Storage has the `NodeStorage` in which the source keeps it. The set of
-- hashes on death row is a list. Trie/Mutable/Commit has `commit`, `commit_node` and `into_rlp`,
-- over the writer of rlp and `MemoryDB`, with the hash function as a parameter. What the
-- database holds comes through `NodeSource`: `cache`, and `Lookup::look_up` from a hash on.
-- Trie/Lookup has `Lookup` (lookup.rs), for a query that records nothing, over any
-- `HashStore::get`, and Trie/Mutable/Load has `from_rlp`, `inline_or_hash` and `cache`, and the
-- `NodeSource` that a store gives (`source`). `look_up` runs on fuel, one round for each node,
-- and has one more than the key has nibbles: in a canonical trie each node but the last takes a
-- nibble. `from_rlp` has one round more than the node has bytes, since an inline child is
-- shorter than its parent. The branches of an inspector are functions that take the calls they
-- make. An
-- operation runs on six rounds for each byte of the key and six more: each nibble takes three
-- calls of an inspector at most, and with `fix` four more come at the end. Trie/Mutable/Shape
-- has what a trie in memory stands for: a tree in a canonical form, with the value that it holds
-- at each list of nibbles, and Trie/Mutable/Commit/Items the items of RLP that its nodes are.
-- The theorems on insertion and removal are about tries in memory that were made from the empty
-- one, those on reading also about committed ones; `HasNull` says that the store answers for the
-- empty trie's hash as `MemoryDB` does. `IsDigest` is what is asked of the hash function: 32 bytes,
-- the known hash of the null node, and no two with one hash among the byte strings that satisfy
-- `P`, a predicate the theorems leave open. `Room` is what they ask of a store before a commit, under
-- the hashes of those byte strings only: what is counted there is that byte string, and there is
-- room for more counts. Entries at other keys may hold anything.
-- Trie/Keyed has the databases over these: `TrieDB` by its root (triedb.rs), `SecTrieDB` and
-- `SecTrieDBMut`, whose keys are hashed, and `FatDBMut`'s insert and remove.
--
-- The crate triehash (triehash/src/lib.rs), TrieHash.antt and the files below it: TrieHash has the
-- nibbles of a key, the shared prefix of two keys and the hex-prefix encoding, and TrieHash/Roots
-- the root functions, `hash256rlp` and `hash256aux`, with the hash function as a parameter. A
-- `BTreeMap` is a list of pairs sorted by their keys. `hash256rlp` runs on as many rounds as all
-- the keys have nibbles together and one more: each call takes a nibble of the keys at least.
--
-- The crate db/core (db/core/src), Db.antt and the files below it, in part: Db/Memory has `MemoryDB`
-- (memorydb.rs), byte strings under their hashes with reference counts. The hash function is an
-- argument of `insert`, as `H256::from` is of the inherent `get`, and the theorems hold for each. Db/Map has the map that it stands on, a
-- list of entries; an `i32` count is a number below 2^32 in two's complement.
-- Db/Repository has transactions (dbtransaction.rs), the database in memory (mockkvdb.rs) and
-- `MockDbRepository` with `write_buffered` (dbrepository.rs), one database name after the other.
--
-- The crate bytes (bytes/src/lib.rs), Bytes.antt and the files below it: `BytesRef` and its `write`,
-- and the conversions between integers and bytes, on a machine that puts the little end first. The
-- loops run on as many rounds as bytes or words are to be written.
--
-- Not modelled: the iterators and the recorder of patricia_trie, the rest of the trusted view of
-- rlp, the rest of db/core, the journal databases, the hash function of blake2b, and the crates of common types, for which there are
-- no files here; and code that the repository does not hold (the database engine, big integers,
-- serde).
pub mod Bytes
pub mod Db
pub mod Prelude
pub mod Rlp
pub mod Trie
pub mod TrieHash
