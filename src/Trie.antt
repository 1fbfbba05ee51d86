-- ===== src/Trie.antt =====
-- The crates patricia_trie and triehash: nibbles, the hex-prefix form of a path, stored nodes, and
-- the trie that is changed in memory.
pub mod Nibbles
pub mod NibbleSlice
pub mod NibbleVec
pub mod Node
pub mod Lookup
pub mod Mutable
pub mod Keyed
mod Tests
