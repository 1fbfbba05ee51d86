-- ===== src/Db.antt =====
-- The crate db/core, in part: the map that the in-memory databases keep, the counted store, and the repository of
-- databases.
pub mod Map
pub mod Memory
pub mod Repository
mod Tests
