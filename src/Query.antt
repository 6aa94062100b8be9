-- ===== src/Query.antt =====
-- api/routers/query.py: the search of logs.
pub mod Build
pub mod Meaning
pub mod Cache
pub mod Coherence
pub mod Typed
mod Tests
pub mod Params
