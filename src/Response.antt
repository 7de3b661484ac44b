-- ===== src/Response.antt =====
-- internal/response: how entities are written.
pub mod OrderedMap
pub mod Integers
