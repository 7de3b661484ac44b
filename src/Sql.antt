-- ===== src/Sql.antt =====
-- internal/query: what filters become in SQL. Sql.Quoting is the quoting of names of
-- apply_filter.go, Sql.Patterns is like_escape.go.
pub mod Quoting
pub mod Patterns
mod Examples
