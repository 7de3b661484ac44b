-- ===== src/Sql/Quoting.antt =====
-- internal/query/apply_filter.go: `quoteIdent` and `quoteTableName`. The dialects are the names that
-- the switches know, and any other.
pub mod Reading
use go_odata.Prelude.{
  ℕ, Bool, true, false, List, [], ◌∷◌, ◌++◌, Bytes, ◌==◌, if◌then◌else◌, map, select,
}
use go_odata.Etag.{is_filled}

pub data Dialect : Type 0 where
  mysql mariadb postgres postgresql sqlite sqlite3 sqlserver mssql unknown : Dialect

-- `strings.ReplaceAll(s, q, q+q)`
unfoldable pub double : ℕ → Bytes → Bytes
double q [] = []
double q (c ∷ cs) = let rest = double q cs in if c == q then q ∷ q ∷ rest else c ∷ rest

-- The quotes in front of a name and behind it; the second is the one that is doubled.
unfoldable pub opening : Dialect → ℕ
opening mysql = b'`'
opening sqlserver = b'['
opening mssql = b'['
opening _ = b'"'

unfoldable pub closing : Dialect → ℕ
closing mysql = b'`'
closing sqlserver = b']'
closing mssql = b']'
closing _ = b'"'

unfoldable pub quote_ident : Dialect → Bytes → Bytes
unfolding double opening closing
quote_ident dialect [] = []
quote_ident dialect (c ∷ cs) =
    opening dialect ∷ double (closing dialect) (c ∷ cs) ++ closing dialect ∷ []

abbrev pub with_first : ℕ → List Bytes → List Bytes
with_first c [] = (c ∷ []) ∷ []
with_first c (part ∷ parts) = (c ∷ part) ∷ parts

-- `strings.Split(tableName, ".")`
unfoldable pub split_dots : Bytes → List Bytes
split_dots [] = [] ∷ []
split_dots (c ∷ cs) =
    let parts = split_dots cs in if c == b'.' then [] ∷ parts else with_first c parts

-- `strings.Join(parts, ".")`
unfoldable pub join_dots : List Bytes → Bytes
join_dots [] = []
join_dots (part ∷ []) = part
join_dots (part ∷ next ∷ parts) = part ++ b'.' ∷ join_dots (next ∷ parts)

unfoldable pub quote_parts : Dialect → Bytes → List Bytes → Bytes
unfolding quote_ident join_dots
quote_parts dialect name [] = quote_ident dialect name
quote_parts dialect name (part ∷ parts) = join_dots (map (quote_ident dialect) (part ∷ parts))

unfoldable pub quote_split : Dialect → Bytes → List Bytes → Bytes
unfolding quote_parts quote_ident
quote_split dialect name (part ∷ []) = quote_ident dialect name
quote_split dialect name parts = quote_parts dialect name (select is_filled parts)

unfoldable pub quote_table_name : Dialect → Bytes → Bytes
unfolding quote_split split_dots
quote_table_name dialect [] = []
quote_table_name dialect (c ∷ cs) = quote_split dialect (c ∷ cs) (split_dots (c ∷ cs))
