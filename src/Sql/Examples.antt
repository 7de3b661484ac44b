-- ===== src/Sql/Examples.antt =====
-- internal/query: the theorems on SQL at concrete inputs, and tests.
use go_odata.Prelude.{true, false, [], ◌∷◌, ◌++◌, some, codes, ◌≡◌, ◌≢◌, refl, arith, select}
use go_odata.Etag.{is_filled}
use go_odata.Sql.Quoting.{mysql, mssql, postgres, quote_ident, quote_table_name, split_dots}
use go_odata.Sql.Quoting.Reading.{
  read_name, read_parts, read_name-quote_ident, read_parts-quote_table_name,
}
use go_odata.Sql.Patterns.{like_pattern, regex_to_like_pattern, build_like_comparison}
use go_odata.Sql.Patterns.Matching.{like, matches_value}
use go_odata.Sql.Patterns.Classes.{class_like, like_in, like_in-like_pattern}
use go_odata.Sql.Patterns.Literals.{like-regex_to_like_pattern}

read_name-quote_ident_example :
    read_name postgres (quote_ident postgres (codes "na\"me; DROP") ++ codes " = ?")
    ≡ some (codes "na\"me; DROP", codes " = ?")
read_name-quote_ident_example =
    read_name-quote_ident postgres b'n' (codes "a\"me; DROP") (codes " = ?") refl

test_quote_ident : quote_ident mssql (codes "a]b") ≡ codes "[a]]b]"
unfolding quote_ident
test_quote_ident = refl

two_parts :
    select is_filled (split_dots (codes "sales..orders")) ≡ codes "sales" ∷ codes "orders" ∷ []
unfolding split_dots
two_parts = refl

filled_parts : select is_filled (split_dots (codes "sales..orders")) ≢ []
filled_parts = λ h. cc (h, two_parts)

read_parts-quote_table_name_example :
    read_parts 2 mysql (quote_table_name mysql (codes "sales..orders") ++ codes " AS t")
    ≡ some (select is_filled (split_dots (codes "sales..orders")), codes " AS t")
read_parts-quote_table_name_example =
    read_parts-quote_table_name 2 mysql (codes "sales..orders") (codes " AS t") filled_parts
      (rw two_parts (omega arith)) refl refl refl

test_quote_table_name : quote_table_name mysql (codes "sales..orders") ≡ codes "`sales`.`orders`"
unfolding quote_table_name
test_quote_table_name = refl

like_in-like_pattern_example :
    like_in mssql (like_pattern true true (codes "50%_")) (codes "of 50%_ or")
    ≡ matches_value true true (codes "50%_") (codes "of 50%_ or")
like_in-like_pattern_example =
    like_in-like_pattern mssql true true (codes "50%_") (codes "of 50%_ or") (λ h. refl)

-- On SQL Server a value with brackets is read as a class.
test_class_misses : like_in mssql (like_pattern true true (codes "a[b]")) (codes "a[b]") ≡ false
unfolding class_like like_pattern
test_class_misses = refl

test_class_finds : like_in mssql (like_pattern true true (codes "a[b]")) (codes "ab") ≡ true
unfolding class_like like_pattern
test_class_finds = refl

test_like_pattern : like_pattern true true (codes "50%_") ≡ codes "%50\\%\\_%"
unfolding like_pattern
test_like_pattern = refl

test_like_comparison :
    build_like_comparison mysql (codes "`name`") (codes "a_") false true
    ≡ (codes "BINARY `name` LIKE ? ESCAPE '\\\\'", codes "a\\_%" ∷ [])
unfolding build_like_comparison
test_like_comparison = refl

like-regex_to_like_pattern_example :
    like (regex_to_like_pattern (codes "50%")) (codes "50% off")
    ≡ matches_value true false (codes "50%") (codes "50% off")
like-regex_to_like_pattern_example =
    like-regex_to_like_pattern b'5' (codes "0%") (codes "50% off") (refl, (refl, (refl, tt)))

test_percent_lost : like (regex_to_like_pattern (codes "50%")) (codes "50% off") ≡ false
unfolding like regex_to_like_pattern
test_percent_lost = refl

test_regex : regex_to_like_pattern (codes "^a[0-9]+.*\\.z$") ≡ codes "a[0-9]%%.z"
unfolding regex_to_like_pattern
test_regex = refl
