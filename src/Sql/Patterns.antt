-- ===== src/Sql/Patterns.antt =====
-- internal/query/like_escape.go: LIKE patterns. A value is its text, as `fmt.Sprint` prints it; a
-- condition is its SQL and the texts that are bound to its placeholders.
pub mod Matching
pub mod Literals
pub mod Classes
use go_odata.Prelude.{
  ℕ, zero, suc, ◌+◌, length, Bool, true, false, not, ◌&&◌, ◌||◌, List, [], ◌∷◌, ◌++◌, Option, none,
  some, Bytes, codes, ◌==◌, if◌then◌else◌, map, has_prefix, reverse,
}
use go_odata.Sql.Quoting.{
  Dialect, mysql, mariadb, postgres, postgresql, sqlite, sqlite3, sqlserver, mssql, unknown,
}

abbrev pub Condition : Type 0
Condition = Bytes × List Bytes

-- The text of `ESCAPE '\\'` and of `ESCAPE '\'`.
unfoldable pub get_like_escape_clause : Dialect → Bytes
get_like_escape_clause mysql = codes "ESCAPE '\\\\'"
get_like_escape_clause _ = codes "ESCAPE '\\'"

-- The three replacements, which one pass makes.
unfoldable pub escape_byte : ℕ → Bytes
escape_byte c = if c == b'\\' || c == b'%' || c == b'_' then b'\\' ∷ c ∷ [] else c ∷ []

unfoldable pub escape_like_pattern : Bytes → Bytes
unfolding escape_byte
escape_like_pattern [] = []
escape_like_pattern (c ∷ cs) = escape_byte c ++ escape_like_pattern cs

-- The pattern of `buildLikeComparison`.
unfoldable pub like_pattern : Bool → Bool → Bytes → Bytes
unfolding escape_like_pattern
like_pattern prefix_wildcard suffix_wildcard value =
    let pattern = escape_like_pattern value in
    let behind = if prefix_wildcard then b'%' ∷ pattern else pattern in
    if suffix_wildcard then behind ++ b'%' ∷ [] else behind

-- The SQL around the column, without the escape clause.
unfoldable pub like_sql : Dialect → Bytes → Bytes
like_sql mysql column = codes "BINARY " ++ (column ++ codes " LIKE ? ")
like_sql mariadb column = codes "BINARY " ++ (column ++ codes " LIKE ? ")
like_sql sqlserver column = column ++ codes " COLLATE Latin1_General_BIN2 LIKE ? "
like_sql mssql column = column ++ codes " COLLATE Latin1_General_BIN2 LIKE ? "
like_sql _ column = column ++ codes " LIKE ? "

unfoldable pub build_like_comparison : Dialect → Bytes → Bytes → Bool → Bool → Condition
unfolding like_sql like_pattern get_like_escape_clause
build_like_comparison dialect column value prefix_wildcard suffix_wildcard = (
  like_sql dialect column ++ get_like_escape_clause dialect,
  like_pattern prefix_wildcard suffix_wildcard value ∷ [],
)

-- The state of the loop of `regexToLikePattern`: what the next byte follows.
pub data Previous : Type 0 where
  escaped quantifiable plain : Previous

-- The text up to the closing bracket with it, and what stands behind; `none` without one.
unfoldable pub class_end : Bytes → Option (Bytes × Bytes)
class_end [] = none
class_end (c ∷ cs) =
    let more = class_end cs in
    if c == b']'
    then some (c ∷ [], cs)
    else elim more [ none ↦ none | some (taken, rest) ↦ some (c ∷ taken, rest) ]

-- `%`, `_` and the backslash, which the translation keeps by a backslash.
abbrev pub is_wildcard : ℕ → Bool
is_wildcard c = c == b'%' || c == b'_'

abbrev pub is_quantifiable : Previous → Bool
is_quantifiable quantifiable = true
is_quantifiable _ = false

abbrev pub is_dropped : ℕ → Bool
is_dropped c =
    c == b'?' || c == b'|' || c == b'(' || c == b')' || c == b']' || c == b'{' || c == b'}'

-- What a round writes, and the state and the input behind it.
abbrev pub Round : Type 0
Round = Bytes × Previous × Bytes

abbrev pub class_round : Option (Bytes × Bytes) → Bytes → Round
class_round none cs = (b'[' ∷ [], quantifiable, cs)
class_round (some (taken, rest)) cs = (b'[' ∷ taken, quantifiable, rest)

abbrev pub dot_round : Bytes → Round
dot_round [] = (b'_' ∷ [], quantifiable, [])
dot_round (c ∷ cs) = if c == b'*' then (b'%' ∷ [], plain, cs) else (b'_' ∷ [], quantifiable, c ∷ cs)

unfoldable pub operator_round : Previous → ℕ → Bytes → Round
unfolding class_end
operator_round previous c cs =
    if c == b'\\'
    then ([], escaped, cs)
    else if c == b'^' || c == b'$'
    then ([], plain, cs)
    else if c == b'['
    then class_round (class_end cs) cs
    else if c == b'.'
    then dot_round cs
    else if c == b'*' || c == b'+'
    then ((if is_quantifiable previous then b'%' ∷ [] else []), plain, cs)
    else if is_dropped c
    then ([], plain, cs)
    else ((if is_wildcard c then b'\\' ∷ c ∷ [] else c ∷ []), quantifiable, cs)

unfoldable pub regex_round : Previous → ℕ → Bytes → Round
unfolding operator_round
regex_round escaped c cs =
    ((if is_wildcard c || c == b'\\' then b'\\' ∷ c ∷ [] else c ∷ []), quantifiable, cs)
regex_round previous c cs = operator_round previous c cs

-- What the loop leaves at the end of the input.
abbrev pub at_end : Previous → Bytes
at_end escaped = b'\\' ∷ []
at_end _ = []

-- The loop, a round for each byte at most.
unfoldable pub regex_loop : ℕ → Previous → Bytes → Bytes
unfolding regex_round
regex_loop zero previous cs = []
regex_loop (suc fuel) previous [] = at_end previous
regex_loop (suc fuel) previous (c ∷ cs) =
    let (out, next, rest) = regex_round previous c cs in out ++ regex_loop fuel next rest

abbrev pub has_suffix_byte : ℕ → Bytes → Bool
has_suffix_byte q [] = false
has_suffix_byte q (c ∷ []) = c == q
has_suffix_byte q (c ∷ d ∷ cs) = has_suffix_byte q (d ∷ cs)

abbrev pub has_prefix_byte : ℕ → Bytes → Bool
has_prefix_byte q [] = false
has_prefix_byte q (c ∷ cs) = c == q

-- The wildcards at the ends that are not anchored.
unfoldable pub open_end : Bytes → Bytes → Bytes
open_end pattern result =
    if not (has_suffix_byte b'$' pattern) && not (has_suffix_byte b'%' result)
    then result ++ b'%' ∷ []
    else result

unfoldable pub open_start : Bytes → Bytes → Bytes
open_start pattern result =
    if not (has_prefix_byte b'^' pattern) && not (has_prefix_byte b'%' result)
    then b'%' ∷ result
    else result

unfoldable pub regex_to_like_pattern : Bytes → Bytes
unfolding regex_loop open_start open_end
regex_to_like_pattern pattern =
    open_end pattern (open_start pattern (regex_loop (length pattern + 1) plain pattern))

abbrev with_first : ℕ → List Bytes → List Bytes
with_first c [] = (c ∷ []) ∷ []
with_first c (part ∷ parts) = (c ∷ part) ∷ parts

-- `strings.Split(pattern, "|")`
unfoldable pub split_bars : Bytes → List Bytes
split_bars [] = [] ∷ []
split_bars (c ∷ cs) =
    let parts = split_bars cs in if c == b'|' then [] ∷ parts else with_first c parts

-- `strings.Join(clauses, " OR ")` of one clause for each alternative.
unfoldable pub join_or : Bytes → List Bytes → Bytes
join_or clause [] = []
join_or clause (a ∷ []) = clause
join_or clause (a ∷ b ∷ parts) = clause ++ (codes " OR " ++ join_or clause (b ∷ parts))

unfoldable pub alternatives_condition : Bytes → List Bytes → Condition
unfolding join_or regex_to_like_pattern
alternatives_condition clause (a ∷ []) = (clause, regex_to_like_pattern a ∷ [])
alternatives_condition clause parts =
    (codes "(" ++ (join_or clause parts ++ codes ")"), map regex_to_like_pattern parts)

unfoldable pub build_regex_comparison : Dialect → Bytes → Bytes → Condition
unfolding alternatives_condition split_bars get_like_escape_clause
build_regex_comparison postgres column value = (column ++ codes " ~ ?", value ∷ [])
build_regex_comparison postgresql column value = (column ++ codes " ~ ?", value ∷ [])
build_regex_comparison sqlserver column value =
    alternatives_condition (column ++ (codes " LIKE ? " ++ get_like_escape_clause sqlserver))
      (split_bars value)
build_regex_comparison mssql column value =
    alternatives_condition (column ++ (codes " LIKE ? " ++ get_like_escape_clause mssql))
      (split_bars value)
build_regex_comparison _ column value = (column ++ codes " REGEXP ?", value ∷ [])
