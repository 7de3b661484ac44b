-- ===== src/Filter/Keywords.antt =====
-- internal/query/tokenizer.go: the classification of a name as a keyword.
use go_odata.Prelude.{
  Bool, ◌||◌, List, [], ◌∷◌, Option, none, some, Bytes, codes, bytes_eq, length, ◌==◌,
  if◌then◌else◌,
}
use go_odata.Filter.Token.{TokenType}
use go_odata.Filter.Chars.{equals_fold_ascii}

unfoldable pub keyword_equals : Bool → Bytes → Bytes → Bool
unfolding equals_fold_ascii bytes_eq
keyword_equals insensitive value target =
    if insensitive then equals_fold_ascii value target else bytes_eq value target

abbrev pub Keyword : Type 0
Keyword = TokenType × Bytes

-- The cases of the switch on `len(value)`, each in the order of its tests.
abbrev pub two_letters : List Keyword
two_letters =
    (TokenType.logical, codes "or")
    ∷ (TokenType.operator, codes "eq")
    ∷ (TokenType.operator, codes "ne")
    ∷ (TokenType.operator, codes "gt")
    ∷ (TokenType.operator, codes "ge")
    ∷ (TokenType.operator, codes "lt")
    ∷ (TokenType.operator, codes "le")
    ∷ (TokenType.operator, codes "in")
    ∷ []

abbrev pub three_letters : List Keyword
three_letters =
    (TokenType.logical, codes "and")
    ∷ (TokenType.not, codes "not")
    ∷ (TokenType.operator, codes "has")
    ∷ (TokenType.arithmetic, codes "add")
    ∷ (TokenType.arithmetic, codes "sub")
    ∷ (TokenType.arithmetic, codes "mul")
    ∷ (TokenType.arithmetic, codes "div")
    ∷ (TokenType.arithmetic, codes "mod")
    ∷ (TokenType.number, codes "inf")
    ∷ (TokenType.number, codes "nan")
    ∷ []

abbrev pub four_letters : List Keyword
four_letters = (TokenType.boolean, codes "true") ∷ (TokenType.null, codes "null") ∷ []

abbrev pub five_letters : List Keyword
five_letters = (TokenType.boolean, codes "false") ∷ (TokenType.arithmetic, codes "divby") ∷ []

-- The first keyword that the value equals.
unfoldable pub first_keyword : Bool → Bytes → List Keyword → Option Keyword
unfolding keyword_equals
first_keyword insensitive value [] = none
first_keyword insensitive value ((type, target) ∷ more) =
    if keyword_equals insensitive value target
    then some (type, target)
    else first_keyword insensitive value more

unfoldable pub classify_keyword_fast : Bool → Bytes → Option Keyword
unfolding first_keyword
classify_keyword_fast insensitive value =
    let size = length value in
    if size == 2
    then first_keyword insensitive value two_letters
    else if size == 3
    then first_keyword insensitive value three_letters
    else if size == 4
    then first_keyword insensitive value four_letters
    else if size == 5
    then first_keyword insensitive value five_letters
    else none

-- The names that stay identifiers before a parenthesis.
unfoldable pub is_function_keyword : Bool → Bytes → Bool
unfolding keyword_equals
is_function_keyword insensitive value =
    keyword_equals insensitive value (codes "add")
    || keyword_equals insensitive value (codes "sub")
    || keyword_equals insensitive value (codes "mul")
    || keyword_equals insensitive value (codes "div")
    || keyword_equals insensitive value (codes "mod")
    || keyword_equals insensitive value (codes "has")
