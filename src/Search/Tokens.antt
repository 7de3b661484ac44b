-- ===== src/Search/Tokens.antt =====
-- search_expression.go: `tokenizeSearch`.
use go_odata.Prelude.{
  ℕ, Bool, ◌||◌, List, [], ◌∷◌, reverse, Bytes, codes, bytes_eq, within, ◌==◌, if◌then◌else◌,
}

pub data SearchTokType : Type 0 where
  eof term phrase and or not l_paren r_paren : SearchTokType

abbrev pub iota : SearchTokType → ℕ
iota eof = 0
iota term = 1
iota phrase = 2
iota and = 3
iota or = 4
iota not = 5
iota l_paren = 6
iota r_paren = 7

pub record SearchTok : Type 0 where
  pub type : SearchTokType
  pub text : Bytes

abbrev pub is_type : SearchTokType → SearchTok → Bool
is_type type t = iota t.type == iota type

-- `unicode.IsSpace`
unfoldable pub is_space_rune : ℕ → Bool
is_space_rune r =
    within 9 13 r
    || r == b' '
    || r == 0x85
    || r == 0xa0
    || r == 0x1680
    || within 0x2000 0x200a r
    || r == 0x2028
    || r == 0x2029
    || r == 0x202f
    || r == 0x205f
    || r == 0x3000

abbrev trim_start : Bytes → Bytes
trim_start [] = []
trim_start (r ∷ rs) = if is_space_rune r then trim_start rs else r ∷ rs

-- `strings.TrimSpace`
unfoldable pub trim_space : Bytes → Bytes
unfolding is_space_rune
trim_space s = reverse (trim_start (reverse (trim_start s)))

abbrev pub ends_word : ℕ → Bool
ends_word r = r == b' ' || r == b'(' || r == b')' || r == b'"'

unfoldable pub word_token : Bytes → SearchTok
unfolding bytes_eq
word_token word =
    if bytes_eq word (codes "AND")
    then record { type = and; text = word }
    else if bytes_eq word (codes "OR")
    then record { type = or; text = word }
    else if bytes_eq word (codes "NOT")
    then record { type = not; text = word }
    else record { type = term; text = word }

-- Where `tokenizeSearch` stands: between tokens, in a phrase or in a word, whose runes so far it
-- has in reverse.
pub data Place : Type 0 where
  between : Place
  in_phrase in_word : Bytes → Place

abbrev bare : SearchTokType → SearchTok
bare type = record { type = type; text = [] }

-- The tokens of the runes from the place on. The loops of the source advance over the same runes
-- one after the other.
unfoldable pub tokens_from : Place → Bytes → List SearchTok
unfolding word_token
tokens_from between [] = bare eof ∷ []
tokens_from (in_phrase text) [] = record { type = phrase; text = reverse text } ∷ bare eof ∷ []
tokens_from (in_word text) [] = word_token (reverse text) ∷ bare eof ∷ []
tokens_from between (r ∷ rs) =
    let skipped = tokens_from between rs in
    let quoted = tokens_from (in_phrase []) rs in
    let started = tokens_from (in_word (r ∷ [])) rs in
    if r == b' '
    then skipped
    else if r == b'('
    then bare l_paren ∷ skipped
    else if r == b')'
    then bare r_paren ∷ skipped
    else if r == b'"'
    then quoted
    else started
tokens_from (in_phrase text) (r ∷ rs) =
    let closed = tokens_from between rs in
    let more = tokens_from (in_phrase (r ∷ text)) rs in
    if r == b'"' then record { type = phrase; text = reverse text } ∷ closed else more
tokens_from (in_word text) (r ∷ rs) =
    let word = word_token (reverse text) in
    let after = tokens_from between rs in
    let quoted = tokens_from (in_phrase []) rs in
    let more = tokens_from (in_word (r ∷ text)) rs in
    if r == b' '
    then word ∷ after
    else if r == b'('
    then word ∷ bare l_paren ∷ after
    else if r == b')'
    then word ∷ bare r_paren ∷ after
    else if r == b'"'
    then word ∷ quoted
    else more

unfoldable pub tokenize_search : Bytes → List SearchTok
unfolding tokens_from
tokenize_search input = tokens_from between input
