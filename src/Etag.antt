-- ===== src/Etag.antt =====
-- internal/etag/etag.go: entity tags and the If-Match and If-None-Match headers. The hash of an
-- entity (reflection and xxhash) is an argument, `none` where there is no ETag property; the pool of
-- buffers only saves allocations.
pub mod Hex
pub mod Headers
mod Examples
use go_odata.Prelude.{
  ℕ, zero, suc, ◌+◌, ◌/◌, ◌%◌, ◌^◌, Bool, true, false, not, ◌&&◌, ◌||◌, List, [], ◌∷◌, ◌++◌, map,
  Option, none, some, Bytes, codes, bytes_eq, has_prefix, trim_bytes, ltb, ◌==◌, if◌then◌else◌,
  length, drop, get_elem?, select, any,
}

abbrev pub hex_table : Bytes
hex_table = codes "0123456789abcdef"

-- `hexTable[n]`, for an index within the table.
abbrev pub hex_digit : ℕ → ℕ
hex_digit n = elim (get_elem? hex_table n) [ none ↦ 0 | some c ↦ c ]

-- The shifts of `encodeHex16` and `appendHex16`, in their order.
abbrev pub shifts : List ℕ
shifts = 60 ∷ 56 ∷ 52 ∷ 48 ∷ 44 ∷ 40 ∷ 36 ∷ 32 ∷ 28 ∷ 24 ∷ 20 ∷ 16 ∷ 12 ∷ 8 ∷ 4 ∷ 0 ∷ []

-- `(v >> s) & 0xf` for each shift.
unfoldable pub encode_hex16 : ℕ → Bytes
encode_hex16 v = map (λ s. hex_digit (v / 2 ^ s % 16)) shifts

unfoldable pub generate : Option ℕ → Bytes
unfolding encode_hex16
generate none = []
generate (some hash) = codes "W/\"" ++ (encode_hex16 hash ++ codes "\"")

unfoldable pub append_json : Bytes → Option ℕ → Bytes × Bool
unfolding encode_hex16
append_json dst none = (dst, false)
append_json dst (some hash) = (dst ++ codes "\"W/\\\"" ++ encode_hex16 hash ++ codes "\\\"\"", true)

-- The text before a quote that ends it.
unfoldable pub before_quote : Bytes → Option Bytes
before_quote [] = none
before_quote (c ∷ []) = if c == b'"' then some [] else none
before_quote (c ∷ d ∷ cs) = elim (before_quote (d ∷ cs)) [ none ↦ none | some s ↦ some (c ∷ s) ]

-- The text between quotes at both ends, or the whole.
unfoldable pub unquote : Bytes → Bytes
unfolding before_quote
unquote [] = []
unquote (c ∷ cs) =
    if c == b'"' then elim (before_quote cs) [ none ↦ c ∷ cs | some s ↦ s ] else c ∷ cs

unfoldable pub parse : Bytes → Bytes
unfolding unquote has_prefix
parse etag_header =
    if ltb 2 (length etag_header) && has_prefix etag_header (codes "W/")
    then unquote (drop 2 etag_header)
    else unquote etag_header

abbrev pub in_front : ℕ → List Bytes → List Bytes
in_front c [] = (c ∷ []) ∷ []
in_front c (part ∷ parts) = (c ∷ part) ∷ parts

-- `strings.Split(header, ",")`
unfoldable pub split_commas : Bytes → List Bytes
split_commas [] = [] ∷ []
split_commas (c ∷ cs) =
    let parts = split_commas cs in if c == b',' then [] ∷ parts else in_front c parts

abbrev pub is_filled : Bytes → Bool
is_filled [] = false
is_filled (_ ∷ _) = true

unfoldable pub split_etags : Bytes → List Bytes
unfolding split_commas trim_bytes
split_etags header = select is_filled (map trim_bytes (split_commas header))

-- Whether a tag of the list matches the current one: the loop of both functions.
unfoldable pub any_matches : Bytes → Bytes → Bool
unfolding split_etags parse bytes_eq
any_matches header current_etag =
    any (λ tag. bytes_eq (parse tag) (parse current_etag)) (split_etags header)

unfoldable pub match : Bytes → Bytes → Bool
unfolding any_matches trim_bytes bytes_eq
match if_match current_etag =
    if not (is_filled if_match)
    then true
    else if bytes_eq (trim_bytes if_match) (codes "*")
    then is_filled current_etag
    else any_matches if_match current_etag

unfoldable pub none_match : Bytes → Bytes → Bool
unfolding any_matches trim_bytes bytes_eq
none_match if_none_match current_etag =
    if not (is_filled if_none_match)
    then true
    else if bytes_eq (trim_bytes if_none_match) (codes "*")
    then not (is_filled current_etag)
    else not (any_matches if_none_match current_etag)
