-- ===== src/Preference.antt =====
-- internal/preference/preference.go: the Prefer header. Upper and lower case are those of ASCII, with
-- the letters of Unicode that have an ASCII letter for their lower case or fold to one.
pub mod Parts
pub mod Sanitized
pub mod Annotations
mod Examples
use go_odata.Prelude.{
  ℕ, zero, suc, Bool, true, false, not, ◌&&◌, ◌||◌, List, [], ◌∷◌, ◌++◌, map, Option, none, some,
  Bytes, codes, bytes_eq, has_prefix, trim_bytes, within, ℤ, pos, negsuc, parse_int, itoa, ◌==◌,
  if◌then◌else◌, length, drop, reverse, ◌+◌, select,
}
use go_odata.Etag.{is_filled, before_quote, split_commas}

pub record Preference : Type 0 where
  pub return_representation : Bool
  pub return_minimal : Bool
  pub max_page_size : Option ℤ
  pub track_changes_requested : Bool
  pub respond_async_requested : Bool
  pub allow_entity_references : Bool
  pub include_annotations : Option Bytes
  pub omit_values : Option Bytes
  pub omit_values_prefixed : Bool
  pub track_changes_applied : Bool
  pub respond_async_applied : Bool
  pub allow_entity_refs_applied : Bool
  pub include_annotations_applied : Bool
  pub omit_values_applied : Bool

abbrev pub no_preference : Preference
no_preference = record {
  return_representation = false;
  return_minimal = false;
  max_page_size = none;
  track_changes_requested = false;
  respond_async_requested = false;
  allow_entity_references = false;
  include_annotations = none;
  omit_values = none;
  omit_values_prefixed = false;
  track_changes_applied = false;
  respond_async_applied = false;
  allow_entity_refs_applied = false;
  include_annotations_applied = false;
  omit_values_applied = false;
}

abbrev pub lower_byte : ℕ → ℕ
lower_byte c = if within b'A' b'Z' c then c + 32 else c

-- `strings.ToLower`, with U+0130 to i and U+212A to k, the two letters beyond ASCII whose lower case
-- is in ASCII. Bytes of other letters stay as they are: the result is only compared with ASCII texts.
unfoldable pub to_lower : Bytes → Bytes
to_lower [] = []
to_lower (c ∷ []) = lower_byte c ∷ []
to_lower (c ∷ d ∷ []) =
    let one = to_lower (d ∷ []) in if c == 0xc4 && d == 0xb0 then b'i' ∷ [] else lower_byte c ∷ one
to_lower (c ∷ d ∷ e ∷ cs) =
    let one = to_lower (d ∷ e ∷ cs) in
    let two = to_lower (e ∷ cs) in
    let three = to_lower cs in
    if c == 0xc4 && d == 0xb0
    then b'i' ∷ two
    else if c == 0xe2 && d == 0x84 && e == 0xaa
    then b'k' ∷ three
    else lower_byte c ∷ one

-- The text with its letters folded: U+017F to s and U+212A to k besides the case.
unfoldable pub fold : Bytes → Bytes
fold [] = []
fold (c ∷ []) = lower_byte c ∷ []
fold (c ∷ d ∷ []) =
    let one = fold (d ∷ []) in if c == 0xc5 && d == 0xbf then b's' ∷ [] else lower_byte c ∷ one
fold (c ∷ d ∷ e ∷ cs) =
    let one = fold (d ∷ e ∷ cs) in
    let two = fold (e ∷ cs) in
    let three = fold cs in
    if c == 0xc5 && d == 0xbf
    then b's' ∷ two
    else if c == 0xe2 && d == 0x84 && e == 0xaa
    then b'k' ∷ three
    else lower_byte c ∷ one

-- `strings.EqualFold`
unfoldable pub equal_fold : Bytes → Bytes → Bool
unfolding fold bytes_eq
equal_fold s t = bytes_eq (fold s) (fold t)

abbrev pub emitted : Bytes → List Bytes
emitted [] = []
emitted (c ∷ cs) = (c ∷ cs) ∷ []

-- The loop of `splitPreferTokens`.
unfoldable pub split_loop : Bool → Bytes → Bytes → List Bytes
split_loop in_quote current [] = emitted current
split_loop in_quote current (c ∷ cs) =
    let quoted = split_loop (not in_quote) (current ++ c ∷ []) cs in
    let next = split_loop in_quote [] cs in
    let more = split_loop in_quote (current ++ c ∷ []) cs in
    if c == b'"' then quoted else if c == b',' && not in_quote then current ∷ next else more

unfoldable pub split_prefer_tokens : Bytes → List Bytes
unfolding split_loop
split_prefer_tokens header = split_loop false [] header

-- The value behind the name and an equals sign; the name is in lower case.
unfoldable pub preference_value : Bytes → Bytes → Bytes → Option Bytes
unfolding has_prefix
preference_value original lower name =
    if has_prefix lower (name ++ b'=' ∷ []) then some (drop (length name + 1) original) else none

unfoldable pub trim_preference_quotes : Bytes → Bytes
unfolding before_quote
trim_preference_quotes [] = []
trim_preference_quotes (c ∷ cs) =
    if c == b'"' then elim (before_quote cs) [ none ↦ c ∷ cs | some s ↦ s ] else c ∷ cs

abbrev pub positive : Option ℤ → Option ℤ
positive (some (pos (suc n))) = some (pos (suc n))
positive _ = none

abbrev pub set_page_size : Option ℤ → Preference → Preference
set_page_size none p = p
set_page_size (some n) p = record p { max_page_size = some n }

-- The default case of the switch, from its end: each function is what the source does once the
-- names before have not fitted.
unfoldable pub read_omit_values : Bytes → Bytes → Preference → Preference
unfolding preference_value trim_preference_quotes
read_omit_values p lower pref = elim (preference_value p lower (codes "omit-values")) [
  | some value ↦ record pref { omit_values = some (trim_preference_quotes value) }
  | none ↦ pref
]

unfoldable pub read_prefixed_omit_values : Bytes → Bytes → Preference → Preference
unfolding read_omit_values preference_value trim_preference_quotes
read_prefixed_omit_values p lower pref =
    elim (preference_value p lower (codes "odata.omit-values")) [
      | some value ↦ record pref {
        omit_values = some (trim_preference_quotes value);
        omit_values_prefixed = true;
      }
      | none ↦ read_omit_values p lower pref
    ]

unfoldable pub read_annotations : Bytes → Bytes → Preference → Preference
unfolding read_prefixed_omit_values preference_value trim_preference_quotes
read_annotations p lower pref = elim (preference_value p lower (codes "include-annotations")) [
  | some value ↦ record pref { include_annotations = some (trim_preference_quotes value) }
  | none ↦ read_prefixed_omit_values p lower pref
]

unfoldable pub read_prefixed_annotations : Bytes → Bytes → Preference → Preference
unfolding read_annotations preference_value trim_preference_quotes
read_prefixed_annotations p lower pref =
    elim (preference_value p lower (codes "odata.include-annotations")) [
      | some value ↦ record pref { include_annotations = some (trim_preference_quotes value) }
      | none ↦ read_annotations p lower pref
    ]

unfoldable pub read_track_changes : Bytes → Bytes → Preference → Preference
unfolding read_prefixed_annotations has_prefix
read_track_changes p lower pref =
    if has_prefix lower (codes "odata.track-changes") || has_prefix lower (codes "track-changes")
    then record pref { track_changes_requested = true }
    else read_prefixed_annotations p lower pref

unfoldable pub read_page_size : Bytes → Bytes → Preference → Preference
unfolding read_track_changes preference_value parse_int
read_page_size p lower pref = elim (preference_value p lower (codes "maxpagesize")) [
  | some value ↦ set_page_size (positive (parse_int value)) pref
  | none ↦ read_track_changes p lower pref
]

unfoldable pub read_valued : Bytes → Bytes → Preference → Preference
unfolding read_page_size preference_value parse_int
read_valued p lower pref = elim (preference_value p lower (codes "odata.maxpagesize")) [
  | some value ↦ set_page_size (positive (parse_int value)) pref
  | none ↦ read_page_size p lower pref
]

-- The switch, by the results of its comparisons.
unfoldable pub read_switch : Bool → Bool → Bool → Bool → Bytes → Bytes → Preference → Preference
unfolding read_valued
read_switch representation minimal async references p lower pref =
    if representation
    then record pref { return_representation = true }
    else if minimal
    then record pref { return_minimal = true }
    else if async
    then record pref { respond_async_requested = true }
    else if references
    then record pref { allow_entity_references = true }
    else read_valued p lower pref

unfoldable pub read_token : Bytes → Preference → Preference
unfolding read_switch to_lower bytes_eq
read_token p pref =
    let lower = to_lower p in
    read_switch (bytes_eq lower (codes "return=representation"))
      (bytes_eq lower (codes "return=minimal")) (bytes_eq lower (codes "respond-async"))
      (bytes_eq lower (codes "odata.allow-entityreferences")
        || bytes_eq lower (codes "allow-entityreferences"))
      p lower pref

unfoldable pub read_tokens : List Bytes → Preference → Preference
unfolding read_token trim_bytes
read_tokens [] pref = pref
read_tokens (t ∷ ts) pref = read_tokens ts (read_token (trim_bytes t) pref)

unfoldable pub parse_prefer : Bytes → Preference
unfolding read_tokens split_prefer_tokens
parse_prefer header = read_tokens (split_prefer_tokens header) no_preference

unfoldable pub should_return_content : Preference → Bool → Bool
should_return_content p is_post_operation =
    if is_post_operation then not p.return_minimal else p.return_representation

-- `strings.Join(parts, ", ")`
unfoldable pub join_commas : List Bytes → Bytes
join_commas [] = []
join_commas (part ∷ []) = part
join_commas (part ∷ next ∷ parts) = part ++ (codes ", " ++ join_commas (next ∷ parts))

abbrev pub on : Bool → Bytes → List Bytes
on true text = text ∷ []
on false text = []

abbrev pub on_value : Bool → Option Bytes → Bytes → Bytes → List Bytes
on_value true (some value) before behind = (before ++ (value ++ behind)) ∷ []
on_value _ _ before behind = []

abbrev pub page_size_applied : Option ℤ → List Bytes
unfolding itoa
page_size_applied none = []
page_size_applied (some n) = (codes "odata.maxpagesize=" ++ itoa n) ∷ []

unfoldable pub get_preference_applied : Preference → Bytes
unfolding join_commas page_size_applied
get_preference_applied p = join_commas (
    on p.return_representation (codes "return=representation")
    ++ (on p.return_minimal (codes "return=minimal")
        ++ (page_size_applied p.max_page_size
            ++ (on p.track_changes_applied (codes "odata.track-changes")
                ++ (on p.respond_async_applied (codes "respond-async")
                    ++ (on p.allow_entity_refs_applied (codes "odata.allow-entityreferences")
                        ++ (on_value p.include_annotations_applied p.include_annotations
                              (codes "odata.include-annotations=\"") (codes "\"")
                            ++ on_value p.omit_values_applied p.omit_values (codes "omit-values=")
                                [])))))))

unfoldable pub apply_track_changes : Preference → Preference
apply_track_changes p =
    if p.track_changes_requested then record p { track_changes_applied = true } else p

unfoldable pub apply_respond_async : Preference → Preference
apply_respond_async p =
    if p.respond_async_requested then record p { respond_async_applied = true } else p

unfoldable pub apply_allow_entity_references : Preference → Preference
apply_allow_entity_references p =
    if p.allow_entity_references then record p { allow_entity_refs_applied = true } else p

abbrev pub is_some : Option Bytes → Bool
is_some none = false
is_some (some s) = true

unfoldable pub apply_include_annotations : Preference → Preference
apply_include_annotations p =
    if is_some p.include_annotations then record p { include_annotations_applied = true } else p

unfoldable pub apply_omit_values : Bool → Preference → Preference
apply_omit_values allow_unprefixed p =
    if is_some p.omit_values && (allow_unprefixed || p.omit_values_prefixed)
    then record p { omit_values_applied = true }
    else p

abbrev pub any_nulls : List Bytes → Bool
unfolding equal_fold trim_bytes
any_nulls [] = false
any_nulls (t ∷ ts) = if equal_fold (trim_bytes t) (codes "nulls") then true else any_nulls ts

abbrev omits : Option Bytes → Bool
unfolding split_commas any_nulls
omits none = false
omits (some values) = any_nulls (split_commas values)

unfoldable pub omits_nulls : Preference → Bool
unfolding omits
omits_nulls p = if p.omit_values_applied then omits p.omit_values else false

-- The tokens that `SanitizeForAsyncDispatch` keeps.
unfoldable pub keeps_token : Bytes → Bool
unfolding equal_fold
keeps_token t = is_filled t && not (equal_fold t (codes "respond-async"))

unfoldable pub sanitize_for_async_dispatch : Bytes → Bytes
unfolding keeps_token split_commas trim_bytes join_commas
sanitize_for_async_dispatch [] = []
sanitize_for_async_dispatch (c ∷ cs) =
    join_commas (select keeps_token (map trim_bytes (split_commas (c ∷ cs))))
