-- ===== src/Preference/Annotations.antt =====
-- internal/preference/preference.go: `MatchesAnnotationFilter`.
use go_odata.Prelude.{
  Bool, true, false, not, ◌&&◌, List, [], ◌∷◌, ◌++◌, Option, none, some, Bytes, codes, bytes_eq,
  has_prefix, trim_bytes, ◌==◌, if◌then◌else◌, Bool-cases, inl, inr, ◌≡◌, refl, sym, ap, ◌∙◌, map,
  select, reverse, reverse-cons,
}
use go_odata.Etag.{is_filled, split_commas}
use go_odata.Preference.{equal_fold}

-- The text before `.*` at its end.
unfoldable pub namespace_of : Bytes → Option Bytes
namespace_of [] = none
namespace_of (c ∷ []) = none
namespace_of (c ∷ d ∷ []) = if c == b'.' && d == b'*' then some [] else none
namespace_of (c ∷ d ∷ e ∷ cs) = elim (namespace_of (d ∷ e ∷ cs)) [
  | none ↦ none
  | some ns ↦ some (c ∷ ns)
]

unfoldable pub rule_matches : Bytes → Bytes → Bool
unfolding namespace_of equal_fold has_prefix bytes_eq
rule_matches term rule = if bytes_eq rule (codes "*") then true else elim (namespace_of rule) [
  | some ns ↦ has_prefix term (ns ++ b'.' ∷ [])
  | none ↦ equal_fold term rule
]

abbrev excludes : Bytes → Bool
excludes [] = false
excludes (c ∷ cs) = c == b'-'

-- The rule without the sign.
abbrev without_sign : Bytes → Bytes
without_sign [] = []
without_sign (c ∷ cs) = if c == b'-' then cs else c ∷ cs

unfoldable pub rules_loop : Bytes → Bool → List Bytes → Bool
unfolding rule_matches trim_bytes
rules_loop term include [] = include
rules_loop term include (r ∷ rules) =
    let rule = trim_bytes r in
    rules_loop term
      (if not (is_filled rule)
        then include
        else if rule_matches term (without_sign rule)
        then not (excludes rule)
        else include)
      rules

unfoldable pub matches_annotation_filter : Bytes → Bytes → Bool
unfolding rules_loop split_commas
matches_annotation_filter term [] = false
matches_annotation_filter term (c ∷ cs) = rules_loop term false (split_commas (c ∷ cs))

-- The rules of a filter that are not empty and match the term.
abbrev pub applicable : Bytes → List Bytes → List Bytes
applicable term rules =
    select (λ r. is_filled r && rule_matches term (without_sign r)) (map trim_bytes rules)

-- What the last of some rules says, or what held before.
abbrev pub verdict : Bool → List Bytes → Bool
verdict include [] = include
verdict include (r ∷ rules) = verdict (not (excludes r)) rules

-- The rules in force, the last first.
abbrev pub last_verdict : Bool → List Bytes → Bool
last_verdict include [] = include
last_verdict include (r ∷ rules) = not (excludes r)

rules_loop-verdict :
    (term : Bytes) (include : Bool) (rules : List Bytes)
    → rules_loop term include rules ≡ verdict include (applicable term rules)
unfolding rules_loop
rules_loop-verdict term include [] = refl
rules_loop-verdict term include (r ∷ rules) =
    let rule = trim_bytes r in
    elim (Bool-cases (is_filled rule)) [
      | inr h ↦ rw (h, rules_loop, applicable) (rules_loop-verdict term include rules)
      | inl h ↦ elim (Bool-cases (rule_matches term (without_sign rule))) [
        | inl k ↦ rw (h, k) (rules_loop-verdict term (not (excludes rule)) rules)
        | inr k ↦ rw (h, k) (rules_loop-verdict term include rules)
      ]
    ]

last_verdict-end :
    (include : Bool) (rules : List Bytes) (r : Bytes)
    → last_verdict include (rules ++ r ∷ []) ≡ last_verdict (not (excludes r)) rules
last_verdict-end include [] r = refl
last_verdict-end include (x ∷ rules) r = refl

verdict-last_verdict :
    (include : Bool) (rules : List Bytes)
    → verdict include rules ≡ last_verdict include (reverse rules)
verdict-last_verdict include [] = refl
verdict-last_verdict include (r ∷ rules) =
    verdict-last_verdict (not (excludes r)) rules
    ∙ sym (
        ap (last_verdict include) (reverse-cons r rules)
        ∙ last_verdict-end include (reverse rules) r)

-- A term is included exactly if one of the filter's rules applies to it, of those between commas
-- that are not blank, and the last that does is not an exclusion.
pub matches_annotation_filter-last_verdict :
    (term filter : Bytes)
    → matches_annotation_filter term filter
      ≡ last_verdict false (reverse (applicable term (split_commas filter)))
unfolding matches_annotation_filter split_commas trim_bytes
matches_annotation_filter-last_verdict term [] = refl
matches_annotation_filter-last_verdict term (c ∷ cs) =
    rules_loop-verdict term false (split_commas (c ∷ cs))
    ∙ verdict-last_verdict false (applicable term (split_commas (c ∷ cs)))
