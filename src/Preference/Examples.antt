-- ===== src/Preference/Examples.antt =====
-- internal/preference/preference.go: the theorems at concrete inputs, and tests.
use go_odata.Prelude.{true, false, some, Bytes, codes, ◌≡◌, refl, reverse, pos}
use go_odata.Etag.{split_commas}
use go_odata.Preference.{
  no_preference, parse_prefer, get_preference_applied, sanitize_for_async_dispatch,
  apply_respond_async, omits_nulls, apply_omit_values, split_prefer_tokens,
}
use go_odata.Preference.Sanitized.{parse_prefer-sanitize_for_async_dispatch}
use go_odata.Preference.Annotations.{
  matches_annotation_filter, last_verdict, applicable, matches_annotation_filter-last_verdict,
}

abbrev quoted_header : Bytes
quoted_header =
    codes "Respond-Async, odata.include-annotations=\"*,-My.Term\" ,maxpagesize=20,,return=minimal"

parse_prefer-sanitize_for_async_dispatch_example :
    (parse_prefer (sanitize_for_async_dispatch quoted_header)).respond_async_requested ≡ false
parse_prefer-sanitize_for_async_dispatch_example =
    parse_prefer-sanitize_for_async_dispatch quoted_header

test_parse_prefer : parse_prefer quoted_header ≡ record no_preference {
  respond_async_requested = true;
  include_annotations = some (codes "*,-My.Term");
  max_page_size = some (pos 20);
  return_minimal = true;
}
unfolding parse_prefer split_prefer_tokens
test_parse_prefer = refl

-- The comma within the quotes is taken for a separator, and gets a space.
test_sanitize :
    sanitize_for_async_dispatch quoted_header
    ≡ codes "odata.include-annotations=\"*, -My.Term\", maxpagesize=20, return=minimal"
unfolding sanitize_for_async_dispatch
test_sanitize = refl

test_applied :
    get_preference_applied (apply_respond_async (parse_prefer quoted_header))
    ≡ codes "return=minimal, odata.maxpagesize=20, respond-async"
unfolding get_preference_applied apply_respond_async parse_prefer split_prefer_tokens
test_applied = refl

test_omits_nulls :
    omits_nulls (apply_omit_values true (parse_prefer (codes "omit-values=\"defaults, NULLS\"")))
    ≡ true
unfolding omits_nulls apply_omit_values parse_prefer split_prefer_tokens
test_omits_nulls = refl

matches_annotation_filter-last_verdict_example :
    matches_annotation_filter (codes "My.Term") (codes "*, -My.*, my.term")
    ≡ last_verdict false
        (reverse (applicable (codes "My.Term") (split_commas (codes "*, -My.*, my.term"))))
matches_annotation_filter-last_verdict_example =
    matches_annotation_filter-last_verdict (codes "My.Term") (codes "*, -My.*, my.term")

test_annotations : matches_annotation_filter (codes "My.Term") (codes "*, -My.*") ≡ false
unfolding matches_annotation_filter
test_annotations = refl
