-- ===== src/Version.antt =====
-- internal/version/version.go: versions of OData, their order and their negotiation. The context
-- that carries a version and the log are not modelled.
pub mod Negotiation
mod Examples
use go_odata.Prelude.{
  ℕ, Bool, true, false, not, ◌&&◌, ◌||◌, List, [], ◌∷◌, Option, none, some, Result, ok, err,
  out_of_fuel, Bytes, codes, bytes_eq, trim_bytes, ℤ, pos, int_less, int_eq, if◌then◌else◌, any,
  parse_int,
}
use go_odata.Filter.Values.{cut}

pub record Version : Type 0 where
  pub major : ℤ
  pub minor : ℤ

abbrev pub version : ℕ → ℕ → Version
version major minor = record { major = pos major; minor = pos minor }

unfoldable pub less_than_or_equal : Version → Version → Bool
less_than_or_equal v other =
    if not (int_eq v.major other.major)
    then int_less v.major other.major
    else not (int_less other.minor v.minor)

-- The features that the switch of `Supports` names.
abbrev pub features : List Bytes
features =
    codes "in-operator"
    ∷ codes "divby-operator"
    ∷ codes "case-insensitive-functions"
    ∷ codes "key-as-segments"
    ∷ codes "schemaversion"
    ∷ codes "matchespattern"
    ∷ codes "unprefixed-preferences"
    ∷ []

unfoldable pub supports : Version → Bytes → Bool
unfolding bytes_eq
supports v feature =
    any (bytes_eq feature) features
    && (int_less (pos 4) v.major || int_eq v.major (pos 4) && not (int_less v.minor (pos 1)))

pub data VersionError : Type 0 where
  empty_version invalid_major : VersionError

-- The second part of the split, as a number; `none` is a text without a period.
unfoldable pub minor_of : Option Bytes → ℤ
unfolding parse_int cut
minor_of none = pos 0
minor_of (some behind) = elim (parse_int (cut b'.' behind).0) [ none ↦ pos 0 | some n ↦ n ]

unfoldable pub parse_trimmed : Bytes → Result VersionError Version
unfolding parse_int cut minor_of
parse_trimmed [] = err empty_version
parse_trimmed (c ∷ cs) =
    let (first, behind) = cut b'.' (c ∷ cs) in
    elim (parse_int first) [
      | none ↦ err invalid_major
      | some major ↦ ok (record { major = major; minor = minor_of behind })
    ]

-- `strconv.Atoi` is `strconv.ParseInt` at the 64 bits of an int.
unfoldable pub parse_version : Bytes → Result VersionError Version
unfolding parse_trimmed trim_bytes
parse_version text = parse_trimmed (trim_bytes text)

unfoldable pub parse_version_string : Bytes → Version
unfolding parse_version
parse_version_string text = elim (parse_version text) [ ok v ↦ v | _ ↦ version 0 0 ]

abbrev pub supported_versions : List Version
supported_versions = version 4 1 ∷ version 4 0 ∷ []

-- The loop of `NegotiateVersion`, and what follows it.
unfoldable pub first_supported : Version → List Version → Version
unfolding less_than_or_equal
first_supported client_max [] = version 4 0
first_supported client_max (supported ∷ more) =
    if less_than_or_equal supported client_max then supported else first_supported client_max more

unfoldable pub negotiate_version : Bytes → Version
unfolding first_supported parse_version_string
negotiate_version [] = version 4 1
negotiate_version (c ∷ cs) = first_supported (parse_version_string (c ∷ cs)) supported_versions
