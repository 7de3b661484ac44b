-- ===== src/Version/Examples.antt =====
-- Runs of the negotiation of versions, and its theorems at small headers.
use go_odata.Prelude.{◌≡◌, refl, ◌⊎◌, codes}
use go_odata.Version.{
  Version, version, less_than_or_equal, supports, parse_version_string, negotiate_version,
}
use go_odata.Version.Negotiation.{IsAtMost, negotiate_version-best, supports-negotiate_version}

one : parse_version_string (codes " 4.01 ") ≡ version 4 1
unfolding parse_version_string
one = refl

old : negotiate_version (codes "4.0") ≡ version 4 0
unfolding negotiate_version
old = refl

four : IsAtMost (version 4 0) (parse_version_string (codes "4.02"))
unfolding parse_version_string less_than_or_equal
four = refl

negotiate_version-best_example :
    IsAtMost (negotiate_version (codes "4.02")) (parse_version_string (codes "4.02"))
    × ((v : Version)
        → (v ≡ version 4 1) ⊎ (v ≡ version 4 0)
        → IsAtMost v (parse_version_string (codes "4.02"))
        → IsAtMost v (negotiate_version (codes "4.02")))
negotiate_version-best_example = negotiate_version-best b'4' (codes ".02") four

supports-negotiate_version_example :
    supports (negotiate_version (codes "4.0")) (codes "in-operator")
    ≡ less_than_or_equal (version 4 1) (parse_version_string (codes "4.0"))
unfolding supports
supports-negotiate_version_example =
    supports-negotiate_version (codes "in-operator") b'4' (codes ".0") refl
