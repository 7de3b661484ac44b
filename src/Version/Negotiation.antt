-- ===== src/Version/Negotiation.antt =====
-- The order of versions, and the version that is negotiated.
use go_odata.Prelude.{
  ℕ, ◌≡◌, refl, sym, ap, ◌∙◌, Bool, true, false, ◌&&◌, ◌∷◌, inl, inr, ◌⊎◌, Bytes, bytes_eq,
  if◌then◌else◌, any, Bool-cases,
}
use go_odata.Version.{
  Version, version, less_than_or_equal, supports, features, parse_version_string, first_supported,
  supported_versions, negotiate_version,
}

abbrev pub IsAtMost : Version → Version → Type 0
IsAtMost v w = less_than_or_equal v w ≡ true

-- The two outcomes of the loop over the supported versions.
first_supported-cases :
    (c : Version)
    → (IsAtMost (version 4 1) c × (first_supported c supported_versions ≡ version 4 1))
      ⊎ ((less_than_or_equal (version 4 1) c ≡ false)
          × (first_supported c supported_versions ≡ version 4 0))
unfolding first_supported
first_supported-cases c = elim (Bool-cases (less_than_or_equal (version 4 1) c)) [
  | inl h ↦ inl (h, rw (h, first_supported) refl)
  | inr h ↦ inr (h, rw (h, first_supported) (last (less_than_or_equal (version 4 0) c)))
]
  where
    last : (b : Bool) → (if b then version 4 0 else version 4 0) ≡ version 4 0
    last true = refl
    last false = refl

-- A header that names a version of at least 4.0 gets a version that it takes, and no version that
-- the service supports and the header takes is higher.
pub negotiate_version-best :
    (c : ℕ) (cs : Bytes)
    → IsAtMost (version 4 0) (parse_version_string (c ∷ cs))
    → IsAtMost (negotiate_version (c ∷ cs)) (parse_version_string (c ∷ cs))
      × ((v : Version)
          → (v ≡ version 4 1) ⊎ (v ≡ version 4 0)
          → IsAtMost v (parse_version_string (c ∷ cs))
          → IsAtMost v (negotiate_version (c ∷ cs)))
unfolding negotiate_version less_than_or_equal
negotiate_version-best c cs h = elim (first_supported-cases (parse_version_string (c ∷ cs))) [
  | inl (k, e) ↦ rw e (k, λ v s l. elim s [ inl e' ↦ rw e' refl | inr e' ↦ rw e' refl ])
  | inr (k, e) ↦
      rw e (h, λ v s l. elim s [ inl e' ↦ absurd (too_low v e' l k) | inr e' ↦ rw e' refl ])
]
  where
    true_ne_false : true ≡ false → ⊥
    true_ne_false e = cc

    too_low :
        (v : Version)
        → v ≡ version 4 1
        → IsAtMost v (parse_version_string (c ∷ cs))
        → less_than_or_equal (version 4 1) (parse_version_string (c ∷ cs)) ≡ false
        → ⊥
    too_low v e l k = true_ne_false (sym (rw e at l) ∙ k)

supports-new :
    (feature : Bytes)
    → any (bytes_eq feature) features ≡ true
    → supports (version 4 1) feature ≡ true
unfolding supports
supports-new feature h = ap (λ b. b && true) h

supports-old :
    (feature : Bytes)
    → any (bytes_eq feature) features ≡ true
    → supports (version 4 0) feature ≡ false
unfolding supports
supports-old feature h = ap (λ b. b && false) h

-- The features that `Supports` knows are there for a header that names a version exactly if it
-- takes 4.01.
pub supports-negotiate_version :
    (feature : Bytes) (c : ℕ) (cs : Bytes)
    → any (bytes_eq feature) features ≡ true
    → supports (negotiate_version (c ∷ cs)) feature
      ≡ less_than_or_equal (version 4 1) (parse_version_string (c ∷ cs))
unfolding negotiate_version
supports-negotiate_version feature c cs h =
    elim (first_supported-cases (parse_version_string (c ∷ cs))) [
      | inl (k, e) ↦ rw (e, k) (supports-new feature h)
      | inr (k, e) ↦ rw (e, k) (supports-old feature h)
    ]
