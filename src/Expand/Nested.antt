-- ===== src/Expand/Nested.antt =====
-- internal/query/expand_levels.go: levels below levels.
use native.Mathlib.Nat.{mul-le-mul_left, pow-suc, pow-zero}
use go_odata.Prelude.{
  ℕ, zero, suc, ◌+◌, ◌*◌, ◌^◌, ◌≤◌, false, Option, none, some, Bytes, ltb, ◌==◌, ℤ, negsuc, ok, ◌≡◌,
  refl, arith,
}
use go_odata.Metadata.{EntityMetadata, find_navigation_property}
use go_odata.Expand.{
  ExpandOption, ExpandOptions, expand_option, no_options, option_then, max_expand_levels,
  resolve_expand_levels, append_option, build_levels_expansion, apply_levels, apply_to_options,
  apply_expand_levels, resolve, is_none,
}
use go_odata.Expand.Depth.{depth, option_depth, depth-append_option, max_expand_levels_ge}

module _ {R : Type 0} where
  -- How many options there are, with those within others.
  unfoldable mutual
    pub option_size : ExpandOption R → ℕ
    option_size (expand_option name levels rest nested) = suc (size nested)

    pub size : ExpandOptions R → ℕ
    size no_options = 0
    size (option_then o os) = option_size o + size os

  size-append_option :
      (os : ExpandOptions R) (o : ExpandOption R)
      → size (append_option os o) ≡ size os + option_size o
  unfolding size append_option
  size-append_option no_options o = omega arith
  size-append_option (option_then o' os) o = omega (arith, size-append_option os o)

  -- `name($levels=max;$expand=name($levels=max;...))`, some options deep.
  abbrev pub nested_max : Bytes → R → ℕ → ExpandOptions R
  nested_max name rest zero = no_options
  nested_max name rest (suc k) =
      option_then (expand_option name (some (negsuc 0)) rest (nested_max name rest k)) no_options

suc_not_zero : (n : ℕ) → (suc n == 0) ≡ false
suc_not_zero n = ground arith

one_le_pow : (limit : ℕ) → limit ^ 0 ≤ 1
one_le_pow limit = omega (arith, pow-zero limit)

limit_is_positive : (limit : ℕ) → 1 ≤ limit → ltb limit 1 ≡ false
limit_is_positive limit h = ground arith

module _ {E : Type 0} (deref : E → EntityMetadata E) {R : Type 0} (name : Bytes) (rest : R) (e : E)
    (h : resolve deref name e ≡ ok e)
    (k : is_none (find_navigation_property name (some (deref e))) ≡ false) where
  build_levels_expansion_self :
      (n : ℕ) (base : ExpandOptions R)
      → (o : ExpandOption R) × (build_levels_expansion deref (suc n) name rest base e ≡ ok o)
        × (option_depth o ≡ suc n + depth base)
        × (option_size o ≡ suc n * suc (size base))
  unfolding build_levels_expansion depth size
  build_levels_expansion_self zero base =
      (expand_option name none rest base, refl, omega arith, omega arith)
  build_levels_expansion_self (suc n) base =
      let (o, q, d, s) = build_levels_expansion_self n base in
      (
        expand_option name none rest (append_option base o),
        rw (suc_not_zero n, h, k, q) refl,
        omega (arith, d, depth-append_option base o),
        omega (arith, s, size-append_option base o),
      )

  build_levels_expansion_positive :
      (n : ℕ) (base : ExpandOptions R)
      → 1 ≤ n
      → (o : ExpandOption R) × (build_levels_expansion deref n name rest base e ≡ ok o)
        × (option_depth o ≡ n + depth base)
        × (option_size o ≡ n * suc (size base))
  build_levels_expansion_positive zero base p = let absurd : ⊥ = omega arith in elim absurd [ ]
  build_levels_expansion_positive (suc n) base p = build_levels_expansion_self n base

  apply_to_options-nested_max :
      (limit : ℕ)
      → 1 ≤ limit
      → (deep : ℕ)
      → (os : ExpandOptions R) × (apply_to_options deref limit (nested_max name rest deep) e
          ≡ ok os)
        × (depth os ≡ limit * deep)
        × (limit ^ deep ≤ suc (size os))
  unfolding apply_to_options apply_levels resolve_expand_levels depth size
  apply_to_options-nested_max limit p zero = (no_options, refl, omega arith, one_le_pow limit)
  apply_to_options-nested_max limit p (suc deep) =
      let (os, q, d, s) = apply_to_options-nested_max limit p deep in
      let (o, q', d', s') = build_levels_expansion_positive limit os p in
      (
        option_then o no_options,
        rw (h, q, limit_is_positive limit p, q') refl,
        omega (arith, d, d'),
        omega (arith, mul-le-mul_left limit s, s', pow-suc limit deep),
      )

-- Options `name($levels=max)` that are written below one another, as many as one likes, on an entity
-- type that the property leads back to, are no error. They become options that are exactly as many
-- times as deep as the maximum of the levels is, and the number of all options, plus one, is at least
-- the maximum to the power of the number that are written.
pub apply_expand_levels-nested_max :
    {E R : Type 0} (deref : E → EntityMetadata E) (name : Bytes) (rest : R) (e : E)
    (config : Option ℤ) (deep : ℕ)
    → resolve deref name e ≡ ok e
    → is_none (find_navigation_property name (some (deref e))) ≡ false
    → (os : ExpandOptions R) × (apply_expand_levels deref
          (nested_max name rest deep)
          (some e)
          config
        ≡ ok os)
      × (depth os ≡ max_expand_levels config * deep)
      × (max_expand_levels config ^ deep ≤ suc (size os))
unfolding apply_expand_levels
apply_expand_levels-nested_max deref name rest e config deep h k =
    apply_to_options-nested_max deref name rest e h k (max_expand_levels config)
      (max_expand_levels_ge config) deep
