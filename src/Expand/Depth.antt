-- ===== src/Expand/Depth.antt =====
-- internal/query/expand_levels.go: how deep the options are that the levels give.
use Prim.Native.Nat.{max}
use native.Mathlib.Nat.{le-max_left, le-max_right, mul-le-mul_left, mul-le-mul_right}
use go_odata.Prelude.{
  ℕ, zero, suc, ◌+◌, ◌*◌, ◌≤◌, false, Option, none, some, Bytes, ltb, ◌==◌, ◌&&◌, ℤ, pos, negsuc,
  Result, ok, err, Ensures, holds, failed, Ensures-bind, Ensures-if, Ensures-map,
  Ensures-ne-out_of_fuel, out_of_fuel, ◌≡◌, refl, arith,
}
use go_odata.Metadata.{
  EntityMetadata, NavigationError, resolve_navigation_target, resolve_navigation_target-Ensures,
  find_navigation_property,
}
use go_odata.Expand.{
  ExpandOption, ExpandOptions, expand_option, no_options, option_then, max_expand_levels,
  resolve_expand_levels, append_option, build_levels_expansion, apply_levels, apply_to_option,
  apply_to_options, apply_expand_levels, as_expand_error, resolve, needs_target, is_none,
}

module _ {R : Type 0} where
  -- How many options stand below one another.
  unfoldable mutual
    pub option_depth : ExpandOption R → ℕ
    option_depth (expand_option name levels rest nested) = suc (depth nested)

    pub depth : ExpandOptions R → ℕ
    depth no_options = 0
    depth (option_then o os) = max (option_depth o) (depth os)

  pub depth-append_option :
      (os : ExpandOptions R) (o : ExpandOption R)
      → depth (append_option os o) ≡ max (depth os) (option_depth o)
  unfolding depth append_option
  depth-append_option no_options o = omega arith
  depth-append_option (option_then o' os) o = omega (arith, depth-append_option os o)

pub resolve_expand_levels_le :
    (levels : ℤ) (limit : ℕ)
    → 1 ≤ limit
    → Ensures (λ n. n ≤ limit) (resolve_expand_levels levels limit)
unfolding resolve_expand_levels
resolve_expand_levels_le (negsuc n) limit h =
    Ensures-if (n == 0) (λ e. Ensures-if (ltb limit 1) (λ e. failed) (λ e. holds (omega arith)))
      (λ e. failed)
resolve_expand_levels_le (pos n) limit h =
    Ensures-if (ltb n 1) (λ e. failed)
      (λ e. Ensures-if (ltb 0 limit && ltb limit n) (λ k. failed) (λ k. holds (ground arith)))

pub max_expand_levels_ge : (config : Option ℤ) → 1 ≤ max_expand_levels config
unfolding max_expand_levels
max_expand_levels_ge none = omega arith
max_expand_levels_ge (some (negsuc n)) = omega arith
max_expand_levels_ge (some (pos n)) = ground arith

as_expand_error-Ensures :
    {A : Type 0} (r : Result NavigationError A)
    → Ensures (λ a. Unit {0}) r
    → Ensures (λ a. Unit {0}) (as_expand_error r)
as_expand_error-Ensures (ok a) h = holds tt
as_expand_error-Ensures (err e) h = failed
as_expand_error-Ensures out_of_fuel h = elim (Ensures-ne-out_of_fuel h refl) [ ]

one_le : (n : ℕ) → (n == 0) ≡ false → 1 ≤ n
one_le n h = ground arith

level_le : (limit d d' d'' : ℕ) → d ≤ limit * d'' → d' ≤ limit + d → d' ≤ limit * suc d''
level_le limit d d' d'' h k = omega (arith, h, k)

max_le : (limit a b a' b' : ℕ) → a' ≤ limit * a → b' ≤ limit * b → max a' b' ≤ limit * max a b
max_le limit a b a' b' h k =
    omega (
      arith,
      h,
      k,
      mul-le-mul_left limit (le-max_left a b),
      mul-le-mul_left limit (le-max_right a b),
    )

same_le : (limit a : ℕ) → 1 ≤ limit → a ≤ limit * a
same_le limit a h = omega (arith, mul-le-mul_right a h)

module _ {E : Type 0} (deref : E → EntityMetadata E) where
  resolve-Ensures :
      (name : Bytes) (current : E) → Ensures (λ a. Unit {0}) (resolve deref name current)
  resolve-Ensures name current =
      as_expand_error-Ensures (resolve_navigation_target name (some (deref current)))
        (resolve_navigation_target-Ensures name (some (deref current)))

  module _ {R : Type 0} where
    build_levels_expansion_le :
        (n : ℕ) (name : Bytes) (rest : R) (base : ExpandOptions R) (current : E)
        → Ensures
            (λ o. option_depth o ≤ max n 1 + depth base)
            (build_levels_expansion deref n name rest base current)
    unfolding build_levels_expansion depth
    build_levels_expansion_le zero name rest base current = holds (omega arith)
    build_levels_expansion_le (suc n) name rest base current =
        Ensures-if (n == 0) (λ e. holds (omega arith))
          (λ nonzero. Ensures-bind (resolve-Ensures name current) (λ target u.
            Ensures-if (is_none (find_navigation_property name (some (deref target))))
              (λ e. holds (omega arith))
              (λ e. Ensures-bind (build_levels_expansion_le n name rest base target) (λ next d.
                holds (omega (arith, depth-append_option base next, one_le n nonzero))))))

    apply_levels_le :
        (limit : ℕ)
        → 1 ≤ limit
        → (levels : Option ℤ) (name : Bytes) (rest : R) (nested : ExpandOptions R) (current : E)
        → Ensures
            (λ o. option_depth o ≤ limit + depth nested)
            (apply_levels deref levels limit name rest nested current)
    unfolding apply_levels depth
    apply_levels_le limit h none name rest nested current = holds (omega arith)
    apply_levels_le limit h (some l) name rest nested current =
        Ensures-bind (resolve_expand_levels_le l limit h) (λ n small.
          Ensures-map (build_levels_expansion_le n name rest nested current) (λ o d. omega arith))

    mutual
      unfolding apply_to_options depth

      apply_to_option_le :
          (limit : ℕ)
          → 1 ≤ limit
          → (o : ExpandOption R) (current : E)
          → Ensures
              (λ o'. option_depth o' ≤ limit * option_depth o)
              (apply_to_option deref limit o current)
      apply_to_option_le limit h (expand_option name levels rest nested) current =
          Ensures-if (needs_target levels nested)
            (λ e. Ensures-bind (resolve-Ensures name current) (λ target u.
              Ensures-bind (apply_to_options_le limit h nested target) (λ nested' d.
                Ensures-map (apply_levels_le limit h levels name rest nested' current)
                  (λ o d'. level_le limit (depth nested') (option_depth o) (depth nested) d d'))))
            (λ e. holds (same_le limit (suc (depth nested)) h))

      apply_to_options_le :
          (limit : ℕ)
          → 1 ≤ limit
          → (os : ExpandOptions R) (current : E)
          → Ensures (λ os'. depth os' ≤ limit * depth os) (apply_to_options deref limit os current)
      apply_to_options_le limit h no_options current = holds (omega arith)
      apply_to_options_le limit h (option_then o os) current =
          Ensures-bind (apply_to_option_le limit h o current) (λ o' d.
            Ensures-bind (apply_to_options_le limit h os current) (λ os' d'.
              holds (max_le limit (option_depth o) (depth os) (option_depth o') (depth os') d d')))

-- Where applyExpandLevels gives no error, what it makes of options is at most as many times as deep
-- as the options, as the maximum of the levels is: MaxExpandDepth where it is positive, and 5
-- otherwise.
pub depth-apply_expand_levels :
    {E R : Type 0} (deref : E → EntityMetadata E) (os : ExpandOptions R) (current : Option E)
    (config : Option ℤ)
    → Ensures
        (λ os'. depth os' ≤ max_expand_levels config * depth os)
        (apply_expand_levels deref os current config)
unfolding apply_expand_levels
depth-apply_expand_levels deref os none config =
    holds (same_le (max_expand_levels config) (depth os) (max_expand_levels_ge config))
depth-apply_expand_levels deref os (some current) config =
    apply_to_options_le deref (max_expand_levels config) (max_expand_levels_ge config) os current
