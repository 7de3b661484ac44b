-- ===== src/Expand.antt =====
-- internal/query/expand_levels.go: the levels of $expand options, which repeat an option below itself.
-- An option keeps the fields that the code reads; its other fields are a value of a type `R`, which
-- is only copied, so that the copies of cloneExpandOptions are the values themselves.
pub mod Depth
pub mod Nested
mod Examples
use go_odata.Prelude.{
  ℕ, zero, suc, ◌+◌, Bool, true, false, Option, none, some, Bytes, ltb, ◌==◌, ◌&&◌, ℤ, pos, negsuc,
  int_less, if◌then◌else◌, Result, ok, err, out_of_fuel, ◌>>=◌,
}
use go_odata.Metadata.{
  EntityMetadata, NavigationError, PropertyMetadata, resolve_navigation_target,
  find_navigation_property,
}

mutual
  pub data ExpandOption (R : Type 0) : Type 0 where
    expand_option : Bytes → Option ℤ → R → ExpandOptions R → ExpandOption R

  pub data ExpandOptions (R : Type 0) : Type 0 where
    no_options : ExpandOptions R
    option_then : ExpandOption R → ExpandOptions R → ExpandOptions R

pub data ExpandError : Type 0 where
  navigation : NavigationError → ExpandError
  levels_max_requires_depth : ExpandError
  levels_must_be_int_or_max : ExpandError
  levels_exceed_maximum : ℕ → ℕ → ExpandError

abbrev pub default_max_expand_levels : ℕ
default_max_expand_levels = 5

-- From `config`, where it is not nil, its MaxExpandDepth.
unfoldable pub max_expand_levels : Option ℤ → ℕ
max_expand_levels none = default_max_expand_levels
max_expand_levels (some (negsuc n)) = default_max_expand_levels
max_expand_levels (some (pos n)) = if ltb 0 n then n else default_max_expand_levels

-- The limit, an int of the source, is never negative.
unfoldable pub resolve_expand_levels : ℤ → ℕ → Result ExpandError ℕ
resolve_expand_levels (negsuc n) limit =
    if n == 0
    then (if ltb limit 1 then err levels_max_requires_depth else ok limit)
    else err levels_must_be_int_or_max
resolve_expand_levels (pos levels) limit =
    if ltb levels 1
    then err levels_must_be_int_or_max
    else if ltb 0 limit && ltb limit levels
    then err (levels_exceed_maximum levels limit)
    else ok levels

module _ {R : Type 0} where
  -- `append(options, last)`.
  unfoldable pub append_option : ExpandOptions R → ExpandOption R → ExpandOptions R
  append_option no_options last = option_then last no_options
  append_option (option_then o os) last = option_then o (append_option os last)

module _ {R : Type 0} where
  abbrev pub needs_target : Option ℤ → ExpandOptions R → Bool
  needs_target none no_options = false
  needs_target none (option_then o os) = true
  needs_target (some l) nested = true

abbrev pub as_expand_error : {A : Type 0} → Result NavigationError A → Result ExpandError A
as_expand_error (ok a) = ok a
as_expand_error (err e) = err (navigation e)
as_expand_error out_of_fuel = out_of_fuel

abbrev pub is_none : Option PropertyMetadata → Bool
is_none none = true
is_none (some p) = false

module _ {E : Type 0} (deref : E → EntityMetadata E) where
  abbrev pub resolve : Bytes → E → Result ExpandError E
  resolve name e = as_expand_error (resolve_navigation_target name (some (deref e)))

  module _ {R : Type 0} where
    -- The option of which only the name and the copied fields are given: its Levels are nil, and its
    -- Expand is made of `base`. `current` is not nil where the code calls it.
    unfoldable pub build_levels_expansion :
        ℕ → Bytes → R → ExpandOptions R → E → Result ExpandError (ExpandOption R)
    unfolding append_option
    build_levels_expansion zero name rest base current = ok (expand_option name none rest base)
    build_levels_expansion (suc n) name rest base current =
        if n == 0
        then ok (expand_option name none rest base)
        else resolve name current >>= λ target.
            (if is_none (find_navigation_property name (some (deref target)))
              then ok (expand_option name none rest base)
              else build_levels_expansion n name rest base target >>= λ next.
                  ok (expand_option name none rest (append_option base next)))

    unfoldable pub apply_levels :
        Option ℤ → ℕ → Bytes → R → ExpandOptions R → E → Result ExpandError (ExpandOption R)
    unfolding resolve_expand_levels build_levels_expansion
    apply_levels none limit name rest nested current = ok (expand_option name none rest nested)
    apply_levels (some l) limit name rest nested current =
        resolve_expand_levels l limit >>= λ levels.
        build_levels_expansion levels name rest nested current

    unfoldable mutual
      unfolding apply_levels

      -- The body of the loop, for one option.
      pub apply_to_option : ℕ → ExpandOption R → E → Result ExpandError (ExpandOption R)
      apply_to_option limit (expand_option name levels rest nested) current =
          if needs_target levels nested
          then (resolve name current >>= λ target.
              apply_to_options limit nested target >>= λ nested'.
              apply_levels levels limit name rest nested' current)
          else ok (expand_option name levels rest nested)

      -- applyExpandLevels below its test for metadata, with `limit` for `maxExpandLevels(config)`.
      pub apply_to_options : ℕ → ExpandOptions R → E → Result ExpandError (ExpandOptions R)
      apply_to_options limit no_options current = ok no_options
      apply_to_options limit (option_then o os) current = apply_to_option limit o current >>= λ o'.
          apply_to_options limit os current >>= λ os'. ok (option_then o' os')

    unfoldable pub apply_expand_levels :
        ExpandOptions R → Option E → Option ℤ → Result ExpandError (ExpandOptions R)
    unfolding apply_to_options max_expand_levels
    apply_expand_levels os none config = ok os
    apply_expand_levels os (some current) config =
        apply_to_options (max_expand_levels config) os current
