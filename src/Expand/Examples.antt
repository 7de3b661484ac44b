-- ===== src/Expand/Examples.antt =====
-- internal/query/expand_levels.go: the theorems at concrete inputs, and tests.
use go_odata.Prelude.{
  ℕ, suc, ◌*◌, ◌^◌, true, [], ◌∷◌, none, some, codes, pos, ok, err, Ensures, ◌≡◌, ◌≤◌, refl, find,
  bytes_eq,
}
use go_odata.Metadata.{
  PropertyMetadata, EntityMetadata, target_not_registered, resolve_navigation_target,
}
use go_odata.Expand.{
  ExpandOptions, expand_option, no_options, option_then, max_expand_levels, apply_expand_levels,
  levels_exceed_maximum, navigation,
}
use go_odata.Expand.Depth.{depth, depth-apply_expand_levels}
use go_odata.Expand.Nested.{size, nested_max, apply_expand_levels-nested_max}

-- An employee has a manager, who is one, and a desk, whose type is not registered.
abbrev manager : PropertyMetadata
manager = record {
  name = codes "Manager";
  json_name = codes "manager";
  is_navigation_prop = true;
  navigation_target = codes "Employee";
}

abbrev desk : PropertyMetadata
desk = record {
  name = codes "Desk";
  json_name = codes "desk";
  is_navigation_prop = true;
  navigation_target = codes "Desk";
}

abbrev employee : Unit {0} → EntityMetadata (Unit {0})
employee u = record {
  properties = manager ∷ desk ∷ [];
  navigation_target_index = some ((codes "Employee", tt) ∷ []);
}

abbrev three_managers : ExpandOptions ℕ
three_managers =
    option_then (expand_option (codes "manager") (some (pos 3)) 7 no_options) no_options

three_managers_test :
    apply_expand_levels employee three_managers (some tt) (some (pos 4))
    ≡ ok (
        option_then
          (expand_option (codes "manager") none 7 (
            option_then
              (expand_option
                (codes "manager")
                none
                7
                (option_then (expand_option (codes "manager") none 7 no_options) no_options))
              no_options))
          no_options)
unfolding apply_expand_levels resolve_navigation_target bytes_eq find
three_managers_test = refl

exceeding_test :
    apply_expand_levels employee three_managers (some tt) (some (pos 2))
    ≡ err (levels_exceed_maximum 3 2)
unfolding apply_expand_levels resolve_navigation_target bytes_eq find
exceeding_test = refl

unregistered_test :
    apply_expand_levels employee
      (option_then (expand_option (codes "Desk") (some (pos 1)) tt no_options) no_options)
      (some tt)
      none
    ≡ err (navigation target_not_registered)
unfolding apply_expand_levels resolve_navigation_target bytes_eq find
unregistered_test = refl

depth-apply_expand_levels_example :
    Ensures
      (λ os. depth os ≤ max_expand_levels (some (pos 4)) * depth three_managers)
      (apply_expand_levels employee three_managers (some tt) (some (pos 4)))
depth-apply_expand_levels_example =
    depth-apply_expand_levels employee three_managers (some tt) (some (pos 4))

apply_expand_levels-nested_max_example :
    (os : ExpandOptions ℕ) × (apply_expand_levels employee
        (nested_max (codes "manager") 7 3)
        (some tt)
        (some (pos 4))
      ≡ ok os)
    × (depth os ≡ max_expand_levels (some (pos 4)) * 3)
    × (max_expand_levels (some (pos 4)) ^ 3 ≤ suc (size os))
unfolding resolve_navigation_target bytes_eq find
apply_expand_levels-nested_max_example =
    apply_expand_levels-nested_max employee (codes "manager") 7 tt (some (pos 4)) 3 refl refl
