-- ===== src/Metadata.antt =====
-- internal/metadata/analyzer.go: how the metadata of an entity type is searched for a property and for
-- the target of a navigation property. A property has the fields that the searches read; a pointer to
-- metadata is a value of a type `E`, and `deref` gives what it points to. The analysis of Go types
-- that fills the metadata is not modelled.
use go_odata.Prelude.{
  Bool, List, [], ◌∷◌, Option, none, some, Bytes, bytes_eq, find, ◌||◌, if◌then◌else◌, Result, ok,
  err, Ensures, holds, failed,
}

pub record PropertyMetadata : Type 0 where
  pub name : Bytes
  pub json_name : Bytes
  pub is_navigation_prop : Bool
  pub navigation_target : Bytes

-- `navigation_target_index` is none where the registry is not configured.
pub record EntityMetadata (E : Type 0) : Type 0 where
  pub properties : List PropertyMetadata
  pub navigation_target_index : Option (List (Bytes × E))

pub data NavigationError : Type 0 where
  metadata_is_nil : NavigationError
  navigation_property_not_found : NavigationError
  registry_not_configured : NavigationError
  target_not_registered : NavigationError

unfoldable pub find_in_properties : Bytes → List PropertyMetadata → Option PropertyMetadata
find_in_properties name [] = none
find_in_properties name (p ∷ ps) =
    if bytes_eq p.name name || bytes_eq p.json_name name then some p else find_in_properties name ps

abbrev if_navigation : Option PropertyMetadata → Option PropertyMetadata
if_navigation none = none
if_navigation (some p) = if p.is_navigation_prop then some p else none

module _ {E : Type 0} where
  unfoldable pub find_property : Bytes → Option (EntityMetadata E) → Option PropertyMetadata
  unfolding find_in_properties
  find_property name none = none
  find_property name (some m) = find_in_properties name m.properties

  unfoldable pub find_navigation_property :
      Bytes → Option (EntityMetadata E) → Option PropertyMetadata
  unfolding find_property
  find_navigation_property name m = if_navigation (find_property name m)

  abbrev registered : Option E → Result NavigationError E
  registered none = err target_not_registered
  registered (some e) = ok e

  abbrev target_in : Bytes → Option (List (Bytes × E)) → Result NavigationError E
  target_in target none = err registry_not_configured
  target_in target (some index) = registered (find target index)

  abbrev target_of : Option PropertyMetadata → Option (List (Bytes × E)) → Result NavigationError E
  target_of none index = err navigation_property_not_found
  target_of (some p) index = target_in p.navigation_target index

  unfoldable pub resolve_navigation_target :
      Bytes → Option (EntityMetadata E) → Result NavigationError E
  unfolding find_navigation_property
  resolve_navigation_target name none = err metadata_is_nil
  resolve_navigation_target name (some m) =
      target_of (find_navigation_property name (some m)) m.navigation_target_index

  registered-Ensures : (e : Option E) → Ensures (λ a. Unit {0}) (registered e)
  registered-Ensures none = failed
  registered-Ensures (some e) = holds tt

  target_in-Ensures :
      (target : Bytes) (index : Option (List (Bytes × E)))
      → Ensures (λ a. Unit {0}) (target_in target index)
  target_in-Ensures target none = failed
  target_in-Ensures target (some index) = registered-Ensures (find target index)

  target_of-Ensures :
      (p : Option PropertyMetadata) (index : Option (List (Bytes × E)))
      → Ensures (λ a. Unit {0}) (target_of p index)
  target_of-Ensures none index = failed
  target_of-Ensures (some p) index = target_in-Ensures p.navigation_target index

  pub resolve_navigation_target-Ensures :
      (name : Bytes) (m : Option (EntityMetadata E))
      → Ensures (λ a. Unit {0}) (resolve_navigation_target name m)
  unfolding resolve_navigation_target
  resolve_navigation_target-Ensures name none = failed
  resolve_navigation_target-Ensures name (some m) =
      target_of-Ensures (find_navigation_property name (some m)) m.navigation_target_index
