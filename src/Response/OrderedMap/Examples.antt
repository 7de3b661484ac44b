-- ===== src/Response/OrderedMap/Examples.antt =====
-- The theorems on ordered maps, applied to a map of three keys.
use go_odata.Prelude.{
  ℕ, ◌≡◌, refl, [], ◌∷◌, ◌++◌, none, some, Bytes, codes, bytes_eq, if◌then◌else◌, find,
}
use go_odata.Response.OrderedMap.{OrderedMap, new_ordered_map, set, delete, insert_after}
use go_odata.Response.OrderedMap.Keys.{has_key, without}
use go_odata.Response.OrderedMap.Lookups.{IsWellFormed, set_lem, delete_lem}
use go_odata.Response.OrderedMap.Placement.{Placed, insert_after_lem}

new_ordered_map-IsWellFormed : IsWellFormed (new_ordered_map {V = ℕ})
unfolding find
new_ordered_map-IsWellFormed = record { unique = tt; in_step = λ key. refl }

abbrev one_key : OrderedMap ℕ
one_key = new_ordered_map

set_lem_example :
    IsWellFormed (set (codes "ID") 7 one_key)
    × ((set (codes "ID") 7 one_key).keys
        ≡ (if has_key (codes "ID") [] then [] else [] ++ codes "ID" ∷ []))
    × ((other : Bytes)
        → find other (set (codes "ID") 7 one_key).values
          ≡ (if bytes_eq (codes "ID") other then some 7 else find other one_key.values))
set_lem_example = set_lem (codes "ID") 7 one_key new_ordered_map-IsWellFormed

abbrev filled : OrderedMap ℕ
filled = set (codes "b") 2 (set (codes "c") 3 (set (codes "a") 1 new_ordered_map))

filled-IsWellFormed : IsWellFormed filled
filled-IsWellFormed =
    (set_lem (codes "b") 2 _
      (set_lem (codes "c") 3 _ (set_lem (codes "a") 1 _ new_ordered_map-IsWellFormed).0).0).0

delete_lem_example :
    IsWellFormed (delete (codes "c") filled)
    × ((delete (codes "c") filled).keys ≡ without (codes "c") filled.keys)
    × ((other : Bytes)
        → find other (delete (codes "c") filled).values
          ≡ (if bytes_eq (codes "c") other then none else find other filled.values))
delete_lem_example = delete_lem (codes "c") filled filled-IsWellFormed

moved_keys :
    (insert_after (codes "b") (codes "a") 4 filled).keys ≡ codes "c" ∷ codes "b" ∷ codes "a" ∷ []
unfolding insert_after set
moved_keys = refl

insert_after_lem_example :
    IsWellFormed (insert_after (codes "b") (codes "a") 4 filled)
    × Placed
        (codes "b")
        (codes "a")
        (without (codes "a") filled.keys)
        (insert_after (codes "b") (codes "a") 4 filled).keys
    × ((other : Bytes)
        → find other (insert_after (codes "b") (codes "a") 4 filled).values
          ≡ (if bytes_eq (codes "a") other then some 4 else find other filled.values))
insert_after_lem_example = insert_after_lem (codes "b") (codes "a") 4 filled filled-IsWellFormed

behind_empty_key :
    (insert_after {V = ℕ} [] (codes "x") 1 (set (codes "b") 2 (set [] 3 new_ordered_map))).keys
    ≡ [] ∷ codes "x" ∷ codes "b" ∷ []
unfolding insert_after set
behind_empty_key = refl
