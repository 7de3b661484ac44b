-- ===== src/Response/OrderedMap.antt =====
-- internal/response/ordered_map.go: the map that keeps the order in which its keys came. Its
-- capacity and the pool of maps only save allocations and have no place here.
pub mod Keys
pub mod Lookups
pub mod Placement
mod Examples
use go_odata.Prelude.{
  ℕ, zero, suc, Bool, true, false, List, [], ◌∷◌, ◌++◌, Option, none, some, Bytes, bytes_eq,
  if◌then◌else◌, take, drop, find, put, remove,
}

pub record OrderedMap {ℓ} (V : Type ℓ) : Type ℓ where
  pub keys : List Bytes
  pub values : List (Bytes × V)

-- The index of the first element that is the key; `none` is -1.
unfoldable pub index_of : Bytes → List Bytes → Option ℕ
unfolding bytes_eq
index_of key [] = none
index_of key (k ∷ ks) =
    if bytes_eq k key
    then some 0
    else elim (index_of key ks) [ none ↦ none | some i ↦ some (suc i) ]

module _ {ℓ} {V : Type ℓ} where
  abbrev pub new_ordered_map : OrderedMap V
  new_ordered_map = record { keys = []; values = [] }

  -- `Reset`
  abbrev pub reset : OrderedMap V → OrderedMap V
  reset om = record { keys = take 0 om.keys; values = [] }

  unfoldable pub set : Bytes → V → OrderedMap V → OrderedMap V
  unfolding find put
  set key value om = record {
    keys = elim (find key om.values) [ none ↦ om.keys ++ key ∷ [] | some _ ↦ om.keys ];
    values = put key value om.values;
  }

  unfoldable pub delete : Bytes → OrderedMap V → OrderedMap V
  unfolding find remove index_of
  delete key om = elim (find key om.values) [
    | none ↦ om
    | some _ ↦ record {
      keys = elim (index_of key om.keys) [
        | none ↦ om.keys
        | some i ↦ take i om.keys ++ drop (suc i) om.keys
      ];
      values = remove key om.values;
    }
  ]

  unfoldable pub insert_after : Bytes → Bytes → V → OrderedMap V → OrderedMap V
  unfolding delete put index_of
  insert_after after_key key value om =
      let om' = delete key om in
      record {
        keys = elim (index_of after_key om'.keys) [
          | none ↦ om'.keys ++ key ∷ []
          | some i ↦ take (suc i) om'.keys ++ key ∷ drop (suc i) om'.keys
        ];
        values = put key value om'.values;
      }
