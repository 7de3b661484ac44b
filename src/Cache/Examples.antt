-- ===== src/Cache/Examples.antt =====
-- internal/cache/cache.go: the theorems at concrete inputs, and tests.
use go_odata.Prelude.{
  ℕ, List, [], ◌∷◌, none, some, Bytes, codes, ◌≡◌, refl, ◌⊎◌, negsuc, pos, find, put, bytes_eq,
}
use go_odata.Cache.{
  EntityCache, Snapshot, new_cache, refresh, len, lookup, normalized_of, is_valid, index_from,
}
use go_odata.Cache.Snapshots.{read, read-refresh}
use go_odata.Cache.Refreshes.{
  World, Event, idle, locked, lock, load, publish_loaded, write, call_invalidate, world_steps,
  world_step, proceed, fresh_read, read-call_invalidate, read-publish_loaded,
}

abbrev Row : Type 0
Row = Bytes × ℕ

abbrev row_key : Row → Bytes
row_key row = row.0

abbrev row_value : Row → ℕ
row_value row = row.1

abbrev empty_cache : EntityCache Row ℕ
empty_cache = record { snap = none; ttl = 60; key_fn = row_key; normalize_fn = some row_value }

-- Two rows have one key: the second of them is what a lookup finds.
abbrev old_rows : List Row
old_rows = (codes "a", 1) ∷ (codes "b", 2) ∷ (codes "a", 3) ∷ []

abbrev new_rows : List Row
new_rows = (codes "b", 7) ∷ []

abbrev idle_world : World Row ℕ
idle_world = record { db = old_rows; cache = empty_cache; refreshing = idle }

abbrev locked_world : World Row ℕ
locked_world = record { db = old_rows; cache = empty_cache; refreshing = locked }

new_cache_test : new_cache (pos 60) row_key (some row_value) ≡ some empty_cache
unfolding new_cache
new_cache_test = refl

new_cache_negative : new_cache {E = Row} {N = ℕ} (negsuc 0) row_key none ≡ none
unfolding new_cache
new_cache_negative = refl

read-refresh_example :
    read (codes "a") 150 (refresh 100 (some old_rows) 105 empty_cache).0
    ≡ some (some (codes "a", 3))
unfolding is_valid bytes_eq
read-refresh_example = read-refresh (codes "a") old_rows 100 105 150 empty_cache refl

abbrev before_events : List (Event Row)
before_events = lock 100 ∷ load ∷ publish_loaded 101 ∷ write new_rows ∷ []

abbrev after_events : List (Event Row)
after_events = lock 103 ∷ load ∷ publish_loaded 104 ∷ []

abbrev later_world : World Row ℕ
unfolding world_steps world_step
later_world =
    world_steps after_events (world_step call_invalidate (world_steps before_events idle_world))

-- Here the second of the two cases holds, with the row that was written.
later_world_test : read (codes "b") 120 later_world.cache ≡ some (some (codes "b", 7))
unfolding later_world lookup find put
later_world_test = refl

read-call_invalidate_example :
    let end_world =
      world_steps after_events
        (world_step call_invalidate (world_steps before_events idle_world)) in
    (read (codes "b") 120 end_world.cache ≡ none)
    ⊎ (read (codes "b") 120 end_world.cache ≡ fresh_read (codes "b") end_world)
unfolding world_step proceed
read-call_invalidate_example =
    read-call_invalidate before_events after_events idle_world (codes "b") 120 tt
      ((λ k. cc), ((λ k. cc), ((λ k. cc), ((λ k. refl), tt)))) (refl, (refl, (refl, tt)))

read-publish_loaded_example :
    read
      (codes "b")
      120
      (world_steps
        (load ∷ write new_rows ∷ call_invalidate ∷ publish_loaded 105 ∷ [])
        locked_world).cache
    ≡ some (some (codes "b", 2))
unfolding bytes_eq
read-publish_loaded_example =
    read-publish_loaded locked_world new_rows 105 120 (codes "b") refl refl

abbrev old_snapshot : Snapshot Row ℕ
unfolding index_from
old_snapshot = record {
  entities = old_rows;
  by_key = index_from row_key 0 old_rows [];
  normalized = some (1 ∷ 2 ∷ 3 ∷ []);
  expires_at = 165;
}

len_test : len old_snapshot ≡ 3
unfolding len old_snapshot
len_test = refl

normalized_of_test : normalized_of 1 old_snapshot ≡ some 2
unfolding normalized_of old_snapshot
normalized_of_test = refl
