-- ===== src/Cache.antt =====
-- internal/cache/cache.go: the snapshot cache of an entity type. The entities are those that the
-- database returns, of any type, with the functions `KeyFunc` and `NormalizeFunc` of the caller. The
-- part of Refresh under its lock is two steps, since the readers and writers do not take that lock.
pub mod Snapshots
pub mod Refreshes
mod Examples
use go_odata.Prelude.{
  ℕ, suc, ◌+◌, Bool, true, false, List, [], ◌∷◌, Option, none, some, Bytes, ltb, find, put, map,
  get_elem?, length, ℤ, pos, negsuc, if◌then◌else◌, ◌==◌,
}

abbrev pub Time : Type 0
Time = ℕ

pub record Snapshot (E N : Type 0) : Type 0 where
  pub entities : List E
  pub by_key : List (Bytes × ℕ)
  pub normalized : Option (List N)
  pub expires_at : Time

pub record EntityCache (E N : Type 0) : Type 0 where
  pub snap : Option (Snapshot E N)
  pub ttl : ℕ
  pub key_fn : E → Bytes
  pub normalize_fn : Option (E → N)

module _ {E N : Type 0} where
  -- New; the type and the key function are there. `none` is the error of a ttl that is not positive.
  unfoldable pub new_cache : ℤ → (E → Bytes) → Option (E → N) → Option (EntityCache E N)
  new_cache (negsuc n) key_fn normalize_fn = none
  new_cache (pos n) key_fn normalize_fn =
      if n == 0
      then none
      else some (record { snap = none; ttl = n; key_fn = key_fn; normalize_fn = normalize_fn })

  abbrev unexpired : Time → Option (Snapshot E N) → Option (Snapshot E N)
  unexpired now none = none
  unexpired now (some s) = if ltb now s.expires_at then some s else none

  unfoldable pub current : Time → EntityCache E N → Option (Snapshot E N)
  current now c = unexpired now c.snap

  abbrev is_some : Option (Snapshot E N) → Bool
  is_some none = false
  is_some (some s) = true

  unfoldable pub is_valid : Time → EntityCache E N → Bool
  unfolding current
  is_valid now c = is_some (current now c)

  unfoldable pub invalidate : EntityCache E N → EntityCache E N
  invalidate c = record c { snap = none }

  abbrev normalize_all : Option (E → N) → List E → Option (List N)
  normalize_all none rows = none
  normalize_all (some f) rows = some (map f rows)

module _ {E : Type 0} where
  -- `byKey[c.keyFn(entity)] = i` for each entity, from an index on.
  unfoldable pub index_from : (E → Bytes) → ℕ → List E → List (Bytes × ℕ) → List (Bytes × ℕ)
  index_from key_fn i [] by_key = by_key
  index_from key_fn i (e ∷ rows) by_key = index_from key_fn (i + 1) rows (put (key_fn e) i by_key)

  -- `s.entities.Index(i)` for an index that is there.
  abbrev pub entity_at : List E → Option ℕ → Option E
  entity_at rows none = none
  entity_at rows (some i) = get_elem? rows i

module _ {E N : Type 0} where
  -- The end of Refresh: the rows that were loaded become the snapshot.
  unfoldable pub publish : List E → Time → EntityCache E N → EntityCache E N
  unfolding index_from
  publish rows now c = record c {
    snap = some (record {
      entities = rows;
      by_key = index_from c.key_fn 0 rows [];
      normalized = normalize_all c.normalize_fn rows;
      expires_at = now + c.ttl;
    });
  }

  -- Refresh without interruption, where it is asked for, loads the rows or an error, and ends.
  unfoldable pub refresh : Time → Option (List E) → Time → EntityCache E N → EntityCache E N × Bool
  unfolding publish is_valid
  refresh start none end c = if is_valid start c then (c, true) else (c, false)
  refresh start (some rows) end c =
      if is_valid start c then (c, true) else (publish rows end c, true)

  unfoldable pub len : Snapshot E N → ℕ
  len s = length s.entities

  unfoldable pub lookup : Bytes → Snapshot E N → Option E
  lookup key s = entity_at s.entities (find key s.by_key)

module _ {N : Type 0} where
  abbrev normalized_at : ℕ → Option (List N) → Option N
  normalized_at i none = none
  normalized_at i (some ns) = get_elem? ns i

module _ {E N : Type 0} where
  unfoldable pub normalized_of : ℕ → Snapshot E N → Option N
  normalized_of i s = normalized_at i s.normalized
