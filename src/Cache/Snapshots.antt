-- ===== src/Cache/Snapshots.antt =====
-- internal/cache/cache.go: what a snapshot answers.
use go_odata.Prelude.{
  ℕ, ◌+◌, false, List, [], ◌∷◌, ◌++◌, Option, none, some, Bytes, find, put, get_elem?, length, ltb,
  bytes_eq, if◌then◌else◌, ◌≡◌, refl, ap, ◌∙◌, arith, find-put_any, Bool-cases, inl, inr,
  append_assoc, length-append,
}
use go_odata.Cache.{
  EntityCache, Snapshot, index_from, Time, entity_at, publish, lookup, current, refresh, is_valid,
  invalidate,
}

module _ {E : Type 0} (key_fn : E → Bytes) where
  -- The last of some entities that has a key, or the one before them.
  abbrev pub last_with : Bytes → Option E → List E → Option E
  last_with key before [] = before
  last_with key before (e ∷ rows) =
      last_with key (if bytes_eq (key_fn e) key then some e else before) rows

  get_elem?-length :
      (done : List E) (e : E) (rows : List E) → get_elem? (done ++ e ∷ rows) (length done) ≡ some e
  get_elem?-length [] e rows = refl
  get_elem?-length (d ∷ done) e rows = get_elem?-length done e rows

  entity_at-put :
      (key : Bytes) (done : List E) (e : E) (rows : List E) (by_key : List (Bytes × ℕ))
      → entity_at (done ++ e ∷ rows) (find key (put (key_fn e) (length done) by_key)) ≡ (
          if bytes_eq (key_fn e) key
          then some e
          else entity_at (done ++ e ∷ rows) (find key by_key))
  entity_at-put key done e rows by_key =
      rw (find-put_any (key_fn e) key (length done) by_key)
        (elim (Bool-cases (bytes_eq (key_fn e) key)) [
          | inl h ↦ rw h (get_elem?-length done e rows)
          | inr h ↦ rw h refl
        ])

  entity_at-index_from :
      (key : Bytes) (done rows : List E) (by_key : List (Bytes × ℕ)) (i : ℕ)
      → i ≡ length done
      → entity_at (done ++ rows) (find key (index_from key_fn i rows by_key))
        ≡ last_with key (entity_at (done ++ rows) (find key by_key)) rows
  unfolding index_from
  entity_at-index_from key done [] by_key i l = refl
  entity_at-index_from key done (e ∷ rows) by_key i l =
      let rest =
        entity_at-index_from key (done ++ e ∷ []) rows (put (key_fn e) i by_key) (i + 1)
          (omega (arith, l, length-append done (e ∷ []))) in
      let rest' = rw (append_assoc done (e ∷ []) rows) at rest in
      rest' ∙ ap (λ before. last_with key before rows) (rw l (entity_at-put key done e rows by_key))

module _ {E N : Type 0} where
  abbrev lookup_in : Bytes → Option (Snapshot E N) → Option (Option E)
  lookup_in key none = none
  lookup_in key (some s) = some (lookup key s)

  -- What a reader gets for a key: `none` where it finds no current snapshot.
  abbrev pub read : Bytes → Time → EntityCache E N → Option (Option E)
  read key now c = lookup_in key (current now c)

pub read-snap :
    {E N : Type 0} (key : Bytes) (now : Time) (c d : EntityCache E N)
    → c.snap ≡ d.snap
    → read key now c ≡ read key now d
unfolding current
read-snap key now c d e = rw e refl

pub read-invalidate :
    {E N : Type 0} (key : Bytes) (now : Time) (c : EntityCache E N)
    → read key now (invalidate c) ≡ none
unfolding current invalidate
read-invalidate key now c = refl

pub read-publish :
    {E N : Type 0} (key : Bytes) (rows : List E) (end_time now : Time) (c : EntityCache E N)
    → read key now (publish rows end_time c)
      ≡ (if ltb now (end_time + c.ttl) then some (last_with c.key_fn key none rows) else none)
unfolding lookup publish current index_from find
read-publish key rows end_time now c = elim (Bool-cases (ltb now (end_time + c.ttl))) [
  | inl h ↦ rw h (ap some (entity_at-index_from c.key_fn key [] rows [] 0 refl))
  | inr h ↦ rw h refl
]

-- Where the cache is not valid when Refresh starts and the database loads some rows, a reader finds a
-- current snapshot at just the times before the end of Refresh plus the time to live. For a key it
-- gets there the last loaded row that has the key, or nothing where no row has it.
pub read-refresh :
    {E N : Type 0} (key : Bytes) (rows : List E) (start end_time now : Time) (c : EntityCache E N)
    → is_valid start c ≡ false
    → read key now (refresh start (some rows) end_time c).0
      ≡ (if ltb now (end_time + c.ttl) then some (last_with c.key_fn key none rows) else none)
unfolding refresh
read-refresh key rows start end_time now c invalid =
    rw invalid (read-publish key rows end_time now c)
