-- ===== src/Cache/Refreshes.antt =====
-- internal/cache/cache.go: Refresh between the steps of others. The rows of the database are part of
-- the state here, and an event is a step of the goroutine that holds `refreshMu`, a write by another
-- goroutine, or its call of Invalidate. Goroutines that wait for the lock do not change the state.
use go_odata.Prelude.{
  ◌+◌, Bool, true, false, List, [], ◌∷◌, Option, none, some, Bytes, ◌≡◌, refl, ◌∙◌, ltb, Bool-cases,
  inl, inr, ◌⊎◌, All,
}
use go_odata.Cache.{EntityCache, Time, publish, invalidate, is_valid}
use go_odata.Cache.Snapshots.{read, last_with, read-publish, read-snap, read-invalidate}

-- Where the goroutine that holds the lock stands: it has found no valid snapshot, or it has the rows.
pub data Refreshing (E : Type 0) : Type 0 where
  idle : Refreshing E
  locked : Refreshing E
  loaded : List E → Refreshing E

pub record World (E N : Type 0) : Type 0 where
  pub db : List E
  pub cache : EntityCache E N
  pub refreshing : Refreshing E

pub data Event (E : Type 0) : Type 0 where
  lock : Time → Event E
  load : Event E
  load_error : Event E
  publish_loaded : Time → Event E
  write : List E → Event E
  call_invalidate : Event E

module _ {E : Type 0} where
  abbrev lock_at : Bool → Refreshing E
  lock_at true = idle
  lock_at false = locked

module _ {E N : Type 0} where
  -- What the goroutine does; an event that does not fit where it stands changes nothing.
  unfoldable pub proceed : Event E → Refreshing E → World E N → World E N
  unfolding is_valid publish
  proceed (lock now) idle w = record w { refreshing = lock_at (is_valid now w.cache) }
  proceed load locked w = record w { refreshing = loaded w.db }
  proceed load_error locked w = record w { refreshing = idle }
  proceed (publish_loaded now) (loaded rows) w = record w {
    cache = publish rows now w.cache;
    refreshing = idle;
  }
  proceed e r w = w

  unfoldable pub world_step : Event E → World E N → World E N
  unfolding proceed invalidate
  world_step (write rows) w = record w { db = rows }
  world_step call_invalidate w = record w { cache = invalidate w.cache }
  world_step e w = proceed e w.refreshing w

  unfoldable pub world_steps : List (Event E) → World E N → World E N
  unfolding world_step
  world_steps [] w = w
  world_steps (e ∷ es) w = world_steps es (world_step e w)

module _ {E : Type 0} where
  -- The rows that a Refresh holds are those of the database.
  abbrev pub IsHeldBy : List E → Refreshing E → Type 0
  IsHeldBy db idle = Unit
  IsHeldBy db locked = Unit
  IsHeldBy db (loaded rows) = rows ≡ db

  abbrev pub holds_no_rows : Refreshing E → Bool
  holds_no_rows (loaded rows) = false
  holds_no_rows _ = true

  abbrev pub is_write : Event E → Bool
  is_write (write rows) = true
  is_write _ = false

  IsHeldBy-holds_no_rows : (db : List E) (r : Refreshing E) → holds_no_rows r ≡ true → IsHeldBy db r
  IsHeldBy-holds_no_rows db idle h = tt
  IsHeldBy-holds_no_rows db locked h = tt
  IsHeldBy-holds_no_rows db (loaded rows) h = cc

  IsHeldBy-lock_at : (db : List E) (b : Bool) → IsHeldBy db (lock_at b)
  IsHeldBy-lock_at db true = tt
  IsHeldBy-lock_at db false = tt

module _ {E N : Type 0} where
  -- There is no snapshot, or it has been published from the rows of the database.
  abbrev pub IsFresh : World E N → Type 0
  IsFresh w =
      (w.cache.snap ≡ none) ⊎ ((now : Time) × (w.cache.snap ≡ (publish w.db now w.cache).snap))

  -- Each write comes when no Refresh holds rows.
  abbrev pub IsOrdered : List (Event E) → World E N → Type 0
  IsOrdered [] w = Unit
  IsOrdered (e ∷ es) w =
      (is_write e ≡ true → holds_no_rows w.refreshing ≡ true) × IsOrdered es (world_step e w)

  IsHeldBy-proceed :
      (e : Event E) (r : Refreshing E) (w : World E N)
      → IsHeldBy w.db w.refreshing
      → IsHeldBy (proceed e r w).db (proceed e r w).refreshing
  unfolding proceed
  IsHeldBy-proceed (lock now) idle w h = IsHeldBy-lock_at w.db (is_valid now w.cache)
  IsHeldBy-proceed load locked w h = refl
  IsHeldBy-proceed load_error locked w h = tt
  IsHeldBy-proceed (publish_loaded now) (loaded rows) w h = tt
  IsHeldBy-proceed e r w h = h

  IsFresh-proceed :
      (e : Event E) (r : Refreshing E) (w : World E N)
      → IsHeldBy w.db r
      → IsFresh w
      → IsFresh (proceed e r w)
  unfolding proceed publish
  IsFresh-proceed (lock now) idle w h f = f
  IsFresh-proceed load locked w h f = f
  IsFresh-proceed load_error locked w h f = f
  IsFresh-proceed (publish_loaded now) (loaded rows) w h f = inr (now, rw h refl)
  IsFresh-proceed e r w h f = f

  IsHeldBy-world_step :
      (e : Event E) (w : World E N)
      → (is_write e ≡ true → holds_no_rows w.refreshing ≡ true)
      → IsHeldBy w.db w.refreshing
      → IsHeldBy (world_step e w).db (world_step e w).refreshing
  unfolding world_step
  IsHeldBy-world_step (write rows) w o h = IsHeldBy-holds_no_rows rows w.refreshing (o refl)
  IsHeldBy-world_step call_invalidate w o h = h
  IsHeldBy-world_step (lock now) w o h = IsHeldBy-proceed (lock now) w.refreshing w h
  IsHeldBy-world_step load w o h = IsHeldBy-proceed load w.refreshing w h
  IsHeldBy-world_step load_error w o h = IsHeldBy-proceed load_error w.refreshing w h
  IsHeldBy-world_step (publish_loaded now) w o h =
      IsHeldBy-proceed (publish_loaded now) w.refreshing w h

  IsHeldBy-world_steps :
      (es : List (Event E)) (w : World E N)
      → IsOrdered es w
      → IsHeldBy w.db w.refreshing
      → IsHeldBy (world_steps es w).db (world_steps es w).refreshing
  unfolding world_steps
  IsHeldBy-world_steps [] w o h = h
  IsHeldBy-world_steps (e ∷ es) w (o, os) h =
      IsHeldBy-world_steps es (world_step e w) os (IsHeldBy-world_step e w o h)

  IsFresh-world_step :
      (e : Event E) (w : World E N)
      → is_write e ≡ false
      → IsHeldBy w.db w.refreshing
      → IsFresh w
      → IsFresh (world_step e w)
  unfolding world_step invalidate
  IsFresh-world_step (write rows) w n h f = cc
  IsFresh-world_step call_invalidate w n h f = inl refl
  IsFresh-world_step (lock now) w n h f = IsFresh-proceed (lock now) w.refreshing w h f
  IsFresh-world_step load w n h f = IsFresh-proceed load w.refreshing w h f
  IsFresh-world_step load_error w n h f = IsFresh-proceed load_error w.refreshing w h f
  IsFresh-world_step (publish_loaded now) w n h f =
      IsFresh-proceed (publish_loaded now) w.refreshing w h f

  IsFresh-world_steps :
      (es : List (Event E)) (w : World E N)
      → All (λ e. is_write e ≡ false) es
      → IsHeldBy w.db w.refreshing
      → IsFresh w
      → IsFresh (world_steps es w)
  unfolding world_steps
  IsFresh-world_steps [] w n h f = f
  IsFresh-world_steps (e ∷ es) w (n, ns) h f =
      IsFresh-world_steps es (world_step e w) ns (IsHeldBy-world_step e w (λ k. cc) h)
        (IsFresh-world_step e w n h f)

  -- What a reader gets if it sees the rows of the database.
  abbrev pub fresh_read : Bytes → World E N → Option (Option E)
  fresh_read key w = some (last_with w.cache.key_fn key none w.db)

  IsFresh-read :
      (key : Bytes) (now : Time) (w : World E N)
      → IsFresh w
      → (read key now w.cache ≡ none) ⊎ (read key now w.cache ≡ fresh_read key w)
  unfolding invalidate
  IsFresh-read key now w (inl n) =
      inl (read-snap key now w.cache (invalidate w.cache) n ∙ read-invalidate key now w.cache)
  IsFresh-read key now w (inr (end_time, n)) =
      let shown =
        read-snap key now w.cache (publish w.db end_time w.cache) n
        ∙ read-publish key w.db end_time now w.cache in
      elim (Bool-cases (ltb now (end_time + w.cache.ttl))) [
        | inl h ↦ inr (shown ∙ rw h refl)
        | inr h ↦ inl (shown ∙ rw h refl)
      ]

  IsFresh-call_invalidate : (w : World E N) → IsFresh (world_step call_invalidate w)
  unfolding world_step invalidate
  IsFresh-call_invalidate w = inl refl

-- Where each write comes at a time when no Refresh holds rows that it has loaded, and Invalidate is
-- called after the last write, a reader afterwards either finds no current snapshot or gets, for each
-- key, the last row of the database as it then is that has the key, or nothing where no row has it.
-- At the start, too, no Refresh holds other rows than those of the database.
pub read-call_invalidate :
    {E N : Type 0} (before after : List (Event E)) (w : World E N) (key : Bytes) (now : Time)
    → IsHeldBy w.db w.refreshing
    → IsOrdered before w
    → All (λ e. is_write e ≡ false) after
    → let end_world = world_steps after (world_step call_invalidate (world_steps before w)) in
      (read key now end_world.cache ≡ none)
      ⊎ (read key now end_world.cache ≡ fresh_read key end_world)
read-call_invalidate before after w key now h o n =
    let middle = world_steps before w in
    let held =
      IsHeldBy-world_step call_invalidate middle (λ k. cc) (IsHeldBy-world_steps before w o h) in
    IsFresh-read key now (world_steps after (world_step call_invalidate middle)) (
      IsFresh-world_steps after (world_step call_invalidate middle) n held
        (IsFresh-call_invalidate middle))

-- Where a goroutine has found no valid snapshot and loads the rows, and another then writes and calls
-- Invalidate before the first stores its snapshot, the snapshot of the rows before the write is the
-- current one from then on: up to the end of its time to live a reader gets the rows before the write.
pub read-publish_loaded :
    {E N : Type 0} (w : World E N) (rows : List E) (end_time now : Time) (key : Bytes)
    → w.refreshing ≡ locked
    → ltb now (end_time + w.cache.ttl) ≡ true
    → read key now
        (world_steps (load ∷ write rows ∷ call_invalidate ∷ publish_loaded end_time ∷ []) w).cache
      ≡ fresh_read key w
unfolding world_steps world_step proceed invalidate
read-publish_loaded w rows end_time now key l t =
    rw l (read-publish key w.db end_time now (invalidate w.cache) ∙ rw t refl)
