-- ===== src/Async/Events.antt =====
-- internal/async/manager.go: what may happen to a manager, one step at a time, in any order.
use go_odata.Prelude.{ℕ, List, [], ◌∷◌, Option, none, some, Bytes, ℤ, ◌≡◌, bytes_eq, if◌then◌else◌}
use go_odata.Async.Records.{Time, JobOption, Environment, JobRecord, found, missing}
use go_odata.Async.Manager.{
  Manager, HandlerResult, begin_job, register, work, cancel_context, cancel_job, sweep,
  delete_expired_rows, change_retry_after, save_retry_after, change_monitor_url, save_monitor_url,
  is_expired,
}

-- `cancel` is a CancelJob that nothing comes between. Where something does, its part under the lock
-- changes nothing, and the call of `cancel` behind it is `end_context`, as is the end of the context
-- that StartJob was given.
pub data Event : Type 0 where
  begin : Time → Bytes → List JobOption → Event
  launch : ℕ → Event
  go_on : ℕ → Time → HandlerResult → Event
  cancel : Bytes → Event
  end_context : ℕ → Event
  expire_rows : Time → Event
  expire_jobs : Time → Event
  change_retry : ℕ → ℤ → Event
  save_retry : ℕ → ℤ → Event
  change_url : ℕ → Bytes → Event
  save_url : ℕ → Bytes → Event

module _ {S : Type 0} (env : Environment S) where
  unfoldable pub step : Event → Manager S → Manager S
  unfolding begin_job register work cancel_context cancel_job sweep delete_expired_rows
      change_retry_after save_retry_after change_monitor_url save_monitor_url
  step (begin now id options) m = (begin_job env now id options m).0
  step (launch r) m = register r m
  step (go_on r now result) m = work env now result r m
  step (cancel id) m = (cancel_job id m).0
  step (end_context r) m = cancel_context r m
  step (expire_rows now) m = delete_expired_rows env now m
  step (expire_jobs now) m = sweep now m
  step (change_retry r d) m = change_retry_after r d m
  step (save_retry r d) m = save_retry_after env r d m
  step (change_url r url) m = change_monitor_url r url m
  step (save_url r url) m = save_monitor_url env r url m

  unfoldable pub run_events : List Event → Manager S → Manager S
  unfolding step
  run_events [] m = m
  run_events (e ∷ es) m = run_events es (step e m)

-- The row behind a deletion of what was completed more than `ttl` ago.
abbrev pub keep_row : Time → ℕ → Option JobRecord → Option JobRecord
keep_row now ttl none = none
keep_row now ttl (some r) = if is_expired now ttl r.completed_at then none else some r

abbrev pub change_row : (JobRecord → JobRecord) → Option JobRecord → Option JobRecord
change_row f none = none
change_row f (some r) = some (f r)

-- What the package relies on: the primary key, and that a statement changes the rows it names and
-- no other.
pub record IsDatabase {S : Type 0} (env : Environment S) : Type 0 where
  pub create_new :
      (s : S) (r : JobRecord) {s' : S} → env.create s r ≡ some s' → env.rows s r.id ≡ none
  pub rows-create :
      (s : S) (r : JobRecord) (id : Bytes) {s' : S}
      → env.create s r ≡ some s'
      → env.rows s' id ≡ (if bytes_eq r.id id then some r else env.rows s id)
  pub rows-update :
      (s : S) (id : Bytes) (f : JobRecord → JobRecord) (other : Bytes) {s' : S}
      → env.update s id f ≡ some s'
      → env.rows s' other
        ≡ (if bytes_eq id other then change_row f (env.rows s other) else env.rows s other)
  pub rows-delete_expired :
      (s : S) (now : Time) (ttl : ℕ) (id : Bytes) {s' : S}
      → env.delete_expired s now ttl ≡ some s'
      → env.rows s' id ≡ keep_row now ttl (env.rows s id)
  pub first-found :
      (s : S) (id : Bytes) {r : JobRecord} → env.first s id ≡ found r → env.rows s id ≡ some r
  pub first-missing : (s : S) (id : Bytes) → env.first s id ≡ missing → env.rows s id ≡ none
