-- ===== src/Async/Reached.antt =====
-- internal/async/manager.go: the jobs of a manager that NewManager made, after any events.
use go_odata.Prelude.{ℕ, ◌≤◌, Bool, true, false, List, some, Bytes, ℤ, ◌≡◌, sym, arith, ◌↔◌}
use go_odata.Async.Records.{Time, Environment, Job, done, is_terminal}
use go_odata.Async.Manager.{Manager, start_phase, new_manager, get_job, sweep}
use go_odata.Async.Events.{IsDatabase, Event, run_events}
use go_odata.Async.Invariant.{IsValid, IsLive, listed, open_phase, is_some}
use go_odata.Async.Operations.{sweep_lem}
use go_odata.Async.Steps.{run_events-IsValid, new_manager-IsValid}
use go_odata.Async.Local.{job_steps, heap-run_events}
use go_odata.Async.Lifecycle.{
  Coherent-job_steps, Settled-job_steps, steps_left-job_steps, steps_left-done, completed_iff,
  listed_running, turns,
}

module _ {S : Type 0} (env : Environment S) where
  module _ (law : IsDatabase env) (db : S) (disable_retention : Bool) (ttl : ℤ)
      (es : List Event) where
    -- The manager that the events lead to.
    abbrev pub reached : Manager S
    reached = run_events env es (new_manager db disable_retention ttl)

    reached-IsValid : IsValid env reached
    reached-IsValid =
        run_events-IsValid env law es _ (new_manager-IsValid env db disable_retention ttl)

    -- NewManager made a manager over a database that keeps the primary key and whose statements
    -- change the rows they name, and any events followed, in any order. GetJob then finds exactly
    -- the jobs whose goroutine runs and has not reached the lock of `finish`, each by its ID. Every
    -- job has a time of completion exactly when its status is terminal, no job that GetJob finds
    -- has a terminal status, and until `finish` is through the table holds a row of the job's ID
    -- that is not completed.
    pub get_job-reached :
        ((id : Bytes) (r : ℕ)
          → (get_job id reached ≡ some r)
            ↔ ((j : Job) × (reached.heap r ≡ some j) × (j.id ≡ id) × (listed j.phase ≡ true)))
        × ((r : ℕ) (j : Job)
            → reached.heap r ≡ some j
            → (is_some j.completed_at ≡ is_terminal j.status)
              × (listed j.phase ≡ true → is_terminal j.status ≡ false)
              × (open_phase j.phase ≡ true → IsLive (env.rows reached.db j.id)))
    unfolding get_job
    get_job-reached = (
      λ id r. (
        reached-IsValid.known id r,
        λ (j, a, b, c). rw (sym b) (reached-IsValid.present r j a c),
      ),
      λ r j h. (
        completed_iff env j (reached-IsValid.coherent r j h),
        listed_running env j (reached-IsValid.coherent r j h),
        reached-IsValid.rowed r j h,
      ),
    )

    -- On a manager that events have led to from NewManager, over such a database, the loop of
    -- `cleanupExpired` over the map removes nothing, at whatever time it runs.
    pub sweep-reached : (now : Time) → sweep now reached ≡ reached
    sweep-reached now = sweep_lem env now reached reached-IsValid

    -- On a manager that events have led to from NewManager, over such a database, a job whose status
    -- is terminal keeps its status, response, error and time of completion through all further
    -- events.
    pub terminal-reached :
        (more : List Event) (r : ℕ) (j : Job)
        → reached.heap r ≡ some j
        → is_terminal j.status ≡ true
        → (j' : Job) × ((run_events env more reached).heap r ≡ some j')
          × (j'.status ≡ j.status)
          × (j'.response ≡ j.response)
          × (j'.error ≡ j.error)
          × (j'.completed_at ≡ j.completed_at)
    terminal-reached more r j h t =
        let s = Settled-job_steps env r j more (reached-IsValid.coherent r j h) t in
        (
          job_steps env r j more,
          heap-run_events env more reached r j law reached-IsValid h,
          s.same_status,
          s.same_response,
          s.same_error,
          s.same_completion,
        )

    -- On a manager that events have led to from NewManager, over such a database, a job that was
    -- launched has a terminal status and its goroutine has closed `done` once five of the further
    -- events are steps of its goroutine, whatever the other events are and whether or not the
    -- database takes the updates.
    pub done-reached :
        (more : List Event) (r : ℕ) (j : Job)
        → reached.heap r ≡ some j
        → start_phase j.phase ≡ false
        → 5 ≤ turns r more
        → (j' : Job) × ((run_events env more reached).heap r ≡ some j')
          × (j'.phase ≡ done)
          × (is_terminal j'.status ≡ true)
    done-reached more r j h s n =
        let j' = job_steps env r j more in
        let ended : j'.phase ≡ done =
          steps_left-done env j'.phase (ground (arith, n, steps_left-job_steps env r j more s)) in
        (
          j',
          heap-run_events env more reached r j law reached-IsValid h,
          ended,
          ground (arith, ended, Coherent-job_steps env r j more (reached-IsValid.coherent r j h)),
        )
