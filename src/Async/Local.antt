-- ===== src/Async/Local.antt =====
-- internal/async/manager.go: what a step of the manager is for one job, without the others, the map
-- and the database.
use go_odata.Prelude.{
  ℕ, true, false, List, [], ◌∷◌, none, some, Bytes, ℤ, ◌≡◌, refl, sym, ap, ◌∙◌, arith, find, ◌==◌,
  ==_iff, if◌then◌else◌, Bool-cases, Option-cases, inl, inr, bytes_eq, bytes_eq_iff, ◌&&◌,
}
use go_odata.Async.Records.{
  Time, Environment, JobOption, Job, Phase, created, waiting, marked, handling, returned, unsaved,
  done, is_terminal, running, JobRecord,
}
use go_odata.Async.Manager.{
  Manager, try_update, register, cancel_context, work, work_at, cancel_job, begin_job,
  retry_setting, delete_expired_rows, change_retry_after, save_retry_after, change_monitor_url,
  save_monitor_url, start_phase, HandlerResult, outcome_of, complete_job, completion_of,
}
use go_odata.Async.Events.{
  IsDatabase, Event, begin, launch, go_on, cancel, end_context, expire_rows, expire_jobs,
  change_retry, save_retry, change_url, save_url, step, run_events,
}
use go_odata.Async.Invariant.{IsValid, listed}
use go_odata.Async.Operations.{sweep_lem}
use go_odata.Async.Steps.{step-IsValid}

module _ {S : Type 0} (env : Environment S) where
  unfoldable pub work_job : Time → HandlerResult → Job → Phase → Job
  work_job now result j created = j
  work_job now result j waiting = record j {
    status = running;
    updated_at = now;
    phase = marked now;
  }
  work_job now result j (marked t) = record j { phase = handling }
  work_job now result j handling = record j { phase = returned (outcome_of j.canceled result) }
  work_job now result j (returned o) = complete_job now o (completion_of env now o) j
  work_job now result j (unsaved c) = record j { phase = done }
  work_job now result j done = j

  -- What an event is for the job at an address.
  unfoldable pub job_step : ℕ → Job → Event → Job
  unfolding work_job
  job_step r j (begin now id options) = j
  job_step r j (launch k) =
      if k == r && start_phase j.phase then record j { phase = waiting } else j
  job_step r j (go_on k now result) = if k == r then work_job now result j j.phase else j
  job_step r j (cancel id) =
      if bytes_eq j.id id && listed j.phase then record j { canceled = true } else j
  job_step r j (end_context k) = if k == r then record j { canceled = true } else j
  job_step r j (expire_rows now) = j
  job_step r j (expire_jobs now) = j
  job_step r j (save_retry k d) = j
  job_step r j (save_url k url) = j
  job_step r j (change_retry k d) = if k == r then record j { retry_after = retry_setting d } else j
  job_step r j (change_url k url) = if k == r then record j { monitor_url = url } else j

  unfoldable pub job_steps : ℕ → Job → List Event → Job
  unfolding job_step
  job_steps r j [] = j
  job_steps r j (e ∷ es) = job_steps r (job_step r j e) es

  heap-try_update :
      (id : Bytes) (f : JobRecord → JobRecord) (m : Manager S)
      → (try_update env id f m).heap ≡ m.heap
  heap-try_update id f m = elim (Option-cases (env.update m.db id f)) [
    | inl e ↦ rw (e, try_update) refl
    | inr (db, e) ↦ rw (e, try_update) refl
  ]

  module _ (m : Manager S) (r : ℕ) (j : Job) (h : m.heap r ≡ some j) where
    heap-work_at :
        (now : Time) (result : HandlerResult) (k : ℕ) (i : Job) (p : Phase)
        → m.heap k ≡ some i
        → (work_at env now result k i p m).heap r
          ≡ some (if k == r then work_job now result i p else j)
    unfolding work_at work_job
    heap-work_at now result k i created g = ground (arith, h, g)
    heap-work_at now result k i waiting g = ground (arith, h, g)
    heap-work_at now result k i (marked t) g = rw heap-try_update (ground (arith, h, g))
    heap-work_at now result k i handling g = ground (arith, h, g)
    heap-work_at now result k i (returned o) g = ground (arith, h, g)
    heap-work_at now result k i (unsaved c) g = rw heap-try_update (ground (arith, h, g))
    heap-work_at now result k i done g = ground (arith, h, g)

    there : (k : ℕ) → (k == r) ≡ true → m.heap k ≡ some j
    there k e = ap m.heap ((==_iff k r).0 e) ∙ h

    heap-work :
        (now : Time) (result : HandlerResult) (k : ℕ)
        → (work env now result k m).heap r
          ≡ some (if k == r then work_job now result j j.phase else j)
    unfolding work
    heap-work now result k = elim (Bool-cases (k == r)) [
      | inl e ↦ rw (there k e, work) (heap-work_at now result k j j.phase (there k e))
      | inr e ↦ rw e (elim (Option-cases (m.heap k)) [
        | inl g ↦ rw (g, work) h
        | inr (i, g) ↦ rw (g, work) (heap-work_at now result k i i.phase g ∙ ap some (rw e refl))
      ])
    ]

    heap-register :
        (k : ℕ)
        → (register k m).heap r
          ≡ some (if k == r && start_phase j.phase then record j { phase = waiting } else j)
    unfolding register
    heap-register k = elim (Bool-cases (k == r)) [
      | inl e ↦ ground (arith, there k e, h, e)
      | inr e ↦ ground (arith, h, e)
    ]

    heap-cancel_context :
        (k : ℕ)
        → (cancel_context k m).heap r ≡ some (if k == r then record j { canceled = true } else j)
    unfolding cancel_context
    heap-cancel_context k = ground (arith, h)

    heap-change_retry_after :
        (k : ℕ) (d : ℤ)
        → (change_retry_after k d m).heap r
          ≡ some (if k == r then record j { retry_after = retry_setting d } else j)
    unfolding change_retry_after
    heap-change_retry_after k d = ground (arith, h)

    heap-save_retry_after : (k : ℕ) (d : ℤ) → (save_retry_after env k d m).heap r ≡ some j
    unfolding save_retry_after
    heap-save_retry_after k d = elim (Option-cases (m.heap k)) [
      | inl g ↦ rw (g, save_retry_after) h
      | inr (i, g) ↦ rw (g, save_retry_after) (rw heap-try_update h)
    ]

    heap-change_monitor_url :
        (k : ℕ) (url : Bytes)
        → (change_monitor_url k url m).heap r
          ≡ some (if k == r then record j { monitor_url = url } else j)
    unfolding change_monitor_url
    heap-change_monitor_url k url = ground (arith, h)

    heap-save_monitor_url : (k : ℕ) (url : Bytes) → (save_monitor_url env k url m).heap r ≡ some j
    unfolding save_monitor_url
    heap-save_monitor_url k url = elim (Option-cases (m.heap k)) [
      | inl g ↦ rw (g, save_monitor_url) h
      | inr (i, g) ↦ rw (g, save_monitor_url) (rw heap-try_update h)
    ]

    heap-delete_expired_rows : (now : Time) → (delete_expired_rows env now m).heap r ≡ some j
    unfolding delete_expired_rows
    heap-delete_expired_rows now = ground (arith, h)

    module _ (v : IsValid env m) where
      heap-begin_job :
          (now : Time) (id : Bytes) (os : List JobOption)
          → (begin_job env now id os m).0.heap r ≡ some j
      unfolding begin_job
      heap-begin_job now id os = ground (arith, h, v.allocated r j h)

      -- The job that an ID leads to.
      find-listed :
          (id : Bytes) → bytes_eq j.id id ≡ true → listed j.phase ≡ true → find id m.jobs ≡ some r
      find-listed id e l = rw (sym ((bytes_eq_iff j.id id).0 e)) (v.present r j h l)

      is_found :
          (id : Bytes) (k : ℕ)
          → find id m.jobs ≡ some k
          → (k == r) ≡ true
          → (bytes_eq j.id id ≡ true) × (listed j.phase ≡ true)
      is_found id k f e =
          let (i, a, b, c) = v.known id k f in
          let same : i ≡ j = cc (a, there k e) in
          (
            (bytes_eq_iff j.id id).1 (ap (λ (t : Job). t.id) (sym same) ∙ b),
            ap (λ (t : Job). listed t.phase) (sym same) ∙ c,
          )

      not_listed :
          (id : Bytes) → find id m.jobs ≡ none → (bytes_eq j.id id && listed j.phase) ≡ false
      not_listed id f = elim (Bool-cases (bytes_eq j.id id)) [
        | inr a ↦ rw a refl
        | inl a ↦ elim (Bool-cases (listed j.phase)) [
          | inr b ↦ rw (a, b) refl
          | inl b ↦ cc (f, find-listed id a b)
        ]
      ]

      same_test :
          (id : Bytes) (k : ℕ)
          → find id m.jobs ≡ some k
          → (k == r) ≡ (bytes_eq j.id id && listed j.phase)
      same_test id k f = elim (Bool-cases (k == r)) [
        | inl e ↦ let (a, b) = is_found id k f e in rw (e, a, b) refl
        | inr e ↦ elim (Bool-cases (bytes_eq j.id id)) [
          | inr a ↦ rw (e, a) refl
          | inl a ↦ elim (Bool-cases (listed j.phase)) [
            | inr b ↦ rw (e, a, b) refl
            | inl b ↦
                let this : k ≡ r = ground (arith, f, find-listed id a b) in cc ((==_iff k r).1 this)
          ]
        ]
      ]

      found_running :
          (id : Bytes) (k : ℕ)
          → find id m.jobs ≡ some k
          → (i : Job) × (m.heap k ≡ some i) × (is_terminal i.status ≡ false)
      found_running id k f =
          let (i, a, b, c) = v.known id k f in (i, a, ground (arith, v.coherent k i a, c))

      heap-cancel_job :
          (id : Bytes)
          → (cancel_job id m).0.heap r
            ≡ some (if bytes_eq j.id id && listed j.phase then record j { canceled = true } else j)
      unfolding cancel_job
      heap-cancel_job id = elim (Option-cases (find id m.jobs)) [
        | inl f ↦ rw (f, cancel_job) (h ∙ ap some (rw (not_listed id f) refl))
        | inr (k, f) ↦
            let (i, a, b) = found_running id k f in
            rw (f, cancel_job)
              (rw a (rw b (heap-cancel_context k ∙ ap some (rw (same_test id k f) refl))))
      ]

      pub heap-step : (e : Event) → (step env e m).heap r ≡ some (job_step r j e)
      unfolding step job_step
      heap-step (begin now id os) = heap-begin_job now id os
      heap-step (launch k) = heap-register k
      heap-step (go_on k now result) = heap-work now result k
      heap-step (cancel id) = heap-cancel_job id
      heap-step (end_context k) = heap-cancel_context k
      heap-step (expire_rows now) = heap-delete_expired_rows now
      heap-step (expire_jobs now) = rw (sweep_lem env now m v) h
      heap-step (change_retry k d) = heap-change_retry_after k d
      heap-step (save_retry k d) = heap-save_retry_after k d
      heap-step (change_url k url) = heap-change_monitor_url k url
      heap-step (save_url k url) = heap-save_monitor_url k url

  -- In a valid manager, whose database keeps the primary key and changes the rows that a statement
  -- names, a job at an address is after any events what these make of that job alone, whatever
  -- they do to other jobs, to the map and to the database.
  pub heap-run_events :
      (es : List Event) (m : Manager S) (r : ℕ) (j : Job)
      → IsDatabase env
      → IsValid env m
      → m.heap r ≡ some j
      → (run_events env es m).heap r ≡ some (job_steps r j es)
  unfolding run_events job_steps
  heap-run_events [] m r j law v h = h
  heap-run_events (e ∷ es) m r j law v h =
      heap-run_events es (step env e m) r (job_step r j e) law (step-IsValid env law e m v)
        (heap-step m r j h v e)
