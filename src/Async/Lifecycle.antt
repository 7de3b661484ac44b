-- ===== src/Async/Lifecycle.antt =====
-- internal/async/manager.go: the life of a job in a manager that NewManager made.
use go_odata.Prelude.{
  ℕ, ◌+◌, ◌-◌, ◌≤◌, Bool, true, false, List, [], ◌∷◌, none, some, ◌≡◌, ◌≢◌, refl, ap, ◌∙◌, arith,
  ◌==◌, if◌then◌else◌,
}
use go_odata.Async.Records.{
  Environment, Job, Phase, created, waiting, marked, handling, returned, unsaved, done, is_terminal,
  failed,
}
use go_odata.Async.Manager.{HandlerResult, start_phase, outcome_of}
use go_odata.Async.Events.{Event, go_on}
use go_odata.Async.Invariant.{CoherentAt, listed, is_some}
use go_odata.Async.Safety.{outcome_of-is_terminal}
use go_odata.Async.Local.{job_step, job_steps, work_job}

-- How many steps of its goroutine a job has left.
abbrev pub steps_left : Phase → ℕ
steps_left created = 5
steps_left waiting = 5
steps_left (marked t) = 4
steps_left handling = 3
steps_left (returned o) = 2
steps_left (unsaved c) = 1
steps_left done = 0

abbrev turn : ℕ → Event → ℕ
turn r (go_on k now result) = if k == r then 1 else 0
turn r _ = 0

-- How often the goroutine of the job at an address goes on.
abbrev pub turns : ℕ → List Event → ℕ
turns r [] = 0
turns r (e ∷ es) = turn r e + turns r es

-- The handler has returned.
abbrev pub has_returned : Phase → Bool
has_returned (returned o) = true
has_returned (unsaved c) = true
has_returned done = true
has_returned _ = false

pub record Settled (j j' : Job) : Type 0 where
  pub same_status : j'.status ≡ j.status
  pub same_response : j'.response ≡ j.response
  pub same_error : j'.error ≡ j.error
  pub same_completion : j'.completed_at ≡ j.completed_at

-- A job that will not end failed.
abbrev pub WontFail : Phase → Job → Type 0
WontFail (returned o) j = (o.status ≢ failed) × (j.status ≢ failed)
WontFail (unsaved c) j = j.status ≢ failed
WontFail done j = j.status ≢ failed
WontFail _ j = (j.canceled ≡ true) × (j.status ≢ failed)

outcome_of-canceled : (result : HandlerResult) → (outcome_of true result).status ≢ failed
unfolding outcome_of
outcome_of-canceled (resp, none) = cc
outcome_of-canceled (resp, some e) = ground arith

module _ {S : Type 0} (env : Environment S) where
  Coherent-job_step :
      (r : ℕ) (j : Job) (e : Event)
      → CoherentAt j.phase j.status j.completed_at
      → let j' = job_step env r j e in CoherentAt j'.phase j'.status j'.completed_at
  unfolding job_step work_job
  Coherent-job_step r j (go_on k now result) h =
      ground (arith, outcome_of-is_terminal j.canceled result)
  Coherent-job_step r j e h = ground arith

  Settled-job_step :
      (r : ℕ) (j : Job) (e : Event)
      → CoherentAt j.phase j.status j.completed_at
      → is_terminal j.status ≡ true
      → Settled j (job_step env r j e)
  unfolding job_step work_job
  Settled-job_step r j e h t = ground arith

  steps_left-job_step :
      (r : ℕ) (j : Job) (e : Event)
      → start_phase j.phase ≡ false
      → let j' = job_step env r j e in
        (start_phase j'.phase ≡ false) × (steps_left j'.phase ≤ steps_left j.phase - turn r e)
  unfolding job_step work_job
  steps_left-job_step r j e h = ground arith

  WontFail-job_step :
      (r : ℕ) (j : Job) (e : Event)
      → WontFail j.phase j
      → WontFail (job_step env r j e).phase (job_step env r j e)
  unfolding job_step work_job
  WontFail-job_step r j (go_on k now result) h = ground (arith, outcome_of-canceled result)
  WontFail-job_step r j e h = ground arith

  pub Coherent-job_steps :
      (r : ℕ) (j : Job) (es : List Event)
      → CoherentAt j.phase j.status j.completed_at
      → let j' = job_steps env r j es in CoherentAt j'.phase j'.status j'.completed_at
  unfolding job_steps
  Coherent-job_steps r j [] h = h
  Coherent-job_steps r j (e ∷ es) h =
      Coherent-job_steps r (job_step env r j e) es (Coherent-job_step r j e h)

  pub Settled-job_steps :
      (r : ℕ) (j : Job) (es : List Event)
      → CoherentAt j.phase j.status j.completed_at
      → is_terminal j.status ≡ true
      → Settled j (job_steps env r j es)
  unfolding job_steps
  Settled-job_steps r j [] h t = record {
    same_status = refl;
    same_response = refl;
    same_error = refl;
    same_completion = refl;
  }
  Settled-job_steps r j (e ∷ es) h t =
      let s = Settled-job_step r j e h t in
      let later =
        Settled-job_steps r (job_step env r j e) es (Coherent-job_step r j e h)
          (ap is_terminal s.same_status ∙ t) in
      record {
        same_status = later.same_status ∙ s.same_status;
        same_response = later.same_response ∙ s.same_response;
        same_error = later.same_error ∙ s.same_error;
        same_completion = later.same_completion ∙ s.same_completion;
      }

  pub steps_left-job_steps :
      (r : ℕ) (j : Job) (es : List Event)
      → start_phase j.phase ≡ false
      → steps_left (job_steps env r j es).phase ≤ steps_left j.phase - turns r es
  unfolding job_steps
  steps_left-job_steps r j [] h = omega arith
  steps_left-job_steps r j (e ∷ es) h =
      let (started, fewer) = steps_left-job_step r j e h in
      omega (arith, fewer, steps_left-job_steps r (job_step env r j e) es started)

  pub WontFail-job_steps :
      (r : ℕ) (j : Job) (es : List Event)
      → WontFail j.phase j
      → WontFail (job_steps env r j es).phase (job_steps env r j es)
  unfolding job_steps
  WontFail-job_steps r j [] h = h
  WontFail-job_steps r j (e ∷ es) h =
      WontFail-job_steps r (job_step env r j e) es (WontFail-job_step r j e h)

  pub WontFail-ne-failed : (j : Job) → WontFail j.phase j → j.status ≢ failed
  WontFail-ne-failed j h = ground arith

  pub completed_iff :
      (j : Job)
      → CoherentAt j.phase j.status j.completed_at
      → is_some j.completed_at ≡ is_terminal j.status
  completed_iff j h = ground arith

  pub listed_running :
      (j : Job)
      → CoherentAt j.phase j.status j.completed_at
      → listed j.phase ≡ true
      → is_terminal j.status ≡ false
  listed_running j h l = ground arith

  pub steps_left-done : (p : Phase) → steps_left p ≤ 0 → p ≡ done
  steps_left-done p h = ground arith
