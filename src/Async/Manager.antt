-- ===== src/Async/Manager.antt =====
-- internal/async/manager.go: the manager and its operations. The jobs that were allocated stand in
-- `heap` by their addresses, the Go map `jobs` leads from an ID to an address. What runs under the
-- lock, or in one statement of the database, is one step; `begin_job` and `register` are the two
-- halves of StartJob, `change_retry_after` and `save_retry_after` those of SetRetryAfter, and so for
-- SetMonitorURL; `work` is the next step of a job's goroutine.
use go_odata.Prelude.{
  ℕ, ◌+◌, Bool, true, false, List, [], ◌∷◌, Option, none, some, Bytes, ltb, ◌==◌, ℤ, pos, negsuc,
  if◌then◌else◌, find, put, remove, ◌||◌,
}
use go_odata.Async.Records.{
  Time, JobStatus, pending, running, completed, failed, canceled, is_terminal, StoredResponse,
  Outcome, Completion, Phase, created, waiting, marked, handling, returned, unsaved, done, Job,
  JobRecord, JobOption, with_monitor_url, with_retry_after, Environment, clone_stored_response,
  duration_to_seconds, stored_response_to_record,
}

pub record Manager (S : Type 0) : Type 0 where
  pub jobs : List (Bytes × ℕ)
  pub heap : ℕ → Option Job
  pub next : ℕ
  pub ttl : ℕ
  pub db : S

-- The duration that NewManager takes; 0 is no retention.
unfoldable pub effective_ttl : Bool → ℤ → ℕ
effective_ttl true ttl = 0
effective_ttl false (pos n) = if n == 0 then 86400000000000 else n
effective_ttl false (negsuc n) = 86400000000000

unfoldable pub new_manager : {S : Type 0} → S → Bool → ℤ → Manager S
unfolding effective_ttl
new_manager db disable_retention ttl = record {
  jobs = [];
  heap = λ r. none;
  next = 0;
  ttl = effective_ttl disable_retention ttl;
  db = db;
}

abbrev pub at_address : (ℕ → Option Job) → ℕ → Job → ℕ → Option Job
at_address heap r j k = if k == r then some j else heap k

abbrev pub set_job : {S : Type 0} → ℕ → Job → Manager S → Manager S
set_job r j m = record m { heap = at_address m.heap r j }

unfoldable pub apply_options : List JobOption → Job → Job
apply_options [] j = j
apply_options (with_monitor_url url ∷ os) j = apply_options os (record j { monitor_url = url })
apply_options (with_retry_after d ∷ os) j = apply_options os (record j { retry_after = some d })

abbrev pub new_job : Bytes → Time → Job
new_job id now = record {
  id = id;
  status = pending;
  created_at = now;
  updated_at = now;
  completed_at = none;
  response = none;
  error = [];
  monitor_url = [];
  retry_after = none;
  canceled = false;
  phase = created;
}

-- What a handler returns: a response and an error, with what errors.Is says of it.
pub record HandlerError : Type 0 where
  pub is_canceled : Bool
  pub is_deadline_exceeded : Bool
  pub text : Bytes

abbrev pub HandlerResult : Type 0
HandlerResult = Option StoredResponse × Option HandlerError

-- The branches of `run` behind the handler; `context_canceled` is what `ctx.Err()` says there.
unfoldable pub outcome_of : Bool → HandlerResult → Outcome
outcome_of context_canceled (resp, none) = record {
  status = completed;
  response = resp;
  error_text = [];
}
outcome_of context_canceled (resp, some e) =
    if e.is_canceled || e.is_deadline_exceeded || context_canceled
    then record { status = canceled; response = resp; error_text = [] }
    else record { status = failed; response = resp; error_text = e.text }

-- The half of `finish` under the lock.
abbrev pub complete_job : Time → Outcome → Completion → Job → Job
complete_job now o c j = record j {
  status = o.status;
  updated_at = now;
  completed_at = some now;
  response = clone_stored_response o.response;
  error = o.error_text;
  phase = unsaved c;
}

-- The columns that `finish` updates.
abbrev pub save_completion : Completion → JobRecord → JobRecord
save_completion c r = record r {
  status = c.outcome.status;
  updated_at = c.at;
  completed_at = some c.at;
  error_text = c.outcome.error_text;
  response_headers = c.response_headers;
  response_body = c.response_body;
  response_status = c.response_status;
}

-- The columns that `updateStatus` updates.
abbrev pub save_status : JobStatus → Time → JobRecord → JobRecord
save_status s now r = record r { status = s; updated_at = now }

abbrev pub allocate : {S : Type 0} → Job → Manager S → S → Manager S
allocate j m db = record m { heap = at_address m.heap m.next j; next = m.next + 1; db = db }

module _ {S : Type 0} (env : Environment S) where
  abbrev pub record_of_job : Job → JobRecord
  record_of_job j = record {
    id = j.id;
    status = j.status;
    created_at = j.created_at;
    updated_at = j.updated_at;
    completed_at = none;
    monitor_url = j.monitor_url;
    retry_after_seconds = duration_to_seconds env j.retry_after;
    response_status = none;
    response_headers = [];
    response_body = [];
    error_text = [];
  }

  -- StartJob until the record is written; `none` is an error.
  unfoldable pub begin_job : Time → Bytes → List JobOption → Manager S → Manager S × Option ℕ
  unfolding apply_options duration_to_seconds
  begin_job now id options m =
      let j = apply_options options (new_job id now) in
      elim (env.create m.db (record_of_job j)) [
        | none ↦ (m, none)
        | some db ↦ (allocate j m db, some m.next)
      ]

  -- A database write whose error is only logged.
  abbrev pub try_update : Bytes → (JobRecord → JobRecord) → Manager S → Manager S
  try_update id f m = elim (env.update m.db id f) [ none ↦ m | some db ↦ record m { db = db } ]

  -- The texts of a completion; where the header cannot be encoded there are none.
  unfoldable pub completion_of : Time → Outcome → Completion
  unfolding stored_response_to_record clone_stored_response
  completion_of now o = elim (stored_response_to_record env (clone_stored_response o.response)) [
    | none ↦ record {
      outcome = o;
      at = now;
      response_status = none;
      response_headers = [];
      response_body = [];
    }
    | some (status, headers, body) ↦ record {
      outcome = o;
      at = now;
      response_status = status;
      response_headers = headers;
      response_body = body;
    }
  ]

  -- The next step of the goroutine of the job at an address.
  unfoldable pub work_at : Time → HandlerResult → ℕ → Job → Phase → Manager S → Manager S
  unfolding outcome_of clone_stored_response completion_of
  work_at now result r j created m = m
  work_at now result r j waiting m =
      set_job r (record j { status = running; updated_at = now; phase = marked now }) m
  work_at now result r j (marked t) m =
      try_update j.id (save_status running t) (set_job r (record j { phase = handling }) m)
  work_at now result r j handling m =
      set_job r (record j { phase = returned (outcome_of j.canceled result) }) m
  work_at now result r j (returned o) m =
      let m' = set_job r (complete_job now o (completion_of now o) j) m in
      record m' { jobs = remove j.id m.jobs }
  work_at now result r j (unsaved c) m =
      try_update j.id (save_completion c) (set_job r (record j { phase = done }) m)
  work_at now result r j done m = m

  unfoldable pub work : Time → HandlerResult → ℕ → Manager S → Manager S
  unfolding work_at
  work now result r m = elim (m.heap r) [ none ↦ m | some j ↦ work_at now result r j j.phase m ]

abbrev pub is_expired : Time → ℕ → Option Time → Bool
is_expired now ttl none = false
is_expired now ttl (some t) = ltb (t + ttl) now

-- A duration that is not positive clears the setting.
unfoldable pub retry_setting : ℤ → Option ℤ
retry_setting (pos d) = if d == 0 then none else some (pos d)
retry_setting (negsuc d) = none

-- StartJob behind the record: the job enters the map, and its goroutine starts.
abbrev pub start_phase : Phase → Bool
start_phase created = true
start_phase _ = false

module _ {S : Type 0} where
  unfoldable pub register : ℕ → Manager S → Manager S
  register r m = elim (m.heap r) [
    | none ↦ m
    | some j ↦
        let m' = set_job r (record j { phase = waiting }) m in
        if start_phase j.phase then record m' { jobs = put j.id r m.jobs } else m
  ]

  unfoldable pub get_job : Bytes → Manager S → Option ℕ
  get_job id m = find id m.jobs

  unfoldable pub cancel_context : ℕ → Manager S → Manager S
  cancel_context r m = elim (m.heap r) [
    | none ↦ m
    | some j ↦ set_job r (record j { canceled = true }) m
  ]

  -- The part of CancelJob under the lock: the job whose `cancel` it calls, if there is one.
  unfoldable pub cancel_target : Bytes → Manager S → Option ℕ
  cancel_target id m = elim (find id m.jobs) [
    | none ↦ none
    | some r ↦ elim (m.heap r) [
      | none ↦ none
      | some j ↦ if is_terminal j.status then none else some r
    ]
  ]

  -- CancelJob where nothing comes between the lock and the call of `cancel`, which is
  -- `cancel_context`: the manager, and whether cancellation was requested.
  unfoldable pub cancel_job : Bytes → Manager S → Manager S × Bool
  unfolding cancel_context cancel_target
  cancel_job id m = elim (cancel_target id m) [
    | none ↦ (m, false)
    | some r ↦ (cancel_context r m, true)
  ]

  -- The loop of `cleanupExpired` over the map, for one of its keys.
  unfoldable pub sweep_id : Time → Manager S → Bytes → List (Bytes × ℕ) → List (Bytes × ℕ)
  sweep_id now m id jobs = elim (find id jobs) [
    | none ↦ jobs
    | some r ↦ elim (m.heap r) [
      | none ↦ jobs
      | some j ↦ if is_expired now m.ttl j.completed_at then remove id jobs else jobs
    ]
  ]

  unfoldable pub sweep_ids :
      Time → Manager S → List (Bytes × ℕ) → List (Bytes × ℕ) → List (Bytes × ℕ)
  unfolding sweep_id
  sweep_ids now m [] jobs = jobs
  sweep_ids now m ((id, r) ∷ rest) jobs = sweep_ids now m rest (sweep_id now m id jobs)

  -- `cleanupExpired` under the lock.
  unfoldable pub sweep : Time → Manager S → Manager S
  unfolding sweep_ids
  sweep now m = if m.ttl == 0 then m else record m { jobs = sweep_ids now m m.jobs m.jobs }

module _ {S : Type 0} where
  -- SetRetryAfter under the lock.
  unfoldable pub change_retry_after : ℕ → ℤ → Manager S → Manager S
  unfolding retry_setting
  change_retry_after r d m = elim (m.heap r) [
    | none ↦ m
    | some j ↦ set_job r (record j { retry_after = retry_setting d }) m
  ]

  -- SetMonitorURL under the lock.
  unfoldable pub change_monitor_url : ℕ → Bytes → Manager S → Manager S
  change_monitor_url r url m = elim (m.heap r) [
    | none ↦ m
    | some j ↦ set_job r (record j { monitor_url = url }) m
  ]

module _ {S : Type 0} (env : Environment S) where
  -- `cleanupExpired` in the database.
  unfoldable pub delete_expired_rows : Time → Manager S → Manager S
  delete_expired_rows now m =
      if m.ttl == 0
      then m
      else elim (env.delete_expired m.db now m.ttl) [ none ↦ m | some db ↦ record m { db = db } ]

  -- SetRetryAfter in the database, behind its lock.
  unfoldable pub save_retry_after : ℕ → ℤ → Manager S → Manager S
  unfolding retry_setting duration_to_seconds
  save_retry_after r d m = elim (m.heap r) [
    | none ↦ m
    | some j ↦
        try_update env j.id
          (λ w. record w { retry_after_seconds = duration_to_seconds env (retry_setting d) }) m
  ]

  -- SetMonitorURL in the database, behind its lock.
  unfoldable pub save_monitor_url : ℕ → Bytes → Manager S → Manager S
  save_monitor_url r url m = elim (m.heap r) [
    | none ↦ m
    | some j ↦ try_update env j.id (λ w. record w { monitor_url = url }) m
  ]
