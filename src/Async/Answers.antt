-- ===== src/Async/Answers.antt =====
-- internal/async/manager.go: what the monitor answers for a job that has ended, and what it changes.
use go_odata.Prelude.{
  ℕ, ==_refl, true, false, List, [], ◌∷◌, none, some, Bytes, ◌≡◌, ◌≢◌, refl, ap, ◌∙◌, subst, arith,
  ◌⊎◌, find, remove, Bool-cases, Option-cases, inl, inr, bytes_eq_refl,
}
use go_odata.Async.Records.{
  Time, Header, JobStatus, pending, running, completed, failed, canceled, JobRecord, Job, Outcome,
  Completion, Environment, Lookup, found, missing, broken, is_terminal, clone_stored_response,
  returned, unsaved,
}
use go_odata.Async.Manager.{
  Manager, HandlerResult, cancel_job, cancel_target, work, work_at, completion_of, save_completion,
  set_job, try_update, complete_job,
}
use go_odata.Async.Events.{IsDatabase}
use go_odata.Async.Invariant.{IsValid, IsLive}
use go_odata.Async.Monitor.{
  Answer, reply, status_only, Method, get, head, delete, other, serve_monitor, serve_record,
  serve_snapshot, delete_monitor, record_to_snapshot, answer_status, extract_job_id, JobSnapshot,
  is_empty,
}
use go_odata.Async.Restored.{
  snapshot_of, write_cloned, failed_cloned, replay, CanEncode, GivesBackHeader,
}

module _ {S : Type 0} (env : Environment S) where
  saved_row :
      (m : Manager S) (id : Bytes) (f : JobRecord → JobRecord) (db : S)
      → IsDatabase env
      → IsLive (env.rows m.db id)
      → env.update m.db id f ≡ some db
      → (row : JobRecord) × (env.rows db id ≡ some (f row))
  saved_row m id f db law live e = elim (Option-cases (env.rows m.db id)) [
    | inl n ↦ absurd (subst IsLive n live)
    | inr (row, k) ↦ (row, law.rows-update m.db id f id e ∙ rw (bytes_eq_refl id) (rw k refl))
  ]

  -- A row that can be read is found.
  first_row :
      (db : S) (id : Bytes) (row : JobRecord) (l : Lookup)
      → IsDatabase env
      → env.rows db id ≡ some row
      → env.first db id ≡ l
      → l ≢ broken
      → l ≡ found row
  first_row db id row (found r) law h e n = cc (law.first-found db id e, h)
  first_row db id row missing law h e n = absurd (cc (law.first-missing db id e, h))
  first_row db id row broken law h e n = absurd (n refl)

  answer-replay :
      (id : Bytes) (st : JobStatus) (o : Outcome) (w : Header) (s : JobSnapshot)
      → is_terminal st ≡ true
      → s.response ≡ clone_stored_response o.response
      → s.err ≡ o.error_text
      → answer_status env id s st true w ≡ replay st o w
  unfolding answer_status
  answer-replay id pending o w s t r e = cc
  answer-replay id running o w s t r e = cc
  answer-replay id completed o w s t r e = rw r (ap reply (write_cloned w o.response true))
  answer-replay id failed o w s t r e = rw (r, e) (failed_cloned w o.response o.error_text true)
  answer-replay id canceled o w s t r e = refl

  serve_found :
      (path : Bytes) (w : Header) (m : Manager S) (id : Bytes) (row : JobRecord) (s : JobSnapshot)
      → extract_job_id path ≡ id
      → is_empty id ≡ false
      → env.first m.db id ≡ found row
      → record_to_snapshot env row ≡ some s
      → serve_monitor env get path w m ≡ (m, answer_status env id s s.status true w)
  unfolding serve_monitor serve_snapshot
  serve_found path w m id row s e n f g =
      rw (e, serve_monitor) (rw n (rw f (rw (g, serve_record) refl)))

  module _ (law : IsDatabase env) where
    module _ (now : Time) (result : HandlerResult) (r : ℕ) (j : Job) (o : Outcome)
        (m : Manager S) where
      abbrev finished : Job
      finished = complete_job now o (completion_of env now o) j

      finish_work :
          m.heap r ≡ some j
          → j.phase ≡ returned o
          → work env now result r m ≡ record (set_job r finished m) { jobs = remove j.id m.jobs }
      unfolding work work_at
      finish_work h p = rw (h, work) (rw (p, work_at) refl)

    saved_db :
        (now : Time) (result : HandlerResult) (r : ℕ) (j : Job) (c : Completion) (m : Manager S)
        (db : S)
        → m.heap r ≡ some j
        → j.phase ≡ unsaved c
        → env.update m.db j.id (save_completion c) ≡ some db
        → (work env now result r m).db ≡ db
    unfolding work work_at
    saved_db now result r j c m db h p u = rw (h, work) (rw (p, work_at) (rw (u, try_update) refl))

    -- A job's handler has returned, in a valid manager over a database that keeps the primary key and
    -- whose statements change the rows they name, with a response whose header JSON can encode and
    -- gives back when it decodes it. Once `finish` is through and the database has taken its update, a GET for the job
    -- that can read the row is answered by the handler's response, the error's text of a failed
    -- job without one, or 204 for a canceled job, and changes nothing.
    pub serve_monitor-finish :
        (now later : Time) (result result' : HandlerResult) (r : ℕ) (j : Job) (o : Outcome)
        (m : Manager S) (db : S) (path : Bytes) (w : Header)
        → IsValid env m
        → m.heap r ≡ some j
        → j.phase ≡ returned o
        → CanEncode env o.response
        → GivesBackHeader env o.response
        → env.update m.db j.id (save_completion (completion_of env now o)) ≡ some db
        → env.first db j.id ≢ broken
        → extract_job_id path ≡ j.id
        → is_empty j.id ≡ false
        → let m' = work env later result' r (work env now result r m) in
          serve_monitor env get path w m' ≡ (m', replay o.status o w)
    serve_monitor-finish now later result result' r j o m db path w v h p c codec u n e i =
        let c1 = completion_of env now o in
        let m1 = work env now result r m in
        let m2 = work env later result' r m1 in
        let one = finish_work now result r j o m h p in
        let at_r : m1.heap r ≡ some (finished now result r j o m) =
          ap (λ (x : Manager S). x.heap r) one ∙ rw (==_refl r) refl in
        let stored : m2.db ≡ db =
          saved_db later result' r (finished now result r j o m) c1 m1 db at_r refl
            (ap (λ (x : Manager S). env.update x.db j.id (save_completion c1)) one ∙ u) in
        let live = v.rowed r j h (rw p refl) in
        let (row, there) = saved_row m j.id (save_completion c1) db law live u in
        let seen = first_row db j.id (save_completion c1 row) _ law there refl n in
        let ended : is_terminal o.status ≡ true = ground (arith, v.coherent r j h, p) in
        serve_found path w m2 j.id (save_completion c1 row) _ e i
          (ap (λ (d : S). env.first d j.id) stored ∙ seen) (snapshot_of env now o row codec c)
        ∙ ap (λ (a : Answer). (m2, a)) (answer-replay j.id o.status o w _ ended refl refl)

  remove-absent :
      (id : Bytes) (jobs : List (Bytes × ℕ)) → find id jobs ≡ none → remove id jobs ≡ jobs
  unfolding find remove
  remove-absent id [] h = refl
  remove-absent id ((k, v) ∷ jobs) h = ground (arith, h, remove-absent id jobs)

  -- The switch of ServeMonitor on the method leaves the manager alone, but for a cancellation.
  delete_monitor_lem :
      (id : Bytes) (s : JobSnapshot) (w : Header) (m : Manager S)
      → IsValid env m
      → delete_monitor env id s w m ≡ ((cancel_job id m).0, status_only 204 w)
  unfolding delete_monitor cancel_job cancel_target
  delete_monitor_lem id s w m v = elim (Option-cases (find id m.jobs)) [
    | inl e ↦
        let same : record m { jobs = remove id m.jobs } ≡ m =
          ap (λ (x : List (Bytes × ℕ)). record m { jobs = x }) (remove-absent id m.jobs e) in
        ground (arith, e, same)
    | inr (r, e) ↦
        let (j, h, i, l) = v.known id r e in
        let quiet : is_terminal j.status ≡ false = ground (arith, v.coherent r j h, l) in
        ground (arith, e, h, quiet)
  ]

  serve_snapshot-state :
      (method : Method) (id : Bytes) (s : JobSnapshot) (w : Header) (m : Manager S)
      → IsValid env m
      → ((serve_snapshot env method id s w m).0 ≡ m)
        ⊎ ((method ≡ delete) × ((serve_snapshot env method id s w m).0 ≡ (cancel_job id m).0))
  unfolding serve_snapshot
  serve_snapshot-state get id s w m v = inl refl
  serve_snapshot-state head id s w m v = inl refl
  serve_snapshot-state other id s w m v = inl refl
  serve_snapshot-state delete id s w m v =
      inr (refl, ap (λ (x : Manager S × Answer). x.0) (delete_monitor_lem id s w m v))

  serve_record-state :
      (method : Method) (id : Bytes) (l : Lookup) (w : Header) (m : Manager S)
      → IsValid env m
      → ((serve_record env method id l w m).0 ≡ m)
        ⊎ ((method ≡ delete) × ((serve_record env method id l w m).0 ≡ (cancel_job id m).0))
  unfolding serve_record
  serve_record-state method id missing w m v = inl refl
  serve_record-state method id broken w m v = inl refl
  serve_record-state method id (found row) w m v =
      elim (Option-cases (record_to_snapshot env row)) [
        | inl e ↦ rw (e, serve_record) (inl refl)
        | inr (s, e) ↦ rw (e, serve_record) (serve_snapshot-state method id s w m v)
      ]

  -- In a valid manager a request to the monitor changes nothing, or it is a DELETE and does to the
  -- manager what CancelJob does for the ID of the path: the removal of a job that has ended never
  -- finds one.
  pub serve_monitor-state :
      (method : Method) (path : Bytes) (w : Header) (m : Manager S)
      → IsValid env m
      → ((serve_monitor env method path w m).0 ≡ m)
        ⊎ ((method ≡ delete)
            × ((serve_monitor env method path w m).0 ≡ (cancel_job (extract_job_id path) m).0))
  unfolding serve_monitor serve_record
  serve_monitor-state method path w m v = elim (Bool-cases (is_empty (extract_job_id path))) [
    | inl e ↦ inl (rw (e, serve_monitor) refl)
    | inr e ↦ rw (e, serve_monitor) (serve_record-state method (extract_job_id path) _ w m v)
  ]
