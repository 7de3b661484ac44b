-- ===== src/Async/Examples.antt =====
-- internal/async: the theorems at concrete inputs, and tests.
use go_odata.Prelude.{
  ℕ, true, false, List, [], ◌∷◌, ◌++◌, none, some, Bytes, codes, pos, ◌≡◌, ◌≢◌, ◌⊎◌, ◌↔◌, refl,
  arith, bytes_eq, if◌then◌else◌, put, itoa, find,
}
use go_odata.Async.Records.{
  running, serialize_headers, StoredResponse, Job, broken, Outcome, completed, returned,
  clone_stored_response, stored_response_to_record, stored_response_from_record, is_terminal,
  handling, done, failed,
}
use go_odata.Async.Manager.{
  Manager, HandlerResult, get_job, cancel_job, sweep, new_manager, work, completion_of,
  save_completion,
}
use go_odata.Async.Events.{change_row, Event, begin, launch, go_on, cancel, run_events, step}
use go_odata.Async.Invariant.{IsValid, IsLive, listed, open_phase, is_some}
use go_odata.Async.Steps.{run_events-IsValid, new_manager-IsValid}
use go_odata.Async.Local.{job_steps, heap-run_events}
use go_odata.Async.Reached.{reached, get_job-reached, sweep-reached, terminal-reached, done-reached}
use go_odata.Async.Monitor.{
  reply, Method, write_stored_response, extract_job_id, get, serve_monitor, delete,
}
use go_odata.Async.Restored.{CanEncode, replay, stored_response_from_record-to_record}
use go_odata.Async.Answers.{serve_monitor-finish, serve_monitor-state}
use go_odata.Async.InMemory.{
  Table, table_environment, table-IsDatabase, table-GivesBack, lookup_row-readable,
}

abbrev no_rows : Table
no_rows = λ id. none

abbrev nothing : HandlerResult
nothing = (none, none)

abbrev answer : StoredResponse
answer = record {
  status_code = pos 201;
  header = some ((codes "Location", codes "/Orders(7)" ∷ []) ∷ []);
  body = codes "{}";
}

-- A job is created and launched, and its handler is called.
abbrev to_handler : List Event
to_handler = begin 10 (codes "ab") [] ∷ launch 0 ∷ go_on 0 11 nothing ∷ go_on 0 12 nothing ∷ []

abbrev handled : Manager Table
handled = reached table_environment table-IsDatabase no_rows false (pos 50) to_handler

test_handled : get_job (codes "ab") handled ≡ some 0
unfolding get_job run_events step new_manager find put
test_handled = refl

-- The job in its handler.
abbrev handling_job : Job
handling_job = record {
  id = codes "ab";
  status = running;
  created_at = 10;
  updated_at = 11;
  completed_at = none;
  response = none;
  error = [];
  monitor_url = [];
  retry_after = none;
  canceled = false;
  phase = handling;
}

handled_heap : handled.heap 0 ≡ some handling_job
unfolding run_events step new_manager
handled_heap = refl

-- The handler returns a response, and `finish` takes it.
abbrev to_end : List Event
to_end = to_handler ++ go_on 0 20 (some answer, none) ∷ go_on 0 21 nothing ∷ go_on 0 22 nothing ∷ []

abbrev ended : Manager Table
ended = reached table_environment table-IsDatabase no_rows false (pos 50) to_end

abbrev ended_job : Job
ended_job = record handling_job {
  status = completed;
  updated_at = 21;
  completed_at = some 21;
  response = some answer;
  phase = done;
}

ended_heap : ended.heap 0 ≡ some ended_job
unfolding run_events step new_manager
ended_heap = refl

sweep-reached_example : sweep 1000 ended ≡ ended
sweep-reached_example =
    sweep-reached table_environment table-IsDatabase no_rows false (pos 50) to_end 1000

terminal-reached_example :
    (j' : Job) × ((run_events table_environment (cancel (codes "ab") ∷ launch 0 ∷ []) ended).heap 0
      ≡ some j')
    × (j'.status ≡ completed)
    × (j'.response ≡ some answer)
    × (j'.error ≡ [])
    × (j'.completed_at ≡ some 21)
terminal-reached_example =
    terminal-reached table_environment table-IsDatabase no_rows false (pos 50) to_end
      (cancel (codes "ab") ∷ launch 0 ∷ []) 0 ended_job ended_heap refl

-- The last three steps come with others between them, and two that find nothing to do.
abbrev to_done : List Event
to_done =
    cancel (codes "ab")
    ∷ go_on 0 20 nothing
    ∷ begin 20 (codes "cd") []
    ∷ go_on 0 21 nothing
    ∷ go_on 0 22 nothing
    ∷ go_on 0 23 nothing
    ∷ go_on 0 24 nothing
    ∷ []

done-reached_example :
    (j' : Job) × ((run_events table_environment to_done handled).heap 0 ≡ some j')
    × (j'.phase ≡ done)
    × (is_terminal j'.status ≡ true)
done-reached_example =
    done-reached table_environment table-IsDatabase no_rows false (pos 50) to_handler to_done 0
      handling_job handled_heap refl (omega arith)

abbrev trouble : HandlerResult
trouble =
    (none, some (record { is_canceled = false; is_deadline_exceeded = false; text = codes "no" }))

abbrev to_trouble : List Event
to_trouble = go_on 0 20 trouble ∷ go_on 0 21 nothing ∷ go_on 0 22 nothing ∷ []

-- Another job begins between the two steps of CancelJob.
abbrev another : List Event
another = begin 15 (codes "cd") [] ∷ []

-- Without the cancellation the job ends failed.
test_trouble :
    (run_events table_environment to_trouble handled).heap 0
    ≡ some (record handling_job {
      status = failed;
      updated_at = 21;
      completed_at = some 21;
      error = codes "no";
      phase = done;
    })
unfolding run_events step new_manager
test_trouble = refl

handled-IsValid : IsValid table_environment handled
handled-IsValid =
    run_events-IsValid table_environment table-IsDatabase to_handler _
      (new_manager-IsValid table_environment no_rows false (pos 50))

heap-run_events_example :
    (run_events table_environment to_done handled).heap 0
    ≡ some (job_steps table_environment 0 handling_job to_done)
heap-run_events_example =
    heap-run_events table_environment to_done handled 0 handling_job table-IsDatabase
      handled-IsValid handled_heap

encoded_answer :
    stored_response_to_record table_environment (clone_stored_response (some answer))
    ≡ some (some (pos 201), 8 ∷ codes "Location/Orders(7)", codes "{}")
unfolding stored_response_to_record clone_stored_response serialize_headers
encoded_answer = refl

stored_response_from_record-to_record_example :
    stored_response_from_record table_environment
      (some (pos 201))
      (8 ∷ codes "Location/Orders(7)")
      (codes "{}")
    ≡ some (clone_stored_response (some answer))
stored_response_from_record-to_record_example =
    stored_response_from_record-to_record table_environment (some answer)
      (some (pos 201), 8 ∷ codes "Location/Orders(7)", codes "{}") (table-GivesBack _)
      encoded_answer

serve_monitor-state_example :
    ((serve_monitor table_environment delete (codes "/$async/ab") [] handled).0 ≡ handled)
    ⊎ ((◌≡◌ {A = Method} delete delete)
        × ((serve_monitor table_environment delete (codes "/$async/ab") [] handled).0
            ≡ (cancel_job (extract_job_id (codes "/$async/ab")) handled).0))
serve_monitor-state_example =
    serve_monitor-state table_environment delete (codes "/$async/ab") [] handled handled-IsValid

get_job-reached_example :
    ((id : Bytes) (r : ℕ)
      → (get_job id ended ≡ some r)
        ↔ ((j : Job) × (ended.heap r ≡ some j) × (j.id ≡ id) × (listed j.phase ≡ true)))
    × ((r : ℕ) (j : Job)
        → ended.heap r ≡ some j
        → (is_some j.completed_at ≡ is_terminal j.status)
          × (listed j.phase ≡ true → is_terminal j.status ≡ false)
          × (open_phase j.phase ≡ true → IsLive (table_environment.rows ended.db j.id)))
get_job-reached_example =
    get_job-reached table_environment table-IsDatabase no_rows false (pos 50) to_end

-- The handler has returned.
abbrev created_outcome : Outcome
created_outcome = record { status = completed; response = some answer; error_text = [] }

abbrev to_return : List Event
to_return = to_handler ++ go_on 0 20 (some answer, none) ∷ []

abbrev back : Manager Table
back = reached table_environment table-IsDatabase no_rows false (pos 50) to_return

abbrev returned_job : Job
returned_job = record handling_job { phase = returned created_outcome }

back_heap : back.heap 0 ≡ some returned_job
unfolding run_events step new_manager
back_heap = refl

back-IsValid : IsValid table_environment back
back-IsValid =
    run_events-IsValid table_environment table-IsDatabase to_return _
      (new_manager-IsValid table_environment no_rows false (pos 50))

abbrev saved : Table
saved = λ k.
    if bytes_eq (codes "ab") k
    then change_row (save_completion (completion_of table_environment 21 created_outcome))
        (back.db k)
    else back.db k

answer-CanEncode : CanEncode table_environment (some answer)
unfolding serialize_headers
answer-CanEncode = (8 ∷ codes "Location/Orders(7)", refl)

saved_readable : table_environment.first saved (codes "ab") ≢ broken
saved_readable = lookup_row-readable (saved (codes "ab"))

path_of_job : extract_job_id (codes "/$async/ab/") ≡ codes "ab"
unfolding extract_job_id
path_of_job = refl

abbrev after_finish : Manager Table
after_finish = work table_environment 22 nothing 0 (work table_environment 21 nothing 0 back)

serve_monitor-finish_example :
    serve_monitor table_environment get (codes "/$async/ab/") [] after_finish
    ≡ (after_finish, replay completed created_outcome [])
serve_monitor-finish_example =
    serve_monitor-finish table_environment table-IsDatabase 21 22 nothing nothing 0 returned_job
      created_outcome back saved (codes "/$async/ab/") [] back-IsValid back_heap refl
      answer-CanEncode (table-GivesBack _) refl saved_readable path_of_job refl

test_replay :
    replay completed created_outcome []
    ≡ reply (record {
      status = pos 201;
      header =
          (codes "Location", codes "/Orders(7)" ∷ [])
          ∷ (codes "Asyncresult", codes "201" ∷ [])
          ∷ [];
      body = codes "{}";
    })
unfolding write_stored_response find put itoa
test_replay = refl
