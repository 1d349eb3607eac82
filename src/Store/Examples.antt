-- ===== src/Store/Examples.antt =====
-- Runs of the store on small tables.
use codex_keyboard_windows.Base.{◌≡◌, refl, true, false, some, List, [], ◌∷◌, ok, arith}
use codex_keyboard_windows.Store.{Text, text_eq, External, validate_slot, to_i64}
use codex_keyboard_windows.Store.Tables.{exists_where, count_where, first_where, update_where}
use codex_keyboard_windows.Store.Jobs.{
  NewJob, Job, enqueue, claim_next_runnable, mark_completed, mark_failed, validate_job, runnable,
  replay, timeout, completed, failed,
}
use codex_keyboard_windows.Store.Jobs.Calls.{
  Call, enqueues, claims, completes, fails, recovers, run, step,
}
use codex_keyboard_windows.Store.Jobs.Invariant.{IsJobs}
use codex_keyboard_windows.Store.Jobs.Outcomes.{enqueue-twice}
use codex_keyboard_windows.Store.Jobs.Endings.{Acknowledged, mark_completed-mark_failed}
use codex_keyboard_windows.Store.Jobs.Kept.{empty-IsJobs, run-IsJobs}
use codex_keyboard_windows.Store.Jobs.Queue.{queue, QueueStep}
use codex_keyboard_windows.Store.Jobs.Refinement.{step-QueueStep}
use codex_keyboard_windows.Store.Jobs.Acknowledgement.{claim_next_runnable-acknowledged}

abbrev externals : External
externals = record {
  is_uuid = λ text. true;
  is_blank = λ text. false;
  is_absolute = λ text. true;
  same_path = text_eq;
  is_json_object = λ text. true;
  sha256 = λ text. text;
}

abbrev prompt_of : Text → Text → NewJob
prompt_of request_id task_id = record {
  request_id = request_id;
  task_id = task_id;
  slot = 1;
  generation = 1;
  prompt = 72 ∷ [];
  cwd = 47 ∷ [];
}

abbrev first_job : NewJob
first_job = prompt_of (65 ∷ []) (84 ∷ [])

abbrev second_job : NewJob
second_job = prompt_of (66 ∷ []) (84 ∷ [])

abbrev waiting : List Call
waiting = enqueues first_job ∷ enqueues second_job ∷ []

abbrev history : List Call
history =
    enqueues first_job
    ∷ claims
    ∷ enqueues second_job
    ∷ claims
    ∷ recovers
    ∷ claims
    ∷ completes (65 ∷ []) 2
    ∷ claims
    ∷ fails (66 ∷ []) 1 timeout
    ∷ []

abbrev started : Job
started = record {
  request_id = 65 ∷ [];
  task_id = 84 ∷ [];
  slot = 1;
  generation = 1;
  prompt = 72 ∷ [];
  cwd = 47 ∷ [];
  recovery_count = 0;
  claim_generation = 1;
}

queue_test : queue (84 ∷ []) (run externals [] waiting) ≡ (65 ∷ []) ∷ (66 ∷ []) ∷ []
unfolding run queue text_eq validate_slot validate_job first_where count_where to_i64
queue_test = refl

history_test : queue (84 ∷ []) (run externals [] history) ≡ []
unfolding run queue text_eq count_where validate_slot validate_job first_where to_i64 runnable
    exists_where update_where
history_test = refl

run-IsJobs_example : IsJobs (run externals [] history)
run-IsJobs_example = run-IsJobs externals [] history empty-IsJobs

waiting-IsJobs : IsJobs (run externals [] waiting)
waiting-IsJobs = run-IsJobs externals [] waiting empty-IsJobs

claim_next_runnable-Acknowledged-example :
    let table = (claim_next_runnable (run externals [] waiting)).0 in
    ((mark_completed table (65 ∷ []) 0).1 ≡ ok false)
    × ((mark_failed table (65 ∷ []) 0 timeout).1 ≡ ok false)
unfolding run claim_next_runnable text_eq count_where validate_slot validate_job first_where to_i64
    runnable exists_where update_where
claim_next_runnable-Acknowledged-example =
    claim_next_runnable-acknowledged (run externals [] waiting)
      (claim_next_runnable (run externals [] waiting)).0 started 0 timeout waiting-IsJobs.unique
      refl (omega arith)

step-QueueStep_example :
    QueueStep claims
      (84 ∷ [])
      (queue (84 ∷ []) (run externals [] waiting))
      (queue (84 ∷ []) (step externals (run externals [] waiting) claims))
step-QueueStep_example =
    step-QueueStep externals (run externals [] waiting) claims (84 ∷ []) waiting-IsJobs

enqueue-twice_example :
    enqueue externals (enqueue externals [] first_job).0 first_job
    ≡ ((enqueue externals [] first_job).0, ok replay)
unfolding enqueue validate_slot validate_job first_where count_where to_i64
enqueue-twice_example = enqueue-twice externals [] (enqueue externals [] first_job).0 first_job refl

abbrev one_running : List Call
one_running = enqueues first_job ∷ enqueues second_job ∷ claims ∷ []

one_running-IsJobs : IsJobs (run externals [] one_running)
one_running-IsJobs = run-IsJobs externals [] one_running empty-IsJobs

Acknowledged-example :
    Acknowledged
      (λ row. record row { job_state = completed })
      (run externals [] one_running)
      (65 ∷ [])
      1
      (mark_completed (run externals [] one_running) (65 ∷ []) 1)
    × Acknowledged
        (λ row. record row { job_state = failed; failure_kind = some timeout })
        (run externals [] one_running)
        (65 ∷ [])
        1
        (mark_failed (run externals [] one_running) (65 ∷ []) 1 timeout)
Acknowledged-example =
    mark_completed-mark_failed (run externals [] one_running) (65 ∷ []) 1 timeout
      one_running-IsJobs.unique

acknowledged_test : (mark_completed (run externals [] one_running) (65 ∷ []) 1).1 ≡ ok true
unfolding run mark_completed validate_slot validate_job first_where count_where to_i64 runnable
    exists_where update_where text_eq
acknowledged_test = refl
