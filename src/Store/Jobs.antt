-- ===== src/Store/Jobs.antt =====
-- The table `jobs` of app/host/src/store.rs: prompts wait in it, one task after another. A row's place
-- in the list is its `sequence`: rows are only appended.
pub mod Invariant
pub mod Split
pub mod Claims
pub mod Outcomes
pub mod Endings
pub mod Kept
pub mod Queue
pub mod Refinement
pub mod Acknowledgement
pub mod Calls
use codex_keyboard_windows.Base.{
  ℕ, ◌+◌, ◌-◌, ◌^◌, Bool, true, false, not, ◌||◌, ◌&&◌, Option, none, some, List, [], ◌∷◌, ◌++◌,
  length, leb, ltb, ◌==◌, ◌!=◌, Result, ok, err, ◌>>=◌, ◌>>◌, reject_if, if◌then◌else◌,
}
use codex_keyboard_windows.Store.{
  Text, text_eq, StoreError, External, invalid_job, sqlite, request_id_conflict, task_queue_full,
  claim_generation_out_of_range, max_pending_jobs_per_task, max_global_running_jobs,
  max_request_id_bytes, max_task_id_bytes, max_prompt_bytes, max_cwd_bytes, i64_bound, is_empty,
  has_control, path_contains_nul, path_bytes, validate_slot, to_i64,
}
use codex_keyboard_windows.Store.Tables.{first_where, exists_where, count_where, update_where}

pub record NewJob : Type 0 where
  pub request_id : Text
  pub task_id : Text
  pub slot : ℕ
  pub generation : ℕ
  pub prompt : Text
  pub cwd : Text

pub record Job : Type 0 where
  pub request_id : Text
  pub task_id : Text
  pub slot : ℕ
  pub generation : ℕ
  pub prompt : Text
  pub cwd : Text
  pub recovery_count : ℕ
  pub claim_generation : ℕ

pub data JobFailureKind : Type 0 where
  cli_missing authentication task_archived active_session timeout : JobFailureKind
  invalid_output output_too_large unsafe_working_directory process_io : JobFailureKind
  exit_failure : JobFailureKind

pub data EnqueueOutcome : Type 0 where
  inserted replay : EnqueueOutcome

pub data JobState : Type 0 where
  queued running completed failed : JobState

pub record JobRow : Type 0 where
  pub request_id : Text
  pub task_id : Text
  pub slot : ℕ
  pub generation : ℕ
  pub prompt : Text
  pub cwd : Text
  pub job_state : JobState
  pub recovery_count : ℕ
  pub claim_generation : ℕ
  pub failure_kind : Option JobFailureKind

abbrev pub is_queued : JobState → Bool
is_queued queued = true
is_queued _ = false

abbrev pub is_running : JobState → Bool
is_running running = true
is_running _ = false

-- `state IN ('queued', 'running')`.
abbrev pub is_pending : JobState → Bool
is_pending queued = true
is_pending running = true
is_pending _ = false

-- `WHERE request_id = ?`.
abbrev pub has_request : Text → JobRow → Bool
has_request request_id row = text_eq row.request_id request_id

abbrev pub pending_in : Text → JobRow → Bool
pending_in task_id row = text_eq row.task_id task_id && is_pending row.job_state

abbrev pub queued_in : Text → JobRow → Bool
queued_in task_id row = text_eq row.task_id task_id && is_queued row.job_state

abbrev pub running_in : Text → JobRow → Bool
running_in task_id row = text_eq row.task_id task_id && is_running row.job_state

unfoldable pub validate_job : External → NewJob → Result StoreError (Unit {0})
validate_job x job =
    let request_ok =
      not (is_empty job.request_id)
      && (leb (length job.request_id) max_request_id_bytes && not (has_control job.request_id)) in
    let task_ok =
      not (is_empty job.task_id)
      && (leb (length job.task_id) max_task_id_bytes && not (has_control job.task_id)) in
    let prompt_ok = not (x.is_blank job.prompt) && leb (length job.prompt) max_prompt_bytes in
    let cwd_ok =
      x.is_absolute job.cwd
      && (not (is_empty job.cwd)
          && (leb (path_bytes job.cwd) max_cwd_bytes && not (path_contains_nul job.cwd))) in
    if request_ok && (task_ok && (prompt_ok && cwd_ok)) then ok tt else err invalid_job

-- A row with the payload of the job. Its `generation` passed `to_i64`.
unfoldable pub exact_replay : JobRow → NewJob → ℕ → Bool
exact_replay row job generation =
    text_eq row.task_id job.task_id
    && ((row.slot == job.slot)
        && ((row.generation == generation)
            && (text_eq row.prompt job.prompt && text_eq row.cwd job.cwd)))

unfoldable pub new_row : NewJob → ℕ → JobRow
new_row job generation = record {
  request_id = job.request_id;
  task_id = job.task_id;
  slot = job.slot;
  generation = generation;
  prompt = job.prompt;
  cwd = job.cwd;
  job_state = queued;
  recovery_count = 0;
  claim_generation = 0;
  failure_kind = none;
}

unfoldable pub pending_count : List JobRow → Text → ℕ
pending_count rows task_id = count_where (pending_in task_id) rows

-- A request id that is not in the table.
unfoldable pub insert_job : List JobRow → NewJob → List JobRow × Result StoreError EnqueueOutcome
unfolding new_row pending_count
insert_job rows job =
    if leb max_pending_jobs_per_task (pending_count rows job.task_id)
    then (rows, err task_queue_full)
    else (elim (to_i64 job.generation) [
      | err e ↦ (rows, err e)
      | ok generation ↦ (rows ++ (new_row job generation ∷ []), ok inserted)
    ])

-- The test of a request id that is in the table, which stops at the first difference.
unfoldable pub replay_job : JobRow → NewJob → Result StoreError EnqueueOutcome
unfolding exact_replay
replay_job row job =
    if text_eq row.task_id job.task_id && (row.slot == job.slot)
    then (elim (to_i64 job.generation) [
      | err e ↦ err e
      | ok generation ↦
          if exact_replay row job generation then ok replay else err request_id_conflict
    ])
    else err request_id_conflict

unfoldable pub enqueue :
    External → List JobRow → NewJob → List JobRow × Result StoreError EnqueueOutcome
unfolding insert_job replay_job
enqueue x rows job = elim (validate_slot job.slot >> validate_job x job) [
  | err e ↦ (rows, err e)
  | ok checked ↦ elim (first_where (has_request job.request_id) rows) [
    | some row ↦ (rows, replay_job row job)
    | none ↦ insert_job rows job
  ]
]

-- A queued row with no running and no older queued row of its task, where `earlier` are the rows
-- before it.
unfoldable pub runnable : List JobRow → List JobRow → JobRow → Bool
runnable all earlier row =
    is_queued row.job_state
    && (not (exists_where (running_in row.task_id) all)
        && not (exists_where (queued_in row.task_id) earlier))

-- The oldest of those rows.
unfoldable pub candidate : List JobRow → List JobRow → List JobRow → Option JobRow
candidate all earlier [] = none
candidate all earlier (row ∷ rest) =
    let later = candidate all (earlier ++ (row ∷ [])) rest in
    if runnable all earlier row then some row else later

abbrev pub claimable : Text → JobRow → Bool
claimable request_id row = has_request request_id row && is_queued row.job_state

unfoldable pub start_row : ℕ → JobRow → JobRow
start_row claim_generation row = record row {
  job_state = running;
  claim_generation = claim_generation;
  failure_kind = none;
}

unfoldable pub map_job : JobRow → Job
map_job row = record {
  request_id = row.request_id;
  task_id = row.task_id;
  slot = row.slot;
  generation = row.generation;
  prompt = row.prompt;
  cwd = row.cwd;
  recovery_count = row.recovery_count;
  claim_generation = row.claim_generation;
}

-- The candidate is set to running and read back.
unfoldable pub claim_candidate : List JobRow → JobRow → List JobRow × Result StoreError (Option Job)
unfolding start_row map_job
claim_candidate rows found =
    let next_claim_generation = found.claim_generation + 1 in
    let rows' = update_where (claimable found.request_id) (start_row next_claim_generation) rows in
    if leb i64_bound next_claim_generation
    then (rows, err claim_generation_out_of_range)
    else (if count_where (claimable found.request_id) rows != 1
        then (rows, ok none)
        else (elim (first_where (has_request found.request_id) rows') [
          | none ↦ (rows, err sqlite)
          | some row ↦ (rows', ok (some (map_job row)))
        ]))

unfoldable pub claim_next_runnable : List JobRow → List JobRow × Result StoreError (Option Job)
unfolding claim_candidate candidate
claim_next_runnable rows =
    if leb max_global_running_jobs (count_where (λ row. is_running row.job_state) rows)
    then (rows, ok none)
    else (elim (candidate rows [] rows) [
      | none ↦ (rows, ok none)
      | some found ↦ claim_candidate rows found
    ])

-- `request_id = ?1 AND state = 'running' AND claim_generation = ?2`.
abbrev pub claimed_as : Text → ℕ → JobRow → Bool
claimed_as request_id claim_generation row =
    has_request request_id row
    && (is_running row.job_state && (row.claim_generation == claim_generation))

unfoldable pub completed_row : JobRow → JobRow
completed_row row = record row { job_state = completed }

unfoldable pub failed_row : JobFailureKind → JobRow → JobRow
failed_row failure row = record row { job_state = failed; failure_kind = some failure }

-- The statement that `mark_completed` and `mark_failed` share.
unfoldable pub finish_job :
    (JobRow → JobRow) → List JobRow → Text → ℕ → List JobRow × Result StoreError Bool
finish_job ending rows request_id claim_generation = elim (to_i64 claim_generation) [
  | err e ↦ (rows, err e)
  | ok generation ↦ (
    update_where (claimed_as request_id generation) ending rows,
    ok (count_where (claimed_as request_id generation) rows == 1),
  )
]

unfoldable pub mark_completed : List JobRow → Text → ℕ → List JobRow × Result StoreError Bool
unfolding finish_job completed_row
mark_completed = finish_job completed_row

unfoldable pub mark_failed :
    List JobRow → Text → ℕ → JobFailureKind → List JobRow × Result StoreError Bool
unfolding finish_job failed_row
mark_failed rows request_id claim_generation failure =
    finish_job (failed_row failure) rows request_id claim_generation

unfoldable pub requeued_row : JobRow → JobRow
requeued_row row = record row { job_state = queued; recovery_count = row.recovery_count + 1 }

abbrev pub is_running_row : JobRow → Bool
is_running_row row = is_running row.job_state

-- A count that would leave 32 bits breaks the column's CHECK, and the statement fails.
unfoldable pub recover_interrupted_jobs : List JobRow → List JobRow × Result StoreError ℕ
unfolding requeued_row
recover_interrupted_jobs rows =
    if exists_where (λ row. is_running row.job_state && leb (2 ^ 32 - 1) row.recovery_count) rows
    then (rows, err sqlite)
    else (update_where is_running_row requeued_row rows, ok (count_where is_running_row rows))

abbrev pub of_generation : Text → ℕ → JobRow → Bool
of_generation task_id generation row = text_eq row.task_id task_id && (row.generation == generation)

abbrev pub last_where : (JobRow → Bool) → List JobRow → Option JobRow
last_where p [] = none
last_where p (row ∷ rows) = elim (last_where p rows) [
  | some later ↦ some later
  | none ↦ if p row then some row else none
]

unfoldable pub latest_job_outcome :
    List JobRow → Text → ℕ → Result StoreError (Option (JobState × Option JobFailureKind))
latest_job_outcome rows task_id generation = do
  generation' ← to_i64 generation
  ok (elim (last_where (of_generation task_id generation') rows) [
    | none ↦ none
    | some row ↦ some (row.job_state, row.failure_kind)
  ])
