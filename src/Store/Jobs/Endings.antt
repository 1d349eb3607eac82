-- ===== src/Store/Jobs/Endings.antt =====
-- What `Store::mark_completed` and `Store::mark_failed` of app/host/src/store.rs do to the table.
use codex_keyboard_windows.Base.{
  ℕ, ◌^◌, ◌≤◌, ◌≡◌, refl, subst, Bool, true, false, some, List, ◌∷◌, ◌++◌, arith, Result, ok, err,
}
use codex_keyboard_windows.Store.{Text, text_eq, text_eq_iff, StoreError, generation_out_of_range}
use codex_keyboard_windows.Store.Tables.{exists_where, exists_where-append}
use codex_keyboard_windows.Store.Jobs.{
  JobRow, JobState, JobFailureKind, is_running, queued, running, completed, failed, claimed_as,
  completed_row, failed_row, mark_completed, mark_failed,
}
use codex_keyboard_windows.Store.Jobs.Invariant.{IsUnique}
use codex_keyboard_windows.Store.Jobs.Outcomes.{
  Finish, out_of_range, ignored, ended, finish_job-Finish,
}

-- A row that runs under a request id and a claim generation.
pub record IsRunning (request_id : Text) (generation : ℕ) (row : JobRow) : Type 0 where
  pub request : row.request_id ≡ request_id
  pub state : row.job_state ≡ running
  pub claim : row.claim_generation ≡ generation

-- A table in which the one row that runs under a request id and a claim generation was replaced,
-- or in which there is no such row, or a generation that does not fit 63 bits.
pub data Acknowledged (replaced : JobRow → JobRow) (rows : List JobRow) (request_id : Text)
    (generation : ℕ) (outcome : List JobRow × Result StoreError Bool) : Type 0 where
  too_large :
      2 ^ 63 ≤ generation
      → outcome ≡ (rows, err generation_out_of_range)
      → Acknowledged replaced rows request_id generation outcome
  none_runs :
      ((before : List JobRow) (row : JobRow) (after : List JobRow)
        → rows ≡ before ++ (row ∷ after)
        → ¬ IsRunning request_id generation row)
      → outcome ≡ (rows, ok false)
      → Acknowledged replaced rows request_id generation outcome
  one_ran :
      (before : List JobRow) (row : JobRow) (after : List JobRow)
      → rows ≡ before ++ (row ∷ after)
      → IsRunning request_id generation row
      → outcome ≡ (before ++ (replaced row ∷ after), ok true)
      → Acknowledged replaced rows request_id generation outcome

is_running-running : (s : JobState) → is_running s ≡ true → s ≡ running
is_running-running queued h = ground (arith, h)
is_running-running running h = refl
is_running-running completed h = ground (arith, h)
is_running-running failed h = ground (arith, h)

claimed_as-IsRunning :
    (id : Text) (generation : ℕ) (row : JobRow)
    → claimed_as id generation row ≡ true
    → IsRunning id generation row
claimed_as-IsRunning id generation row h = record {
  request = (text_eq_iff row.request_id id).0 (ground (arith, h));
  state = is_running-running row.job_state (ground (arith, h));
  claim = ground (arith, h);
}

IsRunning-claimed_as :
    (id : Text) (generation : ℕ) (row : JobRow)
    → IsRunning id generation row
    → claimed_as id generation row ≡ true
IsRunning-claimed_as id generation row runs =
    let same : text_eq row.request_id id ≡ true = (text_eq_iff row.request_id id).1 runs.request in
    let state : is_running row.job_state ≡ true = rw runs.state refl in
    ground (arith, same, state, runs.claim)

none_claimed :
    (rows before : List JobRow) (row : JobRow) (after : List JobRow) (id : Text) (generation : ℕ)
    → exists_where (claimed_as id generation) rows ≡ false
    → rows ≡ before ++ (row ∷ after)
    → ¬ IsRunning id generation row
unfolding exists_where
none_claimed rows before row after id generation missing split runs =
    let p = claimed_as id generation in
    let hit : p row ≡ true = IsRunning-claimed_as id generation row runs in
    let missing' : exists_where p (before ++ (row ∷ after)) ≡ false =
      subst (λ t. exists_where p t ≡ false) split missing in
    absurd (ground (arith, hit, missing', exists_where-append p before (row ∷ after)))

Finish-Acknowledged :
    (ending : JobRow → JobRow) (rows : List JobRow) (id : Text) (generation : ℕ)
    (outcome : List JobRow × Result StoreError Bool)
    → Finish ending rows id generation outcome
    → Acknowledged ending rows id generation outcome
Finish-Acknowledged ending rows id generation outcome (out_of_range large same) =
    too_large large same
Finish-Acknowledged ending rows id generation outcome (ignored missing same) =
    none_runs
      (λ before row after split. none_claimed rows before row after id generation missing split)
      same
Finish-Acknowledged ending rows id generation outcome (ended before row after split hit same) =
    one_ran before row after split (claimed_as-IsRunning id generation row hit) same

-- Where the request ids are distinct, `mark_completed` sets the state of the one row that runs
-- under the request id and the claim generation to completed, leaves the rest of that row and
-- every other row as it is and succeeds, and `mark_failed` does the same with the state failed and
-- the failure kind; when no row has that request id, runs and has that claim generation, both
-- change nothing and report false; and both change nothing and fail for a generation of 2^63 or
-- more.
pub mark_completed-mark_failed :
    (rows : List JobRow) (request_id : Text) (generation : ℕ) (failure : JobFailureKind)
    → IsUnique rows
    → Acknowledged
        (λ row. record row { job_state = completed })
        rows
        request_id
        generation
        (mark_completed rows request_id generation)
      × Acknowledged
          (λ row. record row { job_state = failed; failure_kind = some failure })
          rows
          request_id
          generation
          (mark_failed rows request_id generation failure)
unfolding mark_completed mark_failed completed_row failed_row
mark_completed-mark_failed rows id generation failure u = (
  Finish-Acknowledged completed_row rows id generation _
      (finish_job-Finish completed_row rows id generation u),
  Finish-Acknowledged (failed_row failure) rows id generation _
      (finish_job-Finish (failed_row failure) rows id generation u),
)
