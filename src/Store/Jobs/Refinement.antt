-- ===== src/Store/Jobs/Refinement.antt =====
-- The calls on the table `jobs` as steps of the queues of the tasks, and the claims that they end.
use codex_keyboard_windows.Base.{
  ℕ, ◌-◌, ◌^◌, ◌≡◌, ◌⊎◌, ◌∙◌, refl, sym, ap, subst, true, false, ◌&&◌, none, some, List, [], ◌∷◌,
  ◌++◌, arith, leb, ok, err, Bool-cases, inl, inr, append-nil,
}
use codex_keyboard_windows.Store.{
  Text, text_eq, text_eq_iff, External, claim_generation_out_of_range, generation_out_of_range,
}
use codex_keyboard_windows.Store.Tables.{exists_where}
use codex_keyboard_windows.Store.Jobs.{
  NewJob, JobRow, is_pending, is_running, inserted, replay, enqueue, new_row, claim_next_runnable,
  completed_row, failed_row, finish_job, mark_completed, mark_failed, recover_interrupted_jobs,
  map_job,
}
use codex_keyboard_windows.Store.Jobs.Calls.{
  Call, enqueues, claims, completes, fails, recovers, step,
}
use codex_keyboard_windows.Store.Jobs.Invariant.{IsUnique, IsOrdered, IsJobs}
use codex_keyboard_windows.Store.Jobs.Claims.{
  idles, exhausted, starts, taken, claim_next_runnable-Claim,
}
use codex_keyboard_windows.Store.Jobs.Outcomes.{
  refused, replayed, accepted, enqueue-Enqueue, out_of_range, ignored, ended, finish_job-Finish,
}
use codex_keyboard_windows.Store.Jobs.Queue.{
  queue, QueueStep, queue-append, queue-requeued, queue-taken, queue-ended,
}

-- The table that a call leaves, where its outcome is known.
rows_of :
    {E : Type 0} (t : Text) (outcome : List JobRow × E) (rows : List JobRow) (e : E)
    → outcome ≡ (rows, e)
    → queue t outcome.0 ≡ queue t rows
rows_of t outcome rows e same = ap (λ o. queue t o.0) same

enqueue-QueueStep :
    (x : External) (t : Text) (rows : List JobRow) (job : NewJob)
    → QueueStep (enqueues job) t (queue t rows) (queue t (enqueue x rows job).0)
unfolding queue new_row
enqueue-QueueStep x t rows job = elim (enqueue-Enqueue x rows job) [
  | refused e same ↦ inl (rows_of t (enqueue x rows job) rows (err e) same)
  | replayed same ↦ inl (rows_of t (enqueue x rows job) rows (ok replay) same)
  | accepted slot valid fresh room fits same ↦
      let row = new_row job job.generation in
      let whole : queue t (enqueue x rows job).0 ≡ queue t rows ++ queue t (row ∷ []) =
        rows_of t (enqueue x rows job) (rows ++ (row ∷ [])) (ok inserted) same
        ∙ queue-append t rows (row ∷ []) in
      elim (Bool-cases (text_eq job.task_id t)) [
        | inl here ↦
            let joins : queue t (row ∷ []) ≡ job.request_id ∷ [] = rw (queue, here) refl in
            inr
              (sym ((text_eq_iff job.task_id t).0 here), whole ∙ ap (λ q. queue t rows ++ q) joins)
        | inr other ↦
            let stays : queue t (row ∷ []) ≡ [] = rw (queue, other) refl in
            inl (whole ∙ ap (λ q. queue t rows ++ q) stays ∙ append-nil (queue t rows))
      ]
]

claim-QueueStep :
    (t : Text) (rows : List JobRow)
    → IsUnique rows
    → queue t (claim_next_runnable rows).0 ≡ queue t rows
claim-QueueStep t rows u = elim (claim_next_runnable-Claim rows u) [
  | idles why same ↦ rows_of t (claim_next_runnable rows) rows (ok none) same
  | exhausted row full same ↦
      rows_of t (claim_next_runnable rows) rows (err claim_generation_out_of_range) same
  | starts row found few same ↦
      rows_of t (claim_next_runnable rows) (found.before ++ (taken row ∷ found.after))
        (ok (some (map_job (taken row)))) same
      ∙ queue-taken t found.before row found.after found.waits
      ∙ ap (queue t) (sym found.split)
]

finish-QueueStep :
    (ending : JobRow → JobRow) (t : Text) (rows : List JobRow) (request_id : Text) (generation : ℕ)
    → ((r : JobRow) → is_pending (ending r).job_state ≡ false)
    → IsJobs rows
    → let q' = queue t (finish_job ending rows request_id generation).0 in
      (q' ≡ queue t rows) ⊎ (queue t rows ≡ request_id ∷ q')
finish-QueueStep ending t rows id generation over jobs =
    let outcome = finish_job ending rows id generation in
    elim (finish_job-Finish ending rows id generation jobs.unique) [
      | out_of_range large same ↦ inl (rows_of t outcome rows (err generation_out_of_range) same)
      | ignored missing same ↦ inl (rows_of t outcome rows (ok false) same)
      | ended before row after split hit same ↦
          let runs : is_running row.job_state ≡ true = ground (arith, hit) in
          let is_it : text_eq row.request_id id ≡ true = ground (arith, hit) in
          let name : row.request_id ≡ id = (text_eq_iff row.request_id id).0 is_it in
          let new = rows_of t outcome (before ++ (ending row ∷ after)) (ok true) same in
          elim (queue-ended t before row (ending row) after runs (over row)
            (subst IsOrdered split jobs.ordered)) [
              | inl same_queue ↦ inl (new ∙ same_queue ∙ ap (queue t) (sym split))
              | inr leaves ↦ inr (
                  ap (queue t) split
                  ∙ leaves
                  ∙ ap (λ k. k ∷ queue t (before ++ (ending row ∷ after))) name
                  ∙ ap (◌∷◌ id) (sym new))
            ]
    ]

recover-QueueStep :
    (t : Text) (rows : List JobRow) → queue t (recover_interrupted_jobs rows).0 ≡ queue t rows
unfolding recover_interrupted_jobs
recover-QueueStep t rows =
    elim (Bool-cases (
      exists_where (λ row. is_running row.job_state && leb (2 ^ 32 - 1) row.recovery_count) rows)) [
        | inl full ↦ rw (recover_interrupted_jobs, full) refl
        | inr fits ↦ rw (recover_interrupted_jobs, fits) (queue-requeued t rows)
      ]

-- For a table in order, each call acts on the queue of every task (the ids of its jobs that wait
-- or run, the oldest first) as on a queue: an enqueue leaves it or adds the new id at the end of
-- the queue of its own task, an acknowledgement leaves it or takes the acknowledged id from the
-- front, and a claim and a restart leave it.
pub step-QueueStep :
    (x : External) (rows : List JobRow) (call : Call) (task_id : Text)
    → IsJobs rows
    → QueueStep call task_id (queue task_id rows) (queue task_id (step x rows call))
unfolding step mark_completed mark_failed completed_row failed_row
step-QueueStep x rows (enqueues job) t jobs = enqueue-QueueStep x t rows job
step-QueueStep x rows claims t jobs = claim-QueueStep t rows jobs.unique
step-QueueStep x rows (completes id generation) t jobs =
    finish-QueueStep completed_row t rows id generation (λ r. refl) jobs
step-QueueStep x rows (fails id generation failure) t jobs =
    finish-QueueStep (failed_row failure) t rows id generation (λ r. refl) jobs
step-QueueStep x rows recovers t jobs = recover-QueueStep t rows
