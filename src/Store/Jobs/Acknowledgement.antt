-- ===== src/Store/Jobs/Acknowledgement.antt =====
-- A claim and the acknowledgement that answers it.
use codex_keyboard_windows.Base.{
  ℕ, ◌+◌, ◌^◌, ◌<◌, ◌≤◌, ◌≡◌, ◌∙◌, refl, sym, ap, subst, true, false, none, some, List, [], ◌∷◌,
  ◌++◌, arith, ltb, ◌==◌, ok, err, Bool-cases, inl, inr,
}
use codex_keyboard_windows.Store.{
  Text, text_eq_refl, claim_generation_out_of_range, to_i64, i64_bound,
}
use codex_keyboard_windows.Store.Tables.{
  exists_where, count_where, exists_where-append, exists_where_imp, count_where_one,
  count_where_none,
}
use codex_keyboard_windows.Store.Jobs.{
  JobRow, Job, JobFailureKind, is_queued, is_running, has_request, pending_in, running_in,
  queued_in, is_running_row, claim_next_runnable, claimed_as, completed_row, failed_row, finish_job,
  mark_completed, mark_failed, start_row, map_job,
}
use codex_keyboard_windows.Store.Jobs.Invariant.{IsUnique, pending_either}
use codex_keyboard_windows.Store.Jobs.Split.{front_unique, back_unique, pending_front}
use codex_keyboard_windows.Store.Jobs.Claims.{
  IsCandidate, idles, exhausted, starts, taken, claim_next_runnable-Claim,
}
use codex_keyboard_windows.Store.Jobs.Queue.{queue, queue-append, queue_none}

-- A claim that returned a job.
record Claimed (rows after : List JobRow) (job : Job) : Type 0 where
  row : JobRow
  found : IsCandidate rows [] rows row
  few : count_where is_running_row rows ≤ 3
  left : after ≡ found.before ++ (taken row ∷ found.after)
  returned : job ≡ map_job (taken row)

claimed :
    (rows after : List JobRow) (job : Job)
    → IsUnique rows
    → claim_next_runnable rows ≡ (after, ok (some job))
    → Claimed rows after job
claimed rows after job u claim = elim (claim_next_runnable-Claim rows u) [
  | idles why same ↦
      let clash : ok none ≡ ok (some job) = ap (λ o. o.1) (sym same ∙ claim) in
      absurd (ground (arith, clash))
  | exhausted row full same ↦
      let clash : err claim_generation_out_of_range ≡ ok (some job) =
        ap (λ o. o.1) (sym same ∙ claim) in
      absurd (ground (arith, clash))
  | starts row found few same ↦
      let e : ok (some (map_job (taken row))) ≡ ok (some job) = ap (λ o. o.1) (sym same ∙ claim) in
      let back : map_job (taken row) ≡ job = ground (arith, e) in
      record {
        row = row;
        found = found;
        few = few;
        left = ap (λ o. o.0) (sym claim ∙ same);
        returned = sym back;
      }
]

-- The front of the queue of the row that starts.
queue_front :
    (row : JobRow) (before after : List JobRow)
    → is_queued row.job_state ≡ true
    → exists_where (running_in row.task_id) (before ++ (row ∷ after)) ≡ false
    → exists_where (queued_in row.task_id) before ≡ false
    → queue row.task_id (before ++ (row ∷ after)) ≡ row.request_id ∷ queue row.task_id after
unfolding queue exists_where
queue_front row before after waits idle first =
    let t : Text = row.task_id in
    let parts = exists_where-append (running_in row.task_id) before (row ∷ after) in
    let nothing =
      queue_none t before (pending_front row.task_id before first (ground (arith, parts, idle))) in
    let hit : pending_in t row ≡ true =
      ground (arith, text_eq_refl row.task_id, waits, pending_either row.job_state) in
    queue-append t before (row ∷ after)
    ∙ ap (λ q. q ++ queue t (row ∷ after)) nothing
    ∙ rw (queue, hit) refl

-- Where the request ids are distinct, a job that a claim returns is at the front of the queue of
-- its task, and no job of that task was running.
pub claim_next_runnable-queue :
    (rows after : List JobRow) (job : Job)
    → IsUnique rows
    → claim_next_runnable rows ≡ (after, ok (some job))
    → (exists_where (running_in job.task_id) rows ≡ false)
      × ((rest : List Text) × (queue job.task_id rows ≡ job.request_id ∷ rest))
unfolding map_job start_row
claim_next_runnable-queue rows after job u claim =
    let c = claimed rows after job u claim in
    let row : JobRow = c.row in
    let f : IsCandidate rows [] rows row = c.found in
    let idle' = ap (exists_where (running_in row.task_id)) (sym f.split) ∙ f.idle in
    let front =
      ap (queue row.task_id) f.split ∙ queue_front row f.before f.after f.waits idle' f.first in
    subst
      (λ j.
        (exists_where (running_in j.task_id) rows ≡ false)
        × ((rest : List Text) × (queue j.task_id rows ≡ j.request_id ∷ rest)))
      (sym c.returned) (f.idle, (queue row.task_id f.after, front))

module _ (row : JobRow) (before after : List JobRow) (runs : is_running row.job_state ≡ true)
    (front : exists_where (has_request row.request_id) before ≡ false)
    (back : exists_where (has_request row.request_id) after ≡ false) where
  ending_count :
      (generation : ℕ)
      → (count_where (claimed_as row.request_id generation) (before ++ (row ∷ after)) == 1)
        ≡ (row.claim_generation == generation)
  unfolding exists_where
  ending_count generation =
      let p = claimed_as row.request_id generation in
      let only : (r : JobRow) → p r ≡ true → has_request row.request_id r ≡ true =
        λ r h. ground (arith, h) in
      let front' = exists_where_imp p (has_request row.request_id) before only front in
      let back' = exists_where_imp p (has_request row.request_id) after only back in
      elim (Bool-cases (row.claim_generation == generation)) [
        | inl same ↦
            let hit : p row ≡ true = ground (arith, text_eq_refl row.request_id, runs, same) in
            let one = count_where_one p (λ r. r) before row after hit front' back' in
            ground (arith, one, same)
        | inr stale ↦
            let missing : exists_where p (before ++ (row ∷ after)) ≡ false =
              ground (arith, exists_where-append p before (row ∷ after), front', back', stale) in
            let zero = count_where_none p (before ++ (row ∷ after)) missing in
            ground (arith, zero, stale)
      ]

  ending_claim :
      (ending : JobRow → JobRow) (generation : ℕ)
      → generation < 2 ^ 63
      → (finish_job ending (before ++ (row ∷ after)) row.request_id generation).1
        ≡ ok (row.claim_generation == generation)
  unfolding finish_job to_i64
  ending_claim ending generation fits =
      let in_range : ltb generation i64_bound ≡ true = ground (arith, fits) in
      rw (finish_job, in_range) (ap ok (ending_count generation))

claim_next_runnable-finish_job :
    (rows after : List JobRow) (job : Job) (ending : JobRow → JobRow) (generation : ℕ)
    → IsUnique rows
    → claim_next_runnable rows ≡ (after, ok (some job))
    → generation < 2 ^ 63
    → (finish_job ending after job.request_id generation).1
      ≡ ok (job.claim_generation == generation)
unfolding map_job start_row
claim_next_runnable-finish_job rows after job ending generation u claim fits =
    let c = claimed rows after job u claim in
    let row : JobRow = c.row in
    let f : IsCandidate rows [] rows row = c.found in
    let u' = subst IsUnique f.split u in
    let ends =
      ending_claim (taken row) f.before f.after refl (front_unique row f.after f.before u')
        (back_unique row f.after f.before u') ending generation fits in
    subst
      (λ j.
        (finish_job ending after j.request_id generation).1 ≡ ok (j.claim_generation == generation))
      (sym c.returned)
      (subst
        (λ t.
          (finish_job ending t row.request_id generation).1
          ≡ ok (row.claim_generation + 1 == generation))
        (sym c.left) ends)

-- After a claim on a table with distinct request ids has returned a job, its acknowledgement as
-- completed or failed with a claim generation below 2^63 succeeds exactly if that is the
-- generation of the claim: the worker of an earlier claim cannot end the job.
pub claim_next_runnable-acknowledged :
    (rows after : List JobRow) (job : Job) (generation : ℕ) (failure : JobFailureKind)
    → IsUnique rows
    → claim_next_runnable rows ≡ (after, ok (some job))
    → generation < 2 ^ 63
    → ((mark_completed after job.request_id generation).1 ≡ ok (job.claim_generation == generation))
      × ((mark_failed after job.request_id generation failure).1
          ≡ ok (job.claim_generation == generation))
unfolding mark_completed mark_failed
claim_next_runnable-acknowledged rows after job generation failure u claim fits = (
  claim_next_runnable-finish_job rows after job completed_row generation u claim fits,
  claim_next_runnable-finish_job rows after job (failed_row failure) generation u claim fits,
)
