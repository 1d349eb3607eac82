-- ===== src/Store/Jobs/Kept.antt =====
-- The operations on the table `jobs` of app/host/src/store.rs and its invariant.
use codex_keyboard_windows.Base.{
  ℕ, ◌+◌, ◌-◌, ◌^◌, ◌≤◌, ◌≡◌, ◌∙◌, refl, sym, ap, subst, Bool, true, false, ◌&&◌, none, some, List,
  [], ◌∷◌, ◌++◌, arith, leb, ltb, ok, err, Bool-cases, inl, inr,
}
use codex_keyboard_windows.Store.{
  Text, text_eq, text_eq_iff, External, to_i64, i64_bound, claim_generation_out_of_range,
}
use codex_keyboard_windows.Store.Tables.{
  exists_where, count_where, update_where, exists_where-append, count_where-append,
  count_where-update_where_le, update_where_clears,
}
use codex_keyboard_windows.Store.Jobs.{
  NewJob, JobRow, JobFailureKind, is_pending, is_queued, is_running, has_request, pending_in,
  running_in, queued_in, is_running_row, new_row, enqueue, replay, inserted, claimable,
  claim_next_runnable, claimed_as, completed_row, failed_row, finish_job, mark_completed,
  mark_failed, requeued_row, recover_interrupted_jobs, start_row, map_job,
}
use codex_keyboard_windows.Store.Jobs.Calls.{
  Call, enqueues, claims, completes, fails, recovers, step, run,
}
use codex_keyboard_windows.Store.Jobs.Invariant.{
  IsUnique, IsOrdered, IsJobs, running_is_pending, pending_either, update_where-IsUnique,
  update_where-IsOrdered,
}
use codex_keyboard_windows.Store.Jobs.Split.{
  pending_front, start-IsOrdered, idle-IsOrdered, append-IsUnique, append-IsOrdered,
}
use codex_keyboard_windows.Store.Jobs.Outcomes.{refused, replayed, accepted, enqueue-Enqueue}
use codex_keyboard_windows.Store.Jobs.Claims.{
  idles, exhausted, starts, taken, claimable_started, claim_next_runnable-Claim,
}

module _ (p : JobRow → Bool) (f : JobRow → JobRow) (rows : List JobRow)
    (same_id : (r : JobRow) → (f r).request_id ≡ r.request_id)
    (same_task : (r : JobRow) → (f r).task_id ≡ r.task_id)
    (running_le : (r : JobRow)
      → p r ≡ true
      → is_running (f r).job_state ≡ true
      → is_running r.job_state ≡ true)
    (pending_le : (r : JobRow)
      → p r ≡ true
      → is_pending (f r).job_state ≡ true
      → is_pending r.job_state ≡ true) where
  pending_in_le :
      (t : Text) (r : JobRow) → p r ≡ true → pending_in t (f r) ≡ true → pending_in t r ≡ true
  pending_in_le t r hit now =
      ground (arith, ap (λ k. text_eq k t) (same_task r), pending_le r hit, now)

  pub update_where-IsJobs :
      IsOrdered (update_where p f rows) → IsJobs rows → IsJobs (update_where p f rows)
  update_where-IsJobs o jobs = record {
    unique = update_where-IsUnique p f same_id rows jobs.unique;
    ordered = o;
    few_running =
        omega
          (arith, count_where-update_where_le is_running_row p f rows running_le, jobs.few_running);
    few_pending = λ t. omega (
      arith,
      count_where-update_where_le (pending_in t) p f rows (pending_in_le t),
      jobs.few_pending t,
    );
  }

-- A row that ends.
module _ (p : JobRow → Bool) (ending : JobRow → JobRow) (rows : List JobRow)
    (same_id : (r : JobRow) → (ending r).request_id ≡ r.request_id)
    (same_task : (r : JobRow) → (ending r).task_id ≡ r.task_id)
    (over : (r : JobRow) → is_pending (ending r).job_state ≡ false) where
  pub end-IsJobs : IsJobs rows → IsJobs (update_where p ending rows)
  end-IsJobs jobs =
      let pending_le : (r : JobRow)
          → p r ≡ true
          → is_pending (ending r).job_state ≡ true
          → is_pending r.job_state ≡ true =
        λ r hit now. ground (arith, over r, now) in
      let running_le : (r : JobRow)
          → p r ≡ true
          → is_running (ending r).job_state ≡ true
          → is_running r.job_state ≡ true =
        λ r hit now. ground (arith, over r, now, running_is_pending (ending r).job_state) in
      update_where-IsJobs p ending rows same_id same_task running_le pending_le
        (update_where-IsOrdered p ending same_id rows same_task pending_le running_le jobs.ordered)
        jobs

IsJobs-pair :
    {E : Type 0} (rows : List JobRow) (outcome : List JobRow × E) (e : E)
    → outcome ≡ (rows, e)
    → IsJobs rows
    → IsJobs outcome.0
IsJobs-pair rows outcome e same jobs = subst (λ o. IsJobs o.0) (sym same) jobs

finish_job-IsJobs :
    (ending : JobRow → JobRow) (rows : List JobRow) (request_id : Text) (generation : ℕ)
    → ((r : JobRow) → (ending r).request_id ≡ r.request_id)
    → ((r : JobRow) → (ending r).task_id ≡ r.task_id)
    → ((r : JobRow) → is_pending (ending r).job_state ≡ false)
    → IsJobs rows
    → IsJobs (finish_job ending rows request_id generation).0
unfolding finish_job to_i64
finish_job-IsJobs ending rows id generation same_id same_task over jobs =
    elim (Bool-cases (ltb generation i64_bound)) [
      | inr large ↦ rw (finish_job, large) jobs
      | inl fits ↦
          rw (finish_job, fits)
            (end-IsJobs (claimed_as id generation) ending rows same_id same_task over jobs)
    ]

pub mark_completed-IsJobs :
    (rows : List JobRow) (request_id : Text) (generation : ℕ)
    → IsJobs rows
    → IsJobs (mark_completed rows request_id generation).0
unfolding mark_completed completed_row
mark_completed-IsJobs rows id generation jobs =
    finish_job-IsJobs completed_row rows id generation (λ r. refl) (λ r. refl) (λ r. refl) jobs

pub mark_failed-IsJobs :
    (rows : List JobRow) (request_id : Text) (generation : ℕ) (failure : JobFailureKind)
    → IsJobs rows
    → IsJobs (mark_failed rows request_id generation failure).0
unfolding mark_failed failed_row
mark_failed-IsJobs rows id generation failure jobs =
    finish_job-IsJobs (failed_row failure) rows id generation (λ r. refl) (λ r. refl) (λ r. refl)
      jobs

pub recover_interrupted_jobs-IsJobs :
    (rows : List JobRow) → IsJobs rows → IsJobs (recover_interrupted_jobs rows).0
unfolding recover_interrupted_jobs requeued_row
recover_interrupted_jobs-IsJobs rows jobs =
    let none_left = update_where_clears is_running_row requeued_row rows (λ r. refl) in
    let recovered : IsJobs (update_where is_running_row requeued_row rows) =
      update_where-IsJobs is_running_row requeued_row rows (λ r. refl) (λ r. refl) (λ r h now. h)
        (λ r h now. running_is_pending r.job_state h)
        (idle-IsOrdered (update_where is_running_row requeued_row rows) none_left) jobs in
    elim (Bool-cases (
      exists_where (λ row. is_running row.job_state && leb (2 ^ 32 - 1) row.recovery_count) rows)) [
        | inl full ↦ rw (recover_interrupted_jobs, full) jobs
        | inr fits ↦ rw (recover_interrupted_jobs, fits) recovered
      ]

append-IsJobs :
    (rows : List JobRow) (row : JobRow)
    → is_running row.job_state ≡ false
    → exists_where (has_request row.request_id) rows ≡ false
    → count_where (pending_in row.task_id) rows ≤ 11
    → IsJobs rows
    → IsJobs (rows ++ (row ∷ []))
unfolding count_where
append-IsJobs rows row waits fresh room jobs =
    let pending_at : (t : Text) → count_where (pending_in t) (rows ++ (row ∷ [])) ≤ 12 = λ t.
      let both = count_where-append (pending_in t) rows (row ∷ []) in
      elim (Bool-cases (text_eq row.task_id t)) [
        | inl same ↦
            let here : count_where (pending_in row.task_id) rows ≡ count_where (pending_in t) rows =
              ap (λ k. count_where (pending_in k) rows) ((text_eq_iff row.task_id t).0 same) in
            ground (arith, both, here, room)
        | inr other ↦ ground (arith, both, other, jobs.few_pending t)
      ] in
    record {
      unique = append-IsUnique rows row fresh jobs.unique;
      ordered = append-IsOrdered rows row waits jobs.ordered;
      few_running =
          ground
            (arith, count_where-append is_running_row rows (row ∷ []), waits, jobs.few_running);
      few_pending = pending_at;
    }

pub enqueue-IsJobs :
    (x : External) (rows : List JobRow) (job : NewJob) → IsJobs rows → IsJobs (enqueue x rows job).0
unfolding new_row
enqueue-IsJobs x rows job jobs = elim (enqueue-Enqueue x rows job) [
  | refused e same ↦ IsJobs-pair rows (enqueue x rows job) (err e) same jobs
  | replayed same ↦ IsJobs-pair rows (enqueue x rows job) (ok replay) same jobs
  | accepted slot valid fresh room fits same ↦
      IsJobs-pair (rows ++ (new_row job job.generation ∷ [])) (enqueue x rows job) (ok inserted)
        same (append-IsJobs rows (new_row job job.generation) refl fresh room jobs)
]

started-IsJobs :
    (row : JobRow) (before after : List JobRow)
    → is_queued row.job_state ≡ true
    → exists_where (running_in row.task_id) (before ++ (row ∷ after)) ≡ false
    → exists_where (queued_in row.task_id) before ≡ false
    → count_where is_running_row (before ++ (row ∷ after)) ≤ 3
    → IsJobs (before ++ (row ∷ after))
    → IsJobs (before ++ (taken row ∷ after))
unfolding exists_where count_where start_row
started-IsJobs row before after waits idle first few jobs =
    let parts = exists_where-append (running_in row.task_id) before (row ∷ after) in
    let moved = claimable_started row before after jobs.unique waits (row.claim_generation + 1) in
    let front = pending_front row.task_id before first (ground (arith, parts, idle)) in
    let back : exists_where (running_in row.task_id) after ≡ false = ground (arith, parts, idle) in
    record {
      unique = subst IsUnique moved (
          update_where-IsUnique (claimable row.request_id) (start_row (row.claim_generation + 1))
            (λ r. refl) (before ++ (row ∷ after)) jobs.unique);
      ordered = start-IsOrdered row after (taken row) before refl front back jobs.ordered;
      few_running = ground (
        arith,
        few,
        count_where-append is_running_row before (row ∷ after),
        count_where-append is_running_row before (taken row ∷ after),
      );
      few_pending = λ t. ground (
        arith,
        jobs.few_pending t,
        waits,
        pending_either row.job_state,
        count_where-append (pending_in t) before (row ∷ after),
        count_where-append (pending_in t) before (taken row ∷ after),
      );
    }

pub claim_next_runnable-IsJobs :
    (rows : List JobRow) → IsJobs rows → IsJobs (claim_next_runnable rows).0
unfolding start_row
claim_next_runnable-IsJobs rows jobs = elim (claim_next_runnable-Claim rows jobs.unique) [
  | idles why same ↦ IsJobs-pair rows (claim_next_runnable rows) (ok none) same jobs
  | exhausted row full same ↦
      IsJobs-pair rows (claim_next_runnable rows) (err claim_generation_out_of_range) same jobs
  | starts row found few same ↦
      IsJobs-pair (found.before ++ (taken row ∷ found.after)) (claim_next_runnable rows)
        (ok (some (map_job (taken row)))) same
        (started-IsJobs row found.before found.after found.waits
          (ap (exists_where (running_in row.task_id)) (sym found.split) ∙ found.idle) found.first
          (subst (λ t. count_where is_running_row t ≤ 3) found.split few)
          (subst IsJobs found.split jobs))
]

pub step-IsJobs :
    (x : External) (rows : List JobRow) (call : Call) → IsJobs rows → IsJobs (step x rows call)
unfolding step
step-IsJobs x rows (enqueues job) jobs = enqueue-IsJobs x rows job jobs
step-IsJobs x rows claims jobs = claim_next_runnable-IsJobs rows jobs
step-IsJobs x rows (completes id generation) jobs = mark_completed-IsJobs rows id generation jobs
step-IsJobs x rows (fails id generation failure) jobs =
    mark_failed-IsJobs rows id generation failure jobs
step-IsJobs x rows recovers jobs = recover_interrupted_jobs-IsJobs rows jobs

-- Any sequence of enqueues, claims, acknowledgements and restarts keeps the table in order: the
-- request ids are distinct, no job runs behind one of the same task that waits or runs, at most 4
-- jobs run, and at most 12 of a task wait or run.
pub run-IsJobs :
    (x : External) (rows : List JobRow) (calls : List Call)
    → IsJobs rows
    → IsJobs (run x rows calls)
unfolding run
run-IsJobs x rows [] jobs = jobs
run-IsJobs x rows (call ∷ calls) jobs =
    run-IsJobs x (step x rows call) calls (step-IsJobs x rows call jobs)

-- The table of a new database.
pub empty-IsJobs : IsJobs []
unfolding count_where
empty-IsJobs = record {
  unique = tt;
  ordered = tt;
  few_running = omega arith;
  few_pending = λ t. omega arith;
}
