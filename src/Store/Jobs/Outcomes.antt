-- ===== src/Store/Jobs/Outcomes.antt =====
-- Each outcome of `Store::enqueue`, `Store::mark_completed` and `Store::mark_failed`.
use codex_keyboard_windows.Base.{
  ℕ, ◌^◌, ◌<◌, ◌≤◌, ◌≡◌, ◌∙◌, refl, sym, ap, subst, Bool, true, false, ◌&&◌, some, List, [], ◌∷◌,
  ◌++◌, arith, leb, ltb, ◌==◌, Result, ok, err, Bool-cases, Option-cases, Result-cases, inl, inr,
}
use codex_keyboard_windows.Store.{
  Text, text_eq, text_eq_refl, StoreError, External, to_i64, validate_slot, i64_bound,
  generation_out_of_range, task_queue_full, request_id_conflict,
}
use codex_keyboard_windows.Store.Tables.{
  exists_where, count_where, first_where, first_where-exists_where, first_where_one, untouched,
  touched, update_where_one, count_where_one, update_where_none, count_where_none,
}
use codex_keyboard_windows.Store.Jobs.{
  NewJob, JobRow, has_request, pending_in, pending_count, exact_replay, new_row, insert_job,
  enqueue, validate_job, replay_job, EnqueueOutcome, replay, inserted, claimed_as, finish_job,
}
use codex_keyboard_windows.Store.Jobs.Invariant.{IsUnique, Touched-of_request}

-- What `Store::enqueue` does: it refuses, finds the same job in the table, or appends a row.
pub data Enqueue (x : External) (rows : List JobRow) (job : NewJob)
    (outcome : List JobRow × Result StoreError EnqueueOutcome) : Type 0 where
  refused : (e : StoreError) → outcome ≡ (rows, err e) → Enqueue x rows job outcome
  replayed : outcome ≡ (rows, ok replay) → Enqueue x rows job outcome
  accepted :
      validate_slot job.slot ≡ ok tt
      → validate_job x job ≡ ok tt
      → exists_where (has_request job.request_id) rows ≡ false
      → count_where (pending_in job.task_id) rows ≤ 11
      → job.generation < 2 ^ 63
      → outcome ≡ (rows ++ (new_row job job.generation ∷ []), ok inserted)
      → Enqueue x rows job outcome

insert_job-Enqueue :
    (x : External) (rows : List JobRow) (job : NewJob)
    → validate_slot job.slot ≡ ok tt
    → validate_job x job ≡ ok tt
    → exists_where (has_request job.request_id) rows ≡ false
    → Enqueue x rows job (insert_job rows job)
unfolding insert_job pending_count to_i64
insert_job-Enqueue x rows job slot valid fresh =
    elim (Bool-cases (leb 12 (pending_count rows job.task_id))) [
      | inl full ↦ refused task_queue_full (rw full refl)
      | inr room ↦ elim (Bool-cases (ltb job.generation i64_bound)) [
        | inl fits ↦
            accepted slot valid fresh (ground (arith, room)) (ground (arith, fits))
              (rw (room, fits) refl)
        | inr large ↦ refused generation_out_of_range (rw (room, large) refl)
      ]
    ]

replay_job-Enqueue :
    (x : External) (rows : List JobRow) (job : NewJob) (row : JobRow)
    → Enqueue x rows job (rows, replay_job row job)
unfolding replay_job to_i64
replay_job-Enqueue x rows job row =
    elim (Bool-cases (text_eq row.task_id job.task_id && (row.slot == job.slot))) [
      | inr other ↦ refused request_id_conflict (rw (replay_job, other) refl)
      | inl same ↦ elim (Bool-cases (ltb job.generation i64_bound)) [
        | inr large ↦ refused generation_out_of_range (rw (replay_job, same, large) refl)
        | inl fits ↦ elim (Bool-cases (exact_replay row job job.generation)) [
          | inl exact ↦ replayed (rw (replay_job, same, fits, exact) refl)
          | inr differs ↦ refused request_id_conflict (rw (replay_job, same, fits, differs) refl)
        ]
      ]
    ]

pub enqueue-Enqueue :
    (x : External) (rows : List JobRow) (job : NewJob) → Enqueue x rows job (enqueue x rows job)
unfolding enqueue
enqueue-Enqueue x rows job = elim (Result-cases (validate_slot job.slot)) [
  | inr bad ↦ refused bad.0 (rw (enqueue, bad.1) refl)
  | inl slot ↦ elim (Result-cases (validate_job x job)) [
    | inr bad ↦ refused bad.0 (rw (enqueue, slot.1, bad.1) refl)
    | inl good ↦ elim (Option-cases (first_where (has_request job.request_id) rows)) [
      | inr found ↦ rw (enqueue, slot.1, good.1, found.1) (replay_job-Enqueue x rows job found.0)
      | inl missing ↦
          rw (enqueue, slot.1, good.1, missing)
            (insert_job-Enqueue x rows job slot.1 good.1
              (first_where-exists_where (has_request job.request_id) rows missing))
    ]
  ]
]

-- A job whose row is in the table as it was inserted.
enqueue_again :
    (x : External) (rows : List JobRow) (job : NewJob) (row : JobRow)
    → validate_slot job.slot ≡ ok tt
    → validate_job x job ≡ ok tt
    → job.generation < 2 ^ 63
    → first_where (has_request job.request_id) rows ≡ some row
    → exact_replay row job job.generation ≡ true
    → enqueue x rows job ≡ (rows, ok replay)
unfolding enqueue exact_replay to_i64
enqueue_again x rows job row slot valid fits found exact =
    let in_range : ltb job.generation i64_bound ≡ true = ground (arith, fits) in
    let same : (text_eq row.task_id job.task_id && (row.slot == job.slot)) ≡ true =
      ground (arith, exact) in
    rw (enqueue, slot, valid, found, replay_job, same, in_range, exact) refl

new_row-exact_replay :
    (job : NewJob) → exact_replay (new_row job job.generation) job job.generation ≡ true
unfolding exact_replay new_row
new_row-exact_replay job =
    ground (arith, text_eq_refl job.task_id, text_eq_refl job.prompt, text_eq_refl job.cwd)

-- When an enqueue inserts a job, the same enqueue on the table that it leaves is a replay, and
-- changes nothing.
pub enqueue-twice :
    (x : External) (rows after : List JobRow) (job : NewJob)
    → enqueue x rows job ≡ (after, ok inserted)
    → enqueue x after job ≡ (after, ok replay)
unfolding new_row
enqueue-twice x rows after job first = elim (enqueue-Enqueue x rows job) [
  | refused e same ↦
      let clash : ok inserted ≡ err e = ap (λ o. o.1) (sym first ∙ same) in
      absurd (ground (arith, clash))
  | replayed same ↦
      let clash : ok inserted ≡ ok replay = ap (λ o. o.1) (sym first ∙ same) in
      absurd (ground (arith, clash))
  | accepted slot valid fresh room fits same ↦
      let rows' : List JobRow = rows ++ (new_row job job.generation ∷ []) in
      let e : rows' ≡ after = ap (λ o. o.0) (sym same ∙ first) in
      let found : first_where (has_request job.request_id) rows'
          ≡ some (new_row job job.generation) =
        first_where_one (has_request job.request_id) rows (new_row job job.generation) []
          (text_eq_refl job.request_id) fresh in
      subst (λ t. enqueue x t job ≡ (t, ok replay)) e
        (enqueue_again x rows' job (new_row job job.generation) slot valid fits found
          (new_row-exact_replay job))
]

-- What an acknowledgement does: it is out of range, matches no running claim, or ends that claim.
pub data Finish (ending : JobRow → JobRow) (rows : List JobRow) (request_id : Text) (generation : ℕ)
    (outcome : List JobRow × Result StoreError Bool) : Type 0 where
  out_of_range :
      2 ^ 63 ≤ generation
      → outcome ≡ (rows, err generation_out_of_range)
      → Finish ending rows request_id generation outcome
  ignored :
      exists_where (claimed_as request_id generation) rows ≡ false
      → outcome ≡ (rows, ok false)
      → Finish ending rows request_id generation outcome
  ended :
      (before : List JobRow) (row : JobRow) (after : List JobRow)
      → rows ≡ before ++ (row ∷ after)
      → claimed_as request_id generation row ≡ true
      → outcome ≡ (before ++ (ending row ∷ after), ok true)
      → Finish ending rows request_id generation outcome

pub finish_job-Finish :
    (ending : JobRow → JobRow) (rows : List JobRow) (request_id : Text) (generation : ℕ)
    → IsUnique rows
    → Finish ending rows request_id generation (finish_job ending rows request_id generation)
unfolding finish_job to_i64
finish_job-Finish ending rows id generation u = elim (Bool-cases (ltb generation i64_bound)) [
  | inr large ↦ out_of_range (ground (arith, large)) (rw (finish_job, large) refl)
  | inl fits ↦
      let p = claimed_as id generation in
      elim (Touched-of_request id p rows (λ r h. ground (arith, h)) u) [
        | untouched missing ↦ ignored missing (
            rw
              (
                finish_job,
                fits,
                update_where_none p ending rows missing,
                count_where_none p rows missing,
              )
              refl)
        | touched before row after split hit front back ↦
            let one = update_where_one p ending before row after hit front back in
            let counted = count_where_one p ending before row after hit front back in
            let moved : finish_job ending (before ++ (row ∷ after)) id generation
                ≡ (before ++ (ending row ∷ after), ok true) =
              rw (finish_job, fits, one, counted) refl in
            ended before row after split hit
              (ap (λ t. finish_job ending t id generation) split ∙ moved)
      ]
]
