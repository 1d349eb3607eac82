-- ===== src/Store/Jobs/Queue.antt =====
-- The table `jobs` as what it stands for: for each task, a queue of request ids.
use codex_keyboard_windows.Base.{
  ◌≡◌, ◌⊎◌, ◌∙◌, refl, sym, ap, true, false, List, [], ◌∷◌, ◌++◌, arith, Bool-cases, inl, inr,
  if◌then◌else◌,
}
use codex_keyboard_windows.Store.{Text, text_eq, text_eq_iff}
use codex_keyboard_windows.Store.Tables.{exists_where, update_where}
use codex_keyboard_windows.Store.Jobs.{
  JobRow, is_pending, is_queued, is_running, pending_in, is_running_row, requeued_row, start_row,
}
use codex_keyboard_windows.Store.Jobs.Calls.{Call, enqueues, claims, completes, fails, recovers}
use codex_keyboard_windows.Store.Jobs.Invariant.{IsOrdered, running_is_pending, pending_either}
use codex_keyboard_windows.Store.Jobs.Split.{front_ordered}
use codex_keyboard_windows.Store.Jobs.Claims.{taken}

-- The jobs of a task that wait or run, the oldest first.
unfoldable pub queue : Text → List JobRow → List Text
queue task_id [] = []
queue task_id (row ∷ rows) =
    let rest = queue task_id rows in if pending_in task_id row then row.request_id ∷ rest else rest

-- What a call may do to the queue of a task: a new job joins at the end, an acknowledged job leaves at
-- the front, and a claim or a restart changes nothing.
abbrev pub QueueStep : Call → Text → List Text → List Text → Type 0
QueueStep (enqueues job) task_id before after =
    (after ≡ before) ⊎ ((task_id ≡ job.task_id) × (after ≡ before ++ (job.request_id ∷ [])))
QueueStep claims task_id before after = after ≡ before
QueueStep (completes request_id generation) task_id before after =
    (after ≡ before) ⊎ (before ≡ request_id ∷ after)
QueueStep (fails request_id generation failure) task_id before after =
    (after ≡ before) ⊎ (before ≡ request_id ∷ after)
QueueStep recovers task_id before after = after ≡ before

pub queue-append : (t : Text) (xs ys : List JobRow) → queue t (xs ++ ys) ≡ queue t xs ++ queue t ys
unfolding queue
queue-append t [] ys = refl
queue-append t (r ∷ rs) ys = elim (Bool-cases (pending_in t r)) [
  | inl hit ↦ rw (queue, hit) (ap (◌∷◌ r.request_id) (queue-append t rs ys))
  | inr miss ↦ rw (queue, miss) (queue-append t rs ys)
]

pub queue_none :
    (t : Text) (rows : List JobRow) → exists_where (pending_in t) rows ≡ false → queue t rows ≡ []
unfolding queue exists_where
queue_none t [] h = refl
queue_none t (r ∷ rs) h =
    let miss : pending_in t r ≡ false = ground (arith, h) in
    rw (queue, miss) (queue_none t rs (ground (arith, h)))

-- A row that stays what it was for the queue.
queue_cons :
    (t : Text) (r s : JobRow) (xs ys : List JobRow)
    → s.request_id ≡ r.request_id
    → pending_in t s ≡ pending_in t r
    → queue t ys ≡ queue t xs
    → queue t (s ∷ ys) ≡ queue t (r ∷ xs)
unfolding queue
queue_cons t r s xs ys same_id same rest = elim (Bool-cases (pending_in t r)) [
  | inl hit ↦
      let hit' : pending_in t s ≡ true = same ∙ hit in rw (queue, hit, hit', same_id, rest) refl
  | inr miss ↦
      let miss' : pending_in t s ≡ false = same ∙ miss in rw (queue, miss, miss', rest) refl
]

pub queue-requeued :
    (t : Text) (rows : List JobRow)
    → queue t (update_where is_running_row requeued_row rows) ≡ queue t rows
unfolding update_where requeued_row
queue-requeued t [] = refl
queue-requeued t (r ∷ rs) = elim (Bool-cases (is_running r.job_state)) [
  | inl hit ↦
      let same : pending_in t (requeued_row r) ≡ pending_in t r =
        ground (arith, running_is_pending r.job_state hit) in
      rw hit (
        queue_cons t r (requeued_row r) rs (update_where is_running_row requeued_row rs) refl same
          (queue-requeued t rs))
  | inr miss ↦ rw miss (
      queue_cons t r r rs (update_where is_running_row requeued_row rs) refl refl
        (queue-requeued t rs))
]

pub queue-taken :
    (t : Text) (before : List JobRow) (row : JobRow) (after : List JobRow)
    → is_queued row.job_state ≡ true
    → queue t (before ++ (taken row ∷ after)) ≡ queue t (before ++ (row ∷ after))
unfolding start_row
queue-taken t before row after waits =
    let same : pending_in t (taken row) ≡ pending_in t row =
      ground (arith, waits, pending_either row.job_state) in
    let tail = queue_cons t row (taken row) after after refl same refl in
    queue-append t before (taken row ∷ after)
    ∙ ap (λ q. queue t before ++ q) tail
    ∙ sym (queue-append t before (row ∷ after))

-- An acknowledged job leaves at the front.
pub queue-ended :
    (t : Text) (before : List JobRow) (row ended_row : JobRow) (after : List JobRow)
    → is_running row.job_state ≡ true
    → is_pending ended_row.job_state ≡ false
    → IsOrdered (before ++ (row ∷ after))
    → let q = queue t (before ++ (row ∷ after)) in
      let q' = queue t (before ++ (ended_row ∷ after)) in (q' ≡ q) ⊎ (q ≡ row.request_id ∷ q')
unfolding queue
queue-ended t before row ended_row after runs over o =
    let front = front_ordered row after before runs o in
    let gone : pending_in t ended_row ≡ false = ground (arith, over) in
    let old = queue-append t before (row ∷ after) in
    let new : queue t (before ++ (ended_row ∷ after)) ≡ queue t before ++ queue t after =
      queue-append t before (ended_row ∷ after)
      ∙ ap (λ q. queue t before ++ q) (rw (queue, gone) refl) in
    elim (Bool-cases (text_eq row.task_id t)) [
      | inl same ↦
          let here : exists_where (pending_in t) before ≡ false =
            ap (λ k. exists_where (pending_in k) before) (sym ((text_eq_iff row.task_id t).0 same))
            ∙ front in
          let nothing = queue_none t before here in
          let hit : pending_in t row ≡ true =
            ground (arith, same, running_is_pending row.job_state runs) in
          let short : queue t (before ++ (ended_row ∷ after)) ≡ queue t after =
            new ∙ ap (λ q. q ++ queue t after) nothing in
          let whole : queue t (before ++ (row ∷ after)) ≡ row.request_id ∷ queue t after =
            old ∙ ap (λ q. q ++ queue t (row ∷ after)) nothing ∙ rw (queue, hit) refl in
          inr (whole ∙ ap (◌∷◌ row.request_id) (sym short))
      | inr other ↦
          let miss : pending_in t row ≡ false = ground (arith, other) in
          let tail : queue t (row ∷ after) ≡ queue t after = rw (queue, miss) refl in
          inl (new ∙ ap (λ q. queue t before ++ q) (sym tail) ∙ sym old)
    ]
