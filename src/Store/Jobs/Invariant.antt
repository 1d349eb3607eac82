-- ===== src/Store/Jobs/Invariant.antt =====
-- The invariant of the table `jobs` of app/host/src/store.rs between two calls: the unique indexes of the
-- schema, the order of the tasks, and the two limits.
use codex_keyboard_windows.Base.{
  ◌≤◌, ◌≡◌, refl, sym, ap, subst, Bool, true, false, ◌||◌, ◌&&◌, List, [], ◌∷◌, arith, Bool-cases,
  inl, inr,
}
use codex_keyboard_windows.Store.{Text, text_eq, text_eq_iff}
use codex_keyboard_windows.Store.Tables.{
  Touched, untouched, touched, exists_where, count_where, update_where, exists_where_imp,
  exists_where-update_where_le, exists_where-update_where_same,
}
use codex_keyboard_windows.Store.Jobs.{
  JobRow, JobState, queued, running, completed, failed, is_pending, is_queued, is_running,
  has_request, pending_in, running_in, is_running_row,
}

-- `request_id TEXT NOT NULL UNIQUE`.
abbrev pub IsUnique : List JobRow → Type 0
IsUnique [] = Unit {0}
IsUnique (row ∷ rest) = (exists_where (has_request row.request_id) rest ≡ false) × IsUnique rest

-- Behind a job that waits or runs, no job of its task runs.
abbrev pub IsOrdered : List JobRow → Type 0
IsOrdered [] = Unit {0}
IsOrdered (row ∷ rest) =
    ((is_pending row.job_state && exists_where (running_in row.task_id) rest) ≡ false)
    × IsOrdered rest

pub record IsJobs (rows : List JobRow) : Type 0 where
  pub unique : IsUnique rows
  pub ordered : IsOrdered rows
  pub few_running : count_where is_running_row rows ≤ 4
  pub few_pending : (task_id : Text) → count_where (pending_in task_id) rows ≤ 12

pub running_is_pending : (s : JobState) → is_running s ≡ true → is_pending s ≡ true
running_is_pending queued runs = refl
running_is_pending running runs = refl
running_is_pending completed runs = absurd (ground (arith, runs))
running_is_pending failed runs = absurd (ground (arith, runs))

pub pending_either : (s : JobState) → is_pending s ≡ (is_queued s || is_running s)
pending_either queued = refl
pending_either running = refl
pending_either completed = refl
pending_either failed = refl

-- A condition on one request id touches at most one row.
pub Touched-of_request :
    (request_id : Text) (p : JobRow → Bool) (rows : List JobRow)
    → ((r : JobRow) → p r ≡ true → text_eq r.request_id request_id ≡ true)
    → IsUnique rows
    → Touched p rows
unfolding exists_where
Touched-of_request id p [] key u = untouched refl
Touched-of_request id p (r ∷ rest) key u = elim (Bool-cases (p r)) [
  | inl hit ↦
      let same : r.request_id ≡ id = (text_eq_iff r.request_id id).0 (key r hit) in
      touched [] r rest refl hit refl (
        exists_where_imp p (has_request r.request_id) rest
          (λ x q. subst (λ k. text_eq x.request_id k ≡ true) (sym same) (key x q)) u.0)
  | inr miss ↦ elim (Touched-of_request id p rest key u.1) [
    | untouched none_of_them ↦ untouched (ground (arith, miss, none_of_them))
    | touched before row after split hit front back ↦
        touched (r ∷ before) row after (ap (◌∷◌ r) split) hit (ground (arith, miss, front)) back
  ]
]

module _ (p : JobRow → Bool) (f : JobRow → JobRow)
    (same_id : (r : JobRow) → (f r).request_id ≡ r.request_id) where
  pub update_where-IsUnique :
      (rows : List JobRow) → IsUnique rows → IsUnique (update_where p f rows)
  unfolding update_where
  update_where-IsUnique [] u = tt
  update_where-IsUnique (r ∷ rest) u =
      let kept =
        exists_where-update_where_same (has_request r.request_id) p f rest
          (λ x. ap (λ k. text_eq k r.request_id) (same_id x)) in
      let rest' = update_where-IsUnique rest u.1 in
      elim (Bool-cases (p r)) [
        | inl hit ↦ rw hit (rw (same_id r, kept) u.0, rest')
        | inr miss ↦ rw miss (rw kept u.0, rest')
      ]

  -- An update that makes no row of a task pending or running.
  pub update_where-IsOrdered :
      (rows : List JobRow)
      → ((r : JobRow) → (f r).task_id ≡ r.task_id)
      → ((r : JobRow)
          → p r ≡ true
          → is_pending (f r).job_state ≡ true
          → is_pending r.job_state ≡ true)
      → ((r : JobRow)
          → p r ≡ true
          → is_running (f r).job_state ≡ true
          → is_running r.job_state ≡ true)
      → IsOrdered rows
      → IsOrdered (update_where p f rows)
  unfolding update_where
  update_where-IsOrdered [] same_task pending_le running_le o = tt
  update_where-IsOrdered (r ∷ rest) same_task pending_le running_le o =
      let rest' = update_where-IsOrdered rest same_task pending_le running_le o.1 in
      let below : (x : JobRow)
          → p x ≡ true
          → running_in r.task_id (f x) ≡ true
          → running_in r.task_id x ≡ true =
        λ x hit now.
          ground (arith, ap (λ k. text_eq k r.task_id) (same_task x), running_le x hit, now) in
      let kept : exists_where (running_in r.task_id) rest ≡ false
          → exists_where (running_in r.task_id) (update_where p f rest) ≡ false =
        exists_where-update_where_le (running_in r.task_id) p f rest below in
      let moved : exists_where (running_in (f r).task_id) (update_where p f rest)
          ≡ exists_where (running_in r.task_id) (update_where p f rest) =
        ap (λ k. exists_where (running_in k) (update_where p f rest)) (same_task r) in
      elim (Bool-cases (p r)) [
        | inl hit ↦ rw hit (ground (arith, moved, pending_le r hit, kept, o.0), rest')
        | inr miss ↦ rw miss (ground (arith, kept, o.0), rest')
      ]
