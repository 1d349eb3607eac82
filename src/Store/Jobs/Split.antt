-- ===== src/Store/Jobs/Split.antt =====
-- A row of the table `jobs` between the rows before it and the rows after it.
use codex_keyboard_windows.Base.{
  ◌≡◌, ◌∙◌, refl, sym, ap, true, false, ◌&&◌, List, [], ◌∷◌, ◌++◌, arith, Bool-cases, inl, inr,
}
use codex_keyboard_windows.Store.{Text, text_eq, text_eq_iff}
use codex_keyboard_windows.Store.Tables.{exists_where, exists_where_imp, exists_where-append}
use codex_keyboard_windows.Store.Jobs.{
  JobRow, is_pending, is_running, has_request, pending_in, running_in, queued_in, is_running_row,
}
use codex_keyboard_windows.Store.Jobs.Invariant.{IsUnique, IsOrdered, pending_either}

pub text_eq_comm : (a b : Text) → text_eq a b ≡ text_eq b a
text_eq_comm a b = elim (Bool-cases (text_eq a b)) [
  | inl same ↦ let e : a ≡ b = (text_eq_iff a b).0 same in same ∙ sym ((text_eq_iff b a).1 (sym e))
  | inr differ ↦ elim (Bool-cases (text_eq b a)) [
    | inl same ↦
        let e : b ≡ a = (text_eq_iff b a).0 same in
        let back : text_eq a b ≡ true = (text_eq_iff a b).1 (sym e) in ground (arith, differ, back)
    | inr differ' ↦ differ ∙ sym differ'
  ]
]

module _ (row : JobRow) (after : List JobRow) where
  pub front_unique :
      (before : List JobRow)
      → IsUnique (before ++ (row ∷ after))
      → exists_where (has_request row.request_id) before ≡ false
  unfolding exists_where
  front_unique [] u = refl
  front_unique (b ∷ bs) u = ground (
    arith,
    u.0,
    exists_where-append (has_request b.request_id) bs (row ∷ after),
    text_eq_comm b.request_id row.request_id,
    front_unique bs u.1,
  )

  pub back_unique :
      (before : List JobRow)
      → IsUnique (before ++ (row ∷ after))
      → exists_where (has_request row.request_id) after ≡ false
  back_unique [] u = u.0
  back_unique (b ∷ bs) u = back_unique bs u.1

  -- Before the running job of a task, none of its jobs waits or runs.
  pub front_ordered :
      (before : List JobRow)
      → is_running row.job_state ≡ true
      → IsOrdered (before ++ (row ∷ after))
      → exists_where (pending_in row.task_id) before ≡ false
  unfolding exists_where
  front_ordered [] runs o = refl
  front_ordered (b ∷ bs) runs o =
      let rest = front_ordered bs runs o.1 in
      let behind = exists_where-append (running_in b.task_id) bs (row ∷ after) in
      elim (Bool-cases (text_eq b.task_id row.task_id)) [
        | inl same ↦
            ground (arith, o.0, behind, runs, same, rest, text_eq_comm b.task_id row.task_id)
        | inr differ ↦ ground (arith, differ, rest)
      ]

  -- A waiting job may start if no other job of its task runs, and none before it waits.
  pub start-IsOrdered :
      (started : JobRow) (before : List JobRow)
      → started.task_id ≡ row.task_id
      → exists_where (pending_in row.task_id) before ≡ false
      → exists_where (running_in row.task_id) after ≡ false
      → IsOrdered (before ++ (row ∷ after))
      → IsOrdered (before ++ (started ∷ after))
  unfolding exists_where
  start-IsOrdered started [] task front back o =
      let moved : exists_where (running_in started.task_id) after
          ≡ exists_where (running_in row.task_id) after =
        ap (λ t. exists_where (running_in t) after) task in
      (ground (arith, moved, back), o.1)
  start-IsOrdered started (b ∷ bs) task front back o =
      let idle : (text_eq b.task_id row.task_id && is_pending b.job_state) ≡ false =
        ground (arith, front) in
      let front' : exists_where (pending_in row.task_id) bs ≡ false = ground (arith, front) in
      let moved : text_eq started.task_id b.task_id ≡ text_eq b.task_id row.task_id =
        ap (λ t. text_eq t b.task_id) task ∙ text_eq_comm row.task_id b.task_id in
      let old = exists_where-append (running_in b.task_id) bs (row ∷ after) in
      let new = exists_where-append (running_in b.task_id) bs (started ∷ after) in
      (ground (arith, o.0, idle, moved, old, new), start-IsOrdered started bs task front' back o.1)

-- A job of a task that waits or runs, waits or runs.
pub pending_front :
    (task_id : Text) (rows : List JobRow)
    → exists_where (queued_in task_id) rows ≡ false
    → exists_where (running_in task_id) rows ≡ false
    → exists_where (pending_in task_id) rows ≡ false
unfolding exists_where
pending_front t [] waits runs = refl
pending_front t (r ∷ rest) waits runs =
    let rest' = pending_front t rest (ground (arith, waits)) (ground (arith, runs)) in
    ground (arith, waits, runs, rest', pending_either r.job_state)

-- Where no job runs, the order holds.
pub idle-IsOrdered :
    (rows : List JobRow) → exists_where is_running_row rows ≡ false → IsOrdered rows
unfolding exists_where
idle-IsOrdered [] idle = tt
idle-IsOrdered (row ∷ rest) idle =
    let idle' : exists_where is_running_row rest ≡ false = ground (arith, idle) in
    let none_of_task =
      exists_where_imp (running_in row.task_id) is_running_row rest (λ r h. ground (arith, h))
        idle' in
    (ground (arith, none_of_task), idle-IsOrdered rest idle')

-- A row that is appended.
pub append-IsUnique :
    (rows : List JobRow) (row : JobRow)
    → exists_where (has_request row.request_id) rows ≡ false
    → IsUnique rows
    → IsUnique (rows ++ (row ∷ []))
unfolding exists_where
append-IsUnique [] row fresh u = (refl, tt)
append-IsUnique (r ∷ rest) row fresh u = (
  ground (
    arith,
    u.0,
    fresh,
    exists_where-append (has_request r.request_id) rest (row ∷ []),
    text_eq_comm r.request_id row.request_id,
  ),
  append-IsUnique rest row (ground (arith, fresh)) u.1,
)

pub append-IsOrdered :
    (rows : List JobRow) (row : JobRow)
    → is_running row.job_state ≡ false
    → IsOrdered rows
    → IsOrdered (rows ++ (row ∷ []))
unfolding exists_where
append-IsOrdered [] row waits o = (ground (arith, waits), tt)
append-IsOrdered (r ∷ rest) row waits o = (
  ground (arith, o.0, waits, exists_where-append (running_in r.task_id) rest (row ∷ [])),
  append-IsOrdered rest row waits o.1,
)
