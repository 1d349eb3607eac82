-- ===== src/Store/Rollouts/Laws.antt =====
-- What a commit of a completion leaves.
use codex_keyboard_windows.Base.{
  ◌≤◌, ◌≡◌, ◌∙◌, refl, sym, ap, subst, true, false, Option, some, List, [], ◌∷◌, ◌++◌, arith,
  Result, ok, err, Bool-cases, Option-cases, Result-cases, inl, inr,
}
use codex_keyboard_windows.Store.{
  Text, text_eq, text_eq_iff, text_eq_refl, StoreError, External, binding_changed,
  rollout_cursor_changed, completion_conflict, invalid_completion,
}
use codex_keyboard_windows.Store.Tables.{
  first_where, exists_where, count_where, update_where, first_where_one, first_where-exists_where,
  count_where-append, count_where_none,
}
use codex_keyboard_windows.Store.Ledger.{Binding, RolloutCursor, CompletionRow, Ledger}
use codex_keyboard_windows.Store.Rollouts.{
  CompletionOutcome, inserted, replay, validate_rollout_completion, cursor_of, expected_eq,
  has_completion, still_bound, upsert_cursor, fits_row, move_cursor, completion_row,
  record_completion, commit_rollout_completion_on,
}

-- A commit is refused and changes nothing, or moves the cursor of the task; the completion is in the
-- ledger under that task, from before or as a new row.
pub data Commit (ledger : Ledger) (next : RolloutCursor) (completion_id turn_pack : Text)
    (outcome : Ledger × Result StoreError CompletionOutcome) : Type 0 where
  refused :
      (e : StoreError)
      → outcome ≡ (ledger, err e)
      → Commit ledger next completion_id turn_pack outcome
  repeats :
      (row : CompletionRow)
      → first_where (has_completion completion_id) ledger.completions ≡ some row
      → row.task_id ≡ next.task_id
      → outcome
        ≡ (record ledger { rollout_cursors = upsert_cursor next ledger.rollout_cursors }, ok replay)
      → Commit ledger next completion_id turn_pack outcome
  records :
      exists_where (has_completion completion_id) ledger.completions ≡ false
      → outcome ≡ (
        record ledger {
          completions = ledger.completions ++ (completion_row next completion_id turn_pack ∷ []);
          rollout_cursors = upsert_cursor next ledger.rollout_cursors;
        },
        ok inserted,
      )
      → Commit ledger next completion_id turn_pack outcome

record_completion-Commit :
    (ledger : Ledger) (next : RolloutCursor) (completion_id turn_pack : Text)
    → Commit ledger next completion_id turn_pack
        (record_completion ledger next completion_id turn_pack)
unfolding record_completion
record_completion-Commit ledger next completion_id turn_pack =
    elim (Option-cases (first_where (has_completion completion_id) ledger.completions)) [
      | inr (row, found) ↦ elim (Bool-cases (text_eq row.task_id next.task_id)) [
        | inr other ↦ refused completion_conflict (rw (record_completion, found, other) refl)
        | inl same ↦ elim (Bool-cases (fits_row next)) [
          | inr large ↦
              refused invalid_completion
                (rw (record_completion, found, same, move_cursor, large) refl)
          | inl fits ↦
              repeats row found ((text_eq_iff row.task_id next.task_id).0 same)
                (rw (record_completion, found, same, move_cursor, fits) refl)
        ]
      ]
      | inl missing ↦ elim (Bool-cases (fits_row next)) [
        | inr large ↦
            refused invalid_completion (rw (record_completion, missing, move_cursor, large) refl)
        | inl fits ↦
            records
              (first_where-exists_where (has_completion completion_id) ledger.completions missing)
              (rw (record_completion, missing, move_cursor, fits) refl)
      ]
    ]

-- A commit is refused with an error and changes no table; or it moves the cursor and finds the
-- completion under its task already; or it moves the cursor and appends the completion, which was
-- not in the ledger.
pub commit_rollout_completion_on-Commit :
    (x : External) (ledger : Ledger) (binding : Option Binding) (expected : Option RolloutCursor)
    (next : RolloutCursor) (completion_id turn_pack : Text)
    → Commit ledger next completion_id turn_pack
        (commit_rollout_completion_on x ledger binding expected next completion_id turn_pack)
unfolding commit_rollout_completion_on
commit_rollout_completion_on-Commit x ledger binding expected next completion_id turn_pack =
    elim (Result-cases (validate_rollout_completion x expected next completion_id turn_pack)) [
      | inr (e, bad) ↦ refused e (rw (commit_rollout_completion_on, bad) refl)
      | inl (u, good) ↦ elim (Result-cases (still_bound ledger binding)) [
        | inr (e, bad) ↦ refused e (rw (commit_rollout_completion_on, good, bad) refl)
        | inl (bound, read) ↦ elim (Bool-cases bound) [
          | inr changed ↦
              refused binding_changed (rw (commit_rollout_completion_on, good, read, changed) refl)
          | inl holds ↦
              elim (Bool-cases (
                expected_eq x (first_where (cursor_of next.task_id) ledger.rollout_cursors)
                  expected)) [
                    | inr moved ↦
                        refused rollout_cursor_changed
                          (rw (commit_rollout_completion_on, good, read, holds, moved) refl)
                    | inl current ↦
                        rw (commit_rollout_completion_on, good, read, holds, current)
                          (record_completion-Commit ledger next completion_id turn_pack)
                  ]
        ]
      ]
    ]

-- The cursor that was set is read back.
updated :
    (next : RolloutCursor) (rows : List RolloutCursor)
    → exists_where (cursor_of next.task_id) rows ≡ true
    → first_where
        (cursor_of next.task_id)
        (update_where (cursor_of next.task_id) (λ row. next) rows)
      ≡ some next
unfolding first_where update_where exists_where
updated next [] present = absurd (ground (arith, present))
updated next (r ∷ rs) present = elim (Bool-cases (cursor_of next.task_id r)) [
  | inl hit ↦ rw (hit, text_eq_refl next.task_id) refl
  | inr miss ↦ rw (miss, miss) (updated next rs (ground (arith, present, miss)))
]

pub upsert_cursor-task :
    (next : RolloutCursor) (rows : List RolloutCursor)
    → first_where (cursor_of next.task_id) (upsert_cursor next rows) ≡ some next
unfolding upsert_cursor
upsert_cursor-task next rows = elim (Bool-cases (exists_where (cursor_of next.task_id) rows)) [
  | inl present ↦ rw (upsert_cursor, present) (updated next rows present)
  | inr missing ↦
      rw (upsert_cursor, missing)
        (first_where_one (cursor_of next.task_id) rows next [] (text_eq_refl next.task_id) missing)
]

-- The completion and the cursor that a commit leaves.
pub record IsCommitted (ledger : Ledger) (next : RolloutCursor) (completion_id : Text)
    : Type 0 where
  pub row : CompletionRow
  pub found : first_where (has_completion completion_id) ledger.completions ≡ some row
  pub task : row.task_id ≡ next.task_id
  pub cursor : first_where (cursor_of next.task_id) ledger.rollout_cursors ≡ some next

committed :
    (ledger after : Ledger) (next : RolloutCursor) (completion_id turn_pack : Text)
    (outcome : CompletionOutcome) (result : Ledger × Result StoreError CompletionOutcome)
    → Commit ledger next completion_id turn_pack result
    → result ≡ (after, ok outcome)
    → ((id : Text) → count_where (has_completion id) ledger.completions ≤ 1)
    → IsCommitted after next completion_id
      × ((id : Text) → count_where (has_completion id) after.completions ≤ 1)
unfolding completion_row count_where
committed ledger after next completion_id turn_pack outcome result (refused e same) done once =
    let clash : err e ≡ ok outcome = ap (λ o. o.1) (sym same ∙ done) in
    absurd (ground (arith, clash))
committed ledger after next completion_id turn_pack outcome result (repeats row found task same)
      done once =
    let left : record ledger { rollout_cursors = upsert_cursor next ledger.rollout_cursors }
        ≡ after =
      ap (λ o. o.0) (sym same ∙ done) in
    subst
      (λ l.
        IsCommitted l next completion_id
        × ((id : Text) → count_where (has_completion id) l.completions ≤ 1))
      left
      (
        record {
          row = row;
          found = found;
          task = task;
          cursor = upsert_cursor-task next ledger.rollout_cursors;
        },
        once,
      )
committed ledger after next completion_id turn_pack outcome result (records missing same) done
      once =
    let row : CompletionRow = completion_row next completion_id turn_pack in
    let ledger' : Ledger = record ledger {
      completions = ledger.completions ++ (row ∷ []);
      rollout_cursors = upsert_cursor next ledger.rollout_cursors;
    } in
    let left : ledger' ≡ after = ap (λ o. o.0) (sym same ∙ done) in
    let found =
      first_where_one (has_completion completion_id) ledger.completions row []
        (text_eq_refl completion_id) missing in
    let once' : (id : Text)
        → count_where (has_completion id) (ledger.completions ++ (row ∷ [])) ≤ 1 =
      λ id.
        let both = count_where-append (has_completion id) ledger.completions (row ∷ []) in
        elim (Bool-cases (text_eq completion_id id)) [
          | inl here ↦
              let none_yet =
                count_where_none (has_completion completion_id) ledger.completions missing in
              let same_id =
                ap (λ k. count_where (has_completion k) ledger.completions)
                  ((text_eq_iff completion_id id).0 here) in
              ground (arith, both, none_yet, same_id)
          | inr other ↦ ground (arith, both, other, once id)
        ] in
    subst
      (λ l.
        IsCommitted l next completion_id
        × ((id : Text) → count_where (has_completion id) l.completions ≤ 1))
      left
      (
        record {
          row = row;
          found = found;
          task = refl;
          cursor = upsert_cursor-task next ledger.rollout_cursors;
        },
        once',
      )

-- When a commit succeeds on a ledger in which every completion id stands at most once, then
-- afterwards the completion is in the ledger under the task of the cursor, the cursor of that task
-- is the new one, and every completion id still stands at most once.
pub commit_rollout_completion_on-IsCommitted :
    (x : External) (ledger after : Ledger) (binding : Option Binding)
    (expected : Option RolloutCursor) (next : RolloutCursor) (completion_id turn_pack : Text)
    (outcome : CompletionOutcome)
    → commit_rollout_completion_on x ledger binding expected next completion_id turn_pack
      ≡ (after, ok outcome)
    → ((id : Text) → count_where (has_completion id) ledger.completions ≤ 1)
    → IsCommitted after next completion_id
      × ((id : Text) → count_where (has_completion id) after.completions ≤ 1)
commit_rollout_completion_on-IsCommitted x ledger after binding expected next completion_id
      turn_pack outcome done once =
    committed ledger after next completion_id turn_pack outcome
      (commit_rollout_completion_on x ledger binding expected next completion_id turn_pack)
      (commit_rollout_completion_on-Commit x ledger binding expected next completion_id turn_pack)
      done once
