-- ===== src/Store/Rollouts.antt =====
-- app/host/src/store.rs: a completion that was read from a rollout is inserted together with the
-- cursor behind it.
pub mod Laws
pub mod Moves
use codex_keyboard_windows.Base.{
  ℕ, ◌+◌, ◌*◌, ◌-◌, ◌^◌, min, Bool, true, false, not, ◌&&◌, ◌||◌, Option, none, some, List, [], ◌∷◌,
  ◌++◌, length, replicate, leb, ltb, ◌==◌, Result, ok, err, ◌>>=◌, ◌>>◌, if◌then◌else◌,
}
use codex_keyboard_windows.Store.{
  Text, text_eq, StoreError, External, binding_changed, rollout_cursor_changed, completion_conflict,
  invalid_completion, i64_bound, is_empty, path_contains_nul, path_bytes, to_i64,
}
use codex_keyboard_windows.Store.Tables.{first_where, exists_where, update_where}
use codex_keyboard_windows.Store.Ledger.{Binding, RolloutCursor, CompletionRow, Ledger}

pub data CompletionOutcome : Type 0 where
  inserted replay : CompletionOutcome

abbrev pub max_rollout_path_bytes : ℕ
max_rollout_path_bytes = 4 * 1024

abbrev pub max_turn_pack_bytes : ℕ
max_turn_pack_bytes = 64 * 1024

-- `previous.rollout_path == next.rollout_path` and what follows it, but for the offset.
unfoldable pub same_file : External → RolloutCursor → RolloutCursor → Bool
same_file x previous next =
    x.same_path previous.rollout_path next.rollout_path
    && ((previous.device == next.device)
        && ((previous.inode == next.inode) && (previous.generation == next.generation)))

-- `saturating_add` on 64 bits.
unfoldable pub transition_valid : External → Option RolloutCursor → RolloutCursor → Bool
unfolding same_file
transition_valid x none next = next.generation == 1
transition_valid x (some previous) next =
    text_eq previous.task_id next.task_id
    && ((same_file x previous next && leb previous.offset next.offset)
        || (next.generation == min (previous.generation + 1) (2 ^ 64 - 1)))

unfoldable pub validate_rollout_completion :
    External → Option RolloutCursor → RolloutCursor → Text → Text → Result StoreError (Unit {0})
unfolding transition_valid
validate_rollout_completion x expected next completion_id turn_pack =
    let path_ok =
      x.is_absolute next.rollout_path
      && (not (is_empty next.rollout_path)
          && (leb (path_bytes next.rollout_path) max_rollout_path_bytes
              && not (path_contains_nul next.rollout_path))) in
    let base_valid =
      x.is_uuid next.task_id
      && (x.is_uuid completion_id
          && (path_ok
              && (ltb 0 next.generation
                  && (not (text_eq next.anchor (replicate 32 0))
                      && (not (is_empty turn_pack)
                          && (leb (length turn_pack) max_turn_pack_bytes
                              && x.is_json_object turn_pack)))))) in
    if base_valid && transition_valid x expected next then ok tt else err invalid_completion

abbrev pub cursor_of : Text → RolloutCursor → Bool
cursor_of task_id row = text_eq row.task_id task_id

-- `RolloutCursor == RolloutCursor`.
unfoldable pub cursor_eq : External → RolloutCursor → RolloutCursor → Bool
unfolding same_file
cursor_eq x a b =
    text_eq a.task_id b.task_id
    && (same_file x a b && ((a.offset == b.offset) && text_eq a.anchor b.anchor))

abbrev pub expected_eq : External → Option RolloutCursor → Option RolloutCursor → Bool
expected_eq x none none = true
expected_eq x (some a) (some b) = cursor_eq x a b
expected_eq x _ _ = false

abbrev pub has_completion : Text → CompletionRow → Bool
has_completion completion_id row = text_eq row.completion_id completion_id

abbrev pub is_binding : Binding → Binding → Bool
is_binding binding row =
    (row.slot == binding.slot)
    && (text_eq row.task_id binding.task_id && (row.generation == binding.generation))

unfoldable pub still_bound : Ledger → Option Binding → Result StoreError Bool
still_bound ledger none = ok true
still_bound ledger (some binding) =
    to_i64 binding.generation
    >>= (λ generation. ok (exists_where (is_binding binding) ledger.bindings))

-- `INSERT … ON CONFLICT(task_id) DO UPDATE`.
unfoldable pub upsert_cursor : RolloutCursor → List RolloutCursor → List RolloutCursor
upsert_cursor next cursors =
    if exists_where (cursor_of next.task_id) cursors
    then update_where (cursor_of next.task_id) (λ row. next) cursors
    else cursors ++ (next ∷ [])

-- `to_sql_i64` of the four numbers of the row.
unfoldable pub fits_row : RolloutCursor → Bool
fits_row next =
    ltb next.device i64_bound
    && (ltb next.inode i64_bound && (ltb next.offset i64_bound && ltb next.generation i64_bound))

unfoldable pub move_cursor :
    Ledger
    → Ledger
    → RolloutCursor
    → CompletionOutcome
    → Ledger × Result StoreError CompletionOutcome
unfolding fits_row upsert_cursor
move_cursor before ledger next outcome =
    if not (fits_row next)
    then (before, err invalid_completion)
    else (record ledger { rollout_cursors = upsert_cursor next ledger.rollout_cursors }, ok outcome)

unfoldable pub completion_row : RolloutCursor → Text → Text → CompletionRow
completion_row next completion_id turn_pack = record {
  completion_id = completion_id;
  task_id = next.task_id;
  rollout_cursor = (next.generation, next.offset);
  summarized_generation = none;
  turn_pack = turn_pack;
}

unfoldable pub record_completion :
    Ledger → RolloutCursor → Text → Text → Ledger × Result StoreError CompletionOutcome
unfolding move_cursor completion_row
record_completion ledger next completion_id turn_pack =
    elim (first_where (has_completion completion_id) ledger.completions) [
      | some row ↦
          if text_eq row.task_id next.task_id
          then move_cursor ledger ledger next replay
          else (ledger, err completion_conflict)
      | none ↦
          let ledger' : Ledger = record ledger {
            completions = ledger.completions ++ (completion_row next completion_id turn_pack ∷ []);
          } in
          move_cursor ledger ledger' next inserted
    ]

unfoldable pub commit_rollout_completion_on :
    External
    → Ledger
    → Option Binding
    → Option RolloutCursor
    → RolloutCursor
    → Text
    → Text
    → Ledger × Result StoreError CompletionOutcome
unfolding record_completion still_bound validate_rollout_completion
commit_rollout_completion_on x ledger binding expected next completion_id turn_pack =
    elim (validate_rollout_completion x expected next completion_id turn_pack) [
      | err e ↦ (ledger, err e)
      | ok checked ↦ elim (still_bound ledger binding) [
        | err e ↦ (ledger, err e)
        | ok bound ↦
            if not bound
            then (ledger, err binding_changed)
            else (if not (
                  expected_eq x (first_where (cursor_of next.task_id) ledger.rollout_cursors)
                    expected)
                then (ledger, err rollout_cursor_changed)
                else record_completion ledger next completion_id turn_pack)
      ]
    ]

unfoldable pub commit_rollout_completion :
    External
    → Ledger
    → Option RolloutCursor
    → RolloutCursor
    → Text
    → Text
    → Ledger × Result StoreError CompletionOutcome
unfolding commit_rollout_completion_on
commit_rollout_completion x ledger expected next completion_id turn_pack =
    commit_rollout_completion_on x ledger none expected next completion_id turn_pack

unfoldable pub commit_bound_rollout_completion :
    External
    → Ledger
    → Binding
    → Option RolloutCursor
    → RolloutCursor
    → Text
    → Text
    → Ledger × Result StoreError CompletionOutcome
unfolding commit_rollout_completion_on
commit_bound_rollout_completion x ledger binding expected next completion_id turn_pack =
    commit_rollout_completion_on x ledger (some binding) expected next completion_id turn_pack
