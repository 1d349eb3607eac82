-- ===== src/Store/Mailbox.antt =====
-- app/host/src/store.rs: the current unread summary of a task, and the mailbox status that the slots
-- show.
pub mod Laws
use Prim.Native.Nat.{bit_and, bit_or}
use codex_keyboard_windows.Base.{
  ℕ, zero, suc, ◌+◌, ◌-◌, ◌^◌, min, Bool, true, false, not, ◌&&◌, ◌||◌, Option, none, some, List,
  [], ◌∷◌, ltb, ◌==◌, ◌!=◌, Result, ok, err, ◌>>=◌, if◌then◌else◌,
}
use codex_keyboard_windows.Store.{
  Text, text_eq, StoreError, External, invalid_summary_state, invalid_summary_request,
}
use codex_keyboard_windows.Store.Tables.{first_where, count_where}
use codex_keyboard_windows.Store.Ledger.{Binding, CompletionRow, SummaryRow, Ledger}
use codex_keyboard_windows.Store.Bindings.{query_bindings}
use codex_keyboard_windows.Store.Playback.{is_current}
use codex_keyboard_windows.LanPlayback.Mailbox.{bool_eq}

pub record UnreadSummary : Type 0 where
  pub task_id : Text
  pub generation : ℕ
  pub cache_object : Text
  pub coverage_count : ℕ

pub record MailboxStatusSnapshot : Type 0 where
  pub unread_slots : ℕ
  pub coverage_by_slot : List ℕ

-- `task_id = ? AND summarized_generation = ?`.
abbrev pub covered_by : Text → ℕ → CompletionRow → Bool
covered_by task_id generation row =
    text_eq row.task_id task_id
    && elim row.summarized_generation [ none ↦ false | some summarized ↦ summarized == generation ]

unfoldable pub unread_of : Ledger → Text → SummaryRow → Result StoreError (Option UnreadSummary)
unread_of ledger task_id row =
    let coverage_count = count_where (covered_by row.task_id row.generation) ledger.completions in
    elim row.cache_object [
      | none ↦ err invalid_summary_state
      | some cache_object ↦
          if ltb 0 row.generation && (ltb 0 coverage_count && ltb coverage_count (2 ^ 32))
          then ok (
              some (record {
                task_id = task_id;
                generation = row.generation;
                cache_object = cache_object;
                coverage_count = coverage_count;
              }))
          else err invalid_summary_state
    ]

unfoldable pub query_current_unread : Ledger → Text → Result StoreError (Option UnreadSummary)
unfolding unread_of
query_current_unread ledger task_id = elim (first_where (is_current task_id) ledger.summaries) [
  | none ↦ ok none
  | some row ↦ unread_of ledger task_id row
]

unfoldable pub current_unread_summary :
    External → Ledger → Text → Result StoreError (Option UnreadSummary)
unfolding query_current_unread
current_unread_summary x ledger task_id =
    if not (x.is_uuid task_id)
    then err invalid_summary_request
    else query_current_unread ledger task_id

-- `values[index] = value`, of an index in range.
abbrev pub set_at : ℕ → ℕ → List ℕ → List ℕ
set_at index value [] = []
set_at zero value (v ∷ vs) = value ∷ vs
set_at (suc index) value (v ∷ vs) = v ∷ set_at index value vs

unfoldable pub mark_slot : ℕ → UnreadSummary → MailboxStatusSnapshot → MailboxStatusSnapshot
mark_slot slot unread status =
    let index = slot - 1 in
    record {
      unread_slots = bit_or status.unread_slots (2 ^ index);
      coverage_by_slot = set_at index (min unread.coverage_count 255) status.coverage_by_slot;
    }

-- The loop over the bindings.
unfoldable pub mark_slots :
    External
    → Ledger
    → MailboxStatusSnapshot
    → List Binding
    → Result StoreError MailboxStatusSnapshot
unfolding current_unread_summary mark_slot
mark_slots x ledger status [] = ok status
mark_slots x ledger status (binding ∷ rest) =
    elim (current_unread_summary x ledger binding.task_id) [
      | err e ↦ err e
      | ok none ↦ mark_slots x ledger status rest
      | ok (some unread) ↦ mark_slots x ledger (mark_slot binding.slot unread status) rest
    ]

-- The closure over `coverage_by_slot.iter().enumerate()`, from `index` on.
unfoldable pub any_differs : ℕ → ℕ → List ℕ → Bool
any_differs unread_slots index [] = false
any_differs unread_slots index (coverage ∷ rest) =
    not (bool_eq (bit_and unread_slots (2 ^ index) != 0) (coverage != 0))
    || any_differs unread_slots (index + 1) rest

abbrev pub default : MailboxStatusSnapshot
default = record { unread_slots = 0; coverage_by_slot = 0 ∷ 0 ∷ 0 ∷ 0 ∷ [] }

unfoldable pub mailbox_status : External → Ledger → Result StoreError MailboxStatusSnapshot
unfolding mark_slots any_differs
mailbox_status x ledger = elim (mark_slots x ledger default (query_bindings ledger.bindings)) [
  | err e ↦ err e
  | ok status ↦
      if any_differs status.unread_slots 0 status.coverage_by_slot
      then err invalid_summary_state
      else ok status
]
