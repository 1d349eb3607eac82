-- ===== src/Store/Summaries.antt =====
-- app/host/src/store.rs: a worker claims the completions of a task that no summary covers yet. The
-- rows of the completions stand in the order of `observed_at`, as they are inserted.
pub mod Publication
pub mod Collect
pub mod Pending
pub mod Claim
pub mod Publish
use codex_keyboard_windows.Base.{
  ℕ, zero, suc, ◌+◌, ◌*◌, ◌^◌, Bool, true, false, not, ◌||◌, ◌&&◌, Option, none, some, List, [],
  ◌∷◌, ◌++◌, length, take, leb, ltb, ◌==◌, ◌!=◌, Result, ok, err, ◌>>=◌, ◌>>◌, reject_if,
  if◌then◌else◌,
}
use codex_keyboard_windows.Store.{
  Text, text_eq, StoreError, External, sqlite, invalid_summary_request, invalid_summary_state,
  summary_request_conflict, summary_request_abandoned, summary_claim_changed, summary_busy,
  summary_generation_out_of_range, max_request_id_bytes, i64_bound, is_empty, has_control, to_i64,
}
use codex_keyboard_windows.Store.Tables.{first_where, count_where, update_where, select_where}
use codex_keyboard_windows.Store.Ledger.{
  SummaryState, generating, interrupted, abandoned, unheard, leased, heard, superseded, SummaryRow,
  CompletionRow, Ledger, is_null, summary_at,
}
use codex_keyboard_windows.Store.Mailbox.{UnreadSummary, query_current_unread}
use codex_keyboard_windows.Store.Rollouts.{max_turn_pack_bytes, has_completion}

abbrev pub max_summary_completions_per_claim : ℕ
max_summary_completions_per_claim = 32

abbrev pub max_summary_turn_pack_bytes : ℕ
max_summary_turn_pack_bytes = 1024 * 1024

pub data SummaryClaimOutcome : Type 0 where
  inserted replay : SummaryClaimOutcome

pub record PendingSummaryCompletion : Type 0 where
  pub completion_id : Text
  pub turn_pack : Text

pub record SummaryClaim : Type 0 where
  pub outcome : SummaryClaimOutcome
  pub request_id : Text
  pub task_id : Text
  pub generation : ℕ
  pub previous_unread : Option UnreadSummary
  pub completions : List PendingSummaryCompletion

pub data SummaryClaimResult : Type 0 where
  claimed : SummaryClaim → SummaryClaimResult
  published : Text → ℕ → SummaryClaimResult

unfoldable pub validate_summary_request : External → Text → Text → Result StoreError (Unit {0})
validate_summary_request x task_id request_id =
    let request_valid =
      not (is_empty request_id)
      && (leb (length request_id) max_request_id_bytes && not (has_control request_id)) in
    if x.is_uuid task_id && request_valid then ok tt else err invalid_summary_request

-- The loop over the completions of a claim, behind so many bytes.
unfoldable pub completions_valid : External → ℕ → List PendingSummaryCompletion → Bool
completions_valid x total_bytes [] = true
completions_valid x total_bytes (completion ∷ rest) =
    let total = total_bytes + length completion.turn_pack in
    let rest_valid = completions_valid x total rest in
    not (
      not (x.is_uuid completion.completion_id)
      || (is_empty completion.turn_pack
          || (ltb max_turn_pack_bytes (length completion.turn_pack)
              || ltb max_summary_turn_pack_bytes total)))
    && rest_valid

abbrev pub other_task : Text → Option UnreadSummary → Bool
other_task task_id none = false
other_task task_id (some previous) = not (text_eq previous.task_id task_id)

unfoldable pub validate_summary_claim : External → SummaryClaim → Result StoreError (Unit {0})
validate_summary_claim x claim =
    validate_summary_request x claim.task_id claim.request_id
    >> reject_if
        ((claim.generation == 0)
          || ((length claim.completions == 0)
              || (ltb max_summary_completions_per_claim (length claim.completions)
                  || (other_task claim.task_id claim.previous_unread
                      || not (completions_valid x 0 claim.completions)))))
        invalid_summary_request

-- `task_id = ? AND summarized_generation IS NULL`.
abbrev pub uncovered : Text → CompletionRow → Bool
uncovered task_id row = text_eq row.task_id task_id && is_null row.summarized_generation

-- The loop of `query_pending_summary_completions`, behind so many completions and bytes.
unfoldable pub collect :
    External → ℕ → ℕ → List CompletionRow → Result StoreError (List PendingSummaryCompletion)
collect x count total_bytes [] = ok []
collect x count total_bytes (row ∷ rest) =
    let next_total = total_bytes + length row.turn_pack in
    let later = collect x (count + 1) next_total rest in
    if count == max_summary_completions_per_claim
    then ok []
    else (if not (x.is_uuid row.completion_id)
          || (is_empty row.turn_pack || ltb max_turn_pack_bytes (length row.turn_pack))
        then err invalid_summary_state
        else (if (count != 0) && ltb max_summary_turn_pack_bytes next_total
            then ok []
            else (later >>= (λ completions. ok (
                record { completion_id = row.completion_id; turn_pack = row.turn_pack }
                ∷ completions)))))

unfoldable pub query_pending_summary_completions :
    External → Ledger → Text → Result StoreError (List PendingSummaryCompletion)
unfolding collect
query_pending_summary_completions x ledger task_id = collect x 0 0 (
    take (max_summary_completions_per_claim + 1)
      (select_where (uncovered task_id) ledger.completions))

-- `completion_id = ? AND task_id = ?`.
abbrev pub completion_of : Text → Text → CompletionRow → Bool
completion_of completion_id task_id row =
    has_completion completion_id row && text_eq row.task_id task_id

-- The loop of `load_summary_claim`, behind so many bytes.
unfoldable pub load_completions :
    Ledger → Text → ℕ → List Text → Result StoreError (List PendingSummaryCompletion)
load_completions ledger task_id total_bytes [] = ok []
load_completions ledger task_id total_bytes (completion_id ∷ rest) =
    elim (first_where (completion_of completion_id task_id) ledger.completions) [
      | none ↦ err invalid_summary_state
      | some row ↦
          let total = total_bytes + length row.turn_pack in
          let later = load_completions ledger task_id total rest in
          if not (is_null row.summarized_generation)
            || (is_empty row.turn_pack
                || (ltb max_turn_pack_bytes (length row.turn_pack)
                    || ltb max_summary_turn_pack_bytes total))
          then err invalid_summary_state
          else (later >>= (λ completions.
              ok (
                record { completion_id = completion_id; turn_pack = row.turn_pack } ∷ completions)))
    ]

unfoldable pub load_previous : Ledger → Text → Option ℕ → Result StoreError (Option UnreadSummary)
load_previous ledger task_id none = ok none
load_previous ledger task_id (some expected) = elim (query_current_unread ledger task_id) [
  | err e ↦ err e
  | ok none ↦ err invalid_summary_state
  | ok (some summary) ↦
      if summary.generation == expected then ok (some summary) else err invalid_summary_state
]

abbrev pub is_zero : Option ℕ → Bool
is_zero none = false
is_zero (some value) = value == 0

unfoldable pub load_summary_claim :
    Ledger
    → SummaryClaimOutcome
    → Text
    → Text
    → ℕ
    → Option ℕ
    → List Text
    → Result StoreError SummaryClaim
unfolding load_completions load_previous
load_summary_claim ledger outcome request_id task_id generation previous_generation covers = do
  reject_if ((generation == 0) || is_zero previous_generation) invalid_summary_state
  reject_if ((length covers == 0) || ltb max_summary_completions_per_claim (length covers))
      invalid_summary_state
  completions ← load_completions ledger task_id 0 covers
  previous_unread ← load_previous ledger task_id previous_generation
  ok (record {
    outcome = outcome;
    request_id = request_id;
    task_id = task_id;
    generation = generation;
    previous_unread = previous_unread;
    completions = completions;
  })

-- `Option<String> = String`.
abbrev pub column_is : Text → Option Text → Bool
column_is value none = false
column_is value (some text) = text_eq text value

abbrev pub is_active : SummaryState → Bool
is_active generating = true
is_active interrupted = true
is_active _ = false

abbrev pub is_interrupted : SummaryState → Bool
is_interrupted interrupted = true
is_interrupted _ = false

-- `task_id = ? AND state IN ('generating', 'interrupted')`.
abbrev pub active_in : Text → SummaryRow → Bool
active_in task_id row = text_eq row.task_id task_id && is_active row.summary_state
