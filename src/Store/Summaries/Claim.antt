-- ===== src/Store/Summaries/Claim.antt =====
-- `StateStore::claim_summary` of app/host/src/store.rs: a claim that stands is loaded again, or a new
-- one is made.
use codex_keyboard_windows.Base.{
  ℕ, ◌+◌, Bool, true, false, not, ◌&&◌, Option, none, some, List, [], ◌∷◌, ◌++◌, leb, ltb, ◌!=◌,
  Result, ok, err, if◌then◌else◌,
}
use codex_keyboard_windows.Store.{
  Text, text_eq, StoreError, External, sqlite, summary_request_conflict, summary_request_abandoned,
  summary_claim_changed, summary_busy, summary_generation_out_of_range, i64_bound,
}
use codex_keyboard_windows.Store.Tables.{first_where, count_where, update_where}
use codex_keyboard_windows.Store.Ledger.{
  generating, interrupted, abandoned, unheard, leased, heard, superseded, SummaryRow, Ledger,
  summary_at,
}
use codex_keyboard_windows.Store.Mailbox.{UnreadSummary, query_current_unread}
use codex_keyboard_windows.Store.Summaries.{
  PendingSummaryCompletion, SummaryClaim, SummaryClaimResult, validate_summary_request,
  query_pending_summary_completions, load_summary_claim, column_is, is_interrupted, active_in,
  inserted, replay, claimed, published,
}

-- An interrupted claim of that request.
abbrev pub resumable : Text → ℕ → Text → SummaryRow → Bool
resumable task_id generation request_id row =
    summary_at task_id generation row
    && (is_interrupted row.summary_state && column_is request_id row.claim_id)

unfoldable pub resumed_row : SummaryRow → SummaryRow
resumed_row row = record row { summary_state = generating }

-- The claim of a row is loaded from the tables that the transaction leaves.
unfoldable pub replay_claim :
    Ledger → Ledger → Text → SummaryRow → Ledger × Result StoreError SummaryClaim
unfolding load_summary_claim
replay_claim before ledger request_id row =
    elim (load_summary_claim ledger replay request_id row.task_id row.generation
      row.previous_generation row.covers_completions) [
        | err e ↦ (before, err e)
        | ok claim ↦ (ledger, ok claim)
      ]

unfoldable pub resume_claim : Ledger → Text → SummaryRow → Ledger × Result StoreError SummaryClaim
unfolding replay_claim resumed_row
resume_claim ledger request_id row =
    let found = resumable row.task_id row.generation request_id in
    let ledger' : Ledger = record ledger {
      summaries = update_where found resumed_row ledger.summaries;
    } in
    if count_where found ledger.summaries != 1
    then (ledger, err summary_claim_changed)
    else replay_claim ledger ledger' request_id row

abbrev pub as_claimed :
    Ledger × Result StoreError SummaryClaim → Ledger × Result StoreError (Option SummaryClaimResult)
as_claimed (ledger, ok claim) = (ledger, ok (some (claimed claim)))
as_claimed (ledger, err e) = (ledger, err e)

-- A request that is in the ledger.
unfoldable pub claim_known :
    Ledger → Text → Text → SummaryRow → Ledger × Result StoreError (Option SummaryClaimResult)
unfolding resume_claim replay_claim
claim_known ledger task_id request_id row =
    if not (text_eq row.task_id task_id)
    then (ledger, err summary_request_conflict)
    else (elim row.summary_state [
      | generating ↦ as_claimed (replay_claim ledger ledger request_id row)
      | interrupted ↦ as_claimed (resume_claim ledger request_id row)
      | abandoned ↦ (ledger, err summary_request_abandoned)
      | unheard ↦ (ledger, ok (some (published task_id row.generation)))
      | leased ↦ (ledger, ok (some (published task_id row.generation)))
      | heard ↦ (ledger, ok (some (published task_id row.generation)))
      | superseded ↦ (ledger, ok (some (published task_id row.generation)))
    ])

-- `COALESCE(MAX(generation), 0)` of a task.
unfoldable pub last_generation : Text → List SummaryRow → ℕ
last_generation task_id [] = 0
last_generation task_id (row ∷ rows) =
    let rest = last_generation task_id rows in
    if text_eq row.task_id task_id && ltb rest row.generation then row.generation else rest

abbrev pub generation_of_unread : Option UnreadSummary → Option ℕ
generation_of_unread none = none
generation_of_unread (some summary) = some summary.generation

abbrev pub ids_of : List PendingSummaryCompletion → List Text
ids_of [] = []
ids_of (completion ∷ rest) = completion.completion_id ∷ ids_of rest

unfoldable pub claim_row :
    Text → Text → ℕ → Option UnreadSummary → List PendingSummaryCompletion → SummaryRow
claim_row task_id request_id generation previous_unread completions = record {
  task_id = task_id;
  generation = generation;
  summary_state = generating;
  covers_completions = ids_of completions;
  cache_object = none;
  request_id = some request_id;
  claim_id = some request_id;
  previous_generation = generation_of_unread previous_unread;
  superseded_by = none;
}

unfoldable pub insert_claim :
    Ledger
    → Text
    → Text
    → Option UnreadSummary
    → List PendingSummaryCompletion
    → Ledger × Result StoreError (Option SummaryClaimResult)
unfolding last_generation claim_row
insert_claim ledger task_id request_id previous_unread completions =
    let generation = last_generation task_id ledger.summaries + 1 in
    let claim : SummaryClaim = record {
      outcome = inserted;
      request_id = request_id;
      task_id = task_id;
      generation = generation;
      previous_unread = previous_unread;
      completions = completions;
    } in
    if leb i64_bound generation then (ledger, err summary_generation_out_of_range) else (
      record ledger {
        summaries =
            ledger.summaries
            ++ (claim_row task_id request_id generation previous_unread completions ∷ []);
      },
      ok (some (claimed claim)),
    )

-- A request that is not in the ledger, of a task without an active claim.
unfoldable pub claim_new :
    External → Ledger → Text → Text → Ledger × Result StoreError (Option SummaryClaimResult)
unfolding insert_claim query_pending_summary_completions
claim_new x ledger task_id request_id = elim (query_current_unread ledger task_id) [
  | err e ↦ (ledger, err e)
  | ok previous_unread ↦ elim (query_pending_summary_completions x ledger task_id) [
    | err e ↦ (ledger, err e)
    | ok [] ↦ (ledger, ok none)
    | ok (completion ∷ rest) ↦
        insert_claim ledger task_id request_id previous_unread (completion ∷ rest)
  ]
]

-- The claim of a task that another request may hold.
unfoldable pub claim_active :
    Ledger → Text → SummaryRow → Ledger × Result StoreError (Option SummaryClaimResult)
unfolding replay_claim
claim_active ledger request_id row = elim row.claim_id [
  | none ↦ (ledger, err sqlite)
  | some claim_id ↦
      if not (text_eq claim_id request_id)
      then (ledger, err summary_busy)
      else as_claimed (replay_claim ledger ledger request_id row)
]

unfoldable pub claim_summary :
    External → Ledger → Text → Text → Ledger × Result StoreError (Option SummaryClaimResult)
unfolding claim_known claim_active claim_new validate_summary_request
claim_summary x ledger task_id request_id = elim (validate_summary_request x task_id request_id) [
  | err e ↦ (ledger, err e)
  | ok checked ↦ elim (first_where (λ row. column_is request_id row.request_id) ledger.summaries) [
    | some row ↦ claim_known ledger task_id request_id row
    | none ↦ elim (first_where (active_in task_id) ledger.summaries) [
      | some row ↦ claim_active ledger request_id row
      | none ↦ claim_new x ledger task_id request_id
    ]
  ]
]

abbrev pub is_generating : SummaryRow → Bool
is_generating row = elim row.summary_state [
  | generating ↦ true
  | interrupted ↦ false
  | abandoned ↦ false
  | unheard ↦ false
  | leased ↦ false
  | heard ↦ false
  | superseded ↦ false
]

unfoldable pub interrupted_row : SummaryRow → SummaryRow
interrupted_row row = record row { summary_state = interrupted }

unfoldable pub recover_interrupted_summaries : Ledger → Ledger × ℕ
unfolding interrupted_row
recover_interrupted_summaries ledger = (
  record ledger { summaries = update_where is_generating interrupted_row ledger.summaries },
  count_where is_generating ledger.summaries,
)
