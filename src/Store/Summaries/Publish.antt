-- ===== src/Store/Summaries/Publish.antt =====
-- `StateStore::publish_summary` of app/host/src/store.rs.
use codex_keyboard_windows.Base.{
  ℕ, ◌+◌, ◌^◌, Bool, true, false, not, ◌||◌, ◌&&◌, Option, none, some, List, [], ◌∷◌, length, leb,
  ◌==◌, ◌!=◌, Result, ok, err, if◌then◌else◌,
}
use codex_keyboard_windows.Cache.{for_task, reference}
use codex_keyboard_windows.Store.{
  Text, text_eq, StoreError, External, invalid_summary_state, summary_claim_changed,
  invalid_summary_cache_reference, to_i64,
}
use codex_keyboard_windows.Store.Tables.{first_where, count_where, update_where, delete_where}
use codex_keyboard_windows.Store.Ledger.{
  unheard, superseded, SummaryRow, CompletionRow, Ledger, is_unheard, is_leased, is_null,
  summary_at,
}
use codex_keyboard_windows.Store.Mailbox.{UnreadSummary, query_current_unread, covered_by}
use codex_keyboard_windows.Store.Summaries.{
  PendingSummaryCompletion, SummaryClaim, validate_summary_claim, completion_of, column_is,
}
use codex_keyboard_windows.Store.Summaries.Claim.{is_generating, generation_of_unread, ids_of}
use codex_keyboard_windows.Store.Summaries.Publication.{attempt_at}

-- `Option<i64> == Option<i64>`, and `UnreadSummary == UnreadSummary`.
abbrev pub option_eq : Option ℕ → Option ℕ → Bool
option_eq none none = true
option_eq (some a) (some b) = a == b
option_eq _ _ = false

abbrev pub texts_eq : List Text → List Text → Bool
texts_eq [] [] = true
texts_eq (a ∷ left) (b ∷ right) = text_eq a b && texts_eq left right
texts_eq _ _ = false

abbrev pub unread_eq : Option UnreadSummary → Option UnreadSummary → Bool
unread_eq none none = true
unread_eq (some a) (some b) =
    text_eq a.task_id b.task_id
    && ((a.generation == b.generation)
        && (text_eq a.cache_object b.cache_object && (a.coverage_count == b.coverage_count)))
unread_eq _ _ = false

-- `state IN ('unheard', 'leased') AND superseded_by IS NULL` of one key.
abbrev pub current_at : Text → ℕ → SummaryRow → Bool
current_at task_id generation row =
    summary_at task_id generation row
    && ((is_unheard row.summary_state || is_leased row.summary_state) && is_null row.superseded_by)

-- An unheard summary is superseded at once, one that is played when its playback ends.
unfoldable pub superseded_row : ℕ → SummaryRow → SummaryRow
superseded_row generation row = record row {
  summary_state = if is_unheard row.summary_state then superseded else row.summary_state;
  superseded_by = some generation;
}

unfoldable pub covered_row : ℕ → CompletionRow → CompletionRow
covered_row generation row = record row { summarized_generation = some generation }

-- The previous summary is superseded, and what it covered is covered by the new one. The result is how
-- much that is.
unfoldable pub supersede : Ledger → SummaryClaim → Result StoreError (Ledger × ℕ)
unfolding superseded_row covered_row
supersede ledger claim = elim (query_current_unread ledger claim.task_id) [
  | err e ↦ err e
  | ok current ↦
      if not (unread_eq current claim.previous_unread)
      then err summary_claim_changed
      else (elim claim.previous_unread [
        | none ↦ ok (ledger, 0)
        | some previous ↦
            let old = current_at claim.task_id previous.generation in
            let was = covered_by claim.task_id previous.generation in
            let coverage = count_where was ledger.completions in
            let ledger' : Ledger = record ledger {
              summaries = update_where old (superseded_row claim.generation) ledger.summaries;
              completions = update_where was (covered_row claim.generation) ledger.completions;
            } in
            if (count_where old ledger.summaries != 1) || (coverage != previous.coverage_count)
            then err summary_claim_changed
            else ok (ledger', coverage)
      ])
]

-- `completion_id = ? AND task_id = ? AND turn_pack = ? AND summarized_generation IS NULL`.
abbrev pub claimed_completion : Text → PendingSummaryCompletion → CompletionRow → Bool
claimed_completion task_id completion row =
    completion_of completion.completion_id task_id row
    && (text_eq row.turn_pack completion.turn_pack && is_null row.summarized_generation)

-- The loop over the completions of the claim.
unfoldable pub cover :
    Text
    → ℕ
    → List PendingSummaryCompletion
    → List CompletionRow
    → Result StoreError (List CompletionRow)
unfolding covered_row
cover task_id generation [] rows = ok rows
cover task_id generation (completion ∷ rest) rows =
    let found = claimed_completion task_id completion in
    let later = cover task_id generation rest (update_where found (covered_row generation) rows) in
    if count_where found rows != 1 then err summary_claim_changed else later

unfoldable pub published_row : Text → SummaryRow → SummaryRow
published_row cache_object row = record row {
  summary_state = unheard;
  cache_object = some cache_object;
  claim_id = none;
}

-- `task_id = ? AND generation = ? AND state = 'generating' AND claim_id = ?`.
abbrev pub generating_claim : SummaryClaim → SummaryRow → Bool
generating_claim claim row =
    summary_at claim.task_id claim.generation row
    && (is_generating row && column_is claim.request_id row.claim_id)

unfoldable pub publish_claim :
    Ledger
    → SummaryClaim
    → Text
    → Ledger × ℕ
    → List CompletionRow
    → Ledger × Result StoreError UnreadSummary
unfolding published_row
publish_claim before claim cache_object (ledger, previous_coverage) completions =
    let coverage_count = previous_coverage + length claim.completions in
    let ledger' : Ledger = record ledger {
      completions = completions;
      summaries =
          update_where (generating_claim claim) (published_row cache_object) ledger.summaries;
      attempts = delete_where (attempt_at claim.task_id claim.generation) ledger.attempts;
    } in
    let unread : UnreadSummary = record {
      task_id = claim.task_id;
      generation = claim.generation;
      cache_object = cache_object;
      coverage_count = coverage_count;
    } in
    if count_where (generating_claim claim) ledger.summaries != 1
    then (before, err summary_claim_changed)
    else (if leb (2 ^ 32) coverage_count
        then (before, err invalid_summary_state)
        else (ledger', ok unread))

-- The stored claim is the one that is published.
unfoldable pub publish_stored :
    Ledger → SummaryClaim → Text → SummaryRow → Ledger × Result StoreError UnreadSummary
unfolding supersede cover publish_claim
publish_stored ledger claim cache_object stored =
    if not (option_eq stored.previous_generation (generation_of_unread claim.previous_unread))
      || not (texts_eq stored.covers_completions (ids_of claim.completions))
    then (ledger, err summary_claim_changed)
    else (elim (supersede ledger claim) [
      | err e ↦ (ledger, err e)
      | ok between ↦
          elim (cover claim.task_id claim.generation claim.completions between.0.completions) [
            | err e ↦ (ledger, err e)
            | ok completions ↦ publish_claim ledger claim cache_object between completions
          ]
    ])

unfoldable pub reference_matches : External → SummaryClaim → Text → Bool
reference_matches x claim cache_object = elim (for_task x.sha256 claim.task_id claim.generation) [
  | err e ↦ false
  | ok id ↦ text_eq cache_object (reference id)
]

unfoldable pub publish_summary :
    External → Ledger → SummaryClaim → Text → Ledger × Result StoreError UnreadSummary
unfolding publish_stored validate_summary_claim reference_matches
publish_summary x ledger claim cache_object = elim (validate_summary_claim x claim) [
  | err e ↦ (ledger, err e)
  | ok checked ↦
      if not (reference_matches x claim cache_object)
      then (ledger, err invalid_summary_cache_reference)
      else (elim (to_i64 claim.generation) [
        | err e ↦ (ledger, err e)
        | ok generation ↦ elim (first_where (generating_claim claim) ledger.summaries) [
          | none ↦ (ledger, err summary_claim_changed)
          | some stored ↦ publish_stored ledger claim cache_object stored
        ]
      ])
]
