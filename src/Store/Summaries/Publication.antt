-- ===== src/Store/Summaries/Publication.antt =====
-- app/host/src/store.rs: a claimed summary is spoken, published or given up.
use codex_keyboard_windows.Base.{
  ℕ, Bool, true, false, not, ◌&&◌, Option, none, some, [], ◌∷◌, ◌++◌, ◌==◌, ◌!=◌, Result, ok, err,
  ◌>>=◌, if◌then◌else◌,
}
use codex_keyboard_windows.Store.{
  Text, text_eq, StoreError, External, sqlite, invalid_summary_request, summary_claim_changed,
  summary_tts_attempt_changed, to_i64,
}
use codex_keyboard_windows.Store.Tables.{
  first_where, exists_where, count_where, update_where, delete_where,
}
use codex_keyboard_windows.Store.Ledger.{
  abandoned, SummaryRow, SummaryTtsAttemptState, started, ambiguous, AttemptRow, Ledger, summary_at,
}
use codex_keyboard_windows.Store.Summaries.{
  SummaryClaim, validate_summary_claim, column_is, is_active, is_interrupted,
}
use codex_keyboard_windows.Store.Summaries.Claim.{resume_claim}

-- `task_id = ? AND generation = ? AND state IN ('generating', 'interrupted') AND claim_id = ?`.
abbrev pub held_claim : SummaryClaim → SummaryRow → Bool
held_claim claim row =
    summary_at claim.task_id claim.generation row
    && (is_active row.summary_state && column_is claim.request_id row.claim_id)

abbrev pub attempt_at : Text → ℕ → AttemptRow → Bool
attempt_at task_id generation row = text_eq row.task_id task_id && (row.generation == generation)

unfoldable pub abandoned_row : SummaryRow → SummaryRow
abandoned_row row = record row { summary_state = abandoned; claim_id = none }

-- The rows that meet a condition are given up, and the attempts of that key forgotten.
unfoldable pub give_up : (SummaryRow → Bool) → Text → ℕ → Ledger → Ledger
unfolding abandoned_row
give_up found task_id generation ledger = record ledger {
  summaries = update_where found abandoned_row ledger.summaries;
  attempts = delete_where (attempt_at task_id generation) ledger.attempts;
}

unfoldable pub abandon_summary_claim :
    External → Ledger → SummaryClaim → Ledger × Result StoreError Bool
unfolding give_up validate_summary_claim
abandon_summary_claim x ledger claim =
    elim (validate_summary_claim x claim >>= (λ checked. to_i64 claim.generation)) [
      | err e ↦ (ledger, err e)
      | ok generation ↦
          if count_where (held_claim claim) ledger.summaries == 1
          then (give_up (held_claim claim) claim.task_id generation ledger, ok true)
          else (
            record ledger {
              summaries = update_where (held_claim claim) abandoned_row ledger.summaries;
            },
            ok false,
          )
    ]

abbrev pub interrupted_in : Text → SummaryRow → Bool
interrupted_in task_id row = text_eq row.task_id task_id && is_interrupted row.summary_state

unfoldable pub abandon_interrupted_summary_for_task :
    External → Ledger → Text → Ledger × Result StoreError (Option ℕ)
unfolding give_up
abandon_interrupted_summary_for_task x ledger task_id =
    if not (x.is_uuid task_id)
    then (ledger, err invalid_summary_request)
    else (elim (first_where (interrupted_in task_id) ledger.summaries) [
      | none ↦ (ledger, ok none)
      | some row ↦
          let found : SummaryRow → Bool =
            λ r. summary_at task_id row.generation r && is_interrupted r.summary_state in
          if count_where found ledger.summaries != 1
          then (ledger, err summary_claim_changed)
          else (give_up found task_id row.generation ledger, ok (some row.generation))
    ])

unfoldable pub resume_interrupted_summary :
    External → Ledger → Text → Ledger × Result StoreError (Option SummaryClaim)
unfolding resume_claim
resume_interrupted_summary x ledger task_id =
    if not (x.is_uuid task_id)
    then (ledger, err invalid_summary_request)
    else (elim (first_where (interrupted_in task_id) ledger.summaries) [
      | none ↦ (ledger, ok none)
      | some row ↦ elim row.claim_id [
        | none ↦ (ledger, err sqlite)
        | some request_id ↦
            let resumed = resume_claim ledger request_id row in
            (resumed.0, resumed.1 >>= (λ claim. ok (some claim)))
      ]
    ])

-- The attempt of a claim whose request still holds a summary that is not published.
unfoldable pub summary_tts_attempt :
    External → Ledger → SummaryClaim → Result StoreError (Option SummaryTtsAttemptState)
unfolding validate_summary_claim
summary_tts_attempt x ledger claim =
    elim (validate_summary_claim x claim >>= (λ checked. to_i64 claim.generation)) [
      | err e ↦ err e
      | ok generation ↦
          let unfinished : SummaryRow → Bool = λ row.
            summary_at claim.task_id generation row
            && (column_is claim.request_id row.request_id && is_active row.summary_state) in
          if not (exists_where unfinished ledger.summaries)
          then ok none
          else (elim (first_where (attempt_at claim.task_id generation) ledger.attempts) [
            | none ↦ ok none
            | some attempt ↦ ok (some attempt.attempt_state)
          ])
    ]

-- A claim that its own request holds.
abbrev pub own_claim : SummaryClaim → SummaryRow → Bool
own_claim claim row =
    summary_at claim.task_id claim.generation row
    && (column_is claim.request_id row.request_id
        && (column_is claim.request_id row.claim_id && is_active row.summary_state))

-- `INSERT … ON CONFLICT DO NOTHING`, and the state that stands.
unfoldable pub begin_summary_tts_attempt :
    External → Ledger → SummaryClaim → Ledger × Result StoreError SummaryTtsAttemptState
unfolding validate_summary_claim
begin_summary_tts_attempt x ledger claim =
    elim (validate_summary_claim x claim >>= (λ checked. to_i64 claim.generation)) [
      | err e ↦ (ledger, err e)
      | ok generation ↦
          let attempt : AttemptRow = record {
            task_id = claim.task_id;
            generation = generation;
            attempt_state = started;
          } in
          if not (exists_where (own_claim claim) ledger.summaries)
          then (ledger, err summary_tts_attempt_changed)
          else (elim (first_where (attempt_at claim.task_id generation) ledger.attempts) [
            | some standing ↦ (ledger, ok standing.attempt_state)
            | none ↦ (record ledger { attempts = ledger.attempts ++ (attempt ∷ []) }, ok started)
          ])
    ]

unfoldable pub ambiguous_row : AttemptRow → AttemptRow
ambiguous_row row = record row { attempt_state = ambiguous }

unfoldable pub mark_summary_tts_ambiguous :
    External → Ledger → SummaryClaim → Ledger × Result StoreError (Unit {0})
unfolding validate_summary_claim ambiguous_row
mark_summary_tts_ambiguous x ledger claim =
    elim (validate_summary_claim x claim >>= (λ checked. to_i64 claim.generation)) [
      | err e ↦ (ledger, err e)
      | ok generation ↦
          let found : AttemptRow → Bool = λ row.
            attempt_at claim.task_id generation row
            && exists_where (own_claim claim) ledger.summaries in
          if count_where found ledger.attempts == 1
          then (
            record ledger { attempts = update_where found ambiguous_row ledger.attempts },
            ok tt,
          )
          else (
            record ledger { attempts = update_where found ambiguous_row ledger.attempts },
            err summary_tts_attempt_changed,
          )
    ]
