-- ===== src/Store/Summaries/Pending.antt =====
-- What a new claim of a summary holds.
use codex_keyboard_windows.Base.{
  ◌+◌, ◌^◌, ◌≤◌, ◌≡◌, ◌∙◌, refl, sym, ap, subst, false, not, ◌&&◌, Option, none, some, List, [],
  ◌∷◌, length, take, arith, leb, ltb, ◌==◌, ok, err, Bool-cases, Option-cases, Result-cases, inl,
  inr,
}
use codex_keyboard_windows.Store.{
  Text, text_eq, text_eq_refl, External, invalid_summary_state, summary_generation_out_of_range,
  i64_bound,
}
use codex_keyboard_windows.Store.Tables.{select_where, first_where, count_where}
use codex_keyboard_windows.Store.Ledger.{CompletionRow, SummaryRow, Ledger}
use codex_keyboard_windows.Store.Mailbox.{
  UnreadSummary, query_current_unread, unread_of, covered_by,
}
use codex_keyboard_windows.Store.Playback.{is_current}
use codex_keyboard_windows.Store.Summaries.{
  SummaryClaim, claimed, inserted, other_task, validate_summary_request, validate_summary_claim,
  PendingSummaryCompletion, uncovered, collect, query_pending_summary_completions,
}
use codex_keyboard_windows.Store.Summaries.Claim.{last_generation, insert_claim, claim_new}
use codex_keyboard_windows.Store.Summaries.Collect.{IsCollected, collect-IsCollected}

-- The unread summary of a task is of that task.
unread_of-other_task :
    (ledger : Ledger) (task_id : Text) (row : SummaryRow) (previous : Option UnreadSummary)
    → unread_of ledger task_id row ≡ ok previous
    → other_task task_id previous ≡ false
unfolding unread_of
unread_of-other_task ledger task_id row none read = refl
unread_of-other_task ledger task_id row (some previous) read =
    elim (Option-cases row.cache_object) [
      | inl missing ↦
          let clash : err invalid_summary_state ≡ ok (some previous) =
            sym (rw (unread_of, missing) refl) ∙ read in
          absurd (ground (arith, clash))
      | inr (cache_object, stored) ↦
          let coverage = count_where (covered_by row.task_id row.generation) ledger.completions in
          elim (Bool-cases (ltb 0 row.generation && (ltb 0 coverage && ltb coverage (2 ^ 32)))) [
            | inr out ↦
                let clash : err invalid_summary_state ≡ ok (some previous) =
                  sym (rw (unread_of, stored, out) refl) ∙ read in
                absurd (ground (arith, clash))
            | inl fits ↦
                let unread : UnreadSummary = record {
                  task_id = task_id;
                  generation = row.generation;
                  cache_object = cache_object;
                  coverage_count = coverage;
                } in
                let e : ok (some unread) ≡ ok (some previous) =
                  sym (rw (unread_of, stored, fits) refl) ∙ read in
                let same : unread ≡ previous = ground (arith, e) in
                subst (λ u. not (text_eq u.task_id task_id) ≡ false) same
                  (ground (arith, text_eq_refl task_id))
          ]
    ]

query_current_unread-other_task :
    (ledger : Ledger) (task_id : Text) (previous : Option UnreadSummary)
    → query_current_unread ledger task_id ≡ ok previous
    → other_task task_id previous ≡ false
unfolding query_current_unread
query_current_unread-other_task ledger task_id previous read =
    elim (Option-cases (first_where (is_current task_id) ledger.summaries)) [
      | inl missing ↦
          let e : ok none ≡ ok previous = sym (rw (query_current_unread, missing) refl) ∙ read in
          let same : none ≡ previous = ground (arith, e) in
          subst (λ p. other_task task_id p ≡ false) same refl
      | inr (row, found) ↦
          unread_of-other_task ledger task_id row previous
            (sym (rw (query_current_unread, found) refl) ∙ read)
    ]

claim_valid :
    (x : External) (claim : SummaryClaim)
    → validate_summary_request x claim.task_id claim.request_id ≡ ok tt
    → other_task claim.task_id claim.previous_unread ≡ false
    → 1 ≤ length claim.completions
    → IsCollected x 0 0 claim.completions
    → 1 ≤ claim.generation
    → validate_summary_claim x claim ≡ ok tt
unfolding validate_summary_claim
claim_valid x claim request mine nonempty c set =
    let numbered : (claim.generation == 0) ≡ false = ground (arith, set) in
    let some_left : (length claim.completions == 0) ≡ false = ground (arith, nonempty) in
    let few : ltb 32 (length claim.completions) ≡ false = ground (arith, c.few) in
    rw (validate_summary_claim, request, numbered, some_left, few, mine, c.valid) refl

-- A claim with completions within the limits is one that the store accepts back.
insert_claim-valid :
    (x : External) (ledger after : Ledger) (task_id request_id : Text)
    (previous : Option UnreadSummary) (completions : List PendingSummaryCompletion)
    (claim : SummaryClaim)
    → validate_summary_request x task_id request_id ≡ ok tt
    → other_task task_id previous ≡ false
    → 1 ≤ length completions
    → IsCollected x 0 0 completions
    → insert_claim ledger task_id request_id previous completions
      ≡ (after, ok (some (claimed claim)))
    → (validate_summary_claim x claim ≡ ok tt)
      × (claim.generation ≡ last_generation task_id ledger.summaries + 1)
unfolding insert_claim
insert_claim-valid x ledger after task_id request_id previous completions claim request mine
      nonempty c done =
    let generation = last_generation task_id ledger.summaries + 1 in
    elim (Bool-cases (leb i64_bound generation)) [
      | inl full ↦
          let same : insert_claim ledger task_id request_id previous completions
              ≡ (ledger, err summary_generation_out_of_range) =
            rw (insert_claim, full) refl in
          let clash : err summary_generation_out_of_range ≡ ok (some (claimed claim)) =
            ap (λ o. o.1) (sym same ∙ done) in
          absurd (ground (arith, clash))
      | inr fits ↦
          let new : SummaryClaim = record {
            outcome = inserted;
            request_id = request_id;
            task_id = task_id;
            generation = generation;
            previous_unread = previous;
            completions = completions;
          } in
          let same : (insert_claim ledger task_id request_id previous completions).1
              ≡ ok (some (claimed new)) =
            rw (insert_claim, fits) refl in
          let e : ok (some (claimed new)) ≡ ok (some (claimed claim)) =
            sym same ∙ ap (λ o. o.1) done in
          let it : new ≡ claim = ground (arith, e) in
          subst (λ k. (validate_summary_claim x k ≡ ok tt) × (k.generation ≡ generation)) it
            (claim_valid x new request mine nonempty c (omega arith), refl)
    ]

claim_pending :
    (x : External) (ledger after : Ledger) (task_id request_id : Text) (claim : SummaryClaim)
    (previous : Option UnreadSummary) (completions : List PendingSummaryCompletion)
    → validate_summary_request x task_id request_id ≡ ok tt
    → query_current_unread ledger task_id ≡ ok previous
    → collect x 0 0 (take 33 (select_where (uncovered task_id) ledger.completions)) ≡ ok completions
    → claim_new x ledger task_id request_id ≡ (after, ok (some (claimed claim)))
    → (validate_summary_claim x claim ≡ ok tt)
      × (claim.generation ≡ last_generation task_id ledger.summaries + 1)
unfolding claim_new query_pending_summary_completions
claim_pending x ledger after task_id request_id claim previous [] request unread pending done =
    let same : claim_new x ledger task_id request_id ≡ (ledger, ok none) =
      rw (claim_new, unread, pending) refl in
    let clash : ok none ≡ ok (some (claimed claim)) = ap (λ o. o.1) (sym same ∙ done) in
    absurd (ground (arith, clash))
claim_pending x ledger after task_id request_id claim previous (first ∷ rest) request unread pending
      done =
    let same : claim_new x ledger task_id request_id
        ≡ insert_claim ledger task_id request_id previous (first ∷ rest) =
      rw (claim_new, unread, pending) refl in
    let within =
      collect-IsCollected x 0 0 (take 33 (select_where (uncovered task_id) ledger.completions))
        (first ∷ rest) (omega arith) (λ z. refl) pending in
    insert_claim-valid x ledger after task_id request_id previous (first ∷ rest) claim request
      (query_current_unread-other_task ledger task_id previous unread) (omega arith) within
      (sym same ∙ done)

-- For a request that `validate_summary_request` accepts, a new claim of a summary passes
-- `validate_summary_claim`, the test of every later call on it (its completions are at least 1 and
-- at most 32, none empty or above 64 KiB, and together at most 1 MiB), and its generation is one
-- above the last of the task.
pub claim_new-validate_summary_claim :
    (x : External) (ledger after : Ledger) (task_id request_id : Text) (claim : SummaryClaim)
    → validate_summary_request x task_id request_id ≡ ok tt
    → claim_new x ledger task_id request_id ≡ (after, ok (some (claimed claim)))
    → (validate_summary_claim x claim ≡ ok tt)
      × (claim.generation ≡ last_generation task_id ledger.summaries + 1)
unfolding claim_new query_pending_summary_completions
claim_new-validate_summary_claim x ledger after task_id request_id claim request done =
    elim (Result-cases (query_current_unread ledger task_id)) [
      | inr (e, bad) ↦
          let same : claim_new x ledger task_id request_id ≡ (ledger, err e) =
            rw (claim_new, bad) refl in
          let clash : err e ≡ ok (some (claimed claim)) = ap (λ o. o.1) (sym same ∙ done) in
          absurd (ground (arith, clash))
      | inl (previous, unread) ↦
          let rows : List CompletionRow =
            take 33 (select_where (uncovered task_id) ledger.completions) in
          elim (Result-cases (collect x 0 0 rows)) [
            | inr (e, bad) ↦
                let same : claim_new x ledger task_id request_id ≡ (ledger, err e) =
                  rw (claim_new, unread, bad) refl in
                let clash : err e ≡ ok (some (claimed claim)) = ap (λ o. o.1) (sym same ∙ done) in
                absurd (ground (arith, clash))
            | inl (completions, pending) ↦
                claim_pending x ledger after task_id request_id claim previous completions request
                  unread pending done
          ]
    ]
