-- ===== src/Store/Summaries/Collect.antt =====
-- The loop of `query_pending_summary_completions` in app/host/src/store.rs, and the limits of a claim.
use codex_keyboard_windows.Base.{
  ℕ, ◌+◌, ◌*◌, ◌≤◌, ◌≡◌, ◌∙◌, refl, sym, subst, Bool, true, false, not, ◌||◌, ◌&&◌, List, [], ◌∷◌,
  length, arith, ltb, ◌==◌, ◌!=◌, Result, ok, err, ◌>>=◌, Bool-cases, inl, inr, >>=-eq-ok,
}
use codex_keyboard_windows.Store.{StoreError, External, invalid_summary_state, is_empty}
use codex_keyboard_windows.Store.Ledger.{CompletionRow}
use codex_keyboard_windows.Store.Summaries.{PendingSummaryCompletion, completions_valid, collect}

-- The completions that a claim collects behind `count` others are within the limits of a claim.
pub record IsCollected (x : External) (count total_bytes : ℕ)
    (completions : List PendingSummaryCompletion) : Type 0 where
  pub few : count + length completions ≤ 32
  pub valid : completions_valid x total_bytes completions ≡ true

-- The tests of the loop on a row.
abbrev bad_row : External → CompletionRow → Bool
bad_row x row =
    not (x.is_uuid row.completion_id)
    || (is_empty row.turn_pack || ltb (64 * 1024) (length row.turn_pack))

module _ (x : External) (count total : ℕ) (row : CompletionRow) (rest : List CompletionRow) where
  collect_full : (count == 32) ≡ true → collect x count total (row ∷ rest) ≡ ok []
  unfolding collect
  collect_full full = rw (collect, full) refl

  module _ (room : (count == 32) ≡ false) where
    collect_bad :
        bad_row x row ≡ true → collect x count total (row ∷ rest) ≡ err invalid_summary_state
    unfolding collect
    collect_bad bad = rw (collect, room, bad) refl

    collect_over :
        bad_row x row ≡ false
        → ((count != 0) && ltb (1024 * 1024) (total + length row.turn_pack)) ≡ true
        → collect x count total (row ∷ rest) ≡ ok []
    unfolding collect
    collect_over good over = rw (collect, room, good, over) refl

    collect_more :
        bad_row x row ≡ false
        → ((count != 0) && ltb (1024 * 1024) (total + length row.turn_pack)) ≡ false
        → collect x count total (row ∷ rest) ≡ (
            collect x (count + 1) (total + length row.turn_pack) rest >>= (λ cs.
              ok (record { completion_id = row.completion_id; turn_pack = row.turn_pack } ∷ cs)))
    unfolding collect
    collect_more good fits = rw (collect, room, good, fits) refl

next_small :
    (x : External) (count total : ℕ) (row : CompletionRow)
    → (count == 32) ≡ false
    → bad_row x row ≡ false
    → ((count != 0) && ltb (1024 * 1024) (total + length row.turn_pack)) ≡ false
    → (count ≡ 0 → total ≡ 0)
    → total + length row.turn_pack ≤ 1024 * 1024
next_small x count total row room good fits start = elim (Bool-cases (count == 0)) [
  | inl first ↦ let e : count ≡ 0 = ground (arith, first) in ground (arith, start e, good)
  | inr later ↦ ground (arith, later, fits)
]

pub collect-IsCollected :
    (x : External) (count total_bytes : ℕ) (rows : List CompletionRow)
    (completions : List PendingSummaryCompletion)
    → count ≤ 32
    → (count ≡ 0 → total_bytes ≡ 0)
    → collect x count total_bytes rows ≡ ok completions
    → IsCollected x count total_bytes completions
unfolding collect completions_valid
collect-IsCollected x count total [] completions few start done =
    let same : [] ≡ completions = ground (arith, done) in
    subst (λ cs. IsCollected x count total cs) same
      (record { few = omega (arith, few); valid = refl })
collect-IsCollected x count total (row ∷ rest) completions few start done =
    let next : ℕ = total + length row.turn_pack in
    let one : PendingSummaryCompletion = record {
      completion_id = row.completion_id;
      turn_pack = row.turn_pack;
    } in
    let stops : ◌≡◌ {A = Result StoreError (List PendingSummaryCompletion)} (ok []) (ok completions)
        → IsCollected x count total completions =
      λ e.
        let same : [] ≡ completions = ground (arith, e) in
        subst (λ cs. IsCollected x count total cs) same
          (record { few = omega (arith, few); valid = refl }) in
    elim (Bool-cases (count == 32)) [
      | inl full ↦ stops (sym (collect_full x count total row rest full) ∙ done)
      | inr room ↦ elim (Bool-cases (bad_row x row)) [
        | inl bad ↦
            let clash : err invalid_summary_state ≡ ok completions =
              sym (collect_bad x count total row rest room bad) ∙ done in
            absurd (ground (arith, clash))
        | inr good ↦ elim (Bool-cases ((count != 0) && ltb (1024 * 1024) next)) [
          | inl over ↦ stops (sym (collect_over x count total row rest room good over) ∙ done)
          | inr fits ↦
              let more = sym (collect_more x count total row rest room good fits) ∙ done in
              let (later, e, f) =
                >>=-eq-ok (collect x (count + 1) next rest) (λ cs. ok (one ∷ cs)) more in
              let same : one ∷ later ≡ completions = ground (arith, f) in
              let behind =
                collect-IsCollected x (count + 1) next rest later (ground (arith, room, few))
                  (λ z. absurd (omega (arith, z))) e in
              let small : next ≤ 1024 * 1024 = next_small x count total row room good fits start in
              subst (λ cs. IsCollected x count total cs) same
                (record {
                  few = omega (arith, behind.few);
                  valid = ground (arith, good, small, behind.valid);
                })
        ]
      ]
    ]
