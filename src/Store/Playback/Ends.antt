-- ===== src/Store/Playback/Ends.antt =====
-- `finish_summary_playback` and `cancel_summary_playback` of app/host/src/store.rs, after one another.
use codex_keyboard_windows.Base.{
  ℕ, ◌≡◌, ◌∙◌, refl, sym, ap, subst, true, false, Option, none, some, [], ◌∷◌, ◌++◌, arith,
  append-nil, ◌==◌, ◌!=◌, Result, ok, err, Bool-cases, Result-cases, inl, inr,
}
use codex_keyboard_windows.Store.{Text, text_eq_refl, StoreError, External, invalid_summary_state}
use codex_keyboard_windows.Store.Tables.{
  exists_where, count_where, update_where, delete_where, first_where-none, count_where_none,
  count_where_zero, count_where-append, delete_where_none, exists_where_imp,
}
use codex_keyboard_windows.Store.Ledger.{
  SummaryState, unheard, leased, heard, superseded, generating, interrupted, abandoned, SummaryRow,
  LeaseRow, Ledger, is_unheard, is_null,
}
use codex_keyboard_windows.Store.Playback.{
  SummaryPlaybackLease, unheard_at, leased_at, lease_of, leased_row, lease_row, playback_lease,
  acquire_summary_playback, validate_playback_lease, is_lease, released_row,
  cancel_summary_playback, heard_row, plays, finish_summary_playback,
}
use codex_keyboard_windows.Store.Tables.Counts.{
  exists_where-delete_where, delete_where-append, update_where-undone,
}
use codex_keyboard_windows.Store.Playback.Leases.{has_lease_id, IsLeases}
use codex_keyboard_windows.Store.Playback.Started.{started}
use codex_keyboard_windows.Store.Playback.Acquire.{
  nothing, refused, again, takes, acquire_summary_playback-Acquire,
}

module _ (x : External) (ledger : Ledger) (lease : SummaryPlaybackLease)
    (good : validate_playback_lease x lease ≡ ok tt)
    (gone : exists_where (is_lease lease) ledger.leases ≡ false) where
  finish_gone : finish_summary_playback x ledger lease ≡ (ledger, ok false)
  unfolding finish_summary_playback
  finish_gone = rw (finish_summary_playback, good, gone) refl

  cancel_gone : cancel_summary_playback x ledger lease ≡ (ledger, ok false)
  unfolding cancel_summary_playback
  cancel_gone =
      let zero : (count_where (is_lease lease) ledger.leases == 1) ≡ false =
        ground (arith, count_where_none (is_lease lease) ledger.leases gone) in
      rw (cancel_summary_playback, good, zero)
        (ap (λ rows. (record ledger { leases = rows }, ok false))
          (delete_where_none (is_lease lease) ledger.leases gone))

finish_gone_after :
    (x : External) (ledger after : Ledger) (lease : SummaryPlaybackLease)
    → finish_summary_playback x ledger lease ≡ (after, ok true)
    → (validate_playback_lease x lease ≡ ok tt)
      × (exists_where (is_lease lease) after.leases ≡ false)
unfolding finish_summary_playback
finish_gone_after x ledger after lease ended =
    elim (Result-cases (validate_playback_lease x lease)) [
      | inr (e, bad) ↦
          let same : finish_summary_playback x ledger lease ≡ (ledger, err e) =
            rw (finish_summary_playback, bad) refl in
          let clash : err e ≡ ok true = ap (λ o. o.1) (sym same ∙ ended) in
          absurd (ground (arith, clash))
      | inl good ↦ elim (Bool-cases (exists_where (is_lease lease) ledger.leases)) [
        | inr missing ↦
            let same : finish_summary_playback x ledger lease ≡ (ledger, ok false) =
              rw (finish_summary_playback, good.1, missing) refl in
            let clash : ok false ≡ ok true = ap (λ o. o.1) (sym same ∙ ended) in
            absurd (ground (arith, clash))
        | inl exact ↦ elim (Bool-cases (count_where (plays lease) ledger.summaries != 1)) [
          | inl changed ↦
              let same : finish_summary_playback x ledger lease
                  ≡ (ledger, err invalid_summary_state) =
                rw (finish_summary_playback, good.1, exact, changed) refl in
              let clash : err invalid_summary_state ≡ ok true = ap (λ o. o.1) (sym same ∙ ended) in
              absurd (ground (arith, clash))
          | inr one ↦
              let ledger' : Ledger = record ledger {
                summaries = update_where (plays lease) heard_row ledger.summaries;
                leases = delete_where (has_lease_id lease.lease) ledger.leases;
              } in
              let same : finish_summary_playback x ledger lease ≡ (ledger', ok true) =
                rw (finish_summary_playback, good.1, exact, one) refl in
              let left : delete_where (has_lease_id lease.lease) ledger.leases ≡ after.leases =
                ap (λ o. o.0.leases) (sym same ∙ ended) in
              (
                good.1,
                subst (λ rows. exists_where (is_lease lease) rows ≡ false) left
                    (exists_where_imp (is_lease lease) (has_lease_id lease.lease)
                      (delete_where (has_lease_id lease.lease) ledger.leases)
                      (λ r h. ground (arith, h))
                      (exists_where-delete_where (has_lease_id lease.lease) ledger.leases)),
              )
        ]
      ]
    ]

-- After a playback was finished, finishing it again or cancelling it reports that there is no such
-- lease and changes nothing.
pub finish_summary_playback-twice :
    (x : External) (ledger after : Ledger) (lease : SummaryPlaybackLease)
    → finish_summary_playback x ledger lease ≡ (after, ok true)
    → (finish_summary_playback x after lease ≡ (after, ok false))
      × (cancel_summary_playback x after lease ≡ (after, ok false))
finish_summary_playback-twice x ledger after lease ended =
    let (good, gone) = finish_gone_after x ledger after lease ended in
    (finish_gone x after lease good gone, cancel_gone x after lease good gone)

unheard_is : (s : SummaryState) → is_unheard s ≡ true → s ≡ unheard
unheard_is unheard h = refl
unheard_is leased h = absurd (ground (arith, h))
unheard_is heard h = absurd (ground (arith, h))
unheard_is superseded h = absurd (ground (arith, h))
unheard_is generating h = absurd (ground (arith, h))
unheard_is interrupted h = absurd (ground (arith, h))
unheard_is abandoned h = absurd (ground (arith, h))

released-leased_row :
    (t : Text) (g : ℕ) (r : SummaryRow)
    → unheard_at t g r ≡ true
    → (leased_at t g (leased_row r) ≡ true) × (released_row (leased_row r) ≡ r)
unfolding released_row leased_row
released-leased_row t g r h =
    let current : is_null r.superseded_by ≡ true = ground (arith, h) in
    let waits : is_unheard r.summary_state ≡ true = ground (arith, h) in
    (
      ground (arith, h),
      rw current
          (ap (λ s. record r { summary_state = s }) (sym (unheard_is r.summary_state waits))),
    )

-- The lease that was just taken.
module _ (x : External) (ledger : Ledger) (summary : SummaryRow)
    (lease slot request_generation connection_generation : ℕ) (cache_object : Text)
    (free : exists_where (lease_of summary.task_id summary.generation) ledger.leases ≡ false)
    (fresh : exists_where (has_lease_id lease) ledger.leases ≡ false)
    (one : count_where (unheard_at summary.task_id summary.generation) ledger.summaries ≡ 1)
    (l : IsLeases ledger) where
  abbrev taken : SummaryPlaybackLease
  taken = playback_lease summary cache_object lease slot request_generation connection_generation

  abbrev taken_row : LeaseRow
  taken_row = lease_row summary lease slot request_generation connection_generation

  is_lease-taken : is_lease taken taken_row ≡ true
  unfolding playback_lease lease_row
  is_lease-taken = ground (arith, text_eq_refl summary.task_id)

  none_before : exists_where (is_lease taken) ledger.leases ≡ false
  unfolding playback_lease
  none_before =
      exists_where_imp (is_lease taken) (has_lease_id lease) ledger.leases
        (λ r h. ground (arith, h)) fresh

  taken_count : count_where (is_lease taken) (ledger.leases ++ (taken_row ∷ [])) ≡ 1
  unfolding count_where
  taken_count = ground (
    arith,
    count_where-append (is_lease taken) ledger.leases (taken_row ∷ []),
    count_where_none (is_lease taken) ledger.leases none_before,
    is_lease-taken,
  )

  leases_back : delete_where (is_lease taken) (ledger.leases ++ (taken_row ∷ [])) ≡ ledger.leases
  unfolding delete_where
  leases_back =
      let last : delete_where (is_lease taken) (taken_row ∷ []) ≡ [] =
        rw (delete_where, is_lease-taken) refl in
      delete_where-append (is_lease taken) ledger.leases (taken_row ∷ [])
      ∙ ap (λ rows. rows ++ delete_where (is_lease taken) (taken_row ∷ []))
          (delete_where_none (is_lease taken) ledger.leases none_before)
      ∙ ap (λ rows. ledger.leases ++ rows) last
      ∙ append-nil ledger.leases

  summaries_back :
      update_where
        (leased_at summary.task_id summary.generation)
        released_row
        (update_where (unheard_at summary.task_id summary.generation) leased_row ledger.summaries)
      ≡ ledger.summaries
  summaries_back =
      let T : Text = summary.task_id in
      let G : ℕ = summary.generation in
      let zero : count_where (leased_at T G) ledger.summaries ≡ 0 =
        l.paired T G ∙ count_where_none (lease_of T G) ledger.leases free in
      update_where-undone (unheard_at T G) (leased_at T G) leased_row released_row ledger.summaries
        (released-leased_row T G) (count_where_zero (leased_at T G) ledger.summaries zero)

  cancel_taken :
      validate_playback_lease x taken ≡ ok tt
      → cancel_summary_playback x
          (started ledger summary lease slot request_generation connection_generation free fresh
            one)
          taken
        ≡ (ledger, ok true)
  unfolding cancel_summary_playback playback_lease
  cancel_taken good =
      let counted : (count_where (is_lease taken) (ledger.leases ++ (taken_row ∷ [])) == 1) ≡ true =
        ground (arith, taken_count) in
      rw (cancel_summary_playback, good, counted)
        (λ i. (record ledger { summaries = summaries_back i; leases = leases_back i }, ok true))

returned :
    (a b : SummaryPlaybackLease)
    → ◌≡◌ {A = Result StoreError (Option SummaryPlaybackLease)} (ok (some a)) (ok (some b))
    → a ≡ b
returned a b e = ground (arith, e)

-- On tables in order, when an acquisition returns a lease that `validate_playback_lease` accepts,
-- of a summary that had none, its cancellation succeeds and restores every table as it was.
pub acquire_summary_playback-cancel :
    (x : External) (ledger after : Ledger) (slot request_generation connection_generation lease : ℕ)
    (held : SummaryPlaybackLease)
    → IsLeases ledger
    → acquire_summary_playback ledger slot request_generation connection_generation lease
      ≡ (after, ok (some held))
    → exists_where (lease_of held.task_id held.summary_generation) ledger.leases ≡ false
    → validate_playback_lease x held ≡ ok tt
    → cancel_summary_playback x after held ≡ (ledger, ok true)
unfolding playback_lease
acquire_summary_playback-cancel x ledger after slot request_generation connection_generation lease
      held l got free good =
    elim (acquire_summary_playback-Acquire ledger lease slot request_generation
      connection_generation) [
        | refused e same ↦
            let clash : err e ≡ ok (some held) = ap (λ o. o.1) (sym same ∙ got) in
            absurd (ground (arith, clash))
        | nothing same ↦
            let clash : ok none ≡ ok (some held) = ap (λ o. o.1) (sym same ∙ got) in
            absurd (ground (arith, clash))
        | again summary existing cache_object known matches same ↦
            let e =
              returned
                (playback_lease summary cache_object lease slot request_generation
                  connection_generation)
                held (ap (λ o. o.1) (sym same ∙ got)) in
            let free' : exists_where (lease_of summary.task_id summary.generation) ledger.leases
                ≡ false =
              subst
                (λ p. exists_where (lease_of p.task_id p.summary_generation) ledger.leases ≡ false)
                (sym e) free in
            let clash : none ≡ some existing =
              sym
                (first_where-none (lease_of summary.task_id summary.generation) ledger.leases free')
              ∙ known in
            absurd (ground (arith, clash))
        | takes summary cache_object free' fresh one stored same ↦
            let mine =
              playback_lease summary cache_object lease slot request_generation
                connection_generation in
            let e = returned mine held (ap (λ o. o.1) (sym same ∙ got)) in
            let good' : validate_playback_lease x mine ≡ ok tt =
              subst (λ p. validate_playback_lease x p ≡ ok tt) (sym e) good in
            let undone =
              cancel_taken x ledger summary lease slot request_generation connection_generation
                cache_object free' fresh one l good' in
            subst (λ p. cancel_summary_playback x after p ≡ (ledger, ok true)) e
              (subst (λ t. cancel_summary_playback x t mine ≡ (ledger, ok true))
                (ap (λ o. o.0) (sym same ∙ got)) undone)
      ]
