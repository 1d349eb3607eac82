-- ===== src/Store/Playback/Acquire.antt =====
-- Each outcome of `Store::acquire_summary_playback`.
use codex_keyboard_windows.Base.{
  ℕ, ◌≡◌, refl, true, false, ◌||◌, Option, none, some, arith, leb, ◌==◌, ◌!=◌, Result, ok, err,
  Bool-cases, Option-cases, Result-cases, inl, inr,
}
use codex_keyboard_windows.Store.{
  Text, StoreError, sqlite, playback_busy, invalid_playback_lease, validate_slot, i64_bound,
}
use codex_keyboard_windows.Store.Tables.{
  first_where, exists_where, count_where, first_where-exists_where,
}
use codex_keyboard_windows.Store.Ledger.{SummaryRow, LeaseRow, Ledger, is_unheard, bound_to}
use codex_keyboard_windows.Store.Playback.{
  SummaryPlaybackLease, is_current, unheard_at, lease_of, playback_lease, start_lease,
  acquire_summary, acquire_current, acquire_summary_playback,
}
use codex_keyboard_windows.Store.Playback.{same_request}
use codex_keyboard_windows.Store.Playback.Leases.{has_lease_id}
use codex_keyboard_windows.Store.Playback.Started.{started}

-- The request is refused, there is nothing to play, the same lease stands already, or a summary is
-- leased.
pub data Acquire (ledger : Ledger) (lease slot request_generation connection_generation : ℕ)
    (outcome : Ledger × Result StoreError (Option SummaryPlaybackLease)) : Type 0 where
  refused :
      (e : StoreError)
      → outcome ≡ (ledger, err e)
      → Acquire ledger lease slot request_generation connection_generation outcome
  nothing :
      outcome ≡ (ledger, ok none)
      → Acquire ledger lease slot request_generation connection_generation outcome
  again :
      (summary : SummaryRow) (existing : LeaseRow) (cache_object : Text)
      → first_where (lease_of summary.task_id summary.generation) ledger.leases ≡ some existing
      → same_request existing lease slot request_generation connection_generation ≡ true
      → outcome ≡ (
        ledger,
        ok (
            some (
              playback_lease summary cache_object lease slot request_generation
                connection_generation)),
      )
      → Acquire ledger lease slot request_generation connection_generation outcome
  takes :
      (summary : SummaryRow) (cache_object : Text)
      (free : exists_where (lease_of summary.task_id summary.generation) ledger.leases ≡ false)
      (fresh : exists_where (has_lease_id lease) ledger.leases ≡ false)
      (one : count_where (unheard_at summary.task_id summary.generation) ledger.summaries ≡ 1)
      → summary.cache_object ≡ some cache_object
      → outcome ≡ (
        started ledger summary lease slot request_generation connection_generation free fresh one,
        ok (
            some (
              playback_lease summary cache_object lease slot request_generation
                connection_generation)),
      )
      → Acquire ledger lease slot request_generation connection_generation outcome

module _ (ledger : Ledger) (lease slot request_generation connection_generation : ℕ) where
  start_lease-Acquire :
      (summary : SummaryRow) (cache_object : Text)
      → summary.cache_object ≡ some cache_object
      → exists_where (lease_of summary.task_id summary.generation) ledger.leases ≡ false
      → Acquire ledger lease slot request_generation connection_generation (
          start_lease ledger summary cache_object lease slot request_generation
            connection_generation)
  unfolding start_lease
  start_lease-Acquire summary cache_object stored free =
      elim (Bool-cases
        (count_where (unheard_at summary.task_id summary.generation) ledger.summaries != 1)) [
          | inl changed ↦ refused playback_busy (rw (start_lease, changed) refl)
          | inr one ↦ elim (Bool-cases (exists_where (has_lease_id lease) ledger.leases)) [
            | inl known ↦ refused sqlite (rw (start_lease, one, known) refl)
            | inr fresh ↦
                takes summary cache_object free fresh (ground (arith, one)) stored
                  (rw (start_lease, one, fresh) refl)
          ]
        ]

  acquire_current-Acquire :
      (task_id : Text)
      → Acquire ledger lease slot request_generation connection_generation
          (acquire_current ledger task_id lease slot request_generation connection_generation)
  unfolding acquire_current acquire_summary
  acquire_current-Acquire task_id =
      elim (Option-cases (first_where (is_current task_id) ledger.summaries)) [
        | inl missing ↦ nothing (rw (acquire_current, missing) refl)
        | inr (summary, found) ↦ elim (Option-cases summary.cache_object) [
          | inl missing ↦ refused sqlite (rw (acquire_current, found, missing) refl)
          | inr (cache_object, stored) ↦
              elim (Option-cases
                (first_where (lease_of summary.task_id summary.generation) ledger.leases)) [
                  | inr (existing, held) ↦
                      elim (Bool-cases (
                        same_request existing lease slot request_generation
                          connection_generation)) [
                            | inl same ↦ again summary existing cache_object held same (
                                rw (acquire_current, found, stored, acquire_summary, held, same)
                                  refl)
                            | inr other ↦ refused playback_busy (
                                rw (acquire_current, found, stored, acquire_summary, held, other)
                                  refl)
                          ]
                  | inl free ↦ elim (Bool-cases (is_unheard summary.summary_state)) [
                    | inr busy ↦
                        refused playback_busy
                          (rw (acquire_current, found, stored, acquire_summary, free, busy) refl)
                    | inl waits ↦
                        rw (acquire_current, found, stored, acquire_summary, free, waits)
                          (start_lease-Acquire summary cache_object stored (
                            first_where-exists_where (lease_of summary.task_id summary.generation)
                              ledger.leases free))
                  ]
                ]
        ]
      ]

  -- An acquisition has one of those outcomes.
  pub acquire_summary_playback-Acquire :
      Acquire ledger lease slot request_generation connection_generation
        (acquire_summary_playback ledger slot request_generation connection_generation lease)
  unfolding acquire_summary_playback
  acquire_summary_playback-Acquire =
      let bad_number =
        (request_generation == 0)
        || ((connection_generation == 0) || ((lease == 0) || leb i64_bound lease)) in
      elim (Result-cases (validate_slot slot)) [
        | inr bad ↦ refused bad.0 (rw (acquire_summary_playback, bad.1) refl)
        | inl good ↦ elim (Bool-cases bad_number) [
          | inl bad ↦
              refused invalid_playback_lease (rw (acquire_summary_playback, good.1, bad) refl)
          | inr passes ↦ elim (Option-cases (first_where (bound_to slot) ledger.bindings)) [
            | inl unbound ↦ nothing (rw (acquire_summary_playback, good.1, passes, unbound) refl)
            | inr bound ↦
                rw (acquire_summary_playback, good.1, passes, bound.1)
                  (acquire_current-Acquire bound.0.task_id)
          ]
        ]
      ]
