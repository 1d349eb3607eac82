-- ===== src/Store/Playback.antt =====
-- app/host/src/store.rs: a summary that is played is leased, and the lease ends with the playback.
pub mod Leases
pub mod Kept
pub mod Acquire
pub mod Calls
pub mod Ends
pub mod Started
use codex_keyboard_windows.Base.{
  ℕ, ◌^◌, ◌<◌, Bool, true, false, not, ◌||◌, ◌&&◌, Option, none, some, List, [], ◌∷◌, ◌++◌, length,
  leb, ltb, ◌==◌, ◌!=◌, Result, ok, err, ◌>>◌, reject_if, if◌then◌else◌,
}
use codex_keyboard_windows.Cache.{CacheId, cache_id_eq, for_task, from_reference}
use codex_keyboard_windows.Store.{
  Text, text_eq, StoreError, External, invalid_playback_lease, playback_busy, invalid_summary_state,
  sqlite, i64_bound, validate_slot,
}
use codex_keyboard_windows.Store.Tables.{
  first_where, exists_where, count_where, update_where, delete_where,
}
use codex_keyboard_windows.Store.Ledger.{
  Binding, SummaryState, unheard, leased, heard, superseded, SummaryRow, LeaseRow, Ledger,
  is_unheard, is_leased, is_null, bound_to, summary_at,
}

pub record SummaryPlaybackLease : Type 0 where
  pub lease : ℕ
  pub slot : ℕ
  pub task_id : Text
  pub summary_generation : ℕ
  pub request_generation : ℕ
  pub connection_generation : ℕ
  pub cache_object : Text

-- `state IN ('unheard', 'leased') AND superseded_by IS NULL` in a task.
abbrev pub is_current : Text → SummaryRow → Bool
is_current task_id row =
    text_eq row.task_id task_id
    && ((is_unheard row.summary_state || is_leased row.summary_state) && is_null row.superseded_by)

-- `task_id = ? AND generation = ? AND state = 'unheard' AND superseded_by IS NULL`.
abbrev pub unheard_at : Text → ℕ → SummaryRow → Bool
unheard_at task_id generation row =
    summary_at task_id generation row && (is_unheard row.summary_state && is_null row.superseded_by)

-- `task_id = ? AND generation = ? AND state = 'leased'`.
abbrev pub leased_at : Text → ℕ → SummaryRow → Bool
leased_at task_id generation row = summary_at task_id generation row && is_leased row.summary_state

abbrev pub lease_of : Text → ℕ → LeaseRow → Bool
lease_of task_id generation row =
    text_eq row.task_id task_id && (row.summary_generation == generation)

unfoldable pub leased_row : SummaryRow → SummaryRow
leased_row row = record row { summary_state = leased }

unfoldable pub same_request : LeaseRow → ℕ → ℕ → ℕ → ℕ → Bool
same_request row lease slot request_generation connection_generation =
    (row.lease_id == lease)
    && ((row.slot == slot)
        && ((row.request_generation == request_generation)
            && (row.connection_generation == connection_generation)))

unfoldable pub playback_lease : SummaryRow → Text → ℕ → ℕ → ℕ → ℕ → SummaryPlaybackLease
playback_lease summary cache_object lease slot request_generation connection_generation = record {
  lease = lease;
  slot = slot;
  task_id = summary.task_id;
  summary_generation = summary.generation;
  request_generation = request_generation;
  connection_generation = connection_generation;
  cache_object = cache_object;
}

unfoldable pub lease_row : SummaryRow → ℕ → ℕ → ℕ → ℕ → LeaseRow
lease_row summary lease slot request_generation connection_generation = record {
  lease_id = lease;
  task_id = summary.task_id;
  summary_generation = summary.generation;
  slot = slot;
  request_generation = request_generation;
  connection_generation = connection_generation;
}

-- The summary is unheard, and no lease of it stands. A lease id that is taken breaks the key of the
-- table.
unfoldable pub start_lease :
    Ledger
    → SummaryRow
    → Text
    → ℕ
    → ℕ
    → ℕ
    → ℕ
    → Ledger × Result StoreError (Option SummaryPlaybackLease)
unfolding leased_row lease_row playback_lease
start_lease ledger summary cache_object lease slot request_generation connection_generation =
    let waits = unheard_at summary.task_id summary.generation in
    if count_where waits ledger.summaries != 1
    then (ledger, err playback_busy)
    else (if exists_where (λ row. row.lease_id == lease) ledger.leases
        then (ledger, err sqlite)
        else (
          record ledger {
            summaries = update_where waits leased_row ledger.summaries;
            leases =
                ledger.leases
                ++ (lease_row summary lease slot request_generation connection_generation ∷ []);
          },
          ok (
              some (
                playback_lease summary cache_object lease slot request_generation
                  connection_generation)),
        ))

unfoldable pub acquire_summary :
    Ledger
    → SummaryRow
    → Text
    → ℕ
    → ℕ
    → ℕ
    → ℕ
    → Ledger × Result StoreError (Option SummaryPlaybackLease)
unfolding start_lease same_request playback_lease
acquire_summary ledger summary cache_object lease slot request_generation connection_generation =
    elim (first_where (lease_of summary.task_id summary.generation) ledger.leases) [
      | some existing ↦ (
        ledger,
        if same_request existing lease slot request_generation connection_generation
            then ok (
                some (
                  playback_lease summary cache_object lease slot request_generation
                    connection_generation))
            else err playback_busy,
      )
      | none ↦
          if not (is_unheard summary.summary_state)
          then (ledger, err playback_busy)
          else start_lease ledger summary cache_object lease slot request_generation
              connection_generation
    ]

-- A current summary without its object cannot be read.
unfoldable pub acquire_current :
    Ledger → Text → ℕ → ℕ → ℕ → ℕ → Ledger × Result StoreError (Option SummaryPlaybackLease)
unfolding acquire_summary
acquire_current ledger task_id lease slot request_generation connection_generation =
    elim (first_where (is_current task_id) ledger.summaries) [
      | none ↦ (ledger, ok none)
      | some summary ↦ elim summary.cache_object [
        | none ↦ (ledger, err sqlite)
        | some cache_object ↦
            acquire_summary ledger summary cache_object lease slot request_generation
              connection_generation
      ]
    ]

unfoldable pub acquire_summary_playback :
    Ledger → ℕ → ℕ → ℕ → ℕ → Ledger × Result StoreError (Option SummaryPlaybackLease)
unfolding acquire_current
acquire_summary_playback ledger slot request_generation connection_generation lease =
    elim (validate_slot slot) [
      | err e ↦ (ledger, err e)
      | ok checked ↦
          if (request_generation == 0)
            || ((connection_generation == 0) || ((lease == 0) || leb i64_bound lease))
          then (ledger, err invalid_playback_lease)
          else (elim (first_where (bound_to slot) ledger.bindings) [
            | none ↦ (ledger, ok none)
            | some binding ↦
                acquire_current ledger binding.task_id lease slot request_generation
                  connection_generation
          ])
    ]

-- `from_reference(..).ok().zip(for_task(..).ok()).is_some_and(|(actual, expected)| actual == expected)`.
unfoldable pub cache_matches : External → SummaryPlaybackLease → Bool
cache_matches x lease = elim (from_reference lease.cache_object) [
  | err e ↦ false
  | ok actual ↦ elim (for_task x.sha256 lease.task_id lease.summary_generation) [
    | err e ↦ false
    | ok expected ↦ cache_id_eq actual expected
  ]
]

unfoldable pub validate_playback_lease :
    External → SummaryPlaybackLease → Result StoreError (Unit {0})
unfolding cache_matches
validate_playback_lease x lease =
    validate_slot lease.slot
    >> reject_if
        ((lease.lease == 0)
          || (leb i64_bound lease.lease
              || ((lease.summary_generation == 0)
                  || (leb i64_bound lease.summary_generation
                      || ((lease.request_generation == 0)
                          || ((lease.connection_generation == 0)
                              || (not (x.is_uuid lease.task_id)
                                  || not (cache_matches x lease))))))))
        invalid_playback_lease

-- The row of the lease in every column.
abbrev pub is_lease : SummaryPlaybackLease → LeaseRow → Bool
is_lease lease row =
    (row.lease_id == lease.lease)
    && (lease_of lease.task_id lease.summary_generation row
        && ((row.slot == lease.slot)
            && ((row.request_generation == lease.request_generation)
                && (row.connection_generation == lease.connection_generation))))

-- `CASE WHEN superseded_by IS NULL THEN 'unheard' ELSE 'superseded' END`.
unfoldable pub released_row : SummaryRow → SummaryRow
released_row row = record row {
  summary_state = if is_null row.superseded_by then unheard else superseded;
}

unfoldable pub cancel_summary_playback :
    External → Ledger → SummaryPlaybackLease → Ledger × Result StoreError Bool
unfolding released_row validate_playback_lease
cancel_summary_playback x ledger lease = elim (validate_playback_lease x lease) [
  | err e ↦ (ledger, err e)
  | ok checked ↦
      let removed = count_where (is_lease lease) ledger.leases in
      let leases' = delete_where (is_lease lease) ledger.leases in
      let summaries' =
        update_where (leased_at lease.task_id lease.summary_generation) released_row
          ledger.summaries in
      if removed == 1
      then (record ledger { summaries = summaries'; leases = leases' }, ok true)
      else (record ledger { leases = leases' }, ok false)
]

unfoldable pub heard_row : SummaryRow → SummaryRow
heard_row row = record row { summary_state = heard }

-- `task_id = ? AND generation = ? AND state = 'leased' AND cache_object = ?`.
abbrev pub plays : SummaryPlaybackLease → SummaryRow → Bool
plays lease row = leased_at lease.task_id lease.summary_generation row && elim row.cache_object [
  | none ↦ false
  | some cache_object ↦ text_eq cache_object lease.cache_object
]

unfoldable pub finish_summary_playback :
    External → Ledger → SummaryPlaybackLease → Ledger × Result StoreError Bool
unfolding heard_row validate_playback_lease
finish_summary_playback x ledger lease = elim (validate_playback_lease x lease) [
  | err e ↦ (ledger, err e)
  | ok checked ↦
      if not (exists_where (is_lease lease) ledger.leases)
      then (ledger, ok false)
      else (if count_where (plays lease) ledger.summaries != 1
          then (ledger, err invalid_summary_state)
          else (
            record ledger {
              summaries = update_where (plays lease) heard_row ledger.summaries;
              leases = delete_where (λ row. row.lease_id == lease.lease) ledger.leases;
            },
            ok true,
          ))
]

-- What the start of the Host does with the leases that its last run left.
unfoldable pub recover_interrupted_playback_leases : Ledger → Ledger
unfolding released_row
recover_interrupted_playback_leases ledger = record ledger {
  summaries = update_where (λ row. is_leased row.summary_state) released_row ledger.summaries;
  leases = [];
}
