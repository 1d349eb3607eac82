-- ===== src/Store/LedgerExamples.antt =====
-- Runs of the store on small tables of summaries, leases, bindings and completions.
use codex_keyboard_windows.Base.{
  ◌+◌, ◌≤◌, ◌≡◌, ◌⊎◌, err, refl, true, false, none, some, [], ◌∷◌, replicate, ok, arith,
}
use codex_keyboard_windows.Cache.{
  from_reference, reference, hex_digit, is_task_hash, every, is_canonical_generation,
  decode_hex_pair, hex_value, for_task,
}
use codex_keyboard_windows.Store.{Text, text_eq, StoreError, External, validate_slot, to_i64}
use codex_keyboard_windows.Store.Tables.{
  count_where, exists_where, first_where, update_where, select_where,
}
use codex_keyboard_windows.Store.Ledger.{Binding, RolloutCursor, Ledger, unheard}
use codex_keyboard_windows.Store.Bindings.{binding, set_binding, query_bindings}
use codex_keyboard_windows.Store.Bindings.Laws.{set_binding-once}
use codex_keyboard_windows.Store.Playback.{
  SummaryPlaybackLease, acquire_summary_playback, cancel_summary_playback, finish_summary_playback,
  validate_playback_lease,
}
use codex_keyboard_windows.Store.Playback.Leases.{IsLeases}
use codex_keyboard_windows.Store.Playback.Calls.{
  acquires, cancels, finishes, restarts, after_calls, after_calls-IsLeases,
}
use codex_keyboard_windows.Store.Playback.Ends.{
  finish_summary_playback-twice, acquire_summary_playback-cancel,
}
use codex_keyboard_windows.Store.Mailbox.{mailbox_status, query_current_unread}
use codex_keyboard_windows.Store.Mailbox.Laws.{mailbox_status-valid_mailbox_status}
use codex_keyboard_windows.Store.Rollouts.{
  CompletionOutcome, inserted as recorded, has_completion, commit_rollout_completion_on,
}
use codex_keyboard_windows.Store.Rollouts.Laws.{
  IsCommitted, commit_rollout_completion_on-IsCommitted,
}
use codex_keyboard_windows.Store.Rollouts.Moves.{IsMoved, commit_rollout_completion_on-IsMoved}
use codex_keyboard_windows.Store.Summaries.{
  inserted, SummaryClaim, validate_summary_claim, validate_summary_request,
}
use codex_keyboard_windows.Store.Summaries.Claim.{last_generation, claim_new}
use codex_keyboard_windows.Store.Summaries.Pending.{claim_new-validate_summary_claim}
use codex_keyboard_windows.LanPlayback.Mailbox.{valid_mailbox_status}

abbrev hash : Text
hash = replicate 32 171

abbrev externals : External
externals = record {
  is_uuid = λ text. true;
  is_blank = λ text. false;
  is_absolute = λ text. true;
  same_path = text_eq;
  is_json_object = λ text. true;
  sha256 = λ text. hash;
}

abbrev task : Text
task = 84 ∷ []

abbrev object : Text
object = reference (record { task_hash = hash; generation = 1 })

abbrev cursor : RolloutCursor
cursor = record {
  task_id = task;
  rollout_path = 47 ∷ [];
  device = 1;
  inode = 2;
  offset = 100;
  generation = 1;
  anchor = replicate 32 9;
}

abbrev tables : Ledger
tables = record {
  bindings = record { slot = 2; task_id = task; generation = 1 } ∷ [];
  rollout_cursors = [];
  completions =
      record {
        completion_id = 67 ∷ [];
        task_id = task;
        rollout_cursor = (1, 50);
        summarized_generation = some 1;
        turn_pack = 123 ∷ 125 ∷ [];
      }
      ∷ [];
  summaries =
      record {
        task_id = task;
        generation = 1;
        summary_state = unheard;
        covers_completions = (67 ∷ []) ∷ [];
        cache_object = some object;
        request_id = some (82 ∷ []);
        claim_id = none;
        previous_generation = none;
        superseded_by = none;
      }
      ∷ [];
  leases = [];
  attempts = [];
}

abbrev held : SummaryPlaybackLease
held = record {
  lease = 5;
  slot = 2;
  task_id = task;
  summary_generation = 1;
  request_generation = 3;
  connection_generation = 4;
  cache_object = object;
}

tables-IsLeases : IsLeases tables
unfolding count_where
tables-IsLeases = record {
  summary_once = λ t g. ground arith;
  lease_once = λ t g. omega arith;
  id_once = λ i. omega arith;
  paired = λ t g. ground arith;
}

after_calls-IsLeases_example :
    IsLeases (
      after_calls externals tables
        (acquires 2 3 4 5 ∷ finishes held ∷ cancels held ∷ restarts ∷ []))
after_calls-IsLeases_example =
    after_calls-IsLeases externals tables
      (acquires 2 3 4 5 ∷ finishes held ∷ cancels held ∷ restarts ∷ []) tables-IsLeases

abbrev playing : Ledger
playing = (acquire_summary_playback tables 2 3 4 5).0

acquire_cancel_example : cancel_summary_playback externals playing held ≡ (tables, ok true)
unfolding acquire_summary_playback validate_playback_lease validate_slot first_where text_eq
    count_where exists_where from_reference reference hex_digit is_task_hash every
    is_canonical_generation decode_hex_pair hex_value for_task
acquire_cancel_example =
    acquire_summary_playback-cancel externals tables playing 2 3 4 5 held tables-IsLeases refl refl
      refl

abbrev played : Ledger
played = (finish_summary_playback externals playing held).0

finish_twice_example :
    (finish_summary_playback externals played held ≡ (played, ok false))
    × (cancel_summary_playback externals played held ≡ (played, ok false))
unfolding acquire_summary_playback finish_summary_playback validate_slot from_reference reference
    hex_digit is_task_hash every is_canonical_generation decode_hex_pair hex_value for_task
    exists_where first_where text_eq count_where update_where
finish_twice_example = finish_summary_playback-twice externals playing played held refl

set_binding-once_example :
    let bindings = (set_binding [] 1 none task).0 in
    (binding bindings 1 ≡ ok (some (record { slot = 1; task_id = task; generation = 1 })))
    × (set_binding bindings 1 none (90 ∷ []) ≡ (bindings, ok none))
unfolding set_binding validate_slot first_where to_i64
set_binding-once_example =
    set_binding-once [] (set_binding [] 1 none task).0 1 none task (90 ∷ [])
      (record { slot = 1; task_id = task; generation = 1 }) refl

valid_mailbox_status_example :
    valid_mailbox_status
      (record { unread_slots = 2; running_tasks = 3; coverage_by_slot = 0 ∷ 1 ∷ 0 ∷ 0 ∷ [] })
    ≡ true
unfolding mailbox_status query_bindings select_where first_where text_eq count_where
valid_mailbox_status_example =
    mailbox_status-valid_mailbox_status externals tables
      (record { unread_slots = 2; coverage_by_slot = 0 ∷ 1 ∷ 0 ∷ 0 ∷ [] }) 3 (omega arith) refl

abbrev bound : Binding
bound = record { slot = 2; task_id = task; generation = 1 }

IsMoved-example :
    ((e : StoreError) × (commit_rollout_completion_on externals tables
          (some bound)
          none
          cursor
          (68 ∷ [])
          (123 ∷ 125 ∷ [])
        ≡ (tables, err e)))
    ⊎ ((after : Ledger) × (outcome : CompletionOutcome) × (commit_rollout_completion_on externals
            tables
            (some bound)
            none
            cursor
            (68 ∷ [])
            (123 ∷ 125 ∷ [])
          ≡ (after, ok outcome))
        × IsMoved externals tables after
            (some bound)
            none
            cursor
            (68 ∷ [])
            (123 ∷ 125 ∷ [])
            outcome)
IsMoved-example =
    commit_rollout_completion_on-IsMoved externals tables (some bound) none cursor (68 ∷ [])
      (123 ∷ 125 ∷ [])

abbrev committed : Ledger
committed =
    (commit_rollout_completion_on externals tables none none cursor (68 ∷ []) (123 ∷ 125 ∷ [])).0

IsCommitted-example :
    IsCommitted committed cursor (68 ∷ [])
    × ((id : Text) → count_where (has_completion id) committed.completions ≤ 1)
unfolding commit_rollout_completion_on count_where text_eq first_where
IsCommitted-example =
    commit_rollout_completion_on-IsCommitted externals tables committed none none cursor (68 ∷ [])
      (123 ∷ 125 ∷ []) recorded refl (λ id. ground arith)

commit_test :
    (commit_rollout_completion_on externals tables
      (some bound)
      none
      cursor
      (68 ∷ [])
      (123 ∷ 125 ∷ [])).1
    ≡ ok recorded
unfolding commit_rollout_completion_on count_where text_eq first_where exists_where to_i64
commit_test = refl

abbrev waiting : Ledger
waiting = record tables {
  completions =
      record {
        completion_id = 69 ∷ [];
        task_id = task;
        rollout_cursor = (1, 90);
        summarized_generation = none;
        turn_pack = 123 ∷ 125 ∷ [];
      }
      ∷ tables.completions;
}

abbrev next_claim : SummaryClaim
next_claim = record {
  outcome = inserted;
  request_id = 81 ∷ [];
  task_id = task;
  generation = 2;
  previous_unread =
      some (record { task_id = task; generation = 1; cache_object = object; coverage_count = 1 });
  completions = record { completion_id = 69 ∷ []; turn_pack = 123 ∷ 125 ∷ [] } ∷ [];
}

claim_new_example :
    (validate_summary_claim externals next_claim ≡ ok tt)
    × (2 ≡ last_generation task waiting.summaries + 1)
unfolding claim_new validate_summary_request query_current_unread first_where text_eq count_where
    select_where
claim_new_example =
    claim_new-validate_summary_claim externals waiting
      (claim_new externals waiting task (81 ∷ [])).0 task (81 ∷ []) next_claim refl refl
