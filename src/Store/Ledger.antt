-- ===== src/Store/Ledger.antt =====
-- The tables of app/host/src/store.rs besides `jobs`: the bindings of the slots, the cursors of the
-- rollouts, the completions, the summaries and the leases of their playback.
use codex_keyboard_windows.Base.{ℕ, ◌==◌, ◌&&◌, Bool, true, false, Option, none, some, List}
use codex_keyboard_windows.Store.{Text, text_eq}

pub record Binding : Type 0 where
  pub slot : ℕ
  pub task_id : Text
  pub generation : ℕ

-- The anchor is 32 bytes.
pub record RolloutCursor : Type 0 where
  pub task_id : Text
  pub rollout_path : Text
  pub device : ℕ
  pub inode : ℕ
  pub offset : ℕ
  pub generation : ℕ
  pub anchor : Text

-- The column `rollout_cursor` is a generation and an offset.
pub record CompletionRow : Type 0 where
  pub completion_id : Text
  pub task_id : Text
  pub rollout_cursor : ℕ × ℕ
  pub summarized_generation : Option ℕ
  pub turn_pack : Text

pub data SummaryState : Type 0 where
  generating interrupted abandoned unheard leased heard superseded : SummaryState

-- The column `covers_completions` is the JSON of a list of texts.
pub record SummaryRow : Type 0 where
  pub task_id : Text
  pub generation : ℕ
  pub summary_state : SummaryState
  pub covers_completions : List Text
  pub cache_object : Option Text
  pub request_id : Option Text
  pub claim_id : Option Text
  pub previous_generation : Option ℕ
  pub superseded_by : Option ℕ

pub record LeaseRow : Type 0 where
  pub lease_id : ℕ
  pub task_id : Text
  pub summary_generation : ℕ
  pub slot : ℕ
  pub request_generation : ℕ
  pub connection_generation : ℕ

pub data SummaryTtsAttemptState : Type 0 where
  started ambiguous : SummaryTtsAttemptState

pub record AttemptRow : Type 0 where
  pub task_id : Text
  pub generation : ℕ
  pub attempt_state : SummaryTtsAttemptState

pub record Ledger : Type 0 where
  pub bindings : List Binding
  pub rollout_cursors : List RolloutCursor
  pub completions : List CompletionRow
  pub summaries : List SummaryRow
  pub leases : List LeaseRow
  pub attempts : List AttemptRow

abbrev pub is_unheard : SummaryState → Bool
is_unheard unheard = true
is_unheard _ = false

abbrev pub is_leased : SummaryState → Bool
is_leased leased = true
is_leased _ = false

-- `IS NULL`.
abbrev pub is_null : {A : Type 0} → Option A → Bool
is_null none = true
is_null (some a) = false

-- `WHERE slot = ?`.
abbrev pub bound_to : ℕ → Binding → Bool
bound_to slot binding = binding.slot == slot

-- `WHERE task_id = ? AND generation = ?`.
abbrev pub summary_at : Text → ℕ → SummaryRow → Bool
summary_at task_id generation row = text_eq row.task_id task_id && (row.generation == generation)
