-- ===== src/Store.antt =====
-- app/host/src/store.rs: the tables of the Host's database as lists of rows, and the transactions on
-- them. A text is its UTF-8 bytes, a path its
-- UTF-16 units, as on Windows: `encode_path` and `decode_path` turn each into two bytes and back. The columns of times only record when a
-- row was written, and are left out.
pub mod Tables
pub mod Jobs
pub mod Ledger
pub mod Bindings
pub mod Mailbox
pub mod Rollouts
pub mod Playback
pub mod Summaries
pub mod Examples
pub mod LedgerExamples
use codex_keyboard_windows.Base.{
  ℕ, ◌*◌, ◌^◌, ◌≡◌, ◌↔◌, Bool, true, false, not, ◌||◌, ◌&&◌, List, [], ◌∷◌, length, leb, ltb, ◌==◌,
  bytes_eq, bytes_eq_sound, bytes_eq_refl, subst, sym, refl, Result, ok, err, reject_if,
  if◌then◌else◌,
}

abbrev pub Text : Type 0
Text = List ℕ

-- `String == String`.
unfoldable pub text_eq : Text → Text → Bool
text_eq a b = bytes_eq a b

pub text_eq_iff : (a b : Text) → (text_eq a b ≡ true) ↔ (a ≡ b)
unfolding text_eq
text_eq_iff a b = (bytes_eq_sound a b, λ e. subst (λ t. bytes_eq a t ≡ true) e (bytes_eq_refl a))

pub text_eq_refl : (a : Text) → text_eq a a ≡ true
text_eq_refl a = (text_eq_iff a a).1 refl

pub data StoreError : Type 0 where
  io sqlite unsupported_schema invalid_slot generation_out_of_range : StoreError
  claim_generation_out_of_range already_running request_id_conflict invalid_job : StoreError
  task_queue_full state_path_changed rollout_cursor_changed binding_changed : StoreError
  completion_conflict invalid_completion invalid_summary_request summary_busy : StoreError
  summary_request_conflict summary_request_abandoned summary_generation_out_of_range : StoreError
  summary_claim_changed invalid_summary_state invalid_summary_cache_reference : StoreError
  summary_tts_attempt_changed invalid_playback_lease playback_busy : StoreError

-- What the store takes from the standard library and from other crates: `Uuid::parse_str`,
-- `str::trim`, `Path::is_absolute`, `Path == Path` (by components), the parser of JSON, and SHA-256.
pub record External : Type 0 where
  pub is_uuid : Text → Bool
  pub is_blank : Text → Bool
  pub is_absolute : Text → Bool
  pub same_path : Text → Text → Bool
  pub is_json_object : Text → Bool
  pub sha256 : Text → Text

abbrev pub max_pending_jobs_per_task : ℕ
max_pending_jobs_per_task = 12

abbrev pub max_global_running_jobs : ℕ
max_global_running_jobs = 4

abbrev pub max_request_id_bytes : ℕ
max_request_id_bytes = 128

abbrev pub max_task_id_bytes : ℕ
max_task_id_bytes = 64

abbrev pub max_prompt_bytes : ℕ
max_prompt_bytes = 32 * 1024

abbrev pub max_cwd_bytes : ℕ
max_cwd_bytes = 4 * 1024

-- `i64::MAX as u64 + 1`.
abbrev pub i64_bound : ℕ
i64_bound = 2 ^ 63

abbrev pub is_empty : Text → Bool
is_empty text = length text == 0

-- `bytes().any(|byte| byte.is_ascii_control())`.
abbrev pub has_control : Text → Bool
has_control [] = false
has_control (b ∷ bs) = (ltb b 32 || (b == 127)) || has_control bs

-- `encode_path(path).len()`: two bytes of each unit.
abbrev pub path_bytes : Text → ℕ
path_bytes path = 2 * length path

abbrev pub path_contains_nul : Text → Bool
path_contains_nul [] = false
path_contains_nul (unit ∷ units) = (unit == 0) || path_contains_nul units

unfoldable pub validate_slot : ℕ → Result StoreError (Unit {0})
validate_slot slot = reject_if (not (leb 1 slot && leb slot 4)) invalid_slot

unfoldable pub to_i64 : ℕ → Result StoreError ℕ
to_i64 value = if ltb value i64_bound then ok value else err generation_out_of_range
