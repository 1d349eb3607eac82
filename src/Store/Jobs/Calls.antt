-- ===== src/Store/Jobs/Calls.antt =====
-- Sequences of calls on the table of jobs.
use codex_keyboard_windows.Base.{ℕ, List, [], ◌∷◌}
use codex_keyboard_windows.Store.{Text, External}
use codex_keyboard_windows.Store.Jobs.{
  NewJob, JobFailureKind, JobRow, enqueue, claim_next_runnable, mark_completed, mark_failed,
  recover_interrupted_jobs,
}

-- One call on the store that touches the jobs.
pub data Call : Type 0 where
  enqueues : NewJob → Call
  claims : Call
  completes : Text → ℕ → Call
  fails : Text → ℕ → JobFailureKind → Call
  recovers : Call

unfoldable pub step : External → List JobRow → Call → List JobRow
unfolding enqueue claim_next_runnable mark_completed mark_failed recover_interrupted_jobs
step x rows (enqueues job) = (enqueue x rows job).0
step x rows claims = (claim_next_runnable rows).0
step x rows (completes request_id claim_generation) =
    (mark_completed rows request_id claim_generation).0
step x rows (fails request_id claim_generation failure) =
    (mark_failed rows request_id claim_generation failure).0
step x rows recovers = (recover_interrupted_jobs rows).0

unfoldable pub run : External → List JobRow → List Call → List JobRow
unfolding step
run x rows [] = rows
run x rows (call ∷ calls) = run x (step x rows call) calls
