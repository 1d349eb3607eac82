-- ===== src/Store/Playback/Calls.antt =====
-- Sequences of calls on the leases of app/host/src/store.rs.
use codex_keyboard_windows.Base.{
  ℕ, ◌≡◌, sym, subst, Option, none, some, List, [], ◌∷◌, Result, ok, err,
}
use codex_keyboard_windows.Store.{StoreError, External}
use codex_keyboard_windows.Store.Ledger.{Ledger}
use codex_keyboard_windows.Store.Playback.{
  SummaryPlaybackLease, playback_lease, acquire_summary_playback, cancel_summary_playback,
  finish_summary_playback, recover_interrupted_playback_leases,
}
use codex_keyboard_windows.Store.Playback.Leases.{IsLeases}
use codex_keyboard_windows.Store.Playback.Acquire.{
  nothing, refused, again, takes, acquire_summary_playback-Acquire,
}
use codex_keyboard_windows.Store.Playback.Kept.{
  cancel_summary_playback-IsLeases, finish_summary_playback-IsLeases,
  recover_interrupted_playback_leases-IsLeases,
}
use codex_keyboard_windows.Store.Playback.Started.{started, started-IsLeases}

acquire_summary_playback-IsLeases :
    (ledger : Ledger) (lease slot request_generation connection_generation : ℕ)
    → IsLeases ledger
    → IsLeases
        (acquire_summary_playback ledger slot request_generation connection_generation lease).0
acquire_summary_playback-IsLeases ledger lease slot request_generation connection_generation l =
    let kept : (outcome : Ledger × Result StoreError (Option SummaryPlaybackLease)) (next : Ledger)
          (e : Result StoreError (Option SummaryPlaybackLease))
        → outcome ≡ (next, e)
        → IsLeases next
        → IsLeases outcome.0 =
      λ outcome next e same n. subst (λ o. IsLeases o.0) (sym same) n in
    let outcome =
      acquire_summary_playback ledger slot request_generation connection_generation lease in
    elim (acquire_summary_playback-Acquire ledger lease slot request_generation
      connection_generation) [
        | refused e same ↦ kept outcome ledger (err e) same l
        | nothing same ↦ kept outcome ledger (ok none) same l
        | again summary existing cache_object known matches same ↦
            kept outcome ledger
              (ok (
                some (
                  playback_lease summary cache_object lease slot request_generation
                    connection_generation)))
              same l
        | takes summary cache_object free fresh one stored same ↦
            kept outcome
              (started ledger summary lease slot request_generation connection_generation free fresh
                one)
              (ok (
                some (
                  playback_lease summary cache_object lease slot request_generation
                    connection_generation)))
              same
              (started-IsLeases ledger summary lease slot request_generation connection_generation
                free fresh one l)
      ]

-- One call on the store that touches the leases.
pub data PlaybackCall : Type 0 where
  acquires : ℕ → ℕ → ℕ → ℕ → PlaybackCall
  cancels finishes : SummaryPlaybackLease → PlaybackCall
  restarts : PlaybackCall

unfoldable pub after_call : External → Ledger → PlaybackCall → Ledger
unfolding acquire_summary_playback cancel_summary_playback finish_summary_playback
    recover_interrupted_playback_leases
after_call x ledger (acquires slot request_generation connection_generation lease) =
    (acquire_summary_playback ledger slot request_generation connection_generation lease).0
after_call x ledger (cancels lease) = (cancel_summary_playback x ledger lease).0
after_call x ledger (finishes lease) = (finish_summary_playback x ledger lease).0
after_call x ledger restarts = recover_interrupted_playback_leases ledger

unfoldable pub after_calls : External → Ledger → List PlaybackCall → Ledger
unfolding after_call
after_calls x ledger [] = ledger
after_calls x ledger (call ∷ calls) = after_calls x (after_call x ledger call) calls

after_call-IsLeases :
    (x : External) (ledger : Ledger) (call : PlaybackCall)
    → IsLeases ledger
    → IsLeases (after_call x ledger call)
unfolding after_call
after_call-IsLeases x ledger (acquires slot request_generation connection_generation lease) l =
    acquire_summary_playback-IsLeases ledger lease slot request_generation connection_generation l
after_call-IsLeases x ledger (cancels lease) l = cancel_summary_playback-IsLeases x ledger lease l
after_call-IsLeases x ledger (finishes lease) l = finish_summary_playback-IsLeases x ledger lease l
after_call-IsLeases x ledger restarts l = recover_interrupted_playback_leases-IsLeases ledger l

-- Any sequence of acquisitions, cancellations, finishes and restarts keeps the tables in order:
-- each summary has one row and at most one lease, the lease ids are distinct, and a summary is
-- leased exactly while a lease of it stands.
pub after_calls-IsLeases :
    (x : External) (ledger : Ledger) (calls : List PlaybackCall)
    → IsLeases ledger
    → IsLeases (after_calls x ledger calls)
unfolding after_calls
after_calls-IsLeases x ledger [] l = l
after_calls-IsLeases x ledger (call ∷ calls) l =
    after_calls-IsLeases x (after_call x ledger call) calls (after_call-IsLeases x ledger call l)
