-- ===== src/LanVoice/Playback/Bounds.antt =====
-- The offsets, the window and the retry count of a transfer stay in range, whatever the device
-- answers and whatever the socket does.
use codex_keyboard_windows.Base.{
  ℕ, ◌+◌, ◌*◌, ◌≤◌, ◌≡◌, refl, true, Option, none, some, List, [], ◌∷◌, length, arith, Option-cases,
  inl, inr, subst,
}
use codex_keyboard_windows.Crypto.{Crypto}
use codex_keyboard_windows.LanPlayback.{
  PlaybackAck, PlaybackFinished, PlaybackRequest, PlaybackIdentity,
}
use codex_keyboard_windows.LanVoice.Playback.{
  World, ActiveLanPlayback, ActivePlaybackTransfer, PlaybackSendPhase, LanPlaybackCommand,
  begin_ack, data_ack, device_finished, host_commit, is_finishing, start, finish_ack, cancel,
  mailbox,
}
use codex_keyboard_windows.LanVoice.Playback.Send.{send_next_data}
use codex_keyboard_windows.LanVoice.Playback.Ack.{
  continue_transfer, accept_gap, accept_refusal, accept_progress, accept_ack_of, accept_ack,
}
use codex_keyboard_windows.LanVoice.Playback.Ingest.{
  accept_request_generation, ingest_request, ingest_finished_of, ingest_finished, ingest,
}
use codex_keyboard_windows.LanVoice.Playback.Command.{commit_finished, handle_command}
use codex_keyboard_windows.LanVoice.Playback.Tick.{retry_transfer, tick_transfer, tick}
use codex_keyboard_windows.LanVoice.Playback.History.{
  Call, commands, receives, ticks, initial, step, run,
}

pub record IsTransfer (t : ActivePlaybackTransfer) : Type 0 where
  pub total : length t.eiad ≡ t.begin.total_bytes
  pub nonempty : 1 ≤ length t.eiad
  pub ordered : t.acknowledged_offset ≤ t.sent_end_offset
  pub within : t.sent_end_offset ≤ length t.eiad
  pub window : t.sent_end_offset ≤ t.acknowledged_offset + 6 * 1024
  pub retries : t.retry_count ≤ 16
  pub begun : t.phase ≡ begin_ack → t.sent_end_offset ≡ 0
  pub complete : is_finishing t.phase ≡ true → t.acknowledged_offset ≡ length t.eiad

abbrev Holds : Option ActivePlaybackTransfer → Type 0
Holds none = Unit {0}
Holds (some t) = IsTransfer t

-- The transfer in progress, if there is one, is in range.
pub record IsPlayback (s : ActiveLanPlayback) : Type 0 where
  pub transfer_valid : Holds s.transfer

-- What a transfer needs before more is sent: its offset alone.
record IsReady (t : ActivePlaybackTransfer) : Type 0 where
  total : length t.eiad ≡ t.begin.total_bytes
  nonempty : 1 ≤ length t.eiad
  reached : t.acknowledged_offset ≤ length t.eiad
  retries : t.retry_count ≤ 16

module _ (c : Crypto) (net : ℕ → Option ℕ) where
  send_next_data-IsTransfer :
      (t : ActivePlaybackTransfer) (key : List ℕ) (now : ℕ) (w : World)
      → IsReady t
      → (send_next_data c net t key now w).2 ≡ true
      → IsTransfer (send_next_data c net t key now w).0
  unfolding send_next_data
  send_next_data-IsTransfer t key now w r h = ground arith

  continue_transfer-IsPlayback :
      (s : ActiveLanPlayback) (t : ActivePlaybackTransfer) (key : List ℕ) (now : ℕ) (w : World)
      → IsReady t
      → IsPlayback (continue_transfer c net s t key now w).0
  unfolding continue_transfer
  continue_transfer-IsPlayback s t key now w r =
      ground (arith, send_next_data-IsTransfer t key now w r)

  accept_gap-IsPlayback :
      (s : ActiveLanPlayback) (t : ActivePlaybackTransfer) (ack : PlaybackAck) (key : List ℕ)
      (now : ℕ) (w : World)
      → IsTransfer t
      → t.acknowledged_offset ≤ ack.next_offset
      → ack.next_offset ≤ t.sent_end_offset
      → IsPlayback (accept_gap c net s t ack key now w).0
  unfolding accept_gap
  accept_gap-IsPlayback s t ack key now w v lo hi = ground (
    arith,
    continue_transfer-IsPlayback s (record t { retry_count = t.retry_count + 1 }) key now w,
    continue_transfer-IsPlayback s
        (record t { acknowledged_offset = ack.next_offset; retry_count = 0 }) key now w,
  )

  accept_refusal-IsPlayback :
      (s : ActiveLanPlayback) (t : ActivePlaybackTransfer) (ack : PlaybackAck) (source : ℕ)
      (key : List ℕ) (now : ℕ) (w : World)
      → IsPlayback (accept_refusal c net s t ack source key now w).0
  unfolding accept_refusal
  accept_refusal-IsPlayback s t ack source key now w = ground arith

  accept_progress-IsPlayback :
      (phase : PlaybackSendPhase) (s : ActiveLanPlayback) (t : ActivePlaybackTransfer)
      (ack : PlaybackAck) (key : List ℕ) (now : ℕ) (w : World)
      → s.transfer ≡ some t
      → IsTransfer t
      → phase ≡ t.phase
      → IsPlayback s
      → IsPlayback (accept_progress c net phase s t ack key now w).0
  unfolding accept_progress
  accept_progress-IsPlayback begin_ack s t ack key now w e v p h = ground (
    arith,
    continue_transfer-IsPlayback s (record t { acknowledged_offset = 0; retry_count = 0 }) key now
        w,
  )
  accept_progress-IsPlayback data_ack s t ack key now w e v p h = ground (
    arith,
    continue_transfer-IsPlayback s
        (record t { acknowledged_offset = ack.next_offset; retry_count = 0 }) key now w,
  )
  accept_progress-IsPlayback device_finished s t ack key now w e v p h = h
  accept_progress-IsPlayback host_commit s t ack key now w e v p h = h

  accept_ack_of-IsPlayback :
      (s : ActiveLanPlayback) (t : ActivePlaybackTransfer) (ack : PlaybackAck) (source : ℕ)
      (key : List ℕ) (now : ℕ) (w : World)
      → s.transfer ≡ some t
      → IsTransfer t
      → IsPlayback s
      → IsPlayback (accept_ack_of c net s t ack source key now w).0
  unfolding accept_ack_of
  accept_ack_of-IsPlayback s t ack source key now w e v h = ground (
    arith,
    accept_gap-IsPlayback s t ack key now w v,
    accept_refusal-IsPlayback s t ack source key now w,
    accept_progress-IsPlayback t.phase s t ack key now w e v refl h,
  )

  pub IsPlayback-some :
      (s : ActiveLanPlayback) (t : ActivePlaybackTransfer)
      → s.transfer ≡ some t
      → IsPlayback s
      → IsTransfer t
  IsPlayback-some s t e h = subst Holds e h.transfer_valid

  -- The acknowledgements of the device.
  pub accept_ack-IsPlayback :
      (s : ActiveLanPlayback) (ack : PlaybackAck) (source : ℕ) (key : List ℕ) (now : ℕ) (w : World)
      → IsPlayback s
      → IsPlayback (accept_ack c net s ack source key now w).0
  unfolding accept_ack
  accept_ack-IsPlayback s ack source key now w h = elim (Option-cases s.transfer) [
    | inl e ↦ rw (e, accept_ack) (ground arith)
    | inr (t, e) ↦
        rw (e, accept_ack)
          (accept_ack_of-IsPlayback s t ack source key now w e (IsPlayback-some s t e h) h)
  ]

  ingest_request-IsPlayback :
      (s : ActiveLanPlayback) (r : PlaybackRequest) (source : ℕ) (w : World)
      → IsPlayback s
      → IsPlayback (ingest_request s r source w).0
  unfolding ingest_request accept_request_generation
  ingest_request-IsPlayback s r source w h = ground arith

  ingest_finished-IsPlayback :
      (s : ActiveLanPlayback) (f : PlaybackFinished) (source : ℕ) (key : List ℕ) (now : ℕ)
      (w : World)
      → IsPlayback s
      → IsPlayback (ingest_finished c net s f source key now w).0
  unfolding ingest_finished
  ingest_finished-IsPlayback s f source key now w h = elim (Option-cases s.transfer) [
    | inl e ↦ rw (e, ingest_finished) (ground arith)
    | inr (t, e) ↦
        let v = IsPlayback-some s t e h in
        rw (e, ingest_finished, ingest_finished_of) (ground arith)
  ]

  pub ingest-IsPlayback :
      (s : ActiveLanPlayback) (packet : List ℕ) (source : ℕ) (key : List ℕ) (now : ℕ) (w : World)
      → IsPlayback s
      → IsPlayback (ingest c net s packet source key now w).0
  unfolding ingest
  ingest-IsPlayback s packet source key now w h =
      grind (arith, ingest_request-IsPlayback, accept_ack-IsPlayback, ingest_finished-IsPlayback)

  commit_finished-IsPlayback :
      (s : ActiveLanPlayback) (o : Option ActivePlaybackTransfer) (identity : PlaybackIdentity)
      (key : Option (List ℕ)) (now : ℕ) (w : World)
      → IsPlayback s
      → IsPlayback (commit_finished c net s o identity key now w).0
  unfolding commit_finished
  commit_finished-IsPlayback s none identity key now w h = h
  commit_finished-IsPlayback s (some t) identity none now w h = h
  commit_finished-IsPlayback s (some t) identity (some k) now w h = ground arith

  pub handle_command-IsPlayback :
      (s : ActiveLanPlayback) (command : LanPlaybackCommand) (key : Option (List ℕ)) (now : ℕ)
      (w : World)
      → IsPlayback s
      → IsPlayback (handle_command c net s command key now w).0
  unfolding handle_command
  handle_command-IsPlayback s (start begun) key now w h = ground arith
  handle_command-IsPlayback s (finish_ack identity) key now w h =
      commit_finished-IsPlayback s s.transfer identity key now w h
  handle_command-IsPlayback s (cancel identity) key now w h = ground arith
  handle_command-IsPlayback s (mailbox status) key now w h = ground arith

  tick_transfer-IsPlayback :
      (s : ActiveLanPlayback) (t : ActivePlaybackTransfer) (key : Option (List ℕ)) (now : ℕ)
      (w : World)
      → IsTransfer t
      → IsPlayback s
      → IsPlayback (tick_transfer c net s t key now w).0
  unfolding tick_transfer retry_transfer
  tick_transfer-IsPlayback s t none now w v h = ground arith
  tick_transfer-IsPlayback s t (some k) now w v h = ground arith

  pub tick-IsPlayback :
      (s : ActiveLanPlayback) (key : Option (List ℕ)) (now : ℕ) (w : World)
      → IsPlayback s
      → IsPlayback (tick c net s key now w).0
  unfolding tick
  tick-IsPlayback s key now w h = elim (Option-cases s.transfer) [
    | inl e ↦ rw (e, tick) (ground arith)
    | inr (t, e) ↦
        rw (e, tick)
          (tick_transfer-IsPlayback _ t key now w (IsPlayback-some s t e h)
            (record { transfer_valid = h.transfer_valid }))
  ]

  pub step-IsPlayback :
      (s : ActiveLanPlayback) (w : World) (call : Call)
      → IsPlayback s
      → IsPlayback (step c net s w call).0
  unfolding step
  step-IsPlayback s w (commands command key now) h = handle_command-IsPlayback s command key now w h
  step-IsPlayback s w (receives packet source none now) h = h
  step-IsPlayback s w (receives packet source (some key) now) h =
      ingest-IsPlayback s packet source key now w h
  step-IsPlayback s w (ticks key now) h = tick-IsPlayback s key now w h

  run-IsPlayback :
      (s : ActiveLanPlayback) (w : World) (calls : List Call)
      → IsPlayback s
      → IsPlayback (run c net s w calls).0
  unfolding run
  run-IsPlayback s w [] h = h
  run-IsPlayback s w (call ∷ calls) h =
      let (s', w') = step c net s w call in run-IsPlayback s' w' calls (step-IsPlayback s w call h)

  -- From the initial state, after any sequence of commands, datagrams and ticks, and whatever the
  -- socket does, the transfer in progress has the announced number of bytes, at least one, its
  -- acknowledged offset is at most its sent offset, which is at most the end of the audio and at
  -- most six chunks ahead, its counter of attempts is at most 16, its sent offset is 0 while it
  -- waits for the acknowledgement of the begin packet, and its acknowledged offset is the end of
  -- the audio once it waits for the end of the playback.
  pub run-initial-IsPlayback :
      (w : World) (calls : List Call) → IsPlayback (run c net initial w calls).0
  run-initial-IsPlayback w calls =
      run-IsPlayback initial w calls (record { transfer_valid = unfold initial in tt })
