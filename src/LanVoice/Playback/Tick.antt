-- ===== src/LanVoice/Playback/Tick.antt =====
-- `tick` of app/host/src/lan_voice.rs: deadlines and repetitions.
use codex_keyboard_windows.Base.{
  ℕ, ◌+◌, ◌-◌, Bool, true, false, Option, none, some, List, leb, ltb, if◌then◌else◌,
}
use codex_keyboard_windows.Crypto.{Crypto}
use codex_keyboard_windows.LanPlayback.Control.{encode_begin}
use codex_keyboard_windows.LanVoice.Playback.{
  World, ActiveLanPlayback, ActivePlaybackTransfer, RetiredPlaybackFinish, PlaybackSendPhase,
  begin_ack, data_ack, is_finishing, is_sent, send_to, playback_retry, playback_max_retries,
}
use codex_keyboard_windows.LanVoice.Playback.Send.{all_sent, send_chunks}
use codex_keyboard_windows.LanVoice.Playback.Ack.{cancel_transfer}

-- What was remembered of an ended transfer is forgotten at its time.
unfoldable pub expire_retired : Option RetiredPlaybackFinish → ℕ → Option RetiredPlaybackFinish
expire_retired none now = none
expire_retired (some retired) now = if leb retired.expires_at now then none else some retired

module _ (c : Crypto) (net : ℕ → Option ℕ) where
  -- The begin packet, or all data behind the last acknowledgement, once more.
  unfoldable pub resend : PlaybackSendPhase → ActivePlaybackTransfer → List ℕ → World → World × Bool
  resend begin_ack t key w =
      let (w', outcome) = send_to net w t.source (encode_begin c t.begin key) in
      (w', is_sent outcome)
  resend data_ack t key w =
      let (w', loop_end) =
        send_chunks c net (t.sent_end_offset - t.acknowledged_offset) t key t.acknowledged_offset
          t.sent_end_offset w in
      elim loop_end [ all_sent ↦ (w', true) | _ ↦ (w', false) ]
  resend _ t key w = (w, false)

  -- One more attempt, counted only if it went out.
  unfoldable pub retry_transfer :
      ActiveLanPlayback
      → ActivePlaybackTransfer
      → Option (List ℕ)
      → ℕ
      → World
      → ActiveLanPlayback × World
  retry_transfer s t none now w = (s, w)
  retry_transfer s t (some key) now w =
      let (w', sent) = resend t.phase t key w in
      let retried = record t { retry_count = t.retry_count + 1; last_send = now } in
      if sent then (record s { transfer = some retried }, w') else (s, w')

  unfoldable pub tick_transfer :
      ActiveLanPlayback
      → ActivePlaybackTransfer
      → Option (List ℕ)
      → ℕ
      → World
      → ActiveLanPlayback × World
  unfolding cancel_transfer
  tick_transfer s t key now w =
      if is_finishing t.phase
      then (if leb t.finish_deadline now then cancel_transfer s t.begin.identity w else (s, w))
      else (if ltb (now - t.last_send) playback_retry
          then (s, w)
          else (if leb playback_max_retries t.retry_count
              then cancel_transfer s t.begin.identity w
              else retry_transfer s t key now w))

  unfoldable pub tick : ActiveLanPlayback → Option (List ℕ) → ℕ → World → ActiveLanPlayback × World
  unfolding tick_transfer expire_retired
  tick s key now w =
      let s' = record s {
        retired_finish = expire_retired s.retired_finish now;
        retired_cancel = expire_retired s.retired_cancel now;
      } in
      elim s.transfer [ none ↦ (s', w) | some t ↦ tick_transfer s' t key now w ]
