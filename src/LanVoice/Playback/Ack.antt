-- ===== src/LanVoice/Playback/Ack.antt =====
-- `accept_ack` of app/host/src/lan_voice.rs: the device's answers to a begin or a data packet.
use codex_keyboard_windows.Base.{
  ℕ, ◌+◌, ◌&&◌, ◌||◌, not, Bool, false, Option, none, some, List, length, ltb, leb, ◌==◌, ◌!=◌,
  if◌then◌else◌,
}
use codex_keyboard_windows.Crypto.{Crypto}
use codex_keyboard_windows.LanPlayback.{PlaybackIdentity, PlaybackAck}
use codex_keyboard_windows.LanPlayback.Control.{encode_finished_ack}
use codex_keyboard_windows.LanVoice.Playback.{
  World, ActiveLanPlayback, ActivePlaybackTransfer, RetiredPlaybackFinish, cancelled, begin_ack,
  data_ack, device_finished, PlaybackSendPhase, phase_eq, identity_eq, emit, send_to,
  playback_max_retries, playback_finish_timeout, playback_finished_ack_retention,
}
use codex_keyboard_windows.LanVoice.Playback.Send.{send_next_data}

-- `retired.is_some_and(|r| r.source == source && r.identity == identity && r.expires_at > now)`.
abbrev pub is_retired : Option RetiredPlaybackFinish → ℕ → PlaybackIdentity → ℕ → Bool
is_retired none source identity now = false
is_retired (some retired) source identity now =
    (retired.source == source)
    && (identity_eq retired.identity identity && ltb now retired.expires_at)

-- The transfer is given up and reported.
unfoldable pub cancel_transfer :
    ActiveLanPlayback → PlaybackIdentity → World → ActiveLanPlayback × World
cancel_transfer s identity w = (record s { transfer = none }, emit w (cancelled identity))

module _ (c : Crypto) (net : ℕ → Option ℕ) where
  -- `if !Self::send_next_data(..) { cancel }`.
  unfoldable pub continue_transfer :
      ActiveLanPlayback → ActivePlaybackTransfer → List ℕ → ℕ → World → ActiveLanPlayback × World
  unfolding cancel_transfer
  continue_transfer s t key now w =
      let (t', w', sent) = send_next_data c net t key now w in
      if sent then (record s { transfer = some t' }, w') else cancel_transfer s t.begin.identity w'

  -- Status 1 at an offset inside the window: the device asks for data from there on.
  unfoldable pub accept_gap :
      ActiveLanPlayback
      → ActivePlaybackTransfer
      → PlaybackAck
      → List ℕ
      → ℕ
      → World
      → ActiveLanPlayback × World
  unfolding continue_transfer cancel_transfer
  accept_gap s t ack key now w =
      if ack.next_offset == t.acknowledged_offset
      then (if leb playback_max_retries t.retry_count
          then cancel_transfer s t.begin.identity w
          else continue_transfer s (record t { retry_count = t.retry_count + 1 }) key now w)
      else continue_transfer s (record t { acknowledged_offset = ack.next_offset; retry_count = 0 })
          key now w

  -- Any other status but 0 ends the transfer; status 3 is the device's own cancel, and is confirmed.
  unfoldable pub accept_refusal :
      ActiveLanPlayback
      → ActivePlaybackTransfer
      → PlaybackAck
      → ℕ
      → List ℕ
      → ℕ
      → World
      → ActiveLanPlayback × World
  unfolding cancel_transfer
  accept_refusal s t ack source key now w =
      let identity = t.begin.identity in
      let (w', outcome) = send_to net w source (encode_finished_ack c identity 1 key) in
      let retired : RetiredPlaybackFinish = record {
        identity = identity;
        source = source;
        expires_at = now + playback_finished_ack_retention;
      } in
      if ack.status == 3
      then cancel_transfer (record s { retired_cancel = some retired }) identity w'
      else cancel_transfer s identity w

  -- Status 0, by the phase of the transfer.
  unfoldable pub accept_progress :
      PlaybackSendPhase
      → ActiveLanPlayback
      → ActivePlaybackTransfer
      → PlaybackAck
      → List ℕ
      → ℕ
      → World
      → ActiveLanPlayback × World
  unfolding continue_transfer
  accept_progress begin_ack s t ack key now w =
      if ack.next_offset == 0
      then continue_transfer s (record t { acknowledged_offset = 0; retry_count = 0 }) key now w
      else (s, w)
  accept_progress data_ack s t ack key now w =
      let t1 = record t { acknowledged_offset = ack.next_offset; retry_count = 0 } in
      let finishing = record t1 {
        phase = device_finished;
        finish_deadline = now + playback_finish_timeout;
      } in
      if ltb t.acknowledged_offset ack.next_offset && leb ack.next_offset t.sent_end_offset
      then (if ack.next_offset != t.sent_end_offset
          then (record s { transfer = some t1 }, w)
          else (if ack.next_offset == length t.eiad
              then (record s { transfer = some finishing }, w)
              else continue_transfer s t1 key now w))
      else (s, w)
  accept_progress _ s t ack key now w = (s, w)

  unfoldable pub accept_ack_of :
      ActiveLanPlayback
      → ActivePlaybackTransfer
      → PlaybackAck
      → ℕ
      → List ℕ
      → ℕ
      → World
      → ActiveLanPlayback × World
  unfolding accept_gap accept_refusal accept_progress
  accept_ack_of s t ack source key now w =
      if not (t.source == source) || not (identity_eq t.begin.identity ack.identity)
      then (s, w)
      else (if (ack.status == 1)
            && (phase_eq t.phase data_ack
                && (leb t.acknowledged_offset ack.next_offset
                    && leb ack.next_offset t.sent_end_offset))
          then accept_gap s t ack key now w
          else (if ack.status != 0
              then accept_refusal s t ack source key now w
              else accept_progress t.phase s t ack key now w))

  -- With no transfer, a repeated cancel is confirmed again while it is remembered.
  unfoldable pub accept_ack :
      ActiveLanPlayback → PlaybackAck → ℕ → List ℕ → ℕ → World → ActiveLanPlayback × World
  unfolding accept_ack_of
  accept_ack s ack source key now w = elim s.transfer [
    | none ↦
        let (w', outcome) = send_to net w source (encode_finished_ack c ack.identity 1 key) in
        if (ack.status == 3) && is_retired s.retired_cancel source ack.identity now
        then (s, w')
        else (s, w)
    | some t ↦ accept_ack_of s t ack source key now w
  ]
