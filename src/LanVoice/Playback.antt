-- ===== src/LanVoice/Playback.antt =====
-- The state of `ActiveLanPlayback` in app/host/src/lan_voice.rs and what it does to the outside.
-- An `Instant` is a number of milliseconds, and a handler reads the clock once. A socket address is
-- a number. `net n` is the outcome of the n-th `send_to`: the bytes sent, or `none` for an error.
pub mod Send
pub mod Ack
pub mod Ingest
pub mod Command
pub mod Tick
pub mod Stuck
pub mod Overdue
pub mod Heartbeat
pub mod Beacon
pub mod History
pub mod Bounds
pub mod Delivery
pub mod Endings
pub mod Finish
pub mod Chunks
pub mod Replay
use codex_keyboard_windows.Base.{
  ℕ, ◌+◌, ◌*◌, ◌≡◌, Bool, true, false, ◌&&◌, Option, none, some, List, [], ◌∷◌, ◌++◌, ◌==◌, arith,
}
use codex_keyboard_windows.LanPlayback.{
  PlaybackIdentity, PlaybackBegin, PlaybackRequest, PlaybackFinished, MailboxStatus,
}

abbrev pub playback_retry : ℕ
playback_retry = 250

abbrev pub playback_max_retries : ℕ
playback_max_retries = 16

-- `MAX_TTS_SECONDS + 30` seconds.
abbrev pub playback_finish_timeout : ℕ
playback_finish_timeout = (150 + 30) * 1000

abbrev pub playback_send_window_chunks : ℕ
playback_send_window_chunks = 6

abbrev pub playback_finished_ack_retention : ℕ
playback_finished_ack_retention = 120 * 1000

pub data LanPlaybackEvent : Type 0 where
  request : PlaybackRequest → ℕ → LanPlaybackEvent
  finished : PlaybackFinished → LanPlaybackEvent
  cancelled : PlaybackIdentity → LanPlaybackEvent

pub record LanPlaybackStart : Type 0 where
  pub begin : PlaybackBegin
  pub source : ℕ
  pub eiad : List ℕ

pub data LanPlaybackCommand : Type 0 where
  start : LanPlaybackStart → LanPlaybackCommand
  finish_ack : PlaybackIdentity → LanPlaybackCommand
  cancel : PlaybackIdentity → LanPlaybackCommand
  mailbox : MailboxStatus → LanPlaybackCommand

pub data PlaybackSendPhase : Type 0 where
  begin_ack data_ack device_finished host_commit : PlaybackSendPhase

pub record ActivePlaybackTransfer : Type 0 where
  pub begin : PlaybackBegin
  pub source : ℕ
  pub eiad : List ℕ
  pub phase : PlaybackSendPhase
  pub acknowledged_offset : ℕ
  pub sent_end_offset : ℕ
  pub last_send : ℕ
  pub retry_count : ℕ
  pub finish_deadline : ℕ
  pub started_at : ℕ

pub record RetiredPlaybackFinish : Type 0 where
  pub identity : PlaybackIdentity
  pub source : ℕ
  pub expires_at : ℕ

-- `accepted_requests` maps a slot and a connection generation to the last request generation.
pub record ActiveLanPlayback : Type 0 where
  pub transfer : Option ActivePlaybackTransfer
  pub retired_finish : Option RetiredPlaybackFinish
  pub retired_cancel : Option RetiredPlaybackFinish
  pub accepted_requests : List (ℕ × ℕ × ℕ)
  pub mailbox_status : MailboxStatus

-- What was done so far: the number of `send_to` calls, the datagrams sent, the events queued.
pub record World : Type 0 where
  pub calls : ℕ
  pub sent : List (ℕ × List ℕ)
  pub events : List LanPlaybackEvent

-- `PartialEq` of `PlaybackIdentity`.
abbrev pub identity_eq : PlaybackIdentity → PlaybackIdentity → Bool
identity_eq a b =
    (a.slot == b.slot)
    && ((a.request_generation == b.request_generation)
        && ((a.connection_generation == b.connection_generation)
            && ((a.summary_generation == b.summary_generation) && (a.lease == b.lease))))

-- `PartialEq` of `PlaybackSendPhase`.
abbrev pub phase_eq : PlaybackSendPhase → PlaybackSendPhase → Bool
phase_eq begin_ack begin_ack = true
phase_eq data_ack data_ack = true
phase_eq device_finished device_finished = true
phase_eq host_commit host_commit = true
phase_eq _ _ = false

-- `matches!(phase, DeviceFinished | HostCommit)`.
abbrev pub is_finishing : PlaybackSendPhase → Bool
is_finishing device_finished = true
is_finishing host_commit = true
is_finishing _ = false

abbrev pub is_sent : Option ℕ → Bool
is_sent none = false
is_sent (some size) = true

-- `events.send(event)`, whose result the source drops.
abbrev pub emit : World → LanPlaybackEvent → World
emit w event = record w { events = w.events ++ (event ∷ []) }

-- `socket.send_to(packet, destination)`: a call that fails sends nothing.
unfoldable pub send_to : (ℕ → Option ℕ) → World → ℕ → List ℕ → World × Option ℕ
send_to net w destination packet = elim (net w.calls) [
  | none ↦ (record w { calls = w.calls + 1 }, none)
  | some size ↦
      (record w { calls = w.calls + 1; sent = w.sent ++ ((destination, packet) ∷ []) }, some size)
]

pub identity_eq_sound : (a b : PlaybackIdentity) → identity_eq a b ≡ true → a ≡ b
identity_eq_sound a b h = ground arith

pub identity_eq_refl : (a : PlaybackIdentity) → identity_eq a a ≡ true
identity_eq_refl a = ground arith
