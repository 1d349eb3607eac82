-- ===== src/LanVoice/Playback/Command.antt =====
-- `handle_command` of app/host/src/lan_voice.rs: what the Host's main loop asks of the transfer.
use codex_keyboard_windows.Base.{
  ℕ, ◌+◌, ◌&&◌, ◌||◌, not, Bool, true, false, Option, none, some, List, length, ◌==◌, if◌then◌else◌,
}
use codex_keyboard_windows.Crypto.{Crypto}
use codex_keyboard_windows.LanPlayback.{PlaybackIdentity}
use codex_keyboard_windows.LanPlayback.Control.{encode_begin, encode_finished_ack}
use codex_keyboard_windows.LanVoice.Playback.{
  World, ActiveLanPlayback, ActivePlaybackTransfer, LanPlaybackStart, LanPlaybackCommand,
  RetiredPlaybackFinish, start, finish_ack, cancel, mailbox, cancelled, begin_ack, host_commit,
  phase_eq, identity_eq, emit, send_to, playback_finish_timeout, playback_finished_ack_retention,
}

abbrev pub is_some : Option ActivePlaybackTransfer → Bool
is_some none = false
is_some (some t) = true

-- The transfer that a start opens once its begin packet is out.
unfoldable pub new_transfer : LanPlaybackStart → ℕ → ActivePlaybackTransfer
new_transfer begun now = record {
  begin = begun.begin;
  source = begun.source;
  eiad = begun.eiad;
  phase = begin_ack;
  acknowledged_offset = 0;
  sent_end_offset = 0;
  last_send = now;
  retry_count = 0;
  finish_deadline = now + playback_finish_timeout;
  started_at = now;
}

module _ (c : Crypto) (net : ℕ → Option ℕ) where
  unfoldable pub start_transfer :
      ActiveLanPlayback → LanPlaybackStart → Option (List ℕ) → ℕ → World → ActiveLanPlayback × World
  unfolding new_transfer
  start_transfer s begun key now w =
      let refused = emit w (cancelled begun.begin.identity) in
      if is_some s.transfer
        || ((length begun.eiad == 0) || not (length begun.eiad == begun.begin.total_bytes))
      then (s, refused)
      else (elim key [
        | none ↦ (s, refused)
        | some k ↦
            let (w', outcome) = send_to net w begun.source (encode_begin c begun.begin k) in
            elim outcome [
              | none ↦ (s, emit w' (cancelled begun.begin.identity))
              | some size ↦ (record s { transfer = some (new_transfer begun now) }, w')
            ]
      ])

  unfoldable pub commit_finished :
      ActiveLanPlayback
      → Option ActivePlaybackTransfer
      → PlaybackIdentity
      → Option (List ℕ)
      → ℕ
      → World
      → ActiveLanPlayback × World
  commit_finished s none identity key now w = (s, w)
  commit_finished s (some t) identity none now w = (s, w)
  commit_finished s (some t) identity (some k) now w =
      let (w', outcome) = send_to net w t.source (encode_finished_ack c identity 0 k) in
      let retired : RetiredPlaybackFinish = record {
        identity = identity;
        source = t.source;
        expires_at = now + playback_finished_ack_retention;
      } in
      let done = record s { retired_finish = some retired; transfer = none } in
      let tried = elim outcome as (λ _. ActiveLanPlayback × World) [
        | none ↦ (s, w')
        | some size ↦ (done, w')
      ] in
      if identity_eq t.begin.identity identity && phase_eq t.phase host_commit
      then tried
      else (s, w)

  unfoldable pub handle_command :
      ActiveLanPlayback
      → LanPlaybackCommand
      → Option (List ℕ)
      → ℕ
      → World
      → ActiveLanPlayback × World
  unfolding start_transfer commit_finished
  handle_command s (start begun) key now w = start_transfer s begun key now w
  handle_command s (finish_ack identity) key now w = commit_finished s s.transfer identity key now w
  handle_command s (cancel identity) key now w = elim s.transfer [
    | none ↦ (s, w)
    | some t ↦
        if identity_eq t.begin.identity identity then (record s { transfer = none }, w) else (s, w)
  ]
  handle_command s (mailbox status) key now w = (record s { mailbox_status = status }, w)
