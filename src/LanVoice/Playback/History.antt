-- ===== src/LanVoice/Playback/History.antt =====
-- The rounds of the ingress worker in `LanVoiceIngress::start` (app/host/src/lan_voice.rs), as far as
-- they touch the playback: commands, playback datagrams, and the tick.
use codex_keyboard_windows.Base.{ℕ, Option, none, some, List, [], ◌∷◌, replicate}
use codex_keyboard_windows.Crypto.{Crypto}
use codex_keyboard_windows.LanVoice.Playback.{World, ActiveLanPlayback, LanPlaybackCommand}
use codex_keyboard_windows.LanVoice.Playback.Ingest.{ingest}
use codex_keyboard_windows.LanVoice.Playback.Command.{handle_command}
use codex_keyboard_windows.LanVoice.Playback.Tick.{tick}

-- One call on `playback`, with the key that is loaded and the time of the call.
pub data Call : Type 0 where
  commands : LanPlaybackCommand → Option (List ℕ) → ℕ → Call
  receives : List ℕ → ℕ → Option (List ℕ) → ℕ → Call
  ticks : Option (List ℕ) → ℕ → Call

-- `ActiveLanPlayback::default()`.
unfoldable pub initial : ActiveLanPlayback
initial = record {
  transfer = none;
  retired_finish = none;
  retired_cancel = none;
  accepted_requests = [];
  mailbox_status = record { unread_slots = 0; running_tasks = 0; coverage_by_slot = replicate 4 0 };
}

module _ (c : Crypto) (net : ℕ → Option ℕ) where
  -- A datagram that arrives before a key is loaded is dropped.
  unfoldable pub step : ActiveLanPlayback → World → Call → ActiveLanPlayback × World
  step s w (commands command key now) = handle_command c net s command key now w
  step s w (receives packet source none now) = (s, w)
  step s w (receives packet source (some key) now) = ingest c net s packet source key now w
  step s w (ticks key now) = tick c net s key now w

  unfoldable pub run : ActiveLanPlayback → World → List Call → ActiveLanPlayback × World
  run s w [] = (s, w)
  run s w (call ∷ calls) = let (s', w') = step s w call in run s' w' calls
