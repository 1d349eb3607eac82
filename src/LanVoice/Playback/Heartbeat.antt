-- ===== src/LanVoice/Playback/Heartbeat.antt =====
-- `handle_heartbeat` of app/host/src/lan_voice.rs: an authenticated heartbeat is answered with the
-- mailbox status. The key has 32 bytes, for which `Hmac::new_from_slice` does not fail.
use Prim.Native.Nat.{bit_and}
use codex_keyboard_windows.Base.{
  ℕ, Bool, false, not, ◌||◌, Option, none, some, List, [], ◌∷◌, ◌++◌, length, take, read, get_or,
  ◌==◌, ◌!=◌, bytes_eq, get_u16, get_u32, tag_difference, ok, err, if◌then◌else◌,
}
use codex_keyboard_windows.Crypto.{Crypto}
use codex_keyboard_windows.LanPlayback.Mailbox.{encode_mailbox_status}
use codex_keyboard_windows.LanVoice.Playback.{World, ActiveLanPlayback, send_to}

pub data HeartbeatResponse : Type 0 where
  invalid send_failed sent : HeartbeatResponse

abbrev pub authenticated_heartbeat_bytes : ℕ
authenticated_heartbeat_bytes = 80

abbrev pub heartbeat_auth_context : List ℕ
heartbeat_auth_context =
    b'E' ∷ b'a' ∷ b's' ∷ b'y' ∷ b'I' ∷ b'n' ∷ b'p' ∷ b'u' ∷ b't' ∷ b'/' ∷ b'E' ∷ b'I' ∷ b'S' ∷ b'D'
    ∷ b'/' ∷ b'v' ∷ b'1' ∷ []

abbrev pub eihb : List ℕ
eihb = b'E' ∷ b'I' ∷ b'H' ∷ b'B' ∷ []

abbrev pub eisd : List ℕ
eisd = b'E' ∷ b'I' ∷ b'S' ∷ b'D' ∷ []

-- The tests on the layout; `!0x03` is 0xFC in a byte.
unfoldable pub heartbeat_malformed : List ℕ → Bool
heartbeat_malformed packet =
    (length packet != authenticated_heartbeat_bytes)
    || (not (bytes_eq (take 4 packet) eihb)
        || ((get_or packet 4 0 != 1)
            || ((bit_and (get_or packet 5 0) 0xfc != 0)
                || (not (bytes_eq (read 6 2 packet) (0 ∷ 0 ∷ []))
                    || (not (bytes_eq (read 20 4 packet) eisd)
                        || ((get_or packet 24 0 != 1)
                            || ((get_or packet 25 0 != 60)
                                || (bit_and (get_u16 packet 26) 0x0002 == 0))))))))

-- What became of the answer.
abbrev pub response_of : ℕ → Option ℕ → HeartbeatResponse
response_of size none = send_failed
response_of size (some n) = if n == size then sent else send_failed

module _ (c : Crypto) where
  unfoldable pub heartbeat_difference : List ℕ → List ℕ → ℕ
  heartbeat_difference packet key =
      tag_difference 0 (take 16 (c.hmac key (heartbeat_auth_context ++ take 64 packet)))
        (read 64 16 packet)

  -- A packet that is to be answered.
  unfoldable pub accepts_heartbeat : List ℕ → List ℕ → Bool
  accepts_heartbeat packet key =
      if heartbeat_malformed packet then false else heartbeat_difference packet key == 0

module _ (c : Crypto) (net : ℕ → Option ℕ) where
  unfoldable pub handle_heartbeat :
      ActiveLanPlayback → List ℕ → ℕ → List ℕ → World → World × HeartbeatResponse
  unfolding accepts_heartbeat
  handle_heartbeat s packet source key w =
      if accepts_heartbeat c packet key
      then (elim (encode_mailbox_status c s.mailbox_status (get_u32 packet 16) key) [
        | err e ↦ (w, invalid)
        | ok response ↦
            let (w', outcome) = send_to net w source response in
            (w', response_of (length response) outcome)
      ])
      else (w, invalid)
