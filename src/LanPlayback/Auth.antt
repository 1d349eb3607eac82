-- ===== src/LanPlayback/Auth.antt =====
-- `sign`, `verify` and `verify_fixed` of app/host/src/lan_playback.rs.
pub mod Laws
use codex_keyboard_windows.Base.{
  ℕ, ◌-◌, ◌||◌, not, List, ◌++◌, length, take, drop, get_or, ltb, ◌!=◌, bytes_eq, Result, ok, err,
  ◌>>=◌, ◌>>◌, reject_if, if◌then◌else◌,
}
use codex_keyboard_windows.Crypto.{Crypto}
use codex_keyboard_windows.LanPlayback.{
  PlaybackWireError, malformed, authentication, playback_tag_bytes, playback_version,
}

module _ (c : Crypto) where
  -- The last 16 bytes become the first half of the digest of those before.
  unfoldable pub sign : List ℕ → List ℕ → List ℕ
  sign packet key =
      let split = length packet - playback_tag_bytes in
      let body = take split packet in body ++ take playback_tag_bytes (c.hmac key body)

  unfoldable pub verify : List ℕ → List ℕ → Result PlaybackWireError (Unit {0})
  verify packet key = do
    reject_if (ltb (length packet) playback_tag_bytes) malformed
    let split = length packet - playback_tag_bytes
    if c.verify_truncated_left key (take split packet) (drop split packet)
        then ok tt
        else err authentication

  unfoldable pub verify_fixed : List ℕ → ℕ → List ℕ → List ℕ → Result PlaybackWireError (Unit {0})
  unfolding verify
  verify_fixed packet size magic key = do
    reject_if
        ((length packet != size)
          || (not (bytes_eq (take 4 packet) magic) || (get_or packet 4 0 != playback_version)))
        malformed
    verify packet key
