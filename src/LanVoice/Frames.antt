-- ===== src/LanVoice/Frames.antt =====
-- The voice datagrams of app/host/src/lan_voice.rs: `EIAU` frames and the `EIAE` end.
-- A mask of low bits, `x & (2^k - 1)`, is written as `x % 2 ^ k`, and `x >> k` as `x / 2 ^ k`.
pub mod Laws
use codex_keyboard_windows.Base.{
  ℕ, ◌+◌, ◌-◌, ◌*◌, ◌/◌, ◌%◌, ◌^◌, ◌||◌, ◌&&◌, not, Bool, Option, none, some, List, [], ◌∷◌, length,
  take, drop, get_or, read, ltb, leb, ◌==◌, ◌!=◌, bytes_eq, from_le, tag_difference, Result, ok,
  err, ◌>>=◌, ◌>>◌, reject_if, ok_or, if◌then◌else◌,
}
use codex_keyboard_windows.Crypto.{Crypto}
use codex_keyboard_windows.LanVoice.Error.{
  LanVoiceError, invalid_packet, invalid_session, authentication,
}

abbrev pub audio_header_bytes : ℕ
audio_header_bytes = 32

abbrev pub audio_auth_tag_bytes : ℕ
audio_auth_tag_bytes = 16

abbrev pub audio_end_bytes : ℕ
audio_end_bytes = audio_header_bytes + audio_auth_tag_bytes

abbrev pub audio_frame_samples : ℕ
audio_frame_samples = 320

abbrev pub audio_frame_bytes : ℕ
audio_frame_bytes = audio_frame_samples * 2

abbrev pub audio_sample_rate : ℕ
audio_sample_rate = 16000

abbrev pub eiau : List ℕ
eiau = b'E' ∷ b'I' ∷ b'A' ∷ b'U' ∷ []

abbrev pub eiae : List ℕ
eiae = b'E' ∷ b'I' ∷ b'A' ∷ b'E' ∷ []

pub record CaptureSessionIdentity : Type 0 where
  pub slot : ℕ
  pub capture_generation : ℕ
  pub connection_generation : ℕ

pub record ParsedFrame : Type 0 where
  pub session_id : ℕ
  pub identity : CaptureSessionIdentity
  pub sequence : ℕ
  pub payload : List ℕ

pub record ParsedEnd : Type 0 where
  pub session_id : ℕ
  pub identity : CaptureSessionIdentity
  pub final_sequence : ℕ

-- `bytes.get(offset..offset + n).ok_or(InvalidPacket)?`, and the integer of those bytes.
unfoldable pub read_le : ℕ → List ℕ → ℕ → Result LanVoiceError ℕ
read_le n bytes offset =
    if leb (offset + n) (length bytes)
    then ok (from_le (read offset n bytes))
    else err invalid_packet

abbrev pub read_u16 : List ℕ → ℕ → Result LanVoiceError ℕ
read_u16 = read_le 2

abbrev pub read_u32 : List ℕ → ℕ → Result LanVoiceError ℕ
read_u32 = read_le 4

abbrev pub read_u64 : List ℕ → ℕ → Result LanVoiceError ℕ
read_u64 = read_le 8

unfoldable pub decode_capture_session_identity : ℕ → Result LanVoiceError CaptureSessionIdentity
decode_capture_session_identity session_id = do
  reject_if (session_id / 2 ^ 56 % 256 != 0xec) invalid_session
  let slot = session_id / 2 ^ 52 % 16
  let connection_generation = session_id / 2 ^ 32 % 2 ^ 20
  let capture_generation = session_id % 2 ^ 32
  reject_if
      (not (leb 1 slot && leb slot 4)
        || ((connection_generation == 0) || (capture_generation == 0)))
      invalid_session
  ok (record {
    slot = slot;
    capture_generation = capture_generation;
    connection_generation = connection_generation;
  })

-- The tests on the length and the first eight bytes.
unfoldable pub prefix_differs : List ℕ → ℕ → List ℕ → ℕ → Bool
prefix_differs datagram size magic channels =
    (length datagram != size)
    || (not (bytes_eq (take 4 datagram) magic)
        || ((get_or datagram 4 0 != 3)
            || ((get_or datagram 5 0 != audio_header_bytes)
                || ((get_or datagram 6 0 != 1) || (get_or datagram 7 0 != channels)))))

-- The header fields that a frame and an end share, with the values that each asks for.
unfoldable pub check_header : List ℕ → ℕ → List ℕ → ℕ → ℕ → ℕ → Result LanVoiceError (Unit {0})
check_header datagram size magic channels samples bytes = do
  reject_if (prefix_differs datagram size magic channels) invalid_packet
  rate ← read_u32 datagram 20
  reject_if (rate != audio_sample_rate) invalid_packet
  frame_samples ← read_u16 datagram 28
  reject_if (frame_samples != samples) invalid_packet
  frame_bytes ← read_u16 datagram 30
  reject_if (frame_bytes != bytes) invalid_packet

module _ (c : Crypto) where
  unfoldable pub verify_audio_authentication :
      List ℕ → Option (List ℕ) → Result LanVoiceError (Unit {0})
  verify_audio_authentication datagram auth_key = do
    key ← ok_or auth_key authentication
    reject_if (ltb (length datagram) audio_auth_tag_bytes) authentication
    let authenticated_bytes = length datagram - audio_auth_tag_bytes
    let expected = c.hmac key (take authenticated_bytes datagram)
    let mismatch =
        tag_difference 0 (take audio_auth_tag_bytes expected) (drop authenticated_bytes datagram)
    if mismatch == 0 then ok tt else err authentication

  unfoldable pub parse_audio_frame : List ℕ → Option (List ℕ) → Result LanVoiceError ParsedFrame
  parse_audio_frame datagram auth_key = do
    check_header datagram (audio_header_bytes + audio_frame_bytes + audio_auth_tag_bytes) eiau 1
        audio_frame_samples audio_frame_bytes
    verify_audio_authentication datagram auth_key
    session_id ← read_u64 datagram 8
    identity ← decode_capture_session_identity session_id
    sequence ← read_u32 datagram 16
    ok (record {
      session_id = session_id;
      identity = identity;
      sequence = sequence;
      payload = read audio_header_bytes audio_frame_bytes datagram;
    })

  unfoldable pub parse_audio_end : List ℕ → Option (List ℕ) → Result LanVoiceError ParsedEnd
  parse_audio_end datagram auth_key = do
    check_header datagram audio_end_bytes eiae 0 0 0
    verify_audio_authentication datagram auth_key
    session_id ← read_u64 datagram 8
    identity ← decode_capture_session_identity session_id
    final_sequence ← read_u32 datagram 16
    ok (record { session_id = session_id; identity = identity; final_sequence = final_sequence })
