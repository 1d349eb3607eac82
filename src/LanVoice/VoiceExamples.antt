-- ===== src/LanVoice/VoiceExamples.antt =====
-- A voice frame, an end, and a short recording, on concrete datagrams.
use codex_keyboard_windows.Base.{
  ℕ, ◌<◌, ◌≡◌, ◌↔◌, ◌^◌, refl, some, List, [], ◌∷◌, ◌++◌, take, replicate, arith, le_bytes, from_le,
  tag_difference, ok,
}
use codex_keyboard_windows.Crypto.Toy.{toy, toy-IsMac}
use codex_keyboard_windows.LanPlayback.Examples.{key, all_bytes_sound}
use codex_keyboard_windows.LanVoice.Frames.{
  CaptureSessionIdentity, ParsedFrame, ParsedEnd, eiau, eiae, read_le, prefix_differs, check_header,
  decode_capture_session_identity, verify_audio_authentication, parse_audio_frame,
}
use codex_keyboard_windows.LanVoice.Frames.Laws.{
  session_of, IsSession, IsTagged, IsFrame, decode_capture_session_identity-session_of,
  session_of-decode_capture_session_identity, verify_audio_authentication-IsTagged,
  parse_audio_frame-IsFrame,
}
use codex_keyboard_windows.LanVoice.Capture.{new}
use codex_keyboard_windows.LanVoice.Capture.Invariant.{IsAssembler, AllReady}
use codex_keyboard_windows.LanVoice.Capture.History.{
  Call, receives, expires, takes, run, run-new-IsAssembler,
}

abbrev session : CaptureSessionIdentity
session = record { slot = 2; capture_generation = 9; connection_generation = 7 }

session-IsSession : IsSession session
session-IsSession = record {
  slot_low = omega arith;
  slot_high = omega arith;
  connection_set = omega arith;
  connection_fits = omega arith;
  capture_set = omega arith;
  capture_fits = omega arith;
}

session_round_trip_example : decode_capture_session_identity (session_of session) ≡ ok session
session_round_trip_example = decode_capture_session_identity-session_of session session-IsSession

session_of_fits : session_of session < 2 ^ 64
session_of_fits = omega arith

session_unique_example : IsSession session × (session_of session ≡ session_of session)
session_unique_example =
    session_of-decode_capture_session_identity (session_of session) session session_of_fits
      (decode_capture_session_identity-session_of session session-IsSession)

-- Body and tag.
abbrev tagged : List ℕ → List ℕ
tagged body = body ++ take 16 (toy.hmac key body)

abbrev frame_body : List ℕ
frame_body =
    eiau
    ++ (3 ∷ 32 ∷ 1 ∷ 1 ∷ le_bytes 8 (session_of session)
        ++ (le_bytes 4 0
            ++ (le_bytes 4 16000
                ++ (le_bytes 4 0 ++ (le_bytes 2 320 ++ (le_bytes 2 640 ++ replicate 640 5))))))

abbrev end_body : List ℕ
end_body =
    eiae
    ++ (3 ∷ 32 ∷ 1 ∷ 0 ∷ le_bytes 8 (session_of session)
        ++ (le_bytes 4 1 ++ (le_bytes 4 16000 ++ replicate 8 0)))

abbrev parsed_end : ParsedEnd
parsed_end = record { session_id = session_of session; identity = session; final_sequence = 1 }

abbrev parsed_frame : ParsedFrame
parsed_frame = record {
  session_id = session_of session;
  identity = session;
  sequence = 0;
  payload = replicate 640 5;
}

authentication_example :
    (verify_audio_authentication toy (tagged end_body) (some key) ≡ ok tt)
    ↔ IsTagged toy toy-IsMac (tagged end_body) key
unfolding le_bytes
authentication_example =
    verify_audio_authentication-IsTagged toy toy-IsMac (tagged end_body) key
      (all_bytes_sound (tagged end_body) refl)

IsFrame-example : IsFrame toy toy-IsMac (tagged frame_body) (some key) parsed_frame
unfolding le_bytes parse_audio_frame check_header prefix_differs read_le from_le
    verify_audio_authentication tag_difference decode_capture_session_identity
IsFrame-example =
    parse_audio_frame-IsFrame toy toy-IsMac (tagged frame_body) (some key) parsed_frame
      (all_bytes_sound (tagged frame_body) refl) refl

abbrev calls : List Call
calls =
    receives (tagged frame_body) 7 100 ∷ receives (tagged end_body) 7 120 ∷ expires 200 ∷ takes ∷ []

captures_example :
    IsAssembler (run toy (new (some key)) calls).0 × AllReady (run toy (new (some key)) calls).1
unfolding le_bytes
captures_example =
    run-new-IsAssembler toy toy-IsMac (some key) calls
      (all_bytes_sound (tagged frame_body) refl, (all_bytes_sound (tagged end_body) refl, tt))
