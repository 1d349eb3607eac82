-- ===== src/LanVoice/Capture/Ingest.antt =====
-- `ingest` and `ingest_end` of `CaptureAssembler` in app/host/src/lan_voice.rs.
use codex_keyboard_windows.Base.{
  ℕ, ◌+◌, ◌-◌, ◌*◌, ◌^◌, ◌||◌, ◌&&◌, not, Bool, false, Option, none, some, List, [], ◌∷◌, ◌++◌,
  length, take, replicate, ltb, leb, ◌==◌, min, bytes_eq, Result, ok, err, if◌then◌else◌,
}
use codex_keyboard_windows.Crypto.{Crypto}
use codex_keyboard_windows.LanVoice.Error.{
  LanVoiceError, invalid_packet, invalid_session, invalid_sequence, capture_limit,
}
use codex_keyboard_windows.LanVoice.Frames.{
  CaptureSessionIdentity, ParsedFrame, ParsedEnd, parse_audio_frame, parse_audio_end,
  audio_frame_bytes, eiae,
}
use codex_keyboard_windows.LanVoice.Capture.{
  CaptureAssembler, ActiveCapture, contains, lookup, insert, retire, drop_session, complete,
  max_capture_bytes, max_capture_gap_frames, max_active_captures,
}

abbrev pub eihb : List ℕ
eihb = b'E' ∷ b'I' ∷ b'H' ∷ b'B' ∷ []

abbrev pub Outcome : Type 0
Outcome = CaptureAssembler × Result LanVoiceError (Unit {0})

-- `PartialEq` of `CaptureSessionIdentity`.
abbrev pub session_eq : CaptureSessionIdentity → CaptureSessionIdentity → Bool
session_eq a b =
    (a.slot == b.slot)
    && ((a.capture_generation == b.capture_generation)
        && (a.connection_generation == b.connection_generation))

-- `final_sequence.is_some_and(|final_sequence| sequence >= final_sequence)`.
abbrev pub after_end : Option ℕ → ℕ → Bool
after_end none sequence = false
after_end (some final) sequence = leb final sequence

-- `final_sequence == Some(sequence)`.
abbrev pub is_final : Option ℕ → ℕ → Bool
is_final none sequence = false
is_final (some final) sequence = final == sequence

-- The recording with the missing frames as silence and the new frame behind them.
unfoldable pub append_frame : ActiveCapture → ParsedFrame → ℕ → ActiveCapture
append_frame capture frame now =
    let missing = frame.sequence - capture.next_sequence in
    record capture {
      pcm = capture.pcm ++ (replicate (missing * audio_frame_bytes) 0 ++ frame.payload);
      next_sequence = min (capture.next_sequence + missing + 1) (2 ^ 32 - 1);
      last_frame_at = now;
    }

-- A changed recording is put back, and handed over if it has its last frame.
unfoldable pub store_capture : CaptureAssembler → ℕ → ActiveCapture → CaptureAssembler
store_capture s session_id capture =
    let stored = record s { active = insert session_id capture s.active } in
    if is_final capture.final_sequence capture.next_sequence
    then complete stored session_id
    else stored

-- A frame of a recording that is active.
unfoldable pub accept_frame : CaptureAssembler → ActiveCapture → ParsedFrame → ℕ → ℕ → Outcome
unfolding append_frame store_capture
accept_frame s capture frame source now =
    let missing = frame.sequence - capture.next_sequence in
    let added = missing * audio_frame_bytes + length frame.payload in
    let repeated = record capture { last_frame_at = now } in
    if not (capture.source == source)
      || (not (session_eq capture.identity frame.identity)
          || after_end capture.final_sequence frame.sequence)
    then (drop_session s frame.session_id, err invalid_sequence)
    else (if ltb frame.sequence capture.next_sequence
        then (record s { active = insert frame.session_id repeated s.active }, ok tt)
        else (if ltb max_capture_gap_frames missing
            then (drop_session s frame.session_id, err invalid_sequence)
            else (if ltb max_capture_bytes (length capture.pcm + added)
                then (drop_session s frame.session_id, err capture_limit)
                else (store_capture s frame.session_id (append_frame capture frame now), ok tt))))

unfoldable pub new_capture : ParsedFrame → ℕ → ℕ → ActiveCapture
new_capture frame source now = record {
  session_id = frame.session_id;
  identity = frame.identity;
  source = source;
  next_sequence = 0;
  pcm = [];
  last_frame_at = now;
  final_sequence = none;
}

unfoldable pub ingest_frame : CaptureAssembler → ParsedFrame → ℕ → ℕ → Outcome
unfolding accept_frame new_capture
ingest_frame s frame source now =
    let capture = new_capture frame source now in
    let opened = record s { active = insert frame.session_id capture s.active } in
    if contains s.retired frame.session_id
    then (s, ok tt)
    else (elim (lookup frame.session_id s.active) [
      | some known ↦ accept_frame s known frame source now
      | none ↦
          if ltb max_capture_gap_frames frame.sequence
          then (retire s frame.session_id, err invalid_sequence)
          else (if leb max_active_captures (length s.active)
              then (retire s frame.session_id, err capture_limit)
              else accept_frame opened capture frame source now)
    ])

-- The first end of a recording, which says how many frames it has.
unfoldable pub set_end : CaptureAssembler → ActiveCapture → ParsedEnd → ℕ → Outcome
unfolding store_capture
set_end s capture terminal now =
    let missing = terminal.final_sequence - capture.next_sequence in
    let ended = record capture {
      pcm = capture.pcm ++ replicate (missing * audio_frame_bytes) 0;
      next_sequence = terminal.final_sequence;
      last_frame_at = now;
      final_sequence = some terminal.final_sequence;
    } in
    if ltb max_capture_gap_frames missing
    then (drop_session s terminal.session_id, err invalid_sequence)
    else (store_capture s terminal.session_id ended, ok tt)

unfoldable pub accept_end : CaptureAssembler → ActiveCapture → ParsedEnd → ℕ → ℕ → Outcome
unfolding set_end
accept_end s capture terminal source now =
    let repeated = record capture { last_frame_at = now } in
    if not (capture.source == source)
      || (not (session_eq capture.identity terminal.identity)
          || (ltb terminal.final_sequence capture.next_sequence
              || ltb max_capture_bytes (terminal.final_sequence * audio_frame_bytes)))
    then (drop_session s terminal.session_id, err invalid_sequence)
    else (elim capture.final_sequence [
      | some existing ↦
          if existing == terminal.final_sequence
          then (record s { active = insert terminal.session_id repeated s.active }, ok tt)
          else (drop_session s terminal.session_id, err invalid_sequence)
      | none ↦ set_end s capture terminal now
    ])

unfoldable pub ingest_terminal : CaptureAssembler → ParsedEnd → ℕ → ℕ → Outcome
unfolding accept_end
ingest_terminal s terminal source now =
    if contains s.retired terminal.session_id
    then (s, ok tt)
    else (elim (lookup terminal.session_id s.active) [
      | none ↦ (s, err invalid_session)
      | some capture ↦ accept_end s capture terminal source now
    ])

-- A heartbeat that comes here is no error.
abbrev pub not_a_frame : CaptureAssembler → List ℕ → LanVoiceError → Outcome
not_a_frame s datagram invalid_packet =
    if leb 4 (length datagram) && bytes_eq (take 4 datagram) eihb
    then (s, ok tt)
    else (s, err invalid_packet)
not_a_frame s datagram error = (s, err error)

module _ (c : Crypto) where
  unfoldable pub ingest_end : CaptureAssembler → List ℕ → ℕ → ℕ → Outcome
  ingest_end s datagram source now = elim (parse_audio_end c datagram s.auth_key) [
    | err e ↦ (s, err e)
    | ok terminal ↦ ingest_terminal s terminal source now
  ]

  unfoldable pub ingest : CaptureAssembler → List ℕ → ℕ → ℕ → Outcome
  unfolding ingest_end
  ingest s datagram source now =
      if leb 4 (length datagram) && bytes_eq (take 4 datagram) eiae
      then ingest_end s datagram source now
      else (elim (parse_audio_frame c datagram s.auth_key) [
        | err e ↦ not_a_frame s datagram e
        | ok frame ↦ ingest_frame s frame source now
      ])
