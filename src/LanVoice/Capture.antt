-- ===== src/LanVoice/Capture.antt =====
-- `CaptureAssembler` of app/host/src/lan_voice.rs: it puts the frames of a recording in order, fills
-- short gaps with silence, and hands over each recording once. An `Instant` is a number of
-- milliseconds; `active` is the `BTreeMap` as a list in the order of its keys.
pub mod Ingest
pub mod Maps
pub mod Invariant
pub mod Steps
pub mod History
use codex_keyboard_windows.Base.{
  ℕ, ◌*◌, ◌^◌, ◌-◌, Bool, true, false, ◌||◌, Option, none, some, List, [], ◌∷◌, ◌++◌, length, ltb,
  leb, ◌==◌, Result, ok, err, if◌then◌else◌,
}
use codex_keyboard_windows.LanVoice.Error.{LanVoiceError, capture_too_short, invalid_sequence}
use codex_keyboard_windows.LanVoice.Frames.{
  CaptureSessionIdentity, audio_frame_bytes, audio_sample_rate,
}

abbrev pub max_capture_bytes : ℕ
max_capture_bytes = audio_sample_rate * 2 * 90

abbrev pub min_capture_frames : ℕ
min_capture_frames = 10

abbrev pub max_capture_gap_frames : ℕ
max_capture_gap_frames = 10

abbrev pub max_active_captures : ℕ
max_active_captures = 4

abbrev pub max_retired_sessions : ℕ
max_retired_sessions = 128

abbrev pub capture_abort_timeout : ℕ
capture_abort_timeout = 15 * 1000

pub record ActiveCapture : Type 0 where
  pub session_id : ℕ
  pub identity : CaptureSessionIdentity
  pub source : ℕ
  pub next_sequence : ℕ
  pub pcm : List ℕ
  pub last_frame_at : ℕ
  pub final_sequence : Option ℕ

pub record CompletedCapture : Type 0 where
  pub session_id : ℕ
  pub identity : CaptureSessionIdentity
  pub pcm : List ℕ

-- The front of `retired` and of `ready` is the head of the list.
pub record CaptureAssembler : Type 0 where
  pub active : List (ℕ × ActiveCapture)
  pub retired : List ℕ
  pub ready : List (Result LanVoiceError CompletedCapture)
  pub auth_key : Option (List ℕ)

unfoldable pub new : Option (List ℕ) → CaptureAssembler
new auth_key = record { active = []; retired = []; ready = []; auth_key = auth_key }

-- `VecDeque::contains`.
unfoldable pub contains : List ℕ → ℕ → Bool
contains [] k = false
contains (x ∷ xs) k = (x == k) || contains xs k

-- `BTreeMap::get`.
unfoldable pub lookup : ℕ → List (ℕ × ActiveCapture) → Option ActiveCapture
lookup k [] = none
lookup k ((j, a) ∷ rest) = if j == k then some a else lookup k rest

-- `BTreeMap::insert`.
unfoldable pub insert : ℕ → ActiveCapture → List (ℕ × ActiveCapture) → List (ℕ × ActiveCapture)
insert k a [] = (k, a) ∷ []
insert k a ((j, b) ∷ rest) =
    if ltb k j
    then (k, a) ∷ (j, b) ∷ rest
    else (if j == k then (k, a) ∷ rest else (j, b) ∷ insert k a rest)

-- `BTreeMap::remove`.
unfoldable pub remove : ℕ → List (ℕ × ActiveCapture) → List (ℕ × ActiveCapture)
remove k [] = []
remove k ((j, b) ∷ rest) = if j == k then rest else (j, b) ∷ remove k rest

-- `while self.retired.len() > MAX_RETIRED_SESSIONS { self.retired.pop_front(); }`.
unfoldable pub trim : List ℕ → List ℕ
trim [] = []
trim (x ∷ xs) =
    let rest = trim xs in if ltb max_retired_sessions (length (x ∷ xs)) then rest else x ∷ xs

unfoldable pub retire : CaptureAssembler → ℕ → CaptureAssembler
unfolding trim contains
retire s session_id =
    if contains s.retired session_id
    then s
    else record s { retired = trim (s.retired ++ (session_id ∷ [])) }

-- `self.active.remove(&session); self.retire(session);`
unfoldable pub drop_session : CaptureAssembler → ℕ → CaptureAssembler
unfolding retire
drop_session s session_id = retire (record s { active = remove session_id s.active }) session_id

-- What a recording is handed over as.
unfoldable pub finish : ActiveCapture → Result LanVoiceError CompletedCapture
finish capture =
    if ltb capture.next_sequence min_capture_frames
    then err capture_too_short
    else ok
        (record { session_id = capture.session_id; identity = capture.identity; pcm = capture.pcm })

unfoldable pub complete : CaptureAssembler → ℕ → CaptureAssembler
unfolding drop_session finish
complete s session_id = elim (lookup session_id s.active) [
  | none ↦ s
  | some capture ↦
      let dropped = drop_session s session_id in
      record dropped { ready = dropped.ready ++ (finish capture ∷ []) }
]

unfoldable pub take_ready :
    CaptureAssembler → CaptureAssembler × List (Result LanVoiceError CompletedCapture)
take_ready s = (record s { ready = [] }, s.ready)

-- The sessions that had no frame for 15 seconds, in the order of the map.
unfoldable pub idle_sessions : ℕ → List (ℕ × ActiveCapture) → List ℕ
idle_sessions now [] = []
idle_sessions now ((k, a) ∷ rest) =
    let others = idle_sessions now rest in
    if leb capture_abort_timeout (now - a.last_frame_at) then k ∷ others else others

unfoldable pub expire_all : CaptureAssembler → List ℕ → CaptureAssembler × List LanVoiceError
unfolding drop_session
expire_all s [] = (s, [])
expire_all s (k ∷ ks) = elim (lookup k s.active) [
  | none ↦ expire_all s ks
  | some capture ↦
      let (s', errors) = expire_all (drop_session s k) ks in (s', invalid_sequence ∷ errors)
]

unfoldable pub expire_incomplete : CaptureAssembler → ℕ → CaptureAssembler × List LanVoiceError
unfolding expire_all idle_sessions
expire_incomplete s now = expire_all s (idle_sessions now s.active)
