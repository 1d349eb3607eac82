-- ===== src/Audio.antt =====
-- The errors and the limits of app/host/src/audio.rs, and `validate_pcm`.
pub mod Wav
pub mod WavLaws
pub mod Ima
pub mod ImaLaws
pub mod ImaError
pub mod Examples
use codex_keyboard_windows.Base.{
  ℕ, ◌/◌, ◌%◌, ◌*◌, ◌||◌, Bool, List, [], ◌∷◌, length, ltb, ◌==◌, ◌!=◌, Result, ok, err, ◌>>=◌,
  ◌>>◌, reject_if,
}

pub data AudioError : Type 0 where
  invalid_pcm invalid_wav invalid_eiad size : AudioError

abbrev pub tts_sample_rate : ℕ
tts_sample_rate = 48000

abbrev pub max_tts_seconds : ℕ
max_tts_seconds = 150

-- `Vec::is_empty`.
abbrev pub is_empty : List ℕ → Bool
is_empty bytes = length bytes == 0

-- The number of samples.
unfoldable pub validate_pcm : List ℕ → Result AudioError ℕ
validate_pcm pcm_le = do
  reject_if (is_empty pcm_le || (length pcm_le % 2 != 0)) invalid_pcm
  let samples = length pcm_le / 2
  reject_if (ltb (tts_sample_rate * max_tts_seconds) samples) invalid_pcm
  ok samples
