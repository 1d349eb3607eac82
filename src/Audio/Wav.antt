-- ===== src/Audio/Wav.antt =====
-- `encode_wav` and `decode_wav` of app/host/src/audio.rs. A `usize` has 64 bits: the sizes here fit.
use codex_keyboard_windows.Base.{
  ℕ, ◌+◌, ◌-◌, ◌*◌, ◌^◌, ◌||◌, ◌&&◌, not, Bool, List, [], ◌∷◌, ◌++◌, length, take, drop, read, ltb,
  leb, ◌==◌, ◌!=◌, bytes_eq, le_bytes, get_u16, get_u32, Result, ok, err, ◌>>=◌, ◌>>◌, reject_if,
}
use codex_keyboard_windows.Audio.{AudioError, invalid_wav, size, tts_sample_rate, validate_pcm}

abbrev pub wav_header_bytes : ℕ
wav_header_bytes = 44

abbrev pub riff : List ℕ
riff = b'R' ∷ b'I' ∷ b'F' ∷ b'F' ∷ []

abbrev pub wave_fmt : List ℕ
wave_fmt = b'W' ∷ b'A' ∷ b'V' ∷ b'E' ∷ b'f' ∷ b'm' ∷ b't' ∷ b' ' ∷ []

abbrev pub data_tag : List ℕ
data_tag = b'd' ∷ b'a' ∷ b't' ∷ b'a' ∷ []

-- What `encode_wav` writes before the samples.
unfoldable pub wav_header : ℕ → List ℕ
wav_header data_bytes =
    riff
    ++ (le_bytes 4 (data_bytes + 36)
        ++ (wave_fmt
            ++ (le_bytes 4 16
                ++ (le_bytes 2 1
                    ++ (le_bytes 2 1
                        ++ (le_bytes 4 tts_sample_rate
                            ++ (le_bytes 4 (tts_sample_rate * 2)
                                ++ (le_bytes 2 2
                                    ++ (le_bytes 2 16
                                        ++ (data_tag ++ le_bytes 4 data_bytes))))))))))

unfoldable pub encode_wav : List ℕ → Result AudioError (List ℕ)
encode_wav pcm_le = do
  samples ← validate_pcm pcm_le
  let data_bytes = length pcm_le
  reject_if (leb (2 ^ 32) data_bytes) size
  reject_if (leb (2 ^ 32) (data_bytes + 36)) size
  ok (wav_header data_bytes ++ pcm_le)

-- The header fields other than the two sizes.
unfoldable pub wav_malformed : List ℕ → Bool
wav_malformed wav =
    ltb (length wav) wav_header_bytes
    || (not (bytes_eq (take 4 wav) riff)
        || (not (bytes_eq (read 8 8 wav) wave_fmt)
            || ((get_u32 wav 16 != 16)
                || ((get_u16 wav 20 != 1)
                    || ((get_u16 wav 22 != 1)
                        || ((get_u32 wav 24 != tts_sample_rate)
                            || ((get_u32 wav 28 != tts_sample_rate * 2)
                                || ((get_u16 wav 32 != 2)
                                    || ((get_u16 wav 34 != 16)
                                        || not (bytes_eq (read 36 4 wav) data_tag))))))))))

-- The sizes that a producer writes who does not know the length.
abbrev pub streaming_sentinel : List ℕ → Bool
streaming_sentinel wav = (get_u32 wav 4 == 0x7fffffbf) && (get_u32 wav 40 == 0x7fffff9b)

-- A length of 2 ^ 32 or more is no `u32`, and so differs from every declared one.
abbrev pub sizes_differ : List ℕ → Bool
sizes_differ wav =
    (wav_header_bytes + get_u32 wav 40 != length wav) || (get_u32 wav 4 != length wav - 8)

-- `map_err(|_| AudioError::InvalidWav)`.
abbrev pub as_invalid_wav : Result AudioError ℕ → Result AudioError ℕ
as_invalid_wav (ok samples) = ok samples
as_invalid_wav (err e) = err invalid_wav

unfoldable pub decode_wav : List ℕ → Result AudioError (List ℕ)
decode_wav wav = do
  reject_if (wav_malformed wav) invalid_wav
  reject_if (not (streaming_sentinel wav) && sizes_differ wav) invalid_wav
  samples ← as_invalid_wav (validate_pcm (drop wav_header_bytes wav))
  ok (drop wav_header_bytes wav)
