-- ===== src/Audio/Examples.antt =====
-- Two samples as a WAV file.
use codex_keyboard_windows.Base.{
  ℕ, ◌+◌, ◌/◌, arith, ◌≡◌, ◌≤◌, ◌<◌, ◌⊎◌, refl, true, none, some, List, [], ◌∷◌, ◌++◌, length, drop,
  get_u32, le_bytes, from_le, get_u16, ok,
}
use codex_keyboard_windows.Audio.{validate_pcm}
use codex_keyboard_windows.Audio.Ima.{ℤ, pos, negsuc, encode_ima_sample, decode_ima_sample}
use codex_keyboard_windows.Audio.ImaLaws.{decode_ima_sample-encode_ima_sample}
use codex_keyboard_windows.Audio.ImaError.{distance, encode_ima_sample-distance}
use codex_keyboard_windows.Audio.Wav.{
  wav_header, wav_malformed, encode_wav, decode_wav, streaming_sentinel,
}
use codex_keyboard_windows.Audio.WavLaws.{decode_wav-encode_wav, decode_wav_sound}

abbrev pcm : List ℕ
pcm = 1 ∷ 2 ∷ 3 ∷ 255 ∷ []

abbrev wav : List ℕ
wav = wav_header 4 ++ pcm

wav_round_trip_example : (w : List ℕ) × (encode_wav pcm ≡ ok w) × (decode_wav w ≡ ok pcm)
unfolding validate_pcm
wav_round_trip_example = decode_wav-encode_wav pcm 2 refl

wav_accepted_example :
    (length wav ≡ 44 + length pcm)
    × (drop 44 wav ≡ pcm)
    × ((samples : ℕ) × (validate_pcm pcm ≡ ok samples))
    × ((streaming_sentinel wav ≡ true) ⊎ (get_u32 wav 40 ≡ length pcm))
unfolding validate_pcm decode_wav wav_header wav_malformed le_bytes get_u16 get_u32 from_le
wav_accepted_example = decode_wav_sound wav pcm refl

ima_agreement_example :
    ((20 ≤ 88)
      × ((code : ℕ) × (predictor : ℤ) × (index : ℕ) × (encode_ima_sample (pos 1000) (negsuc 4) 20
            ≡ some (code, predictor, index))
          × (decode_ima_sample code (negsuc 4) 20 ≡ some (predictor, index))
          × (code < 16)
          × (index ≤ 88)))
    ⊎ ((88 < 20)
        × (encode_ima_sample (pos 1000) (negsuc 4) 20 ≡ none)
        × ((code : ℕ) → decode_ima_sample code (negsuc 4) 20 ≡ none))
ima_agreement_example = decode_ima_sample-encode_ima_sample (pos 1000) (negsuc 4) 20

distance_example :
    (code : ℕ) × (predictor : ℤ) × (index : ℕ) × (encode_ima_sample (pos 37) (negsuc 4) 20
      ≡ some (code, predictor, index))
    × (distance (pos 37) predictor ≤ 50 / 8 + 2)
distance_example =
    encode_ima_sample-distance (pos 37) (negsuc 4) 20 50 (omega arith) refl (omega arith)
