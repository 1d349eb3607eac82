-- ===== src/Audio/WavLaws.antt =====
-- What `encode_wav` of app/host/src/audio.rs writes is read back by `decode_wav`.
use codex_keyboard_windows.Base.{
  ℕ, ◌+◌, ◌^◌, ◌≤◌, ◌<◌, ◌≡◌, refl, ap, ◌&&◌, not, Bool, true, false, List, ◌++◌, length,
  length-drop, drop, ltb, leb, ◌⊎◌, le_bytes, from_le, get_u16, get_u32, from_le-le_bytes, ok,
  >>=-eq-ok, subst, reject_if, arith, Bool-cases, inl, inr,
}
use codex_keyboard_windows.Audio.{invalid_wav, validate_pcm}
use codex_keyboard_windows.Audio.Wav.{
  wav_header, encode_wav, wav_malformed, streaming_sentinel, sizes_differ, as_invalid_wav,
  decode_wav,
}

validate_pcm_small : (pcm : List ℕ) (n : ℕ) → validate_pcm pcm ≡ ok n → length pcm ≤ 14400001
unfolding validate_pcm
validate_pcm_small pcm n h = ground arith

header_length : (d : ℕ) (pcm : List ℕ) → length (wav_header d ++ pcm) ≡ 44 + length pcm
unfolding wav_header le_bytes
header_length d pcm = omega arith

header_fine : (d : ℕ) (pcm : List ℕ) → wav_malformed (wav_header d ++ pcm) ≡ false
unfolding wav_malformed wav_header le_bytes get_u32 get_u16 from_le
header_fine d pcm =
    let long : ltb (length (wav_header d ++ pcm)) 44 ≡ false =
      ground (arith, header_length d pcm) in
    rw (long) refl

header_rest : (d : ℕ) (pcm : List ℕ) → drop 44 (wav_header d ++ pcm) ≡ pcm
unfolding wav_header le_bytes
header_rest d pcm = refl

header_data : (d : ℕ) (pcm : List ℕ) → d < 256 ^ 4 → get_u32 (wav_header d ++ pcm) 40 ≡ d
unfolding wav_header le_bytes get_u32
header_data d pcm h = from_le-le_bytes 4 d h

header_riff : (d : ℕ) (pcm : List ℕ) → d + 36 < 256 ^ 4 → get_u32 (wav_header d ++ pcm) 4 ≡ d + 36
unfolding wav_header le_bytes get_u32
header_riff d pcm h = from_le-le_bytes 4 (d + 36) h

Bool_and : (b : Bool) → (not b && false) ≡ false
Bool_and b = ground arith

-- Samples that `validate_pcm` accepts are written by `encode_wav`, with no error, as a file from
-- which `decode_wav` reads the same samples.
pub decode_wav-encode_wav :
    (pcm : List ℕ) (samples : ℕ)
    → validate_pcm pcm ≡ ok samples
    → (wav : List ℕ) × (encode_wav pcm ≡ ok wav) × (decode_wav wav ≡ ok pcm)
unfolding encode_wav decode_wav
decode_wav-encode_wav pcm samples h =
    let d = length pcm in
    let small = validate_pcm_small pcm samples h in
    let fits : leb 4294967296 d ≡ false = ground (arith, small) in
    let fits' : leb 4294967296 (d + 36) ≡ false = ground (arith, small) in
    let same : sizes_differ (wav_header d ++ pcm) ≡ false = ground (
      arith,
      header_data d pcm (omega (arith, small)),
      header_riff d pcm (omega (arith, small)),
      header_length d pcm,
    ) in
    (
      wav_header d ++ pcm,
      rw (h, fits, fits') refl,
      rw
          (
            header_fine d pcm,
            same,
            header_rest d pcm,
            h,
            Bool_and (streaming_sentinel (wav_header d ++ pcm)),
          )
          refl,
    )

wav_malformed_long : (wav : List ℕ) → wav_malformed wav ≡ false → 44 ≤ length wav
unfolding wav_malformed
wav_malformed_long wav h = ground arith

-- When `decode_wav` accepts a file, the result is all that stands behind the 44 bytes of the
-- header, is valid for `validate_pcm`, and has the declared length, unless the file declares
-- exactly the streaming sizes.
pub decode_wav_sound :
    (wav pcm : List ℕ)
    → decode_wav wav ≡ ok pcm
    → (length wav ≡ 44 + length pcm)
      × (drop 44 wav ≡ pcm)
      × ((samples : ℕ) × (validate_pcm pcm ≡ ok samples))
      × ((streaming_sentinel wav ≡ true) ⊎ (get_u32 wav 40 ≡ length pcm))
unfolding decode_wav
decode_wav_sound wav pcm h =
    let (_, fine, h1) = >>=-eq-ok (reject_if (wav_malformed wav) invalid_wav) _ h in
    let (_, sizes, h2) =
      >>=-eq-ok (reject_if (not (streaming_sentinel wav) && sizes_differ wav) invalid_wav) _ h1 in
    let (samples, valid, h3) = >>=-eq-ok (as_invalid_wav (validate_pcm (drop 44 wav))) _ h2 in
    let same : drop 44 wav ≡ pcm = ground (arith, h3) in
    let counted : validate_pcm pcm ≡ ok samples =
      subst (λ p. validate_pcm p ≡ ok samples) same (ground (arith, valid)) in
    let long : 44 ≤ length wav = wav_malformed_long wav (ground (arith, fine)) in
    let whole : length wav ≡ 44 + length pcm = omega (arith, length-drop 44 wav, ap length same) in
    let declared : (streaming_sentinel wav ≡ true) ⊎ (get_u32 wav 40 ≡ length pcm) =
      elim (Bool-cases (streaming_sentinel wav)) [
        | inl streamed ↦ inl streamed
        | inr counted_out ↦ inr (ground (arith, counted_out, sizes, whole))
      ] in
    (whole, same, (samples, counted), declared)
