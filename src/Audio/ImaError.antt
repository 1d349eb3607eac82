-- ===== src/Audio/ImaError.antt =====
-- How far the sample that `encode_ima_sample` of app/host/src/audio.rs stores is from the sample.
use Prim.Native.Nat.{bit_and}
use codex_keyboard_windows.Base.{
  ℕ, ◌+◌, ◌*◌, ◌/◌, ◌<◌, ◌≤◌, ◌≡◌, refl, some, ◌!=◌, arith, if◌then◌else◌,
}
use codex_keyboard_windows.Audio.Ima.{
  ℤ, pos, negsuc, entry, ima_step_table, subtract, plus, minus, magnitude, is_negative,
  clamp_sample, move_predictor, quantize, encode_ima_sample,
}
use codex_keyboard_windows.Audio.ImaLaws.{next_index-inside, quantize-lt}

-- A sample of 16 bits.
abbrev pub IsSample : ℤ → Type 0
IsSample (pos a) = a ≤ 32767
IsSample (negsuc a) = a ≤ 32767

abbrev pub distance : ℤ → ℤ → ℕ
distance a b = magnitude (subtract a b)

-- The size that a code stands for, against the difference that it was computed from.
quantize-magnitude :
    (signed : ℤ) (step : ℕ)
    → magnitude signed < 2 * step
    → ((quantize signed step).1 ≤ magnitude signed + step / 8)
      × (magnitude signed ≤ (quantize signed step).1 + step / 8 + 2)
unfolding quantize
quantize-magnitude (pos a) step h = ground (arith, h)
quantize-magnitude (negsuc a) step h = ground (arith, h)

-- Bit 8 of a code is the sign.
quantize-is_negative :
    (signed : ℤ) (step : ℕ) → (bit_and (quantize signed step).0 8 != 0) ≡ is_negative signed
unfolding quantize
quantize-is_negative (pos a) step = ground arith
quantize-is_negative (negsuc a) step = ground arith

moved-distance :
    (sample predictor : ℤ) (delta bound : ℕ)
    → IsSample sample
    → delta ≤ distance sample predictor + bound
    → distance sample predictor ≤ delta + bound
    → distance sample (
        clamp_sample (
          if is_negative (subtract sample predictor)
          then minus predictor delta
          else plus predictor delta))
      ≤ bound
moved-distance (pos a) (pos b) delta bound h lo hi = ground (arith, h, lo, hi)
moved-distance (pos a) (negsuc b) delta bound h lo hi = ground (arith, h, lo, hi)
moved-distance (negsuc a) (pos b) delta bound h lo hi = ground (arith, h, lo, hi)
moved-distance (negsuc a) (negsuc b) delta bound h lo hi = ground (arith, h, lo, hi)

-- For a sample of 16 bits and a step index inside the table, when the sample is less than two
-- steps away from the predictor, `encode_ima_sample` gives a new predictor, the sample that will
-- be decoded, at most an eighth of the step and 2 away from the sample.
pub encode_ima_sample-distance :
    (sample predictor : ℤ) (step_index step : ℕ)
    → IsSample sample
    → entry ima_step_table step_index ≡ some step
    → distance sample predictor < 2 * step
    → (code : ℕ) × (predictor' : ℤ) × (index : ℕ) × (encode_ima_sample sample predictor step_index
        ≡ some (code, predictor', index))
      × (distance sample predictor' ≤ step / 8 + 2)
unfolding encode_ima_sample
encode_ima_sample-distance sample predictor step_index step h found near =
    let signed = subtract sample predictor in
    let code = (quantize signed step).0 in
    let delta = (quantize signed step).1 in
    let (index, moved, _) = next_index-inside step_index code (quantize-lt signed step) in
    let (lo, hi) = quantize-magnitude signed step near in
    let close : distance sample (move_predictor code delta predictor) ≤ step / 8 + 2 =
      rw (quantize-is_negative signed step) (
        moved-distance sample predictor delta (step / 8 + 2) h (omega (arith, lo))
          (omega (arith, hi))) in
    (
      code,
      move_predictor code delta predictor,
      index,
      rw (encode_ima_sample, found, moved) refl,
      close,
    )
