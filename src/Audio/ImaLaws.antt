-- ===== src/Audio/ImaLaws.antt =====
-- The encoder of app/host/src/audio.rs keeps the predictor and the index that the decoder will have.
use codex_keyboard_windows.Base.{
  ℕ, zero, suc, ◌<◌, ◌≡◌, ◌≤◌, ◌⊎◌, refl, inl, inr, none, some, List, [], ◌∷◌, length, arith, ltb,
  Bool-cases,
}
use codex_keyboard_windows.Audio.Ima.{
  ℤ, pos, negsuc, entry, ima_step_table, ima_index_table, subtract, move_index, move_predictor,
  next_index, quantize, encode_ima_sample, decode_ima_sample,
}

entry-inside {ℓ} :
    {A : Type ℓ} → (xs : List A) (i : ℕ) → i < length xs → (x : A) × (entry xs i ≡ some x)
entry-inside [] i h = absurd (omega (arith, h))
entry-inside (x ∷ xs) zero h = (x, refl)
entry-inside (x ∷ xs) (suc i) h = entry-inside xs i (omega (arith, h))

entry-outside {ℓ} : {A : Type ℓ} → (xs : List A) (i : ℕ) → length xs ≤ i → entry xs i ≡ none
entry-outside [] i h = refl
entry-outside (x ∷ xs) zero h = absurd (omega (arith, h))
entry-outside (x ∷ xs) (suc i) h = entry-outside xs i (omega (arith, h))

move_index-le : (step_index : ℕ) (step : ℤ) → move_index step_index step ≤ 88
move_index-le step_index (pos up) = omega arith
move_index-le step_index (negsuc down) = omega arith

pub quantize-lt : (signed : ℤ) (step : ℕ) → (quantize signed step).0 < 16
unfolding quantize
quantize-lt (pos a) step = ground arith
quantize-lt (negsuc a) step = ground arith

pub next_index-inside :
    (step_index code : ℕ)
    → code < 16
    → (index : ℕ) × (next_index step_index code ≡ some index) × (index ≤ 88)
unfolding next_index
next_index-inside step_index code h =
    let (step, found) = entry-inside ima_index_table code h in
    (move_index step_index step, rw (next_index, found) refl, move_index-le step_index step)

-- The decoder adds up the size from the code that the encoder gives.
decode-quantize :
    (signed predictor : ℤ) (step step_index index : ℕ)
    → entry ima_step_table step_index ≡ some step
    → next_index step_index (quantize signed step).0 ≡ some index
    → decode_ima_sample (quantize signed step).0 predictor step_index
      ≡ some (move_predictor (quantize signed step).0 (quantize signed step).1 predictor, index)
unfolding decode_ima_sample quantize
decode-quantize signed predictor step step_index index found moved =
    rw (decode_ima_sample, found, moved) (ground arith)

-- For every sample and predictor: with a step index of at most 88, `encode_ima_sample` gives a
-- code below 16, a predictor and a step index of at most 88, and `decode_ima_sample` on that code
-- computes the same predictor and step index, so that the two never drift apart; with any other
-- step index both panic, whatever the code.
pub decode_ima_sample-encode_ima_sample :
    (sample predictor : ℤ) (step_index : ℕ)
    → ((step_index ≤ 88)
        × ((code : ℕ) × (predictor' : ℤ) × (index : ℕ) × (encode_ima_sample sample predictor
                step_index
              ≡ some (code, predictor', index))
            × (decode_ima_sample code predictor step_index ≡ some (predictor', index))
            × (code < 16)
            × (index ≤ 88)))
      ⊎ ((88 < step_index)
          × (encode_ima_sample sample predictor step_index ≡ none)
          × ((code : ℕ) → decode_ima_sample code predictor step_index ≡ none))
unfolding encode_ima_sample decode_ima_sample
decode_ima_sample-encode_ima_sample sample predictor step_index =
    elim (Bool-cases (ltb 88 step_index)) [
      | inl beyond ↦
          let outside = entry-outside ima_step_table step_index (ground (arith, beyond)) in
          inr (
            ground (arith, beyond),
            rw (encode_ima_sample, outside) refl,
            λ code. rw (decode_ima_sample, outside) refl,
          )
      | inr inside ↦
          let (step, found) = entry-inside ima_step_table step_index (ground (arith, inside)) in
          let signed = subtract sample predictor in
          let code = (quantize signed step).0 in
          let (index, moved, small) = next_index-inside step_index code (quantize-lt signed step) in
          inl (
            ground (arith, inside),
            (
              code,
              move_predictor code (quantize signed step).1 predictor,
              index,
              rw (encode_ima_sample, found, moved) refl,
              decode-quantize signed predictor step step_index index found moved,
              quantize-lt signed step,
              small,
            ),
          )
    ]
