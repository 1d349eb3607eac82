-- ===== src/Audio/Ima.antt =====
-- `encode_ima_sample` and `decode_ima_sample` of app/host/src/audio.rs. An `i32` is an integer here:
-- both callers pass samples of 16 bits and the predictors that these functions clamp to 16 bits, for
-- which no operation leaves the range of `i32`. A lookup outside a table is none, where Rust panics.
use Prim.Native.Nat.{bit_and, bit_or}
use codex_keyboard_windows.Base.{
  ℕ, zero, suc, ◌+◌, ◌-◌, ◌/◌, Bool, true, false, Option, none, some, List, [], ◌∷◌, min, ltb, leb,
  ◌!=◌, if◌then◌else◌,
}

pub data ℤ : Type 0 where
  pos : ℕ → ℤ
  negsuc : ℕ → ℤ

abbrev pub plus : ℤ → ℕ → ℤ
plus (pos a) d = pos (a + d)
plus (negsuc a) d = if ltb a d then pos (d - suc a) else negsuc (a - d)

abbrev pub minus : ℤ → ℕ → ℤ
minus (pos a) d = if leb d a then pos (a - d) else negsuc (d - suc a)
minus (negsuc a) d = negsuc (a + d)

abbrev pub subtract : ℤ → ℤ → ℤ
subtract a (pos b) = minus a b
subtract a (negsuc b) = plus a (suc b)

abbrev pub is_negative : ℤ → Bool
is_negative (pos a) = false
is_negative (negsuc a) = true

-- The absolute value.
abbrev pub magnitude : ℤ → ℕ
magnitude (pos a) = a
magnitude (negsuc a) = suc a

-- `clamp(i16::MIN, i16::MAX)`.
abbrev pub clamp_sample : ℤ → ℤ
clamp_sample (pos a) = pos (min a 32767)
clamp_sample (negsuc a) = negsuc (min a 32767)

abbrev pub ima_index_table : List ℤ
ima_index_table =
    negsuc 0
    ∷ negsuc 0
    ∷ negsuc 0
    ∷ negsuc 0
    ∷ pos 2
    ∷ pos 4
    ∷ pos 6
    ∷ pos 8
    ∷ negsuc 0
    ∷ negsuc 0
    ∷ negsuc 0
    ∷ negsuc 0
    ∷ pos 2
    ∷ pos 4
    ∷ pos 6
    ∷ pos 8
    ∷ []

abbrev pub ima_step_table : List ℕ
ima_step_table =
    7 ∷ 8 ∷ 9 ∷ 10 ∷ 11 ∷ 12 ∷ 13 ∷ 14 ∷ 16 ∷ 17 ∷ 19 ∷ 21 ∷ 23 ∷ 25 ∷ 28 ∷ 31 ∷ 34 ∷ 37 ∷ 41 ∷ 45
    ∷ 50 ∷ 55 ∷ 60 ∷ 66 ∷ 73 ∷ 80 ∷ 88 ∷ 97 ∷ 107 ∷ 118 ∷ 130 ∷ 143 ∷ 157 ∷ 173 ∷ 190 ∷ 209 ∷ 230
    ∷ 253 ∷ 279 ∷ 307 ∷ 337 ∷ 371 ∷ 408 ∷ 449 ∷ 494 ∷ 544 ∷ 598 ∷ 658 ∷ 724 ∷ 796 ∷ 876 ∷ 963 ∷ 1060
    ∷ 1166 ∷ 1282 ∷ 1411 ∷ 1552 ∷ 1707 ∷ 1878 ∷ 2066 ∷ 2272 ∷ 2499 ∷ 2749 ∷ 3024 ∷ 3327 ∷ 3660
    ∷ 4026 ∷ 4428 ∷ 4871 ∷ 5358 ∷ 5894 ∷ 6484 ∷ 7132 ∷ 7845 ∷ 8630 ∷ 9493 ∷ 10442 ∷ 11487 ∷ 12635
    ∷ 13899 ∷ 15289 ∷ 16818 ∷ 18500 ∷ 20350 ∷ 22385 ∷ 24623 ∷ 27086 ∷ 29794 ∷ 32767 ∷ []

-- `(step_index + IMA_INDEX_TABLE[code]).clamp(0, 88)`.
abbrev pub move_index : ℕ → ℤ → ℕ
move_index step_index (pos up) = min (step_index + up) 88
move_index step_index (negsuc down) = min (step_index - suc down) 88

-- The entry of a table; none where the source's indexing panics.
abbrev pub entry {ℓ} : {A : Type ℓ} → List A → ℕ → Option A
entry [] i = none
entry (x ∷ xs) zero = some x
entry (x ∷ xs) (suc i) = entry xs i

-- The new index; none for a code of 16 or more, on which the source panics.
unfoldable pub next_index : ℕ → ℕ → Option ℕ
next_index step_index code = elim (entry ima_index_table code) [
  | none ↦ none
  | some step ↦ some (move_index step_index step)
]

-- The code for a difference, and its size.
unfoldable pub quantize : ℤ → ℕ → ℕ × ℕ
quantize signed step =
    let negative = is_negative signed in
    let difference1 = magnitude signed in
    let code1 = if negative then bit_or 0 8 else 0 in
    let whole = leb step difference1 in
    let code2 = if whole then bit_or code1 4 else code1 in
    let difference2 = if whole then difference1 - step else difference1 in
    let delta2 = if whole then step / 8 + step else step / 8 in
    let half = leb (step / 2) difference2 in
    let code3 = if half then bit_or code2 2 else code2 in
    let difference3 = if half then difference2 - step / 2 else difference2 in
    let delta3 = if half then delta2 + step / 2 else delta2 in
    let quarter = leb (step / 4) difference3 in
    let code = if quarter then bit_or code3 1 else code3 in
    let delta = if quarter then delta3 + step / 4 else delta3 in (code, delta)

-- The clamped predictor after a step of a size, down for a code with bit 8.
abbrev pub move_predictor : ℕ → ℕ → ℤ → ℤ
move_predictor code delta predictor =
    clamp_sample (if bit_and code 8 != 0 then minus predictor delta else plus predictor delta)

-- The code, the new predictor and the new index; none where a table lookup panics.
unfoldable pub encode_ima_sample : ℤ → ℤ → ℕ → Option (ℕ × ℤ × ℕ)
encode_ima_sample sample predictor step_index = elim (entry ima_step_table step_index) [
  | none ↦ none
  | some step ↦
      let (code, delta) = quantize (subtract sample predictor) step in
      elim (next_index step_index code) [
        | none ↦ none
        | some index ↦ some (code, move_predictor code delta predictor, index)
      ]
]

-- The new predictor and the new index; none where a table lookup panics.
unfoldable pub decode_ima_sample : ℕ → ℤ → ℕ → Option (ℤ × ℕ)
decode_ima_sample code predictor step_index = elim (entry ima_step_table step_index) [
  | none ↦ none
  | some step ↦
      let delta1 = if bit_and code 4 != 0 then step / 8 + step else step / 8 in
      let delta2 = if bit_and code 2 != 0 then delta1 + step / 2 else delta1 in
      let delta = if bit_and code 1 != 0 then delta2 + step / 4 else delta2 in
      elim (next_index step_index code) [
        | none ↦ none
        | some index ↦ some (move_predictor code delta predictor, index)
      ]
]
