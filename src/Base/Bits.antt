-- ===== src/Base/Bits.antt =====
-- The comparison of two tags without an early exit, as the source folds it:
-- `difference | (expected ^ actual)`.
use Prim.Native.Nat.{bit_or, bit_xor}
use Prim.Native.Nat.{ℕ, zero, suc, ◌<◌}
use mathlib.Core.Path.{◌≡◌, refl}
use mathlib.Core.Bool.{Bool, true, false, ◌&&◌}
use mathlib.Core.List.{List, [], ◌∷◌}
use native.Mathlib.Omega.{arith}
use codex_keyboard_windows.Base.Tests.{if◌then◌else◌, ltb, ◌==◌, bytes_eq}
use codex_keyboard_windows.Base.Lists.{length}
use codex_keyboard_windows.Base.Bytes.{IsBytes}

-- A test that every number under a bound passes, counting down from the bound.
unfoldable pub passes_under : (ℕ → Bool) → ℕ → Bool
passes_under test zero = true
passes_under test (suc top) = if test top then passes_under test top else false

pub passes_under_lem :
    (test : ℕ → Bool) (bound candidate : ℕ)
    → candidate < bound
    → passes_under test bound ≡ true
    → test candidate ≡ true
unfolding passes_under
passes_under_lem test (suc top) candidate inside passed =
    let lower = passes_under_lem test top candidate in ground (arith, lower, inside, passed)
passes_under_lem test zero candidate inside passed = absurd (omega (arith, inside))

abbrev same : Bool → Bool → Bool
same true b = b
same false true = false
same false false = true

abbrev facts : ℕ → ℕ → Bool
facts x y =
    same (bit_xor x y == 0) (x == y)
    && (ltb (bit_xor x y) 256
        && (same (bit_or x y == 0) ((x == 0) && (y == 0)) && ltb (bit_or x y) 256))

row : ℕ → Bool
unfolding passes_under
row x = passes_under (facts x) 256

table : passes_under row 256 ≡ true
unfolding row
table = refl

byte_facts : (x y : ℕ) → x < 256 → y < 256 → facts x y ≡ true
unfolding row
byte_facts x y hx hy = passes_under_lem (facts x) 256 y hy (passes_under_lem row 256 x hx table)

-- `expected.iter().zip(actual).fold(difference, …)`.
unfoldable pub tag_difference : ℕ → List ℕ → List ℕ → ℕ
tag_difference difference [] actual = difference
tag_difference difference (x ∷ xs) [] = difference
tag_difference difference (x ∷ xs) (y ∷ ys) = tag_difference (bit_or difference (bit_xor x y)) xs ys

both : (a b : Bool) → (a && b) ≡ true → (a ≡ true) × (b ≡ true)
both a b h = ground arith

-- The fold is 0 exactly if it began at 0 and the tags are equal.
pub tag_difference_iff :
    (d : ℕ) (xs ys : List ℕ)
    → d < 256
    → IsBytes xs
    → IsBytes ys
    → length xs ≡ length ys
    → (tag_difference d xs ys == 0) ≡ ((d == 0) && bytes_eq xs ys)
unfolding tag_difference
tag_difference_iff d [] [] hd hx hy n = ground arith
tag_difference_iff d [] (y ∷ ys) hd hx hy n = absurd (omega arith)
tag_difference_iff d (x ∷ xs) [] hd hx hy n = absurd (omega arith)
tag_difference_iff d (x ∷ xs) (y ∷ ys) hd hx hy n =
    let f = byte_facts x y hx.0 hy.0 in
    let z : bit_xor x y < 256 = ground (arith, f) in
    let g = byte_facts d (bit_xor x y) hd z in
    ground (arith, f, g, tag_difference_iff (bit_or d (bit_xor x y)) xs ys)
