-- ===== src/Base/Bytes.antt =====
-- Little-endian integers in byte sequences: `to_le_bytes`, `from_le_bytes`, and the `put_*` and
-- `get_*` helpers of app/host/src/lan_playback.rs.
use Prim.Native.Nat.{ℕ, zero, suc, ◌+◌, ◌*◌, ◌/◌, ◌%◌, ◌^◌, ◌≤◌, ◌<◌}
use mathlib.Core.Path.{◌≡◌, refl, ap, sym, subst, ◌∙◌}
use mathlib.Core.List.{List, [], ◌∷◌}
use native.Mathlib.Omega.{arith}
use native.Mathlib.Nat.{pow-suc}
use codex_keyboard_windows.Base.Lists.{length, take, drop, read, splice, length-read}

-- A sequence of `u8`.
abbrev pub IsBytes : List ℕ → Type 0
IsBytes [] = Unit {0}
IsBytes (b ∷ bs) = (b < 256) × IsBytes bs

pub IsBytes-drop : (n : ℕ) (bs : List ℕ) → IsBytes bs → IsBytes (drop n bs)
IsBytes-drop zero bs h = h
IsBytes-drop (suc n) [] h = tt
IsBytes-drop (suc n) (b ∷ bs) h = IsBytes-drop n bs h.1

pub IsBytes-take : (n : ℕ) (bs : List ℕ) → IsBytes bs → IsBytes (take n bs)
IsBytes-take zero bs h = tt
IsBytes-take (suc n) [] h = tt
IsBytes-take (suc n) (b ∷ bs) h = (h.0, IsBytes-take n bs h.1)

pub IsBytes-read : (o n : ℕ) (bs : List ℕ) → IsBytes bs → IsBytes (read o n bs)
IsBytes-read o n bs h = IsBytes-take n (drop o bs) (IsBytes-drop o bs h)

-- The `n` low bytes of `v`, lowest first.
unfoldable pub le_bytes : ℕ → ℕ → List ℕ
le_bytes zero v = []
le_bytes (suc n) v = (v % 256) ∷ le_bytes n (v / 256)

unfoldable pub from_le : List ℕ → ℕ
from_le [] = 0
from_le (b ∷ bs) = b + 256 * from_le bs

pub length-le_bytes : (n v : ℕ) → length (le_bytes n v) ≡ n
unfolding le_bytes
length-le_bytes zero v = refl
length-le_bytes (suc n) v = ap suc (length-le_bytes n (v / 256))

pub from_le-le_bytes : (n v : ℕ) → v < 256 ^ n → from_le (le_bytes n v) ≡ v
unfolding le_bytes from_le
from_le-le_bytes zero v h = omega arith
from_le-le_bytes (suc n) v h =
    omega (arith, from_le-le_bytes n (v / 256) (omega (arith, pow-suc 256 n)))

pub le_bytes-from_le : (bs : List ℕ) → IsBytes bs → le_bytes (length bs) (from_le bs) ≡ bs
unfolding le_bytes from_le
le_bytes-from_le [] h = refl
le_bytes-from_le (b ∷ bs) h =
    let low : (b + 256 * from_le bs) % 256 ≡ b = omega arith in
    let high : (b + 256 * from_le bs) / 256 ≡ from_le bs = omega arith in
    rw (low, high) (ap (◌∷◌ b) (le_bytes-from_le bs h.1))

abbrev pub put_u16 : List ℕ → ℕ → ℕ → List ℕ
put_u16 packet offset value = splice offset (le_bytes 2 value) packet

abbrev pub put_u32 : List ℕ → ℕ → ℕ → List ℕ
put_u32 packet offset value = splice offset (le_bytes 4 value) packet

abbrev pub put_u64 : List ℕ → ℕ → ℕ → List ℕ
put_u64 packet offset value = splice offset (le_bytes 8 value) packet

unfoldable pub get_u16 : List ℕ → ℕ → ℕ
get_u16 packet offset = from_le (read offset 2 packet)

unfoldable pub get_u32 : List ℕ → ℕ → ℕ
get_u32 packet offset = from_le (read offset 4 packet)

unfoldable pub get_u64 : List ℕ → ℕ → ℕ
get_u64 packet offset = from_le (read offset 8 packet)

le_bytes-read :
    (n o : ℕ) (p : List ℕ)
    → IsBytes p
    → o + n ≤ length p
    → le_bytes n (from_le (read o n p)) ≡ read o n p
le_bytes-read n o p b h =
    ap (λ k. le_bytes k (from_le (read o n p))) (sym (length-read o n p h))
    ∙ le_bytes-from_le (read o n p) (IsBytes-read o n p b)

-- The integer read at an offset has the bytes that stand there.
pub le_bytes-get_u16 :
    (o : ℕ) (p : List ℕ) → IsBytes p → o + 2 ≤ length p → le_bytes 2 (get_u16 p o) ≡ read o 2 p
unfolding get_u16
le_bytes-get_u16 o p b h = le_bytes-read 2 o p b h

pub le_bytes-get_u32 :
    (o : ℕ) (p : List ℕ) → IsBytes p → o + 4 ≤ length p → le_bytes 4 (get_u32 p o) ≡ read o 4 p
unfolding get_u32
le_bytes-get_u32 o p b h = le_bytes-read 4 o p b h

pub le_bytes-get_u64 :
    (o : ℕ) (p : List ℕ) → IsBytes p → o + 8 ≤ length p → le_bytes 8 (get_u64 p o) ≡ read o 8 p
unfolding get_u64
le_bytes-get_u64 o p b h = le_bytes-read 8 o p b h

from_le_lt : (bs : List ℕ) → IsBytes bs → from_le bs < 256 ^ length bs
unfolding from_le
from_le_lt [] h = omega arith
from_le_lt (b ∷ bs) h = omega (arith, from_le_lt bs h.1, pow-suc 256 (length bs))

pub from_le-read_lt :
    (n o : ℕ) (p : List ℕ) → IsBytes p → o + n ≤ length p → from_le (read o n p) < 256 ^ n
from_le-read_lt n o p b h =
    subst (λ k. from_le (read o n p) < 256 ^ k) (length-read o n p h)
      (from_le_lt (read o n p) (IsBytes-read o n p b))

-- An integer that was read fits its width.
pub get_u16_lt : (o : ℕ) (p : List ℕ) → IsBytes p → o + 2 ≤ length p → get_u16 p o < 256 ^ 2
unfolding get_u16
get_u16_lt o p b h = from_le-read_lt 2 o p b h

pub get_u32_lt : (o : ℕ) (p : List ℕ) → IsBytes p → o + 4 ≤ length p → get_u32 p o < 256 ^ 4
unfolding get_u32
get_u32_lt o p b h = from_le-read_lt 4 o p b h

pub get_u64_lt : (o : ℕ) (p : List ℕ) → IsBytes p → o + 8 ≤ length p → get_u64 p o < 256 ^ 8
unfolding get_u64
get_u64_lt o p b h = from_le-read_lt 8 o p b h
