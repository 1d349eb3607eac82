-- ===== src/Cache/Reference.antt =====
-- `CacheId::reference` and `CacheId::from_reference` of app/host/src/cache.rs.
use codex_keyboard_windows.Base.{
  ℕ, suc, zero, ◌+◌, ◌*◌, ◌/◌, ◌%◌, ◌^◌, ◌-◌, ◌<◌, ◌≡◌, ◌≢◌, ◌∙◌, refl, ap, Bool, true, false, not,
  ◌||◌, ◌&&◌, some, List, [], ◌∷◌, ◌++◌, length, leb, ltb, ◌==◌, arith, IsBytes, ok, Bool-cases,
  inl, inr,
}
use native.Mathlib.Nat.{pow-suc}
use codex_keyboard_windows.Cache.{
  CacheId, every, first_is, is_digit, is_hex_letter, is_task_hash, is_canonical_generation,
  hex_digit, encode_hex, hex_value, decode_hex_pair, decode_hex, split, from_digits, parse_u64,
  reference_of, of_components, from_reference, digits, decimal, reference,
}

-- A hash of 32 bytes, and a generation of 64 bits other than 0.
pub record IsCacheId (id : CacheId) : Type 0 where
  pub hash_bytes : IsBytes id.task_hash
  pub hash_length : length id.task_hash ≡ 32
  pub generation_set : id.generation ≢ 0
  pub generation_fits : id.generation < 2 ^ 64

every-append :
    (test : ℕ → Bool) (xs ys : List ℕ) → every test (xs ++ ys) ≡ (every test xs && every test ys)
unfolding every
every-append test [] ys = refl
every-append test (x ∷ xs) ys = ground (arith, every-append test xs ys)

every_imp :
    (p q : ℕ → Bool) (xs : List ℕ)
    → ((x : ℕ) → p x ≡ true → q x ≡ true)
    → every p xs ≡ true
    → every q xs ≡ true
unfolding every
every_imp p q [] imp h = refl
every_imp p q (x ∷ xs) imp h =
    let here : p x ≡ true = ground (arith, h) in
    ground (arith, imp x here, every_imp p q xs imp (ground (arith, h)))

abbrev not_slash : ℕ → Bool
not_slash b = not (b == b'/')

split_one : (xs : List ℕ) → every not_slash xs ≡ true → split xs ≡ xs ∷ []
unfolding split every
split_one [] h = refl
split_one (x ∷ xs) h =
    let miss : (x == b'/') ≡ false = ground (arith, h) in
    let rest = split_one xs (ground (arith, h)) in rw (split, miss, rest) refl

split_two : (xs ys : List ℕ) → every not_slash xs ≡ true → split (xs ++ (b'/' ∷ ys)) ≡ xs ∷ split ys
unfolding split every
split_two [] ys h = refl
split_two (x ∷ xs) ys h =
    let miss : (x == b'/') ≡ false = ground (arith, h) in
    let rest = split_two xs ys (ground (arith, h)) in rw (split, miss, rest) refl

-- The digits of a byte.
hex_digit-is_hex : (v : ℕ) → v < 16 → (is_digit (hex_digit v) || is_hex_letter (hex_digit v)) ≡ true
unfolding hex_digit
hex_digit-is_hex v h = ground (arith, h)

hex_value-hex_digit : (v : ℕ) → v < 16 → hex_value (hex_digit v) ≡ some v
unfolding hex_value hex_digit
hex_value-hex_digit v h = ground (arith, h)

encode_hex-is_hex :
    (bs : List ℕ) → IsBytes bs → every (λ b. is_digit b || is_hex_letter b) (encode_hex bs) ≡ true
unfolding encode_hex every
encode_hex-is_hex [] h = refl
encode_hex-is_hex (b ∷ bs) h = ground (
  arith,
  hex_digit-is_hex (b / 16) (omega (arith, h.0)),
  hex_digit-is_hex (b % 16) (omega arith),
  encode_hex-is_hex bs h.1,
)

length-encode_hex : (bs : List ℕ) → length (encode_hex bs) ≡ 2 * length bs
unfolding encode_hex
length-encode_hex [] = refl
length-encode_hex (b ∷ bs) = omega (arith, length-encode_hex bs)

decode_hex_pair-hex_digit :
    (h l : ℕ) → h < 16 → l < 16 → decode_hex_pair (hex_digit h) (hex_digit l) ≡ some (h * 16 + l)
unfolding decode_hex_pair
decode_hex_pair-hex_digit h l high low =
    rw (decode_hex_pair, hex_value-hex_digit h high, hex_value-hex_digit l low) refl

decode_hex-encode_hex : (bs : List ℕ) → IsBytes bs → decode_hex (encode_hex bs) ≡ some bs
unfolding decode_hex encode_hex
decode_hex-encode_hex [] h = refl
decode_hex-encode_hex (b ∷ bs) h =
    let whole : (b / 16) * 16 + b % 16 ≡ b = omega arith in
    let pair = decode_hex_pair-hex_digit (b / 16) (b % 16) (omega (arith, h.0)) (omega arith) in
    rw (decode_hex, pair, decode_hex-encode_hex bs h.1, whole) refl

-- The digits of a number.
digits-is_digit : (places n : ℕ) → every is_digit (digits places n) ≡ true
unfolding digits every
digits-is_digit zero n = refl
digits-is_digit (suc places) n = elim (Bool-cases (ltb n 10)) [
  | inl small ↦ rw (digits, small) (ground (arith, small))
  | inr large ↦
      rw (digits, large)
        (ground (
          arith,
          every-append is_digit (digits places (n / 10)) ((b'0' + (n % 10)) ∷ []),
          digits-is_digit places (n / 10),
        ))
]

from_digits-append :
    (v : ℕ) (xs : List ℕ) (d : ℕ)
    → from_digits v (xs ++ (d ∷ [])) ≡ from_digits v xs * 10 + (d - b'0')
unfolding from_digits
from_digits-append v [] d = refl
from_digits-append v (x ∷ xs) d = from_digits-append (v * 10 + (x - b'0')) xs d

from_digits-digits : (places n : ℕ) → n < 10 ^ places → from_digits 0 (digits places n) ≡ n
unfolding digits from_digits
from_digits-digits zero n h = omega (arith, h)
from_digits-digits (suc places) n h = elim (Bool-cases (ltb n 10)) [
  | inl small ↦ rw (digits, small) (omega arith)
  | inr large ↦
      let rest = from_digits-digits places (n / 10) (omega (arith, h, pow-suc 10 places)) in
      rw (digits, large)
        (omega (arith, from_digits-append 0 (digits places (n / 10)) (b'0' + (n % 10)), rest))
]

abbrev is_leading : ℕ → Bool
is_leading b = leb b'1' b && leb b b'9'

first_is-append :
    (test : ℕ → Bool) (xs ys : List ℕ) → first_is test xs ≡ true → first_is test (xs ++ ys) ≡ true
first_is-append test [] ys h = absurd (ground (arith, h))
first_is-append test (x ∷ xs) ys h = h

digits-leading :
    (places n : ℕ) → n ≢ 0 → n < 10 ^ places → first_is is_leading (digits places n) ≡ true
unfolding digits
digits-leading zero n set h = absurd (set (omega (arith, h)))
digits-leading (suc places) n set h = elim (Bool-cases (ltb n 10)) [
  | inl small ↦ rw (digits, small) (ground (arith, small, set))
  | inr large ↦
      let rest =
        digits-leading places (n / 10) (ground (arith, large))
          (omega (arith, h, pow-suc 10 places)) in
      rw (digits, large)
        (first_is-append is_leading (digits places (n / 10)) ((b'0' + (n % 10)) ∷ []) rest)
]

digit-not_slash : (b : ℕ) → is_digit b ≡ true → not_slash b ≡ true
digit-not_slash b h = ground (arith, h)

hex-not_slash : (b : ℕ) → (is_digit b || is_hex_letter b) ≡ true → not_slash b ≡ true
hex-not_slash b h = ground (arith, h)

module _ (id : CacheId) (v : IsCacheId id) where
  split-reference : split (reference id) ≡ encode_hex id.task_hash ∷ decimal id.generation ∷ []
  unfolding reference
  split-reference =
      let hash =
        every_imp (λ b. is_digit b || is_hex_letter b) not_slash (encode_hex id.task_hash)
          hex-not_slash (encode_hex-is_hex id.task_hash v.hash_bytes) in
      let number =
        every_imp is_digit not_slash (decimal id.generation) digit-not_slash
          (digits-is_digit 20 id.generation) in
      split_two (encode_hex id.task_hash) (decimal id.generation) hash
      ∙ ap (◌∷◌ (encode_hex id.task_hash)) (split_one (decimal id.generation) number)

  decimal-parse_u64 : parse_u64 (decimal id.generation) ≡ some id.generation
  unfolding parse_u64
  decimal-parse_u64 =
      let value = from_digits-digits 20 id.generation (omega (arith, v.generation_fits)) in
      let fits : ltb id.generation (2 ^ 64) ≡ true = ground (arith, v.generation_fits) in
      rw (parse_u64, value, fits) refl

  reference_of-reference : reference_of (encode_hex id.task_hash) (decimal id.generation) ≡ ok id
  unfolding reference_of is_task_hash is_canonical_generation
  reference_of-reference =
      let hash : is_task_hash (encode_hex id.task_hash) ≡ true = ground (
        arith,
        length-encode_hex id.task_hash,
        v.hash_length,
        encode_hex-is_hex id.task_hash v.hash_bytes,
      ) in
      let number : is_canonical_generation (decimal id.generation) ≡ true = ground (
        arith,
        digits-leading 20 id.generation v.generation_set (omega (arith, v.generation_fits)),
        digits-is_digit 20 id.generation,
      ) in
      let set : (id.generation == 0) ≡ false = ground (arith, v.generation_set) in
      rw
        (
          reference_of,
          hash,
          number,
          decimal-parse_u64,
          set,
          decode_hex-encode_hex id.task_hash v.hash_bytes,
        )
        refl

  -- For a hash of 32 bytes and a generation of 64 bits other than 0, `from_reference` reads the
  -- identity back from the text that `reference` writes.
  pub from_reference-reference : from_reference (reference id) ≡ ok id
  unfolding from_reference
  from_reference-reference = ap of_components split-reference ∙ reference_of-reference
