-- ===== src/Cache.antt =====
-- app/host/src/cache.rs: the name of a cached object, `CacheId`, and its text, `<hash>/<generation>`.
-- A text is its bytes; SHA-256 is a parameter.
pub mod Reference
pub mod Examples
use codex_keyboard_windows.Base.{
  ℕ, suc, zero, ◌+◌, ◌*◌, ◌/◌, ◌%◌, ◌^◌, ◌-◌, Bool, true, false, not, ◌||◌, ◌&&◌, Option, none,
  some, List, [], ◌∷◌, ◌++◌, length, leb, ltb, ◌==◌, ◌!=◌, bytes_eq, Result, ok, err, if◌then◌else◌,
}

pub data CacheError : Type 0 where
  io invalid_key invalid_generation object_too_large generation_too_large capacity_exceeded :
      CacheError
  already_published already_open missing_object invalid_reference missing_reference corrupt :
      CacheError
  crypto lock_unavailable secret_store : CacheError

pub record CacheId : Type 0 where
  pub task_hash : List ℕ
  pub generation : ℕ

-- `CacheId == CacheId`.
abbrev pub cache_id_eq : CacheId → CacheId → Bool
cache_id_eq a b = bytes_eq a.task_hash b.task_hash && (a.generation == b.generation)

unfoldable pub for_task : (List ℕ → List ℕ) → List ℕ → ℕ → Result CacheError CacheId
for_task sha256 task_id generation =
    if generation == 0
    then err invalid_generation
    else ok (record { task_hash = sha256 task_id; generation = generation })

abbrev pub is_digit : ℕ → Bool
is_digit b = leb b'0' b && leb b b'9'

abbrev pub is_hex_letter : ℕ → Bool
is_hex_letter b = leb b'a' b && leb b b'f'

unfoldable pub every : (ℕ → Bool) → List ℕ → Bool
every test [] = true
every test (b ∷ bs) = test b && every test bs

unfoldable pub is_task_hash : List ℕ → Bool
is_task_hash value = (length value == 64) && every (λ b. is_digit b || is_hex_letter b) value

abbrev pub first_is : (ℕ → Bool) → List ℕ → Bool
first_is test [] = false
first_is test (b ∷ bs) = test b

unfoldable pub is_canonical_generation : List ℕ → Bool
is_canonical_generation value =
    first_is (λ b. leb b'1' b && leb b b'9') value && every is_digit value

-- `HEX[digit]`.
unfoldable pub hex_digit : ℕ → ℕ
hex_digit value = if ltb value 10 then b'0' + value else b'a' + (value - 10)

unfoldable pub encode_hex : List ℕ → List ℕ
encode_hex [] = []
encode_hex (b ∷ bs) = hex_digit (b / 16) ∷ hex_digit (b % 16) ∷ encode_hex bs

unfoldable pub hex_value : ℕ → Option ℕ
hex_value b =
    if is_digit b
    then some (b - b'0')
    else (if is_hex_letter b then some ((b - b'a') + 10) else none)

unfoldable pub decode_hex_pair : ℕ → ℕ → Option ℕ
decode_hex_pair high low = elim (hex_value high) [
  | none ↦ none
  | some h ↦ elim (hex_value low) [ none ↦ none | some l ↦ some (h * 16 + l) ]
]

-- The loop over `chunks_exact(2)`.
unfoldable pub decode_hex : List ℕ → Option (List ℕ)
decode_hex [] = some []
decode_hex (b ∷ []) = some []
decode_hex (high ∷ low ∷ bs) = elim (decode_hex_pair high low) [
  | none ↦ none
  | some b ↦ elim (decode_hex bs) [ none ↦ none | some rest ↦ some (b ∷ rest) ]
]

abbrev pub into_first : ℕ → List (List ℕ) → List (List ℕ)
into_first b [] = (b ∷ []) ∷ []
into_first b (part ∷ parts) = (b ∷ part) ∷ parts

-- `split('/')`.
unfoldable pub split : List ℕ → List (List ℕ)
split [] = [] ∷ []
split (b ∷ bs) = let rest = split bs in if b == b'/' then [] ∷ rest else into_first b rest

-- The number that decimal digits write, behind one that is read.
unfoldable pub from_digits : ℕ → List ℕ → ℕ
from_digits value [] = value
from_digits value (b ∷ bs) = from_digits (value * 10 + (b - b'0')) bs

-- `parse::<u64>` on decimal digits, at least one.
unfoldable pub parse_u64 : List ℕ → Option ℕ
unfolding from_digits
parse_u64 digits =
    let value = from_digits 0 digits in if ltb value (2 ^ 64) then some value else none

unfoldable pub reference_of : List ℕ → List ℕ → Result CacheError CacheId
unfolding parse_u64 decode_hex
reference_of task_hash generation =
    if not (is_task_hash task_hash) || not (is_canonical_generation generation)
    then err invalid_reference
    else (elim (parse_u64 generation) [
      | none ↦ err invalid_reference
      | some value ↦ if value == 0 then err invalid_reference else (elim (decode_hex task_hash) [
        | none ↦ err invalid_reference
        | some decoded ↦ ok (record { task_hash = decoded; generation = value })
      ])
    ])

abbrev pub of_components : List (List ℕ) → Result CacheError CacheId
of_components (task_hash ∷ generation ∷ []) = reference_of task_hash generation
of_components _ = err invalid_reference

unfoldable pub from_reference : List ℕ → Result CacheError CacheId
unfolding reference_of split
from_reference reference = of_components (split reference)

-- The decimal digits of a number of at most so many digits.
unfoldable pub digits : ℕ → ℕ → List ℕ
digits zero n = []
digits (suc places) n =
    let rest = digits places (n / 10) in
    if ltb n 10 then (b'0' + n) ∷ [] else rest ++ ((b'0' + (n % 10)) ∷ [])

-- `format!("{}", generation)`: a number of 64 bits has at most 20 digits.
abbrev pub decimal : ℕ → List ℕ
decimal n = digits 20 n

unfoldable pub reference : CacheId → List ℕ
unfolding encode_hex digits
reference id = encode_hex id.task_hash ++ (b'/' ∷ decimal id.generation)
