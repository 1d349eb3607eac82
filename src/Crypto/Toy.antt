-- ===== src/Crypto/Toy.antt =====
-- A concrete instance of the laws, for the worked examples: a checksum in the place of the digest,
-- and a cipher that only adds a tag.
use codex_keyboard_windows.Base.{
  ℕ, ◌+◌, ◌*◌, ◌%◌, ◌≡◌, ◌↔◌, Bool, true, Option, none, some, List, [], ◌∷◌, length, take,
  replicate, bytes_eq, bytes_eq_refl, bytes_eq_sound, length-replicate, IsBytes, ◌<◌, zero, suc,
  arith, ◌==◌, if◌then◌else◌,
}
use codex_keyboard_windows.Crypto.{Crypto, IsMac, IsAead}

abbrev checksum : List ℕ → List ℕ → ℕ
checksum [] [] = 7
checksum [] (b ∷ bs) = (3 * checksum [] bs + b) % 256
checksum (k ∷ ks) bs = (5 * checksum ks bs + k) % 256

abbrev toy_hmac : List ℕ → List ℕ → List ℕ
toy_hmac key message = replicate 32 (checksum key message % 256)

abbrev toy_verify : List ℕ → List ℕ → List ℕ → Bool
toy_verify key message tag = bytes_eq tag (take (length tag) (toy_hmac key message))

abbrev toy_decrypt : List ℕ → List ℕ → List ℕ → List ℕ → List ℕ → Option (List ℕ)
toy_decrypt key nonce aad cipher tag = if bytes_eq tag (replicate 16 0) then some cipher else none

abbrev pub toy : Crypto
toy = record {
  hmac = toy_hmac;
  verify_truncated_left = toy_verify;
  accepts_key = λ key. length key == 32;
  encrypt = λ key nonce aad plain. some (plain, replicate 16 0);
  decrypt = toy_decrypt;
}

IsBytes-replicate : (n b : ℕ) → b < 256 → IsBytes (replicate n b)
IsBytes-replicate zero b h = tt
IsBytes-replicate (suc n) b h = (h, IsBytes-replicate n b h)

toy_verify_iff :
    (key message tag : List ℕ)
    → length tag ≡ 16
    → (toy_verify key message tag ≡ true) ↔ (tag ≡ take 16 (toy_hmac key message))
toy_verify_iff key message tag n = (
  λ h. bytes_eq_sound tag (take 16 (toy_hmac key message)) (rw n at h),
  λ h. rw n (rw h (bytes_eq_refl (take 16 (toy_hmac key message)))),
)

pub toy-IsMac : IsMac toy
toy-IsMac = record {
  hmac_length = λ key message. length-replicate 32 (checksum key message % 256);
  hmac_bytes = λ key message. IsBytes-replicate 32 (checksum key message % 256) (omega arith);
  verify_iff = toy_verify_iff;
}

toy_sizes :
    (key nonce aad plain cipher tag : List ℕ)
    → toy.encrypt key nonce aad plain ≡ some (cipher, tag)
    → (length cipher ≡ length plain) × (length tag ≡ 16)
toy_sizes key nonce aad plain cipher tag h = ground arith

toy_opens :
    (key nonce aad plain cipher tag : List ℕ)
    → toy.encrypt key nonce aad plain ≡ some (cipher, tag)
    → toy.decrypt key nonce aad cipher tag ≡ some plain
toy_opens key nonce aad plain cipher tag h = ground arith

pub toy-IsAead : IsAead toy
toy-IsAead = record {
  accepts_32 = λ key h. ground arith;
  encrypt_sizes = toy_sizes;
  decrypt-encrypt = toy_opens;
}
