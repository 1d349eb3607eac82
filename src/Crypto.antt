-- ===== src/Crypto.antt =====
-- What the Host takes from the `hmac`, `sha2` and `aes_gcm` crates, which are not part of the
-- repository: keyed digests and authenticated encryption, as parameters with their documented laws.
pub mod Toy
use codex_keyboard_windows.Base.{
  ℕ, ◌≤◌, ◌≡◌, ◌↔◌, Bool, true, Option, some, List, ◌++◌, length, take, IsBytes,
}

pub record Crypto : Type 0 where
  -- `Hmac<Sha256>`: key, message, and the digest of `finalize`.
  pub hmac : List ℕ → List ℕ → List ℕ
  -- `Mac::verify_truncated_left`: key, message, tag.
  pub verify_truncated_left : List ℕ → List ℕ → List ℕ → Bool
  -- Whether `Aes256Gcm::new_from_slice` accepts a key.
  pub accepts_key : List ℕ → Bool
  -- `encrypt_in_place_detached`: key, nonce, associated data, plaintext; ciphertext and tag.
  pub encrypt : List ℕ → List ℕ → List ℕ → List ℕ → Option (List ℕ × List ℕ)
  -- `decrypt_in_place_detached`: key, nonce, associated data, ciphertext, tag; plaintext.
  pub decrypt : List ℕ → List ℕ → List ℕ → List ℕ → List ℕ → Option (List ℕ)

-- HMAC-SHA256 gives 32 bytes, and a 16-byte tag passes exactly if it is their first half.
pub record IsMac (c : Crypto) : Type 0 where
  pub hmac_length : (key message : List ℕ) → length (c.hmac key message) ≡ 32
  pub hmac_bytes : (key message : List ℕ) → IsBytes (c.hmac key message)
  pub verify_iff :
      (key message tag : List ℕ)
      → length tag ≡ 16
      → (c.verify_truncated_left key message tag ≡ true) ↔ (tag ≡ take 16 (c.hmac key message))

-- AES-256-GCM takes 32-byte keys, keeps the length, adds 16 bytes, and opens what it sealed.
pub record IsAead (c : Crypto) : Type 0 where
  pub accepts_32 : (key : List ℕ) → length key ≡ 32 → c.accepts_key key ≡ true
  pub encrypt_sizes :
      (key nonce aad plain cipher tag : List ℕ)
      → c.encrypt key nonce aad plain ≡ some (cipher, tag)
      → (length cipher ≡ length plain) × (length tag ≡ 16)
  pub decrypt-encrypt :
      (key nonce aad plain cipher tag : List ℕ)
      → c.encrypt key nonce aad plain ≡ some (cipher, tag)
      → c.decrypt key nonce aad cipher tag ≡ some plain
