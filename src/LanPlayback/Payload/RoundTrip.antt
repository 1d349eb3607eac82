-- ===== src/LanPlayback/Payload/RoundTrip.antt =====
-- What `encode_data` sends, `decode_data` opens.
use codex_keyboard_windows.Base.{
  ℕ, ◌+◌, ◌^◌, ◌≤◌, ◌<◌, ◌≡◌, ◌≢◌, refl, ap, List, [], ◌∷◌, ◌++◌, length, take, drop, read,
  replicate, get_or, arith, le_bytes, get_u16, get_u32, from_le-le_bytes, length-append,
  length-replicate, take-append_length, drop-append_length, some, ok, true, zero, suc, drop-drop,
}
use codex_keyboard_windows.Crypto.{Crypto, IsMac, IsAead}
use codex_keyboard_windows.LanPlayback.{PlaybackIdentity, valid_identity, decode_identity}
use codex_keyboard_windows.LanPlayback.Control.Identity.{
  IsIdentity, valid_identity_of, decode_identity_of,
}
use codex_keyboard_windows.LanPlayback.Payload.{
  eipd, data_packet, data_nonce, derive_data_key, encode_data, decode_data,
}

abbrev zeros : ℕ → List ℕ
zeros n = replicate n 0

zeros-add : (m n : ℕ) → zeros (m + n) ≡ zeros m ++ zeros n
zeros-add zero n = ap zeros (omega arith)
zeros-add (suc m) n =
    let e : suc m + n ≡ suc (m + n) = omega arith in rw e (ap (◌∷◌ 0) (zeros-add m n))

header : PlaybackIdentity → ℕ → ℕ → List ℕ
header d offset size =
    eipd
    ++ (1
        ∷ d.slot
        ∷ 0
        ∷ 0
        ∷ (le_bytes 4 d.request_generation
            ++ (le_bytes 4 d.connection_generation
                ++ (le_bytes 8 d.summary_generation
                    ++ (le_bytes 8 d.lease
                        ++ (le_bytes 4 offset ++ (le_bytes 2 size ++ (0 ∷ 0 ∷ []))))))))

-- The buffer before encryption: the header, the payload, and room for the tag.
data_packet_lem :
    (d : PlaybackIdentity) (offset : ℕ) (payload : List ℕ)
    → data_packet d offset payload ≡ header d offset (length payload) ++ (payload ++ replicate 16 0)
unfolding data_packet header le_bytes
data_packet_lem d offset payload =
    rw
      (
        zeros-add (40 + length payload) 16,
        zeros-add 40 (length payload),
        ← drop-drop 40 (length payload) _,
      )
      (ap (λ rest. header d offset (length payload) ++ (payload ++ rest))
        (drop-append_length (length payload) (zeros (length payload)) (zeros 16)
          (length-replicate (length payload) 0)))

decode_identity-header :
    (d : PlaybackIdentity) (offset size : ℕ) (rest : List ℕ)
    → IsIdentity d
    → decode_identity (header d offset size ++ rest) ≡ d
unfolding header le_bytes
decode_identity-header d offset size rest v =
    decode_identity_of (header d offset size ++ rest) d v refl refl refl refl refl

header_integers :
    (d : PlaybackIdentity) (offset size : ℕ) (rest : List ℕ)
    → offset < 256 ^ 4
    → size < 256 ^ 2
    → (get_u16 (header d offset size ++ rest) 36 ≡ size)
      × (get_u32 (header d offset size ++ rest) 32 ≡ offset)
unfolding header le_bytes get_u16 get_u32
header_integers d offset size rest ho hs =
    (from_le-le_bytes 2 size hs, from_le-le_bytes 4 offset ho)

length-header : (d : PlaybackIdentity) (offset size : ℕ) → length (header d offset size) ≡ 40
unfolding header le_bytes
length-header d offset size = refl

-- The cuts of the buffer, and of the packet.
cut_buffer :
    (d : PlaybackIdentity) (offset : ℕ) (payload : List ℕ)
    → (take 40 (data_packet d offset payload) ≡ header d offset (length payload))
      × (take (length payload) (drop 40 (data_packet d offset payload)) ≡ payload)
cut_buffer d offset payload =
    let h = header d offset (length payload) in
    let n = length-header d offset (length payload) in
    rw (data_packet_lem d offset payload) (
      take-append_length 40 h _ n,
      rw (drop-append_length 40 h (payload ++ zeros 16) n)
          (take-append_length (length payload) payload (zeros 16) refl),
    )

cut_packet :
    (h cipher tag : List ℕ) (size : ℕ)
    → length h ≡ 40
    → length cipher ≡ size
    → (take 40 (h ++ (cipher ++ tag)) ≡ h)
      × (read 40 size (h ++ (cipher ++ tag)) ≡ cipher)
      × (drop (40 + size) (h ++ (cipher ++ tag)) ≡ tag)
cut_packet h cipher tag size n k = (
  take-append_length 40 h (cipher ++ tag) n,
  rw (drop-append_length 40 h (cipher ++ tag) n) (take-append_length size cipher tag k),
  rw (← drop-drop 40 size (h ++ (cipher ++ tag)), drop-append_length 40 h (cipher ++ tag) n)
      (drop-append_length size cipher tag k),
)

header_constants :
    (d : PlaybackIdentity) (offset size : ℕ) (rest : List ℕ)
    → let p = header d offset size ++ rest in
      (take 4 p ≡ eipd)
      × (get_or p 4 0 ≡ 1)
      × (read 6 2 p ≡ 0 ∷ 0 ∷ [])
      × (read 38 2 p ≡ 0 ∷ 0 ∷ [])
unfolding header le_bytes
header_constants d offset size rest = (refl, refl, refl, refl)

-- What `decode_data` computes from the parts of a packet.
decode_data_of :
    (c : Crypto) (p key payload : List ℕ) (d : PlaybackIdentity) (nonce offset size : ℕ)
    → (take 4 p ≡ eipd)
      × (get_or p 4 0 ≡ 1)
      × (read 6 2 p ≡ 0 ∷ 0 ∷ [])
      × (read 38 2 p ≡ 0 ∷ 0 ∷ [])
    → (get_u16 p 36 ≡ size) × (get_u32 p 32 ≡ offset)
    → length p ≡ 40 + size + 16
    → decode_identity p ≡ d
    → valid_identity d ≡ true
    → nonce ≢ 0
    → 1 ≤ size
    → size ≤ 1024
    → c.accepts_key (derive_data_key c d nonce key) ≡ true
    → c.decrypt
        (derive_data_key c d nonce key)
        (data_nonce offset)
        (take 40 p)
        (read 40 size p)
        (drop (40 + size) p)
      ≡ some payload
    → decode_data c p nonce key ≡ ok (d, offset, payload)
unfolding decode_data
decode_data_of c p key payload d nonce offset size k i n e v hn lo hi accepts opens =
    rw (k.0, k.1, k.2, k.3, i.0, i.1, n, e, v, accepts, opens) (ground arith)

module _ (c : Crypto) (m : IsMac c) (a : IsAead c) where
  -- What `encode_data` returns, where the cipher gives a ciphertext and a tag.
  encode_data_lem :
      (d : PlaybackIdentity) (nonce offset : ℕ) (payload key cipher tag : List ℕ)
      → IsIdentity d
      → nonce ≢ 0
      → 1 ≤ length payload
      → length payload ≤ 1024
      → c.encrypt
          (derive_data_key c d nonce key)
          (data_nonce offset)
          (header d offset (length payload))
          payload
        ≡ some (cipher, tag)
      → encode_data c d nonce offset payload key
        ≡ ok (header d offset (length payload) ++ (cipher ++ tag))
  unfolding encode_data
  encode_data_lem d nonce offset payload key cipher tag v hn lo hi e =
      let (left, right) = cut_buffer d offset payload in
      let accepts : c.accepts_key (derive_data_key c d nonce key) ≡ true =
        unfold derive_data_key in a.accepts_32 _ (m.hmac_length _ _) in
      ground (arith, valid_identity_of d v, left, right, accepts, e)

  decode_data_lem :
      (d : PlaybackIdentity) (nonce offset : ℕ) (payload key cipher tag : List ℕ)
      → IsIdentity d
      → nonce ≢ 0
      → 1 ≤ length payload
      → length payload ≤ 1024
      → offset < 256 ^ 4
      → c.encrypt
          (derive_data_key c d nonce key)
          (data_nonce offset)
          (header d offset (length payload))
          payload
        ≡ some (cipher, tag)
      → decode_data c (header d offset (length payload) ++ (cipher ++ tag)) nonce key
        ≡ ok (d, offset, payload)
  decode_data_lem d nonce offset payload key cipher tag v hn lo hi ho e =
      let size = length payload in
      let h = header d offset size in
      let n = length-header d offset size in
      let (nc, nt) = a.encrypt_sizes _ _ _ _ _ _ e in
      let (left, middle, right) = cut_packet h cipher tag size n nc in
      let accepts : c.accepts_key (derive_data_key c d nonce key) ≡ true =
        unfold derive_data_key in a.accepts_32 _ (m.hmac_length _ _) in
      decode_data_of c (h ++ (cipher ++ tag)) key payload d nonce offset size
        (header_constants d offset size (cipher ++ tag))
        (header_integers d offset size (cipher ++ tag) ho (omega arith))
        (omega (arith, length-append h (cipher ++ tag), length-append cipher tag, n, nc, nt))
        (decode_identity-header d offset size (cipher ++ tag) v) (valid_identity_of d v) hn lo hi
        accepts (rw (left, middle, right) (a.decrypt-encrypt _ _ _ _ _ _ e))

  -- For a valid identity, a nonce that is not 0, a payload of 1 to 1024 bytes and an offset of 32
  -- bits, when the cipher seals the payload, `encode_data` gives a packet of 40 bytes, the payload
  -- and a tag, from which `decode_data` under the same key and nonce reads the same identity,
  -- offset and payload.
  pub decode_data-encode_data :
      (d : PlaybackIdentity) (nonce offset : ℕ) (payload key cipher tag : List ℕ)
      → IsIdentity d
      → nonce ≢ 0
      → 1 ≤ length payload
      → length payload ≤ 1024
      → offset < 256 ^ 4
      → c.encrypt
          (derive_data_key c d nonce key)
          (data_nonce offset)
          (take 40 (data_packet d offset payload))
          payload
        ≡ some (cipher, tag)
      → (p : List ℕ) × (encode_data c d nonce offset payload key ≡ ok p)
        × (length p ≡ 40 + length payload + 16)
        × (decode_data c p nonce key ≡ ok (d, offset, payload))
  decode_data-encode_data d nonce offset payload key cipher tag v hn lo hi ho e =
      let h = header d offset (length payload) in
      let e' = rw ((cut_buffer d offset payload).0) at e in
      let (nc, nt) = a.encrypt_sizes _ _ _ _ _ _ e' in
      (
        h ++ (cipher ++ tag),
        encode_data_lem d nonce offset payload key cipher tag v hn lo hi e',
        omega (
          arith,
          length-append h (cipher ++ tag),
          length-append cipher tag,
          length-header d offset (length payload),
          nc,
          nt,
        ),
        decode_data_lem d nonce offset payload key cipher tag v hn lo hi ho e',
      )
