-- ===== src/LanPlayback/Payload.antt =====
-- The encrypted data packets of app/host/src/lan_playback.rs.
pub mod Keys
pub mod RoundTrip
use codex_keyboard_windows.Base.{
  ℕ, ◌+◌, ◌≡◌, ◌||◌, Bool, not, Option, none, some, List, [], ◌∷◌, ◌++◌, length, take, drop,
  replicate, get_or, read, splice, ltb, ◌==◌, ◌!=◌, bytes_eq, put_u16, put_u32, put_u64, get_u16,
  get_u32, Result, ok, err, ◌>>=◌, ◌>>◌, reject_if, ok_or,
}
use codex_keyboard_windows.Crypto.{Crypto}
use codex_keyboard_windows.LanPlayback.{
  PlaybackWireError, malformed, authentication, PlaybackIdentity, playback_version,
  playback_tag_bytes, playback_chunk_bytes, data_header_bytes, valid_identity, encode_identity,
  decode_identity,
}

abbrev pub eipd : List ℕ
eipd = b'E' ∷ b'I' ∷ b'P' ∷ b'D' ∷ []

abbrev pub eipdkey1 : List ℕ
eipdkey1 = b'E' ∷ b'I' ∷ b'P' ∷ b'D' ∷ b'K' ∷ b'E' ∷ b'Y' ∷ b'1' ∷ []

-- The context that `derive_data_key` authenticates.
unfoldable pub data_context : PlaybackIdentity → ℕ → List ℕ
data_context identity request_nonce =
    let context1 = splice 0 eipdkey1 (replicate 44 0) in
    let context2 = splice 8 (identity.slot ∷ []) context1 in
    let context3 = put_u32 context2 12 identity.request_generation in
    let context4 = put_u32 context3 16 identity.connection_generation in
    let context5 = put_u64 context4 20 identity.summary_generation in
    let context6 = put_u64 context5 28 identity.lease in put_u64 context6 36 request_nonce

unfoldable pub data_nonce : ℕ → List ℕ
data_nonce offset = put_u32 (replicate 12 0) 0 offset

-- The buffer of `encode_data` before its payload is encrypted in place.
unfoldable pub data_packet : PlaybackIdentity → ℕ → List ℕ → List ℕ
unfolding encode_identity
data_packet identity offset payload =
    let packet1 = replicate (data_header_bytes + length payload + playback_tag_bytes) 0 in
    let packet2 = splice 0 eipd packet1 in
    let packet3 = splice 4 (playback_version ∷ []) packet2 in
    let packet4 = splice 5 (identity.slot ∷ []) packet3 in
    let packet5 = encode_identity packet4 identity in
    let packet6 = put_u32 packet5 32 offset in
    let packet7 = put_u16 packet6 36 (length payload) in splice 40 payload packet7

module _ (c : Crypto) where
  unfoldable pub derive_data_key : PlaybackIdentity → ℕ → List ℕ → List ℕ
  derive_data_key identity request_nonce root_key =
      c.hmac root_key (data_context identity request_nonce)

  unfoldable pub encode_data :
      PlaybackIdentity → ℕ → ℕ → List ℕ → List ℕ → Result PlaybackWireError (List ℕ)
  encode_data identity request_nonce offset payload key = do
    reject_if
        (not (valid_identity identity)
          || ((request_nonce == 0)
              || ((length payload == 0) || ltb playback_chunk_bytes (length payload))))
        malformed
    let packet = data_packet identity offset payload
    let data_key = derive_data_key identity request_nonce key
    reject_if (not (c.accepts_key data_key)) malformed
    let header = take data_header_bytes packet
    let body = take (length payload) (drop data_header_bytes packet)
    (body', tag) ← ok_or (c.encrypt data_key (data_nonce offset) header body) authentication
    ok (header ++ (body' ++ tag))

  unfoldable pub decode_data :
      List ℕ → ℕ → List ℕ → Result PlaybackWireError (PlaybackIdentity × ℕ × List ℕ)
  decode_data packet request_nonce key = do
    reject_if
        (ltb (length packet) (data_header_bytes + 1 + playback_tag_bytes)
          || (not (bytes_eq (take 4 packet) eipd) || (get_or packet 4 0 != playback_version)))
        malformed
    let identity = decode_identity packet
    let payload_len = get_u16 packet 36
    reject_if
        (not (bytes_eq (read 6 2 packet) (0 ∷ 0 ∷ []))
          || (not (bytes_eq (read 38 2 packet) (0 ∷ 0 ∷ []))
              || (not (valid_identity identity)
                  || ((request_nonce == 0)
                      || ((payload_len == 0)
                          || (ltb playback_chunk_bytes payload_len
                              || (length packet
                                  != data_header_bytes + payload_len + playback_tag_bytes)))))))
        malformed
    let offset = get_u32 packet 32
    let data_key = derive_data_key identity request_nonce key
    reject_if (not (c.accepts_key data_key)) malformed
    plaintext ←
        ok_or
          (c.decrypt data_key (data_nonce offset) (take data_header_bytes packet)
            (read data_header_bytes payload_len packet)
            (drop (data_header_bytes + payload_len) packet))
          authentication
    ok (identity, offset, plaintext)
