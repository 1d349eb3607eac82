-- ===== src/LanPlayback/Control/Request.antt =====
-- `encode_request` and `decode_request` are inverse to one another.
use codex_keyboard_windows.Base.{
  ℕ, ◌^◌, ◌≤◌, ◌<◌, ◌≡◌, refl, sym, ap, ◌∙◌, ◌≢◌, List, [], ◌∷◌, ◌++◌, length, take, read,
  replicate, get_or, arith, le_bytes, get_u32, get_u64, from_le-le_bytes, fields-read, read_one,
  IsBytes, bytes_eq_sound, le_bytes-get_u32, le_bytes-get_u64, get_u32_lt, get_u64_lt, ok,
}
use codex_keyboard_windows.Crypto.{Crypto, IsMac}
use codex_keyboard_windows.LanPlayback.{PlaybackRequest, valid_slot}
use codex_keyboard_windows.LanPlayback.Auth.{sign, verify_fixed}
use codex_keyboard_windows.LanPlayback.Auth.Laws.{
  tag_of, sign-append, verify_fixed-tag_of, verify_fixed-inv,
}
use codex_keyboard_windows.LanPlayback.Control.{
  eipr, request_packet, request_fields, encode_request, decode_request,
}

-- The integers fit their widths, and no field has a value that the protocol reserves.
pub record IsRequest (r : PlaybackRequest) : Type 0 where
  pub slot_low : 1 ≤ r.slot
  pub slot_high : r.slot ≤ 4
  pub request_generation_set : r.request_generation ≢ 0
  pub request_generation_fits : r.request_generation < 256 ^ 4
  pub connection_generation_set : r.connection_generation ≢ 0
  pub connection_generation_fits : r.connection_generation < 256 ^ 4
  pub nonce_set : r.nonce ≢ 0
  pub nonce_fits : r.nonce < 256 ^ 8

request_body : PlaybackRequest → List ℕ
request_body r =
    eipr
    ++ ((1 ∷ [])
        ++ ((r.slot ∷ [])
            ++ ((0 ∷ 0 ∷ [])
                ++ (le_bytes 4 r.request_generation
                    ++ (le_bytes 4 r.connection_generation ++ (le_bytes 8 r.nonce ++ []))))))

request_packet_lem : (r : PlaybackRequest) → request_packet r ≡ request_body r ++ replicate 16 0
unfolding request_packet request_body le_bytes
request_packet_lem r = refl

request_fields-body :
    (r : PlaybackRequest) (rest : List ℕ)
    → IsRequest r
    → request_fields (request_body r ++ rest) ≡ r
unfolding request_fields request_body le_bytes get_u32 get_u64
request_fields-body r rest v = λ i. record {
  slot = r.slot;
  request_generation = from_le-le_bytes 4 r.request_generation v.request_generation_fits i;
  connection_generation = from_le-le_bytes 4 r.connection_generation v.connection_generation_fits i;
  nonce = from_le-le_bytes 8 r.nonce v.nonce_fits i;
}

module _ (c : Crypto) (m : IsMac c) where
  encode_request_lem :
      (r : PlaybackRequest) (key : List ℕ)
      → encode_request c r key ≡ request_body r ++ tag_of c m (request_body r) key
  unfolding encode_request
  encode_request_lem r key =
      ap (λ p. sign c p key) (request_packet_lem r)
      ∙ sign-append c m (request_body r) (replicate 16 0) key refl

  decode_request-body :
      (r : PlaybackRequest) (key : List ℕ)
      → IsRequest r
      → decode_request c (request_body r ++ tag_of c m (request_body r) key) key ≡ ok r
  unfolding decode_request request_body le_bytes valid_slot
  decode_request-body r key v = ground (
    arith,
    request_fields-body r (tag_of c m (request_body r) key) v,
    verify_fixed-tag_of c m (request_body r) eipr key 40 refl refl refl,
  )

  -- A playback request with a slot from 1 to 4 and generations and a nonce of their widths other
  -- than 0 is read back by `decode_request` from what `encode_request` writes, under the same key.
  pub decode_request-encode_request :
      (r : PlaybackRequest) (key : List ℕ)
      → IsRequest r
      → decode_request c (encode_request c r key) key ≡ ok r
  decode_request-encode_request r key v =
      ap (λ p. decode_request c p key) (encode_request_lem r key) ∙ decode_request-body r key v

-- The header of a packet is its fields, one after another.
request_body-fields :
    (p : List ℕ)
    → IsBytes p
    → length p ≡ 40
    → take 4 p ≡ eipr
    → get_or p 4 0 ≡ 1
    → read 6 2 p ≡ 0 ∷ 0 ∷ []
    → request_body (request_fields p) ≡ take 24 p
unfolding request_body request_fields
request_body-fields p b n magic version zeros = sym (
    sym (fields-read 0 (4 ∷ 1 ∷ 1 ∷ 2 ∷ 4 ∷ 4 ∷ 8 ∷ []) p)
    ∙ simp (
      magic,
      read_one 4 p 0 (omega arith),
      version,
      read_one 5 p 0 (omega arith),
      zeros,
      ← le_bytes-get_u32 8 p b (omega arith),
      ← le_bytes-get_u32 12 p b (omega arith),
      ← le_bytes-get_u64 16 p b (omega arith),
    ))

module _ (c : Crypto) (m : IsMac c) where
  decode_request-parts :
      (p key : List ℕ) (r : PlaybackRequest)
      → decode_request c p key ≡ ok r
      → (verify_fixed c p 40 eipr key ≡ ok tt)
        × (read 6 2 p ≡ 0 ∷ 0 ∷ [])
        × (r ≡ request_fields p)
        × (1 ≤ r.slot)
        × (r.slot ≤ 4)
        × (r.request_generation ≢ 0)
        × (r.connection_generation ≢ 0)
        × (r.nonce ≢ 0)
  unfolding decode_request valid_slot
  decode_request-parts p key r h = ground (arith, bytes_eq_sound (read 6 2 p) (0 ∷ 0 ∷ []))

  -- A packet of bytes that `decode_request` accepts is, byte for byte, what `encode_request`
  -- writes for the result under that key, and the result is in range: there is one accepted
  -- encoding.
  pub encode_request-decode_request :
      (p key : List ℕ) (r : PlaybackRequest)
      → IsBytes p
      → decode_request c p key ≡ ok r
      → (encode_request c r key ≡ p) × IsRequest r
  encode_request-decode_request p key r b h =
      let (passes, zeros, e, low, high, gen, conn, nonce) = decode_request-parts p key r h in
      let (n, magic, version, tagged) = verify_fixed-inv c m p eipr key 40 passes in
      let header : request_body r ≡ take 24 p =
        rw e (request_body-fields p b n magic version zeros) in
      (
        encode_request_lem c m r key ∙ ap (λ body. body ++ tag_of c m body key) header ∙ sym tagged,
        record {
          slot_low = low;
          slot_high = high;
          request_generation_set = gen;
          request_generation_fits = rw e (unfold request_fields in get_u32_lt 8 p b (omega arith));
          connection_generation_set = conn;
          connection_generation_fits =
              rw e (unfold request_fields in get_u32_lt 12 p b (omega arith));
          nonce_set = nonce;
          nonce_fits = rw e (unfold request_fields in get_u64_lt 16 p b (omega arith));
        },
      )
