-- ===== src/LanPlayback/Control/Ack.antt =====
-- `encode_ack` and `decode_ack` are inverse to one another.
use codex_keyboard_windows.Base.{
  ℕ, ◌^◌, ◌≤◌, ◌<◌, ◌≡◌, refl, sym, ap, ◌∙◌, List, [], ◌∷◌, ◌++◌, length, take, replicate, get_or,
  arith, le_bytes, get_u32, from_le-le_bytes, fields-read, read_one, IsBytes, le_bytes-get_u32,
  le_bytes-get_u64, get_u32_lt, ok, true,
}
use codex_keyboard_windows.Crypto.{Crypto, IsMac}
use codex_keyboard_windows.LanPlayback.{PlaybackAck, valid_identity, decode_identity}
use codex_keyboard_windows.LanPlayback.Auth.{sign, verify_fixed}
use codex_keyboard_windows.LanPlayback.Auth.Laws.{
  tag_of, sign-append, verify_fixed-tag_of, verify_fixed-inv,
}
use codex_keyboard_windows.LanPlayback.Control.{
  eipa, ack_packet, ack_fields, encode_ack, decode_ack,
}
use codex_keyboard_windows.LanPlayback.Control.Identity.{
  IsIdentity, valid_identity_of, decode_identity_of, decode_identity-IsIdentity,
}

pub record IsAck (a : PlaybackAck) : Type 0 where
  pub identity_valid : IsIdentity a.identity
  pub status_bounded : a.status ≤ 3
  pub next_offset_fits : a.next_offset < 256 ^ 4

ack_body : PlaybackAck → List ℕ
ack_body a =
    eipa
    ++ ((1 ∷ [])
        ++ ((a.identity.slot ∷ [])
            ++ ((a.status ∷ [])
                ++ ((0 ∷ [])
                    ++ (le_bytes 4 a.identity.request_generation
                        ++ (le_bytes 4 a.identity.connection_generation
                            ++ (le_bytes 8 a.identity.summary_generation
                                ++ (le_bytes 8 a.identity.lease
                                    ++ (le_bytes 4 a.next_offset ++ [])))))))))

ack_packet_lem : (a : PlaybackAck) → ack_packet a ≡ ack_body a ++ replicate 16 0
unfolding ack_packet ack_body le_bytes
ack_packet_lem a = refl

ack_fields-body : (a : PlaybackAck) (rest : List ℕ) → IsAck a → ack_fields (ack_body a ++ rest) ≡ a
unfolding ack_fields ack_body le_bytes get_u32
ack_fields-body a rest v = λ i. record {
  identity =
      decode_identity_of (ack_body a ++ rest) a.identity v.identity_valid refl refl refl refl refl
        i;
  status = a.status;
  next_offset = from_le-le_bytes 4 a.next_offset v.next_offset_fits i;
}

ack_body-fields :
    (p : List ℕ)
    → IsBytes p
    → length p ≡ 52
    → take 4 p ≡ eipa
    → get_or p 4 0 ≡ 1
    → get_or p 7 0 ≡ 0
    → ack_body (ack_fields p) ≡ take 36 p
unfolding ack_body ack_fields decode_identity
ack_body-fields p b n magic version zero_byte = sym (
    sym (fields-read 0 (4 ∷ 1 ∷ 1 ∷ 1 ∷ 1 ∷ 4 ∷ 4 ∷ 8 ∷ 8 ∷ 4 ∷ []) p)
    ∙ simp (
      magic,
      read_one 4 p 0 (omega arith),
      version,
      read_one 5 p 0 (omega arith),
      read_one 6 p 0 (omega arith),
      read_one 7 p 0 (omega arith),
      zero_byte,
      ← le_bytes-get_u32 8 p b (omega arith),
      ← le_bytes-get_u32 12 p b (omega arith),
      ← le_bytes-get_u64 16 p b (omega arith),
      ← le_bytes-get_u64 24 p b (omega arith),
      ← le_bytes-get_u32 32 p b (omega arith),
    ))

module _ (c : Crypto) (m : IsMac c) where
  encode_ack_lem :
      (a : PlaybackAck) (key : List ℕ)
      → encode_ack c a key ≡ ack_body a ++ tag_of c m (ack_body a) key
  unfolding encode_ack
  encode_ack_lem a key =
      ap (λ p. sign c p key) (ack_packet_lem a)
      ∙ sign-append c m (ack_body a) (replicate 16 0) key refl

  decode_ack-body :
      (a : PlaybackAck) (key : List ℕ)
      → IsAck a
      → decode_ack c (ack_body a ++ tag_of c m (ack_body a) key) key ≡ ok a
  unfolding decode_ack ack_body le_bytes
  decode_ack-body a key v = ground (
    arith,
    ack_fields-body a (tag_of c m (ack_body a) key) v,
    valid_identity_of a.identity v.identity_valid,
    verify_fixed-tag_of c m (ack_body a) eipa key 52 refl refl refl,
  )

  -- An acknowledgement with a valid identity, a status of at most 3 and a 32-bit offset is read
  -- back by `decode_ack` from what `encode_ack` writes, under the same key.
  pub decode_ack-encode_ack :
      (a : PlaybackAck) (key : List ℕ) → IsAck a → decode_ack c (encode_ack c a key) key ≡ ok a
  decode_ack-encode_ack a key v =
      ap (λ p. decode_ack c p key) (encode_ack_lem a key) ∙ decode_ack-body a key v

  decode_ack-parts :
      (p key : List ℕ) (a : PlaybackAck)
      → decode_ack c p key ≡ ok a
      → (verify_fixed c p 52 eipa key ≡ ok tt)
        × (get_or p 7 0 ≡ 0)
        × (a ≡ ack_fields p)
        × (valid_identity a.identity ≡ true)
        × (a.status ≤ 3)
  unfolding decode_ack
  decode_ack-parts p key a h = ground arith

  -- A packet of bytes that `decode_ack` accepts is, byte for byte, what `encode_ack` writes for
  -- the result under that key, and the result is in range: there is one accepted encoding.
  pub encode_ack-decode_ack :
      (p key : List ℕ) (a : PlaybackAck)
      → IsBytes p
      → decode_ack c p key ≡ ok a
      → (encode_ack c a key ≡ p) × IsAck a
  encode_ack-decode_ack p key a b h =
      let (passes, zero_byte, e, valid, bounded) = decode_ack-parts p key a h in
      let (n, magic, version, tagged) = verify_fixed-inv c m p eipa key 52 passes in
      let header : ack_body a ≡ take 36 p = rw e (ack_body-fields p b n magic version zero_byte) in
      let same : a.identity ≡ decode_identity p =
        unfold ack_fields in ap (λ (x : PlaybackAck). x.identity) e in
      (
        encode_ack_lem a key ∙ ap (λ body. body ++ tag_of c m body key) header ∙ sym tagged,
        record {
          identity_valid =
              rw same (decode_identity-IsIdentity p b (omega arith) (rw (← same) valid));
          status_bounded = bounded;
          next_offset_fits = rw e (unfold ack_fields in get_u32_lt 32 p b (omega arith));
        },
      )
