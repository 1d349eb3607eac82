-- ===== src/LanPlayback/Control/FinishedAck.antt =====
-- `encode_finished_ack` and `decode_finished_ack` are inverse to one another.
use codex_keyboard_windows.Base.{
  ℕ, ◌≤◌, ◌≡◌, refl, sym, ap, ◌∙◌, List, [], ◌∷◌, ◌++◌, length, take, replicate, get_or, arith,
  le_bytes, fields-read, read_one, IsBytes, le_bytes-get_u32, le_bytes-get_u64, ok, true,
}
use codex_keyboard_windows.Crypto.{Crypto, IsMac}
use codex_keyboard_windows.LanPlayback.{PlaybackIdentity, valid_identity, decode_identity}
use codex_keyboard_windows.LanPlayback.Auth.{sign, verify_fixed}
use codex_keyboard_windows.LanPlayback.Auth.Laws.{
  tag_of, sign-append, verify_fixed-tag_of, verify_fixed-inv,
}
use codex_keyboard_windows.LanPlayback.Control.{
  eipk, finished_ack_packet, encode_finished_ack, decode_finished_ack,
}
use codex_keyboard_windows.LanPlayback.Control.Identity.{
  IsIdentity, valid_identity_of, decode_identity_of, decode_identity-IsIdentity,
}

finished_ack_body : PlaybackIdentity → ℕ → List ℕ
finished_ack_body d status =
    eipk
    ++ ((1 ∷ [])
        ++ ((d.slot ∷ [])
            ++ ((status ∷ [])
                ++ ((0 ∷ [])
                    ++ (le_bytes 4 d.request_generation
                        ++ (le_bytes 4 d.connection_generation
                            ++ (le_bytes 8 d.summary_generation ++ (le_bytes 8 d.lease ++ []))))))))

finished_ack_packet_lem :
    (d : PlaybackIdentity) (status : ℕ)
    → finished_ack_packet d status ≡ finished_ack_body d status ++ replicate 16 0
unfolding finished_ack_packet finished_ack_body le_bytes
finished_ack_packet_lem d status = refl

decode_identity-body :
    (d : PlaybackIdentity) (status : ℕ) (rest : List ℕ)
    → IsIdentity d
    → decode_identity (finished_ack_body d status ++ rest) ≡ d
unfolding finished_ack_body le_bytes
decode_identity-body d status rest v =
    decode_identity_of (finished_ack_body d status ++ rest) d v refl refl refl refl refl

finished_ack_body-fields :
    (p : List ℕ)
    → IsBytes p
    → length p ≡ 48
    → take 4 p ≡ eipk
    → get_or p 4 0 ≡ 1
    → get_or p 7 0 ≡ 0
    → finished_ack_body (decode_identity p) (get_or p 6 0) ≡ take 32 p
unfolding finished_ack_body decode_identity
finished_ack_body-fields p b n magic version zero_byte = sym (
    sym (fields-read 0 (4 ∷ 1 ∷ 1 ∷ 1 ∷ 1 ∷ 4 ∷ 4 ∷ 8 ∷ 8 ∷ []) p)
    ∙ simp (
      magic,
      read_one 4 p 0 (omega arith),
      version,
      read_one 5 p 0 (omega arith),
      read_one 6 p 0 (omega arith),
      read_one 7 p 0 (omega arith),
      zero_byte,
      ← le_bytes-get_u32 8 p b (omega arith),
      ← le_bytes-get_u32 12 p b (omega arith),
      ← le_bytes-get_u64 16 p b (omega arith),
      ← le_bytes-get_u64 24 p b (omega arith),
    ))

module _ (c : Crypto) (m : IsMac c) where
  encode_finished_ack_lem :
      (d : PlaybackIdentity) (status : ℕ) (key : List ℕ)
      → encode_finished_ack c d status key
        ≡ finished_ack_body d status ++ tag_of c m (finished_ack_body d status) key
  unfolding encode_finished_ack
  encode_finished_ack_lem d status key =
      ap (λ p. sign c p key) (finished_ack_packet_lem d status)
      ∙ sign-append c m (finished_ack_body d status) (replicate 16 0) key refl

  decode_finished_ack-body :
      (d : PlaybackIdentity) (status : ℕ) (key : List ℕ)
      → IsIdentity d
      → status ≤ 1
      → decode_finished_ack c
          (finished_ack_body d status ++ tag_of c m (finished_ack_body d status) key)
          key
        ≡ ok (d, status)
  unfolding decode_finished_ack finished_ack_body le_bytes
  decode_finished_ack-body d status key v h = ground (
    arith,
    decode_identity-body d status (tag_of c m (finished_ack_body d status) key) v,
    valid_identity_of d v,
    verify_fixed-tag_of c m (finished_ack_body d status) eipk key 48 refl refl refl,
  )

  -- A finish acknowledgement with a valid identity and a status of at most 1 is read back by
  -- `decode_finished_ack` from what `encode_finished_ack` writes, under the same key.
  pub decode_finished_ack-encode_finished_ack :
      (d : PlaybackIdentity) (status : ℕ) (key : List ℕ)
      → IsIdentity d
      → status ≤ 1
      → decode_finished_ack c (encode_finished_ack c d status key) key ≡ ok (d, status)
  decode_finished_ack-encode_finished_ack d status key v h =
      ap (λ p. decode_finished_ack c p key) (encode_finished_ack_lem d status key)
      ∙ decode_finished_ack-body d status key v h

  decode_finished_ack-parts :
      (p key : List ℕ) (d : PlaybackIdentity) (status : ℕ)
      → decode_finished_ack c p key ≡ ok (d, status)
      → (verify_fixed c p 48 eipk key ≡ ok tt)
        × (get_or p 7 0 ≡ 0)
        × (d ≡ decode_identity p)
        × (status ≡ get_or p 6 0)
        × (valid_identity (decode_identity p) ≡ true)
        × (status ≤ 1)
  unfolding decode_finished_ack
  decode_finished_ack-parts p key d status h = ground arith

  -- A packet of bytes that `decode_finished_ack` accepts is, byte for byte, what
  -- `encode_finished_ack` writes for the result under that key, and the result is in range: there
  -- is one accepted encoding.
  pub encode_finished_ack-decode_finished_ack :
      (p key : List ℕ) (d : PlaybackIdentity) (status : ℕ)
      → IsBytes p
      → decode_finished_ack c p key ≡ ok (d, status)
      → (encode_finished_ack c d status key ≡ p) × IsIdentity d × (status ≤ 1)
  encode_finished_ack-decode_finished_ack p key d status b h =
      let (passes, zero_byte, e, f, valid, bounded) = decode_finished_ack-parts p key d status h in
      let (n, magic, version, tagged) = verify_fixed-inv c m p eipk key 48 passes in
      let header : finished_ack_body d status ≡ take 32 p =
        rw (e, f) (finished_ack_body-fields p b n magic version zero_byte) in
      (
        encode_finished_ack_lem d status key
            ∙ ap (λ body. body ++ tag_of c m body key) header
            ∙ sym tagged,
        rw e (decode_identity-IsIdentity p b (omega arith) valid),
        bounded,
      )
