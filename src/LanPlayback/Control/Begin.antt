-- ===== src/LanPlayback/Control/Begin.antt =====
-- `encode_begin` and `decode_begin` are inverse to one another.
use codex_keyboard_windows.Base.{
  ℕ, ◌*◌, ◌^◌, ◌≤◌, ◌<◌, ◌≡◌, refl, sym, ap, ◌∙◌, ◌≢◌, List, [], ◌∷◌, ◌++◌, length, take, read,
  replicate, get_or, arith, le_bytes, get_u16, get_u32, get_u64, from_le-le_bytes, fields-read,
  read_one, IsBytes, bytes_eq_sound, le_bytes-get_u16, le_bytes-get_u32, le_bytes-get_u64,
  get_u64_lt, ok, true, false, not, not-eq-false, ◌||◌, ◌==◌, ltb, >>=-eq-ok, reject_if-eq-ok,
  or-eq-false, subst,
}
use codex_keyboard_windows.Crypto.{Crypto, IsMac}
use codex_keyboard_windows.LanPlayback.{malformed, PlaybackBegin, valid_identity, decode_identity}
use codex_keyboard_windows.LanPlayback.Auth.{sign, verify_fixed}
use codex_keyboard_windows.LanPlayback.Auth.Laws.{
  tag_of, sign-append, verify_fixed-tag_of, verify_fixed-inv,
}
use codex_keyboard_windows.LanPlayback.Control.{
  eipb, begin_packet, begin_fields, encode_begin, decode_begin,
}
use codex_keyboard_windows.LanPlayback.Control.Identity.{
  IsIdentity, valid_identity_of, decode_identity_of, decode_identity-IsIdentity,
}

pub record IsBegin (g : PlaybackBegin) : Type 0 where
  pub identity_valid : IsIdentity g.identity
  pub total_bytes_set : g.total_bytes ≢ 0
  pub total_bytes_bounded : g.total_bytes ≤ 4 * 1024 * 1024
  pub total_samples_set : g.total_samples ≢ 0
  pub total_samples_fits : g.total_samples < 256 ^ 8
  pub chunk_bytes_set : g.chunk_bytes ≢ 0
  pub chunk_bytes_bounded : g.chunk_bytes ≤ 1024
  pub request_nonce_set : g.request_nonce ≢ 0
  pub request_nonce_fits : g.request_nonce < 256 ^ 8

begin_body : PlaybackBegin → List ℕ
begin_body g =
    eipb
    ++ ((1 ∷ [])
        ++ ((g.identity.slot ∷ [])
            ++ ((0 ∷ 0 ∷ [])
                ++ (le_bytes 4 g.identity.request_generation
                    ++ (le_bytes 4 g.identity.connection_generation
                        ++ (le_bytes 8 g.identity.summary_generation
                            ++ (le_bytes 8 g.identity.lease
                                ++ (le_bytes 4 g.total_bytes
                                    ++ (le_bytes 8 g.total_samples
                                        ++ (le_bytes 2 g.chunk_bytes
                                            ++ ((0 ∷ 0 ∷ [])
                                                ++ (le_bytes 8 g.request_nonce ++ []))))))))))))

begin_packet_lem : (g : PlaybackBegin) → begin_packet g ≡ begin_body g ++ replicate 16 0
unfolding begin_packet begin_body le_bytes
begin_packet_lem g = refl

begin_fields-body :
    (g : PlaybackBegin) (rest : List ℕ) → IsBegin g → begin_fields (begin_body g ++ rest) ≡ g
unfolding begin_fields begin_body le_bytes get_u16 get_u32 get_u64
begin_fields-body g rest v = λ i. record {
  identity =
      decode_identity_of (begin_body g ++ rest) g.identity v.identity_valid refl refl refl refl refl
        i;
  total_bytes = from_le-le_bytes 4 g.total_bytes (omega (arith, v.total_bytes_bounded)) i;
  total_samples = from_le-le_bytes 8 g.total_samples v.total_samples_fits i;
  chunk_bytes = from_le-le_bytes 2 g.chunk_bytes (omega (arith, v.chunk_bytes_bounded)) i;
  request_nonce = from_le-le_bytes 8 g.request_nonce v.request_nonce_fits i;
}

begin_body-fields :
    (p : List ℕ)
    → IsBytes p
    → length p ≡ 72
    → take 4 p ≡ eipb
    → get_or p 4 0 ≡ 1
    → read 6 2 p ≡ 0 ∷ 0 ∷ []
    → read 46 2 p ≡ 0 ∷ 0 ∷ []
    → begin_body (begin_fields p) ≡ take 56 p
unfolding begin_body begin_fields decode_identity
begin_body-fields p b n magic version zeros zeros' = sym (
    sym (fields-read 0 (4 ∷ 1 ∷ 1 ∷ 2 ∷ 4 ∷ 4 ∷ 8 ∷ 8 ∷ 4 ∷ 8 ∷ 2 ∷ 2 ∷ 8 ∷ []) p)
    ∙ simp (
      magic,
      read_one 4 p 0 (omega arith),
      version,
      read_one 5 p 0 (omega arith),
      zeros,
      zeros',
      ← le_bytes-get_u32 8 p b (omega arith),
      ← le_bytes-get_u32 12 p b (omega arith),
      ← le_bytes-get_u64 16 p b (omega arith),
      ← le_bytes-get_u64 24 p b (omega arith),
      ← le_bytes-get_u32 32 p b (omega arith),
      ← le_bytes-get_u64 36 p b (omega arith),
      ← le_bytes-get_u16 44 p b (omega arith),
      ← le_bytes-get_u64 48 p b (omega arith),
    ))

abbrev BeginLimits : PlaybackBegin → Type 0
BeginLimits g =
    (valid_identity g.identity ≡ true)
    × ((g.total_bytes ≢ 0) × (g.total_bytes ≤ 4 * 1024 * 1024))
    × (g.total_samples ≢ 0)
    × ((g.chunk_bytes ≢ 0) × (g.chunk_bytes ≤ 1024))
    × (g.request_nonce ≢ 0)

begin_limits :
    (g : PlaybackBegin)
    → (not (valid_identity g.identity)
        || ((g.total_bytes == 0)
            || (ltb (4 * 1024 * 1024) g.total_bytes
                || ((g.total_samples == 0)
                    || ((g.chunk_bytes == 0)
                        || (ltb 1024 g.chunk_bytes || (g.request_nonce == 0)))))))
      ≡ false
    → BeginLimits g
begin_limits g h = ground arith

module _ (c : Crypto) (m : IsMac c) where
  encode_begin_lem :
      (g : PlaybackBegin) (key : List ℕ)
      → encode_begin c g key ≡ begin_body g ++ tag_of c m (begin_body g) key
  unfolding encode_begin
  encode_begin_lem g key =
      ap (λ p. sign c p key) (begin_packet_lem g)
      ∙ sign-append c m (begin_body g) (replicate 16 0) key refl

  decode_begin-body :
      (g : PlaybackBegin) (key : List ℕ)
      → IsBegin g
      → decode_begin c (begin_body g ++ tag_of c m (begin_body g) key) key ≡ ok g
  unfolding decode_begin begin_body le_bytes
  decode_begin-body g key v = ground (
    arith,
    begin_fields-body g (tag_of c m (begin_body g) key) v,
    valid_identity_of g.identity v.identity_valid,
    verify_fixed-tag_of c m (begin_body g) eipb key 72 refl refl refl,
  )

  -- A begin packet with a valid identity, 1 byte to 4 MB, at least one sample, chunks of 1 to 1024
  -- bytes and a nonce, none of them 0 or too wide, is read back by `decode_begin` from what
  -- `encode_begin` writes, under the same key.
  pub decode_begin-encode_begin :
      (g : PlaybackBegin) (key : List ℕ)
      → IsBegin g
      → decode_begin c (encode_begin c g key) key ≡ ok g
  decode_begin-encode_begin g key v =
      ap (λ p. decode_begin c p key) (encode_begin_lem g key) ∙ decode_begin-body g key v

  decode_begin-parts :
      (p key : List ℕ) (g : PlaybackBegin)
      → decode_begin c p key ≡ ok g
      → (verify_fixed c p 72 eipb key ≡ ok tt)
        × (read 6 2 p ≡ 0 ∷ 0 ∷ [])
        × (read 46 2 p ≡ 0 ∷ 0 ∷ [])
        × (g ≡ begin_fields p)
        × BeginLimits g
  unfolding decode_begin
  decode_begin-parts p key g h =
      let (_, passes, h1) = >>=-eq-ok (verify_fixed c p 72 eipb key) _ h in
      let (guard, e) = reject_if-eq-ok _ malformed (begin_fields p) g h1 in
      let (z1, guard1) = or-eq-false _ _ guard in
      let (z2, guard2) = or-eq-false _ _ guard1 in
      let limits = begin_limits (begin_fields p) guard2 in
      (
        passes,
        bytes_eq_sound (read 6 2 p) (0 ∷ 0 ∷ []) (not-eq-false _ z1),
        bytes_eq_sound (read 46 2 p) (0 ∷ 0 ∷ []) (not-eq-false _ z2),
        sym e,
        subst BeginLimits e limits,
      )

  -- A packet of bytes that `decode_begin` accepts is, byte for byte, what `encode_begin` writes
  -- for the result under that key, and the result is in range: there is one accepted encoding.
  pub encode_begin-decode_begin :
      (p key : List ℕ) (g : PlaybackBegin)
      → IsBytes p
      → decode_begin c p key ≡ ok g
      → (encode_begin c g key ≡ p) × IsBegin g
  encode_begin-decode_begin p key g b h =
      let (passes, zeros, zeros', e, limits) = decode_begin-parts p key g h in
      let (valid, total, samples, chunk, nonce) = limits in
      let (n, magic, version, tagged) = verify_fixed-inv c m p eipb key 72 passes in
      let header : begin_body g ≡ take 56 p =
        rw e (begin_body-fields p b n magic version zeros zeros') in
      let same : g.identity ≡ decode_identity p =
        unfold begin_fields in ap (λ (x : PlaybackBegin). x.identity) e in
      (
        encode_begin_lem g key ∙ ap (λ body. body ++ tag_of c m body key) header ∙ sym tagged,
        record {
          identity_valid =
              rw same (decode_identity-IsIdentity p b (omega arith) (rw (← same) valid));
          total_bytes_set = total.0;
          total_bytes_bounded = total.1;
          total_samples_set = samples;
          total_samples_fits = rw e (unfold begin_fields in get_u64_lt 36 p b (omega arith));
          chunk_bytes_set = chunk.0;
          chunk_bytes_bounded = chunk.1;
          request_nonce_set = nonce;
          request_nonce_fits = rw e (unfold begin_fields in get_u64_lt 48 p b (omega arith));
        },
      )
