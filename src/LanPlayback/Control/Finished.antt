-- ===== src/LanPlayback/Control/Finished.antt =====
-- `encode_finished` and `decode_finished` are inverse to one another.
use codex_keyboard_windows.Base.{
  ℕ, ◌^◌, ◌<◌, ◌≡◌, refl, sym, ap, ◌∙◌, ◌≢◌, List, [], ◌∷◌, ◌++◌, length, take, read, replicate,
  get_or, arith, le_bytes, get_u64, from_le-le_bytes, fields-read, read_one, IsBytes,
  bytes_eq_sound, le_bytes-get_u32, le_bytes-get_u64, get_u64_lt, ok, true,
}
use codex_keyboard_windows.Crypto.{Crypto, IsMac}
use codex_keyboard_windows.LanPlayback.{PlaybackFinished, valid_identity, decode_identity}
use codex_keyboard_windows.LanPlayback.Auth.{sign, verify_fixed}
use codex_keyboard_windows.LanPlayback.Auth.Laws.{
  tag_of, sign-append, verify_fixed-tag_of, verify_fixed-inv,
}
use codex_keyboard_windows.LanPlayback.Control.{
  eipf, finished_packet, finished_fields, encode_finished, decode_finished,
}
use codex_keyboard_windows.LanPlayback.Control.Identity.{
  IsIdentity, valid_identity_of, decode_identity_of, decode_identity-IsIdentity,
}

pub record IsFinished (f : PlaybackFinished) : Type 0 where
  pub identity_valid : IsIdentity f.identity
  pub played_samples_set : f.played_samples ≢ 0
  pub played_samples_fits : f.played_samples < 256 ^ 8

finished_body : PlaybackFinished → List ℕ
finished_body f =
    eipf
    ++ ((1 ∷ [])
        ++ ((f.identity.slot ∷ [])
            ++ ((0 ∷ 0 ∷ [])
                ++ (le_bytes 4 f.identity.request_generation
                    ++ (le_bytes 4 f.identity.connection_generation
                        ++ (le_bytes 8 f.identity.summary_generation
                            ++ (le_bytes 8 f.identity.lease
                                ++ (le_bytes 8 f.played_samples ++ []))))))))

finished_packet_lem : (f : PlaybackFinished) → finished_packet f ≡ finished_body f ++ replicate 16 0
unfolding finished_packet finished_body le_bytes
finished_packet_lem f = refl

finished_fields-body :
    (f : PlaybackFinished) (rest : List ℕ)
    → IsFinished f
    → finished_fields (finished_body f ++ rest) ≡ f
unfolding finished_fields finished_body le_bytes get_u64
finished_fields-body f rest v = λ i. record {
  identity =
      decode_identity_of (finished_body f ++ rest) f.identity v.identity_valid refl refl refl refl
        refl i;
  played_samples = from_le-le_bytes 8 f.played_samples v.played_samples_fits i;
}

finished_body-fields :
    (p : List ℕ)
    → IsBytes p
    → length p ≡ 56
    → take 4 p ≡ eipf
    → get_or p 4 0 ≡ 1
    → read 6 2 p ≡ 0 ∷ 0 ∷ []
    → finished_body (finished_fields p) ≡ take 40 p
unfolding finished_body finished_fields decode_identity
finished_body-fields p b n magic version zeros = sym (
    sym (fields-read 0 (4 ∷ 1 ∷ 1 ∷ 2 ∷ 4 ∷ 4 ∷ 8 ∷ 8 ∷ 8 ∷ []) p)
    ∙ simp (
      magic,
      read_one 4 p 0 (omega arith),
      version,
      read_one 5 p 0 (omega arith),
      zeros,
      ← le_bytes-get_u32 8 p b (omega arith),
      ← le_bytes-get_u32 12 p b (omega arith),
      ← le_bytes-get_u64 16 p b (omega arith),
      ← le_bytes-get_u64 24 p b (omega arith),
      ← le_bytes-get_u64 32 p b (omega arith),
    ))

module _ (c : Crypto) (m : IsMac c) where
  encode_finished_lem :
      (f : PlaybackFinished) (key : List ℕ)
      → encode_finished c f key ≡ finished_body f ++ tag_of c m (finished_body f) key
  unfolding encode_finished
  encode_finished_lem f key =
      ap (λ p. sign c p key) (finished_packet_lem f)
      ∙ sign-append c m (finished_body f) (replicate 16 0) key refl

  decode_finished-body :
      (f : PlaybackFinished) (key : List ℕ)
      → IsFinished f
      → decode_finished c (finished_body f ++ tag_of c m (finished_body f) key) key ≡ ok f
  unfolding decode_finished finished_body le_bytes
  decode_finished-body f key v = ground (
    arith,
    finished_fields-body f (tag_of c m (finished_body f) key) v,
    valid_identity_of f.identity v.identity_valid,
    verify_fixed-tag_of c m (finished_body f) eipf key 56 refl refl refl,
  )

  -- A finished packet with a valid identity and a 64-bit number of samples other than 0 is read
  -- back by `decode_finished` from what `encode_finished` writes, under the same key.
  pub decode_finished-encode_finished :
      (f : PlaybackFinished) (key : List ℕ)
      → IsFinished f
      → decode_finished c (encode_finished c f key) key ≡ ok f
  decode_finished-encode_finished f key v =
      ap (λ p. decode_finished c p key) (encode_finished_lem f key) ∙ decode_finished-body f key v

  decode_finished-parts :
      (p key : List ℕ) (f : PlaybackFinished)
      → decode_finished c p key ≡ ok f
      → (verify_fixed c p 56 eipf key ≡ ok tt)
        × (read 6 2 p ≡ 0 ∷ 0 ∷ [])
        × (f ≡ finished_fields p)
        × (valid_identity f.identity ≡ true)
        × (f.played_samples ≢ 0)
  unfolding decode_finished
  decode_finished-parts p key f h = ground (arith, bytes_eq_sound (read 6 2 p) (0 ∷ 0 ∷ []))

  -- A packet of bytes that `decode_finished` accepts is, byte for byte, what `encode_finished`
  -- writes for the result under that key, and the result is in range: there is one accepted
  -- encoding.
  pub encode_finished-decode_finished :
      (p key : List ℕ) (f : PlaybackFinished)
      → IsBytes p
      → decode_finished c p key ≡ ok f
      → (encode_finished c f key ≡ p) × IsFinished f
  encode_finished-decode_finished p key f b h =
      let (passes, zeros, e, valid, played) = decode_finished-parts p key f h in
      let (n, magic, version, tagged) = verify_fixed-inv c m p eipf key 56 passes in
      let header : finished_body f ≡ take 40 p =
        rw e (finished_body-fields p b n magic version zeros) in
      let same : f.identity ≡ decode_identity p =
        unfold finished_fields in ap (λ (x : PlaybackFinished). x.identity) e in
      (
        encode_finished_lem f key ∙ ap (λ body. body ++ tag_of c m body key) header ∙ sym tagged,
        record {
          identity_valid =
              rw same (decode_identity-IsIdentity p b (omega arith) (rw (← same) valid));
          played_samples_set = played;
          played_samples_fits = rw e (unfold finished_fields in get_u64_lt 32 p b (omega arith));
        },
      )
