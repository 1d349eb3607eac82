-- ===== src/LanPlayback/Auth/Laws.antt =====
-- A signed packet verifies, and a packet that verifies carries the tag of its body.
use codex_keyboard_windows.Base.{
  ℕ, ◌+◌, ◌-◌, ◌≤◌, ◌≡◌, refl, sym, ap, ◌∙◌, true, List, ◌++◌, length, take, drop, get_or, arith,
  bytes_eq_refl, bytes_eq_sound, length-append, length-take, length-drop, take-append_length,
  drop-append_length, take-append-drop, ok,
}
use codex_keyboard_windows.Crypto.{Crypto, IsMac}
use codex_keyboard_windows.LanPlayback.Auth.{sign, verify, verify_fixed}

module _ (c : Crypto) (m : IsMac c) where
  -- The tag of a body.
  abbrev pub tag_of : List ℕ → List ℕ → List ℕ
  tag_of body key = take 16 (c.hmac key body)

  pub length-tag_of : (body key : List ℕ) → length (tag_of body key) ≡ 16
  length-tag_of body key = omega (arith, length-take 16 (c.hmac key body), m.hmac_length key body)

  -- `sign` puts the tag in the place of the last 16 bytes.
  pub sign-append :
      (body rest key : List ℕ)
      → length rest ≡ 16
      → sign c (body ++ rest) key ≡ body ++ tag_of body key
  unfolding sign
  sign-append body rest key h =
      let cut : length (body ++ rest) - 16 ≡ length body = omega (arith, length-append body rest) in
      rw (cut, take-append_length (length body) body rest refl)

  pub verify-tag_of : (body key : List ℕ) → verify c (body ++ tag_of body key) key ≡ ok tt
  unfolding verify
  verify-tag_of body key =
      let cut : length (body ++ tag_of body key) - 16 ≡ length body =
        omega (arith, length-append body (tag_of body key), length-tag_of body key) in
      let passes : c.verify_truncated_left key body (tag_of body key) ≡ true =
        (m.verify_iff key body (tag_of body key) (length-tag_of body key)).1 refl in
      ground (
        arith,
        cut,
        passes,
        length-append body (tag_of body key),
        length-tag_of body key,
        take-append_length (length body) body (tag_of body key) refl,
        drop-append_length (length body) body (tag_of body key) refl,
      )

  verify_parts :
      (packet key : List ℕ)
      → verify c packet key ≡ ok tt
      → (16 ≤ length packet)
        × (c.verify_truncated_left key
              (take (length packet - 16) packet)
              (drop (length packet - 16) packet)
            ≡ true)
  unfolding verify
  verify_parts packet key h = ground arith

  -- What verifies is a body followed by its tag.
  pub verify-inv :
      (packet key : List ℕ)
      → verify c packet key ≡ ok tt
      → packet ≡ take (length packet - 16) packet ++ tag_of (take (length packet - 16) packet) key
  verify-inv packet key h =
      let n = length packet - 16 in
      let (long, passes) = verify_parts packet key h in
      let same : drop n packet ≡ tag_of (take n packet) key =
        (m.verify_iff key (take n packet) (drop n packet) (omega (arith, length-drop n packet))).0
          passes in
      sym (take-append-drop n packet) ∙ ap (◌++◌ (take n packet)) same

  pub verify_fixed-tag_of :
      (body magic key : List ℕ) (size : ℕ)
      → length body + 16 ≡ size
      → take 4 (body ++ tag_of body key) ≡ magic
      → get_or (body ++ tag_of body key) 4 0 ≡ 1
      → verify_fixed c (body ++ tag_of body key) size magic key ≡ ok tt
  unfolding verify_fixed
  verify_fixed-tag_of body magic key size hs hm hv =
      let total : length (body ++ tag_of body key) ≡ size =
        omega (arith, length-append body (tag_of body key), length-tag_of body key) in
      ground (arith, total, hm, hv, bytes_eq_refl magic, verify-tag_of body key)

  -- What passes has the length, the magic and the version asked for, and the tag of its body.
  pub verify_fixed-inv :
      (packet magic key : List ℕ) (size : ℕ)
      → verify_fixed c packet size magic key ≡ ok tt
      → (length packet ≡ size)
        × (take 4 packet ≡ magic)
        × (get_or packet 4 0 ≡ 1)
        × (packet ≡ take (size - 16) packet ++ tag_of (take (size - 16) packet) key)
  unfolding verify_fixed
  verify_fixed-inv packet magic key size h =
      ground (arith, bytes_eq_sound (take 4 packet) magic, verify-inv packet key)
