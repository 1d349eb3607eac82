-- ===== src/LanVoice/Frames/Laws.antt =====
-- What an accepted voice datagram is.
use codex_keyboard_windows.Base.{
  ℕ, ◌+◌, ◌-◌, ◌*◌, ◌/◌, ◌%◌, ◌^◌, ◌≤◌, ◌<◌, ◌≡◌, ◌↔◌, refl, sym, ◌∙◌, false, Option, none, some,
  List, length, take, drop, read, arith, ok, IsBytes, length-read, from_le, from_le-read_lt,
  tag_difference, tag_difference_iff, bytes_eq, bytes_eq_sound, bytes_eq_refl, length-take,
  length-drop, IsBytes-take, IsBytes-drop, ◌==◌,
}
use codex_keyboard_windows.Crypto.{Crypto, IsMac}
use codex_keyboard_windows.LanVoice.Frames.{
  CaptureSessionIdentity, ParsedFrame, ParsedEnd, decode_capture_session_identity,
  verify_audio_authentication, check_header, prefix_differs, parse_audio_frame, parse_audio_end,
  eiau, eiae, read_le,
}

-- The number that carries an identity: 0xEC, the slot, the connection and the capture, from the top.
abbrev pub session_of : CaptureSessionIdentity → ℕ
session_of d =
    (((0xec * 16 + d.slot) * 2 ^ 20) + d.connection_generation) * 2 ^ 32 + d.capture_generation

pub record IsSession (d : CaptureSessionIdentity) : Type 0 where
  pub slot_low : 1 ≤ d.slot
  pub slot_high : d.slot ≤ 4
  pub connection_set : 1 ≤ d.connection_generation
  pub connection_fits : d.connection_generation < 2 ^ 20
  pub capture_set : 1 ≤ d.capture_generation
  pub capture_fits : d.capture_generation < 2 ^ 32

-- The 64-bit number of a session in range (0xEC in the top byte, then the slot in 4 bits, the
-- connection in 20 and the capture in 32) decodes to that session.
pub decode_capture_session_identity-session_of :
    (d : CaptureSessionIdentity)
    → IsSession d
    → decode_capture_session_identity (session_of d) ≡ ok d
unfolding decode_capture_session_identity
decode_capture_session_identity-session_of d v = ground arith

session_parts :
    (s : ℕ) (d : CaptureSessionIdentity)
    → decode_capture_session_identity s ≡ ok d
    → (s / 2 ^ 56 % 256 ≡ 0xec)
      × (d.slot ≡ s / 2 ^ 52 % 16)
      × (d.connection_generation ≡ s / 2 ^ 32 % 2 ^ 20)
      × (d.capture_generation ≡ s % 2 ^ 32)
      × (1 ≤ d.slot)
      × (d.slot ≤ 4)
      × (1 ≤ d.connection_generation)
      × (1 ≤ d.capture_generation)
unfolding decode_capture_session_identity
session_parts s d h = ground arith

-- A 64-bit number that decodes to a session is the number of that session, and the session is in
-- range: every session has one number.
pub session_of-decode_capture_session_identity :
    (s : ℕ) (d : CaptureSessionIdentity)
    → s < 2 ^ 64
    → decode_capture_session_identity s ≡ ok d
    → IsSession d × (s ≡ session_of d)
session_of-decode_capture_session_identity s d fits h =
    let (top, slot, connection, capture, a, b, e, f) = session_parts s d h in
    (
      record {
        slot_low = a;
        slot_high = b;
        connection_set = e;
        connection_fits = omega (arith, connection);
        capture_set = f;
        capture_fits = omega (arith, capture);
      },
      omega (arith, top, slot, connection, capture),
    )

prefix_of_header :
    (p magic : List ℕ) (size channels samples bytes : ℕ)
    → check_header p size magic channels samples bytes ≡ ok tt
    → prefix_differs p size magic channels ≡ false
unfolding check_header
prefix_of_header p magic size channels samples bytes h = ground arith

prefix_parts :
    (p magic : List ℕ) (size channels : ℕ)
    → prefix_differs p size magic channels ≡ false
    → (length p ≡ size) × (take 4 p ≡ magic)
unfolding prefix_differs
prefix_parts p magic size channels h = ground (arith, bytes_eq_sound (take 4 p) magic)

module _ (c : Crypto) (m : IsMac c) where
  authentic_parts :
      (p : List ℕ) (auth : Option (List ℕ))
      → verify_audio_authentication c p auth ≡ ok tt
      → (key : List ℕ) × (auth ≡ some key)
        × (16 ≤ length p)
        × (tag_difference 0 (take 16 (c.hmac key (take (length p - 16) p))) (drop (length p - 16) p)
            ≡ 0)
  unfolding verify_audio_authentication
  authentic_parts p none h = cc
  authentic_parts p (some key) h = (key, refl, ground arith, ground arith)

  -- The tag at the end of a datagram, over all that stands before it.
  pub record IsTagged (p key : List ℕ) : Type 0 where
    pub long : 16 ≤ length p
    pub tagged : drop (length p - 16) p ≡ take 16 (c.hmac key (take (length p - 16) p))

  difference_lem :
      (p key : List ℕ)
      → IsBytes p
      → 16 ≤ length p
      → (tag_difference 0 (take 16 (c.hmac key (take (length p - 16) p))) (drop (length p - 16) p)
          == 0)
        ≡ bytes_eq (take 16 (c.hmac key (take (length p - 16) p))) (drop (length p - 16) p)
  difference_lem p key b n =
      let body = take (length p - 16) p in
      tag_difference_iff 0 (take 16 (c.hmac key body)) (drop (length p - 16) p) (omega arith)
        (IsBytes-take 16 (c.hmac key body) (m.hmac_bytes key body))
        (IsBytes-drop (length p - 16) p b)
        (omega (
          arith,
          length-take 16 (c.hmac key body),
          m.hmac_length key body,
          length-drop (length p - 16) p,
        ))

  -- With a key, a datagram of bytes is authentic for `verify_audio_authentication`, which folds
  -- the differences of the bytes, exactly if it has at least 16 bytes and the last 16 are the
  -- first 16 of the digest of all before them.
  pub verify_audio_authentication-IsTagged :
      (p key : List ℕ)
      → IsBytes p
      → (verify_audio_authentication c p (some key) ≡ ok tt) ↔ IsTagged p key
  unfolding verify_audio_authentication
  verify_audio_authentication-IsTagged p key b = (
    (λ h.
        let n : 16 ≤ length p = ground (arith, h) in
        record {
          long = n;
          tagged = sym (bytes_eq_sound _ _ (sym (difference_lem p key b n) ∙ ground (arith, h)));
        }),
    λ t. ground (
      arith,
      t.long,
      difference_lem p key b t.long,
      t.tagged,
      bytes_eq_refl (drop (length p - 16) p),
    ),
  )

  read_le-ok : (n o v : ℕ) (p : List ℕ) → read_le n p o ≡ ok v → v ≡ from_le (read o n p)
  unfolding read_le
  read_le-ok n o v p h = ground arith

  -- What the header check and the rest of the parse give.
  frame_parts :
      (p : List ℕ) (auth : Option (List ℕ)) (f : ParsedFrame)
      → parse_audio_frame c p auth ≡ ok f
      → (check_header p 688 eiau 1 320 640 ≡ ok tt)
        × (verify_audio_authentication c p auth ≡ ok tt)
        × (read_le 8 p 8 ≡ ok f.session_id)
        × (decode_capture_session_identity f.session_id ≡ ok f.identity)
        × (read_le 4 p 16 ≡ ok f.sequence)
        × (f.payload ≡ read 32 640 p)
  unfolding parse_audio_frame
  frame_parts p auth f h = ground arith

  end_parts :
      (p : List ℕ) (auth : Option (List ℕ)) (f : ParsedEnd)
      → parse_audio_end c p auth ≡ ok f
      → (check_header p 48 eiae 0 0 0 ≡ ok tt)
        × (verify_audio_authentication c p auth ≡ ok tt)
        × (read_le 8 p 8 ≡ ok f.session_id)
        × (decode_capture_session_identity f.session_id ≡ ok f.identity)
        × (read_le 4 p 16 ≡ ok f.final_sequence)
  unfolding parse_audio_end
  end_parts p auth f h = ground arith

  -- A frame that was parsed: who signed it, and what it holds.
  pub record IsFrame (p : List ℕ) (auth : Option (List ℕ)) (f : ParsedFrame) : Type 0 where
    pub key : List ℕ
    pub key_loaded : auth ≡ some key
    pub authentic : IsTagged p key
    pub size : length p ≡ 688
    pub magic : take 4 p ≡ eiau
    pub session : IsSession f.identity
    pub session_lem : f.session_id ≡ session_of f.identity
    pub sequence_lem : f.sequence ≡ from_le (read 16 4 p)
    pub payload_lem : f.payload ≡ read 32 640 p
    pub payload_size : length f.payload ≡ 640

  -- A datagram of bytes that `parse_audio_frame` accepts has 688 bytes, the magic of a frame and a
  -- correct tag under the loaded key, and the result is what it holds: a session in range and its
  -- number, the sequence number, and the 640 bytes of sound.
  pub parse_audio_frame-IsFrame :
      (p : List ℕ) (auth : Option (List ℕ)) (f : ParsedFrame)
      → IsBytes p
      → parse_audio_frame c p auth ≡ ok f
      → IsFrame p auth f
  parse_audio_frame-IsFrame p auth f b h =
      let (header, verified, session, identity, sequence, payload) = frame_parts p auth f h in
      let (key, loaded, _, _) = authentic_parts p auth verified in
      let (n, magic) = prefix_parts p eiau 688 1 (prefix_of_header p eiau 688 1 320 640 header) in
      let fits : f.session_id < 2 ^ 64 =
        rw (read_le-ok 8 8 f.session_id p session) (from_le-read_lt 8 8 p b (omega arith)) in
      let (valid, e) =
        session_of-decode_capture_session_identity f.session_id f.identity fits identity in
      record {
        key = key;
        key_loaded = loaded;
        authentic = (verify_audio_authentication-IsTagged p key b).0 (rw loaded at verified);
        size = n;
        magic = magic;
        session = valid;
        session_lem = e;
        sequence_lem = read_le-ok 4 16 f.sequence p sequence;
        payload_lem = payload;
        payload_size = rw payload (length-read 32 640 p (omega arith));
      }

  -- A datagram of bytes that `parse_audio_end` accepts has the magic of an end and a correct tag
  -- under the loaded key, and names a session in range by its number.
  pub parse_audio_end-IsTagged :
      (p : List ℕ) (auth : Option (List ℕ)) (f : ParsedEnd)
      → IsBytes p
      → parse_audio_end c p auth ≡ ok f
      → (key : List ℕ) × (auth ≡ some key)
        × IsTagged p key
        × (take 4 p ≡ eiae)
        × IsSession f.identity
        × (f.session_id ≡ session_of f.identity)
  parse_audio_end-IsTagged p auth f b h =
      let (header, verified, session, identity, _) = end_parts p auth f h in
      let (key, loaded, _, _) = authentic_parts p auth verified in
      let (n, magic) = prefix_parts p eiae 48 0 (prefix_of_header p eiae 48 0 0 0 header) in
      let fits : f.session_id < 2 ^ 64 =
        rw (read_le-ok 8 8 f.session_id p session) (from_le-read_lt 8 8 p b (omega arith)) in
      let (valid, e) =
        session_of-decode_capture_session_identity f.session_id f.identity fits identity in
      (
        key,
        loaded,
        (verify_audio_authentication-IsTagged p key b).0 (rw loaded at verified),
        magic,
        valid,
        e,
      )
