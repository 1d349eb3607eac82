-- ===== src/LanVoice/Playback/Beacon.antt =====
-- What `handle_heartbeat` of app/host/src/lan_voice.rs answers, and to whom.
use Prim.Native.Nat.{bit_and}
use codex_keyboard_windows.Base.{
  ℕ, ◌+◌, ◌<◌, ◌≡◌, ◌⊎◌, ◌∙◌, refl, sym, true, false, none, some, Option, List, [], ◌∷◌, ◌++◌,
  length, length-take, length-read, take, read, get_or, arith, get_u16, get_u32, get_u32_lt,
  IsBytes, IsBytes-take, IsBytes-read, ◌==◌, bytes_eq, bytes_eq_refl, bytes_eq_sound,
  tag_difference_iff, ok, Bool-cases, Option-cases, inl, inr,
}
use codex_keyboard_windows.Crypto.{Crypto, IsMac}
use codex_keyboard_windows.LanPlayback.Mailbox.{decode_mailbox_status}
use codex_keyboard_windows.LanPlayback.Mailbox.Laws.{
  IsMailbox, decode_mailbox_status-encode_mailbox_status,
}
use codex_keyboard_windows.LanVoice.Playback.{World, ActiveLanPlayback, send_to}
use codex_keyboard_windows.LanVoice.Playback.Heartbeat.{
  HeartbeatResponse, eihb, eisd, heartbeat_auth_context, heartbeat_malformed, heartbeat_difference,
  accepts_heartbeat, handle_heartbeat, response_of, invalid, send_failed, sent,
}

-- A heartbeat of version 1, of a device that shows the mailbox status: 80 bytes, of which the last
-- 16 are the first half of the digest of the context and the 64 bytes before.
pub record IsHeartbeat (c : Crypto) (packet key : List ℕ) : Type 0 where
  pub size : length packet ≡ 80
  pub magic : take 4 packet ≡ eihb
  pub version : get_or packet 4 0 ≡ 1
  pub flags : bit_and (get_or packet 5 0) 0xfc ≡ 0
  pub reserved : read 6 2 packet ≡ 0 ∷ 0 ∷ []
  pub descriptor : read 20 4 packet ≡ eisd
  pub descriptor_version : get_or packet 24 0 ≡ 1
  pub descriptor_size : get_or packet 25 0 ≡ 60
  pub shows_mailbox : ¬ (bit_and (get_u16 packet 26) 0x0002 ≡ 0)
  pub tagged : read 64 16 packet ≡ take 16 (c.hmac key (heartbeat_auth_context ++ take 64 packet))

-- What one `send_to` of a response did, and the result that names it.
pub data IsAnswer (net : ℕ → Option ℕ) (w : World) (source : ℕ) (response : List ℕ)
    (outcome : World × HeartbeatResponse) : Type 0 where
  whole :
      net w.calls ≡ some (length response)
      → outcome
        ≡ (record w { calls = w.calls + 1; sent = w.sent ++ ((source, response) ∷ []) }, sent)
      → IsAnswer net w source response outcome
  partial :
      (size : ℕ)
      → net w.calls ≡ some size
      → ¬ (size ≡ length response)
      → outcome ≡ (
        record w { calls = w.calls + 1; sent = w.sent ++ ((source, response) ∷ []) },
        send_failed,
      )
      → IsAnswer net w source response outcome
  unsent :
      net w.calls ≡ none
      → outcome ≡ (record w { calls = w.calls + 1 }, send_failed)
      → IsAnswer net w source response outcome

send_to-IsAnswer :
    (net : ℕ → Option ℕ) (w : World) (source : ℕ) (response : List ℕ)
    → IsAnswer net w source response (
      (send_to net w source response).0,
      response_of (length response) (send_to net w source response).1,
    )
unfolding send_to
send_to-IsAnswer net w source response = elim (Option-cases (net w.calls)) [
  | inl down ↦ unsent down (rw (send_to, down) refl)
  | inr (size, up) ↦ elim (Bool-cases (size == length response)) [
    | inl all ↦
        let same : size ≡ length response = ground (arith, all) in
        whole (up ∙ (rw same refl)) (rw (send_to, up, all) refl)
    | inr short ↦
        partial size up (λ same. absurd (ground (arith, short, same)))
          (rw (send_to, up, short) refl)
  ]
]

differs : (n : ℕ) → ¬ (n ≡ 0) → (n == 0) ≡ false
differs n h = elim (Bool-cases (n == 0)) [
  | inl same ↦ absurd (h (ground (arith, same)))
  | inr other ↦ other
]

module _ (c : Crypto) (m : IsMac c) where
  -- The folded differences are 0 exactly for the right tag.
  heartbeat_difference_lem :
      (packet key : List ℕ)
      → IsBytes packet
      → length packet ≡ 80
      → (heartbeat_difference c packet key == 0)
        ≡ bytes_eq
            (take 16 (c.hmac key (heartbeat_auth_context ++ take 64 packet)))
            (read 64 16 packet)
  unfolding heartbeat_difference
  heartbeat_difference_lem packet key b n =
      let digest = c.hmac key (heartbeat_auth_context ++ take 64 packet) in
      tag_difference_iff 0 (take 16 digest) (read 64 16 packet) (omega arith)
        (IsBytes-take 16 digest (m.hmac_bytes key (heartbeat_auth_context ++ take 64 packet)))
        (IsBytes-read 64 16 packet b)
        (omega (
          arith,
          length-take 16 digest,
          m.hmac_length key (heartbeat_auth_context ++ take 64 packet),
          length-read 64 16 packet,
          n,
        ))

  accepts_heartbeat_sound :
      (packet key : List ℕ)
      → IsBytes packet
      → accepts_heartbeat c packet key ≡ true
      → IsHeartbeat c packet key
  unfolding accepts_heartbeat heartbeat_malformed
  accepts_heartbeat_sound packet key b h =
      let n : length packet ≡ 80 = ground (arith, h) in
      record {
        size = n;
        magic = bytes_eq_sound _ _ (ground (arith, h));
        version = ground (arith, h);
        flags = ground (arith, h);
        reserved = bytes_eq_sound _ _ (ground (arith, h));
        descriptor = bytes_eq_sound _ _ (ground (arith, h));
        descriptor_version = ground (arith, h);
        descriptor_size = ground (arith, h);
        shows_mailbox = λ e. absurd (ground (arith, h, e));
        tagged = sym (
            bytes_eq_sound _ _ (sym (heartbeat_difference_lem packet key b n) ∙ ground (arith, h)));
      }

  accepts_heartbeat_complete :
      (packet key : List ℕ)
      → IsBytes packet
      → IsHeartbeat c packet key
      → accepts_heartbeat c packet key ≡ true
  unfolding accepts_heartbeat heartbeat_malformed
  accepts_heartbeat_complete packet key b h =
      let tag : bytes_eq (take 16 (c.hmac key (heartbeat_auth_context ++ take 64 packet)))
            (read 64 16 packet)
          ≡ true =
        rw h.tagged
          (bytes_eq_refl (take 16 (c.hmac key (heartbeat_auth_context ++ take 64 packet)))) in
      let zero_difference : (heartbeat_difference c packet key == 0) ≡ true =
        heartbeat_difference_lem packet key b h.size ∙ tag in
      let shown = differs (bit_and (get_u16 packet 26) 0x0002) h.shows_mailbox in
      rw
        (
          accepts_heartbeat, heartbeat_malformed, h.size, h.magic, h.version, h.flags, h.reserved,
          h.descriptor, h.descriptor_version, h.descriptor_size, shown, zero_difference,
        )
        refl

module _ (c : Crypto) (m : IsMac c) (net : ℕ → Option ℕ) where
  -- With a mailbox status that is in order: a datagram that is no heartbeat of 80 bytes with the
  -- magics, versions, flags and zeros of the layout and the first half of the digest as its tag is
  -- refused, sends nothing and changes nothing; for a heartbeat the socket is called once, with a
  -- response to its source that decodes to the current status and the sequence number of the
  -- heartbeat, and the result is that it was sent exactly if the socket took all its bytes, and
  -- that sending failed if it took another number of bytes or gave an error.
  pub handle_heartbeat-IsAnswer :
      (s : ActiveLanPlayback) (packet : List ℕ) (source : ℕ) (key : List ℕ) (w : World)
      → IsBytes packet
      → s.mailbox_status.unread_slots < 256
      → length s.mailbox_status.coverage_by_slot ≡ 4
      → IsMailbox s.mailbox_status
      → ((¬ IsHeartbeat c packet key)
          × (handle_heartbeat c net s packet source key w ≡ (w, invalid)))
        ⊎ (IsHeartbeat c packet key
            × ((response : List ℕ) × (decode_mailbox_status c response key
                  ≡ ok (s.mailbox_status, get_u32 packet 16))
                × IsAnswer net w source response (handle_heartbeat c net s packet source key w)))
  unfolding handle_heartbeat
  handle_heartbeat-IsAnswer s packet source key w b u n v =
      elim (Bool-cases (accepts_heartbeat c packet key)) [
        | inr refused ↦ inl (
          (λ h.
              let accepted = accepts_heartbeat_complete c m packet key b h in
              absurd (ground (arith, accepted, refused))),
          rw (refused, handle_heartbeat) refl,
        )
        | inl accepted ↦
            let h = accepts_heartbeat_sound c m packet key b accepted in
            let (response, encoded, decoded) =
              decode_mailbox_status-encode_mailbox_status c m s.mailbox_status (get_u32 packet 16)
                key u n v (get_u32_lt 16 packet b (omega (arith, h.size))) in
            let done : handle_heartbeat c net s packet source key w ≡ (
              (send_to net w source response).0,
              response_of (length response) (send_to net w source response).1,
            ) =
              rw (accepted, handle_heartbeat, encoded) refl in
            inr (h, (response, decoded, rw done (send_to-IsAnswer net w source response)))
      ]
