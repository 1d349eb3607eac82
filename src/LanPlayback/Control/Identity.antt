-- ===== src/LanPlayback/Control/Identity.antt =====
-- The transfer identity inside a packet: the slot at byte 5 and 24 bytes from byte 8.
use codex_keyboard_windows.Base.{
  ℕ, ◌^◌, ◌≤◌, ◌<◌, ◌≡◌, ap, ◌∙◌, ◌≢◌, List, length, read, get_or, arith, le_bytes, from_le,
  get_u32, get_u64, from_le-le_bytes, IsBytes, get_u32_lt, get_u64_lt, true,
}
use codex_keyboard_windows.LanPlayback.{PlaybackIdentity, valid_identity, decode_identity}

-- What a transfer identity must satisfy to be sent, and does satisfy when it was received.
pub record IsIdentity (d : PlaybackIdentity) : Type 0 where
  pub slot_low : 1 ≤ d.slot
  pub slot_high : d.slot ≤ 4
  pub request_generation_set : d.request_generation ≢ 0
  pub request_generation_fits : d.request_generation < 256 ^ 4
  pub connection_generation_set : d.connection_generation ≢ 0
  pub connection_generation_fits : d.connection_generation < 256 ^ 4
  pub summary_generation_set : d.summary_generation ≢ 0
  pub summary_generation_fits : d.summary_generation < 256 ^ 8
  pub lease_set : d.lease ≢ 0
  pub lease_fits : d.lease < 256 ^ 8

pub valid_identity_of : (d : PlaybackIdentity) → IsIdentity d → valid_identity d ≡ true
unfolding valid_identity
valid_identity_of d v = ground arith

-- A packet that has the bytes of an identity is read as that identity.
pub decode_identity_of :
    (p : List ℕ) (d : PlaybackIdentity)
    → IsIdentity d
    → get_or p 5 0 ≡ d.slot
    → read 8 4 p ≡ le_bytes 4 d.request_generation
    → read 12 4 p ≡ le_bytes 4 d.connection_generation
    → read 16 8 p ≡ le_bytes 8 d.summary_generation
    → read 24 8 p ≡ le_bytes 8 d.lease
    → decode_identity p ≡ d
unfolding decode_identity get_u32 get_u64
decode_identity_of p d v slot request connection summary lease = λ i. record {
  slot = slot i;
  request_generation =
      (ap from_le request ∙ from_le-le_bytes 4 d.request_generation v.request_generation_fits) i;
  connection_generation =
      (ap from_le connection
          ∙ from_le-le_bytes 4 d.connection_generation v.connection_generation_fits)
        i;
  summary_generation =
      (ap from_le summary ∙ from_le-le_bytes 8 d.summary_generation v.summary_generation_fits) i;
  lease = (ap from_le lease ∙ from_le-le_bytes 8 d.lease v.lease_fits) i;
}

nonzero_parts :
    (d : PlaybackIdentity)
    → valid_identity d ≡ true
    → (1 ≤ d.slot)
      × (d.slot ≤ 4)
      × (d.request_generation ≢ 0)
      × (d.connection_generation ≢ 0)
      × (d.summary_generation ≢ 0)
      × (d.lease ≢ 0)
unfolding valid_identity
nonzero_parts d h = ground arith

-- An identity that was read from bytes and passes the check has all that is asked of it.
pub decode_identity-IsIdentity :
    (p : List ℕ)
    → IsBytes p
    → 32 ≤ length p
    → valid_identity (decode_identity p) ≡ true
    → IsIdentity (decode_identity p)
decode_identity-IsIdentity p b n h =
    let (low, high, request, connection, summary, lease) = nonzero_parts (decode_identity p) h in
    record {
      slot_low = low;
      slot_high = high;
      request_generation_set = request;
      request_generation_fits = unfold decode_identity in get_u32_lt 8 p b (omega arith);
      connection_generation_set = connection;
      connection_generation_fits = unfold decode_identity in get_u32_lt 12 p b (omega arith);
      summary_generation_set = summary;
      summary_generation_fits = unfold decode_identity in get_u64_lt 16 p b (omega arith);
      lease_set = lease;
      lease_fits = unfold decode_identity in get_u64_lt 24 p b (omega arith);
    }
