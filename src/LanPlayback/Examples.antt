-- ===== src/LanPlayback/Examples.antt =====
-- The packets of one transfer, with the checksum in the place of the digest.
use codex_keyboard_windows.Base.{
  ℕ, ◌≡◌, ◌↔◌, refl, Bool, true, ◌&&◌, List, [], ◌∷◌, length, replicate, arith, ltb, le_bytes,
  IsBytes, ok, ◌+◌,
}
use codex_keyboard_windows.Crypto.Toy.{toy, toy-IsMac, toy-IsAead}
use codex_keyboard_windows.LanPlayback.{
  PlaybackIdentity, PlaybackRequest, PlaybackBegin, PlaybackAck, PlaybackFinished, MailboxStatus,
}
use codex_keyboard_windows.LanPlayback.Auth.{sign}
use codex_keyboard_windows.LanPlayback.Control.Wire.{
  begins, confirms, beginning, confirming, encode, decode, IsEncoding, decode-encode, encode-decode,
}
use codex_keyboard_windows.LanPlayback.Control.{finished_ack_packet, encode_finished_ack}
use codex_keyboard_windows.LanPlayback.Control.Identity.{IsIdentity}
use codex_keyboard_windows.LanPlayback.Control.Request.{IsRequest}
use codex_keyboard_windows.LanPlayback.Control.Begin.{IsBegin}
use codex_keyboard_windows.LanPlayback.Control.Ack.{IsAck}
use codex_keyboard_windows.LanPlayback.Control.Finished.{IsFinished}
use codex_keyboard_windows.LanPlayback.Mailbox.{
  valid_mailbox_status, all_covered, encode_mailbox_status, decode_mailbox_status,
}
use codex_keyboard_windows.LanPlayback.Mailbox.Laws.{
  IsMailbox, valid_mailbox_status_iff, decode_mailbox_status-encode_mailbox_status,
}
use codex_keyboard_windows.LanPlayback.Payload.{data_context, data_nonce, encode_data, decode_data}
use codex_keyboard_windows.LanPlayback.Payload.Keys.{chunk_nonce_iff}
use codex_keyboard_windows.LanPlayback.Payload.RoundTrip.{decode_data-encode_data}

abbrev pub key : List ℕ
key = replicate 32 17

abbrev pub identity : PlaybackIdentity
identity = record {
  slot = 2;
  request_generation = 5;
  connection_generation = 9;
  summary_generation = 3;
  lease = 11;
}

abbrev pub sample_request : PlaybackRequest
sample_request = record { slot = 2; request_generation = 5; connection_generation = 9; nonce = 77 }

abbrev pub sample_begin : PlaybackBegin
sample_begin = record {
  identity = identity;
  total_bytes = 3;
  total_samples = 4800;
  chunk_bytes = 1024;
  request_nonce = 77;
}

abbrev pub sample_ack : PlaybackAck
sample_ack = record { identity = identity; status = 0; next_offset = 3 }

abbrev pub sample_finished : PlaybackFinished
sample_finished = record { identity = identity; played_samples = 4800 }

abbrev pub sample_mailbox : MailboxStatus
sample_mailbox = record {
  unread_slots = 5;
  running_tasks = 1;
  coverage_by_slot = 2 ∷ 0 ∷ 1 ∷ 0 ∷ [];
}

-- Slot 2 is marked unread and covers nothing.
abbrev uncovered_mailbox : MailboxStatus
uncovered_mailbox = record {
  unread_slots = 2;
  running_tasks = 0;
  coverage_by_slot = 0 ∷ 0 ∷ 0 ∷ 0 ∷ [];
}

abbrev pub all_bytes : List ℕ → Bool
all_bytes [] = true
all_bytes (b ∷ bs) = ltb b 256 && all_bytes bs

pub all_bytes_sound : (bs : List ℕ) → all_bytes bs ≡ true → IsBytes bs
all_bytes_sound [] h = tt
all_bytes_sound (b ∷ bs) h = (ground (arith, h), all_bytes_sound bs (ground (arith, h)))

pub identity-IsIdentity : IsIdentity identity
identity-IsIdentity = record {
  slot_low = omega arith;
  slot_high = omega arith;
  request_generation_set = omega arith;
  request_generation_fits = omega arith;
  connection_generation_set = omega arith;
  connection_generation_fits = omega arith;
  summary_generation_set = omega arith;
  summary_generation_fits = omega arith;
  lease_set = omega arith;
  lease_fits = omega arith;
}

sample_request-IsRequest : IsRequest sample_request
sample_request-IsRequest = record {
  slot_low = omega arith;
  slot_high = omega arith;
  request_generation_set = omega arith;
  request_generation_fits = omega arith;
  connection_generation_set = omega arith;
  connection_generation_fits = omega arith;
  nonce_set = omega arith;
  nonce_fits = omega arith;
}

sample_begin-IsBegin : IsBegin sample_begin
sample_begin-IsBegin = record {
  identity_valid = identity-IsIdentity;
  total_bytes_set = omega arith;
  total_bytes_bounded = omega arith;
  total_samples_set = omega arith;
  total_samples_fits = omega arith;
  chunk_bytes_set = omega arith;
  chunk_bytes_bounded = omega arith;
  request_nonce_set = omega arith;
  request_nonce_fits = omega arith;
}

sample_ack-IsAck : IsAck sample_ack
sample_ack-IsAck = record {
  identity_valid = identity-IsIdentity;
  status_bounded = omega arith;
  next_offset_fits = omega arith;
}

sample_finished-IsFinished : IsFinished sample_finished
sample_finished-IsFinished = record {
  identity_valid = identity-IsIdentity;
  played_samples_set = omega arith;
  played_samples_fits = omega arith;
}

decode-encode_example :
    decode toy beginning (encode toy (begins sample_begin) key) key ≡ ok (begins sample_begin)
decode-encode_example = decode-encode toy toy-IsMac (begins sample_begin) key sample_begin-IsBegin

IsEncoding-canonical_example :
    IsEncoding toy confirming (encode_finished_ack toy identity 1 key) key (confirms (identity, 1))
unfolding encode_finished_ack sign finished_ack_packet le_bytes
IsEncoding-canonical_example =
    encode-decode toy toy-IsMac confirming (encode_finished_ack toy identity 1 key) key
      (confirms (identity, 1)) (all_bytes_sound (encode_finished_ack toy identity 1 key) refl)
      (decode-encode toy toy-IsMac (confirms (identity, 1)) key (identity-IsIdentity, omega arith))

pub sample_mailbox-IsMailbox : IsMailbox sample_mailbox
unfolding valid_mailbox_status all_covered
sample_mailbox-IsMailbox = (valid_mailbox_status_iff sample_mailbox (omega arith) refl).0 refl

IsMailbox-validity_example : (valid_mailbox_status sample_mailbox ≡ true) ↔ IsMailbox sample_mailbox
IsMailbox-validity_example = valid_mailbox_status_iff sample_mailbox (omega arith) refl

mailbox_round_trip_example :
    (p : List ℕ) × (encode_mailbox_status toy sample_mailbox 6 key ≡ ok p)
    × (decode_mailbox_status toy p key ≡ ok (sample_mailbox, 6))
mailbox_round_trip_example =
    decode_mailbox_status-encode_mailbox_status toy toy-IsMac sample_mailbox 6 key (omega arith)
      refl sample_mailbox-IsMailbox (omega arith)

uncovered_mailbox-refuted : ¬ IsMailbox uncovered_mailbox
uncovered_mailbox-refuted v = ground (arith, v.unread_covered)

abbrev sample_nonce : ℕ
sample_nonce = 77

abbrev sample_offset : ℕ
sample_offset = 1024

-- The first two chunks of one transfer.
chunk_nonce_example :
    ((data_context identity sample_nonce ≡ data_context identity sample_nonce)
      × (data_nonce 0 ≡ data_nonce sample_offset))
    ↔ ((identity ≡ identity) × (sample_nonce ≡ sample_nonce) × (0 ≡ sample_offset))
chunk_nonce_example =
    chunk_nonce_iff identity identity sample_nonce sample_nonce 0 sample_offset identity-IsIdentity
      identity-IsIdentity (omega arith) (omega arith) (omega arith) (omega arith)

data_round_trip_example :
    (p : List ℕ) × (encode_data toy identity 77 1024 (1 ∷ 2 ∷ 3 ∷ []) key ≡ ok p)
    × (length p ≡ 40 + 3 + 16)
    × (decode_data toy p 77 key ≡ ok (identity, 1024, 1 ∷ 2 ∷ 3 ∷ []))
data_round_trip_example =
    decode_data-encode_data toy toy-IsMac toy-IsAead identity 77 1024 (1 ∷ 2 ∷ 3 ∷ []) key
      (1 ∷ 2 ∷ 3 ∷ []) (replicate 16 0) identity-IsIdentity (omega arith) (omega arith)
      (omega arith) (omega arith) refl
