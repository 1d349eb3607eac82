-- ===== src/LanPlayback.antt =====
-- app/host/src/lan_playback.rs: the records of the playback protocol, their sizes, and the tests
-- that a decoder makes on a transfer identity. The children hold the packets and their laws.
pub mod Auth
pub mod Control
pub mod Mailbox
pub mod Payload
pub mod Examples
use codex_keyboard_windows.Base.{
  ℕ, ◌*◌, Bool, ◌&&◌, List, leb, ◌!=◌, put_u32, put_u64, get_u32, get_u64, get_or, splice,
}

abbrev pub playback_version : ℕ
playback_version = 1

abbrev pub playback_tag_bytes : ℕ
playback_tag_bytes = 16

abbrev pub playback_chunk_bytes : ℕ
playback_chunk_bytes = 1024

abbrev pub playback_max_eiad_bytes : ℕ
playback_max_eiad_bytes = 4 * 1024 * 1024

abbrev pub request_bytes : ℕ
request_bytes = 40

abbrev pub begin_bytes : ℕ
begin_bytes = 72

abbrev pub ack_bytes : ℕ
ack_bytes = 52

abbrev pub finished_bytes : ℕ
finished_bytes = 56

abbrev pub finished_ack_bytes : ℕ
finished_ack_bytes = 48

abbrev pub data_header_bytes : ℕ
data_header_bytes = 40

abbrev pub mailbox_status_bytes : ℕ
mailbox_status_bytes = 32

abbrev pub mailbox_status_version : ℕ
mailbox_status_version = 3

pub data PlaybackWireError : Type 0 where
  malformed authentication : PlaybackWireError

pub record PlaybackRequest : Type 0 where
  pub slot : ℕ
  pub request_generation : ℕ
  pub connection_generation : ℕ
  pub nonce : ℕ

pub record PlaybackIdentity : Type 0 where
  pub slot : ℕ
  pub request_generation : ℕ
  pub connection_generation : ℕ
  pub summary_generation : ℕ
  pub lease : ℕ

pub record PlaybackBegin : Type 0 where
  pub identity : PlaybackIdentity
  pub total_bytes : ℕ
  pub total_samples : ℕ
  pub chunk_bytes : ℕ
  pub request_nonce : ℕ

pub record PlaybackAck : Type 0 where
  pub identity : PlaybackIdentity
  pub status : ℕ
  pub next_offset : ℕ

pub record PlaybackFinished : Type 0 where
  pub identity : PlaybackIdentity
  pub played_samples : ℕ

-- `coverage_by_slot` is an array of four bytes.
pub record MailboxStatus : Type 0 where
  pub unread_slots : ℕ
  pub running_tasks : ℕ
  pub coverage_by_slot : List ℕ

-- `(1..=4).contains(&slot)`.
unfoldable pub valid_slot : ℕ → Bool
valid_slot slot = leb 1 slot && leb slot 4

unfoldable pub encode_identity : List ℕ → PlaybackIdentity → List ℕ
encode_identity packet identity =
    let packet1 = put_u32 packet 8 identity.request_generation in
    let packet2 = put_u32 packet1 12 identity.connection_generation in
    let packet3 = put_u64 packet2 16 identity.summary_generation in
    put_u64 packet3 24 identity.lease

unfoldable pub decode_identity : List ℕ → PlaybackIdentity
decode_identity packet = record {
  slot = get_or packet 5 0;
  request_generation = get_u32 packet 8;
  connection_generation = get_u32 packet 12;
  summary_generation = get_u64 packet 16;
  lease = get_u64 packet 24;
}

unfoldable pub valid_identity : PlaybackIdentity → Bool
unfolding valid_slot
valid_identity identity =
    valid_slot identity.slot
    && ((identity.request_generation != 0)
        && ((identity.connection_generation != 0)
            && ((identity.summary_generation != 0) && (identity.lease != 0))))
