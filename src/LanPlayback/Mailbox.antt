-- ===== src/LanPlayback/Mailbox.antt =====
-- The mailbox status of app/host/src/lan_playback.rs: which slots have an unread summary, how many
-- tasks run, and how many completions each unread summary covers.
pub mod Laws
use Prim.Native.Nat.{bit_and}
use codex_keyboard_windows.Base.{
  ℕ, ◌+◌, ◌^◌, ◌&&◌, ◌||◌, Bool, true, false, not, List, [], ◌∷◌, length, take, replicate, get_or,
  read, splice, leb, ◌==◌, ◌!=◌, bytes_eq, put_u32, get_u32, Result, ok, ◌>>=◌, ◌>>◌, reject_if,
}
use codex_keyboard_windows.Crypto.{Crypto}
use codex_keyboard_windows.LanPlayback.{
  PlaybackWireError, malformed, MailboxStatus, mailbox_status_bytes, mailbox_status_version,
}
use codex_keyboard_windows.LanPlayback.Auth.{sign, verify}

abbrev pub eimb : List ℕ
eimb = b'E' ∷ b'I' ∷ b'M' ∷ b'B' ∷ []

-- `bool == bool`.
abbrev pub bool_eq : Bool → Bool → Bool
bool_eq true b = b
bool_eq false b = not b

-- The closure over `coverage_by_slot.iter().enumerate()`, from `index` on.
unfoldable pub all_covered : ℕ → ℕ → List ℕ → Bool
all_covered unread index [] = true
all_covered unread index (coverage ∷ rest) =
    bool_eq (bit_and unread (2 ^ index) != 0) (coverage != 0) && all_covered unread (index + 1) rest

-- `!0x0F` is 0xF0 in a byte.
unfoldable pub valid_mailbox_status : MailboxStatus → Bool
unfolding all_covered
valid_mailbox_status status =
    (bit_and status.unread_slots 0xf0 == 0)
    && (leb status.running_tasks 4 && all_covered status.unread_slots 0 status.coverage_by_slot)

unfoldable pub mailbox_packet : MailboxStatus → ℕ → List ℕ
mailbox_packet status heartbeat_sequence =
    let packet1 = splice 0 eimb (replicate mailbox_status_bytes 0) in
    let packet2 = splice 4 (mailbox_status_version ∷ []) packet1 in
    let packet3 = splice 5 (status.unread_slots ∷ []) packet2 in
    let packet4 = splice 6 (status.running_tasks ∷ []) packet3 in
    let packet5 = put_u32 packet4 8 heartbeat_sequence in splice 12 status.coverage_by_slot packet5

unfoldable pub mailbox_fields : List ℕ → MailboxStatus
mailbox_fields packet = record {
  unread_slots = get_or packet 5 0;
  running_tasks = get_or packet 6 0;
  coverage_by_slot = read 12 4 packet;
}

module _ (c : Crypto) where
  unfoldable pub encode_mailbox_status :
      MailboxStatus → ℕ → List ℕ → Result PlaybackWireError (List ℕ)
  encode_mailbox_status status heartbeat_sequence key = do
    reject_if (not (valid_mailbox_status status)) malformed
    ok (sign c (mailbox_packet status heartbeat_sequence) key)

  unfoldable pub decode_mailbox_status :
      List ℕ → List ℕ → Result PlaybackWireError (MailboxStatus × ℕ)
  decode_mailbox_status packet key = do
    reject_if
        ((length packet != mailbox_status_bytes)
          || (not (bytes_eq (take 4 packet) eimb) || (get_or packet 4 0 != mailbox_status_version)))
        malformed
    verify c packet key
    let status = mailbox_fields packet
    reject_if ((get_or packet 7 0 != 0) || not (valid_mailbox_status status)) malformed
    ok (status, get_u32 packet 8)
