-- ===== src/LanPlayback/Control.antt =====
-- The five control packets of app/host/src/lan_playback.rs, as the source builds and reads them.
-- `*_packet` is the buffer that an encoder hands to `sign`.
pub mod Identity
pub mod Request
pub mod Begin
pub mod Ack
pub mod Finished
pub mod FinishedAck
pub mod Wire
use codex_keyboard_windows.Base.{
  ℕ, ◌+◌, ◌||◌, not, List, [], ◌∷◌, replicate, get_or, read, splice, ltb, ◌==◌, ◌!=◌, bytes_eq,
  put_u16, put_u32, put_u64, get_u16, get_u32, get_u64, Result, ok, ◌>>=◌, ◌>>◌, reject_if,
}
use codex_keyboard_windows.Crypto.{Crypto}
use codex_keyboard_windows.LanPlayback.{
  PlaybackWireError, malformed, PlaybackRequest, PlaybackIdentity, PlaybackBegin, PlaybackAck,
  PlaybackFinished, playback_version, request_bytes, begin_bytes, ack_bytes, finished_bytes,
  finished_ack_bytes, playback_chunk_bytes, playback_max_eiad_bytes, valid_slot, valid_identity,
  encode_identity, decode_identity,
}
use codex_keyboard_windows.LanPlayback.Auth.{sign, verify_fixed}

abbrev pub eipr : List ℕ
eipr = b'E' ∷ b'I' ∷ b'P' ∷ b'R' ∷ []

abbrev pub eipb : List ℕ
eipb = b'E' ∷ b'I' ∷ b'P' ∷ b'B' ∷ []

abbrev pub eipa : List ℕ
eipa = b'E' ∷ b'I' ∷ b'P' ∷ b'A' ∷ []

abbrev pub eipf : List ℕ
eipf = b'E' ∷ b'I' ∷ b'P' ∷ b'F' ∷ []

abbrev pub eipk : List ℕ
eipk = b'E' ∷ b'I' ∷ b'P' ∷ b'K' ∷ []

-- `vec![0; size]` with the magic at 0, the version at 4 and the slot at 5.
unfoldable pub open_packet : ℕ → List ℕ → ℕ → List ℕ
open_packet size magic slot =
    splice 5 (slot ∷ []) (splice 4 (playback_version ∷ []) (splice 0 magic (replicate size 0)))

unfoldable pub request_packet : PlaybackRequest → List ℕ
unfolding open_packet
request_packet request =
    let packet1 = open_packet request_bytes eipr request.slot in
    let packet2 = put_u32 packet1 8 request.request_generation in
    let packet3 = put_u32 packet2 12 request.connection_generation in
    put_u64 packet3 16 request.nonce

unfoldable pub begin_packet : PlaybackBegin → List ℕ
unfolding open_packet encode_identity
begin_packet begin =
    let packet1 = open_packet begin_bytes eipb begin.identity.slot in
    let packet2 = encode_identity packet1 begin.identity in
    let packet3 = put_u32 packet2 32 begin.total_bytes in
    let packet4 = put_u64 packet3 36 begin.total_samples in
    let packet5 = put_u16 packet4 44 begin.chunk_bytes in put_u64 packet5 48 begin.request_nonce

unfoldable pub ack_packet : PlaybackAck → List ℕ
unfolding open_packet encode_identity
ack_packet ack =
    let packet1 = open_packet ack_bytes eipa ack.identity.slot in
    let packet2 = splice 6 (ack.status ∷ []) packet1 in
    let packet3 = encode_identity packet2 ack.identity in put_u32 packet3 32 ack.next_offset

unfoldable pub finished_packet : PlaybackFinished → List ℕ
unfolding open_packet encode_identity
finished_packet finished =
    let packet1 = open_packet finished_bytes eipf finished.identity.slot in
    let packet2 = encode_identity packet1 finished.identity in
    put_u64 packet2 32 finished.played_samples

unfoldable pub finished_ack_packet : PlaybackIdentity → ℕ → List ℕ
unfolding open_packet encode_identity
finished_ack_packet identity status =
    let packet1 = open_packet finished_ack_bytes eipk identity.slot in
    let packet2 = splice 6 (status ∷ []) packet1 in encode_identity packet2 identity

unfoldable pub request_fields : List ℕ → PlaybackRequest
request_fields packet = record {
  slot = get_or packet 5 0;
  request_generation = get_u32 packet 8;
  connection_generation = get_u32 packet 12;
  nonce = get_u64 packet 16;
}

unfoldable pub begin_fields : List ℕ → PlaybackBegin
begin_fields packet = record {
  identity = decode_identity packet;
  total_bytes = get_u32 packet 32;
  total_samples = get_u64 packet 36;
  chunk_bytes = get_u16 packet 44;
  request_nonce = get_u64 packet 48;
}

unfoldable pub ack_fields : List ℕ → PlaybackAck
ack_fields packet = record {
  identity = decode_identity packet;
  status = get_or packet 6 0;
  next_offset = get_u32 packet 32;
}

unfoldable pub finished_fields : List ℕ → PlaybackFinished
finished_fields packet = record {
  identity = decode_identity packet;
  played_samples = get_u64 packet 32;
}

module _ (c : Crypto) where
  unfoldable pub encode_request : PlaybackRequest → List ℕ → List ℕ
  encode_request request key = sign c (request_packet request) key

  unfoldable pub decode_request : List ℕ → List ℕ → Result PlaybackWireError PlaybackRequest
  decode_request packet key = do
    verify_fixed c packet request_bytes eipr key
    let request = request_fields packet
    reject_if
        (not (bytes_eq (read 6 2 packet) (0 ∷ 0 ∷ []))
          || (not (valid_slot request.slot)
              || ((request.request_generation == 0)
                  || ((request.connection_generation == 0) || (request.nonce == 0)))))
        malformed
    ok request

  unfoldable pub encode_begin : PlaybackBegin → List ℕ → List ℕ
  encode_begin begin key = sign c (begin_packet begin) key

  unfoldable pub decode_begin : List ℕ → List ℕ → Result PlaybackWireError PlaybackBegin
  decode_begin packet key = do
    verify_fixed c packet begin_bytes eipb key
    let begin = begin_fields packet
    reject_if
        (not (bytes_eq (read 6 2 packet) (0 ∷ 0 ∷ []))
          || (not (bytes_eq (read 46 2 packet) (0 ∷ 0 ∷ []))
              || (not (valid_identity begin.identity)
                  || ((begin.total_bytes == 0)
                      || (ltb playback_max_eiad_bytes begin.total_bytes
                          || ((begin.total_samples == 0)
                              || ((begin.chunk_bytes == 0)
                                  || (ltb playback_chunk_bytes begin.chunk_bytes
                                      || (begin.request_nonce == 0)))))))))
        malformed
    ok begin

  unfoldable pub encode_ack : PlaybackAck → List ℕ → List ℕ
  encode_ack ack key = sign c (ack_packet ack) key

  unfoldable pub decode_ack : List ℕ → List ℕ → Result PlaybackWireError PlaybackAck
  decode_ack packet key = do
    verify_fixed c packet ack_bytes eipa key
    let ack = ack_fields packet
    reject_if ((get_or packet 7 0 != 0) || (not (valid_identity ack.identity) || ltb 3 ack.status))
        malformed
    ok ack

  unfoldable pub encode_finished : PlaybackFinished → List ℕ → List ℕ
  encode_finished finished key = sign c (finished_packet finished) key

  unfoldable pub decode_finished : List ℕ → List ℕ → Result PlaybackWireError PlaybackFinished
  decode_finished packet key = do
    verify_fixed c packet finished_bytes eipf key
    let finished = finished_fields packet
    reject_if
        (not (bytes_eq (read 6 2 packet) (0 ∷ 0 ∷ []))
          || (not (valid_identity finished.identity) || (finished.played_samples == 0)))
        malformed
    ok finished

  unfoldable pub encode_finished_ack : PlaybackIdentity → ℕ → List ℕ → List ℕ
  encode_finished_ack identity status key = sign c (finished_ack_packet identity status) key

  unfoldable pub decode_finished_ack :
      List ℕ → List ℕ → Result PlaybackWireError (PlaybackIdentity × ℕ)
  decode_finished_ack packet key = do
    verify_fixed c packet finished_ack_bytes eipk key
    let identity = decode_identity packet
    reject_if
        ((get_or packet 7 0 != 0) || (not (valid_identity identity) || ltb 1 (get_or packet 6 0)))
        malformed
    ok (identity, get_or packet 6 0)
