-- ===== src/LanPlayback/Control/Wire.antt =====
-- The five control packets of app/host/src/lan_playback.rs as one type, with the encoder and the
-- decoder of each.
use codex_keyboard_windows.Base.{
  ℕ, ◌≤◌, ◌≡◌, arith, refl, ap, subst, List, IsBytes, Result, ok, ◌>>=◌, >>=-eq-ok,
}
use codex_keyboard_windows.Crypto.{Crypto, IsMac}
use codex_keyboard_windows.LanPlayback.{
  PlaybackWireError, PlaybackRequest, PlaybackIdentity, PlaybackBegin, PlaybackAck,
  PlaybackFinished,
}
use codex_keyboard_windows.LanPlayback.Control.{
  encode_request, decode_request, encode_begin, decode_begin, encode_ack, decode_ack,
  encode_finished, decode_finished, encode_finished_ack, decode_finished_ack,
}
use codex_keyboard_windows.LanPlayback.Control.Identity.{IsIdentity}
use codex_keyboard_windows.LanPlayback.Control.Request.{
  IsRequest, decode_request-encode_request, encode_request-decode_request,
}
use codex_keyboard_windows.LanPlayback.Control.Begin.{
  IsBegin, decode_begin-encode_begin, encode_begin-decode_begin,
}
use codex_keyboard_windows.LanPlayback.Control.Ack.{
  IsAck, decode_ack-encode_ack, encode_ack-decode_ack,
}
use codex_keyboard_windows.LanPlayback.Control.Finished.{
  IsFinished, decode_finished-encode_finished, encode_finished-decode_finished,
}
use codex_keyboard_windows.LanPlayback.Control.FinishedAck.{
  decode_finished_ack-encode_finished_ack, encode_finished_ack-decode_finished_ack,
}

pub data ControlKind : Type 0 where
  asking beginning acknowledging finishing confirming : ControlKind

pub data ControlPacket : Type 0 where
  asks : PlaybackRequest → ControlPacket
  begins : PlaybackBegin → ControlPacket
  acknowledges : PlaybackAck → ControlPacket
  finishes : PlaybackFinished → ControlPacket
  confirms : PlaybackIdentity × ℕ → ControlPacket

abbrev pub kind_of : ControlPacket → ControlKind
kind_of (asks request) = asking
kind_of (begins begin) = beginning
kind_of (acknowledges ack) = acknowledging
kind_of (finishes finished) = finishing
kind_of (confirms answer) = confirming

-- The identities, the codes and the numbers are in range.
abbrev pub IsControl : ControlPacket → Type 0
IsControl (asks request) = IsRequest request
IsControl (begins begin) = IsBegin begin
IsControl (acknowledges ack) = IsAck ack
IsControl (finishes finished) = IsFinished finished
IsControl (confirms (identity, status)) = IsIdentity identity × (status ≤ 1)

module _ (c : Crypto) where
  abbrev pub encode : ControlPacket → List ℕ → List ℕ
  encode (asks request) key = encode_request c request key
  encode (begins begin) key = encode_begin c begin key
  encode (acknowledges ack) key = encode_ack c ack key
  encode (finishes finished) key = encode_finished c finished key
  encode (confirms (identity, status)) key = encode_finished_ack c identity status key

  abbrev pub decode : ControlKind → List ℕ → List ℕ → Result PlaybackWireError ControlPacket
  decode asking packet key = decode_request c packet key >>= (λ r. ok (asks r))
  decode beginning packet key = decode_begin c packet key >>= (λ r. ok (begins r))
  decode acknowledging packet key = decode_ack c packet key >>= (λ r. ok (acknowledges r))
  decode finishing packet key = decode_finished c packet key >>= (λ r. ok (finishes r))
  decode confirming packet key = decode_finished_ack c packet key >>= (λ r. ok (confirms r))

  -- The packet is of that kind and in range, and is written as those bytes.
  abbrev pub IsEncoding : ControlKind → List ℕ → List ℕ → ControlPacket → Type 0
  IsEncoding kind bytes key packet =
      (kind_of packet ≡ kind) × ((encode packet key ≡ bytes) × IsControl packet)

  module _ (m : IsMac c) where
    -- Each of the five control packets (request, begin, acknowledgement, finished, finish
    -- acknowledgement) with its identity, codes, sizes and nonces in range is read back by the
    -- decoder of its kind from what its encoder writes, under the same key.
    pub decode-encode :
        (packet : ControlPacket) (key : List ℕ)
        → IsControl packet
        → decode (kind_of packet) (encode packet key) key ≡ ok packet
    decode-encode (asks r) key v =
        ap (λ d. d >>= (λ r. ok (asks r))) (decode_request-encode_request c m r key v)
    decode-encode (begins r) key v =
        ap (λ d. d >>= (λ r. ok (begins r))) (decode_begin-encode_begin c m r key v)
    decode-encode (acknowledges r) key v =
        ap (λ d. d >>= (λ r. ok (acknowledges r))) (decode_ack-encode_ack c m r key v)
    decode-encode (finishes r) key v =
        ap (λ d. d >>= (λ r. ok (finishes r))) (decode_finished-encode_finished c m r key v)
    decode-encode (confirms (identity, status)) key v =
        ap (λ d. d >>= (λ r. ok (confirms r)))
          (decode_finished_ack-encode_finished_ack c m identity status key v.0 v.1)

    -- Bytes that the decoder of a control packet accepts are exactly what the encoder writes for
    -- the result under that key, the result is of that kind, and it is in range: there is one
    -- accepted encoding.
    pub encode-decode :
        (kind : ControlKind) (bytes key : List ℕ) (packet : ControlPacket)
        → IsBytes bytes
        → decode kind bytes key ≡ ok packet
        → IsEncoding kind bytes key packet
    encode-decode asking p key packet b h =
        let (r, e, f) = >>=-eq-ok (decode_request c p key) (λ r. ok (asks r)) h in
        let same : asks r ≡ packet = ground (arith, f) in
        subst (IsEncoding asking p key) same (refl, encode_request-decode_request c m p key r b e)
    encode-decode beginning p key packet b h =
        let (r, e, f) = >>=-eq-ok (decode_begin c p key) (λ r. ok (begins r)) h in
        let same : begins r ≡ packet = ground (arith, f) in
        subst (IsEncoding beginning p key) same (refl, encode_begin-decode_begin c m p key r b e)
    encode-decode acknowledging p key packet b h =
        let (r, e, f) = >>=-eq-ok (decode_ack c p key) (λ r. ok (acknowledges r)) h in
        let same : acknowledges r ≡ packet = ground (arith, f) in
        subst (IsEncoding acknowledging p key) same (refl, encode_ack-decode_ack c m p key r b e)
    encode-decode finishing p key packet b h =
        let (r, e, f) = >>=-eq-ok (decode_finished c p key) (λ r. ok (finishes r)) h in
        let same : finishes r ≡ packet = ground (arith, f) in
        subst (IsEncoding finishing p key) same
          (refl, encode_finished-decode_finished c m p key r b e)
    encode-decode confirming p key packet b h =
        let (r, e, f) = >>=-eq-ok (decode_finished_ack c p key) (λ r. ok (confirms r)) h in
        let same : confirms r ≡ packet = ground (arith, f) in
        let (written, valid, known) =
          encode_finished_ack-decode_finished_ack c m p key r.0 r.1 b e in
        subst (IsEncoding confirming p key) same (refl, (written, (valid, known)))
