-- ===== src/LanVoice/Playback/Send.antt =====
-- `send_next_data` of app/host/src/lan_voice.rs, and the loop that it shares with `tick`.
use codex_keyboard_windows.Base.{
  ℕ, zero, suc, ◌+◌, ◌-◌, ◌*◌, Bool, true, false, Option, none, some, List, read, length, ltb, min,
  ok, err,
}
use codex_keyboard_windows.Crypto.{Crypto}
use codex_keyboard_windows.LanPlayback.{playback_chunk_bytes}
use codex_keyboard_windows.LanPlayback.Payload.{encode_data}
use codex_keyboard_windows.LanVoice.Playback.{
  World, ActivePlaybackTransfer, data_ack, send_to, playback_send_window_chunks,
}

-- How the loop over the chunks ends.
pub data LoopEnd : Type 0 where
  all_sent encode_failed send_failed : LoopEnd

module _ (c : Crypto) (net : ℕ → Option ℕ) where
  -- `while offset < end`, which sends `eiad[offset .. min(offset + 1024, end)]`. A round moves the
  -- offset, so `end - offset` rounds are enough.
  unfoldable pub send_chunks : ℕ → ActivePlaybackTransfer → List ℕ → ℕ → ℕ → World → World × LoopEnd
  send_chunks zero t key offset end w = (w, all_sent)
  send_chunks (suc fuel) t key offset end w = elim (ltb offset end) [
    | false ↦ (w, all_sent)
    | true ↦
        let chunk_end = min (offset + playback_chunk_bytes) end in
        let packet =
          encode_data c t.begin.identity t.begin.request_nonce offset
            (read offset (chunk_end - offset) t.eiad) key in
        elim packet [
          | err e ↦ (w, encode_failed)
          | ok datagram ↦
              let (w', outcome) = send_to net w t.source datagram in
              elim outcome [
                | none ↦ (w', send_failed)
                | some size ↦ send_chunks fuel t key chunk_end end w'
              ]
        ]
  ]

  -- `Self::send_next_data`: the transfer afterwards, and whether all was sent. On failure the
  -- transfer is left as it was. The length of the audio is that of a `u32` field, so that
  -- `offset as u32` is exact.
  unfoldable pub send_next_data :
      ActivePlaybackTransfer → List ℕ → ℕ → World → ActivePlaybackTransfer × World × Bool
  send_next_data t key now w =
      let begin_at = t.acknowledged_offset in
      let end =
        min (begin_at + playback_chunk_bytes * playback_send_window_chunks) (length t.eiad) in
      let (w', loop_end) = send_chunks (end - begin_at) t key begin_at end w in
      elim loop_end [
        | all_sent ↦
            (record t { sent_end_offset = end; phase = data_ack; last_send = now }, w', true)
        | _ ↦ (t, w', false)
      ]
