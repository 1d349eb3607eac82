-- ===== src/LanVoice/Playback/Delivery.antt =====
-- How a transfer ends, and what the Host's main loop hears of it.
use codex_keyboard_windows.Base.{
  ℕ, zero, suc, ◌+◌, ◌-◌, ◌*◌, ◌≤◌, ◌≡◌, refl, sym, ap, ◌∙◌, ◌⊎◌, inl, inr, Option, none, some,
  List, [], ◌∷◌, ◌++◌, length, arith, min, ltb, leb, ◌==◌, ◌!=◌, ◌&&◌, ◌||◌, not, read, Bool-cases,
  Result-cases,
}
use codex_keyboard_windows.Crypto.{Crypto}
use codex_keyboard_windows.LanPlayback.{PlaybackAck, PlaybackFinished, playback_chunk_bytes}
use codex_keyboard_windows.LanPlayback.Control.{encode_finished_ack}
use codex_keyboard_windows.LanPlayback.Payload.{encode_data}
use codex_keyboard_windows.LanVoice.Playback.{
  World, ActiveLanPlayback, ActivePlaybackTransfer, PlaybackSendPhase, begin_ack, data_ack,
  device_finished, host_commit, cancelled, send_to, identity_eq, phase_eq, playback_max_retries,
  playback_finish_timeout,
}
use codex_keyboard_windows.LanVoice.Playback.Send.{send_chunks, send_next_data}
use codex_keyboard_windows.LanVoice.Playback.Ack.{
  continue_transfer, accept_gap, accept_refusal, accept_progress, accept_ack_of, accept_ack,
}
use codex_keyboard_windows.LanVoice.Playback.Ingest.{ingest_finished}
use codex_keyboard_windows.LanVoice.Playback.Bounds.{IsTransfer}

-- The transfer goes on: the same audio to the same device, acknowledged at least as far.
pub record Continues (t : ActivePlaybackTransfer) (s : ActiveLanPlayback) : Type 0 where
  pub now_at : ActivePlaybackTransfer
  pub held : s.transfer ≡ some now_at
  pub same_begin : now_at.begin ≡ t.begin
  pub same_source : now_at.source ≡ t.source
  pub same_eiad : now_at.eiad ≡ t.eiad
  pub not_back : t.acknowledged_offset ≤ now_at.acknowledged_offset

-- One answer of the device: the transfer goes on and nothing is reported, or it is over and
-- exactly its cancellation is reported.
abbrev pub Answered : ActivePlaybackTransfer → World → ActiveLanPlayback × World → Type 0
Answered t w (s', w') =
    (Continues t s' × (w'.events ≡ w.events))
    ⊎ ((s'.transfer ≡ none) × (w'.events ≡ w.events ++ (cancelled t.begin.identity ∷ [])))

module _ (c : Crypto) (net : ℕ → Option ℕ) where
  -- Sending queues no event.
  send_to-events : (w : World) (to : ℕ) (p : List ℕ) → (send_to net w to p).0.events ≡ w.events
  unfolding send_to
  send_to-events w to p = ground arith

  send_chunks-events :
      (fuel : ℕ) (t : ActivePlaybackTransfer) (key : List ℕ) (offset end : ℕ) (w : World)
      → (send_chunks c net fuel t key offset end w).0.events ≡ w.events
  unfolding send_chunks
  send_chunks-events zero t key offset end w = refl
  send_chunks-events (suc fuel) t key offset end w =
      let chunk_end = min (offset + playback_chunk_bytes) end in
      elim (Result-cases (
        encode_data c t.begin.identity t.begin.request_nonce offset
          (read offset (chunk_end - offset) t.eiad) key)) [
            | inl (datagram, e) ↦ ground (
              arith,
              e,
              send_to-events w t.source datagram,
              send_chunks-events fuel t key chunk_end end (send_to net w t.source datagram).0,
            )
            | inr (x, e) ↦ ground (arith, e)
          ]

  send_next_data-events :
      (t : ActivePlaybackTransfer) (key : List ℕ) (now : ℕ) (w : World)
      → (send_next_data c net t key now w).1.events ≡ w.events
  unfolding send_next_data
  send_next_data-events t key now w = ground (
    arith,
    send_chunks-events
        (min (t.acknowledged_offset + 1024 * 6) (length t.eiad) - t.acknowledged_offset) t key
        t.acknowledged_offset (min (t.acknowledged_offset + 1024 * 6) (length t.eiad)) w,
  )

  send_next_data-same :
      (t : ActivePlaybackTransfer) (key : List ℕ) (now : ℕ) (w : World)
      → let t' = (send_next_data c net t key now w).0 in
        (t'.begin ≡ t.begin)
        × (t'.source ≡ t.source)
        × (t'.eiad ≡ t.eiad)
        × (t'.acknowledged_offset ≡ t.acknowledged_offset)
  unfolding send_next_data
  send_next_data-same t key now w = ground arith

  continue_transfer-Answered :
      (s : ActiveLanPlayback) (t : ActivePlaybackTransfer) (key : List ℕ) (now : ℕ) (w : World)
      → Answered t w (continue_transfer c net s t key now w)
  unfolding continue_transfer
  continue_transfer-Answered s t key now w =
      let e = send_next_data-events t key now w in
      let (begin, source, eiad, at) = send_next_data-same t key now w in
      elim (Bool-cases (send_next_data c net t key now w).2) [
        | inl sent ↦
            rw (sent, continue_transfer)
              (inl (
                record {
                  now_at = (send_next_data c net t key now w).0;
                  held = refl;
                  same_begin = begin;
                  same_source = source;
                  same_eiad = eiad;
                  not_back = omega (arith, at);
                },
                e,
              ))
        | inr failed ↦
            rw (failed, continue_transfer)
              (inr (refl, ap (λ es. es ++ (cancelled t.begin.identity ∷ [])) e))
      ]

  -- An answer about a later stand of the transfer is one about the transfer.
  Answered-later :
      (t t1 : ActivePlaybackTransfer) (w : World) (r : ActiveLanPlayback × World)
      → t1.begin ≡ t.begin
      → t1.source ≡ t.source
      → t1.eiad ≡ t.eiad
      → t.acknowledged_offset ≤ t1.acknowledged_offset
      → Answered t1 w r
      → Answered t w r
  Answered-later t t1 w r b s e h (inl (k, q)) = inl (
    record {
      now_at = k.now_at;
      held = k.held;
      same_begin = k.same_begin ∙ b;
      same_source = k.same_source ∙ s;
      same_eiad = k.same_eiad ∙ e;
      not_back = omega (arith, k.not_back);
    },
    q,
  )
  Answered-later t t1 w r b s e h (inr (gone, q)) =
      inr (gone, q ∙ ap (λ g. w.events ++ (cancelled g.identity ∷ [])) b)

  continue_later :
      (s : ActiveLanPlayback) (t t1 : ActivePlaybackTransfer) (key : List ℕ) (now : ℕ) (w : World)
      → t1.begin ≡ t.begin
      → t1.source ≡ t.source
      → t1.eiad ≡ t.eiad
      → t.acknowledged_offset ≤ t1.acknowledged_offset
      → Answered t w (continue_transfer c net s t1 key now w)
  continue_later s t t1 key now w b f g h =
      Answered-later t t1 w (continue_transfer c net s t1 key now w) b f g h
        (continue_transfer-Answered s t1 key now w)

  -- What leaves the transfer where it stands.
  Answered-still :
      (t t1 : ActivePlaybackTransfer) (s : ActiveLanPlayback) (w : World)
      → s.transfer ≡ some t1
      → t1.begin ≡ t.begin
      → t1.source ≡ t.source
      → t1.eiad ≡ t.eiad
      → t.acknowledged_offset ≤ t1.acknowledged_offset
      → Answered t w (s, w)
  Answered-still t t1 s w e b f g h = inl (
    record { now_at = t1; held = e; same_begin = b; same_source = f; same_eiad = g; not_back = h },
    refl,
  )

  accept_gap-Answered :
      (s : ActiveLanPlayback) (t : ActivePlaybackTransfer) (ack : PlaybackAck) (key : List ℕ)
      (now : ℕ) (w : World)
      → t.acknowledged_offset ≤ ack.next_offset
      → Answered t w (accept_gap c net s t ack key now w)
  unfolding accept_gap
  accept_gap-Answered s t ack key now w h =
      let t1 = record t { retry_count = t.retry_count + 1 } in
      let t2 = record t { acknowledged_offset = ack.next_offset; retry_count = 0 } in
      let again = continue_later s t t1 key now w refl refl refl (omega arith) in
      let onward = continue_later s t t2 key now w refl refl refl h in
      elim (Bool-cases (ack.next_offset == t.acknowledged_offset)) [
        | inl same ↦ elim (Bool-cases (leb playback_max_retries t.retry_count)) [
          | inl over ↦ rw (same, over, accept_gap) (inr (refl, refl))
          | inr left ↦ rw (same, left, accept_gap) again
        ]
        | inr moved ↦ rw (moved, accept_gap) onward
      ]

  accept_refusal-Answered :
      (s : ActiveLanPlayback) (t : ActivePlaybackTransfer) (ack : PlaybackAck) (source : ℕ)
      (key : List ℕ) (now : ℕ) (w : World)
      → Answered t w (accept_refusal c net s t ack source key now w)
  unfolding accept_refusal
  accept_refusal-Answered s t ack source key now w = elim (Bool-cases (ack.status == 3)) [
    | inl three ↦
        rw (three, accept_refusal)
          (inr
            (refl, ap (λ es. es ++ (cancelled t.begin.identity ∷ [])) (send_to-events w source _)))
    | inr other ↦ rw (other, accept_refusal) (inr (refl, refl))
  ]

  accept_progress-Answered :
      (phase : PlaybackSendPhase) (s : ActiveLanPlayback) (t : ActivePlaybackTransfer)
      (ack : PlaybackAck) (key : List ℕ) (now : ℕ) (w : World)
      → s.transfer ≡ some t
      → IsTransfer t
      → phase ≡ t.phase
      → Answered t w (accept_progress c net phase s t ack key now w)
  unfolding accept_progress
  accept_progress-Answered begin_ack s t ack key now w e v p =
      let t1 = record t { acknowledged_offset = 0; retry_count = 0 } in
      let zero_so_far : t.acknowledged_offset ≤ 0 = omega (arith, v.begun (sym p), v.ordered) in
      elim (Bool-cases (ack.next_offset == 0)) [
        | inl z ↦
            rw (z, accept_progress) (continue_later s t t1 key now w refl refl refl zero_so_far)
        | inr n ↦ rw (n, accept_progress) (Answered-still t t s w e refl refl refl (omega arith))
      ]
  accept_progress-Answered data_ack s t ack key now w e v p =
      let t1 = record t { acknowledged_offset = ack.next_offset; retry_count = 0 } in
      elim (Bool-cases
        (ltb t.acknowledged_offset ack.next_offset && leb ack.next_offset t.sent_end_offset)) [
          | inr out ↦
              rw (out, accept_progress) (Answered-still t t s w e refl refl refl (omega arith))
          | inl in_window ↦
              let further : t.acknowledged_offset ≤ ack.next_offset = ground (arith, in_window) in
              elim (Bool-cases (ack.next_offset != t.sent_end_offset)) [
                | inl part ↦
                    rw (in_window, part, accept_progress)
                      (Answered-still t t1 (record s { transfer = some t1 }) w refl refl refl refl
                        further)
                | inr all ↦ elim (Bool-cases (ack.next_offset == length t.eiad)) [
                  | inl done ↦
                      rw (in_window, all, done, accept_progress)
                        (let t2 = record t1 {
                          phase = device_finished;
                          finish_deadline = now + playback_finish_timeout;
                        } in
                          Answered-still t t2 (record s { transfer = some t2 }) w refl refl refl
                            refl further)
                  | inr more ↦
                      rw (in_window, all, more, accept_progress)
                        (continue_later s t t1 key now w refl refl refl further)
                ]
              ]
        ]
  accept_progress-Answered device_finished s t ack key now w e v p =
      Answered-still t t s w e refl refl refl (omega arith)
  accept_progress-Answered host_commit s t ack key now w e v p =
      Answered-still t t s w e refl refl refl (omega arith)

  accept_ack_of-Answered :
      (s : ActiveLanPlayback) (t : ActivePlaybackTransfer) (ack : PlaybackAck) (source : ℕ)
      (key : List ℕ) (now : ℕ) (w : World)
      → s.transfer ≡ some t
      → IsTransfer t
      → Answered t w (accept_ack_of c net s t ack source key now w)
  unfolding accept_ack_of
  accept_ack_of-Answered s t ack source key now w e v =
      elim (Bool-cases
        (not (t.source == source) || not (identity_eq t.begin.identity ack.identity))) [
          | inl foreign ↦
              rw (foreign, accept_ack_of) (Answered-still t t s w e refl refl refl (omega arith))
          | inr ours ↦
              elim (Bool-cases (
                (ack.status == 1)
                && (phase_eq t.phase data_ack
                    && (leb t.acknowledged_offset ack.next_offset
                        && leb ack.next_offset t.sent_end_offset)))) [
                          | inl gap ↦
                              rw (ours, gap, accept_ack_of)
                                (accept_gap-Answered s t ack key now w (ground (arith, gap)))
                          | inr answer ↦ elim (Bool-cases (ack.status != 0)) [
                            | inl refused ↦
                                rw (ours, answer, refused, accept_ack_of)
                                  (accept_refusal-Answered s t ack source key now w)
                            | inr fine ↦
                                rw (ours, answer, fine, accept_ack_of)
                                  (accept_progress-Answered t.phase s t ack key now w e v refl)
                          ]
                        ]
        ]

  -- An answer of the device to a transfer in range leaves it going, with the same audio and device
  -- and no less acknowledged, and queues no event, or it ends the transfer and queues exactly its
  -- cancellation.
  pub accept_ack-Answered :
      (s : ActiveLanPlayback) (t : ActivePlaybackTransfer) (ack : PlaybackAck) (source : ℕ)
      (key : List ℕ) (now : ℕ) (w : World)
      → s.transfer ≡ some t
      → IsTransfer t
      → Answered t w (accept_ack c net s ack source key now w)
  unfolding accept_ack
  accept_ack-Answered s t ack source key now w e v =
      rw (e, accept_ack) (accept_ack_of-Answered s t ack source key now w e v)

  -- With no transfer, an answer of the device queues nothing.
  pub accept_ack_idle :
      (s : ActiveLanPlayback) (ack : PlaybackAck) (source : ℕ) (key : List ℕ) (now : ℕ) (w : World)
      → s.transfer ≡ none
      → (accept_ack c net s ack source key now w).1.events ≡ w.events
  unfolding accept_ack
  accept_ack_idle s ack source key now w e =
      ground (arith, send_to-events w source (encode_finished_ack c ack.identity 1 key))

  pub ingest_finished_idle :
      (s : ActiveLanPlayback) (f : PlaybackFinished) (source : ℕ) (key : List ℕ) (now : ℕ)
      (w : World)
      → s.transfer ≡ none
      → (ingest_finished c net s f source key now w).1.events ≡ w.events
  unfolding ingest_finished
  ingest_finished_idle s f source key now w e =
      ground (arith, send_to-events w source (encode_finished_ack c f.identity 0 key))
