-- ===== src/LanVoice/Playback/Endings.antt =====
-- No transfer vanishes in silence: every way in which one ends is reported or was asked for.
use codex_keyboard_windows.Base.{
  ℕ, ◌-◌, ◌≡◌, refl, sym, ap, ◌∙◌, inl, inr, not, Option, none, some, List, [], ◌∷◌, ◌++◌, arith,
  ltb, leb, ◌==◌, ◌&&◌, ◌||◌, Option-cases, Bool-cases, Result-cases, append_assoc, take, bytes_eq,
}
use codex_keyboard_windows.Crypto.{Crypto}
use codex_keyboard_windows.LanPlayback.{PlaybackFinished, PlaybackRequest, PlaybackIdentity}
use codex_keyboard_windows.LanPlayback.Control.{
  eipr, eipa, eipf, decode_request, decode_ack, decode_finished, encode_finished_ack,
}
use codex_keyboard_windows.LanVoice.Playback.{
  World, ActiveLanPlayback, ActivePlaybackTransfer, LanPlaybackEvent, LanPlaybackCommand, start,
  finish_ack, cancel, mailbox, cancelled, request, LanPlaybackStart, playback_retry,
  playback_max_retries, host_commit, device_finished, identity_eq, identity_eq_sound, phase_eq,
  is_finishing, send_to,
}
use codex_keyboard_windows.LanVoice.Playback.Ingest.{
  accept_request_generation, ingest_request, ingest_finished_of, ingest_finished, ingest,
  cancel_replaced,
}
use codex_keyboard_windows.LanVoice.Playback.Command.{
  start_transfer, commit_finished, handle_command,
}
use codex_keyboard_windows.LanVoice.Playback.Tick.{resend, retry_transfer, tick_transfer, tick}
use codex_keyboard_windows.LanVoice.Playback.History.{Call, commands, receives, ticks, step}
use codex_keyboard_windows.LanVoice.Playback.Bounds.{IsTransfer}
use codex_keyboard_windows.LanVoice.Playback.Delivery.{Continues, Answered, accept_ack-Answered}

-- What a call may do to the transfer in progress.
pub data Fate (t : ActivePlaybackTransfer) (w : World) (call : Call) (r : ActiveLanPlayback × World)
    : Type 0 where
  goes_on : Continues t r.0 → Fate t w call r
  reported :
      r.0.transfer ≡ none
      → (rest : List LanPlaybackEvent)
      → r.1.events ≡ w.events ++ (cancelled t.begin.identity ∷ rest)
      → Fate t w call r
  committed :
      r.0.transfer ≡ none
      → t.phase ≡ host_commit
      → (key : Option (List ℕ)) (now : ℕ) → call ≡ commands (finish_ack t.begin.identity) key now
      → Fate t w call r
  dropped :
      r.0.transfer ≡ none
      → (key : Option (List ℕ)) (now : ℕ) → call ≡ commands (cancel t.begin.identity) key now
      → Fate t w call r

module _ (c : Crypto) (net : ℕ → Option ℕ) (w : World) (t : ActivePlaybackTransfer) where
  still :
      (s : ActiveLanPlayback) (w' : World) (call : Call)
      → s.transfer ≡ some t
      → Fate t w call (s, w')
  still s w' call e = goes_on (record {
    now_at = t;
    held = e;
    same_begin = refl;
    same_source = refl;
    same_eiad = refl;
    not_back = omega arith;
  })

  moved :
      (s : ActiveLanPlayback) (t1 : ActivePlaybackTransfer) (w' : World) (call : Call)
      → s.transfer ≡ some t1
      → t1.begin ≡ t.begin
      → t1.source ≡ t.source
      → t1.eiad ≡ t.eiad
      → t1.acknowledged_offset ≡ t.acknowledged_offset
      → Fate t w call (s, w')
  moved s t1 w' call e b f g h = goes_on (record {
    now_at = t1;
    held = e;
    same_begin = b;
    same_source = f;
    same_eiad = g;
    not_back = omega (arith, h);
  })

  answered : (r : ActiveLanPlayback × World) (call : Call) → Answered t w r → Fate t w call r
  answered r call (inl (k, q)) = goes_on k
  answered r call (inr (gone, q)) = reported gone [] q

  accept_request_generation-transfer :
      (s : ActiveLanPlayback) (r : PlaybackRequest)
      → (accept_request_generation s r).0.transfer ≡ s.transfer
  unfolding accept_request_generation
  accept_request_generation-transfer s r = ground arith

  ingest_request-Fate :
      (s : ActiveLanPlayback) (r : PlaybackRequest) (source : ℕ) (call : Call)
      → s.transfer ≡ some t
      → Fate t w call (ingest_request s r source w)
  unfolding ingest_request
  ingest_request-Fate s r source call e =
      let (s', accepted) = accept_request_generation s r in
      let e' : s'.transfer ≡ some t = accept_request_generation-transfer s r ∙ e in
      elim (Bool-cases accepted) [
        | inl new ↦
            rw (new, ingest_request)
              (reported refl (request r source ∷ []) (
                ap (λ o. (cancel_replaced o w).events ++ (request r source ∷ [])) e'
                ∙ append_assoc w.events _ _))
        | inr old ↦ rw (old, ingest_request) (still s' w call e')
      ]

  ingest_finished-Fate :
      (s : ActiveLanPlayback) (f : PlaybackFinished) (source : ℕ) (key : List ℕ) (now : ℕ)
      (call : Call)
      → s.transfer ≡ some t
      → Fate t w call (ingest_finished c net s f source key now w)
  unfolding ingest_finished
  ingest_finished-Fate s f source key now call e =
      rw (e, ingest_finished)
        (elim (Bool-cases (
          not (t.source == source)
          || (not (identity_eq t.begin.identity f.identity)
              || (not (t.begin.total_samples == f.played_samples)
                  || not (is_finishing t.phase))))) [
                    | inl foreign ↦ rw (foreign, ingest_finished_of) (still s _ call e)
                    | inr ours ↦ elim (Bool-cases (phase_eq t.phase device_finished)) [
                      | inl first ↦
                          rw (ours, first, ingest_finished_of)
                            (moved _ _ _ call refl refl refl refl refl)
                      | inr again ↦ rw (ours, again, ingest_finished_of) (still s _ call e)
                    ]
                  ])

  retried-Fate :
      (s : ActiveLanPlayback) (key : Option (List ℕ)) (now : ℕ) (call : Call)
      → s.transfer ≡ some t
      → Fate t w call (retry_transfer c net s t key now w)
  unfolding retry_transfer
  retried-Fate s none now call e = still s w call e
  retried-Fate s (some k) now call e = elim (Bool-cases (resend c net t.phase t k w).1) [
    | inl sent ↦ rw (sent, retry_transfer) (moved _ _ _ call refl refl refl refl refl)
    | inr failed ↦ rw (failed, retry_transfer) (still s _ call e)
  ]

  tick_transfer-Fate :
      (s : ActiveLanPlayback) (key : Option (List ℕ)) (now : ℕ) (call : Call)
      → s.transfer ≡ some t
      → Fate t w call (tick_transfer c net s t key now w)
  unfolding tick_transfer
  tick_transfer-Fate s key now call e = elim (Bool-cases (is_finishing t.phase)) [
    | inl finishing ↦ elim (Bool-cases (leb t.finish_deadline now)) [
      | inl late ↦ rw (finishing, late, tick_transfer) (reported refl [] refl)
      | inr soon ↦ rw (finishing, soon, tick_transfer) (still s w call e)
    ]
    | inr sending ↦ elim (Bool-cases (ltb (now - t.last_send) playback_retry)) [
      | inl fresh ↦ rw (sending, fresh, tick_transfer) (still s w call e)
      | inr due ↦ elim (Bool-cases (leb playback_max_retries t.retry_count)) [
        | inl over ↦ rw (sending, due, over, tick_transfer) (reported refl [] refl)
        | inr left ↦ rw (sending, due, left, tick_transfer) (retried-Fate s key now call e)
      ]
    ]
  ]

  commit_finished-Fate :
      (s : ActiveLanPlayback) (identity : PlaybackIdentity) (key : Option (List ℕ)) (now : ℕ)
      → s.transfer ≡ some t
      → Fate t w
          (commands (finish_ack identity) key now)
          (commit_finished c net s (some t) identity key now w)
  unfolding commit_finished
  commit_finished-Fate s identity none now e = still s w _ e
  commit_finished-Fate s identity (some k) now e =
      elim (Bool-cases (identity_eq t.begin.identity identity && phase_eq t.phase host_commit)) [
        | inr foreign ↦ rw (foreign, commit_finished) (still s w _ e)
        | inl ours ↦
            elim (Option-cases (send_to net w t.source (encode_finished_ack c identity 0 k)).1) [
              | inl failed ↦ rw (ours, failed, commit_finished) (still s _ _ e)
              | inr (size, sent) ↦
                  let same : t.begin.identity ≡ identity =
                    identity_eq_sound t.begin.identity identity (ground (arith, ours)) in
                  rw (ours, sent, commit_finished)
                    (committed refl (ground (arith, ours)) (some k) now
                      (ap (λ d. commands (finish_ack d) (some k) now) (sym same)))
            ]
      ]

  start_transfer-Fate :
      (s : ActiveLanPlayback) (begun : LanPlaybackStart) (key : Option (List ℕ)) (now : ℕ)
      (call : Call)
      → s.transfer ≡ some t
      → Fate t w call (start_transfer c net s begun key now w)
  unfolding start_transfer
  start_transfer-Fate s begun key now call e = rw (e, start_transfer) (still _ _ call refl)

  ingest-Fate :
      (s : ActiveLanPlayback) (packet : List ℕ) (source : ℕ) (key : List ℕ) (now : ℕ) (call : Call)
      → s.transfer ≡ some t
      → IsTransfer t
      → Fate t w call (ingest c net s packet source key now w)
  unfolding ingest
  ingest-Fate s packet source key now call e v = elim (Bool-cases (bytes_eq (take 4 packet) eipr)) [
    | inl asks ↦ elim (Result-cases (decode_request c packet key)) [
      | inl (r, d) ↦ rw (asks, d, ingest) (ingest_request-Fate s r source call e)
      | inr (x, d) ↦ rw (asks, d, ingest) (still s w call e)
    ]
    | inr no_request ↦ elim (Bool-cases (bytes_eq (take 4 packet) eipa)) [
      | inl answers ↦ elim (Result-cases (decode_ack c packet key)) [
        | inl (ack, d) ↦
            rw (no_request, answers, d, ingest)
              (answered _ call (accept_ack-Answered c net s t ack source key now w e v))
        | inr (x, d) ↦ rw (no_request, answers, d, ingest) (still s w call e)
      ]
      | inr no_ack ↦ elim (Bool-cases (bytes_eq (take 4 packet) eipf)) [
        | inl ends ↦ elim (Result-cases (decode_finished c packet key)) [
          | inl (f, d) ↦
              rw (no_request, no_ack, ends, d, ingest)
                (ingest_finished-Fate s f source key now call e)
          | inr (x, d) ↦ rw (no_request, no_ack, ends, d, ingest) (still s w call e)
        ]
        | inr other ↦ rw (no_request, no_ack, other, ingest) (still s w call e)
      ]
    ]
  ]

  handle_command-Fate :
      (s : ActiveLanPlayback) (command : LanPlaybackCommand) (key : Option (List ℕ)) (now : ℕ)
      → s.transfer ≡ some t
      → Fate t w (commands command key now) (handle_command c net s command key now w)
  unfolding handle_command
  handle_command-Fate s (start begun) key now e = start_transfer-Fate s begun key now _ e
  handle_command-Fate s (finish_ack identity) key now e =
      rw (e, handle_command) (commit_finished-Fate _ identity key now refl)
  handle_command-Fate s (cancel identity) key now e =
      rw (e, handle_command)
        (elim (Bool-cases (identity_eq t.begin.identity identity)) [
          | inl ours ↦ rw ours (
              dropped refl key now (
                ap (λ d. commands (cancel d) key now)
                  (sym (identity_eq_sound t.begin.identity identity ours))))
          | inr foreign ↦ rw foreign (still s w _ e)
        ])
  handle_command-Fate s (mailbox status) key now e = still _ w _ e

  -- Whatever the worker does next on a transfer in range (a command, a datagram, a tick), the
  -- transfer goes on with the same audio and device and with no less acknowledged, or it is over
  -- and its cancellation is the first event that the call queues, or its finish was acknowledged
  -- after the device reported the end (`FinishAck` in the phase `HostCommit`), or a `Cancel` of
  -- that very transfer ended it.
  pub step-Fate :
      (s : ActiveLanPlayback) (call : Call)
      → s.transfer ≡ some t
      → IsTransfer t
      → Fate t w call (step c net s w call)
  unfolding step
  step-Fate s (commands command key now) e v = handle_command-Fate s command key now e
  step-Fate s (receives packet source none now) e v = still s w _ e
  step-Fate s (receives packet source (some key) now) e v =
      ingest-Fate s packet source key now _ e v
  step-Fate s (ticks key now) e v = unfold tick in rw (e, tick) (tick_transfer-Fate _ key now _ e)
