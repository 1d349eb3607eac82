-- ===== src/LanVoice/Playback/Finish.antt =====
-- When the Host hears that a summary was played.
use codex_keyboard_windows.Base.{
  ℕ, suc, ◌+◌, ◌<◌, ◌≡◌, refl, ap, ◌∙◌, ◌⊎◌, inl, inr, true, not, Option, none, some, List, [], ◌∷◌,
  ◌++◌, length, arith, ◌==◌, ◌||◌, Option-cases, Bool-cases, ok, Result-cases, take, bytes_eq,
  subst,
}
use codex_keyboard_windows.Crypto.{Crypto}
use codex_keyboard_windows.LanPlayback.{
  PlaybackAck, PlaybackFinished, PlaybackRequest, PlaybackIdentity,
}
use codex_keyboard_windows.LanPlayback.Control.{
  eipr, eipa, eipf, decode_request, decode_ack, decode_finished,
}
use codex_keyboard_windows.LanVoice.Playback.{
  World, ActiveLanPlayback, ActivePlaybackTransfer, LanPlaybackEvent, request, finished, cancelled,
  is_finishing, identity_eq, identity_eq_sound,
}
use codex_keyboard_windows.LanVoice.Playback.Ack.{accept_ack}
use codex_keyboard_windows.LanVoice.Playback.Ingest.{
  accept_request_generation, ingest_request, ingest_finished, ingest, cancel_replaced,
}
use codex_keyboard_windows.LanVoice.Playback.Bounds.{IsTransfer, IsPlayback, IsPlayback-some}
use codex_keyboard_windows.LanVoice.Playback.Delivery.{
  Answered, accept_ack_idle, ingest_finished_idle, accept_ack-Answered,
}

-- How many `Finished` events a queue holds.
unfoldable pub finished_count : List LanPlaybackEvent → ℕ
finished_count [] = 0
finished_count (finished f ∷ es) = suc (finished_count es)
finished_count (request r source ∷ es) = finished_count es
finished_count (cancelled identity ∷ es) = finished_count es

-- A packet that the device could only send after it played this transfer to its end.
pub record PlayedOut (s : ActiveLanPlayback) (f : PlaybackFinished) (source : ℕ) : Type 0 where
  pub transfer : ActivePlaybackTransfer
  pub held : s.transfer ≡ some transfer
  pub same_source : transfer.source ≡ source
  pub same_identity : transfer.begin.identity ≡ f.identity
  pub all_samples : transfer.begin.total_samples ≡ f.played_samples
  pub all_bytes : transfer.acknowledged_offset ≡ length transfer.eiad

finished_count-append :
    (xs ys : List LanPlaybackEvent)
    → finished_count (xs ++ ys) ≡ finished_count xs + finished_count ys
unfolding finished_count
finished_count-append [] ys = omega arith
finished_count-append (finished f ∷ es) ys = omega (arith, finished_count-append es ys)
finished_count-append (request r source ∷ es) ys = finished_count-append es ys
finished_count-append (cancelled identity ∷ es) ys = finished_count-append es ys

count_cancelled :
    (es : List LanPlaybackEvent) (d : PlaybackIdentity)
    → finished_count (es ++ (cancelled d ∷ [])) ≡ finished_count es
unfolding finished_count
count_cancelled es d = omega (arith, finished_count-append es (cancelled d ∷ []))

count_request :
    (es : List LanPlaybackEvent) (r : PlaybackRequest) (source : ℕ)
    → finished_count (es ++ (request r source ∷ [])) ≡ finished_count es
unfolding finished_count
count_request es r source = omega (arith, finished_count-append es (request r source ∷ []))

count_replaced :
    (o : Option ActivePlaybackTransfer) (w : World)
    → finished_count (cancel_replaced o w).events ≡ finished_count w.events
count_replaced none w = refl
count_replaced (some t) w = count_cancelled w.events t.begin.identity

ingest_request-finished_count :
    (s : ActiveLanPlayback) (r : PlaybackRequest) (source : ℕ) (w : World)
    → finished_count (ingest_request s r source w).1.events ≡ finished_count w.events
unfolding ingest_request
ingest_request-finished_count s r source w =
    let s' = (accept_request_generation s r).0 in
    ground (
      arith,
      count_request (cancel_replaced s'.transfer w).events r source,
      count_replaced s'.transfer w,
    )

module _ (c : Crypto) (net : ℕ → Option ℕ) where
  Answered-finished_count :
      (t : ActivePlaybackTransfer) (w : World) (r : ActiveLanPlayback × World)
      → Answered t w r
      → finished_count r.1.events ≡ finished_count w.events
  Answered-finished_count t w r (inl (_, e)) = ap finished_count e
  Answered-finished_count t w r (inr (_, e)) =
      ap finished_count e ∙ count_cancelled w.events t.begin.identity

  accept_ack-finished_count :
      (s : ActiveLanPlayback) (ack : PlaybackAck) (source : ℕ) (key : List ℕ) (now : ℕ) (w : World)
      → IsPlayback s
      → finished_count (accept_ack c net s ack source key now w).1.events ≡ finished_count w.events
  accept_ack-finished_count s ack source key now w h = elim (Option-cases s.transfer) [
    | inl e ↦ ap finished_count (accept_ack_idle c net s ack source key now w e)
    | inr (t, e) ↦
        Answered-finished_count t w (accept_ack c net s ack source key now w)
          (accept_ack-Answered c net s t ack source key now w e (IsPlayback-some c net s t e h))
  ]

  played_of :
      (s : ActiveLanPlayback) (t : ActivePlaybackTransfer) (f : PlaybackFinished) (source : ℕ)
      (key : List ℕ) (now : ℕ) (w : World)
      → s.transfer ≡ some t
      → IsTransfer t
      → finished_count w.events
        < finished_count (ingest_finished c net s f source key now w).1.events
      → PlayedOut s f source
        × ((ingest_finished c net s f source key now w).1.events ≡ w.events ++ (finished f ∷ []))
  unfolding ingest_finished
  played_of s t f source key now w e v more =
      elim (Bool-cases (
        not (t.source == source)
        || (not (identity_eq t.begin.identity f.identity)
            || (not (t.begin.total_samples == f.played_samples) || not (is_finishing t.phase))))) [
              | inl foreign ↦ absurd (ground (arith, e, foreign, more))
              | inr ours ↦
                  let finishing : is_finishing t.phase ≡ true = ground (arith, ours) in
                  (
                    record {
                      transfer = t;
                      held = e;
                      same_source = ground (arith, ours);
                      same_identity =
                          identity_eq_sound t.begin.identity f.identity (ground (arith, ours));
                      all_samples = ground (arith, ours);
                      all_bytes = v.complete finishing;
                    },
                    ground (arith, e, ours),
                  )
            ]

  -- The third branch.
  ingest_finished-PlayedOut :
      (s : ActiveLanPlayback) (f : PlaybackFinished) (source : ℕ) (key : List ℕ) (now : ℕ)
      (w : World)
      → IsPlayback s
      → finished_count w.events
        < finished_count (ingest_finished c net s f source key now w).1.events
      → PlayedOut s f source
        × ((ingest_finished c net s f source key now w).1.events ≡ w.events ++ (finished f ∷ []))
  ingest_finished-PlayedOut s f source key now w h more = elim (Option-cases s.transfer) [
    | inl e ↦
        absurd (
          omega
            (arith, more, ap finished_count (ingest_finished_idle c net s f source key now w e)))
    | inr (t, e) ↦ played_of s t f source key now w e (IsPlayback-some c net s t e h) more
  ]

  -- Only an authentic `EIPF` packet reaches the third branch, and the others report no end.
  ingest_cases :
      (s : ActiveLanPlayback) (packet : List ℕ) (source : ℕ) (key : List ℕ) (now : ℕ) (w : World)
      → IsPlayback s
      → (finished_count (ingest c net s packet source key now w).1.events ≡ finished_count w.events)
        ⊎ ((f : PlaybackFinished) × (decode_finished c packet key ≡ ok f)
            × (ingest c net s packet source key now w ≡ ingest_finished c net s f source key now w))
  unfolding ingest
  ingest_cases s packet source key now w h = elim (Bool-cases (bytes_eq (take 4 packet) eipr)) [
    | inl asks ↦ inl (elim (Result-cases (decode_request c packet key)) [
      | inl (r, d) ↦ rw (asks, d, ingest) (ingest_request-finished_count s r source w)
      | inr (x, d) ↦ rw (asks, d, ingest)
    ])
    | inr no_request ↦ elim (Bool-cases (bytes_eq (take 4 packet) eipa)) [
      | inl answers ↦ inl (elim (Result-cases (decode_ack c packet key)) [
        | inl (ack, d) ↦
            rw (no_request, answers, d, ingest) (accept_ack-finished_count s ack source key now w h)
        | inr (x, d) ↦ rw (no_request, answers, d, ingest)
      ])
      | inr no_ack ↦ elim (Bool-cases (bytes_eq (take 4 packet) eipf)) [
        | inl ends ↦ elim (Result-cases (decode_finished c packet key)) [
          | inl (f, d) ↦ inr (f, d, rw (no_request, no_ack, ends, d, ingest))
          | inr (x, d) ↦ inl (rw (no_request, no_ack, ends, d, ingest))
        ]
        | inr other ↦ inl (rw (no_request, no_ack, other, ingest))
      ]
    ]
  ]

  -- In a state in range, a datagram that makes the Host report a finished playback is an authentic
  -- `EIPF` packet from the device of the transfer, with its identity and all of its samples, after
  -- every byte was acknowledged, and the report is the one event that it queues.
  pub ingest-PlayedOut :
      (s : ActiveLanPlayback) (packet : List ℕ) (source : ℕ) (key : List ℕ) (now : ℕ) (w : World)
      → IsPlayback s
      → finished_count w.events < finished_count (ingest c net s packet source key now w).1.events
      → (f : PlaybackFinished) × (decode_finished c packet key ≡ ok f)
        × PlayedOut s f source
        × ((ingest c net s packet source key now w).1.events ≡ w.events ++ (finished f ∷ []))
  ingest-PlayedOut s packet source key now w h more =
      elim (ingest_cases s packet source key now w h) [
        | inl same ↦ absurd (omega (arith, same, more))
        | inr (f, d, e) ↦
            let events = ap (λ (r : ActiveLanPlayback × World). r.1.events) e in
            let (out, q) =
              ingest_finished-PlayedOut s f source key now w h
                (subst (λ es. finished_count w.events < finished_count es) events more) in
            (f, d, out, events ∙ q)
      ]
