-- ===== src/LanVoice/Playback/Ingest.antt =====
-- `ingest` and `accept_request_generation` of `ActiveLanPlayback` in app/host/src/lan_voice.rs.
use codex_keyboard_windows.Base.{
  ℕ, ◌+◌, ◌&&◌, ◌||◌, not, Bool, true, false, Option, none, some, List, [], ◌∷◌, take, leb, ◌==◌,
  bytes_eq, if◌then◌else◌, ok, err,
}
use codex_keyboard_windows.Crypto.{Crypto}
use codex_keyboard_windows.LanPlayback.{PlaybackRequest, PlaybackFinished}
use codex_keyboard_windows.LanPlayback.Control.{
  eipr, eipa, eipf, decode_request, decode_ack, decode_finished, encode_finished_ack,
}
use codex_keyboard_windows.LanVoice.Playback.{
  World, ActiveLanPlayback, ActivePlaybackTransfer, request, finished, cancelled, device_finished,
  host_commit, phase_eq, is_finishing, identity_eq, emit, send_to, playback_finish_timeout,
}
use codex_keyboard_windows.LanVoice.Playback.Ack.{is_retired, accept_ack}

-- The last request generation accepted for a slot and a connection.
unfoldable pub lookup_floor : ℕ → ℕ → List (ℕ × ℕ × ℕ) → Option ℕ
lookup_floor slot connection [] = none
lookup_floor slot connection ((s, k, floor) ∷ rest) =
    if (s == slot) && (k == connection) then some floor else lookup_floor slot connection rest

unfoldable pub insert_floor : ℕ → ℕ → ℕ → List (ℕ × ℕ × ℕ) → List (ℕ × ℕ × ℕ)
insert_floor slot connection generation [] = (slot, connection, generation) ∷ []
insert_floor slot connection generation ((s, k, floor) ∷ rest) =
    if (s == slot) && (k == connection)
    then (slot, connection, generation) ∷ rest
    else (s, k, floor) ∷ insert_floor slot connection generation rest

-- A request is new if its generation is above the last one of its slot and connection.
unfoldable pub accept_request_generation :
    ActiveLanPlayback → PlaybackRequest → ActiveLanPlayback × Bool
accept_request_generation s r =
    let accepted = record s {
      accepted_requests =
          insert_floor r.slot r.connection_generation r.request_generation s.accepted_requests;
    } in
    elim (lookup_floor r.slot r.connection_generation s.accepted_requests) [
      | none ↦ (accepted, true)
      | some floor ↦ if leb r.request_generation floor then (s, false) else (accepted, true)
    ]

-- A transfer that a new request replaces is reported as cancelled.
abbrev pub cancel_replaced : Option ActivePlaybackTransfer → World → World
cancel_replaced none w = w
cancel_replaced (some t) w = emit w (cancelled t.begin.identity)

unfoldable pub ingest_request :
    ActiveLanPlayback → PlaybackRequest → ℕ → World → ActiveLanPlayback × World
ingest_request s r source w =
    let (s', accepted) = accept_request_generation s r in
    if accepted
    then (record s' { transfer = none }, emit (cancel_replaced s'.transfer w) (request r source))
    else (s', w)

module _ (c : Crypto) (net : ℕ → Option ℕ) where
  -- The device has played all samples: the transfer waits for the Host's commit.
  unfoldable pub ingest_finished_of :
      ActiveLanPlayback
      → ActivePlaybackTransfer
      → PlaybackFinished
      → ℕ
      → ℕ
      → World
      → ActiveLanPlayback × World
  ingest_finished_of s t f source now w =
      let committed = record t {
        phase = host_commit;
        finish_deadline = now + playback_finish_timeout;
      } in
      if not (t.source == source)
        || (not (identity_eq t.begin.identity f.identity)
            || (not (t.begin.total_samples == f.played_samples) || not (is_finishing t.phase)))
      then (s, w)
      else (if phase_eq t.phase device_finished
          then (record s { transfer = some committed }, emit w (finished f))
          else (s, emit w (finished f)))

  unfoldable pub ingest_finished :
      ActiveLanPlayback → PlaybackFinished → ℕ → List ℕ → ℕ → World → ActiveLanPlayback × World
  unfolding ingest_finished_of
  ingest_finished s f source key now w = elim s.transfer [
    | none ↦
        let (w', outcome) = send_to net w source (encode_finished_ack c f.identity 0 key) in
        if is_retired s.retired_finish source f.identity now then (s, w') else (s, w)
    | some t ↦ ingest_finished_of s t f source now w
  ]

  unfoldable pub ingest :
      ActiveLanPlayback → List ℕ → ℕ → List ℕ → ℕ → World → ActiveLanPlayback × World
  ingest s packet source key now w =
      if bytes_eq (take 4 packet) eipr
      then (elim (decode_request c packet key) [
        | ok r ↦ ingest_request s r source w
        | err e ↦ (s, w)
      ])
      else (if bytes_eq (take 4 packet) eipa
          then (elim (decode_ack c packet key) [
            | ok ack ↦ accept_ack c net s ack source key now w
            | err e ↦ (s, w)
          ])
          else (if bytes_eq (take 4 packet) eipf
              then (elim (decode_finished c packet key) [
                | ok f ↦ ingest_finished s f source key now w
                | err e ↦ (s, w)
              ])
              else (s, w)))
