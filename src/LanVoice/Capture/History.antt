-- ===== src/LanVoice/Capture/History.antt =====
-- The rounds of the ingress worker in app/host/src/lan_voice.rs, as far as they touch the recordings:
-- a datagram is read in, idle recordings are dropped, and what is ready is taken.
use codex_keyboard_windows.Base.{ℕ, Option, List, [], ◌∷◌, ◌++◌, IsBytes, Result}
use codex_keyboard_windows.Crypto.{Crypto, IsMac}
use codex_keyboard_windows.LanVoice.Error.{LanVoiceError}
use codex_keyboard_windows.LanVoice.Capture.{
  CaptureAssembler, CompletedCapture, new, take_ready, expire_incomplete,
}
use codex_keyboard_windows.LanVoice.Capture.Ingest.{ingest}
use codex_keyboard_windows.LanVoice.Capture.Invariant.{AllReady, IsAssembler, new-IsAssembler}
use codex_keyboard_windows.LanVoice.Capture.Steps.{
  ingest-IsAssembler, expire_incomplete-IsAssembler,
}

-- One call on `assembler`.
pub data Call : Type 0 where
  receives : List ℕ → ℕ → ℕ → Call
  expires : ℕ → Call
  takes : Call

abbrev pub AllBytes : List Call → Type 0
AllBytes [] = Unit {0}
AllBytes (receives packet source now ∷ calls) = IsBytes packet × AllBytes calls
AllBytes (expires now ∷ calls) = AllBytes calls
AllBytes (takes ∷ calls) = AllBytes calls

module _ (c : Crypto) where
  -- The new state, and what was taken.
  unfoldable pub step :
      CaptureAssembler → Call → CaptureAssembler × List (Result LanVoiceError CompletedCapture)
  step s (receives packet source now) = ((ingest c s packet source now).0, [])
  step s (expires now) = ((expire_incomplete s now).0, [])
  step s takes = take_ready s

  unfoldable pub run :
      CaptureAssembler → List Call → CaptureAssembler × List (Result LanVoiceError CompletedCapture)
  run s [] = (s, [])
  run s (call ∷ calls) =
      let (s', taken) = step s call in let (s'', later) = run s' calls in (s'', taken ++ later)

  module _ (m : IsMac c) where
    AllReady-++ :
        (rs qs : List (Result LanVoiceError CompletedCapture))
        → AllReady rs
        → AllReady qs
        → AllReady (rs ++ qs)
    AllReady-++ [] qs h g = g
    AllReady-++ (r ∷ rs) qs h g = (h.0, AllReady-++ rs qs h.1 g)

    step-IsAssembler :
        (s : CaptureAssembler) (call : Call)
        → AllBytes (call ∷ [])
        → IsAssembler s
        → IsAssembler (step s call).0 × AllReady (step s call).1
    unfolding step take_ready
    step-IsAssembler s (receives p source now) b h =
        (ingest-IsAssembler c m s p source now b.0 h, tt)
    step-IsAssembler s (expires now) b h = (expire_incomplete-IsAssembler s now h, tt)
    step-IsAssembler s takes b h = (
      record {
        ordered = h.ordered;
        recordings = h.recordings;
        few = h.few;
        separate = h.separate;
        bounded = h.bounded;
        handed_over = tt;
      },
      h.handed_over,
    )

    run-IsAssembler :
        (s : CaptureAssembler) (calls : List Call)
        → AllBytes calls
        → IsAssembler s
        → IsAssembler (run s calls).0 × AllReady (run s calls).1
    unfolding run
    run-IsAssembler s [] b h = (h, tt)
    run-IsAssembler s (call ∷ calls) b h =
        let (b1, b2) = split_bytes call calls b in
        let (h1, r1) = step-IsAssembler s call b1 h in
        let (h2, r2) = run-IsAssembler (step s call).0 calls b2 h1 in
        (h2, AllReady-++ (step s call).1 (run (step s call).0 calls).1 r1 r2)
      where
        split_bytes :
            (call : Call) (calls : List Call)
            → AllBytes (call ∷ calls)
            → AllBytes (call ∷ []) × AllBytes calls
        split_bytes (receives p source now) calls b = ((b.0, tt), b.1)
        split_bytes (expires now) calls b = (tt, b)
        split_bytes takes calls b = (tt, b)

    -- From a new assembler, after any sequence of datagrams, timeouts and hand-overs, at most four
    -- recordings are active, each under its own session and none of them retired, each holds 640
    -- bytes for every frame counted, within 90 seconds, and waits for its end; at most 128
    -- sessions are retired; and every recording handed over so far, or ready to be, is a whole
    -- number of frames, at least 10, within 90 seconds.
    pub run-new-IsAssembler :
        (key : Option (List ℕ)) (calls : List Call)
        → AllBytes calls
        → IsAssembler (run (new key) calls).0 × AllReady (run (new key) calls).1
    run-new-IsAssembler key calls b = run-IsAssembler (new key) calls b (new-IsAssembler key)
