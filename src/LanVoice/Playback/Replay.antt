-- ===== src/LanVoice/Playback/Replay.antt =====
-- A playback request is accepted at most once.
use codex_keyboard_windows.Base.{
  ℕ, ◌+◌, ◌≤◌, ◌≡◌, refl, true, false, ◌&&◌, Option, none, some, List, [], ◌∷◌, arith, ◌==◌, leb,
  if◌then◌else◌,
}
use codex_keyboard_windows.LanPlayback.{PlaybackRequest}
use codex_keyboard_windows.LanVoice.Playback.{ActiveLanPlayback}
use codex_keyboard_windows.LanVoice.Playback.Ingest.{
  lookup_floor, insert_floor, accept_request_generation,
}

lookup_floor-insert_floor :
    (a b a' b' g : ℕ) (fs : List (ℕ × ℕ × ℕ))
    → lookup_floor a' b' (insert_floor a b g fs)
      ≡ (if (a == a') && (b == b') then some g else lookup_floor a' b' fs)
unfolding lookup_floor insert_floor
lookup_floor-insert_floor a b a' b' g [] = refl
lookup_floor-insert_floor a b a' b' g ((s, k, floor) ∷ rest) =
    ground (arith, lookup_floor-insert_floor a b a' b' g rest)

-- The generation from which on requests of a slot and a connection are new; 0 before any.
abbrev pub floor_of : Option ℕ → ℕ
floor_of none = 0
floor_of (some g) = g + 1

unfoldable pub next_generation : ActiveLanPlayback → ℕ → ℕ → ℕ
next_generation s slot connection = floor_of (lookup_floor slot connection s.accepted_requests)

-- A request is accepted exactly if its generation is at least the lowest one that its slot and
-- connection still accept, which is 0 before any request.
pub accept_request_generation_iff :
    (s : ActiveLanPlayback) (r : PlaybackRequest)
    → (accept_request_generation s r).1
      ≡ leb (next_generation s r.slot r.connection_generation) r.request_generation
unfolding accept_request_generation next_generation
accept_request_generation_iff s r = ground arith

-- After a request, the lowest generation that a slot and connection still accept is one above the
-- request's if it was accepted and is of that slot and connection, and what it was before
-- otherwise.
pub next_generation-accept :
    (s : ActiveLanPlayback) (r : PlaybackRequest) (slot connection : ℕ)
    → next_generation (accept_request_generation s r).0 slot connection ≡ (
        if (accept_request_generation s r).1
          && ((r.slot == slot) && (r.connection_generation == connection))
        then r.request_generation + 1
        else next_generation s slot connection)
unfolding accept_request_generation next_generation
next_generation-accept s r slot connection = ground (
  arith,
  lookup_floor-insert_floor r.slot r.connection_generation slot connection r.request_generation
      s.accepted_requests,
)

-- The requests that arrive, with the state after them.
unfoldable pub accept_all : ActiveLanPlayback → List PlaybackRequest → ActiveLanPlayback
accept_all s [] = s
accept_all s (r ∷ rs) = accept_all (accept_request_generation s r).0 rs

next_generation_mono :
    (s : ActiveLanPlayback) (rs : List PlaybackRequest) (slot connection : ℕ)
    → next_generation s slot connection ≤ next_generation (accept_all s rs) slot connection
unfolding accept_all
next_generation_mono s [] slot connection = omega arith
next_generation_mono s (r ∷ rs) slot connection = ground (
  arith,
  next_generation_mono (accept_request_generation s r).0 rs slot connection,
  next_generation-accept s r slot connection,
  accept_request_generation_iff s r,
)

-- Once a playback request is accepted, and after any further requests, no request of the same slot
-- and connection with that generation or a lower one is accepted.
pub accept_request_generation_once :
    (s : ActiveLanPlayback) (r r' : PlaybackRequest) (rs : List PlaybackRequest)
    → (accept_request_generation s r).1 ≡ true
    → r'.slot ≡ r.slot
    → r'.connection_generation ≡ r.connection_generation
    → r'.request_generation ≤ r.request_generation
    → (accept_request_generation (accept_all (accept_request_generation s r).0 rs) r').1 ≡ false
accept_request_generation_once s r r' rs h a b old =
    let s1 = (accept_request_generation s r).0 in
    let floor : next_generation s1 r'.slot r'.connection_generation ≡ r.request_generation + 1 =
      ground (arith, a, b, h, next_generation-accept s r r'.slot r'.connection_generation) in
    ground (
      arith,
      floor,
      next_generation_mono s1 rs r'.slot r'.connection_generation,
      accept_request_generation_iff (accept_all s1 rs) r',
    )
