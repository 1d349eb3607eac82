-- ===== src/LanVoice/Playback/Overdue.antt =====
-- `tick` of app/host/src/lan_voice.rs on a transfer that waits for its end.
use codex_keyboard_windows.Base.{
  ℕ, ◌≤◌, ◌<◌, ◌≡◌, ◌⊎◌, ◌∙◌, refl, ap, true, false, Option, none, some, List, [], ◌∷◌, ◌++◌, map,
  arith, leb, Bool-cases, inl, inr,
}
use codex_keyboard_windows.Crypto.{Crypto}
use codex_keyboard_windows.LanVoice.Playback.{
  World, ActiveLanPlayback, ActivePlaybackTransfer, cancelled, is_finishing,
}
use codex_keyboard_windows.LanVoice.Playback.Ack.{cancel_transfer}
use codex_keyboard_windows.LanVoice.Playback.Tick.{tick_transfer, tick}
use codex_keyboard_windows.LanVoice.Playback.History.{ticks, step, run}

-- Ticks that all come before a time.
pub data AreBefore (deadline : ℕ) : List (Option (List ℕ) × ℕ) → Type 0 where
  no_tick : AreBefore deadline []
  and_before :
      (key : Option (List ℕ)) (now : ℕ) (times : List (Option (List ℕ) × ℕ))
      → now < deadline
      → AreBefore deadline times
      → AreBefore deadline ((key, now) ∷ times)

-- Ticks of which one comes at or after a time.
pub data IsReached (deadline : ℕ) : List (Option (List ℕ) × ℕ) → Type 0 where
  now_reached :
      (key : Option (List ℕ)) (now : ℕ) (times : List (Option (List ℕ) × ℕ))
      → deadline ≤ now
      → IsReached deadline ((key, now) ∷ times)
  later_reached :
      (key : Option (List ℕ)) (now : ℕ) (times : List (Option (List ℕ) × ℕ))
      → IsReached deadline times
      → IsReached deadline ((key, now) ∷ times)

module _ (c : Crypto) (net : ℕ → Option ℕ) where
  -- Without a transfer, ticks do nothing to the outside.
  run_idle :
      (s : ActiveLanPlayback) (times : List (Option (List ℕ) × ℕ)) (w : World)
      → s.transfer ≡ none
      → ((run c net s w (map (λ at. ticks at.0 at.1) times)).0.transfer ≡ none)
        × ((run c net s w (map (λ at. ticks at.0 at.1) times)).1 ≡ w)
  unfolding run step tick
  run_idle s [] w e = (e, refl)
  run_idle s ((key, now) ∷ times) w e =
      let idle : ((tick c net s key now w).0.transfer ≡ none) × ((tick c net s key now w).1 ≡ w) =
        rw (e, tick) (e, refl) in
      let (still, quiet) =
        run_idle (tick c net s key now w).0 times (tick c net s key now w).1 idle.0 in
      (still, quiet ∙ idle.1)

  tick-early :
      (s : ActiveLanPlayback) (t : ActivePlaybackTransfer) (key : Option (List ℕ)) (now : ℕ)
      (w : World)
      → s.transfer ≡ some t
      → is_finishing t.phase ≡ true
      → now < t.finish_deadline
      → ((tick c net s key now w).0.transfer ≡ some t) × ((tick c net s key now w).1 ≡ w)
  unfolding tick
  tick-early s t key now w e f d =
      let early : leb t.finish_deadline now ≡ false = ground (arith, d) in
      rw (e, tick, f, tick_transfer, early) (e, refl)

  tick-late :
      (s : ActiveLanPlayback) (t : ActivePlaybackTransfer) (key : Option (List ℕ)) (now : ℕ)
      (w : World)
      → s.transfer ≡ some t
      → is_finishing t.phase ≡ true
      → t.finish_deadline ≤ now
      → ((tick c net s key now w).0.transfer ≡ none)
        × ((tick c net s key now w).1
            ≡ record w { events = w.events ++ (cancelled t.begin.identity ∷ []) })
  unfolding tick cancel_transfer
  tick-late s t key now w e f d =
      let late : leb t.finish_deadline now ≡ true = ground (arith, d) in
      rw (e, tick, f, tick_transfer, late, cancel_transfer) (refl, refl)

  -- Under any ticks, with whatever keys and times and whatever the socket does, a transfer that
  -- waits for its end stays as it is, with nothing sent and no event queued, while no tick comes
  -- at or after its deadline; and it is over, with exactly one event queued, its cancellation, and
  -- nothing sent, once one has come.
  pub run-deadline :
      (s : ActiveLanPlayback) (t : ActivePlaybackTransfer) (times : List (Option (List ℕ) × ℕ))
      (w : World)
      → s.transfer ≡ some t
      → is_finishing t.phase ≡ true
      → (AreBefore t.finish_deadline times
          × ((run c net s w (map (λ at. ticks at.0 at.1) times)).0.transfer ≡ some t)
          × ((run c net s w (map (λ at. ticks at.0 at.1) times)).1 ≡ w))
        ⊎ (IsReached t.finish_deadline times
            × ((run c net s w (map (λ at. ticks at.0 at.1) times)).0.transfer ≡ none)
            × ((run c net s w (map (λ at. ticks at.0 at.1) times)).1
                ≡ record w { events = w.events ++ (cancelled t.begin.identity ∷ []) }))
  unfolding run step
  run-deadline s t [] w e f = inl (no_tick, e, refl)
  run-deadline s t ((key, now) ∷ times) w e f = elim (Bool-cases (leb t.finish_deadline now)) [
    | inl late ↦
        let d : t.finish_deadline ≤ now = ground (arith, late) in
        let (over, told) = tick-late s t key now w e f d in
        let (still, quiet) =
          run_idle (tick c net s key now w).0 times (tick c net s key now w).1 over in
        inr (now_reached key now times d, still, quiet ∙ told)
    | inr early ↦
        let d : now < t.finish_deadline = ground (arith, early) in
        let (goes_on, quiet) = tick-early s t key now w e f d in
        elim (run-deadline (tick c net s key now w).0 t times (tick c net s key now w).1 goes_on
          f) [
            | inl (before, stays, silent) ↦
                inl (and_before key now times d before, stays, silent ∙ quiet)
            | inr (reached, over, told) ↦ inr (
              later_reached key now times reached,
              over,
              told
                  ∙ ap {A = World} {B = World}
                      (λ v. record v { events = v.events ++ (cancelled t.begin.identity ∷ []) })
                      quiet,
            )
          ]
  ]
