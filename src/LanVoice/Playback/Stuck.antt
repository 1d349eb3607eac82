-- ===== src/LanVoice/Playback/Stuck.antt =====
-- When `tick` of app/host/src/lan_voice.rs gives a transfer up, and when it never does.
use codex_keyboard_windows.Base.{
  ℕ, ◌+◌, ◌-◌, ◌≤◌, ◌<◌, ◌≡◌, refl, ◌⊎◌, true, false, Option, none, some, List, arith, ltb, leb,
  Bool-cases, Option-cases, inl, inr, zero, suc, ◌∷◌, [], ◌∙◌, map,
}
use codex_keyboard_windows.Crypto.{Crypto}
use codex_keyboard_windows.LanVoice.Playback.{
  World, ActiveLanPlayback, ActivePlaybackTransfer, begin_ack, is_finishing, is_sent, send_to,
}
use codex_keyboard_windows.LanVoice.Playback.Ack.{cancel_transfer}
use codex_keyboard_windows.LanVoice.Playback.Tick.{
  expire_retired, resend, retry_transfer, tick_transfer, tick,
}
use codex_keyboard_windows.LanVoice.Playback.History.{ticks, step, run}

module _ (c : Crypto) (net : ℕ → Option ℕ) where
  -- A transfer that still has attempts, with the three cases of what an attempt does.
  tick_transfer-waits :
      (s : ActiveLanPlayback) (t : ActivePlaybackTransfer) (key : Option (List ℕ)) (now : ℕ)
      (w : World)
      → is_finishing t.phase ≡ false
      → t.retry_count < 16
      → (tick_transfer c net s t key now w ≡ (s, w))
        ⊎ (tick_transfer c net s t key now w ≡ retry_transfer c net s t key now w)
  unfolding tick_transfer
  tick_transfer-waits s t key now w f d =
      let left : leb 16 t.retry_count ≡ false = ground (arith, d) in
      elim (Bool-cases (ltb (now - t.last_send) 250)) [
        | inl early ↦ inl (rw (f, tick_transfer, early) refl)
        | inr due ↦ inr (rw (f, tick_transfer, due, left) refl)
      ]

  -- While no key is loaded, a tick on a transfer with attempts left, which does not wait for its
  -- end, leaves the transfer as it is and does nothing, at whatever time.
  pub tick-keyless :
      (s : ActiveLanPlayback) (t : ActivePlaybackTransfer) (now : ℕ) (w : World)
      → s.transfer ≡ some t
      → is_finishing t.phase ≡ false
      → t.retry_count < 16
      → ((tick c net s none now w).0.transfer ≡ some t) × ((tick c net s none now w).1 ≡ w)
  unfolding tick retry_transfer
  tick-keyless s t now w e f d =
      let s' = record s {
        retired_finish = expire_retired s.retired_finish now;
        retired_cancel = expire_retired s.retired_cancel now;
      } in
      elim (tick_transfer-waits s' t none now w f d) [
        | inl still ↦ rw (e, tick, still) (e, refl)
        | inr retried ↦ rw (e, tick, retried) (e, refl)
      ]

  -- An attempt to repeat a begin packet while the socket refuses.
  retry_unsent :
      (s : ActiveLanPlayback) (t : ActivePlaybackTransfer) (key : Option (List ℕ)) (now : ℕ)
      (w : World)
      → t.phase ≡ begin_ack
      → net w.calls ≡ none
      → (calls : ℕ) × (retry_transfer c net s t key now w ≡ (s, record w { calls = calls }))
  unfolding retry_transfer resend send_to
  retry_unsent s t none now w f n = (w.calls, refl)
  retry_unsent s t (some k) now w f n = (w.calls + 1, rw (f, resend, n, send_to) refl)

  -- One tick that cannot send the begin packet again.
  tick-unsent :
      (s : ActiveLanPlayback) (t : ActivePlaybackTransfer) (key : Option (List ℕ)) (now : ℕ)
      (w : World)
      → s.transfer ≡ some t
      → t.phase ≡ begin_ack
      → t.retry_count < 16
      → net w.calls ≡ none
      → ((tick c net s key now w).0.transfer ≡ some t)
        × ((tick c net s key now w).1.sent ≡ w.sent)
        × ((tick c net s key now w).1.events ≡ w.events)
  unfolding tick
  tick-unsent s t key now w e f d n =
      let s' = record s {
        retired_finish = expire_retired s.retired_finish now;
        retired_cancel = expire_retired s.retired_cancel now;
      } in
      elim (tick_transfer-waits s' t key now w (rw f refl) d) [
        | inl still ↦ rw (e, tick, still) (e, refl, refl)
        | inr retried ↦
            let (calls, refused) = retry_unsent s' t key now w f n in
            rw (e, tick, retried, refused) (e, refl, refl)
      ]

  -- While every send fails, a transfer that waits for the acknowledgement of its begin packet and
  -- has attempts left stays as it is after any number of ticks, at whatever times and with
  -- whatever keys, its number of attempts included; nothing is sent and no event is queued.
  pub run-unsent :
      (s : ActiveLanPlayback) (t : ActivePlaybackTransfer) (times : List (Option (List ℕ) × ℕ))
      (w : World)
      → ((n : ℕ) → net n ≡ none)
      → s.transfer ≡ some t
      → t.phase ≡ begin_ack
      → t.retry_count < 16
      → ((run c net s w (map (λ at. ticks at.0 at.1) times)).0.transfer ≡ some t)
        × ((run c net s w (map (λ at. ticks at.0 at.1) times)).1.sent ≡ w.sent)
        × ((run c net s w (map (λ at. ticks at.0 at.1) times)).1.events ≡ w.events)
  unfolding run step
  run-unsent s t [] w down e f d = (e, refl, refl)
  run-unsent s t (at ∷ times) w down e f d =
      let (s', w') = tick c net s at.0 at.1 w in
      let (still, unsent, quiet) = tick-unsent s t at.0 at.1 w e f d (down w.calls) in
      let (stays, sent, events) = run-unsent s' t times w' down still f d in
      (stays, sent ∙ unsent, events ∙ quiet)

  -- The state after a number of ticks, one every 250 ms.
  unfoldable pub ticks_every :
      ℕ → ActiveLanPlayback → List ℕ → ℕ → World → ActiveLanPlayback × World
  ticks_every zero s key now w = (s, w)
  ticks_every (suc n) s key now w =
      let (s', w') = tick c net s (some key) now w in ticks_every n s' key (now + 250) w'

  -- Without a transfer, no tick brings one back.
  ticks_every-none :
      (n : ℕ) (s : ActiveLanPlayback) (key : List ℕ) (now : ℕ) (w : World)
      → s.transfer ≡ none
      → (ticks_every n s key now w).0.transfer ≡ none
  unfolding ticks_every tick
  ticks_every-none zero s key now w e = e
  ticks_every-none (suc n) s key now w e =
      let over : (tick c net s (some key) now w).0.transfer ≡ none = rw (e, tick) e in
      ticks_every-none n _ key (now + 250) _ over

  -- One tick that is due.
  tick-due :
      (s : ActiveLanPlayback) (t : ActivePlaybackTransfer) (key : List ℕ) (now : ℕ) (w : World)
      → ((n : ℕ) → is_sent (net n) ≡ true)
      → s.transfer ≡ some t
      → t.phase ≡ begin_ack
      → t.last_send + 250 ≤ now
      → t.retry_count < 16
      → (tick c net s (some key) now w).0.transfer
        ≡ some (record t { retry_count = t.retry_count + 1; last_send = now })
  unfolding tick retry_transfer resend send_to
  tick-due s t key now w net_up e f d r =
      let due : ltb (now - t.last_send) 250 ≡ false = ground (arith, d) in
      let left : leb 16 t.retry_count ≡ false = ground (arith, r) in
      elim (Option-cases (net w.calls)) [
        | inl down ↦ absurd (ground (arith, net_up w.calls, down))
        | inr (size, up) ↦
            rw (e, tick, f, tick_transfer, due, left, retry_transfer, resend, send_to, up) refl
      ]

  -- While the device does not acknowledge the begin packet and the socket takes every datagram,
  -- ticks every 250 ms, the first of them 250 ms after the last attempt, give the transfer up: one
  -- tick for each attempt left of the 16, and one more.
  pub ticks_every-gives_up :
      (left : ℕ) (s : ActiveLanPlayback) (t : ActivePlaybackTransfer) (key : List ℕ) (now : ℕ)
      (w : World)
      → ((n : ℕ) → is_sent (net n) ≡ true)
      → s.transfer ≡ some t
      → t.phase ≡ begin_ack
      → t.last_send + 250 ≤ now
      → t.retry_count + left ≡ 16
      → (ticks_every (suc left) s key now w).0.transfer ≡ none
  unfolding ticks_every tick cancel_transfer
  ticks_every-gives_up zero s t key now w net_up e f d r =
      let due : ltb (now - t.last_send) 250 ≡ false = ground (arith, d) in
      let used_up : leb 16 t.retry_count ≡ true = ground (arith, r) in
      rw (e, tick, f, tick_transfer, due, used_up, cancel_transfer) refl
  ticks_every-gives_up (suc left) s t key now w net_up e f d r =
      let once = tick-due s t key now w net_up e f d (omega (arith, r)) in
      ticks_every-gives_up left _ (record t { retry_count = t.retry_count + 1; last_send = now })
        key (now + 250) _ net_up once f (omega arith) (omega (arith, r))
