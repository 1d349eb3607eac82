-- ===== src/LanVoice/Playback/Chunks.antt =====
-- What one window of data packets carries.
use codex_keyboard_windows.Base.{
  ℕ, zero, suc, ◌+◌, ◌-◌, ◌*◌, ◌≤◌, ◌<◌, ◌≡◌, refl, sym, ap, ◌∙◌, inl, inr, true, Option, some,
  List, [], ◌∷◌, ◌++◌, length, arith, ltb, min, read, Option-cases, Bool-cases, Result, ok,
  Result-cases, append-nil, append_assoc, read-split, length-read, subst,
}
use codex_keyboard_windows.Crypto.{Crypto}
use codex_keyboard_windows.LanPlayback.{PlaybackWireError}
use codex_keyboard_windows.LanPlayback.Payload.{encode_data}
use codex_keyboard_windows.LanVoice.Playback.{World, ActivePlaybackTransfer, send_to}
use codex_keyboard_windows.LanVoice.Playback.Send.{all_sent, send_chunks, send_next_data}

-- Chunks with their offsets, one behind the other from `o` to `e`, none empty or above 1024 bytes.
abbrev pub IsRun : ℕ → ℕ → List (ℕ × List ℕ) → Type 0
IsRun o e [] = o ≡ e
IsRun o e ((at, payload) ∷ rest) =
    (at ≡ o) × (1 ≤ length payload) × (length payload ≤ 1024) × IsRun (o + length payload) e rest

abbrev pub payloads : List (ℕ × List ℕ) → List ℕ
payloads [] = []
payloads ((at, payload) ∷ rest) = payload ++ payloads rest

-- The datagrams are the encrypted chunks, to the device of the transfer.
abbrev pub Encodes :
    Crypto → ActivePlaybackTransfer → List ℕ → List (ℕ × List ℕ) → List (ℕ × List ℕ) → Type 0
Encodes c t key [] [] = Unit {0}
Encodes c t key [] (d ∷ ds) = ⊥
Encodes c t key (k ∷ ks) [] = ⊥
Encodes c t key ((at, payload) ∷ ks) ((to, packet) ∷ ds) =
    (to ≡ t.source)
    × (encode_data c t.begin.identity t.begin.request_nonce at payload key ≡ ok packet)
    × Encodes c t key ks ds

pub record IsWindow (c : Crypto) (t : ActivePlaybackTransfer) (key : List ℕ) (o e : ℕ)
    (w w' : World) : Type 0 where
  pub chunks : List (ℕ × List ℕ)
  pub datagrams : List (ℕ × List ℕ)
  pub in_order : IsRun o e chunks
  pub exact : payloads chunks ≡ read o (e - o) t.eiad
  pub few : 1024 * length chunks ≤ e - o + 1023
  pub encrypted : Encodes c t key chunks datagrams
  pub sent : w'.sent ≡ w.sent ++ datagrams

module _ (c : Crypto) (net : ℕ → Option ℕ) (t : ActivePlaybackTransfer) (key : List ℕ) where
  send_to-sent :
      (w : World) (to size : ℕ) (p : List ℕ)
      → (send_to net w to p).1 ≡ some size
      → (send_to net w to p).0.sent ≡ w.sent ++ ((to, p) ∷ [])
  unfolding send_to
  send_to-sent w to size p h = ground arith

  empty-IsWindow : (o e : ℕ) (w : World) → o ≡ e → IsWindow c t key o e w w
  empty-IsWindow o e w h = record {
    chunks = [];
    datagrams = [];
    in_order = h;
    exact = let z : e - o ≡ 0 = omega arith in rw z;
    few = omega arith;
    encrypted = tt;
    sent = sym (append-nil w.sent);
  }

  -- One more chunk before a window.
  longer-IsWindow :
      (o m e : ℕ) (w w1 w' : World) (packet : List ℕ)
      → o < e
      → m ≡ min (o + 1024) e
      → e ≤ length t.eiad
      → encode_data c t.begin.identity t.begin.request_nonce o (read o (m - o) t.eiad) key
        ≡ ok packet
      → w1.sent ≡ w.sent ++ ((t.source, packet) ∷ [])
      → IsWindow c t key m e w1 w'
      → IsWindow c t key o e w w'
  longer-IsWindow o m e w w1 w' packet lt hm he enc out k =
      let payload = read o (m - o) t.eiad in
      let n : length payload ≡ m - o = length-read o (m - o) t.eiad (omega arith) in
      let size : e - o ≡ (m - o) + (e - m) = omega arith in
      let next : o + (m - o) ≡ m = omega arith in
      record {
        chunks = (o, payload) ∷ k.chunks;
        datagrams = (t.source, packet) ∷ k.datagrams;
        in_order = (
          refl,
          omega arith,
          omega arith,
          subst (λ x. IsRun x e k.chunks) (sym (ap (λ x. o + x) n ∙ next)) k.in_order,
        );
        exact = rw (size, read-split o (m - o) (e - m) t.eiad, next) (ap (◌++◌ payload) k.exact);
        few = omega (arith, k.few);
        encrypted = (refl, enc, k.encrypted);
        sent =
            k.sent
            ∙ ap (λ x. x ++ k.datagrams) out
            ∙ append_assoc w.sent ((t.source, packet) ∷ []) k.datagrams;
      }

  chunk : ℕ → ℕ → Result PlaybackWireError (List ℕ)
  chunk o e =
      encode_data c t.begin.identity t.begin.request_nonce o (read o (min (o + 1024) e - o) t.eiad)
        key

  send_chunks-IsWindow :
      (fuel o e : ℕ) (w : World)
      → o ≤ e
      → e ≤ length t.eiad
      → e - o ≤ fuel
      → (send_chunks c net fuel t key o e w).1 ≡ all_sent
      → IsWindow c t key o e w (send_chunks c net fuel t key o e w).0
  unfolding send_chunks chunk
  send_chunks-IsWindow zero o e w le he f h = empty-IsWindow o e w (omega arith)
  send_chunks-IsWindow (suc fuel) o e w le he f h = elim (Bool-cases (ltb o e)) [
    | inr done ↦ rw (done, send_chunks) (empty-IsWindow o e w (ground (arith, done)))
    | inl more ↦
        let m = min (o + 1024) e in
        elim (Result-cases (chunk o e)) [
          | inr (x, bad) ↦ absurd (ground (arith, more, bad, h))
          | inl (packet, good) ↦ elim (Option-cases (send_to net w t.source packet).1) [
            | inl lost ↦ absurd (ground (arith, more, good, lost, h))
            | inr (size, out) ↦
                let w1 = (send_to net w t.source packet).0 in
                let lt : o < e = ground (arith, more) in
                let rest : (send_chunks c net fuel t key m e w1).1 ≡ all_sent =
                  ground (arith, more, good, out, h) in
                rw (more, good, out, send_chunks)
                  (longer-IsWindow o m e w w1 _ packet lt refl he good
                    (send_to-sent w t.source size packet out)
                    (send_chunks-IsWindow fuel m e w1 (omega arith) he (omega arith) rest))
          ]
        ]
  ]

  -- When `send_next_data` succeeds with the acknowledged offset inside the audio, the new end of
  -- the window is six chunks ahead or the end of the audio, and the datagrams it sent are, in
  -- order and to the device of the transfer, the encrypted chunks of at most 1024 bytes whose
  -- plaintexts put together are exactly the audio from the acknowledged offset to that end, no
  -- more of them than the window needs.
  pub send_next_data-IsWindow :
      (now : ℕ) (w : World)
      → t.acknowledged_offset ≤ length t.eiad
      → (send_next_data c net t key now w).2 ≡ true
      → let (t', w', sent) = send_next_data c net t key now w in
        (t'.sent_end_offset ≡ min (t.acknowledged_offset + 6 * 1024) (length t.eiad))
        × IsWindow c t key t.acknowledged_offset t'.sent_end_offset w w'
  unfolding send_next_data
  send_next_data-IsWindow now w h ok_sent =
      let o = t.acknowledged_offset in
      let e = min (o + 6 * 1024) (length t.eiad) in
      let all : (send_chunks c net (e - o) t key o e w).1 ≡ all_sent = ground (arith, ok_sent) in
      rw (all, send_next_data)
        (refl, send_chunks-IsWindow (e - o) o e w (omega arith) (omega arith) (omega arith) all)
