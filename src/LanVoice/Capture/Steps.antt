-- ===== src/LanVoice/Capture/Steps.antt =====
-- Every datagram and every timeout keeps the invariant of `CaptureAssembler`.
use codex_keyboard_windows.Base.{
  ℕ, ◌+◌, ◌-◌, ◌*◌, ◌≤◌, ◌≡◌, refl, sym, true, false, not, ◌||◌, some, List, [], ◌∷◌, ◌++◌, length,
  arith, ltb, leb, ◌==◌, length-append, length-replicate, replicate, Bool-cases, Option-cases,
  Result-cases, inl, inr, subst, IsBytes, bytes_eq, take, ◌&&◌,
}
use codex_keyboard_windows.Crypto.{Crypto, IsMac}
use codex_keyboard_windows.LanVoice.Error.{LanVoiceError}
use codex_keyboard_windows.LanVoice.Frames.{
  ParsedFrame, ParsedEnd, parse_audio_frame, parse_audio_end, eiae,
}
use codex_keyboard_windows.LanVoice.Frames.Laws.{parse_audio_frame-IsFrame}
use codex_keyboard_windows.LanVoice.Capture.{
  CaptureAssembler, ActiveCapture, contains, lookup, insert, drop_session, finish, complete,
  idle_sessions, expire_all, expire_incomplete,
}
use codex_keyboard_windows.LanVoice.Capture.Ingest.{
  session_eq, after_end, is_final, append_frame, store_capture, accept_frame, new_capture,
  ingest_frame, set_end, accept_end, ingest_terminal, not_a_frame, ingest_end, ingest,
}
use codex_keyboard_windows.LanVoice.Capture.Maps.{
  IsMap, AllCaptures-lookup, length-insert-le, length-insert_known, lookup-insert_self,
  remove-insert_self, insert-IsMap, lookup_absent,
}
use codex_keyboard_windows.LanVoice.Capture.Invariant.{
  IsOpen, IsActive, IsAssembler, retire-IsAssembler, drop_session-IsAssembler, insert-IsAssembler,
  finish-IsReady, push_ready-IsAssembler,
}

-- A recording that is written and handed over at once leaves as if it had been dropped.
complete-insert :
    (s : CaptureAssembler) (id : ℕ) (a : ActiveCapture)
    → IsMap s.active
    → complete (record s { active = insert id a s.active }) id
      ≡ record (drop_session s id) { ready = (drop_session s id).ready ++ (finish a ∷ []) }
unfolding complete drop_session
complete-insert s id a h =
    rw (lookup-insert_self id a s.active, complete, remove-insert_self id a s.active h) refl

complete-IsAssembler :
    (s : CaptureAssembler) (id : ℕ) (a : ActiveCapture)
    → IsOpen id a
    → IsAssembler s
    → IsAssembler (complete (record s { active = insert id a s.active }) id)
complete-IsAssembler s id a v h = rw (complete-insert s id a h.ordered) (
    push_ready-IsAssembler (drop_session s id) (finish a) (finish-IsReady id a v)
      (drop_session-IsAssembler s id h))

-- A recording without an end is put back.
store_unended :
    (s : CaptureAssembler) (id : ℕ) (a : ActiveCapture)
    → IsActive id a
    → contains s.retired id ≡ false
    → length (insert id a s.active) ≤ 4
    → IsAssembler s
    → IsAssembler (store_capture s id a)
unfolding store_capture
store_unended s id a v free room h =
    let open_ended : is_final a.final_sequence a.next_sequence ≡ false =
      subst (λ o. is_final o a.next_sequence ≡ false) (sym v.unended) refl in
    rw (open_ended, store_capture) (insert-IsAssembler s id a v free room h)

-- A recording whose end is its next frame is handed over.
store_ended :
    (s : CaptureAssembler) (id : ℕ) (a : ActiveCapture)
    → IsOpen id a
    → is_final a.final_sequence a.next_sequence ≡ true
    → IsAssembler s
    → IsAssembler (store_capture s id a)
unfolding store_capture
store_ended s id a v final h = rw (final, store_capture) (complete-IsAssembler s id a v h)

append_frame-IsActive :
    (id : ℕ) (a : ActiveCapture) (f : ParsedFrame) (now : ℕ)
    → IsActive id a
    → length f.payload ≡ 640
    → a.next_sequence ≤ f.sequence
    → length a.pcm + ((f.sequence - a.next_sequence) * 640 + length f.payload) ≤ 2880000
    → IsActive id (append_frame a f now)
unfolding append_frame
append_frame-IsActive id a f now v whole order fits =
    let missing = f.sequence - a.next_sequence in
    let silence = length-replicate {A = ℕ} (missing * 640) 0 in
    let inner = length-append (replicate (missing * 640) 0) f.payload in
    let outer = length-append a.pcm (replicate (missing * 640) 0 ++ f.payload) in
    record {
      opened = record {
        keyed = v.opened.keyed;
        counted = omega (arith, v.opened.counted, outer, inner, silence, whole, fits, order);
        small = omega (arith, outer, inner, silence, fits);
      };
      unended = v.unended;
    }

-- A frame that is accepted, refused or repeated, of a recording that is active or just opened.
accept_frame-IsAssembler :
    (s : CaptureAssembler) (a : ActiveCapture) (f : ParsedFrame) (source now : ℕ)
    → IsActive f.session_id a
    → contains s.retired f.session_id ≡ false
    → ((b : ActiveCapture) → length (insert f.session_id b s.active) ≤ 4)
    → length f.payload ≡ 640
    → IsAssembler s
    → IsAssembler (accept_frame s a f source now).0
unfolding accept_frame
accept_frame-IsAssembler s a f source now v free room whole h =
    let dropped = drop_session-IsAssembler s f.session_id h in
    let repeated : IsActive f.session_id (record a { last_frame_at = now }) = record {
      opened = record {
        keyed = v.opened.keyed;
        counted = v.opened.counted;
        small = v.opened.small;
      };
      unended = v.unended;
    } in
    let added = (f.sequence - a.next_sequence) * 640 + length f.payload in
    elim (Bool-cases (
      not (a.source == source)
      || (not (session_eq a.identity f.identity) || after_end a.final_sequence f.sequence))) [
        | inl refused ↦ rw (refused, accept_frame) dropped
        | inr same ↦ elim (Bool-cases (ltb f.sequence a.next_sequence)) [
          | inl old ↦
              rw (same, accept_frame, old)
                (insert-IsAssembler s f.session_id _ repeated free (room _) h)
          | inr fresh ↦ elim (Bool-cases (ltb 10 (f.sequence - a.next_sequence))) [
            | inl gap ↦ rw (same, accept_frame, fresh, gap) dropped
            | inr near ↦ elim (Bool-cases (ltb 2880000 (length a.pcm + added))) [
              | inl long ↦ rw (same, accept_frame, fresh, near, long) dropped
              | inr fits ↦
                  rw (same, accept_frame, fresh, near, fits)
                    (store_unended s f.session_id (append_frame a f now)
                      (append_frame-IsActive f.session_id a f now v whole (ground (arith, fresh))
                        (ground (arith, fits)))
                      free (room _) h)
            ]
          ]
        ]
      ]

-- An end that is accepted or refused, of a recording that is active.
set_end-IsAssembler :
    (s : CaptureAssembler) (a : ActiveCapture) (e : ParsedEnd) (now : ℕ)
    → IsActive e.session_id a
    → a.next_sequence ≤ e.final_sequence
    → e.final_sequence * 640 ≤ 2880000
    → IsAssembler s
    → IsAssembler (set_end s a e now).0
unfolding set_end
set_end-IsAssembler s a e now v order fits h =
    let missing = e.final_sequence - a.next_sequence in
    let silence = length-replicate {A = ℕ} (missing * 640) 0 in
    let outer = length-append a.pcm (replicate (missing * 640) 0) in
    let ended : ActiveCapture = record a {
      pcm = a.pcm ++ replicate (missing * 640) 0;
      next_sequence = e.final_sequence;
      last_frame_at = now;
      final_sequence = some e.final_sequence;
    } in
    elim (Bool-cases (ltb 10 missing)) [
      | inl gap ↦ rw (gap, set_end) (drop_session-IsAssembler s e.session_id h)
      | inr near ↦
          rw (near, set_end)
            (store_ended s e.session_id ended
              (record {
                keyed = v.opened.keyed;
                counted = omega (arith, v.opened.counted, outer, silence, order);
                small = omega (arith, v.opened.counted, outer, silence, order, fits);
              })
              (ground arith) h)
    ]

accept_end-IsAssembler :
    (s : CaptureAssembler) (a : ActiveCapture) (e : ParsedEnd) (source now : ℕ)
    → IsActive e.session_id a
    → IsAssembler s
    → IsAssembler (accept_end s a e source now).0
unfolding accept_end
accept_end-IsAssembler s a e source now v h =
    let refusal =
      not (a.source == source)
      || (not (session_eq a.identity e.identity)
          || (ltb e.final_sequence a.next_sequence || ltb 2880000 (e.final_sequence * 640))) in
    elim (Bool-cases refusal) [
      | inl refused ↦ rw (refused, accept_end) (drop_session-IsAssembler s e.session_id h)
      | inr same ↦
          rw (same, accept_end, v.unended)
            (set_end-IsAssembler s a e now v (ground (arith, same)) (ground (arith, same)) h)
    ]

new_capture-IsActive :
    (f : ParsedFrame) (source now : ℕ) → IsActive f.session_id (new_capture f source now)
unfolding new_capture
new_capture-IsActive f source now = record {
  opened = record { keyed = refl; counted = refl; small = omega arith };
  unended = refl;
}

ingest_frame-IsAssembler :
    (s : CaptureAssembler) (f : ParsedFrame) (source now : ℕ)
    → length f.payload ≡ 640
    → IsAssembler s
    → IsAssembler (ingest_frame s f source now).0
unfolding ingest_frame
ingest_frame-IsAssembler s f source now whole h =
    elim (Bool-cases (contains s.retired f.session_id)) [
      | inl old ↦ rw (old, ingest_frame) h
      | inr free ↦ elim (Option-cases (lookup f.session_id s.active)) [
        | inl absent ↦ elim (Bool-cases (ltb 10 f.sequence)) [
          | inl late ↦
              rw (free, ingest_frame, absent, late)
                (retire-IsAssembler s f.session_id (lookup_absent f.session_id s.active absent) h)
          | inr early ↦ elim (Bool-cases (leb 4 (length s.active))) [
            | inl full ↦
                rw (free, ingest_frame, absent, early, full)
                  (retire-IsAssembler s f.session_id (lookup_absent f.session_id s.active absent) h)
            | inr room ↦
                let a = new_capture f source now in
                let v = new_capture-IsActive f source now in
                let opened_size : length (insert f.session_id a s.active) ≤ 4 =
                  ground (arith, room, length-insert-le f.session_id a s.active) in
                let again : (b : ActiveCapture)
                    → length (insert f.session_id b (insert f.session_id a s.active)) ≤ 4 =
                  (λ b. ground (
                    arith,
                    opened_size,
                    length-insert_known f.session_id b a (insert f.session_id a s.active)
                        (insert-IsMap f.session_id a s.active h.ordered)
                        (lookup-insert_self f.session_id a s.active),
                  )) in
                rw (free, ingest_frame, absent, early, room)
                  (accept_frame-IsAssembler (record s { active = insert f.session_id a s.active }) a
                    f source now v free again whole
                    (insert-IsAssembler s f.session_id a v free opened_size h))
          ]
        ]
        | inr (a, known) ↦
            rw (free, ingest_frame, known)
              (accept_frame-IsAssembler s a f source now
                (AllCaptures-lookup IsActive f.session_id a s.active h.recordings known) free
                (λ b.
                  ground
                    (arith, h.few, length-insert_known f.session_id b a s.active h.ordered known))
                whole h)
      ]
    ]

ingest_terminal-IsAssembler :
    (s : CaptureAssembler) (e : ParsedEnd) (source now : ℕ)
    → IsAssembler s
    → IsAssembler (ingest_terminal s e source now).0
unfolding ingest_terminal
ingest_terminal-IsAssembler s e source now h = elim (Bool-cases (contains s.retired e.session_id)) [
  | inl old ↦ rw (old, ingest_terminal) h
  | inr free ↦ elim (Option-cases (lookup e.session_id s.active)) [
    | inl absent ↦ rw (free, ingest_terminal, absent) h
    | inr (a, known) ↦
        rw (free, ingest_terminal, known)
          (accept_end-IsAssembler s a e source now
            (AllCaptures-lookup IsActive e.session_id a s.active h.recordings known) h)
  ]
]

not_a_frame-IsAssembler :
    (s : CaptureAssembler) (p : List ℕ) (e : LanVoiceError)
    → IsAssembler s
    → IsAssembler (not_a_frame s p e).0
not_a_frame-IsAssembler s p e h = subst IsAssembler (sym same) h
  where
    same : (not_a_frame s p e).0 ≡ s
    same = ground arith

module _ (c : Crypto) (mac : IsMac c) where
  ingest_end-IsAssembler :
      (s : CaptureAssembler) (p : List ℕ) (source now : ℕ)
      → IsAssembler s
      → IsAssembler (ingest_end c s p source now).0
  unfolding ingest_end
  ingest_end-IsAssembler s p source now h = elim (Result-cases (parse_audio_end c p s.auth_key)) [
    | inr (e, refused) ↦ rw (refused, ingest_end) h
    | inl (e, parsed) ↦ rw (parsed, ingest_end) (ingest_terminal-IsAssembler s e source now h)
  ]

  -- Every datagram.
  pub ingest-IsAssembler :
      (s : CaptureAssembler) (p : List ℕ) (source now : ℕ)
      → IsBytes p
      → IsAssembler s
      → IsAssembler (ingest c s p source now).0
  unfolding ingest
  ingest-IsAssembler s p source now b h =
      elim (Bool-cases (leb 4 (length p) && bytes_eq (take 4 p) eiae)) [
        | inl end ↦ rw (end, ingest) (ingest_end-IsAssembler s p source now h)
        | inr other ↦ elim (Result-cases (parse_audio_frame c p s.auth_key)) [
          | inr (e, refused) ↦ rw (other, ingest, refused) (not_a_frame-IsAssembler s p e h)
          | inl (f, parsed) ↦
              rw (other, ingest, parsed)
                (ingest_frame-IsAssembler s f source now
                  (parse_audio_frame-IsFrame c mac p s.auth_key f b parsed).payload_size h)
        ]
      ]

expire_all-IsAssembler :
    (s : CaptureAssembler) (ks : List ℕ) → IsAssembler s → IsAssembler (expire_all s ks).0
unfolding expire_all
expire_all-IsAssembler s [] h = h
expire_all-IsAssembler s (k ∷ ks) h = elim (Option-cases (lookup k s.active)) [
  | inl gone ↦ rw (gone, expire_all) (expire_all-IsAssembler s ks h)
  | inr (a, known) ↦
      rw (known, expire_all)
        (expire_all-IsAssembler (drop_session s k) ks (drop_session-IsAssembler s k h))
]

pub expire_incomplete-IsAssembler :
    (s : CaptureAssembler) (now : ℕ) → IsAssembler s → IsAssembler (expire_incomplete s now).0
unfolding expire_incomplete
expire_incomplete-IsAssembler s now h = expire_all-IsAssembler s (idle_sessions now s.active) h
