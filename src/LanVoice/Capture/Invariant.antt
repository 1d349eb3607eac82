-- ===== src/LanVoice/Capture/Invariant.antt =====
-- What holds of `CaptureAssembler` between two datagrams, and the moves that keep it.
use codex_keyboard_windows.Base.{
  ℕ, ◌*◌, ◌≤◌, ◌≡◌, ◌≢◌, false, Option, none, List, [], ◌∷◌, ◌++◌, length, arith, ltb, Result, ok,
  err, Bool-cases, inl, inr,
}
use codex_keyboard_windows.LanVoice.Error.{LanVoiceError}
use codex_keyboard_windows.LanVoice.Capture.{
  CaptureAssembler, ActiveCapture, CompletedCapture, new, contains, insert, remove, trim, retire,
  drop_session, finish,
}
use codex_keyboard_windows.LanVoice.Capture.Maps.{
  Captures, AllCaptures, IsMap, AllCaptures-insert, AllCaptures-remove, insert-IsMap, remove-IsMap,
  remove_absent, length-remove-le, contains-append, length-trim, contains-trim,
}

-- A recording holds 640 bytes for each of its frames, within 90 seconds.
pub record IsOpen (k : ℕ) (a : ActiveCapture) : Type 0 where
  pub keyed : a.session_id ≡ k
  pub counted : length a.pcm ≡ a.next_sequence * 640
  pub small : length a.pcm ≤ 2880000

-- A recording that is active has not been ended: its end hands it over at once.
pub record IsActive (k : ℕ) (a : ActiveCapture) : Type 0 where
  pub opened : IsOpen k a
  pub unended : a.final_sequence ≡ none

-- What is handed over: whole frames, at least 10 of them, within 90 seconds.
abbrev pub IsReady : Result LanVoiceError CompletedCapture → Type 0
IsReady (err e) = Unit {0}
IsReady (ok capture) =
    (frames : ℕ) × (length capture.pcm ≡ frames * 640)
    × (10 ≤ frames)
    × (length capture.pcm ≤ 2880000)

abbrev pub AllReady : List (Result LanVoiceError CompletedCapture) → Type 0
AllReady [] = Unit {0}
AllReady (r ∷ rs) = IsReady r × AllReady rs

abbrev pub Separate : List ℕ → ℕ → ActiveCapture → Type 0
Separate retired k a = contains retired k ≡ false

pub record IsAssembler (s : CaptureAssembler) : Type 0 where
  pub ordered : IsMap s.active
  pub recordings : AllCaptures IsActive s.active
  pub few : length s.active ≤ 4
  pub separate : AllCaptures (Separate s.retired) s.active
  pub bounded : length s.retired ≤ 128
  pub handed_over : AllReady s.ready

pub new-IsAssembler : (key : Option (List ℕ)) → IsAssembler (new key)
unfolding new
new-IsAssembler key = record {
  ordered = tt;
  recordings = tt;
  few = omega arith;
  separate = tt;
  bounded = omega arith;
  handed_over = tt;
}

-- Retiring a session that is not active.
pub retire-IsAssembler :
    (s : CaptureAssembler) (id : ℕ)
    → AllCaptures (λ k _. k ≢ id) s.active
    → IsAssembler s
    → IsAssembler (retire s id)
unfolding retire
retire-IsAssembler s id absent h = elim (Bool-cases (contains s.retired id)) [
  | inl old ↦ rw (old, retire) h
  | inr new_one ↦
      rw (new_one, retire)
        (record {
          ordered = h.ordered;
          recordings = h.recordings;
          few = h.few;
          separate = still_separate s.active absent h.separate;
          bounded = length-trim (s.retired ++ (id ∷ []));
          handed_over = h.handed_over;
        })
]
  where
    one :
        (k : ℕ)
        → k ≢ id
        → contains s.retired k ≡ false
        → contains (trim (s.retired ++ (id ∷ []))) k ≡ false
    one k ne q =
        contains-trim (s.retired ++ (id ∷ [])) k (ground (arith, contains-append s.retired id k, q))

    still_separate :
        (m : Captures)
        → AllCaptures (λ k _. k ≢ id) m
        → AllCaptures (Separate s.retired) m
        → AllCaptures (Separate (trim (s.retired ++ (id ∷ [])))) m
    still_separate [] a q = tt
    still_separate ((k, b) ∷ rest) a q = (one k a.0 q.0, still_separate rest a.1 q.1)

remove-IsAssembler :
    (s : CaptureAssembler) (id : ℕ)
    → IsAssembler s
    → IsAssembler (record s { active = remove id s.active })
remove-IsAssembler s id h = record {
  ordered = remove-IsMap id s.active h.ordered;
  recordings = AllCaptures-remove IsActive id s.active h.recordings;
  few = omega (arith, length-remove-le id s.active, h.few);
  separate = AllCaptures-remove (Separate s.retired) id s.active h.separate;
  bounded = h.bounded;
  handed_over = h.handed_over;
}

pub drop_session-IsAssembler :
    (s : CaptureAssembler) (id : ℕ) → IsAssembler s → IsAssembler (drop_session s id)
unfolding drop_session
drop_session-IsAssembler s id h =
    retire-IsAssembler (record s { active = remove id s.active }) id
      (remove_absent id s.active h.ordered) (remove-IsAssembler s id h)

-- A recording is written at a key that is active, or at a new one while there is room.
pub insert-IsAssembler :
    (s : CaptureAssembler) (id : ℕ) (a : ActiveCapture)
    → IsActive id a
    → contains s.retired id ≡ false
    → length (insert id a s.active) ≤ 4
    → IsAssembler s
    → IsAssembler (record s { active = insert id a s.active })
insert-IsAssembler s id a v free room h = record {
  ordered = insert-IsMap id a s.active h.ordered;
  recordings = AllCaptures-insert IsActive id a s.active v h.recordings;
  few = room;
  separate = AllCaptures-insert (Separate s.retired) id a s.active free h.separate;
  bounded = h.bounded;
  handed_over = h.handed_over;
}

AllReady-append :
    (rs : List (Result LanVoiceError CompletedCapture)) (r : Result LanVoiceError CompletedCapture)
    → AllReady rs
    → IsReady r
    → AllReady (rs ++ (r ∷ []))
AllReady-append [] r h q = (q, tt)
AllReady-append (x ∷ xs) r h q = (h.0, AllReady-append xs r h.1 q)

pub finish-IsReady : (k : ℕ) (a : ActiveCapture) → IsOpen k a → IsReady (finish a)
unfolding finish
finish-IsReady k a v = elim (Bool-cases (ltb a.next_sequence 10)) [
  | inl short ↦ rw (short, finish) tt
  | inr long ↦ rw (long, finish) (a.next_sequence, v.counted, ground (arith, long), v.small)
]

-- The ready queue of a state that is otherwise in order.
pub push_ready-IsAssembler :
    (s : CaptureAssembler) (r : Result LanVoiceError CompletedCapture)
    → IsReady r
    → IsAssembler s
    → IsAssembler (record s { ready = s.ready ++ (r ∷ []) })
push_ready-IsAssembler s r q h = record {
  ordered = h.ordered;
  recordings = h.recordings;
  few = h.few;
  separate = h.separate;
  bounded = h.bounded;
  handed_over = AllReady-append s.ready r h.handed_over q;
}
