-- ===== src/LanVoice/Capture/Maps.antt =====
-- The ordered map and the retired queue of `CaptureAssembler`.
use codex_keyboard_windows.Base.{
  ℕ, ◌+◌, ◌≤◌, ◌<◌, ◌≡◌, ◌≢◌, refl, sym, true, false, ◌||◌, none, some, List, [], ◌∷◌, ◌++◌, length,
  arith, ltb, ◌==◌, Bool-cases, inl, inr,
}
use codex_keyboard_windows.LanVoice.Capture.{ActiveCapture, contains, lookup, insert, remove, trim}

abbrev pub Captures : Type 0
Captures = List (ℕ × ActiveCapture)

abbrev pub AllCaptures : (ℕ → ActiveCapture → Type 0) → Captures → Type 0
AllCaptures P [] = Unit
AllCaptures P ((k, a) ∷ rest) = P k a × AllCaptures P rest

-- The keys rise.
abbrev pub IsMap : Captures → Type 0
IsMap [] = Unit
IsMap ((k, a) ∷ rest) = AllCaptures (λ j _. k < j) rest × IsMap rest

pub AllCaptures-map :
    (P Q : ℕ → ActiveCapture → Type 0) (m : Captures)
    → ((k : ℕ) (a : ActiveCapture) → P k a → Q k a)
    → AllCaptures P m
    → AllCaptures Q m
AllCaptures-map P Q [] f h = tt
AllCaptures-map P Q ((k, a) ∷ rest) f h = (f k a h.0, AllCaptures-map P Q rest f h.1)

pub AllCaptures-lookup :
    (P : ℕ → ActiveCapture → Type 0) (k : ℕ) (a : ActiveCapture) (m : Captures)
    → AllCaptures P m
    → lookup k m ≡ some a
    → P k a
unfolding lookup
AllCaptures-lookup P k a [] h e = cc
AllCaptures-lookup P k a ((j, b) ∷ rest) h e = elim (Bool-cases (j == k)) [
  | inl hit ↦
      let same : j ≡ k = ground (arith, hit) in
      let body : b ≡ a = ground (arith, hit, e) in rw (← same, ← body) h.0
  | inr miss ↦ AllCaptures-lookup P k a rest h.1 (ground (arith, miss, e))
]

pub AllCaptures-insert :
    (P : ℕ → ActiveCapture → Type 0) (k : ℕ) (a : ActiveCapture) (m : Captures)
    → P k a
    → AllCaptures P m
    → AllCaptures P (insert k a m)
unfolding insert
AllCaptures-insert P k a [] p h = (p, tt)
AllCaptures-insert P k a ((j, b) ∷ rest) p h =
    let deeper = AllCaptures-insert P k a rest p h.1 in
    elim (Bool-cases (ltb k j)) [
      | inl before ↦ rw before (p, h)
      | inr later ↦ elim (Bool-cases (j == k)) [
        | inl hit ↦ rw (later, hit) (p, h.1)
        | inr miss ↦ rw (later, miss) (h.0, deeper)
      ]
    ]

pub AllCaptures-remove :
    (P : ℕ → ActiveCapture → Type 0) (k : ℕ) (m : Captures)
    → AllCaptures P m
    → AllCaptures P (remove k m)
unfolding remove
AllCaptures-remove P k [] h = tt
AllCaptures-remove P k ((j, b) ∷ rest) h = elim (Bool-cases (j == k)) [
  | inl hit ↦ rw hit h.1
  | inr miss ↦ rw miss (h.0, AllCaptures-remove P k rest h.1)
]

pub insert-IsMap : (k : ℕ) (a : ActiveCapture) (m : Captures) → IsMap m → IsMap (insert k a m)
unfolding insert
insert-IsMap k a [] h = (tt, tt)
insert-IsMap k a ((j, b) ∷ rest) h = elim (Bool-cases (ltb k j)) [
  | inl before ↦
      let less : k < j = ground (arith, before) in
      rw before
        ((less, AllCaptures-map (λ i _. j < i) (λ i _. k < i) rest (λ i _ q. omega arith) h.0), h)
  | inr later ↦ elim (Bool-cases (j == k)) [
    | inl hit ↦
        let same : j ≡ k = ground (arith, hit) in
        rw (later, hit)
          (AllCaptures-map (λ i _. j < i) (λ i _. k < i) rest (λ i _ q. omega arith) h.0, h.1)
    | inr miss ↦
        let less : j < k = ground (arith, later, miss) in
        rw (later, miss)
          (AllCaptures-insert (λ i _. j < i) k a rest less h.0, insert-IsMap k a rest h.1)
  ]
]

pub remove-IsMap : (k : ℕ) (m : Captures) → IsMap m → IsMap (remove k m)
unfolding remove
remove-IsMap k [] h = tt
remove-IsMap k ((j, b) ∷ rest) h = elim (Bool-cases (j == k)) [
  | inl hit ↦ rw hit h.1
  | inr miss ↦ rw miss (AllCaptures-remove (λ i _. j < i) k rest h.0, remove-IsMap k rest h.1)
]

-- A removed key is gone.
pub remove_absent : (k : ℕ) (m : Captures) → IsMap m → AllCaptures (λ j _. j ≢ k) (remove k m)
unfolding remove
remove_absent k [] h = tt
remove_absent k ((j, b) ∷ rest) h = elim (Bool-cases (j == k)) [
  | inl hit ↦
      let same : j ≡ k = ground (arith, hit) in
      rw hit (AllCaptures-map (λ i _. j < i) (λ i _. i ≢ k) rest (λ i _ q. omega arith) h.0)
  | inr miss ↦ rw miss ((ground (arith, miss)), remove_absent k rest h.1)
]

pub length-remove-le : (k : ℕ) (m : Captures) → length (remove k m) ≤ length m
unfolding remove
length-remove-le k [] = omega arith
length-remove-le k ((j, b) ∷ rest) = ground (arith, length-remove-le k rest)

pub length-insert-le :
    (k : ℕ) (a : ActiveCapture) (m : Captures) → length (insert k a m) ≤ length m + 1
unfolding insert
length-insert-le k a [] = omega arith
length-insert-le k a ((j, b) ∷ rest) = ground (arith, length-insert-le k a rest)

above_absent : (k j : ℕ) (m : Captures) → k < j → AllCaptures (λ i _. j < i) m → lookup k m ≡ none
unfolding lookup
above_absent k j [] h q = refl
above_absent k j ((i, b) ∷ rest) h q = ground (arith, above_absent k j rest h q.1)

-- A key without an entry is no key.
pub lookup_absent : (k : ℕ) (m : Captures) → lookup k m ≡ none → AllCaptures (λ j _. j ≢ k) m
unfolding lookup
lookup_absent k [] e = tt
lookup_absent k ((j, b) ∷ rest) e =
    let miss : (j == k) ≡ false = ground (arith, e) in
    (ground (arith, miss), lookup_absent k rest (ground (arith, miss, e)))

-- A write at a key that is there keeps the number of entries.
pub length-insert_known :
    (k : ℕ) (a b : ActiveCapture) (m : Captures)
    → IsMap m
    → lookup k m ≡ some b
    → length (insert k a m) ≡ length m
unfolding insert lookup
length-insert_known k a b [] h e = cc
length-insert_known k a b ((j, x) ∷ rest) h e =
    ground (arith, above_absent k j rest, length-insert_known k a b rest h.1, h.0)

pub contains-append :
    (xs : List ℕ) (x k : ℕ) → contains (xs ++ (x ∷ [])) k ≡ (contains xs k || (x == k))
unfolding contains
contains-append [] x k = ground arith
contains-append (y ∷ ys) x k = ground (arith, contains-append ys x k)

-- Trimming keeps the newest 128 and brings nothing in.
pub length-trim : (xs : List ℕ) → length (trim xs) ≤ 128
unfolding trim
length-trim [] = omega arith
length-trim (x ∷ xs) = ground (arith, length-trim xs)

pub contains-trim : (xs : List ℕ) (k : ℕ) → contains xs k ≡ false → contains (trim xs) k ≡ false
unfolding trim contains
contains-trim [] k h = refl
contains-trim (x ∷ xs) k h = ground (arith, contains-trim xs k)

pub lookup-insert_self :
    (k : ℕ) (a : ActiveCapture) (m : Captures) → lookup k (insert k a m) ≡ some a
unfolding lookup insert
lookup-insert_self k a [] = ground arith
lookup-insert_self k a ((j, b) ∷ rest) = ground (arith, lookup-insert_self k a rest)

remove_above : (k : ℕ) (m : Captures) → AllCaptures (λ j _. k < j) m → remove k m ≡ m
unfolding remove
remove_above k [] h = refl
remove_above k ((j, b) ∷ rest) h =
    let deeper = remove_above k rest h.1 in
    let miss : (j == k) ≡ false = ground (arith, h.0) in rw (miss, remove, deeper) refl

-- Removing what was just written is removing the key.
pub remove-insert_self :
    (k : ℕ) (a : ActiveCapture) (m : Captures) → IsMap m → remove k (insert k a m) ≡ remove k m
unfolding remove insert
remove-insert_self k a [] h = ground arith
remove-insert_self k a ((j, b) ∷ rest) h =
    let deeper = remove-insert_self k a rest h.1 in
    elim (Bool-cases (ltb k j)) [
      | inl before ↦
          let less : k < j = ground (arith, before) in
          let above =
            AllCaptures-map (λ i _. j < i) (λ i _. k < i) rest (λ i _ q. omega arith) h.0 in
          let miss : (j == k) ≡ false = ground (arith, less) in
          let hit : (k == k) ≡ true = ground arith in
          let gone = remove_above k ((j, b) ∷ rest) (less, above) in
          rw (before, insert, remove, hit) (sym gone)
      | inr later ↦ elim (Bool-cases (j == k)) [
        | inl hit ↦
            let self : (k == k) ≡ true = ground arith in rw (later, hit, insert, remove, self) refl
        | inr miss ↦ rw (later, miss, insert, remove, miss, deeper) refl
      ]
    ]
