-- ===== src/Store/Bindings/Laws.antt =====
-- `set_binding` of app/host/src/store.rs, twice.
use codex_keyboard_windows.Base.{
  ℕ, ◌≡◌, ◌∙◌, refl, sym, ap, true, false, Option, none, some, List, [], ◌∷◌, arith, ok, err,
  Bool-cases, Result-cases, inl, inr,
}
use codex_keyboard_windows.Store.{Text, StoreError, validate_slot, to_i64}
use codex_keyboard_windows.Store.Tables.{first_where, exists_where, update_where, first_where_one}
use codex_keyboard_windows.Store.Ledger.{Binding, bound_to}
use codex_keyboard_windows.Store.Bindings.{
  generation_eq, generation_of, next_generation, upsert, set_current, set_binding, binding,
}

updated :
    (new : Binding) (rows : List Binding)
    → exists_where (bound_to new.slot) rows ≡ true
    → first_where (bound_to new.slot) (update_where (bound_to new.slot) (λ row. new) rows)
      ≡ some new
unfolding first_where update_where exists_where
updated new [] known = absurd (ground (arith, known))
updated new (r ∷ rs) known = elim (Bool-cases (bound_to new.slot r)) [
  | inl hit ↦ let here : bound_to new.slot new ≡ true = ground arith in rw (hit, here) refl
  | inr miss ↦ rw (miss, miss) (updated new rs (ground (arith, known, miss)))
]

-- The slot of the new row shows it, and no other slot changes.
upsert-slot :
    (new : Binding) (rows : List Binding)
    → first_where (bound_to new.slot) (upsert new rows) ≡ some new
unfolding upsert
upsert-slot new rows = elim (Bool-cases (exists_where (bound_to new.slot) rows)) [
  | inl known ↦ rw (upsert, known) (updated new rows known)
  | inr missing ↦
      rw (upsert, missing) (first_where_one (bound_to new.slot) rows new [] (ground arith) missing)
]

next_generation-differs :
    (expected : Option ℕ) (g : ℕ)
    → next_generation expected ≡ ok g
    → generation_eq (some g) expected ≡ false
unfolding next_generation to_i64
next_generation-differs none g h = refl
next_generation-differs (some v) g h = ground (arith, h)

module _ (rows : List Binding) (slot : ℕ) (expected : Option ℕ) (task_id : Text) where
  set_current_full :
      (e : StoreError)
      → next_generation expected ≡ err e
      → set_current rows slot expected task_id ≡ (rows, err e)
  unfolding set_current
  set_current_full e full = rw (set_current, full) refl

  set_current_next :
      (g : ℕ)
      → next_generation expected ≡ ok g
      → set_current rows slot expected task_id ≡ (
        upsert (record { slot = slot; task_id = task_id; generation = g }) rows,
        ok (some (record { slot = slot; task_id = task_id; generation = g })),
      )
  unfolding set_current
  set_current_next g next = rw (set_current, next) refl

record Bound (rows after : List Binding) (slot : ℕ) (expected : Option ℕ) (task_id : Text)
    (b : Binding) : Type 0 where
  good : validate_slot slot ≡ ok tt
  generation : ℕ
  higher : next_generation expected ≡ ok generation
  made : record { slot = slot; task_id = task_id; generation = generation } ≡ b
  left : upsert (record { slot = slot; task_id = task_id; generation = generation }) rows ≡ after

bound :
    (rows after : List Binding) (slot : ℕ) (expected : Option ℕ) (task_id : Text) (b : Binding)
    → set_binding rows slot expected task_id ≡ (after, ok (some b))
    → Bound rows after slot expected task_id b
unfolding set_binding set_current
bound rows after slot expected task_id b done = elim (Result-cases (validate_slot slot)) [
  | inr (e, bad) ↦
      let same : set_binding rows slot expected task_id ≡ (rows, err e) =
        rw (set_binding, bad) refl in
      let clash : err e ≡ ok (some b) = ap (λ o. o.1) (sym same ∙ done) in
      absurd (ground (arith, clash))
  | inl (u, good) ↦
      elim (Bool-cases
        (generation_eq (generation_of (first_where (bound_to slot) rows)) expected)) [
          | inr other ↦
              let same : set_binding rows slot expected task_id ≡ (rows, ok none) =
                rw (set_binding, good, other) refl in
              let clash : ok none ≡ ok (some b) = ap (λ o. o.1) (sym same ∙ done) in
              absurd (ground (arith, clash))
          | inl current ↦ elim (Result-cases (next_generation expected)) [
            | inr (e, full) ↦
                let same : set_binding rows slot expected task_id ≡ (rows, err e) =
                  rw (set_binding, good, current)
                    (set_current_full rows slot expected task_id e full) in
                let clash : err e ≡ ok (some b) = ap (λ o. o.1) (sym same ∙ done) in
                absurd (ground (arith, clash))
            | inl (g, next) ↦
                let new : Binding = record { slot = slot; task_id = task_id; generation = g } in
                let same : set_binding rows slot expected task_id
                    ≡ (upsert new rows, ok (some new)) =
                  rw (set_binding, good, current)
                    (set_current_next rows slot expected task_id g next) in
                let e : ok (some new) ≡ ok (some b) = ap (λ o. o.1) (sym same ∙ done) in
                let made : new ≡ b = ground (arith, e) in
                record {
                  good = good;
                  generation = g;
                  higher = next;
                  made = made;
                  left = ap (λ o. o.0) (sym same ∙ done);
                }
          ]
        ]
]

-- When `set_binding` binds a slot under an expected generation, the slot shows that binding, and a
-- second call under the same expected generation, whatever the task, changes nothing and reports
-- that the binding has moved on.
pub set_binding-once :
    (rows after : List Binding) (slot : ℕ) (expected : Option ℕ) (task_id other : Text)
    (b : Binding)
    → set_binding rows slot expected task_id ≡ (after, ok (some b))
    → (binding after slot ≡ ok (some b))
      × (set_binding after slot expected other ≡ (after, ok none))
unfolding binding set_binding
set_binding-once rows after slot expected task_id other b done =
    let c = bound rows after slot expected task_id b done in
    let new : Binding = record { slot = slot; task_id = task_id; generation = c.generation } in
    let shown : first_where (bound_to slot) after ≡ some new =
      ap (first_where (bound_to slot)) (sym c.left) ∙ upsert-slot new rows in
    let stale : generation_eq (generation_of (some new)) expected ≡ false =
      next_generation-differs expected c.generation c.higher in
    (
      rw (binding, c.good, shown) (ap (λ x. ok (some x)) c.made),
      rw (set_binding, c.good, shown, stale) refl,
    )
