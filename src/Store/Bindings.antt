-- ===== src/Store/Bindings.antt =====
-- The table `bindings` of app/host/src/store.rs: which task a slot shows, and how often that changed.
pub mod Laws
use codex_keyboard_windows.Base.{
  ℕ, ◌+◌, ◌^◌, Bool, true, false, not, Option, none, some, List, [], ◌∷◌, ◌++◌, take, leb, ltb,
  ◌==◌, Result, ok, err, ◌>>=◌, if◌then◌else◌,
}
use codex_keyboard_windows.Store.{Text, StoreError, generation_out_of_range, validate_slot, to_i64}
use codex_keyboard_windows.Store.Tables.{first_where, exists_where, update_where, select_where}
use codex_keyboard_windows.Store.Ledger.{Binding, bound_to}

-- `Option<u64> == Option<u64>`.
abbrev pub generation_eq : Option ℕ → Option ℕ → Bool
generation_eq none none = true
generation_eq (some a) (some b) = a == b
generation_eq _ _ = false

abbrev pub generation_of : Option Binding → Option ℕ
generation_of none = none
generation_of (some binding) = some binding.generation

-- `checked_add` on 64 bits.
unfoldable pub next_of : Option ℕ → Result StoreError ℕ
next_of none = ok 1
next_of (some value) =
    if ltb (value + 1) (2 ^ 64) then ok (value + 1) else err generation_out_of_range

unfoldable pub next_generation : Option ℕ → Result StoreError ℕ
unfolding next_of
next_generation expected_generation = next_of expected_generation >>= to_i64

-- `INSERT … ON CONFLICT(slot) DO UPDATE`.
unfoldable pub upsert : Binding → List Binding → List Binding
upsert new bindings =
    if exists_where (bound_to new.slot) bindings
    then update_where (bound_to new.slot) (λ row. new) bindings
    else bindings ++ (new ∷ [])

unfoldable pub set_current :
    List Binding → ℕ → Option ℕ → Text → List Binding × Result StoreError (Option Binding)
unfolding upsert next_generation
set_current bindings slot expected_generation task_id = elim (next_generation expected_generation) [
  | err e ↦ (bindings, err e)
  | ok generation ↦
      let new : Binding = record { slot = slot; task_id = task_id; generation = generation } in
      (upsert new bindings, ok (some new))
]

unfoldable pub set_binding :
    List Binding → ℕ → Option ℕ → Text → List Binding × Result StoreError (Option Binding)
unfolding set_current
set_binding bindings slot expected_generation task_id = elim (validate_slot slot) [
  | err e ↦ (bindings, err e)
  | ok checked ↦
      if not
        (generation_eq (generation_of (first_where (bound_to slot) bindings)) expected_generation)
      then (bindings, ok none)
      else set_current bindings slot expected_generation task_id
]

unfoldable pub binding : List Binding → ℕ → Result StoreError (Option Binding)
binding bindings slot = elim (validate_slot slot) [
  | err e ↦ err e
  | ok checked ↦ ok (first_where (bound_to slot) bindings)
]

-- `ORDER BY slot ASC LIMIT 4`, of rows with a slot from 1 to 4.
unfoldable pub query_bindings : List Binding → List Binding
query_bindings bindings = take 4 (
    select_where (bound_to 1) bindings
    ++ (select_where (bound_to 2) bindings
        ++ (select_where (bound_to 3) bindings ++ select_where (bound_to 4) bindings)))
