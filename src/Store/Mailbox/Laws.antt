-- ===== src/Store/Mailbox/Laws.antt =====
-- `mailbox_status` of app/host/src/store.rs and the test of app/host/src/lan_playback.rs.
use Prim.Native.Nat.{bit_and, bit_or}
use codex_keyboard_windows.Base.{
  ℕ, zero, suc, ◌+◌, ◌-◌, ◌^◌, ◌<◌, ◌≤◌, ◌≡◌, ◌∙◌, refl, sym, subst, Bool, true, false, ◌&&◌, List,
  [], ◌∷◌, ◌++◌, take, arith, ltb, ◌==◌, ok, err, Bool-cases, Option-cases, Result-cases, inl, inr,
  passes_under, passes_under_lem,
}
use codex_keyboard_windows.Store.{External, invalid_summary_state}
use codex_keyboard_windows.Store.Tables.{select_where}
use codex_keyboard_windows.Store.Ledger.{Binding, Ledger, bound_to}
use codex_keyboard_windows.Store.Bindings.{query_bindings}
use codex_keyboard_windows.Store.Mailbox.{
  UnreadSummary, MailboxStatusSnapshot, current_unread_summary, mark_slot, mark_slots, any_differs,
  default, mailbox_status,
}
use codex_keyboard_windows.LanPlayback.Mailbox.{all_covered, valid_mailbox_status}

-- Every slot is one of the four.
abbrev IsSlots : List Binding → Type 0
IsSlots [] = Unit {0}
IsSlots (b ∷ bs) = (1 ≤ b.slot) × ((b.slot ≤ 4) × IsSlots bs)

IsSlots-take : (n : ℕ) (bs : List Binding) → IsSlots bs → IsSlots (take n bs)
IsSlots-take zero bs s = tt
IsSlots-take (suc n) [] s = tt
IsSlots-take (suc n) (b ∷ bs) s = (s.0, (s.1.0, IsSlots-take n bs s.1.1))

IsSlots-append : (xs ys : List Binding) → IsSlots xs → IsSlots ys → IsSlots (xs ++ ys)
IsSlots-append [] ys s t = t
IsSlots-append (x ∷ xs) ys s t = (s.0, (s.1.0, IsSlots-append xs ys s.1.1 t))

slot_is : (slot : ℕ) (b : Binding) → bound_to slot b ≡ true → b.slot ≡ slot
slot_is slot b hit = ground (arith, hit)

IsSlots-select_where :
    (slot : ℕ) (bs : List Binding) → 1 ≤ slot → slot ≤ 4 → IsSlots (select_where (bound_to slot) bs)
unfolding select_where
IsSlots-select_where slot [] low high = tt
IsSlots-select_where slot (b ∷ bs) low high =
    let rest = IsSlots-select_where slot bs low high in
    elim (Bool-cases (bound_to slot b)) [
      | inl hit ↦
          rw (select_where, hit)
            (
              omega (arith, slot_is slot b hit, low),
              (omega (arith, slot_is slot b hit, high), rest),
            )
      | inr miss ↦ rw (select_where, miss) rest
    ]

IsSlots-query_bindings : (bs : List Binding) → IsSlots (query_bindings bs)
unfolding query_bindings
IsSlots-query_bindings bs =
    let at : (slot : ℕ) → 1 ≤ slot → slot ≤ 4 → IsSlots (select_where (bound_to slot) bs) =
      λ slot. IsSlots-select_where slot bs in
    let third =
      IsSlots-append (select_where (bound_to 3) bs) (select_where (bound_to 4) bs)
        (at 3 (omega arith) (omega arith)) (at 4 (omega arith) (omega arith)) in
    let second =
      IsSlots-append (select_where (bound_to 2) bs)
        (select_where (bound_to 3) bs ++ select_where (bound_to 4) bs)
        (at 2 (omega arith) (omega arith)) third in
    IsSlots-take 4
      (select_where (bound_to 1) bs
        ++ (select_where (bound_to 2) bs
            ++ (select_where (bound_to 3) bs ++ select_where (bound_to 4) bs)))
      (IsSlots-append (select_where (bound_to 1) bs)
        (select_where (bound_to 2) bs
          ++ (select_where (bound_to 3) bs ++ select_where (bound_to 4) bs))
        (at 1 (omega arith) (omega arith)) second)

-- The marks of the four slots.
abbrev stays_low : ℕ → Bool
stays_low u =
    ltb (bit_or u (2 ^ 0)) 16
    && (ltb (bit_or u (2 ^ 1)) 16 && (ltb (bit_or u (2 ^ 2)) 16 && ltb (bit_or u (2 ^ 3)) 16))

stays_low_table : passes_under stays_low 16 ≡ true
unfolding passes_under
stays_low_table = refl

mark_at : (u index : ℕ) → u < 16 → index < 4 → bit_or u (2 ^ index) < 16
mark_at u zero low h =
    let table = passes_under_lem stays_low 16 u low stays_low_table in ground (arith, table)
mark_at u (suc zero) low h =
    let table = passes_under_lem stays_low 16 u low stays_low_table in ground (arith, table)
mark_at u (suc (suc zero)) low h =
    let table = passes_under_lem stays_low 16 u low stays_low_table in ground (arith, table)
mark_at u (suc (suc (suc zero))) low h =
    let table = passes_under_lem stays_low 16 u low stays_low_table in ground (arith, table)
mark_at u (suc (suc (suc (suc index)))) low h = absurd (omega (arith, h))

mark_low : (u slot : ℕ) → u < 16 → 1 ≤ slot → slot ≤ 4 → bit_or u (2 ^ (slot - 1)) < 16
mark_low u slot low one four = mark_at u (slot - 1) low (omega (arith, one, four))

no_high_bits : (u : ℕ) → u < 16 → (bit_and u 0xf0 == 0) ≡ true
unfolding passes_under
no_high_bits u low = passes_under_lem (λ v. bit_and v 0xf0 == 0) 16 u low refl

marked_low :
    (b : Binding) (summary : UnreadSummary) (status : MailboxStatusSnapshot)
    → 1 ≤ b.slot
    → b.slot ≤ 4
    → status.unread_slots < 16
    → (mark_slot b.slot summary status).unread_slots < 16
unfolding mark_slot
marked_low b summary status one four low = mark_low status.unread_slots b.slot low one four

mark_slots_low :
    (x : External) (ledger : Ledger) (status final : MailboxStatusSnapshot) (bs : List Binding)
    → IsSlots bs
    → status.unread_slots < 16
    → mark_slots x ledger status bs ≡ ok final
    → final.unread_slots < 16
unfolding mark_slots
mark_slots_low x ledger status final [] s low done =
    let same : status ≡ final = ground (arith, done) in subst (λ t. t.unread_slots < 16) same low
mark_slots_low x ledger status final (b ∷ bs) s low done =
    elim (Result-cases (current_unread_summary x ledger b.task_id)) [
      | inr (e, bad) ↦
          let same : mark_slots x ledger status (b ∷ bs) ≡ err e = rw (mark_slots, bad) refl in
          let clash : err e ≡ ok final = sym same ∙ done in absurd (ground (arith, clash))
      | inl (unread, read) ↦ elim (Option-cases unread) [
        | inl nothing ↦
            let same : mark_slots x ledger status (b ∷ bs) ≡ mark_slots x ledger status bs =
              rw (mark_slots, read, nothing) refl in
            mark_slots_low x ledger status final bs s.1.1 low (sym same ∙ done)
        | inr (summary, found) ↦
            let same : mark_slots x ledger status (b ∷ bs)
                ≡ mark_slots x ledger (mark_slot b.slot summary status) bs =
              rw (mark_slots, read, found) refl in
            mark_slots_low x ledger (mark_slot b.slot summary status) final bs s.1.1
              (marked_low b summary status s.0 s.1.0 low) (sym same ∙ done)
      ]
    ]

any_differs-all_covered :
    (u index : ℕ) (cs : List ℕ) → any_differs u index cs ≡ false → all_covered u index cs ≡ true
unfolding any_differs all_covered
any_differs-all_covered u index [] h = refl
any_differs-all_covered u index (c ∷ cs) h =
    ground (arith, h, any_differs-all_covered u (index + 1) cs)

-- A status that `mailbox_status` returns, together with a number of running tasks of at most 4,
-- passes `valid_mailbox_status`, the test of the playback protocol: the store never gives the
-- ingress a status that it cannot encode.
pub mailbox_status-valid_mailbox_status :
    (x : External) (ledger : Ledger) (status : MailboxStatusSnapshot) (running_tasks : ℕ)
    → running_tasks ≤ 4
    → mailbox_status x ledger ≡ ok status
    → valid_mailbox_status (record {
      unread_slots = status.unread_slots;
      running_tasks = running_tasks;
      coverage_by_slot = status.coverage_by_slot;
    })
      ≡ true
unfolding mailbox_status valid_mailbox_status
mailbox_status-valid_mailbox_status x ledger status running_tasks few done =
    elim (Result-cases (mark_slots x ledger default (query_bindings ledger.bindings))) [
      | inr (e, bad) ↦
          let same : mailbox_status x ledger ≡ err e = rw (mailbox_status, bad) refl in
          let clash : err e ≡ ok status = sym same ∙ done in absurd (ground (arith, clash))
      | inl (final, read) ↦
          elim (Bool-cases (any_differs final.unread_slots 0 final.coverage_by_slot)) [
            | inl differs ↦
                let same : mailbox_status x ledger ≡ err invalid_summary_state =
                  rw (mailbox_status, read, differs) refl in
                let clash : err invalid_summary_state ≡ ok status = sym same ∙ done in
                absurd (ground (arith, clash))
            | inr agrees ↦
                let same : mailbox_status x ledger ≡ ok final =
                  rw (mailbox_status, read, agrees) refl in
                let e : ok final ≡ ok status = sym same ∙ done in
                let it : final ≡ status = ground (arith, e) in
                let low =
                  mark_slots_low x ledger default final (query_bindings ledger.bindings)
                    (IsSlots-query_bindings ledger.bindings) (omega arith) read in
                let covered =
                  any_differs-all_covered final.unread_slots 0 final.coverage_by_slot agrees in
                subst
                  (λ (t : MailboxStatusSnapshot).
                    valid_mailbox_status (record {
                      unread_slots = t.unread_slots;
                      running_tasks = running_tasks;
                      coverage_by_slot = t.coverage_by_slot;
                    })
                    ≡ true)
                  it (ground (arith, no_high_bits final.unread_slots low, few, covered))
          ]
    ]
