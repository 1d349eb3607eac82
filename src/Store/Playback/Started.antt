-- ===== src/Store/Playback/Started.antt =====
-- The tables behind a lease that starts.
use codex_keyboard_windows.Base.{
  ℕ, ◌+◌, ◌≤◌, ◌≡◌, refl, subst, true, false, ◌&&◌, [], ◌∷◌, ◌++◌, arith, ◌==◌, Bool-cases, inl,
  inr, if◌then◌else◌,
}
use codex_keyboard_windows.Store.{Text, text_eq, text_eq_refl}
use codex_keyboard_windows.Store.Tables.{
  exists_where, count_where, update_where, count_where_none, count_where-append,
}
use codex_keyboard_windows.Store.Tables.Counts.{count_where-update_where_same}
use codex_keyboard_windows.Store.Ledger.{SummaryRow, LeaseRow, Ledger, summary_at}
use codex_keyboard_windows.Store.Playback.{unheard_at, leased_at, lease_of, leased_row, lease_row}
use codex_keyboard_windows.Store.Playback.Leases.{
  has_lease_id, IsLeases, key_same, leased_elsewhere, leased_more,
}

-- The lease that starts.
module _ (ledger : Ledger) (summary : SummaryRow)
    (lease slot request_generation connection_generation : ℕ)
    (free : exists_where (lease_of summary.task_id summary.generation) ledger.leases ≡ false)
    (fresh : exists_where (has_lease_id lease) ledger.leases ≡ false)
    (one : count_where (unheard_at summary.task_id summary.generation) ledger.summaries ≡ 1) where
  abbrev pub started : Ledger
  started = record ledger {
    summaries =
        update_where (unheard_at summary.task_id summary.generation) leased_row ledger.summaries;
    leases =
        ledger.leases
        ++ (lease_row summary lease slot request_generation connection_generation ∷ []);
  }

  pub started-IsLeases : IsLeases ledger → IsLeases started
  unfolding leased_row lease_row count_where
  started-IsLeases l =
      let T : Text = summary.task_id in
      let G : ℕ = summary.generation in
      let row : LeaseRow = lease_row summary lease slot request_generation connection_generation in
      let none_yet = count_where_none (lease_of T G) ledger.leases free in
      let leases_at : (t : Text) (g : ℕ)
          → count_where (lease_of t g) (ledger.leases ++ (row ∷ []))
            ≡ count_where (lease_of t g) ledger.leases
              + (if text_eq T t && (G == g) then 1 else 0) =
        λ t g. ground (arith, count_where-append (lease_of t g) ledger.leases (row ∷ [])) in
      let here : (text_eq T T && (G == G)) ≡ true = ground (arith, text_eq_refl T) in
      record {
        summary_once = λ t g. omega (
          arith,
          l.summary_once t g,
          count_where-update_where_same (summary_at t g) (unheard_at T G) leased_row
              ledger.summaries (λ r. refl),
        );
        lease_once = λ t g. elim (Bool-cases (text_eq T t && (G == g))) [
          | inl same ↦
              key_same T t G g (λ u n. count_where (lease_of u n) (ledger.leases ++ (row ∷ [])) ≤ 1)
                same (ground (arith, leases_at T G, none_yet))
          | inr other ↦ ground (arith, leases_at t g, other, l.lease_once t g)
        ];
        id_once = λ i. elim (Bool-cases (lease == i)) [
          | inl same ↦
              let e : lease ≡ i = ground (arith, same) in
              subst (λ n. count_where (has_lease_id n) (ledger.leases ++ (row ∷ [])) ≤ 1) e
                (ground (
                  arith,
                  count_where-append (has_lease_id lease) ledger.leases (row ∷ []),
                  count_where_none (has_lease_id lease) ledger.leases fresh,
                ))
          | inr other ↦ ground (
            arith,
            count_where-append (has_lease_id i) ledger.leases (row ∷ []),
            other,
            l.id_once i,
          )
        ];
        paired = λ t g. elim (Bool-cases (text_eq T t && (G == g))) [
          | inl same ↦
              key_same T t G g
                (λ u n.
                  count_where (leased_at u n)
                    (update_where (unheard_at T G) leased_row ledger.summaries)
                  ≡ count_where (lease_of u n) (ledger.leases ++ (row ∷ [])))
                same
                (ground
                  (arith, leased_more ledger.summaries T G, one, leases_at T G, here, l.paired T G))
          | inr other ↦
              let kept =
                leased_elsewhere ledger.summaries T G (unheard_at T G) leased_row t g
                  (λ r h. ground (arith, h)) (λ r. refl) other in
              ground (arith, kept, leases_at t g, other, l.paired t g)
        ];
      }
