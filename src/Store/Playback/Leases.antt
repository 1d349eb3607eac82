-- ===== src/Store/Playback/Leases.antt =====
-- The summaries that are leased and the leases that stand (app/host/src/store.rs).
use codex_keyboard_windows.Base.{
  ℕ, ◌+◌, ◌≤◌, ◌≡◌, refl, ap, subst, Bool, true, false, ◌&&◌, List, arith, ◌==◌, Bool-cases, inl,
  inr,
}
use codex_keyboard_windows.Store.{Text, text_eq, text_eq_iff}
use codex_keyboard_windows.Store.Tables.{count_where, update_where}
use codex_keyboard_windows.Store.Tables.Counts.{
  count_where_imp, count_where_never, count_where-update_where,
}
use codex_keyboard_windows.Store.Ledger.{
  SummaryState, unheard, leased, heard, superseded, generating, interrupted, abandoned, SummaryRow,
  LeaseRow, Ledger, is_unheard, is_leased, summary_at,
}
use codex_keyboard_windows.Store.Playback.{unheard_at, leased_at, lease_of, leased_row}

abbrev pub has_lease_id : ℕ → LeaseRow → Bool
has_lease_id lease row = row.lease_id == lease

pub record IsLeases (ledger : Ledger) : Type 0 where
  pub summary_once : (t : Text) (g : ℕ) → count_where (summary_at t g) ledger.summaries ≤ 1
  pub lease_once : (t : Text) (g : ℕ) → count_where (lease_of t g) ledger.leases ≤ 1
  pub id_once : (i : ℕ) → count_where (has_lease_id i) ledger.leases ≤ 1
  pub paired :
      (t : Text) (g : ℕ)
      → count_where (leased_at t g) ledger.summaries ≡ count_where (lease_of t g) ledger.leases

-- The key of a row is one of two keys at most.
pub key_apart :
    (k T t : Text) (n G g : ℕ)
    → (text_eq T t && (G == g)) ≡ false
    → (text_eq k T && (n == G)) ≡ true
    → (text_eq k t && (n == g)) ≡ false
key_apart k T t n G g differ key =
    let k_is : text_eq k T ≡ true = ground (arith, key) in
    let same : text_eq k t ≡ text_eq T t = ap (λ u. text_eq u t) ((text_eq_iff k T).0 k_is) in
    ground (arith, differ, key, same)

pub key_same :
    (T t : Text) (G g : ℕ) (P : Text → ℕ → Type 0)
    → (text_eq T t && (G == g)) ≡ true
    → P T G
    → P t g
key_same T t G g P same holds =
    let task : text_eq T t ≡ true = ground (arith, same) in
    let number : G ≡ g = ground (arith, same) in
    subst (λ u. P u g) ((text_eq_iff T t).0 task) (subst (λ n. P T n) number holds)

pub unheard_not_leased : (s : SummaryState) → is_unheard s ≡ true → is_leased s ≡ false
unheard_not_leased unheard h = refl
unheard_not_leased leased h = absurd (ground (arith, h))
unheard_not_leased heard h = refl
unheard_not_leased superseded h = refl
unheard_not_leased generating h = refl
unheard_not_leased interrupted h = refl
unheard_not_leased abandoned h = refl

-- Rows of one key that become leased, or are no longer leased.
module _ (rows : List SummaryRow) (T : Text) (G : ℕ) where
  pub leased_elsewhere :
      (p : SummaryRow → Bool) (f : SummaryRow → SummaryRow) (t : Text) (g : ℕ)
      → ((r : SummaryRow) → p r ≡ true → summary_at T G r ≡ true)
      → ((r : SummaryRow) → summary_at t g (f r) ≡ summary_at t g r)
      → (text_eq T t && (G == g)) ≡ false
      → count_where (leased_at t g) (update_where p f rows) ≡ count_where (leased_at t g) rows
  leased_elsewhere p f t g key same differ =
      let out : (r : SummaryRow) → p r ≡ true → summary_at t g r ≡ false =
        λ r hit. key_apart r.task_id T t r.generation G g differ (key r hit) in
      let before =
        count_where_never (λ r. p r && leased_at t g r) rows
          (λ r. elim (Bool-cases (p r)) [
            | inl hit ↦ ground (arith, out r hit)
            | inr miss ↦ ground (arith, miss)
          ]) in
      let after =
        count_where_never (λ r. p r && leased_at t g (f r)) rows
          (λ r. elim (Bool-cases (p r)) [
            | inl hit ↦ ground (arith, out r hit, same r)
            | inr miss ↦ ground (arith, miss)
          ]) in
      omega (arith, count_where-update_where (leased_at t g) p f rows, before, after)

  pub leased_more :
      count_where (leased_at T G) (update_where (unheard_at T G) leased_row rows)
      ≡ count_where (leased_at T G) rows + count_where (unheard_at T G) rows
  unfolding leased_row
  leased_more =
      let before =
        count_where_never (λ r. unheard_at T G r && leased_at T G r) rows
          (λ r. ground (arith, unheard_not_leased r.summary_state)) in
      let low =
        count_where_imp (unheard_at T G) (λ r. unheard_at T G r && leased_at T G (leased_row r))
          rows (λ r h. ground (arith, h)) in
      let high =
        count_where_imp (λ r. unheard_at T G r && leased_at T G (leased_row r)) (unheard_at T G)
          rows (λ r h. ground (arith, h)) in
      omega (
        arith,
        count_where-update_where (leased_at T G) (unheard_at T G) leased_row rows,
        before,
        low,
        high,
      )

  pub leased_less :
      (p : SummaryRow → Bool) (f : SummaryRow → SummaryRow)
      → ((r : SummaryRow) → p r ≡ true → leased_at T G r ≡ true)
      → ((r : SummaryRow) → is_leased (f r).summary_state ≡ false)
      → count_where (leased_at T G) (update_where p f rows) + count_where p rows
        ≡ count_where (leased_at T G) rows
  leased_less p f key over =
      let low =
        count_where_imp p (λ r. p r && leased_at T G r) rows (λ r h. ground (arith, h, key r h)) in
      let high = count_where_imp (λ r. p r && leased_at T G r) p rows (λ r h. ground (arith, h)) in
      let after =
        count_where_never (λ r. p r && leased_at T G (f r)) rows (λ r. ground (arith, over r)) in
      omega (arith, count_where-update_where (leased_at T G) p f rows, low, high, after)
