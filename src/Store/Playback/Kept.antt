-- ===== src/Store/Playback/Kept.antt =====
-- `cancel_summary_playback`, `finish_summary_playback` and the restart (app/host/src/store.rs) on the leases.
use codex_keyboard_windows.Base.{
  ℕ, ◌+◌, ◌≡◌, ◌∙◌, refl, sym, subst, Bool, true, false, ◌&&◌, List, arith, ◌==◌, ◌!=◌, Bool-cases,
  Result-cases, inl, inr,
}
use codex_keyboard_windows.Store.{Text, text_eq, External}
use codex_keyboard_windows.Store.Tables.{
  exists_where, count_where, update_where, delete_where, count_where_none, count_where_zero,
  delete_where_none, update_where_clears, exists_where_imp,
}
use codex_keyboard_windows.Store.Tables.Counts.{
  count_where_imp, count_where_never, count_where_some, count_where-update_where_same,
  count_where-delete_where, count_where-delete_where_le, delete_where_agree,
}
use codex_keyboard_windows.Store.Ledger.{
  SummaryRow, LeaseRow, Ledger, is_leased, is_null, summary_at,
}
use codex_keyboard_windows.Store.Playback.{
  SummaryPlaybackLease, leased_at, lease_of, validate_playback_lease, is_lease, released_row,
  cancel_summary_playback, heard_row, plays, finish_summary_playback,
  recover_interrupted_playback_leases,
}
use codex_keyboard_windows.Store.Playback.Leases.{
  has_lease_id, IsLeases, key_apart, key_same, leased_elsewhere, leased_less,
}

-- A lease of one key that is added or removed.
module _ (rows : List LeaseRow) (T : Text) (G : ℕ) where
  removed_elsewhere :
      (p : LeaseRow → Bool) (t : Text) (g : ℕ)
      → ((r : LeaseRow) → p r ≡ true → lease_of T G r ≡ true)
      → (text_eq T t && (G == g)) ≡ false
      → count_where (lease_of t g) (delete_where p rows) ≡ count_where (lease_of t g) rows
  removed_elsewhere p t g key differ =
      let out =
        count_where_never (λ r. p r && lease_of t g r) rows
          (λ r. elim (Bool-cases (p r)) [
            | inl hit ↦
                ground (arith, key_apart r.task_id T t r.summary_generation G g differ (key r hit))
            | inr miss ↦ ground (arith, miss)
          ]) in
      omega (arith, count_where-delete_where (lease_of t g) p rows, out)

  removed_here :
      (p : LeaseRow → Bool)
      → ((r : LeaseRow) → p r ≡ true → lease_of T G r ≡ true)
      → count_where (lease_of T G) (delete_where p rows) + count_where p rows
        ≡ count_where (lease_of T G) rows
  removed_here p key =
      let low =
        count_where_imp p (λ r. p r && lease_of T G r) rows (λ r h. ground (arith, h, key r h)) in
      let high = count_where_imp (λ r. p r && lease_of T G r) p rows (λ r h. ground (arith, h)) in
      omega (arith, count_where-delete_where (lease_of T G) p rows, low, high)

-- One summary is no longer leased, and its lease is gone.
release-IsLeases :
    (ledger : Ledger) (T : Text) (G : ℕ) (p : SummaryRow → Bool) (f : SummaryRow → SummaryRow)
    (q : LeaseRow → Bool)
    → ((r : SummaryRow) → p r ≡ true → leased_at T G r ≡ true)
    → ((r : SummaryRow) (t : Text) (g : ℕ) → summary_at t g (f r) ≡ summary_at t g r)
    → ((r : SummaryRow) → is_leased (f r).summary_state ≡ false)
    → ((r : LeaseRow) → q r ≡ true → lease_of T G r ≡ true)
    → count_where p ledger.summaries ≡ count_where q ledger.leases
    → IsLeases ledger
    → IsLeases (record ledger {
      summaries = update_where p f ledger.summaries;
      leases = delete_where q ledger.leases;
    })
release-IsLeases ledger T G p f q key same over key' together l =
    let key_of : (r : SummaryRow) → p r ≡ true → summary_at T G r ≡ true =
      λ r hit. ground (arith, key r hit) in
    let pair_at : (t : Text) (g : ℕ)
        → count_where (leased_at t g) (update_where p f ledger.summaries)
          ≡ count_where (lease_of t g) (delete_where q ledger.leases) =
      λ t g. elim (Bool-cases (text_eq T t && (G == g))) [
        | inl here ↦
            key_same T t G g
              (λ u n.
                count_where (leased_at u n) (update_where p f ledger.summaries)
                ≡ count_where (lease_of u n) (delete_where q ledger.leases))
              here
              (omega (
                arith,
                leased_less ledger.summaries T G p f key over,
                removed_here ledger.leases T G q key',
                together,
                l.paired T G,
              ))
        | inr other ↦
            leased_elsewhere ledger.summaries T G p f t g key_of (λ r. same r t g) other
            ∙ l.paired t g
            ∙ sym (removed_elsewhere ledger.leases T G q t g key' other)
      ] in
    record {
      summary_once = λ t g. omega (
        arith,
        l.summary_once t g,
        count_where-update_where_same (summary_at t g) p f ledger.summaries (λ r. same r t g),
      );
      lease_once = λ t g.
          omega
            (arith, l.lease_once t g, count_where-delete_where_le (lease_of t g) q ledger.leases);
      id_once = λ i.
          omega (arith, l.id_once i, count_where-delete_where_le (has_lease_id i) q ledger.leases);
      paired = pair_at;
    }

released_row-over : (r : SummaryRow) → is_leased (released_row r).summary_state ≡ false
unfolding released_row
released_row-over r = elim (Bool-cases (is_null r.superseded_by)) [
  | inl current ↦ rw current refl
  | inr old ↦ rw old refl
]

pub cancel_summary_playback-IsLeases :
    (x : External) (ledger : Ledger) (lease : SummaryPlaybackLease)
    → IsLeases ledger
    → IsLeases (cancel_summary_playback x ledger lease).0
unfolding cancel_summary_playback released_row
cancel_summary_playback-IsLeases x ledger lease l =
    let T : Text = lease.task_id in
    let G : ℕ = lease.summary_generation in
    let at_most =
      count_where_imp (is_lease lease) (lease_of T G) ledger.leases (λ r h. ground (arith, h)) in
    elim (Result-cases (validate_playback_lease x lease)) [
      | inr bad ↦ rw (cancel_summary_playback, bad.1) l
      | inl good ↦ elim (Bool-cases (count_where (is_lease lease) ledger.leases == 1)) [
        | inl one ↦
            let together : count_where (leased_at T G) ledger.summaries
                ≡ count_where (is_lease lease) ledger.leases =
              ground (arith, l.paired T G, at_most, l.lease_once T G, one) in
            rw (cancel_summary_playback, good.1, one)
              (release-IsLeases ledger T G (leased_at T G) released_row (is_lease lease) (λ r h. h)
                (λ r t g. refl) released_row-over (λ r h. ground (arith, h)) together l)
        | inr not_one ↦
            let zero : count_where (is_lease lease) ledger.leases ≡ 0 =
              ground (arith, not_one, at_most, l.lease_once T G) in
            let same =
              delete_where_none (is_lease lease) ledger.leases
                (count_where_zero (is_lease lease) ledger.leases zero) in
            rw (cancel_summary_playback, good.1, not_one)
              (subst (λ rows. IsLeases (record ledger { leases = rows })) (sym same) l)
      ]
    ]

pub finish_summary_playback-IsLeases :
    (x : External) (ledger : Ledger) (lease : SummaryPlaybackLease)
    → IsLeases ledger
    → IsLeases (finish_summary_playback x ledger lease).0
unfolding finish_summary_playback heard_row
finish_summary_playback-IsLeases x ledger lease l =
    let T : Text = lease.task_id in
    let G : ℕ = lease.summary_generation in
    elim (Result-cases (validate_playback_lease x lease)) [
      | inr bad ↦ rw (finish_summary_playback, bad.1) l
      | inl good ↦ elim (Bool-cases (exists_where (is_lease lease) ledger.leases)) [
        | inr missing ↦ rw (finish_summary_playback, good.1, missing) l
        | inl exact ↦ elim (Bool-cases (count_where (plays lease) ledger.summaries != 1)) [
          | inl changed ↦ rw (finish_summary_playback, good.1, exact, changed) l
          | inr one ↦
              let at_least = count_where_some (is_lease lease) ledger.leases exact in
              let at_most =
                count_where_imp (is_lease lease) (lease_of T G) ledger.leases
                  (λ r h. ground (arith, h)) in
              let together : count_where (plays lease) ledger.summaries
                  ≡ count_where (is_lease lease) ledger.leases =
                ground (arith, one, at_least, at_most, l.lease_once T G) in
              let same =
                delete_where_agree (has_lease_id lease.lease) (is_lease lease) ledger.leases
                  (λ r h. ground (arith, h)) (omega (arith, at_least, l.id_once lease.lease)) in
              rw (finish_summary_playback, good.1, exact, one)
                (subst
                  (λ rows. IsLeases (record ledger {
                    summaries = update_where (plays lease) heard_row ledger.summaries;
                    leases = rows;
                  }))
                  (sym same)
                  (release-IsLeases ledger T G (plays lease) heard_row (is_lease lease)
                    (λ r h. ground (arith, h)) (λ r t g. refl) (λ r. refl)
                    (λ r h. ground (arith, h)) together l))
        ]
      ]
    ]

pub recover_interrupted_playback_leases-IsLeases :
    (ledger : Ledger) → IsLeases ledger → IsLeases (recover_interrupted_playback_leases ledger)
unfolding recover_interrupted_playback_leases released_row count_where
recover_interrupted_playback_leases-IsLeases ledger l =
    let is_out : SummaryRow → Bool = λ row. is_leased row.summary_state in
    let clear = update_where_clears is_out released_row ledger.summaries released_row-over in
    record {
      summary_once = λ t g. omega (
        arith,
        l.summary_once t g,
        count_where-update_where_same (summary_at t g) is_out released_row ledger.summaries
            (λ r. refl),
      );
      lease_once = λ t g. omega arith;
      id_once = λ i. omega arith;
      paired = λ t g.
          count_where_none (leased_at t g) (update_where is_out released_row ledger.summaries) (
            exists_where_imp (leased_at t g) is_out
              (update_where is_out released_row ledger.summaries) (λ r h. ground (arith, h)) clear);
    }
