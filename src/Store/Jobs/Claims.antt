-- ===== src/Store/Jobs/Claims.antt =====
-- Which job `Store::claim_next_runnable` takes.
use codex_keyboard_windows.Base.{
  ℕ, ◌+◌, ◌^◌, ◌<◌, ◌≤◌, ◌≡◌, ◌⊎◌, ◌∙◌, refl, sym, ap, subst, true, false, Option, none, some, List,
  [], ◌∷◌, ◌++◌, arith, leb, append_assoc, append-nil, Result, ok, err, Bool-cases, Option-cases,
  inl, inr,
}
use codex_keyboard_windows.Store.{
  Text, text_eq, text_eq_iff, text_eq_refl, StoreError, claim_generation_out_of_range, i64_bound,
}
use codex_keyboard_windows.Store.Tables.{
  exists_where, count_where, first_where, update_where, exists_where_imp, exists_where-append,
  first_where_one, update_where_one, count_where_one,
}
use codex_keyboard_windows.Store.Jobs.{
  JobRow, Job, is_queued, has_request, running_in, queued_in, is_running_row, candidate, runnable,
  claimable, claim_candidate, claim_next_runnable, start_row, map_job,
}
use codex_keyboard_windows.Store.Jobs.Invariant.{IsUnique}
use codex_keyboard_windows.Store.Jobs.Split.{front_unique, back_unique}

-- The row that a search finds: it waits, no job of its task runs, and none before it waits.
pub record IsCandidate (all earlier rest : List JobRow) (row : JobRow) : Type 0 where
  pub before : List JobRow
  pub after : List JobRow
  pub split : rest ≡ before ++ (row ∷ after)
  pub waits : is_queued row.job_state ≡ true
  pub idle : exists_where (running_in row.task_id) all ≡ false
  pub first : exists_where (queued_in row.task_id) (earlier ++ before) ≡ false

candidate_hit :
    (all earlier : List JobRow) (r : JobRow) (rest : List JobRow)
    → runnable all earlier r ≡ true
    → candidate all earlier (r ∷ rest) ≡ some r
unfolding candidate
candidate_hit all earlier r rest hit = rw hit refl

candidate_miss :
    (all earlier : List JobRow) (r : JobRow) (rest : List JobRow)
    → runnable all earlier r ≡ false
    → candidate all earlier (r ∷ rest) ≡ candidate all (earlier ++ (r ∷ [])) rest
unfolding candidate
candidate_miss all earlier r rest miss = rw miss refl

IsCandidate-here :
    (all earlier : List JobRow) (r : JobRow) (rest : List JobRow)
    → runnable all earlier r ≡ true
    → IsCandidate all earlier (r ∷ rest) r
unfolding runnable
IsCandidate-here all earlier r rest hit = record {
  before = [];
  after = rest;
  split = refl;
  waits = ground (arith, hit);
  idle = ground (arith, hit);
  first = ground (arith, hit, ap (exists_where (queued_in r.task_id)) (append-nil earlier));
}

IsCandidate-there :
    (all earlier : List JobRow) (r : JobRow) (rest : List JobRow) (row : JobRow)
    → IsCandidate all (earlier ++ (r ∷ [])) rest row
    → IsCandidate all earlier (r ∷ rest) row
IsCandidate-there all earlier r rest row found = record {
  before = r ∷ found.before;
  after = found.after;
  split = ap (◌∷◌ r) found.split;
  waits = found.waits;
  idle = found.idle;
  first =
      ap (exists_where (queued_in row.task_id)) (sym (append_assoc earlier (r ∷ []) found.before))
      ∙ found.first;
}

pub candidate-IsCandidate :
    (all earlier rest : List JobRow) (row : JobRow)
    → candidate all earlier rest ≡ some row
    → IsCandidate all earlier rest row
unfolding candidate
candidate-IsCandidate all earlier [] row found = absurd (ground (arith, found))
candidate-IsCandidate all earlier (r ∷ rest) row found =
    elim (Bool-cases (runnable all earlier r)) [
      | inl hit ↦
          let e : some r ≡ some row = sym (candidate_hit all earlier r rest hit) ∙ found in
          let same : r ≡ row = ground (arith, e) in
          subst (λ x. IsCandidate all earlier (r ∷ rest) x) same
            (IsCandidate-here all earlier r rest hit)
      | inr miss ↦
          let later : candidate all (earlier ++ (r ∷ [])) rest ≡ some row =
            sym (candidate_miss all earlier r rest miss) ∙ found in
          IsCandidate-there all earlier r rest row
            (candidate-IsCandidate all (earlier ++ (r ∷ [])) rest row later)
    ]

busy_behind :
    (all earlier : List JobRow) (r : JobRow) (task_id : Text)
    → runnable all earlier r ≡ false
    → (exists_where (queued_in task_id) earlier ≡ true
        → exists_where (running_in task_id) all ≡ true)
    → exists_where (queued_in task_id) (earlier ++ (r ∷ [])) ≡ true
    → exists_where (running_in task_id) all ≡ true
unfolding runnable exists_where
busy_behind all earlier r task_id miss busy waits =
    let both = exists_where-append (queued_in task_id) earlier (r ∷ []) in
    elim (Bool-cases (text_eq r.task_id task_id)) [
      | inl same ↦
          let e : r.task_id ≡ task_id = (text_eq_iff r.task_id task_id).0 same in
          let runs = ap (λ t. exists_where (running_in t) all) e in
          let queues = ap (λ t. exists_where (queued_in t) earlier) e in
          elim (Bool-cases (exists_where (queued_in task_id) earlier)) [
            | inl older ↦ busy older
            | inr no_older ↦ ground (arith, miss, both, waits, same, runs, queues, no_older)
          ]
      | inr differ ↦ busy (ground (arith, both, waits, differ))
    ]

-- A search that finds nothing: in the task of each waiting job, one runs.
pub candidate-none :
    (all earlier rest : List JobRow) (task_id : Text)
    → candidate all earlier rest ≡ none
    → (exists_where (queued_in task_id) earlier ≡ true
        → exists_where (running_in task_id) all ≡ true)
    → exists_where (queued_in task_id) (earlier ++ rest) ≡ true
    → exists_where (running_in task_id) all ≡ true
unfolding candidate
candidate-none all earlier [] task_id nothing busy waits =
    busy (ap (exists_where (queued_in task_id)) (sym (append-nil earlier)) ∙ waits)
candidate-none all earlier (r ∷ rest) task_id nothing busy waits =
    elim (Bool-cases (runnable all earlier r)) [
      | inl hit ↦
          let clash : some r ≡ none = sym (candidate_hit all earlier r rest hit) ∙ nothing in
          absurd (ground (arith, clash))
      | inr miss ↦
          let later : candidate all (earlier ++ (r ∷ [])) rest ≡ none =
            sym (candidate_miss all earlier r rest miss) ∙ nothing in
          candidate-none all (earlier ++ (r ∷ [])) rest task_id later
            (busy_behind all earlier r task_id miss busy)
            (ap (exists_where (queued_in task_id)) (append_assoc earlier (r ∷ []) rest) ∙ waits)
    ]

-- The row that is set to running.
module _ (row : JobRow) (before after : List JobRow) (u : IsUnique (before ++ (row ∷ after)))
    (waits : is_queued row.job_state ≡ true) where
  hit : claimable row.request_id row ≡ true
  hit = ground (arith, waits, text_eq_refl row.request_id)

  front : exists_where (claimable row.request_id) before ≡ false
  front =
      exists_where_imp (claimable row.request_id) (has_request row.request_id) before
        (λ r h. ground (arith, h)) (front_unique row after before u)

  back : exists_where (claimable row.request_id) after ≡ false
  back =
      exists_where_imp (claimable row.request_id) (has_request row.request_id) after
        (λ r h. ground (arith, h)) (back_unique row after before u)

  pub claimable_once : count_where (claimable row.request_id) (before ++ (row ∷ after)) ≡ 1
  claimable_once =
      count_where_one (claimable row.request_id) (start_row 0) before row after hit front back

  pub claimable_started :
      (next : ℕ)
      → update_where (claimable row.request_id) (start_row next) (before ++ (row ∷ after))
        ≡ before ++ (start_row next row ∷ after)
  claimable_started next =
      update_where_one (claimable row.request_id) (start_row next) before row after hit front back

-- The row as it is read back.
abbrev pub taken : JobRow → JobRow
taken row = start_row (row.claim_generation + 1) row

-- What a claim does with the table.
pub data Claim (rows : List JobRow) (outcome : List JobRow × Result StoreError (Option Job))
    : Type 0 where
  -- Four jobs run, or one of each task with a waiting job.
  idles :
      (4 ≤ count_where is_running_row rows)
        ⊎ ((task_id : Text)
            → exists_where (queued_in task_id) rows ≡ true
            → exists_where (running_in task_id) rows ≡ true)
      → outcome ≡ (rows, ok none)
      → Claim rows outcome
  exhausted :
      (row : JobRow)
      → 2 ^ 63 ≤ row.claim_generation + 1
      → outcome ≡ (rows, err claim_generation_out_of_range)
      → Claim rows outcome
  -- The first waiting job of a task of which none runs.
  starts :
      (row : JobRow) (found : IsCandidate rows [] rows row)
      → count_where is_running_row rows ≤ 3
      → outcome ≡ (found.before ++ (taken row ∷ found.after), ok (some (map_job (taken row))))
      → Claim rows outcome

module _ (row : JobRow) (before after : List JobRow) (u : IsUnique (before ++ (row ∷ after)))
    (waits : is_queued row.job_state ≡ true) where
  started_found :
      (next : ℕ)
      → first_where (has_request row.request_id) (before ++ (start_row next row ∷ after))
        ≡ some (start_row next row)
  unfolding start_row
  started_found next =
      first_where_one (has_request row.request_id) before (start_row next row) after
        (text_eq_refl row.request_id) (front_unique row after before u)

  pub claim_candidate_fits :
      row.claim_generation + 1 < 2 ^ 63
      → claim_candidate (before ++ (row ∷ after)) row
        ≡ (before ++ (taken row ∷ after), ok (some (map_job (taken row))))
  unfolding claim_candidate
  claim_candidate_fits fits =
      let in_range : leb i64_bound (row.claim_generation + 1) ≡ false = ground (arith, fits) in
      let moved = claimable_started row before after u waits (row.claim_generation + 1) in
      rw
        (
          in_range,
          claimable_once row before after u waits,
          moved,
          started_found (row.claim_generation + 1),
        )
        (ap (λ t. (t, ok (some (map_job (taken row))))) moved)

claim_candidate_full :
    (rows : List JobRow) (row : JobRow)
    → 2 ^ 63 ≤ row.claim_generation + 1
    → claim_candidate rows row ≡ (rows, err claim_generation_out_of_range)
unfolding claim_candidate
claim_candidate_full rows row full =
    let out : leb i64_bound (row.claim_generation + 1) ≡ true = ground (arith, full) in rw out refl

Claim-found :
    (rows : List JobRow) (row : JobRow)
    → IsUnique rows
    → count_where is_running_row rows ≤ 3
    → IsCandidate rows [] rows row
    → Claim rows (claim_candidate rows row)
Claim-found rows row u few found = elim (Bool-cases (leb i64_bound (row.claim_generation + 1))) [
  | inl full ↦
      let full' : 2 ^ 63 ≤ row.claim_generation + 1 = ground (arith, full) in
      exhausted row full' (claim_candidate_full rows row full')
  | inr fits ↦
      let u' : IsUnique (found.before ++ (row ∷ found.after)) = subst IsUnique found.split u in
      let fits' : row.claim_generation + 1 < 2 ^ 63 = ground (arith, fits) in
      starts row found few (
        ap (λ t. claim_candidate t row) found.split
        ∙ claim_candidate_fits row found.before found.after u' found.waits fits')
]

pub claim_next_runnable-Claim :
    (rows : List JobRow) → IsUnique rows → Claim rows (claim_next_runnable rows)
unfolding claim_next_runnable exists_where
claim_next_runnable-Claim rows u = elim (Bool-cases (leb 4 (count_where is_running_row rows))) [
  | inl full ↦ idles (inl (ground (arith, full))) (rw full refl)
  | inr few ↦ elim (Option-cases (candidate rows [] rows)) [
    | inl nothing ↦
        idles
          (inr (λ t h. candidate-none rows [] rows t nothing (λ x. absurd (ground (arith, x))) h))
          (rw (few, nothing) refl)
    | inr found ↦
        let c =
          Claim-found rows found.0 u (ground (arith, few))
            (candidate-IsCandidate rows [] rows found.0 found.1) in
        let same : claim_next_runnable rows ≡ claim_candidate rows found.0 =
          rw (few, found.1) refl in
        subst (Claim rows) (sym same) c
  ]
]
