-- ===== src/Store/Rollouts/Moves.antt =====
-- What a commit of a completion checks, and what it does to each table.
use codex_keyboard_windows.Base.{
  ◌≡◌, ◌⊎◌, ◌∙◌, refl, ap, true, false, Option, none, some, List, [], ◌∷◌, ◌++◌, arith, ok, err,
  Bool-cases, inl, inr, if◌then◌else◌,
}
use codex_keyboard_windows.Store.{Text, text_eq, text_eq_iff, StoreError, External, to_i64}
use codex_keyboard_windows.Store.Tables.{first_where, exists_where, update_where}
use codex_keyboard_windows.Store.Ledger.{Binding, RolloutCursor, CompletionRow, Ledger}
use codex_keyboard_windows.Store.Rollouts.{
  CompletionOutcome, inserted, replay, cursor_of, cursor_eq, same_file, expected_eq, has_completion,
  is_binding, still_bound, upsert_cursor, completion_row, commit_rollout_completion_on,
}
use codex_keyboard_windows.Store.Rollouts.Laws.{
  refused, repeats, records, commit_rollout_completion_on-Commit, upsert_cursor-task,
}

-- A cursor that the given one equals, the path as paths are compared.
pub record IsSameCursor (x : External) (stored given : RolloutCursor) : Type 0 where
  pub task : stored.task_id ≡ given.task_id
  pub path : x.same_path stored.rollout_path given.rollout_path ≡ true
  pub device : stored.device ≡ given.device
  pub inode : stored.inode ≡ given.inode
  pub offset : stored.offset ≡ given.offset
  pub generation : stored.generation ≡ given.generation
  pub anchor : stored.anchor ≡ given.anchor

-- The stored cursor is the expected one, or there is none and none is expected.
pub data IsExpected (x : External) (stored expected : Option RolloutCursor) : Type 0 where
  neither : stored ≡ none → expected ≡ none → IsExpected x stored expected
  both :
      (a b : RolloutCursor)
      → stored ≡ some a
      → expected ≡ some b
      → IsSameCursor x a b
      → IsExpected x stored expected

-- A binding that is asked for stands in the table.
pub data IsBound (bindings : List Binding) (binding : Option Binding) : Type 0 where
  unasked : binding ≡ none → IsBound bindings binding
  stands :
      (b : Binding) (before after : List Binding)
      → binding ≡ some b
      → bindings ≡ before ++ (b ∷ after)
      → IsBound bindings binding

-- The completions after a commit.
pub data IsRecorded (before after : List CompletionRow) (next : RolloutCursor)
    (completion_id turn_pack : Text) (outcome : CompletionOutcome) : Type 0 where
  known :
      (row : CompletionRow)
      → first_where (has_completion completion_id) before ≡ some row
      → row.task_id ≡ next.task_id
      → after ≡ before
      → outcome ≡ replay
      → IsRecorded before after next completion_id turn_pack outcome
  added :
      exists_where (has_completion completion_id) before ≡ false
      → after
        ≡ before
          ++ (record {
            completion_id = completion_id;
            task_id = next.task_id;
            rollout_cursor = (next.generation, next.offset);
            summarized_generation = none;
            turn_pack = turn_pack;
          }
              ∷ [])
      → outcome ≡ inserted
      → IsRecorded before after next completion_id turn_pack outcome

-- A commit that succeeded.
pub record IsMoved (x : External) (before after : Ledger) (binding : Option Binding)
    (expected : Option RolloutCursor) (next : RolloutCursor) (completion_id turn_pack : Text)
    (outcome : CompletionOutcome) : Type 0 where
  pub bound : IsBound before.bindings binding
  pub current : IsExpected x (first_where (cursor_of next.task_id) before.rollout_cursors) expected
  pub cursor : first_where (cursor_of next.task_id) after.rollout_cursors ≡ some next
  pub other_cursors :
      (task_id : Text)
      → ¬ (next.task_id ≡ task_id)
      → first_where (cursor_of task_id) after.rollout_cursors
        ≡ first_where (cursor_of task_id) before.rollout_cursors
  pub completion :
      IsRecorded before.completions after.completions next completion_id turn_pack outcome
  pub bindings : after.bindings ≡ before.bindings
  pub summaries : after.summaries ≡ before.summaries
  pub leases : after.leases ≡ before.leases
  pub attempts : after.attempts ≡ before.attempts

-- Where the Boolean tests say what they test.
exists_binding-IsBound :
    (b : Binding) (rows : List Binding)
    → exists_where (is_binding b) rows ≡ true
    → (before : List Binding) × (after : List Binding) × (rows ≡ before ++ (b ∷ after))
unfolding exists_where
exists_binding-IsBound b [] h = absurd (ground (arith, h))
exists_binding-IsBound b (r ∷ rest) h = elim (Bool-cases (is_binding b r)) [
  | inl hit ↦
      let slot : r.slot ≡ b.slot = ground (arith, hit) in
      let task : r.task_id ≡ b.task_id =
        (text_eq_iff r.task_id b.task_id).0 (ground (arith, hit)) in
      let generation : r.generation ≡ b.generation = ground (arith, hit) in
      let same : r ≡ b =
        λ i. record { slot = slot i; task_id = task i; generation = generation i } in
      ([], rest, ap (λ k. k ∷ rest) same)
  | inr miss ↦
      let (before, after, split) = exists_binding-IsBound b rest (ground (arith, h, miss)) in
      (r ∷ before, after, ap (λ k. r ∷ k) split)
]

still_bound-IsBound :
    (ledger : Ledger) (binding : Option Binding)
    → still_bound ledger binding ≡ ok true
    → IsBound ledger.bindings binding
unfolding still_bound to_i64
still_bound-IsBound ledger none h = unasked refl
still_bound-IsBound ledger (some b) h =
    let (before, after, split) = exists_binding-IsBound b ledger.bindings (ground (arith, h)) in
    stands b before after refl split

cursor_eq-IsSameCursor :
    (x : External) (a b : RolloutCursor) → cursor_eq x a b ≡ true → IsSameCursor x a b
unfolding cursor_eq same_file
cursor_eq-IsSameCursor x a b h = record {
  task = (text_eq_iff a.task_id b.task_id).0 (ground (arith, h));
  path = ground (arith, h);
  device = ground (arith, h);
  inode = ground (arith, h);
  offset = ground (arith, h);
  generation = ground (arith, h);
  anchor = (text_eq_iff a.anchor b.anchor).0 (ground (arith, h));
}

expected_eq-IsExpected :
    (x : External) (stored expected : Option RolloutCursor)
    → expected_eq x stored expected ≡ true
    → IsExpected x stored expected
expected_eq-IsExpected x none none h = neither refl refl
expected_eq-IsExpected x none (some b) h = absurd (ground (arith, h))
expected_eq-IsExpected x (some a) none h = absurd (ground (arith, h))
expected_eq-IsExpected x (some a) (some b) h = both a b refl refl (cursor_eq-IsSameCursor x a b h)

-- The cursors of the other tasks.
update_where-other :
    (next : RolloutCursor) (rows : List RolloutCursor) (task_id : Text)
    → text_eq next.task_id task_id ≡ false
    → first_where (cursor_of task_id) (update_where (cursor_of next.task_id) (λ row. next) rows)
      ≡ first_where (cursor_of task_id) rows
unfolding first_where update_where
update_where-other next [] task_id other = refl
update_where-other next (r ∷ rs) task_id other = elim (Bool-cases (cursor_of next.task_id r)) [
  | inl hit ↦
      let same : r.task_id ≡ next.task_id = (text_eq_iff r.task_id next.task_id).0 hit in
      let miss : text_eq r.task_id task_id ≡ false = ap (λ k. text_eq k task_id) same ∙ other in
      rw (hit, other, miss) (update_where-other next rs task_id other)
  | inr miss ↦ rw miss (
      ap (λ k. if cursor_of task_id r then some r else k)
        (update_where-other next rs task_id other))
]

append-other :
    (next : RolloutCursor) (rows : List RolloutCursor) (task_id : Text)
    → text_eq next.task_id task_id ≡ false
    → first_where (cursor_of task_id) (rows ++ (next ∷ [])) ≡ first_where (cursor_of task_id) rows
unfolding first_where
append-other next [] task_id other = rw other refl
append-other next (r ∷ rs) task_id other =
    ap (λ k. if cursor_of task_id r then some r else k) (append-other next rs task_id other)

upsert_cursor-other :
    (next : RolloutCursor) (rows : List RolloutCursor) (task_id : Text)
    → ¬ (next.task_id ≡ task_id)
    → first_where (cursor_of task_id) (upsert_cursor next rows)
      ≡ first_where (cursor_of task_id) rows
unfolding upsert_cursor
upsert_cursor-other next rows task_id apart =
    let other : text_eq next.task_id task_id ≡ false =
      elim (Bool-cases (text_eq next.task_id task_id)) [
        | inl same ↦ absurd (apart ((text_eq_iff next.task_id task_id).0 same))
        | inr differs ↦ differs
      ] in
    elim (Bool-cases (exists_where (cursor_of next.task_id) rows)) [
      | inl present ↦ rw (upsert_cursor, present) (update_where-other next rows task_id other)
      | inr missing ↦ rw (upsert_cursor, missing) (append-other next rows task_id other)
    ]

-- The checks that a commit passed.
commit-checked :
    (x : External) (ledger after : Ledger) (binding : Option Binding)
    (expected : Option RolloutCursor) (next : RolloutCursor) (completion_id turn_pack : Text)
    (outcome : CompletionOutcome)
    → commit_rollout_completion_on x ledger binding expected next completion_id turn_pack
      ≡ (after, ok outcome)
    → (still_bound ledger binding ≡ ok true)
      × (expected_eq x (first_where (cursor_of next.task_id) ledger.rollout_cursors) expected
          ≡ true)
unfolding commit_rollout_completion_on
commit-checked x ledger after binding expected next completion_id turn_pack outcome done =
    ground (arith, done)

committed-IsMoved :
    (x : External) (ledger after : Ledger) (binding : Option Binding)
    (expected : Option RolloutCursor) (next : RolloutCursor) (completion_id turn_pack : Text)
    (outcome : CompletionOutcome)
    → commit_rollout_completion_on x ledger binding expected next completion_id turn_pack
      ≡ (after, ok outcome)
    → after ≡ record ledger {
      completions = after.completions;
      rollout_cursors = upsert_cursor next ledger.rollout_cursors;
    }
    → IsRecorded ledger.completions after.completions next completion_id turn_pack outcome
    → IsMoved x ledger after binding expected next completion_id turn_pack outcome
committed-IsMoved x ledger after binding expected next completion_id turn_pack outcome done left
      completion =
    let (bound, current) =
      commit-checked x ledger after binding expected next completion_id turn_pack outcome done in
    let cursors : after.rollout_cursors ≡ upsert_cursor next ledger.rollout_cursors =
      ap (λ l. l.rollout_cursors) left in
    record {
      bound = still_bound-IsBound ledger binding bound;
      current = expected_eq-IsExpected x _ expected current;
      cursor = rw cursors (upsert_cursor-task next ledger.rollout_cursors);
      other_cursors = λ task_id apart.
          rw cursors (upsert_cursor-other next ledger.rollout_cursors task_id apart);
      completion = completion;
      bindings = ap (λ l. l.bindings) left;
      summaries = ap (λ l. l.summaries) left;
      leases = ap (λ l. l.leases) left;
      attempts = ap (λ l. l.attempts) left;
    }

-- A commit fails with an error and changes no table, or succeeds. When it succeeds, the binding
-- that it asks for, if any, stands in the table, and the stored cursor of the task is the expected
-- one; afterwards the new cursor is read back under its task, the cursor of every other task is as
-- before, and the completion was there under the task and the completions are as before, or it was
-- not there and its row, not summarised yet, stands behind them; the bindings, the summaries, the
-- leases and the attempts are as before.
pub commit_rollout_completion_on-IsMoved :
    (x : External) (ledger : Ledger) (binding : Option Binding) (expected : Option RolloutCursor)
    (next : RolloutCursor) (completion_id turn_pack : Text)
    → ((e : StoreError) × (commit_rollout_completion_on x ledger binding expected next completion_id
            turn_pack
          ≡ (ledger, err e)))
      ⊎ ((after : Ledger) × (outcome : CompletionOutcome) × (commit_rollout_completion_on x ledger
              binding expected next completion_id turn_pack
            ≡ (after, ok outcome))
          × IsMoved x ledger after binding expected next completion_id turn_pack outcome)
unfolding completion_row
commit_rollout_completion_on-IsMoved x ledger binding expected next completion_id turn_pack =
    elim (commit_rollout_completion_on-Commit x ledger binding expected next completion_id
      turn_pack) [
        | refused e same ↦ inl (e, same)
        | repeats row found task same ↦ inr (
          _,
          replay,
          same,
          committed-IsMoved x ledger _ binding expected next completion_id turn_pack replay same
              refl (known row found task refl refl),
        )
        | records missing same ↦ inr (
          _,
          inserted,
          same,
          committed-IsMoved x ledger _ binding expected next completion_id turn_pack inserted same
              refl (added missing refl refl),
        )
      ]
