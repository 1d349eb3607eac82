-- ===== src/Store/Tables.antt =====
-- The statements of SQL on a table, as functions on the list of its rows in the order of their
-- insertion: SELECT, EXISTS, COUNT, UPDATE and DELETE with a condition.
pub mod Counts
use codex_keyboard_windows.Base.{
  ℕ, ◌+◌, ◌≡◌, ◌≤◌, refl, ap, Bool, true, false, ◌||◌, Option, none, some, List, [], ◌∷◌, ◌++◌,
  arith, if◌then◌else◌, Bool-cases, inl, inr,
}

module _ {A : Type 0} where
  -- `SELECT … WHERE p LIMIT 1`.
  unfoldable pub first_where : (A → Bool) → List A → Option A
  first_where p [] = none
  first_where p (r ∷ rs) = if p r then some r else first_where p rs

  -- `EXISTS(SELECT 1 … WHERE p)`.
  unfoldable pub exists_where : (A → Bool) → List A → Bool
  exists_where p [] = false
  exists_where p (r ∷ rs) = p r || exists_where p rs

  -- `SELECT COUNT(*) … WHERE p`, and the number of rows that a statement changes.
  unfoldable pub count_where : (A → Bool) → List A → ℕ
  count_where p [] = 0
  count_where p (r ∷ rs) = (if p r then 1 else 0) + count_where p rs

  -- `UPDATE … WHERE p`.
  unfoldable pub update_where : (A → Bool) → (A → A) → List A → List A
  update_where p f [] = []
  update_where p f (r ∷ rs) = (if p r then f r else r) ∷ update_where p f rs

  -- `DELETE … WHERE p`.
  unfoldable pub delete_where : (A → Bool) → List A → List A
  delete_where p [] = []
  delete_where p (r ∷ rs) = let rest = delete_where p rs in if p r then rest else r ∷ rest

  -- `SELECT … WHERE p`.
  unfoldable pub select_where : (A → Bool) → List A → List A
  select_where p [] = []
  select_where p (r ∷ rs) = let rest = select_where p rs in if p r then r ∷ rest else rest

  pub exists_where-append :
      (p : A → Bool) (xs ys : List A)
      → exists_where p (xs ++ ys) ≡ (exists_where p xs || exists_where p ys)
  unfolding exists_where
  exists_where-append p [] ys = refl
  exists_where-append p (x ∷ xs) ys = ground (arith, exists_where-append p xs ys)

  pub count_where-append :
      (p : A → Bool) (xs ys : List A)
      → count_where p (xs ++ ys) ≡ count_where p xs + count_where p ys
  unfolding count_where
  count_where-append p [] ys = ground arith
  count_where-append p (x ∷ xs) ys = ground (arith, count_where-append p xs ys)

  pub update_where-append :
      (p : A → Bool) (f : A → A) (xs ys : List A)
      → update_where p f (xs ++ ys) ≡ update_where p f xs ++ update_where p f ys
  unfolding update_where
  update_where-append p f [] ys = refl
  update_where-append p f (x ∷ xs) ys =
      ap (◌∷◌ (if p x then f x else x)) (update_where-append p f xs ys)

  -- A statement whose condition holds of no row.
  pub update_where_none :
      (p : A → Bool) (f : A → A) (xs : List A)
      → exists_where p xs ≡ false
      → update_where p f xs ≡ xs
  unfolding update_where exists_where
  update_where_none p f [] h = refl
  update_where_none p f (x ∷ xs) h = ground (arith, h, update_where_none p f xs)

  pub delete_where_none :
      (p : A → Bool) (xs : List A) → exists_where p xs ≡ false → delete_where p xs ≡ xs
  unfolding delete_where exists_where
  delete_where_none p [] h = refl
  delete_where_none p (x ∷ xs) h = ground (arith, h, delete_where_none p xs)

  pub count_where_none :
      (p : A → Bool) (xs : List A) → exists_where p xs ≡ false → count_where p xs ≡ 0
  unfolding count_where exists_where
  count_where_none p [] h = refl
  count_where_none p (x ∷ xs) h = ground (arith, h, count_where_none p xs)

  pub first_where-none :
      (p : A → Bool) (xs : List A) → exists_where p xs ≡ false → first_where p xs ≡ none
  unfolding first_where exists_where
  first_where-none p [] h = refl
  first_where-none p (x ∷ xs) h = ground (arith, h, first_where-none p xs)

  pub first_where-exists_where :
      (p : A → Bool) (xs : List A) → first_where p xs ≡ none → exists_where p xs ≡ false
  unfolding first_where exists_where
  first_where-exists_where p [] h = refl
  first_where-exists_where p (x ∷ xs) h = elim (Bool-cases (p x)) [
    | inl hit ↦ let clash : some x ≡ none = ground (arith, hit, h) in absurd (ground (arith, clash))
    | inr miss ↦ ground (arith, miss, h, first_where-exists_where p xs)
  ]

  pub first_where_one :
      (p : A → Bool) (before : List A) (row : A) (after : List A)
      → p row ≡ true
      → exists_where p before ≡ false
      → first_where p (before ++ (row ∷ after)) ≡ some row
  unfolding first_where exists_where
  first_where_one p [] row after hit front = rw hit refl
  first_where_one p (b ∷ bs) row after hit front =
      let miss : p b ≡ false = ground (arith, front) in
      rw miss (first_where_one p bs row after hit (ground (arith, front)))

  -- Where a condition holds of one row at most, a statement touches no row or that one.
  pub data Touched (p : A → Bool) (rows : List A) : Type 0 where
    untouched : exists_where p rows ≡ false → Touched p rows
    touched :
        (before : List A) (row : A) (after : List A)
        → rows ≡ before ++ (row ∷ after)
        → p row ≡ true
        → exists_where p before ≡ false
        → exists_where p after ≡ false
        → Touched p rows

  module _ (p : A → Bool) (f : A → A) (before : List A) (row : A) (after : List A)
      (hit : p row ≡ true) (front : exists_where p before ≡ false)
      (back : exists_where p after ≡ false) where
    pub update_where_one : update_where p f (before ++ (row ∷ after)) ≡ before ++ (f row ∷ after)
    unfolding update_where
    update_where_one =
        rw
          (
            update_where-append p f before (row ∷ after),
            update_where,
            hit,
            update_where_none p f before front,
            update_where_none p f after back,
          )
          refl

    pub count_where_one : count_where p (before ++ (row ∷ after)) ≡ 1
    unfolding count_where
    count_where_one =
        rw
          (
            count_where-append p before (row ∷ after),
            count_where,
            hit,
            count_where_none p before front,
            count_where_none p after back,
          )
          refl

module _ {A : Type 0} where
  -- What a stronger condition selects, a weaker one does.
  pub exists_where_imp :
      (p q : A → Bool) (rows : List A)
      → ((r : A) → p r ≡ true → q r ≡ true)
      → exists_where q rows ≡ false
      → exists_where p rows ≡ false
  unfolding exists_where
  exists_where_imp p q [] imp h = refl
  exists_where_imp p q (r ∷ rs) imp h = elim (Bool-cases (p r)) [
    | inl hit ↦ ground (arith, imp r hit, h)
    | inr miss ↦ ground (arith, miss, h, exists_where_imp p q rs imp)
  ]

  -- An update that makes no row meet a condition.
  pub exists_where-update_where_le :
      (q p : A → Bool) (f : A → A) (rows : List A)
      → ((r : A) → p r ≡ true → q (f r) ≡ true → q r ≡ true)
      → exists_where q rows ≡ false
      → exists_where q (update_where p f rows) ≡ false
  unfolding exists_where update_where
  exists_where-update_where_le q p f [] le h = refl
  exists_where-update_where_le q p f (r ∷ rs) le h =
      let rest = exists_where-update_where_le q p f rs le in
      elim (Bool-cases (p r)) [
        | inl hit ↦ elim (Bool-cases (q (f r))) [
          | inl after ↦ ground (arith, le r hit after, h)
          | inr none_after ↦ ground (arith, hit, none_after, h, rest)
        ]
        | inr miss ↦ ground (arith, miss, h, rest)
      ]

  pub exists_where-update_where_same :
      (q p : A → Bool) (f : A → A) (rows : List A)
      → ((r : A) → q (f r) ≡ q r)
      → exists_where q (update_where p f rows) ≡ exists_where q rows
  unfolding exists_where update_where
  exists_where-update_where_same q p f [] same = refl
  exists_where-update_where_same q p f (r ∷ rs) same =
      ground (arith, same r, exists_where-update_where_same q p f rs same)

  pub count_where-update_where_le :
      (q p : A → Bool) (f : A → A) (rows : List A)
      → ((r : A) → p r ≡ true → q (f r) ≡ true → q r ≡ true)
      → count_where q (update_where p f rows) ≤ count_where q rows
  unfolding count_where update_where
  count_where-update_where_le q p f [] le = omega arith
  count_where-update_where_le q p f (r ∷ rs) le =
      let rest = count_where-update_where_le q p f rs le in
      elim (Bool-cases (p r)) [
        | inl hit ↦ elim (Bool-cases (q (f r))) [
          | inl after ↦ ground (arith, hit, le r hit after, rest)
          | inr none_after ↦ ground (arith, hit, none_after, rest)
        ]
        | inr miss ↦ ground (arith, miss, rest)
      ]

  -- An update of the rows that meet a condition to rows that do not.
  pub update_where_clears :
      (p : A → Bool) (f : A → A) (rows : List A)
      → ((r : A) → p (f r) ≡ false)
      → exists_where p (update_where p f rows) ≡ false
  unfolding exists_where update_where
  update_where_clears p f [] clear = refl
  update_where_clears p f (r ∷ rs) clear =
      let rest = update_where_clears p f rs clear in
      elim (Bool-cases (p r)) [
        | inl hit ↦ ground (arith, hit, clear r, rest)
        | inr miss ↦ ground (arith, miss, rest)
      ]

  -- No row meets a condition exactly if their number is 0.
  pub count_where_zero :
      (p : A → Bool) (rows : List A) → count_where p rows ≡ 0 → exists_where p rows ≡ false
  unfolding count_where exists_where
  count_where_zero p [] h = refl
  count_where_zero p (r ∷ rs) h = ground (arith, h, count_where_zero p rs)
