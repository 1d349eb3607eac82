-- ===== src/Store/Tables/Counts.antt =====
-- How many rows meet a condition after a statement on the table.
use codex_keyboard_windows.Base.{
  ◌+◌, ◌≡◌, ◌≤◌, refl, ap, Bool, true, false, ◌&&◌, List, [], ◌∷◌, ◌++◌, arith, Bool-cases, inl,
  inr,
}
use codex_keyboard_windows.Store.Tables.{exists_where, count_where, update_where, delete_where}

module _ {A : Type 0} where
  pub count_where_imp :
      (p q : A → Bool) (rows : List A)
      → ((r : A) → p r ≡ true → q r ≡ true)
      → count_where p rows ≤ count_where q rows
  unfolding count_where
  count_where_imp p q [] imp = omega arith
  count_where_imp p q (r ∷ rs) imp = elim (Bool-cases (p r)) [
    | inl hit ↦ ground (arith, hit, imp r hit, count_where_imp p q rs imp)
    | inr miss ↦ ground (arith, miss, count_where_imp p q rs imp)
  ]

  -- Two conditions that no row meets together, below a third.
  pub count_where_apart :
      (p q s : A → Bool) (rows : List A)
      → ((r : A) → p r ≡ true → s r ≡ true)
      → ((r : A) → q r ≡ true → s r ≡ true)
      → ((r : A) → p r ≡ true → q r ≡ false)
      → count_where p rows + count_where q rows ≤ count_where s rows
  unfolding count_where
  count_where_apart p q s [] below below' apart = omega arith
  count_where_apart p q s (r ∷ rs) below below' apart =
      let rest = count_where_apart p q s rs below below' apart in
      elim (Bool-cases (p r)) [
        | inl hit ↦ ground (arith, hit, below r hit, apart r hit, rest)
        | inr miss ↦ elim (Bool-cases (q r)) [
          | inl hit ↦ ground (arith, hit, miss, below' r hit, rest)
          | inr miss' ↦ ground (arith, miss, miss', rest)
        ]
      ]

  pub exists_where_never :
      (p : A → Bool) (rows : List A) → ((r : A) → p r ≡ false) → exists_where p rows ≡ false
  unfolding exists_where
  exists_where_never p [] never = refl
  exists_where_never p (r ∷ rs) never = ground (arith, never r, exists_where_never p rs never)

  pub count_where_never :
      (p : A → Bool) (rows : List A) → ((r : A) → p r ≡ false) → count_where p rows ≡ 0
  unfolding count_where
  count_where_never p [] never = refl
  count_where_never p (r ∷ rs) never = ground (arith, never r, count_where_never p rs never)

  pub count_where_some :
      (p : A → Bool) (rows : List A) → exists_where p rows ≡ true → 1 ≤ count_where p rows
  unfolding count_where exists_where
  count_where_some p [] h = absurd (ground (arith, h))
  count_where_some p (r ∷ rs) h = elim (Bool-cases (p r)) [
    | inl hit ↦ ground (arith, hit)
    | inr miss ↦ ground (arith, miss, h, count_where_some p rs)
  ]

  pub count_where-update_where :
      (q p : A → Bool) (f : A → A) (rows : List A)
      → count_where q (update_where p f rows) + count_where (λ r. p r && q r) rows
        ≡ count_where q rows + count_where (λ r. p r && q (f r)) rows
  unfolding count_where update_where
  count_where-update_where q p f [] = refl
  count_where-update_where q p f (r ∷ rs) = elim (Bool-cases (p r)) [
    | inl hit ↦ ground (arith, hit, count_where-update_where q p f rs)
    | inr miss ↦ ground (arith, miss, count_where-update_where q p f rs)
  ]

  pub count_where-update_where_same :
      (q p : A → Bool) (f : A → A) (rows : List A)
      → ((r : A) → q (f r) ≡ q r)
      → count_where q (update_where p f rows) ≡ count_where q rows
  unfolding count_where update_where
  count_where-update_where_same q p f [] same = refl
  count_where-update_where_same q p f (r ∷ rs) same =
      ground (arith, same r, count_where-update_where_same q p f rs same)

  pub count_where-delete_where :
      (q p : A → Bool) (rows : List A)
      → count_where q (delete_where p rows) + count_where (λ r. p r && q r) rows
        ≡ count_where q rows
  unfolding count_where delete_where
  count_where-delete_where q p [] = refl
  count_where-delete_where q p (r ∷ rs) = elim (Bool-cases (p r)) [
    | inl hit ↦ rw (delete_where, hit) (ground (arith, count_where-delete_where q p rs))
    | inr miss ↦ rw (delete_where, miss) (ground (arith, count_where-delete_where q p rs))
  ]

  pub count_where-delete_where_le :
      (q p : A → Bool) (rows : List A) → count_where q (delete_where p rows) ≤ count_where q rows
  count_where-delete_where_le q p rows = omega (arith, count_where-delete_where q p rows)

  -- Two conditions, one stronger than the other, that equally many rows meet.
  pub delete_where_agree :
      (p q : A → Bool) (rows : List A)
      → ((r : A) → q r ≡ true → p r ≡ true)
      → count_where p rows ≤ count_where q rows
      → delete_where p rows ≡ delete_where q rows
  unfolding count_where delete_where
  delete_where_agree p q [] imp few = refl
  delete_where_agree p q (r ∷ rs) imp few = elim (Bool-cases (q r)) [
    | inl hit ↦
        let also = imp r hit in
        rw (delete_where, hit, also)
          (delete_where_agree p q rs imp (ground (arith, few, hit, also)))
    | inr miss ↦ elim (Bool-cases (p r)) [
      | inl only ↦
          let rest = count_where_imp q p rs imp in absurd (ground (arith, few, miss, only, rest))
      | inr miss' ↦
          rw (delete_where, miss, miss')
            (ap (◌∷◌ r) (delete_where_agree p q rs imp (ground (arith, few, miss, miss'))))
    ]
  ]

  pub exists_where-delete_where :
      (p : A → Bool) (rows : List A) → exists_where p (delete_where p rows) ≡ false
  unfolding exists_where delete_where
  exists_where-delete_where p [] = refl
  exists_where-delete_where p (r ∷ rs) = elim (Bool-cases (p r)) [
    | inl hit ↦ rw (delete_where, hit) (exists_where-delete_where p rs)
    | inr miss ↦ rw (delete_where, miss) (ground (arith, miss, exists_where-delete_where p rs))
  ]

  pub delete_where-append :
      (p : A → Bool) (xs ys : List A)
      → delete_where p (xs ++ ys) ≡ delete_where p xs ++ delete_where p ys
  unfolding delete_where
  delete_where-append p [] ys = refl
  delete_where-append p (x ∷ xs) ys = elim (Bool-cases (p x)) [
    | inl hit ↦ rw (delete_where, hit) (delete_where-append p xs ys)
    | inr miss ↦ rw (delete_where, miss) (ap (◌∷◌ x) (delete_where-append p xs ys))
  ]

  -- An update that another takes back.
  pub update_where-undone :
      (p q : A → Bool) (f g : A → A) (rows : List A)
      → ((r : A) → p r ≡ true → (q (f r) ≡ true) × (g (f r) ≡ r))
      → exists_where q rows ≡ false
      → update_where q g (update_where p f rows) ≡ rows
  unfolding update_where exists_where
  update_where-undone p q f g [] undo none_of_them = refl
  update_where-undone p q f g (r ∷ rs) undo none_of_them =
      let rest = update_where-undone p q f g rs undo (ground (arith, none_of_them)) in
      elim (Bool-cases (p r)) [
        | inl hit ↦ let (again, back) = undo r hit in rw (hit, again, back) (ap (◌∷◌ r) rest)
        | inr miss ↦
            let other : q r ≡ false = ground (arith, none_of_them) in
            rw (miss, other) (ap (◌∷◌ r) rest)
      ]
