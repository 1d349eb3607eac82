-- ===== src/Base/Lists.antt =====
-- Lists measured, cut and overwritten by native numbers, as Rust's slices are.
use Prim.Native.Nat.{ℕ, zero, suc, ◌+◌, ◌-◌, ◌≤◌, ◌<◌, min}
use mathlib.Core.Path.{◌≡◌, refl, ap, sym, ◌∙◌}
use mathlib.Core.List.{List, [], ◌∷◌, ◌++◌}
use native.Mathlib.Omega.{arith}

abbrev pub sum : List ℕ → ℕ
sum [] = 0
sum (n ∷ ns) = n + sum ns

module _ {ℓ} {A : Type ℓ} where
  abbrev pub length : List A → ℕ
  length [] = 0
  length (x ∷ xs) = suc (length xs)

  abbrev pub get_or : List A → ℕ → A → A
  get_or [] i d = d
  get_or (x ∷ xs) zero d = x
  get_or (x ∷ xs) (suc i) d = get_or xs i d

  abbrev pub take : ℕ → List A → List A
  take zero xs = []
  take (suc n) [] = []
  take (suc n) (x ∷ xs) = x ∷ take n xs

  abbrev pub drop : ℕ → List A → List A
  drop zero xs = xs
  drop (suc n) [] = []
  drop (suc n) (x ∷ xs) = drop n xs

  abbrev pub replicate : ℕ → A → List A
  replicate zero a = []
  replicate (suc n) a = a ∷ replicate n a

  -- `xs[o .. o + n]`.
  abbrev pub read : ℕ → ℕ → List A → List A
  read o n xs = take n (drop o xs)

  pub length-append : (xs ys : List A) → length (xs ++ ys) ≡ length xs + length ys
  length-append [] ys = omega arith
  length-append (x ∷ xs) ys = omega (arith, length-append xs ys)

  pub length-take : (n : ℕ) (xs : List A) → length (take n xs) ≡ min n (length xs)
  length-take zero xs = omega arith
  length-take (suc n) [] = omega arith
  length-take (suc n) (x ∷ xs) = omega (arith, length-take n xs)

  pub length-drop : (n : ℕ) (xs : List A) → length (drop n xs) ≡ length xs - n
  length-drop zero xs = omega arith
  length-drop (suc n) [] = omega arith
  length-drop (suc n) (x ∷ xs) = omega (arith, length-drop n xs)

  pub length-replicate : (n : ℕ) (a : A) → length (replicate n a) ≡ n
  length-replicate zero a = refl
  length-replicate (suc n) a = ap suc (length-replicate n a)

  pub take-append-drop : (n : ℕ) (xs : List A) → take n xs ++ drop n xs ≡ xs
  take-append-drop zero xs = refl
  take-append-drop (suc n) [] = refl
  take-append-drop (suc n) (x ∷ xs) = ap (◌∷◌ x) (take-append-drop n xs)

  pub take_all : (n : ℕ) (xs : List A) → length xs ≤ n → take n xs ≡ xs
  take_all zero [] h = refl
  take_all zero (x ∷ xs) h = absurd (omega arith)
  take_all (suc n) [] h = refl
  take_all (suc n) (x ∷ xs) h = ap (◌∷◌ x) (take_all n xs (omega arith))

  pub drop_all : (n : ℕ) (xs : List A) → length xs ≤ n → drop n xs ≡ []
  drop_all zero [] h = refl
  drop_all zero (x ∷ xs) h = absurd (omega arith)
  drop_all (suc n) [] h = refl
  drop_all (suc n) (x ∷ xs) h = drop_all n xs (omega arith)

  pub take-append : (n : ℕ) (xs ys : List A) → n ≤ length xs → take n (xs ++ ys) ≡ take n xs
  take-append zero xs ys h = refl
  take-append (suc n) [] ys h = absurd (omega arith)
  take-append (suc n) (x ∷ xs) ys h = ap (◌∷◌ x) (take-append n xs ys (omega arith))

  pub drop-append_length : (n : ℕ) (xs ys : List A) → length xs ≡ n → drop n (xs ++ ys) ≡ ys
  drop-append_length zero [] ys h = refl
  drop-append_length zero (x ∷ xs) ys h = absurd (omega arith)
  drop-append_length (suc n) [] ys h = absurd (omega arith)
  drop-append_length (suc n) (x ∷ xs) ys h = drop-append_length n xs ys (omega arith)

  pub take-append_length : (n : ℕ) (xs ys : List A) → length xs ≡ n → take n (xs ++ ys) ≡ xs
  take-append_length n xs ys h = take-append n xs ys (omega arith) ∙ take_all n xs (omega arith)

  -- A read that ends inside the first part does not see the second.
  pub read-append :
      (o n : ℕ) (xs ys : List A) → o + n ≤ length xs → read o n (xs ++ ys) ≡ read o n xs
  read-append zero n xs ys h = take-append n xs ys (omega arith)
  read-append (suc o) zero [] ys h = refl
  read-append (suc o) (suc n) [] ys h = absurd (omega arith)
  read-append (suc o) n (x ∷ xs) ys h = read-append o n xs ys (omega arith)

  pub length-read : (o n : ℕ) (xs : List A) → o + n ≤ length xs → length (read o n xs) ≡ n
  length-read o n xs h = omega (arith, length-take n (drop o xs), length-drop o xs)

  pub take-nil : (n : ℕ) → take n [] ≡ []
  take-nil zero = refl
  take-nil (suc n) = refl

  pub drop-nil : (n : ℕ) → drop n [] ≡ []
  drop-nil zero = refl
  drop-nil (suc n) = refl

  -- Adjacent reads join.
  pub take-split : (m n : ℕ) (xs : List A) → take (m + n) xs ≡ take m xs ++ take n (drop m xs)
  take-split zero n xs = ap (λ k. take k xs) (omega arith)
  take-split (suc m) n [] = take-nil (suc m + n) ∙ sym (take-nil n)
  take-split (suc m) n (x ∷ xs) =
      let e : suc m + n ≡ suc (m + n) = omega arith in rw e (ap (◌∷◌ x) (take-split m n xs))

  pub drop-drop : (m n : ℕ) (xs : List A) → drop n (drop m xs) ≡ drop (m + n) xs
  drop-drop zero n xs = ap (λ k. drop k xs) (omega arith)
  drop-drop (suc m) n [] = drop-nil n ∙ sym (drop-nil (suc m + n))
  drop-drop (suc m) n (x ∷ xs) =
      let e : suc m + n ≡ suc (m + n) = omega arith in rw e (drop-drop m n xs)

  pub read-split : (o m n : ℕ) (xs : List A) → read o (m + n) xs ≡ read o m xs ++ read (o + m) n xs
  read-split o m n xs =
      take-split m n (drop o xs) ∙ ap (λ ys. read o m xs ++ take n ys) (drop-drop o m xs)

  pub read_one : (o : ℕ) (xs : List A) (d : A) → o < length xs → read o 1 xs ≡ get_or xs o d ∷ []
  read_one o [] d h = absurd (omega arith)
  read_one zero (x ∷ xs) d h = refl
  read_one (suc o) (x ∷ xs) d h = read_one o xs d (omega arith)

  pub get_or-append :
      (i : ℕ) (xs ys : List A) (d : A) → i < length xs → get_or (xs ++ ys) i d ≡ get_or xs i d
  get_or-append i [] ys d h = absurd (omega arith)
  get_or-append zero (x ∷ xs) ys d h = refl
  get_or-append (suc i) (x ∷ xs) ys d h = get_or-append i xs ys d (omega arith)

  pub get_or-take : (i n : ℕ) (xs : List A) (d : A) → i < n → get_or (take n xs) i d ≡ get_or xs i d
  get_or-take i zero xs d h = absurd (omega arith)
  get_or-take zero (suc n) [] d h = refl
  get_or-take (suc i) (suc n) [] d h = refl
  get_or-take zero (suc n) (x ∷ xs) d h = refl
  get_or-take (suc i) (suc n) (x ∷ xs) d h = get_or-take i n xs d (omega arith)

  pub read-take : (o n m : ℕ) (xs : List A) → o + n ≤ m → read o n (take m xs) ≡ read o n xs
  read-take zero zero m xs h = refl
  read-take zero (suc n) zero xs h = absurd (omega arith)
  read-take zero (suc n) (suc m) [] h = refl
  read-take zero (suc n) (suc m) (x ∷ xs) h = ap (◌∷◌ x) (read-take zero n m xs (omega arith))
  read-take (suc o) zero zero xs h = refl
  read-take (suc o) (suc n) zero xs h = absurd (omega arith)
  read-take (suc o) n (suc m) [] h = refl
  read-take (suc o) n (suc m) (x ∷ xs) h = read-take o n m xs (omega arith)

  -- `buffer[o .. o + bytes.len()].copy_from_slice(bytes)`, for a range inside the buffer.
  abbrev pub splice : ℕ → List A → List A → List A
  splice o bytes buffer = take o buffer ++ (bytes ++ drop (o + length bytes) buffer)

  -- The fields of a packet from offset `o`, by their sizes.
  abbrev pub fields : ℕ → List ℕ → List A → List A
  fields o [] xs = []
  fields o (n ∷ ns) xs = read o n xs ++ fields (o + n) ns xs

  pub fields-read : (o : ℕ) (ns : List ℕ) (xs : List A) → fields o ns xs ≡ read o (sum ns) xs
  fields-read o [] xs = refl
  fields-read o (n ∷ ns) xs =
      ap (◌++◌ (read o n xs)) (fields-read (o + n) ns xs) ∙ sym (read-split o n (sum ns) xs)
