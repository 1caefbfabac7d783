-- ===== src/Prelude/Sorting.antt =====
-- `ORDER BY`, `LIMIT` and `OFFSET`: rows sorted by a test for "stands before", and pages of them.
use Prim.Native.Nat.{ℕ, zero, suc, ◌+◌, ◌≤◌}
use mathlib.Core.Path.{◌≡◌, refl, ap}
use mathlib.Core.Bool.{Bool, true, false}
use mathlib.Core.List.{List, [], ◌∷◌, ◌++◌}
use native.Mathlib.Omega.{arith}
use native.Mathlib.Nat.{suc-add}
use beetle_shield_backend.Prelude.Tests.{if◌then◌else◌}
use beetle_shield_backend.Prelude.Lists.{length, take, All, rows_where}
use beetle_shield_backend.Prelude.Int.{ℤ, pos, negsuc}

module _ {ℓ} {A : Type ℓ} where
  abbrev pub insert_by : (A → A → Bool) → A → List A → List A
  insert_by before x [] = x ∷ []
  insert_by before x (y ∷ ys) =
      let rest = insert_by before x ys in if before y x then y ∷ rest else x ∷ y ∷ ys

  -- Rows that stand before one another by no test keep the order of the table.
  abbrev pub sort_by : (A → A → Bool) → List A → List A
  sort_by before [] = []
  sort_by before (x ∷ xs) = insert_by before x (sort_by before xs)

  abbrev pub drop : ℕ → List A → List A
  drop zero xs = xs
  drop (suc n) [] = []
  drop (suc n) (x ∷ xs) = drop n xs

  pub length-take : (n : ℕ) (xs : List A) → length (take n xs) ≤ n
  length-take zero xs = omega arith
  length-take (suc n) [] = omega arith
  length-take (suc n) (x ∷ xs) = omega (arith, length-take n xs)

  pub take-append-drop : (n m : ℕ) (xs : List A) → take n xs ++ take m (drop n xs) ≡ take (n + m) xs
  take-append-drop zero m xs = ap (λ k. take k xs) (omega arith)
  take-append-drop (suc n) zero [] = rw suc-add
  take-append-drop (suc n) (suc m) [] = rw suc-add
  take-append-drop (suc n) m (x ∷ xs) = rw suc-add (ap (λ l. x ∷ l) (take-append-drop n m xs))

  pub All-insert_by {κ} :
      (P : A → Type κ) (before : A → A → Bool) (x : A) (xs : List A)
      → P x
      → All P xs
      → All P (insert_by before x xs)
  All-insert_by P before x [] p a = (p, tt)
  All-insert_by P before x (y ∷ ys) p a = pick (All-insert_by P before x ys p a.1) (before y x)
    where
      pick :
          All P (insert_by before x ys)
          → (b : Bool) → All P (if b then y ∷ insert_by before x ys else x ∷ y ∷ ys)
      pick rest true = (a.0, rest)
      pick rest false = (p, a)

  pub All-sort_by {κ} :
      (P : A → Type κ) (before : A → A → Bool) (xs : List A) → All P xs → All P (sort_by before xs)
  All-sort_by P before [] a = tt
  All-sort_by P before (x ∷ xs) a =
      All-insert_by P before x (sort_by before xs) a.0 (All-sort_by P before xs a.1)

  pub All-take {κ} : (P : A → Type κ) (n : ℕ) (xs : List A) → All P xs → All P (take n xs)
  All-take P zero xs a = tt
  All-take P (suc n) [] a = tt
  All-take P (suc n) (x ∷ xs) a = (a.0, All-take P n xs a.1)

  pub All-rows_where {κ} :
      (P : A → Type κ) (q : A → Bool) (xs : List A)
      → ((x : A) → q x ≡ true → P x)
      → All P (rows_where q xs)
  All-rows_where P q [] h = tt
  All-rows_where P q (x ∷ xs) h = pick (All-rows_where P q xs h) (q x) refl
    where
      pick :
          All P (rows_where q xs)
          → (b : Bool) → q x ≡ b
          → All P (if b then x ∷ rows_where q xs else rows_where q xs)
      pick rest true e = (h x e, rest)
      pick rest false e = rest

-- `page < 1` gives the default.
abbrev pub at_least_one : ℤ → ℕ → ℕ
at_least_one (pos zero) default = default
at_least_one (pos (suc n)) default = suc n
at_least_one (negsuc n) default = default
