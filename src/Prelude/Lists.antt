-- ===== src/Prelude/Lists.antt =====
-- Lists as the tables and slices of the program use them: rows picked, counted and updated by a
-- test, as `Where`, `Count`, `First` and `Updates` do.
use Prim.Native.Nat.{ℕ, zero, suc, ◌+◌, ◌≤◌}
use mathlib.Core.Path.{◌≡◌, refl}
use mathlib.Core.Bool.{Bool, true, false}
use mathlib.Core.Option.{Option, none, some}
use mathlib.Core.List.{List, [], ◌∷◌, ◌++◌}
use native.Mathlib.Omega.{arith}
use beetle_shield_backend.Prelude.Tests.{if◌then◌else◌}

module _ {ℓ} {A : Type ℓ} where
  abbrev pub length : List A → ℕ
  length [] = 0
  length (x ∷ xs) = suc (length xs)

  abbrev pub take : ℕ → List A → List A
  take zero xs = []
  take (suc n) [] = []
  take (suc n) (x ∷ xs) = x ∷ take n xs

  -- The rows that a test picks.
  abbrev pub rows_where : (A → Bool) → List A → List A
  rows_where p [] = []
  rows_where p (x ∷ xs) = let rest = rows_where p xs in if p x then x ∷ rest else rest

  abbrev pub count_where : (A → Bool) → List A → ℕ
  count_where p [] = 0
  count_where p (x ∷ xs) = (if p x then 1 else 0) + count_where p xs

  abbrev pub first_where : (A → Bool) → List A → Option A
  first_where p [] = none
  first_where p (x ∷ xs) = if p x then some x else first_where p xs

  abbrev pub update_where : (A → Bool) → (A → A) → List A → List A
  update_where p f [] = []
  update_where p f (x ∷ xs) = (if p x then f x else x) ∷ update_where p f xs

  abbrev pub delete_where : (A → Bool) → List A → List A
  delete_where p [] = []
  delete_where p (x ∷ xs) = let rest = delete_where p xs in if p x then rest else x ∷ rest

  -- A property of every element.
  abbrev pub All {κ} : (A → Type κ) → List A → Type κ
  All P [] = Unit
  All P (x ∷ xs) = P x × All P xs

  pub All-append {κ} : (P : A → Type κ) (xs ys : List A) → All P xs → All P ys → All P (xs ++ ys)
  All-append P [] ys hx hy = hy
  All-append P (x ∷ xs) ys hx hy = (hx.0, All-append P xs ys hx.1 hy)

  pub All-imp {κ ι} :
      (P : A → Type κ) (Q : A → Type ι) (xs : List A) → ((x : A) → P x → Q x) → All P xs → All Q xs
  All-imp P Q [] h a = tt
  All-imp P Q (x ∷ xs) h a = (h x a.0, All-imp P Q xs h a.1)

  pub count_where-append :
      (p : A → Bool) (xs ys : List A)
      → count_where p (xs ++ ys) ≡ count_where p xs + count_where p ys
  count_where-append p [] ys = omega arith
  count_where-append p (x ∷ xs) ys = omega (arith, count_where-append p xs ys)

  -- An update that gives no row a property it lacked does not raise the count.
  pub count_where-update_where-le :
      (p q : A → Bool) (f : A → A) (xs : List A)
      → ((x : A) → q x ≡ true → p (f x) ≡ true → p x ≡ true)
      → count_where p (update_where q f xs) ≤ count_where p xs
  count_where-update_where-le p q f [] h = omega arith
  count_where-update_where-le p q f (x ∷ xs) h =
      ground (arith, h x, count_where-update_where-le p q f xs h)

  -- An update keeps a property of all rows that it keeps on the rows it picks.
  pub All-update_where {κ} :
      (P : A → Type κ) (q : A → Bool) (f : A → A) (xs : List A)
      → ((x : A) → q x ≡ true → P x → P (f x))
      → All P xs
      → All P (update_where q f xs)
  All-update_where P q f [] h a = tt
  All-update_where P q f (x ∷ xs) h a = (pick (q x) refl, All-update_where P q f xs h a.1)
    where
      pick : (b : Bool) → q x ≡ b → P (if b then f x else x)
      pick true e = h x e a.0
      pick false e = a.0

  -- No row is updated if no row is picked.
  pub update_where_none :
      (q : A → Bool) (f : A → A) (xs : List A) → count_where q xs ≡ 0 → update_where q f xs ≡ xs
  update_where_none q f [] h = refl
  update_where_none q f (x ∷ xs) h = ground (arith, update_where_none q f xs)
