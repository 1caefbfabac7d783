-- ===== src/Store/Outcomes.antt =====
-- What an operation has done when it succeeds, and that one which fails has done nothing.
use beetle_shield_backend.Prelude.{
  ℕ, suc, String, ◌≡◌, ◌≢◌, refl, ◌∙◌, subst, Option, none, some, Bool, true, false, not, ◌==◌,
  if◌then◌else◌, arith,
}
use beetle_shield_backend.Store.Base.{
  Error, Result, ok, err, Db, World, M, ◌>>=◌, continue, map_error, record_not_found, pure, fail,
  guard, call, or_not_found, external, attempt, from_result,
}
use beetle_shield_backend.Store.Hoare.{Keeps}
use beetle_shield_backend.Store.Statements.{
  external_call, query, execute, insert_row, first, finish, transaction, require_updated_row,
}

-- If the tables satisfy `P` and the operation succeeds with `a`, they satisfy `Q a`.
pub record Leads {A : Type 0} (P : Db → Type 0) (m : M A) (Q : A → Db → Type 0) : Type 0 where
  pub at : (w : World) → P w.db → (a : A) → (m w).0 ≡ ok a → Q a (m w).1.db

-- An operation that fails leaves the tables as they were.
pub record IsAtomic {A : Type 0} (m : M A) : Type 0 where
  pub at : (w : World) (e : Error) → (m w).0 ≡ err e → (m w).1.db ≡ w.db

module _ {A : Type 0} where
  pub Leads-pure :
      (P : Db → Type 0) (Q : A → Db → Type 0) (a : A)
      → ((d : Db) → P d → Q a d)
      → Leads P (pure a) Q
  unfolding pure
  Leads-pure P Q a h = record { at = λ w p b e. subst (λ x. Q x w.db) (value e) (h w.db p) }
    where
      value : {b : A} → ok a ≡ ok b → a ≡ b
      value e = cc

  pub Leads-call :
      (P : Db → Type 0) (Q : A → Db → Type 0) (f : World → A × World)
      → ((w : World) → P w.db → Q (f w).0 (f w).1.db)
      → Leads P (call f) Q
  unfolding call
  Leads-call P Q f h = record { at = λ w p. split w p (w.fault w.calls) }
    where
      split :
          (w : World)
          → P w.db
          → (o : Option String)
          → let r : Result A × World = elim o [
            | some e ↦ (err (external e), record w { calls = suc w.calls })
            | none ↦ let (a, w') = f w in (ok a, record w' { calls = suc w.calls })
          ] in
            (b : A) → r.0 ≡ ok b → Q b r.1.db
      split w p none b e = subst (λ x. Q x (f w).1.db) (cc) (h w p)
      split w p (some x) b e = cc

  pub Leads-query : (P : Db → Type 0) (f : Db → A) → Leads P (query f) (λ a d. P d × (a ≡ f d))
  unfolding query
  Leads-query P f = Leads-call P _ (λ w. (f w.db, w)) (λ w p. (p, refl))

  pub Leads-execute :
      (P : Db → Type 0) (Q : A → Db → Type 0) (f : Db → A × Db)
      → ((d : Db) → P d → Q (f d).0 (f d).1)
      → Leads P (execute f) Q
  unfolding execute
  Leads-execute P Q f h =
      Leads-call P Q (λ w. ((f w.db).0, record w { db = (f w.db).1 })) (λ w p. h w.db p)

  pub Leads-insert_row :
      (P : Db → Type 0) (Q : A → Db → Type 0) (f : ℕ → ℕ → Db → A × Db)
      → ((id now : ℕ) (d : Db) → P d → Q (f id now d).0 (f id now d).1)
      → Leads P (insert_row f) Q
  unfolding insert_row
  Leads-insert_row P Q f h =
      Leads-call P Q
        (λ w.
          let (a, d) = f w.next_id (w.clock w.calls) w.db in
          (a, record w { db = d; next_id = suc w.next_id }))
        (λ w p. h w.next_id (w.clock w.calls) w.db p)

module _ {A B : Type 0} where
  pub Leads-bind :
      (P : Db → Type 0) (Q : A → Db → Type 0) (R : B → Db → Type 0) (m : M A) (f : A → M B)
      → Leads P m Q
      → ((a : A) → Leads (Q a) (f a) R)
      → Leads P (m >>= f) R
  unfolding ◌>>=◌
  Leads-bind P Q R m f hm hf = record { at = λ w p. split (m w) (hm.at w p) }
    where
      split :
          (r : Result A × World)
          → ((a : A) → r.0 ≡ ok a → Q a r.1.db)
          → (b : B) → (continue f r).0 ≡ ok b
          → R b (continue f r).1.db
      split (ok a, w') q b e = (hf a).at w' (q a refl) b e
      split (err x, w') q b e = cc

module _ {A : Type 0} where
  pub Leads-first :
      (P : Db → Type 0) (f : Db → Option A) → Leads P (first f) (λ a d. P d × (f d ≡ some a))
  unfolding first or_not_found
  Leads-first P f =
      Leads-bind P (λ o d. P d × (o ≡ f d)) _ (query f) or_not_found (Leads-query P f)
        (λ o. record { at = λ w p a e. found o w p a e })
    where
      found :
          (o : Option A) (w : World)
          → P w.db × (o ≡ f w.db)
          → (a : A) → (or_not_found o w).0 ≡ ok a
          → P (or_not_found o w).1.db × (f (or_not_found o w).1.db ≡ some a)
      found none w p a e = cc
      found (some x) w p a e = (p.0, cc (p.1))

  -- A transaction that succeeds has done what its body did.
  pub Leads-transaction :
      (P : Db → Type 0) (Q : A → Db → Type 0) (m : M A) → Leads P m Q → Leads P (transaction m) Q
  unfolding transaction external_call
  Leads-transaction P Q m h =
      Leads-bind P (λ _. P) Q external_call (λ _ v. finish v.db (m v))
        (Leads-call P (λ _. P) (λ w. (tt, w)) (λ w p. p))
        (λ _. record { at = λ v p. committed v.db (m v) (h.at v p) })
    where
      committed :
          (before : Db) (r : Result A × World)
          → ((a : A) → r.0 ≡ ok a → Q a r.1.db)
          → (a : A) → (finish before r).0 ≡ ok a
          → Q a (finish before r).1.db
      committed before (err x, w) q a e = cc
      committed before (ok b, w) q a e = commit (w.fault w.calls) e
        where
          commit :
              (o : Option String)
              → let r : Result A × World = elim o [
                | some x ↦ (err (external x), record w { db = before; calls = suc w.calls })
                | none ↦ (ok b, record w { calls = suc w.calls })
              ] in
                r.0 ≡ ok a → Q a r.1.db
          commit none e' = q a e'
          commit (some x) e' = cc

  -- A transaction that fails, at its begin, in its body or at its commit, has changed nothing.
  pub transaction-IsAtomic : (m : M A) → IsAtomic (transaction m)
  unfolding transaction external_call ◌>>=◌
  transaction-IsAtomic m = record { at = λ w x e. begun w x (w.fault w.calls) e }
    where
      rolled :
          (before : Db) (r : Result A × World) (x : Error)
          → (finish before r).0 ≡ err x
          → (finish before r).1.db ≡ before
      rolled before (err y, w) x e = refl
      rolled before (ok b, w) x e = commit (w.fault w.calls) e
        where
          commit :
              (o : Option String)
              → let r : Result A × World = elim o [
                | some y ↦ (err (external y), record w { db = before; calls = suc w.calls })
                | none ↦ (ok b, record w { calls = suc w.calls })
              ] in
                r.0 ≡ err x → r.1.db ≡ before
          commit none e' = cc
          commit (some y) e' = refl

      begun :
          (w : World) (x : Error) (o : Option String)
          → let r : Result (Unit {0}) × World = elim o [
            | some y ↦ (err (external y), record w { calls = suc w.calls })
            | none ↦ (ok tt, record w { calls = suc w.calls })
          ] in
            (continue (λ _ v. finish v.db (m v)) r).0 ≡ err x
            → (continue (λ _ v. finish v.db (m v)) r).1.db ≡ w.db
      begun w x none e = rolled w.db (m (record w { calls = suc w.calls })) x e
      begun w x (some y) e = refl

pub Leads-guard :
    (P : Db → Type 0) (b : Bool) (e : Error) → Leads P (guard b e) (λ _ d. P d × (b ≡ true))
unfolding guard
Leads-guard P true e = record { at = λ w p a h. (p, refl) }
Leads-guard P false e = record { at = λ w p a h. cc }

-- At least one row was updated.
pub Leads-require_updated_row :
    (P : Db → Type 0) (Q : ℕ → Db → Type 0) (m : M ℕ)
    → Leads P m Q
    → Leads P (require_updated_row m) (λ _ d. (n : ℕ) × Q n d × (n ≢ 0))
unfolding require_updated_row
Leads-require_updated_row P Q m h =
    Leads-bind P Q _ m (λ n. guard (not (n == 0)) record_not_found) h (λ n. updated n)
  where
    updated :
        (n : ℕ)
        → Leads (Q n) (guard (not (n == 0)) record_not_found) (λ _ d. (n : ℕ) × Q n d × (n ≢ 0))
    updated n = record {
      at = λ w p a e.
          let g = (Leads-guard (Q n) (not (n == 0)) record_not_found).at w p a e in
          (n, g.0, λ z. ground arith);
    }

module _ {A : Type 0} where
  -- An attempt hands on what a success leads to.
  pub Leads-attempt :
      (P : Db → Type 0) (Q : A → Db → Type 0) (m : M A)
      → Leads P m Q
      → Leads P (attempt m) (λ r d. (a : A) → r ≡ ok a → Q a d)
  unfolding attempt
  Leads-attempt P Q m h = record { at = λ w p r e a e'. h.at w p a (value e ∙ e') }
    where
      value : {r s : Result A} → ok r ≡ ok s → r ≡ s
      value e = cc

  pub Leads-map_error :
      (P : Db → Type 0) (Q : A → Db → Type 0) (g : Error → Error) (m : M A)
      → Leads P m Q
      → Leads P (map_error g m) Q
  unfolding map_error
  Leads-map_error P Q g m h = record { at = λ w p. split (m w) (h.at w p) }
    where
      split :
          (r : Result A × World)
          → ((a : A) → r.0 ≡ ok a → Q a r.1.db)
          → let s : Result A × World = elim r.0 [ ok a ↦ (ok a, r.1) | err e ↦ (err (g e), r.1) ] in
            (a : A) → s.0 ≡ ok a → Q a s.1.db
      split (ok b, w') q a e = q a e
      split (err x, w') q a e = cc

  pub Leads-keeps : (P : Db → Type 0) (m : M A) → Keeps P m → Leads P m (λ _. P)
  Leads-keeps P m k = record { at = λ w p a e. k.at w p }

  pub Leads-any : (P : Db → Type 0) (m : M A) → Leads P m (λ _ _. Unit)
  Leads-any P m = record { at = λ w p a e. tt }

  pub Leads-fail : (P : Db → Type 0) (Q : A → Db → Type 0) (e : Error) → Leads P (fail {A = A} e) Q
  unfolding fail
  Leads-fail P Q e = record { at = λ w p a h. cc }

  pub Leads-from_result :
      (P : Db → Type 0) (r : Result A) → Leads P (from_result r) (λ a _. r ≡ ok a)
  unfolding from_result
  Leads-from_result P r = record { at = λ w p a e. e }

  -- A fact that holds before may be used.
  pub Leads-given :
      (F : Type 0) (m : M A) (Q : A → Db → Type 0) → (F → Leads (λ _. F) m Q) → Leads (λ _. F) m Q
  Leads-given F m Q h = record { at = λ w p. (h p).at w p }

  pub Leads-imp :
      (P : Db → Type 0) (Q R : A → Db → Type 0) (m : M A)
      → ((a : A) (d : Db) → Q a d → R a d)
      → Leads P m Q
      → Leads P m R
  Leads-imp P Q R m i h = record { at = λ w p a e. i a _ (h.at w p a e) }

  pub Leads-if :
      (P : Db → Type 0) (Q : A → Db → Type 0) (b : Bool) (m n : M A)
      → (b ≡ true → Leads P m Q)
      → (b ≡ false → Leads P n Q)
      → Leads P (if b then m else n) Q
  Leads-if P Q true m n hm hn = hm refl
  Leads-if P Q false m n hm hn = hn refl
