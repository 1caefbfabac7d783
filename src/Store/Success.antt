-- ===== src/Store/Success.antt =====
-- Total correctness: from a world in which no further call fails, an operation succeeds.
use beetle_shield_backend.Prelude.{
  ℕ, suc, ◌≤◌, ◌≡◌, ◌≢◌, refl, sym, ap, ◌∙◌, Option, none, some, Bool, true, false, not, ◌==◌,
  arith,
}
use beetle_shield_backend.Store.Base.{
  record_not_found, Result, ok, Db, World, M, ◌>>=◌, continue, pure, guard, call, time_now,
  or_not_found, attempt, from_result, ignore,
}
use beetle_shield_backend.Store.Statements.{
  external_call, query, execute, insert_row, first, finish, require_updated_row, transaction,
}

-- No call fails from here on.
pub record Fine (w : World) : Type 0 where
  pub no_fault : (n : ℕ) → w.calls ≤ n → w.fault n ≡ none

-- From a world in which no further call fails and whose tables satisfy `P`, the operation succeeds
-- with a result that satisfies `Q`, and still no further call fails.
pub record Succeeds {A : Type 0} (P : Db → Type 0) (m : M A) (Q : A → Db → Type 0) : Type 0 where
  pub at :
      (w : World) → Fine w → P w.db → (a : A) × (v : World) × (m w ≡ (ok a, v)) × Fine v × Q a v.db

later : (w : World) → Fine w → Fine (record w { calls = suc w.calls })
later w f = record { no_fault = λ n h. f.no_fault n (omega arith) }

-- A call that leaves the numbers of the calls and their faults alone.
pub call_runs :
    {A : Type 0} (f : World → A × World) (w : World)
    → Fine w
    → call f w ≡ (ok (f w).0, record (f w).1 { calls = suc w.calls })
unfolding call
call_runs f w fine = rw (fine.no_fault w.calls (omega arith), call) refl

module _ {A : Type 0} where
  pub Succeeds-pure :
      (P : Db → Type 0) (Q : A → Db → Type 0) (a : A)
      → ((d : Db) → P d → Q a d)
      → Succeeds P (pure a) Q
  unfolding pure
  Succeeds-pure P Q a h = record { at = λ w f p. (a, w, refl, f, h w.db p) }

  pub Succeeds-from_result :
      (P : Db → Type 0) (a : A) → Succeeds P (from_result (ok a)) (λ b d. P d × (b ≡ a))
  unfolding from_result
  Succeeds-from_result P a = record { at = λ w f p. (a, w, refl, f, (p, refl)) }

  pub Succeeds-query :
      (P : Db → Type 0) (f : Db → A) → Succeeds P (query f) (λ a d. P d × (a ≡ f d))
  unfolding query
  Succeeds-query P f = record {
    at = λ w fine p. (f w.db, _, call_runs (λ w. (f w.db, w)) w fine, later w fine, (p, refl));
  }

  pub Succeeds-execute :
      (P : Db → Type 0) (Q : A → Db → Type 0) (f : Db → A × Db)
      → ((d : Db) → P d → Q (f d).0 (f d).1)
      → Succeeds P (execute f) Q
  unfolding execute
  Succeeds-execute P Q f h = record {
    at = λ w fine p. (
      (f w.db).0,
      _,
      call_runs (λ w. ((f w.db).0, record w { db = (f w.db).1 })) w fine,
      record { no_fault = (later w fine).no_fault },
      h w.db p,
    );
  }

  pub Succeeds-insert_row :
      (P : Db → Type 0) (Q : A → Db → Type 0) (f : ℕ → ℕ → Db → A × Db)
      → ((id now : ℕ) (d : Db) → P d → Q (f id now d).0 (f id now d).1)
      → Succeeds P (insert_row f) Q
  unfolding insert_row
  Succeeds-insert_row P Q f h = record {
    at = λ w fine p. (
      (f w.next_id (w.clock w.calls) w.db).0,
      _,
      call_runs
          (λ w. (
            (f w.next_id (w.clock w.calls) w.db).0,
            record w { db = (f w.next_id (w.clock w.calls) w.db).1; next_id = suc w.next_id },
          ))
          w fine,
      record { no_fault = (later w fine).no_fault },
      h w.next_id (w.clock w.calls) w.db p,
    );
  }

  pub Succeeds-attempt :
      (P : Db → Type 0) (Q : A → Db → Type 0) (m : M A)
      → Succeeds P m Q
      → Succeeds P (attempt m) (λ r d. (a : A) × (r ≡ ok a) × Q a d)
  unfolding attempt
  Succeeds-attempt P Q m h = record {
    at = λ w fine p.
        let (a, v, e, g, q) = h.at w fine p in
        (ok a, v, ap (λ r. (ok r.0, r.1)) e, g, (a, refl, q));
  }

  pub Succeeds-ignore :
      (P : Db → Type 0) (Q : Db → Type 0) (m : M A)
      → Succeeds P m (λ _. Q)
      → Succeeds P (ignore m) (λ _. Q)
  unfolding ignore
  Succeeds-ignore P Q m h = record {
    at = λ w fine p. let (a, v, e, g, q) = h.at w fine p in (tt, v, ap (λ r. (ok tt, r.1)) e, g, q);
  }

  commit_runs :
      (before : Db) (r : Result A × World) (a : A) (v : World)
      → r ≡ (ok a, v)
      → Fine v
      → finish before r ≡ (ok a, record v { calls = suc v.calls })
  commit_runs before r a v e g =
      ap (finish before) e ∙ rw (g.no_fault v.calls (omega arith), finish) refl

  pub Succeeds-transaction :
      (P : Db → Type 0) (Q : A → Db → Type 0) (m : M A)
      → Succeeds P m Q
      → Succeeds P (transaction m) Q
  unfolding transaction external_call ◌>>=◌
  Succeeds-transaction P Q m h = record {
    at = λ w fine p.
        let (a, v, e, g, q) = h.at (record w { calls = suc w.calls }) (later w fine) p in
        (
          a,
          _,
          begun w fine ∙ commit_runs w.db (m (record w { calls = suc w.calls })) a v e g,
          later v g,
          q,
        );
  }
    where
      begun :
          (w : World)
          → Fine w
          → transaction m w ≡ finish w.db (m (record w { calls = suc w.calls }))
      begun w fine = ap (continue (λ _ v. finish v.db (m v))) (call_runs (λ w. (tt, w)) w fine)

  pub Succeeds-imp :
      (P : Db → Type 0) (Q R : A → Db → Type 0) (m : M A)
      → ((a : A) (d : Db) → Q a d → R a d)
      → Succeeds P m Q
      → Succeeds P m R
  Succeeds-imp P Q R m i h = record {
    at = λ w fine p. let (a, v, e, g, q) = h.at w fine p in (a, v, e, g, i a v.db q);
  }

  -- A fact that holds before may be used, and then forgotten.
  pub Succeeds-given :
      (F : Type 0) (m : M A) (Q : A → Db → Type 0)
      → (F → Succeeds (λ _. Unit) m Q)
      → Succeeds (λ _. F) m Q
  Succeeds-given F m Q h = record { at = λ w fine p. (h p).at w fine tt }

module _ {A B : Type 0} where
  pub Succeeds-bind :
      (P : Db → Type 0) (Q : A → Db → Type 0) (R : B → Db → Type 0) (m : M A) (f : A → M B)
      → Succeeds P m Q
      → ((a : A) → Succeeds (Q a) (f a) R)
      → Succeeds P (m >>= f) R
  unfolding ◌>>=◌
  Succeeds-bind P Q R m f hm hf = record {
    at = λ w fine p.
        let (a, v, e, g, q) = hm.at w fine p in
        let (b, u, e', g', r) = (hf a).at v g q in (b, u, ap (continue f) e ∙ e', g', r);
  }

module _ (P : Db → Type 0) where
  pub Succeeds-time_now : Succeeds P time_now (λ _. P)
  unfolding time_now
  Succeeds-time_now = record { at = λ w fine p. (w.clock w.calls, w, refl, fine, p) }

  pub Succeeds-guard :
      (b : Bool) (e : _) → ((d : Db) → P d → b ≡ true) → Succeeds P (guard b e) (λ _. P)
  unfolding guard
  Succeeds-guard true e h = record { at = λ w fine p. (tt, w, refl, fine, p) }
  Succeeds-guard false e h = record { at = λ w fine p. absurd_test (h w.db p) }
    where
      absurd_test : {C : Type 0} → false ≡ true → C
      absurd_test e = cc

  pub Succeeds-external_call : Succeeds P external_call (λ _. P)
  unfolding external_call
  Succeeds-external_call = record {
    at = λ w fine p. (tt, _, call_runs (λ w. (tt, w)) w fine, later w fine, p);
  }

  pub Succeeds-require_updated_row :
      (Q : Db → Type 0) (m : M ℕ)
      → Succeeds P m (λ n d. (n ≢ 0) × Q d)
      → Succeeds P (require_updated_row m) (λ _. Q)
  unfolding require_updated_row
  Succeeds-require_updated_row Q m h =
      Succeeds-bind P (λ n d. (n ≢ 0) × Q d) (λ _. Q) m (λ n. guard (not (n == 0)) record_not_found)
        h (λ n. passes n)
    where
      passes :
          (n : ℕ) → Succeeds (λ d. (n ≢ 0) × Q d) (guard (not (n == 0)) record_not_found) (λ _. Q)
      passes n =
          unfold guard in
          record {
            at = λ w fine p.
                let e : (not (n == 0)) ≡ true = ground (arith, p.0) in
                (tt, w, rw (e, guard) refl, fine, p.1);
          }

  -- The row that is looked for is there.
  pub Succeeds-first :
      {A : Type 0} (f : Db → Option A)
      → ((d : Db) → P d → (a : A) × (f d ≡ some a))
      → Succeeds P (first f) (λ a d. P d × (f d ≡ some a))
  unfolding first or_not_found
  Succeeds-first {A} f h =
      Succeeds-bind P (λ o d. P d × (o ≡ f d)) (λ a d. P d × (f d ≡ some a)) (query f) or_not_found
        (Succeeds-query P f) (λ o. record { at = λ w fine q. found o w fine q.0 q.1 (h w.db q.0) })
    where
      found :
          (o : Option A) (w : World)
          → Fine w
          → P w.db
          → o ≡ f w.db
          → (a : A) × (f w.db ≡ some a)
          → (a : A) × (v : World) × (or_not_found o w ≡ (ok a, v))
            × Fine v
            × (P v.db × (f v.db ≡ some a))
      found none w fine p e q = cc (q.1, e)
      found (some a) w fine p e q = (a, w, refl, fine, (p, sym e))
