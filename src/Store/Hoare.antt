-- ===== src/Store/Hoare.antt =====
-- What a call keeps of the tables: one rule for each way to build an operation.
use beetle_shield_backend.Prelude.{
  if◌then◌else◌, ℕ, suc, String, Option, none, some, Bool, true, false, not, ◌==◌, count_where,
  update_where,
}
use beetle_shield_backend.Model.{App, HardeningStep, HardeningTask}
use beetle_shield_backend.Store.Base.{
  Error, Result, ok, err, Db, World, M, ◌>>=◌, continue, map_error, record_not_found, pure, fail,
  guard, call, time_now, or_not_found, ignore, attempt, from_result,
}
use beetle_shield_backend.Store.Statements.{
  external_call, query, execute, insert_row, first, finish, transaction, require_updated_row,
  update_tasks, update_steps, update_apps,
}

-- However the operation ends, a property of the tables that held before holds after it.
pub record Keeps {A : Type 0} (P : Db → Type 0) (m : M A) : Type 0 where
  pub at : (w : World) → P w.db → P (m w).1.db

ended :
    (P : Db → Type 0) {A : Type 0} (before : Db) (r : Result A × World)
    → P before
    → P r.1.db
    → P (finish before r).1.db
ended P before (err e, w) p q = p
ended P {A} before (ok a, w) p q = commit (w.fault w.calls)
  where
    commit :
        (o : Option String)
        → let r : Result A × World = elim o [
          | some e ↦ (err (Error.external e), record w { db = before; calls = suc w.calls })
          | none ↦ (ok a, record w { calls = suc w.calls })
        ] in
          P r.1.db
    commit none = q
    commit (some e) = p

module _ {P : Db → Type 0} {A : Type 0} where
  pub Keeps-pure : (a : A) → Keeps P (pure a)
  unfolding pure
  Keeps-pure a = record { at = λ w p. p }

  pub Keeps-fail : (e : Error) → Keeps P (fail {A = A} e)
  unfolding fail
  Keeps-fail e = record { at = λ w p. p }

  pub Keeps-or_not_found : (o : Option A) → Keeps P (or_not_found o)
  unfolding or_not_found
  Keeps-or_not_found none = record { at = λ w p. p }
  Keeps-or_not_found (some a) = record { at = λ w p. p }

  pub Keeps-from_result : (r : Result A) → Keeps P (from_result r)
  unfolding from_result
  Keeps-from_result r = record { at = λ w p. p }

  pub Keeps-call :
      (f : World → A × World) → ((w : World) → P w.db → P (f w).1.db) → Keeps P (call f)
  unfolding call
  Keeps-call f h = record { at = λ w p. split w p (w.fault w.calls) }
    where
      split :
          (w : World)
          → P w.db
          → (o : Option String)
          → let r : Result A × World = elim o [
            | some e ↦ (err (Error.external e), record w { calls = suc w.calls })
            | none ↦ let (a, w') = f w in (ok a, record w' { calls = suc w.calls })
          ] in
            P r.1.db
      split w p none = h w p
      split w p (some e) = p

  pub Keeps-query : (f : Db → A) → Keeps P (query f)
  unfolding query
  Keeps-query f = Keeps-call (λ w. (f w.db, w)) (λ w p. p)

  pub Keeps-execute : (f : Db → A × Db) → ((d : Db) → P d → P (f d).1) → Keeps P (execute f)
  unfolding execute
  Keeps-execute f h = Keeps-call (λ w. ((f w.db).0, record w { db = (f w.db).1 })) (λ w p. h w.db p)

  pub Keeps-insert_row :
      (f : ℕ → ℕ → Db → A × Db)
      → ((id now : ℕ) (d : Db) → P d → P (f id now d).1)
      → Keeps P (insert_row f)
  unfolding insert_row
  Keeps-insert_row f h =
      Keeps-call
        (λ w.
          let (a, d) = f w.next_id (w.clock w.calls) w.db in
          (a, record w { db = d; next_id = suc w.next_id }))
        (λ w p. h w.next_id (w.clock w.calls) w.db p)

  pub Keeps-ignore : (m : M A) → Keeps P m → Keeps P (ignore m)
  unfolding ignore
  Keeps-ignore m h = record { at = λ w p. h.at w p }

  pub Keeps-attempt : (m : M A) → Keeps P m → Keeps P (attempt m)
  unfolding attempt
  Keeps-attempt m h = record { at = λ w p. h.at w p }

  pub Keeps-map_error : (g : Error → Error) (m : M A) → Keeps P m → Keeps P (map_error g m)
  unfolding map_error
  Keeps-map_error g m h = record { at = λ w p. split (m w) (h.at w p) }
    where
      split :
          (r : Result A × World)
          → P r.1.db
          → let s : Result A × World = elim r.0 [ ok a ↦ (ok a, r.1) | err e ↦ (err (g e), r.1) ] in
            P s.1.db
      split (ok a, w') q = q
      split (err e, w') q = q

module _ {P : Db → Type 0} {A B : Type 0} where
  pub Keeps-bind :
      (m : M A) (f : A → M B) → Keeps P m → ((a : A) → Keeps P (f a)) → Keeps P (m >>= f)
  unfolding ◌>>=◌
  Keeps-bind m f hm hf = record { at = λ w p. split (m w) (hm.at w p) }
    where
      split : (r : Result A × World) → P r.1.db → P (continue f r).1.db
      split (ok a, w') q = (hf a).at w' q
      split (err e, w') q = q

module _ {P : Db → Type 0} where
  pub Keeps-time_now : Keeps P time_now
  unfolding time_now
  Keeps-time_now = record { at = λ w p. p }

  pub Keeps-guard : (b : Bool) (e : Error) → Keeps P (guard b e)
  unfolding guard
  Keeps-guard true e = record { at = λ w p. p }
  Keeps-guard false e = record { at = λ w p. p }

  pub Keeps-external_call : Keeps P external_call
  unfolding external_call
  Keeps-external_call = Keeps-call (λ w. (tt, w)) (λ w p. p)

  pub Keeps-first : {A : Type 0} (f : Db → Option A) → Keeps P (first f)
  unfolding first
  Keeps-first f = Keeps-bind (query f) or_not_found (Keeps-query f) Keeps-or_not_found

  pub Keeps-transaction : {A : Type 0} (m : M A) → Keeps P m → Keeps P (transaction m)
  unfolding transaction
  Keeps-transaction m hm =
      Keeps-bind external_call (λ _ v. finish v.db (m v)) Keeps-external_call
        (λ _. record { at = λ v p. ended P v.db (m v) p (hm.at v p) })

  pub Keeps-require_updated_row : (m : M ℕ) → Keeps P m → Keeps P (require_updated_row m)
  unfolding require_updated_row
  Keeps-require_updated_row m hm =
      Keeps-bind m (λ n. guard (not (n == 0)) record_not_found) hm
        (λ n. Keeps-guard (not (n == 0)) record_not_found)

  pub Keeps-update_tasks :
      (p : HardeningTask → Bool) (f : HardeningTask → HardeningTask)
      → ((d : Db) → P d → P (record d { tasks = update_where p f d.tasks }))
      → Keeps P (update_tasks p f)
  unfolding update_tasks
  Keeps-update_tasks p f h =
      Keeps-execute (λ d. (count_where p d.tasks, record d { tasks = update_where p f d.tasks })) h

  pub Keeps-update_steps :
      (p : HardeningStep → Bool) (f : HardeningStep → HardeningStep)
      → ((d : Db) → P d → P (record d { steps = update_where p f d.steps }))
      → Keeps P (update_steps p f)
  unfolding update_steps
  Keeps-update_steps p f h =
      Keeps-execute (λ d. (count_where p d.steps, record d { steps = update_where p f d.steps })) h

  pub Keeps-update_apps :
      (p : App → Bool) (f : App → App)
      → ((d : Db) → P d → P (record d { apps = update_where p f d.apps }))
      → Keeps P (update_apps p f)
  unfolding update_apps
  Keeps-update_apps p f h =
      Keeps-execute (λ d. (count_where p d.apps, record d { apps = update_where p f d.apps })) h

pub Keeps-if :
    {P : Db → Type 0} {A : Type 0} (b : Bool) (m n : M A)
    → Keeps P m
    → Keeps P n
    → Keeps P (if b then m else n)
Keeps-if true m n hm hn = hm
Keeps-if false m n hm hn = hn

pub ruleset keeps_rules = (
  Keeps-if, Keeps-pure, Keeps-fail, Keeps-or_not_found, Keeps-from_result, Keeps-query,
  Keeps-ignore, Keeps-attempt, Keeps-map_error, Keeps-bind, Keeps-time_now, Keeps-guard,
  Keeps-external_call, Keeps-first, Keeps-transaction, Keeps-require_updated_row,
)
