-- ===== src/Store/Statements.antt =====
-- The calls that the repositories and the worker make, with what they ask of the tables. The
-- conditions and the assignments of a statement come from the source at each use; what a
-- statement does with them is the documented meaning of SQL: a failed one changes nothing, an
-- update reports the rows that it matched, and a transaction that fails is rolled back.
use beetle_shield_backend.Prelude.{
  ℕ, suc, Bool, not, Option, none, some, ◌==◌, count_where, update_where,
}
use beetle_shield_backend.Model.{App, HardeningStep, HardeningTask}
use beetle_shield_backend.Store.Base.{
  record_not_found, external, Result, ok, err, Db, World, M, ◌>>=◌, call, guard, or_not_found,
  ignore,
}

-- A call that changes nothing that the program keeps.
unfoldable pub external_call : M (Unit {0})
external_call = call (λ w. (tt, w))

unfoldable pub query : {A : Type 0} → (Db → A) → M A
query f = call (λ w. (f w.db, w))

-- A statement that changes the tables.
unfoldable pub execute : {A : Type 0} → (Db → A × Db) → M A
execute f = call (λ w. let (a, d) = f w.db in (a, record w { db = d }))

-- An insert: the row is given its primary key and its time.
unfoldable pub insert_row : {A : Type 0} → (ℕ → ℕ → Db → A × Db) → M A
insert_row f = call (λ w.
    let (a, d) = f w.next_id (w.clock w.calls) w.db in
    (a, record w { db = d; next_id = suc w.next_id }))

-- `First`: an error where no row is found
unfoldable pub first : {A : Type 0} → (Db → Option A) → M A
first f = query f >>= or_not_found

abbrev check_updated : ℕ → M (Unit {0})
check_updated n = guard (not (n == 0)) record_not_found

-- `requireUpdatedRow`
unfoldable pub require_updated_row : M ℕ → M (Unit {0})
require_updated_row m = m >>= check_updated

unfoldable pub update_tasks : (HardeningTask → Bool) → (HardeningTask → HardeningTask) → M ℕ
update_tasks p f =
    execute (λ d. (count_where p d.tasks, record d { tasks = update_where p f d.tasks }))

unfoldable pub update_steps : (HardeningStep → Bool) → (HardeningStep → HardeningStep) → M ℕ
update_steps p f =
    execute (λ d. (count_where p d.steps, record d { steps = update_where p f d.steps }))

unfoldable pub update_apps : (App → Bool) → (App → App) → M ℕ
update_apps p f = execute (λ d. (count_where p d.apps, record d { apps = update_where p f d.apps }))

-- `Transaction`: begin, the body, and commit, or the tables as they were.
abbrev pub finish : {A : Type 0} → Db → Result A × World → Result A × World
finish before (ok a, w) = elim (w.fault w.calls) [
  | some e ↦ (err (external e), record w { db = before; calls = suc w.calls })
  | none ↦ (ok a, record w { calls = suc w.calls })
]
finish before (err e, w) = (err e, record w { db = before })

unfoldable pub transaction : {A : Type 0} → M A → M A
transaction m = external_call >>= λ _ v. finish v.db (m v)

-- Opening this opens every call, so that an operation runs.
unfoldable pub running : Unit {0}
unfolding ◌>>=◌ ignore external_call query execute insert_row first require_updated_row update_tasks
    update_steps update_apps transaction
running = tt
