-- ===== src/HardeningRepository/LogPages.antt =====
-- Logs: what a request for the logs of a task gets.
use beetle_shield_backend.Prelude.{
  ℕ, ◌≤◌, ◌≡◌, ◌∙◌, refl, ap, subst, sym, true, ◌||◌, List, All, length, take, ◌==◌, ltb,
  rows_where, arith,
}
use beetle_shield_backend.Prelude.Int.{ℤ, pos, negsuc}
use beetle_shield_backend.Prelude.Sorting.{
  All-rows_where, All-sort_by, All-take, length-take, sort_by,
}
use beetle_shield_backend.Model.{HardeningLog}
use beetle_shield_backend.Store.{Db, World, ok}
use beetle_shield_backend.Store.Outcomes.{Leads-query}
use beetle_shield_backend.HardeningRepository.Queries.{
  HardeningLogFilter, log_limit, log_matches, logs,
}

log_limit-le : (limit : ℤ) → log_limit limit ≤ 500
log_limit-le (pos n) = ground arith
log_limit-le (negsuc n) = ground arith

-- A request for logs gets at most 500 rows, all of the task asked for, and all behind the row that
-- it asks to go on from, if it names one.
pub logs_lem :
    (task_id : ℕ) (filter : HardeningLogFilter) (w : World) (ls : List HardeningLog)
    → (logs task_id filter w).0 ≡ ok ls
    → (length ls ≤ 500)
      × All
          (λ l. (l.task_id ≡ task_id) × ((filter.after_id == 0 || ltb filter.after_id l.id) ≡ true))
          ls
unfolding logs
logs_lem task_id filter w ls e =
    let r = (Leads-query (λ d. d ≡ w.db) page).at w refl ls e in
    subst Good (sym (r.1 ∙ ap page r.0)) (good w.db)
  where
    page : Db → List HardeningLog
    page d = take (log_limit filter.limit) (
        sort_by (λ (l m : HardeningLog). ltb l.id m.id)
          (rows_where (log_matches task_id filter d) d.logs))

    Fits : HardeningLog → Type 0
    Fits l = (l.task_id ≡ task_id) × ((filter.after_id == 0 || ltb filter.after_id l.id) ≡ true)

    Good : List HardeningLog → Type 0
    Good ls = (length ls ≤ 500) × All Fits ls

    fits : (d : Db) (l : HardeningLog) → log_matches task_id filter d l ≡ true → Fits l
    fits d l m = (ground (arith, m), ground (arith, m))

    good : (d : Db) → Good (page d)
    good d = (
      omega (
        arith,
        length-take (log_limit filter.limit) (
            sort_by (λ (l m : HardeningLog). ltb l.id m.id)
              (rows_where (log_matches task_id filter d) d.logs)),
        log_limit-le filter.limit,
      ),
      All-take Fits _ _ (All-sort_by Fits _ _ (All-rows_where Fits _ d.logs (fits d))),
    )
