-- ===== src/HardeningRepository/Queries.antt =====
-- The queries on tasks, steps and logs. `ilike` is PostgreSQL's ILIKE with the pattern of a
-- contained text, `hour_of` the local hour of a time. A page is computed without overflow: page
-- times page size stays a Go int. `Preload("App")` is a query of its own.
use beetle_shield_backend.Prelude.{
  ℕ, ◌+◌, ◌-◌, ◌*◌, Bool, false, ◌&&◌, ◌||◌, String, Option, none, some, List, [], ◌∷◌, map, ◌==◌,
  ltb, leb, str_eq, take, count_where, first_where, rows_where, if◌then◌else◌,
}
use beetle_shield_backend.Prelude.Int.{ℤ, pos, negsuc, ltb_bound, gtb_bound}
use beetle_shield_backend.Prelude.Sorting.{sort_by, drop, at_least_one}
use beetle_shield_backend.Model.{
  App, zero_app, HardeningLog, HardeningStep, HardeningStepKey, HardeningTask, HardeningTaskStatus,
  is_active, is_queued,
}
use beetle_shield_backend.Store.{Db, M, ◌>>=◌, pure, query, first}
use beetle_shield_backend.HardeningRepository.Tasks.{has_id, app_has_id}

-- A task with its app, the zero struct if the app is gone.
pub record LoadedTask : Type 0 where
  pub task : HardeningTask
  pub app : App

abbrev pub app_or_zero : Option App → App
app_or_zero none = zero_app
app_or_zero (some a) = a

abbrev pub load_app : List App → HardeningTask → LoadedTask
load_app apps t = record { task = t; app = app_or_zero (first_where (app_has_id t.app_id) apps) }

-- No query, where no row was found.
unfoldable pub preload : List HardeningTask → M (List LoadedTask)
preload [] = pure []
preload (t ∷ ts) = query (λ d. map (load_app d.apps) (t ∷ ts))

-- `created_at ASC, id ASC`
abbrev pub older : HardeningTask → HardeningTask → Bool
older t u = ltb t.created_at u.created_at || (t.created_at == u.created_at && ltb t.id u.id)

-- `created_at DESC, id DESC`
abbrev pub newer : HardeningTask → HardeningTask → Bool
newer t u = older u t

abbrev pub queued_in_order : Db → List HardeningTask
queued_in_order d = sort_by older (rows_where (λ t. is_queued t.status) d.tasks)

abbrev pub loaded_first : List LoadedTask → Option LoadedTask
loaded_first [] = none
loaded_first (t ∷ ts) = some t

unfoldable pub next_queued_task : M (Option LoadedTask)
next_queued_task = do
  found ← query (λ d. take 1 (queued_in_order d))
  loaded ← preload found
  pure (loaded_first loaded)

unfoldable pub find_by_id : ℕ → M LoadedTask
find_by_id id = do
  task ← first (λ d. first_where (has_id id) d.tasks)
  query (λ d. load_app d.apps task)

pub record HardeningListFilter : Type 0 where
  pub status : String
  pub app_id : ℕ
  pub search : String
  pub page : ℤ
  pub page_size : ℤ

abbrev pub task_status_text : HardeningTaskStatus → String
task_status_text HardeningTaskStatus.queued = "queued"
task_status_text HardeningTaskStatus.running = "running"
task_status_text HardeningTaskStatus.completed = "completed"
task_status_text HardeningTaskStatus.failed = "failed"

-- The row is on page `page` of pages of `page_size` rows, from 1.
abbrev pub page_of {ℓ} : {A : Type ℓ} → ℕ → ℕ → List A → List A
page_of page page_size rows = take page_size (drop ((page - 1) * page_size) rows)

module _ (ilike : String → String → Bool) where
  -- A joined column of an app that is gone is NULL, and no text is like it.
  abbrev app_like : String → Option App → Bool
  app_like search none = false
  app_like search (some a) = ilike a.name search || ilike a.package_name search

  abbrev pub task_matches : HardeningListFilter → Db → HardeningTask → Bool
  task_matches filter d t =
      (str_eq filter.status "" || str_eq (task_status_text t.status) filter.status)
      && ((filter.app_id == 0 || t.app_id == filter.app_id)
          && (str_eq filter.search ""
              || ilike t.task_no filter.search
              || app_like filter.search (first_where (app_has_id t.app_id) d.apps)))

  unfoldable pub list : HardeningListFilter → M (List LoadedTask × ℕ)
  list filter = do
    total ← query (λ d. count_where (task_matches filter d) d.tasks)
    rows ← query (λ d.
        page_of (at_least_one filter.page 1) (at_least_one filter.page_size 10)
          (sort_by newer (rows_where (task_matches filter d) d.tasks)))
    loaded ← preload rows
    pure (loaded, total)

unfoldable pub recent_by_app : ℕ → ℤ → M (List LoadedTask)
recent_by_app app_id limit = do
  rows ← query (λ d.
      take (at_least_one limit 5) (sort_by newer (rows_where (λ t. t.app_id == app_id) d.tasks)))
  preload rows

unfoldable pub recent : ℤ → M (List LoadedTask)
recent limit = do
  rows ← query (λ d. take (at_least_one limit 5) (sort_by newer d.tasks))
  preload rows

-- The map from statuses to counts, as a function.
abbrev pub count_status : List HardeningTaskStatus → HardeningTaskStatus → ℕ
count_status [] s = 0
count_status (t ∷ ts) s =
    (if str_eq (task_status_text t) (task_status_text s) then 1 else 0) + count_status ts s

unfoldable pub count_by_status_since : ℕ → M (HardeningTaskStatus → ℕ)
count_by_status_since since = do
  statuses ← query (λ d.
      map (λ (t : HardeningTask). t.status) (rows_where (λ t. leb since t.created_at) d.tasks))
  pure (count_status statuses)

module _ (hour_of : ℕ → ℕ) where
  abbrev pub count_hour : List ℕ → ℕ → ℕ
  count_hour [] h = 0
  count_hour (t ∷ ts) h = (if hour_of t == h then 1 else 0) + count_hour ts h

  unfoldable pub hourly_counts_since : ℕ → M (ℕ → ℕ)
  hourly_counts_since since = do
    created_ats ← query (λ d.
        map (λ (t : HardeningTask). t.created_at)
          (rows_where (λ t. leb since t.created_at) d.tasks))
    pure (count_hour created_ats)

unfoldable pub queue_count : M ℕ
queue_count = query (λ d. count_where (λ (t : HardeningTask). is_active t.status) d.tasks)

unfoldable pub steps : ℕ → M (List HardeningStep)
steps task_id = query (λ d.
    sort_by (λ s t. ltb s.sort_order t.sort_order) (rows_where (λ s. s.task_id == task_id) d.steps))

-- The empty `step_key` asks for the logs of every step.
pub record HardeningLogFilter : Type 0 where
  pub step_key : String
  pub after_id : ℕ
  pub limit : ℤ

abbrev pub log_limit : ℤ → ℕ
log_limit limit =
    if ltb_bound limit 0 || gtb_bound limit 500
    then 200
    else elim limit [ pos n ↦ n | negsuc n ↦ 0 ]

abbrev pub step_key_text : HardeningStepKey → String
step_key_text HardeningStepKey.prepare_input = "prepare_input"
step_key_text HardeningStepKey.parse_package = "parse_package"
step_key_text HardeningStepKey.apply_strategy = "apply_strategy"
step_key_text HardeningStepKey.run_engine = "run_engine"
step_key_text HardeningStepKey.collect_artifacts = "collect_artifacts"
step_key_text HardeningStepKey.upload_artifacts = "upload_artifacts"

-- The inner join drops the logs of no step, and of a step that is gone.
abbrev step_has_key : String → Option HardeningStep → Bool
step_has_key key none = false
step_has_key key (some s) = str_eq (step_key_text s.step_key) key

abbrev joined_step : List HardeningStep → Option ℕ → Option HardeningStep
joined_step steps none = none
joined_step steps (some id) = first_where (λ s. s.id == id) steps

abbrev log_of_step : List HardeningStep → String → Option ℕ → Bool
log_of_step steps key step_id = str_eq key "" || step_has_key key (joined_step steps step_id)

abbrev pub log_matches : ℕ → HardeningLogFilter → Db → HardeningLog → Bool
log_matches task_id filter d l =
    l.task_id == task_id
    && ((filter.after_id == 0 || ltb filter.after_id l.id)
        && log_of_step d.steps filter.step_key l.step_id)

unfoldable pub logs : ℕ → HardeningLogFilter → M (List HardeningLog)
logs task_id filter = query (λ d. take (log_limit filter.limit) (
    sort_by (λ (l m : HardeningLog). ltb l.id m.id)
      (rows_where (log_matches task_id filter d) d.logs)))
