-- ===== src/Worker/Keeping.antt =====
-- What a run of a task keeps of the tables: what the recording of its artifacts and its completion
-- keep, if it does not speak of steps and logs.
use beetle_shield_backend.Prelude.{ℕ, zero, suc, String, Option, none, some, List, [], ◌∷◌}
use beetle_shield_backend.Model.{HardeningLogLevel, HardeningStep, HardeningStepKey, RiskLevel}
use beetle_shield_backend.Store.{Db, Result, ok, err, M}
use beetle_shield_backend.Store.Hoare.{
  Keeps, Keeps-attempt, Keeps-bind, Keeps-call, Keeps-if, Keeps-ignore, keeps_rules,
}
use beetle_shield_backend.HardeningRepository.{
  Artifacts, LoadedTask, complete_task_for_app, find_step, record_artifacts,
}
use beetle_shield_backend.HardeningRepository.Histories.{
  append_log-any, finish_step_failed-any, finish_step_success-any, start_step-any,
}
use beetle_shield_backend.Worker.Artifacts.{
  ArtifactInfo, after_upload, delete_object, delete_objects, put_object, rollback_artifacts,
  upload_artifacts, upload_from, upload_one,
}
use beetle_shield_backend.Worker.Steps.{
  Config, EngineRun, Outcome, end_step, engine_result, log_line, log_lines, run_engine_step,
  run_step, started, unless_error,
}
use beetle_shield_backend.Worker.Run.{
  collect, collect_found, collect_signed, completed, prepare, record_uploaded, rolled_back,
  run_task, upload_and_complete, upload_step,
}

module _ (P : Db → Type 0) (any_steps : (d : Db) (ss : _) → P d → P (record d { steps = ss }))
    (any_logs : (d : Db) (ls : _) → P d → P (record d { logs = ls }))
    (records : (id : ℕ) (a : Artifacts) → Keeps P (record_artifacts id a))
    (completes : (id : ℕ) (a : Artifacts) (now : ℕ) (r : RiskLevel)
      → Keeps P (complete_task_for_app id a now r)) where
  log_line-any :
      (id : ℕ) (step : Option ℕ) (level : HardeningLogLevel) (m : String)
      → Keeps P (log_line id step level m)
  unfolding log_line
  log_line-any id step level m = append_log-any P any_steps any_logs _

  end_step-any :
      {A : Type 0} (id : ℕ) (step : HardeningStep) (o : Outcome A) → Keeps P (end_step id step o)
  unfolding end_step
  end_step-any id step (a, ok _) =
      search (keeps_rules, finish_step_success-any P any_steps any_logs)
  end_step-any id step (a, err e) =
      search (keeps_rules, finish_step_failed-any P any_steps any_logs, log_line-any)

  started-any :
      {A : Type 0} (id : ℕ) (fn : HardeningStep → M (Outcome A)) (unset : A)
      (r : Result HardeningStep)
      → ((s : HardeningStep) → Keeps P (fn s))
      → Keeps P (started id fn unset r)
  started-any id fn unset (ok step) h = Keeps-bind _ _ (h step) (end_step-any id step)
  started-any id fn unset (err e) h = search keeps_rules

  run_step-any :
      {A : Type 0} (id : ℕ) (key : HardeningStepKey) (unset : A)
      (fn : HardeningStep → M (Outcome A))
      → ((s : HardeningStep) → Keeps P (fn s))
      → Keeps P (run_step id key unset fn)
  unfolding run_step find_step
  run_step-any id key unset fn h =
      Keeps-bind _ _ (search (keeps_rules, start_step-any P any_steps any_logs))
        (λ r. started-any id fn unset r h)

  unless_error-any :
      {A B : Type 0} (unset : B) (next : A → M (Outcome B)) (o : Outcome A)
      → ((a : A) → Keeps P (next a))
      → Keeps P (unless_error unset next o)
  unless_error-any unset next (a, ok _) h = h a
  unless_error-any unset next (a, err e) h = search keeps_rules

  put_object-any : (key : String) → Keeps P (put_object key)
  unfolding put_object
  put_object-any key = Keeps-call _ (λ w p. p)

  delete_object-any : (key : String) → Keeps P (delete_object key)
  unfolding delete_object
  delete_object-any key = Keeps-call _ (λ w p. p)

  delete_objects-any :
      (keys : List String) (r : Result (Unit {0})) → Keeps P (delete_objects keys r)
  unfolding delete_objects
  delete_objects-any [] r = search keeps_rules
  delete_objects-any (key ∷ rest) r =
      Keeps-bind _ _ (Keeps-attempt _ (delete_object-any key)) (λ s. delete_objects-any rest _)

  after_upload-any :
      (keys : List String) (key : String) (rest : M (List String × Result (Unit {0})))
      (r : Result (Unit {0}))
      → Keeps P rest
      → Keeps P (after_upload keys key rest r)
  after_upload-any keys key rest (ok _) h = h
  after_upload-any keys key rest (err e) h = search keeps_rules

  upload_from-any :
      (artifacts : List ArtifactInfo) (keys : List String) → Keeps P (upload_from keys artifacts)
  unfolding upload_from upload_one
  upload_from-any [] keys = search keeps_rules
  upload_from-any (a ∷ rest) keys = Keeps-if _ _ _ (upload_from-any rest keys) (
      Keeps-bind _ _ (search (keeps_rules, put_object-any))
        (λ r. after_upload-any keys a.object_key _ r (upload_from-any rest _)))

  log_lines-any :
      (id step : ℕ) (lines : List (HardeningLogLevel × String)) → Keeps P (log_lines id step lines)
  unfolding log_lines
  log_lines-any id step [] = search keeps_rules
  log_lines-any id step ((level, line) ∷ rest) =
      Keeps-bind _ _ (Keeps-ignore _ (log_line-any id _ level line))
        (λ _. log_lines-any id step rest)

  engine_result-any : (o : Option String) → Keeps P (engine_result o)
  engine_result-any none = search keeps_rules
  engine_result-any (some e) = search keeps_rules

  collect_signed-any :
      (id step : ℕ) (path key : String) (file : Option (String × ℕ))
      → Keeps P (collect_signed id step path key file)
  unfolding collect_signed
  collect_signed-any id step path key none = search (keeps_rules, log_line-any)
  collect_signed-any id step path key (some (sum, zero)) = search (keeps_rules, log_line-any)
  collect_signed-any id step path key (some (sum, suc size)) = search keeps_rules

  collect_found-any :
      (id step : ℕ) (path : String) (key : String → String) (signed unsigned : Option (String × ℕ))
      → Keeps P (collect_found id step path key signed unsigned)
  collect_found-any id step path key signed none = search keeps_rules
  collect_found-any id step path key signed (some (sum, zero)) = search keeps_rules
  collect_found-any id step path key signed (some (sum, suc size)) =
      search (keeps_rules, collect_signed-any)

  run_engine_step-any :
      (id : ℕ) (run : EngineRun) (s : HardeningStep) → Keeps P (run_engine_step id run s)
  unfolding run_engine_step
  run_engine_step-any id run s = search (keeps_rules, log_lines-any, engine_result-any)

  collect-any :
      (id step : ℕ) (path : String) (key : String → String) (run : EngineRun)
      → Keeps P (collect id step path key run)
  unfolding collect
  collect-any id step path key run = collect_found-any id step path key _ _

  prepare-any : (cfg : Config) (t : LoadedTask) → Keeps P (prepare cfg t)
  unfolding prepare
  prepare-any cfg t =
      search
        (
          keeps_rules, run_step-any, unless_error-any, log_line-any, run_engine_step-any,
          collect-any,
        )
        depth 40

  record_uploaded-any :
      (id : ℕ) (a : Artifacts) (o : Outcome (List String)) → Keeps P (record_uploaded id a o)
  record_uploaded-any id a (keys, ok _) = search (keeps_rules, records)
  record_uploaded-any id a (keys, err e) = search keeps_rules

  completed-any :
      (t : LoadedTask) (a : ArtifactInfo × ArtifactInfo) (o : Outcome (List String))
      → Keeps P (completed t a o)
  completed-any t a (keys, ok _) = search (keeps_rules, completes)
  completed-any t a (keys, err e) = search keeps_rules

  upload_and_complete-any :
      (t : LoadedTask) (a : ArtifactInfo × ArtifactInfo) → Keeps P (upload_and_complete t a)
  unfolding upload_and_complete upload_step upload_artifacts
  upload_and_complete-any t (unsigned, signed) =
      Keeps-bind _ _
        (run_step-any _ _ _ _ (λ s.
          Keeps-bind _ _ (upload_from-any (unsigned ∷ signed ∷ []) [])
            (λ o. record_uploaded-any _ _ o)))
        (λ o. completed-any t (unsigned, signed) o)

  rolled_back-any : (o : Outcome (List String)) → Keeps P (rolled_back o)
  unfolding rollback_artifacts
  rolled_back-any (keys, ok _) = search keeps_rules
  rolled_back-any ([], err e) = search keeps_rules
  rolled_back-any ((key ∷ keys), err e) = search (keeps_rules, delete_objects-any)

  pub run_task-any : (cfg : Config) (t : LoadedTask) → Keeps P (run_task cfg t)
  unfolding run_task
  run_task-any cfg t = Keeps-bind _ _ (search keeps_rules) (λ _.
      Keeps-bind _ _ (prepare-any cfg t) (λ collected.
        Keeps-bind _ _ (unless_error-any _ _ collected (upload_and_complete-any t))
          (λ uploaded. Keeps-bind _ _ (rolled_back-any uploaded) (λ r. search keeps_rules))))
