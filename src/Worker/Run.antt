-- ===== src/Worker/Run.antt =====
-- RecoverRunning, ProcessNext and runTask of internal/worker/hardening_worker.go.
use Prim.Native.String.{◌++◌ as append}
use beetle_shield_backend.Prelude.{
  ℕ, zero, suc, Bool, true, false, String, Option, none, some, List, [], ◌∷◌, str_eq, if◌then◌else◌,
}
use beetle_shield_backend.Model.{HardeningLogLevel, HardeningStepKey, HardeningTask}
use beetle_shield_backend.Store.{
  no_unsigned_artifact, empty_unsigned_artifact, persist_completion, Result, ok, err, M, ◌>>=◌,
  ◌>>◌, pure, attempt, ignore, from_result, map_error, time_now, external_call,
}
use beetle_shield_backend.Audit.{error_text}
use beetle_shield_backend.Engine.{
  build_dpt_command, ext, normalize_vmp_rules, signed_test_artifact_path,
}
use beetle_shield_backend.Report.{resolve_risk_level}
use beetle_shield_backend.HardeningRepository.{
  Artifacts, LoadedTask, complete_task_for_app, fail_task_for_app, mark_task_running,
  next_queued_task, record_artifacts, recover_running_tasks,
}
use beetle_shield_backend.Worker.ObjectKey.{artifact_object_key}
use beetle_shield_backend.Worker.Artifacts.{
  ArtifactInfo, no_artifact, delete_object, join_errors, upload_artifacts, rollback_artifacts,
}
use beetle_shield_backend.Worker.Steps.{
  EngineRun, Config, Outcome, log_line, run_step, plain, unless_error, run_engine_step,
}

-- The signed artifact is optional: none, or an empty file, is logged.
unfoldable pub collect_signed : ℕ → ℕ → String → String → Option (String × ℕ) → M ArtifactInfo
collect_signed task_id step_id path key (some (sum, suc size)) =
    pure (record { path = path; object_key = key; size = suc size; sha256 = sum })
collect_signed task_id step_id path key _ = do
  ignore (log_line task_id (some step_id) HardeningLogLevel.warn "未发现测试签名产物")
  pure no_artifact

abbrev pub collect_found :
    ℕ
    → ℕ
    → String
    → (String → String)
    → Option (String × ℕ)
    → Option (String × ℕ)
    → M (Outcome (ArtifactInfo × ArtifactInfo))
collect_found task_id step_id path key signed_file none =
    pure ((no_artifact, no_artifact), err no_unsigned_artifact)
collect_found task_id step_id path key signed_file (some (sum, zero)) =
    pure ((no_artifact, no_artifact), err empty_unsigned_artifact)
collect_found task_id step_id path key signed_file (some (sum, suc size)) = do
  signed ←
      collect_signed task_id step_id (signed_test_artifact_path path) (key "signed_test")
        signed_file
  pure (
    (record { path = path; object_key = key "unsigned"; size = suc size; sha256 = sum }, signed),
    ok tt,
  )

-- The two artifacts, or the error of the unsigned one.
unfoldable pub collect :
    ℕ → ℕ → String → (String → String) → EngineRun → M (Outcome (ArtifactInfo × ArtifactInfo))
collect task_id step_id path key run =
    collect_found task_id step_id path key run.signed_file run.unsigned_file

abbrev pub artifacts_from : ArtifactInfo × ArtifactInfo → Artifacts
artifacts_from (unsigned, signed) = record {
  unsigned_key = unsigned.object_key;
  unsigned_size = unsigned.size;
  unsigned_sha = unsigned.sha256;
  signed_key = signed.object_key;
  signed_size = signed.size;
  signed_sha = signed.sha256;
}

-- The keys are recorded as soon as the objects exist.
abbrev pub record_uploaded : ℕ → Artifacts → Outcome (List String) → M (Outcome (List String))
record_uploaded task_id artifacts (keys, err e) = pure (keys, err e)
record_uploaded task_id artifacts (keys, ok _) = do
  r ← attempt (record_artifacts task_id artifacts)
  pure (keys, r)

unfoldable pub upload_step : ℕ → ArtifactInfo × ArtifactInfo → M (Outcome (List String))
upload_step task_id (unsigned, signed) = do
  uploaded ← upload_artifacts (unsigned ∷ signed ∷ [])
  record_uploaded task_id (artifacts_from (unsigned, signed)) uploaded

abbrev pub completed :
    LoadedTask → ArtifactInfo × ArtifactInfo → Outcome (List String) → M (Outcome (List String))
completed t artifacts (keys, err e) = pure (keys, err e)
completed t artifacts (keys, ok _) = do
  now ← time_now
  r ← attempt (
      map_error persist_completion (
        complete_task_for_app t.task.id (artifacts_from artifacts) now
          (resolve_risk_level t.task.strategy_snapshot)))
  pure (keys, r)

-- The two last steps: the keys uploaded so far come back also where an error ends them.
unfoldable pub upload_and_complete :
    LoadedTask → ArtifactInfo × ArtifactInfo → M (Outcome (List String))
upload_and_complete t artifacts = do
  uploaded ←
      run_step t.task.id HardeningStepKey.upload_artifacts [] (λ _. upload_step t.task.id artifacts)
  completed t artifacts uploaded

-- The deferred rollback.
abbrev pub rolled_back : Outcome (List String) → M (Result (Unit {0}))
rolled_back (keys, ok _) = pure (ok tt)
rolled_back ([], err e) = pure (err e)
rolled_back ((key ∷ keys), err e) = do
  r ← rollback_artifacts (key ∷ keys)
  pure (join_errors (err e) r)

-- The paths of a task.
abbrev pub task_ext : LoadedTask → String
task_ext t = let e = ext t.app.object_key in if str_eq e "" then ".apk" else e

-- `filepath.Join(dir, name)`, where neither has anything to clean
abbrev pub join_path : String → String → String
join_path dir name = append dir (append "/" name)

abbrev pub task_dir : Config → LoadedTask → String
task_dir cfg t = join_path cfg.work_dir t.task.task_no

abbrev pub output_path : Config → LoadedTask → String
output_path cfg t = join_path (task_dir cfg t) (append "output" (task_ext t))

abbrev pub task_command : Config → LoadedTask → List String
task_command cfg t = build_dpt_command (record {
  java_bin = "java";
  jar_path = cfg.jar_path;
  input_path = join_path (task_dir cfg t) (append "input" (task_ext t));
  output_path = output_path cfg t;
  rules_path = join_path (task_dir cfg t) "vmp-rules.txt";
  strategy = t.task.strategy_snapshot;
})

-- What the rules file holds.
abbrev pub rules_text : Config → LoadedTask → String
rules_text cfg t = normalize_vmp_rules t.task.strategy_snapshot.vmp_rules_text cfg.default_vmp_rules

abbrev join_args : List String → String
join_args [] = ""
join_args (a ∷ []) = a
join_args (a ∷ (b ∷ args)) = append a (append " " (join_args (b ∷ args)))

-- The steps up to the artifacts.
unfoldable pub prepare : Config → LoadedTask → M (Outcome (ArtifactInfo × ArtifactInfo))
prepare cfg t =
    let id = t.task.id in
    let command = task_command cfg t in
    let run = cfg.runner command (rules_text cfg t) in
    let unset : ArtifactInfo × ArtifactInfo = (no_artifact, no_artifact) in
    run_step id HardeningStepKey.prepare_input tt (λ _. plain (external_call >> external_call))
    >>= unless_error unset (λ _.
      run_step id HardeningStepKey.parse_package tt (λ step. plain (
        log_line id (some step.id) HardeningLogLevel.info
          (append "应用包名: " (append t.app.package_name (append ", 版本: " t.app.version)))))
      >>= unless_error unset (λ _.
        run_step id HardeningStepKey.apply_strategy tt (λ step.
          plain (
            log_line id (some step.id) HardeningLogLevel.info
              (append "引擎命令: " (join_args command))))
        >>= unless_error unset (λ _.
          run_step id HardeningStepKey.run_engine tt (λ step. plain (run_engine_step id run step))
          >>= unless_error unset (λ _. run_step id HardeningStepKey.collect_artifacts unset (λ step.
            collect id step.id (output_path cfg t)
              (λ kind. artifact_object_key t.app.package_name t.task.task_no kind (task_ext t))
              run)))))

-- The work directory is made first and removed last.
unfoldable pub run_task : Config → LoadedTask → M (Unit {0})
run_task cfg t = do
  external_call
  collected ← prepare cfg t
  uploaded ← unless_error [] (upload_and_complete t) collected
  result ← rolled_back uploaded
  cleanup ← attempt external_call
  from_result (join_errors result cleanup)

abbrev pub settle : LoadedTask → Result (Unit {0}) → M Bool
settle t (ok _) = pure true
settle t (err e) = do
  now ← time_now
  marked ← attempt (fail_task_for_app t.task.id (error_text e) now)
  from_result (join_errors (err e) marked)
  pure true

-- ProcessNext, once a task is found. The source returns `true` beside the error.
unfoldable pub process_task : Config → LoadedTask → M Bool
process_task cfg t = do
  now ← time_now
  mark_task_running t.task.id now
  result ← attempt (run_task cfg t)
  settle t result

abbrev pub process_found : Config → Option LoadedTask → M Bool
process_found cfg none = pure false
process_found cfg (some t) = process_task cfg t

unfoldable pub process_next : Config → M Bool
process_next cfg = next_queued_task >>= process_found cfg

-- A deletion that fails is logged.
unfoldable pub cleanup_keys : List String → M (Unit {0})
cleanup_keys [] = pure tt
cleanup_keys (key ∷ rest) =
    (if str_eq key "" then pure tt else ignore (delete_object key)) >> cleanup_keys rest

unfoldable pub cleanup_recovered_artifacts : List HardeningTask → M (Unit {0})
cleanup_recovered_artifacts [] = pure tt
cleanup_recovered_artifacts (t ∷ rest) =
    cleanup_keys (t.unsigned_object_key ∷ t.signed_test_object_key ∷ [])
    >> cleanup_recovered_artifacts rest

-- RecoverRunning, where the context is not yet cancelled.
unfoldable pub recover_running : M (Unit {0})
recover_running = do tasks ← recover_running_tasks "服务重启导致任务中断"; cleanup_recovered_artifacts tasks
