-- ===== src/Worker/Steps.antt =====
-- The configuration, runStep and the log of internal/worker/hardening_worker.go, and the step that
-- runs the engine. `runner` is the engine behind EngineRunner: for a command and the rules in the
-- rules file, the lines that it prints, the error of its run and the files that it leaves, each with
-- the sum and the size that SHA256File reads.
use beetle_shield_backend.Prelude.{ℕ, String, Option, none, some, List, [], ◌∷◌}
use beetle_shield_backend.Model.{HardeningLogLevel, HardeningStep, HardeningStepKey}
use beetle_shield_backend.Store.{
  external, Result, ok, err, M, ◌>>=◌, ◌>>◌, pure, fail, attempt, ignore, time_now, external_call,
}
use beetle_shield_backend.Audit.{error_text}
use beetle_shield_backend.HardeningRepository.{
  append_log, find_step, finish_step_failed, finish_step_success, start_step,
}

pub record EngineRun : Type 0 where
  pub lines : List (HardeningLogLevel × String)
  pub failure : Option String
  pub unsigned_file : Option (String × ℕ)
  pub signed_file : Option (String × ℕ)

-- `JarPath`, `WorkDir` and `DefaultVMPRules` of HardeningWorkerConfig, and the engine. The timeout
-- only decides which calls fail.
pub record Config : Type 0 where
  pub jar_path : String
  pub work_dir : String
  pub default_vmp_rules : String
  pub runner : List String → String → EngineRun

-- What a closure has assigned, and the error that it returned.
abbrev pub Outcome : Type 0 → Type 0
Outcome A = A × Result (Unit {0})

unfoldable pub log_line : ℕ → Option ℕ → HardeningLogLevel → String → M (Unit {0})
log_line task_id step_id level message = append_log (record {
  id = 0;
  task_id = task_id;
  step_id = step_id;
  level = level;
  message = message;
  created_at = 0;
})

-- How a step that has run ends.
unfoldable pub end_step : {A : Type 0} → ℕ → HardeningStep → Outcome A → M (Outcome A)
end_step task_id step (a, ok _) = do
  now ← time_now
  finished ← attempt (finish_step_success step.id now)
  pure (a, finished)
end_step task_id step (a, err e) = do
  now ← time_now
  ignore (finish_step_failed step.id (error_text e) now)
  ignore (log_line task_id (some step.id) HardeningLogLevel.error (error_text e))
  pure (a, err e)

abbrev pub started :
    {A : Type 0} → ℕ → (HardeningStep → M (Outcome A)) → A → Result HardeningStep → M (Outcome A)
started task_id fn unset (err e) = pure (unset, err e)
started task_id fn unset (ok step) = fn step >>= end_step task_id step

-- `unset` is what the variables hold that the closure assigns, if it is not called.
unfoldable pub run_step :
    {A : Type 0} → ℕ → HardeningStepKey → A → (HardeningStep → M (Outcome A)) → M (Outcome A)
run_step task_id key unset fn = do
  step ←
      attempt (do step ← find_step task_id key; now ← time_now; start_step step.id now; pure step)
  started task_id fn unset step

-- A closure that assigns nothing.
abbrev pub plain : M (Unit {0}) → M (Outcome (Unit {0}))
plain m = attempt m >>= λ r. pure (tt, r)

-- `if err := ...; err != nil { return err }`
abbrev pub unless_error : {A B : Type 0} → B → (A → M (Outcome B)) → Outcome A → M (Outcome B)
unless_error unset next (a, ok _) = next a
unless_error unset next (a, err e) = pure (unset, err e)

-- The callback of the runner: a line that cannot be stored is dropped.
unfoldable pub log_lines : ℕ → ℕ → List (HardeningLogLevel × String) → M (Unit {0})
log_lines task_id step_id [] = pure tt
log_lines task_id step_id ((level, line) ∷ rest) =
    ignore (log_line task_id (some step_id) level line) >> log_lines task_id step_id rest

abbrev pub engine_result : Option String → M (Unit {0})
engine_result none = pure tt
engine_result (some e) = fail (external e)

unfoldable pub run_engine_step : ℕ → EngineRun → HardeningStep → M (Unit {0})
run_engine_step task_id run step = do
  external_call
  log_lines task_id step.id run.lines
  engine_result run.failure
