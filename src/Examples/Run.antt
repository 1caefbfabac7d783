-- ===== src/Examples/Run.antt =====
-- The worker's theorems at runs in which the engine succeeds, fails, or an upload fails.
use beetle_shield_backend.Prelude.{ℕ, arith, ◌≡◌, refl, true, some, none, [], ◌∷◌}
use beetle_shield_backend.Model.{AppStatus, HardeningLogLevel}
use beetle_shield_backend.Store.{World, ok, running}
use beetle_shield_backend.HardeningRepository.{
  LoadedTask, create_task_with_steps_for_app, mark_task_running, create_task_with_default_steps,
  create_steps, find_step, start_step, finish_step_success, append_log, record_artifacts,
  complete_task_for_app, transition_task_for_app, lock_hardening_task, transition_task_for_app_tx,
}
use beetle_shield_backend.Worker.{
  Config, EngineRun, process_task, run_task, prepare, run_step, end_step, log_line, run_engine_step,
  log_lines, collect, collect_signed, upload_step, upload_artifacts, upload_from, upload_one,
  put_object, upload_and_complete,
}
use beetle_shield_backend.Engine.{signed_test_artifact_path, trim_suffix, ext}
use beetle_shield_backend.Prelude.{String, List, All, ◌==◌, if◌then◌else◌}
use beetle_shield_backend.Store.{Result}
use beetle_shield_backend.Worker.{ArtifactInfo, rollback_artifacts, delete_objects, delete_object}
use beetle_shield_backend.Model.{HardeningTask}
use beetle_shield_backend.HardeningRepository.{load_app, next_queued_task, preload}
use beetle_shield_backend.HardeningRepository.Queue.{IsNext, next_queued_task_lem}
use beetle_shield_backend.Worker.Uploads.{stacked, upload_artifacts_lem}
use beetle_shield_backend.Worker.Rollbacks.{IsAbsent, rollback_artifacts_lem}
use beetle_shield_backend.Worker.Settlement.{HasApps, IsSettled}
use beetle_shield_backend.Worker.Liveness.{after_run, process_task-IsSettled}
use beetle_shield_backend.HardeningRepository.{finish_step_failed}
use beetle_shield_backend.Worker.Completion.{IsDone, process_task_lem}
use beetle_shield_backend.Examples.{app_7, zero_task, with_tasks, fair}

abbrev engine_run : EngineRun
engine_run = record {
  lines = (HardeningLogLevel.info, "All done") ∷ [];
  failure = none;
  unsigned_file = some ("aa", 100);
  signed_file = some ("bb", 120);
}

abbrev config : Config
config = record {
  jar_path = "/opt/dpt.jar";
  work_dir = "/work";
  default_vmp_rules = "*";
  runner = λ command rules. engine_run;
}

abbrev queued : World
queued = (create_task_with_steps_for_app zero_task AppStatus.processing (fair (with_tasks []))).1

abbrev loaded : LoadedTask
loaded = record { task = record zero_task { id = 20 }; app = app_7 }

ran : (process_task config loaded queued).0 ≡ ok true
unfolding process_task running mark_task_running create_task_with_steps_for_app
    create_task_with_default_steps create_steps run_task prepare run_step find_step start_step
    end_step finish_step_success log_line append_log run_engine_step log_lines collect
    collect_signed upload_step upload_artifacts upload_from upload_one put_object record_artifacts
    upload_and_complete complete_task_for_app transition_task_for_app lock_hardening_task
    transition_task_for_app_tx signed_test_artifact_path trim_suffix ext
ran = refl

process_task_example : IsDone 20 (process_task config loaded queued).1.db
process_task_example = process_task_lem config loaded queued true ran

-- The engine ends with an error.
abbrev failing : Config
failing = record config {
  runner = λ command rules. record engine_run { failure = some "exit status 1" };
}

taken : (mark_task_running 20 (queued.clock queued.calls) queued).0 ≡ ok tt
unfolding running mark_task_running create_task_with_steps_for_app create_task_with_default_steps
    create_steps
taken = refl

queued-HasApps : HasApps 20 queued.db
unfolding running create_task_with_steps_for_app create_task_with_default_steps create_steps
queued-HasApps = ((λ e z. ground arith), tt)

ends_fair : (n : ℕ) → (after_run failing loaded queued).fault n ≡ none
unfolding process_task running mark_task_running create_task_with_steps_for_app
    create_task_with_default_steps create_steps run_task prepare run_step find_step start_step
    end_step finish_step_success finish_step_failed log_line append_log run_engine_step log_lines
    collect collect_signed upload_step upload_artifacts upload_from upload_one put_object
    record_artifacts upload_and_complete complete_task_for_app transition_task_for_app
    lock_hardening_task transition_task_for_app_tx signed_test_artifact_path trim_suffix ext
ends_fair n = refl

process_task-IsSettled_example : IsSettled 20 (process_task failing loaded queued).1.db
process_task-IsSettled_example =
    process_task-IsSettled failing loaded queued queued-HasApps taken (λ n h. ends_fair n)

abbrev unsigned : ArtifactInfo
unsigned = record {
  path = "/work/T1/output.apk";
  object_key = "a/unsigned.apk";
  size = 10;
  sha256 = "aa";
}

abbrev signed : ArtifactInfo
signed = record {
  path = "/work/T1/output_signed.apk";
  object_key = "a/signed.apk";
  size = 12;
  sha256 = "bb";
}

-- The second upload fails.
abbrev broken_store : World
broken_store = record (fair (with_tasks [])) {
  objects = "uploads/wallet.apk" ∷ [];
  fault = λ n. if n == 3 then some "store is gone" else none;
}

upload_artifacts_example :
    (keys : List String) × (failure : Result (Unit {0})) × ((upload_artifacts
        (unsigned ∷ signed ∷ [])
        broken_store).0
      ≡ ok (keys, failure))
    × ((upload_artifacts (unsigned ∷ signed ∷ []) broken_store).1.objects
        ≡ stacked keys ("uploads/wallet.apk" ∷ []))
upload_artifacts_example = upload_artifacts_lem (unsigned ∷ signed ∷ []) broken_store

abbrev full_store : World
full_store = record (fair (with_tasks [])) { objects = "a/signed.apk" ∷ "a/unsigned.apk" ∷ [] }

rolls_back : (rollback_artifacts ("a/unsigned.apk" ∷ "a/signed.apk" ∷ []) full_store).0 ≡ ok (ok tt)
unfolding rollback_artifacts delete_objects delete_object running
rolls_back = refl

rollback_artifacts_example :
    All
      (λ k.
        IsAbsent k
          (rollback_artifacts ("a/unsigned.apk" ∷ "a/signed.apk" ∷ []) full_store).1.objects)
      ("a/unsigned.apk" ∷ "a/signed.apk" ∷ [])
rollback_artifacts_example =
    rollback_artifacts_lem ("a/unsigned.apk" ∷ "a/signed.apk" ∷ []) full_store rolls_back

-- Two queued tasks, the older one behind.
abbrev later_task : HardeningTask
later_task = record zero_task { id = 5; created_at = 9 }

abbrev first_task : HardeningTask
first_task = record zero_task { id = 6; created_at = 4 }

next_found :
    (next_queued_task (fair (with_tasks (later_task ∷ first_task ∷ [])))).0
    ≡ ok (some (load_app (app_7 ∷ []) first_task))
unfolding next_queued_task preload running
next_found = refl

next_queued_task_example :
    IsNext (with_tasks (later_task ∷ first_task ∷ [])) (some (load_app (app_7 ∷ []) first_task))
next_queued_task_example =
    next_queued_task_lem (fair (with_tasks (later_task ∷ first_task ∷ [])))
      (some (load_app (app_7 ∷ []) first_task)) next_found
