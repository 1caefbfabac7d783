-- ===== src/Examples/Loop.antt =====
-- The worker's loop at a concrete queue.
use beetle_shield_backend.Prelude.{◌≡◌, refl, arith, some, none, [], ◌∷◌}
use beetle_shield_backend.HardeningRepository.{
  fail_tasks, mark_task_running, next_queued_task, preload, recover_running_tasks,
  transition_task_for_app_tx,
}
use beetle_shield_backend.Store.{World, running}
use beetle_shield_backend.Worker.{
  Config, cleanup_keys, cleanup_recovered_artifacts, recover_running,
}
use beetle_shield_backend.Model.{AppStatus}
use beetle_shield_backend.Worker.Draining.{queued_count}
use beetle_shield_backend.Worker.Rounds.{AllTake, start, start_lem}
use beetle_shield_backend.Examples.{app_7, fair, task_1, with_tasks, zero_task}

-- The engine fails at once.
abbrev broken : Config
broken = record {
  jar_path = "/opt/dpt.jar";
  work_dir = "/work";
  default_vmp_rules = "*";
  runner = λ command rules. record {
    lines = [];
    failure = some "exit status 1";
    unsigned_file = none;
    signed_file = none;
  };
}

-- One task was interrupted, and one is queued.
abbrev restarted : World
restarted = fair (with_tasks (task_1 ∷ record zero_task { id = 20 } ∷ []))

takes : AllTake broken 1 (recover_running restarted).1
unfolding recover_running recover_running_tasks running fail_tasks transition_task_for_app_tx
    cleanup_recovered_artifacts cleanup_keys next_queued_task preload mark_task_running
takes = (
  (
    some (record {
      task = record zero_task { id = 20 };
      app = record app_7 { status = AppStatus.failed };
    }),
    refl,
    refl,
  ),
  tt,
)

start_example : queued_count (start broken 1 restarted).db ≡ 0
start_example = start_lem broken 1 restarted (omega arith) takes
