-- ===== src/Examples/Machine.antt =====
-- The refinement of the tasks' machine at a concrete history.
use beetle_shield_backend.Prelude.{refl, List, [], ◌∷◌}
use beetle_shield_backend.Model.{AppStatus, RiskLevel}
use beetle_shield_backend.HardeningRepository.Histories.{
  Operation, create_task, mark_running, complete_task, fail_task, history,
}
use beetle_shield_backend.HardeningRepository.Lifecycle.{Reaches, view}
use beetle_shield_backend.HardeningRepository.Refinement.{history-Reaches}
use beetle_shield_backend.Examples.{artifacts, zero_task, with_tasks, fair}

-- The second creation is refused, and so is the second end.
abbrev operations : List Operation
operations =
    create_task zero_task AppStatus.processing
    ∷ create_task zero_task AppStatus.processing
    ∷ mark_running 20 30
    ∷ complete_task 20 artifacts 40 RiskLevel.low
    ∷ fail_task 20 "late" 41
    ∷ []

history-Reaches_example : Reaches [] (view (history operations (fair (with_tasks []))).db.tasks)
history-Reaches_example =
    history-Reaches operations (fair (with_tasks [])) (refl, (refl, (tt, (tt, (tt, tt)))))
