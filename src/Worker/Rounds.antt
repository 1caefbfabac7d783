-- ===== src/Worker/Rounds.antt =====
-- The loop of Start: RecoverRunning once, then ProcessNext at every tick until the context ends;
-- errors are only reported.
use beetle_shield_backend.Prelude.{ℕ, zero, suc, ◌≡◌, ◌≤◌, subst, Option, none, some, arith}
use beetle_shield_backend.Store.{World, Result, ok, err, ◌>>=◌, continue, attempt, pure, time_now}
use beetle_shield_backend.HardeningRepository.{LoadedTask, mark_task_running, next_queued_task}
use beetle_shield_backend.HardeningRepository.Queue.{IsNext, next_queued_task_lem}
use beetle_shield_backend.Worker.Run.{
  process_found, process_next, process_task, recover_running, run_task, settle,
}
use beetle_shield_backend.Worker.Steps.{Config}
use beetle_shield_backend.Worker.Draining.{
  queued_count, run_settled-AtMost, recover_running-AtMost, next_queued_task-AtMost,
  mark_task_running-Fewer,
}

-- The world behind `n` rounds.
abbrev pub work_rounds : Config → ℕ → World → World
work_rounds cfg zero w = w
work_rounds cfg (suc n) w = work_rounds cfg n (process_next cfg w).1

-- The world behind the start and `n` rounds.
abbrev pub start : Config → ℕ → World → World
start cfg n w = work_rounds cfg n (recover_running w).1

-- The task that was found, if one was, could be marked.
abbrev pub IsMarked : Option LoadedTask → World → Type 0
IsMarked none w = Unit
IsMarked (some t) w = (mark_task_running t.task.id (w.clock w.calls) w).0 ≡ ok tt

-- A round gets as far as to look at the queue and to mark the task found, whatever comes then.
abbrev pub Takes : World → Type 0
Takes w =
    (o : Option LoadedTask) × ((next_queued_task w).0 ≡ ok o) × IsMarked o (next_queued_task w).1

abbrev pub AllTake : Config → ℕ → World → Type 0
AllTake cfg zero w = Unit
AllTake cfg (suc n) w = Takes w × AllTake cfg n (process_next cfg w).1

module _ (k : ℕ) where
  -- A task that could be marked is not queued any more, however its run ends.
  process_task-Fewer :
      (cfg : Config) (t : LoadedTask) (w : World)
      → IsMarked (some t) w
      → queued_count w.db ≤ suc k
      → queued_count (process_task cfg t w).1.db ≤ k
  unfolding process_task ◌>>=◌ time_now
  process_task-Fewer cfg t w m q =
      ran (mark_task_running t.task.id (w.clock w.calls) w) m
        ((mark_task_running-Fewer k t.task.id (w.clock w.calls)).at w q tt m)
    where
      ran :
          (r : Result (Unit {0}) × World)
          → r.0 ≡ ok tt
          → queued_count r.1.db ≤ k
          → queued_count (continue (λ _. attempt (run_task cfg t) >>= settle t) r).1.db ≤ k
      ran (ok _, v) e q' = (run_settled-AtMost k cfg t).at v q'
      ran (err x, v) e q' = cc

  found-Fewer :
      (cfg : Config) (r : Result (Option LoadedTask) × World) (o : Option LoadedTask)
      → r.0 ≡ ok o
      → IsMarked o r.1
      → (o ≡ none → queued_count r.1.db ≡ 0)
      → queued_count r.1.db ≤ suc k
      → queued_count (continue (process_found cfg) r).1.db ≤ k
  unfolding pure
  found-Fewer cfg (err x, v) o e m z q = cc
  found-Fewer cfg (ok none, v) o e m z q = omega (arith, z (cc (e)))
  found-Fewer cfg (ok (some t), v) o e m z q =
      process_task-Fewer cfg t v (subst (λ o. IsMarked o v) (same e) m) q
    where
      same : {o p : Option LoadedTask} → ok p ≡ ok o → o ≡ p
      same e' = cc

round-Fewer :
    (k : ℕ) (cfg : Config) (w : World)
    → Takes w
    → queued_count w.db ≤ suc k
    → queued_count (process_next cfg w).1.db ≤ k
unfolding process_next ◌>>=◌
round-Fewer k cfg w (o, e, m) q =
    found-Fewer k cfg (next_queued_task w) o e m none_left
      ((next_queued_task-AtMost (suc k)).at w q)
  where
    none_left : o ≡ none → queued_count (next_queued_task w).1.db ≡ 0
    none_left n =
        let z : queued_count w.db ≡ 0 = subst (IsNext w.db) n (next_queued_task_lem w o e) in
        omega (arith, (next_queued_task-AtMost 0).at w (omega (arith, z)))

work_rounds-Empty :
    (cfg : Config) (n : ℕ) (w : World)
    → AllTake cfg n w
    → queued_count w.db ≤ n
    → queued_count (work_rounds cfg n w).db ≡ 0
work_rounds-Empty cfg zero w takes q = omega (arith, q)
work_rounds-Empty cfg (suc n) w takes q =
    work_rounds-Empty cfg n (process_next cfg w).1 takes.1 (round-Fewer n cfg w takes.0 q)

-- Once the worker has started, it empties the queue: after as many rounds as tasks were queued, or
-- more, none is queued, whatever the recovery, the engine and the uploads report, if in each round
-- the queue could be read and the task found could be marked.
pub start_lem :
    (cfg : Config) (n : ℕ) (w : World)
    → queued_count w.db ≤ n
    → AllTake cfg n (recover_running w).1
    → queued_count (start cfg n w).db ≡ 0
start_lem cfg n w q takes =
    work_rounds-Empty cfg n (recover_running w).1 takes ((recover_running-AtMost n).at w q)
