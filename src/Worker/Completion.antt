-- ===== src/Worker/Completion.antt =====
-- What a run of the worker leaves of the task that it took.
use beetle_shield_backend.Prelude.{
  ℕ, ◌<◌, ◌≤◌, ◌≡◌, ◌≢◌, refl, sym, subst, Bool, true, false, ◌&&◌, String, some, List, [], ◌∷◌,
  ◌==◌, count_where, first_where, update_where, arith, if◌then◌else◌,
}
use beetle_shield_backend.Model.{HardeningTask, RiskLevel, is_completed}
use beetle_shield_backend.Store.{Db, World, Result, ok, err, from_result}
use beetle_shield_backend.Store.Hoare.{Keeps-external_call, Keeps-attempt}
use beetle_shield_backend.Store.Outcomes.{
  Leads, Leads-pure, Leads-bind, Leads-attempt, Leads-map_error, Leads-keeps, Leads-any,
}
use beetle_shield_backend.HardeningRepository.{
  Artifacts, LoadedTask, complete_updates, complete_task_for_app, running_with_id, has_id,
}
use beetle_shield_backend.HardeningRepository.Transitions.{complete_task_for_app-IsTransitioned}
use beetle_shield_backend.Worker.Artifacts.{ArtifactInfo, join_errors}
use beetle_shield_backend.Worker.Run.{
  completed, upload_and_complete, rolled_back, run_task, settle, process_task,
}
use beetle_shield_backend.Worker.Steps.{Config, Outcome, unless_error}

-- A row of the key is completed.
abbrev pub IsDone : ℕ → Db → Type 0
IsDone id d = 0 < count_where (λ (t : HardeningTask). t.id == id && is_completed t.status) d.tasks

-- If the closure or the step reported no error, the task is completed.
abbrev DoneIfOk : {A : Type 0} → ℕ → Outcome A → Db → Type 0
DoneIfOk id o d = o.1 ≡ ok tt → IsDone id d

done_rows :
    (id key : ℕ) (a : Artifacts) (now : ℕ) (ts : List HardeningTask)
    → id ≡ key
    → count_where (running_with_id key) ts
      ≤ count_where
          (λ (t : HardeningTask). t.id == id && is_completed t.status)
          (update_where (running_with_id key) (complete_updates a now) ts)
done_rows id key a now [] e = omega arith
done_rows id key a now (t ∷ ts) e = ground (arith, done_rows id key a now ts e)

pub found_id :
    (id : ℕ) (t : HardeningTask) (ts : List HardeningTask)
    → first_where (has_id id) ts ≡ some t
    → id ≡ t.id
found_id id t [] e = cc
found_id id t (u ∷ ts) e = split (found_id id t ts) (u.id == id) refl e
  where
    split :
        (first_where (has_id id) ts ≡ some t → id ≡ t.id)
        → (b : Bool) → (u.id == id) ≡ b
        → (if b then some u else first_where (has_id id) ts) ≡ some t
        → id ≡ t.id
    split rest true same e' = same_id e' (ground arith)
      where
        same_id : {v w : HardeningTask} → some v ≡ some w → id ≡ v.id → id ≡ w.id
        same_id p q = cc
    split rest false other e' = rest e'

complete_task_for_app-IsDone :
    (id : ℕ) (a : Artifacts) (now : ℕ) (r : RiskLevel)
    → Leads (λ _. Unit) (complete_task_for_app id a now r) (λ _ d. IsDone id d)
complete_task_for_app-IsDone id a now r = record {
  at = λ w p u e.
      let t = (complete_task_for_app-IsTransitioned w.db id a now r).at w refl u e in
      subst (λ d. IsDone id d) (sym t.changed)
        (positive (done_rows id t.task.id a now w.db.tasks (found_id id t.task w.db.tasks t.found))
          t.was_running);
}
  where
    positive : {n k : ℕ} → n ≤ k → n ≢ 0 → 0 < k
    positive h z = omega arith

completed-DoneIfOk :
    (t : LoadedTask) (artifacts : ArtifactInfo × ArtifactInfo) (o : Outcome (List String))
    → Leads (λ _. Unit) (completed t artifacts o) (λ o d. DoneIfOk t.task.id o d)
completed-DoneIfOk t artifacts (keys, err e) = Leads-pure _ _ _ (λ d _ e'. cc)
completed-DoneIfOk t artifacts (keys, ok _) =
    Leads-bind _ (λ _ _. Unit) _ _ _ (Leads-any _ _)
      (λ now.
        Leads-bind _ (λ r d. (u : Unit {0}) → r ≡ ok u → IsDone t.task.id d) _ _ _
          (Leads-attempt _ (λ _ d. IsDone t.task.id d) _
            (Leads-map_error _ _ _ _ (complete_task_for_app-IsDone t.task.id _ now _)))
          (λ r. Leads-pure _ _ (keys, r) (λ d h e. h tt e)))

upload_and_complete-DoneIfOk :
    (t : LoadedTask) (artifacts : ArtifactInfo × ArtifactInfo)
    → Leads (λ _. Unit) (upload_and_complete t artifacts) (λ o d. DoneIfOk t.task.id o d)
unfolding upload_and_complete
upload_and_complete-DoneIfOk t artifacts =
    Leads-bind _ (λ _ _. Unit) _ _ _ (Leads-any _ _) (λ o. completed-DoneIfOk t artifacts o)

unless_error-DoneIfOk :
    (t : LoadedTask) (o : Outcome (ArtifactInfo × ArtifactInfo))
    → Leads (λ _. Unit) (unless_error [] (upload_and_complete t) o) (λ o d. DoneIfOk t.task.id o d)
unless_error-DoneIfOk t (a, ok _) = upload_and_complete-DoneIfOk t a
unless_error-DoneIfOk t (a, err e) = Leads-pure _ _ _ (λ d _ e'. cc)

-- A rollback hides no error.
rolled_back-Done :
    (id : ℕ) (o : Outcome (List String))
    → Leads (λ d. DoneIfOk id o d) (rolled_back o) (λ r d. r ≡ ok tt → IsDone id d)
rolled_back-Done id (keys, ok _) = Leads-pure _ _ _ (λ d h e. h refl)
rolled_back-Done id ([], err e) = Leads-pure _ _ _ (λ d h e'. cc)
rolled_back-Done id ((key ∷ keys), err e) =
    Leads-bind _ (λ _ _. Unit) _ _ _ (Leads-any _ _)
      (λ r. Leads-pure _ _ (join_errors (err e) r) (λ d _ e'. absurd (never r e')))
  where
    never : (r : Result (Unit {0})) → join_errors (err e) r ≢ ok tt
    never (ok _) e' = cc
    never (err f) e' = cc

pub run_task-IsDone :
    (cfg : Config) (t : LoadedTask) → Leads (λ _. Unit) (run_task cfg t) (λ _ d. IsDone t.task.id d)
unfolding run_task
run_task-IsDone cfg t =
    Leads-bind _ (λ _ _. Unit) _ _ _ (Leads-any _ _)
      (λ _.
        Leads-bind _ (λ _ _. Unit) _ _ _ (Leads-any _ _)
          (λ collected.
            Leads-bind _ (λ o d. DoneIfOk t.task.id o d) _ _ _ (unless_error-DoneIfOk t collected)
              (λ o.
                Leads-bind _ (λ r d. r ≡ ok tt → IsDone t.task.id d) _ _ _
                  (rolled_back-Done t.task.id o)
                  (λ r.
                    Leads-bind _ (λ _ d. r ≡ ok tt → IsDone t.task.id d) _ _ _
                      (Leads-keeps _ _ (Keeps-attempt _ Keeps-external_call))
                      (λ c. returned r c)))))
  where
    returned :
        (r c : Result (Unit {0}))
        → Leads
            (λ d. r ≡ ok tt → IsDone t.task.id d)
            (from_result (join_errors r c))
            (λ _ d. IsDone t.task.id d)
    returned (ok _) (ok _) = unfold from_result in record { at = λ w p a e. p refl }
    returned (ok _) (err f) = unfold from_result in record { at = λ w p a e. cc }
    returned (err e) (ok _) = unfold from_result in record { at = λ w p a e'. cc }
    returned (err e) (err f) = unfold from_result in record { at = λ w p a e'. cc }

settle-IsDone :
    (t : LoadedTask) (r : Result (Unit {0}))
    → Leads
        (λ d. (u : Unit {0}) → r ≡ ok u → IsDone t.task.id d)
        (settle t r)
        (λ _ d. IsDone t.task.id d)
settle-IsDone t (ok u) = Leads-pure _ _ true (λ d h. h u refl)
settle-IsDone t (err e) =
    Leads-bind _ (λ _ _. Unit) _ _ _ (Leads-any _ _)
      (λ now.
        Leads-bind _ (λ _ _. Unit) _ _ _ (Leads-any _ _)
          (λ marked.
            Leads-bind _ (λ _ d. IsDone t.task.id d) _ _ _ (refused marked)
              (λ _. Leads-pure _ _ true (λ d h. h))))
  where
    refused :
        (marked : Result (Unit {0}))
        → Leads (λ _. Unit) (from_result (join_errors (err e) marked)) (λ _ d. IsDone t.task.id d)
    refused (ok _) = unfold from_result in record { at = λ w p a e'. cc }
    refused (err f) = unfold from_result in record { at = λ w p a e'. cc }

process_task-IsDone :
    (cfg : Config) (t : LoadedTask)
    → Leads (λ _. Unit) (process_task cfg t) (λ _ d. IsDone t.task.id d)
unfolding process_task
process_task-IsDone cfg t =
    Leads-bind _ (λ _ _. Unit) _ _ _ (Leads-any _ _)
      (λ now.
        Leads-bind _ (λ _ _. Unit) _ _ _ (Leads-any _ _)
          (λ _.
            Leads-bind _ (λ r d. (u : Unit {0}) → r ≡ ok u → IsDone t.task.id d) _ _ _
              (Leads-attempt _ (λ _ d. IsDone t.task.id d) _ (run_task-IsDone cfg t))
              (λ r. settle-IsDone t r)))

-- If the worker's run of a task reports no error, a row of the task's key is completed, whatever
-- the calls report on the way, whatever the engine does, and whatever the tables were before.
pub process_task_lem :
    (cfg : Config) (t : LoadedTask) (w : World) (found : Bool)
    → (process_task cfg t w).0 ≡ ok found
    → IsDone t.task.id (process_task cfg t w).1.db
process_task_lem cfg t w found e = (process_task-IsDone cfg t).at w tt found e
