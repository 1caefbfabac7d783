-- ===== src/HardeningRepository/Lifecycle.antt =====
-- What the repository promises of the tasks, as an abstract machine: of each task only its key, its
-- app and its status, and the steps that it may take.
use beetle_shield_backend.Prelude.{
  ℕ, ◌≡◌, refl, ap, Bool, true, false, ◌&&◌, List, [], ◌∷◌, ◌++◌, ◌==◌, count_where, update_where,
  if◌then◌else◌, arith,
}
use beetle_shield_backend.Model.{
  HardeningTask, HardeningTaskStatus, is_active, is_queued, is_running,
}
use beetle_shield_backend.HardeningRepository.Tasks.{active_for}

-- A task, seen from far.
pub record Entry : Type 0 where
  pub id : ℕ
  pub app_id : ℕ
  pub status : HardeningTaskStatus

abbrev pub entry : HardeningTask → Entry
entry t = record { id = t.id; app_id = t.app_id; status = t.status }

abbrev pub view : List HardeningTask → List Entry
view [] = []
view (t ∷ ts) = entry t ∷ view ts

abbrev pub occupies : ℕ → Entry → Bool
occupies app_id e = e.app_id == app_id && is_active e.status

-- The entries of the key that pass the test get the status.
abbrev pub assign : ℕ → (HardeningTaskStatus → Bool) → HardeningTaskStatus → List Entry → List Entry
assign key test s es =
    update_where (λ e. e.id == key && test e.status) (λ e. record e { status = s }) es

-- A step of the machine: a task is queued for an app that is free, the queued tasks of a key start,
-- or the running tasks of a key end, completed or failed.
pub data Step (es : List Entry) : List Entry → Type 0 where
  enqueue :
      {fs : List Entry} (id app_id : ℕ)
      → count_where (occupies app_id) es ≡ 0
      → fs ≡ es ++ (record { id = id; app_id = app_id; status = HardeningTaskStatus.queued } ∷ [])
      → Step es fs
  begin :
      {fs : List Entry} (id : ℕ)
      → fs ≡ assign id is_queued HardeningTaskStatus.running es
      → Step es fs
  complete :
      {fs : List Entry} (id : ℕ)
      → fs ≡ assign id is_running HardeningTaskStatus.completed es
      → Step es fs
  give_up :
      {fs : List Entry} (id : ℕ)
      → fs ≡ assign id is_running HardeningTaskStatus.failed es
      → Step es fs

-- Any number of steps.
pub data Reaches (es : List Entry) : List Entry → Type 0 where
  stay : Reaches es es
  go : {fs gs : List Entry} → Reaches es fs → Step fs gs → Reaches es gs

cons : {e f : Entry} {es fs : List Entry} → e ≡ f → es ≡ fs → (e ∷ es) ≡ (f ∷ fs)
cons p q = cc (p, q)

-- A row of the table is changed as its entry is.
module _ (p : HardeningTask → Bool) (f : HardeningTask → HardeningTask) where
  pub view-assign :
      (key : ℕ) (test : HardeningTaskStatus → Bool) (s : HardeningTaskStatus)
      → ((t : HardeningTask) → p t ≡ (t.id == key && test t.status))
      → ((t : HardeningTask) → (f t).id ≡ t.id)
      → ((t : HardeningTask) → (f t).app_id ≡ t.app_id)
      → ((t : HardeningTask) → (f t).status ≡ s)
      → (ts : List HardeningTask) → view (update_where p f ts) ≡ assign key test s (view ts)
  view-assign key test s same_test same_id same_app status [] = refl
  view-assign key test s same_test same_id same_app status (t ∷ ts) =
      cons (row (p t) refl (t.id == key && test t.status) (same_test t))
        (view-assign key test s same_test same_id same_app status ts)
    where
      row :
          (b : Bool)
          → p t ≡ b
          → (c : Bool) → p t ≡ c
          → entry (if b then f t else t) ≡ (if c then record (entry t) { status = s } else entry t)
      row true q true q' = rw (same_id t, same_app t, status t) refl
      row false q false q' = refl
      row true q false q' = cc (q, q')
      row false q true q' = cc (q, q')

  pub view-same :
      ((t : HardeningTask) → (f t).id ≡ t.id)
      → ((t : HardeningTask) → (f t).app_id ≡ t.app_id)
      → ((t : HardeningTask) → (f t).status ≡ t.status)
      → (ts : List HardeningTask) → view (update_where p f ts) ≡ view ts
  view-same same_id same_app status [] = refl
  view-same same_id same_app status (t ∷ ts) =
      cons (row (p t)) (view-same same_id same_app status ts)
    where
      row : (b : Bool) → entry (if b then f t else t) ≡ entry t
      row true = rw (same_id t, same_app t, status t) refl
      row false = refl

pub view-append : (ts us : List HardeningTask) → view (ts ++ us) ≡ view ts ++ view us
view-append [] us = refl
view-append (t ∷ ts) us = ap (λ es. entry t ∷ es) (view-append ts us)

pub view-free :
    (app_id : ℕ) (ts : List HardeningTask)
    → count_where (occupies app_id) (view ts) ≡ count_where (active_for app_id) ts
view-free app_id [] = refl
view-free app_id (t ∷ ts) = omega (arith, view-free app_id ts)
