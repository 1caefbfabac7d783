-- ===== src/HardeningRepository/Queue.antt =====
-- NextQueuedTask: the queue is served in order.
use beetle_shield_backend.Prelude.{
  ◌≡◌, ◌<◌, refl, sym, ap, ◌∙◌, subst, Bool, true, false, Option, none, some, List, [], ◌∷◌,
  ==_refl, map, take, count_where, rows_where, All, All-imp, if◌then◌else◌, arith,
}
use beetle_shield_backend.Prelude.Sorting.{All-rows_where, All-sort_by, insert_by, sort_by}
use beetle_shield_backend.Model.{HardeningTask, is_queued}
use beetle_shield_backend.Store.{Db, World, ok}
use beetle_shield_backend.Store.Outcomes.{Leads, Leads-bind, Leads-pure, Leads-query}
use beetle_shield_backend.HardeningRepository.Tasks.{has_id}
use beetle_shield_backend.HardeningRepository.Queries.{
  LoadedTask, load_app, loaded_first, next_queued_task, older, preload, queued_in_order,
}

-- No row stands before the task.
abbrev IsFirst : HardeningTask → List HardeningTask → Type 0
IsFirst t rows = All (λ u. older u t ≡ false) rows

-- The first of the sorted rows, if there is one.
abbrev Head : (HardeningTask → Type 0) → Type 0 → List HardeningTask → Type 0
Head P E [] = E
Head P E (t ∷ ts) = P t

older_asym : (t u : HardeningTask) → older t u ≡ true → older u t ≡ false
older_asym t u h = ground arith

older_trans : (t u v : HardeningTask) → older v t ≡ false → older t u ≡ false → older v u ≡ false
older_trans t u v h k = ground arith

older_irrefl : (t : HardeningTask) → older t t ≡ false
older_irrefl t = ground arith

insert_by-IsFirst :
    (x : HardeningTask) (rows s : List HardeningTask)
    → Head (λ t. IsFirst t rows) (rows ≡ []) s
    → Head (λ t. IsFirst t (x ∷ rows)) (x ∷ rows ≡ []) (insert_by older x s)
insert_by-IsFirst x rows [] h = (older_irrefl x, subst (IsFirst x) (sym h) tt)
insert_by-IsFirst x rows (y ∷ s) h = pick (older y x) refl
  where
    pick :
        (b : Bool)
        → older y x ≡ b
        → Head
            (λ t. IsFirst t (x ∷ rows))
            (x ∷ rows ≡ [])
            (if b then y ∷ insert_by older x s else x ∷ y ∷ s)
    pick true e = (older_asym y x e, h)
    pick false e = (older_irrefl x, All-imp _ _ rows (λ u k. older_trans y x u k e) h)

sort_by-IsFirst :
    (rows : List HardeningTask) → Head (λ t. IsFirst t rows) (rows ≡ []) (sort_by older rows)
sort_by-IsFirst [] = refl
sort_by-IsFirst (x ∷ rows) = insert_by-IsFirst x rows (sort_by older rows) (sort_by-IsFirst rows)

among_rows :
    (R : HardeningTask → Type 0) (q : HardeningTask → Bool) (ts : List HardeningTask)
    → All R (rows_where q ts)
    → All (λ t. q t ≡ true → R t) ts
among_rows R q [] a = tt
among_rows R q (t ∷ ts) a = pick (among_rows R q ts) (q t) refl a
  where
    pick :
        (All R (rows_where q ts) → All (λ t. q t ≡ true → R t) ts)
        → (b : Bool) → q t ≡ b
        → All R (if b then t ∷ rows_where q ts else rows_where q ts)
        → All (λ t. q t ≡ true → R t) (t ∷ ts)
    pick rest true e a' = ((λ _. a'.0), rest a'.1)
    pick rest false e a' = ((λ e'. absurd (differ (sym e ∙ e'))), rest a')
      where
        differ : false ≡ true → ⊥
        differ p = cc

none_there :
    (q : HardeningTask → Bool) (ts : List HardeningTask)
    → rows_where q ts ≡ []
    → count_where q ts ≡ 0
none_there q [] e = refl
none_there q (t ∷ ts) e = pick (none_there q ts) (q t) refl e
  where
    pick :
        (rows_where q ts ≡ [] → count_where q ts ≡ 0)
        → (b : Bool) → q t ≡ b
        → (if b then t ∷ rows_where q ts else rows_where q ts) ≡ []
        → count_where q (t ∷ ts) ≡ 0
    pick rest true e e' = absurd (cc e')
    pick rest false e e' = ground (arith, rest e')

picked_rows :
    (R : HardeningTask → Type 0) (q : HardeningTask → Bool) (ts : List HardeningTask)
    → All R ts
    → All R (rows_where q ts)
picked_rows R q [] a = tt
picked_rows R q (t ∷ ts) a = pick (picked_rows R q ts a.1) (q t)
  where
    pick :
        All R (rows_where q ts)
        → (b : Bool) → All R (if b then t ∷ rows_where q ts else rows_where q ts)
    pick rest true = (a.0, rest)
    pick rest false = rest

known_keys : (ts : List HardeningTask) → All (λ t. 0 < count_where (has_id t.id) ts) ts
known_keys [] = tt
known_keys (t ∷ ts) =
    (ground (arith, ==_refl t.id), All-imp _ _ ts (λ u h. ground arith) (known_keys ts))

-- What the worker is given: a queued task of the table, with its app, that no queued task is older than; or
-- none, if none is queued.
abbrev pub IsNext : Db → Option LoadedTask → Type 0
IsNext d none = count_where (λ (t : HardeningTask). is_queued t.status) d.tasks ≡ 0
IsNext d (some t) =
    (is_queued t.task.status ≡ true)
    × (0 < count_where (has_id t.task.id) d.tasks)
    × (t ≡ load_app d.apps t.task)
    × All (λ u. is_queued u.status ≡ true → older u t.task ≡ false) d.tasks

queued_in_order-IsNext :
    (d : Db) → IsNext d (loaded_first (map (load_app d.apps) (take 1 (queued_in_order d))))
queued_in_order-IsNext d =
    pick (sort_by older rows) (sort_by-IsFirst rows)
      (All-sort_by _ older rows (All-rows_where _ (λ t. is_queued t.status) d.tasks (λ t e. e)))
      (All-sort_by _ older rows
        (picked_rows IsThere (λ t. is_queued t.status) d.tasks (known_keys d.tasks)))
  where
    IsThere : HardeningTask → Type 0
    IsThere t = 0 < count_where (has_id t.id) d.tasks

    rows : List HardeningTask
    rows = rows_where (λ t. is_queued t.status) d.tasks

    pick :
        (s : List HardeningTask)
        → Head (λ t. IsFirst t rows) (rows ≡ []) s
        → All (λ (t : HardeningTask). is_queued t.status ≡ true) s
        → All IsThere s
        → IsNext d (loaded_first (map (load_app d.apps) (take 1 s)))
    pick [] h a k = none_there _ d.tasks h
    pick (t ∷ s) h a k = (a.0, k.0, refl, among_rows _ _ d.tasks h)

preload-Leads :
    (before : Db) (ts : List HardeningTask)
    → Leads (λ d. d ≡ before) (preload ts) (λ ls _. ls ≡ map (load_app before.apps) ts)
unfolding preload
preload-Leads before [] = Leads-pure _ _ [] (λ d e. refl)
preload-Leads before (t ∷ ts) = record {
  at = λ w same ls e.
      let r =
        (Leads-query (λ d. d ≡ before) (λ d. map (load_app d.apps) (t ∷ ts))).at w same ls e in
      r.1 ∙ ap (λ (d : Db). map (load_app d.apps) (t ∷ ts)) r.0;
}

-- The task that the worker is given is queued, has the key of a row, comes with its app, and no queued task is older, by
-- the time of creation and then by the key; the worker is given none only if none is queued.
pub next_queued_task_lem :
    (w : World) (o : Option LoadedTask) → (next_queued_task w).0 ≡ ok o → IsNext w.db o
next_queued_task_lem w o e = leads.at w refl o e
  where
    leads : Leads (λ d. d ≡ w.db) next_queued_task (λ o _. IsNext w.db o)
    leads =
        unfold next_queued_task in
        Leads-bind _ _ _ _ _ (Leads-query _ _) (λ found. record {
          at = λ v q o e'.
              (Leads-bind _ _ _ _ _ (preload-Leads w.db found) (λ ls.
                  Leads-pure _ (λ o _. IsNext w.db o) (loaded_first ls)
                    (λ d same.
                      subst (λ l. IsNext w.db (loaded_first l))
                        (sym (
                          same
                          ∙ ap (map (load_app w.db.apps))
                              (q.1 ∙ ap (λ d. take 1 (queued_in_order d)) q.0)))
                        (queued_in_order-IsNext w.db)))).at
                v q.0 o e';
        })
