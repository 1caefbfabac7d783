-- ===== src/HardeningService/Downloads.antt =====
-- Which tasks give a link to an artifact, and which a report.
use beetle_shield_backend.Prelude.{
  ℕ, ◌≡◌, ◌≢◌, refl, sym, ap, ◌∙◌, subst, Bool, true, false, ◌||◌, not, ◌==◌, eq_iff, ◌⊎◌, inl, inr,
  String, some, List, [], ◌∷◌, str_eq, first_where, All, if◌then◌else◌, arith,
}
use beetle_shield_backend.Model.{App, HardeningTask, HardeningTaskStatus, is_completed}
use beetle_shield_backend.Store.{
  Db, World, Result, ok, err, M, from_result, invalid_hardening_artifact,
}
use beetle_shield_backend.Store.Outcomes.{
  Leads, Leads-pure, Leads-query, Leads-first, Leads-bind, Leads-guard, Leads-map_error,
}
use beetle_shield_backend.Report.{HardeningReport, resolve_risk_level, build_hardening_report}
use beetle_shield_backend.HardeningRepository.{
  Artifacts, LoadedTask, artifacts_of, failed_task_artifact_fields, find_by_id, has_id, load_app,
}
use beetle_shield_backend.HardeningRepository.Cleared.{FailedCleared, IsCleared}
use beetle_shield_backend.HardeningService.Operations.{artifact_key, download_url, get_report}

-- What was found under the key.
abbrev pub Found : Db → ℕ → LoadedTask → Type 0
Found d id t = (first_where (has_id id) d.tasks ≡ some t.task) × (t ≡ load_app d.apps t.task)

find_by_id-Leads :
    (before : Db) (id : ℕ) → Leads (λ d. d ≡ before) (find_by_id id) (λ t _. Found before id t)
unfolding find_by_id
find_by_id-Leads before id = Leads-bind _ _ _ _ _ (Leads-first _ _) (λ task. record {
  at = λ w q t e.
      let r = (Leads-query (λ d. d ≡ before) (λ d. load_app d.apps task)).at w q.0 t e in
      (
        ap (λ (x : Db). first_where (has_id id) x.tasks) (sym q.0)
            ∙ (q.1 ∙ ap (λ (u : LoadedTask). some u.task) (sym r.1)),
        r.1
            ∙ (ap (λ (x : Db). load_app x.apps task) r.0
                ∙ ap (λ (u : LoadedTask). load_app before.apps u.task) (sym r.1)),
      );
})

-- What does not speak of the tables stays.
fact : {A : Type 0} (P : Type 0) (m : M A) → Leads (λ _. P) m (λ _ _. P)
fact P m = record { at = λ w p a e. p }

download_url-Link :
    (presigned : String → String) (id : ℕ) (artifact : String) (actor : ℕ) (ip : String) (w : World)
    (url : String)
    → (download_url presigned id artifact actor ip w).0 ≡ ok url
    → (t : HardeningTask) × (key : String) × (first_where (has_id id) w.db.tasks ≡ some t)
      × (artifact_key artifact t ≡ ok key)
      × (str_eq key "" ≡ false)
      × (url ≡ presigned key)
download_url-Link presigned id artifact actor ip w url e = leads.at w refl url e
  where
    Link : String → Type 0
    Link u =
        (t : HardeningTask) × (key : String) × (first_where (has_id id) w.db.tasks ≡ some t)
        × (artifact_key artifact t ≡ ok key)
        × (str_eq key "" ≡ false)
        × (u ≡ presigned key)

    returned :
        (X : Type 0) (r : Result String)
        → Leads (λ _. X) (from_result r) (λ key _. X × (r ≡ ok key))
    returned X r = unfold from_result in record { at = λ v x key e. (x, e) }

    not_true : (b : Bool) → not b ≡ true → b ≡ false
    not_true b h = ground arith

    leads : Leads (λ d. d ≡ w.db) (download_url presigned id artifact actor ip) (λ u _. Link u)
    leads =
        unfold download_url in
        Leads-bind _ _ _ _ _ (Leads-map_error _ _ _ _ (find_by_id-Leads w.db id)) (λ t.
          Leads-bind _ _ _ _ _ (returned (Found w.db id t) (artifact_key artifact t.task)) (λ key.
            Leads-bind _ _ _ _ _ (Leads-guard _ _ _) (λ _. Leads-bind _ _ _ _ _ (fact _ _) (λ _.
              Leads-bind _ _ _ _ _ (fact _ _) (λ _.
                Leads-pure _ _ (presigned key)
                  (λ d q. (t.task, key, q.0.0.0, q.0.1, not_true (str_eq key "") q.1, refl)))))))

-- The key is the column of the artifact that is named.
abbrev pub IsKeyOf : String → HardeningTask → String → Type 0
IsKeyOf artifact t key =
    ((artifact ≡ "" ⊎ artifact ≡ "unsigned") × (key ≡ t.unsigned_object_key))
    ⊎ ((artifact ≡ "signed_test") × (key ≡ t.signed_test_object_key))

artifact_key-IsKeyOf :
    (artifact : String) (t : HardeningTask) (key : String)
    → artifact_key artifact t ≡ ok key
    → IsKeyOf artifact t key
artifact_key-IsKeyOf artifact t key e =
    pick (str_eq artifact "") (str_eq artifact "unsigned") (str_eq artifact "signed_test") refl refl
      refl e
  where
    same : {x y : String} → ok x ≡ ok y → y ≡ x
    same q = cc

    pick :
        (a b c : Bool)
        → str_eq artifact "" ≡ a
        → str_eq artifact "unsigned" ≡ b
        → str_eq artifact "signed_test" ≡ c
        → (if a || b
            then ok t.unsigned_object_key
            else if c
            then ok t.signed_test_object_key
            else err invalid_hardening_artifact)
          ≡ ok key
        → IsKeyOf artifact t key
    pick true b c p q r h = inl (inl ((eq_iff artifact "").0 p), same h)
    pick false true c p q r h = inl (inr ((eq_iff artifact "unsigned").0 q), same h)
    pick false false true p q r h = inr ((eq_iff artifact "signed_test").0 r, same h)
    pick false false false p q r h = cc

-- A link is the presigned link of a key that is not empty, of the task found under the key: that
-- of the unsigned artifact, if it or no artifact is named, or that of the signed one, if it is
-- named; any other name gives none.
pub download_url_lem :
    (presigned : String → String) (id : ℕ) (artifact : String) (actor : ℕ) (ip : String) (w : World)
    (url : String)
    → (download_url presigned id artifact actor ip w).0 ≡ ok url
    → (t : HardeningTask) × (key : String) × (first_where (λ t. t.id == id) w.db.tasks ≡ some t)
      × IsKeyOf artifact t key
      × (key ≢ "")
      × (url ≡ presigned key)
download_url_lem presigned id artifact actor ip w url e =
    let (t, key, there, chosen, filled, same) =
      download_url-Link presigned id artifact actor ip w url e in
    (
      t,
      key,
      there,
      artifact_key-IsKeyOf artifact t key chosen,
      λ z. cc ((eq_iff key "").1 z, filled),
      same,
    )

-- What a report says of the task and the app.
abbrev pub IsReportOf : HardeningTask → App → String → HardeningReport → Type 0
IsReportOf t app engine_version r =
    (r.task_id ≡ t.id)
    × (r.task_no ≡ t.task_no)
    × (r.app_name ≡ app.name)
    × (r.package_name ≡ app.package_name)
    × (r.version ≡ app.version)
    × (r.before_score ≡ 100)
    × (r.risk_level ≡ resolve_risk_level t.strategy_snapshot)
    × (r.artifact.engine_version ≡ engine_version)

build_hardening_report-IsReportOf :
    (to_lower : String → String) (t : HardeningTask) (app : App) (v : String)
    → IsReportOf t app v (build_hardening_report to_lower t app v)
unfolding build_hardening_report resolve_risk_level
build_hardening_report-IsReportOf to_lower t app v =
    (refl, refl, refl, refl, refl, refl, refl, refl)

is_completed_lem :
    (s : HardeningTaskStatus) → is_completed s ≡ true → s ≡ HardeningTaskStatus.completed
is_completed_lem HardeningTaskStatus.queued e = cc (e)
is_completed_lem HardeningTaskStatus.running e = cc (e)
is_completed_lem HardeningTaskStatus.completed e = refl
is_completed_lem HardeningTaskStatus.failed e = cc (e)

get_report-Report :
    (to_lower : String → String) (engine_version : String) (id : ℕ) (w : World)
    (r : HardeningReport)
    → (get_report to_lower engine_version id w).0 ≡ ok r
    → (t : HardeningTask) × (first_where (has_id id) w.db.tasks ≡ some t)
      × (is_completed t.status ≡ true)
      × (r ≡ build_hardening_report to_lower t (load_app w.db.apps t).app engine_version)
get_report-Report to_lower engine_version id w r e = leads.at w refl r e
  where
    Report : HardeningReport → Type 0
    Report r =
        (t : HardeningTask) × (first_where (has_id id) w.db.tasks ≡ some t)
        × (is_completed t.status ≡ true)
        × (r ≡ build_hardening_report to_lower t (load_app w.db.apps t).app engine_version)

    leads : Leads (λ d. d ≡ w.db) (get_report to_lower engine_version id) (λ r _. Report r)
    leads =
        unfold get_report in
        Leads-bind _ _ _ _ _ (Leads-map_error _ _ _ _ (find_by_id-Leads w.db id)) (λ t.
          Leads-bind _ _ _ _ _ (Leads-guard _ _ _) (λ _. Leads-pure _ _ _ (λ d q. (
            t.task,
            q.0.0,
            q.1,
            ap (λ (a : App). build_hardening_report to_lower t.task a engine_version)
                (ap (λ (u : LoadedTask). u.app) q.0.1),
          ))))

-- A report is that of the task found, which is completed: it has the task's key and number, the
-- name, package and version of its app, the engine's version, a score of 100 before, and the risk
-- level that the task's strategy resolves to.
pub get_report_lem :
    (to_lower : String → String) (engine_version : String) (id : ℕ) (w : World)
    (r : HardeningReport)
    → (get_report to_lower engine_version id w).0 ≡ ok r
    → (t : HardeningTask) × (first_where (λ t. t.id == id) w.db.tasks ≡ some t)
      × (t.status ≡ HardeningTaskStatus.completed)
      × IsReportOf t (load_app w.db.apps t).app engine_version r
get_report_lem to_lower engine_version id w r e =
    let (t, there, done, same) = get_report-Report to_lower engine_version id w r e in
    (
      t,
      there,
      is_completed_lem t.status done,
      subst (IsReportOf t (load_app w.db.apps t).app engine_version) (sym same)
          (build_hardening_report-IsReportOf to_lower t (load_app w.db.apps t).app engine_version),
    )

first_where-All :
    (P : HardeningTask → Type 0) (p : HardeningTask → Bool) (ts : List HardeningTask)
    (t : HardeningTask)
    → All P ts
    → first_where p ts ≡ some t
    → P t
first_where-All P p [] t a e = cc
first_where-All P p (u ∷ ts) t a e = pick (first_where-All P p ts t a.1) (p u) e
  where
    pick :
        (first_where p ts ≡ some t → P t)
        → (b : Bool) → (if b then some u else first_where p ts) ≡ some t
        → P t
    pick rest true e' = subst P (value e') a.0
      where
        value : {x y : HardeningTask} → some x ≡ some y → x ≡ y
        value q = cc
    pick rest false e' = rest e'

cleared_key :
    (artifact : String) (t : HardeningTask) (key : String)
    → artifacts_of t ≡ failed_task_artifact_fields
    → artifact_key artifact t ≡ ok key
    → key ≡ ""
cleared_key artifact t key c e =
    pick (str_eq artifact "" || str_eq artifact "unsigned") (str_eq artifact "signed_test") e
  where
    value : {x y : String} → ok x ≡ ok y → x ≡ "" → y ≡ ""
    value p q = cc

    pick :
        (b b' : Bool)
        → (if b
            then ok t.unsigned_object_key
            else if b'
            then ok t.signed_test_object_key
            else err invalid_hardening_artifact)
          ≡ ok key
        → key ≡ ""
    pick true b' h = value h (ap (λ (a : Artifacts). a.unsigned_key) c)
    pick false true h = value h (ap (λ (a : Artifacts). a.signed_key) c)
    pick false false h = cc

-- While every failed task claims no artifact, a failed task gives no link, to whichever artifact.
pub download_url_failed :
    (presigned : String → String) (id : ℕ) (artifact : String) (actor : ℕ) (ip : String) (w : World)
    (t : HardeningTask) (url : String)
    → FailedCleared w.db
    → first_where (has_id id) w.db.tasks ≡ some t
    → t.status ≡ HardeningTaskStatus.failed
    → (download_url presigned id artifact actor ip w).0 ≢ ok url
download_url_failed presigned id artifact actor ip w t url cleared found failed e =
    let (u, key, there, chosen, filled, _) =
      download_url-Link presigned id artifact actor ip w url e in
    let same = task_of (sym there ∙ found) in
    let empty = first_where-All IsCleared (has_id id) w.db.tasks t cleared found failed in
    never key
      (cleared_key artifact t key empty (ap (λ x. artifact_key artifact x) (sym same) ∙ chosen))
      filled
  where
    task_of : {x y : HardeningTask} → some x ≡ some y → x ≡ y
    task_of q = cc

    never : (key : String) → key ≡ "" → str_eq key "" ≢ false
    never key z f = absurd (differ (sym (ap (λ k. str_eq k "") z) ∙ f))
      where
        differ : true ≢ false
        differ q = cc
