-- ===== src/Dashboard/Totals.antt =====
-- The numbers of the overview agree with each other and with the tasks of the day.
use beetle_shield_backend.Prelude.{
  ℕ, zero, suc, ◌+◌, ◌≤◌, ◌<◌, ◌≡◌, refl, ap, ◌∙◌, Bool, String, Option, List, [], ◌∷◌, map, length,
  leb, count_where, rows_where, arith,
}
use beetle_shield_backend.Prelude.Int.{ℤ, pos}
use beetle_shield_backend.Model.{App, HardeningTask, HardeningTaskStatus}
use beetle_shield_backend.Store.{Db, World, ok, M, ◌>>=◌, time_now, pure}
use beetle_shield_backend.Store.Outcomes.{Leads, Leads-bind, Leads-pure, Leads-query}
use beetle_shield_backend.HardeningRepository.{
  LoadedTask, count_by_status_since, count_hour, count_status, hourly_counts_since, queue_count,
  recent,
}
use beetle_shield_backend.Apps.Repository.{top_by_risk_level}
use beetle_shield_backend.Dashboard.{
  average_completed_duration_since, DashboardOverview, HourlyPoint, hourly_trend_from, get_overview,
  overview_of,
}

-- Every task has one of the four statuses.
statuses_add_up :
    (ss : List HardeningTaskStatus)
    → count_status ss HardeningTaskStatus.completed
        + count_status ss HardeningTaskStatus.failed
        + count_status ss HardeningTaskStatus.queued
        + count_status ss HardeningTaskStatus.running
      ≡ length ss
statuses_add_up [] = omega arith
statuses_add_up (HardeningTaskStatus.queued ∷ ss) = omega (arith, statuses_add_up ss)
statuses_add_up (HardeningTaskStatus.running ∷ ss) = omega (arith, statuses_add_up ss)
statuses_add_up (HardeningTaskStatus.completed ∷ ss) = omega (arith, statuses_add_up ss)
statuses_add_up (HardeningTaskStatus.failed ∷ ss) = omega (arith, statuses_add_up ss)

abbrev pub trend_total : List HourlyPoint → ℕ
trend_total [] = 0
trend_total (p ∷ ps) = p.count + trend_total ps

module _ (hour_of : ℕ → ℕ) where
  -- One more time raises the total by one if its hour is among those counted.
  before_range :
      (n from t : ℕ) (ts : List ℕ)
      → hour_of t < from
      → trend_total (hourly_trend_from from n (count_hour hour_of (t ∷ ts)))
        ≡ trend_total (hourly_trend_from from n (count_hour hour_of ts))
  before_range zero from t ts h = refl
  before_range (suc n) from t ts h = ground (arith, before_range n (suc from) t ts)

  in_range :
      (n from t : ℕ) (ts : List ℕ)
      → from ≤ hour_of t
      → hour_of t < from + n
      → trend_total (hourly_trend_from from n (count_hour hour_of (t ∷ ts)))
        ≡ suc (trend_total (hourly_trend_from from n (count_hour hour_of ts)))
  in_range zero from t ts h k = omega arith
  in_range (suc n) from t ts h k =
      ground (arith, before_range n (suc from) t ts, in_range n (suc from) t ts)

  none_counted : (n from : ℕ) → trend_total (hourly_trend_from from n (count_hour hour_of [])) ≡ 0
  none_counted zero from = refl
  none_counted (suc n) from = omega (arith, none_counted n (suc from))

  hours_add_up :
      (ts : List ℕ)
      → ((t : ℕ) → hour_of t < 24)
      → trend_total (hourly_trend_from 0 24 (count_hour hour_of ts)) ≡ length ts
  hours_add_up [] h = none_counted 24 0
  hours_add_up (t ∷ ts) h =
      in_range 24 0 t ts (omega arith) (omega (arith, h t)) ∙ ap suc (hours_add_up ts h)

-- The tasks created since then.
abbrev pub created_since : ℕ → Db → ℕ
created_since since d = count_where (λ (t : HardeningTask). leb since t.created_at) d.tasks

length-rows_where :
    {A : Type 0} (f : HardeningTask → A) (p : HardeningTask → Bool) (ts : List HardeningTask)
    → length (map f (rows_where p ts)) ≡ count_where p ts
length-rows_where f p [] = refl
length-rows_where f p (t ∷ ts) = ground (arith, length-rows_where f p ts)

module _ (Float : Type 0) (float_zero : Float) (percentage : ℕ → ℕ → Float)
    (average_seconds : List (ℕ × ℕ) → Float) (round_to_int : Float → ℤ)
    (start_of_day hour_of : ℕ → ℕ) (engine_version : String) where
  -- The tasks of the day are those of its results, and those of its hours.
  abbrev pub AddsUp : ℕ → DashboardOverview Float → Type 0
  AddsUp n o =
      (o.today_task_count ≡ n)
      × (o.result_distribution.success + o.result_distribution.failed
            + o.result_distribution.processing
          ≡ n)
      × (trend_total o.hourly_trend ≡ n)

  counts-Leads :
      (d : Db) (since : ℕ)
      → Leads
          (λ x. x ≡ d)
          (count_by_status_since since)
          (λ counts x.
            (x ≡ d)
            × (counts HardeningTaskStatus.completed
                  + counts HardeningTaskStatus.failed
                  + counts HardeningTaskStatus.queued
                  + counts HardeningTaskStatus.running
                ≡ created_since since d))
  unfolding count_by_status_since
  counts-Leads d since = Leads-bind _ _ _ _ _ (Leads-query _ _) (λ ss. Leads-pure _ _ _ (λ x p. (
    p.0,
    statuses_add_up ss
        ∙ (ap length p.1 ∙ (length-rows_where _ _ x.tasks ∙ ap (created_since since) p.0)),
  )))

  hourly-Leads :
      (d : Db) (since : ℕ)
      → ((t : ℕ) → hour_of t < 24)
      → Leads
          (λ x. x ≡ d)
          (hourly_counts_since hour_of since)
          (λ hourly x.
            (x ≡ d) × (trend_total (hourly_trend_from 0 24 hourly) ≡ created_since since d))
  unfolding hourly_counts_since
  hourly-Leads d since h = Leads-bind _ _ _ _ _ (Leads-query _ _) (λ ts. Leads-pure _ _ _ (λ x p. (
    p.0,
    hours_add_up hour_of ts h
        ∙ (ap length p.1 ∙ (length-rows_where _ _ x.tasks ∙ ap (created_since since) p.0)),
  )))

  abbrev Fits : ℕ → (HardeningTaskStatus → ℕ) → (ℕ → ℕ) → Type 0
  Fits n counts hourly =
      (counts HardeningTaskStatus.completed
          + counts HardeningTaskStatus.failed
          + counts HardeningTaskStatus.queued
          + counts HardeningTaskStatus.running
        ≡ n)
      × (trend_total (hourly_trend_from 0 24 hourly) ≡ n)

  Fits-AddsUp :
      (n : ℕ) (counts : HardeningTaskStatus → ℕ) (hourly : ℕ → ℕ) (average : Option Float)
      (queued : ℕ) (tasks : List LoadedTask) (apps : List App)
      → Fits n counts hourly
      → AddsUp n (
          overview_of Float float_zero percentage average_seconds round_to_int start_of_day hour_of
            engine_version counts hourly average queued tasks apps)
  Fits-AddsUp n counts hourly average queued tasks apps p = (p.0, omega (arith, p.0), p.1)

  any : {A : Type 0} (X : Type 0) (m : M A) → Leads (λ _. X) m (λ _ _. X)
  any X m = record { at = λ v p a e. p }

  -- The overview behind its first call.
  abbrev overview_since : ℕ → M (DashboardOverview Float)
  overview_since since = do
    counts ← count_by_status_since since
    hourly ← hourly_counts_since hour_of since
    average ←
        average_completed_duration_since Float float_zero percentage average_seconds round_to_int
          start_of_day hour_of engine_version since
    queued_now ← queue_count
    tasks ← recent (pos 7)
    apps ← top_by_risk_level (pos 5)
    pure (
        overview_of Float float_zero percentage average_seconds round_to_int start_of_day hour_of
          engine_version counts hourly average queued_now tasks apps)

  overview-Leads :
      (d : Db) (since : ℕ)
      → ((t : ℕ) → hour_of t < 24)
      → Leads (λ x. x ≡ d) (overview_since since) (λ o _. AddsUp (created_since since d) o)
  overview-Leads d since h = Leads-bind _ _ _ _ _ (counts-Leads d since) (λ counts.
      Leads-bind _ (λ hourly _. Fits (created_since since d) counts hourly) _ _ _
        (record { at = λ v p a e. (p.1, ((hourly-Leads d since h).at v p.0 a e).1) })
        (λ hourly. Leads-bind _ _ _ _ _ (any _ _) (λ average. Leads-bind _ _ _ _ _ (any _ _) (λ q.
          Leads-bind _ _ _ _ _ (any _ _) (λ tasks. Leads-bind _ _ _ _ _ (any _ _) (λ apps.
            Leads-pure _ _ _ (λ x p. Fits-AddsUp _ counts hourly average q tasks apps p)))))))

  -- If the overview is given, then the tasks that it counts for the day are those created since the
  -- start of the day, its three results add up to them, and so do the counts of its 24 hours, for a
  -- calendar whose hours are below 24.
  pub get_overview_lem :
      (w : World) (o : DashboardOverview Float)
      → ((t : ℕ) → hour_of t < 24)
      → (get_overview Float float_zero percentage average_seconds round_to_int start_of_day hour_of
          engine_version w).0
        ≡ ok o
      → AddsUp (created_since (start_of_day (w.clock w.calls)) w.db) o
  unfolding get_overview ◌>>=◌ time_now
  get_overview_lem w o h e = (overview-Leads w.db (start_of_day (w.clock w.calls)) h).at w refl o e
