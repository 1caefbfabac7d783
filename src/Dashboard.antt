-- ===== src/Dashboard.antt =====
-- internal/service/dashboard_service.go. Floating-point numbers are those of the hardware: the
-- rate and the rounded average are parameters, and so is the calendar of the local time zone.
pub mod Totals
use beetle_shield_backend.Prelude.{
  ℕ, zero, suc, ◌+◌, ◌-◌, ◌/◌, ◌%◌, Bool, true, false, ◌&&◌, String, Option, none, some, List, [],
  ◌∷◌, ◌++◌, map, ltb, leb, rows_where, if◌then◌else◌,
}
use beetle_shield_backend.Prelude.Int.{ℤ, pos, negsuc}
use beetle_shield_backend.Model.{App, HardeningTask, HardeningTaskStatus, RiskLevel, is_completed}
use beetle_shield_backend.Store.{M, ◌>>=◌, pure, query, time_now}
use beetle_shield_backend.HardeningRepository.{
  LoadedTask, count_by_status_since, hourly_counts_since, queue_count, recent,
}
use beetle_shield_backend.Apps.Repository.{top_by_risk_level}

pub record HourlyPoint : Type 0 where
  pub hour : ℕ
  pub count : ℕ

pub record ResultDistribution : Type 0 where
  pub success : ℕ
  pub failed : ℕ
  pub processing : ℕ

pub record DashboardTaskItem : Type 0 where
  pub task_id : ℕ
  pub task_no : String
  pub app_name : String
  pub package_name : String
  pub version : String
  pub status : HardeningTaskStatus
  pub duration_seconds : Option ℤ
  pub created_at : ℕ

pub record DashboardRiskApp : Type 0 where
  pub app_id : ℕ
  pub name : String
  pub package_name : String
  pub risk_level : RiskLevel
  pub display_score : ℕ

pub record DashboardSystemStatus : Type 0 where
  pub engine_version : String
  pub queue_count : ℕ

pub record DashboardOverview (Float : Type 0) : Type 0 where
  pub today_task_count : ℕ
  pub success_rate : Float
  pub avg_duration_seconds : ℤ
  pub queue_count : ℕ
  pub hourly_trend : List HourlyPoint
  pub result_distribution : ResultDistribution
  pub recent_tasks : List DashboardTaskItem
  pub risk_top5 : List DashboardRiskApp
  pub system_status : DashboardSystemStatus

abbrev pub risk_level_display_score : RiskLevel → ℕ
risk_level_display_score RiskLevel.critical = 90
risk_level_display_score RiskLevel.high = 65
risk_level_display_score RiskLevel.medium = 40
risk_level_display_score RiskLevel.low = 15

-- `int(finished.Sub(started).Seconds())`: whole seconds, cut towards zero, for a duration short
-- enough that a float holds its seconds exactly.
abbrev pub whole_seconds : ℕ → ℕ → ℤ
whole_seconds started finished =
    if leb started finished
    then pos ((finished - started) / 1000000000)
    else if leb 1000000000 (started - finished)
    then negsuc ((started - finished) / 1000000000 - 1)
    else pos 0

abbrev pub duration_of : Option ℕ → Option ℕ → Option ℤ
duration_of (some started) (some finished) = some (whole_seconds started finished)
duration_of _ _ = none

abbrev pub task_item : LoadedTask → DashboardTaskItem
task_item t = record {
  task_id = t.task.id;
  task_no = t.task.task_no;
  app_name = t.app.name;
  package_name = t.app.package_name;
  version = t.app.version;
  status = t.task.status;
  duration_seconds = duration_of t.task.started_at t.task.finished_at;
  created_at = t.task.created_at;
}

-- An app without a level is left out.
abbrev pub risk_items_of : App → Option RiskLevel → List DashboardRiskApp
risk_items_of app none = []
risk_items_of app (some level) =
    record {
      app_id = app.id;
      name = app.name;
      package_name = app.package_name;
      risk_level = level;
      display_score = risk_level_display_score level;
    }
    ∷ []

abbrev pub risk_items : List App → List DashboardRiskApp
risk_items [] = []
risk_items (app ∷ apps) = risk_items_of app app.risk_level ++ risk_items apps

-- `n` points from the hour `from`; an hour is printed as `%02d:00`.
abbrev pub hourly_trend_from : ℕ → ℕ → (ℕ → ℕ) → List HourlyPoint
hourly_trend_from from zero hourly = []
hourly_trend_from from (suc n) hourly =
    record { hour = from; count = hourly from } ∷ hourly_trend_from (suc from) n hourly

-- The times of the completed tasks that have both.
abbrev pub windows_of : Option ℕ → Option ℕ → List (ℕ × ℕ)
windows_of (some started) (some finished) = (started, finished) ∷ []
windows_of _ _ = []

abbrev pub duration_windows : List HardeningTask → List (ℕ × ℕ)
duration_windows [] = []
duration_windows (t ∷ ts) = windows_of t.started_at t.finished_at ++ duration_windows ts

module _ (Float : Type 0) (float_zero : Float) (percentage : ℕ → ℕ → Float)
    (average_seconds : List (ℕ × ℕ) → Float) (round_to_int : Float → ℤ)
    (start_of_day hour_of : ℕ → ℕ) (engine_version : String) where
  abbrev average_of : List (ℕ × ℕ) → Option Float
  average_of [] = none
  average_of (w ∷ ws) = some (average_seconds (w ∷ ws))

  unfoldable pub average_completed_duration_since : ℕ → M (Option Float)
  average_completed_duration_since since = do
    windows ← query (λ d. duration_windows (
        rows_where (λ (t : HardeningTask). leb since t.created_at && is_completed t.status)
          d.tasks))
    pure (average_of windows)

  abbrev rounded_or_zero : Option Float → ℤ
  rounded_or_zero none = pos 0
  rounded_or_zero (some average) = round_to_int average

  -- `float64(completed) / float64(completed+failed) * 100`, for a sum that is not 0
  abbrev pub success_rate : ℕ → ℕ → Float
  success_rate completed failed =
      if ltb 0 (completed + failed) then percentage completed failed else float_zero

  abbrev pub overview_of :
      (HardeningTaskStatus → ℕ)
      → (ℕ → ℕ)
      → Option Float
      → ℕ
      → List LoadedTask
      → List App
      → DashboardOverview Float
  overview_of counts hourly average queued tasks apps = record {
    today_task_count =
        counts HardeningTaskStatus.completed
        + counts HardeningTaskStatus.failed
        + counts HardeningTaskStatus.queued
        + counts HardeningTaskStatus.running;
    success_rate =
        success_rate (counts HardeningTaskStatus.completed) (counts HardeningTaskStatus.failed);
    avg_duration_seconds = rounded_or_zero average;
    queue_count = queued;
    hourly_trend = hourly_trend_from 0 24 hourly;
    result_distribution = record {
      success = counts HardeningTaskStatus.completed;
      failed = counts HardeningTaskStatus.failed;
      processing = counts HardeningTaskStatus.queued + counts HardeningTaskStatus.running;
    };
    recent_tasks = map task_item tasks;
    risk_top5 = risk_items apps;
    system_status = record { engine_version = engine_version; queue_count = queued };
  }

  unfoldable pub get_overview : M (DashboardOverview Float)
  get_overview = do
    now ← time_now
    counts ← count_by_status_since (start_of_day now)
    hourly ← hourly_counts_since hour_of (start_of_day now)
    average ← average_completed_duration_since (start_of_day now)
    queued ← queue_count
    tasks ← recent (pos 7)
    apps ← top_by_risk_level (pos 5)
    pure (overview_of counts hourly average queued tasks apps)
