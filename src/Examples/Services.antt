-- ===== src/Examples/Services.antt =====
-- The theorems on the services at concrete inputs.
use Prim.Native.String.{◌++◌ as append}
use beetle_shield_backend.Prelude.{
  ℕ, none, ◌≡◌, ◌≢◌, ◌<◌, refl, true, false, String, some, [], ◌∷◌, List, first_where, count_where,
  arith,
}
use beetle_shield_backend.Prelude.Int.{pos}
use beetle_shield_backend.Model.{
  DexObfuscationLevel, HardeningTask, HardeningTaskStatus, SigPolicy, SoShellType,
}
use beetle_shield_backend.Store.{World, ok, running}
use beetle_shield_backend.Audit.{record_audit}
use beetle_shield_backend.Report.{HardeningReport, build_hardening_report}
use beetle_shield_backend.Strategies.{SaveStrategyInput, basic_template}
use beetle_shield_backend.Strategies.Validity.{
  AllValid, Mutation, save, create, delete, mutations, mutations-AllValid,
}
use beetle_shield_backend.HardeningRepository.{active_for, find_by_id, load_app}
use beetle_shield_backend.HardeningService.{
  CreateHardeningTaskInput, HardeningTaskDetail, create as create_task, download_url, get_report,
}
use beetle_shield_backend.Prelude.{◌≤◌, ◌==◌, ◌||◌, ltb, length, All}
use beetle_shield_backend.Model.{HardeningLog, HardeningLogLevel}
use beetle_shield_backend.HardeningRepository.{HardeningLogFilter, logs}
use beetle_shield_backend.HardeningRepository.LogPages.{logs_lem}
use beetle_shield_backend.HardeningService.Admission.{create_refused}
use beetle_shield_backend.HardeningService.Downloads.{
  IsKeyOf, IsReportOf, download_url_failed, download_url_lem, get_report_lem,
}
use beetle_shield_backend.Examples.{app_7, task_1, with_tasks, fair}

abbrev request : CreateHardeningTaskInput
request = record {
  app_id = 7;
  strategy_id = 0;
  strategy_name = "mine";
  strategy_snapshot = some basic_template;
  created_by = 3;
  ip = "10.0.0.1";
}

abbrev no_detail : HardeningTaskDetail
no_detail = record { task = record { task = task_1; app = app_7 }; steps = []; recent_logs = [] }

busy : 0 < count_where (active_for 7) (task_1 ∷ [])
busy = omega arith

create_refused_example :
    (create_task "*" (λ n. "T2") request (fair (with_tasks (task_1 ∷ [])))).0 ≢ ok no_detail
create_refused_example =
    create_refused "*" (λ n. "T2") request (fair (with_tasks (task_1 ∷ []))) no_detail busy

abbrev done : HardeningTask
done = record task_1 {
  status = HardeningTaskStatus.completed;
  unsigned_object_key = "a/unsigned.apk";
}

abbrev link : String → String
link key = append "https://minio/" key

linked :
    (download_url link 1 "unsigned" 3 "10.0.0.1" (fair (with_tasks (done ∷ [])))).0
    ≡ ok "https://minio/a/unsigned.apk"
unfolding download_url find_by_id record_audit running
linked = refl

download_url_lem_example :
    (t : HardeningTask) × (key : String) × (first_where (λ t. t.id == 1) (done ∷ []) ≡ some t)
    × IsKeyOf "unsigned" t key
    × (key ≢ "")
    × ("https://minio/a/unsigned.apk" ≡ link key)
download_url_lem_example =
    download_url_lem link 1 "unsigned" 3 "10.0.0.1" (fair (with_tasks (done ∷ [])))
      "https://minio/a/unsigned.apk" linked

abbrev broken : HardeningTask
broken = record task_1 { status = HardeningTaskStatus.failed; error_summary = "engine" }

download_url_failed_example :
    (download_url link 1 "signed_test" 3 "10.0.0.1" (fair (with_tasks (broken ∷ [])))).0
    ≢ ok "https://minio/"
download_url_failed_example =
    download_url_failed link 1 "signed_test" 3 "10.0.0.1" (fair (with_tasks (broken ∷ []))) broken
      "https://minio/" ((λ e. refl), tt) refl refl

abbrev report : HardeningReport
report = build_hardening_report (λ s. s) done app_7 "1.0"

reported : (get_report (λ s. s) "1.0" 1 (fair (with_tasks (done ∷ [])))).0 ≡ ok report
unfolding get_report find_by_id running
reported = refl

get_report_lem_example :
    (t : HardeningTask) × (first_where (λ t. t.id == 1) (done ∷ []) ≡ some t)
    × (t.status ≡ HardeningTaskStatus.completed)
    × IsReportOf t (load_app (app_7 ∷ []) t).app "1.0" report
get_report_lem_example =
    get_report_lem (λ s. s) "1.0" 1 (fair (with_tasks (done ∷ []))) report reported

abbrev fields : SaveStrategyInput
fields = record {
  frida = true;
  xposed = false;
  emulator = false;
  dex_level = DexObfuscationLevel.low;
  string_encrypt = false;
  res_mix = false;
  so_shell = SoShellType.no_shell;
  so_strength = pos 30;
  target_sos = [];
  root_detect = false;
  signature = true;
  sig_policy = SigPolicy.warn;
  anti_hook = false;
  res_encrypt = false;
  screenshot_protect = false;
  file_integrity_check = false;
  proxy_detect = false;
  vmp_rules_text = "";
}

-- One good save, one with a level that is not known, and a deletion.
abbrev changes : List Mutation
changes =
    save fields 3 "10.0.0.1"
    ∷ create
        (record {
          name = "loud";
          description = "";
          fields = record fields { dex_level = DexObfuscationLevel.other_level "extreme" };
        })
        3 "10.0.0.1"
    ∷ delete 20 3 "10.0.0.1"
    ∷ []

mutations-AllValid_example : AllValid (mutations changes (fair (with_tasks []))).db
mutations-AllValid_example = mutations-AllValid changes (fair (with_tasks [])) tt

abbrev log_row : ℕ → HardeningLog
log_row id = record {
  id = id;
  task_id = 1;
  step_id = none;
  level = HardeningLogLevel.info;
  message = "line";
  created_at = 0;
}

abbrev logged : World
logged = fair (record (with_tasks (task_1 ∷ [])) { logs = log_row 4 ∷ log_row 5 ∷ log_row 6 ∷ [] })

abbrev after_4 : HardeningLogFilter
after_4 = record { step_key = ""; after_id = 4; limit = pos 1 }

one_line : (logs 1 after_4 logged).0 ≡ ok (log_row 5 ∷ [])
unfolding logs running
one_line = refl

logs_lem_example :
    (length (log_row 5 ∷ []) ≤ 500)
    × All
        (λ (l : HardeningLog).
          (l.task_id ≡ 1) × ((after_4.after_id == 0 || ltb after_4.after_id l.id) ≡ true))
        (log_row 5 ∷ [])
logs_lem_example = logs_lem 1 after_4 logged (log_row 5 ∷ []) one_line
