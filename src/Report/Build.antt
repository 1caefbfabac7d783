-- ===== src/Report/Build.antt =====
-- BuildHardeningReport of internal/service/hardening_report.go, with the texts that it picks.
-- `to_lower` is `strings.ToLower`, a parameter since it only shapes one text.
use Prim.Native.Char.{code}
use Prim.Native.String.{◌++◌}
use beetle_shield_backend.Prelude.{
  ℕ, ◌+◌, ◌*◌, ◌/◌, Bool, true, false, ◌&&◌, String, List, [], ◌∷◌, ◌==◌, str_eq, if◌then◌else◌,
}
use beetle_shield_backend.Model.{App, DexObfuscationLevel, HardeningTask, RiskLevel, is_high}
use beetle_shield_backend.Engine.{resolve_effective_flags}
use beetle_shield_backend.Report.Score.{
  weight_anti_debug_env, weight_hook_defense, weight_signature, weight_dex_max, weight_so_shell_max,
  weight_encryption_max, compute_score_breakdown, risk_level_for_score,
}

pub record ReportDimension : Type 0 where
  pub name : String
  pub before : ℕ
  pub after : ℕ

pub record ReportChecklistItem : Type 0 where
  pub name : String
  pub level : String
  pub status : String
  pub desc : String

pub record ReportArtifact : Type 0 where
  pub file_name : String
  pub sha256 : String
  pub engine_version : String

pub record HardeningReport : Type 0 where
  pub task_id : ℕ
  pub task_no : String
  pub app_name : String
  pub package_name : String
  pub version : String
  pub before_score : ℕ
  pub after_score : ℕ
  pub risk_level : RiskLevel
  pub dimensions : List ReportDimension
  pub checklist : List ReportChecklistItem
  pub artifact : ReportArtifact

only_slashes : String → Bool
only_slashes String.[] = true
only_slashes (String.◌∷◌ c s) = code c == b'/' && only_slashes s

-- The last path element so far is `element`; slashes at the end are dropped.
last_element : String → String → String
unfolding only_slashes
last_element element String.[] = element
last_element element (String.◌∷◌ c s) =
    last_element
      (if code c == b'/'
        then (if only_slashes s then element else "")
        else element ++ String.◌∷◌ c "")
      s

-- `path.Base`
unfoldable pub path_base : String → String
unfolding last_element
path_base path =
    if str_eq path ""
    then "."
    else let element = last_element "" path in if str_eq element "" then "/" else element

unfoldable pub artifact_file_name : String → String
artifact_file_name object_key = if str_eq object_key "" then "" else path_base object_key

unfoldable pub status_label : Bool → String
status_label fixed = if fixed then "已修复" else "已保留"

hook_checklist_desc : Bool → String
hook_checklist_desc enabled =
    if enabled then "已植入反动态注入探针，自动识别并中断 Hook 调用。" else "未启用 Hook 检测，建议开启反 Hook 策略。"

env_detect_checklist_desc : Bool → String
env_detect_checklist_desc enabled = if enabled then "已启用模拟器与调试环境检测。" else "未启用环境检测，建议开启。"

-- `string(level)`
abbrev level_text : DexObfuscationLevel → String
level_text DexObfuscationLevel.low = "low"
level_text DexObfuscationLevel.medium = "medium"
level_text DexObfuscationLevel.high = "high"
level_text (DexObfuscationLevel.other_level t) = t

dex_checklist_desc : (String → String) → DexObfuscationLevel → String
dex_checklist_desc to_lower level =
    let current = if str_eq (level_text level) "" then "未设置" else level_text level in
    if is_high level
    then "已对 DEX 主体数据进行指令虚拟化（VMP）混淆。"
    else ("当前混淆强度为 " ++ to_lower current) ++ "，建议提升至 high。"

string_encrypt_checklist_desc : Bool → String
string_encrypt_checklist_desc enabled = if enabled then "全局敏感明文采用 AES 加密，运行时动态解密。" else "未启用字符串加密。"

root_detect_checklist_desc : Bool → String
root_detect_checklist_desc enabled = if enabled then "已启用多级 Root 检测。" else "未启用 Root 检测。"

-- The app of the task is preloaded.
unfoldable pub build_hardening_report :
    (String → String) → HardeningTask → App → String → HardeningReport
unfolding compute_score_breakdown risk_level_for_score artifact_file_name status_label
    hook_checklist_desc env_detect_checklist_desc dex_checklist_desc string_encrypt_checklist_desc
    root_detect_checklist_desc
build_hardening_report to_lower task app engine_version =
    let flags = resolve_effective_flags task.strategy_snapshot in
    let level = task.strategy_snapshot.dex_level in
    let b = compute_score_breakdown flags level in
    let combined_weight = weight_anti_debug_env + weight_hook_defense in
    let combined_percent = (b.anti_debug_env_score + b.hook_score) * 100 / combined_weight in
    let unsigned_file_name = artifact_file_name task.unsigned_object_key in
    let signed_file_name = artifact_file_name task.signed_test_object_key in
    let is_unsigned = str_eq signed_file_name "" in
    record {
      task_id = task.id;
      task_no = task.task_no;
      app_name = app.name;
      package_name = app.package_name;
      version = app.version;
      before_score = 100;
      after_score = b.after_score;
      risk_level = risk_level_for_score b.after_score;
      dimensions =
          record { name = "反调试保护"; before = 0; after = combined_percent }
          ∷ record { name = "DEX 混淆"; before = 0; after = b.dex_points * 100 / weight_dex_max }
          ∷ record { name = "SO 加壳保护"; before = 0; after = b.so_points * 100 / weight_so_shell_max }
          ∷ record {
            name = "资源文件加密";
            before = 0;
            after = b.encrypt_points * 100 / weight_encryption_max;
          }
          ∷ record { name = "签名校验"; before = 0; after = b.sig_score * 100 / weight_signature }
          ∷ [];
      checklist =
          record {
            name = "Frida/Xposed 注入防御";
            level = "超危";
            status = status_label flags.hook_detect;
            desc = hook_checklist_desc flags.hook_detect;
          }
          ∷ record {
            name = "系统调试器绕过";
            level = "高危";
            status = status_label flags.emulator_detect;
            desc = env_detect_checklist_desc flags.emulator_detect;
          }
          ∷ record {
            name = "DEX 字节码明文暴露";
            level = "高危";
            status = status_label (is_high level);
            desc = dex_checklist_desc to_lower level;
          }
          ∷ record {
            name = "硬编码明文字符串泄露";
            level = "中危";
            status = status_label flags.string_encrypt;
            desc = string_encrypt_checklist_desc flags.string_encrypt;
          }
          ∷ record {
            name = "设备 Root 权限滥用";
            level = "中危";
            status = status_label flags.root_detect;
            desc = root_detect_checklist_desc flags.root_detect;
          }
          ∷ record {
            name = "SSL Pinning 证书校验";
            level = "低危";
            status = status_label false;
            desc = "检测到未配置本地证书单向校验。建议在下次加固策略中启用。";
          }
          ∷ [];
      artifact = record {
        file_name = if is_unsigned then unsigned_file_name else signed_file_name;
        sha256 = if is_unsigned then task.unsigned_sha256 else task.signed_test_sha256;
        engine_version = engine_version;
      };
    }
