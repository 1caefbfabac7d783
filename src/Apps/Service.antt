-- ===== src/Apps/Service.antt =====
-- internal/service/app_service.go and internal/pkg/manifest/parser.go. The content of a file is a
-- text; the digests of it, in hexadecimal, are parameters, and `open_apk` is the APK reader.
use Prim.Native.String.{◌++◌ as append}
use beetle_shield_backend.Prelude.{
  ℕ, zero, suc, Bool, true, false, ◌&&◌, ◌||◌, not, ◌+◌, String, Option, none, some, List, [], ◌∷◌,
  map, ◌==◌, leb, str_eq, if◌then◌else◌,
}
use beetle_shield_backend.Prelude.Int.{ℤ, ltb_bound, times64}
use beetle_shield_backend.Prelude.Text.{codes}
use beetle_shield_backend.Model.{App, AppStatus, AppTag, AuditAction}
use beetle_shield_backend.Store.{
  Result, ok, err, unsupported_file_type, file_too_large, missing_package_info, app_not_found,
  app_has_active_hardening_task, check_active_task, delete_app_record, open_uploaded_file,
  create_temp_file, write_temp_file, seek_temp_file, upload_to_storage, save_app_record,
  parse_package_info, M, ◌>>=◌, ◌>>◌, pure, fail, guard, call, attempt, map_error, from_result,
  ignore, external_call,
}
use beetle_shield_backend.Audit.{
  RecordAuditInput, record_audit, deferred_audit, error_text, succeeded,
}
use beetle_shield_backend.Engine.{ext, trim_suffix}
use beetle_shield_backend.HardeningRepository.{has_active_task_for_app}
use beetle_shield_backend.Worker.{put_object, delete_object}
use beetle_shield_backend.Apps.Repository.{create_app_row, find_app_row, delete_app_row}

-- The kinds that are allowed, with their extensions in lower case.
pub data FileType : Type 0 where
  apk aab : FileType

abbrev pub extension : FileType → String
extension apk = ".apk"
extension aab = ".aab"

-- `unicode.ToLower` as far as it gives an ASCII letter: besides the capital letters, the sign
-- Kelvin and the dotted I have one.
abbrev pub lower_code : ℕ → ℕ
lower_code c =
    if leb b'A' c && leb c b'Z'
    then c + 32
    else if c == 0x212a
    then b'k'
    else if c == 0x130
    then b'i'
    else c

abbrev pub codes_eq : List ℕ → List ℕ → Bool
codes_eq [] [] = true
codes_eq (c ∷ cs) (d ∷ ds) = c == d && codes_eq cs ds
codes_eq _ _ = false

-- `strings.ToLower(s) == t`, for a text of ASCII letters
abbrev pub lower_is : String → String → Bool
lower_is s t = codes_eq (map lower_code (codes s)) (codes t)

abbrev pub file_type : String → Option FileType
file_type filename =
    if lower_is (ext filename) ".apk"
    then some apk
    else if lower_is (ext filename) ".aab"
    then some aab
    else none

abbrev pub supported : Option FileType → M FileType
supported none = fail unsupported_file_type
supported (some t) = pure t

pub record UploadInput : Type 0 where
  pub filename : String
  pub size : ℕ
  pub content : String
  pub tag : AppTag
  pub manual_package_name : String
  pub manual_version : String
  pub uploaded_by : ℕ
  pub ip : String

pub record PackageInfo : Type 0 where
  pub package_name : String
  pub version_name : String

-- What the APK reader gives: the name of the package, and its version or an error.
pub record ApkFile : Type 0 where
  pub package_name : String
  pub version_name : Result String

abbrev pub version_or_empty : Result String → String
version_or_empty (ok v) = v
version_or_empty (err e) = ""

-- `ParseAPK`, once the file is open
abbrev pub package_info : ApkFile → M PackageInfo
package_info file =
    if str_eq file.package_name ""
    then fail parse_package_info
    else pure (record {
      package_name = file.package_name;
      version_name = version_or_empty file.version_name;
    })

-- The first bytes of an ASCII text.
abbrev pub text_take : ℕ → String → String
text_take zero s = String.[]
text_take (suc n) String.[] = String.[]
text_take (suc n) (String.◌∷◌ c s) = String.◌∷◌ c (text_take n s)

-- What the upload was told by hand, or else what the file says.
abbrev pub manual_or : String → String → String
manual_or manual parsed = if str_eq manual "" then parsed else manual

abbrev pub named_by : UploadInput → Result PackageInfo → String × String
named_by input (ok info) = (
  manual_or input.manual_package_name info.package_name,
  manual_or input.manual_version info.version_name,
)
named_by input (err e) = (input.manual_package_name, input.manual_version)

abbrev app_label : App → String
app_label app = append app.name (append " (" (append app.package_name ")"))

abbrev upload_detail : UploadInput → Result App → String
upload_detail input (ok app) = app_label app
upload_detail input (err e) = append input.filename (append " - " (error_text e))

abbrev uploaded_id : Result App → ℕ
uploaded_id (ok app) = app.id
uploaded_id (err e) = 0

abbrev pub upload_audit : UploadInput → Result App → RecordAuditInput
upload_audit input result = record {
  actor_user_id = input.uploaded_by;
  actor_email = "";
  action = AuditAction.app_upload;
  target_type = "app";
  target_id = uploaded_id result;
  detail = upload_detail input result;
  ip = input.ip;
  success = succeeded result;
}

module _ (open_apk : String → Result ApkFile) (md5_hex sha256_hex : String → String)
    (max_upload_size_mb : ℤ) where
  -- `maxUploadSizeMB * 1024 * 1024`
  abbrev pub too_large : ℕ → Bool
  too_large size = ltb_bound (times64 (times64 max_upload_size_mb 1024) 1024) size

  unfoldable pub parse_apk : String → M PackageInfo
  parse_apk content = (call (λ w. (open_apk content, w)) >>= from_result) >>= package_info

  abbrev pub resolve_names : UploadInput → FileType → M (String × String)
  resolve_names input apk = do
    parsed ← attempt (parse_apk input.content)
    pure (named_by input parsed)
  resolve_names input aab = pure (input.manual_package_name, input.manual_version)

  abbrev pub upload_key : UploadInput → String → String
  upload_key input package_name =
      append package_name
        (append "/" (append (text_take 12 (sha256_hex input.content)) (append "/" input.filename)))

  abbrev pub new_app : UploadInput → FileType → String → String → App
  new_app input kind package_name version = record {
    id = 0;
    name = trim_suffix input.filename (extension kind);
    package_name = package_name;
    version = version;
    tag = input.tag;
    status = AppStatus.unprotected;
    risk_level = none;
    file_size = input.size;
    object_key = upload_key input package_name;
    md5 = md5_hex input.content;
    sha256 = sha256_hex input.content;
    uploaded_by = input.uploaded_by;
    created_at = 0;
    updated_at = 0;
  }

  -- The object is removed again if its row cannot be stored.
  abbrev pub saved_or_removed : String → Result App → M App
  saved_or_removed key (ok app) = pure app
  saved_or_removed key (err e) = do ignore (delete_object key); fail (save_app_record e)

  abbrev pub store_upload : UploadInput → FileType → String × String → M App
  store_upload input kind (package_name, version) = do
    guard (not (str_eq package_name "" || str_eq version "")) missing_package_info
    map_error seek_temp_file external_call
    map_error upload_to_storage (put_object (upload_key input package_name))
    saved ← attempt (create_app_row (new_app input kind package_name version))
    saved_or_removed (upload_key input package_name) saved

  unfoldable pub upload : UploadInput → M App
  upload input = deferred_audit (upload_audit input) (do
    kind ← supported (file_type input.filename)
    guard (not (too_large input.size)) file_too_large
    map_error open_uploaded_file external_call
    map_error create_temp_file external_call
    map_error write_temp_file external_call
    names ← resolve_names input kind
    store_upload input kind names)

unfoldable pub get_app : ℕ → M App
get_app id = map_error (λ _. app_not_found) (find_app_row id)

abbrev with_failure : {A : Type 0} → String → Result A → String
with_failure detail (ok a) = detail
with_failure detail (err e) = append detail (append " - " (error_text e))

abbrev pub deletion_audit : ℕ → String → String → ℕ → Result (Unit {0}) → RecordAuditInput
deletion_audit actor ip detail target result = record {
  actor_user_id = actor;
  actor_email = "";
  action = AuditAction.app_delete;
  target_type = "app";
  target_id = target;
  detail = with_failure detail result;
  ip = ip;
  success = succeeded result;
}

unfoldable pub delete_found_app_body : ℕ → App → M (Unit {0})
delete_found_app_body id app = do
  active ← map_error check_active_task (has_active_task_for_app id)
  guard (not active) app_has_active_hardening_task
  map_error delete_app_record (delete_app_row id)
  ignore (delete_object app.object_key)

abbrev pub delete_found_app : ℕ → ℕ → String → Result App → M (Unit {0})
delete_found_app id actor ip (err e) =
    deferred_audit (deletion_audit actor ip "应用不存在" id) (fail app_not_found)
delete_found_app id actor ip (ok app) =
    deferred_audit (deletion_audit actor ip (app_label app) app.id) (delete_found_app_body id app)

unfoldable pub delete_app : ℕ → ℕ → String → M (Unit {0})
delete_app id actor ip = do found ← attempt (find_app_row id); delete_found_app id actor ip found

module _ (presigned : String → String) where
  unfoldable pub app_download_url : ℕ → ℕ → String → M String
  app_download_url id actor ip = do
    app ← map_error (λ _. app_not_found) (find_app_row id)
    external_call
    record_audit (record {
      actor_user_id = actor;
      actor_email = "";
      action = AuditAction.app_download;
      target_type = "app";
      target_id = app.id;
      detail = app_label app;
      ip = ip;
      success = true;
    })
    pure (presigned app.object_key)
