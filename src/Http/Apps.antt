-- ===== src/Http/Apps.antt =====
-- internal/handler/app_handler.go.
use beetle_shield_backend.Prelude.{
  ℕ, Bool, true, false, not, String, Option, none, some, List, str_eq, if◌then◌else◌,
}
use beetle_shield_backend.Prelude.Int.{ℤ}
use beetle_shield_backend.Model.{App, AppTag, finance, game, tool, ecommerce, other_tag}
use beetle_shield_backend.Store.{Error, Result}
use beetle_shield_backend.Audit.{error_text}
use beetle_shield_backend.Apps.Repository.{list_apps}
use beetle_shield_backend.Apps.Service.{ApkFile, upload, get_app, delete_app, app_download_url}
use beetle_shield_backend.Http.Accounts.{with_id}
use beetle_shield_backend.Http.Numbers.{parse_uint, parsed_or_none, atoi_value}
use beetle_shield_backend.Http.Reply.{
  FormFile, Reply, failure, Handler, Request, default_query, query_text, reply, respond,
}

abbrev pub app_tag_of : String → AppTag
app_tag_of text =
    if str_eq text "finance"
    then finance
    else if str_eq text "game"
    then game
    else if str_eq text "tool"
    then tool
    else if str_eq text "ecommerce"
    then ecommerce
    else other_tag text

abbrev pub valid_app_tag : AppTag → Bool
valid_app_tag (other_tag text) = false
valid_app_tag _ = true

abbrev pub upload_error : {A : Type 0} → Error → Reply A
upload_error Error.unsupported_file_type =
    failure 400 40003 (error_text Error.unsupported_file_type)
upload_error Error.file_too_large = failure 400 40004 (error_text Error.file_too_large)
upload_error Error.missing_package_info = failure 422 42201 (error_text Error.missing_package_info)
upload_error _ = failure 500 50001 "上传失败，请稍后重试"

module _ (open_apk : String → Result ApkFile) (md5_hex sha256_hex : String → String)
    (max_upload_size_mb : ℤ) where
  abbrev upload_file : Request → Option FormFile → Handler App
  upload_file c none = reply (failure 400 40002 "缺少上传文件")
  upload_file c (some file) =
      if not (valid_app_tag (app_tag_of (c.form "tag")))
      then reply (failure 400 40006 "无效的应用标签")
      else respond upload_error (λ app. app)
          (upload open_apk md5_hex sha256_hex max_upload_size_mb (record {
            filename = file.filename;
            size = file.size;
            content = file.content;
            tag = app_tag_of (c.form "tag");
            manual_package_name = c.form "packageName";
            manual_version = c.form "version";
            uploaded_by = c.user_id;
            ip = c.client_ip;
          }))

  unfoldable pub handle_upload : Request → Handler App
  handle_upload c = upload_file c c.file

module _ (ilike : String → String → Bool) where
  unfoldable pub handle_list_apps : Request → Handler (List App × ℕ)
  handle_list_apps c =
      respond (λ _. failure 500 50002 "查询应用列表失败") (λ page. page)
        (list_apps ilike (record {
          search = query_text c "search";
          status = query_text c "status";
          tag = query_text c "tag";
          page = atoi_value (default_query c "page" "1");
          page_size = atoi_value (default_query c "pageSize" "10");
        }))

-- `strconv.ParseUint(c.Param("id"), 10, 64)`
abbrev pub app_id : {B : Type 0} → Request → (ℕ → Handler B) → Handler B
app_id c handle = with_id 40005 "非法的应用 ID" handle (parsed_or_none (parse_uint c.id_param))

unfoldable pub handle_get_app : Request → Handler App
handle_get_app c =
    app_id c (λ id. respond (λ _. failure 404 40402 "应用不存在") (λ app. app) (get_app id))

abbrev pub app_deletion_error : {A : Type 0} → Error → Reply A
app_deletion_error Error.app_not_found = failure 404 40402 "应用不存在"
app_deletion_error Error.app_has_active_hardening_task = failure 409 40902 "应用存在进行中的加固任务，无法删除"
app_deletion_error _ = failure 500 50003 "删除应用失败"

unfoldable pub handle_delete_app : Request → Handler (Unit {0})
handle_delete_app c =
    app_id c (λ id. respond app_deletion_error (λ u. u) (delete_app id c.user_id c.client_ip))

abbrev pub app_download_error : {A : Type 0} → Error → Reply A
app_download_error Error.app_not_found = failure 404 40402 "应用不存在"
app_download_error _ = failure 500 50004 "生成下载链接失败"

module _ (presigned : String → String) where
  unfoldable pub handle_app_download_url : Request → Handler String
  handle_app_download_url c = app_id c (λ id.
      respond app_download_error (λ url. url) (app_download_url presigned id c.user_id c.client_ip))
