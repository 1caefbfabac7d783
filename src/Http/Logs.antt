-- ===== src/Http/Logs.antt =====
-- internal/handler/audit_handler.go and internal/handler/api_request_log_handler.go. `parse_time`
-- is `time.Parse` with RFC 3339.
use beetle_shield_backend.Prelude.{ℕ, Bool, String, Option, none, some, List, str_eq, if◌then◌else◌}
use beetle_shield_backend.Prelude.Int.{ℤ}
use beetle_shield_backend.Model.{ApiRequestLog, AuditLog}
use beetle_shield_backend.Audit.Queries.{AuditListFilter, list_audit_logs}
use beetle_shield_backend.RequestLog.{ApiRequestLogListFilter, list_requests}
use beetle_shield_backend.Http.Numbers.{parse_uint, parsed_value, atoi, atoi_value}
use beetle_shield_backend.Http.Reply.{
  failure, Handler, Request, default_query, query_text, reply, respond,
}

-- `if text := c.Query(key); text != "" { value, err := parse(text) ... }`
abbrev pub optional :
    {A B : Type 0} → (String → Option A) → ℕ → String → String → (Option A → Handler B) → Handler B
optional parse code message text handle =
    if str_eq text ""
    then handle none
    else elim (parse text) [ none ↦ reply (failure 400 code message) | some a ↦ handle (some a) ]

abbrev pub success_filter : String → Option Bool
success_filter text = if str_eq text "" then none else some (str_eq text "true")

module _ (parse_time : String → Option ℕ) where
  abbrev audit_filter : Request → Option ℕ → Option ℕ → AuditListFilter
  audit_filter c start_time end_time = record {
    actor_user_id = parsed_value (parse_uint (default_query c "actorUserId" "0"));
    action = query_text c "action";
    target_type = query_text c "targetType";
    success = success_filter (query_text c "success");
    start_time = start_time;
    end_time = end_time;
    page = atoi_value (default_query c "page" "1");
    page_size = atoi_value (default_query c "pageSize" "20");
  }

  unfoldable pub handle_audit_list : Request → Handler (List AuditLog × ℕ)
  handle_audit_list c =
      optional parse_time 40030 "非法的开始时间" (query_text c "startTime") (λ start_time.
        optional parse_time 40031 "非法的结束时间" (query_text c "endTime") (λ end_time.
          respond (λ _. failure 500 50030 "查询审计日志失败") (λ page. page)
            (list_audit_logs (audit_filter c start_time end_time))))

  abbrev request_filter : Request → Option ℤ → Option ℕ → Option ℕ → ApiRequestLogListFilter
  request_filter c status start_time end_time = record {
    method = query_text c "method";
    path = query_text c "path";
    status = status;
    actor_user_id = parsed_value (parse_uint (default_query c "actorUserId" "0"));
    start_time = start_time;
    end_time = end_time;
    page = atoi_value (default_query c "page" "1");
    page_size = atoi_value (default_query c "pageSize" "20");
  }

  unfoldable pub handle_request_list : Request → Handler (List ApiRequestLog × ℕ)
  handle_request_list c = optional atoi 40040 "非法的状态码" (query_text c "status") (λ status.
      optional parse_time 40041 "非法的开始时间" (query_text c "startTime") (λ start_time.
        optional parse_time 40042 "非法的结束时间" (query_text c "endTime") (λ end_time.
          respond (λ _. failure 500 50040 "查询 API 请求日志失败") (λ page. page)
            (list_requests (request_filter c status start_time end_time)))))
