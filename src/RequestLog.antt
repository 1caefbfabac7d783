-- ===== src/RequestLog.antt =====
-- internal/middleware/request_log.go, internal/service/api_request_log_service.go and
-- internal/repository/api_request_log_repository.go. The middleware is given the service as its
-- recorder, and the service its repository, as cmd/server/main.go does.
use beetle_shield_backend.Prelude.{
  ℕ, Bool, ◌&&◌, ◌||◌, String, Option, List, [], ◌∷◌, ◌++◌, ◌==◌, ltb, leb, str_eq, count_where,
  rows_where,
}
use beetle_shield_backend.Prelude.Int.{ℤ, pos, negsuc}
use beetle_shield_backend.Prelude.Sorting.{sort_by, at_least_one}
use beetle_shield_backend.Model.{ApiRequestLog}
use beetle_shield_backend.Store.{M, ◌>>=◌, pure, query, insert_row, ignore}
use beetle_shield_backend.HardeningRepository.{page_of}
use beetle_shield_backend.Audit.Queries.{unless_given}

pub record RequestLogEntry : Type 0 where
  pub method : String
  pub path : String
  pub status : ℕ
  pub latency_ms : ℕ
  pub client_ip : String
  pub actor_user_id : ℕ

abbrev pub request_row : RequestLogEntry → ℕ → ℕ → ApiRequestLog
request_row entry id now = record {
  id = id;
  method = entry.method;
  path = entry.path;
  status = entry.status;
  latency_ms = entry.latency_ms;
  client_ip = entry.client_ip;
  actor_user_id = entry.actor_user_id;
  created_at = now;
}

-- A failure is logged, not returned.
unfoldable pub record_request : RequestLogEntry → M (Unit {0})
record_request entry = ignore (
    insert_row (λ id now d.
      (tt, record d { request_logs = d.request_logs ++ (request_row entry id now ∷ []) })))

pub record ApiRequestLogListFilter : Type 0 where
  pub method : String
  pub path : String
  pub status : Option ℤ
  pub actor_user_id : ℕ
  pub start_time : Option ℕ
  pub end_time : Option ℕ
  pub page : ℤ
  pub page_size : ℤ

abbrev equals : ℕ → ℤ → Bool
equals a (pos b) = a == b
equals a (negsuc b) = Bool.false

abbrev pub request_matches : ApiRequestLogListFilter → ApiRequestLog → Bool
request_matches filter l =
    ((str_eq filter.method "" || str_eq l.method filter.method)
      && ((str_eq filter.path "" || str_eq l.path filter.path)
          && unless_given filter.status (equals l.status)))
    && ((filter.actor_user_id == 0 || l.actor_user_id == filter.actor_user_id)
        && (unless_given filter.start_time (λ t. leb t l.created_at)
            && unless_given filter.end_time (λ t. leb l.created_at t)))

-- `created_at DESC, id DESC`
abbrev pub later_request : ApiRequestLog → ApiRequestLog → Bool
later_request l m = ltb m.created_at l.created_at || (m.created_at == l.created_at && ltb m.id l.id)

unfoldable pub list_requests : ApiRequestLogListFilter → M (List ApiRequestLog × ℕ)
list_requests filter = do
  total ← query (λ d. count_where (request_matches filter) d.request_logs)
  rows ← query (λ d.
      page_of (at_least_one filter.page 1) (at_least_one filter.page_size 20)
        (sort_by later_request (rows_where (request_matches filter) d.request_logs)))
  pure (rows, total)
