-- ===== src/Apps/Repository.antt =====
-- internal/repository/app_repository.go.
use beetle_shield_backend.Prelude.{
  ℕ, Bool, true, false, ◌&&◌, ◌||◌, String, Option, none, some, List, [], ◌∷◌, ◌++◌, ◌==◌, ltb,
  str_eq, take, count_where, first_where, rows_where, delete_where,
}
use beetle_shield_backend.Prelude.Int.{ℤ}
use beetle_shield_backend.Prelude.Sorting.{sort_by, at_least_one}
use beetle_shield_backend.Model.{
  App, AppStatus, AppTag, RiskLevel, finance, game, tool, ecommerce, other_tag,
}
use beetle_shield_backend.Store.{
  M, ◌>>=◌, pure, time_now, query, execute, insert_row, first, update_apps, require_updated_row,
}
use beetle_shield_backend.HardeningRepository.{app_has_id, page_of}

abbrev pub stored_app : App → ℕ → ℕ → App
stored_app app id now = record app { id = id; created_at = now; updated_at = now }

unfoldable pub create_app_row : App → M App
create_app_row app = insert_row (λ id now d.
    (stored_app app id now, record d { apps = d.apps ++ (stored_app app id now ∷ []) }))

unfoldable pub find_app_row : ℕ → M App
find_app_row id = first (λ d. first_where (app_has_id id) d.apps)

unfoldable pub delete_app_row : ℕ → M (Unit {0})
delete_app_row id = execute (λ d. (tt, record d { apps = delete_where (app_has_id id) d.apps }))

unfoldable pub update_app_status : ℕ → AppStatus → M (Unit {0})
update_app_status id status = do
  now ← time_now
  require_updated_row
      (update_apps (app_has_id id) (λ a. record a { status = status; updated_at = now }))

-- `string(status)` and `string(tag)`
abbrev pub app_status_text : AppStatus → String
app_status_text AppStatus.unprotected = "unprotected"
app_status_text AppStatus.processing = "processing"
app_status_text AppStatus.completed = "completed"
app_status_text AppStatus.failed = "failed"

abbrev pub app_tag_text : AppTag → String
app_tag_text finance = "finance"
app_tag_text game = "game"
app_tag_text tool = "tool"
app_tag_text ecommerce = "ecommerce"
app_tag_text (other_tag text) = text

pub record AppListFilter : Type 0 where
  pub search : String
  pub status : String
  pub tag : String
  pub page : ℤ
  pub page_size : ℤ

module _ (ilike : String → String → Bool) where
  abbrev app_matches : AppListFilter → App → Bool
  app_matches filter a =
      ((str_eq filter.search ""
          || (ilike a.name filter.search || ilike a.package_name filter.search))
        && (str_eq filter.status "" || str_eq (app_status_text a.status) filter.status))
      && (str_eq filter.tag "" || str_eq (app_tag_text a.tag) filter.tag)

  -- Rows of one time have no order among them.
  unfoldable pub list_apps : AppListFilter → M (List App × ℕ)
  list_apps filter = do
    total ← query (λ d. count_where (app_matches filter) d.apps)
    rows ← query (λ d. page_of (at_least_one filter.page 1) (at_least_one filter.page_size 10) (
        sort_by (λ (s t : App). ltb t.created_at s.created_at)
          (rows_where (app_matches filter) d.apps)))
    pure (rows, total)

-- `CASE risk_level`; a row without a level is not listed.
abbrev pub risk_order : Option RiskLevel → ℕ
risk_order (some RiskLevel.critical) = 4
risk_order (some RiskLevel.high) = 3
risk_order (some RiskLevel.medium) = 2
risk_order (some RiskLevel.low) = 1
risk_order none = 0

abbrev has_risk : Option RiskLevel → Bool
has_risk none = false
has_risk (some level) = true

abbrev pub riskier : App → App → Bool
riskier a b =
    ltb (risk_order b.risk_level) (risk_order a.risk_level)
    || (risk_order a.risk_level == risk_order b.risk_level && ltb b.updated_at a.updated_at)

unfoldable pub top_by_risk_level : ℤ → M (List App)
top_by_risk_level limit = query (λ d.
    take (at_least_one limit 5) (sort_by riskier (rows_where (λ a. has_risk a.risk_level) d.apps)))
