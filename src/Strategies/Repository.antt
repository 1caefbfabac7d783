-- ===== src/Strategies/Repository.antt =====
-- internal/repository/strategy_repository.go. `Save` inserts a row with no key and replaces the
-- row of its key otherwise, or inserts it where there is none.
use beetle_shield_backend.Prelude.{
  ℕ, Bool, true, false, ◌&&◌, ◌||◌, not, String, Option, none, some, List, [], ◌∷◌, ◌++◌, ◌==◌, ltb,
  str_eq, count_where, first_where, rows_where, update_where, delete_where, if◌then◌else◌,
}
use beetle_shield_backend.Prelude.Int.{ℤ}
use beetle_shield_backend.Prelude.Sorting.{sort_by, at_least_one}
use beetle_shield_backend.Model.{Strategy}
use beetle_shield_backend.Store.{
  Db, Result, ok, err, is_record_not_found, M, ◌>>=◌, pure, fail, attempt, time_now, query, execute,
  insert_row, first,
}
use beetle_shield_backend.HardeningRepository.{page_of}

abbrev pub strategy_has_id : ℕ → Strategy → Bool
strategy_has_id id s = s.id == id

abbrev pub by_id : Strategy → Strategy → Bool
by_id s t = ltb s.id t.id

abbrev pub head_row : List Strategy → Option Strategy
head_row [] = none
head_row (s ∷ ss) = some s

-- `Create`: the key and the times are assigned.
unfoldable pub insert_strategy : Strategy → M Strategy
insert_strategy s = insert_row (λ id now d.
    let row : Strategy = record s { id = id; created_at = now; updated_at = now } in
    (row, record d { strategies = d.strategies ++ (row ∷ []) }))

-- `Save` of a row that has a key: it replaces the row of the key, or is inserted where there is none.
abbrev pub put_strategy : Strategy → List Strategy → List Strategy
put_strategy row rows =
    if count_where (strategy_has_id row.id) rows == 0
    then rows ++ (row ∷ [])
    else update_where (strategy_has_id row.id) (λ _. row) rows

unfoldable pub replace_strategy : Strategy → M Strategy
replace_strategy s = do
  now ← time_now
  execute (λ d.
      let row : Strategy = record s { updated_at = now } in
      (row, record d { strategies = put_strategy row d.strategies }))

unfoldable pub save_row : Strategy → M Strategy
save_row s = if s.id == 0 then insert_strategy s else replace_strategy s

abbrev pub current_row : Db → Option Strategy
current_row d = head_row (sort_by by_id (rows_where (λ s. s.is_default) d.strategies))

unfoldable pub get_current_row : M Strategy
get_current_row = first current_row

abbrev pub as_default : Strategy → Strategy
as_default s = record s { name = "默认加固策略"; is_default = true }

abbrev pub with_existing : Strategy → Result Strategy → M Strategy
with_existing s (ok existing) =
    save_row (record s { id = existing.id; created_by = existing.created_by })
with_existing s (err e) = if is_record_not_found e then save_row s else fail e

unfoldable pub save_current_row : Strategy → M Strategy
save_current_row s = do found ← attempt get_current_row; with_existing (as_default s) found

unfoldable pub find_strategy : ℕ → M Strategy
find_strategy id = first (λ d. first_where (strategy_has_id id) d.strategies)

unfoldable pub find_regular : ℕ → M Strategy
find_regular id =
    first (λ d. first_where (λ s. not s.is_default && strategy_has_id id s) d.strategies)

unfoldable pub create_row : Strategy → M Strategy
create_row s = insert_strategy (record s { is_default = false })

unfoldable pub update_row : Strategy → M Strategy
update_row s = save_row (record s { is_default = false })

unfoldable pub delete_row : ℕ → M (Unit {0})
delete_row id =
    execute (λ d. (tt, record d { strategies = delete_where (strategy_has_id id) d.strategies }))

-- `is_default = false AND name = ?`, without the row `exclude_id` unless that is 0
abbrev pub taken_by_other : String → ℕ → Strategy → Bool
taken_by_other name exclude_id s =
    (not s.is_default && str_eq s.name name)
    && (exclude_id == 0 || not (strategy_has_id exclude_id s))

unfoldable pub name_exists : String → ℕ → M Bool
name_exists name exclude_id = do
  count ← query (λ d. count_where (taken_by_other name exclude_id) d.strategies)
  pure (ltb 0 count)

unfoldable pub promote_legacy_current : M Strategy
promote_legacy_current = do
  s ← first (λ d. head_row (sort_by by_id d.strategies))
  save_row (as_default s)

pub record StrategyListFilter : Type 0 where
  pub search : String
  pub page : ℤ
  pub page_size : ℤ

module _ (ilike : String → String → Bool) where
  abbrev strategy_matches : StrategyListFilter → Strategy → Bool
  strategy_matches filter s =
      not s.is_default
      && (str_eq filter.search ""
          || (ilike s.name filter.search || ilike s.description filter.search))

  -- Rows of one time have no order among them.
  unfoldable pub list_strategies : StrategyListFilter → M (List Strategy × ℕ)
  list_strategies filter = do
    total ← query (λ d. count_where (strategy_matches filter) d.strategies)
    rows ← query (λ d. page_of (at_least_one filter.page 1) (at_least_one filter.page_size 10) (
        sort_by (λ (s t : Strategy). ltb t.created_at s.created_at)
          (rows_where (strategy_matches filter) d.strategies)))
    pure (rows, total)
