-- ===== src/Users/Repository.antt =====
-- internal/repository/user_repository.go. The column of the addresses has a unique index: the
-- insert of a second row with an address is refused, with the text `duplicate_key`.
use beetle_shield_backend.Prelude.{
  ℕ, Bool, true, false, ◌&&◌, ◌||◌, String, Option, none, some, List, [], ◌∷◌, ◌++◌, ◌==◌, ltb,
  str_eq, count_where, first_where, rows_where, update_where, delete_where,
}
use beetle_shield_backend.Prelude.Int.{ℤ}
use beetle_shield_backend.Prelude.Sorting.{sort_by, at_least_one}
use beetle_shield_backend.Model.{User, UserRole, UserStatus, admin, developer, auditor, other_role}
use beetle_shield_backend.Store.{
  Db, external, M, ◌>>=◌, pure, fail, time_now, query, execute, insert_row, first,
}
use beetle_shield_backend.HardeningRepository.{page_of}

abbrev pub user_has_id : ℕ → User → Bool
user_has_id id u = u.id == id

abbrev pub user_has_email : String → User → Bool
user_has_email email u = str_eq u.email email

unfoldable pub find_by_email : String → M User
find_by_email email = first (λ d. first_where (user_has_email email) d.users)

unfoldable pub find_user : ℕ → M User
find_user id = first (λ d. first_where (user_has_id id) d.users)

abbrev pub update_users : ℕ → (User → User) → M (Unit {0})
update_users id f =
    execute (λ d. (tt, record d { users = update_where (user_has_id id) f d.users }))

unfoldable pub update_last_login : ℕ → M (Unit {0})
update_last_login id = do
  now ← time_now
  updated ← time_now
  update_users id (λ u. record u { last_login_at = some now; updated_at = updated })

-- The insert of a row, or no row where the index refuses it.
abbrev pub insert_if : Bool → User → Db → Option User × Db
insert_if true row d = (some row, record d { users = d.users ++ (row ∷ []) })
insert_if false row d = (none, d)

abbrev pub insert_user : User → ℕ → ℕ → Db → Option User × Db
insert_user u id now d =
    insert_if (count_where (user_has_email u.email) d.users == 0)
      (record u { id = id; created_at = now; updated_at = now }) d

abbrev pub inserted_or : String → Option User → M User
inserted_or duplicate_key (some row) = pure row
inserted_or duplicate_key none = fail (external duplicate_key)

unfoldable pub create_user_row : String → User → M User
create_user_row duplicate_key u = do
  inserted ← insert_row (insert_user u)
  inserted_or duplicate_key inserted

unfoldable pub delete_by_email : String → M (Unit {0})
delete_by_email email =
    execute (λ d. (tt, record d { users = delete_where (user_has_email email) d.users }))

-- The columns that an update sets: the map has a key for each that is given.
pub record UpdateUserInput : Type 0 where
  pub name : Option String
  pub department : Option String
  pub role : Option UserRole

abbrev pub or_old : {A : Type 0} → A → Option A → A
or_old old none = old
or_old old (some new) = new

abbrev pub with_updates : UpdateUserInput → ℕ → User → User
with_updates input now u = record u {
  name = or_old u.name input.name;
  department = or_old u.department input.department;
  role = or_old u.role input.role;
  updated_at = now;
}

unfoldable pub update_user_row : ℕ → UpdateUserInput → M (Unit {0})
update_user_row id input = do now ← time_now; update_users id (with_updates input now)

unfoldable pub update_user_status_row : ℕ → UserStatus → M (Unit {0})
update_user_status_row id status = do
  now ← time_now
  update_users id (λ u. record u { status = status; updated_at = now })

-- `string(role)`
abbrev pub role_text : UserRole → String
role_text admin = "admin"
role_text developer = "developer"
role_text auditor = "auditor"
role_text (other_role text) = text

pub record UserListFilter : Type 0 where
  pub search : String
  pub role : String
  pub page : ℤ
  pub page_size : ℤ

module _ (ilike : String → String → Bool) where
  abbrev user_matches : UserListFilter → User → Bool
  user_matches filter u =
      (str_eq filter.search "" || (ilike u.name filter.search || ilike u.email filter.search))
      && (str_eq filter.role "" || str_eq (role_text u.role) filter.role)

  -- Rows of one time have no order among them.
  unfoldable pub list_users : UserListFilter → M (List User × ℕ)
  list_users filter = do
    total ← query (λ d. count_where (user_matches filter) d.users)
    rows ← query (λ d. page_of (at_least_one filter.page 1) (at_least_one filter.page_size 10) (
        sort_by (λ (s t : User). ltb t.created_at s.created_at)
          (rows_where (user_matches filter) d.users)))
    pure (rows, total)
