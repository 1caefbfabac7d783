-- ===== src/Router/Policy.antt =====
-- What each role may do, stated by methods and not by guards, and that the guards of
-- internal/router/router.go say the same.
use beetle_shield_backend.Prelude.{
  ◌≡◌, refl, sym, ◌⊎◌, inl, inr, Bool-cases, Bool, true, false, ◌&&◌, ◌||◌, not, String, [], ◌∷◌,
  str_eq, eq_iff,
}
use beetle_shield_backend.Model.{admin, developer}
use beetle_shield_backend.Users.Repository.{role_text}
use beetle_shield_backend.Router.Guards.{role_in, role_of}
use beetle_shield_backend.Router.Routes.{
  Endpoint, Method, admin_only, get, guards_of, jwt_auth, method_of, write_roles,
}

abbrev is_get : Method → Bool
is_get get = true
is_get _ = false

abbrev pub needs_token : Endpoint → Bool
needs_token Endpoint.health = false
needs_token Endpoint.login = false
needs_token _ = true

-- Everyone with a token reads everything but the accounts, and downloads nothing.
abbrev pub is_restricted : Endpoint → Bool
is_restricted Endpoint.list_users = true
is_restricted Endpoint.app_download_url = true
is_restricted Endpoint.task_download_url = true
is_restricted _ = false

abbrev pub reads : Endpoint → Bool
reads e = is_get (method_of e) && not (is_restricted e)

-- The accounts and the strategies are the administrator's.
abbrev pub is_administrative : Endpoint → Bool
is_administrative Endpoint.list_users = true
is_administrative Endpoint.create_user = true
is_administrative Endpoint.update_user = true
is_administrative Endpoint.update_user_status = true
is_administrative Endpoint.save_current_strategy = true
is_administrative Endpoint.create_strategy = true
is_administrative Endpoint.update_strategy = true
is_administrative Endpoint.delete_strategy = true
is_administrative _ = false

-- An administrator may do all, a developer all but what is administrative, and everyone with a
-- token may read.
abbrev pub may : String → Endpoint → Bool
may role e =
    str_eq role "admin" || ((str_eq role "developer" && not (is_administrative e)) || reads e)

abbrev pub ByToken : Endpoint → Type 0
ByToken e = (guards_of e ≡ jwt_auth ∷ []) × (reads e ≡ true)

abbrev pub ByWriter : Endpoint → Type 0
ByWriter e =
    (guards_of e ≡ jwt_auth ∷ write_roles ∷ []) × (reads e ≡ false) × (is_administrative e ≡ false)

abbrev pub ByAdmin : Endpoint → Type 0
ByAdmin e =
    (guards_of e ≡ jwt_auth ∷ admin_only ∷ []) × (reads e ≡ false) × (is_administrative e ≡ true)

pub classified : (e : Endpoint) → needs_token e ≡ true → ByToken e ⊎ (ByWriter e ⊎ ByAdmin e)
classified Endpoint.health h = cc (h)
classified Endpoint.login h = cc (h)
classified Endpoint.me h = inl (refl, refl)
classified Endpoint.upload_app h = inr (inl (refl, refl, refl))
classified Endpoint.list_apps h = inl (refl, refl)
classified Endpoint.get_app h = inl (refl, refl)
classified Endpoint.app_history h = inl (refl, refl)
classified Endpoint.delete_app h = inr (inl (refl, refl, refl))
classified Endpoint.app_download_url h = inr (inl (refl, refl, refl))
classified Endpoint.list_users h = inr (inr (refl, refl, refl))
classified Endpoint.create_user h = inr (inr (refl, refl, refl))
classified Endpoint.update_user h = inr (inr (refl, refl, refl))
classified Endpoint.update_user_status h = inr (inr (refl, refl, refl))
classified Endpoint.templates h = inl (refl, refl)
classified Endpoint.current_strategy h = inl (refl, refl)
classified Endpoint.save_current_strategy h = inr (inr (refl, refl, refl))
classified Endpoint.list_strategies h = inl (refl, refl)
classified Endpoint.create_strategy h = inr (inr (refl, refl, refl))
classified Endpoint.get_strategy h = inl (refl, refl)
classified Endpoint.update_strategy h = inr (inr (refl, refl, refl))
classified Endpoint.delete_strategy h = inr (inr (refl, refl, refl))
classified Endpoint.create_task h = inr (inl (refl, refl, refl))
classified Endpoint.list_tasks h = inl (refl, refl)
classified Endpoint.overview h = inl (refl, refl)
classified Endpoint.get_task h = inl (refl, refl)
classified Endpoint.task_logs h = inl (refl, refl)
classified Endpoint.task_report h = inl (refl, refl)
classified Endpoint.task_download_url h = inr (inl (refl, refl, refl))
classified Endpoint.audit_logs h = inl (refl, refl)
classified Endpoint.api_logs h = inl (refl, refl)

-- A role that is read from a text is that text.
pub role_text-role_of : (text : String) → role_text (role_of text) ≡ text
role_text-role_of text = at_admin (Bool-cases (str_eq text "admin"))
  where
    at_auditor :
        str_eq text "admin" ≡ false
        → str_eq text "developer" ≡ false
        → (str_eq text "auditor" ≡ true) ⊎ (str_eq text "auditor" ≡ false)
        → role_text (role_of text) ≡ text
    at_auditor a d (inl e) = rw (a, d, e) (sym ((eq_iff text "auditor").0 e))
    at_auditor a d (inr n) = rw (a, d, n) refl

    at_developer :
        str_eq text "admin" ≡ false
        → (str_eq text "developer" ≡ true) ⊎ (str_eq text "developer" ≡ false)
        → role_text (role_of text) ≡ text
    at_developer a (inl e) = rw (a, e) (sym ((eq_iff text "developer").0 e))
    at_developer a (inr n) = at_auditor a n (Bool-cases (str_eq text "auditor"))

    at_admin :
        (str_eq text "admin" ≡ true) ⊎ (str_eq text "admin" ≡ false)
        → role_text (role_of text) ≡ text
    at_admin (inl e) = rw e (sym ((eq_iff text "admin").0 e))
    at_admin (inr n) = at_developer n (Bool-cases (str_eq text "developer"))

pub writers_lem :
    (text : String)
    → role_in (role_of text) (admin ∷ developer ∷ [])
      ≡ (str_eq text "admin" || (str_eq text "developer" || false))
writers_lem text = rw (role_text-role_of text) refl

pub admins_lem :
    (text : String) → role_in (role_of text) (admin ∷ []) ≡ (str_eq text "admin" || false)
admins_lem text = rw (role_text-role_of text) refl
