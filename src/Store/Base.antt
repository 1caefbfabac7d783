-- ===== src/Store/Base.antt =====
-- The tables (`Migrate` of internal/db/db.go), the object store, and what the environment decides.
-- PostgreSQL behind gorm, MinIO, the file system and the clock are not code of the repository:
-- `fault` says which call of them fails, with the text of the error, and `clock` what time it is
-- at each call. `next_id` is the sequence of the primary keys: it is not rolled back.
use beetle_shield_backend.Prelude.{ℕ, suc, Bool, true, false, String, Option, none, some, List}
use beetle_shield_backend.Model.{
  ApiRequestLog, App, AuditLog, HardeningLog, HardeningStep, HardeningTask, Strategy, User,
}

pub data Error : Type 0 where
  -- gorm.ErrRecordNotFound, and an error that wraps it
  record_not_found prior_steps_incomplete : Error
  -- what a call outside the repository reports
  external : String → Error
  -- errors.Join, where both are errors
  joined : Error → Error → Error
  -- fmt.Errorf("persist task completion: %w")
  persist_completion : Error → Error
  -- internal/repository
  active_hardening_task_exists : Error
  -- internal/service: hardening
  hardening_app_not_found hardening_task_not_found hardening_active_task_exists : Error
  hardening_artifact_not_found invalid_hardening_artifact hardening_report_not_ready : Error
  hardening_strategy_not_found : Error
  -- internal/service: strategies
  invalid_dex_level invalid_so_shell invalid_so_strength invalid_sig_policy : Error
  strategy_not_found strategy_name_required strategy_name_exists : Error
  default_strategy_delete : Error
  -- internal/service: users and login
  email_already_exists cannot_disable_self user_not_found invalid_credentials : Error
  user_disabled : Error
  -- internal/service: apps
  unsupported_file_type file_too_large missing_package_info app_not_found : Error
  app_has_active_hardening_task : Error
  check_active_task delete_app_record : Error → Error
  open_uploaded_file create_temp_file write_temp_file seek_temp_file : Error → Error
  upload_to_storage save_app_record : Error → Error
  -- internal/pkg/manifest
  parse_package_info : Error
  -- internal/pkg/jwtutil
  invalid_token : Error
  -- internal/worker
  no_unsigned_artifact empty_unsigned_artifact : Error

-- `errors.Is(err, gorm.ErrRecordNotFound)`
abbrev pub is_record_not_found : Error → Bool
is_record_not_found record_not_found = true
is_record_not_found prior_steps_incomplete = true
is_record_not_found _ = false

pub data Result (A : Type 0) : Type 0 where
  ok : A → Result A
  err : Error → Result A

pub record Db : Type 0 where
  pub users : List User
  pub apps : List App
  pub strategies : List Strategy
  pub tasks : List HardeningTask
  pub steps : List HardeningStep
  pub logs : List HardeningLog
  pub audit_logs : List AuditLog
  pub request_logs : List ApiRequestLog

pub record World : Type 0 where
  pub db : Db
  pub objects : List String
  pub next_id : ℕ
  pub calls : ℕ
  pub fault : ℕ → Option String
  pub clock : ℕ → ℕ

-- A Go function that returns an error: it reads and changes the world.
abbrev pub M : Type 0 → Type 0
M A = World → Result A × World

unfoldable pub pure : {A : Type 0} → A → M A
pure a w = (ok a, w)

unfoldable pub fail : {A : Type 0} → Error → M A
fail e w = (err e, w)

unfoldable pub guard : Bool → Error → M (Unit {0})
guard true e w = (ok tt, w)
guard false e w = (err e, w)

-- One call outside the repository.
unfoldable pub call : {A : Type 0} → (World → A × World) → M A
call f w = elim (w.fault w.calls) [
  | some e ↦ (err (external e), record w { calls = suc w.calls })
  | none ↦ let (a, w') = f w in (ok a, record w' { calls = suc w.calls })
]

unfoldable pub time_now : M ℕ
time_now w = (ok (w.clock w.calls), w)

unfoldable pub or_not_found : {A : Type 0} → Option A → M A
or_not_found none w = (err record_not_found, w)
or_not_found (some a) w = (ok a, w)

-- `if err != nil { ... }` that turns one error into another
unfoldable pub map_error : {A : Type 0} → (Error → Error) → M A → M A
map_error f m w = let (r, w') = m w in elim r [ ok a ↦ (ok a, w') | err e ↦ (err (f e), w') ]

-- `err := m()`: the error as a value
unfoldable pub attempt : {A : Type 0} → M A → M (Result A)
attempt m w = let (r, w') = m w in (ok r, w')

-- Return what an attempt gave.
unfoldable pub from_result : {A : Type 0} → Result A → M A
from_result r w = (r, w)

abbrev pub continue : {A B : Type 0} → (A → M B) → Result A × World → Result B × World
continue f (ok a, w) = f a w
continue f (err e, w) = (err e, w)

infixl 5 ◌>>=◌ ◌>>◌
-- Opening this opens the definitions above.
unfoldable pub ◌>>=◌ : {A B : Type 0} → M A → (A → M B) → M B
unfolding pure fail guard call time_now or_not_found map_error attempt from_result
◌>>=◌ m f w = continue f (m w)

abbrev pub ◌>>◌ : {B : Type 0} → M (Unit {0}) → M B → M B
m >> k = m >>= λ _. k

-- `_ = m()`
unfoldable pub ignore : {A : Type 0} → M A → M (Unit {0})
ignore m w = (ok tt, (m w).1)
