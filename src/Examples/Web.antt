-- ===== src/Examples/Web.antt =====
-- Accounts, apps and routes at concrete inputs: one administrator, a library that signs one token.
use beetle_shield_backend.Prelude.{
  arith, ℕ, ◌≡◌, refl, String, none, List, [], ◌∷◌, map, str_eq, eq_refl, if◌then◌else◌,
}
use beetle_shield_backend.Prelude.Int.{pos}
use beetle_shield_backend.Model.{App, AppStatus, AppTag, User, developer, active}
use beetle_shield_backend.Store.{Db, World, Error, Result, external, ok, err, running}
use beetle_shield_backend.Audit.{record_audit}
use beetle_shield_backend.HardeningRepository.{has_active_task_for_app}
use beetle_shield_backend.Worker.{put_object, delete_object}
use beetle_shield_backend.Apps.Repository.{create_app_row, delete_app_row, find_app_row}
use beetle_shield_backend.Engine.{ext, trim_suffix}
use beetle_shield_backend.Users.Repository.{create_user_row, find_by_email}
use beetle_shield_backend.Users.Tokens.{
  Claims, generate_token, check_password, default_cost, hash_password,
}
use beetle_shield_backend.Users.Service.{CreateUserInput, create_user}
use beetle_shield_backend.Users.Login.{login}
use beetle_shield_backend.Users.Emails.{create_user-taken}
use beetle_shield_backend.Users.Sessions.{IsSession, login-IsSession}
use beetle_shield_backend.Users.Creation.{create_user-login}
use beetle_shield_backend.Users.Seed.{IsSeeded, seed_admin, seed_admin_lem}
use beetle_shield_backend.Apps.Deletion.{
  AppsAndTasks, IsDeleted, delete_app_lem, delete_app-failure,
}
use beetle_shield_backend.Apps.Service.{
  ApkFile, UploadInput, delete_app, upload, delete_found_app_body, parse_apk,
}
use beetle_shield_backend.Apps.Uploads.{IsUploaded, upload_lem}
use beetle_shield_backend.Examples.{app_7, fair, task_1, with_tasks}

-- An account whose stored hash is its password.
abbrev pub ada : User
ada = record {
  id = 1;
  name = "Ada";
  email = "ada@x.io";
  password_hash = "secret-1";
  role = developer;
  department = "";
  status = active;
  last_login_at = none;
  created_at = 0;
  updated_at = 0;
}

abbrev pub with_users : List User → Db
with_users users = record (with_tasks []) { users = users }

abbrev pub same_hash : ℕ → String → ℕ → Result String
same_hash salt password cost = ok password

abbrev pub compare_text : String → String → Result (Unit {0})
compare_text hashed password = if str_eq hashed password then ok tt else err (external "mismatch")

abbrev constant_sign : Claims → String → Result String
constant_sign claims secret = ok "token"

abbrev bob : CreateUserInput
bob = record {
  name = "Bob";
  email = "bob@x.io";
  password = "secret-2";
  role = developer;
  department = "";
  actor_user_id = 1;
  ip = "";
}

logs_in :
    (login constant_sign compare_text "s"
      (pos 24)
      "ada@x.io"
      "secret-1"
      ""
      (fair (with_users (ada ∷ [])))).0
    ≡ ok ("token", ada)
unfolding login running find_by_email check_password generate_token record_audit
logs_in = refl

abbrev bob_account : User
bob_account = record {
  id = 20;
  name = "Bob";
  email = "bob@x.io";
  password_hash = "secret-2";
  role = developer;
  department = "";
  status = active;
  last_login_at = none;
  created_at = 2;
  updated_at = 2;
}

adds_bob : (create_user same_hash "duplicate" bob (fair (with_users (ada ∷ [])))).0 ≡ ok bob_account
unfolding create_user running find_by_email hash_password create_user_row record_audit
adds_bob = refl

accepts :
    (salt : ℕ) (p h : String) → same_hash salt p default_cost ≡ ok h → compare_text h p ≡ ok tt
accepts salt p h e = rw (← value e, eq_refl p) refl
  where
    value : {a b : String} → ok a ≡ ok b → a ≡ b
    value e = cc

fine :
    (n : ℕ)
    → (create_user same_hash "duplicate" bob (fair (with_users (ada ∷ [])))).1.fault n ≡ none
unfolding create_user running find_by_email hash_password create_user_row record_audit
fine n = refl

create_user-login_example :
    (token : String) × ((login constant_sign compare_text "s"
        (pos 24)
        "bob@x.io"
        "secret-2"
        ""
        (create_user same_hash "duplicate" bob (fair (with_users (ada ∷ [])))).1).0
      ≡ ok (token, bob_account))
create_user-login_example =
    create_user-login same_hash compare_text constant_sign "duplicate" "s" (pos 24) bob ""
      (fair (with_users (ada ∷ []))) bob_account accepts (λ claims. ("token", refl)) adds_bob
      (λ n h. fine n)

login-IsSession_example :
    IsSession constant_sign compare_text "s"
      (pos 24)
      (with_users (ada ∷ []))
      "ada@x.io"
      "secret-1"
      ("token", ada)
login-IsSession_example =
    login-IsSession constant_sign compare_text "s" (pos 24) "ada@x.io" "secret-1" ""
      (fair (with_users (ada ∷ []))) ("token", ada) logs_in

create_user-taken_example :
    ((create_user same_hash "duplicate" bob (fair (with_users (bob_account ∷ [])))).1.db.users
      ≡ bob_account ∷ [])
    × ((fair (with_users (bob_account ∷ []))).fault 0 ≡ none
        → (create_user same_hash "duplicate" bob (fair (with_users (bob_account ∷ [])))).0
          ≡ err Error.email_already_exists)
create_user-taken_example =
    create_user-taken same_hash "duplicate" bob (fair (with_users (bob_account ∷ [])))
      (λ z. ground arith)

deletes : (delete_app 7 1 "" (fair (with_tasks []))).0 ≡ ok tt
unfolding delete_app running delete_found_app_body find_app_row record_audit has_active_task_for_app
    delete_app_row
deletes = refl

refuses :
    (delete_app 7 1 "" (fair (with_tasks (task_1 ∷ [])))).0
    ≡ err Error.app_has_active_hardening_task
unfolding delete_app running delete_found_app_body find_app_row record_audit has_active_task_for_app
    delete_app_row
refuses = refl

abbrev apk_upload : UploadInput
apk_upload = record {
  filename = "Foo.APK";
  size = 10;
  content = "bytes";
  tag = AppTag.tool;
  manual_package_name = "com.foo";
  manual_version = "1";
  uploaded_by = 1;
  ip = "";
}

abbrev pub no_reader : String → Result ApkFile
no_reader content = err (external "no manifest")

abbrev pub some_hex : String → String
some_hex content = "0123456789abcdef"

seeds :
    (seed_admin same_hash "duplicate" "ada@x.io" "secret" (fair (with_users (ada ∷ [])))).0 ≡ ok tt
unfolding seed_admin running
seeds = refl

seed_admin_example :
    IsSeeded same_hash "duplicate"
      (ada ∷ [])
      "ada@x.io"
      "secret"
      (seed_admin same_hash "duplicate" "ada@x.io" "secret" (fair (with_users (ada ∷ [])))).1.db
seed_admin_example =
    seed_admin_lem same_hash "duplicate" "ada@x.io" "secret" (fair (with_users (ada ∷ []))) seeds

delete_app_example : IsDeleted (with_tasks []) 7 (delete_app 7 1 "" (fair (with_tasks []))).1.db
delete_app_example = delete_app_lem 7 1 "" (fair (with_tasks [])) deletes

delete_app-failure_example :
    AppsAndTasks
      (app_7 ∷ [])
      (task_1 ∷ [])
      (delete_app 7 1 "" (fair (with_tasks (task_1 ∷ [])))).1.db
delete_app-failure_example =
    delete_app-failure 7 1 "" (fair (with_tasks (task_1 ∷ []))) Error.app_has_active_hardening_task
      refuses

-- The extension is cut off only where it is written in lower case.
abbrev foo : App
foo = record {
  id = 20;
  name = "Foo.APK";
  package_name = "com.foo";
  version = "1";
  tag = AppTag.tool;
  status = AppStatus.unprotected;
  risk_level = none;
  file_size = 10;
  object_key = "com.foo/0123456789ab/Foo.APK";
  md5 = "0123456789abcdef";
  sha256 = "0123456789abcdef";
  uploaded_by = 1;
  created_at = 6;
  updated_at = 6;
}

uploads :
    (upload no_reader some_hex some_hex (pos 4096) apk_upload (fair (with_tasks []))).0 ≡ ok foo
unfolding upload running parse_apk record_audit ext put_object create_app_row trim_suffix
uploads = refl

upload_example :
    IsUploaded no_reader some_hex some_hex
      (pos 4096)
      (app_7 ∷ [])
      apk_upload
      foo
      (upload no_reader some_hex some_hex (pos 4096) apk_upload (fair (with_tasks []))).1.db
upload_example =
    upload_lem no_reader some_hex some_hex (pos 4096) apk_upload (fair (with_tasks [])) foo uploads

-- Two uploads of one file are two apps with one object, and the deletion of the first removes it.
abbrev uploaded_twice : World
uploaded_twice =
    (upload no_reader some_hex some_hex (pos 4096) apk_upload
      (upload no_reader some_hex some_hex (pos 4096) apk_upload (fair (with_tasks []))).1).1

one_object_lost :
    (map (λ (a : App). a.object_key) (delete_app 20 1 "" uploaded_twice).1.db.apps
      ≡ "uploads/wallet.apk" ∷ "com.foo/0123456789ab/Foo.APK" ∷ [])
    × ((delete_app 20 1 "" uploaded_twice).1.objects ≡ [])
unfolding upload running parse_apk delete_app find_app_row record_audit ext put_object
    create_app_row delete_found_app_body has_active_task_for_app delete_app_row delete_object
one_object_lost = (refl, refl)
