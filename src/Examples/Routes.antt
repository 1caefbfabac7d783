-- ===== src/Examples/Routes.antt =====
-- Requests, replies and the overview at concrete inputs: a library that signs the one token which
-- the login of Ada asks for.
use beetle_shield_backend.Prelude.{
  ℕ, ◌≡◌, ◌/◌, ◌%◌, refl, sym, ap, subst, Bool, true, false, ◌&&◌, String, none, [], ◌∷◌, ◌==◌, ltb,
  str_eq, eq_iff, if◌then◌else◌, arith,
}
use beetle_shield_backend.Prelude.Int.{ℤ, pos, negsuc, gtb_bound}
use beetle_shield_backend.Model.{HardeningTaskStatus}
use beetle_shield_backend.Store.{World, Result, external, ok, err, running}
use beetle_shield_backend.Audit.{record_audit}
use beetle_shield_backend.HardeningRepository.{
  count_by_status_since, count_hour, count_status, hourly_counts_since, preload, queue_count,
  recent,
}
use beetle_shield_backend.Apps.Repository.{top_by_risk_level}
use beetle_shield_backend.Dashboard.{
  DashboardOverview, average_completed_duration_since, get_overview, overview_of,
}
use beetle_shield_backend.Dashboard.Totals.{AddsUp, created_since, get_overview_lem}
use beetle_shield_backend.Users.Repository.{find_by_email}
use beetle_shield_backend.Users.Tokens.{Claims, check_password, generate_token}
use beetle_shield_backend.Users.Login.{login}
use beetle_shield_backend.Http.Reply.{Request, failure}
use beetle_shield_backend.Router.Authorization.{identified}
use beetle_shield_backend.Router.Requests.{Answers, dispatch-authorized, dispatch-unauthenticated}
use beetle_shield_backend.Router.Dispatch.{dispatch, handle_passed, route, serve}
use beetle_shield_backend.Router.Entry.{AreDates, login-serve}
use beetle_shield_backend.Router.Guards.{passed}
use beetle_shield_backend.Router.Handlers.{Deps, handle}
use beetle_shield_backend.Router.Policy.{may}
use beetle_shield_backend.Router.Routes.{Endpoint}
use beetle_shield_backend.Examples.{app_7, fair, task_1, with_tasks}
use beetle_shield_backend.Examples.Web.{
  ada, compare_text, no_reader, same_hash, some_hex, with_users,
}

-- The claims of the login at the first call.
abbrev known : Claims
known = record { user_id = 1; role = "developer"; expires_at = pos 86400; issued_at = pos 0 }

abbrev is_pos : ℤ → ℕ → Bool
is_pos (pos n) m = n == m
is_pos (negsuc n) m = false

abbrev is_known : Claims → Bool
is_known c =
    (c.user_id == 1 && str_eq c.role "developer")
    && (is_pos c.expires_at 86400 && is_pos c.issued_at 0)

abbrev sign_known : Claims → String → Result String
sign_known claims secret = if is_known claims then ok "token" else err (external "unknown")

-- The one token is valid until it expires.
abbrev parse_known : String → String → ℕ → Result (Claims × Bool)
parse_known secret token now =
    if str_eq token "token" && ltb (now / 1000000000) 86400
    then ok (known, true)
    else err (external "invalid")

abbrev unbound : {A : Type 0} → String → Result A
unbound body = err (external "no body")

abbrev hour_24 : ℕ → ℕ
hour_24 t = t % 24

abbrev deps : Deps
deps = record {
  Float = ℕ;
  float_zero = 0;
  percentage = λ a b. a;
  average_seconds = λ ws. 0;
  round_to_int = pos;
  start_of_day = λ t. 0;
  hour_of = hour_24;
  parse_time = λ text. none;
  to_lower = λ text. text;
  task_no_of = λ t. "T1";
  ilike = λ text pattern. true;
  duplicate_key = "duplicate";
  generate_from_password = same_hash;
  compare_hash_and_password = compare_text;
  sign = sign_known;
  parse = parse_known;
  open_apk = no_reader;
  md5_hex = some_hex;
  sha256_hex = some_hex;
  presigned = λ key. key;
  jwt_secret = "s";
  jwt_expire_hours = pos 24;
  max_upload_size_mb = pos 4096;
  engine_version = "v1";
  default_vmp_rules = "**";
  bind_login = unbound;
  bind_create_user = unbound;
  bind_update_user = unbound;
  bind_user_status = unbound;
  bind_strategy = unbound;
  bind_task = unbound;
}

-- A request with this header.
abbrev request : String → Request
request header = record {
  authorization = header;
  id_param = "7";
  query = λ key. none;
  form = λ key. "";
  file = none;
  body = "";
  client_ip = "::1";
  user_id = 0;
  role = "";
}

abbrev office : World
office = fair (with_users (ada ∷ []))

dispatch-unauthenticated_example :
    (code : ℕ) × (message : String) × Answers deps
      (failure 401 code message)
      office
      (dispatch deps (route Endpoint.create_task) (request "") office)
dispatch-unauthenticated_example =
    dispatch-unauthenticated deps Endpoint.create_task (request "") office refl
      (λ claims p. cc (p.1))

dispatch-authorized_example :
    (may "developer" Endpoint.create_user ≡ true
      → let (r, v) =
          handle deps Endpoint.create_user (identified (request "Bearer token") known) office in
        Answers deps r v
          (dispatch deps (route Endpoint.create_user) (request "Bearer token") office))
    × (may "developer" Endpoint.create_user ≡ false
        → Answers deps
            (failure 403 40302 "insufficient permissions")
            office
            (dispatch deps (route Endpoint.create_user) (request "Bearer token") office))
dispatch-authorized_example =
    dispatch-authorized deps Endpoint.create_user (request "Bearer token") office known refl
      ("token", refl, refl)

is_pos-eq : (x : ℤ) (m : ℕ) → is_pos x m ≡ true → pos m ≡ x
is_pos-eq (pos n) m e = ap pos (ground (arith, e))
is_pos-eq (negsuc n) m e = cc (e)

both : {a b : Bool} → (a && b) ≡ true → (a ≡ true) × (b ≡ true)
both {a = true} e = (refl, e)
both {a = false} e = cc (e)

same_number : (n : ℕ) → (n == 1) ≡ true → 1 ≡ n
same_number n e = ground arith

-- The library signs no other claims.
known_only : (c : Claims) → is_known c ≡ true → known ≡ c
known_only c e =
    let (front, back) = both e in
    let (id, role) = both front in
    let (expiry, issue) = both back in
    assemble (same_number c.user_id id) (sym ((eq_iff c.role "developer").0 role))
      (is_pos-eq _ _ expiry) (is_pos-eq _ _ issue)
  where
    assemble :
        1 ≡ c.user_id
        → "developer" ≡ c.role
        → pos 86400 ≡ c.expires_at
        → pos 0 ≡ c.issued_at
        → known ≡ c
    assemble p q r s = λ i. record { user_id = p i; role = q i; expires_at = r i; issued_at = s i }

signs_known :
    (c : Claims) (secret t : String) → sign_known c secret ≡ ok t → (known ≡ c) × (t ≡ "token")
signs_known c secret t e = split (is_known c) refl e
  where
    split :
        (b : Bool)
        → is_known c ≡ b
        → (if b then ok "token" else err (external "unknown")) ≡ ok t
        → (known ≡ c) × (t ≡ "token")
    split true p e = (known_only c p, cc (e))
    split false p e = cc (e)

verifies :
    (claims : Claims) (t : String) (now : ℕ)
    → sign_known claims "s" ≡ ok t
    → AreDates claims
    → gtb_bound claims.expires_at (now / 1000000000) ≡ true
    → parse_known "s" t now ≡ ok (claims, true)
verifies claims t now e dates lives =
    let (same, token) = signs_known claims "s" t e in
    rw
      (
        token,
        subst (λ (c : Claims). gtb_bound c.expires_at (now / 1000000000) ≡ true) (sym same) lives,
      )
      (ap (λ c. ok (c, true)) same)

lives :
    (claims : Claims)
    → sign_known claims "s" ≡ ok "token"
    → AreDates claims × (gtb_bound claims.expires_at (0 / 1000000000) ≡ true)
lives claims e =
    subst (λ (c : Claims). AreDates c × (gtb_bound c.expires_at (0 / 1000000000) ≡ true))
      (signs_known claims "s" "token" e).0 ((refl, refl), refl)

logs_in :
    (login sign_known compare_text "s" (pos 24) "ada@x.io" "secret-1" "" office).0
    ≡ ok ("token", ada)
unfolding login running find_by_email check_password generate_token record_audit
logs_in = refl

login-serve_example :
    serve deps Endpoint.create_task (request "Bearer token") office
    ≡ handle_passed deps Endpoint.create_task
        (passed (record (request "Bearer token") { user_id = 1; role = "developer" }), office)
login-serve_example =
    login-serve deps "ada@x.io" "secret-1" "" office "token" ada Endpoint.create_task
      (request "Bearer token") office verifies logs_in refl lives refl refl

abbrev workshop : World
workshop = fair (with_tasks (task_1 ∷ []))

abbrev shown : DashboardOverview ℕ
shown =
    overview_of ℕ 0 (λ a b. a) (λ ws. 0) pos (λ t. 0) hour_24 "v1"
      (count_status (HardeningTaskStatus.running ∷ [])) (count_hour hour_24 (0 ∷ [])) none 1
      (record { task = task_1; app = app_7 } ∷ []) []

gives : (get_overview ℕ 0 (λ a b. a) (λ ws. 0) pos (λ t. 0) hour_24 "v1" workshop).0 ≡ ok shown
unfolding get_overview running count_by_status_since hourly_counts_since
    average_completed_duration_since queue_count recent preload top_by_risk_level
gives = refl

get_overview_example :
    AddsUp ℕ 0
      (λ a b. a)
      (λ ws. 0)
      pos
      (λ t. 0)
      hour_24
      "v1"
      (created_since 0 (with_tasks (task_1 ∷ [])))
      shown
get_overview_example =
    get_overview_lem ℕ 0 (λ a b. a) (λ ws. 0) pos (λ t. 0) hour_24 "v1" workshop shown
      (λ t. omega arith) gives
