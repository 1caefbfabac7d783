-- ===== src/Router/Guards.antt =====
-- internal/middleware/auth.go and internal/middleware/rbac.go, with `ParseToken` of
-- internal/pkg/jwtutil. `parse` is golang-jwt's `ParseWithClaims` at a time: the claims, and
-- whether the token is valid.
use Prim.Native.Char.{code}
use beetle_shield_backend.Prelude.{
  ℕ, Bool, false, ◌||◌, String, Option, none, some, List, [], ◌∷◌, ◌==◌, str_eq, if◌then◌else◌,
}
use beetle_shield_backend.Model.{UserRole, admin, developer, auditor, other_role}
use beetle_shield_backend.Store.{
  Result, ok, err, invalid_token, World, M, ◌>>=◌, ◌>>◌, pure, guard, time_now, from_result,
}
use beetle_shield_backend.Prelude.Text.{codes}
use beetle_shield_backend.Users.Repository.{role_text}
use beetle_shield_backend.Users.Tokens.{Claims}
use beetle_shield_backend.Http.Reply.{Request}
use beetle_shield_backend.Router.Routes.{Guard, jwt_auth, require_role}

-- `model.UserRole(text)`
abbrev pub role_of : String → UserRole
role_of text =
    if str_eq text "admin"
    then admin
    else if str_eq text "developer"
    then developer
    else if str_eq text "auditor"
    then auditor
    else other_role text

-- `allowed[role]`: roles are compared as texts.
abbrev pub role_in : UserRole → List UserRole → Bool
role_in role [] = false
role_in role (r ∷ rs) = str_eq (role_text role) (role_text r) || role_in role rs

-- What is left behind a prefix, or nothing if the text does not start with it.
abbrev pub behind_prefix : List ℕ → String → Option String
behind_prefix [] s = some s
behind_prefix (p ∷ ps) String.[] = none
behind_prefix (p ∷ ps) (String.◌∷◌ c s) =
    let rest = behind_prefix ps s in if code c == p then rest else none

-- `strings.HasPrefix(header, "Bearer ")`, and then `TrimPrefix`
abbrev pub bearer_token : String → Option String
bearer_token header = behind_prefix (codes "Bearer ") header

-- The context goes on to the next handler, or the request ends with an error.
pub data Verdict : Type 0 where
  passed : Request → Verdict
  stopped : Request → ℕ → ℕ → String → Verdict

module _ (parse : String → String → ℕ → Result (Claims × Bool)) (jwt_secret : String) where
  abbrev pub if_valid : Claims × Bool → M Claims
  if_valid (claims, valid) = do guard valid invalid_token; pure claims

  unfoldable pub parse_token : String → M Claims
  parse_token token = do
    now ← time_now
    parsed ← from_result (parse jwt_secret token now)
    if_valid parsed

  abbrev pub authenticated : Request → Result Claims × World → Verdict × World
  authenticated c (ok claims, w) =
      (passed (record c { user_id = claims.user_id; role = claims.role }), w)
  authenticated c (err e, w) = (stopped c 401 40101 "invalid or expired token", w)

  abbrev pub check_bearer : Request → Option String → World → Verdict × World
  check_bearer c none w = (stopped c 401 40100 "missing or invalid authorization header", w)
  check_bearer c (some token) w = authenticated c (parse_token token w)

  abbrev pub check_guard : Guard → Request → World → Verdict × World
  check_guard jwt_auth c w = check_bearer c (bearer_token c.authorization) w
  check_guard (require_role roles) c w =
      if role_in (role_of c.role) roles
      then (passed c, w)
      else (stopped c 403 40302 "insufficient permissions", w)

  abbrev pub and_then : (Request → World → Verdict × World) → Verdict × World → Verdict × World
  and_then next (passed c, w) = next c w
  and_then next (stopped c status number message, w) = (stopped c status number message, w)

  abbrev pub check_guards : List Guard → Request → World → Verdict × World
  check_guards [] c w = (passed c, w)
  check_guards (g ∷ gs) c w = and_then (check_guards gs) (check_guard g c w)
