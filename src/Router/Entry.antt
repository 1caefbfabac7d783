-- ===== src/Router/Entry.antt =====
-- From the login to the routes: what a session opens.
use Prim.Native.Char.{code}
use Prim.Native.String.{◌++◌ as append}
use text.Mathlib.TextLemmas.{nil-append, cons-append}
use beetle_shield_backend.Prelude.{
  ℕ, ◌/◌, Bool, ltb, ◌≡◌, refl, ap, ◌∙◌, true, String, some, ==_refl,
}
use beetle_shield_backend.Prelude.Text.{codes}
use beetle_shield_backend.Prelude.Int.{ℤ, pos, negsuc, gtb_bound}
use beetle_shield_backend.Model.{User}
use beetle_shield_backend.Store.{World, ok}
use beetle_shield_backend.Users.Repository.{role_text}
use beetle_shield_backend.Users.Tokens.{Claims}
use beetle_shield_backend.Users.Login.{login}
use beetle_shield_backend.Users.Sessions.{login-IsSession}
use beetle_shield_backend.Http.Reply.{Request}
use beetle_shield_backend.Router.Authorization.{serve-authorized}
use beetle_shield_backend.Router.Dispatch.{handle_passed, serve}
use beetle_shield_backend.Router.Guards.{behind_prefix, bearer_token, passed}
use beetle_shield_backend.Router.Handlers.{Deps}
use beetle_shield_backend.Router.Policy.{may, needs_token}
use beetle_shield_backend.Router.Routes.{Endpoint}

behind_prefix-append : (p t : String) → behind_prefix (codes p) (append p t) ≡ some t
behind_prefix-append String.[] t = rw (nil-append t) refl
behind_prefix-append (String.◌∷◌ c p) t =
    rw (cons-append c p t) (rw (==_refl (code c)) (behind_prefix-append p t))

bearer_lem : (token : String) → bearer_token (append "Bearer " token) ≡ some token
bearer_lem token = behind_prefix-append "Bearer " token

-- A number of seconds that golang-jwt writes and reads back exactly, as a floating-point number.
abbrev pub is_date : ℤ → Bool
is_date (pos t) = ltb t 9007199254740992
is_date (negsuc t) = ltb t 9007199254740992

abbrev pub AreDates : Claims → Type 0
AreDates claims = (is_date claims.expires_at ≡ true) × (is_date claims.issued_at ≡ true)

-- A session opens the routes of its role: a request that carries the token of a login that
-- succeeded, while the token has not expired, is handed to the handler of every route that the
-- role of the account may use, as a request of that account. The library is relied on to find a
-- token that it signed valid, with its claims, as long as its expiry, a whole second, lies ahead,
-- for dates below 2^53 seconds.
pub login-serve :
    (deps : Deps) (email password ip : String) (w : World) (token : String) (user : User)
    (e : Endpoint) (c : Request) (v : World)
    → ((claims : Claims) (t : String) (now : ℕ)
        → deps.sign claims deps.jwt_secret ≡ ok t
        → AreDates claims
        → gtb_bound claims.expires_at (now / 1000000000) ≡ true
        → deps.parse deps.jwt_secret t now ≡ ok (claims, true))
    → (login deps.sign deps.compare_hash_and_password deps.jwt_secret deps.jwt_expire_hours email
        password ip w).0
      ≡ ok (token, user)
    → c.authorization ≡ append "Bearer " token
    → ((claims : Claims)
        → deps.sign claims deps.jwt_secret ≡ ok token
        → AreDates claims × (gtb_bound claims.expires_at (v.clock v.calls / 1000000000) ≡ true))
    → needs_token e ≡ true
    → may (role_text user.role) e ≡ true
    → serve deps e c v
      ≡ handle_passed deps e
          (passed (record c { user_id = user.id; role = role_text user.role }), v)
login-serve deps email password ip w token user e c v verifies logged_in header lives h allowed =
    let (found, right, on, (claims, signed, id, role, expiry)) =
      login-IsSession deps.sign deps.compare_hash_and_password deps.jwt_secret deps.jwt_expire_hours
        email password ip w (token, user) logged_in in
    let served = serve-authorized deps e c v claims h (
      token,
      ap bearer_token header ∙ bearer_lem token,
      verifies claims token (v.clock v.calls) signed (lives claims signed).0
          (lives claims signed).1,
    ) in
    served.0 (ap (λ r. may r e) role ∙ allowed) ∙ as_account id role
  where
    as_account :
        {a b : ℕ} {s t : String}
        → a ≡ b
        → s ≡ t
        → handle_passed deps e (passed (record c { user_id = a; role = s }), v)
          ≡ handle_passed deps e (passed (record c { user_id = b; role = t }), v)
    as_account p q = rw (p, q) refl
