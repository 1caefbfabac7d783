-- ===== src/Router/Authorization.antt =====
-- Who gets through: a handler runs only behind its guards.
use beetle_shield_backend.Prelude.{
  ℕ, ◌≡◌, ◌≢◌, refl, ap, ◌∙◌, ◌⊎◌, inl, inr, Bool, true, false, ◌&&◌, ◌||◌, not, String, Option,
  none, some, List, [], ◌∷◌, str_eq, if◌then◌else◌, arith,
}
use beetle_shield_backend.Model.{UserRole, admin, developer}
use beetle_shield_backend.Store.{
  World, Result, ok, err, Error, ◌>>=◌, guard, pure, time_now, from_result, invalid_token,
}
use beetle_shield_backend.Users.Tokens.{Claims}
use beetle_shield_backend.Http.Reply.{Request, failure}
use beetle_shield_backend.Router.Routes.{Endpoint, guards_of, jwt_auth, require_role}
use beetle_shield_backend.Router.Guards.{
  Verdict, passed, stopped, bearer_token, check_guard, check_guards, parse_token, role_in, role_of,
}
use beetle_shield_backend.Router.Policy.{
  ByAdmin, ByToken, ByWriter, admins_lem, classified, is_administrative, may, needs_token, reads,
  writers_lem,
}
use beetle_shield_backend.Router.Handlers.{Deps}
use beetle_shield_backend.Router.Dispatch.{fresh, handle_passed, serve}

-- The request with the account and the role of the claims.
abbrev pub identified : Request → Claims → Request
identified c claims = record c { user_id = claims.user_id; role = claims.role }

module _ (parse : String → String → ℕ → Result (Claims × Bool)) (secret : String) where
  -- The header carries a token that the library finds valid now, with these claims.
  abbrev pub IsAuthentic : Request → World → Claims → Type 0
  IsAuthentic c w claims =
      (token : String) × (bearer_token c.authorization ≡ some token)
      × (parse secret token (w.clock w.calls) ≡ ok (claims, true))

  authentic_parses :
      (token : String) (w : World) (claims : Claims)
      → parse secret token (w.clock w.calls) ≡ ok (claims, true)
      → parse_token parse secret token w ≡ (ok claims, w)
  unfolding parse_token ◌>>=◌ time_now from_result guard pure
  authentic_parses token w claims e = rw e refl

  -- A token that no claims are valid for does not parse.
  other_fails :
      (token : String) (w : World)
      → ((claims : Claims) → parse secret token (w.clock w.calls) ≢ ok (claims, true))
      → (e : Error) × (parse_token parse secret token w ≡ (err e, w))
  unfolding parse_token ◌>>=◌ time_now from_result guard pure
  other_fails token w none_valid = split (parse secret token (w.clock w.calls)) refl
    where
      split :
          (r : Result (Claims × Bool))
          → parse secret token (w.clock w.calls) ≡ r
          → (e : Error) × (parse_token parse secret token w ≡ (err e, w))
      split (err e) p = (e, rw p refl)
      split (ok (claims, false)) p = (invalid_token, rw p refl)
      split (ok (claims, true)) p = absurd (none_valid claims p)

  -- The guard lets an authentic request through, with the account and the role of its token.
  jwt_passes :
      (c : Request) (w : World) (claims : Claims)
      → IsAuthentic c w claims
      → check_guard parse secret jwt_auth c w
        ≡ (passed (record c { user_id = claims.user_id; role = claims.role }), w)
  jwt_passes c w claims (token, found, valid) =
      rw (found, authentic_parses token w claims valid) refl

  jwt_stops :
      (c : Request) (w : World)
      → ((claims : Claims) → ¬ IsAuthentic c w claims)
      → (code : ℕ) × (message : String) × (check_guard parse secret jwt_auth c w
          ≡ (stopped c 401 code message, w))
  jwt_stops c w none_valid = split (bearer_token c.authorization) refl
    where
      split :
          (o : Option String)
          → bearer_token c.authorization ≡ o
          → (code : ℕ) × (message : String) × (check_guard parse secret jwt_auth c w
              ≡ (stopped c 401 code message, w))
      split none p = (40100, "missing or invalid authorization header", rw p refl)
      split (some token) p =
          let (e, fails) = other_fails token w (λ claims v. none_valid claims (token, p, v)) in
          (40101, "invalid or expired token", rw (p, fails) refl)

  abbrev decided : Request → World → Bool → Verdict × World
  decided c w b = (if b then passed c else stopped c 403 40302 "insufficient permissions", w)

  -- The last guard decides.
  role_decides :
      (roles : List UserRole) (c : Request) (w : World)
      → check_guards parse secret (require_role roles ∷ []) c w
        ≡ decided c w (role_in (role_of c.role) roles)
  role_decides roles c w = split (role_in (role_of c.role) roles) refl
    where
      split :
          (b : Bool)
          → role_in (role_of c.role) roles ≡ b
          → check_guards parse secret (require_role roles ∷ []) c w
            ≡ decided c w (role_in (role_of c.role) roles)
      split true p = rw p refl
      split false p = rw p refl

  -- With the right role the guards of a route let an authentic request through, and without it
  -- they stop it.
  guards_decide :
      (e : Endpoint) (c : Request) (w : World) (claims : Claims)
      → needs_token e ≡ true
      → IsAuthentic c w claims
      → check_guards parse secret (guards_of e) c w
        ≡ decided (identified c claims) w (may claims.role e)
  guards_decide e c w claims h valid = split (classified e h)
    where
      by_token : (a b r : Bool) → r ≡ true → true ≡ (a || (b || r))
      by_token a b r p = ground arith

      by_writer :
          (a d r i : Bool)
          → r ≡ false
          → i ≡ false
          → (a || (d || false)) ≡ (a || ((d && not i) || r))
      by_writer a d r i p q = ground arith

      by_admin : (a d r i : Bool) → r ≡ false → i ≡ true → (a || false) ≡ (a || ((d && not i) || r))
      by_admin a d r i p q = ground arith

      split :
          ByToken e ⊎ (ByWriter e ⊎ ByAdmin e)
          → check_guards parse secret (guards_of e) c w
            ≡ decided (identified c claims) w (may claims.role e)
      split (inl (gs, r)) =
          rw (gs, jwt_passes c w claims valid)
            (ap (decided (identified c claims) w) (by_token _ _ (reads e) r))
      split (inr (inl (gs, r, i))) =
          rw (gs, jwt_passes c w claims valid)
            (role_decides (admin ∷ developer ∷ []) (identified c claims) w
              ∙ ap (decided (identified c claims) w)
                  (writers_lem claims.role ∙ by_writer _ _ (reads e) (is_administrative e) r i))
      split (inr (inr (gs, r, i))) =
          rw (gs, jwt_passes c w claims valid)
            (role_decides (admin ∷ []) (identified c claims) w
              ∙ ap (decided (identified c claims) w) (
                  admins_lem claims.role
                  ∙ by_admin _ (str_eq claims.role "developer") (reads e) (is_administrative e) r
                      i))

  guards_refuse :
      (e : Endpoint) (c : Request) (w : World)
      → needs_token e ≡ true
      → ((claims : Claims) → ¬ IsAuthentic c w claims)
      → (code : ℕ) × (message : String) × (check_guards parse secret (guards_of e) c w
          ≡ (stopped c 401 code message, w))
  guards_refuse e c w h none_valid =
      let (code, message, stops) = jwt_stops c w none_valid in
      (code, message, split (classified e h) stops)
    where
      split :
          {code : ℕ} {message : String}
          → ByToken e ⊎ (ByWriter e ⊎ ByAdmin e)
          → check_guard parse secret jwt_auth c w ≡ (stopped c 401 code message, w)
          → check_guards parse secret (guards_of e) c w ≡ (stopped c 401 code message, w)
      split (inl (gs, r)) stops = rw (gs, stops) refl
      split (inr (inl (gs, r, i))) stops = rw (gs, stops) refl
      split (inr (inr (gs, r, i))) stops = rw (gs, stops) refl

-- Without a valid token the guards answer, before the request log.
pub serve-unauthenticated :
    (deps : Deps) (e : Endpoint) (c : Request) (w : World)
    → needs_token e ≡ true
    → ((claims : Claims) → ¬ IsAuthentic deps.parse deps.jwt_secret (fresh c) w claims)
    → (code : ℕ) × (message : String) × (serve deps e c w
        ≡ ((failure 401 code message, fresh c), w))
unfolding serve
serve-unauthenticated deps e c w h none_valid =
    let (code, message, stops) =
      guards_refuse deps.parse deps.jwt_secret e (fresh c) w h none_valid in
    (code, message, ap (handle_passed deps e) stops)

-- With a valid token the policy decides, before the request log.
pub serve-authorized :
    (deps : Deps) (e : Endpoint) (c : Request) (w : World) (claims : Claims)
    → needs_token e ≡ true
    → IsAuthentic deps.parse deps.jwt_secret (fresh c) w claims
    → (may claims.role e ≡ true
        → serve deps e c w ≡ handle_passed deps e (passed (identified c claims), w))
      × (may claims.role e ≡ false
          → serve deps e c w
            ≡ ((failure 403 40302 "insufficient permissions", identified c claims), w))
unfolding serve
serve-authorized deps e c w claims h valid =
    let decided = guards_decide deps.parse deps.jwt_secret e (fresh c) w claims h valid in
    (
      λ yes. ap (handle_passed deps e) decided ∙ rw yes refl,
      λ no. ap (handle_passed deps e) decided ∙ rw no refl,
    )
