-- ===== src/Router/Requests.antt =====
-- What a whole request does, behind every middleware: its reply, and what it changes beside the
-- row of the request log.
use beetle_shield_backend.Prelude.{
  ◌⊎◌, inl, inr, [], ◌∷◌, ◌++◌, ℕ, suc, ◌≡◌, refl, sym, subst, Bool, true, false, String, Option,
  some, none,
}
use beetle_shield_backend.Model.{ApiRequestLog}
use beetle_shield_backend.RequestLog.{RequestLogEntry, record_request, request_row}
use beetle_shield_backend.Store.{World, Result, ok, err, external, call, ignore, insert_row}
use beetle_shield_backend.Users.Tokens.{Claims}
use beetle_shield_backend.Http.Reply.{Request, Reply, failure}
use beetle_shield_backend.Router.Routes.{Endpoint, is_logged}
use beetle_shield_backend.Router.Policy.{may, needs_token}
use beetle_shield_backend.Router.Handlers.{Deps, Payload, handle}
use beetle_shield_backend.Router.Authorization.{
  IsAuthentic, identified, serve-authorized, serve-unauthenticated,
}
use beetle_shield_backend.Router.Dispatch.{Served, dispatch, fresh, logged_if, route, serve}

-- The request log may have one more row; beside it no table and no object has changed.
abbrev pub IsOnlyLogged : World → World → Type 0
IsOnlyLogged w v =
    (v.db ≡ w.db
      ⊎ ((row : ApiRequestLog) × (v.db
            ≡ record w.db { request_logs = w.db.request_logs ++ (row ∷ []) })))
    × (v.objects ≡ w.objects)

call-IsOnlyLogged :
    {A : Type 0} (f : World → A × World) (w : World)
    → IsOnlyLogged w (f w).1
    → IsOnlyLogged w (call f w).1
unfolding call
call-IsOnlyLogged {A = A} f w h = split (w.fault w.calls)
  where
    split :
        (o : Option String)
        → let r : Result A × World = elim o [
          | some e ↦ (err (external e), record w { calls = suc w.calls })
          | none ↦ let (a, w') = f w in (ok a, record w' { calls = suc w.calls })
        ] in
          IsOnlyLogged w r.1
    split none = h
    split (some e) = (inl refl, refl)

record_request-IsOnlyLogged :
    (entry : RequestLogEntry) (w : World) → IsOnlyLogged w (record_request entry w).1
unfolding record_request ignore insert_row
record_request-IsOnlyLogged entry w =
    call-IsOnlyLogged _ w (inr (request_row entry w.next_id (w.clock w.calls), refl), refl)

module _ (deps : Deps) where
  -- The reply is that, and beside the row of the request log the world is that.
  abbrev pub Answers :
      Reply (Payload deps.Float) → World → Reply (Payload deps.Float) × World → Type 0
  Answers r w (s, v) = (s ≡ r) × IsOnlyLogged w v

  logged-Answers :
      (b : Bool) (e : Endpoint) (start : ℕ) (r : Reply (Payload deps.Float)) (c : Request)
      (w : World)
      → let s = logged_if deps b e start ((r, c), w) in Answers r w (s.0.0, s.1)
  logged-Answers true e start r c w = (refl, record_request-IsOnlyLogged _ w)
  logged-Answers false e start r c w = (refl, (inl refl, refl))

  dispatch-Answers :
      (e : Endpoint) (c d : Request) (w v : World) (r : Reply (Payload deps.Float))
      → serve deps e c w ≡ ((r, d), v)
      → Answers r v (dispatch deps (route e) c w)
  unfolding dispatch
  dispatch-Answers e c d w v r served =
      subst
        (λ (s : Served deps).
          let l = logged_if deps (is_logged e) e (w.clock w.calls) s in Answers r v (l.0.0, l.1))
        (sym served) (logged-Answers (is_logged e) e (w.clock w.calls) r d v)

-- Every route but the login and the health check asks for a token: a request that carries none
-- that is valid now is answered with status 401, and but for its row in the request log no table
-- and no object changes.
pub dispatch-unauthenticated :
    (deps : Deps) (e : Endpoint) (c : Request) (w : World)
    → needs_token e ≡ true
    → ((claims : Claims) → ¬ IsAuthentic deps.parse deps.jwt_secret (fresh c) w claims)
    → (code : ℕ) × (message : String) × Answers deps
        (failure 401 code message)
        w
        (dispatch deps (route e) c w)
dispatch-unauthenticated deps e c w h none_valid =
    let (code, message, served) = serve-unauthenticated deps e c w h none_valid in
    (code, message, dispatch-Answers deps e c (fresh c) w w (failure 401 code message) served)

-- With a token that is valid now, the role in it decides, as the policy says: an administrator may
-- do all, a developer all but to see and change accounts and to change strategies, and every other
-- role only reads. Who may gets the reply of the handler, run with the account and the role of the
-- token, and its changes; who may not is answered with status 403 and changes nothing. The row
-- that the request leaves in the request log comes on top of both.
pub dispatch-authorized :
    (deps : Deps) (e : Endpoint) (c : Request) (w : World) (claims : Claims)
    → needs_token e ≡ true
    → IsAuthentic deps.parse deps.jwt_secret (fresh c) w claims
    → (may claims.role e ≡ true
        → let (r, v) = handle deps e (identified c claims) w in
          Answers deps r v (dispatch deps (route e) c w))
      × (may claims.role e ≡ false
          → Answers deps
              (failure 403 40302 "insufficient permissions")
              w
              (dispatch deps (route e) c w))
dispatch-authorized deps e c w claims h valid =
    let (let_in, kept_out) = serve-authorized deps e c w claims h valid in
    (
      λ allowed. dispatch-Answers deps e c (identified c claims) w _ _ (let_in allowed),
      λ refused. dispatch-Answers deps e c (identified c claims) w w _ (kept_out refused),
    )
