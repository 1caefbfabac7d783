-- ===== src/Router/Dispatch.antt =====
-- What a request goes through: CORS, the request log, the guards of its route, and its handler.
-- gin chooses the route, and puts the two keys of the context only where a guard sets them.
use beetle_shield_backend.Prelude.{ℕ, ◌-◌, ◌/◌, Bool, true, false}
use beetle_shield_backend.Store.{World}
use beetle_shield_backend.RequestLog.{RequestLogEntry, record_request}
use beetle_shield_backend.Http.Reply.{Reply, success, failure, Request, status_of}
use beetle_shield_backend.Router.Routes.{
  Endpoint, full_path, method_of, method_text, guards_of, is_logged,
}
use beetle_shield_backend.Router.Guards.{Verdict, passed, stopped, check_guards}
use beetle_shield_backend.Router.Handlers.{Deps, Payload, handle, no_data}

-- A request with the method OPTIONS, or one for a route.
pub data Target : Type 0 where
  preflight : Target
  route : Endpoint → Target

-- A context before any guard.
abbrev pub fresh : Request → Request
fresh c = record c { user_id = 0; role = "" }

module _ (deps : Deps) where
  -- The reply, with the context that the guards left.
  abbrev pub Served : Type 0
  Served = (Reply (Payload deps.Float) × Request) × World

  abbrev pub handle_passed : Endpoint → Verdict × World → Served
  handle_passed e (passed c, w) = let (r, w') = handle deps e c w in ((r, c), w')
  handle_passed e (stopped c status code message, w) = ((failure status code message, c), w)

  unfoldable pub serve : Endpoint → Request → World → Served
  serve e c w = handle_passed e (check_guards deps.parse deps.jwt_secret (guards_of e) (fresh c) w)

  -- The middleware `RequestLog`, behind the handler. Times are in nanoseconds.
  abbrev pub entry_of : Endpoint → ℕ → Served → RequestLogEntry
  entry_of e start ((r, c), w) = record {
    method = method_text (method_of e);
    path = full_path e;
    status = status_of r;
    latency_ms = (w.clock w.calls - start) / 1000000;
    client_ip = c.client_ip;
    actor_user_id = c.user_id;
  }

  abbrev pub logged : Endpoint → ℕ → Served → Served
  logged e start ((r, c), w) = ((r, c), (record_request (entry_of e start ((r, c), w)) w).1)

  abbrev pub logged_if : Bool → Endpoint → ℕ → Served → Served
  logged_if true e start s = logged e start s
  logged_if false e start s = s

  -- `CORS` answers a preflight before any other middleware.
  unfoldable pub dispatch : Target → Request → World → Reply (Payload deps.Float) × World
  dispatch preflight c w = (success 204 no_data, w)
  dispatch (route e) c w =
      let s = logged_if (is_logged e) e (w.clock w.calls) (serve e c w) in (s.0.0, s.1)
