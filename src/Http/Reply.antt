-- ===== src/Http/Reply.antt =====
-- internal/pkg/response/response.go, what a request brings, and how a handler turns the outcome of
-- a service into a reply.
use beetle_shield_backend.Prelude.{ℕ, String, Option, none, some}
use beetle_shield_backend.Store.{Error, ok, err, World, M}

-- The status and the body `{code, message, data}`; a success has the code 0.
pub data Reply (A : Type 0) : Type 0 where
  success : ℕ → A → Reply A
  failure : ℕ → ℕ → String → Reply A

abbrev pub status_of : {A : Type 0} → Reply A → ℕ
status_of (success status a) = status
status_of (failure status code message) = status

abbrev pub code_of : {A : Type 0} → Reply A → ℕ
code_of (success status a) = 0
code_of (failure status code message) = code

-- A handler always replies.
abbrev pub Handler : Type 0 → Type 0
Handler A = World → Reply A × World

abbrev pub reply : {A : Type 0} → Reply A → Handler A
reply r w = (r, w)

-- The service, and then `if err != nil { ... }` or success with status 200.
unfoldable pub respond : {A B : Type 0} → (Error → Reply B) → (A → B) → M A → Handler B
respond on_error on_success m w =
    let (r, w') = m w in
    elim r [ ok a ↦ (success 200 (on_success a), w') | err e ↦ (on_error e, w') ]

-- An uploaded file, in a form.
pub record FormFile : Type 0 where
  pub filename : String
  pub size : ℕ
  pub content : String

-- What gin hands to a handler. `user_id` and `role` are set by the middleware.
pub record Request : Type 0 where
  pub authorization : String
  pub id_param : String
  pub query : String → Option String
  pub form : String → String
  pub file : Option FormFile
  pub body : String
  pub client_ip : String
  pub user_id : ℕ
  pub role : String

-- `c.DefaultQuery`
abbrev pub default_query : Request → String → String → String
default_query r key default = elim (r.query key) [ none ↦ default | some text ↦ text ]

-- `c.Query`
abbrev pub query_text : Request → String → String
query_text r key = default_query r key ""
