-- ===== src/Controllers.antt =====
-- The controllers (controllers/*.ts) answer by utils/send-json-response.ts, and hand what a service throws to
-- `errorHandler`. A router is the composition of its middleware (routes/*.ts); a request has passed the
-- validation of its route, and the queue of the audit log, which middleware/audit-log.ts adds to, is left out.
pub mod AdminUser
pub mod Auth
pub mod Access
pub mod Sessions
pub mod OwnRow
pub mod Transfer
pub mod Customers
pub mod OpenWallet
use bukia_hft.Base.{⊤, ℕ, String, Bool, Option, List, ◌≡◌}
use bukia_hft.Base.Int.{ℤ}
use bukia_hft.Db.{User, Db, Wallet, UserRole}
use bukia_hft.Mail.{Mailer}
use bukia_hft.Tx.{Error, Result, ok, err}
use bukia_hft.Redis.{Redis, Session}
use bukia_hft.Repositories.User.{UserList}
use bukia_hft.Http.{ErrorResponse, error_handler}
use bukia_hft.Auth.{Crypto, Request, authenticate_jwt, role_guard}
use bukia_hft.Auth.Service.{LoginUserResponse}
use bukia_hft.Admin.{MeResponse}
use bukia_hft.Repositories.Ledger.Statistics.{Joined, EntryPage}
use bukia_hft.Analytics.{UserAnalytics, SystemSummary}

-- What is sent as `data`.
pub data Body : Type 0 where
  no_data : Body
  me_body : MeResponse → Body
  wallets_body : List (Wallet × ℤ) → Body
  users_body : UserList → Body
  password_body : Option String → Body
  tokens_body : LoginUserResponse → Body
  entries_body : EntryPage → Body
  wallet_body : Wallet → Body
  job_body : (id : String) → Body
  analytics_body : UserAnalytics → Body
  summary_body : SystemSummary → Body

-- `sendJsonResponse`
pub record JsonResponse : Type 0 where
  pub body : Body
  pub message : String
  pub status : String
  pub status_code : ℕ

abbrev pub send_json_response : ℕ → String → Body → JsonResponse
send_json_response status_code message body = record {
  body = body;
  message = message;
  status = "success";
  status_code = status_code;
}

pub data Answer : Type 0 where
  json : JsonResponse → Answer
  failure : ErrorResponse → Answer

abbrev pub answer_status : Answer → ℕ
answer_status (json r) = r.status_code
answer_status (failure e) = e.status

-- What the routes take from outside the modelled code.
pub record Server (r : Redis) : Type 0 where
  pub crypto : Crypto
  pub mailer : Mailer
  pub outside : Error → String
  pub salt : String
  pub made_up : String
  pub hashed : String
  pub otp : String
  pub show : ℤ → String
  pub ilike : String → String → Bool
  pub trim : String → String
  pub to_upper : String → String
  pub stored_type : UserRole → UserRole
  pub save_as : ℕ → User → Db → Result (⊤ × Db)
  pub by_created : Option String → List Joined → Result (List Joined)

module _ (r : Redis) (server : Server r) where
  abbrev pub Handler : Type 0
  Handler = Request → Session r → Answer × Session r

  -- `next(err)`
  unfoldable pub fails : {S : Type 0} → Error → S → Answer × S
  unfolding error_handler
  fails e s = (failure (error_handler server.outside e), s)

  -- `try { … sendJsonResponse(…) } catch (err) { next(err) }`
  unfoldable pub responds :
      {S A : Type 0} → ℕ → (A → String) → (A → Body) → Result A × S → Answer × S
  unfolding fails
  responds status message body (ok a, s) =
      (json (send_json_response status (message a) (body a)), s)
  responds status message body (err e, s) = fails e s

  -- `RoleGuard` on a handler
  unfoldable pub for_roles : List UserRole → Handler → Handler
  unfolding role_guard fails
  for_roles allowed_roles handler req s = elim (role_guard allowed_roles ok req) [
    | ok passed ↦ handler passed s
    | err e ↦ fails e s
  ]

  -- `authenticateJWT` before a handler, which works on a state with the tables in it
  unfoldable pub authenticated_by :
      {S : Type 0} → (S → Db) → (Request → S → Answer × S) → Request → S → Answer × S
  unfolding authenticate_jwt fails
  authenticated_by db_of handler req s = elim (authenticate_jwt server.crypto req (db_of s)) [
    | ok passed ↦ handler passed s
    | err e ↦ fails e s
  ]

  unfoldable pub authenticated : Handler → Handler
  unfolding authenticated_by
  authenticated handler = authenticated_by (λ s. s.db) handler
