-- ===== src/Controllers/Auth.antt =====
-- controllers/auth.controller.ts and routes/auth.routes.ts.
use bukia_hft.Base.{String}
use Prim.Native.String.{◌++◌}
use bukia_hft.Db.{User}
use bukia_hft.Tx.{null_access}
use bukia_hft.Base.{none, some}
use bukia_hft.Redis.{Redis}
use bukia_hft.Repositories.User.{role_name}
use bukia_hft.Auth.Service.{Credentials, refresh_token, logout}
use bukia_hft.Auth.Login.{login_user}
use bukia_hft.Auth.Otp.{get_otp, validate_otp, reset_password}
use bukia_hft.Auth.Register.{RegisterUserRequest, register_user}
use bukia_hft.Controllers.{no_data, tokens_body, Server, Handler, fails, responds, authenticated}
use bukia_hft.Controllers.AdminUser.{on_db}

-- The routes, with what the schemas keep of a body.
pub data AuthCall : Type 0 where
  register : RegisterUserRequest → AuthCall
  login : Credentials → AuthCall
  refresh : (token : String) → AuthCall
  send_otp : (email purpose : String) → AuthCall
  check_otp : (email otp purpose : String) → AuthCall
  change_password : (email new_password : String) → AuthCall
  log_out : AuthCall

module _ (r : Redis) (server : Server r) where
  open server use {crypto, mailer, salt, hashed, otp, show, trim, to_upper, stored_type}

  unfoldable pub logout_user : Handler r server
  unfolding responds logout fails
  logout_user req s = elim req.user [
    | none ↦ fails r server null_access s
    | some payload ↦
        responds r server 200 (λ t. "Logout successful") (λ t. no_data)
          (on_db r (logout payload.id) s)
  ]

  unfoldable pub register_route : RegisterUserRequest → Handler r server
  unfolding responds register_user
  register_route payload req s =
      responds r server 201 (λ (u : User). role_name u.type ++ " register successfully")
        (λ u. no_data) (on_db r (register_user to_upper stored_type hashed payload) s)

  unfoldable pub login_route : Credentials → Handler r server
  unfolding responds login_user
  login_route payload req s =
      responds r server 200 (λ t. "Login Successful") tokens_body
        (login_user r crypto trim payload s)

  unfoldable pub refresh_route : String → Handler r server
  unfolding responds refresh_token
  refresh_route token req s =
      responds r server 200 (λ t. "Access Token Refreshed Sucessfully") tokens_body
        (refresh_token crypto token s.db, s)

  unfoldable pub otp_route : String → String → Handler r server
  unfolding responds get_otp
  otp_route email purpose req s =
      responds r server 200 (λ t. "An OTP has been sent to your email") (λ t. no_data)
        (get_otp r mailer crypto show otp email purpose s)

  unfoldable pub validate_route : String → String → String → Handler r server
  unfolding responds validate_otp
  validate_route email code purpose req s =
      responds r server 200 (λ t. "You have been authenticated successfully") (λ t. no_data)
        (validate_otp r mailer crypto email code purpose s)

  unfoldable pub password_route : String → String → Handler r server
  unfolding responds reset_password
  password_route email new_password req s =
      responds r server 200 (λ t. "Password reset successful") (λ t. no_data)
        (reset_password r mailer crypto salt email new_password s)

  -- The router: a logout alone asks for a token.
  unfoldable pub auth_router : AuthCall → Handler r server
  unfolding authenticated logout_user register_route login_route refresh_route otp_route
      validate_route password_route
  auth_router (register payload) = register_route payload
  auth_router (login payload) = login_route payload
  auth_router (refresh token) = refresh_route token
  auth_router (send_otp email purpose) = otp_route email purpose
  auth_router (check_otp email code purpose) = validate_route email code purpose
  auth_router (change_password email new_password) = password_route email new_password
  auth_router log_out = authenticated r server logout_user
