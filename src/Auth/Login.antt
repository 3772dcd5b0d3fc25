-- ===== src/Auth/Login.antt =====
-- `loginUser` of services/auth.services.ts with its decorators.
use bukia_hft.Base.{String}
use bukia_hft.Tx.{Result}
use bukia_hft.Redis.{Redis, Session}
use bukia_hft.Lockout.{lockout}
use bukia_hft.Auth.{Crypto, is_authorized}
use bukia_hft.Auth.Service.{Credentials, LoginUserResponse, login_config, login_result}

module _ (r : Redis) (c : Crypto) (trim : String → String) where
  unfoldable pub login_user : Credentials → Session r → Result LoginUserResponse × Session r
  unfolding is_authorized lockout login_result
  login_user payload s =
      is_authorized r payload.email
        (λ authorized.
          lockout r login_config "loginUser" trim payload.email
            (λ s'. (login_result c payload authorized s'.db, s')))
        s
