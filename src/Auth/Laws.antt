-- ===== src/Auth/Laws.antt =====
-- What the documentation of jsonwebtoken and bcrypt says, as far as the service relies on it.
use bukia_hft.Base.{◌≡◌, ◌≢◌, ℕ, ◌≤◌, ◌<◌, ◌+◌, String, true, some}
use bukia_hft.Auth.{Crypto, JwtUserPayload}

pub record CryptoLaws (c : Crypto) : Type 0 where
  -- a token is read until it expires, and never as another payload
  pub verify-sign :
      (now later expires_in : ℕ) (p : JwtUserPayload)
      → now ≤ later
      → later < now + expires_in
      → c.verify later (c.sign now p expires_in) ≡ some p
  pub verify_sound :
      (now later expires_in : ℕ) (p q : JwtUserPayload)
      → c.verify later (c.sign now p expires_in) ≡ some q
      → q ≡ p
  pub sign-IsJwt :
      (now expires_in : ℕ) (p : JwtUserPayload) → c.is_jwt (c.sign now p expires_in) ≡ true
  pub compare-hash :
      (salt password : String) → c.bcrypt_compare password (c.bcrypt_hash salt password) ≡ true
  pub bcrypt_hash_filled : (salt password : String) → c.bcrypt_hash salt password ≢ ""
  pub hash_otp_filled : (otp : String) → c.hash_otp otp ≢ ""
