-- ===== src/Example/Tokens.antt =====
-- Tokens that can be read, for the tests: a letter for the role and one for the type, then the id, the
-- version and the end of the token as strokes with a full stop, then the e-mail. A hash is its text
-- behind a `#`.
use bukia_hft.Base.{
  ◌≡◌, refl, ap, sym, ◌∙◌, ℕ, zero, suc, ◌+◌, ◌==◌, ltb, String, Bool, true, false, Option, none,
  some, arith, str_eq, eq_refl, if◌then◌else◌,
}
use Prim.Native.Char.{Char, code}
use text.Mathlib.TextLemmas.{cons≢nil}
use bukia_hft.Db.{UserRole, admin, super_admin, user}
use bukia_hft.Auth.{Crypto, JwtType, access, refresh, JwtUserPayload}
use bukia_hft.Auth.Laws.{CryptoLaws}

abbrev stroke_on : ℕ → String → String
stroke_on zero s = String.◌∷◌ "." s
stroke_on (suc n) s = String.◌∷◌ "I" (stroke_on n s)

abbrev count_off : String → ℕ × String
count_off String.[] = (0, String.[])
count_off (String.◌∷◌ c s) =
    let (n, rest) = count_off s in if code c == b'I' then (suc n, rest) else (0, s)

count_off-stroke_on : (n : ℕ) (s : String) → count_off (stroke_on n s) ≡ (n, s)
count_off-stroke_on zero s = refl
count_off-stroke_on (suc n) s = ap (λ q. (suc q.0, q.1)) (count_off-stroke_on n s)

abbrev role_char : UserRole → Char
role_char admin = "a"
role_char super_admin = "s"
role_char user = "u"

abbrev role_of : Char → UserRole
role_of c = if code c == b'a' then admin else if code c == b's' then super_admin else user

abbrev type_char : JwtType → Char
type_char access = "a"
type_char refresh = "r"

abbrev type_of : Char → JwtType
type_of c = if code c == b'a' then access else refresh

role_of-role_char : (t : UserRole) → role_of (role_char t) ≡ t
role_of-role_char admin = refl
role_of-role_char super_admin = refl
role_of-role_char user = refl

type_of-type_char : (t : JwtType) → type_of (type_char t) ≡ t
type_of-type_char access = refl
type_of-type_char refresh = refl

abbrev print_token : JwtUserPayload → ℕ → String
print_token p end = String.◌∷◌ (role_char p.role) (
    String.◌∷◌ (type_char p.type)
      (stroke_on p.id (stroke_on p.jwt_version (stroke_on end p.email))))

abbrev parse_rest : UserRole → JwtType → String → JwtUserPayload × ℕ
parse_rest role type s =
    let (id, s1) = count_off s in
    let (jwt_version, s2) = count_off s1 in
    let (end, email) = count_off s2 in
    (record { email = email; id = id; jwt_version = jwt_version; role = role; type = type }, end)

abbrev parse_token : String → Option (JwtUserPayload × ℕ)
parse_token String.[] = none
parse_token (String.◌∷◌ c String.[]) = none
parse_token (String.◌∷◌ c (String.◌∷◌ d s)) = some (parse_rest (role_of c) (type_of d) s)

parse_token-print_token :
    (p : JwtUserPayload) (end : ℕ) → parse_token (print_token p end) ≡ some (p, end)
parse_token-print_token p end =
    rw
      (
        count_off-stroke_on p.id (stroke_on p.jwt_version (stroke_on end p.email)),
        count_off-stroke_on p.jwt_version (stroke_on end p.email),
        count_off-stroke_on end p.email,
        role_of-role_char p.role,
        type_of-type_char p.type,
      )
      refl

abbrev in_time : ℕ → Option (JwtUserPayload × ℕ) → Option JwtUserPayload
in_time later none = none
in_time later (some (p, end)) = if ltb later end then some p else none

abbrev pub crypto : Crypto
crypto = record {
  hash_otp = λ otp. String.◌∷◌ "#" otp;
  sign = λ now p expires_in. print_token p (now + expires_in);
  verify = λ later token. in_time later (parse_token token);
  bcrypt_hash = λ salt password. String.◌∷◌ "#" password;
  bcrypt_compare = λ password hash. str_eq hash (String.◌∷◌ "#" password);
  is_email = λ email. true;
  is_jwt = λ token. true;
  access_token_expiry = 5;
  refresh_token_expiry = 9;
  otp_ttl_sec = 600;
}

in_time-print_token :
    (p : JwtUserPayload) (later end : ℕ)
    → in_time later (parse_token (print_token p end)) ≡ (if ltb later end then some p else none)
in_time-print_token p later end = ap (in_time later) (parse_token-print_token p end)

pub crypto-CryptoLaws : CryptoLaws crypto
crypto-CryptoLaws = record {
  verify-sign = λ now later expires_in p after before.
      in_time-print_token p later (now + expires_in) ∙ ground arith;
  verify_sound = λ now later expires_in p q read.
      sound p q (ltb later (now + expires_in))
        (sym (in_time-print_token p later (now + expires_in)) ∙ read);
  sign-IsJwt = λ now expires_in p. refl;
  compare-hash = λ salt password. eq_refl (String.◌∷◌ "#" password);
  bcrypt_hash_filled = λ salt password e. cons≢nil e;
  hash_otp_filled = λ otp e. cons≢nil e;
}
  where
    sound :
        (p q : JwtUserPayload) (b : Bool)
        → ◌≡◌ {A = Option JwtUserPayload} (if b then some p else none) (some q)
        → q ≡ p
    sound p q true e = cc
    sound p q false e = cc
