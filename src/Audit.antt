-- ===== src/Audit.antt =====
-- utils/audit-sanitizer.ts and middleware/audit-log.ts: what is logged of the requests of administrators.
-- The HMAC, JavaScript's `JSON.stringify` and `toLowerCase`, and the clock are parameters.
pub mod Secrets
pub mod Queue
pub mod Drained
pub mod Recorded
use bukia_hft.Base.{
  ℕ, zero, suc, ◌==◌, String, Bool, true, false, not, ◌||◌, Option, none, some, List, [], ◌∷◌,
  str_eq, if◌then◌else◌,
}
use bukia_hft.Base.Int.{ℤ, pos}
use bukia_hft.Base.Text.{has_text_in, first_chars}
use Prim.Native.String.{◌++◌}
use bukia_hft.Db.{UserRole, admin, super_admin}
use bukia_hft.Auth.{JwtUserPayload}
use bukia_hft.Repositories.User.{includes}
use bukia_hft.Lockout.{or_default}

-- JSON, as Express parses it.
mutual
  pub data Json : Type 0 where
    json_null : Json
    json_bool : Bool → Json
    json_number : ℤ → Json
    json_text : String → Json
    array : Items → Json
    object : Fields → Json

  pub data Items : Type 0 where
    no_item : Items
    item : Json → Items → Items

  pub data Fields : Type 0 where
    no_field : Fields
    field : String → Json → Fields → Fields

pub record Library : Type 0 where
  pub hmac_hex : String → String → String
  pub stringify : Json → String
  pub to_lower : String → String

pub record SanitizeOptions : Type 0 where
  pub deny_list : Option (List String)
  pub hmac_key : Option String
  pub hmac_length : Option ℕ
  pub placeholder : Option String
  pub use_hmac : Option Bool

-- `DEFAULT_DENY`
abbrev pub default_deny : List String
default_deny =
    "password" ∷ "pass" ∷ "pwd" ∷ "token" ∷ "secret" ∷ "refreshToken" ∷ "cardNumber" ∷ "card_number"
    ∷ "cvv" ∷ "otp" ∷ "accountnumber" ∷ "account_number" ∷ "accessToken" ∷ "pin" ∷ []

module _ (l : Library) (options : SanitizeOptions) where
  abbrev pub matches_any : List String → String → Bool
  matches_any [] k = false
  matches_any (d ∷ ds) k =
      str_eq k (l.to_lower d) || (has_text_in (l.to_lower d) k || matches_any ds k)

  unfoldable pub matches_key : String → Bool
  matches_key key = matches_any (or_default options.deny_list default_deny) (l.to_lower key)

module _ (l : Library) (options : SanitizeOptions) (token_secret : String) where
  abbrev pub text_of : Json → String
  text_of (json_text t) = t
  text_of v = l.stringify v

  unfoldable pub hmac_truncate : Json → String → ℕ → String
  hmac_truncate value key length = first_chars length (l.hmac_hex key (text_of value))

  unfoldable pub redact_value : Json → Json
  unfolding hmac_truncate
  redact_value value =
      if or_default options.use_hmac true
      then json_text (
          "[HMAC:"
          ++ hmac_truncate value (or_default options.hmac_key token_secret)
              (or_default options.hmac_length 16)
          ++ "]")
      else json_text (or_default options.placeholder "[REDACTED]")

  unfoldable mutual
    unfolding redact_value matches_key

    pub walk : Json → Json
    walk json_null = json_null
    walk (json_bool b) = json_bool b
    walk (json_number n) = json_number n
    walk (json_text t) = json_text t
    walk (array is) = array (walk_items is)
    walk (object fs) = object (walk_fields fs)

    pub walk_items : Items → Items
    walk_items no_item = no_item
    walk_items (item v is) = item (walk v) (walk_items is)

    pub walk_fields : Fields → Fields
    walk_fields no_field = no_field
    walk_fields (field k v fs) =
        let inner = walk v in
        field k (if matches_key l options k then redact_value v else inner) (walk_fields fs)

-- `sanitizeAudit`
unfoldable pub sanitize_audit : Library → SanitizeOptions → String → Json → Json
unfolding walk
sanitize_audit l options token_secret payload = walk l options token_secret payload

-- The parts of a request that are logged.
pub record AuditRequest : Type 0 where
  pub body : Json
  pub ip : Option String
  pub method : String
  pub params : Json
  pub path : String
  pub query : Json
  pub user : Option JwtUserPayload

pub record AdminAuditLog : Type 0 where
  pub action : String
  pub admin_user_id : ℕ
  pub details : Json
  pub ip_address : Option String
  pub target_user_id : Option Json
  pub timestamp : String

-- A member of an object, and what JavaScript takes for true.
abbrev pub member : String → Fields → Option Json
member k no_field = none
member k (field j v fs) = let rest = member k fs in if str_eq j k then some v else rest

abbrev pub member_of : String → Json → Option Json
member_of k (object fs) = member k fs
member_of k v = none

abbrev pub truthy_json : Json → Bool
truthy_json json_null = false
truthy_json (json_bool b) = b
truthy_json (json_number (pos zero)) = false
truthy_json (json_text t) = not (str_eq t "")
truthy_json v = true

abbrev pub or_else : Option Json → Option Json → Option Json
or_else none d = d
or_else (some v) d = if truthy_json v then some v else d

abbrev pub audit_options : SanitizeOptions
audit_options = record {
  deny_list = none;
  hmac_key = none;
  hmac_length = none;
  placeholder = none;
  use_hmac = some true;
}

-- `auditMiddleware`: the entry that is queued, if there is one. The request goes on in any case.
unfoldable pub audit_middleware :
    Library
    → (token_secret : String) → (timestamp : String) → (action : String) → AuditRequest
    → Option AdminAuditLog
unfolding sanitize_audit
audit_middleware l token_secret timestamp action req = elim req.user [
  | none ↦ none
  | some u ↦
      if includes (admin ∷ super_admin ∷ []) u.role
      then some (record {
        action = action;
        admin_user_id = u.id;
        details = sanitize_audit l audit_options token_secret (
            object (
              field "body" req.body (
                field "method" (json_text req.method)
                  (field "path" (json_text req.path) (field "query" req.query no_field)))));
        ip_address = req.ip;
        target_user_id = or_else (member_of "userId" req.body) (member_of "userId" req.params);
        timestamp = timestamp;
      })
      else none
]
