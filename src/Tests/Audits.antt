-- ===== src/Tests/Audits.antt =====
-- The theorem on sanitized payloads at a concrete input.
use bukia_hft.Base.{◌≡◌, refl, false, none, some}
use bukia_hft.Base.{str_eq, ℕ, ◌==◌, Bool, Option, List, [], ◌∷◌, arith}
use bukia_hft.Db.{admin}
use bukia_hft.Auth.{JwtUserPayload, access}
use bukia_hft.Jobs.{run_picks}
use bukia_hft.Audit.Queue.{AuditLogs, AuditEvent, visit, work, process_log, run_audit_events}
use bukia_hft.Audit.Drained.{counted}
use bukia_hft.Jobs.Picks.{sum_of}
use bukia_hft.Audit.Recorded.{entries_of, visits_are_recorded}
use bukia_hft.Audit.{
  audit_middleware, AuditRequest, AdminAuditLog, Json, json_null, json_text, object, field,
  no_field, array, item, no_item, Library, SanitizeOptions, redact_value, sanitize_audit,
}
use bukia_hft.Audit.Secrets.{mask, sanitize_hides_denied}

abbrev library : Library
library = record { hmac_hex = λ key t. ""; stringify = λ v. ""; to_lower = λ t. t }

abbrev options : SanitizeOptions
options = record {
  deny_list = none;
  hmac_key = none;
  hmac_length = none;
  placeholder = none;
  use_hmac = some false;
}

abbrev forget : Json → Json
forget v = json_null

abbrev payload : Json
payload = object (
    field "email" (json_text "ada@example.com") (
      field "keys" (array (item (object (field "pin" (json_text "1234") no_field)) no_item))
        no_field))

redacted_alike :
    (v : Json)
    → redact_value library options "key" (forget v) ≡ redact_value library options "key" v
unfolding redact_value
redacted_alike v = refl

sanitize_hides_denied_example :
    sanitize_audit library options "key" (mask library options forget payload)
    ≡ sanitize_audit library options "key" payload
sanitize_hides_denied_example =
    sanitize_hides_denied library options forget "key" redacted_alike payload

abbrev viewer : JwtUserPayload
viewer = record { id = 9; email = "boss@example.com"; jwt_version = 0; role = admin; type = access }

abbrev asked_by : Option JwtUserPayload → AuditRequest
asked_by user = record {
  body = payload;
  ip = none;
  method = "POST";
  params = object no_field;
  path = "/user/7/lock";
  query = object no_field;
  user = user;
}

-- The second request comes when the first entry has had its first attempt.
abbrev visits : List AuditEvent
visits =
    visit (asked_by (some viewer)) "Locked a user account" "t1"
    ∷ work 0
    ∷ visit (asked_by (some viewer)) "Viewed users" "t2"
    ∷ visit (asked_by none) "Logged In" "t3"
    ∷ []

abbrev no_logs : AuditLogs
no_logs = record { waiting = []; stuck = []; state = [] }

-- The database takes an entry at the second attempt.
abbrev takes_second : ℕ → AdminAuditLog → Bool
takes_second left log = left == 3

abbrev places : List ℕ
places = 1 ∷ 0 ∷ 0 ∷ 0 ∷ 0 ∷ 0 ∷ 0 ∷ 0 ∷ 0 ∷ []

-- Whether an entry is of the first request.
abbrev is_lock : AdminAuditLog → Bool
is_lock log = str_eq log.action "Locked a user account"

visits_are_recorded_example :
    let final =
      run_picks
        (process_log takes_second)
        places
        (run_audit_events library "key" takes_second visits no_logs) in
    (final.waiting ≡ [])
    × (final.stuck ≡ [])
    × (counted is_lock final.state ≡ counted is_lock (entries_of library "key" visits))
unfolding run_audit_events audit_middleware sum_of
visits_are_recorded_example =
    visits_are_recorded takes_second library "key" visits places no_logs is_lock
      (λ log. (3, omega arith, refl)) refl (omega arith)
