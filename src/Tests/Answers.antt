-- ===== src/Tests/Answers.antt =====
-- Runs of the guards of requests, of the answers to errors, of the health checks and of the e-mails to a
-- role, and the options of the login's lock.
use bukia_hft.Base.{◌≡◌, refl, false, true, none, some, [], ◌∷◌, length, filter_rows}
use bukia_hft.Db.{admin, user, super_admin}
use bukia_hft.Tx.{duplicate_key, forbidden, not_found, plain, ok, err}
use bukia_hft.Mail.{World, welcome, send}
use bukia_hft.Mail.Broadcast.{send_to_users_by_types, send_all, recipients_of}
use bukia_hft.Repositories.User.{find_by_types}
use bukia_hft.Lockout.{base_config}
use bukia_hft.Auth.{Request, role_guard, mutate_only_auth}
use bukia_hft.Auth.Service.{login_options, login_config, payload_of}
use bukia_hft.Http.{error_handler, status_code, message_of}
use bukia_hft.Health.{registered, health_check, health_status}
use bukia_hft.Example.Tokens.{crypto}
use bukia_hft.Tests.Logins.{bea, users}

-- The configuration of the login's lock is that of its options.
login_configured : base_config login_options ≡ ok login_config
unfolding base_config
login_configured = refl

abbrev reading : Request
reading = record { authorization = none; method = "GET"; user = some (payload_of bea) }

reads_freely : mutate_only_auth crypto reading users ≡ ok reading
unfolding mutate_only_auth
reads_freely = refl

user_is_refused :
    role_guard (admin ∷ []) (λ req. ok req) reading
    ≡ err (forbidden "You do not have permission to access this resource")
unfolding role_guard
user_is_refused = refl

abbrev leading : Request
leading = record reading { user = some (record (payload_of bea) { role = super_admin }) }

super_admin_passes : role_guard (admin ∷ []) (λ req. ok req) leading ≡ ok leading
unfolding role_guard
super_admin_passes = refl

duplicate_answered : (error_handler (λ e. "duplicate key") duplicate_key).status ≡ 500
unfolding error_handler status_code message_of
duplicate_answered = refl

missing_answered :
    error_handler (λ e. "") (not_found "User not found")
    ≡ record { message = "User not found"; status = 404; success = false }
unfolding error_handler status_code message_of
missing_answered = refl

database_down :
    health_status (health_check (registered (ok "PONG") (ok tt) (err (plain "down")))) ≡ 503
unfolding health_status health_check
database_down = refl

abbrev world : World
world = record { db = users; outbox = [] }

users_are_written :
    length
      (send_to_users_by_types
        (λ sent e. true)
        (λ t. t)
        (user ∷ [])
        (welcome "Ada")
        none
        world).1.outbox
    ≡ 1
unfolding send_to_users_by_types send_all recipients_of find_by_types filter_rows send
users_are_written = refl

admins_are_not_written :
    send_to_users_by_types (λ sent e. true) (λ t. t) (admin ∷ []) (welcome "Ada") none world
    ≡ (ok tt, world)
unfolding send_to_users_by_types send_all recipients_of find_by_types filter_rows
admins_are_not_written = refl
