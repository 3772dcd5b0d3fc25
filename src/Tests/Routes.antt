-- ===== src/Tests/Routes.antt =====
-- The theorems on the routes at concrete inputs: a user and an administrator with their tokens.
use bukia_hft.Base.{◌≡◌, ◌⊎◌, refl, String, true, none, some, [], ◌∷◌, arith, find_row, update_rows}
use Prim.Native.String.{◌++◌}
use bukia_hft.Db.{User, admin}
use bukia_hft.Tx.{duplicate_key, ok, err, null_access}
use bukia_hft.Redis.{Session}
use bukia_hft.Redis.Memory.{memory, empty}
use bukia_hft.Repositories.User.{find_by_id, save_user}
use bukia_hft.Admin.{AdminUserEditBody}
use bukia_hft.Auth.{Request, bearer, authenticate_jwt, authenticate_token, read_token, current_user}
use bukia_hft.Auth.Service.{payload_of, logout}
use bukia_hft.Controllers.{Server, answer_status, responds, authenticated, authenticated_by}
use bukia_hft.Controllers.AdminUser.{deactivate, edit, admin_router}
use bukia_hft.Controllers.Auth.{log_out, refresh, logout_user, auth_router}
use bukia_hft.TransferService.Enqueue.{Api}
use bukia_hft.Example.{platform}
use bukia_hft.Controllers.Customers.{Reports, me, customer_router}
use bukia_hft.Controllers.Transfer.{
  TransferRequest, transfer_router, IsQueued, IsNotQueued, transfer_requests_are_own,
}
use bukia_hft.Controllers.Access.{IsLetThrough, IsTurnedAway, admin_routes_are_guarded}
use bukia_hft.Controllers.Sessions.{logout_ends_session}
use bukia_hft.Controllers.OwnRow.{edit_changes_own_row}
use bukia_hft.Example.Tokens.{crypto}
use bukia_hft.Tests.Logins.{bea, users, token}

abbrev server : Server memory
server = record {
  crypto = crypto;
  mailer = λ sent e. true;
  outside = λ e. "";
  salt = "";
  made_up = "Made-up1";
  hashed = "#";
  otp = "123456";
  show = λ n. "";
  ilike = λ t pattern. true;
  trim = λ t. t;
  to_upper = λ t. t;
  stored_type = λ t. t;
  save_as = λ id u db. err duplicate_key;
  by_created = λ sort js. ok js;
}

abbrev boss : User
boss = record bea { id = 9; email = "boss@example.com"; type = admin }

abbrev staff : Session memory
staff = record { db = record users { users = bea ∷ boss ∷ [] }; store = empty; outbox = [] }

abbrev asks : String → Request
asks token = record { authorization = some (bearer ++ token); method = "POST"; user = none }

abbrev boss_token : String
boss_token = crypto.sign 2 (payload_of boss) 5

admin_routes_are_guarded_example :
    IsLetThrough memory server (deactivate 7) (asks boss_token) staff
    ⊎ IsTurnedAway memory server (deactivate 7) (asks boss_token) staff
admin_routes_are_guarded_example =
    admin_routes_are_guarded memory server (deactivate 7) (asks boss_token) staff

abbrev reports : Reports memory
reports = record {
  platform = platform;
  number_text = λ n. "";
  text_of = λ n. "";
  parse_analytics = λ t. err null_access;
  print_analytics = λ a. "";
  parse_summary = λ t. err null_access;
  print_summary = λ a. "";
  is_valid_currency_code = λ c. true;
  meanwhile = λ s. s;
}

abbrev request : TransferRequest
request = record {
  amount = "IIII";
  from_wallet_id = 1;
  idempotency_key = "k1";
  metadata = none;
  to_wallet_id = 2;
  tx_id = none;
}

logout_ends_session_example :
    let after = (auth_router memory server log_out (asks token) staff).1 in
    let renewal = auth_router memory server (refresh token) (asks "") after in
    let visit = customer_router memory server reports me (asks token) after in
    let api : Api = record { db = after.db; jobs = [] } in
    let order = transfer_router memory server platform (λ jobs. "1") request (asks token) api in
    IsTurnedAway memory server (deactivate 9) (asks token) after
    × ((answer_status visit.0 ≡ 401) × (visit.1 ≡ after))
    × ((answer_status order.0 ≡ 401) × (order.1 ≡ api))
    × (answer_status renewal.0 ≡ 401)
    × (renewal.1 ≡ after)
unfolding auth_router authenticated authenticated_by authenticate_jwt authenticate_token read_token
    current_user logout_user responds logout find_by_id save_user find_row update_rows
logout_ends_session_example =
    logout_ends_session memory server reports platform (λ jobs. "1") token (asks token) (asks token)
      (asks "") (deactivate 9) me request [] staff refl refl refl

abbrev desk : Api
desk = record { db = staff.db; jobs = [] }

transfer_requests_are_own_example :
    IsQueued memory server platform (λ jobs. "1") request (asks token) desk
    ⊎ IsNotQueued memory server platform (λ jobs. "1") request (asks token) desk
transfer_requests_are_own_example =
    transfer_requests_are_own memory server platform (λ jobs. "1") request (asks token) desk

abbrev new_name : AdminUserEditBody
new_name = record { email = none; first_name = some "Grace"; last_name = none; profile_id = none }

edit_changes_own_row_example :
    find_by_id 7 (admin_router memory server (edit 7 new_name) (asks boss_token) staff).1.db
    ≡ find_by_id 7 staff.db
unfolding authenticate_jwt authenticate_token read_token current_user find_by_id find_row
edit_changes_own_row_example =
    edit_changes_own_row memory server 7 7 new_name (asks boss_token)
      (record (asks boss_token) { user = some (payload_of boss) }) (payload_of boss) staff refl refl
      refl (λ e. omega (arith, e))
