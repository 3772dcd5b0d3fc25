-- ===== src/Http.antt =====
-- `errorHandler` and `routeNotFound` of middleware/error.ts: the status and the body of the answer to an error. The messages
-- of errors that are raised outside of this repository are a parameter.
use bukia_hft.Base.{ℕ, String, Bool, false, Option, none, some}
use Prim.Native.String.{◌++◌}
use bukia_hft.Tx.{
  Error, permanent, optimistic_lock, plain, bad_request, unauthorized, forbidden, not_found,
  conflict, invalid_input, server_error, rate_limit,
}
use bukia_hft.Lockout.{or_default}

-- The `statusCode` that an error has.
unfoldable pub status_code : Error → Option ℕ
status_code (bad_request m) = some 400
status_code (unauthorized m) = some 401
status_code (forbidden m) = some 403
status_code (not_found m) = some 404
status_code (conflict m) = some 409
status_code (invalid_input m) = some 422
status_code (rate_limit m seconds) = some 429
status_code (server_error m) = some 500
status_code e = none

unfoldable pub message_of : (Error → String) → Error → String
message_of outside (bad_request m) = m
message_of outside (unauthorized m) = m
message_of outside (forbidden m) = m
message_of outside (not_found m) = m
message_of outside (conflict m) = m
message_of outside (invalid_input m) = m
message_of outside (rate_limit m seconds) = m
message_of outside (server_error m) = m
message_of outside (permanent m) = m
message_of outside (optimistic_lock m) = m
message_of outside (plain m) = m
message_of outside e = outside e

pub record ErrorResponse : Type 0 where
  pub message : String
  pub status : ℕ
  pub success : Bool

unfoldable pub error_handler : (Error → String) → Error → ErrorResponse
unfolding status_code message_of
error_handler outside e = record {
  message = message_of outside e;
  status = or_default (status_code e) 500;
  success = false;
}

-- `routeNotFound`, for the address of the request
unfoldable pub route_not_found : String → ErrorResponse
route_not_found original_url = record {
  message = "Route not found: " ++ original_url;
  status = 404;
  success = false;
}
