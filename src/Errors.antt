-- ===== src/Errors.antt =====
-- src/error.rs: the server's errors, and the HTTP status that each becomes. A message that the
-- source formats is carried as the text that it is about.
use remarkable_server.Base.{ℕ, String, Bytes}

-- `enum ServerError`
pub data ServerError : Type 0 where
  missing_header invalid_header : String → ServerError
  checksum_mismatch : String → String → ServerError
  not_found invalid_hash : Bytes → ServerError
  generation_mismatch : ℕ → ServerError
  storage json : String → ServerError
  database : String → ServerError
  unauthorized invalid_token : ServerError
  invalid_code token_error internal email io config forbidden bad_request : String → ServerError
  payload_too_large : String → ServerError

-- The status of `into_response`.
unfoldable pub status : ServerError → ℕ
status (not_found _) = 404
status (missing_header _) = 400
status (invalid_header _) = 400
status (checksum_mismatch _ _) = 400
status (invalid_hash _) = 400
status (generation_mismatch _) = 412
status (storage _) = 500
status (json _) = 400
status (database _) = 500
status unauthorized = 401
status invalid_token = 401
status (invalid_code _) = 400
status (token_error _) = 500
status (internal _) = 500
status (email _) = 500
status (io _) = 500
status (config _) = 400
status (forbidden _) = 403
status (bad_request _) = 400
status (payload_too_large _) = 413
