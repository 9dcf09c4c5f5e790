-- ===== src/Device/Tokens.antt =====
-- src/device.rs: what a token opens. Decoding a JSON web token is a parameter, `none` where its
-- signature or its claims are refused, and so is signing one; `bearer` is what `strip_prefix` leaves
-- of an authorization header.
use remarkable_server.Base.{
  ℕ, if◌then◌else◌, Bool, true, false, not, Option, none, some, String, text_eq,
}
use remarkable_server.Base.Table.{put}
use remarkable_server.Base.Result.{Result, ok, err, ok_or, ◌>>=◌, ◌>>◌}
use remarkable_server.Errors.{ServerError, invalid_token, unauthorized}
use remarkable_server.Device.Registry.{Db, Device, check_registration, unregister, admin_device_id}
pub mod Sessions
pub mod Revoke

-- The claims that the code reads, of a device token and of a user token.
pub record Claims : Type 0 where
  pub device_id : String
  pub device_desc : String
  pub user_id : String
  pub epoch : ℕ

-- `SessionIdentity`
pub record SessionIdentity : Type 0 where
  pub user_id : String
  pub device_id : String
  pub device_desc : String
  pub epoch : ℕ

abbrev pub identity : Claims → SessionIdentity
identity c = record {
  user_id = c.user_id;
  device_id = c.device_id;
  device_desc = c.device_desc;
  epoch = c.epoch;
}

abbrev pub check_registered : Db → Claims → Result ServerError (Unit {0})
check_registered db c = check_registration db c.device_id c.user_id c.epoch

-- The claims, if the device they name is registered.
abbrev pub if_registered : Db → Claims → Result ServerError Claims
if_registered db c = check_registered db c >> ok c

-- `decode_device_token`, of what the signature check gave.
unfoldable pub decode_device_token : Db → Option Claims → Result ServerError Claims
decode_device_token db opened = ok_or invalid_token opened >>= if_registered db

abbrev pub user_claims : Db → Claims → Result ServerError Claims
user_claims db c = if text_eq c.device_id admin_device_id then ok c else if_registered db c

unfoldable pub decode_user_token : Db → Option Claims → Result ServerError Claims
decode_user_token db opened = ok_or invalid_token opened >>= user_claims db

abbrev pub or_user :
    Result ServerError Claims → Result ServerError Claims → Result ServerError SessionIdentity
or_user (ok c) as_user = ok (identity c)
or_user (err e) as_user = as_user >>= λ c. ok (identity c)

module _ (open_device open_user : String → Option Claims) where
  unfoldable pub session_identity : Db → Option String → Result ServerError SessionIdentity
  session_identity db none = err unauthorized
  session_identity db (some token) =
      or_user (decode_device_token db (open_device token)) (decode_user_token db (open_user token))

-- The answer for a session that is not the administrator's; a failing database would keep it open.
abbrev pub still_valid : Result ServerError (Unit {0}) → Bool
still_valid (ok _) = true
still_valid (err invalid_token) = false
still_valid (err e) = true

unfoldable pub session_still_valid : Db → SessionIdentity → Bool
session_still_valid db s =
    if text_eq s.device_id admin_device_id
    then true
    else still_valid (check_registration db s.device_id s.user_id s.epoch)

-- `revoke_device_token`, of what the signature check gave.
abbrev pub revoke_checked :
    Db → Claims → Result ServerError (Unit {0}) → Db × Result ServerError Bool
revoke_checked db c (err invalid_token) = (db, ok false)
revoke_checked db c (err e) = (db, err e)
revoke_checked db c (ok _) = let r = unregister db c.device_id (some c.user_id) in (r.0, ok r.1)

unfoldable pub revoke_device_token : Db → Option Claims → Db × Result ServerError Bool
revoke_device_token db none = (db, err invalid_token)
revoke_device_token db (some c) = revoke_checked db c (check_registered db c)

-- `UPDATE devices SET last_refresh`
abbrev pub touched : Db → Claims → ℕ → Option Device → Db
touched db c now none = db
touched db c now (some row) =
    if text_eq row.user_id c.user_id
    then record db { devices = put c.device_id (record row { last_refresh = now }) db.devices }
    else db

abbrev pub touch_checked :
    Db → Claims → ℕ → Result ServerError (Unit {0}) → Db × Result ServerError Claims
touch_checked db c now (err e) = (db, err e)
touch_checked db c now (ok _) = (touched db c now (db.devices c.device_id), ok c)

unfoldable pub touch_device_token : Db → Option Claims → ℕ → Db × Result ServerError Claims
touch_device_token db none now = (db, err invalid_token)
touch_device_token db (some c) now = touch_checked db c now (check_registered db c)

-- `refresh_user_token`; `sign_user` signs a user token with the claims.
unfoldable pub refresh_user_token :
    (Claims → Result ServerError String) → Db → Option Claims → ℕ → Db × Result ServerError String
refresh_user_token sign_user db opened now =
    let r = touch_device_token db opened now in (r.0, r.1 >>= sign_user)
