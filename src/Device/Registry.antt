-- ===== src/Device/Registry.antt =====
-- src/device.rs: the tables `devices`, `device_token_epochs` and `pending_codes`, and the operations
-- that change them. Times are instants of one clock; `now` is what it says during the call.
use remarkable_server.Base.{
  ℕ, ◌+◌, ◌==◌, ltb, if◌then◌else◌, Bool, true, false, Option, none, some, List, [], ◌∷◌, ◌++◌,
  String, text_eq,
}
use remarkable_server.Base.Table.{Table, empty_table, put, delete, delete_where}
use remarkable_server.Base.Result.{Result, ok, err}
use remarkable_server.Errors.{ServerError, bad_request, invalid_code, invalid_token}

-- `Device`, under its id.
pub record Device : Type 0 where
  pub device_desc : String
  pub registered_at : ℕ
  pub last_refresh : ℕ
  pub user_id : String

pub record PendingCode : Type 0 where
  pub user_id : String
  pub expires_at : ℕ

-- `DeviceRevoked`
pub record DeviceRevoked : Type 0 where
  pub user_id : String
  pub device_id : String

-- The tables, and the revocation events announced so far.
pub record Db : Type 0 where
  pub devices : Table Device
  pub device_token_epochs : Table ℕ
  pub pending_codes : Table PendingCode
  pub announced : List DeviceRevoked

abbrev pub empty_db : Db
empty_db = record {
  devices = empty_table;
  device_token_epochs = empty_table;
  pending_codes = empty_table;
  announced = [];
}

abbrev pub admin_device_id : String
admin_device_id = "admin"

-- `CODE_LIFETIME`, in seconds
abbrev pub code_lifetime : ℕ
code_lifetime = 600

-- `COALESCE((SELECT epoch ..), 0)`
abbrev pub epoch_or : Option ℕ → ℕ
epoch_or none = 0
epoch_or (some n) = n

abbrev pub epoch_of : Db → String → ℕ
epoch_of db d = epoch_or (db.device_token_epochs d)

unfoldable pub bump_epoch : Db → String → Db
bump_epoch db d = record db {
  device_token_epochs = put d (epoch_of db d + 1) db.device_token_epochs;
}

unfoldable pub announce_revoked : Db → String → String → Db
announce_revoked db user d = record db {
  announced = db.announced ++ record { user_id = user; device_id = d } ∷ [];
}

-- `?2 IS NULL OR user_id = ?2`
abbrev pub owns : Option String → String → Bool
owns none user = true
owns (some owner) user = text_eq owner user

-- The row that `unregister` deletes, with the epoch bumped in the same transaction.
unfoldable pub unregister_row : Db → String → Option String → Option Device → Db × Bool
unfolding bump_epoch announce_revoked
unregister_row db d owner none = (db, false)
unregister_row db d owner (some row) =
    if owns owner row.user_id
    then (
      announce_revoked (bump_epoch (record db { devices = delete d db.devices }) d) row.user_id d,
      true,
    )
    else (db, false)

unfoldable pub unregister : Db → String → Option String → Db × Bool
unfolding unregister_row
unregister db d owner = unregister_row db d owner (db.devices d)

abbrev pub delete_device : Db → String → Option String → Db × Bool
delete_device = unregister

-- `prev.filter(|u| u != user_id)`
abbrev pub revoked_owner : Option Device → String → Option String
revoked_owner none user = none
revoked_owner (some row) user = if text_eq row.user_id user then none else some row.user_id

-- `UPSERT_DEVICE`: a row that is there keeps its registration time.
abbrev pub upsert : Option Device → String → String → ℕ → Device
upsert none desc user now = record {
  device_desc = desc;
  registered_at = now;
  last_refresh = now;
  user_id = user;
}
upsert (some row) desc user now = record {
  device_desc = desc;
  registered_at = row.registered_at;
  last_refresh = now;
  user_id = user;
}

-- The rest of the transaction of `register`, and the event after its commit.
unfoldable pub hand_over : Db → String → Table Device → Option String → Db
unfolding bump_epoch announce_revoked
hand_over db d rows none = record db { devices = rows }
hand_over db d rows (some owner) =
    announce_revoked (record (bump_epoch db d) { devices = rows }) owner d

-- The transaction of `register`: another owner's tokens are revoked before the row is handed over.
unfoldable pub register_row : Db → String → String → String → ℕ → Option Device → Db
unfolding hand_over
register_row db d desc user now prev =
    hand_over db d (put d (upsert prev desc user now) db.devices) (revoked_owner prev user)

-- Returns the epoch to mint tokens with.
unfoldable pub register : Db → String → String → String → ℕ → Result ServerError (Db × ℕ)
unfolding register_row
register db d desc user now =
    if text_eq d admin_device_id
    then err (bad_request d)
    else let db' = register_row db d desc user now (db.devices d) in ok (db', epoch_of db' d)

abbrev pub insert_code :
    Db → String → ℕ → String → Table PendingCode → Option PendingCode → Result ServerError Db
insert_code db user now code live (some _) = err (ServerError.database code)
insert_code db user now code live none = ok (record db {
  pending_codes = put code (record { user_id = user; expires_at = now + code_lifetime }) live;
})

-- `code` is what the random generator gave; the primary key refuses one that is pending.
unfoldable pub create_pairing_code : Db → String → ℕ → String → Result ServerError Db
create_pairing_code db user now code =
    let live = delete_where (λ _ c. ltb c.expires_at now) db.pending_codes in
    insert_code db user now code live (live code)

abbrev pub exchanged :
    Db → String → Result ServerError (Db × ℕ) → Db × Result ServerError (String × ℕ)
exchanged db user (err e) = (db, err e)
exchanged db user (ok (db', epoch)) = (db', ok (user, epoch))

-- The database after a call of `exchange_code`, and the user with the epoch to mint tokens with. An
-- expired code is deleted too.
unfoldable pub exchange_row :
    Db → String → String → String → ℕ → Option PendingCode → Db × Result ServerError (String × ℕ)
unfolding register
exchange_row db code d desc now none = (db, err (invalid_code "Code not found"))
exchange_row db code d desc now (some row) =
    let db' = record db { pending_codes = delete code db.pending_codes } in
    if ltb row.expires_at now
    then (db', err (invalid_code "Code expired"))
    else exchanged db' row.user_id (register db' d desc row.user_id now)

unfoldable pub exchange_code :
    Db → String → String → String → ℕ → Db × Result ServerError (String × ℕ)
unfolding exchange_row
exchange_code db code d desc now = exchange_row db code d desc now (db.pending_codes code)

-- What the query of `check_registration` finds: the epoch, if the device is the user's.
abbrev pub registered_epoch : Option Device → ℕ → String → Option ℕ
registered_epoch none epoch user = none
registered_epoch (some row) epoch user = if text_eq row.user_id user then some epoch else none

-- `epoch != Some(token_epoch)`
abbrev pub same_epoch : Option ℕ → ℕ → Result ServerError (Unit {0})
same_epoch none token_epoch = err invalid_token
same_epoch (some epoch) token_epoch = if epoch == token_epoch then ok tt else err invalid_token

unfoldable pub check_registration : Db → String → String → ℕ → Result ServerError (Unit {0})
check_registration db d user token_epoch =
    same_epoch (registered_epoch (db.devices d) (epoch_of db d) user) token_epoch
