-- ===== src/Device/Resets.antt =====
-- src/passcode.rs, and the table `passcode_resets` of src/device.rs: requests to reset a tablet's
-- passcode, and who may approve or deny them. A handler takes what `caller` said of its headers.
use remarkable_server.Base.{
  ℕ, ◌+◌, ltb, leb, if◌then◌else◌, Bool, true, false, not, ◌&&◌, Option, none, some, List, [], ◌∷◌,
  ◌++◌, String, text_eq, codes,
}
use remarkable_server.Base.Table.{Table, empty_table, put, delete, delete_where}
use remarkable_server.Base.Result.{Result, ok, err, ◌>>=◌}
use remarkable_server.Errors.{ServerError, not_found, forbidden}
pub mod Guards
pub mod Later
pub mod Outcomes

-- A row of `passcode_resets`, under its request id.
pub record Reset : Type 0 where
  pub user_id : String
  pub device_id : String
  pub device_name : String
  pub created : ℕ
  pub expires : ℕ
  pub approved : Bool

-- What the handlers push to the notification channel.
pub data Push : Type 0 where
  passcode_reset_approved : String → String → String → String → Push
  passcode_reset_denied : String → String → Push

pub record Store : Type 0 where
  pub resets : Table Reset
  pub pushed : List Push

abbrev pub empty_store : Store
empty_store = record { resets = empty_table; pushed = [] }

-- The user, device and device description that an accepted token names.
pub record Caller : Type 0 where
  pub user_id : String
  pub device_id : String
  pub device_desc : String

-- `RESET_TTL_HOURS`, in seconds
abbrev pub reset_ttl : ℕ
reset_ttl = 86400

abbrev pub expired_at : ℕ → Reset → Bool
expired_at now row = ltb row.expires now

-- `INSERT OR IGNORE`, and whether it inserted.
abbrev pub insert_or_ignore : Store → Table Reset → String → Reset → Option Reset → Store × Bool
insert_or_ignore st live id reset (some row) = (record st { resets = live }, false)
insert_or_ignore st live id reset none = (record st { resets = put id reset live }, true)

abbrev pub purge : Store → String → ℕ → Table Reset
purge st user now = delete_where (λ _ r. text_eq r.user_id user && expired_at now r) st.resets

unfoldable pub create_passcode_reset : Store → String → Reset → ℕ → Store × Bool
create_passcode_reset st id reset now =
    let live =
      delete_where (λ j r. text_eq id j && expired_at now r) (purge st reset.user_id now) in
    insert_or_ignore st live id reset (live id)

abbrev pub read_row : String → String → ℕ → Option Reset → Result ServerError Reset
read_row id user now none = err (not_found (codes id))
read_row id user now (some row) =
    if not (text_eq row.user_id user)
    then err (not_found (codes id))
    else if expired_at now row
    then err (not_found (codes id))
    else ok row

unfoldable pub read_passcode_reset : Store → String → String → ℕ → Result ServerError Reset
read_passcode_reset st id user now = read_row id user now (st.resets id)

abbrev pub is_caller : Option String → String → Bool
is_caller none device = false
is_caller (some caller) device = text_eq caller device

abbrev pub miss_of : String → Option String → Result ServerError Reset → ServerError
miss_of id caller (err e) = not_found (codes id)
miss_of id caller (ok row) =
    if is_caller caller row.device_id
    then forbidden "a device cannot approve or deny its own passcode reset"
    else not_found (codes id)

unfoldable pub passcode_reset_miss : Store → String → String → Option String → ℕ → ServerError
passcode_reset_miss st id user caller now = miss_of id caller (read_passcode_reset st id user now)

-- `owner.is_some_and(|o| o != user_id)`
abbrev pub is_foreign : Option String → String → Bool
is_foreign none user = false
is_foreign (some owner) user = not (text_eq owner user)

abbrev pub read_back : Store → String → String → ℕ → Store × Result ServerError (String × Reset)
read_back st id user now = (st, read_passcode_reset st id user now >>= λ r. ok (user, r))

-- The guarded `UPDATE`, once the request's user is known.
unfoldable pub approve_row :
    Store
    → String
    → Option String
    → Option String
    → ℕ
    → Option Reset
    → Store × Result ServerError (String × Reset)
approve_row st id owner caller now none = (st, err (not_found (codes id)))
approve_row st id owner caller now (some row) =
    if is_foreign owner row.user_id
    then (st, err (not_found (codes id)))
    else if leb now row.expires && not (is_caller caller row.device_id)
    then read_back (record st { resets = put id (record row { approved = true }) st.resets }) id
        row.user_id now
    else (st, err (passcode_reset_miss st id row.user_id caller now))

unfoldable pub approve_passcode_reset :
    Store → String → Option String → Option String → ℕ → Store × Result ServerError (String × Reset)
unfolding approve_row
approve_passcode_reset st id owner caller now = approve_row st id owner caller now (st.resets id)

abbrev pub purge_expired_passcode_resets : Store → String → ℕ → Store
purge_expired_passcode_resets st user now = record st { resets = purge st user now }

-- The guarded `DELETE`.
unfoldable pub deny_row :
    Store → String → String → String → ℕ → Option Reset → Store × Result ServerError (Unit {0})
deny_row st id user caller now none = (st, err (passcode_reset_miss st id user (some caller) now))
deny_row st id user caller now (some row) =
    if text_eq row.user_id user && not (text_eq caller row.device_id)
    then (record st { resets = delete id st.resets }, ok tt)
    else (st, err (passcode_reset_miss st id user (some caller) now))

unfoldable pub deny_passcode_reset :
    Store → String → String → String → ℕ → Store × Result ServerError (Unit {0})
unfolding deny_row
deny_passcode_reset st id user caller now = deny_row st id user caller now (st.resets id)

-- The request that `create` stores.
abbrev pub new_reset : Caller → ℕ → Reset
new_reset c now = record {
  user_id = c.user_id;
  device_id = c.device_id;
  device_name = if text_eq c.device_desc "" then "reMarkable" else c.device_desc;
  created = now;
  expires = now + reset_ttl;
  approved = false;
}

-- `create`: the status is 201 for a new request, 200 for one that was there.
unfoldable pub create :
    Store → Result ServerError Caller → String → ℕ → Store × Result ServerError (ℕ × Reset)
create st (err e) id now = (st, err e)
create st (ok c) id now =
    let (st', created) = create_passcode_reset st id (new_reset c now) now in
    (st', read_passcode_reset st' id c.user_id now >>= λ r. ok (if created then 201 else 200, r))

-- `get`
unfoldable pub get : Store → Result ServerError Caller → String → ℕ → Result ServerError Reset
get st (err e) id now = err e
get st (ok c) id now = read_passcode_reset st id c.user_id now

-- `approve_and_notify`, after the update.
abbrev pub notify :
    String → Store × Result ServerError (String × Reset) → Store × Result ServerError Reset
notify id (st, err e) = (st, err e)
notify id (st, ok (user, r)) = (
  record st {
    pushed = st.pushed ++ passcode_reset_approved user r.device_id r.device_name id ∷ [];
  },
  ok r,
)

abbrev pub approve_and_notify :
    Store → String → Option Caller → ℕ → Store × Result ServerError Reset
approve_and_notify st id none now = notify id (approve_passcode_reset st id none none now)
approve_and_notify st id (some c) now =
    notify id (approve_passcode_reset st id (some c.user_id) (some c.device_id) now)

-- `approve`, for the administrator.
unfoldable pub approve :
    Store → Result ServerError (Unit {0}) → String → ℕ → Store × Result ServerError Reset
approve st (err e) id now = (st, err e)
approve st (ok _) id now = approve_and_notify st id none now

-- `device_approve`
unfoldable pub device_approve :
    Store → Result ServerError Caller → String → ℕ → Store × Result ServerError Reset
device_approve st (err e) id now = (st, err e)
device_approve st (ok c) id now =
    approve_and_notify (purge_expired_passcode_resets st c.user_id now) id (some c) now

abbrev pub notify_denied :
    String → String → Store × Result ServerError (Unit {0}) → Store × Result ServerError ℕ
notify_denied user id (st, err e) = (st, err e)
notify_denied user id (st, ok _) =
    (record st { pushed = st.pushed ++ passcode_reset_denied user id ∷ [] }, ok 204)

-- `device_deny`
unfoldable pub device_deny :
    Store → Result ServerError Caller → String → ℕ → Store × Result ServerError ℕ
device_deny st (err e) id now = (st, err e)
device_deny st (ok c) id now = notify_denied c.user_id id (
    deny_passcode_reset (purge_expired_passcode_resets st c.user_id now) id c.user_id c.device_id
      now)
