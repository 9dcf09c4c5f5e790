-- ===== src/Device/Pairing.antt =====
-- src/device.rs: a pairing code is exchanged once.
use remarkable_server.Base.{
  ℕ, ◌≡◌, refl, ap, ◌∙◌, Option, none, some, String, text_eq, eq_refl, if_true, if_intro, ltb,
}
use remarkable_server.Base.Result.{Result, ok, err}
use remarkable_server.Base.Table.{Table, delete}
use remarkable_server.Errors.{ServerError, invalid_code}
use remarkable_server.Device.Registry.{
  Db, Device, PendingCode, bump_epoch, announce_revoked, hand_over, register_row, register,
  exchanged, exchange_row, exchange_code, admin_device_id, revoked_owner,
}
use remarkable_server.Device.Changes.{registered}

hand_over-codes :
    (db : Db) (d : String) (rows : Table Device) (o : Option String)
    → (hand_over db d rows o).pending_codes ≡ db.pending_codes
unfolding hand_over announce_revoked bump_epoch
hand_over-codes db d rows none = refl
hand_over-codes db d rows (some owner) = refl

register-codes :
    (db : Db) (d desc user : String) (now : ℕ)
    → (registered db (register db d desc user now)).pending_codes ≡ db.pending_codes
unfolding register register_row
register-codes db d desc user now =
    if_intro
      (λ (r : Result ServerError (Db × ℕ)). (registered db r).pending_codes ≡ db.pending_codes)
      (text_eq d admin_device_id) _ _ (λ _. refl)
      (λ _. hand_over-codes db d _ (revoked_owner (db.devices d) user))

exchanged-codes :
    (db : Db) (user : String) (r : Result ServerError (Db × ℕ))
    → (exchanged db user r).0.pending_codes ≡ (registered db r).pending_codes
exchanged-codes db user (ok (db', epoch)) = refl
exchanged-codes db user (err e) = refl

exchange_row-spent :
    (db : Db) (code d desc : String) (now : ℕ) (o : Option PendingCode)
    → db.pending_codes code ≡ o
    → (exchange_row db code d desc now o).0.pending_codes code ≡ none
unfolding exchange_row
exchange_row-spent db code d desc now none e = e
exchange_row-spent db code d desc now (some row) e =
    let db' : Db = record db { pending_codes = delete code db.pending_codes } in
    let gone : db'.pending_codes code ≡ none =
      if_true (text_eq code code) none (db.pending_codes code) (eq_refl code) in
    if_intro (λ (r : Db × Result ServerError (String × ℕ)). r.0.pending_codes code ≡ none)
      (ltb row.expires_at now) _ _ (λ _. gone)
      (λ _.
        ap (λ (t : Table PendingCode). t code)
          (exchanged-codes db' row.user_id (register db' d desc row.user_id now)
            ∙ register-codes db' d desc row.user_id now)
        ∙ gone)

-- After an exchange of a pairing code, whatever its outcome, the code is unknown: a second
-- exchange, by any device at any time, is refused and changes nothing.
pub exchange_code_once :
    (db : Db) (code d desc d' desc' : String) (now later : ℕ)
    → let spent = (exchange_code db code d desc now).0 in
      exchange_code spent code d' desc' later ≡ (spent, err (invalid_code "Code not found"))
unfolding exchange_code exchange_row
exchange_code_once db code d desc d' desc' now later =
    let spent = (exchange_code db code d desc now).0 in
    ap (exchange_row spent code d' desc' later)
      (exchange_row-spent db code d desc now (db.pending_codes code) refl)
