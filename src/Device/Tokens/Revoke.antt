-- ===== src/Device/Tokens/Revoke.antt =====
-- src/device.rs: a tablet that gives up its own token.
use remarkable_server.Base.{
  ◌≡◌, sym, ap, ◌∙◌, Bool, true, false, Option, none, some, String, text_eq, if_true, eq_iff, [],
}
use remarkable_server.Base.Result.{ok}
use remarkable_server.Device.Registry.{Db, Device, unregister, unregister_row}
use remarkable_server.Device.Changes.{owner_in, some_inj, some_≢_none}
use remarkable_server.Device.Revocation.{delete_device_revokes, check_registration_iff}
use remarkable_server.Device.Tokens.{Claims, check_registered, revoke_checked, revoke_device_token}

unregister_row-true :
    (db : Db) (d user : String) (o : Option Device)
    → owner_in o ≡ some user
    → (unregister_row db d (some user) o).1 ≡ true
unfolding unregister_row
unregister_row-true db d user none h = elim (some_≢_none (sym h)) [ ]
unregister_row-true db d user (some row) h =
    let e : text_eq user row.user_id ≡ true =
      (eq_iff user row.user_id).1 (sym ((some_inj row.user_id user).0 h)) in
    ap (λ (r : Db × Bool). r.1) (if_true (text_eq user row.user_id) _ _ e)

abbrev After : Db → Claims → Db
After db c = (unregister db c.device_id (some c.user_id)).0

-- Revoking an accepted device token unregisters its device and says so; revoking it again is
-- answered too, and changes nothing.
pub revoke_device_token_twice :
    (db : Db) (c : Claims)
    → check_registered db c ≡ ok tt
    → (revoke_device_token db (some c) ≡ (After db c, ok true))
      × (revoke_device_token (After db c) (some c) ≡ (After db c, ok false))
unfolding revoke_device_token unregister
revoke_device_token_twice db c h =
    let owner = ((check_registration_iff db c.device_id c.user_id c.epoch).0 h).0 in
    let gone = unregister_row-true db c.device_id c.user_id (db.devices c.device_id) owner in
    let refused =
      (delete_device_revokes db c.device_id c.user_id c.epoch (some c.user_id) (After db c) [] h
        (ap (λ (b : Bool). (After db c, b)) gone)).0 in
    (
      ap (revoke_checked db c) h ∙ ap (λ (b : Bool). (After db c, ok b)) gone,
      ap (revoke_checked (After db c) c) refused,
    )
