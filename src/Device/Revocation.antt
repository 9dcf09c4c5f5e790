-- ===== src/Device/Revocation.antt =====
-- src/device.rs: which of the tokens that a registration minted `check_registration` accepts, over
-- every sequence of calls that change the database.
use remarkable_server.Base.{
  ℕ, ◌+◌, ◌<◌, ◌≡◌, ◌≢◌, refl, sym, ap, subst, ◌∙◌, ◌↔◌, inl, inr, Bool, true, false, Option, none,
  some, List, [], ◌∷◌, ◌++◌, arith, eq_iff, eq_refl, String, text_eq, Bool-cases, if_true, if_false,
}
use remarkable_server.Base.Result.{ok, err}
use remarkable_server.Base.Table.{Table, put, delete}
use remarkable_server.Errors.{invalid_token}
use remarkable_server.Device.Registry.{
  Db, Device, epoch_of, bump_epoch, announce_revoked, owns, unregister_row, unregister,
  delete_device, revoked_owner, upsert, register_row, register, hand_over, registered_epoch,
  check_registration, same_epoch, admin_device_id,
}
use remarkable_server.Device.Changes.{
  Change, changes, owner_in, owner_of, some_inj, err_≢_ok, ok_inj, false_≢_true, some_≢_none,
  changes-Token, changes-epoch,
}

same_epoch_iff :
    (o : Option Device) (now epoch : ℕ) (user : String)
    → (same_epoch (registered_epoch o now user) epoch ≡ ok tt)
      ↔ ((owner_in o ≡ some user) × (now ≡ epoch))
same_epoch_iff none now epoch user = ground arith
same_epoch_iff (some row) now epoch user =
    ground (arith, eq_iff row.user_id user, some_inj row.user_id user)

same_epoch-refuses :
    (o : Option ℕ) (epoch : ℕ) → same_epoch o epoch ≢ ok tt → same_epoch o epoch ≡ err invalid_token
same_epoch-refuses none epoch h = refl
same_epoch-refuses (some n) epoch h = ground arith

-- What `check_registration` decides.
pub check_registration_iff :
    (db : Db) (d user : String) (epoch : ℕ)
    → (check_registration db d user epoch ≡ ok tt)
      ↔ ((owner_of db d ≡ some user) × (epoch_of db d ≡ epoch))
unfolding check_registration
check_registration_iff db d user epoch = same_epoch_iff (db.devices d) (epoch_of db d) epoch user

hand_over-devices :
    (db : Db) (d : String) (rows : Table Device) (o : Option String)
    → (hand_over db d rows o).devices ≡ rows
unfolding hand_over announce_revoked bump_epoch
hand_over-devices db d rows none = refl
hand_over-devices db d rows (some owner) = refl

upsert-user :
    (o : Option Device) (desc user : String) (now : ℕ) → (upsert o desc user now).user_id ≡ user
upsert-user none desc user now = refl
upsert-user (some row) desc user now = refl

register-owner :
    (db : Db) (d desc user : String) (now : ℕ) (o : Option Device)
    → owner_of (register_row db d desc user now o) d ≡ some user
unfolding register_row
register-owner db d desc user now o =
    ap (λ (rows : Table Device). owner_in (rows d))
      (hand_over-devices db d (put d (upsert o desc user now) db.devices) (revoked_owner o user))
    ∙ ap owner_in (if_true (text_eq d d) (some (upsert o desc user now)) (db.devices d) (eq_refl d))
    ∙ ap some (upsert-user o desc user now)

abbrev minted : Db → String → String → String → ℕ → Db × ℕ
minted db d desc user now =
    let db' = register_row db d desc user now (db.devices d) in (db', epoch_of db' d)

register-ok :
    (db : Db) (d desc user : String) (now : ℕ) (db' : Db) (epoch : ℕ)
    → register db d desc user now ≡ ok (db', epoch)
    → minted db d desc user now ≡ (db', epoch)
unfolding register
register-ok db d desc user now db' epoch h = elim (Bool-cases (text_eq d admin_device_id)) [
  | inl a ↦ elim (err_≢_ok (sym (if_true (text_eq d admin_device_id) _ _ a) ∙ h)) [ ]
  | inr a ↦ ok_inj (if_false (text_eq d admin_device_id) _ _ a) h
]

register-row :
    (db : Db) (d desc user : String) (now : ℕ) (db' : Db) (epoch : ℕ)
    → register db d desc user now ≡ ok (db', epoch)
    → register_row db d desc user now (db.devices d) ≡ db'
register-row db d desc user now db' epoch h =
    ap (λ (r : Db × ℕ). r.0) (register-ok db d desc user now db' epoch h)

register-Token :
    (db : Db) (d desc user : String) (now : ℕ) (db' : Db) (epoch : ℕ)
    → register db d desc user now ≡ ok (db', epoch)
    → (owner_of db' d ≡ some user) × (epoch_of db' d ≡ epoch)
register-Token db d desc user now db' epoch h =
    let e = register-row db d desc user now db' epoch h in
    (
      subst (λ (b : Db). owner_of b d ≡ some user) e
          (register-owner db d desc user now (db.devices d)),
      ap (λ (b : Db). epoch_of b d) (sym e)
          ∙ ap (λ (r : Db × ℕ). r.1) (register-ok db d desc user now db' epoch h),
    )

-- A registration mints tokens that are accepted while no call has touched the database since.
pub registered_is_accepted :
    (db : Db) (d desc user : String) (now : ℕ) (db' : Db) (epoch : ℕ)
    → register db d desc user now ≡ ok (db', epoch)
    → check_registration db' d user epoch ≡ ok tt
registered_is_accepted db d desc user now db' epoch h =
    (check_registration_iff db' d user epoch).1 (register-Token db d desc user now db' epoch h)

older_refused :
    (db : Db) (after : List Change) (d user : String) (epoch : ℕ)
    → epoch < epoch_of db d
    → check_registration (changes db after) d user epoch ≡ err invalid_token
unfolding check_registration
older_refused db after d user epoch dead =
    let db' = changes db after in
    same_epoch-refuses (registered_epoch (db'.devices d) (epoch_of db' d) user) epoch (λ accepted.
      let now_at = ((check_registration_iff db' d user epoch).0 accepted).1 in
      omega (arith, dead, changes-epoch db after d, now_at))

-- Whatever calls follow a registration, once its tokens are refused they are refused after every
-- further sequence of registrations, pairings and deletions, a new pairing of the same device to
-- the same user included.
pub refused_for_good :
    (db : Db) (d desc user : String) (now : ℕ) (db' : Db) (epoch : ℕ) (before after : List Change)
    → register db d desc user now ≡ ok (db', epoch)
    → check_registration (changes db' before) d user epoch ≢ ok tt
    → check_registration (changes (changes db' before) after) d user epoch ≡ err invalid_token
refused_for_good db d desc user now db' epoch before after h refused =
    let db1 = changes db' before in
    elim (changes-Token db' before d user epoch
      (inr (register-Token db d desc user now db' epoch h))) [
        | inr live ↦ elim (refused ((check_registration_iff db1 d user epoch).1 live)) [ ]
        | inl dead ↦ older_refused db1 after d user epoch dead
      ]

abbrev revoked_row : Db → String → Device → Db
revoked_row db d row =
    announce_revoked (bump_epoch (record db { devices = delete d db.devices }) d) row.user_id d

unregister_row-revokes :
    (db : Db) (d : String) (owner : Option String) (o : Option Device) (user : String) (db' : Db)
    → owner_in o ≡ some user
    → unregister_row db d owner o ≡ (db', true)
    → (epoch_of db' d ≡ epoch_of db d + 1)
      × (db'.announced ≡ db.announced ++ record { user_id = user; device_id = d } ∷ [])
unfolding unregister_row announce_revoked bump_epoch
unregister_row-revokes db d owner none user db' u h = elim (some_≢_none (sym u)) [ ]
unregister_row-revokes db d owner (some row) user db' u h =
    let e : row.user_id ≡ user = (some_inj row.user_id user).0 u in
    elim (Bool-cases (owns owner row.user_id)) [
      | inl o ↦
          let at : revoked_row db d row ≡ db' =
            ap (λ (r : Db × Bool). r.0) (sym (if_true (owns owner row.user_id) _ _ o) ∙ h) in
          subst
            (λ (b : Db).
              (epoch_of b d ≡ epoch_of db d + 1)
              × (b.announced ≡ db.announced ++ record { user_id = user; device_id = d } ∷ []))
            at (rw (eq_refl d) refl, rw e refl)
      | inr o ↦
          elim (false_≢_true
            (ap (λ (r : Db × Bool). r.1) (sym (if_false (owns owner row.user_id) _ _ o) ∙ h))) [ ]
    ]

-- Deleting a device refuses the tokens of it that were accepted, after whatever calls follow, and
-- announces the revocation to the open sessions of the device, once.
pub delete_device_revokes :
    (db : Db) (d user : String) (epoch : ℕ) (owner : Option String) (db' : Db) (after : List Change)
    → check_registration db d user epoch ≡ ok tt
    → delete_device db d owner ≡ (db', true)
    → (check_registration (changes db' after) d user epoch ≡ err invalid_token)
      × (db'.announced ≡ db.announced ++ record { user_id = user; device_id = d } ∷ [])
unfolding unregister
delete_device_revokes db d user epoch owner db' after c h =
    let live = (check_registration_iff db d user epoch).0 c in
    let gone = unregister_row-revokes db d owner (db.devices d) user db' live.0 h in
    (older_refused db' after d user epoch (omega (arith, live.1, gone.0)), gone.1)

register_row-hands_over :
    (db : Db) (d desc user other : String) (now : ℕ) (o : Option Device)
    → owner_in o ≡ some user
    → user ≢ other
    → (epoch_of (register_row db d desc other now o) d ≡ epoch_of db d + 1)
      × ((register_row db d desc other now o).announced
          ≡ db.announced ++ record { user_id = user; device_id = d } ∷ [])
unfolding register_row hand_over announce_revoked bump_epoch
register_row-hands_over db d desc user other now none u n = elim (some_≢_none (sym u)) [ ]
register_row-hands_over db d desc user other now (some row) u n =
    let e : row.user_id ≡ user = (some_inj row.user_id user).0 u in
    let no : text_eq row.user_id other ≡ false = ground (arith, e, n, eq_iff row.user_id other) in
    rw (no, register_row, revoked_owner) (rw (eq_refl d) refl, rw e refl)

-- A device paired to another user is handed over revoked: the tokens of the user before are
-- refused, after whatever calls follow, and the revocation is announced once.
pub hand_over_revokes :
    (db : Db) (d desc user other : String) (now : ℕ) (epoch : ℕ) (db' : Db) (epoch' : ℕ)
    (after : List Change)
    → check_registration db d user epoch ≡ ok tt
    → user ≢ other
    → register db d desc other now ≡ ok (db', epoch')
    → (check_registration (changes db' after) d user epoch ≡ err invalid_token)
      × (db'.announced ≡ db.announced ++ record { user_id = user; device_id = d } ∷ [])
hand_over_revokes db d desc user other now epoch db' epoch' after c n h =
    let live = (check_registration_iff db d user epoch).0 c in
    let over = register_row-hands_over db d desc user other now (db.devices d) live.0 n in
    let e = register-row db d desc other now db' epoch' h in
    (
      older_refused db' after d user epoch
          (subst (λ (b : Db). epoch < epoch_of b d) e (omega (arith, live.1, over.0))),
      subst
          (λ (b : Db). b.announced ≡ db.announced ++ record { user_id = user; device_id = d } ∷ [])
          e over.1,
    )
