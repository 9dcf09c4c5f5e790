-- ===== src/Device/Changes.antt =====
-- src/device.rs: what each call that changes the database does to the owner and epoch of a device.
use remarkable_server.Base.{
  ℕ, ◌+◌, ◌<◌, ◌≤◌, ◌≡◌, ◌≢◌, refl, sym, ap, subst, ◌∙◌, ◌⊎◌, ◌↔◌, inl, inr, Bool, true, false,
  Option, none, some, List, [], ◌∷◌, arith, eq_iff, String, text_eq, if_intro, Bool-cases, ltb,
}
use remarkable_server.Base.Result.{Result, ok, err}
use remarkable_server.Base.Table.{Table, delete, delete_where}
use remarkable_server.Errors.{ServerError}
use remarkable_server.Device.Registry.{
  Db, Device, PendingCode, epoch_of, bump_epoch, announce_revoked, owns, unregister_row, unregister,
  revoked_owner, register_row, register, create_pairing_code, insert_code, exchanged, exchange_row,
  exchange_code, admin_device_id,
}

-- A call that changes the database.
pub data Change : Type 0 where
  registering : String → String → String → ℕ → Change
  unregistering : String → Option String → Change
  creating : String → ℕ → String → Change
  exchanging : String → String → String → ℕ → Change

abbrev pub registered : Db → Result ServerError (Db × ℕ) → Db
registered db (ok r) = r.0
registered db (err e) = db

abbrev pub created : Db → Result ServerError Db → Db
created db (ok r) = r
created db (err e) = db

-- The database after the call; a call that fails leaves what its own definition says.
abbrev pub change : Db → Change → Db
change db (registering d desc user now) = registered db (register db d desc user now)
change db (unregistering d owner) = (unregister db d owner).0
change db (creating user now code) = created db (create_pairing_code db user now code)
change db (exchanging code d desc now) = (exchange_code db code d desc now).0

abbrev pub changes : Db → List Change → Db
changes db [] = db
changes db (c ∷ cs) = changes (change db c) cs

abbrev pub owner_in : Option Device → Option String
owner_in none = none
owner_in (some row) = some row.user_id

-- The user a device is registered to.
abbrev pub owner_of : Db → String → Option String
owner_of db d = owner_in (db.devices d)

-- A minted token that is neither revoked nor ahead of the device's epoch.
abbrev Token : Db → String → String → ℕ → Type 0
Token db d user epoch =
    (epoch < epoch_of db d) ⊎ ((owner_of db d ≡ some user) × (epoch_of db d ≡ epoch))

pub some_inj : {A : Type 0} (a b : A) → (some a ≡ some b) ↔ (a ≡ b)
some_inj a b = ((λ h. cc), (λ h. cc))

pub err_≢_ok : {E A : Type 0} {e : E} {a : A} → Result.err e ≢ ok a
err_≢_ok h = cc

pub ok_inj : {E A : Type 0} {a b : A} {r : Result E A} → r ≡ ok a → r ≡ ok b → a ≡ b
ok_inj h k = cc

pub false_≢_true : false ≢ true
false_≢_true h = cc

pub some_≢_none : {A : Type 0} {a : A} → some a ≢ none
some_≢_none h = cc

-- What a call may do to a device: nothing to its owner and epoch, or revoke its tokens, or give
-- it an owner when it had none.
abbrev Moves : Db → Db → String → Type 0
Moves db db' d =
    ((owner_of db' d ≡ owner_of db d) × (epoch_of db' d ≡ epoch_of db d))
    ⊎ ((epoch_of db' d ≡ epoch_of db d + 1)
        ⊎ ((owner_of db d ≡ none) × (epoch_of db' d ≡ epoch_of db d)))

Moves-Token :
    (db db' : Db) (d user : String) (epoch : ℕ)
    → Moves db db' d
    → Token db d user epoch
    → Token db' d user epoch
Moves-Token db db' d user epoch (inl m) (inl t) = inl (omega (arith, m.1, t))
Moves-Token db db' d user epoch (inl m) (inr t) = inr (m.0 ∙ t.0, m.1 ∙ t.1)
Moves-Token db db' d user epoch (inr (inl m)) (inl t) = inl (omega (arith, m, t))
Moves-Token db db' d user epoch (inr (inl m)) (inr t) = inl (omega (arith, m, t.1))
Moves-Token db db' d user epoch (inr (inr m)) (inl t) = inl (omega (arith, m.1, t))
Moves-Token db db' d user epoch (inr (inr m)) (inr t) = elim (some_≢_none (sym t.0 ∙ m.0)) [ ]

epoch_at : (db : Db) (k d : String) → text_eq k d ≡ true → epoch_of db k ≡ epoch_of db d
epoch_at db k d h = ap (epoch_of db) ((eq_iff k d).0 h)

unregister_row-Moves :
    (db : Db) (k : String) (owner : Option String) (o : Option Device) (d : String)
    → Moves db (unregister_row db k owner o).0 d
unfolding unregister_row announce_revoked bump_epoch
unregister_row-Moves db k owner none d = inl (refl, refl)
unregister_row-Moves db k owner (some row) d =
    if_intro (λ (r : Db × Bool). Moves db r.0 d) (owns owner row.user_id) _ _
      (λ _. elim (Bool-cases (text_eq k d)) [
        | inl h ↦ inr (inl (rw h (ap (λ (n : ℕ). n + 1) (epoch_at db k d h))))
        | inr h ↦ inl (rw (h, owner_of, owner_in) refl, rw h refl)
      ])
      (λ _. inl (refl, refl))

register_row-Moves :
    (db : Db) (k desc user : String) (now : ℕ) (d : String) (o : Option Device)
    → db.devices k ≡ o
    → Moves db (register_row db k desc user now o) d
unfolding register_row announce_revoked bump_epoch
register_row-Moves db k desc user now d none e = elim (Bool-cases (text_eq k d)) [
  | inl h ↦
      inr
        (inr (ap owner_in (subst (λ (j : String). db.devices j ≡ none) ((eq_iff k d).0 h) e), refl))
  | inr h ↦ inl (rw (h, owner_of, owner_in) refl, refl)
]
register_row-Moves db k desc user now d (some row) e =
    elim (Bool-cases (text_eq row.user_id user)) [
      | inl s ↦
          rw (s, register_row, revoked_owner)
            (elim (Bool-cases (text_eq k d)) [
              | inl h ↦ inl (
                rw (h, owner_of, owner_in)
                    (sym (
                      ap owner_in
                        (subst (λ (j : String). db.devices j ≡ some row) ((eq_iff k d).0 h) e)
                      ∙ ap some ((eq_iff row.user_id user).0 s))),
                refl,
              )
              | inr h ↦ inl (rw (h, owner_of, owner_in) refl, refl)
            ])
      | inr s ↦
          rw (s, register_row, revoked_owner)
            (elim (Bool-cases (text_eq k d)) [
              | inl h ↦ inr (inl (rw h (ap (λ (n : ℕ). n + 1) (epoch_at db k d h))))
              | inr h ↦ inl (rw (h, owner_of, owner_in) refl, rw h refl)
            ])
    ]

register-Moves :
    (db : Db) (k desc user : String) (now : ℕ) (d : String)
    → Moves db (registered db (register db k desc user now)) d
unfolding register
register-Moves db k desc user now d =
    if_intro (λ (r : Result ServerError (Db × ℕ)). Moves db (registered db r) d)
      (text_eq k admin_device_id) _ _ (λ _. inl (refl, refl))
      (λ _. register_row-Moves db k desc user now d (db.devices k) refl)

exchanged-Moves :
    (db db' : Db) (user : String) (r : Result ServerError (Db × ℕ)) (d : String)
    → Moves db (registered db' r) d
    → Moves db (exchanged db' user r).0 d
exchanged-Moves db db' user (ok (db'', epoch)) d m = m
exchanged-Moves db db' user (err e) d m = m

exchange_row-Moves :
    (db : Db) (code k desc : String) (now : ℕ) (o : Option PendingCode) (d : String)
    → Moves db (exchange_row db code k desc now o).0 d
unfolding exchange_row
exchange_row-Moves db code k desc now none d = inl (refl, refl)
exchange_row-Moves db code k desc now (some row) d =
    let db' : Db = record db { pending_codes = delete code db.pending_codes } in
    if_intro (λ (r : Db × Result ServerError (String × ℕ)). Moves db r.0 d) (ltb row.expires_at now)
      _ _ (λ _. inl (refl, refl))
      (λ _.
        exchanged-Moves db db' row.user_id (register db' k desc row.user_id now) d
          (register-Moves db' k desc row.user_id now d))

insert_code-Moves :
    (db : Db) (user : String) (now : ℕ) (code : String) (live : Table PendingCode)
    (o : Option PendingCode) (d : String)
    → Moves db (created db (insert_code db user now code live o)) d
insert_code-Moves db user now code live none d = inl (refl, refl)
insert_code-Moves db user now code live (some c) d = inl (refl, refl)

create-Moves :
    (db : Db) (user : String) (now : ℕ) (code : String) (d : String)
    → Moves db (created db (create_pairing_code db user now code)) d
unfolding create_pairing_code
create-Moves db user now code d =
    let live : Table PendingCode = delete_where (λ _ c. ltb c.expires_at now) db.pending_codes in
    insert_code-Moves db user now code live (live code) d

change-Moves : (db : Db) (c : Change) (d : String) → Moves db (change db c) d
unfolding unregister exchange_code
change-Moves db (registering k desc user now) d = register-Moves db k desc user now d
change-Moves db (unregistering k owner) d = unregister_row-Moves db k owner (db.devices k) d
change-Moves db (creating user now code) d = create-Moves db user now code d
change-Moves db (exchanging code k desc now) d =
    exchange_row-Moves db code k desc now (db.pending_codes code) d

pub changes-Token :
    (db : Db) (cs : List Change) (d user : String) (epoch : ℕ)
    → Token db d user epoch
    → Token (changes db cs) d user epoch
changes-Token db [] d user epoch t = t
changes-Token db (c ∷ cs) d user epoch t =
    changes-Token (change db c) cs d user epoch
      (Moves-Token db (change db c) d user epoch (change-Moves db c d) t)

Moves-epoch : (db db' : Db) (d : String) → Moves db db' d → epoch_of db d ≤ epoch_of db' d
Moves-epoch db db' d (inl m) = omega (arith, m.1)
Moves-epoch db db' d (inr (inl m)) = omega (arith, m)
Moves-epoch db db' d (inr (inr m)) = omega (arith, m.1)

pub changes-epoch :
    (db : Db) (cs : List Change) (d : String) → epoch_of db d ≤ epoch_of (changes db cs) d
changes-epoch db [] d = omega arith
changes-epoch db (c ∷ cs) d =
    omega (
      arith,
      Moves-epoch db (change db c) d (change-Moves db c d),
      changes-epoch (change db c) cs d,
    )
