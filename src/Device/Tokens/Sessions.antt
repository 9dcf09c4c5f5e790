-- ===== src/Device/Tokens/Sessions.antt =====
-- src/device.rs: a session ends with the registration that it was opened under.
use remarkable_server.Base.{
  ◌≡◌, ◌≢◌, refl, sym, ap, ◌∙◌, subst, true, false, Option, none, some, List, String, text_eq,
  if_false, if_true, ◌⊎◌, inl, inr, Bool-cases,
}
use remarkable_server.Base.Result.{Result, ok, err, ◌>>◌}
use remarkable_server.Errors.{ServerError}
use remarkable_server.Device.Registry.{Db, check_registration, delete_device, admin_device_id}
use remarkable_server.Device.Changes.{Change, changes}
use remarkable_server.Device.Revocation.{delete_device_revokes}
use remarkable_server.Device.Tokens.{
  Claims, SessionIdentity, identity, check_registered, decode_device_token, decode_user_token,
  or_user, session_identity, still_valid, session_still_valid,
}

false_≢_true : false ≢ true
false_≢_true h = cc

-- The administrator's, or registered.
abbrev Stands : Db → SessionIdentity → Type 0
Stands db s =
    (text_eq s.device_id admin_device_id ≡ true)
    ⊎ (check_registration db s.device_id s.user_id s.epoch ≡ ok tt)

abbrev SameOk : {A : Type 0} → A → A → Type 0
SameOk {A = A} a b = ◌≡◌ {A = Result ServerError A} (ok a) (ok b)

ok_inj : {A : Type 0} {a b : A} → SameOk a b → a ≡ b
ok_inj h = cc

if_registered-ok :
    (c c' : Claims) (r : Result ServerError (Unit {0}))
    → (r >> ok c) ≡ ok c'
    → (r ≡ ok tt) × (c ≡ c')
if_registered-ok c c' (ok tt) h = (refl, cc)
if_registered-ok c c' (err e) h = cc

decode_device_token-Stands :
    (db : Db) (o : Option Claims) (c : Claims)
    → decode_device_token db o ≡ ok c
    → Stands db (identity c)
unfolding decode_device_token
decode_device_token-Stands db none c h = cc
decode_device_token-Stands db (some b) c h =
    let e = if_registered-ok b c (check_registered db b) h in
    inr (subst (λ (x : Claims). check_registered db x ≡ ok tt) e.1 e.0)

decode_user_token-Stands :
    (db : Db) (o : Option Claims) (c : Claims)
    → decode_user_token db o ≡ ok c
    → Stands db (identity c)
unfolding decode_user_token
decode_user_token-Stands db none c h = cc
decode_user_token-Stands db (some b) c h = elim (Bool-cases (text_eq b.device_id admin_device_id)) [
  | inl admin ↦
      let e = ok_inj (sym (if_true (text_eq b.device_id admin_device_id) _ _ admin) ∙ h) in
      subst (λ (x : Claims). Stands db (identity x)) e (inl admin)
  | inr device ↦
      let e =
        if_registered-ok b c (check_registered db b)
          (sym (if_false (text_eq b.device_id admin_device_id) _ _ device) ∙ h) in
      inr (subst (λ (x : Claims). check_registered db x ≡ ok tt) e.1 e.0)
]

or_user-Stands :
    (db : Db) (r q : Result ServerError Claims) (s : SessionIdentity)
    → ((c : Claims) → r ≡ ok c → Stands db (identity c))
    → ((c : Claims) → q ≡ ok c → Stands db (identity c))
    → or_user r q ≡ ok s
    → Stands db s
or_user-Stands db (ok c) q s f g h = subst (Stands db) (ok_inj h) (f c refl)
or_user-Stands db (err e) (ok c) s f g h = subst (Stands db) (ok_inj h) (g c refl)
or_user-Stands db (err e) (err e') s f g h = cc

module _ (open_device open_user : String → Option Claims) where
  session_identity-Stands :
      (db : Db) (bearer : Option String) (s : SessionIdentity)
      → session_identity open_device open_user db bearer ≡ ok s
      → Stands db s
  unfolding session_identity
  session_identity-Stands db none s h = cc
  session_identity-Stands db (some token) s h =
      or_user-Stands db (decode_device_token db (open_device token))
        (decode_user_token db (open_user token)) s
        (decode_device_token-Stands db (open_device token))
        (decode_user_token-Stands db (open_user token)) h

  -- A session that was opened with a token, device or user, of a device that is then deleted is no
  -- longer valid, after whatever calls follow, unless it is the administrator's.
  pub session_ends_with_device :
      (db : Db) (bearer : Option String) (s : SessionIdentity) (owner : Option String) (db' : Db)
      (after : List Change)
      → session_identity open_device open_user db bearer ≡ ok s
      → text_eq s.device_id admin_device_id ≡ false
      → delete_device db s.device_id owner ≡ (db', true)
      → session_still_valid (changes db' after) s ≡ false
  unfolding session_still_valid
  session_ends_with_device db bearer s owner db' after h n d =
      elim (session_identity-Stands db bearer s h) [
        | inl admin ↦ elim (false_≢_true (sym n ∙ admin)) [ ]
        | inr stands ↦
            if_false (text_eq s.device_id admin_device_id) _ _ n
            ∙ ap still_valid
                (delete_device_revokes db s.device_id s.user_id s.epoch owner db' after stands d).0
      ]
