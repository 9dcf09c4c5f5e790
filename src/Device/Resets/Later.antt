-- ===== src/Device/Resets/Later.antt =====
-- src/passcode.rs: a request that is approved stays so, whatever calls follow, until it is denied or
-- expires.
use remarkable_server.Base.{
  ℕ, ◌≤◌, ◌≡◌, ◌≢◌, refl, sym, ap, ◌∙◌, leb, Bool, true, false, not, ◌&&◌, Option, none, some, List,
  [], ◌∷◌, String, text_eq, eq_iff, if_true, if_false, if_intro, Bool-cases, inl, inr, All,
}
use remarkable_server.Base.Table.{Table, delete_where, row_unless}
use remarkable_server.Base.Result.{Result, ok, err}
use remarkable_server.Errors.{ServerError}
use remarkable_server.Device.Resets.{
  Reset, Store, Caller, purge, expired_at, approve_row, approve_passcode_reset, approve_and_notify,
  create_passcode_reset, insert_or_ignore, device_approve, create, notify_denied,
  purge_expired_passcode_resets, new_reset, approve, device_deny, deny_row, deny_passcode_reset,
  is_foreign, is_caller,
}
use remarkable_server.Device.Resets.Guards.{expired_false, and_false, same_row, notify-resets}

-- The row as an approval leaves it.
abbrev pub approved_row : Reset → Reset
approved_row row = record row { approved = true }

-- The calls that change the table.
pub data Call : Type 0 where
  creates : Result ServerError Caller → String → ℕ → Call
  approves : Result ServerError (Unit {0}) → String → ℕ → Call
  device_approves : Result ServerError Caller → String → ℕ → Call
  device_denies : Result ServerError Caller → String → ℕ → Call

unfoldable pub after_call : Call → Store → Store
unfolding create approve device_approve device_deny
after_call (Call.creates c id now) st = (create st c id now).0
after_call (Call.approves admin id now) st = (approve st admin id now).0
after_call (Call.device_approves c id now) st = (device_approve st c id now).0
after_call (Call.device_denies c id now) st = (device_deny st c id now).0

unfoldable pub after_calls : List Call → Store → Store
unfolding after_call
after_calls [] st = st
after_calls (call ∷ calls) st = after_calls calls (after_call call st)

-- A call that is made by that time and does not deny that request.
abbrev pub Spares : String → ℕ → Call → Type 0
Spares id until (Call.creates c j now) = now ≤ until
Spares id until (Call.approves admin j now) = now ≤ until
Spares id until (Call.device_approves c j now) = now ≤ until
Spares id until (Call.device_denies c j now) = (j ≢ id) × (now ≤ until)

spared :
    (p : Reset → Bool) (o : Option Reset) (row : Reset)
    → o ≡ some row
    → p row ≡ false
    → row_unless p o ≡ some row
spared p o row e h = ap (row_unless p) e ∙ if_false (p row) _ _ h

module _ (id : String) (row : Reset) where
  abbrev Approved : Store → Type 0
  Approved st = st.resets id ≡ some (approved_row row)

  purged-Approved :
      (st : Store) (user : String) (now : ℕ)
      → now ≤ row.expires
      → Approved st
      → Approved (purge_expired_passcode_resets st user now)
  purged-Approved st user now l h =
      spared (λ r. text_eq r.user_id user && expired_at now r) (st.resets id) (approved_row row) h
        (and_false (text_eq row.user_id user) (expired_at now row) (expired_false now row l))

  apart_false : (j : String) → j ≢ id → text_eq j id ≡ false
  apart_false j h = elim (Bool-cases (text_eq j id)) [
    | inl at ↦ absurd (h ((eq_iff j id).0 at))
    | inr off ↦ off
  ]

  insert_or_ignore-Approved :
      (st : Store) (live : Table Reset) (j : String) (reset : Reset) (o : Option Reset)
      → live j ≡ o
      → live id ≡ some (approved_row row)
      → Approved (insert_or_ignore st live j reset o).0
  insert_or_ignore-Approved st live j reset (some r) e h = h
  insert_or_ignore-Approved st live j reset none e h = elim (Bool-cases (text_eq j id)) [
    | inl at ↦ cc (e, h, ap live ((eq_iff j id).0 at))
    | inr off ↦ if_false (text_eq j id) _ _ off ∙ h
  ]

  create-Approved :
      (st : Store) (c : Caller) (j : String) (now : ℕ)
      → now ≤ row.expires
      → Approved st
      → Approved (create st (ok c) j now).0
  unfolding create create_passcode_reset
  create-Approved st c j now l h =
      let live : Table Reset =
        delete_where (λ k r. text_eq j k && expired_at now r) (purge st c.user_id now) in
      insert_or_ignore-Approved st live j (new_reset c now) (live j) refl (
        spared (λ r. text_eq j id && expired_at now r) (purge st c.user_id now id)
          (approved_row row) (purged-Approved st c.user_id now l h)
          (and_false (text_eq j id) (expired_at now row) (expired_false now row l)))

  approve_row-Approved :
      (st : Store) (j : String) (owner caller : Option String) (now : ℕ) (o : Option Reset)
      → st.resets j ≡ o
      → Approved st
      → Approved (approve_row st j owner caller now o).0
  unfolding approve_row
  approve_row-Approved st j owner caller now none e h = h
  approve_row-Approved st j owner caller now (some r) e h =
      if_intro (λ (x : Store × Result ServerError (String × Reset)). Approved x.0)
        (is_foreign owner r.user_id) _ _ (λ _. h)
        (λ _.
          if_intro (λ (x : Store × Result ServerError (String × Reset)). Approved x.0)
            (leb now r.expires && not (is_caller caller r.device_id)) _ _
            (λ _. elim (Bool-cases (text_eq j id)) [
              | inl at ↦
                  if_true (text_eq j id) _ _ at
                  ∙ ap (λ (s : Reset). some (approved_row s))
                      (same_row (ap st.resets (sym ((eq_iff j id).0 at)) ∙ e) h)
              | inr off ↦ if_false (text_eq j id) _ _ off ∙ h
            ])
            (λ _. h))

  approve_and_notify-Approved :
      (st : Store) (j : String) (o : Option Caller) (now : ℕ)
      → Approved st
      → Approved (approve_and_notify st j o now).0
  unfolding approve_passcode_reset
  approve_and_notify-Approved st j none now h =
      ap (λ (t : Table Reset). t id)
        (notify-resets j (approve_row st j none none now (st.resets j)))
      ∙ approve_row-Approved st j none none now (st.resets j) refl h
  approve_and_notify-Approved st j (some c) now h =
      ap (λ (t : Table Reset). t id)
        (notify-resets j (approve_row st j (some c.user_id) (some c.device_id) now (st.resets j)))
      ∙ approve_row-Approved st j (some c.user_id) (some c.device_id) now (st.resets j) refl h

  deny_row-Approved :
      (st : Store) (j user caller : String) (now : ℕ) (o : Option Reset)
      → text_eq j id ≡ false
      → Approved st
      → Approved (notify_denied user j (deny_row st j user caller now o)).0
  unfolding deny_row
  deny_row-Approved st j user caller now none off h = h
  deny_row-Approved st j user caller now (some r) off h =
      if_intro (λ (x : Store × Result ServerError (Unit {0})). Approved (notify_denied user j x).0)
        (text_eq r.user_id user && not (text_eq caller r.device_id)) _ _
        (λ _. if_false (text_eq j id) _ _ off ∙ h) (λ _. h)

  after_call-Approved :
      (call : Call) (st : Store)
      → Spares id row.expires call
      → Approved st
      → Approved (after_call call st)
  unfolding after_call create approve device_approve device_deny deny_passcode_reset
  after_call-Approved (Call.creates (err e) j now) st l h = h
  after_call-Approved (Call.creates (ok c) j now) st l h = create-Approved st c j now l h
  after_call-Approved (Call.approves (err e) j now) st l h = h
  after_call-Approved (Call.approves (ok _) j now) st l h =
      approve_and_notify-Approved st j none now h
  after_call-Approved (Call.device_approves (err e) j now) st l h = h
  after_call-Approved (Call.device_approves (ok c) j now) st l h =
      approve_and_notify-Approved (purge_expired_passcode_resets st c.user_id now) j (some c) now
        (purged-Approved st c.user_id now l h)
  after_call-Approved (Call.device_denies (err e) j now) st l h = h
  after_call-Approved (Call.device_denies (ok c) j now) st l h =
      let swept : Store = purge_expired_passcode_resets st c.user_id now in
      deny_row-Approved swept j c.user_id c.device_id now (swept.resets j) (apart_false j l.0)
        (purged-Approved st c.user_id now l.1 h)

  pub after_calls-Approved :
      (calls : List Call) (st : Store)
      → All (Spares id row.expires) calls
      → Approved st
      → Approved (after_calls calls st)
  unfolding after_calls
  after_calls-Approved [] st l h = h
  after_calls-Approved (call ∷ calls) st l h =
      after_calls-Approved calls (after_call call st) l.1 (after_call-Approved call st l.0 h)
