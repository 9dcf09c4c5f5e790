-- ===== src/Device/Resets/Guards.antt =====
-- src/passcode.rs: who may approve or deny a request.
use remarkable_server.Base.{
  ℕ, ◌≤◌, ◌≡◌, ◌≢◌, refl, sym, ap, ◌∙◌, subst, leb, Bool, true, false, not, ◌&&◌, Option, none,
  some, String, text_eq, arith, eq_iff, ◌⊎◌, inl, inr, if_true, if_false, if_intro, Bool-cases,
}
use remarkable_server.Base.Table.{Table, row_unless}
use remarkable_server.Base.Result.{Result, ok, err}
use remarkable_server.Errors.{ServerError, forbidden}
use remarkable_server.Device.Resets.{
  Reset, Store, Caller, expired_at, read_row, miss_of, is_caller, is_foreign, read_passcode_reset,
  passcode_reset_miss, approve_row, approve_passcode_reset, deny_row, deny_passcode_reset,
  device_approve, device_deny, notify, notify_denied, purge_expired_passcode_resets,
}

pub expired_false : (now : ℕ) (row : Reset) → now ≤ row.expires → expired_at now row ≡ false
expired_false now row l = ground arith

pub read_row-live :
    (id user : String) (now : ℕ) (row : Reset)
    → row.user_id ≡ user
    → now ≤ row.expires
    → read_row id user now (some row) ≡ ok row
read_row-live id user now row e l =
    if_false (not (text_eq row.user_id user)) _ _ (ground (arith, e, eq_iff row.user_id user))
    ∙ if_false (expired_at now row) _ _ (expired_false now row l)

pub and_false : (a b : Bool) → b ≡ false → (a && b) ≡ false
and_false a b h = ground arith

module _ (st : Store) (id : String) (c : Caller) (now : ℕ) (row : Reset)
    (found : st.resets id ≡ some row) (mine : row.user_id ≡ c.user_id)
    (live : now ≤ row.expires) where
  abbrev Swept : Store
  Swept = purge_expired_passcode_resets st c.user_id now

  pub row-kept : (p : Reset → Bool) → p row ≡ false → row_unless p (some row) ≡ some row
  row-kept p h = rw h refl

  pub swept-row : Swept.resets id ≡ some row
  swept-row =
      ap (row_unless (λ r. text_eq r.user_id c.user_id && expired_at now r)) found
      ∙ row-kept (λ r. text_eq r.user_id c.user_id && expired_at now r)
          (and_false (text_eq row.user_id c.user_id) (expired_at now row)
            (expired_false now row live))

  own_miss :
      (user : String)
      → row.user_id ≡ user
      → row.device_id ≡ c.device_id
      → passcode_reset_miss Swept id user (some c.device_id) now
        ≡ forbidden "a device cannot approve or deny its own passcode reset"
  unfolding passcode_reset_miss read_passcode_reset
  own_miss user e d =
      ap (λ (o : Option Reset). miss_of id (some c.device_id) (read_row id user now o)) swept-row
      ∙ ap (miss_of id (some c.device_id)) (read_row-live id user now row e live)
      ∙ if_true (text_eq c.device_id row.device_id) _ _
          (ground (arith, d, eq_iff c.device_id row.device_id))

  own_approve :
      row.device_id ≡ c.device_id
      → approve_passcode_reset Swept id (some c.user_id) (some c.device_id) now
        ≡ (Swept, err (forbidden "a device cannot approve or deny its own passcode reset"))
  unfolding approve_passcode_reset approve_row
  own_approve d =
      ap (approve_row Swept id (some c.user_id) (some c.device_id) now) swept-row
      ∙ if_false (not (text_eq c.user_id row.user_id)) _ _
          (ground (arith, mine, eq_iff c.user_id row.user_id))
      ∙ if_false (leb now row.expires && not (text_eq c.device_id row.device_id)) _ _
          (ground (arith, d, eq_iff c.device_id row.device_id))
      ∙ ap (λ (e : ServerError). (Swept, err e)) (own_miss row.user_id refl d)

  own_deny :
      row.device_id ≡ c.device_id
      → deny_passcode_reset Swept id c.user_id c.device_id now
        ≡ (Swept, err (forbidden "a device cannot approve or deny its own passcode reset"))
  unfolding deny_passcode_reset deny_row
  own_deny d =
      ap (deny_row Swept id c.user_id c.device_id now) swept-row
      ∙ if_false (text_eq row.user_id c.user_id && not (text_eq c.device_id row.device_id)) _ _
          (ground (arith, d, eq_iff c.device_id row.device_id))
      ∙ ap (λ (e : ServerError). (Swept, err e)) (own_miss c.user_id mine d)

  -- A live passcode reset is neither approved nor denied by the device that made it, while that
  -- device is paired to the user of the request: both handlers answer 403, change no live request
  -- and push nothing.
  pub own_reset_refused :
      row.device_id ≡ c.device_id
      → (device_approve st (ok c) id now
          ≡ (Swept, err (forbidden "a device cannot approve or deny its own passcode reset")))
        × (device_deny st (ok c) id now
            ≡ (Swept, err (forbidden "a device cannot approve or deny its own passcode reset")))
  unfolding device_approve device_deny
  own_reset_refused d =
      (ap (notify id) (own_approve d), ap (notify_denied c.user_id id) (own_deny d))

-- The guard of the `UPDATE`, for a device that approves.
abbrev pub MayApprove : Caller → ℕ → Reset → Type 0
MayApprove c now row =
    (row.user_id ≡ c.user_id) × ((row.device_id ≢ c.device_id) × (now ≤ row.expires))

-- Either a call leaves the request `j` as it is, or it passed the guard for it.
abbrev Guarded : Caller → ℕ → String → Store → Store → String → Type 0
Guarded c now id st st' j =
    (st'.resets j ≡ st.resets j)
    ⊎ ((j ≡ id) × ((row : Reset) × ((st.resets id ≡ some row) × MayApprove c now row)))

foreign_false :
    (c : Caller) (row : Reset)
    → is_foreign (some c.user_id) row.user_id ≡ false
    → row.user_id ≡ c.user_id
foreign_false c row h = ground (arith, eq_iff c.user_id row.user_id)

guard_true :
    (c : Caller) (now : ℕ) (row : Reset)
    → (leb now row.expires && not (is_caller (some c.device_id) row.device_id)) ≡ true
    → (row.device_id ≢ c.device_id) × (now ≤ row.expires)
guard_true c now row h =
    ((λ e. ground (arith, h, e, eq_iff c.device_id row.device_id)), ground arith)

approve_row-Guarded :
    (st : Store) (id : String) (c : Caller) (now : ℕ) (o : Option Reset) (j : String)
    → st.resets id ≡ o
    → Guarded c now id st (approve_row st id (some c.user_id) (some c.device_id) now o).0 j
unfolding approve_row
approve_row-Guarded st id c now none j e = inl refl
approve_row-Guarded st id c now (some row) j e =
    if_intro (λ (r : Store × Result ServerError (String × Reset)). Guarded c now id st r.0 j)
      (is_foreign (some c.user_id) row.user_id) _ _ (λ _. inl refl)
      (λ mine.
        if_intro (λ (r : Store × Result ServerError (String × Reset)). Guarded c now id st r.0 j)
          (leb now row.expires && not (is_caller (some c.device_id) row.device_id)) _ _
          (λ g. elim (Bool-cases (text_eq id j)) [
            | inl at ↦ inr (
              sym ((eq_iff id j).0 at),
              (row, (e, (foreign_false c row mine, guard_true c now row g))),
            )
            | inr off ↦ inl (if_false (text_eq id j) _ _ off)
          ])
          (λ _. inl refl))

pub notify-resets :
    (id : String) (r : Store × Result ServerError (String × Reset))
    → (notify id r).0.resets ≡ r.0.resets
notify-resets id (st, err e) = refl
notify-resets id (st, ok (user, r)) = refl

pub same_row : {o : Option Reset} {a b : Reset} → o ≡ some a → o ≡ some b → a ≡ b
same_row h k = cc

false_≢_true : false ≢ true
false_≢_true h = cc

row_unless-some :
    (p : Reset → Bool) (o : Option Reset) (row : Reset) → row_unless p o ≡ some row → o ≡ some row
row_unless-some p none row h = h
row_unless-some p (some r) row h = ground arith

-- Where a device's approval leaves a request approved that was not, the request is the one it
-- names, of the same user, of another device, and has not expired.
pub approval_is_by_another_device :
    (st : Store) (id : String) (c : Caller) (now : ℕ) (j : String) (row row' : Reset)
    → st.resets j ≡ some row
    → row.approved ≡ false
    → (device_approve st (ok c) id now).0.resets j ≡ some row'
    → row'.approved ≡ true
    → (j ≡ id) × MayApprove c now row
unfolding device_approve approve_passcode_reset
approval_is_by_another_device st id c now j row row' at fresh at' approved =
    let swept : Store = purge_expired_passcode_resets st c.user_id now in
    let p : Reset → Bool = λ r. text_eq r.user_id c.user_id && expired_at now r in
    let e : (approve_row swept id (some c.user_id) (some c.device_id) now
            (swept.resets id)).0.resets
          j
        ≡ some row' =
      ap (λ (t : Table Reset). t j)
        (sym (
          notify-resets id
            (approve_row swept id (some c.user_id) (some c.device_id) now (swept.resets id))))
      ∙ at' in
    elim (approve_row-Guarded swept id c now (swept.resets id) j refl) [
      | inl same ↦
          let kept = row_unless-some p (st.resets j) row' (sym same ∙ e) in
          elim (false_≢_true (sym fresh ∙ ap Reset.approved (same_row at kept) ∙ approved)) [ ]
      | inr g ↦
          let kept = row_unless-some p (st.resets id) g.1.0 g.1.1.0 in
          (
            g.0,
            subst (λ (r : Reset). MayApprove c now r)
                (same_row kept (subst (λ (k : String). st.resets k ≡ some row) g.0 at)) g.1.1.1,
          )
    ]
