-- ===== src/Device/Resets/Outcomes.antt =====
-- src/passcode.rs: what a repeated request finds, and what follows an approval.
use remarkable_server.Base.{
  ℕ, ◌≤◌, ◌≡◌, refl, sym, ap, ◌∙◌, leb, if◌then◌else◌, Bool, true, false, not, ◌&&◌, Option, some,
  List, [], ◌∷◌, ◌++◌, String, text_eq, arith, eq_iff, eq_refl, if_true, if_false, All,
}
use remarkable_server.Base.Table.{Table, put, delete_where, row_unless}
use remarkable_server.Base.Result.{Result, ok, ◌>>=◌}
use remarkable_server.Errors.{ServerError}
use remarkable_server.Device.Resets.{
  Reset, Store, Caller, purge, expired_at, read_row, read_passcode_reset, approve_row,
  approve_passcode_reset, create_passcode_reset, insert_or_ignore, device_approve, create, get,
  notify, purge_expired_passcode_resets, passcode_reset_approved, new_reset,
}
use remarkable_server.Device.Resets.Later.{
  approved_row, Call, after_calls, Spares, after_calls-Approved,
}
use remarkable_server.Device.Resets.Guards.{
  expired_false, read_row-live, and_false, row-kept, swept-row, MayApprove,
}

abbrev live_rows : Store → String → String → ℕ → Table Reset
live_rows st id user now =
    delete_where (λ j r. text_eq id j && expired_at now r) (purge st user now)

live-row :
    (st : Store) (c : Caller) (id : String) (now : ℕ) (row : Reset)
    → st.resets id ≡ some row
    → row.user_id ≡ c.user_id
    → now ≤ row.expires
    → live_rows st id c.user_id now id ≡ some row
live-row st c id now row found mine live =
    let p : Reset → Bool = λ r. text_eq id id && expired_at now r in
    ap (row_unless p) (swept-row st id c now row found mine live)
    ∙ row-kept st id c now row found mine live p
        (and_false (text_eq id id) (expired_at now row) (expired_false now row live))

create-keeps :
    (st : Store) (c : Caller) (id : String) (now : ℕ) (row : Reset)
    → live_rows st id c.user_id now id ≡ some row
    → create_passcode_reset st id (new_reset c now) now
      ≡ (record st { resets = live_rows st id c.user_id now }, false)
unfolding create_passcode_reset
create-keeps st c id now row h =
    ap (insert_or_ignore st (live_rows st id c.user_id now) id (new_reset c now)) h

abbrev answer : Caller → String → ℕ → Store × Bool → Store × Result ServerError (ℕ × Reset)
answer c id now (st', created) =
    (st', read_passcode_reset st' id c.user_id now >>= λ r. ok (if created then 201 else 200, r))

-- A repeated passcode reset request of the same user, while the first is live, answers 200 with
-- the first, approved or not, and leaves it as it is.
pub create_again :
    (st : Store) (c : Caller) (id : String) (now : ℕ) (row : Reset)
    → st.resets id ≡ some row
    → row.user_id ≡ c.user_id
    → now ≤ row.expires
    → ((create st (ok c) id now).1 ≡ ok (200, row))
      × ((create st (ok c) id now).0.resets id ≡ some row)
unfolding create read_passcode_reset
create_again st c id now row found mine live =
    let kept = live-row st c id now row found mine live in
    let e = create-keeps st c id now row kept in
    (
      ap (λ (r : Store × Bool). (answer c id now r).1) e
          ∙ ap (λ (r : Result ServerError Reset). r >>= λ s. ok (200, s))
              (ap (read_row id c.user_id now) kept ∙ read_row-live id c.user_id now row mine live),
      ap (λ (r : Store × Bool). r.0.resets id) e ∙ kept,
    )

abbrev approved_store : Store → String → Reset → Store
approved_store st id row = record st { resets = put id (approved_row row) st.resets }

read_approved :
    (st : Store) (id : String) (row : Reset) (user : String) (now : ℕ)
    → row.user_id ≡ user
    → now ≤ row.expires
    → read_passcode_reset (approved_store st id row) id user now ≡ ok (approved_row row)
unfolding read_passcode_reset
read_approved st id row user now e l =
    ap (read_row id user now)
      (if_true (text_eq id id) (some (approved_row row)) (st.resets id) (eq_refl id))
    ∙ read_row-live id user now (approved_row row) e l

approve_row-approves :
    (st : Store) (id : String) (c : Caller) (now : ℕ) (row : Reset)
    → MayApprove c now row
    → approve_row st id (some c.user_id) (some c.device_id) now (some row)
      ≡ (approved_store st id row, ok (row.user_id, approved_row row))
unfolding approve_row
approve_row-approves st id c now row may =
    if_false (not (text_eq c.user_id row.user_id)) _ _
      (ground (arith, may.0, eq_iff c.user_id row.user_id))
    ∙ if_true (leb now row.expires && not (text_eq c.device_id row.device_id)) _ _
        (ground (arith, may.1.0, may.1.1, eq_iff c.device_id row.device_id))
    ∙ ap
        (λ (r : Result ServerError Reset).
          (approved_store st id row, r >>= λ s. ok (row.user_id, s)))
        (read_approved st id row row.user_id now refl may.1.1)

-- The store just after the approval.
device_approve-approves :
    (st : Store) (c : Caller) (id : String) (now : ℕ) (row : Reset)
    → st.resets id ≡ some row
    → MayApprove c now row
    → device_approve st (ok c) id now
      ≡ notify id (
        approved_store (purge_expired_passcode_resets st c.user_id now) id row,
        ok (row.user_id, approved_row row),
      )
unfolding device_approve approve_passcode_reset
device_approve-approves st c id now row found may =
    let swept : Store = purge_expired_passcode_resets st c.user_id now in
    ap
      (λ (o : Option Reset).
        notify id (approve_row swept id (some c.user_id) (some c.device_id) now o))
      (swept-row st id c now row found may.0 may.1.1)
    ∙ ap (notify id) (approve_row-approves swept id c now row may)

-- What another device of the same user approves in time reads as approved to every device of that
-- user, at every time up to its expiry, whatever requests, approvals and denials follow until then,
-- none of which denies this request; and the approval is pushed once.
pub approved_until_expiry :
    (st : Store) (c : Caller) (id : String) (now later : ℕ) (row : Reset) (reader : Caller)
    (calls : List Call)
    → st.resets id ≡ some row
    → MayApprove c now row
    → reader.user_id ≡ c.user_id
    → later ≤ row.expires
    → All (Spares id row.expires) calls
    → let st' = (device_approve st (ok c) id now).0 in
      (get (after_calls calls st') (ok reader) id later ≡ ok (record row { approved = true }))
      × (st'.pushed
          ≡ st.pushed ++ passcode_reset_approved row.user_id row.device_id row.device_name id ∷ [])
unfolding get read_passcode_reset
approved_until_expiry st c id now later row reader calls found may same l spare =
    let e = device_approve-approves st c id now row found may in
    let kept : (after_calls calls (device_approve st (ok c) id now).0).resets id
        ≡ some (approved_row row) =
      after_calls-Approved id row calls (device_approve st (ok c) id now).0 spare (
        ap (λ (r : Store × Result ServerError Reset). r.0.resets id) e
        ∙ if_true (text_eq id id) _ _ (eq_refl id)) in
    (
      ap (read_row id reader.user_id later) kept
          ∙ read_row-live id reader.user_id later (approved_row row) (may.0 ∙ sym same) l,
      ap (λ (r : Store × Result ServerError Reset). r.0.pushed) e,
    )
