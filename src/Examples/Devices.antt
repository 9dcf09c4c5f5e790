-- ===== src/Examples/Devices.antt =====
-- src/device.rs and src/passcode.rs on concrete tables.
use remarkable_server.Base.{
  if◌then◌else◌, text_eq, Option, ◌≡◌, ◌≢◌, refl, none, some, List, [], ◌∷◌, true, false, String,
  arith, eq_iff,
}
use remarkable_server.Base.Result.{ok, err}
use remarkable_server.Base.Table.{put}
use remarkable_server.Errors.{ServerError, invalid_token, invalid_code, forbidden}
use remarkable_server.Device.Registry.{
  exchange_code, Db, empty_db, register, register_row, hand_over, bump_epoch, announce_revoked,
  delete_device, unregister, unregister_row, check_registration,
}
use remarkable_server.Device.Changes.{Change, unregistering, creating, exchanging, changes}
use remarkable_server.Device.Revocation.{refused_for_good, delete_device_revokes, hand_over_revokes}
use remarkable_server.Device.Resets.{
  Reset, Store, Caller, empty_store, passcode_reset_approved, purge_expired_passcode_resets,
  device_approve, device_deny, get, read_passcode_reset, approve_passcode_reset, approve_row,
}
use remarkable_server.Device.Tokens.{
  Claims, identity, decode_device_token, session_identity, session_still_valid, revoke_device_token,
}
use remarkable_server.Device.Tokens.Sessions.{session_ends_with_device}
use remarkable_server.Device.Tokens.Revoke.{revoke_device_token_twice}
use remarkable_server.Device.Pairing.{exchange_code_once}
use remarkable_server.Device.Resets.Guards.{
  own_reset_refused, approval_is_by_another_device, MayApprove,
}
use remarkable_server.Device.Resets.Later.{Call, after_calls}
use remarkable_server.Device.Resets.Outcomes.{approved_until_expiry}

-- The database after the tablet "t" was registered to ann.
abbrev paired : Db
paired = register_row empty_db "t" "tablet" "ann" 5 none

abbrev unpair : List Change
unpair = unregistering "t" (some "ann") ∷ []

abbrev pair_again : List Change
pair_again = creating "ann" 20 "abcd1234" ∷ exchanging "abcd1234" "t" "tablet" 21 ∷ []

false_≢_true : false ≢ true
false_≢_true h = cc

ok_≢ : {A : Type 0} {e : ServerError} {a : A} → err e ≢ ok a
ok_≢ h = cc

refused_for_good_example :
    check_registration (changes (changes paired unpair) pair_again) "t" "ann" 0 ≡ err invalid_token
unfolding register register_row hand_over unregister unregister_row bump_epoch announce_revoked
    check_registration
refused_for_good_example =
    refused_for_good empty_db "t" "tablet" "ann" 5 paired 0 unpair pair_again refl (λ h. ok_≢ h)

delete_device_revokes_example :
    (check_registration (changes (delete_device paired "t" none).0 pair_again) "t" "ann" 0
      ≡ err invalid_token)
    × ((delete_device paired "t" none).0.announced
        ≡ record { user_id = "ann"; device_id = "t" } ∷ [])
unfolding register_row hand_over unregister unregister_row bump_epoch announce_revoked
    check_registration
delete_device_revokes_example =
    delete_device_revokes paired "t" "ann" 0 none (delete_device paired "t" none).0 pair_again refl
      refl

abbrev handed_over : Db
handed_over = register_row paired "t" "tablet" "bob" 9 (paired.devices "t")

hand_over_revokes_example :
    (check_registration (changes handed_over pair_again) "t" "ann" 0 ≡ err invalid_token)
    × (handed_over.announced ≡ record { user_id = "ann"; device_id = "t" } ∷ [])
unfolding register register_row hand_over bump_epoch announce_revoked check_registration
hand_over_revokes_example =
    hand_over_revokes paired "t" "tablet" "ann" "bob" 9 0 handed_over 1 pair_again refl
      (λ h. false_≢_true ((eq_iff "ann" "bob").1 h)) refl

abbrev tablet : Caller
tablet = record { user_id = "ann"; device_id = "t"; device_desc = "tablet" }

abbrev phone : Caller
phone = record { user_id = "ann"; device_id = "p"; device_desc = "phone" }

-- A request of the tablet, live until 100.
abbrev request : Reset
request = record {
  user_id = "ann";
  device_id = "t";
  device_name = "tablet";
  created = 0;
  expires = 100;
  approved = false;
}

abbrev requested : Store
requested = record { resets = put "r" request empty_store.resets; pushed = [] }

own_reset_refused_example :
    (device_approve requested (ok tablet) "r" 7 ≡ (
      purge_expired_passcode_resets requested "ann" 7,
      err (forbidden "a device cannot approve or deny its own passcode reset"),
    ))
    × (device_deny requested (ok tablet) "r" 7 ≡ (
      purge_expired_passcode_resets requested "ann" 7,
      err (forbidden "a device cannot approve or deny its own passcode reset"),
    ))
own_reset_refused_example =
    own_reset_refused requested "r" tablet 7 request refl refl (omega arith) refl

abbrev request_id : String
request_id = "r"

approval_is_by_another_device_example : (request_id ≡ request_id) × MayApprove phone 7 request
unfolding device_approve approve_passcode_reset approve_row read_passcode_reset
approval_is_by_another_device_example =
    approval_is_by_another_device requested "r" phone 7 "r" request
      (record request { approved = true }) refl refl refl refl

-- The tablet asks again, another user's device denies another request, and the administrator
-- approves once more.
abbrev meanwhile : List Call
meanwhile =
    Call.creates (ok tablet) "r" 50
    ∷ Call.device_denies (ok (record phone { user_id = "bob" })) "other" 60
    ∷ Call.approves (ok tt) "r" 70
    ∷ []

approved_until_expiry_example :
    (get (after_calls meanwhile (device_approve requested (ok phone) "r" 7).0) (ok tablet) "r" 100
      ≡ ok (record request { approved = true }))
    × ((device_approve requested (ok phone) "r" 7).0.pushed
        ≡ passcode_reset_approved "ann" "t" "tablet" "r" ∷ [])
approved_until_expiry_example =
    approved_until_expiry requested phone "r" 7 100 request tablet meanwhile refl
      (refl, ((λ h. false_≢_true ((eq_iff "t" "p").1 h)), omega arith)) refl (omega arith)
      (
        omega arith,
        (((λ h. false_≢_true ((eq_iff "other" "r").1 h)), omega arith), (omega arith, tt)),
      )

-- The database with a code for ann, pending until 605.
abbrev code_pending : Db
code_pending = record empty_db {
  pending_codes =
      put "abcd1234" (record { user_id = "ann"; expires_at = 605 }) empty_db.pending_codes;
}

abbrev code_spent : Db
code_spent = (exchange_code code_pending "abcd1234" "t" "tablet" 10).0

exchange_code_once_example :
    exchange_code code_spent "abcd1234" "p" "phone" 11
    ≡ (code_spent, err (invalid_code "Code not found"))
exchange_code_once_example =
    exchange_code_once code_pending "abcd1234" "t" "tablet" "p" "phone" 10 11

-- The claims of the tablet's token, and a decoder that accepts "good" only.
abbrev tablet_claims : Claims
tablet_claims = record { device_id = "t"; device_desc = "tablet"; user_id = "ann"; epoch = 0 }

abbrev open_good : String → Option Claims
open_good token = if text_eq token "good" then some tablet_claims else none

session_ends_with_device_example :
    session_still_valid
      (changes (delete_device paired "t" none).0 pair_again)
      (identity tablet_claims)
    ≡ false
unfolding session_identity decode_device_token register_row hand_over unregister unregister_row
    bump_epoch announce_revoked check_registration
session_ends_with_device_example =
    session_ends_with_device open_good open_good paired (some "good") (identity tablet_claims) none
      (delete_device paired "t" none).0 pair_again refl refl refl

abbrev revoked_once : Db
revoked_once = (unregister paired "t" (some "ann")).0

revoke_device_token_twice_example :
    (revoke_device_token paired (some tablet_claims) ≡ (revoked_once, ok true))
    × (revoke_device_token revoked_once (some tablet_claims) ≡ (revoked_once, ok false))
unfolding register_row hand_over check_registration
revoke_device_token_twice_example = revoke_device_token_twice paired tablet_claims refl
