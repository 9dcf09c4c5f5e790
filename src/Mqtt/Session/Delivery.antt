-- ===== src/Mqtt/Session/Delivery.antt =====
-- src/mqtt_ws.rs: which notifications a session pushes, and what it answers before a CONNECT.
use remarkable_server.Base.{
  ℕ, zero, suc, ◌-◌, ◌≤◌, ◌≡◌, refl, ap, ◌∙◌, true, false, Option, none, some, List, [], ◌∷◌, ◌++◌,
  length, Bytes, arith, if_true, if_false, if_intro, length-map, ◌⊎◌, map, All, append-nil,
  append_assoc, bytes_eq_iff,
}
use remarkable_server.Notifications.{WsMessage, Stamp, is_screenshare}
use remarkable_server.Mqtt.Codec.{build_publish}
use remarkable_server.Mqtt.Session.{
  Frame, binary, send_with, send_all, Session, notification, message, Flow, go,
  notification_publishes, not_for, push_message, on_notification, after, step, distinct, contains,
  server_user,
}
use remarkable_server.Mqtt.Session.Subscribe.{IsSubs, Distinct, Concrete, contains-append}

-- None of the topics has been seen.
abbrev Unseen : List Bytes → List Bytes → Type 0
Unseen seen ts = All (λ t. contains seen t ≡ false) ts

Unseen-concat :
    (seen ts : List Bytes) (t : Bytes)
    → Unseen seen ts
    → contains ts t ≡ false
    → Unseen (seen ++ t ∷ []) ts
Unseen-concat seen [] t u h = tt
Unseen-concat seen (x ∷ ts) t u h = (
  ground (arith, contains-append seen t x, bytes_eq_iff t x, bytes_eq_iff x t, u.0),
  Unseen-concat seen ts t u.1 (ground arith),
)

-- Among topics that are concrete and distinct, the filters of `notification_publishes` keep all.
distinct-id :
    (seen ts : List Bytes) → All Concrete ts → Distinct ts → Unseen seen ts → distinct seen ts ≡ ts
unfolding distinct
distinct-id seen [] c d u = refl
distinct-id seen (t ∷ ts) c d u =
    rw (c.0, distinct)
      (rw (u.0, distinct)
        (ap (λ (l : List Bytes). t ∷ l)
          (distinct-id (seen ++ t ∷ []) ts c.1 d.1 (Unseen-concat seen ts t u.1 d.0))))

Unseen-nil : (ts : List Bytes) → Unseen [] ts
Unseen-nil [] = tt
Unseen-nil (t ∷ ts) = (refl, Unseen-nil ts)

-- A sink with room takes every frame, in order.
send_all-room :
    (sent : List Frame) (room : ℕ) (fs : List Frame)
    → length fs ≤ room
    → send_all (record { sent = sent; room = room }) fs
      ≡ (true, record { sent = sent ++ fs; room = room - length fs })
unfolding send_all send_with
send_all-room sent room [] h = ground (arith, append-nil sent)
send_all-room sent zero (f ∷ fs) h = elim h [ ]
send_all-room sent (suc room) (f ∷ fs) h =
    send_all-room (sent ++ f ∷ []) room fs (omega arith)
    ∙ ground (arith, append_assoc sent (f ∷ []) fs)

-- Who a notification is for: its user, or everyone if it is the server's; screen share events
-- have a broker of their own.
abbrev pub IsFor : WsMessage → Bytes → Type 0
IsFor msg user_id =
    (is_screenshare msg ≡ false)
    × ((msg.message.attributes.auth0_user_id ≡ user_id)
        ⊎ (msg.message.attributes.auth0_user_id ≡ server_user))

not_for-false :
    (msg : WsMessage) (user_id : Bytes) → IsFor msg user_id → not_for msg user_id ≡ false
unfolding not_for
not_for-false msg user_id f = ground (
  arith,
  f,
  bytes_eq_iff msg.message.attributes.auth0_user_id user_id,
  bytes_eq_iff msg.message.attributes.auth0_user_id server_user,
)

not_for-true :
    (msg : WsMessage) (user_id : Bytes) → ¬ IsFor msg user_id → not_for msg user_id ≡ true
unfolding not_for
not_for-true msg user_id n = ground (
  arith,
  n,
  bytes_eq_iff msg.message.attributes.auth0_user_id user_id,
  bytes_eq_iff msg.message.attributes.auth0_user_id server_user,
)

module _ (to_json : WsMessage → Option Bytes) (generation : ℕ)
    (authenticate : Option Bytes → Option Bytes) (now : Stamp) where
  publishes_for :
      (msg : WsMessage) (subs : List Bytes) (user_id payload : Bytes)
      → IsSubs subs
      → IsFor msg user_id
      → to_json msg ≡ some payload
      → notification_publishes to_json generation authenticate now msg subs user_id
        ≡ map (λ t. build_publish t payload 0 none) subs
  unfolding notification_publishes
  publishes_for msg subs user_id payload k f j =
      if_false (not_for msg user_id) _ _ (not_for-false msg user_id f)
      ∙ rw j (rw (distinct-id [] subs k.concrete k.distinct (Unseen-nil subs)))

  publishes_not_for :
      (msg : WsMessage) (subs : List Bytes) (user_id : Bytes)
      → ¬ IsFor msg user_id
      → notification_publishes to_json generation authenticate now msg subs user_id ≡ []
  unfolding notification_publishes
  publishes_not_for msg subs user_id n =
      if_true (not_for msg user_id) _ _ (not_for-true msg user_id n)

  -- While its channel is open, a connected session whose subscriptions are distinct, concrete and
  -- at most 64 pushes a notification for its user that has a JSON form once on each topic
  -- subscribed to, in their order, to a sink that has room for that; nothing else of the session
  -- changes.
  pub delivers :
      (s : Session) (msg : WsMessage) (payload : Bytes)
      → s.connected ≡ true
      → s.notifications_open ≡ true
      → IsSubs s.subscriptions
      → IsFor msg s.user_id
      → to_json msg ≡ some payload
      → length s.subscriptions ≤ s.sender.room
      → step to_json generation authenticate now s (notification (message msg))
        ≡ go (record s {
          sender = record {
            sent =
                s.sender.sent
                ++ map binary (map (λ t. build_publish t payload 0 none) s.subscriptions);
            room = s.sender.room - length s.subscriptions;
          };
        })
  unfolding step on_notification push_message after
  delivers s msg payload c o k f j r =
      let packets = map (λ t. build_publish t payload 0 none) s.subscriptions in
      let size : length (map binary packets) ≡ length s.subscriptions =
        length-map binary packets
        ∙ length-map (λ t. build_publish t payload 0 none) s.subscriptions in
      if_true s.notifications_open _ _ o
      ∙ if_true s.connected _ _ c
      ∙ ap (λ (l : List Bytes). after s (send_all s.sender (map binary l)))
          (publishes_for msg s.subscriptions s.user_id payload k f j)
      ∙ ap (after s)
          (send_all-room s.sender.sent s.sender.room (map binary packets) (omega (arith, size, r)))
      ∙ ap
          (λ (n : ℕ). go (record s {
            sender = record {
              sent = s.sender.sent ++ map binary packets;
              room = s.sender.room - n;
            };
          }))
          size

  -- A notification for another user, or of a screen share, changes nothing of the session and sends
  -- nothing.
  pub private_to_user :
      (s : Session) (msg : WsMessage)
      → ¬ IsFor msg s.user_id
      → step to_json generation authenticate now s (notification (message msg)) ≡ go s
  unfolding step on_notification push_message after send_all
  private_to_user s msg n =
      if_intro (λ (f : Flow). f ≡ go s) s.notifications_open _ _
        (λ o.
          if_intro (λ (f : Flow). f ≡ go s) s.connected _ _
            (λ c.
              ap (λ (l : List Bytes). after s (send_all s.sender (map binary l)))
                (publishes_not_for msg s.subscriptions s.user_id n))
            (λ c. refl))
        (λ o. refl)
