-- ===== src/Notifications.antt =====
-- src/notifications.rs: the notification messages that the server makes, and which JSON WebSocket
-- they go to. Texts are byte strings. Ids and times come from outside, as a `Stamp`.
use remarkable_server.Base.{
  ℕ, Bool, true, false, not, ◌&&◌, Option, none, some, [], ◌∷◌, Bytes, bytes_eq, codes, ◌==◌,
  if◌then◌else◌,
}

-- `NotificationAttributes`
pub record Attributes : Type 0 where
  pub auth0_user_id : Bytes
  pub event : Bytes
  pub source_device_id : Bytes
  pub device_id : Option Bytes
  pub device_name : Option Bytes
  pub source_device_desc : Option Bytes
  pub id : Option Bytes
  pub parent : Option Bytes
  pub doc_type : Option Bytes
  pub version : Option Bytes
  pub visible_name : Option Bytes
  pub room_id : Option Bytes
  pub target_client_id : Option Bytes

-- `NotificationMessage`
pub record NotificationMessage : Type 0 where
  pub attributes : Attributes
  pub payload : Option Bytes
  pub message_id : Option Bytes
  pub message_id_2 : Option Bytes
  pub message_id_3 : Option Bytes
  pub publish_time : Option Bytes
  pub publish_time_2 : Option Bytes

pub record WsMessage : Type 0 where
  pub message : NotificationMessage
  pub subscription : Option Bytes

-- What the clock and the random generator give while one message is made.
pub record Stamp : Type 0 where
  pub uuid : Bytes
  pub uuid_2 : Bytes
  pub nanos : Bytes
  pub rfc3339 : Bytes

-- The generation is not part of the message.
unfoldable pub sync_complete : Stamp → ℕ → Bytes → Bytes → WsMessage
sync_complete now _ source_device_id auth0_user_id = record {
  message = record {
    attributes = record {
      auth0_user_id = auth0_user_id;
      event = codes "SyncComplete";
      source_device_id = source_device_id;
      device_id = none;
      device_name = none;
      source_device_desc = some (codes "local-server");
      id = none;
      parent = none;
      doc_type = none;
      version = none;
      visible_name = none;
      room_id = none;
      target_client_id = none;
    };
    payload = none;
    message_id = some now.uuid;
    message_id_2 = some now.uuid_2;
    message_id_3 = some now.nanos;
    publish_time = some now.rfc3339;
    publish_time_2 = some now.rfc3339;
  };
  subscription = some (codes "dummy-subscription");
}

-- `str::starts_with`
abbrev pub starts_with : Bytes → Bytes → Bool
starts_with text [] = true
starts_with [] (p ∷ ps) = false
starts_with (t ∷ ts) (p ∷ ps) = t == p && starts_with ts ps

abbrev pub is_screenshare : WsMessage → Bool
is_screenshare msg = starts_with msg.message.attributes.event (codes "Screenshare")

-- `match (target_client_id, device_id)`
abbrev for_device : Option Bytes → Option Bytes → Bool
for_device (some target) (some device) = bytes_eq target device
for_device _ _ = true

unfoldable pub delivers_to : WsMessage → Bytes → Option Bytes → Bool
delivers_to msg user_id device_id =
    let a = msg.message.attributes in
    if not (is_screenshare msg)
    then true
    else bytes_eq a.auth0_user_id user_id && for_device a.target_client_id device_id
