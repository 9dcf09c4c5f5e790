-- ===== src/Examples/Sessions.antt =====
-- src/mqtt_ws.rs on concrete sessions and packets.
use remarkable_server.Base.{
  ◌≡◌, ◌≢◌, refl, Option, none, some, List, [], ◌∷◌, ◌++◌, Bytes, codes, true, false, inl, inr,
  arith, length, drop, bytes_eq_iff,
}
use remarkable_server.Base.Result.{ok}
use remarkable_server.Base.Utf8.{is_utf8}
use remarkable_server.Notifications.{WsMessage, Stamp, sync_complete}
use remarkable_server.Mqtt.Codec.{
  push_remaining_length, parse_mqtt_bytes, packet_body, build_publish,
}
use remarkable_server.Mqtt.Codec.Packets.{publish_roundtrip}
use remarkable_server.Mqtt.Connect.{connect_token, check_protocol}
use remarkable_server.Mqtt.Connect.Written.{ConnectPacket, render}
use remarkable_server.Mqtt.Connect.Render.{connect_token-render}
use remarkable_server.Mqtt.Session.{
  Session, Event, received, notification, message, initial, is_concrete, step, go, binary,
  subscribe_loop, filter_round, Filters,
}
use remarkable_server.Mqtt.Session.Subscribe.{subscribe_loop_ends, IsSubs}
use remarkable_server.Mqtt.Session.Invariant.{session-IsValid, FlowIsValid, run}
use remarkable_server.Mqtt.Session.Delivery.{delivers, private_to_user, IsFor}

abbrev clock : Stamp
clock = record { uuid = codes "u1"; uuid_2 = codes "u2"; nanos = codes "1"; rfc3339 = codes "t" }

-- A stand-in for the JSON of a message: the event's name.
abbrev event_json : WsMessage → Option Bytes
event_json msg = some msg.message.attributes.event

abbrev accept_known : Option Bytes → Option Bytes
accept_known none = none
accept_known (some token) = some (codes "ann")

-- A CONNECT with the token "t" as the password, and a SUBSCRIBE to "a".
abbrev hello : ConnectPacket
hello = record {
  protocol = codes "MQTT";
  level = 4;
  clean = true;
  keep_alive_hi = 0;
  keep_alive_lo = 60;
  client_id = codes "tablet";
  will = none;
  login = some (record { username = codes "u"; password = some (codes "t") });
}

abbrev connect_frame : Bytes
connect_frame = push_remaining_length (0x10 ∷ []) (length (render hello)) ++ render hello

abbrev subscribe_frame : Bytes
subscribe_frame = 0x82 ∷ 6 ∷ 0 ∷ 7 ∷ 0 ∷ 1 ∷ 97 ∷ 0 ∷ []

abbrev rounds : List (Stamp × Event)
rounds = (clock, received connect_frame) ∷ (clock, received subscribe_frame) ∷ []

session-IsValid_example :
    FlowIsValid event_json 1 accept_known (run event_json 1 accept_known (initial 9) rounds)
session-IsValid_example = session-IsValid event_json 1 accept_known 9 rounds

-- A connected session of ann, subscribed to "a".
abbrev listening : Session
listening = record {
  connected = true;
  user_id = codes "ann";
  subscriptions = codes "a" ∷ [];
  notifications_open = true;
  sender = record { sent = []; room = 2 };
}

abbrev for_ann : WsMessage
for_ann = sync_complete clock 1 (codes "dev") (codes "ann")

abbrev for_bob : WsMessage
for_bob = sync_complete clock 1 (codes "dev") (codes "bob")

listening-IsSubs : IsSubs listening.subscriptions
unfolding is_concrete
listening-IsSubs = record { distinct = (refl, tt); concrete = (refl, tt); capped = omega arith }

for_ann-IsFor : IsFor for_ann (codes "ann")
unfolding sync_complete
for_ann-IsFor = (refl, inl refl)

delivers_example :
    step event_json 1 accept_known clock listening (notification (message for_ann))
    ≡ go (record listening {
      sender = record {
        sent = binary (build_publish (codes "a") (codes "SyncComplete") 0 none) ∷ [];
        room = 1;
      };
    })
unfolding sync_complete
delivers_example =
    delivers event_json 1 accept_known clock listening for_ann (codes "SyncComplete") refl refl
      listening-IsSubs for_ann-IsFor refl (omega arith)

false_≢_true : false ≢ true
false_≢_true h = cc

for_bob-not : ¬ IsFor for_bob (codes "ann")
unfolding sync_complete
for_bob-not f = elim f.1 [
  | inl e ↦ false_≢_true ((bytes_eq_iff (codes "bob") (codes "ann")).1 e)
  | inr e ↦ false_≢_true ((bytes_eq_iff (codes "bob") (codes "local-user")).1 e)
]

private_to_user_example :
    step event_json 1 accept_known clock listening (notification (message for_bob)) ≡ go listening
private_to_user_example =
    private_to_user event_json 1 accept_known clock listening for_bob for_bob-not

connect_token-render_example : connect_token (render hello) ≡ ok (some (codes "t"))
unfolding is_utf8 check_protocol render connect_token
connect_token-render_example =
    connect_token-render hello
      (record {
        client_id = (omega arith, refl);
        will = tt;
        login = ((omega arith, refl), omega arith);
        protocol = (omega arith, refl);
      })
      refl

abbrev at_start : Filters
at_start = record { offset = 4; subs = []; qos_results = [] }

subscribe_loop_ends_example :
    (filter_round subscribe_frame 8 (subscribe_loop 8 subscribe_frame 8 at_start) ≡ none)
    × (subscribe_loop 8 subscribe_frame 8 at_start ≡ subscribe_loop 5 subscribe_frame 8 at_start)
subscribe_loop_ends_example =
    subscribe_loop_ends 8 5 subscribe_frame 8 at_start (omega arith) (omega arith) (omega arith)

publish_roundtrip_example :
    (body : Bytes) × (packet_body (build_publish (codes "a") (codes "hi") 0 none) ≡ some body)
    × (parse_mqtt_bytes body ≡ some (codes "a", 3))
    × (drop 3 body ≡ codes "hi")
publish_roundtrip_example = publish_roundtrip (codes "a") (codes "hi") (omega arith) (omega arith)
