-- ===== src/Mqtt/Session.antt =====
-- src/mqtt_ws.rs, `run_mqtt_session`: one step of the session loop for each thing that its
-- `select!` can receive. Logging is left out.
pub mod Subscribe
pub mod Invariant
pub mod Delivery
use remarkable_server.Base.{
  ℕ, zero, suc, ◌+◌, ◌*◌, ◌/◌, ◌%◌, ◌==◌, leb, ltb, if◌then◌else◌, Bool, true, false, not, ◌&&◌,
  ◌||◌, Option, none, some, List, [], ◌∷◌, ◌++◌, map, length, drop, get_elem?, Bytes, bytes_eq,
  codes, is_empty, any,
}
use remarkable_server.Base.Result.{Result, ok, err, ok_or, ◌>>=◌}
use remarkable_server.Notifications.{WsMessage, Stamp, sync_complete, is_screenshare}
use remarkable_server.Mqtt.Codec.{
  PacketType, connect, publish, subscribe, pingreq, disconnect, packet_type, packet_body,
  parse_remaining_length, parse_mqtt_string, build_connack, build_suback, build_pingresp,
  build_publish,
}
use remarkable_server.Mqtt.Connect.{ConnectError, malformed, unsupported_level, connect_token}

-- `Message`, as far as it is sent.
pub data Frame : Type 0 where
  binary : Bytes → Frame
  close : Option ℕ → Frame

-- The sink takes `room` more frames and fails from then on.
pub record Sender : Type 0 where
  pub sent : List Frame
  pub room : ℕ

pub send_with : ℕ → Sender → Frame → Bool × Sender
send_with zero s f = (false, s)
send_with (suc room) s f = (true, record { sent = s.sent ++ f ∷ []; room = room })

abbrev pub send : Sender → Frame → Bool × Sender
send s f = send_with s.room s f

-- The sends of a `for` loop that returns at the first failure.
pub send_all : Sender → List Frame → Bool × Sender
unfolding send_with
send_all s [] = (true, s)
send_all s (f ∷ fs) =
    let (delivered, s') = send s f in elim delivered [ true ↦ send_all s' fs | false ↦ (false, s') ]

-- The local variables of the loop.
pub record Session : Type 0 where
  pub connected : Bool
  pub user_id : Bytes
  pub subscriptions : List Bytes
  pub notifications_open : Bool
  pub sender : Sender

pub data Notif : Type 0 where
  message : WsMessage → Notif
  lagged : ℕ → Notif
  closed : Notif

-- What `select!` hands to one round.
pub data Event : Type 0 where
  received : Bytes → Event
  ping : Event
  pong : Event
  peer_close : Event
  text : Bytes → Event
  socket_error : Event
  stream_end : Event
  connect_deadline : Event
  revoked : Event
  notification : Notif → Event

-- The loop goes on, or it has ended; the sender shows what has been sent.
pub data Flow : Type 0 where
  go : Session → Flow
  stop : Session → Flow

abbrev pub server_user : Bytes
server_user = codes "local-user"

abbrev pub suback_failure : ℕ
suback_failure = 0x80

abbrev pub max_subscriptions : ℕ
max_subscriptions = 64

unfoldable pub is_concrete : Bytes → Bool
is_concrete filter = not (is_empty filter) && not (any (λ c. c == b'+' || c == b'#') filter)

abbrev pub contains : List Bytes → Bytes → Bool
contains l t = any (λ x. bytes_eq x t) l

-- The topics published on: concrete, each once, in order; `seen` holds those so far.
pub distinct : List Bytes → List Bytes → List Bytes
distinct seen [] = []
distinct seen (t ∷ ts) = elim (is_concrete t && not (contains seen t)) [
  | true ↦ t ∷ distinct (seen ++ t ∷ []) ts
  | false ↦ distinct seen ts
]

-- What a filter of a SUBSCRIBE does to the subscriptions, and its return code.
pub add_filter : List Bytes → Bytes → ℕ → List Bytes × ℕ
add_filter subs topic qos =
    if not (is_concrete topic)
    then (subs, suback_failure)
    else if contains subs topic
    then (subs, qos)
    else if leb max_subscriptions (length subs)
    then (subs, suback_failure)
    else (subs ++ topic ∷ [], qos)

-- The variables of the loop over a SUBSCRIBE's filters.
pub record Filters : Type 0 where
  pub offset : ℕ
  pub subs : List Bytes
  pub qos_results : Bytes

-- The loop's body for a filter that was read, up to the place behind it. Where the frame ends there,
-- no return code is pushed.
pub take_filter : Bytes → Filters → Bytes → ℕ → Option ℕ → Filters
unfolding add_filter
take_filter frame l topic behind none = record l { offset = behind }
take_filter frame l topic behind (some byte) =
    let (subs, code) = add_filter l.subs topic (byte % 4) in
    record { offset = behind + 1; subs = subs; qos_results = l.qos_results ++ code ∷ [] }

pub read_filter : Bytes → Filters → Option (Bytes × ℕ) → Option Filters
unfolding take_filter
read_filter frame l none = none
read_filter frame l (some (topic, topic_len)) =
    some (take_filter frame l topic (l.offset + topic_len) (get_elem? frame (l.offset + topic_len)))

-- One round of the loop; none where it ends.
pub filter_round : Bytes → ℕ → Filters → Option Filters
unfolding read_filter
filter_round frame end_ l =
    if ltb l.offset end_
    then read_filter frame l (parse_mqtt_string (drop l.offset frame))
    else none

-- `while offset < payload_start + remaining_len`, with fuel (`Subscribe.subscribe_loop_ends`).
pub subscribe_loop : ℕ → Bytes → ℕ → Filters → Filters
unfolding filter_round
subscribe_loop zero frame end_ l = l
subscribe_loop (suc fuel) frame end_ l = elim (filter_round frame end_ l) [
  | none ↦ l
  | some l' ↦ subscribe_loop fuel frame end_ l'
]

-- Go on if the sends were taken, else leave the loop.
pub after : Session → Bool × Sender → Flow
after s (true, sender) = go (record s { sender = sender })
after s (false, sender) = stop (record s { sender = sender })

-- Send one frame; a failure ends the loop.
pub reply : Session → Bytes → Flow
unfolding after send_with
reply s packet = after s (send s.sender (binary packet))

-- Send one frame and leave the loop, whatever the send says.
pub last_words : Session → Frame → Flow
unfolding send_with
last_words s f = stop (record s { sender = (send s.sender f).1 })

-- Screen share events, and those of another user than the session's and the server's.
pub not_for : WsMessage → Bytes → Bool
not_for msg user_id =
    let owner = msg.message.attributes.auth0_user_id in
    is_screenshare msg || (not (bytes_eq owner user_id) && not (bytes_eq owner server_user))

-- The handlers of the event loop. `to_json` is `serde_json::to_vec`, `authenticate` the CONNECT's
-- token to its user, `generation` the current root generation; `now` is the round's clock.
module _ (to_json : WsMessage → Option Bytes) (generation : ℕ)
    (authenticate : Option Bytes → Option Bytes) (now : Stamp) where
  unfoldable pub notification_publishes : WsMessage → List Bytes → Bytes → List Bytes
  unfolding distinct not_for
  notification_publishes msg subs user_id = if not_for msg user_id then [] else elim (to_json msg) [
    | none ↦ []
    | some payload ↦ map (λ t. build_publish t payload 0 none) (distinct [] subs)
  ]

  -- `for packet in notification_publishes(..) { if send fails { return } }`
  pub push_message : Session → WsMessage → List Bytes → Flow
  unfolding notification_publishes after send_all
  push_message s msg topics =
      after s (send_all s.sender (map binary (notification_publishes msg topics s.user_id)))

  -- The branch of `rx.recv()`.
  pub on_notification : Session → Notif → Flow
  unfolding push_message
  on_notification s (message msg) = if s.connected then push_message s msg s.subscriptions else go s
  on_notification s (lagged n) =
      if s.connected
      then push_message s (sync_complete now generation (codes "local-server") s.user_id)
          s.subscriptions
      else go s
  on_notification s closed = go (record s { notifications_open = false })

  pub on_token : Session → Option Bytes → Flow
  unfolding reply last_words
  on_token s token = elim (authenticate token) [
    | none ↦ last_words s (binary (build_connack false 5))
    | some user ↦ reply (record s { user_id = user; connected = true }) (build_connack false 0)
  ]

  pub on_connect_result : Session → Result ConnectError (Option Bytes) → Flow
  unfolding on_token
  on_connect_result s (err malformed) = stop s
  on_connect_result s (err unsupported_level) = last_words s (binary (build_connack false 1))
  on_connect_result s (ok token) = on_token s token

  -- `PacketType::Connect`
  pub on_connect : Session → Bytes → Flow
  unfolding on_connect_result
  on_connect s frame =
      if s.connected
      then stop s
      else on_connect_result s (do body ← ok_or malformed (packet_body frame); connect_token body)

  -- A fresh SyncComplete on each topic that is new, if the SUBACK could be sent.
  pub catch_up : List Bytes → Flow → Flow
  unfolding push_message
  catch_up fresh (stop s) = stop s
  catch_up fresh (go s) =
      push_message s (sync_complete now generation (codes "local-server") s.user_id) fresh

  -- The answer to a SUBSCRIBE: the SUBACK, and what `catch_up` sends.
  pub answer_subscribe : Session → ℕ → List Bytes → Bytes → Flow
  unfolding reply catch_up
  answer_subscribe s packet_id subs qos_results =
      catch_up (drop (length s.subscriptions) subs)
        (reply (record s { subscriptions = subs }) (build_suback packet_id qos_results))

  -- The part of a SUBSCRIBE from its packet id on, which stands at `payload_start`.
  pub on_subscribe_payload : Session → Bytes → ℕ → ℕ → Bytes → Flow
  unfolding answer_subscribe subscribe_loop
  on_subscribe_payload s frame remaining_len payload_start (hi ∷ lo ∷ _) =
      let l =
        subscribe_loop (length frame) frame (payload_start + remaining_len)
          (record { offset = payload_start + 2; subs = s.subscriptions; qos_results = [] }) in
      answer_subscribe s (hi * 256 + lo) l.subs l.qos_results
  on_subscribe_payload s frame remaining_len payload_start _ = go s

  -- `PacketType::Subscribe`
  pub on_subscribe : Session → Bytes → Flow
  unfolding on_subscribe_payload
  on_subscribe s frame = elim (parse_remaining_length (drop 1 frame)) [
    | none ↦ go s
    | some (remaining_len, len_bytes) ↦
        on_subscribe_payload s frame remaining_len (1 + len_bytes) (drop (1 + len_bytes) frame)
  ]

  pub on_packet : Session → Bytes → PacketType → Flow
  unfolding on_connect on_subscribe reply
  on_packet s frame connect = on_connect s frame
  on_packet s frame subscribe = on_subscribe s frame
  on_packet s frame pingreq = reply s build_pingresp
  on_packet s frame disconnect = stop s
  on_packet s frame _ = go s

  -- The packet's type is looked at first: before a CONNECT was accepted any other ends the session.
  pub on_kind : Session → Bytes → Option PacketType → Flow
  unfolding on_packet
  on_kind s frame none = if s.connected then go s else stop s
  on_kind s frame (some connect) = on_packet s frame connect
  on_kind s frame (some other) = if s.connected then on_packet s frame other else stop s

  -- `Ok(Message::Binary(data))`
  pub on_binary : Session → Bytes → Flow
  unfolding on_kind
  on_binary s [] = if s.connected then go s else stop s
  on_binary s (head ∷ tail) = on_kind s (head ∷ tail) (packet_type (head / 16))

  -- One round of the loop. A `select!` branch whose guard is false is not taken, and the revocation
  -- is pending until a CONNECT was accepted.
  unfoldable pub step : Session → Event → Flow
  unfolding on_binary on_notification last_words
  step s (received frame) = on_binary s frame
  step s ping = go s
  step s pong = go s
  step s peer_close = stop s
  step s (text _) = last_words s (close (some 1003))
  step s socket_error = stop s
  step s stream_end = stop s
  step s connect_deadline = if s.connected then go s else last_words s (close none)
  step s revoked = if s.connected then last_words s (close none) else go s
  step s (notification n) = if s.notifications_open then on_notification s n else go s

-- The state at the start of `run_mqtt_session`, with a sink that takes `room` frames.
abbrev pub initial : ℕ → Session
initial room = record {
  connected = false;
  user_id = [];
  subscriptions = [];
  notifications_open = true;
  sender = record { sent = []; room = room };
}
