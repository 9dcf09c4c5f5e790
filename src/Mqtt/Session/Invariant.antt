-- ===== src/Mqtt/Session/Invariant.antt =====
-- src/mqtt_ws.rs: what holds of a session after any rounds of its loop.
use remarkable_server.Base.{
  ℕ, ◌+◌, ◌≡◌, refl, Bool, true, false, Option, none, some, List, [], ◌∷◌, length, drop, arith,
  Option-cases, if_intro, inl, inr, codes, Bytes,
}
use remarkable_server.Base.Result.{Result, ok, err}
use remarkable_server.Notifications.{WsMessage, Stamp, sync_complete}
use remarkable_server.Mqtt.Codec.{
  PacketType, connect, subscribe, pingreq, disconnect, parse_remaining_length,
}
use remarkable_server.Mqtt.Connect.{ConnectError, malformed, unsupported_level}
use remarkable_server.Mqtt.Session.{
  Sender, Session, Event, received, ping, pong, peer_close, text, socket_error, stream_end,
  connect_deadline, revoked, notification, Notif, message, lagged, closed, Flow, go, stop,
  push_message, on_notification, last_words, reply, after, on_token, on_connect_result, on_connect,
  catch_up, answer_subscribe, on_subscribe_payload, on_subscribe, on_packet, on_kind, on_binary,
  step, initial,
}
use remarkable_server.Mqtt.Session.Subscribe.{IsSubs, subscribe_loop-IsSubs}

abbrev pub state_of : Flow → Session
state_of (go s) = s
state_of (stop s) = s

module _ (to_json : WsMessage → Option Bytes) (generation : ℕ)
    (authenticate : Option Bytes → Option Bytes) where
  -- The subscriptions are distinct, concrete and at most 64; a session that is not connected has
  -- none and has sent nothing; a connected one is the user's that its token authenticated.
  pub record IsValid (s : Session) : Type 0 where
    pub subs : IsSubs s.subscriptions
    pub silent : s.connected ≡ false → (s.sender.sent ≡ []) × (s.subscriptions ≡ [])
    pub authenticated :
        s.connected ≡ true → (token : Option Bytes) × (authenticate token ≡ some s.user_id)

  -- The loop goes on in a valid state, or has ended with valid subscriptions.
  abbrev pub FlowIsValid : Flow → Type 0
  FlowIsValid (go s) = IsValid s
  FlowIsValid (stop s) = IsSubs s.subscriptions

  -- With another sender, a connected session stays valid.
  with_sender :
      (s : Session) (sender : Sender)
      → IsValid s
      → s.connected ≡ true
      → IsValid (record s { sender = sender })
  with_sender s sender v c = record {
    subs = v.subs;
    silent = λ n. cc;
    authenticated = v.authenticated;
  }

  after-IsValid :
      (s : Session) (r : Bool × Sender) → IsValid s → s.connected ≡ true → FlowIsValid (after s r)
  unfolding after
  after-IsValid s (true, sender) v c = with_sender s sender v c
  after-IsValid s (false, sender) v c = v.subs

  module _ (now : Stamp) where
    push_message-IsValid :
        (s : Session) (msg : WsMessage) (topics : List Bytes)
        → IsValid s
        → s.connected ≡ true
        → FlowIsValid (push_message to_json generation authenticate now s msg topics)
    unfolding push_message
    push_message-IsValid s msg topics v c = after-IsValid s _ v c

    on_notification-IsValid :
        (s : Session) (n : Notif)
        → IsValid s
        → FlowIsValid (on_notification to_json generation authenticate now s n)
    unfolding on_notification
    on_notification-IsValid s (message msg) v =
        if_intro FlowIsValid s.connected _ _ (push_message-IsValid s msg s.subscriptions v) (λ n. v)
    on_notification-IsValid s (lagged k) v =
        if_intro FlowIsValid s.connected _ _
          (push_message-IsValid s (sync_complete now generation (codes "local-server") s.user_id)
            s.subscriptions v)
          (λ n. v)
    on_notification-IsValid s closed v = record {
      subs = v.subs;
      silent = v.silent;
      authenticated = v.authenticated;
    }

    on_token-IsValid :
        (s : Session) (token : Option Bytes)
        → IsValid s
        → FlowIsValid (on_token to_json generation authenticate now s token)
    unfolding on_token reply last_words
    on_token-IsValid s token v = elim (Option-cases (authenticate token)) [
      | inl refused ↦ rw (refused, on_token) v.subs
      | inr (user, accepted) ↦
          rw (accepted, on_token)
            (after-IsValid (record s { user_id = user; connected = true }) _
              (record { subs = v.subs; silent = λ n. cc; authenticated = λ c. (token, accepted) })
              refl)
    ]

    on_connect_result-IsValid :
        (s : Session) (r : Result ConnectError (Option Bytes))
        → IsValid s
        → FlowIsValid (on_connect_result to_json generation authenticate now s r)
    unfolding on_connect_result last_words
    on_connect_result-IsValid s (err malformed) v = v.subs
    on_connect_result-IsValid s (err unsupported_level) v = v.subs
    on_connect_result-IsValid s (ok token) v = on_token-IsValid s token v

    on_connect-IsValid :
        (s : Session) (frame : Bytes)
        → IsValid s
        → FlowIsValid (on_connect to_json generation authenticate now s frame)
    unfolding on_connect
    on_connect-IsValid s frame v =
        if_intro FlowIsValid s.connected _ _ (λ c. v.subs) (λ n. on_connect_result-IsValid s _ v)

    -- What is pushed behind the SUBACK.
    catch_up-IsValid :
        (s : Session) (r : Bool × Sender) (fresh : List Bytes)
        → IsValid s
        → s.connected ≡ true
        → FlowIsValid (catch_up to_json generation authenticate now fresh (after s r))
    unfolding catch_up after
    catch_up-IsValid s (true, sender) fresh v c =
        push_message-IsValid (record s { sender = sender })
          (sync_complete now generation (codes "local-server") s.user_id) fresh
          (with_sender s sender v c) c
    catch_up-IsValid s (false, sender) fresh v c = v.subs

    answer_subscribe-IsValid :
        (s : Session) (packet_id : ℕ) (subs : List Bytes) (codes : Bytes)
        → IsValid s
        → s.connected ≡ true
        → IsSubs subs
        → FlowIsValid (answer_subscribe to_json generation authenticate now s packet_id subs codes)
    unfolding answer_subscribe reply
    answer_subscribe-IsValid s packet_id subs codes v c k =
        catch_up-IsValid (record s { subscriptions = subs }) _ _
          (record { subs = k; silent = λ n. cc; authenticated = v.authenticated }) c

    subscribe_packet-IsValid :
        (s : Session) (frame : Bytes) (remaining_len payload_start : ℕ) (payload : Bytes)
        → IsValid s
        → s.connected ≡ true
        → FlowIsValid (
            on_subscribe_payload to_json generation authenticate now s frame remaining_len
              payload_start payload)
    unfolding on_subscribe_payload
    subscribe_packet-IsValid s frame remaining_len payload_start [] v c = v
    subscribe_packet-IsValid s frame remaining_len payload_start (hi ∷ []) v c = v
    subscribe_packet-IsValid s frame remaining_len payload_start (hi ∷ lo ∷ _) v c =
        answer_subscribe-IsValid s _ _ _ v c (subscribe_loop-IsSubs (length frame) frame _ _ v.subs)

    on_subscribe-IsValid :
        (s : Session) (frame : Bytes)
        → IsValid s
        → s.connected ≡ true
        → FlowIsValid (on_subscribe to_json generation authenticate now s frame)
    unfolding on_subscribe
    on_subscribe-IsValid s frame v c = elim (Option-cases (parse_remaining_length (drop 1 frame))) [
      | inl bad ↦ rw (bad, on_subscribe) v
      | inr ((len, n), good) ↦
          rw (good, on_subscribe) (subscribe_packet-IsValid s frame len (1 + n) _ v c)
    ]

    on_packet-IsValid :
        (s : Session) (frame : Bytes) (kind : PacketType)
        → IsValid s
        → s.connected ≡ true
        → FlowIsValid (on_packet to_json generation authenticate now s frame kind)
    unfolding on_packet reply
    on_packet-IsValid s frame connect v c = on_connect-IsValid s frame v
    on_packet-IsValid s frame subscribe v c = on_subscribe-IsValid s frame v c
    on_packet-IsValid s frame pingreq v c = after-IsValid s _ v c
    on_packet-IsValid s frame disconnect v c = v.subs
    on_packet-IsValid s frame _ v c = v

    on_kind-IsValid :
        (s : Session) (frame : Bytes) (kind : Option PacketType)
        → IsValid s
        → FlowIsValid (on_kind to_json generation authenticate now s frame kind)
    unfolding on_kind on_packet
    on_kind-IsValid s frame none v = if_intro FlowIsValid s.connected _ _ (λ c. v) (λ n. v.subs)
    on_kind-IsValid s frame (some connect) v = on_connect-IsValid s frame v
    on_kind-IsValid s frame (some other) v =
        if_intro FlowIsValid s.connected _ _ (on_packet-IsValid s frame other v) (λ n. v.subs)

    -- One round of the loop keeps the session valid, whatever it receives.
    pub step-IsValid :
        (s : Session) (e : Event)
        → IsValid s
        → FlowIsValid (step to_json generation authenticate now s e)
    unfolding step on_binary last_words
    step-IsValid s (received []) v = if_intro FlowIsValid s.connected _ _ (λ c. v) (λ n. v.subs)
    step-IsValid s (received (head ∷ tail)) v = on_kind-IsValid s (head ∷ tail) _ v
    step-IsValid s ping v = v
    step-IsValid s pong v = v
    step-IsValid s peer_close v = v.subs
    step-IsValid s (text _) v = v.subs
    step-IsValid s socket_error v = v.subs
    step-IsValid s stream_end v = v.subs
    step-IsValid s connect_deadline v = if_intro FlowIsValid s.connected _ _ (λ c. v) (λ n. v.subs)
    step-IsValid s revoked v = if_intro FlowIsValid s.connected _ _ (λ c. v.subs) (λ n. v)
    step-IsValid s (notification n) v =
        if_intro FlowIsValid s.notifications_open _ _ (λ o. on_notification-IsValid s n v) (λ n. v)

  -- The loop over a sequence of rounds, each with its clock; it stops where a round stops it.
  pub run : Session → List (Stamp × Event) → Flow
  run s [] = go s
  run s ((now, e) ∷ rest) = elim (step to_json generation authenticate now s e) [
    | stop s' ↦ stop s'
    | go s' ↦ run s' rest
  ]

  run-FlowIsValid :
      (f : Flow) (rest : List (Stamp × Event))
      → FlowIsValid f
      → ((s : Session) → IsValid s → FlowIsValid (run s rest))
      → FlowIsValid (elim f [ stop s' ↦ stop s' | go s' ↦ run s' rest ])
  run-FlowIsValid (stop s) rest v next = v
  run-FlowIsValid (go s) rest v next = next s v

  run-IsValid :
      (s : Session) (rounds : List (Stamp × Event)) → IsValid s → FlowIsValid (run s rounds)
  unfolding run
  run-IsValid s [] v = v
  run-IsValid s ((now, e) ∷ rest) v =
      run-FlowIsValid _ rest (step-IsValid now s e v) (λ s' v'. run-IsValid s' rest v')

  -- From its start an MQTT session, whatever it receives and however many frames its sink takes,
  -- keeps its subscriptions distinct, concrete and at most 64; while no CONNECT was accepted and
  -- the loop goes on, it has sent nothing and has no subscription; and a connected one that goes on
  -- has a user that `authenticate` gave for some token.
  pub session-IsValid :
      (room : ℕ) (rounds : List (Stamp × Event)) → FlowIsValid (run (initial room) rounds)
  session-IsValid room rounds = run-IsValid (initial room) rounds (record {
    subs = record { distinct = tt; concrete = tt; capped = omega arith };
    silent = λ n. (refl, refl);
    authenticated = λ c. cc;
  })
