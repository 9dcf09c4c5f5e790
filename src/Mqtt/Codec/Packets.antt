-- ===== src/Mqtt/Codec/Packets.antt =====
-- src/mqtt_ws.rs: the packets that the server builds are whole packets, and hold what was put in.
use remarkable_server.Base.{
  ℕ, suc, ◌+◌, ◌*◌, ◌/◌, ◌%◌, ◌<◌, ◌≡◌, refl, Option, none, some, [], ◌∷◌, ◌++◌, append_assoc,
  length, length-append, take-length_append, drop-length_append, drop, ltb, Bytes, arith,
  if◌then◌else◌,
}
use remarkable_server.Mqtt.Codec.{
  push_remaining_length, packet_body, parse_mqtt_bytes, be16, packet_id_bytes, build_publish,
  build_suback,
}
use remarkable_server.Mqtt.Codec.Length.{push_remaining_length-append, parse-push_remaining_length}

-- A frame of a type byte, the length of `body`, and `body` is one whole packet.
pub packet_body-frame :
    (head n : ℕ) (body : Bytes)
    → length body ≡ n
    → n < 268435456
    → packet_body (push_remaining_length (head ∷ []) n ++ body) ≡ some body
packet_body-frame head n body e h =
    let digits = push_remaining_length [] n in
    rw push_remaining_length-append (
      unfold packet_body in
      rw (parse-push_remaining_length n body h)
        (rw (drop-length_append digits body) (ground (arith, length-append digits body, e))))

-- The frame of a packet built in pieces.
frame-pieces :
    (head n : ℕ) (a b c d : Bytes)
    → length (a ++ (b ++ (c ++ d))) ≡ n
    → n < 268435456
    → packet_body ((((push_remaining_length (head ∷ []) n ++ a) ++ b) ++ c) ++ d)
      ≡ some (a ++ (b ++ (c ++ d)))
frame-pieces head n a b c d e h =
    simp append_assoc (packet_body-frame head n (a ++ (b ++ (c ++ d))) e h)

-- A PUBLISH that has a packet id exactly when its QoS is above 0 is one whole packet: its body is
-- the topic's length, the topic, the packet id and the payload.
pub packet_body-build_publish :
    (topic payload : Bytes) (qos : ℕ) (packet_id : Option ℕ)
    → length (packet_id_bytes packet_id) ≡ (if ltb 0 qos then 2 else 0)
    → 2 + length topic + length (packet_id_bytes packet_id) + length payload < 268435456
    → packet_body (build_publish topic payload qos packet_id)
      ≡ some (be16 (length topic) ++ (topic ++ (packet_id_bytes packet_id ++ payload)))
unfolding build_publish
packet_body-build_publish topic payload qos packet_id e h =
    frame-pieces (0x30 + 2 * qos) _ (be16 (length topic)) topic (packet_id_bytes packet_id) payload
      (simp length-append (omega (arith, e))) (ground arith)

-- A field behind its two-byte length is read back, whatever follows it.
pub parse_mqtt_bytes-be16 :
    (field rest : Bytes)
    → length field < 65536
    → parse_mqtt_bytes (be16 (length field) ++ (field ++ rest)) ≡ some (field, 2 + length field)
unfolding parse_mqtt_bytes
parse_mqtt_bytes-be16 field rest h =
    let e : length field / 256 % 256 * 256 + length field % 256 ≡ length field = omega arith in
    rw e (rw (take-length_append field rest) (ground (arith, length-append field rest)))

pub drop-be16 : (n k : ℕ) (l : Bytes) → drop (2 + k) (be16 n ++ l) ≡ drop k l
drop-be16 n k l = let e : 2 + k ≡ suc (suc k) = omega arith in rw e

-- A subscriber reads back the topic of a PUBLISH with QoS 0, and the payload is what follows it,
-- if the topic (below 2^16 bytes) and the packet (below 2^28, the topic's length of two bytes
-- included) are no longer than their length fields hold.
pub publish_roundtrip :
    (topic payload : Bytes)
    → length topic < 65536
    → 2 + length topic + length payload < 268435456
    → (body : Bytes) × (packet_body (build_publish topic payload 0 none) ≡ some body)
      × (parse_mqtt_bytes body ≡ some (topic, 2 + length topic))
      × (drop (2 + length topic) body ≡ payload)
publish_roundtrip topic payload t h = (
  be16 (length topic) ++ (topic ++ payload),
  packet_body-build_publish topic payload 0 none refl (omega arith),
  parse_mqtt_bytes-be16 topic payload t,
  rw drop-be16 (drop-length_append topic payload),
)

-- A SUBACK that fits in the length field is one whole packet: the packet id, then one return code
-- for each filter answered.
pub packet_body-build_suback :
    (packet_id : ℕ) (qos_levels : Bytes)
    → 2 + length qos_levels < 268435456
    → packet_body (build_suback packet_id qos_levels) ≡ some (be16 packet_id ++ qos_levels)
unfolding build_suback
packet_body-build_suback packet_id qos_levels h =
    simp append_assoc (packet_body-frame 0x90 _ (be16 packet_id ++ qos_levels) (omega arith) h)
