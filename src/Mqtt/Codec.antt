-- ===== src/Mqtt/Codec.antt =====
-- src/mqtt_ws.rs, the packet codec: the remaining length, length-prefixed fields, and the packets
-- that the server builds. A byte is a number below 256, `usize` is ℕ (no sum here nears 2^64).
pub mod Length
pub mod Packets
use remarkable_server.Base.{
  ℕ, zero, suc, ◌+◌, ◌-◌, ◌*◌, ◌/◌, ◌%◌, ◌==◌, ltb, leb, if◌then◌else◌, Bool, true, false, Option,
  none, some, List, [], ◌∷◌, ◌++◌, length, take, drop, Bytes, ◌>>=◌, arith,
}
use remarkable_server.Base.Utf8.{is_utf8}

-- `enum PacketType`
pub data PacketType : Type 0 where
  connect connack publish puback pubrec pubrel pubcomp : PacketType
  subscribe suback unsubscribe unsuback pingreq pingresp disconnect : PacketType

-- `TryFrom<u8> for PacketType`
unfoldable pub packet_type : ℕ → Option PacketType
packet_type v =
    if v == 1
    then some connect
    else if v == 2
    then some connack
    else if v == 3
    then some publish
    else if v == 4
    then some puback
    else if v == 5
    then some pubrec
    else if v == 6
    then some pubrel
    else if v == 7
    then some pubcomp
    else if v == 8
    then some subscribe
    else if v == 9
    then some suback
    else if v == 10
    then some unsubscribe
    else if v == 11
    then some unsuback
    else if v == 12
    then some pingreq
    else if v == 13
    then some pingresp
    else if v == 14
    then some disconnect
    else none

-- The loop of `parse_remaining_length`, on the bytes from `idx` on.
unfoldable pub parse_length_loop : ℕ → ℕ → ℕ → Bytes → Option (ℕ × ℕ)
parse_length_loop multiplier value idx [] = none
parse_length_loop multiplier value idx (byte ∷ rest) =
    let value' = value + byte % 128 * multiplier in
    let multiplier' = multiplier * 128 in
    let more = parse_length_loop multiplier' value' (idx + 1) rest in
    if byte / 128 % 2 == 0
    then some (value', idx + 1)
    else if ltb (128 * 128 * 128) multiplier'
    then none
    else more

unfoldable pub parse_remaining_length : Bytes → Option (ℕ × ℕ)
unfolding parse_length_loop
parse_remaining_length data' = parse_length_loop 1 0 0 data'

-- The frame is the type byte and what follows it.
unfoldable pub packet_body : Bytes → Option Bytes
packet_body [] = none
packet_body (head ∷ tail) = do
  (len, n) ← parse_remaining_length tail
  if length tail - n == len then some (drop n tail) else none

-- The loop of `push_remaining_length`, with fuel (`Length.push-loop_eq` shows that it never runs
-- out): `byte | 0x80` is a sum, since the byte is below 128.
unfoldable pub push_length_loop : ℕ → Bytes → ℕ → Bytes
push_length_loop zero packet len = packet
push_length_loop (suc fuel) packet len =
    let byte = len % 128 in
    let len' = len / 128 in
    let more = push_length_loop fuel (packet ++ (byte + 128) ∷ []) len' in
    if ltb 0 len' then more else packet ++ byte ∷ []

unfoldable pub push_remaining_length : Bytes → ℕ → Bytes
push_remaining_length packet len = push_length_loop (suc len) packet len

-- The field and the number of bytes that it takes. `u16::from_be_bytes` of two bytes.
unfoldable pub parse_mqtt_bytes : Bytes → Option (Bytes × ℕ)
parse_mqtt_bytes (hi ∷ lo ∷ rest) =
    let len = hi * 256 + lo in if ltb (length rest) len then none else some (take len rest, 2 + len)
parse_mqtt_bytes _ = none

unfoldable pub parse_mqtt_string : Bytes → Option (Bytes × ℕ)
unfolding parse_mqtt_bytes
parse_mqtt_string data' = do
  (b, n) ← parse_mqtt_bytes data'
  if is_utf8 b then some (b, n) else none

-- `to_be_bytes` of a `u16`; `as u8` cuts a larger length, as the source does for a topic.
abbrev pub be16 : ℕ → Bytes
be16 n = n / 256 % 256 ∷ n % 256 ∷ []

unfoldable pub build_connack : Bool → ℕ → Bytes
build_connack session_present return_code =
    0x20 ∷ 0x02 ∷ (if session_present then 0x01 else 0x00) ∷ return_code ∷ []

unfoldable pub build_suback : ℕ → Bytes → Bytes
build_suback packet_id qos_levels =
    (push_remaining_length (0x90 ∷ []) (2 + length qos_levels) ++ be16 packet_id) ++ qos_levels

unfoldable pub build_pingresp : Bytes
build_pingresp = 0xD0 ∷ 0x00 ∷ []

abbrev pub packet_id_bytes : Option ℕ → Bytes
packet_id_bytes none = []
packet_id_bytes (some id) = be16 id

-- `0x30 | (qos << 1)`: for a QoS below 8 the bits are apart.
unfoldable pub build_publish : Bytes → Bytes → ℕ → Option ℕ → Bytes
build_publish topic payload qos packet_id =
    let topic_len = length topic in
    let remaining_len = 2 + topic_len + length payload + (if ltb 0 qos then 2 else 0) in
    let header = push_remaining_length ((0x30 + 2 * qos) ∷ []) remaining_len in
    (((header ++ be16 topic_len) ++ topic) ++ packet_id_bytes packet_id) ++ payload
