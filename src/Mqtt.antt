-- ===== src/Mqtt.antt =====
-- src/mqtt_ws.rs: MQTT 3.1.1 packets over a WebSocket, and the session that answers them.
pub mod Codec
pub mod Connect
pub mod Session
