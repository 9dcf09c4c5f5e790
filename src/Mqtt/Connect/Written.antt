-- ===== src/Mqtt/Connect/Written.antt =====
-- A CONNECT as a client writes it (MQTT 3.1.1 section 3.1), and when it conforms.
use remarkable_server.Base.{
  ℕ, ◌+◌, ◌*◌, ◌<◌, Bool, true, false, Option, none, some, [], ◌∷◌, ◌++◌, length, Bytes, ◌≡◌,
}
use remarkable_server.Base.Utf8.{is_utf8}
use remarkable_server.Mqtt.Codec.{be16}

-- A field as it is written.
abbrev pub prefixed : Bytes → Bytes
prefixed b = be16 (length b) ++ b

-- The optional parts, each behind its flag.
pub record Will : Type 0 where
  pub topic : Bytes
  pub message : Bytes
  -- will QoS and retain, the flag bits 3 to 5
  pub options : ℕ

pub record Login : Type 0 where
  pub username : Bytes
  pub password : Option Bytes

pub record ConnectPacket : Type 0 where
  pub protocol : Bytes
  pub level : ℕ
  pub clean : Bool
  pub keep_alive_hi : ℕ
  pub keep_alive_lo : ℕ
  pub client_id : Bytes
  pub will : Option Will
  pub login : Option Login

abbrev pub bit : Bool → ℕ
bit true = 1
bit false = 0

abbrev pub has_will : Option Will → Bool
has_will none = false
has_will (some w) = true

abbrev pub will_options : Option Will → ℕ
will_options none = 0
will_options (some w) = w.options

abbrev pub username_of : Option Login → Option Bytes
username_of none = none
username_of (some l) = some l.username

abbrev pub password_of : Option Login → Option Bytes
password_of none = none
password_of (some l) = l.password

abbrev pub is_some : Option Bytes → Bool
is_some none = false
is_some (some b) = true

abbrev pub connect_flags : ConnectPacket → ℕ
connect_flags c =
    2 * bit c.clean
    + 4 * bit (has_will c.will)
    + 8 * will_options c.will
    + 64 * bit (is_some (password_of c.login))
    + 128 * bit (is_some (username_of c.login))

abbrev pub will_bytes : Option Will → Bytes
will_bytes none = []
will_bytes (some w) = prefixed w.topic ++ prefixed w.message

abbrev pub optional_bytes : Option Bytes → Bytes
optional_bytes none = []
optional_bytes (some b) = prefixed b

-- From the client id on.
abbrev pub render_fields : ConnectPacket → Bytes
render_fields c =
    prefixed c.client_id
    ++ (will_bytes c.will
        ++ (optional_bytes (username_of c.login) ++ (optional_bytes (password_of c.login) ++ [])))

-- From the protocol level on.
abbrev pub render_level : ConnectPacket → Bytes
render_level c = c.level ∷ connect_flags c ∷ c.keep_alive_hi ∷ c.keep_alive_lo ∷ render_fields c

unfoldable pub render : ConnectPacket → Bytes
render c = prefixed c.protocol ++ render_level c

abbrev pub IsText : Bytes → Type 0
IsText b = (length b < 65536) × (is_utf8 b ≡ true)

abbrev pub IsWill : Option Will → Type 0
IsWill none = Unit
IsWill (some w) = IsText w.topic × (length w.message < 65536) × (w.options < 8)

abbrev pub IsShort : Option Bytes → Type 0
IsShort none = Unit
IsShort (some b) = length b < 65536

abbrev pub IsLogin : Option Login → Type 0
IsLogin none = Unit
IsLogin (some l) = IsText l.username × IsShort l.password

-- What MQTT 3.1.1 asks of a CONNECT, but for the protocol and its level.
pub record IsConforming (c : ConnectPacket) : Type 0 where
  pub client_id : IsText c.client_id
  pub will : IsWill c.will
  pub login : IsLogin c.login
  pub protocol : IsText c.protocol
