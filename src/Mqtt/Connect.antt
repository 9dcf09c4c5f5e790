-- ===== src/Mqtt/Connect.antt =====
-- src/mqtt_ws.rs, `connect_token`: the checks that a CONNECT passes before its token is looked at.
pub mod Written
pub mod Render
use remarkable_server.Base.{
  ℕ, ◌+◌, ◌*◌, ◌/◌, ◌%◌, ◌==◌, leb, if◌then◌else◌, Bool, true, false, not, ◌&&◌, ◌||◌, Option, none,
  some, [], ◌∷◌, length, drop, Bytes, bytes_eq, codes,
}
use remarkable_server.Base.Utf8.{is_utf8}
use remarkable_server.Base.Result.{Result, ok, err, ok_or, refuse_if, ◌>>=◌, ◌>>◌}
use remarkable_server.Mqtt.Codec.{parse_mqtt_bytes, parse_mqtt_string}

-- `enum ConnectError`
pub data ConnectError : Type 0 where
  malformed unsupported_level : ConnectError

-- `body.get(at..)`
abbrev pub get_from : Bytes → ℕ → Option Bytes
get_from body at = if leb at (length body) then some (drop at body) else none

-- `body.get(at..at + 4)`, of which the level and the flags are read (the rest is the keep alive).
abbrev pub level_flags : Bytes → Option (ℕ × ℕ)
level_flags (level ∷ flags ∷ _ ∷ _ ∷ _) = some (level, flags)
level_flags _ = none

abbrev pub mqtt_name : Bytes
mqtt_name = codes "MQTT"

abbrev pub mqisdp_name : Bytes
mqisdp_name = codes "MQIsdp"

-- `match (protocol, level)`
unfoldable pub check_protocol : Bytes → ℕ → Result ConnectError (Unit {0})
check_protocol protocol level =
    let is_mqtt = bytes_eq protocol mqtt_name in
    let is_mqisdp = bytes_eq protocol mqisdp_name in
    if (is_mqtt && level == 4) || (is_mqisdp && level == 3)
    then ok tt
    else if is_mqtt || is_mqisdp
    then err unsupported_level
    else err malformed

-- The closure `field`: the field at `at`, and the place behind it.
pub field : Bytes → ℕ → Bool → Result ConnectError (Bytes × ℕ)
field body at string = do
  rest ← ok_or malformed (get_from body at)
  (b, n) ← ok_or malformed (parse_mqtt_bytes rest)
  refuse_if (string && not (is_utf8 b)) malformed
  ok (b, at + n)

-- A field that is there only if its flag is set.
pub optional_field : Bytes → ℕ → Bool → Bool → Result ConnectError (Option Bytes × ℕ)
optional_field body at present string =
    if present then (do (b, at') ← field body at string; ok (some b, at')) else ok (none, at)

-- The will's topic and message.
pub skip_will : Bytes → ℕ → Bool → Result ConnectError ℕ
skip_will body at will =
    if will
    then (do (_, at₁) ← field body at true; (_, at₂) ← field body at₁ false; ok at₂)
    else ok at

-- `String::from_utf8(..).ok()`
abbrev utf8_only : Bytes → Option Bytes
utf8_only b = if is_utf8 b then some b else none

-- `password.filter(|p| !p.is_empty()).or(username)`, read as UTF-8 or dropped.
pub pick_token : Option Bytes → Option Bytes → Option Bytes
pick_token (some (p ∷ ps)) username = utf8_only (p ∷ ps)
pick_token _ (some username) = utf8_only username
pick_token _ none = none

-- The part from the client id on, under the flags that say what is there.
pub connect_fields : Bytes → ℕ → Bool → Bool → Bool → Result ConnectError (Option Bytes)
unfolding field optional_field skip_will pick_token
connect_fields body at will username_flag password_flag = do
  (_, at₁) ← field body at true
  at₂ ← skip_will body at₁ will
  (username, at₃) ← optional_field body at₂ username_flag true
  (password, at₄) ← optional_field body at₃ password_flag false
  refuse_if (not (at₄ == length body)) malformed
  ok (pick_token password username)

-- Reserved bit, will options without a will, a password without a username.
pub bad_flags : ℕ → Bool
bad_flags flags =
    flags % 2 == 1
    || (not (flags / 4 % 2 == 1) && not (flags / 8 % 8 == 0))
    || (flags / 64 % 2 == 1 && not (flags / 128 % 2 == 1))

unfoldable pub connect_token : Bytes → Result ConnectError (Option Bytes)
unfolding check_protocol bad_flags connect_fields
connect_token body = do
  (protocol, at) ← ok_or malformed (parse_mqtt_string body)
  rest ← ok_or malformed (get_from body at)
  (level, flags) ← ok_or malformed (level_flags rest)
  check_protocol protocol level
  refuse_if (bad_flags flags) malformed
  connect_fields body (at + 4) (flags / 4 % 2 == 1) (flags / 128 % 2 == 1) (flags / 64 % 2 == 1)
