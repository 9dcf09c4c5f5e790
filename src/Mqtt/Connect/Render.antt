-- ===== src/Mqtt/Connect/Render.antt =====
-- src/mqtt_ws.rs: what `connect_token` makes of a CONNECT as a client writes it.
use remarkable_server.Mqtt.Connect.Written.{
  prefixed, Will, Login, ConnectPacket, bit, has_will, will_options, username_of, password_of,
  is_some, connect_flags, will_bytes, optional_bytes, render_fields, render_level, render, IsText,
  IsWill, IsShort, IsLogin, IsConforming,
}
use remarkable_server.Base.{
  ◌∙◌, if◌then◌else◌, ℕ, ◌+◌, ◌*◌, ◌/◌, ◌%◌, ◌≤◌, ◌<◌, ◌==◌, Bool, true, false, Option, none, some,
  [], ◌∷◌, ◌++◌, length, drop, Bytes, ◌≡◌, refl, arith, length-drop, length-append,
  drop-length_append, append_assoc, drop-add, ap,
}
use remarkable_server.Base.Utf8.{is_utf8}
use remarkable_server.Base.Result.{ok}
use remarkable_server.Mqtt.Codec.{parse_mqtt_string}
use remarkable_server.Mqtt.Codec.Packets.{parse_mqtt_bytes-be16, drop-be16}
use remarkable_server.Mqtt.Connect.{
  field, get_from, skip_will, optional_field, check_protocol, bad_flags, connect_fields,
  connect_token, pick_token,
}

-- `rest` is what stands in `body` from `at` on.
pub record At (body : Bytes) (at : ℕ) (rest : Bytes) : Type 0 where
  pub inside : at ≤ length body
  pub suffix : drop at body ≡ rest

pub At-append :
    (body : Bytes) (at : ℕ) (xs rest : Bytes)
    → At body at (xs ++ rest)
    → At body (at + length xs) rest
At-append body at xs rest a = record {
  inside = omega (
    arith,
    a.inside,
    length-drop at body,
    ap (λ (l : Bytes). length l) a.suffix,
    length-append xs rest,
  );
  suffix = rw drop-add (rw a.suffix (drop-length_append xs rest));
}

At-nil : (body : Bytes) (at : ℕ) → At body at [] → at ≡ length body
At-nil body at a = omega (arith, length-drop at body, ap (λ (l : Bytes). length l) a.suffix)

get_from-At :
    {body : Bytes} {at : ℕ} {rest : Bytes} → At body at rest → get_from body at ≡ some rest
get_from-At a = ground arith

field-At :
    (body : Bytes) (at : ℕ) (string : Bool) (b rest : Bytes)
    → At body at (prefixed b ++ rest)
    → length b < 65536
    → (string ≡ true → is_utf8 b ≡ true)
    → (at' : ℕ) × (field body at string ≡ ok (b, at')) × At body at' rest
unfolding field
field-At body at string b rest a h u = (
  at + length (prefixed b),
  rw (get_from-At a) (rw append_assoc (rw (parse_mqtt_bytes-be16 b rest h) (ground arith))),
  At-append body at (prefixed b) rest a,
)

bit_test : (x : Bool) (n : ℕ) → n ≡ bit x → (n == 1) ≡ x
bit_test x n e = ground arith

flag_bits :
    (c w p u q b : ℕ)
    → c < 2
    → w < 2
    → p < 2
    → u < 2
    → q < 8
    → b ≡ 2 * c + 4 * w + 8 * q + 64 * p + 128 * u
    → (b / 4 % 2 ≡ w) × (b / 128 % 2 ≡ u) × (b / 64 % 2 ≡ p) × (b % 2 ≡ 0) × (b / 8 % 8 ≡ q)
flag_bits c w p u q b hc hw hp hu hq e = omega arith

bit-lt : (x : Bool) → bit x < 2
bit-lt x = ground arith

skip_will-At :
    (body : Bytes) (at : ℕ) (will : Option Will) (rest : Bytes)
    → At body at (will_bytes will ++ rest)
    → IsWill will
    → (at' : ℕ) × (skip_will body at (has_will will) ≡ ok at') × At body at' rest
unfolding skip_will
skip_will-At body at none rest a h = (at, refl, a)
skip_will-At body at (some w) rest a h =
    let (at₁, e₁, a₁) =
      field-At body at true w.topic (prefixed w.message ++ rest) (rw append_assoc at a) h.0.0
        (λ _. h.0.1) in
    let (at₂, e₂, a₂) = field-At body at₁ false w.message rest a₁ h.1 (λ e. cc) in
    (at₂, rw e₁ (rw e₂), a₂)

optional-At :
    (body : Bytes) (at : ℕ) (string : Bool) (o : Option Bytes) (rest : Bytes)
    → At body at (optional_bytes o ++ rest)
    → IsShort o
    → ((b : Bytes) → o ≡ some b → string ≡ true → is_utf8 b ≡ true)
    → (at' : ℕ) × (optional_field body at (is_some o) string ≡ ok (o, at')) × At body at' rest
unfolding optional_field
optional-At body at string none rest a h u = (at, refl, a)
optional-At body at string (some b) rest a h u =
    let (at₁, e₁, a₁) = field-At body at string b rest a h (u b refl) in (at₁, rw e₁, a₁)

will_options-lt : (w : Option Will) → IsWill w → will_options w < 8
will_options-lt w h = ground arith

check_flags :
    (c : ConnectPacket)
    → IsWill c.will
    → (connect_flags c / 4 % 2 ≡ bit (has_will c.will))
      × (connect_flags c / 128 % 2 ≡ bit (is_some (username_of c.login)))
      × (connect_flags c / 64 % 2 ≡ bit (is_some (password_of c.login)))
      × (connect_flags c % 2 ≡ 0)
      × (connect_flags c / 8 % 8 ≡ will_options c.will)
check_flags c h =
    flag_bits (bit c.clean) (bit (has_will c.will)) (bit (is_some (password_of c.login)))
      (bit (is_some (username_of c.login))) (will_options c.will) (connect_flags c) (bit-lt _)
      (bit-lt _) (bit-lt _) (bit-lt _) (will_options-lt c.will h) refl

good_flags : (c : ConnectPacket) → IsWill c.will → bad_flags (connect_flags c) ≡ false
unfolding bad_flags
good_flags c h = ground (arith, check_flags c h)

IsLogin-username : (l : Option Login) → IsLogin l → IsShort (username_of l)
IsLogin-username none h = tt
IsLogin-username (some l) h = h.0.0

IsLogin-utf8 :
    (l : Option Login) → IsLogin l → (b : Bytes) → username_of l ≡ some b → is_utf8 b ≡ true
IsLogin-utf8 none h b e = cc
IsLogin-utf8 (some l) h b e = cc (h.0.1)

IsLogin-password : (l : Option Login) → IsLogin l → IsShort (password_of l)
IsLogin-password none h = tt
IsLogin-password (some l) h = h.1

-- From the client id on.
connect_fields-At :
    (body : Bytes) (at : ℕ) (id : Bytes) (w : Option Will) (l : Option Login)
    → At body at (
        prefixed id
        ++ (will_bytes w
            ++ (optional_bytes (username_of l) ++ (optional_bytes (password_of l) ++ []))))
    → IsText id
    → IsWill w
    → IsLogin l
    → connect_fields body at (has_will w) (is_some (username_of l)) (is_some (password_of l))
      ≡ ok (pick_token (password_of l) (username_of l))
unfolding connect_fields
connect_fields-At body at id w l a hi hw hl =
    let (at₁, e₁, a₁) = field-At body at true id _ a hi.0 (λ _. hi.1) in
    let (at₂, e₂, a₂) = skip_will-At body at₁ w _ a₁ hw in
    let (at₃, e₃, a₃) =
      optional-At body at₂ true (username_of l) _ a₂ (IsLogin-username l hl)
        (λ b e f. IsLogin-utf8 l hl b e) in
    let (at₄, e₄, a₄) =
      optional-At body at₃ false (password_of l) _ a₃ (IsLogin-password l hl) (λ b e f. cc) in
    rw e₁ (rw e₂ (rw e₃ (rw e₄ (ground (arith, At-nil body at₄ a₄)))))

parse_mqtt_string-prefixed :
    (b rest : Bytes)
    → length b < 65536
    → is_utf8 b ≡ true
    → parse_mqtt_string (prefixed b ++ rest) ≡ some (b, 2 + length b)
unfolding parse_mqtt_string
parse_mqtt_string-prefixed b rest h u = rw (parse_mqtt_bytes-be16 b rest h) (rw u)

prefixed-At : (b rest : Bytes) → At (prefixed b ++ rest) (2 + length b) rest
prefixed-At b rest = record {
  inside = omega (arith, length-append b rest);
  suffix = rw drop-be16 (drop-length_append b rest);
}

-- The token of a login: its password if that is not empty, where it is text; its username otherwise.
abbrev pub password_or : Option Bytes → Bytes → Option Bytes
password_or none username = some username
password_or (some []) username = some username
password_or (some (p ∷ ps)) username = if is_utf8 (p ∷ ps) then some (p ∷ ps) else none

abbrev pub login_token : Option Login → Option Bytes
login_token none = none
login_token (some l) = password_or l.password l.username

pick-password_or :
    (password : Option Bytes) (username : Bytes)
    → is_utf8 username ≡ true
    → pick_token password (some username) ≡ password_or password username
unfolding pick_token
pick-password_or none username h = ground (arith, h)
pick-password_or (some []) username h = ground (arith, h)
pick-password_or (some (p ∷ ps)) username h = refl

pick_token-login :
    (l : Option Login) → IsLogin l → pick_token (password_of l) (username_of l) ≡ login_token l
unfolding pick_token
pick_token-login none h = refl
pick_token-login (some l) h = pick-password_or l.password l.username h.0.1

connect_token_picks :
    (c : ConnectPacket)
    → IsConforming c
    → check_protocol c.protocol c.level ≡ ok tt
    → connect_token (render c) ≡ ok (pick_token (password_of c.login) (username_of c.login))
unfolding connect_token render
connect_token_picks c h p =
    let flags = check_flags c h.will in
    let a = prefixed-At c.protocol (render_level c) in
    let fields =
      At-append (render c) (2 + length c.protocol)
        (c.level ∷ connect_flags c ∷ c.keep_alive_hi ∷ c.keep_alive_lo ∷ []) (render_fields c) a in
    rw (parse_mqtt_string-prefixed c.protocol (render_level c) h.protocol.0 h.protocol.1) (
      rw (get_from-At a) (
        rw p (
          rw (good_flags c h.will) (
            rw (bit_test _ _ (flags.0)) (
              rw (bit_test _ _ (flags.1)) (
                rw (bit_test _ _ (flags.2)) (
                  connect_fields-At (render c) (2 + length c.protocol + 4) c.client_id c.will
                    c.login fields h.client_id h.will h.login)))))))

-- A conforming CONNECT of a supported protocol and level, as a client writes it, is accepted, with
-- its password as the token, or its username where the password is empty or absent; a password that
-- is not UTF-8 gives no token.
pub connect_token-render :
    (c : ConnectPacket)
    → IsConforming c
    → check_protocol c.protocol c.level ≡ ok tt
    → connect_token (render c) ≡ ok (login_token c.login)
connect_token-render c h p = connect_token_picks c h p ∙ ap ok (pick_token-login c.login h.login)
