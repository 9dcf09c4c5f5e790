-- ===== src/JsonScan/Text.antt =====
-- src/json_scan.rs inside strings: escapes, raw UTF-8, where the unescaped bytes go, and what the
-- closing quote does.
pub mod Char
use remarkable_server.Base.{
  ℕ, zero, suc, ◌+◌, ◌-◌, ◌*◌, ◌%◌, ◌==◌, ltb, leb, if◌then◌else◌, Bool, true, false, ◌||◌, ◌&&◌,
  not, Option, none, some, List, [], ◌∷◌, ◌++◌, length, Bytes, bytes_eq, codes,
}
use remarkable_server.Base.Utf8.{is_utf8}
use remarkable_server.Base.Result.{Result, ok, err, ◌>>=◌, ok_or}
use remarkable_server.JsonScan.{key_cap, Member, Output, Fail, State, Role, Target, Esc, Scanner}
use remarkable_server.JsonScan.Structure.{Step, silent, set_elem, value_done}
use remarkable_server.JsonScan.Text.Char.{to_digit, lead_of, escaped, from_u32, encode_utf8}

-- `emit` for a key: what does not fit marks the key as long.
unfoldable pub emit_key : Bytes → Scanner → Scanner
emit_key bs s =
    if ltb key_cap (length s.key + length bs)
    then record s { key_long = true }
    else if not s.key_long
    then record s { key = s.key ++ bs }
    else s

unfoldable pub emit_text : Bytes → Scanner → Scanner
emit_text bs s =
    if ltb s.capture_cap (length s.text + length bs)
    then record s { text_long = true; text = [] }
    else if not s.text_long
    then record s { text = s.text ++ bs }
    else s

unfoldable pub emit_as : Role → Bytes → Scanner → Output → Scanner × Output
unfolding emit_key emit_text
emit_as Role.key bs s o = (emit_key bs s, o)
emit_as Role.streamed bs s o = (s, record o { bytes = o.bytes ++ bs })
emit_as (Role.captured i) bs s o = (emit_text bs s, o)
emit_as Role.skipped bs s o = (s, o)

unfoldable pub emit : Bytes → Scanner → Output → Scanner × Output
unfolding emit_as
emit bs s o = emit_as s.role bs s o

unfoldable pub emit_char : ℕ → Scanner → Output → Step
unfolding emit
emit_char cp s o =
    ok_or (Fail.syntax "invalid escape") (from_u32 cp) >>= λ c. ok (emit (encode_utf8 c) s o)

unfoldable pub set_esc : Esc → Scanner → Scanner
set_esc e s = record s { esc = e }

unfoldable pub set_utf8 : ℕ × ℕ × ℕ → Scanner → Scanner
set_utf8 u s = record s { utf8_need = u.0; utf8_lo = u.1; utf8_hi = u.2 }

-- A byte that a raw UTF-8 sequence still waits for.
unfoldable pub continuation : ℕ → Scanner → Output → Step
unfolding set_utf8 emit
continuation b s o =
    if leb s.utf8_lo b && leb b s.utf8_hi
    then ok (emit (b ∷ []) (set_utf8 (s.utf8_need - 1, 0x80, 0xBF) s) o)
    else err (Fail.syntax "invalid UTF-8 in string")

-- A byte outside ASCII where no sequence is open.
unfoldable pub open_utf8 : ℕ → Scanner → Output → Step
unfolding set_utf8 emit
open_utf8 b s o = ok_or (Fail.syntax "invalid UTF-8 in string") (lead_of b) >>= λ u.
    ok (emit (b ∷ []) (set_utf8 u s) o)

-- `Esc::None`, but for the bytes that `string_loop` reads itself.
unfoldable pub plain_byte : ℕ → Scanner → Output → Step
unfolding continuation open_utf8 set_esc
plain_byte b s o =
    if ltb 0 s.utf8_need
    then continuation b s o
    else if b == 0x5C
    then ok (set_esc Esc.backslash s, o)
    else if ltb b 0x20
    then err (Fail.syntax "control character in string")
    else open_utf8 b s o

unfoldable pub backslash_byte : ℕ → Scanner → Output → Step
unfolding set_esc emit
backslash_byte b s o =
    if b == 0x75
    then ok (set_esc (Esc.hex 0 0 none) s, o)
    else ok_or (Fail.syntax "invalid escape") (escaped b) >>= λ c.
        ok (emit (c ∷ []) (set_esc Esc.plain s) o)

-- The fourth digit of `\uXXXX`: `n` is the code unit, `lead` a high surrogate before it. The
-- source's `<< 10 |` of a pair is a sum, since the low half is below 1024.
unfoldable pub code_unit : ℕ → Option ℕ → Scanner → Output → Step
unfolding emit_char set_esc
code_unit n none s o =
    if leb 0xD800 n && leb n 0xDBFF
    then ok (set_esc (Esc.low n false) s, o)
    else if leb 0xDC00 n && leb n 0xDFFF
    then err (Fail.syntax "unpaired surrogate escape")
    else emit_char n s o
code_unit n (some hi) s o =
    if leb 0xDC00 n && leb n 0xDFFF
    then emit_char (0x10000 + ((hi - 0xD800) * 1024 + (n - 0xDC00))) s o
    else err (Fail.syntax "unpaired surrogate escape")

-- `n << 4 | d` on 16 bits, for a digit `d`.
unfoldable pub hex_digit : ℕ → ℕ → Option ℕ → ℕ → Scanner → Output → Step
unfolding code_unit set_esc
hex_digit n digits lead d s o =
    let n' = n * 16 % 65536 + d in
    if ltb digits 3
    then ok (set_esc (Esc.hex n' (digits + 1) lead) s, o)
    else code_unit n' lead (set_esc Esc.plain s) o

unfoldable pub hex_byte : ℕ → ℕ → Option ℕ → ℕ → Scanner → Output → Step
unfolding hex_digit
hex_byte n digits lead b s o =
    ok_or (Fail.syntax "invalid escape") (to_digit b) >>= λ d. hex_digit n digits lead d s o

unfoldable pub low_byte : ℕ → Bool → ℕ → Scanner → Output → Step
unfolding set_esc
low_byte lead false b s o =
    if b == 0x5C
    then ok (set_esc (Esc.low lead true) s, o)
    else err (Fail.syntax "unpaired surrogate escape")
low_byte lead true b s o =
    if b == 0x75
    then ok (set_esc (Esc.hex 0 0 (some lead)) s, o)
    else err (Fail.syntax "unpaired surrogate escape")

-- One turn of the loop of `string`, by the escape that is open.
unfoldable pub escape_byte : Esc → ℕ → Scanner → Output → Step
unfolding plain_byte backslash_byte hex_byte low_byte
escape_byte Esc.plain b s o = plain_byte b s o
escape_byte Esc.backslash b s o = backslash_byte b s o
escape_byte (Esc.hex n digits lead) b s o = hex_byte n digits lead b s o
escape_byte (Esc.low lead backslash) b s o = low_byte lead backslash b s o

-- `serde_json::raw::TOKEN`
abbrev pub raw_value_token : Bytes
raw_value_token = codes "$serde_json::private::RawValue"

-- `capture_keys.iter().position(..)`, counted from `i`.
unfoldable pub position : Bytes → ℕ → List Bytes → Target
position k i [] = Target.other
position k i (c ∷ cs) =
    let rest = position k (i + 1) cs in if bytes_eq c k then Target.captured i else rest

unfoldable pub target : Scanner → Target
unfolding position
target s =
    if s.key_long
    then Target.other
    else if bytes_eq s.key s.streamed_key
    then Target.streamed
    else position s.key 0 s.capture_keys

unfoldable pub end_key : Scanner → Result Fail Scanner
unfolding target
end_key s =
    if s.first_key && (not s.key_long && bytes_eq s.key raw_value_token)
    then err (Fail.syntax "serde_json RawValue marker key not supported")
    else ok (record s {
      member = if length s.stack == 1 then target s else s.member;
      state = State.colon;
    })

-- `String::from_utf8(take(text))` fails on what is not UTF-8.
unfoldable pub end_captured : ℕ → Scanner → Result Fail Scanner
unfolding set_elem value_done
end_captured i s =
    if s.text_long
    then ok (value_done (record s { captured = set_elem s.captured i Member.too_long }))
    else if is_utf8 s.text
    then ok
        (value_done (record s { text = []; captured = set_elem s.captured i (Member.text s.text) }))
    else err (Fail.syntax "invalid UTF-8 in string")

unfoldable pub end_string_as : Role → Scanner → Result Fail Scanner
unfolding end_key end_captured value_done
end_string_as Role.key s = end_key s
end_string_as (Role.captured i) s = end_captured i s
end_string_as _ s = ok (value_done s)

unfoldable pub end_string : Scanner → Result Fail Scanner
unfolding end_string_as
end_string s = end_string_as s.role s
