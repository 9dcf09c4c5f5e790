-- ===== src/JsonScan/Text/Char.antt =====
-- src/json_scan.rs, the characters of a string: hexadecimal digits, simple escapes, the first byte
-- of a raw sequence, and `char::from_u32` with `encode_utf8`, as the standard library has them.
use remarkable_server.Base.{
  ℕ, ◌+◌, ◌-◌, ◌/◌, ◌%◌, ◌==◌, ltb, leb, if◌then◌else◌, Option, none, some, [], ◌∷◌, Bytes, ◌||◌,
  ◌&&◌,
}

-- `to_digit(16)`
unfoldable pub to_digit : ℕ → Option ℕ
to_digit b =
    if leb 0x30 b && leb b 0x39
    then some (b - 0x30)
    else if leb 0x61 b && leb b 0x66
    then some (b - 0x61 + 10)
    else if leb 0x41 b && leb b 0x46
    then some (b - 0x41 + 10)
    else none

-- The byte that a backslash and this byte stand for.
unfoldable pub escaped : ℕ → Option ℕ
escaped b =
    if b == 0x22 || b == 0x5C || b == 0x2F
    then some b
    else if b == 0x62
    then some 0x08
    else if b == 0x66
    then some 0x0C
    else if b == 0x6E
    then some 0x0A
    else if b == 0x72
    then some 0x0D
    else if b == 0x74
    then some 0x09
    else none

-- How many bytes the sequence still needs, and the range of the next.
unfoldable pub lead_of : ℕ → Option (ℕ × ℕ × ℕ)
lead_of b =
    if leb 0xC2 b && leb b 0xDF
    then some (1, 0x80, 0xBF)
    else if b == 0xE0
    then some (2, 0xA0, 0xBF)
    else if (leb 0xE1 b && leb b 0xEC) || (leb 0xEE b && leb b 0xEF)
    then some (2, 0x80, 0xBF)
    else if b == 0xED
    then some (2, 0x80, 0x9F)
    else if b == 0xF0
    then some (3, 0x90, 0xBF)
    else if leb 0xF1 b && leb b 0xF3
    then some (3, 0x80, 0xBF)
    else if b == 0xF4
    then some (3, 0x80, 0x8F)
    else none

-- A character is a code point that is not a surrogate.
unfoldable pub from_u32 : ℕ → Option ℕ
from_u32 cp = if (leb 0xD800 cp && leb cp 0xDFFF) || ltb 0x10FFFF cp then none else some cp

unfoldable pub encode_utf8 : ℕ → Bytes
encode_utf8 c =
    if ltb c 0x80
    then c ∷ []
    else if ltb c 0x800
    then (0xC0 + c / 64) ∷ (0x80 + c % 64) ∷ []
    else if ltb c 0x10000
    then (0xE0 + c / 4096) ∷ (0x80 + c / 64 % 64) ∷ (0x80 + c % 64) ∷ []
    else (0xF0 + c / 262144) ∷ (0x80 + c / 4096 % 64) ∷ (0x80 + c / 64 % 64) ∷ (0x80 + c % 64) ∷ []
