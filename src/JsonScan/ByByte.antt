-- ===== src/JsonScan/ByByte.antt =====
-- The scanner of src/json_scan.rs read one byte at a time, what its state shows, and what two
-- calls put out between them: the description that `feed` is compared with.
pub mod Alike
pub mod Runs
pub mod Fuel
pub mod Turns
use remarkable_server.Base.{
  ℕ, ◌+◌, ◌==◌, ltb, if◌then◌else◌, Bool, true, false, ◌&&◌, ◌||◌, List, [], ◌∷◌, ◌++◌, length,
  Bytes,
}
use remarkable_server.Base.Result.{Result, ok, err, ◌>>=◌}
use remarkable_server.JsonScan.{max_number, Output, Fail, State, Scanner}
use remarkable_server.JsonScan.Structure.{
  Step, silent, structural, literal, is_number_byte, end_number,
}
use remarkable_server.JsonScan.Text.{emit, escape_byte, end_string}
use remarkable_server.JsonScan.Feed.{is_plain, at_character, push_digits}

-- A byte of a string, without runs.
unfoldable pub string_byte : ℕ → Scanner → Output → Step
unfolding emit escape_byte end_string silent is_plain at_character
string_byte b s o =
    if at_character s.esc s.utf8_need && b == 0x22
    then silent o (end_string s)
    else if at_character s.esc s.utf8_need && is_plain b
    then ok (emit (b ∷ []) s o)
    else escape_byte s.esc b s o

-- The byte after a numeral closes it, and is then read as `structural` does.
unfoldable pub after_number : (Bytes → Bool) → ℕ → Scanner → Output → Step
unfolding end_number structural
after_number is_numeral b s o = end_number is_numeral s >>= λ s'. structural b s' o

unfoldable pub number_byte : (Bytes → Bool) → ℕ → Scanner → Output → Step
unfolding after_number is_number_byte push_digits
number_byte is_numeral b s o =
    if is_number_byte b
    then (if ltb max_number (length s.number + 1)
        then err (Fail.too_long "numeral")
        else ok (push_digits (b ∷ []) s, o))
    else if ltb max_number (length s.number)
    then err (Fail.too_long "numeral")
    else after_number is_numeral b s o

unfoldable pub byte_in : (Bytes → Bool) → State → ℕ → Scanner → Output → Step
unfolding string_byte number_byte literal silent structural
byte_in is_numeral State.str b s o = string_byte b s o
byte_in is_numeral State.number b s o = number_byte is_numeral b s o
byte_in is_numeral State.literal b s o = silent o (literal b s)
byte_in is_numeral _ b s o = structural b s o

unfoldable pub byte_run : (Bytes → Bool) → Bytes → Scanner → Output → Step
unfolding byte_in
byte_run is_numeral [] s o = ok (s, o)
byte_run is_numeral (b ∷ bs) s o =
    byte_in is_numeral s.state b s o >>= λ r. byte_run is_numeral bs r.0 r.1

-- A key or a captured text as far as it is ever read: one that is too long is not.
unfoldable pub shown : Bool → Bytes → Bytes
shown true k = []
shown false k = k

-- A scanner as later bytes can tell it from others: the offset only places errors.
unfoldable pub view : Scanner → Scanner
unfolding shown
view s = record s { offset = 0; key = shown s.key_long s.key; text = shown s.text_long s.text }

-- What one call puts out, then another.
unfoldable pub join : Output → Output → Output
join p o = record {
  restart = o.restart || p.restart;
  bytes = if o.restart then o.bytes else p.bytes ++ o.bytes;
}

unfoldable pub seen : Step → Step
unfolding view
seen (ok r) = ok (view r.0, r.1)
seen (err f) = err f

unfoldable pub seen_after : Output → Step → Step
unfolding view join
seen_after p (ok r) = ok (view r.0, join p r.1)
seen_after p (err f) = err f
