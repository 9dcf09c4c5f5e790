-- ===== src/JsonScan/Bounds.antt =====
-- What the scanner of src/json_scan.rs holds: every buffer within its cap.
pub mod Strings
pub mod Values
pub mod Pieces
use remarkable_server.Base.{
  ℕ, if_intro, zero, suc, ◌+◌, ◌-◌, ◌*◌, ◌%◌, ◌≤◌, ◌==◌, ◌≡◌, refl, ap, ◌∙◌, sym, ltb, leb,
  if◌then◌else◌, Bool, Bool-cases, inl, inr, true, false, not, ◌&&◌, ◌||◌, List, [], ◌∷◌, ◌++◌,
  length, length-append, Bytes, bytes_eq, Option, none, some, is_empty, codes, arith,
}
use remarkable_server.Base.Utf8.{is_utf8}
use remarkable_server.Base.Result.{Result, ok, err, ◌>>=◌, ok_or}
use remarkable_server.JsonScan.{
  key_cap, max_depth, max_number, Member, Streamed, Output, ScanError, Fail, State, Container, Role,
  Target, Esc, Scanner, new,
}
use remarkable_server.JsonScan.Structure.{
  Step, set_elem, begin_string, value_done, pop, close, member_here, open_string, mark_not_string,
  open_container, open_literal, open_number, open_value, silent, begin_value, open_key, expect_key,
  set_state, after_value, by_state, structural, literal_rest, literal, is_number_byte, end_number,
}
use remarkable_server.JsonScan.Text.{
  emit_key, emit_text, emit_as, emit, emit_char, set_esc, set_utf8, continuation, open_utf8,
  plain_byte, backslash_byte, code_unit, hex_digit, hex_byte, low_byte, escape_byte,
  raw_value_token, position, target, end_key, end_captured, end_string_as, end_string,
}
use remarkable_server.JsonScan.Text.Char.{to_digit, lead_of, escaped, from_u32, encode_utf8}
use remarkable_server.JsonScan.Feed.{
  run, after_run, is_plain, at_character, Rest, leaving, string_loop, string, push_digits,
  after_digits, number, turn, error, placed, feed_loop, advance, feed, is_end, is_number, complete,
  finish,
}

-- The nesting, the key, the captured text and the numeral are within the source's caps.
abbrev pub IsBounded : ℕ → Scanner → Type 0
IsBounded limit s =
    (s.capture_cap ≡ limit)
    × (length s.stack ≤ max_depth)
    × (length s.key ≤ key_cap)
    × (length s.text ≤ limit)
    × (length s.number ≤ max_number)

-- The result has the property, where there is one.
pub data Holds {ℓ} {E : Type 0} {A : Type ℓ} (P : A → Type 0) : Result E A → Type ℓ where
  holds : (a : A) → P a → Holds P (ok a)
  fails : (e : E) → Holds P (err e)

pub Holds-if {ℓ} :
    {E : Type 0} {A : Type ℓ} {P : A → Type 0} (b : Bool) {x y : Result E A}
    → Holds P x
    → Holds P y
    → Holds P (if b then x else y)
Holds-if true h h' = h
Holds-if false h h' = h'

pub Holds-ok_or {ℓ κ} :
    {A : Type ℓ} {B : Type κ} {P : B → Type 0} (m : Option A) (f : Fail) {g : A → Result Fail B}
    → ((a : A) → Holds P (g a))
    → Holds P (ok_or f m >>= g)
Holds-ok_or none f each = fails f
Holds-ok_or (some a) f each = each a

abbrev pub Bounded : ℕ → Step → Type 0
Bounded limit x = Holds (λ r. IsBounded limit r.0) x

abbrev pub Quiet : ℕ → Result Fail Scanner → Type 0
Quiet limit x = Holds (IsBounded limit) x

abbrev pub Left : ℕ → Rest → Type 0
Left limit x = Holds (λ r. IsBounded limit r.0.0) x

pub kept : {limit : ℕ} (s : Scanner) (o : Output) → IsBounded limit s → Bounded limit (ok (s, o))
kept s o h = holds (s, o) h

pub kept_silent :
    {limit : ℕ} (o : Output) (x : Result Fail Scanner) → Quiet limit x → Bounded limit (silent o x)
unfolding silent
kept_silent o _ (holds s h) = holds (s, o) h
kept_silent o _ (fails f) = fails f
