-- ===== src/JsonScan/Structure.antt =====
-- src/json_scan.rs outside strings: values, containers, literals and numerals. Each function takes
-- the scanner and what the call has put out, and returns both, or the failure. serde_json's test
-- of a numeral is the parameter `is_numeral`.
use remarkable_server.Base.{
  ℕ, zero, suc, ◌==◌, leb, if◌then◌else◌, Bool, true, false, ◌||◌, ◌&&◌, Option, none, some, List,
  [], ◌∷◌, length, Bytes, codes, is_empty,
}
use remarkable_server.Base.Result.{Result, ok, err}
use remarkable_server.JsonScan.{
  max_depth, Member, Streamed, Output, Fail, State, Container, Role, Target, Esc, Scanner,
}

abbrev pub Step : Type 0
Step = Result Fail (Scanner × Output)

-- `v[i] = x`; an index out of range, which no caller has, changes nothing here.
unfoldable pub set_elem : List Member → ℕ → Member → List Member
set_elem [] i x = []
set_elem (y ∷ ys) zero x = x ∷ ys
set_elem (y ∷ ys) (suc i) x = y ∷ set_elem ys i x

unfoldable pub begin_string : Role → Scanner → Scanner
begin_string role s = record s { role = role; esc = Esc.plain; utf8_need = 0; state = State.str }

unfoldable pub value_done : Scanner → Scanner
value_done s = record s { state = if is_empty s.stack then State.end else State.after_value }

unfoldable pub pop : List Container → List Container
pop [] = []
pop (c ∷ cs) = cs

unfoldable pub close : Scanner → Scanner
unfolding value_done pop
close s = value_done (record s { stack = pop s.stack })

-- `(self.stack == [Container::Object]).then_some(self.member)`
unfoldable pub member_here : Target → List Container → Option Target
member_here member (Container.object ∷ []) = some member
member_here member _ = none

-- `begin_value` at a quote: the string's role by the member it is the value of.
unfoldable pub open_string : Option Target → Scanner → Output → Scanner × Output
unfolding begin_string
open_string (some Target.streamed) s o = (
  begin_string Role.streamed (record s { streamed = Streamed.text }),
  record { restart = true; bytes = [] },
)
open_string (some (Target.captured i)) s o =
    (begin_string (Role.captured i) (record s { text = []; text_long = false }), o)
open_string _ s o = (begin_string Role.skipped s, o)

-- `begin_value` at another byte: the member is not a string.
unfoldable pub mark_not_string : Option Target → Scanner → Scanner
unfolding set_elem
mark_not_string (some Target.streamed) s = record s { streamed = Streamed.not_string }
mark_not_string (some (Target.captured i)) s = record s {
  captured = set_elem s.captured i Member.not_string;
}
mark_not_string _ s = s

unfoldable pub open_container : Container → State → Scanner → Result Fail Scanner
open_container c st s =
    if leb max_depth (length s.stack)
    then err (Fail.syntax "recursion limit exceeded")
    else ok (record s { stack = c ∷ s.stack; state = st })

unfoldable pub open_literal : Bytes → Scanner → Scanner
open_literal l s = record s { literal = l; state = State.literal }

unfoldable pub open_number : ℕ → Scanner → Scanner
open_number b s = record s { number = b ∷ []; state = State.number }

-- `begin_value` at a byte other than a quote, after the member is marked.
unfoldable pub open_value : ℕ → Scanner → Result Fail Scanner
unfolding open_container open_literal open_number
open_value b s =
    if b == 0x7B
    then open_container Container.object State.object_start s
    else if b == 0x5B
    then open_container Container.array State.array_start s
    else if b == 0x74
    then ok (open_literal (codes "rue") s)
    else if b == 0x66
    then ok (open_literal (codes "alse") s)
    else if b == 0x6E
    then ok (open_literal (codes "ull") s)
    else if b == 0x2D || (leb 0x30 b && leb b 0x39)
    then ok (open_number b s)
    else err (Fail.syntax "expected a value")

-- A step that puts nothing out.
unfoldable pub silent : Output → Result Fail Scanner → Step
silent o (ok s) = ok (s, o)
silent o (err f) = err f

unfoldable pub begin_value : ℕ → Scanner → Output → Step
unfolding member_here open_string mark_not_string open_value silent
begin_value b s o =
    if b == 0x22
    then ok (open_string (member_here s.member s.stack) s o)
    else silent o (open_value b (mark_not_string (member_here s.member s.stack) s))

-- `structural` at a quote where a key may start; `first` is that the object has just begun.
unfoldable pub open_key : Bool → Scanner → Scanner
unfolding begin_string
open_key first s =
    begin_string Role.key (record s { key = []; key_long = false; first_key = first })

unfoldable pub expect_key : Bool → ℕ → Scanner → Result Fail Scanner
unfolding open_key
expect_key first b s =
    if b == 0x22 then ok (open_key first s) else err (Fail.syntax "expected a string key")

unfoldable pub set_state : State → Scanner → Scanner
set_state st s = record s { state = st }

-- `State::AfterValue`, by the innermost container.
unfoldable pub after_value : ℕ → List Container → Scanner → Result Fail Scanner
unfolding close set_state
after_value b (Container.object ∷ cs) s =
    if b == 0x2C
    then ok (set_state State.key s)
    else if b == 0x7D
    then ok (close s)
    else err (Fail.syntax "expected ',' or a closing bracket")
after_value b (Container.array ∷ cs) s =
    if b == 0x2C
    then ok (set_state State.value s)
    else if b == 0x5D
    then ok (close s)
    else err (Fail.syntax "expected ',' or a closing bracket")
after_value b [] s = err (Fail.syntax "expected ',' or a closing bracket")

-- `structural` on a byte that is not white space. Strings, numerals and literals are read by
-- other functions: the source's `unreachable!` is an error here.
unfoldable pub by_state : State → ℕ → Scanner → Output → Step
unfolding begin_value close expect_key after_value set_state silent
by_state State.value b s o = begin_value b s o
by_state State.array_start b s o = if b == 0x5D then ok (close s, o) else begin_value b s o
by_state State.object_start b s o =
    if b == 0x7D then ok (close s, o) else silent o (expect_key true b s)
by_state State.key b s o = silent o (expect_key false b s)
by_state State.colon b s o =
    if b == 0x3A then ok (set_state State.value s, o) else err (Fail.syntax "expected ':'")
by_state State.after_value b s o = silent o (after_value b s.stack s)
by_state State.end b s o = err (Fail.syntax "trailing characters")
by_state _ b s o = err (Fail.syntax "handled by feed")

unfoldable pub structural : ℕ → Scanner → Output → Step
unfolding by_state
structural b s o =
    if b == 0x20 || b == 0x0A || b == 0x0D || b == 0x09 then ok (s, o) else by_state s.state b s o

-- `literal`, by the bytes still wanted.
unfoldable pub literal_rest : Bytes → ℕ → Scanner → Result Fail Scanner
unfolding value_done
literal_rest (want ∷ rest) b s =
    if want == b
    then ok (
        if is_empty rest
        then value_done (record s { literal = rest })
        else record s { literal = rest })
    else err (Fail.syntax "invalid literal")
literal_rest [] b s = err (Fail.syntax "invalid literal")

unfoldable pub literal : ℕ → Scanner → Result Fail Scanner
unfolding literal_rest
literal b s = literal_rest s.literal b s

unfoldable pub is_number_byte : ℕ → Bool
is_number_byte c =
    (leb 0x30 c && leb c 0x39) || c == 0x2D || c == 0x2B || c == 0x2E || c == 0x65 || c == 0x45

unfoldable pub end_number : (Bytes → Bool) → Scanner → Result Fail Scanner
unfolding value_done
end_number is_numeral s =
    if is_numeral s.number
    then ok (value_done (record s { number = [] }))
    else err (Fail.syntax "invalid number")
