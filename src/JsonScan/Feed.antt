-- ===== src/JsonScan/Feed.antt =====
-- src/json_scan.rs, `feed` and `finish`: the loops over a chunk, and a caller that feeds a body
-- chunk by chunk, as `stage_json_base64` of src/upload.rs does.
use remarkable_server.Base.{
  ℕ, zero, suc, ◌+◌, ◌-◌, ◌*◌, ◌==◌, ltb, leb, if◌then◌else◌, Bool, true, false, ◌||◌, ◌&&◌, not,
  [], ◌∷◌, ◌++◌, length, Bytes,
}
use remarkable_server.Base.Result.{Result, ok, err, ◌>>=◌}
use remarkable_server.JsonScan.{max_number, Scanned, Output, ScanError, Fail, State, Esc, Scanner}
use remarkable_server.JsonScan.Structure.{
  Step, silent, structural, literal, is_number_byte, end_number,
}
use remarkable_server.JsonScan.Text.{emit, escape_byte, end_string}

-- A run at the head of the input, and what is left after it (`position`, then two slices).
unfoldable pub run : (ℕ → Bool) → Bytes → Bytes
run p [] = []
run p (b ∷ bs) = if p b then b ∷ run p bs else []

unfoldable pub after_run : (ℕ → Bool) → Bytes → Bytes
after_run p [] = []
after_run p (b ∷ bs) = if p b then after_run p bs else b ∷ bs

-- A byte of a run of plain ASCII.
unfoldable pub is_plain : ℕ → Bool
is_plain c = not (c == 0x22 || c == 0x5C || ltb c 0x20 || leb 0x80 c)

-- Neither an escape nor a UTF-8 sequence is open.
unfoldable pub at_character : Esc → ℕ → Bool
at_character Esc.plain zero = true
at_character _ _ = false

-- What a call leaves of the input, after the scanner and what is put out.
abbrev pub Rest : Type 0
Rest = Result Fail ((Scanner × Output) × Bytes)

unfoldable pub leaving : Bytes → Step → Rest
leaving rest (ok r) = ok (r, rest)
leaving rest (err f) = err f

-- The loop of `string`. Every turn takes a byte, so the input's length is fuel enough.
unfoldable pub string_loop : ℕ → Bytes → Scanner → Output → Rest
unfolding emit escape_byte end_string silent is_plain at_character run after_run leaving
string_loop fuel [] s o = ok ((s, o), [])
string_loop zero rest s o = ok ((s, o), rest)
string_loop (suc fuel) (b ∷ rest) s o =
    if at_character s.esc s.utf8_need && b == 0x22
    then leaving rest (silent o (end_string s))
    else if at_character s.esc s.utf8_need && is_plain b
    then (let r = emit (b ∷ run is_plain rest) s o in
        string_loop fuel (after_run is_plain rest) r.0 r.1)
    else (escape_byte s.esc b s o >>= λ r. string_loop fuel rest r.0 r.1)

unfoldable pub string : Bytes → Scanner → Output → Rest
unfolding string_loop
string input s o = string_loop (length input) input s o

unfoldable pub push_digits : Bytes → Scanner → Scanner
push_digits run s = record s { number = s.number ++ run }

-- The end of `number`: a numeral that the input outlasts is complete.
unfoldable pub after_digits : (Bytes → Bool) → Bytes → Scanner → Result Fail Scanner
unfolding end_number
after_digits is_numeral [] s = ok s
after_digits is_numeral (b ∷ rest) s = end_number is_numeral s

unfoldable pub number : (Bytes → Bool) → Bytes → Scanner → Output → Rest
unfolding is_number_byte run after_run push_digits after_digits silent leaving
number is_numeral input s o =
    if ltb max_number (length s.number + length (run is_number_byte input))
    then err (Fail.too_long "numeral")
    else leaving (after_run is_number_byte input) (
        silent o (
          after_digits is_numeral (after_run is_number_byte input)
            (push_digits (run is_number_byte input) s)))

-- One turn of `feed`'s loop, by the state, on the bytes from `i` on.
unfoldable pub turn : (Bytes → Bool) → State → ℕ → Bytes → Scanner → Output → Rest
unfolding string number literal structural silent leaving
turn is_numeral State.str b rest s o = string (b ∷ rest) s o
turn is_numeral State.number b rest s o = number is_numeral (b ∷ rest) s o
turn is_numeral State.literal b rest s o = leaving rest (silent o (literal b s))
turn is_numeral _ b rest s o = leaving rest (structural b s o)

-- `error`: where the failure is put, `i` bytes into the chunk.
unfoldable pub error : Scanner → Fail → ℕ → ScanError
error s (Fail.syntax what) i = ScanError.syntax (s.offset + i) what
error s (Fail.too_long what) i = ScanError.too_long what

unfoldable pub placed {ℓ} : {A : Type ℓ} → Scanner → ℕ → Result Fail A → Result ScanError A
unfolding error
placed s i (ok a) = ok a
placed s i (err f) = err (error s f i)

-- `feed`'s loop over a chunk of `len` bytes. Only the end of a numeral takes no byte, and no
-- second turn follows it at the same byte, so twice the length is fuel enough.
unfoldable pub feed_loop :
    (Bytes → Bool) → ℕ → ℕ → Bytes → Scanner → Output → Result ScanError (Scanner × Output)
unfolding turn placed
feed_loop is_numeral len fuel [] s o = ok (s, o)
feed_loop is_numeral len zero rest s o = ok (s, o)
feed_loop is_numeral len (suc fuel) (b ∷ rest) s o =
    placed s (len - suc (length rest)) (turn is_numeral s.state b rest s o) >>= λ r.
    feed_loop is_numeral len fuel r.1 r.0.0 r.0.1

unfoldable pub advance : ℕ → Scanner → Scanner
advance n s = record s { offset = s.offset + n }

unfoldable pub feed :
    (Bytes → Bool) → Bytes → Scanner → Output → Result ScanError (Scanner × Output)
unfolding feed_loop advance
feed is_numeral input s o =
    feed_loop is_numeral (length input) (2 * length input) input s o >>= λ r.
    ok (advance (length input) r.0, r.1)

unfoldable pub is_end : State → Bool
is_end State.end = true
is_end _ = false

unfoldable pub is_number : State → Bool
is_number State.number = true
is_number _ = false

-- `finish`, once a numeral at the end is closed.
unfoldable pub complete : Scanner → Result ScanError Scanned
unfolding is_end
complete s =
    if is_end s.state
    then ok (record { captured = s.captured; streamed = s.streamed })
    else err (ScanError.syntax s.offset "unexpected end of input")

unfoldable pub finish : (Bytes → Bool) → Scanner → Result ScanError Scanned
unfolding complete is_number end_number placed
finish is_numeral s =
    (if is_number s.state then placed s 0 (end_number is_numeral s) else ok s) >>= λ s'. complete s'
