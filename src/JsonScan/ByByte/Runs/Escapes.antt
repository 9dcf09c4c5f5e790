-- ===== src/JsonScan/ByByte/Runs/Escapes.antt =====
-- src/json_scan.rs, escapes: a byte of one leaves the scanner in the string.
use remarkable_server.Base.{
  ℕ, ◌+◌, ◌-◌, ◌*◌, ◌%◌, ◌==◌, ◌≡◌, refl, ap, ltb, leb, if◌then◌else◌, Bool, true, false, ◌&&◌,
  Option, none, some, [], ◌∷◌, Bytes,
}
use remarkable_server.Base.Result.{Result, ok, err, ◌>>=◌, ok_or}
use remarkable_server.JsonScan.{Output, Fail, State, Esc, Scanner}
use remarkable_server.JsonScan.Structure.{Step}
use remarkable_server.JsonScan.Text.{
  emit, emit_char, set_esc, set_utf8, continuation, open_utf8, plain_byte, backslash_byte,
  code_unit, hex_digit, hex_byte, low_byte, escape_byte,
}
use remarkable_server.JsonScan.Text.Char.{to_digit, lead_of, escaped, from_u32, encode_utf8}
use remarkable_server.JsonScan.ByByte.Runs.Emits.{place, place-emit}

abbrev pub OnOk {ℓ} : {A : Type ℓ} → (A → Type 0) → Result Fail A → Type 0
OnOk P (ok a) = P a
OnOk P (err f) = Unit

-- The step leaves the state `st`, where it succeeds.
pub data Stays (st : State) (x : Step) : Type 0 where
  stays : OnOk (λ r. r.0.state ≡ st) x → Stays st x

Stays-if :
    {st : State} (b : Bool) {x y : Step} → Stays st x → Stays st y → Stays st (if b then x else y)
Stays-if true h h' = h
Stays-if false h h' = h'

Stays-ok_or {ℓ} :
    {st : State} {A : Type ℓ} (m : Option A) (f : Fail) {g : A → Step}
    → ((a : A) → Stays st (g a))
    → Stays st (ok_or f m >>= g)
Stays-ok_or none f each = stays tt
Stays-ok_or (some a) f each = each a

moved : (s : Scanner) (o : Output) → Stays s.state (ok (s, o))
moved s o = stays refl

failed : {st : State} {f : Fail} → Stays st (err f)
failed = stays tt

emit-Stays : (bs : Bytes) (s : Scanner) (o : Output) → Stays s.state (ok (emit bs s o))
unfolding place
emit-Stays bs s o = stays (ap (λ z. z.0) (place-emit bs s o))

emit_char-Stays : (c : ℕ) (s : Scanner) (o : Output) → Stays s.state (emit_char c s o)
unfolding emit_char
emit_char-Stays c s o = Stays-ok_or (from_u32 c) _ λ v. emit-Stays (encode_utf8 v) s o

code_unit-Stays :
    (c : ℕ) (lead : Option ℕ) (s : Scanner) (o : Output) → Stays s.state (code_unit c lead s o)
unfolding code_unit set_esc
code_unit-Stays c none s o =
    Stays-if (leb 0xD800 c && leb c 0xDBFF) (moved (set_esc (Esc.low c false) s) o)
      (Stays-if (leb 0xDC00 c && leb c 0xDFFF) failed (emit_char-Stays c s o))
code_unit-Stays c (some hi) s o =
    Stays-if (leb 0xDC00 c && leb c 0xDFFF) (emit_char-Stays _ s o) failed

plain_byte-Stays : (b : ℕ) (s : Scanner) (o : Output) → Stays s.state (plain_byte b s o)
unfolding plain_byte continuation open_utf8 set_esc set_utf8
plain_byte-Stays b s o =
    Stays-if (ltb 0 s.utf8_need)
      (Stays-if (leb s.utf8_lo b && leb b s.utf8_hi)
        (emit-Stays (b ∷ []) (set_utf8 (s.utf8_need - 1, 0x80, 0xBF) s) o) failed)
      (Stays-if (b == 0x5C) (moved (set_esc Esc.backslash s) o) (
        Stays-if (ltb b 0x20) failed
          (Stays-ok_or (lead_of b) _ λ u. emit-Stays (b ∷ []) (set_utf8 u s) o)))

pub escape_byte-Stays :
    (e : Esc) (b : ℕ) (s : Scanner) (o : Output) → Stays s.state (escape_byte e b s o)
unfolding escape_byte backslash_byte hex_byte hex_digit low_byte set_esc
escape_byte-Stays Esc.plain b s o = plain_byte-Stays b s o
escape_byte-Stays Esc.backslash b s o =
    Stays-if (b == 0x75) (moved (set_esc (Esc.hex 0 0 none) s) o)
      (Stays-ok_or (escaped b) _ λ c. emit-Stays (c ∷ []) (set_esc Esc.plain s) o)
escape_byte-Stays (Esc.hex c digits lead) b s o = Stays-ok_or (to_digit b) _ λ v.
    Stays-if (ltb digits 3) (moved (set_esc (Esc.hex (c * 16 % 65536 + v) (digits + 1) lead) s) o)
      (code_unit-Stays (c * 16 % 65536 + v) lead (set_esc Esc.plain s) o)
escape_byte-Stays (Esc.low lead false) b s o =
    Stays-if (b == 0x5C) (moved (set_esc (Esc.low lead true) s) o) failed
escape_byte-Stays (Esc.low lead true) b s o =
    Stays-if (b == 0x75) (moved (set_esc (Esc.hex 0 0 (some lead)) s) o) failed
