-- ===== src/JsonScan/ByByte/Alike.antt =====
-- Two steps of the scanner of src/json_scan.rs that later bytes cannot tell apart, the left one
-- with `p` put out before it.
pub mod Strings
pub mod Values
pub mod OneByte
use remarkable_server.Base.{
  ℕ, ◌+◌, ◌==◌, ◌≡◌, refl, ap, ◌∙◌, sym, ltb, leb, if◌then◌else◌, Bool, true, false, not, ◌&&◌,
  ◌||◌, List, [], ◌∷◌, ◌++◌, length, Bytes, bytes_eq, Option, none, some, append_assoc, is_empty,
  codes,
}
use remarkable_server.Base.Result.{Result, ok, err, ◌>>=◌, ok_or}
use remarkable_server.JsonScan.{
  key_cap, max_depth, max_number, Member, Streamed, Output, Fail, State, Container, Role, Target,
  Esc, Scanner,
}
use remarkable_server.JsonScan.Structure.{
  Step, set_elem, begin_string, value_done, pop, close, member_here, open_string, mark_not_string,
  open_container, open_literal, open_number, open_value, silent, begin_value, open_key, expect_key,
  set_state, after_value, by_state, structural, literal_rest, literal, is_number_byte, end_number,
}
use remarkable_server.JsonScan.Text.{
  emit_key, emit_text, emit_as, emit, emit_char, set_esc, set_utf8, continuation, open_utf8,
  plain_byte, backslash_byte, code_unit, hex_digit, hex_byte, low_byte, escape_byte,
  raw_value_token, position, target, end_key, end_captured, end_string_as, end_string,
}
use remarkable_server.JsonScan.Text.Char.{to_digit, lead_of, escaped, from_u32, encode_utf8}
use remarkable_server.JsonScan.Feed.{is_plain, at_character, push_digits}
use remarkable_server.JsonScan.ByByte.{
  shown, view, join, seen, seen_after, string_byte, number_byte, after_number, byte_in,
}

pub if_same {ℓ} : {A : Type ℓ} (b : Bool) (x : A) → (if b then x else x) ≡ x
if_same true x = refl
if_same false x = refl

-- The state with other parts that a view may hide.
abbrev pub hidden : Bool → Bytes → Bool → Bytes → ℕ → Scanner → Scanner
hidden l k u t n s = record s { key = k; key_long = l; text = t; text_long = u; offset = n }

pub view_if :
    (b : Bool) (x y x' y' : Scanner)
    → view x ≡ view x'
    → view y ≡ view y'
    → view (if b then x else y) ≡ view (if b then x' else y')
view_if true x y x' y' h h' = h
view_if false x y x' y' h h' = h'

-- Both steps fail alike, or both succeed, with one view, the left one with `p` out before.
pub data Alike (p : Output) (x y : Step) : Type 0 where
  alike : seen x ≡ seen_after p y → Alike p x y

pub Alike-if :
    (b : Bool) {p : Output} {x y x' y' : Step}
    → Alike p x x'
    → Alike p y y'
    → Alike p (if b then x else y) (if b then x' else y')
Alike-if true h h' = h
Alike-if false h h' = h'

-- The same of two steps that put nothing out.
pub data Quiet (p o : Output) (x y : Result Fail Scanner) : Type 0 where
  quiet : Alike p (silent (join p o) x) (silent o y) → Quiet p o x y

pub Alike-silent :
    {p o : Output} {x y : Result Fail Scanner}
    → Quiet p o x y
    → Alike p (silent (join p o) x) (silent o y)
Alike-silent (quiet h) = h

pub Quiet-if :
    (b : Bool) {p o : Output} {x y x' y' : Result Fail Scanner}
    → Quiet p o x x'
    → Quiet p o y y'
    → Quiet p o (if b then x else y) (if b then x' else y')
Quiet-if true h h' = h
Quiet-if false h h' = h'

pub Alike-ok_or {ℓ} :
    {A : Type ℓ} (m : Option A) (f : Fail) {p : Output} {g h : A → Step}
    → ((a : A) → Alike p (g a) (h a))
    → Alike p (ok_or f m >>= g) (ok_or f m >>= h)
unfolding seen seen_after
Alike-ok_or none f each = alike refl
Alike-ok_or (some a) f each = each a

pub fails : {p : Output} {f : Fail} → Alike p (err f) (err f)
unfolding seen seen_after
fails = alike refl

pub Quiet-fails : {p o : Output} {f : Fail} → Quiet p o (err f) (err f)
unfolding silent
Quiet-fails = quiet fails

pub to_alike :
    {p : Output} (s t : Scanner) (o q : Output)
    → view s ≡ view t
    → o ≡ join p q
    → Alike p (ok (s, o)) (ok (t, q))
unfolding seen seen_after
to_alike s t o q h h' = alike (ap (λ z. ok (z, o)) h ∙ ap (λ z. ok (view t, z)) h')

module _ (l : Bool) (k k' : Bytes) (u : Bool) (t t' : Bytes) (n n' : ℕ) (p : Output)
    (e : shown l k ≡ shown l k') (d : shown u t ≡ shown u t') where
  abbrev pub left : Scanner → Scanner
  left s = hidden l k u t n s

  abbrev pub right : Scanner → Scanner
  right s = hidden l k' u t' n' s

  pub view-alike : (s : Scanner) → view (left s) ≡ view (right s)
  unfolding view
  view-alike s =
      ap (λ z. record s { offset = 0; key = z; key_long = l; text = shown u t; text_long = u }) e
      ∙ ap (λ z. record s { offset = 0; key = shown l k'; key_long = l; text = z; text_long = u }) d

  pub same : (s : Scanner) (o : Output) → Alike p (ok (left s, join p o)) (ok (right s, o))
  same s o = to_alike (left s) (right s) (join p o) o (view-alike s) refl
