-- ===== src/JsonScan/ByByte/Alike/Strings.antt =====
-- src/json_scan.rs inside strings: the bytes of a string do the same on two states with one view,
-- and add to what is out already.
use remarkable_server.Base.{
  ℕ, ◌+◌, ◌-◌, ◌*◌, ◌%◌, ◌≡◌, refl, ap, ◌∙◌, sym, ltb, if◌then◌else◌, Bool, true, false, not, ◌||◌,
  [], ◌∷◌, ◌++◌, length, Bytes, Option, none, some, append_assoc,
}
use remarkable_server.Base.Result.{ok}
use remarkable_server.JsonScan.{key_cap, Output, Role, Esc, Scanner}
use remarkable_server.JsonScan.Text.{
  emit_key, emit_text, emit_as, emit, emit_char, set_esc, set_utf8, continuation, open_utf8,
  plain_byte, backslash_byte, code_unit, hex_digit, hex_byte, low_byte, escape_byte,
}
use remarkable_server.JsonScan.Text.Char.{to_digit, lead_of, escaped, from_u32, encode_utf8}
use remarkable_server.JsonScan.ByByte.{shown, view, join}
use remarkable_server.JsonScan.ByByte.Alike.{
  Alike, Alike-if, Alike-ok_or, fails, to_alike, if_same, view_if, hidden, view-alike, same,
}

emit_key-view :
    (l : Bool) (k k' : Bytes) (bs : Bytes) (s : Scanner)
    → shown l k ≡ shown l k'
    → view (emit_key bs (record s { key = k; key_long = l }))
      ≡ view (emit_key bs (record s { key = k'; key_long = l }))
unfolding emit_key view shown
emit_key-view true k k' bs s e =
    ap view (if_same _ (record s { key = k; key_long = true }))
    ∙ sym (ap view (if_same _ (record s { key = k'; key_long = true })))
emit_key-view false k k' bs s e =
    ap (λ z. view (emit_key bs (record s { key = z; key_long = false }))) e

emit_key-rest :
    (bs : Bytes) (s : Scanner) (u : Bool) (t t' : Bytes) (n n' : ℕ)
    → shown u t ≡ shown u t'
    → view (emit_key bs (record s { text = t; text_long = u; offset = n }))
      ≡ view (emit_key bs (record s { text = t'; text_long = u; offset = n' }))
unfolding emit_key view
emit_key-rest bs s u t t' n n' d =
    view_if (ltb key_cap (length s.key + length bs)) _ _ _ _ (same_text true s.key) (
      view_if (not s.key_long) _ _ _ _ (same_text s.key_long (s.key ++ bs))
        (same_text s.key_long s.key))
  where
    same_text : (l : Bool) (k : Bytes) → view (hidden l k u t n s) ≡ view (hidden l k u t' n' s)
    same_text l k =
        ap (λ z. record s { offset = 0; key = shown l k; key_long = l; text = z; text_long = u }) d

pub emit_text-view :
    (u : Bool) (t t' : Bytes) (bs : Bytes) (s : Scanner)
    → shown u t ≡ shown u t'
    → view (emit_text bs (record s { text = t; text_long = u }))
      ≡ view (emit_text bs (record s { text = t'; text_long = u }))
unfolding emit_text view shown
emit_text-view true t t' bs s d = long t ∙ sym (long t')
  where
    long :
        (x : Bytes)
        → view (emit_text bs (record s { text = x; text_long = true }))
          ≡ view (record s { text = []; text_long = true })
    long x =
        view_if (ltb s.capture_cap (length x + length bs)) _ _ _ _ refl refl
        ∙ ap view (
            if_same (ltb s.capture_cap (length x + length bs))
              (record s { text = []; text_long = true }))
emit_text-view false t t' bs s d =
    ap (λ z. view (emit_text bs (record s { text = z; text_long = false }))) d

emit_text-rest :
    (bs : Bytes) (s : Scanner) (l : Bool) (k k' : Bytes) (n n' : ℕ)
    → shown l k ≡ shown l k'
    → view (emit_text bs (record s { key = k; key_long = l; offset = n }))
      ≡ view (emit_text bs (record s { key = k'; key_long = l; offset = n' }))
unfolding emit_text view
emit_text-rest bs s l k k' n n' e =
    view_if (ltb s.capture_cap (length s.text + length bs)) _ _ _ _ (same_key true []) (
      view_if (not s.text_long) _ _ _ _ (same_key s.text_long (s.text ++ bs))
        (same_key s.text_long s.text))
  where
    same_key : (u : Bool) (t : Bytes) → view (hidden l k u t n s) ≡ view (hidden l k' u t n' s)
    same_key u t =
        ap (λ z. record s { offset = 0; key = z; key_long = l; text = shown u t; text_long = u }) e

module _ (l : Bool) (k k' : Bytes) (u : Bool) (t t' : Bytes) (n n' : ℕ) (p : Output)
    (e : shown l k ≡ shown l k') (d : shown u t ≡ shown u t') where
  join-append :
      (bs : Bytes) (o : Output)
      → record (join p o) { bytes = (join p o).bytes ++ bs }
        ≡ join p (record o { bytes = o.bytes ++ bs })
  unfolding join
  join-append bs o =
      ap (λ z. record { restart = o.restart || p.restart; bytes = z }) (by_restart o.restart)
    where
      by_restart :
          (r : Bool)
          → (if r then o.bytes else p.bytes ++ o.bytes) ++ bs
            ≡ (if r then o.bytes ++ bs else p.bytes ++ (o.bytes ++ bs))
      by_restart true = refl
      by_restart false = append_assoc p.bytes o.bytes bs

  emit_as-Alike :
      (r : Role) (bs : Bytes) (s : Scanner) (o : Output)
      → Alike p
          (ok (emit_as r bs (hidden l k u t n s) (join p o)))
          (ok (emit_as r bs (hidden l k' u t' n' s) o))
  unfolding emit_as
  emit_as-Alike Role.key bs s o =
      to_alike _ _ _ _
        (emit_key-view l k k' bs (hidden l k u t n s) e
          ∙ emit_key-rest bs (hidden l k' u t n s) u t t' n n' d)
        refl
  emit_as-Alike Role.streamed bs s o =
      to_alike _ _ _ _ (view-alike l k k' u t t' n n' p e d s) (join-append bs o)
  emit_as-Alike (Role.captured i) bs s o =
      to_alike _ _ _ _
        (emit_text-view u t t' bs (hidden l k u t n s) d
          ∙ emit_text-rest bs (hidden l k u t' n s) l k k' n n' e)
        refl
  emit_as-Alike Role.skipped bs s o = same l k k' u t t' n n' p e d s o

  pub emit-Alike :
      (bs : Bytes) (s : Scanner) (o : Output)
      → Alike p
          (ok (emit bs (hidden l k u t n s) (join p o)))
          (ok (emit bs (hidden l k' u t' n' s) o))
  unfolding emit
  emit-Alike bs s o = emit_as-Alike s.role bs s o

  emit_char-Alike :
      (c : ℕ) (s : Scanner) (o : Output)
      → Alike p
          (emit_char c (hidden l k u t n s) (join p o))
          (emit_char c (hidden l k' u t' n' s) o)
  unfolding emit_char
  emit_char-Alike c s o = Alike-ok_or (from_u32 c) _ λ u. emit-Alike (encode_utf8 u) s o

  plain_byte-Alike :
      (b : ℕ) (s : Scanner) (o : Output)
      → Alike p
          (plain_byte b (hidden l k u t n s) (join p o))
          (plain_byte b (hidden l k' u t' n' s) o)
  unfolding plain_byte continuation open_utf8 set_esc set_utf8
  plain_byte-Alike b s o =
      Alike-if (ltb 0 s.utf8_need)
        (Alike-if _ (emit-Alike (b ∷ []) (set_utf8 (s.utf8_need - 1, 0x80, 0xBF) s) o) fails)
        (Alike-if _ (same l k k' u t t' n n' p e d (set_esc Esc.backslash s) o)
          (Alike-if _ fails (Alike-ok_or (lead_of b) _ λ u. emit-Alike (b ∷ []) (set_utf8 u s) o)))

  backslash_byte-Alike :
      (b : ℕ) (s : Scanner) (o : Output)
      → Alike p
          (backslash_byte b (hidden l k u t n s) (join p o))
          (backslash_byte b (hidden l k' u t' n' s) o)
  unfolding backslash_byte set_esc
  backslash_byte-Alike b s o =
      Alike-if _ (same l k k' u t t' n n' p e d (set_esc (Esc.hex 0 0 none) s) o)
        (Alike-ok_or (escaped b) _ λ c. emit-Alike (c ∷ []) (set_esc Esc.plain s) o)

  code_unit-Alike :
      (c : ℕ) (lead : Option ℕ) (s : Scanner) (o : Output)
      → Alike p
          (code_unit c lead (hidden l k u t n s) (join p o))
          (code_unit c lead (hidden l k' u t' n' s) o)
  unfolding code_unit set_esc
  code_unit-Alike c none s o =
      Alike-if _ (same l k k' u t t' n n' p e d (set_esc (Esc.low c false) s) o)
        (Alike-if _ fails (emit_char-Alike c s o))
  code_unit-Alike c (some hi) s o = Alike-if _ (emit_char-Alike _ s o) fails

  hex_byte-Alike :
      (c digits : ℕ) (lead : Option ℕ) (b : ℕ) (s : Scanner) (o : Output)
      → Alike p
          (hex_byte c digits lead b (hidden l k u t n s) (join p o))
          (hex_byte c digits lead b (hidden l k' u t' n' s) o)
  unfolding hex_byte hex_digit set_esc
  hex_byte-Alike c digits lead b s o = Alike-ok_or (to_digit b) _ λ v.
      Alike-if _
        (same l k k' u t t' n n' p e d (set_esc (Esc.hex (c * 16 % 65536 + v) (digits + 1) lead) s)
          o)
        (code_unit-Alike (c * 16 % 65536 + v) lead (set_esc Esc.plain s) o)

  low_byte-Alike :
      (lead : ℕ) (x : Bool) (b : ℕ) (s : Scanner) (o : Output)
      → Alike p
          (low_byte lead x b (hidden l k u t n s) (join p o))
          (low_byte lead x b (hidden l k' u t' n' s) o)
  unfolding low_byte set_esc
  low_byte-Alike lead false b s o =
      Alike-if _ (same l k k' u t t' n n' p e d (set_esc (Esc.low lead true) s) o) fails
  low_byte-Alike lead true b s o =
      Alike-if _ (same l k k' u t t' n n' p e d (set_esc (Esc.hex 0 0 (some lead)) s) o) fails

  pub escape_byte-Alike :
      (x : Esc) (b : ℕ) (s : Scanner) (o : Output)
      → Alike p
          (escape_byte x b (hidden l k u t n s) (join p o))
          (escape_byte x b (hidden l k' u t' n' s) o)
  unfolding escape_byte
  escape_byte-Alike Esc.plain b s o = plain_byte-Alike b s o
  escape_byte-Alike Esc.backslash b s o = backslash_byte-Alike b s o
  escape_byte-Alike (Esc.hex c digits lead) b s o = hex_byte-Alike c digits lead b s o
  escape_byte-Alike (Esc.low lead x) b s o = low_byte-Alike lead x b s o
