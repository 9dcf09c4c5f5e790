-- ===== src/JsonScan/Bounds/Strings.antt =====
-- src/json_scan.rs inside strings: every buffer stays within its cap.
use remarkable_server.Base.{
  ℕ, if_intro, zero, suc, ◌+◌, ◌-◌, ◌*◌, ◌%◌, ◌==◌, ltb, leb, if◌then◌else◌, true, false, not, ◌&&◌,
  [], ◌∷◌, length, length-append, Bytes, bytes_eq, Option, none, some, arith,
}
use remarkable_server.Base.Utf8.{is_utf8}
use remarkable_server.Base.Result.{ok, ◌>>=◌}
use remarkable_server.JsonScan.{key_cap, Member, Output, State, Role, Esc, Scanner}
use remarkable_server.JsonScan.Structure.{Step, set_elem, value_done}
use remarkable_server.JsonScan.Text.{
  emit_key, emit_text, emit_as, emit, emit_char, set_esc, set_utf8, continuation, open_utf8,
  plain_byte, backslash_byte, code_unit, hex_digit, hex_byte, low_byte, escape_byte,
  raw_value_token, target, end_key, end_captured, end_string_as, end_string,
}
use remarkable_server.JsonScan.Text.Char.{to_digit, lead_of, escaped, from_u32, encode_utf8}
use remarkable_server.JsonScan.Feed.{
  run, after_run, is_plain, at_character, Rest, leaving, string_loop,
}
use remarkable_server.JsonScan.Bounds.{
  IsBounded, holds, Holds-if, Holds-ok_or, fails, kept, kept_silent, Bounded, Quiet, Left,
}

module _ (limit : ℕ) where
  emit_key-IsBounded :
      (bs : Bytes) (s : Scanner) → IsBounded limit s → IsBounded limit (emit_key bs s)
  unfolding emit_key
  emit_key-IsBounded bs s (c, d, k, t, n) =
      if_intro (IsBounded limit) (ltb key_cap (length s.key + length bs)) _ _ (λ h. (c, d, k, t, n))
        λ h.
          if_intro (IsBounded limit) (not s.key_long) _ _
            (λ h'. (c, d, ground (arith, length-append s.key bs), t, n)) λ h'. (c, d, k, t, n)

  emit_text-IsBounded :
      (bs : Bytes) (s : Scanner) → IsBounded limit s → IsBounded limit (emit_text bs s)
  unfolding emit_text
  emit_text-IsBounded bs s (c, d, k, t, n) =
      if_intro (IsBounded limit) (ltb s.capture_cap (length s.text + length bs)) _ _
        (λ h. (c, d, k, omega arith, n))
        λ h.
          if_intro (IsBounded limit) (not s.text_long) _ _
            (λ h'. (c, d, k, ground (arith, length-append s.text bs), n)) λ h'. (c, d, k, t, n)

  emit_as-Bounded :
      (r : Role) (bs : Bytes) (s : Scanner) (o : Output)
      → IsBounded limit s
      → Bounded limit (ok (emit_as r bs s o))
  unfolding emit_as
  emit_as-Bounded Role.key bs s o h = kept (emit_key bs s) o (emit_key-IsBounded bs s h)
  emit_as-Bounded Role.streamed bs s o h = kept s _ h
  emit_as-Bounded (Role.captured i) bs s o h = kept (emit_text bs s) o (emit_text-IsBounded bs s h)
  emit_as-Bounded Role.skipped bs s o h = kept s o h

  emit-Bounded :
      (bs : Bytes) (s : Scanner) (o : Output) → IsBounded limit s → Bounded limit (ok (emit bs s o))
  unfolding emit
  emit-Bounded bs s o h = emit_as-Bounded s.role bs s o h

  code_unit-Bounded :
      (c : ℕ) (lead : Option ℕ) (s : Scanner) (o : Output)
      → IsBounded limit s
      → Bounded limit (code_unit c lead s o)
  unfolding code_unit set_esc emit_char
  code_unit-Bounded c none s o h =
      Holds-if (leb 0xD800 c && leb c 0xDBFF) (kept (set_esc (Esc.low c false) s) o h) (
        Holds-if (leb 0xDC00 c && leb c 0xDFFF) (fails _)
          (Holds-ok_or (from_u32 c) _ λ v. emit-Bounded (encode_utf8 v) s o h))
  code_unit-Bounded c (some hi) s o h =
      Holds-if (leb 0xDC00 c && leb c 0xDFFF)
        (Holds-ok_or (from_u32 (0x10000 + ((hi - 0xD800) * 1024 + (c - 0xDC00)))) _
          λ v. emit-Bounded (encode_utf8 v) s o h)
        (fails _)

  plain_byte-Bounded :
      (b : ℕ) (s : Scanner) (o : Output) → IsBounded limit s → Bounded limit (plain_byte b s o)
  unfolding plain_byte continuation open_utf8 set_esc set_utf8
  plain_byte-Bounded b s o h =
      Holds-if (ltb 0 s.utf8_need)
        (Holds-if (leb s.utf8_lo b && leb b s.utf8_hi)
          (emit-Bounded (b ∷ []) (set_utf8 (s.utf8_need - 1, 0x80, 0xBF) s) o h) (fails _))
        (Holds-if (b == 0x5C) (kept (set_esc Esc.backslash s) o h) (
          Holds-if (ltb b 0x20) (fails _)
            (Holds-ok_or (lead_of b) _ λ u. emit-Bounded (b ∷ []) (set_utf8 u s) o h)))

  escape_byte-Bounded :
      (e : Esc) (b : ℕ) (s : Scanner) (o : Output)
      → IsBounded limit s
      → Bounded limit (escape_byte e b s o)
  unfolding escape_byte backslash_byte hex_byte hex_digit low_byte set_esc
  escape_byte-Bounded Esc.plain b s o h = plain_byte-Bounded b s o h
  escape_byte-Bounded Esc.backslash b s o h =
      Holds-if (b == 0x75) (kept (set_esc (Esc.hex 0 0 none) s) o h)
        (Holds-ok_or (escaped b) _ λ c. emit-Bounded (c ∷ []) (set_esc Esc.plain s) o h)
  escape_byte-Bounded (Esc.hex c digits lead) b s o h = Holds-ok_or (to_digit b) _ λ v.
      Holds-if (ltb digits 3)
        (kept (set_esc (Esc.hex (c * 16 % 65536 + v) (digits + 1) lead) s) o h)
        (code_unit-Bounded (c * 16 % 65536 + v) lead (set_esc Esc.plain s) o h)
  escape_byte-Bounded (Esc.low lead false) b s o h =
      Holds-if (b == 0x5C) (kept (set_esc (Esc.low lead true) s) o h) (fails _)
  escape_byte-Bounded (Esc.low lead true) b s o h =
      Holds-if (b == 0x75) (kept (set_esc (Esc.hex 0 0 (some lead)) s) o h) (fails _)

  end_string_as-Quiet :
      (r : Role) (s : Scanner) → IsBounded limit s → Quiet limit (end_string_as r s)
  unfolding end_string_as end_key end_captured value_done
  end_string_as-Quiet Role.key s h =
      Holds-if (s.first_key && (not s.key_long && bytes_eq s.key raw_value_token)) (fails _) (
        holds
          (record s {
            member = if length s.stack == 1 then target s else s.member;
            state = State.colon;
          })
          h)
  end_string_as-Quiet Role.streamed s h = holds (value_done s) h
  end_string_as-Quiet (Role.captured i) s (c, d, k, t, n) =
      Holds-if s.text_long
        (holds (value_done (record s { captured = set_elem s.captured i Member.too_long }))
          (c, d, k, t, n))
        (Holds-if (is_utf8 s.text)
          (holds
            (value_done
              (record s { text = []; captured = set_elem s.captured i (Member.text s.text) }))
            (c, d, k, omega arith, n))
          (fails _))
  end_string_as-Quiet Role.skipped s h = holds (value_done s) h

  pub leaving-Left : (rest : Bytes) (x : Step) → Bounded limit x → Left limit (leaving rest x)
  unfolding leaving
  leaving-Left rest _ (holds r h) = holds (r, rest) h
  leaving-Left rest _ (fails f) = fails f

  then-Left :
      (x : Step) (f : Scanner → Output → Rest)
      → Bounded limit x
      → ((s : Scanner) (o : Output) → IsBounded limit s → Left limit (f s o))
      → Left limit (x >>= λ r. f r.0 r.1)
  then-Left _ f (holds r h) each = each r.0 r.1 h
  then-Left _ f (fails x) each = fails x

  pub string_loop-Bounded :
      (fuel : ℕ) (bs : Bytes) (s : Scanner) (o : Output)
      → IsBounded limit s
      → Left limit (string_loop fuel bs s o)
  unfolding string_loop end_string
  string_loop-Bounded fuel [] s o h = holds ((s, o), []) h
  string_loop-Bounded zero (b ∷ rest) s o h = holds ((s, o), b ∷ rest) h
  string_loop-Bounded (suc fuel) (b ∷ rest) s o h =
      Holds-if (at_character s.esc s.utf8_need && b == 0x22)
        (leaving-Left rest _ (kept_silent o (end_string s) (end_string_as-Quiet s.role s h)))
        (Holds-if (at_character s.esc s.utf8_need && is_plain b)
          (then-Left (ok (emit (b ∷ run is_plain rest) s o))
            (string_loop fuel (after_run is_plain rest))
            (emit-Bounded (b ∷ run is_plain rest) s o h)
            (string_loop-Bounded fuel (after_run is_plain rest)))
          (then-Left (escape_byte s.esc b s o) (string_loop fuel rest)
            (escape_byte-Bounded s.esc b s o h) (string_loop-Bounded fuel rest)))
