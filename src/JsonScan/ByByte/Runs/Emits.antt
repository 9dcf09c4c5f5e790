-- ===== src/JsonScan/ByByte/Runs/Emits.antt =====
-- src/json_scan.rs, `emit`: in one go or in two it leaves the same to be seen, and it keeps what
-- says where in a string the scanner is.
use remarkable_server.Base.{
  ℕ, ◌+◌, ◌≡◌, refl, ap, ◌∙◌, sym, inl, inr, ltb, if◌then◌else◌, Bool, Bool-cases, true, false, not,
  [], ◌++◌, length, length-append, Bytes, append_assoc, if_intro, if_true, if_false, arith,
}
use remarkable_server.Base.Result.{ok}
use remarkable_server.JsonScan.{key_cap, Output, State, Role, Esc, Scanner}
use remarkable_server.JsonScan.Text.{emit_key, emit_text, emit_as, emit}
use remarkable_server.JsonScan.ByByte.{shown, view, seen}
use remarkable_server.JsonScan.ByByte.Alike.Strings.{emit_text-view}
use remarkable_server.JsonScan.ByByte.Alike.{view_if, if_same}

emit_key-long :
    (bs : Bytes) (s : Scanner)
    → emit_key bs (record s { key_long = true }) ≡ record s { key_long = true }
unfolding emit_key
emit_key-long bs s = if_same _ (record s { key_long = true })

key_in_two :
    (l : Bool) (xs ys : Bytes) (s : Scanner)
    → view (emit_key (xs ++ ys) (record s { key_long = l }))
      ≡ view (emit_key ys (emit_key xs (record s { key_long = l })))
unfolding emit_key view shown
key_in_two true xs ys s =
    ap view (emit_key-long (xs ++ ys) s)
    ∙ sym (ap view (ap (emit_key ys) (emit_key-long xs s) ∙ emit_key-long ys s))
key_in_two false xs ys s = elim (Bool-cases (ltb key_cap (length s.key + length xs))) [
  | inl h ↦
      let over : ltb key_cap (length s.key + length (xs ++ ys)) ≡ true =
        ground (arith, length-append xs ys) in
      ap view (if_true _ (long s.key) (fits (s.key ++ (xs ++ ys))) over)
      ∙ sym (
          ap view
            (ap (emit_key ys) (if_true _ (long s.key) (fits (s.key ++ xs)) h) ∙ emit_key-long ys s))
  | inr h ↦
      let q : length s.key + length (xs ++ ys) ≡ length (s.key ++ xs) + length ys =
        omega (arith, length-append xs ys, length-append s.key xs) in
      ap (λ n. view (if ltb key_cap n then long s.key else fits (s.key ++ (xs ++ ys)))) q
      ∙ view_if (ltb key_cap (length (s.key ++ xs) + length ys)) (long s.key)
          (fits (s.key ++ (xs ++ ys))) (long (s.key ++ xs)) (fits ((s.key ++ xs) ++ ys)) refl
          (ap (λ z. view (fits z)) (sym (append_assoc s.key xs ys)))
      ∙ sym (ap (λ z. view (emit_key ys z)) (if_false _ (long s.key) (fits (s.key ++ xs)) h))
]
  where
    long : Bytes → Scanner
    long z = record s { key_long = true; key = z }

    fits : Bytes → Scanner
    fits z = record s { key_long = false; key = z }

emit_text-long :
    (bs : Bytes) (s : Scanner)
    → emit_text bs (record s { text_long = true; text = [] })
      ≡ record s { text_long = true; text = [] }
unfolding emit_text
emit_text-long bs s = if_same _ (record s { text_long = true; text = [] })

emit_text-long_view :
    (t bs : Bytes) (s : Scanner)
    → view (emit_text bs (record s { text_long = true; text = t }))
      ≡ view (record s { text_long = true; text = [] })
unfolding shown
emit_text-long_view t bs s = emit_text-view true t [] bs s refl ∙ ap view (emit_text-long bs s)

text_in_two :
    (u : Bool) (xs ys : Bytes) (s : Scanner)
    → view (emit_text (xs ++ ys) (record s { text_long = u }))
      ≡ view (emit_text ys (emit_text xs (record s { text_long = u })))
unfolding view emit_text shown
text_in_two true xs ys s =
    emit_text-long_view s.text (xs ++ ys) s
    ∙ sym (
        if_intro (λ z. view (emit_text ys z) ≡ view (record s { text_long = true; text = [] }))
          (ltb s.capture_cap (length s.text + length xs)) _ _ (λ h. emit_text-long_view [] ys s)
          (λ h. emit_text-long_view s.text ys s))
text_in_two false xs ys s = elim (Bool-cases (ltb s.capture_cap (length s.text + length xs))) [
  | inl h ↦
      let over : ltb s.capture_cap (length s.text + length (xs ++ ys)) ≡ true =
        ground (arith, length-append xs ys) in
      ap view (if_true _ long (fits (s.text ++ (xs ++ ys))) over)
      ∙ sym (
          ap view
            (ap (emit_text ys) (if_true _ long (fits (s.text ++ xs)) h) ∙ emit_text-long ys s))
  | inr h ↦
      let q : length s.text + length (xs ++ ys) ≡ length (s.text ++ xs) + length ys =
        omega (arith, length-append xs ys, length-append s.text xs) in
      ap (λ n. view (if ltb s.capture_cap n then long else fits (s.text ++ (xs ++ ys)))) q
      ∙ view_if (ltb s.capture_cap (length (s.text ++ xs) + length ys)) long
          (fits (s.text ++ (xs ++ ys))) long (fits ((s.text ++ xs) ++ ys)) refl
          (ap (λ z. view (fits z)) (sym (append_assoc s.text xs ys)))
      ∙ sym (ap (λ z. view (emit_text ys z)) (if_false _ long (fits (s.text ++ xs)) h))
]
  where
    long : Scanner
    long = record s { text_long = true; text = [] }

    fits : Bytes → Scanner
    fits z = record s { text_long = false; text = z }

as_in_two :
    (r : Role) (xs ys : Bytes) (s : Scanner) (o : Output)
    → s.role ≡ r
    → seen (ok (emit_as r (xs ++ ys) s o))
      ≡ seen (ok (emit_as r ys (emit_as r xs s o).0 (emit_as r xs s o).1))
unfolding emit_as seen
as_in_two Role.key xs ys s o e = ap (λ z. ok (z, o)) (key_in_two s.key_long xs ys s)
as_in_two Role.streamed xs ys s o e =
    ap (λ z. ok (view s, record o { bytes = z })) (sym (append_assoc o.bytes xs ys))
as_in_two (Role.captured i) xs ys s o e = ap (λ z. ok (z, o)) (text_in_two s.text_long xs ys s)
as_in_two Role.skipped xs ys s o e = refl

-- Where in a string the scanner is.
abbrev pub Place : Type 0
Place = State × Role × Esc × ℕ

unfoldable pub place : Scanner → Place
place s = (s.state, s.role, s.esc, s.utf8_need)

place_if :
    (b : Bool) (x y : Scanner) {z : Place}
    → place x ≡ z
    → place y ≡ z
    → place (if b then x else y) ≡ z
place_if true x y h h' = h
place_if false x y h h' = h'

place-emit_as :
    (r : Role) (bs : Bytes) (s : Scanner) (o : Output) → place (emit_as r bs s o).0 ≡ place s
unfolding emit_as emit_key emit_text place
place-emit_as Role.key bs s o = place_if _ _ _ refl (place_if (not s.key_long) _ _ refl refl)
place-emit_as Role.streamed bs s o = refl
place-emit_as (Role.captured i) bs s o =
    place_if _ _ _ refl (place_if (not s.text_long) _ _ refl refl)
place-emit_as Role.skipped bs s o = refl

pub place-emit : (bs : Bytes) (s : Scanner) (o : Output) → place (emit bs s o).0 ≡ place s
unfolding emit
place-emit bs s o = place-emit_as s.role bs s o

pub emit_in_two :
    (xs ys : Bytes) (s : Scanner) (o : Output)
    → seen (ok (emit (xs ++ ys) s o)) ≡ seen (ok (emit ys (emit xs s o).0 (emit xs s o).1))
unfolding emit place
emit_in_two xs ys s o =
    as_in_two s.role xs ys s o refl
    ∙ ap (λ r. seen (ok (emit_as r ys (emit xs s o).0 (emit xs s o).1)))
        (sym (ap (λ z. z.1) (place-emit xs s o)))
