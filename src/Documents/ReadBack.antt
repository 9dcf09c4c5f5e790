-- ===== src/Documents/ReadBack.antt =====
-- src/documents.rs: what `render_index` writes, `parse_root` reads back.
use remarkable_server.Base.{
  ℕ, ◌^◌, ◌≤◌, ◌<◌, ◌≡◌, ◌≢◌, refl, ap, ◌∙◌, sym, subst, ◌==◌, true, false, not, ◌&&◌, some, List,
  [], ◌∷◌, ◌++◌, is_empty, Bytes, All, if_intro, if_true, if_false, arith, append_assoc,
}
use remarkable_server.Base.Utf8.{is_scalar}
use remarkable_server.Base.Result.{ok}
use remarkable_server.Storage.Root.{is_hex, is_valid_hash}
use remarkable_server.Storage.Index.{
  is_whitespace, trim, trim_start, trim_end, onto_first, starts_with_lf, lines, split_colon,
  parse_u64,
}
use remarkable_server.Storage.Index.Parsed.{IsField}
use remarkable_server.Documents.{
  Entry, numbered, parse_fields, then_entry, parse_entries, parse_root_lines, parse_root,
  render_entry, render_entries, render_index,
}
use remarkable_server.Documents.Decimal.{
  decimal, IsDigit, decimal-All, decimal_some, parse_u64-decimal,
}

-- A character, and no line feed.
abbrev pub IsPlain : ℕ → Type 0
IsPlain c = (c ≢ 0x0A) × (is_scalar c ≡ true)

abbrev pub IsInline : Bytes → Type 0
IsInline s = All IsPlain s

-- The last character is no carriage return.
unfoldable pub EndsWell : Bytes → Type 0
EndsWell [] = Unit
EndsWell (c ∷ []) = c ≢ 0x0D
EndsWell (c ∷ d ∷ cs) = EndsWell (d ∷ cs)

-- An entry that the index format can carry.
abbrev pub IsWritable : Entry → Type 0
IsWritable e =
    (is_valid_hash e.hash ≡ true)
    × (is_empty e.kind ≡ false)
    × (is_empty e.name ≡ false)
    × IsField e.kind
    × IsField e.name
    × IsInline e.kind
    × IsInline e.name
    × (e.subfiles < 2 ^ 64)
    × (e.size < 2 ^ 64)

split_colon-append :
    (f rest : Bytes) → IsField f → split_colon (f ++ (0x3A ∷ rest)) ≡ f ∷ split_colon rest
unfolding split_colon
split_colon-append [] rest h = refl
split_colon-append (c ∷ f) rest h =
    let n : c ≢ 0x3A = h.0 in
    if_false (c == 0x3A) _ _ (ground arith) ∙ ap (onto_first c) (split_colon-append f rest h.1)

split_colon-field : (f : Bytes) → IsField f → split_colon f ≡ f ∷ []
unfolding split_colon
split_colon-field [] h = refl
split_colon-field (c ∷ f) h =
    let n : c ≢ 0x3A = h.0 in
    if_false (c == 0x3A) _ _ (ground arith) ∙ ap (onto_first c) (split_colon-field f h.1)

lines-append :
    (l rest : Bytes) → IsInline l → EndsWell l → lines (l ++ (0x0A ∷ rest)) ≡ l ∷ lines rest
unfolding lines onto_first starts_with_lf EndsWell
lines-append [] rest h w = refl
lines-append (c ∷ []) rest h w =
    let n : c ≢ 0x0A = h.0.0 in
    if_false (c == 0x0A) _ _ (ground arith) ∙ if_false (c == 0x0D && true) _ _ (ground arith)
lines-append (c ∷ d ∷ l) rest h w =
    let n : c ≢ 0x0A = h.0.0 in
    let n' : d ≢ 0x0A = h.1.0.0 in
    if_false (c == 0x0A) _ _ (ground arith)
    ∙ if_false (c == 0x0D && (d == 0x0A)) _ _ (ground arith)
    ∙ ap (onto_first c) (lines-append (d ∷ l) rest h.1 w)

pub All-append : (P : ℕ → Type 0) (s t : Bytes) → All P s → All P t → All P (s ++ t)
All-append P [] t h h' = h'
All-append P (c ∷ s) t h h' = (h.0, All-append P s t h.1 h')

EndsWell-append : (s t : Bytes) → is_empty t ≡ false → EndsWell t → EndsWell (s ++ t)
unfolding EndsWell
EndsWell-append [] t e h = h
EndsWell-append (c ∷ []) [] e h = cc
EndsWell-append (c ∷ []) (d ∷ t) e h = h
EndsWell-append (c ∷ d ∷ s) t e h = EndsWell-append (d ∷ s) t e h

EndsWell-digits : (s : Bytes) → All IsDigit s → EndsWell s
unfolding EndsWell
EndsWell-digits [] h = tt
EndsWell-digits (c ∷ []) h = let l : 0x30 ≤ c = h.0.0 in λ e. omega arith
EndsWell-digits (c ∷ d ∷ s) h = EndsWell-digits (d ∷ s) h.1

digits-IsField : (s : Bytes) → All IsDigit s → IsField s
digits-IsField [] h = tt
digits-IsField (c ∷ s) h = let l : c ≤ 0x39 = h.0.1 in ((λ e. omega arith), digits-IsField s h.1)

digits-IsInline : (s : Bytes) → All IsDigit s → IsInline s
digits-IsInline [] h = tt
digits-IsInline (c ∷ s) h =
    let l : 0x30 ≤ c = h.0.0 in
    let u : c ≤ 0x39 = h.0.1 in ((omega arith, ground arith), digits-IsInline s h.1)

-- A digit of a hash.
abbrev pub IsHexDigit : ℕ → Type 0
IsHexDigit c = (0x30 ≤ c) × (c ≤ 0x66) × (c ≢ 0x3A)

is_hex-All : (s : Bytes) → is_hex s ≡ true → All IsHexDigit s
unfolding is_hex
is_hex-All [] h = tt
is_hex-All (c ∷ s) h = ((ground arith, ground arith, ground arith), is_hex-All s (ground arith))

hex-IsField : (s : Bytes) → All IsHexDigit s → IsField s
hex-IsField [] h = tt
hex-IsField (c ∷ s) h = (h.0.2, hex-IsField s h.1)

hex-IsInline : (s : Bytes) → All IsHexDigit s → IsInline s
hex-IsInline [] h = tt
hex-IsInline (c ∷ s) h =
    let l : 0x30 ≤ c = h.0.0 in
    let u : c ≤ 0x66 = h.0.1 in ((omega arith, ground arith), hex-IsInline s h.1)

colon-IsPlain : IsPlain 0x3A
colon-IsPlain = (omega arith, refl)

-- The line of an entry, without its line feed.
unfoldable pub line_of : Entry → Bytes
line_of e =
    e.hash
    ++ (0x3A
        ∷ (e.kind ++ (0x3A ∷ (e.name ++ (0x3A ∷ (decimal e.subfiles ++ (0x3A ∷ decimal e.size)))))))

pub render_entry-line_of :
    (e : Entry) (rest : Bytes) → render_entry e rest ≡ line_of e ++ (0x0A ∷ rest)
unfolding render_entry line_of
render_entry-line_of e rest = simp append_assoc

module _ (e : Entry) (h : IsWritable e) where
  pub line-IsInline : IsInline (line_of e)
  unfolding line_of is_valid_hash
  line-IsInline =
      let colon : IsPlain 0x3A = colon-IsPlain in
      All-append IsPlain e.hash _ (hex-IsInline e.hash (is_hex-All e.hash (ground (arith, h.0)))) (
        colon,
        All-append IsPlain e.kind _ h.5 (
          colon,
          All-append IsPlain e.name _ h.6 (
            colon,
            All-append IsPlain (decimal e.subfiles) _
                (digits-IsInline (decimal e.subfiles) (decimal-All e.subfiles))
                (colon, digits-IsInline (decimal e.size) (decimal-All e.size)),
          ),
        ),
      )

  line-EndsWell : EndsWell (line_of e)
  unfolding line_of
  line-EndsWell =
      let regroup : (e.hash
              ++ (0x3A
                  ∷ (e.kind ++ (0x3A ∷ (e.name ++ (0x3A ∷ (decimal e.subfiles ++ (0x3A ∷ []))))))))
            ++ decimal e.size
          ≡ line_of e =
        simp append_assoc in
      subst EndsWell regroup (
        EndsWell-append _ (decimal e.size) (decimal_some e.size)
          (EndsWell-digits (decimal e.size) (decimal-All e.size)))

  split_colon-line_of :
      split_colon (line_of e) ≡ e.hash ∷ e.kind ∷ e.name ∷ decimal e.subfiles ∷ decimal e.size ∷ []
  unfolding line_of is_valid_hash
  split_colon-line_of =
      split_colon-append e.hash _ (hex-IsField e.hash (is_hex-All e.hash (ground (arith, h.0))))
      ∙ ap (λ z. e.hash ∷ z)
          (split_colon-append e.kind _ h.3
            ∙ ap (λ z. e.kind ∷ z)
                (split_colon-append e.name _ h.4
                  ∙ ap (λ z. e.name ∷ z)
                      (split_colon-append (decimal e.subfiles) _
                          (digits-IsField (decimal e.subfiles) (decimal-All e.subfiles))
                        ∙ ap (λ z. decimal e.subfiles ∷ z)
                            (split_colon-field (decimal e.size)
                              (digits-IsField (decimal e.size) (decimal-All e.size))))))

  parse_fields-line : parse_fields (split_colon (line_of e)) ≡ some e
  unfolding parse_fields numbered
  parse_fields-line =
      ap parse_fields split_colon-line_of
      ∙ if_true (is_valid_hash e.hash && (not (is_empty e.kind) && not (is_empty e.name))) _ _
          (ground (arith, h.0, h.1, h.2))
      ∙ ap (λ x. numbered e.hash e.kind e.name x (parse_u64 (decimal e.size)))
          (parse_u64-decimal e.subfiles h.7)
      ∙ ap (numbered e.hash e.kind e.name (some e.subfiles)) (parse_u64-decimal e.size h.8)

trim_start-hex : (c : ℕ) (s : Bytes) → IsHexDigit c → trim_start (c ∷ s) ≡ c ∷ s
unfolding trim_start is_whitespace
trim_start-hex c s h = if_false (is_whitespace c) _ _ (ground (arith, h.0, h.1))

trim_end-hex : (c : ℕ) (s : Bytes) → IsHexDigit c → is_empty (trim_end (c ∷ s)) ≡ false
unfolding trim_end is_whitespace
trim_end-hex c s h =
    if_intro (λ z. is_empty z ≡ false) (is_empty (trim_end s) && is_whitespace c) []
      (c ∷ trim_end s) (λ q. ground (arith, h.0, h.1)) (λ q. refl)

pub valid_trim :
    (hash rest : Bytes) → is_valid_hash hash ≡ true → is_empty (trim (hash ++ rest)) ≡ false
unfolding is_valid_hash trim
valid_trim [] rest h = cc
valid_trim (c ∷ hash) rest h =
    let d : All IsHexDigit (c ∷ hash) = is_hex-All (c ∷ hash) (ground arith) in
    ap (λ z. is_empty (trim_end z)) (trim_start-hex c (hash ++ rest) d.0)
    ∙ trim_end-hex c (hash ++ rest) d.0

-- Every character of a root index that is written is one.
pub render_index-All :
    (es : List Entry) → All IsWritable es → All (λ c. is_scalar c ≡ true) (render_index es)
unfolding render_index
render_index-All es h = (refl, (refl, of_entries es h))
  where
    scalars : (s : Bytes) → IsInline s → All (λ c. is_scalar c ≡ true) s
    scalars [] h = tt
    scalars (c ∷ s) h = (h.0.1, scalars s h.1)

    of_entries :
        (es : List Entry) → All IsWritable es → All (λ c. is_scalar c ≡ true) (render_entries es)
    of_entries [] h = tt
    of_entries (e ∷ es) h =
        subst (All (λ c. is_scalar c ≡ true)) (sym (render_entry-line_of e (render_entries es))) (
          All-append (λ c. is_scalar c ≡ true) (line_of e) _
            (scalars (line_of e) (line-IsInline e h.0)) (refl, of_entries es h.1))

parse_entries-render :
    (es : List Entry) → All IsWritable es → parse_entries (lines (render_entries es)) ≡ ok es
unfolding parse_entries render_entries lines then_entry line_of
parse_entries-render [] h = refl
parse_entries-render (e ∷ es) h =
    ap (λ z. parse_entries (lines z)) (render_entry-line_of e (render_entries es))
    ∙ ap parse_entries
        (lines-append (line_of e) (render_entries es) (line-IsInline e h.0) (line-EndsWell e h.0))
    ∙ if_false (is_empty (trim (line_of e))) _ _ (valid_trim e.hash _ h.0.0)
    ∙ ap (λ x. then_entry (line_of e) x (parse_entries (lines (render_entries es))))
        (parse_fields-line e h.0)
    ∙ ap (then_entry (line_of e) (some e)) (parse_entries-render es h.1)

-- A root index of entries that the format can carry (a valid hash, a type and a name that are not
-- empty and hold characters other than a colon and a line feed, two numbers of 64 bits) is read
-- back as those entries, in their order.
pub parse_root-render_index :
    (es : List Entry) → All IsWritable es → parse_root (some (render_index es)) ≡ ok es
unfolding parse_root render_index lines parse_root_lines
parse_root-render_index es h = parse_entries-render es h
