-- ===== src/Documents/Parsed.antt =====
-- src/documents.rs: what `parse_root` accepts, can be written again, and the parser of the storage
-- reads the same of it.
use remarkable_server.Base.{
  ℕ, ◌^◌, ◌<◌, ◌≡◌, refl, subst, ◌==◌, true, not, ◌&&◌, Option, none, some, List, [], ◌∷◌, is_empty,
  Bytes, bytes_eq, codes, All, if_intro, arith,
}
use remarkable_server.Base.Utf8.{is_scalar}
use remarkable_server.Base.Result.{Result, ok, err}
use remarkable_server.Storage.Root.{is_valid_hash}
use remarkable_server.Storage.Index.{
  trim, onto_first, starts_with_lf, lines, split_colon, parse_u64,
}
use remarkable_server.Storage.Index.Parsed.{IsField, split_colon-IsField, parse_u64-lt}
use remarkable_server.Documents.{
  Entry, numbered, parse_fields, RootError, then_entry, parse_entries, parse_root_lines, parse_root,
}
use remarkable_server.Documents.ReadBack.{IsPlain, IsInline, IsWritable}

-- Every character is a scalar value.
abbrev pub IsText : Bytes → Type 0
IsText s = All (λ c. is_scalar c ≡ true) s

onto_first-All :
    (c : ℕ) (ls : List Bytes) → IsPlain c → All IsInline ls → All IsInline (onto_first c ls)
unfolding onto_first
onto_first-All c [] h h' = ((h, tt), tt)
onto_first-All c (l ∷ ls) h h' = ((h, h'.0), h'.1)

lines-IsInline : (s : Bytes) → IsText s → All IsInline (lines s)
unfolding lines
lines-IsInline [] h = tt
lines-IsInline (c ∷ cs) h =
    if_intro (All IsInline) (c == 0x0A) ([] ∷ lines cs) _ (λ q. (tt, lines-IsInline cs h.1))
      (λ q.
        if_intro (All IsInline) (c == 0x0D && starts_with_lf cs) (lines cs)
          (onto_first c (lines cs)) (λ q'. lines-IsInline cs h.1)
          (λ q'. onto_first-All c (lines cs) (ground arith, h.0) (lines-IsInline cs h.1)))

split_colon-IsInline : (s : Bytes) → IsInline s → All IsInline (split_colon s)
unfolding split_colon
split_colon-IsInline [] h = (tt, tt)
split_colon-IsInline (c ∷ cs) h =
    if_intro (All IsInline) (c == 0x3A) _ _ (λ q. (tt, split_colon-IsInline cs h.1))
      (λ q. onto_first-All c (split_colon cs) h.0 (split_colon-IsInline cs h.1))

numbered-IsWritable :
    (hash kind name : Bytes) (a b : Option ℕ) (e : Entry)
    → (is_valid_hash hash && (not (is_empty kind) && not (is_empty name))) ≡ true
    → IsField kind
    → IsField name
    → IsInline kind
    → IsInline name
    → ((v : ℕ) → a ≡ some v → v < 2 ^ 64)
    → ((v : ℕ) → b ≡ some v → v < 2 ^ 64)
    → numbered hash kind name a b ≡ some e
    → IsWritable e
unfolding numbered
numbered-IsWritable hash kind name (some n) (some m) e h k f k' f' fits fits' q =
    let same : record { hash = hash; kind = kind; name = name; subfiles = n; size = m } ≡ e = cc in
    subst IsWritable same
      (ground arith, ground arith, ground arith, k, f, k', f', fits n refl, fits' m refl)
numbered-IsWritable hash kind name none b e h k f k' f' fits fits' q = cc
numbered-IsWritable hash kind name (some n) none e h k f k' f' fits fits' q = cc

parse_fields-IsWritable :
    (fields : List Bytes) (e : Entry)
    → All IsField fields
    → All IsInline fields
    → parse_fields fields ≡ some e
    → IsWritable e
unfolding parse_fields
parse_fields-IsWritable [] e h h' q = cc
parse_fields-IsWritable (a ∷ []) e h h' q = cc
parse_fields-IsWritable (a ∷ b ∷ []) e h h' q = cc
parse_fields-IsWritable (a ∷ b ∷ c ∷ []) e h h' q = cc
parse_fields-IsWritable (a ∷ b ∷ c ∷ d ∷ []) e h h' q = cc
parse_fields-IsWritable (hash ∷ kind ∷ name ∷ n ∷ m ∷ []) e h h' q =
    if_intro (λ x. x ≡ some e → IsWritable e)
      (is_valid_hash hash && (not (is_empty kind) && not (is_empty name)))
      (numbered hash kind name (parse_u64 n) (parse_u64 m)) none
      (λ d.
        numbered-IsWritable hash kind name (parse_u64 n) (parse_u64 m) e d h.1.0 h.1.1.0 h'.1.0
          h'.1.1.0 (parse_u64-lt n) (parse_u64-lt m))
      (λ d q'. cc) q
parse_fields-IsWritable (a ∷ b ∷ c ∷ d ∷ f ∷ g ∷ more) e h h' q = cc

then_entry-All :
    (line : Bytes) (x : Option Entry) (y : Result RootError (List Entry)) (es : List Entry)
    → ((e : Entry) → x ≡ some e → IsWritable e)
    → ((more : List Entry) → y ≡ ok more → All IsWritable more)
    → then_entry line x y ≡ ok es
    → All IsWritable es
unfolding then_entry
then_entry-All line (some e) (ok more) es h h' q =
    let same : e ∷ more ≡ es = cc in subst (All IsWritable) same (h e refl, h' more refl)
then_entry-All line (some e) (err f) es h h' q = cc
then_entry-All line none y es h h' q = cc

parse_entries-All :
    (ls : List Bytes) (es : List Entry)
    → All IsInline ls
    → parse_entries ls ≡ ok es
    → All IsWritable es
unfolding parse_entries
parse_entries-All [] es h q = let same : [] ≡ es = cc in subst (All IsWritable) same tt
parse_entries-All (line ∷ ls) es h q =
    if_intro (λ x. x ≡ ok es → All IsWritable es) (is_empty (trim line)) _ _
      (λ d. parse_entries-All ls es h.1)
      (λ d.
        then_entry-All line (parse_fields (split_colon line)) (parse_entries ls) es
          (λ e.
            parse_fields-IsWritable (split_colon line) e (split_colon-IsField line)
              (split_colon-IsInline line h.0))
          (λ more. parse_entries-All ls more h.1))
      q

-- The entries of a root index that is understood can be written again.
pub parse_root-IsWritable :
    (text : Bytes) (es : List Entry)
    → IsText text
    → parse_root (some text) ≡ ok es
    → All IsWritable es
unfolding parse_root parse_root_lines
parse_root-IsWritable text es h q = by_lines (lines text) (lines-IsInline text h) q
  where
    by_lines : (ls : List Bytes) → All IsInline ls → parse_root_lines ls ≡ ok es → All IsWritable es
    by_lines [] h q = cc
    by_lines (l ∷ ls) h q =
        if_intro (λ x. x ≡ ok es → All IsWritable es) (bytes_eq l (codes "3")) (parse_entries ls) _
          (λ d. parse_entries-All ls es h.1) (λ d q'. cc) q
