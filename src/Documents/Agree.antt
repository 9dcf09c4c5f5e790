-- ===== src/Documents/Agree.antt =====
-- src/documents.rs and src/storage.rs read a root index alike.
use remarkable_server.Base.{
  ℕ, ◌≡◌, refl, ap, ◌∙◌, false, not, ◌&&◌, Option, none, some, List, [], ◌∷◌, is_empty, Bytes,
  bytes_eq, bytes_eq_iff, codes, if_intro, if_true, if_false, arith,
}
use remarkable_server.Base.Result.{Result, ok, err, ◌>>=◌}
use remarkable_server.Storage.Root.{is_valid_hash}
use remarkable_server.Storage.Index.{
  trim, lines, split_colon, parse_u64, IndexEntry, IndexError, is_summary, with_numbers,
  parse_entry, then_entries, parse_lines, with_schema, from_lines, parse_index,
}
use remarkable_server.Documents.{
  Entry, numbered, parse_fields, RootError, then_entry, parse_entries, parse_root_lines, parse_root,
}

numbered-with_numbers :
    (line hash kind name : Bytes) (a b : Option ℕ) (e : Entry)
    → numbered hash kind name a b ≡ some e
    → with_numbers line hash kind name a b ≡ ok e
unfolding numbered with_numbers
numbered-with_numbers line hash kind name (some n) (some m) e q = ap ok cc
numbered-with_numbers line hash kind name none b e q = cc
numbered-with_numbers line hash kind name (some n) none e q = cc

parse_fields-parse_entry :
    (line : Bytes) (fields : List Bytes) (e : Entry)
    → parse_fields fields ≡ some e
    → parse_entry line fields ≡ ok e
unfolding parse_fields parse_entry
parse_fields-parse_entry line [] e q = cc
parse_fields-parse_entry line (a ∷ []) e q = cc
parse_fields-parse_entry line (a ∷ b ∷ []) e q = cc
parse_fields-parse_entry line (a ∷ b ∷ c ∷ []) e q = cc
parse_fields-parse_entry line (a ∷ b ∷ c ∷ d ∷ []) e q = cc
parse_fields-parse_entry line (hash ∷ kind ∷ name ∷ n ∷ m ∷ []) e q =
    if_intro (λ x. x ≡ some e → parse_entry line (hash ∷ kind ∷ name ∷ n ∷ m ∷ []) ≡ ok e)
      (is_valid_hash hash && (not (is_empty kind) && not (is_empty name)))
      (numbered hash kind name (parse_u64 n) (parse_u64 m)) none
      (λ d q'.
        if_false (not (is_valid_hash hash)) _ _ (ground arith)
        ∙ numbered-with_numbers line hash kind name (parse_u64 n) (parse_u64 m) e q')
      (λ d q'. cc) q
parse_fields-parse_entry line (a ∷ b ∷ c ∷ d ∷ f ∷ g ∷ more) e q = cc

not_summary : (fields : List Bytes) → is_summary (codes "3") fields ≡ false
unfolding is_summary
not_summary [] = refl
not_summary (a ∷ []) = refl
not_summary (a ∷ b ∷ []) = refl
not_summary (a ∷ b ∷ c ∷ []) = refl
not_summary (a ∷ b ∷ c ∷ d ∷ []) = refl
not_summary (a ∷ b ∷ c ∷ d ∷ f ∷ more) = refl

then_entries-alike :
    (line : Bytes) (x : Option Entry) (y : Result RootError (List Entry)) (es : List Entry)
    (x' : Result IndexError IndexEntry) (y' : Result IndexError (List IndexEntry))
    → ((e : Entry) → x ≡ some e → x' ≡ ok e)
    → ((more : List Entry) → y ≡ ok more → y' ≡ ok more)
    → then_entry line x y ≡ ok es
    → then_entries x' y' ≡ ok es
unfolding then_entry then_entries
then_entries-alike line (some e) (ok more) es x' y' h h' q =
    ap (λ z. then_entries z y') (h e refl) ∙ ap (then_entries (ok e)) (h' more refl) ∙ ap ok cc
then_entries-alike line (some e) (err f) es x' y' h h' q = cc
then_entries-alike line none y es x' y' h h' q = cc

parse_lines-alike :
    (ls : List Bytes) (es : List Entry)
    → parse_entries ls ≡ ok es
    → parse_lines (codes "3") ls ≡ ok es
unfolding parse_entries parse_lines
parse_lines-alike [] es q = ap ok cc
parse_lines-alike (line ∷ ls) es q =
    if_intro (λ x. x ≡ ok es → parse_lines (codes "3") (line ∷ ls) ≡ ok es) (is_empty (trim line))
      (parse_entries ls) (then_entry line (parse_fields (split_colon line)) (parse_entries ls))
      (λ d q'. if_true (is_empty (trim line)) _ _ d ∙ parse_lines-alike ls es q')
      (λ d q'.
        if_false (is_empty (trim line)) _ _ d
        ∙ if_false (is_summary (codes "3") (split_colon line)) _ _ (not_summary (split_colon line))
        ∙ then_entries-alike line (parse_fields (split_colon line)) (parse_entries ls) es
            (parse_entry line (split_colon line)) (parse_lines (codes "3") ls)
            (parse_fields-parse_entry line (split_colon line)) (parse_lines-alike ls) q')
      q

-- A root index that `parse_root` accepts is one of schema 3 for the projection's parser too, with
-- the same entries.
pub parse_index-parse_root :
    (text : Bytes) (es : List Entry)
    → parse_root (some text) ≡ ok es
    → parse_index text ≡ ok (codes "3", es)
unfolding parse_root parse_root_lines parse_index from_lines with_schema trim
parse_index-parse_root text es q = by_lines (lines text) q
  where
    by_lines : (ls : List Bytes) → parse_root_lines ls ≡ ok es → from_lines ls ≡ ok (codes "3", es)
    by_lines [] q = cc
    by_lines (l ∷ ls) q =
        if_intro (λ x. x ≡ ok es → from_lines (l ∷ ls) ≡ ok (codes "3", es))
          (bytes_eq l (codes "3")) (parse_entries ls) _
          (λ d q'.
            ap (λ z. from_lines (z ∷ ls)) ((bytes_eq_iff l (codes "3")).0 d)
            ∙ ap {A = Result IndexError (List IndexEntry)}
                (λ r. r >>= λ entries. ok (codes "3", entries)) (parse_lines-alike ls es q'))
          (λ d q'. cc) q
