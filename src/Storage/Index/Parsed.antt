-- ===== src/Storage/Index/Parsed.antt =====
-- src/storage.rs, `parse_index`: what an index that parses holds.
use remarkable_server.Base.{
  ℕ, ◌+◌, ◌-◌, ◌*◌, ◌^◌, ◌<◌, ◌≡◌, ◌≢◌, ◌⊎◌, refl, subst, ◌==◌, ltb, leb, true, not, ◌&&◌, Option,
  none, some, List, [], ◌∷◌, is_empty, bytes_eq, bytes_eq_iff, Bytes, codes, All, if_intro, arith,
}
use remarkable_server.Base.Result.{Result, ok, err, ◌>>=◌}
use remarkable_server.Storage.Root.{is_valid_hash}
use remarkable_server.Storage.Index.{
  trim, onto_first, lines, split_colon, digits, parse_u64, IndexEntry, IndexError, is_summary,
  with_numbers, parse_entry, then_entries, parse_lines, with_schema, from_lines, parse_index,
}

digits-lt : (cs : Bytes) (n v : ℕ) → n < 2 ^ 64 → digits n cs ≡ some v → v < 2 ^ 64
unfolding digits
digits-lt [] n v h e = let q : n ≡ v = cc in subst (λ z. z < 2 ^ 64) q h
digits-lt (c ∷ cs) n v h e =
    if_intro (λ x. x ≡ some v → v < 2 ^ 64)
      (leb 0x30 c && leb c 0x39 && ltb (n * 10 + (c - 0x30)) (2 ^ 64)) _ _
      (λ q. digits-lt cs (n * 10 + (c - 0x30)) v (ground arith)) (λ q e'. cc) e

pub parse_u64-lt : (s : Bytes) (v : ℕ) → parse_u64 s ≡ some v → v < 2 ^ 64
unfolding parse_u64
parse_u64-lt [] v = λ e. cc
parse_u64-lt (c ∷ cs) v =
    if_intro (λ x. x ≡ some v → v < 2 ^ 64) (c == 0x2B && not (is_empty cs)) _ _
      (λ q. digits-lt cs 0 v (omega arith)) (λ q. digits-lt (c ∷ cs) 0 v (omega arith))

-- No character is a colon.
abbrev pub IsField : Bytes → Type 0
IsField s = All (λ c. c ≢ 0x3A) s

onto_first-IsField :
    (c : ℕ) (ls : List Bytes) → c ≢ 0x3A → All IsField ls → All IsField (onto_first c ls)
unfolding onto_first
onto_first-IsField c [] h h' = ((h, tt), tt)
onto_first-IsField c (l ∷ ls) h h' = ((h, h'.0), h'.1)

pub split_colon-IsField : (s : Bytes) → All IsField (split_colon s)
unfolding split_colon
split_colon-IsField [] = (tt, tt)
split_colon-IsField (c ∷ cs) =
    if_intro (All IsField) (c == 0x3A) _ _ (λ q. (tt, split_colon-IsField cs))
      (λ q. onto_first-IsField c (split_colon cs) (ground arith) (split_colon-IsField cs))

-- A hash, two fields without a colon, and two numbers of 64 bits.
abbrev pub IsEntry : IndexEntry → Type 0
IsEntry e =
    (is_valid_hash e.hash ≡ true)
    × IsField e.kind
    × IsField e.name
    × (e.subfiles < 2 ^ 64)
    × (e.size < 2 ^ 64)

with_numbers-IsEntry :
    (line hash kind name : Bytes) (a b : Option ℕ) (e : IndexEntry)
    → is_valid_hash hash ≡ true
    → IsField kind
    → IsField name
    → ((v : ℕ) → a ≡ some v → v < 2 ^ 64)
    → ((v : ℕ) → b ≡ some v → v < 2 ^ 64)
    → with_numbers line hash kind name a b ≡ ok e
    → IsEntry e
unfolding with_numbers
with_numbers-IsEntry line hash kind name (some n) (some m) e h k f fits fits' q =
    let same : record { hash = hash; kind = kind; name = name; subfiles = n; size = m } ≡ e = cc in
    subst IsEntry same (h, k, f, fits n refl, fits' m refl)
with_numbers-IsEntry line hash kind name none b e h k f fits fits' q = cc
with_numbers-IsEntry line hash kind name (some n) none e h k f fits fits' q = cc

parse_entry-IsEntry :
    (line : Bytes) (fields : List Bytes) (e : IndexEntry)
    → All IsField fields
    → parse_entry line fields ≡ ok e
    → IsEntry e
unfolding parse_entry
parse_entry-IsEntry line [] e h q = cc
parse_entry-IsEntry line (a ∷ []) e h q = cc
parse_entry-IsEntry line (a ∷ b ∷ []) e h q = cc
parse_entry-IsEntry line (a ∷ b ∷ c ∷ []) e h q = cc
parse_entry-IsEntry line (a ∷ b ∷ c ∷ d ∷ []) e h q = cc
parse_entry-IsEntry line (hash ∷ kind ∷ name ∷ n ∷ m ∷ []) e h q =
    if_intro (λ x. x ≡ ok e → IsEntry e) (not (is_valid_hash hash)) _ _ (λ d q'. cc)
      (λ d.
        with_numbers-IsEntry line hash kind name (parse_u64 n) (parse_u64 m) e (ground arith) h.1.0
          h.1.1.0 (parse_u64-lt n) (parse_u64-lt m))
      q
parse_entry-IsEntry line (a ∷ b ∷ c ∷ d ∷ f ∷ g ∷ more) e h q = cc

then_entries-All :
    (x : Result IndexError IndexEntry) (y : Result IndexError (List IndexEntry))
    (es : List IndexEntry)
    → ((e : IndexEntry) → x ≡ ok e → IsEntry e)
    → ((more : List IndexEntry) → y ≡ ok more → All IsEntry more)
    → then_entries x y ≡ ok es
    → All IsEntry es
unfolding then_entries
then_entries-All (ok e) (ok more) es h h' q =
    let same : e ∷ more ≡ es = cc in subst (All IsEntry) same (h e refl, h' more refl)
then_entries-All (ok e) (err f) es h h' q = cc
then_entries-All (err f) y es h h' q = cc

parse_lines-All :
    (schema : Bytes) (ls : List Bytes) (es : List IndexEntry)
    → parse_lines schema ls ≡ ok es
    → All IsEntry es
unfolding parse_lines
parse_lines-All schema [] es q = let same : [] ≡ es = cc in subst (All IsEntry) same tt
parse_lines-All schema (line ∷ ls) es q =
    if_intro (λ x. x ≡ ok es → All IsEntry es) (is_empty (trim line)) _ _
      (λ d. parse_lines-All schema ls es)
      (λ d.
        if_intro (λ x. x ≡ ok es → All IsEntry es) (is_summary schema (split_colon line)) _ _
          (λ d'. parse_lines-All schema ls es)
          (λ d'.
            then_entries-All (parse_entry line (split_colon line)) (parse_lines schema ls) es
              (λ e. parse_entry-IsEntry line (split_colon line) e (split_colon-IsField line))
              (parse_lines-All schema ls)))
      q

with_schema_valid :
    (schema : Bytes) (ls : List Bytes) (read : Bytes) (es : List IndexEntry)
    → with_schema schema ls ≡ ok (read, es)
    → ((read ≡ codes "3") ⊎ (read ≡ codes "4")) × All IsEntry es
unfolding with_schema
with_schema_valid schema ls read es q =
    if_intro (λ x. x ≡ ok (read, es) → Parsed)
      (not (bytes_eq schema (codes "3")) && not (bytes_eq schema (codes "4"))) _ _ (λ d q'. cc)
      (λ d.
        by_lines (parse_lines schema ls)
          (ground (arith, bytes_eq_iff schema (codes "3"), bytes_eq_iff schema (codes "4")))
          (parse_lines-All schema ls))
      q
  where
    Parsed : Type 0
    Parsed = ((read ≡ codes "3") ⊎ (read ≡ codes "4")) × All IsEntry es

    by_lines :
        (x : Result IndexError (List IndexEntry))
        → (schema ≡ codes "3") ⊎ (schema ≡ codes "4")
        → ((more : List IndexEntry) → x ≡ ok more → All IsEntry more)
        → ◌≡◌ {A = Result IndexError (Bytes × List IndexEntry)}
            (x >>= λ entries. ok (schema, entries))
            (ok (read, es))
        → Parsed
    by_lines (ok more) h h' q' =
        let a : schema ≡ read = cc in
        let b : more ≡ es = cc in
        (subst (λ z. (z ≡ codes "3") ⊎ (z ≡ codes "4")) a h, subst (All IsEntry) b (h' more refl))
    by_lines (err f) h h' q' = cc

-- An index that parses names schema 3 or 4, and each entry is a hash of 64 lower-case hexadecimal
-- digits, a type and a name without a colon, and two numbers below 2^64.
pub parse_index_is_valid :
    (text schema : Bytes) (entries : List IndexEntry)
    → parse_index text ≡ ok (schema, entries)
    → ((schema ≡ codes "3") ⊎ (schema ≡ codes "4")) × All IsEntry entries
unfolding parse_index from_lines
parse_index_is_valid text schema entries q = by_lines (lines text) q
  where
    by_lines :
        (ls : List Bytes)
        → from_lines ls ≡ ok (schema, entries)
        → ((schema ≡ codes "3") ⊎ (schema ≡ codes "4")) × All IsEntry entries
    by_lines [] q' = cc
    by_lines (l ∷ ls) q' = with_schema_valid (trim l) ls schema entries q'
