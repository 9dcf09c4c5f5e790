-- ===== src/Storage/Index.antt =====
-- src/storage.rs, `parse_index`. The text is a list of its characters' code points, once it has been
-- found to be UTF-8; messages are told apart by what they are about.
pub mod Parsed
use remarkable_server.Base.{
  ℕ, zero, suc, ◌+◌, ◌-◌, ◌*◌, ◌^◌, ◌<◌, ◌≡◌, ◌⊎◌, inl, inr, refl, ap, ◌∙◌, ◌==◌, ltb, leb,
  if◌then◌else◌, Bool, true, false, not, ◌||◌, ◌&&◌, Option, none, some, List, [], ◌∷◌, is_empty,
  bytes_eq, bytes_eq_iff, Bytes, codes, All, if_intro, arith,
}
use remarkable_server.Base.Result.{Result, ok, err, ◌>>=◌, ok_or}
use remarkable_server.Storage.Root.{is_valid_hash}

-- `char::is_whitespace`
unfoldable pub is_whitespace : ℕ → Bool
is_whitespace c =
    (leb 0x09 c && leb c 0x0D)
    || c == 0x20
    || c == 0x85
    || c == 0xA0
    || c == 0x1680
    || (leb 0x2000 c && leb c 0x200A)
    || c == 0x2028
    || c == 0x2029
    || c == 0x202F
    || c == 0x205F
    || c == 0x3000

unfoldable pub trim_start : Bytes → Bytes
unfolding is_whitespace
trim_start [] = []
trim_start (c ∷ cs) = if is_whitespace c then trim_start cs else c ∷ cs

unfoldable pub trim_end : Bytes → Bytes
unfolding is_whitespace
trim_end [] = []
trim_end (c ∷ cs) =
    let rest = trim_end cs in if is_empty rest && is_whitespace c then [] else c ∷ rest

unfoldable pub trim : Bytes → Bytes
unfolding trim_start trim_end
trim s = trim_end (trim_start s)

-- A character before the first of the pieces that follow it.
unfoldable pub onto_first : ℕ → List Bytes → List Bytes
onto_first c [] = (c ∷ []) ∷ []
onto_first c (l ∷ ls) = (c ∷ l) ∷ ls

unfoldable pub starts_with_lf : Bytes → Bool
starts_with_lf [] = false
starts_with_lf (c ∷ cs) = c == 0x0A

-- `str::lines`: a line ends at LF or CR LF, and nothing follows the last of these.
unfoldable pub lines : Bytes → List Bytes
unfolding onto_first starts_with_lf
lines [] = []
lines (c ∷ cs) =
    let rest = lines cs in
    if c == 0x0A
    then [] ∷ rest
    else if c == 0x0D && starts_with_lf cs
    then rest
    else onto_first c rest

-- `split(':')`
unfoldable pub split_colon : Bytes → List Bytes
unfolding onto_first
split_colon [] = [] ∷ []
split_colon (c ∷ cs) =
    let rest = split_colon cs in if c == 0x3A then [] ∷ rest else onto_first c rest

-- The digits of `parse::<u64>`, which refuses what does not fit.
unfoldable pub digits : ℕ → Bytes → Option ℕ
digits n [] = some n
digits n (c ∷ cs) =
    let more = digits (n * 10 + (c - 0x30)) cs in
    if leb 0x30 c && leb c 0x39 && ltb (n * 10 + (c - 0x30)) (2 ^ 64) then more else none

-- `parse::<u64>`: a plus sign may come first, and there is a digit.
unfoldable pub parse_u64 : Bytes → Option ℕ
unfolding digits
parse_u64 [] = none
parse_u64 (c ∷ cs) = if c == 0x2B && not (is_empty cs) then digits 0 cs else digits 0 (c ∷ cs)

pub record IndexEntry : Type 0 where
  pub hash : Bytes
  pub kind : Bytes
  pub name : Bytes
  pub subfiles : ℕ
  pub size : ℕ

pub data IndexError : Type 0 where
  empty_index : IndexError
  unsupported_schema malformed_line invalid_hash bad_number : Bytes → IndexError

-- The summary line of schema 4: four fields, the first `0` and the second `.`.
unfoldable pub is_summary : Bytes → List Bytes → Bool
is_summary schema (a ∷ b ∷ c ∷ d ∷ []) =
    bytes_eq schema (codes "4") && (bytes_eq a (codes "0") && bytes_eq b (codes "."))
is_summary schema _ = false

-- The two numbers of an entry, the first that is refused refusing the line.
unfoldable pub with_numbers :
    Bytes → Bytes → Bytes → Bytes → Option ℕ → Option ℕ → Result IndexError IndexEntry
with_numbers line hash kind name (some subfiles) (some size) =
    ok (record { hash = hash; kind = kind; name = name; subfiles = subfiles; size = size })
with_numbers line hash kind name _ _ = err (IndexError.bad_number line)

unfoldable pub parse_entry : Bytes → List Bytes → Result IndexError IndexEntry
unfolding is_valid_hash parse_u64 with_numbers
parse_entry line (hash ∷ kind ∷ name ∷ subfiles ∷ size ∷ []) =
    if not (is_valid_hash hash)
    then err (IndexError.invalid_hash line)
    else with_numbers line hash kind name (parse_u64 subfiles) (parse_u64 size)
parse_entry line _ = err (IndexError.malformed_line line)

-- An entry before those of the lines that follow.
unfoldable pub then_entries :
    Result IndexError IndexEntry
    → Result IndexError (List IndexEntry)
    → Result IndexError (List IndexEntry)
then_entries (ok e) (ok es) = ok (e ∷ es)
then_entries (ok e) (err x) = err x
then_entries (err x) rest = err x

-- The loop over the lines that are not blank; the first that is refused refuses the index.
unfoldable pub parse_lines : Bytes → List Bytes → Result IndexError (List IndexEntry)
unfolding trim split_colon is_summary parse_entry then_entries
parse_lines schema [] = ok []
parse_lines schema (line ∷ ls) =
    let rest = parse_lines schema ls in
    if is_empty (trim line)
    then rest
    else if is_summary schema (split_colon line)
    then rest
    else then_entries (parse_entry line (split_colon line)) rest

unfoldable pub with_schema : Bytes → List Bytes → Result IndexError (Bytes × List IndexEntry)
unfolding parse_lines
with_schema schema ls =
    if not (bytes_eq schema (codes "3")) && not (bytes_eq schema (codes "4"))
    then err (IndexError.unsupported_schema schema)
    else (parse_lines schema ls >>= λ entries. ok (schema, entries))

unfoldable pub from_lines : List Bytes → Result IndexError (Bytes × List IndexEntry)
unfolding with_schema trim
from_lines [] = err IndexError.empty_index
from_lines (l ∷ ls) = with_schema (trim l) ls

unfoldable pub parse_index : Bytes → Result IndexError (Bytes × List IndexEntry)
unfolding from_lines lines
parse_index text = from_lines (lines text)
