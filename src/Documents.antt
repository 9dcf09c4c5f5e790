-- ===== src/Documents.antt =====
-- src/documents.rs: the entries of a root index as they are read and written again, and the commit
-- of new documents to the sync root. Texts are lists of code points. UTF-8, SHA-256 and the `hex`
-- crate are parameters.
pub mod Decimal
pub mod ReadBack
pub mod Parsed
pub mod Agree
pub mod Sorted
pub mod Commit
pub mod Committed
pub mod Rounds
pub mod Adding
pub mod Blobs
use remarkable_server.Base.{
  ℕ, ◌≡◌, leb, ltb, ◌==◌, if◌then◌else◌, Bool, true, false, not, ◌&&◌, ◌||◌, Option, none, some,
  List, [], ◌∷◌, ◌++◌, is_empty, length, Bytes, bytes_eq, bytes_lt, codes,
}
use remarkable_server.Base.Result.{Result, ok, err}
use remarkable_server.Storage.Root.{is_valid_hash}
use remarkable_server.Storage.Index.{trim, lines, split_colon, parse_u64, IndexEntry}
use remarkable_server.Documents.Decimal.{decimal}

-- `struct Entry`, which has the fields of the storage's `IndexEntry`.
abbrev pub Entry : Type 0
Entry = IndexEntry

-- The two numbers of an entry.
unfoldable pub numbered : Bytes → Bytes → Bytes → Option ℕ → Option ℕ → Option Entry
numbered hash kind name (some subfiles) (some size) =
    some (record { hash = hash; kind = kind; name = name; subfiles = subfiles; size = size })
numbered hash kind name _ _ = none

-- `Entry::parse` on the fields of a line.
unfoldable pub parse_fields : List Bytes → Option Entry
unfolding is_valid_hash parse_u64 numbered
parse_fields (hash ∷ kind ∷ name ∷ subfiles ∷ size ∷ []) =
    if is_valid_hash hash && (not (is_empty kind) && not (is_empty name))
    then numbered hash kind name (parse_u64 subfiles) (parse_u64 size)
    else none
parse_fields _ = none

pub data RootError : Type 0 where
  not_utf8 : RootError
  unsupported_schema : Option Bytes → RootError
  unparseable : Bytes → RootError

unfoldable pub then_entry :
    Bytes → Option Entry → Result RootError (List Entry) → Result RootError (List Entry)
then_entry line none rest = err (RootError.unparseable line)
then_entry line (some e) (ok es) = ok (e ∷ es)
then_entry line (some e) (err x) = err x

-- The lines after the first, blank ones skipped; the first that is refused refuses the index.
unfoldable pub parse_entries : List Bytes → Result RootError (List Entry)
unfolding trim split_colon parse_fields then_entry
parse_entries [] = ok []
parse_entries (line ∷ ls) =
    let rest = parse_entries ls in
    if is_empty (trim line) then rest else then_entry line (parse_fields (split_colon line)) rest

unfoldable pub parse_root_lines : List Bytes → Result RootError (List Entry)
unfolding parse_entries
parse_root_lines [] = err (RootError.unsupported_schema none)
parse_root_lines (schema ∷ ls) =
    if bytes_eq schema (codes "3")
    then parse_entries ls
    else err (RootError.unsupported_schema (some schema))

-- `parse_root`, of what the bytes decode to.
unfoldable pub parse_root : Option Bytes → Result RootError (List Entry)
unfolding parse_root_lines lines
parse_root none = err RootError.not_utf8
parse_root (some text) = parse_root_lines (lines text)

-- `{}:{}:{}:{}:{}\n`, before what follows.
unfoldable pub render_entry : Entry → Bytes → Bytes
unfolding decimal
render_entry e rest =
    e.hash
    ++ (0x3A
        ∷ (e.kind
            ++ (0x3A
                ∷ (e.name
                    ++ (0x3A
                        ∷ (decimal e.subfiles ++ (0x3A ∷ (decimal e.size ++ (0x0A ∷ rest)))))))))

unfoldable pub render_entries : List Entry → Bytes
unfolding render_entry
render_entries [] = []
render_entries (e ∷ es) = render_entry e (render_entries es)

-- The text that `render_index` writes.
unfoldable pub render_index : List Entry → Bytes
unfolding render_entries
render_index es = 0x33 ∷ 0x0A ∷ render_entries es

unfoldable pub insert_by_name : Entry → List Entry → List Entry
insert_by_name e [] = e ∷ []
insert_by_name e (f ∷ fs) =
    let rest = insert_by_name e fs in if bytes_lt f.name e.name then f ∷ rest else e ∷ f ∷ fs

-- `sort_by(|a, b| a.name.cmp(&b.name))`, which is stable.
unfoldable pub sort_by_name : List Entry → List Entry
unfolding insert_by_name
sort_by_name [] = []
sort_by_name (e ∷ es) = insert_by_name e (sort_by_name es)
