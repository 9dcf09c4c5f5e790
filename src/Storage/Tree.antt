-- ===== src/Storage/Tree.antt =====
-- src/storage.rs: the projection of parsed indexes, and the walks of the sync tree. The decoding of
-- UTF-8 is a parameter, and so is the reading of what is not UTF-8.
pub mod Strict
pub mod Coherent
pub mod Grows
use remarkable_server.Base.{
  ℕ, ◌≡◌, leb, ltb, ◌==◌, if◌then◌else◌, Bool, true, false, not, ◌&&◌, ◌||◌, Option, none, some,
  List, [], ◌∷◌, ◌++◌, map, is_empty, drop, Bytes, bytes_eq, bytes_lt, codes, contains_bytes,
}
use remarkable_server.Base.Result.{Result, ok, err, ◌>>=◌}
use remarkable_server.Errors.{ServerError}
use remarkable_server.Storage.Root.{SyncRoot, Disk, is_valid_hash, set_root_if}
use remarkable_server.Storage.Index.{IndexEntry, IndexError, lines, split_colon, parse_index}
use remarkable_server.Storage.Blobs.{File, IndexRow, Store, put_at, exists, get}

-- `str::from_utf8` and `String::from_utf8_lossy`.
pub record Decoders : Type 0 where
  pub from_utf8 : Bytes → Option Bytes
  pub from_utf8_lossy : Bytes → Bytes

abbrev pub parser_version : ℕ
parser_version = 1

-- `is_index`
unfoldable pub is_index : IndexEntry → Bool
is_index e = not (bytes_eq e.kind (codes "0")) || ltb 0 e.subfiles

unfoldable pub first_valid : List Bytes → List Bytes → List Bytes
unfolding is_valid_hash
first_valid [] rest = rest
first_valid (field ∷ fields) rest = if is_valid_hash field then field ∷ rest else rest

unfoldable pub first_fields : List Bytes → List Bytes
unfolding first_valid split_colon
first_fields [] = []
first_fields (l ∷ ls) = first_valid (split_colon l) (first_fields ls)

-- `lenient_children`
unfoldable pub lenient_children : Decoders → Bytes → List Bytes
unfolding first_fields lines
lenient_children d bytes = first_fields (drop 1 (lines (d.from_utf8_lossy bytes)))

unfoldable pub entries_of : Result IndexError (Bytes × List IndexEntry) → Option (List IndexEntry)
entries_of (ok r) = some r.1
entries_of (err e) = none

-- `parse_index` of a blob, its message forgotten.
unfoldable pub blob_entries : Option Bytes → Option (List IndexEntry)
unfolding entries_of parse_index
blob_entries none = none
blob_entries (some text) = entries_of (parse_index text)

-- `INSERT OR REPLACE INTO entries`, under the name; the rows are in the order of their names.
unfoldable pub insert_row : IndexEntry → List IndexEntry → List IndexEntry
insert_row e [] = e ∷ []
insert_row e (f ∷ fs) =
    let rest = insert_row e fs in
    if bytes_eq f.name e.name
    then e ∷ fs
    else if bytes_lt e.name f.name
    then e ∷ f ∷ fs
    else f ∷ rest

-- The rows after the entries of an index, the later one of a name over the earlier.
unfoldable pub project : List IndexEntry → List IndexEntry → List IndexEntry
unfolding insert_row
project [] rows = rows
project (e ∷ es) rows = project es (insert_row e rows)

-- The row of `indexes` that the current parser wrote, as its `ok`.
unfoldable pub seen : Option IndexRow → Option Bool
seen none = none
seen (some row) = if leb parser_version row.parser_version then some (parsed row.entries) else none
  where
    parsed : Option (List IndexEntry) → Bool
    parsed none = false
    parsed (some es) = true

unfoldable pub recorded : Bytes → Option (List IndexEntry) → Store → Bool × Store
unfolding put_at project
recorded hash none st = (
  false,
  record st {
    indexes = put_at hash (record { parser_version = parser_version; entries = none }) st.indexes;
  },
)
recorded hash (some es) st = (
  true,
  record st {
    indexes =
        put_at hash (record { parser_version = parser_version; entries = some (project es []) })
          st.indexes;
  },
)

unfoldable pub parse_file : Decoders → Bytes → Option File → Store → Bool × Store
unfolding recorded blob_entries
parse_file d hash none st = (false, st)
parse_file d hash (some file) st = recorded hash (blob_entries (d.from_utf8 file.bytes)) st

unfoldable pub unless_seen : Decoders → Bytes → Option Bool → Store → Bool × Store
unfolding parse_file
unless_seen d hash (some parsed) st = (parsed, st)
unless_seen d hash none st = parse_file d hash (st.files hash) st

-- `ensure_indexed`
unfoldable pub ensure_indexed : Decoders → Bytes → Store → Bool × Store
unfolding is_valid_hash unless_seen seen
ensure_indexed d hash st =
    if not (is_valid_hash hash) then (false, st) else unless_seen d hash (seen (st.indexes hash)) st

unfoldable pub row_entries : Option IndexRow → Option (List IndexEntry)
row_entries none = none
row_entries (some row) = row.entries

-- `index_entries`
unfoldable pub index_entries : Bytes → Store → Option (List IndexEntry)
unfolding row_entries
index_entries hash st = row_entries (st.indexes hash)

unfoldable pub or_none : Option (List IndexEntry) → List IndexEntry
or_none none = []
or_none (some es) = es

-- The document indexes among the entries.
unfoldable pub ensure_docs : Decoders → List IndexEntry → Store → Store
unfolding is_index ensure_indexed
ensure_docs d [] st = st
ensure_docs d (e ∷ es) st =
    ensure_docs d es (if is_index e then (ensure_indexed d e.hash st).1 else st)

unfoldable pub if_parsed : Decoders → Bytes → Bool × Store → Store
unfolding ensure_docs or_none index_entries
if_parsed d root (false, st) = st
if_parsed d root (true, st) = ensure_docs d (or_none (index_entries root st)) st

-- `index_tree`
unfoldable pub index_tree : Decoders → Bytes → Store → Store
unfolding if_parsed ensure_indexed
index_tree d root st = if_parsed d root (ensure_indexed d root st)

unfoldable pub indexed :
    Decoders → Store → Result ServerError (SyncRoot × Disk) → Result ServerError (SyncRoot × Store)
unfolding index_tree
indexed d st (ok r) = ok (r.0, index_tree d r.0.hash (record st { disk = r.1 }))
indexed d st (err e) = err e

-- `set_root_if` on the whole store: the tree of a root that is committed is indexed.
unfoldable pub commit_root :
    Decoders → Bool → Bytes → Option ℕ → Store → Result ServerError (SyncRoot × Store)
unfolding indexed set_root_if
commit_root d written hash expected st = indexed d st (set_root_if written hash expected st.disk)

abbrev pub hashes : List IndexEntry → List Bytes
hashes es = map (λ e. e.hash) es

abbrev pub unparsed : ServerError
unparsed = ServerError.internal "index is missing or unparsed; refusing to report unreachable blobs"

-- What a blob that is read leniently lists, if it is there.
unfoldable pub lenient_of : Decoders → Result ServerError Bytes → List Bytes
unfolding lenient_children
lenient_of d (ok bytes) = lenient_children d bytes
lenient_of d (err e) = []

-- The files of a document.
unfoldable pub doc_files :
    Decoders → Store → Bool → Bytes → Option (List IndexEntry) → Result ServerError (List Bytes)
unfolding lenient_of get
doc_files d st strict hash (some files) = ok (hashes files)
doc_files d st strict hash none = if strict then err unparsed else ok (lenient_of d (get hash st))

-- What an entry of the root adds: its own hash, and a document's files.
unfoldable pub entry_hashes : Decoders → Store → Bool → IndexEntry → Result ServerError (List Bytes)
unfolding is_index doc_files index_entries
entry_hashes d st strict e =
    (if is_index e then doc_files d st strict e.hash (index_entries e.hash st) else ok [])
    >>= λ files. ok (e.hash ∷ files)

unfoldable pub add_docs :
    Decoders → Store → Bool → List IndexEntry → List Bytes → Result ServerError (List Bytes)
unfolding entry_hashes
add_docs d st strict [] live = ok live
add_docs d st strict (e ∷ es) live =
    entry_hashes d st strict e >>= λ more. add_docs d st strict es (more ++ live)

unfoldable pub lenient_docs : Decoders → Store → List Bytes → List Bytes → List Bytes
unfolding lenient_of get
lenient_docs d st [] live = live
lenient_docs d st (doc ∷ docs) live =
    lenient_docs d st docs (doc ∷ (lenient_of d (get doc st) ++ live))

unfoldable pub add_root :
    Decoders
    → Store
    → Bool
    → Bytes
    → Option (List IndexEntry)
    → List Bytes
    → Result ServerError (List Bytes)
unfolding add_docs lenient_docs lenient_of get
add_root d st strict root (some docs) live = add_docs d st strict docs live
add_root d st strict root none live =
    if strict then err unparsed else ok (lenient_docs d st (lenient_of d (get root st)) live)

-- `add_tree`: the set of live hashes with the tree's, and the store with what was indexed.
unfoldable pub add_tree :
    Decoders → Bytes → Bool → List Bytes → Store → Result ServerError (List Bytes) × Store
unfolding add_root index_tree index_entries
add_tree d root strict live st = if is_empty root then (ok live, st) else (
  add_root d (index_tree d root st) strict root (index_entries root (index_tree d root st))
      (root ∷ live),
  index_tree d root st,
)
