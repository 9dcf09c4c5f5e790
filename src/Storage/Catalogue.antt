-- ===== src/Storage/Catalogue.antt =====
-- src/storage.rs: streamed uploads put in their place, the reconciliation of the table `blobs` with
-- the files, opening, and the clearing of the store. What a walk of the directories meets, in its
-- order, and what the legacy files below `meta` say, are arguments.
use remarkable_server.Base.{
  ℕ, if◌then◌else◌, Bool, false, not, ◌&&◌, ◌||◌, Option, none, some, List, [], ◌∷◌, ◌++◌, length,
  Bytes, bytes_eq,
}
use remarkable_server.Base.Result.{Result, ok, err, ◌>>=◌}
use remarkable_server.Errors.{ServerError}
use remarkable_server.Storage.Root.{is_valid_hash, open_root}
use remarkable_server.Storage.Blobs.{
  File, Keyed, put_at, delete_at, Blobs, row_at, upsert, delete_row, Store, is_some,
}
use remarkable_server.Storage.Tree.{Decoders, index_tree}

-- A staged file under its hash: a rename keeps the time of its modification.
unfoldable pub renamed : File → Bytes → Bytes → ℕ → Store → Store
unfolding put_at delete_at upsert
renamed file hash filename now st = record st {
  files = put_at hash file st.files;
  blobs =
      upsert hash (record { filename = filename; size = length file.bytes; updated_at = now })
        st.blobs;
  indexes = delete_at hash st.indexes;
}

unfoldable pub put_staged : Option File → Bytes → Bytes → ℕ → Store → Result ServerError (ℕ × Store)
unfolding renamed
put_staged none hash filename now st = err (ServerError.io "no staged file")
put_staged (some file) hash filename now st =
    ok (length file.bytes, renamed file hash filename now st)

-- `put_file_with_hash`: the size stored, and the store after it.
unfoldable pub put_file_with_hash :
    Option File → Bytes → Bytes → ℕ → Store → Result ServerError (ℕ × Store)
unfolding is_valid_hash put_staged
put_file_with_hash staged hash filename now st =
    if not (is_valid_hash hash)
    then err (ServerError.invalid_hash hash)
    else put_staged staged hash filename now st

-- `clear`: the version history is in a database of its own.
unfoldable pub clear : Store → Store
clear st = record st {
  disk = record {
    row = record st.disk.row { hash = []; generation = 0; previous_hash = [] };
    mirror = none;
  };
  files = λ hash. none;
  blobs = [];
  indexes = λ hash. none;
}

-- The files of a walk, under their hashes.
abbrev pub OnDisk : Type 0
OnDisk = List (Bytes × File)

unfoldable pub found_file : Bytes → Option File → OnDisk → OnDisk
found_file hash none rest = rest
found_file hash (some file) rest = (hash, file) ∷ rest

-- `scan_disk`, of the names that the walk meets.
unfoldable pub scan_disk : List Bytes → Keyed File → OnDisk
unfolding found_file is_valid_hash
scan_disk [] files = []
scan_disk (hash ∷ names) files =
    let rest = scan_disk names files in
    if not (is_valid_hash hash) then rest else found_file hash (files hash) rest

unfoldable pub contains_key : Bytes → OnDisk → Bool
contains_key hash [] = false
contains_key hash ((key, file) ∷ rest) = bytes_eq key hash || contains_key hash rest

-- Rows for the files that are not known, named by their legacy metadata.
unfoldable pub add_unknown : (Bytes → Bytes) → Blobs → OnDisk → Blobs → Blobs
unfolding is_some row_at
add_unknown legacy_name known [] blobs = blobs
add_unknown legacy_name known ((hash, file) ∷ rest) blobs = add_unknown legacy_name known rest (
    if is_some (row_at hash known)
    then blobs
    else blobs
      ++ (
        hash,
        record {
          filename = legacy_name hash;
          size = length file.bytes;
          updated_at = file.modified;
        },
      )
        ∷ [])

-- Without the rows whose files are gone.
unfoldable pub drop_missing_rows : Keyed File → OnDisk → Blobs → Blobs → Blobs
unfolding contains_key is_some delete_row
drop_missing_rows files on_disk [] blobs = blobs
drop_missing_rows files on_disk ((hash, row) ∷ known) blobs =
    drop_missing_rows files on_disk known (
      if not (contains_key hash on_disk) && not (is_some (files hash))
      then delete_row hash blobs
      else blobs)

-- `reconcile_blobs`
unfoldable pub reconcile_blobs : List Bytes → (Bytes → Bytes) → Store → Store
unfolding scan_disk add_unknown drop_missing_rows
reconcile_blobs names legacy_name st =
    let on_disk = scan_disk names st.files in
    record st {
      blobs =
          drop_missing_rows st.files on_disk st.blobs
            (add_unknown legacy_name st.blobs on_disk st.blobs);
    }

-- `Storage::new`, over a store that has its root row.
unfoldable pub reopen : Decoders → List Bytes → (Bytes → Bytes) → Store → Result ServerError Store
unfolding open_root reconcile_blobs index_tree
reopen d names legacy_name st = open_root (some st.disk.row) st.disk.mirror >>= λ disk.
    ok (index_tree d disk.row.hash (reconcile_blobs names legacy_name (record st { disk = disk })))
