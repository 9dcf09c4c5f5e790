-- ===== src/Storage/Blobs.antt =====
-- src/storage.rs, the blobs: their files, the tables `blobs`, `indexes` and `entries` of sync.db,
-- and the hashes that the version history keeps. The clock is an argument, and reading and writing
-- files and tables does not fail.
use remarkable_server.Base.{
  ℕ, if◌then◌else◌, Bool, true, false, not, ◌&&◌, Option, none, some, List, [], ◌∷◌, length, Bytes,
  bytes_eq,
}
use remarkable_server.Base.Result.{Result, ok, err}
use remarkable_server.Errors.{ServerError}
use remarkable_server.Storage.Root.{is_valid_hash, Disk}
use remarkable_server.Storage.Index.{IndexEntry}

-- A file below the base directory, with its time of modification.
pub record File : Type 0 where
  pub bytes : Bytes
  pub modified : ℕ

-- A row of the table `blobs` but for its key.
pub record BlobRow : Type 0 where
  pub filename : Bytes
  pub size : ℕ
  pub updated_at : ℕ

-- A row of `indexes`, and the rows of `entries` under it in the order of their names where the
-- index was parsed.
pub record IndexRow : Type 0 where
  pub parser_version : ℕ
  pub entries : Option (List IndexEntry)

-- What is under each key.
abbrev pub Keyed : Type 0 → Type 0
Keyed V = Bytes → Option V

unfoldable pub put_at : {V : Type 0} → Bytes → V → Keyed V → Keyed V
put_at key new map asked = if bytes_eq key asked then some new else map asked

unfoldable pub delete_at : {V : Type 0} → Bytes → Keyed V → Keyed V
delete_at key map asked = if bytes_eq key asked then none else map asked

abbrev pub Blobs : Type 0
Blobs = List (Bytes × BlobRow)

unfoldable pub row_at : Bytes → Blobs → Option BlobRow
row_at hash [] = none
row_at hash ((key, row) ∷ blobs) =
    let rest = row_at hash blobs in if bytes_eq key hash then some row else rest

-- `INSERT .. ON CONFLICT(hash) DO UPDATE`
unfoldable pub upsert : Bytes → BlobRow → Blobs → Blobs
upsert hash new [] = (hash, new) ∷ []
upsert hash new ((key, row) ∷ blobs) =
    let rest = upsert hash new blobs in
    if bytes_eq key hash then (key, new) ∷ blobs else (key, row) ∷ rest

-- `DELETE FROM blobs WHERE hash = ?1`
unfoldable pub delete_row : Bytes → Blobs → Blobs
delete_row hash [] = []
delete_row hash ((key, row) ∷ blobs) =
    let rest = delete_row hash blobs in if bytes_eq key hash then rest else (key, row) ∷ rest

pub record Store : Type 0 where
  pub disk : Disk
  pub files : Keyed File
  pub blobs : Blobs
  pub indexes : Keyed IndexRow
  pub versions : List Bytes

unfoldable pub is_some : {V : Type 0} → Option V → Bool
is_some none = false
is_some (some v) = true

-- `exists`
unfoldable pub exists : Bytes → Store → Bool
unfolding is_valid_hash is_some
exists hash st = is_valid_hash hash && is_some (st.files hash)

unfoldable pub read : Bytes → Option File → Result ServerError Bytes
read hash none = err (ServerError.not_found hash)
read hash (some file) = ok file.bytes

-- `get`
unfoldable pub get : Bytes → Store → Result ServerError Bytes
unfolding is_valid_hash read
get hash st =
    if not (is_valid_hash hash)
    then err (ServerError.invalid_hash hash)
    else read hash (st.files hash)

unfoldable pub stored : Bytes → Bytes → Bytes → ℕ → Store → Store
unfolding put_at delete_at upsert
stored bytes hash filename now st = record st {
  files = put_at hash (record { bytes = bytes; modified = now }) st.files;
  blobs =
      upsert hash (record { filename = filename; size = length bytes; updated_at = now }) st.blobs;
  indexes = delete_at hash st.indexes;
}

-- `put_with_hash`
unfoldable pub put_with_hash : Bytes → Bytes → Bytes → ℕ → Store → Result ServerError Store
unfolding is_valid_hash stored
put_with_hash bytes hash filename now st =
    if not (is_valid_hash hash)
    then err (ServerError.invalid_hash hash)
    else ok (stored bytes hash filename now st)

unfoldable pub touched : ℕ → BlobRow → BlobRow
touched now row = record { filename = row.filename; size = row.size; updated_at = now }

-- `UPDATE blobs SET updated_at = ?1 WHERE hash = ?2`
unfoldable pub touch_row : ℕ → Bytes → Blobs → Blobs
unfolding touched
touch_row now hash [] = []
touch_row now hash ((key, row) ∷ blobs) =
    let rest = touch_row now hash blobs in
    if bytes_eq key hash then (key, touched now row) ∷ rest else (key, row) ∷ rest

unfoldable pub touch_rows : ℕ → List Bytes → Blobs → Blobs
unfolding touch_row
touch_rows now [] blobs = blobs
touch_rows now (hash ∷ hashes) blobs = touch_rows now hashes (touch_row now hash blobs)

-- `touch`
unfoldable pub touch : ℕ → List Bytes → Store → Store
unfolding touch_rows
touch now hashes st = record st { blobs = touch_rows now hashes st.blobs }

-- What `delete` and the garbage collection take away of a blob.
unfoldable pub removed : Bytes → Store → Store
unfolding delete_at delete_row
removed hash st = record st {
  files = delete_at hash st.files;
  blobs = delete_row hash st.blobs;
  indexes = delete_at hash st.indexes;
}

-- `delete`
unfoldable pub delete : Bytes → Store → Result ServerError Store
unfolding is_valid_hash removed
delete hash st =
    if not (is_valid_hash hash) then err (ServerError.invalid_hash hash) else ok (removed hash st)
