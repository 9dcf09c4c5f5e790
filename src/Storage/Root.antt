-- ===== src/Storage/Root.antt =====
-- src/storage.rs, the sync root: its row in sync.db, the mirror root.json, and the root that the
-- process remembers. The handler of a root upload is src/sync15.rs. The database and the reading
-- of files do not fail; a write of the mirror may.
pub mod Commits
pub mod Once
pub mod Reopen
pub mod Upload
pub mod Moved
use remarkable_server.Base.{
  ℕ, ◌+◌, ◌%◌, ◌^◌, ◌==◌, ltb, leb, if◌then◌else◌, Bool, true, false, not, ◌&&◌, ◌||◌, Option, none,
  some, List, [], ◌∷◌, length, Bytes, bytes_eq,
}
use remarkable_server.Base.Result.{Result, ok, err, ◌>>=◌, ◌>>◌, refuse_if}
use remarkable_server.Errors.{ServerError}

-- `is_valid_hash`: the lower-case hexadecimal form of a SHA-256.
unfoldable pub is_hex : Bytes → Bool
is_hex [] = true
is_hex (b ∷ bs) = ((leb 0x30 b && leb b 0x39) || (leb 0x61 b && leb b 0x66)) && is_hex bs

unfoldable pub is_valid_hash : Bytes → Bool
unfolding is_hex
is_valid_hash hash = length hash == 64 && is_hex hash

-- `SyncRoot` of src/types.rs
pub record SyncRoot : Type 0 where
  pub hash : Bytes
  pub generation : ℕ
  pub schema_version : ℕ

abbrev pub empty_root : SyncRoot
empty_root = record { hash = []; generation = 0; schema_version = 3 }

-- The row of the table `root`.
pub record RootRow : Type 0 where
  pub hash : Bytes
  pub generation : ℕ
  pub schema_version : ℕ
  pub previous_hash : Bytes

-- What the processes that share a directory see: the row, and root.json where it is.
pub record Disk : Type 0 where
  pub row : RootRow
  pub mirror : Option SyncRoot

unfoldable pub select_root : RootRow → SyncRoot
select_root row = record {
  hash = row.hash;
  generation = row.generation;
  schema_version = row.schema_version;
}

-- `read_root_json(..).unwrap_or_else(SyncRoot::empty)`
unfoldable pub or_empty : Option SyncRoot → SyncRoot
or_empty none = empty_root
or_empty (some root) = root

-- `load_or_import_root`: the row that was there, or one made of the mirror.
unfoldable pub load_or_import_root : Option RootRow → Option SyncRoot → RootRow
unfolding or_empty
load_or_import_root (some row) mirror = row
load_or_import_root none mirror = record {
  hash = (or_empty mirror).hash;
  generation = (or_empty mirror).generation;
  schema_version = (or_empty mirror).schema_version;
  previous_hash = [];
}

unfoldable pub adopted : RootRow → SyncRoot → RootRow
adopted row mirror = record {
  hash = mirror.hash;
  generation = mirror.generation;
  schema_version = mirror.schema_version;
  previous_hash = row.hash;
}

-- `adopt_newer_root_json`: the row to go on with, or the refusal to open.
unfoldable pub adopt_newer_root_json : RootRow → Option SyncRoot → Result ServerError RootRow
unfolding adopted
adopt_newer_root_json row none = ok row
adopt_newer_root_json row (some mirror) =
    if ltb row.generation mirror.generation
    then ok (adopted row mirror)
    else if mirror.generation == row.generation
        && (not (bytes_eq mirror.hash row.hash) && not (bytes_eq mirror.hash []))
    then err (ServerError.config "root.json and sync.db disagree")
    else ok row

-- The root part of `Storage::new`: the disk after it, whose row is the root served.
unfoldable pub open_root : Option RootRow → Option SyncRoot → Result ServerError Disk
unfolding load_or_import_root adopt_newer_root_json
open_root row mirror = adopt_newer_root_json (load_or_import_root row mirror) mirror >>= λ row'.
    ok (record { row = row'; mirror = mirror })

-- `write_mirror`: never over a newer generation, and `written` says whether the file was replaced.
unfoldable pub mirror_after : Bool → SyncRoot → Option SyncRoot → Option SyncRoot
mirror_after written root none = if written then some root else none
mirror_after written root (some mirror) =
    if ltb root.generation mirror.generation
    then some mirror
    else if written
    then some root
    else some mirror

-- `generation + 1` on 64 bits.
unfoldable pub next : ℕ → ℕ
next generation = (generation + 1) % 2 ^ 64

unfoldable pub committed : RootRow → Bytes → RootRow
unfolding next
committed row hash = record {
  hash = hash;
  generation = next row.generation;
  schema_version = row.schema_version;
  previous_hash = row.hash;
}

unfoldable pub differs : Option ℕ → ℕ → Bool
differs none generation = false
differs (some expected) generation = not (expected == generation)

-- `set_root_if`: the transaction, then the mirror.
unfoldable pub set_root_if : Bool → Bytes → Option ℕ → Disk → Result ServerError (SyncRoot × Disk)
unfolding committed differs mirror_after select_root
set_root_if written hash expected disk =
    if differs expected disk.row.generation
    then err (ServerError.generation_mismatch disk.row.generation)
    else (let row = committed disk.row hash in
        ok (
          select_root row,
          record { row = row; mirror = mirror_after written (select_root row) disk.mirror },
        ))

-- `set_root`
unfoldable pub set_root : Bool → Bytes → Disk → Result ServerError (SyncRoot × Disk)
unfolding set_root_if
set_root written hash disk = set_root_if written hash none disk

-- `generation_precondition`: no header, or one that must be a number (`some none` is one that
-- is not).
unfoldable pub generation_precondition : Option (Option ℕ) → Result ServerError (Option ℕ)
generation_precondition none = ok none
generation_precondition (some (some generation)) = ok (some generation)
generation_precondition (some none) = err (ServerError.invalid_header "x-goog-if-generation-match")

-- `blob_put` for the root, once its body is read and trimmed.
unfoldable pub put_root :
    Bool → Bytes → Option (Option ℕ) → Disk → Result ServerError (SyncRoot × Disk)
unfolding is_valid_hash generation_precondition set_root_if
put_root written hash header disk =
    if not (is_valid_hash hash)
    then err (ServerError.invalid_hash hash)
    else (generation_precondition header >>= λ expected. set_root_if written hash expected disk)
