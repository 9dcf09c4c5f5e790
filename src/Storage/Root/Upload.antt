-- ===== src/Storage/Root/Upload.antt =====
-- src/sync15.rs, the upload of a root: when `blob_put` accepts one.
use remarkable_server.Base.{ℕ, ◌≡◌, ◌⊎◌, ◌↔◌, Bool, true, false, Option, none, some, Bytes, arith}
use remarkable_server.Base.Result.{Result, ok, err}
use remarkable_server.Errors.{ServerError}
use remarkable_server.Storage.Root.{
  SyncRoot, Disk, is_valid_hash, differs, set_root_if, generation_precondition, put_root,
}

-- The upload was accepted.
unfoldable pub is_accepted : Result ServerError (SyncRoot × Disk) → Bool
is_accepted (ok r) = true
is_accepted (err e) = false

set_root_if-accepted :
    (written : Bool) (hash : Bytes) (g : ℕ) (disk : Disk)
    → (is_accepted (set_root_if written hash (some g) disk) ≡ true) ↔ (g ≡ disk.row.generation)
unfolding set_root_if differs is_accepted
set_root_if-accepted written hash g disk = ground arith

-- A root upload is accepted exactly if its hash is 64 lower-case hexadecimal digits and its
-- generation header is absent or the number of the generation reached.
pub put_root_accepts_iff :
    (written : Bool) (hash : Bytes) (header : Option (Option ℕ)) (disk : Disk)
    → (is_accepted (put_root written hash header disk) ≡ true) ↔ (
        (is_valid_hash hash ≡ true)
        × ((header ≡ none) ⊎ (header ≡ some (some disk.row.generation))))
unfolding put_root generation_precondition set_root_if differs is_accepted
put_root_accepts_iff written hash none disk = ground arith
put_root_accepts_iff written hash (some none) disk = ground arith
put_root_accepts_iff written hash (some (some g)) disk = ground arith
