-- ===== src/Examples/Blobs.antt =====
-- The theorems on the sync root at concrete directories.
use remarkable_server.Base.{
  Bytes, codes, All, ◌≡◌, ◌≤◌, ◌⊎◌, refl, inl, true, false, none, some, List, [], ◌∷◌, arith,
}
use remarkable_server.Base.Result.{ok}
use remarkable_server.Storage.Root.{SyncRoot, RootRow, Disk, open_root, adopted}
use remarkable_server.Storage.Root.Commits.{
  Write, answers, after_writes, log_answers, log_after, row_of, writes_refine,
}
use remarkable_server.Storage.Root.Once.{accepted, accepted_once}
use remarkable_server.Storage.Root.Reopen.{reopen_after_writes}
use remarkable_server.Storage.Index.{IndexEntry, parse_index}
use remarkable_server.Storage.Index.Parsed.{IsEntry, parse_index_is_valid}

abbrev row : RootRow
row = record { hash = codes "aa"; generation = 7; schema_version = 3; previous_hash = [] }

abbrev old_mirror : SyncRoot
old_mirror = record { hash = codes "99"; generation = 5; schema_version = 3 }

abbrev disk : Disk
disk = record { row = row; mirror = some old_mirror }

abbrev writes : List Write
writes =
    record { hash = codes "bb"; expected = some 7; written = false }
    ∷ record { hash = codes "cc"; expected = some 7; written = true }
    ∷ record { hash = codes "dd"; expected = none; written = true }
    ∷ []

writes_refine_example :
    (answers (record { row = row_of row []; mirror = some old_mirror }) writes
      ≡ log_answers 7 [] writes)
    × ((after_writes (record { row = row_of row []; mirror = some old_mirror }) writes).row
        ≡ row_of row (log_after 7 [] writes))
writes_refine_example = writes_refine row [] (some old_mirror) writes (omega arith)

accepted_once_example : accepted 7 writes (answers disk writes) ≤ 1
accepted_once_example = accepted_once disk writes 7 (omega arith)

reopen_after_writes_example :
    open_root (some (after_writes disk writes).row) (after_writes disk writes).mirror
    ≡ ok (after_writes disk writes)
reopen_after_writes_example = reopen_after_writes disk writes (omega arith) (inl (omega arith))

abbrev rolled_back : SyncRoot
rolled_back = record { hash = codes "ee"; generation = 9; schema_version = 4 }

abbrev adopted_disk : Disk
unfolding adopted
adopted_disk = record { row = adopted row rolled_back; mirror = some rolled_back }

abbrev index : Bytes
index =
    codes
      "3\n0123456789abcdef0123456789abcdef0123456789abcdef0123456789abcdef:80000000:doc:0:17\r\n\n"

abbrev entry : IndexEntry
entry = record {
  hash = codes "0123456789abcdef0123456789abcdef0123456789abcdef0123456789abcdef";
  kind = codes "80000000";
  name = codes "doc";
  subfiles = 0;
  size = 17;
}

parse_index_is_valid_example :
    ((codes "3" ≡ codes "3") ⊎ (codes "3" ≡ codes "4")) × All IsEntry (entry ∷ [])
unfolding parse_index
parse_index_is_valid_example = parse_index_is_valid index (codes "3") (entry ∷ []) refl

abbrev root_hash : Bytes
root_hash = codes "0123456789abcdef0123456789abcdef0123456789abcdef0123456789abcdef"
