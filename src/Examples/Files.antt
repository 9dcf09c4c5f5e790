-- ===== src/Examples/Files.antt =====
-- src/integrations/conflict.rs on concrete files.
use remarkable_server.Base.{refl, Option, none, some, Bytes, codes, true, false}
use remarkable_server.Conflict.{pos, lt_int, CloudFile, both_modified, found, detect_conflict}
use remarkable_server.Conflict.Decisions.{resolve-KeepsNewer, KeepsNewer}

abbrev notes : CloudFile
notes = record {
  id = codes "1";
  name = codes "notes.txt";
  mime_type = some (codes "text/plain");
  size = 3;
  modified_at = pos 9;
  content_hash = none;
  parent_id = none;
  is_folder = false;
  path = codes "/notes.txt";
  deleted = false;
}

-- The name of every path here.
abbrev only_name : Bytes → Bytes
only_name path = codes "notes.txt"

resolve-KeepsNewer_example :
    KeepsNewer (codes "20240101_000000") (found (codes "/notes.txt") notes (pos 7) 4 both_modified)
unfolding detect_conflict lt_int
resolve-KeepsNewer_example =
    resolve-KeepsNewer only_name (codes "/notes.txt") (pos 7) 4 true (some notes) (some (pos 5))
      (found (codes "/notes.txt") notes (pos 7) 4 both_modified) (codes "20240101_000000") refl refl

-- A line merge that always finds a conflict.
abbrev never_merges : Bytes → Bytes → Bytes → Option Bytes
never_merges base local_content cloud_content = none
