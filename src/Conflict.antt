-- ===== src/Conflict.antt =====
-- src/integrations/conflict.rs: conflicts between a local file and its copy in a cloud. Text is its
-- UTF-8 bytes, an `i64` time an integer, and `stamp` the clock's `%Y%m%d_%H%M%S`.
use remarkable_server.Base.{
  ℕ, zero, suc, ◌<◌, ltb, ◌==◌, if◌then◌else◌, Bool, true, false, not, ◌&&◌, ◌||◌, Option, none,
  some, List, [], ◌∷◌, ◌++◌, length, codes, Bytes, bytes_eq,
}
use remarkable_server.Notifications.{starts_with}
pub mod Decisions

pub data ℤ : Type 0 where
  pos : ℕ → ℤ
  negsuc : ℕ → ℤ

unfoldable pub lt_int : ℤ → ℤ → Bool
lt_int (pos a) (pos b) = ltb a b
lt_int (pos a) (negsuc b) = false
lt_int (negsuc a) (pos b) = true
lt_int (negsuc a) (negsuc b) = ltb b a

-- `CloudFile`
pub record CloudFile : Type 0 where
  pub id : Bytes
  pub name : Bytes
  pub mime_type : Option Bytes
  pub size : ℕ
  pub modified_at : ℤ
  pub content_hash : Option Bytes
  pub parent_id : Option Bytes
  pub is_folder : Bool
  pub path : Bytes
  pub deleted : Bool

pub data ConflictResolution : Type 0 where
  use_local use_cloud : ConflictResolution
  keep_both : Bytes → ConflictResolution
  merged manual_required skip : ConflictResolution

pub data ConflictStrategy : Type 0 where
  newer_wins local_wins cloud_wins keep_both_versions ask_user : ConflictStrategy

pub data ConflictType : Type 0 where
  both_modified local_deleted_cloud_modified local_modified_cloud_deleted type_changed
        hash_mismatch :
      ConflictType

pub record Conflict : Type 0 where
  pub local_path : Bytes
  pub cloud_file : CloudFile
  pub local_modified_at : ℤ
  pub local_size : ℕ
  pub conflict_type : ConflictType
  pub resolution : Option ConflictResolution

pub record ConflictResolver : Type 0 where
  pub strategy : ConflictStrategy
  pub pending_conflicts : List Conflict

abbrev pub new : ConflictStrategy → ConflictResolver
new strategy = record { strategy = strategy; pending_conflicts = [] }

-- The text before its last dot, and the rest.
abbrev pub cons_before : ℕ → Bytes → Option (Bytes × Bytes) → Option (Bytes × Bytes)
cons_before c s (some (name, ext)) = some (c ∷ name, ext)
cons_before c s none = if c == 46 then some ([], c ∷ s) else none

unfoldable pub split_extension : Bytes → Option (Bytes × Bytes)
split_extension [] = none
split_extension (c ∷ s) = cons_before c s (split_extension s)

abbrev pub conflict_name : Bytes → Bytes → Option (Bytes × Bytes) → Bytes
conflict_name original stamp (some (name, ext)) = name ++ codes "_conflict_" ++ stamp ++ ext
conflict_name original stamp none = original ++ codes "_conflict_" ++ stamp

unfoldable pub generate_conflict_name : Bytes → Bytes → Bytes
generate_conflict_name original stamp = conflict_name original stamp (split_extension original)

abbrev pub by_newer : Conflict → Bytes → ConflictResolution
by_newer c stamp =
    if lt_int c.cloud_file.modified_at c.local_modified_at
    then use_local
    else if lt_int c.local_modified_at c.cloud_file.modified_at
    then use_cloud
    else keep_both (generate_conflict_name c.cloud_file.name stamp)

abbrev pub by_type : Conflict → Bytes → ConflictType → ConflictResolution
by_type c stamp both_modified = by_newer c stamp
by_type c stamp hash_mismatch = by_newer c stamp
by_type c stamp local_deleted_cloud_modified = use_cloud
by_type c stamp local_modified_cloud_deleted = use_local
by_type c stamp type_changed = keep_both (generate_conflict_name c.cloud_file.name stamp)

unfoldable pub resolve_by_time : Conflict → Bytes → ConflictResolution
resolve_by_time c stamp = by_type c stamp c.conflict_type

abbrev pub by_strategy : Conflict → Bytes → ConflictStrategy → ConflictResolution
by_strategy c stamp newer_wins = resolve_by_time c stamp
by_strategy c stamp local_wins = use_local
by_strategy c stamp cloud_wins = use_cloud
by_strategy c stamp keep_both_versions = keep_both (generate_conflict_name c.cloud_file.name stamp)
by_strategy c stamp ask_user = manual_required

abbrev pub pushed_by : ConflictStrategy → Conflict → List Conflict → List Conflict
pushed_by ask_user c pending = pending ++ c ∷ []
pushed_by newer_wins c pending = pending
pushed_by local_wins c pending = pending
pushed_by cloud_wins c pending = pending
pushed_by keep_both_versions c pending = pending

-- `resolve`: the resolver and the conflict are both changed.
unfoldable pub resolve :
    ConflictResolver → Conflict → Bytes → ConflictResolver × (Conflict × ConflictResolution)
resolve r c stamp =
    let resolution = by_strategy c stamp r.strategy in
    (
      record r { pending_conflicts = pushed_by r.strategy c r.pending_conflicts },
      (record c { resolution = some resolution }, resolution),
    )

abbrev pub clear_pending : ConflictResolver → ConflictResolver
clear_pending r = record r { pending_conflicts = [] }

-- `Vec::remove`, or `none` past the end.
unfoldable pub remove_at : List Conflict → ℕ → Option (Conflict × List Conflict)
remove_at [] n = none
remove_at (c ∷ cs) zero = some (c, cs)
remove_at (c ∷ cs) (suc n) = elim (remove_at cs n) [ none ↦ none | some r ↦ some (r.0, c ∷ r.1) ]

abbrev pub resolved_at :
    ConflictResolver
    → ConflictResolution
    → Option (Conflict × List Conflict)
    → ConflictResolver × Option Conflict
resolved_at r resolution none = (r, none)
resolved_at r resolution (some (c, rest)) =
    (record r { pending_conflicts = rest }, some (record c { resolution = some resolution }))

unfoldable pub resolve_manual :
    ConflictResolver → ℕ → ConflictResolution → ConflictResolver × Option Conflict
resolve_manual r index resolution = resolved_at r resolution (remove_at r.pending_conflicts index)

abbrev pub sync_time : Option ℤ → ℤ
sync_time none = pos 0
sync_time (some t) = t

-- The stand-in for a file that the cloud deleted; `file_name` is the path's last component as text.
abbrev pub deleted_file : (Bytes → Bytes) → Bytes → CloudFile
deleted_file file_name local_path = record {
  id = [];
  name = file_name local_path;
  mime_type = none;
  size = 0;
  modified_at = pos 0;
  content_hash = none;
  parent_id = none;
  is_folder = false;
  path = local_path;
  deleted = true;
}

-- An unresolved conflict.
abbrev pub found : Bytes → CloudFile → ℤ → ℕ → ConflictType → Conflict
found local_path cloud local_modified_at local_size kind = record {
  local_path = local_path;
  cloud_file = cloud;
  local_modified_at = local_modified_at;
  local_size = local_size;
  conflict_type = kind;
  resolution = none;
}

unfoldable pub detect_conflict :
    (Bytes → Bytes) → Bytes → ℤ → ℕ → Bool → Option CloudFile → Option ℤ → Option Conflict
detect_conflict file_name path modified size true (some cloud) last =
    if lt_int (sync_time last) modified && lt_int (sync_time last) cloud.modified_at
    then some (found path cloud modified size both_modified)
    else none
detect_conflict file_name path modified size false (some cloud) last =
    if lt_int (sync_time last) cloud.modified_at
    then some (found path cloud (pos 0) 0 local_deleted_cloud_modified)
    else none
detect_conflict file_name path modified size true none last =
    if lt_int (sync_time last) modified
    then some (found path (deleted_file file_name path) modified size local_modified_cloud_deleted)
    else none
detect_conflict file_name path modified size false none last = none

pub data MergeResult : Type 0 where
  success : Bytes → MergeResult
  cannot_merge unsupported : MergeResult

abbrev pub is_text : Option Bytes → Bool
is_text none = false
is_text (some m) =
    starts_with m (codes "text/")
    || (bytes_eq m (codes "application/json")
        || (bytes_eq m (codes "application/xml") || bytes_eq m (codes "application/javascript")))

abbrev pub merged_lines : Option Bytes → MergeResult
merged_lines none = cannot_merge
merged_lines (some lines) = success lines

abbrev pub merge_on :
    (Bytes → Bytes → Bytes → Option Bytes) → Bytes → Bytes → Option Bytes → MergeResult
merge_on merge_bytes local_content cloud_content none = cannot_merge
merge_on merge_bytes local_content cloud_content (some base) =
    if bytes_eq base local_content
    then success cloud_content
    else if bytes_eq base cloud_content
    then success local_content
    else merged_lines (merge_bytes base local_content cloud_content)

-- `attempt_merge`; `merge_bytes` is diffy's, `none` for its `Err` with conflict markers.
unfoldable pub attempt_merge :
    (Bytes → Bytes → Bytes → Option Bytes)
    → Bytes
    → Bytes
    → Option Bytes
    → Option Bytes
    → MergeResult
attempt_merge merge_bytes local_content cloud_content base_content mime_type =
    if not (is_text mime_type)
    then unsupported
    else if bytes_eq local_content cloud_content
    then success local_content
    else merge_on merge_bytes local_content cloud_content base_content
