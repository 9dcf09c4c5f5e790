-- ===== src/Sync/Paths.antt =====
-- src/integrations/sync.rs, the paths: a provider's path is split, checked and joined to the local
-- root. A path is its bytes, and the components of one are those of Unix.
pub mod Inside
pub mod Accepted
use remarkable_server.Base.{
  ℕ, ◌≡◌, ltb, leb, ◌==◌, if◌then◌else◌, Bool, true, false, not, ◌&&◌, ◌||◌, Option, none, some,
  List, [], ◌∷◌, ◌++◌, any, is_empty, length, Bytes, bytes_eq, codes,
}
use remarkable_server.Base.Result.{Result, ok, err, ◌>>=◌}
use remarkable_server.Storage.Index.{onto_first}

-- Why a path is refused (`IntegrationError::InvalidPath`).
pub data PathProblem : Type 0 where
  empty_path nul_byte backslash absolute_path drive_prefix dots_or_empty too_long not_plain
        escapes :
      PathProblem

abbrev pub max_name_bytes : ℕ
max_name_bytes = 255

-- `split('/')`
unfoldable pub split_slash : Bytes → List Bytes
unfolding onto_first
split_slash [] = [] ∷ []
split_slash (c ∷ cs) =
    let rest = split_slash cs in if c == 0x2F then [] ∷ rest else onto_first c rest

unfoldable pub contains_byte : ℕ → Bytes → Bool
contains_byte b path = any (λ c. c == b) path

unfoldable pub starts_with_slash : Bytes → Bool
starts_with_slash [] = false
starts_with_slash (c ∷ cs) = c == 0x2F

-- `is_ascii_alphabetic`
unfoldable pub is_ascii_alphabetic : ℕ → Bool
is_ascii_alphabetic c = (leb 0x41 c && leb c 0x5A) || (leb 0x61 c && leb c 0x7A)

unfoldable pub has_drive : Bytes → Bool
unfolding is_ascii_alphabetic
has_drive (a ∷ b ∷ cs) = is_ascii_alphabetic a && b == 0x3A
has_drive _ = false

unfoldable pub first_has_drive : List Bytes → Bool
unfolding has_drive
first_has_drive [] = false
first_has_drive (part ∷ parts) = has_drive part

pub data Component : Type 0 where
  root_dir cur_dir parent_dir : Component
  normal : Bytes → Component

-- The components after the first segment: empty ones and `.` are none.
unfoldable pub later_components : List Bytes → List Component
later_components [] = []
later_components (s ∷ ss) =
    let rest = later_components ss in
    if is_empty s || bytes_eq s (codes ".")
    then rest
    else if bytes_eq s (codes "..")
    then parent_dir ∷ rest
    else normal s ∷ rest

-- A `.` counts at the start of a relative path.
unfoldable pub first_components : List Bytes → List Component
unfolding later_components
first_components [] = []
first_components (s ∷ ss) =
    if bytes_eq s (codes ".") then cur_dir ∷ later_components ss else later_components (s ∷ ss)

-- `Path::components`
unfoldable pub components : Bytes → List Component
unfolding starts_with_slash first_components split_slash later_components
components path =
    if starts_with_slash path
    then root_dir ∷ later_components (split_slash path)
    else first_components (split_slash path)

unfoldable pub is_one_normal : List Component → Bool
is_one_normal (normal s ∷ []) = true
is_one_normal _ = false

-- The loop over the segments.
unfoldable pub check_parts : List Bytes → Result PathProblem (Unit {0})
unfolding is_one_normal components
check_parts [] = ok tt
check_parts (part ∷ parts) =
    let rest = check_parts parts in
    if is_empty part || (bytes_eq part (codes ".") || bytes_eq part (codes ".."))
    then err dots_or_empty
    else if ltb max_name_bytes (length part)
    then err too_long
    else if not (is_one_normal (components part))
    then err not_plain
    else rest

-- `safe_components`
unfoldable pub safe_components : Bytes → Result PathProblem (List Bytes)
unfolding contains_byte starts_with_slash split_slash first_has_drive check_parts
safe_components path =
    if is_empty path
    then err empty_path
    else if contains_byte 0 path
    then err nul_byte
    else if contains_byte 0x5C path
    then err backslash
    else if starts_with_slash path
    then err absolute_path
    else if first_has_drive (split_slash path)
    then err drive_prefix
    else (check_parts (split_slash path) >>= λ _. ok (split_slash path))

unfoldable pub is_single : Result PathProblem (List Bytes) → Bool
is_single (ok (part ∷ [])) = true
is_single _ = false

-- `is_safe_name`
unfoldable pub is_safe_name : Bytes → Bool
unfolding is_single safe_components
is_safe_name name = is_single (safe_components name)

abbrev pub max_list_depth : ℕ
max_list_depth = 64

unfoldable pub all_safe : List Bytes → Bool
unfolding is_safe_name
all_safe [] = true
all_safe (part ∷ parts) = is_safe_name part && all_safe parts

-- `listable`
unfoldable pub listable : List Bytes → Bool
unfolding all_safe
listable parts = leb (length parts) max_list_depth && all_safe parts

-- `strip_prefix('/').unwrap_or`
unfoldable pub strip_slash : Bytes → Bytes
strip_slash [] = []
strip_slash (c ∷ cs) = if c == 0x2F then cs else c ∷ cs

-- `cloud_path_components`
unfoldable pub cloud_path_components : Bytes → Result PathProblem (List Bytes)
unfolding safe_components strip_slash
cloud_path_components cloud_path = safe_components (strip_slash cloud_path)

unfoldable pub ends_with_slash : Bytes → Bool
ends_with_slash [] = false
ends_with_slash (c ∷ []) = c == 0x2F
ends_with_slash (c ∷ d ∷ cs) = ends_with_slash (d ∷ cs)

-- `Path::join`
unfoldable pub join : Bytes → Bytes → Bytes
unfolding starts_with_slash ends_with_slash
join path c =
    if starts_with_slash c
    then c
    else if is_empty path || ends_with_slash path
    then path ++ c
    else path ++ (0x2F ∷ c)

unfoldable pub join_all : Bytes → List Bytes → Bytes
unfolding join
join_all path [] = path
join_all path (c ∷ cs) = join_all (join path c) cs

unfoldable pub same_component : Component → Component → Bool
same_component root_dir root_dir = true
same_component cur_dir cur_dir = true
same_component parent_dir parent_dir = true
same_component (normal a) (normal b) = bytes_eq a b
same_component _ _ = false

-- `starts_with`
unfoldable pub is_prefix : List Component → List Component → Bool
unfolding same_component
is_prefix [] cs = true
is_prefix (b ∷ bs) [] = false
is_prefix (b ∷ bs) (c ∷ cs) = same_component b c && is_prefix bs cs

-- `local_path_for`
unfoldable pub local_path_for : Bytes → Bytes → Result PathProblem Bytes
unfolding cloud_path_components join_all is_prefix components
local_path_for base cloud_path = cloud_path_components cloud_path >>= λ parts.
    let joined = join_all base parts in
    if not (is_prefix (components base) (components joined))
      || is_prefix (components joined) (components base)
    then err escapes
    else ok joined
