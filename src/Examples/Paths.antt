-- ===== src/Examples/Paths.antt =====
-- The theorems on the paths of a cloud sync at concrete paths.
use remarkable_server.Base.{
  ◌≡◌, refl, ◌==◌, Bool, true, false, not, ◌&&◌, List, [], ◌∷◌, is_empty, Bytes, codes, All, arith,
}
use remarkable_server.Base.Result.{ok}
use remarkable_server.Sync.Paths.{
  safe_components, local_path_for, split_slash, strip_slash, has_drive,
}
use remarkable_server.Sync.Paths.Inside.{IsName, IsNamed, resolve, below, local_path_for_inside}
use remarkable_server.Sync.Paths.Accepted.{slashed, safe_components-slashed}

abbrev base : Bytes
base = codes "/data/sync/"

abbrev cloud_path : Bytes
cloud_path = codes "/Notes/a.pdf"

local_path_for_inside_example :
    (names : List Bytes) × All IsName names
    × (is_empty names ≡ false)
    × (names ≡ split_slash (strip_slash cloud_path))
    × (resolve (codes "/data/sync/Notes/a.pdf") ≡ below (resolve base) names)
unfolding local_path_for
local_path_for_inside_example =
    local_path_for_inside base cloud_path (codes "/data/sync/Notes/a.pdf") refl

abbrev is_named : Bytes → Bool
is_named [] = true
is_named (c ∷ cs) = (not (c == 0x2F) && (not (c == 0) && not (c == 0x5C))) && is_named cs

named : (s : Bytes) → is_named s ≡ true → All IsNamed s
named [] h = tt
named (c ∷ cs) h = ((ground arith, ground arith, ground arith), named cs (ground arith))

notes-IsName : IsName (codes "Notes")
notes-IsName = (refl, refl, refl, omega arith, named (codes "Notes") refl)

file-IsName : IsName (codes "a.pdf")
file-IsName = (refl, refl, refl, omega arith, named (codes "a.pdf") refl)

safe_components-slashed_example :
    safe_components (slashed (codes "Notes") (codes "a.pdf" ∷ []))
    ≡ ok (codes "Notes" ∷ codes "a.pdf" ∷ [])
unfolding has_drive
safe_components-slashed_example =
    safe_components-slashed (codes "Notes") (codes "a.pdf" ∷ []) notes-IsName (file-IsName, tt) refl
