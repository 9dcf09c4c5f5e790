-- ===== src/Base/Assoc.antt =====
-- A keyed table as an association list: a SQL table with a text primary key, or a `HashMap`.
use mathlib.Core.Path.{◌≡◌}
use mathlib.Core.Option.{Option, none, some}
use mathlib.Core.List.{List, [], ◌∷◌}
use Prim.Native.String.{String}
use native.Mathlib.Omega.{arith}
use text.Mathlib.TextEquality.{eq_iff}
use remarkable_server.Base.Tests.{if◌then◌else◌, text_eq}

-- The entries in the order in which the map gives them.
abbrev pub Assoc {ℓ} : Type ℓ → Type ℓ
Assoc Entry = List (String × Entry)

module _ {ℓ} {Entry : Type ℓ} where
  -- The first entry under the key.
  unfoldable pub lookup : (key : String) (map : Assoc Entry) → Option Entry
  lookup key [] = none
  lookup key ((name, entry) ∷ map) = if text_eq name key then some entry else lookup key map

  -- An entry that is there is replaced where it stands.
  unfoldable pub insert : (key : String) (new : Entry) (map : Assoc Entry) → Assoc Entry
  insert key new [] = (key, new) ∷ []
  insert key new ((name, entry) ∷ map) =
      if text_eq name key then (key, new) ∷ map else (name, entry) ∷ insert key new map

  unfoldable pub remove : (key : String) (map : Assoc Entry) → Assoc Entry
  remove key [] = []
  remove key ((name, entry) ∷ map) =
      let rest = remove key map in if text_eq name key then rest else (name, entry) ∷ rest

  pub lookup-remove :
      (key asked : String) (map : Assoc Entry)
      → lookup asked (remove key map) ≡ (if text_eq key asked then none else lookup asked map)
  unfolding lookup remove
  lookup-remove key asked [] = ground arith
  lookup-remove key asked ((name, entry) ∷ map) =
      ground
        (arith, lookup-remove key asked map, eq_iff name asked, eq_iff name key, eq_iff key asked)
