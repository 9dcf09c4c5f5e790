-- ===== src/Base/Table.antt =====
-- A SQL table with a text primary key, as the function from its keys.
use mathlib.Core.Option.{Option, none, some}
use mathlib.Core.Bool.{Bool}
use Prim.Native.String.{String}
use remarkable_server.Base.Tests.{if◌then◌else◌, text_eq}

abbrev pub Table : Type 0 → Type 0
Table V = String → Option V

abbrev pub empty_table : {V : Type 0} → Table V
empty_table k = none

abbrev pub put : {V : Type 0} → String → V → Table V → Table V
put k v t j = if text_eq k j then some v else t j

abbrev pub delete : {V : Type 0} → String → Table V → Table V
delete k t j = if text_eq k j then none else t j

abbrev pub row_unless : {V : Type 0} → (V → Bool) → Option V → Option V
row_unless p none = none
row_unless p (some v) = if p v then none else some v

-- `DELETE FROM t WHERE p`
abbrev pub delete_where : {V : Type 0} → (String → V → Bool) → Table V → Table V
delete_where p t j = row_unless (p j) (t j)
