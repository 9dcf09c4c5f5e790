-- ===== src/Storage/Gc/Invariant.antt =====
-- src/storage.rs: the projection agrees with the blobs, whatever the storage does.
use remarkable_server.Base.{ℕ, Bool, Option, List, [], ◌∷◌, Bytes}
use remarkable_server.Base.Result.{Result, ok, err}
use remarkable_server.Errors.{ServerError}
use remarkable_server.Storage.Catalogue.{put_file_with_hash, clear, reopen}
use remarkable_server.Storage.Blobs.{File, Store, put_with_hash, delete}
use remarkable_server.Storage.Tree.{Decoders, index_tree}
use remarkable_server.Storage.Gc.{Swept, Act, act, gc_plan, gc}

-- What the storage does: commits of a root and others' acts, blobs put whole or streamed, and
-- deleted, the parsing of a root's indexes, collections, clearing, and opening.
pub data Op : Type 0 where
  acts : Act → Op
  puts : Bytes → Bytes → Bytes → ℕ → Op
  deletes : Bytes → Op
  indexes_root : Bytes → Op
  collects : ℕ → ℕ → Bool → (Bytes → Bool) → (ℕ → List Act) → Op
  puts_file : Option File → Bytes → Bytes → ℕ → Op
  clears : Op
  reopens : List Bytes → (Bytes → Bytes) → Op

unfoldable pub kept_or : Store → Result ServerError Store → Store
kept_or st (ok st') = st'
kept_or st (err e) = st

unfoldable pub staged_or : Store → Result ServerError (ℕ × Store) → Store
staged_or st (ok r) = r.1
staged_or st (err e) = st

unfoldable pub swept_or : Store → Result ServerError Swept → Store
swept_or st (ok s) = s.1
swept_or st (err e) = st

-- The store after an operation; a collection that fails leaves what its plan has indexed.
unfoldable pub after_op : Decoders → Op → Store → Store
unfolding act put_with_hash delete index_tree gc gc_plan kept_or swept_or put_file_with_hash clear
    reopen staged_or
after_op d (Op.acts a) st = act d a st
after_op d (Op.puts bytes hash filename now) st =
    kept_or st (put_with_hash bytes hash filename now st)
after_op d (Op.deletes hash) st = kept_or st (delete hash st)
after_op d (Op.indexes_root root) st = index_tree d root st
after_op d (Op.collects now grace dry_run removable others) st =
    swept_or (gc_plan d now grace st).1 (gc d now grace dry_run removable others st)
after_op d (Op.puts_file staged hash filename now) st =
    staged_or st (put_file_with_hash staged hash filename now st)
after_op d Op.clears st = clear st
after_op d (Op.reopens names legacy_name) st = kept_or st (reopen d names legacy_name st)

unfoldable pub after_ops : Decoders → List Op → Store → Store
unfolding after_op
after_ops d [] st = st
after_ops d (o ∷ os) st = after_ops d os (after_op d o st)
