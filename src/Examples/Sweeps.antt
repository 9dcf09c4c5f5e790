-- ===== src/Examples/Sweeps.antt =====
-- The theorems on garbage collection at a concrete store: a root, a document with one file, a file of
-- the version history and two more blobs that nothing lists.
use remarkable_server.Base.{
  ℕ, ◌≡◌, inl, refl, ap, if◌then◌else◌, true, false, Option, none, some, List, [], ◌∷◌, ◌++◌, Bytes,
  bytes_eq, codes, if_intro, subst,
}
use mathlib.Core.List.{Memᴰ}
use remarkable_server.Base.Result.{Result, ok, err}
use remarkable_server.Errors.{ServerError}
use remarkable_server.Storage.Index.{IndexEntry}
use remarkable_server.Storage.Blobs.{touch, File, BlobRow, Store, row_at}
use remarkable_server.Storage.Catalogue.{reconcile_blobs}
use remarkable_server.Storage.Tree.{Decoders, index_entries, or_none, is_index}
use remarkable_server.Storage.Tree.Coherent.{file_entries, IsCoherent}
use remarkable_server.Storage.Gc.{
  run_batches, GcPlan, initial_report, Swept, Act, gc_plan, gc_execute, is_planned_root, is_after,
  is_modified_after, gc,
}
use remarkable_server.Storage.Gc.Collects.{everything, nobody, gc_execute_collects}
use remarkable_server.Storage.Gc.Touched.{run_batches_keeps_touched}
use remarkable_server.Storage.Gc.Needed.{DistinctNames, Listed, HasDistinctNames, gc_keeps}
use remarkable_server.Storage.Gc.Invariant.{Op, after_ops}

abbrev root_hash : Bytes
root_hash = codes "aaaaaaaaaaaaaaaaaaaaaaaaaaaaaaaaaaaaaaaaaaaaaaaaaaaaaaaaaaaaaaaa"

abbrev doc_hash : Bytes
doc_hash = codes "bbbbbbbbbbbbbbbbbbbbbbbbbbbbbbbbbbbbbbbbbbbbbbbbbbbbbbbbbbbbbbbb"

abbrev page_hash : Bytes
page_hash = codes "cccccccccccccccccccccccccccccccccccccccccccccccccccccccccccccccc"

abbrev old_hash : Bytes
old_hash = codes "dddddddddddddddddddddddddddddddddddddddddddddddddddddddddddddddd"

abbrev new_hash : Bytes
new_hash = codes "eeeeeeeeeeeeeeeeeeeeeeeeeeeeeeeeeeeeeeeeeeeeeeeeeeeeeeeeeeeeeeee"

abbrev decoders : Decoders
decoders = record { from_utf8 = λ bytes. some bytes; from_utf8_lossy = λ bytes. bytes }

abbrev file_of : Bytes → ℕ → File
file_of bytes modified = record { bytes = bytes; modified = modified }

abbrev root_file : File
root_file = file_of (codes "3\n" ++ (doc_hash ++ codes ":80000000:doc:1:17\n")) 5

abbrev doc_file : File
doc_file = file_of (codes "3\n" ++ (page_hash ++ codes ":0:page:0:17\n")) 5

abbrev page_file : File
page_file = file_of (codes "12345") 8

abbrev row_of_time : ℕ → BlobRow
row_of_time time = record { filename = []; size = 17; updated_at = time }

abbrev files : Bytes → Option File
files hash =
    if bytes_eq root_hash hash
    then some root_file
    else if bytes_eq doc_hash hash
    then some doc_file
    else if bytes_eq page_hash hash
    then some (file_of [] 5)
    else if bytes_eq old_hash hash
    then some (file_of [] 5)
    else if bytes_eq new_hash hash
    then some (file_of [] 950)
    else none

abbrev start : Store
start = record {
  disk = record {
    row = record { hash = root_hash; generation = 7; schema_version = 3; previous_hash = [] };
    mirror = none;
  };
  files = files;
  blobs =
      (root_hash, row_of_time 5)
      ∷ (doc_hash, row_of_time 5)
      ∷ (page_hash, row_of_time 5)
      ∷ (old_hash, row_of_time 5)
      ∷ (new_hash, row_of_time 5)
      ∷ [];
  indexes = λ hash. none;
  versions = [];
}

start-IsCoherent : IsCoherent decoders start
unfolding index_entries
start-IsCoherent hash rows q = cc

abbrev empty_plan : GcPlan
empty_plan = record {
  root_hash = [];
  generation = 0;
  previous_hash = [];
  grace_secs = 0;
  cutoff = none;
  candidates = [];
}

unfoldable swept_or_start : Result ServerError Swept → Swept
swept_or_start (ok s) = s
swept_or_start (err e) = (initial_report empty_plan true, start)

one_name :
    (file : File) (es : List IndexEntry)
    → DistinctNames (or_none (file_entries decoders (some file)))
    → file_entries decoders (some file) ≡ some es
    → DistinctNames es
unfolding or_none
one_name file es h q = subst DistinctNames (ap or_none q) h

start-HasDistinctNames : HasDistinctNames decoders start
unfolding file_entries or_none
start-HasDistinctNames hash es =
    if_intro Fine (bytes_eq root_hash hash) _ _ (λ b. one_name root_file es (tt, tt))
      (λ b.
        if_intro Fine (bytes_eq doc_hash hash) _ _ (λ b. one_name doc_file es (tt, tt))
          (λ b.
            if_intro Fine (bytes_eq page_hash hash) _ _ (λ b. one_name (file_of [] 5) es tt)
              (λ b.
                if_intro Fine (bytes_eq old_hash hash) _ _ (λ b. one_name (file_of [] 5) es tt)
                  (λ b.
                    if_intro Fine (bytes_eq new_hash hash) _ _
                      (λ b. one_name (file_of [] 950) es tt) (λ b q. cc)))))
  where
    Fine : Option File → Type 0
    Fine file = file_entries decoders file ≡ some es → DistinctNames es

abbrev swept : Swept
unfolding gc swept_or_start
swept = swept_or_start (gc decoders 1000 100 false (λ hash. true) nobody start)

-- The collection removes the old blob that nothing lists, and nothing else.
removes_old : swept.0.hashes ≡ old_hash ∷ []
unfolding swept
removes_old = refl

page_listed : Listed decoders start root_hash page_hash
unfolding file_entries is_index
page_listed = Listed.file _ _ _ _ refl (Memᴰ.head refl) refl refl (Memᴰ.head refl)

gc_keeps_example : swept.1.files page_hash ≡ start.files page_hash
unfolding gc swept
gc_keeps_example =
    gc_keeps decoders 1000 100 false (λ hash. true) nobody start swept page_hash start-IsCoherent
      start-HasDistinctNames (inl page_listed) refl

abbrev ops : List Op
ops =
    Op.indexes_root root_hash
    ∷ Op.collects 1000 100 false (λ hash. true) nobody
    ∷ Op.puts (codes "4\n") doc_hash [] 1001
    ∷ Op.acts (Act.touches 1002 (page_hash ∷ []))
    ∷ Op.puts_file (some (file_of (codes "3\n") 1003)) root_hash [] 1004
    ∷ Op.reopens (root_hash ∷ doc_hash ∷ []) (λ hash. [])
    ∷ []

-- A table that knows a file that is gone, and does not know one that is there.
abbrev gone_hash : Bytes
gone_hash = codes "ffffffffffffffffffffffffffffffffffffffffffffffffffffffffffffffff"

abbrev outdated : Store
outdated = record start { blobs = (gone_hash, row_of_time 3) ∷ (doc_hash, row_of_time 4) ∷ [] }

reconciled :
    (reconcile_blobs (doc_hash ∷ page_hash ∷ []) (λ hash. codes "page") outdated).blobs
    ≡ (doc_hash, row_of_time 4)
      ∷ (page_hash, record { filename = codes "page"; size = 0; updated_at = 5 })
      ∷ []
unfolding reconcile_blobs
reconciled = refl

-- After opening and clearing, a streamed upload is catalogued under its hash with its size.
streamed_after_clear :
    (after_ops decoders
      (Op.reopens (doc_hash ∷ []) (λ hash. [])
        ∷ Op.clears
        ∷ Op.puts_file (some page_file) page_hash (codes "page") 9
        ∷ [])
      start).blobs
    ≡ (page_hash, record { filename = codes "page"; size = 5; updated_at = 9 }) ∷ []
unfolding after_ops
streamed_after_clear = refl

-- A document index that lists two entries of one name: the later hides the earlier in the
-- projection, and the blob of the earlier is removed.
abbrev twice_file : File
twice_file =
    file_of
      (codes "3\n"
        ++ (page_hash ++ (codes ":0:page:0:17\n" ++ (old_hash ++ codes ":0:page:0:17\n"))))
      5

abbrev twice : Store
twice = record start {
  files = λ hash. if bytes_eq doc_hash hash then some twice_file else start.files hash;
}

hidden_is_removed :
    (swept_or_start (gc decoders 1000 100 false (λ hash. true) nobody twice)).0.hashes
    ≡ page_hash ∷ []
unfolding gc swept_or_start
hidden_is_removed = refl

unfoldable plan_or_empty : Result ServerError GcPlan → GcPlan
plan_or_empty (ok p) = p
plan_or_empty (err e) = empty_plan

abbrev plan : GcPlan
unfolding gc_plan plan_or_empty
plan = plan_or_empty (gc_plan decoders 1000 100 start).0

gc_execute_collects_example :
    (swept_or_start (gc_execute decoders plan false everything nobody start)).1.files old_hash
    ≡ none
unfolding gc_execute plan plan_or_empty gc_plan is_planned_root row_at is_after is_modified_after
    swept_or_start
gc_execute_collects_example =
    gc_execute_collects decoders plan start
      (swept_or_start (gc_execute decoders plan false everything nobody start)) old_hash refl refl
      refl (row_of_time 5, refl, refl, refl) refl

-- The old blob is marked as used after the plan is made.
abbrev marked : Store
unfolding touch
marked = touch 999 (old_hash ∷ []) start

run_batches_keeps_touched_example :
    (run_batches decoders plan everything nobody
        ((old_hash ∷ []) ∷ [])
        (initial_report plan false, marked)).1.files
      old_hash
    ≡ marked.files old_hash
unfolding marked touch row_at is_after plan plan_or_empty gc_plan
run_batches_keeps_touched_example =
    run_batches_keeps_touched decoders plan everything old_hash nobody ((old_hash ∷ []) ∷ [])
      (initial_report plan false, marked) (λ n. tt) refl
