-- ===== src/Storage/Gc.antt =====
-- src/storage.rs: what the sync tree still needs, and garbage collection. What the other processes do
-- between two batches is an argument, and so is which files cannot be removed.
pub mod Kept
pub mod Needed
pub mod Invariant
pub mod Collects
pub mod Touched
use remarkable_server.Base.{
  ℕ, zero, suc, ◌+◌, ◌-◌, ◌≡◌, leb, ltb, ◌==◌, if◌then◌else◌, Bool, true, false, not, ◌&&◌, ◌||◌,
  Option, none, some, List, [], ◌∷◌, ◌++◌, take, drop, is_empty, length, Bytes, bytes_eq, bytes_lt,
  contains_bytes,
}
use remarkable_server.Base.Result.{Result, ok, err, ◌>>=◌}
use remarkable_server.Errors.{ServerError}
use remarkable_server.Storage.Root.{SyncRoot, RootRow}
use remarkable_server.Storage.Root.Commits.{Write}
use remarkable_server.Storage.Index.{IndexEntry}
use remarkable_server.Storage.Blobs.{
  File, BlobRow, Blobs, Store, row_at, exists, get, touch, removed,
}
use remarkable_server.Storage.Tree.{
  Decoders, hashes, index_entries, lenient_children, add_tree, commit_root,
}

-- `children`
unfoldable pub children_of :
    Decoders → Bytes → Option (List IndexEntry) → Store → Result ServerError (List Bytes)
unfolding get lenient_children
children_of d hash (some es) st = ok (hashes es)
children_of d hash none st = get hash st >>= λ bytes. ok (lenient_children d bytes)

unfoldable pub children : Decoders → Bytes → Store → Result ServerError (List Bytes)
unfolding children_of index_entries
children d hash st = children_of d hash (index_entries hash st) st

unfoldable pub not_stored : List Bytes → Store → List Bytes
unfolding exists
not_stored [] st = []
not_stored (f ∷ fs) st = let rest = not_stored fs st in if exists f st then rest else f ∷ rest

unfoldable pub missing_docs : Decoders → List Bytes → Store → Result ServerError (List Bytes)
unfolding exists children not_stored
missing_docs d [] st = ok []
missing_docs d (doc ∷ docs) st =
    (if exists doc st then (children d doc st >>= λ fs. ok (not_stored fs st)) else ok (doc ∷ []))
    >>= λ here. (missing_docs d docs st >>= λ rest. ok (here ++ rest))

-- `missing_from_root`
unfoldable pub missing_from_root : Decoders → Store → Result ServerError (List Bytes)
unfolding exists children missing_docs
missing_from_root d st =
    if is_empty st.disk.row.hash
    then ok []
    else if not (exists st.disk.row.hash st)
    then ok (st.disk.row.hash ∷ [])
    else (children d st.disk.row.hash st >>= λ docs. missing_docs d docs st)

unfoldable pub then_previous :
    Decoders
    → Bytes
    → Result ServerError (List Bytes) × Store
    → Result ServerError (List Bytes) × Store
unfolding add_tree
then_previous d previous (ok live, st) = add_tree d previous false live st
then_previous d previous (err e, st) = (err e, st)

-- The trees of the current root, strictly, and of the previous one.
unfoldable pub both_trees :
    Decoders → Bytes → Bytes → List Bytes → Store → Result ServerError (List Bytes) × Store
unfolding add_tree then_previous
both_trees d root previous live st = then_previous d previous (add_tree d root true live st)

unfoldable pub holds_or_unreadable : Bytes → Result ServerError (List Bytes) → Bool
holds_or_unreadable hash (ok live) = contains_bytes hash live
holds_or_unreadable hash (err e) = true

-- `is_referenced`
unfoldable pub is_referenced : Decoders → Bytes → Store → Bool
unfolding both_trees holds_or_unreadable
is_referenced d hash st =
    holds_or_unreadable hash (both_trees d st.disk.row.hash st.disk.row.previous_hash [] st).0

-- Seconds of the epoch, `none` before it.
unfoldable pub cutoff_of : ℕ → ℕ → Option ℕ
cutoff_of now grace = if leb grace now then some (now - grace) else none

unfoldable pub is_after : Option ℕ → ℕ → Bool
is_after none time = true
is_after (some cutoff) time = ltb cutoff time

unfoldable pub insert_hash : Bytes → List Bytes → List Bytes
insert_hash h [] = h ∷ []
insert_hash h (k ∷ ks) =
    let rest = insert_hash h ks in if bytes_lt k h then k ∷ rest else h ∷ k ∷ ks

-- The rows that are old enough and not live, `ORDER BY hash`.
unfoldable pub candidates_of : Option ℕ → List Bytes → Blobs → List Bytes
unfolding is_after insert_hash
candidates_of cutoff live [] = []
candidates_of cutoff live ((hash, row) ∷ blobs) =
    let rest = candidates_of cutoff live blobs in
    if not (is_after cutoff row.updated_at) && not (contains_bytes hash live)
    then insert_hash hash rest
    else rest

pub record GcPlan : Type 0 where
  pub root_hash : Bytes
  pub generation : ℕ
  pub previous_hash : Bytes
  pub grace_secs : ℕ
  pub cutoff : Option ℕ
  pub candidates : List Bytes

unfoldable pub planned : ℕ → ℕ → Store → Result ServerError (List Bytes) → Result ServerError GcPlan
unfolding cutoff_of candidates_of
planned now grace st (err e) = err e
planned now grace st (ok live) = ok (record {
  root_hash = st.disk.row.hash;
  generation = st.disk.row.generation;
  previous_hash = st.disk.row.previous_hash;
  grace_secs = grace;
  cutoff = cutoff_of now grace;
  candidates = candidates_of (cutoff_of now grace) live st.blobs;
})

-- `gc_plan`, and the store with the indexes it has parsed.
unfoldable pub gc_plan : Decoders → ℕ → ℕ → Store → Result ServerError GcPlan × Store
unfolding planned both_trees
gc_plan d now grace st =
    let walked = both_trees d st.disk.row.hash st.disk.row.previous_hash st.versions st in
    (planned now grace st walked.0, walked.1)

pub record GcReport : Type 0 where
  pub dry_run : Bool
  pub grace_secs : ℕ
  pub generation : ℕ
  pub candidates : ℕ
  pub deleted : ℕ
  pub bytes : ℕ
  pub skipped : ℕ
  pub aborted : Option ℕ
  pub hashes : List Bytes

unfoldable pub initial_report : GcPlan → Bool → GcReport
initial_report plan dry_run = record {
  dry_run = dry_run;
  grace_secs = plan.grace_secs;
  generation = plan.generation;
  candidates = length plan.candidates;
  deleted = 0;
  bytes = 0;
  skipped = 0;
  aborted = none;
  hashes = [];
}

unfoldable pub size_of : Option BlobRow → ℕ
size_of none = 0
size_of (some row) = row.size

unfoldable pub sizes : List Bytes → Blobs → ℕ
unfolding size_of row_at
sizes [] blobs = 0
sizes (h ∷ hs) blobs = size_of (row_at h blobs) + sizes hs blobs

abbrev pub Swept : Type 0
Swept = GcReport × Store

unfoldable pub skip : Swept → Swept
skip (rep, st) = (record rep { skipped = rep.skipped + 1 }, st)

unfoldable pub remove_blob : Bytes → ℕ → Swept → Swept
unfolding removed
remove_blob hash size (rep, st) = (
  record rep {
    deleted = rep.deleted + 1;
    bytes = rep.bytes + size;
    hashes = rep.hashes ++ (hash ∷ []);
  },
  removed hash st,
)

unfoldable pub is_modified_after : Option ℕ → Option File → Bool
unfolding is_after
is_modified_after cutoff none = false
is_modified_after cutoff (some file) = is_after cutoff file.modified

-- Whether the file can be removed, or is not there.
unfoldable pub gone_or : (Bytes → Bool) → Bytes → Option File → Bool
gone_or removable hash none = true
gone_or removable hash (some file) = removable hash

unfoldable pub by_row : GcPlan → (Bytes → Bool) → Bytes → Option BlobRow → Swept → Swept
unfolding skip remove_blob is_after is_modified_after gone_or
by_row plan removable hash none s = skip s
by_row plan removable hash (some row) s =
    if is_after plan.cutoff row.updated_at || is_modified_after plan.cutoff (s.1.files hash)
    then skip s
    else if gone_or removable hash (s.1.files hash)
    then remove_blob hash row.size s
    else skip s

-- One candidate of a batch, with the root row and the version history that the batch has read.
unfoldable pub sweep_one : GcPlan → (Bytes → Bool) → RootRow → List Bytes → Bytes → Swept → Swept
unfolding by_row row_at skip
sweep_one plan removable root versions hash s =
    if bytes_eq hash root.hash || (bytes_eq hash root.previous_hash || contains_bytes hash versions)
    then skip s
    else by_row plan removable hash (row_at hash s.1.blobs) s

unfoldable pub sweep : GcPlan → (Bytes → Bool) → RootRow → List Bytes → List Bytes → Swept → Swept
unfolding sweep_one
sweep plan removable root versions [] s = s
sweep plan removable root versions (h ∷ hs) s =
    sweep plan removable root versions hs (sweep_one plan removable root versions h s)

-- What others do while garbage is collected: they commit roots, mark blobs as used, and record
-- versions. Writes of blobs wait for the end of it.
pub data Act : Type 0 where
  commits : Write → Act
  touches : ℕ → List Bytes → Act
  records_version : Bytes → Act

unfoldable pub store_or : Store → Result ServerError (SyncRoot × Store) → Store
store_or st (ok r) = r.1
store_or st (err e) = st

unfoldable pub act : Decoders → Act → Store → Store
unfolding store_or commit_root touch
act d (commits w) st = store_or st (commit_root d w.written w.hash w.expected st)
act d (touches now hs) st = touch now hs st
act d (records_version h) st = record st { versions = h ∷ st.versions }

unfoldable pub act_all : Decoders → List Act → Store → Store
unfolding act
act_all d [] st = st
act_all d (a ∷ as') st = act_all d as' (act d a st)

unfoldable pub is_planned_root : GcPlan → RootRow → Bool
is_planned_root plan row =
    row.generation == plan.generation
    && (bytes_eq row.hash plan.root_hash && bytes_eq row.previous_hash plan.previous_hash)

-- `chunks(GC_BATCH)`, of so many items at most.
abbrev pub gc_batch : ℕ
gc_batch = 256

unfoldable pub chunks : ℕ → List Bytes → List (List Bytes)
chunks zero hs = []
chunks (suc n) [] = []
chunks (suc n) (h ∷ hs) = take gc_batch (h ∷ hs) ∷ chunks n (drop gc_batch (h ∷ hs))

unfoldable pub stop : ℕ → Swept → Swept
stop generation (rep, st) = (record rep { aborted = some generation }, st)

-- The batches, each after what the others did before it; a root that moved stops them. The others'
-- acts are given by the number of batches that are left.
unfoldable pub run_batches :
    Decoders → GcPlan → (Bytes → Bool) → (ℕ → List Act) → List (List Bytes) → Swept → Swept
unfolding is_planned_root sweep act_all stop
run_batches d plan removable others [] s = s
run_batches d plan removable others (b ∷ bs) (rep, st) =
    let now = act_all d (others (length bs)) st in
    let rest =
      run_batches d plan removable others bs
        (sweep plan removable now.disk.row now.versions b (rep, now)) in
    if is_planned_root plan now.disk.row then rest else stop now.disk.row.generation (rep, now)

unfoldable pub dry : GcPlan → Store → Swept
unfolding initial_report sizes
dry plan st = (
  record (initial_report plan true) {
    bytes = sizes plan.candidates st.blobs;
    hashes = plan.candidates;
  },
  st,
)

-- `gc_execute`
unfoldable pub gc_execute :
    Decoders → GcPlan → Bool → (Bytes → Bool) → (ℕ → List Act) → Store → Result ServerError Swept
unfolding dry run_batches initial_report chunks
gc_execute d plan dry_run removable others st =
    if is_empty plan.root_hash
    then err (ServerError.internal "no current root; refusing to garbage-collect")
    else if dry_run
    then ok (dry plan st)
    else ok (
        run_batches d plan removable others (chunks (length plan.candidates) plan.candidates)
          (initial_report plan false, st))

unfoldable pub executed :
    Decoders
    → Bool
    → (Bytes → Bool)
    → (ℕ → List Act)
    → Result ServerError GcPlan × Store
    → Result ServerError Swept
unfolding gc_execute
executed d dry_run removable others (ok plan, st) = gc_execute d plan dry_run removable others st
executed d dry_run removable others (err e, st) = err e

-- `gc`
unfoldable pub gc :
    Decoders → ℕ → ℕ → Bool → (Bytes → Bool) → (ℕ → List Act) → Store → Result ServerError Swept
unfolding executed gc_plan
gc d now grace dry_run removable others st =
    executed d dry_run removable others (gc_plan d now grace st)
