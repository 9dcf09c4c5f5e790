-- ===== src/Documents/Commit.antt =====
-- src/documents.rs: new documents are added to the sync root, in the face of other clients. What
-- others do between the reading of the root and the commit is an argument: the blobs they store, and
-- then their writes of the root (what they index of it is not followed).
use remarkable_server.Base.{
  ℕ, zero, suc, if◌then◌else◌, Bool, Option, none, some, List, [], ◌∷◌, ◌++◌, is_empty, Bytes,
  codes,
}
use remarkable_server.Base.Result.{Result, ok, err, ◌>>=◌}
use remarkable_server.Errors.{ServerError}
use remarkable_server.Storage.Root.{SyncRoot, select_root}
use remarkable_server.Storage.Root.Commits.{Write, after_writes}
use remarkable_server.Storage.Blobs.{Store, get, put_with_hash}
use remarkable_server.Storage.Tree.{Decoders, commit_root}
use remarkable_server.Documents.{Entry, RootError, parse_root, render_index, sort_by_name}

-- What other code computes: the decoding of UTF-8, `into_bytes`, SHA-256 in hexadecimal, `hex::decode`.
pub record Crates : Type 0 where
  pub decoders : Decoders
  pub into_bytes : Bytes → Bytes
  pub sha256_hex : Bytes → Bytes
  pub hex_decode : Bytes → Option Bytes

pub record Upload : Type 0 where
  pub bytes : Bytes
  pub hash : Bytes
  pub filename : Bytes

-- What other clients do while an attempt runs, the clock of the attempt, and whether its mirror can
-- be written.
pub record Rival : Type 0 where
  pub uploads : List Upload
  pub writes : List Write
  pub now : ℕ
  pub written : Bool

unfoldable pub or_same : {E : Type 0} → Store → Result E Store → Store
or_same st (ok st') = st'
or_same st (err e) = st

unfoldable pub upload_all : ℕ → List Upload → Store → Store
unfolding or_same put_with_hash
upload_all now [] st = st
upload_all now (u ∷ us) st =
    upload_all now us (or_same st (put_with_hash u.bytes u.hash u.filename now st))

-- A decoded hash before those that follow it.
unfoldable pub joined : Bytes → Option Bytes → Result ServerError Bytes → Result ServerError Bytes
joined hash none rest = err (ServerError.invalid_hash hash)
joined hash (some bytes) (ok more) = ok (bytes ++ more)
joined hash (some bytes) (err x) = err x

-- The hashes of the entries, decoded and joined.
unfoldable pub decoded_hashes : Crates → List Entry → Result ServerError Bytes
unfolding joined
decoded_hashes crates [] = ok []
decoded_hashes crates (e ∷ es) = joined e.hash (crates.hex_decode e.hash) (decoded_hashes crates es)

-- `index_hash`, of entries that are sorted.
unfoldable pub index_hash : Crates → List Entry → Result ServerError Bytes
unfolding decoded_hashes
index_hash crates es = decoded_hashes crates es >>= λ bytes. ok (crates.sha256_hex bytes)

-- The refusal of a root index that is not understood.
unfoldable pub understood :
    SyncRoot → Result RootError (List Entry) → Result ServerError (SyncRoot × List Entry)
understood root (ok entries) = ok (root, entries)
understood root (err why) = err (ServerError.internal "refusing to modify root index")

-- `current_root_entries`
unfoldable pub current_root_entries : Crates → Store → Result ServerError (SyncRoot × List Entry)
unfolding select_root get understood parse_root
current_root_entries crates st =
    if is_empty st.disk.row.hash
    then ok (select_root st.disk.row, [])
    else (get st.disk.row.hash st >>= λ bytes.
        understood (select_root st.disk.row) (parse_root (crates.decoders.from_utf8 bytes)))

-- The answer and the store after it.
abbrev pub Answer : Type 0
Answer = Result ServerError ℕ × Store

unfoldable pub landed : Store → Result ServerError (SyncRoot × Store) → Answer
landed st (ok r) = (ok r.0.generation, r.1)
landed st (err e) = (err e, st)

-- A round that fails before its commit; the others' writes are made all the same.
unfoldable pub failed : Rival → ServerError → Store → Answer
failed rival e st = (err e, record st { disk = after_writes st.disk rival.writes })

-- `set_root_if(root_hash, Some(root.generation))`, after the others' writes.
unfoldable pub set_step : Decoders → Rival → Bytes → ℕ → Store → Answer
unfolding landed after_writes commit_root
set_step d rival hash generation st =
    landed (record st { disk = after_writes st.disk rival.writes })
      (commit_root d rival.written hash (some generation)
        (record st { disk = after_writes st.disk rival.writes }))

unfoldable pub put_step : Decoders → Rival → Bytes → ℕ → Store → Result ServerError Store → Answer
unfolding set_step failed
put_step d rival hash generation st (ok st') = set_step d rival hash generation st'
put_step d rival hash generation st (err e) = failed rival e st

unfoldable pub hash_step :
    Crates → Rival → List Entry → ℕ → Store → Result ServerError Bytes → Answer
unfolding put_step put_with_hash render_index failed
hash_step crates rival entries generation st (ok hash) =
    put_step crates.decoders rival hash generation st (
      put_with_hash (crates.into_bytes (render_index entries)) hash (codes "root.docSchema")
        rival.now st)
hash_step crates rival entries generation st (err e) = failed rival e st

unfoldable pub read_step :
    Crates → Rival → List Entry → Store → Result ServerError (SyncRoot × List Entry) → Answer
unfolding hash_step index_hash sort_by_name failed
read_step crates rival new st (ok (root, entries)) =
    hash_step crates rival (sort_by_name (entries ++ new)) root.generation st
      (index_hash crates (sort_by_name (entries ++ new)))
read_step crates rival new st (err e) = failed rival e st

-- One round of the loop of `commit_to_root`.
unfoldable pub attempt : Crates → Rival → List Entry → Store → Answer
unfolding read_step current_root_entries upload_all
attempt crates rival new st =
    read_step crates rival new (upload_all rival.now rival.uploads st)
      (current_root_entries crates st)

-- The loop goes on after a generation mismatch alone.
unfoldable pub retried : Answer → (Store → Answer) → Answer
retried (ok generation, st) again = (ok generation, st)
retried (err (ServerError.generation_mismatch _), st) again = again st
retried (err e, st) again = (err e, st)

-- The loop with so many rounds left, each with its rival.
unfoldable pub commit_rounds : Crates → (ℕ → Rival) → List Entry → ℕ → Store → Answer
unfolding retried attempt
commit_rounds crates rivals new zero st =
    (err (ServerError.internal "root kept changing while adding documents"), st)
commit_rounds crates rivals new (suc rounds) st =
    retried (attempt crates (rivals rounds) new st) (commit_rounds crates rivals new rounds)

abbrev pub root_retries : ℕ
root_retries = 5

-- `commit_to_root`
unfoldable pub commit_to_root : Crates → (ℕ → Rival) → List Entry → Store → Answer
unfolding commit_rounds
commit_to_root crates rivals new st = commit_rounds crates rivals new root_retries st

-- `DocumentBatch::commit`
unfoldable pub commit : Crates → (ℕ → Rival) → List Entry → Store → Answer
unfolding commit_to_root
commit crates rivals [] st = (ok st.disk.row.generation, st)
commit crates rivals (e ∷ es) st = commit_to_root crates rivals (e ∷ es) st
