-- ===== src/Documents/Adding.antt =====
-- src/documents.rs, `commit_to_root`: what it does to the sync root.
use remarkable_server.Base.{
  ℕ, ◌+◌, ◌^◌, ◌<◌, ◌≡◌, refl, ap, ◌∙◌, ◌==◌, true, not, some, List, [], ◌∷◌, ◌++◌, Bytes, codes,
  All, if_false, arith,
}
use remarkable_server.Base.Result.{Result, ok, err, ◌>>=◌}
use remarkable_server.Errors.{ServerError}
use remarkable_server.Storage.Root.{
  RootRow, Disk, select_root, set_root_if, is_valid_hash, differs, committed, next, mirror_after,
}
use remarkable_server.Storage.Root.Commits.{after_writes}
use remarkable_server.Storage.Blobs.{Store, stored, put_with_hash}
use remarkable_server.Storage.Tree.{index_tree, indexed, commit_root}
use remarkable_server.Documents.{Entry, render_index, sort_by_name}
use remarkable_server.Documents.ReadBack.{IsWritable}
use remarkable_server.Documents.Parsed.{IsText}
use remarkable_server.Documents.Sorted.{sort_by_name-All, All-joined}
use remarkable_server.Documents.Commit.{
  Crates, Rival, upload_all, joined, decoded_hashes, index_hash, current_root_entries, landed,
  set_step, put_step, hash_step, read_step, attempt, retried, commit_rounds, root_retries,
  commit_to_root,
}
use remarkable_server.Documents.Committed.{Adds, upload_all-disk, current-IsWritable}
use remarkable_server.Documents.Rounds.{others, total, read_by, rounds_Adds, rounds_refused}

-- No update is lost: a commit that succeeds has read, in one of its five rounds, the store that the
-- rounds before it left, whose root is as the others' writes of those rounds left it; and it leaves
-- the next generation after that root, whose root index is read back as the entries read back from
-- that store's root index and the new ones, in some order. The generations stay below 2^64, the new
-- entries can be written, and UTF-8 decoding gives characters and reads back what encoding wrote.
pub commit_to_root-Adds :
    (crates : Crates) (rivals : ℕ → Rival) (new : List Entry) (st after : Store) (generation : ℕ)
    → ((bytes text : Bytes) → crates.decoders.from_utf8 bytes ≡ some text → IsText text)
    → ((text : Bytes)
        → IsText text
        → crates.decoders.from_utf8 (crates.into_bytes text) ≡ some text)
    → All IsWritable new
    → st.disk.row.generation + total rivals root_retries + 1 < 2 ^ 64
    → commit_to_root crates rivals new st ≡ (ok generation, after)
    → (k : ℕ) × (k < root_retries)
      × ((read_by crates rivals new root_retries k st).disk
          ≡ after_writes st.disk (others rivals root_retries k))
      × Adds crates new (read_by crates rivals new root_retries k st) after generation
unfolding commit_to_root
commit_to_root-Adds crates rivals new st after generation decoded reencoded h small =
    rounds_Adds crates rivals new decoded reencoded h root_retries st after generation small

-- A commit that is refused, whatever the reason, leaves the root as the others' writes left it.
pub commit_to_root_refused :
    (crates : Crates) (rivals : ℕ → Rival) (new : List Entry) (st after : Store) (e : ServerError)
    → commit_to_root crates rivals new st ≡ (err e, after)
    → (k : ℕ) × (after.disk ≡ after_writes st.disk (others rivals root_retries k))
unfolding commit_to_root
commit_to_root_refused crates rivals new = rounds_refused crates rivals new root_retries

-- The root is where it was when it was read.
set_step_ok :
    (crates : Crates) (rival : Rival) (hash : Bytes) (st st' : Store)
    → rival.writes ≡ []
    → st'.disk ≡ st.disk
    → (after : Store) × (set_step crates.decoders rival hash st.disk.row.generation st'
        ≡ (ok (next st.disk.row.generation), after))
unfolding set_step landed commit_root indexed set_root_if differs committed select_root after_writes
set_step_ok crates rival hash st st' quiet same =
    let disk : Disk = after_writes st'.disk rival.writes in
    let stood : disk ≡ st.disk = ap (after_writes st'.disk) quiet ∙ same in
    let g : disk.row.generation ≡ st.disk.row.generation = ap (λ d. d.row.generation) stood in
    let row : RootRow = committed disk.row hash in
    let won : Disk = record {
      row = row;
      mirror = mirror_after rival.written (select_root row) disk.mirror;
    } in
    let after : Store = index_tree crates.decoders hash (record st' { disk = won }) in
    (
      after,
      ap
            (λ x.
              landed (record st' { disk = disk })
                (indexed crates.decoders (record st' { disk = disk }) x))
            (if_false (not (st.disk.row.generation == disk.row.generation)) _ _ (ground arith))
          ∙ ap {A = ℕ} (λ n. (ok (next n), after)) g,
    )

module _ (crates : Crates)
    (decodes : (hash : Bytes)
      → is_valid_hash hash ≡ true
      → (bytes : Bytes) × (crates.hex_decode hash ≡ some bytes)) where
  decoded_hashes_ok :
      (es : List Entry)
      → All IsWritable es
      → (bytes : Bytes) × (decoded_hashes crates es ≡ ok bytes)
  unfolding decoded_hashes joined
  decoded_hashes_ok [] h = ([], refl)
  decoded_hashes_ok (e ∷ es) h =
      let here = decodes e.hash h.0.0 in
      let rest = decoded_hashes_ok es h.1 in
      (
        here.0 ++ rest.0,
        ap (λ o. joined e.hash o (decoded_hashes crates es)) here.1
            ∙ ap (joined e.hash (some here.0)) rest.1,
      )

  -- The answer to a round that nobody disturbs.
  attempt_ok :
      (rival : Rival) (new old : List Entry) (st : Store)
      → ((bytes : Bytes) → is_valid_hash (crates.sha256_hex bytes) ≡ true)
      → All IsWritable new
      → All IsWritable old
      → rival.writes ≡ []
      → current_root_entries crates st ≡ ok (select_root st.disk.row, old)
      → (after : Store) × (attempt crates rival new st ≡ (ok (next st.disk.row.generation), after))
  unfolding attempt read_step hash_step index_hash put_with_hash
  attempt_ok rival new old st sums h h' quiet c =
      let entries : List Entry = sort_by_name (old ++ new) in
      let generation : ℕ = st.disk.row.generation in
      let shared : Store = upload_all rival.now rival.uploads st in
      let bytes =
        decoded_hashes_ok entries
          (sort_by_name-All IsWritable (old ++ new) (All-joined IsWritable old new h' h)) in
      let hash : Bytes = crates.sha256_hex bytes.0 in
      let st' : Store =
        stored (crates.into_bytes (render_index entries)) hash (codes "root.docSchema") rival.now
          shared in
      let set =
        set_step_ok crates rival hash st st' quiet (upload_all-disk rival.now rival.uploads st) in
      (
        set.0,
        ap (read_step crates rival new shared) c
            ∙ ap {A = Result ServerError Bytes}
                (λ r.
                  hash_step crates rival entries generation shared
                    (r >>= λ b. ok (crates.sha256_hex b)))
                bytes.1
            ∙ ap (put_step crates.decoders rival hash generation shared)
                (if_false (not (is_valid_hash hash)) _ _ (ground (arith, sums bytes.0)))
            ∙ set.1,
      )

-- A commit that nobody disturbs in its first round succeeds and is answered with the next
-- generation: the root index is understood, the new entries can be written, a SHA-256 is a valid
-- hash, and valid hashes can be decoded.
pub undisturbed_commit :
    (crates : Crates) (rivals : ℕ → Rival) (new old : List Entry) (st : Store)
    → ((bytes text : Bytes) → crates.decoders.from_utf8 bytes ≡ some text → IsText text)
    → ((text : Bytes)
        → IsText text
        → crates.decoders.from_utf8 (crates.into_bytes text) ≡ some text)
    → ((hash : Bytes)
        → is_valid_hash hash ≡ true
        → (bytes : Bytes) × (crates.hex_decode hash ≡ some bytes))
    → ((bytes : Bytes) → is_valid_hash (crates.sha256_hex bytes) ≡ true)
    → All IsWritable new
    → (rivals 4).writes ≡ []
    → current_root_entries crates st ≡ ok (select_root st.disk.row, old)
    → (after : Store) × (commit_to_root crates rivals new st
        ≡ (ok (next st.disk.row.generation), after))
unfolding commit_to_root commit_rounds retried
undisturbed_commit crates rivals new old st decoded reencoded decodes sums h quiet c =
    let read = current-IsWritable crates decoded reencoded st (select_root st.disk.row) old c in
    let first = attempt_ok crates decodes (rivals 4) new old st sums h read.0 quiet c in
    (first.0, ap (λ a. retried a (commit_rounds crates rivals new 4)) first.1)
