-- ===== src/Documents/Committed.antt =====
-- src/documents.rs, `commit_to_root`: what a commit that succeeds leaves.
use remarkable_server.Base.{
  ℕ, ◌+◌, ◌^◌, ◌<◌, ◌≡◌, refl, ap, ◌∙◌, sym, subst, true, false, not, Option, none, some, List, [],
  ◌∷◌, ◌++◌, is_empty, length, Bytes, bytes_eq, bytes_eq_refl, codes, All, if_intro, if_true,
  if_false, arith,
}
use remarkable_server.Base.Result.{Result, ok, err, ◌>>=◌}
use remarkable_server.Errors.{ServerError}
use remarkable_server.Storage.Root.{
  SyncRoot, RootRow, Disk, select_root, set_root_if, is_valid_hash, differs, committed, next,
  mirror_after,
}
use remarkable_server.Storage.Root.Commits.{after_writes, next_small}
use remarkable_server.Storage.Root.Moved.{after_writes_still}
use remarkable_server.Storage.Blobs.{Store, get, read, put_at, stored, put_with_hash}
use remarkable_server.Storage.Tree.{index_tree, indexed, commit_root}
use remarkable_server.Storage.Tree.Coherent.{index_tree_same}
use remarkable_server.Documents.{Entry, RootError, parse_root, render_index, sort_by_name}
use remarkable_server.Documents.ReadBack.{IsWritable, parse_root-render_index, render_index-All}
use remarkable_server.Documents.Parsed.{IsText, parse_root-IsWritable}
use remarkable_server.Documents.Sorted.{
  IsShuffle, sort_by_name-IsShuffle, sort_by_name-All, All-joined,
}
use remarkable_server.Documents.Commit.{
  Crates, Upload, Rival, or_same, upload_all, index_hash, understood, current_root_entries, landed,
  failed, set_step, put_step, hash_step, read_step, attempt,
}

-- The store before holds a root whose entries are `old`; the one after holds the next root, of the
-- old entries and the new ones in some order.
abbrev pub Adds : Crates → List Entry → Store → Store → ℕ → Type 0
Adds crates new before after generation =
    (old : List Entry) × (entries : List Entry) × (current_root_entries crates before
      ≡ ok (select_root before.disk.row, old))
    × (current_root_entries crates after ≡ ok (select_root after.disk.row, entries))
    × IsShuffle entries (old ++ new)
    × (after.disk.row.previous_hash ≡ before.disk.row.hash)
    × (after.disk.row.generation ≡ before.disk.row.generation + 1)
    × (generation ≡ after.disk.row.generation)

pub upload_all-disk :
    (now : ℕ) (us : List Upload) (st : Store) → (upload_all now us st).disk ≡ st.disk
unfolding upload_all or_same put_with_hash stored
upload_all-disk now [] st = refl
upload_all-disk now (u ∷ us) st =
    upload_all-disk now us (or_same st (put_with_hash u.bytes u.hash u.filename now st))
    ∙ if_intro (λ (x : Result ServerError Store). (or_same st x).disk ≡ st.disk)
        (not (is_valid_hash u.hash)) _ _ (λ q. refl) (λ q. refl)

module _ (crates : Crates)
    (decoded : (bytes text : Bytes) → crates.decoders.from_utf8 bytes ≡ some text → IsText text)
    (reencoded : (text : Bytes)
      → IsText text
      → crates.decoders.from_utf8 (crates.into_bytes text) ≡ some text) where
  understood-IsWritable :
      (root root' : SyncRoot) (bytes : Bytes) (t : Option Bytes) (es : List Entry)
      → crates.decoders.from_utf8 bytes ≡ t
      → understood root (parse_root t) ≡ ok (root', es)
      → All IsWritable es × (root' ≡ root)
  unfolding understood parse_root
  understood-IsWritable root root' bytes none es e q = cc
  understood-IsWritable root root' bytes (some text) es e q =
      by_result (parse_root (some text)) refl q
    where
      by_result :
          (r : Result RootError (List Entry))
          → parse_root (some text) ≡ r
          → understood root r ≡ ok (root', es)
          → All IsWritable es × (root' ≡ root)
      by_result (ok es') e' q' =
          let same : es' ≡ es = cc in
          (parse_root-IsWritable text es (decoded bytes text e) (e' ∙ ap ok same), cc)
      by_result (err x) e' q' = cc

  pub current-IsWritable :
      (st : Store) (root : SyncRoot) (es : List Entry)
      → current_root_entries crates st ≡ ok (root, es)
      → All IsWritable es × (root ≡ select_root st.disk.row)
  unfolding current_root_entries get
  current-IsWritable st root es q =
      if_intro (λ x. x ≡ ok (root, es) → All IsWritable es × (root ≡ select_root st.disk.row))
        (is_empty st.disk.row.hash) _ _
        (λ d q'. let e : [] ≡ es = cc in (subst (All IsWritable) e tt, cc))
        (λ d. by_bytes (get st.disk.row.hash st)) q
    where
      by_bytes :
          (r : Result ServerError Bytes)
          → (r >>= λ bytes.
              understood (select_root st.disk.row) (parse_root (crates.decoders.from_utf8 bytes)))
            ≡ ok (root, es)
          → All IsWritable es × (root ≡ select_root st.disk.row)
      by_bytes (ok bytes) q' =
          understood-IsWritable (select_root st.disk.row) root bytes
            (crates.decoders.from_utf8 bytes) es refl q'
      by_bytes (err e) q' = cc

  -- A root index that is stored under its hash is read back.
  reads_back :
      (hash : Bytes) (now : ℕ) (es : List Entry) (after : Store)
      → All IsWritable es
      → is_valid_hash hash ≡ true
      → after.files hash
        ≡ some (record { bytes = crates.into_bytes (render_index es); modified = now })
      → after.disk.row.hash ≡ hash
      → current_root_entries crates after ≡ ok (select_root after.disk.row, es)
  unfolding current_root_entries get read understood is_valid_hash
  reads_back hash now es after w v f h =
      let r : SyncRoot = select_root after.disk.row in
      let found : get after.disk.row.hash after ≡ ok (crates.into_bytes (render_index es)) =
        ap (λ z. get z after) h
        ∙ if_false (not (is_valid_hash hash)) _ _ (ground (arith, v))
        ∙ ap (read hash) f in
      if_false (is_empty after.disk.row.hash) _ _ (ap is_empty h ∙ valid_some hash v)
      ∙ ap {A = Result ServerError Bytes}
          (λ x. x >>= λ bytes. understood r (parse_root (crates.decoders.from_utf8 bytes))) found
      ∙ ap (λ t. understood r (parse_root t)) (reencoded (render_index es) (render_index-All es w))
      ∙ ap (understood r) (parse_root-render_index es w)
    where
      valid_some : (hash : Bytes) → is_valid_hash hash ≡ true → is_empty hash ≡ false
      valid_some [] v = cc
      valid_some (c ∷ hash) v = refl

  -- The commit of the new root, over a row that stands as it was read.
  set_step-Adds :
      (rival : Rival) (hash : Bytes) (new old entries : List Entry) (before st after : Store)
      (generation : ℕ)
      → All IsWritable entries
      → IsShuffle entries (old ++ new)
      → current_root_entries crates before ≡ ok (select_root before.disk.row, old)
      → is_valid_hash hash ≡ true
      → st.files hash
        ≡ some (record { bytes = crates.into_bytes (render_index entries); modified = rival.now })
      → st.disk ≡ before.disk
      → before.disk.row.generation + length rival.writes + 1 < 2 ^ 64
      → set_step crates.decoders rival hash before.disk.row.generation st ≡ (ok generation, after)
      → Adds crates new before after generation
  unfolding set_step landed commit_root indexed set_root_if differs select_root committed
  set_step-Adds rival hash new old entries before st after generation w p c v f d small q =
      let disk : Disk = after_writes st.disk rival.writes in
      let row : RootRow = committed disk.row hash in
      let won : Disk = record {
        row = row;
        mirror = mirror_after rival.written (select_root row) disk.mirror;
      } in
      if_intro
        (λ x.
          landed (record st { disk = disk }) (indexed crates.decoders (record st { disk = disk }) x)
            ≡ (ok generation, after)
          → Adds crates new before after generation)
        (differs (some before.disk.row.generation) disk.row.generation) _ _ (λ b q'. cc)
        (λ b q'.
          let still : disk.row ≡ before.disk.row = still_row b in
          let small' : before.disk.row.generation + 1 < 2 ^ 64 = omega arith in
          let up : row.generation ≡ before.disk.row.generation + 1 =
            ap (λ z. next z.generation) still ∙ next_small before.disk.row.generation small' in
          let walked : Store = index_tree crates.decoders hash (record st { disk = won }) in
          let only = index_tree_same crates.decoders hash (record st { disk = won }) in
          let there : walked.disk.row ≡ row = ap (λ z. z.row) only.2 in
          let a : walked ≡ after = ap (λ z. z.1) q' in
          let g : row.generation ≡ generation = cc in
          subst (λ z. Adds crates new before z generation) a
            (
              old,
              entries,
              c,
              reads_back hash rival.now entries walked w v (ap (λ m. m hash) only.0 ∙ f)
                  (ap (λ z. z.hash) there),
              p,
              ap (λ z. z.previous_hash) there ∙ ap (λ z. z.hash) still,
              ap (λ z. z.generation) there ∙ up,
              sym g ∙ sym (ap (λ z. z.generation) there),
            ))
        q
    where
      still_row :
          differs
              (some before.disk.row.generation)
              (after_writes st.disk rival.writes).row.generation
            ≡ false
          → (after_writes st.disk rival.writes).row ≡ before.disk.row
      still_row b =
          subst
            (λ z.
              differs (some before.disk.row.generation) (after_writes z rival.writes).row.generation
                ≡ false
              → (after_writes z rival.writes).row ≡ before.disk.row)
            (sym d) (after_writes_still before.disk rival.writes (omega arith)) b

  module _ (rival : Rival) (new : List Entry) (before after : Store) (generation : ℕ)
      (h : All IsWritable new)
      (small : before.disk.row.generation + length rival.writes + 1 < 2 ^ 64) where
    shared : Store
    shared = upload_all rival.now rival.uploads before

    hash_step-Adds :
        (old entries : List Entry) (r : Result ServerError Bytes)
        → All IsWritable entries
        → IsShuffle entries (old ++ new)
        → current_root_entries crates before ≡ ok (select_root before.disk.row, old)
        → hash_step crates rival entries before.disk.row.generation shared r
          ≡ (ok generation, after)
        → Adds crates new before after generation
    unfolding hash_step put_step failed put_with_hash shared stored put_at
    hash_step-Adds old entries (err e) w p c q = cc
    hash_step-Adds old entries (ok hash) w p c q =
        if_intro
          (λ x.
            put_step crates.decoders rival hash before.disk.row.generation shared x
              ≡ (ok generation, after)
            → Adds crates new before after generation)
          (not (is_valid_hash hash)) _ _ (λ b q'. cc)
          (λ b.
            set_step-Adds rival hash new old entries before
              (stored (crates.into_bytes (render_index entries)) hash (codes "root.docSchema")
                rival.now shared)
              after generation w p c (ground arith)
              (if_true (bytes_eq hash hash) _ _ (bytes_eq_refl hash))
              (upload_all-disk rival.now rival.uploads before) small)
          q

    read_step-Adds :
        (x : Result ServerError (SyncRoot × List Entry))
        → current_root_entries crates before ≡ x
        → read_step crates rival new shared x ≡ (ok generation, after)
        → Adds crates new before after generation
    unfolding read_step failed
    read_step-Adds (err e) c q = cc
    read_step-Adds (ok (root, old)) c q =
        let r = current-IsWritable before root old c in
        let entries : List Entry = sort_by_name (old ++ new) in
        hash_step-Adds old entries (index_hash crates entries)
          (sort_by_name-All IsWritable (old ++ new) (All-joined IsWritable old new r.0 h))
          (sort_by_name-IsShuffle (old ++ new)) (c ∙ ap (λ z. ok (z, old)) r.1)
          (ap (λ z. hash_step crates rival entries z.generation shared (index_hash crates entries))
              (sym r.1)
            ∙ q)

    pub attempt-Adds :
        attempt crates rival new before ≡ (ok generation, after)
        → Adds crates new before after generation
    unfolding attempt shared
    attempt-Adds = read_step-Adds (current_root_entries crates before) refl
