-- ===== src/Storage/Gc/Touched.antt =====
-- src/storage.rs, `gc_execute`: a blob that was marked as used is kept.
use remarkable_server.Base.{
  ℕ, ◌≡◌, ◌⊎◌, inl, inr, refl, ap, ◌∙◌, sym, subst, Bool, Bool-cases, true, false, ◌||◌, Option,
  none, some, List, [], ◌∷◌, length, Bytes, bytes_eq, bytes_eq_iff, contains_bytes, All, if_intro,
  if_true, if_false, arith,
}
use remarkable_server.Base.Result.{Result, ok, err}
use remarkable_server.Errors.{ServerError}
use remarkable_server.Storage.Root.{SyncRoot, RootRow, Disk, set_root_if}
use remarkable_server.Storage.Blobs.{
  BlobRow, Blobs, Store, delete_at, row_at, touched, touch_row, touch_rows, touch, removed,
}
use remarkable_server.Storage.Tree.{Decoders, indexed, commit_root}
use remarkable_server.Storage.Tree.Coherent.{index_tree_same}
use remarkable_server.Storage.Gc.{
  is_after, GcPlan, Swept, skip, remove_blob, is_modified_after, gone_or, by_row, sweep_one, sweep,
  Act, store_or, act, act_all, is_planned_root, stop, run_batches,
}
use remarkable_server.Storage.Gc.Collects.{delete_row-other}
use remarkable_server.Storage.Gc.Kept.{act_all-files}

module _ (cutoff : Option ℕ) where
  -- A row that is there and after the cutoff.
  abbrev IsFreshRow : Option BlobRow → Type 0
  IsFreshRow none = ⊥
  IsFreshRow (some row) = is_after cutoff row.updated_at ≡ true

  -- What others mark, they mark after the cutoff.
  abbrev pub IsLate : Act → Type 0
  IsLate (Act.commits w) = Unit
  IsLate (Act.touches now hs) = is_after cutoff now ≡ true
  IsLate (Act.records_version h) = Unit

module _ (cutoff : Option ℕ) (k : Bytes) where
  -- The row of the blob is after the cutoff.
  abbrev pub IsFresh : Blobs → Type 0
  IsFresh blobs = IsFreshRow cutoff (row_at k blobs)

  cons-IsFresh :
      (key : Bytes) (row : BlobRow) (blobs : Blobs)
      → (bytes_eq key k ≡ true → is_after cutoff row.updated_at ≡ true)
      → (bytes_eq key k ≡ false → IsFresh blobs)
      → IsFresh ((key, row) ∷ blobs)
  unfolding row_at
  cons-IsFresh key row blobs h h' =
      if_intro (IsFreshRow cutoff) (bytes_eq key k) (some row) (row_at k blobs) h h'

  head-IsFresh :
      (key : Bytes) (row : BlobRow) (blobs : Blobs)
      → IsFresh ((key, row) ∷ blobs)
      → bytes_eq key k ≡ true
      → is_after cutoff row.updated_at ≡ true
  unfolding row_at
  head-IsFresh key row blobs h q =
      subst (IsFreshRow cutoff) (if_true (bytes_eq key k) (some row) (row_at k blobs) q) h

  tail-IsFresh :
      (key : Bytes) (row : BlobRow) (blobs : Blobs)
      → IsFresh ((key, row) ∷ blobs)
      → bytes_eq key k ≡ false
      → IsFresh blobs
  unfolding row_at
  tail-IsFresh key row blobs h q =
      subst (IsFreshRow cutoff) (if_false (bytes_eq key k) (some row) (row_at k blobs) q) h

  touch_row-IsFresh :
      (now : ℕ) (h : Bytes) (blobs : Blobs)
      → is_after cutoff now ≡ true
      → IsFresh blobs
      → IsFresh (touch_row now h blobs)
  unfolding touch_row touched row_at
  touch_row-IsFresh now h [] late fresh = fresh
  touch_row-IsFresh now h ((key, row) ∷ blobs) late fresh =
      let rest : bytes_eq key k ≡ false → IsFresh (touch_row now h blobs) =
        λ q. touch_row-IsFresh now h blobs late (tail-IsFresh key row blobs fresh q) in
      if_intro IsFresh (bytes_eq key h) ((key, touched now row) ∷ touch_row now h blobs)
        ((key, row) ∷ touch_row now h blobs)
        (λ b. cons-IsFresh key (touched now row) (touch_row now h blobs) (λ q. late) rest)
        (λ b. cons-IsFresh key row (touch_row now h blobs) (head-IsFresh key row blobs fresh) rest)

  touch_rows-IsFresh :
      (now : ℕ) (hs : List Bytes) (blobs : Blobs)
      → is_after cutoff now ≡ true
      → IsFresh blobs
      → IsFresh (touch_rows now hs blobs)
  unfolding touch_rows
  touch_rows-IsFresh now [] blobs late fresh = fresh
  touch_rows-IsFresh now (h ∷ hs) blobs late fresh =
      touch_rows-IsFresh now hs (touch_row now h blobs) late
        (touch_row-IsFresh now h blobs late fresh)

  act-IsFresh :
      (d : Decoders) (a : Act) (st : Store)
      → IsLate cutoff a
      → IsFresh st.blobs
      → IsFresh (act d a st).blobs
  unfolding act touch store_or commit_root indexed
  act-IsFresh d (Act.commits w) st late fresh =
      by_result (set_root_if w.written w.hash w.expected st.disk)
    where
      by_result :
          (r : Result ServerError (SyncRoot × Disk)) → IsFresh (store_or st (indexed d st r)).blobs
      by_result (ok r) =
          subst IsFresh (sym (index_tree_same d r.0.hash (record st { disk = r.1 })).1) fresh
      by_result (err e) = fresh
  act-IsFresh d (Act.touches now hs) st late fresh = touch_rows-IsFresh now hs st.blobs late fresh
  act-IsFresh d (Act.records_version h) st late fresh = fresh

  act_all-IsFresh :
      (d : Decoders) (as' : List Act) (st : Store)
      → All (IsLate cutoff) as'
      → IsFresh st.blobs
      → IsFresh (act_all d as' st).blobs
  unfolding act_all
  act_all-IsFresh d [] st late fresh = fresh
  act_all-IsFresh d (a ∷ as') st late fresh =
      act_all-IsFresh d as' (act d a st) late.1 (act-IsFresh d a st late.0 fresh)

module _ (d : Decoders) (plan : GcPlan) (removable : Bytes → Bool) (k : Bytes) where
  abbrev Stays : Store → Store → Type 0
  Stays st st' = IsFresh plan.cutoff k st'.blobs × (st'.files k ≡ st.files k)

  by_row-Stays :
      (h : Bytes) (row : Option BlobRow) (s : Swept)
      → IsFresh plan.cutoff k s.1.blobs
      → (bytes_eq h k ≡ true → IsFreshRow plan.cutoff row)
      → Stays s.1 (by_row plan removable h row s).1
  unfolding by_row skip remove_blob removed delete_at
  by_row-Stays h none (rep, st) fresh own = (fresh, refl)
  by_row-Stays h (some row) (rep, st) fresh own =
      if_intro (λ (x : Swept). Stays st x.1)
        (is_after plan.cutoff row.updated_at || is_modified_after plan.cutoff (st.files h)) _ _
        (λ b. (fresh, refl))
        (λ b.
          if_intro (λ (x : Swept). Stays st x.1) (gone_or removable h (st.files h)) _ _
            (λ b'.
              let q : bytes_eq h k ≡ false = other (Bool-cases (bytes_eq h k)) b in
              (
                subst (IsFreshRow plan.cutoff) (sym (delete_row-other h k st.blobs q)) fresh,
                if_false (bytes_eq h k) none (st.files k) q,
              ))
            (λ b'. (fresh, refl)))
    where
      other :
          (bytes_eq h k ≡ true) ⊎ (bytes_eq h k ≡ false)
          → (is_after plan.cutoff row.updated_at || is_modified_after plan.cutoff (st.files h))
            ≡ false
          → bytes_eq h k ≡ false
      other (inr q) b = q
      other (inl q) b = let f : is_after plan.cutoff row.updated_at ≡ true = own q in ground arith

  sweep-Stays :
      (root : RootRow) (versions hs : List Bytes) (s : Swept)
      → IsFresh plan.cutoff k s.1.blobs
      → Stays s.1 (sweep plan removable root versions hs s).1
  unfolding sweep sweep_one skip
  sweep-Stays root versions [] s fresh = (fresh, refl)
  sweep-Stays root versions (h ∷ hs) (rep, st) fresh =
      let next : Swept = sweep_one plan removable root versions h (rep, st) in
      let one : Stays st next.1 =
        if_intro (λ (x : Swept). Stays st x.1)
          (bytes_eq h root.hash || (bytes_eq h root.previous_hash || contains_bytes h versions)) _ _
          (λ b. (fresh, refl))
          (λ b.
            by_row-Stays h (row_at h st.blobs) (rep, st) fresh
              (λ q.
                subst (λ z. IsFreshRow plan.cutoff (row_at z st.blobs))
                  (sym ((bytes_eq_iff h k).0 q)) fresh)) in
      let rest = sweep-Stays root versions hs next one.0 in (rest.0, rest.1 ∙ one.1)

  -- A blob whose row is after the cutoff when some batches are left is kept through all of them,
  -- whatever roots and versions others add meanwhile; what they mark as used, they mark after the
  -- cutoff.
  pub run_batches_keeps_touched :
      (others : ℕ → List Act) (bs : List (List Bytes)) (s : Swept)
      → ((n : ℕ) → All (IsLate plan.cutoff) (others n))
      → IsFresh plan.cutoff k s.1.blobs
      → (run_batches d plan removable others bs s).1.files k ≡ s.1.files k
  unfolding run_batches stop
  run_batches_keeps_touched others [] s late fresh = refl
  run_batches_keeps_touched others (b ∷ bs) (rep, st) late fresh =
      let now : Store = act_all d (others (length bs)) st in
      let same : now.files k ≡ st.files k =
        ap (λ f. f k) (act_all-files d (others (length bs)) st) in
      let swept =
        sweep-Stays now.disk.row now.versions b (rep, now)
          (act_all-IsFresh plan.cutoff k d (others (length bs)) st (late (length bs)) fresh) in
      if_intro (λ (x : Swept). x.1.files k ≡ st.files k) (is_planned_root plan now.disk.row) _ _
        (λ q.
          run_batches_keeps_touched others bs
            (sweep plan removable now.disk.row now.versions b (rep, now)) late swept.0
          ∙ swept.1
          ∙ same)
        (λ q. same)
