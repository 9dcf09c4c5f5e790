-- ===== src/Storage/Gc/Kept.antt =====
-- src/storage.rs, `gc_execute`: the blobs that garbage collection keeps.
use remarkable_server.Base.{
  ℕ, zero, suc, ◌≡◌, ◌⊎◌, inl, inr, refl, ap, ◌∙◌, sym, subst, Bool, Bool-cases, true, false, not,
  ◌&&◌, ◌||◌, Option, none, some, List, [], ◌∷◌, take, drop, is_empty, length, Bytes, bytes_eq,
  bytes_eq_iff, bytes_lt, contains_bytes, All, if_intro, if_false, arith,
}
use remarkable_server.Base.Result.{Result, ok, err}
use remarkable_server.Errors.{ServerError}
use remarkable_server.Storage.Root.{SyncRoot, RootRow, Disk, set_root_if}
use remarkable_server.Storage.Blobs.{File, BlobRow, Blobs, Store, delete_at, row_at, touch, removed}
use remarkable_server.Storage.Tree.{Decoders, indexed, commit_root}
use remarkable_server.Storage.Tree.Coherent.{index_tree_same}
use remarkable_server.Storage.Gc.{
  store_or, is_after, insert_hash, candidates_of, GcPlan, initial_report, Swept, skip, remove_blob,
  is_modified_after, gone_or, by_row, sweep_one, sweep, Act, act, act_all, is_planned_root, chunks,
  gc_batch, stop, run_batches, dry, gc_execute,
}

-- The hash is not in the list.
abbrev pub Avoids : Bytes → List Bytes → Type 0
Avoids k hs = All (λ h. bytes_eq h k ≡ false) hs

act-files : (d : Decoders) (a : Act) (st : Store) → (act d a st).files ≡ st.files
unfolding act touch store_or commit_root indexed
act-files d (Act.commits w) st = by_result (set_root_if w.written w.hash w.expected st.disk)
  where
    by_result :
        (r : Result ServerError (SyncRoot × Disk)) → (store_or st (indexed d st r)).files ≡ st.files
    by_result (ok r) = (index_tree_same d r.0.hash (record st { disk = r.1 })).0
    by_result (err e) = refl
act-files d (Act.touches now hs) st = refl
act-files d (Act.records_version h) st = refl

pub act_all-files :
    (d : Decoders) (as' : List Act) (st : Store) → (act_all d as' st).files ≡ st.files
unfolding act_all
act_all-files d [] st = refl
act_all-files d (a ∷ as') st = act_all-files d as' (act d a st) ∙ act-files d a st

module _ (d : Decoders) (plan : GcPlan) (removable : Bytes → Bool) (k : Bytes) where
  -- The blob `k`, of this file, is not to be removed by a batch.
  abbrev Safe : Option File → List Bytes → Type 0
  Safe file hs = Avoids k hs ⊎ (is_modified_after plan.cutoff file ≡ true)

  by_row_keeps :
      (h : Bytes) (row : Option BlobRow) (s : Swept)
      → (bytes_eq h k ≡ false) ⊎ (is_modified_after plan.cutoff (s.1.files k) ≡ true)
      → (by_row plan removable h row s).1.files k ≡ s.1.files k
  unfolding by_row skip remove_blob removed delete_at
  by_row_keeps h none (rep, st) safe = refl
  by_row_keeps h (some row) (rep, st) safe =
      if_intro (λ (x : Swept). x.1.files k ≡ st.files k)
        (is_after plan.cutoff row.updated_at || is_modified_after plan.cutoff (st.files h)) _ _
        (λ b. refl)
        (λ b.
          if_intro (λ (x : Swept). x.1.files k ≡ st.files k) (gone_or removable h (st.files h)) _ _
            (λ b'. if_false (bytes_eq h k) _ _ (other safe b)) (λ b'. refl))
    where
      other :
          (bytes_eq h k ≡ false) ⊎ (is_modified_after plan.cutoff (st.files k) ≡ true)
          → (is_after plan.cutoff row.updated_at || is_modified_after plan.cutoff (st.files h))
            ≡ false
          → bytes_eq h k ≡ false
      other (inl e) b = e
      other (inr e) b = elim (Bool-cases (bytes_eq h k)) [
        | inl q ↦
            let m : is_modified_after plan.cutoff (st.files h) ≡ true =
              ap (λ z. is_modified_after plan.cutoff (st.files z)) ((bytes_eq_iff h k).0 q) ∙ e in
            ground arith
        | inr q ↦ q
      ]

  sweep_one_keeps :
      (root : RootRow) (versions : List Bytes) (h : Bytes) (s : Swept)
      → (bytes_eq h k ≡ false) ⊎ (is_modified_after plan.cutoff (s.1.files k) ≡ true)
      → (sweep_one plan removable root versions h s).1.files k ≡ s.1.files k
  unfolding sweep_one skip
  sweep_one_keeps root versions h (rep, st) safe =
      if_intro (λ (x : Swept). x.1.files k ≡ st.files k)
        (bytes_eq h root.hash || (bytes_eq h root.previous_hash || contains_bytes h versions)) _ _
        (λ b. refl) (λ b. by_row_keeps h (row_at h st.blobs) (rep, st) safe)

  sweep_keeps :
      (root : RootRow) (versions hs : List Bytes) (s : Swept)
      → Safe (s.1.files k) hs
      → (sweep plan removable root versions hs s).1.files k ≡ s.1.files k
  unfolding sweep
  sweep_keeps root versions [] s safe = refl
  sweep_keeps root versions (h ∷ hs) s safe =
      let one = sweep_one_keeps root versions h s (head_safe safe) in
      sweep_keeps root versions hs (sweep_one plan removable root versions h s)
        (subst (λ f. Safe f hs) (sym one) (tail_safe safe))
      ∙ one
    where
      head_safe :
          Safe (s.1.files k) (h ∷ hs)
          → (bytes_eq h k ≡ false) ⊎ (is_modified_after plan.cutoff (s.1.files k) ≡ true)
      head_safe (inl a) = inl a.0
      head_safe (inr m) = inr m

      tail_safe : Safe (s.1.files k) (h ∷ hs) → Safe (s.1.files k) hs
      tail_safe (inl a) = inl a.1
      tail_safe (inr m) = inr m

  run_batches_keeps :
      (others : ℕ → List Act) (bs : List (List Bytes)) (s : Swept)
      → All (Avoids k) bs ⊎ (is_modified_after plan.cutoff (s.1.files k) ≡ true)
      → (run_batches d plan removable others bs s).1.files k ≡ s.1.files k
  unfolding run_batches stop
  run_batches_keeps others [] s safe = refl
  run_batches_keeps others (b ∷ bs) (rep, st) safe =
      let now : Store = act_all d (others (length bs)) st in
      let same : now.files k ≡ st.files k =
        ap (λ f. f k) (act_all-files d (others (length bs)) st) in
      let moved : (is_modified_after plan.cutoff (st.files k) ≡ true)
          → is_modified_after plan.cutoff (now.files k) ≡ true =
        λ m. ap (is_modified_after plan.cutoff) same ∙ m in
      let swept = sweep_keeps now.disk.row now.versions b (rep, now) (first_safe safe now moved) in
      if_intro (λ (x : Swept). x.1.files k ≡ st.files k) (is_planned_root plan now.disk.row) _ _
        (λ q.
          run_batches_keeps others bs (sweep plan removable now.disk.row now.versions b (rep, now))
            (rest_safe safe (sweep plan removable now.disk.row now.versions b (rep, now))
              (λ m. ap (is_modified_after plan.cutoff) swept ∙ moved m))
          ∙ swept
          ∙ same)
        (λ q. same)
    where
      first_safe :
          All (Avoids k) (b ∷ bs) ⊎ (is_modified_after plan.cutoff (st.files k) ≡ true)
          → (now : Store)
          → ((is_modified_after plan.cutoff (st.files k) ≡ true)
              → is_modified_after plan.cutoff (now.files k) ≡ true)
          → Safe (now.files k) b
      first_safe (inl a) now m = inl a.0
      first_safe (inr e) now m = inr (m e)

      rest_safe :
          All (Avoids k) (b ∷ bs) ⊎ (is_modified_after plan.cutoff (st.files k) ≡ true)
          → (s : Swept)
          → ((is_modified_after plan.cutoff (st.files k) ≡ true)
              → is_modified_after plan.cutoff (s.1.files k) ≡ true)
          → All (Avoids k) bs ⊎ (is_modified_after plan.cutoff (s.1.files k) ≡ true)
      rest_safe (inl a) s m = inl a.1
      rest_safe (inr e) s m = inr (m e)

take-Avoids : (k : Bytes) (n : ℕ) (hs : List Bytes) → Avoids k hs → Avoids k (take n hs)
take-Avoids k zero hs a = tt
take-Avoids k (suc n) [] a = tt
take-Avoids k (suc n) (h ∷ hs) a = (a.0, take-Avoids k n hs a.1)

drop-Avoids : (k : Bytes) (n : ℕ) (hs : List Bytes) → Avoids k hs → Avoids k (drop n hs)
drop-Avoids k zero hs a = a
drop-Avoids k (suc n) [] a = tt
drop-Avoids k (suc n) (h ∷ hs) a = drop-Avoids k n hs a.1

chunks-Avoids : (k : Bytes) (n : ℕ) (hs : List Bytes) → Avoids k hs → All (Avoids k) (chunks n hs)
unfolding chunks
chunks-Avoids k zero hs a = tt
chunks-Avoids k (suc n) [] a = tt
chunks-Avoids k (suc n) (h ∷ hs) a = (
  take-Avoids k gc_batch (h ∷ hs) a,
  chunks-Avoids k n (drop gc_batch (h ∷ hs)) (drop-Avoids k gc_batch (h ∷ hs) a),
)

-- A blob that is no candidate of the plan, or whose file was written after the cutoff, is kept.
pub gc_execute_keeps :
    (d : Decoders) (plan : GcPlan) (dry_run : Bool) (removable : Bytes → Bool)
    (others : ℕ → List Act) (st : Store) (k : Bytes) (swept : Swept)
    → Avoids k plan.candidates ⊎ (is_modified_after plan.cutoff (st.files k) ≡ true)
    → gc_execute d plan dry_run removable others st ≡ ok swept
    → swept.1.files k ≡ st.files k
unfolding gc_execute dry
gc_execute_keeps d plan dry_run removable others st k swept safe q =
    if_intro (λ x. x ≡ ok swept → swept.1.files k ≡ st.files k) (is_empty plan.root_hash) _ _
      (λ b q'. cc)
      (λ b.
        if_intro (λ x. x ≡ ok swept → swept.1.files k ≡ st.files k) dry_run _ _
          (λ b' q'. let s : dry plan st ≡ swept = cc in ap (λ z. z.1.files k) (sym s))
          (λ b' q'.
            let all : List (List Bytes) = chunks (length plan.candidates) plan.candidates in
            let s : run_batches d plan removable others all (initial_report plan false, st)
                ≡ swept =
              cc in
            ap (λ z. z.1.files k) (sym s)
            ∙ run_batches_keeps d plan removable k others all (initial_report plan false, st)
                (in_batches safe)))
      q
  where
    in_batches :
        Avoids k plan.candidates ⊎ (is_modified_after plan.cutoff (st.files k) ≡ true)
        → All (Avoids k) (chunks (length plan.candidates) plan.candidates)
          ⊎ (is_modified_after plan.cutoff (st.files k) ≡ true)
    in_batches (inl a) = inl (chunks-Avoids k (length plan.candidates) plan.candidates a)
    in_batches (inr m) = inr m

insert_hash-Avoids :
    (k h : Bytes) (hs : List Bytes)
    → bytes_eq h k ≡ false
    → Avoids k hs
    → Avoids k (insert_hash h hs)
unfolding insert_hash
insert_hash-Avoids k h [] e a = (e, tt)
insert_hash-Avoids k h (x ∷ xs) e a =
    if_intro (Avoids k) (bytes_lt x h) (x ∷ insert_hash h xs) (h ∷ x ∷ xs)
      (λ q. (a.0, insert_hash-Avoids k h xs e a.1)) (λ q. (e, a))

-- What is live is no candidate.
pub candidates_of-Avoids :
    (cutoff : Option ℕ) (live : List Bytes) (blobs : Blobs) (k : Bytes)
    → contains_bytes k live ≡ true
    → Avoids k (candidates_of cutoff live blobs)
unfolding candidates_of
candidates_of-Avoids cutoff live [] k l = tt
candidates_of-Avoids cutoff live ((h, row) ∷ blobs) k l =
    let rest = candidates_of-Avoids cutoff live blobs k l in
    if_intro (Avoids k) (not (is_after cutoff row.updated_at) && not (contains_bytes h live)) _ _
      (λ q.
        insert_hash-Avoids k h (candidates_of cutoff live blobs)
          (apart (Bool-cases (bytes_eq h k)) q) rest)
      (λ q. rest)
  where
    apart :
        (bytes_eq h k ≡ true) ⊎ (bytes_eq h k ≡ false)
        → (not (is_after cutoff row.updated_at) && not (contains_bytes h live)) ≡ true
        → bytes_eq h k ≡ false
    apart (inr e) q = e
    apart (inl e) q =
        let l' : contains_bytes h live ≡ true =
          ap (λ z. contains_bytes z live) ((bytes_eq_iff h k).0 e) ∙ l in
        ground arith
