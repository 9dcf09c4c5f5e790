-- ===== src/Storage/Gc/Collects.antt =====
-- src/storage.rs, `gc_execute`: a collection that nobody disturbs removes what is due.
use remarkable_server.Base.{
  ℕ, zero, suc, ◌-◌, ◌≤◌, ◌≡◌, ◌⊎◌, inl, inr, refl, ap, ◌∙◌, sym, if◌then◌else◌, Bool, Bool-cases,
  true, false, ◌||◌, Option, none, some, List, [], ◌∷◌, take, drop, length, length-drop, is_empty,
  Bytes, bytes_eq, bytes_eq_iff, bytes_eq_refl, contains_bytes, if_intro, if_true, if_false, arith,
}
use remarkable_server.Base.Result.{ok}
use remarkable_server.Storage.Root.{RootRow}
use remarkable_server.Storage.Blobs.{
  File, BlobRow, Blobs, Store, delete_at, row_at, delete_row, removed,
}
use remarkable_server.Storage.Tree.{Decoders}
use remarkable_server.Storage.Gc.{
  is_after, GcPlan, initial_report, Swept, skip, remove_blob, is_modified_after, gone_or, by_row,
  sweep_one, sweep, Act, act_all, is_planned_root, chunks, gc_batch, stop, run_batches, gc_execute,
}

pub delete_row-other :
    (h k : Bytes) (blobs : Blobs)
    → bytes_eq h k ≡ false
    → row_at k (delete_row h blobs) ≡ row_at k blobs
unfolding row_at delete_row
delete_row-other h k [] e = refl
delete_row-other h k ((key, row) ∷ blobs) e =
    let rest = delete_row-other h k blobs e in
    if_intro (λ z. row_at k z ≡ (if bytes_eq key k then some row else row_at k blobs))
      (bytes_eq key h) (delete_row h blobs) ((key, row) ∷ delete_row h blobs)
      (λ q.
        rest
        ∙ sym (
            if_false (bytes_eq key k) (some row) (row_at k blobs)
              (ap (λ z. bytes_eq z k) ((bytes_eq_iff key h).0 q) ∙ e)))
      (λ q. ap (λ z. if bytes_eq key k then some row else z) rest)

-- Every file can be removed, and nobody does anything meanwhile.
abbrev pub everything : Bytes → Bool
everything h = true

abbrev pub nobody : ℕ → List Act
nobody left = []

module _ (plan : GcPlan) (k : Bytes) where
  -- The blob has a row and is past its grace.
  abbrev pub IsDue : Store → Type 0
  IsDue st =
      (row : BlobRow) × (row_at k st.blobs ≡ some row)
      × (is_after plan.cutoff row.updated_at ≡ false)
      × (is_modified_after plan.cutoff (st.files k) ≡ false)

  -- Another blob removed or skipped, or this one removed.
  abbrev Progress : Store → Store → Type 0
  Progress st st' =
      (st'.disk ≡ st.disk)
      × (st'.versions ≡ st.versions)
      × (IsDue st → IsDue st' ⊎ (st'.files k ≡ none))
      × (st.files k ≡ none → st'.files k ≡ none)

  stays : (st : Store) → Progress st st
  stays st = (refl, refl, λ d. inl d, λ e. e)

  then-Progress : (a b c : Store) → Progress a b → Progress b c → Progress a c
  then-Progress a b c p p' = (p'.0 ∙ p.0, p'.1 ∙ p.1, λ d. onward (p.2 d), λ e. p'.3 (p.3 e))
    where
      onward : IsDue b ⊎ (b.files k ≡ none) → IsDue c ⊎ (c.files k ≡ none)
      onward (inl d) = p'.2 d
      onward (inr e) = inr (p'.3 e)

  removed-Progress : (h : Bytes) (st : Store) → Progress st (removed h st)
  unfolding removed delete_at
  removed-Progress h st = (
    refl,
    refl,
    λ d. by_key d (Bool-cases (bytes_eq h k)),
    λ e. if_intro (λ z. z ≡ none) (bytes_eq h k) none (st.files k) (λ b. refl) (λ b. e),
  )
    where
      by_key :
          IsDue st
          → (bytes_eq h k ≡ true) ⊎ (bytes_eq h k ≡ false)
          → IsDue (removed h st) ⊎ ((removed h st).files k ≡ none)
      by_key due (inl b) = inr (if_true (bytes_eq h k) none (st.files k) b)
      by_key due (inr b) = inl (
        due.0,
        delete_row-other h k st.blobs b ∙ due.1,
        due.2,
        ap (is_modified_after plan.cutoff) (if_false (bytes_eq h k) none (st.files k) b) ∙ due.3,
      )

  by_row-Progress :
      (h : Bytes) (row : Option BlobRow) (s : Swept)
      → Progress s.1 (by_row plan everything h row s).1
  unfolding by_row skip remove_blob
  by_row-Progress h none (rep, st) = stays st
  by_row-Progress h (some row) (rep, st) =
      if_intro (λ (x : Swept). Progress st x.1)
        (is_after plan.cutoff row.updated_at || is_modified_after plan.cutoff (st.files h)) _ _
        (λ b. stays st)
        (λ b.
          if_intro (λ (x : Swept). Progress st x.1) (gone_or everything h (st.files h)) _ _
            (λ b'. removed-Progress h st) (λ b'. stays st))

  module _ (root : RootRow) (versions : List Bytes) where
    sweep_one-Progress :
        (h : Bytes) (s : Swept) → Progress s.1 (sweep_one plan everything root versions h s).1
    unfolding sweep_one skip
    sweep_one-Progress h (rep, st) =
        if_intro (λ (x : Swept). Progress st x.1)
          (bytes_eq h root.hash || (bytes_eq h root.previous_hash || contains_bytes h versions)) _ _
          (λ b. stays st) (λ b. by_row-Progress h (row_at h st.blobs) (rep, st))

    sweep_one_collects :
        (s : Swept)
        → (bytes_eq k root.hash || (bytes_eq k root.previous_hash || contains_bytes k versions))
          ≡ false
        → IsDue s.1
        → (sweep_one plan everything root versions k s).1.files k ≡ none
    unfolding sweep_one by_row remove_blob removed delete_at gone_or
    sweep_one_collects (rep, st) free due =
        ap (λ (x : Swept). x.1.files k)
          (if_false
              (bytes_eq k root.hash || (bytes_eq k root.previous_hash || contains_bytes k versions))
              _ _ free
            ∙ ap (λ o. by_row plan everything k o (rep, st)) due.1
            ∙ if_false
                (is_after plan.cutoff due.0.updated_at
                  || is_modified_after plan.cutoff (st.files k))
                _ _ (ground (arith, due.2, due.3))
            ∙ if_true (gone_or everything k (st.files k)) _ _ (always (st.files k)))
        ∙ if_true (bytes_eq k k) none (st.files k) (bytes_eq_refl k)
      where
        always : (o : Option File) → gone_or everything k o ≡ true
        always none = refl
        always (some f) = refl

    sweep-Progress :
        (hs : List Bytes) (s : Swept) → Progress s.1 (sweep plan everything root versions hs s).1
    unfolding sweep
    sweep-Progress [] s = stays s.1
    sweep-Progress (h ∷ hs) s =
        let next : Swept = sweep_one plan everything root versions h s in
        then-Progress s.1 next.1 (sweep plan everything root versions hs next).1
          (sweep_one-Progress h s) (sweep-Progress hs next)

    sweep_collects :
        (hs : List Bytes) (s : Swept)
        → (bytes_eq k root.hash || (bytes_eq k root.previous_hash || contains_bytes k versions))
          ≡ false
        → contains_bytes k hs ≡ true
        → IsDue s.1
        → (sweep plan everything root versions hs s).1.files k ≡ none
    unfolding sweep
    sweep_collects [] s free c due = cc
    sweep_collects (h ∷ hs) s free c due =
        let next : Swept = sweep_one plan everything root versions h s in
        let rest = sweep-Progress hs next in
        elim (Bool-cases (bytes_eq h k)) [
          | inl q ↦
              let e : h ≡ k = (bytes_eq_iff h k).0 q in
              rest.3 (
                ap (λ z. (sweep_one plan everything root versions z s).1.files k) e
                ∙ sweep_one_collects s free due)
          | inr q ↦ elim ((sweep_one-Progress h s).2 due) [
            | inl due' ↦ sweep_collects hs next free (ground arith) due'
            | inr gone ↦ rest.3 gone
          ]
        ]

-- The hash is in one of the batches.
unfoldable in_batch : Bytes → List (List Bytes) → Bool
in_batch k [] = false
in_batch k (b ∷ bs) = contains_bytes k b || in_batch k bs

contains-split :
    (k : Bytes) (n : ℕ) (hs : List Bytes)
    → contains_bytes k hs ≡ true
    → (contains_bytes k (take n hs) || contains_bytes k (drop n hs)) ≡ true
contains-split k zero hs c = ground arith
contains-split k (suc n) [] c = cc
contains-split k (suc n) (h ∷ hs) c = elim (Bool-cases (bytes_eq h k)) [
  | inl q ↦ ground arith
  | inr q ↦
      let rest : (contains_bytes k (take n hs) || contains_bytes k (drop n hs)) ≡ true =
        contains-split k n hs (ground arith) in
      ground arith
]

or_mono : (a b c : Bool) → (b ≡ true → c ≡ true) → (a || b) ≡ true → (a || c) ≡ true
or_mono true b c f h = refl
or_mono false b c f h = f h

or_else : (a b : Bool) → a ≡ false → (a || b) ≡ true → b ≡ true
or_else true b e h = cc
or_else false b e h = h

in_batch-chunks :
    (k : Bytes) (n : ℕ) (hs : List Bytes)
    → length hs ≤ n
    → contains_bytes k hs ≡ true
    → in_batch k (chunks n hs) ≡ true
unfolding in_batch chunks
in_batch-chunks k zero [] h c = cc
in_batch-chunks k zero (x ∷ xs) h c = elim (too_long h) [ ]
  where
    too_long : length (x ∷ xs) ≤ 0 → ⊥
    too_long h' = omega arith
in_batch-chunks k (suc n) [] h c = cc
in_batch-chunks k (suc n) (x ∷ xs) h c =
    let rest_of : List Bytes = drop gc_batch (x ∷ xs) in
    let first : Bool = contains_bytes k (take gc_batch (x ∷ xs)) in
    let shorter : length rest_of ≡ length (x ∷ xs) - gc_batch = length-drop gc_batch (x ∷ xs) in
    or_mono first (contains_bytes k rest_of) (in_batch k (chunks n rest_of))
      (in_batch-chunks k n rest_of (omega arith)) (contains-split k gc_batch (x ∷ xs) c)

module _ (d : Decoders) (plan : GcPlan) (k : Bytes) where
  run_batches_gone :
      (bs : List (List Bytes)) (s : Swept)
      → s.1.files k ≡ none
      → (run_batches d plan everything nobody bs s).1.files k ≡ none
  unfolding run_batches stop act_all
  run_batches_gone [] s e = e
  run_batches_gone (b ∷ bs) (rep, st) e =
      if_intro (λ (x : Swept). x.1.files k ≡ none) (is_planned_root plan st.disk.row) _ _
        (λ q.
          run_batches_gone bs (sweep plan everything st.disk.row st.versions b (rep, st))
            ((sweep-Progress plan k st.disk.row st.versions b (rep, st)).3 e))
        (λ q. e)

  run_batches_collects :
      (bs : List (List Bytes)) (s : Swept)
      → is_planned_root plan s.1.disk.row ≡ true
      → (bytes_eq k s.1.disk.row.hash
          || (bytes_eq k s.1.disk.row.previous_hash || contains_bytes k s.1.versions))
        ≡ false
      → in_batch k bs ≡ true
      → IsDue plan k s.1
      → (run_batches d plan everything nobody bs s).1.files k ≡ none
  unfolding run_batches act_all in_batch
  run_batches_collects [] s planned free i due = cc
  run_batches_collects (b ∷ bs) (rep, st) planned free i due =
      let next : Swept = sweep plan everything st.disk.row st.versions b (rep, st) in
      let p = sweep-Progress plan k st.disk.row st.versions b (rep, st) in
      ap (λ (x : Swept). x.1.files k) (if_true (is_planned_root plan st.disk.row) _ _ planned)
      ∙ elim (Bool-cases (contains_bytes k b)) [
        | inl q ↦
            run_batches_gone bs next
              (sweep_collects plan k st.disk.row st.versions b (rep, st) free q due)
        | inr q ↦ elim (p.2 due) [
          | inl due' ↦
              run_batches_collects bs next (ap (λ z. is_planned_root plan z.row) p.0 ∙ planned)
                (ap
                    (λ z.
                      bytes_eq k z.row.hash
                      || (bytes_eq k z.row.previous_hash || contains_bytes k next.1.versions))
                    p.0
                  ∙ ap
                      (λ z.
                        bytes_eq k st.disk.row.hash
                        || (bytes_eq k st.disk.row.previous_hash || contains_bytes k z))
                      p.1
                  ∙ free)
                (or_else (contains_bytes k b) (in_batch k bs) q i) due'
          | inr gone ↦ run_batches_gone bs next gone
        ]
      ]

-- A collection that nobody disturbs, of files that can be removed, on the root that it was planned
-- for, removes every candidate past its grace that is neither the current or the previous root nor
-- in the version history.
pub gc_execute_collects :
    (d : Decoders) (plan : GcPlan) (st : Store) (swept : Swept) (k : Bytes)
    → is_planned_root plan st.disk.row ≡ true
    → (bytes_eq k st.disk.row.hash
        || (bytes_eq k st.disk.row.previous_hash || contains_bytes k st.versions))
      ≡ false
    → contains_bytes k plan.candidates ≡ true
    → IsDue plan k st
    → gc_execute d plan false everything nobody st ≡ ok swept
    → swept.1.files k ≡ none
unfolding gc_execute
gc_execute_collects d plan st swept k planned free c due =
    if_intro (λ x. x ≡ ok swept → swept.1.files k ≡ none) (is_empty plan.root_hash) _ _ (λ b q. cc)
      (λ b q.
        let all : List (List Bytes) = chunks (length plan.candidates) plan.candidates in
        let s : run_batches d plan everything nobody all (initial_report plan false, st) ≡ swept =
          cc in
        ap (λ z. z.1.files k) (sym s)
        ∙ run_batches_collects d plan k all (initial_report plan false, st) planned free
            (in_batch-chunks k (length plan.candidates) plan.candidates (omega arith) c) due)
