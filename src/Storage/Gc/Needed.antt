-- ===== src/Storage/Gc/Needed.antt =====
-- src/storage.rs, `gc`: what the current tree lists, by the blobs' own bytes, is kept.
use remarkable_server.Base.{
  ℕ, ◌≡◌, ◌⊎◌, inl, inr, refl, ap, ◌∙◌, sym, subst, if◌then◌else◌, Bool, true, false, some, List,
  [], ◌∷◌, is_empty, Bytes, bytes_eq, bytes_lt, contains_bytes, All, contradictory, if_intro,
}
use mathlib.Core.List.{Memᴰ}
use remarkable_server.Base.Result.{Result, ok, err}
use remarkable_server.Errors.{ServerError}
use remarkable_server.Storage.Index.{IndexEntry}
use remarkable_server.Storage.Blobs.{Store}
use remarkable_server.Storage.Tree.{
  Decoders, is_index, insert_row, project, index_entries, add_tree,
}
use remarkable_server.Storage.Tree.Strict.{Reaches, Walked, add_tree_strict}
use remarkable_server.Storage.Tree.Coherent.{file_entries, IsCoherent, add_tree_same}
use remarkable_server.Storage.Tree.Grows.{add_tree_grows}
use remarkable_server.Storage.Gc.{
  both_trees, then_previous, cutoff_of, candidates_of, GcPlan, planned, gc_plan, is_modified_after,
  Swept, Act, gc_execute, executed, gc,
}
use remarkable_server.Storage.Gc.Kept.{Avoids, gc_execute_keeps, candidates_of-Avoids}

-- No two entries have one name.
abbrev pub DistinctNames : List IndexEntry → Type 0
DistinctNames [] = Unit
DistinctNames (e ∷ es) = All (λ f. bytes_eq e.name f.name ≡ false) es × DistinctNames es

insert_row-here : (e : IndexEntry) (rows : List IndexEntry) → Memᴰ e (insert_row e rows)
unfolding insert_row
insert_row-here e [] = Memᴰ.head refl
insert_row-here e (f ∷ fs) =
    if_intro (Memᴰ e) (bytes_eq f.name e.name) _ _ (λ b. Memᴰ.head refl)
      (λ b.
        if_intro (Memᴰ e) (bytes_lt e.name f.name) (e ∷ f ∷ fs) (f ∷ insert_row e fs)
          (λ b'. Memᴰ.head refl) (λ b'. Memᴰ.tail (insert_row-here e fs)))

insert_row-kept :
    (e k : IndexEntry) (rows : List IndexEntry)
    → bytes_eq k.name e.name ≡ false
    → Memᴰ k rows
    → Memᴰ k (insert_row e rows)
unfolding insert_row
insert_row-kept e k [] b m = elim m [ ]
insert_row-kept e k (f ∷ fs) b m =
    if_intro (Memᴰ k) (bytes_eq f.name e.name) (e ∷ fs)
      (if bytes_lt e.name f.name then e ∷ f ∷ fs else f ∷ insert_row e fs)
      (λ q. Memᴰ.tail (past q m))
      (λ q.
        if_intro (Memᴰ k) (bytes_lt e.name f.name) (e ∷ f ∷ fs) (f ∷ insert_row e fs)
          (λ q'. Memᴰ.tail m) (λ q'. deeper (λ m'. insert_row-kept e k fs b m') m))
  where
    past : bytes_eq f.name e.name ≡ true → Memᴰ k (f ∷ fs) → Memᴰ k fs
    past q (Memᴰ.head same) =
        let q' : bytes_eq k.name e.name ≡ true = ap (λ z. bytes_eq z.name e.name) same ∙ q in
        elim (contradictory (bytes_eq k.name e.name) q' b) [ ]
    past q (Memᴰ.tail m') = m'

    deeper : (Memᴰ k fs → Memᴰ k (insert_row e fs)) → Memᴰ k (f ∷ fs) → Memᴰ k (f ∷ insert_row e fs)
    deeper later (Memᴰ.head same) = Memᴰ.head same
    deeper later (Memᴰ.tail m') = Memᴰ.tail (later m')

project-kept :
    (k : IndexEntry) (es rows : List IndexEntry)
    → All (λ f. bytes_eq k.name f.name ≡ false) es
    → Memᴰ k rows
    → Memᴰ k (project es rows)
unfolding project
project-kept k [] rows h m = m
project-kept k (e ∷ es) rows h m =
    project-kept k es (insert_row e rows) h.1 (insert_row-kept e k rows h.0 m)

project-Memᴰ :
    (k : IndexEntry) (es rows : List IndexEntry)
    → DistinctNames es
    → Memᴰ k es
    → Memᴰ k (project es rows)
unfolding project
project-Memᴰ k [] rows h m = elim m [ ]
project-Memᴰ k (e ∷ es) rows h (Memᴰ.head same) =
    subst (λ z. Memᴰ z (project es (insert_row e rows))) (sym same)
      (project-kept e es (insert_row e rows) h.0 (insert_row-here e rows))
project-Memᴰ k (e ∷ es) rows h (Memᴰ.tail m) = project-Memᴰ k es (insert_row e rows) h.1 m

-- The hashes that a root lists, and the documents it lists, by the bytes of the stored blobs.
pub data Listed (d : Decoders) (st : Store) (root : Bytes) : Bytes → Type 0 where
  root_itself : Listed d st root root
  entry :
      (docs : List IndexEntry) (e : IndexEntry)
      → file_entries d (st.files root) ≡ some docs
      → Memᴰ e docs
      → Listed d st root e.hash
  file :
      (docs files : List IndexEntry) (e f : IndexEntry)
      → file_entries d (st.files root) ≡ some docs
      → Memᴰ e docs
      → is_index e ≡ true
      → file_entries d (st.files e.hash) ≡ some files
      → Memᴰ f files
      → Listed d st root f.hash

-- No index that is stored lists two entries of one name.
abbrev pub HasDistinctNames : Decoders → Store → Type 0
HasDistinctNames d st =
    (hash : Bytes) (es : List IndexEntry)
    → file_entries d (st.files hash) ≡ some es
    → DistinctNames es

module _ (d : Decoders) (st : Store) (h : IsCoherent d st) (names : HasDistinctNames d st) where
  projected :
      (hash : Bytes) (rows es : List IndexEntry) (e : IndexEntry)
      → index_entries hash st ≡ some rows
      → file_entries d (st.files hash) ≡ some es
      → Memᴰ e es
      → Memᴰ e rows
  projected hash rows es e i f m =
      let r = h hash rows i in
      let f' : file_entries d (st.files hash) ≡ some r.0 = r.1 in
      let same : es ≡ r.0 = cc in
      subst (Memᴰ e) (sym r.2) (project-Memᴰ e r.0 [] (names hash r.0 r.1) (subst (Memᴰ e) same m))

  Listed-Reaches :
      (root : Bytes) (live live' : List Bytes) (k : Bytes)
      → Walked d st root live live'
      → Listed d st root k
      → contains_bytes k live' ≡ true
  Listed-Reaches root live live' k w Listed.root_itself = w.1 root Reaches.root_itself
  Listed-Reaches root live live' k w (Listed.entry docs e f m) =
      let t = w.2 in (t.2 e (projected root t.0 docs e t.1 f m)).0
  Listed-Reaches root live live' k w (Listed.file docs files e g f m x f' m') =
      let t = w.2 in
      let r = (t.2 e (projected root t.0 docs e t.1 f m)).1 x in
      r.2 g (projected e.hash r.0 files g r.1 f' m')

module _ (d : Decoders) (now grace : ℕ) (st : Store) where
  -- What a plan made on the store says of it and of the store after it.
  abbrev Plans : GcPlan → Store → Type 0
  Plans plan after =
      (after.files ≡ st.files)
      × ((k : Bytes) → Listed d st st.disk.row.hash k → Avoids k plan.candidates)
      × ((k : Bytes) → contains_bytes k st.versions ≡ true → Avoids k plan.candidates)

  with_live :
      (plan : GcPlan) (live : List Bytes)
      → planned now grace st (ok live) ≡ ok plan
      → (k : Bytes) → contains_bytes k live ≡ true
      → Avoids k plan.candidates
  unfolding planned
  with_live plan live q k l =
      let same : candidates_of (cutoff_of now grace) live st.blobs ≡ plan.candidates = cc in
      subst (Avoids k) same (candidates_of-Avoids (cutoff_of now grace) live st.blobs k l)

  module _ (plan : GcPlan) (h : IsCoherent d st) (names : HasDistinctNames d st)
      (e : is_empty st.disk.row.hash ≡ false) where
    after_both :
        (live : List Bytes) (mid : Store) (r : Result ServerError (List Bytes) × Store)
        → add_tree d st.disk.row.hash true st.versions st ≡ (ok live, mid)
        → add_tree d st.disk.row.previous_hash false live mid ≡ r
        → planned now grace st r.0 ≡ ok plan
        → Plans plan r.1
    unfolding planned
    after_both live mid (err x, after) w w' q = cc
    after_both live mid (ok live', after) w w' q =
        let root : Bytes = st.disk.row.hash in
        let only = add_tree_same d root true st.versions st in
        let only' = add_tree_same d st.disk.row.previous_hash false live mid in
        let files : mid.files ≡ st.files = ap (λ z. z.1.files) (sym w) ∙ only.0 in
        let walked : Walked d mid root st.versions live =
          subst (λ z. Walked d z root st.versions live) (ap (λ z. z.1) w)
            (add_tree_strict d root st.versions live st e (ap (λ z. z.0) w)) in
        let coherent : IsCoherent d mid = subst (IsCoherent d) (ap (λ z. z.1) w) (only.4 h) in
        let grown : (k : Bytes) → contains_bytes k live ≡ true → contains_bytes k live' ≡ true =
          λ k.
            add_tree_grows d mid false k st.disk.row.previous_hash live live' (ap (λ z. z.0) w') in
        (
          ap (λ z. z.1.files) (sym w') ∙ only'.0 ∙ files,
          λ k l. with_live plan live' q k (
              grown k (
                Listed-Reaches d mid coherent
                  (λ hash es f. names hash es (ap (λ m. file_entries d (m hash)) (sym files) ∙ f))
                  root st.versions live k walked (moved mid files k l))),
          λ k v. with_live plan live' q k (grown k (walked.0 k v)),
        )
      where
        moved :
            (mid : Store)
            → mid.files ≡ st.files
            → (k : Bytes) → Listed d st st.disk.row.hash k
            → Listed d mid st.disk.row.hash k
        moved mid files k Listed.root_itself = Listed.root_itself
        moved mid files k (Listed.entry docs e f m) =
            Listed.entry docs e (ap (λ z. file_entries d (z st.disk.row.hash)) files ∙ f) m
        moved mid files k (Listed.file docs fs e g f m x f' m') =
            Listed.file docs fs e g (ap (λ z. file_entries d (z st.disk.row.hash)) files ∙ f) m x
              (ap (λ z. file_entries d (z e.hash)) files ∙ f') m'

    gc_plan-Plans : (gc_plan d now grace st).0 ≡ ok plan → Plans plan (gc_plan d now grace st).1
    unfolding gc_plan both_trees then_previous planned
    gc_plan-Plans = by_first (add_tree d st.disk.row.hash true st.versions st) refl
      where
        by_first :
            (r : Result ServerError (List Bytes) × Store)
            → add_tree d st.disk.row.hash true st.versions st ≡ r
            → planned now grace st (then_previous d st.disk.row.previous_hash r).0 ≡ ok plan
            → Plans plan (then_previous d st.disk.row.previous_hash r).1
        by_first (err x, mid) w q = cc
        by_first (ok live, mid) w q =
            after_both live mid (add_tree d st.disk.row.previous_hash false live mid) w refl q

planned_fields :
    (now grace : ℕ) (st : Store) (r : Result ServerError (List Bytes)) (plan : GcPlan)
    → planned now grace st r ≡ ok plan
    → (plan.root_hash ≡ st.disk.row.hash) × (plan.cutoff ≡ cutoff_of now grace)
unfolding planned
planned_fields now grace st (ok live) plan q =
    let hash : st.disk.row.hash ≡ plan.root_hash = cc in
    let cutoff : cutoff_of now grace ≡ plan.cutoff = cc in (sym hash, sym cutoff)
planned_fields now grace st (err e) plan q = cc

gc_execute_some :
    (d : Decoders) (plan : GcPlan) (dry_run : Bool) (removable : Bytes → Bool)
    (others : ℕ → List Act) (st : Store) (swept : Swept)
    → gc_execute d plan dry_run removable others st ≡ ok swept
    → is_empty plan.root_hash ≡ false
unfolding gc_execute
gc_execute_some d plan dry_run removable others st swept =
    if_intro (λ x. x ≡ ok swept → is_empty plan.root_hash ≡ false) (is_empty plan.root_hash) _ _
      (λ b q. cc) (λ b q. b)

-- Garbage collection keeps every blob that the current root's tree lists by the bytes of the indexes
-- that are stored, every hash of the version history, and every file written after the cutoff,
-- whatever roots, touches and versions others add meanwhile. The projection agrees with the blobs,
-- and no index that is stored lists two entries of one name.
pub gc_keeps :
    (d : Decoders) (now grace : ℕ) (dry_run : Bool) (removable : Bytes → Bool)
    (others : ℕ → List Act) (st : Store) (swept : Swept) (k : Bytes)
    → IsCoherent d st
    → HasDistinctNames d st
    → Listed d st st.disk.row.hash k
      ⊎ ((contains_bytes k st.versions ≡ true)
          ⊎ (is_modified_after (cutoff_of now grace) (st.files k) ≡ true))
    → gc d now grace dry_run removable others st ≡ ok swept
    → swept.1.files k ≡ st.files k
unfolding gc executed gc_plan
gc_keeps d now grace dry_run removable others st swept k h names need q =
    by_plan (gc_plan d now grace st) refl q
  where
    Need : Type 0
    Need =
        Listed d st st.disk.row.hash k
        ⊎ ((contains_bytes k st.versions ≡ true)
            ⊎ (is_modified_after (cutoff_of now grace) (st.files k) ≡ true))

    safe :
        (plan : GcPlan) (after : Store)
        → plan.cutoff ≡ cutoff_of now grace
        → Plans d now grace st plan after
        → Need
        → Avoids k plan.candidates ⊎ (is_modified_after plan.cutoff (after.files k) ≡ true)
    safe plan after c p (inl l) = inl (p.1 k l)
    safe plan after c p (inr (inl v)) = inl (p.2 k v)
    safe plan after c p (inr (inr m)) = inr (
        ap (λ z. is_modified_after z (after.files k)) c
        ∙ ap (λ f. is_modified_after (cutoff_of now grace) (f k)) p.0
        ∙ m)

    by_plan :
        (r : Result ServerError GcPlan × Store)
        → gc_plan d now grace st ≡ r
        → executed d dry_run removable others r ≡ ok swept
        → swept.1.files k ≡ st.files k
    by_plan (err x, after) w q' = cc
    by_plan (ok plan, after) w q' =
        let walked = both_trees d st.disk.row.hash st.disk.row.previous_hash st.versions st in
        let fields = planned_fields now grace st walked.0 plan (ap (λ z. z.0) w) in
        let some_root : is_empty st.disk.row.hash ≡ false =
          sym (ap is_empty fields.0)
          ∙ gc_execute_some d plan dry_run removable others after swept q' in
        let plans : Plans d now grace st plan after =
          subst (Plans d now grace st plan) (ap (λ z. z.1) w)
            (gc_plan-Plans d now grace st plan h names some_root (ap (λ z. z.0) w)) in
        gc_execute_keeps d plan dry_run removable others after k swept
          (safe plan after fields.1 plans need) q'
        ∙ ap (λ f. f k) plans.0
