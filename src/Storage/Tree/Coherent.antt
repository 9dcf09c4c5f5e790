-- ===== src/Storage/Tree/Coherent.antt =====
-- src/storage.rs: the projection agrees with the blobs that it was made of.
use remarkable_server.Base.{
  ℕ, ◌≡◌, refl, ap, ◌∙◌, sym, if◌then◌else◌, Bool, true, false, not, Option, none, some, List, [],
  ◌∷◌, Bytes, bytes_eq, bytes_eq_iff, is_empty, if_intro, if_false,
}
use remarkable_server.Base.Result.{Result}
use remarkable_server.Errors.{ServerError}
use remarkable_server.Storage.Root.{is_valid_hash}
use remarkable_server.Storage.Index.{IndexEntry}
use remarkable_server.Storage.Catalogue.{renamed}
use remarkable_server.Storage.Blobs.{File, IndexRow, Store, put_at, delete_at, stored, removed}
use remarkable_server.Storage.Tree.{
  Decoders, is_index, blob_entries, project, seen, recorded, parse_file, unless_seen,
  ensure_indexed, row_entries, index_entries, or_none, ensure_docs, if_parsed, index_tree, add_tree,
}

-- The entries that a stored blob holds, if it is an index.
unfoldable pub file_entries : Decoders → Option File → Option (List IndexEntry)
unfolding blob_entries
file_entries d none = none
file_entries d (some file) = blob_entries (d.from_utf8 file.bytes)

-- The projection's rows are those of the blob's own entries.
abbrev pub IsCoherent : Decoders → Store → Type 0
IsCoherent d st =
    (hash : Bytes) (rows : List IndexEntry)
    → index_entries hash st ≡ some rows
    → (es : List IndexEntry) × (file_entries d (st.files hash) ≡ some es) × (rows ≡ project es [])

-- At most the projection has changed, and it has stayed coherent.
abbrev pub OnlyIndexes : Decoders → Store → Store → Type 0
OnlyIndexes d st st' =
    (st'.files ≡ st.files)
    × (st'.blobs ≡ st.blobs)
    × (st'.disk ≡ st.disk)
    × (st'.versions ≡ st.versions)
    × (IsCoherent d st → IsCoherent d st')

module _ (d : Decoders) where
  same : (st : Store) → OnlyIndexes d st st
  same st = (refl, refl, refl, refl, λ h. h)

  then_same : (a b c : Store) → OnlyIndexes d a b → OnlyIndexes d b c → OnlyIndexes d a c
  then_same a b c h h' = (h'.0 ∙ h.0, h'.1 ∙ h.1, h'.2 ∙ h.2, h'.3 ∙ h.3, λ k. h'.4 (h.4 k))

  recorded_same :
      (hash : Bytes) (o : Option (List IndexEntry)) (st : Store)
      → file_entries d (st.files hash) ≡ o
      → OnlyIndexes d st (recorded hash o st).1
  unfolding recorded put_at index_entries row_entries
  recorded_same hash none st f = (
    refl,
    refl,
    refl,
    refl,
    λ h asked rows.
        if_intro (λ (x : Option IndexRow). row_entries x ≡ some rows → Made asked rows)
          (bytes_eq hash asked) _ _ (λ b q. cc) (λ b q. h asked rows q),
  )
    where
      Made : Bytes → List IndexEntry → Type 0
      Made asked rows =
          (es : List IndexEntry) × (file_entries d (st.files asked) ≡ some es)
          × (rows ≡ project es [])
  recorded_same hash (some es) st f = (
    refl,
    refl,
    refl,
    refl,
    λ h asked rows.
        if_intro (λ (x : Option IndexRow). row_entries x ≡ some rows → Made asked rows)
          (bytes_eq hash asked) _ _
          (λ b q.
            let e : hash ≡ asked = (bytes_eq_iff hash asked).0 b in
            let r : project es [] ≡ rows = cc in
            (es, ap (λ z. file_entries d (st.files z)) (sym e) ∙ f, sym r))
          (λ b q. h asked rows q),
  )
    where
      Made : Bytes → List IndexEntry → Type 0
      Made asked rows =
          (es : List IndexEntry) × (file_entries d (st.files asked) ≡ some es)
          × (rows ≡ project es [])

  parse_file_same :
      (hash : Bytes) (o : Option File) (st : Store)
      → st.files hash ≡ o
      → OnlyIndexes d st (parse_file d hash o st).1
  unfolding parse_file file_entries
  parse_file_same hash none st f = same st
  parse_file_same hash (some file) st f =
      recorded_same hash (blob_entries (d.from_utf8 file.bytes)) st (ap (file_entries d) f)

  unless_seen_same :
      (hash : Bytes) (o : Option Bool) (st : Store) → OnlyIndexes d st (unless_seen d hash o st).1
  unfolding unless_seen
  unless_seen_same hash (some p) st = same st
  unless_seen_same hash none st = parse_file_same hash (st.files hash) st refl

  ensure_indexed_same : (hash : Bytes) (st : Store) → OnlyIndexes d st (ensure_indexed d hash st).1
  unfolding ensure_indexed
  ensure_indexed_same hash st =
      if_intro (λ (x : Bool × Store). OnlyIndexes d st x.1) (not (is_valid_hash hash)) _ _
        (λ b. same st) (λ b. unless_seen_same hash (seen (st.indexes hash)) st)

  ensure_docs_same : (es : List IndexEntry) (st : Store) → OnlyIndexes d st (ensure_docs d es st)
  unfolding ensure_docs
  ensure_docs_same [] st = same st
  ensure_docs_same (e ∷ es) st =
      let next : Store = if is_index e then (ensure_indexed d e.hash st).1 else st in
      then_same st next (ensure_docs d es next)
        (if_intro (OnlyIndexes d st) (is_index e) _ _ (λ b. ensure_indexed_same e.hash st)
          (λ b. same st))
        (ensure_docs_same es next)

  if_parsed_same : (root : Bytes) (r : Bool × Store) → OnlyIndexes d r.1 (if_parsed d root r)
  unfolding if_parsed
  if_parsed_same root (false, st) = same st
  if_parsed_same root (true, st) = ensure_docs_same (or_none (index_entries root st)) st

  pub index_tree_same : (root : Bytes) (st : Store) → OnlyIndexes d st (index_tree d root st)
  unfolding index_tree
  index_tree_same root st =
      then_same st (ensure_indexed d root st).1 (index_tree d root st) (ensure_indexed_same root st)
        (if_parsed_same root (ensure_indexed d root st))

  pub add_tree_same :
      (root : Bytes) (strict : Bool) (live : List Bytes) (st : Store)
      → OnlyIndexes d st (add_tree d root strict live st).1
  unfolding add_tree
  add_tree_same root strict live st =
      if_intro (λ (x : Result ServerError (List Bytes) × Store). OnlyIndexes d st x.1)
        (is_empty root) _ _ (λ b. same st) (λ b. index_tree_same root st)

  -- A key whose row and file are both written or taken away, others being left.
  apart_IsCoherent :
      (hash : Bytes) (st st' : Store)
      → st'.indexes ≡ delete_at hash st.indexes
      → ((asked : Bytes) → bytes_eq hash asked ≡ false → st'.files asked ≡ st.files asked)
      → IsCoherent d st
      → IsCoherent d st'
  unfolding delete_at index_entries row_entries
  apart_IsCoherent hash st st' i f h asked rows q =
      if_intro
        (λ (x : Option IndexRow).
          row_entries x ≡ some rows
          → (es : List IndexEntry) × (file_entries d (st'.files asked) ≡ some es)
            × (rows ≡ project es []))
        (bytes_eq hash asked) none (st.indexes asked) (λ b q'. cc)
        (λ b q'. let r = h asked rows q' in (r.0, ap (file_entries d) (f asked b) ∙ r.1, r.2))
        (ap (λ m. row_entries (m asked)) (sym i) ∙ q)

  pub stored-IsCoherent :
      (bytes hash filename : Bytes) (now : ℕ) (st : Store)
      → IsCoherent d st
      → IsCoherent d (stored bytes hash filename now st)
  unfolding stored put_at
  stored-IsCoherent bytes hash filename now st =
      apart_IsCoherent hash st (stored bytes hash filename now st) refl
        (λ asked b. if_false (bytes_eq hash asked) _ _ b)

  pub renamed-IsCoherent :
      (file : File) (hash filename : Bytes) (now : ℕ) (st : Store)
      → IsCoherent d st
      → IsCoherent d (renamed file hash filename now st)
  unfolding renamed put_at
  renamed-IsCoherent file hash filename now st =
      apart_IsCoherent hash st (renamed file hash filename now st) refl
        (λ asked b. if_false (bytes_eq hash asked) _ _ b)

  pub removed-IsCoherent :
      (hash : Bytes) (st : Store) → IsCoherent d st → IsCoherent d (removed hash st)
  unfolding removed delete_at
  removed-IsCoherent hash st =
      apart_IsCoherent hash st (removed hash st) refl
        (λ asked b. if_false (bytes_eq hash asked) _ _ b)
