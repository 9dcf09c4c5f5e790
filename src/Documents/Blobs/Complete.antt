-- ===== src/Documents/Blobs/Complete.antt =====
-- src/documents.rs, `put_document`: what it stores is all there, and its index is read back.
use remarkable_server.Base.{
  ℕ, ◌≡◌, refl, ap, ◌∙◌, sym, subst, true, not, ◌&&◌, Option, some, List, [], ◌∷◌, ◌++◌, length,
  Bytes, bytes_eq, bytes_eq_refl, codes, All, if_intro, if_true, arith,
}
use remarkable_server.Base.Result.{ok, ◌>>=◌, bind_ok}
use remarkable_server.Storage.Root.{is_valid_hash}
use remarkable_server.Storage.Blobs.{File, Store, put_at, is_some, exists, stored, put_with_hash}
use remarkable_server.Documents.{Entry, parse_root, render_index, sort_by_name}
use remarkable_server.Documents.ReadBack.{IsWritable, parse_root-render_index, render_index-All}
use remarkable_server.Documents.Parsed.{IsText}
use remarkable_server.Documents.Sorted.{IsShuffle, sort_by_name-IsShuffle, sort_by_name-All}
use remarkable_server.Documents.Commit.{Crates, index_hash}
use remarkable_server.Documents.Blobs.{
  leaf_entry, put_leaf, Draft, total_size, doc_entry, put_index, put_document,
}

-- A put that succeeds stores the bytes under a valid hash, and what was there stays there.
put_with_hash_stores :
    (bytes hash filename : Bytes) (now : ℕ) (st st' : Store)
    → put_with_hash bytes hash filename now st ≡ ok st'
    → (st'.files hash ≡ some (record { bytes = bytes; modified = now }))
      × (exists hash st' ≡ true)
      × ((k : Bytes) → exists k st ≡ true → exists k st' ≡ true)
unfolding put_with_hash stored put_at exists is_some
put_with_hash_stores bytes hash filename now st st' =
    if_intro (λ x. x ≡ ok st' → Stored st') (not (is_valid_hash hash)) _ _ (λ b q. cc)
      (λ b q.
        let s : stored bytes hash filename now st ≡ st' = cc in
        let valid : is_valid_hash hash ≡ true = ground arith in
        let there : (stored bytes hash filename now st).files hash
            ≡ some (record { bytes = bytes; modified = now }) =
          if_true (bytes_eq hash hash) _ _ (bytes_eq_refl hash) in
        subst Stored s (
          there,
          ap (λ z. is_valid_hash hash && is_some z) there ∙ ap (λ z. z && true) valid,
          λ k h.
              if_intro (λ (z : Option File). (is_valid_hash k && is_some z) ≡ true)
                (bytes_eq hash k) _ _ (λ b'. ground arith) (λ b'. h),
        ))
  where
    Stored : Store → Type 0
    Stored z =
        (z.files hash ≡ some (record { bytes = bytes; modified = now }))
        × (exists hash z ≡ true)
        × ((k : Bytes) → exists k st ≡ true → exists k z ≡ true)

put_leaf_stores :
    (crates : Crates) (name bytes : Bytes) (now : ℕ) (st : Store) (r : Entry × Store)
    → put_leaf crates name bytes now st ≡ ok r
    → (r.0 ≡ leaf_entry crates name bytes)
      × (exists r.0.hash r.1 ≡ true)
      × ((k : Bytes) → exists k st ≡ true → exists k r.1 ≡ true)
unfolding put_leaf leaf_entry
put_leaf_stores crates name bytes now st r q =
    let b =
      bind_ok (put_with_hash bytes (crates.sha256_hex bytes) name now st)
        (λ st'. ok (leaf_entry crates name bytes, st')) r q in
    let p = put_with_hash_stores bytes (crates.sha256_hex bytes) name now st b.0 b.1 in
    let e : (leaf_entry crates name bytes, b.0) ≡ r = cc in
    subst
      (λ z.
        (z.0 ≡ leaf_entry crates name bytes)
        × (exists z.0.hash z.1 ≡ true)
        × ((k : Bytes) → exists k st ≡ true → exists k z.1 ≡ true))
      e (refl, p.1, p.2)

-- The entries of a draft's files, as they are put.
unfoldable pub leaves : Crates → Draft → List Entry
leaves crates draft =
    leaf_entry crates (draft.id ++ codes ".metadata") draft.metadata
    ∷ leaf_entry crates (draft.id ++ codes ".content") draft.content
    ∷ leaf_entry crates (draft.id ++ (codes "." ++ draft.ext)) draft.file
    ∷ []

-- The index under the entry's hash is read back as the files, which are all there.
abbrev pub IsComplete : Crates → List Entry → Entry → Store → Type 0
IsComplete crates parts e st =
    (files : List Entry) × (index : File) × (st.files e.hash ≡ some index)
    × (parse_root (crates.decoders.from_utf8 index.bytes) ≡ ok files)
    × IsShuffle files parts
    × All (λ f. exists f.hash st ≡ true) files
    × (e.subfiles ≡ length files)
    × (e.size ≡ total_size files)

module _ (crates : Crates)
    (reencoded : (text : Bytes)
      → IsText text
      → crates.decoders.from_utf8 (crates.into_bytes text) ≡ some text) where
  put_index-IsComplete :
      (id : Bytes) (now : ℕ) (files parts : List Entry) (st : Store) (r : Entry × Store)
      → All IsWritable files
      → IsShuffle files parts
      → All (λ f. exists f.hash st ≡ true) files
      → put_index crates id now files st ≡ ok r
      → IsComplete crates parts r.0 r.1
  unfolding put_index doc_entry
  put_index-IsComplete id now files parts st r w p there q =
      let bytes : Bytes = crates.into_bytes (render_index files) in
      let b =
        bind_ok (index_hash crates files)
          (λ hash. put_with_hash bytes hash (id ++ codes ".docSchema") now st >>= λ st'.
            ok (doc_entry id hash files, st'))
          r q in
      let c =
        bind_ok (put_with_hash bytes b.0 (id ++ codes ".docSchema") now st)
          (λ st'. ok (doc_entry id b.0 files, st')) r b.2 in
      let s = put_with_hash_stores bytes b.0 (id ++ codes ".docSchema") now st c.0 c.1 in
      let e : (doc_entry id b.0 files, c.0) ≡ r = cc in
      subst (λ z. IsComplete crates parts z.0 z.1) e
        (
          files,
          record { bytes = bytes; modified = now },
          s.0,
          ap parse_root (reencoded (render_index files) (render_index-All files w))
              ∙ parse_root-render_index files w,
          p,
          still files c.0 s.2 there,
          refl,
          refl,
        )
    where
      still :
          (fs : List Entry) (after : Store)
          → ((k : Bytes) → exists k st ≡ true → exists k after ≡ true)
          → All (λ f. exists f.hash st ≡ true) fs
          → All (λ f. exists f.hash after ≡ true) fs
      still [] after keep h = tt
      still (f ∷ fs) after keep h = (keep f.hash h.0, still fs after keep h.1)

  -- A document that was put is complete: the index under its hash is read back as its three files,
  -- in some order, each of which is stored, and its entry has their number and the sum of their
  -- sizes. The entries of its files can be written, and UTF-8 decoding reads back what was encoded.
  pub put_document-IsComplete :
      (draft : Draft) (now : ℕ) (st : Store) (r : Entry × Store)
      → All IsWritable (leaves crates draft)
      → put_document crates draft now st ≡ ok r
      → IsComplete crates (leaves crates draft) r.0 r.1
  unfolding put_document leaves
  put_document-IsComplete draft now st r w q =
      let meta : Bytes = draft.id ++ codes ".metadata" in
      let content : Bytes = draft.id ++ codes ".content" in
      let main : Bytes = draft.id ++ (codes "." ++ draft.ext) in
      let a =
        bind_ok (put_leaf crates meta draft.metadata now st)
          (λ a'. put_leaf crates content draft.content now a'.1 >>= λ b'.
            (put_leaf crates main draft.file now b'.1 >>= λ c'.
            put_index crates draft.id now (sort_by_name (a'.0 ∷ b'.0 ∷ c'.0 ∷ [])) c'.1))
          r q in
      let b =
        bind_ok (put_leaf crates content draft.content now a.0.1)
          (λ b'. put_leaf crates main draft.file now b'.1 >>= λ c'.
            put_index crates draft.id now (sort_by_name (a.0.0 ∷ b'.0 ∷ c'.0 ∷ [])) c'.1)
          r a.2 in
      let c =
        bind_ok (put_leaf crates main draft.file now b.0.1)
          (λ c'. put_index crates draft.id now (sort_by_name (a.0.0 ∷ b.0.0 ∷ c'.0 ∷ [])) c'.1) r
          b.2 in
      let pa = put_leaf_stores crates meta draft.metadata now st a.0 a.1 in
      let pb = put_leaf_stores crates content draft.content now a.0.1 b.0 b.1 in
      let pc = put_leaf_stores crates main draft.file now b.0.1 c.0 c.1 in
      let parts : List Entry = a.0.0 ∷ b.0.0 ∷ c.0.0 ∷ [] in
      let same : parts ≡ leaves crates draft =
        ap (λ z. z ∷ b.0.0 ∷ c.0.0 ∷ []) pa.0
        ∙ ap (λ z. leaf_entry crates meta draft.metadata ∷ z ∷ c.0.0 ∷ []) pb.0
        ∙ ap
            (λ z.
              leaf_entry crates meta draft.metadata
              ∷ leaf_entry crates content draft.content
              ∷ z
              ∷ [])
            pc.0 in
      subst (λ z. IsComplete crates z r.0 r.1) same
        (put_index-IsComplete draft.id now (sort_by_name parts) parts c.0.1 r
          (sort_by_name-All IsWritable parts (subst (All IsWritable) (sym same) w))
          (sort_by_name-IsShuffle parts)
          (sort_by_name-All (λ f. exists f.hash c.0.1 ≡ true) parts
            (pc.2 a.0.0.hash (pb.2 a.0.0.hash pa.1), (pc.2 b.0.0.hash pb.1, (pc.1, tt))))
          c.2)
