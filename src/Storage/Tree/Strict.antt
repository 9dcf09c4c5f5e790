-- ===== src/Storage/Tree/Strict.antt =====
-- src/storage.rs, `add_tree`: what a strict walk that succeeds has found.
use remarkable_server.Base.{
  ◌≡◌, inl, inr, refl, ap, ◌∙◌, sym, subst, if◌then◌else◌, Bool-cases, true, false, Option, none,
  some, List, [], ◌∷◌, ◌++◌, is_empty, Bytes, bytes_eq, bytes_eq_refl, contains_bytes,
  contradictory, if_intro, if_true, arith,
}
use mathlib.Core.List.{Memᴰ}
use remarkable_server.Base.Result.{Result, ok, bind_ok}
use remarkable_server.Errors.{ServerError}
use remarkable_server.Storage.Index.{IndexEntry}
use remarkable_server.Storage.Blobs.{Store}
use remarkable_server.Storage.Tree.{
  Decoders, is_index, index_entries, hashes, doc_files, entry_hashes, add_docs, add_root,
  index_tree, add_tree,
}

-- The hashes that the projection puts below a root.
pub data Reaches (st : Store) (root : Bytes) : Bytes → Type 0 where
  root_itself : Reaches st root root
  entry :
      (docs : List IndexEntry) (e : IndexEntry)
      → index_entries root st ≡ some docs
      → Memᴰ e docs
      → Reaches st root e.hash
  file :
      (docs files : List IndexEntry) (e f : IndexEntry)
      → index_entries root st ≡ some docs
      → Memᴰ e docs
      → is_index e ≡ true
      → index_entries e.hash st ≡ some files
      → Memᴰ f files
      → Reaches st root f.hash

contains-append_left :
    (k : Bytes) (xs ys : List Bytes)
    → contains_bytes k xs ≡ true
    → contains_bytes k (xs ++ ys) ≡ true
contains-append_left k [] ys h = cc
contains-append_left k (x ∷ xs) ys h = elim (Bool-cases (bytes_eq x k)) [
  | inl e ↦ ground arith
  | inr e ↦
      let rest : contains_bytes k (xs ++ ys) ≡ true = contains-append_left k xs ys (ground arith) in
      ground arith
]

pub contains-append_right :
    (k : Bytes) (xs ys : List Bytes)
    → contains_bytes k ys ≡ true
    → contains_bytes k (xs ++ ys) ≡ true
contains-append_right k [] ys h = h
contains-append_right k (x ∷ xs) ys h =
    let rest : contains_bytes k (xs ++ ys) ≡ true = contains-append_right k xs ys h in ground arith

contains_head : (k : Bytes) (xs : List Bytes) → contains_bytes k (k ∷ xs) ≡ true
contains_head k xs = let e : bytes_eq k k ≡ true = bytes_eq_refl k in ground arith

contains-hashes :
    (f : IndexEntry) (fs : List IndexEntry) → Memᴰ f fs → contains_bytes f.hash (hashes fs) ≡ true
contains-hashes f [] m = elim m [ ]
contains-hashes f (x ∷ xs) (Memᴰ.head e) =
    ap (λ z. contains_bytes z.hash (hashes (x ∷ xs))) e ∙ contains_head x.hash (hashes xs)
contains-hashes f (x ∷ xs) (Memᴰ.tail m) =
    let rest : contains_bytes f.hash (hashes xs) ≡ true = contains-hashes f xs m in ground arith

module _ (d : Decoders) (st : Store) where
  -- What the walk needs of an entry of the root.
  abbrev pub Found : IndexEntry → List Bytes → Type 0
  Found e live =
      (contains_bytes e.hash live ≡ true)
      × (is_index e ≡ true
          → (files : List IndexEntry) × (index_entries e.hash st ≡ some files)
            × ((f : IndexEntry) → Memᴰ f files → contains_bytes f.hash live ≡ true))

  doc_files_strict :
      (hash : Bytes) (o : Option (List IndexEntry)) (more : List Bytes)
      → doc_files d st true hash o ≡ ok more
      → (files : List IndexEntry) × (o ≡ some files) × (more ≡ hashes files)
  unfolding doc_files
  doc_files_strict hash none more q = cc
  doc_files_strict hash (some files) more q = (files, refl, cc)

  entry_hashes_strict :
      (e : IndexEntry) (more live : List Bytes)
      → entry_hashes d st true e ≡ ok more
      → Found e (more ++ live)
  unfolding entry_hashes
  entry_hashes_strict e more live q =
      let b =
        bind_ok (if is_index e then doc_files d st true e.hash (index_entries e.hash st) else ok [])
          (λ files. ok (e.hash ∷ files)) more q in
      let m : e.hash ∷ b.0 ≡ more = cc in
      subst (λ z. Found e (z ++ live)) m (contains_head e.hash (b.0 ++ live), files_found b.0 b.1)
    where
      files_found :
          (found : List Bytes)
          → (if is_index e then doc_files d st true e.hash (index_entries e.hash st) else ok [])
            ≡ ok found
          → is_index e ≡ true
          → (files : List IndexEntry) × (index_entries e.hash st ≡ some files)
            × ((f : IndexEntry)
                → Memᴰ f files
                → contains_bytes f.hash (e.hash ∷ (found ++ live)) ≡ true)
      files_found found q' i =
          let r =
            doc_files_strict e.hash (index_entries e.hash st) found
              (sym (if_true (is_index e) _ (ok []) i) ∙ q') in
          (
            r.0,
            r.1,
            λ f m.
                let here : contains_bytes f.hash found ≡ true =
                  ap (contains_bytes f.hash) r.2 ∙ contains-hashes f r.0 m in
                let later : contains_bytes f.hash (found ++ live) ≡ true =
                  contains-append_left f.hash found live here in
                ground arith,
          )

  Found-grown :
      (e : IndexEntry) (live live' : List Bytes)
      → ((k : Bytes) → contains_bytes k live ≡ true → contains_bytes k live' ≡ true)
      → Found e live
      → Found e live'
  Found-grown e live live' grows h =
      (grows e.hash h.0, λ i. let r = h.1 i in (r.0, r.1, λ f m. grows f.hash (r.2 f m)))

  add_docs_strict :
      (docs : List IndexEntry) (live live' : List Bytes)
      → add_docs d st true docs live ≡ ok live'
      → ((k : Bytes) → contains_bytes k live ≡ true → contains_bytes k live' ≡ true)
        × ((e : IndexEntry) → Memᴰ e docs → Found e live')
  unfolding add_docs
  add_docs_strict [] live live' q =
      let same : live ≡ live' = cc in
      (λ k h. subst (λ z. contains_bytes k z ≡ true) same h, λ e m. elim m [ ])
  add_docs_strict (e ∷ es) live live' q =
      let b =
        bind_ok (entry_hashes d st true e) (λ more. add_docs d st true es (more ++ live)) live' q in
      let rest = add_docs_strict es (b.0 ++ live) live' b.2 in
      (
        λ k h. rest.0 k (contains-append_right k b.0 live h),
        either (Found-grown e (b.0 ++ live) live' rest.0 (entry_hashes_strict e b.0 live b.1))
            rest.1,
      )
    where
      either :
          Found e live'
          → ((e' : IndexEntry) → Memᴰ e' es → Found e' live')
          → (e' : IndexEntry) → Memᴰ e' (e ∷ es)
          → Found e' live'
      either here later e' (Memᴰ.head same) = subst (λ z. Found z live') (sym same) here
      either here later e' (Memᴰ.tail m) = later e' m

  -- The live set has grown by all that the root reaches, and the tree is parsed.
  abbrev pub Walked : Bytes → List Bytes → List Bytes → Type 0
  Walked root live live' =
      ((k : Bytes) → contains_bytes k live ≡ true → contains_bytes k live' ≡ true)
      × ((k : Bytes) → Reaches st root k → contains_bytes k live' ≡ true)
      × ((docs : List IndexEntry) × (index_entries root st ≡ some docs)
          × ((e : IndexEntry) → Memᴰ e docs → Found e live'))

  add_root_strict :
      (root : Bytes) (o : Option (List IndexEntry)) (live live' : List Bytes)
      → index_entries root st ≡ o
      → add_root d st true root o (root ∷ live) ≡ ok live'
      → Walked root live live'
  unfolding add_root
  add_root_strict root none live live' i q = cc
  add_root_strict root (some docs) live live' i q =
      let r = add_docs_strict docs (root ∷ live) live' q in
      (
        λ k h. let l : contains_bytes k (root ∷ live) ≡ true = ground (arith, h) in r.0 k l,
        reached r.0 r.1,
        (docs, i, r.1),
      )
    where
      reached :
          ((k : Bytes) → contains_bytes k (root ∷ live) ≡ true → contains_bytes k live' ≡ true)
          → ((e : IndexEntry) → Memᴰ e docs → Found e live')
          → (k : Bytes) → Reaches st root k
          → contains_bytes k live' ≡ true
      reached grows found k Reaches.root_itself = grows root (contains_head root live)
      reached grows found k (Reaches.entry docs' e i' m) =
          let same : docs' ≡ docs = cc in (found e (subst (Memᴰ e) same m)).0
      reached grows found k (Reaches.file docs' files e f i' m x j m') =
          let same : docs' ≡ docs = cc in
          let r = (found e (subst (Memᴰ e) same m)).1 x in
          let j' : index_entries e.hash st ≡ some r.0 = r.1 in
          let same' : files ≡ r.0 = cc in r.2 f (subst (Memᴰ f) same' m')

pub add_tree_strict :
    (d : Decoders) (root : Bytes) (live live' : List Bytes) (st : Store)
    → is_empty root ≡ false
    → (add_tree d root true live st).0 ≡ ok live'
    → Walked d (add_tree d root true live st).1 root live live'
unfolding add_tree
add_tree_strict d root live live' st e q =
    if_intro
      (λ (x : Result ServerError (List Bytes) × Store).
        x.0 ≡ ok live' → Walked d x.1 root live live')
      (is_empty root) _ _ (λ b q'. elim (contradictory (is_empty root) b e) [ ])
      (λ b.
        let walked : Store = index_tree d root st in
        add_root_strict d walked root (index_entries root walked) live live' refl)
      q
