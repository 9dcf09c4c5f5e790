-- ===== src/Storage/Tree/Grows.antt =====
-- src/storage.rs, `add_tree`: the live set only grows.
use remarkable_server.Base.{
  ◌≡◌, subst, Bool, true, Option, none, some, List, [], ◌∷◌, ◌++◌, is_empty, Bytes, contains_bytes,
  if_intro, arith,
}
use remarkable_server.Base.Result.{Result, ok, bind_ok}
use remarkable_server.Errors.{ServerError}
use remarkable_server.Storage.Index.{IndexEntry}
use remarkable_server.Storage.Blobs.{Store, get}
use remarkable_server.Storage.Tree.{
  Decoders, index_entries, entry_hashes, add_docs, lenient_of, lenient_docs, add_root, index_tree,
  add_tree,
}
use remarkable_server.Storage.Tree.Strict.{contains-append_right}

contains_tail :
    (k x : Bytes) (xs : List Bytes) → contains_bytes k xs ≡ true → contains_bytes k (x ∷ xs) ≡ true
contains_tail k x xs h = ground arith

module _ (d : Decoders) (st : Store) (strict : Bool) (k : Bytes) where
  add_docs_grows :
      (docs : List IndexEntry) (live live' : List Bytes)
      → add_docs d st strict docs live ≡ ok live'
      → contains_bytes k live ≡ true
      → contains_bytes k live' ≡ true
  unfolding add_docs
  add_docs_grows [] live live' q h =
      let same : live ≡ live' = cc in subst (λ z. contains_bytes k z ≡ true) same h
  add_docs_grows (e ∷ es) live live' q h =
      let b =
        bind_ok (entry_hashes d st strict e) (λ more. add_docs d st strict es (more ++ live)) live'
          q in
      add_docs_grows es (b.0 ++ live) live' b.2 (contains-append_right k b.0 live h)

  lenient_docs_grows :
      (docs live : List Bytes)
      → contains_bytes k live ≡ true
      → contains_bytes k (lenient_docs d st docs live) ≡ true
  unfolding lenient_docs
  lenient_docs_grows [] live h = h
  lenient_docs_grows (doc ∷ docs) live h =
      lenient_docs_grows docs (doc ∷ (lenient_of d (get doc st) ++ live)) (
        contains_tail k doc (lenient_of d (get doc st) ++ live)
          (contains-append_right k (lenient_of d (get doc st)) live h))

  add_root_grows :
      (root : Bytes) (o : Option (List IndexEntry)) (live live' : List Bytes)
      → add_root d st strict root o live ≡ ok live'
      → contains_bytes k live ≡ true
      → contains_bytes k live' ≡ true
  unfolding add_root
  add_root_grows root (some docs) live live' q h = add_docs_grows docs live live' q h
  add_root_grows root none live live' q h =
      if_intro (λ x. x ≡ ok live' → contains_bytes k live' ≡ true) strict _ _ (λ b q'. cc)
        (λ b q'.
          let docs : List Bytes = lenient_of d (get root st) in
          let same : lenient_docs d st docs live ≡ live' = cc in
          subst (λ z. contains_bytes k z ≡ true) same (lenient_docs_grows docs live h))
        q

pub add_tree_grows :
    (d : Decoders) (st : Store) (strict : Bool) (k root : Bytes) (live live' : List Bytes)
    → (add_tree d root strict live st).0 ≡ ok live'
    → contains_bytes k live ≡ true
    → contains_bytes k live' ≡ true
unfolding add_tree
add_tree_grows d st strict k root live live' q h =
    if_intro
      (λ (x : Result ServerError (List Bytes) × Store).
        x.0 ≡ ok live' → contains_bytes k live' ≡ true)
      (is_empty root) _ _
      (λ b q'. let same : live ≡ live' = cc in subst (λ z. contains_bytes k z ≡ true) same h)
      (λ b q'.
        let walked : Store = index_tree d root st in
        add_root_grows d walked strict k root (index_entries root walked) (root ∷ live) live' q'
          (contains_tail k root live h))
      q
