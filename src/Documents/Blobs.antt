-- ===== src/Documents/Blobs.antt =====
-- src/documents.rs: the blobs of a new document. The text of its two JSON files, its id and its file
-- are arguments.
pub mod Complete
use remarkable_server.Base.{ℕ, ◌+◌, List, [], ◌∷◌, ◌++◌, length, Bytes, codes}
use remarkable_server.Base.Result.{Result, ok, err, ◌>>=◌}
use remarkable_server.Errors.{ServerError}
use remarkable_server.Storage.Blobs.{Store, put_with_hash}
use remarkable_server.Documents.{Entry, render_index, sort_by_name}
use remarkable_server.Documents.Commit.{
  Crates, Rival, Answer, index_hash, current_root_entries, commit_to_root,
}

unfoldable pub leaf_entry : Crates → Bytes → Bytes → Entry
leaf_entry crates name bytes = record {
  hash = crates.sha256_hex bytes;
  kind = codes "0";
  name = name;
  subfiles = 0;
  size = length bytes;
}

-- `put_leaf`
unfoldable pub put_leaf : Crates → Bytes → Bytes → ℕ → Store → Result ServerError (Entry × Store)
unfolding put_with_hash leaf_entry
put_leaf crates name bytes now st =
    put_with_hash bytes (crates.sha256_hex bytes) name now st >>= λ st'.
    ok (leaf_entry crates name bytes, st')

-- What a new document is made of.
pub record Draft : Type 0 where
  pub id : Bytes
  pub ext : Bytes
  pub metadata : Bytes
  pub content : Bytes
  pub file : Bytes

unfoldable pub total_size : List Entry → ℕ
total_size [] = 0
total_size (e ∷ es) = e.size + total_size es

unfoldable pub doc_entry : Bytes → Bytes → List Entry → Entry
unfolding total_size
doc_entry id hash files = record {
  hash = hash;
  kind = codes "80000000";
  name = id;
  subfiles = length files;
  size = total_size files;
}

-- The index of the files that are stored.
unfoldable pub put_index :
    Crates → Bytes → ℕ → List Entry → Store → Result ServerError (Entry × Store)
unfolding index_hash put_with_hash render_index doc_entry
put_index crates id now files st = index_hash crates files >>= λ hash.
    (put_with_hash (crates.into_bytes (render_index files)) hash (id ++ codes ".docSchema") now st
      >>= λ st'. ok (doc_entry id hash files, st'))

-- `put_document`, of a file in memory.
unfoldable pub put_document : Crates → Draft → ℕ → Store → Result ServerError (Entry × Store)
unfolding put_leaf put_index sort_by_name
put_document crates draft now st =
    put_leaf crates (draft.id ++ codes ".metadata") draft.metadata now st >>= λ a.
    (put_leaf crates (draft.id ++ codes ".content") draft.content now a.1 >>= λ b.
    (put_leaf crates (draft.id ++ (codes "." ++ draft.ext)) draft.file now b.1 >>= λ c.
    put_index crates draft.id now (sort_by_name (a.0 ∷ b.0 ∷ c.0 ∷ [])) c.1))

unfoldable pub committed_document :
    Crates → (ℕ → Rival) → Store → Result ServerError (Entry × Store) → Answer
unfolding commit_to_root
committed_document crates rivals st (ok r) = commit_to_root crates rivals (r.0 ∷ []) r.1
committed_document crates rivals st (err e) = (err e, st)

unfoldable pub if_readable :
    Crates → (ℕ → Rival) → Draft → ℕ → Store → Result ServerError (Unit {0}) → Answer
unfolding committed_document put_document
if_readable crates rivals draft now st (ok _) =
    committed_document crates rivals st (put_document crates draft now st)
if_readable crates rivals draft now st (err e) = (err e, st)

-- `create_document_from`, of a file in memory: a root that cannot be read is refused before a blob is
-- written.
unfoldable pub create_document : Crates → (ℕ → Rival) → Draft → ℕ → Store → Answer
unfolding if_readable current_root_entries
create_document crates rivals draft now st =
    if_readable crates rivals draft now st (current_root_entries crates st >>= λ _. ok tt)
