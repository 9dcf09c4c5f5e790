-- ===== src/Examples/Drafts.antt =====
-- The theorem on the blobs of a new document at a concrete draft.
use remarkable_server.Base.{
  ℕ, zero, suc, ◌+◌, ◌%◌, ◌≡◌, refl, ◌==◌, if◌then◌else◌, Bool, true, not, ◌&&◌, none, some, [],
  ◌∷◌, length, Bytes, codes, All, if_true, arith,
}
use remarkable_server.Base.Utf8.{is_scalar}
use remarkable_server.Base.Result.{Result, ok, err}
use remarkable_server.Errors.{ServerError}
use remarkable_server.Storage.Root.{is_valid_hash}
use remarkable_server.Storage.Index.Parsed.{IsField}
use remarkable_server.Storage.Blobs.{Store}
use remarkable_server.Documents.{Entry}
use remarkable_server.Documents.ReadBack.{IsWritable, IsInline}
use remarkable_server.Documents.Parsed.{IsText}
use remarkable_server.Documents.Commit.{Crates}
use remarkable_server.Documents.Blobs.{Draft, leaf_entry, put_document}
use remarkable_server.Documents.Blobs.Complete.{leaves, IsComplete, put_document-IsComplete}

-- A hash that depends on the length alone: so many times a digit.
abbrev repeated : ℕ → ℕ → Bytes
repeated zero c = []
repeated (suc n) c = c ∷ repeated n c

abbrev all_scalar : Bytes → Bool
all_scalar [] = true
all_scalar (c ∷ cs) = is_scalar c && all_scalar cs

abbrev crates : Crates
crates = record {
  decoders = record {
    from_utf8 = λ bytes. if all_scalar bytes then some bytes else none;
    from_utf8_lossy = λ bytes. bytes;
  };
  into_bytes = λ text. text;
  sha256_hex = λ bytes. repeated 64 (0x30 + length bytes % 10);
  hex_decode = λ hash. some hash;
}

all_scalar-IsText : (s : Bytes) → IsText s → all_scalar s ≡ true
all_scalar-IsText [] h = refl
all_scalar-IsText (c ∷ cs) h =
    let rest : all_scalar cs ≡ true = all_scalar-IsText cs h.1 in ground (arith, h.0)

reencoded :
    (text : Bytes) → IsText text → crates.decoders.from_utf8 (crates.into_bytes text) ≡ some text
reencoded text h = if_true (all_scalar text) _ _ (all_scalar-IsText text h)

abbrev has_plain : Bytes → Bool
has_plain [] = true
has_plain (c ∷ cs) = (not (c == 0x3A) && (not (c == 0x0A) && is_scalar c)) && has_plain cs

plain-IsField : (s : Bytes) → has_plain s ≡ true → IsField s
plain-IsField [] h = tt
plain-IsField (c ∷ cs) h = (ground arith, plain-IsField cs (ground arith))

plain-IsInline : (s : Bytes) → has_plain s ≡ true → IsInline s
plain-IsInline [] h = tt
plain-IsInline (c ∷ cs) h = ((ground arith, ground arith), plain-IsInline cs (ground arith))

abbrev draft : Draft
draft = record {
  id = codes "d1";
  ext = codes "pdf";
  metadata = codes "{}";
  content = codes "{ }";
  file = codes "%PDF";
}

abbrev empty_store : Store
empty_store = record {
  disk = record {
    row = record { hash = []; generation = 0; schema_version = 3; previous_hash = [] };
    mirror = none;
  };
  files = λ hash. none;
  blobs = [];
  indexes = λ hash. none;
  versions = [];
}

leaves-IsWritable : All IsWritable (leaves crates draft)
unfolding leaves leaf_entry is_valid_hash
leaves-IsWritable = (
  (
    refl,
    refl,
    refl,
    plain-IsField (codes "0") refl,
    plain-IsField (codes "d1.metadata") refl,
    plain-IsInline (codes "0") refl,
    plain-IsInline (codes "d1.metadata") refl,
    omega arith,
    omega arith,
  ),
  (
    (
      refl,
      refl,
      refl,
      plain-IsField (codes "0") refl,
      plain-IsField (codes "d1.content") refl,
      plain-IsInline (codes "0") refl,
      plain-IsInline (codes "d1.content") refl,
      omega arith,
      omega arith,
    ),
    (
      (
        refl,
        refl,
        refl,
        plain-IsField (codes "0") refl,
        plain-IsField (codes "d1.pdf") refl,
        plain-IsInline (codes "0") refl,
        plain-IsInline (codes "d1.pdf") refl,
        omega arith,
        omega arith,
      ),
      tt,
    ),
  ),
)

unfoldable put_or_empty : Result ServerError (Entry × Store) → Entry × Store
put_or_empty (ok r) = r
put_or_empty (err e) = (leaf_entry crates [] [], empty_store)

put_document-IsComplete_example :
    IsComplete crates
      (leaves crates draft)
      (put_or_empty (put_document crates draft 60 empty_store)).0
      (put_or_empty (put_document crates draft 60 empty_store)).1
unfolding put_document put_or_empty
put_document-IsComplete_example =
    put_document-IsComplete crates reencoded draft 60 empty_store
      (put_or_empty (put_document crates draft 60 empty_store)) leaves-IsWritable refl
