-- ===== src/Examples/Papers.antt =====
-- The theorems on new documents at a concrete store: the root that is read is moved by another client
-- in the first round, and the second round adds to the root that it left.
use remarkable_server.Base.{
  ℕ, ◌<◌, ◌≡◌, refl, ◌==◌, if◌then◌else◌, Bool, true, false, ◌&&◌, none, some, List, [], ◌∷◌, Bytes,
  codes, All, if_intro, if_true, arith, subst, not, is_empty,
}
use remarkable_server.Base.Utf8.{is_scalar}
use remarkable_server.Base.Result.{ok}
use remarkable_server.Errors.{ServerError}
use remarkable_server.Storage.Root.{is_valid_hash, select_root, next}
use remarkable_server.Storage.Root.Commits.{after_writes}
use remarkable_server.Storage.Index.{parse_index}
use remarkable_server.Storage.Blobs.{File, Store, put_at}
use remarkable_server.Documents.{Entry, parse_root, render_index}
use remarkable_server.Storage.Index.Parsed.{IsField}
use remarkable_server.Documents.ReadBack.{IsWritable, IsInline, parse_root-render_index}
use remarkable_server.Documents.Parsed.{IsText}
use remarkable_server.Documents.Agree.{parse_index-parse_root}
use remarkable_server.Documents.Commit.{
  Crates, Rival, current_root_entries, root_retries, commit_to_root,
}
use remarkable_server.Documents.Committed.{Adds}
use remarkable_server.Documents.Rounds.{others, total, read_by}
use remarkable_server.Documents.Adding.{
  commit_to_root-Adds, commit_to_root_refused, undisturbed_commit,
}

abbrev hash_a : Bytes
hash_a = codes "aaaaaaaaaaaaaaaaaaaaaaaaaaaaaaaaaaaaaaaaaaaaaaaaaaaaaaaaaaaaaaaa"

abbrev hash_b : Bytes
hash_b = codes "bbbbbbbbbbbbbbbbbbbbbbbbbbbbbbbbbbbbbbbbbbbbbbbbbbbbbbbbbbbbbbbb"

abbrev hash_c : Bytes
hash_c = codes "cccccccccccccccccccccccccccccccccccccccccccccccccccccccccccccccc"

hash_c_valid : is_valid_hash hash_c ≡ true
unfolding is_valid_hash
hash_c_valid = refl

abbrev entry_of : Bytes → Entry
entry_of name = record {
  hash = hash_c;
  kind = codes "80000000";
  name = name;
  subfiles = 3;
  size = 1024;
}

abbrev paper : Entry
paper = entry_of (codes "paper")

abbrev doc : Entry
doc = entry_of (codes "doc")

abbrev has_plain : Bytes → Bool
has_plain [] = true
has_plain (c ∷ cs) = (not (c == 0x3A) && (not (c == 0x0A) && is_scalar c)) && has_plain cs

plain-IsField : (s : Bytes) → has_plain s ≡ true → IsField s
plain-IsField [] h = tt
plain-IsField (c ∷ cs) h = (ground arith, plain-IsField cs (ground arith))

plain-IsInline : (s : Bytes) → has_plain s ≡ true → IsInline s
plain-IsInline [] h = tt
plain-IsInline (c ∷ cs) h = ((ground arith, ground arith), plain-IsInline cs (ground arith))

abbrev two : List Entry
two = paper ∷ doc ∷ []

writable :
    (name : Bytes) → is_empty name ≡ false → has_plain name ≡ true → IsWritable (entry_of name)
unfolding is_valid_hash
writable name some_name plain = (
  refl,
  refl,
  some_name,
  plain-IsField (codes "80000000") refl,
  plain-IsField name plain,
  plain-IsInline (codes "80000000") refl,
  plain-IsInline name plain,
  omega arith,
  omega arith,
)

two-IsWritable : All IsWritable two
two-IsWritable = (writable (codes "paper") refl refl, (writable (codes "doc") refl refl, tt))

parse_root-render_index_example : parse_root (some (render_index two)) ≡ ok two
parse_root-render_index_example = parse_root-render_index two two-IsWritable

parse_index-parse_root_example : parse_index (render_index two) ≡ ok (codes "3", two)
unfolding parse_root render_index
parse_index-parse_root_example = parse_index-parse_root (render_index two) two refl

abbrev all_scalar : Bytes → Bool
all_scalar [] = true
all_scalar (c ∷ cs) = is_scalar c && all_scalar cs

abbrev crates : Crates
crates = record {
  decoders = record {
    from_utf8 = λ bytes. if all_scalar bytes then some bytes else none;
    from_utf8_lossy = λ bytes. bytes;
  };
  into_bytes = λ text. text;
  sha256_hex = λ bytes. hash_c;
  hex_decode = λ hash. some hash;
}

scalars : (s : Bytes) → all_scalar s ≡ true → IsText s
scalars [] h = tt
scalars (c ∷ cs) h = (ground arith, scalars cs (ground arith))

all_scalar-IsText : (s : Bytes) → IsText s → all_scalar s ≡ true
all_scalar-IsText [] h = refl
all_scalar-IsText (c ∷ cs) h =
    let rest : all_scalar cs ≡ true = all_scalar-IsText cs h.1 in ground (arith, h.0)

decoded : (bytes text : Bytes) → crates.decoders.from_utf8 bytes ≡ some text → IsText text
decoded bytes text =
    if_intro (λ x. x ≡ some text → IsText text) (all_scalar bytes) _ _
      (λ b q. let same : bytes ≡ text = cc in subst IsText same (scalars bytes b)) (λ b q. cc)

reencoded :
    (text : Bytes) → IsText text → crates.decoders.from_utf8 (crates.into_bytes text) ≡ some text
reencoded text h = if_true (all_scalar text) _ _ (all_scalar-IsText text h)

abbrev root_a : File
unfolding render_index
root_a = record { bytes = render_index (doc ∷ []); modified = 5 }

abbrev start : Store
unfolding put_at
start = record {
  disk = record {
    row = record { hash = hash_a; generation = 7; schema_version = 3; previous_hash = [] };
    mirror = none;
  };
  files = put_at hash_a root_a (λ hash. none);
  blobs = [];
  indexes = λ hash. none;
  versions = [];
}

-- In the first round, of five that are left, a root `hash_b` is stored and committed.
abbrev rivals : ℕ → Rival
unfolding render_index
rivals left =
    if left == 4
    then record {
      uploads = record { bytes = render_index two; hash = hash_b; filename = [] } ∷ [];
      writes = record { hash = hash_b; expected = some 7; written = true } ∷ [];
      now = 100;
      written = true;
    }
    else record { uploads = []; writes = []; now = 101; written = false }

abbrev added : List Entry
added = entry_of (codes "new") ∷ []

added-IsWritable : All IsWritable added
added-IsWritable = (writable (codes "new") refl refl, tt)

abbrev added_to : Store
unfolding commit_to_root
added_to = (commit_to_root crates rivals added start).1

commit_to_root-Adds_example :
    (k : ℕ) × (k < root_retries)
    × ((read_by crates rivals added root_retries k start).disk
        ≡ after_writes start.disk (others rivals root_retries k))
    × Adds crates added (read_by crates rivals added root_retries k start) added_to 9
unfolding commit_to_root total
commit_to_root-Adds_example =
    commit_to_root-Adds crates rivals added start added_to 9 decoded reencoded added-IsWritable
      (omega arith) refl

-- A store whose root is not there.
abbrev rootless : Store
rootless = record start { files = λ hash. none }

abbrev after_refusal : Store
unfolding commit_to_root
after_refusal = (commit_to_root crates rivals added rootless).1

commit_to_root_refused_example :
    (k : ℕ) × (after_refusal.disk ≡ after_writes rootless.disk (others rivals root_retries k))
unfolding commit_to_root
commit_to_root_refused_example =
    commit_to_root_refused crates rivals added rootless after_refusal (ServerError.not_found hash_a)
      refl

abbrev nobody : ℕ → Rival
nobody left = record { uploads = []; writes = []; now = 50; written = true }

undisturbed_commit_example :
    (after' : Store) × (commit_to_root crates nobody added start ≡ (ok (next 7), after'))
unfolding current_root_entries select_root start root_a
undisturbed_commit_example =
    undisturbed_commit crates nobody added (doc ∷ []) start decoded reencoded
      (λ hash h. (hash, refl)) (λ bytes. hash_c_valid) added-IsWritable refl refl
