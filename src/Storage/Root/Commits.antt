-- ===== src/Storage/Root/Commits.antt =====
-- src/storage.rs: sequences of root writes against a log of what was committed.
use remarkable_server.Base.{
  ℕ, ◌+◌, ◌^◌, ◌<◌, ◌≡◌, refl, ap, ◌∙◌, sym, ltb, if◌then◌else◌, Bool, Bool-cases, inl, inr, true,
  false, ◌||◌, Option, none, some, List, [], ◌∷◌, length, Bytes, arith, if_true, if_false,
}
use remarkable_server.Base.Result.{Result, ok, err}
use remarkable_server.Errors.{ServerError}
use remarkable_server.Storage.Root.{
  SyncRoot, RootRow, Disk, select_root, mirror_after, next, committed, differs, set_root_if,
}

-- A write of some process: the hash, what it expects, and whether the mirror can be written.
pub record Write : Type 0 where
  pub hash : Bytes
  pub expected : Option ℕ
  pub written : Bool

-- The generation that a write is answered with.
unfoldable pub answer_of : Result ServerError (SyncRoot × Disk) → Result ServerError ℕ
answer_of (ok r) = ok r.0.generation
answer_of (err e) = err e

unfoldable pub disk_of : Disk → Result ServerError (SyncRoot × Disk) → Disk
disk_of disk (ok r) = r.1
disk_of disk (err e) = disk

unfoldable pub write : Disk → Write → Result ServerError (SyncRoot × Disk)
unfolding set_root_if
write disk w = set_root_if w.written w.hash w.expected disk

-- The answers to the writes in their order.
unfoldable pub answers : Disk → List Write → List (Result ServerError ℕ)
unfolding write answer_of disk_of
answers disk [] = []
answers disk (w ∷ ws) = answer_of (write disk w) ∷ answers (disk_of disk (write disk w)) ws

unfoldable pub after_writes : Disk → List Write → Disk
unfolding write disk_of
after_writes disk [] = disk
after_writes disk (w ∷ ws) = after_writes (disk_of disk (write disk w)) ws

-- The specification's test: the write expects another generation than the one reached.
unfoldable pub is_stale : Option ℕ → ℕ → Bool
is_stale none reached = false
is_stale (some e) reached = ltb e reached || ltb reached e

differs-is_stale : (e : Option ℕ) (n : ℕ) → differs e n ≡ is_stale e n
unfolding differs is_stale
differs-is_stale none n = refl
differs-is_stale (some e) n = ground arith

-- The specification: a log of the hashes committed since the generation `base`, newest first.
unfoldable pub log_after : ℕ → List Bytes → List Write → List Bytes
unfolding is_stale
log_after base log [] = log
log_after base log (w ∷ ws) =
    log_after base (if is_stale w.expected (base + length log) then log else w.hash ∷ log) ws

unfoldable pub log_answers : ℕ → List Bytes → List Write → List (Result ServerError ℕ)
unfolding is_stale
log_answers base log [] = []
log_answers base log (w ∷ ws) =
    (if is_stale w.expected (base + length log)
      then err (ServerError.generation_mismatch (base + length log))
      else ok (base + length (w.hash ∷ log)))
    ∷ log_answers base (if is_stale w.expected (base + length log) then log else w.hash ∷ log) ws

-- The row that a log stands for, over the row `start`.
unfoldable pub row_of : RootRow → List Bytes → RootRow
row_of start [] = start
row_of start (h ∷ log) = record {
  hash = h;
  generation = start.generation + length (h ∷ log);
  schema_version = start.schema_version;
  previous_hash = (row_of start log).hash;
}

pub next_small : (n : ℕ) → n + 1 < 2 ^ 64 → next n ≡ n + 1
unfolding next
next_small n h = omega arith

row_of-generation :
    (start : RootRow) (log : List Bytes)
    → (row_of start log).generation ≡ start.generation + length log
unfolding row_of
row_of-generation start [] = omega arith
row_of-generation start (h ∷ log) = refl

row_of-schema_version :
    (start : RootRow) (log : List Bytes) → (row_of start log).schema_version ≡ start.schema_version
unfolding row_of
row_of-schema_version start [] = refl
row_of-schema_version start (h ∷ log) = refl

committed-row_of :
    (start : RootRow) (log : List Bytes) (h : Bytes)
    → start.generation + length log + 1 < 2 ^ 64
    → committed (row_of start log) h ≡ row_of start (h ∷ log)
unfolding committed row_of
committed-row_of start log h small =
    let e : next (row_of start log).generation ≡ start.generation + length (h ∷ log) =
      ap next (row_of-generation start log)
      ∙ next_small (start.generation + length log) small
      ∙ omega arith in
    ap {A = ℕ}
      (λ n. record {
        hash = h;
        generation = n;
        schema_version = (row_of start log).schema_version;
        previous_hash = (row_of start log).hash;
      })
      e
    ∙ ap {A = ℕ}
        (λ v. record {
          hash = h;
          generation = start.generation + length (h ∷ log);
          schema_version = v;
          previous_hash = (row_of start log).hash;
        })
        (row_of-schema_version start log)

module _ (start : RootRow) (log : List Bytes) (mirror : Option SyncRoot) (w : Write) where
  here : Disk
  here = record { row = row_of start log; mirror = mirror }

  now : ℕ
  now = start.generation + length log

  write_refused :
      differs w.expected now ≡ true → write here w ≡ err (ServerError.generation_mismatch now)
  unfolding write set_root_if here now
  write_refused d =
      let e : (row_of start log).generation ≡ start.generation + length log =
        row_of-generation start log in
      if_true _ _ _ (ap (differs w.expected) e ∙ d)
      ∙ ap (λ n. err (ServerError.generation_mismatch n)) e

  later : Disk
  later = record {
    row = row_of start (w.hash ∷ log);
    mirror = mirror_after w.written (select_root (row_of start (w.hash ∷ log))) mirror;
  }

  write_accepted :
      differs w.expected now ≡ false
      → now + 1 < 2 ^ 64
      → write here w ≡ ok (select_root (row_of start (w.hash ∷ log)), later)
  unfolding write set_root_if here now later
  write_accepted d small =
      if_false _ _ _ (ap (differs w.expected) (row_of-generation start log) ∙ d)
      ∙ ap {A = RootRow}
          (λ r. ok (
            select_root r,
            record { row = r; mirror = mirror_after w.written (select_root r) mirror },
          ))
          (committed-row_of start log w.hash small)

listed : RootRow → List Bytes → Write → List Write → Bool → List (Result ServerError ℕ)
listed start log w ws q =
    (if q
      then err (ServerError.generation_mismatch (start.generation + length log))
      else ok (start.generation + length (w.hash ∷ log)))
    ∷ log_answers start.generation (if q then log else w.hash ∷ log) ws

-- Sequences of writes, of whatever processes, answer and leave what the log does: a write is
-- accepted exactly if it expects nothing or the generation reached, it then appends its hash to the
-- log and is answered with the next generation, and a refused one is answered with the generation
-- reached and leaves the log. The row is the log's last two hashes and the number of generations,
-- as long as that stays below 2^64.
pub writes_refine :
    (start : RootRow) (log : List Bytes) (mirror : Option SyncRoot) (ws : List Write)
    → start.generation + length log + length ws < 2 ^ 64
    → (answers (record { row = row_of start log; mirror = mirror }) ws
        ≡ log_answers start.generation log ws)
      × ((after_writes (record { row = row_of start log; mirror = mirror }) ws).row
          ≡ row_of start (log_after start.generation log ws))
unfolding listed select_root row_of answers after_writes log_answers log_after here later now
    answer_of disk_of
writes_refine start log mirror [] small = (refl, refl)
writes_refine start log mirror (w ∷ ws) small =
    elim (Bool-cases (is_stale w.expected (start.generation + length log))) [
      | inl d ↦
          let rest = writes_refine start log mirror ws (omega arith) in
          let e =
            write_refused start log mirror w
              (differs-is_stale w.expected (start.generation + length log) ∙ d) in
          (
            ap (λ x. answer_of x ∷ answers (disk_of (here start log mirror w) x) ws) e
                ∙ ap
                    (λ z. err (ServerError.generation_mismatch (start.generation + length log)) ∷ z)
                    rest.0
                ∙ sym (ap (listed start log w ws) d),
            ap (λ x. (after_writes (disk_of (here start log mirror w) x) ws).row) e
                ∙ rest.1
                ∙ sym (
                    ap
                      (λ q.
                        row_of start
                          (log_after start.generation (if q then log else w.hash ∷ log) ws))
                      d),
          )
      | inr d ↦
          let rest =
            writes_refine start (w.hash ∷ log) (later start log mirror w).mirror ws (omega arith) in
          let e =
            write_accepted start log mirror w
              (differs-is_stale w.expected (start.generation + length log) ∙ d) (omega arith) in
          (
            ap (λ x. answer_of x ∷ answers (disk_of (here start log mirror w) x) ws) e
                ∙ ap (λ z. ok (start.generation + length (w.hash ∷ log)) ∷ z) rest.0
                ∙ sym (ap (listed start log w ws) d),
            ap (λ x. (after_writes (disk_of (here start log mirror w) x) ws).row) e
                ∙ rest.1
                ∙ sym (
                    ap
                      (λ q.
                        row_of start
                          (log_after start.generation (if q then log else w.hash ∷ log) ws))
                      d),
          )
    ]
