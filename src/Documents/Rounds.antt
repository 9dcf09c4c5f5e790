-- ===== src/Documents/Rounds.antt =====
-- src/documents.rs, `commit_to_root`: its rounds, against the writes of the others.
use remarkable_server.Base.{
  ℕ, zero, suc, ◌+◌, ◌^◌, ◌<◌, ◌≡◌, ◌⊎◌, inl, inr, refl, ap, ◌∙◌, sym, subst, not, some, List, [],
  ◌∷◌, ◌++◌, length, Bytes, codes, All, if_intro, arith,
}
use remarkable_server.Base.Result.{Result, ok, err}
use remarkable_server.Errors.{ServerError}
use remarkable_server.Storage.Root.{SyncRoot, Disk, is_valid_hash}
use remarkable_server.Storage.Root.Commits.{Write, write, disk_of, after_writes}
use remarkable_server.Storage.Root.Moved.{after_writes-Moved}
use remarkable_server.Storage.Blobs.{Store, stored, put_with_hash}
use remarkable_server.Storage.Tree.{commit_root}
use remarkable_server.Documents.{Entry, render_index, sort_by_name}
use remarkable_server.Documents.ReadBack.{IsWritable}
use remarkable_server.Documents.Parsed.{IsText}
use remarkable_server.Documents.Commit.{
  Crates, Rival, upload_all, index_hash, current_root_entries, Answer, landed, failed, set_step,
  put_step, hash_step, read_step, attempt, retried, commit_rounds,
}
use remarkable_server.Documents.Committed.{Adds, upload_all-disk, attempt-Adds}

-- The writes of the others in the first rounds of so many that are left.
unfoldable pub others : (ℕ → Rival) → ℕ → ℕ → List Write
others rivals (suc rounds) (suc k) = (rivals rounds).writes ++ others rivals rounds k
others rivals _ _ = []

others_none : (rivals : ℕ → Rival) (rounds : ℕ) → others rivals rounds 0 ≡ []
unfolding others
others_none rivals zero = refl
others_none rivals (suc rounds) = refl

-- The store that a round reads: the first reads the store that the commit begins with, and each
-- later one what the round before it leaves.
unfoldable pub read_by : Crates → (ℕ → Rival) → List Entry → ℕ → ℕ → Store → Store
unfolding attempt
read_by crates rivals new (suc rounds) (suc k) st =
    read_by crates rivals new rounds k (attempt crates (rivals rounds) new st).1
read_by crates rivals new _ _ st = st

-- How many writes the others make in all the rounds.
unfoldable pub total : (ℕ → Rival) → ℕ → ℕ
total rivals zero = 0
total rivals (suc rounds) = length (rivals rounds).writes + total rivals rounds

after_writes-append :
    (disk : Disk) (ws vs : List Write)
    → after_writes disk (ws ++ vs) ≡ after_writes (after_writes disk ws) vs
unfolding after_writes
after_writes-append disk [] vs = refl
after_writes-append disk (w ∷ ws) vs = after_writes-append (disk_of disk (write disk w)) ws vs

put_with_hash-disk :
    (bytes hash filename : Bytes) (now : ℕ) (st st' : Store)
    → put_with_hash bytes hash filename now st ≡ ok st'
    → st'.disk ≡ st.disk
unfolding put_with_hash stored
put_with_hash-disk bytes hash filename now st st' =
    if_intro (λ x. x ≡ ok st' → st'.disk ≡ st.disk) (not (is_valid_hash hash)) _ _ (λ b q. cc)
      (λ b q. let s : stored bytes hash filename now st ≡ st' = cc in ap (λ z. z.disk) (sym s))

-- The second disk is what the others' writes make of the first.
abbrev Spared : Rival → Disk → Disk → Type 0
Spared rival disk disk' = disk' ≡ after_writes disk rival.writes

module _ (crates : Crates) (rival : Rival) (new : List Entry) (e : ServerError)
    (after : Store) where
  set_step-Spared :
      (hash : Bytes) (generation : ℕ) (st : Store)
      → set_step crates.decoders rival hash generation st ≡ (err e, after)
      → Spared rival st.disk after.disk
  unfolding set_step landed
  set_step-Spared hash generation st = by_result (
      commit_root crates.decoders rival.written hash (some generation)
        (record st { disk = after_writes st.disk rival.writes }))
    where
      by_result :
          (r : Result ServerError (SyncRoot × Store))
          → landed (record st { disk = after_writes st.disk rival.writes }) r ≡ (err e, after)
          → Spared rival st.disk after.disk
      by_result (ok r) q = cc
      by_result (err x) q = ap (λ z. z.1.disk) (sym q)

  put_step-Spared :
      (hash : Bytes) (generation : ℕ) (st : Store) (r : Result ServerError Store)
      → ((st' : Store) → r ≡ ok st' → st'.disk ≡ st.disk)
      → put_step crates.decoders rival hash generation st r ≡ (err e, after)
      → Spared rival st.disk after.disk
  unfolding put_step failed
  put_step-Spared hash generation st (err x) h q = ap (λ z. z.1.disk) (sym q)
  put_step-Spared hash generation st (ok st') h q =
      subst (λ d. Spared rival d after.disk) (h st' refl) (set_step-Spared hash generation st' q)

  hash_step-Spared :
      (entries : List Entry) (generation : ℕ) (st : Store) (r : Result ServerError Bytes)
      → hash_step crates rival entries generation st r ≡ (err e, after)
      → Spared rival st.disk after.disk
  unfolding hash_step failed
  hash_step-Spared entries generation st (err x) q = ap (λ z. z.1.disk) (sym q)
  hash_step-Spared entries generation st (ok hash) q =
      put_step-Spared hash generation st _
        (put_with_hash-disk (crates.into_bytes (render_index entries)) hash (codes "root.docSchema")
          rival.now st)
        q

  read_step-Spared :
      (st : Store) (r : Result ServerError (SyncRoot × List Entry))
      → read_step crates rival new st r ≡ (err e, after)
      → Spared rival st.disk after.disk
  unfolding read_step failed
  read_step-Spared st (err x) q = ap (λ z. z.1.disk) (sym q)
  read_step-Spared st (ok (root, old)) q =
      hash_step-Spared (sort_by_name (old ++ new)) root.generation st
        (index_hash crates (sort_by_name (old ++ new))) q

  attempt-Spared :
      (st : Store) → attempt crates rival new st ≡ (err e, after) → Spared rival st.disk after.disk
  unfolding attempt
  attempt-Spared st q =
      subst (λ d. Spared rival d after.disk) (upload_all-disk rival.now rival.uploads st)
        (read_step-Spared (upload_all rival.now rival.uploads st) (current_root_entries crates st)
          q)

retried-cases :
    (a : Answer) (again : Store → Answer) (r : Answer)
    → retried a again ≡ r
    → (a ≡ r) ⊎ ((e : ServerError) × (st : Store) × (a ≡ (err e, st)) × (again st ≡ r))
unfolding retried
retried-cases (ok g, st) again r q = inl q
retried-cases (err (ServerError.generation_mismatch g), st) again r q =
    inr (ServerError.generation_mismatch g, st, refl, q)
retried-cases (err e, st) again r q = inl q

module _ (crates : Crates) (rivals : ℕ → Rival) (new : List Entry) where
  -- What a refused round leaves for the rounds after it.
  room_left :
      (rounds : ℕ) (st st' : Store)
      → Spared (rivals rounds) st.disk st'.disk
      → st.disk.row.generation + total rivals (suc rounds) + 1 < 2 ^ 64
      → st'.disk.row.generation + total rivals rounds + 1 < 2 ^ 64
  unfolding total
  room_left rounds st st' sp small =
      let e : st'.disk.row.generation
          ≡ (after_writes st.disk (rivals rounds).writes).row.generation =
        ap (λ d. d.row.generation) sp in
      omega (arith, (after_writes-Moved st.disk (rivals rounds).writes (omega arith)).1)

  shifted :
      (rounds k : ℕ) (disk disk' : Disk)
      → Spared (rivals rounds) disk disk'
      → after_writes disk' (others rivals rounds k)
        ≡ after_writes disk (others rivals (suc rounds) (suc k))
  unfolding others
  shifted rounds k disk disk' sp =
      ap (λ d. after_writes d (others rivals rounds k)) sp
      ∙ sym (after_writes-append disk (rivals rounds).writes (others rivals rounds k))

  module _
      (decoded : (bytes text : Bytes) → crates.decoders.from_utf8 bytes ≡ some text → IsText text)
      (reencoded : (text : Bytes)
        → IsText text
        → crates.decoders.from_utf8 (crates.into_bytes text) ≡ some text)
      (h : All IsWritable new) where
    pub rounds_Adds :
        (rounds : ℕ) (st after : Store) (generation : ℕ)
        → st.disk.row.generation + total rivals rounds + 1 < 2 ^ 64
        → commit_rounds crates rivals new rounds st ≡ (ok generation, after)
        → (k : ℕ) × (k < rounds)
          × ((read_by crates rivals new rounds k st).disk
              ≡ after_writes st.disk (others rivals rounds k))
          × Adds crates new (read_by crates rivals new rounds k st) after generation
    unfolding commit_rounds others after_writes total read_by
    rounds_Adds zero st after generation small q = cc
    rounds_Adds (suc rounds) st after generation small q =
        elim (retried-cases (attempt crates (rivals rounds) new st)
          (commit_rounds crates rivals new rounds) (ok generation, after) q) [
            | inl e ↦ (
              0,
              omega arith,
              refl,
              attempt-Adds crates decoded reencoded (rivals rounds) new st after generation h
                  (omega arith) e,
            )
            | inr (x, st', e, q') ↦
                let sp = attempt-Spared crates (rivals rounds) new x st' st e in
                let rest =
                  rounds_Adds rounds st' after generation (room_left rounds st st' sp small) q' in
                let same : read_by crates rivals new rounds rest.0 st'
                    ≡ read_by crates rivals new (suc rounds) (suc rest.0) st =
                  ap (λ (a : Answer). read_by crates rivals new rounds rest.0 a.1) (sym e) in
                (
                  suc rest.0,
                  omega (arith, rest.1),
                  ap (λ z. z.disk) (sym same) ∙ rest.2 ∙ shifted rounds rest.0 st.disk st'.disk sp,
                  subst (λ z. Adds crates new z after generation) same rest.3,
                )
          ]

  pub rounds_refused :
      (rounds : ℕ) (st after : Store) (e : ServerError)
      → commit_rounds crates rivals new rounds st ≡ (err e, after)
      → (k : ℕ) × (after.disk ≡ after_writes st.disk (others rivals rounds k))
  unfolding commit_rounds others after_writes
  rounds_refused zero st after e q = (0, ap (λ z. z.1.disk) (sym q))
  rounds_refused (suc rounds) st after e q =
      elim (retried-cases (attempt crates (rivals rounds) new st)
        (commit_rounds crates rivals new rounds) (err e, after) q) [
          | inl e' ↦ (
            1,
            attempt-Spared crates (rivals rounds) new e after st e'
                ∙ ap (after_writes (after_writes st.disk (rivals rounds).writes))
                    (sym (others_none rivals rounds))
                ∙ shifted rounds 0 st.disk (after_writes st.disk (rivals rounds).writes) refl,
          )
          | inr (x, st', e', q') ↦
              let sp = attempt-Spared crates (rivals rounds) new x st' st e' in
              let rest = rounds_refused rounds st' after e q' in
              (suc rest.0, rest.1 ∙ shifted rounds rest.0 st.disk st'.disk sp)
        ]
