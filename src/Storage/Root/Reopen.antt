-- ===== src/Storage/Root/Reopen.antt =====
-- src/storage.rs: opening a directory after writes, crashes between them included.
use remarkable_server.Base.{
  ◌+◌, ◌^◌, ◌≤◌, ◌<◌, ◌≡◌, ◌⊎◌, refl, ap, subst, ◌==◌, ltb, Bool, inl, inr, true, false, not, ◌&&◌,
  Option, none, some, List, [], ◌∷◌, length, Bytes, bytes_eq, bytes_eq_iff, arith, if_intro, OnSome,
}
use remarkable_server.Base.Result.{Result, ok, ◌>>=◌}
use remarkable_server.Errors.{ServerError}
use remarkable_server.Storage.Root.{
  SyncRoot, RootRow, Disk, select_root, load_or_import_root, adopted, adopt_newer_root_json,
  open_root, mirror_after, next, committed, differs, set_root_if,
}
use remarkable_server.Storage.Root.Commits.{Write, write, disk_of, after_writes, next_small}

-- The mirror is behind the row, or shows the row's root.
abbrev pub Agrees : RootRow → SyncRoot → Type 0
Agrees row mirror =
    (mirror.generation < row.generation)
    ⊎ ((mirror.generation ≡ row.generation) × (mirror.hash ≡ row.hash))

abbrev pub IsConsistent : Disk → Type 0
IsConsistent disk = OnSome (Agrees disk.row) disk.mirror

adopt-Agrees :
    (row : RootRow) (mirror : Option SyncRoot)
    → OnSome (Agrees row) mirror
    → adopt_newer_root_json row mirror ≡ ok row
unfolding adopt_newer_root_json
adopt-Agrees row none h = refl
adopt-Agrees row (some m) (inl le) = ground (arith, bytes_eq_iff m.hash row.hash)
adopt-Agrees row (some m) (inr (e, h)) = ground (arith, bytes_eq_iff m.hash row.hash)

mirror_after-Agrees :
    (written : Bool) (row : RootRow) (hash : Bytes) (mirror : Option SyncRoot)
    → row.generation + 1 < 2 ^ 64
    → OnSome (Agrees row) mirror
    → OnSome
        (Agrees (committed row hash))
        (mirror_after written (select_root (committed row hash)) mirror)
unfolding mirror_after select_root committed
mirror_after-Agrees true row hash none small h = inr (refl, refl)
mirror_after-Agrees false row hash none small h = tt
mirror_after-Agrees written row hash (some m) small h =
    let e : next row.generation ≡ row.generation + 1 = next_small row.generation small in
    let behind : m.generation ≤ row.generation = elim h [
      | inl le ↦ omega arith
      | inr q ↦ omega (arith, q.0)
    ] in
    if_intro (OnSome (Agrees (committed row hash))) (ltb (next row.generation) m.generation) _ _
      (λ h'. inl (ground arith))
      λ h'.
        if_intro (OnSome (Agrees (committed row hash))) written _ _ (λ q. inr (refl, refl))
          λ q. inl (omega arith)

write-IsConsistent :
    (disk : Disk) (w : Write)
    → disk.row.generation + 1 < 2 ^ 64
    → IsConsistent disk
    → IsConsistent (disk_of disk (write disk w))
unfolding write disk_of set_root_if
write-IsConsistent disk w small h =
    if_intro (λ x. IsConsistent (disk_of disk x)) (differs w.expected disk.row.generation) _ _
      (λ d. h) λ d. mirror_after-Agrees w.written disk.row w.hash disk.mirror small h

write_generation :
    (disk : Disk) (w : Write)
    → disk.row.generation + 1 < 2 ^ 64
    → (disk_of disk (write disk w)).row.generation ≤ disk.row.generation + 1
unfolding write disk_of set_root_if committed
write_generation disk w small =
    if_intro (λ x. (disk_of disk x).row.generation ≤ disk.row.generation + 1)
      (differs w.expected disk.row.generation) _ _ (λ d. omega arith)
      λ d. omega (arith, next_small disk.row.generation small)

pub after_writes-IsConsistent :
    (disk : Disk) (ws : List Write)
    → disk.row.generation + length ws < 2 ^ 64
    → IsConsistent disk
    → IsConsistent (after_writes disk ws)
unfolding after_writes
after_writes-IsConsistent disk [] small h = h
after_writes-IsConsistent disk (w ∷ ws) small h =
    after_writes-IsConsistent (disk_of disk (write disk w)) ws
      (omega (arith, write_generation disk w (omega arith)))
      (write-IsConsistent disk w (omega arith) h)

-- From a directory whose mirror is absent, behind the row, or shows its root, and as long as the
-- generation stays below 2^64: after any writes, whichever of them failed to replace the mirror,
-- the directory opens again and serves the row that the writes left, changing nothing.
pub reopen_after_writes :
    (disk : Disk) (ws : List Write)
    → disk.row.generation + length ws < 2 ^ 64
    → IsConsistent disk
    → open_root (some (after_writes disk ws).row) (after_writes disk ws).mirror
      ≡ ok (after_writes disk ws)
unfolding open_root load_or_import_root
reopen_after_writes disk ws small h =
    ap {A = Result ServerError RootRow}
      (λ x. x >>= λ row'. ok (record { row = row'; mirror = (after_writes disk ws).mirror }))
      (adopt-Agrees (after_writes disk ws).row (after_writes disk ws).mirror
        (after_writes-IsConsistent disk ws small h))

-- Opening never goes back: the root served is of a generation no older than the row's and than the
-- mirror's, and where it opens with a row and a mirror of one generation they name one hash, or the
-- mirror names none.
pub open_root_newest :
    (row : RootRow) (mirror : SyncRoot) (disk : Disk)
    → open_root (some row) (some mirror) ≡ ok disk
    → (row.generation ≤ disk.row.generation) × (mirror.generation ≤ disk.row.generation)
unfolding open_root load_or_import_root adopt_newer_root_json adopted
open_root_newest row mirror disk h =
    if_intro opens (ltb row.generation mirror.generation) _ _
      (λ lt e. newer (adopted row mirror) (ground arith) cc)
      (λ ge.
        if_intro opens
          (mirror.generation == row.generation
            && (not (bytes_eq mirror.hash row.hash) && not (bytes_eq mirror.hash [])))
          _ _ (λ d e. cc) λ d e. newer row (ground arith) cc)
      h
  where
    Newest : RootRow → Type 0
    Newest r = (row.generation ≤ r.generation) × (mirror.generation ≤ r.generation)

    opens : Result ServerError RootRow → Type 0
    opens x =
        ◌≡◌ {A = Result ServerError Disk}
          (x >>= λ row'. ok (record { row = row'; mirror = some mirror })) (ok disk)
        → Newest disk.row

    newer : (r : RootRow) → Newest r → r ≡ disk.row → Newest disk.row
    newer r n e = subst Newest e n
