-- ===== src/Storage/Root/Moved.antt =====
-- src/storage.rs, `set_root_if`: a root whose generation stands still stands still itself.
use remarkable_server.Base.{
  ℕ, ◌+◌, ◌^◌, ◌≤◌, ◌<◌, ◌≡◌, ◌⊎◌, inl, inr, refl, ap, ◌∙◌, List, [], ◌∷◌, length, if_intro, arith,
  ==_iff, ◌==◌, true, false, some,
}
use remarkable_server.Storage.Root.{RootRow, Disk, next, committed, differs, set_root_if}
use remarkable_server.Storage.Root.Commits.{Write, write, disk_of, after_writes, next_small}

-- The second row is the first, or a later one.
abbrev pub Moved : RootRow → RootRow → Type 0
Moved row row' = (row' ≡ row) ⊎ (row.generation < row'.generation)

write-Moved :
    (disk : Disk) (w : Write)
    → disk.row.generation + 1 < 2 ^ 64
    → Moved disk.row (disk_of disk (write disk w)).row
      × ((disk_of disk (write disk w)).row.generation ≤ disk.row.generation + 1)
unfolding write disk_of set_root_if committed
write-Moved disk w small =
    let e : next disk.row.generation ≡ disk.row.generation + 1 =
      next_small disk.row.generation small in
    if_intro
      (λ x.
        Moved disk.row (disk_of disk x).row
        × ((disk_of disk x).row.generation ≤ disk.row.generation + 1))
      (differs w.expected disk.row.generation) _ _ (λ d. (inl refl, omega arith))
      (λ d. (inr (omega arith), omega arith))

pub after_writes-Moved :
    (disk : Disk) (ws : List Write)
    → disk.row.generation + length ws < 2 ^ 64
    → Moved disk.row (after_writes disk ws).row
      × ((after_writes disk ws).row.generation ≤ disk.row.generation + length ws)
unfolding after_writes
after_writes-Moved disk [] small = (inl refl, omega arith)
after_writes-Moved disk (w ∷ ws) small =
    let h = write-Moved disk w (omega arith) in
    let rest = after_writes-Moved (disk_of disk (write disk w)) ws (omega (arith, h.1)) in
    (moved h.0 rest.0, omega (arith, h.1, rest.1))
  where
    moved : {a b c : RootRow} → Moved a b → Moved b c → Moved a c
    moved (inl e) (inl e') = inl (e' ∙ e)
    moved {a} {b} {c} (inl e) (inr l) =
        let g : b.generation ≡ a.generation = ap (λ r. r.generation) e in inr (omega arith)
    moved {a} {b} {c} (inr l) (inl e) =
        let g : c.generation ≡ b.generation = ap (λ r. r.generation) e in inr (omega arith)
    moved (inr l) (inr l') = inr (omega arith)

lt_irrefl : (n : ℕ) → n < n → ⊥
lt_irrefl n h = omega arith

-- After any writes, a row whose generation is what was read is the row that was read.
pub after_writes_still :
    (disk : Disk) (ws : List Write)
    → disk.row.generation + length ws < 2 ^ 64
    → differs (some disk.row.generation) (after_writes disk ws).row.generation ≡ false
    → (after_writes disk ws).row ≡ disk.row
unfolding differs
after_writes_still disk ws small same = still (after_writes-Moved disk ws small).0
  where
    still : Moved disk.row (after_writes disk ws).row → (after_writes disk ws).row ≡ disk.row
    still (inl e) = e
    still (inr l) =
        let no : (disk.row.generation == (after_writes disk ws).row.generation) ≡ true =
          ground arith in
        let e : disk.row.generation ≡ (after_writes disk ws).row.generation =
          (==_iff disk.row.generation (after_writes disk ws).row.generation).0 no in
        elim (lt_irrefl (after_writes disk ws).row.generation (omega arith)) [ ]
