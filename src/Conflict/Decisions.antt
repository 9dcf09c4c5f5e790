-- ===== src/Conflict/Decisions.antt =====
-- src/integrations/conflict.rs: when there is a conflict, which side a resolution keeps, and what
-- a merge keeps.
use remarkable_server.Base.{
  ℕ, ◌≡◌, ◌≢◌, refl, sym, subst, inl, inr, ◌∙◌, if◌then◌else◌, Bool, true, false, not, ◌&&◌, ◌||◌,
  Option, none, some, Bytes, bytes_eq_iff, bytes_eq_refl, arith, Bool-cases, if_true, if_false,
}
use remarkable_server.Conflict.{
  ℤ, pos, negsuc, lt_int, CloudFile, Conflict, use_local, use_cloud, keep_both, both_modified,
  local_deleted_cloud_modified, local_modified_cloud_deleted, by_newer, resolve_by_time, sync_time,
  detect_conflict, found, deleted_file, success, is_text, attempt_merge, generate_conflict_name,
}

abbrev pub is_some : Option Conflict → Bool
is_some none = false
is_some (some _) = true

-- Whether a side is there, and whether it changed after the last synchronization.
abbrev pub unchanged : ℤ → Bool → ℤ → Bool
unchanged last present modified = present && not (lt_int last modified)

abbrev pub cloud_there : Option CloudFile → Bool
cloud_there none = false
cloud_there (some _) = true

abbrev pub cloud_time : Option CloudFile → ℤ
cloud_time none = pos 0
cloud_time (some c) = c.modified_at

-- There is a conflict exactly when some side is there and no side that is there is unchanged since
-- the last synchronization.
pub detect_conflict_iff :
    (file_name : Bytes → Bytes) (path : Bytes) (modified : ℤ) (size : ℕ) (here : Bool)
    (cloud : Option CloudFile) (last : Option ℤ)
    → is_some (detect_conflict file_name path modified size here cloud last) ≡ (
        (here || cloud_there cloud)
        && (not (unchanged (sync_time last) here modified)
            && not (unchanged (sync_time last) (cloud_there cloud) (cloud_time cloud))))
unfolding detect_conflict
detect_conflict_iff file_name path modified size true (some c) last = ground arith
detect_conflict_iff file_name path modified size false (some c) last = ground arith
detect_conflict_iff file_name path modified size true none last = ground arith
detect_conflict_iff file_name path modified size false none last = refl

-- With a base, a file of a text type of which one side only changed merges to that side's content,
-- whatever the line merge does.
pub merge_takes_the_change :
    (merge_bytes : Bytes → Bytes → Bytes → Option Bytes) (base changed : Bytes)
    (mime : Option Bytes)
    → is_text mime ≡ true
    → (attempt_merge merge_bytes base changed (some base) mime ≡ success changed)
      × (attempt_merge merge_bytes changed base (some base) mime ≡ success changed)
unfolding attempt_merge
merge_takes_the_change merge_bytes base changed mime t = (
  ground (arith, t, bytes_eq_iff base changed, bytes_eq_refl base),
  ground (arith, t, bytes_eq_iff base changed, bytes_eq_iff changed base, bytes_eq_refl base),
)

lt_int_trans : (a b c : ℤ) → lt_int b a ≡ false → lt_int b c ≡ true → lt_int a c ≡ true
unfolding lt_int
lt_int_trans (pos a) (pos b) (pos c) g h = ground arith
lt_int_trans (pos a) (pos b) (negsuc c) g h = cc
lt_int_trans (pos a) (negsuc b) (pos c) g h = cc
lt_int_trans (pos a) (negsuc b) (negsuc c) g h = cc
lt_int_trans (negsuc a) (pos b) (pos c) g h = refl
lt_int_trans (negsuc a) (pos b) (negsuc c) g h = cc
lt_int_trans (negsuc a) (negsuc b) (pos c) g h = refl
lt_int_trans (negsuc a) (negsuc b) (negsuc c) g h = ground arith

local_≢_cloud : use_local ≢ use_cloud
local_≢_cloud h = cc

not_local : (b : Bool) (name : Bytes) → (if b then use_cloud else keep_both name) ≢ use_local
not_local true name h = cc
not_local false name h = cc

cloud_wins_if :
    (b : Bool) (name : Bytes) → (if b then use_cloud else keep_both name) ≡ use_cloud → b ≡ true
cloud_wins_if true name h = refl
cloud_wins_if false name h = cc

by_newer-local :
    (c : Conflict) (stamp : Bytes)
    → by_newer c stamp ≡ use_local
    → lt_int c.cloud_file.modified_at c.local_modified_at ≡ true
by_newer-local c stamp h = elim (Bool-cases (lt_int c.cloud_file.modified_at c.local_modified_at)) [
  | inl b ↦ b
  | inr b ↦
      elim (not_local (lt_int c.local_modified_at c.cloud_file.modified_at)
        (generate_conflict_name c.cloud_file.name stamp)
        (sym (if_false (lt_int c.cloud_file.modified_at c.local_modified_at) _ _ b) ∙ h)) [ ]
]

by_newer-cloud :
    (c : Conflict) (stamp : Bytes)
    → by_newer c stamp ≡ use_cloud
    → lt_int c.local_modified_at c.cloud_file.modified_at ≡ true
by_newer-cloud c stamp h = elim (Bool-cases (lt_int c.cloud_file.modified_at c.local_modified_at)) [
  | inl b ↦
      elim (local_≢_cloud
        (sym (if_true (lt_int c.cloud_file.modified_at c.local_modified_at) _ _ b) ∙ h)) [ ]
  | inr b ↦
      cloud_wins_if (lt_int c.local_modified_at c.cloud_file.modified_at)
        (generate_conflict_name c.cloud_file.name stamp)
        (sym (if_false (lt_int c.cloud_file.modified_at c.local_modified_at) _ _ b) ∙ h)
]

if_some : (b : Bool) (x c : Conflict) → (if b then some x else none) ≡ some c → (b ≡ true) × (x ≡ c)
if_some true x c h = (refl, cc)
if_some false x c h = cc

-- What a resolution by time says of the conflict's two times.
abbrev pub KeepsNewer : Bytes → Conflict → Type 0
KeepsNewer stamp c =
    (resolve_by_time c stamp ≡ use_local
      → lt_int c.cloud_file.modified_at c.local_modified_at ≡ true)
    × (resolve_by_time c stamp ≡ use_cloud
        → lt_int c.local_modified_at c.cloud_file.modified_at ≡ true)

-- A conflict that was detected is never resolved by time in favour of a side that is not the newer
-- one, a deleted side counting as modified at 0, if the last synchronization was not before 0.
pub resolve-KeepsNewer :
    (file_name : Bytes → Bytes) (path : Bytes) (modified : ℤ) (size : ℕ) (here : Bool)
    (cloud : Option CloudFile) (last : Option ℤ) (c : Conflict) (stamp : Bytes)
    → lt_int (sync_time last) (pos 0) ≡ false
    → detect_conflict file_name path modified size here cloud last ≡ some c
    → KeepsNewer stamp c
unfolding detect_conflict resolve_by_time
resolve-KeepsNewer file_name path modified size true (some f) last c stamp z h =
    let e =
      if_some (lt_int (sync_time last) modified && lt_int (sync_time last) f.modified_at)
        (found path f modified size both_modified) c h in
    subst (KeepsNewer stamp) e.1 (
      by_newer-local (found path f modified size both_modified) stamp,
      by_newer-cloud (found path f modified size both_modified) stamp,
    )
resolve-KeepsNewer file_name path modified size false (some f) last c stamp z h =
    let e =
      if_some (lt_int (sync_time last) f.modified_at)
        (found path f (pos 0) 0 local_deleted_cloud_modified) c h in
    subst (KeepsNewer stamp) e.1 (
      (λ w. elim (local_≢_cloud (sym w)) [ ]),
      (λ _. lt_int_trans (pos 0) (sync_time last) f.modified_at z e.0),
    )
resolve-KeepsNewer file_name path modified size true none last c stamp z h =
    let e =
      if_some (lt_int (sync_time last) modified)
        (found path (deleted_file file_name path) modified size local_modified_cloud_deleted) c h in
    subst (KeepsNewer stamp) e.1 (
      (λ _. lt_int_trans (pos 0) (sync_time last) modified z e.0),
      (λ w. elim (local_≢_cloud w) [ ]),
    )
resolve-KeepsNewer file_name path modified size false none last c stamp z h = cc
