-- ===== src/Storage/Root/Once.antt =====
-- src/storage.rs, `set_root_if`: no update is lost among sequences of writes.
use remarkable_server.Base.{
  ℕ, ◌+◌, ◌^◌, ◌≤◌, ◌<◌, ◌≡◌, refl, ap, sym, subst, ◌==◌, if◌then◌else◌, Bool, Bool-cases, inl, inr,
  true, false, ◌&&◌, Option, none, some, List, [], ◌∷◌, length, Bytes, arith,
}
use remarkable_server.Base.Result.{Result, ok, err}
use remarkable_server.Errors.{ServerError}
use remarkable_server.Storage.Root.{Disk}
use remarkable_server.Storage.Root.Commits.{
  Write, answers, is_stale, log_answers, row_of, writes_refine,
}

unfoldable pub expects : ℕ → Option ℕ → Bool
expects g none = false
expects g (some e) = e == g

unfoldable pub is_ok : Result ServerError ℕ → Bool
is_ok (ok n) = true
is_ok (err e) = false

unfoldable pub count : Bool → ℕ
count true = 1
count false = 0

-- How many writes that expect the generation `g` are accepted.
unfoldable pub accepted : ℕ → List Write → List (Result ServerError ℕ) → ℕ
unfolding expects is_ok count
accepted g (w ∷ ws) (a ∷ rest) = count (expects g w.expected && is_ok a) + accepted g ws rest
accepted g _ _ = 0

expects_now : (g n : ℕ) (e : Option ℕ) → is_stale e n ≡ false → expects g e ≡ true → g ≡ n
unfolding is_stale expects
expects_now g n none d h = cc
expects_now g n (some e) d h = ground arith

refused : (b : Bool) → count (b && false) ≡ 0
unfolding count
refused true = refl
refused false = refl

one_at_most : (b : Bool) → count (b && true) ≤ 1
unfolding count
one_at_most true = omega arith
one_at_most false = omega arith

log_accepts :
    (g base : ℕ) (log : List Bytes) (ws : List Write)
    → (accepted g ws (log_answers base log ws) ≤ 1)
      × (g < base + length log → accepted g ws (log_answers base log ws) ≡ 0)
unfolding accepted log_answers is_ok count
log_accepts g base log [] = (omega arith, λ h. refl)
log_accepts g base log (w ∷ ws) = elim (Bool-cases (is_stale w.expected (base + length log))) [
  | inl d ↦
      let rest = log_accepts g base log ws in
      subst counted (sym d) (
        omega (arith, refused (expects g w.expected), rest.0),
        λ h. omega (arith, refused (expects g w.expected), rest.1 h),
      )
  | inr d ↦
      let rest = log_accepts g base (w.hash ∷ log) ws in
      subst counted (sym d) (elim (Bool-cases (expects g w.expected)) [
        | inl h ↦
            let e : g ≡ base + length log = expects_now g (base + length log) w.expected d h in
            let none_left : accepted g ws (log_answers base (w.hash ∷ log) ws) ≡ 0 =
              rest.1 (omega arith) in
            (omega (arith, one_at_most (expects g w.expected)), λ h'. omega arith)
        | inr h ↦
            let none_here : count (expects g w.expected && true) ≡ 0 =
              ap (λ q. count (q && true)) h in
            (omega (arith, rest.0), λ h'. omega (arith, rest.1 (omega arith)))
      ])
]
  where
    counted : Bool → Type 0
    counted q =
        (count (
              expects g w.expected
              && is_ok (
                  if q
                  then err (ServerError.generation_mismatch (base + length log))
                  else ok (base + length (w.hash ∷ log))))
            + accepted g ws (log_answers base (if q then log else w.hash ∷ log) ws)
          ≤ 1)
        × (g < base + length log
            → count (
                  expects g w.expected
                  && is_ok (
                      if q
                      then err (ServerError.generation_mismatch (base + length log))
                      else ok (base + length (w.hash ∷ log))))
                + accepted g ws (log_answers base (if q then log else w.hash ∷ log) ws)
              ≡ 0)

-- No update is lost: of any sequence of writes, at most one that expects a given generation is
-- accepted, as long as the generation stays below 2^64.
pub accepted_once :
    (disk : Disk) (ws : List Write) (g : ℕ)
    → disk.row.generation + length ws < 2 ^ 64
    → accepted g ws (answers disk ws) ≤ 1
unfolding row_of
accepted_once disk ws g small =
    subst (λ z. accepted g ws z ≤ 1)
      (sym (writes_refine disk.row [] disk.mirror ws (omega arith)).0)
      (log_accepts g disk.row.generation [] ws).0
