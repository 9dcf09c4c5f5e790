-- ===== src/Sync/Paths/Accepted.antt =====
-- src/integrations/sync.rs, `safe_components`: every path of names is accepted.
use remarkable_server.Base.{
  ℕ, ◌≤◌, ◌≡◌, ◌≢◌, refl, ap, ◌∙◌, ltb, true, false, not, ◌||◌, List, [], ◌∷◌, ◌++◌, is_empty,
  length, Bytes, bytes_eq, codes, All, if_false, arith,
}
use remarkable_server.Base.Result.{Result, ok, ◌>>=◌}
use remarkable_server.Sync.Paths.{
  PathProblem, max_name_bytes, split_slash, contains_byte, starts_with_slash, first_has_drive,
  has_drive, components, later_components, first_components, is_one_normal, check_parts,
  safe_components,
}
use remarkable_server.Sync.Paths.Inside.{
  IsName, IsNamed, split_slash-append, split_slash-name, starts_named,
}

-- Names with a slash between them.
unfoldable pub slashed : Bytes → List Bytes → Bytes
slashed n [] = n
slashed n (m ∷ ms) = n ++ (0x2F ∷ slashed m ms)

split_slash-slashed :
    (n : Bytes) (ms : List Bytes) → IsName n → All IsName ms → split_slash (slashed n ms) ≡ n ∷ ms
unfolding slashed
split_slash-slashed n [] h hs = split_slash-name n h.4
split_slash-slashed n (m ∷ ms) h hs =
    split_slash-append n (slashed m ms)
    ∙ ap (λ z. z ++ split_slash (slashed m ms)) (split_slash-name n h.4)
    ∙ ap (λ z. n ∷ z) (split_slash-slashed m ms hs.0 hs.1)

-- A byte that no name holds, other than the slash, is not in the path.
module _ (b : ℕ) (other : b ≢ 0x2F) where
  abbrev Without : Bytes → Type 0
  Without s = contains_byte b s ≡ false

  Without-append : (s t : Bytes) → Without s → Without t → Without (s ++ (0x2F ∷ t))
  unfolding contains_byte
  Without-append [] t h h' = ground arith
  Without-append (c ∷ s) t h h' =
      let rest : contains_byte b (s ++ (0x2F ∷ t)) ≡ false = Without-append s t (ground arith) h' in
      ground arith

  Without-slashed :
      (n : Bytes) (ms : List Bytes) → Without n → All Without ms → Without (slashed n ms)
  unfolding slashed
  Without-slashed n [] h hs = h
  Without-slashed n (m ∷ ms) h hs =
      Without-append n (slashed m ms) h (Without-slashed m ms hs.0 hs.1)

no_nul : (s : Bytes) → All IsNamed s → contains_byte 0 s ≡ false
unfolding contains_byte
no_nul [] h = refl
no_nul (c ∷ cs) h =
    let n : c ≢ 0 = h.0.1 in let rest : contains_byte 0 cs ≡ false = no_nul cs h.1 in ground arith

no_backslash : (s : Bytes) → All IsNamed s → contains_byte 0x5C s ≡ false
unfolding contains_byte
no_backslash [] h = refl
no_backslash (c ∷ cs) h =
    let n : c ≢ 0x5C = h.0.2 in
    let rest : contains_byte 0x5C cs ≡ false = no_backslash cs h.1 in ground arith

one_normal : (s : Bytes) → IsName s → is_one_normal (components s) ≡ true
unfolding components first_components later_components is_one_normal
one_normal s h = ap is_one_normal (
    if_false (starts_with_slash s) _ _ (starts_named s h.4)
    ∙ ap first_components (split_slash-name s h.4)
    ∙ if_false (bytes_eq s (codes ".")) _ _ h.1
    ∙ if_false (is_empty s || bytes_eq s (codes ".")) _ _ (ground (arith, h.0, h.1))
    ∙ if_false (bytes_eq s (codes "..")) _ _ h.2)

check_parts-names : (ps : List Bytes) → All IsName ps → check_parts ps ≡ ok tt
unfolding check_parts
check_parts-names [] h = refl
check_parts-names (p ∷ ps) h =
    let small : length p ≤ 255 = h.0.3 in
    if_false (is_empty p || (bytes_eq p (codes ".") || bytes_eq p (codes ".."))) _ _
      (ground (arith, h.0.0, h.0.1, h.0.2))
    ∙ if_false (ltb max_name_bytes (length p)) _ _ (ground arith)
    ∙ if_false (not (is_one_normal (components p))) _ _ (ap not (one_normal p h.0))
    ∙ check_parts-names ps h.1

slashed_some : (n : Bytes) (ms : List Bytes) → IsName n → is_empty (slashed n ms) ≡ false
unfolding slashed
slashed_some [] ms h = cc
slashed_some (c ∷ n) [] h = refl
slashed_some (c ∷ n) (m ∷ ms) h = refl

slashed-starts : (n : Bytes) (ms : List Bytes) → IsName n → starts_with_slash (slashed n ms) ≡ false
unfolding slashed starts_with_slash
slashed-starts [] ms h = cc
slashed-starts (c ∷ n) [] h = starts_named (c ∷ n) h.4
slashed-starts (c ∷ n) (m ∷ ms) h = starts_named (c ∷ n) h.4

All-named :
    (P : Bytes → Type 0) (ps : List Bytes)
    → ((s : Bytes) → All IsNamed s → P s)
    → All IsName ps
    → All P ps
All-named P [] f h = tt
All-named P (p ∷ ps) f h = (f p h.0.4, All-named P ps f h.1)

-- Names with slashes between them, the first not like a drive, are accepted and split as they were.
pub safe_components-slashed :
    (n : Bytes) (ms : List Bytes)
    → IsName n
    → All IsName ms
    → has_drive n ≡ false
    → safe_components (slashed n ms) ≡ ok (n ∷ ms)
unfolding safe_components first_has_drive
safe_components-slashed n ms h hs drive =
    let path : Bytes = slashed n ms in
    let split : split_slash path ≡ n ∷ ms = split_slash-slashed n ms h hs in
    if_false (is_empty path) _ _ (slashed_some n ms h)
    ∙ if_false (contains_byte 0 path) _ _ (
        Without-slashed 0 (omega arith) n ms (no_nul n h.4)
          (All-named (λ s. contains_byte 0 s ≡ false) ms no_nul hs))
    ∙ if_false (contains_byte 0x5C path) _ _ (
        Without-slashed 0x5C (omega arith) n ms (no_backslash n h.4)
          (All-named (λ s. contains_byte 0x5C s ≡ false) ms no_backslash hs))
    ∙ if_false (starts_with_slash path) _ _ (slashed-starts n ms h)
    ∙ if_false (first_has_drive (split_slash path)) _ _ (ap first_has_drive split ∙ drive)
    ∙ ap {A = List Bytes} (λ z. check_parts z >>= λ _. ok z) split
    ∙ ap {A = Result PathProblem (Unit {0})} (λ r. r >>= λ _. ok (n ∷ ms))
        (check_parts-names (n ∷ ms) (h, hs))
