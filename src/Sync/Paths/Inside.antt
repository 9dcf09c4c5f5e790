-- ===== src/Sync/Paths/Inside.antt =====
-- src/integrations/sync.rs, `local_path_for`: where a path that it gives leads.
use remarkable_server.Base.{
  ℕ, ◌≤◌, ◌≡◌, ◌≢◌, refl, ap, ◌∙◌, sym, subst, ltb, ◌==◌, if◌then◌else◌, Bool-cases, inl, inr, true,
  false, not, ◌||◌, List, [], ◌∷◌, ◌++◌, append_assoc, ==_iff, is_empty, length, Bytes, bytes_eq,
  codes, All, if_intro, if_true, if_false, arith,
}
use remarkable_server.Base.Result.{Result, ok, err, bind_ok}
use remarkable_server.Storage.Index.{onto_first}
use remarkable_server.Sync.Paths.{
  PathProblem, max_name_bytes, split_slash, contains_byte, starts_with_slash, first_has_drive,
  components, is_one_normal, check_parts, safe_components, strip_slash, cloud_path_components,
  ends_with_slash, join, join_all, is_prefix, local_path_for,
}

-- How a file system goes along a path: the names from the root to where it is, the last one first.
unfoldable pub go : List Bytes → Bytes → List Bytes
go at s =
    if is_empty s || bytes_eq s (codes ".")
    then at
    else if bytes_eq s (codes "..")
    then up at
    else s ∷ at
  where
    up : List Bytes → List Bytes
    up [] = []
    up (n ∷ ns) = ns

unfoldable pub go_all : List Bytes → List Bytes → List Bytes
unfolding go
go_all at [] = at
go_all at (s ∷ ss) = go_all (go at s) ss

-- Where an absolute path leads.
unfoldable pub resolve : Bytes → List Bytes
unfolding go_all split_slash
resolve path = go_all [] (split_slash path)

-- The names below a place, one under the other.
unfoldable pub below : List Bytes → List Bytes → List Bytes
below at [] = at
below at (n ∷ ns) = below (n ∷ at) ns

-- The name of a file that can be written: no slash, no NUL and no backslash, neither empty nor `.`
-- nor `..`, at most 255 bytes.
abbrev pub IsName : Bytes → Type 0
IsName s =
    (is_empty s ≡ false)
    × (bytes_eq s (codes ".") ≡ false)
    × (bytes_eq s (codes "..") ≡ false)
    × (length s ≤ 255)
    × All (λ c. (c ≢ 0x2F) × (c ≢ 0) × (c ≢ 0x5C)) s

onto_first_some : (x : ℕ) (ls : List Bytes) → is_empty (onto_first x ls) ≡ false
unfolding onto_first
onto_first_some x [] = refl
onto_first_some x (l ∷ ls) = refl

split_slash_some : (s : Bytes) → is_empty (split_slash s) ≡ false
unfolding split_slash
split_slash_some [] = refl
split_slash_some (y ∷ ys) =
    if_intro (λ ls. is_empty ls ≡ false) (y == 0x2F) ([] ∷ split_slash ys)
      (onto_first y (split_slash ys)) (λ q. refl) (λ q. onto_first_some y (split_slash ys))

onto_first-append :
    (x : ℕ) (ls ms : List Bytes)
    → is_empty ls ≡ false
    → onto_first x (ls ++ ms) ≡ onto_first x ls ++ ms
unfolding onto_first
onto_first-append x [] ms h = cc
onto_first-append x (l ∷ ls) ms h = refl

pub split_slash-append :
    (p c : Bytes) → split_slash (p ++ (0x2F ∷ c)) ≡ split_slash p ++ split_slash c
unfolding split_slash
split_slash-append [] c = refl
split_slash-append (x ∷ p) c =
    let e = split_slash-append p c in
    elim (Bool-cases (x == 0x2F)) [
      | inl q ↦
          if_true (x == 0x2F) _ _ q
          ∙ ap (λ z. [] ∷ z) e
          ∙ ap (λ z. z ++ split_slash c)
              (sym (if_true (x == 0x2F) ([] ∷ split_slash p) (onto_first x (split_slash p)) q))
      | inr q ↦
          if_false (x == 0x2F) _ _ q
          ∙ ap (onto_first x) e
          ∙ onto_first-append x (split_slash p) (split_slash c) (split_slash_some p)
          ∙ ap (λ z. z ++ split_slash c)
              (sym (if_false (x == 0x2F) ([] ∷ split_slash p) (onto_first x (split_slash p)) q))
    ]

go_all-append :
    (at : List Bytes) (xs ys : List Bytes) → go_all at (xs ++ ys) ≡ go_all (go_all at xs) ys
unfolding go_all
go_all-append at [] ys = refl
go_all-append at (x ∷ xs) ys = go_all-append (go at x) xs ys

-- A character of a path, and one of a name.
abbrev IsClean : ℕ → Type 0
IsClean c = (c ≢ 0) × (c ≢ 0x5C)

abbrev pub IsNamed : ℕ → Type 0
IsNamed c = (c ≢ 0x2F) × (c ≢ 0) × (c ≢ 0x5C)

clean : (s : Bytes) → contains_byte 0 s ≡ false → contains_byte 0x5C s ≡ false → All IsClean s
unfolding contains_byte
clean [] h h' = tt
clean (c ∷ cs) h h' = ((ground arith, ground arith), clean cs (ground arith) (ground arith))

onto_first-All :
    (c : ℕ) (ls : List Bytes)
    → IsNamed c
    → All (λ l. All IsNamed l) ls
    → All (λ l. All IsNamed l) (onto_first c ls)
unfolding onto_first
onto_first-All c [] h h' = ((h, tt), tt)
onto_first-All c (l ∷ ls) h h' = ((h, h'.0), h'.1)

split_slash-All : (s : Bytes) → All IsClean s → All (λ l. All IsNamed l) (split_slash s)
unfolding split_slash
split_slash-All [] h = (tt, tt)
split_slash-All (c ∷ cs) h =
    if_intro (All (λ l. All IsNamed l)) (c == 0x2F) ([] ∷ split_slash cs)
      (onto_first c (split_slash cs)) (λ q. (tt, split_slash-All cs h.1))
      (λ q. onto_first-All c (split_slash cs) (ground arith, h.0.0, h.0.1) (split_slash-All cs h.1))

check_parts-All :
    (parts : List Bytes)
    → All (λ l. All IsNamed l) parts
    → check_parts parts ≡ ok tt
    → All IsName parts
unfolding check_parts
check_parts-All [] h q = tt
check_parts-All (p ∷ ps) h q =
    if_intro (λ x. x ≡ ok tt → All IsName (p ∷ ps))
      (is_empty p || (bytes_eq p (codes ".") || bytes_eq p (codes ".."))) _ _ (λ b q'. cc)
      (λ b.
        if_intro (λ x. x ≡ ok tt → All IsName (p ∷ ps)) (ltb max_name_bytes (length p)) _ _
          (λ b' q'. cc)
          (λ b'.
            if_intro (λ x. x ≡ ok tt → All IsName (p ∷ ps)) (not (is_one_normal (components p))) _ _
              (λ b'' q'. cc)
              (λ b'' q'. (
                (ground arith, ground arith, ground arith, ground arith, h.0),
                check_parts-All ps h.1 q',
              ))))
      q

-- The segments that are accepted are names, and there is one at least.
pub safe_components-All :
    (path : Bytes) (parts : List Bytes)
    → safe_components path ≡ ok parts
    → All IsName parts × (is_empty parts ≡ false) × (parts ≡ split_slash path)
unfolding safe_components
safe_components-All path parts q =
    if_intro Checked (is_empty path) _ _ (λ b q'. cc)
      (λ b.
        if_intro Checked (contains_byte 0 path) _ _ (λ n q'. cc)
          (λ n.
            if_intro Checked (contains_byte 0x5C path) _ _ (λ s q'. cc)
              (λ s.
                if_intro Checked (starts_with_slash path) _ _ (λ a q'. cc)
                  (λ a.
                    if_intro Checked (first_has_drive (split_slash path)) _ _ (λ d q'. cc)
                      (λ d q'.
                        let r =
                          bind_ok (check_parts (split_slash path)) (λ _. ok (split_slash path))
                            parts q' in
                        let e : split_slash path ≡ parts = cc in
                        subst (λ z. All IsName z × (is_empty z ≡ false) × (z ≡ split_slash path)) e
                          (
                            check_parts-All (split_slash path)
                                (split_slash-All path (clean path n s)) r.1,
                            split_slash_some path,
                            refl,
                          ))))))
      q
  where
    Checked : Result PathProblem (List Bytes) → Type 0
    Checked x =
        x ≡ ok parts → All IsName parts × (is_empty parts ≡ false) × (parts ≡ split_slash path)

pub split_slash-name : (s : Bytes) → All IsNamed s → split_slash s ≡ s ∷ []
unfolding split_slash onto_first
split_slash-name [] h = refl
split_slash-name (c ∷ cs) h =
    let n : c ≢ 0x2F = h.0.0 in
    if_false (c == 0x2F) ([] ∷ split_slash cs) (onto_first c (split_slash cs)) (ground arith)
    ∙ ap (onto_first c) (split_slash-name cs h.1)

go-name : (at : List Bytes) (s : Bytes) → IsName s → go at s ≡ s ∷ at
unfolding go
go-name at s h =
    if_false (is_empty s || bytes_eq s (codes ".")) _ _ (ground (arith, h.0, h.1))
    ∙ if_false (bytes_eq s (codes "..")) _ _ h.2

ends_with_slash-append :
    (p : Bytes) → ends_with_slash p ≡ true → (q : Bytes) × (p ≡ q ++ (0x2F ∷ []))
unfolding ends_with_slash
ends_with_slash-append [] h = cc
ends_with_slash-append (c ∷ []) h = ([], ap (λ z. z ∷ []) ((==_iff c 0x2F).0 h))
ends_with_slash-append (c ∷ d ∷ cs) h =
    let r = ends_with_slash-append (d ∷ cs) h in (c ∷ r.0, ap (λ z. c ∷ z) r.1)

pub starts_named : (s : Bytes) → All IsNamed s → starts_with_slash s ≡ false
unfolding starts_with_slash
starts_named [] h = refl
starts_named (c ∷ cs) h = let n : c ≢ 0x2F = h.0.0 in ground arith

module _ (c : Bytes) (h : IsName c) where
  go_all-name : (at : List Bytes) → go_all at (split_slash c) ≡ c ∷ at
  unfolding go_all
  go_all-name at = ap (go_all at) (split_slash-name c h.4) ∙ go-name at c h

  slash_leads : (q : Bytes) → resolve (q ++ (0x2F ∷ c)) ≡ c ∷ resolve q
  unfolding resolve
  slash_leads q =
      ap (go_all []) (split_slash-append q c)
      ∙ go_all-append [] (split_slash q) (split_slash c)
      ∙ go_all-name (go_all [] (split_slash q))

  end_leads : (q : Bytes) → resolve (q ++ (0x2F ∷ [])) ≡ resolve q
  unfolding resolve go_all go split_slash
  end_leads q =
      ap (go_all []) (split_slash-append q []) ∙ go_all-append [] (split_slash q) ([] ∷ [])

  short_leads :
      (path : Bytes)
      → (is_empty path || ends_with_slash path) ≡ true
      → resolve (path ++ c) ≡ c ∷ resolve path
  unfolding resolve go_all go split_slash
  short_leads [] e = go_all-name []
  short_leads (x ∷ p) e =
      let r = ends_with_slash-append (x ∷ p) e in
      ap (λ z. resolve (z ++ c)) r.1
      ∙ ap resolve (append_assoc r.0 (0x2F ∷ []) c)
      ∙ slash_leads r.0
      ∙ ap (λ z. c ∷ z) (sym (end_leads r.0) ∙ ap resolve (sym r.1))

  join_leads : (path : Bytes) → resolve (join path c) ≡ c ∷ resolve path
  unfolding join
  join_leads path =
      ap resolve (
        if_false (starts_with_slash c) c
          (if is_empty path || ends_with_slash path then path ++ c else path ++ (0x2F ∷ c))
          (starts_named c h.4))
      ∙ if_intro (λ z. resolve z ≡ c ∷ resolve path) (is_empty path || ends_with_slash path)
          (path ++ c) (path ++ (0x2F ∷ c)) (short_leads path) (λ b. slash_leads path)

join_all_leads :
    (base : Bytes) (parts : List Bytes)
    → All IsName parts
    → resolve (join_all base parts) ≡ below (resolve base) parts
unfolding join_all below
join_all_leads base [] h = refl
join_all_leads base (c ∷ cs) h =
    join_all_leads (join base c) cs h.1 ∙ ap (λ z. below z cs) (join_leads c h.0 base)

-- A provider's path that is accepted leads below the local root, whatever it is: from the root it
-- goes down by the segments of the path alone, of which there is one at least, and each is the name
-- of a file.
pub local_path_for_inside :
    (base cloud_path path : Bytes)
    → local_path_for base cloud_path ≡ ok path
    → (names : List Bytes) × All IsName names
      × (is_empty names ≡ false)
      × (names ≡ split_slash (strip_slash cloud_path))
      × (resolve path ≡ below (resolve base) names)
unfolding local_path_for cloud_path_components
local_path_for_inside base cloud_path path q =
    let r =
      bind_ok (safe_components (strip_slash cloud_path))
        (λ parts. after_check (join_all base parts)) path q in
    let checked = safe_components-All (strip_slash cloud_path) r.0 r.1 in
    (
      r.0,
      checked.0,
      checked.1,
      checked.2,
      sym (ap resolve (joined_is (join_all base r.0) r.2)) ∙ join_all_leads base r.0 checked.0,
    )
  where
    after_check : Bytes → Result PathProblem Bytes
    after_check joined =
        if not (is_prefix (components base) (components joined))
          || is_prefix (components joined) (components base)
        then err PathProblem.escapes
        else ok joined

    joined_is : (joined : Bytes) → after_check joined ≡ ok path → joined ≡ path
    joined_is joined =
        if_intro (λ x. x ≡ ok path → joined ≡ path)
          (not (is_prefix (components base) (components joined))
            || is_prefix (components joined) (components base))
          _ _ (λ b q'. cc) (λ b q'. cc)
