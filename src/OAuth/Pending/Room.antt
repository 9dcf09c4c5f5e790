-- ===== src/OAuth/Pending/Room.antt =====
-- src/oauth.rs: the loops that make room end with room, and drop what is oldest.
use remarkable_server.Base.{
  ℕ, zero, suc, ◌≤◌, ◌<◌, ◌≡◌, ◌≢◌, refl, sym, ap, ◌∙◌, leb, if◌then◌else◌, Bool, true, false, not,
  Option, none, some, [], ◌∷◌, String, text_eq, length, arith, eq_iff, ◌⊎◌, inl, inr, if_intro,
  if_true, if_false, Bool-cases, Option-cases,
}
use remarkable_server.Base.Assoc.{Assoc, lookup, insert, remove}
use remarkable_server.OAuth.Pending.{
  Pending, PendingCodes, oldest, first_min, filter, is_unapproved, is_stale, forget_oldest,
  remember_expired, drop_gone, evict, victim, make_room, or_else,
}

none_≢_some : {A : Type 0} {a : A} → none ≢ some a
none_≢_some h = cc

some_inj : {A : Type 0} {a b : A} → some a ≡ some b → a ≡ b
some_inj h = cc

first_min-some :
    (k : String) (t : ℕ) (o : Option (String × ℕ)) (r : String × ℕ)
    → first_min k t o ≡ some r
    → (k ≡ r.0) ⊎ (o ≡ some r)
first_min-some k t none r h = inl (ap (λ (q : String × ℕ). q.0) (some_inj h))
first_min-some k t (some s) r h = elim (Bool-cases (leb t s.1)) [
  | inl b ↦ inl (ap (λ (q : String × ℕ). q.0) (some_inj (sym (if_true (leb t s.1) _ _ b) ∙ h)))
  | inr b ↦ inr (sym (if_false (leb t s.1) _ _ b) ∙ h)
]

first_min-≢_none : (k : String) (t : ℕ) (o : Option (String × ℕ)) → first_min k t o ≢ none
first_min-≢_none k t none h = none_≢_some (sym h)
first_min-≢_none k t (some s) h = elim (Bool-cases (leb t s.1)) [
  | inl b ↦ none_≢_some (sym h ∙ if_true (leb t s.1) _ _ b)
  | inr b ↦ none_≢_some (sym h ∙ if_false (leb t s.1) _ _ b)
]

module _ {V : Type 0} where
  abbrev pub HasKey : String → Assoc V → Type 0
  HasKey k [] = ⊥
  HasKey k ((j, v) ∷ m) = (j ≡ k) ⊎ HasKey k m

  pub length-remove : (k : String) (m : Assoc V) → length (remove k m) ≤ length m
  unfolding remove
  length-remove k [] = omega arith
  length-remove k ((j, v) ∷ m) = ground (arith, length-remove k m)

  pub length-remove_lt : (k : String) (m : Assoc V) → HasKey k m → length (remove k m) < length m
  unfolding remove
  length-remove_lt k [] h = elim h [ ]
  length-remove_lt k ((j, v) ∷ m) (inl e) = ground (arith, e, eq_iff j k, length-remove k m)
  length-remove_lt k ((j, v) ∷ m) (inr h) = ground (arith, eq_iff j k, length-remove_lt k m h)

  pub length-insert : (k : String) (v : V) (m : Assoc V) → length (insert k v m) ≤ suc (length m)
  unfolding insert
  length-insert k v [] = omega arith
  length-insert k v ((j, w) ∷ m) = ground (arith, length-insert k v m)

  pub length-insert_known :
      (k : String) (v : V) (m : Assoc V) (w : V)
      → lookup k m ≡ some w
      → length (insert k v m) ≡ length m
  unfolding insert lookup
  length-insert_known k v [] w h = elim (none_≢_some h) [ ]
  length-insert_known k v ((j, u) ∷ m) w h = elim (Bool-cases (text_eq j k)) [
    | inl e ↦ rw e refl
    | inr e ↦ rw e (ap suc (length-insert_known k v m w (sym (if_false (text_eq j k) _ _ e) ∙ h)))
  ]

  pub length-filter : (p : V → Bool) (m : Assoc V) → length (filter p m) ≤ length m
  unfolding filter
  length-filter p [] = omega arith
  length-filter p ((j, w) ∷ m) = ground (arith, length-filter p m)

  HasKey-if :
      (b : Bool) (k j : String) (v : V) (rest m : Assoc V)
      → (HasKey k rest → HasKey k m)
      → HasKey k (if b then (j, v) ∷ rest else rest)
      → HasKey k ((j, v) ∷ m)
  HasKey-if true k j v rest m f (inl e) = inl e
  HasKey-if true k j v rest m f (inr h) = inr (f h)
  HasKey-if false k j v rest m f h = inr (f h)

  HasKey-filter : (p : V → Bool) (k : String) (m : Assoc V) → HasKey k (filter p m) → HasKey k m
  unfolding filter
  HasKey-filter p k [] h = h
  HasKey-filter p k ((j, v) ∷ m) h = HasKey-if (p v) k j v (filter p m) m (HasKey-filter p k m) h

  HasKey-oldest : (at : V → ℕ) (m : Assoc V) (r : String × ℕ) → oldest at m ≡ some r → HasKey r.0 m
  unfolding oldest
  HasKey-oldest at [] r h = elim (none_≢_some h) [ ]
  HasKey-oldest at ((j, v) ∷ m) r h = elim (first_min-some j (at v) (oldest at m) r h) [
    | inl e ↦ inl e
    | inr o ↦ inr (HasKey-oldest at m r o)
  ]

  oldest-none : (at : V → ℕ) (m : Assoc V) → oldest at m ≡ none → length m ≡ 0
  unfolding oldest
  oldest-none at [] h = refl
  oldest-none at ((j, v) ∷ m) h = elim (first_min-≢_none j (at v) (oldest at m) h) [ ]

not_full : (cap n : ℕ) → 0 < cap → leb cap n ≡ true → n ≢ 0
not_full cap n c f e = ground arith

-- What `forget_oldest` leaves is under the cap, and no longer than what it was given.
forget_oldest-lt :
    (fuel cap : ℕ) (m : Assoc ℕ)
    → 0 < cap
    → length m ≤ fuel
    → (length (forget_oldest fuel cap m) < cap) × (length (forget_oldest fuel cap m) ≤ length m)
unfolding forget_oldest
forget_oldest-lt zero cap m c l = (omega (arith, c, l), omega arith)
forget_oldest-lt (suc fuel) cap m c l =
    if_intro (λ (n : Assoc ℕ). (length n < cap) × (length n ≤ length m)) (leb cap (length m)) _ _
      (λ full. elim (Option-cases (oldest (λ t. t) m)) [
        | inl e ↦ elim (not_full cap (length m) c full (oldest-none (λ t. t) m e)) [ ]
        | inr r ↦
            let shrinks = length-remove_lt r.0.0 m (HasKey-oldest (λ t. t) m r.0 r.1) in
            let rest = forget_oldest-lt fuel cap (remove r.0.0 m) c (omega (arith, l, shrinks)) in
            rw r.1 (rest.0, omega (arith, rest.1, shrinks))
      ])
      (λ room. (ground arith, omega arith))

-- The caps: outstanding codes, and codes remembered as expired.
abbrev pub IsBounded : PendingCodes → Type 0
IsBounded pc = (length pc.codes ≤ pc.cap) × (length pc.expired ≤ pc.cap)

-- What dropping a code to remember it keeps.
abbrev Shrinks : PendingCodes → PendingCodes → Type 0
Shrinks pc pc' =
    (pc'.cap ≡ pc.cap) × ((length pc'.codes ≤ length pc.codes) × (length pc'.expired ≤ pc.cap))

remember_expired-le :
    (pc : PendingCodes) (k : String) (now : ℕ)
    → 0 < pc.cap
    → length (remember_expired pc k now).expired ≤ pc.cap
unfolding remember_expired
remember_expired-le pc k now c =
    let kept = forget_oldest (length pc.expired) pc.cap pc.expired in
    omega (
      arith,
      length-insert k now kept,
      (forget_oldest-lt (length pc.expired) pc.cap pc.expired c (omega arith)).0,
    )

drop_code : PendingCodes → String → ℕ → PendingCodes
drop_code pc k now = remember_expired (record pc { codes = remove k pc.codes }) k now

drop_code-Shrinks :
    (pc : PendingCodes) (k : String) (now : ℕ) → 0 < pc.cap → Shrinks pc (drop_code pc k now)
unfolding drop_code remember_expired
drop_code-Shrinks pc k now c = (
  refl,
  (length-remove k pc.codes, remember_expired-le (record pc { codes = remove k pc.codes }) k now c),
)

drop_code-codes :
    (pc : PendingCodes) (k : String) (now : ℕ)
    → length (drop_code pc k now).codes ≡ length (remove k pc.codes)
unfolding drop_code remember_expired
drop_code-codes pc k now = refl

drop_gone-Shrinks :
    (pc : PendingCodes) (gone : Assoc Pending) (now : ℕ)
    → 0 < pc.cap
    → length pc.expired ≤ pc.cap
    → Shrinks pc (drop_gone pc gone now)
unfolding drop_gone drop_code
drop_gone-Shrinks pc [] now c l = (refl, (omega arith, l))
drop_gone-Shrinks pc ((k, p) ∷ gone) now c l =
    let one = drop_code-Shrinks pc k now c in
    let all =
      drop_gone-Shrinks (drop_code pc k now) gone now (omega (arith, one.0, c))
        (omega (arith, one.0, one.1.1)) in
    (all.0 ∙ one.0, (omega (arith, all.1.0, one.1.0), omega (arith, all.1.1, one.0)))

pub evict-Shrinks :
    (pc : PendingCodes) (now : ℕ)
    → 0 < pc.cap
    → length pc.expired ≤ pc.cap
    → Shrinks pc (evict pc now)
unfolding evict
evict-Shrinks pc now c l =
    let gone = filter (λ (p : Pending). is_stale now p.at) pc.codes in
    let s = drop_gone-Shrinks pc gone now c l in
    (
      s.0,
      (
        s.1.0,
        omega (
          arith,
          s.1.1,
          length-filter (λ (t : ℕ). not (is_stale now t)) (drop_gone pc gone now).expired,
        ),
      ),
    )

or_else-some :
    (o o' : Option (String × ℕ)) (r : String × ℕ)
    → or_else o o' ≡ some r
    → (o ≡ some r) ⊎ (o' ≡ some r)
or_else-some none o' r h = inr h
or_else-some (some s) o' r h = inl h

or_else-none : (o o' : Option (String × ℕ)) → or_else o o' ≡ none → o' ≡ none
or_else-none none o' h = h
or_else-none (some s) o' h = elim (none_≢_some (sym h)) [ ]

HasKey-victim : (m : Assoc Pending) (r : String × ℕ) → victim m ≡ some r → HasKey r.0 m
HasKey-victim m r h =
    elim (or_else-some (oldest Pending.at (filter is_unapproved m)) (oldest Pending.at m) r h) [
      | inl e ↦
          HasKey-filter is_unapproved r.0 m (HasKey-oldest Pending.at (filter is_unapproved m) r e)
      | inr e ↦ HasKey-oldest Pending.at m r e
    ]

victim-none : (m : Assoc Pending) → victim m ≡ none → length m ≡ 0
victim-none m h =
    oldest-none Pending.at m
      (or_else-none (oldest Pending.at (filter is_unapproved m)) (oldest Pending.at m) h)

abbrev HasRoom : PendingCodes → PendingCodes → Type 0
HasRoom pc pc' = (length pc'.codes < pc.cap) × Shrinks pc pc'

-- The loop of `insert` ends with room for one more code.
pub make_room-lt :
    (fuel : ℕ) (pc : PendingCodes) (now : ℕ)
    → 0 < pc.cap
    → length pc.expired ≤ pc.cap
    → length pc.codes ≤ fuel
    → HasRoom pc (make_room fuel pc now)
unfolding make_room drop_code
make_room-lt zero pc now c l f = (omega (arith, c, f), (refl, (omega arith, l)))
make_room-lt (suc fuel) pc now c l f =
    if_intro (HasRoom pc) (leb pc.cap (length pc.codes)) _ _
      (λ full. elim (Option-cases (victim pc.codes)) [
        | inl e ↦ elim (not_full pc.cap (length pc.codes) c full (victim-none pc.codes e)) [ ]
        | inr r ↦
            let k = r.0.0 in
            let shrinks = length-remove_lt k pc.codes (HasKey-victim pc.codes r.0 r.1) in
            let one = drop_code-Shrinks pc k now c in
            let rest =
              make_room-lt fuel (drop_code pc k now) now (omega (arith, one.0, c))
                (omega (arith, one.0, one.1.1))
                (omega (arith, f, shrinks, drop_code-codes pc k now)) in
            rw r.1 (
              omega (arith, rest.0, one.0),
              (
                rest.1.0 ∙ one.0,
                (omega (arith, rest.1.1.0, one.1.0), omega (arith, rest.1.1.1, one.0)),
              ),
            )
      ])
      (λ room. (ground arith, (refl, (omega arith, l))))
