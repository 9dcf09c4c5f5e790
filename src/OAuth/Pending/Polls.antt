-- ===== src/OAuth/Pending/Polls.antt =====
-- src/oauth.rs: what `poll` answers. An approved code is redeemed once, by nobody before its
-- approval and not after it expired.
use remarkable_server.Base.{
  ℕ, ◌+◌, ◌≤◌, ◌≡◌, ◌≢◌, refl, sym, ap, ◌∙◌, subst, if◌then◌else◌, Bool, true, false, Option, none,
  some, [], ◌∷◌, String, text_eq, arith, eq_iff, eq_refl, ◌⊎◌, inl, inr, if_true, if_false,
  Bool-cases,
}
use remarkable_server.Base.Assoc.{Assoc, lookup, remove, lookup-remove}
use remarkable_server.OAuth.Pending.{
  Pending, PendingCodes, approved, unknown, expired_poll, still_pending, slow_down, filter,
  is_stale, remember_expired, drop_gone, evict, device_code_ttl, poll, poll_found, poll_entry,
  is_known, is_early, slow_down_step,
}
use remarkable_server.OAuth.Pending.Room.{HasKey}

none_≢_some : {A : Type 0} {a : A} → none ≢ some a
none_≢_some h = cc

some_inj : {A : Type 0} {a b : A} → some a ≡ some b → a ≡ b
some_inj h = cc

-- Eviction removes codes and changes none.
abbrev Fewer : Assoc Pending → Assoc Pending → String → Type 0
Fewer m m' k = (lookup k m' ≡ none) ⊎ (lookup k m' ≡ lookup k m)

remove-Fewer : (k : String) (m : Assoc Pending) (j : String) → Fewer m (remove k m) j
remove-Fewer k m j = elim (Bool-cases (text_eq k j)) [
  | inl e ↦ inl (lookup-remove k j m ∙ if_true (text_eq k j) _ _ e)
  | inr e ↦ inr (lookup-remove k j m ∙ if_false (text_eq k j) _ _ e)
]

Fewer-trans : (a b c : Assoc Pending) (k : String) → Fewer a b k → Fewer b c k → Fewer a c k
Fewer-trans a b c k f (inl h) = inl h
Fewer-trans a b c k (inl g) (inr h) = inl (h ∙ g)
Fewer-trans a b c k (inr g) (inr h) = inr (h ∙ g)

drop_gone-Fewer :
    (pc : PendingCodes) (gone : Assoc Pending) (now : ℕ) (k : String)
    → Fewer pc.codes (drop_gone pc gone now).codes k
unfolding drop_gone remember_expired
drop_gone-Fewer pc [] now k = inr refl
drop_gone-Fewer pc ((j, p) ∷ gone) now k =
    Fewer-trans pc.codes (remove j pc.codes) (drop_gone pc ((j, p) ∷ gone) now).codes k
      (remove-Fewer j pc.codes k)
      (drop_gone-Fewer (remember_expired (record pc { codes = remove j pc.codes }) j now) gone now
        k)

drop_gone-removes :
    (pc : PendingCodes) (gone : Assoc Pending) (now : ℕ) (k : String)
    → HasKey k gone
    → lookup k (drop_gone pc gone now).codes ≡ none
unfolding drop_gone remember_expired
drop_gone-removes pc [] now k h = elim h [ ]
drop_gone-removes pc ((j, p) ∷ gone) now k (inr h) =
    drop_gone-removes (remember_expired (record pc { codes = remove j pc.codes }) j now) gone now k
      h
drop_gone-removes pc ((j, p) ∷ gone) now k (inl e) =
    let absent = lookup-remove j k pc.codes ∙ if_true (text_eq j k) _ _ ((eq_iff j k).1 e) in
    elim (drop_gone-Fewer (remember_expired (record pc { codes = remove j pc.codes }) j now) gone
      now k) [ inl n ↦ n | inr n ↦ n ∙ absent ]

HasKey-skip :
    (b : Bool) (k : String) (e : String × Pending) (m : Assoc Pending)
    → HasKey k m
    → HasKey k (if b then e ∷ m else m)
HasKey-skip true k (j, v) m h = inr h
HasKey-skip false k e m h = h

HasKey-stale :
    (q : Pending → Bool) (m : Assoc Pending) (k : String) (p : Pending)
    → lookup k m ≡ some p
    → q p ≡ true
    → HasKey k (filter q m)
unfolding lookup filter
HasKey-stale q [] k p h s = elim (none_≢_some h) [ ]
HasKey-stale q ((j, v) ∷ m) k p h s = elim (Bool-cases (text_eq j k)) [
  | inl e ↦
      let same : v ≡ p = some_inj (sym (if_true (text_eq j k) _ _ e) ∙ h) in
      subst (HasKey k) (sym (if_true (q v) _ _ (ap q same ∙ s))) (inl ((eq_iff j k).0 e))
  | inr e ↦
      HasKey-skip (q v) k (j, v) (filter q m)
        (HasKey-stale q m k p (sym (if_false (text_eq j k) _ _ e) ∙ h) s)
]

evict-Fewer : (pc : PendingCodes) (now : ℕ) (k : String) → Fewer pc.codes (evict pc now).codes k
unfolding evict
evict-Fewer pc now k = drop_gone-Fewer pc (filter (λ p. is_stale now p.at) pc.codes) now k

-- A code that eviction leaves has not expired.
evict-fresh :
    (pc : PendingCodes) (now : ℕ) (k : String) (p : Pending)
    → lookup k (evict pc now).codes ≡ some p
    → (lookup k pc.codes ≡ some p) × (now ≤ p.at + device_code_ttl)
unfolding evict
evict-fresh pc now k p h = elim (evict-Fewer pc now k) [
  | inl gone ↦ elim (none_≢_some (sym gone ∙ h)) [ ]
  | inr same ↦
      let at = sym same ∙ h in
      (
        at,
        elim (Bool-cases (is_stale now p.at)) [
          | inl stale ↦
              elim (none_≢_some (
                sym (
                  drop_gone-removes pc (filter (λ (q : Pending). is_stale now q.at) pc.codes) now k
                    (HasKey-stale (λ (q : Pending). is_stale now q.at) pc.codes k p at stale))
                ∙ h)) [ ]
          | inr fresh ↦ ground arith
        ],
      )
]

pending_≢_approved :
    (b : Bool) (n : ℕ) (user device : String)
    → (if b then slow_down n else still_pending) ≢ approved user device
pending_≢_approved true n user device h = cc
pending_≢_approved false n user device h = cc

known_≢_approved : (o : Option ℕ) (user device : String) → is_known o ≢ approved user device
known_≢_approved none user device h = cc
known_≢_approved (some t) user device h = cc

approved_inj : {a b c d : String} → approved a b ≡ approved c d → (a ≡ c) × (b ≡ d)
approved_inj h = (cc, cc)

-- What a poll that is answered with tokens found, and what it left.
abbrev Redeems : String → Option Pending → String → String → PendingCodes → Type 0
Redeems code o user device pc' =
    (lookup code pc'.codes ≡ none)
    × ((p : Pending) × ((o ≡ some p) × ((p.approved_by ≡ some user) × (p.device_id ≡ device))))

poll_entry-Redeems :
    (pc : PendingCodes) (code : String) (p : Pending) (o : Option String) (now : ℕ)
    (user device : String)
    → p.approved_by ≡ o
    → (poll_entry pc code p o now).1.0 ≡ approved user device
    → Redeems code (some p) user device (poll_entry pc code p o now).0
poll_entry-Redeems pc code p none now user device e h =
    let early = is_early p.last_poll p.interval now in
    elim (pending_≢_approved early (if early then p.interval + slow_down_step else p.interval) user
      device h) [ ]
poll_entry-Redeems pc code p (some u) now user device e h =
    let same = approved_inj h in
    (
      lookup-remove code code pc.codes ∙ if_true (text_eq code code) _ _ (eq_refl code),
      (p, (refl, (e ∙ ap some same.0, same.1))),
    )

poll_found-Redeems :
    (pc : PendingCodes) (code : String) (o : Option Pending) (now : ℕ) (user device : String)
    → (poll_found pc code o now).1.0 ≡ approved user device
    → Redeems code o user device (poll_found pc code o now).0
poll_found-Redeems pc code none now user device h =
    elim (known_≢_approved (lookup code pc.expired) user device h) [ ]
poll_found-Redeems pc code (some p) now user device h =
    poll_entry-Redeems pc code p p.approved_by now user device refl h

is_known-cases : (o : Option ℕ) → (is_known o ≡ unknown) ⊎ (is_known o ≡ expired_poll)
is_known-cases none = inl refl
is_known-cases (some t) = inr refl

absent_stays :
    (pc : PendingCodes) (code : String) (now : ℕ)
    → lookup code pc.codes ≡ none
    → lookup code (evict pc now).codes ≡ none
absent_stays pc code now h = elim (evict-Fewer pc now code) [ inl n ↦ n | inr s ↦ s ∙ h ]

-- A poll is answered with tokens only for a code that is in the table, was handed out at most ten
-- minutes ago and was approved, and for the approving user under the device id of the code.
pub approved_poll_is_approved :
    (pc : PendingCodes) (code : String) (now : ℕ) (user device : String)
    → (poll pc code now).1.0 ≡ approved user device
    → (p : Pending) × ((lookup code pc.codes ≡ some p)
        × ((p.approved_by ≡ some user) × ((p.device_id ≡ device) × (now ≤ p.at + device_code_ttl))))
unfolding poll
approved_poll_is_approved pc code now user device h =
    let r =
      poll_found-Redeems (evict pc now) code (lookup code (evict pc now).codes) now user device h in
    let fresh = evict-fresh pc now code r.1.0 r.1.1.0 in
    (r.1.0, (fresh.0, (r.1.1.1.0, (r.1.1.1.1, fresh.1))))

-- A code that was redeemed is out of the table: the next poll, at whatever time, finds it expired
-- or unknown.
pub redeemed_once :
    (pc : PendingCodes) (code : String) (now later : ℕ) (user device : String)
    → (poll pc code now).1.0 ≡ approved user device
    → let next = (poll (poll pc code now).0 code later).1.0 in
      (next ≡ unknown) ⊎ (next ≡ expired_poll)
unfolding poll
redeemed_once pc code now later user device h =
    let r =
      poll_found-Redeems (evict pc now) code (lookup code (evict pc now).codes) now user device h in
    let pc' = (poll pc code now).0 in
    let absent = absent_stays pc' code later r.0 in
    subst
      (λ (o : Option Pending).
        let next = (poll_found (evict pc' later) code o later).1.0 in
        (next ≡ unknown) ⊎ (next ≡ expired_poll))
      (sym absent) (is_known-cases (lookup code (evict pc' later).expired))
