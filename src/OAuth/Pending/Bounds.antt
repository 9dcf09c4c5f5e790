-- ===== src/OAuth/Pending/Bounds.antt =====
-- src/oauth.rs: the caps on outstanding and on remembered codes, and which code makes room.
use remarkable_server.Base.{
  ℕ, ◌+◌, ◌<◌, ◌≡◌, refl, ◌∙◌, if◌then◌else◌, Option, none, some, List, [], ◌∷◌, String, length,
  arith,
}
use remarkable_server.Base.Assoc.{Assoc, lookup}
use remarkable_server.OAuth.Pending.{
  Pending, PendingCodes, evict, make_room, insert_code, approve_first, approve, poll, poll_found,
  poll_entry, is_early, slow_down_step,
}
use remarkable_server.OAuth.Pending.Room.{
  length-remove, length-insert, length-insert_known, IsBounded, evict-Shrinks, make_room-lt,
}

-- A call of the table, from anywhere but `restore`.
pub data Call : Type 0 where
  evicting : ℕ → Call
  inserting : String → String → String → ℕ → Call
  approving : String → String → ℕ → Call
  polling : String → ℕ → Call

abbrev pub call : PendingCodes → Call → PendingCodes
call pc (evicting now) = evict pc now
call pc (inserting code user_code device_id now) = insert_code pc code user_code device_id now
call pc (approving user_code user_id now) = (approve pc user_code user_id now).0
call pc (polling code now) = (poll pc code now).0

abbrev pub calls : PendingCodes → List Call → PendingCodes
calls pc [] = pc
calls pc (c ∷ cs) = calls (call pc c) cs

length-approve_first :
    (m : Assoc Pending) (user_code user_id : String)
    → length (approve_first m user_code user_id) ≡ length m
unfolding approve_first
length-approve_first [] user_code user_id = refl
length-approve_first ((k, p) ∷ m) user_code user_id =
    ground (arith, length-approve_first m user_code user_id)

-- What one call keeps.
abbrev Keeps : PendingCodes → PendingCodes → Type 0
Keeps pc pc' = (pc'.cap ≡ pc.cap) × IsBounded pc'

evict-Keeps : (pc : PendingCodes) (now : ℕ) → 0 < pc.cap → IsBounded pc → Keeps pc (evict pc now)
evict-Keeps pc now c b =
    let s = evict-Shrinks pc now c b.1 in
    (s.0, (omega (arith, s.0, s.1.0, b.0), omega (arith, s.0, s.1.1)))

insert-Keeps :
    (pc : PendingCodes) (code user_code device_id : String) (now : ℕ)
    → 0 < pc.cap
    → IsBounded pc
    → Keeps pc (insert_code pc code user_code device_id now)
unfolding insert_code
insert-Keeps pc code user_code device_id now c b =
    let e = evict-Shrinks pc now c b.1 in
    let pc1 = evict pc now in
    let r =
      make_room-lt (length pc1.codes) pc1 now (omega (arith, c, e.0)) (omega (arith, e.0, e.1.1))
        (omega arith) in
    (
      r.1.0 ∙ e.0,
      (
        omega (
          arith,
          r.0,
          r.1.0,
          length-insert code
              (record {
                device_id = device_id;
                user_code = user_code;
                at = now;
                approved_by = none;
                interval = 5;
                last_poll = none;
              })
              (make_room (length pc1.codes) pc1 now).codes,
        ),
        omega (arith, r.1.0, r.1.1.1),
      ),
    )

approve-Keeps :
    (pc : PendingCodes) (user_code user_id : String) (now : ℕ)
    → 0 < pc.cap
    → IsBounded pc
    → Keeps pc (approve pc user_code user_id now).0
unfolding approve
approve-Keeps pc user_code user_id now c b =
    let e = evict-Keeps pc now c b in
    (
      e.0,
      (omega (arith, e.1.0, length-approve_first (evict pc now).codes user_code user_id), e.1.1),
    )

poll_entry-Keeps :
    (pc : PendingCodes) (code : String) (p : Pending) (o : Option String) (now : ℕ)
    → lookup code pc.codes ≡ some p
    → IsBounded pc
    → Keeps pc (poll_entry pc code p o now).0
poll_entry-Keeps pc code p none now h b =
    let early = is_early p.last_poll p.interval now in
    let p' : Pending = record p {
      last_poll = some now;
      interval = if early then p.interval + slow_down_step else p.interval;
    } in
    (refl, (omega (arith, b.0, length-insert_known code p' pc.codes p h), b.1))
poll_entry-Keeps pc code p (some user) now h b =
    (refl, (omega (arith, b.0, length-remove code pc.codes), b.1))

poll_found-Keeps :
    (pc : PendingCodes) (code : String) (o : Option Pending) (now : ℕ)
    → lookup code pc.codes ≡ o
    → IsBounded pc
    → Keeps pc (poll_found pc code o now).0
poll_found-Keeps pc code none now h b = (refl, b)
poll_found-Keeps pc code (some p) now h b = poll_entry-Keeps pc code p p.approved_by now h b

poll-Keeps :
    (pc : PendingCodes) (code : String) (now : ℕ)
    → 0 < pc.cap
    → IsBounded pc
    → Keeps pc (poll pc code now).0
unfolding poll
poll-Keeps pc code now c b =
    let e = evict-Keeps pc now c b in
    let f = poll_found-Keeps (evict pc now) code (lookup code (evict pc now).codes) now refl e.1 in
    (f.0 ∙ e.0, f.1)

call-Keeps : (pc : PendingCodes) (k : Call) → 0 < pc.cap → IsBounded pc → Keeps pc (call pc k)
call-Keeps pc (evicting now) c b = evict-Keeps pc now c b
call-Keeps pc (inserting code user_code device_id now) c b =
    insert-Keeps pc code user_code device_id now c b
call-Keeps pc (approving user_code user_id now) c b = approve-Keeps pc user_code user_id now c b
call-Keeps pc (polling code now) c b = poll-Keeps pc code now c b

-- From a table within its caps (the cap not 0), whatever sequence of evictions, insertions,
-- approvals and polls follows, at most `cap` codes are outstanding and at most `cap` are
-- remembered as expired; the cap stays.
pub calls-IsBounded :
    (pc : PendingCodes) (ks : List Call)
    → 0 < pc.cap
    → IsBounded pc
    → IsBounded (calls pc ks) × ((calls pc ks).cap ≡ pc.cap)
calls-IsBounded pc [] c b = (b, refl)
calls-IsBounded pc (k ∷ ks) c b =
    let one = call-Keeps pc k c b in
    let rest = calls-IsBounded (call pc k) ks (omega (arith, c, one.0)) one.1 in
    (rest.0, rest.1 ∙ one.0)
