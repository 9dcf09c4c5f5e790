-- ===== src/OAuth/Pending.antt =====
-- src/oauth.rs: `PendingCodes`, the outstanding device authorizations.
use remarkable_server.Base.{
  ℕ, zero, suc, ◌+◌, ◌-◌, ltb, leb, if◌then◌else◌, Bool, true, false, not, ◌||◌, Option, none, some,
  List, [], ◌∷◌, String, text_eq, length,
}
use remarkable_server.Base.Assoc.{Assoc, lookup, insert, remove}
pub mod Room
pub mod Bounds
pub mod Polls

abbrev pub device_code_ttl : ℕ
device_code_ttl = 600

abbrev pub poll_interval : ℕ
poll_interval = 5

abbrev pub slow_down_step : ℕ
slow_down_step = 5

abbrev pub poll_slack : ℕ
poll_slack = 1

pub record Pending : Type 0 where
  pub device_id : String
  pub user_code : String
  pub at : ℕ
  pub approved_by : Option String
  pub interval : ℕ
  pub last_poll : Option ℕ

pub data Poll : Type 0 where
  still_pending : Poll
  slow_down : ℕ → Poll
  approved : String → String → Poll
  expired_poll unknown : Poll

pub record PendingCodes : Type 0 where
  pub codes : Assoc Pending
  pub expired : Assoc ℕ
  pub cap : ℕ

abbrev pub new : ℕ → PendingCodes
new cap = record { codes = []; expired = []; cap = cap }

-- `min_by_key`: of equal ones the first.
abbrev pub first_min : String → ℕ → Option (String × ℕ) → Option (String × ℕ)
first_min k t none = some (k, t)
first_min k t (some (j, u)) = if leb t u then some (k, t) else some (j, u)

unfoldable pub oldest {ℓ} : {V : Type ℓ} → (V → ℕ) → Assoc V → Option (String × ℕ)
oldest at [] = none
oldest at ((k, v) ∷ m) = first_min k (at v) (oldest at m)

unfoldable pub filter {ℓ} : {V : Type ℓ} → (V → Bool) → Assoc V → Assoc V
filter p [] = []
filter p ((k, v) ∷ m) = let rest = filter p m in if p v then (k, v) ∷ rest else rest

abbrev pub is_unapproved : Pending → Bool
is_unapproved p = elim p.approved_by [ none ↦ true | some _ ↦ false ]

-- `now.saturating_duration_since(at) > DEVICE_CODE_TTL`
abbrev pub is_stale : ℕ → ℕ → Bool
is_stale now at = ltb device_code_ttl (now - at)

-- The loop of `remember_expired`, with the number of entries as fuel.
unfoldable pub forget_oldest : ℕ → ℕ → Assoc ℕ → Assoc ℕ
unfolding oldest
forget_oldest zero cap m = m
forget_oldest (suc fuel) cap m =
    if leb cap (length m)
    then elim (oldest (λ t. t) m) [ none ↦ m | some r ↦ forget_oldest fuel cap (remove r.0 m) ]
    else m

unfoldable pub remember_expired : PendingCodes → String → ℕ → PendingCodes
remember_expired pc code now = record pc {
  expired = insert code now (forget_oldest (length pc.expired) pc.cap pc.expired);
}

-- The entries of `gone` are removed one by one, each remembered.
unfoldable pub drop_gone : PendingCodes → Assoc Pending → ℕ → PendingCodes
drop_gone pc [] now = pc
drop_gone pc ((k, _) ∷ gone) now =
    drop_gone (remember_expired (record pc { codes = remove k pc.codes }) k now) gone now

unfoldable pub evict : PendingCodes → ℕ → PendingCodes
unfolding drop_gone
evict pc now =
    let pc' = drop_gone pc (filter (λ p. is_stale now p.at) pc.codes) now in
    record pc' { expired = filter (λ t. not (is_stale now t)) pc'.expired }

abbrev pub or_else : Option (String × ℕ) → Option (String × ℕ) → Option (String × ℕ)
or_else none o = o
or_else (some r) o = some r

-- `oldest(false).or_else(|| oldest(true))`
abbrev pub victim : Assoc Pending → Option (String × ℕ)
victim m = or_else (oldest Pending.at (filter is_unapproved m)) (oldest Pending.at m)

-- The loop of `insert`, with the number of codes as fuel.
unfoldable pub make_room : ℕ → PendingCodes → ℕ → PendingCodes
make_room zero pc now = pc
make_room (suc fuel) pc now =
    if leb pc.cap (length pc.codes)
    then elim (victim pc.codes) [
      | none ↦ pc
      | some r ↦
          make_room fuel (remember_expired (record pc { codes = remove r.0 pc.codes }) r.0 now) now
    ]
    else pc

-- `insert`; `device_id` is the fresh one of the random generator.
unfoldable pub insert_code : PendingCodes → String → String → String → ℕ → PendingCodes
unfolding make_room evict
insert_code pc device_code user_code device_id now =
    let pc1 = evict pc now in
    let pc2 = make_room (length pc1.codes) pc1 now in
    record pc2 {
      codes =
          insert device_code
            (record {
              device_id = device_id;
              user_code = user_code;
              at = now;
              approved_by = none;
              interval = poll_interval;
              last_poll = none;
            })
            pc2.codes;
    }

unfoldable pub has_user_code : Assoc Pending → String → Bool
has_user_code [] user_code = false
has_user_code ((_, p) ∷ m) user_code = text_eq p.user_code user_code || has_user_code m user_code

-- The first entry with the user code is marked.
unfoldable pub approve_first : Assoc Pending → String → String → Assoc Pending
approve_first [] user_code user_id = []
approve_first ((k, p) ∷ m) user_code user_id =
    let rest = approve_first m user_code user_id in
    if text_eq p.user_code user_code
    then (k, record p { approved_by = some user_id }) ∷ m
    else (k, p) ∷ rest

unfoldable pub approve : PendingCodes → String → String → ℕ → PendingCodes × Bool
unfolding approve_first has_user_code
approve pc user_code user_id now =
    let pc' = evict pc now in
    (
      record pc' { codes = approve_first pc'.codes user_code user_id },
      has_user_code pc'.codes user_code,
    )

-- `now - last + POLL_SLACK < interval`, for a code that was polled before.
abbrev pub is_early : Option ℕ → ℕ → ℕ → Bool
is_early none interval now = false
is_early (some last) interval now = ltb (now - last + poll_slack) interval

abbrev pub polled_pending :
    PendingCodes → String → Pending → ℕ → PendingCodes × (Poll × Option Pending)
polled_pending pc code p now =
    let early = is_early p.last_poll p.interval now in
    let interval = if early then p.interval + slow_down_step else p.interval in
    (
      record pc {
        codes = insert code (record p { last_poll = some now; interval = interval }) pc.codes;
      },
      (if early then slow_down interval else still_pending, none),
    )

abbrev pub poll_entry :
    PendingCodes → String → Pending → Option String → ℕ → PendingCodes × (Poll × Option Pending)
poll_entry pc code p none now = polled_pending pc code p now
poll_entry pc code p (some user) now =
    (record pc { codes = remove code pc.codes }, (approved user p.device_id, some p))

abbrev pub is_known : Option ℕ → Poll
is_known none = unknown
is_known (some _) = expired_poll

abbrev pub poll_found :
    PendingCodes → String → Option Pending → ℕ → PendingCodes × (Poll × Option Pending)
poll_found pc code none now = (pc, (is_known (lookup code pc.expired), none))
poll_found pc code (some p) now = poll_entry pc code p p.approved_by now

unfoldable pub poll : PendingCodes → String → ℕ → PendingCodes × (Poll × Option Pending)
poll pc code now = let pc' = evict pc now in poll_found pc' code (lookup code pc'.codes) now

unfoldable pub restore : PendingCodes → String → Pending → PendingCodes
restore pc code p = record pc { codes = insert code p pc.codes }
