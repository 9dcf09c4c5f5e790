-- ===== src/Mqtt/Session/Subscribe.antt =====
-- src/mqtt_ws.rs, the SUBSCRIBE loop: its fuel is enough, and what it keeps of the subscriptions.
use remarkable_server.Base.{
  ℕ, zero, suc, ◌+◌, ◌*◌, ◌%◌, ◌≤◌, ◌<◌, ◌≡◌, refl, leb, ltb, true, false, ◌||◌, Option, none, some,
  List, [], ◌∷◌, ◌++◌, length, length-append, length-take, drop, get_elem?, Bytes, bytes_eq,
  bytes_eq_iff, All, arith, Option-cases, subst, OnSome, get_elem?-lt, length-drop, Bool-cases, inl,
  inr,
}
use remarkable_server.Mqtt.Codec.{parse_mqtt_bytes, parse_mqtt_string}
use remarkable_server.Mqtt.Session.{
  is_concrete, contains, add_filter, Filters, take_filter, read_filter, filter_round,
  subscribe_loop, max_subscriptions,
}

-- No topic twice.
abbrev pub Distinct : List Bytes → Type 0
Distinct [] = Unit
Distinct (t ∷ ts) = (contains ts t ≡ false) × Distinct ts

abbrev pub Concrete : Bytes → Type 0
Concrete t = is_concrete t ≡ true

-- What a session may be subscribed to.
pub record IsSubs (subs : List Bytes) : Type 0 where
  pub distinct : Distinct subs
  pub concrete : All Concrete subs
  pub capped : length subs ≤ max_subscriptions

pub contains-append :
    (ts : List Bytes) (t x : Bytes) → contains (ts ++ t ∷ []) x ≡ (contains ts x || bytes_eq t x)
contains-append [] t x = ground arith
contains-append (y ∷ ts) t x = ground (arith, contains-append ts t x)

pub bytes_eq_comm : (a b : Bytes) → bytes_eq a b ≡ false → bytes_eq b a ≡ false
bytes_eq_comm a b h = ground (arith, bytes_eq_iff a b, bytes_eq_iff b a)

Distinct-concat :
    (ts : List Bytes) (t : Bytes) → Distinct ts → contains ts t ≡ false → Distinct (ts ++ t ∷ [])
Distinct-concat [] t d h = (refl, tt)
Distinct-concat (y ∷ ts) t d h =
    ground
      (arith, Distinct-concat ts t d.1, contains-append ts t y, bytes_eq_iff t y, bytes_eq_iff y t)

All-concat :
    (ts : List Bytes) (t : Bytes) → All Concrete ts → Concrete t → All Concrete (ts ++ t ∷ [])
All-concat [] t a h = (h, tt)
All-concat (y ∷ ts) t a h = (a.0, All-concat ts t a.1 h)

-- One filter keeps the subscriptions distinct, concrete and at most 64.
pub add_filter-IsSubs :
    (subs : List Bytes) (topic : Bytes) (qos : ℕ)
    → IsSubs subs
    → IsSubs (add_filter subs topic qos).0
unfolding add_filter
add_filter-IsSubs subs topic qos s = elim (Bool-cases (is_concrete topic)) [
  | inr wild ↦ rw wild s
  | inl concrete ↦ rw concrete (elim (Bool-cases (contains subs topic)) [
    | inl known ↦ rw known s
    | inr new ↦ rw new (elim (Bool-cases (leb max_subscriptions (length subs))) [
      | inl full ↦ rw full s
      | inr room ↦ rw room (record {
        distinct = Distinct-concat subs topic s.distinct new;
        concrete = All-concat subs topic s.concrete concrete;
        capped = ground (arith, length-append subs (topic ∷ []));
      })
    ])
  ])
]

take_filter-IsSubs :
    (frame : Bytes) (l : Filters) (topic : Bytes) (behind : ℕ) (o : Option ℕ)
    → IsSubs l.subs
    → IsSubs (take_filter frame l topic behind o).subs
unfolding take_filter
take_filter-IsSubs frame l topic behind none s = s
take_filter-IsSubs frame l topic behind (some byte) s = add_filter-IsSubs l.subs topic (byte % 4) s

abbrev KeepsSubs : Option Filters → Type 0
KeepsSubs = OnSome (λ l. IsSubs l.subs)

read_filter-IsSubs :
    (frame : Bytes) (l : Filters) (o : Option (Bytes × ℕ))
    → IsSubs l.subs
    → KeepsSubs (read_filter frame l o)
unfolding read_filter
read_filter-IsSubs frame l none s = tt
read_filter-IsSubs frame l (some (topic, n)) s =
    take_filter-IsSubs frame l topic (l.offset + n) (get_elem? frame (l.offset + n)) s

filter_round-IsSubs :
    (frame : Bytes) (end_ : ℕ) (l : Filters) → IsSubs l.subs → KeepsSubs (filter_round frame end_ l)
unfolding filter_round
filter_round-IsSubs frame end_ l s = elim (Bool-cases (ltb l.offset end_)) [
  | inl more ↦
      rw (more, filter_round)
        (read_filter-IsSubs frame l (parse_mqtt_string (drop l.offset frame)) s)
  | inr done ↦ rw (done, filter_round) tt
]

pub subscribe_loop-IsSubs :
    (fuel : ℕ) (frame : Bytes) (end_ : ℕ) (l : Filters)
    → IsSubs l.subs
    → IsSubs (subscribe_loop fuel frame end_ l).subs
unfolding subscribe_loop
subscribe_loop-IsSubs zero frame end_ l s = s
subscribe_loop-IsSubs (suc fuel) frame end_ l s = elim (Option-cases (filter_round frame end_ l)) [
  | inl done ↦ rw (done, subscribe_loop) s
  | inr (l', more) ↦
      rw (more, subscribe_loop)
        (subscribe_loop-IsSubs fuel frame end_ l'
          (subst KeepsSubs more (filter_round-IsSubs frame end_ l s)))
]

-- A field is at least two bytes long, and no longer than what it is read from.
parse_mqtt_string_size :
    (d : Bytes) (t : Bytes) (n : ℕ) → parse_mqtt_string d ≡ some (t, n) → (2 ≤ n) × (n ≤ length d)
unfolding parse_mqtt_string parse_mqtt_bytes
parse_mqtt_string_size [] t n e = cc
parse_mqtt_string_size (a ∷ []) t n e = cc
parse_mqtt_string_size (a ∷ b ∷ d) t n e = ground (arith, length-take (a * 256 + b) d)

-- Behind `l`, within the frame.
abbrev Moves : Bytes → Filters → Option Filters → Type 0
Moves frame l = OnSome (λ l'. (l.offset < l'.offset) × (l'.offset ≤ length frame))

take_filter-Moves :
    (frame : Bytes) (l : Filters) (topic : Bytes) (behind : ℕ) (o : Option ℕ)
    → get_elem? frame behind ≡ o
    → l.offset < behind
    → behind ≤ length frame
    → Moves frame l (some (take_filter frame l topic behind o))
unfolding take_filter
take_filter-Moves frame l topic behind none e h k = (h, k)
take_filter-Moves frame l topic behind (some byte) e h k =
    omega (arith, get_elem?-lt behind frame e, h)

read_filter-Moves :
    (frame : Bytes) (l : Filters) (o : Option (Bytes × ℕ))
    → parse_mqtt_string (drop l.offset frame) ≡ o
    → l.offset ≤ length frame
    → Moves frame l (read_filter frame l o)
unfolding read_filter
read_filter-Moves frame l none e h = tt
read_filter-Moves frame l (some (topic, n)) e h =
    let size = parse_mqtt_string_size (drop l.offset frame) topic n e in
    take_filter-Moves frame l topic (l.offset + n) (get_elem? frame (l.offset + n)) refl
      (omega (arith, size)) (omega (arith, size, length-drop l.offset frame))

-- A round moves on, and stays within the frame.
filter_round-Moves :
    (frame : Bytes) (end_ : ℕ) (l : Filters)
    → l.offset ≤ length frame
    → Moves frame l (filter_round frame end_ l)
unfolding filter_round
filter_round-Moves frame end_ l h = elim (Bool-cases (ltb l.offset end_)) [
  | inl more ↦
      rw (more, filter_round)
        (read_filter-Moves frame l (parse_mqtt_string (drop l.offset frame)) refl h)
  | inr done ↦ rw (done, filter_round) tt
]

-- The SUBSCRIBE loop ends for every frame, from any place within it. With fuel above what is left of
-- the frame it stops where the code's loop does, at the packet's end or at a filter that cannot be
-- read, so that no further round is made of where it stopped; and all such fuels agree.
pub subscribe_loop_ends :
    (f g : ℕ) (frame : Bytes) (end_ : ℕ) (l : Filters)
    → l.offset ≤ length frame
    → length frame < l.offset + f
    → length frame < l.offset + g
    → (filter_round frame end_ (subscribe_loop f frame end_ l) ≡ none)
      × (subscribe_loop f frame end_ l ≡ subscribe_loop g frame end_ l)
unfolding subscribe_loop
subscribe_loop_ends zero g frame end_ l h j k = absurd (omega arith)
subscribe_loop_ends (suc f) zero frame end_ l h j k = absurd (omega arith)
subscribe_loop_ends (suc f) (suc g) frame end_ l h j k =
    elim (Option-cases (filter_round frame end_ l)) [
      | inl done ↦ rw (done, subscribe_loop) (done, refl)
      | inr (l', more) ↦
          let (ahead, within) = subst (Moves frame l) more (filter_round-Moves frame end_ l h) in
          rw (more, subscribe_loop)
            (subscribe_loop_ends f g frame end_ l' within (omega arith) (omega arith))
    ]
