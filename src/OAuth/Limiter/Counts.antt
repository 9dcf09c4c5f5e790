-- ===== src/OAuth/Limiter/Counts.antt =====
-- src/oauth.rs: how many requests `check` admits.
use remarkable_server.Base.{
  ℕ, ◌+◌, ◌-◌, ◌≤◌, ◌<◌, ◌≡◌, refl, sym, ap, ◌∙◌, true, if◌then◌else◌, text_eq, subst, ltb, leb,
  Bool, false, not, ◌&&◌, ◌||◌, Option, none, some, List, [], ◌∷◌, String, length, arith, if_intro,
  if_false,
}
use remarkable_server.Base.Assoc.{Assoc, lookup, insert}
use remarkable_server.Base.Result.{Result, ok, err}
use remarkable_server.OAuth.Pending.{filter}
use remarkable_server.OAuth.Pending.Room.{length-insert, length-filter, length-insert_known}
use remarkable_server.OAuth.Limiter.{
  Window, LimiterInner, fresh, is_full, is_tracked, counted, current, restart_global, check_global,
  check, per_ip_max, global_max, max_tracked_ips, global_window, per_ip_window,
}

-- Requests that are admitted.
abbrev pub is_ok : Result ℕ (Unit {0}) → ℕ
is_ok (ok _) = 1
is_ok (err _) = 0

-- The requests of a sequence, each a client and an instant, that `check` admits.
abbrev pub admitted : LimiterInner → List (String × ℕ) → ℕ
admitted g [] = 0
admitted g ((key, now) ∷ rest) = let r = check g key now in is_ok r.1 + admitted r.0 rest

-- Instants at which the global window is still the one that started at `start`.
abbrev pub Within : ℕ → List (String × ℕ) → Type 0
Within start [] = Unit
Within start ((_, now) ∷ rest) = (now < start + global_window) × Within start rest

abbrev Counts : LimiterInner → (LimiterInner × Result ℕ (Unit {0})) → Type 0
Counts g r =
    (r.0.global.start ≡ g.global.start)
    × ((r.0.global.count ≡ g.global.count + is_ok r.1) × (r.0.global.count ≤ global_max))

check_global-Counts :
    (g : LimiterInner) (key : String) (now : ℕ)
    → g.global.count ≤ global_max
    → Counts g (check_global g key now)
unfolding check_global
check_global-Counts g key now b =
    let full =
      leb global_max g.global.count
      || (leb max_tracked_ips (length g.per_ip) && not (is_tracked (lookup key g.per_ip))) in
    if_intro (Counts g) full _ _ (λ _. (refl, (omega arith, b))) (λ n. (refl, (refl, ground arith)))

in_window :
    (g : LimiterInner) (now : ℕ) → now < g.global.start + global_window → restart_global g now ≡ g
unfolding restart_global
in_window g now w =
    if_false (leb global_window (now - g.global.start)) (record g { global = fresh now }) g
      (ground arith)

check-Counts :
    (g : LimiterInner) (key : String) (now : ℕ)
    → g.global.count ≤ global_max
    → now < g.global.start + global_window
    → Counts g (check g key now)
unfolding check restart_global current
check-Counts g key now b w =
    let g' : LimiterInner = current g now in
    if_intro (Counts g) (is_full (lookup key g'.per_ip)) _ _ (λ _. (refl, (omega arith, b)))
      (λ _.
        subst (λ (h : LimiterInner). Counts g (check_global h key now)) (sym (in_window g' now w))
          (check_global-Counts g' key now b))

-- In one global window that has counted at most `GLOBAL_MAX` requests, whatever clients ask, those
-- counted and those admitted are together at most `GLOBAL_MAX`.
pub admitted-global_max :
    (g : LimiterInner) (requests : List (String × ℕ))
    → g.global.count ≤ global_max
    → Within g.global.start requests
    → g.global.count + admitted g requests ≤ global_max
admitted-global_max g [] b w = omega (arith, b)
admitted-global_max g ((key, now) ∷ rest) b w =
    let one = check-Counts g key now b w.0 in
    let g' = (check g key now).0 in
    omega (
      arith,
      one.1.0,
      admitted-global_max g' rest one.1.1 (subst (λ (s : ℕ). Within s rest) (sym one.0) w.1),
    )

abbrev Tracks : LimiterInner × Result ℕ (Unit {0}) → Type 0
Tracks r = length r.0.per_ip ≤ max_tracked_ips

length-counted :
    (key : String) (now : ℕ) (m : Assoc Window) (o : Option Window)
    → lookup key m ≡ o
    → length m ≤ max_tracked_ips
    → (leb max_tracked_ips (length m) && not (is_tracked o)) ≡ false
    → length (insert key (counted now o) m) ≤ max_tracked_ips
length-counted key now m none e l n = ground (arith, n, length-insert key (counted now none) m)
length-counted key now m (some w) e l n =
    omega (arith, l, length-insert_known key (counted now (some w)) m w e)

or_false : (a b : Bool) → (a || b) ≡ false → b ≡ false
or_false a b h = ground arith

check_global-Tracks :
    (g : LimiterInner) (key : String) (now : ℕ)
    → length g.per_ip ≤ max_tracked_ips
    → Tracks (check_global g key now)
unfolding check_global
check_global-Tracks g key now l =
    let crowded = leb max_tracked_ips (length g.per_ip) && not (is_tracked (lookup key g.per_ip)) in
    if_intro Tracks (leb global_max g.global.count || crowded) _ _ (λ _. l)
      (λ n.
        length-counted key now g.per_ip (lookup key g.per_ip) refl l
          (or_false (leb global_max g.global.count) crowded n))

restart_global-per_ip : (g : LimiterInner) (now : ℕ) → (restart_global g now).per_ip ≡ g.per_ip
unfolding restart_global
restart_global-per_ip g now =
    if_intro (λ (h : LimiterInner). h.per_ip ≡ g.per_ip) (leb global_window (now - g.global.start))
      _ _ (λ _. refl) (λ _. refl)

-- A table of at most `MAX_TRACKED_IPS` clients tracks no more than that after a check, whoever
-- asks.
pub check-tracked :
    (g : LimiterInner) (key : String) (now : ℕ)
    → length g.per_ip ≤ max_tracked_ips
    → length (check g key now).0.per_ip ≤ max_tracked_ips
unfolding check current
check-tracked g key now l =
    let g' : LimiterInner = current g now in
    let l' : length g'.per_ip ≤ max_tracked_ips =
      omega
        (arith, l, length-filter (λ (w : Window). ltb (now - w.start) per_ip_window) g.per_ip) in
    if_intro Tracks (is_full (lookup key g'.per_ip)) _ _ (λ _. l')
      (λ _.
        check_global-Tracks (restart_global g' now) key now
          (omega (arith, l', ap length (restart_global-per_ip g' now))))

-- No client is counted more often than `PER_IP_MAX` in the window that is kept for it.
abbrev pub Capped : Assoc Window → Type 0
Capped [] = Unit
Capped ((_, w) ∷ m) = (w.count ≤ per_ip_max) × Capped m

Capped-if :
    (b : Bool) (k : String) (w : Window) (m : Assoc Window)
    → w.count ≤ per_ip_max
    → Capped m
    → Capped (if b then (k, w) ∷ m else m)
Capped-if true k w m h c = (h, c)
Capped-if false k w m h c = c

Capped-filter : (p : Window → Bool) (m : Assoc Window) → Capped m → Capped (filter p m)
unfolding filter
Capped-filter p [] c = tt
Capped-filter p ((k, w) ∷ m) c = Capped-if (p w) k w (filter p m) c.0 (Capped-filter p m c.1)

Capped-insert :
    (key : String) (v : Window) (m : Assoc Window)
    → v.count ≤ per_ip_max
    → Capped m
    → Capped (insert key v m)
unfolding insert
Capped-insert key v [] h c = (h, tt)
Capped-insert key v ((k, w) ∷ m) h c =
    if_intro Capped (text_eq k key) _ _ (λ _. (h, c.1)) (λ _. (c.0, Capped-insert key v m h c.1))

counted-le : (now : ℕ) (o : Option Window) → is_full o ≡ false → (counted now o).count ≤ per_ip_max
counted-le now none h = omega arith
counted-le now (some w) h = ground arith

check_global-Capped :
    (g : LimiterInner) (key : String) (now : ℕ)
    → is_full (lookup key g.per_ip) ≡ false
    → Capped g.per_ip
    → Capped (check_global g key now).0.per_ip
unfolding check_global
check_global-Capped g key now h c =
    let crowded = leb max_tracked_ips (length g.per_ip) && not (is_tracked (lookup key g.per_ip)) in
    if_intro (λ (r : LimiterInner × Result ℕ (Unit {0})). Capped r.0.per_ip)
      (leb global_max g.global.count || crowded) _ _ (λ _. c)
      (λ _.
        Capped-insert key (counted now (lookup key g.per_ip)) g.per_ip
          (counted-le now (lookup key g.per_ip) h) c)

-- If no client is counted above `PER_IP_MAX`, none is after a check, whoever asks and whatever it
-- answers.
pub check-Capped :
    (g : LimiterInner) (key : String) (now : ℕ)
    → Capped g.per_ip
    → Capped (check g key now).0.per_ip
unfolding check current
check-Capped g key now c =
    let g' : LimiterInner = current g now in
    let c' = Capped-filter (λ (w : Window). ltb (now - w.start) per_ip_window) g.per_ip c in
    let same = restart_global-per_ip g' now in
    if_intro (λ (r : LimiterInner × Result ℕ (Unit {0})). Capped r.0.per_ip)
      (is_full (lookup key g'.per_ip)) _ _ (λ _. c')
      (λ n.
        check_global-Capped (restart_global g' now) key now
          (ap (λ (m : Assoc Window). is_full (lookup key m)) same ∙ n) (subst Capped (sym same) c'))
