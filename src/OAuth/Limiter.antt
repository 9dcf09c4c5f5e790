-- ===== src/OAuth/Limiter.antt =====
-- src/oauth.rs: `DeviceCodeLimiter`, the fixed windows on requests for a device code. A client is
-- the text of the address that `limit_key` gives; `Duration`s are whole seconds.
use remarkable_server.Base.{
  ℕ, suc, ◌+◌, ◌-◌, ◌≤◌, ◌<◌, ◌≡◌, refl, sym, ap, ◌∙◌, ltb, leb, if◌then◌else◌, Bool, true, false,
  not, ◌&&◌, ◌||◌, Option, none, some, List, [], ◌∷◌, String, text_eq, length, arith, Bool-cases,
  Option-cases, if_intro, if_true, if_false, OnSome,
}
use remarkable_server.Base.Assoc.{Assoc, lookup, insert}
use remarkable_server.Base.Result.{Result, ok, err}
use remarkable_server.OAuth.Pending.{filter}
pub mod Counts

abbrev pub per_ip_max : ℕ
per_ip_max = 5

abbrev pub per_ip_window : ℕ
per_ip_window = 600

abbrev pub global_max : ℕ
global_max = 20

abbrev pub global_window : ℕ
global_window = 60

abbrev pub max_tracked_ips : ℕ
max_tracked_ips = 1024

pub record Window : Type 0 where
  pub start : ℕ
  pub count : ℕ

abbrev pub fresh : ℕ → Window
fresh now = record { start = now; count = 0 }

pub record LimiterInner : Type 0 where
  pub per_ip : Assoc Window
  pub global : Window

abbrev pub default : ℕ → LimiterInner
default now = record { per_ip = []; global = fresh now }

abbrev pub is_full : Option Window → Bool
is_full none = false
is_full (some w) = leb per_ip_max w.count

abbrev pub start_or : ℕ → Option Window → ℕ
start_or now none = now
start_or now (some w) = w.start

abbrev pub is_tracked : Option Window → Bool
is_tracked none = false
is_tracked (some _) = true

-- `entry(key).or_insert_with(fresh)`, counted once more.
abbrev pub counted : ℕ → Option Window → Window
counted now none = record { start = now; count = 1 }
counted now (some w) = record { start = w.start; count = w.count + 1 }

-- The windows after those that ended are dropped.
unfoldable pub current : LimiterInner → ℕ → LimiterInner
current g now = record g { per_ip = filter (λ w. ltb (now - w.start) per_ip_window) g.per_ip }

unfoldable pub restart_global : LimiterInner → ℕ → LimiterInner
restart_global g now =
    if leb global_window (now - g.global.start) then record g { global = fresh now } else g

-- The global limits, for a client that is under its own.
unfoldable pub check_global : LimiterInner → String → ℕ → LimiterInner × Result ℕ (Unit {0})
check_global g key now =
    if leb global_max g.global.count
      || (leb max_tracked_ips (length g.per_ip) && not (is_tracked (lookup key g.per_ip)))
    then (g, err (global_window - (now - g.global.start)))
    else (
      record {
        per_ip = insert key (counted now (lookup key g.per_ip)) g.per_ip;
        global = record g.global { count = g.global.count + 1 };
      },
      ok tt,
    )

-- Admit one request, or say how long to wait.
unfoldable pub check : LimiterInner → String → ℕ → LimiterInner × Result ℕ (Unit {0})
unfolding current restart_global check_global
check g key now =
    let g' = current g now in
    if is_full (lookup key g'.per_ip)
    then (g', err (per_ip_window - (now - start_or now (lookup key g'.per_ip))))
    else check_global (restart_global g' now) key now
