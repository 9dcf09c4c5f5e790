-- ===== src/Examples/Codes.antt =====
-- src/oauth.rs on concrete tables.
use remarkable_server.Base.{◌≡◌, ◌≤◌, ◌+◌, refl, none, some, List, [], ◌∷◌, ◌⊎◌, arith}
use remarkable_server.Base.Assoc.{lookup}
use remarkable_server.OAuth.Pending.{
  Pending, PendingCodes, new, poll, evict, drop_gone, filter, unknown, expired_poll,
  device_code_ttl,
}
use remarkable_server.OAuth.Pending.Bounds.{
  Call, inserting, polling, approving, calls, calls-IsBounded,
}
use remarkable_server.OAuth.Pending.Room.{IsBounded}
use remarkable_server.OAuth.Pending.Polls.{approved_poll_is_approved, redeemed_once}
use remarkable_server.OAuth.Limiter.{LimiterInner, default, check, global_max}
use remarkable_server.OAuth.Limiter.Counts.{admitted, admitted-global_max, Capped, check-Capped}

abbrev approved_code : Pending
approved_code = record {
  device_id = "oauth-1";
  user_code = "BCDF-GHJK";
  at = 0;
  approved_by = some "ann";
  interval = 5;
  last_poll = none;
}

-- One code, which ann approved.
abbrev waiting : PendingCodes
waiting = record { codes = ("d1", approved_code) ∷ []; expired = []; cap = 2 }

approved_poll_is_approved_example :
    (p : Pending) × ((lookup "d1" waiting.codes ≡ some p)
      × ((p.approved_by ≡ some "ann")
          × ((p.device_id ≡ "oauth-1") × (10 ≤ p.at + device_code_ttl))))
unfolding poll evict drop_gone filter lookup
approved_poll_is_approved_example = approved_poll_is_approved waiting "d1" 10 "ann" "oauth-1" refl

redeemed_once_example :
    ((poll (poll waiting "d1" 10).0 "d1" 15).1.0 ≡ unknown)
    ⊎ ((poll (poll waiting "d1" 10).0 "d1" 15).1.0 ≡ expired_poll)
unfolding poll evict drop_gone filter lookup
redeemed_once_example = redeemed_once waiting "d1" 10 15 "ann" "oauth-1" refl

-- More codes than fit, with an approval and a poll between.
abbrev busy : List Call
busy =
    inserting "d1" "U1" "oauth-1" 1
    ∷ inserting "d2" "U2" "oauth-2" 2
    ∷ approving "U1" "ann" 3
    ∷ inserting "d3" "U3" "oauth-3" 4
    ∷ polling "d1" 5
    ∷ []

calls-IsBounded_example : IsBounded (calls (new 2) busy) × ((calls (new 2) busy).cap ≡ 2)
calls-IsBounded_example = calls-IsBounded (new 2) busy (omega arith) (omega arith, omega arith)

admitted-global_max_example :
    0 + admitted (default 0) (("1.2.3.4", 1) ∷ ("5.6.7.8", 2) ∷ []) ≤ global_max
admitted-global_max_example =
    admitted-global_max (default 0) (("1.2.3.4", 1) ∷ ("5.6.7.8", 2) ∷ []) (omega arith)
      (omega arith, (omega arith, tt))

-- A limiter that has counted one client four times.
abbrev counting : LimiterInner
counting = record {
  per_ip = ("1.2.3.4", record { start = 0; count = 4 }) ∷ [];
  global = record { start = 0; count = 4 };
}

check-Capped_example : Capped (check counting "1.2.3.4" 1).0.per_ip
check-Capped_example = check-Capped counting "1.2.3.4" 1 (omega arith, tt)
