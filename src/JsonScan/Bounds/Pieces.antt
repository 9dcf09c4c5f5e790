-- ===== src/JsonScan/Bounds/Pieces.antt =====
-- src/json_scan.rs, `feed` over the pieces of a body: every buffer within its cap throughout.
use remarkable_server.Base.{
  ℕ, zero, suc, ◌-◌, ◌*◌, ◌≡◌, refl, subst, Bool, Option, List, [], ◌∷◌, length, Bytes, arith,
}
use remarkable_server.Base.Result.{Result, ok, ◌>>=◌}
use remarkable_server.JsonScan.{Output, no_output, Fail, Scanner, new}
use remarkable_server.JsonScan.Feed.{turn, placed, feed_loop, advance, feed}
use remarkable_server.JsonScan.Body.{receive, feed_pieces}
use remarkable_server.JsonScan.Bounds.{IsBounded, Holds, holds, fails}
use remarkable_server.JsonScan.Bounds.Values.{turn-Left}

Holds-placed :
    {A : Type 0} {P : A → Type 0} (s : Scanner) (i : ℕ) (x : Result Fail A)
    → Holds P x
    → Holds P (placed s i x)
unfolding placed
Holds-placed s i _ (holds a h) = holds a h
Holds-placed s i _ (fails f) = fails _

Holds-then :
    {E A B : Type 0} {P : A → Type 0} {Q : B → Type 0} {f : A → Result E B} (x : Result E A)
    → Holds P x
    → ((a : A) → P a → Holds Q (f a))
    → Holds Q (x >>= f)
Holds-then _ (holds a h) each = each a h
Holds-then _ (fails e) each = fails e

module _ (limit : ℕ) (is_numeral : Bytes → Bool) where
  feed_loop-Holds :
      (len fuel : ℕ) (bs : Bytes) (s : Scanner) (o : Output)
      → IsBounded limit s
      → Holds (λ r. IsBounded limit r.0) (feed_loop is_numeral len fuel bs s o)
  unfolding feed_loop
  feed_loop-Holds len fuel [] s o h = holds (s, o) h
  feed_loop-Holds len zero (b ∷ rest) s o h = holds (s, o) h
  feed_loop-Holds len (suc fuel) (b ∷ rest) s o h =
      Holds-then _
        (Holds-placed s (len - suc (length rest)) (turn is_numeral s.state b rest s o)
          (turn-Left limit is_numeral s.state b rest s o h))
        λ r h'. feed_loop-Holds len fuel r.1 r.0.0 r.0.1 h'

  feed-Holds :
      (input : Bytes) (s : Scanner) (o : Output)
      → IsBounded limit s
      → Holds (λ r. IsBounded limit r.0) (feed is_numeral input s o)
  unfolding feed advance
  feed-Holds input s o h =
      Holds-then _ (feed_loop-Holds (length input) (2 * length input) input s o h)
        λ r h'. holds (advance (length input) r.0, r.1) h'

  pieces-Holds :
      (pieces : List Bytes) (s : Scanner) (blob : Option Bytes)
      → IsBounded limit s
      → Holds (λ r. IsBounded limit r.0) (feed_pieces is_numeral pieces s blob)
  unfolding feed_pieces
  pieces-Holds [] s blob h = holds (s, blob) h
  pieces-Holds (piece ∷ pieces) s blob h =
      Holds-then _ (feed-Holds piece s no_output h)
        λ r h'. pieces-Holds pieces r.0 (receive blob r.1) h'

holds_of_ok : {E A : Type 0} (P : A → Type 0) (x : Result E A) (a : A) → Holds P x → x ≡ ok a → P a
holds_of_ok P _ a (holds b h) e = let q : b ≡ a = cc in subst P q h
holds_of_ok P _ a (fails f) e = cc

-- However long the body and wherever it is cut, a new scanner that has not failed holds at most
-- 127 nested containers, a key of 64 bytes, a captured text of `capture_cap` and a numeral of 4096.
pub pieces-IsBounded :
    (is_numeral : Bytes → Bool) (key : Bytes) (keys : List Bytes) (limit : ℕ) (pieces : List Bytes)
    (blob left : Option Bytes) (s : Scanner)
    → feed_pieces is_numeral pieces (new key keys limit) blob ≡ ok (s, left)
    → IsBounded limit s
unfolding new
pieces-IsBounded is_numeral key keys limit pieces blob left s e =
    holds_of_ok (λ r. IsBounded limit r.0) _ (s, left)
      (pieces-Holds limit is_numeral pieces (new key keys limit) blob
        (refl, omega arith, omega arith, omega arith, omega arith))
      e
