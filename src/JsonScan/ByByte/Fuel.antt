-- ===== src/JsonScan/ByByte/Fuel.antt =====
-- src/json_scan.rs, the loop of `feed`: how many turns it still needs, and what `string` leaves.
use remarkable_server.Base.{
  ℕ, zero, suc, ◌-◌, ◌*◌, ◌≤◌, ◌<◌, ◌⊎◌, inl, inr, ◌==◌, ◌&&◌, ◌≡◌, refl, if◌then◌else◌, Bool, true,
  false, [], ◌∷◌, length, Bytes, arith,
}
use remarkable_server.Base.Result.{ok, err, ◌>>=◌}
use remarkable_server.JsonScan.{Output, State, Scanner}
use remarkable_server.JsonScan.Text.{escape_byte, end_string}
use remarkable_server.JsonScan.Structure.{Step, silent}
use remarkable_server.JsonScan.Feed.{Rest, leaving, after_run, string_loop, is_plain, at_character}
use remarkable_server.JsonScan.ByByte.Runs.Escapes.{OnOk}
use remarkable_server.JsonScan.ByByte.Runs.Strings.{length-after_run}

-- The turns that are still needed: one more than a byte each where a numeral ends.
unfoldable pub needed : State → ℕ → ℕ
needed State.number n = 2 * n
needed _ n = 2 * n - 1

pub needed-cases : (st : State) (n : ℕ) → (needed st n ≡ 2 * n) ⊎ (needed st n ≡ 2 * n - 1)
unfolding needed
needed-cases State.number n = inl refl
needed-cases State.value n = inr refl
needed-cases State.array_start n = inr refl
needed-cases State.object_start n = inr refl
needed-cases State.key n = inr refl
needed-cases State.colon n = inr refl
needed-cases State.after_value n = inr refl
needed-cases State.str n = inr refl
needed-cases State.literal n = inr refl
needed-cases State.end n = inr refl

pub needed-le : (st : State) (n : ℕ) → needed st n ≤ 2 * n
needed-le st n = elim (needed-cases st n) [ inl e ↦ omega arith | inr e ↦ omega arith ]

pub needed-pos : (st : State) (n : ℕ) → 2 * n < needed st (suc n)
needed-pos st n = elim (needed-cases st (suc n)) [ inl e ↦ omega arith | inr e ↦ omega arith ]

-- Weakening, under a test, and after a step.
pub OnOk-weaken :
    (P Q : (Scanner × Output) × Bytes → Type 0) (x : Rest)
    → ((r : (Scanner × Output) × Bytes) → P r → Q r)
    → OnOk P x
    → OnOk Q x
OnOk-weaken P Q (ok a) h p = h a p
OnOk-weaken P Q (err f) h p = tt

pub OnOk-if :
    (P : (Scanner × Output) × Bytes → Type 0) (b : Bool) (x y : Rest)
    → OnOk P x
    → OnOk P y
    → OnOk P (if b then x else y)
OnOk-if P true x y h h' = h
OnOk-if P false x y h h' = h'

pub OnOk-then :
    (P : (Scanner × Output) × Bytes → Type 0) (x : Step) (f : Scanner → Output → Rest)
    → ((s : Scanner) (o : Output) → OnOk P (f s o))
    → OnOk P (x >>= λ r. f r.0 r.1)
OnOk-then P (ok a) f h = h a.0 a.1
OnOk-then P (err x) f h = tt

abbrev pub Shorter : ℕ → (Scanner × Output) × Bytes → Type 0
Shorter n r = length r.1 ≤ n

abbrev pub Needs : ℕ → (Scanner × Output) × Bytes → Type 0
Needs n r = needed r.0.0.state (length r.1) ≤ n

abbrev pub Leaves : ℕ → Rest → Type 0
Leaves n x = OnOk (Shorter n) x

pub leaving-Leaves : (rest : Bytes) (x : Step) → Leaves (length rest) (leaving rest x)
unfolding leaving
leaving-Leaves rest (ok r) = omega arith
leaving-Leaves rest (err f) = tt

pub string_turn-Leaves :
    (fuel b : ℕ) (rest : Bytes) (s : Scanner) (o : Output)
    → ((bs : Bytes) (s' : Scanner) (o' : Output) → Leaves (length bs) (string_loop fuel bs s' o'))
    → Leaves (length rest) (string_loop (suc fuel) (b ∷ rest) s o)
unfolding string_loop
string_turn-Leaves fuel b rest s o each =
    OnOk-if (Shorter (length rest)) (at_character s.esc s.utf8_need && b == 0x22) _ _
      (leaving-Leaves rest (silent o (end_string s)))
      (OnOk-if (Shorter (length rest)) (at_character s.esc s.utf8_need && is_plain b) _ _
        (OnOk-weaken (Shorter (length (after_run is_plain rest))) (Shorter (length rest)) _
          (λ r h. omega (arith, length-after_run is_plain rest))
          (each (after_run is_plain rest) _ _))
        (OnOk-then (Shorter (length rest)) (escape_byte s.esc b s o) (string_loop fuel rest)
          (each rest)))

pub loop-Leaves :
    (fuel : ℕ) (bs : Bytes) (s : Scanner) (o : Output)
    → Leaves (length bs) (string_loop fuel bs s o)
unfolding string_loop
loop-Leaves fuel [] s o = omega arith
loop-Leaves zero (b ∷ rest) s o = omega arith
loop-Leaves (suc fuel) (b ∷ rest) s o =
    OnOk-weaken (Shorter (length rest)) (Shorter (suc (length rest)))
      (string_loop (suc fuel) (b ∷ rest) s o) (λ r h. omega arith)
      (string_turn-Leaves fuel b rest s o (loop-Leaves fuel))
