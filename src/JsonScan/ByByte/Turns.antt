-- ===== src/JsonScan/ByByte/Turns.antt =====
-- src/json_scan.rs, the loop of `feed`: its turns, the fuel that they need, and the bytes of a
-- chunk one at a time.
use remarkable_server.Base.{
  ltb, ℕ, zero, suc, ◌+◌, ◌-◌, ◌*◌, ◌≤◌, ◌≡◌, refl, ap, ◌∙◌, sym, if◌then◌else◌, Bool, true, false,
  [], ◌∷◌, length, Bytes, arith, is_empty,
}
use remarkable_server.Base.Result.{Result, ok, err, ◌>>=◌}
use remarkable_server.JsonScan.{max_number, Output, ScanError, Fail, State, Scanner}
use remarkable_server.JsonScan.Structure.{
  Step, silent, is_number_byte, value_done, structural, literal, end_number,
}
use remarkable_server.JsonScan.Feed.{
  Rest, leaving, run, after_run, string_loop, string, number, push_digits, after_digits, turn,
  error, placed, feed_loop,
}
use remarkable_server.JsonScan.ByByte.{seen, byte_in, byte_run}
use remarkable_server.JsonScan.ByByte.Fuel.{
  needed, needed-le, needed-pos, OnOk-weaken, OnOk-if, Shorter, Needs, string_turn-Leaves,
  loop-Leaves,
}
use remarkable_server.JsonScan.ByByte.Runs.Escapes.{OnOk}
use remarkable_server.JsonScan.ByByte.Runs.Strings.{read_on, loop_run, length-after_run}
use remarkable_server.JsonScan.ByByte.Runs.Numbers.{number_run}

-- The failure, without its place.
unfoldable pub kind {ℓ} : {A : Type ℓ} → Result ScanError A → Result Fail A
kind (ok a) = ok a
kind (err (ScanError.syntax at what)) = err (Fail.syntax what)
kind (err (ScanError.too_long what)) = err (Fail.too_long what)

kind-placed : {A : Type 0} (s : Scanner) (i : ℕ) (x : Result Fail A) → kind (placed s i x) ≡ x
unfolding kind placed error
kind-placed s i (ok a) = refl
kind-placed s i (err (Fail.syntax what)) = refl
kind-placed s i (err (Fail.too_long what)) = refl

module _ (is_numeral : Bytes → Bool) where
  leaving_run :
      (rest : Bytes) (x : Step)
      → (leaving rest x >>= read_on is_numeral) ≡ (x >>= λ r. byte_run is_numeral rest r.0 r.1)
  unfolding leaving
  leaving_run rest (ok r) = refl
  leaving_run rest (err f) = refl

  -- A turn that takes one byte.
  one_byte :
      (b : ℕ) (rest : Bytes) (s : Scanner) (o : Output) (st : State) (x : Step)
      → s.state ≡ st
      → byte_in is_numeral st b s o ≡ x
      → seen (leaving rest x >>= read_on is_numeral) ≡ seen (byte_run is_numeral (b ∷ rest) s o)
  unfolding byte_run
  one_byte b rest s o st x e h = ap seen (
      leaving_run rest x
      ∙ sym (
          ap {A = Step} (λ y. y >>= λ r. byte_run is_numeral rest r.0 r.1)
            (ap (λ z. byte_in is_numeral z b s o) e ∙ h)))

  turn_run :
      (b : ℕ) (rest : Bytes) (s : Scanner) (o : Output) (st : State)
      → s.state ≡ st
      → seen (turn is_numeral st b rest s o >>= read_on is_numeral)
        ≡ seen (byte_run is_numeral (b ∷ rest) s o)
  unfolding turn string byte_in
  turn_run b rest s o State.str e =
      loop_run is_numeral (suc (length rest)) (b ∷ rest) s o e (omega arith)
  turn_run b rest s o State.number e = ap seen (number_run is_numeral (b ∷ rest) s o e λ h. cc)
  turn_run b rest s o State.literal e = one_byte b rest s o _ _ e refl
  turn_run b rest s o State.value e = one_byte b rest s o _ _ e refl
  turn_run b rest s o State.array_start e = one_byte b rest s o _ _ e refl
  turn_run b rest s o State.object_start e = one_byte b rest s o _ _ e refl
  turn_run b rest s o State.key e = one_byte b rest s o _ _ e refl
  turn_run b rest s o State.colon e = one_byte b rest s o _ _ e refl
  turn_run b rest s o State.after_value e = one_byte b rest s o _ _ e refl
  turn_run b rest s o State.end e = one_byte b rest s o _ _ e refl

  after_digits-Needs :
      (n : ℕ) (left : Bytes) (s : Scanner) (o : Output)
      → length left ≤ n
      → OnOk (Needs (2 * n - 1)) (leaving left (silent o (after_digits is_numeral left s)))
  unfolding after_digits end_number value_done leaving silent needed
  after_digits-Needs n [] s o le = omega (arith, needed-le s.state 0)
  after_digits-Needs n (c ∷ left) s o le = closed (is_numeral s.number) (is_empty s.stack)
    where
      closed :
          (q t : Bool)
          → OnOk (Needs (2 * n - 1)) (
              leaving (c ∷ left) (
                silent o (
                  if q
                  then ok
                      (record s { number = []; state = if t then State.end else State.after_value })
                  else err (Fail.syntax "invalid number"))))
      closed true true = omega arith
      closed true false = omega arith
      closed false t = tt

  one_less :
      (b : ℕ) (rest : Bytes) (fuel : ℕ) (x : Step)
      → 2 * length rest ≤ fuel
      → OnOk (Needs fuel) (leaving rest x)
  unfolding leaving
  one_less b rest fuel (ok r) le = omega (arith, needed-le r.0.state (length rest))
  one_less b rest fuel (err f) le = tt

  -- What a turn leaves needs one turn fewer.
  turn_leaves :
      (b : ℕ) (rest : Bytes) (s : Scanner) (o : Output) (fuel : ℕ) (st : State)
      → needed st (suc (length rest)) ≤ suc fuel
      → OnOk (Needs fuel) (turn is_numeral st b rest s o)
  unfolding turn string number needed
  turn_leaves b rest s o fuel State.str le =
      OnOk-weaken (Shorter (length rest)) (Needs fuel)
        (string_loop (suc (length rest)) (b ∷ rest) s o)
        (λ r h. omega (arith, needed-le r.0.0.state (length r.1)))
        (string_turn-Leaves (length rest) b rest s o (loop-Leaves (length rest)))
  turn_leaves b rest s o fuel State.number le =
      OnOk-if (Needs fuel)
        (ltb max_number (length s.number + length (run is_number_byte (b ∷ rest)))) _ _ tt
        (OnOk-weaken (Needs (2 * suc (length rest) - 1)) (Needs fuel) _ (λ r h. omega arith)
          (after_digits-Needs (suc (length rest)) (after_run is_number_byte (b ∷ rest))
            (push_digits (run is_number_byte (b ∷ rest)) s) o
            (length-after_run is_number_byte (b ∷ rest))))
  turn_leaves b rest s o fuel State.literal le =
      one_less b rest fuel (silent o (literal b s)) (omega arith)
  turn_leaves b rest s o fuel State.value le = one_less b rest fuel (structural b s o) (omega arith)
  turn_leaves b rest s o fuel State.array_start le =
      one_less b rest fuel (structural b s o) (omega arith)
  turn_leaves b rest s o fuel State.object_start le =
      one_less b rest fuel (structural b s o) (omega arith)
  turn_leaves b rest s o fuel State.key le = one_less b rest fuel (structural b s o) (omega arith)
  turn_leaves b rest s o fuel State.colon le = one_less b rest fuel (structural b s o) (omega arith)
  turn_leaves b rest s o fuel State.after_value le =
      one_less b rest fuel (structural b s o) (omega arith)
  turn_leaves b rest s o fuel State.end le = one_less b rest fuel (structural b s o) (omega arith)

  after_turn :
      (len fuel : ℕ) (rest : Bytes) (s : Scanner)
      → ((r : (Scanner × Output) × Bytes)
          → Needs fuel r
          → seen (kind (feed_loop is_numeral len fuel r.1 r.0.0 r.0.1))
            ≡ seen (read_on is_numeral r))
      → (x : Rest) → OnOk (Needs fuel) x
      → seen (
          kind (
            placed s (len - suc (length rest)) x >>= λ r.
            feed_loop is_numeral len fuel r.1 r.0.0 r.0.1))
        ≡ seen (x >>= read_on is_numeral)
  unfolding kind placed error seen
  after_turn len fuel rest s each (ok r) h = each r h
  after_turn len fuel rest s each (err (Fail.syntax what)) h = refl
  after_turn len fuel rest s each (err (Fail.too_long what)) h = refl

  feed_run :
      (len fuel : ℕ) (rest : Bytes) (s : Scanner) (o : Output)
      → needed s.state (length rest) ≤ fuel
      → seen (kind (feed_loop is_numeral len fuel rest s o)) ≡ seen (byte_run is_numeral rest s o)
  unfolding feed_loop kind placed error byte_run seen
  feed_run len fuel [] s o le = refl
  feed_run len zero (b ∷ rest) s o le = ground (arith, needed-pos s.state (length rest))
  feed_run len (suc fuel) (b ∷ rest) s o le =
      after_turn len fuel rest s (λ r h. feed_run len fuel r.1 r.0.0 r.0.1 h)
        (turn is_numeral s.state b rest s o) (turn_leaves b rest s o fuel s.state le)
      ∙ turn_run b rest s o s.state refl

  pub feed_loop_run :
      (len : ℕ) (rest : Bytes) (s : Scanner) (o : Output)
      → seen (kind (feed_loop is_numeral len (2 * length rest) rest s o))
        ≡ seen (byte_run is_numeral rest s o)
  feed_loop_run len rest s o =
      feed_run len (2 * length rest) rest s o (needed-le s.state (length rest))
