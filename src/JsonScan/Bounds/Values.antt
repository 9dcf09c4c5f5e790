-- ===== src/JsonScan/Bounds/Values.antt =====
-- src/json_scan.rs outside strings, and a whole call of `feed`: every buffer stays within its cap.
use remarkable_server.Base.{
  ℕ, if_intro, suc, ◌+◌, ◌≤◌, ◌==◌, ltb, leb, Bool, true, false, ◌&&◌, ◌||◌, List, [], ◌∷◌, length,
  length-append, Bytes, Option, none, some, codes, arith,
}
use remarkable_server.Base.Result.{ok}
use remarkable_server.JsonScan.{
  max_depth, max_number, Streamed, Output, State, Container, Role, Target, Scanner,
}
use remarkable_server.JsonScan.Structure.{
  begin_string, value_done, pop, close, member_here, open_string, mark_not_string, open_container,
  open_literal, open_number, open_value, begin_value, open_key, expect_key, set_state, after_value,
  by_state, structural, literal_rest, literal, is_number_byte, end_number,
}
use remarkable_server.JsonScan.Feed.{
  run, after_run, leaving, string, push_digits, after_digits, number, turn,
}
use remarkable_server.JsonScan.Bounds.{
  IsBounded, holds, Holds-if, fails, kept, kept_silent, Bounded, Quiet, Left,
}
use remarkable_server.JsonScan.Bounds.Strings.{string_loop-Bounded, leaving-Left}

module _ (limit : ℕ) where
  open_string-Bounded :
      (m : Option Target) (s : Scanner) (o : Output)
      → IsBounded limit s
      → Bounded limit (ok (open_string m s o))
  unfolding open_string begin_string
  open_string-Bounded none s o h = kept (begin_string Role.skipped s) o h
  open_string-Bounded (some Target.streamed) s o h =
      kept (begin_string Role.streamed (record s { streamed = Streamed.text })) _ h
  open_string-Bounded (some (Target.captured i)) s o (c, d, k, t, n) =
      kept (begin_string (Role.captured i) (record s { text = []; text_long = false })) o
        (c, d, k, omega arith, n)
  open_string-Bounded (some Target.other) s o h = kept (begin_string Role.skipped s) o h

  open_container-Quiet :
      (c : Container) (st : State) (s : Scanner)
      → IsBounded limit s
      → Quiet limit (open_container c st s)
  unfolding open_container
  open_container-Quiet x st s (c, d, k, t, n) =
      if_intro (Quiet limit) (leb max_depth (length s.stack)) _ _ (λ h. fails _)
        λ h. holds (record s { stack = x ∷ s.stack; state = st }) (c, ground arith, k, t, n)

  open_value-Quiet : (b : ℕ) (s : Scanner) → IsBounded limit s → Quiet limit (open_value b s)
  unfolding open_value open_literal open_number
  open_value-Quiet b s (c, d, k, t, n) =
      Holds-if (b == 0x7B)
        (open_container-Quiet Container.object State.object_start s (c, d, k, t, n))
        (Holds-if (b == 0x5B)
          (open_container-Quiet Container.array State.array_start s (c, d, k, t, n))
          (Holds-if (b == 0x74) (holds (open_literal (codes "rue") s) (c, d, k, t, n)) (
            Holds-if (b == 0x66) (holds (open_literal (codes "alse") s) (c, d, k, t, n)) (
              Holds-if (b == 0x6E) (holds (open_literal (codes "ull") s) (c, d, k, t, n)) (
                Holds-if (b == 0x2D || (leb 0x30 b && leb b 0x39))
                  (holds (open_number b s) (c, d, k, t, omega arith)) (fails _))))))

  mark_not_string-IsBounded :
      (m : Option Target) (s : Scanner) → IsBounded limit s → IsBounded limit (mark_not_string m s)
  unfolding mark_not_string
  mark_not_string-IsBounded none s h = h
  mark_not_string-IsBounded (some Target.streamed) s h = h
  mark_not_string-IsBounded (some (Target.captured i)) s h = h
  mark_not_string-IsBounded (some Target.other) s h = h

  begin_value-Bounded :
      (b : ℕ) (s : Scanner) (o : Output) → IsBounded limit s → Bounded limit (begin_value b s o)
  unfolding begin_value
  begin_value-Bounded b s o h =
      Holds-if (b == 0x22) (open_string-Bounded (member_here s.member s.stack) s o h) (
        kept_silent o (open_value b (mark_not_string (member_here s.member s.stack) s)) (
          open_value-Quiet b (mark_not_string (member_here s.member s.stack) s)
            (mark_not_string-IsBounded (member_here s.member s.stack) s h)))

  close-IsBounded : (s : Scanner) → IsBounded limit s → IsBounded limit (close s)
  unfolding close value_done pop
  close-IsBounded s (c, d, k, t, n) = (c, popped s.stack d, k, t, n)
    where
      popped : (cs : List Container) → length cs ≤ max_depth → length (pop cs) ≤ max_depth
      popped [] le = le
      popped (x ∷ cs) le = omega arith

  expect_key-Quiet :
      (first : Bool) (b : ℕ) (s : Scanner) → IsBounded limit s → Quiet limit (expect_key first b s)
  unfolding expect_key open_key begin_string
  expect_key-Quiet first b s (c, d, k, t, n) =
      Holds-if (b == 0x22) (holds (open_key first s) (c, d, omega arith, t, n)) (fails _)

  after_value-Quiet :
      (b : ℕ) (cs : List Container) (s : Scanner)
      → IsBounded limit s
      → Quiet limit (after_value b cs s)
  unfolding after_value set_state
  after_value-Quiet b [] s h = fails _
  after_value-Quiet b (Container.object ∷ cs) s h =
      Holds-if (b == 0x2C) (holds (set_state State.key s) h)
        (Holds-if (b == 0x7D) (holds (close s) (close-IsBounded s h)) (fails _))
  after_value-Quiet b (Container.array ∷ cs) s h =
      Holds-if (b == 0x2C) (holds (set_state State.value s) h)
        (Holds-if (b == 0x5D) (holds (close s) (close-IsBounded s h)) (fails _))

  by_state-Bounded :
      (st : State) (b : ℕ) (s : Scanner) (o : Output)
      → IsBounded limit s
      → Bounded limit (by_state st b s o)
  unfolding by_state set_state
  by_state-Bounded State.value b s o h = begin_value-Bounded b s o h
  by_state-Bounded State.array_start b s o h =
      Holds-if (b == 0x5D) (kept (close s) o (close-IsBounded s h)) (begin_value-Bounded b s o h)
  by_state-Bounded State.object_start b s o h =
      Holds-if (b == 0x7D) (kept (close s) o (close-IsBounded s h))
        (kept_silent o (expect_key true b s) (expect_key-Quiet true b s h))
  by_state-Bounded State.key b s o h =
      kept_silent o (expect_key false b s) (expect_key-Quiet false b s h)
  by_state-Bounded State.colon b s o h =
      Holds-if (b == 0x3A) (kept (set_state State.value s) o h) (fails _)
  by_state-Bounded State.after_value b s o h =
      kept_silent o (after_value b s.stack s) (after_value-Quiet b s.stack s h)
  by_state-Bounded State.str b s o h = fails _
  by_state-Bounded State.number b s o h = fails _
  by_state-Bounded State.literal b s o h = fails _
  by_state-Bounded State.end b s o h = fails _

  literal-Quiet : (b : ℕ) (s : Scanner) → IsBounded limit s → Quiet limit (literal b s)
  unfolding literal literal_rest value_done
  literal-Quiet b s h = by_rest s.literal
    where
      by_rest : (ls : Bytes) → Quiet limit (literal_rest ls b s)
      by_rest [] = fails _
      by_rest (w ∷ []) =
          Holds-if (w == b) (holds (value_done (record s { literal = [] })) h) (fails _)
      by_rest (w ∷ x ∷ ls) = Holds-if (w == b) (holds (record s { literal = x ∷ ls }) h) (fails _)

  structural-Left :
      (b : ℕ) (rest : Bytes) (s : Scanner) (o : Output)
      → IsBounded limit s
      → Left limit (leaving rest (structural b s o))
  unfolding structural
  structural-Left b rest s o h = leaving-Left limit rest _ (
      Holds-if (b == 0x20 || b == 0x0A || b == 0x0D || b == 0x09) (kept s o h)
        (by_state-Bounded s.state b s o h))

  after_digits-Quiet :
      (is_numeral : Bytes → Bool) (left : Bytes) (s : Scanner)
      → IsBounded limit s
      → Quiet limit (after_digits is_numeral left s)
  unfolding after_digits end_number value_done
  after_digits-Quiet is_numeral [] s h = holds s h
  after_digits-Quiet is_numeral (b ∷ left) s (c, d, k, t, n) =
      Holds-if (is_numeral s.number)
        (holds (value_done (record s { number = [] })) (c, d, k, t, omega arith)) (fails _)

  number-Left :
      (is_numeral : Bytes → Bool) (input : Bytes) (s : Scanner) (o : Output)
      → IsBounded limit s
      → Left limit (number is_numeral input s o)
  unfolding number push_digits
  number-Left is_numeral input s o (c, d, k, t, n) =
      if_intro (Left limit) (ltb max_number (length s.number + length (run is_number_byte input))) _
        _ (λ h. fails _)
        λ h. leaving-Left limit (after_run is_number_byte input) _ (
          kept_silent o _ (
            after_digits-Quiet is_numeral (after_run is_number_byte input)
              (push_digits (run is_number_byte input) s)
              (c, d, k, t, ground (arith, length-append s.number (run is_number_byte input)))))

  pub turn-Left :
      (is_numeral : Bytes → Bool) (st : State) (b : ℕ) (rest : Bytes) (s : Scanner) (o : Output)
      → IsBounded limit s
      → Left limit (turn is_numeral st b rest s o)
  unfolding turn string
  turn-Left is_numeral State.str b rest s o h =
      string_loop-Bounded limit (suc (length rest)) (b ∷ rest) s o h
  turn-Left is_numeral State.number b rest s o h = number-Left is_numeral (b ∷ rest) s o h
  turn-Left is_numeral State.literal b rest s o h =
      leaving-Left limit rest _ (kept_silent o (literal b s) (literal-Quiet b s h))
  turn-Left is_numeral State.value b rest s o h = structural-Left b rest s o h
  turn-Left is_numeral State.array_start b rest s o h = structural-Left b rest s o h
  turn-Left is_numeral State.object_start b rest s o h = structural-Left b rest s o h
  turn-Left is_numeral State.key b rest s o h = structural-Left b rest s o h
  turn-Left is_numeral State.colon b rest s o h = structural-Left b rest s o h
  turn-Left is_numeral State.after_value b rest s o h = structural-Left b rest s o h
  turn-Left is_numeral State.end b rest s o h = structural-Left b rest s o h
