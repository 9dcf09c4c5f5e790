-- ===== src/JsonScan/ByByte/Alike/OneByte.antt =====
-- src/json_scan.rs, literals, numerals and one byte in all: the same on two states with one view.
use remarkable_server.Base.{ℕ, ◌≡◌, if◌then◌else◌, Bool, true, false, [], ◌∷◌, Bytes}
use remarkable_server.Base.Result.{ok, err, ◌>>=◌}
use remarkable_server.JsonScan.{Output, Fail, State, Scanner}
use remarkable_server.JsonScan.Structure.{value_done, structural, literal_rest, literal, end_number}
use remarkable_server.JsonScan.Feed.{push_digits}
use remarkable_server.JsonScan.ByByte.{shown, join, number_byte, after_number, byte_in}
use remarkable_server.JsonScan.ByByte.Alike.{
  Alike, Quiet, Alike-if, Alike-silent, Quiet-if, fails, Quiet-fails, hidden, same,
}
use remarkable_server.JsonScan.ByByte.Alike.Values.{structural-Alike, string_byte-Alike, Quiet-ok}

module _ (l : Bool) (k k' : Bytes) (u : Bool) (t t' : Bytes) (n n' : ℕ) (p : Output)
    (e : shown l k ≡ shown l k') (d : shown u t ≡ shown u t') where
  literal_rest-Quiet :
      (ls : Bytes) (b : ℕ) (s : Scanner) (o : Output)
      → Quiet p o
          (literal_rest ls b (hidden l k u t n s))
          (literal_rest ls b (hidden l k' u t' n' s))
  unfolding literal_rest value_done
  literal_rest-Quiet [] b s o = Quiet-fails
  literal_rest-Quiet (w ∷ []) b s o =
      Quiet-if _ (Quiet-ok l k k' u t t' n n' p e d (value_done (record s { literal = [] })))
        Quiet-fails
  literal_rest-Quiet (w ∷ x ∷ ls) b s o =
      Quiet-if _ (Quiet-ok l k k' u t t' n n' p e d (record s { literal = x ∷ ls })) Quiet-fails

  number_byte-Alike :
      (is_numeral : Bytes → Bool) (b : ℕ) (s : Scanner) (o : Output)
      → Alike p
          (number_byte is_numeral b (hidden l k u t n s) (join p o))
          (number_byte is_numeral b (hidden l k' u t' n' s) o)
  unfolding number_byte push_digits after_number end_number value_done
  number_byte-Alike is_numeral b s o =
      Alike-if _ (Alike-if _ fails (same l k k' u t t' n n' p e d (push_digits (b ∷ []) s) o))
        (Alike-if _ fails (ended (is_numeral s.number)))
    where
      ended :
          (q : Bool)
          → Alike p
              ((if q
                  then ok (value_done (record (hidden l k u t n s) { number = [] }))
                  else err (Fail.syntax "invalid number"))
                >>= λ s'. structural b s' (join p o))
              ((if q
                  then ok (value_done (record (hidden l k' u t' n' s) { number = [] }))
                  else err (Fail.syntax "invalid number"))
                >>= λ s'. structural b s' o)
      ended true =
          structural-Alike l k k' u t t' n n' p e d b (value_done (record s { number = [] })) o
      ended false = fails

  pub byte_in-Alike :
      (is_numeral : Bytes → Bool) (st : State) (b : ℕ) (s : Scanner) (o : Output)
      → Alike p
          (byte_in is_numeral st b (hidden l k u t n s) (join p o))
          (byte_in is_numeral st b (hidden l k' u t' n' s) o)
  unfolding byte_in literal
  byte_in-Alike is_numeral State.str b s o = string_byte-Alike l k k' u t t' n n' p e d b s o
  byte_in-Alike is_numeral State.number b s o = number_byte-Alike is_numeral b s o
  byte_in-Alike is_numeral State.literal b s o = Alike-silent (literal_rest-Quiet s.literal b s o)
  byte_in-Alike is_numeral State.value b s o = structural-Alike l k k' u t t' n n' p e d b s o
  byte_in-Alike is_numeral State.array_start b s o = structural-Alike l k k' u t t' n n' p e d b s o
  byte_in-Alike is_numeral State.object_start b s o =
      structural-Alike l k k' u t t' n n' p e d b s o
  byte_in-Alike is_numeral State.key b s o = structural-Alike l k k' u t t' n n' p e d b s o
  byte_in-Alike is_numeral State.colon b s o = structural-Alike l k k' u t t' n n' p e d b s o
  byte_in-Alike is_numeral State.after_value b s o = structural-Alike l k k' u t t' n n' p e d b s o
  byte_in-Alike is_numeral State.end b s o = structural-Alike l k k' u t t' n n' p e d b s o
