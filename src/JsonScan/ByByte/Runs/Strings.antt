-- ===== src/JsonScan/ByByte/Runs/Strings.antt =====
-- src/json_scan.rs, `string`: its loop over runs does what the bytes do one at a time.
use remarkable_server.Base.{
  ℕ, zero, suc, ◌≤◌, ◌==◌, ◌≡◌, refl, ap, ◌∙◌, sym, if◌then◌else◌, Bool, true, false, Bool-cases,
  inl, inr, ◌&&◌, [], ◌∷◌, ◌++◌, append-nil, append_assoc, length, Bytes, arith,
}
use remarkable_server.Base.Result.{ok, err, ◌>>=◌}
use remarkable_server.JsonScan.{Output, State, Scanner}
use remarkable_server.JsonScan.Structure.{Step, silent}
use remarkable_server.JsonScan.Text.{emit, end_string}
use remarkable_server.JsonScan.Feed.{
  run, after_run, is_plain, at_character, Rest, leaving, string_loop,
}
use remarkable_server.JsonScan.ByByte.{view, seen, string_byte, byte_in, byte_run}
use remarkable_server.JsonScan.ByByte.Runs.{byte_run-like}
use remarkable_server.JsonScan.ByByte.Runs.Emits.{place, place-emit, emit_in_two}
use remarkable_server.JsonScan.ByByte.Runs.Escapes.{Stays, stays, escape_byte-Stays}

pub length-after_run : (p : ℕ → Bool) (bs : Bytes) → length (after_run p bs) ≤ length bs
unfolding after_run
length-after_run p [] = omega arith
length-after_run p (b ∷ bs) = ground (arith, length-after_run p bs)

module _ (is_numeral : Bytes → Bool) where
  -- The bytes that a call left, read one at a time.
  abbrev pub read_on : (Scanner × Output) × Bytes → Step
  read_on r = byte_run is_numeral r.1 r.0.0 r.0.1

  byte_run-same :
      (bs : Bytes) (r q : Scanner × Output)
      → seen (ok r) ≡ seen (ok q)
      → seen (byte_run is_numeral bs r.0 r.1) ≡ seen (byte_run is_numeral bs q.0 q.1)
  unfolding seen
  byte_run-same bs r q h =
      let out : r.1 ≡ q.1 = cc in
      let state : view r.0 ≡ view q.0 = cc in
      byte_run-like is_numeral bs r.0 q.0 r.1 state
      ∙ ap (λ z. seen (byte_run is_numeral bs q.0 z)) out

  pub byte_run-str :
      (b : ℕ) (rest : Bytes) (s : Scanner) (o : Output)
      → s.state ≡ State.str
      → byte_run is_numeral (b ∷ rest) s o
        ≡ (string_byte b s o >>= λ r. byte_run is_numeral rest r.0 r.1)
  unfolding byte_run byte_in
  byte_run-str b rest s o st =
      ap (λ z. byte_in is_numeral z b s o >>= λ r. byte_run is_numeral rest r.0 r.1) st

  pub string_byte-plain :
      (b : ℕ) (s : Scanner) (o : Output)
      → at_character s.esc s.utf8_need ≡ true
      → is_plain b ≡ true
      → string_byte b s o ≡ ok (emit (b ∷ []) s o)
  unfolding string_byte is_plain
  string_byte-plain b s o h p = ground arith

  -- A run after the bytes `xs` of a string is put out with them.
  plain_run :
      (rest xs : Bytes) (s : Scanner) (o : Output)
      → s.state ≡ State.str
      → at_character s.esc s.utf8_need ≡ true
      → seen (byte_run is_numeral rest (emit xs s o).0 (emit xs s o).1)
        ≡ seen (
            byte_run is_numeral
              (after_run is_plain rest)
              (emit (xs ++ run is_plain rest) s o).0
              (emit (xs ++ run is_plain rest) s o).1)
  unfolding run after_run place
  plain_run [] xs s o st h =
      sym (ap (λ z. seen (byte_run is_numeral [] (emit z s o).0 (emit z s o).1)) (append-nil xs))
  plain_run (b ∷ rest) xs s o st h = elim (Bool-cases (is_plain b)) [
    | inl p ↦
        let here : at_character (emit xs s o).0.esc (emit xs s o).0.utf8_need ≡ true =
          ap (λ z. at_character z.2 z.3) (place-emit xs s o) ∙ h in
        ap seen (
          byte_run-str b rest (emit xs s o).0 (emit xs s o).1
            (ap (λ z. z.0) (place-emit xs s o) ∙ st))
        ∙ ap (λ x. seen (x >>= λ r. byte_run is_numeral rest r.0 r.1))
            (string_byte-plain b (emit xs s o).0 (emit xs s o).1 here p)
        ∙ sym (
            byte_run-same rest (emit (xs ++ b ∷ []) s o)
              (emit (b ∷ []) (emit xs s o).0 (emit xs s o).1) (emit_in_two xs (b ∷ []) s o))
        ∙ plain_run rest (xs ++ b ∷ []) s o st h
        ∙ ap (λ z. put (after_run is_plain rest) z) (append_assoc xs (b ∷ []) (run is_plain rest))
        ∙ sym (
            ap
              (λ z.
                put (if z then after_run is_plain rest else b ∷ rest)
                  (xs ++ (if z then b ∷ run is_plain rest else [])))
              p)
    | inr p ↦
        ap (put (b ∷ rest)) (sym (append-nil xs))
        ∙ sym (
            ap
              (λ z.
                put (if z then after_run is_plain rest else b ∷ rest)
                  (xs ++ (if z then b ∷ run is_plain rest else [])))
              p)
  ]
    where
      put : Bytes → Bytes → Step
      put bs ys = seen (byte_run is_numeral bs (emit ys s o).0 (emit ys s o).1)

  -- What a turn of the loop leaves reads as the byte and the rest do.
  data Reads (rest : Bytes) (x : Rest) (y : Step) : Type 0 where
    reads :
        seen (x >>= read_on) ≡ seen (y >>= λ r. byte_run is_numeral rest r.0 r.1) → Reads rest x y

  Reads-if :
      (c : Bool) {rest : Bytes} {x x' : Rest} {y y' : Step}
      → (c ≡ true → Reads rest x y)
      → Reads rest x' y'
      → Reads rest (if c then x else x') (if c then y else y')
  Reads-if true h h' = h refl
  Reads-if false h h' = h'

  Reads-leaving : (rest : Bytes) (x : Step) → Reads rest (leaving rest x) x
  unfolding leaving
  Reads-leaving rest (ok r) = reads refl
  Reads-leaving rest (err f) = reads refl

  Reads-then :
      (rest : Bytes) (f : Scanner → Output → Rest) (x : Step) (st : State)
      → Stays st x
      → ((s : Scanner) (o : Output)
          → s.state ≡ st
          → seen (f s o >>= read_on) ≡ seen (byte_run is_numeral rest s o))
      → Reads rest (x >>= λ r. f r.0 r.1) x
  Reads-then rest f (ok r) st (stays e) each = reads (each r.0 r.1 e)
  Reads-then rest f (err x) st e each = reads refl

  seen_of-Reads :
      {rest : Bytes} {x : Rest} {y : Step}
      → Reads rest x y
      → seen (x >>= read_on) ≡ seen (y >>= λ r. byte_run is_numeral rest r.0 r.1)
  seen_of-Reads (reads h) = h

  pub loop_run :
      (fuel : ℕ) (rest : Bytes) (s : Scanner) (o : Output)
      → s.state ≡ State.str
      → length rest ≤ fuel
      → seen (string_loop fuel rest s o >>= read_on) ≡ seen (byte_run is_numeral rest s o)
  unfolding string_loop string_byte place
  loop_run fuel [] s o st le = refl
  loop_run zero (b ∷ rest) s o st le = ground arith
  loop_run (suc fuel) (b ∷ rest) s o st le =
      seen_of-Reads (
        Reads-if (at_character s.esc s.utf8_need && b == 0x22)
          (λ h. Reads-leaving rest (silent o (end_string s)))
          (Reads-if (at_character s.esc s.utf8_need && is_plain b)
            (λ h. reads (
              loop_run fuel (after_run is_plain rest) (emit (b ∷ run is_plain rest) s o).0
                (emit (b ∷ run is_plain rest) s o).1
                (ap (λ z. z.0) (place-emit (b ∷ run is_plain rest) s o) ∙ st)
                (omega (arith, length-after_run is_plain rest))
              ∙ sym (plain_run rest (b ∷ []) s o st (ground arith))))
            (Reads-then rest (string_loop fuel rest) _ s.state (escape_byte-Stays s.esc b s o)
              λ s' o' e. loop_run fuel rest s' o' (e ∙ st) (omega arith))))
      ∙ sym (ap seen (byte_run-str b rest s o st))
