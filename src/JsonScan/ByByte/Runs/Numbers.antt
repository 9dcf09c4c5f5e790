-- ===== src/JsonScan/ByByte/Runs/Numbers.antt =====
-- src/json_scan.rs, `number`: collecting a run of a numeral does what its bytes do one at a time.
use remarkable_server.Base.{
  ℕ, suc, ◌+◌, ◌≤◌, ◌≡◌, refl, ap, ◌∙◌, sym, ltb, if◌then◌else◌, Bool, Bool-cases, inl, inr, true,
  false, [], ◌∷◌, ◌++◌, append-nil, append_assoc, length, length-append, Bytes, arith, is_empty,
  if_true, if_false,
}
use remarkable_server.Base.Result.{ok, err, ◌>>=◌}
use remarkable_server.JsonScan.{max_number, Output, Fail, State, Scanner}
use remarkable_server.JsonScan.Structure.{
  Step, silent, value_done, structural, is_number_byte, end_number,
}
use remarkable_server.JsonScan.Feed.{
  run, after_run, Rest, leaving, push_digits, after_digits, number,
}
use remarkable_server.JsonScan.ByByte.{byte_in, byte_run, number_byte, after_number}
use remarkable_server.JsonScan.ByByte.Runs.Strings.{read_on}

module _ (is_numeral : Bytes → Bool) where
  byte_run-number :
      (b : ℕ) (rest : Bytes) (s : Scanner) (o : Output)
      → s.state ≡ State.number
      → byte_run is_numeral (b ∷ rest) s o
        ≡ (number_byte is_numeral b s o >>= λ r. byte_run is_numeral rest r.0 r.1)
  unfolding byte_run byte_in
  byte_run-number b rest s o st =
      ap (λ z. byte_in is_numeral z b s o >>= λ r. byte_run is_numeral rest r.0 r.1) st

  push_digits-append :
      (xs ys : Bytes) (s : Scanner) → push_digits ys (push_digits xs s) ≡ push_digits (xs ++ ys) s
  unfolding push_digits
  push_digits-append xs ys s =
      ap {A = Bytes} (λ z. record s { number = z }) (append_assoc s.number xs ys)

  push_digits-nil : (s : Scanner) → push_digits [] s ≡ s
  unfolding push_digits
  push_digits-nil s = ap {A = Bytes} (λ z. record s { number = z }) (append-nil s.number)

  -- The byte after a closed numeral is read by `structural`.
  after_close :
      (t : Bool) (b : ℕ) (rest : Bytes) (s : Scanner) (o : Output)
      → byte_run is_numeral
          (b ∷ rest)
          (record s { state = if t then State.end else State.after_value })
          o
        ≡ (structural b (record s { state = if t then State.end else State.after_value }) o >>= λ r.
            byte_run is_numeral rest r.0 r.1)
  unfolding byte_run byte_in
  after_close true b rest s o = refl
  after_close false b rest s o = refl

  closed :
      (q : Bool) (b : ℕ) (rest : Bytes) (s : Scanner) (o : Output)
      → (leaving
            (b ∷ rest)
            (silent o (if q then ok (value_done s) else err (Fail.syntax "invalid number")))
          >>= read_on is_numeral)
        ≡ (((if q then ok (value_done s) else err (Fail.syntax "invalid number")) >>= λ s'.
              structural b s' o)
            >>= λ r. byte_run is_numeral rest r.0 r.1)
  unfolding leaving silent value_done
  closed true b rest s o = after_close (is_empty s.stack) b rest s o
  closed false b rest s o = refl

  collect : Bytes → Bytes → Scanner → Output → Rest
  collect taken rest s o =
      if ltb max_number (length s.number + length taken)
      then err (Fail.too_long "numeral")
      else leaving rest (silent o (after_digits is_numeral rest (push_digits taken s)))

  number-collect :
      (input : Bytes) (s : Scanner) (o : Output)
      → number is_numeral input s o
        ≡ collect (run is_number_byte input) (after_run is_number_byte input) s o
  unfolding number collect
  number-collect input s o = refl

  tested :
      (q : Bool) (b : ℕ) (rest : Bytes) (s : Scanner) (o : Output)
      → ((if q
            then err (Fail.too_long "numeral")
            else leaving (b ∷ rest) (silent o (end_number is_numeral s)))
          >>= read_on is_numeral)
        ≡ ((if q then err (Fail.too_long "numeral") else after_number is_numeral b s o) >>= λ r.
            byte_run is_numeral rest r.0 r.1)
  unfolding after_number end_number
  tested true b rest s o = refl
  tested false b rest s o = closed (is_numeral s.number) b rest (record s { number = [] }) o

  -- A byte that is no part of the numeral ends it.
  ends :
      (b : ℕ) (rest : Bytes) (s : Scanner) (o : Output)
      → is_number_byte b ≡ false
      → s.state ≡ State.number
      → (number is_numeral (b ∷ rest) s o >>= read_on is_numeral)
        ≡ byte_run is_numeral (b ∷ rest) s o
  unfolding number run after_run number_byte after_digits collect
  ends b rest s o h st =
      let q : length s.number + 0 ≡ length s.number = omega arith in
      ap
        (λ c.
          collect (if c then b ∷ run is_number_byte rest else [])
            (if c then after_run is_number_byte rest else b ∷ rest) s o
          >>= read_on is_numeral)
        h
      ∙ ap
          (λ z.
            (if ltb max_number (length s.number + 0)
              then err (Fail.too_long "numeral")
              else leaving (b ∷ rest) (silent o (end_number is_numeral z)))
            >>= read_on is_numeral)
          (push_digits-nil s)
      ∙ ap
          (λ n.
            (if ltb max_number n
              then err (Fail.too_long "numeral")
              else leaving (b ∷ rest) (silent o (end_number is_numeral s)))
            >>= read_on is_numeral)
          q
      ∙ tested (ltb max_number (length s.number)) b rest s o
      ∙ sym (
          byte_run-number b rest s o st
          ∙ ap
              (λ c.
                (if c
                  then (if ltb max_number (length s.number + 1)
                      then err (Fail.too_long "numeral")
                      else ok (push_digits (b ∷ []) s, o))
                  else if ltb max_number (length s.number)
                  then err (Fail.too_long "numeral")
                  else after_number is_numeral b s o)
                >>= λ r. byte_run is_numeral rest r.0 r.1)
              h)

  -- The first byte of a run, then the others.
  collect-cons :
      (b : ℕ) (taken rest : Bytes) (s : Scanner) (o : Output)
      → collect (b ∷ taken) rest s o ≡ collect taken rest (push_digits (b ∷ []) s) o
  unfolding collect push_digits
  collect-cons b taken rest s o =
      let q : length s.number + length (b ∷ taken) ≡ length (s.number ++ b ∷ []) + length taken =
        omega (arith, length-append s.number (b ∷ [])) in
      ap
        (λ n.
          if ltb max_number n
          then err (Fail.too_long "numeral")
          else leaving rest (silent o (after_digits is_numeral rest (push_digits (b ∷ taken) s))))
        q
      ∙ ap
          (λ z.
            if ltb max_number (length (s.number ++ b ∷ []) + length taken)
            then err (Fail.too_long "numeral")
            else leaving rest (silent o (after_digits is_numeral rest z)))
          (sym (push_digits-append (b ∷ []) taken s))

  -- The run fits, as long as nothing is left of the input.
  pub number_run :
      (rest : Bytes) (s : Scanner) (o : Output)
      → s.state ≡ State.number
      → (is_empty rest ≡ true → length s.number ≤ max_number)
      → (number is_numeral rest s o >>= read_on is_numeral) ≡ byte_run is_numeral rest s o
  unfolding number run after_run collect number_byte push_digits
  number_run [] s o st fits =
      ap (λ x. x >>= read_on is_numeral)
        (if_false (ltb max_number (length s.number + 0)) _ _ (long_if (fits refl)))
      ∙ ap (λ z. byte_run is_numeral [] z o) (push_digits-nil s)
    where
      long_if : length s.number ≤ max_number → ltb max_number (length s.number + 0) ≡ false
      long_if h = ground arith
  number_run (b ∷ rest) s o st fits = elim (Bool-cases (is_number_byte b)) [
    | inr h ↦ ends b rest s o h st
    | inl h ↦
        ap
          (λ c.
            collect (if c then b ∷ run is_number_byte rest else [])
              (if c then after_run is_number_byte rest else b ∷ rest) s o
            >>= read_on is_numeral)
          h
        ∙ first (run is_number_byte rest) (after_run is_number_byte rest)
            (λ le. number_run rest (push_digits (b ∷ []) s) o st (λ e. le))
        ∙ sym (
            byte_run-number b rest s o st
            ∙ ap
                (λ c.
                  (if c
                    then (if ltb max_number (length s.number + 1)
                        then err (Fail.too_long "numeral")
                        else ok (push_digits (b ∷ []) s, o))
                    else if ltb max_number (length s.number)
                    then err (Fail.too_long "numeral")
                    else after_number is_numeral b s o)
                  >>= λ r. byte_run is_numeral rest r.0 r.1)
                h)
  ]
    where
      first :
          (taken left : Bytes)
          → (length (s.number ++ b ∷ []) ≤ max_number
              → (collect taken left (push_digits (b ∷ []) s) o >>= read_on is_numeral)
                ≡ byte_run is_numeral rest (push_digits (b ∷ []) s) o)
          → (collect (b ∷ taken) left s o >>= read_on is_numeral)
            ≡ ◌>>=◌ {A = Scanner × Output}
                (if ltb max_number (length s.number + 1)
                  then err (Fail.too_long "numeral")
                  else ok (push_digits (b ∷ []) s, o))
                (λ r. byte_run is_numeral rest r.0 r.1)
      first taken left rec = elim (Bool-cases (ltb max_number (length s.number + 1))) [
        | inl q ↦
            let long : ltb max_number (length s.number + suc (length taken)) ≡ true =
              ground arith in
            ap (λ x. x >>= read_on is_numeral) (if_true _ _ _ long)
            ∙ sym (
                ap {A = Step} (λ x. x >>= λ r. byte_run is_numeral rest r.0 r.1)
                  (if_true _ _ (ok (push_digits (b ∷ []) s, o)) q))
        | inr q ↦
            ap (λ x. x >>= read_on is_numeral) (collect-cons b taken left s o)
            ∙ rec (ground (arith, length-append s.number (b ∷ [])))
            ∙ sym (
                ap {A = Step} (λ x. x >>= λ r. byte_run is_numeral rest r.0 r.1)
                  (if_false _ (err (Fail.too_long "numeral")) _ q))
      ]
