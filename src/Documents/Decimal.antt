-- ===== src/Documents/Decimal.antt =====
-- The decimal form of a number, as `format!` writes it, and that `parse::<u64>` reads it back.
use remarkable_server.Base.{
  ℕ, zero, suc, ◌+◌, ◌-◌, ◌*◌, ◌/◌, ◌%◌, ◌^◌, ◌≤◌, ◌<◌, ◌≡◌, refl, ap, ◌∙◌, ◌==◌, ltb, leb, Bool,
  true, false, not, ◌&&◌, some, [], ◌∷◌, is_empty, Bytes, All, if_true, if_false, arith,
}
use remarkable_server.Storage.Index.{digits, parse_u64}

-- The digits of `n` before `rest`, the last digit first; one division by ten for each step.
unfoldable pub decimal_loop : ℕ → ℕ → Bytes → Bytes
decimal_loop zero n rest = (0x30 + n % 10) ∷ rest
decimal_loop (suc steps) n rest = elim (ltb n 10) [
  | true ↦ (0x30 + n) ∷ rest
  | false ↦ decimal_loop steps (n / 10) ((0x30 + n % 10) ∷ rest)
]

-- `n` divisions are enough.
unfoldable pub decimal : ℕ → Bytes
unfolding decimal_loop
decimal n = decimal_loop n n []

-- A property of a split on a Boolean whose second branch waits for it.
elim_intro {ℓ} :
    (P : Bytes → Type ℓ) (b : Bool) (x : Bytes) (y : Unit {0} → Bytes)
    → (b ≡ true → P x)
    → (b ≡ false → P (y tt))
    → P (elim b [ true ↦ x | false ↦ y tt ])
elim_intro P true x y h h' = h refl
elim_intro P false x y h h' = h' refl

-- An ASCII digit.
abbrev pub IsDigit : ℕ → Type 0
IsDigit c = (0x30 ≤ c) × (c ≤ 0x39)

decimal_loop-All :
    (steps n : ℕ) (rest : Bytes) → All IsDigit rest → All IsDigit (decimal_loop steps n rest)
unfolding decimal_loop
decimal_loop-All zero n rest h = ((omega arith, omega arith), h)
decimal_loop-All (suc steps) n rest h =
    elim_intro (All IsDigit) (ltb n 10) _
      (λ _. decimal_loop steps (n / 10) ((0x30 + n % 10) ∷ rest))
      (λ d. ((omega arith, ground arith), h))
      (λ d.
        decimal_loop-All steps (n / 10) ((0x30 + n % 10) ∷ rest) ((omega arith, omega arith), h))

decimal_loop_some : (steps n : ℕ) (rest : Bytes) → is_empty (decimal_loop steps n rest) ≡ false
unfolding decimal_loop
decimal_loop_some zero n rest = refl
decimal_loop_some (suc steps) n rest =
    elim_intro (λ s. is_empty s ≡ false) (ltb n 10) _
      (λ _. decimal_loop steps (n / 10) ((0x30 + n % 10) ∷ rest)) (λ d. refl)
      (λ d. decimal_loop_some steps (n / 10) ((0x30 + n % 10) ∷ rest))

digits_step :
    (n c : ℕ) (rest : Bytes)
    → IsDigit c
    → n * 10 + (c - 0x30) < 2 ^ 64
    → digits n (c ∷ rest) ≡ digits (n * 10 + (c - 0x30)) rest
unfolding digits
digits_step n c rest h fits =
    if_true (leb 0x30 c && leb c 0x39 && ltb (n * 10 + (c - 0x30)) (2 ^ 64)) _ _
      (ground (arith, h.0, h.1))

digits-decimal_loop :
    (steps n : ℕ) (rest : Bytes)
    → n ≤ steps
    → n < 2 ^ 64
    → digits 0 (decimal_loop steps n rest) ≡ digits n rest
unfolding decimal_loop
digits-decimal_loop zero n rest h fits =
    digits_step 0 (0x30 + n % 10) rest (omega arith, omega arith) (omega arith)
    ∙ ap (λ m. digits m rest) (omega arith)
digits-decimal_loop (suc steps) n rest h fits =
    elim_intro (λ s. digits 0 s ≡ digits n rest) (ltb n 10) _
      (λ _. decimal_loop steps (n / 10) ((0x30 + n % 10) ∷ rest))
      (λ d.
        digits_step 0 (0x30 + n) rest (omega arith, ground arith) (ground arith)
        ∙ ap (λ m. digits m rest) (omega arith))
      (λ d.
        digits-decimal_loop steps (n / 10) ((0x30 + n % 10) ∷ rest) (ground arith) (omega arith)
        ∙ digits_step (n / 10) (0x30 + n % 10) rest (omega arith, omega arith) (omega arith)
        ∙ ap (λ m. digits m rest) (omega arith))

parse_u64-digits : (s : Bytes) → All IsDigit s → is_empty s ≡ false → parse_u64 s ≡ digits 0 s
unfolding parse_u64
parse_u64-digits [] h e = cc
parse_u64-digits (c ∷ cs) h e =
    let r : 0x30 ≤ c = h.0.0 in if_false (c == 0x2B && not (is_empty cs)) _ _ (ground arith)

pub decimal-All : (n : ℕ) → All IsDigit (decimal n)
unfolding decimal
decimal-All n = decimal_loop-All n n [] tt

pub decimal_some : (n : ℕ) → is_empty (decimal n) ≡ false
unfolding decimal
decimal_some n = decimal_loop_some n n []

pub parse_u64-decimal : (n : ℕ) → n < 2 ^ 64 → parse_u64 (decimal n) ≡ some n
unfolding decimal digits
parse_u64-decimal n fits =
    parse_u64-digits (decimal n) (decimal-All n) (decimal_some n)
    ∙ digits-decimal_loop n n [] (omega arith) fits
