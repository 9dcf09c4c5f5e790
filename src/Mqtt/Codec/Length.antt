-- ===== src/Mqtt/Codec/Length.antt =====
-- src/mqtt_ws.rs: the remaining length that is written is the one that is read back.
use remarkable_server.Base.{
  ℕ, zero, suc, ◌+◌, ◌*◌, ◌/◌, ◌%◌, ◌≤◌, ◌<◌, ◌≡◌, refl, ◌∙◌, ap, some, [], ◌∷◌, ◌++◌, ◌⊎◌, inl,
  inr, sym, append_assoc, append-nil, length, ltb, Bytes, arith, if◌then◌else◌, Bool-cases,
}
use remarkable_server.Mqtt.Codec.{
  parse_length_loop, parse_remaining_length, push_length_loop, push_remaining_length,
}

-- Any fuel above the length serves.
push-fuel :
    (f g : ℕ) (packet : Bytes) (len : ℕ)
    → len < f
    → len < g
    → push_length_loop f packet len ≡ push_length_loop g packet len
unfolding push_length_loop
push-fuel zero g packet len h k = elim h [ ]
push-fuel (suc f) zero packet len h k = elim k [ ]
push-fuel (suc f) (suc g) packet len h k =
    ground (arith, push-fuel f g (packet ++ (len % 128 + 128) ∷ []) (len / 128))

-- The loop ends for every length, and does what its body says.
pub push-loop_eq :
    (packet : Bytes) (len : ℕ)
    → push_remaining_length packet len ≡ (
        if ltb 0 (len / 128)
        then push_remaining_length (packet ++ (len % 128 + 128) ∷ []) (len / 128)
        else packet ++ len % 128 ∷ [])
unfolding push_remaining_length push_length_loop
push-loop_eq packet len = elim (Bool-cases (ltb 0 (len / 128))) [
  | inl more ↦ rw more (
      push-fuel len (suc (len / 128)) (packet ++ (len % 128 + 128) ∷ []) (len / 128) (ground arith)
        (omega arith))
  | inr last ↦ rw last
]

-- What is pushed stands behind the packet so far.
push-append :
    (f : ℕ) (packet : Bytes) (len : ℕ)
    → push_length_loop f packet len ≡ packet ++ push_length_loop f [] len
unfolding push_length_loop
push-append zero packet len = sym (append-nil packet)
push-append (suc f) packet len = elim (Bool-cases (ltb 0 (len / 128))) [
  | inl more ↦ rw more (
      push-append f (packet ++ (len % 128 + 128) ∷ []) (len / 128)
      ∙ append_assoc packet ((len % 128 + 128) ∷ []) _
      ∙ ap (λ (l : Bytes). packet ++ l) (sym (push-append f ((len % 128 + 128) ∷ []) (len / 128))))
  | inr last ↦ rw last
]

-- The multipliers that the parser still accepts, with the lengths that fit behind them.
abbrev Room : ℕ → ℕ → Type 0
Room m len =
    ((m ≡ 1) × (len < 268435456))
    ⊎ ((m ≡ 128) × (len < 2097152))
    ⊎ ((m ≡ 16384) × (len < 16384))
    ⊎ ((m ≡ 2097152) × (len < 128))

Room-next : (m len : ℕ) → 128 ≤ len → Room m len → Room (m * 128) (len / 128) × (m * 128 ≤ 2097152)
Room-next m len h r = ground arith

digit-value : (v len m : ℕ) → v + (len % 128 + 128) % 128 * m + len / 128 * (m * 128) ≡ v + len * m
digit-value v len m =
    let split : len / 128 * 128 + len % 128 ≡ len = omega arith in
    let low : (len % 128 + 128) % 128 ≡ len % 128 = omega arith in
    rw low (omega (arith, ap (λ (t : ℕ). t * m) split))

parse-push :
    (f m v i len : ℕ) (rest : Bytes)
    → len < f
    → Room m len
    → parse_length_loop m v i (push_length_loop f [] len ++ rest)
      ≡ some (v + len * m, i + length (push_length_loop f [] len))
unfolding parse_length_loop push_length_loop
parse-push zero m v i len rest h r = elim h [ ]
parse-push (suc f) m v i len rest h r = elim (Bool-cases (ltb 0 (len / 128))) [
  | inl more ↦
      rw (more, push-append f ((len % 128 + 128) ∷ []) (len / 128))
        (ground (
          arith,
          Room-next m len (ground arith) r,
          parse-push f (m * 128) (v + (len % 128 + 128) % 128 * m) (i + 1) (len / 128) rest,
          digit-value v len m,
        ))
  | inr last ↦ rw last (ground arith)
]

pub push_remaining_length-append :
    (packet : Bytes) (len : ℕ)
    → push_remaining_length packet len ≡ packet ++ push_remaining_length [] len
unfolding push_remaining_length
push_remaining_length-append packet len = push-append (suc len) packet len

-- A length that fits in four bytes is read back from what was pushed, whatever follows it, and
-- the parser takes exactly the bytes that were pushed.
pub parse-push_remaining_length :
    (len : ℕ) (rest : Bytes)
    → len < 268435456
    → parse_remaining_length (push_remaining_length [] len ++ rest)
      ≡ some (len, length (push_remaining_length [] len))
unfolding parse_remaining_length push_remaining_length
parse-push_remaining_length len rest h =
    ground (arith, parse-push (suc len) 1 0 0 len rest (omega arith) (inl (refl, h)))

-- The multiplier with the value read so far.
abbrev Partial : ℕ → ℕ → Type 0
Partial m v =
    ((m ≡ 1) × (v < 1))
    ⊎ ((m ≡ 128) × (v < 128))
    ⊎ ((m ≡ 16384) × (v < 16384))
    ⊎ ((m ≡ 2097152) × (v < 2097152))

low_bits-mul : (b m : ℕ) → b % 128 * m ≤ 127 * m
low_bits-mul b m = grind arith

Partial-next :
    (m v b : ℕ)
    → Partial m v
    → (v + b % 128 * m < 268435456) × (m * 128 ≤ 2097152 → Partial (m * 128) (v + b % 128 * m))
Partial-next m v b r = ground (arith, low_bits-mul b m)

parse_loop_bounds :
    (m v i : ℕ) (d : Bytes) (len n : ℕ)
    → Partial m v
    → parse_length_loop m v i d ≡ some (len, n)
    → (len < 268435456) × (i < n) × (n ≤ i + length d)
unfolding parse_length_loop
parse_loop_bounds m v i [] len n r e = cc
parse_loop_bounds m v i (b ∷ d) len n r e =
    ground
      (arith, Partial-next m v b r, parse_loop_bounds (m * 128) (v + b % 128 * m) (i + 1) d len n)

-- What the parser returns is a length below 2^28, read from at least one byte that is there.
pub parse_remaining_length_bounds :
    (d : Bytes) (len n : ℕ)
    → parse_remaining_length d ≡ some (len, n)
    → (len < 268435456) × (0 < n) × (n ≤ length d)
unfolding parse_remaining_length
parse_remaining_length_bounds d len n e =
    ground (arith, parse_loop_bounds 1 0 0 d len n (inl (refl, omega arith)) e)
