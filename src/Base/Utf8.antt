-- ===== src/Base/Utf8.antt =====
-- Rust's `std::str::from_utf8` as a test: no overlong form, no surrogate, nothing past U+10FFFF.
use remarkable_server.Base.Tests.{leb, ◌==◌, if◌then◌else◌}
use remarkable_server.Base.Lists.{Bytes}
use Prim.Native.Nat.{ℕ, zero, suc}
use mathlib.Core.Bool.{Bool, true, false, ◌&&◌, ◌||◌}
use mathlib.Core.List.{[], ◌∷◌}
use mathlib.Core.Path.{◌≡◌, refl}

abbrev within : ℕ → ℕ → ℕ → Bool
within lo hi b = leb lo b && leb b hi

-- `need` continuation bytes are due, the next one between `lo` and `hi`.
pub utf8_rest : ℕ → ℕ → ℕ → Bytes → Bool
utf8_rest zero lo hi [] = true
utf8_rest (suc need) lo hi [] = false
utf8_rest zero lo hi (b ∷ bs) = elim (leb b 0x7F) [
  | true ↦ utf8_rest 0 0x80 0xBF bs
  | false ↦ elim (within 0xC2 0xDF b) [
    | true ↦ utf8_rest 1 0x80 0xBF bs
    | false ↦ elim (within 0xE0 0xEF b) [
      | true ↦ utf8_rest 2 (if b == 0xE0 then 0xA0 else 0x80) (if b == 0xED then 0x9F else 0xBF) bs
      | false ↦ elim (within 0xF0 0xF4 b) [
        | true ↦
            utf8_rest 3 (if b == 0xF0 then 0x90 else 0x80) (if b == 0xF4 then 0x8F else 0xBF) bs
        | false ↦ false
      ]
    ]
  ]
]
utf8_rest (suc need) lo hi (b ∷ bs) = within lo hi b && utf8_rest need 0x80 0xBF bs

unfoldable pub is_utf8 : Bytes → Bool
unfolding utf8_rest
is_utf8 = utf8_rest 0 0x80 0xBF

-- A Unicode scalar value, which is what a Rust `char` holds.
abbrev pub is_scalar : ℕ → Bool
is_scalar c = leb c 0xD7FF || within 0xE000 0x10FFFF c

euro : is_utf8 (0x41 ∷ 0xE2 ∷ 0x82 ∷ 0xAC ∷ []) ≡ true
unfolding is_utf8
euro = refl

surrogate : is_utf8 (0xED ∷ 0xA0 ∷ 0x80 ∷ []) ≡ false
unfolding is_utf8
surrogate = refl
