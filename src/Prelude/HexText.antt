-- ===== src/Prelude/HexText.antt =====
-- Hexadecimal text of numbers, and that `from_str_radix` reads it.
use Prim.Native.Nat.{ℕ, zero, suc, ◌+◌, ◌-◌, ◌*◌, ◌/◌, ◌%◌, ◌^◌, ◌≤◌, ◌<◌}
use mathlib.Core.Path.{◌≡◌, refl, ap, sym, ◌∙◌}
use mathlib.Core.Bool.{true, false}
use mathlib.Core.Option.{some}
use mathlib.Core.List.{[], ◌∷◌}
use native.Mathlib.Nat.{
  mod-eq_of_lt, pow-suc, mul-le-mul_left, div-add-mod, mod-eq-sub-mul-div, div-div-eq-div-mul,
}
use native.Mathlib.Omega.{arith}
use solo_pool_rs.Prelude.Tests.{ltb, leb, ◌==◌, if◌then◌else◌}
use solo_pool_rs.Prelude.Bytes.{Bytes}
use solo_pool_rs.Prelude.Words.{u32_max, hex_digit, radix_loop, u32_from_hex}

-- `{:x}`'s lower-case digit.
pub hex_char : ℕ → ℕ
hex_char d = if ltb d 10 then d + b'0' else d - 10 + b'a'

-- `{:0width$x}` of a number of at most `width` digits.
unfoldable pub format_hex : ℕ → ℕ → Bytes
unfolding hex_char
format_hex zero x = []
format_hex (suc width) x = hex_char (x / 16 ^ width % 16) ∷ format_hex width x

hex_digit-hex_char : (d : ℕ) → d < 16 → hex_digit (hex_char d) ≡ some d
unfolding hex_char hex_digit
hex_digit-hex_char d h = ground arith

hex_char-not_plus : (d : ℕ) → d < 16 → (hex_char d == b'+') ≡ false
unfolding hex_char
hex_char-not_plus d h = ground arith

mod-mul_16 : (x p : ℕ) → x % (p * 16) ≡ x / p % 16 * p + x % p
mod-mul_16 x p = omega (
  arith,
  mod-eq-sub-mul-div x (p * 16),
  ap (λ q. p * 16 * q) (div-div-eq-div-mul x p 16),
  div-add-mod x p,
  ap (λ q. p * q) (div-add-mod (x / p) 16),
)

radix_loop-step :
    (acc c d : ℕ) (cs : Bytes)
    → hex_digit c ≡ some d
    → acc * 16 + d ≤ u32_max
    → radix_loop acc (c ∷ cs) ≡ radix_loop (acc * 16 + d) cs
unfolding radix_loop
radix_loop-step acc c d cs e h = rw (radix_loop, e, leb_true) refl
  where
    leb_true : leb (acc * 16 + d) u32_max ≡ true
    leb_true = ground arith

radix_loop-format_hex :
    (w acc x : ℕ)
    → acc * 16 ^ w + x % 16 ^ w ≤ u32_max
    → radix_loop acc (format_hex w x) ≡ some (acc * 16 ^ w + x % 16 ^ w)
unfolding radix_loop format_hex
radix_loop-format_hex zero acc x h = ap some (omega arith)
radix_loop-format_hex (suc w) acc x h =
    let d = x / 16 ^ w % 16 in
    let value : acc * 16 ^ suc w + x % 16 ^ suc w ≡ (acc * 16 + d) * 16 ^ w + x % 16 ^ w =
      ap (λ p. acc * p + x % p) (pow-suc 16 w) ∙ omega (arith, mod-mul_16 x (16 ^ w)) in
    let fits : acc * 16 + d ≤ u32_max =
      omega (arith, h, value, le-mul_right (acc * 16 + d) (16 ^ w) (pow-pos w)) in
    radix_loop-step acc (hex_char d) d (format_hex w x) (hex_digit-hex_char d (omega arith)) fits
    ∙ radix_loop-format_hex w (acc * 16 + d) x (omega (arith, h, value))
    ∙ ap some (sym value)
  where
    pow-pos : (k : ℕ) → 0 < 16 ^ k
    pow-pos zero = omega arith
    pow-pos (suc k) = omega (arith, pow-pos k, pow-suc 16 k)

    le-mul_right : (a p : ℕ) → 0 < p → a ≤ a * p
    le-mul_right a p pos = omega (arith, mul-le-mul_left {m = 1} {n = p} a pos)

-- A u32 written with 1 to 8 digits, zeros in front, reads back.
pub u32_from_hex-format_hex :
    (w x : ℕ) → x < 16 ^ suc w → x ≤ u32_max → u32_from_hex (format_hex (suc w) x) ≡ some x
unfolding u32_from_hex format_hex
u32_from_hex-format_hex zero x h small =
    radix_loop-format_hex 1 0 x (omega (arith, h, small)) ∙ ap some (omega (arith, h))
u32_from_hex-format_hex (suc w) x h small =
    rw (u32_from_hex, hex_char-not_plus (x / 16 ^ suc w % 16) (omega arith))
      (radix_loop-format_hex (suc (suc w)) 0 x (omega (arith, h, small, mod-eq_of_lt h))
        ∙ ap some (omega (arith, mod-eq_of_lt h)))
