-- ===== src/Prelude/Words.antt =====
-- Machine integers: bounds, saturating arithmetic, and hexadecimal text.
use Prim.Native.Nat.{ℕ, ◌+◌, ◌-◌, ◌*◌, min}
use mathlib.Core.Bool.{◌&&◌}
use mathlib.Core.Option.{Option, none, some}
use mathlib.Core.List.{[], ◌∷◌}
use solo_pool_rs.Prelude.Tests.{leb, ◌==◌, if◌then◌else◌}
use solo_pool_rs.Prelude.Bytes.{Bytes}

abbrev pub u32_max : ℕ
u32_max = 0xffff_ffff

abbrev pub u64_max : ℕ
u64_max = 0xffff_ffff_ffff_ffff

-- `u32::saturating_add`.
abbrev pub saturating_add_u32 : ℕ → ℕ → ℕ
saturating_add_u32 a b = min (a + b) u32_max

-- `u64::saturating_add`.
abbrev pub saturating_add_u64 : ℕ → ℕ → ℕ
saturating_add_u64 a b = min (a + b) u64_max

-- `char::to_digit(16)`.
unfoldable pub hex_digit : ℕ → Option ℕ
hex_digit c =
    if leb b'0' c && leb c b'9'
    then some (c - b'0')
    else if leb b'a' c && leb c b'f'
    then some (c - b'a' + 10)
    else if leb b'A' c && leb c b'F'
    then some (c - b'A' + 10)
    else none

-- One digit after another; a value past `u32::MAX` is an overflow error.
unfoldable pub radix_loop : ℕ → Bytes → Option ℕ
unfolding hex_digit
radix_loop acc [] = some acc
radix_loop acc (c ∷ cs) = elim (hex_digit c) [
  | none ↦ none
  | some d ↦
      (let rest = radix_loop (acc * 16 + d) cs in if leb (acc * 16 + d) u32_max then rest else none)
]

-- `u32::from_str_radix(s, 16)`: a leading `+` is skipped, and no digit at all is an error.
unfoldable pub u32_from_hex : Bytes → Option ℕ
unfolding radix_loop
u32_from_hex [] = none
u32_from_hex (c ∷ []) = radix_loop 0 (c ∷ [])
u32_from_hex (c ∷ d ∷ cs) = if c == b'+' then radix_loop 0 (d ∷ cs) else radix_loop 0 (c ∷ d ∷ cs)
