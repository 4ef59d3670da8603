-- ===== src/Prelude/Utf8.antt =====
-- The scalar values of a text in UTF-8.
use Prim.Native.Nat.{ℕ, zero, suc, ◌+◌, ◌-◌, ◌*◌}
use mathlib.Core.List.{List, [], ◌∷◌}
use solo_pool_rs.Prelude.Tests.{ltb, if◌then◌else◌}
use solo_pool_rs.Prelude.Bytes.{Bytes}

-- How many bytes follow a first byte, and the bits that it gives.
abbrev lead : ℕ → ℕ × ℕ
lead b =
    if ltb b 0x80
    then (0, b)
    else if ltb b 0xe0
    then (1, b - 0xc0)
    else if ltb b 0xf0
    then (2, b - 0xe0)
    else (3, b - 0xf0)

unfoldable chars_loop : ℕ → ℕ → Bytes → List ℕ
chars_loop need acc [] = []
chars_loop zero acc (b ∷ bs) =
    let first = lead b in
    let rest = chars_loop first.0 first.1 bs in if ltb b 0x80 then b ∷ rest else rest
chars_loop (suc zero) acc (b ∷ bs) = (acc * 64 + (b - 0x80)) ∷ chars_loop 0 0 bs
chars_loop (suc (suc need)) acc (b ∷ bs) = chars_loop (suc need) (acc * 64 + (b - 0x80)) bs

-- `str::chars`, on valid UTF-8.
unfoldable pub chars : Bytes → List ℕ
unfolding chars_loop
chars = chars_loop 0 0
