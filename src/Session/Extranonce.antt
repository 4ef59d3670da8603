-- ===== src/Session/Extranonce.antt =====
-- `generate_extranonce1`.
pub mod Unique
use solo_pool_rs.Prelude.{
  ℕ, ◌+◌, ◌-◌, ◌%◌, ◌^◌, List, [], ◌∷◌, ◌++◌, reverse, drop, replicate, leb, if◌then◌else◌,
}
use solo_pool_rs.Prelude.Bytes.{Bytes, to_le_bytes}

-- `counter.to_be_bytes()`, cut to its last `size` bytes or filled up with zeros in front.
unfoldable pub sized : ℕ → ℕ → Bytes
sized size counter =
    let bytes = reverse (to_le_bytes 8 counter) in
    if leb size 8 then drop (8 - size) bytes else replicate (size - 8) 0 ++ bytes

-- The call at a value of the counter, and the counter's next value.
unfoldable pub generate_extranonce1 : ℕ → ℕ → Bytes × ℕ
unfolding sized
generate_extranonce1 size counter = (sized size counter, (counter + 1) % 2 ^ 64)
