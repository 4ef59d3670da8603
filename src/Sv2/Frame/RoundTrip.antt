-- ===== src/Sv2/Frame/RoundTrip.antt =====
-- A frame's header tells its message and the width of the payload behind it.
use solo_pool_rs.Prelude.{
  ℕ, ◌%◌, ◌^◌, ◌<◌, ◌≡◌, refl, Bool, true, false, some, length, take, drop, get_elem?, arith,
  if◌then◌else◌,
}
use solo_pool_rs.Prelude.Bytes.{Bytes, to_le_bytes, value_le}
use solo_pool_rs.Sv2.Frame.{frame_bytes, channel_msg_bit}

three_bytes : (n : ℕ) → n < 2 ^ 24 → value_le (take 3 (to_le_bytes 4 (n % 2 ^ 32))) ≡ n
unfolding value_le to_le_bytes
three_bytes n h = omega (arith, h)

extension :
    (c : Bool)
    → value_le (to_le_bytes 2 (if c then channel_msg_bit else 0))
      ≡ (if c then channel_msg_bit else 0)
unfolding value_le to_le_bytes
extension true = refl
extension false = refl

-- The header of a frame whose payload is shorter than 2^24 bytes, read as the fields of the
-- protocol, gives the extension type with the channel bit, the message type and the payload's
-- length, and what follows its 6 bytes is the payload.
pub frame_bytes-reads :
    (msg_type : ℕ) (channel_msg : Bool) (payload : Bytes)
    → length payload < 2 ^ 24
    → let frame = frame_bytes msg_type channel_msg payload in
      (value_le (take 2 frame) ≡ (if channel_msg then channel_msg_bit else 0))
      × (get_elem? frame 2 ≡ some msg_type)
      × (value_le (take 3 (drop 3 frame)) ≡ length payload)
      × (drop 6 frame ≡ payload)
unfolding frame_bytes to_le_bytes
frame_bytes-reads msg_type channel_msg payload h =
    (extension channel_msg, refl, three_bytes (length payload) h, refl)
