-- ===== src/U24/Convert.antt =====
-- The conversions of u24.rs.
use coap_server_rs.Base.{ℕ, ◌+◌, ◌*◌, ◌/◌, ◌%◌, ◌^◌, ◌<◌, ◌≡◌, ◌↔◌, ok, err, returned, arith}
use coap_server_rs.U24.{
  U24, IsU24, max_value, out_of_range, try_from_u32, try_from_u64, from_u8, from_u16, to_u8, to_u16,
  to_u32, to_u64, from_le_bytes,
}

-- A `u32` or a `u64` converts to the value that it is read back as exactly when it is at most
-- 0xffffff; above that the conversion is an error.
pub try_from_iff :
    (v : ℕ) (x : U24)
    → ((try_from_u32 v ≡ ok x) ↔ ((to_u32 x ≡ v) × IsU24 x))
      × ((try_from_u64 v ≡ ok x) ↔ ((to_u64 x ≡ v) × IsU24 x))
      × ((max_value < v) ↔ (try_from_u32 v ≡ err out_of_range))
unfolding try_from_u32 try_from_u64 to_u32 to_u64
try_from_iff v x = (
  (λ e. (ground arith, ground arith), λ h. ground arith),
  (λ e. (ground arith, ground arith), λ h. ground arith),
  (λ h. ground arith, λ e. ground arith),
)

-- A byte, or a `u16`, is a value of the type and converts back to itself; a value of the type
-- converts to a byte, or a `u16`, only if it is in range.
pub narrow_roundtrip :
    (v : ℕ) (x : U24)
    → (v < 2 ^ 8 → IsU24 (from_u8 v) × (to_u8 (from_u8 v) ≡ ok v))
      × (v < 2 ^ 16 → IsU24 (from_u16 v) × (to_u16 (from_u16 v) ≡ ok v))
      × (to_u8 x ≡ ok v → (from_u8 v ≡ x) × (v < 2 ^ 8))
      × (to_u16 x ≡ ok v → (from_u16 v ≡ x) × (v < 2 ^ 16))
unfolding from_u8 from_u16 to_u8 to_u16
narrow_roundtrip v x = (
  λ h. (omega arith, ground arith),
  λ h. (omega arith, ground arith),
  λ e. (ground arith, ground arith),
  λ e. (ground arith, ground arith),
)

-- Of three bytes `from_le_bytes` makes a value of the type without a panic, and the bytes can be
-- read back from it, least significant first.
pub from_le_bytes_lem :
    (b0 b1 b2 : ℕ)
    → b0 < 2 ^ 8
    → b1 < 2 ^ 8
    → b2 < 2 ^ 8
    → (x : U24) × (from_le_bytes b0 b1 b2 ≡ returned x)
      × IsU24 x
      × (x.value % 2 ^ 8 ≡ b0)
      × (x.value / 2 ^ 8 % 2 ^ 8 ≡ b1)
      × (x.value / 2 ^ 16 ≡ b2)
unfolding from_le_bytes try_from_u32
from_le_bytes_lem b0 b1 b2 h0 h1 h2 = (
  record { value = b0 + b1 * 2 ^ 8 + b2 * 2 ^ 16 },
  ground arith,
  omega arith,
  omega arith,
  omega arith,
  omega arith,
)
