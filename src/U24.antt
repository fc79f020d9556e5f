-- ===== src/U24.antt =====
-- coap-server/src/app/u24.rs: the 24-bit unsigned integer that numbers Observe notifications.
-- A `u32`, `u16` or `u8` is a number below its modulus; `& 0xffffff` is the remainder by 2^24.
pub mod Arith
pub mod Convert
mod Tests
use coap_server_rs.Base.{
  ℕ, ◌+◌, ◌-◌, ◌*◌, ◌%◌, ◌^◌, ◌≤◌, Bool, Option, none, some, Result, ok, err, Outcome, returned,
  panicked, to_option, unwrap, and_then, ltb, leb, if◌then◌else◌,
}

pub record U24 : Type 0 where
  pub value : ℕ

pub data TryFromCustomIntError : Type 0 where
  out_of_range : TryFromCustomIntError

abbrev pub u32_mod : ℕ
u32_mod = 2 ^ 32

abbrev pub max_value : ℕ
max_value = 0xffffff

abbrev pub min_u24 : U24
min_u24 = record { value = 0 }

abbrev pub max_u24 : U24
max_u24 = record { value = max_value }

-- The invariant of the type, whose field is private.
abbrev pub IsU24 : U24 → Type 0
IsU24 x = x.value ≤ max_value

unfoldable pub try_from_u32 : ℕ → Result U24 TryFromCustomIntError
try_from_u32 v = if ltb max_value v then err out_of_range else ok (record { value = v })

unfoldable pub try_from_u64 : ℕ → Result U24 TryFromCustomIntError
unfolding try_from_u32
try_from_u64 v = if ltb v u32_mod then try_from_u32 v else err out_of_range

unfoldable pub from_u8 : ℕ → U24
from_u8 v = record { value = v }

unfoldable pub from_u16 : ℕ → U24
from_u16 v = record { value = v }

unfoldable pub to_u8 : U24 → Result ℕ TryFromCustomIntError
to_u8 x = if ltb x.value (2 ^ 8) then ok x.value else err out_of_range

unfoldable pub to_u16 : U24 → Result ℕ TryFromCustomIntError
to_u16 x = if ltb x.value (2 ^ 16) then ok x.value else err out_of_range

unfoldable pub to_u32 : U24 → ℕ
to_u32 x = x.value

unfoldable pub to_u64 : U24 → ℕ
to_u64 x = x.value

-- `u32::checked_add`, `u32::checked_sub`
abbrev checked_add_u32 : ℕ → ℕ → Option ℕ
checked_add_u32 a b = if ltb (a + b) u32_mod then some (a + b) else none

abbrev checked_sub_u32 : ℕ → ℕ → Option ℕ
checked_sub_u32 a b = if leb b a then some (a - b) else none

abbrev then_try_from : Option ℕ → Option U24
then_try_from none = none
then_try_from (some v) = to_option (try_from_u32 v)

unfoldable pub checked_add : U24 → U24 → Option U24
unfolding try_from_u32
checked_add a b = then_try_from (checked_add_u32 a.value b.value)

unfoldable pub checked_sub : U24 → U24 → Option U24
unfolding try_from_u32
checked_sub a b = then_try_from (checked_sub_u32 a.value b.value)

unfoldable pub wrapping_add : U24 → U24 → Outcome U24
unfolding try_from_u32
wrapping_add a b = unwrap (try_from_u32 ((a.value + b.value) % u32_mod % 2 ^ 24))

unfoldable pub wrapping_sub : U24 → U24 → Outcome U24
unfolding try_from_u32
wrapping_sub a b = unwrap (try_from_u32 ((a.value + u32_mod - b.value) % u32_mod % 2 ^ 24))

unfoldable pub from_le_bytes : ℕ → ℕ → ℕ → Outcome U24
unfolding try_from_u32
from_le_bytes b0 b1 b2 = unwrap (try_from_u32 (b0 + b1 * 2 ^ 8 + b2 * 2 ^ 16))

-- `+` on `u32`: a build with overflow checks panics, one without wraps.
abbrev add_u32 : Bool → ℕ → ℕ → Outcome ℕ
add_u32 checks a b =
    if ltb (a + b) u32_mod
    then returned (a + b)
    else if checks
    then panicked
    else returned ((a + b) % u32_mod)

-- `Add::add`, which `AddAssign` stores back
unfoldable pub add : Bool → U24 → U24 → Outcome U24
unfolding try_from_u32
add checks a b = and_then (add_u32 checks a.value b.value) λ v. unwrap (try_from_u32 v)
