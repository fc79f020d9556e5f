-- ===== src/U24/Arith.antt =====
-- Arithmetic of u24.rs: sums and differences modulo 2^24, and the checked and panicking versions.
use coap_server_rs.Base.{
  ◌+◌, ◌-◌, ◌%◌, ◌^◌, ◌≤◌, ◌<◌, ◌≡◌, Bool, none, some, returned, panicked, and_then, arith, ◌⊎◌,
  inl, inr, leb, if◌then◌else◌, dec_le,
}
use coap_server_rs.U24.{
  U24, IsU24, max_value, try_from_u32, wrapping_add, wrapping_sub, checked_add, checked_sub, add,
}

abbrev pub Sum : U24 → U24 → U24
Sum a b = record { value = (a.value + b.value) % 2 ^ 24 }

-- For two values of the type `wrapping_add` does not panic and gives the sum modulo 2^24, which is
-- again a value of the type.
pub wrapping_add_lem :
    (a b : U24) → IsU24 a → IsU24 b → (wrapping_add a b ≡ returned (Sum a b)) × IsU24 (Sum a b)
unfolding wrapping_add try_from_u32
wrapping_add_lem a b ha hb = ground arith

-- For two values of the type, taking away what `wrapping_add` added gives the first value back,
-- also where the sum wraps, and neither call panics.
pub wrapping_sub-wrapping_add :
    (a b : U24)
    → IsU24 a
    → IsU24 b
    → and_then (wrapping_add a b) (λ c. wrapping_sub c b) ≡ returned a
unfolding wrapping_add wrapping_sub try_from_u32
wrapping_sub-wrapping_add a b ha hb = ground arith

-- For two values of the type `checked_add` gives the sum exactly when it is at most 0xffffff, and
-- `+` returns what `checked_add` gives and panics where it gives nothing, with or without the
-- compiler's overflow checks.
pub add-checked_add :
    (checks : Bool) (a b : U24)
    → IsU24 a
    → IsU24 b
    → (checked_add a b ≡ (
        if leb (a.value + b.value) max_value
        then some (record { value = a.value + b.value })
        else none))
      × (add checks a b ≡ elim (checked_add a b) [ some c ↦ returned c | none ↦ panicked ])
unfolding checked_add add try_from_u32
add-checked_add checks a b ha hb = ground arith

-- For two values of the type `checked_sub` gives the difference when the second is not larger,
-- which added back gives the first value, and nothing when it is larger.
pub checked_add-checked_sub :
    (a b : U24)
    → IsU24 a
    → IsU24 b
    → ((b.value ≤ a.value) × (c : U24) × (checked_sub a b ≡ some c) × (checked_add c b ≡ some a))
      ⊎ ((a.value < b.value) × (checked_sub a b ≡ none))
unfolding checked_add checked_sub try_from_u32
checked_add-checked_sub a b ha hb = elim (dec_le b.value a.value) [
  | yes h ↦ inl (h, record { value = a.value - b.value }, ground arith, ground arith)
  | no h ↦ inr (omega arith, ground arith)
]
