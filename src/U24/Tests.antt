-- ===== src/U24/Tests.antt =====
-- u24.rs at concrete values: the cases of its unit tests, and the theorems applied.
use coap_server_rs.Base.{◌≡◌, refl, true, err, returned, panicked, arith}
use coap_server_rs.U24.{U24, IsU24, min_u24, max_u24, out_of_range, to_u8, wrapping_add, add}
use coap_server_rs.U24.Arith.{Sum, wrapping_add_lem}

abbrev one : U24
one = record { value = 1 }

test_wrapping_add : wrapping_add max_u24 one ≡ returned min_u24
unfolding wrapping_add
test_wrapping_add = refl

test_overflow_panics : add true max_u24 one ≡ panicked
unfolding add
test_overflow_panics = refl

test_try_from_overflow : to_u8 (record { value = 256 }) ≡ err out_of_range
unfolding to_u8
test_try_from_overflow = refl

wrapping_add_lem_example :
    (wrapping_add max_u24 one ≡ returned (Sum max_u24 one)) × IsU24 (Sum max_u24 one)
wrapping_add_lem_example = wrapping_add_lem max_u24 one (omega arith) (omega arith)
