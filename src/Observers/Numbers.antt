-- ===== src/Observers/Numbers.antt =====
-- The sequence numbers of observers.rs, and the path of a handle.
use coap_server_rs.Base.{ℕ, zero, suc, ◌+◌, ◌%◌, ◌^◌, ◌≡◌, refl, List, [], arith, Text, All}
use coap_server_rs.U24.{U24, IsU24, from_u8}
use coap_server_rs.U24.Arith.{wrapping_add_lem}
use coap_server_rs.PathMatcher.{key_from_path}
use coap_server_rs.PathMatcher.Keys.{IsSegment, key_from_path-join}
use coap_server_rs.Observers.{
  Observers, resource_changed, initial_sequence, notify_change, new_observers, relative_path,
}

module _ {Tx : Type 0} where
  -- A number of changes, one after the other.
  unfoldable pub notify_times : ℕ → Observers Tx → Observers Tx
  notify_times zero o = o
  notify_times (suc n) o = notify_times n (notify_change o).0

  -- One change: the next number modulo 2^24 is stored and is the one that is sent.
  pub notify_change_lem :
      (o : Observers Tx)
      → IsU24 o.change_num
      → let next : U24 = record { value = (o.change_num.value + 1) % 2 ^ 24 } in
        (notify_change o ≡ (record o { change_num = next }, resource_changed next)) × IsU24 next
  unfolding notify_change from_u8
  notify_change_lem o h =
      let w = wrapping_add_lem o.change_num (from_u8 1) h (ground arith) in (rw w.0 refl, w.1)

  -- After any number of changes a new handle has counted every one from its first number, modulo
  -- 2^24, and still has its channel and its path, from which its key is found again.
  pub notify_times-new_observers :
      (n : ℕ) (key : List Text) (first : U24) (tx : Tx)
      → IsU24 first
      → All IsSegment key
      → let o = notify_times n (new_observers key first tx).0 in
        (o.change_num.value ≡ (first.value + n) % 2 ^ 24)
        × (o.notify_change_tx ≡ tx)
        × (key_from_path (relative_path o) ≡ key)
        × ((new_observers key first tx).1 ≡ initial_sequence first)
  unfolding new_observers notify_times relative_path
  notify_times-new_observers zero key first tx h k =
      (omega (arith, h), refl, ((key_from_path-join [] key).1 k).0, refl)
  notify_times-new_observers (suc n) key first tx h k =
      let w = notify_change_lem (new_observers key first tx).0 h in
      let next : U24 = record { value = (first.value + 1) % 2 ^ 24 } in
      let rest = notify_times-new_observers n key next tx w.1 k in
      rw (notify_times, w.0) (omega (arith, rest.0), rest.1, rest.2, refl)
