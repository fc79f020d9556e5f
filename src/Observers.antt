-- ===== src/Observers.antt =====
-- coap-server/src/app/observers.rs: the handles by which a resource tells of its changes, and the
-- holder of the attached ones. A watch channel is known by its sender, a `Tx`; what a call sends is
-- part of its result. `Arc<Observers>` is the number of an object in the heap of the holder.
pub mod Numbers
pub mod Notify
pub mod Keys
pub mod Attach
pub mod Detach
mod Tests
use coap_server_rs.Base.{
  ℕ, suc, ◌+◌, Bool, true, false, Option, none, some, List, [], ◌∷◌, map, Dict, get,
  insert as dict_insert, remove as dict_remove, values as dict_values, nat_eq, list_eq, Text, codes,
  join, Outcome, returned, panicked, if◌then◌else◌, ◌==◌, ◌||◌,
}
use coap_server_rs.U24.{U24, wrapping_add, from_u8}
use coap_server_rs.PathMatcher.{
  PathMatcher, MatchedResult, new_empty, insert, remove, values, match_all, key_from_path,
}

pub data NotificationState : Type 0 where
  initial_sequence resource_changed : U24 → NotificationState

pub record Observers (Tx : Type 0) : Type 0 where
  pub relative_path_key : List Text
  pub notify_change_tx : Tx
  pub change_num : U24

-- `inner` holds an `Arc` of each attached handle; `arcs` is the heap that they point into.
pub record ObserversHolder (Tx : Type 0) : Type 0 where
  pub inner : PathMatcher ℕ
  pub arcs : Dict ℕ (Observers Tx)
  pub next_arc : ℕ

pub record Attached : Type 0 where
  pub key : List Text
  pub value : ℕ

-- The value of a call that does not panic: the `unwrap` of `wrapping_add` has no failing case.
abbrev pub returned_or : U24 → Outcome U24 → U24
returned_or _ (returned a) = a
returned_or unreached panicked = unreached

-- Whether one of the pointers is to that object.
abbrev pub points_to : ℕ → List ℕ → Bool
points_to arc [] = false
points_to arc (a ∷ others) = (arc == a) || points_to arc others

module _ {Tx : Type 0} where
  -- With the value that the new channel starts with.
  unfoldable pub new_observers : List Text → U24 → Tx → Observers Tx × NotificationState
  new_observers relative_path_key change_num tx = (
    record {
      relative_path_key = relative_path_key;
      notify_change_tx = tx;
      change_num = change_num;
    },
    initial_sequence change_num,
  )

  unfoldable pub relative_path : Observers Tx → Text
  unfolding join
  relative_path self = join (codes "/") self.relative_path_key

  -- With what is sent on the channel of the handle; an error of the send is ignored.
  unfoldable pub notify_change : Observers Tx → Observers Tx × NotificationState
  unfolding wrapping_add from_u8
  notify_change self =
      let new_change_num = returned_or self.change_num (wrapping_add self.change_num (from_u8 1)) in
      (record self { change_num = new_change_num }, resource_changed new_change_num)

  unfoldable pub new_holder : ObserversHolder Tx
  unfolding new_empty
  new_holder = record { inner = new_empty; arcs = []; next_arc = 0 }

  unfoldable pub attach : ObserversHolder Tx → Observers Tx → ObserversHolder Tx × Attached
  unfolding insert dict_insert
  attach self observers =
      let observers_arc = self.next_arc in
      (
        record {
          inner = (insert self.inner observers.relative_path_key observers_arc).0;
          arcs = dict_insert observers_arc observers self.arcs;
          next_arc = suc observers_arc;
        },
        record { key = observers.relative_path_key; value = observers_arc },
      )

  -- `notify_change` of one object after the other; an `Arc` always points to an object.
  unfoldable pub notify_arcs :
      List ℕ → Dict ℕ (Observers Tx) → Dict ℕ (Observers Tx) × List (Tx × NotificationState)
  unfolding get dict_insert notify_change
  notify_arcs [] arcs = (arcs, [])
  notify_arcs (arc ∷ later) arcs = elim (get arc arcs) [
    | none ↦ notify_arcs later arcs
    | some observers ↦
        let rest = notify_arcs later (dict_insert arc (notify_change observers).0 arcs) in
        (rest.0, (observers.notify_change_tx, (notify_change observers).1) ∷ rest.1)
  ]

  abbrev with_arcs :
      ObserversHolder Tx
      → Dict ℕ (Observers Tx) × List (Tx × NotificationState)
      → ObserversHolder Tx × List (Tx × NotificationState)
  with_arcs self notified = (record self { arcs = notified.0 }, notified.1)

  unfoldable pub notify_change_all :
      ObserversHolder Tx → ObserversHolder Tx × List (Tx × NotificationState)
  unfolding notify_arcs values
  notify_change_all self = with_arcs self (notify_arcs (values self.inner) self.arcs)

  unfoldable pub notify_change_for_path :
      ObserversHolder Tx → Text → ObserversHolder Tx × List (Tx × NotificationState)
  unfolding notify_arcs match_all key_from_path
  notify_change_for_path self path =
      with_arcs self
        (notify_arcs (map (λ r. r.value) (match_all self.inner (key_from_path path))) self.arcs)

  -- `Arc::try_unwrap` of an attached handle: it fails while the table holds another `Arc` of it.
  abbrev try_unwrap : ObserversHolder Tx → ℕ → Outcome (ObserversHolder Tx × Observers Tx)
  try_unwrap self arc =
      if points_to arc (dict_values self.inner.map) then panicked else elim (get arc self.arcs) [
        | some observers ↦ returned (record self { arcs = dict_remove arc self.arcs }, observers)
        | none ↦ panicked
      ]

  -- `Attached::detach`; both of its `unwrap`s can panic.
  unfoldable pub detach :
      ObserversHolder Tx → Attached → Outcome (ObserversHolder Tx × Observers Tx)
  unfolding remove get dict_remove
  detach holder self =
      let removed = remove holder.inner self.key in
      elim removed.1 [
        | some _ ↦ try_unwrap (record holder { inner = removed.0 }) self.value
        | none ↦ panicked
      ]
