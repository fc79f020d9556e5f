-- ===== src/ObserveHandler/Tests.antt =====
-- observe_handler.rs with two peers that observe "s/x", and the theorems applied there.
use coap_server_rs.Base.{
  ℕ, ◌≡◌, ◌≢◌, refl, arith, ◌≤◌, none, some, ok, err, [], ◌∷◌, Text, codes, get, values, nat_eq,
  list_eq, if◌then◌else◌, ◌==◌, ◌&&◌, inr, replace,
}
use coap_server_rs.Errors.{internal}
use coap_server_rs.Observers.{resource_changed}
use coap_server_rs.ObserveHandler.{
  ObserveHandler, RegistrationKey, RegistrationsForPath, ObserveRequest, register, deregister,
  Surroundings, registered, maybe_process_registration, observers_for, to_list, registration_eq,
  number_of, set_value, event_of, on_active_returned, new_handler,
}
use coap_server_rs.ObserveHandler.Process.{
  IsRequest, register_lem, deregister_lem, registration_of, channel_in,
}
use coap_server_rs.ObserveHandler.Unchanged.{IsUnchanged, maybe_process_registration-IsUnchanged}
use coap_server_rs.ObserveHandler.Counts.{count}
use coap_server_rs.ObserveHandler.Lifecycle.{
  Running, Reachable, started, requested, after_request, entries_of, count-Reachable,
  on_active_returned_lem,
}

abbrev Handler : Type 0
Handler = ObserveHandler ℕ ℕ ℕ

abbrev outside : Surroundings ℕ ℕ
outside = record {
  new_watch = 100;
  new_oneshot = 200;
  random = (1, 2, 3);
  borrow = λ _. resource_changed (record { value = 9 });
}

abbrev asks : ℕ → ObserveRequest ℕ
asks peer = record {
  observe_flag = some (ok register);
  path = codes "s/x";
  response = some none;
  source = some peer;
  token = 5 ∷ [];
}

abbrev leaves : ℕ → ObserveRequest ℕ
leaves peer = record (asks peer) { observe_flag = some (ok deregister) }

abbrev key_of_peer : ℕ → RegistrationKey ℕ
key_of_peer peer = record { peer = peer; token = 5 ∷ [] }

abbrev fresh : Handler
fresh = new_handler (codes "s")

abbrev observed : Running ℕ ℕ ℕ
observed = after_request (record { handler = fresh; active = [] }) outside (asks 7)

-- Every occurrence of the resource's path is taken out, not only the one in front.
test_replace : replace (codes "s/status") (codes "s") ≡ codes "/tatu"
unfolding replace
test_replace = refl

test_active : observed.active ≡ codes "s/x" ∷ []
unfolding maybe_process_registration new_handler
test_active = refl

test_first_value : (maybe_process_registration fresh outside (asks 7)).observe_value ≡ some 9
unfolding maybe_process_registration new_handler
test_first_value = refl

observed-Reachable : Reachable observed
observed-Reachable = requested _ outside (asks 7) (started (codes "s"))

asks-IsRequest : IsRequest (asks 8) register none 8
asks-IsRequest = record { flagged = refl; prepared = refl; from_peer = refl }

leaves-IsRequest : IsRequest (leaves 7) deregister none 7
leaves-IsRequest = record { flagged = refl; prepared = refl; from_peer = refl }

register_lem_example :
    let entry = get (codes "s/x") observed.handler.registrations_by_path in
    let tx = channel_in 100 entry in
    let after = maybe_process_registration observed.handler outside (asks 8) in
    (after.result ≡ ok (registered (record { termination_rx = 200; notify_rx = tx })))
    × ((path : Text) (k : RegistrationKey ℕ)
        → registration_of after.handler path k ≡ (
            if (codes "s/x" == path) && (key_of_peer 8 == k)
            then some 200
            else registration_of observed.handler path k))
    × (after.terminated ≡ to_list (registration_of observed.handler (codes "s/x") (key_of_peer 8)))
    × ((entry ≡ none)
        → after.spawned ≡ some (codes "s/x", observers_for observed.handler outside (codes "s/x")))
    × ((entry ≢ none) → after.spawned ≡ none)
    × (after.observe_value ≡ set_value none (number_of (outside.borrow tx)))
register_lem_example = register_lem observed.handler outside (asks 8) none 8 asks-IsRequest

deregister_lem_example :
    let existing = registration_of observed.handler (codes "s/x") (key_of_peer 7) in
    let after = maybe_process_registration observed.handler outside (leaves 7) in
    (after.result ≡ ok (event_of existing))
    × ((path : Text) (k : RegistrationKey ℕ)
        → registration_of after.handler path k ≡ (
            if (codes "s/x" == path) && (key_of_peer 7 == k)
            then none
            else registration_of observed.handler path k))
    × (after.terminated ≡ to_list existing)
    × (after.spawned ≡ none)
    × (after.observe_value ≡ none)
deregister_lem_example = deregister_lem observed.handler outside (leaves 7) none 7 leaves-IsRequest

abbrev unprepared : ObserveRequest ℕ
unprepared = record (asks 7) { response = none }

unprepared_result :
    (maybe_process_registration observed.handler outside unprepared).result
    ≡ err (internal (codes "No response prepared"))
unfolding maybe_process_registration
unprepared_result = refl

maybe_process_registration-IsUnchanged_example :
    IsUnchanged observed.handler (maybe_process_registration observed.handler outside unprepared)
maybe_process_registration-IsUnchanged_example =
    maybe_process_registration-IsUnchanged observed.handler outside unprepared
      (inr (internal (codes "No response prepared"), unprepared_result))

count-Reachable_example :
    count (codes "s/x") observed.active
    ≡ entries_of (get (codes "s/x") observed.handler.registrations_by_path)
count-Reachable_example = count-Reachable observed (codes "s/x") observed-Reachable

one_active : 1 ≤ count (codes "s/x") observed.active
unfolding maybe_process_registration new_handler
one_active = omega arith

on_active_returned_lem_example :
    (fp : RegistrationsForPath ℕ ℕ ℕ) × (get (codes "s/x") observed.handler.registrations_by_path
      ≡ some fp)
    × ((on_active_returned observed.handler (codes "s/x")).1 ≡ values fp.registrations)
    × ((p : Text) (k : RegistrationKey ℕ)
        → registration_of (on_active_returned observed.handler (codes "s/x")).0 p k
          ≡ (if codes "s/x" == p then none else registration_of observed.handler p k))
on_active_returned_lem_example =
    on_active_returned_lem observed (codes "s/x") observed-Reachable one_active
