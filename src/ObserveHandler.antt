-- ===== src/ObserveHandler.antt =====
-- coap-server/src/app/observe_handler.rs: registrations of observers by the path of their request.
-- A watch channel is known by its sender, a `Tx`, and a oneshot channel by its sender, a `Term`.
pub mod Process
pub mod Unchanged
pub mod Counts
pub mod Lifecycle
mod Tests
use coap_server_rs.Base.{
  ℕ, zero, suc, Bool, true, false, Option, none, some, List, [], ◌∷◌, Result, ok, err, Dict, get,
  insert, remove, values, nat_eq, list_eq, PartialEq, ◌&&◌, ◌==◌, Text, codes, replace, arith, ◌≡◌,
  ◌↔◌,
}
use coap_server_rs.U24.{U24, to_u32, from_le_bytes, min_u24}
use coap_server_rs.Errors.{CoapError, bad_request, internal}
use coap_server_rs.PathMatcher.{key_from_path}
use coap_server_rs.Observers.{
  Observers, NotificationState, initial_sequence, resource_changed, new_observers, returned_or,
}

pub record RegistrationKey (Endpoint : Type 0) : Type 0 where
  pub peer : Endpoint
  pub token : Text

module _ {Endpoint : Type 0} ⦃e : PartialEq Endpoint⦄ where
  abbrev pub registration_beq : RegistrationKey Endpoint → RegistrationKey Endpoint → Bool
  registration_beq j k = e.eq j.peer k.peer && (j.token == k.token)

  pub registration_beq_iff :
      (j k : RegistrationKey Endpoint) → (j ≡ k) ↔ (registration_beq j k ≡ true)
  registration_beq_iff j k =
      let text : PartialEq Text = list_eq in
      ground (arith, e.eq_iff j.peer k.peer, text.eq_iff j.token k.token)

  instance abbrev pub registration_eq : PartialEq (RegistrationKey Endpoint)
  registration_eq = record { eq = registration_beq; eq_iff = registration_beq_iff }

-- `InternalRegistration` is the sender that ends the registration.
pub record RegistrationsForPath (Endpoint Tx Term : Type 0) : Type 0 where
  pub notify_change_tx : Tx
  pub registrations : Dict (RegistrationKey Endpoint) Term

pub record ObserveHandler (Endpoint Tx Term : Type 0) : Type 0 where
  pub path_prefix : Text
  pub registrations_by_path : Dict Text (RegistrationsForPath Endpoint Tx Term)

pub record RegistrationHandle (Tx Term : Type 0) : Type 0 where
  pub termination_rx : Term
  pub notify_rx : Tx

pub data RegistrationEvent (Tx Term : Type 0) : Type 0 where
  no_change unregistered : RegistrationEvent Tx Term
  registered : RegistrationHandle Tx Term → RegistrationEvent Tx Term

-- `ObserveOption` of the message library.
pub data ObserveOption : Type 0 where
  register deregister : ObserveOption

-- What the code reads off a request and its prepared response: `response` is there when one is
-- prepared, with the Observe value that it has, if any. An error of the reading is its text.
pub record ObserveRequest (Endpoint : Type 0) : Type 0 where
  pub observe_flag : Option (Result ObserveOption Text)
  pub path : Text
  pub response : Option (Option (Result ℕ Text))
  pub source : Option Endpoint
  pub token : Text

-- What a request finds outside: the channels that it would open, the bytes that it would draw, and
-- the state of each watch channel when it looks.
pub record Surroundings (Tx Term : Type 0) : Type 0 where
  pub new_watch : Tx
  pub new_oneshot : Term
  pub random : ℕ × ℕ × ℕ
  pub borrow : Tx → NotificationState

-- The handler after a request, with the observe value that was set on the response, the lifecycle
-- that was spawned and the registrations that were told to end.
pub record Processed (Endpoint Tx Term : Type 0) : Type 0 where
  pub handler : ObserveHandler Endpoint Tx Term
  pub result : Result (RegistrationEvent Tx Term) CoapError
  pub observe_value : Option ℕ
  pub spawned : Option (Text × Observers Tx)
  pub terminated : List Term

abbrev pub number_of : NotificationState → U24
number_of (initial_sequence n) = n
number_of (resource_changed n) = n

abbrev pub to_list : {A : Type 0} → Option A → List A
to_list none = []
to_list (some a) = a ∷ []

abbrev pub set_value : Option ℕ → U24 → Option ℕ
set_value (some response_sequence) change_num = none
set_value none change_num = some (to_u32 change_num)

abbrev pub event_of : {Tx Term : Type 0} → Option Term → RegistrationEvent Tx Term
event_of (some existing) = unregistered
event_of none = no_change

module _ {Endpoint Tx Term : Type 0} ⦃e : PartialEq Endpoint⦄ where
  unfoldable pub new_handler : Text → ObserveHandler Endpoint Tx Term
  new_handler path_prefix = record { path_prefix = path_prefix; registrations_by_path = [] }

  abbrev pub answered :
      ObserveHandler Endpoint Tx Term
      → Result (RegistrationEvent Tx Term) CoapError
      → Processed Endpoint Tx Term
  answered self r = record {
    handler = self;
    result = r;
    observe_value = none;
    spawned = none;
    terminated = [];
  }

  -- `Observers::new` for the path that is relative to the resource.
  unfoldable pub observers_for :
      ObserveHandler Endpoint Tx Term → Surroundings Tx Term → Text → Observers Tx
  unfolding replace key_from_path from_le_bytes new_observers
  observers_for self outside path =
      let first = outside.random in
      (new_observers (key_from_path (replace path self.path_prefix))
        (returned_or min_u24 (from_le_bytes first.0 first.1 first.2)) outside.new_watch).0

  -- The entry of the path, a new one if there is none, and then the lifecycle that is spawned.
  abbrev entry :
      ObserveHandler Endpoint Tx Term
      → Surroundings Tx Term
      → Text
      → Option (RegistrationsForPath Endpoint Tx Term)
      → RegistrationsForPath Endpoint Tx Term × Option (Text × Observers Tx)
  entry self outside path (some for_path) = (for_path, none)
  entry self outside path none = (
    record { notify_change_tx = outside.new_watch; registrations = [] },
    some (path, observers_for self outside path),
  )

  abbrev pub do_register :
      ObserveHandler Endpoint Tx Term
      → Surroundings Tx Term
      → Text
      → RegistrationKey Endpoint
      → Option ℕ
      → Processed Endpoint Tx Term
  do_register self outside path key response_sequence =
      let found = entry self outside path (get path self.registrations_by_path) in
      let tx = found.0.notify_change_tx in
      let for_path = record found.0 {
        registrations = insert key outside.new_oneshot found.0.registrations;
      } in
      record {
        handler = record self {
          registrations_by_path = insert path for_path self.registrations_by_path;
        };
        result = ok (registered (record { termination_rx = outside.new_oneshot; notify_rx = tx }));
        observe_value = set_value response_sequence (number_of (outside.borrow tx));
        spawned = found.1;
        terminated = to_list (get key found.0.registrations);
      }

  abbrev pub do_deregister :
      ObserveHandler Endpoint Tx Term
      → Text
      → RegistrationKey Endpoint
      → Option (RegistrationsForPath Endpoint Tx Term)
      → Processed Endpoint Tx Term
  do_deregister self path key none = answered self (ok no_change)
  do_deregister self path key (some for_path) =
      let existing = get key for_path.registrations in
      let left = record for_path { registrations = remove key for_path.registrations } in
      record {
        handler = record self {
          registrations_by_path = insert path left self.registrations_by_path;
        };
        result = ok (event_of existing);
        observe_value = none;
        spawned = none;
        terminated = to_list existing;
      }

  -- From the source of the request on, with the response's own sequence number.
  abbrev process_from :
      ObserveHandler Endpoint Tx Term
      → Surroundings Tx Term
      → ObserveRequest Endpoint
      → ObserveOption
      → Option ℕ
      → Option Endpoint
      → Processed Endpoint Tx Term
  process_from self outside req flag sequence none =
      answered self (err (internal (codes "Missing source!")))
  process_from self outside req register sequence (some peer) =
      do_register self outside req.path (record { peer = peer; token = req.token }) sequence
  process_from self outside req deregister sequence (some peer) =
      do_deregister self req.path (record { peer = peer; token = req.token })
        (get req.path self.registrations_by_path)

  abbrev process_response :
      ObserveHandler Endpoint Tx Term
      → Surroundings Tx Term
      → ObserveRequest Endpoint
      → ObserveOption
      → Option (Option (Result ℕ Text))
      → Processed Endpoint Tx Term
  process_response self outside req flag none =
      answered self (err (internal (codes "No response prepared")))
  process_response self outside req flag (some (some (err _))) =
      answered self (err (internal (codes "Invalid Observe option in prepared response")))
  process_response self outside req flag (some (some (ok n))) =
      process_from self outside req flag (some n) req.source
  process_response self outside req flag (some none) =
      process_from self outside req flag none req.source

  abbrev process_flag :
      ObserveHandler Endpoint Tx Term
      → Surroundings Tx Term
      → ObserveRequest Endpoint
      → Option (Result ObserveOption Text)
      → Processed Endpoint Tx Term
  process_flag self outside req none = answered self (ok no_change)
  process_flag self outside req (some (err e)) = answered self (err (bad_request e))
  process_flag self outside req (some (ok flag)) =
      process_response self outside req flag req.response

  unfoldable pub maybe_process_registration :
      ObserveHandler Endpoint Tx Term
      → Surroundings Tx Term
      → ObserveRequest Endpoint
      → Processed Endpoint Tx Term
  unfolding get insert remove observers_for to_u32
  maybe_process_registration self outside req = process_flag self outside req req.observe_flag

  -- What is left to do once `on_active` has returned: the registrations of the path end.
  unfoldable pub on_active_returned :
      ObserveHandler Endpoint Tx Term → Text → ObserveHandler Endpoint Tx Term × List Term
  unfolding get remove
  on_active_returned self path_key = elim (get path_key self.registrations_by_path) [
    | some for_path ↦ (
      record self { registrations_by_path = remove path_key self.registrations_by_path },
      values for_path.registrations,
    )
    | none ↦ (self, [])
  ]
