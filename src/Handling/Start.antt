-- ===== src/Handling/Start.antt =====
-- `do_handle` of resource_handler.rs up to its loop, and as a whole.
use coap_server_rs.Base.{
  ℕ, Bool, true, false, Option, none, some, List, [], ◌∷◌, Result, ok, err, PartialEq, Text,
}
use coap_server_rs.Coap.{Coap}
use coap_server_rs.Coap.Options.{Options, CoapRequest}
use coap_server_rs.Errors.{CoapError, HandlingError}
use coap_server_rs.Observers.{Observers}
use coap_server_rs.ObserveHandler.{
  ObserveHandler, ObserveRequest, Surroundings, Processed, RegistrationEvent, no_change,
  unregistered, registered, maybe_process_registration,
}
use coap_server_rs.Handling.{Round, generate_and_assign_response, maybe_handle_block_request}
use coap_server_rs.Handling.Loop.{
  Standing, left, unwound, LoopEvent, Observed, stopped, observe_loop,
}

-- A resource that can be observed has an observe handler, which others use too: `observe` is its state
-- when the request takes its lock. `intercept_request` is the block handler's answer to the request,
-- and `tx_open` says whether the packets of the response still have a receiver.
pub record Found (Packet Endpoint Tx Term : Type 0) : Type 0 where
  pub observe : Option (ObserveHandler Endpoint Tx Term)
  pub outside : Surroundings Tx Term
  pub intercept_request :
      Option (CoapRequest Packet Endpoint → Result Bool HandlingError × CoapRequest Packet Endpoint)
  pub round : Round Packet Endpoint
  pub tx_open : Bool

-- What the handling did: the observe handler's state, the lifecycle that it spawned and the
-- registrations that it ended, the packets sent as responses, and the course of the loop.
pub record Handled (Packet Endpoint Tx Term F : Type 0) : Type 0 where
  pub observe : Option (ObserveHandler Endpoint Tx Term)
  pub spawned : Option (Text × Observers Tx)
  pub ended : List Term
  pub responses : List Packet
  pub observed : Observed Packet Endpoint Tx F

module _ (c : Coap) (o : Options c) where
  open c use {Packet}
  open o use {get_observe_value, set_observe_value, get_observe_flag, get_path, get_token}

  abbrev pub seen : Option Packet → Option (Option (Result ℕ Text))
  seen none = none
  seen (some response) = some (get_observe_value response)

  -- What the observe handler reads of the pair.
  unfoldable pub observe_request :
      {Endpoint : Type 0} → CoapRequest Packet Endpoint → ObserveRequest Endpoint
  observe_request pair = record {
    observe_flag = get_observe_flag pair.message;
    path = get_path pair.message;
    response = seen pair.response;
    source = pair.source;
    token = get_token pair.message;
  }

  abbrev pub set_on : Option ℕ → Option Packet → Option Packet
  set_on none response = response
  set_on (some n) none = none
  set_on (some n) (some response) = some (set_observe_value n response)

module _ {Packet Endpoint Tx Term : Type 0} where
  -- The pair before the registration: either the block handler has answered, or the handler has.
  unfoldable pub first_response :
      Found Packet Endpoint Tx Term
      → CoapRequest Packet Endpoint
      → List Text
      → Result (CoapRequest Packet Endpoint) CoapError
  unfolding maybe_handle_block_request generate_and_assign_response
  first_response found original unmatched =
      let asked = maybe_handle_block_request found.intercept_request original in
      elim asked.0 [
        | err error ↦ err error
        | ok true ↦ ok asked.1
        | ok false ↦ generate_and_assign_response found.round asked.1 unmatched
      ]

module _ (c : Coap) (o : Options c) {Endpoint Tx Term : Type 0} ⦃e : PartialEq Endpoint⦄ where
  open c use {Packet}

  -- What the observe handler does with the pair, if the resource can be observed.
  unfoldable pub maybe_handle_observe_registration :
      Found Packet Endpoint Tx Term
      → CoapRequest Packet Endpoint
      → Option (Processed Endpoint Tx Term)
  unfolding maybe_process_registration observe_request
  maybe_handle_observe_registration found pair = elim found.observe [
    | none ↦ none
    | some handler ↦
        some (maybe_process_registration handler found.outside (observe_request c o pair))
  ]

module _ (c : Coap) (o : Options c) {Endpoint Tx Term F : Type 0} ⦃e : PartialEq Endpoint⦄ where
  open c use {Packet}

  abbrev pub only : Found Packet Endpoint Tx Term → Standing → Handled Packet Endpoint Tx Term F
  only found s = record {
    observe = found.observe;
    spawned = none;
    ended = [];
    responses = [];
    observed = stopped s;
  }

  -- `tx.send(...).unwrap()`, and then the loop if there is one.
  abbrev pub respond :
      Bool
      → Option Packet
      → Observed Packet Endpoint Tx F
      → Handled Packet Endpoint Tx Term F
      → Handled Packet Endpoint Tx Term F
  respond true (some response) course h = record h { responses = response ∷ []; observed = course }
  respond true none course h = record h { observed = stopped unwound }
  respond false response course h = record h { observed = stopped unwound }

  -- The registered request goes on in the loop.
  abbrev pub course_of :
      CoapRequest Packet Endpoint
      → List Text
      → List (LoopEvent Packet Endpoint Tx F)
      → RegistrationEvent Tx Term
      → Observed Packet Endpoint Tx F
  course_of pair unmatched events no_change = stopped (left (ok tt))
  course_of pair unmatched events unregistered = stopped (left (ok tt))
  course_of pair unmatched events (registered handle) = observe_loop c o pair unmatched events

  abbrev pub registered_as :
      Found Packet Endpoint Tx Term
      → List Text
      → List (LoopEvent Packet Endpoint Tx F)
      → CoapRequest Packet Endpoint
      → Processed Endpoint Tx Term
      → Result (RegistrationEvent Tx Term) CoapError
      → Handled Packet Endpoint Tx Term F
  registered_as found unmatched events pair p (err error) = record (only found (left (err error))) {
    observe = some p.handler;
  }
  registered_as found unmatched events pair p (ok event) =
      let answered = record pair { response = set_on c o p.observe_value pair.response } in
      respond found.tx_open answered.response (course_of answered unmatched events event) (record {
        observe = some p.handler;
        spawned = p.spawned;
        ended = p.terminated;
        responses = [];
        observed = stopped (left (ok tt));
      })

  abbrev pub respond_to :
      Found Packet Endpoint Tx Term
      → List Text
      → List (LoopEvent Packet Endpoint Tx F)
      → CoapRequest Packet Endpoint
      → Option (Processed Endpoint Tx Term)
      → Handled Packet Endpoint Tx Term F
  respond_to found unmatched events pair none =
      respond found.tx_open pair.response (stopped (left (ok tt))) (only found (left (ok tt)))
  respond_to found unmatched events pair (some p) =
      registered_as found unmatched events pair p p.result

  unfoldable pub do_handle :
      Found Packet Endpoint Tx Term
      → CoapRequest Packet Endpoint
      → List Text
      → List (LoopEvent Packet Endpoint Tx F)
      → Handled Packet Endpoint Tx Term F
  unfolding first_response maybe_handle_observe_registration observe_loop
  do_handle found original unmatched events = elim (first_response found original unmatched) [
    | err error ↦ only found (left (err error))
    | ok pair ↦
        respond_to found unmatched events pair (maybe_handle_observe_registration c o found pair)
  ]
