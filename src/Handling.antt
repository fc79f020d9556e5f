-- ===== src/Handling.antt =====
-- `do_handle` of coap-server/src/app/resource_handler.rs: a request's response, its registration as an
-- observer, and the loop that sends the notifications. What the user's handler and the library's
-- block handler answer in a round is an argument, as they keep a state of their own.
pub mod Loop
pub mod Notify
pub mod Delivered
pub mod Start
pub mod Laws
pub mod Watch
mod Tests
mod WatchTests
mod Sample
use coap_server_rs.Base.{
  ℕ, Bool, true, false, Option, none, some, List, [], ◌∷◌, Result, ok, err, Outcome, returned,
  panicked, PartialEq, if◌then◌else◌, Text,
}
use coap_server_rs.Coap.{Coap, confirmable}
use coap_server_rs.Coap.Options.{Options, CoapRequest}
use coap_server_rs.Errors.{CoapError, HandlingError, from_handling_error}
use coap_server_rs.U24.{to_u32}
use coap_server_rs.Observers.{Observers, NotificationState, initial_sequence, resource_changed}
use coap_server_rs.ObserveHandler.{
  ObserveHandler, ObserveRequest, Surroundings, Processed, RegistrationEvent, RegistrationHandle,
  no_change, unregistered, registered, maybe_process_registration,
}
use coap_server_rs.Retransmission.Manager.{RetransmissionManager, Started, send_reliably}
use coap_server_rs.Retransmission.Send.{
  Wake, Run, Progress, done, pending, overflow_panic, into_future,
}

-- The answers in one round: the request handler's, and the block handler's to the response, if the
-- resource has a block handler; it may also change the request.
pub record Round (Packet Endpoint : Type 0) : Type 0 where
  pub handle : CoapRequest Packet Endpoint → List Text → Result Packet CoapError
  pub intercept_response :
      Option (CoapRequest Packet Endpoint → Result Bool HandlingError × CoapRequest Packet Endpoint)

module _ {Packet Endpoint : Type 0} where
  abbrev from_library :
      Result Bool HandlingError × CoapRequest Packet Endpoint
      → Result Bool CoapError × CoapRequest Packet Endpoint
  from_library (ok b, pair) = (ok b, pair)
  from_library (err e, pair) = (err (from_handling_error e), pair)

  unfoldable pub maybe_handle_block_response :
      Round Packet Endpoint
      → CoapRequest Packet Endpoint
      → Result Bool CoapError × CoapRequest Packet Endpoint
  maybe_handle_block_response round request = elim round.intercept_response [
    | some intercept ↦ from_library (intercept request)
    | none ↦ (ok false, request)
  ]

  -- The same for the request, by the block handler's answer to it.
  unfoldable pub maybe_handle_block_request :
      Option (CoapRequest Packet Endpoint → Result Bool HandlingError × CoapRequest Packet Endpoint)
      → CoapRequest Packet Endpoint
      → Result Bool CoapError × CoapRequest Packet Endpoint
  maybe_handle_block_request none request = (ok false, request)
  maybe_handle_block_request (some intercept) request = from_library (intercept request)

  abbrev assigned :
      Result Bool CoapError × CoapRequest Packet Endpoint
      → Result (CoapRequest Packet Endpoint) CoapError
  assigned (ok _, pair) = ok pair
  assigned (err e, pair) = err e

  -- The pair with its response. After an error the pair is not used again.
  unfoldable pub generate_and_assign_response :
      Round Packet Endpoint
      → CoapRequest Packet Endpoint
      → List Text
      → Result (CoapRequest Packet Endpoint) CoapError
  unfolding maybe_handle_block_response
  generate_and_assign_response round current_pair unmatched_path =
      elim (round.handle current_pair unmatched_path) [
        | err e ↦ err e
        | ok response ↦
            assigned
              (maybe_handle_block_response round (record current_pair { response = some response }))
      ]
