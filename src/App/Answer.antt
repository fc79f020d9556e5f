-- ===== src/App/Answer.antt =====
-- `try_handle_get` and `handle_get` of app_handler.rs: a request from its packet to the packets that
-- its handling sends, the response to an error included.
use coap_server_rs.Base.{
  Bool, true, false, Option, none, some, List, [], ◌∷◌, ◌++◌, Result, ok, err, Text, PartialEq,
}
use coap_server_rs.Coap.{Coap}
use coap_server_rs.Coap.Options.{Options, CoapRequest}
use coap_server_rs.Errors.{CoapError, HandlingError, into_handling_error}
use coap_server_rs.ObserveHandler.{to_list}
use coap_server_rs.App.{AppHandler, ResourceHandler}
use coap_server_rs.App.Route.{route}
use coap_server_rs.App.Packets.{handle_packet}
use coap_server_rs.Retransmission.Manager.{RetransmissionManager}
use coap_server_rs.Handling.Loop.{LoopEvent, Notification, Standing, left, unwound}
use coap_server_rs.Handling.Start.{Found, Handled, do_handle}

-- The handling of a request: what the resource did, none if no resource did anything; the packet
-- sent for an error; and where the handling stands.
pub record Answered (Packet Endpoint Tx Term F : Type 0) : Type 0 where
  pub handled : Option (Handled Packet Endpoint Tx Term F)
  pub error_response : Option Packet
  pub standing : Standing

module _ (c : Coap) (o : Options c) {Endpoint : Type 0} where
  open c use {Packet}
  open o use {response_for}

  -- `CoapRequest::from_packet`
  unfoldable pub from_packet : Packet → Endpoint → CoapRequest Packet Endpoint
  from_packet packet peer = record {
    message = packet;
    response = response_for packet;
    source = some peer;
  }

module _ (c : Coap) (o : Options c) {H O Endpoint Tx Term F : Type 0} ⦃e : PartialEq Endpoint⦄ where
  open c use {Packet}
  open o use {get_path_as_vec, get_method}

  abbrev pub handled_by :
      (H → ResourceHandler H O → Found Packet Endpoint Tx Term)
      → CoapRequest Packet Endpoint
      → List (LoopEvent Packet Endpoint Tx F)
      → Result (H × ResourceHandler H O × List Text) CoapError
      → Option (Handled Packet Endpoint Tx Term F) × Standing
  handled_by found request events (err error) = (none, left (err error))
  handled_by found request events (ok (handler, resource, unmatched)) =
      let h = do_handle c o (found handler resource) request unmatched events in
      (some h, h.observed.standing)

  -- `found` is what the resource's handling finds. The resource gets a clone of the request.
  unfoldable pub try_handle_get :
      AppHandler H O
      → (H → ResourceHandler H O → Found Packet Endpoint Tx Term)
      → CoapRequest Packet Endpoint
      → List (LoopEvent Packet Endpoint Tx F)
      → Option (Handled Packet Endpoint Tx Term F) × Standing
  unfolding route do_handle
  try_handle_get self found request events =
      handled_by found request events
        (route self (get_path_as_vec request.message) (get_method request.message))

module _ (c : Coap) (o : Options c) {Endpoint Tx Term F : Type 0} where
  open c use {Packet}
  open o use {apply_from_error}

  -- `tx.send(request.response.unwrap().message).unwrap()`
  abbrev sent_error :
      Option (Handled Packet Endpoint Tx Term F)
      → CoapError
      → Bool
      → Option Packet
      → Answered Packet Endpoint Tx Term F
  sent_error handled error true (some r) = record {
    handled = handled;
    error_response = some r;
    standing = left (ok tt);
  }
  sent_error handled error _ _ = record {
    handled = handled;
    error_response = none;
    standing = unwound;
  }

  -- `intercept` is the answer of the error's block handler, whose result is ignored.
  abbrev apply_error :
      (CoapRequest Packet Endpoint → Result Bool HandlingError × CoapRequest Packet Endpoint)
      → Bool
      → CoapRequest Packet Endpoint
      → Option (Handled Packet Endpoint Tx Term F)
      → CoapError
      → Bool × Option Packet
      → Answered Packet Endpoint Tx Term F
  apply_error intercept tx_open request handled error (false, r) = record {
    handled = handled;
    error_response = none;
    standing = left (ok tt);
  }
  apply_error intercept tx_open request handled error (true, r) =
      sent_error handled error tx_open (intercept (record request { response = r })).1.response

  abbrev pub finish :
      (CoapRequest Packet Endpoint → Result Bool HandlingError × CoapRequest Packet Endpoint)
      → Bool
      → CoapRequest Packet Endpoint
      → Option (Handled Packet Endpoint Tx Term F) × Standing
      → Answered Packet Endpoint Tx Term F
  finish intercept tx_open request (handled, left (err error)) =
      apply_error intercept tx_open request handled error
        (apply_from_error (into_handling_error error) request.response)
  finish intercept tx_open request (handled, standing) = record {
    handled = handled;
    error_response = none;
    standing = standing;
  }

module _ (c : Coap) (o : Options c) {H O Endpoint Tx Term F : Type 0} ⦃e : PartialEq Endpoint⦄ where
  open c use {Packet}

  unfoldable pub handle_get :
      AppHandler H O
      → (H → ResourceHandler H O → Found Packet Endpoint Tx Term)
      → (CoapRequest Packet Endpoint → Result Bool HandlingError × CoapRequest Packet Endpoint)
      → Bool
      → List (LoopEvent Packet Endpoint Tx F)
      → Packet
      → Endpoint
      → Answered Packet Endpoint Tx Term F
  unfolding from_packet try_handle_get
  handle_get self found intercept tx_open events packet peer =
      let request = from_packet c o packet peer in
      finish c o intercept tx_open request (try_handle_get c o self found request events)

module _ {Packet Endpoint Tx F : Type 0} where
  abbrev pub transmitted : List (Notification Packet Endpoint Tx F) → List Packet
  transmitted [] = []
  transmitted (n ∷ later) = n.run.transmissions ++ transmitted later

module _ {Packet Endpoint Tx Term F : Type 0} where
  abbrev sent_by : Option (Handled Packet Endpoint Tx Term F) → List Packet
  sent_by none = []
  sent_by (some h) = h.responses ++ transmitted h.observed.notifications

  -- The packets sent, in their order.
  abbrev pub packets : Answered Packet Endpoint Tx Term F → List Packet
  packets a = sent_by a.handled ++ to_list a.error_response

module _ (c : Coap) (o : Options c) {H O Endpoint Tx Term F : Type 0} ⦃e : PartialEq Endpoint⦄ where
  open c use {Packet}

  -- The packets of the stream that `handle` returns: those that the task which it spawns sends. The
  -- manager is behind a lock, and is what the task finds.
  unfoldable pub handle :
      AppHandler H O
      → (H → ResourceHandler H O → Found Packet Endpoint Tx Term)
      → (CoapRequest Packet Endpoint → Result Bool HandlingError × CoapRequest Packet Endpoint)
      → List (LoopEvent Packet Endpoint Tx F)
      → (Tx → Bool)
      → RetransmissionManager Endpoint Tx F
      → Packet
      → Endpoint
      → List Packet
  unfolding handle_packet handle_get
  handle self found intercept events has_receiver manager packet peer =
      let dispatched = handle_packet c has_receiver true manager packet peer in
      elim dispatched.handled [
        | none ↦ dispatched.outgoing
        | some request ↦ packets (handle_get c o self found intercept true events request peer)
      ]
