-- ===== src/App/Served.antt =====
-- The packets that `handle_get` of app_handler.rs sends for a request.
use coap_server_rs.Base.{Bool, true, some, List, Result, ok, Text, PartialEq, list_eq, nat_eq, ◌≡◌}
use coap_server_rs.Coap.{Coap}
use coap_server_rs.Coap.Options.{Options, CoapRequest}
use coap_server_rs.Errors.{CoapError, HandlingError, into_handling_error}
use coap_server_rs.ObserveHandler.{ObserveHandler}
use coap_server_rs.App.{AppHandler, ResourceHandler}
use coap_server_rs.App.Route.{route}
use coap_server_rs.App.Answer.{Answered, from_packet, handle_get}
use coap_server_rs.Handling.Loop.{LoopEvent}
use coap_server_rs.Handling.Start.{Found}

module _ (c : Coap) (o : Options c) {Endpoint : Type 0}
    (intercept : CoapRequest c.Packet Endpoint
      → Result Bool HandlingError × CoapRequest c.Packet Endpoint)
    (packet : c.Packet) (peer : Endpoint) where
  open c use {Packet}

  -- The error has a response for the request, which leaves the error's block handler as `sent`.
  pub record HasAnswer (error : CoapError) (sent : Packet) : Type 0 where
    pub prepared : Packet
    pub applied :
        o.apply_from_error (into_handling_error error) (from_packet c o packet peer).response
        ≡ (true, some prepared)
    pub intercepted :
        (intercept (record (from_packet c o packet peer) { response = some prepared })).1.response
        ≡ some sent

module _ (c : Coap) (o : Options c) {H O : Type 0} (self : AppHandler H O) (packet : c.Packet) where
  -- The request goes to the handler of the resource, with the rest of its path.
  abbrev pub IsRouted : H → ResourceHandler H O → List Text → Type 0
  IsRouted handler resource unmatched =
      route self (o.get_path_as_vec packet) (o.get_method packet)
      ≡ ok (handler, resource, unmatched)

module _ (c : Coap) (o : Options c) {H O Endpoint Tx Term F : Type 0} ⦃e : PartialEq Endpoint⦄
    (self : AppHandler H O) (found : H → ResourceHandler H O → Found c.Packet Endpoint Tx Term)
    (intercept : CoapRequest c.Packet Endpoint
      → Result Bool HandlingError × CoapRequest c.Packet Endpoint)
    (events : List (LoopEvent c.Packet Endpoint Tx F)) (packet : c.Packet) (peer : Endpoint) where
  open c use {Packet}
  open o use {get_path_as_vec, get_method, get_observe_flag, get_observe_value}

  abbrev answer : Answered Packet Endpoint Tx Term F
  answer = handle_get c o self found intercept true events packet peer

  abbrev request : CoapRequest Packet Endpoint
  request = from_packet c o packet peer
