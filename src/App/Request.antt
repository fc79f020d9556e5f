-- ===== src/App/Request.antt =====
-- coap-server/src/app/request.rs: the response that a handler starts from.
use coap_server_rs.Base.{none, some, [], Outcome, returned, panicked}
use coap_server_rs.Coap.{
  Coap, RequestType, get, post, put, ResponseType, content, created, changed, valid, response,
}
use coap_server_rs.Coap.Options.{Options, CoapRequest}

abbrev pub default_code : RequestType → ResponseType
default_code get = content
default_code post = created
default_code put = changed
default_code _ = valid

module _ (c : Coap) (o : Options c) {Endpoint : Type 0} where
  open c use {Packet, set_code}
  open o use {response_for, set_payload, get_method}

  -- `CoapResponse::new(...).expect(...)`: a message without a response panics.
  unfoldable pub new_response : CoapRequest Packet Endpoint → Outcome Packet
  new_response original = elim (response_for original.message) [
    | none ↦ panicked
    | some r ↦
        returned
          (set_code (response (default_code (get_method original.message))) (set_payload [] r))
  ]
