-- ===== src/Handling/Sample.antt =====
-- A peer that observes "s/x" of a resource whose handler always answers, with a transport that gives
-- each notification the outcome of its delivery.
use coap_server_rs.Base.{ℕ, true, none, some, List, [], ◌∷◌, ok, codes, nat_eq}
use coap_server_rs.Coap.{confirmable, acknowledgement, get, request, response, content}
use coap_server_rs.Coap.Options.{CoapRequest}
use coap_server_rs.Coap.SampleOptions.{Message}
use coap_server_rs.Retransmission.{peer_response}
use coap_server_rs.Retransmission.Params.{TransmissionParameters}
use coap_server_rs.Retransmission.Send.{Wake, changed}
use coap_server_rs.Handling.Loop.{Delivery}
use coap_server_rs.Handling.{Round}

abbrev pub asks : Message
asks = record {
  id = 3;
  kind = confirmable;
  class = request get;
  observe = some 0;
  path = codes "s/x";
  token = 5 ∷ [];
  payload = [];
}

abbrev pub value_now : Message
value_now = record asks { class = response content; observe = none; payload = codes "on" }

abbrev pub pair : CoapRequest Message ℕ
pair = record { message = asks; response = none; source = some 7 }

abbrev pub answers : Round Message ℕ
answers = record { handle = λ p u. ok value_now; intercept_response = none }

abbrev pub parameters : TransmissionParameters ℕ
parameters = record { ack_timeout = 5; ack_random_factor = 10; max_retransmit = 1 }

abbrev pub delivery : List (Wake ℕ) → Delivery ℕ ℕ ℕ
delivery wakes = record {
  manager = record { next_message_id = 7; unacknowledged_messages = []; parameters = parameters };
  has_receiver = λ tx. true;
  reply_tx = 30;
  first_timeout = 5;
  accepts = λ n. true;
  wakes = wakes;
}

abbrev pub acknowledged : Delivery ℕ ℕ ℕ
acknowledged = delivery (changed (peer_response acknowledgement) ∷ [])
