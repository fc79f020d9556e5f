-- ===== src/App/ServedTests.antt =====
-- app_handler.rs with one resource "s" that can be observed: requests to it and to another path.
use coap_server_rs.Base.{
  ℕ, ◌≡◌, refl, Bool, true, false, Option, returned, none, some, List, [], ◌∷◌, Result, ok, Text,
  codes, nat_eq, list_eq,
}
use coap_server_rs.Coap.{
  confirmable, reset, empty, request, response, content, get, not_found as not_found_code,
}
use coap_server_rs.Coap.Options.{CoapRequest}
use coap_server_rs.Coap.SampleOptions.{Message, message_coap, message_options}
use coap_server_rs.Errors.{HandlingError, not_found}
use coap_server_rs.Observers.{initial_sequence}
use coap_server_rs.ObserveHandler.{ObserveHandler, new_handler}
use coap_server_rs.Retransmission.Manager.{RetransmissionManager}
use coap_server_rs.App.{AppHandler, ResourceHandler, new_match_all}
use coap_server_rs.App.Request.{new_response}
use coap_server_rs.App.Answer.{handle}
use coap_server_rs.Handling.{Round}
use coap_server_rs.Handling.Loop.{LoopEvent, terminated}
use coap_server_rs.Handling.Start.{Found}

abbrev resource : ResourceHandler ℕ ℕ
resource = record {
  handlers = (new_match_all, 4) ∷ [];
  observe_handler = some (codes "s", 1);
  block_handler = none;
}

abbrev app : AppHandler ℕ ℕ
app = record {
  error_block_handler = 1152;
  handlers_by_path = record { map = (codes "s" ∷ [], resource) ∷ [] };
}

abbrev asks : Option ℕ → Text → Message
asks observe path = record {
  id = 3;
  kind = confirmable;
  class = request get;
  observe = observe;
  path = path;
  token = 5 ∷ [];
  payload = [];
}

abbrev value_now : Message
value_now = record (asks none (codes "s")) { class = response content; payload = codes "on" }

abbrev round : Round Message ℕ
round = record { handle = λ p u. ok value_now; intercept_response = none }

abbrev found : ℕ → ResourceHandler ℕ ℕ → Found Message ℕ ℕ ℕ
found h r = record {
  observe = some (new_handler (codes "s"));
  outside = record {
    new_watch = 100;
    new_oneshot = 200;
    random = (1, 2, 3);
    borrow = λ _. initial_sequence (record { value = 4 });
  };
  intercept_request = none;
  round = round;
  tx_open = true;
}

abbrev untouched : CoapRequest Message ℕ → Result Bool HandlingError × CoapRequest Message ℕ
untouched pair = (ok false, pair)

abbrev ends : List (LoopEvent Message ℕ ℕ ℕ)
ends = terminated ∷ []

abbrev elsewhere : Message
elsewhere = asks none (codes "x")

abbrev missing : Message
missing = record elsewhere { class = response not_found_code; payload = codes "Not found" }

abbrev registers : Message
registers = asks (some 0) (codes "s")

abbrev pair : CoapRequest Message ℕ
pair = record { message = registers; response = some value_now; source = some 7 }

test_new_response :
    new_response message_coap message_options pair
    ≡ returned (record registers { class = response content; observe = none })
unfolding new_response
test_new_response = refl

abbrev manager : RetransmissionManager ℕ ℕ ℕ
manager = record {
  next_message_id = 7;
  unacknowledged_messages = [];
  parameters = record { ack_timeout = 5; ack_random_factor = 10; max_retransmit = 1 };
}

-- A request without a resource, and a ping.
test_handle :
    handle message_coap message_options app found untouched ends (λ tx. true) manager elsewhere 7
    ≡ missing ∷ []
unfolding handle
test_handle = refl

test_ping :
    handle message_coap message_options app found untouched ends
      (λ tx. true)
      manager
      (record elsewhere { class = empty })
      7
    ≡ record message_coap.new_packet { id = 3; kind = reset } ∷ []
unfolding handle
test_ping = refl
