-- ===== src/Coap/Options.antt =====
-- What the server uses of the message library beyond the header: the options, the token, the payload
-- and the prepared response of a packet, and the library's struct for a request.
use coap_server_rs.Base.{ℕ, Bool, true, ◌≡◌, ◌≢◌, Option, none, some, List, Result, ok, Text}
use coap_server_rs.Coap.{Coap, MessageType, RequestType}
use coap_server_rs.Errors.{HandlingError}
use coap_server_rs.ObserveHandler.{ObserveOption}

-- `response_for` is `CoapResponse::new`, and a `set` of an option replaces its value.
-- `apply_from_error` makes the prepared response of a request one for the error, and says whether
-- that has been possible; then there is a response.
pub record Options (c : Coap) : Type 0 where
  pub get_observe_value : c.Packet → Option (Result ℕ Text)
  pub set_observe_value : ℕ → c.Packet → c.Packet
  pub clear_observe : c.Packet → c.Packet
  pub get_observe_flag : c.Packet → Option (Result ObserveOption Text)
  pub get_path : c.Packet → Text
  pub get_path_as_vec : c.Packet → Result (List Text) Text
  pub get_token : c.Packet → Text
  pub get_method : c.Packet → RequestType
  pub set_payload : Text → c.Packet → c.Packet
  pub response_for : c.Packet → Option c.Packet
  pub apply_from_error : HandlingError → Option c.Packet → Bool × Option c.Packet
  pub get_observe_value-set_observe_value :
      (n : ℕ) (p : c.Packet) → get_observe_value (set_observe_value n p) ≡ some (ok n)
  pub get_observe_value-set_type :
      (t : MessageType) (p : c.Packet) → get_observe_value (c.set_type t p) ≡ get_observe_value p
  pub get_observe_value-set_message_id :
      (n : ℕ) (p : c.Packet) → get_observe_value (c.set_message_id n p) ≡ get_observe_value p
  pub apply_from_error-response :
      (e : HandlingError) (r : Option c.Packet)
      → (apply_from_error e r).0 ≡ true
      → (apply_from_error e r).1 ≢ none

-- `CoapRequest`, whose fields the code reads and writes.
pub record CoapRequest (Packet Endpoint : Type 0) : Type 0 where
  pub message : Packet
  pub response : Option Packet
  pub source : Option Endpoint
