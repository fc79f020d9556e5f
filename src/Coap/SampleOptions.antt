-- ===== src/Coap/SampleOptions.antt =====
-- A packet with a header, an Observe value, a path, a token and a payload, which shows that the
-- interface of the options can be met.
use coap_server_rs.Base.{
  ℕ, Bool, true, false, ◌≡◌, ◌≢◌, zero, suc, refl, Option, none, some, [], ◌∷◌, ok, Result, Text,
}
use coap_server_rs.Coap.{
  Coap, MessageType, MessageClass, RequestType, ResponseType, unknown, request, response, content,
  confirmable, non_confirmable, empty,
}
use coap_server_rs.Coap.Options.{Options}
use coap_server_rs.ObserveHandler.{ObserveOption, register, deregister}

pub record Message : Type 0 where
  pub id : ℕ
  pub kind : MessageType
  pub class : MessageClass
  pub observe : Option ℕ
  pub path : Text
  pub token : Text
  pub payload : Text

abbrev pub message_coap : Coap
message_coap = record {
  Packet = Message;
  new_packet = record {
    id = 0;
    kind = non_confirmable;
    class = empty;
    observe = none;
    path = [];
    token = [];
    payload = [];
  };
  message_id = λ p. p.id;
  get_type = λ p. p.kind;
  code = λ p. p.class;
  set_message_id = λ n p. record p { id = n };
  set_type = λ t p. record p { kind = t };
  set_code = λ c p. record p { class = c };
  message_id-set_message_id = λ n p. refl;
  message_id-set_type = λ t p. refl;
  message_id-set_code = λ c p. refl;
  get_type-set_type = λ t p. refl;
  get_type-set_message_id = λ n p. refl;
  get_type-set_code = λ c p. refl;
  code-set_code = λ c p. refl;
  code-set_type = λ t p. refl;
  code-set_message_id = λ n p. refl;
}

abbrev flag_of : Option ℕ → Option (Result ObserveOption Text)
flag_of none = none
flag_of (some zero) = some (ok register)
flag_of (some (suc n)) = some (ok deregister)

abbrev value_of : Option ℕ → Option (Result ℕ Text)
value_of none = none
value_of (some n) = some (ok n)

abbrev method_of : MessageClass → RequestType
method_of (request t) = t
method_of _ = unknown

-- Only a confirmable or a non-confirmable message has a response.
abbrev response_of : MessageType → Message → Option Message
response_of confirmable p =
    some (record p { class = response content; observe = none; payload = [] })
response_of non_confirmable p =
    some (record p { class = response content; observe = none; payload = [] })
response_of _ p = none

-- An error without a code has no response.
abbrev pub apply_from : Option ResponseType → Text → Option Message → Bool × Option Message
apply_from (some code) text (some r) =
    (true, some (record r { class = response code; payload = text }))
apply_from _ text r = (false, r)

pub apply_from_response :
    (code : Option ResponseType) (text : Text) (r : Option Message)
    → (apply_from code text r).0 ≡ true
    → (apply_from code text r).1 ≢ none
apply_from_response (some code) text (some r) h = λ q. cc
apply_from_response none text (some r) h = absurd cc
apply_from_response none text none h = absurd cc
apply_from_response (some code) text none h = absurd cc

abbrev pub message_options : Options message_coap
message_options = record {
  get_observe_value = λ p. value_of p.observe;
  set_observe_value = λ n p. record p { observe = some n };
  clear_observe = λ p. record p { observe = none };
  get_observe_flag = λ p. flag_of p.observe;
  get_path = λ p. p.path;
  get_path_as_vec = λ p. ok (p.path ∷ []);
  get_token = λ p. p.token;
  get_method = λ p. method_of p.class;
  set_payload = λ t p. record p { payload = t };
  response_for = λ p. response_of p.kind p;
  apply_from_error = λ e r. apply_from e.code e.message r;
  apply_from_error-response = λ e r h. apply_from_response e.code e.message r h;
  get_observe_value-set_observe_value = λ n p. refl;
  get_observe_value-set_type = λ t p. refl;
  get_observe_value-set_message_id = λ n p. refl;
}
