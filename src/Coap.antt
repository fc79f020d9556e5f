-- ===== src/Coap.antt =====
-- What the server uses of the message library coap_lite, as an interface: the enumerations that the
-- code matches on, and the header of a packet by its getters and setters with their laws. The
-- packet type itself, its encoding, its options and its payload are not under the repository.
pub mod Sample
pub mod Options
pub mod SampleOptions
use coap_server_rs.Base.{ℕ, ◌≡◌}

pub data MessageType : Type 0 where
  confirmable non_confirmable acknowledgement reset : MessageType

pub data RequestType : Type 0 where
  get post put delete fetch patch ipatch unknown : RequestType

-- `other_response` stands for the codes that the server's code does not name.
pub data ResponseType : Type 0 where
  content created changed valid : ResponseType
  bad_request not_found method_not_allowed internal_server_error : ResponseType
  other_response : ℕ → ResponseType

pub data MessageClass : Type 0 where
  request : RequestType → MessageClass
  response : ResponseType → MessageClass
  empty : MessageClass
  reserved : ℕ → MessageClass

pub record Coap : Type 1 where
  pub Packet : Type 0
  pub new_packet : Packet
  pub message_id : Packet → ℕ
  pub get_type : Packet → MessageType
  pub code : Packet → MessageClass
  pub set_message_id : ℕ → Packet → Packet
  pub set_type : MessageType → Packet → Packet
  pub set_code : MessageClass → Packet → Packet
  pub message_id-set_message_id : (n : ℕ) (p : Packet) → message_id (set_message_id n p) ≡ n
  pub message_id-set_type :
      (t : MessageType) (p : Packet) → message_id (set_type t p) ≡ message_id p
  pub message_id-set_code :
      (c : MessageClass) (p : Packet) → message_id (set_code c p) ≡ message_id p
  pub get_type-set_type : (t : MessageType) (p : Packet) → get_type (set_type t p) ≡ t
  pub get_type-set_message_id : (n : ℕ) (p : Packet) → get_type (set_message_id n p) ≡ get_type p
  pub get_type-set_code : (c : MessageClass) (p : Packet) → get_type (set_code c p) ≡ get_type p
  pub code-set_code : (c : MessageClass) (p : Packet) → code (set_code c p) ≡ c
  pub code-set_type : (t : MessageType) (p : Packet) → code (set_type t p) ≡ code p
  pub code-set_message_id : (n : ℕ) (p : Packet) → code (set_message_id n p) ≡ code p
