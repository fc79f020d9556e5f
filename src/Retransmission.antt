-- ===== src/Retransmission.antt =====
-- coap-server/src/app/retransmission_manager.rs: the data that the manager and a send share.
-- A channel end is a value of the parameter type `Tx`; a `Duration` counts nanoseconds.
pub mod Params
pub mod Manager
pub mod Send
mod Tests
use coap_server_rs.Base.{
  ℕ, ◌≡◌, ◌↔◌, Bool, true, ◌&&◌, arith, PartialEq, nat_eq, ◌*◌, ◌+◌, ◌-◌, ◌^◌,
}
use coap_server_rs.Coap.{MessageType}

pub record MessageKey (Endpoint : Type 0) : Type 0 where
  pub message_id : ℕ
  pub peer : Endpoint

module _ {Endpoint : Type 0} ⦃e : PartialEq Endpoint⦄ where
  abbrev pub key_beq : MessageKey Endpoint → MessageKey Endpoint → Bool
  key_beq j k = nat_eq.eq j.message_id k.message_id && e.eq j.peer k.peer

  pub key_beq_iff : (j k : MessageKey Endpoint) → (j ≡ k) ↔ (key_beq j k ≡ true)
  key_beq_iff j k = ground (arith, e.eq_iff j.peer k.peer)

  instance abbrev pub key_eq : PartialEq (MessageKey Endpoint)
  key_eq = record { eq = key_beq; eq_iff = key_beq_iff }

-- The texts of internal errors, by what they are formatted from.
pub data InternalErrorText (Endpoint : Type 0) : Type 0 where
  reused_message_key : MessageKey Endpoint → InternalErrorText Endpoint
  unexpected_type : MessageType → InternalErrorText Endpoint

pub data ReplyEvent (Endpoint : Type 0) : Type 0 where
  nothing : ReplyEvent Endpoint
  peer_response : MessageType → ReplyEvent Endpoint
  internal_error : InternalErrorText Endpoint → ReplyEvent Endpoint

pub data SendFailed (Endpoint : Type 0) : Type 0 where
  no_reply : ℕ → SendFailed Endpoint
  reset_received : SendFailed Endpoint
  transmission_error : SendFailed Endpoint
  send_internal_error : InternalErrorText Endpoint → SendFailed Endpoint
