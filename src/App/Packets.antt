-- ===== src/App/Packets.antt =====
-- `handle_packet` of app_handler.rs: what becomes of a packet, by its message class and type. The
-- outgoing channel is open while its receiver has not been dropped; a send on it is unwrapped.
use coap_server_rs.Base.{
  Bool, true, false, Option, none, some, List, [], ◌∷◌, Outcome, returned, panicked, PartialEq, ◌≡◌,
}
use coap_server_rs.Coap.{
  Coap, MessageClass, request, response, empty, reserved, MessageType, confirmable, non_confirmable,
  acknowledgement, reset,
}
use coap_server_rs.Query.{new_pong_message}
use coap_server_rs.Retransmission.{ReplyEvent}
use coap_server_rs.Retransmission.Manager.{RetransmissionManager, Handled, maybe_handle_reply}

-- The manager after the packet, what was told to the sends that wait, what was sent back, and the
-- packet if it went to the request handlers.
pub record Dispatched (Endpoint Tx F Packet : Type 0) : Type 0 where
  pub manager : RetransmissionManager Endpoint Tx F
  pub told : List (Tx × ReplyEvent Endpoint)
  pub outgoing : List Packet
  pub handled : Option Packet
  pub outcome : Outcome (Unit {0})

abbrev ended : {A : Type 0} → Outcome A → Outcome (Unit {0})
ended (returned _) = returned tt
ended panicked = panicked

module _ {Endpoint Tx F Packet : Type 0} where
  abbrev ignored : RetransmissionManager Endpoint Tx F → Dispatched Endpoint Tx F Packet
  ignored manager = record {
    manager = manager;
    told = [];
    outgoing = [];
    handled = none;
    outcome = returned tt;
  }

  abbrev replied : Handled Endpoint Tx F Packet → Dispatched Endpoint Tx F Packet
  replied h = record {
    manager = h.manager;
    told = h.sent;
    outgoing = [];
    handled = none;
    outcome = ended h.outcome;
  }

  abbrev ponged :
      Bool → RetransmissionManager Endpoint Tx F → Packet → Dispatched Endpoint Tx F Packet
  ponged true manager pong = record (ignored manager) { outgoing = pong ∷ [] }
  ponged false manager pong = record (ignored manager) { outcome = panicked }

module _ (c : Coap) {Endpoint Tx F : Type 0} ⦃e : PartialEq Endpoint⦄ where
  open c use {
    Packet, get_type, code, message_id, get_type-set_message_id, get_type-set_code,
    get_type-set_type, code-set_message_id, code-set_code, message_id-set_message_id,
  }

  abbrev dispatch_empty :
      (Tx → Bool)
      → Bool
      → RetransmissionManager Endpoint Tx F
      → Packet
      → Endpoint
      → MessageType
      → Dispatched Endpoint Tx F Packet
  dispatch_empty has_receiver tx_open manager packet peer acknowledgement =
      replied (maybe_handle_reply c has_receiver manager packet peer)
  dispatch_empty has_receiver tx_open manager packet peer reset =
      replied (maybe_handle_reply c has_receiver manager packet peer)
  dispatch_empty has_receiver tx_open manager packet peer confirmable =
      ponged tx_open manager (new_pong_message c packet)
  dispatch_empty has_receiver tx_open manager packet peer non_confirmable = ignored manager

  abbrev dispatch_class :
      (Tx → Bool)
      → Bool
      → RetransmissionManager Endpoint Tx F
      → Packet
      → Endpoint
      → MessageClass
      → Dispatched Endpoint Tx F Packet
  dispatch_class has_receiver tx_open manager packet peer (request _) = record (ignored manager) {
    handled = some packet;
  }
  dispatch_class has_receiver tx_open manager packet peer (response _) = ignored manager
  dispatch_class has_receiver tx_open manager packet peer empty =
      dispatch_empty has_receiver tx_open manager packet peer (get_type packet)
  dispatch_class has_receiver tx_open manager packet peer (reserved _) = ignored manager

  unfoldable pub handle_packet :
      (Tx → Bool)
      → Bool
      → RetransmissionManager Endpoint Tx F
      → Packet
      → Endpoint
      → Dispatched Endpoint Tx F Packet
  unfolding maybe_handle_reply new_pong_message
  handle_packet has_receiver tx_open manager packet peer =
      dispatch_class has_receiver tx_open manager packet peer (code packet)

  -- The packet went to the request handlers and nowhere else.
  abbrev pub IsHandled :
      RetransmissionManager Endpoint Tx F → Packet → Dispatched Endpoint Tx F Packet → Type 0
  IsHandled manager packet after =
      (after.handled ≡ some packet)
      × (after.outgoing ≡ [])
      × (after.manager ≡ manager)
      × (after.told ≡ [])

  -- The table of waiting sends did what `maybe_handle_reply` does, and nothing else happened.
  abbrev pub IsReply : Handled Endpoint Tx F Packet → Dispatched Endpoint Tx F Packet → Type 0
  IsReply h after =
      (after.manager ≡ h.manager)
      × (after.told ≡ h.sent)
      × (after.outgoing ≡ [])
      × (after.handled ≡ none)
      × (after.outcome ≡ ended h.outcome)

  -- One packet was sent back, a reset without a code under the message id of the packet.
  abbrev pub IsPong :
      RetransmissionManager Endpoint Tx F → Packet → Dispatched Endpoint Tx F Packet → Type 0
  IsPong manager packet after =
      ((pong : Packet) × (after.outgoing ≡ pong ∷ [])
        × (get_type pong ≡ reset)
        × (code pong ≡ empty)
        × (message_id pong ≡ message_id packet))
      × (after.manager ≡ manager)
      × (after.told ≡ [])
      × (after.handled ≡ none)

  abbrev pub IsIgnored :
      RetransmissionManager Endpoint Tx F → Dispatched Endpoint Tx F Packet → Type 0
  IsIgnored manager after = after ≡ ignored manager
