-- ===== src/Retransmission/Manager.antt =====
-- `RetransmissionManager` of retransmission_manager.rs: message ids and the table of sends that
-- wait for a reply. `watch::Sender::send` fails when no receiver is left: `has_receiver` says for
-- which channels one is.
pub mod Replies
pub mod Ids
use coap_server_rs.Base.{
  ℕ, ◌+◌, ◌%◌, ◌^◌, Bool, true, false, Option, none, some, List, [], ◌∷◌, Result, ok, err, Outcome,
  returned, panicked, PartialEq, Dict, get, insert, remove, if◌then◌else◌,
}
use coap_server_rs.Coap.{Coap, MessageType, confirmable, non_confirmable, acknowledgement, reset}
use coap_server_rs.Retransmission.{
  MessageKey, key_eq, ReplyEvent, nothing, peer_response, internal_error, reused_message_key,
}
use coap_server_rs.Retransmission.Params.{TransmissionParameters}

-- `u16::wrapping_add`
abbrev pub wrapping_add_u16 : ℕ → ℕ → ℕ
wrapping_add_u16 a b = (a + b) % 2 ^ 16

abbrev pub is_reply : MessageType → Bool
is_reply acknowledgement = true
is_reply reset = true
is_reply _ = false

-- The table holds the sender of each `ReplyHandle`.
pub record RetransmissionManager (Endpoint Tx F : Type 0) : Type 0 where
  pub next_message_id : ℕ
  pub unacknowledged_messages : Dict (MessageKey Endpoint) Tx
  pub parameters : TransmissionParameters F

-- A call's effects: the new state, what was sent on which channel, and how the call ended.
pub record Handled (Endpoint Tx F Packet : Type 0) : Type 0 where
  pub manager : RetransmissionManager Endpoint Tx F
  pub sent : List (Tx × ReplyEvent Endpoint)
  pub outcome : Outcome (Result (Unit {0}) Packet)

-- `reply_rx` is the receiver of the channel whose sender is `reply_tx`.
pub record SendReliably (Endpoint Tx F Packet : Type 0) : Type 0 where
  pub packet : Packet
  pub peer : Endpoint
  pub parameters : TransmissionParameters F
  pub reply_rx : Tx

pub record Started (Endpoint Tx F Packet : Type 0) : Type 0 where
  pub manager : RetransmissionManager Endpoint Tx F
  pub sent : List (Tx × ReplyEvent Endpoint)
  pub send : SendReliably Endpoint Tx F Packet

module _ {Endpoint Tx F : Type 0} where
  -- The first message id is a random number.
  unfoldable pub new_manager : ℕ → TransmissionParameters F → RetransmissionManager Endpoint Tx F
  new_manager random parameters = record {
    next_message_id = random;
    unacknowledged_messages = [];
    parameters = parameters;
  }

module _ (c : Coap) {Endpoint : Type 0} where
  open c use {Packet, message_id}

  -- `MessageKey::new`
  abbrev pub key_of : Packet → Endpoint → MessageKey Endpoint
  key_of packet peer = record { message_id = message_id packet; peer = peer }

module _ {Endpoint Tx : Type 0} where
  -- The send that had the key is told; a failure of that is ignored.
  abbrev displaced : (Tx → Bool) → MessageKey Endpoint → Option Tx → List (Tx × ReplyEvent Endpoint)
  displaced has_receiver key none = []
  displaced has_receiver key (some existing) =
      if has_receiver existing then (existing, internal_error (reused_message_key key)) ∷ [] else []

module _ (c : Coap) {Endpoint Tx F : Type 0} ⦃e : PartialEq Endpoint⦄ where
  open c use {Packet, get_type, set_message_id, set_type}

  -- A reply for a key of the table: the entry goes, and the channel gets the reply's type.
  abbrev deliver :
      (Tx → Bool)
      → RetransmissionManager Endpoint Tx F
      → Packet
      → Endpoint
      → Option Tx
      → Handled Endpoint Tx F Packet
  deliver has_receiver self packet peer none = record {
    manager = self;
    sent = [];
    outcome = returned (err packet);
  }
  deliver has_receiver self packet peer (some reply_tx) = record {
    manager = record self {
      unacknowledged_messages = remove (key_of c packet peer) self.unacknowledged_messages;
    };
    sent = if has_receiver reply_tx then (reply_tx, peer_response (get_type packet)) ∷ [] else [];
    outcome = if has_receiver reply_tx then returned (ok tt) else panicked;
  }

  unfoldable pub maybe_handle_reply :
      (Tx → Bool)
      → RetransmissionManager Endpoint Tx F
      → Packet
      → Endpoint
      → Handled Endpoint Tx F Packet
  unfolding get remove
  maybe_handle_reply has_receiver self packet peer =
      if is_reply (get_type packet)
      then deliver has_receiver self packet peer
          (get (key_of c packet peer) self.unacknowledged_messages)
      else record { manager = self; sent = []; outcome = returned (err packet) }

  -- The packet as it is sent: confirmable, under the next message id.
  abbrev pub prepared : RetransmissionManager Endpoint Tx F → Packet → Packet
  prepared self packet = set_type confirmable (set_message_id self.next_message_id packet)

  -- `reply_tx` is the channel that the call makes.
  unfoldable pub send_reliably :
      (Tx → Bool)
      → RetransmissionManager Endpoint Tx F
      → Packet
      → Endpoint
      → Tx
      → Started Endpoint Tx F Packet
  unfolding get insert
  send_reliably has_receiver self packet peer reply_tx =
      let p = prepared self packet in
      let key = key_of c p peer in
      record {
        manager = record self {
          next_message_id = wrapping_add_u16 self.next_message_id 1;
          unacknowledged_messages = insert key reply_tx self.unacknowledged_messages;
        };
        sent = displaced has_receiver key (get key self.unacknowledged_messages);
        send = record {
          packet = p;
          peer = peer;
          parameters = self.parameters;
          reply_rx = reply_tx;
        };
      }
