-- ===== src/Transport.antt =====
-- coap-server/src/transport.rs: the errors of a transport, with what the UDP transport uses of it.
-- A poll of a socket or of the codec of the message library is an argument or an interface.
pub mod Sample
pub mod Sink
pub mod Embassy
pub mod Tokio
pub mod Order
mod Tests
use coap_server_rs.Base.{ℕ, Option, Result, Text, List}

pub data Poll (A : Type 0) : Type 0 where
  ready : A → Poll A
  pending : Poll A

-- `IoErr` is the type of input and output errors.
pub data TransportError (IoErr MessageError : Type 0) : Type 0 where
  io_error : Option IoErr → TransportError IoErr MessageError
  malformed_packet : MessageError → TransportError IoErr MessageError
  unspecified : Text → TransportError IoErr MessageError

-- `Packet::from_bytes` and `Packet::to_bytes`, with the error types.
pub record PacketCodec : Type 1 where
  pub Packet : Type 0
  pub MessageError : Type 0
  pub IoErr : Type 0
  pub from_bytes : Text → Result Packet MessageError
  pub to_bytes : Packet → Result Text MessageError

abbrev pub ErrorOf : PacketCodec → Type 0
ErrorOf c = TransportError c.IoErr c.MessageError

-- A framed item, and a read error with the peer, if it concerns one.
abbrev pub FramedItem : Type 0 → Type 0 → Type 0
FramedItem Packet Endpoint = Packet × Endpoint

abbrev pub FramedReadError : Type 0 → Type 0 → Type 0
FramedReadError Error Endpoint = Error × Option Endpoint

-- What a poll of the sending side leaves: the state, the datagrams given to the network, and the
-- answer, or a panic.
pub record Polled (State Endpoint Answer : Type 0) : Type 0 where
  pub state : State
  pub sent : List (Text × Endpoint)
  pub answer : Answer
