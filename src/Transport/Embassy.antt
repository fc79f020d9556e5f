-- ===== src/Transport/Embassy.antt =====
-- coap-server-embassy/src/transport/udp.rs: the framed UDP socket. What the socket answers to a poll
-- is an argument of the operation that polls it; a datagram has at most the buffer's capacity.
pub mod Receiving
pub mod Sending
pub mod Refined
pub mod Bind
mod Tests
use coap_server_rs.Base.{
  ℕ, Bool, true, false, Option, none, some, List, [], ◌∷◌, ◌++◌, Result, ok, err, Outcome, returned,
  panicked, Text, codes, length, take, drop, replicate, if◌then◌else◌, not,
}
use coap_server_rs.Transport.{
  Poll, ready, pending, PacketCodec, TransportError, malformed_packet, unspecified, FramedItem,
  FramedReadError, Polled, ErrorOf,
}

pub data SocketError : Type 0 where
  no_route : SocketError

pub data BindError : Type 0 where
  invalid_state bind_no_route : BindError

pub record UdpFramed (Endpoint : Type 0) : Type 0 where
  pub recv_buffer : Text
  pub capacity : ℕ
  pub send_buffer : Text
  pub destination : Option Endpoint
  pub flushed : Bool

abbrev pub default_mtu_size : ℕ
default_mtu_size = 1152

-- The MTU that `bind` resolves and both buffers get; it fits a `usize` of 32 bits or more.
unfoldable pub resolved_mtu : Option ℕ → ℕ
resolved_mtu none = default_mtu_size
resolved_mtu (some mtu) = mtu

module _ {Endpoint : Type 0} where
  unfoldable pub new_framed : ℕ → UdpFramed Endpoint
  new_framed mtu = record {
    recv_buffer = [];
    capacity = mtu;
    send_buffer = [];
    destination = none;
    flushed = true;
  }

module _ {IoErr MessageError : Type 0} where
  unfoldable pub map_bind_err : BindError → TransportError IoErr MessageError
  map_bind_err invalid_state = unspecified (codes "invalid state")
  map_bind_err bind_no_route = unspecified (codes "no route")

  unfoldable pub map_sendrecv_err : SocketError → TransportError IoErr MessageError
  map_sendrecv_err no_route = unspecified (codes "no route")

-- The start of the buffer is overwritten by the datagram.
abbrev overwrite : Text → Text → Text
overwrite datagram buffer = datagram ++ drop (length datagram) buffer

module _ {Endpoint : Type 0} where
  abbrev pub resized : UdpFramed Endpoint → Text
  resized self = take self.capacity (self.recv_buffer ++ replicate self.capacity 0)

abbrev pub SendPoll : PacketCodec → Type 0 → Type 0
SendPoll c Endpoint =
    Polled (UdpFramed Endpoint) Endpoint (Outcome (Poll (Result (Unit {0}) (ErrorOf c))))

module _ (c : PacketCodec) {Endpoint : Type 0} where
  open c use {Packet, MessageError, from_bytes, to_bytes}

  unfoldable pub poll_fill_recv_buffer :
      UdpFramed Endpoint
      → Poll (Result (Text × Endpoint) SocketError)
      → UdpFramed Endpoint × Poll (Result Endpoint (ErrorOf c))
  unfolding map_sendrecv_err
  poll_fill_recv_buffer self pending = (record self { recv_buffer = resized self }, pending)
  poll_fill_recv_buffer self (ready (ok (datagram, peer))) = (
    record self { recv_buffer = take (length datagram) (overwrite datagram (resized self)) },
    ready (ok peer),
  )
  poll_fill_recv_buffer self (ready (err e)) =
      (record self { recv_buffer = resized self }, ready (err (map_sendrecv_err e)))

  abbrev framed_result :
      Result Packet MessageError
      → Endpoint
      → Result (FramedItem Packet Endpoint) (FramedReadError (ErrorOf c) Endpoint)
  framed_result (ok p) peer = ok (p, peer)
  framed_result (err e) peer = err (malformed_packet e, some peer)

  abbrev decode_filled :
      UdpFramed Endpoint × Poll (Result Endpoint (ErrorOf c))
      → UdpFramed Endpoint
        × Poll (Result (FramedItem Packet Endpoint) (FramedReadError (ErrorOf c) Endpoint))
  decode_filled (self, pending) = (self, pending)
  decode_filled (self, ready (ok peer)) =
      (record self { recv_buffer = [] }, ready (framed_result (from_bytes self.recv_buffer) peer))
  decode_filled (self, ready (err e)) = (self, ready (err (e, none)))

  -- The stream never ends, so the `Some` round each item is left out.
  unfoldable pub poll_next :
      UdpFramed Endpoint
      → Poll (Result (Text × Endpoint) SocketError)
      → UdpFramed Endpoint
        × Poll (Result (FramedItem Packet Endpoint) (FramedReadError (ErrorOf c) Endpoint))
  unfolding poll_fill_recv_buffer
  poll_next self received = decode_filled (poll_fill_recv_buffer self received)

  abbrev answered :
      UdpFramed Endpoint → Outcome (Poll (Result (Unit {0}) (ErrorOf c))) → SendPoll c Endpoint
  answered self a = record { state = self; sent = []; answer = a }

  -- `poll_send_to`: the socket takes the whole buffer when it is ready; without a destination the
  -- `unwrap` panics before the socket is asked.
  abbrev send_to :
      UdpFramed Endpoint
      → Option Endpoint
      → Poll (Result (Unit {0}) SocketError)
      → SendPoll c Endpoint
  send_to self none socket = answered self panicked
  send_to self (some peer) pending = answered self (returned pending)
  send_to self (some peer) (ready (err e)) =
      answered self (returned (ready (err (map_sendrecv_err e))))
  send_to self (some peer) (ready (ok _)) = record {
    state = record self { send_buffer = []; flushed = true };
    sent = (self.send_buffer, peer) ∷ [];
    answer = returned (ready (ok tt));
  }

  unfoldable pub poll_flush :
      UdpFramed Endpoint → Poll (Result (Unit {0}) SocketError) → SendPoll c Endpoint
  unfolding map_sendrecv_err
  poll_flush self socket =
      if self.flushed
      then answered self (returned (ready (ok tt)))
      else send_to self self.destination socket

  unfoldable pub poll_ready :
      UdpFramed Endpoint → Poll (Result (Unit {0}) SocketError) → SendPoll c Endpoint
  unfolding poll_flush
  poll_ready self socket =
      if not self.flushed then poll_flush self socket else answered self (returned (ready (ok tt)))

  unfoldable pub poll_close :
      UdpFramed Endpoint → Poll (Result (Unit {0}) SocketError) → SendPoll c Endpoint
  unfolding poll_flush
  poll_close self socket = poll_flush self socket

  abbrev encoded :
      UdpFramed Endpoint
      → Endpoint
      → Result Text MessageError
      → UdpFramed Endpoint × Result (Unit {0}) (ErrorOf c)
  encoded self destination (ok bytes) =
      (record self { send_buffer = bytes; destination = some destination; flushed = false }, ok tt)
  encoded self destination (err e) = (
    record self { send_buffer = []; destination = none; flushed = false },
    err (malformed_packet e),
  )

  unfoldable pub start_send :
      UdpFramed Endpoint
      → FramedItem Packet Endpoint
      → UdpFramed Endpoint × Result (Unit {0}) (ErrorOf c)
  start_send self (packet, destination) = encoded self destination (to_bytes packet)
