-- ===== src/Transport/Embassy/Receiving.antt =====
-- The receiving side of the embassy transport.
use coap_server_rs.Base.{◌≡◌, refl, none, some, ok, err, Text, length, drop, take-length_append}
use coap_server_rs.Transport.{ready, pending, PacketCodec, malformed_packet}
use coap_server_rs.Transport.Embassy.{
  SocketError, UdpFramed, poll_fill_recv_buffer, poll_next, map_sendrecv_err, resized,
}

module _ (c : PacketCodec) {Endpoint : Type 0} where
  open c use {Packet, MessageError, from_bytes, to_bytes}

  -- One poll of the stream: the item is the decoding of exactly the datagram that the socket gives,
  -- with nothing of an earlier one, tagged with its sender, also when it cannot be decoded; an error
  -- of the socket has no sender; while the socket is pending so is the stream.
  pub poll_next_lem :
      (self : UdpFramed Endpoint) (peer : Endpoint) (datagram : Text) (e : SocketError)
      → ((poll_next c self pending).1 ≡ pending)
        × ((poll_next c self (ready (err e))).1 ≡ ready (err (map_sendrecv_err e, none)))
        × ((packet : Packet)
            → from_bytes datagram ≡ ok packet
            → (poll_next c self (ready (ok (datagram, peer)))).1 ≡ ready (ok (packet, peer)))
        × ((e : MessageError)
            → from_bytes datagram ≡ err e
            → (poll_next c self (ready (ok (datagram, peer)))).1
              ≡ ready (err (malformed_packet e, some peer)))
  unfolding poll_next poll_fill_recv_buffer
  poll_next_lem self peer datagram e = (
    refl,
    refl,
    λ packet h. rw (take-length_append datagram (drop (length datagram) (resized self)), h) refl,
    λ e h. rw (take-length_append datagram (drop (length datagram) (resized self)), h) refl,
  )
