-- ===== src/Transport/Order.antt =====
-- The order of the datagrams that the two UDP transports send.
use coap_server_rs.Base.{ℕ, Option, List, ◌++◌, Result, Text, ◌≡◌, refl, inl, inr}
use coap_server_rs.ObserveHandler.{to_list}
use coap_server_rs.Transport.{Poll, PacketCodec, ErrorOf}
use coap_server_rs.Transport.Embassy.{SocketError}
use coap_server_rs.Transport.Sink.{DatagramSink}
use coap_server_rs.Transport.Sink.Run.{SinkCall, run, IsProtocol, given, Follows, run_order}
use coap_server_rs.Transport.Embassy as Embassy
use coap_server_rs.Transport.Embassy.Refined.{embassy_sink}
use coap_server_rs.Transport.Tokio.Framed as Framed
use coap_server_rs.Transport.Tokio.Sending.{tokio_sink}

module _ (c : PacketCodec) {Endpoint : Type 0} where
  -- The calls follow the abstract sink, and what is sent and what then waits are what is given.
  abbrev pub IsInOrder :
      (k : DatagramSink c Endpoint) → k.State → List (SinkCall c.Packet Endpoint k.Socket) → Type 0
  IsInOrder k s calls =
      let after = run c k s calls in
      Follows c k s (given c k calls) after
      × (after.sent ++ to_list (k.waiting after.state) ≡ given c k calls)

  -- A new sink of either transport implements a sink that holds one datagram at most: for calls that
  -- give a packet only when none waits, and packets that can be encoded, each packet's bytes go to
  -- its peer once and in the order of the packets, but for the last, which may still wait, and no
  -- call panics; whatever the socket answers, as long as it takes whole datagrams.
  pub new_framed-IsInOrder :
      (decode_eof : Text → Text × Result (Option c.Packet) (ErrorOf c))
      (other_error : Text → c.IoErr) (mtu : ℕ) (unspecified : Endpoint)
      (embassy_calls : List (SinkCall c.Packet Endpoint (Poll (Result (Unit {0}) SocketError))))
      (tokio_calls : List (SinkCall c.Packet Endpoint (Poll (Result ℕ c.IoErr))))
      → IsProtocol c (embassy_sink c) (Embassy.new_framed mtu) embassy_calls
      → IsProtocol c
          (tokio_sink c decode_eof other_error)
          (Framed.new_framed unspecified)
          tokio_calls
      → IsInOrder (embassy_sink c) (Embassy.new_framed mtu) embassy_calls
        × IsInOrder
            (tokio_sink c decode_eof other_error)
            (Framed.new_framed unspecified)
            tokio_calls
  unfolding Embassy.new_framed Framed.new_framed
  new_framed-IsInOrder decode_eof other_error mtu unspecified embassy_calls tokio_calls p q = (
    run_order c (embassy_sink c) embassy_calls (Embassy.new_framed mtu) (inl refl) refl p,
    run_order c (tokio_sink c decode_eof other_error) tokio_calls (Framed.new_framed unspecified)
        (inr (refl, refl)) refl q,
  )
