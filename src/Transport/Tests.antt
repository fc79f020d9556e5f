-- ===== src/Transport/Tests.antt =====
-- Two packets through the sinks of both transports, with sockets that are not ready at once.
use coap_server_rs.Base.{ℕ, Option, none, List, [], ◌∷◌, Result, ok, err, Text, length, ◌≡◌, refl}
use coap_server_rs.Transport.{Poll, ready, pending, ErrorOf}
use coap_server_rs.Transport.Embassy.{SocketError, no_route}
use coap_server_rs.Transport.Sample.{byte_codec}
use coap_server_rs.Transport.Sink.Run.{
  SinkCall, calls_ready, calls_flush, calls_close, calls_start_send, run, IsProtocol,
}
use coap_server_rs.Transport.Embassy as Embassy
use coap_server_rs.Transport.Embassy.Refined.{embassy_sink}
use coap_server_rs.Transport.Tokio.{encode, codec}
use coap_server_rs.Transport.Tokio.Framed as Framed
use coap_server_rs.Transport.Tokio.Sending.{tokio_sink}
use coap_server_rs.Transport.Order.{IsInOrder, new_framed-IsInOrder}

abbrev no_frame : Text → Text × Result (Option ℕ) (ErrorOf byte_codec)
no_frame buf = (buf, ok none)

abbrev embassy_calls : List (SinkCall ℕ ℕ (Poll (Result (Unit {0}) SocketError)))
embassy_calls =
    calls_start_send (40, 7)
    ∷ calls_ready pending
    ∷ calls_flush (ready (err no_route))
    ∷ calls_ready (ready (ok tt))
    ∷ calls_start_send (41, 8)
    ∷ []

abbrev tokio_calls : List (SinkCall ℕ ℕ (Poll (Result ℕ ℕ)))
tokio_calls =
    calls_start_send (40, 7)
    ∷ calls_ready pending
    ∷ calls_flush (ready (err 5))
    ∷ calls_ready (ready (ok 1))
    ∷ calls_start_send (41, 8)
    ∷ calls_close (ready (ok 1))
    ∷ []

embassy_calls-IsProtocol :
    IsProtocol byte_codec
      (embassy_sink byte_codec)
      (Embassy.new_framed {Endpoint = ℕ} 1152)
      embassy_calls
unfolding Embassy.new_framed Embassy.start_send Embassy.poll_ready Embassy.poll_flush
embassy_calls-IsProtocol = (refl, (40 ∷ [], refl), (tt, (tt, (tt, (refl, (41 ∷ [], refl), tt)))))

tokio_calls-IsProtocol :
    IsProtocol byte_codec (tokio_sink byte_codec no_frame length) (Framed.new_framed 0) tokio_calls
unfolding Framed.new_framed Framed.start_send Framed.poll_ready Framed.poll_flush Framed.poll_close
    codec encode
tokio_calls-IsProtocol =
    (refl, (40 ∷ [], refl), (tt, (tt, (refl, (refl, (41 ∷ [], refl), (refl, tt))))))

new_framed-IsInOrder_example :
    IsInOrder byte_codec
      (embassy_sink byte_codec)
      (Embassy.new_framed {Endpoint = ℕ} 1152)
      embassy_calls
    × IsInOrder byte_codec (tokio_sink byte_codec no_frame length) (Framed.new_framed 0) tokio_calls
new_framed-IsInOrder_example =
    new_framed-IsInOrder byte_codec no_frame length 1152 0 embassy_calls tokio_calls
      embassy_calls-IsProtocol tokio_calls-IsProtocol

test_sent :
    (run byte_codec (tokio_sink byte_codec no_frame length) (Framed.new_framed 0) tokio_calls).sent
    ≡ (40 ∷ [], 7) ∷ (41 ∷ [], 8) ∷ []
unfolding Framed.new_framed Framed.start_send Framed.poll_ready Framed.poll_flush Framed.poll_close
    codec encode
test_sent = refl
