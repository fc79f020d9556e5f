-- ===== src/Transport/Embassy/Tests.antt =====
-- The framed socket of embassy on concrete packets: a packet is a byte above 9, one datagram long.
use coap_server_rs.Base.{ℕ, ◌≡◌, refl, [], ◌∷◌, ok, err, panicked}
use coap_server_rs.Transport.{ready, malformed_packet}
use coap_server_rs.Transport.Sample.{byte_codec}
use coap_server_rs.Transport.Embassy.{
  UdpFramed, start_send, poll_ready, poll_flush, poll_close, new_framed,
}
use coap_server_rs.Transport.Embassy.Bind.{Outside, UdpBinding, new_transport, set_mtu, bind}
use coap_server_rs.Transport.Embassy.Sending.{start_send-panics}

abbrev fresh : UdpFramed ℕ
fresh = new_framed 1152

start_send-panics_example :
    let started = start_send byte_codec fresh (3, 7) in
    (started.1 ≡ err (malformed_packet (3 ∷ [])))
    × ((poll_ready byte_codec started.0 (ready (ok tt))).answer ≡ panicked)
    × ((poll_flush byte_codec started.0 (ready (ok tt))).answer ≡ panicked)
    × ((poll_close byte_codec started.0 (ready (ok tt))).answer ≡ panicked)
start_send-panics_example = start_send-panics byte_codec fresh 3 7 (3 ∷ []) (ready (ok tt)) refl

abbrev outside : Outside ℕ ℕ
outside = record { usize_bits = 32; to_text = λ n. n ∷ []; bind_socket = λ a. ok a }

abbrev made : UdpBinding ℕ ℕ
made = record { framed_socket = new_framed 1280; local_addr = 5683; mtu = 1280 }

made_by : bind byte_codec outside (set_mtu 1280 (new_transport 5683)) ≡ ok made
unfolding bind new_transport
made_by = refl
