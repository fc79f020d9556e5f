-- ===== src/Transport/Tokio/Tests.antt =====
-- The transport of tokio at concrete datagrams and groups, and the theorems applied there.
use coap_server_rs.Base.{
  ℕ, Option, none, some, List, [], ◌∷◌, Result, ok, err, returned, panicked, Text, length, ap, ◌≡◌,
  refl,
}
use coap_server_rs.Transport.{ready, ErrorOf, malformed_packet, io_error}
use coap_server_rs.Transport.Sample.{byte_codec}
use coap_server_rs.Transport.Tokio.{decode, codec}
use coap_server_rs.Transport.Tokio.Receiving.{
  IsDecodeEof, Received, poll_times, poll_times-new_framed,
}
use coap_server_rs.Transport.Tokio.Framed.{new_framed, poll_flush, start_send}
use coap_server_rs.Transport.Tokio.Udp.{
  IpAddr, SocketAddr, v6, MulticastGroupJoin, ipv4, ipv6, MulticastJoiner, join_multicast_v6,
  UdpSocket, join, UdpTransport, new_transport, add_multicast_join, enable_multicast, set_mtu, bind,
}

abbrev DecodeResult : Type 0
DecodeResult = Text × Result (Option ℕ) (ErrorOf byte_codec)

-- The library's `decode_eof`, by the rest and the result of `decode`.
abbrev eof_of : DecodeResult → DecodeResult
eof_of (rest, err e) = (rest, err e)
eof_of (rest, ok (some packet)) = (rest, ok (some packet))
eof_of ([], ok none) = ([], ok none)
eof_of (b ∷ rest, ok none) = (b ∷ rest, err (io_error (some 99)))

abbrev eof : Text → DecodeResult
unfolding decode
eof buf = eof_of (decode byte_codec buf)

eof-IsDecodeEof : IsDecodeEof byte_codec eof
unfolding decode
eof-IsDecodeEof = record {
  frame = λ buf rest packet h. ap eof_of h;
  error = λ buf rest e h. ap eof_of h;
  nothing_left = λ buf h. ap eof_of h;
}

-- A packet, an empty datagram, one that cannot be decoded, and an error of the socket.
abbrev arrivals : List (Received byte_codec ℕ)
arrivals = ok (40 ∷ [], 7) ∷ ok ([], 8) ∷ ok (1 ∷ 2 ∷ [], 8) ∷ err 5 ∷ ok (41 ∷ [], 7) ∷ []

poll_times-new_framed_example :
    poll_times byte_codec eof 3 (new_framed 0) arrivals
    ≡ ok (40, 7) ∷ err (malformed_packet [], some 8) ∷ err (io_error (some 5), none) ∷ []
poll_times-new_framed_example = poll_times-new_framed byte_codec eof eof-IsDecodeEof 3 0 arrivals

-- A datagram that was sent in part is an error, and is not sent again.
test_partial :
    let started = start_send {Endpoint = ℕ} (codec byte_codec eof) (new_framed 0) (40, 7) in
    let flushed = poll_flush (codec byte_codec eof) length started.0 (ready (ok 0)) in
    (flushed.answer ≡ returned (ready (err (io_error (some 41))))) × (flushed.state.wr ≡ [])
unfolding start_send poll_flush codec new_framed
test_partial = (refl, refl)

abbrev joiner : List MulticastGroupJoin → MulticastJoiner
joiner joins = record {
  custom_group_joins = joins;
  default_ipv4_interface = none;
  default_ipv6_interface = some 2;
}

abbrev on_v6 : SocketAddr
on_v6 = v6 (0 ∷ 0 ∷ 0 ∷ 0 ∷ 0 ∷ 0 ∷ 0 ∷ 1 ∷ []) 5683

abbrev socket : UdpSocket ℕ
socket = record { local_addr = ok on_v6; join_multicast = λ call. ok tt }

abbrev group6 : IpAddr
group6 = 0xff02 ∷ 1 ∷ []

abbrev group4 : IpAddr
group4 = 224 ∷ 0 ∷ 1 ∷ 187 ∷ []

abbrev both : List MulticastGroupJoin
both = ipv6 group6 none ∷ ipv4 group4 none ∷ []

test_join_panics : (join (joiner both) socket).outcome ≡ panicked
unfolding join
test_join_panics = refl

abbrev transport : UdpTransport ℕ
transport =
    set_mtu 1280 (add_multicast_join (ipv6 group6 none) (enable_multicast (new_transport 1)))

test_bind : (bind byte_codec (λ a. ok socket) transport).0 ≡ join_multicast_v6 group6 0 ∷ []
unfolding bind new_transport
test_bind = refl
