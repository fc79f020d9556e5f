-- ===== src/Transport/Tokio.antt =====
-- coap-server-tokio/src/transport: the codec of udp.rs, and the framed socket of udp_framed_fork.rs.
pub mod Framed
pub mod Receiving
pub mod Sending
pub mod Udp
pub mod Multicast
mod Tests
use coap_server_rs.Base.{Option, none, some, List, [], ◌∷◌, ◌++◌, Result, ok, err, Text}
use coap_server_rs.Transport.{PacketCodec, ErrorOf, malformed_packet, io_error}
use coap_server_rs.Transport.Tokio.Framed.{FramedCodec}

module _ (c : PacketCodec) where
  open c use {Packet, MessageError, IoErr, from_bytes, to_bytes}

  abbrev packet_or_error : Result Packet MessageError → Result (Option Packet) (ErrorOf c)
  packet_or_error (ok packet) = ok (some packet)
  packet_or_error (err e) = err (malformed_packet e)

  -- The buffer that is left, and the result.
  unfoldable pub decode : Text → Text × Result (Option Packet) (ErrorOf c)
  decode [] = ([], ok none)
  decode (b ∷ buf) = ([], packet_or_error (from_bytes (b ∷ buf)))

  abbrev extended : Text → Result Text MessageError → Text × Result (Unit {0}) (ErrorOf c)
  extended buf (ok bytes) = (buf ++ bytes, ok tt)
  extended buf (err e) = (buf, err (malformed_packet e))

  unfoldable pub encode : Packet → Text → Text × Result (Unit {0}) (ErrorOf c)
  encode my_packet buf = extended buf (to_bytes my_packet)

  -- The codec as the framed socket takes it. `decode_eof` is the library's, made of `decode`.
  unfoldable pub codec :
      (Text → Text × Result (Option Packet) (ErrorOf c)) → FramedCodec Packet IoErr (ErrorOf c)
  unfolding encode
  codec decode_eof = record {
    decode_eof = decode_eof;
    encode = encode;
    from_io = λ e. io_error (some e);
  }
