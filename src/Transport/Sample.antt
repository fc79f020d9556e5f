-- ===== src/Transport/Sample.antt =====
-- A packet is a byte above 9, one datagram long, which shows that the interface of the codec can be met.
use coap_server_rs.Base.{ℕ, [], ◌∷◌, Result, ok, err, Text, if◌then◌else◌, ltb}
use coap_server_rs.Transport.{PacketCodec}

abbrev pub byte_from : Text → Result ℕ Text
byte_from (b ∷ []) = ok b
byte_from _ = err []

abbrev pub byte_to : ℕ → Result Text Text
byte_to b = if ltb 9 b then ok (b ∷ []) else err (b ∷ [])

abbrev pub byte_codec : PacketCodec
byte_codec = record {
  Packet = ℕ;
  MessageError = Text;
  IoErr = ℕ;
  from_bytes = byte_from;
  to_bytes = byte_to;
}
