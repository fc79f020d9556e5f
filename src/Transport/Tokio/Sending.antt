-- ===== src/Transport/Tokio/Sending.antt =====
-- The sink of coap-server-tokio/src/transport/udp_framed_fork.rs, with the codec of udp.rs, as a
-- datagram sink.
use coap_server_rs.Base.{
  ℕ, Bool, true, false, Option, none, some, [], Result, ok, err, Text, length, take-length, ◌≡◌,
  refl, ◌⊎◌, inl, inr, Bool-cases,
}
use mathlib.Core.Path.{subst}
use coap_server_rs.Transport.{Poll, ready, pending, PacketCodec, ErrorOf}
use coap_server_rs.Transport.Sink.{DatagramSink, IsStep}
use coap_server_rs.Transport.Tokio.{codec, encode}
use coap_server_rs.Transport.Tokio.Framed.{
  UdpFramed, poll_flush, poll_ready, poll_close, start_send,
}

module _ {Endpoint : Type 0} where
  abbrev waiting_in : Bool → Text → Endpoint → Option (Text × Endpoint)
  waiting_in true wr out_addr = none
  waiting_in false wr out_addr = some (wr, out_addr)

  abbrev waiting : UdpFramed Endpoint → Option (Text × Endpoint)
  waiting self = waiting_in self.flushed self.wr self.out_addr

  -- Nothing is left in the buffer after a flush.
  abbrev IsClear : UdpFramed Endpoint → Type 0
  IsClear self = (self.flushed ≡ false) ⊎ ((self.flushed ≡ true) × (self.wr ≡ []))

abbrev pub SocketPoll : PacketCodec → Type 0
SocketPoll c = Poll (Result ℕ c.IoErr)

-- A socket that takes a datagram takes all of it.
abbrev pub IsWhole :
    (c : PacketCodec) {Endpoint : Type 0} → UdpFramed Endpoint → SocketPoll c → Type 0
IsWhole c self (ready (ok n)) = n ≡ length self.wr
IsWhole c self _ = Unit {0}

module _ (c : PacketCodec) {Endpoint : Type 0}
    (decode_eof : Text → Text × Result (Option c.Packet) (ErrorOf c))
    (other_error : Text → c.IoErr) where
  unflushed-IsStep :
      (self : UdpFramed Endpoint) (socket : SocketPoll c)
      → self.flushed ≡ false
      → IsWhole c self socket
      → IsStep c waiting IsClear self (poll_flush (codec c decode_eof) other_error self socket)
  unfolding poll_flush
  unflushed-IsStep self pending f w =
      rw (poll_flush, f)
        (record {
          sound = inl refl;
          kept_or_sent = inl (refl, refl);
          calm = λ e. cc;
          drained = λ e. absurd cc;
        })
  unflushed-IsStep self (ready (err e)) f w =
      rw (poll_flush, f)
        (record {
          sound = inl refl;
          kept_or_sent = inl (refl, refl);
          calm = λ e. cc;
          drained = λ e. absurd cc;
        })
  unflushed-IsStep self (ready (ok n)) f w =
      rw (poll_flush, f)
        (record {
          sound = inr (refl, refl);
          kept_or_sent =
              inr ((self.wr, self.out_addr), refl, rw (w, take-length self.wr) refl, refl);
          calm = λ e. cc;
          drained = λ e. refl;
        })

  pub poll_flush-IsStep :
      (self : UdpFramed Endpoint) (socket : SocketPoll c)
      → IsClear self
      → IsWhole c self socket
      → IsStep c waiting IsClear self (poll_flush (codec c decode_eof) other_error self socket)
  unfolding poll_flush
  poll_flush-IsStep self socket h w = elim (Bool-cases self.flushed) [
    | inr f ↦ unflushed-IsStep self socket f w
    | inl f ↦ elim h [
      | inl n ↦ absurd cc
      | inr (t, b) ↦
          rw (poll_flush, f)
            (record {
              sound = inr (refl, b);
              kept_or_sent = inl (refl, refl);
              calm = λ e. cc;
              drained = λ e. refl;
            })
    ]
  ]

  poll_ready-poll_flush :
      (self : UdpFramed Endpoint) (socket : SocketPoll c)
      → poll_flush (codec c decode_eof) other_error self socket
        ≡ poll_ready (codec c decode_eof) other_error self socket
  unfolding poll_ready poll_flush
  poll_ready-poll_flush self socket = elim (Bool-cases self.flushed) [
    | inl f ↦ rw (poll_ready, poll_flush, f) refl
    | inr f ↦ rw (poll_ready, poll_flush, f) refl
  ]

  pub poll_ready-IsStep :
      (self : UdpFramed Endpoint) (socket : SocketPoll c)
      → IsClear self
      → IsWhole c self socket
      → IsStep c waiting IsClear self (poll_ready (codec c decode_eof) other_error self socket)
  poll_ready-IsStep self socket h w =
      subst (λ r. IsStep c waiting IsClear self r) (poll_ready-poll_flush self socket)
        (poll_flush-IsStep self socket h w)

  pub start_send-waiting :
      (self : UdpFramed Endpoint) (packet : c.Packet) (bytes : Text) (peer : Endpoint)
      → IsClear self
      → waiting self ≡ none
      → c.to_bytes packet ≡ ok bytes
      → IsClear (start_send (codec c decode_eof) self (packet, peer)).0
        × (waiting (start_send (codec c decode_eof) self (packet, peer)).0 ≡ some (bytes, peer))
  unfolding start_send codec encode
  start_send-waiting self packet bytes peer (inl f) w e =
      absurd (let full : some (self.wr, self.out_addr) ≡ none = rw f at w in cc)
  start_send-waiting self packet bytes peer (inr (f, b)) w e = rw (e, b) (inl refl, refl)

  pub poll_close-IsStep :
      (self : UdpFramed Endpoint) (socket : SocketPoll c)
      → IsClear self
      → IsWhole c self socket
      → IsStep c waiting IsClear self (poll_close (codec c decode_eof) other_error self socket)
  unfolding poll_close
  poll_close-IsStep self socket h w = poll_flush-IsStep self socket h w

  abbrev pub tokio_sink : DatagramSink c Endpoint
  tokio_sink = record {
    State = UdpFramed Endpoint;
    Socket = SocketPoll c;
    poll_ready = poll_ready (codec c decode_eof) other_error;
    poll_flush = poll_flush (codec c decode_eof) other_error;
    poll_close = poll_close (codec c decode_eof) other_error;
    start_send = start_send (codec c decode_eof);
    waiting = waiting;
    is_sound = IsClear;
    is_whole = IsWhole c;
    poll_ready-IsStep = poll_ready-IsStep;
    poll_flush-IsStep = poll_flush-IsStep;
    poll_close-IsStep = poll_close-IsStep;
    start_send-waiting = start_send-waiting;
  }
