-- ===== src/Transport/Embassy/Refined.antt =====
-- The sink of coap-server-embassy/src/transport/udp.rs as a datagram sink.
use coap_server_rs.Base.{
  Bool, false, Option, none, some, ok, err, Text, ◌≡◌, refl, sym, inl, inr, Bool-cases,
}
use mathlib.Core.Path.{subst}
use coap_server_rs.Transport.{ready, pending, PacketCodec}
use coap_server_rs.Transport.Sink.{DatagramSink, IsStep}
use coap_server_rs.Transport.Embassy.{UdpFramed, poll_flush, poll_ready, poll_close, start_send}
use coap_server_rs.Transport.Embassy.Sending.{
  SocketPoll, CanFlush, poll_ready-poll_flush, start_send-CanFlush,
}

module _ {Endpoint : Type 0} where
  abbrev waiting_in : Bool → Text → Option Endpoint → Option (Text × Endpoint)
  waiting_in false bytes (some peer) = some (bytes, peer)
  waiting_in _ bytes destination = none

  abbrev waiting : UdpFramed Endpoint → Option (Text × Endpoint)
  waiting self = waiting_in self.flushed self.send_buffer self.destination

module _ (c : PacketCodec) {Endpoint : Type 0} where
  unflushed-IsStep :
      (self : UdpFramed Endpoint) (socket : SocketPoll) (peer : Endpoint)
      → self.flushed ≡ false
      → self.destination ≡ some peer
      → IsStep c waiting (CanFlush c) self (poll_flush c self socket)
  unfolding poll_flush
  unflushed-IsStep self pending peer f d =
      rw (poll_flush, f, d)
        (record {
          sound = inr (peer, refl);
          kept_or_sent = inl (refl, refl);
          calm = λ e. cc;
          drained = λ e. absurd cc;
        })
  unflushed-IsStep self (ready (err e)) peer f d =
      rw (poll_flush, f, d)
        (record {
          sound = inr (peer, refl);
          kept_or_sent = inl (refl, refl);
          calm = λ e. cc;
          drained = λ e. absurd cc;
        })
  unflushed-IsStep self (ready (ok _)) peer f d =
      rw (poll_flush, f, d)
        (record {
          sound = inl refl;
          kept_or_sent = inr ((self.send_buffer, peer), refl, refl, refl);
          calm = λ e. cc;
          drained = λ e. refl;
        })

  pub poll_flush-IsStep :
      (self : UdpFramed Endpoint) (socket : SocketPoll)
      → CanFlush c self
      → IsStep c waiting (CanFlush c) self (poll_flush c self socket)
  unfolding poll_flush
  poll_flush-IsStep self socket h = elim (Bool-cases self.flushed) [
    | inl f ↦
        rw (poll_flush, f)
          (record {
            sound = inl refl;
            kept_or_sent = inl (refl, refl);
            calm = λ e. cc;
            drained = λ e. refl;
          })
    | inr f ↦ elim h [ inl t ↦ absurd cc | inr (peer, d) ↦ unflushed-IsStep self socket peer f d ]
  ]

  pub start_send-waiting :
      (self : UdpFramed Endpoint) (packet : c.Packet) (bytes : Text) (peer : Endpoint)
      → CanFlush c self
      → waiting self ≡ none
      → c.to_bytes packet ≡ ok bytes
      → CanFlush c (start_send c self (packet, peer)).0
        × (waiting (start_send c self (packet, peer)).0 ≡ some (bytes, peer))
  unfolding start_send
  start_send-waiting self packet bytes peer h w e =
      (start_send-CanFlush c self (packet, peer) bytes e, rw (start_send, e) refl)

  pub poll_close-IsStep :
      (self : UdpFramed Endpoint) (socket : SocketPoll)
      → CanFlush c self
      → IsStep c waiting (CanFlush c) self (poll_close c self socket)
  unfolding poll_close
  poll_close-IsStep self socket h = poll_flush-IsStep self socket h

  abbrev pub embassy_sink : DatagramSink c Endpoint
  embassy_sink = record {
    State = UdpFramed Endpoint;
    Socket = SocketPoll;
    poll_ready = poll_ready c;
    poll_flush = poll_flush c;
    poll_close = poll_close c;
    start_send = start_send c;
    waiting = waiting;
    is_sound = CanFlush c;
    is_whole = λ s socket. Unit {0};
    poll_ready-IsStep = λ s socket h _.
        subst (λ r. IsStep c waiting (CanFlush c) s r) (sym (poll_ready-poll_flush c s socket))
          (poll_flush-IsStep s socket h);
    poll_flush-IsStep = λ s socket h _. poll_flush-IsStep s socket h;
    poll_close-IsStep = λ s socket h _. poll_close-IsStep s socket h;
    start_send-waiting = start_send-waiting;
  }
