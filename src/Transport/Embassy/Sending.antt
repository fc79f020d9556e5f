-- ===== src/Transport/Embassy/Sending.antt =====
-- The sending side of the embassy transport.
use coap_server_rs.Base.{
  ℕ, zero, suc, ◌≡◌, ◌≢◌, refl, true, false, some, List, [], ◌∷◌, ◌++◌, Result, ok, err, Outcome,
  returned, panicked, Text, arith, ◌⊎◌, inl, inr, replicate, All, Bool-cases,
}
use coap_server_rs.Transport.{
  Poll, ready, pending, PacketCodec, ErrorOf, FramedItem, malformed_packet,
}
use coap_server_rs.Transport.Embassy.{
  SocketError, UdpFramed, poll_flush, poll_ready, poll_close, start_send, SendPoll, new_framed,
}

abbrev pub SocketPoll : Type 0
SocketPoll = Poll (Result (Unit {0}) SocketError)

pub data SinkCall (Packet Endpoint : Type 0) : Type 0 where
  calls_ready calls_flush calls_close : SocketPoll → SinkCall Packet Endpoint
  calls_start_send : FramedItem Packet Endpoint → SinkCall Packet Endpoint

module _ (c : PacketCodec) {Endpoint : Type 0} where
  open c use {Packet, MessageError, from_bytes, to_bytes}

  -- `poll_flush` again and again while it is pending.
  unfoldable pub flush_all : UdpFramed Endpoint → List SocketPoll → SendPoll c Endpoint
  flush_all self [] = record { state = self; sent = []; answer = returned pending }
  flush_all self (socket ∷ later) =
      let s = poll_flush c self socket in
      elim s.answer [
        | returned pending ↦ flush_all s.state later
        | returned (ready r) ↦ s
        | panicked ↦ s
      ]

  flush_pending :
      (self : UdpFramed Endpoint) (n : ℕ) (bytes : Text) (peer : Endpoint) (later : List SocketPoll)
      → self.flushed ≡ false
      → self.destination ≡ some peer
      → self.send_buffer ≡ bytes
      → flush_all self (replicate n pending ++ ready (ok tt) ∷ later) ≡ record {
        state = record self { send_buffer = []; flushed = true };
        sent = (bytes, peer) ∷ [];
        answer = returned (ready (ok tt));
      }
  unfolding flush_all poll_flush
  flush_pending self zero bytes peer later f d b = ground arith
  flush_pending self (suc n) bytes peer later f d b =
      ground (arith, flush_pending self n bytes peer later f d b)

  -- A packet that can be encoded goes out once, as one datagram of its bytes to its destination,
  -- however often the socket is not ready before it takes it; then the sink is flushed and ready.
  pub start_send-flush_all :
      (self : UdpFramed Endpoint) (packet : Packet) (bytes : Text) (peer : Endpoint) (n : ℕ)
      (later : List SocketPoll)
      → to_bytes packet ≡ ok bytes
      → let started = start_send c self (packet, peer) in
        let flushed = flush_all started.0 (replicate n pending ++ ready (ok tt) ∷ later) in
        (started.1 ≡ ok tt)
        × (flushed.sent ≡ (bytes, peer) ∷ [])
        × (flushed.answer ≡ returned (ready (ok tt)))
        × (flushed.state.flushed ≡ true)
        × (flushed.state.send_buffer ≡ [])
  unfolding start_send
  start_send-flush_all self packet bytes peer n later e =
      let started : UdpFramed Endpoint = record self {
        send_buffer = bytes;
        destination = some peer;
        flushed = false;
      } in
      rw (e, flush_pending started n bytes peer later refl refl refl) (refl, refl, refl, refl, refl)

  -- After a packet that cannot be encoded, every later readiness check, flush or close panics,
  -- whatever the socket answers: the sink is marked as not flushed and has no destination.
  pub start_send-panics :
      (self : UdpFramed Endpoint) (packet : Packet) (peer : Endpoint) (e : MessageError)
      (socket : SocketPoll)
      → to_bytes packet ≡ err e
      → let started = start_send c self (packet, peer) in
        (started.1 ≡ err (malformed_packet e))
        × ((poll_ready c started.0 socket).answer ≡ panicked)
        × ((poll_flush c started.0 socket).answer ≡ panicked)
        × ((poll_close c started.0 socket).answer ≡ panicked)
  unfolding start_send poll_ready poll_flush poll_close
  start_send-panics self packet peer e socket h = ground arith

  -- There is a destination for what has not been flushed.
  abbrev pub CanFlush : UdpFramed Endpoint → Type 0
  CanFlush self = (self.flushed ≡ true) ⊎ ((peer : Endpoint) × (self.destination ≡ some peer))

  abbrev pub IsEncodable : SinkCall Packet Endpoint → Type 0
  IsEncodable (calls_start_send item) = (bytes : Text) × (to_bytes item.0 ≡ ok bytes)
  IsEncodable _ = Unit {0}

  -- The answers to a sequence of calls; `start_send` cannot panic.
  unfoldable pub answers :
      UdpFramed Endpoint
      → List (SinkCall Packet Endpoint)
      → List (Outcome (Poll (Result (Unit {0}) (ErrorOf c))))
  answers self [] = []
  answers self (calls_ready socket ∷ calls) =
      let s = poll_ready c self socket in s.answer ∷ answers s.state calls
  answers self (calls_flush socket ∷ calls) =
      let s = poll_flush c self socket in s.answer ∷ answers s.state calls
  answers self (calls_close socket ∷ calls) =
      let s = poll_close c self socket in s.answer ∷ answers s.state calls
  answers self (calls_start_send item ∷ calls) = answers (start_send c self item).0 calls

  poll_flush-CanFlush :
      (self : UdpFramed Endpoint) (socket : SocketPoll)
      → CanFlush self
      → CanFlush (poll_flush c self socket).state × ((poll_flush c self socket).answer ≢ panicked)
  unfolding poll_flush
  poll_flush-CanFlush self socket (inl f) = rw f (inl refl, λ e. cc)
  poll_flush-CanFlush self socket (inr (peer, d)) = elim (Bool-cases self.flushed) [
    | inl f ↦ rw f (inl refl, λ e. cc)
    | inr f ↦ unflushed socket f
  ]
    where
      unflushed :
          (socket : SocketPoll)
          → self.flushed ≡ false
          → CanFlush (poll_flush c self socket).state
            × ((poll_flush c self socket).answer ≢ panicked)
      unflushed pending f = rw (f, d) (inr (peer, refl), λ e. cc)
      unflushed (ready (ok u)) f = rw (f, d) (inl refl, λ e. cc)
      unflushed (ready (err e)) f = rw (f, d) (inr (peer, refl), λ e. cc)

  pub poll_ready-poll_flush :
      (self : UdpFramed Endpoint) (socket : SocketPoll)
      → poll_ready c self socket ≡ poll_flush c self socket
  unfolding poll_ready poll_flush
  poll_ready-poll_flush self socket = elim (Bool-cases self.flushed) [
    | inl f ↦ ground (arith, f)
    | inr f ↦ ground (arith, f)
  ]

  poll_ready-CanFlush :
      (self : UdpFramed Endpoint) (socket : SocketPoll)
      → CanFlush self
      → CanFlush (poll_ready c self socket).state × ((poll_ready c self socket).answer ≢ panicked)
  poll_ready-CanFlush self socket h =
      rw (poll_ready-poll_flush self socket) (poll_flush-CanFlush self socket h)

  pub start_send-CanFlush :
      (self : UdpFramed Endpoint) (item : FramedItem Packet Endpoint) (bytes : Text)
      → to_bytes item.0 ≡ ok bytes
      → CanFlush (start_send c self item).0
  unfolding start_send
  start_send-CanFlush self item bytes e = rw e (inr (item.1, refl))

  answers_safe :
      (calls : List (SinkCall Packet Endpoint)) (self : UdpFramed Endpoint)
      → CanFlush self
      → All IsEncodable calls
      → All (λ a. a ≢ panicked) (answers self calls)
  unfolding answers poll_close
  answers_safe [] self h k = tt
  answers_safe (calls_ready socket ∷ calls) self h k =
      let s = poll_ready-CanFlush self socket h in (s.1, answers_safe calls _ s.0 k.1)
  answers_safe (calls_flush socket ∷ calls) self h k =
      let s = poll_flush-CanFlush self socket h in (s.1, answers_safe calls _ s.0 k.1)
  answers_safe (calls_close socket ∷ calls) self h k =
      let s = poll_flush-CanFlush self socket h in (s.1, answers_safe calls _ s.0 k.1)
  answers_safe (calls_start_send item ∷ calls) self h k =
      answers_safe calls _ (start_send-CanFlush self item k.0.0 k.0.1) k.1

  -- While every packet that is sent can be encoded, no call of a new sink panics, in any order of
  -- calls and whatever the socket answers.
  pub answers-new_framed :
      (mtu : ℕ) (calls : List (SinkCall Packet Endpoint))
      → All IsEncodable calls
      → All (λ a. a ≢ panicked) (answers (new_framed mtu) calls)
  unfolding new_framed
  answers-new_framed mtu calls h = answers_safe calls (new_framed mtu) (inl refl) h
