-- ===== src/Transport/Tokio/Framed.antt =====
-- coap-server-tokio/src/transport/udp_framed_fork.rs. What the socket answers to the polls of one
-- call is an argument of it; after the answers that it has ready, the socket is pending.
use coap_server_rs.Base.{
  ℕ, Bool, true, false, Option, none, some, List, [], ◌∷◌, ◌++◌, Result, ok, err, Outcome, returned,
  panicked, Text, codes, length, take, nat_beq, if◌then◌else◌, not,
}
use coap_server_rs.Transport.{Poll, ready, pending, FramedItem, Polled}

-- The traits `Decoder` and `Encoder`: each takes the buffer and says what is left of it.
pub record FramedCodec (Item IoErr Error : Type 0) : Type 0 where
  pub decode_eof : Text → Text × Result (Option Item) Error
  pub encode : Item → Text → Text × Result (Unit {0}) Error
  pub from_io : IoErr → Error

pub record UdpFramed (Endpoint : Type 0) : Type 0 where
  pub rd : Text
  pub wr : Text
  pub out_addr : Endpoint
  pub flushed : Bool
  pub is_readable : Bool
  pub current_addr : Option Endpoint

-- `0.0.0.0:0` is the address before the first send.
unfoldable pub new_framed : {Endpoint : Type 0} → Endpoint → UdpFramed Endpoint
new_framed unspecified = record {
  rd = [];
  wr = [];
  out_addr = unspecified;
  flushed = true;
  is_readable = false;
  current_addr = none;
}

-- A poll of the stream: the state, the socket's answers that were not taken, and the item. The stream
-- never ends, so the `Some` round an item is left out.
pub record Taken (Endpoint IoErr Answer : Type 0) : Type 0 where
  pub state : UdpFramed Endpoint
  pub later : List (Result (Text × Endpoint) IoErr)
  pub item : Answer

-- The head of the loop: an item of the read buffer, or no address for it, or nothing left to decode.
pub data Decoded (Item Endpoint Error : Type 0) : Type 0 where
  stopped :
      UdpFramed Endpoint
      → Result (Item × Endpoint) (Error × Option Endpoint)
      → Decoded Item Endpoint Error
  unset : Decoded Item Endpoint Error
  exhausted : UdpFramed Endpoint → Decoded Item Endpoint Error

abbrev pub StreamPoll : Type 0 → Type 0 → Type 0 → Type 0 → Type 0
StreamPoll Item Endpoint IoErr Error =
    Taken Endpoint IoErr (Outcome (Poll (Result (Item × Endpoint) (Error × Option Endpoint))))

abbrev pub SinkPoll : Type 0 → Type 0 → Type 0
SinkPoll Endpoint Error =
    Polled (UdpFramed Endpoint) Endpoint (Outcome (Poll (Result (Unit {0}) Error)))

module _ {Item IoErr Error : Type 0} (k : FramedCodec Item IoErr Error) where
  open k use {from_io}

  -- The error of a datagram that was not sent as a whole.
  abbrev write_result : (Text → IoErr) → Bool → Result (Unit {0}) Error
  write_result other_error true = ok tt
  write_result other_error false =
      err (from_io (other_error (codes "failed to write entire datagram to socket")))

module _ {Item Endpoint IoErr Error : Type 0} (k : FramedCodec Item IoErr Error) where
  open k use {decode_eof, encode, from_io}

  abbrev pub decoded :
      UdpFramed Endpoint
      → Endpoint
      → Text × Result (Option Item) Error
      → Decoded Item Endpoint Error
  decoded self addr (rd, ok (some frame)) = stopped (record self { rd = rd }) (ok (frame, addr))
  decoded self addr (rd, ok none) = exhausted (record self { rd = []; is_readable = false })
  decoded self addr (rd, err e) = stopped (record self { rd = rd }) (err (e, some addr))

  abbrev pub decode_from : UdpFramed Endpoint → Option Endpoint → Decoded Item Endpoint Error
  decode_from self none = unset
  decode_from self (some addr) = decoded self addr (decode_eof self.rd)

  unfoldable pub decode_buffer : UdpFramed Endpoint → Decoded Item Endpoint Error
  decode_buffer self =
      if self.is_readable then decode_from self self.current_addr else exhausted self

  abbrev pub filled : UdpFramed Endpoint → Text → Endpoint → UdpFramed Endpoint
  filled self datagram addr = record self {
    rd = self.rd ++ datagram;
    current_addr = some addr;
    is_readable = true;
  }

  -- `poll_next` with its loop.
  unfoldable pub poll_next :
      UdpFramed Endpoint
      → List (Result (Text × Endpoint) IoErr)
      → StreamPoll Item Endpoint IoErr Error
  unfolding decode_buffer
  poll_next self [] = elim (decode_buffer self) [
    | stopped s item ↦ record { state = s; later = []; item = returned (ready item) }
    | unset ↦ record { state = self; later = []; item = panicked }
    | exhausted s ↦ record { state = s; later = []; item = returned pending }
  ]
  poll_next self (err e ∷ later) = elim (decode_buffer self) [
    | stopped s item ↦ record { state = s; later = err e ∷ later; item = returned (ready item) }
    | unset ↦ record { state = self; later = err e ∷ later; item = panicked }
    | exhausted s ↦ record {
      state = s;
      later = later;
      item = returned (ready (err (from_io e, none)));
    }
  ]
  poll_next self (ok received ∷ later) = elim (decode_buffer self) [
    | stopped s item ↦ record {
      state = s;
      later = ok received ∷ later;
      item = returned (ready item);
    }
    | unset ↦ record { state = self; later = ok received ∷ later; item = panicked }
    | exhausted s ↦ poll_next (filled s received.0 received.1) later
  ]

  abbrev answered : UdpFramed Endpoint → Poll (Result (Unit {0}) Error) → SinkPoll Endpoint Error
  answered self a = record { state = self; sent = []; answer = returned a }

  -- The socket says how many bytes of the datagram it has sent.
  abbrev send_to :
      (Text → IoErr) → UdpFramed Endpoint → Poll (Result ℕ IoErr) → SinkPoll Endpoint Error
  send_to other_error self pending = answered self pending
  send_to other_error self (ready (err e)) = answered self (ready (err (from_io e)))
  send_to other_error self (ready (ok n)) = record {
    state = record self { wr = []; flushed = true };
    sent = (take n self.wr, self.out_addr) ∷ [];
    answer = returned (ready (write_result k other_error (nat_beq n (length self.wr))));
  }

  unfoldable pub poll_flush :
      (Text → IoErr) → UdpFramed Endpoint → Poll (Result ℕ IoErr) → SinkPoll Endpoint Error
  poll_flush other_error self socket =
      if self.flushed then answered self (ready (ok tt)) else send_to other_error self socket

  unfoldable pub poll_ready :
      (Text → IoErr) → UdpFramed Endpoint → Poll (Result ℕ IoErr) → SinkPoll Endpoint Error
  unfolding poll_flush
  poll_ready other_error self socket =
      if not self.flushed then poll_flush other_error self socket else answered self (ready (ok tt))

  unfoldable pub poll_close :
      (Text → IoErr) → UdpFramed Endpoint → Poll (Result ℕ IoErr) → SinkPoll Endpoint Error
  unfolding poll_flush
  poll_close other_error self socket = poll_flush other_error self socket

  abbrev started :
      UdpFramed Endpoint
      → Endpoint
      → Text × Result (Unit {0}) Error
      → UdpFramed Endpoint × Result (Unit {0}) Error
  started self out_addr (wr, ok _) =
      (record self { wr = wr; out_addr = out_addr; flushed = false }, ok tt)
  started self out_addr (wr, err e) = (record self { wr = wr }, err e)

  unfoldable pub start_send :
      UdpFramed Endpoint → FramedItem Item Endpoint → UdpFramed Endpoint × Result (Unit {0}) Error
  start_send self (frame, out_addr) = started self out_addr (encode frame self.wr)
